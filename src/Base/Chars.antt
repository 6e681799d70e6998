-- ===== src/Base/Chars.antt =====
-- The text of a JavaScript string as the list of its code units, with the classes of characters
-- that the regular expressions of the program name, and `BigInt` of a decimal text.
use Prim.Native.Nat.{ℕ, zero, suc, ◌+◌, ◌-◌, ◌*◌, ◌/◌, ◌%◌, ◌<◌}
use Prim.Native.Char.{code}
use Prim.Native.String.{String}
use mathlib.Core.Path.{◌≡◌, refl}
use mathlib.Core.Logic.{◌↔◌}
use mathlib.Core.Bool.{Bool, true, false, ◌&&◌, ◌||◌}
use mathlib.Core.List.{List, [], ◌∷◌, map}
use native.Mathlib.Omega.{arith}
use ultratokenizer.Base.Tests.{ltb, leb, ◌==◌, if◌then◌else◌}

abbrev pub Text : Type 0
Text = List ℕ

-- The code units of an ASCII literal.
abbrev pub codes : String → Text
codes String.[] = []
codes (String.◌∷◌ c s) = code c ∷ codes s

-- `===` on strings.
unfoldable pub text_eq : Text → Text → Bool
text_eq [] [] = true
text_eq [] (_ ∷ _) = false
text_eq (_ ∷ _) [] = false
text_eq (a ∷ s) (b ∷ t) = a == b && text_eq s t

unfoldable pub is_digit : ℕ → Bool
is_digit c = leb b'0' c && leb c b'9'

-- `[0-9a-fA-F]`
unfoldable pub is_hex_digit : ℕ → Bool
unfolding is_digit
is_hex_digit c = is_digit c || (leb b'a' c && leb c b'f' || leb b'A' c && leb c b'F')

unfoldable pub lower_char : ℕ → ℕ
lower_char c = if leb b'A' c && leb c b'Z' then c + 32 else c

-- `toLowerCase` on ASCII text.
unfoldable pub lower : Text → Text
unfolding lower_char
lower t = map lower_char t

unfoldable pub all_chars : (ℕ → Bool) → Text → Bool
all_chars p [] = true
all_chars p (c ∷ t) = p c && all_chars p t

unfoldable pub digits_value : ℕ → Text → ℕ
digits_value acc [] = acc
digits_value acc (c ∷ t) = digits_value (acc * 10 + (c - b'0')) t

-- `BigInt` of a text of decimal digits.
unfoldable pub big_int : Text → ℕ
unfolding digits_value
big_int t = digits_value 0 t

unfoldable pub digits : ℕ → ℕ → Text → Text
digits zero n more = more
digits (suc fuel) n more =
    let rest = digits fuel (n / 10) ((n % 10 + b'0') ∷ more) in
    if ltb n 10 then (n + b'0') ∷ more else rest

-- `toString` of a nonnegative bigint.
unfoldable pub decimal : ℕ → Text
unfolding digits
decimal n = digits (suc n) n []

digits_value-digits :
    (fuel n : ℕ) (more : Text)
    → n < fuel
    → digits_value 0 (digits fuel n more) ≡ digits_value n more
unfolding digits digits_value
digits_value-digits zero n more h = absurd (omega (arith, h))
digits_value-digits (suc fuel) n more h =
    ground (arith, h, digits_value-digits fuel (n / 10) ((n % 10 + b'0') ∷ more))

-- A number is read back from its decimal text.
pub big_int-decimal : (n : ℕ) → big_int (decimal n) ≡ n
unfolding decimal big_int digits_value
big_int-decimal n = digits_value-digits (suc n) n [] (omega arith)

-- The white space and the line ends that `trim` takes off.
unfoldable pub is_space : ℕ → Bool
is_space c =
    leb 9 c && leb c 13
    || c == 0x20
    || c == 0xa0
    || c == 0x1680
    || leb 0x2000 c && leb c 0x200a
    || c == 0x2028
    || c == 0x2029
    || c == 0x202f
    || c == 0x205f
    || c == 0x3000
    || c == 0xfeff

-- The bytes in UTF-8 of a code unit that is no half of a surrogate pair.
unfoldable pub unit_bytes : ℕ → ℕ
unit_bytes c = if ltb c 0x80 then 1 else if ltb c 0x800 then 2 else 3

-- `Buffer.byteLength(value, 'utf8')`; half a pair is replaced by three bytes.
unfoldable pub byte_length : Text → ℕ
unfolding unit_bytes
byte_length [] = 0
byte_length (c ∷ []) = unit_bytes c
byte_length (c ∷ d ∷ t) =
    let pair = 4 + byte_length t in
    let single = unit_bytes c + byte_length (d ∷ t) in
    if leb 0xd800 c && leb c 0xdbff && leb 0xdc00 d && leb d 0xdfff then pair else single

pub text_eq_refl : (t : Text) → text_eq t t ≡ true
unfolding text_eq
text_eq_refl [] = refl
text_eq_refl (c ∷ t) = ground (arith, text_eq_refl t)

eq_of_text_eq : (s t : Text) → text_eq s t ≡ true → s ≡ t
unfolding text_eq
eq_of_text_eq [] [] h = refl
eq_of_text_eq [] (b ∷ t) h = cc
eq_of_text_eq (a ∷ s) [] h = cc
eq_of_text_eq (a ∷ s) (b ∷ t) h = ground (arith, eq_of_text_eq s t)

-- The comparison of texts decides their equality.
pub text_eq_iff : (s t : Text) → (text_eq s t ≡ true) ↔ (s ≡ t)
text_eq_iff s t = (eq_of_text_eq s t, λ e. rw e (text_eq_refl t))
