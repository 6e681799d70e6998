-- ===== src/Domain/Fields/Laws.antt =====
-- Every reader returns a canonical text: reading its result again gives the same text.
use ultratokenizer.Base.{
  ℕ, suc, ◌<◌, ◌^◌, String, Text, text_eq_refl, lower, lower_char, all_chars, is_hex_digit, big_int,
  Bool, true, false, ◌≡◌, refl, ap, [], ◌∷◌, ok, length, arith, ◌==◌,
}
use ultratokenizer.Domain.Value.{Value, str}
use ultratokenizer.Domain.Viem.{Viem, IsChecksum}
use ultratokenizer.Domain.Fields.{
  literal, uint, address, identifier, is_bytes32, is_zero_bytes32, is_decimal,
}

pub literal_idem :
    (v : Value) (field : String) (expected : Text) {t : Text}
    → literal v field expected ≡ ok t
    → (t ≡ expected) × (literal (str t) field expected ≡ ok t)
unfolding literal
literal_idem (str s) field expected h = ground (arith, text_eq_refl expected)
literal_idem v field expected h = cc

pub uint_idem :
    (v : Value) (field : String) (bits : ℕ) (zero_ok : Bool) {t : Text}
    → uint v field bits zero_ok ≡ ok t
    → uint (str t) field bits zero_ok ≡ ok t
unfolding uint
uint_idem (str s) field bits zero_ok {t} h = let same : s ≡ t = ground arith in rw same at h
uint_idem v field bits zero_ok h = cc

-- What is read is canonical and below the bound, and nonzero where zero is not admitted.
pub uint_lt :
    (v : Value) (field : String) (bits : ℕ) (zero_ok : Bool) {t : Text}
    → uint v field bits zero_ok ≡ ok t
    → (is_decimal t ≡ true) × (big_int t < 2 ^ bits) × (zero_ok ≡ false → 0 < big_int t)
unfolding uint
uint_lt (str s) field bits zero_ok h = ground arith
uint_lt v field bits zero_ok h = cc

lower_char_idem : (c : ℕ) → lower_char (lower_char c) ≡ lower_char c
unfolding lower_char
lower_char_idem c = ground arith

pub lower_idem : (t : Text) → lower (lower t) ≡ lower t
unfolding lower
lower_idem [] = refl
lower_idem (c ∷ t) = cc (lower_char_idem c, lower_idem t)

length-lower : (t : Text) → length (lower t) ≡ length t
unfolding lower
length-lower [] = refl
length-lower (c ∷ t) = ap suc (length-lower t)

is_hex_digit-lower_char : (c : ℕ) → is_hex_digit (lower_char c) ≡ is_hex_digit c
unfolding is_hex_digit lower_char
is_hex_digit-lower_char c = ground arith

all_hex-lower : (t : Text) → all_chars is_hex_digit (lower t) ≡ all_chars is_hex_digit t
unfolding all_chars lower
all_hex-lower [] = refl
all_hex-lower (c ∷ t) = cc (is_hex_digit-lower_char c, all_hex-lower t)

is_zero-lower_char : (c : ℕ) → (lower_char c == b'0') ≡ (c == b'0')
unfolding lower_char
is_zero-lower_char c = ground arith

lower_zero : (c : ℕ) → c ≡ b'0' → lower_char c ≡ b'0'
unfolding lower_char
lower_zero c h = ground arith

lower_x : (c : ℕ) → c ≡ b'x' → lower_char c ≡ b'x'
unfolding lower_char
lower_x c h = ground arith

cons-lower : (c : ℕ) (t : Text) → lower (c ∷ t) ≡ lower_char c ∷ lower t
unfolding lower
cons-lower c t = refl

all_zero-lower : (t : Text) → all_chars (λ c. c == b'0') (lower t) ≡ all_chars (λ c. c == b'0') t
unfolding all_chars lower
all_zero-lower [] = refl
all_zero-lower (c ∷ t) = cc (is_zero-lower_char c, all_zero-lower t)

bytes32-lower :
    (t : Text)
    → is_bytes32 t ≡ true
    → (is_bytes32 (lower t) ≡ true) × (is_zero_bytes32 (lower t) ≡ is_zero_bytes32 t)
unfolding is_bytes32 is_zero_bytes32
bytes32-lower [] h = cc
bytes32-lower (a ∷ []) h = cc
bytes32-lower (a ∷ b ∷ t) h = ground (
  arith,
  length-lower t,
  all_hex-lower t,
  all_zero-lower t,
  lower_zero a,
  lower_x b,
  cons-lower a (b ∷ t),
  cons-lower b t,
)

pub identifier_idem :
    (v : Value) (field : String) {t : Text}
    → identifier v field ≡ ok t
    → identifier (str t) field ≡ ok t
unfolding identifier
identifier_idem (str s) field {t} h =
    let same : t ≡ lower s = ground arith in rw same (ground (arith, bytes32-lower s, lower_idem s))
identifier_idem v field h = cc

pub address_idem :
    (viem : Viem)
    → IsChecksum viem
    → (v : Value) (field : String) {t : Text} → address viem v field ≡ ok t
    → address viem (str t) field ≡ ok t
unfolding address
address_idem viem laws (str s) field {t} h =
    let same : t ≡ viem.get_address s = ground arith in
    rw same (
      ground
        (arith, laws.get_address-is_address s, laws.get_address_idem s, laws.lower-get_address s))
address_idem viem laws v field h = cc
