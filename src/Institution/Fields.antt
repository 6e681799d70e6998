-- ===== src/Institution/Fields.antt =====
-- The readers of untrusted input in packages/institution/src/ledger.ts.
use ultratokenizer.Base.{
  ℕ, ◌-◌, ◌^◌, String, Text, text_eq, lower, all_chars, big_int, is_digit, Bool, true, false, not,
  ◌&&◌, ◌||◌, List, [], ◌∷◌, ok, err, ltb, leb, ◌==◌, length, any, if◌then◌else◌, ◌>>◌, throw_if,
  is_space, byte_length,
}
use ultratokenizer.Domain.Value.{Value, str, obj, Entry, entries, is_plain, is_one_of}
use ultratokenizer.Domain.Viem.{Viem, zero_address}
use ultratokenizer.Domain.Fields.{is_bytes32, is_decimal}
use ultratokenizer.Institution.Errors.{LedgerResult, invalid_input}

abbrev pub max_amount : ℕ
max_amount = 2 ^ 63 - 1

abbrev pub max_uint : ℕ
max_uint = 2 ^ 256 - 1

-- Own properties that are just the fields, each a string key that holds its value.
unfoldable pub record_of : List String → Value → LedgerResult (List Entry)
record_of fields (obj proto props) = do
  throw_if (not (is_plain proto)) invalid_input
  throw_if
      (not (length (entries props) == length fields)
        || any (λ e. not (is_one_of fields e.key) || e.accessor) (entries props))
      invalid_input
  ok (entries props)
record_of fields _ = err invalid_input

-- `/^0x0+$/`
unfoldable pub is_zero_hex : Text → Bool
is_zero_hex (a ∷ b ∷ c ∷ t) = a == b'0' && b == b'x' && c == b'0' && all_chars (λ d. d == b'0') t
is_zero_hex _ = false

unfoldable pub hash : Value → LedgerResult Text
hash (str t) = do throw_if (not (is_bytes32 t) || is_zero_hex t) invalid_input; ok (lower t)
hash _ = err invalid_input

unfoldable pub address : Viem → Value → LedgerResult Text
address viem (str t) = do
  throw_if (not (viem.is_address t) || text_eq (viem.get_address t) zero_address) invalid_input
  ok (viem.get_address t)
address viem _ = err invalid_input

-- `/^[1-9][0-9]*$/`
unfoldable pub is_positive_decimal : Text → Bool
is_positive_decimal [] = false
is_positive_decimal (c ∷ t) = leb b'1' c && leb c b'9' && all_chars is_digit t

unfoldable pub integer : Value → ℕ → Bool → LedgerResult Text
integer (str t) maximum zero = do
  throw_if
      (ltb 78 (length t)
        || not (if zero then is_decimal t else is_positive_decimal t)
        || ltb maximum (big_int t))
      invalid_input
  ok t
integer _ maximum zero = err invalid_input

unfoldable pub ends_in_space : Text → Bool
ends_in_space [] = false
ends_in_space (c ∷ []) = is_space c
ends_in_space (c ∷ d ∷ t) = ends_in_space (d ∷ t)

-- `value.trim() === value` for a nonempty text.
unfoldable pub is_trimmed : Text → Bool
unfolding is_space ends_in_space
is_trimmed [] = true
is_trimmed (c ∷ t) = not (is_space c) && not (ends_in_space (c ∷ t))

-- No unit of a surrogate pair is a control character, so the test by characters is one by units.
unfoldable pub reference : Value → LedgerResult Text
unfolding is_trimmed byte_length
reference (str t) = do
  throw_if
      (length t == 0
        || not (is_trimmed t)
        || ltb 512 (byte_length t)
        || not (all_chars (λ c. not (ltb c 0x20 || c == 0x7f)) t))
      invalid_input
  ok t
reference _ = err invalid_input
