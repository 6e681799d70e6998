-- ===== src/Domain/Fields.antt =====
-- The field readers of packages/domain/src/issuance-request.ts, which issuer-permit.ts and
-- claim-identity.ts repeat.
pub mod Laws
pub mod Decimal
use ultratokenizer.Base.{
  ℕ, ◌^◌, String, Text, codes, text_eq, lower, all_chars, big_int, is_digit, is_hex_digit, Bool,
  false, not, ◌&&◌, ◌||◌, List, [], ◌∷◌, ok, leb, ltb, ◌==◌, length, if◌then◌else◌, ◌>>◌, throw_if,
}
use ultratokenizer.Domain.Value.{
  Value, str, obj, Key, name, symbol, Entry, entries, is_plain, is_one_of, has_own,
}
use ultratokenizer.Domain.Viem.{Viem, zero_address}
use ultratokenizer.Domain.Errors.{
  Checked, fail, failure, invalid_shape, unknown_field, missing_field, invalid_literal,
  invalid_integer, integer_out_of_range, invalid_address, invalid_identifier,
}

-- The field that an error about a key names.
abbrev pub key_field : Key → String
key_field (name k) = k
key_field symbol = "$"

-- The first loop of `record`: every own key is one of the fields.
unfoldable pub check_keys : List String → List Entry → Checked (Unit {0})
check_keys fields [] = ok tt
check_keys fields (e ∷ es) =
    if is_one_of fields e.key then check_keys fields es else fail unknown_field (key_field e.key)

-- The second: every field is an own key.
unfoldable pub check_fields : List String → List Entry → Checked (Unit {0})
check_fields [] es = ok tt
check_fields (field ∷ fields) es =
    if has_own field es then check_fields fields es else fail missing_field field

unfoldable pub record_of : List String → Value → Checked (List Entry)
unfolding check_keys check_fields
record_of fields (obj proto props) = do
  throw_if (not (is_plain proto)) (failure invalid_shape "$")
  check_keys fields (entries props)
  check_fields fields (entries props)
  ok (entries props)
record_of fields _ = fail invalid_shape "$"

unfoldable pub literal : Value → String → Text → Checked Text
literal (str t) field expected =
    if text_eq t expected then ok expected else fail invalid_literal field
literal _ field expected = fail invalid_literal field

-- `/^(0|[1-9][0-9]*)$/`
unfoldable pub is_decimal : Text → Bool
is_decimal [] = false
is_decimal (c ∷ t) =
    (c == b'0' && length t == 0) || (leb b'1' c && leb c b'9' && all_chars is_digit t)

abbrev pub maximum_digits : ℕ → ℕ
maximum_digits bits = if bits == 64 then 20 else 78

-- `bits` is 64 or 256.
unfoldable pub uint : Value → String → ℕ → Bool → Checked Text
uint (str t) field bits allow_zero = do
  throw_if (ltb (maximum_digits bits) (length t) || not (is_decimal t))
      (failure invalid_integer field)
  let integer = big_int t
  throw_if (not allow_zero && integer == 0 || leb (2 ^ bits) integer)
      (failure integer_out_of_range field)
  ok t
uint _ field bits allow_zero = fail invalid_integer field

unfoldable pub address : Viem → Value → String → Checked Text
address viem (str t) field = do
  throw_if (not (viem.is_address t) || text_eq (lower t) zero_address)
      (failure invalid_address field)
  ok (viem.get_address t)
address viem _ field = fail invalid_address field

-- `/^0x[0-9a-fA-F]{64}$/`
unfoldable pub is_bytes32 : Text → Bool
is_bytes32 (a ∷ b ∷ t) = a == b'0' && b == b'x' && length t == 64 && all_chars is_hex_digit t
is_bytes32 _ = false

-- `/^0x0{64}$/`
unfoldable pub is_zero_bytes32 : Text → Bool
is_zero_bytes32 (a ∷ b ∷ t) =
    a == b'0' && b == b'x' && length t == 64 && all_chars (λ c. c == b'0') t
is_zero_bytes32 _ = false

unfoldable pub identifier : Value → String → Checked Text
identifier (str t) field = do
  throw_if (not (is_bytes32 t) || is_zero_bytes32 t) (failure invalid_identifier field)
  ok (lower t)
identifier _ field = fail invalid_identifier field
