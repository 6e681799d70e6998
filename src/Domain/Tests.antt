-- ===== src/Domain/Tests.antt =====
-- A request that runs through the boundary of packages/domain, and the theorems at it.
use ultratokenizer.Base.{
  String, Text, codes, big_int, text_eq, lower, lower_char, all_chars, is_digit, is_hex_digit, Bool,
  true, ◌&&◌, ◌==◌, ◌≡◌, ◌↔◌, refl, [], ◌∷◌, ◌++◌, ok, length, if◌then◌else◌, some, ◌<◌, ◌≤◌,
}
use ultratokenizer.Base.Chars.{digits_value}
use ultratokenizer.Domain.Value.{Value, Props, obj, object_prototype, texts}
use ultratokenizer.Domain.Viem.{
  Viem, IsChecksum, TypedData, issuance_request, issuer_permit, TypedDataDomain, PermitMessage,
}
use ultratokenizer.Domain.Fields.{
  record_of, check_keys, check_fields, literal, uint, address, identifier, is_decimal, is_bytes32,
  is_zero_bytes32,
}
use ultratokenizer.Domain.Request.{
  IssuanceRequest, to_value, read_request, parse_issuance_request, assert_issuance_request_active,
  request_typed_data, get_issuance_request_typed_data, get_issuance_request_digest,
}
use ultratokenizer.Domain.Permit.{
  IssuerPermit, parse_issuer_permit, integer, get_issuer_permit_typed_data,
}
use ultratokenizer.Domain.Fields.Decimal.{big_int-injective}
use ultratokenizer.Domain.Permit.Authority.{typed_data_authorizes}
use ultratokenizer.Domain.Request.Canonical.{IsCanonical, parse-IsCanonical}
use ultratokenizer.Domain.Request.Binding.{request_typed_data-injective}
use ultratokenizer.Domain.Boundary.{
  parse_idem, digest_binds, active_iff, IsInRange, parse-IsInRange, IsExact, parse-IsExact,
}

abbrev sixteen : Text → Text
sixteen t = t ++ t ++ t ++ t ++ t ++ t ++ t ++ t ++ t ++ t ++ t ++ t ++ t ++ t ++ t ++ t

-- An identifier of 64 equal digits.
abbrev pub word : String → Text
word digit = codes "0x" ++ sixteen (codes digit ++ codes digit ++ codes digit ++ codes digit)

abbrev pub account : String → Text
account digit =
    codes "0x"
    ++ (let four = codes digit ++ codes digit ++ codes digit ++ codes digit in
        four ++ four ++ four ++ four ++ four ++ four ++ four ++ four ++ four ++ four)

-- Lower-case addresses are their own checksummed forms, and a digest tells nonces apart.
abbrev is_lower_address : Text → Bool
is_lower_address t = length t == 42 && text_eq (lower t) t

abbrev test_digest : TypedData → Text
test_digest (issuance_request d m) = if m.nonce == 1 then word "1" else word "2"
test_digest (issuer_permit d m) = word "3"

abbrev pub test_viem : Viem
test_viem = record {
  is_address = is_lower_address;
  get_address = λ t. t;
  hash_typed_data = test_digest;
  hash_claim = λ type source_id claim_id. claim_id;
}

pub test_viem-IsChecksum : IsChecksum test_viem
test_viem-IsChecksum = record {
  get_address-is_address = λ t h. h;
  get_address_idem = λ t h. refl;
  lower-get_address = λ t h. refl;
}

-- A request by nonce; the claim is `word "c"`, written with the digit given.
abbrev pub sample_props : String → String → Props
sample_props nonce digit = texts (
    ("schemaVersion", codes "1")
    ∷ ("action", codes "ISSUE")
    ∷ ("requestId", word "a")
    ∷ ("chainId", codes "43113")
    ∷ ("gate", account "b")
    ∷ ("token", account "c")
    ∷ ("recipient", account "d")
    ∷ ("amount", codes "1000")
    ∷ ("unit", codes "XAU_MILLIGRAM")
    ∷ ("issuerId", word "e")
    ∷ ("reservationId", word "f")
    ∷ ("claimCommitment", word "9")
    ∷ ("claimUsageId", word digit)
    ∷ ("policyVersion", codes "1")
    ∷ ("rightsVersion", codes "2")
    ∷ ("nonce", codes nonce)
    ∷ ("validUntil", codes "2000")
    ∷ [])

abbrev pub sample_value : Value
sample_value = obj object_prototype (sample_props "1" "c")

-- The same request with one identifier in upper case.
abbrev pub upper_value : Value
upper_value = obj object_prototype (sample_props "1" "C")

abbrev pub sample : IssuanceRequest
sample = record {
  schema_version = codes "1";
  action = codes "ISSUE";
  request_id = word "a";
  chain_id = codes "43113";
  gate = account "b";
  token = account "c";
  recipient = account "d";
  amount = codes "1000";
  unit = codes "XAU_MILLIGRAM";
  issuer_id = word "e";
  reservation_id = word "f";
  claim_commitment = word "9";
  claim_usage_id = word "c";
  policy_version = codes "1";
  rights_version = codes "2";
  nonce = codes "1";
  valid_until = codes "2000";
}

pub parse_sample : parse_issuance_request test_viem sample_value ≡ ok sample
unfolding parse_issuance_request record_of check_keys check_fields read_request literal uint
    identifier address is_bytes32 is_zero_bytes32 is_hex_digit is_digit is_decimal big_int
    digits_value all_chars lower lower_char text_eq
parse_sample = refl

pub parse_upper : parse_issuance_request test_viem upper_value ≡ ok sample
unfolding parse_issuance_request record_of check_keys check_fields read_request literal uint
    identifier address is_bytes32 is_zero_bytes32 is_hex_digit is_digit is_decimal big_int
    digits_value all_chars lower lower_char text_eq
parse_upper = refl

parse_idem_example : parse_issuance_request test_viem (to_value sample) ≡ ok sample
parse_idem_example = parse_idem test_viem upper_value sample test_viem-IsChecksum parse_upper

same_digest :
    get_issuance_request_digest test_viem sample_value
    ≡ get_issuance_request_digest test_viem upper_value
unfolding get_issuance_request_digest get_issuance_request_typed_data
same_digest = rw (parse_sample, parse_upper) refl

digest_binds_example : sample ≡ sample
digest_binds_example =
    digest_binds test_viem sample_value upper_value sample sample test_viem-IsChecksum (λ h. refl)
      parse_sample parse_upper same_digest

active_iff_example :
    (assert_issuance_request_active test_viem sample_value (some 1999) ≡ ok sample) ↔ (
      (parse_issuance_request test_viem sample_value ≡ ok sample)
      × (1999 < big_int sample.valid_until))
active_iff_example = active_iff test_viem sample_value 1999 sample

parse-IsInRange_example : IsInRange sample
parse-IsInRange_example =
    parse-IsInRange test_viem upper_value sample test_viem-IsChecksum parse_upper

parse-IsExact_example : IsExact sample_value
parse-IsExact_example = parse-IsExact test_viem sample_value sample parse_sample

sample-IsCanonical : IsCanonical test_viem sample
sample-IsCanonical =
    parse-IsCanonical test_viem test_viem-IsChecksum sample_value sample parse_sample

request_typed_data-injective_example : sample ≡ sample
request_typed_data-injective_example =
    request_typed_data-injective test_viem sample sample sample-IsCanonical sample-IsCanonical refl

is_decimal_120 : is_decimal (codes "120") ≡ true
unfolding is_decimal is_digit all_chars
is_decimal_120 = refl

big_int-injective_example : codes "120" ≡ codes "120"
big_int-injective_example =
    big_int-injective (codes "120") (codes "120") is_decimal_120 is_decimal_120 refl

abbrev permit_value : Value
permit_value = obj object_prototype (
    texts (
      ("requestDigest", word "1")
      ∷ ("issuerId", word "E")
      ∷ ("keyVersion", codes "3")
      ∷ ("nonce", codes "0")
      ∷ ("validUntil", codes "1500")
      ∷ []))

abbrev permit : IssuerPermit
permit = record {
  request_digest = word "1";
  issuer_id = word "e";
  key_version = codes "3";
  nonce = codes "0";
  valid_until = codes "1500";
}

parse_permit : parse_issuer_permit permit_value ≡ ok permit
unfolding parse_issuer_permit integer record_of check_keys check_fields identifier is_bytes32
    is_zero_bytes32 is_hex_digit is_digit is_decimal big_int digits_value all_chars lower lower_char
    text_eq
parse_permit = refl

abbrev permit_domain : TypedDataDomain
permit_domain = record {
  domain_name = "Ultratokenizer";
  version = codes "1";
  chain_id = 43113;
  verifying_contract = account "b";
}

abbrev permit_message : PermitMessage
permit_message = record {
  request_digest = word "1";
  issuer_id = word "e";
  key_version = 3;
  nonce = 0;
  valid_until = 1500;
}

digest_sample : get_issuance_request_digest test_viem (to_value sample) ≡ ok (word "1")
unfolding get_issuance_request_digest get_issuance_request_typed_data request_typed_data big_int
    digits_value
digest_sample = rw parse_idem_example refl

permit_typed :
    get_issuer_permit_typed_data test_viem sample_value permit_value
    ≡ ok (issuer_permit permit_domain permit_message)
unfolding get_issuer_permit_typed_data request_typed_data text_eq big_int digits_value
permit_typed = rw (parse_sample, parse_permit, digest_sample) refl

typed_data_authorizes_example :
    (request : IssuanceRequest) × (p : IssuerPermit) × (parse_issuance_request test_viem
        sample_value
      ≡ ok request)
    × (parse_issuer_permit permit_value ≡ ok p)
    × (get_issuance_request_digest test_viem (to_value request) ≡ ok permit_message.request_digest)
    × (permit_message.issuer_id ≡ request.issuer_id)
    × (permit_message.valid_until ≤ big_int request.valid_until)
    × (permit_message.nonce ≡ big_int p.nonce)
    × (permit_domain.chain_id ≡ big_int request.chain_id)
    × (permit_domain.verifying_contract ≡ request.gate)
typed_data_authorizes_example =
    typed_data_authorizes test_viem sample_value permit_value permit_domain permit_message
      permit_typed
