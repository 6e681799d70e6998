-- ===== src/Domain/Permit.antt =====
-- packages/domain/src/issuer-permit.ts
pub mod Authority
use ultratokenizer.Base.{
  ℕ, ◌^◌, String, Text, codes, text_eq, big_int, Bool, true, false, not, ◌&&◌, ◌||◌, List, [], ◌∷◌,
  ok, ◌>>=◌, ◌>>◌, throw_if, ltb, leb, length, if◌then◌else◌,
}
use ultratokenizer.Domain.Value.{Value, str, get}
use ultratokenizer.Domain.Viem.{Viem, TypedData, issuer_permit}
use ultratokenizer.Domain.Errors.{
  Checked, fail, failure, invalid_integer, integer_out_of_range, invalid_identifier, invalid_time,
}
use ultratokenizer.Domain.Fields.{record_of, identifier, is_decimal}
use ultratokenizer.Domain.Request.{to_value, parse_issuance_request, get_issuance_request_digest}

pub record IssuerPermit : Type 0 where
  pub request_digest : Text
  pub issuer_id : Text
  pub key_version : Text
  pub nonce : Text
  pub valid_until : Text

abbrev pub permit_fields : List String
permit_fields = "requestDigest" ∷ "issuerId" ∷ "keyVersion" ∷ "nonce" ∷ "validUntil" ∷ []

-- The closure `integer`; `is_nonce` is `field === 'nonce'`.
unfoldable pub integer : Value → String → Bool → Checked Text
integer (str t) field is_nonce = do
  let bits : ℕ = if is_nonce then 256 else 64
  throw_if (ltb (if is_nonce then 78 else 20) (length t) || not (is_decimal t))
      (failure invalid_integer field)
  throw_if (not is_nonce && text_eq t (codes "0") || leb (2 ^ bits) (big_int t))
      (failure integer_out_of_range field)
  ok t
integer _ field is_nonce = fail invalid_integer field

unfoldable pub parse_issuer_permit : Value → Checked IssuerPermit
parse_issuer_permit input = do
  permit ← record_of permit_fields input
  request_digest ← identifier (get "requestDigest" permit) "requestDigest"
  issuer_id ← identifier (get "issuerId" permit) "issuerId"
  key_version ← integer (get "keyVersion" permit) "keyVersion" false
  nonce ← integer (get "nonce" permit) "nonce" true
  valid_until ← integer (get "validUntil" permit) "validUntil" false
  ok (record {
    request_digest = request_digest;
    issuer_id = issuer_id;
    key_version = key_version;
    nonce = nonce;
    valid_until = valid_until;
  })

module _ (viem : Viem) where
  unfoldable pub get_issuer_permit_typed_data : Value → Value → Checked TypedData
  get_issuer_permit_typed_data request_input permit_input = do
    request ← parse_issuance_request viem request_input
    permit ← parse_issuer_permit permit_input
    digest ← get_issuance_request_digest viem (to_value request)
    throw_if
        (not (text_eq permit.request_digest digest)
          || not (text_eq permit.issuer_id request.issuer_id))
        (failure invalid_identifier "requestDigest")
    throw_if (ltb (big_int request.valid_until) (big_int permit.valid_until))
        (failure invalid_time "validUntil")
    ok (
        issuer_permit
          (record {
            domain_name = "Ultratokenizer";
            version = codes "1";
            chain_id = big_int request.chain_id;
            verifying_contract = request.gate;
          })
          (record {
            request_digest = permit.request_digest;
            issuer_id = permit.issuer_id;
            key_version = big_int permit.key_version;
            nonce = big_int permit.nonce;
            valid_until = big_int permit.valid_until;
          }))

  unfoldable pub get_issuer_permit_digest : Value → Value → Checked Text
  unfolding get_issuer_permit_typed_data
  get_issuer_permit_digest request_input permit_input = do
    typed ← get_issuer_permit_typed_data request_input permit_input
    ok (viem.hash_typed_data typed)
