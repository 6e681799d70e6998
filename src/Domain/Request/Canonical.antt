-- ===== src/Domain/Request/Canonical.antt =====
-- A parsed request is canonical: every field reads back as itself, so parsing is idempotent.
use ultratokenizer.Base.{String, true, false, ◌≡◌, refl, ok, arith, >>=-eq-ok}
use ultratokenizer.Domain.Value.{Value, get}
use ultratokenizer.Domain.Viem.{Viem, IsChecksum}
use ultratokenizer.Domain.Fields.{record_of, literal, uint, address, identifier}
use ultratokenizer.Domain.Fields.Laws.{literal_idem, uint_idem, identifier_idem, address_idem}
use ultratokenizer.Domain.Request.{
  IssuanceRequest, to_value, request_entries, fields, read_request, parse_issuance_request,
  issuance_request_version, gold_unit, issue_action,
}

-- Each field of `r` is what its reader returns for the value given.
pub record Reads (viem : Viem) (value : String → Value) (r : IssuanceRequest) : Type 0 where
  pub schema_version :
      literal (value "schemaVersion") "schemaVersion" issuance_request_version ≡ ok r.schema_version
  pub action : literal (value "action") "action" issue_action ≡ ok r.action
  pub request_id : identifier (value "requestId") "requestId" ≡ ok r.request_id
  pub chain_id : uint (value "chainId") "chainId" 256 false ≡ ok r.chain_id
  pub gate : address viem (value "gate") "gate" ≡ ok r.gate
  pub token : address viem (value "token") "token" ≡ ok r.token
  pub recipient : address viem (value "recipient") "recipient" ≡ ok r.recipient
  pub amount : uint (value "amount") "amount" 256 false ≡ ok r.amount
  pub unit : literal (value "unit") "unit" gold_unit ≡ ok r.unit
  pub issuer_id : identifier (value "issuerId") "issuerId" ≡ ok r.issuer_id
  pub reservation_id : identifier (value "reservationId") "reservationId" ≡ ok r.reservation_id
  pub claim_commitment :
      identifier (value "claimCommitment") "claimCommitment" ≡ ok r.claim_commitment
  pub claim_usage_id : identifier (value "claimUsageId") "claimUsageId" ≡ ok r.claim_usage_id
  pub policy_version : uint (value "policyVersion") "policyVersion" 64 false ≡ ok r.policy_version
  pub rights_version : uint (value "rightsVersion") "rightsVersion" 64 false ≡ ok r.rights_version
  pub nonce : uint (value "nonce") "nonce" 256 true ≡ ok r.nonce
  pub valid_until : uint (value "validUntil") "validUntil" 64 false ≡ ok r.valid_until

-- Every field of the request is accepted as it stands.
abbrev pub IsCanonical : Viem → IssuanceRequest → Type 0
IsCanonical viem r = Reads viem (λ field. get field (request_entries r)) r

module _ (viem : Viem) where
  Reads-read :
      (value : String → Value) (r : IssuanceRequest)
      → read_request viem value ≡ ok r
      → Reads viem value r
  unfolding read_request
  Reads-read value r h = ground arith

  read-Reads :
      (value : String → Value) (r : IssuanceRequest)
      → Reads viem value r
      → read_request viem value ≡ ok r
  unfolding read_request
  read-Reads value r h = ground arith

  Reads-IsCanonical :
      IsChecksum viem
      → (value : String → Value) (r : IssuanceRequest) → Reads viem value r
      → IsCanonical viem r
  Reads-IsCanonical laws value r h = record {
    schema_version = (literal_idem _ "schemaVersion" _ h.schema_version).1;
    action = (literal_idem _ "action" _ h.action).1;
    request_id = identifier_idem _ "requestId" h.request_id;
    chain_id = uint_idem _ "chainId" 256 false h.chain_id;
    gate = address_idem viem laws _ "gate" h.gate;
    token = address_idem viem laws _ "token" h.token;
    recipient = address_idem viem laws _ "recipient" h.recipient;
    amount = uint_idem _ "amount" 256 false h.amount;
    unit = (literal_idem _ "unit" _ h.unit).1;
    issuer_id = identifier_idem _ "issuerId" h.issuer_id;
    reservation_id = identifier_idem _ "reservationId" h.reservation_id;
    claim_commitment = identifier_idem _ "claimCommitment" h.claim_commitment;
    claim_usage_id = identifier_idem _ "claimUsageId" h.claim_usage_id;
    policy_version = uint_idem _ "policyVersion" 64 false h.policy_version;
    rights_version = uint_idem _ "rightsVersion" 64 false h.rights_version;
    nonce = uint_idem _ "nonce" 256 true h.nonce;
    valid_until = uint_idem _ "validUntil" 64 false h.valid_until;
  }

  record_of-to_value :
      (r : IssuanceRequest) → record_of fields (to_value r) ≡ ok (request_entries r)
  unfolding record_of
  record_of-to_value r = refl

  pub parse_of_IsCanonical :
      (r : IssuanceRequest) → IsCanonical viem r → parse_issuance_request viem (to_value r) ≡ ok r
  unfolding parse_issuance_request
  parse_of_IsCanonical r h = rw (record_of-to_value r) (read-Reads _ r h)

  pub parse-IsCanonical :
      IsChecksum viem
      → (input : Value) (r : IssuanceRequest) → parse_issuance_request viem input ≡ ok r
      → IsCanonical viem r
  unfolding parse_issuance_request
  parse-IsCanonical laws input r h =
      let (es, _, e) =
        >>=-eq-ok (record_of fields input) (λ value. read_request viem (λ field. get field value))
          h in
      Reads-IsCanonical laws _ r (Reads-read _ r e)
