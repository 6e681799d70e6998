-- ===== src/Domain/Request.antt =====
-- packages/domain/src/issuance-request.ts and request-digest.ts.
pub mod Canonical
pub mod Binding
pub mod Json
pub mod Serialize
use ultratokenizer.Base.{
  ℕ, String, Text, codes, big_int, true, false, List, [], ◌∷◌, Option, none, some, ok, ◌>>=◌, ◌>>◌,
  throw_if, leb,
}
use ultratokenizer.Domain.Value.{Value, Props, Entry, entries, obj, object_prototype, texts, get}
use ultratokenizer.Domain.Viem.{Viem, TypedData, issuance_request}
use ultratokenizer.Domain.Errors.{Checked, fail, failure, invalid_time, expired_request}
use ultratokenizer.Domain.Fields.{record_of, literal, uint, address, identifier}

abbrev pub issuance_request_version : Text
issuance_request_version = codes "1"

abbrev pub gold_unit : Text
gold_unit = codes "XAU_MILLIGRAM"

abbrev pub issue_action : Text
issue_action = codes "ISSUE"

abbrev pub fields : List String
fields =
    "schemaVersion" ∷ "action" ∷ "requestId" ∷ "chainId" ∷ "gate" ∷ "token" ∷ "recipient" ∷ "amount"
    ∷ "unit" ∷ "issuerId" ∷ "reservationId" ∷ "claimCommitment" ∷ "claimUsageId" ∷ "policyVersion"
    ∷ "rightsVersion" ∷ "nonce" ∷ "validUntil" ∷ []

pub record IssuanceRequest : Type 0 where
  pub schema_version : Text
  pub action : Text
  pub request_id : Text
  pub chain_id : Text
  pub gate : Text
  pub token : Text
  pub recipient : Text
  pub amount : Text
  pub unit : Text
  pub issuer_id : Text
  pub reservation_id : Text
  pub claim_commitment : Text
  pub claim_usage_id : Text
  pub policy_version : Text
  pub rights_version : Text
  pub nonce : Text
  pub valid_until : Text

-- The own properties of the frozen record, in the order of its fields.
abbrev pub request_texts : IssuanceRequest → List (String × Text)
request_texts r =
    ("schemaVersion", r.schema_version)
    ∷ ("action", r.action)
    ∷ ("requestId", r.request_id)
    ∷ ("chainId", r.chain_id)
    ∷ ("gate", r.gate)
    ∷ ("token", r.token)
    ∷ ("recipient", r.recipient)
    ∷ ("amount", r.amount)
    ∷ ("unit", r.unit)
    ∷ ("issuerId", r.issuer_id)
    ∷ ("reservationId", r.reservation_id)
    ∷ ("claimCommitment", r.claim_commitment)
    ∷ ("claimUsageId", r.claim_usage_id)
    ∷ ("policyVersion", r.policy_version)
    ∷ ("rightsVersion", r.rights_version)
    ∷ ("nonce", r.nonce)
    ∷ ("validUntil", r.valid_until)
    ∷ []

abbrev request_props : IssuanceRequest → Props
request_props r = texts (request_texts r)

abbrev pub request_entries : IssuanceRequest → List Entry
request_entries r = entries (request_props r)

abbrev pub to_value : IssuanceRequest → Value
to_value r = obj object_prototype (request_props r)

module _ (viem : Viem) where
  -- The fields of the object that `record` has admitted, read in the order of the source.
  unfoldable pub read_request : (String → Value) → Checked IssuanceRequest
  read_request value = do
    schema_version ← literal (value "schemaVersion") "schemaVersion" issuance_request_version
    action ← literal (value "action") "action" issue_action
    request_id ← identifier (value "requestId") "requestId"
    chain_id ← uint (value "chainId") "chainId" 256 false
    gate ← address viem (value "gate") "gate"
    token ← address viem (value "token") "token"
    recipient ← address viem (value "recipient") "recipient"
    amount ← uint (value "amount") "amount" 256 false
    unit ← literal (value "unit") "unit" gold_unit
    issuer_id ← identifier (value "issuerId") "issuerId"
    reservation_id ← identifier (value "reservationId") "reservationId"
    claim_commitment ← identifier (value "claimCommitment") "claimCommitment"
    claim_usage_id ← identifier (value "claimUsageId") "claimUsageId"
    policy_version ← uint (value "policyVersion") "policyVersion" 64 false
    rights_version ← uint (value "rightsVersion") "rightsVersion" 64 false
    nonce ← uint (value "nonce") "nonce" 256 true
    valid_until ← uint (value "validUntil") "validUntil" 64 false
    ok (record {
      schema_version = schema_version;
      action = action;
      request_id = request_id;
      chain_id = chain_id;
      gate = gate;
      token = token;
      recipient = recipient;
      amount = amount;
      unit = unit;
      issuer_id = issuer_id;
      reservation_id = reservation_id;
      claim_commitment = claim_commitment;
      claim_usage_id = claim_usage_id;
      policy_version = policy_version;
      rights_version = rights_version;
      nonce = nonce;
      valid_until = valid_until;
    })

  unfoldable pub parse_issuance_request : Value → Checked IssuanceRequest
  parse_issuance_request input = do
    value ← record_of fields input
    read_request (λ field. get field value)

  -- `now` is `none` for a clock that is no nonnegative bigint.
  unfoldable pub assert_issuance_request_active : Value → Option ℕ → Checked IssuanceRequest
  assert_issuance_request_active input none = do
    request ← parse_issuance_request input
    fail invalid_time "now"
  assert_issuance_request_active input (some now) = do
    request ← parse_issuance_request input
    throw_if (leb (big_int request.valid_until) now) (failure expired_request "validUntil")
    ok request

  -- `parseIssuanceRequest` of request-digest.ts is done by its callers below.
  unfoldable pub request_typed_data : IssuanceRequest → TypedData
  request_typed_data request =
      issuance_request
        (record {
          domain_name = "Ultratokenizer";
          version = request.schema_version;
          chain_id = big_int request.chain_id;
          verifying_contract = request.gate;
        })
        (record {
          schema_version = big_int request.schema_version;
          action = request.action;
          request_id = request.request_id;
          token = request.token;
          recipient = request.recipient;
          amount = big_int request.amount;
          unit = request.unit;
          issuer_id = request.issuer_id;
          reservation_id = request.reservation_id;
          claim_commitment = request.claim_commitment;
          claim_usage_id = request.claim_usage_id;
          policy_version = big_int request.policy_version;
          rights_version = big_int request.rights_version;
          nonce = big_int request.nonce;
          valid_until = big_int request.valid_until;
        })

  unfoldable pub get_issuance_request_typed_data : Value → Checked TypedData
  get_issuance_request_typed_data input = do
    request ← parse_issuance_request input
    ok (request_typed_data request)

  unfoldable pub get_issuance_request_digest : Value → Checked Text
  unfolding get_issuance_request_typed_data
  get_issuance_request_digest input = do
    typed ← get_issuance_request_typed_data input
    ok (viem.hash_typed_data typed)
