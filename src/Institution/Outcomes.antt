-- ===== src/Institution/Outcomes.antt =====
-- Chain observations: `observation` of packages/institution/src/ledger.ts, and the comparisons of
-- JSON texts as comparisons of the values that they write.
use ultratokenizer.Base.{
  String, Text, codes, text_eq, Bool, true, false, not, ◌&&◌, ◌||◌, List, [], ◌∷◌, ◌++◌, Option,
  none, some, ok, err, if◌then◌else◌, ◌>>=◌, ◌>>◌, throw_if, rethrow,
}
use ultratokenizer.Domain.Value.{Value, str, boolean, Entry, get}
use ultratokenizer.Domain.Viem.{Viem}
use ultratokenizer.Domain.Request.{IssuanceRequest}
use ultratokenizer.Institution.Errors.{LedgerResult, invalid_input, invalid_outcome}
use ultratokenizer.Institution.Fields.{record_of, hash, address, integer, max_uint}
use ultratokenizer.Institution.Types.{
  ChainObservation, Reason, revoked_unused, expired_unused, Outcome, Observation, AllocationState,
}

-- The kind that a settling method asks for.
pub data Kind : Type 0 where
  issued unused expired_unopened : Kind

abbrev pub kind_name : Kind → Text
kind_name Kind.issued = codes "issued"
kind_name Kind.unused = codes "unused"
kind_name Kind.expired_unopened = codes "expired-unopened"

abbrev pub observation_fields : List String
observation_fields =
    "kind" ∷ "requestDigest" ∷ "chainId" ∷ "gate" ∷ "reservationId" ∷ "claimUsageId" ∷ "blockHash"
    ∷ "blockNumber" ∷ []

abbrev pub kind_fields : Kind → List String
kind_fields Kind.issued = "transactionHash" ∷ []
kind_fields Kind.unused =
    "reason" ∷ "reservationReleased" ∷ "reservationUsed" ∷ "requestUsed" ∷ "claimUsed" ∷ []
kind_fields Kind.expired_unopened =
    "blockTimestamp" ∷ "reservationAbsent" ∷ "requestUsed" ∷ "claimUsed" ∷ []

-- `value === text`
abbrev pub is_text : Text → Value → Bool
is_text t (str s) = text_eq s t
is_text t _ = false

abbrev pub is_true : Value → Bool
is_true (boolean b) = b
is_true _ = false

abbrev pub is_false : Value → Bool
is_false (boolean b) = not b
is_false _ = false

-- `data.reason`, one of two texts.
unfoldable pub reason_of : Value → LedgerResult Reason
reason_of v =
    if is_text (codes "revoked-unused") v
    then ok revoked_unused
    else if is_text (codes "expired-unused") v
    then ok expired_unused
    else err invalid_input

unfoldable pub read_common : Viem → List Entry → LedgerResult ChainObservation
read_common viem es = do
  request_digest ← hash (get "requestDigest" es)
  chain_id ← integer (get "chainId" es) max_uint false
  gate ← address viem (get "gate" es)
  reservation_id ← hash (get "reservationId" es)
  claim_usage_id ← hash (get "claimUsageId" es)
  block_hash ← hash (get "blockHash" es)
  block_number ← integer (get "blockNumber" es) max_uint true
  ok (record {
    request_digest = request_digest;
    chain_id = chain_id;
    gate = gate;
    reservation_id = reservation_id;
    claim_usage_id = claim_usage_id;
    block_hash = block_hash;
    block_number = block_number;
  })

unfoldable pub read_outcome : Kind → List Entry → LedgerResult Outcome
unfolding reason_of
read_outcome Kind.issued es = do
  transaction_hash ← hash (get "transactionHash" es)
  ok (Outcome.issued transaction_hash)
read_outcome Kind.expired_unopened es = do
  throw_if
      (not (is_true (get "reservationAbsent" es))
        || not (is_false (get "requestUsed" es))
        || not (is_false (get "claimUsed" es)))
      invalid_input
  block_timestamp ← integer (get "blockTimestamp" es) max_uint true
  ok (Outcome.expired_unopened block_timestamp)
read_outcome Kind.unused es = do
  reason ← reason_of (get "reason" es)
  throw_if
      (not (is_true (get "reservationReleased" es))
        || not (is_text (codes "0") (get "reservationUsed" es))
        || not (is_false (get "requestUsed" es))
        || not (is_false (get "claimUsed" es)))
      invalid_input
  ok (Outcome.unused reason)

unfoldable pub read_observation : Viem → Kind → Value → LedgerResult Observation
unfolding read_common read_outcome
read_observation viem kind value = do
  es ← record_of (observation_fields ++ kind_fields kind) value
  throw_if (not (is_text (kind_name kind) (get "kind" es))) invalid_input
  common ← read_common viem es
  outcome ← read_outcome kind es
  ok (record { common = common; outcome = outcome })

-- Whatever is wrong with the observation, the error is one.
unfoldable pub observation : Viem → Kind → Value → LedgerResult Observation
unfolding read_observation
observation viem kind value = rethrow (read_observation viem kind value) invalid_outcome

-- `kind === 'issued' ? 'issued' : 'released'`
abbrev pub target_state : Kind → AllocationState
target_state Kind.issued = AllocationState.issued
target_state _ = AllocationState.released

abbrev pub reason_eq : Reason → Reason → Bool
reason_eq revoked_unused revoked_unused = true
reason_eq expired_unused expired_unused = true
reason_eq _ _ = false

abbrev pub outcome_eq : Outcome → Outcome → Bool
outcome_eq (Outcome.issued s) (Outcome.issued t) = text_eq s t
outcome_eq (Outcome.unused s) (Outcome.unused t) = reason_eq s t
outcome_eq (Outcome.expired_unopened s) (Outcome.expired_unopened t) = text_eq s t
outcome_eq _ _ = false

unfoldable pub observation_eq : Observation → Observation → Bool
observation_eq a b =
    outcome_eq a.outcome b.outcome
    && text_eq a.common.request_digest b.common.request_digest
    && text_eq a.common.chain_id b.common.chain_id
    && text_eq a.common.gate b.common.gate
    && text_eq a.common.reservation_id b.common.reservation_id
    && text_eq a.common.claim_usage_id b.common.claim_usage_id
    && text_eq a.common.block_hash b.common.block_hash
    && text_eq a.common.block_number b.common.block_number

-- `JSON.stringify(current.observation) === JSON.stringify(outcome)`
abbrev pub is_observation : Observation → Option Observation → Bool
is_observation outcome none = false
is_observation outcome (some o) = observation_eq o outcome

-- Equal JSON texts of two requests.
unfoldable pub request_eq : IssuanceRequest → IssuanceRequest → Bool
request_eq a b =
    text_eq a.schema_version b.schema_version
    && text_eq a.action b.action
    && text_eq a.request_id b.request_id
    && text_eq a.chain_id b.chain_id
    && text_eq a.gate b.gate
    && text_eq a.token b.token
    && text_eq a.recipient b.recipient
    && text_eq a.amount b.amount
    && text_eq a.unit b.unit
    && text_eq a.issuer_id b.issuer_id
    && text_eq a.reservation_id b.reservation_id
    && text_eq a.claim_commitment b.claim_commitment
    && text_eq a.claim_usage_id b.claim_usage_id
    && text_eq a.policy_version b.policy_version
    && text_eq a.rights_version b.rights_version
    && text_eq a.nonce b.nonce
    && text_eq a.valid_until b.valid_until
