-- ===== src/Institution/Allocations.antt =====
-- The methods on allocations of packages/institution/src/ledger.ts: `reserve`, `getAllocation` and
-- the three that settle an allocation by a chain observation.
use ultratokenizer.Base.{
  ◌+◌, Text, text_eq, big_int, Bool, true, false, not, ◌||◌, [], ◌∷◌, Option, none, some, ok, ltb,
  find, any, if◌then◌else◌, ◌>>=◌, ◌>>◌, throw_if, or_throw, rethrow,
}
use ultratokenizer.Domain.Value.{Value, str, get}
use ultratokenizer.Domain.Viem.{Viem}
use ultratokenizer.Domain.Request.{
  IssuanceRequest, to_value, parse_issuance_request, get_issuance_request_digest,
}
use ultratokenizer.Institution.Errors.{
  LedgerResult, invalid_input, storage_unavailable, right_conflict, right_unavailable,
  request_conflict, allocation_not_found, cap_exceeded, invalid_outcome, terminal_conflict,
  let_through,
}
use ultratokenizer.Institution.Fields.{record_of, hash, integer, max_amount}
use ultratokenizer.Institution.Types.{
  Allocation, AllocationRow, AllocationState, Observation, Outcome, is_pending,
}
use ultratokenizer.Institution.Store.{
  has_digest, is_live_of_right, is_in_conflict, insert_allocation, update_allocations,
}
use ultratokenizer.Institution.Snapshots.{right_row, pool_snapshot, allocation_snapshot}
use ultratokenizer.Institution.Outcomes.{
  Kind, observation, target_state, is_observation, request_eq,
}
use ultratokenizer.Institution.Transaction.{Action, Method, transaction, reads, with_input}

-- The row that `reserve` inserts.
abbrev pub new_allocation : Text → Text → IssuanceRequest → AllocationRow
new_allocation digest right_id r = record {
  request_digest = digest;
  right_id = right_id;
  issuer_id = r.issuer_id;
  token = r.token;
  chain_id = r.chain_id;
  gate = r.gate;
  request_id = r.request_id;
  recipient = r.recipient;
  holder_nonce = r.nonce;
  reservation_id = r.reservation_id;
  milligrams = r.amount;
  request = r;
  state = AllocationState.pending;
  observation = none;
}

-- What `reserve` works with once its input is checked.
pub record Reservation : Type 0 where
  pub right_id : Text
  pub request : IssuanceRequest
  pub digest : Text

abbrev pub state_eq : AllocationState → AllocationState → Bool
state_eq AllocationState.pending AllocationState.pending = true
state_eq AllocationState.issued AllocationState.issued = true
state_eq AllocationState.released AllocationState.released = true
state_eq _ _ = false

-- An observation of expiry must not precede the end of the request.
abbrev pub is_early : IssuanceRequest → Outcome → Bool
is_early request (Outcome.expired_unopened timestamp) =
    ltb (big_int timestamp) (big_int request.valid_until)
is_early request _ = false

module _ (viem : Viem) where
  -- The request with an amount within the ledger's bound, both in one `try`.
  unfoldable pub request_input : Value → LedgerResult IssuanceRequest
  request_input value = do
    request ← rethrow (parse_issuance_request viem value) invalid_input
    amount ← rethrow (integer (str request.amount) max_amount false) invalid_input
    ok request

  unfoldable pub reserve_input : Value → LedgerResult Reservation
  unfolding request_input
  reserve_input value = do
    es ← record_of ("rightId" ∷ "request" ∷ []) value
    right_id ← hash (get "rightId" es)
    request ← request_input (get "request" es)
    digest ← let_through (get_issuance_request_digest viem (to_value request))
    ok (record { right_id = right_id; request = request; digest = digest })

  unfoldable pub reserve_new : Reservation → Action Allocation
  reserve_new input store = do
    let request = input.request
    let row = new_allocation input.digest input.right_id request
    throw_if (any (is_live_of_right input.right_id) store.allocations) right_unavailable
    throw_if (any (is_in_conflict row) store.allocations) request_conflict
    pool ← pool_snapshot request.issuer_id request.token store
    throw_if (ltb (big_int pool.cap) (pool.pending + pool.outstanding + big_int request.amount))
        cap_exceeded
    store' ← insert_allocation row store
    row' ← or_throw (find (has_digest input.digest) store'.allocations) storage_unavailable
    allocation ← allocation_snapshot viem row'
    ok (allocation, store')

  -- `existing` is the row with the digest of the request.
  unfoldable pub reserve_with : Reservation → Option AllocationRow → Action Allocation
  unfolding reserve_new
  reserve_with input none store = reserve_new input store
  reserve_with input (some existing) store = do
    throw_if
        (not (text_eq existing.right_id input.right_id)
          || not (request_eq existing.request input.request))
        request_conflict
    allocation ← allocation_snapshot viem existing
    ok (allocation, store)

  unfoldable pub reserve_action : Reservation → Action Allocation
  unfolding reserve_with
  reserve_action input store = do
    right ← right_row input.right_id store
    throw_if
        (not (text_eq right.holder input.request.recipient)
          || not (text_eq right.milligrams input.request.amount)
          || not (text_eq right.claim_usage_id input.request.claim_usage_id))
        right_conflict
    reserve_with input (find (has_digest input.digest) store.allocations) store

  unfoldable pub reserve : Value → Method Allocation
  unfolding reserve_input reserve_action
  reserve value = with_input (reserve_input value) λ input. transaction (reserve_action input)

  abbrev pub optional_allocation : Option AllocationRow → LedgerResult (Option Allocation)
  optional_allocation none = ok none
  optional_allocation (some row) = do
    allocation ← allocation_snapshot viem row
    ok (some allocation)

  unfoldable pub get_allocation : Value → Method (Option Allocation)
  get_allocation value = with_input (hash value) λ digest.
      transaction (reads λ store. optional_allocation (find (has_digest digest) store.allocations))

  -- A settled allocation only repeats its own outcome.
  unfoldable pub settle_terminal : Kind → Observation → Allocation → LedgerResult Allocation
  settle_terminal kind outcome current = do
    throw_if
        (not (state_eq current.state (target_state kind))
          || not (is_observation outcome current.observation))
        terminal_conflict
    ok current

  unfoldable pub settle_pending : Kind → Observation → Action Allocation
  settle_pending kind outcome store = do
    let digest = outcome.common.request_digest
    let store' = update_allocations digest (target_state kind) outcome store
    row ← or_throw (find (has_digest digest) store'.allocations) storage_unavailable
    allocation ← allocation_snapshot viem row
    ok (allocation, store')

  unfoldable pub settle_action : Kind → Observation → Action Allocation
  unfolding settle_terminal settle_pending
  settle_action kind outcome store = do
    let common = outcome.common
    row ← or_throw (find (has_digest common.request_digest) store.allocations) allocation_not_found
    current ← allocation_snapshot viem row
    throw_if
        (not (text_eq current.request.chain_id common.chain_id)
          || not (text_eq current.request.gate common.gate)
          || not (text_eq current.request.reservation_id common.reservation_id)
          || not (text_eq current.request.claim_usage_id common.claim_usage_id)
          || is_early current.request outcome.outcome)
        invalid_outcome
    (if is_pending current.state
        then settle_pending kind outcome store
        else reads (λ _. settle_terminal kind outcome current) store)

  unfoldable pub settle : Kind → Value → Method Allocation
  unfolding settle_action
  settle kind value =
      with_input (observation viem kind value) λ outcome. transaction (settle_action kind outcome)

  abbrev pub mark_issued : Value → Method Allocation
  mark_issued = settle Kind.issued

  abbrev pub release_unused : Value → Method Allocation
  release_unused = settle Kind.unused

  abbrev pub release_expired_unopened : Value → Method Allocation
  release_expired_unopened = settle Kind.expired_unopened
