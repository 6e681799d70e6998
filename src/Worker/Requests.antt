-- ===== src/Worker/Requests.antt =====
-- `create`, `inspect`, `submit`, `cancel` and `reconcile` of the coordinator.
use ultratokenizer.Base.{
  ℕ, ◌+◌, ◌/◌, Text, text_eq, Bool, true, false, not, ◌&&◌, ◌||◌, List, [], Option, none, some, ok,
  ltb, leb, length, filter, if◌then◌else◌, ◌>>=◌, ◌>>◌, throw_if,
}
use ultratokenizer.Domain.Viem.{Viem}
use ultratokenizer.Domain.Request.{
  IssuanceRequest, to_value, assert_issuance_request_active, get_issuance_request_digest,
}
use ultratokenizer.Domain.Value.{str}
use ultratokenizer.Worker.Observer.{is_hash}
use ultratokenizer.Worker.Errors.{Response, worker, ErrorCode, let_through}
use ultratokenizer.Worker.Model.{
  RequestState, RequestStatus, PublicRequestState, public_state, is_open, max_open_requests,
  max_retained_requests, max_subject_open_requests, max_subject_retained_requests,
}
use ultratokenizer.Worker.Database.{
  Database, Action, load, save, mutate, owned, leased, is_retired, is_some,
}

abbrev pub is_owned_by : Text → RequestState → Bool
is_owned_by owner_id state = text_eq state.owner_id owner_id

abbrev pub is_open_state : RequestState → Bool
is_open_state state = is_open state.status

-- The four bounds on retained and open requests, of all and of one subject.
unfoldable pub is_full : Text → List RequestState → Bool
is_full owner_id retained =
    leb max_retained_requests (length retained)
    || leb max_open_requests (length (filter is_open_state retained))
    || leb max_subject_retained_requests (length (filter (is_owned_by owner_id) retained))
    || leb max_subject_open_requests
        (length (filter (is_owned_by owner_id) (filter is_open_state retained)))

abbrev pub new_state : ℕ → Text → Text → IssuanceRequest → RequestState
new_state now owner_id id request = record {
  id = id;
  owner_id = owner_id;
  request = request;
  status = RequestStatus.awaiting_submission;
  revision = 1;
  created_at = now;
  updated_at = now;
  transaction_hash = none;
  prior_transaction_hashes = [];
  attempts = 0;
  lease_id = none;
  lease_until = none;
  next_check_at = none;
  observation = none;
}

-- Saves a row and answers with its public part.
unfoldable pub save_public : RequestState → Action PublicRequestState
save_public state db = do db' ← save state db; ok (public_state state, db')

-- `current` is the row with the request's digest.
unfoldable pub create_with :
    ℕ → Text → Text → IssuanceRequest → Option RequestState → Action PublicRequestState
unfolding is_full save_public
create_with now owner_id id request (some current) db = do
  throw_if (not (text_eq current.owner_id owner_id)) (worker ErrorCode.conflict)
  throw_if (is_retired now current) (worker ErrorCode.rate_limited)
  ok (public_state current, db)
create_with now owner_id id request none db = do
  throw_if (is_full owner_id db.requests) (worker ErrorCode.rate_limited)
  save_public (new_state now owner_id id request) db

unfoldable pub create_action : Viem → ℕ → Text → IssuanceRequest → Action PublicRequestState
unfolding create_with load
create_action viem now owner_id request db = do
  active ← let_through (assert_issuance_request_active viem (to_value request) (some (now / 1000)))
  id ← let_through (get_issuance_request_digest viem (to_value request))
  create_with now owner_id id request (load id db) db

unfoldable pub create :
    Viem → ℕ → Text → IssuanceRequest → Database → Response PublicRequestState × Database
unfolding create_action
create viem now owner_id request = mutate now (create_action viem now owner_id request)

unfoldable pub inspect : ℕ → Text → Text → Database → Response PublicRequestState × Database
inspect now owner_id id =
    mutate now λ db. do state ← owned now owner_id id db; ok (public_state state, db)

abbrev pub is_awaiting : RequestStatus → Bool
is_awaiting RequestStatus.awaiting_submission = true
is_awaiting _ = false

-- `value === hash` for a nullable value.
abbrev pub is_hash_of : Option Text → Text → Bool
is_hash_of none hash = false
is_hash_of (some h) hash = text_eq h hash

-- What `submit` checks and reads before its mutation: whether the hash is to replace another one,
-- which `resolveReplacement` then decides.
unfoldable pub is_replacement : ℕ → Text → Text → Text → Database → Response Bool
unfolding is_hash
is_replacement now owner_id id hash db = do
  throw_if (not (is_hash (str hash))) (worker ErrorCode.invalid_request)
  state ← owned now owner_id id db
  ok (is_some state.transaction_hash && not (is_hash_of state.transaction_hash hash))

abbrev pub submitted : ℕ → Text → RequestState → RequestState
submitted now hash current = record current {
  status = RequestStatus.submitted;
  transaction_hash = some hash;
  updated_at = now;
  revision = current.revision + 1;
  next_check_at = some (now + 1000);
}

unfoldable pub submit_action : ℕ → Text → Text → Text → Action PublicRequestState
unfolding save_public
submit_action now owner_id id hash db = do
  current ← owned now owner_id id db
  (if is_hash_of current.transaction_hash hash then ok (public_state current, db) else do
    throw_if (not (is_awaiting current.status) || is_some current.transaction_hash)
        (worker ErrorCode.conflict)
    save_public (submitted now hash current) db)

-- `submit` where the hash replaces none.
unfoldable pub submit : ℕ → Text → Text → Text → Database → Response PublicRequestState × Database
unfolding submit_action
submit now owner_id id hash = mutate now (submit_action now owner_id id hash)

abbrev pub is_cancelled : RequestStatus → Bool
is_cancelled RequestStatus.tracking_cancelled = true
is_cancelled _ = false

abbrev pub cancelled : ℕ → RequestState → RequestState
cancelled now state = record state {
  status = RequestStatus.tracking_cancelled;
  updated_at = now;
  revision = state.revision + 1;
}

unfoldable pub cancel_action : ℕ → Text → Text → Action PublicRequestState
unfolding save_public
cancel_action now owner_id id db = do
  state ← owned now owner_id id db
  (if is_cancelled state.status then ok (public_state state, db) else do
    throw_if (not (is_awaiting state.status)) (worker ErrorCode.conflict)
    save_public (cancelled now state) db)

unfoldable pub cancel : ℕ → Text → Text → Database → Response PublicRequestState × Database
unfolding cancel_action
cancel now owner_id id = mutate now (cancel_action now owner_id id)

abbrev pub is_progressing : RequestStatus → Bool
is_progressing RequestStatus.submitted = true
is_progressing RequestStatus.checking = true
is_progressing RequestStatus.confirmed = true
is_progressing _ = false

abbrev pub is_retryable : RequestStatus → Bool
is_retryable RequestStatus.attention_required = true
is_retryable RequestStatus.rejected = true
is_retryable _ = false

abbrev pub reconciled : ℕ → RequestState → RequestState
reconciled now state = record state {
  status = RequestStatus.submitted;
  attempts = 0;
  updated_at = now;
  revision = state.revision + 1;
  next_check_at = some (now + 1000);
  lease_id = none;
  lease_until = none;
}

unfoldable pub reconcile_action : ℕ → Text → Text → Action PublicRequestState
unfolding save_public
reconcile_action now owner_id id db = do
  state ← owned now owner_id id db
  (if is_progressing state.status then ok (public_state state, db) else do
    throw_if (not (is_retryable state.status) || not (is_some state.transaction_hash))
        (worker ErrorCode.conflict)
    throw_if (leased state now || ltb now (state.updated_at + 60000))
        (worker ErrorCode.rate_limited)
    save_public (reconciled now state) db)

unfoldable pub reconcile : ℕ → Text → Text → Database → Response PublicRequestState × Database
unfolding reconcile_action
reconcile now owner_id id = mutate now (reconcile_action now owner_id id)
