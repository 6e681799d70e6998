-- ===== src/Worker/Observing.antt =====
-- The observations of the coordinator: `resolveReplacement` and `alarm`. Each reads the chain
-- between two mutations; what it observed is an argument of the second.
use ultratokenizer.Base.{
  ℕ, ◌+◌, ◌-◌, Text, text_eq, Bool, true, false, not, ◌&&◌, ◌||◌, List, [], ◌∷◌, ◌++◌, Option, none,
  some, ok, ltb, leb, ◌==◌, length, filter, if◌then◌else◌, ◌>>=◌, ◌>>◌, throw_if,
}
use ultratokenizer.Worker.Errors.{Response, worker, ErrorCode}
use ultratokenizer.Worker.Model.{
  RequestState, RequestStatus, PublicRequestState, Observation, rpc_unavailable, public_state,
  is_open, retry_delay, lease_ms, max_observations, max_concurrent_observations,
}
use ultratokenizer.Worker.Database.{
  Database, Action, load, save, mutate, owned, lease, leased, is_some,
}

-- How many rows are leased.
abbrev pub leased_count : ℕ → List RequestState → ℕ
leased_count now rows = length (filter (λ s. leased s now) rows)

unfoldable pub resolve_begin_action : ℕ → Text → Text → Text → Action RequestState
unfolding lease
resolve_begin_action now uuid owner_id id db = do
  state ← owned now owner_id id db
  throw_if
      (not (is_open state.status)
        || not (is_some state.transaction_hash)
        || leb 8 (length state.prior_transaction_hashes))
      (worker ErrorCode.conflict)
  throw_if (leased state now || leb max_concurrent_observations (leased_count now db.requests))
      (worker ErrorCode.rate_limited)
  let next = lease uuid state now
  db' ← save next db
  ok (next, db')

unfoldable pub resolve_begin : ℕ → Text → Text → Text → Database → Response RequestState × Database
unfolding resolve_begin_action
resolve_begin now uuid owner_id id = mutate now (resolve_begin_action now uuid owner_id id)

abbrev pub lease_id_eq : Option Text → Option Text → Bool
lease_id_eq none none = true
lease_id_eq (some a) (some b) = text_eq a b
lease_id_eq _ _ = false

-- The row is still the one that was leased.
abbrev pub is_same_lease : RequestState → RequestState → Bool
is_same_lease latest checking =
    lease_id_eq latest.lease_id checking.lease_id
    && latest.revision == checking.revision
    && latest.created_at == checking.created_at

abbrev pub is_confirmed : Observation → Bool
is_confirmed (Observation.confirmed _) = true
is_confirmed _ = false

abbrev pub unleased : ℕ → RequestState → RequestState
unleased now state = record state {
  revision = state.revision + 1;
  updated_at = now;
  lease_id = none;
  lease_until = none;
}

abbrev pub hash_list : Option Text → List Text
hash_list none = []
hash_list (some h) = h ∷ []

unfoldable pub resolved : ℕ → Text → Observation → RequestState → RequestState
resolved now candidate observation latest =
    if is_confirmed observation
    then record latest {
      revision = latest.revision + 1;
      updated_at = now;
      lease_id = none;
      lease_until = none;
      status = RequestStatus.confirmed;
      transaction_hash = some candidate;
      prior_transaction_hashes =
          latest.prior_transaction_hashes ++ hash_list latest.transaction_hash;
      observation = some observation;
      next_check_at = none;
    }
    else unleased now latest

-- `null` is the answer where the candidate is not confirmed; the caller then sees a conflict.
unfoldable pub resolve_finish_action :
    ℕ → Text → Text → Text → RequestState → Observation → Action (Option PublicRequestState)
unfolding resolved
resolve_finish_action now owner_id id candidate checking observation db = do
  latest ← owned now owner_id id db
  throw_if (not (is_same_lease latest checking)) (worker ErrorCode.conflict)
  let next = resolved now candidate observation latest
  db' ← save next db
  ok (if is_confirmed observation then some (public_state next) else none, db')

unfoldable pub resolve_finish :
    ℕ
    → Text
    → Text
    → Text
    → RequestState
    → Observation
    → Database
    → Response (Option PublicRequestState) × Database
unfolding resolve_finish_action
resolve_finish now owner_id id candidate checking observation =
    mutate now (resolve_finish_action now owner_id id candidate checking observation)

-- The first loop of `alarm`: leases that have run out are dropped.
unfoldable pub drop_leases : ℕ → List RequestState → Database → Response Database
drop_leases now [] db = ok db
drop_leases now (state ∷ states) db = do
  db' ←
      (if is_some state.lease_id && not (leased state now)
        then save (unleased now state) db
        else ok db)
  drop_leases now states db'

-- `(a.nextCheckAt ?? Infinity) - (b.nextCheckAt ?? Infinity)` is not positive.
abbrev pub due_le : Option ℕ → Option ℕ → Bool
due_le _ none = true
due_le none (some b) = false
due_le (some a) (some b) = leb a b

unfoldable pub insert_due : RequestState → List RequestState → List RequestState
insert_due s [] = s ∷ []
insert_due s (t ∷ ts) =
    if due_le s.next_check_at t.next_check_at then s ∷ t ∷ ts else t ∷ insert_due s ts

-- The sort of JavaScript is stable.
unfoldable pub sort_due : List RequestState → List RequestState
unfolding insert_due
sort_due [] = []
sort_due (s ∷ ss) = insert_due s (sort_due ss)

abbrev pub is_tracked : RequestStatus → Bool
is_tracked RequestStatus.submitted = true
is_tracked RequestStatus.checking = true
is_tracked _ = false

abbrev pub is_due : ℕ → Option ℕ → Bool
is_due now none = false
is_due now (some at) = leb at now

-- The rows that the second loop does not pass over.
unfoldable pub is_checkable : ℕ → RequestState → Bool
is_checkable now state =
    is_some state.transaction_hash
    && is_tracked state.status
    && not (leased state now)
    && is_due now state.next_check_at

abbrev pub exhausted : ℕ → RequestState → RequestState
exhausted now state = record state {
  status = RequestStatus.attention_required;
  revision = state.revision + 1;
  updated_at = now;
  next_check_at = none;
  lease_id = none;
  lease_until = none;
  observation = some (Observation.pending rpc_unavailable);
}

-- `uuid` gives the identifier for the lease that leaves so many slots.
unfoldable pub checking_of : ℕ → Text → RequestState → RequestState
unfolding lease
checking_of now uuid state = record (lease uuid state now) {
  status = RequestStatus.checking;
  attempts = state.attempts + 1;
  next_check_at = some (now + lease_ms);
}

unfoldable pub select : ℕ → (ℕ → Text) → ℕ → List RequestState → Action (List RequestState)
unfolding is_checkable checking_of
select now uuid slots [] db = ok ([], db)
select now uuid slots (state ∷ states) db =
    let skip = select now uuid slots states db in
    let give_up = save (exhausted now state) db >>= λ db'. select now uuid slots states db' in
    let next = checking_of now (uuid slots) state in
    let take_slot = save next db >>= λ db'.
    select now uuid (slots - 1) states db' >>= λ (selected, db''). ok (next ∷ selected, db'') in
    if not (is_checkable now state)
    then skip
    else if leb max_observations state.attempts
    then give_up
    else if slots == 0
    then ok ([], db)
    else take_slot

unfoldable pub alarm_begin_action : ℕ → (ℕ → Text) → Action (List RequestState)
unfolding drop_leases sort_due select
alarm_begin_action now uuid db = do
  db' ← drop_leases now db.requests db
  select now uuid (max_concurrent_observations - leased_count now db'.requests)
      (sort_due db'.requests) db'

unfoldable pub alarm_begin : ℕ → (ℕ → Text) → Database → Response (List RequestState) × Database
unfolding alarm_begin_action
alarm_begin now uuid = mutate now (alarm_begin_action now uuid)

abbrev pub is_pending : Observation → Bool
is_pending (Observation.pending _) = true
is_pending _ = false

-- `observation.outcome` as a status, where it is not pending.
abbrev pub outcome_status : Observation → RequestStatus
outcome_status (Observation.pending _) = RequestStatus.attention_required
outcome_status (Observation.rejected _) = RequestStatus.rejected
outcome_status (Observation.confirmed _) = RequestStatus.confirmed

unfoldable pub observed : ℕ → Observation → RequestState → RequestState
observed now observation latest =
    let retry = is_pending observation && ltb latest.attempts max_observations in
    record latest {
      revision = latest.revision + 1;
      updated_at = now;
      status = if retry then RequestStatus.submitted else outcome_status observation;
      observation = some observation;
      lease_id = none;
      lease_until = none;
      next_check_at = if retry then some (now + retry_delay latest.attempts) else none;
    }

unfoldable pub observe_with :
    ℕ → RequestState → Observation → Option RequestState → Action (Unit {0})
unfolding observed
observe_with now current observation none db = ok (tt, db)
observe_with now current observation (some latest) db =
    if not (is_same_lease latest current)
    then ok (tt, db)
    else save (observed now observation latest) db >>= λ db'. ok (tt, db')

-- The mutation after one row that `alarm` selected has been observed.
unfoldable pub alarm_finish :
    ℕ → RequestState → Observation → Database → Response (Unit {0}) × Database
unfolding observe_with load
alarm_finish now current observation =
    mutate now (λ db. observe_with now current observation (load current.id db) db)
