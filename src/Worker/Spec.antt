-- ===== src/Worker/Spec.antt =====
-- What the coordinator promises of the rows it keeps: who may change a row, when, and to what.
use ultratokenizer.Base.{
  ℕ, ◌+◌, ◌≤◌, ◌<◌, Text, true, false, ◌≡◌, ◌⊎◌, List, none, some, find, filter,
}
use ultratokenizer.Domain.Request.{IssuanceRequest}
use ultratokenizer.Worker.Model.{
  RequestState, Observation, is_open, max_observations, max_concurrent_observations,
}
use ultratokenizer.Worker.Database.{has_id, upsert, lease, leased, is_kept, is_some}
use ultratokenizer.Worker.Requests.{
  is_full, new_state, is_awaiting, is_retryable, submitted, cancelled, reconciled,
}
use ultratokenizer.Worker.Observing.{
  leased_count, unleased, resolved, observed, checking_of, exhausted, is_checkable,
}

-- On whose behalf a row changes.
pub data Actor : Type 0 where
  owner : Text → Actor
  platform : Actor

-- The life of one row. Its owner submits, cancels, reconciles and replaces; the platform observes.
pub data Transition (now : ℕ) (actor : Actor) (old new : RequestState) : Type 0 where
  submit :
      (hash : Text)
      → actor ≡ owner old.owner_id
      → is_awaiting old.status ≡ true
      → is_some old.transaction_hash ≡ false
      → new ≡ submitted now hash old
      → Transition now actor old new
  cancel :
      actor ≡ owner old.owner_id
      → is_awaiting old.status ≡ true
      → new ≡ cancelled now old
      → Transition now actor old new
  reconcile :
      actor ≡ owner old.owner_id
      → is_retryable old.status ≡ true
      → is_some old.transaction_hash ≡ true
      → leased old now ≡ false
      → old.updated_at + 60000 ≤ now
      → new ≡ reconciled now old
      → Transition now actor old new
  begin_replacement :
      (uuid : Text)
      → actor ≡ owner old.owner_id
      → is_open old.status ≡ true
      → is_some old.transaction_hash ≡ true
      → leased old now ≡ false
      → new ≡ lease uuid old now
      → Transition now actor old new
  end_replacement :
      (candidate : Text) (observation : Observation)
      → actor ≡ owner old.owner_id
      → is_some old.lease_id ≡ true
      → new ≡ resolved now candidate observation old
      → Transition now actor old new
  drop_lease :
      actor ≡ platform
      → is_some old.lease_id ≡ true
      → leased old now ≡ false
      → new ≡ unleased now old
      → Transition now actor old new
  begin_check :
      (uuid : Text)
      → actor ≡ platform
      → is_checkable now old ≡ true
      → old.attempts < max_observations
      → new ≡ checking_of now uuid old
      → Transition now actor old new
  give_up :
      actor ≡ platform
      → is_checkable now old ≡ true
      → max_observations ≤ old.attempts
      → new ≡ exhausted now old
      → Transition now actor old new
  end_check :
      (observation : Observation)
      → actor ≡ platform
      → is_some old.lease_id ≡ true
      → new ≡ observed now observation old
      → Transition now actor old new

pub data Change (now : ℕ) (actor : Actor) (rows rows' : List RequestState) : Type 0 where
  -- Rows that are past their retention and not leased are deleted.
  retire : rows' ≡ filter (is_kept now) rows → Change now actor rows rows'
  -- A new row within the four bounds.
  admit :
      (owner_id id : Text) (request : IssuanceRequest)
      → actor ≡ owner owner_id
      → find (has_id id) rows ≡ none
      → is_full owner_id rows ≡ false
      → rows' ≡ upsert (new_state now owner_id id request) rows
      → Change now actor rows rows'
  -- A row changes; if it takes a lease, a slot was free.
  update :
      (old new : RequestState)
      → find (has_id new.id) rows ≡ some old
      → Transition now actor old new
      → ((leased new now ≡ true)
          → (leased old now ≡ true) ⊎ (leased_count now rows < max_concurrent_observations))
      → rows' ≡ upsert new rows
      → Change now actor rows rows'

pub data Changes (now : ℕ) (actor : Actor) (rows : List RequestState)
    : List RequestState → Type 0 where
  here : Changes now actor rows rows
  next :
      {rows' rows'' : List RequestState}
      → Changes now actor rows rows'
      → Change now actor rows' rows''
      → Changes now actor rows rows''
