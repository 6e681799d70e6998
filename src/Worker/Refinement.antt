-- ===== src/Worker/Refinement.antt =====
-- Every action of the coordinator changes the rows as the specification says.
pub mod Alarm
pub mod Steps
use ultratokenizer.Base.{
  ℕ, ◌+◌, ◌/◌, not, ◌&&◌, ◌≤◌, ◌<◌, Text, text_eq, text_eq_iff, Bool, true, false, ◌≡◌, refl, sym,
  subst, ◌⊎◌, inl, inr, List, [], ◌∷◌, Option, none, some, ok, err, arith, find, filter,
  find-passes, Bool-cases, Option-cases, Result-cases, >>=-eq-ok,
}
use ultratokenizer.Domain.Viem.{Viem}
use ultratokenizer.Domain.Request.{
  IssuanceRequest, to_value, assert_issuance_request_active, get_issuance_request_digest,
}
use ultratokenizer.Worker.Errors.{Response, let_through}
use ultratokenizer.Worker.Model.{
  RequestState, RequestStatus, PublicRequestState, Observation, is_open,
}
use ultratokenizer.Worker.Database.{
  Database, Action, has_id, load, upsert, save, sweep, schedule_alarm, mutate, owned, lease, leased,
  is_some, is_kept,
}
use ultratokenizer.Worker.Requests.{
  new_state, is_full, is_awaiting, save_public, create_with, create_action, submitted, cancelled,
  reconciled, is_hash_of, is_cancelled, is_progressing, submit_action, cancel_action,
  reconcile_action,
}
use ultratokenizer.Worker.Observing.{
  resolve_begin_action, resolved, resolve_finish_action, is_same_lease, is_confirmed, observed,
  observe_with,
}
use ultratokenizer.Worker.Spec.{Actor, owner, platform, Transition, Change, Changes}

-- An action that returns has changed the rows so.
abbrev pub ActionChanges : {A : Type 0} → ℕ → Actor → Action A → Type 0
ActionChanges {A} now actor action =
    (db db' : Database) (a : A)
    → action db ≡ ok (a, db')
    → Changes now actor db.requests db'.requests

pub Changes-one :
    {now : ℕ} {actor : Actor} {rows rows' : List RequestState}
    → Change now actor rows rows'
    → Changes now actor rows rows'
Changes-one c = Changes.next Changes.here c

pub Changes-trans :
    {now : ℕ} {actor : Actor} {rows rows' rows'' : List RequestState}
    → Changes now actor rows rows'
    → Changes now actor rows' rows''
    → Changes now actor rows rows''
Changes-trans c Changes.here = c
Changes-trans c (Changes.next d e) = Changes.next (Changes-trans c d) e

pub save_requests :
    (state : RequestState) (db db' : Database)
    → save state db ≡ ok db'
    → db'.requests ≡ upsert state db.requests
unfolding save
save_requests state db db' h = ground arith

pub save_public_requests :
    (state : RequestState) (db db' : Database) (a : PublicRequestState)
    → save_public state db ≡ ok (a, db')
    → db'.requests ≡ upsert state db.requests
unfolding save_public
save_public_requests state db db' a h =
    let (saved, e, done) = >>=-eq-ok (save state db) _ h in
    let same : saved ≡ db' = ground arith in rw (← same) (save_requests state db saved e)

-- A row that is found is found under its own id.
pub found_self :
    (id : Text) (rows : List RequestState) {state : RequestState}
    → find (has_id id) rows ≡ some state
    → find (has_id state.id) rows ≡ some state
found_self id rows {state} e =
    subst (λ x. find (has_id x) rows ≡ some state)
      (sym ((text_eq_iff state.id id).0 (find-passes (has_id id) rows e))) e

pub owned_lem :
    (now : ℕ) (owner_id id : Text) (db : Database) (state : RequestState)
    → owned now owner_id id db ≡ ok state
    → (find (has_id state.id) db.requests ≡ some state) × (owner state.owner_id ≡ owner owner_id)
unfolding owned load
owned_lem now owner_id id db state h =
    let found : find (has_id id) db.requests ≡ some state = ground arith in
    (found_self id db.requests found, ground (arith, text_eq_iff state.owner_id owner_id))

create_with-Changes :
    (now : ℕ) (owner_id id : Text) (request : IssuanceRequest) (db db' : Database)
    (current : Option RequestState) (a : PublicRequestState)
    → find (has_id id) db.requests ≡ current
    → create_with now owner_id id request current db ≡ ok (a, db')
    → Changes now (owner owner_id) db.requests db'.requests
unfolding create_with
create_with-Changes now owner_id id request db db' (some current) a e h =
    let same : db ≡ db' = ground arith in rw (← same) Changes.here
create_with-Changes now owner_id id request db db' none a e h =
    let saved : save_public (new_state now owner_id id request) db ≡ ok (a, db') = ground arith in
    Changes-one (
      Change.admit owner_id id request refl e (ground arith)
        (save_public_requests (new_state now owner_id id request) db db' a saved))

pub create-Changes :
    (viem : Viem) (now : ℕ) (owner_id : Text) (request : IssuanceRequest)
    → ActionChanges now (owner owner_id) (create_action viem now owner_id request)
unfolding create_action load
create-Changes viem now owner_id request db db' a h =
    let (active, _, rest) =
      >>=-eq-ok
        (let_through (assert_issuance_request_active viem (to_value request) (some (now / 1000)))) _
        h in
    let (id, _, rest') =
      >>=-eq-ok (let_through (get_issuance_request_digest viem (to_value request))) _ rest in
    create_with-Changes now owner_id id request db db' (find (has_id id) db.requests) a refl rest'

pub submit-Changes :
    (now : ℕ) (owner_id id hash : Text)
    → ActionChanges now (owner owner_id) (submit_action now owner_id id hash)
unfolding submit_action
submit-Changes now owner_id id hash db db' a h =
    let (old, e, rest) = >>=-eq-ok (owned now owner_id id db) _ h in
    let (found, mine) = owned_lem now owner_id id db old e in
    elim (Bool-cases (is_hash_of old.transaction_hash hash)) [
      | inl again ↦ let same : db ≡ db' = ground arith in rw (← same) Changes.here
      | inr fresh ↦
          let new = submitted now hash old in
          let saved : save_public new db ≡ ok (a, db') = ground arith in
          Changes-one (
            Change.update old new found
              (Transition.submit hash (sym mine) (ground arith) (ground arith) refl) (λ l. inl l)
              (save_public_requests new db db' a saved))
    ]

pub cancel-Changes :
    (now : ℕ) (owner_id id : Text)
    → ActionChanges now (owner owner_id) (cancel_action now owner_id id)
unfolding cancel_action
cancel-Changes now owner_id id db db' a h =
    let (old, e, rest) = >>=-eq-ok (owned now owner_id id db) _ h in
    let (found, mine) = owned_lem now owner_id id db old e in
    elim (Bool-cases (is_cancelled old.status)) [
      | inl again ↦ let same : db ≡ db' = ground arith in rw (← same) Changes.here
      | inr open_yet ↦
          let saved : save_public (cancelled now old) db ≡ ok (a, db') = ground arith in
          Changes-one (
            Change.update old (cancelled now old) found
              (Transition.cancel (sym mine) (ground arith) refl) (λ l. inl l)
              (save_public_requests (cancelled now old) db db' a saved))
    ]

pub reconcile-Changes :
    (now : ℕ) (owner_id id : Text)
    → ActionChanges now (owner owner_id) (reconcile_action now owner_id id)
unfolding reconcile_action
reconcile-Changes now owner_id id db db' a h =
    let (old, e, rest) = >>=-eq-ok (owned now owner_id id db) _ h in
    let (found, mine) = owned_lem now owner_id id db old e in
    elim (Bool-cases (is_progressing old.status)) [
      | inl again ↦ let same : db ≡ db' = ground arith in rw (← same) Changes.here
      | inr stopped ↦
          let saved : save_public (reconciled now old) db ≡ ok (a, db') = ground arith in
          Changes-one (
            Change.update old (reconciled now old) found
              (Transition.reconcile (sym mine) (ground arith) (ground arith) (ground arith)
                (ground arith) refl)
              (λ l. cc) (save_public_requests (reconciled now old) db db' a saved))
    ]

pub resolve_begin-Changes :
    (now : ℕ) (uuid owner_id id : Text)
    → ActionChanges now (owner owner_id) (resolve_begin_action now uuid owner_id id)
unfolding resolve_begin_action
resolve_begin-Changes now uuid owner_id id db db' a h =
    let (old, e, rest) = >>=-eq-ok (owned now owner_id id db) _ h in
    let (found, mine) = owned_lem now owner_id id db old e in
    let saved : save (lease uuid old now) db ≡ ok db' = ground arith in
    Changes-one (
      Change.update old (lease uuid old now) found
        (Transition.begin_replacement uuid (sym mine) (ground arith) (ground arith) (ground arith)
          refl)
        (λ l. inr (ground arith)) (save_requests (lease uuid old now) db db' saved))

is_some_of_same_lease :
    (latest checking : RequestState)
    → is_same_lease latest checking ≡ true
    → is_some checking.lease_id ≡ true
    → is_some latest.lease_id ≡ true
is_some_of_same_lease latest checking h k = ground arith

resolved_found :
    (now : ℕ) (candidate : Text) (observation : Observation) (old : RequestState)
    (rows : List RequestState)
    → find (has_id old.id) rows ≡ some old
    → find (has_id (resolved now candidate observation old).id) rows ≡ some old
unfolding resolved
resolved_found now candidate observation old rows e = elim (Bool-cases (is_confirmed observation)) [
  | inl hit ↦ rw hit e
  | inr miss ↦ rw miss e
]

resolved-unleased :
    (now : ℕ) (candidate : Text) (observation : Observation) (old : RequestState)
    → leased (resolved now candidate observation old) now ≡ true
    → ⊥
unfolding resolved
resolved-unleased now candidate observation old h = ground arith

observed_found :
    (now : ℕ) (observation : Observation) (old : RequestState) (rows : List RequestState)
    → find (has_id old.id) rows ≡ some old
    → find (has_id (observed now observation old).id) rows ≡ some old
unfolding observed
observed_found now observation old rows e = e

observed-unleased :
    (now : ℕ) (observation : Observation) (old : RequestState)
    → leased (observed now observation old) now ≡ true
    → ⊥
unfolding observed
observed-unleased now observation old h = ground arith

pub resolve_finish-Changes :
    (now : ℕ) (owner_id id candidate : Text) (checking : RequestState) (observation : Observation)
    → is_some checking.lease_id ≡ true
    → ActionChanges now
        (owner owner_id)
        (resolve_finish_action now owner_id id candidate checking observation)
unfolding resolve_finish_action
resolve_finish-Changes now owner_id id candidate checking observation held db db' a h =
    let (old, e, rest) = >>=-eq-ok (owned now owner_id id db) _ h in
    let (found, mine) = owned_lem now owner_id id db old e in
    let new = resolved now candidate observation old in
    let saved : save new db ≡ ok db' = ground arith in
    Changes-one (
      Change.update old new (resolved_found now candidate observation old db.requests found)
        (Transition.end_replacement candidate observation (sym mine)
          (is_some_of_same_lease old checking (ground arith) held) refl)
        (λ l. absurd (resolved-unleased now candidate observation old l))
        (save_requests new db db' saved))

pub observe-Changes :
    (now : ℕ) (current : RequestState) (observation : Observation)
    → is_some current.lease_id ≡ true
    → ActionChanges now platform
        (λ db. observe_with now current observation (load current.id db) db)
unfolding observe_with load
observe-Changes now current observation held db db' a h =
    elim (Option-cases (find (has_id current.id) db.requests)) [
      | inl gone ↦ let same : db ≡ db' = ground arith in rw (← same) Changes.here
      | inr (old, e) ↦ elim (Bool-cases (is_same_lease old current)) [
        | inr other ↦ let same : db ≡ db' = ground arith in rw (← same) Changes.here
        | inl mine ↦
            let new = observed now observation old in
            let saved : save new db ≡ ok db' = ground arith in
            Changes-one (
              Change.update old new
                (observed_found now observation old db.requests
                  (found_self current.id db.requests e))
                (Transition.end_check observation refl (is_some_of_same_lease old current mine held)
                  refl)
                (λ l. absurd (observed-unleased now observation old l))
                (save_requests new db db' saved))
      ]
    ]
