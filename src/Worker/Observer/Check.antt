-- ===== src/Worker/Observer/Check.antt =====
-- The observations of the coordinator with the observer: what `alarm` and `resolveReplacement` of
-- workers/issuance/src/coordinator.ts do between their two mutations, and the second mutation.
use ultratokenizer.Base.{
  ℕ, Text, text_eq_iff, Bool, true, false, not, ◌&&◌, ◌≡◌, ◌⊎◌, inl, inr, refl, ap, sym, ◌∙◌, List,
  [], ◌∷◌, Option, none, some, ok, err, any, find, filter, find-passes, both, if◌then◌else◌,
  Bool-cases, Option-cases, Result-cases, >>=-eq-ok, ok-injective, past_guard, arith,
}
use ultratokenizer.Domain.Viem.{Viem}
use ultratokenizer.Worker.Errors.{Response, worker, ErrorCode}
use ultratokenizer.Worker.Model.{
  RequestState, RequestStatus, PublicRequestState, Observation, Confirmation, rpc_unavailable,
}
use ultratokenizer.Worker.Database.{
  Database, has_id, load, save, upsert, sweep, mutate, schedule_alarm, is_kept, owned, commit,
}
use ultratokenizer.Worker.Observing.{
  alarm_finish, resolve_finish, resolve_finish_action, resolved, observe_with, observed,
  is_same_lease, is_confirmed,
}
use ultratokenizer.Worker.Refinement.{save_requests}
use ultratokenizer.Worker.Observer.{ChainConfiguration, Url, Node}
use ultratokenizer.Worker.Observer.Logs.{Abi}
use ultratokenizer.Worker.Observer.Observe.{observe_issuance}
use ultratokenizer.Worker.Observer.Confirmed.{IsPinned, IsShown}
use ultratokenizer.Worker.Observer.Verdict.{observe_issuance-IsShown}

-- `try { … } catch { … }` around the observation.
abbrev pub caught : Response Observation → Observation
caught (err e) = Observation.pending rpc_unavailable
caught (ok observation) = observation

-- `current.transactionHash!`: without one the text is no hash.
abbrev pub hash_text : Option Text → Text
hash_text none = []
hash_text (some hash) = hash

abbrev pub is_confirmed_status : RequestStatus → Bool
is_confirmed_status RequestStatus.confirmed = true
is_confirmed_status _ = false

abbrev pub is_confirmed_row : Text → RequestState → Bool
is_confirmed_row id state = has_id id state && is_confirmed_status state.status

observed-is_confirmed :
    (now : ℕ) (o : Observation) (latest : RequestState)
    → is_confirmed_status (observed now o latest).status ≡ true
    → is_confirmed o ≡ true
unfolding observed
observed-is_confirmed now (Observation.confirmed c) latest h = refl
observed-is_confirmed now (Observation.pending p) latest h = ground (arith, h)
observed-is_confirmed now (Observation.rejected r) latest h = cc

observed_id :
    (now : ℕ) (o : Observation) (latest : RequestState) → (observed now o latest).id ≡ latest.id
unfolding observed
observed_id now o latest = refl

any_of_filter :
    (p q : RequestState → Bool) (rows : List RequestState)
    → any p (filter q rows) ≡ true
    → any p rows ≡ true
any_of_filter p q [] h = cc
any_of_filter p q (row ∷ rows) h = ground (arith, h, any_of_filter p q rows)

any_of_upsert :
    (p : RequestState → Bool) (new : RequestState) (rows : List RequestState)
    → any p (upsert new rows) ≡ true
    → (p new ≡ true) ⊎ (any p rows ≡ true)
unfolding upsert
any_of_upsert p new [] h = ground (arith, h)
any_of_upsert p new (row ∷ rows) h = ground (arith, h, any_of_upsert p new rows)

-- The second mutation of `alarm` confirms no row but the one that was observed as confirmed.
alarm_finish-confirmed :
    (now : ℕ) (current : RequestState) (o : Observation) (db : Database) (id : Text)
    → any (is_confirmed_row id) (alarm_finish now current o db).1.requests ≡ true
    → (any (is_confirmed_row id) db.requests ≡ true) ⊎ ((id ≡ current.id) × (is_confirmed o ≡ true))
unfolding alarm_finish mutate observe_with load sweep schedule_alarm
alarm_finish-confirmed now current o db id h =
    elim (Option-cases (find (has_id current.id) (filter (is_kept now) db.requests))) [
      | inl gone ↦ inl (any_of_filter _ (is_kept now) db.requests (rw gone at h))
      | inr (latest, e) ↦ elim (Bool-cases (is_same_lease latest current)) [
        | inr other ↦ inl (any_of_filter _ (is_kept now) db.requests (rw (e, other) at h))
        | inl mine ↦ elim (Result-cases (save (observed now o latest) (sweep now db))) [
          | inr (failed, f) ↦ inl (rw (e, mine, f) at h)
          | inl (db', f) ↦
              let written = save_requests (observed now o latest) (sweep now db) db' f in
              let rows : any (is_confirmed_row id) db'.requests ≡ true = rw (e, mine, f) at h in
              elim (any_of_upsert (is_confirmed_row id) (observed now o latest)
                (filter (is_kept now) db.requests) (rw written at rows)) [
                  | inr old ↦ inl (any_of_filter _ (is_kept now) db.requests old)
                  | inl new ↦ inr (
                      same_row now current o latest id new
                        (find-passes (has_id current.id) (filter (is_kept now) db.requests) e))
                ]
        ]
      ]
    ]
  where
    same_row :
        (t : ℕ) (c : RequestState) (x : Observation) (l : RequestState) (i : Text)
        → is_confirmed_row i (observed t x l) ≡ true
        → has_id c.id l ≡ true
        → (i ≡ c.id) × (is_confirmed x ≡ true)
    same_row t c x l i n k =
        let (named, status) = both _ _ n in
        (
          sym ((text_eq_iff _ _).0 named) ∙ observed_id t x l ∙ (text_eq_iff _ _).0 k,
          observed-is_confirmed t x l status,
        )

-- `if (!result) throw new WorkerError('conflict')`
abbrev pub or_conflict : Response (Option PublicRequestState) → Response PublicRequestState
or_conflict (err e) = err e
or_conflict (ok none) = err (worker ErrorCode.conflict)
or_conflict (ok (some state)) = ok state

or_conflict-eq-ok :
    (r : Response (Option PublicRequestState)) {a : PublicRequestState}
    → or_conflict r ≡ ok a
    → r ≡ ok (some a)
or_conflict-eq-ok (err e) h = cc
or_conflict-eq-ok (ok none) h = cc
or_conflict-eq-ok (ok (some b)) h = ground (arith, h)

pub committed :
    {A : Type 0} (now : ℕ) (db : Database) (r : Response (A × Database)) {a : A}
    → (commit now db r).0 ≡ ok a
    → (after : Database) × (r ≡ ok (a, after))
committed now db (err e) h = cc
committed now db (ok (b, after)) h = (after, ap (λ c. ok (c, after)) (ok-injective _ _ h))

resolve_finish-confirmed :
    (now : ℕ) (owner_id id candidate : Text) (checking : RequestState) (o : Observation)
    (db : Database) (answer : PublicRequestState)
    → (resolve_finish now owner_id id candidate checking o db).0 ≡ ok (some answer)
    → is_confirmed o ≡ true
unfolding resolve_finish mutate resolve_finish_action
resolve_finish-confirmed now owner_id id candidate checking o db answer h =
    let (after, e) = committed now db _ h in
    let (latest, held, h1) = >>=-eq-ok (owned now owner_id id (sweep now db)) _ e in
    let (mine, h2) = past_guard (not (is_same_lease latest checking)) _ _ h1 in
    let (saved, s, h3) = >>=-eq-ok (save (resolved now candidate o latest) (sweep now db)) _ h2 in
    given (is_confirmed o) _ saved after h3
  where
    given :
        (b : Bool) (s : PublicRequestState) (d d' : Database)
        → ◌≡◌ {A = Response (Option PublicRequestState × Database)}
            (ok (if b then some s else none, d))
            (ok (some answer, d'))
        → b ≡ true
    given true s d d' k = refl
    given false s d d' k = cc

module _ (viem : Viem) (abi : Abi) (config : ChainConfiguration) (url : Option Url)
    (node : Node) where
  abbrev pub observation_of : RequestState → Text → Observation
  observation_of state hash = caught (observe_issuance viem abi config node state.request hash url)

  -- One row that `alarm` selected: the observation, and the mutation after it.
  unfoldable pub alarm_check : ℕ → RequestState → Database → Response (Unit {0}) × Database
  unfolding alarm_finish observe_issuance
  alarm_check now current =
      alarm_finish now current (observation_of current (hash_text current.transaction_hash))

  -- `resolveReplacement` after its first mutation, which gave `checking`.
  unfoldable pub resolve_check :
      ℕ → Text → Text → Text → RequestState → Database → Response PublicRequestState × Database
  unfolding resolve_finish observe_issuance
  resolve_check now owner_id id candidate checking db =
      let finished =
        resolve_finish now owner_id id candidate checking (observation_of checking candidate) db in
      (or_conflict finished.0, finished.1)

  caught-confirmed :
      (r : Response Observation) (c : Confirmation)
      → caught r ≡ Observation.confirmed c
      → r ≡ ok (Observation.confirmed c)
  caught-confirmed (err e) c h = cc
  caught-confirmed (ok o) c h = ap ok h

  abbrev pub IsProved : RequestState → Text → Type 0
  IsProved state hash =
      (c : Confirmation) × IsPinned viem config url state.request
      × IsShown viem abi config node state.request hash c

  proved :
      (state : RequestState) (hash : Text)
      → is_confirmed (observation_of state hash) ≡ true
      → IsProved state hash
  proved state hash h =
      let (c, e) = confirmation_in (observation_of state hash) h in
      let (pinned, shown) =
        observe_issuance-IsShown viem abi config node state.request hash url c
          (caught-confirmed _ c e) in
      (c, pinned, shown)
    where
      confirmation_in :
          (o : Observation)
          → is_confirmed o ≡ true
          → (c : Confirmation) × (o ≡ Observation.confirmed c)
      confirmation_in (Observation.confirmed c) k = (c, refl)
      confirmation_in (Observation.pending p) k = cc
      confirmation_in (Observation.rejected r) k = cc

  -- A row that is confirmed after a check of the alarm was confirmed before it, or is the row that
  -- was checked, and the issuance of its request by its transaction has been shown.
  pub alarm_check-IsProved :
      (now : ℕ) (current : RequestState) (db : Database) (id : Text)
      → any (is_confirmed_row id) (alarm_check now current db).1.requests ≡ true
      → (any (is_confirmed_row id) db.requests ≡ true)
        ⊎ ((id ≡ current.id) × IsProved current (hash_text current.transaction_hash))
  unfolding alarm_check
  alarm_check-IsProved now current db id h =
      elim (alarm_finish-confirmed now current
        (observation_of current (hash_text current.transaction_hash)) db id h) [
          | inl old ↦ inl old
          | inr (same, o) ↦ inr (same, proved current (hash_text current.transaction_hash) o)
        ]

  -- A replacement is answered with a row only if the issuance of the request by the candidate has
  -- been shown; otherwise the answer is an error.
  pub resolve_check-IsProved :
      (now : ℕ) (owner_id id candidate : Text) (checking : RequestState) (db : Database)
      (answer : PublicRequestState)
      → (resolve_check now owner_id id candidate checking db).0 ≡ ok answer
      → IsProved checking candidate
  unfolding resolve_check
  resolve_check-IsProved now owner_id id candidate checking db answer h =
      proved checking candidate (
        resolve_finish-confirmed now owner_id id candidate checking
          (observation_of checking candidate) db answer (or_conflict-eq-ok _ h))
