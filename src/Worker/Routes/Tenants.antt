-- ===== src/Worker/Routes/Tenants.antt =====
-- The coordinators behind the routes: one database for each tenant, and the methods that `fetch`
-- calls, `submit` of workers/issuance/src/coordinator.ts with its replacement included.
use ultratokenizer.Base.{
  ℕ, ◌≤◌, Text, text_eq, text_eq_iff, Bool, true, false, not, ◌||◌, leb, length, ◌≡◌, ◌≢◌, ◌⊎◌, inl,
  inr, refl, ap, sym, ◌∙◌, subst, Option, some, ok, err, find, if◌then◌else◌, Bool-cases,
  Result-cases, >>=-eq-ok, past_guard, ok-injective, arith,
}
use ultratokenizer.Domain.Viem.{Viem}
use ultratokenizer.Worker.Errors.{Response}
use ultratokenizer.Worker.Model.{
  RequestState, PublicRequestState, is_open, max_concurrent_observations,
}
use ultratokenizer.Worker.Database.{
  Database, has_id, is_some, is_kept, is_retired, leased, owned, sweep, save, mutate, lease,
}
use ultratokenizer.Worker.Requests.{create, inspect, is_replacement, submit, cancel, reconcile}
use ultratokenizer.Worker.Observing.{resolve_begin, resolve_begin_action, leased_count}
use ultratokenizer.Worker.Observer.{ChainConfiguration, Url, Node}
use ultratokenizer.Worker.Observer.Logs.{Abi}
use ultratokenizer.Worker.Observer.Check.{resolve_check, observation_of, committed}
use ultratokenizer.Worker.Schedule.{Step, step, IsGenuine}
use ultratokenizer.Worker.Spec.{owner}
use ultratokenizer.Worker.Bounds.{IsBounded, later-IsBounded}
use ultratokenizer.Worker.Bounds.Run.{step-IsBounded}
use ultratokenizer.Worker.Isolation.{step-isolated, kept_earlier}
use ultratokenizer.Worker.Refinement.Steps.{actor_of}
use ultratokenizer.Worker.Auth.{Principal, Jose, authenticate}
use ultratokenizer.Worker.Routes.{Environment, HttpRequest, Platform, Method}
use ultratokenizer.Worker.Routes.Serve.{Tenants, fetch}
use ultratokenizer.Worker.Routes.Authorized.{fetch-IsAllowed}

-- `uuid` names a lease; the observation of a replacement ends at `later`, and no other call comes
-- between.
module _ (viem : Viem) (abi : Abi) (config : ChainConfiguration) (url : Option Url) (node : Node)
    (uuid : Text) (now later : ℕ) where
  abbrev pub after_begin :
      Text → Text → Text → Response RequestState → Database → Response PublicRequestState × Database
  after_begin owner_id id candidate (err e) db = (err e, db)
  after_begin owner_id id candidate (ok checking) db =
      resolve_check viem abi config url node later owner_id id candidate checking db

  unfoldable pub resolve_replacement :
      Text → Text → Text → Database → Response PublicRequestState × Database
  unfolding resolve_begin resolve_check
  resolve_replacement owner_id id candidate db =
      let begun = resolve_begin now uuid owner_id id db in
      after_begin owner_id id candidate begun.0 begun.1

  abbrev pub submit_as :
      Text → Text → Text → Database → Response Bool → Response PublicRequestState × Database
  submit_as owner_id id hash db (err e) = (err e, db)
  submit_as owner_id id hash db (ok true) = resolve_replacement owner_id id hash db
  submit_as owner_id id hash db (ok false) = submit now owner_id id hash db

  unfoldable pub submit_method :
      Text → Text → Text → Database → Response PublicRequestState × Database
  unfolding resolve_replacement is_replacement submit
  submit_method owner_id id hash db =
      submit_as owner_id id hash db (is_replacement now owner_id id hash db)

  unfoldable pub call_method : Text → Method → Database → Response PublicRequestState × Database
  unfolding create inspect cancel reconcile submit_method
  call_method owner_id (Method.create request) db = create viem now owner_id request db
  call_method owner_id (Method.inspect id) db = inspect now owner_id id db
  call_method owner_id (Method.cancels id) db = cancel now owner_id id db
  call_method owner_id (Method.reconciles id) db = reconcile now owner_id id db
  call_method owner_id (Method.submit id hash) db = submit_method owner_id id hash db

  -- `env.TENANTS.getByName(tenant_id)`: a database for each name.
  unfoldable pub tenants : Tenants (Text → Database)
  unfolding call_method
  tenants tenant_id owner_id method databases =
      let called = call_method owner_id method (databases tenant_id) in
      (called.0, λ name. if text_eq name tenant_id then called.1 else databases name)

  -- As it was, or past its retention.
  abbrev pub IsUntouched : Text → RequestState → Database → Type 0
  IsUntouched id row db = (find (has_id id) db.requests ≡ some row) ⊎ (is_retired later row ≡ true)

  untouched :
      (db : Database) (id : Text) (row : RequestState)
      → now ≤ later
      → (find (has_id id) db.requests ≡ some row) ⊎ (is_kept now row ≡ false)
      → IsUntouched id row db
  untouched db id row le (inl same) = inl same
  untouched db id row le (inr gone) = inr (kept_earlier now later row le gone)

  begun-is_leased :
      (o key : Text) (db : Database) (checking : RequestState)
      → (resolve_begin now uuid o key db).0 ≡ ok checking
      → is_some checking.lease_id ≡ true
  unfolding resolve_begin mutate resolve_begin_action lease
  begun-is_leased o key db checking h =
      let (after, e) = committed now db _ h in
      let (state, held, h1) = >>=-eq-ok (owned now o key (sweep now db)) _ e in
      let (checked, h2) =
        past_guard
          (not (is_open state.status)
            || not (is_some state.transaction_hash)
            || leb 8 (length state.prior_transaction_hashes))
          _ _ h1 in
      let (free, h3) =
        past_guard
          (leased state now
            || leb max_concurrent_observations (leased_count now (sweep now db).requests))
          _ _ h2 in
      let (saved, written, made) = >>=-eq-ok (save (lease uuid state now) (sweep now db)) _ h3 in
      let same = ok-injective (lease uuid state now, saved) (checking, after) made in
      subst (λ (x : RequestState × Database). is_some x.0.lease_id ≡ true) same refl

  module _ (o id : Text) (row : RequestState) (le : now ≤ later) (other : row.owner_id ≢ o) where
    one_step :
        (s : Step) (db : Database)
        → IsGenuine s
        → actor_of s ≡ owner o
        → IsBounded now db.requests
        → find (has_id id) db.requests ≡ some row
        → IsUntouched id row (step viem now s db)
    one_step s db g a b f =
        untouched (step viem now s db) id row le
          (step-isolated viem now s db o id row g b a f other)

    resolve-isolated :
        (key candidate : Text) (db : Database)
        → IsBounded now db.requests
        → find (has_id id) db.requests ≡ some row
        → IsUntouched id row (resolve_replacement o key candidate db).1
    unfolding resolve_replacement resolve_check step
    resolve-isolated key candidate db b f =
        let first = one_step (Step.begins_replacement uuid o key) db tt refl b f in
        elim (Result-cases (resolve_begin now uuid o key db).0) [
          | inr (e, failed) ↦ rw failed first
          | inl (checking, begun) ↦ rw begun (elim first [
            | inr gone ↦ inr gone
            | inl kept ↦
                let after = (resolve_begin now uuid o key db).1 in
                let bounded =
                  later-IsBounded now later after.requests le
                    (step-IsBounded viem now (Step.begins_replacement uuid o key) db tt b) in
                let second =
                  Step.ends_replacement o key candidate checking
                    (observation_of viem abi config url node checking candidate) in
                elim (step-isolated viem later second after o id row
                  (begun-is_leased o key db checking begun) bounded refl kept other) [
                    | inl same ↦ inl same
                    | inr gone ↦ inr (kept_earlier later later row (omega arith) gone)
                  ]
          ])
        ]

    submit-isolated :
        (key hash : Text) (db : Database) (replaces : Response Bool)
        → IsBounded now db.requests
        → find (has_id id) db.requests ≡ some row
        → IsUntouched id row (submit_as o key hash db replaces).1
    unfolding step
    submit-isolated key hash db (err e) b f = inl f
    submit-isolated key hash db (ok true) b f = resolve-isolated key hash db b f
    submit-isolated key hash db (ok false) b f = one_step (Step.submits o key hash) db tt refl b f

    call_method-isolated :
        (m : Method) (db : Database)
        → IsBounded now db.requests
        → find (has_id id) db.requests ≡ some row
        → IsUntouched id row (call_method o m db).1
    unfolding call_method submit_method step
    call_method-isolated (Method.create request) db b f =
        one_step (Step.creates o request) db tt refl b f
    call_method-isolated (Method.inspect key) db b f = one_step (Step.inspects o key) db tt refl b f
    call_method-isolated (Method.cancels key) db b f = one_step (Step.cancels o key) db tt refl b f
    call_method-isolated (Method.reconciles key) db b f =
        one_step (Step.reconciles o key) db tt refl b f
    call_method-isolated (Method.submit key hash) db b f =
        submit-isolated key hash db (is_replacement now o key hash db) b f

  -- A request leaves a row as it was, or past its retention, in a database within the bounds of the
  -- coordinator, unless its credentials are those of the owner of the row, in the tenant of the row.
  -- The second mutation of a replacement comes no earlier than the first.
  pub fetch-isolated :
      (jose : Jose) (platform : Platform) (env : Environment) (r : HttpRequest)
      (databases : Text → Database) (tenant_id id : Text) (row : RequestState)
      → now ≤ later
      → IsBounded now (databases tenant_id).requests
      → find (has_id id) (databases tenant_id).requests ≡ some row
      → ((p : Principal)
          → authenticate viem jose r.authorization env.auth now ≡ ok p
          → (p.tenant_id ≢ tenant_id) ⊎ (row.owner_id ≢ p.owner_id))
      → IsUntouched id row ((fetch tenants viem jose platform env now r databases).1 tenant_id)
  unfolding tenants
  fetch-isolated jose platform env r databases tenant_id id row le b f strange =
      elim (fetch-IsAllowed viem jose platform env now r tenants databases) [
        | inl same ↦
            inl (ap (λ (d : Text → Database). find (has_id id) (d tenant_id).requests) same ∙ f)
        | inr (p, m, known, allowed, stored, answered) ↦
            subst (λ (d : Text → Database). IsUntouched id row (d tenant_id)) (sym stored)
              (elim (Bool-cases (text_eq tenant_id p.tenant_id)) [
                | inr apart ↦ inl (rw apart f)
                | inl here ↦
                    let same = (text_eq_iff tenant_id p.tenant_id).0 here in
                    rw here (elim (strange p known) [
                      | inl away ↦ absurd (away (sym same))
                      | inr other ↦
                          subst
                            (λ (t : Text).
                              IsUntouched id row (call_method p.owner_id m (databases t)).1)
                            same
                            (call_method-isolated p.owner_id id row le other m (databases tenant_id)
                              b f)
                    ])
              ])
      ]
