-- ===== src/Worker/Refinement/Steps.antt =====
-- Every step of the coordinator, in any interleaving, refines the specification.
use ultratokenizer.Base.{ℕ, ◌≡◌, refl, inl, inr, ok, arith, Result-cases}
use ultratokenizer.Domain.Viem.{Viem}
use ultratokenizer.Worker.Database.{Database, Action, sweep, schedule_alarm, mutate, is_kept}
use ultratokenizer.Worker.Requests.{create, inspect, submit, cancel, reconcile}
use ultratokenizer.Worker.Observing.{
  resolve_begin, resolve_finish, alarm_begin, alarm_finish, alarm_begin_action,
}
use ultratokenizer.Worker.Schedule.{Step, step, IsGenuine}
use ultratokenizer.Worker.Spec.{Actor, owner, platform, Change, Changes}
use ultratokenizer.Worker.Rows.{Distinct, filter-Distinct}
use ultratokenizer.Worker.Refinement.{
  ActionChanges, Changes-one, Changes-trans, create-Changes, submit-Changes, cancel-Changes,
  reconcile-Changes, resolve_begin-Changes, resolve_finish-Changes, observe-Changes,
}
use ultratokenizer.Worker.Refinement.Alarm.{alarm_begin-Changes}

-- Who acts in a step.
abbrev pub actor_of : Step → Actor
actor_of (Step.creates o r) = owner o
actor_of (Step.inspects o id) = owner o
actor_of (Step.cancels o id) = owner o
actor_of (Step.reconciles o id) = owner o
actor_of (Step.submits o id h) = owner o
actor_of (Step.begins_replacement u o id) = owner o
actor_of (Step.ends_replacement o id c s x) = owner o
actor_of (Step.begins_alarm u) = platform
actor_of (Step.ends_alarm s x) = platform

schedule_alarm_requests : (now : ℕ) (db : Database) → (schedule_alarm now db).requests ≡ db.requests
unfolding schedule_alarm
schedule_alarm_requests now db = refl

sweep-Change :
    (now : ℕ) (actor : Actor) (db : Database)
    → Changes now actor db.requests (sweep now db).requests
unfolding sweep
sweep-Change now actor db = Changes-one (Change.retire refl)

mutate-Changes :
    {A : Type 0} (now : ℕ) (actor : Actor) (action : Action A) (db : Database)
    → ((db' : Database) (a : A)
        → action (sweep now db) ≡ ok (a, db')
        → Changes now actor (sweep now db).requests db'.requests)
    → Changes now actor db.requests (mutate now action db).1.requests
unfolding mutate
mutate-Changes now actor action db changes = elim (Result-cases (action (sweep now db))) [
  | inl ((a, db'), done) ↦
      rw (done, schedule_alarm_requests now db')
        (Changes-trans (sweep-Change now actor db) (changes db' a done))
  | inr (e, failed) ↦ rw failed Changes.here
]

mutate_action :
    {A : Type 0} (now : ℕ) (actor : Actor) (action : Action A) (db : Database)
    → ActionChanges now actor action
    → Changes now actor db.requests (mutate now action db).1.requests
mutate_action now actor action db changes =
    mutate-Changes now actor action db λ db' a e. changes (sweep now db) db' a e

sweep-Distinct : (now : ℕ) (db : Database) → Distinct db.requests → Distinct (sweep now db).requests
unfolding sweep
sweep-Distinct now db d = filter-Distinct (is_kept now) db.requests d

-- A step at any time and by anyone, on rows with distinct ids, where a second mutation is handed
-- a row with a lease, changes the rows by changes of the specification only, made on behalf of
-- the actor of the step.
pub step-Changes :
    (viem : Viem) (now : ℕ) (s : Step) (db : Database)
    → IsGenuine s
    → Distinct db.requests
    → Changes now (actor_of s) db.requests (step viem now s db).requests
unfolding step create inspect submit cancel reconcile resolve_begin resolve_finish alarm_begin
    alarm_finish
step-Changes viem now (Step.creates o r) db g d =
    mutate_action now _ _ db (create-Changes viem now o r)
step-Changes viem now (Step.inspects o id) db g d =
    mutate_action now (owner o) _ db
      λ x y a h. let same : x ≡ y = ground arith in rw (← same) Changes.here
step-Changes viem now (Step.cancels o id) db g d =
    mutate_action now _ _ db (cancel-Changes now o id)
step-Changes viem now (Step.reconciles o id) db g d =
    mutate_action now _ _ db (reconcile-Changes now o id)
step-Changes viem now (Step.submits o id h) db g d =
    mutate_action now _ _ db (submit-Changes now o id h)
step-Changes viem now (Step.begins_replacement u o id) db g d =
    mutate_action now _ _ db (resolve_begin-Changes now u o id)
step-Changes viem now (Step.ends_replacement o id c s x) db g d =
    mutate_action now _ _ db (resolve_finish-Changes now o id c s x g)
step-Changes viem now (Step.begins_alarm u) db g d =
    mutate-Changes now platform (alarm_begin_action now u) db
      λ db' a e. alarm_begin-Changes now u (sweep now db) db' a (sweep-Distinct now db d) e
step-Changes viem now (Step.ends_alarm s x) db g d =
    mutate_action now _ _ db (observe-Changes now s x g)
