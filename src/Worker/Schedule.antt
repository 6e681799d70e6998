-- ===== src/Worker/Schedule.antt =====
-- The coordinator under any interleaving: each mutation of a method is one step, and what stands
-- between two mutations of a method (a read of the chain) lets any other step happen.
use ultratokenizer.Base.{ℕ, ◌≤◌, Text, List, [], ◌∷◌, none, ◌≡◌, true}
use ultratokenizer.Domain.Viem.{Viem}
use ultratokenizer.Domain.Request.{IssuanceRequest}
use ultratokenizer.Worker.Model.{RequestState, Observation}
use ultratokenizer.Worker.Database.{Database, is_some}
use ultratokenizer.Worker.Requests.{create, inspect, submit, cancel, reconcile}
use ultratokenizer.Worker.Observing.{resolve_begin, resolve_finish, alarm_begin, alarm_finish}

pub data Step : Type 0 where
  creates : (owner_id : Text) → IssuanceRequest → Step
  inspects cancels reconciles : (owner_id id : Text) → Step
  submits : (owner_id id hash : Text) → Step
  begins_replacement : (uuid owner_id id : Text) → Step
  ends_replacement : (owner_id id candidate : Text) → RequestState → Observation → Step
  begins_alarm : (ℕ → Text) → Step
  ends_alarm : RequestState → Observation → Step

-- The database that a step leaves behind, whether it returns or throws.
unfoldable pub step : Viem → ℕ → Step → Database → Database
step viem now (Step.creates o r) db = (create viem now o r db).1
step viem now (Step.inspects o id) db = (inspect now o id db).1
step viem now (Step.cancels o id) db = (cancel now o id db).1
step viem now (Step.reconciles o id) db = (reconcile now o id db).1
step viem now (Step.submits o id h) db = (submit now o id h db).1
step viem now (Step.begins_replacement u o id) db = (resolve_begin now u o id db).1
step viem now (Step.ends_replacement o id c s x) db = (resolve_finish now o id c s x db).1
step viem now (Step.begins_alarm u) db = (alarm_begin now u db).1
step viem now (Step.ends_alarm s x) db = (alarm_finish now s x db).1

-- A second mutation follows a first one, which leased the row that it hands on.
abbrev pub IsGenuine : Step → Type 0
IsGenuine (Step.ends_replacement o id c s x) = is_some s.lease_id ≡ true
IsGenuine (Step.ends_alarm s x) = is_some s.lease_id ≡ true
IsGenuine _ = Unit

-- Steps in the order of their times, from `start` on.
abbrev pub IsTimely : ℕ → List (ℕ × Step) → Type 0
IsTimely start [] = Unit
IsTimely start ((now, s) ∷ rest) = (start ≤ now) × IsGenuine s × IsTimely now rest

unfoldable pub run : Viem → List (ℕ × Step) → Database → Database
run viem [] db = db
run viem ((now, s) ∷ rest) db = run viem rest (step viem now s db)

-- The time of the last step.
abbrev pub end_time : ℕ → List (ℕ × Step) → ℕ
end_time start [] = start
end_time start ((now, s) ∷ rest) = end_time now rest

abbrev pub empty_database : Database
empty_database = record { requests = []; events = []; alarm = none }
