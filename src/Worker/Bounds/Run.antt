-- ===== src/Worker/Bounds/Run.antt =====
-- The bounds of the coordinator over every interleaving of its methods and of the platform's alarm.
use ultratokenizer.Base.{ℕ, List, [], ◌∷◌, arith}
use ultratokenizer.Domain.Viem.{Viem}
use ultratokenizer.Worker.Database.{Database}
use ultratokenizer.Worker.Schedule.{Step, step, IsGenuine, IsTimely, run, end_time, empty_database}
use ultratokenizer.Worker.Bounds.{IsBounded, Changes-IsBounded, later-IsBounded}
use ultratokenizer.Worker.Refinement.Steps.{step-Changes}

pub step-IsBounded :
    (viem : Viem) (now : ℕ) (s : Step) (db : Database)
    → IsGenuine s
    → IsBounded now db.requests
    → IsBounded now (step viem now s db).requests
step-IsBounded viem now s db g h = Changes-IsBounded (step-Changes viem now s db g h.distinct) h

run_from-IsBounded :
    (viem : Viem) (start : ℕ) (steps : List (ℕ × Step)) (db : Database)
    → IsTimely start steps
    → IsBounded start db.requests
    → IsBounded (end_time start steps) (run viem steps db).requests
unfolding run
run_from-IsBounded viem start [] db t h = h
run_from-IsBounded viem start ((now, s) ∷ rest) db (le, g, t) h =
    run_from-IsBounded viem now rest (step viem now s db) t
      (step-IsBounded viem now s db g (later-IsBounded start now db.requests le h))

empty-IsBounded : IsBounded 0 []
empty-IsBounded = record {
  distinct = tt;
  retained = omega arith;
  opened = omega arith;
  retained_of = λ o. omega arith;
  opened_of = λ o. omega arith;
  observing = omega arith;
  sound = tt;
}

-- After any interleaving of the coordinator's methods, of every owner, and of the platform's alarms,
-- from an empty database, with steps in the order of their times and each second mutation of a method
-- handed a row with a lease: ids are distinct, at most 128 requests are retained and 32 open, at most
-- 32 retained and 8 open for each owner, at most 4 rows hold a lease that has not run out, and each
-- row is sound (no lease while it awaits a submission or is closed, no hash before its submission, no
-- prior hash while it is open, at most one at all, at most 24 observations).
pub run-IsBounded :
    (viem : Viem) (steps : List (ℕ × Step))
    → IsTimely 0 steps
    → IsBounded (end_time 0 steps) (run viem steps empty_database).requests
run-IsBounded viem steps t = run_from-IsBounded viem 0 steps empty_database t empty-IsBounded
