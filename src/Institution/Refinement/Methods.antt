-- ===== src/Institution/Refinement/Methods.antt =====
-- The methods, and any sequence of calls, refine the specification.
use ultratokenizer.Base.{ℕ, Bool, Bool-cases, ◌≡◌, arith, List, [], ◌∷◌, Result-cases, inl, inr}
use ultratokenizer.Domain.Viem.{Viem}
use ultratokenizer.Institution.Errors.{LedgerResult}
use ultratokenizer.Institution.Fields.{hash}
use ultratokenizer.Institution.Types.{Store}
use ultratokenizer.Institution.Outcomes.{observation}
use ultratokenizer.Institution.Transaction.{Ledger, transaction, reads, close}
use ultratokenizer.Institution.Rights.{
  import_inputs, import_available_rights, register_input, register_right, find_input, find_right,
  get_right, private_claim_identity,
}
use ultratokenizer.Institution.Pools.{cap_input, set_backing_cap, pool_input, get_pool}
use ultratokenizer.Institution.Allocations.{reserve_input, reserve, get_allocation, settle}
use ultratokenizer.Institution.Calls.{Call, Connections, view, call, call_by, run}
use ultratokenizer.Institution.Spec.{Moves, Moves-trans}
use ultratokenizer.Institution.Refinement.{
  MethodMoves, transaction-Moves, with_input-Moves, import_all-Moves, register_action-Moves,
  set_cap-Moves, reserve_action-Moves, settle_action-Moves,
}

reads-Moves : {A : Type 0} (f : Store → LedgerResult A) → MethodMoves (transaction (reads f))
reads-Moves f = transaction-Moves (reads f) λ s t a h. elim (Result-cases (f s)) [
  | inl (b, done) ↦ let same : s ≡ t = ground arith in rw (← same) Moves.here
  | inr (e, failed) ↦ absurd (ground arith)
]

close-Moves : (fails : Bool) → MethodMoves (close fails)
unfolding close
close-Moves fails l = elim (Bool-cases l.is_closed) [
  | inl shut ↦ rw shut Moves.here
  | inr live ↦ elim (Bool-cases fails) [
    | inl failed ↦ rw (live, failed) Moves.here
    | inr done ↦ rw (live, done) Moves.here
  ]
]

module _ (viem : Viem) where
  -- Whatever a caller passes, a call changes the tables by moves of the specification.
  pub call-Moves : (c : Call) (l : Ledger) → Moves l.store (call viem c l).store
  unfolding call import_available_rights register_right find_right get_right private_claim_identity
      set_backing_cap get_pool reserve get_allocation settle close
  call-Moves (Call.imports v) l =
      with_input-Moves (import_inputs viem v) _
        (λ inputs. transaction-Moves _ (import_all-Moves viem inputs)) l
  call-Moves (Call.registers r c v) l =
      with_input-Moves (register_input viem v) _
        (λ input. transaction-Moves _ (register_action-Moves viem r c input)) l
  call-Moves (Call.finds_right v) l =
      with_input-Moves (find_input viem v) _ (λ (a, b). reads-Moves _) l
  call-Moves (Call.gets_right v) l = with_input-Moves (hash v) _ (λ id. reads-Moves _) l
  call-Moves (Call.gets_identity v) l = with_input-Moves (hash v) _ (λ id. reads-Moves _) l
  call-Moves (Call.sets_cap v) l =
      with_input-Moves (cap_input viem v) _ (λ row. transaction-Moves _ (set_cap-Moves row)) l
  call-Moves (Call.gets_pool v) l =
      with_input-Moves (pool_input viem v) _ (λ (a, b). reads-Moves _) l
  call-Moves (Call.reserves v) l =
      with_input-Moves (reserve_input viem v) _
        (λ input. transaction-Moves _ (reserve_action-Moves viem input)) l
  call-Moves (Call.gets_allocation v) l = with_input-Moves (hash v) _ (λ digest. reads-Moves _) l
  call-Moves (Call.settles kind v) l =
      with_input-Moves (observation viem kind v) _
        (λ outcome. transaction-Moves _ (settle_action-Moves viem kind outcome)) l
  call-Moves (Call.closes fails) l = close-Moves fails l

  call_by-Moves :
      (handle : ℕ) (c : Call) (db : Connections)
      → Moves db.store (call_by viem (handle, c) db).store
  unfolding call_by
  call_by-Moves handle c db = call-Moves c (view handle db)

  -- Every sequence of calls by any handles, whatever the callers pass, changes the tables by moves
  -- of the specification only.
  pub run-Moves : (cs : List (ℕ × Call)) (db : Connections) → Moves db.store (run viem cs db).store
  unfolding run
  run-Moves [] db = Moves.here
  run-Moves ((handle, c) ∷ cs) db =
      Moves-trans (call_by-Moves handle c db) (run-Moves cs (call_by viem (handle, c) db))
