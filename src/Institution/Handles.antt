-- ===== src/Institution/Handles.antt =====
-- A handle that is closed takes no part in what the others do.
use ultratokenizer.Base.{
  ℕ, Bool, true, not, ◌&&◌, ◌≡◌, ◌==◌, refl, List, [], ◌∷◌, ok, err, filter, Bool-cases, inl, inr,
  arith,
}
use ultratokenizer.Domain.Viem.{Viem}
use ultratokenizer.Institution.Errors.{LedgerResult}
use ultratokenizer.Institution.Fields.{hash}
use ultratokenizer.Institution.Outcomes.{observation}
use ultratokenizer.Institution.Transaction.{Ledger, Action, transaction, with_input, close}
use ultratokenizer.Institution.Rights.{
  import_inputs, import_available_rights, register_input, register_right, find_input, find_right,
  get_right, private_claim_identity,
}
use ultratokenizer.Institution.Pools.{cap_input, set_backing_cap, pool_input, get_pool}
use ultratokenizer.Institution.Allocations.{reserve_input, reserve, get_allocation, settle}
use ultratokenizer.Institution.Calls.{Call, call, Connections, is_closed_handle, view, call_by, run}

transaction-closed :
    {A : Type 0} (action : Action A) (l : Ledger)
    → l.is_closed ≡ true
    → (transaction action l).1 ≡ l
unfolding transaction
transaction-closed action l h = rw h refl

with_input-closed :
    {A B : Type 0} (r : LedgerResult A) (action : A → Action B) (l : Ledger)
    → l.is_closed ≡ true
    → (with_input r (λ a. transaction (action a)) l).1 ≡ l
with_input-closed (ok a) action l h = transaction-closed (action a) l h
with_input-closed (err e) action l h = refl

close-closed : (fails : Bool) (l : Ledger) → l.is_closed ≡ true → (close fails l).1 ≡ l
unfolding close
close-closed fails l h = rw h refl

module _ (viem : Viem) where
  call-closed : (c : Call) (l : Ledger) → l.is_closed ≡ true → call viem c l ≡ l
  unfolding call import_available_rights register_right find_right get_right private_claim_identity
      set_backing_cap get_pool reserve get_allocation settle
  call-closed (Call.imports v) l h = with_input-closed (import_inputs viem v) _ l h
  call-closed (Call.registers r c v) l h = with_input-closed (register_input viem v) _ l h
  call-closed (Call.finds_right v) l h = with_input-closed (find_input viem v) _ l h
  call-closed (Call.gets_right v) l h = with_input-closed (hash v) _ l h
  call-closed (Call.gets_identity v) l h = with_input-closed (hash v) _ l h
  call-closed (Call.sets_cap v) l h = with_input-closed (cap_input viem v) _ l h
  call-closed (Call.gets_pool v) l h = with_input-closed (pool_input viem v) _ l h
  call-closed (Call.reserves v) l h = with_input-closed (reserve_input viem v) _ l h
  call-closed (Call.gets_allocation v) l h = with_input-closed (hash v) _ l h
  call-closed (Call.settles kind v) l h = with_input-closed (observation viem kind v) _ l h
  call-closed (Call.closes fails) l h = close-closed fails l h

  call_by-closed :
      (handle : ℕ) (c : Call) (db : Connections)
      → is_closed_handle handle db ≡ true
      → call_by viem (handle, c) db ≡ db
  unfolding call_by
  call_by-closed handle c db h = rw (call-closed c (view handle db) h, h) refl

  -- No call opens a handle again.
  call_by-stays_closed :
      (handle other : ℕ) (c : Call) (db : Connections)
      → is_closed_handle handle db ≡ true
      → is_closed_handle handle (call_by viem (other, c) db) ≡ true
  unfolding call_by
  call_by-stays_closed handle other c db h =
      elim (Bool-cases
        ((call viem c (view other db)).is_closed && not (is_closed_handle other db))) [
          | inl closes ↦ rw closes (ground (arith, h))
          | inr stays ↦ rw stays h
        ]

  -- If a handle is closed, any calls of any handles, its own among them, leave behind what the
  -- calls of the other handles alone leave behind: its own write nothing, and the others go on as if
  -- they had not been made.
  pub run-closed_handle :
      (handle : ℕ) (cs : List (ℕ × Call)) (db : Connections)
      → is_closed_handle handle db ≡ true
      → run viem cs db ≡ run viem (filter (λ c. not (c.0 == handle)) cs) db
  unfolding run
  run-closed_handle handle [] db h = refl
  run-closed_handle handle ((other, c) ∷ cs) db h = elim (Bool-cases (other == handle)) [
    | inl own ↦
        let same : other ≡ handle = ground (arith, own) in
        let idle : call_by viem (other, c) db ≡ db = call_by-closed other c db (rw same h) in
        rw (own, idle) (run-closed_handle handle cs db h)
    | inr apart ↦ rw apart (
        run-closed_handle handle cs (call_by viem (other, c) db)
          (call_by-stays_closed handle other c db h))
  ]
