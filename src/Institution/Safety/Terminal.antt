-- ===== src/Institution/Safety/Terminal.antt =====
-- An allocation that is issued or released stays as it is.
use ultratokenizer.Base.{
  ℕ, Text, text_eq_iff, true, false, ◌≡◌, List, [], ◌∷◌, some, map, arith, any, find, any_of_find,
  find-passes, Bool-cases, inl, inr,
}
use ultratokenizer.Domain.Viem.{Viem}
use ultratokenizer.Institution.Types.{
  AllocationRow, AllocationState, Observation, Store, is_pending,
}
use ultratokenizer.Institution.Store.{has_digest, settle_row}
use ultratokenizer.Institution.Calls.{Call, Connections, run}
use ultratokenizer.Institution.Spec.{Move, Moves}
use ultratokenizer.Institution.Refinement.Methods.{run-Moves}

-- The row that the tables hold for a digest, if it is settled.
pub record IsSettled (d : Text) (row : AllocationRow) (s : Store) : Type 0 where
  pub found : find (has_digest d) s.allocations ≡ some row
  pub over : is_pending row.state ≡ false

find-settle :
    (d digest : Text) (target : AllocationState) (outcome : Observation) (row : AllocationRow)
    (rows : List AllocationRow)
    → find (has_digest d) rows ≡ some row
    → is_pending row.state ≡ false
    → find (has_digest d) (map (settle_row digest target outcome) rows) ≡ some row
find-settle d digest target outcome row [] e over = cc
find-settle d digest target outcome row (x ∷ rows) e over = elim (Bool-cases (has_digest d x)) [
  | inl hit ↦ let same : x ≡ row = ground arith in ground arith
  | inr miss ↦ ground (arith, find-settle d digest target outcome row rows)
]

Move-IsSettled :
    (d : Text) (row : AllocationRow) {s t : Store}
    → Move s t
    → IsSettled d row s
    → IsSettled d row t
Move-IsSettled d row (Move.add_right new fresh e) h =
    rw e (record { found = h.found; over = h.over })
Move-IsSettled d row (Move.set_cap new covers e) h =
    rw e (record { found = h.found; over = h.over })
Move-IsSettled d row {s} (Move.allocate new pend cols owner fresh free apart room e) h =
    rw e (record {
      found = elim (Bool-cases (has_digest d new)) [
        | inl hit ↦
            let same : new.request_digest ≡ d = (text_eq_iff new.request_digest d).0 hit in
            let clash : any (has_digest new.request_digest) s.allocations ≡ true =
              any_of_find (has_digest d) (has_digest new.request_digest) s.allocations h.found
                (rw same (find-passes (has_digest d) s.allocations h.found)) in
            absurd (ground arith)
        | inr miss ↦ rw miss h.found
      ];
      over = h.over;
    })
Move-IsSettled d row {s} (Move.settle digest target outcome over e) h = rw e (record {
  found = find-settle d digest target outcome row s.allocations h.found h.over;
  over = h.over;
})

Moves-IsSettled :
    (d : Text) (row : AllocationRow) {s t : Store}
    → Moves s t
    → IsSettled d row s
    → IsSettled d row t
Moves-IsSettled d row Moves.here h = h
Moves-IsSettled d row (Moves.next m step) h = Move-IsSettled d row step (Moves-IsSettled d row m h)

-- Once an allocation is issued or released, no later call changes its row: its state, its
-- observation and its request stay.
pub run-IsSettled :
    (viem : Viem) (cs : List (ℕ × Call)) (db : Connections) (d : Text) (row : AllocationRow)
    → IsSettled d row db.store
    → IsSettled d row (run viem cs db).store
run-IsSettled viem cs db d row h = Moves-IsSettled d row (run-Moves viem cs db) h
