-- ===== src/Institution/Refinement.antt =====
-- Every method moves the tables by the moves of the specification only, whatever its input.
pub mod Methods
use ultratokenizer.Base.{
  ℕ, ◌+◌, ◌≤◌, Text, big_int, text_eq, text_eq_iff, Bool, true, false, ◌≡◌, refl, List, [], ◌∷◌,
  Option, none, some, ok, err, arith, find, any, Result, >>=-eq-ok, inl, inr, Bool-cases,
  Option-cases, find-passes, any_of_find, rethrow, filter, Result-cases,
}
use ultratokenizer.Domain.Value.{Value}
use ultratokenizer.Domain.Viem.{Viem}
use ultratokenizer.Institution.Retry.Equal.{not_pending}
use ultratokenizer.Institution.Errors.{LedgerResult, storage_unavailable}
use ultratokenizer.Institution.Types.{
  RightRow, PoolRow, AllocationRow, Observation, Store, Allocation, BackingPool, InstitutionRight,
  RegisterRightInput, is_pending,
}
use ultratokenizer.Institution.Store.{
  has_right_id, insert_right, upsert_pool, insert_allocation, update_allocations, has_digest,
  shares_identifier, is_live_of_right, is_in_conflict,
}
use ultratokenizer.Institution.Snapshots.{
  right_row, right_snapshot, pool_snapshot, allocation_snapshot,
}
use ultratokenizer.Institution.Outcomes.{Kind, target_state}
use ultratokenizer.Institution.Transaction.{Ledger, Action, Method, transaction, with_input, reads}
use ultratokenizer.Institution.Rights.{
  import_match, import_one, import_all, import_inputs, import_available_rights, register_with,
  register_action, register_input, register_right, claim_identity, registered_row,
}
use ultratokenizer.Domain.Claim.{get_claim_usage_id}
use ultratokenizer.Institution.Pools.{cap_input, set_cap, set_backing_cap}
use ultratokenizer.Institution.Allocations.{
  Reservation, reserve_new, reserve_with, reserve_action, reserve_input, reserve, settle_pending,
  settle_action, settle, new_allocation,
}
use ultratokenizer.Institution.Backing.{pool_snapshot_sum, live_sum, pool_cap}
use ultratokenizer.Institution.Spec.{is_right_of, Move, Moves, Moves-trans, Moves-one}

-- An action that returns has moved the tables.
abbrev pub ActionMoves : {A : Type 0} → Action A → Type 0
ActionMoves {A} action = (s t : Store) (a : A) → action s ≡ ok (a, t) → Moves s t

insert_right-Move : (row : RightRow) (s t : Store) → insert_right row s ≡ ok t → Move s t
unfolding insert_right
insert_right-Move row s t h = Move.add_right row (ground arith) (ground arith)

pub set_cap-Moves : (row : PoolRow) → ActionMoves (set_cap row)
unfolding set_cap upsert_pool
set_cap-Moves row s t a h =
    let (pool, snap, rest) = >>=-eq-ok (pool_snapshot row.issuer_id row.token s) _ h in
    let facts = pool_snapshot_sum row.issuer_id row.token s pool snap in
    Moves-one (Move.set_cap row (ground arith) (ground arith))

module _ (viem : Viem) where
  import_match-Moves :
      (input : RightRow) (matches : List RightRow) → ActionMoves (import_match viem input matches)
  unfolding import_match
  import_match-Moves input [] s t a h =
      let (s', stored, rest) = >>=-eq-ok (insert_right input s) _ h in
      let (row, found, rest') = >>=-eq-ok (right_row input.right_id s') _ rest in
      let (right, snap, done) = >>=-eq-ok (right_snapshot viem row s') _ rest' in
      let same : s' ≡ t = ground arith in
      rw (← same) (Moves-one (insert_right-Move input s s' stored))
  import_match-Moves input (row ∷ more) s t a h =
      let same : s ≡ t = ground arith in rw (← same) Moves.here

  pub import_all-Moves : (inputs : List RightRow) → ActionMoves (import_all viem inputs)
  unfolding import_all import_one
  import_all-Moves [] s t a h = let same : s ≡ t = ground arith in rw (← same) Moves.here
  import_all-Moves (input ∷ inputs) s t a h =
      let ((right, s'), one, rest) = >>=-eq-ok (import_one viem input s) _ h in
      let ((rights, s''), more, done) = >>=-eq-ok (import_all viem inputs s') _ rest in
      let same : s'' ≡ t = ground arith in
      rw (← same) (
        Moves-trans
          (import_match-Moves input (filter (shares_identifier input) s.rights) s s' right one)
          (import_all-Moves inputs s' s'' rights more))

  register_with-Moves :
      (right_id claim_id : Text) (input : RegisterRightInput) (existing : Option RightRow)
      → ActionMoves (register_with viem right_id claim_id input existing)
  unfolding register_with
  register_with-Moves right_id claim_id input (some row) s t a h =
      let same : s ≡ t = ground arith in rw (← same) Moves.here
  register_with-Moves right_id claim_id input none s t a h =
      let (usage, _, stored) =
        >>=-eq-ok
          (rethrow (get_claim_usage_id viem (claim_identity input.source_id claim_id))
            storage_unavailable)
          _ h in
      let row = registered_row right_id claim_id usage input in
      let (s', put, rest) = >>=-eq-ok (insert_right row s) _ stored in
      let (row', found, rest') = >>=-eq-ok (right_row right_id s') _ rest in
      let (right, snap, done) = >>=-eq-ok (right_snapshot viem row' s') _ rest' in
      let same : s' ≡ t = ground arith in rw (← same) (Moves-one (insert_right-Move row s s' put))

  pub register_action-Moves :
      (right_id claim_id : Text) (input : RegisterRightInput)
      → ActionMoves (register_action viem right_id claim_id input)
  unfolding register_action
  register_action-Moves right_id claim_id input s t a h =
      register_with-Moves right_id claim_id input _ s t a h

  -- What a reservation that returns has checked, and the row that it has put in.
  reserve_new_checks :
      (input : Reservation) (s t : Store) (a : Allocation)
      → reserve_new viem input s ≡ ok (a, t)
      → let row = new_allocation input.digest input.right_id input.request in
        (any (has_digest input.digest) s.allocations ≡ false)
        × (any (is_live_of_right input.right_id) s.allocations ≡ false)
        × (any (is_in_conflict row) s.allocations ≡ false)
        × ((pool : BackingPool) × (pool_snapshot row.issuer_id row.token s ≡ ok pool)
            × (pool.pending + pool.outstanding + big_int row.milligrams ≤ big_int pool.cap))
        × (t ≡ record s { allocations = row ∷ s.allocations })
  unfolding reserve_new insert_allocation
  reserve_new_checks input s t a h =
      elim (Result-cases (pool_snapshot input.request.issuer_id input.request.token s)) [
        | inl (pool, snap) ↦
            (ground arith, ground arith, ground arith, (pool, snap, ground arith), ground arith)
        | inr (e, bad) ↦ absurd (ground arith)
      ]

  reserve_new-Moves :
      (input : Reservation) (s t : Store) (a : Allocation)
      → any (is_right_of (new_allocation input.digest input.right_id input.request)) s.rights ≡ true
      → reserve_new viem input s ≡ ok (a, t)
      → Moves s t
  reserve_new-Moves input s t a owner h =
      let row = new_allocation input.digest input.right_id input.request in
      let (fresh, free, apart, (pool, snap, room), same) = reserve_new_checks input s t a h in
      let facts = pool_snapshot_sum row.issuer_id row.token s pool snap in
      Moves-one (
        Move.allocate row refl (refl, refl, refl, refl) owner fresh free apart
          (omega (arith, facts)) same)

  reserve_with-Moves :
      (input : Reservation) (existing : Option AllocationRow) (s t : Store) (a : Allocation)
      → any (is_right_of (new_allocation input.digest input.right_id input.request)) s.rights ≡ true
      → reserve_with viem input existing s ≡ ok (a, t)
      → Moves s t
  unfolding reserve_with
  reserve_with-Moves input none s t a owner h = reserve_new-Moves input s t a owner h
  reserve_with-Moves input (some row) s t a owner h =
      let same : s ≡ t = ground arith in rw (← same) Moves.here

  pub reserve_action-Moves : (input : Reservation) → ActionMoves (reserve_action viem input)
  unfolding reserve_action right_row
  reserve_action-Moves input s t a h =
      elim (Option-cases (find (has_right_id input.right_id) s.rights)) [
        | inl missing ↦ absurd (ground arith)
        | inr (right, found) ↦
            let row = new_allocation input.digest input.right_id input.request in
            let named = find-passes (has_right_id input.right_id) s.rights found in
            let fits : is_right_of row right ≡ true = ground arith in
            let owner =
              any_of_find (has_right_id input.right_id) (is_right_of row) s.rights found fits in
            reserve_with-Moves input (find (has_digest input.digest) s.allocations) s t a owner
              (ground arith)
      ]

  settle_pending-Moves :
      (kind : Kind) (outcome : Observation) → ActionMoves (settle_pending viem kind outcome)
  unfolding settle_pending update_allocations
  settle_pending-Moves kind outcome s t a h = Moves-one (
      Move.settle outcome.common.request_digest (target_state kind) outcome (not_pending kind)
        (ground arith))

  pub settle_action-Moves :
      (kind : Kind) (outcome : Observation) → ActionMoves (settle_action viem kind outcome)
  unfolding settle_action
  settle_action-Moves kind outcome s t a h =
      elim (Option-cases (find (has_digest outcome.common.request_digest) s.allocations)) [
        | inl missing ↦ absurd (ground arith)
        | inr (row, found) ↦ elim (Result-cases (allocation_snapshot viem row)) [
          | inr (e, bad) ↦ absurd (ground arith)
          | inl (current, read) ↦ elim (Bool-cases (is_pending current.state)) [
            | inl open_yet ↦ settle_pending-Moves kind outcome s t a (ground arith)
            | inr over ↦ let same : s ≡ t = ground arith in rw (← same) Moves.here
          ]
        ]
      ]

-- A method that returns or throws has moved the tables.
abbrev pub MethodMoves : {A : Type 0} → Method A → Type 0
MethodMoves method = (l : Ledger) → Moves l.store (method l).1.store

pub transaction-Moves :
    {A : Type 0} (action : Action A) → ActionMoves action → MethodMoves (transaction action)
unfolding transaction
transaction-Moves action moves l = elim (Bool-cases l.is_closed) [
  | inl shut ↦ rw shut Moves.here
  | inr ready ↦ rw ready (elim (Result-cases (action l.store)) [
    | inl ((a, t), done) ↦ rw done (moves l.store t a done)
    | inr (e, failed) ↦ rw failed Moves.here
  ])
]

pub with_input-Moves :
    {A B : Type 0} (input : LedgerResult A) (method : A → Method B)
    → ((a : A) → MethodMoves (method a))
    → MethodMoves (with_input input method)
with_input-Moves (ok a) method moves l = moves a l
with_input-Moves (err e) method moves l = Moves.here
