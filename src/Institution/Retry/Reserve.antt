-- ===== src/Institution/Retry/Reserve.antt =====
-- Retries of `reserve`.
use ultratokenizer.Base.{
  text_eq, text_eq_refl, Bool, true, false, not, ◌||◌, ◌≡◌, refl, ◌∷◌, Option, none, some, ok,
  arith, find, >>=-eq-ok, throw_if-eq-ok, throw_if,
}
use ultratokenizer.Domain.Viem.{Viem}
use ultratokenizer.Institution.Errors.{right_conflict}
use ultratokenizer.Institution.Types.{Allocation, AllocationRow, RightRow, Store}
use ultratokenizer.Institution.Store.{has_digest, insert_allocation}
use ultratokenizer.Institution.Snapshots.{right_row, allocation_snapshot}
use ultratokenizer.Institution.Outcomes.{request_eq}
use ultratokenizer.Institution.Allocations.{
  Reservation, new_allocation, reserve_new, reserve_with, reserve_action,
}
use ultratokenizer.Institution.Retry.Equal.{request_eq_refl}

abbrev is_wrong_right : Reservation → RightRow → Bool
is_wrong_right input right =
    not (text_eq right.holder input.request.recipient)
    || not (text_eq right.milligrams input.request.amount)
    || not (text_eq right.claim_usage_id input.request.claim_usage_id)

module _ (viem : Viem) where
  reserve_found :
      (input : Reservation) (s : Store) (right : RightRow) (row : AllocationRow) (a : Allocation)
      → right_row input.right_id s ≡ ok right
      → is_wrong_right input right ≡ false
      → find (has_digest input.digest) s.allocations ≡ some row
      → text_eq row.right_id input.right_id ≡ true
      → request_eq row.request input.request ≡ true
      → allocation_snapshot viem row ≡ ok a
      → reserve_action viem input s ≡ ok (a, s)
  unfolding reserve_action reserve_with
  reserve_found input s right row a r w found i q read = rw (r, w, found, i, q, read) refl

  -- What a new reservation leaves: the row it inserted, first, beside the same rights.
  reserve_new-inserted :
      (input : Reservation) (s t : Store) (a : Allocation)
      → reserve_new viem input s ≡ ok (a, t)
      → (t ≡ record s {
        allocations = new_allocation input.digest input.right_id input.request ∷ s.allocations;
      })
        × (allocation_snapshot viem (new_allocation input.digest input.right_id input.request)
            ≡ ok a)
  unfolding reserve_new insert_allocation
  reserve_new-inserted input s t a h = ground (arith, text_eq_refl input.digest)

  reserve_kept :
      (input : Reservation) (s t : Store) (a : Allocation) (row : AllocationRow)
      → reserve_with viem input (some row) s ≡ ok (a, t)
      → (text_eq row.right_id input.right_id ≡ true)
        × (request_eq row.request input.request ≡ true)
        × (allocation_snapshot viem row ≡ ok a)
        × (s ≡ t)
  unfolding reserve_with
  reserve_kept input s t a row h = ground (arith, h)

  reserve_known :
      (input : Reservation) (s t : Store) (a : Allocation) (right : RightRow)
      → right_row input.right_id s ≡ ok right
      → is_wrong_right input right ≡ false
      → (existing : Option AllocationRow) → find (has_digest input.digest) s.allocations ≡ existing
      → reserve_with viem input existing s ≡ ok (a, t)
      → reserve_action viem input t ≡ ok (a, t)
  unfolding reserve_with right_row
  reserve_known input s t a right r w (some row) e h =
      let (i, q, read, same) = reserve_kept input s t a row h in
      rw (← same) (reserve_found input s right row a r w e i q read)
  reserve_known input s t a right r w none e h =
      let row = new_allocation input.digest input.right_id input.request in
      let (same, read) = reserve_new-inserted input s t a h in
      rw same (
        reserve_found input (record s { allocations = row ∷ s.allocations }) right row a r w
          (rw (text_eq_refl input.digest) refl) (text_eq_refl input.right_id)
          (request_eq_refl input.request) read)

  -- A reservation that succeeded, repeated, returns the same allocation and changes nothing.
  pub reserve_again :
      (input : Reservation) (s t : Store) (a : Allocation)
      → reserve_action viem input s ≡ ok (a, t)
      → reserve_action viem input t ≡ ok (a, t)
  unfolding reserve_action
  reserve_again input s t a h =
      let (right, r, h1) = >>=-eq-ok (right_row input.right_id s) _ h in
      let (u, w, h2) = >>=-eq-ok (throw_if (is_wrong_right input right) right_conflict) _ h1 in
      reserve_known input s t a right r
        (throw_if-eq-ok (is_wrong_right input right) right_conflict w)
        (find (has_digest input.digest) s.allocations) refl h2
