-- ===== src/Institution/Retry/Settle.antt =====
-- Retries of `markIssued`, `releaseUnused` and `releaseExpiredUnopened`.
use ultratokenizer.Base.{
  Text, text_eq, Bool, true, false, not, ◌||◌, ◌≡◌, ◌>>◌, refl, ap, sym, ◌∙◌, List, [], ◌∷◌, Option,
  some, ok, err, arith, find, find-passes, map, Bool-cases, subst, inl, inr, >>=-eq-ok, throw_if,
  or_throw,
}
use ultratokenizer.Domain.Viem.{Viem}
use ultratokenizer.Institution.Errors.{invalid_outcome, allocation_not_found}
use ultratokenizer.Institution.Types.{
  Allocation, AllocationRow, AllocationState, Observation, Store, is_pending,
}
use ultratokenizer.Institution.Store.{has_digest, settle_row, update_allocations}
use ultratokenizer.Institution.Snapshots.{allocation_snapshot}
use ultratokenizer.Institution.Outcomes.{Kind, target_state}
use ultratokenizer.Institution.Transaction.{reads}
use ultratokenizer.Institution.Allocations.{
  settle_action, settle_pending, settle_terminal, is_early,
}
use ultratokenizer.Institution.Retry.Equal.{
  or_throw-ok, accepted, ok_injective, err_not_ok, unchanged_store, observation_eq_refl,
  state_eq_refl, not_pending,
}

module _ (digest : Text) (target : AllocationState) (outcome : Observation) where
  settle_row-digest :
      (row : AllocationRow)
      → has_digest digest (settle_row digest target outcome row) ≡ has_digest digest row
  settle_row-digest row = ground arith

  find-settle :
      (rows : List AllocationRow) {row : AllocationRow}
      → find (has_digest digest) rows ≡ some row
      → find (has_digest digest) (map (settle_row digest target outcome) rows)
        ≡ some (settle_row digest target outcome row)
  find-settle [] e = cc
  find-settle (r ∷ rows) {row} e = elim (Bool-cases (has_digest digest r)) [
    | inl hit ↦ let same : r ≡ row = ground arith in rw (← same, settle_row-digest r, hit) refl
    | inr miss ↦ rw (settle_row-digest r, miss) (find-settle rows (ground arith))
  ]

  settle_row-pending :
      (row : AllocationRow)
      → has_digest digest row ≡ true
      → is_pending row.state ≡ true
      → settle_row digest target outcome row
        ≡ record row { state = target; observation = some outcome }
  settle_row-pending row hit p = rw (hit, p) refl

module _ (viem : Viem) where
  snapshot_settled :
      (row : AllocationRow) (c : Allocation) (x : AllocationState) (y : Option Observation)
      → allocation_snapshot viem row ≡ ok c
      → (c.state ≡ row.state)
        × (allocation_snapshot viem (record row { state = x; observation = y })
            ≡ ok (record c { state = x; observation = y }))
  unfolding allocation_snapshot
  snapshot_settled row c x y h = ground arith

  settle_reads :
      (kind : Kind) (outcome : Observation) (s t : Store) (a : Allocation)
      → settle_action viem kind outcome s ≡ ok (a, t)
      → (row : AllocationRow) × (find (has_digest outcome.common.request_digest) s.allocations
          ≡ some row)
        × (c : Allocation) × (allocation_snapshot viem row ≡ ok c)
  unfolding settle_action
  settle_reads kind outcome s t a h =
      let (row, found, rest) =
        >>=-eq-ok
          (or_throw (find (has_digest outcome.common.request_digest) s.allocations)
            allocation_not_found)
          _ h in
      let (c, read, _) = >>=-eq-ok (allocation_snapshot viem row) _ rest in
      (row, or_throw-ok _ _ found, c, read)

  module _ (kind : Kind) (outcome : Observation) (s : Store) (row : AllocationRow)
      (c : Allocation) where
    abbrev is_mismatch : Bool
    is_mismatch =
        not (text_eq c.request.chain_id outcome.common.chain_id)
        || not (text_eq c.request.gate outcome.common.gate)
        || not (text_eq c.request.reservation_id outcome.common.reservation_id)
        || not (text_eq c.request.claim_usage_id outcome.common.claim_usage_id)
        || is_early c.request outcome.outcome

    abbrev settled_store : Store
    settled_store = update_allocations outcome.common.request_digest (target_state kind) outcome s

    abbrev settled : Allocation
    settled = record c { state = target_state kind; observation = some outcome }

    module _ (found : find (has_digest outcome.common.request_digest) s.allocations ≡ some row)
        (read : allocation_snapshot viem row ≡ ok c) (p : is_pending c.state ≡ true) where
      found_settled :
          find (has_digest outcome.common.request_digest) settled_store.allocations
          ≡ some (record row { state = target_state kind; observation = some outcome })
      unfolding update_allocations
      found_settled =
          let digest = outcome.common.request_digest in
          let same = (snapshot_settled row c (target_state kind) (some outcome) read).0 in
          let hit = find-passes (has_digest digest) s.allocations found in
          find-settle digest (target_state kind) outcome s.allocations found
          ∙ ap some (settle_row-pending digest (target_state kind) outcome row hit (rw (← same) p))

      settle_first :
          is_mismatch ≡ false → settle_action viem kind outcome s ≡ ok (settled, settled_store)
      unfolding settle_action settle_pending
      settle_first m =
          rw
            (
              found,
              read,
              m,
              p,
              found_settled,
              (snapshot_settled row c (target_state kind) (some outcome) read).1,
            )
            refl

      settle_second :
          is_mismatch ≡ false
          → settle_action viem kind outcome settled_store ≡ ok (settled, settled_store)
      unfolding settle_action settle_terminal
      settle_second m =
          rw
            (
              found_settled,
              (snapshot_settled row c (target_state kind) (some outcome) read).1,
              m,
              not_pending kind,
              state_eq_refl (target_state kind),
              observation_eq_refl outcome,
            )
            refl

      settle_refused : is_mismatch ≡ true → settle_action viem kind outcome s ≡ err invalid_outcome
      unfolding settle_action
      settle_refused m = rw (found, read, m) refl

    settle_open :
        (t : Store) (a : Allocation)
        → find (has_digest outcome.common.request_digest) s.allocations ≡ some row
        → allocation_snapshot viem row ≡ ok c
        → is_pending c.state ≡ true
        → settle_action viem kind outcome s ≡ ok (a, t)
        → settle_action viem kind outcome t ≡ ok (a, t)
    settle_open t a found read p h = elim (Bool-cases is_mismatch) [
      | inl m ↦ absurd (err_not_ok (settle_refused found read p m) h)
      | inr m ↦
          let e : accepted (settled, settled_store) ≡ accepted (a, t) =
            sym (settle_first found read p m) ∙ h in
          let (x, y) : (settled ≡ a) × (settled_store ≡ t) = ok_injective e in
          rw (← x, ← y) (settle_second found read p m)
    ]

    closed_value :
        find (has_digest outcome.common.request_digest) s.allocations ≡ some row
        → allocation_snapshot viem row ≡ ok c
        → is_pending c.state ≡ false
        → settle_action viem kind outcome s ≡ (
            throw_if is_mismatch invalid_outcome
            >> reads (λ _. settle_terminal viem kind outcome c) s)
    unfolding settle_action
    closed_value found read p = rw (found, read, p) refl

    settle_closed :
        (t : Store) (a : Allocation)
        → find (has_digest outcome.common.request_digest) s.allocations ≡ some row
        → allocation_snapshot viem row ≡ ok c
        → is_pending c.state ≡ false
        → settle_action viem kind outcome s ≡ ok (a, t)
        → s ≡ t
    settle_closed t a found read p h =
        let (u, _, rest) =
          >>=-eq-ok (throw_if is_mismatch invalid_outcome) _
            (sym (closed_value found read p) ∙ h) in
        unchanged_store (settle_terminal viem kind outcome c) s t a rest

  -- A settlement that succeeded, repeated, returns the same allocation and changes nothing.
  pub settle_again :
      (kind : Kind) (outcome : Observation) (s t : Store) (a : Allocation)
      → settle_action viem kind outcome s ≡ ok (a, t)
      → settle_action viem kind outcome t ≡ ok (a, t)
  settle_again kind outcome s t a h =
      let (row, found, c, read) = settle_reads kind outcome s t a h in
      elim (Bool-cases (is_pending c.state)) [
        | inl p ↦ settle_open kind outcome s row c t a found read p h
        | inr p ↦
            let same = settle_closed kind outcome s row c t a found read p h in
            subst (λ x. settle_action viem kind outcome x ≡ ok (a, t)) same h
      ]
