-- ===== src/Institution/Safety.antt =====
-- The invariant of the three tables under every move of the specification.
pub mod Preserved
pub mod Claims
pub mod Terminal
use ultratokenizer.Base.{
  ℕ, ◌+◌, ◌≤◌, Text, big_int, text_eq, text_eq_iff, Bool, true, false, ◌&&◌, ◌≡◌, refl, List, [],
  ◌∷◌, map, arith, any, count, All, All-map_imp, any_mono, any-map-false, count_of_any, some,
  Bool-cases, inl, inr, find, if◌then◌else◌,
}
use ultratokenizer.Domain.Viem.{Viem}
use ultratokenizer.Institution.Types.{
  RightRow, PoolRow, AllocationRow, AllocationState, Observation, Store, is_live, is_pending,
}
use ultratokenizer.Institution.Store.{
  shares_identifier, has_digest, is_live_of_right, is_in_conflict, settle_row, upsert_rows, is_pool,
}
use ultratokenizer.Institution.Backing.{live_sum, pool_cap, IsBacked, find-upsert, live_sum-settle}
use ultratokenizer.Institution.Calls.{Call, run, empty_store}
use ultratokenizer.Institution.Transaction.{Ledger}
use ultratokenizer.Institution.Spec.{Move, Moves, is_right_of, IsOfRequest}
use ultratokenizer.Institution.Refinement.Methods.{run-Moves}

-- No right shares an identifier with an older one.
abbrev pub RightsApart : List RightRow → Type 0
RightsApart [] = Unit
RightsApart (row ∷ rows) = (any (shares_identifier row) rows ≡ false) × RightsApart rows

-- No allocation shares its reservation with an older one, nor its request id or its holder nonce
-- with an older one that is live.
abbrev pub AllocationsApart : List AllocationRow → Type 0
AllocationsApart [] = Unit
AllocationsApart (row ∷ rows) = (any (is_in_conflict row) rows ≡ false) × AllocationsApart rows

abbrev pub IsOwned : List RightRow → AllocationRow → Type 0
IsOwned rights row = any (is_right_of row) rights ≡ true

pub record IsSafe (s : Store) : Type 0 where
  -- The live allocations of each pool are within its cap.
  pub backed : IsBacked s
  -- A right has at most one live allocation.
  pub one_live : (id : Text) → count (is_live_of_right id) s.allocations ≤ 1
  -- A request is allocated once.
  pub one_digest : (d : Text) → count (has_digest d) s.allocations ≤ 1
  pub rights_apart : RightsApart s.rights
  pub apart : AllocationsApart s.allocations
  -- An allocation is of a registered right, as a whole and to its holder.
  pub owned : All (IsOwned s.rights) s.allocations
  pub of_request : All IsOfRequest s.allocations

module _ (digest : Text) (target : AllocationState) (outcome : Observation) where
  count_live-settle :
      (id : Text) (rows : List AllocationRow)
      → count (is_live_of_right id) (map (settle_row digest target outcome) rows)
        ≤ count (is_live_of_right id) rows
  count_live-settle id [] = omega arith
  count_live-settle id (row ∷ rows) = ground (arith, count_live-settle id rows)

  count_digest-settle :
      (d : Text) (rows : List AllocationRow)
      → count (has_digest d) (map (settle_row digest target outcome) rows)
        ≡ count (has_digest d) rows
  count_digest-settle d [] = refl
  count_digest-settle d (row ∷ rows) = ground (arith, count_digest-settle d rows)

  is_live-settle :
      (row : AllocationRow)
      → is_live (settle_row digest target outcome row).state ≡ true
      → is_live row.state ≡ true
  is_live-settle row h = ground arith

  -- Settling the newer row changes nothing, and settling the older one ends conflicts only.
  conflict-settle_self :
      (row other : AllocationRow)
      → is_in_conflict (settle_row digest target outcome row) other ≡ is_in_conflict row other
  conflict-settle_self row other =
      elim (Bool-cases (has_digest digest row && is_pending row.state)) [
        | inl hit ↦ rw hit
        | inr miss ↦ rw miss
      ]

  conflict-settle_other :
      (row other : AllocationRow)
      → is_in_conflict row (settle_row digest target outcome other) ≡ true
      → is_in_conflict row other ≡ true
  conflict-settle_other row other h =
      elim (Bool-cases (has_digest digest other && is_pending other.state)) [
        | inr miss ↦ rw miss at h
        | inl hit ↦
            let was : is_live other.state ≡ true = ground arith in
            let after : is_in_conflict row
                  (record other { state = target; observation = some outcome })
                ≡ true =
              rw hit at h in
            ground arith
      ]

  conflict-settle :
      (row : AllocationRow) (rows : List AllocationRow)
      → any (is_in_conflict row) rows ≡ false
      → any
          (is_in_conflict (settle_row digest target outcome row))
          (map (settle_row digest target outcome) rows)
        ≡ false
  conflict-settle row rows h =
      any-map-false (is_in_conflict row) (is_in_conflict (settle_row digest target outcome row))
        (settle_row digest target outcome) rows
        (λ other c.
          conflict-settle_other row other
            (rw (conflict-settle_self row (settle_row digest target outcome other)) at c))
        h

  apart-settle :
      (rows : List AllocationRow)
      → AllocationsApart rows
      → AllocationsApart (map (settle_row digest target outcome) rows)
  apart-settle [] h = tt
  apart-settle (row ∷ rows) (h, hs) = (conflict-settle row rows h, apart-settle rows hs)

  owned-settle :
      (rights : List RightRow) (rows : List AllocationRow)
      → All (IsOwned rights) rows
      → All (IsOwned rights) (map (settle_row digest target outcome) rows)
  owned-settle rights [] h = tt
  owned-settle rights (row ∷ rows) (h, hs) = (
    elim (Bool-cases (has_digest digest row && is_pending row.state)) [
      | inl hit ↦ rw hit h
      | inr miss ↦ rw miss h
    ],
    owned-settle rights rows hs,
  )

  IsOfRequest-settle :
      (rows : List AllocationRow)
      → All IsOfRequest rows
      → All IsOfRequest (map (settle_row digest target outcome) rows)
  IsOfRequest-settle [] h = tt
  IsOfRequest-settle (row ∷ rows) (h, hs) = (
    elim (Bool-cases (has_digest digest row && is_pending row.state)) [
      | inl hit ↦ rw hit h
      | inr miss ↦ rw miss h
    ],
    IsOfRequest-settle rows hs,
  )
