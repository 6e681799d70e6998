-- ===== src/Institution/Spec.antt =====
-- What the ledger promises, apart from how its methods read and check their input: the moves by
-- which the three tables may change, each with the conditions under which it is allowed.
use ultratokenizer.Base.{
  ◌+◌, ◌≤◌, Text, big_int, text_eq, Bool, true, false, ◌≡◌, ◌&&◌, ◌∷◌, map, any,
}
use ultratokenizer.Institution.Types.{
  RightRow, PoolRow, AllocationRow, AllocationState, Observation, Store, is_pending,
}
use ultratokenizer.Institution.Store.{
  shares_identifier, has_digest, is_live_of_right, is_in_conflict, upsert_rows, settle_row,
}
use ultratokenizer.Institution.Backing.{live_sum, pool_cap}

-- The right that an allocation is for: its holder, whole amount and claim.
abbrev pub is_right_of : AllocationRow → RightRow → Bool
is_right_of row right =
    text_eq right.right_id row.right_id
    && text_eq right.holder row.request.recipient
    && text_eq right.milligrams row.request.amount
    && text_eq right.claim_usage_id row.request.claim_usage_id

-- The columns of a row are those of its request.
abbrev pub IsOfRequest : AllocationRow → Type 0
IsOfRequest row =
    (row.issuer_id ≡ row.request.issuer_id)
    × (row.token ≡ row.request.token)
    × (row.recipient ≡ row.request.recipient)
    × (row.milligrams ≡ row.request.amount)

pub data Move (s t : Store) : Type 0 where
  -- A right is registered under identifiers that no other has.
  add_right :
      (row : RightRow)
      → any (shares_identifier row) s.rights ≡ false
      → t ≡ record s { rights = row ∷ s.rights }
      → Move s t
  -- A cap is set that covers what is live.
  set_cap :
      (row : PoolRow)
      → live_sum row.issuer_id row.token s.allocations ≤ big_int row.cap
      → t ≡ record s { pools = upsert_rows row s.pools }
      → Move s t
  -- A right with no live allocation is reserved as a whole, within the cap of its pool.
  allocate :
      (row : AllocationRow)
      → row.state ≡ AllocationState.pending
      → IsOfRequest row
      → any (is_right_of row) s.rights ≡ true
      → any (has_digest row.request_digest) s.allocations ≡ false
      → any (is_live_of_right row.right_id) s.allocations ≡ false
      → any (is_in_conflict row) s.allocations ≡ false
      → live_sum row.issuer_id row.token s.allocations + big_int row.milligrams
        ≤ pool_cap row.issuer_id row.token s.pools
      → t ≡ record s { allocations = row ∷ s.allocations }
      → Move s t
  -- A pending allocation is issued or released, with an observation.
  settle :
      (digest : Text) (target : AllocationState) (outcome : Observation)
      → is_pending target ≡ false
      → t ≡ record s { allocations = map (settle_row digest target outcome) s.allocations }
      → Move s t

-- Any number of moves, the last first.
pub data Moves (s : Store) : Store → Type 0 where
  here : Moves s s
  next : {t u : Store} → Moves s t → Move t u → Moves s u

pub Moves-trans : {s t u : Store} → Moves s t → Moves t u → Moves s u
Moves-trans m here = m
Moves-trans m (next n step) = next (Moves-trans m n) step

pub Moves-one : {s t : Store} → Move s t → Moves s t
Moves-one step = next here step
