-- ===== src/Institution/Backing.antt =====
-- The exposure of a backing pool against its cap: what `poolSnapshot` computes, and how each
-- statement on the tables changes it.
use ultratokenizer.Base.{
  ℕ, ◌+◌, ◌≤◌, Text, big_int, text_eq_iff, Bool, true, false, ◌≡◌, refl, List, [], ◌∷◌, Option,
  none, some, map, ok, arith, find, filter, if◌then◌else◌, Bool-cases, inl, inr, >>=-eq-ok, codes,
}
use ultratokenizer.Domain.Value.{str}
use ultratokenizer.Institution.Fields.{integer, max_amount, max_uint}
use ultratokenizer.Institution.Types.{
  PoolRow, AllocationRow, AllocationState, Observation, Store, BackingPool,
}
use ultratokenizer.Institution.Store.{is_pool, is_live_of_pool, upsert_rows, settle_row}
use ultratokenizer.Institution.Snapshots.{exposure, cap_of, pool_snapshot}

-- The sum of the live allocations of a pool, pending and issued.
abbrev pub live_sum : Text → Text → List AllocationRow → ℕ
live_sum i t [] = 0
live_sum i t (row ∷ rows) =
    if is_live_of_pool i t row
    then big_int row.milligrams + live_sum i t rows
    else live_sum i t rows

abbrev pub cap_value : Option PoolRow → ℕ
cap_value none = 0
cap_value (some row) = big_int row.cap

-- The cap of a pool, 0 if it has none.
abbrev pub pool_cap : Text → Text → List PoolRow → ℕ
pool_cap i t pools = cap_value (find (is_pool i t) pools)

-- The live allocations of every pool are within its cap.
abbrev pub IsBacked : Store → Type 0
IsBacked s = (i t : Text) → live_sum i t s.allocations ≤ pool_cap i t s.pools

pub integer-eq :
    (t : Text) (maximum : ℕ) (zero : Bool) {u : Text} → integer (str t) maximum zero ≡ ok u → u ≡ t
unfolding integer
integer-eq t maximum zero h = ground arith

-- The loop adds the amounts of the rows to its two counters.
exposure_sum :
    (i t : Text) (rows : List AllocationRow) (p o : ℕ) {p' o' : ℕ}
    → exposure (filter (is_live_of_pool i t) rows) p o ≡ ok (p', o')
    → p' + o' ≡ p + o + live_sum i t rows
unfolding exposure
exposure_sum i t [] p o h = ground arith
exposure_sum i t (row ∷ rows) p o {p'} {o'} h = elim (Bool-cases (is_live_of_pool i t row)) [
  | inr off ↦ rw off (exposure_sum i t rows p o (rw off at h))
  | inl on ↦
      let live : exposure (row ∷ filter (is_live_of_pool i t) rows) p o ≡ ok (p', o') =
        rw on at h in
      let (m, read, rest) = >>=-eq-ok (integer (str row.milligrams) max_amount false) _ live in
      let same : m ≡ row.milligrams = integer-eq row.milligrams max_amount false read in
      ground (arith, exposure_sum i t rows _ _ rest)
]

cap_of-value :
    (row : Option PoolRow) {cap : Text} → cap_of row ≡ ok cap → big_int cap ≡ cap_value row
unfolding big_int
cap_of-value none {cap} h = let same : cap ≡ codes "0" = ground arith in rw same (cap_zero)
  where
    cap_zero : big_int (codes "0") ≡ 0
    cap_zero = refl
cap_of-value (some row) h = rw (integer-eq row.cap max_uint true h)

pub pool_snapshot_sum :
    (i t : Text) (s : Store) (pool : BackingPool)
    → pool_snapshot i t s ≡ ok pool
    → (pool.pending + pool.outstanding ≡ live_sum i t s.allocations)
      × (big_int pool.cap ≡ pool_cap i t s.pools)
      × (live_sum i t s.allocations ≤ pool_cap i t s.pools)
unfolding pool_snapshot
pool_snapshot_sum i t s pool h =
    let (cap, read_cap, rest) = >>=-eq-ok (cap_of (find (is_pool i t) s.pools)) _ h in
    let ((p, o), summed, done) =
      >>=-eq-ok (exposure (filter (is_live_of_pool i t) s.allocations) 0 0) _ rest in
    let total = exposure_sum i t s.allocations 0 0 summed in
    let caps = cap_of-value (find (is_pool i t) s.pools) read_cap in ground (arith, total, caps)

pub find-upsert :
    (i t : Text) (new : PoolRow) (rows : List PoolRow)
    → find (is_pool i t) (upsert_rows new rows)
      ≡ (if is_pool i t new then some new else find (is_pool i t) rows)
unfolding upsert_rows
find-upsert i t new [] = refl
find-upsert i t new (row ∷ rows) = ground (
  arith,
  find-upsert i t new rows,
  text_eq_iff row.issuer_id new.issuer_id,
  text_eq_iff row.token new.token,
  text_eq_iff row.issuer_id i,
  text_eq_iff row.token t,
  text_eq_iff new.issuer_id i,
  text_eq_iff new.token t,
)

-- Settling an allocation makes no row live.
pub live_sum-settle :
    (i t digest : Text) (target : AllocationState) (outcome : Observation)
    (rows : List AllocationRow)
    → live_sum i t (map (settle_row digest target outcome) rows) ≤ live_sum i t rows
live_sum-settle i t digest target outcome [] = omega arith
live_sum-settle i t digest target outcome (row ∷ rows) =
    ground (arith, live_sum-settle i t digest target outcome rows)
