-- ===== src/Institution/Safety/Preserved.antt =====
-- Every move keeps the invariant, so every sequence of calls on a new ledger does.
use ultratokenizer.Base.{
  ℕ, ◌+◌, ◌≤◌, Text, big_int, text_eq_iff, false, ◌≡◌, subst, List, ◌∷◌, arith, any, count,
  All-map_imp, count_of_any, Bool-cases, inl, inr,
}
use mathlib.Core.Path.{ap₂}
use ultratokenizer.Domain.Viem.{Viem}
use ultratokenizer.Institution.Types.{PoolRow, AllocationRow, Store}
use ultratokenizer.Institution.Store.{
  has_digest, is_live_of_right, is_live_of_pool, upsert_rows, is_pool,
}
use ultratokenizer.Institution.Backing.{live_sum, pool_cap, IsBacked, find-upsert, live_sum-settle}
use ultratokenizer.Institution.Calls.{Call, run, empty_store, new_connections}
use ultratokenizer.Institution.Spec.{Move, Moves}
use ultratokenizer.Institution.Refinement.Methods.{run-Moves}
use ultratokenizer.Institution.Safety.{
  IsSafe, IsOwned, count_live-settle, count_digest-settle, apart-settle, owned-settle,
  IsOfRequest-settle,
}

set_cap-IsBacked :
    (s : Store) (row : PoolRow)
    → live_sum row.issuer_id row.token s.allocations ≤ big_int row.cap
    → IsBacked s
    → IsBacked (record s { pools = upsert_rows row s.pools })
set_cap-IsBacked s row covers h i t = elim (Bool-cases (is_pool i t row)) [
  | inl hit ↦
      let issuer : row.issuer_id ≡ i = ground (arith, text_eq_iff row.issuer_id i) in
      let token : row.token ≡ t = ground (arith, text_eq_iff row.token t) in
      rw (find-upsert i t row s.pools, hit, ← issuer, ← token) covers
  | inr miss ↦ rw (find-upsert i t row s.pools, miss) (h i t)
]

allocate-IsBacked :
    (s : Store) (row : AllocationRow)
    → live_sum row.issuer_id row.token s.allocations + big_int row.milligrams
      ≤ pool_cap row.issuer_id row.token s.pools
    → IsBacked s
    → IsBacked (record s { allocations = row ∷ s.allocations })
allocate-IsBacked s row room h i t = elim (Bool-cases (is_live_of_pool i t row)) [
  | inl hit ↦
      let issuer : row.issuer_id ≡ i = ground (arith, text_eq_iff row.issuer_id i) in
      let token : row.token ≡ t = ground (arith, text_eq_iff row.token t) in
      let sums : live_sum row.issuer_id row.token s.allocations ≡ live_sum i t s.allocations =
        ap₂ (λ a b. live_sum a b s.allocations) issuer token in
      let caps : pool_cap row.issuer_id row.token s.pools ≡ pool_cap i t s.pools =
        ap₂ (λ a b. pool_cap a b s.pools) issuer token in
      rw hit (omega (arith, sums, caps))
  | inr miss ↦ rw miss (h i t)
]

count_live-allocate :
    (row : AllocationRow) (rows : List AllocationRow) (id : Text)
    → any (is_live_of_right row.right_id) rows ≡ false
    → count (is_live_of_right id) rows ≤ 1
    → count (is_live_of_right id) (row ∷ rows) ≤ 1
count_live-allocate row rows id free h = elim (Bool-cases (is_live_of_right id row)) [
  | inl hit ↦
      let same : row.right_id ≡ id = ground (arith, text_eq_iff row.right_id id) in
      let others : count (is_live_of_right id) rows ≡ 0 =
        subst (λ x. count (is_live_of_right x) rows ≡ 0) same (count_of_any _ rows free) in
      rw hit (omega arith)
  | inr miss ↦ rw miss h
]

count_digest-allocate :
    (row : AllocationRow) (rows : List AllocationRow) (d : Text)
    → any (has_digest row.request_digest) rows ≡ false
    → count (has_digest d) rows ≤ 1
    → count (has_digest d) (row ∷ rows) ≤ 1
count_digest-allocate row rows d fresh h = elim (Bool-cases (has_digest d row)) [
  | inl hit ↦
      let same : row.request_digest ≡ d = (text_eq_iff row.request_digest d).0 hit in
      let others : count (has_digest d) rows ≡ 0 =
        subst (λ x. count (has_digest x) rows ≡ 0) same (count_of_any _ rows fresh) in
      rw hit (omega arith)
  | inr miss ↦ rw miss h
]

pub Move-IsSafe : {s t : Store} → Move s t → IsSafe s → IsSafe t
Move-IsSafe {s} (Move.add_right row fresh e) h = rw e (record {
  backed = h.backed;
  one_live = h.one_live;
  one_digest = h.one_digest;
  rights_apart = (fresh, h.rights_apart);
  apart = h.apart;
  owned =
      All-map_imp (IsOwned s.rights) (IsOwned (row ∷ s.rights)) s.allocations (λ a o. ground arith)
        h.owned;
  of_request = h.of_request;
})
Move-IsSafe {s} (Move.set_cap row covers e) h = rw e (record {
  backed = set_cap-IsBacked s row covers h.backed;
  one_live = h.one_live;
  one_digest = h.one_digest;
  rights_apart = h.rights_apart;
  apart = h.apart;
  owned = h.owned;
  of_request = h.of_request;
})
Move-IsSafe {s} (Move.allocate row pend cols owner fresh free apart room e) h = rw e (record {
  backed = allocate-IsBacked s row room h.backed;
  one_live = λ id. count_live-allocate row s.allocations id free (h.one_live id);
  one_digest = λ d. count_digest-allocate row s.allocations d fresh (h.one_digest d);
  rights_apart = h.rights_apart;
  apart = (apart, h.apart);
  owned = (owner, h.owned);
  of_request = (cols, h.of_request);
})
Move-IsSafe {s} (Move.settle digest target outcome over e) h = rw e (record {
  backed =
      λ i t. omega (arith, live_sum-settle i t digest target outcome s.allocations, h.backed i t);
  one_live =
      λ id. omega (arith, count_live-settle digest target outcome id s.allocations, h.one_live id);
  one_digest =
      λ d. omega (arith, count_digest-settle digest target outcome d s.allocations, h.one_digest d);
  rights_apart = h.rights_apart;
  apart = apart-settle digest target outcome s.allocations h.apart;
  owned = owned-settle digest target outcome s.rights s.allocations h.owned;
  of_request = IsOfRequest-settle digest target outcome s.allocations h.of_request;
})

pub Moves-IsSafe : {s t : Store} → Moves s t → IsSafe s → IsSafe t
Moves-IsSafe Moves.here h = h
Moves-IsSafe (Moves.next m step) h = Move-IsSafe step (Moves-IsSafe m h)

pub empty-IsSafe : IsSafe empty_store
empty-IsSafe = record {
  backed = λ i t. omega arith;
  one_live = λ id. omega arith;
  one_digest = λ d. omega arith;
  rights_apart = tt;
  apart = tt;
  owned = tt;
  of_request = tt;
}

-- After any calls of any handles on a new ledger, whatever their input: the live allocations of each pool are
-- within its cap, a right has at most one live allocation, a request digest stands in one
-- allocation, no two rights share an identifier, no two allocations a reservation (nor a request
-- id or holder nonce of the older one while that is live), and every allocation is of the whole of
-- a registered right and to its holder.
pub run-IsSafe : (viem : Viem) (cs : List (ℕ × Call)) → IsSafe (run viem cs new_connections).store
run-IsSafe viem cs = Moves-IsSafe (run-Moves viem cs new_connections) empty-IsSafe
