-- ===== src/Institution/Safety/Claims.antt =====
-- One claim has at most one live allocation, so it is issued at most once.
use ultratokenizer.Base.{
  ℕ, ◌≤◌, Text, text_eq, text_eq_iff, Bool, true, ◌&&◌, ◌≡◌, sym, List, [], ◌∷◌, arith, any, count,
  count_mono, count_of_find, find, find-All, All-map_imp, any_mono, Bool-cases, Option-cases, inl,
  inr,
}
use ultratokenizer.Domain.Viem.{Viem}
use ultratokenizer.Institution.Types.{RightRow, AllocationRow, Store, is_live}
use ultratokenizer.Institution.Store.{shares_identifier, is_live_of_right}
use ultratokenizer.Institution.Calls.{Call, run, new_connections}
use ultratokenizer.Institution.Spec.{is_right_of}
use ultratokenizer.Institution.Safety.{IsSafe, IsOwned, RightsApart}
use ultratokenizer.Institution.Safety.Preserved.{run-IsSafe}

-- The allocation is live and for the claim.
abbrev pub is_live_of_claim : Text → AllocationRow → Bool
is_live_of_claim claim row = text_eq row.request.claim_usage_id claim && is_live row.state

-- The right of an allocation for the same claim shares an identifier.
shares_claim :
    (a b : AllocationRow) (r q : RightRow)
    → is_right_of a r ≡ true
    → is_right_of b q ≡ true
    → a.request.claim_usage_id ≡ b.request.claim_usage_id
    → shares_identifier r q ≡ true
shares_claim a b r q h k e = ground (
  arith,
  text_eq_iff r.claim_usage_id a.request.claim_usage_id,
  text_eq_iff q.claim_usage_id b.request.claim_usage_id,
  text_eq_iff q.claim_usage_id r.claim_usage_id,
)

-- Two allocations for one claim are of one right.
same_right :
    (rights : List RightRow) (a b : AllocationRow)
    → RightsApart rights
    → IsOwned rights a
    → IsOwned rights b
    → a.request.claim_usage_id ≡ b.request.claim_usage_id
    → a.right_id ≡ b.right_id
same_right [] a b apart ha hb e = cc
same_right (r ∷ rights) a b (fresh, apart) ha hb e = elim (Bool-cases (is_right_of a r)) [
  | inl here_a ↦ elim (Bool-cases (is_right_of b r)) [
    | inl here_b ↦
        ground (arith, text_eq_iff r.right_id a.right_id, text_eq_iff r.right_id b.right_id)
    | inr later_b ↦
        let clash : any (shares_identifier r) rights ≡ true =
          any_mono (is_right_of b) (shares_identifier r) rights
            (λ q k. shares_claim a b r q here_a k e) (ground arith) in
        ground arith
  ]
  | inr later_a ↦ elim (Bool-cases (is_right_of b r)) [
    | inl here_b ↦
        let clash : any (shares_identifier r) rights ≡ true =
          any_mono (is_right_of a) (shares_identifier r) rights
            (λ q k. shares_claim b a r q here_b k (sym e)) (ground arith) in
        ground arith
    | inr later_b ↦ same_right rights a b apart (ground arith) (ground arith) e
  ]
]

-- In safe tables a claim has at most one live allocation.
pub claim_once :
    (s : Store) → IsSafe s → (claim : Text) → count (is_live_of_claim claim) s.allocations ≤ 1
claim_once s h claim = elim (Option-cases (find (is_live_of_claim claim) s.allocations)) [
  | inl missing ↦ omega (arith, count_of_find (is_live_of_claim claim) s.allocations missing)
  | inr (a, found) ↦
      let (owned, live) =
        find-All (IsOwned s.rights) (is_live_of_claim claim) s.allocations found h.owned in
      let claimed : a.request.claim_usage_id ≡ claim =
        ground (arith, text_eq_iff a.request.claim_usage_id claim) in
      let one : count (is_live_of_claim claim) s.allocations
          ≤ count (is_live_of_right a.right_id) s.allocations =
        count_mono (is_live_of_claim claim) (is_live_of_right a.right_id) s.allocations (
          All-map_imp (IsOwned s.rights) _ s.allocations
            (λ b owned_b live_b.
              let same =
                same_right s.rights b a h.rights_apart owned_b owned
                  (ground (arith, text_eq_iff b.request.claim_usage_id claim)) in
              ground (arith, text_eq_iff b.right_id a.right_id))
            h.owned) in
      omega (arith, one, h.one_live a.right_id)
]

-- After any calls of any handles on a new ledger, a claim has at most one allocation that is pending or issued,
-- under whatever right.
pub run-claim_once :
    (viem : Viem) (cs : List (ℕ × Call)) (claim : Text)
    → count (is_live_of_claim claim) (run viem cs new_connections).store.allocations ≤ 1
run-claim_once viem cs claim = claim_once _ (run-IsSafe viem cs) claim
