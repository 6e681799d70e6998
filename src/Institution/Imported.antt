-- ===== src/Institution/Imported.antt =====
-- What an import of rights that returns has put into the tables, and what it has left there.
use ultratokenizer.Base.{
  Text, text_eq_iff, text_eq_refl, Bool, true, false, ◌&&◌, ◌≡◌, refl, ap, ◌∙◌, subst, List, [],
  ◌∷◌, some, ok, arith, find, any, filter, All, find-passes, any_of_find, >>=-eq-ok, Bool-cases,
  Result-cases, inl, inr,
}
use ultratokenizer.Domain.Value.{Value}
use ultratokenizer.Domain.Viem.{Viem}
use ultratokenizer.Institution.Types.{RightRow, Store, InstitutionRight}
use ultratokenizer.Institution.Store.{has_right_id, shares_identifier, insert_right}
use ultratokenizer.Institution.Snapshots.{right_row, right_snapshot}
use ultratokenizer.Institution.Transaction.{Ledger, transaction}
use ultratokenizer.Institution.Rights.{
  is_exact, import_match, import_one, import_all, import_inputs, import_available_rights,
}

-- The row stands in the table under its identifier.
abbrev pub IsRegistered : List RightRow → RightRow → Type 0
IsRegistered rights row = find (has_right_id row.right_id) rights ≡ some row

-- Rows that are found stay, and the other tables are the same.
pub record IsKept (s t : Store) : Type 0 where
  pub rights_kept :
      (id : Text) (row : RightRow)
      → find (has_right_id id) s.rights ≡ some row
      → find (has_right_id id) t.rights ≡ some row
  pub same_pools : t.pools ≡ s.pools
  pub same_allocations : t.allocations ≡ s.allocations

IsKept-refl : (s : Store) → IsKept s s
IsKept-refl s = record { rights_kept = λ id row h. h; same_pools = refl; same_allocations = refl }

IsKept-trans : (s t u : Store) → IsKept s t → IsKept t u → IsKept s u
IsKept-trans s t u a b = record {
  rights_kept = λ id row h. b.rights_kept id row (a.rights_kept id row h);
  same_pools = b.same_pools ∙ a.same_pools;
  same_allocations = b.same_allocations ∙ a.same_allocations;
}

-- The one row that passes a weaker test is the first that passes.
find_of_filter :
    {A : Type 0} (p q : A → Bool) (xs : List A) (a : A)
    → ((x : A) → p x ≡ true → q x ≡ true)
    → filter q xs ≡ a ∷ []
    → p a ≡ true
    → find p xs ≡ some a
find_of_filter p q [] a weaker h passes = cc
find_of_filter p q (x ∷ xs) a weaker h passes = elim (Bool-cases (p x)) [
  | inl hit ↦
      let chosen : q x ≡ true = weaker x hit in
      let same : x ≡ a = ground (arith, h, chosen) in rw (hit, same) refl
  | inr miss ↦ elim (Bool-cases (q x)) [
    | inl chosen ↦ let same : x ≡ a = ground (arith, h, chosen) in absurd (ground arith)
    | inr skipped ↦ rw miss (find_of_filter p q xs a weaker (ground (arith, h, skipped)) passes)
  ]
]

all_seven :
    (a b c d e f g : Bool)
    → (a && b && c && d && e && f && g) ≡ true
    → (a ≡ true) × (b ≡ true) × (c ≡ true) × (d ≡ true) × (e ≡ true) × (f ≡ true) × (g ≡ true)
all_seven a b c d e f g h = ground (arith, h)

exact_row : (input row : RightRow) → is_exact input row ≡ true → row ≡ input
exact_row input row h =
    let (a, b, c, d, e, f, g) = all_seven _ _ _ _ _ _ _ h in
    λ i. record {
      right_id = (text_eq_iff row.right_id input.right_id).0 a i;
      source_id = (text_eq_iff row.source_id input.source_id).0 b i;
      record_reference = (text_eq_iff row.record_reference input.record_reference).0 c i;
      claim_id = (text_eq_iff row.claim_id input.claim_id).0 d i;
      claim_usage_id = (text_eq_iff row.claim_usage_id input.claim_usage_id).0 e i;
      holder = (text_eq_iff row.holder input.holder).0 f i;
      milligrams = (text_eq_iff row.milligrams input.milligrams).0 g i;
    }

insert_right-IsKept :
    (new : RightRow) (s t : Store)
    → insert_right new s ≡ ok t
    → IsKept s t × IsRegistered t.rights new
unfolding insert_right
insert_right-IsKept new s t h =
    let fresh : any (shares_identifier new) s.rights ≡ false = ground (arith, h) in
    let put : t ≡ record s { rights = new ∷ s.rights } = ground (arith, h) in
    rw put (
      record {
        rights_kept = λ id row found. elim (Bool-cases (has_right_id id new)) [
          | inl hit ↦
              let same : new.right_id ≡ id = (text_eq_iff _ _).0 hit in
              let clash : any (shares_identifier new) s.rights ≡ true =
                any_of_find (has_right_id id) (shares_identifier new) s.rights found
                  (rw same (ground (arith, find-passes (has_right_id id) s.rights found))) in
              absurd (ground (arith, fresh, clash))
          | inr miss ↦ rw miss found
        ];
        same_pools = refl;
        same_allocations = refl;
      },
      rw (text_eq_refl new.right_id) refl,
    )

-- What an action that returns has done with one right.
Registers : RightRow → Store → Store → Type 0
Registers input s t = IsKept s t × IsRegistered t.rights input

module _ (viem : Viem) where
  import_match-Registers :
      (input : RightRow) (matches : List RightRow) (s t : Store) (a : InstitutionRight)
      → filter (shares_identifier input) s.rights ≡ matches
      → import_match viem input matches s ≡ ok (a, t)
      → Registers input s t
  unfolding import_match Registers
  import_match-Registers input [] s t a chosen h =
      let (s', stored, rest) = >>=-eq-ok (insert_right input s) _ h in
      let (row, found, rest') = >>=-eq-ok (right_row input.right_id s') _ rest in
      let (right, snap, done) = >>=-eq-ok (right_snapshot viem row s') _ rest' in
      let same : s' ≡ t = ground arith in rw (← same) (insert_right-IsKept input s s' stored)
  import_match-Registers input (row ∷ []) s t a chosen h =
      let exact : is_exact input row ≡ true = ground (arith, h) in
      let is_input = exact_row input row exact in
      let (right, snap, done) = >>=-eq-ok (right_snapshot viem row s) _ (rw exact at h) in
      let same : s ≡ t = ground arith in
      rw (← same) (
        IsKept-refl s,
        find_of_filter (has_right_id input.right_id) (shares_identifier input) s.rights input
            (λ x hit. ground (arith, hit)) (chosen ∙ ap (λ r. r ∷ []) is_input)
            (text_eq_refl input.right_id),
      )
  import_match-Registers input (row ∷ other ∷ more) s t a chosen h = absurd (ground (arith, h))

  import_all-Registers :
      (inputs : List RightRow) (s t : Store) (rights : List InstitutionRight)
      → import_all viem inputs s ≡ ok (rights, t)
      → IsKept s t × All (IsRegistered t.rights) inputs
  unfolding import_all import_one Registers
  import_all-Registers [] s t rights h =
      let same : s ≡ t = ground (arith, h) in rw (← same) (IsKept-refl s, tt)
  import_all-Registers (input ∷ inputs) s t rights h =
      let ((right, s'), one, rest) = >>=-eq-ok (import_one viem input s) _ h in
      let ((others, s''), more, done) = >>=-eq-ok (import_all viem inputs s') _ rest in
      let same : s'' ≡ t = ground arith in
      let (kept, put) =
        import_match-Registers input (filter (shares_identifier input) s.rights) s s' right refl
          one in
      let (later, all_put) = import_all-Registers inputs s' s'' others more in
      subst (λ (u : Store). IsKept s u × All (IsRegistered u.rights) (input ∷ inputs)) same
        (IsKept-trans s s' s'' kept later, (later.rights_kept input.right_id input put, all_put))

  -- An import that returns has read its input as a list of rights, and each of them then stands in
  -- the tables with all its fields. Every right that was in the tables is still there as it was, and
  -- the pools and the allocations are those before, so a right that is imported again keeps its
  -- state.
  pub import_available_rights-IsRegistered :
      (v : Value) (l : Ledger) (rights : List InstitutionRight)
      → (import_available_rights viem v l).0 ≡ ok rights
      → (inputs : List RightRow) × (import_inputs viem v ≡ ok inputs)
        × All (IsRegistered (import_available_rights viem v l).1.store.rights) inputs
        × IsKept l.store (import_available_rights viem v l).1.store
  unfolding import_available_rights transaction
  import_available_rights-IsRegistered v l rights h = elim (Result-cases (import_inputs viem v)) [
    | inr (e, bad) ↦ absurd (ground (arith, h, bad))
    | inl (inputs, read) ↦ elim (Bool-cases l.is_closed) [
      | inl shut ↦ absurd (ground (arith, h, read, shut))
      | inr ready ↦ elim (Result-cases (import_all viem inputs l.store)) [
        | inr (e, failed) ↦ absurd (ground (arith, h, read, ready, failed))
        | inl ((made, t), done) ↦
            let (kept, put) = import_all-Registers inputs l.store t made done in
            (inputs, read, rw (read, ready, done) put, rw (read, ready, done) kept)
      ]
    ]
  ]
