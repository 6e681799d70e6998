-- ===== src/Worker/Isolation.antt =====
-- Whose rows a step may touch, and that a closed row is final.
use ultratokenizer.Base.{
  ℕ, ◌≤◌, Text, text_eq, text_eq_iff, Bool, true, false, ◌≡◌, ◌≢◌, refl, sym, ◌∙◌, ◌⊎◌, inl, inr,
  List, [], ◌∷◌, none, some, arith, find, find-All, filter, Bool-cases, subst,
}
use ultratokenizer.Domain.Viem.{Viem}
use ultratokenizer.Worker.Model.{RequestState, is_open}
use ultratokenizer.Worker.Database.{Database, has_id, is_kept, is_retired}
use ultratokenizer.Worker.Schedule.{Step, step, IsGenuine, IsTimely, run, end_time}
use ultratokenizer.Worker.Requests.{new_state}
use ultratokenizer.Worker.Spec.{Actor, owner, platform, Transition, Change, Changes}
use ultratokenizer.Worker.Rows.{find-upsert}
use ultratokenizer.Worker.Life.{IsSound, Transition-IsContinued}
use ultratokenizer.Worker.Bounds.{IsBounded, Changes-IsBounded, later-IsBounded}
use ultratokenizer.Worker.Refinement.Steps.{actor_of, step-Changes}

-- The row is closed, or the actor is neither its owner nor the platform.
abbrev pub IsFrozen : Actor → RequestState → Type 0
IsFrozen actor row =
    (is_open row.status ≡ false) ⊎ ((actor ≢ owner row.owner_id) × (actor ≢ platform))

stranger :
    {now : ℕ} {actor : Actor} {old new : RequestState}
    → Transition now actor old new
    → actor ≢ owner old.owner_id
    → actor ≢ platform
    → ⊥
stranger (Transition.submit hash a w u e) o p = o a
stranger (Transition.cancel a w e) o p = o a
stranger (Transition.reconcile a r s l t e) o p = o a
stranger (Transition.begin_replacement uuid a u s l e) o p = o a
stranger (Transition.end_replacement c x a l e) o p = o a
stranger (Transition.drop_lease a l n e) o p = p a
stranger (Transition.begin_check uuid a c m e) o p = p a
stranger (Transition.give_up a c m e) o p = p a
stranger (Transition.end_check x a l e) o p = p a

frozen :
    {now : ℕ} {actor : Actor} {old new : RequestState}
    → Transition now actor old new
    → IsSound old
    → IsFrozen actor old
    → ⊥
frozen t s (inl closed) =
    let opened = (Transition-IsContinued t s).was_open in absurd (ground (arith, opened, closed))
frozen t s (inr (o, p)) = stranger t o p

find-filter :
    (id : Text) (p : RequestState → Bool) (row : RequestState) (rows : List RequestState)
    → find (has_id id) rows ≡ some row
    → p row ≡ true
    → find (has_id id) (filter p rows) ≡ some row
find-filter id p row [] e k = cc
find-filter id p row (r ∷ rows) e k = elim (Bool-cases (has_id id r)) [
  | inl hit ↦ let same : r ≡ row = ground arith in rw (same, k, ← same, hit) refl
  | inr miss ↦ elim (Bool-cases (p r)) [
    | inl kept ↦ rw (kept, miss) (find-filter id p row rows (ground arith) k)
    | inr gone ↦ rw gone (find-filter id p row rows (ground arith) k)
  ]
]

some_eq : {a b : RequestState} → some a ≡ some b → a ≡ b
some_eq e = ground (arith, e)

not_found :
    (i id : Text) (row : RequestState) (rows : List RequestState)
    → find (has_id i) rows ≡ none
    → find (has_id id) rows ≡ some row
    → text_eq i id ≡ false
not_found i id row rows absent f = elim (Bool-cases (text_eq i id)) [
  | inl same ↦
      let e : some row ≡ none =
        sym f ∙ subst (λ x. find (has_id x) rows ≡ none) ((text_eq_iff i id).0 same) absent in
      cc
  | inr other ↦ other
]

pub Change-frozen :
    {now : ℕ} {actor : Actor} {rows rows' : List RequestState} (id : Text) (row : RequestState)
    → Change now actor rows rows'
    → IsBounded now rows
    → find (has_id id) rows ≡ some row
    → IsFrozen actor row
    → (find (has_id id) rows' ≡ some row) ⊎ (is_kept now row ≡ false)
Change-frozen {now} {actor} {rows} id row (Change.retire e) h f z =
    elim (Bool-cases (is_kept now row)) [
      | inl kept ↦ inl (rw e (find-filter id (is_kept now) row rows f kept))
      | inr gone ↦ inr gone
    ]
Change-frozen {now} {actor} {rows} id row (Change.admit o i r a absent free e) h f z =
    let other : text_eq i id ≡ false = not_found i id row rows absent f in
    inl (rw (e, find-upsert id (new_state now o i r) rows, other) f)
Change-frozen {now} {actor} {rows} id row (Change.update old new found t free e) h f z =
    elim (Bool-cases (text_eq new.id id)) [
      | inl same ↦
          let e' : new.id ≡ id = (text_eq_iff new.id id).0 same in
          let w : old ≡ row =
            some_eq (sym (subst (λ x. find (has_id x) rows ≡ some old) e' found) ∙ f) in
          absurd (frozen t (find-All IsSound (has_id new.id) rows found h.sound).0 (rw w z))
      | inr other ↦ inl (rw (e, find-upsert id new rows, other) f)
    ]

Changes-frozen :
    {now : ℕ} {actor : Actor} {rows rows' : List RequestState} (id : Text) (row : RequestState)
    → Changes now actor rows rows'
    → IsBounded now rows
    → find (has_id id) rows ≡ some row
    → IsFrozen actor row
    → (find (has_id id) rows' ≡ some row) ⊎ (is_kept now row ≡ false)
Changes-frozen id row Changes.here h f z = inl f
Changes-frozen id row (Changes.next cs c) h f z = elim (Changes-frozen id row cs h f z) [
  | inl f' ↦ Change-frozen id row c (Changes-IsBounded cs h) f' z
  | inr gone ↦ inr gone
]

owner_not_platform : (o : Text) → owner o ≢ platform
owner_not_platform o e = cc

owner_injective : (o p : Text) → owner o ≡ owner p → o ≡ p
owner_injective o p e = ground (arith, e)

-- Within the bounds of the coordinator, a step that one owner takes, where a second mutation is
-- handed a row with a lease, leaves the row of any other owner as it was, unless that row was
-- past its retention and not leased.
pub step-isolated :
    (viem : Viem) (now : ℕ) (s : Step) (db : Database) (o id : Text) (row : RequestState)
    → IsGenuine s
    → IsBounded now db.requests
    → actor_of s ≡ owner o
    → find (has_id id) db.requests ≡ some row
    → row.owner_id ≢ o
    → (find (has_id id) (step viem now s db).requests ≡ some row) ⊎ (is_kept now row ≡ false)
step-isolated viem now s db o id row g h a f other =
    Changes-frozen id row (step-Changes viem now s db g h.distinct) h f (
      inr (
        λ e. other (owner_injective row.owner_id o (sym e ∙ a)),
        λ e. owner_not_platform o (sym a ∙ e),
      ))

-- A closed row that is not past its retention later was not before.
pub kept_earlier :
    (now later : ℕ) (row : RequestState)
    → now ≤ later
    → is_kept now row ≡ false
    → is_retired later row ≡ true
kept_earlier now later row le h = ground arith

end_time-le :
    (start : ℕ) (steps : List (ℕ × Step)) → IsTimely start steps → start ≤ end_time start steps
end_time-le start [] t = omega arith
end_time-le start ((now, s) ∷ rest) (le, g, t) = omega (arith, le, end_time-le now rest t)

-- From a database within the bounds of the coordinator, a closed row (confirmed, or its tracking
-- cancelled) is final: whatever steps anyone takes, in the order of their times and each second
-- mutation handed a row with a lease, the row stays as it is, unless its retention has passed by
-- the last step.
pub run-closed :
    (viem : Viem) (start : ℕ) (steps : List (ℕ × Step)) (db : Database) (id : Text)
    (row : RequestState)
    → IsTimely start steps
    → IsBounded start db.requests
    → find (has_id id) db.requests ≡ some row
    → is_open row.status ≡ false
    → (find (has_id id) (run viem steps db).requests ≡ some row)
      ⊎ (is_retired (end_time start steps) row ≡ true)
unfolding run
run-closed viem start [] db id row t h f closed = inl f
run-closed viem start ((now, s) ∷ rest) db id row (le, g, t) h f closed =
    let h' = later-IsBounded start now db.requests le h in
    let cs = step-Changes viem now s db g h.distinct in
    elim (Changes-frozen id row cs h' f (inl closed)) [
      | inl f' ↦
          run-closed viem now rest (step viem now s db) id row t (Changes-IsBounded cs h') f' closed
      | inr gone ↦ inr (kept_earlier now (end_time now rest) row (end_time-le now rest t) gone)
    ]
