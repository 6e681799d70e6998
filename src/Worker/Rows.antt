-- ===== src/Worker/Rows.antt =====
-- The rows of the coordinator as a table with one row for each id: lookups and counts after a row
-- is written or rows are deleted.
use ultratokenizer.Base.{
  ℕ, ◌+◌, ◌≤◌, Text, text_eq, text_eq_iff, text_eq_refl, Bool, true, false, ◌≡◌, refl, subst, List,
  [], ◌∷◌, none, some, arith, find, filter, any, count, length, All, if◌then◌else◌, Bool-cases, inl,
  inr,
}
use ultratokenizer.Worker.Model.{RequestState}
use ultratokenizer.Worker.Database.{has_id, upsert}

abbrev pub Distinct : List RequestState → Type 0
Distinct [] = Unit
Distinct (row ∷ rows) = (any (has_id row.id) rows ≡ false) × Distinct rows

-- The table holds each of these rows.
abbrev pub Holds : List RequestState → List RequestState → Type 0
Holds rows states = All (λ s. find (has_id s.id) rows ≡ some s) states

abbrev pub bit : Bool → ℕ
bit true = 1
bit false = 0

pub find-upsert :
    (id : Text) (new : RequestState) (rows : List RequestState)
    → find (has_id id) (upsert new rows)
      ≡ (if text_eq new.id id then some new else find (has_id id) rows)
unfolding upsert
find-upsert id new [] = refl
find-upsert id new (row ∷ rows) = ground (
  arith,
  find-upsert id new rows,
  text_eq_iff row.id new.id,
  text_eq_iff row.id id,
  text_eq_iff new.id id,
)

-- Writing over a row exchanges what it counts for; writing a new row adds.
pub count-upsert_old :
    (p : RequestState → Bool) (new old : RequestState) (rows : List RequestState)
    → find (has_id new.id) rows ≡ some old
    → count p (upsert new rows) + bit (p old) ≡ count p rows + bit (p new)
unfolding upsert
count-upsert_old p new old [] e = cc
count-upsert_old p new old (row ∷ rows) e = elim (Bool-cases (has_id new.id row)) [
  | inl hit ↦ let same : row ≡ old = ground arith in rw (hit, same) (swap p new old rows)
  | inr miss ↦ ground (arith, count-upsert_old p new old rows)
]
  where
    swap :
        (q : RequestState → Bool) (n o : RequestState) (rs : List RequestState)
        → count q (n ∷ rs) + bit (q o) ≡ count q (o ∷ rs) + bit (q n)
    swap q n o rs = ground arith

pub count-upsert_new :
    (p : RequestState → Bool) (new : RequestState) (rows : List RequestState)
    → find (has_id new.id) rows ≡ none
    → count p (upsert new rows) ≡ count p rows + bit (p new)
unfolding upsert
count-upsert_new p new [] e = ground arith
count-upsert_new p new (row ∷ rows) e = ground (arith, count-upsert_new p new rows)

pub length-upsert_old :
    (new old : RequestState) (rows : List RequestState)
    → find (has_id new.id) rows ≡ some old
    → length (upsert new rows) ≡ length rows
unfolding upsert
length-upsert_old new old [] e = cc
length-upsert_old new old (row ∷ rows) e = ground (arith, length-upsert_old new old rows)

pub length-upsert-le :
    (new : RequestState) (rows : List RequestState) → length (upsert new rows) ≤ length rows + 1
unfolding upsert
length-upsert-le new [] = omega arith
length-upsert-le new (row ∷ rows) = ground (arith, length-upsert-le new rows)

any-upsert :
    (id : Text) (new : RequestState) (rows : List RequestState)
    → text_eq new.id id ≡ false
    → any (has_id id) rows ≡ false
    → any (has_id id) (upsert new rows) ≡ false
unfolding upsert
any-upsert id new [] n h = ground arith
any-upsert id new (row ∷ rows) n h = ground (arith, any-upsert id new rows)

pub upsert-Distinct :
    (new : RequestState) (rows : List RequestState) → Distinct rows → Distinct (upsert new rows)
unfolding upsert
upsert-Distinct new [] h = (refl, tt)
upsert-Distinct new (row ∷ rows) (h, hs) = elim (Bool-cases (has_id new.id row)) [
  | inl hit ↦
      let same : row.id ≡ new.id = (text_eq_iff row.id new.id).0 hit in
      rw hit (subst (λ x. any (has_id x) rows ≡ false) same h, hs)
  | inr miss ↦ rw miss (
    any-upsert row.id new rows
        (ground (arith, text_eq_iff row.id new.id, text_eq_iff new.id row.id)) h,
    upsert-Distinct new rows hs,
  )
]

any-filter :
    (p q : RequestState → Bool) (rows : List RequestState)
    → any p rows ≡ false
    → any p (filter q rows) ≡ false
any-filter p q [] h = refl
any-filter p q (row ∷ rows) h = ground (arith, any-filter p q rows)

pub filter-Distinct :
    (q : RequestState → Bool) (rows : List RequestState) → Distinct rows → Distinct (filter q rows)
filter-Distinct q [] h = tt
filter-Distinct q (row ∷ rows) (h, hs) = elim (Bool-cases (q row)) [
  | inl kept ↦ rw kept (any-filter (has_id row.id) q rows h, filter-Distinct q rows hs)
  | inr gone ↦ rw gone (filter-Distinct q rows hs)
]

pub count-filter-le :
    (p q : RequestState → Bool) (rows : List RequestState) → count p (filter q rows) ≤ count p rows
count-filter-le p q [] = omega arith
count-filter-le p q (row ∷ rows) = ground (arith, count-filter-le p q rows)

pub length-filter-le :
    (q : RequestState → Bool) (rows : List RequestState) → length (filter q rows) ≤ length rows
length-filter-le q [] = omega arith
length-filter-le q (row ∷ rows) = ground (arith, length-filter-le q rows)

-- A write under another id keeps what is held.
pub Holds-upsert :
    (new : RequestState) (rows states : List RequestState)
    → any (has_id new.id) states ≡ false
    → Holds rows states
    → Holds (upsert new rows) states
Holds-upsert new rows [] h k = tt
Holds-upsert new rows (s ∷ states) h (k, ks) = (
  ground (arith, find-upsert s.id new rows, text_eq_iff new.id s.id, text_eq_iff s.id new.id),
  Holds-upsert new rows states (ground arith) ks,
)

Holds-cons :
    (row : RequestState) (rows states : List RequestState)
    → any (has_id row.id) states ≡ false
    → Holds rows states
    → Holds (row ∷ rows) states
Holds-cons row rows [] h k = tt
Holds-cons row rows (s ∷ states) h (k, ks) = (
  ground (arith, text_eq_iff row.id s.id, text_eq_iff s.id row.id),
  Holds-cons row rows states (ground arith) ks,
)

-- A table with one row for each id holds all its rows.
pub Holds-self : (rows : List RequestState) → Distinct rows → Holds rows rows
Holds-self [] h = tt
Holds-self (row ∷ rows) (h, hs) =
    (rw (text_eq_refl row.id) refl, Holds-cons row rows rows h (Holds-self rows hs))
