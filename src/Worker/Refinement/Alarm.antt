-- ===== src/Worker/Refinement/Alarm.antt =====
-- The two loops of `alarm`: each row is written at most once, as it was when the loop began.
use ultratokenizer.Base.{
  ℕ, ◌+◌, ◌-◌, ◌≤◌, ◌<◌, Text, text_eq_iff, Bool, true, false, not, ◌&&◌, ◌≡◌, refl, ◌∙◌, ◌⊎◌, inl,
  inr, List, [], ◌∷◌, some, ok, arith, find, any, length-filter, All, Bool-cases, Result-cases,
  >>=-eq-ok, ◌==◌, leb, leb→le,
}
use ultratokenizer.Worker.Model.{RequestState, max_observations, max_concurrent_observations}
use ultratokenizer.Worker.Database.{Database, has_id, upsert, save, leased, is_some}
use ultratokenizer.Worker.Observing.{
  leased_count, unleased, drop_leases, due_le, insert_due, sort_due, is_checkable, exhausted,
  checking_of, select, alarm_begin_action,
}
use ultratokenizer.Worker.Spec.{platform, Transition, Change, Changes}
use ultratokenizer.Worker.Rows.{
  Distinct, Holds, bit, count-upsert_old, upsert-Distinct, Holds-upsert, Holds-self,
}
use ultratokenizer.Worker.Refinement.{Changes-one, Changes-trans, save_requests}

drop_one :
    (now : ℕ) (state : RequestState) (db db' : Database)
    → find (has_id state.id) db.requests ≡ some state
    → is_some state.lease_id ≡ true
    → leased state now ≡ false
    → save (unleased now state) db ≡ ok db'
    → Changes now platform db.requests db'.requests
drop_one now state db db' held has over saved = Changes-one (
    Change.update state (unleased now state) held (Transition.drop_lease refl has over refl)
      (λ l. cc) (save_requests (unleased now state) db db' saved))

drop_leases-Changes :
    (now : ℕ) (states : List RequestState) (db db' : Database)
    → Distinct states
    → Holds db.requests states
    → Distinct db.requests
    → drop_leases now states db ≡ ok db'
    → Changes now platform db.requests db'.requests × Distinct db'.requests
unfolding drop_leases
drop_leases-Changes now [] db db' d k r h =
    let same : db ≡ db' = ground arith in rw (← same) (Changes.here, r)
drop_leases-Changes now (state ∷ states) db db' (d, ds) (k, ks) r h =
    elim (Bool-cases (is_some state.lease_id && not (leased state now))) [
      | inr kept ↦ drop_leases-Changes now states db db' ds ks r (ground arith)
      | inl over ↦ elim (Result-cases (save (unleased now state) db)) [
        | inr (e, failed) ↦ absurd (ground arith)
        | inl (mid, saved) ↦
            let written = save_requests (unleased now state) db mid saved in
            let first = drop_one now state db mid k (ground arith) (ground arith) saved in
            let (rest, r') =
              drop_leases-Changes now states mid db' ds
                (rw written (Holds-upsert (unleased now state) db.requests states d ks))
                (rw written (upsert-Distinct (unleased now state) db.requests r)) (ground arith) in
            (Changes-trans first rest, r')
      ]
    ]

-- Sorting keeps what holds of the rows and of each pair of rows.
insert_due-any :
    (id : Text) (s : RequestState) (ts : List RequestState)
    → any (has_id id) (insert_due s ts) ≡ any (has_id id) (s ∷ ts)
unfolding insert_due
insert_due-any id s [] = refl
insert_due-any id s (t ∷ ts) = ground (arith, insert_due-any id s ts)

insert_due-Distinct :
    (s : RequestState) (ts : List RequestState)
    → any (has_id s.id) ts ≡ false
    → Distinct ts
    → Distinct (insert_due s ts)
unfolding insert_due
insert_due-Distinct s [] n d = (refl, tt)
insert_due-Distinct s (t ∷ ts) n (d, ds) =
    elim (Bool-cases (due_le s.next_check_at t.next_check_at)) [
      | inl first ↦ rw first (n, (d, ds))
      | inr later ↦ rw later (
        ground (arith, insert_due-any t.id s ts, text_eq_iff s.id t.id, text_eq_iff t.id s.id),
        insert_due-Distinct s ts (ground arith) ds,
      )
    ]

insert_due-All :
    (P : RequestState → Type 0) (s : RequestState) (ts : List RequestState)
    → P s
    → All P ts
    → All P (insert_due s ts)
unfolding insert_due
insert_due-All P s [] p ps = (p, tt)
insert_due-All P s (t ∷ ts) p (q, qs) = elim (Bool-cases (due_le s.next_check_at t.next_check_at)) [
  | inl first ↦ rw first (p, (q, qs))
  | inr later ↦ rw later (q, insert_due-All P s ts p qs)
]

sort_due-All : (P : RequestState → Type 0) (ss : List RequestState) → All P ss → All P (sort_due ss)
unfolding sort_due
sort_due-All P [] h = tt
sort_due-All P (s ∷ ss) (h, hs) = insert_due-All P s (sort_due ss) h (sort_due-All P ss hs)

sort_due-any :
    (id : Text) (ss : List RequestState) → any (has_id id) (sort_due ss) ≡ any (has_id id) ss
unfolding sort_due
sort_due-any id [] = refl
sort_due-any id (s ∷ ss) = ground (arith, insert_due-any id s (sort_due ss), sort_due-any id ss)

sort_due-Distinct : (ss : List RequestState) → Distinct ss → Distinct (sort_due ss)
unfolding sort_due
sort_due-Distinct [] h = tt
sort_due-Distinct (s ∷ ss) (h, hs) =
    insert_due-Distinct s (sort_due ss) (sort_due-any s.id ss ∙ h) (sort_due-Distinct ss hs)

-- How a write changes the number of leased rows.
leased_count-upsert :
    (now : ℕ) (new old : RequestState) (rows : List RequestState)
    → find (has_id new.id) rows ≡ some old
    → leased_count now (upsert new rows) + bit (leased old now)
      ≡ leased_count now rows + bit (leased new now)
leased_count-upsert now new old rows e = omega (
  arith,
  length-filter (λ s. leased s now) rows,
  length-filter (λ s. leased s now) (upsert new rows),
  count-upsert_old (λ s. leased s now) new old rows e,
)

-- The slots that are left and the leased rows are together no more than the bound.
abbrev HasSlots : ℕ → ℕ → List RequestState → Type 0
HasSlots now slots rows =
    (slots ≡ 0) ⊎ (slots + leased_count now rows ≤ max_concurrent_observations)

bit-le : (b : Bool) → bit b ≤ 1
bit-le b = ground arith

-- A row that is not leased afterwards takes no slot.
still_free :
    (now slots : ℕ) (new old : RequestState) (rows : List RequestState)
    → leased_count now (upsert new rows) + bit (leased old now)
      ≡ leased_count now rows + bit (leased new now)
    → leased new now ≡ false
    → HasSlots now slots rows
    → HasSlots now slots (upsert new rows)
still_free now slots new old rows e off (inl none_left) = inl none_left
still_free now slots new old rows e off (inr free) =
    let zero : bit (leased new now) ≡ 0 = rw off refl in inr (omega arith)

-- Any other takes one.
one_less :
    (now slots : ℕ) (new old : RequestState) (rows : List RequestState)
    → leased_count now (upsert new rows) + bit (leased old now)
      ≡ leased_count now rows + bit (leased new now)
    → HasSlots now slots rows
    → HasSlots now (slots - 1) (upsert new rows)
one_less now slots new old rows e (inl none_left) = inl (omega arith)
one_less now slots new old rows e (inr free) = elim (ℕ-cases slots) [
  | inl none_left ↦ inl (omega arith)
  | inr left ↦ inr (omega (arith, bit-le (leased new now)))
]
  where
    ℕ-cases : (n : ℕ) → (n ≡ 0) ⊎ (1 ≤ n)
    ℕ-cases n = omega arith

checking_found :
    (now : ℕ) (uuid : Text) (state : RequestState) (rows : List RequestState)
    → find (has_id state.id) rows ≡ some state
    → find (has_id (checking_of now uuid state).id) rows ≡ some state
unfolding checking_of
checking_found now uuid state rows e = e

checking_apart :
    (now : ℕ) (uuid : Text) (state : RequestState) (rows : List RequestState)
    → any (has_id state.id) rows ≡ false
    → any (has_id (checking_of now uuid state).id) rows ≡ false
unfolding checking_of
checking_apart now uuid state rows e = e

select-Changes :
    (now : ℕ) (uuid : ℕ → Text) (slots : ℕ) (states : List RequestState) (db db' : Database)
    (a : List RequestState)
    → Distinct states
    → Holds db.requests states
    → HasSlots now slots db.requests
    → select now uuid slots states db ≡ ok (a, db')
    → Changes now platform db.requests db'.requests
unfolding select
select-Changes now uuid slots [] db db' a d k free h =
    let same : db ≡ db' = ground arith in rw (← same) Changes.here
select-Changes now uuid slots (state ∷ states) db db' a (d, ds) (k, ks) free h =
    elim (Bool-cases (is_checkable now state)) [
      | inr skip ↦ select-Changes now uuid slots states db db' a ds ks free (ground arith)
      | inl due ↦ elim (Bool-cases (leb max_observations state.attempts)) [
        | inl over ↦ elim (Result-cases (save (exhausted now state) db)) [
          | inr (e, failed) ↦ absurd (ground arith)
          | inl (mid, saved) ↦
              let written = save_requests (exhausted now state) db mid saved in
              let step = Changes-one (
                Change.update state (exhausted now state) k
                  (Transition.give_up refl due (leb→le _ _ over) refl) (λ l. cc) written) in
              let same_count = leased_count-upsert now (exhausted now state) state db.requests k in
              Changes-trans step (
                select-Changes now uuid slots states mid db' a ds
                  (rw written (Holds-upsert (exhausted now state) db.requests states d ks))
                  (rw written (
                    still_free now slots (exhausted now state) state db.requests same_count refl
                      free))
                  (ground arith))
        ]
        | inr more ↦ elim (Bool-cases (slots == 0)) [
          | inl full ↦ let same : db ≡ db' = ground arith in rw (← same) Changes.here
          | inr room ↦ elim (Result-cases (save (checking_of now (uuid slots) state) db)) [
            | inr (e, failed) ↦ absurd (ground arith)
            | inl (mid, saved) ↦ elim (Result-cases (select now uuid (slots - 1) states mid)) [
              | inr (e, failed) ↦ absurd (ground arith)
              | inl ((more_rows, last), rest) ↦
                  let new = checking_of now (uuid slots) state in
                  let self = checking_found now (uuid slots) state db.requests k in
                  let written = save_requests new db mid saved in
                  let some_room : leased_count now db.requests < max_concurrent_observations =
                    ground arith in
                  let step = Changes-one (
                    Change.update state new self
                      (Transition.begin_check (uuid slots) refl due (ground arith) refl)
                      (λ l. inr some_room) written) in
                  let counted = leased_count-upsert now new state db.requests self in
                  let same : last ≡ db' = ground arith in
                  rw (← same) (
                    Changes-trans step (
                      select-Changes now uuid (slots - 1) states mid last more_rows ds
                        (rw written (
                          Holds-upsert new db.requests states
                            (checking_apart now (uuid slots) state states d) ks))
                        (rw written (one_less now slots new state db.requests counted free)) rest))
            ]
          ]
        ]
      ]
    ]

-- The first mutation of `alarm`.
pub alarm_begin-Changes :
    (now : ℕ) (uuid : ℕ → Text) (db db' : Database) (a : List RequestState)
    → Distinct db.requests
    → alarm_begin_action now uuid db ≡ ok (a, db')
    → Changes now platform db.requests db'.requests
unfolding alarm_begin_action
alarm_begin-Changes now uuid db db' a d h =
    let (mid, dropped, rest) = >>=-eq-ok (drop_leases now db.requests db) _ h in
    let (first, d') =
      drop_leases-Changes now db.requests db mid d (Holds-self db.requests d) d dropped in
    Changes-trans first (
      select-Changes now uuid _ (sort_due mid.requests) mid db' a
        (sort_due-Distinct mid.requests d')
        (sort_due-All (λ s. find (has_id s.id) mid.requests ≡ some s) mid.requests
          (Holds-self mid.requests d'))
        (slots_left (leased_count now mid.requests)) rest)
  where
    slots_left :
        (n : ℕ)
        → (max_concurrent_observations - n ≡ 0)
          ⊎ (max_concurrent_observations - n + n ≤ max_concurrent_observations)
    slots_left n = omega arith
