-- ===== src/Worker/Bounds.antt =====
-- The bounds of the coordinator, kept by every change of the specification and by time.
pub mod Run
use ultratokenizer.Base.{
  ℕ, ◌+◌, ◌≤◌, ◌<◌, Text, text_eq, Bool, true, false, ◌&&◌, ◌≡◌, refl, ◌⊎◌, inl, inr, List, [], ◌∷◌,
  Option, none, some, arith, text_eq_iff, subst, find, find-All, filter, count, count_mono, length,
  length-filter, All, Bool-cases,
}
use ultratokenizer.Domain.Request.{IssuanceRequest}
use ultratokenizer.Worker.Model.{
  RequestState, RequestStatus, is_open, max_open_requests, max_retained_requests,
  max_subject_open_requests, max_subject_retained_requests, max_concurrent_observations,
}
use ultratokenizer.Worker.Database.{has_id, upsert, leased, is_kept}
use ultratokenizer.Worker.Requests.{is_owned_by, is_open_state, is_full, new_state}
use ultratokenizer.Worker.Observing.{leased_count}
use ultratokenizer.Worker.Spec.{Actor, Transition, Change, Changes}
use ultratokenizer.Worker.Life.{IsSound, IsContinued, Transition-IsSound, Transition-IsContinued}
use ultratokenizer.Worker.Rows.{
  Distinct, bit, count-upsert_old, count-upsert_new, length-upsert_old, length-upsert-le,
  upsert-Distinct, filter-Distinct, count-filter-le, length-filter-le,
}

abbrev pub is_open_of : Text → RequestState → Bool
is_open_of owner_id s = is_owned_by owner_id s && is_open_state s

abbrev pub is_leased_at : ℕ → RequestState → Bool
is_leased_at now s = leased s now

pub record IsBounded (now : ℕ) (rows : List RequestState) : Type 0 where
  pub distinct : Distinct rows
  pub retained : length rows ≤ max_retained_requests
  pub opened : count is_open_state rows ≤ max_open_requests
  pub retained_of : (o : Text) → count (is_owned_by o) rows ≤ max_subject_retained_requests
  pub opened_of : (o : Text) → count (is_open_of o) rows ≤ max_subject_open_requests
  pub observing : count (is_leased_at now) rows ≤ max_concurrent_observations
  pub sound : All IsSound rows

All-upsert :
    (P : RequestState → Type 0) (new : RequestState) (rows : List RequestState)
    → P new
    → All P rows
    → All P (upsert new rows)
unfolding upsert
All-upsert P new [] p h = (p, tt)
All-upsert P new (row ∷ rows) p (q, h) = elim (Bool-cases (has_id new.id row)) [
  | inl hit ↦ rw hit (p, h)
  | inr miss ↦ rw miss (q, All-upsert P new rows p h)
]

All-filter :
    (P : RequestState → Type 0) (q : RequestState → Bool) (rows : List RequestState)
    → All P rows
    → All P (filter q rows)
All-filter P q [] h = tt
All-filter P q (row ∷ rows) (p, h) = elim (Bool-cases (q row)) [
  | inl kept ↦ rw kept (p, All-filter P q rows h)
  | inr gone ↦ rw gone (All-filter P q rows h)
]

count_both :
    (p q : RequestState → Bool) (rows : List RequestState)
    → length (filter p (filter q rows)) ≡ count (λ s. p s && q s) rows
count_both p q [] = refl
count_both p q (row ∷ rows) = ground (arith, count_both p q rows)

retire-IsBounded :
    (now : ℕ) (keep : RequestState → Bool) (rows : List RequestState)
    → IsBounded now rows
    → IsBounded now (filter keep rows)
retire-IsBounded now keep rows h = record {
  distinct = filter-Distinct keep rows h.distinct;
  retained = omega (arith, length-filter-le keep rows, h.retained);
  opened = omega (arith, count-filter-le is_open_state keep rows, h.opened);
  retained_of = λ o. omega (arith, count-filter-le (is_owned_by o) keep rows, h.retained_of o);
  opened_of = λ o. omega (arith, count-filter-le (is_open_of o) keep rows, h.opened_of o);
  observing = omega (arith, count-filter-le (is_leased_at now) keep rows, h.observing);
  sound = All-filter IsSound keep rows h.sound;
}

-- What `is_full` has found not to be so.
record HasRoom (owner_id : Text) (rows : List RequestState) : Type 0 where
  retained : length rows < max_retained_requests
  opened : count is_open_state rows < max_open_requests
  retained_of : count (is_owned_by owner_id) rows < max_subject_retained_requests
  opened_of : count (is_open_of owner_id) rows < max_subject_open_requests

HasRoom-is_full :
    (owner_id : Text) (rows : List RequestState)
    → is_full owner_id rows ≡ false
    → HasRoom owner_id rows
unfolding is_full
HasRoom-is_full owner_id rows h = ground (
  arith,
  length-filter is_open_state rows,
  length-filter (is_owned_by owner_id) rows,
  count_both (is_owned_by owner_id) is_open_state rows,
)

new_state-IsSound :
    (now : ℕ) (owner_id id : Text) (request : IssuanceRequest)
    → IsSound (new_state now owner_id id request)
new_state-IsSound now owner_id id request = record {
  unleased = λ _. refl;
  unsent = λ _. refl;
  unreplaced = λ _. refl;
  replaced_once = omega arith;
  attempted = omega arith;
}

bit_and : (a b : Bool) → bit (a && b) ≤ bit a
bit_and a b = ground arith

-- Room for one more row of `owner_id` leaves the bound of each owner in place.
fits :
    (p : Text → RequestState → Bool) (limit : ℕ) (rows : List RequestState) (owner_id o : Text)
    → count (p owner_id) rows < limit
    → count (p o) rows ≤ limit
    → count (p o) rows + bit (text_eq owner_id o) ≤ limit
fits p limit rows owner_id o room h = elim (Bool-cases (text_eq owner_id o)) [
  | inl same ↦
      rw same (
        omega (arith, subst (λ x. count (p x) rows < limit) ((text_eq_iff owner_id o).0 same) room))
  | inr other ↦ rw other (omega (arith, h))
]

admit-IsBounded :
    (now : ℕ) (owner_id id : Text) (request : IssuanceRequest) (rows : List RequestState)
    → find (has_id id) rows ≡ none
    → is_full owner_id rows ≡ false
    → IsBounded now rows
    → IsBounded now (upsert (new_state now owner_id id request) rows)
admit-IsBounded now owner_id id request rows absent free h =
    let new = new_state now owner_id id request in
    let room = HasRoom-is_full owner_id rows free in
    record {
      distinct = upsert-Distinct new rows h.distinct;
      retained = omega (arith, length-upsert-le new rows, room.retained);
      opened = omega (arith, count-upsert_new is_open_state new rows absent, room.opened);
      retained_of = λ o. rw (count-upsert_new (is_owned_by o) new rows absent) (
          fits is_owned_by max_subject_retained_requests rows owner_id o room.retained_of
            (h.retained_of o));
      opened_of = λ o. rw (count-upsert_new (is_open_of o) new rows absent) (
          omega (
            arith,
            bit_and (text_eq owner_id o) true,
            fits is_open_of max_subject_open_requests rows owner_id o room.opened_of
                (h.opened_of o),
          ));
      observing = omega (arith, count-upsert_new (is_leased_at now) new rows absent, h.observing);
      sound = All-upsert IsSound new rows (new_state-IsSound now owner_id id request) h.sound;
    }

found-IsSound :
    (id : Text) (old : RequestState) (rows : List RequestState)
    → All IsSound rows
    → find (has_id id) rows ≡ some old
    → IsSound old
found-IsSound id old rows h e = (find-All IsSound (has_id id) rows e h).0

leased_fits :
    (now : ℕ) (old new : RequestState) (rows : List RequestState)
    → find (has_id new.id) rows ≡ some old
    → ((leased new now ≡ true)
        → (leased old now ≡ true) ⊎ (leased_count now rows < max_concurrent_observations))
    → count (is_leased_at now) rows ≤ max_concurrent_observations
    → count (is_leased_at now) (upsert new rows) ≤ max_concurrent_observations
leased_fits now old new rows found free h =
    let e = count-upsert_old (is_leased_at now) new old rows found in
    elim (Bool-cases (is_leased_at now new)) [
      | inl taken ↦ elim (free taken) [
        | inl had ↦ ground (arith, e, h, taken, had)
        | inr slot ↦ ground (arith, e, h, taken, slot, length-filter (is_leased_at now) rows)
      ]
      | inr none_taken ↦ ground (arith, e, h, none_taken)
    ]

update-IsBounded :
    (now : ℕ) (old new : RequestState) (rows : List RequestState)
    → find (has_id new.id) rows ≡ some old
    → IsContinued old new
    → IsSound new
    → ((leased new now ≡ true)
        → (leased old now ≡ true) ⊎ (leased_count now rows < max_concurrent_observations))
    → IsBounded now rows
    → IsBounded now (upsert new rows)
update-IsBounded now old new rows found c s free h = record {
  distinct = upsert-Distinct new rows h.distinct;
  retained = omega (arith, length-upsert_old new old rows found, h.retained);
  opened = ground (arith, count-upsert_old is_open_state new old rows found, h.opened, c.was_open);
  retained_of = λ o.
      ground
        (arith, count-upsert_old (is_owned_by o) new old rows found, h.retained_of o, c.same_owner);
  opened_of = λ o. ground (
    arith,
    count-upsert_old (is_open_of o) new old rows found,
    h.opened_of o,
    c.same_owner,
    c.was_open,
  );
  observing = leased_fits now old new rows found free h.observing;
  sound = All-upsert IsSound new rows s h.sound;
}

pub Change-IsBounded :
    {now : ℕ} {actor : Actor} {rows rows' : List RequestState}
    → Change now actor rows rows'
    → IsBounded now rows
    → IsBounded now rows'
Change-IsBounded {now} {actor} {rows} (Change.retire e) h =
    rw e (retire-IsBounded now (is_kept now) rows h)
Change-IsBounded {now} {actor} {rows} (Change.admit o id r a absent free e) h =
    rw e (admit-IsBounded now o id r rows absent free h)
Change-IsBounded {now} {actor} {rows} (Change.update old new found t free e) h =
    let s = found-IsSound new.id old rows h.sound found in
    rw e (
      update-IsBounded now old new rows found (Transition-IsContinued t s) (Transition-IsSound t s)
        free h)

pub Changes-IsBounded :
    {now : ℕ} {actor : Actor} {rows rows' : List RequestState}
    → Changes now actor rows rows'
    → IsBounded now rows
    → IsBounded now rows'
Changes-IsBounded Changes.here h = h
Changes-IsBounded (Changes.next cs c) h = Change-IsBounded c (Changes-IsBounded cs h)

leased_earlier :
    (now later : ℕ) (s : RequestState) → now ≤ later → leased s later ≡ true → leased s now ≡ true
leased_earlier now later s le h = ground arith

all_earlier :
    (now later : ℕ) (rows : List RequestState)
    → now ≤ later
    → All (λ s. leased s later ≡ true → leased s now ≡ true) rows
all_earlier now later [] le = tt
all_earlier now later (s ∷ rows) le = (leased_earlier now later s le, all_earlier now later rows le)

-- Leases only run out.
pub later-IsBounded :
    (now later : ℕ) (rows : List RequestState)
    → now ≤ later
    → IsBounded now rows
    → IsBounded later rows
later-IsBounded now later rows le h = record {
  distinct = h.distinct;
  retained = h.retained;
  opened = h.opened;
  retained_of = h.retained_of;
  opened_of = h.opened_of;
  observing = omega (
    arith,
    count_mono (is_leased_at later) (is_leased_at now) rows (all_earlier now later rows le),
    h.observing,
  );
  sound = h.sound;
}
