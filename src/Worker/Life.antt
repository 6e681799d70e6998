-- ===== src/Worker/Life.antt =====
-- The life of one row: what its state says of its lease, its hash and its history, and what no
-- transition changes.
use ultratokenizer.Base.{
  ℕ, ◌+◌, ◌≤◌, Text, Bool, true, false, ◌≡◌, Option, none, some, arith, length, length-append,
}
use ultratokenizer.Worker.Model.{
  RequestState, RequestStatus, Observation, is_open, max_observations,
}
use ultratokenizer.Worker.Database.{lease, is_some}
use ultratokenizer.Worker.Requests.{is_awaiting}
use ultratokenizer.Worker.Observing.{resolved, observed, checking_of, is_checkable, hash_list}
use ultratokenizer.Worker.Spec.{Actor, Transition}

-- Awaiting a submission, or closed: nothing is observed for the row.
abbrev pub is_resting : RequestStatus → Bool
is_resting RequestStatus.awaiting_submission = true
is_resting RequestStatus.confirmed = true
is_resting RequestStatus.tracking_cancelled = true
is_resting _ = false

pub record IsSound (s : RequestState) : Type 0 where
  pub unleased : is_resting s.status ≡ true → is_some s.lease_id ≡ false
  pub unsent : is_awaiting s.status ≡ true → is_some s.transaction_hash ≡ false
  pub unreplaced : is_open s.status ≡ true → length s.prior_transaction_hashes ≡ 0
  pub replaced_once : length s.prior_transaction_hashes ≤ 1
  pub attempted : s.attempts ≤ max_observations

-- What no transition changes, and that a closed request never changes again.
pub record IsContinued (old new : RequestState) : Type 0 where
  pub same_id : new.id ≡ old.id
  pub same_owner : new.owner_id ≡ old.owner_id
  pub same_request : new.request ≡ old.request
  pub same_creation : new.created_at ≡ old.created_at
  pub newer : new.revision ≡ old.revision + 1
  pub was_open : is_open old.status ≡ true

open_of_leased :
    (s : RequestState) → IsSound s → is_some s.lease_id ≡ true → is_open s.status ≡ true
open_of_leased s h e = ground arith

length-hash_list : (h : Option Text) → length (hash_list h) ≤ 1
length-hash_list none = omega arith
length-hash_list (some h) = omega arith

resolved-IsSound :
    (now : ℕ) (candidate : Text) (observation : Observation) (old : RequestState)
    → IsSound old
    → is_some old.lease_id ≡ true
    → IsSound (resolved now candidate observation old)
unfolding resolved
resolved-IsSound now candidate observation old h e = ground (
  arith,
  open_of_leased old h e,
  length-append {0} old.prior_transaction_hashes (hash_list old.transaction_hash),
  length-hash_list old.transaction_hash,
)

observed-IsSound :
    (now : ℕ) (observation : Observation) (old : RequestState)
    → IsSound old
    → is_some old.lease_id ≡ true
    → IsSound (observed now observation old)
unfolding observed
observed-IsSound now observation old h e = ground (arith, open_of_leased old h e)

pub Transition-IsSound :
    {now : ℕ} {actor : Actor} {old new : RequestState}
    → Transition now actor old new
    → IsSound old
    → IsSound new
unfolding lease checking_of is_checkable
Transition-IsSound (Transition.submit hash a w u e) h = rw e (ground arith)
Transition-IsSound (Transition.cancel a w e) h = rw e (ground arith)
Transition-IsSound (Transition.reconcile a r s l t e) h = rw e (ground arith)
Transition-IsSound (Transition.begin_replacement uuid a o s l e) h = rw e (ground arith)
Transition-IsSound {now} {actor} {old} (Transition.end_replacement c x a l e) h =
    rw e (resolved-IsSound now c x old h l)
Transition-IsSound (Transition.drop_lease a l n e) h = rw e (ground arith)
Transition-IsSound (Transition.begin_check uuid a c m e) h = rw e (ground arith)
Transition-IsSound (Transition.give_up a c m e) h = rw e (ground arith)
Transition-IsSound {now} {actor} {old} (Transition.end_check x a l e) h =
    rw e (observed-IsSound now x old h l)

resolved-IsContinued :
    (now : ℕ) (candidate : Text) (observation : Observation) (old : RequestState)
    → is_open old.status ≡ true
    → IsContinued old (resolved now candidate observation old)
unfolding resolved
resolved-IsContinued now candidate observation old o = ground arith

observed-IsContinued :
    (now : ℕ) (observation : Observation) (old : RequestState)
    → is_open old.status ≡ true
    → IsContinued old (observed now observation old)
unfolding observed
observed-IsContinued now observation old o = ground arith

-- A transition keeps the owner, the request and the time of creation, counts the revision up, and
-- starts from an open request only.
pub Transition-IsContinued :
    {now : ℕ} {actor : Actor} {old new : RequestState}
    → Transition now actor old new
    → IsSound old
    → IsContinued old new
unfolding lease checking_of is_checkable
Transition-IsContinued (Transition.submit hash a w u e) h = rw e (ground arith)
Transition-IsContinued (Transition.cancel a w e) h = rw e (ground arith)
Transition-IsContinued (Transition.reconcile a r s l t e) h = rw e (ground arith)
Transition-IsContinued (Transition.begin_replacement uuid a o s l e) h = rw e (ground arith)
Transition-IsContinued {now} {actor} {old} (Transition.end_replacement c x a l e) h =
    rw e (resolved-IsContinued now c x old (open_of_leased old h l))
Transition-IsContinued {old} (Transition.drop_lease a l n e) h =
    let o = open_of_leased old h l in rw e (ground arith)
Transition-IsContinued (Transition.begin_check uuid a c m e) h = rw e (ground arith)
Transition-IsContinued (Transition.give_up a c m e) h = rw e (ground arith)
Transition-IsContinued {now} {actor} {old} (Transition.end_check x a l e) h =
    rw e (observed-IsContinued now x old (open_of_leased old h l))
