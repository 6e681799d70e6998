-- ===== src/Institution/Retry/Equal.antt =====
-- The comparisons of the ledger are reflexive, and results are taken apart.
use ultratokenizer.Base.{
  text_eq_refl, true, false, ◌≡◌, ◌≢◌, refl, Option, none, some, ok, err, arith, or_throw,
}
use ultratokenizer.Domain.Request.{IssuanceRequest}
use ultratokenizer.Institution.Errors.{LedgerResult, LedgerError}
use ultratokenizer.Institution.Types.{
  Allocation, AllocationState, Observation, Outcome, Reason, Store, is_pending,
}
use ultratokenizer.Institution.Outcomes.{Kind, target_state, observation_eq, outcome_eq, request_eq}
use ultratokenizer.Institution.Transaction.{unchanged}
use ultratokenizer.Institution.Allocations.{state_eq}

pub or_throw-ok :
    {A : Type 0} (o : Option A) (e : LedgerError) {a : A} → or_throw o e ≡ ok a → o ≡ some a
or_throw-ok none e h = cc
or_throw-ok (some x) e h = ground (arith, h)

abbrev pub accepted : Allocation × Store → LedgerResult (Allocation × Store)
accepted x = ok x

pub ok_injective :
    {a b : Allocation} {s t : Store} → accepted (a, s) ≡ accepted (b, t) → (a ≡ b) × (s ≡ t)
ok_injective h = ground (arith, h)

pub err_not_ok :
    {r : LedgerResult (Allocation × Store)} {e : LedgerError} {x : Allocation × Store}
    → r ≡ err e
    → r ≢ ok x
err_not_ok {r} h k = ground (arith, h, k)

pub unchanged_store :
    (r : LedgerResult Allocation) (s t : Store) (a : Allocation) → unchanged s r ≡ ok (a, t) → s ≡ t
unchanged_store (ok b) s t a h = (ok_injective h).1
unchanged_store (err e) s t a h = cc

outcome_eq_refl : (o : Outcome) → outcome_eq o o ≡ true
outcome_eq_refl (Outcome.issued t) = text_eq_refl t
outcome_eq_refl (Outcome.unused Reason.revoked_unused) = refl
outcome_eq_refl (Outcome.unused Reason.expired_unused) = refl
outcome_eq_refl (Outcome.expired_unopened t) = text_eq_refl t

pub observation_eq_refl : (o : Observation) → observation_eq o o ≡ true
unfolding observation_eq
observation_eq_refl o =
    rw
      (
        outcome_eq_refl o.outcome,
        text_eq_refl o.common.request_digest,
        text_eq_refl o.common.chain_id,
        text_eq_refl o.common.gate,
        text_eq_refl o.common.reservation_id,
        text_eq_refl o.common.claim_usage_id,
        text_eq_refl o.common.block_hash,
        text_eq_refl o.common.block_number,
      )
      refl

pub request_eq_refl : (r : IssuanceRequest) → request_eq r r ≡ true
unfolding request_eq
request_eq_refl r =
    rw
      (
        text_eq_refl r.schema_version,
        text_eq_refl r.action,
        text_eq_refl r.request_id,
        text_eq_refl r.chain_id,
        text_eq_refl r.gate,
        text_eq_refl r.token,
        text_eq_refl r.recipient,
        text_eq_refl r.amount,
        text_eq_refl r.unit,
        text_eq_refl r.issuer_id,
        text_eq_refl r.reservation_id,
        text_eq_refl r.claim_commitment,
        text_eq_refl r.claim_usage_id,
        text_eq_refl r.policy_version,
        text_eq_refl r.rights_version,
        text_eq_refl r.nonce,
        text_eq_refl r.valid_until,
      )
      refl

pub state_eq_refl : (s : AllocationState) → state_eq s s ≡ true
state_eq_refl AllocationState.pending = refl
state_eq_refl AllocationState.issued = refl
state_eq_refl AllocationState.released = refl

pub not_pending : (kind : Kind) → is_pending (target_state kind) ≡ false
not_pending Kind.issued = refl
not_pending Kind.unused = refl
not_pending Kind.expired_unopened = refl
