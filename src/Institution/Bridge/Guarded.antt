-- ===== src/Institution/Bridge/Guarded.antt =====
-- The bridge writes to the ledger only what it has read of the chain.
use ultratokenizer.Base.{
  Text, Bool, true, false, not, ◌≡◌, ◌⊎◌, inl, inr, refl, ap, ◌∙◌, ℕ, ok, err, if◌then◌else◌, ◌>>=◌,
  >>=-eq-ok, arith,
}
use ultratokenizer.Domain.Value.{Value}
use ultratokenizer.Domain.Viem.{Viem}
use ultratokenizer.Institution.Types.{Allocation, is_pending}
use ultratokenizer.Institution.Outcomes.{Kind}
use ultratokenizer.Institution.Transaction.{Ledger}
use ultratokenizer.Institution.Allocations.{settle, release_unused, release_expired_unopened}
use ultratokenizer.Institution.Bridge.{
  BridgeResult, terminal_conflict, Pins, Reader, Anchored, State, allocation,
}
use ultratokenizer.Institution.Bridge.Release.{
  Verdict, has_kind, if_settled, expired_value, unused_value, decide_expired, decide_unused,
  perform, settle_expired_unopened, settle_unused,
}
use ultratokenizer.Institution.Bridge.Shown.{IsExpired, IsReleased}
use ultratokenizer.Institution.Bridge.Settled.{decide_expired-IsExpired, decide_unused-IsReleased}

-- What decides on an allocation that is still pending.
pending_verdict :
    (kind : Kind) (current : Allocation) (d : BridgeResult Verdict) (v : Value)
    → (if not (is_pending current.state) then if_settled kind current else d)
      ≡ ok (Verdict.settles v)
    → (is_pending current.state ≡ true) × (d ≡ ok (Verdict.settles v))
pending_verdict kind current d v h =
    by_state (is_pending current.state) (has_kind kind current.observation) h
  where
    by_state :
        (p k : Bool)
        → (if not p then (if k then ok (Verdict.settled current) else err terminal_conflict) else d)
          ≡ ok (Verdict.settles v)
        → (p ≡ true) × (d ≡ ok (Verdict.settles v))
    by_state true k e = (refl, e)
    by_state false true e = cc
    by_state false false e = cc

module _ (viem : Viem) (pins : Pins) (reader : Reader) where
  performed :
      (kind : Kind) (r : BridgeResult Verdict) (after : Ledger)
      → ((perform viem pins reader kind r after).1 ≡ after)
        ⊎ ((v : Value) × (r ≡ ok (Verdict.settles v))
            × ((perform viem pins reader kind r after).1 ≡ (settle viem kind v after).1))
  performed kind (err e) after = inl refl
  performed kind (ok (Verdict.settled current)) after = inl refl
  performed kind (ok (Verdict.settles v)) after = inr (v, refl, refl)

  value_of : (v w : Value) → ◌≡◌ {A = Verdict} (Verdict.settles v) (Verdict.settles w) → v ≡ w
  value_of v w h = ground (arith, h)

  -- `settleExpiredUnopened` leaves the ledger as it is, or it makes one call of the ledger, and then:
  -- the allocation was pending, the end of its request had passed at a block with its confirmations,
  -- the gate had no reservation there and neither the request nor the claim had been used, and the
  -- block, the chain, the deployment and the code of the gate were the same when they were read again.
  pub settle_expired_unopened-IsExpired :
      (digest : Text) (late : Bool) (before after : Ledger)
      → ((settle_expired_unopened viem pins reader digest late before after).1 ≡ after)
        ⊎ ((current : Allocation) × (number : ℕ) × (block : Anchored) × (allocation viem pins reader
                digest before
              ≡ ok current)
            × (is_pending current.state ≡ true)
            × IsExpired viem pins reader current.request number block
            × ((settle_expired_unopened viem pins reader digest late before after).1
                ≡ (release_expired_unopened viem (expired_value current block number) after).1))
  unfolding settle_expired_unopened
  settle_expired_unopened-IsExpired digest late before after =
      elim (performed Kind.expired_unopened
        (allocation viem pins reader digest before >>= λ current.
          if not (is_pending current.state)
          then if_settled Kind.expired_unopened current
          else decide_expired viem pins reader late current)
        after) [
          | inl same ↦ inl same
          | inr (v, decided, written) ↦
              let (current, found, h) =
                >>=-eq-ok (allocation viem pins reader digest before) _ decided in
              let (pending, d) =
                pending_verdict Kind.expired_unopened current
                  (decide_expired viem pins reader late current) v h in
              let (number, block, shown, made) =
                decide_expired-IsExpired viem pins reader late current (Verdict.settles v) d in
              inr (
                current,
                number,
                block,
                found,
                pending,
                shown,
                written
                    ∙ ap (λ (w : Value). (release_expired_unopened viem w after).1)
                        (value_of v _ made),
              )
        ]

  -- `settleUnused` leaves the ledger as it is, or it makes one call of the ledger, and then: the
  -- allocation was pending, the gate had the reservation of its request at a block with its
  -- confirmations, released, unused, and revoked or past its end, neither the request nor the claim
  -- had been used there, and the block was still the one at its number when it was read again.
  pub settle_unused-IsReleased :
      (digest : Text) (late : Bool) (before after : Ledger)
      → ((settle_unused viem pins reader digest late before after).1 ≡ after)
        ⊎ ((current : Allocation) × (number : ℕ) × (block : Anchored) × (observed : State)
            × (allocation viem pins reader digest before ≡ ok current)
            × (is_pending current.state ≡ true)
            × IsReleased viem pins reader current.request number block observed
            × ((settle_unused viem pins reader digest late before after).1
                ≡ (release_unused viem
                    (unused_value current block number observed.reservation.revoked)
                    after).1))
  unfolding settle_unused
  settle_unused-IsReleased digest late before after =
      elim (performed Kind.unused
        (allocation viem pins reader digest before >>= λ current.
          if not (is_pending current.state)
          then if_settled Kind.unused current
          else decide_unused viem pins reader late current)
        after) [
          | inl same ↦ inl same
          | inr (v, decided, written) ↦
              let (current, found, h) =
                >>=-eq-ok (allocation viem pins reader digest before) _ decided in
              let (pending, d) =
                pending_verdict Kind.unused current (decide_unused viem pins reader late current) v
                  h in
              let (number, block, observed, shown, made) =
                decide_unused-IsReleased viem pins reader late current (Verdict.settles v) d in
              inr (
                current,
                number,
                block,
                observed,
                found,
                pending,
                shown,
                written ∙ ap (λ (w : Value). (release_unused viem w after).1) (value_of v _ made),
              )
        ]
