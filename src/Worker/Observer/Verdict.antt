-- ===== src/Worker/Observer/Verdict.antt =====
-- What `observeIssuance` returns, and what the coordinator does with it.
use ultratokenizer.Base.{
  Text, text_eq, text_eq_iff, lower, Bool, true, false, not, ◌||◌, ◌≡◌, ◌⊎◌, inl, inr, refl, Option,
  some, Result, ok, err, if◌then◌else◌, >>=-eq-ok, arith,
}
use ultratokenizer.Domain.Value.{str}
use ultratokenizer.Domain.Viem.{Viem}
use ultratokenizer.Domain.Request.{IssuanceRequest}
use ultratokenizer.Worker.Errors.{Response}
use ultratokenizer.Worker.Model.{
  PendingReason, RejectedReason, gate_mismatch, Confirmation, Observation,
}
use ultratokenizer.Worker.Observer.{
  ChainConfiguration, Url, is_valid_configuration, validate_chain_configuration, Node, is_hash,
}
use ultratokenizer.Worker.Observer.Logs.{Abi, Anchor, Stop, waits, rejects}
use ultratokenizer.Worker.Observer.Observe.{
  find_anchor, recheck, terminal, conclude, observe_anchor, observe_issuance,
}
use ultratokenizer.Worker.Observer.Sound.{
  IsAnchored, IsRead, recheck-IsAnchored, find_anchor-IsRead,
}
use ultratokenizer.Worker.Observer.Confirmed.{
  IsPinned, valid-IsConfigured, IsShown, observe_anchor-IsShown, validated,
}

-- The request is not for this chain and gate, or the hash is none.
abbrev pub is_elsewhere : ChainConfiguration → IssuanceRequest → Text → Bool
is_elsewhere config request hash =
    not (text_eq request.chain_id config.chain_id)
    || not (text_eq (lower request.gate) (lower config.gate))
    || not (is_hash (str hash))

here : (a b c : Bool) → (not a || not b || not c) ≡ false → (a ≡ true) × (b ≡ true)
here a b c h = ground (arith, h)

module _ (viem : Viem) (abi : Abi) (config : ChainConfiguration) (node : Node)
    (request : IssuanceRequest) (hash : Text) where
  chosen :
      (b : Bool) (o : Observation) (verdict : Observation)
      → ◌≡◌ {A = Response Observation}
          (if b then ok (Observation.rejected gate_mismatch) else ok o)
          (ok verdict)
      → ((b ≡ true) × (verdict ≡ Observation.rejected gate_mismatch))
        ⊎ ((b ≡ false) × (o ≡ verdict))
  chosen true o verdict h = inl (refl, ground (arith, h))
  chosen false o verdict h = inr (refl, ground (arith, h))

  returned :
      (url : Option Url) (verdict : Observation)
      → observe_issuance viem abi config node request hash url ≡ ok verdict
      → (parsed : Url) × (url ≡ some parsed)
        × (is_valid_configuration viem config parsed ≡ true)
        × (((is_elsewhere config request hash ≡ true)
              × (verdict ≡ Observation.rejected gate_mismatch))
            ⊎ ((is_elsewhere config request hash ≡ false)
                × (observe_anchor viem abi config node request hash
                      (find_anchor viem abi config node request hash)
                    ≡ verdict)))
  unfolding observe_issuance
  returned url verdict h =
      let (u, valid, rest) = >>=-eq-ok (validate_chain_configuration viem config url) _ h in
      let (parsed, has_url, is_valid) = validated viem abi config node request hash url valid in
      (parsed, has_url, is_valid, chosen (is_elsewhere config request hash) _ verdict rest)

  -- An issuance is confirmed only if the configuration is valid and for the chain and the gate of the
  -- request; the node has the transaction, with a successful receipt, in a block that was final when
  -- it was read and still is after everything else was read, on the configured chain; the code of
  -- the gate is the pinned one; and exactly one log of the receipt is the event of the gate about
  -- this request, from which the confirmation is made, every other log being of another contract,
  -- another event or another request.
  pub observe_issuance-IsShown :
      (url : Option Url) (c : Confirmation)
      → observe_issuance viem abi config node request hash url ≡ ok (Observation.confirmed c)
      → IsPinned viem config url request × IsShown viem abi config node request hash c
  observe_issuance-IsShown url c h =
      let (parsed, has_url, is_valid, which) = returned url (Observation.confirmed c) h in
      elim which [
        | inl (away, wrong) ↦ absurd (cc)
        | inr (at_home, o) ↦
            let (chain, gate) = here _ _ _ at_home in
            (
              record {
                parsed = parsed;
                has_url = has_url;
                is_valid = valid-IsConfigured viem config parsed is_valid;
                chain_id = (text_eq_iff _ _).0 chain;
                gate = (text_eq_iff _ _).0 gate;
              },
              observe_anchor-IsShown viem abi config node request hash
                  (find_anchor viem abi config node request hash) c refl o,
            )
      ]

  terminal-rejected :
      (o : Observation) (r : Result PendingReason (Unit {0})) (reason : RejectedReason)
      → terminal viem abi config node request hash o r ≡ Observation.rejected reason
      → r ≡ ok tt
  terminal-rejected o (err reason) c h = cc
  terminal-rejected o (ok done) c h = refl

  conclude-rejected :
      (anchor : Anchor) (r : Result Stop Confirmation) (reason : RejectedReason)
      → conclude viem abi config node request hash anchor r ≡ Observation.rejected reason
      → recheck viem abi config node request hash anchor ≡ ok tt
  unfolding conclude
  conclude-rejected anchor (err (waits p)) reason h = cc
  conclude-rejected anchor (err (rejects p)) reason h =
      terminal-rejected (Observation.rejected p) _ reason h
  conclude-rejected anchor (ok a) reason h = terminal-rejected (Observation.confirmed a) _ reason h

  rejected-IsAnchored :
      (r : Result PendingReason Anchor) (reason : RejectedReason)
      → find_anchor viem abi config node request hash ≡ r
      → observe_anchor viem abi config node request hash r ≡ Observation.rejected reason
      → (anchor : Anchor) × IsRead config node hash anchor × IsAnchored config node 3 anchor
  unfolding observe_anchor
  rejected-IsAnchored (err p) reason e h = cc
  rejected-IsAnchored (ok anchor) reason e h = (
    anchor,
    find_anchor-IsRead viem abi config node request hash anchor e,
    recheck-IsAnchored viem abi config node request hash anchor
        (conclude-rejected anchor _ reason h),
  )

  -- A rejection is either of a request that is not for the configured chain and gate, or of a text
  -- that is no hash; or it stands on a receipt of the transaction whose block was final when it was
  -- read, and still is after everything else was read.
  pub observe_issuance-IsAnchored :
      (url : Option Url) (reason : RejectedReason)
      → observe_issuance viem abi config node request hash url ≡ ok (Observation.rejected reason)
      → ((is_elsewhere config request hash ≡ true) × (reason ≡ gate_mismatch))
        ⊎ ((anchor : Anchor) × IsRead config node hash anchor × IsAnchored config node 3 anchor)
  observe_issuance-IsAnchored url reason h =
      let (parsed, has_url, is_valid, which) = returned url (Observation.rejected reason) h in
      elim which [
        | inl (away, wrong) ↦ inl (away, ground (arith, wrong))
        | inr (at_home, o) ↦
            inr (rejected-IsAnchored (find_anchor viem abi config node request hash) reason refl o)
      ]
