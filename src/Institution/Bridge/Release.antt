-- ===== src/Institution/Bridge/Release.antt =====
-- `settleExpiredUnopened` and `settleUnused` of packages/institution/src/chain-bridge.ts. Between the
-- reads of the chain and the settlement other calls of the ledger may come: the allocation is read
-- from the ledger `before`, and settled in the ledger `after`.
use ultratokenizer.Base.{
  ℕ, ◌+◌, ◌-◌, String, Text, codes, text_eq, big_int, decimal, Bool, true, false, not, ◌&&◌, ◌||◌,
  Option, none, some, ok, err, leb, ◌==◌, if◌then◌else◌, ◌>>=◌, ◌>>◌, throw_if, rethrow,
}
use ultratokenizer.Domain.Value.{Value, str, boolean, obj, object_prototype, Props, prop, end, name}
use ultratokenizer.Domain.Viem.{Viem, zero_address}
use ultratokenizer.Institution.Types.{Allocation, Observation, Outcome, is_pending}
use ultratokenizer.Institution.Outcomes.{Kind}
use ultratokenizer.Institution.Transaction.{Ledger}
use ultratokenizer.Institution.Allocations.{settle}
use ultratokenizer.Institution.Bridge.{
  BridgeResult, unresolved, terminal_conflict, Pins, Reader, Anchored, State, require_match,
  or_unresolved, deployment_number, anchored, state, allocation, matching_reservation,
}

abbrev pub zero_hash : Text
zero_hash = codes "0x0000000000000000000000000000000000000000000000000000000000000000"

-- A settlement that is there already, or one that is to be written.
pub data Verdict : Type 0 where
  settled : Allocation → Verdict
  settles : (observation : Value) → Verdict

abbrev pub is_kind : Kind → Outcome → Bool
is_kind Kind.issued (Outcome.issued t) = true
is_kind Kind.unused (Outcome.unused r) = true
is_kind Kind.expired_unopened (Outcome.expired_unopened t) = true
is_kind _ _ = false

abbrev pub has_kind : Kind → Option Observation → Bool
has_kind kind none = false
has_kind kind (some o) = is_kind kind o.outcome

-- An allocation that is no longer pending: its own outcome is repeated, any other is a conflict.
abbrev pub if_settled : Kind → Allocation → BridgeResult Verdict
if_settled kind current =
    if has_kind kind current.observation
    then ok (Verdict.settled current)
    else err terminal_conflict

unfoldable pub is_absent : State → Bool
is_absent observed =
    text_eq observed.reservation.recipient zero_address
    && text_eq observed.reservation.token zero_address
    && observed.reservation.capacity == 0
    && observed.reservation.used == 0
    && observed.reservation.valid_until == 0
    && not observed.reservation.revoked
    && text_eq observed.reservation.request_digest zero_hash
    && text_eq observed.reservation.claim_usage_id zero_hash
    && not observed.reservation.released
    && not observed.request_used
    && not observed.claim_used

-- The reservation was released without use, after its revocation or its end.
unfoldable pub is_unused : State → ℕ → Bool
is_unused observed timestamp =
    observed.reservation.released
    && observed.reservation.used == 0
    && not observed.request_used
    && not observed.claim_used
    && (observed.reservation.revoked || leb observed.reservation.valid_until timestamp)

abbrev pub field : String → Text → Props → Props
field key t ps = prop (name key) false (str t) ps

abbrev pub flag : String → Bool → Props → Props
flag key b ps = prop (name key) false (boolean b) ps

-- The fields that both observations share.
abbrev pub common : String → Allocation → Anchored → ℕ → Props → Props
common kind current block number ps = field "kind" (codes kind) (
    field "requestDigest" current.request_digest (
      field "chainId" current.request.chain_id (
        field "gate" current.request.gate (
          field "reservationId" current.request.reservation_id (
            field "claimUsageId" current.request.claim_usage_id
              (field "blockHash" block.block_hash (field "blockNumber" (decimal number) ps)))))))

abbrev pub expired_value : Allocation → Anchored → ℕ → Value
expired_value current block number = obj object_prototype (
    common "expired-unopened" current block number (
      field "blockTimestamp" (decimal block.block_timestamp)
        (flag "reservationAbsent" true (flag "requestUsed" false (flag "claimUsed" false end)))))

abbrev pub reason_text : Bool → Text
reason_text revoked = if revoked then codes "revoked-unused" else codes "expired-unused"

abbrev pub unused_value : Allocation → Anchored → ℕ → Bool → Value
unused_value current block number revoked = obj object_prototype (
    common "unused" current block number (
      field "reason" (reason_text revoked) (
        flag "reservationReleased" true (
          field "reservationUsed" (codes "0")
            (flag "requestUsed" false (flag "claimUsed" false end))))))

module _ (viem : Viem) (pins : Pins) (reader : Reader) where
  -- The last block that has its confirmations, no earlier than the deployment.
  unfoldable pub confirmed_number : BridgeResult ℕ
  confirmed_number = do
    head ← or_unresolved (reader.get_block_number 0)
    require_match (leb (deployment_number viem pins reader + pins.confirmations) (head + 1))
    ok (head + 1 - pins.confirmations)

  -- `late` is what `withinDeadline` finds.
  unfoldable pub decide_expired : Bool → Allocation → BridgeResult Verdict
  unfolding confirmed_number anchored state is_absent
  decide_expired late current = do
    number ← confirmed_number
    block ← anchored viem pins reader 1 number none
    require_match (leb (big_int current.request.valid_until) block.block_timestamp)
    observed ← state viem pins reader 2 current.request number
    require_match (is_absent observed)
    again ← anchored viem pins reader 3 number (some block.block_hash)
    require_match (again.block_timestamp == block.block_timestamp)
    throw_if late unresolved
    ok (Verdict.settles (expired_value current block number))

  unfoldable pub decide_unused : Bool → Allocation → BridgeResult Verdict
  unfolding confirmed_number anchored state matching_reservation is_unused
  decide_unused late current = do
    number ← confirmed_number
    block ← anchored viem pins reader 1 number none
    observed ← state viem pins reader 2 current.request number
    matching_reservation viem pins reader current.request observed
    require_match (is_unused observed block.block_timestamp)
    again ← anchored viem pins reader 3 number (some block.block_hash)
    throw_if late unresolved
    ok (Verdict.settles (unused_value current block number observed.reservation.revoked))

  -- What the ledger throws is `unresolved`.
  abbrev pub perform : Kind → BridgeResult Verdict → Ledger → BridgeResult Allocation × Ledger
  perform kind (err e) after = (err e, after)
  perform kind (ok (Verdict.settled current)) after = (ok current, after)
  perform kind (ok (Verdict.settles observation)) after =
      let called = settle viem kind observation after in (rethrow called.0 unresolved, called.1)

  unfoldable pub settle_expired_unopened :
      Text → Bool → Ledger → Ledger → BridgeResult Allocation × Ledger
  unfolding allocation decide_expired settle
  settle_expired_unopened digest late before after =
      perform Kind.expired_unopened
        (allocation viem pins reader digest before >>= λ current.
          if not (is_pending current.state)
          then if_settled Kind.expired_unopened current
          else decide_expired late current)
        after

  unfoldable pub settle_unused : Text → Bool → Ledger → Ledger → BridgeResult Allocation × Ledger
  unfolding allocation decide_unused settle
  settle_unused digest late before after =
      perform Kind.unused
        (allocation viem pins reader digest before >>= λ current.
          if not (is_pending current.state)
          then if_settled Kind.unused current
          else decide_unused late current)
        after
