-- ===== src/Institution/Bridge.antt =====
-- packages/institution/src/chain-bridge.ts: the pins, the reader of the chain and what each
-- settlement asks of it.
pub mod Release
pub mod Shown
pub mod Settled
pub mod Guarded
mod Tests
use ultratokenizer.Base.{
  ℕ, ◌+◌, Text, codes, text_eq, big_int, Bool, true, false, not, ◌&&◌, ◌||◌, Option, none, some,
  Result, ok, err, ltb, leb, ◌==◌, length, if◌then◌else◌, ◌>>=◌, ◌>>◌, throw_if, or_throw, rethrow,
}
use ultratokenizer.Domain.Value.{Value, str, null}
use ultratokenizer.Domain.Viem.{Viem}
use ultratokenizer.Domain.Request.{
  IssuanceRequest, to_value, parse_issuance_request, get_issuance_request_digest,
}
use ultratokenizer.Institution.Fields.{hash}
use ultratokenizer.Institution.Types.{Allocation}
use ultratokenizer.Institution.Transaction.{Ledger}
use ultratokenizer.Institution.Allocations.{get_allocation}

pub data BridgeError : Type 0 where
  invalid_input unresolved mismatch terminal_conflict : BridgeError

abbrev pub BridgeResult : Type 0 → Type 0
BridgeResult A = Result BridgeError A

-- The pins that a settlement reads; `pinsFor` has checked them.
pub record Pins : Type 0 where
  pub chain_id : Text
  pub gate : Text
  pub gate_code_hash : Text
  pub deployment_block_number : Text
  pub deployment_block_hash : Text
  pub confirmations : ℕ

-- A block; number and hash are `none` where viem gives null.
pub record Block : Type 0 where
  pub number : Option ℕ
  pub hash : Option Text
  pub timestamp : ℕ

-- What the gate's `reservations` returns.
pub record Reservation : Type 0 where
  pub recipient : Text
  pub token : Text
  pub capacity : ℕ
  pub used : ℕ
  pub valid_until : ℕ
  pub revoked : Bool
  pub request_digest : Text
  pub claim_usage_id : Text
  pub released : Bool

-- The client of viem at each turn, `none` where a call throws. Calls that are made at once have one
-- turn; the chain may answer otherwise at another. `get_code` is `some none` for an address without
-- code.
pub record Reader : Type 0 where
  pub get_chain_id : ℕ → Option ℕ
  pub get_block_number : ℕ → Option ℕ
  pub get_block : ℕ → (number : ℕ) → Option Block
  pub get_code : ℕ → (address : Text) (number : ℕ) → Option (Option Text)
  pub reservations : ℕ → (issuer_id reservation_id : Text) (number : ℕ) → Option Reservation
  pub used_requests : ℕ → (digest : Text) (number : ℕ) → Option Bool
  pub used_claims : ℕ → (claim_usage_id : Text) (number : ℕ) → Option Bool
  pub keccak256 : Text → Text

-- `requireMatch`
abbrev pub require_match : Bool → BridgeResult (Unit {0})
require_match b = throw_if (not b) mismatch

-- What `guarded` makes of any other error.
abbrev pub or_unresolved : {A : Type 0} → Option A → BridgeResult A
or_unresolved o = or_throw o unresolved

unfoldable pub word : Value → BridgeResult Text
unfolding hash
word value = rethrow (hash value) invalid_input

-- A block that was checked.
pub record Anchored : Type 0 where
  pub block_hash : Text
  pub block_timestamp : ℕ

-- What the gate says of a request at a block.
pub record State : Type 0 where
  pub reservation : Reservation
  pub request_used : Bool
  pub claim_used : Bool

abbrev pub nullable : Option Text → Value
nullable none = null
nullable (some t) = str t

abbrev pub is_number : ℕ → Option ℕ → Bool
is_number n none = false
is_number n (some m) = m == n

abbrev pub is_hash_text : Text → Option Text → Bool
is_hash_text t none = false
is_hash_text t (some s) = text_eq s t

-- `expectedHash === undefined || expectedHash === hash`
abbrev pub is_expected : Option Text → Text → Bool
is_expected none hash = true
is_expected (some expected) hash = text_eq expected hash

module _ (viem : Viem) (pins : Pins) (reader : Reader) where
  -- `code && code !== '0x' && keccak256(code) === pins.gateCodeHash`
  abbrev pub is_gate_code : Option Text → Bool
  is_gate_code none = false
  is_gate_code (some code) =
      not (length code == 0)
      && not (text_eq code (codes "0x"))
      && text_eq (reader.keccak256 code) pins.gate_code_hash

  abbrev pub deployment_number : ℕ
  deployment_number = big_int pins.deployment_block_number

  abbrev pub is_anchored : ℕ → ℕ → ℕ → Block → Block → Option Text → Bool
  is_anchored number chain head block deployment code =
      chain == big_int pins.chain_id
      && is_number number block.number
      && leb deployment_number number
      && leb (number + pins.confirmations) (head + 1)
      && is_number deployment_number deployment.number
      && is_hash_text pins.deployment_block_hash deployment.hash
      && is_gate_code code

  unfoldable pub anchored : ℕ → ℕ → Option Text → BridgeResult Anchored
  unfolding word
  anchored turn number expected = do
    chain ← or_unresolved (reader.get_chain_id turn)
    head ← or_unresolved (reader.get_block_number turn)
    block ← or_unresolved (reader.get_block turn number)
    deployment ← or_unresolved (reader.get_block turn deployment_number)
    code ← or_unresolved (reader.get_code turn pins.gate number)
    require_match (is_anchored number chain head block deployment code)
    block_hash ← word (nullable block.hash)
    require_match (is_expected expected block_hash)
    ok (record { block_hash = block_hash; block_timestamp = block.timestamp })

  unfoldable pub state : ℕ → IssuanceRequest → ℕ → BridgeResult State
  unfolding get_issuance_request_digest
  state turn request number = do
    reservation ←
        or_unresolved (reader.reservations turn request.issuer_id request.reservation_id number)
    digest ← rethrow (get_issuance_request_digest viem (to_value request)) unresolved
    request_used ← or_unresolved (reader.used_requests turn digest number)
    claim_used ← or_unresolved (reader.used_claims turn request.claim_usage_id number)
    ok (record { reservation = reservation; request_used = request_used; claim_used = claim_used })

  -- `allocation`; what the ledger throws is caught by `guarded`.
  unfoldable pub allocation : Text → Ledger → BridgeResult Allocation
  unfolding word get_allocation parse_issuance_request get_issuance_request_digest
  allocation digest ledger = do
    key ← word (str digest)
    answer ← rethrow (get_allocation viem (str key) ledger).0 unresolved
    found ← or_throw answer invalid_input
    request ← rethrow (parse_issuance_request viem (to_value found.request)) unresolved
    made ← rethrow (get_issuance_request_digest viem (to_value request)) unresolved
    require_match (
        text_eq request.chain_id pins.chain_id
        && text_eq request.gate pins.gate
        && text_eq made found.request_digest)
    ok found

  unfoldable pub matching_reservation : IssuanceRequest → State → BridgeResult (Unit {0})
  unfolding get_issuance_request_digest
  matching_reservation request observed = do
    digest ← rethrow (get_issuance_request_digest viem (to_value request)) unresolved
    require_match (
        text_eq (viem.get_address observed.reservation.recipient) request.recipient
        && text_eq (viem.get_address observed.reservation.token) request.token
        && observed.reservation.capacity == big_int request.amount
        && leb (big_int request.valid_until) observed.reservation.valid_until
        && text_eq observed.reservation.request_digest digest
        && text_eq observed.reservation.claim_usage_id request.claim_usage_id)
