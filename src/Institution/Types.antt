-- ===== src/Institution/Types.antt =====
-- packages/institution/src/types.ts, and the rows of the three tables.
use ultratokenizer.Base.{ℕ, Text, Bool, true, false, Option, List}
use ultratokenizer.Domain.Request.{IssuanceRequest}

pub data RightState : Type 0 where
  available pending issued : RightState

pub data AllocationState : Type 0 where
  pending issued released : AllocationState

pub record InstitutionRight : Type 0 where
  pub right_id : Text
  pub source_id : Text
  pub claim_usage_id : Text
  pub holder : Text
  pub milligrams : Text
  pub state : RightState

pub record RegisterRightInput : Type 0 where
  pub source_id : Text
  pub record_reference : Text
  pub holder : Text
  pub milligrams : Text

-- `pending` and `outstanding` are written in decimals by the source, and read by `BigInt`.
pub record BackingPool : Type 0 where
  pub issuer_id : Text
  pub token : Text
  pub cap : Text
  pub pending : ℕ
  pub outstanding : ℕ

pub record ChainObservation : Type 0 where
  pub request_digest : Text
  pub chain_id : Text
  pub gate : Text
  pub reservation_id : Text
  pub claim_usage_id : Text
  pub block_hash : Text
  pub block_number : Text

pub data Reason : Type 0 where
  revoked_unused expired_unused : Reason

-- The kinds of an observation, with the fields that are no constants.
pub data Outcome : Type 0 where
  issued : (transaction_hash : Text) → Outcome
  unused : Reason → Outcome
  expired_unopened : (block_timestamp : Text) → Outcome

pub record Observation : Type 0 where
  pub common : ChainObservation
  pub outcome : Outcome

pub record Allocation : Type 0 where
  pub right_id : Text
  pub request_digest : Text
  pub request : IssuanceRequest
  pub state : AllocationState
  pub observation : Option Observation

-- A row of `asset_rights`.
pub record RightRow : Type 0 where
  pub right_id : Text
  pub source_id : Text
  pub record_reference : Text
  pub claim_id : Text
  pub claim_usage_id : Text
  pub holder : Text
  pub milligrams : Text

-- A row of `backing_pools`.
pub record PoolRow : Type 0 where
  pub issuer_id : Text
  pub token : Text
  pub cap : Text

-- A row of `allocations`; the two JSON texts are kept as the values that they write.
pub record AllocationRow : Type 0 where
  pub request_digest : Text
  pub right_id : Text
  pub issuer_id : Text
  pub token : Text
  pub chain_id : Text
  pub gate : Text
  pub request_id : Text
  pub recipient : Text
  pub holder_nonce : Text
  pub reservation_id : Text
  pub milligrams : Text
  pub request : IssuanceRequest
  pub state : AllocationState
  pub observation : Option Observation

pub record Store : Type 0 where
  pub rights : List RightRow
  pub pools : List PoolRow
  pub allocations : List AllocationRow

-- `state IN ('pending','issued')`
abbrev pub is_live : AllocationState → Bool
is_live pending = true
is_live issued = true
is_live released = false

abbrev pub is_pending : AllocationState → Bool
is_pending pending = true
is_pending _ = false
