-- ===== src/Worker/Model.antt =====
-- workers/issuance/src/model.ts. Times are in milliseconds.
use ultratokenizer.Base.{
  ℕ, ◌-◌, ◌*◌, ◌^◌, min, Text, Bool, true, false, Option, List, ◌==◌, if◌then◌else◌,
}
use ultratokenizer.Domain.Request.{IssuanceRequest}

pub data PendingReason : Type 0 where
  not_indexed not_final rpc_unavailable : PendingReason

pub data RejectedReason : Type 0 where
  transaction_reverted issuance_mismatch gate_mismatch : RejectedReason

pub record Confirmation : Type 0 where
  pub block_number : Text
  pub block_hash : Text
  pub log_index : Text
  pub permit_digest : Text
  pub public_values_hash : Text
  pub program_vkey : Text

pub data Observation : Type 0 where
  pending : PendingReason → Observation
  rejected : RejectedReason → Observation
  confirmed : Confirmation → Observation

pub data RequestStatus : Type 0 where
  awaiting_submission submitted checking confirmed rejected : RequestStatus
  attention_required tracking_cancelled : RequestStatus

-- The constant `schemaVersion` is left out.
pub record RequestState : Type 0 where
  pub id : Text
  pub owner_id : Text
  pub request : IssuanceRequest
  pub status : RequestStatus
  pub revision : ℕ
  pub created_at : ℕ
  pub updated_at : ℕ
  pub transaction_hash : Option Text
  pub prior_transaction_hashes : List Text
  pub attempts : ℕ
  pub lease_id : Option Text
  pub lease_until : Option ℕ
  pub next_check_at : Option ℕ
  pub observation : Option Observation

pub record PublicRequestState : Type 0 where
  pub id : Text
  pub request : IssuanceRequest
  pub status : RequestStatus
  pub revision : ℕ
  pub created_at : ℕ
  pub updated_at : ℕ
  pub transaction_hash : Option Text
  pub prior_transaction_hashes : List Text
  pub attempts : ℕ
  pub next_check_at : Option ℕ
  pub observation : Option Observation

-- The owner and the lease are left out of what a caller sees.
unfoldable pub public_state : RequestState → PublicRequestState
public_state s = record {
  id = s.id;
  request = s.request;
  status = s.status;
  revision = s.revision;
  created_at = s.created_at;
  updated_at = s.updated_at;
  transaction_hash = s.transaction_hash;
  prior_transaction_hashes = s.prior_transaction_hashes;
  attempts = s.attempts;
  next_check_at = s.next_check_at;
  observation = s.observation;
}

-- `Math.min(5_000 * 2 ** Math.min(attempt - 1, 6), 300_000)`, where 2 ** -1 is a half.
unfoldable pub retry_delay : ℕ → ℕ
retry_delay attempt = if attempt == 0 then 2500 else min (5000 * 2 ^ min (attempt - 1) 6) 300000

abbrev pub max_observations : ℕ
max_observations = 24

abbrev pub lease_ms : ℕ
lease_ms = 90000

abbrev pub max_open_requests : ℕ
max_open_requests = 32

abbrev pub max_retained_requests : ℕ
max_retained_requests = 128

abbrev pub max_subject_open_requests : ℕ
max_subject_open_requests = 8

abbrev pub max_subject_retained_requests : ℕ
max_subject_retained_requests = 32

abbrev pub max_concurrent_observations : ℕ
max_concurrent_observations = 4

abbrev pub retention_ms : ℕ
retention_ms = 7 * 24 * 60 * 60 * 1000

-- `status !== 'confirmed' && status !== 'tracking_cancelled'`
abbrev pub is_open : RequestStatus → Bool
is_open RequestStatus.confirmed = false
is_open RequestStatus.tracking_cancelled = false
is_open _ = true
