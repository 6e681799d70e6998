-- ===== src/Institution/Bridge/Shown.antt =====
-- What the chain has shown when the bridge releases an allocation.
use ultratokenizer.Base.{ℕ, ◌+◌, ◌≤◌, Text, big_int, true, false, ◌≡◌, some, ok, ◌⊎◌}
use ultratokenizer.Domain.Viem.{Viem, zero_address}
use ultratokenizer.Domain.Request.{IssuanceRequest, to_value, get_issuance_request_digest}
use ultratokenizer.Institution.Bridge.{
  Reservation, Pins, Block, Reader, Anchored, State, word, nullable, deployment_number,
}
use ultratokenizer.Institution.Bridge.Release.{zero_hash}

-- A block that the chain of the pins had at a turn, with the confirmations of the pins, above the
-- deployment of the pins, and with the code of the gate.
pub record IsPinned (viem : Viem) (pins : Pins) (reader : Reader) (turn number : ℕ) (a : Anchored)
    : Type 0 where
  pub on_chain : reader.get_chain_id turn ≡ some (big_int pins.chain_id)
  pub head : ℕ
  pub has_head : reader.get_block_number turn ≡ some head
  pub is_deep : number + pins.confirmations ≤ head + 1
  pub block : Block
  pub has_block : reader.get_block turn number ≡ some block
  pub of_number : block.number ≡ some number
  pub of_hash : word (nullable block.hash) ≡ ok a.block_hash
  pub of_time : block.timestamp ≡ a.block_timestamp
  pub is_after : deployment_number viem pins reader ≤ number
  pub deployment : Block
  pub has_deployment : reader.get_block turn (deployment_number viem pins reader) ≡ some deployment
  pub deployment_hash : deployment.hash ≡ some pins.deployment_block_hash
  pub code : Text
  pub has_code : reader.get_code turn pins.gate number ≡ some (some code)
  pub is_gate : reader.keccak256 code ≡ pins.gate_code_hash

-- The gate's answers about a request at a block.
pub record IsAnswered (viem : Viem) (reader : Reader) (turn : ℕ) (request : IssuanceRequest)
    (number : ℕ) (observed : State) : Type 0 where
  pub has_reservation :
      reader.reservations turn request.issuer_id request.reservation_id number
      ≡ some observed.reservation
  pub digest : Text
  pub has_digest : get_issuance_request_digest viem (to_value request) ≡ ok digest
  pub has_request : reader.used_requests turn digest number ≡ some observed.request_used
  pub has_claim : reader.used_claims turn request.claim_usage_id number ≡ some observed.claim_used

-- The gate has no reservation, and neither the request nor the claim was used.
pub record IsAbsent (observed : State) : Type 0 where
  pub recipient : observed.reservation.recipient ≡ zero_address
  pub token : observed.reservation.token ≡ zero_address
  pub capacity : observed.reservation.capacity ≡ 0
  pub used : observed.reservation.used ≡ 0
  pub valid_until : observed.reservation.valid_until ≡ 0
  pub revoked : observed.reservation.revoked ≡ false
  pub request_digest : observed.reservation.request_digest ≡ zero_hash
  pub claim_usage_id : observed.reservation.claim_usage_id ≡ zero_hash
  pub released : observed.reservation.released ≡ false
  pub request_used : observed.request_used ≡ false
  pub claim_used : observed.claim_used ≡ false

-- The reservation was released without use, after it was revoked or its end had passed.
pub record IsUnused (observed : State) (timestamp : ℕ) : Type 0 where
  pub released : observed.reservation.released ≡ true
  pub used : observed.reservation.used ≡ 0
  pub request_used : observed.request_used ≡ false
  pub claim_used : observed.claim_used ≡ false
  pub is_over :
      (observed.reservation.revoked ≡ true) ⊎ (observed.reservation.valid_until ≤ timestamp)

-- A reservation for just this request.
pub record IsOfRequest (viem : Viem) (request : IssuanceRequest) (reservation : Reservation)
    : Type 0 where
  pub recipient : viem.get_address reservation.recipient ≡ request.recipient
  pub token : viem.get_address reservation.token ≡ request.token
  pub capacity : reservation.capacity ≡ big_int request.amount
  pub lasts : big_int request.valid_until ≤ reservation.valid_until
  pub digest : get_issuance_request_digest viem (to_value request) ≡ ok reservation.request_digest
  pub claim_usage_id : reservation.claim_usage_id ≡ request.claim_usage_id

-- What `settleExpiredUnopened` stands on.
pub record IsExpired (viem : Viem) (pins : Pins) (reader : Reader) (request : IssuanceRequest)
    (number : ℕ) (block : Anchored) : Type 0 where
  pub first : IsPinned viem pins reader 1 number block
  pub again : IsPinned viem pins reader 3 number block
  pub is_over : big_int request.valid_until ≤ block.block_timestamp
  pub observed : State
  pub answered : IsAnswered viem reader 2 request number observed
  pub absent : IsAbsent observed

-- What `settleUnused` stands on; the second look may have another time.
pub record IsReleased (viem : Viem) (pins : Pins) (reader : Reader) (request : IssuanceRequest)
    (number : ℕ) (block : Anchored) (observed : State) : Type 0 where
  pub first : IsPinned viem pins reader 1 number block
  pub last : Anchored
  pub again : IsPinned viem pins reader 3 number last
  pub same_block : last.block_hash ≡ block.block_hash
  pub answered : IsAnswered viem reader 2 request number observed
  pub of_request : IsOfRequest viem request observed.reservation
  pub unused : IsUnused observed block.block_timestamp
