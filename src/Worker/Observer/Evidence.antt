-- ===== src/Worker/Observer/Evidence.antt =====
-- What a log has to say for `observeIssuance` to count it, and what for it to be passed over.
use ultratokenizer.Base.{ℕ, Text, lower, big_int, false, ◌≡◌, ◌≢◌, List, ◌∷◌, some, All}
use ultratokenizer.Domain.Value.{Value, str, boolean, Entry, get}
use ultratokenizer.Domain.Request.{IssuanceRequest}
use ultratokenizer.Worker.Model.{Confirmation}
use ultratokenizer.Worker.Observer.{quantity, record_entries}
use ultratokenizer.Worker.Observer.Logs.{Issued, Abi, Anchor, topics_of, first_topic}

-- An event about the request, with all that it says.
pub record IsAbout (request : IssuanceRequest) (digest : Text) (e : Issued) : Type 0 where
  pub request_digest : e.request_digest ≡ digest
  pub request_id : e.request_id ≡ request.request_id
  pub claim_usage_id : e.claim_usage_id ≡ request.claim_usage_id
  pub issuer_id : e.issuer_id ≡ request.issuer_id
  pub reservation_id : e.reservation_id ≡ request.reservation_id
  pub token : lower e.token ≡ lower request.token
  pub recipient : lower e.recipient ≡ lower request.recipient
  pub milligrams : e.milligrams ≡ big_int request.amount
  pub policy_version : e.policy_version ≡ big_int request.policy_version
  pub rights_version : e.rights_version ≡ big_int request.rights_version

-- A log of the gate in the block of the receipt, with such an event.
pub record IsIssuance (abi : Abi) (gate : Text) (request : IssuanceRequest) (digest hash : Text)
    (anchor : Anchor) (log : Value) (c : Confirmation) : Type 0 where
  pub entries : List Entry
  pub is_record : record_entries log ≡ some entries
  pub address : Text
  pub has_address : get "address" entries ≡ str address
  pub at_gate : lower address ≡ lower gate
  pub topics : List Text
  pub has_topics : topics_of (get "topics" entries) ≡ some topics
  pub has_topic : lower (first_topic topics) ≡ abi.issuance_topic
  pub data_ : Text
  pub has_data : get "data" entries ≡ str data_
  pub is_kept : get "removed" entries ≡ boolean false
  pub of_transaction : get "transactionHash" entries ≡ str hash
  pub of_block : get "blockHash" entries ≡ str anchor.block_hash
  pub of_number : quantity (get "blockNumber" entries) ≡ some anchor.block_number
  pub index : ℕ
  pub has_index : quantity (get "logIndex" entries) ≡ some index
  pub event : Issued
  pub has_event : abi.decode_issued data_ topics ≡ some event
  pub about : IsAbout request digest event
  pub block_number : big_int c.block_number ≡ anchor.block_number
  pub block_hash : c.block_hash ≡ anchor.block_hash
  pub log_index : big_int c.log_index ≡ index
  pub permit_digest : c.permit_digest ≡ event.permit_digest
  pub public_values_hash : c.public_values_hash ≡ event.public_values_hash
  pub program_vkey : c.program_vkey ≡ event.program_vkey

-- A log of another contract, of another event, or about another request.
pub data IsOther (abi : Abi) (gate digest : Text) (log : Value) : Type 0 where
  other_contract :
      (entries : List Entry) (address : Text)
      → record_entries log ≡ some entries
      → get "address" entries ≡ str address
      → lower address ≢ lower gate
      → IsOther abi gate digest log
  other_event :
      (entries : List Entry) (topics : List Text)
      → record_entries log ≡ some entries
      → topics_of (get "topics" entries) ≡ some topics
      → lower (first_topic topics) ≢ abi.issuance_topic
      → IsOther abi gate digest log
  other_request :
      (entries : List Entry) (topics : List Text) (data_ : Text) (e : Issued)
      → record_entries log ≡ some entries
      → topics_of (get "topics" entries) ≡ some topics
      → get "data" entries ≡ str data_
      → abi.decode_issued data_ topics ≡ some e
      → e.request_digest ≢ digest
      → IsOther abi gate digest log

-- One log is counted, and the others are passed over.
pub data ExactlyOne (abi : Abi) (gate : Text) (request : IssuanceRequest) (digest hash : Text)
    (anchor : Anchor) (c : Confirmation) : List Value → Type 0 where
  this :
      {log : Value} {logs : List Value}
      → IsIssuance abi gate request digest hash anchor log c
      → All (IsOther abi gate digest) logs
      → ExactlyOne abi gate request digest hash anchor c (log ∷ logs)
  later :
      {log : Value} {logs : List Value}
      → IsOther abi gate digest log
      → ExactlyOne abi gate request digest hash anchor c logs
      → ExactlyOne abi gate request digest hash anchor c (log ∷ logs)
