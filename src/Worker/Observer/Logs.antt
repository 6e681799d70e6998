-- ===== src/Worker/Observer/Logs.antt =====
-- The loop of `observeIssuance` over the logs of a receipt.
use ultratokenizer.Base.{
  ℕ, Text, text_eq, lower, big_int, Bool, not, ◌&&◌, ◌||◌, List, [], ◌∷◌, ◌++◌, Option, none, some,
  Result, ok, err, ltb, ◌==◌, length, if◌then◌else◌, ◌>>=◌, ◌>>◌, throw_if, or_throw, decimal,
}
use ultratokenizer.Domain.Value.{Value, str, boolean, arr, items, Entry, get}
use ultratokenizer.Domain.Viem.{Viem}
use ultratokenizer.Domain.Fields.{is_bytes32}
use ultratokenizer.Domain.Request.{IssuanceRequest}
use ultratokenizer.Worker.Model.{
  PendingReason, not_final, rpc_unavailable, RejectedReason, issuance_mismatch, Confirmation,
}
use ultratokenizer.Worker.Observer.{is_hash, quantity, record_entries, is_hex_bytes}

-- `event.args`
pub record Issued : Type 0 where
  pub request_digest : Text
  pub request_id : Text
  pub claim_usage_id : Text
  pub issuer_id : Text
  pub reservation_id : Text
  pub token : Text
  pub recipient : Text
  pub milligrams : ℕ
  pub policy_version : ℕ
  pub rights_version : ℕ
  pub permit_digest : Text
  pub public_values_hash : Text
  pub program_vkey : Text

-- What else of viem is called: `keccak256`, `toEventSelector(issuanceEvent[0])`, and
-- `decodeEventLog` of that event, `none` where it throws.
pub record Abi : Type 0 where
  pub keccak256 : Text → Text
  pub issuance_topic : Text
  pub decode_issued : (data_ : Text) (topics : List Text) → Option Issued

-- `pending`, or a rejection that is returned by `terminal`.
pub data Stop : Type 0 where
  waits : PendingReason → Stop
  rejects : RejectedReason → Stop

-- The receipt of a transaction, with the block that it names.
pub record Receipt : Type 0 where
  pub entries : List Entry
  pub logs : List Value
  pub block_hash : Text
  pub block_number : ℕ

-- The same, with what else was read of the transaction.
pub record Anchor : Type 0 where
  pub receipt : List Entry
  pub logs : List Value
  pub block_hash : Text
  pub tag : Value
  pub block_number : ℕ
  pub transaction : Value
  pub code : Value

-- `throw`, inside the `try`.
abbrev pub thrown : Stop
thrown = waits rpc_unavailable

abbrev pub or_stop : {A : Type 0} → Option A → Result Stop A
or_stop o = or_throw o thrown

abbrev pub text_of : Value → Option Text
text_of (str t) = some t
text_of _ = none

abbrev pub boolean_of : Value → Option Bool
boolean_of (boolean b) = some b
boolean_of _ = none

abbrev pub array_of : Value → Option (List Value)
array_of (arr vs) = some (items vs)
array_of _ = none

abbrev pub hash_of : Value → Option Text
unfolding is_hash
hash_of v = if is_hash v then text_of v else none

-- Every topic is a string of 32 bytes.
abbrev pub topic_texts : List Value → Option (List Text)
topic_texts [] = some []
topic_texts (str t ∷ vs) = elim (topic_texts vs) [
  | none ↦ none
  | some ts ↦ if is_bytes32 t then some (t ∷ ts) else none
]
topic_texts (_ ∷ vs) = none

abbrev pub topics_of : Value → Option (List Text)
topics_of v = elim (array_of v) [
  | none ↦ none
  | some vs ↦ if length vs == 0 || ltb 4 (length vs) then none else topic_texts vs
]

abbrev pub first_topic : List Text → Text
first_topic [] = []
first_topic (t ∷ ts) = t

abbrev pub option_list : Option Confirmation → List Confirmation
option_list none = []
option_list (some c) = c ∷ []

abbrev pub only : List Confirmation → Result Stop Confirmation
only (c ∷ []) = ok c
only _ = err (rejects issuance_mismatch)

module _ (viem : Viem) (abi : Abi) (gate : Text) (request : IssuanceRequest) (digest hash : Text)
    (anchor : Anchor) where
  -- The fields of an event that have to be those of the request.
  unfoldable pub is_same_issuance : Issued → Bool
  is_same_issuance e =
      text_eq e.request_id request.request_id
      && text_eq e.claim_usage_id request.claim_usage_id
      && text_eq e.issuer_id request.issuer_id
      && text_eq e.reservation_id request.reservation_id
      && text_eq (lower e.token) (lower request.token)
      && text_eq (lower e.recipient) (lower request.recipient)
      && e.milligrams == big_int request.amount
      && e.policy_version == big_int request.policy_version
      && e.rights_version == big_int request.rights_version
      && is_hash (str e.permit_digest)
      && is_hash (str e.public_values_hash)
      && is_hash (str e.program_vkey)

  abbrev pub confirmation : Issued → ℕ → Confirmation
  confirmation e log_index = record {
    block_number = decimal anchor.block_number;
    block_hash = anchor.block_hash;
    log_index = decimal log_index;
    permit_digest = e.permit_digest;
    public_values_hash = e.public_values_hash;
    program_vkey = e.program_vkey;
  }

  -- An event of the gate with the digest of the request.
  unfoldable pub read_event : Text → Text → ℕ → ℕ → Issued → Result Stop Confirmation
  unfolding is_same_issuance
  read_event log_hash log_block log_number log_index e = do
    throw_if
        (not (
          text_eq log_hash hash
          && text_eq log_block anchor.block_hash
          && log_number == anchor.block_number
          && is_same_issuance e))
        (rejects issuance_mismatch)
    ok (confirmation e log_index)

  -- A log of the gate with the topic of the event.
  unfoldable pub read_issuance : List Entry → List Text → Text → Result Stop (Option Confirmation)
  unfolding read_event quantity is_hash
  read_issuance log topics data_ = do
    throw_if (not (length topics == 4) || not (length data_ == 642)) thrown
    log_hash ← or_stop (hash_of (get "transactionHash" log))
    log_block ← or_stop (hash_of (get "blockHash" log))
    removed ← or_stop (boolean_of (get "removed" log))
    log_number ← or_stop (quantity (get "blockNumber" log))
    log_index ← or_stop (quantity (get "logIndex" log))
    throw_if removed (waits not_final)
    e ← or_stop (abi.decode_issued data_ topics)
    (if not (text_eq e.request_digest digest)
        then ok none
        else read_event log_hash log_block log_number log_index e >>= λ c. ok (some c))

  -- A log of the gate.
  unfoldable pub read_gate_log : List Entry → Result Stop (Option Confirmation)
  unfolding read_issuance is_hex_bytes is_bytes32
  read_gate_log log = do
    topics ← or_stop (topics_of (get "topics" log))
    data_ ← or_stop (text_of (get "data" log))
    throw_if (not (is_hex_bytes data_)) thrown
    (if not (text_eq (lower (first_topic topics)) abi.issuance_topic)
        then ok none
        else read_issuance log topics data_)

  -- One round: `none` where it continues without a match.
  unfoldable pub read_log : Value → Result Stop (Option Confirmation)
  unfolding read_gate_log
  read_log value = do
    log ← or_stop (record_entries value)
    address ← or_stop (text_of (get "address" log))
    throw_if (not (viem.is_address address)) thrown
    (if not (text_eq (lower address) (lower gate)) then ok none else read_gate_log log)

  -- `matches`
  unfoldable pub read_logs : List Value → Result Stop (List Confirmation)
  unfolding read_log
  read_logs [] = ok []
  read_logs (log ∷ logs) = do
    first ← read_log log
    rest ← read_logs logs
    ok (option_list first ++ rest)
