-- ===== src/Worker/Observer/Observe.antt =====
-- `observeIssuance` of workers/issuance/src/chain-observer.ts.
use ultratokenizer.Base.{
  ℕ, ◌+◌, Text, codes, text_eq, lower, big_int, Bool, true, false, not, ◌&&◌, ◌||◌, List, Option,
  Result, ok, err, ltb, ◌==◌, length, if◌then◌else◌, ◌>>=◌, ◌>>◌, throw_if, or_throw, rethrow,
}
use ultratokenizer.Domain.Value.{Value, str, null, undefined, Entry, get}
use ultratokenizer.Domain.Viem.{Viem}
use ultratokenizer.Domain.Request.{IssuanceRequest, to_value, get_issuance_request_digest}
use ultratokenizer.Worker.Errors.{Response}
use ultratokenizer.Worker.Model.{
  PendingReason, not_indexed, not_final, rpc_unavailable, transaction_reverted, gate_mismatch,
  Confirmation, Observation,
}
use ultratokenizer.Worker.Observer.{
  ChainConfiguration, Url, validate_chain_configuration, Node, Method, eth_chain_id,
  eth_block_number, eth_get_transaction_receipt, eth_get_transaction_by_hash,
  eth_get_block_by_number, eth_get_code, rpc, is_hash, quantity, depth, is_text, record_entries,
  is_hex_bytes, is_nonzero_address,
}
use ultratokenizer.Worker.Observer.Logs.{
  Abi, Receipt, Anchor, Stop, waits, rejects, thrown, or_stop, text_of, array_of, hash_of,
  read_logs, only,
}

abbrev pub or_wait : {A : Type 0} → Option A → Result PendingReason A
or_wait o = or_throw o rpc_unavailable

abbrev pub is_null : Value → Bool
is_null null = true
is_null _ = false

-- `value === undefined || value === null`
abbrev pub is_absent : Value → Bool
is_absent null = true
is_absent undefined = true
is_absent _ = false

module _ (viem : Viem) (abi : Abi) (config : ChainConfiguration) (node : Node)
    (request : IssuanceRequest) (hash : Text) where
  abbrev pub ask : ℕ → Method → Result PendingReason Value
  ask turn method = or_wait (rpc node turn method)

  -- A block that the node still has at its number, with `config.confirmations` on it.
  unfoldable pub is_final : Text → ℕ → Value → Value → Result PendingReason (Unit {0})
  unfolding quantity
  is_final block_hash block_number block head = do
    es ← or_throw (record_entries block) not_final
    throw_if (not (is_text block_hash (get "hash" es))) not_final
    number ← or_wait (quantity (get "number" es))
    throw_if (not (number == block_number)) not_final
    latest ← or_wait (quantity head)
    throw_if (ltb latest (block_number + depth config)) not_final

  abbrev pub receipt_of : Value → Result PendingReason (List Entry)
  receipt_of null = err not_indexed
  receipt_of value = or_wait (record_entries value)

  unfoldable pub find_receipt : Result PendingReason Receipt
  unfolding is_hash quantity
  find_receipt = do
    chain ← ask 0 eth_chain_id
    chain_id ← or_wait (quantity chain)
    throw_if (not (chain_id == big_int config.chain_id)) rpc_unavailable
    answer ← ask 1 (eth_get_transaction_receipt hash)
    receipt ← receipt_of answer
    throw_if (not (is_text hash (get "transactionHash" receipt))) rpc_unavailable
    block_hash ← or_wait (hash_of (get "blockHash" receipt))
    logs ← or_wait (array_of (get "logs" receipt))
    block_number ← or_wait (quantity (get "blockNumber" receipt))
    ok (record {
      entries = receipt;
      logs = logs;
      block_hash = block_hash;
      block_number = block_number;
    })

  -- What the node has of the block of the receipt, and of the transaction, read at once.
  unfoldable pub find_block : Receipt → Result PendingReason Anchor
  unfolding is_final
  find_block receipt = do
    let tag = get "blockNumber" receipt.entries
    block ← ask 2 (eth_get_block_by_number tag)
    latest ← ask 2 eth_block_number
    transaction ← ask 2 (eth_get_transaction_by_hash hash)
    code ← ask 2 (eth_get_code config.gate tag)
    is_final receipt.block_hash receipt.block_number block latest
    ok (record {
      receipt = receipt.entries;
      logs = receipt.logs;
      block_hash = receipt.block_hash;
      tag = tag;
      block_number = receipt.block_number;
      transaction = transaction;
      code = code;
    })

  -- As far as the first `not_final`.
  unfoldable pub find_anchor : Result PendingReason Anchor
  unfolding find_receipt find_block
  find_anchor = find_receipt >>= λ receipt. find_block receipt

  -- The check of the anchor in `terminal`, after everything else was read.
  unfoldable pub recheck : Anchor → Result PendingReason (Unit {0})
  unfolding is_final quantity
  recheck anchor = do
    canonical ← ask 3 (eth_get_block_by_number anchor.tag)
    chain ← ask 3 eth_chain_id
    head ← ask 3 eth_block_number
    chain_id ← or_wait (quantity chain)
    throw_if (not (chain_id == big_int config.chain_id)) rpc_unavailable
    is_final anchor.block_hash anchor.block_number canonical head

  abbrev pub transaction_of : Value → Result Stop (List Entry)
  transaction_of null = err (waits not_indexed)
  transaction_of value = or_stop (record_entries value)

  -- The transaction is the one that was asked for, in the block of its receipt.
  unfoldable pub check_transaction : Anchor → Result Stop (List Entry)
  unfolding is_hash quantity
  check_transaction anchor = do
    transaction ← transaction_of anchor.transaction
    found ← or_stop (hash_of (get "hash" transaction))
    block_hash ← or_stop (hash_of (get "blockHash" transaction))
    throw_if (not (text_eq found hash)) thrown
    throw_if (not (text_eq block_hash anchor.block_hash)) (waits not_final)
    number ← or_stop (quantity (get "blockNumber" transaction))
    throw_if (not (number == anchor.block_number)) (waits not_final)
    ok transaction

  -- A call to some contract, or the creation of one.
  unfoldable pub check_destination : List Entry → List Entry → Result Stop (Unit {0})
  check_destination receipt transaction =
      if is_null (get "to" transaction) && is_null (get "to" receipt)
      then (or_stop (text_of (get "contractAddress" receipt)) >>= λ created.
          throw_if (not (is_nonzero_address viem created)) thrown)
      else (or_stop (text_of (get "to" transaction)) >>= λ called.
          or_stop (text_of (get "to" receipt)) >>= λ received.
          throw_if
            (not (viem.is_address called)
              || not (viem.is_address received)
              || not (is_absent (get "contractAddress" receipt)))
            thrown
          >> throw_if (not (text_eq (lower called) (lower received))) (rejects gate_mismatch))

  -- The runtime code of the gate, and the status of the receipt.
  unfoldable pub check_code : Anchor → Result Stop (Unit {0})
  unfolding is_hex_bytes
  check_code anchor = do
    code ← or_stop (text_of anchor.code)
    throw_if (ltb 100002 (length code) || not (is_hex_bytes code)) thrown
    throw_if (not (text_eq (lower (abi.keccak256 code)) (lower config.code_hash)))
        (rejects gate_mismatch)
    throw_if (is_text (codes "0x0") (get "status" anchor.receipt)) (rejects transaction_reverted)
    throw_if (not (is_text (codes "0x1") (get "status" anchor.receipt))) thrown

  unfoldable pub examine : Anchor → Result Stop Confirmation
  unfolding check_transaction check_destination check_code read_logs get_issuance_request_digest
  examine anchor = do
    transaction ← check_transaction anchor
    check_destination anchor.receipt transaction
    check_code anchor
    digest ← rethrow (get_issuance_request_digest viem (to_value request)) thrown
    matches ← read_logs viem abi config.gate request digest hash anchor anchor.logs
    only matches

  abbrev pub terminal : Observation → Result PendingReason (Unit {0}) → Observation
  terminal observation (err reason) = Observation.pending reason
  terminal observation (ok done) = observation

  unfoldable pub conclude : Anchor → Result Stop Confirmation → Observation
  unfolding recheck
  conclude anchor (err (waits reason)) = Observation.pending reason
  conclude anchor (err (rejects reason)) = terminal (Observation.rejected reason) (recheck anchor)
  conclude anchor (ok c) = terminal (Observation.confirmed c) (recheck anchor)

  unfoldable pub observe_anchor : Result PendingReason Anchor → Observation
  unfolding examine conclude
  observe_anchor (err reason) = Observation.pending reason
  observe_anchor (ok anchor) = conclude anchor (examine anchor)

  -- `url` is `new URL(config.rpcUrl)`.
  unfoldable pub observe_issuance : Option Url → Response Observation
  unfolding find_anchor observe_anchor validate_chain_configuration is_hash
  observe_issuance url = do
    validate_chain_configuration viem config url
    (if not (text_eq request.chain_id config.chain_id)
          || not (text_eq (lower request.gate) (lower config.gate))
          || not (is_hash (str hash))
        then ok (Observation.rejected gate_mismatch)
        else ok (observe_anchor find_anchor))
