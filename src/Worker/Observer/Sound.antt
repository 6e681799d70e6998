-- ===== src/Worker/Observer/Sound.antt =====
-- What `observeIssuance` has seen when it confirms an issuance, or rejects it for good.
use ultratokenizer.Base.{
  ℕ, ◌+◌, ◌≤◌, Text, text_eq_iff, big_int, Bool, true, false, not, ◌≡◌, refl, ap, ◌∙◌, subst, List,
  some, ok, ltb, ◌==◌, ==_iff, throw_if, >>=-eq-ok, ok-injective, past_guard, past_read, arith,
}
use ultratokenizer.Domain.Value.{Value, str, Entry, get}
use ultratokenizer.Domain.Viem.{Viem}
use ultratokenizer.Domain.Request.{IssuanceRequest}
use ultratokenizer.Worker.Model.{PendingReason, not_final}
use ultratokenizer.Worker.Observer.{
  ChainConfiguration, Node, eth_chain_id, eth_block_number, eth_get_transaction_receipt,
  eth_get_transaction_by_hash, eth_get_block_by_number, eth_get_code, rpc, quantity, depth, is_text,
  record_entries,
}
use ultratokenizer.Worker.Observer.Logs.{Abi, Receipt, Anchor, array_of, hash_of}
use ultratokenizer.Worker.Observer.Counted.{eq_of_hash_of}
use ultratokenizer.Worker.Observer.Observe.{
  is_final, receipt_of, find_receipt, find_block, find_anchor, recheck,
}

-- The node has the block at its number, with the confirmations that the configuration asks for.
pub record IsFinal (config : ChainConfiguration) (block_hash : Text) (block_number : ℕ)
    (block head : Value) : Type 0 where
  pub entries : List Entry
  pub is_record : record_entries block ≡ some entries
  pub has_hash : get "hash" entries ≡ str block_hash
  pub has_number : quantity (get "number" entries) ≡ some block_number
  pub latest : ℕ
  pub has_head : quantity head ≡ some latest
  pub is_deep : block_number + depth config ≤ latest

-- The node is on the configured chain, and its block is final, at a turn.
pub record IsAnchored (config : ChainConfiguration) (node : Node) (turn : ℕ) (anchor : Anchor)
    : Type 0 where
  pub chain : Value
  pub has_chain : rpc node turn eth_chain_id ≡ some chain
  pub on_chain : quantity chain ≡ some (big_int config.chain_id)
  pub block : Value
  pub has_block : rpc node turn (eth_get_block_by_number anchor.tag) ≡ some block
  pub head : Value
  pub has_head : rpc node turn eth_block_number ≡ some head
  pub final : IsFinal config anchor.block_hash anchor.block_number block head

-- The node answered with the receipt of the transaction, on the configured chain.
pub record IsReceipt (config : ChainConfiguration) (node : Node) (hash : Text) (receipt : Receipt)
    : Type 0 where
  pub chain : Value
  pub has_chain : rpc node 0 eth_chain_id ≡ some chain
  pub on_chain : quantity chain ≡ some (big_int config.chain_id)
  pub answer : Value
  pub has_receipt : rpc node 1 (eth_get_transaction_receipt hash) ≡ some answer
  pub is_record : record_entries answer ≡ some receipt.entries
  pub of_transaction : get "transactionHash" receipt.entries ≡ str hash
  pub of_block : get "blockHash" receipt.entries ≡ str receipt.block_hash
  pub of_number : quantity (get "blockNumber" receipt.entries) ≡ some receipt.block_number
  pub has_logs : array_of (get "logs" receipt.entries) ≡ some receipt.logs

-- The receipt is that of the transaction, the block it names was final when it was read, and the
-- transaction and the code are the node's.
pub record IsRead (config : ChainConfiguration) (node : Node) (hash : Text) (anchor : Anchor)
    : Type 0 where
  pub of_receipt : IsReceipt config node hash (record {
    entries = anchor.receipt;
    logs = anchor.logs;
    block_hash = anchor.block_hash;
    block_number = anchor.block_number;
  })
  pub tag : anchor.tag ≡ get "blockNumber" anchor.receipt
  pub block : Value
  pub has_block : rpc node 2 (eth_get_block_by_number anchor.tag) ≡ some block
  pub head : Value
  pub has_head : rpc node 2 eth_block_number ≡ some head
  pub final : IsFinal config anchor.block_hash anchor.block_number block head
  pub has_transaction : rpc node 2 (eth_get_transaction_by_hash hash) ≡ some anchor.transaction
  pub has_code : rpc node 2 (eth_get_code config.gate anchor.tag) ≡ some anchor.code

pub eq_of_is_text : (t : Text) (v : Value) → is_text t v ≡ true → v ≡ str t
eq_of_is_text t (str s) h = ap str ((text_eq_iff s t).0 h)
eq_of_is_text t v h = cc

pub passed : (b : Bool) → not b ≡ false → b ≡ true
passed b h = ground (arith, h)

module _ (viem : Viem) (abi : Abi) (config : ChainConfiguration) (node : Node)
    (request : IssuanceRequest) (hash : Text) where
  is_final-IsFinal :
      (block_hash : Text) (block_number : ℕ) (block head : Value)
      → is_final viem abi config node request hash block_hash block_number block head ≡ ok tt
      → IsFinal config block_hash block_number block head
  unfolding is_final
  is_final-IsFinal block_hash block_number block head h =
      let (es, is_record, h1) = past_read (record_entries block) _ _ h in
      let (same, h2) = past_guard (not (is_text block_hash (get "hash" es))) _ _ h1 in
      let (number, has_number, h3) = past_read (quantity (get "number" es)) _ _ h2 in
      let (equal, h4) = past_guard (not (number == block_number)) _ _ h3 in
      let (latest, has_head, h5) = past_read (quantity head) _ _ h4 in
      record {
        entries = es;
        is_record = is_record;
        has_hash = eq_of_is_text _ _ (passed _ same);
        has_number = has_number ∙ ap some ((==_iff _ _).0 (passed _ equal));
        latest = latest;
        has_head = has_head;
        is_deep = not_below latest (block_number + depth config) not_final h5;
      }
    where
      not_below : (m n : ℕ) (e : PendingReason) → throw_if (ltb m n) e ≡ ok tt → n ≤ m
      not_below m n e k = ground (arith, k)

  pub recheck-IsAnchored :
      (anchor : Anchor)
      → recheck viem abi config node request hash anchor ≡ ok tt
      → IsAnchored config node 3 anchor
  unfolding recheck
  recheck-IsAnchored anchor h =
      let (block, has_block, h1) =
        past_read (rpc node 3 (eth_get_block_by_number anchor.tag)) _ _ h in
      let (chain, has_chain, h2) = past_read (rpc node 3 eth_chain_id) _ _ h1 in
      let (head, has_head, h3) = past_read (rpc node 3 eth_block_number) _ _ h2 in
      let (id, on_chain, h4) = past_read (quantity chain) _ _ h3 in
      let (same, h5) = past_guard (not (id == big_int config.chain_id)) _ _ h4 in
      record {
        chain = chain;
        has_chain = has_chain;
        on_chain = on_chain ∙ ap some ((==_iff _ _).0 (passed _ same));
        block = block;
        has_block = has_block;
        head = head;
        has_head = has_head;
        final = is_final-IsFinal _ _ _ _ h5;
      }

  receipt-entries :
      (answer : Value) (es : List Entry)
      → receipt_of viem abi config node request hash answer ≡ ok es
      → record_entries answer ≡ some es
  receipt-entries Value.null es h = cc
  receipt-entries (Value.obj proto props) es h = ap some (ok-injective _ _ h)
  receipt-entries answer es h = cc

  find_receipt-IsReceipt :
      (receipt : Receipt)
      → find_receipt viem abi config node request hash ≡ ok receipt
      → IsReceipt config node hash receipt
  unfolding find_receipt
  find_receipt-IsReceipt receipt h =
      let (chain, has_chain, h1) = past_read (rpc node 0 eth_chain_id) _ _ h in
      let (id, on_chain, h2) = past_read (quantity chain) _ _ h1 in
      let (same, h3) = past_guard (not (id == big_int config.chain_id)) _ _ h2 in
      let (answer, has_receipt, h4) =
        past_read (rpc node 1 (eth_get_transaction_receipt hash)) _ _ h3 in
      let (es, is_record, h5) =
        >>=-eq-ok (receipt_of viem abi config node request hash answer) _ h4 in
      let (of_transaction, h6) =
        past_guard (not (is_text hash (get "transactionHash" es))) _ _ h5 in
      let (block_hash, of_block, h7) = past_read (hash_of (get "blockHash" es)) _ _ h6 in
      let (logs, has_logs, h8) = past_read (array_of (get "logs" es)) _ _ h7 in
      let (number, of_number, made) = past_read (quantity (get "blockNumber" es)) _ _ h8 in
      subst (IsReceipt config node hash) (ok-injective _ receipt made) (record {
        chain = chain;
        has_chain = has_chain;
        on_chain = on_chain ∙ ap some ((==_iff _ _).0 (passed _ same));
        answer = answer;
        has_receipt = has_receipt;
        is_record = receipt-entries answer es is_record;
        of_transaction = eq_of_is_text _ _ (passed _ of_transaction);
        of_block = eq_of_hash_of _ of_block;
        of_number = of_number;
        has_logs = has_logs;
      })

  find_block-IsRead :
      (receipt : Receipt) (anchor : Anchor)
      → IsReceipt config node hash receipt
      → find_block viem abi config node request hash receipt ≡ ok anchor
      → IsRead config node hash anchor
  unfolding find_block
  find_block-IsRead receipt anchor r h =
      let (block, has_block, h1) =
        past_read (rpc node 2 (eth_get_block_by_number (get "blockNumber" receipt.entries))) _ _
          h in
      let (head, has_head, h2) = past_read (rpc node 2 eth_block_number) _ _ h1 in
      let (transaction, has_transaction, h3) =
        past_read (rpc node 2 (eth_get_transaction_by_hash hash)) _ _ h2 in
      let (code, has_code, h4) =
        past_read (rpc node 2 (eth_get_code config.gate (get "blockNumber" receipt.entries))) _ _
          h3 in
      let (u, final, made) =
        >>=-eq-ok
          (is_final viem abi config node request hash receipt.block_hash receipt.block_number block
            head)
          _ h4 in
      subst (IsRead config node hash) (ok-injective _ anchor made) (record {
        of_receipt = r;
        tag = refl;
        block = block;
        has_block = has_block;
        head = head;
        has_head = has_head;
        final = is_final-IsFinal _ _ _ _ final;
        has_transaction = has_transaction;
        has_code = has_code;
      })

  pub find_anchor-IsRead :
      (anchor : Anchor)
      → find_anchor viem abi config node request hash ≡ ok anchor
      → IsRead config node hash anchor
  unfolding find_anchor
  find_anchor-IsRead anchor h =
      let (receipt, found, rest) = >>=-eq-ok (find_receipt viem abi config node request hash) _ h in
      find_block-IsRead receipt anchor (find_receipt-IsReceipt receipt found) rest
