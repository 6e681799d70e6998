-- ===== src/Worker/Observer/Confirmed.antt =====
-- `observeIssuance` confirms only what the node has shown, and rejects only at a final block.
use ultratokenizer.Base.{
  Bool, Text, codes, text_eq, text_eq_iff, lower, true, not, ◌||◌, ◌≡◌, refl, ap, ◌∙◌, List, [],
  ◌∷◌, Option, none, some, Result, ok, err, ltb, length, throw_if-eq-ok, rethrow, subst, ◌==◌,
  >>=-eq-ok, ok-injective, past_guard, past_read, arith, ℕ, ◌≤◌, leb, leb→le, ==_iff, both, false,
  ◌&&◌,
}
use ultratokenizer.Domain.Value.{Value, str, Entry, get}
use ultratokenizer.Domain.Viem.{Viem, zero_address}
use ultratokenizer.Domain.Errors.{Checked}
use ultratokenizer.Domain.Request.{IssuanceRequest, to_value, get_issuance_request_digest}
use ultratokenizer.Worker.Model.{PendingReason, Confirmation, Observation}
use ultratokenizer.Worker.Observer.{
  is_bare_https, is_depth, is_nonzero_address, is_hash, ChainConfiguration, Url,
  is_valid_configuration, validate_chain_configuration, Node, is_text, quantity, record_entries,
  is_hex_bytes,
}
use ultratokenizer.Worker.Observer.Logs.{
  Abi, Anchor, Stop, waits, rejects, thrown, text_of, hash_of, read_logs, only,
}
use ultratokenizer.Worker.Observer.Evidence.{ExactlyOne}
use ultratokenizer.Worker.Observer.Counted.{eq_of_text_of, eq_of_hash_of}
use ultratokenizer.Worker.Observer.Passed.{read_logs-ExactlyOne}
use ultratokenizer.Worker.Observer.Observe.{
  find_anchor, recheck, transaction_of, check_transaction, check_destination, check_code, examine,
  terminal, conclude, observe_anchor,
}
use ultratokenizer.Worker.Observer.Sound.{
  IsAnchored, IsRead, eq_of_is_text, passed, recheck-IsAnchored, find_anchor-IsRead,
}

-- A configuration with an https URL that has no credentials and no fragment, a gate that is a nonzero
-- address, and 1 to 32 confirmations.
pub record IsConfigured (viem : Viem) (config : ChainConfiguration) (parsed : Url) : Type 0 where
  pub protocol : parsed.protocol ≡ codes "https:"
  pub username : length parsed.username ≡ 0
  pub password : length parsed.password ≡ 0
  pub fragment : length parsed.fragment ≡ 0
  pub is_gate : viem.is_address config.gate ≡ true
  pub is_nonzero : text_eq (lower config.gate) zero_address ≡ false
  pub has_code_hash : is_hash (str config.code_hash) ≡ true
  pub confirmations : ℕ
  pub has_confirmations : config.confirmations ≡ some confirmations
  pub at_least : 1 ≤ confirmations
  pub at_most : confirmations ≤ 32

depth_of : (o : Option ℕ) → is_depth o ≡ true → (n : ℕ) × (o ≡ some n) × (1 ≤ n) × (n ≤ 32)
depth_of none h = cc
depth_of (some n) h =
    let (a, b) = both (leb 1 n) (leb n 32) h in (n, refl, leb→le _ _ a, leb→le _ _ b)

five_tests :
    (a b c d e : Bool)
    → (a && b && c && d && e) ≡ true
    → (a ≡ true) × (b ≡ true) × (c ≡ true) × (d ≡ true) × (e ≡ true)
five_tests a b c d e h = ground (arith, h)

four_tests :
    (a b c d : Bool) → (a && b && c && d) ≡ true → (a ≡ true) × (b ≡ true) × (c ≡ true) × (d ≡ true)
four_tests a b c d h = ground (arith, h)

nonzero : (a b : Bool) → (a && not b) ≡ true → (a ≡ true) × (b ≡ false)
nonzero a b h = ground (arith, h)

pub valid-IsConfigured :
    (viem : Viem) (config : ChainConfiguration) (parsed : Url)
    → is_valid_configuration viem config parsed ≡ true
    → IsConfigured viem config parsed
unfolding is_valid_configuration
valid-IsConfigured viem config parsed h =
    let (url, chain, gate, code, deep) =
      five_tests (is_bare_https parsed) _ (is_nonzero_address viem config.gate) _ _ h in
    let (https, user, password, fragment) = four_tests _ _ _ _ url in
    let (is_gate, is_nonzero) = nonzero _ _ gate in
    let (n, has, low, high) = depth_of config.confirmations deep in
    record {
      protocol = (text_eq_iff _ _).0 https;
      username = (==_iff _ _).0 user;
      password = (==_iff _ _).0 password;
      fragment = (==_iff _ _).0 fragment;
      is_gate = is_gate;
      is_nonzero = is_nonzero;
      has_code_hash = code;
      confirmations = n;
      has_confirmations = has;
      at_least = low;
      at_most = high;
    }

-- The configuration can be used, and is for the chain and the gate of the request.
pub record IsPinned (viem : Viem) (config : ChainConfiguration) (url : Option Url)
    (request : IssuanceRequest) : Type 0 where
  pub parsed : Url
  pub has_url : url ≡ some parsed
  pub is_valid : IsConfigured viem config parsed
  pub chain_id : request.chain_id ≡ config.chain_id
  pub gate : lower request.gate ≡ lower config.gate

-- What a confirmation stands on.
pub record IsShown (viem : Viem) (abi : Abi) (config : ChainConfiguration) (node : Node)
    (request : IssuanceRequest) (hash : Text) (c : Confirmation) : Type 0 where
  pub anchor : Anchor
  pub read : IsRead config node hash anchor
  pub rechecked : IsAnchored config node 3 anchor
  pub transaction : List Entry
  pub is_transaction : record_entries anchor.transaction ≡ some transaction
  pub of_hash : get "hash" transaction ≡ str hash
  pub of_block : get "blockHash" transaction ≡ str anchor.block_hash
  pub code : Text
  pub is_code : anchor.code ≡ str code
  pub is_gate : lower (abi.keccak256 code) ≡ lower config.code_hash
  pub succeeded : get "status" anchor.receipt ≡ str (codes "0x1")
  pub digest : Text
  pub has_digest : get_issuance_request_digest viem (to_value request) ≡ ok digest
  pub one : ExactlyOne abi config.gate request digest hash anchor c anchor.logs

rethrow-eq-ok : (r : Checked Text) {t : Text} → rethrow r thrown ≡ ok t → r ≡ ok t
rethrow-eq-ok (err e) h = cc
rethrow-eq-ok (ok s) h = ap ok (ok-injective _ _ h)

only-eq-ok : (cs : List Confirmation) {c : Confirmation} → only cs ≡ ok c → cs ≡ c ∷ []
only-eq-ok [] h = cc
only-eq-ok (a ∷ []) h = ap (λ b. b ∷ []) (ok-injective _ _ h)
only-eq-ok (a ∷ b ∷ cs) h = cc

module _ (viem : Viem) (abi : Abi) (config : ChainConfiguration) (node : Node)
    (request : IssuanceRequest) (hash : Text) where
  transaction-entries :
      (v : Value) (es : List Entry)
      → transaction_of viem abi config node request hash v ≡ ok es
      → record_entries v ≡ some es
  transaction-entries Value.null es h = cc
  transaction-entries (Value.obj proto props) es h = ap some (ok-injective _ _ h)
  transaction-entries v es h = cc

  check_transaction_lem :
      (anchor : Anchor) (transaction : List Entry)
      → check_transaction viem abi config node request hash anchor ≡ ok transaction
      → (record_entries anchor.transaction ≡ some transaction)
        × (get "hash" transaction ≡ str hash)
        × (get "blockHash" transaction ≡ str anchor.block_hash)
  unfolding check_transaction
  check_transaction_lem anchor transaction h =
      let (es, is_record, h1) =
        >>=-eq-ok (transaction_of viem abi config node request hash anchor.transaction) _ h in
      let (found, has_hash, h2) = past_read (hash_of (get "hash" es)) _ _ h1 in
      let (block, has_block, h3) = past_read (hash_of (get "blockHash" es)) _ _ h2 in
      let (same, h4) = past_guard (not (text_eq found hash)) _ _ h3 in
      let (at_block, h5) = past_guard (not (text_eq block anchor.block_hash)) _ _ h4 in
      let (number, has_number, h6) = past_read (quantity (get "blockNumber" es)) _ _ h5 in
      let (equal, made) = past_guard (not (number == anchor.block_number)) _ _ h6 in
      subst
        (λ (t : List Entry).
          (record_entries anchor.transaction ≡ some t)
          × (get "hash" t ≡ str hash)
          × (get "blockHash" t ≡ str anchor.block_hash))
        (ok-injective _ transaction made)
        (
          transaction-entries anchor.transaction es is_record,
          eq_of_hash_of _ has_hash ∙ ap str ((text_eq_iff _ _).0 (passed _ same)),
          eq_of_hash_of _ has_block ∙ ap str ((text_eq_iff _ _).0 (passed _ at_block)),
        )

  check_code_lem :
      (anchor : Anchor)
      → check_code viem abi config node request hash anchor ≡ ok tt
      → (code : Text) × (anchor.code ≡ str code)
        × (lower (abi.keccak256 code) ≡ lower config.code_hash)
        × (get "status" anchor.receipt ≡ str (codes "0x1"))
  unfolding check_code
  check_code_lem anchor h =
      let (code, is_code, h1) = past_read (text_of anchor.code) _ _ h in
      let (sized, h2) = past_guard (ltb 100002 (length code) || not (is_hex_bytes code)) _ _ h1 in
      let (is_gate, h3) =
        past_guard (not (text_eq (lower (abi.keccak256 code)) (lower config.code_hash))) _ _ h2 in
      let (kept, h4) = past_guard (is_text (codes "0x0") (get "status" anchor.receipt)) _ _ h3 in
      let succeeded =
        throw_if-eq-ok (not (is_text (codes "0x1") (get "status" anchor.receipt))) _ h4 in
      (
        code,
        eq_of_text_of _ is_code,
        (text_eq_iff _ _).0 (passed _ is_gate),
        eq_of_is_text _ _ (passed _ succeeded),
      )

  examine-IsShown :
      (anchor : Anchor) (c : Confirmation)
      → IsRead config node hash anchor
      → IsAnchored config node 3 anchor
      → examine viem abi config node request hash anchor ≡ ok c
      → IsShown viem abi config node request hash c
  unfolding examine
  examine-IsShown anchor c read rechecked h =
      let (transaction, t, h1) =
        >>=-eq-ok (check_transaction viem abi config node request hash anchor) _ h in
      let (u, d, h2) =
        >>=-eq-ok (check_destination viem abi config node request hash anchor.receipt transaction) _
          h1 in
      let (w, k, h3) = >>=-eq-ok (check_code viem abi config node request hash anchor) _ h2 in
      let (digest, has_digest, h4) =
        >>=-eq-ok (rethrow (get_issuance_request_digest viem (to_value request)) thrown) _ h3 in
      let (matches, m, h5) =
        >>=-eq-ok (read_logs viem abi config.gate request digest hash anchor anchor.logs) _ h4 in
      let (is_transaction, of_hash, of_block) = check_transaction_lem anchor transaction t in
      let (code, is_code, is_gate, succeeded) = check_code_lem anchor k in
      record {
        anchor = anchor;
        read = read;
        rechecked = rechecked;
        transaction = transaction;
        is_transaction = is_transaction;
        of_hash = of_hash;
        of_block = of_block;
        code = code;
        is_code = is_code;
        is_gate = is_gate;
        succeeded = succeeded;
        digest = digest;
        has_digest = rethrow-eq-ok _ has_digest;
        one =
            read_logs-ExactlyOne viem abi config.gate request digest hash anchor anchor.logs c
              (m ∙ ap ok (only-eq-ok matches h5));
      }

  terminal-confirmed :
      (o : Observation) (r : Result PendingReason (Unit {0})) (c : Confirmation)
      → terminal viem abi config node request hash o r ≡ Observation.confirmed c
      → (o ≡ Observation.confirmed c) × (r ≡ ok tt)
  terminal-confirmed o (err reason) c h = cc
  terminal-confirmed o (ok done) c h = (h, refl)

  conclude-confirmed :
      (anchor : Anchor) (r : Result Stop Confirmation) (c : Confirmation)
      → conclude viem abi config node request hash anchor r ≡ Observation.confirmed c
      → (r ≡ ok c) × (recheck viem abi config node request hash anchor ≡ ok tt)
  unfolding conclude
  conclude-confirmed anchor (err (waits reason)) c h = cc
  conclude-confirmed anchor (err (rejects reason)) c h =
      let (same, done) =
        terminal-confirmed (Observation.rejected reason)
          (recheck viem abi config node request hash anchor) c h in
      cc
  conclude-confirmed anchor (ok a) c h =
      let (same, done) =
        terminal-confirmed (Observation.confirmed a)
          (recheck viem abi config node request hash anchor) c h in
      let equal : a ≡ c = ground (arith, same) in (ap ok equal, done)

  pub observe_anchor-IsShown :
      (r : Result PendingReason Anchor) (c : Confirmation)
      → find_anchor viem abi config node request hash ≡ r
      → observe_anchor viem abi config node request hash r ≡ Observation.confirmed c
      → IsShown viem abi config node request hash c
  unfolding observe_anchor
  observe_anchor-IsShown (err reason) c e h = cc
  observe_anchor-IsShown (ok anchor) c e h =
      let (examined, again) =
        conclude-confirmed anchor (examine viem abi config node request hash anchor) c h in
      examine-IsShown anchor c (find_anchor-IsRead viem abi config node request hash anchor e)
        (recheck-IsAnchored viem abi config node request hash anchor again) examined

  pub validated :
      (url : Option Url)
      → validate_chain_configuration viem config url ≡ ok tt
      → (parsed : Url) × (url ≡ some parsed) × (is_valid_configuration viem config parsed ≡ true)
  unfolding validate_chain_configuration
  validated none h = cc
  validated (some u) h = (u, refl, passed _ (throw_if-eq-ok _ _ h))
