-- ===== src/Worker/Observer/Counted.antt =====
-- The loop over the logs counts and passes over what the evidence says.
use ultratokenizer.Base.{
  ℕ, Text, text_eq, text_eq_iff, lower, big_int, big_int-decimal, Bool, true, false, not, ◌&&◌,
  ◌||◌, ◌≡◌, ◌≢◌, refl, ap, ◌∙◌, List, Option, none, some, Result, ok, err, ◌==◌, ==_iff, length,
  if◌then◌else◌, or_throw, ◌>>=◌, past_guard, past_read, ok-injective, arith,
}
use ultratokenizer.Domain.Value.{Value, str, boolean, Entry, get}
use ultratokenizer.Domain.Viem.{Viem}
use ultratokenizer.Domain.Request.{IssuanceRequest}
use ultratokenizer.Worker.Model.{Confirmation}
use ultratokenizer.Worker.Observer.{is_hash, is_hex_bytes, quantity, record_entries}
use ultratokenizer.Worker.Observer.Logs.{
  Issued, Abi, Anchor, Stop, text_of, boolean_of, hash_of, topics_of, first_topic, is_same_issuance,
  confirmation, read_event, read_issuance, read_gate_log, read_log,
}
use ultratokenizer.Worker.Observer.Evidence.{IsAbout, IsIssuance}

pub or_throw-eq-ok {ε α} :
    {E : Type ε} {A : Type α} (o : Option A) (e : E) {a : A} → or_throw o e ≡ ok a → o ≡ some a
or_throw-eq-ok none e h = cc
or_throw-eq-ok (some a) e h = ground (arith, h)

pub eq_of_text_of : (v : Value) {t : Text} → text_of v ≡ some t → v ≡ str t
eq_of_text_of (str s) h = ground (arith, h)
eq_of_text_of v h = cc

eq_of_boolean_of : (v : Value) {b : Bool} → boolean_of v ≡ some b → v ≡ boolean b
eq_of_boolean_of (boolean s) h = ground (arith, h)
eq_of_boolean_of v h = cc

pub eq_of_hash_of : (v : Value) {t : Text} → hash_of v ≡ some t → v ≡ str t
unfolding is_hash
eq_of_hash_of (str s) h = ground (arith, h)
eq_of_hash_of v h = cc

pub differs : (s t : Text) → text_eq s t ≡ false → s ≢ t
differs s t h e = let same = (text_eq_iff s t).1 e in cc

four_tests :
    (a b c d : Bool)
    → not (a && b && c && d) ≡ false
    → (a ≡ true) × (b ≡ true) × (c ≡ true) × (d ≡ true)
four_tests a b c d h = ground (arith, h)

-- A round that did not continue.
past_skip :
    (b : Bool) (r : Result Stop Confirmation) {c : Confirmation}
    → (if not b then ok none else (r >>= λ a. ok (some a))) ≡ ok (some c)
    → (b ≡ true) × (r ≡ ok c)
past_skip true (ok a) h = (refl, ground (arith, h))
past_skip true (err s) h = cc
past_skip false r h = cc

past_case :
    (b : Bool) (r : Result Stop (Option Confirmation)) {c : Confirmation}
    → (if not b then ok none else r) ≡ ok (some c)
    → (b ≡ true) × (r ≡ ok (some c))
past_case true r h = (refl, h)
past_case false r h = cc

module _ (viem : Viem) (abi : Abi) (gate : Text) (request : IssuanceRequest) (digest hash : Text)
    (anchor : Anchor) where
  -- The test of the fields of an event.
  about_lem :
      (e : Issued)
      → e.request_digest ≡ digest
      → is_same_issuance viem abi gate request digest hash anchor e ≡ true
      → IsAbout request digest e
  unfolding is_same_issuance
  about_lem e d h = record {
    request_digest = d;
    request_id = (text_eq_iff _ _).0 (ground (arith, h));
    claim_usage_id = (text_eq_iff _ _).0 (ground (arith, h));
    issuer_id = (text_eq_iff _ _).0 (ground (arith, h));
    reservation_id = (text_eq_iff _ _).0 (ground (arith, h));
    token = (text_eq_iff _ _).0 (ground (arith, h));
    recipient = (text_eq_iff _ _).0 (ground (arith, h));
    milligrams = ground (arith, h);
    policy_version = ground (arith, h);
    rights_version = ground (arith, h);
  }

  -- What passes the checks of an event.
  read_event_lem :
      (log_hash log_block : Text) (log_number log_index : ℕ) (e : Issued) (c : Confirmation)
      → read_event viem abi gate request digest hash anchor log_hash log_block log_number log_index
          e
        ≡ ok c
      → (log_hash ≡ hash)
        × (log_block ≡ anchor.block_hash)
        × (log_number ≡ anchor.block_number)
        × (is_same_issuance viem abi gate request digest hash anchor e ≡ true)
        × (confirmation viem abi gate request digest hash anchor e log_index ≡ c)
  unfolding read_event
  read_event_lem log_hash log_block log_number log_index e c h =
      let (passed, done) =
        past_guard
          (not (
            text_eq log_hash hash
            && text_eq log_block anchor.block_hash
            && log_number == anchor.block_number
            && is_same_issuance viem abi gate request digest hash anchor e))
          _ _ h in
      let (a, b, n, same) = four_tests _ _ _ _ passed in
      ((text_eq_iff _ _).0 a, (text_eq_iff _ _).0 b, (==_iff _ _).0 n, same, ok-injective _ _ done)

  read_issuance_lem :
      (log : List Entry) (topics : List Text) (data_ : Text) (c : Confirmation)
      → read_issuance viem abi gate request digest hash anchor log topics data_ ≡ ok (some c)
      → (e : Issued) × (index : ℕ) × (abi.decode_issued data_ topics ≡ some e)
        × (e.request_digest ≡ digest)
        × (get "removed" log ≡ boolean false)
        × (get "transactionHash" log ≡ str hash)
        × (get "blockHash" log ≡ str anchor.block_hash)
        × (quantity (get "blockNumber" log) ≡ some anchor.block_number)
        × (quantity (get "logIndex" log) ≡ some index)
        × (is_same_issuance viem abi gate request digest hash anchor e ≡ true)
        × (confirmation viem abi gate request digest hash anchor e index ≡ c)
  unfolding read_issuance
  read_issuance_lem log topics data_ c h =
      let (sized, h1) = past_guard (not (length topics == 4) || not (length data_ == 642)) _ _ h in
      let (log_hash, a, h2) = past_read (hash_of (get "transactionHash" log)) _ _ h1 in
      let (log_block, b, h3) = past_read (hash_of (get "blockHash" log)) _ _ h2 in
      let (removed, r, h4) = past_read (boolean_of (get "removed" log)) _ _ h3 in
      let (number, n, h5) = past_read (quantity (get "blockNumber" log)) _ _ h4 in
      let (index, i, h6) = past_read (quantity (get "logIndex" log)) _ _ h5 in
      let (kept, h7) = past_guard removed _ _ h6 in
      let (e, d, h8) = past_read (abi.decode_issued data_ topics) _ _ h7 in
      let (same, h9) = past_skip (text_eq e.request_digest digest) _ h8 in
      let (x, y, z, about, made) = read_event_lem log_hash log_block number index e c h9 in
      (
        e,
        index,
        d,
        (text_eq_iff _ _).0 same,
        eq_of_boolean_of _ r ∙ ap boolean kept,
        eq_of_hash_of _ a ∙ ap str x,
        eq_of_hash_of _ b ∙ ap str y,
        n ∙ ap some z,
        i,
        about,
        made,
      )

  confirmation_lem :
      (e : Issued) (index : ℕ) (c : Confirmation)
      → confirmation viem abi gate request digest hash anchor e index ≡ c
      → (big_int c.block_number ≡ anchor.block_number)
        × (c.block_hash ≡ anchor.block_hash)
        × (big_int c.log_index ≡ index)
        × (c.permit_digest ≡ e.permit_digest)
        × (c.public_values_hash ≡ e.public_values_hash)
        × (c.program_vkey ≡ e.program_vkey)
  confirmation_lem e index c made =
      rw (← made)
        (big_int-decimal anchor.block_number, refl, big_int-decimal index, refl, refl, refl)

  -- A log that is counted.
  pub read_log-IsIssuance :
      (log : Value) (c : Confirmation)
      → read_log viem abi gate request digest hash anchor log ≡ ok (some c)
      → IsIssuance abi gate request digest hash anchor log c
  unfolding read_log read_gate_log
  read_log-IsIssuance log c h =
      let (es, is_record, h1) = past_read (record_entries log) _ _ h in
      let (address, has_address, h2) = past_read (text_of (get "address" es)) _ _ h1 in
      let (valid, h3) = past_guard (not (viem.is_address address)) _ _ h2 in
      let (at_gate, h4) = past_case (text_eq (lower address) (lower gate)) _ h3 in
      let (topics, has_topics, h5) = past_read (topics_of (get "topics" es)) _ _ h4 in
      let (data_, has_data, h6) = past_read (text_of (get "data" es)) _ _ h5 in
      let (bytes, h7) = past_guard (not (is_hex_bytes data_)) _ _ h6 in
      let (has_topic, h8) =
        past_case (text_eq (lower (first_topic topics)) abi.issuance_topic) _ h7 in
      let (
        e, index, has_event, about, kept, of_transaction, of_block, of_number, has_index, fields,
        made,
      ) =
        read_issuance_lem es topics data_ c h8 in
      let same = confirmation_lem e index c made in
      record {
        entries = es;
        is_record = is_record;
        address = address;
        has_address = eq_of_text_of _ has_address;
        at_gate = (text_eq_iff _ _).0 at_gate;
        topics = topics;
        has_topics = has_topics;
        has_topic = (text_eq_iff _ _).0 has_topic;
        data_ = data_;
        has_data = eq_of_text_of _ has_data;
        is_kept = kept;
        of_transaction = of_transaction;
        of_block = of_block;
        of_number = of_number;
        index = index;
        has_index = has_index;
        event = e;
        has_event = has_event;
        about = about_lem e about fields;
        block_number = same.0;
        block_hash = same.1;
        log_index = same.2;
        permit_digest = same.3;
        public_values_hash = same.4;
        program_vkey = same.5;
      }
