-- ===== src/Worker/Observer/Passed.antt =====
-- The loop over the logs passes over what the evidence says, and finds at most one log.
use ultratokenizer.Base.{
  Text, text_eq, lower, Bool, true, false, not, ◌||◌, ◌≡◌, ◌⊎◌, inl, inr, refl, ap, ◌∙◌, List, [],
  ◌∷◌, ◌++◌, Option, none, some, Result, ok, err, ◌==◌, length, if◌then◌else◌, Bool-cases, ◌>>=◌,
  >>=-eq-ok, past_guard, past_read, ok-injective, arith, All,
}
use ultratokenizer.Domain.Value.{Value, Entry, get}
use ultratokenizer.Domain.Viem.{Viem}
use ultratokenizer.Domain.Request.{IssuanceRequest}
use ultratokenizer.Worker.Model.{Confirmation}
use ultratokenizer.Worker.Observer.{is_hex_bytes, quantity, record_entries}
use ultratokenizer.Worker.Observer.Logs.{
  Issued, Abi, Anchor, Stop, text_of, boolean_of, hash_of, topics_of, first_topic, read_issuance,
  read_gate_log, read_log, option_list, read_logs,
}
use ultratokenizer.Worker.Observer.Evidence.{IsOther, ExactlyOne}
use ultratokenizer.Worker.Observer.Counted.{eq_of_text_of, differs, read_log-IsIssuance}

-- A round that continued.
skipped :
    (b : Bool) (r : Result Stop Confirmation)
    → (if not b then ok none else (r >>= λ a. ok (some a))) ≡ ok none
    → b ≡ false
skipped true (ok a) h = cc
skipped true (err s) h = cc
skipped false r h = refl

taken :
    (b : Bool) (r : Result Stop (Option Confirmation))
    → b ≡ true
    → (if not b then ok none else r) ≡ ok none
    → r ≡ ok none
taken true r e h = h
taken false r e h = cc

both_empty :
    (o : Option Confirmation) (cs : List Confirmation)
    → ◌≡◌ {A = Result Stop (List Confirmation)} (ok (option_list o ++ cs)) (ok [])
    → (o ≡ none) × (cs ≡ [])
both_empty none [] h = (refl, refl)
both_empty none (c ∷ cs) h = cc
both_empty (some a) cs h = cc

one_of :
    (o : Option Confirmation) (cs : List Confirmation) (c : Confirmation)
    → ◌≡◌ {A = Result Stop (List Confirmation)} (ok (option_list o ++ cs)) (ok (c ∷ []))
    → ((o ≡ some c) × (cs ≡ [])) ⊎ ((o ≡ none) × (cs ≡ c ∷ []))
one_of none cs c h = inr (refl, ok-injective _ _ h)
one_of (some a) [] c h = let same : a ≡ c = ground (arith, h) in inl (ap some same, refl)
one_of (some a) (b ∷ cs) c h = let long : (a ∷ b ∷ cs) ≡ (c ∷ []) = ok-injective _ _ h in cc

module _ (viem : Viem) (abi : Abi) (gate : Text) (request : IssuanceRequest) (digest hash : Text)
    (anchor : Anchor) where
  issuance_of_none :
      (log : List Entry) (topics : List Text) (data_ : Text)
      → read_issuance viem abi gate request digest hash anchor log topics data_ ≡ ok none
      → (e : Issued) × (abi.decode_issued data_ topics ≡ some e)
        × (text_eq e.request_digest digest ≡ false)
  unfolding read_issuance
  issuance_of_none log topics data_ h =
      let (sized, h1) = past_guard (not (length topics == 4) || not (length data_ == 642)) _ _ h in
      let (log_hash, a, h2) = past_read (hash_of (get "transactionHash" log)) _ _ h1 in
      let (log_block, b, h3) = past_read (hash_of (get "blockHash" log)) _ _ h2 in
      let (removed, r, h4) = past_read (boolean_of (get "removed" log)) _ _ h3 in
      let (number, n, h5) = past_read (quantity (get "blockNumber" log)) _ _ h4 in
      let (index, i, h6) = past_read (quantity (get "logIndex" log)) _ _ h5 in
      let (kept, h7) = past_guard removed _ _ h6 in
      let (e, d, h8) = past_read (abi.decode_issued data_ topics) _ _ h7 in
      (e, d, skipped (text_eq e.request_digest digest) _ h8)

  gate_log_of_none :
      (log : Value) (es : List Entry)
      → record_entries log ≡ some es
      → read_gate_log viem abi gate request digest hash anchor es ≡ ok none
      → IsOther abi gate digest log
  unfolding read_gate_log
  gate_log_of_none log es is_record h =
      let (topics, has_topics, h1) = past_read (topics_of (get "topics" es)) _ _ h in
      let (data_, has_data, h2) = past_read (text_of (get "data" es)) _ _ h1 in
      let (bytes, h3) = past_guard (not (is_hex_bytes data_)) _ _ h2 in
      elim (Bool-cases (text_eq (lower (first_topic topics)) abi.issuance_topic)) [
        | inr other ↦ IsOther.other_event es topics is_record has_topics (differs _ _ other)
        | inl same ↦
            let (e, has_event, other) = issuance_of_none es topics data_ (taken _ _ same h3) in
            IsOther.other_request es topics data_ e is_record has_topics (eq_of_text_of _ has_data)
              has_event (differs _ _ other)
      ]

  -- A log that is passed over.
  pub read_log-IsOther :
      (log : Value)
      → read_log viem abi gate request digest hash anchor log ≡ ok none
      → IsOther abi gate digest log
  unfolding read_log
  read_log-IsOther log h =
      let (es, is_record, h1) = past_read (record_entries log) _ _ h in
      let (address, has_address, h2) = past_read (text_of (get "address" es)) _ _ h1 in
      let (valid, h3) = past_guard (not (viem.is_address address)) _ _ h2 in
      elim (Bool-cases (text_eq (lower address) (lower gate))) [
        | inr other ↦
            IsOther.other_contract es address is_record (eq_of_text_of _ has_address)
              (differs _ _ other)
        | inl same ↦ gate_log_of_none log es is_record (taken _ _ same h3)
      ]

  read_logs-none :
      (logs : List Value)
      → read_logs viem abi gate request digest hash anchor logs ≡ ok []
      → All (IsOther abi gate digest) logs
  unfolding read_logs
  read_logs-none [] h = tt
  read_logs-none (log ∷ logs) h =
      let (first, f, h1) = >>=-eq-ok (read_log viem abi gate request digest hash anchor log) _ h in
      let (rest, r, h2) =
        >>=-eq-ok (read_logs viem abi gate request digest hash anchor logs) _ h1 in
      let (a, b) = both_empty first rest h2 in
      (read_log-IsOther log (f ∙ ap ok a), read_logs-none logs (r ∙ ap ok b))

  pub read_logs-ExactlyOne :
      (logs : List Value) (c : Confirmation)
      → read_logs viem abi gate request digest hash anchor logs ≡ ok (c ∷ [])
      → ExactlyOne abi gate request digest hash anchor c logs
  unfolding read_logs
  read_logs-ExactlyOne [] c h = cc
  read_logs-ExactlyOne (log ∷ logs) c h =
      let (first, f, h1) = >>=-eq-ok (read_log viem abi gate request digest hash anchor log) _ h in
      let (rest, r, h2) =
        >>=-eq-ok (read_logs viem abi gate request digest hash anchor logs) _ h1 in
      elim (one_of first rest c h2) [
        | inl (a, b) ↦
            ExactlyOne.this
              (read_log-IsIssuance viem abi gate request digest hash anchor log c (f ∙ ap ok a))
              (read_logs-none logs (r ∙ ap ok b))
        | inr (a, b) ↦
            ExactlyOne.later (read_log-IsOther log (f ∙ ap ok a))
              (read_logs-ExactlyOne logs c (r ∙ ap ok b))
      ]
