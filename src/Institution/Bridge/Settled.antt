-- ===== src/Institution/Bridge/Settled.antt =====
-- What the bridge has read of the chain when it releases an allocation.
use ultratokenizer.Base.{
  ℕ, Text, codes, text_eq, text_eq_iff, big_int, Bool, true, false, not, ◌&&◌, ◌≡◌, refl, ap, sym,
  ◌∙◌, subst, Option, none, some, ok, err, leb, leb→le, ◌==◌, ==_iff, length, rethrow, >>=-eq-ok,
  ok-injective, past_guard, past_read, arith, inl, inr, throw_if-eq-ok, Bool-cases,
}
use ultratokenizer.Domain.Viem.{Viem}
use ultratokenizer.Domain.Errors.{Checked}
use ultratokenizer.Domain.Request.{IssuanceRequest, to_value, get_issuance_request_digest}
use ultratokenizer.Institution.Types.{Allocation}
use ultratokenizer.Institution.Bridge.{
  BridgeError, unresolved, Pins, Reader, Anchored, State, word, nullable, is_number, is_hash_text,
  is_expected, is_gate_code, is_anchored, deployment_number, anchored, state, matching_reservation,
}
use ultratokenizer.Institution.Bridge.Release.{
  Verdict, is_absent, is_unused, expired_value, unused_value, confirmed_number, decide_expired,
  decide_unused,
}
use ultratokenizer.Institution.Bridge.Shown.{
  IsPinned, IsAnswered, IsAbsent, IsUnused, IsOfRequest, IsExpired, IsReleased,
}

of_match : (b : Bool) → not b ≡ false → b ≡ true
of_match b h = ground (arith, h)

rethrow_eq : {A : Type 0} (r : Checked A) (e : BridgeError) {a : A} → rethrow r e ≡ ok a → r ≡ ok a
rethrow_eq (err x) e h = cc
rethrow_eq (ok b) e h = ap ok (ok-injective _ _ h)

is_absent-IsAbsent : (observed : State) → is_absent observed ≡ true → IsAbsent observed
unfolding is_absent
is_absent-IsAbsent observed h = record {
  recipient = (text_eq_iff _ _).0 (ground (arith, h));
  token = (text_eq_iff _ _).0 (ground (arith, h));
  capacity = ground (arith, h);
  used = ground (arith, h);
  valid_until = ground (arith, h);
  revoked = ground (arith, h);
  request_digest = (text_eq_iff _ _).0 (ground (arith, h));
  claim_usage_id = (text_eq_iff _ _).0 (ground (arith, h));
  released = ground (arith, h);
  request_used = ground (arith, h);
  claim_used = ground (arith, h);
}

is_unused-IsUnused :
    (observed : State) (timestamp : ℕ)
    → is_unused observed timestamp ≡ true
    → IsUnused observed timestamp
unfolding is_unused
is_unused-IsUnused observed timestamp h = record {
  released = ground (arith, h);
  used = ground (arith, h);
  request_used = ground (arith, h);
  claim_used = ground (arith, h);
  is_over = elim (Bool-cases observed.reservation.revoked) [
    | inl revoked ↦ inl revoked
    | inr standing ↦ inr (ground (arith, h, standing))
  ];
}

six :
    (a b c d e f : Bool)
    → not (a && b && c && d && e && f) ≡ false
    → (a ≡ true) × (b ≡ true) × (c ≡ true) × (d ≡ true) × (e ≡ true) × (f ≡ true)
six a b c d e f h = ground (arith, h)

seven :
    (a b c d e f g : Bool)
    → not (a && b && c && d && e && f && g) ≡ false
    → (a ≡ true) × (b ≡ true) × (c ≡ true) × (d ≡ true) × (e ≡ true) × (f ≡ true) × (g ≡ true)
seven a b c d e f g h = ground (arith, h)

third : (a b c : Bool) → (a && b && c) ≡ true → c ≡ true
third a b c h = ground (arith, h)

number_eq : (n : ℕ) (o : Option ℕ) → is_number n o ≡ true → o ≡ some n
number_eq n none h = cc
number_eq n (some m) h = ap some ((==_iff m n).0 h)

hash_eq : (t : Text) (o : Option Text) → is_hash_text t o ≡ true → o ≡ some t
hash_eq t none h = cc
hash_eq t (some s) h = ap some ((text_eq_iff s t).0 h)

module _ (viem : Viem) (pins : Pins) (reader : Reader) where
  gate_code :
      (o : Option Text)
      → is_gate_code viem pins reader o ≡ true
      → (code : Text) × (o ≡ some code) × (reader.keccak256 code ≡ pins.gate_code_hash)
  gate_code none h = cc
  gate_code (some code) h = (
    code,
    refl,
    (text_eq_iff _ _).0 (third (not (length code == 0)) (not (text_eq code (codes "0x"))) _ h),
  )

  anchored-IsPinned :
      (turn number : ℕ) (expected : Option Text) (a : Anchored)
      → anchored viem pins reader turn number expected ≡ ok a
      → IsPinned viem pins reader turn number a × (is_expected expected a.block_hash ≡ true)
  unfolding anchored
  anchored-IsPinned turn number expected a h =
      let (chain, has_chain, h1) = past_read (reader.get_chain_id turn) _ _ h in
      let (head, has_head, h2) = past_read (reader.get_block_number turn) _ _ h1 in
      let (block, has_block, h3) = past_read (reader.get_block turn number) _ _ h2 in
      let (deployment, has_deployment, h4) =
        past_read (reader.get_block turn (deployment_number viem pins reader)) _ _ h3 in
      let (code, has_code, h5) = past_read (reader.get_code turn pins.gate number) _ _ h4 in
      let (matched, h6) =
        past_guard (not (is_anchored viem pins reader number chain head block deployment code)) _ _
          h5 in
      let (hash, hashed, h7) = >>=-eq-ok (word (nullable block.hash)) _ h6 in
      let (expects, made) = past_guard (not (is_expected expected hash)) _ _ h7 in
      let (c, n, d, deep, dn, dh, g) = seven _ _ _ _ _ _ _ matched in
      let (gate, is_code, is_gate) = gate_code code g in
      subst
        (λ (x : Anchored).
          IsPinned viem pins reader turn number x × (is_expected expected x.block_hash ≡ true))
        (ok-injective (record { block_hash = hash; block_timestamp = block.timestamp }) a made)
        (
          record {
            on_chain = has_chain ∙ ap some ((==_iff _ _).0 c);
            head = head;
            has_head = has_head;
            is_deep = leb→le _ _ deep;
            block = block;
            has_block = has_block;
            of_number = number_eq _ _ n;
            of_hash = hashed;
            of_time = refl;
            is_after = leb→le _ _ d;
            deployment = deployment;
            has_deployment = has_deployment;
            deployment_hash = hash_eq _ _ dh;
            code = gate;
            has_code = has_code ∙ ap some is_code;
            is_gate = is_gate;
          },
          of_match _ expects,
        )

  state-IsAnswered :
      (turn number : ℕ) (request : IssuanceRequest) (observed : State)
      → state viem pins reader turn request number ≡ ok observed
      → IsAnswered viem reader turn request number observed
  unfolding state
  state-IsAnswered turn number request observed h =
      let (r, has_r, h1) =
        past_read (reader.reservations turn request.issuer_id request.reservation_id number) _ _
          h in
      let (digest, d, h2) =
        >>=-eq-ok (rethrow (get_issuance_request_digest viem (to_value request)) unresolved) _ h1 in
      let (q, has_q, h3) = past_read (reader.used_requests turn digest number) _ _ h2 in
      let (c, has_c, made) =
        past_read (reader.used_claims turn request.claim_usage_id number) _ _ h3 in
      subst (IsAnswered viem reader turn request number)
        (ok-injective (record { reservation = r; request_used = q; claim_used = c }) observed made)
        (record {
          has_reservation = has_r;
          digest = digest;
          has_digest = rethrow_eq _ _ d;
          has_request = has_q;
          has_claim = has_c;
        })

  matching-IsOfRequest :
      (request : IssuanceRequest) (observed : State)
      → matching_reservation viem pins reader request observed ≡ ok tt
      → IsOfRequest viem request observed.reservation
  unfolding matching_reservation
  matching-IsOfRequest request observed h =
      let (digest, d, h1) =
        >>=-eq-ok (rethrow (get_issuance_request_digest viem (to_value request)) unresolved) _ h in
      let (r, t, a, v, q, c) = six _ _ _ _ _ _ (throw_if-eq-ok _ _ h1) in
      record {
        recipient = (text_eq_iff _ _).0 r;
        token = (text_eq_iff _ _).0 t;
        capacity = (==_iff _ _).0 a;
        lasts = leb→le _ _ v;
        digest = rethrow_eq _ _ d ∙ ap ok (sym ((text_eq_iff _ _).0 q));
        claim_usage_id = (text_eq_iff _ _).0 c;
      }

  pub decide_expired-IsExpired :
      (late : Bool) (current : Allocation) (v : Verdict)
      → decide_expired viem pins reader late current ≡ ok v
      → (number : ℕ) × (block : Anchored) × IsExpired viem pins reader current.request number block
        × (v ≡ Verdict.settles (expired_value current block number))
  unfolding decide_expired
  decide_expired-IsExpired late current v h =
      let (number, n, h1) = >>=-eq-ok (confirmed_number viem pins reader) _ h in
      let (block, b, h2) = >>=-eq-ok (anchored viem pins reader 1 number none) _ h1 in
      let (over, h3) =
        past_guard (not (leb (big_int current.request.valid_until) block.block_timestamp)) _ _ h2 in
      let (observed, o, h4) = >>=-eq-ok (state viem pins reader 2 current.request number) _ h3 in
      let (absent, h5) = past_guard (not (is_absent observed)) _ _ h4 in
      let (again, a, h6) =
        >>=-eq-ok (anchored viem pins reader 3 number (some block.block_hash)) _ h5 in
      let (timed, h7) = past_guard (not (again.block_timestamp == block.block_timestamp)) _ _ h6 in
      let (in_time, made) = past_guard late _ _ h7 in
      let (pinned, same_hash) = anchored-IsPinned 3 number (some block.block_hash) again a in
      (
        number,
        block,
        record {
          first = (anchored-IsPinned 1 number none block b).0;
          again =
              subst (IsPinned viem pins reader 3 number)
                (same_block again block (sym ((text_eq_iff _ _).0 same_hash))
                  ((==_iff _ _).0 (of_match _ timed)))
                pinned;
          is_over = leb→le _ _ (of_match _ over);
          observed = observed;
          answered = state-IsAnswered 2 number current.request observed o;
          absent = is_absent-IsAbsent observed (of_match _ absent);
        },
        sym (ok-injective _ v made),
      )
    where
      same_block :
          (x y : Anchored)
          → x.block_hash ≡ y.block_hash
          → x.block_timestamp ≡ y.block_timestamp
          → x ≡ y
      same_block x y p q = cc

  pub decide_unused-IsReleased :
      (late : Bool) (current : Allocation) (v : Verdict)
      → decide_unused viem pins reader late current ≡ ok v
      → (number : ℕ) × (block : Anchored) × (observed : State) × IsReleased viem pins reader
          current.request number block observed
        × (v ≡ Verdict.settles (unused_value current block number observed.reservation.revoked))
  unfolding decide_unused
  decide_unused-IsReleased late current v h =
      let (number, n, h1) = >>=-eq-ok (confirmed_number viem pins reader) _ h in
      let (block, b, h2) = >>=-eq-ok (anchored viem pins reader 1 number none) _ h1 in
      let (observed, o, h3) = >>=-eq-ok (state viem pins reader 2 current.request number) _ h2 in
      let (u, matched, h4) =
        >>=-eq-ok (matching_reservation viem pins reader current.request observed) _ h3 in
      let (unused, h5) = past_guard (not (is_unused observed block.block_timestamp)) _ _ h4 in
      let (last, a, h6) =
        >>=-eq-ok (anchored viem pins reader 3 number (some block.block_hash)) _ h5 in
      let (in_time, made) = past_guard late _ _ h6 in
      let (again, same_hash) = anchored-IsPinned 3 number (some block.block_hash) last a in
      (
        number,
        block,
        observed,
        record {
          first = (anchored-IsPinned 1 number none block b).0;
          last = last;
          again = again;
          same_block = sym ((text_eq_iff _ _).0 same_hash);
          answered = state-IsAnswered 2 number current.request observed o;
          of_request = matching-IsOfRequest current.request observed matched;
          unused = is_unused-IsUnused observed block.block_timestamp (of_match _ unused);
        },
        sym (ok-injective _ v made),
      )
