-- ===== src/Domain/Boundary.antt =====
-- What the boundary of packages/domain promises of the requests that it lets in.
use ultratokenizer.Base.{
  ℕ, ◌^◌, ◌<◌, ◌↔◌, String, big_int, true, false, ◌≡◌, refl, ok, List, [], ◌∷◌, some, arith, All,
  Bool-cases, inl, inr, >>=-eq-ok, throw_if, not,
}
use ultratokenizer.Domain.Value.{Value, obj, Entry, entries, is_one_of, is_plain, has_own}
use ultratokenizer.Domain.Viem.{Viem, IsChecksum}
use ultratokenizer.Domain.Errors.{failure, invalid_shape}
use ultratokenizer.Domain.Fields.{record_of, check_keys, check_fields}
use ultratokenizer.Domain.Fields.Laws.{uint_lt}
use ultratokenizer.Domain.Request.{
  IssuanceRequest, fields, to_value, parse_issuance_request, assert_issuance_request_active,
  request_typed_data, get_issuance_request_digest, get_issuance_request_typed_data,
}
use ultratokenizer.Domain.Request.Canonical.{parse-IsCanonical, parse_of_IsCanonical}
use ultratokenizer.Domain.Request.Binding.{request_typed_data-injective}

-- Where the checksummed form of an address is stable, a request that was parsed, written out as an
-- object, parses again to the same request.
pub parse_idem :
    (viem : Viem) (input : Value) (r : IssuanceRequest)
    → IsChecksum viem
    → parse_issuance_request viem input ≡ ok r
    → parse_issuance_request viem (to_value r) ≡ ok r
parse_idem viem input r laws h = parse_of_IsCanonical viem r (parse-IsCanonical viem laws input r h)

-- Where the checksummed form of an address is stable and the hash of typed data tells the
-- messages of two requests apart, inputs that parse to the two and have one digest are one
-- request.
pub digest_binds :
    (viem : Viem) (v w : Value) (r s : IssuanceRequest)
    → IsChecksum viem
    → (viem.hash_typed_data (request_typed_data viem r)
          ≡ viem.hash_typed_data (request_typed_data viem s)
        → request_typed_data viem r ≡ request_typed_data viem s)
    → parse_issuance_request viem v ≡ ok r
    → parse_issuance_request viem w ≡ ok s
    → get_issuance_request_digest viem v ≡ get_issuance_request_digest viem w
    → r ≡ s
unfolding get_issuance_request_digest get_issuance_request_typed_data
digest_binds viem v w r s laws injective hv hw h =
    request_typed_data-injective viem r s (parse-IsCanonical viem laws v r hv)
      (parse-IsCanonical viem laws w s hw) (injective (ground (arith, hv, hw, h)))

-- A request is active at `now` exactly if it parses and `now` is before its `validUntil`.
pub active_iff :
    (viem : Viem) (input : Value) (now : ℕ) (r : IssuanceRequest)
    → (assert_issuance_request_active viem input (some now) ≡ ok r)
      ↔ ((parse_issuance_request viem input ≡ ok r) × (now < big_int r.valid_until))
unfolding assert_issuance_request_active
active_iff viem input now r = (forward, backward)
  where
    forward :
        assert_issuance_request_active viem input (some now) ≡ ok r
        → (parse_issuance_request viem input ≡ ok r) × (now < big_int r.valid_until)
    forward h =
        let (q, parsed, e) = >>=-eq-ok (parse_issuance_request viem input) _ h in
        let same : q ≡ r = ground (arith, e) in (rw (← same) parsed, ground arith)

    backward :
        (parse_issuance_request viem input ≡ ok r) × (now < big_int r.valid_until)
        → assert_issuance_request_active viem input (some now) ≡ ok r
    backward (parsed, before) = rw parsed (ground arith)

-- The bounds of the numbers of a parsed request.
pub record IsInRange (r : IssuanceRequest) : Type 0 where
  pub chain_id : big_int r.chain_id < 2 ^ 256
  pub amount : big_int r.amount < 2 ^ 256
  pub policy_version : big_int r.policy_version < 2 ^ 64
  pub rights_version : big_int r.rights_version < 2 ^ 64
  pub nonce : big_int r.nonce < 2 ^ 256
  pub valid_until : big_int r.valid_until < 2 ^ 64
  pub some_amount : 0 < big_int r.amount
  pub some_chain : 0 < big_int r.chain_id

-- Where the checksummed form of an address is stable, the numbers of a parsed request fit the words
-- that they are encoded in (256 bits for the chain, the amount and the nonce, 64 for the versions
-- and the time), and the chain and the amount are above zero.
pub parse-IsInRange :
    (viem : Viem) (input : Value) (r : IssuanceRequest)
    → IsChecksum viem
    → parse_issuance_request viem input ≡ ok r
    → IsInRange r
parse-IsInRange viem input r laws h =
    let c = parse-IsCanonical viem laws input r h in
    record {
      chain_id = (uint_lt _ "chainId" 256 false c.chain_id).1;
      amount = (uint_lt _ "amount" 256 false c.amount).1;
      policy_version = (uint_lt _ "policyVersion" 64 false c.policy_version).1;
      rights_version = (uint_lt _ "rightsVersion" 64 false c.rights_version).1;
      nonce = (uint_lt _ "nonce" 256 true c.nonce).1;
      valid_until = (uint_lt _ "validUntil" 64 false c.valid_until).1;
      some_amount = (uint_lt _ "amount" 256 false c.amount).2 refl;
      some_chain = (uint_lt _ "chainId" 256 false c.chain_id).2 refl;
    }

keys-known :
    (names : List String) (es : List Entry)
    → check_keys names es ≡ ok tt
    → All (λ e. is_one_of names e.key ≡ true) es
unfolding check_keys
keys-known names [] h = tt
keys-known names (e ∷ es) h = elim (Bool-cases (is_one_of names e.key)) [
  | inl known ↦ (known, keys-known names es (ground arith))
  | inr unknown ↦ absurd (ground arith)
]

fields-present :
    (names : List String) (es : List Entry)
    → check_fields names es ≡ ok tt
    → All (λ field. has_own field es ≡ true) names
unfolding check_fields
fields-present [] es h = tt
fields-present (n ∷ names) es h = elim (Bool-cases (has_own n es)) [
  | inl present ↦ (present, fields-present names es (ground arith))
  | inr missing ↦ absurd (ground arith)
]

-- The input is a plain object whose own keys are the fields of a request, all of them.
abbrev pub IsExact : Value → Type 0
IsExact (obj proto props) =
    (is_plain proto ≡ true)
    × All (λ e. is_one_of fields e.key ≡ true) (entries props)
    × All (λ field. has_own field (entries props) ≡ true) fields
IsExact _ = ⊥

record_of-IsExact :
    (input : Value) (es : List Entry) → record_of fields input ≡ ok es → IsExact input
unfolding record_of
record_of-IsExact (obj proto props) es h =
    let own = entries props in
    let (u, plain, checked) =
      >>=-eq-ok (throw_if (not (is_plain proto)) (failure invalid_shape "$")) _ h in
    let (v, known, rest) = >>=-eq-ok (check_keys fields own) _ checked in
    let (w, present, done) = >>=-eq-ok (check_fields fields own) _ rest in
    (ground (arith, plain), keys-known fields own known, fields-present fields own present)
record_of-IsExact v es h = cc

-- What parses is a plain object that has each of the seventeen fields as an own key and no other own
-- key, symbols included.
pub parse-IsExact :
    (viem : Viem) (input : Value) (r : IssuanceRequest)
    → parse_issuance_request viem input ≡ ok r
    → IsExact input
unfolding parse_issuance_request
parse-IsExact viem input r h =
    let (es, admitted, _) = >>=-eq-ok (record_of fields input) _ h in
    record_of-IsExact input es admitted
