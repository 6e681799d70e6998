-- ===== src/Worker/Routes/Allowed.antt =====
-- What an owner may ask of its tenant, and that the method which `fetch` decides on is of that kind.
use ultratokenizer.Base.{
  ℕ, ◌/◌, Text, String, codes, text_eq, text_eq_iff, lower, Bool, true, false, not, ◌&&◌, ◌||◌, ◌≡◌,
  inl, inr, refl, ap, ◌∙◌, subst, List, [], ◌∷◌, Option, none, some, ok, err, ◌==◌, length,
  if◌then◌else◌, Bool-cases, rethrow, >>=-eq-ok, past_guard, past_read, ok-injective, arith,
}
use ultratokenizer.Domain.Value.{Value, str, Entry, get}
use ultratokenizer.Domain.Viem.{Viem, TypedData}
use ultratokenizer.Domain.Errors.{Checked}
use ultratokenizer.Domain.Request.{
  IssuanceRequest, to_value, assert_issuance_request_active, get_issuance_request_typed_data,
}
use ultratokenizer.Worker.Errors.{Response, Failure, worker, ErrorCode}
use ultratokenizer.Worker.Observer.{is_hash}
use ultratokenizer.Worker.Body.{exact_keys, read_json}
use ultratokenizer.Worker.Auth.{Principal, Jose, text_in}
use ultratokenizer.Worker.Routes.{
  Environment, HttpRequest, Platform, Action, Method, is_get, is_post, is_json, is_signature,
  route_of, hash_route, check_creation, decide_creation, decide_submission, decide_action,
  decide_method,
}

-- The body of the HTTP message: a JSON object with these keys and no others.
pub record HasBody (jose : Jose) (platform : Platform) (r : HttpRequest) (maximum : ℕ)
    (keys : List String) (body : List Entry) : Type 0 where
  pub value : Value
  pub is_read : read_json platform.decode_utf8 jose.parse_json r.message maximum ≡ ok value
  pub has_keys : exact_keys value keys ≡ ok body

-- The body of the message holds the request, for the chain and the gate of the worker, before its
-- end, and the signature of its recipient.
pub record IsSigned (viem : Viem) (jose : Jose) (platform : Platform) (env : Environment) (now : ℕ)
    (r : HttpRequest) (wallet : Text) (request : IssuanceRequest) : Type 0 where
  pub body : List Entry
  pub has_body : HasBody jose platform r 16384 ("request" ∷ "holderSignature" ∷ []) body
  pub is_active :
      assert_issuance_request_active viem (get "request" body) (some (now / 1000)) ≡ ok request
  pub recipient : request.recipient ≡ wallet
  pub chain_id : request.chain_id ≡ env.chain.chain_id
  pub gate : lower request.gate ≡ lower env.chain.gate
  pub typed : TypedData
  pub has_typed : get_issuance_request_typed_data viem (to_value request) ≡ ok typed
  pub signature : Text
  pub has_signature : get "holderSignature" body ≡ str signature
  pub is_signed : platform.verify_typed_data typed wallet signature ≡ some true

-- The path of the message names a request by its hash, and the action.
pub record IsRouted (r : HttpRequest) (action : Option Action) (id : Text) : Type 0 where
  pub has_route : route_of r.pathname ≡ some (id, action)
  pub has_hash : is_hash (str id) ≡ true

-- The body of the message holds the hash of a transaction, in whatever case.
pub record IsSubmitted (jose : Jose) (platform : Platform) (r : HttpRequest) (hash : Text)
    : Type 0 where
  pub body : List Entry
  pub has_body : HasBody jose platform r 256 ("transactionHash" ∷ []) body
  pub given : Text
  pub has_given : get "transactionHash" body ≡ str given
  pub given_is_hash : is_hash (str given) ≡ true
  pub is_lower : lower given ≡ hash

text_in-eq : (v : Value) (t : Text) → text_in v ≡ some t → v ≡ str t
text_in-eq Value.undefined t h = cc
text_in-eq Value.null t h = cc
text_in-eq Value.other t h = cc
text_in-eq (Value.boolean b) t h = cc
text_in-eq (Value.number n) t h = cc
text_in-eq (str s) t h = let same : s ≡ t = ground (arith, h) in ap str same
text_in-eq (Value.arr items) t h = cc
text_in-eq (Value.obj proto props) t h = cc

rethrow_eq : {A : Type 0} (r : Checked A) (e : Failure) {a : A} → rethrow r e ≡ ok a → r ≡ ok a
rethrow_eq (err x) e h = cc
rethrow_eq (ok b) e h = ap ok (ok-injective _ _ h)

of_not : (b : Bool) → not b ≡ false → b ≡ true
of_not b h = ground (arith, h)

neither : (a b : Bool) → (not a || not b) ≡ false → (a ≡ true) × (b ≡ true)
neither a b h = ground (arith, h)

module _ (viem : Viem) (jose : Jose) (platform : Platform) (env : Environment) (now : ℕ)
    (r : HttpRequest) where
  -- What an owner may ask of its tenant.
  abbrev pub IsAllowed : Principal → Method → Type 0
  IsAllowed p (Method.create request) = IsSigned viem jose platform env now r p.wallet request
  IsAllowed p (Method.inspect id) = IsRouted r none id
  IsAllowed p (Method.cancels id) = IsRouted r (some Action.cancel) id
  IsAllowed p (Method.reconciles id) = IsRouted r (some Action.reconcile) id
  IsAllowed p (Method.submit id hash) =
      IsRouted r (some Action.transactions) id × IsSubmitted jose platform r hash

  check_creation-IsSigned :
      (p : Principal) (body : List Entry) (request : IssuanceRequest)
      → HasBody jose platform r 16384 ("request" ∷ "holderSignature" ∷ []) body
      → check_creation viem jose platform env now r p body ≡ ok request
      → IsSigned viem jose platform env now r p.wallet request
  unfolding check_creation
  check_creation-IsSigned p body request from h =
      let (q, active, h1) =
        >>=-eq-ok
          (rethrow (assert_issuance_request_active viem (get "request" body) (some (now / 1000)))
            (worker ErrorCode.invalid_request))
          _ h in
      let (mine, h2) = past_guard (not (text_eq q.recipient p.wallet)) _ _ h1 in
      let (pinned, h3) =
        past_guard
          (not (text_eq q.chain_id env.chain.chain_id)
            || not (text_eq (lower q.gate) (lower env.chain.gate)))
          _ _ h2 in
      let (signature, has, h4) = past_read (text_in (get "holderSignature" body)) _ _ h3 in
      let (shaped, h5) = past_guard (not (is_signature signature)) _ _ h4 in
      let (typed, t, h6) =
        >>=-eq-ok
          (rethrow (get_issuance_request_typed_data viem (to_value q))
            (worker ErrorCode.invalid_request))
          _ h5 in
      let (valid, v, h7) = past_read (platform.verify_typed_data typed p.wallet signature) _ _ h6 in
      let (sound, made) = past_guard (not valid) _ _ h7 in
      let (chain, gate) = neither _ _ pinned in
      subst (IsSigned viem jose platform env now r p.wallet) (ok-injective q request made) (record {
        body = body;
        has_body = from;
        is_active = rethrow_eq _ _ active;
        recipient = (text_eq_iff _ _).0 (of_not _ mine);
        chain_id = (text_eq_iff _ _).0 chain;
        gate = (text_eq_iff _ _).0 gate;
        typed = typed;
        has_typed = rethrow_eq _ _ t;
        signature = signature;
        has_signature = text_in-eq _ _ has;
        is_signed = v ∙ ap some (of_not _ sound);
      })

  decide_creation-IsAllowed :
      (p : Principal) (m : Method)
      → decide_creation viem jose platform env now r p ≡ ok m
      → IsAllowed p m
  unfolding decide_creation
  decide_creation-IsAllowed p m h =
      let (typed, h1) = past_guard (not (is_json r.content_type)) _ _ h in
      let (value, read, h2) =
        >>=-eq-ok (read_json platform.decode_utf8 jose.parse_json r.message 16384) _ h1 in
      let (body, keys, h3) =
        >>=-eq-ok (exact_keys value ("request" ∷ "holderSignature" ∷ [])) _ h2 in
      let (request, checked, made) =
        >>=-eq-ok (check_creation viem jose platform env now r p body) _ h3 in
      subst (IsAllowed p) (ok-injective (Method.create request) m made) (
        check_creation-IsSigned p body request
          (record { value = value; is_read = read; has_keys = keys }) checked)

  decide_submission-IsAllowed :
      (p : Principal) (id : Text) (m : Method)
      → IsRouted r (some Action.transactions) id
      → decide_submission viem jose platform env now r id ≡ ok m
      → IsAllowed p m
  unfolding decide_submission
  decide_submission-IsAllowed p id m g h =
      let (typed, h1) = past_guard (not (is_json r.content_type)) _ _ h in
      let (value, read, h2) =
        >>=-eq-ok (read_json platform.decode_utf8 jose.parse_json r.message 256) _ h1 in
      let (body, keys, h3) = >>=-eq-ok (exact_keys value ("transactionHash" ∷ [])) _ h2 in
      let (valid, h4) = past_guard (not (is_hash (get "transactionHash" body))) _ _ h3 in
      let (hash, has, made) = past_read (text_in (get "transactionHash" body)) _ _ h4 in
      subst (IsAllowed p) (ok-injective (Method.submit id (lower hash)) m made) (
        g,
        record {
          body = body;
          has_body = record { value = value; is_read = read; has_keys = keys };
          given = hash;
          has_given = text_in-eq _ _ has;
          given_is_hash =
              subst (λ (v : Value). is_hash v ≡ true) (text_in-eq _ _ has) (of_not _ valid);
          is_lower = refl;
        },
      )

  if_made :
      (p : Principal) (b : Bool) (n m : Method)
      → IsAllowed p n
      → ◌≡◌ {A = Response Method} (if b then ok n else err (worker ErrorCode.not_found)) (ok m)
      → IsAllowed p m
  if_made p true n m g h = subst (IsAllowed p) (ok-injective n m h) g
  if_made p false n m g h = cc

  decide_action-IsAllowed :
      (p : Principal) (id : Text) (a : Option Action) (m : Method)
      → IsRouted r a id
      → decide_action viem jose platform env now r id a ≡ ok m
      → IsAllowed p m
  decide_action-IsAllowed p id none m g h = if_made p (is_get r) (Method.inspect id) m g h
  decide_action-IsAllowed p id (some Action.cancel) m g h =
      if_made p (is_post r) (Method.cancels id) m g h
  decide_action-IsAllowed p id (some Action.reconcile) m g h =
      if_made p (is_post r) (Method.reconciles id) m g h
  decide_action-IsAllowed p id (some Action.transactions) m g h = elim (Bool-cases (is_post r)) [
    | inl post ↦ decide_submission-IsAllowed p id m g (rw post at h)
    | inr other ↦ ground (arith, h, other)
  ]

  hash_route-eq :
      (o : Option (Text × Option Action)) (id : Text) (a : Option Action)
      → hash_route o ≡ ok (id, a)
      → (o ≡ some (id, a)) × (is_hash (str id) ≡ true)
  unfolding hash_route
  hash_route-eq none id a h = cc
  hash_route-eq (some (i, b)) id a h =
      let (valid, made) = past_guard (not (is_hash (str i))) _ _ h in
      let same = ok-injective (i, b) (id, a) made in
      (
        ap some same,
        subst (λ (x : Text × Option Action). is_hash (str x.0) ≡ true) same (of_not _ valid),
      )

  pub decide_method-IsAllowed :
      (p : Principal) (m : Method)
      → decide_method viem jose platform env now r p ≡ ok m
      → IsAllowed p m
  unfolding decide_method
  decide_method-IsAllowed p m h =
      let (bare, h1) = past_guard (not (length r.search == 0)) _ _ h in
      elim (Bool-cases (is_post r && text_eq r.pathname (codes "/v1/requests"))) [
        | inl creates ↦ decide_creation-IsAllowed p m (rw creates at h1)
        | inr other ↦
            let ((id, a), routed, h2) =
              >>=-eq-ok (hash_route (route_of r.pathname)) _ (rw other at h1) in
            let (route, valid) = hash_route-eq (route_of r.pathname) id a routed in
            decide_action-IsAllowed p id a m (record { has_route = route; has_hash = valid }) h2
      ]
