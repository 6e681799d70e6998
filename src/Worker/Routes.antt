-- ===== src/Worker/Routes.antt =====
-- workers/issuance/src/index.ts: which call a request makes, and the response. Each branch of
-- `fetch` ends with at most one call of a tenant, so `decide` is what comes before it.
pub mod Serve
pub mod Allowed
pub mod Authorized
pub mod Tenants
mod Tests
use ultratokenizer.Base.{
  ℕ, zero, suc, ◌/◌, Text, codes, text_eq, lower, all_chars, is_hex_digit, is_space, Bool, true,
  false, not, ◌&&◌, ◌||◌, List, [], ◌∷◌, ◌++◌, Option, none, some, Result, ok, err, leb, ◌==◌,
  length, if◌then◌else◌, ◌>>=◌, ◌>>◌, throw_if, or_throw, rethrow,
}
use ultratokenizer.Domain.Value.{Value, str, Entry, get}
use ultratokenizer.Domain.Viem.{Viem, TypedData}
use ultratokenizer.Domain.Json.{after_space}
use ultratokenizer.Domain.Request.{
  IssuanceRequest, to_value, assert_issuance_request_active, get_issuance_request_typed_data,
}
use ultratokenizer.Worker.Errors.{Response, worker, ErrorCode}
use ultratokenizer.Worker.Observer.{ChainConfiguration, Url, validate_chain_configuration, is_hash}
use ultratokenizer.Worker.Body.{Message, exact_keys, read_json}
use ultratokenizer.Worker.Auth.{
  AuthConfiguration, Principal, Jose, after_prefix, text_in, authenticate,
}

pub record Environment : Type 0 where
  pub allowed_origin : Text
  pub chain : ChainConfiguration
  pub auth : AuthConfiguration

-- A request; `pathname` and `search` are those of its URL.
pub record HttpRequest : Type 0 where
  pub method : Text
  pub pathname : Text
  pub search : Text
  pub origin : Option Text
  pub authorization : Option Text
  pub content_type : Option Text
  pub connecting_ip : Option Text
  pub message : Message

-- What else is called: `new URL` of the node, `RateLimit.limit` at its first and second call,
-- `verifyTypedData` for a message, an address and a signature, and what reads a body.
pub record Platform : Type 0 where
  pub parse_url : Text → Option Url
  pub limit : ℕ → Text → Bool
  pub verify_typed_data : TypedData → Text → Text → Option Bool
  pub decode_utf8 : List ℕ → Option Text

pub data Action : Type 0 where
  transactions cancel reconcile : Action

-- A call of a tenant, for an owner.
pub data Method : Type 0 where
  create : IssuanceRequest → Method
  inspect cancels reconciles : (id : Text) → Method
  submit : (id hash : Text) → Method

pub data Call : Type 0 where
  health preflight : Call
  tenant : (tenant_id owner_id : Text) → Method → Call

-- `origin && origin === env.ALLOWED_ORIGIN ? origin : undefined`
unfoldable pub allowed_origin : Environment → Option Text → Option Text
allowed_origin env none = none
allowed_origin env (some origin) =
    if not (length origin == 0) && text_eq origin env.allowed_origin then some origin else none

-- `origin && !allowedOrigin`
unfoldable pub is_foreign : Environment → Option Text → Bool
is_foreign env none = false
is_foreign env (some origin) = not (length origin == 0) && not (text_eq origin env.allowed_origin)

abbrev pub is_get : HttpRequest → Bool
is_get request = text_eq request.method (codes "GET")

abbrev pub is_post : HttpRequest → Bool
is_post request = text_eq request.method (codes "POST")

abbrev pub before_semicolon : Text → Text
before_semicolon [] = []
before_semicolon (c ∷ t) = if c == b';' then [] else c ∷ before_semicolon t

abbrev pub push_unless_space : ℕ → Text → Text
push_unless_space c [] = if is_space c then [] else c ∷ []
push_unless_space c (d ∷ t) = c ∷ d ∷ t

-- `trim` at the end.
unfoldable pub trim_end : Text → Text
unfolding is_space
trim_end [] = []
trim_end (c ∷ t) = push_unless_space c (trim_end t)

-- `…?.split(';')[0]?.trim() === 'application/json'`
unfoldable pub is_json : Option Text → Bool
unfolding after_space trim_end
is_json none = false
is_json (some t) = text_eq (after_space (trim_end (before_semicolon t))) (codes "application/json")

abbrev pub is_lower_hex : ℕ → Bool
is_lower_hex c = leb b'0' c && leb c b'9' || leb b'a' c && leb c b'f'

abbrev pub action_of : Text → Option Action
action_of t =
    if text_eq t (codes "/transactions")
    then some Action.transactions
    else if text_eq t (codes "/cancel")
    then some Action.cancel
    else if text_eq t (codes "/reconcile")
    then some Action.reconcile
    else none

-- After the identifier: nothing, or an action.
abbrev pub route_end : Text → Text → Option (Text × Option Action)
route_end id [] = some (id, none)
route_end id (c ∷ t) = elim (action_of (c ∷ t)) [ none ↦ none | some a ↦ some (id, some a) ]

-- `0x` and then so many digits.
unfoldable pub route_digits : ℕ → Text → Text → Option (Text × Option Action)
route_digits zero id t = route_end id t
route_digits (suc n) id [] = none
route_digits (suc n) id (c ∷ t) = if is_lower_hex c then route_digits n (id ++ (c ∷ [])) t else none

-- `/^\/v1\/requests\/(0x[0-9a-f]{64})(?:\/(transactions|cancel|reconcile))?$/`
unfoldable pub route_of : Text → Option (Text × Option Action)
unfolding route_digits
route_of pathname = elim (after_prefix (codes "/v1/requests/0x") pathname) [
  | none ↦ none
  | some t ↦ route_digits 64 (codes "0x") t
]

-- A route whose identifier is a hash.
unfoldable pub hash_route : Option (Text × Option Action) → Response (Text × Option Action)
unfolding is_hash
hash_route none = err (worker ErrorCode.not_found)
hash_route (some (id, action)) = do
  throw_if (not (is_hash (str id))) (worker ErrorCode.not_found)
  ok (id, action)

-- `/^0x[0-9a-fA-F]{130}$/`
unfoldable pub is_signature : Text → Bool
unfolding all_chars is_hex_digit
is_signature (a ∷ b ∷ t) = a == b'0' && b == b'x' && length t == 130 && all_chars is_hex_digit t
is_signature _ = false

abbrev pub edge_key : Option Text → Text
edge_key none = codes "edge:unknown"
edge_key (some ip) = codes "edge:" ++ ip

module _ (viem : Viem) (jose : Jose) (platform : Platform) (env : Environment) (now : ℕ)
    (request : HttpRequest) where
  -- The request of a creation: active, for the wallet of its sender and the chain and gate of the
  -- worker, and signed by that wallet.
  unfoldable pub check_creation : Principal → List Entry → Response IssuanceRequest
  unfolding assert_issuance_request_active get_issuance_request_typed_data is_signature
  check_creation principal body = do
    canonical ←
        rethrow (assert_issuance_request_active viem (get "request" body) (some (now / 1000)))
          (worker ErrorCode.invalid_request)
    throw_if (not (text_eq canonical.recipient principal.wallet)) (worker ErrorCode.forbidden)
    throw_if
        (not (text_eq canonical.chain_id env.chain.chain_id)
          || not (text_eq (lower canonical.gate) (lower env.chain.gate)))
        (worker ErrorCode.invalid_request)
    signature ← or_throw (text_in (get "holderSignature" body)) (worker ErrorCode.invalid_request)
    throw_if (not (is_signature signature)) (worker ErrorCode.invalid_request)
    typed ←
        rethrow (get_issuance_request_typed_data viem (to_value canonical))
          (worker ErrorCode.invalid_request)
    valid ←
        or_throw (platform.verify_typed_data typed principal.wallet signature)
          (worker ErrorCode.invalid_request)
    throw_if (not valid) (worker ErrorCode.forbidden)
    ok canonical

  unfoldable pub decide_creation : Principal → Response Method
  unfolding is_json read_json exact_keys check_creation
  decide_creation principal = do
    throw_if (not (is_json request.content_type)) (worker ErrorCode.invalid_request)
    value ← read_json platform.decode_utf8 jose.parse_json request.message 16384
    body ← exact_keys value ("request" ∷ "holderSignature" ∷ [])
    canonical ← check_creation principal body
    ok (Method.create canonical)

  unfoldable pub decide_submission : Text → Response Method
  unfolding is_json read_json exact_keys is_hash
  decide_submission id = do
    throw_if (not (is_json request.content_type)) (worker ErrorCode.invalid_request)
    value ← read_json platform.decode_utf8 jose.parse_json request.message 256
    body ← exact_keys value ("transactionHash" ∷ [])
    throw_if (not (is_hash (get "transactionHash" body))) (worker ErrorCode.invalid_request)
    hash ← or_throw (text_in (get "transactionHash" body)) (worker ErrorCode.invalid_request)
    ok (Method.submit id (lower hash))

  abbrev pub decide_action : Text → Option Action → Response Method
  decide_action id none =
      if is_get request then ok (Method.inspect id) else err (worker ErrorCode.not_found)
  decide_action id (some Action.transactions) =
      if is_post request then decide_submission id else err (worker ErrorCode.not_found)
  decide_action id (some Action.cancel) =
      if is_post request then ok (Method.cancels id) else err (worker ErrorCode.not_found)
  decide_action id (some Action.reconcile) =
      if is_post request then ok (Method.reconciles id) else err (worker ErrorCode.not_found)

  -- What an authenticated caller asks for.
  unfoldable pub decide_method : Principal → Response Method
  unfolding decide_creation decide_submission route_of hash_route
  decide_method principal = do
    throw_if (not (length request.search == 0)) (worker ErrorCode.invalid_request)
    (if is_post request && text_eq request.pathname (codes "/v1/requests")
        then decide_creation principal
        else (hash_route (route_of request.pathname) >>= λ (id, action). decide_action id action))

  unfoldable pub decide_tenant : Response Call
  unfolding validate_chain_configuration authenticate decide_method
  decide_tenant = do
    validate_chain_configuration viem env.chain (platform.parse_url env.chain.rpc_url)
    throw_if (not (platform.limit 0 (edge_key request.connecting_ip)))
        (worker ErrorCode.rate_limited)
    principal ← authenticate viem jose request.authorization env.auth now
    throw_if (not (platform.limit 1 principal.owner_id)) (worker ErrorCode.rate_limited)
    method ← decide_method principal
    ok (Call.tenant principal.tenant_id principal.owner_id method)

  abbrev pub is_options : Bool
  is_options = text_eq request.method (codes "OPTIONS")

  abbrev pub has_origin : Option Text → Response Call
  has_origin none = err (worker ErrorCode.forbidden)
  has_origin (some origin) = ok Call.preflight

  unfoldable pub decide : Response Call
  unfolding is_foreign allowed_origin decide_tenant
  decide =
      if text_eq request.pathname (codes "/healthz") && is_get request
      then ok Call.health
      else if is_foreign env request.origin
      then err (worker ErrorCode.forbidden)
      else if is_options
      then has_origin (allowed_origin env request.origin)
      else decide_tenant
