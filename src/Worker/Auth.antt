-- ===== src/Worker/Auth.antt =====
-- workers/issuance/src/auth.ts. The check of a token by jose, and the hash of the JSON of a list of
-- texts, are parameters.
use ultratokenizer.Base.{
  ℕ, ◌+◌, ◌^◌, Text, codes, Bool, false, not, ◌&&◌, ◌||◌, List, [], ◌∷◌, Option, none, some, ok,
  ltb, leb, ◌==◌, any, length, if◌then◌else◌, ◌>>=◌, ◌>>◌, throw_if, or_throw,
}
use ultratokenizer.Domain.Value.{Value, str, number, arr, items, Entry, get, has_own}
use ultratokenizer.Domain.Viem.{Viem}
use ultratokenizer.Worker.Errors.{Response, worker, ErrorCode}
use ultratokenizer.Worker.Observer.{record_entries, is_text, is_nonzero_address}

pub record AuthConfiguration : Type 0 where
  pub issuer : Text
  pub audience : Text
  pub jwks : Text

pub record Principal : Type 0 where
  pub owner_id : Text
  pub tenant_id : Text
  pub wallet : Text

-- What `jwtVerify` returns.
pub record Verified : Type 0 where
  pub kid : Value
  pub payload : List Entry

-- `verify` is `jwtVerify` with the options of the source, for the keys, the issuer, the audience, the
-- token and the time, `none` where it throws. `hash_texts` is
-- `keccak256(stringToHex(JSON.stringify(texts)))`.
pub record Jose : Type 0 where
  pub parse_json : Text → Option Value
  pub verify : List Value → Text → Text → Text → ℕ → Option Verified
  pub hash_texts : List Text → Text

abbrev pub is_filled : Value → Bool
is_filled (str t) = not (length t == 0)
is_filled _ = false

abbrev pub is_public_key : List Entry → Bool
is_public_key es =
    is_text (codes "RSA") (get "kty" es)
    && is_text (codes "RS256") (get "alg" es)
    && is_filled (get "kid" es)
    && not (has_own "d" es)
    && not (has_own "k" es)

-- A public RSA key with an identifier.
unfoldable pub is_key : Value → Bool
is_key v = elim (record_entries v) [ none ↦ false | some es ↦ is_public_key es ]

abbrev pub values_of : Value → Option (List Value)
values_of (arr vs) = some (items vs)
values_of _ = none

abbrev pub after_prefix : Text → Text → Option Text
after_prefix [] t = some t
after_prefix (a ∷ p) [] = none
after_prefix (a ∷ p) (c ∷ t) = if c == a then after_prefix p t else none

abbrev pub token_in : Text → Option Text
token_in header =
    if ltb 8192 (length header) then none else elim (after_prefix (codes "Bearer ") header) [
      | none ↦ none
      | some token ↦ if any (λ c. c == b' ') token then none else some token
    ]

abbrev pub token_of : Option Text → Option Text
token_of none = none
token_of (some header) = token_in header

-- A nonnegative safe integer. `jwtVerify` admits no token that ends before now.
abbrev pub integer_of : Value → Option ℕ
integer_of (number n) = if ltb n (2 ^ 53) then some n else none
integer_of _ = none

abbrev pub text_in : Value → Option Text
text_in (str t) = some t
text_in _ = none

abbrev pub max_age : ℕ
max_age = 300

module _ (viem : Viem) (jose : Jose) where
  unfoldable pub keys_of : AuthConfiguration → Response (List Value)
  unfolding is_key
  keys_of config = do
    throw_if
        (length config.issuer == 0 || length config.audience == 0 || ltb 32768 (length config.jwks))
        (worker ErrorCode.not_configured)
    value ← or_throw (jose.parse_json config.jwks) (worker ErrorCode.not_configured)
    jwks ← or_throw (record_entries value) (worker ErrorCode.not_configured)
    keys ← or_throw (values_of (get "keys" jwks)) (worker ErrorCode.not_configured)
    throw_if (ltb (length keys) 1 || ltb 8 (length keys)) (worker ErrorCode.not_configured)
    throw_if (any (λ key. not (is_key key)) keys) (worker ErrorCode.not_configured)
    ok keys

  -- The claims of a verified token; a `throw` among them is caught below.
  unfoldable pub principal_of : AuthConfiguration → Verified → Response Principal
  principal_of config verified = do
    kid ← or_throw (text_in verified.kid) (worker ErrorCode.unauthorized)
    sub ← or_throw (text_in (get "sub" verified.payload)) (worker ErrorCode.unauthorized)
    throw_if (length sub == 0 || ltb 256 (length sub)) (worker ErrorCode.unauthorized)
    iat ← or_throw (integer_of (get "iat" verified.payload)) (worker ErrorCode.unauthorized)
    exp ← or_throw (integer_of (get "exp" verified.payload)) (worker ErrorCode.unauthorized)
    throw_if (leb exp iat || ltb (iat + max_age) exp) (worker ErrorCode.unauthorized)
    wallet ← or_throw (text_in (get "wallet" verified.payload)) (worker ErrorCode.unauthorized)
    throw_if (not (is_nonzero_address viem wallet)) (worker ErrorCode.unauthorized)
    ok (record {
      owner_id = jose.hash_texts (config.issuer ∷ sub ∷ []);
      tenant_id =
          jose.hash_texts
            (codes "ultratokenizer.observation-tenant.v1" ∷ config.issuer ∷ config.audience ∷ []);
      wallet = viem.get_address wallet;
    })

  unfoldable pub authenticate : Option Text → AuthConfiguration → ℕ → Response Principal
  unfolding keys_of principal_of
  authenticate header config now = do
    keys ← keys_of config
    token ← or_throw (token_of header) (worker ErrorCode.unauthorized)
    verified ←
        or_throw (jose.verify keys config.issuer config.audience token now)
          (worker ErrorCode.unauthorized)
    principal_of config verified
