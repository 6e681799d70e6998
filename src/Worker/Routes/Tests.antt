-- ===== src/Worker/Routes/Tests.antt =====
-- A signed creation through the routes, and the theorems at it.
use ultratokenizer.Base.{
  Text, codes, text_eq, lower, lower_char, all_chars, is_digit, is_hex_digit, is_space, big_int,
  byte_length, unit_bytes, true, false, ◌≡◌, ◌≢◌, ◌⊎◌, inr, refl, sym, ◌∙◌, subst, ok-injective,
  List, [], ◌∷◌, ◌++◌, Option, none, some, ok, ◌==◌, if◌then◌else◌, arith,
}
use ultratokenizer.Base.Chars.{digits_value}
use ultratokenizer.Domain.Value.{Value, str, number, arr, Props, end, nil, cons, entries}
use ultratokenizer.Domain.Fields.{is_bytes32, is_zero_bytes32}
use ultratokenizer.Domain.Json.{
  string_end, after_space, advance, matches, tokens, scan, parse_duplicate_free_json,
}
use ultratokenizer.Domain.Request.{
  get_issuance_request_typed_data, request_typed_data, assert_issuance_request_active, to_value,
}
use ultratokenizer.Domain.Tests.{test_viem, word, account, sample, sample_value, parse_sample}
use ultratokenizer.Worker.Schedule.{run, empty_database}
use ultratokenizer.Worker.Bounds.{later-IsBounded}
use ultratokenizer.Worker.Bounds.Run.{run-IsBounded}
use ultratokenizer.Worker.Tests.{
  alice, bob, morning, created, morning-IsTimely, found_created, alice_is_not_bob,
}
use ultratokenizer.Worker.Observer.{
  validate_chain_configuration, is_valid_configuration, is_hash, is_chain_id,
}
use ultratokenizer.Worker.Observer.Tests.{text, long, value, object, config, url, abi, node}
use ultratokenizer.Worker.Body.{exact_keys, read_json, is_declared_over, read_chunks}
use ultratokenizer.Worker.Body.Bounds.{read_chunks-concat}
use ultratokenizer.Worker.Auth.{
  Principal, Verified, Jose, is_key, keys_of, principal_of, authenticate,
}
use ultratokenizer.Worker.Routes.{
  Environment, HttpRequest, Platform, Method, Call, is_signature, is_foreign, trim_end, is_json,
  check_creation, decide_creation, decide_method, decide_tenant, decide,
}
use ultratokenizer.Worker.Routes.Serve.{fetch, answer, method_status}
use ultratokenizer.Worker.Routes.Allowed.{IsAllowed}
use ultratokenizer.Worker.Routes.Authorized.{fetch-IsAllowed}
use ultratokenizer.Worker.Routes.Tenants.{tenants, IsUntouched, fetch-isolated}

abbrev signature : Text
signature = word "a" ++ word_tail ++ codes "1b"
  where
    word_tail : Text
    word_tail = codes "1111111111111111111111111111111111111111111111111111111111111111"

abbrev creation_props : Props
creation_props = value "request" sample_value (long "holderSignature" signature end)

abbrev creation : Value
creation = object creation_props

abbrev jwks : Value
jwks = object (
    value "keys"
      (arr (cons (object (text "kty" "RSA" (text "alg" "RS256" (text "kid" "k1" end)))) nil)) end)

-- Names are read as they are written; a body is the creation, and any other text the keys.
abbrev reads : Text → Option Value
reads [] = none
reads (c ∷ t) = if c == b'"' then some (str t) else if c == b'{' then some creation else some jwks

abbrev verified : Verified
verified = record {
  kid = str (codes "k1");
  payload = entries (
      text "sub" "alice"
        (value "iat" (number 900) (value "exp" (number 1100) (long "wallet" (account "d") end))));
}

-- The owner is the subject.
abbrev subject : List Text → Text
subject (a ∷ b ∷ []) = b
subject _ = codes "tenant"

abbrev jose : Jose
jose = record {
  parse_json = reads;
  verify = λ keys issuer audience token now. some verified;
  hash_texts = subject;
}

abbrev platform : Platform
platform = record {
  parse_url = λ t. some url;
  limit = λ n key. true;
  verify_typed_data = λ typed wallet s. some (text_eq s signature);
  decode_utf8 = λ bytes. some bytes;
}

abbrev env : Environment
env = record {
  allowed_origin = codes "https://app.test";
  chain = config;
  auth = record { issuer = codes "issuer"; audience = codes "audience"; jwks = codes "keys" };
}

abbrev posted : HttpRequest
posted = record {
  method = codes "POST";
  pathname = codes "/v1/requests";
  search = [];
  origin = some (codes "https://app.test");
  authorization = some (codes "Bearer token");
  content_type = some (codes "application/json; charset=utf-8");
  connecting_ip = none;
  message = record {
    content_length = none;
    body = some (record {
      chunks = codes "{\"request\":{}" ∷ codes ",\"holderSignature\":0}" ∷ [];
      timed_out = false;
    });
  };
}

abbrev principal : Principal
principal = record { owner_id = alice; tenant_id = codes "tenant"; wallet = account "d" }

known : authenticate test_viem jose posted.authorization env.auth 1000000 ≡ ok principal
unfolding authenticate keys_of principal_of is_key text_eq lower lower_char
known = refl

active : assert_issuance_request_active test_viem sample_value (some 1000) ≡ ok sample
unfolding assert_issuance_request_active big_int digits_value
active = rw parse_sample refl

typed_sample :
    get_issuance_request_typed_data test_viem (to_value sample)
    ≡ ok (request_typed_data test_viem sample)
unfolding get_issuance_request_typed_data
typed_sample = rw parse_sample refl

pinned : validate_chain_configuration test_viem config (some url) ≡ ok tt
unfolding validate_chain_configuration is_valid_configuration is_chain_id is_hash is_bytes32
    is_zero_bytes32 is_hex_digit is_digit all_chars lower lower_char text_eq
pinned = refl

checked :
    check_creation test_viem jose platform env 1000000 posted principal (entries creation_props)
    ≡ ok sample
unfolding check_creation is_signature is_hex_digit is_digit all_chars lower lower_char text_eq
checked = rw (active, typed_sample) refl

body_read : read_json platform.decode_utf8 jose.parse_json posted.message 16384 ≡ ok creation
unfolding read_json is_declared_over read_chunks parse_duplicate_free_json tokens matches advance
    string_end after_space scan byte_length unit_bytes is_space text_eq
body_read = refl

content : is_json posted.content_type ≡ true
unfolding is_json after_space trim_end is_space text_eq
content = refl

created_as :
    decide_creation test_viem jose platform env 1000000 posted principal ≡ ok (Method.create sample)
unfolding decide_creation exact_keys
created_as = rw (content, body_read, checked) refl

chosen :
    decide_method test_viem jose platform env 1000000 posted principal ≡ ok (Method.create sample)
unfolding decide_method text_eq
chosen = rw created_as refl

decided :
    decide test_viem jose platform env 1000000 posted
    ≡ ok (Call.tenant (codes "tenant") alice (Method.create sample))
unfolding decide is_foreign decide_tenant text_eq
decided = rw (pinned, known, chosen) refl

fetch-IsAllowed_example :
    ((fetch
        (tenants test_viem abi config (some url) (node "0x1") (codes "lease") 1000000 1001000)
        test_viem
        jose
        platform
        env
        1000000
        posted
        (λ t. empty_database)).1
      ≡ (λ t. empty_database))
    ⊎ ((p : Principal) × (m : Method) × (authenticate test_viem jose posted.authorization env.auth
            1000000
          ≡ ok p)
        × IsAllowed test_viem jose platform env 1000000 posted p m
        × ((fetch
              (tenants test_viem abi config (some url) (node "0x1") (codes "lease") 1000000 1001000)
              test_viem
              jose
              platform
              env
              1000000
              posted
              (λ t. empty_database)).1
            ≡ (tenants test_viem abi config
                (some url)
                (node "0x1")
                (codes "lease")
                1000000
                1001000
                p.tenant_id
                p.owner_id
                m
                (λ t. empty_database)).1)
        × ((fetch
              (tenants test_viem abi config (some url) (node "0x1") (codes "lease") 1000000 1001000)
              test_viem
              jose
              platform
              env
              1000000
              posted
              (λ t. empty_database)).0
            ≡ answer
                (tenants test_viem abi config
                  (some url)
                  (node "0x1")
                  (codes "lease")
                  1000000
                  1001000)
                test_viem
                jose
                platform
                env
                1000000
                posted
                (method_status m)
                (tenants test_viem abi config
                  (some url)
                  (node "0x1")
                  (codes "lease")
                  1000000
                  1001000
                  p.tenant_id
                  p.owner_id
                  m
                  (λ t. empty_database)).0))
fetch-IsAllowed_example =
    fetch-IsAllowed test_viem jose platform env 1000000 posted
      (tenants test_viem abi config (some url) (node "0x1") (codes "lease") 1000000 1001000)
      (λ t. empty_database)

-- Alice's row is in the database of another tenant, or of the same; Bob asks.
abbrev bobs : Verified
bobs = record {
  kid = str (codes "k1");
  payload = entries (
      text "sub" "bob"
        (value "iat" (number 900) (value "exp" (number 1100) (long "wallet" (account "d") end))));
}

abbrev jose_of_bob : Jose
jose_of_bob = record jose { verify = λ keys issuer audience token now. some bobs }

known_bob :
    authenticate test_viem jose_of_bob posted.authorization env.auth 1000500
    ≡ ok (record { owner_id = bob; tenant_id = codes "tenant"; wallet = account "d" })
unfolding authenticate keys_of principal_of is_key text_eq lower lower_char
known_bob = refl

not_alice :
    (p : Principal)
    → authenticate test_viem jose_of_bob posted.authorization env.auth 1000500 ≡ ok p
    → (p.tenant_id ≢ codes "tenant") ⊎ (created.owner_id ≢ p.owner_id)
not_alice p h =
    let same =
      ok-injective (record { owner_id = bob; tenant_id = codes "tenant"; wallet = account "d" }) p
        (sym known_bob ∙ h) in
    inr (subst (λ (q : Principal). created.owner_id ≢ q.owner_id) same alice_is_not_bob)

fetch-isolated_example :
    IsUntouched test_viem abi config
      (some url)
      (node "0x1")
      (codes "lease")
      1000500
      1001000
      (word "1")
      created
      ((fetch
          (tenants test_viem abi config (some url) (node "0x1") (codes "lease") 1000500 1001000)
          test_viem
          jose_of_bob
          platform
          env
          1000500
          posted
          (λ t. run test_viem morning empty_database)).1
        (codes "tenant"))
fetch-isolated_example =
    fetch-isolated test_viem abi config (some url) (node "0x1") (codes "lease") 1000500 1001000
      jose_of_bob platform env posted (λ t. run test_viem morning empty_database) (codes "tenant")
      (word "1") created (omega arith)
      (later-IsBounded 1000000 1000500 (run test_viem morning empty_database).requests (omega arith)
        (run-IsBounded test_viem morning morning-IsTimely))
      found_created not_alice

read_chunks-concat_example : read_chunks 5 0 ((1 ∷ 2 ∷ []) ∷ (3 ∷ []) ∷ []) ≡ ok (1 ∷ 2 ∷ 3 ∷ [])
read_chunks-concat_example = read_chunks-concat 5 ((1 ∷ 2 ∷ []) ∷ (3 ∷ []) ∷ [])
