-- ===== src/Worker/Routes/Authorized.antt =====
-- A tenant is called only for an authenticated owner, and a request is created only for the wallet
-- that signed it.
use ultratokenizer.Base.{
  ℕ, Text, Bool, true, false, not, ◌≡◌, ◌⊎◌, inl, inr, refl, ap, sym, ◌∙◌, Option, none, some, ok,
  err, if◌then◌else◌, Result-cases, >>=-eq-ok, past_guard, ok-injective,
}
use ultratokenizer.Domain.Viem.{Viem}
use ultratokenizer.Worker.Errors.{Response, worker, ErrorCode}
use ultratokenizer.Worker.Observer.{validate_chain_configuration}
use ultratokenizer.Worker.Auth.{Principal, Jose, authenticate}
use ultratokenizer.Worker.Routes.{
  Environment, HttpRequest, Platform, Method, Call, is_foreign, allowed_origin, has_origin,
  is_options, edge_key, decide_method, decide_tenant, decide,
}
use ultratokenizer.Worker.Routes.Serve.{Tenants, method_status, answer, perform, fetch}
use ultratokenizer.Worker.Routes.Allowed.{IsAllowed, decide_method-IsAllowed}

module _ (viem : Viem) (jose : Jose) (platform : Platform) (env : Environment) (now : ℕ)
    (r : HttpRequest) where
  decide_tenant-IsAllowed :
      (c : Call)
      → decide_tenant viem jose platform env now r ≡ ok c
      → (p : Principal) × (m : Method) × (authenticate viem jose r.authorization env.auth now
          ≡ ok p)
        × IsAllowed viem jose platform env now r p m
        × (c ≡ Call.tenant p.tenant_id p.owner_id m)
  unfolding decide_tenant
  decide_tenant-IsAllowed c h =
      let (u, valid, h1) =
        >>=-eq-ok
          (validate_chain_configuration viem env.chain (platform.parse_url env.chain.rpc_url)) _
          h in
      let (edge, h2) = past_guard (not (platform.limit 0 (edge_key r.connecting_ip))) _ _ h1 in
      let (p, known, h3) = >>=-eq-ok (authenticate viem jose r.authorization env.auth now) _ h2 in
      let (limited, h4) = past_guard (not (platform.limit 1 p.owner_id)) _ _ h3 in
      let (m, chosen, made) = >>=-eq-ok (decide_method viem jose platform env now r p) _ h4 in
      (
        p,
        m,
        known,
        decide_method-IsAllowed viem jose platform env now r p m chosen,
        sym (ok-injective _ c made),
      )

  -- What `decide` lets through to a tenant.
  decide-IsAllowed :
      (tenant_id owner_id : Text) (m : Method)
      → decide viem jose platform env now r ≡ ok (Call.tenant tenant_id owner_id m)
      → decide_tenant viem jose platform env now r ≡ ok (Call.tenant tenant_id owner_id m)
  unfolding decide
  decide-IsAllowed tenant_id owner_id m h =
      branches _ (is_foreign env r.origin) (is_options viem jose platform env now r)
        (allowed_origin env r.origin) _ h
    where
      branches :
          (a b c : Bool) (o : Option Text) (d : Response Call)
          → ◌≡◌ {A = Response Call}
              (if a
                then ok Call.health
                else if b
                then err (worker ErrorCode.forbidden)
                else if c
                then has_origin viem jose platform env now r o
                else d)
              (ok (Call.tenant tenant_id owner_id m))
          → d ≡ ok (Call.tenant tenant_id owner_id m)
      branches true b c o d k = cc
      branches false true c o d k = cc
      branches false false true none d k = cc
      branches false false true (some x) d k = cc
      branches false false false o d k = k

  -- A request leaves the store as it was, or it is authenticated and makes the one call that its
  -- owner is allowed, in the tenant of its credentials: the store and the answer are then those of
  -- that call. A creation is allowed only if the body of the message is a JSON object with the two
  -- keys `request` and `holderSignature`, the first is a request that is active now, whose recipient
  -- is the wallet of the credentials, for the chain and the gate of the worker, and the second is a
  -- signature of its typed data by that wallet. The other calls are those of the path: its
  -- identifier, which is a hash, and its action; and the transaction that is submitted is the one
  -- in the body, in lower case.
  pub fetch-IsAllowed :
      {S : Type 0} (tenants : Tenants S) (s : S)
      → ((fetch tenants viem jose platform env now r s).1 ≡ s)
        ⊎ ((p : Principal) × (m : Method) × (authenticate viem jose r.authorization env.auth now
              ≡ ok p)
            × IsAllowed viem jose platform env now r p m
            × ((fetch tenants viem jose platform env now r s).1
                ≡ (tenants p.tenant_id p.owner_id m s).1)
            × ((fetch tenants viem jose platform env now r s).0
                ≡ answer tenants viem jose platform env now r
                    (method_status m)
                    (tenants p.tenant_id p.owner_id m s).0))
  unfolding fetch perform
  fetch-IsAllowed tenants s = elim (Result-cases (decide viem jose platform env now r)) [
    | inr (e, failed) ↦ inl (rw failed refl)
    | inl (Call.health, d) ↦ inl (rw d refl)
    | inl (Call.preflight, d) ↦ inl (rw d refl)
    | inl (Call.tenant t o m, d) ↦
        let (p, n, known, allowed, same) =
          decide_tenant-IsAllowed (Call.tenant t o m) (decide-IsAllowed t o m d) in
        let called : decide viem jose platform env now r
            ≡ ok (Call.tenant p.tenant_id p.owner_id n) =
          d ∙ ap ok same in
        inr (p, n, known, allowed, rw called refl, rw called refl)
  ]
