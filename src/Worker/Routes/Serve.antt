-- ===== src/Worker/Routes/Serve.antt =====
-- `fetch` of workers/issuance/src/index.ts, and the tenant whose coordinator it calls.
use ultratokenizer.Base.{ℕ, Text, Bool, false, Option, none, ok, err, ◌==◌}
use ultratokenizer.Domain.Viem.{Viem}
use ultratokenizer.Worker.Errors.{
  Response, Failure, worker, request, database, ErrorCode, status_code,
}
use ultratokenizer.Worker.Model.{PublicRequestState}
use ultratokenizer.Worker.Auth.{Jose}
use ultratokenizer.Worker.Routes.{
  Environment, HttpRequest, Platform, Method, Call, allowed_origin, decide,
}

pub data Content : Type 0 where
  up nothing : Content
  state : PublicRequestState → Content
  error : ErrorCode → Content

-- The headers that differ from one response to another.
pub record HttpResponse : Type 0 where
  pub status : ℕ
  pub content : Content
  pub origin : Option Text
  pub www_authenticate : Bool
  pub retry_after : Bool

-- The code of what was thrown: a message that is no known code, and any other error, is
-- `unavailable`.
unfoldable pub code_of : Failure → ErrorCode
code_of (worker code) = code
code_of (request e) = ErrorCode.unavailable
code_of database = ErrorCode.unavailable

unfoldable pub rejected : Option Text → ErrorCode → HttpResponse
unfolding status_code
rejected origin code = record {
  status = status_code code;
  content = Content.error code;
  origin = origin;
  www_authenticate = status_code code == 401;
  retry_after = status_code code == 429;
}

abbrev pub accepted : Option Text → ℕ → Content → HttpResponse
accepted origin status content = record {
  status = status;
  content = content;
  origin = origin;
  www_authenticate = false;
  retry_after = false;
}

abbrev pub method_status : Method → ℕ
method_status (Method.create r) = 200
method_status (Method.inspect id) = 200
method_status (Method.cancels id) = 200
method_status (Method.submit id hash) = 202
method_status (Method.reconciles id) = 202

-- The namespace of tenants, over a store: a call for a tenant and an owner returns or throws, and
-- leaves a store behind.
abbrev pub Tenants : Type 0 → Type 0
Tenants S = (tenant_id owner_id : Text) → Method → S → Response PublicRequestState × S

module _ {S : Type 0} (tenants : Tenants S) (viem : Viem) (jose : Jose) (platform : Platform)
    (env : Environment) (now : ℕ) (r : HttpRequest) where
  abbrev pub answer : ℕ → Response PublicRequestState → HttpResponse
  answer status (ok s) = accepted (allowed_origin env r.origin) status (Content.state s)
  answer status (err e) = rejected (allowed_origin env r.origin) (code_of e)

  unfoldable pub perform : Response Call → S → HttpResponse × S
  unfolding rejected allowed_origin code_of
  perform (err e) s = (rejected (allowed_origin env r.origin) (code_of e), s)
  perform (ok Call.health) s = (accepted none 200 Content.up, s)
  perform (ok Call.preflight) s = (accepted (allowed_origin env r.origin) 204 Content.nothing, s)
  perform (ok (Call.tenant tenant_id owner_id method)) s =
      let called = tenants tenant_id owner_id method s in
      (answer (method_status method) called.0, called.1)

  unfoldable pub fetch : S → HttpResponse × S
  unfolding perform decide
  fetch s = perform (decide viem jose platform env now r) s
