-- ===== src/Worker/Errors.antt =====
-- workers/issuance/src/errors.ts
use ultratokenizer.Base.{ℕ, Result, ok, err}
use ultratokenizer.Domain.Errors.{RequestValidationError, Checked}

pub data ErrorCode : Type 0 where
  invalid_request unauthorized forbidden not_found conflict payload_too_large : ErrorCode
  rate_limited not_configured unavailable : ErrorCode

unfoldable pub status_code : ErrorCode → ℕ
status_code ErrorCode.invalid_request = 400
status_code ErrorCode.unauthorized = 401
status_code ErrorCode.forbidden = 403
status_code ErrorCode.not_found = 404
status_code ErrorCode.conflict = 409
status_code ErrorCode.payload_too_large = 413
status_code ErrorCode.rate_limited = 429
status_code ErrorCode.not_configured = 503
status_code ErrorCode.unavailable = 503

-- What a method of the coordinator throws: its own error, one of packages/domain, or one of the
-- database, when a statement violates a constraint.
pub data Failure : Type 0 where
  worker : ErrorCode → Failure
  request : RequestValidationError → Failure
  database : Failure

abbrev pub Response : Type 0 → Type 0
Response A = Result Failure A

abbrev pub let_through : {A : Type 0} → Checked A → Response A
let_through (ok a) = ok a
let_through (err e) = err (request e)
