-- ===== src/Domain/Errors.antt =====
-- packages/domain/src/errors.ts
use ultratokenizer.Base.{String, Result, err}

pub data RequestErrorCode : Type 0 where
  invalid_shape invalid_json input_too_large unknown_field missing_field : RequestErrorCode
  invalid_literal invalid_integer integer_out_of_range invalid_address : RequestErrorCode
  invalid_identifier invalid_time expired_request : RequestErrorCode

-- The message of an error is a text for its reader, and is left out.
pub record RequestValidationError : Type 0 where
  pub code : RequestErrorCode
  pub field : String

abbrev pub Checked : Type 0 → Type 0
Checked A = Result RequestValidationError A

abbrev pub failure : RequestErrorCode → String → RequestValidationError
failure code field = record { code = code; field = field }

abbrev pub fail : {A : Type 0} → RequestErrorCode → String → Checked A
fail code field = err (failure code field)
