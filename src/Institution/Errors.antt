-- ===== src/Institution/Errors.antt =====
-- The error codes of packages/institution/src/ledger.ts.
use ultratokenizer.Base.{Result, ok, err}
use ultratokenizer.Domain.Errors.{RequestValidationError, Checked}

-- `request_error` is an error of packages/domain that a method would let through.
pub data LedgerError : Type 0 where
  invalid_input unsafe_storage unsupported_database storage_unavailable : LedgerError
  right_not_found right_conflict right_unavailable request_conflict : LedgerError
  allocation_not_found cap_exceeded invalid_outcome terminal_conflict : LedgerError
  private_identity closed : LedgerError
  request_error : RequestValidationError → LedgerError

abbrev pub LedgerResult : Type 0 → Type 0
LedgerResult A = Result LedgerError A

abbrev pub let_through : {A : Type 0} → Checked A → LedgerResult A
let_through (ok a) = ok a
let_through (err e) = err (request_error e)
