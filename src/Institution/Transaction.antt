-- ===== src/Institution/Transaction.antt =====
-- `transaction` of packages/institution/src/ledger.ts: what the action wrote is kept if it
-- returns. If it throws, the code rolls back; that SQLite then restores the tables is assumed: an
-- error carries no tables.
use ultratokenizer.Base.{Bool, true, ok, err, if◌then◌else◌}
use ultratokenizer.Institution.Errors.{LedgerResult, closed, storage_unavailable}
use ultratokenizer.Institution.Types.{Store}

-- What one handle has: the tables, and its own variable `closed`.
pub record Ledger : Type 0 where
  pub store : Store
  pub is_closed : Bool

-- The statements of one transaction.
abbrev pub Action : Type 0 → Type 0
Action A = Store → LedgerResult (A × Store)

-- A method returns or throws, and leaves a ledger behind.
abbrev pub Method : Type 0 → Type 0
Method A = Ledger → LedgerResult A × Ledger

abbrev pub commit : {A : Type 0} → Ledger → LedgerResult (A × Store) → LedgerResult A × Ledger
commit l (ok (a, store)) = (ok a, record l { store = store })
commit l (err e) = (err e, l)

unfoldable pub transaction : {A : Type 0} → Action A → Method A
transaction action l = if l.is_closed then (err closed, l) else commit l (action l.store)

abbrev pub unchanged : {A : Type 0} → Store → LedgerResult A → LedgerResult (A × Store)
unchanged store (ok a) = ok (a, store)
unchanged store (err e) = err e

-- An action that only reads.
abbrev pub reads : {A : Type 0} → (Store → LedgerResult A) → Action A
reads f store = unchanged store (f store)

-- The input is checked before the transaction begins.
abbrev pub with_input : {A B : Type 0} → LedgerResult A → (A → Method B) → Method B
with_input (ok a) method l = method a l
with_input (err e) method l = (err e, l)

-- `fails` is whether `database.close()` throws.
unfoldable pub close : (fails : Bool) → Method (Unit {0})
close fails l =
    if l.is_closed
    then (ok tt, l)
    else if fails
    then (err storage_unavailable, l)
    else (ok tt, record l { is_closed = true })
