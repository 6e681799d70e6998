-- ===== src/Institution/Calls.antt =====
-- The methods of an `InstitutionLedger` as calls, and the tables after a sequence of them by any
-- handles. Write transactions exclude each other, and a read sees the tables between two
-- of them, so the calls of all handles are one sequence.
use ultratokenizer.Base.{ℕ, Text, List, [], ◌∷◌, Bool, not, ◌&&◌, ◌==◌, any, if◌then◌else◌}
use ultratokenizer.Domain.Value.{Value}
use ultratokenizer.Domain.Viem.{Viem}
use ultratokenizer.Institution.Types.{Store}
use ultratokenizer.Institution.Outcomes.{Kind}
use ultratokenizer.Institution.Transaction.{Ledger, close}
use ultratokenizer.Institution.Rights.{
  import_available_rights, register_right, find_right, get_right, private_claim_identity,
}
use ultratokenizer.Institution.Pools.{set_backing_cap, get_pool}
use ultratokenizer.Institution.Allocations.{reserve, get_allocation, settle}

pub data Call : Type 0 where
  imports : Value → Call
  registers : (new_right_id new_claim_id : Text) → Value → Call
  finds_right gets_right gets_identity : Value → Call
  sets_cap gets_pool : Value → Call
  reserves gets_allocation : Value → Call
  settles : Kind → Value → Call
  closes : (fails : Bool) → Call

-- The ledger that a call of one handle leaves behind, whether it returns or throws.
unfoldable pub call : Viem → Call → Ledger → Ledger
call viem (Call.imports v) l = (import_available_rights viem v l).1
call viem (Call.registers r c v) l = (register_right viem r c v l).1
call viem (Call.finds_right v) l = (find_right viem v l).1
call viem (Call.gets_right v) l = (get_right viem v l).1
call viem (Call.gets_identity v) l = (private_claim_identity v l).1
call viem (Call.sets_cap v) l = (set_backing_cap viem v l).1
call viem (Call.gets_pool v) l = (get_pool viem v l).1
call viem (Call.reserves v) l = (reserve viem v l).1
call viem (Call.gets_allocation v) l = (get_allocation viem v l).1
call viem (Call.settles kind v) l = (settle viem kind v l).1
call viem (Call.closes fails) l = (close fails l).1

-- The tables that all handles share, and the handles that are closed: each call of
-- `openInstitutionLedger` gives a handle of its own, here a number.
pub record Connections : Type 0 where
  pub store : Store
  pub closed : List ℕ

abbrev pub is_closed_handle : ℕ → Connections → Bool
is_closed_handle handle db = any (λ n. n == handle) db.closed

abbrev pub view : ℕ → Connections → Ledger
view handle db = record { store = db.store; is_closed = is_closed_handle handle db }

-- What the others have of a call: the tables that it leaves behind, and whether it closed its handle.
unfoldable pub call_by : Viem → ℕ × Call → Connections → Connections
unfolding call
call_by viem (handle, c) db = record {
  store = (call viem c (view handle db)).store;
  closed =
      if (call viem c (view handle db)).is_closed && not (is_closed_handle handle db)
      then handle ∷ db.closed
      else db.closed;
}

-- Calls of any handles, each with the number of its handle.
unfoldable pub run : Viem → List (ℕ × Call) → Connections → Connections
unfolding call_by
run viem [] db = db
run viem (c ∷ cs) db = run viem cs (call_by viem c db)

-- The tables that `openInstitutionLedger` creates in a new file.
abbrev pub empty_store : Store
empty_store = record { rights = []; pools = []; allocations = [] }

abbrev pub new_connections : Connections
new_connections = record { store = empty_store; closed = [] }
