-- ===== src/Institution/Snapshots.antt =====
-- What the methods of the ledger read back from the tables.
use ultratokenizer.Base.{
  ℕ, ◌+◌, Text, codes, big_int, true, false, List, [], ◌∷◌, Option, none, some, ok, ltb, find,
  filter, if◌then◌else◌, ◌>>=◌, ◌>>◌, throw_if, or_throw, rethrow,
}
use ultratokenizer.Domain.Value.{str}
use ultratokenizer.Domain.Viem.{Viem}
use ultratokenizer.Domain.Request.{to_value, parse_issuance_request}
use ultratokenizer.Institution.Errors.{LedgerResult, storage_unavailable, right_not_found}
use ultratokenizer.Institution.Fields.{hash, address, integer, max_amount, max_uint}
use ultratokenizer.Institution.Types.{
  RightState, InstitutionRight, BackingPool, Allocation, RightRow, PoolRow, AllocationRow, Store,
  is_pending,
}
use ultratokenizer.Institution.Store.{has_right_id, is_pool, is_live_of_right, is_live_of_pool}

-- The state of a right is that of its live allocation.
abbrev pub right_state : Option AllocationRow → RightState
right_state none = RightState.available
right_state (some row) = if is_pending row.state then RightState.pending else RightState.issued

unfoldable pub right_row : Text → Store → LedgerResult RightRow
right_row id store = or_throw (find (has_right_id id) store.rights) right_not_found

module _ (viem : Viem) where
  unfoldable pub right_snapshot : RightRow → Store → LedgerResult InstitutionRight
  right_snapshot row store = do
    let active = find (is_live_of_right row.right_id) store.allocations
    right_id ← hash (str row.right_id)
    source_id ← hash (str row.source_id)
    claim_usage_id ← hash (str row.claim_usage_id)
    holder ← address viem (str row.holder)
    milligrams ← integer (str row.milligrams) max_amount false
    ok (record {
      right_id = right_id;
      source_id = source_id;
      claim_usage_id = claim_usage_id;
      holder = holder;
      milligrams = milligrams;
      state = right_state active;
    })

-- The loop of `poolSnapshot` over the live allocations of the pool.
unfoldable pub exposure : List AllocationRow → ℕ → ℕ → LedgerResult (ℕ × ℕ)
exposure [] pending outstanding = ok (pending, outstanding)
exposure (row ∷ rows) pending outstanding = do
  milligrams ← integer (str row.milligrams) max_amount false
  let amount = big_int milligrams
  exposure rows (if is_pending row.state then pending + amount else pending)
      (if is_pending row.state then outstanding else outstanding + amount)

abbrev pub cap_of : Option PoolRow → LedgerResult Text
cap_of none = ok (codes "0")
cap_of (some row) = integer (str row.cap) max_uint true

unfoldable pub pool_snapshot : Text → Text → Store → LedgerResult BackingPool
unfolding exposure
pool_snapshot issuer_id token store = do
  cap ← cap_of (find (is_pool issuer_id token) store.pools)
  (pending, outstanding) ← exposure (filter (is_live_of_pool issuer_id token) store.allocations) 0 0
  throw_if (ltb (big_int cap) (pending + outstanding)) storage_unavailable
  ok (record {
    issuer_id = issuer_id;
    token = token;
    cap = cap;
    pending = pending;
    outstanding = outstanding;
  })

-- The request is parsed again; an error of packages/domain is not the ledger's own.
unfoldable pub allocation_snapshot : Viem → AllocationRow → LedgerResult Allocation
allocation_snapshot viem row = do
  right_id ← hash (str row.right_id)
  request_digest ← hash (str row.request_digest)
  request ← rethrow (parse_issuance_request viem (to_value row.request)) storage_unavailable
  ok (record {
    right_id = right_id;
    request_digest = request_digest;
    request = request;
    state = row.state;
    observation = row.observation;
  })
