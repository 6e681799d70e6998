-- ===== src/Institution/Store.antt =====
-- The SQL statements of packages/institution/src/ledger.ts over the three tables, with the
-- constraints of its schema: a statement that violates one throws, which the method sees as
-- `storage_unavailable`.
use ultratokenizer.Base.{
  Text, text_eq, Bool, not, ◌&&◌, ◌||◌, List, [], ◌∷◌, some, map, ok, leb, length, any,
  if◌then◌else◌, ◌>>◌, throw_if,
}
use ultratokenizer.Domain.Fields.{is_decimal}
use ultratokenizer.Institution.Errors.{LedgerResult, storage_unavailable}
use ultratokenizer.Institution.Fields.{is_positive_decimal}
use ultratokenizer.Institution.Types.{
  RightRow, PoolRow, AllocationRow, AllocationState, Observation, Store, is_live, is_pending,
}

-- `WHERE right_id = ?`
abbrev pub has_right_id : Text → RightRow → Bool
has_right_id right_id row = text_eq row.right_id right_id

-- `WHERE source_id = ? AND record_reference = ?`
abbrev pub has_record : Text → Text → RightRow → Bool
has_record source_id reference row =
    text_eq row.source_id source_id && text_eq row.record_reference reference

-- `WHERE right_id = ? OR claim_id = ? OR claim_usage_id = ? OR (source_id = ? AND …)`
abbrev pub shares_identifier : RightRow → RightRow → Bool
shares_identifier new row =
    text_eq row.right_id new.right_id
    || text_eq row.claim_id new.claim_id
    || text_eq row.claim_usage_id new.claim_usage_id
    || has_record new.source_id new.record_reference row

-- `WHERE issuer_id = ? AND token = ?`
abbrev pub is_pool : Text → Text → PoolRow → Bool
is_pool issuer_id token row = text_eq row.issuer_id issuer_id && text_eq row.token token

abbrev pub has_digest : Text → AllocationRow → Bool
has_digest digest row = text_eq row.request_digest digest

-- `WHERE right_id = ? AND state IN ('pending','issued')`
abbrev pub is_live_of_right : Text → AllocationRow → Bool
is_live_of_right right_id row = text_eq row.right_id right_id && is_live row.state

-- `WHERE issuer_id = ? AND token = ? AND state IN ('pending','issued')`
abbrev pub is_live_of_pool : Text → Text → AllocationRow → Bool
is_live_of_pool issuer_id token row =
    text_eq row.issuer_id issuer_id && text_eq row.token token && is_live row.state

-- The three unique indices on live request ids, live holder nonces and reservation ids, and the
-- query of `reserve` before it inserts.
abbrev pub is_on_gate : AllocationRow → AllocationRow → Bool
is_on_gate new row = text_eq row.chain_id new.chain_id && text_eq row.gate new.gate

abbrev pub shares_live_id : AllocationRow → AllocationRow → Bool
shares_live_id new row =
    is_live row.state
    && (text_eq row.request_id new.request_id
        || text_eq row.recipient new.recipient && text_eq row.holder_nonce new.holder_nonce)

abbrev pub shares_reservation : AllocationRow → AllocationRow → Bool
shares_reservation new row =
    text_eq row.issuer_id new.issuer_id && text_eq row.reservation_id new.reservation_id

abbrev pub is_in_conflict : AllocationRow → AllocationRow → Bool
is_in_conflict new row =
    is_on_gate new row && (shares_live_id new row || shares_reservation new row)

-- `CHECK(length(milligrams) BETWEEN 1 AND 19 AND …)`
abbrev pub check_milligrams : Text → Bool
check_milligrams t = is_positive_decimal t && leb (length t) 19

abbrev pub check_cap : Text → Bool
check_cap t = is_decimal t && leb (length t) 78

-- `INSERT INTO asset_rights`
unfoldable pub insert_right : RightRow → Store → LedgerResult Store
insert_right new store = do
  throw_if (not (check_milligrams new.milligrams) || any (shares_identifier new) store.rights)
      storage_unavailable
  ok (record store { rights = new ∷ store.rights })

-- `INSERT INTO backing_pools … ON CONFLICT DO UPDATE SET cap = excluded.cap`
unfoldable pub upsert_rows : PoolRow → List PoolRow → List PoolRow
upsert_rows new [] = new ∷ []
upsert_rows new (row ∷ rows) =
    if is_pool new.issuer_id new.token row then new ∷ rows else row ∷ upsert_rows new rows

unfoldable pub upsert_pool : PoolRow → Store → LedgerResult Store
upsert_pool new store = do
  throw_if (not (check_cap new.cap)) storage_unavailable
  ok (record store { pools = upsert_rows new store.pools })

-- `INSERT INTO allocations`, always in the state 'pending'.
unfoldable pub insert_allocation : AllocationRow → Store → LedgerResult Store
insert_allocation new store = do
  throw_if
      (not (check_milligrams new.milligrams)
        || any (has_digest new.request_digest) store.allocations
        || not (any (has_right_id new.right_id) store.rights)
        || not (any (is_pool new.issuer_id new.token) store.pools)
        || any (is_live_of_right new.right_id) store.allocations
        || any (is_in_conflict new) store.allocations)
      storage_unavailable
  ok (record store { allocations = new ∷ store.allocations })

abbrev pub settle_row : Text → AllocationState → Observation → AllocationRow → AllocationRow
settle_row digest target outcome row =
    if has_digest digest row && is_pending row.state
    then record row { state = target; observation = some outcome }
    else row

-- `UPDATE allocations SET state = ?, observation_json = ? WHERE request_digest = ? AND state = ?`;
-- no constraint can fail, since no row becomes live.
unfoldable pub update_allocations : Text → AllocationState → Observation → Store → Store
update_allocations digest target outcome store = record store {
  allocations = map (settle_row digest target outcome) store.allocations;
}
