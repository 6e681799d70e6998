-- ===== src/Institution/Pools.antt =====
-- `setBackingCap` and `getPool` of packages/institution/src/ledger.ts.
use ultratokenizer.Base.{◌+◌, Text, big_int, true, [], ◌∷◌, ok, ltb, ◌>>=◌, ◌>>◌, throw_if}
use ultratokenizer.Domain.Value.{Value, get}
use ultratokenizer.Domain.Viem.{Viem}
use ultratokenizer.Institution.Errors.{LedgerResult, cap_exceeded}
use ultratokenizer.Institution.Fields.{record_of, hash, address, integer, max_uint}
use ultratokenizer.Institution.Types.{BackingPool, PoolRow}
use ultratokenizer.Institution.Store.{upsert_pool}
use ultratokenizer.Institution.Snapshots.{pool_snapshot}
use ultratokenizer.Institution.Transaction.{Action, Method, transaction, reads, with_input}

module _ (viem : Viem) where
  unfoldable pub cap_input : Value → LedgerResult PoolRow
  cap_input value = do
    es ← record_of ("issuerId" ∷ "token" ∷ "milligrams" ∷ []) value
    issuer_id ← hash (get "issuerId" es)
    token ← address viem (get "token" es)
    cap ← integer (get "milligrams" es) max_uint true
    ok (record { issuer_id = issuer_id; token = token; cap = cap })

  unfoldable pub pool_input : Value → LedgerResult (Text × Text)
  pool_input value = do
    es ← record_of ("issuerId" ∷ "token" ∷ []) value
    issuer_id ← hash (get "issuerId" es)
    token ← address viem (get "token" es)
    ok (issuer_id, token)

-- The cap may not fall below what is pending and outstanding.
unfoldable pub set_cap : PoolRow → Action BackingPool
set_cap new store = do
  pool ← pool_snapshot new.issuer_id new.token store
  throw_if (ltb (big_int new.cap) (pool.pending + pool.outstanding)) cap_exceeded
  store' ← upsert_pool new store
  pool' ← pool_snapshot new.issuer_id new.token store'
  ok (pool', store')

unfoldable pub set_backing_cap : Viem → Value → Method BackingPool
unfolding cap_input set_cap
set_backing_cap viem value = with_input (cap_input viem value) λ new. transaction (set_cap new)

unfoldable pub get_pool : Viem → Value → Method BackingPool
unfolding pool_input
get_pool viem value =
    with_input (pool_input viem value)
      λ (issuer_id, token). transaction (reads (pool_snapshot issuer_id token))
