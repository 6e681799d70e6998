-- ===== src/Worker/Database.antt =====
-- The storage of the coordinator in workers/issuance/src/coordinator.ts: two tables and an alarm,
-- with `load`, `save`, `mutate`, `owned`, `leased` and `lease`. The clock of the platform stands
-- still while code runs between two waits, so one mutation reads one time, `now`.
use ultratokenizer.Base.{
  ℕ, ◌+◌, min, max, Text, text_eq, Bool, true, false, not, ◌&&◌, ◌||◌, List, [], ◌∷◌, ◌++◌, Option,
  none, some, ok, err, ltb, leb, ◌==◌, find, filter, any, if◌then◌else◌, ◌>>=◌, ◌>>◌, throw_if,
  or_throw,
}
use ultratokenizer.Worker.Errors.{Response, worker, database, ErrorCode}
use ultratokenizer.Worker.Model.{RequestState, RequestStatus, lease_ms, retention_ms}

-- A row of `events`.
pub record Event : Type 0 where
  pub request_id : Text
  pub sequence : ℕ
  pub at : ℕ
  pub status : RequestStatus

pub record Database : Type 0 where
  pub requests : List RequestState
  pub events : List Event
  pub alarm : Option ℕ

abbrev pub has_id : Text → RequestState → Bool
has_id id state = text_eq state.id id

abbrev pub has_event : Text → ℕ → Event → Bool
has_event id sequence e = text_eq e.request_id id && e.sequence == sequence

unfoldable pub load : Text → Database → Option RequestState
load id db = find (has_id id) db.requests

-- `INSERT … ON CONFLICT(id) DO UPDATE`: a known row keeps its place.
unfoldable pub upsert : RequestState → List RequestState → List RequestState
upsert state [] = state ∷ []
upsert state (row ∷ rows) = if has_id state.id row then state ∷ rows else row ∷ upsert state rows

-- `DELETE FROM events WHERE request_id = ? AND sequence <= ?`, at `revision - 128`.
abbrev pub is_old_event : RequestState → Event → Bool
is_old_event state e = text_eq e.request_id state.id && leb (e.sequence + 128) state.revision

abbrev pub event_of : RequestState → Event
event_of state = record {
  request_id = state.id;
  sequence = state.revision;
  at = state.updated_at;
  status = state.status;
}

-- The events have the primary key (request_id, sequence).
unfoldable pub save : RequestState → Database → Response Database
unfolding upsert
save state db = do
  throw_if (any (has_event state.id state.revision) db.events) database
  ok (record db {
    requests = upsert state db.requests;
    events = filter (λ e. not (is_old_event state e)) (event_of state ∷ db.events);
  })

abbrev pub is_after : ℕ → Option ℕ → Bool
is_after now none = false
is_after now (some until) = ltb now until

abbrev pub is_some {ℓ} : {A : Type ℓ} → Option A → Bool
is_some none = false
is_some (some _) = true

abbrev pub leased : RequestState → ℕ → Bool
leased state now = is_some state.lease_id && is_after now state.lease_until

-- `uuid` is what `crypto.randomUUID()` returns.
unfoldable pub lease : Text → RequestState → ℕ → RequestState
lease uuid state now = record state {
  revision = state.revision + 1;
  updated_at = now;
  lease_id = some uuid;
  lease_until = some (now + lease_ms);
}

abbrev pub is_retired : ℕ → RequestState → Bool
is_retired now state = leb (state.created_at + retention_ms) now

-- The rows that the first loop of `mutate` leaves.
abbrev pub is_kept : ℕ → RequestState → Bool
is_kept now state = not (is_retired now state) || leased state now

unfoldable pub sweep : ℕ → Database → Database
sweep now db = record db {
  requests = filter (is_kept now) db.requests;
  events =
      filter (λ e. not (any (λ s. not (is_kept now s) && has_id e.request_id s) db.requests))
        db.events;
}

abbrev pub option_list : Option ℕ → List ℕ
option_list none = []
option_list (some n) = n ∷ []

-- The deadlines of one row.
unfoldable pub deadlines_of : ℕ → RequestState → List ℕ
deadlines_of now state =
    if is_retired now state && leased state now
    then option_list state.lease_until
    else (state.created_at + retention_ms)
      ∷ (if is_some state.lease_id && is_some state.lease_until
          then option_list state.lease_until
          else option_list state.next_check_at)

unfoldable pub deadlines : ℕ → List RequestState → List ℕ
unfolding deadlines_of
deadlines now [] = []
deadlines now (s ∷ ss) = deadlines_of now s ++ deadlines now ss

abbrev pub minimum : ℕ → List ℕ → ℕ
minimum d [] = d
minimum d (e ∷ es) = minimum (min d e) es

-- The alarm is set if none is, or if the new one comes first.
abbrev pub earlier : Option ℕ → ℕ → Option ℕ
earlier none next = some next
earlier (some scheduled) next = if ltb next scheduled then some next else some scheduled

unfoldable pub next_alarm : ℕ → List ℕ → Option ℕ → Option ℕ
next_alarm now [] scheduled = none
next_alarm now (d ∷ ds) scheduled = earlier scheduled (max (now + 1000) (minimum d ds))

unfoldable pub schedule_alarm : ℕ → Database → Database
unfolding deadlines next_alarm
schedule_alarm now db = record db { alarm = next_alarm now (deadlines now db.requests) db.alarm }

abbrev pub Action : Type 0 → Type 0
Action A = Database → Response (A × Database)

-- The platform rolls back a transaction that throws, the sweep before the action included; that it
-- does is assumed.
abbrev pub commit : {A : Type 0} → ℕ → Database → Response (A × Database) → Response A × Database
commit now db (ok (a, db')) = (ok a, schedule_alarm now db')
commit now db (err e) = (err e, db)

unfoldable pub mutate : {A : Type 0} → ℕ → Action A → Database → Response A × Database
mutate now action db = commit now db (action (sweep now db))

unfoldable pub owned : ℕ → Text → Text → Database → Response RequestState
unfolding load
owned now owner_id id db = do
  state ← or_throw (load id db) (worker ErrorCode.not_found)
  throw_if (not (text_eq state.owner_id owner_id) || is_retired now state)
      (worker ErrorCode.not_found)
  ok state
