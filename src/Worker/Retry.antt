-- ===== src/Worker/Retry.antt =====
-- Retries of `create`.
use ultratokenizer.Base.{
  ℕ, ◌/◌, Text, text_eq_refl, false, ◌≡◌, refl, subst, Option, none, some, ok, arith, >>=-eq-ok,
  throw_if,
}
use ultratokenizer.Domain.Viem.{Viem}
use ultratokenizer.Domain.Request.{
  IssuanceRequest, to_value, assert_issuance_request_active, get_issuance_request_digest,
}
use ultratokenizer.Worker.Errors.{let_through, worker, ErrorCode}
use ultratokenizer.Worker.Model.{RequestState, PublicRequestState, public_state}
use ultratokenizer.Worker.Database.{Database, load, save, upsert, is_retired}
use ultratokenizer.Worker.Requests.{new_state, save_public, create_with, create_action, is_full}
use ultratokenizer.Worker.Rows.{find-upsert}

saved :
    (state : RequestState) (db db' : Database) (a : PublicRequestState)
    → save_public state db ≡ ok (a, db')
    → (a ≡ public_state state) × (db'.requests ≡ upsert state db.requests)
unfolding save_public save
saved state db db' a h = ground (arith, h)

fresh :
    (now : ℕ) (owner_id id : Text) (request : IssuanceRequest)
    → is_retired now (new_state now owner_id id request) ≡ false
fresh now owner_id id request = ground arith

kept :
    (now : ℕ) (owner_id id : Text) (request : IssuanceRequest) (db db' : Database)
    (a : PublicRequestState) (row : RequestState)
    → create_with now owner_id id request (some row) db ≡ ok (a, db')
    → db ≡ db'
unfolding create_with
kept now owner_id id request db db' a row h = ground (arith, h)

created_again :
    (now : ℕ) (owner_id id : Text) (request : IssuanceRequest) (db db' : Database)
    (a : PublicRequestState) (current : Option RequestState)
    → load id db ≡ current
    → create_with now owner_id id request current db ≡ ok (a, db')
    → create_with now owner_id id request (load id db') db' ≡ ok (a, db')
unfolding create_with load
created_again now owner_id id request db db' a (some row) e h =
    let same = kept now owner_id id request db db' a row h in
    subst (λ d. create_with now owner_id id request (load id d) d ≡ ok (a, db')) same (rw e h)
created_again now owner_id id request db db' a none e h =
    let new = new_state now owner_id id request in
    let (u, room, done) =
      >>=-eq-ok (throw_if (is_full owner_id db.requests) (worker ErrorCode.rate_limited)) _ h in
    let (answer, rows) = saved new db db' a done in
    rw
      (
        rows,
        find-upsert id new db.requests,
        text_eq_refl id,
        text_eq_refl owner_id,
        fresh now owner_id id request,
        answer,
      )
      refl

-- A creation that succeeded, repeated at the same time, returns the same row and changes nothing.
pub create_again :
    (viem : Viem) (now : ℕ) (owner_id : Text) (request : IssuanceRequest) (db db' : Database)
    (a : PublicRequestState)
    → create_action viem now owner_id request db ≡ ok (a, db')
    → create_action viem now owner_id request db' ≡ ok (a, db')
unfolding create_action
create_again viem now owner_id request db db' a h =
    let (r, active, h1) =
      >>=-eq-ok
        (let_through (assert_issuance_request_active viem (to_value request) (some (now / 1000)))) _
        h in
    let (id, digest, h2) =
      >>=-eq-ok (let_through (get_issuance_request_digest viem (to_value request))) _ h1 in
    rw (active, digest) (created_again now owner_id id request db db' a (load id db) refl h2)
