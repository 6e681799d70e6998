-- ===== src/Worker/Tests.antt =====
-- Steps of two owners and of the platform, and the theorems at them.
use ultratokenizer.Base.{
  ℕ, ◌≤◌, ◌≢◌, Text, codes, text_eq, lower, lower_char, all_chars, is_digit, is_hex_digit, big_int,
  true, false, ◌≡◌, refl, ◌⊎◌, List, [], ◌∷◌, some, none, ok, err, find, arith,
}
use ultratokenizer.Base.Chars.{digits_value}
use ultratokenizer.Domain.Fields.{
  check_keys, check_fields, literal, uint, address, identifier, is_decimal, is_bytes32,
  is_zero_bytes32, record_of,
}
use ultratokenizer.Domain.Request.{
  parse_issuance_request, read_request, get_issuance_request_digest,
  get_issuance_request_typed_data, request_typed_data, assert_issuance_request_active,
}
use ultratokenizer.Domain.Tests.{test_viem, word, sample}
use ultratokenizer.Worker.Errors.{worker, ErrorCode}
use ultratokenizer.Worker.Model.{RequestState, public_state, retry_delay}
use ultratokenizer.Worker.Database.{
  event_of, Database, has_id, load, upsert, save, is_kept, is_retired, sweep, schedule_alarm,
  deadlines, deadlines_of, next_alarm, mutate, owned,
}
use ultratokenizer.Worker.Requests.{
  is_full, new_state, save_public, create_with, create_action, create, cancel_action, cancel,
  cancelled,
}
use ultratokenizer.Worker.Schedule.{Step, step, IsTimely, run, empty_database}
use ultratokenizer.Worker.Spec.{Actor, Changes}
use ultratokenizer.Worker.Refinement.Steps.{step-Changes}
use ultratokenizer.Worker.Bounds.{IsBounded}
use ultratokenizer.Worker.Bounds.Run.{run-IsBounded}
use ultratokenizer.Worker.Isolation.{step-isolated, run-closed}
use ultratokenizer.Worker.Retry.{create_again}
use ultratokenizer.Worker.Timing.{retry_delay-bounds}

abbrev pub alice : Text
alice = codes "alice"

abbrev pub bob : Text
bob = codes "bob"

-- Alice creates a request, and may cancel it.
abbrev pub morning : List (ℕ × Step)
morning = (1000000, Step.creates alice sample) ∷ []

abbrev noon : List (ℕ × Step)
noon = (1000000, Step.creates alice sample) ∷ (1000500, Step.cancels alice (word "1")) ∷ []

-- Bob and the platform go on.
abbrev evening : List (ℕ × Step)
evening =
    (1001000, Step.submits bob (word "1") (word "7"))
    ∷ (1002000, Step.begins_alarm (λ n. codes "lease"))
    ∷ (1003000, Step.submits alice (word "1") (word "7"))
    ∷ []

pub morning-IsTimely : IsTimely 0 morning
morning-IsTimely = (omega arith, tt, tt)

noon-IsTimely : IsTimely 0 noon
noon-IsTimely = (omega arith, tt, (omega arith, tt, tt))

evening-IsTimely : IsTimely 1000500 evening
evening-IsTimely = (omega arith, tt, (omega arith, tt, (omega arith, tt, tt)))

abbrev pub created : RequestState
created = new_state 1000000 alice (word "1") sample

abbrev over : RequestState
over = cancelled 1000500 created

pub found_created :
    find (has_id (word "1")) (run test_viem morning empty_database).requests ≡ some created
unfolding run step create create_action create_with save_public is_full load save upsert mutate
    sweep schedule_alarm deadlines deadlines_of next_alarm assert_issuance_request_active
    parse_issuance_request read_request get_issuance_request_digest get_issuance_request_typed_data
    request_typed_data record_of check_keys check_fields literal uint identifier address is_bytes32
    is_zero_bytes32 is_hex_digit is_digit is_decimal big_int digits_value all_chars lower lower_char
    text_eq
found_created = refl

found_over : find (has_id (word "1")) (run test_viem noon empty_database).requests ≡ some over
unfolding run step create create_action create_with save_public is_full load save upsert mutate
    owned cancel cancel_action sweep schedule_alarm deadlines deadlines_of next_alarm
    assert_issuance_request_active parse_issuance_request read_request get_issuance_request_digest
    get_issuance_request_typed_data request_typed_data record_of check_keys check_fields literal
    uint identifier address is_bytes32 is_zero_bytes32 is_hex_digit is_digit is_decimal big_int
    digits_value all_chars lower lower_char text_eq
found_over = refl

step-Changes_example :
    Changes 1000000
      (Actor.owner alice)
      empty_database.requests
      (step test_viem 1000000 (Step.creates alice sample) empty_database).requests
step-Changes_example =
    step-Changes test_viem 1000000 (Step.creates alice sample) empty_database tt tt

run-IsBounded_example : IsBounded 1000500 (run test_viem noon empty_database).requests
run-IsBounded_example = run-IsBounded test_viem noon noon-IsTimely

pub alice_is_not_bob : alice ≢ bob
alice_is_not_bob e = cc

step-isolated_example :
    (find
        (has_id (word "1"))
        (step test_viem 1000000
          (Step.submits bob (word "1") (word "7"))
          (run test_viem morning empty_database)).requests
      ≡ some created)
    ⊎ (is_kept 1000000 created ≡ false)
step-isolated_example =
    step-isolated test_viem 1000000 (Step.submits bob (word "1") (word "7"))
      (run test_viem morning empty_database) bob (word "1") created tt
      (run-IsBounded test_viem morning morning-IsTimely) refl found_created alice_is_not_bob

run-closed_example :
    (find (has_id (word "1")) (run test_viem evening (run test_viem noon empty_database)).requests
      ≡ some over)
    ⊎ (is_retired 1003000 over ≡ true)
run-closed_example =
    run-closed test_viem 1000500 evening (run test_viem noon empty_database) (word "1") over
      evening-IsTimely (run-IsBounded test_viem noon noon-IsTimely) found_over refl

retry_delay-bounds_example : (5000 ≤ retry_delay 9) × (retry_delay 9 ≤ 300000)
retry_delay-bounds_example = retry_delay-bounds 9 (omega arith)

abbrev full_database : Database
full_database = record empty_database { requests = created ∷ [] }

throws :
    (mutate 1000500 (cancel_action 1000500 bob (word "1")) full_database).0
    ≡ err (worker ErrorCode.not_found)
unfolding cancel_action load mutate owned sweep text_eq
throws = refl

abbrev created_database : Database
created_database = record { requests = created ∷ []; events = event_of created ∷ []; alarm = none }

create_first :
    create_action test_viem 1000000 alice sample empty_database
    ≡ ok (public_state created, created_database)
unfolding create_action create_with save_public is_full load save upsert public_state
    assert_issuance_request_active parse_issuance_request read_request get_issuance_request_digest
    get_issuance_request_typed_data request_typed_data record_of check_keys check_fields literal
    uint identifier address is_bytes32 is_zero_bytes32 is_hex_digit is_digit is_decimal big_int
    digits_value all_chars lower lower_char text_eq
create_first = refl

create_again_example :
    create_action test_viem 1000000 alice sample created_database
    ≡ ok (public_state created, created_database)
create_again_example =
    create_again test_viem 1000000 alice sample empty_database created_database
      (public_state created) create_first
