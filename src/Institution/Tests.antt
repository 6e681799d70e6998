-- ===== src/Institution/Tests.antt =====
-- A ledger with one right, which is reserved and issued, and the theorems at it.
use ultratokenizer.Base.{
  All, String, ℕ, not, filter, ◌==◌, is_space, unit_bytes, byte_length, codes, text_eq, lower,
  lower_char, all_chars, is_digit, is_hex_digit, big_int, false, ◌≡◌, ◌≤◌, refl, List, [], ◌∷◌,
  none, some, ok, count,
}
use ultratokenizer.Base.Chars.{digits_value}
use ultratokenizer.Base.Results.{map_result}
use ultratokenizer.Institution.Imported.{IsRegistered, IsKept, import_available_rights-IsRegistered}
use ultratokenizer.Domain.Value.{Value, Props, Items, arr, obj, object_prototype, texts, prop, Key}
use ultratokenizer.Domain.Request.{
  parse_issuance_request, read_request, get_issuance_request_digest,
  get_issuance_request_typed_data, request_typed_data,
}
use ultratokenizer.Domain.Tests.{test_viem, word, account, sample, sample_value}
use ultratokenizer.Domain.Fields.{
  check_keys, check_fields, literal, uint, identifier, is_decimal, is_bytes32, is_zero_bytes32,
}
use ultratokenizer.Domain.Claim.{check_data_fields, claim_record, get_claim_usage_id}
use ultratokenizer.Institution.Fields.{
  record_of, is_zero_hex, hash, address, is_positive_decimal, integer, ends_in_space, is_trimmed,
  reference,
}
use ultratokenizer.Institution.Snapshots.{
  right_row, right_snapshot, exposure, pool_snapshot, allocation_snapshot,
}
use ultratokenizer.Institution.Pools.{cap_input, set_cap, set_backing_cap}
use ultratokenizer.Institution.Types.{
  RightState, InstitutionRight, RightRow, PoolRow, AllocationRow, AllocationState, Allocation,
  Observation, Outcome, Store,
}
use ultratokenizer.Institution.Outcomes.{
  Kind, reason_of, read_common, read_outcome, read_observation, observation, request_eq,
}
use ultratokenizer.Institution.Store.{
  insert_right, upsert_rows, upsert_pool, insert_allocation, update_allocations,
}
use ultratokenizer.Institution.Transaction.{Ledger, transaction, close}
use ultratokenizer.Institution.Rights.{
  import_available_rights, import_inputs, import_input, import_all, import_one, import_match,
  register_input, register_with, register_action, register_right,
}
use ultratokenizer.Institution.Allocations.{
  Reservation, request_input, reserve_input, reserve_new, reserve_with, reserve_action, reserve,
  settle_terminal, settle_pending, settle_action, settle, new_allocation,
}
use ultratokenizer.Institution.Calls.{Call, Connections, call, call_by, run, new_connections}
use ultratokenizer.Institution.Spec.{Moves}
use ultratokenizer.Institution.Refinement.Methods.{run-Moves}
use ultratokenizer.Institution.Safety.{IsSafe}
use ultratokenizer.Institution.Safety.Preserved.{run-IsSafe}
use ultratokenizer.Institution.Safety.Claims.{is_live_of_claim, run-claim_once}
use ultratokenizer.Institution.Safety.Terminal.{IsSettled, run-IsSettled}
use ultratokenizer.Institution.Retry.Reserve.{reserve_again}
use ultratokenizer.Institution.Retry.Settle.{settle_again}
use ultratokenizer.Institution.Handles.{run-closed_handle}

abbrev right_value : Value
right_value = obj object_prototype (
    texts (
      ("sourceId", word "5")
      ∷ ("recordReference", codes "bar 7")
      ∷ ("holder", account "d")
      ∷ ("milligrams", codes "1000")
      ∷ []))

abbrev pub cap_value : Value
cap_value =
    obj object_prototype
      (texts (("issuerId", word "e") ∷ ("token", account "c") ∷ ("milligrams", codes "5000") ∷ []))

abbrev reserve_value : Value
reserve_value = obj object_prototype (
    prop (Key.name "rightId") false (Value.str (word "6"))
      (prop (Key.name "request") false sample_value Props.end))

abbrev issued_value : Value
issued_value = obj object_prototype (
    texts (
      ("kind", codes "issued")
      ∷ ("requestDigest", word "1")
      ∷ ("chainId", codes "43113")
      ∷ ("gate", account "b")
      ∷ ("reservationId", word "f")
      ∷ ("claimUsageId", word "c")
      ∷ ("blockHash", word "8")
      ∷ ("blockNumber", codes "77")
      ∷ ("transactionHash", word "7")
      ∷ []))

-- Three handles; the second is closed.
abbrev day : List (ℕ × Call)
day =
    (0, Call.registers (word "6") (word "c") right_value)
    ∷ (1, Call.sets_cap cap_value)
    ∷ (1, Call.closes false)
    ∷ (0, Call.reserves reserve_value)
    ∷ (2, Call.settles Kind.issued issued_value)
    ∷ []

abbrev right : RightRow
right = record {
  right_id = word "6";
  source_id = word "5";
  record_reference = codes "bar 7";
  claim_id = word "c";
  claim_usage_id = word "c";
  holder = account "d";
  milligrams = codes "1000";
}

abbrev pool : PoolRow
pool = record { issuer_id = word "e"; token = account "c"; cap = codes "5000" }

abbrev pub pending_row : AllocationRow
pending_row = new_allocation (word "1") (word "6") sample

abbrev issuance : Observation
issuance = record {
  common = record {
    request_digest = word "1";
    chain_id = codes "43113";
    gate = account "b";
    reservation_id = word "f";
    claim_usage_id = word "c";
    block_hash = word "8";
    block_number = codes "77";
  };
  outcome = Outcome.issued (word "7");
}

abbrev issued_row : AllocationRow
issued_row = record pending_row { state = AllocationState.issued; observation = some issuance }

abbrev pub store_of : List AllocationRow → Store
store_of rows = record { rights = right ∷ []; pools = pool ∷ []; allocations = rows }

abbrev issued_connections : Connections
issued_connections = record { store = store_of (issued_row ∷ []); closed = 1 ∷ [] }

runs_day : run test_viem day new_connections ≡ issued_connections
unfolding run call call_by close parse_issuance_request read_request get_issuance_request_digest
    get_issuance_request_typed_data request_typed_data ultratokenizer.Domain.Fields.record_of
    check_keys check_fields check_data_fields claim_record get_claim_usage_id literal uint
    identifier ultratokenizer.Domain.Fields.address is_bytes32 is_zero_bytes32 is_hex_digit is_digit
    is_decimal big_int digits_value all_chars lower lower_char text_eq request_input reserve_input
    reserve_new reserve_with reserve_action reserve settle_terminal settle_pending settle_action
    settle cap_input set_cap set_backing_cap register_input register_with register_action
    register_right right_row right_snapshot exposure pool_snapshot allocation_snapshot transaction
    reason_of read_common read_outcome read_observation observation request_eq record_of is_zero_hex
    hash address is_positive_decimal integer is_space ends_in_space unit_bytes is_trimmed
    byte_length reference insert_right upsert_rows upsert_pool insert_allocation update_allocations
runs_day = refl

run-Moves_example : Moves new_connections.store (run test_viem day new_connections).store
run-Moves_example = run-Moves test_viem day new_connections

run-IsSafe_example : IsSafe (run test_viem day new_connections).store
run-IsSafe_example = run-IsSafe test_viem day

run-claim_once_example :
    count (is_live_of_claim (word "c")) (run test_viem day new_connections).store.allocations ≤ 1
run-claim_once_example = run-claim_once test_viem day (word "c")

issued_connections-IsSettled : IsSettled (word "1") issued_row issued_connections.store
unfolding text_eq
issued_connections-IsSettled = record { found = refl; over = refl }

run-IsSettled_example : IsSettled (word "1") issued_row (run test_viem day issued_connections).store
run-IsSettled_example =
    run-IsSettled test_viem day issued_connections (word "1") issued_row
      issued_connections-IsSettled

abbrev reservation : Reservation
reservation = record { right_id = word "6"; request = sample; digest = word "1" }

abbrev pub pending_allocation : Allocation
pending_allocation = record {
  right_id = word "6";
  request_digest = word "1";
  request = sample;
  state = AllocationState.pending;
  observation = none;
}

abbrev issued_allocation : Allocation
issued_allocation = record pending_allocation {
  state = AllocationState.issued;
  observation = some issuance;
}

reserve_first :
    reserve_action test_viem reservation (store_of [])
    ≡ ok (pending_allocation, store_of (pending_row ∷ []))
unfolding parse_issuance_request read_request get_issuance_request_digest
    get_issuance_request_typed_data request_typed_data ultratokenizer.Domain.Fields.record_of
    check_keys check_fields check_data_fields claim_record get_claim_usage_id literal uint
    identifier ultratokenizer.Domain.Fields.address is_bytes32 is_zero_bytes32 is_hex_digit is_digit
    is_decimal big_int digits_value all_chars lower lower_char text_eq request_input reserve_input
    reserve_new reserve_with reserve_action reserve settle_terminal settle_pending settle_action
    settle cap_input set_cap set_backing_cap register_input register_with register_action
    register_right right_row right_snapshot exposure pool_snapshot allocation_snapshot transaction
    reason_of read_common read_outcome read_observation observation request_eq record_of is_zero_hex
    hash address is_positive_decimal integer is_space ends_in_space unit_bytes is_trimmed
    byte_length reference insert_right upsert_rows upsert_pool insert_allocation update_allocations
reserve_first = refl

reserve_again_example :
    reserve_action test_viem reservation (store_of (pending_row ∷ []))
    ≡ ok (pending_allocation, store_of (pending_row ∷ []))
reserve_again_example =
    reserve_again test_viem reservation (store_of []) (store_of (pending_row ∷ []))
      pending_allocation reserve_first

settle_first :
    settle_action test_viem Kind.issued issuance (store_of (pending_row ∷ []))
    ≡ ok (issued_allocation, store_of (issued_row ∷ []))
unfolding parse_issuance_request read_request get_issuance_request_digest
    get_issuance_request_typed_data request_typed_data ultratokenizer.Domain.Fields.record_of
    check_keys check_fields check_data_fields claim_record get_claim_usage_id literal uint
    identifier ultratokenizer.Domain.Fields.address is_bytes32 is_zero_bytes32 is_hex_digit is_digit
    is_decimal big_int digits_value all_chars lower lower_char text_eq request_input reserve_input
    reserve_new reserve_with reserve_action reserve settle_terminal settle_pending settle_action
    settle cap_input set_cap set_backing_cap register_input register_with register_action
    register_right right_row right_snapshot exposure pool_snapshot allocation_snapshot transaction
    reason_of read_common read_outcome read_observation observation request_eq record_of is_zero_hex
    hash address is_positive_decimal integer is_space ends_in_space unit_bytes is_trimmed
    byte_length reference insert_right upsert_rows upsert_pool insert_allocation update_allocations
settle_first = refl

settle_again_example :
    settle_action test_viem Kind.issued issuance (store_of (issued_row ∷ []))
    ≡ ok (issued_allocation, store_of (issued_row ∷ []))
settle_again_example =
    settle_again test_viem Kind.issued issuance (store_of (pending_row ∷ []))
      (store_of (issued_row ∷ [])) issued_allocation settle_first

-- The calls of the second handle are left out.
run-closed_handle_example :
    run test_viem day (record { store = store_of []; closed = 1 ∷ [] })
    ≡ run test_viem
        (filter (λ c. not (c.0 == 1)) day)
        (record { store = store_of []; closed = 1 ∷ [] })
run-closed_handle_example =
    run-closed_handle test_viem 1 day (record { store = store_of []; closed = 1 ∷ [] }) refl

abbrev import_value : String → String → String → Value
import_value id claim reference = obj object_prototype (
    texts (
      ("rightId", word id)
      ∷ ("sourceId", word "5")
      ∷ ("recordReference", codes reference)
      ∷ ("claimId", word claim)
      ∷ ("holder", account "d")
      ∷ ("milligrams", codes "1000")
      ∷ []))

-- The first right stands in the ledger, and is allocated; the second is new.
abbrev imports_value : Value
imports_value = arr (
    Items.cons (import_value "6" "c" "bar 7") (Items.cons (import_value "7" "d" "bar 8") Items.nil))

abbrev pending_ledger : Ledger
pending_ledger = record { store = store_of (pending_row ∷ []); is_closed = false }

abbrev imported_right : String → String → RightState → InstitutionRight
imported_right id claim state = record {
  right_id = word id;
  source_id = word "5";
  claim_usage_id = word claim;
  holder = account "d";
  milligrams = codes "1000";
  state = state;
}

imported :
    (import_available_rights test_viem imports_value pending_ledger).0
    ≡ ok (
        imported_right "6" "c" RightState.pending
        ∷ imported_right "7" "d" RightState.available
        ∷ [])
unfolding import_available_rights import_inputs import_input import_all import_one import_match
    map_result run call call_by close parse_issuance_request read_request
    get_issuance_request_digest get_issuance_request_typed_data request_typed_data
    ultratokenizer.Domain.Fields.record_of check_keys check_fields check_data_fields claim_record
    get_claim_usage_id literal uint identifier ultratokenizer.Domain.Fields.address is_bytes32
    is_zero_bytes32 is_hex_digit is_digit is_decimal big_int digits_value all_chars lower lower_char
    text_eq request_input reserve_input reserve_new reserve_with reserve_action reserve
    settle_terminal settle_pending settle_action settle cap_input set_cap set_backing_cap
    register_input register_with register_action register_right right_row right_snapshot exposure
    pool_snapshot allocation_snapshot transaction reason_of read_common read_outcome
    read_observation observation request_eq record_of is_zero_hex hash address is_positive_decimal
    integer is_space ends_in_space unit_bytes is_trimmed byte_length reference insert_right
    upsert_rows upsert_pool insert_allocation update_allocations
imported = refl

import_available_rights-IsRegistered_example :
    (inputs : List RightRow) × (import_inputs test_viem imports_value ≡ ok inputs)
    × All
        (IsRegistered
          (import_available_rights test_viem imports_value pending_ledger).1.store.rights)
        inputs
    × IsKept pending_ledger.store
        (import_available_rights test_viem imports_value pending_ledger).1.store
import_available_rights-IsRegistered_example =
    import_available_rights-IsRegistered test_viem imports_value pending_ledger
      (imported_right "6" "c" RightState.pending ∷ imported_right "7" "d" RightState.available ∷ [])
      imported
