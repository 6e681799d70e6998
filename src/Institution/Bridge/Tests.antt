-- ===== src/Institution/Bridge/Tests.antt =====
-- A reservation that was never opened, and one that was revoked, through the bridge.
use ultratokenizer.Base.{
  ℕ, codes, text_eq, lower, lower_char, all_chars, is_digit, is_hex_digit, big_int, decimal, true,
  false, ◌≡◌, ◌⊎◌, refl, [], ◌∷◌, some, ok, ◌==◌, if◌then◌else◌,
}
use ultratokenizer.Base.Chars.{digits_value, digits}
use ultratokenizer.Domain.Value.{str}
use ultratokenizer.Domain.Viem.{zero_address}
use ultratokenizer.Domain.Fields.{is_decimal, is_bytes32}
use ultratokenizer.Domain.Request.{
  get_issuance_request_digest, get_issuance_request_typed_data, request_typed_data, to_value,
}
use ultratokenizer.Domain.Tests.{test_viem, word, account, sample, parse_sample}
use ultratokenizer.Institution.Types.{Allocation, AllocationState, Outcome, is_pending}
use ultratokenizer.Institution.Fields.{
  record_of, is_zero_hex, hash, address, is_positive_decimal, integer,
}
use ultratokenizer.Institution.Store.{update_allocations}
use ultratokenizer.Institution.Snapshots.{allocation_snapshot}
use ultratokenizer.Institution.Outcomes.{read_common, read_outcome, read_observation, observation}
use ultratokenizer.Institution.Transaction.{Ledger, transaction}
use ultratokenizer.Institution.Allocations.{
  get_allocation, settle, settle_action, settle_pending, release_unused, release_expired_unopened,
}
use ultratokenizer.Institution.Tests.{store_of, pending_row, pending_allocation}
use ultratokenizer.Institution.Bridge.{
  Pins, Block, Reservation, Reader, Anchored, State, anchored, state, allocation,
  matching_reservation,
}
use ultratokenizer.Institution.Bridge.Release.{
  Verdict, zero_hash, is_absent, is_unused, expired_value, unused_value, confirmed_number,
  decide_expired, decide_unused, settle_expired_unopened, settle_unused,
}
use ultratokenizer.Institution.Bridge.Shown.{IsExpired, IsReleased}
use ultratokenizer.Institution.Bridge.Guarded.{
  settle_expired_unopened-IsExpired, settle_unused-IsReleased,
}

abbrev pins : Pins
pins = record {
  chain_id = codes "43113";
  gate = account "b";
  gate_code_hash = word "7";
  deployment_block_number = codes "10";
  deployment_block_hash = word "2";
  confirmations = 3;
}

abbrev unopened : Reservation
unopened = record {
  recipient = zero_address;
  token = zero_address;
  capacity = 0;
  used = 0;
  valid_until = 0;
  revoked = false;
  request_digest = zero_hash;
  claim_usage_id = zero_hash;
  released = false;
}

abbrev revoked : Reservation
revoked = record {
  recipient = account "d";
  token = account "c";
  capacity = 1000;
  used = 0;
  valid_until = 2500;
  revoked = true;
  request_digest = word "1";
  claim_usage_id = word "c";
  released = true;
}

-- The head is 32; block 30 is at time 2100.
abbrev reader : Reservation → Reader
reader r = record {
  get_chain_id = λ turn. some 43113;
  get_block_number = λ turn. some 32;
  get_block = λ turn n. some (record {
    number = some n;
    hash = some (if n == 10 then word "2" else word "8");
    timestamp = 2100;
  });
  get_code = λ turn gate n. some (some (codes "0x6001"));
  reservations = λ turn issuer id n. some r;
  used_requests = λ turn digest n. some false;
  used_claims = λ turn claim n. some false;
  keccak256 = λ code. word "7";
}

abbrev ledger : Ledger
ledger = record { store = store_of (pending_row ∷ []); is_closed = false }

digest_sample : get_issuance_request_digest test_viem (to_value sample) ≡ ok (word "1")
unfolding get_issuance_request_digest get_issuance_request_typed_data request_typed_data big_int
    digits_value
digest_sample = rw parse_sample refl

found : (get_allocation test_viem (str (word "1")) ledger).0 ≡ ok (some pending_allocation)
unfolding get_allocation transaction allocation_snapshot hash is_bytes32 is_zero_hex is_hex_digit
    is_digit all_chars lower lower_char text_eq
found = rw parse_sample refl

read : allocation test_viem pins (reader unopened) (word "1") ledger ≡ ok pending_allocation
unfolding allocation ultratokenizer.Institution.Bridge.word hash is_bytes32 is_zero_hex is_hex_digit
    is_digit all_chars lower lower_char text_eq
read = rw (found, parse_sample, digest_sample) refl

abbrev block : Anchored
block = record { block_hash = word "8"; block_timestamp = 2100 }

decided :
    decide_expired test_viem pins (reader unopened) false pending_allocation
    ≡ ok (Verdict.settles (expired_value pending_allocation block 30))
unfolding decide_expired confirmed_number anchored state is_absent
    ultratokenizer.Institution.Bridge.word hash is_bytes32 is_zero_hex is_hex_digit is_digit big_int
    digits_value all_chars lower lower_char text_eq
decided = rw digest_sample refl

decided_unused :
    decide_unused test_viem pins (reader revoked) false pending_allocation
    ≡ ok (Verdict.settles (unused_value pending_allocation block 30 true))
unfolding decide_unused confirmed_number anchored state matching_reservation is_unused
    ultratokenizer.Institution.Bridge.word hash is_bytes32 is_zero_hex is_hex_digit is_digit big_int
    digits_value all_chars lower lower_char text_eq
decided_unused = rw digest_sample refl

abbrev released : Outcome → Ledger
released outcome = record {
  store = store_of (
      record pending_row {
        state = AllocationState.released;
        observation = some (record {
          common = record {
            request_digest = word "1";
            chain_id = codes "43113";
            gate = account "b";
            reservation_id = word "f";
            claim_usage_id = word "c";
            block_hash = word "8";
            block_number = codes "30";
          };
          outcome = outcome;
        });
      }
      ∷ []);
  is_closed = false;
}

releases_expired :
    (settle_expired_unopened test_viem pins (reader unopened) (word "1") false ledger ledger).1
    ≡ released (Outcome.expired_unopened (codes "2100"))
unfolding settle_expired_unopened settle transaction settle_action settle_pending
    allocation_snapshot update_allocations observation read_observation read_common read_outcome
    record_of hash address integer is_decimal is_positive_decimal is_bytes32 is_zero_hex
    is_hex_digit is_digit decimal digits big_int digits_value all_chars lower lower_char text_eq
releases_expired = rw (read, decided, parse_sample) refl

settle_expired_unopened-IsExpired_example :
    ((settle_expired_unopened test_viem pins (reader unopened) (word "1") false ledger ledger).1
      ≡ ledger)
    ⊎ ((current : Allocation) × (number : ℕ) × (b : Anchored) × (allocation test_viem pins
            (reader unopened)
            (word "1")
            ledger
          ≡ ok current)
        × (is_pending current.state ≡ true)
        × IsExpired test_viem pins (reader unopened) current.request number b
        × ((settle_expired_unopened test_viem pins
              (reader unopened)
              (word "1")
              false
              ledger
              ledger).1
            ≡ (release_expired_unopened test_viem (expired_value current b number) ledger).1))
settle_expired_unopened-IsExpired_example =
    settle_expired_unopened-IsExpired test_viem pins (reader unopened) (word "1") false ledger
      ledger

settle_unused-IsReleased_example :
    ((settle_unused test_viem pins (reader revoked) (word "1") false ledger ledger).1 ≡ ledger)
    ⊎ ((current : Allocation) × (number : ℕ) × (b : Anchored) × (observed : State) × (allocation
            test_viem pins
            (reader revoked)
            (word "1")
            ledger
          ≡ ok current)
        × (is_pending current.state ≡ true)
        × IsReleased test_viem pins (reader revoked) current.request number b observed
        × ((settle_unused test_viem pins (reader revoked) (word "1") false ledger ledger).1
            ≡ (release_unused test_viem
                (unused_value current b number observed.reservation.revoked)
                ledger).1))
settle_unused-IsReleased_example =
    settle_unused-IsReleased test_viem pins (reader revoked) (word "1") false ledger ledger
