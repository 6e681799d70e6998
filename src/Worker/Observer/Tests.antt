-- ===== src/Worker/Observer/Tests.antt =====
-- A node that has seen an issuance, or the same transaction reverted, and the theorems at it.
use ultratokenizer.Base.{
  String, Text, codes, text_eq, lower, lower_char, all_chars, is_digit, is_hex_digit, big_int,
  decimal, true, false, ◌≡◌, ◌⊎◌, refl, [], ◌∷◌, ◌++◌, Option, none, some, ok, any,
}
use ultratokenizer.Base.Chars.{digits_value, digits}
use ultratokenizer.Domain.Value.{
  Value, str, number, boolean, arr, obj, object_prototype, Props, prop, end, name, nil, cons,
}
use ultratokenizer.Domain.Fields.{
  check_keys, check_fields, literal, uint, address, identifier, is_decimal, is_bytes32,
  is_zero_bytes32, record_of,
}
use ultratokenizer.Domain.Request.{
  parse_issuance_request, read_request, get_issuance_request_digest,
  get_issuance_request_typed_data, request_typed_data, to_value,
}
use ultratokenizer.Domain.Tests.{test_viem, word, account, sample}
use ultratokenizer.Worker.Model.{
  RequestState, RequestStatus, Observation, Confirmation, transaction_reverted, gate_mismatch,
  public_state,
}
use ultratokenizer.Worker.Database.{
  Database, load, save, upsert, sweep, mutate, schedule_alarm, owned,
}
use ultratokenizer.Worker.Observing.{
  alarm_finish, resolve_finish, resolve_finish_action, resolved, observe_with, observed,
}
use ultratokenizer.Worker.Observer.{
  ChainConfiguration, Url, is_valid_configuration, validate_chain_configuration, Node, eth_chain_id,
  eth_block_number, eth_get_transaction_receipt, eth_get_transaction_by_hash,
  eth_get_block_by_number, eth_get_code, rpc, is_hash, quantity, hex_value, is_hex_number,
  is_chain_id, is_hex_bytes,
}
use ultratokenizer.Worker.Observer.Logs.{
  Issued, Abi, Anchor, is_same_issuance, read_event, read_issuance, read_gate_log, read_log,
  read_logs,
}
use ultratokenizer.Worker.Observer.Observe.{
  is_final, find_receipt, find_block, find_anchor, recheck, check_transaction, check_destination,
  check_code, examine, conclude, observe_anchor, observe_issuance,
}
use ultratokenizer.Worker.Observer.Sound.{IsAnchored, IsRead}
use ultratokenizer.Worker.Observer.Confirmed.{IsPinned, IsShown}
use ultratokenizer.Worker.Observer.Verdict.{
  is_elsewhere, observe_issuance-IsShown, observe_issuance-IsAnchored,
}
use ultratokenizer.Worker.Observer.Check.{
  is_confirmed_row, IsProved, alarm_check, resolve_check, alarm_check-IsProved,
  resolve_check-IsProved,
}

abbrev pub text : String → String → Props → Props
text key t ps = prop (name key) false (str (codes t)) ps

abbrev pub long : String → Text → Props → Props
long key t ps = prop (name key) false (str t) ps

abbrev pub value : String → Value → Props → Props
value key v ps = prop (name key) false v ps

abbrev pub object : Props → Value
object ps = obj object_prototype ps

abbrev pub answer : Value → Option Value
answer v = some (object (text "jsonrpc" "2.0" (value "id" (number 1) (value "result" v end))))

abbrev pub config : ChainConfiguration
config = record {
  rpc_url = codes "https://node.test/";
  chain_id = codes "43113";
  gate = account "b";
  code_hash = word "7";
  confirmations = some 3;
}

abbrev pub url : Url
url = record { protocol = codes "https:"; username = []; password = []; fragment = [] }

abbrev pub event : Issued
event = record {
  request_digest = word "1";
  request_id = word "a";
  claim_usage_id = word "c";
  issuer_id = word "e";
  reservation_id = word "f";
  token = account "c";
  recipient = account "d";
  milligrams = 1000;
  policy_version = 1;
  rights_version = 2;
  permit_digest = word "3";
  public_values_hash = word "4";
  program_vkey = word "6";
}

abbrev pub abi : Abi
abi = record {
  keccak256 = λ code. word "7";
  issuance_topic = word "8";
  decode_issued = λ data_ topics. some event;
}

-- `0x` and ten words.
abbrev pub event_data : Text
event_data =
    let zeros = codes "0000000000000000000000000000000000000000000000000000000000000000" in
    codes "0x"
    ++ zeros
    ++ zeros
    ++ zeros
    ++ zeros
    ++ zeros
    ++ zeros
    ++ zeros
    ++ zeros
    ++ zeros
    ++ zeros

abbrev pub topics : Value
topics = arr (
    cons (str (word "8"))
      (cons (str (word "1")) (cons (str (word "e")) (cons (str (word "c")) nil))))

abbrev pub log : Text → Value
log contract = object (
    long "address" contract (
      value "topics" topics (
        long "data" event_data (
          long "transactionHash" (word "5") (
            long "blockHash" (word "9") (
              text "blockNumber" "0x1e"
                (text "logIndex" "0x1" (value "removed" (boolean false) end))))))))

abbrev pub receipt : String → Value
receipt status = object (
    long "transactionHash" (word "5") (
      long "blockHash" (word "9") (
        text "blockNumber" "0x1e" (
          long "to" (account "b") (
            text "status" status (
              value "logs" (arr (cons (log (account "c")) (cons (log (account "b")) nil))) end))))))

abbrev pub transaction : Value
transaction = object (
    long "hash" (word "5")
      (long "blockHash" (word "9") (text "blockNumber" "0x1e" (long "to" (account "b") end))))

abbrev pub node : String → Node
node status turn eth_chain_id = answer (str (codes "0xa869"))
node status turn eth_block_number = answer (str (codes "0x20"))
node status turn (eth_get_transaction_receipt hash) = answer (receipt status)
node status turn (eth_get_transaction_by_hash hash) = answer transaction
node status turn (eth_get_block_by_number tag) =
    answer (object (long "hash" (word "9") (text "number" "0x1e" end)))
node status turn (eth_get_code gate tag) = answer (str (codes "0x6001"))

abbrev confirmation : Confirmation
confirmation = record {
  block_number = codes "30";
  block_hash = word "9";
  log_index = codes "1";
  permit_digest = word "3";
  public_values_hash = word "4";
  program_vkey = word "6";
}

digest_sample : get_issuance_request_digest test_viem (to_value sample) ≡ ok (word "1")
unfolding get_issuance_request_digest get_issuance_request_typed_data parse_issuance_request
    read_request request_typed_data record_of check_keys check_fields literal uint identifier
    address is_bytes32 is_zero_bytes32 is_hex_digit is_digit is_decimal big_int digits_value
    all_chars lower lower_char text_eq
digest_sample = refl

observe_sample :
    observe_issuance test_viem abi config (node "0x1") sample (word "5") (some url)
    ≡ ok (Observation.confirmed confirmation)
unfolding observe_issuance validate_chain_configuration is_valid_configuration observe_anchor
    find_anchor find_receipt find_block is_final examine check_transaction check_destination
    check_code conclude recheck read_logs read_log read_gate_log read_issuance read_event
    is_same_issuance rpc is_hash quantity hex_value is_hex_number is_chain_id is_hex_bytes
    is_bytes32 is_zero_bytes32 is_hex_digit is_digit big_int digits_value decimal digits all_chars
    lower lower_char text_eq
observe_sample = rw digest_sample refl

observe_reverted :
    observe_issuance test_viem abi config (node "0x0") sample (word "5") (some url)
    ≡ ok (Observation.rejected transaction_reverted)
unfolding observe_issuance validate_chain_configuration is_valid_configuration observe_anchor
    find_anchor find_receipt find_block is_final examine check_transaction check_destination
    check_code conclude recheck rpc is_hash quantity hex_value is_hex_number is_chain_id
    is_hex_bytes is_bytes32 is_zero_bytes32 is_hex_digit is_digit big_int digits_value all_chars
    lower lower_char text_eq
observe_reverted = refl

observe_issuance-IsShown_example :
    IsPinned test_viem config (some url) sample
    × IsShown test_viem abi config (node "0x1") sample (word "5") confirmation
observe_issuance-IsShown_example =
    observe_issuance-IsShown test_viem abi config (node "0x1") sample (word "5") (some url)
      confirmation observe_sample

observe_issuance-IsAnchored_example :
    ((is_elsewhere config sample (word "5") ≡ true) × (transaction_reverted ≡ gate_mismatch))
    ⊎ ((anchor : Anchor) × IsRead config (node "0x0") (word "5") anchor
        × IsAnchored config (node "0x0") 3 anchor)
observe_issuance-IsAnchored_example =
    observe_issuance-IsAnchored test_viem abi config (node "0x0") sample (word "5") (some url)
      transaction_reverted observe_reverted

-- The row that the alarm leased.
abbrev current : RequestState
current = record {
  id = word "1";
  owner_id = codes "alice";
  request = sample;
  status = RequestStatus.checking;
  revision = 3;
  created_at = 1000000;
  updated_at = 1002000;
  transaction_hash = some (word "5");
  prior_transaction_hashes = [];
  attempts = 1;
  lease_id = some (codes "lease");
  lease_until = some 1092000;
  next_check_at = some 1092000;
  observation = none;
}

abbrev stored : Database
stored = record { requests = current ∷ []; events = []; alarm = none }

confirmed_after :
    any
      (is_confirmed_row (word "1"))
      (alarm_check test_viem abi config (some url) (node "0x1") 1003000 current stored).1.requests
    ≡ true
unfolding alarm_check alarm_finish mutate observe_with observed load save upsert sweep
    schedule_alarm text_eq
confirmed_after = rw observe_sample refl

alarm_check-IsProved_example :
    (any (is_confirmed_row (word "1")) stored.requests ≡ true)
    ⊎ ((word "1" ≡ current.id)
        × IsProved test_viem abi config (some url) (node "0x1") current (word "5"))
alarm_check-IsProved_example =
    alarm_check-IsProved test_viem abi config (some url) (node "0x1") 1003000 current stored
      (word "1") confirmed_after

abbrev replaced : RequestState
replaced = resolved 1003000 (word "5") (Observation.confirmed confirmation) current

answered :
    (resolve_check test_viem abi config
      (some url)
      (node "0x1")
      1003000
      (codes "alice")
      (word "1")
      (word "5")
      current
      stored).0
    ≡ ok (public_state replaced)
unfolding resolve_check resolve_finish mutate resolve_finish_action resolved owned load save upsert
    sweep schedule_alarm text_eq
answered = rw observe_sample refl

resolve_check-IsProved_example :
    IsProved test_viem abi config (some url) (node "0x1") current (word "5")
resolve_check-IsProved_example =
    resolve_check-IsProved test_viem abi config (some url) (node "0x1") 1003000 (codes "alice")
      (word "1") (word "5") current stored (public_state replaced) answered
