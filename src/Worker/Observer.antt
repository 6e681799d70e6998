-- ===== src/Worker/Observer.antt =====
-- workers/issuance/src/chain-observer.ts: the configuration, the calls of the node and the readers
-- of what it answers. The children observe a transaction.
pub mod Logs
pub mod Evidence
pub mod Counted
pub mod Passed
pub mod Observe
pub mod Sound
pub mod Confirmed
pub mod Verdict
pub mod Check
pub mod Tests
use ultratokenizer.Base.{
  ℕ, ◌+◌, ◌-◌, ◌*◌, ◌%◌, Text, codes, text_eq, lower, all_chars, is_digit, is_hex_digit, Bool, true,
  false, not, ◌&&◌, ◌||◌, List, [], ◌∷◌, Option, none, some, ltb, leb, ◌==◌, length, if◌then◌else◌,
  throw_if, err,
}
use ultratokenizer.Domain.Value.{Value, str, number, obj, Entry, entries, get, has_own}
use ultratokenizer.Domain.Viem.{Viem, zero_address}
use ultratokenizer.Domain.Fields.{is_bytes32, is_zero_bytes32}
use ultratokenizer.Worker.Errors.{Response, worker, ErrorCode}

-- `confirmations` is `none` for a number that is no safe integer, or is negative.
pub record ChainConfiguration : Type 0 where
  pub rpc_url : Text
  pub chain_id : Text
  pub gate : Text
  pub code_hash : Text
  pub confirmations : Option ℕ

-- What is read of a `URL`.
pub record Url : Type 0 where
  pub protocol : Text
  pub username : Text
  pub password : Text
  pub fragment : Text

unfoldable pub is_hash : Value → Bool
unfolding is_bytes32 is_zero_bytes32
is_hash (str t) = is_bytes32 t && not (is_zero_bytes32 t)
is_hash _ = false

abbrev pub hex_digit : ℕ → ℕ
hex_digit c = if leb c b'9' then c - b'0' else if leb c b'F' then c - b'A' + 10 else c - b'a' + 10

unfoldable pub hex_value : ℕ → Text → ℕ
hex_value acc [] = acc
hex_value acc (c ∷ t) = hex_value (acc * 16 + hex_digit c) t

-- `/^(?:0|[1-9a-fA-F][0-9a-fA-F]*)$/`
unfoldable pub is_hex_number : Text → Bool
unfolding all_chars is_hex_digit
is_hex_number [] = false
is_hex_number (c ∷ t) =
    c == b'0' && length t == 0 || not (c == b'0') && is_hex_digit c && all_chars is_hex_digit t

unfoldable pub quantity : Value → Option ℕ
unfolding is_hex_number hex_value
quantity (str (a ∷ b ∷ t)) =
    if leb (length t) 64 && a == b'0' && b == b'x' && is_hex_number t
    then some (hex_value 0 t)
    else none
quantity _ = none

-- `/^[1-9][0-9]{0,9}$/`
unfoldable pub is_chain_id : Text → Bool
unfolding all_chars is_digit
is_chain_id [] = false
is_chain_id (c ∷ t) = leb b'1' c && leb c b'9' && leb (length t) 9 && all_chars is_digit t

-- `isAddress(value, { strict: true })` of a string that is not `/^0x0{40}$/i`.
abbrev pub is_nonzero_address : Viem → Text → Bool
is_nonzero_address viem t = viem.is_address t && not (text_eq (lower t) zero_address)

abbrev pub is_depth : Option ℕ → Bool
is_depth none = false
is_depth (some n) = leb 1 n && leb n 32

abbrev pub depth : ChainConfiguration → ℕ
depth config = elim config.confirmations [ none ↦ 0 | some n ↦ n - 1 ]

abbrev pub is_bare_https : Url → Bool
is_bare_https url =
    text_eq url.protocol (codes "https:")
    && length url.username == 0
    && length url.password == 0
    && length url.fragment == 0

unfoldable pub is_valid_configuration : Viem → ChainConfiguration → Url → Bool
unfolding is_chain_id is_hash
is_valid_configuration viem config url =
    is_bare_https url
    && is_chain_id config.chain_id
    && is_nonzero_address viem config.gate
    && is_hash (str config.code_hash)
    && is_depth config.confirmations

-- `url` is `new URL(config.rpcUrl)`, `none` where that throws.
unfoldable pub validate_chain_configuration :
    Viem → ChainConfiguration → Option Url → Response (Unit {0})
unfolding is_valid_configuration
validate_chain_configuration viem config none = err (worker ErrorCode.not_configured)
validate_chain_configuration viem config (some url) =
    throw_if (not (is_valid_configuration viem config url)) (worker ErrorCode.not_configured)

-- The calls of the node. Numbers of blocks are passed on as they were read.
pub data Method : Type 0 where
  eth_chain_id eth_block_number : Method
  eth_get_transaction_receipt eth_get_transaction_by_hash : (hash : Text) → Method
  eth_get_block_by_number : (tag : Value) → Method
  eth_get_code : (address : Text) (tag : Value) → Method

-- The node at each turn, `none` where the call fails or its answer is not read. Calls that are made
-- at once have one turn; the node may answer otherwise at another.
abbrev pub Node : Type 0
Node = ℕ → Method → Option Value

-- `value === text`
abbrev pub is_text : Text → Value → Bool
is_text t (str s) = text_eq s t
is_text t _ = false

abbrev pub is_one : Value → Bool
is_one (number n) = n == 1
is_one _ = false

-- `isRecord(value)`, and its properties.
abbrev pub record_entries : Value → Option (List Entry)
record_entries (obj proto props) = some (entries props)
record_entries _ = none

-- `result.result`, if what was read is an answer.
abbrev pub result_of : List Entry → Option Value
result_of es =
    if is_text (codes "2.0") (get "jsonrpc" es)
      && is_one (get "id" es)
      && not (has_own "error" es)
      && has_own "result" es
    then some (get "result" es)
    else none

abbrev pub envelope : Option (List Entry) → Option Value
envelope none = none
envelope (some es) = result_of es

unfoldable pub rpc : Node → ℕ → Method → Option Value
rpc node turn method = elim (node turn method) [
  | none ↦ none
  | some result ↦ envelope (record_entries result)
]

-- `/^0x(?:[0-9a-fA-F]{2})*$/`
unfoldable pub is_hex_bytes : Text → Bool
unfolding all_chars is_hex_digit
is_hex_bytes (a ∷ b ∷ t) = a == b'0' && b == b'x' && length t % 2 == 0 && all_chars is_hex_digit t
is_hex_bytes _ = false
