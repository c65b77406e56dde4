-- ===== src/Hostio/Call.antt =====
-- The host functions as one family: a call is a function with its arguments, `run` is the table
-- that the linker makes of the `#[no_mangle]` functions of main/src/hostio.rs.
pub mod Inputs
pub mod Serves
pub mod Delivers
pub mod Returns
pub mod Mismatch
use cargo_stylus.Common.{ℕ, String, Bool, true, false, List, [], ◌∷◌, ◌++◌, length}
use cargo_stylus.Common.Bytes.{Bytes, to_be_bytes}
use cargo_stylus.Trace.Names.{Names}
use cargo_stylus.Hostio.State.{Host, Memory, ◌>>=◌, return, load}
use cargo_stylus.Hostio.Data
use cargo_stylus.Hostio.Account
use cargo_stylus.Hostio.Chain
use cargo_stylus.Hostio.Calls
use cargo_stylus.Hostio.Math
use cargo_stylus.Hostio.Console
use mathlib.Core.List.{reverse}

pub data Call : Type 0 where
  read_args : ℕ → Call
  write_result : ℕ → ℕ → Call
  exit_early : ℕ → Call
  storage_load_bytes32 : ℕ → ℕ → Call
  storage_cache_bytes32 : ℕ → ℕ → Call
  storage_flush_cache : ℕ → Call
  transient_load_bytes32 : ℕ → ℕ → Call
  transient_store_bytes32 : ℕ → ℕ → Call
  account_balance : ℕ → ℕ → Call
  account_code : ℕ → ℕ → ℕ → ℕ → Call
  account_code_size : ℕ → Call
  account_codehash : ℕ → ℕ → Call
  block_basefee : ℕ → Call
  tx_gas_price : ℕ → Call
  block_coinbase : ℕ → Call
  contract_address : ℕ → Call
  msg_sender : ℕ → Call
  msg_value : ℕ → Call
  tx_origin : ℕ → Call
  block_gas_limit : Call
  block_number : Call
  block_timestamp : Call
  chainid : Call
  evm_gas_left : Call
  evm_ink_left : Call
  return_data_size : Call
  tx_ink_price : Call
  msg_reentrant : Call
  pay_for_memory_grow : ℕ → Call
  call_contract : ℕ → ℕ → ℕ → ℕ → ℕ → ℕ → Call
  delegate_call_contract : ℕ → ℕ → ℕ → ℕ → ℕ → Call
  static_call_contract : ℕ → ℕ → ℕ → ℕ → ℕ → Call
  create1 : ℕ → ℕ → ℕ → ℕ → ℕ → Call
  create2 : ℕ → ℕ → ℕ → ℕ → ℕ → ℕ → Call
  emit_log : ℕ → ℕ → ℕ → Call
  read_return_data : ℕ → ℕ → ℕ → Call
  math_div : ℕ → ℕ → Call
  math_mod : ℕ → ℕ → Call
  math_pow : ℕ → ℕ → Call
  math_add_mod : ℕ → ℕ → ℕ → Call
  math_mul_mod : ℕ → ℕ → ℕ → Call
  native_keccak256 : ℕ → ℕ → ℕ → Call
  log_f32 : ℕ → Call
  log_f64 : ℕ → Call
  log_i32 : ℕ → Call
  log_i64 : ℕ → Call
  log_txt : ℕ → ℕ → Call

-- What comes back in a register.
pub data Reply : Type 0 where
  nothing : Reply
  word : ℕ → Reply
  flag : Bool → Reply

-- The symbol that the guest links against.
unfoldable pub symbol : Call → String
symbol (Call.read_args _) = "read_args"
symbol (Call.write_result _ _) = "write_result"
symbol (Call.exit_early _) = "exit_early"
symbol (Call.storage_load_bytes32 _ _) = "storage_load_bytes32"
symbol (Call.storage_cache_bytes32 _ _) = "storage_cache_bytes32"
symbol (Call.storage_flush_cache _) = "storage_flush_cache"
symbol (Call.transient_load_bytes32 _ _) = "transient_load_bytes32"
symbol (Call.transient_store_bytes32 _ _) = "transient_store_bytes32"
symbol (Call.account_balance _ _) = "account_balance"
symbol (Call.account_code _ _ _ _) = "account_code"
symbol (Call.account_code_size _) = "account_code_size"
symbol (Call.account_codehash _ _) = "account_codehash"
symbol (Call.block_basefee _) = "block_basefee"
symbol (Call.tx_gas_price _) = "tx_gas_price"
symbol (Call.block_coinbase _) = "block_coinbase"
symbol (Call.contract_address _) = "contract_address"
symbol (Call.msg_sender _) = "msg_sender"
symbol (Call.msg_value _) = "msg_value"
symbol (Call.tx_origin _) = "tx_origin"
symbol Call.block_gas_limit = "block_gas_limit"
symbol Call.block_number = "block_number"
symbol Call.block_timestamp = "block_timestamp"
symbol Call.chainid = "chainid"
symbol Call.evm_gas_left = "evm_gas_left"
symbol Call.evm_ink_left = "evm_ink_left"
symbol Call.return_data_size = "return_data_size"
symbol Call.tx_ink_price = "tx_ink_price"
symbol Call.msg_reentrant = "msg_reentrant"
symbol (Call.pay_for_memory_grow _) = "pay_for_memory_grow"
symbol (Call.call_contract _ _ _ _ _ _) = "call_contract"
symbol (Call.delegate_call_contract _ _ _ _ _) = "delegate_call_contract"
symbol (Call.static_call_contract _ _ _ _ _) = "static_call_contract"
symbol (Call.create1 _ _ _ _ _) = "create1"
symbol (Call.create2 _ _ _ _ _ _) = "create2"
symbol (Call.emit_log _ _ _) = "emit_log"
symbol (Call.read_return_data _ _ _) = "read_return_data"
symbol (Call.math_div _ _) = "math_div"
symbol (Call.math_mod _ _) = "math_mod"
symbol (Call.math_pow _ _) = "math_pow"
symbol (Call.math_add_mod _ _ _) = "math_add_mod"
symbol (Call.math_mul_mod _ _ _) = "math_mul_mod"
symbol (Call.native_keccak256 _ _ _) = "native_keccak256"
symbol (Call.log_f32 _) = "log_f32"
symbol (Call.log_f64 _) = "log_f64"
symbol (Call.log_i32 _) = "log_i32"
symbol (Call.log_i64 _) = "log_i64"
symbol (Call.log_txt _ _) = "log_txt"

abbrev pub nothing_of : Unit {0} → Reply
nothing_of u = nothing

module _ (N : Names) (past_end : ℕ → Bytes) where
  abbrev pub as_reply : {A : Type 0} → (A → Reply) → Host A → Host Reply
  as_reply f m = m >>= λ a. return (f a)

  unfoldable pub run : Call → Host Reply
  run (Call.read_args dest) = as_reply nothing_of (Data.read_args N dest)
  run (Call.write_result data_ptr len) = as_reply nothing_of (Data.write_result N data_ptr len)
  run (Call.exit_early status) = as_reply nothing_of (Data.exit_early N status)
  run (Call.storage_load_bytes32 key_ptr dest) =
      as_reply nothing_of (Data.storage_load_bytes32 N key_ptr dest)
  run (Call.storage_cache_bytes32 key_ptr value_ptr) =
      as_reply nothing_of (Data.storage_cache_bytes32 N key_ptr value_ptr)
  run (Call.storage_flush_cache clear) = as_reply nothing_of (Data.storage_flush_cache N clear)
  run (Call.transient_load_bytes32 key_ptr dest) =
      as_reply nothing_of (Data.transient_load_bytes32 N key_ptr dest)
  run (Call.transient_store_bytes32 key_ptr value_ptr) =
      as_reply nothing_of (Data.transient_store_bytes32 N key_ptr value_ptr)
  run (Call.account_balance address_ptr dest) =
      as_reply nothing_of (Account.account_balance N address_ptr dest)
  run (Call.account_code address_ptr offset_recv size_recv dest) =
      as_reply word (Account.account_code N past_end address_ptr offset_recv size_recv dest)
  run (Call.account_code_size address_ptr) = as_reply word (Account.account_code_size N address_ptr)
  run (Call.account_codehash address_ptr dest) =
      as_reply nothing_of (Account.account_codehash N address_ptr dest)
  run (Call.block_basefee dest) = as_reply nothing_of (Chain.block_basefee N dest)
  run (Call.tx_gas_price dest) = as_reply nothing_of (Chain.tx_gas_price N dest)
  run (Call.block_coinbase dest) = as_reply nothing_of (Chain.block_coinbase N dest)
  run (Call.contract_address dest) = as_reply nothing_of (Chain.contract_address N dest)
  run (Call.msg_sender dest) = as_reply nothing_of (Chain.msg_sender N dest)
  run (Call.msg_value dest) = as_reply nothing_of (Chain.msg_value N dest)
  run (Call.tx_origin dest) = as_reply nothing_of (Chain.tx_origin N dest)
  run Call.block_gas_limit = as_reply word (Chain.block_gas_limit N)
  run Call.block_number = as_reply word (Chain.block_number N)
  run Call.block_timestamp = as_reply word (Chain.block_timestamp N)
  run Call.chainid = as_reply word (Chain.chainid N)
  run Call.evm_gas_left = as_reply word (Chain.evm_gas_left N)
  run Call.evm_ink_left = as_reply word (Chain.evm_ink_left N)
  run Call.return_data_size = as_reply word (Chain.return_data_size N)
  run Call.tx_ink_price = as_reply word (Chain.tx_ink_price N)
  run Call.msg_reentrant = as_reply flag (Chain.msg_reentrant N)
  run (Call.pay_for_memory_grow new_pages) =
      as_reply nothing_of (Chain.pay_for_memory_grow N new_pages)
  run
        (Call.call_contract address_ptr calldata calldata_len value_ptr gas_supplied
          return_data_len) =
      as_reply word (
        Calls.call_contract N address_ptr calldata calldata_len value_ptr gas_supplied
          return_data_len)
  run (Call.delegate_call_contract address_ptr calldata calldata_len gas_supplied return_data_len) =
      as_reply word (
        Calls.delegate_call_contract N address_ptr calldata calldata_len gas_supplied
          return_data_len)
  run (Call.static_call_contract address_ptr calldata calldata_len gas_supplied return_data_len) =
      as_reply word (
        Calls.static_call_contract N address_ptr calldata calldata_len gas_supplied return_data_len)
  run (Call.create1 code_ptr code_len value contract revert_data_len_ptr) =
      as_reply nothing_of (Calls.create1 N code_ptr code_len value contract revert_data_len_ptr)
  run (Call.create2 code_ptr code_len value_ptr salt_ptr contract revert_data_len_ptr) =
      as_reply nothing_of
        (Calls.create2 N code_ptr code_len value_ptr salt_ptr contract revert_data_len_ptr)
  run (Call.emit_log data_ptr len topic_count) =
      as_reply nothing_of (Calls.emit_log N data_ptr len topic_count)
  run (Call.read_return_data dest offset_value size_value) =
      as_reply word (Calls.read_return_data N dest offset_value size_value)
  run (Call.math_div value divisor) = as_reply nothing_of (Math.math_div N value divisor)
  run (Call.math_mod value modulus) = as_reply nothing_of (Math.math_mod N value modulus)
  run (Call.math_pow value exponent) = as_reply nothing_of (Math.math_pow N value exponent)
  run (Call.math_add_mod value addend modulus) =
      as_reply nothing_of (Math.math_add_mod N value addend modulus)
  run (Call.math_mul_mod value multiplier modulus) =
      as_reply nothing_of (Math.math_mul_mod N value multiplier modulus)
  run (Call.native_keccak256 bytes_ptr len output) =
      as_reply nothing_of (Math.native_keccak256 N bytes_ptr len output)
  run (Call.log_f32 value) = as_reply nothing_of (Console.log_f32 N value)
  run (Call.log_f64 value) = as_reply nothing_of (Console.log_f64 N value)
  run (Call.log_i32 value) = as_reply nothing_of (Console.log_i32 N value)
  run (Call.log_i64 value) = as_reply nothing_of (Console.log_i64 N value)
  run (Call.log_txt text_ptr len) = as_reply nothing_of (Console.log_txt N text_ptr len)

-- The argument bytes that the tracer records for a call, from the guest's memory: of the functions
-- that take no argument, and of those that print a number, none.
unfoldable pub inputs : Call → Memory → Bytes
inputs (Call.write_result data_ptr len) m = load data_ptr len m
inputs (Call.exit_early status) m = to_be_bytes 4 status
inputs (Call.storage_load_bytes32 key_ptr _) m = load key_ptr 32 m
inputs (Call.storage_cache_bytes32 key_ptr value_ptr) m = load key_ptr 32 m ++ load value_ptr 32 m
inputs (Call.storage_flush_cache clear) m = to_be_bytes 1 clear
inputs (Call.transient_load_bytes32 key_ptr _) m = load key_ptr 32 m
inputs (Call.transient_store_bytes32 key_ptr value_ptr) m = load key_ptr 32 m ++ load value_ptr 32 m
inputs (Call.account_balance address_ptr _) m = load address_ptr 20 m
inputs (Call.account_code address_ptr offset_recv size_recv _) m =
    load address_ptr 20 m ++ (to_be_bytes 4 offset_recv ++ to_be_bytes 4 size_recv)
inputs (Call.account_code_size address_ptr) m = load address_ptr 20 m
inputs (Call.account_codehash address_ptr _) m = load address_ptr 20 m
inputs (Call.pay_for_memory_grow new_pages) m = to_be_bytes 2 new_pages
inputs (Call.call_contract address_ptr calldata calldata_len value_ptr gas_supplied _) m =
    load address_ptr 20 m
    ++ (to_be_bytes 8 gas_supplied ++ (load value_ptr 32 m ++ load calldata calldata_len m))
inputs (Call.delegate_call_contract address_ptr calldata calldata_len gas_supplied _) m =
    load address_ptr 20 m ++ (to_be_bytes 8 gas_supplied ++ load calldata calldata_len m)
inputs (Call.static_call_contract address_ptr calldata calldata_len gas_supplied _) m =
    load address_ptr 20 m ++ (to_be_bytes 8 gas_supplied ++ load calldata calldata_len m)
inputs (Call.create1 code_ptr code_len value _ _) m = load value 32 m ++ load code_ptr code_len m
inputs (Call.create2 code_ptr code_len value_ptr salt_ptr _ _) m =
    load value_ptr 32 m ++ (load salt_ptr 32 m ++ load code_ptr code_len m)
inputs (Call.emit_log data_ptr len topic_count) m = to_be_bytes 4 topic_count ++ load data_ptr len m
inputs (Call.read_return_data _ offset_value size_value) m =
    to_be_bytes 4 offset_value ++ to_be_bytes 4 size_value
inputs (Call.math_div value divisor) m = load value 32 m ++ load divisor 32 m
inputs (Call.math_mod value modulus) m = load value 32 m ++ load modulus 32 m
inputs (Call.math_pow value exponent) m = load value 32 m ++ load exponent 32 m
inputs (Call.math_add_mod value addend modulus) m =
    load value 32 m ++ (load addend 32 m ++ load modulus 32 m)
inputs (Call.math_mul_mod value multiplier modulus) m =
    load value 32 m ++ (load multiplier 32 m ++ load modulus 32 m)
inputs (Call.native_keccak256 bytes_ptr len _) m = load bytes_ptr len m
inputs (Call.log_txt text_ptr len) m = load text_ptr len m
inputs _ m = []

-- The calls whose arguments are not compared with the trace.
unfoldable pub is_unchecked : Call → Bool
is_unchecked (Call.exit_early _) = true
is_unchecked (Call.storage_flush_cache _) = true
is_unchecked (Call.log_f32 _) = true
is_unchecked (Call.log_f64 _) = true
is_unchecked (Call.log_i32 _) = true
is_unchecked (Call.log_i64 _) = true
is_unchecked _ = false
