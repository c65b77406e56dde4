-- ===== src/Trace/Names.antt =====
-- The two uses of a host call's name in main/src/trace.rs: the strings that `parse_frame` matches,
-- and `HostioKind::name`, which a derive of the `sneks` crate writes.
use cargo_stylus.Common.{String, ◌≡◌, ◌≢◌, Option, none, some, if◌then◌else◌}
use cargo_stylus.Common.Text.{str_eq, starts_with}
use cargo_stylus.Trace.Kinds.{HostioKind, Variant, variant_of}

-- The variant that each arm of `match name.as_str()` builds; `none` is the `todo!` of the last arm.
unfoldable pub arm_of : String → Option Variant
arm_of name =
    if str_eq name "user_entrypoint"
    then some Variant.user_entrypoint
    else if str_eq name "user_returned"
    then some Variant.user_returned
    else if str_eq name "read_args"
    then some Variant.read_args
    else if str_eq name "write_result"
    then some Variant.write_result
    else if str_eq name "exit_early"
    then some Variant.exit_early
    else if str_eq name "storage_load_bytes32"
    then some Variant.storage_load_bytes32
    else if str_eq name "storage_cache_bytes32"
    then some Variant.storage_cache_bytes32
    else if str_eq name "storage_flush_cache"
    then some Variant.storage_flush_cache
    else if str_eq name "transient_load_bytes32"
    then some Variant.transient_load_bytes32
    else if str_eq name "transient_store_bytes32"
    then some Variant.transient_store_bytes32
    else if str_eq name "account_balance"
    then some Variant.account_balance
    else if str_eq name "account_code"
    then some Variant.account_code
    else if str_eq name "account_code_size"
    then some Variant.account_code_size
    else if str_eq name "account_codehash"
    then some Variant.account_codehash
    else if str_eq name "block_basefee"
    then some Variant.block_basefee
    else if str_eq name "block_coinbase"
    then some Variant.block_coinbase
    else if str_eq name "block_gas_limit"
    then some Variant.block_gas_limit
    else if str_eq name "block_number"
    then some Variant.block_number
    else if str_eq name "block_timestamp"
    then some Variant.block_timestamp
    else if str_eq name "chainid"
    then some Variant.chainid
    else if str_eq name "contract_address"
    then some Variant.contract_address
    else if str_eq name "evm_gas_left"
    then some Variant.evm_gas_left
    else if str_eq name "evm_ink_left"
    then some Variant.evm_ink_left
    else if str_eq name "pay_for_memory_grow"
    then some Variant.pay_for_memory_grow
    else if str_eq name "math_div"
    then some Variant.math_div
    else if str_eq name "math_mod"
    then some Variant.math_mod
    else if str_eq name "math_pow"
    then some Variant.math_pow
    else if str_eq name "math_add_mod"
    then some Variant.math_add_mod
    else if str_eq name "math_mul_mod"
    then some Variant.math_mul_mod
    else if str_eq name "msg_reentrant"
    then some Variant.msg_reentrant
    else if str_eq name "msg_sender"
    then some Variant.msg_sender
    else if str_eq name "msg_value"
    then some Variant.msg_value
    else if str_eq name "native_keccak256"
    then some Variant.native_keccak256
    else if str_eq name "tx_gas_price"
    then some Variant.tx_gas_price
    else if str_eq name "tx_ink_price"
    then some Variant.tx_ink_price
    else if str_eq name "tx_origin"
    then some Variant.tx_origin
    else if str_eq name "console_log"
    then some Variant.console_log
    else if str_eq name "console_log_text"
    then some Variant.console_log_text
    else if str_eq name "call_contract"
    then some Variant.call_contract
    else if str_eq name "delegate_call_contract"
    then some Variant.delegate_call_contract
    else if str_eq name "static_call_contract"
    then some Variant.static_call_contract
    else if str_eq name "create1"
    then some Variant.create1
    else if str_eq name "create2"
    then some Variant.create2
    else if str_eq name "emit_log"
    then some Variant.emit_log
    else if str_eq name "read_return_data"
    then some Variant.read_return_data
    else if str_eq name "return_data_size"
    then some Variant.return_data_size
    else if starts_with name "evm_"
    then some Variant.evm_call
    else none

-- The names of the variants in snake case.
unfoldable pub spelling : Variant → String
spelling Variant.user_entrypoint = "user_entrypoint"
spelling Variant.user_returned = "user_returned"
spelling Variant.read_args = "read_args"
spelling Variant.write_result = "write_result"
spelling Variant.exit_early = "exit_early"
spelling Variant.storage_load_bytes32 = "storage_load_bytes32"
spelling Variant.storage_cache_bytes32 = "storage_cache_bytes32"
spelling Variant.storage_flush_cache = "storage_flush_cache"
spelling Variant.transient_load_bytes32 = "transient_load_bytes32"
spelling Variant.transient_store_bytes32 = "transient_store_bytes32"
spelling Variant.account_balance = "account_balance"
spelling Variant.account_code = "account_code"
spelling Variant.account_code_size = "account_code_size"
spelling Variant.account_codehash = "account_codehash"
spelling Variant.block_basefee = "block_basefee"
spelling Variant.block_coinbase = "block_coinbase"
spelling Variant.block_gas_limit = "block_gas_limit"
spelling Variant.block_number = "block_number"
spelling Variant.block_timestamp = "block_timestamp"
spelling Variant.chainid = "chainid"
spelling Variant.contract_address = "contract_address"
spelling Variant.evm_gas_left = "evm_gas_left"
spelling Variant.evm_ink_left = "evm_ink_left"
spelling Variant.pay_for_memory_grow = "pay_for_memory_grow"
spelling Variant.math_div = "math_div"
spelling Variant.math_mod = "math_mod"
spelling Variant.math_pow = "math_pow"
spelling Variant.math_add_mod = "math_add_mod"
spelling Variant.math_mul_mod = "math_mul_mod"
spelling Variant.msg_reentrant = "msg_reentrant"
spelling Variant.msg_sender = "msg_sender"
spelling Variant.msg_value = "msg_value"
spelling Variant.native_keccak256 = "native_keccak256"
spelling Variant.tx_gas_price = "tx_gas_price"
spelling Variant.tx_ink_price = "tx_ink_price"
spelling Variant.tx_origin = "tx_origin"
spelling Variant.console_log = "console_log"
spelling Variant.console_log_text = "console_log_text"
spelling Variant.call_contract = "call_contract"
spelling Variant.delegate_call_contract = "delegate_call_contract"
spelling Variant.static_call_contract = "static_call_contract"
spelling Variant.create1 = "create1"
spelling Variant.create2 = "create2"
spelling Variant.emit_log = "emit_log"
spelling Variant.read_return_data = "read_return_data"
spelling Variant.return_data_size = "return_data_size"
spelling Variant.evm_call = "evm_call"

-- `HostioKind::name` depends on the variant alone. The derive documents it as the variant's name in
-- snake case. Where `EVMCall` is cut into words is not used by the code, so it is left open.
pub record Names : Type 0 where
  pub name_of : Variant → String
  pub name_of_lem : (v : Variant) → v ≢ Variant.evm_call → name_of v ≡ spelling v

module _ (N : Names) where
  abbrev pub name : HostioKind → String
  name k = N.name_of (variant_of k)
