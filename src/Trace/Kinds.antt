-- ===== src/Trace/Kinds.antt =====
-- The data of a trace (main/src/trace.rs): `HostioKind`, `Hostio` and `TraceFrame`. An address is
-- 20 bytes and a B256 32 bytes, both kept as byte strings; U256 and the machine integers are
-- numbers.
use cargo_stylus.Common.{ℕ, String, Bool, Option, List, [], ◌∷◌}
use cargo_stylus.Common.Bytes.{Bytes}

mutual
  pub data HostioKind : Type 0 where
    user_entrypoint : (args_len : ℕ) → HostioKind
    user_returned : (status : ℕ) → HostioKind
    read_args : (args : Bytes) → HostioKind
    write_result : (result : Bytes) → HostioKind
    exit_early : (status : ℕ) → HostioKind
    storage_load_bytes32 : (key : Bytes) → (value : Bytes) → HostioKind
    storage_cache_bytes32 : (key : Bytes) → (value : Bytes) → HostioKind
    storage_flush_cache : (clear : ℕ) → HostioKind
    transient_load_bytes32 : (key : Bytes) → (value : Bytes) → HostioKind
    transient_store_bytes32 : (key : Bytes) → (value : Bytes) → HostioKind
    account_balance : (address : Bytes) → (balance : ℕ) → HostioKind
    account_code : (address : Bytes) → (offset : ℕ) → (size : ℕ) → (code : Bytes) → HostioKind
    account_code_size : (address : Bytes) → (size : ℕ) → HostioKind
    account_codehash : (address : Bytes) → (codehash : Bytes) → HostioKind
    block_basefee : (basefee : ℕ) → HostioKind
    block_coinbase : (coinbase : Bytes) → HostioKind
    block_gas_limit : (limit : ℕ) → HostioKind
    block_number : (number : ℕ) → HostioKind
    block_timestamp : (timestamp : ℕ) → HostioKind
    chainid : (chainid : ℕ) → HostioKind
    contract_address : (address : Bytes) → HostioKind
    evm_gas_left : (gas_left : ℕ) → HostioKind
    evm_ink_left : (ink_left : ℕ) → HostioKind
    pay_for_memory_grow : (pages : ℕ) → HostioKind
    math_div : (a : ℕ) → (b : ℕ) → (result : ℕ) → HostioKind
    math_mod : (a : ℕ) → (b : ℕ) → (result : ℕ) → HostioKind
    math_pow : (a : ℕ) → (b : ℕ) → (result : ℕ) → HostioKind
    math_add_mod : (a : ℕ) → (b : ℕ) → (c : ℕ) → (result : ℕ) → HostioKind
    math_mul_mod : (a : ℕ) → (b : ℕ) → (c : ℕ) → (result : ℕ) → HostioKind
    msg_reentrant : (reentrant : Bool) → HostioKind
    msg_sender : (sender : Bytes) → HostioKind
    msg_value : (value : Bytes) → HostioKind
    native_keccak256 : (preimage : Bytes) → (digest : Bytes) → HostioKind
    tx_gas_price : (gas_price : ℕ) → HostioKind
    tx_ink_price : (ink_price : ℕ) → HostioKind
    tx_origin : (origin : Bytes) → HostioKind
    console_log : (text : String) → HostioKind
    console_log_text : (text : Bytes) → HostioKind
    call_contract :
        (address : Bytes)
        → (bytes : Bytes) → (gas : ℕ) → (value : ℕ) → (outs_len : ℕ) → (status : ℕ)
        → (frame : TraceFrame) → HostioKind
    delegate_call_contract :
        (address : Bytes)
        → (bytes : Bytes) → (gas : ℕ) → (outs_len : ℕ) → (status : ℕ) → (frame : TraceFrame)
        → HostioKind
    static_call_contract :
        (address : Bytes)
        → (bytes : Bytes) → (gas : ℕ) → (outs_len : ℕ) → (status : ℕ) → (frame : TraceFrame)
        → HostioKind
    create1 :
        (code : Bytes) → (endowment : ℕ) → (address : Bytes) → (revert_data_len : ℕ) → HostioKind
    create2 :
        (code : Bytes)
        → (endowment : ℕ) → (salt : Bytes) → (address : Bytes) → (revert_data_len : ℕ) → HostioKind
    emit_log : (bytes : Bytes) → (topics : ℕ) → HostioKind
    read_return_data : (offset : ℕ) → (size : ℕ) → (bytes : Bytes) → HostioKind
    return_data_size : (size : ℕ) → HostioKind
    evm_call : (name : String) → (frame : TraceFrame) → HostioKind

  pub data Hostio : Type 0 where
    hostio : (kind : HostioKind) → (start_ink : ℕ) → (end_ink : ℕ) → Hostio

  pub data TraceFrame : Type 0 where
    trace_frame : (steps : Steps) → (address : Option Bytes) → TraceFrame

  -- `Vec<Hostio>`
  pub data Steps : Type 0 where
    no_steps : Steps
    push_step : Hostio → Steps → Steps

abbrev pub steps_of : TraceFrame → Steps
steps_of (trace_frame steps address) = steps

abbrev pub address_of : TraceFrame → Option Bytes
address_of (trace_frame steps address) = address

-- The steps as the `VecDeque` that `Trace::reader` makes of them.
unfoldable pub to_list : Steps → List Hostio
to_list no_steps = []
to_list (push_step h rest) = h ∷ to_list rest

abbrev pub kind_of : Hostio → HostioKind
kind_of (hostio kind start end) = kind

abbrev pub start_of : Hostio → ℕ
start_of (hostio kind start end) = start

abbrev pub end_of : Hostio → ℕ
end_of (hostio kind start end) = end

-- The variants of `HostioKind`, without their fields.
pub data Variant : Type 0 where
  user_entrypoint user_returned read_args write_result exit_early : Variant
  storage_load_bytes32 storage_cache_bytes32 storage_flush_cache transient_load_bytes32
        transient_store_bytes32 :
      Variant
  account_balance account_code account_code_size account_codehash block_basefee : Variant
  block_coinbase block_gas_limit block_number block_timestamp chainid : Variant
  contract_address evm_gas_left evm_ink_left pay_for_memory_grow math_div : Variant
  math_mod math_pow math_add_mod math_mul_mod msg_reentrant : Variant
  msg_sender msg_value native_keccak256 tx_gas_price tx_ink_price : Variant
  tx_origin console_log console_log_text call_contract delegate_call_contract : Variant
  static_call_contract create1 create2 emit_log read_return_data : Variant
  return_data_size : Variant
  evm_call : Variant

unfoldable pub variant_of : HostioKind → Variant
variant_of (HostioKind.user_entrypoint _) = Variant.user_entrypoint
variant_of (HostioKind.user_returned _) = Variant.user_returned
variant_of (HostioKind.read_args _) = Variant.read_args
variant_of (HostioKind.write_result _) = Variant.write_result
variant_of (HostioKind.exit_early _) = Variant.exit_early
variant_of (HostioKind.storage_load_bytes32 _ _) = Variant.storage_load_bytes32
variant_of (HostioKind.storage_cache_bytes32 _ _) = Variant.storage_cache_bytes32
variant_of (HostioKind.storage_flush_cache _) = Variant.storage_flush_cache
variant_of (HostioKind.transient_load_bytes32 _ _) = Variant.transient_load_bytes32
variant_of (HostioKind.transient_store_bytes32 _ _) = Variant.transient_store_bytes32
variant_of (HostioKind.account_balance _ _) = Variant.account_balance
variant_of (HostioKind.account_code _ _ _ _) = Variant.account_code
variant_of (HostioKind.account_code_size _ _) = Variant.account_code_size
variant_of (HostioKind.account_codehash _ _) = Variant.account_codehash
variant_of (HostioKind.block_basefee _) = Variant.block_basefee
variant_of (HostioKind.block_coinbase _) = Variant.block_coinbase
variant_of (HostioKind.block_gas_limit _) = Variant.block_gas_limit
variant_of (HostioKind.block_number _) = Variant.block_number
variant_of (HostioKind.block_timestamp _) = Variant.block_timestamp
variant_of (HostioKind.chainid _) = Variant.chainid
variant_of (HostioKind.contract_address _) = Variant.contract_address
variant_of (HostioKind.evm_gas_left _) = Variant.evm_gas_left
variant_of (HostioKind.evm_ink_left _) = Variant.evm_ink_left
variant_of (HostioKind.pay_for_memory_grow _) = Variant.pay_for_memory_grow
variant_of (HostioKind.math_div _ _ _) = Variant.math_div
variant_of (HostioKind.math_mod _ _ _) = Variant.math_mod
variant_of (HostioKind.math_pow _ _ _) = Variant.math_pow
variant_of (HostioKind.math_add_mod _ _ _ _) = Variant.math_add_mod
variant_of (HostioKind.math_mul_mod _ _ _ _) = Variant.math_mul_mod
variant_of (HostioKind.msg_reentrant _) = Variant.msg_reentrant
variant_of (HostioKind.msg_sender _) = Variant.msg_sender
variant_of (HostioKind.msg_value _) = Variant.msg_value
variant_of (HostioKind.native_keccak256 _ _) = Variant.native_keccak256
variant_of (HostioKind.tx_gas_price _) = Variant.tx_gas_price
variant_of (HostioKind.tx_ink_price _) = Variant.tx_ink_price
variant_of (HostioKind.tx_origin _) = Variant.tx_origin
variant_of (HostioKind.console_log _) = Variant.console_log
variant_of (HostioKind.console_log_text _) = Variant.console_log_text
variant_of (HostioKind.call_contract _ _ _ _ _ _ _) = Variant.call_contract
variant_of (HostioKind.delegate_call_contract _ _ _ _ _ _) = Variant.delegate_call_contract
variant_of (HostioKind.static_call_contract _ _ _ _ _ _) = Variant.static_call_contract
variant_of (HostioKind.create1 _ _ _ _) = Variant.create1
variant_of (HostioKind.create2 _ _ _ _ _) = Variant.create2
variant_of (HostioKind.emit_log _ _) = Variant.emit_log
variant_of (HostioKind.read_return_data _ _ _) = Variant.read_return_data
variant_of (HostioKind.return_data_size _) = Variant.return_data_size
variant_of (HostioKind.evm_call _ _) = Variant.evm_call
