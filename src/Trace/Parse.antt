-- ===== src/Trace/Parse.antt =====
-- `TraceFrame::parse_frame` (main/src/trace.rs). The nested call of `frame!` is the argument
-- `nested`; `parse_frame` ties the knot on fuel, one unit for each level of nesting.
pub mod Fuel
pub mod RoundTrip
use cargo_stylus.Common.{
  ℕ, zero, suc, String, ◌≡◌, Bool, true, false, not, ◌&&◌, Option, none, some, List, [], ◌∷◌, ◌==◌,
}
use cargo_stylus.Common.Outcome
use cargo_stylus.Common.Outcome.{Outcome, ok, err, panic, out_of_fuel}
use cargo_stylus.Common.Bytes.{Bytes}
use cargo_stylus.Trace.Kinds.{
  HostioKind, Hostio, hostio, TraceFrame, trace_frame, Steps, no_steps, push_step, Variant,
}
use cargo_stylus.Trace.Names.{arm_of}
use cargo_stylus.Trace.Json.{Value, Values, Members}
use cargo_stylus.Trace.Cursor.{
  Src, args, outs, TraceError, not_an_array, not_a_step, Codec, Cursor, Reading, ◌>>=◌, ◌>>◌, pure,
  lift, take_key, get_string, get_int, get_hex, read_data, read_u256, read_b256, read_address,
  read_u8, read_u16, read_u32, read_u64, read_string, address_from_slice,
}

-- The two buffers that a step is parsed from.
load : Bytes → Bytes → Reading (Unit {0})
load a o c = ok (tt, record c { args_left = a; outs_left = o })

is_empty : Bytes → Bool
is_empty [] = true
is_empty (b ∷ bs) = false

-- `assert!(args.is_empty())` and `assert!(outs.is_empty())`
assert_consumed : Reading (Unit {0})
unfolding is_empty
assert_consumed c =
    Outcome.◌>>=◌ (Outcome.assert (is_empty c.args_left))
      (λ _. Outcome.◌>>=◌ (Outcome.assert (is_empty c.outs_left)) (λ u. ok (u, c)))

module _ (H : Codec) (nested : Option Bytes → Value → Outcome TraceError TraceFrame) where
  -- `frame!()`
  pub frame : Reading TraceFrame
  frame = do
    bytes ← get_hex H "address"
    address ← lift (address_from_slice bytes)
    found ← take_key "steps"
    steps ← lift (Outcome.unwrap found)
    lift (nested (some address) steps)

  -- The arms of `match name.as_str()`. The name itself is only kept by the last one.
  pub read_kind : String → Variant → Reading HostioKind
  read_kind call_name Variant.user_entrypoint = do
    args_len ← read_u32 args
    pure (HostioKind.user_entrypoint args_len)
  read_kind call_name Variant.user_returned = do
    status ← read_u32 outs
    pure (HostioKind.user_returned status)
  read_kind call_name Variant.read_args = do
    bytes ← read_data outs
    pure (HostioKind.read_args bytes)
  read_kind call_name Variant.write_result = do
    result ← read_data args
    pure (HostioKind.write_result result)
  read_kind call_name Variant.exit_early = do
    status ← read_u32 args
    pure (HostioKind.exit_early status)
  read_kind call_name Variant.storage_load_bytes32 = do
    key ← read_b256 args
    value ← read_b256 outs
    pure (HostioKind.storage_load_bytes32 key value)
  read_kind call_name Variant.storage_cache_bytes32 = do
    key ← read_b256 args
    value ← read_b256 args
    pure (HostioKind.storage_cache_bytes32 key value)
  read_kind call_name Variant.storage_flush_cache = do
    clear ← read_u8 args
    pure (HostioKind.storage_flush_cache clear)
  read_kind call_name Variant.transient_load_bytes32 = do
    key ← read_b256 args
    value ← read_b256 outs
    pure (HostioKind.transient_load_bytes32 key value)
  read_kind call_name Variant.transient_store_bytes32 = do
    key ← read_b256 args
    value ← read_b256 args
    pure (HostioKind.transient_store_bytes32 key value)
  read_kind call_name Variant.account_balance = do
    address ← read_address args
    balance ← read_u256 outs
    pure (HostioKind.account_balance address balance)
  read_kind call_name Variant.account_code = do
    address ← read_address args
    offset ← read_u32 args
    size ← read_u32 args
    code ← read_data outs
    pure (HostioKind.account_code address offset size code)
  read_kind call_name Variant.account_code_size = do
    address ← read_address args
    size ← read_u32 outs
    pure (HostioKind.account_code_size address size)
  read_kind call_name Variant.account_codehash = do
    address ← read_address args
    codehash ← read_b256 outs
    pure (HostioKind.account_codehash address codehash)
  read_kind call_name Variant.block_basefee = do
    basefee ← read_u256 outs
    pure (HostioKind.block_basefee basefee)
  read_kind call_name Variant.block_coinbase = do
    coinbase ← read_address outs
    pure (HostioKind.block_coinbase coinbase)
  read_kind call_name Variant.block_gas_limit = do
    limit ← read_u64 outs
    pure (HostioKind.block_gas_limit limit)
  read_kind call_name Variant.block_number = do
    number ← read_u64 outs
    pure (HostioKind.block_number number)
  read_kind call_name Variant.block_timestamp = do
    timestamp ← read_u64 outs
    pure (HostioKind.block_timestamp timestamp)
  read_kind call_name Variant.chainid = do
    chainid ← read_u64 outs
    pure (HostioKind.chainid chainid)
  read_kind call_name Variant.contract_address = do
    address ← read_address outs
    pure (HostioKind.contract_address address)
  read_kind call_name Variant.evm_gas_left = do
    gas_left ← read_u64 outs
    pure (HostioKind.evm_gas_left gas_left)
  read_kind call_name Variant.evm_ink_left = do
    ink_left ← read_u64 outs
    pure (HostioKind.evm_ink_left ink_left)
  read_kind call_name Variant.pay_for_memory_grow = do
    pages ← read_u16 args
    pure (HostioKind.pay_for_memory_grow pages)
  read_kind call_name Variant.math_div = do
    a ← read_u256 args
    b ← read_u256 args
    result ← read_u256 outs
    pure (HostioKind.math_div a b result)
  read_kind call_name Variant.math_mod = do
    a ← read_u256 args
    b ← read_u256 args
    result ← read_u256 outs
    pure (HostioKind.math_mod a b result)
  read_kind call_name Variant.math_pow = do
    a ← read_u256 args
    b ← read_u256 args
    result ← read_u256 outs
    pure (HostioKind.math_pow a b result)
  read_kind call_name Variant.math_add_mod = do
    a ← read_u256 args
    b ← read_u256 args
    c ← read_u256 args
    result ← read_u256 outs
    pure (HostioKind.math_add_mod a b c result)
  read_kind call_name Variant.math_mul_mod = do
    a ← read_u256 args
    b ← read_u256 args
    c ← read_u256 args
    result ← read_u256 outs
    pure (HostioKind.math_mul_mod a b c result)
  read_kind call_name Variant.msg_reentrant = do
    reentrant ← read_u32 outs
    pure (HostioKind.msg_reentrant (not (reentrant == 0)))
  read_kind call_name Variant.msg_sender = do
    sender ← read_address outs
    pure (HostioKind.msg_sender sender)
  read_kind call_name Variant.msg_value = do
    value ← read_b256 outs
    pure (HostioKind.msg_value value)
  read_kind call_name Variant.native_keccak256 = do
    preimage ← read_data args
    digest ← read_b256 outs
    pure (HostioKind.native_keccak256 preimage digest)
  read_kind call_name Variant.tx_gas_price = do
    gas_price ← read_u256 outs
    pure (HostioKind.tx_gas_price gas_price)
  read_kind call_name Variant.tx_ink_price = do
    ink_price ← read_u32 outs
    pure (HostioKind.tx_ink_price ink_price)
  read_kind call_name Variant.tx_origin = do
    origin ← read_address outs
    pure (HostioKind.tx_origin origin)
  read_kind call_name Variant.console_log = do
    text ← read_string H args
    pure (HostioKind.console_log text)
  read_kind call_name Variant.console_log_text = do
    text ← read_data args
    pure (HostioKind.console_log_text text)
  read_kind call_name Variant.call_contract = do
    address ← read_address args
    gas ← read_u64 args
    value ← read_u256 args
    bytes ← read_data args
    outs_len ← read_u32 outs
    status ← read_u8 outs
    sub ← frame
    pure (HostioKind.call_contract address bytes gas value outs_len status sub)
  read_kind call_name Variant.delegate_call_contract = do
    address ← read_address args
    gas ← read_u64 args
    bytes ← read_data args
    outs_len ← read_u32 outs
    status ← read_u8 outs
    sub ← frame
    pure (HostioKind.delegate_call_contract address bytes gas outs_len status sub)
  read_kind call_name Variant.static_call_contract = do
    address ← read_address args
    gas ← read_u64 args
    bytes ← read_data args
    outs_len ← read_u32 outs
    status ← read_u8 outs
    sub ← frame
    pure (HostioKind.static_call_contract address bytes gas outs_len status sub)
  read_kind call_name Variant.create1 = do
    endowment ← read_u256 args
    code ← read_data args
    address ← read_address outs
    revert_data_len ← read_u32 outs
    pure (HostioKind.create1 code endowment address revert_data_len)
  read_kind call_name Variant.create2 = do
    endowment ← read_u256 args
    salt ← read_b256 args
    code ← read_data args
    address ← read_address outs
    revert_data_len ← read_u32 outs
    pure (HostioKind.create2 code endowment salt address revert_data_len)
  read_kind call_name Variant.emit_log = do
    topics ← read_u32 args
    bytes ← read_data args
    pure (HostioKind.emit_log bytes topics)
  read_kind call_name Variant.read_return_data = do
    offset ← read_u32 args
    size ← read_u32 args
    bytes ← read_data outs
    pure (HostioKind.read_return_data offset size bytes)
  read_kind call_name Variant.return_data_size = do
    size ← read_u32 outs
    pure (HostioKind.return_data_size size)
  read_kind call_name Variant.evm_call = do sub ← frame; pure (HostioKind.evm_call call_name sub)

  -- An unknown name is a `todo!`, which panics.
  pub select_kind : String → Reading HostioKind
  select_kind call_name = do arm ← lift (Outcome.unwrap (arm_of call_name)); read_kind call_name arm

  pub parse_step : Reading Hostio
  parse_step = do
    call_name ← get_string "name"
    a ← get_hex H "args"
    o ← get_hex H "outs"
    start_ink ← get_int "startInk"
    end_ink ← get_int "endInk"
    load a o
    kind ← select_kind call_name
    assert_consumed
    pure (hostio kind start_ink end_ink)

  -- The loop over the array.
  pub parse_steps : Values → Outcome TraceError Steps
  parse_steps Values.nil = ok no_steps
  parse_steps (Values.cons (Value.object keys) rest) =
      Outcome.◌>>=◌ (parse_step (record { keys = keys; args_left = []; outs_left = [] }))
        (λ r. Outcome.◌>>=◌ (parse_steps rest) (λ steps. ok (push_step r.0 steps)))
  parse_steps (Values.cons _ rest) = err not_a_step

  -- The body of `parse_frame`.
  pub parse_array : Option Bytes → Value → Outcome TraceError TraceFrame
  parse_array address (Value.array vs) =
      Outcome.◌>>=◌ (parse_steps vs) (λ steps. ok (trace_frame steps address))
  parse_array address _ = err not_an_array

module _ (H : Codec) where
  pub parse_frame : ℕ → Option Bytes → Value → Outcome TraceError TraceFrame
  parse_frame zero address v = out_of_fuel
  parse_frame (suc fuel) address v = parse_array H (parse_frame fuel) address v
