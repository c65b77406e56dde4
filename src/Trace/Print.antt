-- ===== src/Trace/Print.antt =====
-- The format that `parse_frame` reads (main/src/trace.rs), written from a `HostioKind`: each step
-- has its name, the bytes of its arguments and results, and the ink before and after it; a call
-- has the address and the steps of its frame besides. The script main/src/query.js reports the
-- calls of EVM contracts in another format, `evm_step`.
pub mod Facts
use cargo_stylus.Common.{
  ℕ, String, ◌≡◌, Bool, true, false, Option, none, some, List, [], ◌∷◌, ◌++◌, length,
}
use cargo_stylus.Common.Bytes.{Bytes, IsBytes, IsFixed, to_be_bytes, Fits}
use cargo_stylus.Trace.Kinds.{
  HostioKind, Hostio, hostio, TraceFrame, trace_frame, Steps, no_steps, push_step, Variant,
  variant_of,
}
use cargo_stylus.Trace.Names.{spelling, arm_of}
use cargo_stylus.Trace.Json.{Value, Values, Members, member, end}
use cargo_stylus.Trace.Cursor.{Codec}
use cargo_stylus.Common.Text.{add_0x}

abbrev flag_value : Bool → ℕ
flag_value true = 1
flag_value false = 0

-- The bytes of `args`, in the order in which they are parsed.
unfoldable pub args_of : HostioKind → Bytes
args_of (HostioKind.user_entrypoint args_len) = to_be_bytes 4 args_len
args_of (HostioKind.write_result result) = result
args_of (HostioKind.exit_early status) = to_be_bytes 4 status
args_of (HostioKind.storage_load_bytes32 key _) = key
args_of (HostioKind.storage_cache_bytes32 key value) = key ++ value
args_of (HostioKind.storage_flush_cache clear) = to_be_bytes 1 clear
args_of (HostioKind.transient_load_bytes32 key _) = key
args_of (HostioKind.transient_store_bytes32 key value) = key ++ value
args_of (HostioKind.account_balance address _) = address
args_of (HostioKind.account_code address offset size _) =
    address ++ (to_be_bytes 4 offset ++ to_be_bytes 4 size)
args_of (HostioKind.account_code_size address _) = address
args_of (HostioKind.account_codehash address _) = address
args_of (HostioKind.pay_for_memory_grow pages) = to_be_bytes 2 pages
args_of (HostioKind.math_div a b _) = to_be_bytes 32 a ++ to_be_bytes 32 b
args_of (HostioKind.math_mod a b _) = to_be_bytes 32 a ++ to_be_bytes 32 b
args_of (HostioKind.math_pow a b _) = to_be_bytes 32 a ++ to_be_bytes 32 b
args_of (HostioKind.math_add_mod a b c _) =
    to_be_bytes 32 a ++ (to_be_bytes 32 b ++ to_be_bytes 32 c)
args_of (HostioKind.math_mul_mod a b c _) =
    to_be_bytes 32 a ++ (to_be_bytes 32 b ++ to_be_bytes 32 c)
args_of (HostioKind.native_keccak256 preimage _) = preimage
args_of (HostioKind.console_log_text text) = text
args_of (HostioKind.call_contract address bytes gas value _ _ _) =
    address ++ (to_be_bytes 8 gas ++ (to_be_bytes 32 value ++ bytes))
args_of (HostioKind.delegate_call_contract address bytes gas _ _ _) =
    address ++ (to_be_bytes 8 gas ++ bytes)
args_of (HostioKind.static_call_contract address bytes gas _ _ _) =
    address ++ (to_be_bytes 8 gas ++ bytes)
args_of (HostioKind.create1 code endowment _ _) = to_be_bytes 32 endowment ++ code
args_of (HostioKind.create2 code endowment salt _ _) = to_be_bytes 32 endowment ++ (salt ++ code)
args_of (HostioKind.emit_log bytes topics) = to_be_bytes 4 topics ++ bytes
args_of (HostioKind.read_return_data offset size _) = to_be_bytes 4 offset ++ to_be_bytes 4 size
args_of _ = []

-- The bytes of `outs`.
unfoldable pub outs_of : HostioKind → Bytes
outs_of (HostioKind.user_returned status) = to_be_bytes 4 status
outs_of (HostioKind.read_args bytes) = bytes
outs_of (HostioKind.storage_load_bytes32 _ value) = value
outs_of (HostioKind.transient_load_bytes32 _ value) = value
outs_of (HostioKind.account_balance _ balance) = to_be_bytes 32 balance
outs_of (HostioKind.account_code _ _ _ code) = code
outs_of (HostioKind.account_code_size _ size) = to_be_bytes 4 size
outs_of (HostioKind.account_codehash _ codehash) = codehash
outs_of (HostioKind.block_basefee basefee) = to_be_bytes 32 basefee
outs_of (HostioKind.block_coinbase coinbase) = coinbase
outs_of (HostioKind.block_gas_limit limit) = to_be_bytes 8 limit
outs_of (HostioKind.block_number number) = to_be_bytes 8 number
outs_of (HostioKind.block_timestamp timestamp) = to_be_bytes 8 timestamp
outs_of (HostioKind.chainid chainid) = to_be_bytes 8 chainid
outs_of (HostioKind.contract_address address) = address
outs_of (HostioKind.evm_gas_left gas_left) = to_be_bytes 8 gas_left
outs_of (HostioKind.evm_ink_left ink_left) = to_be_bytes 8 ink_left
outs_of (HostioKind.math_div _ _ result) = to_be_bytes 32 result
outs_of (HostioKind.math_mod _ _ result) = to_be_bytes 32 result
outs_of (HostioKind.math_pow _ _ result) = to_be_bytes 32 result
outs_of (HostioKind.math_add_mod _ _ _ result) = to_be_bytes 32 result
outs_of (HostioKind.math_mul_mod _ _ _ result) = to_be_bytes 32 result
outs_of (HostioKind.msg_reentrant reentrant) = to_be_bytes 4 (flag_value reentrant)
outs_of (HostioKind.msg_sender sender) = sender
outs_of (HostioKind.msg_value value) = value
outs_of (HostioKind.native_keccak256 _ digest) = digest
outs_of (HostioKind.tx_gas_price gas_price) = to_be_bytes 32 gas_price
outs_of (HostioKind.tx_ink_price ink_price) = to_be_bytes 4 ink_price
outs_of (HostioKind.tx_origin origin) = origin
outs_of (HostioKind.call_contract _ _ _ _ outs_len status _) =
    to_be_bytes 4 outs_len ++ to_be_bytes 1 status
outs_of (HostioKind.delegate_call_contract _ _ _ outs_len status _) =
    to_be_bytes 4 outs_len ++ to_be_bytes 1 status
outs_of (HostioKind.static_call_contract _ _ _ outs_len status _) =
    to_be_bytes 4 outs_len ++ to_be_bytes 1 status
outs_of (HostioKind.create1 _ _ address revert_data_len) = address ++ to_be_bytes 4 revert_data_len
outs_of (HostioKind.create2 _ _ _ address revert_data_len) =
    address ++ to_be_bytes 4 revert_data_len
outs_of (HostioKind.read_return_data _ _ bytes) = bytes
outs_of (HostioKind.return_data_size size) = to_be_bytes 4 size
outs_of _ = []

abbrev pub FitsAddress : Option Bytes → Type 0
FitsAddress none = ⊥
FitsAddress (some a) = IsFixed 20 a

-- The fields are in the range of their Rust types, at every level. Of a call's frame the address is
-- known. An `EVMCall` bears a name that only the last arm takes. `ConsoleLog` is left out: it is
-- parsed through a lossy conversion.
abbrev mutual
  pub FitsKind : HostioKind → Type 0
  FitsKind (HostioKind.user_entrypoint args_len) = Fits 4 args_len
  FitsKind (HostioKind.user_returned status) = Fits 4 status
  FitsKind (HostioKind.read_args bytes) = IsBytes bytes
  FitsKind (HostioKind.write_result result) = IsBytes result
  FitsKind (HostioKind.exit_early status) = Fits 4 status
  FitsKind (HostioKind.storage_load_bytes32 key value) = IsFixed 32 key × IsFixed 32 value
  FitsKind (HostioKind.storage_cache_bytes32 key value) = IsFixed 32 key × IsFixed 32 value
  FitsKind (HostioKind.storage_flush_cache clear) = Fits 1 clear
  FitsKind (HostioKind.transient_load_bytes32 key value) = IsFixed 32 key × IsFixed 32 value
  FitsKind (HostioKind.transient_store_bytes32 key value) = IsFixed 32 key × IsFixed 32 value
  FitsKind (HostioKind.account_balance address balance) = IsFixed 20 address × Fits 32 balance
  FitsKind (HostioKind.account_code address offset size code) =
      IsFixed 20 address × Fits 4 offset × Fits 4 size × IsBytes code
  FitsKind (HostioKind.account_code_size address size) = IsFixed 20 address × Fits 4 size
  FitsKind (HostioKind.account_codehash address codehash) = IsFixed 20 address × IsFixed 32 codehash
  FitsKind (HostioKind.block_basefee basefee) = Fits 32 basefee
  FitsKind (HostioKind.block_coinbase coinbase) = IsFixed 20 coinbase
  FitsKind (HostioKind.block_gas_limit limit) = Fits 8 limit
  FitsKind (HostioKind.block_number number) = Fits 8 number
  FitsKind (HostioKind.block_timestamp timestamp) = Fits 8 timestamp
  FitsKind (HostioKind.chainid chainid) = Fits 8 chainid
  FitsKind (HostioKind.contract_address address) = IsFixed 20 address
  FitsKind (HostioKind.evm_gas_left gas_left) = Fits 8 gas_left
  FitsKind (HostioKind.evm_ink_left ink_left) = Fits 8 ink_left
  FitsKind (HostioKind.pay_for_memory_grow pages) = Fits 2 pages
  FitsKind (HostioKind.math_div a b result) = Fits 32 a × Fits 32 b × Fits 32 result
  FitsKind (HostioKind.math_mod a b result) = Fits 32 a × Fits 32 b × Fits 32 result
  FitsKind (HostioKind.math_pow a b result) = Fits 32 a × Fits 32 b × Fits 32 result
  FitsKind (HostioKind.math_add_mod a b c result) =
      Fits 32 a × Fits 32 b × Fits 32 c × Fits 32 result
  FitsKind (HostioKind.math_mul_mod a b c result) =
      Fits 32 a × Fits 32 b × Fits 32 c × Fits 32 result
  FitsKind (HostioKind.msg_reentrant _) = Unit
  FitsKind (HostioKind.msg_sender sender) = IsFixed 20 sender
  FitsKind (HostioKind.msg_value value) = IsFixed 32 value
  FitsKind (HostioKind.native_keccak256 preimage digest) = IsBytes preimage × IsFixed 32 digest
  FitsKind (HostioKind.tx_gas_price gas_price) = Fits 32 gas_price
  FitsKind (HostioKind.tx_ink_price ink_price) = Fits 4 ink_price
  FitsKind (HostioKind.tx_origin origin) = IsFixed 20 origin
  FitsKind (HostioKind.console_log _) = ⊥
  FitsKind (HostioKind.console_log_text text) = IsBytes text
  FitsKind (HostioKind.call_contract address bytes gas value outs_len status sub) =
      IsFixed 20 address
      × Fits 8 gas
      × Fits 32 value
      × IsBytes bytes
      × Fits 4 outs_len
      × Fits 1 status
      × FitsFrame sub
  FitsKind (HostioKind.delegate_call_contract address bytes gas outs_len status sub) =
      IsFixed 20 address
      × Fits 8 gas
      × IsBytes bytes
      × Fits 4 outs_len
      × Fits 1 status
      × FitsFrame sub
  FitsKind (HostioKind.static_call_contract address bytes gas outs_len status sub) =
      IsFixed 20 address
      × Fits 8 gas
      × IsBytes bytes
      × Fits 4 outs_len
      × Fits 1 status
      × FitsFrame sub
  FitsKind (HostioKind.create1 code endowment address revert_data_len) =
      Fits 32 endowment × IsBytes code × IsFixed 20 address × Fits 4 revert_data_len
  FitsKind (HostioKind.create2 code endowment salt address revert_data_len) =
      Fits 32 endowment
      × IsFixed 32 salt
      × IsBytes code
      × IsFixed 20 address
      × Fits 4 revert_data_len
  FitsKind (HostioKind.emit_log bytes topics) = Fits 4 topics × IsBytes bytes
  FitsKind (HostioKind.read_return_data offset size bytes) =
      Fits 4 offset × Fits 4 size × IsBytes bytes
  FitsKind (HostioKind.return_data_size size) = Fits 4 size
  FitsKind (HostioKind.evm_call call_name sub) =
      (arm_of call_name ≡ some Variant.evm_call) × FitsFrame sub

  pub FitsFrame : TraceFrame → Type 0
  FitsFrame (trace_frame steps address) = FitsAddress address × FitsSteps steps

  pub FitsHostio : Hostio → Type 0
  FitsHostio (hostio kind start_ink end_ink) = FitsKind kind

  pub FitsSteps : Steps → Type 0
  FitsSteps no_steps = Unit
  FitsSteps (push_step h rest) = FitsHostio h × FitsSteps rest

-- The name in the trace.
unfoldable pub traced_name : HostioKind → String
unfolding spelling variant_of
traced_name (HostioKind.evm_call call_name _) = call_name
traced_name k = spelling (variant_of k)

module _ (H : Codec) where
  abbrev pub hex_value : Bytes → Value
  hex_value b = Value.string (add_0x (H.encode b))

  abbrev pub or_empty : Option Bytes → Bytes
  or_empty none = []
  or_empty (some a) = a

  unfoldable mutual
    -- The members that only a call has.
    pub call_members : HostioKind → Members
    call_members (HostioKind.call_contract _ _ _ _ _ _ sub) = frame_members sub
    call_members (HostioKind.delegate_call_contract _ _ _ _ _ sub) = frame_members sub
    call_members (HostioKind.static_call_contract _ _ _ _ _ sub) = frame_members sub
    call_members (HostioKind.evm_call _ sub) = frame_members sub
    call_members _ = end

    pub frame_members : TraceFrame → Members
    frame_members (trace_frame steps address) =
        member "address" (hex_value (or_empty address))
          (member "steps" (Value.array (print_steps steps)) end)

    pub print_hostio : Hostio → Value
    print_hostio (hostio kind start_ink end_ink) = Value.object (
        member "name" (Value.string (traced_name kind)) (
          member "args" (hex_value (args_of kind)) (
            member "outs" (hex_value (outs_of kind)) (
              member "startInk" (Value.number (some start_ink))
                (member "endInk" (Value.number (some end_ink)) (call_members kind))))))

    pub print_steps : Steps → Values
    print_steps no_steps = Values.nil
    print_steps (push_step h rest) = Values.cons (print_hostio h) (print_steps rest)

-- What main/src/query.js reports for a call or creation that an EVM contract makes: `enter` knows
-- its address, its steps and its name, and no host call of the guest adds the rest.
abbrev pub evm_step : (address : String) → (steps : Values) → (name : String) → Value
evm_step address steps name = Value.object (
    member "address" (Value.string address)
      (member "steps" (Value.array steps) (member "name" (Value.string name) end)))

-- Elements behind others
unfoldable pub append_values : Values → Values → Values
append_values Values.nil more = more
append_values (Values.cons v rest) more = Values.cons v (append_values rest more)
