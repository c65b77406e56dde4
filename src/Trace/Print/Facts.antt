-- ===== src/Trace/Print/Facts.antt =====
-- What holds of the printed form of a host call: its name is matched by the arm of its variant, and
-- its buffers are bytes.
use cargo_stylus.Common.{◌≡◌, refl, some}
use cargo_stylus.Common.Bytes.{IsBytes, IsBytes-to_be_bytes, IsBytes-append}
use cargo_stylus.Trace.Kinds.{HostioKind, variant_of}
use cargo_stylus.Trace.Names.{arm_of}
use cargo_stylus.Trace.Print.{FitsKind, args_of, outs_of, traced_name}

-- The name leads back to the arm.
pub arm_of-traced_name :
    (k : HostioKind) → FitsKind k → arm_of (traced_name k) ≡ some (variant_of k)
unfolding arm_of traced_name
arm_of-traced_name (HostioKind.evm_call _ _) h = h.0
arm_of-traced_name (HostioKind.user_entrypoint _) h = refl
arm_of-traced_name (HostioKind.user_returned _) h = refl
arm_of-traced_name (HostioKind.read_args _) h = refl
arm_of-traced_name (HostioKind.write_result _) h = refl
arm_of-traced_name (HostioKind.exit_early _) h = refl
arm_of-traced_name (HostioKind.storage_load_bytes32 _ _) h = refl
arm_of-traced_name (HostioKind.storage_cache_bytes32 _ _) h = refl
arm_of-traced_name (HostioKind.storage_flush_cache _) h = refl
arm_of-traced_name (HostioKind.transient_load_bytes32 _ _) h = refl
arm_of-traced_name (HostioKind.transient_store_bytes32 _ _) h = refl
arm_of-traced_name (HostioKind.account_balance _ _) h = refl
arm_of-traced_name (HostioKind.account_code _ _ _ _) h = refl
arm_of-traced_name (HostioKind.account_code_size _ _) h = refl
arm_of-traced_name (HostioKind.account_codehash _ _) h = refl
arm_of-traced_name (HostioKind.block_basefee _) h = refl
arm_of-traced_name (HostioKind.block_coinbase _) h = refl
arm_of-traced_name (HostioKind.block_gas_limit _) h = refl
arm_of-traced_name (HostioKind.block_number _) h = refl
arm_of-traced_name (HostioKind.block_timestamp _) h = refl
arm_of-traced_name (HostioKind.chainid _) h = refl
arm_of-traced_name (HostioKind.contract_address _) h = refl
arm_of-traced_name (HostioKind.evm_gas_left _) h = refl
arm_of-traced_name (HostioKind.evm_ink_left _) h = refl
arm_of-traced_name (HostioKind.pay_for_memory_grow _) h = refl
arm_of-traced_name (HostioKind.math_div _ _ _) h = refl
arm_of-traced_name (HostioKind.math_mod _ _ _) h = refl
arm_of-traced_name (HostioKind.math_pow _ _ _) h = refl
arm_of-traced_name (HostioKind.math_add_mod _ _ _ _) h = refl
arm_of-traced_name (HostioKind.math_mul_mod _ _ _ _) h = refl
arm_of-traced_name (HostioKind.msg_reentrant _) h = refl
arm_of-traced_name (HostioKind.msg_sender _) h = refl
arm_of-traced_name (HostioKind.msg_value _) h = refl
arm_of-traced_name (HostioKind.native_keccak256 _ _) h = refl
arm_of-traced_name (HostioKind.tx_gas_price _) h = refl
arm_of-traced_name (HostioKind.tx_ink_price _) h = refl
arm_of-traced_name (HostioKind.tx_origin _) h = refl
arm_of-traced_name (HostioKind.console_log _) h = refl
arm_of-traced_name (HostioKind.console_log_text _) h = refl
arm_of-traced_name (HostioKind.call_contract _ _ _ _ _ _ _) h = refl
arm_of-traced_name (HostioKind.delegate_call_contract _ _ _ _ _ _) h = refl
arm_of-traced_name (HostioKind.static_call_contract _ _ _ _ _ _) h = refl
arm_of-traced_name (HostioKind.create1 _ _ _ _) h = refl
arm_of-traced_name (HostioKind.create2 _ _ _ _ _) h = refl
arm_of-traced_name (HostioKind.emit_log _ _) h = refl
arm_of-traced_name (HostioKind.read_return_data _ _ _) h = refl
arm_of-traced_name (HostioKind.return_data_size _) h = refl

ruleset bytes_rules = (IsBytes-to_be_bytes, IsBytes-append)

pub args_of-IsBytes : (k : HostioKind) → FitsKind k → IsBytes (args_of k)
unfolding args_of
args_of-IsBytes (HostioKind.console_log _) h = absurd h
args_of-IsBytes _ h = search bytes_rules

pub outs_of-IsBytes : (k : HostioKind) → FitsKind k → IsBytes (outs_of k)
unfolding outs_of
outs_of-IsBytes (HostioKind.console_log _) h = absurd h
outs_of-IsBytes _ h = search bytes_rules
