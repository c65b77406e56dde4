-- ===== src/Hostio/Call/Returns/Range.antt =====
-- What a call needs of its arguments, and of the recorded call.
use cargo_stylus.Common.Bytes.{Fits}
use cargo_stylus.Trace.Kinds.{Variant}
use cargo_stylus.Hostio.Call.{Call}

-- The integers that are compared with the trace are in range.
abbrev pub FitsCall : Call → Type 0
FitsCall (Call.account_code _ offset_recv size_recv _) = Fits 4 offset_recv × Fits 4 size_recv
FitsCall (Call.pay_for_memory_grow new_pages) = Fits 2 new_pages
FitsCall (Call.call_contract _ _ _ _ gas_supplied _) = Fits 8 gas_supplied
FitsCall (Call.delegate_call_contract _ _ _ gas_supplied _) = Fits 8 gas_supplied
FitsCall (Call.static_call_contract _ _ _ gas_supplied _) = Fits 8 gas_supplied
FitsCall (Call.emit_log _ _ topic_count) = Fits 4 topic_count
FitsCall (Call.read_return_data _ offset_value size_value) = Fits 4 offset_value × Fits 4 size_value
FitsCall _ = Unit {0}

-- The variant that a function matches on.
abbrev pub variant_for : Call → Variant
variant_for (Call.read_args _) = Variant.read_args
variant_for (Call.write_result _ _) = Variant.write_result
variant_for (Call.exit_early _) = Variant.exit_early
variant_for (Call.storage_load_bytes32 _ _) = Variant.storage_load_bytes32
variant_for (Call.storage_cache_bytes32 _ _) = Variant.storage_cache_bytes32
variant_for (Call.storage_flush_cache _) = Variant.storage_flush_cache
variant_for (Call.transient_load_bytes32 _ _) = Variant.transient_load_bytes32
variant_for (Call.transient_store_bytes32 _ _) = Variant.transient_store_bytes32
variant_for (Call.account_balance _ _) = Variant.account_balance
variant_for (Call.account_code _ _ _ _) = Variant.account_code
variant_for (Call.account_code_size _) = Variant.account_code_size
variant_for (Call.account_codehash _ _) = Variant.account_codehash
variant_for (Call.block_basefee _) = Variant.block_basefee
variant_for (Call.tx_gas_price _) = Variant.tx_gas_price
variant_for (Call.block_coinbase _) = Variant.block_coinbase
variant_for (Call.contract_address _) = Variant.contract_address
variant_for (Call.msg_sender _) = Variant.msg_sender
variant_for (Call.msg_value _) = Variant.msg_value
variant_for (Call.tx_origin _) = Variant.tx_origin
variant_for Call.block_gas_limit = Variant.block_gas_limit
variant_for Call.block_number = Variant.block_number
variant_for Call.block_timestamp = Variant.block_timestamp
variant_for Call.chainid = Variant.chainid
variant_for Call.evm_gas_left = Variant.evm_gas_left
variant_for Call.evm_ink_left = Variant.evm_ink_left
variant_for Call.return_data_size = Variant.return_data_size
variant_for Call.tx_ink_price = Variant.tx_ink_price
variant_for Call.msg_reentrant = Variant.msg_reentrant
variant_for (Call.pay_for_memory_grow _) = Variant.pay_for_memory_grow
variant_for (Call.call_contract _ _ _ _ _ _) = Variant.call_contract
variant_for (Call.delegate_call_contract _ _ _ _ _) = Variant.delegate_call_contract
variant_for (Call.static_call_contract _ _ _ _ _) = Variant.static_call_contract
variant_for (Call.create1 _ _ _ _ _) = Variant.create1
variant_for (Call.create2 _ _ _ _ _ _) = Variant.create2
variant_for (Call.emit_log _ _ _) = Variant.emit_log
variant_for (Call.read_return_data _ _ _) = Variant.read_return_data
variant_for (Call.math_div _ _) = Variant.math_div
variant_for (Call.math_mod _ _) = Variant.math_mod
variant_for (Call.math_pow _ _) = Variant.math_pow
variant_for (Call.math_add_mod _ _ _) = Variant.math_add_mod
variant_for (Call.math_mul_mod _ _ _) = Variant.math_add_mod
variant_for (Call.native_keccak256 _ _ _) = Variant.native_keccak256
variant_for (Call.log_f32 _) = Variant.console_log
variant_for (Call.log_f64 _) = Variant.console_log
variant_for (Call.log_i32 _) = Variant.console_log
variant_for (Call.log_i64 _) = Variant.console_log
variant_for (Call.log_txt _ _) = Variant.console_log_text
