-- ===== src/Hostio/Call/Returns.antt =====
-- When a call returns: the next recorded call is one of the function's kind, and its arguments are
-- the guest's.
pub mod Range
pub mod Frames
pub mod Data
pub mod Account
pub mod Chain
pub mod Calls
pub mod Math
use cargo_stylus.Common.{
  ℕ, String, ◌≡◌, refl, sym, ap, ◌∙◌, Bool, true, false, Option, none, some, List,
}
use cargo_stylus.Common.Bytes.{Bytes}
use cargo_stylus.Trace.Kinds.{HostioKind, Hostio, kind_of, start_of, end_of, Variant, variant_of}
use cargo_stylus.Trace.Names.{Names}
use cargo_stylus.Trace.Print.{FitsKind, args_of}
use cargo_stylus.Trace.Reader.{FrameReader, next_loop, next_hostio}
use cargo_stylus.Trace.Reader.Search.{IsNext, next_loop_iff}
use cargo_stylus.Hostio.State.{Replay, Host, ◌>>=◌, return, frame}
use cargo_stylus.Hostio.State.Returns.{Returns}
use cargo_stylus.Hostio.Call.{Call, Reply, nothing, word, flag, nothing_of, symbol, run, inputs}
use cargo_stylus.Hostio.Call.Mismatch.{is_mismatched}
use cargo_stylus.Hostio.Call.Returns.Range.{FitsCall, variant_for}
use cargo_stylus.Hostio.Data.{
  read_args, read_args_body, write_result, write_result_body, exit_early, exit_early_body,
  storage_load_bytes32, storage_load_bytes32_body, storage_cache_bytes32,
  storage_cache_bytes32_body, storage_flush_cache, storage_flush_cache_body, transient_load_bytes32,
  transient_load_bytes32_body, transient_store_bytes32, transient_store_bytes32_body,
}
use cargo_stylus.Hostio.Call.Returns.Data.{
  read_args-Returns, write_result-Returns, exit_early-Returns, storage_load_bytes32-Returns,
  storage_cache_bytes32-Returns, storage_flush_cache-Returns, transient_load_bytes32-Returns,
  transient_store_bytes32-Returns,
}
use cargo_stylus.Hostio.Account.{
  account_balance, account_balance_body, account_code, account_code_body, account_code_size,
  account_code_size_body, account_codehash, account_codehash_body,
}
use cargo_stylus.Hostio.Call.Returns.Account.{
  account_balance-Returns, account_code-Returns, account_code_size-Returns,
  account_codehash-Returns,
}
use cargo_stylus.Hostio.Chain.{
  block_basefee, block_basefee_body, tx_gas_price, tx_gas_price_body, block_coinbase,
  block_coinbase_body, contract_address, contract_address_body, msg_sender, msg_sender_body,
  msg_value, msg_value_body, tx_origin, tx_origin_body, block_gas_limit, block_gas_limit_body,
  block_number, block_number_body, block_timestamp, block_timestamp_body, chainid, chainid_body,
  evm_gas_left, evm_gas_left_body, evm_ink_left, evm_ink_left_body, return_data_size,
  return_data_size_body, tx_ink_price, tx_ink_price_body, msg_reentrant, msg_reentrant_body,
  pay_for_memory_grow, pay_for_memory_grow_body,
}
use cargo_stylus.Hostio.Call.Returns.Chain.{
  block_basefee-Returns, tx_gas_price-Returns, block_coinbase-Returns, contract_address-Returns,
  msg_sender-Returns, msg_value-Returns, tx_origin-Returns, block_gas_limit-Returns,
  block_number-Returns, block_timestamp-Returns, chainid-Returns, evm_gas_left-Returns,
  evm_ink_left-Returns, return_data_size-Returns, tx_ink_price-Returns, msg_reentrant-Returns,
  pay_for_memory_grow-Returns,
}
use cargo_stylus.Hostio.Calls.{
  call_contract, call_contract_body, delegate_call_contract, delegate_call_contract_body,
  static_call_contract, static_call_contract_body, create1, create1_body, create2, create2_body,
  emit_log, emit_log_body, read_return_data, read_return_data_body,
}
use cargo_stylus.Hostio.Call.Returns.Calls.{
  call_contract-Returns, delegate_call_contract-Returns, static_call_contract-Returns,
  create1-Returns, create2-Returns, emit_log-Returns, read_return_data-Returns,
}
use cargo_stylus.Hostio.Math.{
  math_div, math_div_body, math_mod, math_mod_body, math_pow, math_pow_body, math_add_mod,
  math_add_mod_body, native_keccak256, native_keccak256_body,
}
use cargo_stylus.Hostio.Call.Returns.Math.{
  math_div-Returns, math_mod-Returns, math_pow-Returns, math_add_mod-Returns,
  native_keccak256-Returns,
}
use cargo_stylus.Hostio.Call.Returns.Frames.{reply}

module _ (N : Names) where
  -- Whenever the next recorded call of the function's name is of the kind that the function
  -- matches on, with fields in range, and its argument bytes are those that the guest passes, with
  -- integers in range, the host function returns. The functions of `is_mismatched` are left out.
  pub run-Returns :
      (past_end : ℕ → Bytes) (c : Call) (s : Replay) (r : FrameReader) (call : Hostio)
      (rest : List Hostio)
      → is_mismatched c ≡ false
      → s.frame ≡ some r
      → IsNext N (symbol c) r.steps call rest
      → variant_of (kind_of call) ≡ variant_for c
      → FitsKind (kind_of call)
      → FitsCall c
      → inputs c s.memory ≡ args_of (kind_of call)
      → (q : Reply × Replay) × (run N past_end c s ≡ some q)
  unfolding run symbol is_mismatched read_args write_result exit_early storage_load_bytes32
      storage_cache_bytes32 storage_flush_cache transient_load_bytes32 transient_store_bytes32
      account_balance account_code account_code_size account_codehash block_basefee tx_gas_price
      block_coinbase contract_address msg_sender msg_value tx_origin block_gas_limit block_number
      block_timestamp chainid evm_gas_left evm_ink_left return_data_size tx_ink_price msg_reentrant
      pay_for_memory_grow call_contract delegate_call_contract static_call_contract create1 create2
      emit_log read_return_data math_div math_mod math_pow math_add_mod native_keccak256
  run-Returns past_end (Call.read_args dest) s r call rest u had next v f g h =
      reply N nothing_of (read_args_body dest) "read_args" s r call rest had next
        (read_args-Returns dest (kind_of call) _ v f g h)
  run-Returns past_end (Call.write_result data_ptr len) s r call rest u had next v f g h =
      reply N nothing_of (write_result_body data_ptr len) "write_result" s r call rest had next
        (write_result-Returns data_ptr len (kind_of call) _ v f g h)
  run-Returns past_end (Call.exit_early status) s r call rest u had next v f g h =
      reply N nothing_of (exit_early_body status) "exit_early" s r call rest had next
        (exit_early-Returns status (kind_of call) _ v f g h)
  run-Returns past_end (Call.storage_load_bytes32 key_ptr dest) s r call rest u had next v f g h =
      reply N nothing_of (storage_load_bytes32_body key_ptr dest) "storage_load_bytes32" s r call
        rest had next (storage_load_bytes32-Returns key_ptr dest (kind_of call) _ v f g h)
  run-Returns past_end (Call.storage_cache_bytes32 key_ptr value_ptr) s r call rest u had next v f g
        h =
      reply N nothing_of (storage_cache_bytes32_body key_ptr value_ptr) "storage_cache_bytes32" s r
        call rest had next
        (storage_cache_bytes32-Returns key_ptr value_ptr (kind_of call) _ v f g h)
  run-Returns past_end (Call.storage_flush_cache clear) s r call rest u had next v f g h =
      reply N nothing_of (storage_flush_cache_body clear) "storage_flush_cache" s r call rest had
        next (storage_flush_cache-Returns clear (kind_of call) _ v f g h)
  run-Returns past_end (Call.transient_load_bytes32 key_ptr dest) s r call rest u had next v f g h =
      reply N nothing_of (transient_load_bytes32_body key_ptr dest) "transient_load_bytes32" s r
        call rest had next (transient_load_bytes32-Returns key_ptr dest (kind_of call) _ v f g h)
  run-Returns past_end (Call.transient_store_bytes32 key_ptr value_ptr) s r call rest u had next v f
        g h =
      reply N nothing_of (transient_store_bytes32_body key_ptr value_ptr) "transient_store_bytes32"
        s r call rest had next
        (transient_store_bytes32-Returns key_ptr value_ptr (kind_of call) _ v f g h)
  run-Returns past_end (Call.account_balance address_ptr dest) s r call rest u had next v f g h =
      reply N nothing_of (account_balance_body address_ptr dest) "account_balance" s r call rest had
        next (account_balance-Returns address_ptr dest (kind_of call) _ v f g h)
  run-Returns past_end (Call.account_code address_ptr offset_recv size_recv dest) s r call rest u
        had next v f g h =
      reply N word (account_code_body past_end address_ptr offset_recv size_recv dest)
        "account_code" s r call rest had next
        (account_code-Returns past_end address_ptr offset_recv size_recv dest (kind_of call) _ v f g
          h)
  run-Returns past_end (Call.account_code_size address_ptr) s r call rest u had next v f g h =
      reply N word (account_code_size_body address_ptr) "account_code_size" s r call rest had next
        (account_code_size-Returns address_ptr (kind_of call) _ v f g h)
  run-Returns past_end (Call.account_codehash address_ptr dest) s r call rest u had next v f g h =
      reply N nothing_of (account_codehash_body address_ptr dest) "account_codehash" s r call rest
        had next (account_codehash-Returns address_ptr dest (kind_of call) _ v f g h)
  run-Returns past_end (Call.block_basefee dest) s r call rest u had next v f g h =
      reply N nothing_of (block_basefee_body dest) "block_basefee" s r call rest had next
        (block_basefee-Returns dest (kind_of call) _ v f g h)
  run-Returns past_end (Call.tx_gas_price dest) s r call rest u had next v f g h =
      reply N nothing_of (tx_gas_price_body dest) "tx_gas_price" s r call rest had next
        (tx_gas_price-Returns dest (kind_of call) _ v f g h)
  run-Returns past_end (Call.block_coinbase dest) s r call rest u had next v f g h =
      reply N nothing_of (block_coinbase_body dest) "block_coinbase" s r call rest had next
        (block_coinbase-Returns dest (kind_of call) _ v f g h)
  run-Returns past_end (Call.contract_address dest) s r call rest u had next v f g h =
      reply N nothing_of (contract_address_body dest) "contract_address" s r call rest had next
        (contract_address-Returns dest (kind_of call) _ v f g h)
  run-Returns past_end (Call.msg_sender dest) s r call rest u had next v f g h =
      reply N nothing_of (msg_sender_body dest) "msg_sender" s r call rest had next
        (msg_sender-Returns dest (kind_of call) _ v f g h)
  run-Returns past_end (Call.msg_value dest) s r call rest u had next v f g h =
      reply N nothing_of (msg_value_body dest) "msg_value" s r call rest had next
        (msg_value-Returns dest (kind_of call) _ v f g h)
  run-Returns past_end (Call.tx_origin dest) s r call rest u had next v f g h =
      reply N nothing_of (tx_origin_body dest) "tx_origin" s r call rest had next
        (tx_origin-Returns dest (kind_of call) _ v f g h)
  run-Returns past_end Call.block_gas_limit s r call rest u had next v f g h =
      reply N word block_gas_limit_body "block_gas_limit" s r call rest had next
        (block_gas_limit-Returns (kind_of call) _ v f g h)
  run-Returns past_end Call.block_number s r call rest u had next v f g h =
      reply N word block_number_body "block_number" s r call rest had next
        (block_number-Returns (kind_of call) _ v f g h)
  run-Returns past_end Call.block_timestamp s r call rest u had next v f g h =
      reply N word block_timestamp_body "block_timestamp" s r call rest had next
        (block_timestamp-Returns (kind_of call) _ v f g h)
  run-Returns past_end Call.chainid s r call rest u had next v f g h =
      reply N word chainid_body "chainid" s r call rest had next
        (chainid-Returns (kind_of call) _ v f g h)
  run-Returns past_end Call.evm_gas_left s r call rest u had next v f g h =
      reply N word evm_gas_left_body "evm_gas_left" s r call rest had next
        (evm_gas_left-Returns (kind_of call) _ v f g h)
  run-Returns past_end Call.evm_ink_left s r call rest u had next v f g h =
      reply N word evm_ink_left_body "evm_ink_left" s r call rest had next
        (evm_ink_left-Returns (kind_of call) _ v f g h)
  run-Returns past_end Call.return_data_size s r call rest u had next v f g h =
      reply N word return_data_size_body "return_data_size" s r call rest had next
        (return_data_size-Returns (kind_of call) _ v f g h)
  run-Returns past_end Call.tx_ink_price s r call rest u had next v f g h =
      reply N word tx_ink_price_body "tx_ink_price" s r call rest had next
        (tx_ink_price-Returns (kind_of call) _ v f g h)
  run-Returns past_end Call.msg_reentrant s r call rest u had next v f g h =
      reply N flag msg_reentrant_body "msg_reentrant" s r call rest had next
        (msg_reentrant-Returns (kind_of call) _ v f g h)
  run-Returns past_end (Call.pay_for_memory_grow new_pages) s r call rest u had next v f g h =
      reply N nothing_of (pay_for_memory_grow_body new_pages) "pay_for_memory_grow" s r call rest
        had next (pay_for_memory_grow-Returns new_pages (kind_of call) _ v f g h)
  run-Returns past_end
        (Call.call_contract address_ptr calldata calldata_len value_ptr gas_supplied
          return_data_len)
        s r call rest u had next v f g h =
      reply N word
        (call_contract_body address_ptr calldata calldata_len value_ptr gas_supplied
          return_data_len)
        "call_contract" s r call rest had next
        (call_contract-Returns address_ptr calldata calldata_len value_ptr gas_supplied
          return_data_len (kind_of call) _ v f g h)
  run-Returns past_end
        (Call.delegate_call_contract address_ptr calldata calldata_len gas_supplied return_data_len)
        s r call rest u had next v f g h =
      reply N word
        (delegate_call_contract_body address_ptr calldata calldata_len gas_supplied return_data_len)
        "delegate_call_contract" s r call rest had next
        (delegate_call_contract-Returns address_ptr calldata calldata_len gas_supplied
          return_data_len (kind_of call) _ v f g h)
  run-Returns past_end
        (Call.static_call_contract address_ptr calldata calldata_len gas_supplied return_data_len) s
        r call rest u had next v f g h =
      reply N word
        (static_call_contract_body address_ptr calldata calldata_len gas_supplied return_data_len)
        "static_call_contract" s r call rest had next
        (static_call_contract-Returns address_ptr calldata calldata_len gas_supplied return_data_len
          (kind_of call) _ v f g h)
  run-Returns past_end (Call.create1 code_ptr code_len value contract revert_data_len_ptr) s r call
        rest u had next v f g h =
      reply N nothing_of (create1_body code_ptr code_len value contract revert_data_len_ptr)
        "create1" s r call rest had next
        (create1-Returns code_ptr code_len value contract revert_data_len_ptr (kind_of call) _ v f g
          h)
  run-Returns past_end
        (Call.create2 code_ptr code_len value_ptr salt_ptr contract revert_data_len_ptr) s r call
        rest u had next v f g h =
      reply N nothing_of
        (create2_body code_ptr code_len value_ptr salt_ptr contract revert_data_len_ptr) "create2" s
        r call rest had next
        (create2-Returns code_ptr code_len value_ptr salt_ptr contract revert_data_len_ptr
          (kind_of call) _ v f g h)
  run-Returns past_end (Call.emit_log data_ptr len topic_count) s r call rest u had next v f g h =
      reply N nothing_of (emit_log_body data_ptr len topic_count) "emit_log" s r call rest had next
        (emit_log-Returns data_ptr len topic_count (kind_of call) _ v f g h)
  run-Returns past_end (Call.read_return_data dest offset_value size_value) s r call rest u had next
        v f g h =
      reply N word (read_return_data_body dest offset_value size_value) "read_return_data" s r call
        rest had next
        (read_return_data-Returns dest offset_value size_value (kind_of call) _ v f g h)
  run-Returns past_end (Call.math_div value divisor) s r call rest u had next v f g h =
      reply N nothing_of (math_div_body value divisor) "math_div" s r call rest had next
        (math_div-Returns value divisor (kind_of call) _ v f g h)
  run-Returns past_end (Call.math_mod value modulus) s r call rest u had next v f g h =
      reply N nothing_of (math_mod_body value modulus) "math_mod" s r call rest had next
        (math_mod-Returns value modulus (kind_of call) _ v f g h)
  run-Returns past_end (Call.math_pow value exponent) s r call rest u had next v f g h =
      reply N nothing_of (math_pow_body value exponent) "math_pow" s r call rest had next
        (math_pow-Returns value exponent (kind_of call) _ v f g h)
  run-Returns past_end (Call.math_add_mod value addend modulus) s r call rest u had next v f g h =
      reply N nothing_of (math_add_mod_body value addend modulus) "math_add_mod" s r call rest had
        next (math_add_mod-Returns value addend modulus (kind_of call) _ v f g h)
  run-Returns past_end (Call.math_mul_mod value multiplier modulus) s r call rest u had next v f g
        h =
      absurd (cc u)
  run-Returns past_end (Call.native_keccak256 bytes_ptr len output) s r call rest u had next v f g
        h =
      reply N nothing_of (native_keccak256_body bytes_ptr len output) "native_keccak256" s r call
        rest had next (native_keccak256-Returns bytes_ptr len output (kind_of call) _ v f g h)
  run-Returns past_end (Call.log_f32 value) s r call rest u had next v f g h = absurd (cc u)
  run-Returns past_end (Call.log_f64 value) s r call rest u had next v f g h = absurd (cc u)
  run-Returns past_end (Call.log_i32 value) s r call rest u had next v f g h = absurd (cc u)
  run-Returns past_end (Call.log_i64 value) s r call rest u had next v f g h = absurd (cc u)
  run-Returns past_end (Call.log_txt text_ptr len) s r call rest u had next v f g h = absurd (cc u)
