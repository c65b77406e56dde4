-- ===== src/Hostio/Call/Serves.antt =====
-- A call that returns has been compared with the trace: the next recorded call of its name has the
-- bytes that the guest passes, and the reader and the ink counters have moved behind that call.
use cargo_stylus.Common.{ℕ, String, ◌≡◌, sym, ◌∙◌, ap, false, some}
use cargo_stylus.Common.Bytes.{Bytes}
use cargo_stylus.Trace.Kinds.{HostioKind, Hostio, kind_of}
use cargo_stylus.Trace.Names.{Names}
use cargo_stylus.Trace.Print.{args_of}
use cargo_stylus.Hostio.State.{Replay, Host, ◌>>=◌, return, frame}
use cargo_stylus.Hostio.State.Frames.{Served, Option-inv, frame-Served, frame-bind}
use cargo_stylus.Hostio.State.Ensures.{SameTrace, Ensures}
use cargo_stylus.Hostio.Call.{
  Call, Reply, word, flag, nothing_of, symbol, run, inputs, is_unchecked,
}
use cargo_stylus.Hostio.Data.{
  read_args, read_args_body, write_result, write_result_body, exit_early, storage_load_bytes32,
  storage_load_bytes32_body, storage_cache_bytes32, storage_cache_bytes32_body, storage_flush_cache,
  transient_load_bytes32, transient_load_bytes32_body, transient_store_bytes32,
  transient_store_bytes32_body,
}
use cargo_stylus.Hostio.Account.{
  account_balance, account_balance_body, account_code, account_code_body, account_code_size,
  account_code_size_body, account_codehash, account_codehash_body,
}
use cargo_stylus.Hostio.Chain.{
  block_basefee, block_basefee_body, tx_gas_price, tx_gas_price_body, block_coinbase,
  block_coinbase_body, contract_address, contract_address_body, msg_sender, msg_sender_body,
  msg_value, msg_value_body, tx_origin, tx_origin_body, block_gas_limit, block_gas_limit_body,
  block_number, block_number_body, block_timestamp, block_timestamp_body, chainid, chainid_body,
  evm_gas_left, evm_gas_left_body, evm_ink_left, evm_ink_left_body, return_data_size,
  return_data_size_body, tx_ink_price, tx_ink_price_body, msg_reentrant, msg_reentrant_body,
  pay_for_memory_grow, pay_for_memory_grow_body,
}
use cargo_stylus.Hostio.Calls.{
  call_contract, call_contract_body, delegate_call_contract, delegate_call_contract_body,
  static_call_contract, static_call_contract_body, create1, create1_body, create2, create2_body,
  emit_log, emit_log_body, read_return_data, read_return_data_body,
}
use cargo_stylus.Hostio.Math.{
  math_div, math_div_body, math_mod, math_mod_body, math_pow, math_pow_body, math_add_mod,
  math_add_mod_body, math_mul_mod, math_mul_mod_body, native_keccak256, native_keccak256_body,
}
use cargo_stylus.Hostio.Console.{log_f32, log_f64, log_i32, log_i64, log_txt, log_txt_body}
use cargo_stylus.Hostio.Call.Inputs.Data.{
  read_args-inputs, write_result-inputs, storage_load_bytes32-inputs, storage_cache_bytes32-inputs,
  transient_load_bytes32-inputs, transient_store_bytes32-inputs,
}
use cargo_stylus.Hostio.Call.Inputs.Account.{
  account_balance-inputs, account_code-inputs, account_code_size-inputs, account_codehash-inputs,
}
use cargo_stylus.Hostio.Call.Inputs.Chain.{
  block_basefee-inputs, tx_gas_price-inputs, block_coinbase-inputs, contract_address-inputs,
  msg_sender-inputs, msg_value-inputs, tx_origin-inputs, block_gas_limit-inputs,
  block_number-inputs, block_timestamp-inputs, chainid-inputs, evm_gas_left-inputs,
  evm_ink_left-inputs, return_data_size-inputs, tx_ink_price-inputs, msg_reentrant-inputs,
  pay_for_memory_grow-inputs,
}
use cargo_stylus.Hostio.Call.Inputs.Calls.{
  call_contract-inputs, delegate_call_contract-inputs, static_call_contract-inputs, create1-inputs,
  create2-inputs, emit_log-inputs, read_return_data-inputs,
}
use cargo_stylus.Hostio.Call.Inputs.Math.{
  math_div-inputs, math_mod-inputs, math_pow-inputs, math_add_mod-inputs, math_mul_mod-inputs,
  native_keccak256-inputs,
}
use cargo_stylus.Hostio.Call.Inputs.Console.{log_txt-inputs}

-- The call is served by a recorded call whose arguments are `given`.
pub record Answered (N : Names) (c : Call) (s s' : Replay) : Type 0 where
  pub call : Hostio
  pub serves : Served N (symbol c) s s' call
  pub same_args : inputs c s.memory ≡ args_of (kind_of call)

module _ (N : Names) (past_end : ℕ → Bytes) where
  -- The ink and the reader that `frame!` has left stay.
  pub Served-same :
      (name : String) (s s1 s2 : Replay) (call : Hostio)
      → SameTrace s1 s2
      → Served N name s s1 call
      → Served N name s s2 call
  Served-same name s s1 s2 call t v = record {
    before = v.before;
    rest = v.rest;
    had = v.had;
    is_next = v.is_next;
    frame_left = t.frame ∙ v.frame_left;
    start_ink_left = t.start_ink ∙ v.start_ink_left;
    end_ink_left = t.end_ink ∙ v.end_ink_left;
  }

  answer :
      {A : Type 0} (f : A → Reply) (body : HostioKind → Host A) (c : Call) (s : Replay) (r : Reply)
      (s' : Replay)
      → ((k : HostioKind) (s1 : Replay) → Ensures s1 (λ q. inputs c s1.memory ≡ args_of k) (body k))
      → ((frame N (symbol c) >>= body) >>= λ a. return (f a)) s ≡ some (r, s')
      → Answered N c s s'
  unfolding ◌>>=◌ return
  answer f body c s r s' e h =
      let (p, e1, e2) = Option-inv ((frame N (symbol c) >>= body) s) _ (r, s') h in
      let (k, s1, e3, e4) = frame-bind N (symbol c) s body p e1 in
      let (call, v, is_kind, same_memory) = frame-Served N (symbol c) s k s1 e3 in
      let (t, g) = (e k s1).at p e4 in
      let last : p.1 ≡ s' = cc e2 in
      record {
        call = call;
        serves = rw (← last) (Served-same (symbol c) s s1 p.1 call t v);
        same_args = ap (inputs c) (sym same_memory) ∙ g ∙ ap args_of (sym is_kind);
      }

  -- Whenever a host function other than those of `is_unchecked` returns, it has been served by the
  -- next recorded call of its name, whose argument bytes are those that the guest passes; the
  -- reader stands behind that call, and the ink counters are the call's.
  pub run-Answered :
      (c : Call) (s : Replay) (r : Reply) (s' : Replay)
      → is_unchecked c ≡ false
      → run N past_end c s ≡ some (r, s')
      → Answered N c s s'
  unfolding run is_unchecked symbol read_args write_result exit_early storage_load_bytes32
      storage_cache_bytes32 storage_flush_cache transient_load_bytes32 transient_store_bytes32
      account_balance account_code account_code_size account_codehash block_basefee tx_gas_price
      block_coinbase contract_address msg_sender msg_value tx_origin block_gas_limit block_number
      block_timestamp chainid evm_gas_left evm_ink_left return_data_size tx_ink_price msg_reentrant
      pay_for_memory_grow call_contract delegate_call_contract static_call_contract create1 create2
      emit_log read_return_data math_div math_mod math_pow math_add_mod math_mul_mod
      native_keccak256 log_f32 log_f64 log_i32 log_i64 log_txt
  run-Answered (Call.read_args dest) s r s' u h =
      answer nothing_of (read_args_body dest) (Call.read_args dest) s r s' (read_args-inputs dest) h
  run-Answered (Call.write_result data_ptr len) s r s' u h =
      answer nothing_of (write_result_body data_ptr len) (Call.write_result data_ptr len) s r s'
        (write_result-inputs data_ptr len) h
  run-Answered (Call.exit_early status) s r s' u h = cc
  run-Answered (Call.storage_load_bytes32 key_ptr dest) s r s' u h =
      answer nothing_of (storage_load_bytes32_body key_ptr dest)
        (Call.storage_load_bytes32 key_ptr dest) s r s' (storage_load_bytes32-inputs key_ptr dest) h
  run-Answered (Call.storage_cache_bytes32 key_ptr value_ptr) s r s' u h =
      answer nothing_of (storage_cache_bytes32_body key_ptr value_ptr)
        (Call.storage_cache_bytes32 key_ptr value_ptr) s r s'
        (storage_cache_bytes32-inputs key_ptr value_ptr) h
  run-Answered (Call.storage_flush_cache clear) s r s' u h = cc
  run-Answered (Call.transient_load_bytes32 key_ptr dest) s r s' u h =
      answer nothing_of (transient_load_bytes32_body key_ptr dest)
        (Call.transient_load_bytes32 key_ptr dest) s r s'
        (transient_load_bytes32-inputs key_ptr dest) h
  run-Answered (Call.transient_store_bytes32 key_ptr value_ptr) s r s' u h =
      answer nothing_of (transient_store_bytes32_body key_ptr value_ptr)
        (Call.transient_store_bytes32 key_ptr value_ptr) s r s'
        (transient_store_bytes32-inputs key_ptr value_ptr) h
  run-Answered (Call.account_balance address_ptr dest) s r s' u h =
      answer nothing_of (account_balance_body address_ptr dest)
        (Call.account_balance address_ptr dest) s r s' (account_balance-inputs address_ptr dest) h
  run-Answered (Call.account_code address_ptr offset_recv size_recv dest) s r s' u h =
      answer word (account_code_body past_end address_ptr offset_recv size_recv dest)
        (Call.account_code address_ptr offset_recv size_recv dest) s r s'
        (account_code-inputs past_end address_ptr offset_recv size_recv dest) h
  run-Answered (Call.account_code_size address_ptr) s r s' u h =
      answer word (account_code_size_body address_ptr) (Call.account_code_size address_ptr) s r s'
        (account_code_size-inputs address_ptr) h
  run-Answered (Call.account_codehash address_ptr dest) s r s' u h =
      answer nothing_of (account_codehash_body address_ptr dest)
        (Call.account_codehash address_ptr dest) s r s' (account_codehash-inputs address_ptr dest) h
  run-Answered (Call.block_basefee dest) s r s' u h =
      answer nothing_of (block_basefee_body dest) (Call.block_basefee dest) s r s'
        (block_basefee-inputs dest) h
  run-Answered (Call.tx_gas_price dest) s r s' u h =
      answer nothing_of (tx_gas_price_body dest) (Call.tx_gas_price dest) s r s'
        (tx_gas_price-inputs dest) h
  run-Answered (Call.block_coinbase dest) s r s' u h =
      answer nothing_of (block_coinbase_body dest) (Call.block_coinbase dest) s r s'
        (block_coinbase-inputs dest) h
  run-Answered (Call.contract_address dest) s r s' u h =
      answer nothing_of (contract_address_body dest) (Call.contract_address dest) s r s'
        (contract_address-inputs dest) h
  run-Answered (Call.msg_sender dest) s r s' u h =
      answer nothing_of (msg_sender_body dest) (Call.msg_sender dest) s r s'
        (msg_sender-inputs dest) h
  run-Answered (Call.msg_value dest) s r s' u h =
      answer nothing_of (msg_value_body dest) (Call.msg_value dest) s r s' (msg_value-inputs dest) h
  run-Answered (Call.tx_origin dest) s r s' u h =
      answer nothing_of (tx_origin_body dest) (Call.tx_origin dest) s r s' (tx_origin-inputs dest) h
  run-Answered Call.block_gas_limit s r s' u h =
      answer word block_gas_limit_body Call.block_gas_limit s r s' (block_gas_limit-inputs) h
  run-Answered Call.block_number s r s' u h =
      answer word block_number_body Call.block_number s r s' (block_number-inputs) h
  run-Answered Call.block_timestamp s r s' u h =
      answer word block_timestamp_body Call.block_timestamp s r s' (block_timestamp-inputs) h
  run-Answered Call.chainid s r s' u h =
      answer word chainid_body Call.chainid s r s' (chainid-inputs) h
  run-Answered Call.evm_gas_left s r s' u h =
      answer word evm_gas_left_body Call.evm_gas_left s r s' (evm_gas_left-inputs) h
  run-Answered Call.evm_ink_left s r s' u h =
      answer word evm_ink_left_body Call.evm_ink_left s r s' (evm_ink_left-inputs) h
  run-Answered Call.return_data_size s r s' u h =
      answer word return_data_size_body Call.return_data_size s r s' (return_data_size-inputs) h
  run-Answered Call.tx_ink_price s r s' u h =
      answer word tx_ink_price_body Call.tx_ink_price s r s' (tx_ink_price-inputs) h
  run-Answered Call.msg_reentrant s r s' u h =
      answer flag msg_reentrant_body Call.msg_reentrant s r s' (msg_reentrant-inputs) h
  run-Answered (Call.pay_for_memory_grow new_pages) s r s' u h =
      answer nothing_of (pay_for_memory_grow_body new_pages) (Call.pay_for_memory_grow new_pages) s
        r s' (pay_for_memory_grow-inputs new_pages) h
  run-Answered
        (Call.call_contract address_ptr calldata calldata_len value_ptr gas_supplied
          return_data_len)
        s r s' u h =
      answer word
        (call_contract_body address_ptr calldata calldata_len value_ptr gas_supplied
          return_data_len)
        (Call.call_contract address_ptr calldata calldata_len value_ptr gas_supplied
          return_data_len)
        s r s'
        (call_contract-inputs address_ptr calldata calldata_len value_ptr gas_supplied
          return_data_len)
        h
  run-Answered
        (Call.delegate_call_contract address_ptr calldata calldata_len gas_supplied return_data_len)
        s r s' u h =
      answer word
        (delegate_call_contract_body address_ptr calldata calldata_len gas_supplied return_data_len)
        (Call.delegate_call_contract address_ptr calldata calldata_len gas_supplied return_data_len)
        s r s'
        (delegate_call_contract-inputs address_ptr calldata calldata_len gas_supplied
          return_data_len)
        h
  run-Answered
        (Call.static_call_contract address_ptr calldata calldata_len gas_supplied return_data_len) s
        r s' u h =
      answer word
        (static_call_contract_body address_ptr calldata calldata_len gas_supplied return_data_len)
        (Call.static_call_contract address_ptr calldata calldata_len gas_supplied return_data_len) s
        r s'
        (static_call_contract-inputs address_ptr calldata calldata_len gas_supplied return_data_len)
        h
  run-Answered (Call.create1 code_ptr code_len value contract revert_data_len_ptr) s r s' u h =
      answer nothing_of (create1_body code_ptr code_len value contract revert_data_len_ptr)
        (Call.create1 code_ptr code_len value contract revert_data_len_ptr) s r s'
        (create1-inputs code_ptr code_len value contract revert_data_len_ptr) h
  run-Answered (Call.create2 code_ptr code_len value_ptr salt_ptr contract revert_data_len_ptr) s r
        s' u h =
      answer nothing_of
        (create2_body code_ptr code_len value_ptr salt_ptr contract revert_data_len_ptr)
        (Call.create2 code_ptr code_len value_ptr salt_ptr contract revert_data_len_ptr) s r s'
        (create2-inputs code_ptr code_len value_ptr salt_ptr contract revert_data_len_ptr) h
  run-Answered (Call.emit_log data_ptr len topic_count) s r s' u h =
      answer nothing_of (emit_log_body data_ptr len topic_count)
        (Call.emit_log data_ptr len topic_count) s r s' (emit_log-inputs data_ptr len topic_count) h
  run-Answered (Call.read_return_data dest offset_value size_value) s r s' u h =
      answer word (read_return_data_body dest offset_value size_value)
        (Call.read_return_data dest offset_value size_value) s r s'
        (read_return_data-inputs dest offset_value size_value) h
  run-Answered (Call.math_div value divisor) s r s' u h =
      answer nothing_of (math_div_body value divisor) (Call.math_div value divisor) s r s'
        (math_div-inputs value divisor) h
  run-Answered (Call.math_mod value modulus) s r s' u h =
      answer nothing_of (math_mod_body value modulus) (Call.math_mod value modulus) s r s'
        (math_mod-inputs value modulus) h
  run-Answered (Call.math_pow value exponent) s r s' u h =
      answer nothing_of (math_pow_body value exponent) (Call.math_pow value exponent) s r s'
        (math_pow-inputs value exponent) h
  run-Answered (Call.math_add_mod value addend modulus) s r s' u h =
      answer nothing_of (math_add_mod_body value addend modulus)
        (Call.math_add_mod value addend modulus) s r s' (math_add_mod-inputs value addend modulus) h
  run-Answered (Call.math_mul_mod value multiplier modulus) s r s' u h =
      answer nothing_of (math_mul_mod_body value multiplier modulus)
        (Call.math_mul_mod value multiplier modulus) s r s'
        (math_mul_mod-inputs value multiplier modulus) h
  run-Answered (Call.native_keccak256 bytes_ptr len output) s r s' u h =
      answer nothing_of (native_keccak256_body bytes_ptr len output)
        (Call.native_keccak256 bytes_ptr len output) s r s'
        (native_keccak256-inputs bytes_ptr len output) h
  run-Answered (Call.log_f32 value) s r s' u h = cc
  run-Answered (Call.log_f64 value) s r s' u h = cc
  run-Answered (Call.log_i32 value) s r s' u h = cc
  run-Answered (Call.log_i64 value) s r s' u h = cc
  run-Answered (Call.log_txt text_ptr len) s r s' u h =
      answer nothing_of (log_txt_body text_ptr len) (Call.log_txt text_ptr len) s r s'
        (log_txt-inputs text_ptr len) h
