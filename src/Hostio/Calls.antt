-- ===== src/Hostio/Calls.antt =====
-- The host functions of main/src/hostio.rs for calls, creations, logs and return data.
use cargo_stylus.Common.{ℕ, ◌%◌, ◌^◌, length}
use cargo_stylus.Common.Bytes.{to_be_bytes}
use cargo_stylus.Trace.Kinds.{HostioKind}
use cargo_stylus.Trace.Names.{Names}
use cargo_stylus.Hostio.State.{
  Host, ◌>>=◌, ◌>>◌, return, unreachable, assert_eq, assert_eq_bytes, read_fixed, read_bytes, copy,
  write_u32, frame,
}

-- What follows the call of `next_hostio`: the match on the kind, the comparisons and the copies.
unfoldable pub call_contract_body : ℕ → ℕ → ℕ → ℕ → ℕ → ℕ → HostioKind → Host ℕ
call_contract_body address_ptr calldata calldata_len value_ptr gas_supplied return_data_len
      (HostioKind.call_contract address recorded gas value outs_len status _) =
    do
      given_address ← read_fixed 20 address_ptr
      assert_eq_bytes given_address address
      given_data ← read_bytes calldata calldata_len
      assert_eq_bytes given_data recorded
      given_value ← read_fixed 32 value_ptr
      assert_eq_bytes given_value (to_be_bytes 32 value)
      assert_eq gas_supplied gas
      write_u32 return_data_len outs_len
      return status
call_contract_body _ _ _ _ _ _ _ = unreachable

unfoldable pub delegate_call_contract_body : ℕ → ℕ → ℕ → ℕ → ℕ → HostioKind → Host ℕ
delegate_call_contract_body address_ptr calldata calldata_len gas_supplied return_data_len
      (HostioKind.delegate_call_contract address recorded gas outs_len status _) =
    do
      given_address ← read_fixed 20 address_ptr
      assert_eq_bytes given_address address
      given_data ← read_bytes calldata calldata_len
      assert_eq_bytes given_data recorded
      assert_eq gas_supplied gas
      write_u32 return_data_len outs_len
      return status
delegate_call_contract_body _ _ _ _ _ _ = unreachable

unfoldable pub static_call_contract_body : ℕ → ℕ → ℕ → ℕ → ℕ → HostioKind → Host ℕ
static_call_contract_body address_ptr calldata calldata_len gas_supplied return_data_len
      (HostioKind.static_call_contract address recorded gas outs_len status _) =
    do
      given_address ← read_fixed 20 address_ptr
      assert_eq_bytes given_address address
      given_data ← read_bytes calldata calldata_len
      assert_eq_bytes given_data recorded
      assert_eq gas_supplied gas
      write_u32 return_data_len outs_len
      return status
static_call_contract_body _ _ _ _ _ _ = unreachable

unfoldable pub create1_body : ℕ → ℕ → ℕ → ℕ → ℕ → HostioKind → Host (Unit {0})
create1_body code_ptr code_len value contract revert_data_len_ptr
      (HostioKind.create1 code endowment address revert_data_len) =
    do
      given_code ← read_bytes code_ptr code_len
      assert_eq_bytes given_code code
      given_value ← read_fixed 32 value
      assert_eq_bytes given_value (to_be_bytes 32 endowment)
      copy address contract
      write_u32 revert_data_len_ptr revert_data_len
create1_body _ _ _ _ _ _ = unreachable

unfoldable pub create2_body : ℕ → ℕ → ℕ → ℕ → ℕ → ℕ → HostioKind → Host (Unit {0})
create2_body code_ptr code_len value_ptr salt_ptr contract revert_data_len_ptr
      (HostioKind.create2 code endowment salt address revert_data_len) =
    do
      given_code ← read_bytes code_ptr code_len
      assert_eq_bytes given_code code
      given_value ← read_fixed 32 value_ptr
      assert_eq_bytes given_value (to_be_bytes 32 endowment)
      given_salt ← read_fixed 32 salt_ptr
      assert_eq_bytes given_salt salt
      copy address contract
      write_u32 revert_data_len_ptr revert_data_len
create2_body _ _ _ _ _ _ _ = unreachable

unfoldable pub emit_log_body : ℕ → ℕ → ℕ → HostioKind → Host (Unit {0})
emit_log_body data_ptr len topic_count (HostioKind.emit_log recorded topics) = do
  given ← read_bytes data_ptr len
  assert_eq_bytes given recorded
  assert_eq topics topic_count
emit_log_body _ _ _ _ = unreachable

unfoldable pub read_return_data_body : ℕ → ℕ → ℕ → HostioKind → Host ℕ
read_return_data_body dest offset_value size_value
      (HostioKind.read_return_data offset size recorded) =
    do
      assert_eq offset_value offset
      assert_eq size_value size
      copy recorded dest
      return (length recorded % 2 ^ 32)
read_return_data_body _ _ _ _ = unreachable

module _ (N : Names) where
  unfoldable pub call_contract : ℕ → ℕ → ℕ → ℕ → ℕ → ℕ → Host ℕ
  unfolding call_contract_body
  call_contract address_ptr calldata calldata_len value_ptr gas_supplied return_data_len = do
    kind ← frame N "call_contract"
    call_contract_body address_ptr calldata calldata_len value_ptr gas_supplied return_data_len kind

  unfoldable pub delegate_call_contract : ℕ → ℕ → ℕ → ℕ → ℕ → Host ℕ
  unfolding delegate_call_contract_body
  delegate_call_contract address_ptr calldata calldata_len gas_supplied return_data_len = do
    kind ← frame N "delegate_call_contract"
    delegate_call_contract_body address_ptr calldata calldata_len gas_supplied return_data_len kind

  unfoldable pub static_call_contract : ℕ → ℕ → ℕ → ℕ → ℕ → Host ℕ
  unfolding static_call_contract_body
  static_call_contract address_ptr calldata calldata_len gas_supplied return_data_len = do
    kind ← frame N "static_call_contract"
    static_call_contract_body address_ptr calldata calldata_len gas_supplied return_data_len kind

  unfoldable pub create1 : ℕ → ℕ → ℕ → ℕ → ℕ → Host (Unit {0})
  unfolding create1_body
  create1 code_ptr code_len value contract revert_data_len_ptr = do
    kind ← frame N "create1"
    create1_body code_ptr code_len value contract revert_data_len_ptr kind

  unfoldable pub create2 : ℕ → ℕ → ℕ → ℕ → ℕ → ℕ → Host (Unit {0})
  unfolding create2_body
  create2 code_ptr code_len value_ptr salt_ptr contract revert_data_len_ptr = do
    kind ← frame N "create2"
    create2_body code_ptr code_len value_ptr salt_ptr contract revert_data_len_ptr kind

  unfoldable pub emit_log : ℕ → ℕ → ℕ → Host (Unit {0})
  unfolding emit_log_body
  emit_log data_ptr len topic_count = do
    kind ← frame N "emit_log"
    emit_log_body data_ptr len topic_count kind

  unfoldable pub read_return_data : ℕ → ℕ → ℕ → Host ℕ
  unfolding read_return_data_body
  read_return_data dest offset_value size_value = do
    kind ← frame N "read_return_data"
    read_return_data_body dest offset_value size_value kind
