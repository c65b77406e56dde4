-- ===== src/Hostio/Call/Inputs/Calls.antt =====
-- The bodies of Hostio/Calls: where they return, the guest's arguments are those of the trace.
use cargo_stylus.Common.{ℕ, ◌≡◌}
use cargo_stylus.Trace.Kinds.{HostioKind}
use cargo_stylus.Trace.Print.{args_of}
use cargo_stylus.Hostio.State.{Replay}
use cargo_stylus.Hostio.State.Ensures.{Ensures, Ensures-unreachable, ensures_rules}
use cargo_stylus.Hostio.Calls.{
  call_contract_body, delegate_call_contract_body, static_call_contract_body, create1_body,
  create2_body, emit_log_body, read_return_data_body,
}
use cargo_stylus.Hostio.Call.{Call, inputs}

pub call_contract-inputs :
    (address_ptr calldata calldata_len value_ptr gas_supplied return_data_len : ℕ) (k : HostioKind)
    (s : Replay)
    → Ensures s
        (λ q.
          inputs
            (Call.call_contract address_ptr calldata calldata_len value_ptr gas_supplied
              return_data_len)
            s.memory
          ≡ args_of k)
        (call_contract_body address_ptr calldata calldata_len value_ptr gas_supplied return_data_len
          k)
unfolding call_contract_body inputs args_of
call_contract-inputs address_ptr calldata calldata_len value_ptr gas_supplied return_data_len
      (HostioKind.call_contract _ _ _ _ _ _ _) s =
    search ensures_rules depth 20
call_contract-inputs address_ptr calldata calldata_len value_ptr gas_supplied return_data_len _ s =
    Ensures-unreachable s _

pub delegate_call_contract-inputs :
    (address_ptr calldata calldata_len gas_supplied return_data_len : ℕ) (k : HostioKind)
    (s : Replay)
    → Ensures s
        (λ q.
          inputs
            (Call.delegate_call_contract address_ptr calldata calldata_len gas_supplied
              return_data_len)
            s.memory
          ≡ args_of k)
        (delegate_call_contract_body address_ptr calldata calldata_len gas_supplied return_data_len
          k)
unfolding delegate_call_contract_body inputs args_of
delegate_call_contract-inputs address_ptr calldata calldata_len gas_supplied return_data_len
      (HostioKind.delegate_call_contract _ _ _ _ _ _) s =
    search ensures_rules depth 20
delegate_call_contract-inputs address_ptr calldata calldata_len gas_supplied return_data_len _ s =
    Ensures-unreachable s _

pub static_call_contract-inputs :
    (address_ptr calldata calldata_len gas_supplied return_data_len : ℕ) (k : HostioKind)
    (s : Replay)
    → Ensures s
        (λ q.
          inputs
            (Call.static_call_contract address_ptr calldata calldata_len gas_supplied
              return_data_len)
            s.memory
          ≡ args_of k)
        (static_call_contract_body address_ptr calldata calldata_len gas_supplied return_data_len k)
unfolding static_call_contract_body inputs args_of
static_call_contract-inputs address_ptr calldata calldata_len gas_supplied return_data_len
      (HostioKind.static_call_contract _ _ _ _ _ _) s =
    search ensures_rules depth 20
static_call_contract-inputs address_ptr calldata calldata_len gas_supplied return_data_len _ s =
    Ensures-unreachable s _

pub create1-inputs :
    (code_ptr code_len value contract revert_data_len_ptr : ℕ) (k : HostioKind) (s : Replay)
    → Ensures s
        (λ q.
          inputs (Call.create1 code_ptr code_len value contract revert_data_len_ptr) s.memory
          ≡ args_of k)
        (create1_body code_ptr code_len value contract revert_data_len_ptr k)
unfolding create1_body inputs args_of
create1-inputs code_ptr code_len value contract revert_data_len_ptr (HostioKind.create1 _ _ _ _) s =
    search ensures_rules depth 20
create1-inputs code_ptr code_len value contract revert_data_len_ptr _ s = Ensures-unreachable s _

pub create2-inputs :
    (code_ptr code_len value_ptr salt_ptr contract revert_data_len_ptr : ℕ) (k : HostioKind)
    (s : Replay)
    → Ensures s
        (λ q.
          inputs
            (Call.create2 code_ptr code_len value_ptr salt_ptr contract revert_data_len_ptr)
            s.memory
          ≡ args_of k)
        (create2_body code_ptr code_len value_ptr salt_ptr contract revert_data_len_ptr k)
unfolding create2_body inputs args_of
create2-inputs code_ptr code_len value_ptr salt_ptr contract revert_data_len_ptr
      (HostioKind.create2 _ _ _ _ _) s =
    search ensures_rules depth 20
create2-inputs code_ptr code_len value_ptr salt_ptr contract revert_data_len_ptr _ s =
    Ensures-unreachable s _

pub emit_log-inputs :
    (data_ptr len topic_count : ℕ) (k : HostioKind) (s : Replay)
    → Ensures s
        (λ q. inputs (Call.emit_log data_ptr len topic_count) s.memory ≡ args_of k)
        (emit_log_body data_ptr len topic_count k)
unfolding emit_log_body inputs args_of
emit_log-inputs data_ptr len topic_count (HostioKind.emit_log _ _) s = search ensures_rules depth 20
emit_log-inputs data_ptr len topic_count _ s = Ensures-unreachable s _

pub read_return_data-inputs :
    (dest offset_value size_value : ℕ) (k : HostioKind) (s : Replay)
    → Ensures s
        (λ q. inputs (Call.read_return_data dest offset_value size_value) s.memory ≡ args_of k)
        (read_return_data_body dest offset_value size_value k)
unfolding read_return_data_body inputs args_of
read_return_data-inputs dest offset_value size_value (HostioKind.read_return_data _ _ _) s =
    search ensures_rules depth 20
read_return_data-inputs dest offset_value size_value _ s = Ensures-unreachable s _
