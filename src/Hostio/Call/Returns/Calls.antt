-- ===== src/Hostio/Call/Returns/Calls.antt =====
-- The bodies of Hostio/Calls: they return where the guest's arguments are those of the trace.
use cargo_stylus.Common.{ℕ, ◌≡◌, sym}
use cargo_stylus.Common.Bytes.{length-to_be_bytes}
use cargo_stylus.Trace.Kinds.{HostioKind, Variant, variant_of}
use cargo_stylus.Trace.Print.{FitsKind, args_of}
use cargo_stylus.Hostio.State.{Replay}
use cargo_stylus.Hostio.State.Returns.{
  Returns, returns_rules, length-load, split_fixed, to_be_bytes_injective,
}
use cargo_stylus.Hostio.Calls.{
  call_contract_body, delegate_call_contract_body, static_call_contract_body, create1_body,
  create2_body, emit_log_body, read_return_data_body,
}
use cargo_stylus.Hostio.Call.{Call, inputs}
use cargo_stylus.Hostio.Call.Returns.Range.{FitsCall}

pub call_contract-Returns :
    (address_ptr calldata calldata_len value_ptr gas_supplied return_data_len : ℕ) (k : HostioKind)
    (s : Replay)
    → variant_of k ≡ Variant.call_contract
    → FitsKind k
    → FitsCall (
        Call.call_contract address_ptr calldata calldata_len value_ptr gas_supplied return_data_len)
    → inputs
        (Call.call_contract address_ptr calldata calldata_len value_ptr gas_supplied
          return_data_len)
        s.memory
      ≡ args_of k
    → Returns s (
        call_contract_body address_ptr calldata calldata_len value_ptr gas_supplied return_data_len
          k)
unfolding call_contract_body inputs args_of variant_of
call_contract-Returns address_ptr calldata calldata_len value_ptr gas_supplied return_data_len
      (HostioKind.call_contract _ _ _ _ _ _ _) s v f g h =
    let (e0, h0) = split_fixed 20 _ _ _ _ (length-load 20 address_ptr s.memory) f.0.0 h in
    let (e1, h1) =
      split_fixed 8 _ _ _ _ (length-to_be_bytes 8 gas_supplied) (length-to_be_bytes 8 _) h0 in
    let n1 = to_be_bytes_injective 8 gas_supplied _ g f.1 e1 in
    let (e2, h2) =
      split_fixed 32 _ _ _ _ (length-load 32 value_ptr s.memory) (length-to_be_bytes 32 _) h1 in
    search returns_rules depth 20
call_contract-Returns address_ptr calldata calldata_len value_ptr gas_supplied return_data_len _ s v
      f g h =
    absurd (cc v)

pub delegate_call_contract-Returns :
    (address_ptr calldata calldata_len gas_supplied return_data_len : ℕ) (k : HostioKind)
    (s : Replay)
    → variant_of k ≡ Variant.delegate_call_contract
    → FitsKind k
    → FitsCall
        (Call.delegate_call_contract address_ptr calldata calldata_len gas_supplied return_data_len)
    → inputs
        (Call.delegate_call_contract address_ptr calldata calldata_len gas_supplied return_data_len)
        s.memory
      ≡ args_of k
    → Returns s (
        delegate_call_contract_body address_ptr calldata calldata_len gas_supplied return_data_len
          k)
unfolding delegate_call_contract_body inputs args_of variant_of
delegate_call_contract-Returns address_ptr calldata calldata_len gas_supplied return_data_len
      (HostioKind.delegate_call_contract _ _ _ _ _ _) s v f g h =
    let (e0, h0) = split_fixed 20 _ _ _ _ (length-load 20 address_ptr s.memory) f.0.0 h in
    let (e1, h1) =
      split_fixed 8 _ _ _ _ (length-to_be_bytes 8 gas_supplied) (length-to_be_bytes 8 _) h0 in
    let n1 = to_be_bytes_injective 8 gas_supplied _ g f.1 e1 in search returns_rules depth 20
delegate_call_contract-Returns address_ptr calldata calldata_len gas_supplied return_data_len _ s v
      f g h =
    absurd (cc v)

pub static_call_contract-Returns :
    (address_ptr calldata calldata_len gas_supplied return_data_len : ℕ) (k : HostioKind)
    (s : Replay)
    → variant_of k ≡ Variant.static_call_contract
    → FitsKind k
    → FitsCall
        (Call.static_call_contract address_ptr calldata calldata_len gas_supplied return_data_len)
    → inputs
        (Call.static_call_contract address_ptr calldata calldata_len gas_supplied return_data_len)
        s.memory
      ≡ args_of k
    → Returns s
        (static_call_contract_body address_ptr calldata calldata_len gas_supplied return_data_len k)
unfolding static_call_contract_body inputs args_of variant_of
static_call_contract-Returns address_ptr calldata calldata_len gas_supplied return_data_len
      (HostioKind.static_call_contract _ _ _ _ _ _) s v f g h =
    let (e0, h0) = split_fixed 20 _ _ _ _ (length-load 20 address_ptr s.memory) f.0.0 h in
    let (e1, h1) =
      split_fixed 8 _ _ _ _ (length-to_be_bytes 8 gas_supplied) (length-to_be_bytes 8 _) h0 in
    let n1 = to_be_bytes_injective 8 gas_supplied _ g f.1 e1 in search returns_rules depth 20
static_call_contract-Returns address_ptr calldata calldata_len gas_supplied return_data_len _ s v f
      g h =
    absurd (cc v)

pub create1-Returns :
    (code_ptr code_len value contract revert_data_len_ptr : ℕ) (k : HostioKind) (s : Replay)
    → variant_of k ≡ Variant.create1
    → FitsKind k
    → FitsCall (Call.create1 code_ptr code_len value contract revert_data_len_ptr)
    → inputs (Call.create1 code_ptr code_len value contract revert_data_len_ptr) s.memory
      ≡ args_of k
    → Returns s (create1_body code_ptr code_len value contract revert_data_len_ptr k)
unfolding create1_body inputs args_of variant_of
create1-Returns code_ptr code_len value contract revert_data_len_ptr (HostioKind.create1 _ _ _ _) s
      v f g h =
    let (e0, h0) =
      split_fixed 32 _ _ _ _ (length-load 32 value s.memory) (length-to_be_bytes 32 _) h in
    search returns_rules depth 20
create1-Returns code_ptr code_len value contract revert_data_len_ptr _ s v f g h = absurd (cc v)

pub create2-Returns :
    (code_ptr code_len value_ptr salt_ptr contract revert_data_len_ptr : ℕ) (k : HostioKind)
    (s : Replay)
    → variant_of k ≡ Variant.create2
    → FitsKind k
    → FitsCall (Call.create2 code_ptr code_len value_ptr salt_ptr contract revert_data_len_ptr)
    → inputs
        (Call.create2 code_ptr code_len value_ptr salt_ptr contract revert_data_len_ptr)
        s.memory
      ≡ args_of k
    → Returns s (create2_body code_ptr code_len value_ptr salt_ptr contract revert_data_len_ptr k)
unfolding create2_body inputs args_of variant_of
create2-Returns code_ptr code_len value_ptr salt_ptr contract revert_data_len_ptr
      (HostioKind.create2 _ _ _ _ _) s v f g h =
    let (e0, h0) =
      split_fixed 32 _ _ _ _ (length-load 32 value_ptr s.memory) (length-to_be_bytes 32 _) h in
    let (e1, h1) = split_fixed 32 _ _ _ _ (length-load 32 salt_ptr s.memory) f.1.0 h0 in
    search returns_rules depth 20
create2-Returns code_ptr code_len value_ptr salt_ptr contract revert_data_len_ptr _ s v f g h =
    absurd (cc v)

pub emit_log-Returns :
    (data_ptr len topic_count : ℕ) (k : HostioKind) (s : Replay)
    → variant_of k ≡ Variant.emit_log
    → FitsKind k
    → FitsCall (Call.emit_log data_ptr len topic_count)
    → inputs (Call.emit_log data_ptr len topic_count) s.memory ≡ args_of k
    → Returns s (emit_log_body data_ptr len topic_count k)
unfolding emit_log_body inputs args_of variant_of
emit_log-Returns data_ptr len topic_count (HostioKind.emit_log _ _) s v f g h =
    let (e0, h0) =
      split_fixed 4 _ _ _ _ (length-to_be_bytes 4 topic_count) (length-to_be_bytes 4 _) h in
    let n0 = sym (to_be_bytes_injective 4 topic_count _ g f.0 e0) in search returns_rules depth 20
emit_log-Returns data_ptr len topic_count _ s v f g h = absurd (cc v)

pub read_return_data-Returns :
    (dest offset_value size_value : ℕ) (k : HostioKind) (s : Replay)
    → variant_of k ≡ Variant.read_return_data
    → FitsKind k
    → FitsCall (Call.read_return_data dest offset_value size_value)
    → inputs (Call.read_return_data dest offset_value size_value) s.memory ≡ args_of k
    → Returns s (read_return_data_body dest offset_value size_value k)
unfolding read_return_data_body inputs args_of variant_of
read_return_data-Returns dest offset_value size_value (HostioKind.read_return_data _ _ _) s v f g
      h =
    let (e0, h0) =
      split_fixed 4 _ _ _ _ (length-to_be_bytes 4 offset_value) (length-to_be_bytes 4 _) h in
    let n0 = to_be_bytes_injective 4 offset_value _ g.0 f.0 e0 in
    let n1 = to_be_bytes_injective 4 size_value _ g.1 f.1 h0 in search returns_rules depth 20
read_return_data-Returns dest offset_value size_value _ s v f g h = absurd (cc v)
