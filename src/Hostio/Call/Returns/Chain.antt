-- ===== src/Hostio/Call/Returns/Chain.antt =====
-- The bodies of Hostio/Chain: they return where the guest's arguments are those of the trace.
use cargo_stylus.Common.{ℕ, ◌≡◌}
use cargo_stylus.Trace.Kinds.{HostioKind, Variant, variant_of}
use cargo_stylus.Trace.Print.{FitsKind, args_of}
use cargo_stylus.Hostio.State.{Replay}
use cargo_stylus.Hostio.State.Returns.{Returns, returns_rules, to_be_bytes_injective}
use cargo_stylus.Hostio.Chain.{
  block_basefee_body, tx_gas_price_body, block_coinbase_body, contract_address_body,
  msg_sender_body, msg_value_body, tx_origin_body, block_gas_limit_body, block_number_body,
  block_timestamp_body, chainid_body, evm_gas_left_body, evm_ink_left_body, return_data_size_body,
  tx_ink_price_body, msg_reentrant_body, pay_for_memory_grow_body,
}
use cargo_stylus.Hostio.Call.{Call, inputs}
use cargo_stylus.Hostio.Call.Returns.Range.{FitsCall}

pub block_basefee-Returns :
    (dest : ℕ) (k : HostioKind) (s : Replay)
    → variant_of k ≡ Variant.block_basefee
    → FitsKind k
    → FitsCall (Call.block_basefee dest)
    → inputs (Call.block_basefee dest) s.memory ≡ args_of k
    → Returns s (block_basefee_body dest k)
unfolding block_basefee_body inputs args_of variant_of
block_basefee-Returns dest (HostioKind.block_basefee _) s v f g h = search returns_rules depth 20
block_basefee-Returns dest _ s v f g h = absurd (cc v)

pub tx_gas_price-Returns :
    (dest : ℕ) (k : HostioKind) (s : Replay)
    → variant_of k ≡ Variant.tx_gas_price
    → FitsKind k
    → FitsCall (Call.tx_gas_price dest)
    → inputs (Call.tx_gas_price dest) s.memory ≡ args_of k
    → Returns s (tx_gas_price_body dest k)
unfolding tx_gas_price_body inputs args_of variant_of
tx_gas_price-Returns dest (HostioKind.tx_gas_price _) s v f g h = search returns_rules depth 20
tx_gas_price-Returns dest _ s v f g h = absurd (cc v)

pub block_coinbase-Returns :
    (dest : ℕ) (k : HostioKind) (s : Replay)
    → variant_of k ≡ Variant.block_coinbase
    → FitsKind k
    → FitsCall (Call.block_coinbase dest)
    → inputs (Call.block_coinbase dest) s.memory ≡ args_of k
    → Returns s (block_coinbase_body dest k)
unfolding block_coinbase_body inputs args_of variant_of
block_coinbase-Returns dest (HostioKind.block_coinbase _) s v f g h = search returns_rules depth 20
block_coinbase-Returns dest _ s v f g h = absurd (cc v)

pub contract_address-Returns :
    (dest : ℕ) (k : HostioKind) (s : Replay)
    → variant_of k ≡ Variant.contract_address
    → FitsKind k
    → FitsCall (Call.contract_address dest)
    → inputs (Call.contract_address dest) s.memory ≡ args_of k
    → Returns s (contract_address_body dest k)
unfolding contract_address_body inputs args_of variant_of
contract_address-Returns dest (HostioKind.contract_address _) s v f g h =
    search returns_rules depth 20
contract_address-Returns dest _ s v f g h = absurd (cc v)

pub msg_sender-Returns :
    (dest : ℕ) (k : HostioKind) (s : Replay)
    → variant_of k ≡ Variant.msg_sender
    → FitsKind k
    → FitsCall (Call.msg_sender dest)
    → inputs (Call.msg_sender dest) s.memory ≡ args_of k
    → Returns s (msg_sender_body dest k)
unfolding msg_sender_body inputs args_of variant_of
msg_sender-Returns dest (HostioKind.msg_sender _) s v f g h = search returns_rules depth 20
msg_sender-Returns dest _ s v f g h = absurd (cc v)

pub msg_value-Returns :
    (dest : ℕ) (k : HostioKind) (s : Replay)
    → variant_of k ≡ Variant.msg_value
    → FitsKind k
    → FitsCall (Call.msg_value dest)
    → inputs (Call.msg_value dest) s.memory ≡ args_of k
    → Returns s (msg_value_body dest k)
unfolding msg_value_body inputs args_of variant_of
msg_value-Returns dest (HostioKind.msg_value _) s v f g h = search returns_rules depth 20
msg_value-Returns dest _ s v f g h = absurd (cc v)

pub tx_origin-Returns :
    (dest : ℕ) (k : HostioKind) (s : Replay)
    → variant_of k ≡ Variant.tx_origin
    → FitsKind k
    → FitsCall (Call.tx_origin dest)
    → inputs (Call.tx_origin dest) s.memory ≡ args_of k
    → Returns s (tx_origin_body dest k)
unfolding tx_origin_body inputs args_of variant_of
tx_origin-Returns dest (HostioKind.tx_origin _) s v f g h = search returns_rules depth 20
tx_origin-Returns dest _ s v f g h = absurd (cc v)

pub block_gas_limit-Returns :
    (k : HostioKind) (s : Replay)
    → variant_of k ≡ Variant.block_gas_limit
    → FitsKind k
    → FitsCall Call.block_gas_limit
    → inputs Call.block_gas_limit s.memory ≡ args_of k
    → Returns s (block_gas_limit_body k)
unfolding block_gas_limit_body inputs args_of variant_of
block_gas_limit-Returns (HostioKind.block_gas_limit _) s v f g h = search returns_rules depth 20
block_gas_limit-Returns _ s v f g h = absurd (cc v)

pub block_number-Returns :
    (k : HostioKind) (s : Replay)
    → variant_of k ≡ Variant.block_number
    → FitsKind k
    → FitsCall Call.block_number
    → inputs Call.block_number s.memory ≡ args_of k
    → Returns s (block_number_body k)
unfolding block_number_body inputs args_of variant_of
block_number-Returns (HostioKind.block_number _) s v f g h = search returns_rules depth 20
block_number-Returns _ s v f g h = absurd (cc v)

pub block_timestamp-Returns :
    (k : HostioKind) (s : Replay)
    → variant_of k ≡ Variant.block_timestamp
    → FitsKind k
    → FitsCall Call.block_timestamp
    → inputs Call.block_timestamp s.memory ≡ args_of k
    → Returns s (block_timestamp_body k)
unfolding block_timestamp_body inputs args_of variant_of
block_timestamp-Returns (HostioKind.block_timestamp _) s v f g h = search returns_rules depth 20
block_timestamp-Returns _ s v f g h = absurd (cc v)

pub chainid-Returns :
    (k : HostioKind) (s : Replay)
    → variant_of k ≡ Variant.chainid
    → FitsKind k
    → FitsCall Call.chainid
    → inputs Call.chainid s.memory ≡ args_of k
    → Returns s (chainid_body k)
unfolding chainid_body inputs args_of variant_of
chainid-Returns (HostioKind.chainid _) s v f g h = search returns_rules depth 20
chainid-Returns _ s v f g h = absurd (cc v)

pub evm_gas_left-Returns :
    (k : HostioKind) (s : Replay)
    → variant_of k ≡ Variant.evm_gas_left
    → FitsKind k
    → FitsCall Call.evm_gas_left
    → inputs Call.evm_gas_left s.memory ≡ args_of k
    → Returns s (evm_gas_left_body k)
unfolding evm_gas_left_body inputs args_of variant_of
evm_gas_left-Returns (HostioKind.evm_gas_left _) s v f g h = search returns_rules depth 20
evm_gas_left-Returns _ s v f g h = absurd (cc v)

pub evm_ink_left-Returns :
    (k : HostioKind) (s : Replay)
    → variant_of k ≡ Variant.evm_ink_left
    → FitsKind k
    → FitsCall Call.evm_ink_left
    → inputs Call.evm_ink_left s.memory ≡ args_of k
    → Returns s (evm_ink_left_body k)
unfolding evm_ink_left_body inputs args_of variant_of
evm_ink_left-Returns (HostioKind.evm_ink_left _) s v f g h = search returns_rules depth 20
evm_ink_left-Returns _ s v f g h = absurd (cc v)

pub return_data_size-Returns :
    (k : HostioKind) (s : Replay)
    → variant_of k ≡ Variant.return_data_size
    → FitsKind k
    → FitsCall Call.return_data_size
    → inputs Call.return_data_size s.memory ≡ args_of k
    → Returns s (return_data_size_body k)
unfolding return_data_size_body inputs args_of variant_of
return_data_size-Returns (HostioKind.return_data_size _) s v f g h = search returns_rules depth 20
return_data_size-Returns _ s v f g h = absurd (cc v)

pub tx_ink_price-Returns :
    (k : HostioKind) (s : Replay)
    → variant_of k ≡ Variant.tx_ink_price
    → FitsKind k
    → FitsCall Call.tx_ink_price
    → inputs Call.tx_ink_price s.memory ≡ args_of k
    → Returns s (tx_ink_price_body k)
unfolding tx_ink_price_body inputs args_of variant_of
tx_ink_price-Returns (HostioKind.tx_ink_price _) s v f g h = search returns_rules depth 20
tx_ink_price-Returns _ s v f g h = absurd (cc v)

pub msg_reentrant-Returns :
    (k : HostioKind) (s : Replay)
    → variant_of k ≡ Variant.msg_reentrant
    → FitsKind k
    → FitsCall Call.msg_reentrant
    → inputs Call.msg_reentrant s.memory ≡ args_of k
    → Returns s (msg_reentrant_body k)
unfolding msg_reentrant_body inputs args_of variant_of
msg_reentrant-Returns (HostioKind.msg_reentrant _) s v f g h = search returns_rules depth 20
msg_reentrant-Returns _ s v f g h = absurd (cc v)

pub pay_for_memory_grow-Returns :
    (new_pages : ℕ) (k : HostioKind) (s : Replay)
    → variant_of k ≡ Variant.pay_for_memory_grow
    → FitsKind k
    → FitsCall (Call.pay_for_memory_grow new_pages)
    → inputs (Call.pay_for_memory_grow new_pages) s.memory ≡ args_of k
    → Returns s (pay_for_memory_grow_body new_pages k)
unfolding pay_for_memory_grow_body inputs args_of variant_of
pay_for_memory_grow-Returns new_pages (HostioKind.pay_for_memory_grow _) s v f g h =
    let n0 = to_be_bytes_injective 2 new_pages _ g f h in search returns_rules depth 20
pay_for_memory_grow-Returns new_pages _ s v f g h = absurd (cc v)
