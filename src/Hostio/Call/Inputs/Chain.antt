-- ===== src/Hostio/Call/Inputs/Chain.antt =====
-- The bodies of Hostio/Chain: where they return, the guest's arguments are those of the trace.
use cargo_stylus.Common.{ℕ, ◌≡◌}
use cargo_stylus.Trace.Kinds.{HostioKind}
use cargo_stylus.Trace.Print.{args_of}
use cargo_stylus.Hostio.State.{Replay}
use cargo_stylus.Hostio.State.Ensures.{Ensures, Ensures-unreachable, ensures_rules}
use cargo_stylus.Hostio.Chain.{
  block_basefee_body, tx_gas_price_body, block_coinbase_body, contract_address_body,
  msg_sender_body, msg_value_body, tx_origin_body, block_gas_limit_body, block_number_body,
  block_timestamp_body, chainid_body, evm_gas_left_body, evm_ink_left_body, return_data_size_body,
  tx_ink_price_body, msg_reentrant_body, pay_for_memory_grow_body,
}
use cargo_stylus.Hostio.Call.{Call, inputs}

pub block_basefee-inputs :
    (dest : ℕ) (k : HostioKind) (s : Replay)
    → Ensures s
        (λ q. inputs (Call.block_basefee dest) s.memory ≡ args_of k)
        (block_basefee_body dest k)
unfolding block_basefee_body inputs args_of
block_basefee-inputs dest (HostioKind.block_basefee _) s = search ensures_rules depth 20
block_basefee-inputs dest _ s = Ensures-unreachable s _

pub tx_gas_price-inputs :
    (dest : ℕ) (k : HostioKind) (s : Replay)
    → Ensures s
        (λ q. inputs (Call.tx_gas_price dest) s.memory ≡ args_of k)
        (tx_gas_price_body dest k)
unfolding tx_gas_price_body inputs args_of
tx_gas_price-inputs dest (HostioKind.tx_gas_price _) s = search ensures_rules depth 20
tx_gas_price-inputs dest _ s = Ensures-unreachable s _

pub block_coinbase-inputs :
    (dest : ℕ) (k : HostioKind) (s : Replay)
    → Ensures s
        (λ q. inputs (Call.block_coinbase dest) s.memory ≡ args_of k)
        (block_coinbase_body dest k)
unfolding block_coinbase_body inputs args_of
block_coinbase-inputs dest (HostioKind.block_coinbase _) s = search ensures_rules depth 20
block_coinbase-inputs dest _ s = Ensures-unreachable s _

pub contract_address-inputs :
    (dest : ℕ) (k : HostioKind) (s : Replay)
    → Ensures s
        (λ q. inputs (Call.contract_address dest) s.memory ≡ args_of k)
        (contract_address_body dest k)
unfolding contract_address_body inputs args_of
contract_address-inputs dest (HostioKind.contract_address _) s = search ensures_rules depth 20
contract_address-inputs dest _ s = Ensures-unreachable s _

pub msg_sender-inputs :
    (dest : ℕ) (k : HostioKind) (s : Replay)
    → Ensures s (λ q. inputs (Call.msg_sender dest) s.memory ≡ args_of k) (msg_sender_body dest k)
unfolding msg_sender_body inputs args_of
msg_sender-inputs dest (HostioKind.msg_sender _) s = search ensures_rules depth 20
msg_sender-inputs dest _ s = Ensures-unreachable s _

pub msg_value-inputs :
    (dest : ℕ) (k : HostioKind) (s : Replay)
    → Ensures s (λ q. inputs (Call.msg_value dest) s.memory ≡ args_of k) (msg_value_body dest k)
unfolding msg_value_body inputs args_of
msg_value-inputs dest (HostioKind.msg_value _) s = search ensures_rules depth 20
msg_value-inputs dest _ s = Ensures-unreachable s _

pub tx_origin-inputs :
    (dest : ℕ) (k : HostioKind) (s : Replay)
    → Ensures s (λ q. inputs (Call.tx_origin dest) s.memory ≡ args_of k) (tx_origin_body dest k)
unfolding tx_origin_body inputs args_of
tx_origin-inputs dest (HostioKind.tx_origin _) s = search ensures_rules depth 20
tx_origin-inputs dest _ s = Ensures-unreachable s _

pub block_gas_limit-inputs :
    (k : HostioKind) (s : Replay)
    → Ensures s (λ q. inputs Call.block_gas_limit s.memory ≡ args_of k) (block_gas_limit_body k)
unfolding block_gas_limit_body inputs args_of
block_gas_limit-inputs (HostioKind.block_gas_limit _) s = search ensures_rules depth 20
block_gas_limit-inputs _ s = Ensures-unreachable s _

pub block_number-inputs :
    (k : HostioKind) (s : Replay)
    → Ensures s (λ q. inputs Call.block_number s.memory ≡ args_of k) (block_number_body k)
unfolding block_number_body inputs args_of
block_number-inputs (HostioKind.block_number _) s = search ensures_rules depth 20
block_number-inputs _ s = Ensures-unreachable s _

pub block_timestamp-inputs :
    (k : HostioKind) (s : Replay)
    → Ensures s (λ q. inputs Call.block_timestamp s.memory ≡ args_of k) (block_timestamp_body k)
unfolding block_timestamp_body inputs args_of
block_timestamp-inputs (HostioKind.block_timestamp _) s = search ensures_rules depth 20
block_timestamp-inputs _ s = Ensures-unreachable s _

pub chainid-inputs :
    (k : HostioKind) (s : Replay)
    → Ensures s (λ q. inputs Call.chainid s.memory ≡ args_of k) (chainid_body k)
unfolding chainid_body inputs args_of
chainid-inputs (HostioKind.chainid _) s = search ensures_rules depth 20
chainid-inputs _ s = Ensures-unreachable s _

pub evm_gas_left-inputs :
    (k : HostioKind) (s : Replay)
    → Ensures s (λ q. inputs Call.evm_gas_left s.memory ≡ args_of k) (evm_gas_left_body k)
unfolding evm_gas_left_body inputs args_of
evm_gas_left-inputs (HostioKind.evm_gas_left _) s = search ensures_rules depth 20
evm_gas_left-inputs _ s = Ensures-unreachable s _

pub evm_ink_left-inputs :
    (k : HostioKind) (s : Replay)
    → Ensures s (λ q. inputs Call.evm_ink_left s.memory ≡ args_of k) (evm_ink_left_body k)
unfolding evm_ink_left_body inputs args_of
evm_ink_left-inputs (HostioKind.evm_ink_left _) s = search ensures_rules depth 20
evm_ink_left-inputs _ s = Ensures-unreachable s _

pub return_data_size-inputs :
    (k : HostioKind) (s : Replay)
    → Ensures s (λ q. inputs Call.return_data_size s.memory ≡ args_of k) (return_data_size_body k)
unfolding return_data_size_body inputs args_of
return_data_size-inputs (HostioKind.return_data_size _) s = search ensures_rules depth 20
return_data_size-inputs _ s = Ensures-unreachable s _

pub tx_ink_price-inputs :
    (k : HostioKind) (s : Replay)
    → Ensures s (λ q. inputs Call.tx_ink_price s.memory ≡ args_of k) (tx_ink_price_body k)
unfolding tx_ink_price_body inputs args_of
tx_ink_price-inputs (HostioKind.tx_ink_price _) s = search ensures_rules depth 20
tx_ink_price-inputs _ s = Ensures-unreachable s _

pub msg_reentrant-inputs :
    (k : HostioKind) (s : Replay)
    → Ensures s (λ q. inputs Call.msg_reentrant s.memory ≡ args_of k) (msg_reentrant_body k)
unfolding msg_reentrant_body inputs args_of
msg_reentrant-inputs (HostioKind.msg_reentrant _) s = search ensures_rules depth 20
msg_reentrant-inputs _ s = Ensures-unreachable s _

pub pay_for_memory_grow-inputs :
    (new_pages : ℕ) (k : HostioKind) (s : Replay)
    → Ensures s
        (λ q. inputs (Call.pay_for_memory_grow new_pages) s.memory ≡ args_of k)
        (pay_for_memory_grow_body new_pages k)
unfolding pay_for_memory_grow_body inputs args_of
pay_for_memory_grow-inputs new_pages (HostioKind.pay_for_memory_grow _) s =
    search ensures_rules depth 20
pay_for_memory_grow-inputs new_pages _ s = Ensures-unreachable s _
