-- ===== src/Hostio/Chain.antt =====
-- The host functions of main/src/hostio.rs for the block, the transaction, the message and the ink.
use cargo_stylus.Common.{ℕ, Bool}
use cargo_stylus.Common.Bytes.{to_be_bytes}
use cargo_stylus.Trace.Kinds.{HostioKind}
use cargo_stylus.Trace.Names.{Names}
use cargo_stylus.Hostio.State.{Host, ◌>>=◌, return, unreachable, assert_eq, copy, frame}

-- What follows the call of `next_hostio`: the match on the kind, the comparisons and the copies.
unfoldable pub block_basefee_body : ℕ → HostioKind → Host (Unit {0})
block_basefee_body dest (HostioKind.block_basefee basefee) = do copy (to_be_bytes 32 basefee) dest
block_basefee_body _ _ = unreachable

unfoldable pub tx_gas_price_body : ℕ → HostioKind → Host (Unit {0})
tx_gas_price_body dest (HostioKind.tx_gas_price gas_price) = do copy (to_be_bytes 32 gas_price) dest
tx_gas_price_body _ _ = unreachable

unfoldable pub block_coinbase_body : ℕ → HostioKind → Host (Unit {0})
block_coinbase_body dest (HostioKind.block_coinbase coinbase) = do copy coinbase dest
block_coinbase_body _ _ = unreachable

unfoldable pub contract_address_body : ℕ → HostioKind → Host (Unit {0})
contract_address_body dest (HostioKind.contract_address address) = do copy address dest
contract_address_body _ _ = unreachable

unfoldable pub msg_sender_body : ℕ → HostioKind → Host (Unit {0})
msg_sender_body dest (HostioKind.msg_sender sender) = do copy sender dest
msg_sender_body _ _ = unreachable

unfoldable pub msg_value_body : ℕ → HostioKind → Host (Unit {0})
msg_value_body dest (HostioKind.msg_value value) = do copy value dest
msg_value_body _ _ = unreachable

unfoldable pub tx_origin_body : ℕ → HostioKind → Host (Unit {0})
tx_origin_body dest (HostioKind.tx_origin origin) = do copy origin dest
tx_origin_body _ _ = unreachable

unfoldable pub block_gas_limit_body : HostioKind → Host ℕ
block_gas_limit_body (HostioKind.block_gas_limit limit) = do return limit
block_gas_limit_body _ = unreachable

unfoldable pub block_number_body : HostioKind → Host ℕ
block_number_body (HostioKind.block_number number) = do return number
block_number_body _ = unreachable

unfoldable pub block_timestamp_body : HostioKind → Host ℕ
block_timestamp_body (HostioKind.block_timestamp timestamp) = do return timestamp
block_timestamp_body _ = unreachable

unfoldable pub chainid_body : HostioKind → Host ℕ
chainid_body (HostioKind.chainid id) = do return id
chainid_body _ = unreachable

unfoldable pub evm_gas_left_body : HostioKind → Host ℕ
evm_gas_left_body (HostioKind.evm_gas_left gas_left) = do return gas_left
evm_gas_left_body _ = unreachable

unfoldable pub evm_ink_left_body : HostioKind → Host ℕ
evm_ink_left_body (HostioKind.evm_ink_left ink_left) = do return ink_left
evm_ink_left_body _ = unreachable

unfoldable pub return_data_size_body : HostioKind → Host ℕ
return_data_size_body (HostioKind.return_data_size size) = do return size
return_data_size_body _ = unreachable

unfoldable pub tx_ink_price_body : HostioKind → Host ℕ
tx_ink_price_body (HostioKind.tx_ink_price ink_price) = do return ink_price
tx_ink_price_body _ = unreachable

unfoldable pub msg_reentrant_body : HostioKind → Host Bool
msg_reentrant_body (HostioKind.msg_reentrant reentrant) = do return reentrant
msg_reentrant_body _ = unreachable

unfoldable pub pay_for_memory_grow_body : ℕ → HostioKind → Host (Unit {0})
pay_for_memory_grow_body new_pages (HostioKind.pay_for_memory_grow pages) = do
  assert_eq new_pages pages
pay_for_memory_grow_body _ _ = unreachable

module _ (N : Names) where
  unfoldable pub block_basefee : ℕ → Host (Unit {0})
  unfolding block_basefee_body
  block_basefee dest = do kind ← frame N "block_basefee"; block_basefee_body dest kind

  unfoldable pub tx_gas_price : ℕ → Host (Unit {0})
  unfolding tx_gas_price_body
  tx_gas_price dest = do kind ← frame N "tx_gas_price"; tx_gas_price_body dest kind

  unfoldable pub block_coinbase : ℕ → Host (Unit {0})
  unfolding block_coinbase_body
  block_coinbase dest = do kind ← frame N "block_coinbase"; block_coinbase_body dest kind

  unfoldable pub contract_address : ℕ → Host (Unit {0})
  unfolding contract_address_body
  contract_address dest = do kind ← frame N "contract_address"; contract_address_body dest kind

  unfoldable pub msg_sender : ℕ → Host (Unit {0})
  unfolding msg_sender_body
  msg_sender dest = do kind ← frame N "msg_sender"; msg_sender_body dest kind

  unfoldable pub msg_value : ℕ → Host (Unit {0})
  unfolding msg_value_body
  msg_value dest = do kind ← frame N "msg_value"; msg_value_body dest kind

  unfoldable pub tx_origin : ℕ → Host (Unit {0})
  unfolding tx_origin_body
  tx_origin dest = do kind ← frame N "tx_origin"; tx_origin_body dest kind

  unfoldable pub block_gas_limit : Host ℕ
  unfolding block_gas_limit_body
  block_gas_limit = do kind ← frame N "block_gas_limit"; block_gas_limit_body kind

  unfoldable pub block_number : Host ℕ
  unfolding block_number_body
  block_number = do kind ← frame N "block_number"; block_number_body kind

  unfoldable pub block_timestamp : Host ℕ
  unfolding block_timestamp_body
  block_timestamp = do kind ← frame N "block_timestamp"; block_timestamp_body kind

  unfoldable pub chainid : Host ℕ
  unfolding chainid_body
  chainid = do kind ← frame N "chainid"; chainid_body kind

  unfoldable pub evm_gas_left : Host ℕ
  unfolding evm_gas_left_body
  evm_gas_left = do kind ← frame N "evm_gas_left"; evm_gas_left_body kind

  unfoldable pub evm_ink_left : Host ℕ
  unfolding evm_ink_left_body
  evm_ink_left = do kind ← frame N "evm_ink_left"; evm_ink_left_body kind

  unfoldable pub return_data_size : Host ℕ
  unfolding return_data_size_body
  return_data_size = do kind ← frame N "return_data_size"; return_data_size_body kind

  unfoldable pub tx_ink_price : Host ℕ
  unfolding tx_ink_price_body
  tx_ink_price = do kind ← frame N "tx_ink_price"; tx_ink_price_body kind

  unfoldable pub msg_reentrant : Host Bool
  unfolding msg_reentrant_body
  msg_reentrant = do kind ← frame N "msg_reentrant"; msg_reentrant_body kind

  unfoldable pub pay_for_memory_grow : ℕ → Host (Unit {0})
  unfolding pay_for_memory_grow_body
  pay_for_memory_grow new_pages = do
    kind ← frame N "pay_for_memory_grow"
    pay_for_memory_grow_body new_pages kind
