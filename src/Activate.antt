-- ===== src/Activate.antt =====
-- `cargo stylus activate` (main/src/activate.rs).
pub mod Sent
use cargo_stylus.Common.{ℕ, Bool, true, false, Option, none, some, if◌then◌else◌}
use cargo_stylus.Common.Outcome
use cargo_stylus.Common.Bytes.{Bytes}
use cargo_stylus.Rpc.{
  Tx, Failure, rpc, Provider, Command, ◌>>=◌, ◌>>◌, pure, lift, ask, send_transaction,
}
use cargo_stylus.Check.{check_activate}
use cargo_stylus.Deploy.Config.{Env}
use cargo_stylus.Deploy.Transactions.{request}

pub record ActivateConfig : Type 0 where
  pub address : Bytes
  pub data_fee_bump_percent : ℕ
  pub estimate_gas : Bool

module _ (E : Env) (P : Provider) where
  -- The questions that are asked for the estimate, whose answers are only printed
  unfoldable pub print_estimate : ActivateConfig → Tx → Command (Unit {0})
  print_estimate cfg tx =
      if cfg.estimate_gas
      then (do
        gas ← ask (rpc "estimate_gas") (λ sent. P.estimate_gas sent tx)
        gas_price ← ask (rpc "get_gas_price") P.gas_price
        pure tt)
      else pure tt

  -- The status of the receipt is not looked at.
  unfoldable pub activate_contract : ActivateConfig → Command (Unit {0})
  unfolding print_estimate
  activate_contract cfg = do
    chain_id ← ask (rpc "get_chain_id") P.chain_id
    sender ← lift (Outcome.ok_or Failure.no_wallet (E.wallet chain_id))
    code ← ask (rpc "get_code_at") (λ sent. P.code_at sent cfg.address)
    data_fee ← check_activate P E.keccak256 code cfg.address cfg.data_fee_bump_percent
    print_estimate cfg
        (request sender (some E.arb_wasm_address) data_fee (E.encode_activate cfg.address))
    send_transaction P
        (request sender (some E.arb_wasm_address) data_fee (E.encode_activate cfg.address))
    receipt ← ask Failure.not_completed P.receipt
    pure tt
