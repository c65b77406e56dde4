-- ===== src/Deploy/Transactions.antt =====
-- The transactions that a deployment sends (main/src/deploy/mod.rs).
use cargo_stylus.Common.{ℕ, Option, none, some, if◌then◌else◌}
use cargo_stylus.Common.Outcome
use cargo_stylus.Common.Outcome.{Outcome, ok, err}
use cargo_stylus.Common.Bytes.{Bytes}
use cargo_stylus.Rpc.{
  Tx, Receipt, Failure, rpc, Provider, Command, ◌>>=◌, ◌>>◌, pure, bail, lift, ask,
  send_transaction,
}
use cargo_stylus.Deploy.Calldata.{contract_deployment_calldata}
use cargo_stylus.Deploy.Config.{DeployConfig, Env}

-- `TransactionRequest` before `run_tx` sets the gas
abbrev pub request : Bytes → Option Bytes → ℕ → Bytes → Tx
request sender to value input = record {
  sender = sender;
  to = to;
  value = value;
  input = input;
  gas = none;
  max_fee_per_gas = none;
  max_priority_fee_per_gas = none;
}

abbrev pub or_keep : Option ℕ → Option ℕ → Option ℕ
or_keep none old = old
or_keep (some gas) old = some gas

-- What `run_tx` sends.
abbrev pub priced : Tx → Option ℕ → ℕ → Tx
priced tx gas fee = record tx {
  gas = or_keep gas tx.gas;
  max_fee_per_gas = some fee;
  max_priority_fee_per_gas = some 0;
}

module _ (E : Env) where
  -- `get_max_fee_per_gas_wei`
  get_max_fee_per_gas_wei : DeployConfig → Outcome Failure (Option ℕ)
  get_max_fee_per_gas_wei cfg = elim cfg.max_fee_per_gas_gwei [
    | none ↦ ok none
    | some text ↦ elim (E.convert_gwei_to_wei text) [
      | none ↦ err Failure.bad_max_fee
      | some wei ↦ ok (some wei)
    ]
  ]

  abbrev or_price : ℕ → Option ℕ → ℕ
  or_price gas_price none = gas_price
  or_price gas_price (some wei) = wei

  unfoldable pub calculate_fee_per_gas : DeployConfig → ℕ → Outcome Failure ℕ
  unfolding get_max_fee_per_gas_wei
  calculate_fee_per_gas cfg gas_price =
      Outcome.◌>>=◌ (get_max_fee_per_gas_wei cfg) (λ wei. ok (or_price gas_price wei))

  module _ (P : Provider) where
    unfoldable pub run_tx : Tx → Option ℕ → ℕ → Command Receipt
    run_tx tx gas fee = do
      send_transaction P (priced tx gas fee)
      receipt ← ask Failure.not_completed P.receipt
      if receipt.status then pure receipt else bail Failure.reverted

    unfoldable pub deploy_contract : DeployConfig → Bytes → Bytes → Command Bytes
    unfolding calculate_fee_per_gas run_tx
    deploy_contract cfg code sender = do
      let tx = request sender none 0 (contract_deployment_calldata code)
      gas ← ask (rpc "estimate_gas") (λ sent. P.estimate_gas sent tx)
      gas_price ← ask (rpc "get_gas_price") P.gas_price
      if cfg.estimate_gas
          then (do
            nonce ← ask (rpc "get_transaction_count") (λ sent. P.transaction_count sent sender)
            pure (E.create_address sender nonce))
          else (do
            fee ← lift (calculate_fee_per_gas cfg gas_price)
            receipt ← run_tx tx (some gas) fee
            lift (Outcome.ok_or Failure.missing_address receipt.contract_address))

    unfoldable pub activate : DeployConfig → Bytes → Bytes → ℕ → Command (Unit {0})
    unfolding calculate_fee_per_gas run_tx
    activate cfg sender contract_addr data_fee = do
      let tx = request sender (some E.arb_wasm_address) data_fee (E.encode_activate contract_addr)
      gas ← ask (rpc "did not estimate correctly") (λ sent. P.estimate_gas sent tx)
      gas_price ← ask (rpc "get_gas_price") P.gas_price
      fee ← lift (calculate_fee_per_gas cfg gas_price)
      receipt ← run_tx tx (some gas) fee
      pure tt
