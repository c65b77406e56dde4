-- ===== src/Deploy/Deployer.antt =====
-- Deployment through the Stylus deployer (main/src/deploy/deployer.rs), for contracts with a
-- constructor.
pub mod Receipt
use cargo_stylus.Common.{
  ℕ, ◌+◌, ◌%◌, ◌^◌, String, Bool, false, not, ◌&&◌, some, List, [], ◌∷◌, ◌++◌, ◌==◌, length, drop,
  if◌then◌else◌,
}
use cargo_stylus.Common.Outcome
use cargo_stylus.Common.Outcome.{Outcome, ok, err, ◌>>=◌ as ◌>>=ₒ◌}
use cargo_stylus.Common.Bytes.{Bytes, bytes_eq}
use cargo_stylus.Rpc.{Log, Failure, rpc, Provider, Command, ◌>>=◌, pure, lift, ask}
use cargo_stylus.Check.{ContractCheck, code_of, suggest_fee}
use cargo_stylus.Deploy.Calldata.{contract_deployment_calldata}
use cargo_stylus.Deploy.Config.{Constructor, DeployConfig, Env}
use cargo_stylus.Deploy.Transactions.{request, calculate_fee_per_gas, run_tx}

pub record DeployerArgs : Type 0 where
  pub address : Bytes
  pub tx_value : ℕ
  pub tx_calldata : Bytes

-- The sum of two U256 wraps around.
abbrev pub add_u256 : ℕ → ℕ → ℕ
add_u256 a b = (a + b) % 2 ^ 256

-- `get_address_from_receipt`: what is looked for is the first topic of a log.
unfoldable pub is_deployed_log : Bytes → List Bytes → Bool
is_deployed_log hash [] = false
is_deployed_log hash (topic ∷ topics) = bytes_eq topic hash

unfoldable pub get_address_from_receipt : Bytes → List Log → Outcome Failure Bytes
unfolding is_deployed_log
get_address_from_receipt hash [] = err Failure.address_not_found
get_address_from_receipt hash (log ∷ logs) =
    let later = get_address_from_receipt hash logs in
    if is_deployed_log hash log.topics
    then (if length log.bytes == 32
        then ok (drop 12 log.bytes)
        else err Failure.address_missing_from_log)
    else later

module _ (E : Env) where
  coerce_arg : String → String → Outcome Failure Bytes
  coerce_arg arg param = Outcome.ok_or Failure.unresolved_argument (E.resolve param) >>=ₒ λ ty.
      Outcome.ok_or Failure.bad_argument (E.coerce_str ty arg)

  -- The loop over the arguments and the parameters, zipped
  unfoldable pub coerce_args : List String → List String → Outcome Failure (List Bytes)
  unfolding coerce_arg
  coerce_args (arg ∷ args) (param ∷ params) =
      coerce_arg arg param >>=ₒ λ value. coerce_args args params >>=ₒ λ values. ok (value ∷ values)
  coerce_args _ _ = ok []

  unfoldable pub parse_constructor_args :
      DeployConfig → Constructor → ContractCheck → Outcome Failure DeployerArgs
  unfolding coerce_args
  parse_constructor_args cfg constructor contract =
      if not constructor.is_payable && not (cfg.constructor_value == 0)
      then err Failure.not_payable
      else if not (length cfg.constructor_args == length constructor.inputs)
      then err Failure.argument_count
      else (coerce_args cfg.constructor_args constructor.inputs >>=ₒ λ values.
          Outcome.ok_or Failure.bad_encoding (E.encode_input constructor values)
          >>=ₒ λ calldata_args. ok (record {
            address = cfg.deployer_address;
            tx_value = add_u256 (suggest_fee contract) cfg.constructor_value;
            tx_calldata =
                E.encode_deploy (contract_deployment_calldata (code_of contract))
                  (E.constructor_selector ++ calldata_args) cfg.constructor_value cfg.deployer_salt;
          }))

  module _ (P : Provider) where
    unfoldable pub deploy : DeployConfig → DeployerArgs → Bytes → Command (Unit {0})
    unfolding calculate_fee_per_gas run_tx get_address_from_receipt
    deploy cfg deployer sender = do
      let tx = request sender (some deployer.address) deployer.tx_value deployer.tx_calldata
      gas ← ask (rpc "deployment failed during gas estimation") (λ sent. P.estimate_gas sent tx)
      gas_price ← ask (rpc "get_gas_price") P.gas_price
      if cfg.estimate_gas then pure tt else (do
        fee ← lift (calculate_fee_per_gas E cfg gas_price)
        receipt ← run_tx E P tx (some gas) fee
        contract ← lift (get_address_from_receipt E.contract_deployed_hash receipt.logs)
        pure tt)
