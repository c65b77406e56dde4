-- ===== src/Deploy/Command.antt =====
-- `deploy` itself (main/src/deploy/mod.rs).
pub mod Estimate
pub mod Plan
use cargo_stylus.Common.{
  ℕ, String, Bool, true, false, not, ◌&&◌, Option, none, some, List, [], ◌∷◌, ltb, if◌then◌else◌,
}
use cargo_stylus.Common.Outcome
use cargo_stylus.Common.Outcome.{Outcome, ok, err}
use cargo_stylus.Common.Bytes.{Bytes}
use cargo_stylus.Rpc.{
  Tx, Failure, rpc, Provider, Command, ◌>>=◌, ◌>>◌, pure, bail, lift, ask, expect, expecting,
}
use cargo_stylus.Check.{ContractCheck, code_of, suggest_fee, is_ready, check}
use cargo_stylus.Deploy.Config.{Constructor, DeployConfig, Env}
use cargo_stylus.Deploy.Transactions.{deploy_contract, activate}
use cargo_stylus.Deploy.Deployer
use cargo_stylus.Deploy.Deployer.{DeployerArgs, add_u256, parse_constructor_args}

abbrev pub is_some : {A : Type 0} → Option A → Bool
is_some none = false
is_some (some a) = true

abbrev pub is_empty : {A : Type 0} → List A → Bool
is_empty [] = true
is_empty (a ∷ rest) = false

module _ (E : Env) where
  -- The constructor: of the signature given with a wasm file, or of the project.
  named_constructor : Option String → Outcome Failure (Option Constructor)
  named_constructor none = ok none
  named_constructor (some signature) = elim (E.parse_constructor signature) [
    | none ↦ err Failure.bad_signature
    | some c ↦ ok (some c)
  ]

  unfoldable pub find_constructor : DeployConfig → Outcome Failure (Option Constructor)
  unfolding named_constructor
  find_constructor cfg =
      if cfg.has_wasm_file
      then named_constructor cfg.constructor_signature
      else if is_some cfg.constructor_signature
      then err Failure.signature_without_wasm_file
      else E.get_constructor_signature

  unfoldable pub find_deployer_args :
      DeployConfig → ContractCheck → Option Constructor → Outcome Failure (Option DeployerArgs)
  find_deployer_args cfg contract none =
      if not (is_empty cfg.constructor_args)
      then err Failure.arguments_without_constructor
      else ok none
  find_deployer_args cfg contract (some c) =
      Outcome.◌>>=◌ (parse_constructor_args E cfg c contract) (λ args. ok (some args))

  module _ (P : Provider) where
    -- The early check of the balance
    unfoldable pub check_balance : DeployConfig → ContractCheck → Bytes → ℕ → Command (Unit {0})
    check_balance cfg contract sender data_fee =
        if is_ready contract
        then (do
          balance ← expect (λ sent. P.balance sent sender)
          if ltb balance data_fee && not cfg.estimate_gas
              then bail Failure.not_enough_funds
              else pure tt)
        else pure tt

    -- What follows the deployment without a constructor
    unfoldable pub finish : DeployConfig → ContractCheck → Bytes → Bytes → ℕ → Command (Unit {0})
    finish cfg contract sender contract_addr data_fee =
        if cfg.estimate_gas
        then pure tt
        else if is_ready contract && not cfg.no_activate
        then activate E P cfg sender contract_addr data_fee
        else pure tt

    unfoldable pub deploy_with :
        DeployConfig → ContractCheck → Bytes → ℕ → Option DeployerArgs → Command (Unit {0})
    unfolding finish
    deploy_with cfg contract sender data_fee (some args) = Deployer.deploy E P cfg args sender
    deploy_with cfg contract sender data_fee none = do
      contract_addr ← deploy_contract E P cfg (code_of contract) sender
      finish cfg contract sender contract_addr data_fee

    unfoldable pub deploy : DeployConfig → Outcome Failure Bytes → Command (Unit {0})
    unfolding find_constructor find_deployer_args check_balance deploy_with
    deploy cfg compressed = do
      contract ← expecting (check P E.keccak256 cfg.check_config compressed)
      constructor ← lift (find_constructor cfg)
      deployer_args ← lift (find_deployer_args cfg contract constructor)
      chain_id ← ask (rpc "get_chain_id") P.chain_id
      sender ← lift (Outcome.ok_or Failure.no_wallet (E.wallet chain_id))
      let data_fee = add_u256 (suggest_fee contract) cfg.constructor_value
      check_balance cfg contract sender data_fee
      deploy_with cfg contract sender data_fee deployer_args
