-- ===== src/Deploy/Command/Estimate.antt =====
-- A deployment that only estimates.
use cargo_stylus.Common.{ℕ, ◌≡◌, true, Option, none, some, List}
use cargo_stylus.Common.Outcome.{Outcome}
use cargo_stylus.Common.Bytes.{Bytes}
use cargo_stylus.Rpc.{Tx, Failure, Provider}
use cargo_stylus.Rpc.Keeps.{Keeps, Keeps-bind, Keeps-if_true, keeps_rules}
use cargo_stylus.Check.{ContractCheck, code_of}
use cargo_stylus.Check.Fee.{check-Keeps}
use cargo_stylus.Deploy.Config.{DeployConfig, Env}
use cargo_stylus.Deploy.Transactions.{deploy_contract}
use cargo_stylus.Deploy.Deployer
use cargo_stylus.Deploy.Deployer.{DeployerArgs, add_u256, parse_constructor_args}
use cargo_stylus.Deploy.Command.{check_balance, finish, deploy_with, deploy}

module _ (E : Env) (P : Provider) where
  module _ (cfg : DeployConfig) (h : cfg.estimate_gas ≡ true) where
    deployer_deploy-Keeps :
        (args : DeployerArgs) (sender : Bytes) → Keeps (Deployer.deploy E P cfg args sender)
    unfolding Deployer.deploy
    deployer_deploy-Keeps args sender = Keeps-bind _ _ (search keeps_rules) (λ gas.
        Keeps-bind _ _ (search keeps_rules)
          (λ price. Keeps-if_true cfg.estimate_gas _ _ h (search keeps_rules)))

    deploy_contract-Keeps : (code sender : Bytes) → Keeps (deploy_contract E P cfg code sender)
    unfolding deploy_contract
    deploy_contract-Keeps code sender = Keeps-bind _ _ (search keeps_rules) (λ gas.
        Keeps-bind _ _ (search keeps_rules)
          (λ price. Keeps-if_true cfg.estimate_gas _ _ h (search keeps_rules)))

    check_balance-Keeps :
        (contract : ContractCheck) (sender : Bytes) (fee : ℕ)
        → Keeps (check_balance E P cfg contract sender fee)
    unfolding check_balance
    check_balance-Keeps contract sender fee = search keeps_rules depth 20

    deploy_with-Keeps :
        (contract : ContractCheck) (sender : Bytes) (fee : ℕ) (args : Option DeployerArgs)
        → Keeps (deploy_with E P cfg contract sender fee args)
    unfolding deploy_with finish
    deploy_with-Keeps contract sender fee (some args) = deployer_deploy-Keeps args sender
    deploy_with-Keeps contract sender fee none =
        Keeps-bind _ _ (deploy_contract-Keeps (code_of contract) sender)
          (λ a. Keeps-if_true cfg.estimate_gas _ _ h (search keeps_rules))

  -- With `--estimate-gas`, a deployment sends nothing, whether it succeeds, fails or panics.
  pub deploy-Keeps :
      (cfg : DeployConfig) (compressed : Outcome Failure Bytes) (sent : List Tx)
      → cfg.estimate_gas ≡ true
      → (deploy E P cfg compressed sent).1 ≡ sent
  unfolding deploy
  deploy-Keeps cfg compressed sent h =
      let keeps : Keeps (deploy E P cfg compressed) =
        search (keeps_rules, check-Keeps, check_balance-Keeps cfg h, deploy_with-Keeps cfg h) depth
          20 in
      keeps.at sent
