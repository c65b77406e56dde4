-- ===== src/Deploy/Command/Plan.antt =====
-- What a deployment sends.
use cargo_stylus.Common.{
  ℕ, ◌≡◌, refl, ◌∙◌, ap, true, false, not, ◌&&◌, Option, none, some, List, [], ◌∷◌, ◌++◌, arith,
}
use mathlib.Core.List.{append-nil}
use cargo_stylus.Common.Outcome.{Outcome, ok}
use cargo_stylus.Common.Bytes.{Bytes}
use cargo_stylus.Rpc.{Tx, Receipt, Failure, Provider, expecting}
use cargo_stylus.Rpc.Keeps.{keeps_rules, bind_ok, expecting_ok}
use cargo_stylus.Rpc.Sends.{
  Sends, Sends-bind, Sends-after, Sends-pure, Sends-bail, Sends-lift, Sends-lifted, Sends-if,
  Sends-send_transaction,
}
use cargo_stylus.Check.{ContractCheck, code_of, suggest_fee, is_ready, check}
use cargo_stylus.Check.Fee.{check-Keeps}
use cargo_stylus.Deploy.Calldata.{contract_deployment_calldata}
use cargo_stylus.Deploy.Config.{Constructor, DeployConfig, Env}
use cargo_stylus.Deploy.Transactions.{request, priced, run_tx, deploy_contract, activate}
use cargo_stylus.Deploy.Deployer
use cargo_stylus.Deploy.Deployer.{DeployerArgs, add_u256, parse_constructor_args}
use cargo_stylus.Deploy.Command.{
  find_constructor, find_deployer_args, check_balance, finish, deploy_with, deploy,
}

-- The transactions of a deployment, for a contract in the state that the check found it in: with a
-- constructor, one to the deployer; without, a creation, and behind it an activation if the
-- contract needs it and the user does not forbid it.
pub data Plan (E : Env) (cfg : DeployConfig) (contract : ContractCheck) : List Tx → Type 0 where
  by_deployer :
      (tx : Tx) (c : Constructor)
      → find_constructor E cfg ≡ ok (some c)
      → tx.to ≡ some cfg.deployer_address
      → tx.value ≡ add_u256 (suggest_fee contract) cfg.constructor_value
      → Plan E cfg contract (tx ∷ [])
  created :
      (tx : Tx)
      → find_constructor E cfg ≡ ok none
      → tx.to ≡ none
      → tx.input ≡ contract_deployment_calldata (code_of contract)
      → (is_ready contract && not cfg.no_activate) ≡ false
      → Plan E cfg contract (tx ∷ [])
  created_and_activated :
      (tx act : Tx)
      → find_constructor E cfg ≡ ok none
      → tx.to ≡ none
      → tx.input ≡ contract_deployment_calldata (code_of contract)
      → (is_ready contract && not cfg.no_activate) ≡ true
      → act.to ≡ some E.arb_wasm_address
      → act.value ≡ add_u256 (suggest_fee contract) cfg.constructor_value
      → Plan E cfg contract (tx ∷ act ∷ [])

module _ (E : Env) (P : Provider) where
  run_tx-Sends :
      (Q : Receipt → List Tx → Type 0) (tx : Tx) (gas : Option ℕ) (fee : ℕ)
      → ((r : Receipt) → Q r (priced tx gas fee ∷ []))
      → Sends (run_tx E P tx gas fee) Q
  unfolding run_tx
  run_tx-Sends Q tx gas fee h =
      Sends-bind Q _ _ _ (Sends-send_transaction P (priced tx gas fee)) (λ u txs e.
        Sends-after _ _ _ (search keeps_rules)
          (λ r. Sends-if _ r.status _ _ (λ t. Sends-pure _ r (rw e (h r))) (λ t. Sends-bail _ _)))

  module _ (cfg : DeployConfig) (h : cfg.estimate_gas ≡ false) where
    deployer_deploy-Sends :
        (Q : Unit {0} → List Tx → Type 0) (args : DeployerArgs) (sender : Bytes)
        → ((tx : Tx) → tx.to ≡ some args.address → tx.value ≡ args.tx_value → Q tt (tx ∷ []))
        → Sends (Deployer.deploy E P cfg args sender) Q
    unfolding Deployer.deploy
    deployer_deploy-Sends Q args sender k = Sends-after _ _ _ (search keeps_rules) (λ gas.
        Sends-after _ _ _ (search keeps_rules) (λ price.
          Sends-if _ cfg.estimate_gas _ _ (λ t. absurd (cc (t, h)))
            (λ t. Sends-after _ _ _ (search keeps_rules) (λ fee.
              Sends-bind _ _ _ _
                (run_tx-Sends (λ r txs. Q tt txs)
                  (request sender (some args.address) args.tx_value args.tx_calldata) (some gas) fee
                  (λ r. k _ refl refl))
                (λ r txs q.
                  Sends-after _ _ _ (search keeps_rules)
                    (λ c. Sends-pure _ tt (rw (append-nil txs) q)))))))

    deploy_contract-Sends :
        (Q : Bytes → List Tx → Type 0) (code sender : Bytes)
        → ((a : Bytes) (tx : Tx)
            → tx.to ≡ none
            → tx.input ≡ contract_deployment_calldata code
            → Q a (tx ∷ []))
        → Sends (deploy_contract E P cfg code sender) Q
    unfolding deploy_contract
    deploy_contract-Sends Q code sender k = Sends-after _ _ _ (search keeps_rules) (λ gas.
        Sends-after _ _ _ (search keeps_rules) (λ price.
          Sends-if _ cfg.estimate_gas _ _ (λ t. absurd (cc (t, h)))
            (λ t. Sends-after _ _ _ (search keeps_rules) (λ fee.
              Sends-bind _ _ _ _
                (run_tx-Sends (λ r txs. (a : Bytes) → Q a txs)
                  (request sender none 0 (contract_deployment_calldata code)) (some gas) fee
                  (λ r a. k a _ refl refl))
                (λ r txs q. Sends-lift _ _ (λ a e. rw (append-nil txs) (q a)))))))

    activate-Sends :
        (Q : Unit {0} → List Tx → Type 0) (sender contract_addr : Bytes) (data_fee : ℕ)
        → ((tx : Tx) → tx.to ≡ some E.arb_wasm_address → tx.value ≡ data_fee → Q tt (tx ∷ []))
        → Sends (activate E P cfg sender contract_addr data_fee) Q
    unfolding activate
    activate-Sends Q sender contract_addr data_fee k =
        let tx =
          request sender (some E.arb_wasm_address) data_fee (E.encode_activate contract_addr) in
        Sends-after _ _ _ (search keeps_rules) (λ gas.
          Sends-after _ _ _ (search keeps_rules) (λ price.
            Sends-after _ _ _ (search keeps_rules) (λ fee.
              Sends-bind _ _ _ _
                (run_tx-Sends (λ r txs. Q tt txs) tx (some gas) fee (λ r. k _ refl refl))
                (λ r txs q. Sends-pure _ tt (rw (append-nil txs) q)))))

    deploy_with-Sends :
        (contract : ContractCheck) (sender : Bytes) (args : Option DeployerArgs)
        → ((a : DeployerArgs)
            → args ≡ some a
            → (a.address ≡ cfg.deployer_address)
              × (a.tx_value ≡ add_u256 (suggest_fee contract) cfg.constructor_value)
              × ((c : Constructor) × (find_constructor E cfg ≡ ok (some c))))
        → (args ≡ none → find_constructor E cfg ≡ ok none)
        → Sends
            (deploy_with E P cfg contract sender
              (add_u256 (suggest_fee contract) cfg.constructor_value)
              args)
            (λ u txs. Plan E cfg contract txs)
    unfolding deploy_with finish
    deploy_with-Sends contract sender (some args) k n =
        let (same_address, same_value, (c, has)) = k args refl in
        deployer_deploy-Sends _ args sender
          (λ tx e v. by_deployer tx c has (e ∙ ap (λ a. some a) same_address) (v ∙ same_value))
    deploy_with-Sends contract sender none k n =
        Sends-bind _ _ _
          (λ a txs.
            (tx : Tx) × (txs ≡ tx ∷ [])
            × (tx.to ≡ none)
            × (tx.input ≡ contract_deployment_calldata (code_of contract)))
          (deploy_contract-Sends _ (code_of contract) sender (λ a tx t i. (tx, refl, t, i)))
          (λ a txs (tx, e, t, i).
            Sends-if _ cfg.estimate_gas _ _ (λ x. absurd (cc (x, h)))
              (λ x.
                Sends-if _ (is_ready contract && not cfg.no_activate) _ _
                  (λ y.
                    activate-Sends _ sender a _
                      (λ act t' v. rw e (created_and_activated tx act (n refl) t i y t' v)))
                  (λ y. Sends-pure _ tt (rw e (created tx (n refl) t i y)))))

  parse_constructor_args-same :
      (cfg : DeployConfig) (c : Constructor) (contract : ContractCheck) (a : DeployerArgs)
      → parse_constructor_args E cfg c contract ≡ ok a
      → (a.address ≡ cfg.deployer_address)
        × (a.tx_value ≡ add_u256 (suggest_fee contract) cfg.constructor_value)
  unfolding parse_constructor_args
  parse_constructor_args-same cfg c contract a h = (ground arith, ground arith)

  find_deployer_args-same :
      (cfg : DeployConfig) (contract : ContractCheck) (o : Option Constructor)
      (found : Option DeployerArgs) (a : DeployerArgs)
      → find_deployer_args E cfg contract o ≡ ok found
      → found ≡ some a
      → (a.address ≡ cfg.deployer_address)
        × (a.tx_value ≡ add_u256 (suggest_fee contract) cfg.constructor_value)
  unfolding find_deployer_args
  find_deployer_args-same cfg contract none found a h e = absurd (ground arith)
  find_deployer_args-same cfg contract (some c) found a h e =
      parse_constructor_args-same cfg c contract a (ground arith)

  find_deployer_args-some :
      (cfg : DeployConfig) (contract : ContractCheck) (o : Option Constructor)
      (found : Option DeployerArgs) (a : DeployerArgs)
      → find_deployer_args E cfg contract o ≡ ok found
      → found ≡ some a
      → (c : Constructor) × (o ≡ some c)
  unfolding find_deployer_args
  find_deployer_args-some cfg contract none found a h e = absurd (ground arith)
  find_deployer_args-some cfg contract (some c) found a h e = (c, refl)

  find_deployer_args-none :
      (cfg : DeployConfig) (contract : ContractCheck) (o : Option Constructor)
      (found : Option DeployerArgs)
      → find_deployer_args E cfg contract o ≡ ok found
      → found ≡ none
      → o ≡ none
  unfolding find_deployer_args
  find_deployer_args-none cfg contract none found h e = refl
  find_deployer_args-none cfg contract (some c) found h e = absurd (ground arith)

  -- A deployment that succeeds without `--estimate-gas` has found the contract's state by a check
  -- that sent nothing, and has sent the transactions that are planned for it and no others: with a
  -- constructor, one to the deployer with the data fee and the constructor's value; without one, a
  -- creation with the contract's init code, followed by an activation with that value exactly when
  -- the contract is not active and the user does not forbid it.
  pub deploy-Plan :
      (cfg : DeployConfig) (compressed : Outcome Failure Bytes) (sent after : List Tx)
      → cfg.estimate_gas ≡ false
      → ◌≡◌ {A = Outcome Failure (Unit {0}) × List Tx}
          (deploy E P cfg compressed sent)
          (ok tt, after)
      → (contract : ContractCheck) × (txs : List Tx) × ◌≡◌
          {A = Outcome Failure ContractCheck × List Tx}
          (check P E.keccak256 cfg.check_config compressed sent)
          (ok contract, sent)
        × (after ≡ sent ++ txs)
        × Plan E cfg contract txs
  unfolding deploy check_balance
  deploy-Plan cfg compressed sent after h e =
      let checked = check P E.keccak256 cfg.check_config compressed in
      let (contract, between, e1, e2) = bind_ok (expecting checked) _ sent tt after e in
      let e3 = expecting_ok checked sent contract between e1 in
      let same : between ≡ sent =
        cc (e3, (check-Keeps P E.keccak256 cfg.check_config compressed).at sent) in
      let Q : Unit {0} → List Tx → Type 0 = λ u txs. Plan E cfg contract txs in
      let s = Sends-lifted Q _ _ (λ constructor known. Sends-lifted Q _ _ (λ args found.
        Sends-after Q _ _ (search keeps_rules) (λ chain.
          Sends-after Q _ _ (search keeps_rules) (λ sender.
            Sends-after Q _ _ (search keeps_rules) (λ u.
              deploy_with-Sends cfg h contract sender args
                (λ a is.
                  let (x, y) = find_deployer_args-same cfg contract constructor args a found is in
                  let (c, e) = find_deployer_args-some cfg contract constructor args a found is in
                  (x, y, (c, known ∙ ap (λ o. ok o) e)))
                (λ is.
                  known
                  ∙ ap (λ o. ok o)
                      (find_deployer_args-none cfg contract constructor args found is))))))) in
      let (txs, split, plan) = s.at between tt after e2 in
      (contract, txs, rw same at e3, split ∙ ap (λ l. l ++ txs) same, plan)
