-- ===== src/Activate/Sent.antt =====
-- What the activation sends.
use cargo_stylus.Common.{◌≡◌, refl, ap, ◌∙◌, some, List, [], ◌∷◌, ◌++◌}
use mathlib.Core.List.{append-nil}
use cargo_stylus.Common.Outcome.{Outcome, ok}
use cargo_stylus.Rpc.{Tx, Failure, Provider}
use cargo_stylus.Rpc.Keeps.{keeps_rules}
use cargo_stylus.Rpc.Sends.{Sends, Sends-bind, Sends-after, Sends-pure, Sends-send_transaction}
use cargo_stylus.Check.{check_activate}
use cargo_stylus.Deploy.Config.{Env}
use cargo_stylus.Activate.{ActivateConfig, print_estimate, activate_contract}

module _ (E : Env) (P : Provider) where
  abbrev IsActivation : ActivateConfig → List Tx → Type 0
  IsActivation cfg txs =
      (tx : Tx) × (txs ≡ tx ∷ [])
      × (tx.to ≡ some E.arb_wasm_address)
      × (tx.input ≡ E.encode_activate cfg.address)

  activate_contract-Sends :
      (cfg : ActivateConfig) → Sends (activate_contract E P cfg) (λ u txs. IsActivation cfg txs)
  unfolding activate_contract print_estimate check_activate
  activate_contract-Sends cfg =
      let Q : Unit {0} → List Tx → Type 0 = λ u txs. IsActivation cfg txs in
      Sends-after Q _ _ (search keeps_rules) (λ chain.
        Sends-after Q _ _ (search keeps_rules) (λ sender.
          Sends-after Q _ _ (search keeps_rules) (λ code.
            Sends-after Q _ _ (search keeps_rules) (λ fee.
              Sends-after Q _ _ (search keeps_rules depth 20) (λ u.
                Sends-bind Q _ _ _ (Sends-send_transaction P _) (λ u txs e.
                  Sends-after _ _ _ (search keeps_rules)
                    (λ r. Sends-pure _ tt (_, append-nil txs ∙ e, refl, refl))))))))

  -- Whether or not the gas is to be estimated only, an activation that succeeds has sent one
  -- transaction, which activates the contract at the given address.
  pub activate_contract-sent :
      (cfg : ActivateConfig) (sent after : List Tx)
      → ◌≡◌ {A = Outcome Failure (Unit {0}) × List Tx}
          (activate_contract E P cfg sent)
          (ok tt, after)
      → (tx : Tx) × (after ≡ sent ++ tx ∷ [])
        × (tx.to ≡ some E.arb_wasm_address)
        × (tx.input ≡ E.encode_activate cfg.address)
  activate_contract-sent cfg sent after h =
      let (txs, split, (tx, e, t, i)) = (activate_contract-Sends cfg).at sent tt after h in
      (tx, split ∙ ap (λ l. sent ++ l) e, t, i)
