-- ===== src/Tests/Deployments.antt =====
-- A node that answers always, and the commands run on it.
use cargo_stylus.Common.{
  ◌+◌, ◌*◌, ◌/◌, ◌^◌, ◌≢◌, ◌↔◌, ◌≡◌, refl, Bool, true, false, none, some, List, [], ◌∷◌, ◌++◌,
  arith, replicate,
}
use cargo_stylus.Common.Bytes.{Bytes}
use cargo_stylus.Common.Outcome.{Outcome, ok}
use cargo_stylus.Rpc.{
  Log, Tx, Failure, Provider, VersionAnswer, ArbWasmError, ActivateAnswer, ◌>>=◌, pure, lift, ask,
  expect, query, expecting, send_transaction, bail,
}
use cargo_stylus.Check.{
  ContractCheck, Shade, adjusted_data_fee, format_data_fee, check, contract_exists, check_activate,
  exists_of, fee_of,
}
use cargo_stylus.Check.Fee.{adjusted_data_fee_lem, format_data_fee-calm}
use cargo_stylus.Deploy.Calldata.{contract_deployment_calldata}
use cargo_stylus.Deploy.Calldata.Evm.{create, boot}
use cargo_stylus.Deploy.Calldata.InitCode.{create-contract_deployment_calldata}
use cargo_stylus.Deploy.Config.{DeployConfig, Env}
use cargo_stylus.Deploy.Transactions.{
  request, priced, calculate_fee_per_gas, run_tx, deploy_contract, activate,
}
use cargo_stylus.Deploy.Command.{
  deploy, find_constructor, find_deployer_args, check_balance, finish, deploy_with,
}
use cargo_stylus.Deploy.Command.Estimate.{deploy-Keeps}
use cargo_stylus.Deploy.Command.Plan.{Plan, deploy-Plan}
use cargo_stylus.Deploy.Deployer.{get_address_from_receipt}
use cargo_stylus.Deploy.Deployer.Receipt.{Reported, get_address_from_receipt_iff}
use cargo_stylus.Activate.{ActivateConfig, activate_contract, print_estimate}
use cargo_stylus.Activate.Sent.{activate_contract-sent}
use cargo_stylus.Verify.{verify_create_deployment, verified}
use cargo_stylus.Verify.Diagnosis.{
  diagnosis, verify_create_deployment_iff, verify_create_deployment-diagnosis,
}

abbrev pub code : Bytes
code = 239 ∷ 240 ∷ 0 ∷ 0 ∷ 7 ∷ []

abbrev other_code : Bytes
other_code = 239 ∷ 240 ∷ 0 ∷ 0 ∷ 8 ∷ []

abbrev short_code : Bytes
short_code = 239 ∷ []

create_example :
    create 8 (contract_deployment_calldata code) (boot (contract_deployment_calldata code))
    ≡ some code
create_example = create-contract_deployment_calldata code (omega arith)

iff_example :
    (verify_create_deployment
        (contract_deployment_calldata code)
        (contract_deployment_calldata code)
      ≡ ok verified)
    ↔ (contract_deployment_calldata code ≡ contract_deployment_calldata code)
iff_example = verify_create_deployment_iff (contract_deployment_calldata code) code

code_differs : code ≢ other_code
code_differs h = cc h

diagnosis_example :
    verify_create_deployment
      (contract_deployment_calldata other_code)
      (contract_deployment_calldata code)
    ≡ ok (diagnosis code other_code)
diagnosis_example =
    verify_create_deployment-diagnosis code other_code (omega arith) (omega arith) code_differs

bump_example : adjusted_data_fee 1000 20 ≡ 1000 + 1000 * 20 / 100
bump_example = adjusted_data_fee_lem 1000 20 (omega arith) (omega arith)

calm_example : (format_data_fee (10 ^ 18) ≢ Shade.yellow) × (format_data_fee (10 ^ 18) ≢ Shade.pink)
calm_example = format_data_fee-calm (10 ^ 18)

-- An account with funds, and a contract that is not activated.
abbrev pub sender : Bytes
sender = replicate 20 1

abbrev pub deployed_at : Bytes
deployed_at = replicate 20 2

abbrev pub arb_wasm : Bytes
arb_wasm = replicate 20 113

abbrev pub env : Env
env = record {
  keccak256 = λ b. b;
  parse_constructor = λ s. none;
  resolve = λ p. none;
  coerce_str = λ t s. none;
  encode_input = λ c v. none;
  constructor_selector = [];
  encode_deploy = λ b i v s. b;
  encode_activate = λ a. a;
  arb_wasm_address = arb_wasm;
  create_address = λ a n. a;
  contract_deployed_hash = [];
  convert_gwei_to_wei = λ s. none;
  wallet = λ c. some sender;
  get_constructor_signature = ok none;
}

abbrev pub node : Provider
node = record {
  estimate_gas = λ sent tx. some 21000;
  gas_price = λ sent. some 100;
  transaction_count = λ sent a. some 0;
  balance = λ sent a. some 5000;
  code_at = λ sent a. some code;
  chain_id = λ sent. some 42161;
  codehash_version = λ sent h. VersionAnswer.arb_wasm ArbWasmError.program_not_activated;
  activate_call = λ sent c a. ActivateAnswer.data_fee 1000;
  accepts = λ sent tx. true;
  receipt = λ sent. some (record { status = true; contract_address = some deployed_at; logs = [] });
}

abbrev config : Bool → DeployConfig
config estimate = record {
  check_config = record {
    endpoint = "http://localhost:8547";
    contract_address = none;
    random_address = replicate 20 9;
    data_fee_bump_percent = 20;
  };
  has_wasm_file = true;
  constructor_signature = none;
  constructor_args = [];
  constructor_value = 0;
  deployer_address = replicate 20 206;
  deployer_salt = replicate 32 0;
  max_fee_per_gas_gwei = none;
  estimate_gas = estimate;
  no_activate = false;
}

keeps_example : (deploy env node (config true) (ok code) []).1 ≡ []
keeps_example = deploy-Keeps env node (config true) (ok code) [] refl

abbrev both : List Tx
both =
    priced (request sender none 0 (contract_deployment_calldata code)) (some 21000) 100
    ∷ priced (request sender (some arb_wasm) 1200 deployed_at) (some 21000) 100
    ∷ []

deployed :
    ◌≡◌ {A = Outcome Failure (Unit {0}) × List Tx}
      (deploy env node (config false) (ok code) [])
      (ok tt, both)
unfolding deploy check expecting contract_exists check_activate exists_of fee_of adjusted_data_fee
    find_constructor find_deployer_args check_balance deploy_with finish deploy_contract activate
    run_tx calculate_fee_per_gas send_transaction ask expect query lift pure bail ◌>>=◌
deployed = refl

deployment_example :
    (contract : ContractCheck) × (txs : List Tx) × ◌≡◌ {A = Outcome Failure ContractCheck × List Tx}
      (check node env.keccak256 (config false).check_config (ok code) [])
      (ok contract, [])
    × (both ≡ [] ++ txs)
    × Plan env (config false) contract txs
deployment_example = deploy-Plan env node (config false) (ok code) [] both refl deployed

-- An activation that only the gas is asked for.
abbrev activation : ActivateConfig
activation = record { address = deployed_at; data_fee_bump_percent = 20; estimate_gas = true }

abbrev one : List Tx
one = request sender (some arb_wasm) 1200 deployed_at ∷ []

activated :
    ◌≡◌ {A = Outcome Failure (Unit {0}) × List Tx}
      (activate_contract env node activation [])
      (ok tt, one)
unfolding activate_contract print_estimate check_activate fee_of adjusted_data_fee send_transaction
    ask query lift pure ◌>>=◌
activated = refl

activate_example :
    (tx : Tx) × (one ≡ [] ++ tx ∷ [])
    × (tx.to ≡ some env.arb_wasm_address)
    × (tx.input ≡ env.encode_activate activation.address)
activate_example = activate_contract-sent env node activation [] one activated

-- A receipt with a log of another kind before the one of the deployment
abbrev logs : List Log
logs =
    record { topics = (1 ∷ []) ∷ []; bytes = [] }
    ∷ record { topics = (7 ∷ []) ∷ []; bytes = replicate 12 0 ++ deployed_at }
    ∷ []

receipt_example :
    (get_address_from_receipt (7 ∷ []) logs ≡ ok deployed_at) ↔ Reported (7 ∷ []) logs deployed_at
receipt_example = get_address_from_receipt_iff (7 ∷ []) deployed_at logs
