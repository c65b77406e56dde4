-- ===== src/Verify.antt =====
-- `cargo stylus verify` (main/src/verify.rs).
pub mod Diagnosis
use cargo_stylus.Common.{
  ℕ, ◌+◌, String, Bool, true, false, not, Option, none, some, ltb, ◌==◌, length, drop,
  if◌then◌else◌,
}
use cargo_stylus.Common.Outcome
use cargo_stylus.Common.Outcome.{Outcome, ok, err, ◌>>=◌ as ◌>>=ₒ◌}
use cargo_stylus.Common.Bytes.{Bytes, bytes_eq}
use cargo_stylus.Rpc.{Failure, Provider, Command, ◌>>=◌, ◌>>◌, lift}
use cargo_stylus.Check.{ContractCheck, CheckConfig, code_of, check}
use cargo_stylus.Deploy.Calldata.{
  contract_deployment_calldata, extract_contract_evm_deployment_prelude, extract_compressed_wasm,
}
use cargo_stylus.Deploy.Config.{Constructor, Env}

-- What is printed. A failure comes with the lengths of the two codes.
pub data Verdict : Type 0 where
  verified verified_constructor : Verdict
  prelude_mismatch wasm_mismatch : (local_length : ℕ) → (tx_length : ℕ) → Verdict

-- A transaction on the chain
pub record OnchainTx : Type 0 where
  pub to : Option Bytes
  pub input : Bytes

-- The call that `decode_deploy_call` finds.
pub record DeployCall : Type 0 where
  pub bytecode : Bytes
  pub init_data : Bytes

-- What is printed of a mismatch, from the parts in the order in which they are taken out.
unfoldable pub report_mismatch :
    (tx_prelude reconstructed local_wasm tx_wasm : Outcome Failure Bytes) → Outcome Failure Verdict
report_mismatch tx_prelude reconstructed local_wasm tx_wasm = tx_prelude >>=ₒ λ a.
    reconstructed >>=ₒ λ b. local_wasm >>=ₒ λ c. tx_wasm >>=ₒ λ d. ok (
      if not (bytes_eq a b)
      then prelude_mismatch (length c) (length d)
      else wasm_mismatch (length c) (length d))

unfoldable pub verify_create_deployment : Bytes → Bytes → Outcome Failure Verdict
unfolding report_mismatch
verify_create_deployment calldata deployment_data =
    if bytes_eq deployment_data calldata
    then ok verified
    else report_mismatch (extract_contract_evm_deployment_prelude calldata)
        (extract_contract_evm_deployment_prelude deployment_data)
        (extract_compressed_wasm deployment_data) (extract_compressed_wasm calldata)

-- The decoders of calldata.
module _ (decode_deploy_call : Bytes → Option DeployCall)
    (decode_input : Constructor → Bytes → Bool) where
  check_call : Constructor → DeployCall → Bytes → Outcome Failure Verdict
  check_call constructor call deployment_data =
      if not (bytes_eq call.bytecode deployment_data)
      then err Failure.bytecode_mismatch
      else if ltb (length call.init_data) 4
      then err Failure.bad_init_data
      else if decode_input constructor (drop 4 call.init_data)
      then ok verified_constructor
      else err Failure.bad_encoding

  unfoldable pub verify_constructor_deployment :
      Outcome Failure (Option Constructor) → Bytes → Bytes → Outcome Failure Verdict
  unfolding check_call
  verify_constructor_deployment signature calldata deployment_data = signature >>=ₒ λ found.
      Outcome.ok_or Failure.no_constructor found >>=ₒ λ constructor.
      Outcome.ok_or Failure.undecoded_call (decode_deploy_call calldata) >>=ₒ λ call.
      check_call constructor call deployment_data

  verify_tx : Outcome Failure (Option Constructor) → OnchainTx → Bytes → Outcome Failure Verdict
  verify_tx signature tx deployment_data = elim tx.to [
    | some deployer ↦ verify_constructor_deployment signature tx.input deployment_data
    | none ↦ verify_create_deployment tx.input deployment_data
  ]

  -- The configuration of the check has no wasm file, no address and a bump of 20 percent.
  abbrev check_config : String → Bytes → CheckConfig
  check_config endpoint random_address = record {
    endpoint = endpoint;
    contract_address = none;
    random_address = random_address;
    data_fee_bump_percent = 20;
  }

  -- `hash` is the decoded argument, `find_tx` the node's answer to it, `cleaned` the outcome of
  -- `cargo clean`, and `compressed` the code that is built then.
  unfoldable pub verify :
      Env
      → Provider
      → String
      → Bytes
      → Outcome Failure Bytes
      → (Bytes → Outcome Failure OnchainTx)
      → Outcome Failure (Unit {0})
      → Outcome Failure Bytes
      → Command Verdict
  unfolding verify_tx
  verify E P endpoint random_address hash find_tx cleaned compressed = do
    bytes ← lift hash
    tx ← lift (if not (length bytes == 32) then err Failure.bad_encoding else find_tx bytes)
    lift cleaned
    contract ← check P E.keccak256 (check_config endpoint random_address) compressed
    lift
        (verify_tx E.get_constructor_signature tx (contract_deployment_calldata (code_of contract)))
