-- ===== src/Deploy/Config.antt =====
-- The arguments of `cargo stylus deploy`, and what the command uses of alloy's ABI coder.
use cargo_stylus.Common.{ℕ, String, Bool, Option, List}
use cargo_stylus.Common.Outcome.{Outcome}
use cargo_stylus.Common.Bytes.{Bytes}
use cargo_stylus.Rpc.{Failure}
use cargo_stylus.Check.{CheckConfig}

-- `Constructor`, with its parameters as they are printed
pub record Constructor : Type 0 where
  pub is_payable : Bool
  pub inputs : List String

-- `DeployConfig`
pub record DeployConfig : Type 0 where
  pub check_config : CheckConfig
  pub has_wasm_file : Bool
  pub constructor_signature : Option String
  pub constructor_args : List String
  pub constructor_value : ℕ
  pub deployer_address : Bytes
  pub deployer_salt : Bytes
  pub max_fee_per_gas_gwei : Option String
  pub estimate_gas : Bool
  pub no_activate : Bool

-- The crates that encode, and the parts of the tool that are not modelled: `convert_gwei_to_wei`,
-- the wallet, and the call of the project's own binary for its signature.
pub record Env : Type 0 where
  pub keccak256 : Bytes → Bytes
  pub parse_constructor : String → Option Constructor
  -- the type of a parameter, and the value that a text has in a type
  pub resolve : String → Option String
  pub coerce_str : String → String → Option Bytes
  pub encode_input : Constructor → List Bytes → Option Bytes
  pub constructor_selector : Bytes
  pub encode_deploy :
      (bytecode : Bytes) → (init_data : Bytes) → (init_value : ℕ) → (salt : Bytes) → Bytes
  pub encode_activate : (program : Bytes) → Bytes
  pub arb_wasm_address : Bytes
  -- `sender.create(nonce)`
  pub create_address : Bytes → ℕ → Bytes
  pub contract_deployed_hash : Bytes
  pub convert_gwei_to_wei : String → Option ℕ
  -- the address of the default signer, for a chain id
  pub wallet : ℕ → Option Bytes
  pub get_constructor_signature : Outcome Failure (Option Constructor)
