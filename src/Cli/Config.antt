-- ===== src/Cli/Config.antt =====
-- The arguments of the subcommands (main/src/main.rs), as clap hands them over. A path is the text
-- by which it is shown.
use cargo_stylus.Common.{ℕ, String, Bool, Option, List}
use cargo_stylus.Common.Bytes.{Bytes}

pub record CommonConfig : Type 0 where
  pub endpoint : String
  pub verbose : Bool
  pub source_files_for_project_hash : List String
  pub max_fee_per_gas_gwei : Option String
  pub features : Option String

pub record DataFeeOpts : Type 0 where
  pub data_fee_bump_percent : ℕ

pub record AuthOpts : Type 0 where
  pub private_key_path : Option String
  pub private_key : Option String
  pub keystore_path : Option String
  pub keystore_password_path : Option String

pub record CacheBidConfig : Type 0 where
  pub endpoint : String
  pub verbose : Bool
  pub auth : AuthOpts
  pub address : Bytes
  pub bid : ℕ
  pub max_fee_per_gas_gwei : Option String

pub record CacheStatusConfig : Type 0 where
  pub endpoint : String
  pub address : Option Bytes

pub record CacheSuggestionsConfig : Type 0 where
  pub endpoint : String
  pub address : Bytes

-- `Cache`
pub data CacheCommand : Type 0 where
  bid : CacheBidConfig → CacheCommand
  status : CacheStatusConfig → CacheCommand
  suggest_bid : CacheSuggestionsConfig → CacheCommand

pub record ActivateConfig : Type 0 where
  pub common_cfg : CommonConfig
  pub data_fee : DataFeeOpts
  pub auth : AuthOpts
  pub address : Bytes
  pub estimate_gas : Bool

pub record CheckConfig : Type 0 where
  pub common_cfg : CommonConfig
  pub data_fee : DataFeeOpts
  pub wasm_file : Option String
  pub contract_address : Option Bytes

pub record GetInitcodeConfig : Type 0 where
  pub source_files_for_project_hash : List String
  pub features : Option String
  pub output : Option String

pub record DeployConfig : Type 0 where
  pub check_config : CheckConfig
  pub auth : AuthOpts
  pub estimate_gas : Bool
  pub no_verify : Bool
  pub cargo_stylus_version : Option String
  pub no_activate : Bool
  pub deployer_address : Bytes
  pub deployer_salt : Bytes
  pub constructor_args : List String
  pub constructor_value : ℕ
  pub constructor_signature : Option String

pub record VerifyConfig : Type 0 where
  pub common_cfg : CommonConfig
  pub deployment_tx : String
  pub no_verify : Bool
  pub cargo_stylus_version : Option String

pub record TraceArgs : Type 0 where
  pub endpoint : String
  pub tx : Bytes
  pub project : String
  pub use_native_tracer : Bool

pub record ReplayArgs : Type 0 where
  pub trace : TraceArgs
  pub stable_rust : Bool
  pub features : Option (List String)
  pub package_name : Option String
  pub child : Bool

pub record SimulateArgs : Type 0 where
  pub endpoint : String
  pub from : Option Bytes
  pub to : Option Bytes
  pub gas : Option ℕ
  pub gas_price : Option ℕ
  pub value : Option ℕ
  pub input : Option Bytes
  pub project : String
  pub use_native_tracer : Bool

-- The subcommands. The name of a project is a path.
pub data Apis : Type 0 where
  new : (name : String) → (minimal : Bool) → Apis
  init : (minimal : Bool) → Apis
  export_abi :
      (output : Option String) → (json : Bool) → (rust_features : Option (List String)) → Apis
  constructor : (output : Option String) → (rust_features : Option (List String)) → Apis
  activate : ActivateConfig → Apis
  cache : CacheCommand → Apis
  check : CheckConfig → Apis
  get_initcode : GetInitcodeConfig → Apis
  deploy : DeployConfig → Apis
  verify : VerifyConfig → Apis
  cgen : (input : String) → (out_dir : String) → Apis
  replay : ReplayArgs → Apis
  trace : TraceArgs → Apis
  simulate : SimulateArgs → Apis
