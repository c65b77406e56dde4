-- ===== src/Cli/Display.antt =====
-- The configurations as command lines (the `Display` of main/src/main.rs).
pub mod Kept
use Prim.Native.String.{◌++◌ as ◌<>◌}
use cargo_stylus.Common.{
  ℕ, zero, suc, ◌/◌, ◌%◌, String, Bool, true, false, Option, none, some, List, [], ◌∷◌, ◌++◌,
  if◌then◌else◌, ltb, ◌==◌,
}
use cargo_stylus.Common.Bytes.{Bytes}
use cargo_stylus.Cli.Words.{join, is_empty}
use cargo_stylus.Cli.Config.{
  CommonConfig, DataFeeOpts, CheckConfig, DeployConfig, AuthOpts, VerifyConfig,
}

unfoldable pub digit : ℕ → String
digit d =
    if d == 0
    then "0"
    else if d == 1
    then "1"
    else if d == 2
    then "2"
    else if d == 3
    then "3"
    else if d == 4
    then "4"
    else if d == 5
    then "5"
    else if d == 6
    then "6"
    else if d == 7
    then "7"
    else if d == 8
    then "8"
    else "9"

unfoldable pub decimal : ℕ → ℕ → String
unfolding digit
decimal zero n = ""
decimal (suc fuel) n =
    let more = decimal fuel (n / 10) in if ltb n 10 then digit n else more <> digit (n % 10)

-- A u64 has at most twenty digits.
unfoldable pub show_u64 : ℕ → String
unfolding decimal
show_u64 n = decimal 20 n

-- How alloy shows its types.
pub record Shows : Type 0 where
  pub show_address : Bytes → String
  pub show_b256 : Bytes → String
  pub show_u256 : ℕ → String

-- `if let Some(value) = option { args.push(format!("{name}{value}")) }`
unfoldable pub push_some : String → Option String → List String → List String
push_some name none args = args
push_some name (some value) args = args ++ (name <> value) ∷ []

-- `if test { args.push(arg) }`
unfoldable pub push_if : Bool → String → List String → List String
push_if test arg args = if test then args ++ arg ∷ [] else args

-- `args.push(arg)`
unfoldable pub push : String → List String → List String
push arg args = args ++ arg ∷ []

unfoldable pub push_files : List String → List String → List String
unfolding join push
push_files [] args = args
push_files (file ∷ files) args =
    push ("--source-files-for-project-hash=" <> join "," (file ∷ files)) args

unfoldable pub push_constructor_args : List String → List String → List String
push_constructor_args [] args = args
push_constructor_args (a ∷ rest) args = args ++ "--constructor-args" ∷ a ∷ rest

unfoldable pub show_data_fee : DataFeeOpts → String
unfolding show_u64
show_data_fee cfg = "--data-fee-bump-percent=" <> show_u64 cfg.data_fee_bump_percent

unfoldable pub common_args : CommonConfig → List String
unfolding push_files push push_if push_some
common_args cfg =
    let args = push ("--endpoint=" <> cfg.endpoint) [] in
    let args = push_if cfg.verbose "--verbose" args in
    let args = push_files cfg.source_files_for_project_hash args in
    let args = push_some "--max-fee-per-gas-gwei=" cfg.max_fee_per_gas_gwei args in
    push_some "--features=" cfg.features args

unfoldable pub show_common : CommonConfig → String
unfolding common_args join
show_common cfg = join " " (common_args cfg)

unfoldable pub auth_args : AuthOpts → List String
unfolding push_some
auth_args cfg =
    let args = push_some "--private-key-path=" cfg.private_key_path [] in
    let args = push_some "--private-key=" cfg.private_key args in
    let args = push_some "--keystore-path=" cfg.keystore_path args in
    push_some "--keystore-password-path=" cfg.keystore_password_path args

unfoldable pub show_auth : AuthOpts → String
unfolding auth_args join
show_auth cfg = join " " (auth_args cfg)

abbrev map_option {ℓ κ} : {A : Type ℓ} {B : Type κ} → (A → B) → Option A → Option B
map_option f none = none
map_option f (some a) = some (f a)

module _ (S : Shows) where
  open S use {show_address, show_b256, show_u256}

  unfoldable pub check_args_behind : CheckConfig → List String → List String
  unfolding push_some
  check_args_behind cfg args =
      let args = push_some "--wasm-file=" cfg.wasm_file args in
      push_some "--contract-address=" (map_option show_address cfg.contract_address) args

  unfoldable pub show_check : CheckConfig → String
  unfolding check_args_behind show_common show_data_fee join push
  show_check cfg =
      let args = push (show_common cfg.common_cfg) [] in
      let args = push (show_data_fee cfg.data_fee) args in join " " (check_args_behind cfg args)

  unfoldable pub deploy_args_behind : DeployConfig → List String → List String
  unfolding push push_if push_some push_constructor_args
  deploy_args_behind cfg args =
      let args = push_if cfg.estimate_gas "--estimate-gas" args in
      let args = push_if cfg.no_verify "--no-verify" args in
      let args = push_some "--cargo-stylus-version=" cfg.cargo_stylus_version args in
      let args = push_if cfg.no_activate "--no-activate" args in
      let args = push ("--deployer-address=" <> show_address cfg.deployer_address) args in
      let args = push ("--deployer-salt=" <> show_b256 cfg.deployer_salt) args in
      let args = push ("--constructor-value=" <> show_u256 cfg.constructor_value) args in
      let args =
        push_some "--constructor-signature='" (map_option (λ s. s <> "'") cfg.constructor_signature)
          args in
      push_constructor_args cfg.constructor_args args

  unfoldable pub show_deploy : DeployConfig → String
  unfolding show_check show_auth deploy_args_behind join push
  show_deploy cfg =
      let args = push (show_check cfg.check_config) [] in
      let args = push (show_auth cfg.auth) args in join " " (deploy_args_behind cfg args)

unfoldable pub verify_args_behind : VerifyConfig → List String → List String
unfolding push push_if push_some
verify_args_behind cfg args =
    let args = push ("--deployment-tx=" <> cfg.deployment_tx) args in
    let args = push_if cfg.no_verify "--no-verify" args in
    push_some "--cargo-stylus-version=" cfg.cargo_stylus_version args

unfoldable pub show_verify : VerifyConfig → String
unfolding show_common verify_args_behind join push
show_verify cfg = join " " (verify_args_behind cfg (push (show_common cfg.common_cfg) []))
