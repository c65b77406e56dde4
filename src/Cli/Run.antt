-- ===== src/Cli/Run.antt =====
-- The choice of the subcommand (`main_impl`, main/src/main.rs).
pub mod Container
use cargo_stylus.Common.{ℕ, String, Bool, true, false, Option, List, [], ◌∷◌, if◌then◌else◌}
use cargo_stylus.Cli.Config.{
  CacheBidConfig, CacheStatusConfig, CacheSuggestionsConfig, CacheCommand, ActivateConfig,
  CheckConfig, GetInitcodeConfig, DeployConfig, VerifyConfig, TraceArgs, ReplayArgs, SimulateArgs,
  Apis,
}
use cargo_stylus.Cli.Words.{words}
use cargo_stylus.Cli.Display.{Shows, show_deploy, show_verify}

-- The functions of the other modules, with what they do as `R`
pub record Routines (R : Type 0) : Type 0 where
  pub new_project : (name : String) → (minimal : Bool) → R
  pub init_project : (minimal : Bool) → R
  pub export_abi :
      (file : Option String) → (json : Bool) → (rust_features : Option (List String)) → R
  pub print_constructor : (file : Option String) → (rust_features : Option (List String)) → R
  pub activate_contract : ActivateConfig → R
  pub simulate : SimulateArgs → R
  pub c_gen : (input : String) → (out_dir : String) → R
  pub trace : TraceArgs → R
  pub replay : ReplayArgs → R
  pub place_bid : CacheBidConfig → R
  pub suggest_bid : CacheSuggestionsConfig → R
  pub check_status : CacheStatusConfig → R
  pub check : CheckConfig → R
  pub get_initcode : GetInitcodeConfig → R
  pub deploy : DeployConfig → R
  pub verify : VerifyConfig → R
  pub run_reproducible : (version : Option String) → (command_line : List String) → R

-- `wrap_err` puts a message before an error.
module _ {R : Type 0} (S : Shows) (routines : Routines R) (wrap_err : String → R → R) where
  open routines use {run_reproducible}

  unfoldable pub run_deploy : DeployConfig → R
  run_deploy config =
      if config.no_verify
      then wrap_err "stylus deploy failed" (routines.deploy config)
      else wrap_err "failed reproducible run" (
          run_reproducible config.cargo_stylus_version
            ("deploy" ∷ "--no-verify" ∷ words (show_deploy S config)))

  unfoldable pub run_verify : VerifyConfig → R
  run_verify config =
      if config.no_verify
      then wrap_err "failed to verify" (routines.verify config)
      else wrap_err "failed reproducible run" (
          run_reproducible config.cargo_stylus_version
            ("verify" ∷ "--no-verify" ∷ words (show_verify config)))

  unfoldable pub run_cache : CacheCommand → R
  run_cache (CacheCommand.bid config) =
      wrap_err "stylus cache place bid failed" (routines.place_bid config)
  run_cache (CacheCommand.suggest_bid config) =
      wrap_err "stylus cache suggest-bid failed" (routines.suggest_bid config)
  run_cache (CacheCommand.status config) =
      wrap_err "stylus cache status failed" (routines.check_status config)

  unfoldable pub main_impl : Apis → R
  unfolding run_deploy run_verify run_cache
  main_impl (Apis.new name minimal) =
      wrap_err "failed to open new project" (routines.new_project name minimal)
  main_impl (Apis.init minimal) =
      wrap_err "failed to initialize project" (routines.init_project minimal)
  main_impl (Apis.export_abi output json rust_features) =
      wrap_err "failed to export abi" (routines.export_abi output json rust_features)
  main_impl (Apis.constructor output rust_features) =
      wrap_err "failed to print constructor" (routines.print_constructor output rust_features)
  main_impl (Apis.activate config) =
      wrap_err "stylus activate failed" (routines.activate_contract config)
  main_impl (Apis.simulate args) =
      wrap_err "failed to simulate transaction" (routines.simulate args)
  main_impl (Apis.cgen input out_dir) =
      wrap_err "failed to generate c code" (routines.c_gen input out_dir)
  main_impl (Apis.trace args) = wrap_err "failed to trace tx" (routines.trace args)
  main_impl (Apis.replay args) = wrap_err "failed to replay tx" (routines.replay args)
  main_impl (Apis.cache subcommand) = run_cache subcommand
  main_impl (Apis.check config) = wrap_err "stylus checks failed" (routines.check config)
  main_impl (Apis.get_initcode config) =
      wrap_err "get initcode failed" (routines.get_initcode config)
  main_impl (Apis.deploy config) = run_deploy config
  main_impl (Apis.verify config) = run_verify config
