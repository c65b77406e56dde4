-- ===== src/Tests/CommandLine.antt =====
-- The command line of the unit tests of main/src/main.rs, run in a container, and a replay.
use cargo_stylus.Common.{
  ◌≡◌, refl, ◌↔◌, ◌⊎◌, inl, String, Bool, true, false, Option, none, some, List, [], ◌∷◌, All, drop,
}
use cargo_stylus.Common.Text.{contains}
use cargo_stylus.Common.Outcome.{Outcome, ok, err}
use cargo_stylus.Project.Toolchain.{Value, Fields}
use cargo_stylus.Docker.{
  Invocation, Output, Failure, Host, Shell, ◌>>=◌, lift, pure, image_name, image_found,
  verify_valid_host, toolchain_channel, run_reproducible,
}
use cargo_stylus.Common.Occurs.{contains_iff}
use cargo_stylus.Docker.Hosts.{IsRefused}
use cargo_stylus.Docker.Steps.{images_call, run_call}
use cargo_stylus.Docker.Runs.{Ran, run_reproducible_refused, run_reproducible_runs}
use cargo_stylus.Cli.Config.{DeployConfig, Apis}
use cargo_stylus.Cli.Words.{words, IsWord, are_words_sound}
use cargo_stylus.Cli.Display.{
  Shows, show_deploy, deploy_args_behind, check_args_behind, common_args, show_data_fee, auth_args,
}
use cargo_stylus.Cli.Display.Kept.{deploy_command_line, deploy_words_iff}
use cargo_stylus.Cli.Startup.{
  main, extension, parse_from, custom_name, is_starting, is_deprecated_extension,
}
use cargo_stylus.Cli.Startup.Extension.{IsSubcommand, main-extension_iff}
use cargo_stylus.Cli.Run.{Routines, main_impl}
use cargo_stylus.Cli.Run.Container.{in_container, main_impl-in_container, main_impl-Ran}

abbrev shows : Shows
shows = record {
  show_address = λ a. "0xfafafafafafafafafafafafafafafafafafafafa";
  show_b256 = λ b. "0xbebebebebebebebebebebebebebebebebebebebebebebebebebebebebebebebe";
  show_u256 = λ v. "1000";
}

-- The configuration of the test `display_deploy_config`, up to `no_verify`
abbrev deploy_config : Bool → DeployConfig
deploy_config no_verify = record {
  check_config = record {
    common_cfg = record {
      endpoint = "http://deploy.net";
      verbose = true;
      source_files_for_project_hash = [];
      max_fee_per_gas_gwei = none;
      features = none;
    };
    data_fee = record { data_fee_bump_percent = 30 };
    wasm_file = some "deploy.wasm";
    contract_address = none;
  };
  auth = record {
    private_key_path = none;
    private_key = some "0xabc";
    keystore_path = none;
    keystore_password_path = none;
  };
  estimate_gas = true;
  no_verify = no_verify;
  cargo_stylus_version = some "1.2.3";
  no_activate = true;
  deployer_address = [];
  deployer_salt = [];
  constructor_args = "arg1" ∷ "123" ∷ [];
  constructor_value = 1000;
  constructor_signature = some "initialize(uint256)";
}

display_deploy_config :
    show_deploy shows (deploy_config true)
    ≡ "--endpoint=http://deploy.net --verbose --data-fee-bump-percent=30 --wasm-file=deploy.wasm --private-key=0xabc --estimate-gas --no-verify --cargo-stylus-version=1.2.3 --no-activate --deployer-address=0xfafafafafafafafafafafafafafafafafafafafa --deployer-salt=0xbebebebebebebebebebebebebebebebebebebebebebebebebebebebebebebebe --constructor-value=1000 --constructor-signature='initialize(uint256)' --constructor-args arg1 123"
unfolding show_deploy
display_deploy_config = refl

words_example :
    (words (show_deploy shows (deploy_config true))
      ≡ deploy_command_line shows (deploy_config true))
    ↔ All IsWord (deploy_command_line shows (deploy_config true))
words_example = deploy_words_iff shows (deploy_config true)

-- The arguments for the container
abbrev container_line : List String
container_line =
    "deploy" ∷ "--no-verify" ∷ "--endpoint=http://deploy.net" ∷ "--verbose"
    ∷ "--data-fee-bump-percent=30" ∷ "--wasm-file=deploy.wasm" ∷ "--private-key=0xabc"
    ∷ "--estimate-gas" ∷ "--cargo-stylus-version=1.2.3" ∷ "--no-activate"
    ∷ "--deployer-address=0xfafafafafafafafafafafafafafafafafafafafa"
    ∷ "--deployer-salt=0xbebebebebebebebebebebebebebebebebebebebebebebebebebebebebebebebe"
    ∷ "--constructor-value=1000" ∷ "--constructor-signature='initialize(uint256)'"
    ∷ "--constructor-args" ∷ "arg1" ∷ "123" ∷ []

in_container_line :
    in_container shows (Apis.deploy (deploy_config false)) ≡ some (some "1.2.3", container_line)
unfolding in_container deploy_command_line deploy_args_behind check_args_behind common_args
    show_data_fee auth_args
in_container_line = refl

are_words_line : All IsWord container_line
are_words_line = are_words_sound container_line refl

-- Routines of which the reproducible run alone is of interest
abbrev routines_of : {R : Type 0} → (Option String → List String → R) → R → Routines R
routines_of run other = record {
  new_project = λ n m. other;
  init_project = λ m. other;
  export_abi = λ f j r. other;
  print_constructor = λ f r. other;
  activate_contract = λ c. other;
  simulate = λ c. other;
  c_gen = λ i o. other;
  trace = λ c. other;
  replay = λ c. other;
  place_bid = λ c. other;
  suggest_bid = λ c. other;
  check_status = λ c. other;
  check = λ c. other;
  get_initcode = λ c. other;
  deploy = λ c. other;
  verify = λ c. other;
  run_reproducible = run;
}

abbrev container_api : Apis
container_api = Apis.deploy (deploy_config false)

in_container_example :
    main_impl {R = Option (Option String × List String)} shows
      (routines_of (λ v l. some (v, l)) none)
      (λ m r. r)
      container_api
    ≡ some (some "1.2.3", container_line)
in_container_example =
    main_impl-in_container {R = Option (Option String × List String)} shows
      (routines_of (λ v l. some (v, l)) none) (λ m r. r) container_api (some "1.2.3") container_line
      in_container_line are_words_line

-- `rust-toolchain.toml` with a channel
abbrev pub toolchain_of : String → String → Option Value
toolchain_of channel text = some (
    Value.table (
      Fields.field "toolchain"
        (Value.table (Fields.field "channel" (Value.string channel) Fields.end)) Fields.end))

-- An image is found, and the container's command fails.
abbrev output : Output
output = record { success = true; stdout = 73 ∷ 10 ∷ 99 ∷ 10 ∷ []; stderr = some "" }

abbrev host : String → Host
host os_type = record {
  os_type = some os_type;
  os_release = some "10.0";
  current_dir = some "/home/me";
  toolchain_file = some "";
  docker = λ made call. some output;
  writes = λ made call. true;
  waits = λ made call. true;
}

abbrev calls_made : List Invocation
calls_made =
    images_call (image_name "1.2.3" "1.80.0")
    ∷ run_call "/home/me" "1.2.3" "1.80.0" ("cargo" ∷ "stylus" ∷ container_line)
    ∷ []

abbrev shell_routines : Routines (Shell (Unit {0}))
shell_routines =
    routines_of (run_reproducible (host "Linux") "0.6.0" (λ c. false) (toolchain_of "1.80.0"))
      (pure tt)

container_runs :
    ◌≡◌ {A = Outcome Failure (Unit {0}) × List Invocation}
      (main_impl shows shell_routines (λ m r. r) container_api [])
      (ok tt, calls_made)
unfolding main_impl words show_deploy run_reproducible run_call ◌>>=◌ lift pure
container_runs = refl

ran_example :
    Ran
      (host "Linux")
      "0.6.0"
      (λ c. false)
      (toolchain_of "1.80.0")
      (some "1.2.3")
      container_line
      []
      calls_made
ran_example =
    main_impl-Ran shows (λ m r. r) (λ message m calls end h. h) (host "Linux") "0.6.0" (λ c. false)
      (toolchain_of "1.80.0") shell_routines container_api (some "1.2.3") container_line []
      calls_made refl in_container_line are_words_line container_runs

kernel_apart : (contains "10.0" "microsoft" ≡ false) × (contains "10.0" "WSL" ≡ false)
unfolding contains
kernel_apart = (refl, refl)

IsRefused-host : IsRefused (some "Windows") (some "10.0") Failure.windows_without_wsl
IsRefused-host =
    IsRefused.without_wsl "10.0" refl refl
      (λ o. cc ((contains_iff "10.0" "microsoft").1 o, kernel_apart.0))
      (λ o. cc ((contains_iff "10.0" "WSL").1 o, kernel_apart.1))

run_refused_example :
    run_reproducible
      (host "Windows")
      "0.6.0"
      (λ c. false)
      (toolchain_of "1.80.0")
      none
      container_line
      []
    ≡ (err Failure.windows_without_wsl, [])
run_refused_example =
    run_reproducible_refused (host "Windows") "0.6.0" (λ c. false) (toolchain_of "1.80.0") none
      container_line [] Failure.windows_without_wsl (inl IsRefused-host)

valid_host : verify_valid_host (some "Linux") (some "10.0") ≡ ok tt
unfolding verify_valid_host
valid_host = refl

channel_is :
    toolchain_channel (host "Linux") "0.6.0" (λ c. false) (toolchain_of "1.80.0") ≡ ok "1.80.0"
unfolding toolchain_channel
channel_is = refl

image_is_found : image_found output ≡ ok true
unfolding image_found
image_is_found = refl

runs_example :
    (run_reproducible
      (host "Linux")
      "0.6.0"
      (λ c. false)
      (toolchain_of "1.80.0")
      none
      container_line
      []).0
    ≡ ok tt
runs_example =
    run_reproducible_runs (host "Linux") "0.6.0" (λ c. false) (toolchain_of "1.80.0")
      (λ made call. output) (λ made call. (refl, refl, refl)) none container_line [] "1.80.0"
      "/home/me" true valid_host channel_is refl image_is_found

starting : All (λ x. is_starting x ≡ true) ("cargo" ∷ "stylus" ∷ [])
unfolding is_starting
starting = (refl, (refl, tt))

foo-IsSubcommand : IsSubcommand "foo"
unfolding is_starting
foo-IsSubcommand = (refl, refl, refl)

-- A subcommand that is an extension
extension_example :
    ((main (λ c. true) ("cargo" ∷ "stylus" ∷ "foo" ∷ "a" ∷ [])
        ≡ extension (custom_name "foo") ("foo" ∷ "a" ∷ []))
      ↔ ((λ (c : String). true) (custom_name "foo") ≡ true)
        × (is_deprecated_extension (custom_name "foo") ≡ false))
    × (((λ (c : String). true) (custom_name "foo") ≡ false)
          ⊎ (is_deprecated_extension (custom_name "foo") ≡ true)
        → main (λ c. true) ("cargo" ∷ "stylus" ∷ "foo" ∷ "a" ∷ [])
          ≡ parse_from (drop 1 ("cargo" ∷ "stylus" ∷ "foo" ∷ "a" ∷ [])))
extension_example =
    main-extension_iff (λ c. true) ("cargo" ∷ "stylus" ∷ []) "foo" ("a" ∷ []) starting
      foo-IsSubcommand

-- A deprecated extension is passed over.
deprecated :
    main (λ c. true) ("cargo" ∷ "stylus" ∷ "cgen" ∷ []) ≡ parse_from ("stylus" ∷ "cgen" ∷ [])
unfolding main
deprecated = refl
