-- ===== src/Project/Build.antt =====
-- The build of a contract (`build_dylib`, `hash_project` and `build_wasm_from_features`,
-- main/src/project.rs).
pub mod Names
pub mod Hashed
pub mod Found
pub mod Blind
use Prim.Native.Char.{Char, code}
use Prim.Native.String.{◌++◌ as ◌<>◌}
use cargo_stylus.Common.{
  ℕ, String, Bool, true, false, not, Option, none, some, List, [], ◌∷◌, ◌++◌, replicate, ◌==◌,
  if◌then◌else◌,
}
use cargo_stylus.Common.Text.{contains, ends_with, filter_chars}
use cargo_stylus.Common.Bytes.{Bytes}
use cargo_stylus.Common.Files.{Entry, files_in}
use cargo_stylus.Common.Outcome
use cargo_stylus.Common.Outcome.{Outcome, ok, err, panic, out_of_fuel, ◌>>=◌}
use cargo_stylus.Rpc.{Failure}
use cargo_stylus.Project.{PathBuf, OptLevel, hash_files}
use cargo_stylus.Project.Toolchain.{
  Value, TomlError, extract_toolchain_channel, extract_cargo_toml_version,
  extract_cargo_lib_or_project_name,
}
use cargo_stylus.Project.Walk.{WalkError}
use cargo_stylus.Project.Wasm.{WasmTools, WasmError, compress_wasm}

pub record BuildConfig : Type 0 where
  pub opt_level : OptLevel
  pub stable : Bool
  pub features : Option String

unfoldable pub new_config : Bool → BuildConfig
new_config stable = record { opt_level = OptLevel.s; stable = stable; features = none }

-- The ways in which a build fails; `exited` ends the process with status 1.
pub data BuildError : Type 0 where
  toml : TomlError → BuildError
  wasm : WasmError → BuildError
  walk : WalkError → BuildError
  hashing : Failure → BuildError
  cargo_not_run exited dir_not_read no_wasm_found cargo_version_failed : BuildError

-- An error, put into one of the build's
abbrev pub map_err {ℓ} : {E F A : Type ℓ} → (E → F) → Outcome E A → Outcome F A
map_err f (ok a) = ok a
map_err f (err e) = err (f e)
map_err f panic = panic
map_err f out_of_fuel = out_of_fuel

-- `name.replace("-", "_")`
unfoldable pub replace_dash : String → String
replace_dash String.[] = String.[]
replace_dash (String.◌∷◌ c s) =
    let rest = replace_dash s in if code c == b'-' then String.◌∷◌ "_" rest else String.◌∷◌ c rest

-- `name.replace("-", "_").replace("\"", "")`
unfoldable pub library_name : String → String
unfolding replace_dash filter_chars
library_name name = filter_chars (λ c. not (c == b'"')) (replace_dash name)

unfoldable pub features_args : Option String → List String
features_args none = []
features_args (some features) = ("--features=" <> features) ∷ []

unfoldable pub std_args : Bool → List String
std_args stable =
    if stable
    then []
    else "-Z" ∷ "build-std=std,panic_abort" ∷ "-Z" ∷ "build-std-features=panic_immediate_abort" ∷ []

unfoldable pub opt_args : OptLevel → List String
opt_args OptLevel.z = "--config" ∷ "profile.release.opt-level='z'" ∷ []
opt_args OptLevel.s = []

-- The arguments of cargo; the target is `RUST_TARGET`.
unfoldable pub cargo_args : BuildConfig → List String
unfolding features_args std_args opt_args
cargo_args cfg =
    "build"
    ∷ "--lib"
    ∷ "--locked"
    ∷ (features_args cfg.features
        ++ (std_args cfg.stable
            ++ (opt_args cfg.opt_level ++ "--release" ∷ "--target=wasm32-unknown-unknown" ∷ [])))

unfoldable pub is_wasm_of : String → Option String → Bool
unfolding ends_with
is_wasm_of project_name none = false
is_wasm_of project_name (some filename) = ends_with filename (project_name <> ".wasm")

-- `.find(…)`
unfoldable pub find_wasm : String → List Entry → Option Entry
unfolding is_wasm_of
find_wasm project_name [] = none
find_wasm project_name (p ∷ files) =
    let rest = find_wasm project_name files in
    if is_wasm_of project_name p.file_name then some p else rest

-- What surrounds a build: the toml files, cargo with its success and its output, the directory
-- `target/wasm32-unknown-unknown/release/deps`, and the crates.
pub record Workspace : Type 0 where
  pub from_str : String → Option Value
  pub to_string : Value → String
  pub beyond : ℕ → Bool
  pub toolchain_toml : Option String
  pub cargo_toml : Option String
  pub cargo : List String → Option Bool
  pub cargo_version : Option (Bool × Bytes)
  pub release_dir : Option (List (Option Entry))
  pub read_wasm : Entry → Option Bytes
  pub tools : WasmTools
  pub keccak256 : Bytes → Bytes
  pub read : PathBuf → Option Bytes
  pub toolchain_file : PathBuf
  pub all_paths : List String → Outcome WalkError (List PathBuf)

module _ (W : Workspace) where
  open W use {from_str, to_string, tools}

  unfoldable pub run_cargo : BuildConfig → Outcome BuildError (Unit {0})
  unfolding cargo_args
  run_cargo cfg = Outcome.ok_or cargo_not_run (W.cargo (cargo_args cfg)) >>= λ success.
      if success then ok tt else err exited

  unfoldable pub build_dylib : BuildConfig → Outcome BuildError Entry
  unfolding extract_cargo_toml_version extract_cargo_lib_or_project_name library_name find_wasm
      run_cargo
  build_dylib cfg =
      map_err toml (extract_cargo_toml_version from_str W.cargo_toml) >>= λ cargo_toml_version.
      map_err toml (extract_cargo_lib_or_project_name to_string from_str W.cargo_toml) >>= λ name.
      run_cargo cfg >>= λ _. Outcome.ok_or dir_not_read W.release_dir >>= λ entries.
      Outcome.ok_or no_wasm_found (find_wasm (library_name name) (files_in entries))
      >>= λ wasm_file.
          map_err wasm (compress_wasm tools (W.read_wasm wasm_file) (replicate 32 0)) >>= λ _.
          ok wasm_file

  unfoldable pub check_version : Bool × Bytes → Outcome BuildError Bytes
  check_version (success, stdout) = if success then ok stdout else err cargo_version_failed

  unfoldable pub hash_project : List String → BuildConfig → Outcome BuildError Bytes
  unfolding check_version
  hash_project source_file_patterns cfg = Outcome.ok_or cargo_not_run W.cargo_version >>= λ output.
      check_version output >>= λ stdout. map_err hashing (
        hash_files W.keccak256 W.read W.toolchain_file stdout cfg.opt_level
          (map_err (λ _. Failure.build_failed) (W.all_paths source_file_patterns)))

  unfoldable pub build_wasm_from_features :
      Option String → List String → Outcome BuildError (Entry × Bytes)
  unfolding contains new_config build_dylib hash_project
  build_wasm_from_features features source_files =
      map_err toml (extract_toolchain_channel W.beyond from_str W.toolchain_toml)
      >>= λ toolchain_channel.
          let rust_stable = not (contains toolchain_channel "nightly") in
          let cfg = record (new_config rust_stable) { features = features } in
          build_dylib cfg >>= λ wasm.
          hash_project source_files cfg >>= λ project_hash. ok (wasm, project_hash)
