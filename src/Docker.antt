-- ===== src/Docker.antt =====
-- Commands that run in a container, for reproducible builds (main/src/docker.rs).
pub mod Hosts
pub mod Images
pub mod Steps
pub mod Calls
pub mod Starts
pub mod Runs
use Prim.Native.String.{◌++◌ as ◌<>◌}
use cargo_stylus.Common.{
  ℕ, ◌+◌, String, Bool, true, false, ◌||◌, Option, none, some, List, [], ◌∷◌, ◌++◌, if◌then◌else◌,
  ltb, ◌==◌,
}
use cargo_stylus.Common.Text.{str_eq, contains}
use cargo_stylus.Common.Bytes.{Bytes}
use cargo_stylus.Common.Outcome
use cargo_stylus.Common.Outcome.{Outcome, ok, err, panic, out_of_fuel}
use cargo_stylus.Project.Toolchain.{Value, TomlError, extract_toolchain_channel}

-- A call of `docker`, with what is written to its input
pub record Invocation : Type 0 where
  pub args : List String
  pub input : String

-- `std::process::Output`; the error text is `none` if it is not UTF-8.
pub record Output : Type 0 where
  pub success : Bool
  pub stdout : Bytes
  pub stderr : Option String

pub data Failure : Type 0 where
  not_executed wait_failed write_failed bad_stderr docker_not_running : Failure
  docker_failed : String → Failure
  no_os_type no_kernel_version windows_without_wsl no_current_dir : Failure
  toolchain : TomlError → Failure

-- The host: what `sys_info` says of it, the toolchain file and the current directory.
pub record Host : Type 0 where
  pub os_type : Option String
  pub os_release : Option String
  pub current_dir : Option String
  pub toolchain_file : Option String
  -- What docker does, after the calls that were made before: `none` if it cannot be started.
  pub docker : List Invocation → Invocation → Option Output
  -- Whether its input can be written, and whether it can be waited for
  pub writes : List Invocation → Invocation → Bool
  pub waits : List Invocation → Invocation → Bool

-- What is run, from the calls that were made before.
abbrev pub Shell : Type 0 → Type 0
Shell A = List Invocation → Outcome Failure A × List Invocation

continue :
    {A B : Type 0}
    → Outcome Failure A
    → List Invocation
    → (A → Shell B)
    → Outcome Failure B × List Invocation
continue (ok a) calls f = f a calls
continue (err e) calls f = (err e, calls)
continue panic calls f = (panic, calls)
continue out_of_fuel calls f = (out_of_fuel, calls)

infixl 5 ◌>>=◌ ◌>>◌
unfoldable pub ◌>>=◌ : {A B : Type 0} → Shell A → (A → Shell B) → Shell B
unfolding continue
◌>>=◌ m f calls = let r = m calls in continue r.0 r.1 f

abbrev pub ◌>>◌ : {A B : Type 0} → Shell A → Shell B → Shell B
m >> k = m >>= λ _. k

unfoldable pub pure : {A : Type 0} → A → Shell A
pure a calls = (ok a, calls)

unfoldable pub lift : {A : Type 0} → Outcome Failure A → Shell A
lift m calls = (m, calls)

unfoldable pub image_name : String → String → String
image_name cargo_stylus_version toolchain_version =
    "cargo-stylus-base-" <> (cargo_stylus_version <> ("-toolchain-" <> toolchain_version))

-- The bytes that are line feeds
unfoldable pub count_lines : Bytes → ℕ
count_lines [] = 0
count_lines (b ∷ bytes) = let rest = count_lines bytes in if b == 10 then 1 + rest else rest

-- The header of `docker images` is a line too.
unfoldable pub image_found : Output → Outcome Failure Bool
unfolding count_lines contains
image_found output =
    if output.success then ok (ltb 1 (count_lines output.stdout)) else elim output.stderr [
      | none ↦ err bad_stderr
      | some stderr ↦
          if contains stderr "Cannot connect to the Docker daemon"
          then err docker_not_running
          else err (docker_failed stderr)
    ]

unfoldable pub build_args : String → List String
build_args image = "build" ∷ "-t" ∷ image ∷ "." ∷ "-f-" ∷ []

unfoldable pub dockerfile : String → String → String
dockerfile cargo_stylus_version toolchain_version =
    let target = toolchain_version <> "-x86_64-unknown-linux-gnu\n" in
    "ARG BUILD_PLATFORM=linux/amd64\n            FROM --platform=${BUILD_PLATFORM} offchainlabs/cargo-stylus-base:"
    <> (cargo_stylus_version
        <> (" AS base\n            RUN rustup toolchain install "
            <> (target
                <> ("            RUN rustup default "
                    <> (target
                        <> ("            RUN rustup target add wasm32-unknown-unknown\n            RUN rustup component add rust-src --toolchain "
                            <> (target <> "        ")))))))

unfoldable pub run_args : String → String → List String → List String
run_args dir image command_line =
    "run"
    ∷ "--network"
    ∷ "host"
    ∷ "-w"
    ∷ "/source"
    ∷ "-v"
    ∷ (dir <> ":/source")
    ∷ image
    ∷ command_line

unfoldable pub verify_valid_host : Option String → Option String → Outcome Failure (Unit {0})
unfolding contains
verify_valid_host none os_release = err no_os_type
verify_valid_host (some os_type) os_release =
    if str_eq os_type "Windows"
    then elim os_release [
      | none ↦ err no_kernel_version
      | some kernel_version ↦
          if contains kernel_version "microsoft" || contains kernel_version "WSL"
          then ok tt
          else err windows_without_wsl
    ]
    else ok tt

module _ (H : Host) where
  open H use {docker, writes, waits}

  -- `.output()`, `.spawn()` and the writing of the input: a call that is started is recorded.
  unfoldable pub start : Invocation → Shell Output
  start call calls = elim (docker calls call) [
    | none ↦ (err not_executed, calls)
    | some output ↦ (ok output, calls ++ call ∷ [])
  ]

  -- A test on the last call, which is still running
  unfoldable pub after :
      (List Invocation → Invocation → Bool) → Failure → Invocation → Shell (Unit {0})
  after test e call calls = if test calls call then (ok tt, calls) else (err e, calls)

  unfoldable pub image_exists : String → Shell Bool
  unfolding start image_found
  image_exists image = do
    output ← start (record { args = "images" ∷ image ∷ []; input = "" })
    lift (image_found output)

  -- The exit status of the build is not looked at.
  unfoldable pub build_image : String → String → Shell (Unit {0})
  unfolding start after image_name build_args dockerfile
  build_image cargo_stylus_version toolchain_version =
      let call : Invocation = record {
        args = build_args (image_name cargo_stylus_version toolchain_version);
        input = dockerfile cargo_stylus_version toolchain_version;
      } in
      (do output ← start call; after writes write_failed call; after waits wait_failed call)

  unfoldable pub create_image : String → String → Shell (Unit {0})
  unfolding image_exists build_image image_name
  create_image cargo_stylus_version toolchain_version = do
    exists ← image_exists (image_name cargo_stylus_version toolchain_version)
    if exists then pure tt else build_image cargo_stylus_version toolchain_version

  unfoldable pub run_in_docker_container : String → String → List String → Shell (Unit {0})
  unfolding start after image_name run_args
  run_in_docker_container cargo_stylus_version toolchain_version command_line = do
    dir ← lift (Outcome.ok_or no_current_dir H.current_dir)
    let call : Invocation = record {
      args = run_args dir (image_name cargo_stylus_version toolchain_version) command_line;
      input = "";
    }
    output ← start call
    after waits wait_failed call

  -- The version of this crate, `env!("CARGO_PKG_VERSION")`, and the arguments of
  -- `extract_toolchain_channel`
  module _ (cargo_pkg_version : String) (beyond : ℕ → Bool) (from_str : String → Option Value) where
    unfoldable pub version_or_own : Option String → String
    version_or_own none = cargo_pkg_version
    version_or_own (some version) = version

    unfoldable pub toolchain_channel : Outcome Failure String
    unfolding extract_toolchain_channel
    toolchain_channel = elim (extract_toolchain_channel beyond from_str H.toolchain_file) [
      | ok channel ↦ ok channel
      | err e ↦ err (toolchain e)
      | panic ↦ panic
      | out_of_fuel ↦ out_of_fuel
    ]

    unfoldable pub run_reproducible : Option String → List String → Shell (Unit {0})
    unfolding version_or_own toolchain_channel create_image run_in_docker_container
        verify_valid_host
    run_reproducible cargo_stylus_version command_line = do
      lift (verify_valid_host H.os_type H.os_release)
      toolchain_channel ← lift toolchain_channel
      let version = version_or_own cargo_stylus_version
      create_image version toolchain_channel
      run_in_docker_container version toolchain_channel ("cargo" ∷ "stylus" ∷ command_line)
