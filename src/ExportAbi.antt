-- ===== src/ExportAbi.antt =====
-- The ABI and the constructor of a contract, from the project's own binary
-- (main/src/export_abi.rs).
use Prim.Native.String.{◌++◌ as ◌<>◌}
use cargo_stylus.Common.{String, Bool, not, ◌&&◌, Option, none, some, List, [], ◌∷◌, if◌then◌else◌}
use cargo_stylus.Common.Text.{starts_with}
use cargo_stylus.Common.Bytes.{Bytes}
use cargo_stylus.Common.Outcome
use cargo_stylus.Common.Outcome.{Outcome, ok, err, ◌>>=◌}
use cargo_stylus.Cli.Words.{join}
use cargo_stylus.Wallet.{trim}

pub data ExportError : Type 0 where
  solc_not_found no_host_arch cargo_not_run exited : ExportError
  solc_failed not_utf8 bad_constructor file_not_created not_written : ExportError

-- What cargo leaves: its success, and its output, also as text if it is UTF-8.
pub record CargoOutput : Type 0 where
  pub success : Bool
  pub stdout : Bytes
  pub text : Option String

-- What is printed or written, and where
pub record Exported : Type 0 where
  pub file : Option String
  pub bytes : Bytes

-- The host, `Constructor::parse`, and whether a file (or the terminal) can be opened and written.
pub record ExportHost : Type 1 where
  pub Constructor : Type 0
  pub parse : String → Option Constructor
  pub command_exists : String → Bool
  pub host_arch : Option String
  pub cargo : List String → Option CargoOutput
  pub solc : Bytes → Option Bytes
  pub creates : Option String → Bool
  pub writes : Option String → Bool

unfoldable pub join_features : Option (List String) → Option String
unfolding join
join_features none = none
join_features (some feature_list) = some (join "," feature_list)

abbrev or_default : Option String → String
or_default none = ""
or_default (some s) = s

-- The arguments of cargo: the project's binary is run with the command.
unfoldable pub run_args : String → String → Option String → List String
run_args host_arch command features =
    "run"
    ∷ "--quiet"
    ∷ ("--features=export-abi," <> or_default features)
    ∷ ("--target=" <> host_arch)
    ∷ "--"
    ∷ command
    ∷ []

module _ (H : ExportHost) where
  open H use {Constructor, parse, command_exists, host_arch, cargo, solc, creates, writes}

  -- The process ends if the binary fails.
  unfoldable pub run_export : String → Option String → Outcome ExportError CargoOutput
  unfolding run_args
  run_export command features = Outcome.ok_or no_host_arch host_arch >>= λ arch.
      Outcome.ok_or cargo_not_run (cargo (run_args arch command features)) >>= λ output.
      if output.success then ok output else err exited

  unfoldable pub write_all : Option String → Bytes → Outcome ExportError Exported
  write_all file bytes =
      if creates file
      then (if writes file then ok (record { file = file; bytes = bytes }) else err not_written)
      else err file_not_created

  unfoldable pub convert : Bool → Bytes → Outcome ExportError Bytes
  convert json output = if json then Outcome.ok_or solc_failed (solc output) else ok output

  unfoldable pub export_abi :
      Option String → Bool → Option (List String) → Outcome ExportError Exported
  unfolding join_features run_export write_all convert
  export_abi file json rust_features =
      if json && not (command_exists "solc")
      then err solc_not_found
      else (run_export "abi" (join_features rust_features) >>= λ output.
          convert json output.stdout >>= λ bytes. write_all file bytes)

  -- Nothing is written if the output does not begin with `constructor`.
  unfoldable pub print_constructor :
      Option String → Option (List String) → Outcome ExportError (Option Exported)
  unfolding join_features run_export write_all
  print_constructor file rust_features =
      run_export "constructor" (join_features rust_features) >>= λ output.
      Outcome.ok_or not_utf8 output.text >>= λ text.
      if starts_with text "constructor"
      then (write_all file output.stdout >>= λ written. ok (some written))
      else ok none

  unfoldable pub parse_constructor : String → Outcome ExportError (Option Constructor)
  unfolding trim
  parse_constructor signature =
      let signature = trim signature in
      if starts_with signature "constructor"
      then (Outcome.ok_or bad_constructor (parse signature) >>= λ constructor.
          ok (some constructor))
      else ok none

  unfoldable pub get_constructor_signature : Outcome ExportError (Option Constructor)
  unfolding run_export parse_constructor
  get_constructor_signature = run_export "constructor" none >>= λ output.
      Outcome.ok_or not_utf8 output.text >>= λ text. parse_constructor text
