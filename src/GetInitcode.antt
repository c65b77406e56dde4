-- ===== src/GetInitcode.antt =====
-- `cargo stylus get-initcode` (main/src/get_initcode.rs): the init code of the contract, in hex.
pub mod Created
use cargo_stylus.Common.{ℕ, String, Bool, true, false, Option, none, some, List, if◌then◌else◌}
use cargo_stylus.Common.Bytes.{Bytes}
use cargo_stylus.Common.Files.{Entry}
use cargo_stylus.Common.Outcome
use cargo_stylus.Common.Outcome.{Outcome, ok, err, ◌>>=◌}
use cargo_stylus.Deploy.Calldata.{contract_deployment_calldata}
use cargo_stylus.Project.Wasm.{WasmError, compress_wasm}
use cargo_stylus.Project.Build.{BuildError, Workspace, build_wasm_from_features, map_err}
use cargo_stylus.Cli.Config.{GetInitcodeConfig}

pub data InitcodeError : Type 0 where
  not_built : BuildError → InitcodeError
  not_compressed : WasmError → InitcodeError
  file_not_created file_not_written : InitcodeError

-- Where the text goes: to a file, or to the terminal.
pub data Output : Type 0 where
  to_file : (path : String) → (text : String) → Output
  printed : (text : String) → Output

-- `hex::encode`, and whether a file can be created and written
module _ (W : Workspace) (encode : Bytes → String) (creates writes : String → Bool) where
  unfoldable pub write_output : Option String → String → Outcome InitcodeError Output
  write_output none hex_initcode = ok (printed hex_initcode)
  write_output (some path) hex_initcode =
      if creates path
      then (if writes path then ok (to_file path hex_initcode) else err file_not_written)
      else err file_not_created

  unfoldable pub get_initcode : GetInitcodeConfig → Outcome InitcodeError Output
  unfolding write_output
  get_initcode cfg =
      map_err not_built (build_wasm_from_features W cfg.features cfg.source_files_for_project_hash)
      >>= λ (wasm, project_hash).
          map_err not_compressed (compress_wasm W.tools (W.read_wasm wasm) project_hash)
          >>= λ (_, code). write_output cfg.output (encode (contract_deployment_calldata code))
