-- ===== src/GetInitcode/Created.antt =====
-- What the printed init code creates (main/src/get_initcode.rs).
use cargo_stylus.Common.{
  ◌<◌, ◌^◌, ◌≡◌, ap, ◌∙◌, String, Bool, Option, none, some, [], ◌∷◌, length, arith,
}
use cargo_stylus.Common.Bytes.{Bytes, IsBytes, IsBytes-append, IsBytes-to_be_bytes, to_be_bytes}
use cargo_stylus.Trace.Cursor.{Codec}
use cargo_stylus.Common.Files.{Entry}
use cargo_stylus.Common.Outcome.{ok, >>=-eq-ok}
use cargo_stylus.Deploy.Calldata.{contract_deployment_calldata}
use cargo_stylus.Deploy.Calldata.Evm.{create, boot}
use cargo_stylus.Deploy.Calldata.InitCode.{create-contract_deployment_calldata}
use cargo_stylus.Project.Wasm.{compress_wasm}
use cargo_stylus.Project.Build.{Workspace, build_wasm_from_features, map_err}
use cargo_stylus.Project.Build.Hashed.{map_err-eq-ok}
use cargo_stylus.Cli.Config.{GetInitcodeConfig}
use cargo_stylus.GetInitcode.{
  not_built, not_compressed, Output, to_file, printed, write_output, get_initcode,
}

abbrev pub text_of : Output → String
text_of (to_file path text) = text
text_of (printed text) = text

contract_deployment_calldata-IsBytes :
    (code : Bytes) → IsBytes code → IsBytes (contract_deployment_calldata code)
unfolding contract_deployment_calldata
contract_deployment_calldata-IsBytes code h = (
  omega arith,
  IsBytes-append (to_be_bytes 32 (length code)) _ (IsBytes-to_be_bytes 32 (length code))
      (IsBytes-append (128 ∷ 96 ∷ 43 ∷ 96 ∷ 0 ∷ 57 ∷ 96 ∷ 0 ∷ 243 ∷ 0 ∷ []) code (omega arith) h),
)

module _ (W : Workspace) (H : Codec) (creates writes : String → Bool) where
  text_of-write_output :
      (path : Option String) (text : String) (output : Output)
      → write_output W H.encode creates writes path text ≡ ok output
      → text_of output ≡ text
  unfolding write_output
  text_of-write_output none text output h = ground arith
  text_of-write_output (some path) text output h = ground arith

  -- Init code as text, with the build that it is made from
  pub record IsInitcode (cfg : GetInitcodeConfig) (output : Output) : Type 0 where
    pub file : Entry
    pub hash : Bytes
    pub wasm : Bytes
    pub code : Bytes
    pub initcode : Bytes
    pub built :
        build_wasm_from_features W cfg.features cfg.source_files_for_project_hash ≡ ok (file, hash)
    pub compressed : compress_wasm W.tools (W.read_wasm file) hash ≡ ok (wasm, code)
    pub decoded : IsBytes code → H.decode (text_of output) ≡ some initcode
    pub creates_code : length code < 256 ^ 32 → create 8 initcode (boot initcode) ≡ some code

  -- What `get-initcode` puts out, if it succeeds, is of a contract that was built and compressed.
  -- If the contract's code is bytes, the text decodes to an init code, which, if the length of the
  -- code fits 32 bytes, leaves exactly the code when the chain runs it.
  pub get_initcode-IsInitcode :
      (cfg : GetInitcodeConfig) (output : Output)
      → get_initcode W H.encode creates writes cfg ≡ ok output
      → IsInitcode cfg output
  unfolding get_initcode
  get_initcode-IsInitcode cfg output h =
      let ((file, hash), e1, h1) =
        >>=-eq-ok
          (map_err not_built
            (build_wasm_from_features W cfg.features cfg.source_files_for_project_hash))
          _ h in
      let ((wasm, code), e2, h2) =
        >>=-eq-ok (map_err not_compressed (compress_wasm W.tools (W.read_wasm file) hash)) _ h1 in
      record {
        file = file;
        hash = hash;
        wasm = wasm;
        code = code;
        initcode = contract_deployment_calldata code;
        built = map_err-eq-ok not_built _ (file, hash) e1;
        compressed = map_err-eq-ok not_compressed _ (wasm, code) e2;
        decoded = λ b.
            ap H.decode (text_of-write_output cfg.output _ output h2)
            ∙ H.decode-encode _ (contract_deployment_calldata-IsBytes code b);
        creates_code = create-contract_deployment_calldata code;
      }
