-- ===== src/Project/Wasm.antt =====
-- The sections of a wasm file, and the code of a contract (`compress_wasm`, main/src/project.rs).
pub mod Hash
use cargo_stylus.Common.{
  ℕ, ◌-◌, ◌≤◌, String, Bool, true, false, ◌&&◌, Option, none, some, List, [], ◌∷◌, ◌++◌, length,
  take, drop, leb, if◌then◌else◌,
}
use cargo_stylus.Common.Text.{str_eq}
use cargo_stylus.Common.Bytes.{Bytes}
use cargo_stylus.Common.Outcome
use cargo_stylus.Common.Outcome.{Outcome, ok, err, panic, ◌>>=◌}

-- `wasmparser::Payload`, with the range of a section in the file, and whether it is one at all
pub data Payload : Type 0 where
  custom_section : (name : String) → (bytes : Bytes) → Payload
  unknown_section : Payload
  section : (id : ℕ) → (start : ℕ) → (end : ℕ) → Payload
  no_section : Payload

pub data WasmError : Type 0 where
  not_read not_printed not_parsed bad_payload bad_wat not_compressed : WasmError

abbrev pub project_hash_section_name : String
project_hash_section_name = "project_hash"

-- The payloads, an error of the parser as `none`
abbrev pub Payloads : Type 0
Payloads = List (Option Payload)

unfoldable pub is_hash_section : Payload → Bool
is_hash_section (custom_section name bytes) = str_eq name project_hash_section_name
is_hash_section _ = false

-- The loop of `has_project_hash_section`
unfoldable pub has_hash_loop : Payloads → Outcome WasmError Bool
unfolding is_hash_section
has_hash_loop [] = ok false
has_hash_loop (none ∷ payloads) = err bad_payload
has_hash_loop (some payload ∷ payloads) = elim (is_hash_section payload) [
  | true ↦ ok true
  | false ↦ has_hash_loop payloads
]

-- `&bytes[start..end]`
unfoldable pub slice : ℕ → ℕ → Bytes → Outcome WasmError Bytes
slice start end bytes =
    if leb start end && leb end (length bytes)
    then ok (take (end - start) (drop start bytes))
    else panic

-- The loop of `strip_user_metadata`, with the sections of the module that is written
unfoldable pub strip_loop :
    Bytes → Payloads → List (ℕ × Bytes) → Outcome WasmError (List (ℕ × Bytes))
unfolding slice
strip_loop file [] sections = ok sections
strip_loop file (none ∷ payloads) sections = err bad_payload
strip_loop file (some (custom_section name bytes) ∷ payloads) sections =
    strip_loop file payloads sections
strip_loop file (some unknown_section ∷ payloads) sections = strip_loop file payloads sections
strip_loop file (some (section id start end) ∷ payloads) sections =
    slice start end file >>= λ data_slice.
    strip_loop file payloads (sections ++ (id, data_slice) ∷ [])
strip_loop file (some no_section ∷ payloads) sections = strip_loop file payloads sections

-- The crates that read and write wasm, and brotli
pub record WasmTools : Type 0 where
  pub parse_all : Bytes → Payloads
  pub write_custom_section : Bytes → String → Bytes → Bytes
  pub finish : List (ℕ × Bytes) → Bytes
  pub print_bytes : Bytes → Option Bytes
  pub wat2wasm : Bytes → Option Bytes
  pub brotli : Bytes → Option Bytes

module _ (T : WasmTools) where
  open T use {parse_all, write_custom_section, finish, print_bytes, wat2wasm, brotli}

  unfoldable pub has_project_hash_section : Bytes → Outcome WasmError Bool
  unfolding has_hash_loop
  has_project_hash_section file = has_hash_loop (parse_all file)

  unfoldable pub add_custom_section : Bytes → Bytes → Bytes
  add_custom_section file project_hash =
      write_custom_section file project_hash_section_name project_hash

  unfoldable pub add_project_hash_to_wasm_file : Bytes → Bytes → Outcome WasmError Bytes
  unfolding has_project_hash_section add_custom_section
  add_project_hash_to_wasm_file file project_hash =
      has_project_hash_section file >>= λ section_exists.
      if section_exists then ok file else ok (add_custom_section file project_hash)

  unfoldable pub strip_user_metadata : Bytes → Outcome WasmError Bytes
  unfolding strip_loop
  strip_user_metadata file =
      strip_loop file (parse_all file) [] >>= λ sections. ok (finish sections)

  -- `EOF_PREFIX_NO_DICT`
  abbrev pub eof_prefix_no_dict : Bytes
  eof_prefix_no_dict = 239 ∷ 240 ∷ 0 ∷ 0 ∷ []

  -- The stripped file, parsed once more and compressed
  unfoldable pub contract_code : Bytes → Outcome WasmError (Bytes × Bytes)
  contract_code stripped = Outcome.ok_or not_parsed (wat2wasm stripped) >>= λ wasm.
      Outcome.ok_or not_compressed (brotli wasm) >>= λ compressed_bytes.
      ok (wasm, eof_prefix_no_dict ++ compressed_bytes)

  -- What the file holds, or `none` if it cannot be read, to the wasm and the contract's code.
  unfoldable pub compress_wasm : Option Bytes → Bytes → Outcome WasmError (Bytes × Bytes)
  unfolding add_project_hash_to_wasm_file strip_user_metadata contract_code
  compress_wasm contents project_hash = Outcome.ok_or not_read contents >>= λ wasm.
      Outcome.ok_or not_printed (print_bytes wasm) >>= λ wat_str.
      Outcome.ok_or bad_wat (wat2wasm wat_str) >>= λ wasm.
      add_project_hash_to_wasm_file wasm project_hash >>= λ wasm.
      strip_user_metadata wasm >>= λ wasm. contract_code wasm
