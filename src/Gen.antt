-- ===== src/Gen.antt =====
-- `cargo stylus cgen` (main/src/gen.rs): C bindings of the contracts in the output of solc.
pub mod Text
pub mod Storage
pub mod Dirs
use Prim.Native.String.{◌++◌ as ◌<>◌}
use cargo_stylus.Common.{
  ℕ, suc, ◌+◌, String, Bool, true, false, Option, none, some, List, [], ◌∷◌, ◌++◌, if◌then◌else◌,
}
use cargo_stylus.Common.Text.{str_eq}
use cargo_stylus.Common.Outcome
use cargo_stylus.Common.Outcome.{Outcome, ok, err, ◌>>=◌}
use cargo_stylus.Cli.Words.{is_empty}
use cargo_stylus.Trace.Json.{Value, Members, object, array, end, member}
use cargo_stylus.Gen.Text.{Function, header_of, router_of, header_file, router_file}
use cargo_stylus.Gen.Storage.{get, storage_lines}

pub data GenError : Type 0 where
  not_read no_contracts dir_not_made bad_abi not_written : GenError

-- The directory that files are written to, as components, and the files that have been written
pub record GenState : Type 0 where
  pub pathbuf : List String
  pub files : List (List String × String)

-- `pathbuf.pop()`
unfoldable pub pop : List String → List String
pop [] = []
pop (a ∷ []) = []
pop (a ∷ b ∷ path) = a ∷ pop (b ∷ path)

-- What surrounds the generator: the components of a path, serde and alloy for the ABI, the upper
-- case of a text, keccak256, the order in which the map of the methods is walked through, and the
-- files.
pub record GenHost : Type 0 where
  pub components : String → List String
  pub abi_functions : Value → Option (List Function)
  pub to_uppercase : String → String
  pub keccak256 : List ℕ → List ℕ
  pub order : List (String × List Function) → List (String × List Function)
  pub creates : List String → Bool
  pub writes : List String → Bool

-- The functions by their names, in a map
unfoldable pub add_method : Function → List (String × List Function) → List (String × List Function)
add_method f [] = (f.name, f ∷ []) ∷ []
add_method f ((name, fs) ∷ methods) =
    let rest = add_method f methods in
    if str_eq name f.name then (name, fs ++ f ∷ []) ∷ methods else (name, fs) ∷ rest

unfoldable pub add_methods :
    List Function → List (String × List Function) → List (String × List Function)
unfolding add_method
add_methods [] methods = methods
add_methods (f ∷ functions) methods = add_methods functions (add_method f methods)

module _ (H : GenHost) where
  open H use {components, abi_functions, to_uppercase, keccak256, order, creates, writes}

  unfoldable pub methods_of : Option Value → Outcome GenError (List (String × List Function))
  unfolding add_methods
  methods_of none = ok []
  methods_of (some raw) =
      Outcome.ok_or bad_abi (abi_functions raw) >>= λ functions. ok (add_methods functions [])

  unfoldable pub write : String → String → GenState → Outcome GenError GenState
  write filename contents state =
      if writes (state.pathbuf ++ filename ∷ [])
      then ok
          (record state { files = state.files ++ (state.pathbuf ++ filename ∷ [], contents) ∷ [] })
      else err not_written

  -- A text that is empty is not written.
  unfoldable pub write_some : String → String → String → GenState → Outcome GenError GenState
  unfolding write
  write_some text filename contents state =
      if is_empty text then ok state else write filename contents state

  unfoldable pub unique_identifier : String → String → String
  unique_identifier file_name contract_name =
      "__" <> (to_uppercase file_name <> ("_" <> (to_uppercase contract_name <> "_")))

  -- The two files of a contract, from its methods and its storage
  unfoldable pub write_contract :
      (file_name contract_name : String)
      → (storage_layout : Option Value) → List (String × List Function)
      → GenState
      → Outcome GenError GenState
  unfolding write_some unique_identifier header_of router_of storage_lines header_file router_file
  write_contract file_name contract_name storage_layout methods state =
      let signatures = header_of methods in
      let functions = if is_empty signatures then signatures else signatures <> "\n" in
      let header = functions <> storage_lines keccak256 storage_layout in
      write_some header (contract_name <> ".h")
        (header_file (unique_identifier file_name contract_name) header) state
      >>= write_some (router_of methods) (contract_name <> "_main.c")
          (router_file contract_name (router_of methods))

  unfoldable pub gen_contract :
      (file_name : String) → (contract_name : String) → Value → GenState → Outcome GenError GenState
  unfolding methods_of write_contract get
  gen_contract file_name contract_name (object properties) state =
      methods_of (get "abi" properties) >>= λ methods.
      write_contract file_name contract_name (get "storageLayout" properties) (order methods) state
  gen_contract file_name contract_name _ state = ok state

  unfoldable pub gen_contracts :
      (file_name : String) → Members → GenState → Outcome GenError GenState
  unfolding gen_contract
  gen_contracts file_name end state = ok state
  gen_contracts file_name (member contract_name value rest) state =
      gen_contract file_name contract_name value state >>= gen_contracts file_name rest

  -- A file of the sources: its directory is made, and left with one `pop`.
  unfoldable pub gen_file : (file_name : String) → Value → GenState → Outcome GenError GenState
  unfolding gen_contracts pop
  gen_file file_name (object contracts) state =
      let dir = state.pathbuf ++ components file_name in
      if creates dir
      then (gen_contracts file_name contracts (record state { pathbuf = dir }) >>= λ after.
          ok (record after { pathbuf = pop after.pathbuf }))
      else err dir_not_made
  gen_file file_name _ state = ok state

  unfoldable pub gen_files : Members → GenState → Outcome GenError GenState
  unfolding gen_file
  gen_files end state = ok state
  gen_files (member file_name value rest) state = gen_file file_name value state >>= gen_files rest

  unfoldable pub contracts_of : Option Value → Outcome GenError Members
  contracts_of (some (object contracts)) = ok contracts
  contracts_of _ = err no_contracts

  unfoldable pub top_member : Value → Option Value
  unfolding get
  top_member (object members) = get "contracts" members
  top_member _ = none

  -- `input` is what the file holds as JSON, if it can be read.
  unfoldable pub c_gen : (input : Option Value) → (out_path : String) → Outcome GenError GenState
  unfolding contracts_of top_member gen_files
  c_gen input out_path = Outcome.ok_or not_read input >>= λ value.
      contracts_of (top_member value) >>= λ contracts.
      gen_files contracts (record { pathbuf = components out_path; files = [] })
