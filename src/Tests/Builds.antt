-- ===== src/Tests/Builds.antt =====
-- A project of two files in a directory tree, its toolchain and its build.
use cargo_stylus.Common.{
  zero, suc, ◌+◌, ◌≤◌, ◌≡◌, refl, ◌↔◌, String, true, false, Option, none, some, List, [], ◌∷◌, ◌++◌,
  All, arith, if◌then◌else◌,
}
use cargo_stylus.Common.Text.{str_eq}
use cargo_stylus.Common.Bytes.{Bytes, bytes_eq, to_be_bytes}
use cargo_stylus.Common.Files
use cargo_stylus.Common.Outcome.{ok}
use cargo_stylus.Project.{PathBuf, hash_files}
use cargo_stylus.Project.Toolchain.{
  Value, Fields, is_channel_char, check_channel, extract_toolchain_channel,
}
use cargo_stylus.Project.Toolchain.Channel.{
  IsChannel, extract_toolchain_channel_iff, check_channel_generic,
}
use cargo_stylus.Project.Walk.{
  Entry, ascii, path_eq, is_included, is_skipped_dir, expand_glob_patterns, all_paths,
}
use cargo_stylus.Project.Walk.Tree.{
  Tree, nil, file, dir, entries_of, count_dirs, Reads, enumerate, all_paths-enumerate,
}
use cargo_stylus.Project.Walk.Globs.{leads}
use cargo_stylus.Project.Wasm.{Payloads, section, custom_section, WasmTools, compress_wasm}
use cargo_stylus.Project.Wasm.Hash.{IsAppended, compress_wasm_hash}
use cargo_stylus.Project.Build.{Workspace, new_config, hash_project, build_wasm_from_features}
use cargo_stylus.Project.Build.Blind.{hash_project_globs}
use cargo_stylus.Project.Build.Found.{IsBuiltWith, build_wasm_from_features-IsBuiltWith}
use cargo_stylus.Deploy.Calldata.{contract_deployment_calldata}
use cargo_stylus.GetInitcode.{Output, to_file, get_initcode}
use cargo_stylus.GetInitcode.Created.{IsInitcode, get_initcode-IsInitcode}
use cargo_stylus.Cli.Config.{GetInitcodeConfig}
use cargo_stylus.Tests.Instances.{hex}
use cargo_stylus.Tests.CommandLine.{toolchain_of}

toolchain_toml :
    toolchain_of "1.80.0" ""
    ≡ some (
        Value.table (
          Fields.field "toolchain"
            (Value.table (Fields.field "channel" (Value.string "1.80.0") Fields.end))
            Fields.end))
toolchain_toml = refl

channel_example :
    (extract_toolchain_channel (λ c. false) (toolchain_of "1.80.0") (some "") ≡ ok "1.80.0")
    ↔ IsChannel
        (λ c. false)
        (Value.table (
          Fields.field "toolchain"
            (Value.table (Fields.field "channel" (Value.string "1.80.0") Fields.end))
            Fields.end))
        "1.80.0"
channel_example =
    extract_toolchain_channel_iff (λ c. false) (toolchain_of "1.80.0") "" _ "1.80.0" refl

space_is_dropped : is_channel_char (λ c. false) 32 ≡ false
unfolding is_channel_char
space_is_dropped = refl

generic_example :
    (check_channel (λ c. false) " stable" ≡ ok "stable")
    × (check_channel (λ c. false) " nightly" ≡ ok "nightly")
    × (check_channel (λ c. false) " beta" ≡ ok "beta")
generic_example = check_channel_generic (λ c. false) " " space_is_dropped

abbrev dot : Bytes
dot = ascii "."

-- ./target/x.rs, ./src/lib.rs, ./Cargo.toml, ./notes
abbrev tree : Tree
tree = dir (ascii "target") (file (ascii "x.rs") nil) (
    dir (ascii "src") (file (ascii "lib.rs") nil)
      (file (ascii "Cargo.toml") (file (ascii "notes") nil)))

abbrev read_dir : PathBuf → Option (List (Option Entry))
read_dir [] = none
read_dir (root ∷ []) = some (entries_of tree)
read_dir (root ∷ name ∷ rest) = some (entries_of (file (ascii "lib.rs") nil))

abbrev no_globs : String → Option (List (Option PathBuf))
no_globs pattern = none

Reads-tree : Reads read_dir (dot ∷ []) tree
unfolding is_skipped_dir bytes_eq
Reads-tree = ((λ h. absurd (cc)), ((λ h. (refl, tt)), tt))

no_patterns : expand_glob_patterns no_globs [] ≡ ok []
unfolding expand_glob_patterns
no_patterns = refl

fuel_is_enough : count_dirs tree + 1 ≤ 3
unfolding count_dirs is_skipped_dir bytes_eq
fuel_is_enough = omega arith

walk_example : all_paths read_dir no_globs 3 (dot ∷ []) [] ≡ ok (enumerate [] (dot ∷ []) tree)
walk_example =
    all_paths-enumerate read_dir no_globs [] [] (dot ∷ []) tree 3 no_patterns refl Reads-tree
      fuel_is_enough

walked :
    all_paths read_dir no_globs 3 (dot ∷ []) []
    ≡ ok ((dot ∷ ascii "Cargo.toml" ∷ []) ∷ (dot ∷ ascii "src" ∷ ascii "lib.rs" ∷ []) ∷ [])
unfolding all_paths entries_of is_skipped_dir bytes_eq is_included
walked = refl

-- Tools of which the assembler knows one module, of one section
abbrev parse_all : Bytes → Payloads
parse_all (zero ∷ []) = some (section 1 0 1) ∷ []
parse_all (zero ∷ suc t ∷ bytes) =
    some (section 1 0 1) ∷ some (custom_section "project_hash" bytes) ∷ []
parse_all _ = []

abbrev tools : WasmTools
tools = record {
  parse_all = parse_all;
  write_custom_section = λ file name bytes. file ++ 1 ∷ bytes;
  finish = λ sections. 0 ∷ [];
  print_bytes = λ file. some file;
  wat2wasm = λ wat. some (0 ∷ []);
  brotli = λ file. some file;
}

appended : (wat file bytes : Bytes) → tools.wat2wasm wat ≡ some file → IsAppended tools file bytes
appended wat module_file bytes e =
    let same : ◌≡◌ {A = Bytes} module_file (0 ∷ []) = cc in
    rw same (record {
      before = some (section 1 0 1) ∷ [];
      after = [];
      tail = 1 ∷ bytes;
      parsed = refl;
      written = refl;
      reparsed = refl;
      inside = (omega arith, (tt, tt));
    })

hash_example : compress_wasm tools (some []) (1 ∷ []) ≡ compress_wasm tools (some []) (2 ∷ [])
hash_example = compress_wasm_hash tools (some []) (1 ∷ []) (2 ∷ []) appended

compressed : compress_wasm tools (some []) (1 ∷ []) ≡ ok (0 ∷ [], 239 ∷ 240 ∷ 0 ∷ 0 ∷ 0 ∷ [])
unfolding compress_wasm
compressed = refl

abbrev cargo_toml : Value
cargo_toml = Value.table (
    Fields.field "package"
      (Value.table (
        Fields.field "name" (Value.string "my-token")
          (Fields.field "version" (Value.string "0.1.0") Fields.end)))
      Fields.end)

abbrev from_str : String → Option Value
from_str text = if str_eq text "tool" then toolchain_of "1.80.0" text else some cargo_toml

-- The library of the contract, behind one of another name with the same end
abbrev built : Files.Entry
built = record { file_name = some "other_my_token.wasm"; is_file = true }

abbrev release : List (Option Files.Entry)
release =
    some (record { file_name = some "libcore.rlib"; is_file = true })
    ∷ some built
    ∷ some (record { file_name = some "my_token.wasm"; is_file = true })
    ∷ []

-- A pattern for ./src/lib.rs, to a path without the leading component
abbrev lib_glob : String → Option (List (Option PathBuf))
lib_glob pattern = some (some (ascii "src" ∷ ascii "lib.rs" ∷ []) ∷ [])

abbrev read : Bytes → PathBuf → Option Bytes
read contents path =
    if path_eq path (dot ∷ ascii "rust-toolchain.toml" ∷ []) then some (1 ∷ []) else some contents

abbrev space : Workspace
space = record {
  from_str = from_str;
  to_string = λ value. "\"my-token\"";
  beyond = λ c. false;
  toolchain_toml = some "tool";
  cargo_toml = some "cargo";
  cargo = λ args. some true;
  cargo_version = some (true, 49 ∷ []);
  release_dir = some release;
  read_wasm = λ file. some [];
  tools = tools;
  keccak256 = λ b. b;
  read = read (7 ∷ []);
  toolchain_file = dot ∷ ascii "rust-toolchain.toml" ∷ [];
  all_paths = all_paths read_dir lib_glob 3 (dot ∷ []);
}

expanded :
    expand_glob_patterns lib_glob ("src/lib.rs" ∷ [])
    ≡ ok ((ascii "src" ∷ ascii "lib.rs" ∷ []) ∷ [])
unfolding expand_glob_patterns
expanded = refl

no_leading_dot : All (λ p. leads dot p ≡ false) ((ascii "src" ∷ ascii "lib.rs" ∷ []) ∷ [])
unfolding bytes_eq
no_leading_dot = (refl, tt)

same_toolchain :
    read (7 ∷ []) (dot ∷ ascii "rust-toolchain.toml" ∷ [])
    ≡ read (8 ∷ []) (dot ∷ ascii "rust-toolchain.toml" ∷ [])
unfolding path_eq bytes_eq
same_toolchain = refl

globs_example :
    hash_project space ("src/lib.rs" ∷ []) (new_config true)
    ≡ hash_project (record space { read = read (8 ∷ []) }) ("src/lib.rs" ∷ []) (new_config true)
globs_example =
    hash_project_globs space (read (8 ∷ [])) read_dir lib_glob ("src/lib.rs" ∷ []) dot
      (ascii "src" ∷ ascii "lib.rs" ∷ []) [] tree 3 (new_config true) refl expanded no_leading_dot
      refl Reads-tree fuel_is_enough same_toolchain

abbrev hash : Bytes
hash =
    49
    ∷ 1
    ∷ (to_be_bytes 8 21 ++ (ascii "./rust-toolchain.toml" ++ (to_be_bytes 8 1 ++ 1 ∷ [])) ++ [])

build_ok : build_wasm_from_features space none ("src/lib.rs" ∷ []) ≡ ok (built, hash)
unfolding build_wasm_from_features extract_toolchain_channel Files.files_in compress_wasm hash_files
    path_eq bytes_eq all_paths entries_of is_skipped_dir is_included
build_ok = refl

built_example : IsBuiltWith space none ("src/lib.rs" ∷ []) built hash
built_example =
    build_wasm_from_features-IsBuiltWith space none ("src/lib.rs" ∷ []) built hash build_ok

abbrev config : GetInitcodeConfig
config = record {
  source_files_for_project_hash = "src/lib.rs" ∷ [];
  features = none;
  output = some "init.hex";
}

abbrev contract : Bytes
contract = 239 ∷ 240 ∷ 0 ∷ 0 ∷ 0 ∷ []

abbrev written : Output
written = to_file "init.hex" (hex.encode (contract_deployment_calldata contract))

initcode_ok : get_initcode space hex.encode (λ path. true) (λ path. true) config ≡ ok written
unfolding get_initcode build_wasm_from_features extract_toolchain_channel Files.files_in
    compress_wasm hash_files path_eq bytes_eq all_paths entries_of is_skipped_dir is_included
    contract_deployment_calldata to_be_bytes
initcode_ok = refl

initcode_example : IsInitcode space hex (λ path. true) (λ path. true) config written
initcode_example =
    get_initcode-IsInitcode space hex (λ path. true) (λ path. true) config written initcode_ok
