-- ===== src/Project.antt =====
-- The hash of a project's files (main/src/project.rs); the children have the build around it.
pub mod Preimage
pub mod Toolchain
pub mod Walk
pub mod Wasm
pub mod Build
use cargo_stylus.Common.{
  ℕ, String, Bool, true, false, Option, none, some, List, [], ◌∷◌, ◌++◌, length, if◌then◌else◌,
}
use cargo_stylus.Common.Outcome
use cargo_stylus.Common.Outcome.{Outcome, ok, err, ◌>>=◌ as ◌>>=ₒ◌}
use cargo_stylus.Common.Bytes.{Bytes, to_be_bytes}
use cargo_stylus.Common.Order.{LinearOrder, leb_order, lex_order, sort}
use cargo_stylus.Rpc.{Failure}

-- A path as its components, which is how paths are compared.
abbrev pub PathBuf : Type 0
PathBuf = List Bytes

abbrev pub path_order : LinearOrder PathBuf
path_order = lex_order (lex_order leb_order)

-- `as_os_str`, of a path with a separator of one byte
abbrev pub as_os_str : PathBuf → Bytes
as_os_str [] = []
as_os_str (component ∷ []) = component
as_os_str (component ∷ components) = component ++ b'/' ∷ as_os_str components

-- A length is a u64.
unfoldable pub preimage : Bytes → Bytes → Bytes
preimage filename contents =
    to_be_bytes 8 (length filename) ++ (filename ++ (to_be_bytes 8 (length contents) ++ contents))

-- The files of the project: what reading a path gives.
unfoldable pub read_file_preimage : (PathBuf → Option Bytes) → PathBuf → Outcome Failure Bytes
unfolding preimage
read_file_preimage read filename =
    Outcome.ok_or Failure.build_failed (read filename) >>=ₒ λ contents.
    ok (preimage (as_os_str filename) contents)

-- The loop over the results that the reading thread sends, in the order of the paths; the first
-- error ends it.
unfoldable pub read_all : (PathBuf → Option Bytes) → List PathBuf → Outcome Failure Bytes
unfolding read_file_preimage
read_all read [] = ok []
read_all read (filename ∷ rest) =
    read_file_preimage read filename >>=ₒ λ b. read_all read rest >>=ₒ λ more. ok (b ++ more)

-- `OptLevel`
pub data OptLevel : Type 0 where
  s z : OptLevel

abbrev pub opt_byte : OptLevel → ℕ
opt_byte OptLevel.z = 0
opt_byte OptLevel.s = 1

-- What the hash function is given, in pieces that it reads as one text. `paths` is what `all_paths`
-- finds.
unfoldable pub hash_files :
    (keccak256 : Bytes → Bytes)
    → (read : PathBuf → Option Bytes) → (toolchain_file : PathBuf) → (cargo_version_output : Bytes)
    → OptLevel
    → (paths : Outcome Failure (List PathBuf)) → Outcome Failure Bytes
unfolding read_all
hash_files keccak256 read toolchain_file cargo_version_output opt_level paths =
    Outcome.ok_or Failure.build_failed (read toolchain_file) >>=ₒ λ exists. paths >>=ₒ λ found.
    read_all read (sort path_order (found ++ toolchain_file ∷ [])) >>=ₒ λ contents.
    ok (keccak256 (cargo_version_output ++ opt_byte opt_level ∷ contents))
