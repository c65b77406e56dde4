-- ===== src/Project/Walk.antt =====
-- The files that belong to a project (`all_paths` and `expand_glob_patterns`, main/src/project.rs).
pub mod Tree
pub mod Globs
use Prim.Native.Char.{code}
use cargo_stylus.Common.{
  ℕ, zero, suc, String, Bool, true, false, ◌||◌, Option, none, some, List, [], ◌∷◌, ◌++◌,
  if◌then◌else◌,
}
use cargo_stylus.Common.Bytes.{Bytes, bytes_eq}
use cargo_stylus.Common.Outcome
use cargo_stylus.Common.Outcome.{Outcome, ok, err, out_of_fuel, ◌>>=◌}
use cargo_stylus.Project.{PathBuf}

pub data WalkError : Type 0 where
  bad_pattern bad_path dir_not_read bad_entry : WalkError

-- The bytes of an ASCII text
abbrev pub ascii : String → Bytes
ascii String.[] = []
ascii (String.◌∷◌ c s) = code c ∷ ascii s

-- The paths of one pattern, with an error for a path that cannot be read.
pub push_paths : List (Option PathBuf) → List PathBuf → Outcome WalkError (List PathBuf)
push_paths [] files = ok files
push_paths (none ∷ paths) files = err bad_path
push_paths (some path ∷ paths) files = push_paths paths (files ++ path ∷ [])

-- `glob` gives the paths of a pattern, or refuses it.
unfoldable pub expand_loop :
    (String → Option (List (Option PathBuf)))
    → List String
    → List PathBuf
    → Outcome WalkError (List PathBuf)
unfolding push_paths
expand_loop glob [] files = ok files
expand_loop glob (pattern ∷ patterns) files = Outcome.ok_or bad_pattern (glob pattern) >>= λ paths.
    push_paths paths files >>= λ files. expand_loop glob patterns files

unfoldable pub expand_glob_patterns :
    (String → Option (List (Option PathBuf))) → List String → Outcome WalkError (List PathBuf)
unfolding expand_loop
expand_glob_patterns glob patterns = expand_loop glob patterns []

-- Equality of paths is that of their components.
unfoldable pub path_eq : PathBuf → PathBuf → Bool
path_eq [] [] = true
path_eq (a ∷ p) (b ∷ q) = let rest = path_eq p q in if bytes_eq a b then rest else false
path_eq _ _ = false

unfoldable pub any_path : PathBuf → List PathBuf → Bool
unfolding path_eq
any_path path [] = false
any_path path (glob_path ∷ glob_paths) =
    let rest = any_path path glob_paths in if path_eq glob_path path then true else rest

unfoldable pub ends_with_bytes : Bytes → Bytes → Bool
ends_with_bytes [] end = bytes_eq [] end
ends_with_bytes (b ∷ bytes) end =
    let rest = ends_with_bytes bytes end in if bytes_eq (b ∷ bytes) end then true else rest

unfoldable pub is_default_name : Bytes → Bool
unfolding ends_with_bytes
is_default_name f =
    bytes_eq f (ascii "Cargo.toml")
    || bytes_eq f (ascii "Cargo.lock")
    || ends_with_bytes f (ascii ".rs")

-- Whether a file, with its name, is one of the project's
unfoldable pub is_included : List PathBuf → PathBuf → Bytes → Bool
unfolding any_path is_default_name
is_included [] path name = is_default_name name
is_included (glob_path ∷ glob_paths) path name = any_path path (glob_path ∷ glob_paths)

unfoldable pub is_skipped_dir : Bytes → Bool
is_skipped_dir name = bytes_eq name (ascii "target") || bytes_eq name (ascii ".git")

-- An entry of a directory: its name, and whether it is a directory.
pub record Entry : Type 0 where
  pub name : Bytes
  pub is_dir : Bool

-- The loop over the entries of a directory, with the stack of directories, its top first, and the
-- files
module _ (glob_paths : List PathBuf) (dir : PathBuf) where
  abbrev pub push_dir : Bytes → List PathBuf → List PathBuf
  push_dir name directories =
      if is_skipped_dir name then directories else (dir ++ name ∷ []) ∷ directories

  abbrev pub push_file : Bytes → List PathBuf → List PathBuf
  push_file name files =
      if is_included glob_paths (dir ++ name ∷ []) name
      then files ++ (dir ++ name ∷ []) ∷ []
      else files

  unfoldable pub visit :
      List (Option Entry)
      → (directories : List PathBuf) → (files : List PathBuf)
      → Outcome WalkError (List PathBuf × List PathBuf)
  visit [] directories files = ok (directories, files)
  visit (none ∷ entries) directories files = err bad_entry
  visit (some entry ∷ entries) directories files =
      visit entries (if entry.is_dir then push_dir entry.name directories else directories)
        (if entry.is_dir then files else push_file entry.name files)

-- `read_dir` gives the entries of a directory.
module _ (read_dir : PathBuf → Option (List (Option Entry))) (glob_paths : List PathBuf) where
  -- The loop takes a directory for each unit of fuel.
  unfoldable pub walk_loop :
      ℕ → (directories : List PathBuf) → (files : List PathBuf) → Outcome WalkError (List PathBuf)
  unfolding visit
  walk_loop fuel [] files = ok files
  walk_loop zero (dir ∷ directories) files = out_of_fuel
  walk_loop (suc fuel) (dir ∷ directories) files =
      Outcome.ok_or dir_not_read (read_dir dir) >>= λ entries.
      visit glob_paths dir entries directories files >>= λ (directories, files).
      walk_loop fuel directories files

unfoldable pub all_paths :
    (read_dir : PathBuf → Option (List (Option Entry)))
    → (glob : String → Option (List (Option PathBuf))) → ℕ
    → (root_dir : PathBuf) → (source_file_patterns : List String) → Outcome WalkError (List PathBuf)
unfolding expand_glob_patterns walk_loop
all_paths read_dir glob fuel root_dir source_file_patterns =
    expand_glob_patterns glob source_file_patterns >>= λ glob_paths.
    walk_loop read_dir glob_paths fuel (root_dir ∷ []) []
