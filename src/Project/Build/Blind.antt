-- ===== src/Project/Build/Blind.antt =====
-- The project's hash with patterns for its files (`hash_project` with
-- `--source-files-for-project-hash`, main/src/project.rs).
use cargo_stylus.Common.{
  ℕ, ◌+◌, ◌≤◌, ◌≡◌, refl, ap, ◌∙◌, String, false, Option, some, List, [], ◌∷◌, All,
}
use cargo_stylus.Common.Bytes.{Bytes}
use cargo_stylus.Common.Outcome
use cargo_stylus.Common.Outcome.{Outcome, ok, ◌>>=◌}
use mathlib.Core.Path.{fun_ext}
use cargo_stylus.Project.{PathBuf, OptLevel, hash_files, read_all, read_file_preimage}
use cargo_stylus.Project.Walk.{WalkError, Entry, expand_glob_patterns, all_paths}
use cargo_stylus.Project.Walk.Tree.{Tree, Reads, entries_of, count_dirs}
use cargo_stylus.Project.Walk.Globs.{leads, all_paths_globs}
use cargo_stylus.Project.Build.{
  BuildConfig, Workspace, BuildError, hashing, check_version, map_err, cargo_not_run, hash_project,
}

hash_files_empty :
    (keccak256 : Bytes → Bytes) (read other : PathBuf → Option Bytes) (toolchain_file : PathBuf)
    (version : Bytes) (opt_level : OptLevel)
    → read toolchain_file ≡ other toolchain_file
    → hash_files keccak256 read toolchain_file version opt_level (ok [])
      ≡ hash_files keccak256 other toolchain_file version opt_level (ok [])
unfolding hash_files read_all read_file_preimage
hash_files_empty keccak256 read other toolchain_file version opt_level e = rw e refl

-- With patterns that expand to some paths, of which none begins with the component of the
-- project's directory, and a directory tree that can be read with the fuel given, projects whose
-- toolchain files are the same have the same hash, whatever their other files hold.
pub hash_project_globs :
    (W : Workspace) (other : PathBuf → Option Bytes)
    (read_dir : PathBuf → Option (List (Option Entry)))
    (glob : String → Option (List (Option PathBuf))) (patterns : List String) (root : Bytes)
    (g : PathBuf) (gs : List PathBuf) (tree : Tree) (fuel : ℕ) (cfg : BuildConfig)
    → W.all_paths ≡ all_paths read_dir glob fuel (root ∷ [])
    → expand_glob_patterns glob patterns ≡ ok (g ∷ gs)
    → All (λ p. leads root p ≡ false) (g ∷ gs)
    → read_dir (root ∷ []) ≡ some (entries_of tree)
    → Reads read_dir (root ∷ []) tree
    → count_dirs tree + 1 ≤ fuel
    → W.read W.toolchain_file ≡ other W.toolchain_file
    → hash_project W patterns cfg ≡ hash_project (record W { read = other }) patterns cfg
unfolding hash_project
hash_project_globs W other read_dir glob patterns root g gs tree fuel cfg w e apart r below h same =
    let found =
      ap (λ (f : List String → Outcome WalkError (List PathBuf)). f patterns) w
      ∙ all_paths_globs read_dir glob patterns root g gs tree fuel e apart r below h in
    ap
      (λ (rest : Bytes → Outcome BuildError Bytes).
        Outcome.ok_or cargo_not_run W.cargo_version >>= λ output. check_version W output >>= rest)
      (fun_ext λ stdout. rw found (
        ap (map_err hashing)
          (hash_files_empty W.keccak256 W.read other W.toolchain_file stdout cfg.opt_level same)))
