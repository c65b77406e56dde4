-- ===== src/Project/Walk/Globs.antt =====
-- Patterns for the files of a project (`all_paths` with `--source-files-for-project-hash`,
-- main/src/project.rs).
use cargo_stylus.Common.{
  ℕ, ◌+◌, ◌≤◌, ◌≡◌, refl, ◌∙◌, String, Bool, true, false, Option, some, List, [], ◌∷◌, ◌++◌,
  if◌then◌else◌, All,
}
use cargo_stylus.Common.Bytes.{Bytes, bytes_eq}
use cargo_stylus.Common.Outcome.{ok}
use cargo_stylus.Project.{PathBuf}
use cargo_stylus.Project.Walk.{
  path_eq, any_path, is_included, is_skipped_dir, Entry, expand_glob_patterns, all_paths,
}
use cargo_stylus.Project.Walk.Tree.{
  Tree, nil, file, dir, Reads, entries_of, count_dirs, files_here, files_below, enumerate,
  all_paths-enumerate,
}

-- A path's first component
abbrev pub leads : Bytes → PathBuf → Bool
leads c [] = false
leads c (a ∷ p) = bytes_eq a c

path_eq_apart : (c : Bytes) (p g : PathBuf) → leads c g ≡ false → path_eq g (c ∷ p) ≡ false
unfolding path_eq
path_eq_apart c p [] h = refl
path_eq_apart c p (a ∷ g) h = rw h refl

any_path_apart :
    (c : Bytes) (p : PathBuf) (glob_paths : List PathBuf)
    → All (λ g. leads c g ≡ false) glob_paths
    → any_path (c ∷ p) glob_paths ≡ false
unfolding any_path
any_path_apart c p [] h = refl
any_path_apart c p (g ∷ glob_paths) h =
    rw (path_eq_apart c p g h.0, any_path_apart c p glob_paths h.1) refl

if_same : (b : Bool) (xs : List PathBuf) → (if b then xs else xs) ≡ xs
if_same true xs = refl
if_same false xs = refl

module _ (c : Bytes) (g : PathBuf) (gs : List PathBuf)
    (apart : All (λ g. leads c g ≡ false) (g ∷ gs)) where
  is_included_apart : (p : PathBuf) (name : Bytes) → is_included (g ∷ gs) (c ∷ p) name ≡ false
  unfolding is_included
  is_included_apart p name = any_path_apart c p (g ∷ gs) apart

  files_here_apart : (p : PathBuf) (tree : Tree) → files_here (g ∷ gs) (c ∷ p) tree ≡ []
  unfolding files_here
  files_here_apart p nil = refl
  files_here_apart p (file name rest) =
      rw (is_included_apart (p ++ name ∷ []) name) (files_here_apart p rest)
  files_here_apart p (dir name inside rest) = files_here_apart p rest

  files_below_apart : (p : PathBuf) (tree : Tree) → files_below (g ∷ gs) (c ∷ p) tree ≡ []
  unfolding files_below
  files_below_apart p nil = refl
  files_below_apart p (file name rest) = files_below_apart p rest
  files_below_apart p (dir name inside rest) =
      let here = p ++ name ∷ [] in
      rw (files_below_apart p rest, files_here_apart here inside, files_below_apart here inside)
        (if_same (is_skipped_dir name) [])

-- Patterns that expand to paths of which none begins with the root's component `.` match no file,
-- whatever files the project has.
pub all_paths_globs :
    (read_dir : PathBuf → Option (List (Option Entry)))
    (glob : String → Option (List (Option PathBuf))) (patterns : List String) (root : Bytes)
    (g : PathBuf) (gs : List PathBuf) (tree : Tree) (fuel : ℕ)
    → expand_glob_patterns glob patterns ≡ ok (g ∷ gs)
    → All (λ p. leads root p ≡ false) (g ∷ gs)
    → read_dir (root ∷ []) ≡ some (entries_of tree)
    → Reads read_dir (root ∷ []) tree
    → count_dirs tree + 1 ≤ fuel
    → all_paths read_dir glob fuel (root ∷ []) patterns ≡ ok []
unfolding enumerate
all_paths_globs read_dir glob patterns root g gs tree fuel e apart r below h =
    all_paths-enumerate read_dir glob patterns (g ∷ gs) (root ∷ []) tree fuel e r below h
    ∙ rw (files_here_apart root g gs apart [] tree, files_below_apart root g gs apart [] tree) refl
