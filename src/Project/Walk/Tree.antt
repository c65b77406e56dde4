-- ===== src/Project/Walk/Tree.antt =====
-- The walk through a tree of directories (`all_paths`, main/src/project.rs).
use mathlib.Core.List.{append_assoc, append-nil}
use native.Mathlib.Nat.{add-zero}
use cargo_stylus.Common.{
  ℕ, suc, ◌+◌, ◌-◌, ◌≤◌, ◌≡◌, refl, ap, ◌∙◌, sym, String, Bool, true, false, Option, some, List, [],
  ◌∷◌, ◌++◌, if◌then◌else◌, Bool-cases, inl, inr, arith,
}
use cargo_stylus.Common.Bytes.{Bytes}
use cargo_stylus.Common.Outcome.{ok}
use cargo_stylus.Project.{PathBuf}
use cargo_stylus.Project.Walk.{
  is_included, is_skipped_dir, Entry, push_dir, push_file, visit, walk_loop, all_paths,
  expand_glob_patterns,
}

-- What a directory holds
pub data Tree : Type 0 where
  nil : Tree
  file : (name : Bytes) → (rest : Tree) → Tree
  dir : (name : Bytes) → (inside : Tree) → (rest : Tree) → Tree

unfoldable pub entries_of : Tree → List (Option Entry)
entries_of nil = []
entries_of (file name rest) = some (record { name = name; is_dir = false }) ∷ entries_of rest
entries_of (dir name inside rest) = some (record { name = name; is_dir = true }) ∷ entries_of rest

-- The directories that are walked through
unfoldable pub count_dirs : Tree → ℕ
count_dirs nil = 0
count_dirs (file name rest) = count_dirs rest
count_dirs (dir name inside rest) =
    let more = count_dirs rest in
    let here = 1 + count_dirs inside in if is_skipped_dir name then more else here + more

-- Reading a directory, and those below it that are not skipped, gives the tree.
abbrev pub Reads : (PathBuf → Option (List (Option Entry))) → PathBuf → Tree → Type 0
Reads read_dir path nil = Unit
Reads read_dir path (file name rest) = Reads read_dir path rest
Reads read_dir path (dir name inside rest) =
    ((is_skipped_dir name ≡ false)
      → (read_dir (path ++ name ∷ []) ≡ some (entries_of inside))
        × Reads read_dir (path ++ name ∷ []) inside)
    × Reads read_dir path rest

module _ (glob_paths : List PathBuf) where
  -- The files of the project in a directory itself
  unfoldable pub files_here : PathBuf → Tree → List PathBuf
  files_here path nil = []
  files_here path (file name rest) =
      let more = files_here path rest in
      if is_included glob_paths (path ++ name ∷ []) name then (path ++ name ∷ []) ∷ more else more
  files_here path (dir name inside rest) = files_here path rest

  -- Those below its directories, the last directory first
  unfoldable pub files_below : PathBuf → Tree → List PathBuf
  unfolding files_here
  files_below path nil = []
  files_below path (file name rest) = files_below path rest
  files_below path (dir name inside rest) =
      let more = files_below path rest in
      let here = files_here (path ++ name ∷ []) inside ++ files_below (path ++ name ∷ []) inside in
      if is_skipped_dir name then more else more ++ here

  unfoldable pub enumerate : PathBuf → Tree → List PathBuf
  unfolding files_here files_below
  enumerate path tree = files_here path tree ++ files_below path tree

-- The directories that a visit pushes, the last one on top
subdirs : PathBuf → Tree → List PathBuf
subdirs path nil = []
subdirs path (file name rest) = subdirs path rest
subdirs path (dir name inside rest) =
    let more = subdirs path rest in
    if is_skipped_dir name then more else more ++ (path ++ name ∷ []) ∷ []

more_fuel : (n a b : ℕ) → n + (1 + a + b) ≡ suc (n + a) + b
more_fuel n a b = omega arith

enough : (a n : ℕ) → a + 1 ≤ n → n ≡ suc (n - (a + 1) + a)
enough a n h = omega arith

here-append :
    (b : Bool) (p : PathBuf) (files more : List PathBuf)
    → (if b then files ++ p ∷ [] else files) ++ more ≡ files ++ (if b then p ∷ more else more)
here-append true p files more = append_assoc files (p ∷ []) more
here-append false p files more = refl

below-append :
    (b : Bool) (p : PathBuf) (directories more : List PathBuf)
    → more ++ (if b then directories else p ∷ directories)
      ≡ (if b then more else more ++ p ∷ []) ++ directories
below-append true p directories more = refl
below-append false p directories more = sym (append_assoc more (p ∷ []) directories)

module _ (glob_paths : List PathBuf) where
  visit_step :
      (path : PathBuf) (entry : Entry) (entries : List (Option Entry))
      (directories files : List PathBuf)
      → visit glob_paths path (some entry ∷ entries) directories files
        ≡ visit glob_paths path entries
            (if entry.is_dir then push_dir glob_paths path entry.name directories else directories)
            (if entry.is_dir then files else push_file glob_paths path entry.name files)
  unfolding visit
  visit_step path entry entries directories files = refl

  visit-nil :
      (path : PathBuf) (directories files : List PathBuf)
      → visit glob_paths path [] directories files ≡ ok (directories, files)
  unfolding visit
  visit-nil path directories files = refl

  visit-entries_of :
      (path : PathBuf) (tree : Tree) (directories files : List PathBuf)
      → visit glob_paths path (entries_of tree) directories files
        ≡ ok (subdirs path tree ++ directories, files ++ files_here glob_paths path tree)
  unfolding entries_of subdirs files_here
  visit-entries_of path nil directories files =
      visit-nil path directories files
      ∙ ap (λ (fs : List PathBuf). ok (directories, fs)) (sym (append-nil files))
  visit-entries_of path (file name rest) directories files =
      visit_step path (record { name = name; is_dir = false }) (entries_of rest) directories files
      ∙ visit-entries_of path rest directories (push_file glob_paths path name files)
      ∙ ap (λ (fs : List PathBuf). ok (subdirs path rest ++ directories, fs))
          (here-append (is_included glob_paths (path ++ name ∷ []) name) (path ++ name ∷ []) files
            (files_here glob_paths path rest))
  visit-entries_of path (dir name inside rest) directories files =
      visit_step path (record { name = name; is_dir = true }) (entries_of rest) directories files
      ∙ visit-entries_of path rest (push_dir glob_paths path name directories) files
      ∙ ap (λ (ds : List PathBuf). ok (ds, files ++ files_here glob_paths path rest))
          (below-append (is_skipped_dir name) (path ++ name ∷ []) directories (subdirs path rest))

  module _ (read_dir : PathBuf → Option (List (Option Entry))) where
    walk_loop-dir :
        (path : PathBuf) (tree : Tree) (fuel : ℕ) (directories files : List PathBuf)
        → read_dir path ≡ some (entries_of tree)
        → walk_loop read_dir glob_paths (suc fuel) (path ∷ directories) files
          ≡ walk_loop read_dir glob_paths fuel
              (subdirs path tree ++ directories)
              (files ++ files_here glob_paths path tree)
    unfolding walk_loop
    walk_loop-dir path tree fuel directories files r =
        rw (r, visit-entries_of path tree directories files) refl

    walk_loop_done :
        (fuel : ℕ) (files : List PathBuf) → walk_loop read_dir glob_paths fuel [] files ≡ ok files
    unfolding walk_loop
    walk_loop_done fuel files = refl

    walk_loop-subdirs :
        (path : PathBuf) (tree : Tree) (fuel : ℕ) (directories files : List PathBuf)
        → Reads read_dir path tree
        → walk_loop read_dir glob_paths
            (fuel + count_dirs tree)
            (subdirs path tree ++ directories)
            files
          ≡ walk_loop read_dir glob_paths fuel directories
              (files ++ files_below glob_paths path tree)
    unfolding subdirs files_below count_dirs
    walk_loop-subdirs path nil fuel directories files r = rw (append-nil files, add-zero) refl
    walk_loop-subdirs path (file name rest) fuel directories files r =
        walk_loop-subdirs path rest fuel directories files r
    walk_loop-subdirs path (dir name inside rest) fuel directories files r =
        elim (Bool-cases (is_skipped_dir name)) [
          | inl h ↦ rw h (walk_loop-subdirs path rest fuel directories files r.1)
          | inr h ↦
              let (reads, below) = r.0 h in
              let here = path ++ name ∷ [] in
              rw
                (
                  h,
                  more_fuel fuel (count_dirs inside) (count_dirs rest),
                  append_assoc (subdirs path rest) (here ∷ []) directories,
                )
                (walk_loop-subdirs path rest (suc (fuel + count_dirs inside)) (here ∷ directories)
                    files r.1
                  ∙ walk_loop-dir here inside (fuel + count_dirs inside) directories
                      (files ++ files_below glob_paths path rest) reads
                  ∙ walk_loop-subdirs here inside fuel directories _ below
                  ∙ ap (walk_loop read_dir glob_paths fuel directories) (
                      append_assoc (files ++ files_below glob_paths path rest) _ _
                      ∙ append_assoc files (files_below glob_paths path rest) _))
        ]

    -- Fuel for each directory that is not skipped is enough, and the walk finds the files of the
    -- tree, directory by directory.
    pub walk_loop-enumerate :
        (path : PathBuf) (tree : Tree) (fuel : ℕ)
        → read_dir path ≡ some (entries_of tree)
        → Reads read_dir path tree
        → count_dirs tree + 1 ≤ fuel
        → walk_loop read_dir glob_paths fuel (path ∷ []) [] ≡ ok (enumerate glob_paths path tree)
    unfolding enumerate
    walk_loop-enumerate path tree fuel r below h = rw (enough (count_dirs tree) fuel h) (
        walk_loop-dir path tree (fuel - (count_dirs tree + 1) + count_dirs tree) [] [] r
        ∙ walk_loop-subdirs path tree (fuel - (count_dirs tree + 1)) [] _ below
        ∙ walk_loop_done _ _)

-- With a unit of fuel for each directory that is not skipped, and one for the root, the walk ends
-- if each of them can be read, and finds the files of the project in the tree, in the order of
-- `enumerate`, whatever the patterns expand to.
pub all_paths-enumerate :
    (read_dir : PathBuf → Option (List (Option Entry)))
    (glob : String → Option (List (Option PathBuf))) (patterns : List String)
    (glob_paths : List PathBuf) (root : PathBuf) (tree : Tree) (fuel : ℕ)
    → expand_glob_patterns glob patterns ≡ ok glob_paths
    → read_dir root ≡ some (entries_of tree)
    → Reads read_dir root tree
    → count_dirs tree + 1 ≤ fuel
    → all_paths read_dir glob fuel root patterns ≡ ok (enumerate glob_paths root tree)
unfolding all_paths
all_paths-enumerate read_dir glob patterns glob_paths root tree fuel e r below h =
    rw e (walk_loop-enumerate glob_paths read_dir root tree fuel r below h)
