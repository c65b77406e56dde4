-- ===== src/NewProject.antt =====
-- `cargo stylus new` and `cargo stylus init` (main/src/new.rs): the template is cloned and cut off
-- from its origin.
pub mod Cloned
use cargo_stylus.Common.{
  String, Bool, true, false, Option, none, some, List, [], ◌∷◌, ◌++◌, if◌then◌else◌,
}
use cargo_stylus.Common.Outcome
use cargo_stylus.Common.Outcome.{Outcome, ok, err, ◌>>=◌}

pub data NewError : Type 0 where
  no_project_dir dir_not_set no_current_dir git_not_run git_failed : NewError

-- The host: whether the directory can be made and entered, and what git does in the current
-- directory, after the calls that were made before: its success, or `none` if it cannot be
-- started.
pub record GitHost : Type 0 where
  pub create_dir_all : String → Bool
  pub set_current_dir : String → Bool
  pub current_dir : Option String
  pub git : List (List String) → List String → Option Bool

-- `GITHUB_TEMPLATE_REPO` and `GITHUB_TEMPLATE_REPO_MINIMAL`
unfoldable pub repo_of : Bool → String
repo_of minimal =
    if minimal
    then "https://github.com/OffchainLabs/stylus-hello-world-minimal"
    else "https://github.com/OffchainLabs/stylus-hello-world"

unfoldable pub clone_args : String → List String
clone_args repo = "clone" ∷ "--depth" ∷ "1" ∷ repo ∷ "." ∷ []

abbrev pub remove_args : List String
remove_args = "remote" ∷ "remove" ∷ "origin" ∷ []

-- The result is the list of the calls of git that were made.
module _ (H : GitHost) where
  unfoldable pub run_git : List (List String) → List String → Outcome NewError (List (List String))
  run_git calls args = Outcome.ok_or git_not_run (H.git calls args) >>= λ success.
      if success then ok (calls ++ args ∷ []) else err git_failed

  unfoldable pub init : Bool → Outcome NewError (List (List String))
  unfolding repo_of clone_args run_git
  init minimal = Outcome.ok_or no_current_dir H.current_dir >>= λ current_dir.
      run_git [] (clone_args (repo_of minimal)) >>= λ calls. run_git calls remove_args

  unfoldable pub new : String → Bool → Outcome NewError (List (List String))
  unfolding init
  new path minimal =
      if H.create_dir_all path
      then (if H.set_current_dir path then init minimal else err dir_not_set)
      else err no_project_dir
