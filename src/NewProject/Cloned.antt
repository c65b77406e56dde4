-- ===== src/NewProject/Cloned.antt =====
-- What a new project has run (main/src/new.rs).
use cargo_stylus.Common.{
  ◌≡◌, refl, ap, ◌∙◌, String, Bool, true, false, some, List, [], ◌∷◌, ◌++◌, Bool-cases, inl, inr,
  arith, if◌then◌else◌,
}
use cargo_stylus.Common.Outcome
use cargo_stylus.Common.Outcome.{Outcome, ok, err, ◌>>=◌, >>=-eq-ok, ok_or-eq-ok}
use cargo_stylus.NewProject.{
  NewError, git_not_run, no_current_dir, GitHost, repo_of, clone_args, remove_args, run_git, init,
  new,
}

module _ (H : GitHost) where
  run_git_ok :
      (calls : List (List String)) (args : List String) (made : List (List String))
      → run_git H calls args ≡ ok made
      → (H.git calls args ≡ some true) × (made ≡ calls ++ args ∷ [])
  unfolding run_git
  run_git_ok calls args made h =
      let (success, ran, k) = >>=-eq-ok (Outcome.ok_or git_not_run (H.git calls args)) _ h in
      elim (Bool-cases success) [
        | inl t ↦ (ok_or-eq-ok git_not_run _ true (ran ∙ ap ok t), ground (arith, t))
        | inr f ↦ absurd (ground (arith, f))
      ]

  -- A new project that is made: the directory was made and entered, git has cloned the template,
  -- then removed its origin, and both went well.
  pub new_cloned :
      (path : String) (minimal : Bool) (made : List (List String))
      → new H path minimal ≡ ok made
      → (H.create_dir_all path ≡ true)
        × (H.set_current_dir path ≡ true)
        × (H.git [] (clone_args (repo_of minimal)) ≡ some true)
        × (H.git (clone_args (repo_of minimal) ∷ []) remove_args ≡ some true)
        × (made ≡ clone_args (repo_of minimal) ∷ remove_args ∷ [])
  unfolding new init
  new_cloned path minimal made h =
      let (a, b, e) =
        entered (H.create_dir_all path) (H.set_current_dir path) (init H minimal) made h in
      let (dir, _, h1) = >>=-eq-ok (Outcome.ok_or no_current_dir H.current_dir) _ e in
      let (calls, c, r) = >>=-eq-ok (run_git H [] (clone_args (repo_of minimal))) _ h1 in
      let (cloned, is) = run_git_ok [] (clone_args (repo_of minimal)) calls c in
      let (removed, done) = run_git_ok calls remove_args made r in
      (
        a,
        b,
        cloned,
        rw is at removed,
        done ∙ ap (λ (l : List (List String)). l ++ remove_args ∷ []) is,
      )
    where
      entered :
          (a b : Bool) (r : Outcome NewError (List (List String))) (made : List (List String))
          → (if a then (if b then r else err NewError.dir_not_set) else err NewError.no_project_dir)
            ≡ ok made
          → (a ≡ true) × (b ≡ true) × (r ≡ ok made)
      entered true true r made e = (refl, refl, e)
      entered true false r made e = absurd (cc)
      entered false b r made e = absurd (cc)
