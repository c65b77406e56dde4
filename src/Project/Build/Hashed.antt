-- ===== src/Project/Build/Hashed.antt =====
-- What the hash of a build is made of (`hash_project`, main/src/project.rs).
use cargo_stylus.Common.{
  ◌≡◌, refl, ◌∙◌, String, Bool, true, false, Option, some, List, [], ◌∷◌, ◌++◌, arith,
}
use cargo_stylus.Common.Bytes.{Bytes}
use cargo_stylus.Common.Outcome
use cargo_stylus.Common.Outcome.{
  Outcome, ok, err, panic, out_of_fuel, ◌>>=◌, >>=-eq-ok, ok_or-eq-ok,
}
use cargo_stylus.Common.Order.{sort}
use cargo_stylus.Rpc.{Failure}
use cargo_stylus.Project.{PathBuf, path_order, read_all, hash_files}
use cargo_stylus.Project.Build.{
  check_version, hashing, new_config, cargo_not_run, map_err, Workspace, hash_project,
}

pub map_err-eq-ok :
    {E F A : Type 0} (f : E → F) (m : Outcome E A) (a : A) → map_err f m ≡ ok a → m ≡ ok a
map_err-eq-ok f (ok b) a h = ground arith
map_err-eq-ok f (err e) a h = absurd (ground arith)
map_err-eq-ok f panic a h = absurd (ground arith)
map_err-eq-ok f out_of_fuel a h = absurd (ground arith)

module _ (W : Workspace) where
  -- The project's hash: of cargo's version, the optimisation level `s` and the files that the walk
  -- has found with the toolchain file, in order, each with its name and its length.
  pub record IsHash (source_files : List String) (hash : Bytes) : Type 0 where
    pub stdout : Bytes
    pub paths : List PathBuf
    pub contents : Bytes
    pub ran : W.cargo_version ≡ some (true, stdout)
    pub walked : W.all_paths source_files ≡ ok paths
    pub toolchain : (b : Bytes) × (W.read W.toolchain_file ≡ some b)
    pub read : read_all W.read (sort path_order (paths ++ W.toolchain_file ∷ [])) ≡ ok contents
    pub hashed : hash ≡ W.keccak256 (stdout ++ 1 ∷ contents)

  pub hash_project-IsHash :
      (source_files : List String) (stable : Bool) (features : Option String) (hash : Bytes)
      → hash_project W source_files (record (new_config stable) { features = features }) ≡ ok hash
      → IsHash source_files hash
  unfolding hash_project check_version hash_files new_config
  hash_project-IsHash source_files stable features hash h =
      let ((success, stdout), e1, h1) =
        >>=-eq-ok (Outcome.ok_or cargo_not_run W.cargo_version) _ h in
      let (out, e2, h2) = >>=-eq-ok (check_version W (success, stdout)) _ h1 in
      let k = map_err-eq-ok hashing _ hash h2 in
      let (b, e3, h3) =
        >>=-eq-ok (Outcome.ok_or Failure.build_failed (W.read W.toolchain_file)) _ k in
      let (paths, e4, h4) =
        >>=-eq-ok (map_err (λ _. Failure.build_failed) (W.all_paths source_files)) _ h3 in
      let (contents, e5, h5) =
        >>=-eq-ok (read_all W.read (sort path_order (paths ++ W.toolchain_file ∷ []))) _ h4 in
      let (true_is, out_is) = check_version_ok success stdout out e2 in
      record {
        stdout = out;
        paths = paths;
        contents = contents;
        ran = ok_or-eq-ok cargo_not_run _ (success, stdout) e1 ∙ cc (true_is, out_is);
        walked = map_err-eq-ok _ _ paths e4;
        toolchain = (b, ok_or-eq-ok Failure.build_failed _ b e3);
        read = e5;
        hashed = cc h5;
      }
    where
      check_version_ok :
          (success : Bool) (stdout out : Bytes)
          → check_version W (success, stdout) ≡ ok out
          → (success ≡ true) × (stdout ≡ out)
      check_version_ok true stdout out h = (refl, cc)
      check_version_ok false stdout out h = absurd (cc h)
