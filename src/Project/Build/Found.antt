-- ===== src/Project/Build/Found.antt =====
-- What a build runs and which file it returns (main/src/project.rs).
use Prim.Native.String.{◌++◌ as ◌<>◌}
use cargo_stylus.Common.{
  ◌≡◌, refl, sym, ap, ◌∙◌, String, Bool, true, false, not, Option, none, some, List, [], ◌∷◌, ◌++◌,
  All, replicate, Bool-cases, inl, inr, arith,
}
use cargo_stylus.Common.Text.{contains}
use cargo_stylus.Common.Bytes.{Bytes}
use cargo_stylus.Common.Occurs.{EndsIn, ends_with_iff}
use cargo_stylus.Common.Files.{Entry, files_in}
use cargo_stylus.Common.Outcome
use cargo_stylus.Common.Outcome.{
  Outcome, ok, err, panic, out_of_fuel, ◌>>=◌, >>=-eq-ok, ok_or-eq-ok,
}
use cargo_stylus.Project.Toolchain.{
  extract_toolchain_channel, extract_cargo_toml_version, extract_cargo_lib_or_project_name,
}
use cargo_stylus.Project.Wasm.{compress_wasm}
use cargo_stylus.Project.Build.Names.{
  IsSpelled, library_name-IsSpelled, HasVersion, HasName, extract_cargo_toml_version-HasVersion,
  extract_cargo_lib_or_project_name-HasName,
}
use cargo_stylus.Project.Build.Hashed.{map_err-eq-ok, IsHash, hash_project-IsHash}
use cargo_stylus.Project.Build.{
  features_args, std_args, opt_args, BuildConfig, new_config, toml, wasm, cargo_not_run,
  dir_not_read, no_wasm_found, map_err, library_name, is_wasm_of, find_wasm, cargo_args, Workspace,
  run_cargo, build_dylib, hash_project, build_wasm_from_features,
}

-- The name ends in the project's and `.wasm`.
abbrev pub IsWasmOf : (project_name : String) → (file_name : Option String) → Type 0
IsWasmOf project_name file_name =
    (name : String) × (file_name ≡ some name) × EndsIn (project_name <> ".wasm") name

is_wasm_of-IsWasmOf :
    (project_name : String) (file_name : Option String)
    → is_wasm_of project_name file_name ≡ true
    → IsWasmOf project_name file_name
unfolding is_wasm_of
is_wasm_of-IsWasmOf project_name none h = absurd (cc h)
is_wasm_of-IsWasmOf project_name (some name) h =
    (name, refl, (ends_with_iff name (project_name <> ".wasm")).0 h)

not-IsWasmOf :
    (project_name : String) (file_name : Option String)
    → is_wasm_of project_name file_name ≡ false
    → ¬ IsWasmOf project_name file_name
unfolding is_wasm_of
not-IsWasmOf project_name file_name h (name, e, ends) =
    cc (ap (is_wasm_of project_name) e, (ends_with_iff name (project_name <> ".wasm")).1 ends, h)

-- The first of the files whose name ends in the project's and `.wasm`
pub record IsFirst (project_name : String) (files : List Entry) (e : Entry) : Type 0 where
  pub before : List Entry
  pub after : List Entry
  pub split : files ≡ before ++ e ∷ after
  pub apart : All (λ (f : Entry). ¬ IsWasmOf project_name f.file_name) before
  pub matches : IsWasmOf project_name e.file_name

find_wasm-IsFirst :
    (project_name : String) (files : List Entry) (e : Entry)
    → find_wasm project_name files ≡ some e
    → IsFirst project_name files e
unfolding find_wasm
find_wasm-IsFirst project_name [] e h = absurd (ground arith)
find_wasm-IsFirst project_name (f ∷ files) e h =
    elim (Bool-cases (is_wasm_of project_name f.file_name)) [
      | inl m ↦
          let same : f ≡ e = cc (rw m at h) in
          record {
            before = [];
            after = files;
            split = ap (λ x. x ∷ files) same;
            apart = tt;
            matches = is_wasm_of-IsWasmOf project_name e.file_name (rw same at m);
          }
      | inr m ↦
          let i = find_wasm-IsFirst project_name files e (rw m at h) in
          record {
            before = f ∷ i.before;
            after = i.after;
            split = ap (λ l. f ∷ l) i.split;
            apart = (not-IsWasmOf project_name f.file_name m, i.apart);
            matches = i.matches;
          }
    ]

-- The arguments of cargo for a build, with features and a channel with or without `nightly`
abbrev pub build_line : (features : Option String) → (nightly : Bool) → List String
build_line none false =
    "build" ∷ "--lib" ∷ "--locked" ∷ "--release" ∷ "--target=wasm32-unknown-unknown" ∷ []
build_line (some f) false =
    "build"
    ∷ "--lib"
    ∷ "--locked"
    ∷ ("--features=" <> f)
    ∷ "--release"
    ∷ "--target=wasm32-unknown-unknown"
    ∷ []
build_line none true =
    "build" ∷ "--lib" ∷ "--locked" ∷ "-Z" ∷ "build-std=std,panic_abort" ∷ "-Z"
    ∷ "build-std-features=panic_immediate_abort" ∷ "--release" ∷ "--target=wasm32-unknown-unknown"
    ∷ []
build_line (some f) true =
    "build"
    ∷ "--lib"
    ∷ "--locked"
    ∷ ("--features=" <> f)
    ∷ "-Z"
    ∷ "build-std=std,panic_abort"
    ∷ "-Z"
    ∷ "build-std-features=panic_immediate_abort"
    ∷ "--release"
    ∷ "--target=wasm32-unknown-unknown"
    ∷ []

cargo_args-build_line :
    (features : Option String) (nightly : Bool)
    → cargo_args (record (new_config (not nightly)) { features = features })
      ≡ build_line features nightly
unfolding cargo_args new_config features_args std_args opt_args
cargo_args-build_line none false = refl
cargo_args-build_line (some f) false = refl
cargo_args-build_line none true = refl
cargo_args-build_line (some f) true = refl

module _ (W : Workspace) where
  open W use {from_str, to_string, tools}

  run_cargo_ok :
      (cfg : BuildConfig) (u : Unit {0})
      → run_cargo W cfg ≡ ok u
      → W.cargo (cargo_args cfg) ≡ some true
  unfolding run_cargo
  run_cargo_ok cfg u h =
      let (success, ran, k) =
        >>=-eq-ok (Outcome.ok_or cargo_not_run (W.cargo (cargo_args cfg))) _ h in
      elim (Bool-cases success) [
        | inl t ↦ ok_or-eq-ok cargo_not_run _ true (ran ∙ ap ok t)
        | inr f ↦ absurd (ground (arith, f))
      ]

  -- A build that succeeds
  pub record IsBuild (cfg : BuildConfig) (file : Entry) : Type 0 where
    pub version : String
    pub name : String
    pub entries : List (Option Entry)
    pub code : Bytes × Bytes
    pub lib_file : String
    pub versioned : HasVersion to_string from_str W.cargo_toml version
    pub named : HasName to_string from_str W.cargo_toml name
    pub spelled : IsSpelled name lib_file
    pub ran : W.cargo (cargo_args cfg) ≡ some true
    pub listed : W.release_dir ≡ some entries
    pub first : IsFirst lib_file (files_in entries) file
    pub compressed : compress_wasm tools (W.read_wasm file) (replicate 32 0) ≡ ok code

  build_dylib-IsBuild :
      (cfg : BuildConfig) (file : Entry) → build_dylib W cfg ≡ ok file → IsBuild cfg file
  unfolding build_dylib
  build_dylib-IsBuild cfg file h =
      let (version, e1, h1) =
        >>=-eq-ok (map_err toml (extract_cargo_toml_version from_str W.cargo_toml)) _ h in
      let (name, e2, h2) =
        >>=-eq-ok (map_err toml (extract_cargo_lib_or_project_name to_string from_str W.cargo_toml))
          _ h1 in
      let (u, e3, h3) = >>=-eq-ok (run_cargo W cfg) _ h2 in
      let (entries, e4, h4) = >>=-eq-ok (Outcome.ok_or dir_not_read W.release_dir) _ h3 in
      let (found, e5, h5) =
        >>=-eq-ok (Outcome.ok_or no_wasm_found (find_wasm (library_name name) (files_in entries))) _
          h4 in
      let (code, e6, h6) =
        >>=-eq-ok (map_err wasm (compress_wasm tools (W.read_wasm found) (replicate 32 0))) _ h5 in
      let same : found ≡ file = cc in
      record {
        version = version;
        name = name;
        entries = entries;
        code = code;
        lib_file = library_name name;
        versioned =
            extract_cargo_toml_version-HasVersion to_string from_str W.cargo_toml version
              (map_err-eq-ok toml _ version e1);
        named =
            extract_cargo_lib_or_project_name-HasName to_string from_str W.cargo_toml name
              (map_err-eq-ok toml _ name e2);
        spelled = library_name-IsSpelled name;
        ran = run_cargo_ok cfg u e3;
        listed = ok_or-eq-ok dir_not_read _ entries e4;
        first = rw same at (
            find_wasm-IsFirst (library_name name) (files_in entries) found
              (ok_or-eq-ok no_wasm_found _ found e5));
        compressed = rw same at (map_err-eq-ok wasm _ code e6);
      }

  -- A build for the channel, with its file and hash
  pub record IsBuiltWith (features : Option String) (source_files : List String) (file : Entry)
      (hash : Bytes) : Type 0 where
    pub channel : String
    pub read_channel : extract_toolchain_channel W.beyond from_str W.toolchain_toml ≡ ok channel
    pub ran : W.cargo (build_line features (contains channel "nightly")) ≡ some true
    pub built :
        IsBuild
          (record (new_config (not (contains channel "nightly"))) { features = features })
          file
    pub hashed : IsHash W source_files hash

  -- A build that succeeds has read the channel, and from Cargo.toml a version of the package and
  -- the name of the library or else of the package; cargo has succeeded with `build --lib
  -- --locked`, the features if there are any, the flags that build the standard library if the
  -- channel contains `nightly`, and the release profile and target; it returns the first file of
  -- the build whose name ends in that name, with its dashes as underscores and without double
  -- quotes, and `.wasm`, which can be compressed, and the hash of what cargo says of its version,
  -- the optimisation level and the files that the walk has found, with the toolchain file, in
  -- order.
  pub build_wasm_from_features-IsBuiltWith :
      (features : Option String) (source_files : List String) (file : Entry) (hash : Bytes)
      → build_wasm_from_features W features source_files ≡ ok (file, hash)
      → IsBuiltWith features source_files file hash
  unfolding build_wasm_from_features
  build_wasm_from_features-IsBuiltWith features source_files file hash h =
      let (channel, e1, h1) =
        >>=-eq-ok (map_err toml (extract_toolchain_channel W.beyond from_str W.toolchain_toml)) _
          h in
      let cfg : BuildConfig = record (new_config (not (contains channel "nightly"))) {
        features = features;
      } in
      let (found, e2, h2) = >>=-eq-ok (build_dylib W cfg) _ h1 in
      let (made, e3, h3) = >>=-eq-ok (hash_project W source_files cfg) _ h2 in
      let same : ◌≡◌ {A = Entry × Bytes} (found, made) (file, hash) = cc in
      let build : IsBuild cfg file =
        build_dylib-IsBuild cfg file (e2 ∙ ap (λ (r : Entry × Bytes). ok r.0) same) in
      record {
        channel = channel;
        read_channel = map_err-eq-ok toml _ channel e1;
        ran =
            ap W.cargo (sym (cargo_args-build_line features (contains channel "nightly")))
            ∙ build.ran;
        built = build;
        hashed =
            hash_project-IsHash W source_files (not (contains channel "nightly")) features hash
              (e3 ∙ ap (λ (r : Entry × Bytes). ok r.1) same);
      }
