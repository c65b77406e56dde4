-- ===== src/Cli/Replay/Debugger.antt =====
-- The debugger of a replay, and what its child does (`replay`, main/src/main.rs).
use Prim.Native.String.{◌++◌ as ◌<>◌}
use mathlib.Core.Path.{subst}
use cargo_stylus.Common.{
  ℕ, zero, suc, ◌<◌, ◌≡◌, ◌↔◌, ◌⊎◌, inl, inr, refl, sym, ap, ◌∙◌, String, Bool, true, false, Option,
  none, some, List, [], ◌∷◌, Bool-cases, length, if◌then◌else◌, arith,
}
use cargo_stylus.Common.Bytes.{Bytes}
use cargo_stylus.Common.Files.{Entry, files_in}
use cargo_stylus.Common.Outcome
use cargo_stylus.Common.Outcome.{Outcome, ok, err, ◌>>=◌, >>=-eq-ok, ok_or-eq-ok}
use cargo_stylus.Trace.Kinds.{TraceFrame}
use cargo_stylus.Trace.Reader.{reader}
use cargo_stylus.Hostio.State.{Replay, Host}
use cargo_stylus.Cli.Config.{ReplayArgs}
use cargo_stylus.Cli.Words.{join}
use cargo_stylus.Cli.Replay.Library.{IsOnly, matching-IsOnly, find_shared_library_iff}
use cargo_stylus.Cli.Replay.{
  ReplayHost, Status, completed, reverted, unknown, choose_debugger, no_triple,
  build_shared_library, build_shared_library_args, push_features, push_package, join_path, so_dir,
  find_shared_library, shared_library, missing_input, status_of, match_code, call_main,
  replay_child,
}

module _ (command_exists : String → Bool) where
  -- No debugger is found exactly when there is neither of the lldb programs and, unless on macOS,
  -- neither of the gdb programs; on macOS no gdb is chosen.
  pub choose_debugger-none_iff :
      (macos : Bool)
      → (choose_debugger command_exists macos ≡ none) ↔ (
          (command_exists "rust-lldb" ≡ false)
          × (command_exists "lldb" ≡ false)
          × ((macos ≡ true) ⊎ (command_exists "rust-gdb" ≡ false) × (command_exists "gdb" ≡ false)))
  unfolding choose_debugger
  choose_debugger-none_iff macos = (λ h. ground arith, λ h. ground arith)

-- What a code means
abbrev pub IsStatus : (code : ℕ) → Status → Type 0
IsStatus code completed = code ≡ 0
IsStatus code reverted = code ≡ 1
IsStatus code (unknown x) = (code ≡ x) × (1 < code)

status_of_ok : (code : ℕ) (status : Status) → status_of code ≡ status → IsStatus code status
unfolding status_of
status_of_ok zero status h = subst (IsStatus 0) h refl
status_of_ok (suc zero) status h = subst (IsStatus 1) h refl
status_of_ok (suc (suc code)) status h = subst (IsStatus (suc (suc code))) h (refl, omega arith)

-- The arguments of the build of the library
abbrev pub build_line :
    (triple : String)
    → (package_name : Option String) → (features : Option (List String)) → List String
build_line triple none none = "build" ∷ "--lib" ∷ "--locked" ∷ "--target" ∷ triple ∷ []
build_line triple none (some f) =
    "build" ∷ "--features" ∷ join "," f ∷ "--lib" ∷ "--locked" ∷ "--target" ∷ triple ∷ []
build_line triple (some p) none =
    "build" ∷ "--package" ∷ p ∷ "--lib" ∷ "--locked" ∷ "--target" ∷ triple ∷ []
build_line triple (some p) (some f) =
    "build"
    ∷ "--features"
    ∷ join "," f
    ∷ "--package"
    ∷ p
    ∷ "--lib"
    ∷ "--locked"
    ∷ "--target"
    ∷ triple
    ∷ []

build_shared_library_args-build_line :
    (triple : String) (package_name : Option String) (features : Option (List String))
    → build_shared_library_args triple package_name features
      ≡ build_line triple package_name features
unfolding build_shared_library_args push_features push_package
build_shared_library_args-build_line triple none none = refl
build_shared_library_args-build_line triple none (some f) = refl
build_shared_library_args-build_line triple (some p) none = refl
build_shared_library_args-build_line triple (some p) (some f) = refl

module _ (H : ReplayHost) where
  match_code_ok :
      (r : Option (ℕ × Replay)) (status : Status) (after : Replay)
      → match_code r ≡ ok (status, after)
      → (code : ℕ) × (r ≡ some (code, after)) × IsStatus code status
  unfolding match_code
  match_code_ok none status after h = absurd (ground arith)
  match_code_ok (some (code, later)) status after h =
      let same : ◌≡◌ {A = Status × Replay} (status_of code, later) (status, after) = cc in
      (
        code,
        ap (λ (s : Replay). some (code, s)) (ap (λ r. r.1) same),
        status_of_ok code status (ap (λ r. r.0) same),
      )

  build_shared_library_ok :
      (path : String) (package_name : Option String) (features : Option (List String))
      (u : Unit {0})
      → build_shared_library H path package_name features ≡ ok u
      → (triple : String) × (H.triple ≡ some triple)
        × (H.cargo path (build_line triple package_name features) ≡ true)
  unfolding build_shared_library
  build_shared_library_ok path package_name features u h =
      let (triple, e, k) = >>=-eq-ok (Outcome.ok_or no_triple H.triple) _ h in
      (
        triple,
        ok_or-eq-ok no_triple H.triple triple e,
        elim (Bool-cases (H.cargo path (build_shared_library_args triple package_name features))) [
          | inl t ↦
              ap (H.cargo path)
                (sym (build_shared_library_args-build_line triple package_name features))
              ∙ t
          | inr f ↦ absurd (cc (rw f at k))
        ],
      )

  -- The library that is found for a host: the only file of the debug directory whose name contains
  -- the extension.
  pub record IsFound (project triple : String) (library : Entry) : Type 0 where
    pub entries : List (Option Entry)
    pub listed : H.read_dir (join_path project ("target/" <> (triple <> "/debug/"))) ≡ some entries
    pub only : IsOnly (if H.macos then ".dylib" else ".so") (files_in entries) library

  shared_library_ok :
      (project triple : String) (library : Entry)
      → H.triple ≡ some triple
      → shared_library H project ≡ ok library
      → IsFound project triple library
  unfolding shared_library so_dir
  shared_library_ok project triple library host h =
      let (triple', e, k) = >>=-eq-ok (Outcome.ok_or no_triple H.triple) _ h in
      let same : triple' ≡ triple = cc (ok_or-eq-ok no_triple H.triple triple' e, host) in
      read_ok (H.read_dir (join_path project ("target/" <> (triple <> "/debug/")))) refl
        (rw same at k)
    where
      read_ok :
          (read : Option (List (Option Entry)))
          → H.read_dir (join_path project ("target/" <> (triple <> "/debug/"))) ≡ read
          → find_shared_library
              (H.read_dir (join_path project ("target/" <> (triple <> "/debug/"))))
              (if H.macos then ".dylib" else ".so")
            ≡ ok library
          → IsFound project triple library
      read_ok none e k = absurd (cc (rw (e, find_shared_library) at k))
      read_ok (some entries) e k = record {
        entries = entries;
        listed = e;
        only = matching-IsOnly (if H.macos then ".dylib" else ".so") (files_in entries) library (
            (find_shared_library_iff (if H.macos then ".dylib" else ".so") entries library).0
              (rw e at k));
      }

  -- A child that has returned with a status
  pub record IsReplay (args : ReplayArgs) (before : Replay) (status : Status) (after : Replay)
      : Type 0 where
    pub top : TraceFrame
    pub input : Bytes
    pub triple : String
    pub library : Entry
    pub main : ℕ → Host ℕ
    pub code : ℕ
    pub traced : H.new_trace args.trace ≡ ok (top, some input)
    pub host : H.triple ≡ some triple
    pub ran_cargo :
        H.cargo args.trace.project (build_line triple args.package_name args.features) ≡ true
    pub found : IsFound args.trace.project triple library
    pub loaded : H.entrypoint library ≡ ok main
    pub called :
        main (length input) (record before { frame = some (reader top) }) ≡ some (code, after)
    pub judged : IsStatus code status

  -- A child that returns has got the trace of the transaction, with an input; it has started cargo
  -- in the project, to build the library for the host, locked and with the package and the
  -- features that are asked for; it has found one file only whose name contains the extension of a
  -- library in the host's debug directory; and it has called that library's entrypoint, with the
  -- length of the input and the reader at the trace's first call. The state is that which the call
  -- leaves, and the status says whether it returned 0, 1 or something else.
  pub replay_child-IsReplay :
      (args : ReplayArgs) (before : Replay) (status : Status) (after : Replay)
      → replay_child H args before ≡ ok (status, after)
      → IsReplay args before status after
  unfolding replay_child call_main
  replay_child-IsReplay args before status after h =
      let ((top, input), traced, h1) = >>=-eq-ok (H.new_trace args.trace) _ h in
      let (u, built, h2) =
        >>=-eq-ok (build_shared_library H args.trace.project args.package_name args.features) _
          h1 in
      let (triple, host, ran_cargo) =
        build_shared_library_ok args.trace.project args.package_name args.features u built in
      let (library, found, h3) = >>=-eq-ok (shared_library H args.trace.project) _ h2 in
      let (text, has, h4) = >>=-eq-ok (Outcome.ok_or missing_input input) _ h3 in
      let (main, loaded, h5) = >>=-eq-ok (H.entrypoint library) _ h4 in
      let (code, called, judged) = match_code_ok _ status after h5 in
      record {
        top = top;
        input = text;
        triple = triple;
        library = library;
        main = main;
        code = code;
        traced =
            traced
            ∙ ap (λ (i : Option Bytes). ok (top, i)) (ok_or-eq-ok missing_input input text has);
        host = host;
        ran_cargo = ran_cargo;
        found = shared_library_ok args.trace.project triple library host found;
        loaded = loaded;
        called = called;
        judged = judged;
      }
