-- ===== src/Cli/Replay.antt =====
-- `replay`, with the shared library of the contract (main/src/main.rs).
pub mod Library
pub mod Debugger
use Prim.Native.String.{◌++◌ as ◌<>◌}
use cargo_stylus.Common.{
  ℕ, zero, suc, String, Bool, true, false, not, ◌&&◌, Option, none, some, List, [], ◌∷◌, ◌++◌,
  length, if◌then◌else◌,
}
use cargo_stylus.Common.Text.{contains, ends_with}
use cargo_stylus.Common.Files.{Entry, files_in}
use cargo_stylus.Common.Bytes.{Bytes}
use cargo_stylus.Common.Outcome
use cargo_stylus.Common.Outcome.{Outcome, ok, err, panic, out_of_fuel, ◌>>=◌}
use cargo_stylus.Trace.Kinds.{TraceFrame}
use cargo_stylus.Trace.Reader.{reader}
use cargo_stylus.Trace.Fetch.{FetchError}
use cargo_stylus.Hostio.State.{Replay, Host}
use cargo_stylus.Cli.Config.{ReplayArgs, TraceArgs}
use cargo_stylus.Cli.Words.{join, is_empty}

pub data ReplayError : Type 0 where
  no_debugger not_connected no_triple cargo_failed : ReplayError
  exec_failed : (program : String) → ReplayError
  trace_failed : FetchError → ReplayError
  dir_not_opened more_than_one_so no_so missing_input : ReplayError
  library_not_loaded symbol_not_found : ReplayError

abbrev pub gdb_args : List String
gdb_args =
    "--quiet" ∷ "-ex=set breakpoint pending on" ∷ "-ex=b user_entrypoint" ∷ "-ex=r" ∷ "--args" ∷ []

abbrev pub lldb_args : List String
lldb_args = "--source-quietly" ∷ "-o" ∷ "b user_entrypoint" ∷ "-o" ∷ "r" ∷ "--" ∷ []

-- The debugger and its arguments
unfoldable pub choose_debugger : (String → Bool) → (macos : Bool) → Option (String × List String)
choose_debugger command_exists macos =
    if command_exists "rust-gdb" && not macos
    then some ("rust-gdb", gdb_args)
    else if command_exists "rust-lldb"
    then some ("rust-lldb", lldb_args)
    else if command_exists "gdb" && not macos
    then some ("gdb", gdb_args)
    else if command_exists "lldb"
    then some ("lldb", lldb_args)
    else none

-- What the process becomes: the debugger, on this process's arguments as those of a child.
unfoldable pub debugger_command :
    (String → Bool)
    → (macos : Bool) → (own_args : List String) → Outcome ReplayError (String × List String)
unfolding choose_debugger
debugger_command command_exists macos own_args =
    Outcome.ok_or no_debugger (choose_debugger command_exists macos) >>= λ (name, args).
    ok (name, args ++ (own_args ++ "--child" ∷ []))

unfoldable pub push_features : Option (List String) → List String → List String
unfolding join
push_features none args = args
push_features (some f) args = args ++ "--features" ∷ join "," f ∷ []

unfoldable pub push_package : Option String → List String → List String
push_package none args = args
push_package (some p) args = args ++ "--package" ∷ p ∷ []

-- The arguments of cargo in `build_shared_library`
unfoldable pub build_shared_library_args :
    (triple : String)
    → (package_name : Option String) → (features : Option (List String)) → List String
unfolding push_features push_package
build_shared_library_args triple package_name features =
    let args = push_features features ("build" ∷ []) in
    push_package package_name args ++ "--lib" ∷ "--locked" ∷ "--target" ∷ triple ∷ []

unfoldable pub name_contains : String → Option String → Bool
unfolding contains
name_contains extension none = false
name_contains extension (some name) = contains name extension

abbrev pub add_file : Option Entry → Entry → Outcome ReplayError (Option Entry)
add_file none entry = ok (some entry)
add_file (some other) entry = err more_than_one_so

-- The loop over the files, with the file that has been found
unfoldable pub find_loop : String → Option Entry → List Entry → Outcome ReplayError (Option Entry)
unfolding name_contains
find_loop extension file [] = ok file
find_loop extension file (entry ∷ entries) = elim (name_contains extension entry.file_name) [
  | true ↦ add_file file entry >>= λ found. find_loop extension found entries
  | false ↦ find_loop extension file entries
]

-- `find_shared_library`, of what reading the directory gives
unfoldable pub find_shared_library :
    Option (List (Option Entry)) → String → Outcome ReplayError Entry
unfolding files_in find_loop
find_shared_library read extension = Outcome.ok_or dir_not_opened read >>= λ entries.
    find_loop extension none (files_in entries) >>= λ file. Outcome.ok_or no_so file

-- `base.join(rest)` of a relative path
unfoldable pub join_path : String → String → String
unfolding ends_with
join_path base rest =
    if is_empty base
    then rest
    else if ends_with base "/"
    then base <> rest
    else base <> ("/" <> rest)

unfoldable pub so_dir : (project : String) → (triple : String) → String
unfolding join_path
so_dir project triple = join_path project ("target/" <> (triple <> "/debug/"))

-- What `user_entrypoint` has returned
pub data Status : Type 0 where
  completed reverted : Status
  unknown : ℕ → Status

unfoldable pub status_of : ℕ → Status
status_of zero = completed
status_of (suc zero) = reverted
status_of x = unknown x

-- The match on what `main` returns. `none` is a panic of a host function.
unfoldable pub match_code : Option (ℕ × Replay) → Outcome ReplayError (Status × Replay)
unfolding status_of
match_code none = panic
match_code (some (code, state)) = ok (status_of code, state)

-- The host of a replay. `new_trace` is `Trace::new` behind the connection, with the transaction's
-- input; `cargo` says whether cargo could be started; `entrypoint` is the library's
-- `user_entrypoint`, which calls the host functions.
pub record ReplayHost : Type 0 where
  pub macos : Bool
  pub command_exists : String → Bool
  pub own_args : List String
  pub triple : Option String
  pub new_trace : TraceArgs → Outcome ReplayError (TraceFrame × Option Bytes)
  pub cargo : (dir : String) → (args : List String) → Bool
  pub read_dir : String → Option (List (Option Entry))
  pub entrypoint : Entry → Outcome ReplayError (ℕ → Host ℕ)

module _ (H : ReplayHost) where
  open H use {macos, triple, read_dir, entrypoint}

  unfoldable pub build_shared_library :
      (path : String)
      → (package_name : Option String) → (features : Option (List String))
      → Outcome ReplayError (Unit {0})
  unfolding build_shared_library_args
  build_shared_library path package_name features = Outcome.ok_or no_triple triple >>= λ host.
      if H.cargo path (build_shared_library_args host package_name features)
      then ok tt
      else err cargo_failed

  unfoldable pub shared_library : (project : String) → Outcome ReplayError Entry
  unfolding so_dir find_shared_library
  shared_library project = Outcome.ok_or no_triple triple >>= λ host.
      find_shared_library (read_dir (so_dir project host)) (if macos then ".dylib" else ".so")

  -- The call of the guest, with the reader of the trace as `FRAME`
  unfoldable pub call_main :
      (ℕ → Host ℕ) → TraceFrame → Bytes → Replay → Outcome ReplayError (Status × Replay)
  unfolding match_code
  call_main main top args state =
      match_code (main (length args) (record state { frame = some (reader top) }))

  unfoldable pub replay_child : ReplayArgs → Replay → Outcome ReplayError (Status × Replay)
  unfolding build_shared_library shared_library call_main
  replay_child args state = H.new_trace args.trace >>= λ (top, input).
      build_shared_library args.trace.project args.package_name args.features >>= λ _.
      shared_library args.trace.project >>= λ library.
      Outcome.ok_or missing_input input >>= λ input.
      entrypoint library >>= λ main. call_main main top input state

  -- The process becomes a debugger, or replays the transaction.
  pub data Replayed : Type 0 where
    exec : (program : String) → (args : List String) → Replayed
    returned : Status → Replay → Replayed

  unfoldable pub replay : ReplayArgs → Replay → Outcome ReplayError Replayed
  unfolding debugger_command replay_child
  replay args state =
      if args.child
      then (replay_child args state >>= λ (status, state). ok (returned status state))
      else debugger_command H.command_exists macos H.own_args >>= λ (program, args).
          ok (exec program args)
