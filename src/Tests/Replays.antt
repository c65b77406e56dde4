-- ===== src/Tests/Replays.antt =====
-- A replay of a transaction without host calls (`replay`, main/src/main.rs).
use cargo_stylus.Common.{◌≡◌, refl, ◌↔◌, true, false, Option, none, some, List, [], ◌∷◌}
use cargo_stylus.Common.Files.{Entry, files_in}
use cargo_stylus.Common.Outcome.{Outcome, ok}
use cargo_stylus.Trace.Kinds.{TraceFrame, trace_frame, no_steps}
use cargo_stylus.Trace.Reader.{reader}
use cargo_stylus.Hostio.State.{Replay}
use cargo_stylus.Cli.Config.{ReplayArgs}
use cargo_stylus.Cli.Replay.{ReplayError, ReplayHost, Status, find_shared_library, replay_child}
use cargo_stylus.Cli.Replay.Library.{matching, find_shared_library_iff}
use cargo_stylus.Cli.Replay.Debugger.{IsReplay, replay_child-IsReplay}

-- Two libraries and a file without a name
abbrev listing : List (Option Entry)
listing =
    some (record { file_name = some "libfoo.so"; is_file = true })
    ∷ none
    ∷ some (record { file_name = some "libfoo.d"; is_file = true })
    ∷ some (record { file_name = none; is_file = true })
    ∷ some (record { file_name = some "build.so"; is_file = false })
    ∷ []

abbrev library : Entry
library = record { file_name = some "libfoo.so"; is_file = true }

library_example :
    (find_shared_library (some listing) ".so" ≡ ok library)
    ↔ (matching ".so" (files_in listing) ≡ library ∷ [])
library_example = find_shared_library_iff ".so" listing library

abbrev top : TraceFrame
top = trace_frame no_steps none

abbrev replay_host : ReplayHost
replay_host = record {
  macos = false;
  command_exists = λ c. false;
  own_args = [];
  triple = some "x86_64-unknown-linux-gnu";
  new_trace = λ args. ok (top, some (1 ∷ 2 ∷ []));
  cargo = λ dir args. true;
  read_dir = λ dir. some listing;
  entrypoint = λ l. ok (λ size state. some (0, state));
}

abbrev before : Replay
before = record { frame = none; start_ink = 0; end_ink = 0; memory = λ a. 0; console = [] }

abbrev args : ReplayArgs
args = record {
  trace = record {
    endpoint = "http://localhost:8547";
    tx = [];
    project = ".";
    use_native_tracer = false;
  };
  stable_rust = true;
  features = some ("a" ∷ "b" ∷ []);
  package_name = none;
  child = true;
}

replayed :
    ◌≡◌ {A = Outcome ReplayError (Status × Replay)}
      (replay_child replay_host args before)
      (ok (Status.completed, record before { frame = some (reader top) }))
unfolding replay_child
replayed = refl

replay_example :
    IsReplay replay_host args before Status.completed (record before { frame = some (reader top) })
replay_example =
    replay_child-IsReplay replay_host args before Status.completed
      (record before { frame = some (reader top) }) replayed
