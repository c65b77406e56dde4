-- ===== src/Tests/Traces.antt =====
-- The traces of the unit tests of main/src/trace.rs, and a replay of one.
use cargo_stylus.Common.{
  ℕ, ◌≤◌, ◌≢◌, ◌↔◌, ◌≡◌, refl, String, Bool, true, ◌&&◌, none, some, [], ◌∷◌, ltb, ltb→lt,
  &&-eq-true, arith, replicate,
}
use cargo_stylus.Common.Bytes.{Bytes, IsBytes, bytes_eq}
use cargo_stylus.Common.Outcome.{ok, err, out_of_fuel}
use cargo_stylus.Trace.Kinds.{
  HostioKind, Hostio, hostio, trace_frame, Steps, variant_of, kind_of, start_of, end_of, no_steps,
  push_step,
}
use cargo_stylus.Trace.Names.{spelling}
use cargo_stylus.Trace.Json.{Value, Values, depth}
use cargo_stylus.Trace.Print.{args_of, FitsSteps, print_steps, evm_step, append_values}
use cargo_stylus.Trace.Cursor.{missing}
use cargo_stylus.Trace.Parse.{parse_frame}
use cargo_stylus.Trace.Parse.Fuel.{parse_frame-ends}
use cargo_stylus.Trace.Parse.RoundTrip.{parse_frame-print_steps}
use cargo_stylus.Trace.Fetch.{activation, new}
use cargo_stylus.Trace.Fetch.Calls.{answers_of, new-all_calls, new-print_steps}
use cargo_stylus.Trace.Reader.{next_loop, next_hostio, is_skipped}
use cargo_stylus.Trace.Reader.Search.{IsNext, next_loop_iff}
use cargo_stylus.Hostio.State.{
  Replay, ◌>>=◌, return, read_fixed, load, store, assert_eq_bytes, copy, frame,
}
use cargo_stylus.Hostio.Data.{storage_load_bytes32, storage_load_bytes32_body}
use cargo_stylus.Hostio.Call.{Call, Reply, nothing, run, symbol, inputs, is_unchecked}
use cargo_stylus.Hostio.Call.Serves.{Answered, run-Answered}
use cargo_stylus.Hostio.Call.Returns.{run-Returns}
use cargo_stylus.Hostio.Call.Delivers.{Delivered, run-Delivered}
use cargo_stylus.Hostio.Call.Mismatch.{is_mismatched, run-mismatched}
use cargo_stylus.Tests.Instances.{hex, snake_case}

abbrev all_bytes : Bytes → Bool
all_bytes [] = true
all_bytes (b ∷ bs) = ltb b 256 && all_bytes bs

IsBytes-all_bytes : (b : Bytes) → all_bytes b ≡ true → IsBytes b
IsBytes-all_bytes [] h = tt
IsBytes-all_bytes (b ∷ bs) h =
    let (x, y) = &&-eq-true (ltb b 256) (all_bytes bs) h in (ltb→lt b 256 x, IsBytes-all_bytes bs y)

abbrev dead : Bytes
dead =
    222 ∷ 173 ∷ 222 ∷ 173 ∷ 222 ∷ 173 ∷ 222 ∷ 173 ∷ 222 ∷ 173 ∷ 222 ∷ 173 ∷ 222 ∷ 173 ∷ 222 ∷ 173
    ∷ 222 ∷ 173 ∷ 222 ∷ 173 ∷ []

abbrev entry : Steps
entry = push_step (hostio (HostioKind.user_entrypoint 1) 900 600) no_steps

-- The call of the test `parse_call`.
abbrev parse_call : Steps
parse_call =
    push_step
      (hostio
        (HostioKind.call_contract dead (190 ∷ 239 ∷ []) 255 65535 15 0
          (trace_frame entry (some dead)))
        1000 500)
      no_steps

parse_call-FitsSteps : FitsSteps parse_call
parse_call-FitsSteps = (
  (
    (refl, IsBytes-all_bytes dead refl),
    refl,
    refl,
    IsBytes-all_bytes (190 ∷ 239 ∷ []) refl,
    refl,
    refl,
    ((refl, IsBytes-all_bytes dead refl), (refl, tt)),
  ),
  tt,
)

abbrev parse_call_json : Value
parse_call_json = Value.array (print_steps hex parse_call)

two_deep : depth parse_call_json ≤ 2
unfolding depth print_steps
two_deep = omega arith

print_steps_example :
    (parse_frame hex 2 none parse_call_json ≡ ok (trace_frame parse_call none))
    × ((callee name : String) (inner rest : Values)
        → parse_frame hex 2 none (
            Value.array (
              append_values
                (print_steps hex parse_call)
                (Values.cons (evm_step callee inner name) rest)))
          ≡ err (missing "args"))
print_steps_example = parse_frame-print_steps hex parse_call none 2 parse_call-FitsSteps two_deep

ends_example : parse_frame hex 3 none parse_call_json ≢ out_of_fuel
ends_example = parse_frame-ends hex 3 none parse_call_json (omega (arith, two_deep))

-- A recorded load that stands behind a `pay_for_memory_grow`.
abbrev key : Bytes
key = replicate 32 250

abbrev value : Bytes
value = replicate 32 235

abbrev grow : Hostio
grow = hostio (HostioKind.pay_for_memory_grow 1) 2000 1000

abbrev found : Hostio
found = hostio (HostioKind.storage_load_bytes32 key value) 1000 900

next_loop_example :
    (next_loop snake_case "storage_load_bytes32" (grow ∷ found ∷ []) ≡ some (found, []))
    ↔ IsNext snake_case "storage_load_bytes32" (grow ∷ found ∷ []) found []
next_loop_example = next_loop_iff snake_case "storage_load_bytes32" (grow ∷ found ∷ []) found []

-- The guest keeps the key at address 0.
abbrev start : Replay
start = record {
  frame = some (record {
    frame = trace_frame (push_step grow (push_step found no_steps)) none;
    steps = grow ∷ found ∷ [];
  });
  start_ink = 0;
  end_ink = 0;
  memory = λ a. 250;
  console = [];
}

abbrev after : Replay
after = record start {
  frame =
      some (record {
        frame = trace_frame (push_step grow (push_step found no_steps)) none;
        steps = [];
      });
  start_ink = 1000;
  end_ink = 900;
  memory = store 64 value (λ a. 250);
}

abbrev no_bytes : ℕ → Bytes
no_bytes n = []

replayed : run snake_case no_bytes (Call.storage_load_bytes32 0 64) start ≡ some (nothing, after)
unfolding run storage_load_bytes32 storage_load_bytes32_body frame next_hostio next_loop ◌>>=◌
    return read_fixed load assert_eq_bytes copy variant_of kind_of start_of end_of spelling
    is_skipped bytes_eq
replayed = refl

run_Answered_example : Answered snake_case (Call.storage_load_bytes32 0 64) start after
unfolding is_unchecked
run_Answered_example =
    run-Answered snake_case no_bytes (Call.storage_load_bytes32 0 64) start nothing after refl
      replayed

mismatched_example : run snake_case no_bytes (Call.math_mul_mod 0 32 64) start ≡ none
unfolding is_mismatched
mismatched_example = run-mismatched snake_case no_bytes (Call.math_mul_mod 0 32 64) start refl

-- The trace of the test `parse_evm_call` has calls only.
abbrev evm_call : Hostio
evm_call = hostio (HostioKind.evm_call "evm_call_contract" (trace_frame entry (some dead))) 0 0

all_calls_example :
    new hex 3 (answers_of none (Value.array (print_steps hex (push_step evm_call no_steps))))
    ≡ err activation
all_calls_example = new-all_calls hex evm_call no_steps none 3 refl

entry_deep : depth (Value.array (print_steps hex entry)) ≤ 1
unfolding depth print_steps
entry_deep = omega arith

new_example :
    new hex 1 (answers_of (some dead) (Value.array (print_steps hex entry)))
    ≡ ok (trace_frame entry (some dead))
new_example = new-print_steps hex entry (some dead) 1 refl (refl, tt) entry_deep

found-IsNext : IsNext snake_case "storage_load_bytes32" (grow ∷ found ∷ []) found []
unfolding next_loop is_skipped spelling variant_of
found-IsNext = (next_loop_iff snake_case "storage_load_bytes32" (grow ∷ found ∷ []) found []).0 refl

run_Returns_example :
    (q : Reply × Replay) × (run snake_case no_bytes (Call.storage_load_bytes32 0 64) start ≡ some q)
unfolding is_mismatched inputs args_of load variant_of symbol
run_Returns_example =
    run-Returns snake_case no_bytes (Call.storage_load_bytes32 0 64) start
      (record {
        frame = trace_frame (push_step grow (push_step found no_steps)) none;
        steps = grow ∷ found ∷ [];
      })
      found [] refl refl found-IsNext refl
      ((refl, IsBytes-all_bytes key refl), (refl, IsBytes-all_bytes value refl)) tt refl

run_Delivered_example :
    Delivered snake_case no_bytes (Call.storage_load_bytes32 0 64) 64 start after
run_Delivered_example =
    run-Delivered snake_case no_bytes (Call.storage_load_bytes32 0 64) 64 start nothing after refl
      replayed
