-- ===== src/Trace/Fetch/Calls.antt =====
-- Which traces `Trace::new` takes for those of an activation.
use cargo_stylus.Common.{ℕ, ◌≤◌, ◌≡◌, refl, Bool, true, false, Option, some, if◌then◌else◌, ◌∙◌}
use cargo_stylus.Common.Outcome.{ok, err}
use cargo_stylus.Common.Bytes.{Bytes}
use cargo_stylus.Trace.Kinds.{HostioKind, Hostio, hostio, trace_frame, Steps, no_steps, push_step}
use cargo_stylus.Trace.Json.{Value, remove, depth}
use cargo_stylus.Trace.Cursor.{Codec}
use cargo_stylus.Trace.Print.{FitsSteps, print_hostio, print_steps}
use cargo_stylus.Trace.Parse.RoundTrip.{parse_frame-print_steps}
use cargo_stylus.Trace.Fetch.{
  Answers, activation, is_activation_frame, all_activation_frames, is_activation, is_empty_array,
  new_json, new,
}

-- The calls that have a frame of their own.
abbrev pub is_call : HostioKind → Bool
is_call (HostioKind.call_contract _ _ _ _ _ _ _) = true
is_call (HostioKind.delegate_call_contract _ _ _ _ _ _) = true
is_call (HostioKind.static_call_contract _ _ _ _ _ _) = true
is_call (HostioKind.evm_call _ _) = true
is_call _ = false

abbrev pub all_calls : Steps → Bool
all_calls no_steps = true
all_calls (push_step (hostio kind start_ink end_ink) rest) =
    let more = all_calls rest in if is_call kind then more else false

-- The answers of a node that knows the transaction
abbrev pub answers_of : Option Bytes → Value → Answers
answers_of to json = record {
  receipt = ok (some to);
  transaction = ok (some tt);
  traced = ok (some json);
}

module _ (H : Codec) where
  is_activation_frame-print_hostio :
      (kind : HostioKind) (start_ink end_ink : ℕ)
      → is_activation_frame (print_hostio H (hostio kind start_ink end_ink)) ≡ is_call kind
  unfolding print_hostio remove
  is_activation_frame-print_hostio (HostioKind.call_contract _ _ _ _ _ _ (trace_frame _ _)) i j =
      refl
  is_activation_frame-print_hostio (HostioKind.delegate_call_contract _ _ _ _ _ (trace_frame _ _)) i
        j =
      refl
  is_activation_frame-print_hostio (HostioKind.static_call_contract _ _ _ _ _ (trace_frame _ _)) i
        j =
      refl
  is_activation_frame-print_hostio (HostioKind.evm_call _ (trace_frame _ _)) i j = refl
  is_activation_frame-print_hostio _ i j = refl

  all_activation_frames-print_steps :
      (steps : Steps) → all_activation_frames (print_steps H steps) ≡ all_calls steps
  unfolding print_steps
  all_activation_frames-print_steps no_steps = refl
  all_activation_frames-print_steps (push_step (hostio kind i j) rest) =
      rw (is_activation_frame-print_hostio kind i j, all_activation_frames-print_steps rest) refl

  -- If the node knows the transaction, whose trace is not empty, and every step of it is a call,
  -- then `Trace::new` says that it is an activation.
  pub new-all_calls :
      (h : Hostio) (rest : Steps) (to : Option Bytes) (fuel : ℕ)
      → all_calls (push_step h rest) ≡ true
      → new H fuel (answers_of to (Value.array (print_steps H (push_step h rest)))) ≡ err activation
  unfolding new new_json is_activation is_empty_array print_steps
  new-all_calls h rest to fuel k =
      rw ((all_activation_frames-print_steps (push_step h rest)) ∙ k) refl

  -- If the node knows the transaction, in whose trace every step has a name, the bytes of its
  -- arguments and results and its ink, and every call the address and the steps of its frame, with
  -- fields in range, no `ConsoleLog` and a depth of at most the fuel, and some step of it is not a
  -- call, then `Trace::new` returns the frame that the trace was written from, with the receipt's
  -- receiver as its address.
  pub new-print_steps :
      (steps : Steps) (to : Option Bytes) (fuel : ℕ)
      → all_calls steps ≡ false
      → FitsSteps steps
      → depth (Value.array (print_steps H steps)) ≤ fuel
      → new H fuel (answers_of to (Value.array (print_steps H steps))) ≡ ok (trace_frame steps to)
  unfolding new new_json is_activation is_empty_array print_steps
  new-print_steps no_steps to fuel k f d = cc k
  new-print_steps (push_step h rest) to fuel k f d =
      rw
        (
          all_activation_frames-print_steps (push_step h rest) ∙ k,
          (parse_frame-print_steps H (push_step h rest) to fuel f d).0,
        )
        refl
