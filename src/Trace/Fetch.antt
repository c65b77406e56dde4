-- ===== src/Trace/Fetch.antt =====
-- `Trace::new` and `Trace::simulate` (main/src/trace.rs), as far as they look at what the node
-- answers.
pub mod Calls
use cargo_stylus.Common.{ℕ, Bool, true, false, Option, none, some, if◌then◌else◌}
use cargo_stylus.Common.Outcome
use cargo_stylus.Common.Outcome.{Outcome, ok, err, panic, out_of_fuel}
use cargo_stylus.Common.Bytes.{Bytes}
use cargo_stylus.Trace.Kinds.{TraceFrame}
use cargo_stylus.Trace.Json.{Value, Values, Members, remove}
use cargo_stylus.Trace.Cursor.{TraceError, Codec}
use cargo_stylus.Trace.Parse.{parse_frame}

pub data FetchError : Type 0 where
  rpc no_receipt no_transaction malformed no_frames activation : FetchError
  parsing : TraceError → FetchError

-- What the node answers: of the receipt, the receiver; of the tracer, a JSON value if it is one.
pub record Answers : Type 0 where
  pub receipt : Outcome FetchError (Option (Option Bytes))
  pub transaction : Outcome FetchError (Option (Unit {0}))
  pub traced : Outcome FetchError (Option Value)

abbrev pub has_value : Option Value → Bool
has_value none = false
has_value (some v) = true

-- `from_value::<Vec<ActivationTraceFrame>>(json).is_ok()`: each element is an object with an
-- `address`, or, as serde allows for a struct, an array of one element.
abbrev pub is_activation_frame : Value → Bool
is_activation_frame (Value.object ms) = has_value (remove "address" ms).value
is_activation_frame (Value.array (Values.cons v Values.nil)) = true
is_activation_frame _ = false

abbrev pub all_activation_frames : Values → Bool
all_activation_frames Values.nil = true
all_activation_frames (Values.cons v vs) =
    let rest = all_activation_frames vs in if is_activation_frame v then rest else false

unfoldable pub is_activation : Value → Bool
is_activation (Value.array vs) = all_activation_frames vs
is_activation _ = false

unfoldable pub is_empty_array : Value → Bool
is_empty_array (Value.array Values.nil) = true
is_empty_array _ = false

-- `?` on the error of `parse_frame`
abbrev pub parsed : Outcome TraceError TraceFrame → Outcome FetchError TraceFrame
parsed (ok f) = ok f
parsed (err e) = err (parsing e)
parsed panic = panic
parsed out_of_fuel = out_of_fuel

module _ (H : Codec) (fuel : ℕ) where
  new_json : Option Bytes → Value → Outcome FetchError TraceFrame
  new_json to json =
      if is_empty_array json
      then err no_frames
      else if is_activation json
      then err activation
      else parsed (parse_frame H fuel to json)

  -- The top frame of a transaction's trace
  unfoldable pub new : Answers → Outcome FetchError TraceFrame
  unfolding new_json is_empty_array is_activation
  new answers = Outcome.◌>>=◌ answers.receipt (λ r.
      Outcome.◌>>=◌ (Outcome.ok_or no_receipt r) (λ to. Outcome.◌>>=◌ answers.transaction (λ t.
        Outcome.◌>>=◌ (Outcome.ok_or no_transaction t) (λ u.
          Outcome.◌>>=◌ answers.traced
            (λ j. Outcome.◌>>=◌ (Outcome.ok_or malformed j) (λ json. new_json to json))))))

  simulate_json : Value → Outcome FetchError TraceFrame
  simulate_json json =
      if is_empty_array json then err no_frames else parsed (parse_frame H fuel none json)

  -- The top frame of a call that is only simulated; activations are not told apart.
  unfoldable pub simulate : Outcome FetchError (Option Value) → Outcome FetchError TraceFrame
  unfolding simulate_json
  simulate traced =
      Outcome.◌>>=◌ traced
        (λ j. Outcome.◌>>=◌ (Outcome.ok_or malformed j) (λ json. simulate_json json))
