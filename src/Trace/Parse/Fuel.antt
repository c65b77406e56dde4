-- ===== src/Trace/Parse/Fuel.antt =====
-- `parse_frame` returns: fuel above the nesting depth of the JSON value is enough.
use cargo_stylus.Common.{ℕ, zero, suc, ◌≤◌, ◌<◌, String, ◌≢◌, Option, none, some, [], arith}
use cargo_stylus.Common.Outcome
use cargo_stylus.Common.Outcome.{Outcome, ok, err, panic, out_of_fuel}
use cargo_stylus.Common.Bytes.{Bytes}
use cargo_stylus.Trace.Kinds.{Hostio, TraceFrame, Steps, push_step, Variant}
use cargo_stylus.Trace.Names.{arm_of}
use cargo_stylus.Trace.Json.{Value, Values, depth, depth_values, depth_members}
use cargo_stylus.Trace.Cursor.{TraceError, Codec, Cursor, lift, get_hex, address_from_slice}
use cargo_stylus.Trace.Cursor.Total.{
  Ends, Total, total_rules, Total-lift, Total-bind, Total-get_hex, Total-member,
  address_from_slice-ends,
}
use cargo_stylus.Trace.Parse.{
  load, assert_consumed, frame, read_kind, select_kind, parse_step, parse_steps, parse_array,
  parse_frame,
}

unwrap-ends : (o : Option Variant) → Outcome.unwrap {E = TraceError} o ≢ out_of_fuel
unwrap-ends none h = cc
unwrap-ends (some v) h = cc

-- What the nested parse needs: to end on every value that is no deeper than `n`.
module _ (H : Codec) (nested : Option Bytes → Value → Outcome TraceError TraceFrame) (n : ℕ)
    (nested-ends : (a : Option Bytes) (v : Value) → depth v ≤ n → nested a v ≢ out_of_fuel) where
  Total-load : (a o : Bytes) → Total n (load a o)
  unfolding load
  Total-load a o = record { at = λ c h. h }

  Total-assert_consumed : Total n assert_consumed
  unfolding assert_consumed
  Total-assert_consumed = record { at = λ c h. ground arith }

  Total-frame : Total n (frame H nested)
  unfolding frame
  Total-frame = Total-bind n (get_hex H "address") _ (Total-get_hex n H "address") λ bytes.
      Total-bind n (lift (address_from_slice bytes)) _
        (Total-lift n (address_from_slice bytes) (address_from_slice-ends bytes))
        λ address. Total-member n (nested (some address)) (nested-ends (some address)) "steps"

  Total-read_kind : (name : String) (v : Variant) → Total n (read_kind H nested name v)
  unfolding read_kind
  Total-read_kind name Variant.call_contract = search (total_rules, Total-frame) depth 12
  Total-read_kind name Variant.delegate_call_contract = search (total_rules, Total-frame) depth 12
  Total-read_kind name Variant.static_call_contract = search (total_rules, Total-frame) depth 12
  Total-read_kind name Variant.evm_call = search (total_rules, Total-frame) depth 12
  Total-read_kind name _ = search total_rules depth 12

  Total-select_kind : (name : String) → Total n (select_kind H nested name)
  unfolding select_kind
  Total-select_kind name =
      Total-bind n (lift (Outcome.unwrap (arm_of name))) _
        (Total-lift n (Outcome.unwrap (arm_of name)) (unwrap-ends (arm_of name)))
        (Total-read_kind name)

  Total-parse_step : Total n (parse_step H nested)
  unfolding parse_step
  Total-parse_step =
      search (total_rules, Total-load, Total-assert_consumed, Total-select_kind) depth 15

  steps-step :
      (r : Outcome TraceError (Hostio × Cursor)) (more : Outcome TraceError Steps)
      → Ends n r
      → more ≢ out_of_fuel
      → Outcome.◌>>=◌ r (λ q. Outcome.◌>>=◌ more (λ steps. ok (push_step q.0 steps))) ≢ out_of_fuel
  steps-step (ok q) more h k = ground arith
  steps-step (err e) more h k = ground arith
  steps-step panic more h k = ground arith
  steps-step out_of_fuel more h k = absurd h

  parse_steps-ends : (vs : Values) → depth_values vs ≤ n → parse_steps H nested vs ≢ out_of_fuel
  unfolding parse_steps depth_members
  parse_steps-ends Values.nil h e = cc
  parse_steps-ends (Values.cons (Value.object keys) rest) h e =
      let start : Cursor = record { keys = keys; args_left = []; outs_left = [] } in
      steps-step (parse_step H nested start) (parse_steps H nested rest)
        (Total-parse_step.at start (omega arith)) (parse_steps-ends rest (omega arith)) e
  parse_steps-ends (Values.cons _ rest) h e = cc

-- With fuel above the nesting depth of the value, `parse_frame` returns a frame, an error or a
-- panic.
pub parse_frame-ends :
    (H : Codec) (fuel : ℕ) (address : Option Bytes) (v : Value)
    → depth v < fuel
    → parse_frame H fuel address v ≢ out_of_fuel
unfolding parse_frame parse_array depth
parse_frame-ends H zero address v h e = elim h [ ]
parse_frame-ends H (suc fuel) address (Value.array vs) h e =
    let ends : parse_steps H (parse_frame H fuel) vs ≢ out_of_fuel =
      parse_steps-ends H (parse_frame H fuel) (depth_values vs)
        (λ a w k. parse_frame-ends H fuel a w (omega arith)) vs (omega arith) in
    ground arith
parse_frame-ends H (suc fuel) address _ h e = cc
