-- ===== src/Trace/Reader.antt =====
-- `FrameReader` (main/src/trace.rs): the recorded host calls, handed out in order.
pub mod Search
use cargo_stylus.Common.{
  String, Bool, true, false, ◌||◌, Option, none, some, List, [], ◌∷◌, if◌then◌else◌,
}
use cargo_stylus.Common.Text.{str_eq}
use cargo_stylus.Trace.Kinds.{Hostio, kind_of, TraceFrame, steps_of, to_list}
use cargo_stylus.Trace.Names.{Names, name}

pub record FrameReader : Type 0 where
  pub frame : TraceFrame
  pub steps : List Hostio

-- `Trace::reader`, which needs the top frame alone.
pub reader : TraceFrame → FrameReader
unfolding to_list
reader top = record { frame = top; steps = to_list (steps_of top) }

-- The calls that the loop passes over: the guest does not make them itself.
unfoldable pub is_skipped : String → Bool
is_skipped n =
    str_eq n "pay_for_memory_grow" || (str_eq n "user_entrypoint" || str_eq n "user_returned")

module _ (N : Names) where
  -- The loop of `next_hostio`, with the `pop_front` of `next` as the match on the steps left: the
  -- call that is found and the steps behind it. `none` is the panic, at the end of the steps or at
  -- another call.
  unfoldable pub next_loop : String → List Hostio → Option (Hostio × List Hostio)
  next_loop expected [] = none
  next_loop expected (h ∷ rest) =
      let n = name N (kind_of h) in
      let more = next_loop expected rest in
      if str_eq n expected then some (h, rest) else if is_skipped n then more else none

  unfoldable pub next_hostio : String → FrameReader → Option (Hostio × FrameReader)
  next_hostio expected r = elim (next_loop expected r.steps) [
    | none ↦ none
    | some found ↦ some (found.0, record r { steps = found.1 })
  ]
