-- ===== src/Hostio/State/Frames.antt =====
-- What `frame!` does when it returns, and how a host function that returns passed through it.
use cargo_stylus.Common.{String, ◌≡◌, refl, Option, none, some, List, arith}
use cargo_stylus.Trace.Kinds.{HostioKind, Hostio, kind_of, start_of, end_of}
use cargo_stylus.Trace.Names.{Names}
use cargo_stylus.Trace.Reader.{FrameReader, next_loop, next_hostio}
use cargo_stylus.Trace.Reader.Search.{IsNext, next_loop_iff}
use cargo_stylus.Hostio.State.{Replay, Host, ◌>>=◌, frame}

-- From `s`, the host function `function_name` is served by the recorded call `call`: the next one
-- of its name. The reader moves behind it, and the ink counters become those of the call.
pub record Served (N : Names) (function_name : String) (s s' : Replay) (call : Hostio)
    : Type 0 where
  pub before : FrameReader
  pub rest : List Hostio
  pub had : s.frame ≡ some before
  pub is_next : IsNext N function_name before.steps call rest
  pub frame_left : s'.frame ≡ some (record before { steps = rest })
  pub start_ink_left : s'.start_ink ≡ start_of call
  pub end_ink_left : s'.end_ink ≡ end_of call

-- A match on an option that gives something was on something.
pub Option-inv :
    {A B : Type 0} (o : Option A) (f : A → Option B) (q : B)
    → elim o [ none ↦ none | some a ↦ f a ] ≡ some q
    → (a : A) × (o ≡ some a) × (f a ≡ some q)
Option-inv none f q h = cc
Option-inv (some a) f q h = (a, refl, h)

module _ (N : Names) (function_name : String) (s : Replay) where
  served :
      (r : FrameReader) (call : Hostio) (rest : List Hostio) (k : HostioKind) (s1 : Replay)
      → s.frame ≡ some r
      → next_loop N function_name r.steps ≡ some (call, rest)
      → ◌≡◌ {A = Option (HostioKind × Replay)}
          (some (
            kind_of call,
            record s {
              frame = some (record r { steps = rest });
              start_ink = start_of call;
              end_ink = end_of call;
            },
          ))
          (some (k, s1))
      → Served N function_name s s1 call × (kind_of call ≡ k) × (s1.memory ≡ s.memory)
  served r call rest k s1 had e h = (
    record {
      before = r;
      rest = rest;
      had = had;
      is_next = (next_loop_iff N function_name r.steps call rest).0 e;
      frame_left = ground arith;
      start_ink_left = ground arith;
      end_ink_left = ground arith;
    },
    ground arith,
    ground arith,
  )

  pub frame-Served :
      (k : HostioKind) (s1 : Replay)
      → frame N function_name s ≡ some (k, s1)
      → (call : Hostio) × Served N function_name s s1 call
        × (kind_of call ≡ k)
        × (s1.memory ≡ s.memory)
  unfolding frame next_hostio
  frame-Served k s1 h =
      let (r, had, h1) = Option-inv s.frame _ (k, s1) h in
      let ((call, r'), found, h2) = Option-inv (next_hostio N function_name r) _ (k, s1) h1 in
      let ((call', rest), e, h3) =
        Option-inv (next_loop N function_name r.steps) _ (call, r') found in
      let (serves, is_kind, same_memory) = served r call' rest k s1 had e (cc (h2, h3)) in
      (call', serves, is_kind, same_memory)

  -- A host function that returns has been served.
  pub frame-bind :
      {A : Type 0} (f : HostioKind → Host A) (q : A × Replay)
      → (frame N function_name >>= f) s ≡ some q
      → (k : HostioKind) × (s1 : Replay) × (frame N function_name s ≡ some (k, s1))
        × (f k s1 ≡ some q)
  unfolding ◌>>=◌
  frame-bind f q h =
      let (r, e, h') = Option-inv (frame N function_name s) (λ r. f r.0 r.1) q h in
      (r.0, r.1, e, h')
