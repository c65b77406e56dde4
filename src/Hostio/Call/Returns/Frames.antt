-- ===== src/Hostio/Call/Returns/Frames.antt =====
-- A host function returns if its call is the next one and its body returns.
use cargo_stylus.Common.{String, ◌≡◌, some, List}
use cargo_stylus.Trace.Kinds.{HostioKind, Hostio, kind_of, start_of, end_of}
use cargo_stylus.Trace.Names.{Names}
use cargo_stylus.Trace.Reader.{FrameReader, next_loop, next_hostio}
use cargo_stylus.Trace.Reader.Search.{IsNext, next_loop_iff}
use cargo_stylus.Hostio.State.{Replay, Host, ◌>>=◌, return, frame}
use cargo_stylus.Hostio.State.Returns.{Returns}
use cargo_stylus.Hostio.Call.{Reply}

module _ (N : Names) where
  -- A function whose call is the next one passes through `frame!`.
  frame-found :
      (function_name : String) (s : Replay) (r : FrameReader) (call : Hostio) (rest : List Hostio)
      → s.frame ≡ some r
      → IsNext N function_name r.steps call rest
      → frame N function_name s
        ≡ some (
          kind_of call,
          record s {
            frame = some (record r { steps = rest });
            start_ink = start_of call;
            end_ink = end_of call;
          },
        )
  unfolding frame next_hostio
  frame-found function_name s r call rest had next =
      let found : next_loop N function_name r.steps ≡ some (call, rest) =
        (next_loop_iff N function_name r.steps call rest).1 next in
      cc (had, found)

  pub reply :
      {A : Type 0} (f : A → Reply) (body : HostioKind → Host A) (function_name : String)
      (s : Replay) (r : FrameReader) (call : Hostio) (rest : List Hostio)
      → s.frame ≡ some r
      → IsNext N function_name r.steps call rest
      → Returns
          (record s {
            frame = some (record r { steps = rest });
            start_ink = start_of call;
            end_ink = end_of call;
          })
          (body (kind_of call))
      → (q : Reply × Replay) × (((frame N function_name >>= body) >>= λ a. return (f a)) s ≡ some q)
  unfolding ◌>>=◌ return
  reply f body function_name s r call rest had next b =
      let found = frame-found function_name s r call rest had next in
      ((f b.result.0, b.result.1), cc (found, b.returns))
