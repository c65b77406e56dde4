-- ===== src/Hostio/Call/Mismatch.antt =====
-- The host functions that expect the kind of another call than the one that they ask for.
use cargo_stylus.Common.{
  ℕ, String, ◌≡◌, refl, sym, ◌≢◌, ap, ◌∙◌, Bool, true, false, Option, none, Option-cases, inl, inr,
}
use cargo_stylus.Common.Text.{str_eq, str_apart}
use cargo_stylus.Common.Bytes.{Bytes}
use cargo_stylus.Trace.Kinds.{HostioKind, Variant, variant_of}
use cargo_stylus.Trace.Names.{Names, name, spelling}
use cargo_stylus.Hostio.State.{Replay, Host, ◌>>=◌, return, unreachable, frame}
use cargo_stylus.Hostio.State.Frames.{frame-Served, frame-bind}
use cargo_stylus.Hostio.Math.{math_mul_mod, math_mul_mod_body}
use cargo_stylus.Hostio.Console.{
  log_f32, log_f32_body, log_f64, log_f64_body, log_i32, log_i32_body, log_i64, log_i64_body,
  log_txt, log_txt_body,
}
use cargo_stylus.Hostio.Call.{Call, Reply, run}

-- The calls whose function matches on another kind: `math_mul_mod` on `MathAddMod`, and the
-- `log_*` functions on kinds that are named `console_log` and `console_log_text`.
unfoldable pub is_mismatched : Call → Bool
is_mismatched (Call.math_mul_mod _ _ _) = true
is_mismatched (Call.log_f32 _) = true
is_mismatched (Call.log_f64 _) = true
is_mismatched (Call.log_i32 _) = true
is_mismatched (Call.log_i64 _) = true
is_mismatched (Call.log_txt _ _) = true
is_mismatched _ = false

as_reply_none :
    {A : Type 0} (f : A → Reply) (m : Host A) (s : Replay)
    → m s ≡ none
    → (m >>= λ a. return (f a)) s ≡ none
unfolding ◌>>=◌
as_reply_none f m s h = cc h

module _ (N : Names) where
  -- A body that gives up on every kind of the expected name gives up.
  never_returns :
      {A : Type 0} (function_name : String) (body : HostioKind → Host A) (s : Replay)
      → ((k : HostioKind) (s1 : Replay) → name N k ≡ function_name → body k s1 ≡ none)
      → (frame N function_name >>= body) s ≡ none
  never_returns function_name body s gives_up =
      elim (Option-cases ((frame N function_name >>= body) s)) [
        | inl e ↦ e
        | inr (q, e) ↦
            let (k, s1, found, e1) = frame-bind N function_name s body q e in
            let (call, v, is_kind, _) = frame-Served N function_name s k s1 found in
            let none_left = gives_up k s1 (ap (name N) (sym is_kind) ∙ v.is_next.named) in cc
      ]

  -- A kind whose name is another string is none that the reader hands out.
  not_named :
      {A : Type 0} (v : Variant) (function_name : String) (o : Option A)
      → v ≢ Variant.evm_call
      → str_eq (spelling v) function_name ≡ false
      → N.name_of v ≡ function_name
      → o ≡ none
  not_named v function_name o known other h =
      absurd (str_apart (spelling v) function_name other (sym (N.name_of_lem v known) ∙ h))

  math_mul_mod-gives_up :
      (value multiplier modulus : ℕ) (k : HostioKind) (s : Replay)
      → name N k ≡ "math_mul_mod"
      → math_mul_mod_body value multiplier modulus k s ≡ none
  unfolding math_mul_mod_body unreachable spelling variant_of
  math_mul_mod-gives_up value multiplier modulus (HostioKind.math_add_mod _ _ _ _) s h =
      not_named Variant.math_add_mod "math_mul_mod" _ (λ e. cc) refl h
  math_mul_mod-gives_up value multiplier modulus _ s h = refl

  log_f32-gives_up :
      (value : ℕ) (k : HostioKind) (s : Replay)
      → name N k ≡ "log_f32"
      → log_f32_body value k s ≡ none
  unfolding log_f32_body unreachable spelling variant_of
  log_f32-gives_up value (HostioKind.console_log _) s h =
      not_named Variant.console_log "log_f32" _ (λ e. cc) refl h
  log_f32-gives_up value _ s h = refl

  log_f64-gives_up :
      (value : ℕ) (k : HostioKind) (s : Replay)
      → name N k ≡ "log_f64"
      → log_f64_body value k s ≡ none
  unfolding log_f64_body unreachable spelling variant_of
  log_f64-gives_up value (HostioKind.console_log _) s h =
      not_named Variant.console_log "log_f64" _ (λ e. cc) refl h
  log_f64-gives_up value _ s h = refl

  log_i32-gives_up :
      (value : ℕ) (k : HostioKind) (s : Replay)
      → name N k ≡ "log_i32"
      → log_i32_body value k s ≡ none
  unfolding log_i32_body unreachable spelling variant_of
  log_i32-gives_up value (HostioKind.console_log _) s h =
      not_named Variant.console_log "log_i32" _ (λ e. cc) refl h
  log_i32-gives_up value _ s h = refl

  log_i64-gives_up :
      (value : ℕ) (k : HostioKind) (s : Replay)
      → name N k ≡ "log_i64"
      → log_i64_body value k s ≡ none
  unfolding log_i64_body unreachable spelling variant_of
  log_i64-gives_up value (HostioKind.console_log _) s h =
      not_named Variant.console_log "log_i64" _ (λ e. cc) refl h
  log_i64-gives_up value _ s h = refl

  log_txt-gives_up :
      (text_ptr len : ℕ) (k : HostioKind) (s : Replay)
      → name N k ≡ "log_txt"
      → log_txt_body text_ptr len k s ≡ none
  unfolding log_txt_body unreachable spelling variant_of
  log_txt-gives_up text_ptr len (HostioKind.console_log_text _) s h =
      not_named Variant.console_log_text "log_txt" _ (λ e. cc) refl h
  log_txt-gives_up text_ptr len _ s h = refl

  -- The call of a function of `is_mismatched`, which matches on another kind than the one of its
  -- name, never returns, whatever the trace.
  pub run-mismatched :
      (past_end : ℕ → Bytes) (c : Call) (s : Replay)
      → is_mismatched c ≡ true
      → run N past_end c s ≡ none
  unfolding run is_mismatched math_mul_mod log_f32 log_f64 log_i32 log_i64 log_txt
  run-mismatched past_end (Call.math_mul_mod value multiplier modulus) s h =
      as_reply_none _ (math_mul_mod N value multiplier modulus) s
        (never_returns "math_mul_mod" _ s (math_mul_mod-gives_up value multiplier modulus))
  run-mismatched past_end (Call.log_f32 value) s h =
      as_reply_none _ (log_f32 N value) s (never_returns "log_f32" _ s (log_f32-gives_up value))
  run-mismatched past_end (Call.log_f64 value) s h =
      as_reply_none _ (log_f64 N value) s (never_returns "log_f64" _ s (log_f64-gives_up value))
  run-mismatched past_end (Call.log_i32 value) s h =
      as_reply_none _ (log_i32 N value) s (never_returns "log_i32" _ s (log_i32-gives_up value))
  run-mismatched past_end (Call.log_i64 value) s h =
      as_reply_none _ (log_i64 N value) s (never_returns "log_i64" _ s (log_i64-gives_up value))
  run-mismatched past_end (Call.log_txt text_ptr len) s h =
      as_reply_none _ (log_txt N text_ptr len) s
        (never_returns "log_txt" _ s (log_txt-gives_up text_ptr len))
  run-mismatched past_end _ s h = cc
