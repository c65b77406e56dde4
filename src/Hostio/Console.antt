-- ===== src/Hostio/Console.antt =====
-- The host functions of main/src/hostio.rs for the console.
use cargo_stylus.Common.{ℕ}
use cargo_stylus.Trace.Kinds.{HostioKind}
use cargo_stylus.Trace.Names.{Names}
use cargo_stylus.Hostio.State.{
  Host, ◌>>=◌, unreachable, assert_eq_bytes, read_bytes, println, frame,
}

-- What follows the call of `next_hostio`: the match on the kind, the comparisons and the copies.
unfoldable pub log_f32_body : ℕ → HostioKind → Host (Unit {0})
log_f32_body value (HostioKind.console_log text) = do println text
log_f32_body _ _ = unreachable

unfoldable pub log_f64_body : ℕ → HostioKind → Host (Unit {0})
log_f64_body value (HostioKind.console_log text) = do println text
log_f64_body _ _ = unreachable

unfoldable pub log_i32_body : ℕ → HostioKind → Host (Unit {0})
log_i32_body value (HostioKind.console_log text) = do println text
log_i32_body _ _ = unreachable

unfoldable pub log_i64_body : ℕ → HostioKind → Host (Unit {0})
log_i64_body value (HostioKind.console_log text) = do println text
log_i64_body _ _ = unreachable

unfoldable pub log_txt_body : ℕ → ℕ → HostioKind → Host (Unit {0})
log_txt_body text_ptr len (HostioKind.console_log_text text) = do
  given ← read_bytes text_ptr len
  assert_eq_bytes given text
log_txt_body _ _ _ = unreachable

module _ (N : Names) where
  unfoldable pub log_f32 : ℕ → Host (Unit {0})
  unfolding log_f32_body
  log_f32 value = do kind ← frame N "log_f32"; log_f32_body value kind

  unfoldable pub log_f64 : ℕ → Host (Unit {0})
  unfolding log_f64_body
  log_f64 value = do kind ← frame N "log_f64"; log_f64_body value kind

  unfoldable pub log_i32 : ℕ → Host (Unit {0})
  unfolding log_i32_body
  log_i32 value = do kind ← frame N "log_i32"; log_i32_body value kind

  unfoldable pub log_i64 : ℕ → Host (Unit {0})
  unfolding log_i64_body
  log_i64 value = do kind ← frame N "log_i64"; log_i64_body value kind

  unfoldable pub log_txt : ℕ → ℕ → Host (Unit {0})
  unfolding log_txt_body
  log_txt text_ptr len = do kind ← frame N "log_txt"; log_txt_body text_ptr len kind
