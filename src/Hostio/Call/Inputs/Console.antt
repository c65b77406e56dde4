-- ===== src/Hostio/Call/Inputs/Console.antt =====
-- The bodies of Hostio/Console: where they return, the guest's arguments are those of the trace.
use cargo_stylus.Common.{ℕ, ◌≡◌}
use cargo_stylus.Trace.Kinds.{HostioKind}
use cargo_stylus.Trace.Print.{args_of}
use cargo_stylus.Hostio.State.{Replay}
use cargo_stylus.Hostio.State.Ensures.{Ensures, Ensures-unreachable, ensures_rules}
use cargo_stylus.Hostio.Console.{log_txt_body}
use cargo_stylus.Hostio.Call.{Call, inputs}

pub log_txt-inputs :
    (text_ptr len : ℕ) (k : HostioKind) (s : Replay)
    → Ensures s
        (λ q. inputs (Call.log_txt text_ptr len) s.memory ≡ args_of k)
        (log_txt_body text_ptr len k)
unfolding log_txt_body inputs args_of
log_txt-inputs text_ptr len (HostioKind.console_log_text _) s = search ensures_rules depth 20
log_txt-inputs text_ptr len _ s = Ensures-unreachable s _
