-- ===== src/Hostio/Call/Inputs/Account.antt =====
-- The bodies of Hostio/Account: where they return, the guest's arguments are those of the trace.
use cargo_stylus.Common.{ℕ, ◌≡◌}
use cargo_stylus.Common.Bytes.{Bytes}
use cargo_stylus.Trace.Kinds.{HostioKind}
use cargo_stylus.Trace.Print.{args_of}
use cargo_stylus.Hostio.State.{Replay}
use cargo_stylus.Hostio.State.Ensures.{Ensures, Ensures-unreachable, ensures_rules}
use cargo_stylus.Hostio.Account.{
  account_balance_body, account_code_body, account_code_size_body, account_codehash_body,
}
use cargo_stylus.Hostio.Call.{Call, inputs}

pub account_balance-inputs :
    (address_ptr dest : ℕ) (k : HostioKind) (s : Replay)
    → Ensures s
        (λ q. inputs (Call.account_balance address_ptr dest) s.memory ≡ args_of k)
        (account_balance_body address_ptr dest k)
unfolding account_balance_body inputs args_of
account_balance-inputs address_ptr dest (HostioKind.account_balance _ _) s =
    search ensures_rules depth 20
account_balance-inputs address_ptr dest _ s = Ensures-unreachable s _

pub account_code-inputs :
    (past_end : ℕ → Bytes) (address_ptr offset_recv size_recv dest : ℕ) (k : HostioKind)
    (s : Replay)
    → Ensures s
        (λ q.
          inputs (Call.account_code address_ptr offset_recv size_recv dest) s.memory ≡ args_of k)
        (account_code_body past_end address_ptr offset_recv size_recv dest k)
unfolding account_code_body inputs args_of
account_code-inputs past_end address_ptr offset_recv size_recv dest
      (HostioKind.account_code _ _ _ _) s =
    search ensures_rules depth 20
account_code-inputs past_end address_ptr offset_recv size_recv dest _ s = Ensures-unreachable s _

pub account_code_size-inputs :
    (address_ptr : ℕ) (k : HostioKind) (s : Replay)
    → Ensures s
        (λ q. inputs (Call.account_code_size address_ptr) s.memory ≡ args_of k)
        (account_code_size_body address_ptr k)
unfolding account_code_size_body inputs args_of
account_code_size-inputs address_ptr (HostioKind.account_code_size _ _) s =
    search ensures_rules depth 20
account_code_size-inputs address_ptr _ s = Ensures-unreachable s _

pub account_codehash-inputs :
    (address_ptr dest : ℕ) (k : HostioKind) (s : Replay)
    → Ensures s
        (λ q. inputs (Call.account_codehash address_ptr dest) s.memory ≡ args_of k)
        (account_codehash_body address_ptr dest k)
unfolding account_codehash_body inputs args_of
account_codehash-inputs address_ptr dest (HostioKind.account_codehash _ _) s =
    search ensures_rules depth 20
account_codehash-inputs address_ptr dest _ s = Ensures-unreachable s _
