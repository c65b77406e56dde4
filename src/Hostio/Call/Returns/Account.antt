-- ===== src/Hostio/Call/Returns/Account.antt =====
-- The bodies of Hostio/Account: they return where the guest's arguments are those of the trace.
use cargo_stylus.Common.{ℕ, ◌≡◌}
use cargo_stylus.Common.Bytes.{Bytes, length-to_be_bytes}
use cargo_stylus.Trace.Kinds.{HostioKind, Variant, variant_of}
use cargo_stylus.Trace.Print.{FitsKind, args_of}
use cargo_stylus.Hostio.State.{Replay}
use cargo_stylus.Hostio.State.Returns.{
  Returns, returns_rules, length-load, split_fixed, to_be_bytes_injective,
}
use cargo_stylus.Hostio.Account.{
  account_balance_body, account_code_body, account_code_size_body, account_codehash_body,
}
use cargo_stylus.Hostio.Call.{Call, inputs}
use cargo_stylus.Hostio.Call.Returns.Range.{FitsCall}

pub account_balance-Returns :
    (address_ptr dest : ℕ) (k : HostioKind) (s : Replay)
    → variant_of k ≡ Variant.account_balance
    → FitsKind k
    → FitsCall (Call.account_balance address_ptr dest)
    → inputs (Call.account_balance address_ptr dest) s.memory ≡ args_of k
    → Returns s (account_balance_body address_ptr dest k)
unfolding account_balance_body inputs args_of variant_of
account_balance-Returns address_ptr dest (HostioKind.account_balance _ _) s v f g h =
    search returns_rules depth 20
account_balance-Returns address_ptr dest _ s v f g h = absurd (cc v)

pub account_code-Returns :
    (past_end : ℕ → Bytes) (address_ptr offset_recv size_recv dest : ℕ) (k : HostioKind)
    (s : Replay)
    → variant_of k ≡ Variant.account_code
    → FitsKind k
    → FitsCall (Call.account_code address_ptr offset_recv size_recv dest)
    → inputs (Call.account_code address_ptr offset_recv size_recv dest) s.memory ≡ args_of k
    → Returns s (account_code_body past_end address_ptr offset_recv size_recv dest k)
unfolding account_code_body inputs args_of variant_of
account_code-Returns past_end address_ptr offset_recv size_recv dest
      (HostioKind.account_code _ _ _ _) s v f g h =
    let (e0, h0) = split_fixed 20 _ _ _ _ (length-load 20 address_ptr s.memory) f.0.0 h in
    let (e1, h1) =
      split_fixed 4 _ _ _ _ (length-to_be_bytes 4 offset_recv) (length-to_be_bytes 4 _) h0 in
    let n1 = to_be_bytes_injective 4 offset_recv _ g.0 f.1 e1 in
    let n2 = to_be_bytes_injective 4 size_recv _ g.1 f.2 h1 in search returns_rules depth 20
account_code-Returns past_end address_ptr offset_recv size_recv dest _ s v f g h = absurd (cc v)

pub account_code_size-Returns :
    (address_ptr : ℕ) (k : HostioKind) (s : Replay)
    → variant_of k ≡ Variant.account_code_size
    → FitsKind k
    → FitsCall (Call.account_code_size address_ptr)
    → inputs (Call.account_code_size address_ptr) s.memory ≡ args_of k
    → Returns s (account_code_size_body address_ptr k)
unfolding account_code_size_body inputs args_of variant_of
account_code_size-Returns address_ptr (HostioKind.account_code_size _ _) s v f g h =
    search returns_rules depth 20
account_code_size-Returns address_ptr _ s v f g h = absurd (cc v)

pub account_codehash-Returns :
    (address_ptr dest : ℕ) (k : HostioKind) (s : Replay)
    → variant_of k ≡ Variant.account_codehash
    → FitsKind k
    → FitsCall (Call.account_codehash address_ptr dest)
    → inputs (Call.account_codehash address_ptr dest) s.memory ≡ args_of k
    → Returns s (account_codehash_body address_ptr dest k)
unfolding account_codehash_body inputs args_of variant_of
account_codehash-Returns address_ptr dest (HostioKind.account_codehash _ _) s v f g h =
    search returns_rules depth 20
account_codehash-Returns address_ptr dest _ s v f g h = absurd (cc v)
