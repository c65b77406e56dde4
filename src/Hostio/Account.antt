-- ===== src/Hostio/Account.antt =====
-- The host functions of main/src/hostio.rs for accounts.
use cargo_stylus.Common.{ℕ, ◌%◌, ◌^◌, length}
use cargo_stylus.Common.Bytes.{Bytes, to_be_bytes}
use cargo_stylus.Trace.Kinds.{HostioKind}
use cargo_stylus.Trace.Names.{Names}
use cargo_stylus.Hostio.State.{
  Host, ◌>>=◌, ◌>>◌, return, unreachable, assert_eq, assert_eq_bytes, read_fixed, copy, copy_box,
  frame,
}

-- What follows the call of `next_hostio`: the match on the kind, the comparisons and the copies.
unfoldable pub account_balance_body : ℕ → ℕ → HostioKind → Host (Unit {0})
account_balance_body address_ptr dest (HostioKind.account_balance address balance) = do
  given ← read_fixed 20 address_ptr
  assert_eq_bytes given address
  copy (to_be_bytes 32 balance) dest
account_balance_body _ _ _ = unreachable

-- `copy!` is given the box, not its length.
unfoldable pub account_code_body : (ℕ → Bytes) → ℕ → ℕ → ℕ → ℕ → HostioKind → Host ℕ
account_code_body past_end address_ptr offset_recv size_recv dest
      (HostioKind.account_code address offset size code) =
    do
      assert_eq offset_recv offset
      assert_eq size_recv size
      given ← read_fixed 20 address_ptr
      assert_eq_bytes given address
      copy_box past_end code dest
      return (length code % 2 ^ 32)
account_code_body _ _ _ _ _ _ = unreachable

unfoldable pub account_code_size_body : ℕ → HostioKind → Host ℕ
account_code_size_body address_ptr (HostioKind.account_code_size address size) = do
  given ← read_fixed 20 address_ptr
  assert_eq_bytes given address
  return size
account_code_size_body _ _ = unreachable

unfoldable pub account_codehash_body : ℕ → ℕ → HostioKind → Host (Unit {0})
account_codehash_body address_ptr dest (HostioKind.account_codehash address codehash) = do
  given ← read_fixed 20 address_ptr
  assert_eq_bytes given address
  copy codehash dest
account_codehash_body _ _ _ = unreachable

module _ (N : Names) where
  unfoldable pub account_balance : ℕ → ℕ → Host (Unit {0})
  unfolding account_balance_body
  account_balance address_ptr dest = do
    kind ← frame N "account_balance"
    account_balance_body address_ptr dest kind

  unfoldable pub account_code : (ℕ → Bytes) → ℕ → ℕ → ℕ → ℕ → Host ℕ
  unfolding account_code_body
  account_code past_end address_ptr offset_recv size_recv dest = do
    kind ← frame N "account_code"
    account_code_body past_end address_ptr offset_recv size_recv dest kind

  unfoldable pub account_code_size : ℕ → Host ℕ
  unfolding account_code_size_body
  account_code_size address_ptr = do
    kind ← frame N "account_code_size"
    account_code_size_body address_ptr kind

  unfoldable pub account_codehash : ℕ → ℕ → Host (Unit {0})
  unfolding account_codehash_body
  account_codehash address_ptr dest = do
    kind ← frame N "account_codehash"
    account_codehash_body address_ptr dest kind
