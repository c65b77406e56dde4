-- ===== src/Hostio/Data.antt =====
-- The host functions of main/src/hostio.rs for call data, results and storage.
use cargo_stylus.Common.{ℕ}
use cargo_stylus.Trace.Kinds.{HostioKind}
use cargo_stylus.Trace.Names.{Names}
use cargo_stylus.Hostio.State.{
  Host, ◌>>=◌, ◌>>◌, return, unreachable, assert_eq_bytes, read_fixed, read_bytes, copy, frame,
}

-- What follows the call of `next_hostio`: the match on the kind, the comparisons and the copies.
unfoldable pub read_args_body : ℕ → HostioKind → Host (Unit {0})
read_args_body dest (HostioKind.read_args bytes) = do copy bytes dest
read_args_body _ _ = unreachable

unfoldable pub write_result_body : ℕ → ℕ → HostioKind → Host (Unit {0})
write_result_body data_ptr len (HostioKind.write_result result) = do
  given ← read_bytes data_ptr len
  assert_eq_bytes given result
write_result_body _ _ _ = unreachable

unfoldable pub exit_early_body : ℕ → HostioKind → Host (Unit {0})
exit_early_body status (HostioKind.exit_early _) = do return tt
exit_early_body _ _ = unreachable

unfoldable pub storage_load_bytes32_body : ℕ → ℕ → HostioKind → Host (Unit {0})
storage_load_bytes32_body key_ptr dest (HostioKind.storage_load_bytes32 key value) = do
  given ← read_fixed 32 key_ptr
  assert_eq_bytes given key
  copy value dest
storage_load_bytes32_body _ _ _ = unreachable

unfoldable pub storage_cache_bytes32_body : ℕ → ℕ → HostioKind → Host (Unit {0})
storage_cache_bytes32_body key_ptr value_ptr (HostioKind.storage_cache_bytes32 key value) = do
  given_key ← read_fixed 32 key_ptr
  assert_eq_bytes given_key key
  given_value ← read_fixed 32 value_ptr
  assert_eq_bytes given_value value
storage_cache_bytes32_body _ _ _ = unreachable

unfoldable pub storage_flush_cache_body : ℕ → HostioKind → Host (Unit {0})
storage_flush_cache_body clear (HostioKind.storage_flush_cache _) = do return tt
storage_flush_cache_body _ _ = unreachable

unfoldable pub transient_load_bytes32_body : ℕ → ℕ → HostioKind → Host (Unit {0})
transient_load_bytes32_body key_ptr dest (HostioKind.transient_load_bytes32 key value) = do
  given ← read_fixed 32 key_ptr
  assert_eq_bytes given key
  copy value dest
transient_load_bytes32_body _ _ _ = unreachable

unfoldable pub transient_store_bytes32_body : ℕ → ℕ → HostioKind → Host (Unit {0})
transient_store_bytes32_body key_ptr value_ptr (HostioKind.transient_store_bytes32 key value) = do
  given_key ← read_fixed 32 key_ptr
  assert_eq_bytes given_key key
  given_value ← read_fixed 32 value_ptr
  assert_eq_bytes given_value value
transient_store_bytes32_body _ _ _ = unreachable

module _ (N : Names) where
  unfoldable pub read_args : ℕ → Host (Unit {0})
  unfolding read_args_body
  read_args dest = do kind ← frame N "read_args"; read_args_body dest kind

  unfoldable pub write_result : ℕ → ℕ → Host (Unit {0})
  unfolding write_result_body
  write_result data_ptr len = do kind ← frame N "write_result"; write_result_body data_ptr len kind

  unfoldable pub exit_early : ℕ → Host (Unit {0})
  unfolding exit_early_body
  exit_early status = do kind ← frame N "exit_early"; exit_early_body status kind

  unfoldable pub storage_load_bytes32 : ℕ → ℕ → Host (Unit {0})
  unfolding storage_load_bytes32_body
  storage_load_bytes32 key_ptr dest = do
    kind ← frame N "storage_load_bytes32"
    storage_load_bytes32_body key_ptr dest kind

  unfoldable pub storage_cache_bytes32 : ℕ → ℕ → Host (Unit {0})
  unfolding storage_cache_bytes32_body
  storage_cache_bytes32 key_ptr value_ptr = do
    kind ← frame N "storage_cache_bytes32"
    storage_cache_bytes32_body key_ptr value_ptr kind

  unfoldable pub storage_flush_cache : ℕ → Host (Unit {0})
  unfolding storage_flush_cache_body
  storage_flush_cache clear = do
    kind ← frame N "storage_flush_cache"
    storage_flush_cache_body clear kind

  unfoldable pub transient_load_bytes32 : ℕ → ℕ → Host (Unit {0})
  unfolding transient_load_bytes32_body
  transient_load_bytes32 key_ptr dest = do
    kind ← frame N "transient_load_bytes32"
    transient_load_bytes32_body key_ptr dest kind

  unfoldable pub transient_store_bytes32 : ℕ → ℕ → Host (Unit {0})
  unfolding transient_store_bytes32_body
  transient_store_bytes32 key_ptr value_ptr = do
    kind ← frame N "transient_store_bytes32"
    transient_store_bytes32_body key_ptr value_ptr kind
