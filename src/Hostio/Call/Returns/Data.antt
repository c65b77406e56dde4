-- ===== src/Hostio/Call/Returns/Data.antt =====
-- The bodies of Hostio/Data: they return where the guest's arguments are those of the trace.
use cargo_stylus.Common.{ℕ, ◌≡◌}
use cargo_stylus.Trace.Kinds.{HostioKind, Variant, variant_of}
use cargo_stylus.Trace.Print.{FitsKind, args_of}
use cargo_stylus.Hostio.State.{Replay}
use cargo_stylus.Hostio.State.Returns.{Returns, returns_rules, length-load, split_fixed}
use cargo_stylus.Hostio.Data.{
  read_args_body, write_result_body, exit_early_body, storage_load_bytes32_body,
  storage_cache_bytes32_body, storage_flush_cache_body, transient_load_bytes32_body,
  transient_store_bytes32_body,
}
use cargo_stylus.Hostio.Call.{Call, inputs}
use cargo_stylus.Hostio.Call.Returns.Range.{FitsCall}

pub read_args-Returns :
    (dest : ℕ) (k : HostioKind) (s : Replay)
    → variant_of k ≡ Variant.read_args
    → FitsKind k
    → FitsCall (Call.read_args dest)
    → inputs (Call.read_args dest) s.memory ≡ args_of k
    → Returns s (read_args_body dest k)
unfolding read_args_body inputs args_of variant_of
read_args-Returns dest (HostioKind.read_args _) s v f g h = search returns_rules depth 20
read_args-Returns dest _ s v f g h = absurd (cc v)

pub write_result-Returns :
    (data_ptr len : ℕ) (k : HostioKind) (s : Replay)
    → variant_of k ≡ Variant.write_result
    → FitsKind k
    → FitsCall (Call.write_result data_ptr len)
    → inputs (Call.write_result data_ptr len) s.memory ≡ args_of k
    → Returns s (write_result_body data_ptr len k)
unfolding write_result_body inputs args_of variant_of
write_result-Returns data_ptr len (HostioKind.write_result _) s v f g h =
    search returns_rules depth 20
write_result-Returns data_ptr len _ s v f g h = absurd (cc v)

pub exit_early-Returns :
    (status : ℕ) (k : HostioKind) (s : Replay)
    → variant_of k ≡ Variant.exit_early
    → FitsKind k
    → FitsCall (Call.exit_early status)
    → inputs (Call.exit_early status) s.memory ≡ args_of k
    → Returns s (exit_early_body status k)
unfolding exit_early_body inputs args_of variant_of
exit_early-Returns status (HostioKind.exit_early _) s v f g h = search returns_rules depth 20
exit_early-Returns status _ s v f g h = absurd (cc v)

pub storage_load_bytes32-Returns :
    (key_ptr dest : ℕ) (k : HostioKind) (s : Replay)
    → variant_of k ≡ Variant.storage_load_bytes32
    → FitsKind k
    → FitsCall (Call.storage_load_bytes32 key_ptr dest)
    → inputs (Call.storage_load_bytes32 key_ptr dest) s.memory ≡ args_of k
    → Returns s (storage_load_bytes32_body key_ptr dest k)
unfolding storage_load_bytes32_body inputs args_of variant_of
storage_load_bytes32-Returns key_ptr dest (HostioKind.storage_load_bytes32 _ _) s v f g h =
    search returns_rules depth 20
storage_load_bytes32-Returns key_ptr dest _ s v f g h = absurd (cc v)

pub storage_cache_bytes32-Returns :
    (key_ptr value_ptr : ℕ) (k : HostioKind) (s : Replay)
    → variant_of k ≡ Variant.storage_cache_bytes32
    → FitsKind k
    → FitsCall (Call.storage_cache_bytes32 key_ptr value_ptr)
    → inputs (Call.storage_cache_bytes32 key_ptr value_ptr) s.memory ≡ args_of k
    → Returns s (storage_cache_bytes32_body key_ptr value_ptr k)
unfolding storage_cache_bytes32_body inputs args_of variant_of
storage_cache_bytes32-Returns key_ptr value_ptr (HostioKind.storage_cache_bytes32 _ _) s v f g h =
    let (e0, h0) = split_fixed 32 _ _ _ _ (length-load 32 key_ptr s.memory) f.0.0 h in
    search returns_rules depth 20
storage_cache_bytes32-Returns key_ptr value_ptr _ s v f g h = absurd (cc v)

pub storage_flush_cache-Returns :
    (clear : ℕ) (k : HostioKind) (s : Replay)
    → variant_of k ≡ Variant.storage_flush_cache
    → FitsKind k
    → FitsCall (Call.storage_flush_cache clear)
    → inputs (Call.storage_flush_cache clear) s.memory ≡ args_of k
    → Returns s (storage_flush_cache_body clear k)
unfolding storage_flush_cache_body inputs args_of variant_of
storage_flush_cache-Returns clear (HostioKind.storage_flush_cache _) s v f g h =
    search returns_rules depth 20
storage_flush_cache-Returns clear _ s v f g h = absurd (cc v)

pub transient_load_bytes32-Returns :
    (key_ptr dest : ℕ) (k : HostioKind) (s : Replay)
    → variant_of k ≡ Variant.transient_load_bytes32
    → FitsKind k
    → FitsCall (Call.transient_load_bytes32 key_ptr dest)
    → inputs (Call.transient_load_bytes32 key_ptr dest) s.memory ≡ args_of k
    → Returns s (transient_load_bytes32_body key_ptr dest k)
unfolding transient_load_bytes32_body inputs args_of variant_of
transient_load_bytes32-Returns key_ptr dest (HostioKind.transient_load_bytes32 _ _) s v f g h =
    search returns_rules depth 20
transient_load_bytes32-Returns key_ptr dest _ s v f g h = absurd (cc v)

pub transient_store_bytes32-Returns :
    (key_ptr value_ptr : ℕ) (k : HostioKind) (s : Replay)
    → variant_of k ≡ Variant.transient_store_bytes32
    → FitsKind k
    → FitsCall (Call.transient_store_bytes32 key_ptr value_ptr)
    → inputs (Call.transient_store_bytes32 key_ptr value_ptr) s.memory ≡ args_of k
    → Returns s (transient_store_bytes32_body key_ptr value_ptr k)
unfolding transient_store_bytes32_body inputs args_of variant_of
transient_store_bytes32-Returns key_ptr value_ptr (HostioKind.transient_store_bytes32 _ _) s v f g
      h =
    let (e0, h0) = split_fixed 32 _ _ _ _ (length-load 32 key_ptr s.memory) f.0.0 h in
    search returns_rules depth 20
transient_store_bytes32-Returns key_ptr value_ptr _ s v f g h = absurd (cc v)
