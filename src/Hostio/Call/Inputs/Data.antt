-- ===== src/Hostio/Call/Inputs/Data.antt =====
-- The bodies of Hostio/Data: where they return, the guest's arguments are those of the trace.
use cargo_stylus.Common.{ℕ, ◌≡◌}
use cargo_stylus.Trace.Kinds.{HostioKind}
use cargo_stylus.Trace.Print.{args_of}
use cargo_stylus.Hostio.State.{Replay}
use cargo_stylus.Hostio.State.Ensures.{Ensures, Ensures-unreachable, ensures_rules}
use cargo_stylus.Hostio.Data.{
  read_args_body, write_result_body, storage_load_bytes32_body, storage_cache_bytes32_body,
  transient_load_bytes32_body, transient_store_bytes32_body,
}
use cargo_stylus.Hostio.Call.{Call, inputs}

pub read_args-inputs :
    (dest : ℕ) (k : HostioKind) (s : Replay)
    → Ensures s (λ q. inputs (Call.read_args dest) s.memory ≡ args_of k) (read_args_body dest k)
unfolding read_args_body inputs args_of
read_args-inputs dest (HostioKind.read_args _) s = search ensures_rules depth 20
read_args-inputs dest _ s = Ensures-unreachable s _

pub write_result-inputs :
    (data_ptr len : ℕ) (k : HostioKind) (s : Replay)
    → Ensures s
        (λ q. inputs (Call.write_result data_ptr len) s.memory ≡ args_of k)
        (write_result_body data_ptr len k)
unfolding write_result_body inputs args_of
write_result-inputs data_ptr len (HostioKind.write_result _) s = search ensures_rules depth 20
write_result-inputs data_ptr len _ s = Ensures-unreachable s _

pub storage_load_bytes32-inputs :
    (key_ptr dest : ℕ) (k : HostioKind) (s : Replay)
    → Ensures s
        (λ q. inputs (Call.storage_load_bytes32 key_ptr dest) s.memory ≡ args_of k)
        (storage_load_bytes32_body key_ptr dest k)
unfolding storage_load_bytes32_body inputs args_of
storage_load_bytes32-inputs key_ptr dest (HostioKind.storage_load_bytes32 _ _) s =
    search ensures_rules depth 20
storage_load_bytes32-inputs key_ptr dest _ s = Ensures-unreachable s _

pub storage_cache_bytes32-inputs :
    (key_ptr value_ptr : ℕ) (k : HostioKind) (s : Replay)
    → Ensures s
        (λ q. inputs (Call.storage_cache_bytes32 key_ptr value_ptr) s.memory ≡ args_of k)
        (storage_cache_bytes32_body key_ptr value_ptr k)
unfolding storage_cache_bytes32_body inputs args_of
storage_cache_bytes32-inputs key_ptr value_ptr (HostioKind.storage_cache_bytes32 _ _) s =
    search ensures_rules depth 20
storage_cache_bytes32-inputs key_ptr value_ptr _ s = Ensures-unreachable s _

pub transient_load_bytes32-inputs :
    (key_ptr dest : ℕ) (k : HostioKind) (s : Replay)
    → Ensures s
        (λ q. inputs (Call.transient_load_bytes32 key_ptr dest) s.memory ≡ args_of k)
        (transient_load_bytes32_body key_ptr dest k)
unfolding transient_load_bytes32_body inputs args_of
transient_load_bytes32-inputs key_ptr dest (HostioKind.transient_load_bytes32 _ _) s =
    search ensures_rules depth 20
transient_load_bytes32-inputs key_ptr dest _ s = Ensures-unreachable s _

pub transient_store_bytes32-inputs :
    (key_ptr value_ptr : ℕ) (k : HostioKind) (s : Replay)
    → Ensures s
        (λ q. inputs (Call.transient_store_bytes32 key_ptr value_ptr) s.memory ≡ args_of k)
        (transient_store_bytes32_body key_ptr value_ptr k)
unfolding transient_store_bytes32_body inputs args_of
transient_store_bytes32-inputs key_ptr value_ptr (HostioKind.transient_store_bytes32 _ _) s =
    search ensures_rules depth 20
transient_store_bytes32-inputs key_ptr value_ptr _ s = Ensures-unreachable s _
