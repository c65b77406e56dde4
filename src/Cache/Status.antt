-- ===== src/Cache/Status.antt =====
-- What the status of the cache is (`check_status`, main/src/cache.rs).
use cargo_stylus.Common.{Option, none, some}
use cargo_stylus.Common.Bytes.{Bytes}
use cargo_stylus.Rpc.{Provider}
use cargo_stylus.Rpc.Keeps.{Keeps, keeps_rules}
use cargo_stylus.Cache.{
  CacheNode, StatusNode, contract_status, check_status, get_cache_manager_address, suggest_bid,
}

module _ (N : CacheNode) where
  get_cache_manager_address-Keeps : Keeps (get_cache_manager_address N)
  unfolding get_cache_manager_address
  get_cache_manager_address-Keeps = search keeps_rules

  pub suggest_bid-Keeps : (address : Bytes) → Keeps (suggest_bid N address)
  unfolding suggest_bid
  suggest_bid-Keeps address = search (keeps_rules, get_cache_manager_address-Keeps)

  module _ (Q : StatusNode) (P : Provider) (keccak256 : Bytes → Bytes) where
    contract_status-Keeps :
        (address : Option Bytes) → Keeps (contract_status N Q P keccak256 address)
    unfolding contract_status
    contract_status-Keeps none = search keeps_rules
    contract_status-Keeps (some address) = search keeps_rules

    -- The commands that only ask, for the status and for the least bid, send nothing on any path.
    pub check_status-Keeps :
        (address : Option Bytes) (program : Bytes)
        → Keeps (check_status N Q P keccak256 address) × Keeps (suggest_bid N program)
    unfolding check_status
    check_status-Keeps address program = (
      search (keeps_rules, get_cache_manager_address-Keeps, contract_status-Keeps) depth 20,
      suggest_bid-Keeps program,
    )
