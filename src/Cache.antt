-- ===== src/Cache.antt =====
-- `cargo stylus cache` (main/src/cache.rs): bids for a place in the cache of a chain.
pub mod Bid
pub mod Status
use cargo_stylus.Common.{
  ℕ, ◌*◌, Bool, true, false, Option, none, some, List, [], ◌∷◌, ltb, leb, if◌then◌else◌,
}
use cargo_stylus.Common.Outcome
use cargo_stylus.Common.Outcome.{Outcome, ok, err}
use cargo_stylus.Common.Bytes.{Bytes}
use cargo_stylus.Check.{Shade, mint, yellow, pink}
use cargo_stylus.Rpc.{
  Tx, Failure, rpc, Provider, Command, ◌>>=◌, ◌>>◌, pure, lift, ask, query, send_transaction,
}
use cargo_stylus.Deploy.Config.{Env}
use cargo_stylus.Deploy.Transactions.{request}

-- The errors that the interface `CacheManager` declares
pub data CacheManagerError : Type 0 where
  asm_too_large already_cached bids_are_paused bid_too_small program_not_activated :
      CacheManagerError

-- A call of the cache manager: its result, or an error at one of the steps of decoding it
pub data BidAnswer (A : Type 0) : Type 0 where
  accepted : A → BidAnswer A
  other_error no_payload not_decoded : BidAnswer A
  cache_manager : CacheManagerError → BidAnswer A

-- What is asked of the contracts `ArbWasmCache` and `CacheManager`
pub record CacheNode : Type 0 where
  pub cache_managers : List Tx → Option (List Bytes)
  -- of a manager: the least bid for a program, and the trial of a bid from a sender
  pub min_bid : List Tx → Bytes → Bytes → BidAnswer ℕ
  pub try_bid : List Tx → Bytes → Bytes → Bytes → ℕ → BidAnswer (Unit {0})
  pub encode_place_bid : Bytes → Bytes

pub record CacheBidConfig : Type 0 where
  pub address : Bytes
  pub bid : ℕ
  -- the outcome of `get_max_fee_per_gas_wei`
  pub max_fee_per_gas_wei : Outcome Failure (Option ℕ)

-- The colour of an amount of gas, here and in main/src/deploy/mod.rs
unfoldable pub format_gas : ℕ → Shade
format_gas gas = if leb gas 3000000 then mint else if leb gas 7000000 then yellow else pink

unfoldable pub handle_cache_manager_error : CacheManagerError → Failure
handle_cache_manager_error CacheManagerError.asm_too_large = Failure.asm_too_large
handle_cache_manager_error CacheManagerError.already_cached = Failure.already_cached
handle_cache_manager_error CacheManagerError.bids_are_paused = Failure.bids_paused
handle_cache_manager_error CacheManagerError.bid_too_small = Failure.bid_too_small
handle_cache_manager_error CacheManagerError.program_not_activated = Failure.bid_not_activated

unfoldable pub answer_of : {A : Type 0} → BidAnswer A → Outcome Failure A
unfolding handle_cache_manager_error
answer_of (accepted a) = ok a
answer_of other_error = err Failure.not_transport
answer_of no_payload = err Failure.no_error_payload
answer_of not_decoded = err Failure.undecoded
answer_of (cache_manager e) = err (handle_cache_manager_error e)

-- `managers.last()`, after the test that there is one
unfoldable pub last_manager : List Bytes → Outcome Failure Bytes
last_manager [] = err Failure.no_cache_managers
last_manager (manager ∷ []) = ok manager
last_manager (_ ∷ manager ∷ managers) = last_manager (manager ∷ managers)

-- The bid; the fees are set only if one is given.
abbrev pub with_fee : Tx → Option ℕ → Tx
with_fee tx none = tx
with_fee tx (some fee) = record tx { max_fee_per_gas = some fee; max_priority_fee_per_gas = some 0 }

module _ (N : CacheNode) where
  unfoldable pub get_cache_manager_address : Command Bytes
  unfolding last_manager
  get_cache_manager_address = do
    managers ← ask (rpc "allCacheManagers") N.cache_managers
    lift (last_manager managers)

  -- The result is printed.
  unfoldable pub suggest_bid : Bytes → Command ℕ
  unfolding get_cache_manager_address answer_of
  suggest_bid address = do
    manager ← get_cache_manager_address
    answer ← query (λ sent. N.min_bid sent manager address)
    lift (answer_of answer)

  module _ (E : Env) (P : Provider) where
    -- The end of the command, once the trial went well
    unfoldable pub submit : CacheBidConfig → Bytes → Bytes → Option ℕ → Command (Unit {0})
    submit cfg manager sender fee = do
      send_transaction P
          (with_fee (request sender (some manager) cfg.bid (N.encode_place_bid cfg.address)) fee)
      receipt ← ask Failure.not_completed P.receipt
      pure tt

    unfoldable pub place_bid : CacheBidConfig → Command (Unit {0})
    unfolding get_cache_manager_address answer_of submit
    place_bid cfg = do
      chain_id ← ask (rpc "get_chain_id") P.chain_id
      sender ← lift (Outcome.ok_or Failure.no_wallet (E.wallet chain_id))
      manager ← get_cache_manager_address
      fee ← lift cfg.max_fee_per_gas_wei
      answer ← query (λ sent. N.try_bid sent manager sender cfg.address cfg.bid)
      fine ← lift (answer_of answer)
      submit cfg manager sender fee

-- What `check_status` asks the cache manager, at its address: the sizes are u64, and the least
-- bids are those for a size.
pub record StatusNode : Type 0 where
  pub is_paused : List Tx → Bytes → Option Bool
  pub queue_size : List Tx → Bytes → Option ℕ
  pub cache_size : List Tx → Bytes → Option ℕ
  pub min_bid_of_size : List Tx → Bytes → ℕ → Option ℕ
  pub codehash_is_cached : List Tx → Bytes → Option Bool

-- What is printed: the bids are those for contracts of 8, 16 and 24 kB.
pub record CacheStatus : Type 0 where
  pub manager : Bytes
  pub paused : Bool
  pub cache_bytes : ℕ
  pub queue_bytes : ℕ
  pub min_bid_smol : ℕ
  pub min_bid_med : ℕ
  pub min_bid_big : ℕ
  pub has_room : Bool
  pub is_cached : Option Bool

-- `ByteSize::kb`
abbrev pub kb : ℕ → ℕ
kb size = size * 1000

module _ (N : CacheNode) (Q : StatusNode) (P : Provider) (keccak256 : Bytes → Bytes) where
  unfoldable pub contract_status : Option Bytes → Command (Option Bool)
  contract_status none = pure none
  contract_status (some address) = do
    code ← ask (rpc "get_code_at") (λ sent. P.code_at sent address)
    is_cached ← ask (rpc "codehashIsCached") (λ sent. Q.codehash_is_cached sent (keccak256 code))
    pure (some is_cached)

  unfoldable pub check_status : Option Bytes → Command CacheStatus
  unfolding get_cache_manager_address contract_status
  check_status address = do
    manager ← get_cache_manager_address N
    is_paused ← ask (rpc "isPaused") (λ sent. Q.is_paused sent manager)
    queue_size ← ask (rpc "queueSize") (λ sent. Q.queue_size sent manager)
    cache_size ← ask (rpc "cacheSize") (λ sent. Q.cache_size sent manager)
    min_bid_smol ← ask (rpc "getMinBid") (λ sent. Q.min_bid_of_size sent manager (kb 8))
    min_bid_med ← ask (rpc "getMinBid") (λ sent. Q.min_bid_of_size sent manager (kb 16))
    min_bid_big ← ask (rpc "getMinBid") (λ sent. Q.min_bid_of_size sent manager (kb 24))
    is_cached ← contract_status address
    pure (record {
      manager = manager;
      paused = is_paused;
      cache_bytes = cache_size;
      queue_bytes = queue_size;
      min_bid_smol = min_bid_smol;
      min_bid_med = min_bid_med;
      min_bid_big = min_bid_big;
      has_room = ltb queue_size cache_size;
      is_cached = is_cached;
    })
