-- ===== src/Tests/Projects.antt =====
-- A project of two files, and a bid for its contract.
use cargo_stylus.Common.{
  ◌≡◌, refl, Bool, true, false, Option, none, some, List, [], ◌∷◌, ◌++◌, arith,
}
use cargo_stylus.Common.Outcome.{Outcome, ok}
use cargo_stylus.Common.Bytes.{Bytes}
use mathlib.Core.List.{Permᴰ}
use cargo_stylus.Rpc.{Tx, Failure, ◌>>=◌, pure, lift, ask, query, send_transaction}
use cargo_stylus.Project.{PathBuf, OptLevel, preimage, read_file_preimage, read_all, hash_files}
use cargo_stylus.Project.Preimage.{files_of, hash_files-Permᴰ, read_all_injective}
use cargo_stylus.Cache.{
  accepted, cache_manager, CacheManagerError, CacheNode, CacheBidConfig, answer_of, last_manager,
  get_cache_manager_address, submit, place_bid,
}
use cargo_stylus.Cache.Bid.{place_bid-refused, place_bid-sent, IsBid}
use cargo_stylus.Tests.Deployments.{env, node, sender, arb_wasm, deployed_at}

-- ./Cargo.toml, ./lib.rs, ./rust-toolchain.toml
abbrev cargo_toml : PathBuf
cargo_toml = (46 ∷ []) ∷ (67 ∷ 97 ∷ []) ∷ []

abbrev lib_rs : PathBuf
lib_rs = (46 ∷ []) ∷ (108 ∷ 105 ∷ []) ∷ []

abbrev toolchain : PathBuf
toolchain = (46 ∷ []) ∷ (114 ∷ 117 ∷ []) ∷ []

abbrev read : PathBuf → Option Bytes
read p = some (1 ∷ 2 ∷ 3 ∷ [])

order_example :
    hash_files (λ b. b) read toolchain (49 ∷ []) OptLevel.s (ok (cargo_toml ∷ lib_rs ∷ []))
    ≡ hash_files (λ b. b) read toolchain (49 ∷ []) OptLevel.s (ok (lib_rs ∷ cargo_toml ∷ []))
order_example =
    hash_files-Permᴰ (λ b. b) read toolchain (49 ∷ []) OptLevel.s (cargo_toml ∷ lib_rs ∷ [])
      (lib_rs ∷ cargo_toml ∷ []) (Permᴰ.swap refl refl)

abbrev text : Bytes
text = preimage (46 ∷ 47 ∷ 67 ∷ 97 ∷ []) (1 ∷ 2 ∷ 3 ∷ []) ++ []

text-read : read_all read (cargo_toml ∷ []) ≡ ok text
unfolding read_all read_file_preimage
text-read = refl

injective_example : files_of read (cargo_toml ∷ []) ≡ files_of read (cargo_toml ∷ [])
injective_example =
    read_all_injective read read (cargo_toml ∷ []) (cargo_toml ∷ []) text
      ((omega arith, omega arith), tt) ((omega arith, omega arith), tt) text-read text-read

abbrev caches : Bool → CacheNode
caches accepts = record {
  cache_managers = λ sent. some (arb_wasm ∷ sender ∷ []);
  min_bid = λ sent m a. accepted 0;
  try_bid = λ sent m s a b. elim accepts [
    | true ↦ accepted tt
    | false ↦ cache_manager CacheManagerError.bid_too_small
  ];
  encode_place_bid = λ a. a;
}

abbrev bid : CacheBidConfig
bid = record { address = deployed_at; bid = 7; max_fee_per_gas_wei = ok none }

refused_example : (place_bid (caches false) env node bid []).1 ≡ []
refused_example = place_bid-refused (caches false) env node bid [] (λ before m s h. cc h)

abbrev bids : List Tx
bids =
    record {
      sender = sender;
      to = some sender;
      value = 7;
      input = deployed_at;
      gas = none;
      max_fee_per_gas = none;
      max_priority_fee_per_gas = none;
    }
    ∷ []

bid_sent :
    ◌≡◌ {A = Outcome Failure (Unit {0}) × List Tx}
      (place_bid (caches true) env node bid [])
      (ok tt, bids)
unfolding place_bid get_cache_manager_address last_manager answer_of submit send_transaction ask
    query lift pure ◌>>=◌
bid_sent = refl

bid_example :
    (manager from : Bytes) × (before : List Bytes) × ((caches true).cache_managers []
      ≡ some (before ++ manager ∷ []))
    × ((caches true).try_bid [] manager from bid.address bid.bid ≡ accepted tt)
    × IsBid (caches true) env node bid manager [] bids
bid_example = place_bid-sent (caches true) env node bid [] bids bid_sent
