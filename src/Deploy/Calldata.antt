-- ===== src/Deploy/Calldata.antt =====
-- The init code of a deployment (main/src/deploy/mod.rs), and what the verification takes it apart
-- to.
pub mod Evm
pub mod InitCode
use cargo_stylus.Common.{
  ℕ, ◌+◌, ◌%◌, ◌^◌, List, [], ◌∷◌, ◌++◌, length, take, drop, ltb, true, false, if◌then◌else◌,
}
use cargo_stylus.Common.Outcome.{Outcome, ok, panic}
use cargo_stylus.Common.Bytes.{Bytes, to_be_bytes}
use cargo_stylus.Rpc.{Failure}

-- `prelude + version`
abbrev pub metadata_length : ℕ
metadata_length = 42 + 1

-- A `usize` is below 2^64, so that `U256::from` keeps it.
unfoldable pub contract_deployment_calldata : Bytes → Bytes
contract_deployment_calldata code =
    0x7f
    ∷ (to_be_bytes 32 (length code)
        ++ (0x80 ∷ 0x60 ∷ 43 ∷ 0x60 ∷ 0 ∷ 0x39 ∷ 0x60 ∷ 0 ∷ 0xf3 ∷ 0 ∷ code))

-- `calldata[0..n]` and `calldata[n..]`, which panic on a shorter slice
unfoldable pub extract_contract_evm_deployment_prelude : Bytes → Outcome Failure Bytes
extract_contract_evm_deployment_prelude calldata =
    if ltb (length calldata) metadata_length then panic else ok (take metadata_length calldata)

unfoldable pub extract_compressed_wasm : Bytes → Outcome Failure Bytes
extract_compressed_wasm calldata =
    if ltb (length calldata) metadata_length then panic else ok (drop metadata_length calldata)
