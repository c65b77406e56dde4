-- ===== src/Check.antt =====
-- `cargo stylus check` (main/src/check.rs): whether a contract is active, or can be activated, and
-- the fee for it.
pub mod Fee
use cargo_stylus.Common.{
  ℕ, ◌+◌, ◌*◌, ◌/◌, ◌%◌, ◌^◌, String, Bool, true, false, Option, none, some, ltb, leb,
  if◌then◌else◌,
}
use cargo_stylus.Common.Text.{str_eq}
use cargo_stylus.Common.Outcome.{Outcome, ok, err}
use cargo_stylus.Common.Bytes.{Bytes}
use cargo_stylus.Rpc.{
  ArbWasmError, VersionAnswer, ActivateAnswer, Failure, Provider, Command, ◌>>=◌, ◌>>◌, pure, bail,
  lift, query,
}

pub data ContractCheck : Type 0 where
  active : (code : Bytes) → ContractCheck
  ready : (code : Bytes) → (fee : ℕ) → ContractCheck

abbrev pub code_of : ContractCheck → Bytes
code_of (active code) = code
code_of (ready code fee) = code

abbrev pub suggest_fee : ContractCheck → ℕ
suggest_fee (active code) = 0
suggest_fee (ready code fee) = fee

abbrev pub is_ready : ContractCheck → Bool
is_ready (active code) = false
is_ready (ready code fee) = true

-- The colours of main/src/util/color.rs that sizes and fees are printed in.
pub data Shade : Type 0 where
  red mint yellow pink : Shade

-- The colour of a file size, with limits in KiB.
unfoldable pub format_file_size : ℕ → ℕ → ℕ → Shade
format_file_size len mid max =
    if leb len (mid * 1024) then mint else if leb len (max * 1024) then yellow else pink

-- The colour of a data fee in wei. The fee in Gwei must fit a u64; as a fraction of an Ether it is
-- compared with 5e14 and 5e15, which is done here in Gwei. The comparison is one of f64 in the
-- code, whose rounding is far below the gap between any u64 and these limits.
unfoldable pub format_data_fee : ℕ → Shade
format_data_fee fee =
    let gwei = fee / 10 ^ 9 in
    if ltb gwei (2 ^ 64)
    then (if leb gwei (5 * 10 ^ 14 * 10 ^ 9)
        then mint
        else if leb gwei (5 * 10 ^ 15 * 10 ^ 9)
        then yellow
        else pink)
    else red

unfoldable pub exists_of : VersionAnswer → Outcome Failure Bool
exists_of (VersionAnswer.version v) = ok true
exists_of VersionAnswer.other_error = err Failure.not_transport
exists_of VersionAnswer.no_payload = err Failure.no_error_payload
exists_of VersionAnswer.not_decoded = err Failure.undecoded
exists_of (VersionAnswer.arb_wasm ArbWasmError.program_not_activated) = ok false
exists_of (VersionAnswer.arb_wasm ArbWasmError.program_needs_upgrade) = ok false
exists_of (VersionAnswer.arb_wasm ArbWasmError.program_expired) = ok false
exists_of (VersionAnswer.arb_wasm _) = err Failure.unexpected_arb_wasm

-- The fee with the bump added: the sum of the u64 and the product of the U256 wrap around.
unfoldable pub adjusted_data_fee : ℕ → ℕ → ℕ
adjusted_data_fee fee bump = fee * ((100 + bump) % 2 ^ 64) % 2 ^ 256 / 100

unfoldable pub fee_of : ℕ → ActivateAnswer → Outcome Failure ℕ
unfolding adjusted_data_fee
fee_of bump (ActivateAnswer.data_fee fee) = ok (adjusted_data_fee fee bump)
fee_of bump (ActivateAnswer.call_error true) = err Failure.missing_entrypoint
fee_of bump (ActivateAnswer.call_error false) = err Failure.activation_call_failed

-- What `check` uses of `CheckConfig`. `random_address` is the address that is drawn if none is
-- given.
pub record CheckConfig : Type 0 where
  pub endpoint : String
  pub contract_address : Option Bytes
  pub random_address : Bytes
  pub data_fee_bump_percent : ℕ

-- What `compress_wasm` gives for the wasm that is built or named, and `keccak256`.
module _ (P : Provider) (keccak256 : Bytes → Bytes) where
  unfoldable pub contract_exists : Bytes → Command Bool
  contract_exists codehash = do
    answer ← query (λ sent. P.codehash_version sent codehash)
    lift (exists_of answer)

  unfoldable pub check_activate : Bytes → Bytes → ℕ → Command ℕ
  check_activate code address bump = do
    answer ← query (λ sent. P.activate_call sent code address)
    lift (fee_of bump answer)

  address_of : CheckConfig → Bytes
  address_of cfg = elim cfg.contract_address [ none ↦ cfg.random_address | some a ↦ a ]

  check_code : CheckConfig → Bytes → Command ContractCheck
  unfolding contract_exists check_activate address_of
  check_code cfg code = do
    exists ← contract_exists (keccak256 code)
    if exists then pure (active code) else (do
      fee ← check_activate code (address_of cfg) cfg.data_fee_bump_percent
      pure (ready code fee))

  unfoldable pub check : CheckConfig → Outcome Failure Bytes → Command ContractCheck
  unfolding check_code
  check cfg compressed =
      if str_eq cfg.endpoint "https://stylus-testnet.arbitrum.io/rpc"
      then bail Failure.old_testnet
      else (do code ← lift compressed; check_code cfg code)
