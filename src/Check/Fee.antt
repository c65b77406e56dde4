-- ===== src/Check/Fee.antt =====
-- What a check costs and sends.
use cargo_stylus.Common.{ℕ, ◌+◌, ◌*◌, ◌/◌, ◌^◌, ◌<◌, ◌≡◌, ◌≢◌, arith}
use native.Mathlib.Nat.{mod-eq_of_lt, mul-add, mul-add-div_right}
use cargo_stylus.Common.Outcome.{Outcome}
use cargo_stylus.Common.Bytes.{Bytes}
use cargo_stylus.Rpc.{Failure, Provider}
use cargo_stylus.Rpc.Keeps.{Keeps, keeps_rules}
use cargo_stylus.Check.{
  CheckConfig, yellow, pink, format_data_fee, adjusted_data_fee, contract_exists, check_activate,
  check_code, check,
}

-- As long as nothing wraps around, the bumped fee is at least the node's fee, and exceeds it by the
-- given percentage, rounded down.
pub adjusted_data_fee_lem :
    (fee bump : ℕ)
    → 100 + bump < 2 ^ 64
    → fee * (100 + bump) < 2 ^ 256
    → adjusted_data_fee fee bump ≡ fee + fee * bump / 100
unfolding adjusted_data_fee
adjusted_data_fee_lem fee bump h k =
    rw (mod-eq_of_lt h, mod-eq_of_lt k, mul-add fee 100 bump)
      (mul-add-div_right (omega arith) fee (fee * bump))

-- No data fee is printed in yellow or pink.
pub format_data_fee-calm : (fee : ℕ) → (format_data_fee fee ≢ yellow) × (format_data_fee fee ≢ pink)
unfolding format_data_fee
format_data_fee-calm fee = (λ h. ground arith, λ h. ground arith)

pub check-Keeps :
    (P : Provider) (keccak256 : Bytes → Bytes) (cfg : CheckConfig)
    (compressed : Outcome Failure Bytes)
    → Keeps (check P keccak256 cfg compressed)
unfolding check check_code contract_exists check_activate
check-Keeps P keccak256 cfg compressed = search keeps_rules depth 20
