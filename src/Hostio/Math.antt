-- ===== src/Hostio/Math.antt =====
-- The host functions of main/src/hostio.rs for 256-bit arithmetic and keccak256.
use cargo_stylus.Common.{ℕ}
use cargo_stylus.Common.Bytes.{to_be_bytes}
use cargo_stylus.Trace.Kinds.{HostioKind}
use cargo_stylus.Trace.Names.{Names}
use cargo_stylus.Hostio.State.{
  Host, ◌>>=◌, ◌>>◌, unreachable, assert_eq_bytes, read_fixed, read_bytes, copy, frame,
}

-- What follows the call of `next_hostio`: the match on the kind, the comparisons and the copies.
unfoldable pub math_div_body : ℕ → ℕ → HostioKind → Host (Unit {0})
math_div_body value divisor (HostioKind.math_div a b result) = do
  given_a ← read_fixed 32 value
  assert_eq_bytes given_a (to_be_bytes 32 a)
  given_b ← read_fixed 32 divisor
  assert_eq_bytes given_b (to_be_bytes 32 b)
  copy (to_be_bytes 32 result) value
math_div_body _ _ _ = unreachable

unfoldable pub math_mod_body : ℕ → ℕ → HostioKind → Host (Unit {0})
math_mod_body value modulus (HostioKind.math_mod a b result) = do
  given_a ← read_fixed 32 value
  assert_eq_bytes given_a (to_be_bytes 32 a)
  given_b ← read_fixed 32 modulus
  assert_eq_bytes given_b (to_be_bytes 32 b)
  copy (to_be_bytes 32 result) value
math_mod_body _ _ _ = unreachable

unfoldable pub math_pow_body : ℕ → ℕ → HostioKind → Host (Unit {0})
math_pow_body value exponent (HostioKind.math_pow a b result) = do
  given_a ← read_fixed 32 value
  assert_eq_bytes given_a (to_be_bytes 32 a)
  given_b ← read_fixed 32 exponent
  assert_eq_bytes given_b (to_be_bytes 32 b)
  copy (to_be_bytes 32 result) value
math_pow_body _ _ _ = unreachable

unfoldable pub math_add_mod_body : ℕ → ℕ → ℕ → HostioKind → Host (Unit {0})
math_add_mod_body value addend modulus (HostioKind.math_add_mod a b c result) = do
  given_a ← read_fixed 32 value
  assert_eq_bytes given_a (to_be_bytes 32 a)
  given_b ← read_fixed 32 addend
  assert_eq_bytes given_b (to_be_bytes 32 b)
  given_c ← read_fixed 32 modulus
  assert_eq_bytes given_c (to_be_bytes 32 c)
  copy (to_be_bytes 32 result) value
math_add_mod_body _ _ _ _ = unreachable

-- The source matches on `MathAddMod` here.
unfoldable pub math_mul_mod_body : ℕ → ℕ → ℕ → HostioKind → Host (Unit {0})
math_mul_mod_body value multiplier modulus (HostioKind.math_add_mod a b c result) = do
  given_a ← read_fixed 32 value
  assert_eq_bytes given_a (to_be_bytes 32 a)
  given_b ← read_fixed 32 multiplier
  assert_eq_bytes given_b (to_be_bytes 32 b)
  given_c ← read_fixed 32 modulus
  assert_eq_bytes given_c (to_be_bytes 32 c)
  copy (to_be_bytes 32 result) value
math_mul_mod_body _ _ _ _ = unreachable

unfoldable pub native_keccak256_body : ℕ → ℕ → ℕ → HostioKind → Host (Unit {0})
native_keccak256_body bytes_ptr len output (HostioKind.native_keccak256 preimage digest) = do
  given ← read_bytes bytes_ptr len
  assert_eq_bytes given preimage
  copy digest output
native_keccak256_body _ _ _ _ = unreachable

module _ (N : Names) where
  unfoldable pub math_div : ℕ → ℕ → Host (Unit {0})
  unfolding math_div_body
  math_div value divisor = do kind ← frame N "math_div"; math_div_body value divisor kind

  unfoldable pub math_mod : ℕ → ℕ → Host (Unit {0})
  unfolding math_mod_body
  math_mod value modulus = do kind ← frame N "math_mod"; math_mod_body value modulus kind

  unfoldable pub math_pow : ℕ → ℕ → Host (Unit {0})
  unfolding math_pow_body
  math_pow value exponent = do kind ← frame N "math_pow"; math_pow_body value exponent kind

  unfoldable pub math_add_mod : ℕ → ℕ → ℕ → Host (Unit {0})
  unfolding math_add_mod_body
  math_add_mod value addend modulus = do
    kind ← frame N "math_add_mod"
    math_add_mod_body value addend modulus kind

  unfoldable pub math_mul_mod : ℕ → ℕ → ℕ → Host (Unit {0})
  unfolding math_mul_mod_body
  math_mul_mod value multiplier modulus = do
    kind ← frame N "math_mul_mod"
    math_mul_mod_body value multiplier modulus kind

  unfoldable pub native_keccak256 : ℕ → ℕ → ℕ → Host (Unit {0})
  unfolding native_keccak256_body
  native_keccak256 bytes_ptr len output = do
    kind ← frame N "native_keccak256"
    native_keccak256_body bytes_ptr len output kind
