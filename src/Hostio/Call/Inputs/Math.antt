-- ===== src/Hostio/Call/Inputs/Math.antt =====
-- The bodies of Hostio/Math: where they return, the guest's arguments are those of the trace.
use cargo_stylus.Common.{ℕ, ◌≡◌}
use cargo_stylus.Trace.Kinds.{HostioKind}
use cargo_stylus.Trace.Print.{args_of}
use cargo_stylus.Hostio.State.{Replay}
use cargo_stylus.Hostio.State.Ensures.{Ensures, Ensures-unreachable, ensures_rules}
use cargo_stylus.Hostio.Math.{
  math_div_body, math_mod_body, math_pow_body, math_add_mod_body, math_mul_mod_body,
  native_keccak256_body,
}
use cargo_stylus.Hostio.Call.{Call, inputs}

pub math_div-inputs :
    (value divisor : ℕ) (k : HostioKind) (s : Replay)
    → Ensures s
        (λ q. inputs (Call.math_div value divisor) s.memory ≡ args_of k)
        (math_div_body value divisor k)
unfolding math_div_body inputs args_of
math_div-inputs value divisor (HostioKind.math_div _ _ _) s = search ensures_rules depth 20
math_div-inputs value divisor _ s = Ensures-unreachable s _

pub math_mod-inputs :
    (value modulus : ℕ) (k : HostioKind) (s : Replay)
    → Ensures s
        (λ q. inputs (Call.math_mod value modulus) s.memory ≡ args_of k)
        (math_mod_body value modulus k)
unfolding math_mod_body inputs args_of
math_mod-inputs value modulus (HostioKind.math_mod _ _ _) s = search ensures_rules depth 20
math_mod-inputs value modulus _ s = Ensures-unreachable s _

pub math_pow-inputs :
    (value exponent : ℕ) (k : HostioKind) (s : Replay)
    → Ensures s
        (λ q. inputs (Call.math_pow value exponent) s.memory ≡ args_of k)
        (math_pow_body value exponent k)
unfolding math_pow_body inputs args_of
math_pow-inputs value exponent (HostioKind.math_pow _ _ _) s = search ensures_rules depth 20
math_pow-inputs value exponent _ s = Ensures-unreachable s _

pub math_add_mod-inputs :
    (value addend modulus : ℕ) (k : HostioKind) (s : Replay)
    → Ensures s
        (λ q. inputs (Call.math_add_mod value addend modulus) s.memory ≡ args_of k)
        (math_add_mod_body value addend modulus k)
unfolding math_add_mod_body inputs args_of
math_add_mod-inputs value addend modulus (HostioKind.math_add_mod _ _ _ _) s =
    search ensures_rules depth 20
math_add_mod-inputs value addend modulus _ s = Ensures-unreachable s _

pub math_mul_mod-inputs :
    (value multiplier modulus : ℕ) (k : HostioKind) (s : Replay)
    → Ensures s
        (λ q. inputs (Call.math_mul_mod value multiplier modulus) s.memory ≡ args_of k)
        (math_mul_mod_body value multiplier modulus k)
unfolding math_mul_mod_body inputs args_of
math_mul_mod-inputs value multiplier modulus (HostioKind.math_add_mod _ _ _ _) s =
    search ensures_rules depth 20
math_mul_mod-inputs value multiplier modulus _ s = Ensures-unreachable s _

pub native_keccak256-inputs :
    (bytes_ptr len output : ℕ) (k : HostioKind) (s : Replay)
    → Ensures s
        (λ q. inputs (Call.native_keccak256 bytes_ptr len output) s.memory ≡ args_of k)
        (native_keccak256_body bytes_ptr len output k)
unfolding native_keccak256_body inputs args_of
native_keccak256-inputs bytes_ptr len output (HostioKind.native_keccak256 _ _) s =
    search ensures_rules depth 20
native_keccak256-inputs bytes_ptr len output _ s = Ensures-unreachable s _
