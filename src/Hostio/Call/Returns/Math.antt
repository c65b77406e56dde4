-- ===== src/Hostio/Call/Returns/Math.antt =====
-- The bodies of Hostio/Math: they return where the guest's arguments are those of the trace.
use cargo_stylus.Common.{ℕ, ◌≡◌}
use cargo_stylus.Common.Bytes.{length-to_be_bytes}
use cargo_stylus.Trace.Kinds.{HostioKind, Variant, variant_of}
use cargo_stylus.Trace.Print.{FitsKind, args_of}
use cargo_stylus.Hostio.State.{Replay}
use cargo_stylus.Hostio.State.Returns.{Returns, returns_rules, length-load, split_fixed}
use cargo_stylus.Hostio.Math.{
  math_div_body, math_mod_body, math_pow_body, math_add_mod_body, native_keccak256_body,
}
use cargo_stylus.Hostio.Call.{Call, inputs}
use cargo_stylus.Hostio.Call.Returns.Range.{FitsCall}

pub math_div-Returns :
    (value divisor : ℕ) (k : HostioKind) (s : Replay)
    → variant_of k ≡ Variant.math_div
    → FitsKind k
    → FitsCall (Call.math_div value divisor)
    → inputs (Call.math_div value divisor) s.memory ≡ args_of k
    → Returns s (math_div_body value divisor k)
unfolding math_div_body inputs args_of variant_of
math_div-Returns value divisor (HostioKind.math_div _ _ _) s v f g h =
    let (e0, h0) =
      split_fixed 32 _ _ _ _ (length-load 32 value s.memory) (length-to_be_bytes 32 _) h in
    search returns_rules depth 20
math_div-Returns value divisor _ s v f g h = absurd (cc v)

pub math_mod-Returns :
    (value modulus : ℕ) (k : HostioKind) (s : Replay)
    → variant_of k ≡ Variant.math_mod
    → FitsKind k
    → FitsCall (Call.math_mod value modulus)
    → inputs (Call.math_mod value modulus) s.memory ≡ args_of k
    → Returns s (math_mod_body value modulus k)
unfolding math_mod_body inputs args_of variant_of
math_mod-Returns value modulus (HostioKind.math_mod _ _ _) s v f g h =
    let (e0, h0) =
      split_fixed 32 _ _ _ _ (length-load 32 value s.memory) (length-to_be_bytes 32 _) h in
    search returns_rules depth 20
math_mod-Returns value modulus _ s v f g h = absurd (cc v)

pub math_pow-Returns :
    (value exponent : ℕ) (k : HostioKind) (s : Replay)
    → variant_of k ≡ Variant.math_pow
    → FitsKind k
    → FitsCall (Call.math_pow value exponent)
    → inputs (Call.math_pow value exponent) s.memory ≡ args_of k
    → Returns s (math_pow_body value exponent k)
unfolding math_pow_body inputs args_of variant_of
math_pow-Returns value exponent (HostioKind.math_pow _ _ _) s v f g h =
    let (e0, h0) =
      split_fixed 32 _ _ _ _ (length-load 32 value s.memory) (length-to_be_bytes 32 _) h in
    search returns_rules depth 20
math_pow-Returns value exponent _ s v f g h = absurd (cc v)

pub math_add_mod-Returns :
    (value addend modulus : ℕ) (k : HostioKind) (s : Replay)
    → variant_of k ≡ Variant.math_add_mod
    → FitsKind k
    → FitsCall (Call.math_add_mod value addend modulus)
    → inputs (Call.math_add_mod value addend modulus) s.memory ≡ args_of k
    → Returns s (math_add_mod_body value addend modulus k)
unfolding math_add_mod_body inputs args_of variant_of
math_add_mod-Returns value addend modulus (HostioKind.math_add_mod _ _ _ _) s v f g h =
    let (e0, h0) =
      split_fixed 32 _ _ _ _ (length-load 32 value s.memory) (length-to_be_bytes 32 _) h in
    let (e1, h1) =
      split_fixed 32 _ _ _ _ (length-load 32 addend s.memory) (length-to_be_bytes 32 _) h0 in
    search returns_rules depth 20
math_add_mod-Returns value addend modulus _ s v f g h = absurd (cc v)

pub native_keccak256-Returns :
    (bytes_ptr len output : ℕ) (k : HostioKind) (s : Replay)
    → variant_of k ≡ Variant.native_keccak256
    → FitsKind k
    → FitsCall (Call.native_keccak256 bytes_ptr len output)
    → inputs (Call.native_keccak256 bytes_ptr len output) s.memory ≡ args_of k
    → Returns s (native_keccak256_body bytes_ptr len output k)
unfolding native_keccak256_body inputs args_of variant_of
native_keccak256-Returns bytes_ptr len output (HostioKind.native_keccak256 _ _) s v f g h =
    search returns_rules depth 20
native_keccak256-Returns bytes_ptr len output _ s v f g h = absurd (cc v)
