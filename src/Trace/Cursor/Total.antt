-- ===== src/Trace/Cursor/Total.antt =====
-- Actions that end, whatever they read, and leave members that nest no deeper than before.
use cargo_stylus.Common.{ℕ, ◌≤◌, String, ◌≡◌, ◌≢◌, refl, Option, none, some, arith}
use cargo_stylus.Common.Outcome
use cargo_stylus.Common.Outcome.{Outcome, ok, err, panic, out_of_fuel}
use cargo_stylus.Common.Bytes.{Bytes, from_be_bytes}
use cargo_stylus.Trace.Json.{Value, remove, depth, depth_members, depth-remove, depth-remove_value}
use cargo_stylus.Trace.Cursor.{
  Src, args, outs, TraceError, Codec, Cursor, Reading, ◌>>=◌, pure, lift, take_key, as_string,
  as_int, from_hex, get_string, get_int, get_hex, read_ty, read_data, read_u256, read_b256,
  read_address, read_u8, read_u16, read_u32, read_u64, read_string, size_of_string,
  address_from_slice,
}

as_string-ends : (name : String) (v : Option Value) → as_string name v ≢ out_of_fuel
unfolding as_string
as_string-ends name none h = cc
as_string-ends name (some (Value.string s)) h = cc
as_string-ends name (some _) h = cc

as_int-ends : (name : String) (v : Option Value) → as_int name v ≢ out_of_fuel
unfolding as_int
as_int-ends name none h = cc
as_int-ends name (some (Value.number none)) h = cc
as_int-ends name (some (Value.number (some n))) h = cc
as_int-ends name (some _) h = cc

from_hex-ends :
    (decode : String → Option Bytes) (name text : String) → from_hex decode name text ≢ out_of_fuel
unfolding from_hex
from_hex-ends decode name text h = ground arith

pub address_from_slice-ends : (b : Bytes) → address_from_slice b ≢ out_of_fuel
unfolding address_from_slice
address_from_slice-ends b h = ground arith

-- An outcome that is not out of fuel, and leaves members no deeper than `n`.
abbrev pub Ends : {A : Type 0} → ℕ → Outcome TraceError (A × Cursor) → Type 0
Ends n (ok r) = depth_members (r.1).keys ≤ n
Ends n (err e) = Unit
Ends n panic = Unit
Ends n out_of_fuel = ⊥

pub record Total {A : Type 0} (n : ℕ) (m : Reading A) : Type 0 where
  pub at : (c : Cursor) → depth_members c.keys ≤ n → Ends n (m c)

module _ (n : ℕ) where
  pub Total-pure : {A : Type 0} (a : A) → Total n (pure a)
  unfolding pure
  Total-pure a = record { at = λ c h. h }

  Ends-bind :
      {A B : Type 0} (r : Outcome TraceError (A × Cursor)) (f : A → Reading B)
      → Ends n r
      → ((a : A) → Total n (f a))
      → Ends n (Outcome.◌>>=◌ r (λ q. f q.0 q.1))
  Ends-bind (ok q) f e tf = (tf q.0).at q.1 e
  Ends-bind (err x) f e tf = tt
  Ends-bind panic f e tf = tt
  Ends-bind out_of_fuel f e tf = e

  pub Total-bind :
      {A B : Type 0} (m : Reading A) (f : A → Reading B)
      → Total n m
      → ((a : A) → Total n (f a))
      → Total n (m >>= f)
  unfolding ◌>>=◌
  Total-bind m f tm tf = record { at = λ c h. Ends-bind (m c) f (tm.at c h) tf }

  pub Total-lift : {A : Type 0} (m : Outcome TraceError A) → m ≢ out_of_fuel → Total n (lift m)
  unfolding lift
  Total-lift (ok a) h = record { at = λ c k. k }
  Total-lift (err e) h = record { at = λ c k. tt }
  Total-lift panic h = record { at = λ c k. tt }
  Total-lift out_of_fuel h = absurd (h refl)

  pub Total-take_key : (key : String) → Total n (take_key key)
  unfolding take_key
  Total-take_key key = record { at = λ c h. omega (arith, depth-remove key c.keys) }

  pub Total-read_data : (src : Src) → Total n (read_data src)
  unfolding read_data
  Total-read_data args = record { at = λ c h. h }
  Total-read_data outs = record { at = λ c h. h }

  pub Total-read_ty :
      {A : Type 0} (src : Src) (size : ℕ) (conv : Bytes → A) → Total n (read_ty src size conv)
  unfolding read_ty
  Total-read_ty args size conv = record { at = λ c h. ground arith }
  Total-read_ty outs size conv = record { at = λ c h. ground arith }

  pub Total-get_string : (name : String) → Total n (get_string name)
  unfolding get_string
  Total-get_string name =
      Total-bind (take_key name) _ (Total-take_key name)
        (λ v. Total-lift (as_string name v) (as_string-ends name v))

  pub Total-get_int : (name : String) → Total n (get_int name)
  unfolding get_int
  Total-get_int name =
      Total-bind (take_key name) _ (Total-take_key name)
        (λ v. Total-lift (as_int name v) (as_int-ends name v))

  pub Total-get_hex : (H : Codec) (name : String) → Total n (get_hex H name)
  unfolding get_hex
  Total-get_hex H name =
      Total-bind (get_string name) _ (Total-get_string name)
        (λ t. Total-lift (from_hex H.decode name t) (from_hex-ends H.decode name t))

  pub Total-read_u256 : (src : Src) → Total n (read_u256 src)
  unfolding read_u256
  Total-read_u256 src = Total-read_ty src 32 from_be_bytes

  pub Total-read_b256 : (src : Src) → Total n (read_b256 src)
  unfolding read_b256
  Total-read_b256 src = Total-read_ty src 32 (λ b. b)

  pub Total-read_address : (src : Src) → Total n (read_address src)
  unfolding read_address
  Total-read_address src = Total-read_ty src 20 (λ b. b)

  pub Total-read_u8 : (src : Src) → Total n (read_u8 src)
  unfolding read_u8
  Total-read_u8 src = Total-read_ty src 1 from_be_bytes

  pub Total-read_u16 : (src : Src) → Total n (read_u16 src)
  unfolding read_u16
  Total-read_u16 src = Total-read_ty src 2 from_be_bytes

  pub Total-read_u32 : (src : Src) → Total n (read_u32 src)
  unfolding read_u32
  Total-read_u32 src = Total-read_ty src 4 from_be_bytes

  pub Total-read_u64 : (src : Src) → Total n (read_u64 src)
  unfolding read_u64
  Total-read_u64 src = Total-read_ty src 8 from_be_bytes

  pub Total-read_string : (H : Codec) (src : Src) → Total n (read_string H src)
  unfolding read_string
  Total-read_string H src = Total-read_ty src size_of_string H.from_utf8_lossy

-- Taking a member out and passing it to an action that ends on values no deeper than `n`.
module _ {A : Type 0} (n : ℕ) (f : Value → Outcome TraceError A)
    (f-ends : (v : Value) → depth v ≤ n → f v ≢ out_of_fuel) where
  Ends-member :
      (c : Cursor) (found : Option Value)
      → depth_members c.keys ≤ n
      → ((v : Value) → found ≡ some v → depth v ≤ n)
      → Ends n ((lift (Outcome.unwrap found) >>= λ v. lift (f v)) c)
  unfolding ◌>>=◌ lift
  Ends-member c none h k = tt
  Ends-member c (some v) h k = (Total-lift n (f v) (f-ends v (k v refl))).at c h

  pub Total-member :
      (key : String)
      → Total n (take_key key >>= λ found. lift (Outcome.unwrap found) >>= λ v. lift (f v))
  unfolding ◌>>=◌ take_key
  Total-member key = record {
    at = λ c h.
        let r = remove key c.keys in
        let left : depth_members r.left ≤ n = omega (arith, depth-remove key c.keys) in
        Ends-member (record c { keys = r.left }) r.value left
          (λ v e. omega (arith, depth-remove_value key c.keys v e));
  }

pub ruleset total_rules = (
  Total-pure, Total-bind, Total-read_data, Total-read_u256, Total-read_b256, Total-read_address,
  Total-read_u8, Total-read_u16, Total-read_u32, Total-read_u64, Total-read_string,
  Total-get_string, Total-get_int, Total-get_hex,
)
