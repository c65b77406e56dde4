-- ===== src/Trace/Cursor/Laws.antt =====
-- Reading back what was written: each action takes its bytes off the front and leaves the rest.
use cargo_stylus.Common.{
  ℕ, String, none, some, ◌≡◌, refl, [], ◌++◌, arith, le→ltb, length, take-append, drop-append,
  length-append,
}
use mathlib.Core.List.{append-nil}
use cargo_stylus.Common.Outcome.{ok, err}
use cargo_stylus.Common.Bytes.{
  Bytes, IsBytes, IsFixed, to_be_bytes, from_be_bytes, Fits, length-to_be_bytes,
  from_be_bytes-to_be_bytes,
}
use cargo_stylus.Common.Text.{add_0x, strip_0x-add_0x}
use cargo_stylus.Trace.Json.{Value, Members, remove}
use cargo_stylus.Trace.Cursor.{
  args, outs, missing, Cursor, Codec, take_key, get_string, get_int, get_hex, from_hex,
  address_from_slice, read_ty, read_data, read_u256, read_b256, read_address, read_u8, read_u16,
  read_u32, read_u64,
}

abbrev pub at : Members → Bytes → Bytes → Cursor
at keys a o = record { keys = keys; args_left = a; outs_left = o }

module _ (keys : Members) where
  read_ty-append_args :
      {A : Type 0} (size : ℕ) (conv : Bytes → A) (b rest o : Bytes)
      → length b ≡ size
      → read_ty args size conv (at keys (b ++ rest) o) ≡ ok (conv b, at keys rest o)
  unfolding read_ty
  read_ty-append_args size conv b rest o h = rw (
    le→ltb (length (b ++ rest)) size (omega (arith, length-append b rest)),
    take-append size b rest h,
    drop-append size b rest h,
  )

  read_ty-append_outs :
      {A : Type 0} (size : ℕ) (conv : Bytes → A) (b rest a : Bytes)
      → length b ≡ size
      → read_ty outs size conv (at keys a (b ++ rest)) ≡ ok (conv b, at keys a rest)
  unfolding read_ty
  read_ty-append_outs size conv b rest a h = rw (
    le→ltb (length (b ++ rest)) size (omega (arith, length-append b rest)),
    take-append size b rest h,
    drop-append size b rest h,
  )

  pub read_u256-append_args :
      (v : ℕ) (rest o : Bytes)
      → Fits 32 v
      → read_u256 args (at keys (to_be_bytes 32 v ++ rest) o) ≡ ok (v, at keys rest o)
  unfolding read_u256
  read_u256-append_args v rest o h =
      rw (read_ty-append_args 32 from_be_bytes (to_be_bytes 32 v) rest o (length-to_be_bytes 32 v))
        (rw (from_be_bytes-to_be_bytes 32 v h))

  pub read_u256_args :
      (v : ℕ) (o : Bytes)
      → Fits 32 v
      → read_u256 args (at keys (to_be_bytes 32 v) o) ≡ ok (v, at keys [] o)
  read_u256_args v o h = rw append-nil at (read_u256-append_args v [] o h)

  pub read_u256-append_outs :
      (v : ℕ) (rest o : Bytes)
      → Fits 32 v
      → read_u256 outs (at keys o (to_be_bytes 32 v ++ rest)) ≡ ok (v, at keys o rest)
  unfolding read_u256
  read_u256-append_outs v rest o h =
      rw (read_ty-append_outs 32 from_be_bytes (to_be_bytes 32 v) rest o (length-to_be_bytes 32 v))
        (rw (from_be_bytes-to_be_bytes 32 v h))

  pub read_u256_outs :
      (v : ℕ) (o : Bytes)
      → Fits 32 v
      → read_u256 outs (at keys o (to_be_bytes 32 v)) ≡ ok (v, at keys o [])
  read_u256_outs v o h = rw append-nil at (read_u256-append_outs v [] o h)

  pub read_u8-append_args :
      (v : ℕ) (rest o : Bytes)
      → Fits 1 v
      → read_u8 args (at keys (to_be_bytes 1 v ++ rest) o) ≡ ok (v, at keys rest o)
  unfolding read_u8
  read_u8-append_args v rest o h =
      rw (read_ty-append_args 1 from_be_bytes (to_be_bytes 1 v) rest o (length-to_be_bytes 1 v))
        (rw (from_be_bytes-to_be_bytes 1 v h))

  pub read_u8_args :
      (v : ℕ) (o : Bytes)
      → Fits 1 v
      → read_u8 args (at keys (to_be_bytes 1 v) o) ≡ ok (v, at keys [] o)
  read_u8_args v o h = rw append-nil at (read_u8-append_args v [] o h)

  pub read_u8-append_outs :
      (v : ℕ) (rest o : Bytes)
      → Fits 1 v
      → read_u8 outs (at keys o (to_be_bytes 1 v ++ rest)) ≡ ok (v, at keys o rest)
  unfolding read_u8
  read_u8-append_outs v rest o h =
      rw (read_ty-append_outs 1 from_be_bytes (to_be_bytes 1 v) rest o (length-to_be_bytes 1 v))
        (rw (from_be_bytes-to_be_bytes 1 v h))

  pub read_u8_outs :
      (v : ℕ) (o : Bytes)
      → Fits 1 v
      → read_u8 outs (at keys o (to_be_bytes 1 v)) ≡ ok (v, at keys o [])
  read_u8_outs v o h = rw append-nil at (read_u8-append_outs v [] o h)

  pub read_u16-append_args :
      (v : ℕ) (rest o : Bytes)
      → Fits 2 v
      → read_u16 args (at keys (to_be_bytes 2 v ++ rest) o) ≡ ok (v, at keys rest o)
  unfolding read_u16
  read_u16-append_args v rest o h =
      rw (read_ty-append_args 2 from_be_bytes (to_be_bytes 2 v) rest o (length-to_be_bytes 2 v))
        (rw (from_be_bytes-to_be_bytes 2 v h))

  pub read_u16_args :
      (v : ℕ) (o : Bytes)
      → Fits 2 v
      → read_u16 args (at keys (to_be_bytes 2 v) o) ≡ ok (v, at keys [] o)
  read_u16_args v o h = rw append-nil at (read_u16-append_args v [] o h)

  pub read_u16-append_outs :
      (v : ℕ) (rest o : Bytes)
      → Fits 2 v
      → read_u16 outs (at keys o (to_be_bytes 2 v ++ rest)) ≡ ok (v, at keys o rest)
  unfolding read_u16
  read_u16-append_outs v rest o h =
      rw (read_ty-append_outs 2 from_be_bytes (to_be_bytes 2 v) rest o (length-to_be_bytes 2 v))
        (rw (from_be_bytes-to_be_bytes 2 v h))

  pub read_u16_outs :
      (v : ℕ) (o : Bytes)
      → Fits 2 v
      → read_u16 outs (at keys o (to_be_bytes 2 v)) ≡ ok (v, at keys o [])
  read_u16_outs v o h = rw append-nil at (read_u16-append_outs v [] o h)

  pub read_u32-append_args :
      (v : ℕ) (rest o : Bytes)
      → Fits 4 v
      → read_u32 args (at keys (to_be_bytes 4 v ++ rest) o) ≡ ok (v, at keys rest o)
  unfolding read_u32
  read_u32-append_args v rest o h =
      rw (read_ty-append_args 4 from_be_bytes (to_be_bytes 4 v) rest o (length-to_be_bytes 4 v))
        (rw (from_be_bytes-to_be_bytes 4 v h))

  pub read_u32_args :
      (v : ℕ) (o : Bytes)
      → Fits 4 v
      → read_u32 args (at keys (to_be_bytes 4 v) o) ≡ ok (v, at keys [] o)
  read_u32_args v o h = rw append-nil at (read_u32-append_args v [] o h)

  pub read_u32-append_outs :
      (v : ℕ) (rest o : Bytes)
      → Fits 4 v
      → read_u32 outs (at keys o (to_be_bytes 4 v ++ rest)) ≡ ok (v, at keys o rest)
  unfolding read_u32
  read_u32-append_outs v rest o h =
      rw (read_ty-append_outs 4 from_be_bytes (to_be_bytes 4 v) rest o (length-to_be_bytes 4 v))
        (rw (from_be_bytes-to_be_bytes 4 v h))

  pub read_u32_outs :
      (v : ℕ) (o : Bytes)
      → Fits 4 v
      → read_u32 outs (at keys o (to_be_bytes 4 v)) ≡ ok (v, at keys o [])
  read_u32_outs v o h = rw append-nil at (read_u32-append_outs v [] o h)

  pub read_u64-append_args :
      (v : ℕ) (rest o : Bytes)
      → Fits 8 v
      → read_u64 args (at keys (to_be_bytes 8 v ++ rest) o) ≡ ok (v, at keys rest o)
  unfolding read_u64
  read_u64-append_args v rest o h =
      rw (read_ty-append_args 8 from_be_bytes (to_be_bytes 8 v) rest o (length-to_be_bytes 8 v))
        (rw (from_be_bytes-to_be_bytes 8 v h))

  pub read_u64_args :
      (v : ℕ) (o : Bytes)
      → Fits 8 v
      → read_u64 args (at keys (to_be_bytes 8 v) o) ≡ ok (v, at keys [] o)
  read_u64_args v o h = rw append-nil at (read_u64-append_args v [] o h)

  pub read_u64-append_outs :
      (v : ℕ) (rest o : Bytes)
      → Fits 8 v
      → read_u64 outs (at keys o (to_be_bytes 8 v ++ rest)) ≡ ok (v, at keys o rest)
  unfolding read_u64
  read_u64-append_outs v rest o h =
      rw (read_ty-append_outs 8 from_be_bytes (to_be_bytes 8 v) rest o (length-to_be_bytes 8 v))
        (rw (from_be_bytes-to_be_bytes 8 v h))

  pub read_u64_outs :
      (v : ℕ) (o : Bytes)
      → Fits 8 v
      → read_u64 outs (at keys o (to_be_bytes 8 v)) ≡ ok (v, at keys o [])
  read_u64_outs v o h = rw append-nil at (read_u64-append_outs v [] o h)

  pub read_b256-append_args :
      (b rest o : Bytes)
      → IsFixed 32 b
      → read_b256 args (at keys (b ++ rest) o) ≡ ok (b, at keys rest o)
  unfolding read_b256
  read_b256-append_args b rest o h = read_ty-append_args 32 (λ x. x) b rest o h.0

  pub read_b256_args :
      (b o : Bytes) → IsFixed 32 b → read_b256 args (at keys (b) o) ≡ ok (b, at keys [] o)
  read_b256_args b o h = rw append-nil at (read_b256-append_args b [] o h)

  pub read_b256-append_outs :
      (b rest o : Bytes)
      → IsFixed 32 b
      → read_b256 outs (at keys o (b ++ rest)) ≡ ok (b, at keys o rest)
  unfolding read_b256
  read_b256-append_outs b rest o h = read_ty-append_outs 32 (λ x. x) b rest o h.0

  pub read_b256_outs :
      (b o : Bytes) → IsFixed 32 b → read_b256 outs (at keys o (b)) ≡ ok (b, at keys o [])
  read_b256_outs b o h = rw append-nil at (read_b256-append_outs b [] o h)

  pub read_address-append_args :
      (b rest o : Bytes)
      → IsFixed 20 b
      → read_address args (at keys (b ++ rest) o) ≡ ok (b, at keys rest o)
  unfolding read_address
  read_address-append_args b rest o h = read_ty-append_args 20 (λ x. x) b rest o h.0

  pub read_address_args :
      (b o : Bytes) → IsFixed 20 b → read_address args (at keys (b) o) ≡ ok (b, at keys [] o)
  read_address_args b o h = rw append-nil at (read_address-append_args b [] o h)

  pub read_address-append_outs :
      (b rest o : Bytes)
      → IsFixed 20 b
      → read_address outs (at keys o (b ++ rest)) ≡ ok (b, at keys o rest)
  unfolding read_address
  read_address-append_outs b rest o h = read_ty-append_outs 20 (λ x. x) b rest o h.0

  pub read_address_outs :
      (b o : Bytes) → IsFixed 20 b → read_address outs (at keys o (b)) ≡ ok (b, at keys o [])
  read_address_outs b o h = rw append-nil at (read_address-append_outs b [] o h)

  pub read_data_args : (b o : Bytes) → read_data args (at keys b o) ≡ ok (b, at keys [] o)
  unfolding read_data
  read_data_args b o = refl

  pub read_data_outs : (b a : Bytes) → read_data outs (at keys a b) ≡ ok (b, at keys a [])
  unfolding read_data
  read_data_outs b a = refl

pub ruleset read_laws = (
  read_u256-append_args, read_u256_args, read_u256-append_outs, read_u256_outs, read_u8-append_args,
  read_u8_args, read_u8-append_outs, read_u8_outs, read_u16-append_args, read_u16_args,
  read_u16-append_outs, read_u16_outs, read_u32-append_args, read_u32_args, read_u32-append_outs,
  read_u32_outs, read_u64-append_args, read_u64_args, read_u64-append_outs, read_u64_outs,
  read_b256-append_args, read_b256_args, read_b256-append_outs, read_b256_outs,
  read_address-append_args, read_address_args, read_address-append_outs, read_address_outs,
  read_data_args, read_data_outs,
)

-- Members that are there are read, and taken out.
module _ (name : String) (keys : Members) (a o : Bytes) {v : Value}
    (found : (remove name keys).value ≡ some v) where
  pub take_key_lem : take_key name (at keys a o) ≡ ok (some v, at (remove name keys).left a o)
  unfolding take_key
  take_key_lem = rw found

pub get_string_lem :
    (name : String) (keys : Members) (a o : Bytes) (text : String)
    → (remove name keys).value ≡ some (Value.string text)
    → get_string name (at keys a o) ≡ ok (text, at (remove name keys).left a o)
unfolding get_string
get_string_lem name keys a o text found = rw found

pub get_int_lem :
    (name : String) (keys : Members) (a o : Bytes) (n : ℕ)
    → (remove name keys).value ≡ some (Value.number (some n))
    → get_int name (at keys a o) ≡ ok (n, at (remove name keys).left a o)
unfolding get_int
get_int_lem name keys a o n found = rw found

pub get_hex_lem :
    (H : Codec) (name : String) (keys : Members) (a o b : Bytes)
    → (remove name keys).value ≡ some (Value.string (add_0x (H.encode b)))
    → IsBytes b
    → get_hex H name (at keys a o) ≡ ok (b, at (remove name keys).left a o)
unfolding get_hex from_hex
get_hex_lem H name keys a o b found h =
    rw (get_string_lem name keys a o (add_0x (H.encode b)) found)
      (rw (strip_0x-add_0x (H.encode b)) (rw (H.decode-encode b h)))

pub get_hex_missing :
    (H : Codec) (name : String) (keys : Members) (a o : Bytes)
    → (remove name keys).value ≡ none
    → get_hex H name (at keys a o) ≡ err (missing name)
unfolding get_hex get_string
get_hex_missing H name keys a o lacks = rw lacks

pub address_from_slice_lem : (b : Bytes) → length b ≡ 20 → address_from_slice b ≡ ok b
unfolding address_from_slice
address_from_slice_lem b h = rw h
