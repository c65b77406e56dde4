-- ===== src/Trace/Cursor.antt =====
-- The macros of `TraceFrame::parse_frame` (main/src/trace.rs), as actions on the variables that
-- they share: the members of the step that are left, and the bytes of `args` and `outs` that are
-- left.
pub mod Total
pub mod Laws
use cargo_stylus.Common.{
  ℕ, zero, suc, ◌≤◌, String, ◌≡◌, refl, Bool, true, false, Option, none, some, List, [], ◌∷◌, ltb,
  ◌==◌, length, take, drop, if◌then◌else◌,
}
use cargo_stylus.Common.Outcome
use cargo_stylus.Common.Outcome.{Outcome, ok, err, panic, out_of_fuel}
use cargo_stylus.Common.Text.{strip_0x}
use cargo_stylus.Common.Bytes.{Bytes, IsBytes, from_be_bytes}
use cargo_stylus.Trace.Json.{Value, Members, remove}

pub data Src : Type 0 where
  args outs : Src

-- The messages of the `bail!` calls, and of the errors that `?` passes on.
pub data TraceError : Type 0 where
  not_an_array not_a_step : TraceError
  missing unexpected_type no_prefix bad_hex : String → TraceError
  short : Src → ℕ → ℕ → TraceError

-- The crate `hex` and `String::from_utf8_lossy`. Of the first the code relies on the documented
-- fact that `decode` undoes `encode`.
pub record Codec : Type 0 where
  pub encode : Bytes → String
  pub decode : String → Option Bytes
  pub from_utf8_lossy : Bytes → String
  pub decode-encode : (b : Bytes) → IsBytes b → decode (encode b) ≡ some b

pub record Cursor : Type 0 where
  pub keys : Members
  pub args_left : Bytes
  pub outs_left : Bytes

-- An action on the cursor that may fail.
abbrev pub Reading : Type 0 → Type 0
Reading A = Cursor → Outcome TraceError (A × Cursor)

infixl 5 ◌>>=◌ ◌>>◌
unfoldable pub ◌>>=◌ : {A B : Type 0} → Reading A → (A → Reading B) → Reading B
◌>>=◌ m f c = Outcome.◌>>=◌ (m c) (λ r. f r.0 r.1)

abbrev pub ◌>>◌ : {A B : Type 0} → Reading A → Reading B → Reading B
m >> k = m >>= λ _. k

unfoldable pub pure : {A : Type 0} → A → Reading A
pure a c = ok (a, c)

unfoldable pub lift : {A : Type 0} → Outcome TraceError A → Reading A
lift m c = Outcome.◌>>=◌ m (λ a. ok (a, c))

-- `keys.remove(name)`, with `None` left to the caller
unfoldable pub take_key : String → Reading (Option Value)
take_key name c = let r = remove name c.keys in ok (r.value, record c { keys = r.left })

-- `get_typed!(keys, String, name)`
as_string : String → Option Value → Outcome TraceError String
as_string name none = err (missing name)
as_string name (some (Value.string s)) = ok s
as_string name (some v) = err (unexpected_type name)

pub get_string : String → Reading String
unfolding ◌>>=◌ take_key as_string lift
get_string name = do v ← take_key name; lift (as_string name v)

-- `get_typed!(keys, Number, name).as_u64().unwrap()`
as_int : String → Option Value → Outcome TraceError ℕ
as_int name none = err (missing name)
as_int name (some (Value.number n)) = Outcome.unwrap n
as_int name (some v) = err (unexpected_type name)

pub get_int : String → Reading ℕ
unfolding ◌>>=◌ take_key as_int lift
get_int name = do v ← take_key name; lift (as_int name v)

from_hex : (String → Option Bytes) → String → String → Outcome TraceError Bytes
from_hex decode name text =
    Outcome.◌>>=◌ (Outcome.ok_or (no_prefix name) (strip_0x text))
      (λ digits. Outcome.ok_or (bad_hex name) (decode digits))

buffer : Src → Cursor → Bytes
buffer args c = c.args_left
buffer outs c = c.outs_left

refill : Src → Bytes → Cursor → Cursor
refill args b c = record c { args_left = b }
refill outs b c = record c { outs_left = b }

pub read_data : Src → Reading Bytes
unfolding buffer refill
read_data src c = ok (buffer src c, refill src [] c)

pub read_ty : {A : Type 0} → Src → ℕ → (Bytes → A) → Reading A
unfolding buffer refill
read_ty src size conv c =
    let data_left = buffer src c in
    if ltb (length data_left) size
    then err (short src size (length data_left))
    else ok (conv (take size data_left), refill src (drop size data_left) c)

-- `mem::size_of::<String>()` on a 64-bit host: a pointer, a capacity and a length
abbrev pub size_of_string : ℕ
size_of_string = 24

pub read_u256 : Src → Reading ℕ
unfolding read_ty
read_u256 src = read_ty src 32 from_be_bytes

pub read_b256 : Src → Reading Bytes
unfolding read_ty
read_b256 src = read_ty src 32 (λ b. b)

pub read_address : Src → Reading Bytes
unfolding read_ty
read_address src = read_ty src 20 (λ b. b)

pub read_num : Src → ℕ → Reading ℕ
unfolding read_ty
read_num src size = read_ty src size from_be_bytes

pub read_u8 : Src → Reading ℕ
unfolding read_num
read_u8 src = read_num src 1

pub read_u16 : Src → Reading ℕ
unfolding read_num
read_u16 src = read_num src 2

pub read_u32 : Src → Reading ℕ
unfolding read_num
read_u32 src = read_num src 4

pub read_u64 : Src → Reading ℕ
unfolding read_num
read_u64 src = read_num src 8

-- `Address::from_slice`, which panics unless it is given 20 bytes
pub address_from_slice : Bytes → Outcome TraceError Bytes
address_from_slice b = if length b == 20 then ok b else panic

module _ (H : Codec) where
  pub get_hex : String → Reading Bytes
  unfolding ◌>>=◌ get_string from_hex lift
  get_hex name = do text ← get_string name; lift (from_hex H.decode name text)

  pub read_string : Src → Reading String
  unfolding read_ty
  read_string src = read_ty src size_of_string H.from_utf8_lossy
