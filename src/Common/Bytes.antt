-- ===== src/Common/Bytes.antt =====
-- Byte strings as lists of numbers below 256, and the big-endian integers that Rust's
-- `to_be_bytes` and `from_be_bytes` convert.
use cargo_stylus.Common.Tests.{◌==◌, Bool-cases}
use cargo_stylus.Common.Lists.{length, All, All-append, length-append, snoc_of_length}
use Prim.Native.Nat.{ℕ, zero, suc, ◌+◌, ◌*◌, ◌/◌, ◌%◌, ◌^◌, ◌<◌}
use mathlib.Core.Path.{◌≡◌, refl, sym, ap, ◌∙◌}
use mathlib.Core.Logic.{◌↔◌, ◌≢◌, inl, inr}
use mathlib.Core.Bool.{Bool, true, false, ◌&&◌}
use mathlib.Core.List.{List, [], ◌∷◌, ◌++◌, foldl, foldl-append}
use native.Mathlib.Omega.{arith}
use native.Mathlib.Nat.{pow-suc}

abbrev pub Bytes : Type 0
Bytes = List ℕ

-- A number that fits a byte, and a string of such.
abbrev pub IsByte : ℕ → Type 0
IsByte b = b < 256

abbrev pub IsBytes : Bytes → Type 0
IsBytes = All IsByte

-- A byte array of `n` bytes
abbrev pub IsFixed : ℕ → Bytes → Type 0
IsFixed n b = (length b ≡ n) × IsBytes b

-- `v.to_be_bytes()` for an integer of `w` bytes
unfoldable pub to_be_bytes : ℕ → ℕ → Bytes
to_be_bytes zero v = []
to_be_bytes (suc w) v = to_be_bytes w (v / 256) ++ (v % 256) ∷ []

-- `from_be_bytes`, at any width
unfoldable pub from_be_bytes : Bytes → ℕ
from_be_bytes = foldl (λ acc b. acc * 256 + b) 0

-- The values of a `w`-byte integer, as a bound that the tactics can divide.
abbrev pub Fits : ℕ → ℕ → Type 0
Fits zero v = v ≡ 0
Fits (suc w) v = Fits w (v / 256)

pub length-to_be_bytes : (w v : ℕ) → length (to_be_bytes w v) ≡ w
unfolding to_be_bytes
length-to_be_bytes zero v = refl
length-to_be_bytes (suc w) v = omega (
  arith,
  length-append (to_be_bytes w (v / 256)) ((v % 256) ∷ []),
  length-to_be_bytes w (v / 256),
)

pub IsBytes-append : (xs ys : Bytes) → IsBytes xs → IsBytes ys → IsBytes (xs ++ ys)
IsBytes-append [] ys h k = k
IsBytes-append (x ∷ xs) ys h k = (h.0, IsBytes-append xs ys h.1 k)

pub IsBytes-to_be_bytes : (w v : ℕ) → IsBytes (to_be_bytes w v)
unfolding to_be_bytes
IsBytes-to_be_bytes zero v = tt
IsBytes-to_be_bytes (suc w) v =
    IsBytes-append (to_be_bytes w (v / 256)) _ (IsBytes-to_be_bytes w (v / 256)) (omega arith)

pub from_be_bytes-snoc :
    (xs : Bytes) (b : ℕ) → from_be_bytes (xs ++ b ∷ []) ≡ from_be_bytes xs * 256 + b
unfolding from_be_bytes
from_be_bytes-snoc xs b = rw foldl-append

pub from_be_bytes-to_be_bytes : (w v : ℕ) → Fits w v → from_be_bytes (to_be_bytes w v) ≡ v
unfolding to_be_bytes
from_be_bytes-to_be_bytes zero v h = unfold from_be_bytes in sym h
from_be_bytes-to_be_bytes (suc w) v h =
    rw (from_be_bytes-snoc, from_be_bytes-to_be_bytes w (v / 256) h) (omega arith)

pub to_be_bytes-from_be_bytes :
    (w : ℕ) (xs : Bytes) → length xs ≡ w → IsBytes xs → to_be_bytes w (from_be_bytes xs) ≡ xs
unfolding to_be_bytes
to_be_bytes-from_be_bytes zero [] e h = refl
to_be_bytes-from_be_bytes zero (x ∷ xs) e h = absurd (omega arith)
to_be_bytes-from_be_bytes (suc w) xs e h =
    let (ys, y, split, l) = snoc_of_length w xs e in
    let (hys, hy) = All-append IsByte ys (y ∷ []) (rw split at h) in
    let value : from_be_bytes xs ≡ from_be_bytes ys * 256 + y =
      ap from_be_bytes split ∙ from_be_bytes-snoc ys y in
    let high : from_be_bytes xs / 256 ≡ from_be_bytes ys = omega (arith, hy.0) in
    let low : from_be_bytes xs % 256 ≡ y = omega (arith, hy.0) in
    rw (high, low, to_be_bytes-from_be_bytes w ys l hys) (sym split)

pub Fits-of_lt : (w v : ℕ) → v < 256 ^ w → Fits w v
Fits-of_lt zero v h = omega arith
Fits-of_lt (suc w) v h = Fits-of_lt w (v / 256) (omega (arith, pow-suc 256 w))

-- `==` on byte strings
unfoldable pub bytes_eq : Bytes → Bytes → Bool
bytes_eq [] [] = true
bytes_eq (x ∷ xs) (y ∷ ys) = x == y && bytes_eq xs ys
bytes_eq _ _ = false

pub bytes_eq_iff : (xs ys : Bytes) → (bytes_eq xs ys ≡ true) ↔ (xs ≡ ys)
unfolding bytes_eq
bytes_eq_iff [] [] = (λ h. refl, λ h. refl)
bytes_eq_iff [] (y ∷ ys) = (λ h. cc, λ h. cc)
bytes_eq_iff (x ∷ xs) [] = (λ h. cc, λ h. cc)
bytes_eq_iff (x ∷ xs) (y ∷ ys) = ground (arith, bytes_eq_iff xs ys)

pub bytes_eq_refl : (xs : Bytes) → bytes_eq xs xs ≡ true
bytes_eq_refl xs = (bytes_eq_iff xs xs).1 refl

pub bytes_eq_apart : (a b : Bytes) → a ≢ b → bytes_eq a b ≡ false
bytes_eq_apart a b ne = elim (Bool-cases (bytes_eq a b)) [
  | inl same ↦ absurd (ne ((bytes_eq_iff a b).0 same))
  | inr other ↦ other
]
