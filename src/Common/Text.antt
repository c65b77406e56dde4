-- ===== src/Common/Text.antt =====
-- Native strings: equality, `starts_with`, `strip_prefix`.
pub use text.Mathlib.Text.{◌==◌ as str_eq, starts_with}
pub use text.Mathlib.TextEquality.{eq_iff}
pub use text.Mathlib.TextPositions.{eq_refl}
use Prim.Native.Char.{code}
use Prim.Native.Nat.{ℕ}
use mathlib.Core.Path.{◌≡◌, refl}
use mathlib.Core.Logic.{◌≢◌}
use mathlib.Core.Bool.{Bool, true, false}
use Prim.Native.String.{String}
use mathlib.Core.Option.{Option, none, some}
use cargo_stylus.Common.Tests.{◌==◌, if◌then◌else◌}

-- `s.strip_prefix("0x")`
unfoldable pub strip_0x : String → Option String
strip_0x (String.◌∷◌ a (String.◌∷◌ b rest)) =
    if code a == b'0' then (if code b == b'x' then some rest else none) else none
strip_0x _ = none

-- `format!("0x{s}")`
abbrev pub add_0x : String → String
add_0x s = String.◌∷◌ "0" (String.◌∷◌ "x" s)

pub strip_0x-add_0x : (s : String) → strip_0x (add_0x s) ≡ some s
unfolding strip_0x
strip_0x-add_0x s = refl

-- Two strings that the test tells apart differ.
pub str_apart : (a b : String) → str_eq a b ≡ false → a ≢ b
str_apart a b h e = cc ((eq_iff a b).1 e, h)

-- `s.contains(t)`
unfoldable pub contains : String → String → Bool
contains String.[] t = str_eq t String.[]
contains (String.◌∷◌ c s) t =
    let later = contains s t in if starts_with (String.◌∷◌ c s) t then true else later

-- `s.ends_with(t)`
unfoldable pub ends_with : String → String → Bool
ends_with String.[] t = str_eq String.[] t
ends_with (String.◌∷◌ c s) t =
    let later = ends_with s t in if str_eq (String.◌∷◌ c s) t then true else later

-- `s.chars().filter(keep).collect()`, of code points
unfoldable pub filter_chars : (ℕ → Bool) → String → String
filter_chars keep String.[] = String.[]
filter_chars keep (String.◌∷◌ c s) =
    let rest = filter_chars keep s in if keep (code c) then String.◌∷◌ c rest else rest
