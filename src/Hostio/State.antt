-- ===== src/Hostio/State.antt =====
-- The state that the host functions of main/src/hostio.rs share, and their helpers. The globals
-- FRAME, START_INK and END_INK are fields; the guest's memory, which the functions reach through
-- raw pointers, is a byte at each address; `console` is what `println!` has written.
pub mod Laws
pub mod Frames
pub mod Ensures
pub mod Returns
use cargo_stylus.Common.{
  ℕ, zero, suc, ◌+◌, ◌*◌, ◌-◌, String, Bool, true, false, Option, none, some, List, [], ◌∷◌, ◌++◌,
  ◌==◌, take, length, if◌then◌else◌,
}
use cargo_stylus.Common.Bytes.{Bytes, to_be_bytes, bytes_eq}
use cargo_stylus.Trace.Kinds.{HostioKind, kind_of, start_of, end_of}
use cargo_stylus.Trace.Names.{Names}
use cargo_stylus.Trace.Reader.{FrameReader, next_hostio}
use mathlib.Core.List.{reverse}

abbrev pub Memory : Type 0
Memory = ℕ → ℕ

pub record Replay : Type 0 where
  pub frame : Option FrameReader
  pub start_ink : ℕ
  pub end_ink : ℕ
  pub memory : Memory
  pub console : List String

-- A host function returns, or `none`: it panics, which ends the process at the `extern "C"` border.
abbrev pub Host : Type 0 → Type 0
Host A = Replay → Option (A × Replay)

infixl 5 ◌>>=◌ ◌>>◌
unfoldable pub ◌>>=◌ : {A B : Type 0} → Host A → (A → Host B) → Host B
◌>>=◌ m f s = elim (m s) [ none ↦ none | some r ↦ f r.0 r.1 ]

abbrev pub ◌>>◌ : {A B : Type 0} → Host A → Host B → Host B
m >> k = m >>= λ _. k

unfoldable pub return : {A : Type 0} → A → Host A
return a s = some (a, s)

-- `unreachable!()`
unfoldable pub unreachable : {A : Type 0} → Host A
unreachable s = none

-- `assert_eq!` on numbers and on byte strings
unfoldable pub assert_eq : ℕ → ℕ → Host (Unit {0})
assert_eq a b s = if a == b then some (tt, s) else none

unfoldable pub assert_eq_bytes : Bytes → Bytes → Host (Unit {0})
assert_eq_bytes a b s = if bytes_eq a b then some (tt, s) else none

-- The bytes from an address on.
unfoldable pub load : ℕ → ℕ → Memory → Bytes
load ptr zero m = []
load ptr (suc n) m = m ptr ∷ load (ptr + 1) n m

unfoldable pub store : ℕ → Bytes → Memory → Memory
store ptr [] m = m
store ptr (b ∷ bs) m = store (ptr + 1) bs (λ a. if a == ptr then b else m a)

-- `read_fixed::<N>` and `read_bytes`
unfoldable pub read_fixed : ℕ → ℕ → Host Bytes
read_fixed n ptr s = some (load ptr n s.memory, s)

unfoldable pub read_bytes : ℕ → ℕ → Host Bytes
read_bytes ptr len s = some (load ptr len s.memory, s)

-- `copy!(src, dest, len)` with the length of `src`, and `copy!(src, dest)` of an array
unfoldable pub copy : Bytes → ℕ → Host (Unit {0})
copy src dest s = some (tt, record s { memory = store dest src s.memory })

-- `mem::size_of_val` of a `Box<[u8]>` on a 64-bit host: a pointer and a length
abbrev pub size_of_box : ℕ
size_of_box = 16

-- `copy!(src, dest)` of a `Box<[u8]>`: as many bytes as the box itself has, from its contents on.
-- `past_end` is what the memory holds behind the contents.
unfoldable pub copy_box : (ℕ → Bytes) → Bytes → ℕ → Host (Unit {0})
copy_box past_end src dest =
    copy (take size_of_box (src ++ past_end (size_of_box - length src))) dest

-- `*ptr = value` of a u32, on a little-endian host
unfoldable pub write_u32 : ℕ → ℕ → Host (Unit {0})
unfolding copy
write_u32 ptr value = copy (reverse (to_be_bytes 4 value)) ptr

-- `println!`
unfoldable pub println : String → Host (Unit {0})
println text s = some (tt, record s { console = s.console ++ text ∷ [] })

module _ (N : Names) where
  -- The first half of `frame!`: the next call of the function's name, and the ink that it used. The
  -- second half is a match on the kind, `unreachable` elsewhere.
  unfoldable pub frame : String → Host HostioKind
  frame function_name s = elim s.frame [
    | none ↦ none
    | some r ↦ elim (next_hostio N function_name r) [
      | none ↦ none
      | some found ↦ some (
        kind_of found.0,
        record s { frame = some found.1; start_ink = start_of found.0; end_ink = end_of found.0 },
      )
    ]
  ]
