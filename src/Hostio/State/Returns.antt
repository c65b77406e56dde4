-- ===== src/Hostio/State/Returns.antt =====
-- Host functions that return: one rule for each way in which their bodies are built.
use cargo_stylus.Common.{
  ℕ, zero, suc, ◌+◌, ◌-◌, ◌≡◌, refl, sym, ap, ◌∙◌, Bool, true, false, none, some, ◌++◌, take, drop,
  length, ◌==◌, ==_iff, take-append, drop-append, if◌then◌else◌, arith,
}
use cargo_stylus.Common.Bytes.{
  Bytes, Fits, to_be_bytes, from_be_bytes, from_be_bytes-to_be_bytes, bytes_eq, bytes_eq_iff,
}
use mathlib.Core.List.{reverse}
use cargo_stylus.Hostio.State.{
  Replay, Memory, Host, ◌>>=◌, ◌>>◌, return, assert_eq, assert_eq_bytes, read_fixed, read_bytes,
  copy, copy_box, write_u32, load, store, size_of_box,
}

pub record Returns {A : Type 0} (s : Replay) (m : Host A) : Type 0 where
  pub result : A × Replay
  pub returns : m s ≡ some result

module _ {A : Type 0} (s : Replay) where
  pub Returns-return : (a : A) → Returns s (return a)
  unfolding return
  Returns-return a = record { result = (a, s); returns = refl }

  pub Returns-read_fixed :
      (n ptr : ℕ) (f : Bytes → Host A)
      → Returns s (f (load ptr n s.memory))
      → Returns s (read_fixed n ptr >>= f)
  unfolding read_fixed ◌>>=◌
  Returns-read_fixed n ptr f r = record { result = r.result; returns = r.returns }

  pub Returns-read_bytes :
      (ptr len : ℕ) (f : Bytes → Host A)
      → Returns s (f (load ptr len s.memory))
      → Returns s (read_bytes ptr len >>= f)
  unfolding read_bytes ◌>>=◌
  Returns-read_bytes ptr len f r = record { result = r.result; returns = r.returns }

  pub Returns-copy :
      (src : Bytes) (dest : ℕ) (m : Host A)
      → Returns (record s { memory = store dest src s.memory }) m
      → Returns s (copy src dest >> m)
  unfolding copy ◌>>=◌
  Returns-copy src dest m r = record { result = r.result; returns = r.returns }

  pub Returns-copy_box :
      (past_end : ℕ → Bytes) (src : Bytes) (dest : ℕ) (m : Host A)
      → Returns
          (record s {
            memory =
                store dest (take size_of_box (src ++ past_end (size_of_box - length src))) s.memory;
          })
          m
      → Returns s (copy_box past_end src dest >> m)
  unfolding copy_box
  Returns-copy_box past_end src dest m r = Returns-copy _ dest m r

  pub Returns-write_u32 :
      (ptr value : ℕ) (m : Host A)
      → Returns (record s { memory = store ptr (reverse (to_be_bytes 4 value)) s.memory }) m
      → Returns s (write_u32 ptr value >> m)
  unfolding write_u32
  Returns-write_u32 ptr value m r = Returns-copy _ ptr m r

  past_test :
      (t : Bool) (m : Host A)
      → t ≡ true
      → Returns s m
      → Returns s (◌>>=◌ {A = Unit {0}} (λ x. if t then some (tt, x) else none) (λ _. m))
  unfolding ◌>>=◌
  past_test true m h r = record { result = r.result; returns = r.returns }
  past_test false m h r = absurd (cc h)

  pub Returns-assert_eq :
      (a b : ℕ) (m : Host A) → a ≡ b → Returns s m → Returns s (assert_eq a b >> m)
  unfolding assert_eq ◌>>=◌
  Returns-assert_eq a b m e r = past_test (a == b) m ((==_iff a b).1 e) r

  pub Returns-assert_eq_bytes :
      (a b : Bytes) (m : Host A) → a ≡ b → Returns s m → Returns s (assert_eq_bytes a b >> m)
  unfolding assert_eq_bytes ◌>>=◌
  Returns-assert_eq_bytes a b m e r = past_test (bytes_eq a b) m ((bytes_eq_iff a b).1 e) r

-- The same for a function that ends in the action.
module _ (s : Replay) where
  pub Returns-copy_last : (src : Bytes) (dest : ℕ) → Returns s (copy src dest)
  unfolding copy
  Returns-copy_last src dest = record { result = _; returns = refl }

  pub Returns-write_u32_last : (ptr value : ℕ) → Returns s (write_u32 ptr value)
  unfolding write_u32
  Returns-write_u32_last ptr value = Returns-copy_last _ ptr

  pub Returns-assert_eq_last : (a b : ℕ) → a ≡ b → Returns s (assert_eq a b)
  unfolding assert_eq
  Returns-assert_eq_last a b e = record {
    result = (tt, s);
    returns = let t = (==_iff a b).1 e in rw t refl;
  }

  pub Returns-assert_eq_bytes_last : (a b : Bytes) → a ≡ b → Returns s (assert_eq_bytes a b)
  unfolding assert_eq_bytes
  Returns-assert_eq_bytes_last a b e = record {
    result = (tt, s);
    returns = let t = (bytes_eq_iff a b).1 e in rw t refl;
  }

pub ruleset returns_rules = (
  Returns-return, Returns-read_fixed, Returns-read_bytes, Returns-copy, Returns-copy_box,
  Returns-write_u32, Returns-assert_eq, Returns-assert_eq_bytes, Returns-copy_last,
  Returns-write_u32_last, Returns-assert_eq_last, Returns-assert_eq_bytes_last,
)

pub length-load : (n ptr : ℕ) (m : Memory) → length (load ptr n m) ≡ n
unfolding load
length-load zero ptr m = refl
length-load (suc n) ptr m = omega (arith, length-load n (ptr + 1) m)

-- Two rows of bytes that begin with parts of one length
pub split_fixed :
    (n : ℕ) (a a' b b' : Bytes)
    → length a ≡ n
    → length a' ≡ n
    → a ++ b ≡ a' ++ b'
    → (a ≡ a') × (b ≡ b')
split_fixed n a a' b b' h k e = (
  sym (take-append n a b h) ∙ ap (take n) e ∙ take-append n a' b' k,
  sym (drop-append n a b h) ∙ ap (drop n) e ∙ drop-append n a' b' k,
)

pub to_be_bytes_injective :
    (w a b : ℕ) → Fits w a → Fits w b → to_be_bytes w a ≡ to_be_bytes w b → a ≡ b
to_be_bytes_injective w a b h k e =
    sym (from_be_bytes-to_be_bytes w a h) ∙ ap from_be_bytes e ∙ from_be_bytes-to_be_bytes w b k
