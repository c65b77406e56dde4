-- ===== src/Hostio/State/Ensures.antt =====
-- What a host function has established if it returns, and that it leaves the reader and the ink
-- alone: one rule for each way in which the bodies of the functions are built.
use cargo_stylus.Common.{
  ℕ, String, ◌≡◌, refl, sym, ◌∙◌, Bool, true, false, none, some, [], ◌∷◌, ◌++◌, ◌-◌, take, length,
  ◌==◌, ==_iff,
}
use cargo_stylus.Common.Bytes.{Bytes, to_be_bytes, bytes_eq, bytes_eq_iff}
use mathlib.Core.Path.{subst}
use mathlib.Core.Option.{some-injective}
use mathlib.Core.List.{reverse}
use cargo_stylus.Common.{if◌then◌else◌}
use cargo_stylus.Hostio.State.{
  Replay, Host, ◌>>=◌, ◌>>◌, return, unreachable, assert_eq, assert_eq_bytes, read_fixed,
  read_bytes, copy, copy_box, write_u32, println, load, store, size_of_box,
}

-- The reader and the counters are those of `s`.
pub record SameTrace (s s' : Replay) : Type 0 where
  pub frame : s'.frame ≡ s.frame
  pub start_ink : s'.start_ink ≡ s.start_ink
  pub end_ink : s'.end_ink ≡ s.end_ink

-- If `m` returns from `s`, it returns a result and a state with `G`.
pub record Ensures {A : Type 0} (s : Replay) (G : A × Replay → Type 0) (m : Host A) : Type 0 where
  pub at : (q : A × Replay) → m s ≡ some q → SameTrace s q.1 × G q

same : (s : Replay) → SameTrace s s
same s = record { frame = refl; start_ink = refl; end_ink = refl }

-- A function that returns `q` for sure.
Ensures-some :
    {A : Type 0} {s : Replay} {G : A × Replay → Type 0} (m : Host A) (p : A × Replay)
    → m s ≡ some p
    → SameTrace s p.1
    → G p
    → Ensures s G m
Ensures-some {s} {G} m p e t g = record {
  at = λ q h. subst (λ x. SameTrace s x.1 × G x) (some-injective p q (sym e ∙ h)) (t, g);
}

module _ {A : Type 0} (s : Replay) (G : A × Replay → Type 0) where
  pub Ensures-unreachable : Ensures s G unreachable
  unfolding unreachable
  Ensures-unreachable = record { at = λ q h. cc }

  pub Ensures-return : (a : A) → G (a, s) → Ensures s G (return a)
  unfolding return
  Ensures-return a g = Ensures-some (return a) (a, s) refl (same s) g

  pub Ensures-read_fixed :
      (n ptr : ℕ) (f : Bytes → Host A)
      → Ensures s G (f (load ptr n s.memory))
      → Ensures s G (read_fixed n ptr >>= f)
  unfolding read_fixed ◌>>=◌
  Ensures-read_fixed n ptr f e = record { at = e.at }

  pub Ensures-read_bytes :
      (ptr len : ℕ) (f : Bytes → Host A)
      → Ensures s G (f (load ptr len s.memory))
      → Ensures s G (read_bytes ptr len >>= f)
  unfolding read_bytes ◌>>=◌
  Ensures-read_bytes ptr len f e = record { at = e.at }

  pub Ensures-copy :
      (src : Bytes) (dest : ℕ) (m : Host A)
      → Ensures (record s { memory = store dest src s.memory }) G m
      → Ensures s G (copy src dest >> m)
  unfolding copy ◌>>=◌
  Ensures-copy src dest m e = record {
    at = λ q h.
        let (t, g) = e.at q h in
        (record { frame = t.frame; start_ink = t.start_ink; end_ink = t.end_ink }, g);
  }

  pub Ensures-copy_box :
      (past_end : ℕ → Bytes) (src : Bytes) (dest : ℕ) (m : Host A)
      → Ensures
          (record s {
            memory =
                store dest (take size_of_box (src ++ past_end (size_of_box - length src))) s.memory;
          })
          G
          m
      → Ensures s G (copy_box past_end src dest >> m)
  unfolding copy_box
  Ensures-copy_box past_end src dest m e = Ensures-copy _ dest m e

  pub Ensures-write_u32 :
      (ptr value : ℕ) (m : Host A)
      → Ensures (record s { memory = store ptr (reverse (to_be_bytes 4 value)) s.memory }) G m
      → Ensures s G (write_u32 ptr value >> m)
  unfolding write_u32
  Ensures-write_u32 ptr value m e = Ensures-copy _ ptr m e

  after_test :
      (t : Bool) (m : Host A)
      → (t ≡ true → Ensures s G m)
      → Ensures s G (◌>>=◌ {A = Unit {0}} (λ x. if t then some (tt, x) else none) (λ _. m))
  unfolding ◌>>=◌
  after_test true m e = record { at = (e refl).at }
  after_test false m e = record { at = λ q h. cc }

  pub Ensures-assert_eq :
      (a b : ℕ) (m : Host A) → (a ≡ b → Ensures s G m) → Ensures s G (assert_eq a b >> m)
  unfolding assert_eq ◌>>=◌
  Ensures-assert_eq a b m e = after_test (a == b) m (λ h. e ((==_iff a b).0 h))

  pub Ensures-assert_eq_bytes :
      (a b : Bytes) (m : Host A) → (a ≡ b → Ensures s G m) → Ensures s G (assert_eq_bytes a b >> m)
  unfolding assert_eq_bytes ◌>>=◌
  Ensures-assert_eq_bytes a b m e = after_test (bytes_eq a b) m (λ h. e ((bytes_eq_iff a b).0 h))

-- The same for a function that ends in the action.
module _ (s : Replay) (G : Unit {0} × Replay → Type 0) where
  pub Ensures-copy_last :
      (src : Bytes) (dest : ℕ)
      → G (tt, record s { memory = store dest src s.memory })
      → Ensures s G (copy src dest)
  unfolding copy
  Ensures-copy_last src dest g =
      Ensures-some (copy src dest) _ refl
        (record { frame = refl; start_ink = refl; end_ink = refl }) g

  pub Ensures-write_u32_last :
      (ptr value : ℕ)
      → G (tt, record s { memory = store ptr (reverse (to_be_bytes 4 value)) s.memory })
      → Ensures s G (write_u32 ptr value)
  unfolding write_u32
  Ensures-write_u32_last ptr value g = Ensures-copy_last _ ptr g

  pub Ensures-println_last :
      (text : String)
      → G (tt, record s { console = s.console ++ text ∷ [] })
      → Ensures s G (println text)
  unfolding println
  Ensures-println_last text g =
      Ensures-some (println text) _ refl (record { frame = refl; start_ink = refl; end_ink = refl })
        g

  after_last_test :
      (t : Bool) → (t ≡ true → G (tt, s)) → Ensures s G (λ x. if t then some (tt, x) else none)
  after_last_test true g = Ensures-some _ (tt, s) refl (same s) (g refl)
  after_last_test false g = record { at = λ q h. cc }

  pub Ensures-assert_eq_last : (a b : ℕ) → (a ≡ b → G (tt, s)) → Ensures s G (assert_eq a b)
  unfolding assert_eq
  Ensures-assert_eq_last a b g = after_last_test (a == b) (λ h. g ((==_iff a b).0 h))

  pub Ensures-assert_eq_bytes_last :
      (a b : Bytes) → (a ≡ b → G (tt, s)) → Ensures s G (assert_eq_bytes a b)
  unfolding assert_eq_bytes
  Ensures-assert_eq_bytes_last a b g =
      after_last_test (bytes_eq a b) (λ h. g ((bytes_eq_iff a b).0 h))

-- Two rows of bytes agree where their parts do.
pub append_cong : {a a' b b' : Bytes} → a ≡ a' → b ≡ b' → a ++ b ≡ a' ++ b'
append_cong e f = cc (e, f)

pub to_be_bytes_cong : (w : ℕ) {a b : ℕ} → a ≡ b → to_be_bytes w a ≡ to_be_bytes w b
to_be_bytes_cong w e = cc e

pub to_be_bytes_cong_sym : (w : ℕ) {a b : ℕ} → b ≡ a → to_be_bytes w a ≡ to_be_bytes w b
to_be_bytes_cong_sym w e = cc e

pub ruleset ensures_rules = (
  append_cong, to_be_bytes_cong, to_be_bytes_cong_sym, Ensures-unreachable, Ensures-return,
  Ensures-read_fixed, Ensures-read_bytes, Ensures-copy, Ensures-copy_box, Ensures-write_u32,
  Ensures-assert_eq, Ensures-assert_eq_bytes, Ensures-copy_last, Ensures-write_u32_last,
  Ensures-println_last, Ensures-assert_eq_last, Ensures-assert_eq_bytes_last,
)
