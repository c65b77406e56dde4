-- ===== src/Trace/Reader/Search.antt =====
-- What `next_hostio` finds: the first call of the expected name, if only calls that are passed over
-- stand before it.
use cargo_stylus.Common.{
  String, ◌≡◌, ◌≢◌, ◌↔◌, true, Option, some, List, [], ◌∷◌, ◌++◌, arith, ap, All, Bool-cases, inl,
  inr,
}
use cargo_stylus.Common.Text.{str_eq, eq_iff}
use cargo_stylus.Trace.Kinds.{Hostio, kind_of}
use cargo_stylus.Trace.Names.{Names, name}
use cargo_stylus.Trace.Reader.{is_skipped, next_loop}

module _ (N : Names) (expected : String) where
  abbrev IsPassedOver : Hostio → Type 0
  IsPassedOver h = (name N (kind_of h) ≢ expected) × (is_skipped (name N (kind_of h)) ≡ true)

  -- `h` is the first call of the expected name in `steps`, behind calls that are passed over, and
  -- `rest` is what follows it.
  pub record IsNext (steps : List Hostio) (h : Hostio) (rest : List Hostio) : Type 0 where
    pub before : List Hostio
    pub split : steps ≡ before ++ h ∷ rest
    pub passed_over : All IsPassedOver before
    pub named : name N (kind_of h) ≡ expected

  IsNext-here :
      (h h' : Hostio) (rest rest' : List Hostio)
      → name N (kind_of h') ≡ expected
      → ◌≡◌ {A = Option (Hostio × List Hostio)} (some (h', rest')) (some (h, rest))
      → IsNext (h' ∷ rest') h rest
  IsNext-here h h' rest rest' n e =
      let p : (h' ≡ h) × (rest' ≡ rest) = (cc, cc) in
      record { before = []; split = cc (p.0, p.1); passed_over = tt; named = rw (← p.0) n }

  IsNext-later :
      (b h : Hostio) (steps rest : List Hostio)
      → IsPassedOver b
      → IsNext steps h rest
      → IsNext (b ∷ steps) h rest
  IsNext-later b h steps rest p q = record {
    before = b ∷ q.before;
    split = ap (λ l. b ∷ l) q.split;
    passed_over = (p, q.passed_over);
    named = q.named;
  }

  next_loop_sound :
      (steps : List Hostio) (h : Hostio) (rest : List Hostio)
      → next_loop N expected steps ≡ some (h, rest)
      → IsNext steps h rest
  unfolding next_loop
  next_loop_sound [] h rest e = cc
  next_loop_sound (b ∷ steps) h rest e = elim (Bool-cases (str_eq (name N (kind_of b)) expected)) [
    | inl same ↦
        IsNext-here h b rest steps ((eq_iff (name N (kind_of b)) expected).0 same) (rw same at e)
    | inr other ↦ elim (Bool-cases (is_skipped (name N (kind_of b)))) [
      | inl skip ↦
          IsNext-later b h steps rest
            (λ p. cc (other, (eq_iff (name N (kind_of b)) expected).1 p), skip)
            (next_loop_sound steps h rest (rw (other, skip) at e))
      | inr stop ↦ cc (rw (other, stop) at e)
    ]
  ]

  next_loop_complete :
      (before : List Hostio) (h : Hostio) (rest : List Hostio)
      → All IsPassedOver before
      → name N (kind_of h) ≡ expected
      → next_loop N expected (before ++ h ∷ rest) ≡ some (h, rest)
  unfolding next_loop
  next_loop_complete [] h rest p n = ground (arith, eq_iff (name N (kind_of h)) expected)
  next_loop_complete (b ∷ before) h rest p n =
      ground (arith, eq_iff (name N (kind_of b)) expected, next_loop_complete before h rest p.1 n)

  -- The loop returns a call and the steps behind it exactly when that call is the first of the
  -- expected name and all before it are calls that are passed over.
  pub next_loop_iff :
      (steps : List Hostio) (h : Hostio) (rest : List Hostio)
      → (next_loop N expected steps ≡ some (h, rest)) ↔ IsNext steps h rest
  next_loop_iff steps h rest = (
    next_loop_sound steps h rest,
    λ q. rw q.split (next_loop_complete q.before h rest q.passed_over q.named),
  )
