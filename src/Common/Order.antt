-- ===== src/Common/Order.antt =====
-- Linear orders as Boolean tests, the lexicographic order of lists, and sorting.
use cargo_stylus.Common.Tests.{if◌then◌else◌, leb}
use Prim.Native.Nat.{ℕ}
use mathlib.Core.Path.{◌≡◌, refl, ◌∙◌}
use mathlib.Core.Bool.{Bool, true, false}
use mathlib.Core.List.{List, [], ◌∷◌}
use mathlib.Core.List.{Permᴰ}
use native.Mathlib.Omega.{arith}

pub record LinearOrder (A : Type 0) : Type 0 where
  pub le : A → A → Bool
  pub total : (a b : A) → le a b ≡ false → le b a ≡ true
  pub antisymm : (a b : A) → le a b ≡ true → le b a ≡ true → a ≡ b
  pub trans : (a b c : A) → le a b ≡ true → le b c ≡ true → le a c ≡ true

pub leb_total : (a b : ℕ) → leb a b ≡ false → leb b a ≡ true
leb_total a b h = ground arith

pub leb_antisymm : (a b : ℕ) → leb a b ≡ true → leb b a ≡ true → a ≡ b
leb_antisymm a b h k = ground arith

pub leb_trans : (a b c : ℕ) → leb a b ≡ true → leb b c ≡ true → leb a c ≡ true
leb_trans a b c h k = ground arith

abbrev pub leb_order : LinearOrder ℕ
leb_order = record { le = leb; total = leb_total; antisymm = leb_antisymm; trans = leb_trans }

module _ {A : Type 0} (O : LinearOrder A) where
  abbrev pub lex : List A → List A → Bool
  lex [] ys = true
  lex (x ∷ xs) [] = false
  lex (x ∷ xs) (y ∷ ys) =
      let rest = lex xs ys in if O.le x y then (if O.le y x then rest else true) else false

  pub lex_total : (xs ys : List A) → lex xs ys ≡ false → lex ys xs ≡ true
  lex_total [] ys h = cc
  lex_total (x ∷ xs) [] h = refl
  lex_total (x ∷ xs) (y ∷ ys) h = ground (arith, O.total x y, O.total y x, lex_total xs ys)

  pub lex_antisymm : (xs ys : List A) → lex xs ys ≡ true → lex ys xs ≡ true → xs ≡ ys
  lex_antisymm [] [] h k = refl
  lex_antisymm [] (y ∷ ys) h k = cc
  lex_antisymm (x ∷ xs) [] h k = cc
  lex_antisymm (x ∷ xs) (y ∷ ys) h k =
      let e : (O.le x y ≡ true) × (O.le y x ≡ true) = (ground arith, ground arith) in
      let t : xs ≡ ys = lex_antisymm xs ys (ground arith) (ground arith) in
      cc (O.antisymm x y e.0 e.1, t)

  pub lex_trans : (xs ys zs : List A) → lex xs ys ≡ true → lex ys zs ≡ true → lex xs zs ≡ true
  lex_trans [] ys zs h k = refl
  lex_trans (x ∷ xs) [] zs h k = cc
  lex_trans (x ∷ xs) (y ∷ ys) [] h k = cc
  lex_trans (x ∷ xs) (y ∷ ys) (z ∷ zs) h k =
      ground (arith, O.trans x y z, O.trans z x y, O.trans y z x, lex_trans xs ys zs)

  abbrev pub lex_order : LinearOrder (List A)
  lex_order = record { le = lex; total = lex_total; antisymm = lex_antisymm; trans = lex_trans }

  -- `sort` of a vector whose order is linear, so that it does not matter which sort it is.
  abbrev pub insert : A → List A → List A
  insert x [] = x ∷ []
  insert x (y ∷ ys) = let rest = insert x ys in if O.le x y then x ∷ y ∷ ys else y ∷ rest

  abbrev pub sort : List A → List A
  sort [] = []
  sort (x ∷ xs) = insert x (sort xs)

  insert_comm : (x y : A) (l : List A) → insert x (insert y l) ≡ insert y (insert x l)
  insert_comm x y [] = ground (arith, O.total x y, O.antisymm x y)
  insert_comm x y (z ∷ l) = ground (
    arith,
    O.total x y,
    O.total x z,
    O.total y z,
    O.antisymm x y,
    O.trans x y z,
    O.trans y x z,
    insert_comm x y l,
  )

  -- Sorting forgets the order.
  pub sort-Permᴰ : {xs ys : List A} → Permᴰ xs ys → sort xs ≡ sort ys
  sort-Permᴰ Permᴰ.nil = refl
  sort-Permᴰ (Permᴰ.cons e p) = cc (e, sort-Permᴰ p)
  sort-Permᴰ (Permᴰ.swap {a} {b} {a'} {b'} {l} e f) = cc (e, f, insert_comm a b (sort l))
  sort-Permᴰ (Permᴰ.trans p q) = sort-Permᴰ p ∙ sort-Permᴰ q
