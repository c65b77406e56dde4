-- ===== src/Common/Occurs.antt =====
-- Where a text stands in another: what `contains` and `ends_with` test.
use Prim.Native.String.{◌++◌ as ◌<>◌, String}
use text.Mathlib.TextLemmas.{nil-append, cons-append, append-eq-nil_iff, tail-eq_of_cons-eq}
use text.Mathlib.TextEquality.{starts_with_iff}
use mathlib.Core.Path.{◌≡◌, refl, sym, ap, ◌∙◌}
use mathlib.Core.Logic.{◌↔◌, inl, inr}
use mathlib.Core.Bool.{true, false}
use cargo_stylus.Common.Tests.{Bool-cases}
use cargo_stylus.Common.Text.{str_eq, starts_with, contains, ends_with, eq_iff}

-- The text stands somewhere in the other.
abbrev pub Occurs : (text whole : String) → Type 0
Occurs text whole = (before : String) × (after : String) × (whole ≡ before <> (text <> after))

contains-Occurs : (whole text : String) → contains whole text ≡ true → Occurs text whole
unfolding contains
contains-Occurs String.[] text h =
    let same : text ≡ "" = (eq_iff text "").0 h in ("", "", rw same refl)
contains-Occurs (String.◌∷◌ c s) text h = elim (Bool-cases (starts_with (String.◌∷◌ c s) text)) [
  | inl t ↦
      let (after, e) = (starts_with_iff (String.◌∷◌ c s) text).0 t in
      ("", after, sym e ∙ sym (nil-append _))
  | inr f ↦
      let (before, after, e) = contains-Occurs s text (rw f at h) in
      (String.◌∷◌ c before, after, ap (String.◌∷◌ c) e ∙ sym (cons-append c before (text <> after)))
]

Occurs-contains :
    (before whole text after : String)
    → whole ≡ before <> (text <> after)
    → contains whole text ≡ true
unfolding contains
Occurs-contains String.[] String.[] text after e =
    (eq_iff text "").1 ((append-eq-nil_iff).0 (sym (e ∙ nil-append (text <> after)))).0
Occurs-contains String.[] (String.◌∷◌ c s) text after e =
    rw ((starts_with_iff (String.◌∷◌ c s) text).1 (after, sym (e ∙ nil-append (text <> after))))
      refl
Occurs-contains (String.◌∷◌ d before) String.[] text after e =
    absurd (cc (e ∙ cons-append d before (text <> after)))
Occurs-contains (String.◌∷◌ d before) (String.◌∷◌ c s) text after e =
    let later : contains s text ≡ true =
      Occurs-contains before s text after
        (tail-eq_of_cons-eq (e ∙ cons-append d before (text <> after))) in
    elim (Bool-cases (starts_with (String.◌∷◌ c s) text)) [ inl t ↦ rw t refl | inr f ↦ rw f later ]

-- `contains` finds a text exactly where it occurs.
pub contains_iff : (whole text : String) → (contains whole text ≡ true) ↔ Occurs text whole
contains_iff whole text =
    (contains-Occurs whole text, λ (before, after, e). Occurs-contains before whole text after e)

pub not_contains : (whole text : String) → ¬ Occurs text whole → contains whole text ≡ false
not_contains whole text h = elim (Bool-cases (contains whole text)) [
  | inl t ↦ absurd (h ((contains_iff whole text).0 t))
  | inr f ↦ f
]

-- The other text ends in it.
abbrev pub EndsIn : (text whole : String) → Type 0
EndsIn text whole = (before : String) × (whole ≡ before <> text)

ends_with-EndsIn : (whole text : String) → ends_with whole text ≡ true → EndsIn text whole
unfolding ends_with
ends_with-EndsIn String.[] text h = ("", (eq_iff "" text).0 h ∙ sym (nil-append text))
ends_with-EndsIn (String.◌∷◌ c s) text h = elim (Bool-cases (str_eq (String.◌∷◌ c s) text)) [
  | inl t ↦ ("", (eq_iff (String.◌∷◌ c s) text).0 t ∙ sym (nil-append text))
  | inr f ↦
      let (before, e) = ends_with-EndsIn s text (rw f at h) in
      (String.◌∷◌ c before, ap (String.◌∷◌ c) e ∙ sym (cons-append c before text))
]

EndsIn-ends_with :
    (before whole text : String) → whole ≡ before <> text → ends_with whole text ≡ true
unfolding ends_with
EndsIn-ends_with String.[] String.[] text e = (eq_iff "" text).1 (e ∙ nil-append text)
EndsIn-ends_with String.[] (String.◌∷◌ c s) text e =
    rw ((eq_iff (String.◌∷◌ c s) text).1 (e ∙ nil-append text)) refl
EndsIn-ends_with (String.◌∷◌ d before) String.[] text e =
    absurd (cc (e ∙ cons-append d before text))
EndsIn-ends_with (String.◌∷◌ d before) (String.◌∷◌ c s) text e =
    let later : ends_with s text ≡ true =
      EndsIn-ends_with before s text (tail-eq_of_cons-eq (e ∙ cons-append d before text)) in
    elim (Bool-cases (str_eq (String.◌∷◌ c s) text)) [ inl t ↦ rw t refl | inr f ↦ rw f later ]

-- `ends_with` finds a text exactly at the end.
pub ends_with_iff : (whole text : String) → (ends_with whole text ≡ true) ↔ EndsIn text whole
ends_with_iff whole text =
    (ends_with-EndsIn whole text, λ (before, e). EndsIn-ends_with before whole text e)
