-- ===== src/Cli/Words.antt =====
-- A command line as one text: arguments joined by spaces, and the text split at the spaces again
-- (`join(" ")` in the `Display` of the configurations, `split(' ')` in `main_impl`,
-- main/src/main.rs).
use Prim.Native.Char.{Char, code}
use Prim.Native.String.{◌++◌ as ◌<>◌}
use mathlib.Core.List.{append-nil, append_assoc}
use text.Mathlib.TextLemmas.{nil-append, cons-append}
use cargo_stylus.Common.{
  ◌≡◌, refl, sym, ap, ◌∙◌, ◌↔◌, inl, inr, Bool, true, false, not, ◌&&◌, ◌||◌, &&-eq-true, String,
  List, [], ◌∷◌, ◌++◌, All, append-All, ◌==◌, if◌then◌else◌, Bool-cases, arith,
}

-- `args.join(sep)`
unfoldable pub join : String → List String → String
join sep [] = String.[]
join sep (a ∷ []) = a
join sep (a ∷ b ∷ rest) = a <> (sep <> join sep (b ∷ rest))

abbrev pub is_empty : String → Bool
is_empty String.[] = true
is_empty (String.◌∷◌ c s) = false

abbrev prepend : Char → List String → List String
prepend c [] = String.◌∷◌ c String.[] ∷ []
prepend c (w ∷ ws) = String.◌∷◌ c w ∷ ws

-- `text.split(' ')`
unfoldable pub split : String → List String
split String.[] = String.[] ∷ []
split (String.◌∷◌ c s) =
    let rest = split s in if code c == b' ' then String.[] ∷ rest else prepend c rest

-- `.filter(|s| !s.is_empty())`
unfoldable pub filter_nonempty : List String → List String
filter_nonempty [] = []
filter_nonempty (w ∷ ws) = let rest = filter_nonempty ws in if is_empty w then rest else w ∷ rest

-- `text.split(' ').filter(|s| !s.is_empty())`
unfoldable pub words : String → List String
unfolding split filter_nonempty
words s = filter_nonempty (split s)

unfoldable pub concat_map {ℓ κ} : {A : Type ℓ} {B : Type κ} → (A → List B) → List A → List B
concat_map f [] = []
concat_map f (x ∷ xs) = f x ++ concat_map f xs

pub concat_map-append {ℓ κ} :
    {A : Type ℓ} {B : Type κ} (f : A → List B) (xs ys : List A)
    → concat_map f (xs ++ ys) ≡ concat_map f xs ++ concat_map f ys
unfolding concat_map
concat_map-append f [] ys = refl
concat_map-append f (x ∷ xs) ys = simp (concat_map-append f xs ys, append_assoc)

abbrev pub has_space : String → Bool
has_space String.[] = false
has_space (String.◌∷◌ c s) = (code c == b' ') || has_space s

-- A text that the splitting leaves alone
abbrev pub IsWord : String → Type 0
IsWord s = (is_empty s ≡ false) × (has_space s ≡ false)

filter_nonempty-append :
    (xs ys : List String) → filter_nonempty (xs ++ ys) ≡ filter_nonempty xs ++ filter_nonempty ys
unfolding filter_nonempty
filter_nonempty-append [] ys = refl
filter_nonempty-append (x ∷ xs) ys = ground (arith, filter_nonempty-append xs ys)

split-cons : (s : String) → (w : String) × (ws : List String) × (split s ≡ w ∷ ws)
unfolding split
split-cons String.[] = (String.[], [], refl)
split-cons (String.◌∷◌ c s) =
    let (w, ws, e) = split-cons s in
    elim (Bool-cases (code c == b' ')) [
      | inl h ↦ (String.[], split s, rw h)
      | inr h ↦ (String.◌∷◌ c w, ws, rw (h, e))
    ]

split_space : (a r : String) → split (a <> (" " <> r)) ≡ split a ++ split r
unfolding split
split_space String.[] r = rw (nil-append, cons-append, nil-append)
split_space (String.◌∷◌ c a) r =
    let (w, ws, e) = split-cons a in
    elim (Bool-cases (code c == b' ')) [
      | inl h ↦ rw (cons-append, h, split_space a r)
      | inr h ↦ rw (cons-append, h, split_space a r, e)
    ]

words_space : (a r : String) → words (a <> (" " <> r)) ≡ words a ++ words r
unfolding words
words_space a r = rw (split_space a r, filter_nonempty-append (split a) (split r))

-- A joined command line breaks into the words of its arguments, one after the other.
pub words-join : (args : List String) → words (join " " args) ≡ concat_map words args
unfolding join concat_map words
words-join [] = refl
words-join (a ∷ []) = sym (append-nil (words a))
words-join (a ∷ b ∷ rest) =
    words_space a (join " " (b ∷ rest)) ∙ ap (λ t. words a ++ t) (words-join (b ∷ rest))

split_self : (s : String) → has_space s ≡ false → split s ≡ s ∷ []
unfolding split
split_self String.[] h = refl
split_self (String.◌∷◌ c s) h = ground (arith, split_self s)

-- A word is its own only word.
pub words_self : (s : String) → IsWord s → words s ≡ s ∷ []
unfolding words
words_self s h = rw (split_self s h.1, h.0)

split_clean : (s : String) → All (λ w. has_space w ≡ false) (split s)
unfolding split
split_clean String.[] = (refl, tt)
split_clean (String.◌∷◌ c s) =
    let (w, ws, e) = split-cons s in
    let ih : All (λ w. has_space w ≡ false) (w ∷ ws) = rw e at (split_clean s) in
    elim (Bool-cases (code c == b' ')) [
      | inl h ↦ rw h (refl, split_clean s)
      | inr h ↦ rw (h, e) (rw h (ih.0), ih.1)
    ]

filter_nonempty-IsWord :
    (ws : List String) → All (λ w. has_space w ≡ false) ws → All IsWord (filter_nonempty ws)
unfolding filter_nonempty
filter_nonempty-IsWord [] h = tt
filter_nonempty-IsWord (w ∷ ws) h = elim (Bool-cases (is_empty w)) [
  | inl e ↦ rw e (filter_nonempty-IsWord ws h.1)
  | inr e ↦ rw e ((e, h.0), filter_nonempty-IsWord ws h.1)
]

-- What a text breaks into are words.
pub words-IsWord : (s : String) → All IsWord (words s)
unfolding words
words-IsWord s = filter_nonempty-IsWord (split s) (split_clean s)

concat_map-words-IsWord : (args : List String) → All IsWord (concat_map words args)
unfolding concat_map
concat_map-words-IsWord [] = tt
concat_map-words-IsWord (a ∷ args) =
    append-All IsWord (words a) (concat_map words args) (words-IsWord a)
      (concat_map-words-IsWord args)

concat_map-words_self : (args : List String) → All IsWord args → concat_map words args ≡ args
unfolding concat_map
concat_map-words_self [] h = refl
concat_map-words_self (a ∷ args) h = rw (words_self a h.0, concat_map-words_self args h.1)

-- The arguments come back exactly when each of them is a word.
pub words_kept_iff : (args : List String) → (concat_map words args ≡ args) ↔ All IsWord args
words_kept_iff args = (λ e. rw e at (concat_map-words-IsWord args), concat_map-words_self args)

-- A test for lists of words
abbrev pub are_words : List String → Bool
are_words [] = true
are_words (a ∷ args) = not (is_empty a) && (not (has_space a) && are_words args)

pub are_words_sound : (args : List String) → are_words args ≡ true → All IsWord args
are_words_sound [] h = tt
are_words_sound (a ∷ args) h =
    let (full, rest) = &&-eq-true (not (is_empty a)) _ h in
    let (solid, more) = &&-eq-true (not (has_space a)) (are_words args) rest in
    ((ground arith, ground arith), are_words_sound args more)
