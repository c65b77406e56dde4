-- ===== src/Project/Toolchain/Channel.antt =====
-- The channel of the toolchain file (`extract_toolchain_channel`, main/src/project.rs).
use text.Mathlib.TextLemmas.{tail-eq_of_cons-eq}
use Prim.Native.Char.{Char, code}
use cargo_stylus.Common.{
  ℕ, ◌≡◌, refl, ◌≢◌, ◌↔◌, String, Bool, true, false, ◌&&◌, &&-eq-true, Option, some, Bool-cases,
  inl, inr, arith,
}
use cargo_stylus.Common.Text.{str_eq, eq_iff, str_apart, filter_chars}
use cargo_stylus.Common.Outcome.{ok, >>=-eq-ok}
use cargo_stylus.Project.Toolchain.{
  Value, parse_file, string_of, is_generic, is_channel_char, check_channel,
  extract_toolchain_channel,
}

abbrev pub all_chars : (ℕ → Bool) → String → Bool
all_chars keep String.[] = true
all_chars keep (String.◌∷◌ c s) = keep (code c) && all_chars keep s

filter_chars_all : (keep : ℕ → Bool) (s : String) → all_chars keep (filter_chars keep s) ≡ true
unfolding filter_chars
filter_chars_all keep String.[] = refl
filter_chars_all keep (String.◌∷◌ c s) = elim (Bool-cases (keep (code c))) [
  | inl h ↦ rw (h, h) (filter_chars_all keep s)
  | inr h ↦ rw h (filter_chars_all keep s)
]

str_eq-false : (s t : String) → s ≢ t → str_eq s t ≡ false
str_eq-false s t h = elim (Bool-cases (str_eq s t)) [
  | inl e ↦ absurd (h ((eq_iff s t).0 e))
  | inr e ↦ e
]

cons_apart : (c d : Char) (s t : String) → str_eq s t ≡ false → String.◌∷◌ c s ≢ String.◌∷◌ d t
cons_apart c d s t h e = str_apart s t h (tail-eq_of_cons-eq e)

filter_chars_kept :
    (keep : ℕ → Bool) (s : String) → all_chars keep s ≡ true → filter_chars keep s ≡ s
unfolding filter_chars
filter_chars_kept keep String.[] h = refl
filter_chars_kept keep (String.◌∷◌ c s) h =
    let (a, b) = &&-eq-true (keep (code c)) (all_chars keep s) h in
    rw (a, filter_chars_kept keep s b)

is_generic_apart :
    (s : String) → is_generic s ≡ false → (s ≢ "stable") × (s ≢ "nightly") × (s ≢ "beta")
unfolding is_generic
is_generic_apart s h = (
  str_apart s "stable" (ground arith),
  str_apart s "nightly" (ground arith),
  str_apart s "beta" (ground arith),
)

apart-is_generic :
    (s : String) → (s ≢ "stable") × (s ≢ "nightly") × (s ≢ "beta") → is_generic s ≡ false
unfolding is_generic
apart-is_generic s h =
    rw (str_eq-false s "stable" h.0, str_eq-false s "nightly" h.1, str_eq-false s "beta" h.2)

module _ (beyond : ℕ → Bool) where
  -- A channel in the file, not one of the three names, of which the characters that are allowed
  -- make the result
  pub record IsChannel (toml : Value) (result : String) : Type 0 where
    pub channel : String
    pub entry : string_of "toolchain" "channel" toml ≡ ok channel
    pub specific : (channel ≢ "stable") × (channel ≢ "nightly") × (channel ≢ "beta")
    pub filtered : filter_chars (is_channel_char beyond) channel ≡ result
    pub allowed : all_chars (is_channel_char beyond) result ≡ true

  check_channel-IsChannel :
      (toml : Value) (channel c : String)
      → string_of "toolchain" "channel" toml ≡ ok channel
      → check_channel beyond channel ≡ ok c
      → IsChannel toml c
  unfolding check_channel
  check_channel-IsChannel toml channel c e h = elim (Bool-cases (is_generic channel)) [
    | inl g ↦ absurd (cc (rw g at h))
    | inr g ↦
        let kept : filter_chars (is_channel_char beyond) channel ≡ c = cc (rw g at h) in
        record {
          channel = channel;
          entry = e;
          specific = is_generic_apart channel g;
          filtered = kept;
          allowed = rw kept at (filter_chars_all (is_channel_char beyond) channel);
        }
  ]

  IsChannel-check_channel :
      (toml : Value) (c : String) (i : IsChannel toml c) → check_channel beyond i.channel ≡ ok c
  unfolding check_channel
  IsChannel-check_channel toml c i = rw (apart-is_generic i.channel i.specific, i.filtered)

  -- A channel is returned of a toolchain file that can be parsed exactly when the file has a
  -- channel that is not one of the generic names, and the allowed characters of it make the
  -- result.
  pub extract_toolchain_channel_iff :
      (from_str : String → Option Value) (text : String) (toml : Value) (c : String)
      → from_str text ≡ some toml
      → (extract_toolchain_channel beyond from_str (some text) ≡ ok c) ↔ IsChannel toml c
  unfolding extract_toolchain_channel parse_file
  extract_toolchain_channel_iff from_str text toml c h = rw h (
    (λ e.
        let (channel, entry, checked) =
          >>=-eq-ok (string_of "toolchain" "channel" toml) (check_channel beyond) e in
        check_channel-IsChannel toml channel c entry checked),
    (λ i. rw i.entry (IsChannel-check_channel toml c i)),
  )

  check_channel_leading :
      (c : Char) (name : String)
      → is_channel_char beyond (code c) ≡ false
      → is_generic (String.◌∷◌ c name) ≡ false
      → all_chars (is_channel_char beyond) name ≡ true
      → check_channel beyond (String.◌∷◌ c name) ≡ ok name
  unfolding check_channel filter_chars
  check_channel_leading c name h g a = rw (g, h, filter_chars_kept (is_channel_char beyond) name a)

  -- A generic name behind a character that is not allowed is accepted, and becomes the name.
  pub check_channel_generic :
      (c : Char)
      → is_channel_char beyond (code c) ≡ false
      → (check_channel beyond (String.◌∷◌ c "stable") ≡ ok "stable")
        × (check_channel beyond (String.◌∷◌ c "nightly") ≡ ok "nightly")
        × (check_channel beyond (String.◌∷◌ c "beta") ≡ ok "beta")
  unfolding is_generic is_channel_char
  check_channel_generic c h = (
    check_channel_leading c "stable" h
        (apart-is_generic _ (
          cons_apart c "s" "stable" "table" refl,
          cons_apart c "n" "stable" "ightly" refl,
          cons_apart c "b" "stable" "eta" refl,
        ))
        refl,
    check_channel_leading c "nightly" h
        (apart-is_generic _ (
          cons_apart c "s" "nightly" "table" refl,
          cons_apart c "n" "nightly" "ightly" refl,
          cons_apart c "b" "nightly" "eta" refl,
        ))
        refl,
    check_channel_leading c "beta" h
        (apart-is_generic _ (
          cons_apart c "s" "beta" "table" refl,
          cons_apart c "n" "beta" "ightly" refl,
          cons_apart c "b" "beta" "eta" refl,
        ))
        refl,
  )
