-- ===== src/Cli/Startup/Extension.antt =====
-- Which program takes the subcommand (`main`, main/src/main.rs).
use cargo_stylus.Common.{
  ◌≡◌, refl, ◌≢◌, ◌↔◌, ◌⊎◌, if◌then◌else◌, ap, ◌∙◌, String, Bool, true, false, not, ◌||◌, ◌&&◌,
  List, [], ◌∷◌, ◌++◌, drop, All, inl, inr, arith,
}
use cargo_stylus.Common.Text.{str_eq}
use cargo_stylus.Cli.Startup.{
  Startup, extension, parse_from, is_deprecated_extension, is_starting, skip_starting, custom_name,
  after_builtins, first_argument, main,
}

skip_starting-append :
    (before after : List String)
    → All (λ x. is_starting x ≡ true) before
    → skip_starting (before ++ after) ≡ skip_starting after
unfolding skip_starting
skip_starting-append [] after h = refl
skip_starting-append (x ∷ before) after h = rw h.0 (skip_starting-append before after h.1)

skip_starting-cons :
    (arg : String) (args : List String)
    → is_starting arg ≡ false
    → skip_starting (arg ∷ args) ≡ arg ∷ args
unfolding skip_starting
skip_starting-cons arg args s = rw s

-- A subcommand that no builtin is named like
abbrev pub IsSubcommand : String → Type 0
IsSubcommand arg =
    (is_starting arg ≡ false)
    × (str_eq arg "--help" || str_eq arg "-h" ≡ false)
    × (str_eq arg "--version" || str_eq arg "-V" ≡ false)

takes :
    (e p : Startup)
    → p ≢ e
    → (there deprecated : Bool)
    → (((if there && not deprecated then e else p) ≡ e) ↔ (there ≡ true) × (deprecated ≡ false))
      × ((there ≡ false) ⊎ (deprecated ≡ true) → (if there && not deprecated then e else p) ≡ p)
takes e p apart true true =
    (((λ same. absurd (apart same)), (λ (_, no_way). absurd (cc))), λ _. refl)
takes e p apart true false =
    (((λ _. (refl, refl)), (λ _. refl)), elim [ inl f ↦ absurd (cc) | inr f ↦ absurd (cc) ])
takes e p apart false deprecated =
    (((λ same. absurd (apart same)), (λ (no_way, _). absurd (cc))), λ _. refl)

module _ (command_exists : String → Bool) where
  main-append :
      (before : List String) (arg : String) (args : List String)
      → All (λ x. is_starting x ≡ true) before
      → IsSubcommand arg
      → main command_exists (before ++ arg ∷ args)
        ≡ after_builtins command_exists (before ++ arg ∷ args) arg args
  unfolding main skip_starting first_argument
  main-append before arg args h (s, a, b) =
      ap (first_argument command_exists (before ++ arg ∷ args))
        (skip_starting-append before (arg ∷ args) h ∙ skip_starting-cons arg args s)
      ∙ rw (first_argument, a, b)

  -- Behind starting arguments, an extension of the subcommand's name is run, with the subcommand
  -- and what follows it, exactly when there is one that is not deprecated; else clap reads all
  -- arguments but the first.
  pub main-extension_iff :
      (before : List String) (arg : String) (args : List String)
      → All (λ x. is_starting x ≡ true) before
      → IsSubcommand arg
      → ((main command_exists (before ++ arg ∷ args) ≡ extension (custom_name arg) (arg ∷ args))
          ↔ (command_exists (custom_name arg) ≡ true)
            × (is_deprecated_extension (custom_name arg) ≡ false))
        × ((command_exists (custom_name arg) ≡ false)
              ⊎ (is_deprecated_extension (custom_name arg) ≡ true)
            → main command_exists (before ++ arg ∷ args)
              ≡ parse_from (drop 1 (before ++ arg ∷ args)))
  unfolding after_builtins
  main-extension_iff before arg args h s = rw (main-append before arg args h s) (
      takes (extension (custom_name arg) (arg ∷ args)) _ (λ e. absurd (ground arith))
        (command_exists (custom_name arg)) (is_deprecated_extension (custom_name arg)))
