-- ===== src/Cli/Display/Kept.antt =====
-- What the words of a shown configuration are (the `Display` of main/src/main.rs and the splitting
-- of `main_impl`).
use mathlib.Core.List.{append-nil}
use Prim.Native.String.{◌++◌ as ◌<>◌}
use cargo_stylus.Common.{
  ◌≡◌, refl, sym, ap, ◌∙◌, ◌↔◌, String, Bool, true, false, Option, none, some, List, [], ◌∷◌, ◌++◌,
  All,
}
use cargo_stylus.Cli.Words.{
  join, words, words-join, concat_map, concat_map-append, IsWord, words_kept_iff,
}
use cargo_stylus.Cli.Config.{CheckConfig, DeployConfig, VerifyConfig}
use cargo_stylus.Cli.Display.{
  Shows, push, push_if, push_some, push_constructor_args, show_data_fee, common_args, show_common,
  auth_args, show_auth, check_args_behind, show_check, deploy_args_behind, show_deploy,
  verify_args_behind, show_verify,
}

-- Argument lists that break into the same words
record SameWords (xs ys : List String) : Type 0 where
  pub same : concat_map words xs ≡ concat_map words ys

append-SameWords : (xs ys zs : List String) → SameWords xs ys → SameWords (xs ++ zs) (ys ++ zs)
append-SameWords xs ys zs h = record {
  same =
      concat_map-append words xs zs
      ∙ ap (λ t. t ++ concat_map words zs) h.same
      ∙ sym (concat_map-append words ys zs);
}

module _ {xs ys : List String} where
  push-SameWords : (a : String) → SameWords xs ys → SameWords (push a xs) (push a ys)
  unfolding push
  push-SameWords a h = append-SameWords xs ys (a ∷ []) h

  push_if-SameWords :
      (b : Bool) (a : String) → SameWords xs ys → SameWords (push_if b a xs) (push_if b a ys)
  unfolding push_if
  push_if-SameWords true a h = append-SameWords xs ys (a ∷ []) h
  push_if-SameWords false a h = h

  push_some-SameWords :
      (name : String) (o : Option String)
      → SameWords xs ys
      → SameWords (push_some name o xs) (push_some name o ys)
  unfolding push_some
  push_some-SameWords name none h = h
  push_some-SameWords name (some value) h = append-SameWords xs ys _ h

  push_constructor_args-SameWords :
      (args : List String)
      → SameWords xs ys
      → SameWords (push_constructor_args args xs) (push_constructor_args args ys)
  unfolding push_constructor_args
  push_constructor_args-SameWords [] h = h
  push_constructor_args-SameWords (a ∷ rest) h = append-SameWords xs ys _ h

append_left-SameWords : (xs ys zs : List String) → SameWords ys zs → SameWords (xs ++ ys) (xs ++ zs)
append_left-SameWords xs ys zs h = record {
  same =
      concat_map-append words xs ys
      ∙ ap (λ t. concat_map words xs ++ t) h.same
      ∙ sym (concat_map-append words xs zs);
}

trans-SameWords : (xs ys zs : List String) → SameWords xs ys → SameWords ys zs → SameWords xs zs
trans-SameWords xs ys zs h k = record { same = h.same ∙ k.same }

-- One argument that was joined from others breaks like these.
push_joined-SameWords :
    (xs ys zs : List String) → SameWords xs ys → SameWords (push (join " " zs) xs) (ys ++ zs)
unfolding push concat_map
push_joined-SameWords xs ys zs h = record {
  same =
      concat_map-append words xs (join " " zs ∷ [])
      ∙ ap (λ t. concat_map words xs ++ t) (append-nil (words (join " " zs)) ∙ words-join zs)
      ∙ ap (λ t. t ++ concat_map words zs) h.same
      ∙ sym (concat_map-append words ys zs);
}

push_shown-SameWords : (zs : List String) → SameWords (push (join " " zs) []) zs
push_shown-SameWords zs = push_joined-SameWords [] [] zs (record { same = refl })

module _ (S : Shows) where
  -- The arguments of a check, one by one
  unfoldable pub check_command_line : CheckConfig → List String
  check_command_line cfg =
      check_args_behind S cfg (push (show_data_fee cfg.data_fee) (common_args cfg.common_cfg))

  -- The arguments of a deployment, one by one
  unfoldable pub deploy_command_line : DeployConfig → List String
  unfolding check_command_line
  deploy_command_line cfg =
      deploy_args_behind S cfg (check_command_line cfg.check_config ++ auth_args cfg.auth)

  check_args_behind-SameWords :
      (cfg : CheckConfig) (xs ys : List String)
      → SameWords xs ys
      → SameWords (check_args_behind S cfg xs) (check_args_behind S cfg ys)
  unfolding check_args_behind
  check_args_behind-SameWords cfg xs ys h = search (push_some-SameWords)

  deploy_args_behind-SameWords :
      (cfg : DeployConfig) (xs ys : List String)
      → SameWords xs ys
      → SameWords (deploy_args_behind S cfg xs) (deploy_args_behind S cfg ys)
  unfolding deploy_args_behind
  deploy_args_behind-SameWords cfg xs ys h =
      search
        (push-SameWords, push_if-SameWords, push_some-SameWords, push_constructor_args-SameWords)
        depth 12

  check_command_line-words :
      (cfg : CheckConfig) (xs ys : List String)
      → SameWords xs ys
      → SameWords (push (show_check S cfg) xs) (ys ++ check_command_line cfg)
  unfolding show_check show_common check_command_line
  check_command_line-words cfg xs ys h = trans-SameWords _ _ _ (push_joined-SameWords xs ys _ h) (
      append_left-SameWords ys _ _ (
        check_args_behind-SameWords cfg _ _ (
          push-SameWords (show_data_fee cfg.data_fee)
            (push_shown-SameWords (common_args cfg.common_cfg)))))

  deploy_words :
      (cfg : DeployConfig) → words (show_deploy S cfg) ≡ concat_map words (deploy_command_line cfg)
  unfolding show_deploy deploy_command_line show_auth
  deploy_words cfg =
      words-join _
      ∙ (deploy_args_behind-SameWords cfg _ _ (
          push_joined-SameWords _ _ (auth_args cfg.auth)
            (check_command_line-words cfg.check_config [] [] (record { same = refl })))).same

  -- The words of a deployment that is shown as one text are its arguments exactly when each
  -- argument is a word, not empty and without a space.
  pub deploy_words_iff :
      (cfg : DeployConfig)
      → (words (show_deploy S cfg) ≡ deploy_command_line cfg) ↔ All IsWord (deploy_command_line cfg)
  deploy_words_iff cfg = rw (deploy_words cfg) (words_kept_iff (deploy_command_line cfg))

-- The arguments of a verification, one by one
unfoldable pub verify_command_line : VerifyConfig → List String
verify_command_line cfg = verify_args_behind cfg (common_args cfg.common_cfg)

verify_words :
    (cfg : VerifyConfig) → words (show_verify cfg) ≡ concat_map words (verify_command_line cfg)
unfolding show_verify show_common verify_command_line verify_args_behind
verify_words cfg =
    words-join _
    ∙ (push_some-SameWords "--cargo-stylus-version=" cfg.cargo_stylus_version (
        push_if-SameWords cfg.no_verify "--no-verify" (
          push-SameWords ("--deployment-tx=" <> cfg.deployment_tx)
            (push_shown-SameWords (common_args cfg.common_cfg))))).same

-- The words of a shown verification are its arguments exactly when each argument is a word.
pub verify_words_iff :
    (cfg : VerifyConfig)
    → (words (show_verify cfg) ≡ verify_command_line cfg) ↔ All IsWord (verify_command_line cfg)
verify_words_iff cfg = rw (verify_words cfg) (words_kept_iff (verify_command_line cfg))
