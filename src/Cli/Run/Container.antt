-- ===== src/Cli/Run/Container.antt =====
-- What a deployment or a verification without `--no-verify` runs (`main_impl`, main/src/main.rs,
-- with main/src/docker.rs).
use cargo_stylus.Common.{
  ℕ, ◌≡◌, String, Bool, false, Option, none, some, List, ◌∷◌, All, if◌then◌else◌, Bool-cases, inl,
  inr, arith, ap, ◌∙◌, sym,
}
use cargo_stylus.Common.Outcome.{ok}
use cargo_stylus.Project.Toolchain.{Value}
use cargo_stylus.Docker.{Invocation, Host, Shell}
use cargo_stylus.Docker
use cargo_stylus.Docker.Runs.{Ran, run_reproducible-Ran}
use cargo_stylus.Cli.Config.{DeployConfig, VerifyConfig, Apis}
use cargo_stylus.Cli.Words.{words, IsWord}
use cargo_stylus.Cli.Display.{Shows, show_deploy, show_verify}
use cargo_stylus.Cli.Display.Kept.{
  deploy_command_line, deploy_words_iff, verify_command_line, verify_words_iff,
}
use cargo_stylus.Cli.Run.{Routines, run_deploy, run_verify, main_impl}

-- The subcommands that run in a container, with their versions and arguments
unfoldable pub in_container : Shows → Apis → Option (Option String × List String)
in_container S (Apis.deploy config) =
    if config.no_verify
    then none
    else some (config.cargo_stylus_version, "deploy" ∷ "--no-verify" ∷ deploy_command_line S config)
in_container S (Apis.verify config) =
    if config.no_verify
    then none
    else some (config.cargo_stylus_version, "verify" ∷ "--no-verify" ∷ verify_command_line config)
in_container S _ = none

module _ {R : Type 0} (S : Shows) (routines : Routines R) (wrap_err : String → R → R) where
  run_deploy-in_container :
      (config : DeployConfig)
      → config.no_verify ≡ false
      → All IsWord (deploy_command_line S config)
      → run_deploy S routines wrap_err config
        ≡ wrap_err "failed reproducible run" (
            routines.run_reproducible config.cargo_stylus_version
              ("deploy" ∷ "--no-verify" ∷ deploy_command_line S config))
  unfolding run_deploy
  run_deploy-in_container config n w =
      ap
        (λ (b : Bool).
          if b
          then wrap_err "stylus deploy failed" (routines.deploy config)
          else wrap_err "failed reproducible run" (
              routines.run_reproducible config.cargo_stylus_version
                ("deploy" ∷ "--no-verify" ∷ words (show_deploy S config))))
        n
      ∙ ap
          (λ (line : List String). wrap_err "failed reproducible run" (
            routines.run_reproducible config.cargo_stylus_version
              ("deploy" ∷ "--no-verify" ∷ line)))
          ((deploy_words_iff S config).1 w)

  run_verify-in_container :
      (config : VerifyConfig)
      → config.no_verify ≡ false
      → All IsWord (verify_command_line config)
      → run_verify S routines wrap_err config
        ≡ wrap_err "failed reproducible run" (
            routines.run_reproducible config.cargo_stylus_version
              ("verify" ∷ "--no-verify" ∷ verify_command_line config))
  unfolding run_verify
  run_verify-in_container config n w =
      ap
        (λ (b : Bool).
          if b
          then wrap_err "failed to verify" (routines.verify config)
          else wrap_err "failed reproducible run" (
              routines.run_reproducible config.cargo_stylus_version
                ("verify" ∷ "--no-verify" ∷ words (show_verify config))))
        n
      ∙ ap
          (λ (line : List String). wrap_err "failed reproducible run" (
            routines.run_reproducible config.cargo_stylus_version
              ("verify" ∷ "--no-verify" ∷ line)))
          ((verify_words_iff config).1 w)

  -- A deployment or a verification without `--no-verify` whose arguments are words, without spaces
  -- and not empty, hands the container its command line, argument by argument, with `--no-verify`
  -- in front.
  pub main_impl-in_container :
      (api : Apis) (version : Option String) (command_line : List String)
      → in_container S api ≡ some (version, command_line)
      → All IsWord command_line
      → main_impl S routines wrap_err api
        ≡ wrap_err "failed reproducible run" (routines.run_reproducible version command_line)
  unfolding main_impl in_container
  main_impl-in_container (Apis.deploy config) version command_line h w =
      elim (Bool-cases config.no_verify) [
        | inl n ↦ absurd (ground (arith, n))
        | inr n ↦
            let same : ◌≡◌ {A = Option String × List String}
                (
                  config.cargo_stylus_version,
                  "deploy" ∷ "--no-verify" ∷ deploy_command_line S config,
                )
                (version, command_line) =
              cc (rw n at h) in
            let line = ap (λ r. r.1) same in
            run_deploy-in_container config n ((rw (← line) at w).1.1)
            ∙ ap
                (λ (r : Option String × List String).
                  wrap_err "failed reproducible run" (routines.run_reproducible r.0 r.1))
                same
      ]
  main_impl-in_container (Apis.verify config) version command_line h w =
      elim (Bool-cases config.no_verify) [
        | inl n ↦ absurd (ground (arith, n))
        | inr n ↦
            let same : ◌≡◌ {A = Option String × List String}
                (config.cargo_stylus_version, "verify" ∷ "--no-verify" ∷ verify_command_line config)
                (version, command_line) =
              cc (rw n at h) in
            let line = ap (λ r. r.1) same in
            run_verify-in_container config n ((rw (← line) at w).1.1)
            ∙ ap
                (λ (r : Option String × List String).
                  wrap_err "failed reproducible run" (routines.run_reproducible r.0 r.1))
                same
      ]
  main_impl-in_container _ version command_line h w = absurd (ground arith)

-- With the container of main/src/docker.rs: a command that succeeds has run docker as `Ran` says.
module _ (S : Shows) (wrap_err : String → Shell (Unit {0}) → Shell (Unit {0}))
    (wrap_err_ok : (message : String) (m : Shell (Unit {0})) (calls end : List Invocation)
      → wrap_err message m calls ≡ (ok tt, end)
      → m calls ≡ (ok tt, end))
    (H : Host) (own_version : String) (beyond : ℕ → Bool) (from_str : String → Option Value) where
  -- A deployment or a verification in a container that succeeds, and whose arguments are words,
  -- was on a host that is supported (not Windows, or with `microsoft` or `WSL` in the version of
  -- its kernel), with a toolchain file that a channel is read from. It has asked docker for the
  -- image `cargo-stylus-base-<version>-toolchain-<channel>`, of the version that is asked for or
  -- else the tool's own; if the answer, which docker gave with
  -- success, did not have two lines, it has built that image, from the
  -- Dockerfile that is written out in `build_with`; and it has run `cargo stylus` in the image,
  -- with the command line behind it and the current directory mounted as `/source`. It has called
  -- docker for nothing else.
  pub main_impl-Ran :
      (routines : Routines (Shell (Unit {0}))) (api : Apis) (version : Option String)
      (command_line : List String) (calls end : List Invocation)
      → routines.run_reproducible ≡ Docker.run_reproducible H own_version beyond from_str
      → in_container S api ≡ some (version, command_line)
      → All IsWord command_line
      → main_impl S routines wrap_err api calls ≡ (ok tt, end)
      → Ran H own_version beyond from_str version command_line calls end
  main_impl-Ran routines api version command_line calls end r h w e =
      let same = main_impl-in_container S routines wrap_err api version command_line h w in
      let ran = ap (λ (m : Shell (Unit {0})). m calls) same in
      run_reproducible-Ran H own_version beyond from_str version command_line calls end
        (rw r at (wrap_err_ok "failed reproducible run" _ calls end (sym ran ∙ e)))
