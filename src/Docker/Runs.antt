-- ===== src/Docker/Runs.antt =====
-- What a reproducible command runs (`run_reproducible`, main/src/docker.rs).
use mathlib.Core.List.{append_assoc}
use cargo_stylus.Common.{
  ◌≡◌, refl, ap, ◌∙◌, String, ℕ, Bool, true, Option, none, some, arith, List, [], ◌∷◌, ◌++◌, ◌↔◌,
  inl, inr, ◌⊎◌,
}
use cargo_stylus.Common.Outcome.{Outcome, ok, err, panic, out_of_fuel}
use cargo_stylus.Project.Toolchain.{Value, TomlError, extract_toolchain_channel}
use cargo_stylus.Docker.{
  Invocation, Output, Failure, Host, continue, ◌>>=◌, lift, image_name, image_found,
  verify_valid_host, create_image, run_in_docker_container, version_or_own, toolchain_channel,
  run_reproducible,
}
use cargo_stylus.Docker.Steps.{
  images_call, build_call, run_call, build_calls, bind_ok, bind_step, lift_ok, create_image_ok,
  run_in_docker_container_ok,
}
use cargo_stylus.Docker.Hosts.{
  IsSupported, IsRefused, verify_valid_host_iff, IsRefused-verify_valid_host,
}
use cargo_stylus.Docker.Images.{HasTwoLines, image_found_ok}
use cargo_stylus.Docker.Calls.{
  image_for, ask_for, build_with, run_in, build_call-build_with, run_call-run_in,
}
use cargo_stylus.Docker.Starts.{create_image_runs, run_in_docker_container_runs}

module _ (H : Host) where
  open H use {docker, writes, waits}

  module _ (own_version : String) (beyond : ℕ → Bool) (from_str : String → Option Value) where
    -- The version that is given, or that of this tool
    abbrev pub IsVersion : (given : Option String) → (version : String) → Type 0
    IsVersion given version = (given ≡ some version) ⊎ (given ≡ none) × (version ≡ own_version)

    -- What a run that succeeds has called: docker is asked for the image of the version and the
    -- channel, which is built if it is not there, and the command is run in it.
    pub record Ran (given : Option String) (commands : List String) (calls end : List Invocation)
        : Type 0 where
      pub version : String
      pub channel : String
      pub dir : String
      pub found : Bool
      pub output : Output
      pub supported : IsSupported H.os_type H.os_release
      pub version_is : IsVersion given version
      pub channel_is : extract_toolchain_channel beyond from_str H.toolchain_file ≡ ok channel
      pub dir_is : H.current_dir ≡ some dir
      pub asked : docker calls (ask_for (image_for version channel)) ≡ some output
      pub answered : (output.success ≡ true) × ((found ≡ true) ↔ HasTwoLines output.stdout)
      pub called :
          end
          ≡ calls
            ++ ask_for (image_for version channel)
              ∷ (build_calls found (build_with version channel)
                  ++ run_in dir version channel ("cargo" ∷ "stylus" ∷ commands) ∷ [])

    version_or_own-IsVersion :
        (given : Option String)
        → IsVersion given (version_or_own H own_version beyond from_str given)
    unfolding version_or_own
    version_or_own-IsVersion none = inr (refl, refl)
    version_or_own-IsVersion (some version) = inl refl

    toolchain_channel_ok :
        (channel : String)
        → toolchain_channel H own_version beyond from_str ≡ ok channel
        → extract_toolchain_channel beyond from_str H.toolchain_file ≡ ok channel
    unfolding toolchain_channel
    toolchain_channel_ok channel h =
        of (extract_toolchain_channel beyond from_str H.toolchain_file) h
      where
        of :
            (found : Outcome TomlError String)
            → ◌≡◌ {A = Outcome Failure String}
                (elim found [
                  | ok channel ↦ ok channel
                  | err e ↦ err (Failure.toolchain e)
                  | panic ↦ panic
                  | out_of_fuel ↦ out_of_fuel
                ])
                (ok channel)
            → found ≡ ok channel
        of (ok c) h = ground arith
        of (err e) h = absurd (ground arith)
        of panic h = absurd (ground arith)
        of out_of_fuel h = absurd (ground arith)

    toolchain_channel_err :
        (e : TomlError)
        → extract_toolchain_channel beyond from_str H.toolchain_file ≡ err e
        → toolchain_channel H own_version beyond from_str ≡ err (Failure.toolchain e)
    unfolding toolchain_channel
    toolchain_channel_err e h = rw (h, toolchain_channel) refl

    asked_for :
        (version channel : String) (calls : List Invocation) (output : Output)
        → docker calls (images_call (image_name version channel)) ≡ some output
        → docker calls (ask_for (image_for version channel)) ≡ some output
    unfolding image_name
    asked_for version channel calls output h = h

    called_with :
        (version channel dir : String) (commands : List String) (found : Bool)
        (calls end : List Invocation)
        → end
          ≡ calls
            ++ images_call (image_name version channel)
              ∷ (build_calls found (build_call version channel)
                  ++ run_call dir version channel commands ∷ [])
        → end
          ≡ calls
            ++ ask_for (image_for version channel)
              ∷ (build_calls found (build_with version channel)
                  ++ run_in dir version channel commands ∷ [])
    unfolding image_name
    called_with version channel dir commands found calls end h =
        rw (build_call-build_with version channel, run_call-run_in dir version channel commands) at
          h

    pub run_reproducible-Ran :
        (version : Option String) (commands : List String) (calls end : List Invocation)
        → run_reproducible H own_version beyond from_str version commands calls ≡ (ok tt, end)
        → Ran version commands calls end
    unfolding run_reproducible
    run_reproducible-Ran version commands calls end h =
        let v = version_or_own H own_version beyond from_str version in
        let runs = λ (channel : String).
          run_in_docker_container H v channel ("cargo" ∷ "stylus" ∷ commands) in
        let creates = λ (channel : String). create_image H v channel >>= λ _. runs channel in
        let rest = lift (toolchain_channel H own_version beyond from_str) >>= creates in
        let (u1, mid1, s1, h1) =
          bind_ok (lift (verify_valid_host H.os_type H.os_release)) (λ _. rest) calls tt end h in
        let (valid, e1) = lift_ok H (verify_valid_host H.os_type H.os_release) calls mid1 u1 s1 in
        let (channel, mid2, s2, h2) =
          bind_ok (lift (toolchain_channel H own_version beyond from_str)) creates mid1 tt end h1 in
        let (is, e2) =
          lift_ok H (toolchain_channel H own_version beyond from_str) mid1 mid2 channel s2 in
        let (u3, mid3, s3, h3) =
          bind_ok (create_image H v channel) (λ _. runs channel) mid2 tt end h2 in
        let same : mid2 ≡ calls = e2 ∙ e1 in
        let (o, found, d, f, e3) = create_image_ok H v channel calls mid3 u3 (rw same at s3) in
        let (dir, here, e4) =
          run_in_docker_container_ok H v channel ("cargo" ∷ "stylus" ∷ commands) mid3 end tt h3 in
        record {
          version = v;
          channel = channel;
          dir = dir;
          found = found;
          output = o;
          supported = (verify_valid_host_iff H.os_type H.os_release).0 valid;
          version_is = version_or_own-IsVersion version;
          channel_is = toolchain_channel_ok channel is;
          dir_is = here;
          asked = asked_for v channel calls o d;
          answered = image_found_ok o.success o.stdout o.stderr found f;
          called = called_with v channel dir ("cargo" ∷ "stylus" ∷ commands) found calls end (
              e4
              ∙ ap (λ t. t ++ run_call dir v channel ("cargo" ∷ "stylus" ∷ commands) ∷ []) e3
              ∙ append_assoc calls _ _);
        }

    -- On a host whose system is not known, on Windows with an unknown kernel or with one in whose
    -- version neither `microsoft` nor `WSL` occurs, and on a supported host where no channel is
    -- read from the toolchain file, the command ends in the error for this, and docker is not
    -- called. A host is supported if its system is known and either is not Windows or has a kernel
    -- in whose version one of the two occurs.
    pub run_reproducible_refused :
        (version : Option String) (commands : List String) (calls : List Invocation) (e : Failure)
        → IsRefused H.os_type H.os_release e
          ⊎ (why : TomlError) × IsSupported H.os_type H.os_release
            × (extract_toolchain_channel beyond from_str H.toolchain_file ≡ err why)
            × (e ≡ Failure.toolchain why)
        → run_reproducible H own_version beyond from_str version commands calls ≡ (err e, calls)
    unfolding run_reproducible ◌>>=◌ continue lift
    run_reproducible_refused version commands calls e (inl h) =
        rw (IsRefused-verify_valid_host H.os_type H.os_release e h)
    run_reproducible_refused version commands calls e (inr (why, h, k, same)) =
        rw ((verify_valid_host_iff H.os_type H.os_release).1 h, toolchain_channel_err why k, same)

    -- Where docker can be started, and answers whether there is an image, the command ends well,
    -- whatever the exit statuses of the build and of the command in the container are.
    pub run_reproducible_runs :
        (answer : List Invocation → Invocation → Output)
        (runs : (made : List Invocation) (call : Invocation)
          → (docker made call ≡ some (answer made call))
            × (writes made call ≡ true)
            × (waits made call ≡ true))
        (version : Option String) (commands : List String) (calls : List Invocation)
        (channel dir : String) (found : Bool)
        → verify_valid_host H.os_type H.os_release ≡ ok tt
        → toolchain_channel H own_version beyond from_str ≡ ok channel
        → H.current_dir ≡ some dir
        → image_found (
            answer calls (
              images_call
                (image_name (version_or_own H own_version beyond from_str version) channel)))
          ≡ ok found
        → (run_reproducible H own_version beyond from_str version commands calls).0 ≡ ok tt
    unfolding run_reproducible lift
    run_reproducible_runs answer runs version commands calls channel dir found valid is here f =
        let v = version_or_own H own_version beyond from_str version in
        let (mid, e) = create_image_runs H answer runs v channel calls found f in
        ap (λ r. r.0)
          (bind_step (lift (verify_valid_host H.os_type H.os_release)) _ calls tt calls
              (ap (λ o. (o, calls)) valid)
            ∙ bind_step (lift (toolchain_channel H own_version beyond from_str)) _ calls channel
                calls (ap (λ o. (o, calls)) is)
            ∙ bind_step (create_image H v channel) _ calls tt mid e
            ∙ run_in_docker_container_runs H answer runs v channel dir
                ("cargo" ∷ "stylus" ∷ commands) mid here)
