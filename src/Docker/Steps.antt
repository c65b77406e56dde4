-- ===== src/Docker/Steps.antt =====
-- What the steps of a reproducible command have called when they succeed (main/src/docker.rs).
use mathlib.Core.List.{append_assoc}
use cargo_stylus.Common.{
  ◌≡◌, refl, sym, ap, ◌∙◌, String, Bool, true, false, some, List, [], ◌∷◌, ◌++◌, if◌then◌else◌,
  arith,
}
use cargo_stylus.Common.Outcome
use cargo_stylus.Common.Outcome.{Outcome, ok, err, panic, out_of_fuel, ok_or-eq-ok}
use cargo_stylus.Docker.{
  Invocation, Output, Failure, wait_failed, write_failed, no_current_dir, Host, Shell, continue,
  ◌>>=◌, pure, lift, image_name, image_found, build_args, dockerfile, run_args, start, after,
  image_exists, build_image, create_image, run_in_docker_container,
}

abbrev pub images_call : String → Invocation
images_call image = record { args = "images" ∷ image ∷ []; input = "" }

unfoldable pub build_call : String → String → Invocation
build_call version channel = record {
  args = build_args (image_name version channel);
  input = dockerfile version channel;
}

unfoldable pub run_call : String → String → String → List String → Invocation
run_call dir version channel commands = record {
  args = run_args dir (image_name version channel) commands;
  input = "";
}

-- An image that is not there is built.
abbrev pub build_calls : Bool → Invocation → List Invocation
build_calls found call = if found then [] else call ∷ []

continue-ok :
    {A B : Type 0} (r : Outcome Failure A) (calls : List Invocation) (f : A → Shell B) (b : B)
    (end : List Invocation)
    → continue r calls f ≡ (ok b, end)
    → (a : A) × (r ≡ ok a) × (f a calls ≡ (ok b, end))
unfolding continue
continue-ok (ok a) calls f b end h = (a, refl, h)
continue-ok (err e) calls f b end h = absurd (ground arith)
continue-ok panic calls f b end h = absurd (ground arith)
continue-ok out_of_fuel calls f b end h = absurd (ground arith)

-- What a run that succeeds has done: its first part succeeded, then the rest did.
pub bind_ok :
    {A B : Type 0} (m : Shell A) (f : A → Shell B) (before : List Invocation) (b : B)
    (end : List Invocation)
    → (m >>= f) before ≡ (ok b, end)
    → (a : A) × (mid : List Invocation) × (m before ≡ (ok a, mid)) × (f a mid ≡ (ok b, end))
unfolding ◌>>=◌
bind_ok m f before b end h =
    let (a, e, k) = continue-ok (m before).0 (m before).1 f b end h in (a, (m before).1, cc e, k)

-- A first part that succeeds
pub bind_step :
    {A B : Type 0} (m : Shell A) (f : A → Shell B) (before : List Invocation) (a : A)
    (mid : List Invocation)
    → m before ≡ (ok a, mid)
    → (m >>= f) before ≡ f a mid
unfolding ◌>>=◌ continue
bind_step m f before a mid e = ap (λ r. continue r.0 r.1 f) e

module _ (H : Host) where
  open H use {docker, writes, waits}

  start_ok :
      (call : Invocation) (calls : List Invocation) (o : Output) (end : List Invocation)
      → start H call calls ≡ (ok o, end)
      → (docker calls call ≡ some o) × (end ≡ calls ++ call ∷ [])
  unfolding start
  start_ok call calls o end h = ground arith

  after_ok :
      (test : List Invocation → Invocation → Bool) (e : Failure) (call : Invocation)
      (calls end : List Invocation) (u : Unit {0})
      → after H test e call calls ≡ (ok u, end)
      → end ≡ calls
  unfolding after
  after_ok test e call calls end u h = ground arith

  pub lift_ok :
      {A : Type 0} (m : Outcome Failure A) (calls end : List Invocation) (a : A)
      → lift m calls ≡ (ok a, end)
      → (m ≡ ok a) × (end ≡ calls)
  unfolding lift
  lift_ok m calls end a h = (ap (λ r. r.0) h, sym (ap (λ r. r.1) h))

  image_exists_ok :
      (image : String) (calls end : List Invocation) (found : Bool)
      → image_exists H image calls ≡ (ok found, end)
      → (o : Output) × (docker calls (images_call image) ≡ some o)
        × (image_found o ≡ ok found)
        × (end ≡ calls ++ images_call image ∷ [])
  unfolding image_exists
  image_exists_ok image calls end found h =
      let (o, mid, s, l) =
        bind_ok (start H (images_call image)) (λ o. lift (image_found o)) calls found end h in
      let (d, e) = start_ok (images_call image) calls o mid s in
      let (f, e') = lift_ok (image_found o) mid end found l in (o, d, f, e' ∙ e)

  build_image_ok :
      (version channel : String) (calls end : List Invocation) (u : Unit {0})
      → build_image H version channel calls ≡ (ok u, end)
      → end ≡ calls ++ build_call version channel ∷ []
  unfolding build_image build_call
  build_image_ok version channel calls end u h =
      let call = build_call version channel in
      let rest = after H waits wait_failed call in
      let (o, mid, s, l) =
        bind_ok (start H call) (λ o. after H writes write_failed call >>= λ _. rest) calls u end
          h in
      let (v, mid', w, k) = bind_ok (after H writes write_failed call) (λ _. rest) mid u end l in
      after_ok waits wait_failed call mid' end u k
      ∙ after_ok writes write_failed call mid mid' v w
      ∙ (start_ok call calls o mid s).1

  pub create_image_ok :
      (version channel : String) (calls end : List Invocation) (u : Unit {0})
      → create_image H version channel calls ≡ (ok u, end)
      → (o : Output) × (found : Bool) × (docker calls (images_call (image_name version channel))
          ≡ some o)
        × (image_found o ≡ ok found)
        × (end
            ≡ calls
              ++ images_call (image_name version channel)
                ∷ build_calls found (build_call version channel))
  unfolding create_image pure
  create_image_ok version channel calls end u h =
      let image = image_name version channel in
      let (found, mid, s, l) =
        bind_ok (image_exists H image)
          (λ found. if found then pure tt else build_image H version channel) calls u end h in
      let (o, d, f, e) = image_exists_ok image calls mid found s in
      (o, found, d, f, built found mid end u e l)
    where
      built :
          (found : Bool) (mid end : List Invocation) (u : Unit {0})
          → mid ≡ calls ++ images_call (image_name version channel) ∷ []
          → (if found then pure tt else build_image H version channel) mid ≡ (ok u, end)
          → end
            ≡ calls
              ++ images_call (image_name version channel)
                ∷ build_calls found (build_call version channel)
      built true mid end u e l = sym (ap (λ r. r.1) l) ∙ e
      built false mid end u e l =
          build_image_ok version channel mid end u l
          ∙ ap (λ t. t ++ build_call version channel ∷ []) e
          ∙ append_assoc calls (images_call (image_name version channel) ∷ []) _

  pub run_in_docker_container_ok :
      (version channel : String) (commands : List String) (calls end : List Invocation)
      (u : Unit {0})
      → run_in_docker_container H version channel commands calls ≡ (ok u, end)
      → (dir : String) × (H.current_dir ≡ some dir)
        × (end ≡ calls ++ run_call dir version channel commands ∷ [])
  unfolding run_in_docker_container run_call
  run_in_docker_container_ok version channel commands calls end u h =
      let call = λ (dir : String). run_call dir version channel commands in
      let rest =
        λ (dir : String). start H (call dir) >>= λ _. after H waits wait_failed (call dir) in
      let (dir, mid, s, l) =
        bind_ok (lift (Outcome.ok_or no_current_dir H.current_dir)) rest calls u end h in
      let (f, e) = lift_ok (Outcome.ok_or no_current_dir H.current_dir) calls mid dir s in
      let (o, mid', t, k) =
        bind_ok (start H (call dir)) (λ _. after H waits wait_failed (call dir)) mid u end l in
      (
        dir,
        ok_or-eq-ok no_current_dir H.current_dir dir f,
        after_ok waits wait_failed (call dir) mid' end u k
            ∙ (start_ok (call dir) mid o mid' t).1
            ∙ ap (λ t. t ++ call dir ∷ []) e,
      )
