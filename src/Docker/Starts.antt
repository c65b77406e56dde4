-- ===== src/Docker/Starts.antt =====
-- The steps of a reproducible command where docker can be started (main/src/docker.rs).
use cargo_stylus.Common.{◌≡◌, ap, ◌∙◌, String, Bool, true, false, some, List, [], ◌∷◌, ◌++◌}
use cargo_stylus.Common.Outcome
use cargo_stylus.Common.Outcome.{ok}
use cargo_stylus.Docker.{
  Invocation, Output, wait_failed, write_failed, no_current_dir, Host, pure, lift, image_name,
  image_found, start, after, image_exists, build_image, create_image, run_in_docker_container,
}
use cargo_stylus.Docker.Steps.{images_call, build_call, run_call, bind_step}

module _ (H : Host) where
  open H use {docker, writes, waits}

  -- Docker can be started: what it answers, whatever the exit statuses are
  module _ (answer : List Invocation → Invocation → Output)
      (runs : (made : List Invocation) (call : Invocation)
        → (docker made call ≡ some (answer made call))
          × (writes made call ≡ true)
          × (waits made call ≡ true)) where
    start_runs :
        (call : Invocation) (calls : List Invocation)
        → start H call calls ≡ (ok (answer calls call), calls ++ call ∷ [])
    unfolding start
    start_runs call calls = rw ((runs calls call).0, start)

    waits_runs :
        (call : Invocation) (calls : List Invocation)
        → after H waits wait_failed call calls ≡ (ok tt, calls)
    unfolding after
    waits_runs call calls = rw ((runs calls call).2)

    writes_runs :
        (call : Invocation) (calls : List Invocation)
        → after H writes write_failed call calls ≡ (ok tt, calls)
    unfolding after
    writes_runs call calls = rw ((runs calls call).1)

    build_image_runs :
        (version channel : String) (calls : List Invocation)
        → build_image H version channel calls ≡ (ok tt, calls ++ build_call version channel ∷ [])
    unfolding build_image build_call
    build_image_runs version channel calls =
        let call = build_call version channel in
        let made = calls ++ call ∷ [] in
        bind_step (start H call) _ calls (answer calls call) made (start_runs call calls)
        ∙ bind_step (after H writes write_failed call) _ made tt made (writes_runs call made)
        ∙ waits_runs call made

    image_exists_runs :
        (image : String) (calls : List Invocation) (found : Bool)
        → image_found (answer calls (images_call image)) ≡ ok found
        → image_exists H image calls ≡ (ok found, calls ++ images_call image ∷ [])
    unfolding image_exists lift
    image_exists_runs image calls found f =
        bind_step (start H (images_call image)) _ calls (answer calls (images_call image)) _
          (start_runs (images_call image) calls)
        ∙ rw f

    pub create_image_runs :
        (version channel : String) (calls : List Invocation) (found : Bool)
        → image_found (answer calls (images_call (image_name version channel))) ≡ ok found
        → (end : List Invocation) × (create_image H version channel calls ≡ (ok tt, end))
    unfolding create_image pure
    create_image_runs version channel calls true f =
        let image = image_name version channel in
        (_, bind_step (image_exists H image) _ calls true _ (image_exists_runs image calls true f))
    create_image_runs version channel calls false f =
        let image = image_name version channel in
        (
          _,
          bind_step (image_exists H image) _ calls false _ (image_exists_runs image calls false f)
              ∙ build_image_runs version channel _,
        )

    pub run_in_docker_container_runs :
        (version channel dir : String) (commands : List String) (calls : List Invocation)
        → H.current_dir ≡ some dir
        → run_in_docker_container H version channel commands calls
          ≡ (ok tt, calls ++ run_call dir version channel commands ∷ [])
    unfolding run_in_docker_container run_call lift
    run_in_docker_container_runs version channel dir commands calls here =
        let call = run_call dir version channel commands in
        bind_step (lift (Outcome.ok_or no_current_dir H.current_dir)) _ calls dir calls
          (ap (λ o. (Outcome.ok_or no_current_dir o, calls)) here)
        ∙ bind_step (start H call) _ calls (answer calls call) _ (start_runs call calls)
        ∙ waits_runs call _
