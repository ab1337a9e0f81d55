-- ===== src/Build/Docker/Policy.antt =====
-- The images that docker has after `manage_docker_image` of .devkit/scripts/docker/build.py.
use encrypted_zone_sdk.Base.{
  ℕ, ◌≡◌, refl, ap, ◌∙◌, Bool, true, false, some, List, [], ◌∷◌, arith, Bool-cases, Option-cases,
  inl, inr, eqb,
}
use encrypted_zone_sdk.Base.Text.{Text, codes}
use encrypted_zone_sdk.Build.Docker.{
  Docker, World, End, return, called_process_error, file_not_found_error, exit_with, Request,
  Action, Command, docker, and_then, run_checked, check_if_image_exists_locally,
  check_if_image_exists_in_remote_registry, pull_image_from_registry, push_image_to_registry,
  docker_build_cmd, build_image, stays_local, build_requested, unless_no_cache, after_remote_check,
  when_shared, after_local_check, manage_docker_image_body, handle, manage_docker_image,
}

-- What is known of docker: which images are there, and which commands bring them there.
pub record IsLawful (d : Docker) (has : d.State → Text → Bool) : Type 0 where
  -- `docker image inspect` succeeds only for an image that is there, and changes nothing.
  pub inspect_sound :
      (s : d.State) (tag : Text)
      → (d.run s (docker (codes "image" ∷ codes "inspect" ∷ tag ∷ []))).0 ≡ some 0
      → has (d.run s (docker (codes "image" ∷ codes "inspect" ∷ tag ∷ []))).1 tag ≡ true
  pub pull_sound :
      (s : d.State) (tag : Text)
      → (d.run s (docker (codes "pull" ∷ tag ∷ []))).0 ≡ some 0
      → has (d.run s (docker (codes "pull" ∷ tag ∷ []))).1 tag ≡ true
  pub build_sound :
      (s : d.State) (tag path context : Text) (args : List Text) (no_cache : Bool)
      (command : Command)
      → docker_build_cmd tag path args context no_cache ≡ some command
      → (d.run s command).0 ≡ some 0
      → has (d.run s command).1 tag ≡ true
  -- A push leaves the local images alone, whether it succeeds or not.
  pub push_keeps :
      (s : d.State) (tag : Text)
      → has (d.run s (docker (codes "push" ∷ tag ∷ []))).1 tag ≡ has s tag

eqb→eq : (n : ℕ) → eqb n 0 ≡ true → n ≡ 0
eqb→eq n h = ground arith

module _ {d : Docker} (P : World d → Type 0) {A : Type 0} where
  -- `P` holds where the action returns.
  abbrev pub OnReturn : End A × World d → Type 0
  OnReturn (return a, w) = P w
  OnReturn (called_process_error n, w) = Unit
  OnReturn (file_not_found_error, w) = Unit
  OnReturn (exit_with n, w) = Unit

module _ (d : Docker) (has : d.State → Text → Bool) (lawful : IsLawful d has) (tag : Text) where
  abbrev Has : World d → Type 0
  Has w = has (w.state) tag ≡ true

  run_checked-OnReturn :
      (command : Command) (w : World d)
      → ((d.run (w.state) command).0 ≡ some 0 → has (d.run (w.state) command).1 tag ≡ true)
      → OnReturn Has (run_checked d command w)
  unfolding run_checked
  run_checked-OnReturn command w sound = elim (Option-cases (d.run (w.state) command).0) [
    | inl gone ↦ rw gone tt
    | inr (n, e) ↦ elim (Bool-cases (eqb n 0)) [
      | inl zero_status ↦
          rw e (rw zero_status (sound (e ∙ ap (λ (k : ℕ). some k) (eqb→eq n zero_status))))
      | inr failed ↦ rw e (rw failed tt)
    ]
  ]

  build_image-OnReturn :
      (path context : Text) (args : List Text) (no_cache : Bool) (w : World d)
      → OnReturn Has (build_image d tag path args context no_cache w)
  unfolding build_image
  build_image-OnReturn path context args no_cache w =
      elim (Option-cases (docker_build_cmd tag path args context no_cache)) [
        | inl broken ↦ rw (broken, build_image) tt
        | inr (command, e) ↦
            rw (e, build_image)
              (run_checked-OnReturn command w
                (lawful.build_sound (w.state) tag path context args no_cache command e))
      ]

  push-OnReturn : (w : World d) → Has w → OnReturn Has (push_image_to_registry d tag w)
  unfolding push_image_to_registry
  push-OnReturn w h = elim (Option-cases (d.run (w.state) (docker (codes "push" ∷ tag ∷ []))).0) [
    | inl gone ↦ rw gone tt
    | inr (n, e) ↦ rw e (lawful.push_keeps (w.state) tag ∙ h)
  ]

  and_then-OnReturn :
      {B : Type 0} (Q : World d → Type 0) (r : End B) (f : B → Action d (Unit {0})) (w : World d)
      → ((b : B) → r ≡ return b → OnReturn Q (f b w))
      → OnReturn Q (and_then r f w)
  and_then-OnReturn Q (return b) f w h = h b refl
  and_then-OnReturn Q (called_process_error n) f w h = tt
  and_then-OnReturn Q file_not_found_error f w h = tt
  and_then-OnReturn Q (exit_with n) f w h = tt

  and_push-OnReturn :
      (r : End (Unit {0})) (w : World d)
      → OnReturn Has (r, w)
      → OnReturn Has (and_then r (λ _. push_image_to_registry d tag) w)
  and_push-OnReturn (return a) w h = push-OnReturn w h
  and_push-OnReturn (called_process_error n) w h = tt
  and_push-OnReturn file_not_found_error w h = tt
  and_push-OnReturn (exit_with n) w h = tt

  -- A check that says yes is right.
  abbrev Truthful : End Bool × World d → Type 0
  Truthful (return true, w) = Has w
  Truthful (return false, w) = Unit
  Truthful (called_process_error n, w) = Unit
  Truthful (file_not_found_error, w) = Unit
  Truthful (exit_with n, w) = Unit

  check_locally-Truthful : (w : World d) → Truthful (check_if_image_exists_locally d tag w)
  unfolding check_if_image_exists_locally
  check_locally-Truthful w =
      elim (Option-cases
        (d.run (w.state) (docker (codes "image" ∷ codes "inspect" ∷ tag ∷ []))).0) [
          | inl gone ↦ rw gone tt
          | inr (n, e) ↦ elim (Bool-cases (eqb n 0)) [
            | inl there ↦ rw e (
                rw there (
                  lawful.inspect_sound (w.state) tag (e ∙ ap (λ (k : ℕ). some k) (eqb→eq n there))))
            | inr absent ↦ rw e (rw absent tt)
          ]
        ]

module _ (d : Docker) (has : d.State → Text → Bool) (lawful : IsLawful d has) (r : Request) where
  abbrev There : World d → Type 0
  There w = has (w.state) (r.tag) ≡ true

  build_requested-There : (w : World d) → OnReturn There (build_requested d r w)
  unfolding build_requested
  build_requested-There w =
      build_image-OnReturn d has lawful (r.tag) (r.dockerfile_path) (r.context_path)
        (r.build_args_list) (r.no_cache) w

  after_remote_check-There :
      (remote : Bool) (w : World d) → OnReturn There (after_remote_check d r remote w)
  unfolding after_remote_check pull_image_from_registry
  after_remote_check-There true w =
      run_checked-OnReturn d has lawful (r.tag) (docker (codes "pull" ∷ r.tag ∷ [])) w
        (lawful.pull_sound (w.state) (r.tag))
  after_remote_check-There false w =
      and_push-OnReturn d has lawful (r.tag) (build_requested d r w).0 (build_requested d r w).1
        (build_requested-There w)

  when_shared-There : (local : Bool) (w : World d) → OnReturn There (when_shared d r local w)
  unfolding when_shared
  when_shared-There true w = build_requested-There w
  when_shared-There false w =
      let check =
        unless_no_cache d r (r.no_cache) (check_if_image_exists_in_remote_registry d (r.tag)) in
      and_then-OnReturn d has lawful (r.tag) There (check w).0 (after_remote_check d r) (check w).1
        (λ b _. after_remote_check-There b (check w).1)

  and_after_local_check-There :
      (e : End Bool) (w : World d)
      → Truthful d has lawful (r.tag) (e, w)
      → OnReturn There (and_then e (after_local_check d r) w)
  unfolding after_local_check
  and_after_local_check-There (return true) w h = h
  and_after_local_check-There (return false) w h = when_shared-There (stays_local r) w
  and_after_local_check-There (called_process_error n) w h = tt
  and_after_local_check-There file_not_found_error w h = tt
  and_after_local_check-There (exit_with n) w h = tt

  unless_no_cache-Truthful :
      (no_cache : Bool) (w : World d)
      → Truthful d has lawful
          (r.tag)
          (unless_no_cache d r no_cache (check_if_image_exists_locally d (r.tag)) w)
  unfolding unless_no_cache
  unless_no_cache-Truthful true w = tt
  unless_no_cache-Truthful false w = check_locally-Truthful d has lawful (r.tag) w

  handle-There :
      (e : End (Unit {0})) (w : World d)
      → OnReturn There (e, w)
      → OnReturn There (handle {d = d} (e, w))
  unfolding handle
  handle-There (return a) w h = h
  handle-There (called_process_error n) w h = tt
  handle-There file_not_found_error w h = tt
  handle-There (exit_with n) w h = tt

  -- If docker keeps the laws of `IsLawful`, then the image is there whenever `manage_docker_image`
  -- returns, be it that it was there, was pulled or was built.
  pub manage_docker_image-There : (w : World d) → OnReturn There (manage_docker_image d r w)
  unfolding manage_docker_image manage_docker_image_body
  manage_docker_image-There w =
      let check = unless_no_cache d r (r.no_cache) (check_if_image_exists_locally d (r.tag)) w in
      let body = and_then check.0 (after_local_check d r) check.1 in
      handle-There body.0 body.1
        (and_after_local_check-There check.0 check.1 (unless_no_cache-Truthful (r.no_cache) w))
