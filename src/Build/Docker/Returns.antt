-- ===== src/Build/Docker/Returns.antt =====
-- When `manage_docker_image` of .devkit/scripts/docker/build.py returns.
use encrypted_zone_sdk.Base.{ℕ, ◌≡◌, refl, sym, subst, Bool, true, false, some, [], ◌∷◌, eqb}
use encrypted_zone_sdk.Base.Text.{codes}
use encrypted_zone_sdk.Build.Docker.{
  Docker, World, End, return, Request, Action, Command, docker, and_then, run_command, run_checked,
  check_if_image_exists_locally, check_if_image_exists_in_remote_registry, pull_image_from_registry,
  push_image_to_registry, docker_build_cmd, build_image, build_requested, unless_no_cache,
  after_remote_check, when_shared, after_local_check, stays_local, manage_docker_image_body, handle,
  manage_docker_image,
}

-- Docker is installed: each command ends with an exit status. Pulls and builds succeed.
pub record IsObliging (d : Docker) (r : Request) : Type 0 where
  pub ends : (s : d.State) (c : Command) → (n : ℕ) × ((d.run s c).0 ≡ some n)
  pub pulls : (s : d.State) → (d.run s (docker (codes "pull" ∷ r.tag ∷ []))).0 ≡ some 0
  pub command : Command
  pub is_command :
      docker_build_cmd r.tag r.dockerfile_path r.build_args_list r.context_path r.no_cache
      ≡ some command
  pub builds : (s : d.State) → (d.run s command).0 ≡ some 0

module _ (d : Docker) (r : Request) (obliging : IsObliging d r) where
  Returns : {A : Type 0} → End A × World d → Type 0
  Returns {A} x = (a : A) × (x.0 ≡ return a)

  and_then-Returns :
      {A B : Type 0} (x : End A) (f : A → Action d B) (w : World d)
      → Returns (x, w)
      → ((a : A) → Returns (f a w))
      → Returns (and_then x f w)
  unfolding Returns
  and_then-Returns x f w (a, e) next = subst (λ y. Returns (and_then y f w)) (sym e) (next a)

  run_command-Returns : (c : Command) (w : World d) → Returns (run_command d c w)
  unfolding Returns run_command
  run_command-Returns c w = let (n, e) = obliging.ends (w.state) c in (n, rw e refl)

  run_checked-Returns :
      (c : Command) (w : World d) → (d.run (w.state) c).0 ≡ some 0 → Returns (run_checked d c w)
  unfolding Returns run_checked run_command
  run_checked-Returns c w e = (tt, rw e refl)

  unless_no_cache-Returns :
      (no_cache : Bool) (check : Action d Bool) (w : World d)
      → Returns (check w)
      → Returns (unless_no_cache d r no_cache check w)
  unfolding Returns unless_no_cache
  unless_no_cache-Returns true check w h = (false, refl)
  unless_no_cache-Returns false check w h = h

  build_requested-Returns : (w : World d) → Returns (build_requested d r w)
  unfolding build_requested build_image
  build_requested-Returns w =
      rw (obliging.is_command, build_image)
        (run_checked-Returns obliging.command w (obliging.builds (w.state)))

  check-Returns :
      (c : Command) (w : World d)
      → Returns
          (and_then (run_command d c w).0 (λ n v. (return (eqb n 0), v)) (run_command d c w).1)
  unfolding Returns
  check-Returns c w =
      and_then-Returns (run_command d c w).0 (λ n v. (return (eqb n 0), v)) (run_command d c w).1
        (run_command-Returns c w) (λ n. (eqb n 0, refl))

  after_remote_check-Returns :
      (remote : Bool) (w : World d) → Returns (after_remote_check d r remote w)
  unfolding after_remote_check pull_image_from_registry push_image_to_registry Returns
  after_remote_check-Returns true w =
      run_checked-Returns (docker (codes "pull" ∷ r.tag ∷ [])) w (obliging.pulls (w.state))
  after_remote_check-Returns false w =
      let built = build_requested d r w in
      let push = docker (codes "push" ∷ r.tag ∷ []) in
      and_then-Returns built.0 (λ _. push_image_to_registry d r.tag) built.1
        (build_requested-Returns w)
        (λ _.
          and_then-Returns (run_command d push built.1).0 (λ n v. (return tt, v))
            (run_command d push built.1).1 (run_command-Returns push built.1) (λ n. (tt, refl)))

  when_shared-Returns : (local : Bool) (w : World d) → Returns (when_shared d r local w)
  unfolding when_shared check_if_image_exists_in_remote_registry
  when_shared-Returns true w = build_requested-Returns w
  when_shared-Returns false w =
      let check =
        unless_no_cache d r r.no_cache (check_if_image_exists_in_remote_registry d r.tag) in
      and_then-Returns (check w).0 (after_remote_check d r) (check w).1
        (unless_no_cache-Returns r.no_cache (check_if_image_exists_in_remote_registry d r.tag) w
          (check-Returns (docker (codes "manifest" ∷ codes "inspect" ∷ r.tag ∷ [])) w))
        (λ b. after_remote_check-Returns b (check w).1)

  after_local_check-Returns :
      (present : Bool) (w : World d) → Returns (after_local_check d r present w)
  unfolding after_local_check Returns
  after_local_check-Returns true w = (tt, refl)
  after_local_check-Returns false w = when_shared-Returns (stays_local r) w

  handle-Returns :
      (x : End (Unit {0})) (w : World d) → Returns (x, w) → (handle {d = d} (x, w)).0 ≡ return tt
  unfolding handle Returns
  handle-Returns x w (a, e) = subst (λ y. (handle {d = d} (y, w)).0 ≡ return tt) (sym e) refl

  -- If docker ends each command with an exit status, pulls the image and builds it successfully,
  -- then `manage_docker_image` returns, whether the image is there or not, whatever the checks say
  -- and even if the push fails.
  pub manage_docker_image-returns : (w : World d) → (manage_docker_image d r w).0 ≡ return tt
  unfolding manage_docker_image manage_docker_image_body handle check_if_image_exists_locally
      Returns
  manage_docker_image-returns w =
      let check = unless_no_cache d r r.no_cache (check_if_image_exists_locally d r.tag) in
      let body = and_then (check w).0 (after_local_check d r) (check w).1 in
      handle-Returns body.0 body.1 (
        and_then-Returns (check w).0 (after_local_check d r) (check w).1
          (unless_no_cache-Returns r.no_cache (check_if_image_exists_locally d r.tag) w
            (check-Returns (docker (codes "image" ∷ codes "inspect" ∷ r.tag ∷ [])) w))
          (λ b. after_local_check-Returns b (check w).1))
