-- ===== src/Build/Driver/Keeps.antt =====
-- What the commands of `manage_docker_image` of .devkit/scripts/docker/build.py do to other images.
use encrypted_zone_sdk.Base.{
  ◌≡◌, Bool, true, false, Option-cases, some, List, [], ◌∷◌, inl, inr, eqb,
}
use encrypted_zone_sdk.Base.Text.{Text, codes}
use encrypted_zone_sdk.Build.Docker.{
  Docker, World, End, return, called_process_error, file_not_found_error, exit_with, Action,
  and_then, ◌>>=◌, pure, docker, Command, run_command, run_checked, checked,
  check_if_image_exists_locally, check_if_image_exists_in_remote_registry, pull_image_from_registry,
  push_image_to_registry, docker_build_cmd, build_image, Request, stays_local, build_requested,
  unless_no_cache, after_remote_check, when_shared, after_local_check, manage_docker_image_body,
  handle, manage_docker_image,
}

-- The commands that the script runs remove no image.
pub record IsKeeping (d : Docker) (has : d.State → Text → Bool) : Type 0 where
  pub image_inspect :
      (s : d.State) (tag u : Text)
      → has s u ≡ true
      → has (d.run s (docker (codes "image" ∷ codes "inspect" ∷ tag ∷ []))).1 u ≡ true
  pub manifest_inspect :
      (s : d.State) (tag u : Text)
      → has s u ≡ true
      → has (d.run s (docker (codes "manifest" ∷ codes "inspect" ∷ tag ∷ []))).1 u ≡ true
  pub pull :
      (s : d.State) (tag u : Text)
      → has s u ≡ true
      → has (d.run s (docker (codes "pull" ∷ tag ∷ []))).1 u ≡ true
  pub push :
      (s : d.State) (tag u : Text)
      → has s u ≡ true
      → has (d.run s (docker (codes "push" ∷ tag ∷ []))).1 u ≡ true
  pub build :
      (s : d.State) (tag path context u : Text) (args : List Text) (no_cache : Bool)
      (command : Command)
      → docker_build_cmd tag path args context no_cache ≡ some command
      → has s u ≡ true
      → has (d.run s command).1 u ≡ true

module _ (d : Docker) (P : World d → Type 0) where
  abbrev pub Preserves : {A : Type 0} → Action d A → Type 0
  Preserves m = (w : World d) → P w → P (m w).1

  pub bind-Preserves :
      {A B : Type 0} (m : Action d A) (f : A → Action d B)
      → Preserves m
      → ((a : A) → Preserves (f a))
      → Preserves (m >>= f)
  bind-Preserves {A} {B} m f first next w h = and_then-keeps (m w).0 (m w).1 (first w h)
    where
      and_then-keeps : (r : End A) (v : World d) → P v → P (and_then r f v).1
      and_then-keeps (return a) v p = next a v p
      and_then-keeps (called_process_error n) v p = p
      and_then-keeps file_not_found_error v p = p
      and_then-keeps (exit_with n) v p = p

module _ (d : Docker) (has : d.State → Text → Bool) (keeping : IsKeeping d has) (u : Text) where
  abbrev pub Has : World d → Type 0
  Has w = has w.state u ≡ true

  abbrev pub Keeps : {A : Type 0} → Action d A → Type 0
  Keeps = Preserves d Has

  run_command-Keeps :
      (c : Command)
      → ((s : d.State) → has s u ≡ true → has (d.run s c).1 u ≡ true)
      → Keeps (run_command d c)
  unfolding run_command
  run_command-Keeps c law w h = law w.state h

  run_checked-Keeps :
      (c : Command)
      → ((s : d.State) → has s u ≡ true → has (d.run s c).1 u ≡ true)
      → Keeps (run_checked d c)
  unfolding run_checked
  run_checked-Keeps c law =
      bind-Preserves d Has (run_command d c) checked (run_command-Keeps c law) (λ n w h. h)

  module _ (r : Request) where
    build_requested-Keeps : Keeps (build_requested d r)
    unfolding build_requested build_image
    build_requested-Keeps =
        elim (Option-cases
          (docker_build_cmd r.tag r.dockerfile_path r.build_args_list r.context_path r.no_cache)) [
            | inl broken ↦ λ w h. rw (broken, build_image) h
            | inr (c, e) ↦ λ w h.
                rw (e, build_image)
                  (run_checked-Keeps c
                    (λ s.
                      keeping.build s r.tag r.dockerfile_path r.context_path u r.build_args_list
                        r.no_cache c e)
                    w h)
          ]

    unless_no_cache-Keeps :
        (no_cache : Bool) (check : Action d Bool)
        → Keeps check
        → Keeps (unless_no_cache d r no_cache check)
    unfolding unless_no_cache
    unless_no_cache-Keeps true check h = λ w p. p
    unless_no_cache-Keeps false check h = h

    after_remote_check-Keeps : (present : Bool) → Keeps (after_remote_check d r present)
    unfolding after_remote_check pull_image_from_registry push_image_to_registry
    after_remote_check-Keeps true = run_checked-Keeps _ (λ s. keeping.pull s r.tag u)
    after_remote_check-Keeps false =
        bind-Preserves d Has (build_requested d r) (λ _. push_image_to_registry d r.tag)
          build_requested-Keeps
          (λ _.
            bind-Preserves d Has (run_command d (docker (codes "push" ∷ r.tag ∷ []))) (λ n. pure tt)
              (run_command-Keeps _ (λ s. keeping.push s r.tag u)) (λ n w h. h))

    when_shared-Keeps : (local : Bool) → Keeps (when_shared d r local)
    unfolding when_shared check_if_image_exists_in_remote_registry
    when_shared-Keeps true = build_requested-Keeps
    when_shared-Keeps false =
        bind-Preserves d Has
          (unless_no_cache d r r.no_cache (check_if_image_exists_in_remote_registry d r.tag))
          (after_remote_check d r)
          (unless_no_cache-Keeps r.no_cache _ (
            bind-Preserves d Has
              (run_command d (docker (codes "manifest" ∷ codes "inspect" ∷ r.tag ∷ [])))
              (λ n. pure (eqb n 0)) (run_command-Keeps _ (λ s. keeping.manifest_inspect s r.tag u))
              (λ n w h. h)))
          after_remote_check-Keeps

    after_local_check-Keeps : (present : Bool) → Keeps (after_local_check d r present)
    unfolding after_local_check
    after_local_check-Keeps true = λ w h. h
    after_local_check-Keeps false = when_shared-Keeps (stays_local r)

    handle-Keeps : (x : End (Unit {0}) × World d) → Has x.1 → Has (handle x).1
    unfolding handle
    handle-Keeps (return a, w) h = h
    handle-Keeps (called_process_error n, w) h = h
    handle-Keeps (file_not_found_error, w) h = h
    handle-Keeps (exit_with n, w) h = h

    body-Keeps : Keeps (manage_docker_image_body d r)
    unfolding manage_docker_image_body check_if_image_exists_locally
    body-Keeps =
        bind-Preserves d Has
          (unless_no_cache d r r.no_cache (check_if_image_exists_locally d r.tag))
          (after_local_check d r)
          (unless_no_cache-Keeps r.no_cache _ (
            bind-Preserves d Has
              (run_command d (docker (codes "image" ∷ codes "inspect" ∷ r.tag ∷ [])))
              (λ n. pure (eqb n 0)) (run_command-Keeps _ (λ s. keeping.image_inspect s r.tag u))
              (λ n w h. h)))
          after_local_check-Keeps

    pub manage_docker_image-Keeps : Keeps (manage_docker_image d r)
    unfolding manage_docker_image
    manage_docker_image-Keeps w h = handle-Keeps (manage_docker_image_body d r w) (body-Keeps w h)
