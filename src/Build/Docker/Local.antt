-- ===== src/Build/Docker/Local.antt =====
-- The commands that `manage_docker_image` of .devkit/scripts/docker/build.py runs.
use mathlib.Core.Option.{some-injective}
use encrypted_zone_sdk.Base.{
  ◌≡◌, refl, ap, sym, ◌∙◌, Bool, true, false, ◌||◌, some, List, [], ◌∷◌, ◌++◌, append_assoc,
  append-nil, arith, All, All-append, Option-cases, inl, inr, eqb, subst, ◌==◌, text_eq,
}
use encrypted_zone_sdk.Base.Text.{Text, codes}
use encrypted_zone_sdk.Build.Docker.{
  Docker, World, End, return, called_process_error, file_not_found_error, exit_with, Request,
  Action, Command, docker, pure, and_then, run_checked, check_if_image_exists_locally,
  docker_build_cmd, build_arg_options, build_image, stays_local, build_requested, unless_no_cache,
  when_shared, after_local_check, end_of, after, checked, manage_docker_image_body, handle,
  manage_docker_image,
}

abbrev pub sub_command : Command → Text
sub_command [] = []
sub_command (c ∷ []) = []
sub_command (c ∷ s ∷ rest) = s

-- `docker manifest`, `docker pull` and `docker push` ask the registry.
pub touches_registry : Command → Bool
touches_registry c =
    sub_command c == codes "manifest"
    || (sub_command c == codes "pull" || sub_command c == codes "push")

-- The commands that were added to the log do not ask the registry.
abbrev pub StaysLocal : {d : Docker} → World d → World d → Type 0
StaysLocal w w' =
    (cs : List Command) × (w'.log ≡ w.log ++ cs) × All (λ c. touches_registry c ≡ false) cs

module _ {d : Docker} where
  StaysLocal-refl : (w : World d) → StaysLocal w w
  StaysLocal-refl w = ([], sym (append-nil (w.log)), tt)

  StaysLocal-trans : (u v w : World d) → StaysLocal u v → StaysLocal v w → StaysLocal u w
  StaysLocal-trans u v w (cs, e, h) (cs', e', h') =
      (cs ++ cs', e' ∙ ap (λ l. l ++ cs') e ∙ append_assoc (u.log) cs cs', All-append _ cs cs' h h')

  and_then-StaysLocal :
      {A B : Type 0} (u : World d) (r : End A) (f : A → Action d B) (w : World d)
      → StaysLocal u w
      → ((a : A) → StaysLocal w (f a w).1)
      → StaysLocal u (and_then r f w).1
  and_then-StaysLocal u (return a) f w h next = StaysLocal-trans u w (f a w).1 h (next a)
  and_then-StaysLocal u (called_process_error n) f w h next = h
  and_then-StaysLocal u file_not_found_error f w h next = h
  and_then-StaysLocal u (exit_with n) f w h next = h

module _ (d : Docker) (r : Request) where
  after-StaysLocal :
      (c : Command) (w : World d) → touches_registry c ≡ false → StaysLocal w (after d c w)
  after-StaysLocal c w h = (c ∷ [], refl, (h, tt))

  run_checked-StaysLocal :
      (c : Command) (w : World d) → touches_registry c ≡ false → StaysLocal w (run_checked d c w).1
  unfolding run_checked
  run_checked-StaysLocal c w h =
      and_then-StaysLocal w (end_of (d.run (w.state) c).0) checked (after d c w)
        (after-StaysLocal c w h) (λ n. StaysLocal-refl (after d c w))

  build_cmd-local :
      (tag path : Text) (args : List Text) (context : Text) (no_cache : Bool) (c : Command)
      → docker_build_cmd tag path args context no_cache ≡ some c
      → touches_registry c ≡ false
  unfolding docker_build_cmd touches_registry text_eq
  build_cmd-local tag path args context no_cache c h =
      elim (Option-cases (build_arg_options args)) [
        | inl broken ↦ ground (arith)
        | inr (options, e) ↦
            let h' = rw (e, docker_build_cmd) at h in
            subst (λ x. touches_registry x ≡ false) (some-injective _ _ h') refl
      ]

  build_requested-StaysLocal : (w : World d) → StaysLocal w (build_requested d r w).1
  unfolding build_requested build_image
  build_requested-StaysLocal w =
      elim (Option-cases (
        docker_build_cmd (r.tag) (r.dockerfile_path) (r.build_args_list) (r.context_path)
          (r.no_cache))) [
            | inl broken ↦ rw (broken, build_image) (StaysLocal-refl w)
            | inr (c, e) ↦
                rw (e, build_image)
                  (run_checked-StaysLocal c w (
                    build_cmd-local (r.tag) (r.dockerfile_path) (r.build_args_list) (r.context_path)
                      (r.no_cache) c e))
          ]

  check-StaysLocal :
      (no_cache : Bool) (w : World d)
      → StaysLocal w (unless_no_cache d r no_cache (check_if_image_exists_locally d (r.tag)) w).1
  unfolding unless_no_cache check_if_image_exists_locally touches_registry text_eq
  check-StaysLocal true w = StaysLocal-refl w
  check-StaysLocal false w =
      let c = docker (codes "image" ∷ codes "inspect" ∷ r.tag ∷ []) in
      and_then-StaysLocal w (end_of (d.run (w.state) c).0) (λ n. pure (eqb n 0)) (after d c w)
        (after-StaysLocal c w refl) (λ n. StaysLocal-refl (after d c w))

  after_local_check-StaysLocal :
      (present : Bool) (w : World d)
      → stays_local r ≡ true
      → StaysLocal w (after_local_check d r present w).1
  unfolding after_local_check when_shared
  after_local_check-StaysLocal true w h = StaysLocal-refl w
  after_local_check-StaysLocal false w h = rw h (build_requested-StaysLocal w)

  handle-world : (x : End (Unit {0})) (w : World d) → (handle {d = d} (x, w)).1 ≡ w
  unfolding handle
  handle-world (return a) w = refl
  handle-world (called_process_error n) w = refl
  handle-world file_not_found_error w = refl
  handle-world (exit_with n) w = refl

  -- With no registry, or in the local mode, `manage_docker_image` runs no command that asks the
  -- registry: it neither looks for the image there, nor pulls it, nor pushes it, on any path.
  pub manage_docker_image-StaysLocal :
      (w : World d) → stays_local r ≡ true → StaysLocal w (manage_docker_image d r w).1
  unfolding manage_docker_image manage_docker_image_body
  manage_docker_image-StaysLocal w h =
      let check = unless_no_cache d r (r.no_cache) (check_if_image_exists_locally d (r.tag)) w in
      let body = and_then check.0 (after_local_check d r) check.1 in
      rw (handle-world body.0 body.1) (
        and_then-StaysLocal w check.0 (after_local_check d r) check.1
          (check-StaysLocal (r.no_cache) w) (λ b. after_local_check-StaysLocal b check.1 h))
