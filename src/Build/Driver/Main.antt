-- ===== src/Build/Driver/Main.antt =====
-- `main` of .devkit/scripts/docker/build.py.
use mathlib.Core.Option.{some-injective}
use encrypted_zone_sdk.Base.{
  arith, ℕ, ◌≡◌, refl, sym, ap, subst, Bool, true, Bool-cases, Option-cases, ◌⊎◌, append_assoc, all,
  contains, length, ◌≢◌, ◌==◌, ==_iff, false, Option, some, List, [], ◌∷◌, ◌++◌, inl, inr, All, eqb,
  text_eq,
}
use encrypted_zone_sdk.Base.Dict.{Dict, keys}
use encrypted_zone_sdk.Base.Result.{ok}
use encrypted_zone_sdk.Base.Text.{Text, codes}
use encrypted_zone_sdk.Build.Tags.{Builder, ImageConfig, Tagged}
use encrypted_zone_sdk.Build.Tags.Content.{TagOf}
use encrypted_zone_sdk.Build.Docker.{
  Docker, World, End, return, called_process_error, file_not_found_error, exit_with, Action, ◌>>◌,
  docker, Command, run_command, run_checked, after,
}
use encrypted_zone_sdk.Build.Docker.Policy.{IsLawful}
use encrypted_zone_sdk.Build.Driver.{
  Outcome, processed, printed, Args, from_tagged, process_images, target_for_tag_print,
  build_images, exit_1_on_failure, check_docker_installed, check_docker_buildx_installed,
  targets_valid, build_if_valid, main,
}
use encrypted_zone_sdk.Build.Driver.Keeps.{IsKeeping}
use encrypted_zone_sdk.Build.Driver.Images.{
  Ensures, bind-Ensures, from_tagged-Ensures, IsBuilt, Built, process_images-Built,
}

module _ (d : Docker) (has : d.State → Text → Bool) (lawful : IsLawful d has)
    (keeping : IsKeeping d has) (b : Builder) (dirname : Text → Text) (depth : ℕ)
    (args : Args) where
  -- What `build_images` leaves behind: all images of the order with their tags, or the one target
  -- with the tag that is printed.
  abbrev pub Delivered : Tagged (List Text) → Outcome → World d → Type 0
  Delivered build_order (processed tags) w =
      (order : List Text) × (build_order ≡ ok order)
      × All (IsBuilt d has lawful keeping b dirname depth args w) order
  Delivered build_order (printed tag) w =
      (name : Text) × (more : List Text) × (args.target_images ≡ name ∷ more)
      × TagOf b name tag
      × (has w.state tag ≡ true)

  Ensures-map :
      {A : Type 0} (Q R : A → World d → Type 0)
      → ((a : A) (v : World d) → Q a v → R a v)
      → (x : End A × World d) → Ensures Q x
      → Ensures R x
  Ensures-map Q R f (return a, v) h = f a v h
  Ensures-map Q R f (called_process_error n, v) h = tt
  Ensures-map Q R f (file_not_found_error, v) h = tt
  Ensures-map Q R f (exit_with n, v) h = tt

  target-Ensures :
      (mode : Bool) (targets : List Text) (w : World d)
      → Ensures
          (λ target v.
            (name : Text) → target ≡ some name → (more : List Text) × (targets ≡ name ∷ more))
          (target_for_tag_print d b dirname depth args mode targets w)
  unfolding target_for_tag_print
  target-Ensures false targets w = λ name h. absurd (cc)
  target-Ensures true [] w = tt
  target-Ensures true (t ∷ ts) w = λ name h. (ts, ap (λ x. x ∷ ts) (some-injective t name h))

  build_images-Delivered :
      (build_order : Tagged (List Text)) (w : World d)
      → Ensures (Delivered build_order) (build_images d b dirname depth args build_order w)
  unfolding build_images
  build_images-Delivered build_order w =
      bind-Ensures (λ order v. (build_order ≡ ok order) × (v ≡ w)) _ (from_tagged build_order) _ w
        (from_tagged-Ensures build_order w)
        (λ order v (e, _).
          bind-Ensures _ _
            (target_for_tag_print d b dirname depth args args.print_tag args.target_images) _ v
            (target-Ensures args.print_tag args.target_images v)
            (λ target u first.
              Ensures-map _ _ (λ o x. delivered order target e first o x)
                (process_images d b dirname depth args target order [] u)
                (process_images-Built d has lawful keeping b dirname depth args target order [] u
                  (λ n t h. absurd (cc)))))
    where
      delivered :
          (order : List Text) (target : Option Text)
          → build_order ≡ ok order
          → ((name : Text)
              → target ≡ some name
              → (more : List Text) × (args.target_images ≡ name ∷ more))
          → (o : Outcome) (x : World d)
          → Built d has lawful keeping b dirname depth args target order o x
          → Delivered build_order o x
      delivered order target e first (processed tags) x h = (order, e, h)
      delivered order target e first (printed tag) x (name, is_target, tagged, there) =
          let (more, targets) = first name is_target in (name, more, targets, tagged, there)

  build_if_valid-Delivered :
      (build_order : Builder → Tagged (List Text)) (w : World d)
      → Ensures (Delivered (build_order b)) (build_if_valid d dirname depth build_order args b w)
  unfolding build_if_valid
  build_if_valid-Delivered build_order w =
      elim (Bool-cases (targets_valid d b.image_configs_map args)) [
        | inl valid ↦ rw (valid, build_if_valid) (build_images-Delivered (build_order b) w)
        | inr invalid ↦ rw (invalid, build_if_valid) tt
      ]

  Ensures-any : {A : Type 0} (x : End A × World d) → Ensures (λ _ _. Unit {0}) x
  Ensures-any (return a, v) = tt
  Ensures-any (called_process_error n, v) = tt
  Ensures-any (file_not_found_error, v) = tt
  Ensures-any (exit_with n, v) = tt

  abbrev checks : Action d (Unit {0})
  checks = check_docker_installed d >> check_docker_buildx_installed d

  -- Where docker's commands do what they say and remove no image: if `main` comes to its end, docker
  -- has all images of the build order with their tags, or the first target with the tag that is
  -- printed.
  pub main-Delivered :
      (build_order : Builder → Tagged (List Text)) (w : World d)
      → Ensures (Delivered (build_order b)) (main d dirname depth (return b) build_order args w)
  unfolding main
  main-Delivered build_order w =
      bind-Ensures (λ c _. c ≡ b) _ (checks >> (λ v. (return b, v)))
        (build_if_valid d dirname depth build_order args) w
        (bind-Ensures (λ _ _. Unit {0}) (λ c _. c ≡ b) checks (λ _ v. (return b, v)) w
          (Ensures-any (checks w)) (λ _ v _. refl))
        (λ c v same.
          subst
            (λ c.
              Ensures (Delivered (build_order b))
                (build_if_valid d dirname depth build_order args c v))
            (sym same) (build_if_valid-Delivered build_order v))

abbrev pub version_command : Command
version_command = docker (codes "--version" ∷ [])

abbrev pub buildx_command : Command
buildx_command = docker (codes "buildx" ∷ codes "version" ∷ [])

-- A check that fails ends the script with status 1.
check-cases :
    (d : Docker) (c : Command) (w : World d)
    → (exit_1_on_failure (run_checked d c w) ≡ (return tt, after d c w))
      ⊎ (exit_1_on_failure (run_checked d c w) ≡ (exit_with 1, after d c w))
unfolding run_checked run_command exit_1_on_failure
check-cases d c w = elim (Option-cases (d.run w.state c).0) [
  | inl gone ↦ inr (rw gone refl)
  | inr (n, e) ↦ elim (Bool-cases (eqb n 0)) [
    | inl zero_status ↦ inl (rw e (rw zero_status refl))
    | inr failed ↦ inr (rw e (rw failed refl))
  ]
]

two_commands :
    (log : List Command)
    → (log ++ (version_command ∷ [])) ++ (buildx_command ∷ [])
      ≡ log ++ (version_command ∷ buildx_command ∷ [])
two_commands log = append_assoc log (version_command ∷ []) (buildx_command ∷ [])

-- A target is no image, or a tag is to be printed for none or several targets.
abbrev pub Refused : Dict Text ImageConfig → Args → Type 0
Refused image_configs_map args =
    ((target : Text) × (contains args.target_images target ≡ true)
      × (contains (keys image_configs_map) target ≡ false))
    ⊎ ((args.print_tag ≡ true) × (length args.target_images ≢ 1))

all-contains :
    (images targets : List Text) (target : Text)
    → contains targets target ≡ true
    → contains images target ≡ false
    → all (contains images) targets ≡ false
all-contains images [] target asked unknown = absurd (cc)
all-contains images (t ∷ ts) target asked unknown = elim (Bool-cases (target == t)) [
  | inl same ↦ rw (sym ((==_iff target t).0 same), unknown) refl
  | inr other ↦ ground (arith, other, asked, all-contains images ts target)
]

targets_valid-printed :
    (d : Docker) (image_configs_map : Dict Text ImageConfig) (args : Args) (targets : List Text)
    → args.print_tag ≡ true
    → args.target_images ≡ targets
    → Refused image_configs_map args
    → targets_valid d image_configs_map args ≡ false
unfolding targets_valid
targets_valid-printed d m args [] on same refused = rw (on, targets_valid) (rw same refl)
targets_valid-printed d m args (t ∷ u ∷ ts) on same refused = rw (on, targets_valid) (rw same refl)
targets_valid-printed d m args (t ∷ []) on same (inr (_, several)) = absurd (several (rw same refl))
targets_valid-printed d m args (t ∷ []) on same (inl (target, asked, unknown)) =
    rw (on, targets_valid) (rw same (only_target target (rw same at asked) unknown))
  where
    only_target :
        (target : Text)
        → contains (t ∷ []) target ≡ true
        → contains (keys m) target ≡ false
        → contains (keys m) t ≡ false
    only_target target asked unknown = elim (Bool-cases (target == t)) [
      | inl equal ↦ rw (sym ((==_iff target t).0 equal)) unknown
      | inr other ↦ absurd (ground arith)
    ]

targets_valid-Refused :
    (d : Docker) (image_configs_map : Dict Text ImageConfig) (args : Args)
    → Refused image_configs_map args
    → targets_valid d image_configs_map args ≡ false
unfolding targets_valid
targets_valid-Refused d m args refused = elim (Bool-cases args.print_tag) [
  | inl on ↦ targets_valid-printed d m args args.target_images on refl refused
  | inr off ↦ elim refused [
    | inl (target, asked, unknown) ↦
        rw (off, targets_valid) (all-contains (keys m) args.target_images target asked unknown)
    | inr (on, several) ↦ absurd (cc)
  ]
]

-- If a target is no image, or a tag is to be printed for none or several targets, `main` ends with
-- status 1, and no command was run but the checks of the docker installation.
pub main-invalid_targets :
    (d : Docker) (b : Builder) (dirname : Text → Text) (depth : ℕ)
    (build_order : Builder → Tagged (List Text)) (args : Args) (w : World d)
    → Refused b.image_configs_map args
    → let (end, v) = main d dirname depth (return b) build_order args w in
      (end ≡ exit_with 1)
      × ((v.log ≡ w.log ++ (version_command ∷ []))
          ⊎ (v.log ≡ w.log ++ (version_command ∷ buildx_command ∷ [])))
unfolding main check_docker_installed check_docker_buildx_installed
main-invalid_targets d b dirname depth build_order args w refused =
    let invalid = targets_valid-Refused d b.image_configs_map args refused in
    elim (check-cases d version_command w) [
      | inr missing ↦ rw (missing, main) (refl, inl refl)
      | inl installed ↦ elim (check-cases d buildx_command (after d version_command w)) [
        | inr missing ↦ rw (installed, main) (rw (missing, main) (refl, inr (two_commands w.log)))
        | inl there ↦
            rw (installed, main)
              (rw (there, main) (rw (invalid, build_if_valid) (refl, inr (two_commands w.log))))
      ]
    ]
