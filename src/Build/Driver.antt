-- ===== src/Build/Driver.antt =====
-- `build_images`, the checks of the docker installation and `main` of
-- .devkit/scripts/docker/build.py. An exception that is not caught ends Python with status 1.
pub mod Keeps
pub mod Images
pub mod Main
pub mod Returning
use encrypted_zone_sdk.Base.{
  ℕ, Bool, true, false, ◌&&◌, Option, none, some, List, [], ◌∷◌, ◌==◌, contains, all, if◌then◌else◌,
  text_eq,
}
use encrypted_zone_sdk.Base.Dict.{Dict, keys}
use encrypted_zone_sdk.Base.Result.{Result, ok, raise}
use encrypted_zone_sdk.Base.Text.{Text, codes}
use encrypted_zone_sdk.Build.Tags.{ImageConfig, Builder, Tagged}
use encrypted_zone_sdk.Build.Docker.{
  Docker, World, End, return, called_process_error, file_not_found_error, exit_with, Action, ◌>>=◌,
  ◌>>◌, pure, docker, run_checked, Request, manage_docker_image,
}
use encrypted_zone_sdk.Build.Request.{prepare}

-- What ends `build_images`: all images are processed, or the tag of the target was printed.
pub data Outcome : Type 0 where
  processed : Dict Text Text → Outcome
  printed : Text → Outcome

-- The arguments of the command line.
pub record Args : Type 0 where
  pub target_images : List Text
  pub print_tag : Bool
  pub local : Bool
  pub no_cache : Bool

abbrev pub exit_1 : {d : Docker} {A : Type 0} → Action d A
exit_1 w = (exit_with 1, w)

abbrev pub from_tagged : {d : Docker} {A : Type 0} → Tagged A → Action d A
from_tagged (ok a) = pure a
from_tagged (raise e) = exit_1

-- `print_tag_mode and image_name == target_image_for_tag_print`
abbrev pub is_printed : Option Text → Text → Bool
is_printed none image_name = false
is_printed (some target) image_name = image_name == target

-- `except (subprocess.CalledProcessError, FileNotFoundError)`
unfoldable pub exit_1_on_failure :
    {d : Docker} → End (Unit {0}) × World d → End (Unit {0}) × World d
exit_1_on_failure (return a, w) = (return a, w)
exit_1_on_failure (exit_with n, w) = (exit_with n, w)
exit_1_on_failure (called_process_error n, w) = (exit_with 1, w)
exit_1_on_failure (file_not_found_error, w) = (exit_with 1, w)

module _ (d : Docker) where
  unfoldable pub check_docker_installed : Action d (Unit {0})
  unfolding exit_1_on_failure
  check_docker_installed w = exit_1_on_failure (run_checked d (docker (codes "--version" ∷ [])) w)

  unfoldable pub check_docker_buildx_installed : Action d (Unit {0})
  unfolding exit_1_on_failure
  check_docker_buildx_installed w =
      exit_1_on_failure (run_checked d (docker (codes "buildx" ∷ codes "version" ∷ [])) w)

  module _ (b : Builder) (dirname : Text → Text) (depth : ℕ) (args : Args) where
    -- The body of the loop: the tag, and `generated_tags` afterwards.
    unfoldable pub process_image : Text → Dict Text Text → Action d (Text × Dict Text Text)
    process_image image_name generated_tags =
        from_tagged (prepare b dirname depth args.no_cache args.local image_name generated_tags)
        >>= λ (r, tags). manage_docker_image d r >> pure (r.tag, tags)

    unfoldable pub process_images : Option Text → List Text → Dict Text Text → Action d Outcome
    unfolding process_image
    process_images target [] generated_tags = pure (processed generated_tags)
    process_images target (image_name ∷ images_to_process) generated_tags =
        process_image image_name generated_tags >>= λ (tag, tags).
        elim (is_printed target image_name) [
          | true ↦ pure (printed tag)
          | false ↦ process_images target images_to_process tags
        ]

    -- `target_images[0] if print_tag_mode else None`, where the list may be empty.
    unfoldable pub target_for_tag_print : Bool → List Text → Action d (Option Text)
    target_for_tag_print false targets = pure none
    target_for_tag_print true [] = exit_1
    target_for_tag_print true (target ∷ targets) = pure (some target)

    -- `build_order` is what `get_build_order` returns.
    unfoldable pub build_images : Tagged (List Text) → Action d Outcome
    unfolding process_images target_for_tag_print
    build_images build_order = from_tagged build_order >>= λ images_to_process.
        target_for_tag_print args.print_tag args.target_images >>= λ target.
        process_images target images_to_process []

  -- The checks of `main` on the targets.
  unfoldable pub targets_valid : Dict Text ImageConfig → Args → Bool
  targets_valid image_configs_map args = elim args.print_tag [
    | false ↦ all (contains (keys image_configs_map)) args.target_images
    | true ↦ elim args.target_images [
      | [] ↦ false
      | target ∷ [] ↦ contains (keys image_configs_map) target
      | target ∷ other ∷ more ↦ false
    ]
  ]

  -- What `main` does with the builder.
  unfoldable pub build_if_valid :
      (Text → Text) → ℕ → (Builder → Tagged (List Text)) → Args → Builder → Action d Outcome
  unfolding targets_valid build_images
  build_if_valid dirname depth build_order args b = elim (targets_valid b.image_configs_map args) [
    | false ↦ exit_1
    | true ↦ build_images b dirname depth args (build_order b)
  ]

  -- `main`; `made` is what making the `DockerBuilder` gives.
  unfoldable pub main :
      (Text → Text) → ℕ → End Builder → (Builder → Tagged (List Text)) → Args → Action d Outcome
  unfolding check_docker_installed check_docker_buildx_installed build_if_valid
  main dirname depth made build_order args =
      check_docker_installed
      >> check_docker_buildx_installed
      >> (λ w. (made, w))
      >>= build_if_valid dirname depth build_order args
