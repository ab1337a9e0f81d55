-- ===== src/Tests/BuildDriver.antt =====
-- `main` of .devkit/scripts/docker/build.py at concrete inputs.
use mathlib.Core.Option.{some-injective}
use encrypted_zone_sdk.Base.{
  ◌≡◌, refl, ◌⊎◌, subst, inl, inr, true, false, some, List, [], ◌∷◌, ◌++◌, arith, contains, text_eq,
  Option-cases,
}
use encrypted_zone_sdk.Base.Dict.{Dict}
use encrypted_zone_sdk.Build.Driver.Returning.{IsWilling, build_images-Returns}
use encrypted_zone_sdk.Base.Result.{ok}
use encrypted_zone_sdk.Base.Text.{Text, codes}
use encrypted_zone_sdk.Build.Tags.{
  Tagged, Builder, calculate_deps, tag_from, calculate_tag_for_image, find_dockerfile,
}
use encrypted_zone_sdk.Build.Docker.{
  return, exit_with, Request, docker_build_cmd, build_arg_options, run_checked, manage_docker_image,
  handle, manage_docker_image_body, unless_no_cache, check_if_image_exists_locally,
  after_local_check, when_shared, build_requested, build_image,
}
use encrypted_zone_sdk.Build.Request.{prepare}
use encrypted_zone_sdk.Build.Request.Orderly.{Orderly}
use encrypted_zone_sdk.Build.Driver.{Outcome, build_images, Args, printed, main}
use encrypted_zone_sdk.Build.Driver.Keeps.{IsKeeping}
use encrypted_zone_sdk.Build.Driver.Images.{Ensures}
use encrypted_zone_sdk.Build.Driver.Main.{
  Refused, Delivered, main-Delivered, version_command, buildx_command, main-invalid_targets,
}
use encrypted_zone_sdk.Tests.DockerBuild.{
  status_of, run_images, toy, toy-IsLawful, no_images, builder,
}

toy-IsKeeping : IsKeeping toy contains
unfolding docker_build_cmd
toy-IsKeeping = record {
  image_inspect = λ s tag u h. h;
  manifest_inspect = λ s tag u h. h;
  pull = λ s tag u h. ground arith;
  push = λ s tag u h. ground arith;
  build = λ s tag path context u args no_cache command e h.
      elim (Option-cases (build_arg_options args)) [
        | inl broken ↦ absurd (let impossible = rw (broken, docker_build_cmd) at e in cc)
        | inr (options, o) ↦
            subst (λ c. contains (run_images s c).1 u ≡ true)
              (some-injective _ _ (rw (o, docker_build_cmd) at e)) (ground arith)
      ];
}

abbrev build_order : Builder → Tagged (List Text)
build_order b = ok (codes "base" ∷ codes "dev" ∷ [])

abbrev dirname : Text → Text
dirname path = codes "d"

abbrev print_dev : Args
print_dev = record {
  target_images = codes "dev" ∷ [];
  print_tag = true;
  local = false;
  no_cache = false;
}

main-Delivered_example :
    Ensures {d = toy}
      (Delivered toy contains toy-IsLawful toy-IsKeeping builder dirname 2 print_dev
        (build_order builder))
      (main toy dirname 2 (return builder) build_order print_dev no_images)
main-Delivered_example =
    main-Delivered toy contains toy-IsLawful toy-IsKeeping builder dirname 2 print_dev build_order
      no_images

printed_tag :
    (main toy dirname 2 (return builder) build_order print_dev no_images).0
    ≡ return (
        printed (codes "devkit/dev:amd64-d/dev.DockerfileBASE=devkit/base:amd64-d/base.Dockerfile"))
unfolding main text_eq run_checked prepare calculate_deps manage_docker_image handle
    manage_docker_image_body unless_no_cache check_if_image_exists_locally after_local_check
    when_shared build_requested build_image docker_build_cmd tag_from
printed_tag = refl

-- The image has another name.
abbrev wrong_target : Args
wrong_target = record print_dev { target_images = codes "dev2" ∷ [] }

wrong_target-Refused : Refused builder.image_configs_map wrong_target
unfolding text_eq
wrong_target-Refused = inl (codes "dev2", refl, refl)

main-invalid_targets_example :
    let (end, v) = main toy dirname 2 (return builder) build_order wrong_target no_images in
    (end ≡ exit_with 1)
    × ((v.log ≡ [] ++ (version_command ∷ []))
        ⊎ (v.log ≡ [] ++ (version_command ∷ buildx_command ∷ [])))
main-invalid_targets_example =
    main-invalid_targets toy builder dirname 2 build_order wrong_target no_images
      wrong_target-Refused

abbrev base_tag : Text
base_tag = codes "devkit/base:amd64-d/base.Dockerfile"

abbrev base_request : Request
base_request = record {
  tag = base_tag;
  dockerfile_path = codes "d/base.Dockerfile";
  build_args_list = [];
  context_path = codes "d";
  local_image_mode = false;
  no_cache = false;
  repo = [];
}

base_prepared :
    prepare builder dirname 2 false false (codes "base") []
    ≡ ok (base_request, (codes "base", base_tag) ∷ [])
unfolding prepare text_eq calculate_tag_for_image calculate_deps tag_from find_dockerfile
base_prepared = refl

abbrev dev_tag : Text
dev_tag = codes "devkit/dev:amd64-d/dev.DockerfileBASE=devkit/base:amd64-d/base.Dockerfile"

abbrev dev_request : Request
dev_request = record base_request {
  tag = dev_tag;
  dockerfile_path = codes "d/dev.Dockerfile";
  build_args_list = codes "BASE" ∷ base_tag ∷ [];
}

abbrev base_tags : Dict Text Text
base_tags = (codes "base", base_tag) ∷ []

abbrev both_tags : Dict Text Text
both_tags = (codes "base", base_tag) ∷ (codes "dev", dev_tag) ∷ []

dev_prepared :
    prepare builder dirname 2 false false (codes "dev") base_tags ≡ ok (dev_request, both_tags)
unfolding prepare text_eq calculate_tag_for_image calculate_deps tag_from find_dockerfile
dev_prepared = refl

toy-IsWilling : IsWilling toy
unfolding docker_build_cmd
toy-IsWilling = record {
  ends = status_of;
  pulls = λ s tag. refl;
  builds = λ s tag path context args no_cache command e.
      elim (Option-cases (build_arg_options args)) [
        | inl broken ↦ absurd (let impossible = rw (broken, docker_build_cmd) at e in cc)
        | inr (options, o) ↦
            subst (λ c. (run_images s c).0 ≡ some 0)
              (some-injective _ _ (rw (o, docker_build_cmd) at e)) refl
      ];
}

builder-Orderly : Orderly builder [] (codes "base" ∷ codes "dev" ∷ [])
unfolding text_eq find_dockerfile
builder-Orderly = (_, _, refl, refl, tt, (_, _, refl, refl, (refl, tt), tt))

build_images-Returns_example :
    (o : Outcome) × ((build_images toy builder dirname 2 print_dev
        (ok (codes "base" ∷ codes "dev" ∷ []))
        no_images).0
      ≡ return o)
build_images-Returns_example =
    build_images-Returns toy toy-IsWilling builder dirname 0 print_dev (codes "dev") []
      (codes "base" ∷ codes "dev" ∷ []) no_images refl builder-Orderly
