-- ===== src/Tests/DockerBuild.antt =====
-- .devkit/scripts/docker/build.py at concrete inputs.
use mathlib.Core.Option.{some-injective}
use encrypted_zone_sdk.Base.{
  ℕ, ◌<◌, ◌≡◌, refl, subst, inl, inr, Bool, true, false, Option, some, List, [], ◌∷◌, ◌++◌, arith,
  All, contains, text_eq, if◌then◌else◌, ◌==◌, Option-cases, Bool-cases,
}
use encrypted_zone_sdk.Base.Dict.{lookup}
use encrypted_zone_sdk.Base.Result.{ok}
use encrypted_zone_sdk.Base.Text.{Text, codes}
use encrypted_zone_sdk.Build.Docker.{
  return, Docker, World, Command, Request, docker_build_cmd, build_arg_options, manage_docker_image,
}
use encrypted_zone_sdk.Build.Docker.Policy.{IsLawful, OnReturn, manage_docker_image-There}
use encrypted_zone_sdk.Build.Docker.Returns.{IsObliging, manage_docker_image-returns}
use encrypted_zone_sdk.Build.Docker.Local.{StaysLocal, manage_docker_image-StaysLocal}
use encrypted_zone_sdk.Build.Tags.{
  Builder, ImageConfig, find_dockerfile, tag_from, calculate_deps, calculate_tag_for_image,
  calculate_tags,
}
use encrypted_zone_sdk.Build.Tags.Content.{IsCorrect, AllTags, calculate_tags-AllTags}
use encrypted_zone_sdk.Build.Tags.Total.{IsBuildable}

-- A docker that keeps the tags of its images, and whose registry lacks none of them.
abbrev pub run_images : List Text → Command → Option ℕ × List Text
run_images images [] = (some 1, images)
run_images images (a ∷ []) = (some 1, images)
run_images images (a ∷ b ∷ []) = (some 0, images)
run_images images (a ∷ b ∷ c ∷ []) = (some 0, if b == codes "pull" then c ∷ images else images)
run_images images (a ∷ b ∷ c ∷ d ∷ []) = (if contains images d then some 0 else some 1, images)
run_images images (a ∷ b ∷ c ∷ d ∷ e ∷ rest) = (some 0, e ∷ images)

abbrev pub toy : Docker
toy = record { State = List Text; run = run_images }

pub toy-IsLawful : IsLawful toy contains
unfolding docker_build_cmd text_eq
toy-IsLawful = record {
  inspect_sound = λ s tag h. elim (Bool-cases (contains s tag)) [
    | inl there ↦ there
    | inr missing ↦ absurd (ground arith)
  ];
  pull_sound = λ s tag h. ground arith;
  build_sound = λ s tag path context args no_cache command e h.
      elim (Option-cases (build_arg_options args)) [
        | inl broken ↦ ground arith
        | inr (options, o) ↦
            subst (λ c. contains (run_images s c).1 tag ≡ true)
              (some-injective _ _ (rw (o, docker_build_cmd) at e)) (ground arith)
      ];
  push_keeps = λ s tag. refl;
}

abbrev a_request : Request
a_request = record {
  tag = codes "r/devkit/dev:amd64-1";
  dockerfile_path = codes "dev.Dockerfile";
  build_args_list = codes "BASE" ∷ codes "debian" ∷ [];
  context_path = codes ".";
  local_image_mode = false;
  no_cache = false;
  repo = codes "r";
}

abbrev pub no_images : World toy
no_images = record { state = []; log = [] }

-- The image is built and pushed.
manage_docker_image-There_example :
    OnReturn {d = toy}
      (λ w. contains (w.state) (codes "r/devkit/dev:amd64-1") ≡ true)
      (manage_docker_image toy a_request no_images)
manage_docker_image-There_example =
    manage_docker_image-There toy contains toy-IsLawful a_request no_images

pub status_of : (images : List Text) (c : Command) → (n : ℕ) × ((run_images images c).0 ≡ some n)
status_of images [] = (1, refl)
status_of images (a ∷ []) = (1, refl)
status_of images (a ∷ b ∷ []) = (0, refl)
status_of images (a ∷ b ∷ c ∷ []) = (0, refl)
status_of images (a ∷ b ∷ c ∷ d ∷ []) = (if contains images d then 0 else 1, ground arith)
status_of images (a ∷ b ∷ c ∷ d ∷ e ∷ rest) = (0, refl)

toy-IsObliging : IsObliging toy a_request
unfolding docker_build_cmd
toy-IsObliging = record {
  ends = status_of;
  pulls = λ s. refl;
  command =
      codes "docker"
      ∷ codes "buildx"
      ∷ codes "build"
      ∷ codes "--tag"
      ∷ codes "r/devkit/dev:amd64-1"
      ∷ codes "--file"
      ∷ codes "dev.Dockerfile"
      ∷ codes "--build-arg"
      ∷ codes "BASE=debian"
      ∷ codes "."
      ∷ [];
  is_command = refl;
  builds = λ s. refl;
}

manage_docker_image-returns_example : (manage_docker_image toy a_request no_images).0 ≡ return tt
manage_docker_image-returns_example =
    manage_docker_image-returns toy a_request toy-IsObliging no_images

abbrev local_request : Request
local_request = record a_request { repo = [] }

manage_docker_image-StaysLocal_example :
    StaysLocal no_images (manage_docker_image toy local_request no_images).1
manage_docker_image-StaysLocal_example =
    manage_docker_image-StaysLocal toy local_request no_images refl

-- An image `dev` on an image `base`.
abbrev pub builder : Builder
builder = record {
  registry = record { repo = []; namespace = codes "devkit" };
  arch = codes "amd64";
  extra = record { extra_packages_map = []; extra_keys_map = []; extra_repositories_map = [] };
  image_configs_map =
      (codes "base", record { deps = []; local = false })
      ∷ (codes "dev", record { deps = (codes "BASE", codes "base") ∷ []; local = false })
      ∷ [];
  search_paths = codes "d" ∷ [];
  exists = λ path. true;
  realpath = λ path. path;
  read_bytes = λ path. path;
  encode = λ text. text;
  sha256 = λ bytes. bytes;
}

abbrev both : List Text
both = codes "base" ∷ codes "dev" ∷ []

abbrev pub conf_of : Text → ImageConfig
conf_of name = record {
  deps = if name == codes "dev" then (codes "BASE", codes "base") ∷ [] else [];
  local = false;
}

abbrev rank : Text → ℕ
rank name = if name == codes "dev" then 1 else 0

abbrev Known : Text → Type 0
Known name = contains both name ≡ true

-- Whether or not an image is `dev`.
below_of :
    (b : Bool)
    → All
        (λ (_, dep). rank dep < (if b then 1 else 0))
        (if b then (codes "BASE", codes "base") ∷ [] else [])
unfolding text_eq
below_of true = (omega arith, tt)
below_of false = tt

Known-of :
    (b : Bool) → All (λ (_, dep). Known dep) (if b then (codes "BASE", codes "base") ∷ [] else [])
unfolding text_eq
Known-of true = (refl, tt)
Known-of false = tt

pub dockerfile_of :
    (name : Text)
    → find_dockerfile builder name ≡ some (codes "d/" ++ (name ++ codes ".Dockerfile"))
unfolding find_dockerfile
dockerfile_of name = refl

pub configured_of :
    (name : Text) → Known name → lookup name builder.image_configs_map ≡ some (conf_of name)
configured_of name known = ground arith

abbrev buildable : (name : Text) → Known name → IsBuildable builder rank name
buildable name known = record {
  conf = conf_of name;
  path = codes "d/" ++ (name ++ codes ".Dockerfile");
  configured = configured_of name known;
  has_dockerfile = dockerfile_of name;
  deps_below = below_of (name == codes "dev");
}

both-Known : All Known both
unfolding text_eq
both-Known = (refl, (refl, tt))

both-rank : All (λ name. rank name < 2) both
unfolding text_eq
both-rank = (omega arith, (omega arith, tt))

-- The hash of a text is the text.
abbrev base_tag : Text
base_tag = codes "devkit/base:amd64-d/base.Dockerfile"

abbrev dev_tag : Text
dev_tag = codes "devkit/dev:amd64-d/dev.DockerfileBASE=" ++ base_tag

two_tags :
    calculate_tags builder 2 both []
    ≡ ok (base_tag ∷ dev_tag ∷ [], (codes "base", base_tag) ∷ (codes "dev", dev_tag) ∷ [])
unfolding calculate_tags text_eq calculate_tag_for_image find_dockerfile calculate_deps tag_from
two_tags = refl

calculate_tags-AllTags_example :
    AllTags builder both (base_tag ∷ dev_tag ∷ [])
    × IsCorrect builder ((codes "base", base_tag) ∷ (codes "dev", dev_tag) ∷ [])
calculate_tags-AllTags_example =
    calculate_tags-AllTags builder 2 both []
      (base_tag ∷ dev_tag ∷ [], (codes "base", base_tag) ∷ (codes "dev", dev_tag) ∷ [])
      (λ name t h. cc) two_tags
