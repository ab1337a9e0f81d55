-- ===== src/Tests/ImageCleanup.antt =====
-- .devkit/scripts/docker_cleanup.py at concrete inputs.
use encrypted_zone_sdk.Base.{
  ℕ, ◌≡◌, refl, ap, ◌∙◌, ◌&&◌, not, Bool, true, false, Option, none, some, List, [], ◌∷◌, ◌++◌,
  contains, text_eq, replicate, leb,
}
use encrypted_zone_sdk.Base.Int.{pos}
use encrypted_zone_sdk.Base.Result.{ok, raise}
use encrypted_zone_sdk.Base.Text.{Text, codes}
use encrypted_zone_sdk.Cleanup.{
  is_allowed, all_tags, exception, system_exit, system_exit_1, get_images_to_cleanup, get_images,
  images_command,
}
use encrypted_zone_sdk.Build.Registry.{slash, get_image_prefix}
use encrypted_zone_sdk.Cleanup.Pattern.{has_devkit, is_hash, image_name_of}
use encrypted_zone_sdk.Cleanup.Pattern.Format.{image_name_of-tag}
use encrypted_zone_sdk.Cleanup.Selected.{contains-get_images_to_cleanup}
use encrypted_zone_sdk.Cleanup.Loop.{Cleaner, cleanup_images}
use encrypted_zone_sdk.Cleanup.Main.{Surroundings, cleanup, keyboard_interrupt, main}
use encrypted_zone_sdk.Cleanup.Sparing.{listed_for}
use encrypted_zone_sdk.Cleanup.Current.{cleanup-spares_current}
use encrypted_zone_sdk.Base.{All}
use encrypted_zone_sdk.Build.Tags.{
  Builder, Tagged, calculate_tag_for_image, find_dockerfile, calculate_deps, tag_from,
}
use encrypted_zone_sdk.Build.Tags.Content.{AllTags}
use encrypted_zone_sdk.Build.Maker.{Ends, get_all_docker_image_tags}
use encrypted_zone_sdk.Tests.DockerBuild.{builder}

-- An image of a hash of one digit, repeated.
abbrev image : Text → ℕ → Text
image name digit = codes "devkit/" ++ (name ++ (codes ":amd64-" ++ replicate 64 digit))

abbrev old_image : Text
old_image = image (codes "build-env") b'0'

abbrev new_image : Text
new_image = image (codes "build-env") b'1'

abbrev listed : List Text
listed = old_image ∷ new_image ∷ codes "debian:12" ∷ []

selects_old : get_images_to_cleanup listed (all_tags (new_image ∷ [])) ≡ ok (old_image ∷ [])
unfolding get_images_to_cleanup is_allowed text_eq
selects_old = refl

contains-get_images_to_cleanup_example : contains (old_image ∷ []) old_image ≡ (
    not (contains (new_image ∷ []) old_image)
    && (is_allowed old_image && contains listed old_image))
contains-get_images_to_cleanup_example =
    contains-get_images_to_cleanup listed (new_image ∷ []) (old_image ∷ []) old_image selects_old

-- Where the tags cannot be calculated, every allowed image is selected.
selects_all : get_images_to_cleanup listed exception ≡ ok (old_image ∷ new_image ∷ [])
unfolding get_images_to_cleanup is_allowed text_eq
selects_all = refl

exits : get_images_to_cleanup listed system_exit ≡ raise system_exit_1
unfolding get_images_to_cleanup is_allowed text_eq
exits = refl

two_lines : get_images (some (codes "a\r\nb\n")) ≡ codes "a" ∷ codes "b" ∷ []
unfolding get_images
two_lines = refl

-- The event is set from the fourth time on that it is asked.
abbrev set_later : ℕ → Bool
set_later n = leb 3 n

abbrev polls : Text → Option ℕ
polls img = some 0

begins_one :
    cleanup_images set_later polls (pos 1) (ok listed)
    ≡ ok (record { asked = 5; begun = old_image ∷ []; terminated = [] })
unfolding cleanup_images
begins_one = refl

namespace_has_devkit : has_devkit (codes "devkit/ez") ≡ true
unfolding has_devkit text_eq
namespace_has_devkit = refl

zeros-is_hash : is_hash 64 (replicate 64 b'0') ≡ true
unfolding is_hash
zeros-is_hash = refl

image_name_of-tag_example :
    image_name_of (
      slash
        (codes "devkit/ez")
        (codes "dev" ++ (b':' ∷ (codes "amd64" ++ (b'-' ∷ replicate 64 b'0')))))
    ≡ some (codes "dev")
image_name_of-tag_example =
    image_name_of-tag (codes "devkit/ez") (codes "dev") (codes "amd64") (replicate 64 b'0')
      namespace_has_devkit refl (refl, (refl, (refl, tt))) (refl, (refl, (refl, tt))) refl refl
      zeros-is_hash

abbrev surroundings : Surroundings
surroundings = record {
  show = λ v. [];
  config_path = none;
  docker = λ command. some (old_image ++ (codes "\n" ++ (new_image ++ codes "\n")));
  current_tags = ok (new_image ∷ []);
  cancelled = λ n. false;
  polls = λ img. some 1;
}

abbrev cleaned : Cleaner
cleaned = record { asked = 4; begun = old_image ∷ []; terminated = [] }

cleans_up : cleanup surroundings (pos 4) (pos 7) ≡ ok cleaned
unfolding cleanup is_allowed text_eq
cleans_up = refl

ends_on_interrupt : main keyboard_interrupt ≡ (0, true)
unfolding main
ends_on_interrupt = refl

asks_docker :
    images_command (codes "devkit") (pos 7)
    ≡ codes "docker"
      ∷ codes "images"
      ∷ codes "--filter"
      ∷ codes "reference=devkit/*"
      ∷ codes "--filter"
      ∷ codes "until=168h"
      ∷ codes "--format"
      ∷ codes "{{.Repository}}:{{.Tag}}"
      ∷ []
unfolding images_command
asks_docker = refl

abbrev build_order : Builder → Tagged (List Text)
build_order b = ok (codes "base" ∷ [])

abbrev current : List Text
current = codes "devkit/base:amd64-d/base.Dockerfile" ∷ []

calculates_current : get_all_docker_image_tags build_order 1 (ok builder) ≡ ok current
unfolding get_all_docker_image_tags text_eq calculate_tag_for_image find_dockerfile calculate_deps
    tag_from
calculates_current = refl

abbrev with_builder : Surroundings
with_builder = record surroundings {
  current_tags = get_all_docker_image_tags build_order 1 (ok builder);
}

abbrev cleaned_both : Cleaner
cleaned_both = record { asked = 6; begun = old_image ∷ new_image ∷ []; terminated = [] }

abbrev with_tags : Ends (List Text) → Surroundings
with_tags tags = record surroundings { current_tags = tags }

cleans_with_tags : cleanup (with_tags (ok current)) (pos 4) (pos 7) ≡ ok cleaned_both
unfolding cleanup is_allowed text_eq
cleans_with_tags = refl

cleans_both : cleanup with_builder (pos 4) (pos 7) ≡ ok cleaned_both
cleans_both =
    ap (λ tags. cleanup (with_tags tags) (pos 4) (pos 7)) calculates_current ∙ cleans_with_tags

cleanup-spares_current_example :
    ((order : List Text) × (build_order builder ≡ ok order) × AllTags builder order current)
    × All (λ t. contains cleaned_both.begun t ≡ false) current
    × ((img : Text)
        → contains cleaned_both.begun img ≡ true
        → (is_allowed img ≡ true)
          × ((image_prefix : Text) × (get_image_prefix (λ v. []) none ≡ ok image_prefix)
              × (contains (listed_for with_builder image_prefix (pos 7)) img ≡ true)))
cleanup-spares_current_example =
    cleanup-spares_current build_order 1 builder with_builder (pos 4) (pos 7) current cleaned_both
      (λ n h. h) refl calculates_current cleans_both
