-- ===== src/Build/Request.antt =====
-- What `build_images` of .devkit/scripts/docker/build.py prepares for an image before it calls
-- `manage_docker_image`. `dirname` is `os.path.dirname`.
pub mod Prepared
pub mod Orderly
use encrypted_zone_sdk.Base.{
  ℕ, Bool, true, false, ◌||◌, Option, none, some, List, [], ◌∷◌, ◌++◌, text_eq,
}
use encrypted_zone_sdk.Base.Dict.{Dict, lookup}
use encrypted_zone_sdk.Base.Result.{Result, ok, raise, ◌>>=◌}
use encrypted_zone_sdk.Base.Text.{Text, codes, join}
use encrypted_zone_sdk.Build.Tags.{
  ImageConfig, Builder, TagError, key_error, exit_status_1, Tagged, found_or, find_dockerfile,
  calculate_tag_for_image,
}
use encrypted_zone_sdk.Build.Docker.{Request}

-- The loop over the dependencies.
unfoldable pub dep_args : Dict Text Text → Dict Text Text → Tagged (List Text)
dep_args [] generated_tags = ok []
dep_args ((arg_name, dep_image_name) ∷ dependencies) generated_tags =
    found_or key_error (lookup dep_image_name generated_tags) >>= λ tag.
    dep_args dependencies generated_tags >>= λ args. ok (arg_name ∷ tag ∷ args)

-- `[arg_name, " ".join(val)]`, where `val` is not empty.
abbrev pub joined : Text → List Text → List Text
joined arg_name [] = []
joined arg_name (v ∷ vs) = arg_name ∷ join (codes " ") (v ∷ vs) ∷ []

-- One of the three maps.
unfoldable pub extra_pair : Text → Dict Text (List Text) → Text → List Text
extra_pair arg_name entries image_name = elim (lookup image_name entries) [
  | none ↦ []
  | some val ↦ joined arg_name val
]

module _ (b : Builder) (dirname : Text → Text) where
  unfoldable pub extra_pairs : Text → List Text
  unfolding extra_pair
  extra_pairs image_name =
      extra_pair (codes "EXTRA_PACKAGES") b.extra.extra_packages_map image_name
      ++ (extra_pair (codes "EXTRA_KEYS") b.extra.extra_keys_map image_name
          ++ extra_pair (codes "EXTRA_REPOSITORIES") b.extra.extra_repositories_map image_name)

  -- The arguments of `manage_docker_image`.
  unfoldable pub request_of : Bool → Bool → Text → Text → Dict Text Text → Tagged Request
  unfolding dep_args extra_pairs find_dockerfile
  request_of no_cache local_flag image_name tag generated_tags =
      found_or key_error (lookup image_name b.image_configs_map) >>= λ image_conf.
      found_or exit_status_1 (find_dockerfile b image_name) >>= λ dockerfile_path.
      dep_args image_conf.deps generated_tags >>= λ args. ok (record {
        tag = tag;
        dockerfile_path = dockerfile_path;
        build_args_list = args ++ extra_pairs image_name;
        context_path = dirname dockerfile_path;
        local_image_mode = local_flag || image_conf.local;
        no_cache = no_cache;
        repo = b.registry.repo;
      })

  -- The tag is calculated first, and the table of tags kept.
  unfoldable pub prepare :
      ℕ → Bool → Bool → Text → Dict Text Text → Tagged (Request × Dict Text Text)
  unfolding request_of calculate_tag_for_image
  prepare depth no_cache local_flag image_name generated_tags =
      calculate_tag_for_image b depth image_name generated_tags >>= λ (tag, tags).
      request_of no_cache local_flag image_name tag tags >>= λ r. ok (r, tags)
