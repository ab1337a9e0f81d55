-- ===== src/Build/Maker.antt =====
-- How a `DockerBuilder` of .devkit/scripts/docker/build.py is made, and `get_all_docker_image_tags`.
use encrypted_zone_sdk.Base.{ℕ, List, []}
use encrypted_zone_sdk.Base.Dict.{Dict}
use encrypted_zone_sdk.Base.Result.{Result, ok, raise, ◌>>=◌}
use encrypted_zone_sdk.Base.Text.{Text, codes}
use encrypted_zone_sdk.Build.Json.{Json}
use encrypted_zone_sdk.Build.Registry.{Loaded, exit_status_1, raised}
use encrypted_zone_sdk.Build.Config.{ConfigFile, load_config}
use encrypted_zone_sdk.Build.Deps.{DepsFile, load_image_configs}
use encrypted_zone_sdk.Build.Tags.{
  ImageConfig, Builder, Tagged, TagError, key_error, read_error, recursion_error, calculate_tags,
}
use encrypted_zone_sdk.Build.Tags

-- What leaves the functions here: the `SystemExit` of `sys.exit(1)`, or an `Exception`.
pub data Ended : Type 0 where
  system_exit_1 exception : Ended

abbrev pub Ends {ℓ} : Type ℓ → Type ℓ
Ends A = Result Ended A

abbrev pub of_loaded : {A : Type 0} → Loaded A → Ends A
of_loaded (ok a) = ok a
of_loaded (raise exit_status_1) = raise system_exit_1
of_loaded (raise (raised e)) = raise exception

abbrev pub of_tagged : {A : Type 0} → Tagged A → Ends A
of_tagged (ok a) = ok a
of_tagged (raise Tags.exit_status_1) = raise system_exit_1
of_tagged (raise key_error) = raise exception
of_tagged (raise read_error) = raise exception
of_tagged (raise recursion_error) = raise exception

-- `DockerBuilder.__init__`. The system is given by a builder, of which the search paths and the
-- functions are taken; `read_configs` reads the images from the values of the files.
unfoldable pub make_builder :
    (Json → Text)
    → (Json → Text)
    → (Dict Text Json → Dict Text ImageConfig)
    → Builder
    → ConfigFile
    → List DepsFile
    → Ends Builder
unfolding load_config load_image_configs
make_builder type_name show read_configs system config_path files =
    of_loaded (load_config type_name show config_path) >>= λ (registry, extra).
    of_tagged (load_image_configs files) >>= λ image_configs. ok (record system {
      registry = registry;
      arch = codes "amd64";
      extra = extra;
      image_configs_map = read_configs image_configs;
    })

-- `calculate_tags` behind `get_build_order`, and its tags.
unfoldable pub all_tags_of : (Builder → Tagged (List Text)) → ℕ → Builder → Ends (List Text)
unfolding calculate_tags
all_tags_of build_order depth builder = of_tagged (build_order builder) >>= λ images_to_process.
    of_tagged (calculate_tags builder depth images_to_process []) >>= λ (tags, generated_tags).
    ok tags

-- `get_all_docker_image_tags`; `made` is what making the builder gives, and `build_order` what
-- `get_build_order` gives for it.
unfoldable pub get_all_docker_image_tags :
    (Builder → Tagged (List Text)) → ℕ → Ends Builder → Ends (List Text)
unfolding all_tags_of
get_all_docker_image_tags build_order depth made = made >>= all_tags_of build_order depth
