-- ===== src/Tests/BuildConfig.antt =====
-- The configuration of .devkit/scripts/docker/build.py at concrete inputs.
use encrypted_zone_sdk.Base.Dict.{Dict, lookup}
use encrypted_zone_sdk.Build.Tags.{TagError}
use encrypted_zone_sdk.Build.Deps.{DepsFile, load_image_configs}
use encrypted_zone_sdk.Build.Deps.Latest.{latest, first_error, load_image_configs-latest}
use encrypted_zone_sdk.Base.{none, ◌≡◌, refl, ◌↔◌, some, [], ◌∷◌, ◌++◌, text_eq, ◌⊎◌, List}
use encrypted_zone_sdk.Base.Result.{ok, raise}
use encrypted_zone_sdk.Base.Text.{Text, codes}
use encrypted_zone_sdk.Build.Json.{
  Json, str, arr, no_items, obj, no_fields, field, value_error, if_key,
}
use encrypted_zone_sdk.Build.Registry.{
  Registry, slash, parse_registry_config, parse_docker, parse_registry, repo_of, namespace_of,
  get_image_prefix, get_image_tag,
}
use encrypted_zone_sdk.Build.Registry.Prefix.{get_image_tag-prefix}
use encrypted_zone_sdk.Build.Schema.{config_schema, validate_config}
use encrypted_zone_sdk.Build.Schema.Conforming.{Conforms, validate_config-Conforms}
use encrypted_zone_sdk.Build.Config.{decoded, load_config}
use encrypted_zone_sdk.Build.Config.Handled.{IsHandled}
use encrypted_zone_sdk.Build.Config.Ends.{load_config-IsHandled}

abbrev config : Json
config = obj (
    field (codes "docker")
      (obj (
        field (codes "registry") (obj (field (codes "namespace") (str (codes "ez")) no_fields))
          no_fields))
      no_fields)

abbrev show : Json → Text
show v = []

abbrev ez_registry : Registry
ez_registry = record { repo = []; namespace = codes "devkit/ez" }

config_parsed : parse_registry_config show config ≡ ok ez_registry
unfolding parse_registry_config text_eq if_key parse_docker parse_registry repo_of namespace_of
config_parsed = refl

config_prefix : get_image_prefix show (some (ok config)) ≡ ok (codes "devkit/ez")
unfolding get_image_prefix text_eq parse_registry_config if_key parse_docker parse_registry repo_of
    namespace_of
config_prefix = refl

get_image_tag-prefix_example :
    get_image_tag ez_registry (codes "amd64") (codes "dev") (codes "0f")
    ≡ slash (codes "devkit/ez") (codes "dev" ++ (b':' ∷ (codes "amd64" ++ (b'-' ∷ codes "0f"))))
get_image_tag-prefix_example =
    get_image_tag-prefix show config ez_registry (codes "amd64") (codes "dev") (codes "0f")
      (codes "devkit/ez") config_parsed config_prefix

config_valid : validate_config show config_schema [] config ≡ ok tt
unfolding validate_config text_eq
config_valid = refl

validate_config-Conforms_example :
    (validate_config show config_schema [] config ≡ ok tt) ↔ Conforms config_schema config
validate_config-Conforms_example = validate_config-Conforms show config_schema [] config

-- A host that is no text.
abbrev wrong : Json
wrong = obj (
    field (codes "docker")
      (obj
        (field (codes "registry") (obj (field (codes "host") (arr no_items) no_fields)) no_fields))
      no_fields)

wrong_message :
    validate_config (λ v. codes "list") config_schema [] wrong
    ≡ raise (value_error (codes "Invalid type at 'docker.registry.host'. Expected str, got list."))
unfolding validate_config text_eq
wrong_message = refl

load_config-IsHandled_example : IsHandled (load_config show show (decoded wrong))
load_config-IsHandled_example = load_config-IsHandled show show (decoded wrong)

-- The second file has no dict, and the third another entry for the same image.
abbrev deps_files : List DepsFile
deps_files =
    DepsFile.decoded (obj (field (codes "dev") (str (codes "a")) no_fields))
    ∷ DepsFile.decoded (arr no_items)
    ∷ DepsFile.decoded (obj (field (codes "dev") (str (codes "b")) no_fields))
    ∷ []

dev_of_last : latest (codes "dev") deps_files ≡ some (str (codes "b"))
unfolding text_eq
dev_of_last = refl

load_image_configs-latest_example :
    ((e : TagError) × (first_error deps_files ≡ some e) × (load_image_configs deps_files ≡ raise e))
    ⊎ ((first_error deps_files ≡ none)
        × ((d : Dict Text Json) × (load_image_configs deps_files ≡ ok d)
            × ((k : Text) → lookup k d ≡ latest k deps_files)))
load_image_configs-latest_example = load_image_configs-latest deps_files
