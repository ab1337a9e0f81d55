-- ===== src/Build/Config.antt =====
-- `_load_config` of .devkit/scripts/docker/build.py: the file is missing, holds no JSON, or holds a
-- value.
pub mod Handled
pub mod Ends
use encrypted_zone_sdk.Base.{Bool, true, false, List, [], ◌∷◌, text_eq}
use encrypted_zone_sdk.Base.Result.{Result, ok, raise, ◌>>=◌}
use encrypted_zone_sdk.Base.Text.{Text, codes}
use encrypted_zone_sdk.Build.Json.{
  Json, Error, type_error, key_error, attribute_error, value_error, key_in,
}
use encrypted_zone_sdk.Build.Registry.{
  Registry, default_registry, ExtraMaps, Loaded, LoadError, exit_status_1, raised, lift,
  parse_registry_config, load_images_config,
}
use encrypted_zone_sdk.Build.Schema.{config_schema, validate_config}

pub data ConfigFile : Type 0 where
  missing undecodable : ConfigFile
  decoded : Json → ConfigFile

abbrev pub no_extra : ExtraMaps
no_extra = record { extra_packages_map = []; extra_keys_map = []; extra_repositories_map = [] }

-- `except (json.JSONDecodeError, ValueError)`: the script ends. No other exception is caught.
unfoldable pub exit_on_value_error : {A : Type 0} → Loaded A → Loaded A
exit_on_value_error (ok a) = ok a
exit_on_value_error (raise exit_status_1) = raise exit_status_1
exit_on_value_error (raise (raised (value_error m))) = raise exit_status_1
exit_on_value_error (raise (raised type_error)) = raise (raised type_error)
exit_on_value_error (raise (raised key_error)) = raise (raised key_error)
exit_on_value_error (raise (raised attribute_error)) = raise (raised attribute_error)

module _ (show : Json → Text) where
  -- What follows the validation.
  unfoldable pub load_valid : Json → Loaded (Registry × ExtraMaps)
  unfolding key_in parse_registry_config load_images_config
  load_valid config = do
    has_docker ← lift (key_in (codes "docker") config)
    elim has_docker [
      | false ↦ ok (default_registry, no_extra)
      | true ↦ do
        registry ← lift (parse_registry_config show config)
        extra ← load_images_config show config no_extra
        ok (registry, extra)
    ]

module _ (type_name show : Json → Text) where
  -- The `try` block, once the file is decoded.
  unfoldable pub load_decoded : Json → Loaded (Registry × ExtraMaps)
  unfolding validate_config load_valid
  load_decoded config =
      lift (validate_config type_name config_schema [] config) >>= λ _. load_valid show config

  unfoldable pub load_config : ConfigFile → Loaded (Registry × ExtraMaps)
  unfolding load_decoded exit_on_value_error
  load_config missing = ok (default_registry, no_extra)
  load_config undecodable = raise exit_status_1
  load_config (decoded config) = exit_on_value_error (load_decoded config)
