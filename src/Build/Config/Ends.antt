-- ===== src/Build/Config/Ends.antt =====
-- How `_load_config` of .devkit/scripts/docker/build.py ends.
use encrypted_zone_sdk.Base.{◌≡◌, refl, inl, inr, Option-cases, [], text_eq}
use encrypted_zone_sdk.Base.Result.{ok, raise, ◌>>=◌}
use encrypted_zone_sdk.Base.Text.{Text, codes}
use encrypted_zone_sdk.Build.Json.{
  Json, obj, type_error, key_error, attribute_error, value_error, Checked, get_field, key_in,
}
use encrypted_zone_sdk.Build.Registry.{
  Loaded, exit_status_1, raised, lift, parse_registry_config, load_images_config,
}
use encrypted_zone_sdk.Build.Schema.{nothing, config_properties, config_schema, validate_config}
use encrypted_zone_sdk.Build.Schema.Conforming.{Conforms, validate_config-Conforms}
use encrypted_zone_sdk.Build.Schema.Errors.{ValueErrorOnly, validate_config-ValueErrorOnly}
use encrypted_zone_sdk.Build.Config.{
  ConfigFile, missing, undecodable, decoded, no_extra, load_valid, load_decoded, load_config,
  exit_on_value_error,
}
use encrypted_zone_sdk.Build.Config.Handled.{
  dict_cases, IsHandled, IsHandled-bind, lift-IsHandled, parse_registry_config-Returns,
  load_images_config-IsHandled,
}

-- A check that raises a `ValueError` only, and what runs if it passes.
guarded-IsHandled :
    {A : Type 0} (c : Checked (Unit {0})) (next : Loaded A)
    → ValueErrorOnly c
    → (c ≡ ok tt → IsHandled next)
    → IsHandled (exit_on_value_error (lift c >>= λ _. next))
unfolding exit_on_value_error
guarded-IsHandled (raise (value_error m)) next h f = tt
guarded-IsHandled (raise type_error) next h f = h
guarded-IsHandled (raise key_error) next h f = h
guarded-IsHandled (raise attribute_error) next h f = h
guarded-IsHandled (ok u) (ok a) h f = tt
guarded-IsHandled (ok u) (raise exit_status_1) h f = tt
guarded-IsHandled (ok u) (raise (raised e)) h f = absurd (f refl)

load_valid-IsHandled :
    (show : Json → Text) (config : Json)
    → Conforms config_schema config
    → IsHandled (load_valid show config)
unfolding load_valid
load_valid-IsHandled show config h =
    dict_cases (λ v. Conforms config_schema v → IsHandled (load_valid show v)) config_properties
      nothing
      (λ fs inside _ whole. elim (Option-cases (get_field (codes "docker") fs)) [
        | inl gone ↦ rw (gone, key_in) tt
        | inr (docker, e) ↦
            rw (e, key_in)
              (IsHandled-bind (lift (parse_registry_config show (obj fs))) _
                (lift-IsHandled (parse_registry_config show (obj fs))
                  (parse_registry_config-Returns show (obj fs) whole))
                (λ registry.
                  IsHandled-bind (load_images_config show (obj fs) no_extra) _
                    (load_images_config-IsHandled show no_extra fs docker inside e) (λ extra. tt)))
      ])
      config h h

-- `_load_config` returns, or ends the script with status 1: for no content of the file does another
-- exception leave it.
pub load_config-IsHandled :
    (type_name show : Json → Text) (file : ConfigFile) → IsHandled (load_config type_name show file)
unfolding load_config load_decoded
load_config-IsHandled type_name show missing = tt
load_config-IsHandled type_name show undecodable = tt
load_config-IsHandled type_name show (decoded config) =
    guarded-IsHandled (validate_config type_name config_schema [] config) (load_valid show config)
      (validate_config-ValueErrorOnly type_name config_schema [] config)
      (λ passes.
        load_valid-IsHandled show config
          ((validate_config-Conforms type_name config_schema [] config).0 passes))
