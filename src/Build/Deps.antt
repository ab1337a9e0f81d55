-- ===== src/Build/Deps.antt =====
-- `load_image_configs` of .devkit/scripts/docker/build.py.
pub mod Latest
use encrypted_zone_sdk.Base.{Bool, true, false, List, [], ◌∷◌, text_eq}
use encrypted_zone_sdk.Base.Dict.{Dict, insert}
use encrypted_zone_sdk.Base.Result.{Result, ok, raise, ◌>>=◌}
use encrypted_zone_sdk.Base.Text.{Text}
use encrypted_zone_sdk.Build.Json.{Json, obj, Fields, no_fields, field}
use encrypted_zone_sdk.Build.Tags.{exit_status_1, read_error, Tagged}

-- The `deps.json` of a search path. What `open` and `json.load` raise other than a
-- `JSONDecodeError`, as the `UnicodeDecodeError` of a file that is no UTF-8, is not caught.
pub data DepsFile : Type 0 where
  missing undecodable unreadable : DepsFile
  decoded : Json → DepsFile

-- `all_configs.update(configs)`
unfoldable pub update_fields : Dict Text Json → Fields → Dict Text Json
update_fields all_configs no_fields = all_configs
update_fields all_configs (field name conf configs) =
    update_fields (insert name conf all_configs) configs

-- What is no dict is passed over.
abbrev pub update_json : Dict Text Json → Json → Dict Text Json
update_json all_configs (obj configs) = update_fields all_configs configs
update_json all_configs v = all_configs

unfoldable pub load_deps_file : DepsFile → Dict Text Json → Tagged (Dict Text Json)
unfolding update_fields
load_deps_file missing all_configs = ok all_configs
load_deps_file undecodable all_configs = raise exit_status_1
load_deps_file unreadable all_configs = raise read_error
load_deps_file (decoded configs) all_configs = ok (update_json all_configs configs)

-- The loop.
unfoldable pub load_deps_files : List DepsFile → Dict Text Json → Tagged (Dict Text Json)
unfolding load_deps_file
load_deps_files [] all_configs = ok all_configs
load_deps_files (file ∷ files) all_configs =
    load_deps_file file all_configs >>= load_deps_files files

unfoldable pub load_image_configs : List DepsFile → Tagged (Dict Text Json)
unfolding load_deps_files
load_image_configs files = load_deps_files files []
