-- ===== src/Build/Schema.antt =====
-- `CONFIG_SCHEMA` and `validate_config` of .devkit/scripts/docker/build.py. `type_name` is
-- `type(data).__name__`.
pub mod Conforming
pub mod Errors
use encrypted_zone_sdk.Base.{
  Bool, true, false, not, ◌||◌, Option, none, some, List, [], ◌∷◌, ◌++◌, ◌==◌, keep, text_eq,
}
use encrypted_zone_sdk.Base.Result.{Result, ok, raise, ◌>>=◌}
use encrypted_zone_sdk.Base.Text.{Text, codes, join}
use encrypted_zone_sdk.Build.Json.{
  Json, str, arr, obj, Fields, no_fields, field, Error, value_error, Checked, get_field,
}
use encrypted_zone_sdk.Build.Tags.{sort}

-- The types that the schema names: `dict`, `list` and `str`.
pub data Kind : Type 0 where
  dict_kind list_kind str_kind : Kind

mutual
  -- "type", "properties" and "additional_properties".
  pub data Schema : Type 0 where
    schema : Kind → Properties → Additional → Schema

  pub data Properties : Type 0 where
    no_properties : Properties
    property : Text → Schema → Properties → Properties

  -- `True`, `False`, or a schema.
  pub data Additional : Type 0 where
    anything nothing : Additional
    each : Schema → Additional

abbrev pub string_schema : Schema
string_schema = schema str_kind no_properties anything

abbrev pub strings_schema : Schema
strings_schema = schema dict_kind no_properties (each string_schema)

abbrev pub registry_properties : Properties
registry_properties = property (codes "host") string_schema (
    property (codes "project") string_schema (
      property (codes "repository") string_schema
        (property (codes "namespace") string_schema no_properties)))

abbrev pub image_properties : Properties
image_properties = property (codes "packages") strings_schema (
    property (codes "keys") strings_schema
      (property (codes "repositories") strings_schema no_properties))

abbrev pub image_schema : Schema
image_schema = schema dict_kind image_properties nothing

abbrev pub docker_properties : Properties
docker_properties = property (codes "registry") (schema dict_kind registry_properties nothing) (
    property (codes "run") (schema list_kind no_properties anything) (
      property (codes "images") (schema dict_kind no_properties (each image_schema)) no_properties))

abbrev pub config_properties : Properties
config_properties =
    property (codes "docker") (schema dict_kind docker_properties nothing) no_properties

-- `CONFIG_SCHEMA`
abbrev pub config_schema : Schema
config_schema = schema dict_kind config_properties nothing

-- `isinstance(data, expected_type)`
abbrev pub is_instance : Kind → Json → Bool
is_instance dict_kind (obj fs) = true
is_instance list_kind (arr xs) = true
is_instance str_kind (str s) = true
is_instance kind v = false

abbrev name_of : Kind → Text
name_of dict_kind = codes "dict"
name_of list_kind = codes "list"
name_of str_kind = codes "str"

-- `key in properties`
abbrev pub is_property : Text → Properties → Bool
is_property key no_properties = false
is_property key (property k s ps) = key == k || is_property key ps

-- The keys that are no property.
abbrev pub extra_keys : Properties → Fields → List Text
extra_keys ps no_fields = []
extra_keys ps (field k v fs) =
    let rest = extra_keys ps fs in elim (is_property k ps) [ true ↦ rest | false ↦ k ∷ rest ]

-- `f"{path}.{key}" if path else key`
abbrev pub sub_path : Text → Text → Text
sub_path [] key = key
sub_path (c ∷ cs) key = (c ∷ cs) ++ (b'.' ∷ key)

unfoldable pub check_extra : Additional → Properties → Text → Fields → Checked (Unit {0})
check_extra nothing ps path fs = elim (extra_keys ps fs) [
  | [] ↦ ok tt
  | k ∷ ks ↦ raise (
      value_error (
        codes "Unexpected fields at '"
        ++ (path ++ (codes "': " ++ join (codes ", ") (sort (k ∷ ks))))))
]
check_extra anything ps path fs = ok tt
check_extra (each s) ps path fs = ok tt

-- What is done with `data[key]`, if `key in data`.
unfoldable pub if_present : (Json → Checked (Unit {0})) → Option Json → Checked (Unit {0})
if_present validate none = ok tt
if_present validate (some v) = validate v

-- The loop over the values that are no property, with the call for one as an argument.
unfoldable pub validate_each :
    (Text → Json → Checked (Unit {0})) → Properties → Text → Fields → Checked (Unit {0})
validate_each validate ps path no_fields = ok tt
validate_each validate ps path (field k v fs) = elim (is_property k ps) [
  | true ↦ validate_each validate ps path fs
  | false ↦ validate (sub_path path k) v >>= λ _. validate_each validate ps path fs
]

module _ (type_name : Json → Text) where
  unfoldable pub check_type : Kind → Text → Json → Checked (Unit {0})
  check_type kind path v = elim (is_instance kind v) [
    | true ↦ ok tt
    | false ↦ raise (
        value_error (
          codes "Invalid type at '"
          ++ (path
              ++ (codes "'. Expected "
                  ++ (name_of kind ++ (codes ", got " ++ (type_name v ++ codes ".")))))))
  ]

  unfoldable mutual
    unfolding check_type check_extra validate_each if_present

    pub validate_config : Schema → Text → Json → Checked (Unit {0})
    validate_config (schema kind ps additional) path v = check_type kind path v >>= λ _. elim v [
      | obj fs ↦ check_extra additional ps path fs >>= λ _.
          validate_properties ps path fs >>= λ _. validate_additional additional ps path fs
      | _ ↦ ok tt
    ]

    -- The loop over `properties.items()`.
    pub validate_properties : Properties → Text → Fields → Checked (Unit {0})
    validate_properties no_properties path fs = ok tt
    validate_properties (property key s ps) path fs =
        if_present (validate_config s (sub_path path key)) (get_field key fs) >>= λ _.
        validate_properties ps path fs

    pub validate_additional : Additional → Properties → Text → Fields → Checked (Unit {0})
    validate_additional anything ps path fs = ok tt
    validate_additional nothing ps path fs = ok tt
    validate_additional (each s) ps path fs = validate_each (validate_config s) ps path fs
