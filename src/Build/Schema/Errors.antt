-- ===== src/Build/Schema/Errors.antt =====
-- What `validate_config` of .devkit/scripts/docker/build.py raises.
use encrypted_zone_sdk.Base.{Bool-cases, List-cases, Option, none, some, text_eq, inl, inr}
use encrypted_zone_sdk.Base.Result.{ok, raise, ◌>>=◌}
use encrypted_zone_sdk.Base.Text.{Text}
use encrypted_zone_sdk.Build.Json.{
  Json, null, bool, number, str, arr, obj, Fields, no_fields, field, value_error, type_error,
  key_error, attribute_error, Checked, get_field,
}
use encrypted_zone_sdk.Build.Schema.{
  Kind, Schema, schema, Properties, no_properties, property, Additional, anything, nothing, each,
  is_instance, is_property, extra_keys, check_extra, check_type, sub_path, if_present,
  validate_each, validate_config, validate_properties, validate_additional,
}

-- A check that returns or raises a `ValueError`.
abbrev pub ValueErrorOnly : Checked (Unit {0}) → Type 0
ValueErrorOnly (ok u) = Unit
ValueErrorOnly (raise (value_error m)) = Unit
ValueErrorOnly (raise type_error) = ⊥
ValueErrorOnly (raise key_error) = ⊥
ValueErrorOnly (raise attribute_error) = ⊥

ValueErrorOnly-then :
    (c next : Checked (Unit {0}))
    → ValueErrorOnly c
    → ValueErrorOnly next
    → ValueErrorOnly (c >>= λ _. next)
ValueErrorOnly-then (ok u) next here there = there
ValueErrorOnly-then (raise (value_error m)) next here there = tt
ValueErrorOnly-then (raise type_error) next here there = here
ValueErrorOnly-then (raise key_error) next here there = here
ValueErrorOnly-then (raise attribute_error) next here there = here

check_extra-ValueErrorOnly :
    (additional : Additional) (ps : Properties) (path : Text) (fs : Fields)
    → ValueErrorOnly (check_extra additional ps path fs)
unfolding check_extra
check_extra-ValueErrorOnly anything ps path fs = tt
check_extra-ValueErrorOnly (each s) ps path fs = tt
check_extra-ValueErrorOnly nothing ps path fs = elim (List-cases (extra_keys ps fs)) [
  | inl none_left ↦ rw (none_left, check_extra, ValueErrorOnly) tt
  | inr (k, ks, e) ↦ rw (e, check_extra, ValueErrorOnly) tt
]

if_present-ValueErrorOnly :
    (validate : Json → Checked (Unit {0}))
    → ((v : Json) → ValueErrorOnly (validate v))
    → (o : Option Json) → ValueErrorOnly (if_present validate o)
unfolding if_present
if_present-ValueErrorOnly validate h none = tt
if_present-ValueErrorOnly validate h (some v) = h v

validate_each-ValueErrorOnly :
    (validate : Text → Json → Checked (Unit {0}))
    → ((path : Text) (v : Json) → ValueErrorOnly (validate path v))
    → (ps : Properties) (path : Text) (fs : Fields)
    → ValueErrorOnly (validate_each validate ps path fs)
unfolding validate_each
validate_each-ValueErrorOnly validate h ps path no_fields = tt
validate_each-ValueErrorOnly validate h ps path (field k v fs) =
    let rest = validate_each-ValueErrorOnly validate h ps path fs in
    elim (Bool-cases (is_property k ps)) [
      | inl known ↦ rw (known, validate_each) rest
      | inr unknown ↦
          rw (unknown, validate_each)
            (ValueErrorOnly-then (validate (sub_path path k) v) (validate_each validate ps path fs)
              (h (sub_path path k) v) rest)
    ]

module _ (type_name : Json → Text) where
  check_type-ValueErrorOnly :
      (kind : Kind) (path : Text) (v : Json) → ValueErrorOnly (check_type type_name kind path v)
  unfolding check_type
  check_type-ValueErrorOnly kind path v = elim (Bool-cases (is_instance kind v)) [
    | inl right ↦ rw (right, check_type, ValueErrorOnly) tt
    | inr wrong ↦ rw (wrong, check_type, ValueErrorOnly) tt
  ]

  no_dict-ValueErrorOnly :
      (kind : Kind) (path : Text) (v : Json)
      → ValueErrorOnly (check_type type_name kind path v >>= λ _. ok tt)
  no_dict-ValueErrorOnly kind path v =
      ValueErrorOnly-then (check_type type_name kind path v) (ok tt)
        (check_type-ValueErrorOnly kind path v) tt

  mutual
    unfolding validate_config validate_properties validate_additional

    pub validate_config-ValueErrorOnly :
        (s : Schema) (path : Text) (v : Json) → ValueErrorOnly (validate_config type_name s path v)
    validate_config-ValueErrorOnly (schema kind ps additional) path (obj fs) =
        ValueErrorOnly-then (check_type type_name kind path (obj fs)) _
          (check_type-ValueErrorOnly kind path (obj fs))
          (ValueErrorOnly-then (check_extra additional ps path fs) _
            (check_extra-ValueErrorOnly additional ps path fs)
            (ValueErrorOnly-then (validate_properties type_name ps path fs) _
              (validate_properties-ValueErrorOnly ps path fs)
              (validate_additional-ValueErrorOnly additional ps path fs)))
    validate_config-ValueErrorOnly (schema kind ps additional) path null =
        no_dict-ValueErrorOnly kind path null
    validate_config-ValueErrorOnly (schema kind ps additional) path (bool b) =
        no_dict-ValueErrorOnly kind path (bool b)
    validate_config-ValueErrorOnly (schema kind ps additional) path (number n b) =
        no_dict-ValueErrorOnly kind path (number n b)
    validate_config-ValueErrorOnly (schema kind ps additional) path (str s) =
        no_dict-ValueErrorOnly kind path (str s)
    validate_config-ValueErrorOnly (schema kind ps additional) path (arr xs) =
        no_dict-ValueErrorOnly kind path (arr xs)

    validate_properties-ValueErrorOnly :
        (ps : Properties) (path : Text) (fs : Fields)
        → ValueErrorOnly (validate_properties type_name ps path fs)
    validate_properties-ValueErrorOnly no_properties path fs = tt
    validate_properties-ValueErrorOnly (property key s ps) path fs =
        ValueErrorOnly-then
          (if_present (validate_config type_name s (sub_path path key)) (get_field key fs))
          (validate_properties type_name ps path fs)
          (if_present-ValueErrorOnly (validate_config type_name s (sub_path path key))
            (validate_config-ValueErrorOnly s (sub_path path key)) (get_field key fs))
          (validate_properties-ValueErrorOnly ps path fs)

    validate_additional-ValueErrorOnly :
        (additional : Additional) (ps : Properties) (path : Text) (fs : Fields)
        → ValueErrorOnly (validate_additional type_name additional ps path fs)
    validate_additional-ValueErrorOnly anything ps path fs = tt
    validate_additional-ValueErrorOnly nothing ps path fs = tt
    validate_additional-ValueErrorOnly (each s) ps path fs =
        validate_each-ValueErrorOnly (validate_config type_name s)
          (validate_config-ValueErrorOnly s) ps path fs
