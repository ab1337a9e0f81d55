-- ===== src/Build/Schema/Conforming.antt =====
-- What `validate_config` of .devkit/scripts/docker/build.py accepts, told without paths and
-- messages.
use mathlib.Core.Option.{some-injective}
use encrypted_zone_sdk.Base.{
  ◌≡◌, refl, subst, ◌↔◌, inl, inr, true, false, Bool-cases, List-cases, Option, none, some, [],
  text_eq,
}
use encrypted_zone_sdk.Base.Result.{ok, raise, ◌>>=◌}
use encrypted_zone_sdk.Base.Text.{Text}
use encrypted_zone_sdk.Build.Json.{
  Json, null, bool, number, str, arr, obj, Fields, no_fields, field, Checked, get_field,
}
use encrypted_zone_sdk.Build.Schema.{
  Kind, Schema, schema, Properties, no_properties, property, Additional, anything, nothing, each,
  is_instance, is_property, extra_keys, check_extra, check_type, sub_path, if_present,
  validate_each, validate_config, validate_properties, validate_additional,
}

-- A predicate on the entries of a dict.
abbrev pub AllFields : (Text → Json → Type 0) → Fields → Type 0
AllFields P no_fields = Unit
AllFields P (field k v fs) = P k v × AllFields P fs

-- Where nothing else is allowed, each key is a property.
abbrev pub OnlyProperties : Additional → Properties → Fields → Type 0
OnlyProperties anything ps fs = Unit
OnlyProperties (each s) ps fs = Unit
OnlyProperties nothing ps fs = AllFields (λ k v. is_property k ps ≡ true) fs

-- A predicate on the entries of a value, if it is a dict.
abbrev pub IfDict : (Fields → Type 0) → Json → Type 0
IfDict P (obj fs) = P fs
IfDict P null = Unit
IfDict P (bool b) = Unit
IfDict P (number n b) = Unit
IfDict P (str s) = Unit
IfDict P (arr xs) = Unit

unfoldable mutual
  -- The value has the type, and if it is a dict, then its properties and its other entries conform.
  pub Conforms : Schema → Json → Type 0
  Conforms (schema kind ps additional) v =
      (is_instance kind v ≡ true)
      × IfDict
          (λ fs.
            OnlyProperties additional ps fs
            × ConformsProperties ps fs
            × ConformsOthers additional ps fs)
          v

  pub ConformsProperties : Properties → Fields → Type 0
  ConformsProperties no_properties fs = Unit
  ConformsProperties (property key s ps) fs =
      ((v : Json) → get_field key fs ≡ some v → Conforms s v) × ConformsProperties ps fs

  pub ConformsOthers : Additional → Properties → Fields → Type 0
  ConformsOthers anything ps fs = Unit
  ConformsOthers nothing ps fs = Unit
  ConformsOthers (each s) ps fs = AllFields (λ k v. is_property k ps ≡ false → Conforms s v) fs

extra_keys-nil :
    (ps : Properties) (fs : Fields)
    → (extra_keys ps fs ≡ []) ↔ AllFields (λ k v. is_property k ps ≡ true) fs
extra_keys-nil ps no_fields = (λ h. tt, λ h. refl)
extra_keys-nil ps (field k v fs) =
    let rest = extra_keys-nil ps fs in
    elim (Bool-cases (is_property k ps)) [
      | inl known ↦ rw (known, extra_keys) ((λ h. (refl, rest.0 h)), (λ h. rest.1 h.1))
      | inr unknown ↦ rw (unknown, extra_keys) ((λ h. cc), (λ h. cc))
    ]

-- Whether a check passes.
abbrev Passes : Checked (Unit {0}) → Type 0
Passes c = c ≡ ok tt

Passes-then :
    (c : Checked (Unit {0})) (next : Checked (Unit {0}))
    → Passes (c >>= λ _. next) ↔ (Passes c × Passes next)
Passes-then (ok u) next = (λ h. (refl, h), λ h. h.1)
Passes-then (raise e) next = (λ h. cc, λ h. cc)

check_extra-OnlyProperties :
    (additional : Additional) (ps : Properties) (path : Text) (fs : Fields)
    → Passes (check_extra additional ps path fs) ↔ OnlyProperties additional ps fs
unfolding check_extra
check_extra-OnlyProperties anything ps path fs = (λ h. tt, λ h. refl)
check_extra-OnlyProperties (each s) ps path fs = (λ h. tt, λ h. refl)
check_extra-OnlyProperties nothing ps path fs = elim (List-cases (extra_keys ps fs)) [
  | inl none_left ↦
      rw (none_left, check_extra) ((λ h. (extra_keys-nil ps fs).0 none_left), (λ h. refl))
  | inr (k, ks, e) ↦
      rw (e, check_extra) ((λ h. cc), (λ h. let none_left = (extra_keys-nil ps fs).1 h in cc))
]

check_type-is_instance :
    (type_name : Json → Text) (kind : Kind) (path : Text) (v : Json)
    → Passes (check_type type_name kind path v) ↔ (is_instance kind v ≡ true)
unfolding check_type
check_type-is_instance type_name kind path v = elim (Bool-cases (is_instance kind v)) [
  | inl right ↦ rw (right, check_type) ((λ h. refl), (λ h. refl))
  | inr wrong ↦ rw (wrong, check_type) ((λ h. cc), (λ h. cc))
]

if_present-some :
    (validate : Json → Checked (Unit {0})) (P : Json → Type 0)
    → ((v : Json) → Passes (validate v) ↔ P v)
    → (o : Option Json) → Passes (if_present validate o) ↔ ((v : Json) → o ≡ some v → P v)
unfolding if_present
if_present-some validate P sound none = ((λ h v e. cc), (λ h. refl))
if_present-some validate P sound (some v) =
    ((λ h w e. subst P (some-injective _ _ e) ((sound v).0 h)), (λ h. (sound v).1 (h v refl)))

validate_each-AllFields :
    (validate : Text → Json → Checked (Unit {0})) (P : Json → Type 0)
    → ((path : Text) (v : Json) → Passes (validate path v) ↔ P v)
    → (ps : Properties) (path : Text) (fs : Fields)
    → Passes (validate_each validate ps path fs)
      ↔ AllFields (λ k v. is_property k ps ≡ false → P v) fs
unfolding validate_each
validate_each-AllFields validate P sound ps path no_fields = (λ h. tt, λ h. refl)
validate_each-AllFields validate P sound ps path (field k v fs) =
    let rest = validate_each-AllFields validate P sound ps path fs in
    elim (Bool-cases (is_property k ps)) [
      | inl known ↦
          rw (known, validate_each) ((λ h. ((λ unknown. cc), rest.0 h)), (λ h. rest.1 h.1))
      | inr unknown ↦
          let here = sound (sub_path path k) v in
          let both =
            Passes-then (validate (sub_path path k) v) (validate_each validate ps path fs) in
          rw (unknown, validate_each)
            (
              (λ h. ((λ _. here.0 (both.0 h).0), rest.0 (both.0 h).1)),
              (λ h. both.1 (here.1 (h.0 refl), rest.1 h.1)),
            )
    ]

Passes-both :
    {P Q : Type 0} (c next : Checked (Unit {0}))
    → (Passes c ↔ P)
    → (Passes next ↔ Q)
    → Passes (c >>= λ _. next) ↔ (P × Q)
Passes-both c next here there =
    let both = Passes-then c next in
    ((λ h. (here.0 (both.0 h).0, there.0 (both.0 h).1)), (λ h. both.1 (here.1 h.0, there.1 h.1)))

Passes-all :
    {P Q R : Type 0} (c d next : Checked (Unit {0}))
    → (Passes c ↔ P)
    → (Passes d ↔ Q)
    → (Passes next ↔ R)
    → Passes (c >>= λ _. d >>= λ _. next) ↔ (P × Q × R)
Passes-all c d next first second third =
    let all = Passes-both c (d >>= λ _. next) first (Passes-both d next second third) in
    ((λ h. ((all.0 h).0, (all.0 h).1.0, (all.0 h).1.1)), (λ h. all.1 (h.0, (h.1, h.2))))

no_dict :
    (type_name : Json → Text) (kind : Kind) (path : Text) (v : Json)
    → Passes (check_type type_name kind path v >>= λ _. ok tt)
      ↔ ((is_instance kind v ≡ true) × Unit {0})
no_dict type_name kind path v =
    Passes-both (check_type type_name kind path v) (ok tt)
      (check_type-is_instance type_name kind path v) ((λ h. tt), (λ h. refl))

module _ (type_name : Json → Text) where
  mutual
    unfolding validate_config validate_properties validate_additional Conforms ConformsProperties
        ConformsOthers

    validate-Conforms :
        (s : Schema) (path : Text) (v : Json)
        → Passes (validate_config type_name s path v) ↔ Conforms s v
    validate-Conforms (schema kind ps additional) path (obj fs) =
        Passes-both (check_type type_name kind path (obj fs)) _
          (check_type-is_instance type_name kind path (obj fs))
          (Passes-all (check_extra additional ps path fs) (validate_properties type_name ps path fs)
            (validate_additional type_name additional ps path fs)
            (check_extra-OnlyProperties additional ps path fs)
            (validate_properties-ConformsProperties ps path fs)
            (validate_additional-ConformsOthers additional ps path fs))
    validate-Conforms (schema kind ps additional) path null = no_dict type_name kind path null
    validate-Conforms (schema kind ps additional) path (bool b) =
        no_dict type_name kind path (bool b)
    validate-Conforms (schema kind ps additional) path (number n b) =
        no_dict type_name kind path (number n b)
    validate-Conforms (schema kind ps additional) path (str s) = no_dict type_name kind path (str s)
    validate-Conforms (schema kind ps additional) path (arr xs) =
        no_dict type_name kind path (arr xs)

    validate_properties-ConformsProperties :
        (ps : Properties) (path : Text) (fs : Fields)
        → Passes (validate_properties type_name ps path fs) ↔ ConformsProperties ps fs
    validate_properties-ConformsProperties no_properties path fs = (λ h. tt, λ h. refl)
    validate_properties-ConformsProperties (property key s ps) path fs =
        Passes-both
          (if_present (validate_config type_name s (sub_path path key)) (get_field key fs))
          (validate_properties type_name ps path fs)
          (if_present-some (validate_config type_name s (sub_path path key)) (Conforms s)
            (validate-Conforms s (sub_path path key)) (get_field key fs))
          (validate_properties-ConformsProperties ps path fs)

    validate_additional-ConformsOthers :
        (additional : Additional) (ps : Properties) (path : Text) (fs : Fields)
        → Passes (validate_additional type_name additional ps path fs)
          ↔ ConformsOthers additional ps fs
    validate_additional-ConformsOthers anything ps path fs = (λ h. tt, λ h. refl)
    validate_additional-ConformsOthers nothing ps path fs = (λ h. tt, λ h. refl)
    validate_additional-ConformsOthers (each s) ps path fs =
        validate_each-AllFields (validate_config type_name s) (Conforms s) (validate-Conforms s) ps
          path fs

-- `validate_config` accepts a value exactly if it conforms to the schema: it has the type, and a
-- dict has no entry that is not allowed, and its entries conform.
pub validate_config-Conforms :
    (type_name : Json → Text) (s : Schema) (path : Text) (v : Json)
    → (validate_config type_name s path v ≡ ok tt) ↔ Conforms s v
validate_config-Conforms = validate-Conforms
