-- ===== src/Plugin/Response.antt =====
-- What `generate_code` of tools/plugin/ez_sdk.py answers.
use encrypted_zone_sdk.Base.{
  ◌≡◌, refl, ◌∙◌, false, Option, none, some, List, [], ◌∷◌, ◌++◌, All, inl, inr, ◌⊎◌, ◌==◌, text_eq,
  Option-cases,
}
use encrypted_zone_sdk.Base.Dict.{Dict, lookup, insert, lookup-insert, lookup-insert_self}
use encrypted_zone_sdk.Base.Result.{Result, ok, raise}
use encrypted_zone_sdk.Base.Text.{Text, codes}
use encrypted_zone_sdk.Plugin.{
  Service, ProtoFile, CodeGeneratorRequest, CodeGeneratorResponse, Raised, template_error,
  other_error, Jinja, catch_template_error, failure, context_of, parse_params, environment_for,
  generate_from, generate_code, ez_services_of, ez_services_map,
}

-- Either an error and no file, or one file and no error.
pub IsAnswer : CodeGeneratorResponse → Type 0
IsAnswer r =
    ((message : Text) × (r.error ≡ some message) × (r.file ≡ []))
    ⊎ ((name : Text) × (content : Text) × (r.error ≡ none) × (r.file ≡ (name, content) ∷ []))

-- The exceptions that are not Jinja's pass through; else there is an answer.
pub IsAnswered : Result Raised CodeGeneratorResponse → Type 0
IsAnswered (ok r) = IsAnswer r
IsAnswered (raise (template_error message)) = ⊥
IsAnswered (raise other_error) = Unit

catch-IsAnswered :
    {A : Type 0} (on_error : Text → CodeGeneratorResponse)
    (go_on : A → Result Raised CodeGeneratorResponse)
    → ((message : Text) → IsAnswer (on_error message))
    → ((a : A) → IsAnswered (go_on a))
    → (m : Result Raised A) → IsAnswered (catch_template_error on_error go_on m)
unfolding IsAnswered catch_template_error
catch-IsAnswered on_error go_on answers goes (ok a) = goes a
catch-IsAnswered on_error go_on answers goes (raise (template_error message)) = answers message
catch-IsAnswered on_error go_on answers goes (raise other_error) = tt

failure-IsAnswer :
    (what template_name message : Text) → IsAnswer (failure what template_name message)
unfolding failure IsAnswer
failure-IsAnswer what template_name message = inl (_, refl, refl)

answer-IsAnswered :
    (name content : Text) → IsAnswered (ok (record { error = none; file = (name, content) ∷ [] }))
unfolding IsAnswered IsAnswer
answer-IsAnswered name content = inr (name, content, refl, refl)

generate_from-IsAnswered :
    (jinja : Jinja) (template_path : Option Text) (req : CodeGeneratorRequest)
    (env : Option (jinja.Environment)) (params : Dict Text Text) (template_name : Text)
    → IsAnswered (generate_from jinja template_path req env params template_name)
unfolding generate_from
generate_from-IsAnswered jinja template_path req env params template_name =
    catch-IsAnswered _ _ (failure-IsAnswer (codes "load") template_name)
      (λ template.
        catch-IsAnswered _ _ (failure-IsAnswer (codes "render") template_name)
          (λ content. answer-IsAnswered _ content) (jinja.render template (context_of params req)))
      (jinja.get_template (environment_for jinja template_path env params) template_name)

-- No error of a template leaves `generate_code`, and what it returns either names an error and
-- holds no file, or holds one file and names no error.
pub generate_code-IsAnswered :
    (jinja : Jinja) (template_path : Option Text) (req : CodeGeneratorRequest)
    (env : Option (jinja.Environment))
    → IsAnswered (generate_code jinja template_path req env)
unfolding generate_code generate_from IsAnswered IsAnswer
generate_code-IsAnswered jinja template_path req env =
    elim (Option-cases (lookup (codes "template_name") (parse_params req.parameter))) [
      | inl e ↦ rw (e, generate_code) (inl (_, refl, refl))
      | inr ([], e) ↦ rw (e, generate_code) (inl (_, refl, refl))
      | inr (c ∷ cs, e) ↦
          rw (e, generate_code)
            (generate_from-IsAnswered jinja template_path req env (parse_params req.parameter)
              (c ∷ cs))
    ]

-- The names of no file here.
abbrev pub Lacks : Text → List ProtoFile → Type 0
Lacks name = All (λ f. (name == f.name) ≡ false)

lookup-ez_services_map_other :
    (registry : List Text) (files : List ProtoFile) (name : Text) (m : Dict Text (List Service))
    → Lacks name files
    → lookup name (ez_services_map registry files m) ≡ lookup name m
unfolding ez_services_map
lookup-ez_services_map_other registry [] name m _ = refl
lookup-ez_services_map_other registry (f ∷ fs) name m (other, others) =
    lookup-ez_services_map_other registry fs name (insert f.name (ez_services_of registry f) m)
      others
    ∙ lookup-insert name f.name (ez_services_of registry f) m
    ∙ rw other refl

-- If no later file has the name of `f`, the map has under it the services of `f` whose qualified
-- name is in the registry.
pub lookup-ez_services_map :
    (registry : List Text) (before after : List ProtoFile) (f : ProtoFile)
    (m : Dict Text (List Service))
    → Lacks f.name after
    → lookup f.name (ez_services_map registry (before ++ (f ∷ after)) m)
      ≡ some (ez_services_of registry f)
unfolding ez_services_map
lookup-ez_services_map registry [] after f m only =
    lookup-ez_services_map_other registry after f.name (insert f.name (ez_services_of registry f) m)
      only
    ∙ lookup-insert_self f.name (ez_services_of registry f) m
lookup-ez_services_map registry (g ∷ before) after f m only =
    lookup-ez_services_map registry before after f (insert g.name (ez_services_of registry g) m)
      only
