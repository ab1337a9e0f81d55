-- ===== src/Plugin.antt =====
-- tools/plugin/ez_sdk.py. Jinja is a parameter: how an environment is made for a directory, how it
-- gives a template, and how a template is rendered.
pub mod Filters
pub mod Response
pub mod Generated
use encrypted_zone_sdk.Base.{
  Bool, true, false, Option, none, some, List, [], ◌∷◌, ◌++◌, map, keep, contains, text_eq,
}
use encrypted_zone_sdk.Base.Dict.{Dict, lookup, insert}
use encrypted_zone_sdk.Base.Result.{Result, ok, raise, ◌>>=◌}
use encrypted_zone_sdk.Base.Text.{Text, codes, split, split_once, strip}

-- What the plugin reads of a `ServiceDescriptorProto` and of a `FileDescriptorProto`.
pub record Service : Type 0 where
  pub name : Text

pub record ProtoFile : Type 0 where
  pub name : Text
  pub proto_package : Text
  pub service : List Service

pub record CodeGeneratorRequest : Type 0 where
  pub parameter : Text
  pub file_to_generate : List Text
  pub proto_file : List ProtoFile

-- The fields of a `CodeGeneratorResponse` that the plugin does not always set to the same.
pub record CodeGeneratorResponse : Type 0 where
  pub error : Option Text
  pub file : List (Text × Text)

pub record Context : Type 0 where
  pub files : List ProtoFile
  pub request : CodeGeneratorRequest
  pub ez_services : Dict Text (List Service)

-- A `TemplateError` with what `format_exception_only` writes about it, or another exception.
pub data Raised : Type 0 where
  template_error : Text → Raised
  other_error : Raised

pub record Jinja : Type 1 where
  pub Environment : Type 0
  pub Template : Type 0
  pub create_jinja_environment : Text → Environment
  pub get_template : Environment → Text → Result Raised Template
  pub render : Template → Context → Result Raised Text

-- `dict(...)` of the parts that have a `=`.
unfoldable pub collect_params : List Text → Dict Text Text → Dict Text Text
unfolding split_once
collect_params [] params = params
collect_params (p ∷ ps) params = elim (split_once b'=' p) [
  | none ↦ collect_params ps params
  | some (key, value) ↦ collect_params ps (insert key value params)
]

unfoldable pub parse_params : Text → Dict Text Text
unfolding collect_params split
parse_params parameter = collect_params (split b',' parameter) []

abbrev pub or_else : Text → Option Text → Text
or_else default none = default
or_else default (some value) = value

-- `set(services_param.split(';')) if services_param else set()`
unfoldable pub registry_services : Option Text → List Text
unfolding split
registry_services none = []
registry_services (some []) = []
registry_services (some (c ∷ cs)) = split b';' (c ∷ cs)

-- `_get_fully_qualified_name`
unfoldable pub get_fully_qualified_name : ProtoFile → Service → Text
get_fully_qualified_name proto_file svc = elim (proto_file.proto_package) [
  | [] ↦ svc.name
  | c ∷ cs ↦ (c ∷ cs) ++ (b'.' ∷ svc.name)
]

-- The services of a file that are in the registry.
unfoldable pub ez_services_of : List Text → ProtoFile → List Service
unfolding get_fully_qualified_name
ez_services_of registry proto_file =
    keep (λ svc. contains registry (get_fully_qualified_name proto_file svc)) proto_file.service

-- The loop that fills `ez_services_map`.
unfoldable pub ez_services_map :
    List Text → List ProtoFile → Dict Text (List Service) → Dict Text (List Service)
unfolding ez_services_of
ez_services_map registry [] m = m
ez_services_map registry (proto_file ∷ proto_files) m =
    ez_services_map registry proto_files
      (insert proto_file.name (ez_services_of registry proto_file) m)

unfoldable pub context_of : Dict Text Text → CodeGeneratorRequest → Context
unfolding ez_services_map registry_services
context_of params request = record {
  files = keep (λ f. contains request.file_to_generate f.name) request.proto_file;
  request = request;
  ez_services =
      ez_services_map (registry_services (lookup (codes "services") params)) request.proto_file [];
}

abbrev failed : Text → CodeGeneratorResponse
failed message = record { error = some message; file = [] }

-- `f'Failed to … template {template_name}: {error_msg}'`
unfoldable pub failure : Text → Text → Text → CodeGeneratorResponse
unfolding strip
failure what template_name exception = failed (
    codes "Failed to "
    ++ (what ++ (codes " template " ++ (template_name ++ (codes ": " ++ strip exception)))))

-- `except TemplateError`; another exception is not caught.
unfoldable pub catch_template_error :
    {A : Type 0}
    → (Text → CodeGeneratorResponse)
    → (A → Result Raised CodeGeneratorResponse)
    → Result Raised A
    → Result Raised CodeGeneratorResponse
catch_template_error on_error go_on (ok a) = go_on a
catch_template_error on_error go_on (raise (template_error message)) = ok (on_error message)
catch_template_error on_error go_on (raise other_error) = raise other_error

module _ (jinja : Jinja) (template_path : Option Text) where
  open jinja use {Environment, Template, create_jinja_environment, get_template, render}

  abbrev pub environment_for : Option Environment → Dict Text Text → Environment
  environment_for (some env) params = env
  environment_for none params =
      create_jinja_environment
        (or_else (or_else (codes ".") template_path) (lookup (codes "template_dir") params))

  -- From the name of the template on, which is not empty.
  unfoldable pub generate_from :
      CodeGeneratorRequest
      → Option Environment
      → Dict Text Text
      → Text
      → Result Raised CodeGeneratorResponse
  unfolding catch_template_error failure context_of
  generate_from req env params template_name =
      catch_template_error (failure (codes "load") template_name)
        (λ template.
          catch_template_error (failure (codes "render") template_name)
            (λ output_content. ok (record {
              error = none;
              file =
                  (
                    or_else (codes "output.rs") (lookup (codes "output_name") params),
                    output_content,
                  )
                  ∷ [];
            }))
            (render template (context_of params req)))
        (get_template (environment_for env params) template_name)

  unfoldable pub generate_code :
      CodeGeneratorRequest → Option Environment → Result Raised CodeGeneratorResponse
  unfolding parse_params generate_from
  generate_code req env =
      let params = parse_params req.parameter in
      elim (lookup (codes "template_name") params) [
        | none ↦ ok (failed (codes "Missing parameter: template_name"))
        | some [] ↦ ok (failed (codes "Missing parameter: template_name"))
        | some (c ∷ cs) ↦ generate_from req env params (c ∷ cs)
      ]
