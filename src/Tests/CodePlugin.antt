-- ===== src/Tests/CodePlugin.antt =====
-- tools/plugin/ez_sdk.py at concrete inputs.
use encrypted_zone_sdk.Base.{◌≡◌, refl, none, [], ◌∷◌, text_eq}
use encrypted_zone_sdk.Base.Result.{ok, raise}
use encrypted_zone_sdk.Base.Text.{Text, codes}
use encrypted_zone_sdk.FilePath.{path_eq}
use encrypted_zone_sdk.Plugin.{
  ProtoFile, CodeGeneratorRequest, Jinja, template_error, generate_code, ez_services_of,
}
use encrypted_zone_sdk.Plugin.Filters.{snakecase}
use encrypted_zone_sdk.Plugin.Generated.{IsParam, written, generate_code-renders}
use encrypted_zone_sdk.Base.Text.{join, all-Lacks}
use encrypted_zone_sdk.Base.Dict.{Dict}
use encrypted_zone_sdk.Base.{All}
use encrypted_zone_sdk.Plugin.Response.{IsAnswered, generate_code-IsAnswered}

snake : snakecase (λ s. s) (codes "myHTTPServer2Go") ≡ codes "my_HTTP_Server2_Go"
unfolding snakecase
snake = refl

abbrev jinja : Jinja
jinja = record {
  Environment = Text;
  Template = Text;
  create_jinja_environment = λ dir. dir;
  get_template =
      λ env name. elim env [ [] ↦ raise (template_error (codes "none")) | c ∷ cs ↦ ok name ];
  render = λ template context. ok template;
}

abbrev greeter : ProtoFile
greeter = record {
  name = codes "g.proto";
  proto_package = codes "g";
  service = record { name = codes "Greet" } ∷ record { name = codes "Other" } ∷ [];
}

abbrev a_request : CodeGeneratorRequest
a_request = record {
  parameter = codes "template_name=t.j2,services=g.Greet";
  file_to_generate = codes "g.proto" ∷ [];
  proto_file = greeter ∷ [];
}

generate_code-IsAnswered_example : IsAnswered (generate_code jinja none a_request none)
generate_code-IsAnswered_example = generate_code-IsAnswered jinja none a_request none

generated :
    generate_code jinja none a_request none
    ≡ ok (record { error = none; file = (codes "output.rs", codes "t.j2") ∷ [] })
unfolding generate_code text_eq
generated = refl

chosen : ez_services_of (codes "g.Greet" ∷ []) greeter ≡ record { name = codes "Greet" } ∷ []
unfolding ez_services_of text_eq
chosen = refl

abbrev a_params : Dict Text Text
a_params = (codes "template_name", codes "t.j2") ∷ (codes "services", codes "g.Greet") ∷ []

a_params-IsParam : All IsParam a_params
a_params-IsParam = (
  (all-Lacks b'=' (codes "template_name") refl, all-Lacks b',' (codes "template_name=t.j2") refl),
  ((all-Lacks b'=' (codes "services") refl, all-Lacks b',' (codes "services=g.Greet") refl), tt),
)

a_request_parameter : codes "template_name=t.j2,services=g.Greet" ≡ written a_params
unfolding join
a_request_parameter = refl

generate_code-renders_example :
    generate_code jinja none a_request none
    ≡ ok (record { error = none; file = (codes "output.rs", codes "t.j2") ∷ [] })
unfolding text_eq
generate_code-renders_example =
    generate_code-renders jinja none a_request none a_params (codes "t.j2") (codes "t.j2")
      (codes "t.j2") a_params-IsParam a_request_parameter refl (λ e. cc) refl refl
