-- ===== src/Plugin/Generated.antt =====
-- What tools/plugin/ez_sdk.py generates for the parameters that it is given.
use encrypted_zone_sdk.Base.{
  ℕ, ◌≡◌, refl, ap, ◌∙◌, ◌≢◌, Option, none, some, List, [], ◌∷◌, map, All, text_eq,
}
use encrypted_zone_sdk.Base.Dict.{Dict, lookup, insert, update}
use encrypted_zone_sdk.Base.KeyValue.{argument, split_once-argument}
use encrypted_zone_sdk.Base.Result.{ok}
use encrypted_zone_sdk.Base.Text.{Text, codes, split, join, Lacks, split-Lacks, split-cons}
use encrypted_zone_sdk.Plugin.{
  CodeGeneratorRequest, Jinja, collect_params, parse_params, or_else, context_of, environment_for,
  catch_template_error, generate_from, generate_code,
}

-- The key has neither `=` nor `,`, and the value no `,`.
abbrev pub IsParam : Text × Text → Type 0
IsParam (key, value) = Lacks b'=' key × Lacks b',' (argument (key, value))

-- The parameters as `--ez_sdk_opt` has them.
abbrev pub written : Dict Text Text → Text
written items = join (codes ",") (map argument items)

split-join :
    (p : Text) (ps : List Text)
    → All (Lacks b',') (p ∷ ps)
    → split b',' (join (codes ",") (p ∷ ps)) ≡ p ∷ ps
unfolding join
split-join p [] (h, _) = split-Lacks b',' p h
split-join p (q ∷ ps) (h, hs) = split-cons b',' p _ h ∙ ap (λ l. p ∷ l) (split-join q ps hs)

All-Lacks : (items : Dict Text Text) → All IsParam items → All (Lacks b',') (map argument items)
All-Lacks [] _ = tt
All-Lacks (i ∷ items) (h, hs) = (h.1, All-Lacks items hs)

collect_params-update :
    (items params : Dict Text Text)
    → All IsParam items
    → collect_params (map argument items) params ≡ update params items
unfolding collect_params text_eq
collect_params-update [] params _ = refl
collect_params-update ((key, value) ∷ items) params (h, hs) =
    rw
      (
        split_once-argument key value (h.0),
        collect_params,
        collect_params-update items (insert key value params) hs,
      )
      refl

-- The parameters are read back.
parse_params-written :
    (items : Dict Text Text) → All IsParam items → parse_params (written items) ≡ update [] items
unfolding parse_params
parse_params-written [] _ = unfold collect_params split join in refl
parse_params-written (i ∷ items) h =
    ap (λ ps. collect_params ps [])
      (split-join (argument i) (map argument items) (All-Lacks (i ∷ items) h))
    ∙ collect_params-update (i ∷ items) [] h

module _ (jinja : Jinja) (template_path : Option Text) where
  named_template :
      (req : CodeGeneratorRequest) (env : Option (jinja.Environment)) (c : ℕ) (cs : Text)
      → lookup (codes "template_name") (parse_params req.parameter) ≡ some (c ∷ cs)
      → generate_code jinja template_path req env
        ≡ generate_from jinja template_path req env (parse_params req.parameter) (c ∷ cs)
  unfolding generate_code
  named_template req env c cs named = rw (named, generate_code) refl

  generate_from-renders :
      (req : CodeGeneratorRequest) (env : Option (jinja.Environment)) (params : Dict Text Text)
      (template_name content : Text) (template : jinja.Template)
      → jinja.get_template (environment_for jinja template_path env params) template_name
        ≡ ok template
      → jinja.render template (context_of params req) ≡ ok content
      → generate_from jinja template_path req env params template_name
        ≡ ok (record {
          error = none;
          file = (or_else (codes "output.rs") (lookup (codes "output_name") params), content) ∷ [];
        })
  unfolding generate_from catch_template_error
  generate_from-renders req env params template_name content template got renders =
      rw (got, catch_template_error) (rw (renders, catch_template_error) refl)

  -- If the parameters of the request are written from keys and values without `,`, the keys without
  -- `=`, they name a template that is not the empty name, the environment has it and it renders,
  -- then the response has one file and no error: the file with the rendered text, under the name
  -- that the parameters give, or `output.rs`.
  pub generate_code-renders :
      (req : CodeGeneratorRequest) (env : Option (jinja.Environment)) (items : Dict Text Text)
      (template_name content : Text) (template : jinja.Template)
      → All IsParam items
      → req.parameter ≡ written items
      → lookup (codes "template_name") (update [] items) ≡ some template_name
      → template_name ≢ []
      → jinja.get_template (environment_for jinja template_path env (update [] items)) template_name
        ≡ ok template
      → jinja.render template (context_of (update [] items) req) ≡ ok content
      → generate_code jinja template_path req env
        ≡ ok (record {
          error = none;
          file =
              (
                or_else (codes "output.rs") (lookup (codes "output_name") (update [] items)),
                content,
              )
              ∷ [];
        })
  unfolding generate_code
  generate_code-renders req env items [] content template params e named ne got renders =
      absurd (ne refl)
  generate_code-renders req env items (c ∷ cs) content template params e named ne got renders =
      let read = ap parse_params e ∙ parse_params-written items params in
      named_template req env c cs (ap (lookup (codes "template_name")) read ∙ named)
      ∙ ap (λ ps. generate_from jinja template_path req env ps (c ∷ cs)) read
      ∙ generate_from-renders req env (update [] items) (c ∷ cs) content template got renders
