-- ===== src/DockerRun/Args.antt =====
-- The arguments for docker that .devkit/scripts/docker_run.py takes from the terminal, from
-- devkit.json and from the environment.
use encrypted_zone_sdk.Base.{
  ◌≡◌, refl, sym, ap, ◌∙◌, ◌↔◌, Bool, true, false, Option, none, some, List, [], ◌∷◌, ◌++◌, map,
  text_eq,
}
use mathlib.Core.Path.{ap₂}
use encrypted_zone_sdk.Base.Result.{ok, raise, ◌>>=◌, >>=-eq-ok, ok-injective}
use encrypted_zone_sdk.Base.Text.{Text, codes}
use encrypted_zone_sdk.Build.Config.{ConfigFile, missing, undecodable, decoded}
use encrypted_zone_sdk.Build.Json.{
  Json, null, bool, number, str, arr, obj, Items, no_items, item, Fields, no_fields, field,
  type_error, attribute_error, Checked, get_field, truthy,
}
use encrypted_zone_sdk.DockerRun.{tty_args}

-- `value.get(key, default)`
unfoldable pub get : Text → Json → Json → Checked Json
get key default (obj fs) = elim (get_field key fs) [ none ↦ ok default | some v ↦ ok v ]
get key default v = raise attribute_error

abbrev pub values_of : Items → List Json
values_of no_items = []
values_of (item v vs) = v ∷ values_of vs

abbrev pub names_of : Fields → List Json
names_of no_fields = []
names_of (field k v fs) = str k ∷ names_of fs

-- What `extend` adds: a text is taken for its characters, and a dict for its keys.
unfoldable pub iterate : Json → Checked (List Json)
iterate (arr vs) = ok (values_of vs)
iterate (str s) = ok (map (λ c. str (c ∷ [])) s)
iterate (obj fs) = ok (names_of fs)
iterate v = raise type_error

unfoldable pub extend_if : Bool → Json → Checked (List Json)
unfolding iterate
extend_if true run_args = iterate run_args
extend_if false run_args = ok []

-- The `try` block, once the file is decoded.
unfoldable pub run_args_of : Json → Checked (List Json)
unfolding get extend_if truthy
run_args_of loaded = get (codes "docker") (obj no_fields) loaded >>= λ docker.
    get (codes "run") (arr no_items) docker >>= λ run_args. extend_if (truthy run_args) run_args

-- `except Exception`: nothing is added.
abbrev pub or_nothing : Checked (List Json) → List Json
or_nothing (ok values) = values
or_nothing (raise e) = []

unfoldable pub devkit_run_args : ConfigFile → List Json
unfolding run_args_of
devkit_run_args missing = []
devkit_run_args undecodable = []
devkit_run_args (decoded loaded) = or_nothing (run_args_of loaded)

-- The arguments of `DEVKIT_DOCKER_RUN_ARGS`; `split` is `shlex.split`, which may raise `ValueError`.
unfoldable pub env_run_args : (Text → Checked (List Text)) → Option Text → Checked (List Text)
env_run_args split none = ok []
env_run_args split (some []) = ok []
env_run_args split (some (c ∷ cs)) = split (c ∷ cs)

-- `os.path.expandvars(arg)`, which refuses what is no text.
unfoldable pub evaluate_arg : (Text → Text) → Json → Checked Text
evaluate_arg expandvars (str s) = ok (expandvars s)
evaluate_arg expandvars v = raise type_error

unfoldable pub evaluate : (Text → Text) → List Json → Checked (List Text)
unfolding evaluate_arg
evaluate expandvars [] = ok []
evaluate expandvars (arg ∷ args) =
    evaluate_arg expandvars arg >>= λ text. evaluate expandvars args >>= λ rest. ok (text ∷ rest)

-- The values of a middle part are texts, too.
same_cons : (x y : Text) (xs ys : List Json) → str x ∷ xs ≡ str y ∷ ys → (y ≡ x) × (xs ≡ ys)
same_cons x y xs ys h = (cc, cc)

texts_are : (xs ys : List Text) → map str xs ≡ map str ys → ys ≡ xs
texts_are [] [] h = refl
texts_are [] (y ∷ ys) h = cc
texts_are (x ∷ xs) [] h = cc
texts_are (x ∷ xs) (y ∷ ys) h =
    let (same, rest) = same_cons x y (map str xs) (map str ys) h in
    ap₂ ◌∷◌ same (texts_are xs ys rest)

middle_texts :
    (before after texts : List Text) (values : List Json)
    → map str before ++ (values ++ map str after) ≡ map str texts
    → (middle : List Text) × (values ≡ map str middle) × (texts ≡ before ++ (middle ++ after))
middle_texts (b ∷ before) after [] values h = cc
middle_texts (b ∷ before) after (t ∷ texts) values h =
    let (middle, e1, e2) = middle_texts before after texts values (cc) in
    (middle, e1, ap₂ ◌∷◌ (cc) e2)
middle_texts [] after texts [] h = ([], refl, texts_are after texts h)
middle_texts [] after [] (v ∷ values) h = cc
middle_texts [] after (t ∷ texts) (v ∷ values) h =
    let (middle, e1, e2) = middle_texts [] after texts values (cc) in
    (t ∷ middle, ap₂ ◌∷◌ (cc) e1, ap (λ l. t ∷ l) e2)

map-append : (xs ys : List Text) → map str (xs ++ ys) ≡ map str xs ++ map str ys
map-append [] ys = refl
map-append (x ∷ xs) ys = ap (λ l. str x ∷ l) (map-append xs ys)

module _ (split : Text → Checked (List Text)) (expandvars : Text → Text) where
  -- `evaluated_args`
  unfoldable pub docker_run_args : Bool → Bool → ConfigFile → Option Text → Checked (List Text)
  unfolding devkit_run_args env_run_args evaluate
  docker_run_args stdin stdout devkit_json environ = env_run_args split environ >>= λ env_args.
      evaluate expandvars
        (map str (tty_args stdin stdout) ++ (devkit_run_args devkit_json ++ map str env_args))

  evaluate-str :
      (texts : List Text) → evaluate expandvars (map str texts) ≡ ok (map expandvars texts)
  unfolding evaluate
  evaluate-str [] = refl
  evaluate-str (s ∷ texts) = rw (evaluate-str texts) refl

  evaluate_arg-eq-ok :
      (v : Json) (text : Text)
      → evaluate_arg expandvars v ≡ ok text
      → (s : Text) × (v ≡ str s) × (text ≡ expandvars s)
  unfolding evaluate_arg
  evaluate_arg-eq-ok (str s) text h = (s, refl, sym (ok-injective h))
  evaluate_arg-eq-ok null text h = cc
  evaluate_arg-eq-ok (bool b) text h = cc
  evaluate_arg-eq-ok (number n b) text h = cc
  evaluate_arg-eq-ok (arr vs) text h = cc
  evaluate_arg-eq-ok (obj fs) text h = cc

  -- Where it succeeds, all values are texts.
  evaluate-eq-ok :
      (values : List Json) (result : List Text)
      → evaluate expandvars values ≡ ok result
      → (texts : List Text) × (values ≡ map str texts) × (result ≡ map expandvars texts)
  unfolding evaluate
  evaluate-eq-ok [] result h = ([], refl, sym (ok-injective h))
  evaluate-eq-ok (v ∷ values) result h =
      let (text, e1, h') = >>=-eq-ok (evaluate_arg expandvars v) _ h in
      let (rest, e2, e3) = >>=-eq-ok (evaluate expandvars values) _ h' in
      let (s, v_is, text_is) = evaluate_arg-eq-ok v text e1 in
      let (texts, values_are, rest_is) = evaluate-eq-ok values rest e2 in
      (s ∷ texts, ap₂ ◌∷◌ v_is values_are, sym (ok-injective e3) ∙ ap₂ ◌∷◌ text_is rest_is)

  -- Once the environment's arguments are split, the arguments are evaluated exactly if those of
  -- devkit.json are texts, and then they are those of the terminal, of devkit.json and of the
  -- environment, in this order, each with its variables expanded. Otherwise a `TypeError` is raised.
  pub docker_run_args_iff :
      (stdin stdout : Bool) (devkit_json : ConfigFile) (environ : Option Text)
      (env_args args : List Text)
      → env_run_args split environ ≡ ok env_args
      → (docker_run_args stdin stdout devkit_json environ ≡ ok args) ↔ (
          (texts : List Text) × (devkit_run_args devkit_json ≡ map str texts)
          × (args ≡ map expandvars (tty_args stdin stdout ++ (texts ++ env_args))))
  unfolding docker_run_args
  docker_run_args_iff stdin stdout devkit_json environ env_args args h = rw h (
    λ e.
        let (all, values_are, args_are) = evaluate-eq-ok _ args e in
        let (texts, e1, e2) =
          middle_texts (tty_args stdin stdout) env_args all (devkit_run_args devkit_json)
            values_are in
        (texts, e1, args_are ∙ ap (map expandvars) e2),
    λ (texts, e1, e2).
        rw (e1, e2)
          (ap (evaluate expandvars) (
              sym (
                map-append (tty_args stdin stdout) (texts ++ env_args)
                ∙ ap (λ l. map str (tty_args stdin stdout) ++ l) (map-append texts env_args)))
            ∙ evaluate-str (tty_args stdin stdout ++ (texts ++ env_args))),
  )
