-- ===== src/Build/Request/Prepared.antt =====
-- What is prepared for `manage_docker_image` in .devkit/scripts/docker/build.py.
use encrypted_zone_sdk.Base.{
  ℕ, ◌≡◌, refl, sym, ap, subst, Bool, true, false, Option-cases, some, List, [], ◌∷◌, ◌++◌, inl,
  inr, text_eq,
}
use encrypted_zone_sdk.Base.Dict.{Dict, lookup}
use encrypted_zone_sdk.Base.Result.{ok, >>=-eq-ok, ok-injective}
use encrypted_zone_sdk.Base.Text.{Text, codes}
use encrypted_zone_sdk.Build.Tags.{
  Builder, key_error, exit_status_1, found_or, find_dockerfile, calculate_tag_for_image,
}
use encrypted_zone_sdk.Build.Tags.Content.{TagOf, IsCorrect, calculate_tag_for_image-Calculates}
use encrypted_zone_sdk.Build.Docker.{Request, Command, build_arg_options, docker_build_cmd}
use encrypted_zone_sdk.Build.Request.{
  dep_args, joined, extra_pair, extra_pairs, request_of, prepare,
}

-- Each name has its value.
abbrev is_paired : List Text → Bool
is_paired [] = true
is_paired (name ∷ []) = false
is_paired (name ∷ value ∷ rest) = is_paired rest

paired-append :
    (xs ys : List Text) → is_paired xs ≡ true → is_paired ys ≡ true → is_paired (xs ++ ys) ≡ true
paired-append [] ys hx hy = hy
paired-append (x ∷ []) ys hx hy = absurd (cc)
paired-append (x ∷ y ∷ xs) ys hx hy = paired-append xs ys hx hy

build_arg_options-paired :
    (xs : List Text)
    → is_paired xs ≡ true
    → (options : List Text) × (build_arg_options xs ≡ some options)
unfolding build_arg_options
build_arg_options-paired [] h = ([], refl)
build_arg_options-paired (x ∷ []) h = absurd (cc)
build_arg_options-paired (x ∷ y ∷ xs) h =
    let (options, e) = build_arg_options-paired xs h in
    (codes "--build-arg" ∷ (x ++ (b'=' ∷ y)) ∷ options, rw (e, build_arg_options) refl)

dep_args-paired :
    (deps tags : Dict Text Text) (args : List Text)
    → dep_args deps tags ≡ ok args
    → is_paired args ≡ true
unfolding dep_args
dep_args-paired [] tags args e = subst (λ l. is_paired l ≡ true) (ok-injective e) refl
dep_args-paired ((a, dep) ∷ deps) tags args e =
    let (t, _, rest) = >>=-eq-ok (found_or key_error (lookup dep tags)) _ e in
    let (more, e2, e3) = >>=-eq-ok (dep_args deps tags) _ rest in
    subst (λ l. is_paired l ≡ true) (ok-injective e3) (dep_args-paired deps tags more e2)

joined-paired : (arg_name : Text) (vs : List Text) → is_paired (joined arg_name vs) ≡ true
joined-paired arg_name [] = refl
joined-paired arg_name (v ∷ vs) = refl

extra_pair-paired :
    (arg_name : Text) (entries : Dict Text (List Text)) (name : Text)
    → is_paired (extra_pair arg_name entries name) ≡ true
unfolding extra_pair
extra_pair-paired arg_name entries name = elim (Option-cases (lookup name entries)) [
  | inl gone ↦ rw (gone, extra_pair) refl
  | inr (vs, e) ↦ rw (e, extra_pair) (joined-paired arg_name vs)
]

extra_pairs-paired :
    (b : Builder) (dirname : Text → Text) (name : Text)
    → is_paired (extra_pairs b dirname name) ≡ true
unfolding extra_pairs
extra_pairs-paired b dirname name =
    paired-append (extra_pair (codes "EXTRA_PACKAGES") b.extra.extra_packages_map name) _
      (extra_pair-paired (codes "EXTRA_PACKAGES") b.extra.extra_packages_map name)
      (paired-append (extra_pair (codes "EXTRA_KEYS") b.extra.extra_keys_map name) _
        (extra_pair-paired (codes "EXTRA_KEYS") b.extra.extra_keys_map name)
        (extra_pair-paired (codes "EXTRA_REPOSITORIES") b.extra.extra_repositories_map name))

build_cmd-some :
    (r : Request) (options : List Text)
    → build_arg_options r.build_args_list ≡ some options
    → (command : Command) × (docker_build_cmd r.tag r.dockerfile_path r.build_args_list
          r.context_path r.no_cache
        ≡ some command)
unfolding docker_build_cmd
build_cmd-some r options h =
    elim (Option-cases
      (docker_build_cmd r.tag r.dockerfile_path r.build_args_list r.context_path r.no_cache)) [
        | inr found ↦ found
        | inl gone ↦ absurd (let gone' = rw (h, docker_build_cmd) at gone in cc)
      ]

module _ (b : Builder) (dirname : Text → Text) (no_cache local : Bool) (name : Text) where
  abbrev Prepared : Text → Request → Type 0
  Prepared tag r = (r.tag ≡ tag) × (is_paired r.build_args_list ≡ true)

  request_of-Prepared :
      (tag : Text) (tags : Dict Text Text) (r : Request)
      → request_of b dirname no_cache local name tag tags ≡ ok r
      → Prepared tag r
  unfolding request_of
  request_of-Prepared tag tags r e =
      let (conf, e1, rest1) =
        >>=-eq-ok (found_or key_error (lookup name b.image_configs_map)) _ e in
      let (path, e2, rest2) = >>=-eq-ok (found_or exit_status_1 (find_dockerfile b name)) _ rest1 in
      let (args, e3, e4) = >>=-eq-ok (dep_args conf.deps tags) _ rest2 in
      subst (Prepared tag) (ok-injective e4) (
        refl,
        paired-append args (extra_pairs b dirname name) (dep_args-paired conf.deps tags args e3)
            (extra_pairs-paired b dirname name),
      )

  -- What is prepared for an image has its tag.
  pub prepare-TagOf :
      (depth : ℕ) (tags : Dict Text Text) (r : Request) (tags' : Dict Text Text)
      → IsCorrect b tags
      → prepare b dirname depth no_cache local name tags ≡ ok (r, tags')
      → TagOf b name r.tag × IsCorrect b tags'
  unfolding prepare
  prepare-TagOf depth tags r tags' c e =
      let ((tag, tags1), e1, rest) = >>=-eq-ok (calculate_tag_for_image b depth name tags) _ e in
      let (r1, e2, e3) = >>=-eq-ok (request_of b dirname no_cache local name tag tags1) _ rest in
      let (tagged, c1) = calculate_tag_for_image-Calculates b depth name tags (tag, tags1) c e1 in
      subst (λ x. TagOf b name (x.0.tag) × IsCorrect b (x.1)) (ok-injective e3)
        (subst (TagOf b name) (sym (request_of-Prepared tag tags1 r1 e2).0) tagged, c1)

  -- The build arguments that are prepared come in pairs: `build_image` never runs into an
  -- `IndexError`.
  pub prepare-docker_build_cmd :
      (depth : ℕ) (tags : Dict Text Text) (r : Request) (tags' : Dict Text Text)
      → prepare b dirname depth no_cache local name tags ≡ ok (r, tags')
      → (command : Command) × (docker_build_cmd r.tag r.dockerfile_path r.build_args_list
            r.context_path r.no_cache
          ≡ some command)
  unfolding prepare
  prepare-docker_build_cmd depth tags r tags' e =
      let ((tag, tags1), e1, rest) = >>=-eq-ok (calculate_tag_for_image b depth name tags) _ e in
      let (r1, e2, e3) = >>=-eq-ok (request_of b dirname no_cache local name tag tags1) _ rest in
      let same : r1 ≡ r = ap (λ x. x.0) (ok-injective e3) in
      let (options, h) = build_arg_options-paired r.build_args_list (
        subst (λ q. is_paired (q.build_args_list) ≡ true) same
          (request_of-Prepared tag tags1 r1 e2).1) in
      build_cmd-some r options h
