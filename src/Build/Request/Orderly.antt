-- ===== src/Build/Request/Orderly.antt =====
-- What `build_images` of .devkit/scripts/docker/build.py needs for each image of the build order.
use encrypted_zone_sdk.Base.{
  ℕ, suc, ◌≡◌, refl, sym, subst, Bool, true, Bool-cases, ◌||◌, some, Option-cases, List, [], ◌∷◌,
  ◌++◌, inl, inr, All, arith, contains, ◌==◌, ==_iff, text_eq,
}
use encrypted_zone_sdk.Base.Dict.{Dict, lookup, insert, lookup-insert, lookup-insert_self}
use encrypted_zone_sdk.Base.Result.{ok}
use encrypted_zone_sdk.Base.Text.{Text}
use encrypted_zone_sdk.Build.Tags.{
  ImageConfig, Builder, find_dockerfile, calculate_deps, calculate_tag_for_image, tag_from, assign,
}
use encrypted_zone_sdk.Build.Docker.{Request}
use encrypted_zone_sdk.Build.Request.{dep_args, extra_pairs, request_of, prepare}

module _ (b : Builder) where
  -- Behind the images `before`: each image has its configuration and its Dockerfile, and its
  -- dependencies come before it.
  abbrev pub Orderly : List Text → List Text → Type 0
  Orderly before [] = Unit
  Orderly before (name ∷ names) =
      (conf : ImageConfig) × (path : Text) × (lookup name b.image_configs_map ≡ some conf)
      × (find_dockerfile b name ≡ some path)
      × All (λ (_, dep). contains before dep ≡ true) conf.deps
      × Orderly (name ∷ before) names

  -- The table has a tag of each of these images.
  abbrev pub HasAll : List Text → Dict Text Text → Type 0
  HasAll names tags =
      (name : Text) → contains names name ≡ true → (t : Text) × (lookup name tags ≡ some t)

  HasAll-known :
      (names : List Text) (name t : Text) (tags : Dict Text Text)
      → lookup name tags ≡ some t
      → HasAll names tags
      → HasAll (name ∷ names) tags
  HasAll-known names name t tags e has n m = elim (Bool-cases (n == name)) [
    | inl same ↦ (t, subst (λ k. lookup k tags ≡ some t) (sym ((==_iff n name).0 same)) e)
    | inr other ↦ has n (ground (arith, m, other))
  ]

  HasAll-insert :
      (names : List Text) (name t : Text) (tags : Dict Text Text)
      → HasAll names tags
      → HasAll names (insert name t tags)
  HasAll-insert names name t tags has n m =
      let (u, e) = has n m in
      elim (Bool-cases (n == name)) [
        | inl same ↦ (t, ground (arith, lookup-insert n name t tags))
        | inr other ↦ (u, ground (arith, lookup-insert n name t tags))
      ]

  module _ (before : List Text) (tags : Dict Text Text) (has : HasAll before tags) where
    calculate_deps-returns :
        (depth : ℕ) (deps : Dict Text Text)
        → All (λ (_, dep). contains before dep ≡ true) deps
        → (args : List Text) × (calculate_deps b (calculate_tag_for_image b (suc depth)) deps tags
            ≡ ok (args, tags))
    unfolding calculate_deps calculate_tag_for_image
    calculate_deps-returns depth [] _ = ([], refl)
    calculate_deps-returns depth ((arg_name, dep) ∷ deps) (h, hs) =
        let (t, e) = has dep h in
        let (args, rest) = calculate_deps-returns depth deps hs in
        (assign arg_name t ∷ args, rw (e, calculate_tag_for_image) (rw rest refl))

    dep_args-returns :
        (deps : Dict Text Text)
        → All (λ (_, dep). contains before dep ≡ true) deps
        → (args : List Text) × (dep_args deps tags ≡ ok args)
    unfolding dep_args
    dep_args-returns [] _ = ([], refl)
    dep_args-returns ((arg_name, dep) ∷ deps) (h, hs) =
        let (t, e) = has dep h in
        let (args, rest) = dep_args-returns deps hs in (arg_name ∷ t ∷ args, rw e (rw rest refl))

  -- The tag of an image whose dependencies have theirs.
  calculate_tag-returns :
      (depth : ℕ) (before : List Text) (tags : Dict Text Text) (name path : Text)
      (conf : ImageConfig)
      → HasAll before tags
      → lookup name b.image_configs_map ≡ some conf
      → find_dockerfile b name ≡ some path
      → All (λ (_, dep). contains before dep ≡ true) conf.deps
      → (t : Text) × (tags' : Dict Text Text) × (calculate_tag_for_image b
            (suc (suc depth))
            name
            tags
          ≡ ok (t, tags'))
        × HasAll before tags'
        × HasAll (name ∷ before) tags'
  unfolding calculate_tag_for_image
  calculate_tag-returns depth before tags name path conf has configured found deps =
      elim (Option-cases (lookup name tags)) [
        | inr (t, known) ↦ (
          t,
          tags,
          rw (known, calculate_tag_for_image) refl,
          has,
          HasAll-known before name t tags known has,
        )
        | inl new ↦
            let (args, e) = calculate_deps-returns before tags has depth conf.deps deps in
            let t = tag_from b name path args in
            (
              t,
              insert name t tags,
              rw (new, calculate_tag_for_image) (rw configured (rw found (rw e refl))),
              HasAll-insert before name t tags has,
              HasAll-known before name t (insert name t tags) (lookup-insert_self name t tags)
                  (HasAll-insert before name t tags has),
            )
      ]

  -- With the tags of its dependencies, all of an image can be prepared.
  pub prepare-returns :
      (dirname : Text → Text) (depth : ℕ) (no_cache local_flag : Bool) (before : List Text)
      (tags : Dict Text Text) (name path : Text) (conf : ImageConfig)
      → HasAll before tags
      → lookup name b.image_configs_map ≡ some conf
      → find_dockerfile b name ≡ some path
      → All (λ (_, dep). contains before dep ≡ true) conf.deps
      → (r : Request) × (tags' : Dict Text Text) × (prepare b dirname
            (suc (suc depth))
            no_cache
            local_flag
            name
            tags
          ≡ ok (r, tags'))
        × HasAll (name ∷ before) tags'
  unfolding prepare request_of
  prepare-returns dirname depth no_cache local_flag before tags name path conf has configured found
        deps =
      let (t, tags', e, has_before, has_all) =
        calculate_tag-returns depth before tags name path conf has configured found deps in
      let (args, e') = dep_args-returns before tags' has_before conf.deps deps in
      (
        record {
          tag = t;
          dockerfile_path = path;
          build_args_list = args ++ extra_pairs b dirname name;
          context_path = dirname path;
          local_image_mode = local_flag || conf.local;
          no_cache = no_cache;
          repo = b.registry.repo;
        },
        tags',
        rw e (rw (configured, request_of) (rw found (rw e' refl))),
        has_all,
      )
