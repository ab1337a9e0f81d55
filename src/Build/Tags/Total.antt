-- ===== src/Build/Tags/Total.antt =====
-- The depth of the recursion of `calculate_tag_for_image` in .devkit/scripts/docker/build.py.
use encrypted_zone_sdk.Base.{
  ℕ, zero, suc, ◌<◌, ◌≡◌, refl, some, List, [], ◌∷◌, arith, inl, inr, Option-cases, text_eq, All,
  All-map,
}
use encrypted_zone_sdk.Base.Dict.{Dict, lookup, insert}
use encrypted_zone_sdk.Base.Result.{ok}
use encrypted_zone_sdk.Base.Text.{Text}
use encrypted_zone_sdk.Build.Tags.{
  ImageConfig, Builder, Tagged, assign, find_dockerfile, tag_from, calculate_deps,
  calculate_tag_for_image, calculate_tags,
}

module _ (b : Builder) (rank : Text → ℕ) where
  -- The image is configured and has a Dockerfile, and each dependency has a lower rank.
  pub record IsBuildable (name : Text) : Type 0 where
    pub conf : ImageConfig
    pub path : Text
    pub configured : lookup name (b.image_configs_map) ≡ some conf
    pub has_dockerfile : find_dockerfile b name ≡ some path
    pub deps_below : All (λ (_, dep). rank dep < rank name) (conf.deps)

  abbrev pub AllBuildable : (Text → Type 0) → Type 0
  AllBuildable Known = (name : Text) → Known name → IsBuildable name

module _ (b : Builder) (rank : Text → ℕ) (Known : Text → Type 0)
    (buildable : (name : Text) → Known name → IsBuildable b rank name)
    (closed : (name : Text) (k : Known name)
      → All (λ (_, dep). Known dep) ((buildable name k).conf.deps)) where
  calculate_deps-returns :
      (calculate : Text → Dict Text Text → Tagged (Text × Dict Text Text)) (bound : ℕ)
      → ((name : Text) (tags : Dict Text Text)
          → Known name
          → rank name < bound
          → (r : Text × Dict Text Text) × (calculate name tags ≡ ok r))
      → (deps tags : Dict Text Text) → All (λ (_, dep). Known dep) deps
      → All (λ (_, dep). rank dep < bound) deps
      → (r : List Text × Dict Text Text) × (calculate_deps b calculate deps tags ≡ ok r)
  unfolding calculate_deps
  calculate_deps-returns calculate bound returns [] tags _ _ = (([], tags), refl)
  calculate_deps-returns calculate bound returns ((a, dep) ∷ deps) tags (k, ks) (lt, lts) =
      let ((t, tags1), e1) = returns dep tags k lt in
      let ((args, tags2), e2) = calculate_deps-returns calculate bound returns deps tags1 ks lts in
      ((assign a t ∷ args, tags2), rw e1 (rw e2))

  -- A tag is calculated for every known image, with a depth above its rank.
  pub calculate_tag_for_image-returns :
      (depth : ℕ) (name : Text) (tags : Dict Text Text)
      → Known name
      → rank name < depth
      → (r : Text × Dict Text Text) × (calculate_tag_for_image b depth name tags ≡ ok r)
  unfolding calculate_tag_for_image
  calculate_tag_for_image-returns zero name tags k lt = absurd (omega arith)
  calculate_tag_for_image-returns (suc depth) name tags k lt =
      elim (Option-cases (lookup name tags)) [
        | inr (t, known) ↦ ((t, tags), rw (known, calculate_tag_for_image))
        | inl new ↦
            let image = buildable name k in
            let ((args, tags'), e) =
              calculate_deps-returns (calculate_tag_for_image b depth) depth
                (calculate_tag_for_image-returns depth) (image.conf.deps) tags (closed name k)
                (All-map _ _ (image.conf.deps)
                  (λ (d : Text × Text) (h : rank d.1 < rank name). omega arith)
                  (image.deps_below)) in
            (
              (
                tag_from b name (image.path) args,
                insert name (tag_from b name (image.path) args) tags',
              ),
              rw (new, calculate_tag_for_image)
                  (rw (image.configured) (rw (image.has_dockerfile) (rw e))),
            )
      ]

  -- Where the images are known, their dependencies too, and each dependency ranks below what needs
  -- it, the tags of any list of images are calculated, with a depth above their ranks.
  pub calculate_tags-returns :
      (depth : ℕ) (names : List Text) (tags : Dict Text Text)
      → All Known names
      → All (λ name. rank name < depth) names
      → (r : List Text × Dict Text Text) × (calculate_tags b depth names tags ≡ ok r)
  unfolding calculate_tags
  calculate_tags-returns depth [] tags _ _ = (([], tags), refl)
  calculate_tags-returns depth (name ∷ names) tags (k, ks) (lt, lts) =
      let ((t, tags1), e1) = calculate_tag_for_image-returns depth name tags k lt in
      let ((ts, tags2), e2) = calculate_tags-returns depth names tags1 ks lts in
      ((t ∷ ts, tags2), rw e1 (rw e2))
