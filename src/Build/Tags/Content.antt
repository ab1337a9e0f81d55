-- ===== src/Build/Tags/Content.antt =====
-- `calculate_tags` of .devkit/scripts/docker/build.py, and a definition of tags with no table.
use encrypted_zone_sdk.Base.{
  ℕ, zero, suc, ◌≡◌, sym, Option, none, some, List, [], ◌∷◌, arith, inl, inr, Option-cases, ◌==◌,
  ==_iff, Bool-cases, text_eq, subst,
}
use encrypted_zone_sdk.Base.Dict.{Dict, lookup, insert, lookup-insert}
use encrypted_zone_sdk.Base.Result.{ok, >>=-eq-ok, ok-injective}
use encrypted_zone_sdk.Base.Text.{Text}
use encrypted_zone_sdk.Build.Tags.{
  ImageConfig, Builder, Tagged, TagError, key_error, exit_status_1, found_or, assign,
  find_dockerfile, tag_from, calculate_deps, calculate_tag_for_image, calculate_tags,
}

-- The tag of an image, by its definition: from its Dockerfile and the tags of its dependencies,
-- with no table of tags.
mutual
  pub data TagOf (b : Builder) : Text → Text → Type 0 where
    tag_of :
        (image_name dockerfile_path : Text) (conf : ImageConfig) (args : List Text)
        → lookup image_name (b.image_configs_map) ≡ some conf
        → find_dockerfile b image_name ≡ some dockerfile_path
        → ArgsOf b (conf.deps) args
        → TagOf b image_name (tag_from b image_name dockerfile_path args)

  pub data ArgsOf (b : Builder) : Dict Text Text → List Text → Type 0 where
    no_args : ArgsOf b [] []
    arg :
        (arg_name dep_image_name tag : Text) (deps : Dict Text Text) (args : List Text)
        → TagOf b dep_image_name tag
        → ArgsOf b deps args
        → ArgsOf b ((arg_name, dep_image_name) ∷ deps) (assign arg_name tag ∷ args)

found_or-ok {ℓ} :
    {A : Type ℓ} (e : TagError) (o : Option A) {a : A} → found_or e o ≡ ok a → o ≡ some a
found_or-ok e none h = cc
found_or-ok e (some a) h = cc

module _ (b : Builder) where
  -- Every entry of `generated_tags` is the tag of its image.
  abbrev pub IsCorrect : Dict Text Text → Type 0
  IsCorrect tags = (name t : Text) → lookup name tags ≡ some t → TagOf b name t

  -- What a call returns: a correct tag, and a correct table.
  abbrev pub Calculates : Text → Text × Dict Text Text → Type 0
  Calculates name (t, tags) = TagOf b name t × IsCorrect tags

  insert-IsCorrect :
      (name t : Text) (tags : Dict Text Text)
      → TagOf b name t
      → IsCorrect tags
      → IsCorrect (insert name t tags)
  insert-IsCorrect name t tags h c k u e = elim (Bool-cases (k == name)) [
    | inl same ↦
        let it : t ≡ u = ground (arith, lookup-insert k name t tags) in
        subst (TagOf b k) it (subst (λ n. TagOf b n t) (sym ((==_iff k name).0 same)) h)
    | inr other ↦ c k u (ground (arith, lookup-insert k name t tags))
  ]

  calculate_deps-ArgsOf :
      (calculate : Text → Dict Text Text → Tagged (Text × Dict Text Text))
      → ((name : Text) (tags : Dict Text Text) (r : Text × Dict Text Text)
          → IsCorrect tags
          → calculate name tags ≡ ok r
          → Calculates name r)
      → (deps tags : Dict Text Text) (r : List Text × Dict Text Text) → IsCorrect tags
      → calculate_deps b calculate deps tags ≡ ok r
      → ArgsOf b deps r.0 × IsCorrect r.1
  unfolding calculate_deps
  calculate_deps-ArgsOf calculate sound [] tags r c e =
      subst (λ x. ArgsOf b [] (x.0) × IsCorrect (x.1)) (ok-injective e) (no_args, c)
  calculate_deps-ArgsOf calculate sound ((a, dep) ∷ deps) tags r c e =
      let ((t, tags1), e1, rest) = >>=-eq-ok (calculate dep tags) _ e in
      let ((args, tags2), e2, e3) = >>=-eq-ok (calculate_deps b calculate deps tags1) _ rest in
      let (tagged, c1) = sound dep tags (t, tags1) c e1 in
      let (more, c2) = calculate_deps-ArgsOf calculate sound deps tags1 (args, tags2) c1 e2 in
      subst (λ x. ArgsOf b ((a, dep) ∷ deps) (x.0) × IsCorrect (x.1)) (ok-injective e3)
        (arg a dep t deps args tagged more, c2)

  pub calculate_tag_for_image-Calculates :
      (depth : ℕ) (name : Text) (tags : Dict Text Text) (r : Text × Dict Text Text)
      → IsCorrect tags
      → calculate_tag_for_image b depth name tags ≡ ok r
      → Calculates name r
  unfolding calculate_tag_for_image
  calculate_tag_for_image-Calculates zero name tags r c e = cc
  calculate_tag_for_image-Calculates (suc depth) name tags r c e =
      elim (Option-cases (lookup name tags)) [
        | inr (t, known) ↦
            subst (Calculates name) (ok-injective (rw (known, calculate_tag_for_image) at e))
              (c name t known, c)
        | inl new ↦
            let e0 = rw (new, calculate_tag_for_image) at e in
            let (conf, e1, after_conf) =
              >>=-eq-ok (found_or key_error (lookup name (b.image_configs_map))) _ e0 in
            let (path, e2, after_path) =
              >>=-eq-ok (found_or exit_status_1 (find_dockerfile b name)) _ after_conf in
            let ((args, tags'), e3, e4) =
              >>=-eq-ok (calculate_deps b (calculate_tag_for_image b depth) (conf.deps) tags) _
                after_path in
            let (deps_args, c') =
              calculate_deps-ArgsOf (calculate_tag_for_image b depth)
                (calculate_tag_for_image-Calculates depth) (conf.deps) tags (args, tags') c e3 in
            let t =
              tag_of name path conf args (found_or-ok key_error _ e1)
                (found_or-ok exit_status_1 _ e2) deps_args in
            subst (Calculates name) (ok-injective e4) (t, insert-IsCorrect name _ tags' t c')
      ]

  -- The tags of a build order, one by one.
  abbrev pub AllTags : List Text → List Text → Type 0
  AllTags [] [] = Unit
  AllTags (name ∷ names) (t ∷ ts) = TagOf b name t × AllTags names ts
  AllTags _ _ = ⊥

  -- Whatever is in the table before, as long as it is correct: `calculate_tags` returns the tag of
  -- each image of the build order, in its place, and leaves a correct table.
  pub calculate_tags-AllTags :
      (depth : ℕ) (names : List Text) (tags : Dict Text Text) (r : List Text × Dict Text Text)
      → IsCorrect tags
      → calculate_tags b depth names tags ≡ ok r
      → AllTags names r.0 × IsCorrect r.1
  unfolding calculate_tags
  calculate_tags-AllTags depth [] tags r c e =
      subst (λ x. AllTags [] (x.0) × IsCorrect (x.1)) (ok-injective e) (tt, c)
  calculate_tags-AllTags depth (name ∷ names) tags r c e =
      let ((t, tags1), e1, rest) = >>=-eq-ok (calculate_tag_for_image b depth name tags) _ e in
      let ((ts, tags2), e2, e3) = >>=-eq-ok (calculate_tags b depth names tags1) _ rest in
      let (tagged, c1) = calculate_tag_for_image-Calculates depth name tags (t, tags1) c e1 in
      let (more, c2) = calculate_tags-AllTags depth names tags1 (ts, tags2) c1 e2 in
      subst (λ x. AllTags (name ∷ names) (x.0) × IsCorrect (x.1)) (ok-injective e3)
        ((tagged, more), c2)
