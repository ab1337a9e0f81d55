-- ===== src/Cleanup/Current.antt =====
-- The clean-up of .devkit/scripts/docker_cleanup.py spares the images that
-- .devkit/scripts/docker/build.py would use.
use encrypted_zone_sdk.Base.{
  ◌≡◌, sym, ap, ◌∙◌, subst, ℕ, true, false, List, [], All, contains, text_eq, Bool-cases, inl, inr,
}
use encrypted_zone_sdk.Base.Int.{ℤ}
use encrypted_zone_sdk.Base.Members.{All-intro}
use encrypted_zone_sdk.Base.Result.{ok, raise, >>=-eq-ok, ok-injective}
use encrypted_zone_sdk.Base.Text.{Text}
use encrypted_zone_sdk.Build.Maker.{of_tagged, get_all_docker_image_tags}
use encrypted_zone_sdk.Build.Registry.{get_image_prefix}
use encrypted_zone_sdk.Build.Tags.{
  Builder, Tagged, key_error, exit_status_1, read_error, recursion_error, calculate_tags,
}
use encrypted_zone_sdk.Build.Tags.Content.{AllTags, calculate_tags-AllTags}
use encrypted_zone_sdk.Cleanup.{is_allowed}
use encrypted_zone_sdk.Cleanup.Batches.{StaysSet}
use encrypted_zone_sdk.Cleanup.Loop.{Cleaner}
use encrypted_zone_sdk.Cleanup.Main.{Surroundings, cleanup}
use encrypted_zone_sdk.Cleanup.Sparing.{listed_for, cleanup-spares}

of_tagged-eq-ok : {A : Type 0} (t : Tagged A) (a : A) → of_tagged t ≡ ok a → t ≡ ok a
of_tagged-eq-ok (ok b) a h = ap ok (ok-injective h)
of_tagged-eq-ok (raise key_error) a h = cc
of_tagged-eq-ok (raise exit_status_1) a h = cc
of_tagged-eq-ok (raise read_error) a h = cc
of_tagged-eq-ok (raise recursion_error) a h = cc

module _ (build_order : Builder → Tagged (List Text)) (depth : ℕ) (b : Builder) where
  -- The tags that `get_all_docker_image_tags` returns are those of the build order.
  get_all_docker_image_tags-AllTags :
      (tags : List Text)
      → get_all_docker_image_tags build_order depth (ok b) ≡ ok tags
      → (order : List Text) × (build_order b ≡ ok order) × AllTags b order tags
  unfolding get_all_docker_image_tags
  get_all_docker_image_tags-AllTags tags h =
      let (order, e1, h1) = >>=-eq-ok (of_tagged (build_order b)) _ h in
      let (r, e2, h2) = >>=-eq-ok (of_tagged (calculate_tags b depth order [])) _ h1 in
      let (all_tags, _) =
        calculate_tags-AllTags b depth order [] r (λ name t e. cc) (of_tagged-eq-ok _ r e2) in
      (order, of_tagged-eq-ok _ order e1, subst (AllTags b order) (ok-injective h2) all_tags)

  -- If the current tags are those that `get_all_docker_image_tags` returns, and the event stays set
  -- once it is, they are the tags of the images of the build order, one by one, and the clean-up
  -- begins to remove none of them; each image that it begins to remove has an allowed name, and was
  -- listed by docker for the prefix that the configuration gives.
  pub cleanup-spares_current :
      (s : Surroundings) (batch_size threshold_days : ℤ) (tags : List Text) (c : Cleaner)
      → StaysSet s.cancelled
      → s.current_tags ≡ get_all_docker_image_tags build_order depth (ok b)
      → s.current_tags ≡ ok tags
      → cleanup s batch_size threshold_days ≡ ok c
      → ((order : List Text) × (build_order b ≡ ok order) × AllTags b order tags)
        × All (λ t. contains c.begun t ≡ false) tags
        × ((img : Text)
            → contains c.begun img ≡ true
            → (is_allowed img ≡ true)
              × ((image_prefix : Text) × (get_image_prefix s.show s.config_path ≡ ok image_prefix)
                  × (contains (listed_for s image_prefix threshold_days) img ≡ true)))
  cleanup-spares_current s batch_size threshold_days tags c stays current are h = (
    get_all_docker_image_tags-AllTags tags (sym current ∙ are),
    All-intro (λ t. contains c.begun t ≡ false) tags
        (λ t m. elim (Bool-cases (contains c.begun t)) [
          | inl begun ↦ absurd (
              cc
                (sym m ∙ (cleanup-spares s batch_size threshold_days tags c t stays are h begun).0))
          | inr spared ↦ spared
        ]),
    λ img begun.
        let (_, allowed, there) =
          cleanup-spares s batch_size threshold_days tags c img stays are h begun in
        (allowed, there),
  )
