-- ===== src/Cleanup/Sparing.antt =====
-- Which images the clean-up of .devkit/scripts/docker_cleanup.py removes, from what docker lists to
-- the removals.
use encrypted_zone_sdk.Base.{
  ◌≡◌, refl, sym, ap, ◌∙◌, subst, ℕ, zero, suc, Bool, true, false, Option, List, ◌++◌, arith,
  contains, contains-append, text_eq, Bool-cases, inl, inr, not, ◌&&◌,
}
use encrypted_zone_sdk.Base.Int.{ℤ, pos, negsuc}
use encrypted_zone_sdk.Base.Result.{Result, ok, raise, ok-injective, >>=-eq-ok}
use encrypted_zone_sdk.Base.Text.{Text}
use encrypted_zone_sdk.Build.Json.{Checked}
use encrypted_zone_sdk.Build.Registry.{get_image_prefix}
use encrypted_zone_sdk.Cleanup.{
  Failure, is_allowed, get_images, images_command, get_images_to_cleanup,
}
use encrypted_zone_sdk.Cleanup.Batches.{StaysSet, cleanup_images-in_order}
use encrypted_zone_sdk.Cleanup.Loop.{Cleaner, cleanup_selected, cleanup_images}
use encrypted_zone_sdk.Cleanup.Main.{Surroundings, prefix_or_fail, outcome_of, find_images, cleanup}
use encrypted_zone_sdk.Cleanup.Selected.{contains-get_images_to_cleanup}

-- The images whose removal was begun are the first of the selected ones.
abbrev Begins : List Text → Cleaner → Type 0
Begins all_to_cleanup c = (rest : List Text) × (all_to_cleanup ≡ c.begun ++ rest)

module _ (cancelled : ℕ → Bool) (polls : Text → Option ℕ) (stays : StaysSet cancelled) where
  cleanup_images-Begins :
      (batch_size : ℤ) (all_to_cleanup : List Text) (c : Cleaner)
      → cleanup_images cancelled polls batch_size (ok all_to_cleanup) ≡ ok c
      → Begins all_to_cleanup c
  unfolding cleanup_images
  cleanup_images-Begins (pos (suc n)) all_to_cleanup c h =
      let (c', rest, e, parts, _) =
        cleanup_images-in_order cancelled polls stays n all_to_cleanup in
      (
        rest,
        subst (λ (x : Cleaner). all_to_cleanup ≡ x.begun ++ rest) (ok-injective (sym e ∙ h)) parts,
      )
  cleanup_images-Begins (pos zero) all_to_cleanup c h = elim (Bool-cases (cancelled 0)) [
    | inl set ↦ (
      all_to_cleanup,
      ap (λ (x : Cleaner). x.begun ++ all_to_cleanup)
          (ok-injective (rw (set, cleanup_images) at h)),
    )
    | inr unset ↦ absurd (cc (rw (unset, cleanup_images, cleanup_selected) at h))
  ]
  cleanup_images-Begins (negsuc n) all_to_cleanup c h = elim (Bool-cases (cancelled 0)) [
    | inl set ↦ (
      all_to_cleanup,
      ap (λ (x : Cleaner). x.begun ++ all_to_cleanup)
          (ok-injective (rw (set, cleanup_images) at h)),
    )
    | inr unset ↦ (
      all_to_cleanup,
      ap (λ (x : Cleaner). x.begun ++ all_to_cleanup)
          (ok-injective (rw (unset, cleanup_images, cleanup_selected) at h)),
    )
  ]

  -- Nothing is begun unless the selection succeeds.
  cleanup_images-selected :
      (batch_size : ℤ) (selected : Result Failure (List Text)) (c : Cleaner) (img : Text)
      → cleanup_images cancelled polls batch_size selected ≡ ok c
      → contains c.begun img ≡ true
      → (all_to_cleanup : List Text) × (selected ≡ ok all_to_cleanup)
        × (contains all_to_cleanup img ≡ true)
  unfolding cleanup_images
  cleanup_images-selected batch_size (ok all_to_cleanup) c img h begun =
      let (rest, parts) = cleanup_images-Begins batch_size all_to_cleanup c h in
      (all_to_cleanup, refl, rw (parts, contains-append c.begun rest img, begun) refl)
  cleanup_images-selected batch_size (raise f) c img h begun = elim (Bool-cases (cancelled 0)) [
    | inl set ↦ absurd (
        cc (
          ap (λ (x : Cleaner). contains x.begun img) (ok-injective (rw (set, cleanup_images) at h))
          ∙ begun))
    | inr unset ↦ absurd (cc (rw (unset, cleanup_images) at h))
  ]

-- What docker lists for the prefix of the configuration.
abbrev pub listed_for : Surroundings → Text → ℤ → List Text
listed_for s image_prefix threshold_days =
    get_images (s.docker (images_command image_prefix threshold_days))

all_three : (a b c : Bool) → (not a && (b && c)) ≡ true → (a ≡ false) × (b ≡ true) × (c ≡ true)
all_three a b c h = ground arith

prefix_or_fail-eq-ok :
    (prefix : Checked Text) (image_prefix : Text)
    → prefix_or_fail prefix ≡ ok image_prefix
    → prefix ≡ ok image_prefix
prefix_or_fail-eq-ok (ok p) image_prefix h = ap ok (ok-injective h)
prefix_or_fail-eq-ok (raise e) image_prefix h = cc

-- If the current tags can be calculated, and the event stays set once it is, every image that the
-- clean-up begins to remove is none of these tags, has an allowed name, and was listed by docker
-- for the prefix that the configuration gives.
pub cleanup-spares :
    (s : Surroundings) (batch_size threshold_days : ℤ) (tags : List Text) (c : Cleaner) (img : Text)
    → StaysSet s.cancelled
    → s.current_tags ≡ ok tags
    → cleanup s batch_size threshold_days ≡ ok c
    → contains c.begun img ≡ true
    → (contains tags img ≡ false)
      × (is_allowed img ≡ true)
      × ((image_prefix : Text) × (get_image_prefix s.show s.config_path ≡ ok image_prefix)
          × (contains (listed_for s image_prefix threshold_days) img ≡ true))
unfolding cleanup find_images
cleanup-spares s batch_size threshold_days tags c img stays current h begun =
    let (all_to_cleanup, e, m) =
      cleanup_images-selected s.cancelled s.polls stays batch_size (find_images s threshold_days) c
        img h begun in
    let (image_prefix, e1, e2) =
      >>=-eq-ok (prefix_or_fail (get_image_prefix s.show s.config_path)) _ e in
    let selects =
      contains-get_images_to_cleanup (listed_for s image_prefix threshold_days) tags all_to_cleanup
        img
        (ap (λ t. get_images_to_cleanup (listed_for s image_prefix threshold_days) (outcome_of t))
            (sym current)
          ∙ e2) in
    let (spared, allowed, there) = all_three _ _ _ (sym selects ∙ m) in
    (spared, allowed, (image_prefix, prefix_or_fail-eq-ok _ image_prefix e1, there))
