-- ===== src/Cleanup/Selected.antt =====
-- Which images `get_images_to_cleanup` selects.
use encrypted_zone_sdk.Base.{
  ◌≡◌, subst, ◌∙◌, ap, false, not, ◌&&◌, List, [], ◌∷◌, arith, keep, contains, text_eq,
}
use encrypted_zone_sdk.Base.Members.{contains-keep}
use encrypted_zone_sdk.Base.Result.{ok, ok-injective}
use encrypted_zone_sdk.Base.Text.{Text}
use encrypted_zone_sdk.Cleanup.{
  is_allowed, filter_allowed_images, all_tags, select_images, get_ignored_images,
  get_images_to_cleanup,
}

contains-select_images :
    (tags selected kept : List Text) (img : Text)
    → select_images kept (all_tags tags) ≡ ok selected
    → contains selected img ≡ (not (contains tags img) && contains kept img)
unfolding select_images get_ignored_images
contains-select_images tags selected [] img h =
    subst (λ l. contains l img ≡ (not (contains tags img) && false)) (ok-injective h) (ground arith)
contains-select_images tags selected (i ∷ is) img h =
    subst (λ l. contains l img ≡ (not (contains tags img) && contains (i ∷ is) img))
      (ok-injective h) (contains-keep (λ a. not (contains tags a)) (i ∷ is) img)

-- Where the current tags were calculated, an image is selected exactly when docker lists it, its name is on the list of allowed names, and
-- it is none of the current tags.
pub contains-get_images_to_cleanup :
    (all_images tags selected : List Text) (img : Text)
    → get_images_to_cleanup all_images (all_tags tags) ≡ ok selected
    → contains selected img
      ≡ (not (contains tags img) && (is_allowed img && contains all_images img))
unfolding get_images_to_cleanup filter_allowed_images
contains-get_images_to_cleanup all_images tags selected img h =
    contains-select_images tags selected (keep is_allowed all_images) img h
    ∙ ap (λ b. not (contains tags img) && b) (contains-keep is_allowed all_images img)
