-- ===== src/Build/Registry/Prefix.antt =====
-- `get_image_tag` and `get_image_prefix` of .devkit/scripts/docker/build.py.
use encrypted_zone_sdk.Base.{
  ◌≡◌, ap, sym, ◌∙◌, some, ◌∷◌, ◌++◌, append_assoc, arith, List-cases, inl, inr,
}
use encrypted_zone_sdk.Base.Result.{ok}
use encrypted_zone_sdk.Base.Text.{Text}
use encrypted_zone_sdk.Build.Json.{Json}
use encrypted_zone_sdk.Build.Registry.{
  Registry, slash, parse_registry_config, get_image_prefix, get_image_tag, prefix_of,
}

tag_behind_prefix :
    (r : Registry) (arch image_name sha : Text)
    → get_image_tag r arch image_name sha
      ≡ slash (prefix_of r) (image_name ++ (b':' ∷ (arch ++ (b'-' ∷ sha))))
unfolding get_image_tag prefix_of
tag_behind_prefix r arch image_name sha = elim (List-cases r.repo) [
  | inl local ↦
      rw (local, get_image_tag, prefix_of) (append_assoc r.namespace (b'/' ∷ image_name) _)
  | inr (c, cs, e) ↦
      rw (e, get_image_tag, prefix_of)
        (ap (λ l. c ∷ (cs ++ (b'/' ∷ l))) (append_assoc r.namespace (b'/' ∷ image_name) _)
          ∙ sym (append_assoc (c ∷ cs) (b'/' ∷ r.namespace) _))
]

-- Where the configuration is read, the tag of an image is the prefix that the clean-up searches
-- for, a slash, and the image's own name, architecture and hash.
pub get_image_tag-prefix :
    (show : Json → Text) (config : Json) (r : Registry) (arch image_name sha prefix : Text)
    → parse_registry_config show config ≡ ok r
    → get_image_prefix show (some (ok config)) ≡ ok prefix
    → get_image_tag r arch image_name sha
      ≡ slash prefix (image_name ++ (b':' ∷ (arch ++ (b'-' ∷ sha))))
unfolding get_image_prefix
get_image_tag-prefix show config r arch image_name sha prefix parsed h =
    let same : prefix_of r ≡ prefix = ground (arith) in
    tag_behind_prefix r arch image_name sha
    ∙ ap (λ p. slash p (image_name ++ (b':' ∷ (arch ++ (b'-' ∷ sha))))) same
