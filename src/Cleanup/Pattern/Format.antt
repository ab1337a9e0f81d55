-- ===== src/Cleanup/Pattern/Format.antt =====
-- `IMAGE_PATTERN` of .devkit/scripts/docker_cleanup.py on the tags that `get_image_tag` of
-- .devkit/scripts/docker/build.py makes.
use encrypted_zone_sdk.Base.{
  ℕ, ◌≡◌, refl, true, false, none, some, [], ◌∷◌, ◌++◌, arith, all, All-append,
}
use encrypted_zone_sdk.Base.Text.{Text, Lacks, split_once}
use encrypted_zone_sdk.Build.Registry.{slash}
use encrypted_zone_sdk.Cleanup.Pattern.{
  split_last_slash, is_word, is_hash, is_tag, is_empty, has_devkit, image_name_of,
}

split_last_slash-Lacks : (s : Text) → Lacks b'/' s → split_last_slash s ≡ none
unfolding split_last_slash
split_last_slash-Lacks [] h = refl
split_last_slash-Lacks (c ∷ s) (hc, hs) = rw (split_last_slash-Lacks s hs, hc) refl

split_last_slash-append :
    (a b : Text) → Lacks b'/' b → split_last_slash (a ++ (b'/' ∷ b)) ≡ some (a, b)
unfolding split_last_slash
split_last_slash-append [] b h = rw (split_last_slash-Lacks b h) refl
split_last_slash-append (c ∷ a) b h = rw (split_last_slash-append a b h) refl

split_once-append :
    (sep : ℕ) (a b : Text) → Lacks sep a → split_once sep (a ++ (sep ∷ b)) ≡ some (a, b)
unfolding split_once
split_once-append sep [] b h = ground arith
split_once-append sep (c ∷ a) b (hc, ha) = rw (hc, split_once-append sep a b ha) refl

all_word-Lacks : (sep : ℕ) (s : Text) → is_word sep ≡ false → all is_word s ≡ true → Lacks sep s
all_word-Lacks sep [] n h = tt
all_word-Lacks sep (c ∷ s) n h = (ground arith, all_word-Lacks sep s n (ground arith))

is_hash-Lacks : (n : ℕ) (s : Text) → is_hash n s ≡ true → Lacks b'/' s
unfolding is_hash
is_hash-Lacks ℕ.zero [] h = tt
is_hash-Lacks ℕ.zero (c ∷ []) h = (ground arith, tt)
is_hash-Lacks ℕ.zero (c ∷ d ∷ s) h = absurd (cc)
is_hash-Lacks (ℕ.suc n) [] h = absurd (cc)
is_hash-Lacks (ℕ.suc n) (c ∷ s) h = (ground arith, is_hash-Lacks n s (ground arith))

is_tag-tag :
    (arch hash : Text)
    → is_empty arch ≡ false
    → all is_word arch ≡ true
    → is_hash 64 hash ≡ true
    → is_tag (arch ++ (b'-' ∷ hash)) ≡ true
unfolding is_tag
is_tag-tag arch hash some_arch word hex =
    rw (split_once-append b'-' arch hash (all_word-Lacks b'-' arch refl word), is_tag)
      (rw (some_arch, word, hex) refl)

-- The pattern recognises the tag of an image behind a prefix with the component `devkit`, and finds
-- its name, where the name is not empty and has no slash and no colon, the architecture is a word,
-- and the hash has 64 hexadecimal digits.
pub image_name_of-tag :
    (prefix name arch hash : Text)
    → has_devkit prefix ≡ true
    → is_empty name ≡ false
    → Lacks b'/' name
    → Lacks b':' name
    → is_empty arch ≡ false
    → all is_word arch ≡ true
    → is_hash 64 hash ≡ true
    → image_name_of (slash prefix (name ++ (b':' ∷ (arch ++ (b'-' ∷ hash))))) ≡ some name
unfolding image_name_of
image_name_of-tag prefix name arch hash devkit named no_slash no_colon some_arch word hex =
    let tag_lacks =
      All-append _ arch (b'-' ∷ hash) (all_word-Lacks b'/' arch refl word)
        (refl, is_hash-Lacks 64 hash hex) in
    let rest_lacks =
      All-append _ name (b':' ∷ (arch ++ (b'-' ∷ hash))) no_slash (refl, tag_lacks) in
    rw
      (
        split_last_slash-append prefix (name ++ (b':' ∷ (arch ++ (b'-' ∷ hash)))) rest_lacks,
        image_name_of,
      )
      (rw (split_once-append b':' name (arch ++ (b'-' ∷ hash)) no_colon)
        (rw (is_tag-tag arch hash some_arch word hex, devkit, named) refl))
