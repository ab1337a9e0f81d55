-- ===== src/Cleanup/Pattern.antt =====
-- `IMAGE_PATTERN` of .devkit/scripts/docker_cleanup.py,
-- `^(?:.*/)?devkit(?:/.*)?/([^/:]+):([a-zA-Z0-9_]+)-([a-f0-9]{64})$`, read from the right: the name
-- holds no slash, so the slash in front of it is the last one. `.` matches all but a line feed,
-- and `$` also stands in front of a line feed at the end.
pub mod Format
use encrypted_zone_sdk.Base.{
  ℕ, Bool, true, false, not, ◌&&◌, ◌||◌, Option, none, some, [], ◌∷◌, eqb, leb, all, contains,
  text_eq, nat_eq, if◌then◌else◌,
}
use encrypted_zone_sdk.Base.Text.{Text, codes, split, split_once}

-- The text before the last slash, and the text behind it.
unfoldable pub split_last_slash : Text → Option (Text × Text)
split_last_slash [] = none
split_last_slash (c ∷ s) = elim (split_last_slash s) [
  | some (a, b) ↦ some (c ∷ a, b)
  | none ↦ if eqb c b'/' then some ([], s) else none
]

abbrev pub is_word : ℕ → Bool
is_word c =
    leb b'a' c && leb c b'z' || leb b'A' c && leb c b'Z' || leb b'0' c && leb c b'9' || eqb c b'_'

abbrev pub is_hex : ℕ → Bool
is_hex c = leb b'a' c && leb c b'f' || leb b'0' c && leb c b'9'

-- `[a-f0-9]{64}$`
unfoldable pub is_hash : ℕ → Text → Bool
is_hash ℕ.zero [] = true
is_hash ℕ.zero (c ∷ []) = eqb c b'\n'
is_hash ℕ.zero (c ∷ d ∷ s) = false
is_hash (ℕ.suc n) [] = false
is_hash (ℕ.suc n) (c ∷ s) = is_hex c && is_hash n s

abbrev pub is_empty : Text → Bool
is_empty [] = true
is_empty (c ∷ s) = false

-- `(?:.*/)?devkit(?:/.*)?`, in front of the last slash.
unfoldable pub has_devkit : Text → Bool
unfolding split
has_devkit before = not (contains before b'\n') && contains (split b'/' before) (codes "devkit")

-- `([a-zA-Z0-9_]+)-([a-f0-9]{64})$`
unfoldable pub is_tag : Text → Bool
unfolding is_hash split_once
is_tag tag = elim (split_once b'-' tag) [
  | none ↦ false
  | some (arch, hash) ↦ not (is_empty arch) && (all is_word arch && is_hash 64 hash)
]

-- Group 1 of the match.
unfoldable pub image_name_of : Text → Option Text
unfolding split_last_slash has_devkit is_tag split_once
image_name_of img = elim (split_last_slash img) [
  | none ↦ none
  | some (before, rest) ↦ elim (split_once b':' rest) [
    | none ↦ none
    | some (name, tag) ↦
        if has_devkit before && (not (is_empty name) && is_tag tag) then some name else none
  ]
]
