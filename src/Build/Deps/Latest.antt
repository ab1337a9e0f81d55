-- ===== src/Build/Deps/Latest.antt =====
-- Which configuration `load_image_configs` of .devkit/scripts/docker/build.py takes for an image.
use encrypted_zone_sdk.Base.{
  ◌≡◌, refl, sym, ◌∙◌, ap, Bool, true, false, Option, none, some, List, [], ◌∷◌, ◌⊎◌, inl, inr,
  ◌==◌, if◌then◌else◌, text_eq,
}
use encrypted_zone_sdk.Base.Dict.{Dict, lookup, insert, lookup-insert}
use encrypted_zone_sdk.Base.Result.{ok, raise}
use encrypted_zone_sdk.Base.Text.{Text}
use encrypted_zone_sdk.Build.Json.{
  Json, null, bool, number, str, arr, obj, Fields, no_fields, field,
}
use encrypted_zone_sdk.Build.Tags.{TagError, exit_status_1, read_error}
use encrypted_zone_sdk.Build.Deps.{
  DepsFile, missing, undecodable, unreadable, decoded, update_fields, update_json, load_deps_file,
  load_deps_files, load_image_configs,
}

abbrev or_else : Option Json → Option Json → Option Json
or_else (some v) o = some v
or_else none o = o

or_else_assoc : (o p q : Option Json) → or_else (or_else o p) q ≡ or_else o (or_else p q)
or_else_assoc (some v) p q = refl
or_else_assoc none p q = refl

abbrev last_field : Text → Fields → Option Json
last_field k no_fields = none
last_field k (field j v fs) = or_else (last_field k fs) (if k == j then some v else none)

abbrev in_file : Text → DepsFile → Option Json
in_file k (decoded (obj fs)) = last_field k fs
in_file k f = none

-- The entry of the last search path that has one.
abbrev pub latest : Text → List DepsFile → Option Json
latest k [] = none
latest k (f ∷ fs) = or_else (latest k fs) (in_file k f)

-- What ends the loop at a file.
abbrev pub file_error : DepsFile → Option TagError
file_error undecodable = some exit_status_1
file_error unreadable = some read_error
file_error f = none

-- The error of the first file that has one.
abbrev pub first_error : List DepsFile → Option TagError
first_error [] = none
first_error (f ∷ fs) = elim (file_error f) [ none ↦ first_error fs | some e ↦ some e ]

if_or_else :
    (b : Bool) (v : Json) (o : Option Json)
    → (if b then some v else o) ≡ or_else (if b then some v else none) o
if_or_else true v o = refl
if_or_else false v o = refl

lookup-update_fields :
    (k : Text) (d : Dict Text Json) (fs : Fields)
    → lookup k (update_fields d fs) ≡ or_else (last_field k fs) (lookup k d)
unfolding update_fields
lookup-update_fields k d no_fields = refl
lookup-update_fields k d (field j v fs) =
    lookup-update_fields k (insert j v d) fs
    ∙ ap (or_else (last_field k fs)) (lookup-insert k j v d ∙ if_or_else (k == j) v (lookup k d))
    ∙ sym (or_else_assoc (last_field k fs) (if k == j then some v else none) (lookup k d))

lookup-update_json :
    (k : Text) (d : Dict Text Json) (v : Json)
    → lookup k (update_json d v) ≡ or_else (in_file k (decoded v)) (lookup k d)
lookup-update_json k d (obj fs) = lookup-update_fields k d fs
lookup-update_json k d null = refl
lookup-update_json k d (bool b) = refl
lookup-update_json k d (number n b) = refl
lookup-update_json k d (str t) = refl
lookup-update_json k d (arr xs) = refl

-- The end of the loop: the script ends, or an entry is the last one that was read.
abbrev Loads : List DepsFile → Dict Text Json → Type 0
Loads files d =
    ((e : TagError) × (first_error files ≡ some e) × (load_deps_files files d ≡ raise e))
    ⊎ ((first_error files ≡ none)
        × ((d' : Dict Text Json) × (load_deps_files files d ≡ ok d')
            × ((k : Text) → lookup k d' ≡ or_else (latest k files) (lookup k d))))

Loads-skip :
    (k : Text) (files : List DepsFile) (o p : Option Json)
    → or_else (latest k files) (or_else o p) ≡ or_else (or_else (latest k files) o) p
Loads-skip k files o p = sym (or_else_assoc (latest k files) o p)

load_deps_files-Loads : (files : List DepsFile) (d : Dict Text Json) → Loads files d
unfolding load_deps_files load_deps_file
load_deps_files-Loads [] d = inr (refl, (d, refl, λ k. refl))
load_deps_files-Loads (undecodable ∷ files) d = inl (exit_status_1, refl, refl)
load_deps_files-Loads (unreadable ∷ files) d = inl (read_error, refl, refl)
load_deps_files-Loads (missing ∷ files) d = elim (load_deps_files-Loads files d) [
  | inl exits ↦ inl exits
  | inr (fine, (d', e, h)) ↦ inr (fine, (d', e, λ k. h k ∙ Loads-skip k files none (lookup k d)))
]
load_deps_files-Loads (decoded v ∷ files) d = elim (load_deps_files-Loads files (update_json d v)) [
  | inl exits ↦ inl exits
  | inr (fine, (d', e, h)) ↦ inr (
    fine,
    (
      d',
      e,
      λ k.
          h k
          ∙ ap (or_else (latest k files)) (lookup-update_json k d v)
          ∙ Loads-skip k files (in_file k (decoded v)) (lookup k d),
    ),
  )
]

or_else-none : (o : Option Json) → or_else o none ≡ o
or_else-none none = refl
or_else-none (some v) = refl

-- The first file that has no JSON ends `load_image_configs` with status 1, or, if it cannot even be
-- read as text, with that exception; if there is none, it returns, and the
-- configuration of an image is that of the last search path that has one.
pub load_image_configs-latest :
    (files : List DepsFile)
    → ((e : TagError) × (first_error files ≡ some e) × (load_image_configs files ≡ raise e))
      ⊎ ((first_error files ≡ none)
          × ((d : Dict Text Json) × (load_image_configs files ≡ ok d)
              × ((k : Text) → lookup k d ≡ latest k files)))
unfolding load_image_configs
load_image_configs-latest files = elim (load_deps_files-Loads files []) [
  | inl exits ↦ inl exits
  | inr (fine, (d, e, h)) ↦ inr (fine, (d, e, λ k. h k ∙ or_else-none (latest k files)))
]
