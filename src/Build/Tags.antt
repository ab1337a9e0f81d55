-- ===== src/Build/Tags.antt =====
-- The tags of `DockerBuilder` in .devkit/scripts/docker/build.py: `calculate_sha256`,
-- `calculate_tag_for_image` and `calculate_tags`.
pub mod Content
pub mod Total
use encrypted_zone_sdk.Base.{
  ℕ, zero, suc, Bool, true, false, Option, none, some, List, [], ◌∷◌, ◌++◌, map, if◌then◌else◌, ltb,
  eqb, text_eq,
}
use encrypted_zone_sdk.Base.Dict.{Dict, lookup, insert}
use encrypted_zone_sdk.Base.Result.{Result, ok, raise, ◌>>=◌}
use encrypted_zone_sdk.Base.Text.{Text, codes, join}
use encrypted_zone_sdk.Build.Registry.{Registry, ExtraMaps, get_image_tag}

-- `class ImageConfig`
pub record ImageConfig : Type 0 where
  pub deps : Dict Text Text
  pub local : Bool

-- The fields of a `DockerBuilder` that do not change once it is made, and what it asks of the
-- system: whether a file is there, its real path, the bytes of a file and of a text, and
-- `hashlib.sha256(...).hexdigest()`.
pub record Builder : Type 0 where
  pub registry : Registry
  pub arch : Text
  pub extra : ExtraMaps
  pub image_configs_map : Dict Text ImageConfig
  pub search_paths : List Text
  pub exists : Text → Bool
  pub realpath : Text → Text
  pub read_bytes : Text → List ℕ
  pub encode : Text → List ℕ
  pub sha256 : List ℕ → Text

-- `KeyError`, `sys.exit(1)`, an exception of reading a file, and a recursion that does not end.
pub data TagError : Type 0 where
  key_error exit_status_1 read_error recursion_error : TagError

abbrev pub Tagged {ℓ} : Type ℓ → Type ℓ
Tagged A = Result TagError A

abbrev pub found_or {ℓ} : {A : Type ℓ} → TagError → Option A → Tagged A
found_or e none = raise e
found_or e (some a) = ok a

abbrev pub text_lt : Text → Text → Bool
text_lt s [] = false
text_lt [] (d ∷ t) = true
text_lt (c ∷ s) (d ∷ t) =
    let rest = text_lt s t in if ltb c d then true else if eqb c d then rest else false

insert_text : Text → List Text → List Text
insert_text s [] = s ∷ []
insert_text s (t ∷ ts) = let rest = insert_text s ts in if text_lt t s then t ∷ rest else s ∷ t ∷ ts

-- `build_args_for_sha_calc.sort()`
unfoldable pub sort : List Text → List Text
unfolding insert_text
sort [] = []
sort (s ∷ ss) = insert_text s (sort ss)

abbrev pub assign : Text → Text → Text
assign name value = name ++ (b'=' ∷ value)

-- An `EXTRA_…` argument, if the image has such entries.
unfoldable pub extra_arg : Text → Dict Text (List Text) → Text → List Text
unfolding join
extra_arg arg_name entries image_name = elim (lookup image_name entries) [
  | none ↦ []
  | some [] ↦ []
  | some (v ∷ vs) ↦ assign arg_name (join (codes " ") (v ∷ vs)) ∷ []
]

module _ (b : Builder) where
  open b use {
    registry, arch, extra, image_configs_map, search_paths, exists, realpath, read_bytes, encode,
    sha256,
  }

  unfoldable pub find_in : Text → List Text → Option Text
  find_in dockerfile_name [] = none
  find_in dockerfile_name (path ∷ paths) =
      let potential_path = path ++ (b'/' ∷ dockerfile_name) in
      let rest = find_in dockerfile_name paths in
      if exists potential_path then some potential_path else rest

  -- The loop over the search paths, and `os.path.realpath`.
  unfoldable pub find_dockerfile : Text → Option Text
  unfolding find_in
  find_dockerfile image_name = elim (find_in (image_name ++ codes ".Dockerfile") search_paths) [
    | none ↦ none
    | some path ↦ some (realpath path)
  ]

  unfoldable pub bytes_of : List Text → List ℕ
  bytes_of [] = []
  bytes_of (arg ∷ args) = encode arg ++ bytes_of args

  unfoldable pub calculate_sha256 : Text → List Text → Text
  unfolding bytes_of
  calculate_sha256 dockerfile_path sorted_build_args =
      sha256 (read_bytes dockerfile_path ++ bytes_of sorted_build_args)

  unfoldable pub extra_args : Text → List Text
  unfolding extra_arg
  extra_args image_name =
      extra_arg (codes "EXTRA_PACKAGES") extra.extra_packages_map image_name
      ++ (extra_arg (codes "EXTRA_KEYS") extra.extra_keys_map image_name
          ++ extra_arg (codes "EXTRA_REPOSITORIES") extra.extra_repositories_map image_name)

  -- The tag from the Dockerfile and the tags of the dependencies.
  unfoldable pub tag_from : Text → Text → List Text → Text
  unfolding sort calculate_sha256 extra_args get_image_tag
  tag_from image_name dockerfile_path dep_args =
      get_image_tag registry arch image_name
        (calculate_sha256 dockerfile_path (sort (dep_args ++ extra_args image_name)))

  -- The loop over the dependencies, with the call for one image as an argument.
  unfoldable pub calculate_deps :
      (Text → Dict Text Text → Tagged (Text × Dict Text Text))
      → Dict Text Text
      → Dict Text Text
      → Tagged (List Text × Dict Text Text)
  calculate_deps calculate [] generated_tags = ok ([], generated_tags)
  calculate_deps calculate ((arg_name, dep_image_name) ∷ deps) generated_tags =
      calculate dep_image_name generated_tags >>= λ (dep_tag, tags).
      calculate_deps calculate deps tags >>= λ (args, tags').
      ok (assign arg_name dep_tag ∷ args, tags')

  -- `calculate_tag_for_image`: the tag, and `generated_tags` afterwards. The number bounds the
  -- depth of the recursion.
  unfoldable pub calculate_tag_for_image :
      ℕ → Text → Dict Text Text → Tagged (Text × Dict Text Text)
  calculate_tag_for_image zero image_name generated_tags = raise recursion_error
  calculate_tag_for_image (suc depth) image_name generated_tags =
      elim (lookup image_name generated_tags) [
        | some tag ↦ ok (tag, generated_tags)
        | none ↦ found_or key_error (lookup image_name image_configs_map) >>= λ image_conf.
            found_or exit_status_1 (find_dockerfile image_name) >>= λ dockerfile_path.
            calculate_deps (calculate_tag_for_image depth) image_conf.deps generated_tags
            >>= λ (args, tags).
                let tag = tag_from image_name dockerfile_path args in
                ok (tag, insert image_name tag tags)
      ]

  -- The loop of `calculate_tags`; the tags of the images, in the build order.
  unfoldable pub calculate_tags :
      ℕ → List Text → Dict Text Text → Tagged (List Text × Dict Text Text)
  calculate_tags depth [] generated_tags = ok ([], generated_tags)
  calculate_tags depth (image_name ∷ images_to_process) generated_tags =
      calculate_tag_for_image depth image_name generated_tags >>= λ (tag, tags).
      calculate_tags depth images_to_process tags >>= λ (rest, tags'). ok (tag ∷ rest, tags')
