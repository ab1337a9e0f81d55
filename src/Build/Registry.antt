-- ===== src/Build/Registry.antt =====
-- `parse_registry_config`, `get_image_prefix`, `get_image_tag`, `_load_registry_config` and
-- `_load_images_config` of .devkit/scripts/docker/build.py.
pub mod Prefix
use encrypted_zone_sdk.Base.{
  ◌≡◌, refl, Bool, true, false, ◌&&◌, Option, none, some, List, [], ◌∷◌, ◌++◌, if◌then◌else◌,
  text_eq,
}
use encrypted_zone_sdk.Base.Result.{Result, ok, raise, ◌>>=◌}
use encrypted_zone_sdk.Base.Dict.{Dict, insert}
use encrypted_zone_sdk.Base.Text.{Text, codes}
use encrypted_zone_sdk.Build.Json.{
  Json, Fields, no_fields, field, Error, type_error, key_error, attribute_error, value_error,
  Checked, if_key, key_in, at_key, items_of, truthy, format,
}

-- `repo` and `namespace`
pub record Registry : Type 0 where
  pub repo : Text
  pub namespace : Text

abbrev pub default_registry : Registry
default_registry = record { repo = []; namespace = codes "devkit" }

abbrev pub slash : Text → Text → Text
slash a b = a ++ (b'/' ∷ b)

-- `a in value and b in value`, which looks for `b` only if `a` is there.
abbrev pub and_in : Checked Bool → Checked Bool → Checked Bool
and_in a b = do t ← a; elim t [ true ↦ b | false ↦ ok false ]

unfoldable pub prefix_of : Registry → Text
prefix_of r = elim r.repo [ [] ↦ r.namespace | c ∷ cs ↦ slash (c ∷ cs) r.namespace ]

module _ (show : Json → Text) where
  unfoldable pub repo_of : Json → Checked Text
  unfolding key_in at_key truthy format
  repo_of registry = do
    complete ←
        and_in (key_in (codes "host") registry)
          (and_in (key_in (codes "project") registry) (key_in (codes "repository") registry))
    elim complete [
      | false ↦ ok []
      | true ↦ do
        host ← at_key (codes "host") registry
        project ← at_key (codes "project") registry
        repository ← at_key (codes "repository") registry
        ok (
            if truthy host && (truthy project && truthy repository)
            then slash (format show host) (slash (format show project) (format show repository))
            else [])
    ]

  abbrev pub named : Json → Checked Text
  named namespace =
      ok (
        if truthy namespace then slash (codes "devkit") (format show namespace) else codes "devkit")

  unfoldable pub namespace_of : Json → Checked Text
  unfolding truthy format
  namespace_of registry = if_key (codes "namespace") (codes "devkit") named registry

  -- What `config["docker"]["registry"]` says.
  unfoldable pub parse_registry : Json → Checked Registry
  unfolding repo_of namespace_of
  parse_registry registry = do
    repo ← repo_of registry
    namespace ← namespace_of registry
    ok (record { repo = repo; namespace = namespace })

  -- What `config["docker"]` says.
  unfoldable pub parse_docker : Json → Checked Registry
  unfolding parse_registry
  parse_docker docker_config =
      if_key (codes "registry") default_registry parse_registry docker_config

  unfoldable pub parse_registry_config : Json → Checked Registry
  unfolding parse_docker
  parse_registry_config config = if_key (codes "docker") default_registry parse_docker config

  -- `config` is what the file holds: `none` if there is no file, and a decode error or a value.
  -- `KeyError` and `ValueError` are caught as well.
  unfoldable pub get_image_prefix : Option (Checked Json) → Checked Text
  unfolding prefix_of
  get_image_prefix none = ok (codes "devkit")
  get_image_prefix (some loaded) = elim (loaded >>= parse_registry_config) [
    | ok r ↦ ok (prefix_of r)
    | raise key_error ↦ ok (codes "devkit")
    | raise (value_error m) ↦ ok (codes "devkit")
    | raise type_error ↦ raise type_error
    | raise attribute_error ↦ raise attribute_error
  ]

-- `get_image_tag`
unfoldable pub get_image_tag : Registry → Text → Text → Text → Text
get_image_tag r arch image_name sha =
    let image_path = slash r.namespace image_name in
    let tag_suffix = arch ++ (b'-' ∷ sha) in
    elim r.repo [
      | [] ↦ image_path ++ (b':' ∷ tag_suffix)
      | c ∷ cs ↦ slash (c ∷ cs) (image_path ++ (b':' ∷ tag_suffix))
    ]

-- `f"{k}={v}"` for each entry.
unfoldable pub key_values : (Json → Text) → Fields → List Text
unfolding format
key_values show no_fields = []
key_values show (field k v fs) = (k ++ (b'=' ∷ format show v)) ∷ key_values show fs

-- A package with an empty version ends the script.
unfoldable pub all_versions : Fields → Bool
unfolding truthy
all_versions no_fields = true
all_versions (field k v fs) = truthy v && all_versions fs

-- The three maps that `_load_images_config` fills.
pub record ExtraMaps : Type 0 where
  pub extra_packages_map : Dict Text (List Text)
  pub extra_keys_map : Dict Text (List Text)
  pub extra_repositories_map : Dict Text (List Text)

pub data LoadError : Type 0 where
  exit_status_1 : LoadError
  raised : Error → LoadError

abbrev pub Loaded {ℓ} : Type ℓ → Type ℓ
Loaded A = Result LoadError A

abbrev pub lift {ℓ} : {A : Type ℓ} → Checked A → Loaded A
lift (ok a) = ok a
lift (raise e) = raise (raised e)

-- The entries of `settings[key]`, if it is there.
unfoldable pub setting : Text → Json → Loaded (Option Fields)
unfolding items_of
setting key settings = lift (if_key key none (λ v. items_of v >>= λ fs. ok (some fs)) settings)

module _ (show : Json → Text) where
  unfoldable pub add_packages : Text → ExtraMaps → Option Fields → Loaded ExtraMaps
  unfolding all_versions key_values
  add_packages img m none = ok m
  add_packages img m (some fs) = elim (all_versions fs) [
    | true ↦
        ok (record m { extra_packages_map = insert img (key_values show fs) m.extra_packages_map })
    | false ↦ raise exit_status_1
  ]

  unfoldable pub add_keys : Text → ExtraMaps → Option Fields → Loaded ExtraMaps
  unfolding key_values
  add_keys img m none = ok m
  add_keys img m (some fs) =
      ok (record m { extra_keys_map = insert img (key_values show fs) m.extra_keys_map })

  unfoldable pub add_repositories : Text → ExtraMaps → Option Fields → Loaded ExtraMaps
  unfolding key_values
  add_repositories img m none = ok m
  add_repositories img m (some fs) = ok (record m {
    extra_repositories_map = insert img (key_values show fs) m.extra_repositories_map;
  })

  unfoldable pub load_packages : Text → Json → ExtraMaps → Loaded ExtraMaps
  unfolding setting add_packages
  load_packages img settings m = setting (codes "packages") settings >>= add_packages img m

  unfoldable pub load_keys : Text → Json → ExtraMaps → Loaded ExtraMaps
  unfolding setting add_keys
  load_keys img settings m = setting (codes "keys") settings >>= add_keys img m

  unfoldable pub load_repositories : Text → Json → ExtraMaps → Loaded ExtraMaps
  unfolding setting add_repositories
  load_repositories img settings m =
      setting (codes "repositories") settings >>= add_repositories img m

  -- One image of `config["docker"]["images"].items()`.
  unfoldable pub load_image : Text → Json → ExtraMaps → Loaded ExtraMaps
  unfolding load_packages load_keys load_repositories
  load_image img settings m = do
    m1 ← load_packages img settings m
    m2 ← load_keys img settings m1
    load_repositories img settings m2

  -- The loop.
  unfoldable pub load_images : Fields → ExtraMaps → Loaded ExtraMaps
  unfolding load_image
  load_images no_fields m = ok m
  load_images (field img settings fs) m = do m' ← load_image img settings m; load_images fs m'

  -- What `config["docker"]["images"]` says, if it is there.
  unfoldable pub load_docker : Json → ExtraMaps → Loaded ExtraMaps
  unfolding load_images items_of
  load_docker docker m = do
    images ← lift (if_key (codes "images") no_fields items_of docker)
    load_images images m

  -- `_load_images_config`
  unfoldable pub load_images_config : Json → ExtraMaps → Loaded ExtraMaps
  unfolding load_docker at_key
  load_images_config config m = do
    docker ← lift (at_key (codes "docker") config)
    load_docker docker m
