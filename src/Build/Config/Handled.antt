-- ===== src/Build/Config/Handled.antt =====
-- What `_load_config` of .devkit/scripts/docker/build.py can end with.
use encrypted_zone_sdk.Base.{
  ◌≡◌, refl, inl, inr, false, Option, none, some, Option-cases, Bool-cases, text_eq,
}
use encrypted_zone_sdk.Base.Result.{ok, raise, ◌>>=◌}
use encrypted_zone_sdk.Base.Text.{Text, codes}
use encrypted_zone_sdk.Build.Json.{
  Json, null, bool, number, str, arr, obj, Fields, no_fields, field, Checked, get_field, if_key,
  at_key, items_of,
}
use encrypted_zone_sdk.Build.Registry.{
  ExtraMaps, Loaded, exit_status_1, raised, lift, repo_of, namespace_of, parse_registry,
  parse_docker, named, default_registry, parse_registry_config, setting, all_versions, add_packages,
  add_keys, add_repositories, load_packages, load_keys, load_repositories, load_image, load_images,
  load_docker, load_images_config,
}
use encrypted_zone_sdk.Build.Schema.{
  schema, Properties, Additional, no_properties, nothing, each, is_property, string_schema,
  registry_properties, image_properties, image_schema, docker_properties, config_properties,
  dict_kind, config_schema,
}
use encrypted_zone_sdk.Build.Schema.Conforming.{
  AllFields, Conforms, ConformsProperties, ConformsOthers,
}

-- What conforms to the schema of a dict is a dict, and its entries conform.
pub dict_cases :
    (P : Json → Type 0) (ps : Properties) (additional : Additional)
    → ((fs : Fields) → ConformsProperties ps fs → ConformsOthers additional ps fs → P (obj fs))
    → (v : Json) → Conforms (schema dict_kind ps additional) v
    → P v
unfolding Conforms
dict_cases P ps additional f (obj fs) (_, (_, inside, others)) = f fs inside others
dict_cases P ps additional f null (h, _) = absurd (cc)
dict_cases P ps additional f (bool b) (h, _) = absurd (cc)
dict_cases P ps additional f (number n b) (h, _) = absurd (cc)
dict_cases P ps additional f (str s) (h, _) = absurd (cc)
dict_cases P ps additional f (arr xs) (h, _) = absurd (cc)

-- A call that returns.
abbrev pub Returns : {A : Type 0} → Checked A → Type 0
Returns (ok a) = Unit
Returns (raise e) = ⊥

Returns-bind :
    {A B : Type 0} (m : Checked A) (f : A → Checked B)
    → Returns m
    → ((a : A) → Returns (f a))
    → Returns (m >>= f)
Returns-bind (ok a) f h next = next a
Returns-bind (raise e) f h next = h

-- A call that returns, or ends the script with status 1: no exception is left.
abbrev pub IsHandled : {A : Type 0} → Loaded A → Type 0
IsHandled (ok a) = Unit
IsHandled (raise exit_status_1) = Unit
IsHandled (raise (raised e)) = ⊥

pub IsHandled-bind :
    {A B : Type 0} (m : Loaded A) (f : A → Loaded B)
    → IsHandled m
    → ((a : A) → IsHandled (f a))
    → IsHandled (m >>= f)
IsHandled-bind (ok a) f h next = next a
IsHandled-bind (raise exit_status_1) f h next = tt
IsHandled-bind (raise (raised e)) f h next = h

pub lift-IsHandled : {A : Type 0} (c : Checked A) → Returns c → IsHandled (lift c)
lift-IsHandled (ok a) h = tt
lift-IsHandled (raise e) h = h

Returns-if_key :
    {A : Type 0} (k : Text) (default : A) (f : Json → Checked A) (fs : Fields)
    → ((v : Json) → get_field k fs ≡ some v → Returns (f v))
    → Returns (if_key k default f (obj fs))
unfolding if_key
Returns-if_key k default f fs h = elim (Option-cases (get_field k fs)) [
  | inl gone ↦ rw (gone, if_key) tt
  | inr (v, e) ↦ rw (e, if_key) (rw (e, at_key) (h v e))
]

IsHandled-if_key :
    {A B : Type 0} (k : Text) (default : A) (f : Json → Checked A) (g : A → Loaded B) (fs : Fields)
    → IsHandled (g default)
    → ((v : Json) → get_field k fs ≡ some v → IsHandled (lift (f v) >>= g))
    → IsHandled (lift (if_key k default f (obj fs)) >>= g)
unfolding if_key
IsHandled-if_key k default f g fs without with_key = elim (Option-cases (get_field k fs)) [
  | inl gone ↦ rw (gone, if_key) without
  | inr (v, e) ↦ rw (e, if_key) (rw (e, at_key) (with_key v e))
]

module _ (show : Json → Text) where
  repo_of-Returns : (fs : Fields) → Returns (repo_of show (obj fs))
  unfolding repo_of
  repo_of-Returns fs = elim (Option-cases (get_field (codes "host") fs)) [
    | inl gone ↦ rw (gone, repo_of) tt
    | inr (h, host) ↦ elim (Option-cases (get_field (codes "project") fs)) [
      | inl gone ↦ rw (host, repo_of) (rw gone tt)
      | inr (p, project) ↦ elim (Option-cases (get_field (codes "repository") fs)) [
        | inl gone ↦ rw (host, repo_of) (rw project (rw gone tt))
        | inr (r, repository) ↦
            rw (host, repo_of)
              (rw project (
                rw repository
                  (rw (host, at_key) (rw (project, at_key) (rw (repository, at_key) tt)))))
      ]
    ]
  ]

  parse_registry-Returns :
      (v : Json)
      → Conforms (schema dict_kind registry_properties nothing) v
      → Returns (parse_registry show v)
  unfolding parse_registry namespace_of
  parse_registry-Returns =
      dict_cases (λ v. Returns (parse_registry show v)) registry_properties nothing
        (λ fs _ _. Returns-bind (repo_of show (obj fs)) _ (repo_of-Returns fs) (λ repo.
          Returns-bind (namespace_of show (obj fs)) _
            (Returns-if_key (codes "namespace") (codes "devkit") (named show) fs (λ v e. tt))
            (λ n. tt)))

  parse_docker-Returns :
      (v : Json)
      → Conforms (schema dict_kind docker_properties nothing) v
      → Returns (parse_docker show v)
  unfolding parse_docker ConformsProperties
  parse_docker-Returns =
      dict_cases (λ v. Returns (parse_docker show v)) docker_properties nothing
        (λ fs h _.
          Returns-if_key (codes "registry") default_registry (parse_registry show) fs
            (λ v e. parse_registry-Returns v (h.0 v e)))

  pub parse_registry_config-Returns :
      (v : Json) → Conforms config_schema v → Returns (parse_registry_config show v)
  unfolding parse_registry_config ConformsProperties
  parse_registry_config-Returns =
      dict_cases (λ v. Returns (parse_registry_config show v)) config_properties nothing
        (λ fs h _.
          Returns-if_key (codes "docker") default_registry (parse_docker show) fs
            (λ v e. parse_docker-Returns v (h.0 v e)))

  -- The entries of a setting are there, or it is not.
  setting-IsHandled :
      (key : Text) (ps : Properties) (additional : Additional) (fs : Fields)
      → ((v : Json) → get_field key fs ≡ some v → Conforms (schema dict_kind ps additional) v)
      → IsHandled (setting key (obj fs))
  unfolding setting
  setting-IsHandled key ps additional fs h =
      lift-IsHandled (if_key key none (λ v. items_of v >>= λ fs. ok (some fs)) (obj fs)) (
        Returns-if_key key none (λ v. items_of v >>= λ fs. ok (some fs)) fs
          (λ v e.
            dict_cases (λ v. Returns (items_of v >>= λ fs. ok (some fs))) ps additional
              (λ _ _ _. tt) v (h v e)))

  add_packages-IsHandled :
      (img : Text) (m : ExtraMaps) (o : Option Fields) → IsHandled (add_packages show img m o)
  unfolding add_packages
  add_packages-IsHandled img m none = tt
  add_packages-IsHandled img m (some fs) = elim (Bool-cases (all_versions fs)) [
    | inl full ↦ rw (full, IsHandled) tt
    | inr empty ↦ rw (empty, IsHandled) tt
  ]

  add_keys-IsHandled :
      (img : Text) (m : ExtraMaps) (o : Option Fields) → IsHandled (add_keys show img m o)
  unfolding add_keys
  add_keys-IsHandled img m none = tt
  add_keys-IsHandled img m (some fs) = tt

  add_repositories-IsHandled :
      (img : Text) (m : ExtraMaps) (o : Option Fields) → IsHandled (add_repositories show img m o)
  unfolding add_repositories
  add_repositories-IsHandled img m none = tt
  add_repositories-IsHandled img m (some fs) = tt

  load_image-IsHandled :
      (img : Text) (m : ExtraMaps) (settings : Json)
      → Conforms image_schema settings
      → IsHandled (load_image show img settings m)
  unfolding load_image load_packages load_keys load_repositories ConformsProperties
  load_image-IsHandled img m =
      dict_cases (λ v. IsHandled (load_image show img v m)) image_properties nothing
        (λ fs (packages, (keys, (repositories, _))) _.
          IsHandled-bind (load_packages show img (obj fs) m) _
            (IsHandled-bind (setting (codes "packages") (obj fs)) (add_packages show img m)
              (setting-IsHandled (codes "packages") no_properties (each string_schema) fs packages)
              (add_packages-IsHandled img m))
            (λ m1.
              IsHandled-bind (load_keys show img (obj fs) m1) _
                (IsHandled-bind (setting (codes "keys") (obj fs)) (add_keys show img m1)
                  (setting-IsHandled (codes "keys") no_properties (each string_schema) fs keys)
                  (add_keys-IsHandled img m1))
                (λ m2.
                  IsHandled-bind (setting (codes "repositories") (obj fs))
                    (add_repositories show img m2)
                    (setting-IsHandled (codes "repositories") no_properties (each string_schema) fs
                      repositories)
                    (add_repositories-IsHandled img m2))))

  load_images-IsHandled :
      (m : ExtraMaps) (fs : Fields)
      → AllFields (λ k v. is_property k no_properties ≡ false → Conforms image_schema v) fs
      → IsHandled (load_images show fs m)
  unfolding load_images
  load_images-IsHandled m no_fields _ = tt
  load_images-IsHandled m (field img settings fs) (h, hs) =
      IsHandled-bind (load_image show img settings m) _
        (load_image-IsHandled img m settings (h refl)) (λ m'. load_images-IsHandled m' fs hs)

  load_docker-IsHandled :
      (m : ExtraMaps) (v : Json)
      → Conforms (schema dict_kind docker_properties nothing) v
      → IsHandled (load_docker show v m)
  unfolding load_docker ConformsProperties ConformsOthers
  load_docker-IsHandled m =
      dict_cases (λ v. IsHandled (load_docker show v m)) docker_properties nothing
        (λ fs (_, (_, (images, _))) _.
          IsHandled-if_key (codes "images") no_fields items_of (λ fs. load_images show fs m) fs
            (load_images-IsHandled m no_fields tt)
            (λ v e.
              dict_cases (λ v. IsHandled (lift (items_of v) >>= λ fs. load_images show fs m))
                no_properties (each image_schema) (λ fs _ others. load_images-IsHandled m fs others)
                v (images v e)))

  pub load_images_config-IsHandled :
      (m : ExtraMaps) (fs : Fields) (docker : Json)
      → ConformsProperties config_properties fs
      → get_field (codes "docker") fs ≡ some docker
      → IsHandled (load_images_config show (obj fs) m)
  unfolding load_images_config ConformsProperties
  load_images_config-IsHandled m fs docker h e =
      rw (e, at_key) (load_docker-IsHandled m docker (h.0 docker e))
