-- ===== src/Build/Driver/Returning.antt =====
-- When `build_images` of .devkit/scripts/docker/build.py comes to its end.
use encrypted_zone_sdk.Base.{
  ℕ, suc, ◌≡◌, refl, sym, subst, Bool, Bool-cases, Option, none, some, List, [], ◌∷◌, inl, inr,
  text_eq,
}
use encrypted_zone_sdk.Base.Dict.{Dict}
use encrypted_zone_sdk.Base.Result.{ok}
use encrypted_zone_sdk.Base.Text.{Text, codes}
use encrypted_zone_sdk.Build.Tags.{Builder}
use encrypted_zone_sdk.Build.Request.{prepare}
use encrypted_zone_sdk.Build.Request.Prepared.{prepare-docker_build_cmd}
use encrypted_zone_sdk.Build.Request.Orderly.{Orderly, HasAll, prepare-returns}
use encrypted_zone_sdk.Build.Docker.{
  Docker, World, End, return, Action, and_then, docker, Command, Request, docker_build_cmd,
  manage_docker_image,
}
use encrypted_zone_sdk.Build.Docker.Returns.{IsObliging, manage_docker_image-returns}
use encrypted_zone_sdk.Build.Driver.{
  Outcome, Args, is_printed, process_image, process_images, build_images, target_for_tag_print,
}

-- Docker is installed, and pulls and builds succeed.
pub record IsWilling (d : Docker) : Type 0 where
  pub ends : (s : d.State) (c : Command) → (n : ℕ) × ((d.run s c).0 ≡ some n)
  pub pulls : (s : d.State) (tag : Text) → (d.run s (docker (codes "pull" ∷ tag ∷ []))).0 ≡ some 0
  pub builds :
      (s : d.State) (tag path context : Text) (args : List Text) (no_cache : Bool)
      (command : Command)
      → docker_build_cmd tag path args context no_cache ≡ some command
      → (d.run s command).0 ≡ some 0

module _ (d : Docker) (willing : IsWilling d) (b : Builder) (dirname : Text → Text) (depth : ℕ)
    (args : Args) where
  -- Each image in turn can be prepared.
  abbrev Prepares : List Text → Dict Text Text → Type 0
  Prepares [] tags = Unit
  Prepares (name ∷ names) tags =
      (r : Request) × (tags' : Dict Text Text) × (prepare b dirname depth args.no_cache args.local
          name tags
        ≡ ok (r, tags'))
      × Prepares names tags'

  abbrev pub Returns : {A : Type 0} → End A × World d → Type 0
  Returns {A} x = (a : A) × (x.0 ≡ return a)

  obliging :
      (name : Text) (tags : Dict Text Text) (r : Request) (tags' : Dict Text Text)
      → prepare b dirname depth args.no_cache args.local name tags ≡ ok (r, tags')
      → IsObliging d r
  obliging name tags r tags' e =
      let (command, h) =
        prepare-docker_build_cmd b dirname args.no_cache args.local name depth tags r tags' e in
      record {
        ends = willing.ends;
        pulls = λ s. willing.pulls s r.tag;
        command = command;
        is_command = h;
        builds = λ s.
            willing.builds s r.tag r.dockerfile_path r.context_path r.build_args_list r.no_cache
              command h;
      }

  bind-Returns :
      {A B : Type 0} (x : End A) (a : A) (f : A → Action d B) (w : World d)
      → x ≡ return a
      → Returns (f a w)
      → Returns (and_then x f w)
  bind-Returns x a f w e h = subst (λ y. Returns (and_then y f w)) (sym e) h

  process_images-Returns :
      (target : Option Text) (names : List Text) (tags : Dict Text Text) (w : World d)
      → Prepares names tags
      → Returns (process_images d b dirname depth args target names tags w)
  unfolding process_images process_image
  process_images-Returns target [] tags w _ = (Outcome.processed tags, refl)
  process_images-Returns target (name ∷ names) tags w (r, tags', e, rest) =
      let managed = manage_docker_image-returns d r (obliging name tags r tags' e) w in
      let v = (manage_docker_image d r w).1 in
      rw e (
        rw managed (elim (Bool-cases (is_printed target name)) [
          | inl it ↦ rw it (Outcome.printed r.tag, refl)
          | inr other ↦ rw other (process_images-Returns target names tags' v rest)
        ]))

Orderly-Prepares :
    (d : Docker) (willing : IsWilling d) (b : Builder) (dirname : Text → Text) (depth : ℕ)
    (args : Args) (before names : List Text) (tags : Dict Text Text)
    → HasAll b before tags
    → Orderly b before names
    → Prepares d willing b dirname (suc (suc depth)) args names tags
Orderly-Prepares d willing b dirname depth args before [] tags has _ = tt
Orderly-Prepares d willing b dirname depth args before (name ∷ names) tags has
      (conf, path, configured, found, deps, rest) =
    let (r, tags', e, has') =
      prepare-returns b dirname depth args.no_cache args.local before tags name path conf has
        configured found deps in
    (
      r,
      tags',
      e,
      Orderly-Prepares d willing b dirname depth args (name ∷ before) names tags' has' rest,
    )

-- Where docker is installed, pulls and builds succeed, and each image of the order is configured, has
-- a Dockerfile and comes after its dependencies, `build_images` returns for every list of targets that
-- is not empty, whether or not a tag is to be printed or the images are local; and the recursion for
-- a tag is at most two deep.
pub build_images-Returns :
    (d : Docker) (willing : IsWilling d) (b : Builder) (dirname : Text → Text) (depth : ℕ)
    (args : Args) (target : Text) (targets names : List Text) (w : World d)
    → args.target_images ≡ target ∷ targets
    → Orderly b [] names
    → Returns d willing b dirname
        (suc (suc depth))
        args
        (build_images d b dirname (suc (suc depth)) args (ok names) w)
unfolding build_images target_for_tag_print
build_images-Returns d willing b dirname depth args target targets names w e orderly =
    let ready =
      Orderly-Prepares d willing b dirname depth args [] names [] (λ n m. absurd (cc)) orderly in
    let processed = process_images-Returns d willing b dirname (suc (suc depth)) args in
    elim (Bool-cases args.print_tag) [
      | inl printing ↦ rw printing (rw e (processed (some target) names [] w ready))
      | inr building ↦ rw building (processed none names [] w ready)
    ]
