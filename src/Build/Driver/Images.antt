-- ===== src/Build/Driver/Images.antt =====
-- What `build_images` of .devkit/scripts/docker/build.py leaves in docker.
use encrypted_zone_sdk.Base.{
  ℕ, ◌≡◌, refl, sym, ap, Bool, true, ==_iff, Bool-cases, Option, none, some, List, [], ◌∷◌, inl,
  inr, All, text_eq,
}
use encrypted_zone_sdk.Base.Dict.{Dict}
use encrypted_zone_sdk.Base.Result.{ok, raise}
use encrypted_zone_sdk.Base.Text.{Text}
use encrypted_zone_sdk.Build.Tags.{Builder, Tagged}
use encrypted_zone_sdk.Build.Tags.Content.{TagOf, IsCorrect}
use encrypted_zone_sdk.Build.Request.{prepare}
use encrypted_zone_sdk.Build.Request.Prepared.{prepare-TagOf}
use encrypted_zone_sdk.Build.Docker.{
  Docker, World, End, return, called_process_error, file_not_found_error, exit_with, Action,
  and_then, ◌>>=◌, pure, manage_docker_image,
}
use encrypted_zone_sdk.Build.Docker.Policy.{IsLawful, OnReturn, manage_docker_image-There}
use encrypted_zone_sdk.Build.Driver.{
  Outcome, processed, printed, Args, from_tagged, is_printed, process_image, process_images,
}
use encrypted_zone_sdk.Build.Driver.Keeps.{
  IsKeeping, Preserves, bind-Preserves, manage_docker_image-Keeps,
}

-- What holds of the value and the world where an action returns.
abbrev pub Ensures : {d : Docker} {A : Type 0} → (A → World d → Type 0) → End A × World d → Type 0
Ensures Q (return a, w) = Q a w
Ensures Q (called_process_error n, w) = Unit
Ensures Q (file_not_found_error, w) = Unit
Ensures Q (exit_with n, w) = Unit

module _ {d : Docker} {A : Type 0} where
  Ensures-and :
      (Q R : A → World d → Type 0) (P : World d → Type 0)
      → ((a : A) (w : World d) → Q a w → P w → R a w)
      → (x : End A × World d) → Ensures Q x
      → P x.1
      → Ensures R x
  Ensures-and Q R P f (return a, w) h p = f a w h p
  Ensures-and Q R P f (called_process_error n, w) h p = tt
  Ensures-and Q R P f (file_not_found_error, w) h p = tt
  Ensures-and Q R P f (exit_with n, w) h p = tt

  and_then-Ensures :
      {B : Type 0} (Q : B → World d → Type 0) (R : A → World d → Type 0) (f : B → Action d A)
      (x : End B) (w : World d)
      → Ensures Q (x, w)
      → ((b : B) (v : World d) → Q b v → Ensures R (f b v))
      → Ensures R (and_then x f w)
  and_then-Ensures Q R f (return b) w h next = next b w h
  and_then-Ensures Q R f (called_process_error n) w h next = tt
  and_then-Ensures Q R f file_not_found_error w h next = tt
  and_then-Ensures Q R f (exit_with n) w h next = tt

  pub bind-Ensures :
      {B : Type 0} (Q : B → World d → Type 0) (R : A → World d → Type 0) (m : Action d B)
      (f : B → Action d A) (w : World d)
      → Ensures Q (m w)
      → ((b : B) (v : World d) → Q b v → Ensures R (f b v))
      → Ensures R ((m >>= f) w)
  bind-Ensures Q R m f w h next = and_then-Ensures Q R f (m w).0 (m w).1 h next

  pub from_tagged-Ensures :
      (t : Tagged A) (w : World d) → Ensures (λ a v. (t ≡ ok a) × (v ≡ w)) (from_tagged t w)
  from_tagged-Ensures (ok a) w = (refl, refl)
  from_tagged-Ensures (raise e) w = tt

OnReturn-Ensures :
    {d : Docker} {A : Type 0} (P : World d → Type 0) (x : End A × World d)
    → OnReturn P x
    → Ensures (λ _ w. P w) x
OnReturn-Ensures P (return a, w) h = h
OnReturn-Ensures P (called_process_error n, w) h = tt
OnReturn-Ensures P (file_not_found_error, w) h = tt
OnReturn-Ensures P (exit_with n, w) h = tt

from_tagged-Preserves :
    (d : Docker) (P : World d → Type 0) {A : Type 0} (t : Tagged A) → Preserves d P (from_tagged t)
from_tagged-Preserves d P (ok a) w h = h
from_tagged-Preserves d P (raise e) w h = h

is_printed-some :
    (target : Option Text) (name : Text) → is_printed target name ≡ true → target ≡ some name
is_printed-some none name h = absurd (cc)
is_printed-some (some t) name h = ap (λ x. some x) (sym ((==_iff name t).0 h))

module _ (d : Docker) (has : d.State → Text → Bool) (lawful : IsLawful d has)
    (keeping : IsKeeping d has) (b : Builder) (dirname : Text → Text) (depth : ℕ)
    (args : Args) where
  -- Docker has the image with its tag.
  abbrev pub IsBuilt : World d → Text → Type 0
  IsBuilt w name = (t : Text) × TagOf b name t × (has w.state t ≡ true)

  process_image-Ensures :
      (name : Text) (tags : Dict Text Text) (w : World d)
      → IsCorrect b tags
      → Ensures
          (λ (tag, tags') v. TagOf b name tag × IsCorrect b tags' × (has v.state tag ≡ true))
          (process_image d b dirname depth args name tags w)
  unfolding process_image
  process_image-Ensures name tags w c =
      bind-Ensures
        (λ p v. (prepare b dirname depth args.no_cache args.local name tags ≡ ok p) × (v ≡ w)) _
        (from_tagged (prepare b dirname depth args.no_cache args.local name tags)) _ w
        (from_tagged-Ensures (prepare b dirname depth args.no_cache args.local name tags) w)
        (λ (r, tags') v (e, _).
          let (tagged, c') =
            prepare-TagOf b dirname args.no_cache args.local name depth tags r tags' c e in
          bind-Ensures (λ _ u. has u.state r.tag ≡ true) _ (manage_docker_image d r)
            (λ _. pure (r.tag, tags')) v
            (OnReturn-Ensures _ (manage_docker_image d r v)
              (manage_docker_image-There d has lawful r v))
            (λ _ u h. (tagged, c', h)))

  process_image-Keeps :
      (u name : Text) (tags : Dict Text Text)
      → Preserves d (λ w. has w.state u ≡ true) (process_image d b dirname depth args name tags)
  unfolding process_image
  process_image-Keeps u name tags =
      bind-Preserves d _ (from_tagged (prepare b dirname depth args.no_cache args.local name tags))
        _ (from_tagged-Preserves d _ (prepare b dirname depth args.no_cache args.local name tags))
        (λ (r, tags').
          bind-Preserves d _ (manage_docker_image d r) (λ _. pure (r.tag, tags'))
            (manage_docker_image-Keeps d has keeping u r) (λ _ w h. h))

  process_images-Keeps :
      (u : Text) (target : Option Text) (names : List Text) (tags : Dict Text Text)
      → Preserves d
          (λ w. has w.state u ≡ true)
          (process_images d b dirname depth args target names tags)
  unfolding process_images
  process_images-Keeps u target [] tags = λ w h. h
  process_images-Keeps u target (name ∷ names) tags =
      bind-Preserves d _ (process_image d b dirname depth args name tags) _
        (process_image-Keeps u name tags)
        (λ (tag, tags'). elim (Bool-cases (is_printed target name)) [
          | inl it ↦ rw it (λ w h. h)
          | inr other ↦ rw other (process_images-Keeps u target names tags')
        ])

  -- What the end of the loop says of docker.
  abbrev pub Built : Option Text → List Text → Outcome → World d → Type 0
  Built target names (processed tags) w = All (IsBuilt w) names
  Built target names (printed tag) w =
      (name : Text) × (target ≡ some name) × TagOf b name tag × (has w.state tag ≡ true)

  Built-cons :
      (target : Option Text) (name : Text) (names : List Text) (tag : Text)
      → TagOf b name tag
      → (o : Outcome) (w : World d) → Built target names o w
      → has w.state tag ≡ true
      → Built target (name ∷ names) o w
  Built-cons target name names tag tagged (processed tags) w h there = ((tag, tagged, there), h)
  Built-cons target name names tag tagged (printed t) w h there = h

  pub process_images-Built :
      (target : Option Text) (names : List Text) (tags : Dict Text Text) (w : World d)
      → IsCorrect b tags
      → Ensures (Built target names) (process_images d b dirname depth args target names tags w)
  unfolding process_images
  process_images-Built target [] tags w c = tt
  process_images-Built target (name ∷ names) tags w c =
      bind-Ensures
        (λ (tag, tags') v. TagOf b name tag × IsCorrect b tags' × (has v.state tag ≡ true)) _
        (process_image d b dirname depth args name tags) _ w (process_image-Ensures name tags w c)
        (λ (tag, tags') v (tagged, c', there). elim (Bool-cases (is_printed target name)) [
          | inl it ↦ rw it (name, is_printed-some target name it, tagged, there)
          | inr other ↦ rw other (
              Ensures-and (Built target names) (Built target (name ∷ names))
                (λ u. has u.state tag ≡ true) (Built-cons target name names tag tagged)
                (process_images d b dirname depth args target names tags' v)
                (process_images-Built target names tags' v c')
                (process_images-Keeps tag target names tags' v there))
        ])
