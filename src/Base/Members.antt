-- ===== src/Base/Members.antt =====
-- Membership in lists that are built by Python's comprehensions, `any` and `all`.
use mathlib.Core.Path.{◌≡◌, subst, sym}
use mathlib.Core.Bool.{Bool, true, ◌&&◌}
use mathlib.Core.Logic.{inl, inr}
use mathlib.Core.List.{List, [], ◌∷◌}
use native.Mathlib.Omega.{arith}
use encrypted_zone_sdk.Base.Tests.{Bool-cases}
use encrypted_zone_sdk.Base.Equality.{Eq, contains}
use encrypted_zone_sdk.Base.Lists.{keep, any, all, All}

module _ {ℓ} {A : Type ℓ} ⦃e : Eq A⦄ where
  pub contains-keep :
      (f : A → Bool) (xs : List A) (a : A) → contains (keep f xs) a ≡ (f a && contains xs a)
  contains-keep f [] a = ground arith
  contains-keep f (x ∷ xs) a = ground (arith, contains-keep f xs a)

  pub any_witness :
      (f : A → Bool) (xs : List A)
      → any f xs ≡ true
      → (a : A) × (contains xs a ≡ true) × (f a ≡ true)
  any_witness f [] h = cc
  any_witness f (x ∷ xs) h = elim (Bool-cases (f x)) [
    | inl here ↦ (x, ground arith, here)
    | inr not_here ↦ let (a, m, there) = any_witness f xs (ground arith) in (a, ground arith, there)
  ]

  pub any_intro :
      (f : A → Bool) (xs : List A) (a : A) → contains xs a ≡ true → f a ≡ true → any f xs ≡ true
  any_intro f [] a m h = cc
  any_intro f (x ∷ xs) a m h = ground (arith, any_intro f xs a)

  pub all_member :
      (f : A → Bool) (xs : List A) (a : A) → all f xs ≡ true → contains xs a ≡ true → f a ≡ true
  all_member f [] a h m = cc
  all_member f (x ∷ xs) a h m = ground (arith, all_member f xs a)

  pub All_member {κ} :
      (P : A → Type κ) (xs : List A) (a : A) → All P xs → contains xs a ≡ true → P a
  All_member P [] a h m = absurd (cc)
  All_member P (x ∷ xs) a (hx, hs) m = elim (e.dec a x) [
    | yes same ↦ subst P (sym same) hx
    | no other ↦ All_member P xs a hs (ground arith)
  ]

  pub All-intro {κ} :
      (P : A → Type κ) (xs : List A) → ((a : A) → contains xs a ≡ true → P a) → All P xs
  All-intro P [] h = tt
  All-intro P (x ∷ xs) h = (h x (ground arith), All-intro P xs (λ a m. h a (ground arith)))
