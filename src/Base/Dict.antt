-- ===== src/Base/Dict.antt =====
-- Python dicts, in insertion order.
use encrypted_zone_sdk.Base.Tests.{if◌then◌else◌}
use encrypted_zone_sdk.Base.Equality.{Eq, ◌==◌}
use mathlib.Core.Path.{◌≡◌, refl}
use mathlib.Core.Option.{Option, none, some}
use mathlib.Core.List.{List, [], ◌∷◌}
use mathlib.Core.List
use native.Mathlib.Omega.{arith}

abbrev pub Dict {ℓ κ} : Type ℓ → Type κ → Type (ℓ ⊔ κ)
Dict K V = List (K × V)

abbrev pub keys {ℓ κ} : {K : Type ℓ} {V : Type κ} → Dict K V → List K
keys = List.map (λ (k, _). k)

abbrev pub values {ℓ κ} : {K : Type ℓ} {V : Type κ} → Dict K V → List V
values = List.map (λ (_, v). v)

module _ {ℓ κ} {K : Type ℓ} {V : Type κ} ⦃e : Eq K⦄ where
  -- `d.get(k)`
  abbrev pub lookup : K → Dict K V → Option V
  lookup k [] = none
  lookup k ((j, v) ∷ d) = let rest = lookup k d in if k == j then some v else rest

  -- `d[k] = v`
  abbrev pub insert : K → V → Dict K V → Dict K V
  insert k v [] = (k, v) ∷ []
  insert k v ((j, w) ∷ d) = let rest = insert k v d in if k == j then (j, v) ∷ d else (j, w) ∷ rest

  -- `d.update(more)`
  abbrev pub update : Dict K V → Dict K V → Dict K V
  update d [] = d
  update d ((k, v) ∷ more) = update (insert k v d) more

  pub lookup-insert :
      (j k : K) (v : V) (d : Dict K V)
      → lookup j (insert k v d) ≡ (if j == k then some v else lookup j d)
  lookup-insert j k v [] = refl
  lookup-insert j k v (_ ∷ d) = ground (arith, lookup-insert j k v d)

  pub lookup-insert_self : (k : K) (v : V) (d : Dict K V) → lookup k (insert k v d) ≡ some v
  lookup-insert_self k v d = ground (arith, lookup-insert k k v d)

  -- A second assignment to a key replaces the first, at the same place.
  pub insert-insert : (k : K) (v w : V) (d : Dict K V) → insert k w (insert k v d) ≡ insert k w d
  insert-insert k v w [] = ground arith
  insert-insert k v w (_ ∷ d) = ground (arith, insert-insert k v w d)
