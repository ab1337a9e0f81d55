-- ===== src/Base/Result.antt =====
-- A call that returns a value or raises an exception.
use mathlib.Core.Path.{◌≡◌, refl}
use mathlib.Core.Logic.{◌⊎◌, inl, inr}
use mathlib.Core.List.{List}
use Prim.Native.Nat.{ℕ}

pub data Result {ℓ κ} (E : Type κ) (A : Type ℓ) : Type (ℓ ⊔ κ) where
  raise : E → Result E A
  ok : A → Result E A

pub ok-injective {ℓ κ} :
    {E : Type κ} {A : Type ℓ} {a b : A} → ◌≡◌ {A = Result E A} (ok a) (ok b) → a ≡ b
ok-injective h = cc

pub Result-cases {ℓ κ} :
    {E : Type κ} {A : Type ℓ} (r : Result E A) → ((e : E) × (r ≡ raise e)) ⊎ ((a : A) × (r ≡ ok a))
Result-cases (raise e) = inl (e, refl)
Result-cases (ok a) = inr (a, refl)

module _ {ℓ κ μ} {E : Type μ} {A : Type ℓ} {B : Type κ} where
  -- What follows a call, unless the call raises.
  abbrev pub followed_by : (A → Result E B) → Result E A → Result E B
  followed_by next (raise e) = raise e
  followed_by next (ok a) = next a

  infixl 5 ◌>>=◌
  abbrev pub ◌>>=◌ : Result E A → (A → Result E B) → Result E B
  call >>= next = followed_by next call

  -- A call and what follows it succeed only if both do.
  pub >>=-eq-ok :
      (call : Result E A) (next : A → Result E B) {result : B}
      → ◌≡◌ {A = Result E B} (call >>= next) (ok result)
      → (value : A) × (call ≡ ok value) × (next value ≡ ok result)
  >>=-eq-ok (raise e) next succeeds = cc
  >>=-eq-ok (ok value) next succeeds = (value, refl, succeeds)

-- What a script leaves: its exit status, and the lines on its two output streams.
pub record Exit : Type 0 where
  pub status : ℕ
  pub out : List (List ℕ)
  pub err : List (List ℕ)
