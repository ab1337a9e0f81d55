-- ===== src/FilePath/Order.antt =====
-- The order of the paths of `pathlib`.
use encrypted_zone_sdk.Base.{
  length, length-append, ◌≡◌, refl, ap, sym, ◌∙◌, append_assoc, append-nil, inl, inr, Bool, true,
  false, some, List, [], ◌∷◌, ◌++◌, arith, text_eq, Option-cases, Bool-cases,
}
use encrypted_zone_sdk.Base.Text.{Text}
use encrypted_zone_sdk.FilePath.{FilePath, path_of, parts_behind, same_kind, is_relative_to}

parts_behind_sound : (qs ps rest : List Text) → parts_behind qs ps ≡ some rest → ps ≡ qs ++ rest
parts_behind_sound [] ps rest h = cc
parts_behind_sound (q ∷ qs) [] rest h = cc
parts_behind_sound (q ∷ qs) (p ∷ ps) rest h = ground (arith, parts_behind_sound qs ps rest)

pub parts_behind-append : (qs rest : List Text) → parts_behind qs (qs ++ rest) ≡ some rest
parts_behind-append [] rest = refl
parts_behind-append (q ∷ qs) rest = ground (arith, parts_behind-append qs rest)

same_kind→eq : (a b : Bool) → same_kind a b ≡ true → a ≡ b
same_kind→eq true true h = refl
same_kind→eq true false h = cc
same_kind→eq false true h = cc
same_kind→eq false false h = refl

pub same_kind_refl : (a : Bool) → same_kind a a ≡ true
same_kind_refl true = refl
same_kind_refl false = refl

-- `p` lies at or below `q`: the components of `q` begin those of `p`.
abbrev pub Below : FilePath → FilePath → Type 0
Below p q = (rest : List Text) × (p ≡ path_of q.absolute (q.parts ++ rest))

pub Below-is_relative_to : (p q : FilePath) → is_relative_to p q ≡ true → Below p q
unfolding is_relative_to
Below-is_relative_to p q h = elim (Bool-cases (same_kind p.absolute q.absolute)) [
  | inr other ↦ ground arith
  | inl same ↦ elim (Option-cases (parts_behind q.parts p.parts)) [
    | inl outside ↦ ground arith
    | inr (rest, e) ↦ (
      rest,
      λ i.
          path_of (same_kind→eq p.absolute q.absolute same i)
            (parts_behind_sound q.parts p.parts rest e i),
    )
  ]
]

pub is_relative_to-Below : (p q : FilePath) → Below p q → is_relative_to p q ≡ true
unfolding is_relative_to
is_relative_to-Below p q (rest, e) =
    rw e (ground (arith, same_kind_refl q.absolute, parts_behind-append q.parts rest))

pub is_relative_to_refl : (p : FilePath) → is_relative_to p p ≡ true
is_relative_to_refl p =
    is_relative_to-Below p p ([], ap (path_of p.absolute) (sym (append-nil p.parts)))

pub is_relative_to_trans :
    (p q r : FilePath)
    → is_relative_to p q ≡ true
    → is_relative_to q r ≡ true
    → is_relative_to p r ≡ true
is_relative_to_trans p q r h k =
    let (a, e) = Below-is_relative_to p q h in
    let (b, f) = Below-is_relative_to q r k in
    is_relative_to-Below p r (
      b ++ a,
      e
          ∙ (λ i. path_of ((f i).absolute) ((f i).parts ++ a))
          ∙ ap (path_of r.absolute) (append_assoc r.parts b a),
    )

append-eq-nil : (xs ys : List Text) → length (xs ++ ys) ≡ length xs → ys ≡ []
append-eq-nil xs [] h = refl
append-eq-nil xs (y ∷ ys) h = absurd (omega (arith, length-append xs (y ∷ ys)))

pub is_relative_to_antisymm :
    (p q : FilePath) → is_relative_to p q ≡ true → is_relative_to q p ≡ true → p ≡ q
is_relative_to_antisymm p q h k =
    let (a, e) = Below-is_relative_to p q h in
    let (b, f) = Below-is_relative_to q p k in
    let none_left = append-eq-nil q.parts a (
      omega (
        arith,
        ap (λ (x : FilePath). length x.parts) e,
        ap (λ (x : FilePath). length x.parts) f,
        length-append q.parts a,
        length-append p.parts b,
      )) in
    e
    ∙ ap (λ l. path_of q.absolute (q.parts ++ l)) none_left
    ∙ ap (path_of q.absolute) (append-nil q.parts)
