-- ===== src/FindRoot/Nearest.antt =====
-- The search of .devkit/scripts/find_project_root.py.
use mathlib.Core.Bool.{false≢true}
use encrypted_zone_sdk.Base.{
  ℕ, zero, suc, ◌≡◌, refl, ap, sym, ◌∙◌, ◌⊎◌, inl, inr, Bool, true, false, List, [], ◌∷◌, ◌++◌,
  append-nil, append_assoc, arith, length, length-append, Bool-cases, List-cases,
}
use encrypted_zone_sdk.Base.Result.{Result, ok, raise}
use encrypted_zone_sdk.Base.Text.{Text}
use encrypted_zone_sdk.FilePath.{FilePath, path_of, parent, without_last}
use encrypted_zone_sdk.FilePath.Order.{Below}
use encrypted_zone_sdk.FindRoot.{RootError, up_from, has_devkit, first_root, search_from}

without_last-append :
    (xs : List Text) (y : Text) (ys : List Text)
    → without_last (xs ++ (y ∷ ys)) ≡ xs ++ without_last (y ∷ ys)
without_last-append [] y ys = refl
without_last-append (x ∷ []) y ys = refl
without_last-append (x ∷ x' ∷ xs) y ys = ap (λ l. x ∷ l) (without_last-append (x' ∷ xs) y ys)

-- What lies above a path is the path, or lies above its parent.
Below-parent : (p q : FilePath) → Below p q → (q ≡ p) ⊎ Below (parent p) q
unfolding parent
Below-parent p q ([], e) = inl (sym (e ∙ ap (path_of q.absolute) (append-nil q.parts)))
Below-parent p q (r ∷ rs, e) = inr (
  without_last (r ∷ rs),
  (λ i. path_of ((e i).absolute) (without_last (e i).parts))
      ∙ ap (path_of q.absolute) (without_last-append q.parts r rs),
)

length-without_last :
    (x : Text) (xs : List Text) → suc (length (without_last (x ∷ xs))) ≡ length (x ∷ xs)
length-without_last x [] = refl
length-without_last x (y ∷ ys) = ap suc (length-without_last y ys)

last_split : (x : Text) (xs : List Text) → (y : Text) × (x ∷ xs ≡ without_last (x ∷ xs) ++ (y ∷ []))
last_split x [] = (x, refl)
last_split x (z ∷ zs) = let (y, e) = last_split z zs in (y, ap (λ l. x ∷ l) e)

Below-of_parent : (p q : FilePath) → Below (parent p) q → Below p q
unfolding parent
Below-of_parent p q (rest, e) = elim (List-cases p.parts) [
  | inl top ↦ (rest, ap (path_of p.absolute) (top ∙ sym (ap without_last top)) ∙ e)
  | inr (x, xs, s) ↦
      let (y, split) = last_split x xs in
      let whole : p.parts ≡ without_last p.parts ++ (y ∷ []) =
        s ∙ split ∙ ap (λ l. without_last l ++ (y ∷ [])) (sym s) in
      (
        rest ++ (y ∷ []),
        ap (path_of p.absolute) whole
            ∙ (λ i. path_of ((e i).absolute) ((e i).parts ++ (y ∷ [])))
            ∙ ap (path_of q.absolute) (append_assoc q.parts rest (y ∷ [])),
      )
]

length-parent : (p : FilePath) (n : ℕ) → length p.parts ≡ suc n → length (parent p).parts ≡ n
unfolding parent
length-parent p n h = elim (List-cases p.parts) [
  | inl top ↦ absurd (omega (arith, ap (length {A = Text}) top))
  | inr (x, xs, s) ↦ omega (
    arith,
    ap (length {A = Text}) s,
    length-without_last x xs,
    ap (λ l. length (without_last l)) s,
  )
]

nil_behind :
    (p q : FilePath) (rest : List Text)
    → length p.parts ≡ 0
    → p ≡ path_of q.absolute (q.parts ++ rest)
    → rest ≡ []
nil_behind p q [] h e = refl
nil_behind p q (r ∷ rs) h e =
    absurd (omega (arith, ap (λ (x : FilePath). length x.parts) e, length-append q.parts (r ∷ rs)))

module _ (exists : FilePath → Bool) where
  -- What the result says of the paths above `cur`.
  abbrev pub Nearest : FilePath → Result RootError FilePath → Type 0
  Nearest cur (ok r) =
      Below cur r
      × (has_devkit exists r ≡ true)
      × ((q : FilePath) → Below cur q → has_devkit exists q ≡ true → Below r q)
  Nearest cur (raise e) = (q : FilePath) → Below cur q → has_devkit exists q ≡ false

  module _ (cur : FilePath) (misses : has_devkit exists cur ≡ false) where
    at_cur : (q : FilePath) → q ≡ cur → has_devkit exists q ≡ false
    at_cur q same = ap (has_devkit exists) same ∙ misses

    Nearest-parent : (r : Result RootError FilePath) → Nearest (parent cur) r → Nearest cur r
    Nearest-parent (ok r) (b, h, lowest) = (
      Below-of_parent cur r b,
      h,
      λ q bq hq. elim (Below-parent cur q bq) [
        | inl same ↦ absurd (false≢true (sym (at_cur q same) ∙ hq))
        | inr above ↦ lowest q above hq
      ],
    )
    Nearest-parent (raise e) no_root = λ q bq. elim (Below-parent cur q bq) [
      | inl same ↦ at_cur q same
      | inr above ↦ no_root q above
    ]

  first_root-Nearest :
      (n : ℕ) (cur : FilePath)
      → length cur.parts ≡ n
      → Nearest cur (first_root exists (up_from n cur))
  unfolding first_root up_from parent
  first_root-Nearest zero cur h = elim (Bool-cases (has_devkit exists cur)) [
    | inl found ↦
        rw found (([], ap (path_of cur.absolute) (sym (append-nil cur.parts))), found, λ q b _. b)
    | inr missing ↦ rw missing (λ q (rest, e). at_cur cur missing q (
        sym (
          e
          ∙ ap (λ l. path_of q.absolute (q.parts ++ l)) (nil_behind cur q rest h e)
          ∙ ap (path_of q.absolute) (append-nil q.parts))))
  ]
  first_root-Nearest (suc n) cur h = elim (Bool-cases (has_devkit exists cur)) [
    | inl found ↦
        rw found (([], ap (path_of cur.absolute) (sym (append-nil cur.parts))), found, λ q b _. b)
    | inr missing ↦
        rw missing
          (Nearest-parent cur missing _ (first_root-Nearest n (parent cur) (length-parent cur n h)))
  ]

  -- The search finds the nearest directory, from the current one upwards, that holds `devkit`;
  -- it fails exactly when none does.
  pub search_from-Nearest : (cur : FilePath) → Nearest cur (search_from exists cur)
  unfolding search_from
  search_from-Nearest cur = first_root-Nearest (length cur.parts) cur refl
