-- ===== src/Bep/Names.antt =====
-- The names of the output directories of .devkit/scripts/bep.py.
use encrypted_zone_sdk.Base.{
  ℕ, ◌≡◌, refl, sym, ◌∙◌, ap, subst, inl, inr, true, false, Bool-cases, List, [], ◌∷◌, ◌++◌, arith,
  eqb, All, text_eq,
}
use encrypted_zone_sdk.Base.Text.{Text, codes, split, replace, replace_from, Lacks, put_first}
use encrypted_zone_sdk.FilePath.{FilePath}
use encrypted_zone_sdk.Bep.{last, sanitized_target_name, target_dir}

-- The replacement of a colon, character by character.
abbrev no_colon : Text → Text
no_colon [] = []
no_colon (c ∷ s) =
    let rest = no_colon s in elim (eqb c b':') [ true ↦ b'_' ∷ rest | false ↦ c ∷ rest ]

replace-no_colon : (s : Text) → replace s (codes ":") (codes "_") ≡ no_colon s
unfolding replace replace_from
replace-no_colon [] = refl
replace-no_colon (c ∷ s) = ground (arith, replace-no_colon s)

no_colon-append : (s t : Text) → no_colon (s ++ t) ≡ no_colon s ++ no_colon t
no_colon-append [] t = refl
no_colon-append (c ∷ s) t = ground (arith, no_colon-append s t)

no_colon-Lacks : (s : Text) → Lacks b':' (no_colon s)
no_colon-Lacks [] = tt
no_colon-Lacks (c ∷ s) = elim (Bool-cases (eqb c b':')) [
  | inl colon ↦ rw (colon, no_colon) (refl, no_colon-Lacks s)
  | inr other ↦ rw (other, no_colon) (other, no_colon-Lacks s)
]

-- A split text has a first part.
split-first : (sep : ℕ) (s : Text) → (p : Text) × (ps : List Text) × (split sep s ≡ p ∷ ps)
unfolding split
split-first sep [] = ([], [], refl)
split-first sep (c ∷ s) =
    let (p, ps, e) = split-first sep s in
    elim (Bool-cases (eqb c sep)) [
      | inl cut ↦ ([], split sep s, rw (cut, split) refl)
      | inr inside ↦ (c ∷ p, ps, rw (inside, split) (rw e refl))
    ]

put_first-append :
    (c : ℕ) (ps qs : List Text) (p : Text)
    → put_first c ((p ∷ ps) ++ qs) ≡ put_first c (p ∷ ps) ++ qs
put_first-append c ps qs p = refl

split-append : (sep : ℕ) (s t : Text) → split sep (s ++ (sep ∷ t)) ≡ split sep s ++ split sep t
unfolding split
split-append sep [] t = ground arith
split-append sep (c ∷ s) t =
    let (p, ps, e) = split-first sep s in
    let rest = split-append sep s t in
    elim (Bool-cases (eqb c sep)) [
      | inl cut ↦ rw (cut, split) (ap (λ ps. [] ∷ ps) rest)
      | inr inside ↦ rw (inside, split) (rw rest (rw e refl))
    ]

last-append : (ps : List Text) (q : Text) (qs : List Text) → last (ps ++ (q ∷ qs)) ≡ last (q ∷ qs)
last-append [] q qs = refl
last-append (p ∷ []) q qs = refl
last-append (p ∷ p' ∷ ps) q qs = last-append (p' ∷ ps) q qs

last-split : (s t : Text) → last (split b'/' (s ++ (b'/' ∷ t))) ≡ last (split b'/' t)
last-split s t =
    let (q, qs, e) = split-first b'/' t in
    rw (split-append b'/' s t) (rw e (last-append (split b'/' s) q qs))

module _ (b : ℕ) where
  put_first-Lacks :
      (c : ℕ) (ps : List Text) → eqb c b ≡ false → All (Lacks b) ps → All (Lacks b) (put_first c ps)
  put_first-Lacks c [] new _ = ((new, tt), tt)
  put_first-Lacks c (p ∷ ps) new (h, hs) = ((new, h), hs)

  parts-Lacks : (sep : ℕ) (s : Text) → Lacks b s → All (Lacks b) (split sep s)
  unfolding split
  parts-Lacks sep [] _ = (tt, tt)
  parts-Lacks sep (c ∷ s) (new, h) = elim (Bool-cases (eqb c sep)) [
    | inl cut ↦ rw (cut, split) (tt, parts-Lacks sep s h)
    | inr inside ↦ rw (inside, split) (put_first-Lacks c (split sep s) new (parts-Lacks sep s h))
  ]

  separators-Lacks : (s : Text) → All (Lacks b) (split b s)
  unfolding split
  separators-Lacks [] = (tt, tt)
  separators-Lacks (c ∷ s) = elim (Bool-cases (eqb c b)) [
    | inl cut ↦ rw (cut, split) (tt, separators-Lacks s)
    | inr inside ↦ rw (inside, split) (put_first-Lacks c (split b s) inside (separators-Lacks s))
  ]

  last-Lacks : (ps : List Text) → All (Lacks b) ps → Lacks b (last ps)
  last-Lacks [] _ = tt
  last-Lacks (p ∷ []) (h, _) = h
  last-Lacks (p ∷ q ∷ ps) (_, hs) = last-Lacks (q ∷ ps) hs

-- The name of the directory for a target has no slash and no colon.
pub sanitized_target_name-Lacks :
    (target : Text)
    → Lacks b'/' (sanitized_target_name target) × Lacks b':' (sanitized_target_name target)
unfolding sanitized_target_name
sanitized_target_name-Lacks target = (
  last-Lacks b'/' _ (separators-Lacks b'/' (replace target (codes ":") (codes "_"))),
  last-Lacks b':' _ (
      parts-Lacks b':' b'/' _
        (subst (Lacks b':') (sym (replace-no_colon target)) (no_colon-Lacks target))),
)

sanitized-slash :
    (a target : Text) → sanitized_target_name (a ++ (b'/' ∷ target)) ≡ sanitized_target_name target
unfolding sanitized_target_name
sanitized-slash a target =
    ap (λ t. last (split b'/' t))
      (replace-no_colon (a ++ (b'/' ∷ target)) ∙ no_colon-append a (b'/' ∷ target))
    ∙ last-split (no_colon a) (no_colon target)
    ∙ ap (λ t. last (split b'/' t)) (sym (replace-no_colon target))

-- Two targets that agree behind a slash are given the same directory: the output of the one replaces
-- that of the other.
pub target_dir-same :
    (output_dir : FilePath) (a b target : Text)
    → target_dir output_dir (a ++ (b'/' ∷ target)) ≡ target_dir output_dir (b ++ (b'/' ∷ target))
unfolding target_dir
target_dir-same output_dir a b target =
    rw (sanitized-slash a target) (rw (sanitized-slash b target) refl)
