-- ===== src/Mounts/Minimal.antt =====
-- `_minimize_paths` of .devkit/scripts/list_external_mounts.py.
use mathlib.Core.Bool.{false≢true}
use encrypted_zone_sdk.Base.{
  ◌≡◌, refl, ap, sym, ◌∙◌, subst, ◌⊎◌, true, false, not, ◌&&◌, ◌||◌, List, [], ◌∷◌, arith, ◌==◌,
  contains, contains-append, ==_iff, if◌then◌else◌, keep, any, Bool-cases, inl, inr,
}
use encrypted_zone_sdk.Base.Members.{contains-keep, any_witness, any_intro}
use encrypted_zone_sdk.FilePath.{FilePath, path_eq, is_relative_to}
use encrypted_zone_sdk.FilePath.Order.{is_relative_to_refl, is_relative_to_trans}
use encrypted_zone_sdk.Mounts.{
  insert_path, sorted, add, minimize_step, minimize_loop, minimize_paths,
}

abbrev pub In : FilePath → List FilePath → Type 0
In p s = contains s p ≡ true

-- No path of the set lies below another one.
abbrev pub IsAntichain : List FilePath → Type 0
IsAntichain s = (p q : FilePath) → In p s → In q s → is_relative_to p q ≡ true → p ≡ q

-- Some path of the set lies at or above `p`.
abbrev pub Covers : List FilePath → FilePath → Type 0
Covers s p = any (λ q. is_relative_to p q) s ≡ true

pub contains-add :
    (p : FilePath) (s : List FilePath) (a : FilePath)
    → contains (add p s) a ≡ (contains s a || a == p)
contains-add p s a = elim (Bool-cases (contains s p)) [
  | inl old ↦ rw old (ground (arith))
  | inr new ↦ rw new (contains-append s (p ∷ []) a ∙ ground arith)
]

module _ (m : List FilePath) (path : FilePath) where
  abbrev kept : List FilePath
  kept = keep (λ p. not (is_relative_to p path)) m

  In-step :
      (a : FilePath)
      → contains (minimize_step m path) a ≡ (
          if any (λ p. is_relative_to path p) m
          then contains m a
          else not (is_relative_to a path) && contains m a || a == path)
  unfolding minimize_step
  In-step a = elim (Bool-cases (any (λ p. is_relative_to path p) m)) [
    | inl covered ↦ rw covered
    | inr fresh ↦ rw fresh (
        contains-add path kept a
        ∙ ap (λ b. b || a == path) (contains-keep (λ p. not (is_relative_to p path)) m a))
  ]

  In-step_fresh :
      any (λ r. is_relative_to path r) m ≡ false
      → (a : FilePath) → In a (minimize_step m path)
      → (a ≡ path) ⊎ (In a m × (is_relative_to a path ≡ false))
  In-step_fresh fresh a h = ground (arith, In-step a)

  In-step_kept :
      any (λ r. is_relative_to path r) m ≡ false
      → (a : FilePath) → In a m
      → is_relative_to a path ≡ false
      → In a (minimize_step m path)
  In-step_kept fresh a h out = ground (arith, In-step a)

  not_covered :
      any (λ r. is_relative_to path r) m ≡ false
      → (q : FilePath) → In q m
      → is_relative_to path q ≡ false
  not_covered fresh q h = elim (Bool-cases (is_relative_to path q)) [
    | inl below ↦ absurd (false≢true (sym fresh ∙ any_intro (is_relative_to path) m q h below))
    | inr out ↦ out
  ]

  -- A step keeps the set an antichain.
  IsAntichain-step : IsAntichain m → IsAntichain (minimize_step m path)
  IsAntichain-step h p q hp hq below = elim (Bool-cases (any (λ r. is_relative_to path r) m)) [
    | inl covered ↦ h p q (ground (arith, In-step p)) (ground (arith, In-step q)) below
    | inr fresh ↦ elim (In-step_fresh fresh p hp) [
      | inl p_new ↦ elim (In-step_fresh fresh q hq) [
        | inl q_new ↦ p_new ∙ sym q_new
        | inr (q_old, _) ↦ absurd (
            false≢true (
              sym (not_covered fresh q q_old) ∙ subst (λ x. is_relative_to x q ≡ true) p_new below))
      ]
      | inr (p_old, p_out) ↦ elim (In-step_fresh fresh q hq) [
        | inl q_new ↦
            absurd (false≢true (sym p_out ∙ subst (λ x. is_relative_to p x ≡ true) q_new below))
        | inr (q_old, _) ↦ h p q p_old q_old below
      ]
    ]
  ]

  In-step_new : any (λ r. is_relative_to path r) m ≡ false → In path (minimize_step m path)
  In-step_new fresh = ground (arith, In-step path)

  Covers-step_new : Covers (minimize_step m path) path
  Covers-step_new = elim (Bool-cases (any (λ r. is_relative_to path r) m)) [
    | inl covered ↦
        let (q, hq, below) = any_witness (is_relative_to path) m covered in
        any_intro (is_relative_to path) (minimize_step m path) q (ground (arith, In-step q)) below
    | inr fresh ↦
        any_intro (is_relative_to path) (minimize_step m path) path (In-step_new fresh)
          (is_relative_to_refl path)
  ]

  Covers-step : (x : FilePath) → Covers m x → Covers (minimize_step m path) x
  Covers-step x h =
      let (q, hq, below) = any_witness (is_relative_to x) m h in
      let found = any_intro (is_relative_to x) (minimize_step m path) in
      elim (Bool-cases (any (λ r. is_relative_to path r) m)) [
        | inl covered ↦ found q (ground (arith, In-step q)) below
        | inr fresh ↦ elim (Bool-cases (is_relative_to q path)) [
          | inl replaced ↦
              found path (In-step_new fresh) (is_relative_to_trans x q path below replaced)
          | inr stays ↦ found q (In-step_kept fresh q hq stays) below
        ]
      ]

  In-step_source : (a : FilePath) → In a (minimize_step m path) → In a m ⊎ (a ≡ path)
  In-step_source a h = ground (arith, In-step a)

IsAntichain-loop : (paths m : List FilePath) → IsAntichain m → IsAntichain (minimize_loop m paths)
unfolding minimize_loop
IsAntichain-loop [] m h = h
IsAntichain-loop (p ∷ ps) m h = IsAntichain-loop ps (minimize_step m p) (IsAntichain-step m p h)

Covers-loop_old :
    (paths m : List FilePath) (x : FilePath) → Covers m x → Covers (minimize_loop m paths) x
unfolding minimize_loop
Covers-loop_old [] m x h = h
Covers-loop_old (p ∷ ps) m x h = Covers-loop_old ps (minimize_step m p) x (Covers-step m p x h)

Covers-loop :
    (paths m : List FilePath) (x : FilePath) → In x paths → Covers (minimize_loop m paths) x
unfolding minimize_loop
Covers-loop [] m x h = cc
Covers-loop (p ∷ ps) m x h = elim (Bool-cases (x == p)) [
  | inl same ↦
      Covers-loop_old ps (minimize_step m p) x
        (subst (Covers (minimize_step m p)) (sym ((==_iff x p).0 same)) (Covers-step_new m p))
  | inr other ↦ Covers-loop ps (minimize_step m p) x (ground arith)
]

In-loop :
    (paths m : List FilePath) (x : FilePath) → In x (minimize_loop m paths) → In x m ⊎ In x paths
unfolding minimize_loop
In-loop [] m x h = inl h
In-loop (p ∷ ps) m x h = elim (In-loop ps (minimize_step m p) x h) [
  | inl before ↦ elim (In-step_source m p x before) [
    | inl old ↦ inl old
    | inr new ↦ inr (ground arith)
  ]
  | inr later ↦ inr (ground arith)
]

contains-insert_path :
    (p : FilePath) (qs : List FilePath) (a : FilePath)
    → contains (insert_path p qs) a ≡ (a == p || contains qs a)
unfolding insert_path
contains-insert_path p [] a = refl
contains-insert_path p (q ∷ qs) a = ground (arith, contains-insert_path p qs a)

pub contains-sorted : (ps : List FilePath) (a : FilePath) → contains (sorted ps) a ≡ contains ps a
unfolding sorted
contains-sorted [] a = refl
contains-sorted (p ∷ ps) a =
    contains-insert_path p (sorted ps) a ∙ ap (λ b. a == p || b) (contains-sorted ps a)

-- The result of `_minimize_paths`: paths of the given set, none of them below another, with each
-- given path at or below one of them.
pub minimize_paths_minimal :
    (paths : List FilePath)
    → IsAntichain (minimize_paths paths)
      × ((x : FilePath) → In x (minimize_paths paths) → In x paths)
      × ((x : FilePath) → In x paths → Covers (minimize_paths paths) x)
unfolding minimize_paths
minimize_paths_minimal paths = (
  IsAntichain-loop (sorted paths) [] (λ p q hp hq below. cc),
  λ x h. elim (In-loop (sorted paths) [] x h) [
    | inl nothing ↦ cc
    | inr given ↦ sym (contains-sorted paths x) ∙ given
  ],
  λ x h. Covers-loop (sorted paths) [] x (contains-sorted paths x ∙ h),
)
