-- ===== src/Cleanup/Batches.antt =====
-- What `cleanup_images` does to the images that are selected, cancelled or not.
use encrypted_zone_sdk.Base.{
  ◌≡◌, refl, sym, subst, ◌∙◌, ap, ℕ, zero, suc, ◌+◌, ◌≤◌, Bool, true, false, List, [], ◌∷◌, ◌++◌,
  arith, take, drop, length, Bool-cases, Option-cases, inl, inr, ◌⊎◌, Option, append_assoc,
  append-nil, take-append-drop, length-drop,
}
use encrypted_zone_sdk.Base.Int.{pos}
use encrypted_zone_sdk.Base.Result.{ok}
use encrypted_zone_sdk.Base.Text.{Text}
use encrypted_zone_sdk.Cleanup.Loop.{
  Cleaner, ask, await, remove_image, cleanup_images_batch, cleanup_batches, cleanup_images,
}

-- An event that is set stays set.
abbrev pub StaysSet : (ℕ → Bool) → Type 0
StaysSet cancelled = (n : ℕ) → cancelled n ≡ true → cancelled (n + 1) ≡ true

-- From `c` to `c'` the removal of the images was begun from the front, of all unless cancelled.
pub Progress : (ℕ → Bool) → List Text → Cleaner → Cleaner → Type 0
Progress cancelled imgs c c' =
    (done : List Text) × (rest : List Text) × (imgs ≡ done ++ rest)
    × (c'.begun ≡ c.begun ++ done)
    × ((rest ≡ []) ⊎ (cancelled (c'.asked) ≡ true))

module _ (cancelled : ℕ → Bool) (polls : Text → Option ℕ) (stays : StaysSet cancelled) where
  -- The loop goes on, or the event is set.
  GoesOn : Bool × Cleaner → Type 0
  GoesOn (goes_on, c) = (goes_on ≡ true) ⊎ ((goes_on ≡ false) × (cancelled (c.asked) ≡ true))

  await-GoesOn : (n : ℕ) (img : Text) (c : Cleaner) → GoesOn (await cancelled polls n img c)
  unfolding await GoesOn
  await-GoesOn zero img c = inl refl
  await-GoesOn (suc n) img c = elim (Bool-cases (cancelled (c.asked))) [
    | inl set ↦ rw (set, await) (inr (refl, stays (c.asked) set))
    | inr unset ↦ rw (unset, await) (await-GoesOn n img (ask cancelled polls c))
  ]

  begun-await :
      (n : ℕ) (img : Text) (c : Cleaner) → ((await cancelled polls n img c).1).begun ≡ c.begun
  unfolding await GoesOn
  begun-await zero img c = refl
  begun-await (suc n) img c = elim (Bool-cases (cancelled (c.asked))) [
    | inl set ↦ rw (set, await) refl
    | inr unset ↦ rw (unset, await) (begun-await n img (ask cancelled polls c))
  ]

  -- The removal of the image was begun, or the event is set.
  remove_image-Begins :
      (img : Text) (c : Cleaner)
      → (((remove_image cancelled polls img c).1).begun ≡ c.begun ++ (img ∷ []))
          × GoesOn (remove_image cancelled polls img c)
        ⊎ ((remove_image cancelled polls img c).0 ≡ false)
          × (((remove_image cancelled polls img c).1).begun ≡ c.begun)
          × (cancelled (((remove_image cancelled polls img c).1).asked) ≡ true)
  unfolding remove_image GoesOn
  remove_image-Begins img c = elim (Bool-cases (cancelled (c.asked))) [
    | inl set ↦ inr (rw (set, remove_image) (refl, refl, stays (c.asked) set))
    | inr unset ↦ elim (Option-cases (polls img)) [
      | inl e ↦ inl (rw (unset, e, remove_image) (refl, inl refl))
      | inr (n, e) ↦
          let begun : Cleaner = record (ask cancelled polls c) { begun = c.begun ++ (img ∷ []) } in
          inl (rw (unset, e, remove_image) (begun-await n img begun, await-GoesOn n img begun))
    ]
  ]

  Progress-cons :
      (img : Text) (imgs : List Text) (c c' c'' : Cleaner)
      → c'.begun ≡ c.begun ++ (img ∷ [])
      → Progress cancelled imgs c' c''
      → Progress cancelled (img ∷ imgs) c c''
  unfolding Progress
  Progress-cons img imgs c c' c'' b (done, rest, e, more, end) = (
    img ∷ done,
    rest,
    ap (λ l. img ∷ l) e,
    more ∙ ap (λ l. l ++ done) b ∙ append_assoc (c.begun) (img ∷ []) done,
    end,
  )

  Progress-batch :
      (imgs : List Text) (c : Cleaner)
      → Progress cancelled imgs c (cleanup_images_batch cancelled polls imgs c)
  unfolding Progress cleanup_images_batch GoesOn
  Progress-batch [] c = ([], [], refl, sym (append-nil (c.begun)), inl refl)
  Progress-batch (img ∷ imgs) c = elim (remove_image-Begins img c) [
    | inr (stops, same, set) ↦
        rw (stops, cleanup_images_batch)
          ([], img ∷ imgs, refl, same ∙ sym (append-nil (c.begun)), inr set)
    | inl (b, inl goes_on) ↦
        rw (goes_on, cleanup_images_batch)
          (Progress-cons img imgs c ((remove_image cancelled polls img c).1)
            (cleanup_images_batch cancelled polls imgs ((remove_image cancelled polls img c).1)) b
            (Progress-batch imgs ((remove_image cancelled polls img c).1)))
    | inl (b, inr (stops, set)) ↦
        rw (stops, cleanup_images_batch) (img ∷ [], imgs, refl, b, inr set)
  ]

  Progress-append :
      (imgs more : List Text) (c c' c'' : Cleaner)
      → cancelled (c'.asked) ≡ false
      → Progress cancelled imgs c c'
      → Progress cancelled more c' c''
      → Progress cancelled (imgs ++ more) c c''
  unfolding Progress
  Progress-append imgs more c c' c'' unset (done, rest, e, b, inr set) _ = absurd (cc)
  Progress-append imgs more c c' c'' unset (done, rest, e, b, inl none_left)
        (done', rest', e', b', end) =
      (
        done ++ done',
        rest',
        subst (λ l. l ++ more ≡ (done ++ done') ++ rest')
            (sym (e ∙ ap (λ l. done ++ l) none_left ∙ append-nil done))
            (ap (λ l. done ++ l) e' ∙ sym (append_assoc done done' rest')),
        b' ∙ ap (λ l. l ++ done') b ∙ append_assoc (c.begun) done done',
        end,
      )

  Progress-stop :
      (imgs more : List Text) (c c' : Cleaner)
      → cancelled (c'.asked) ≡ true
      → Progress cancelled imgs c c'
      → Progress cancelled (imgs ++ more) c (ask cancelled polls c')
  unfolding Progress
  Progress-stop imgs more c c' set (done, rest, e, b, _) = (
    done,
    rest ++ more,
    ap (λ l. l ++ more) e ∙ append_assoc done rest more,
    b,
    inr (stays (c'.asked) set),
  )

  Progress-batches :
      (rounds n : ℕ) (imgs : List Text) (c : Cleaner)
      → length imgs ≤ rounds
      → Progress cancelled imgs c (cleanup_batches cancelled polls rounds (suc n) imgs c)
  unfolding Progress cleanup_batches
  Progress-batches rounds n [] c enough = ([], [], refl, sym (append-nil (c.begun)), inl refl)
  Progress-batches zero n (img ∷ imgs) c enough = absurd (omega arith)
  Progress-batches (suc rounds) n (img ∷ imgs) c enough =
      let first = take (suc n) (img ∷ imgs) in
      let more = drop (suc n) (img ∷ imgs) in
      let c' = cleanup_images_batch cancelled polls first c in
      subst
        (λ l.
          Progress cancelled l c
            (cleanup_batches cancelled polls (suc rounds) (suc n) (img ∷ imgs) c))
        (take-append-drop (suc n) (img ∷ imgs))
        (elim (Bool-cases (cancelled (c'.asked))) [
          | inl set ↦
              rw (set, cleanup_batches) (Progress-stop first more c c' set (Progress-batch first c))
          | inr unset ↦
              rw (unset, cleanup_batches)
                (Progress-append first more c c'
                  (cleanup_batches cancelled polls rounds (suc n) more (ask cancelled polls c'))
                  unset (Progress-batch first c)
                  (Progress-batches rounds n more (ask cancelled polls c')
                    (omega (arith, enough, length-drop n imgs))))
        ])

pub cleanup_images-in_order :
    (cancelled : ℕ → Bool) (polls : Text → Option ℕ) (stays : StaysSet cancelled) (n : ℕ)
    (all_to_cleanup : List Text)
    → (c : Cleaner) × (rest : List Text) × (cleanup_images cancelled polls
          (pos (suc n))
          (ok all_to_cleanup)
        ≡ ok c)
      × (all_to_cleanup ≡ c.begun ++ rest)
      × ((rest ≡ []) ⊎ (cancelled (c.asked) ≡ true))
unfolding cleanup_images Progress
cleanup_images-in_order cancelled polls stays n all_to_cleanup =
    let start : Cleaner = record { asked = 1; begun = []; terminated = [] } in
    elim (Bool-cases (cancelled 0)) [
      | inl set ↦ rw (set, cleanup_images) (start, all_to_cleanup, refl, refl, inr (stays 0 set))
      | inr unset ↦
          let end =
            cleanup_batches cancelled polls (length all_to_cleanup) (suc n) all_to_cleanup start in
          let (done, rest, e, b, stop) =
            Progress-batches cancelled polls stays (length all_to_cleanup) n all_to_cleanup start
              (omega arith) in
          (end, rest, rw (unset, cleanup_images) refl, e ∙ ap (λ l. l ++ rest) (sym b), stop)
    ]
