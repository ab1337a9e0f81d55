-- ===== src/Cleanup/Loop.antt =====
-- `cleanup_images_batch` and `cleanup_images` of .devkit/scripts/docker_cleanup.py. The event and
-- the processes are parameters: `cancelled n` is what the event answers when it is asked for the
-- n-th time, and `polls img` is how often the process that removes `img` is still found running,
-- or `none` where it cannot be started.
use encrypted_zone_sdk.Base.{
  ℕ, zero, suc, ◌+◌, Bool, true, false, Option, none, some, List, [], ◌∷◌, ◌++◌, take, drop, length,
}
use encrypted_zone_sdk.Base.Int.{ℤ, pos, negsuc}
use encrypted_zone_sdk.Base.Result.{Result, ok, raise, ◌>>=◌}
use encrypted_zone_sdk.Cleanup.{Failure, uncaught_exception}
use encrypted_zone_sdk.Base.Text.{Text}

-- How often the event was asked, the images whose removal was begun, and those among them whose
-- removal was cut off.
pub record Cleaner : Type 0 where
  pub asked : ℕ
  pub begun : List Text
  pub terminated : List Text

module _ (cancelled : ℕ → Bool) (polls : Text → Option ℕ) where
  -- The event is asked once.
  abbrev pub ask : Cleaner → Cleaner
  ask c = record c { asked = c.asked + 1 }

  -- `while proc.poll() is None`, and whether the process ended by itself.
  unfoldable pub await : ℕ → Text → Cleaner → Bool × Cleaner
  await zero img c = (true, c)
  await (suc n) img c = elim (cancelled (c.asked)) [
    | true ↦ (false, record (ask c) { terminated = c.terminated ++ (img ∷ []) })
    | false ↦ await n img (ask c)
  ]

  -- One image of the batch, and whether the loop goes on.
  unfoldable pub remove_image : Text → Cleaner → Bool × Cleaner
  unfolding await
  remove_image img c = elim (cancelled (c.asked)) [
    | true ↦ (false, ask c)
    | false ↦ elim (polls img) [
      | none ↦ (true, record (ask c) { begun = c.begun ++ (img ∷ []) })
      | some n ↦ await n img (record (ask c) { begun = c.begun ++ (img ∷ []) })
    ]
  ]

  unfoldable pub cleanup_images_batch : List Text → Cleaner → Cleaner
  unfolding remove_image
  cleanup_images_batch [] c = c
  cleanup_images_batch (img ∷ imgs) c =
      let (goes_on, c') = remove_image img c in
      elim goes_on [ true ↦ cleanup_images_batch imgs c' | false ↦ c' ]

  -- The loop over `range(0, len(all_to_cleanup), batch_size)`, from what is left; the number bounds
  -- the rounds.
  unfoldable pub cleanup_batches : ℕ → ℕ → List Text → Cleaner → Cleaner
  unfolding cleanup_images_batch
  cleanup_batches rounds batch_size [] c = c
  cleanup_batches zero batch_size (img ∷ imgs) c = c
  cleanup_batches (suc rounds) batch_size (img ∷ imgs) c =
      let c' = cleanup_images_batch (take batch_size (img ∷ imgs)) c in
      elim (cancelled (c'.asked)) [
        | true ↦ ask c'
        | false ↦ cleanup_batches rounds batch_size (drop batch_size (img ∷ imgs)) (ask c')
      ]

  -- The loop over `range(0, len(all_to_cleanup), batch_size)`: `range` refuses a step of 0, and a
  -- negative one gives no round.
  unfoldable pub cleanup_selected : ℤ → List Text → Cleaner → Result Failure Cleaner
  unfolding cleanup_batches
  cleanup_selected (pos zero) all_to_cleanup c = raise uncaught_exception
  cleanup_selected (pos (suc n)) all_to_cleanup c =
      ok (cleanup_batches (length all_to_cleanup) (suc n) all_to_cleanup c)
  cleanup_selected (negsuc n) all_to_cleanup c = ok c

  abbrev pub fresh : Cleaner
  fresh = record { asked = 0; begun = []; terminated = [] }

  -- `cleanup_images`: `selected` is how `get_images_to_cleanup` ends, which is called after the
  -- first wait.
  unfoldable pub cleanup_images : ℤ → Result Failure (List Text) → Result Failure Cleaner
  unfolding cleanup_selected
  cleanup_images batch_size selected = elim (cancelled 0) [
    | true ↦ ok (ask fresh)
    | false ↦ selected >>= λ all_to_cleanup. cleanup_selected batch_size all_to_cleanup (ask fresh)
  ]
