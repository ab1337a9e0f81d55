-- ===== src/Cleanup/Main.antt =====
-- The clean-up of .devkit/scripts/docker_cleanup.py as a whole: `get_images_to_cleanup`,
-- `cleanup_images` and `main`, behind the argument parser.
use encrypted_zone_sdk.Base.{ℕ, Bool, true, false, Option, List}
use encrypted_zone_sdk.Base.Int.{ℤ}
use encrypted_zone_sdk.Base.Result.{Result, ok, raise, ◌>>=◌}
use encrypted_zone_sdk.Base.Text.{Text}
use encrypted_zone_sdk.Build.Json.{Json, Checked}
use encrypted_zone_sdk.Build.Registry.{get_image_prefix}
use encrypted_zone_sdk.Build.Maker.{Ends, Ended, exception}
use encrypted_zone_sdk.Build.Maker
use encrypted_zone_sdk.Cleanup.{
  TagsOutcome, all_tags, system_exit, Failure, system_exit_1, uncaught_exception, images_command,
  get_images, get_images_to_cleanup,
}
use encrypted_zone_sdk.Cleanup
use encrypted_zone_sdk.Cleanup.Loop.{Cleaner, cleanup_images}

-- How `get_all_docker_image_tags` ends.
abbrev pub outcome_of : Ends (List Text) → TagsOutcome
outcome_of (ok tags) = all_tags tags
outcome_of (raise exception) = Cleanup.exception
outcome_of (raise Maker.system_exit_1) = system_exit

-- An exception of `get_image_prefix` is not caught.
abbrev pub prefix_or_fail : Checked Text → Result Failure Text
prefix_or_fail (ok image_prefix) = ok image_prefix
prefix_or_fail (raise e) = raise uncaught_exception

-- What the clean-up asks: the configuration file, the output of docker for a command, the current
-- tags, what the event answers, and the processes.
pub record Surroundings : Type 0 where
  pub show : Json → Text
  pub config_path : Option (Checked Json)
  pub docker : List Text → Option Text
  pub current_tags : Ends (List Text)
  pub cancelled : ℕ → Bool
  pub polls : Text → Option ℕ

module _ (s : Surroundings) where
  -- `get_images_to_cleanup`
  unfoldable pub find_images : ℤ → Result Failure (List Text)
  unfolding get_image_prefix get_images images_command get_images_to_cleanup
  find_images threshold_days =
      prefix_or_fail (get_image_prefix s.show s.config_path) >>= λ image_prefix.
      get_images_to_cleanup (get_images (s.docker (images_command image_prefix threshold_days)))
        (outcome_of s.current_tags)

  -- `cleanup_images`
  unfoldable pub cleanup : ℤ → ℤ → Result Failure Cleaner
  unfolding cleanup_images find_images
  cleanup batch_size threshold_days =
      cleanup_images s.cancelled s.polls batch_size (find_images threshold_days)

-- How `cleanup_images` ends in `main`: Ctrl-C may come at any time.
pub data CleanupEnd : Type 0 where
  ended : Result Failure Cleaner → CleanupEnd
  keyboard_interrupt : CleanupEnd

-- The exit status of `main`, and whether it set the event.
unfoldable pub main : CleanupEnd → ℕ × Bool
main (ended (ok c)) = (0, false)
main (ended (raise e)) = (1, false)
main keyboard_interrupt = (0, true)
