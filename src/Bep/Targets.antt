-- ===== src/Bep/Targets.antt =====
-- What .devkit/scripts/bep.py does for a list of targets.
use encrypted_zone_sdk.Base.{
  ◌≡◌, refl, sym, ◌∙◌, ap, subst, ◌⊎◌, inl, inr, Bool, true, false, List, [], ◌∷◌, ◌++◌,
  append_assoc, append-nil, text_eq,
}
use encrypted_zone_sdk.Base.Result.{Result, ok, raise}
use encrypted_zone_sdk.Base.Text.{Text}
use encrypted_zone_sdk.FilePath.{FilePath}
use encrypted_zone_sdk.Bep.{
  followed, Command, Effect, made_dir, ran, Ran, completed, failed, not_found, BepError,
  exit_status_1, mkdir, pure, output_of, bep_json, target_dir, run_command, bash_command,
  generate_build_event_json, process_target, process_targets,
}

module _ (run : List Effect → Command → Ran) (makes : List Effect → FilePath → Bool)
    (root : FilePath) (temp : Text → Text × Text) (command : Text) (output_dir : FilePath) where
  -- The command for a target.
  abbrev pub command_for : Text → Command
  command_for target =
      bash_command run makes (ok root) temp root target (bep_json (target_dir output_dir target))
        command

  -- For each target a directory and a command, in the order of the targets.
  abbrev pub planned : List Text → List Effect
  planned [] = []
  planned (target ∷ targets) =
      made_dir (target_dir output_dir target) ∷ ran (command_for target) ∷ planned targets

  -- The effects of one target.
  abbrev steps : Text → List Effect
  steps target = made_dir (target_dir output_dir target) ∷ ran (command_for target) ∷ []

  -- How the command of a target ends, behind the effects so far.
  abbrev ran_as : Text → List Effect → Ran
  ran_as target log =
      run (log ++ (made_dir (target_dir output_dir target) ∷ [])) (command_for target)

  abbrev pub Succeeds : Ran → Type 0
  Succeeds r = (out : Text) × (r ≡ completed out)

  -- The commands of these targets, one after the other, all succeed.
  abbrev pub AllSucceed : List Text → List Effect → Type 0
  AllSucceed [] log = Unit
  AllSucceed (target ∷ targets) log =
      Succeeds (ran_as target log) × AllSucceed targets (log ++ steps target)

  -- Behind the commands of these targets, which all succeed, that of `target` does not.
  abbrev pub FailsAfter : List Text → Text → List Effect → Type 0
  FailsAfter [] target log = ¬ Succeeds (ran_as target log)
  FailsAfter (t ∷ ts) target log = Succeeds (ran_as t log) × FailsAfter ts target (log ++ steps t)

  -- All commands succeeded, or the first that did not ended the script.
  abbrev pub Processed : List Text → Result BepError (Unit {0}) × List Effect → List Effect → Type 0
  Processed targets (end, log) start =
      (AllSucceed targets start × (end ≡ ok tt) × (log ≡ start ++ planned targets))
      ⊎ ((before : List Text) × (target : Text) × (after : List Text) × (targets
            ≡ before ++ (target ∷ after))
          × FailsAfter before target start
          × (end ≡ raise exit_status_1)
          × (log ≡ start ++ planned (before ++ (target ∷ []))))

  module _ (can_make : (log : List Effect) (path : FilePath) → makes log path ≡ true) where
    finish-cases :
        (r : Ran) (log : List Effect)
        → Succeeds r × (followed (λ _. pure tt) (output_of false r, log) ≡ (ok tt, log))
          ⊎ (¬ Succeeds r)
            × (followed (λ _. pure tt) (output_of false r, log) ≡ (raise exit_status_1, log))
    finish-cases (completed out) log = inl ((out, refl), refl)
    finish-cases (failed n) log = inr ((λ (out, e). absurd (cc)), refl)
    finish-cases not_found log = inr ((λ (out, e). absurd (cc)), refl)

    process_target-cases :
        (target : Text) (log : List Effect)
        → Succeeds (ran_as target log)
            × (process_target run makes (ok root) temp command output_dir target log
                ≡ (ok tt, log ++ steps target))
          ⊎ (¬ Succeeds (ran_as target log))
            × (process_target run makes (ok root) temp command output_dir target log
                ≡ (raise exit_status_1, log ++ steps target))
    unfolding process_target generate_build_event_json run_command mkdir
    process_target-cases target log =
        subst
          (λ l.
            Succeeds (ran_as target log)
              × (process_target run makes (ok root) temp command output_dir target log ≡ (ok tt, l))
            ⊎ (¬ Succeeds (ran_as target log))
              × (process_target run makes (ok root) temp command output_dir target log
                  ≡ (raise exit_status_1, l)))
          (append_assoc log (made_dir (target_dir output_dir target) ∷ [])
            (ran (command_for target) ∷ []))
          (rw (can_make log (target_dir output_dir target), mkdir)
            (finish-cases
              (run (log ++ (made_dir (target_dir output_dir target) ∷ [])) (command_for target)) _))

    Processed-cons :
        (target : Text) (targets : List Text) (log : List Effect)
        (x : Result BepError (Unit {0}) × List Effect)
        → Succeeds (ran_as target log)
        → Processed targets x (log ++ steps target)
        → Processed (target ∷ targets) x log
    Processed-cons target targets log x s (inl (all, e, h)) =
        inl ((s, all), e, h ∙ append_assoc log (steps target) (planned targets))
    Processed-cons target targets log x s (inr (before, t, after, same, fails, e, h)) = inr (
      target ∷ before,
      t,
      after,
      ap (λ ts. target ∷ ts) same,
      (s, fails),
      e,
      h ∙ append_assoc log (steps target) (planned (before ++ (t ∷ []))),
    )

    pub process_targets-Processed :
        (targets : List Text) (log : List Effect)
        → Processed targets
            (process_targets run makes (ok root) temp command output_dir targets log)
            log
    unfolding process_targets
    process_targets-Processed [] log = inl (tt, refl, sym (append-nil log))
    process_targets-Processed (target ∷ targets) log = elim (process_target-cases target log) [
      | inr (unsuccessful, fails) ↦ inr (
        [],
        target,
        targets,
        refl,
        unsuccessful,
        ap (λ x. x.0) (stops fails),
        ap (λ x. x.1) (stops fails),
      )
      | inl (succeeds, goes_on) ↦
          rw (goes_on, process_targets)
            (Processed-cons target targets log
              (process_targets run makes (ok root) temp command output_dir targets
                (log ++ steps target))
              succeeds (process_targets-Processed targets (log ++ steps target)))
    ]
      where
        stops :
            process_target run makes (ok root) temp command output_dir target log
              ≡ (raise exit_status_1, log ++ steps target)
            → process_targets run makes (ok root) temp command output_dir (target ∷ targets) log
              ≡ (raise exit_status_1, log ++ steps target)
        stops h =
            ap (followed (λ _. process_targets run makes (ok root) temp command output_dir targets))
              h
