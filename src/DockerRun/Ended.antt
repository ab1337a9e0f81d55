-- ===== src/DockerRun/Ended.antt =====
-- How .devkit/scripts/docker_run.py ends.
use encrypted_zone_sdk.Base.{
  ◌≡◌, refl, ◌⊎◌, inl, inr, Bool, true, false, Bool-cases, List, [], ◌∷◌, ◌++◌,
}
use encrypted_zone_sdk.Base.Text.{Text}
use encrypted_zone_sdk.DockerRun.{
  RunEnd, uncaught, Effect, ran, script_end, finally_effects, needs_display, xhost_command,
  run_docker,
}

-- Either the command needs a display and `xhost` fails: then docker is not run, and neither event is
-- set. Or docker is run once; whether it returns, is interrupted or raises, both events are set after
-- it, each before its thread is joined, and the script ends with the status of docker, 130 or the
-- exception.
pub run_docker-ends :
    (xhost : List Text → Bool) (run : List Text → RunEnd) (user_name : Text) (cmd : List Text)
    → ((needs_display cmd ≡ true)
        × (xhost (xhost_command user_name) ≡ false)
        × (run_docker xhost run user_name cmd ≡ (uncaught, ran (xhost_command user_name) ∷ [])))
      ⊎ ((before : List Effect) × (run_docker xhost run user_name cmd
            ≡ (script_end (run cmd), before ++ (ran cmd ∷ finally_effects)))
          × ((before ≡ []) ⊎ (before ≡ ran (xhost_command user_name) ∷ [])))
unfolding run_docker
run_docker-ends xhost run user_name cmd = elim (Bool-cases (needs_display cmd)) [
  | inr without ↦ inr ([], rw (without, run_docker) refl, inl refl)
  | inl with_display ↦ elim (Bool-cases (xhost (xhost_command user_name))) [
    | inr fails ↦
        inl (with_display, fails, rw (with_display, run_docker) (rw (fails, run_docker) refl))
    | inl allowed ↦ inr (
      ran (xhost_command user_name) ∷ [],
      rw (with_display, run_docker) (rw (allowed, run_docker) refl),
      inr refl,
    )
  ]
]
