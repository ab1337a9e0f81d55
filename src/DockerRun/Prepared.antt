-- ===== src/DockerRun/Prepared.antt =====
-- How .devkit/scripts/docker_run.py ends for a project, once its home is prepared.
use encrypted_zone_sdk.Base.{
  ◌&&◌, Bool-cases, arith, ◌<◌, length, ◌≡◌, refl, sym, subst, ◌⊎◌, inl, inr, true, false, some,
  List, [], ◌∷◌, ◌++◌, contains, text_eq,
}
use encrypted_zone_sdk.Base.Result.{Result, ok, raise}
use encrypted_zone_sdk.Base.Text.{Text, codes}
use encrypted_zone_sdk.Build.Json.{Checked, Error}
use encrypted_zone_sdk.FilePath.{FilePath, path_eq, child, is_relative_to}
use encrypted_zone_sdk.FindRoot.{RootError, find_project_root}
use encrypted_zone_sdk.Mounts.Minimal.{In}
use encrypted_zone_sdk.Mounts.{normpath, minimize_paths}
use encrypted_zone_sdk.Mounts.Scanned.{IsFinite, list_external_mounts-returns}
use encrypted_zone_sdk.Mounts.Scan.{add_all, existing_paths, get_minimal_mounts}
use encrypted_zone_sdk.RunPaths.{Paths, resolve_paths}
use encrypted_zone_sdk.DockerRun.{
  set_cleanup_cancel, set_event_handler_cancel, join_cleanup_thread, join_event_handler_thread,
  in_home, docker_mount, docker_cmd, run_docker, ScriptEnd, uncaught, Effect, ran, script_end,
  needs_display, xhost_command,
}
use encrypted_zone_sdk.DockerRun.Args.{docker_run_args}
use encrypted_zone_sdk.DockerRun.Ended.{run_docker-ends}
use encrypted_zone_sdk.DockerRun.Main.{Host, with_git, mounts_of, with_args}
use encrypted_zone_sdk.DockerRun.Mounted.{requested-mounted}

module _ (h : Host) where
  abbrev pub root_of : Result RootError FilePath
  root_of = find_project_root h.exists (h.environ (codes "PWD")) h.setting.cwd

  abbrev pub paths_of : FilePath → Paths
  paths_of root = resolve_paths h.environ root h.home

  abbrev pub args_of : Paths → Checked (List Text)
  args_of p =
      docker_run_args h.split h.expandvars h.setting.stdin_isatty h.setting.stdout_isatty
        (h.devkit_json (child p.command_project_root (codes "devkit.json")))
        (h.environ (codes "DEVKIT_DOCKER_RUN_ARGS"))

  -- The command mounts each path that is requested, or one above it.
  abbrev pub MountsAll : Paths → List Text → Type 0
  MountsAll p cmd =
      (x : FilePath)
      → In x (mounts_of h p)
      → (q : FilePath) × (is_relative_to x q ≡ true)
        × (contains cmd (docker_mount p q) ≡ true)
        × (is_relative_to q p.command_home ≡ true
            → is_relative_to (in_home p.command_home p.container_home x)
                (in_home p.command_home p.container_home q)
              ≡ true)

  -- How the script ends for a project, once the user is read and the home is prepared, and what it
  -- has done since.
  pub data EndsIn (root : FilePath) : ScriptEnd → List Effect → Type 0 where
    args_refused : (e : Error) → args_of (paths_of root) ≡ raise e → EndsIn root uncaught []
    thread_refused :
        (args : List Text)
        → args_of (paths_of root) ≡ ok args
        → (h.event_handler_starts && h.cleanup_starts) ≡ false
        → EndsIn root uncaught []
    display_refused :
        (paths : List FilePath) (args : List Text)
        → args_of (paths_of root) ≡ ok args
        → needs_display (docker_cmd (paths_of root) (with_git h) paths args) ≡ true
        → h.xhost (xhost_command h.setting.user_name) ≡ false
        → EndsIn root uncaught (ran (xhost_command h.setting.user_name) ∷ [])
    container_ended :
        (paths : List FilePath) (args : List Text) (before : List Effect)
        → args_of (paths_of root) ≡ ok args
        → MountsAll (paths_of root) (docker_cmd (paths_of root) (with_git h) paths args)
        → (before ≡ []) ⊎ (before ≡ ran (xhost_command h.setting.user_name) ∷ [])
        → EndsIn root (script_end (h.run (docker_cmd (paths_of root) (with_git h) paths args))) (
            before
            ++ (ran (docker_cmd (paths_of root) (with_git h) paths args)
                ∷ set_cleanup_cancel
                ∷ set_event_handler_cancel
                ∷ join_cleanup_thread
                ∷ join_event_handler_thread
                ∷ []))

  abbrev pub EndsAs : FilePath → ScriptEnd × List Effect → Type 0
  EndsAs root (end, effects) = EndsIn root end effects

  pub with_args-EndsAs :
      (root : FilePath) (paths : List FilePath) (args : Checked (List Text))
      → get_minimal_mounts h.files h.fuel h.rounds
          (paths_of root).command_project_root
          (mounts_of h (paths_of root))
        ≡ some paths
      → args_of (paths_of root) ≡ args
      → EndsAs root (with_args h (paths_of root) paths args)
  unfolding with_args
  with_args-EndsAs root paths (raise e) minimal refused = args_refused e refused
  with_args-EndsAs root paths (ok args) minimal evaluated =
      elim (Bool-cases h.event_handler_starts) [
        | inr no_handler ↦
            rw (no_handler, with_args) (thread_refused args evaluated (ground (arith, no_handler)))
        | inl handler ↦ elim (Bool-cases h.cleanup_starts) [
          | inr no_cleanup ↦
              rw (handler, no_cleanup, with_args)
                (thread_refused args evaluated (ground (arith, no_cleanup)))
          | inl cleanup ↦ subst (EndsAs root) (sym (rw (handler, cleanup, with_args) refl)) started
        ]
      ]
    where
      cmd : List Text
      cmd = docker_cmd (paths_of root) (with_git h) paths args

      started : EndsAs root (run_docker h.xhost h.run h.setting.user_name cmd)
      started = elim (run_docker-ends h.xhost h.run h.setting.user_name cmd) [
        | inl (display, refused, e) ↦ rw e (display_refused paths args evaluated display refused)
        | inr (before, e, shown) ↦ rw e (
            container_ended paths args before evaluated
              (λ x m.
                requested-mounted h.files h.fuel h.rounds (paths_of root) (with_git h)
                  (mounts_of h (paths_of root)) paths args x minimal m)
              shown)
      ]

  -- The project can be scanned: its directory is normal, each chain of links in it ends within
  -- `fuel` links, and the scan stays among the paths of `universe`, which are fewer than `rounds`.
  abbrev pub Scannable : List FilePath → Type 0
  Scannable universe =
      (root : FilePath)
      → root_of ≡ ok root
      → let scan = h.files.resolve (paths_of root).command_project_root in
        (normpath scan ≡ scan)
        × IsFinite h.files h.fuel scan universe
        × (length universe < h.rounds)

  pub get_minimal_mounts-returns :
      (root : FilePath) (universe : List FilePath)
      → root_of ≡ ok root
      → Scannable universe
      → (paths : List FilePath) × (get_minimal_mounts h.files h.fuel h.rounds
            (paths_of root).command_project_root
            (mounts_of h (paths_of root))
          ≡ some paths)
  unfolding get_minimal_mounts
  get_minimal_mounts-returns root universe found scannable =
      let (normal, finite, small) = scannable root found in
      let (paths, e, _) =
        list_external_mounts-returns h.files h.fuel h.rounds (paths_of root).command_project_root
          universe normal finite small in
      (
        minimize_paths (
            add_all paths (
              existing_paths h.files (paths_of root).command_project_root
                (mounts_of h (paths_of root)))),
        rw (e, get_minimal_mounts) refl,
      )
