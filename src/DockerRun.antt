-- ===== src/DockerRun.antt =====
-- .devkit/scripts/docker_run.py, behind the argument parser. What the script asks of the system is a
-- parameter: the environment, the user, the minimal mounts, and how docker ends.
pub mod Homes
pub mod Mounted
pub mod Ended
pub mod Args
pub mod Main
pub mod Prepared
pub mod Whole
use encrypted_zone_sdk.Base.{
  ℕ, ◌+◌, Bool, true, false, not, ◌&&◌, Option, none, some, List, [], ◌∷◌, ◌++◌, map, any,
  if◌then◌else◌, ltb, eqb, ◌==◌, text_eq,
}
use encrypted_zone_sdk.Base.Decimal.{show_ℕ, show_ℤ}
use encrypted_zone_sdk.Base.Int.{ℤ}
use encrypted_zone_sdk.Base.Text.{Text, codes, strip}
use encrypted_zone_sdk.Build.Json.{has_part}
use encrypted_zone_sdk.FilePath.{
  FilePath, child, path_of, read_path, show_path, relative_to, is_relative_to, ◌/ₚ◌,
}
use encrypted_zone_sdk.RunPaths.{
  path_from_env, Paths, tmpdir, resolve_paths, cache, config, local_share, single, home_files,
  home_dirs, docker_sock, system_bus_socket, etc_gitconfig, session_bus_socket, GitRun, outside,
  find_git_dir, group_id_or_zero, requested_mounts, git_ended, git_missing,
}

-- A path below the home of the command is taken to another home.
unfoldable pub in_home : FilePath → FilePath → FilePath → FilePath
unfolding relative_to ◌/ₚ◌
in_home command_home other_home path = elim (relative_to path command_home) [
  | none ↦ path
  | some suffix ↦ other_home /ₚ suffix
]

abbrev pub volume : FilePath → FilePath → Text
volume host_path container_path =
    codes "--volume=" ++ (show_path host_path ++ (b':' ∷ show_path container_path))

unfoldable pub docker_mount : Paths → FilePath → Text
unfolding in_home show_path
docker_mount p path =
    volume (in_home p.command_home p.host_home path) (in_home p.command_home p.container_home path)

-- Whether the standard input and output are terminals.
abbrev pub tty_args : Bool → Bool → List Text
tty_args true true = codes "--interactive" ∷ codes "--tty" ∷ []
tty_args true false = []
tty_args false stdout = codes "--interactive" ∷ []

-- What else the command needs: the user, as the script reads it, the limits of file descriptors, and the arguments of the
-- command line.
pub record Setting : Type 0 where
  pub host_soft : ℕ
  pub host_hard : ℕ
  pub user_id : ℤ
  pub group_id : ℤ
  pub docker_group_id : ℕ
  pub nobody_group_id : ℕ
  pub event_handler_port : ℕ
  pub cwd : FilePath
  pub scripts_dir : FilePath
  pub user_name : Text
  pub group_name : Text
  pub hostname : Text
  pub git_dir : Option FilePath
  pub stdin_isatty : Bool
  pub stdout_isatty : Bool
  pub unknown_args : List Text

abbrev pub env : Text → Text → Text
env name value = codes "--env=" ++ (name ++ (b'=' ∷ value))

abbrev pub additional_env : Setting → List Text
additional_env s =
    elim s.git_dir [ none ↦ [] | some dir ↦ codes "--env=GIT_DISCOVERY_ACROSS_FILESYSTEM=1" ∷ [] ]
    ++ (if ltb 0 s.nobody_group_id
        then env (codes "NOBODY_GROUP_ID") (show_ℕ s.nobody_group_id) ∷ []
        else [])

abbrev pub first_options : Paths → Setting → List Text
first_options p s =
    codes "docker"
    ∷ codes "run"
    ∷ codes "--rm"
    ∷ codes "--ulimit"
    ∷ (codes "nofile=" ++ (show_ℕ s.host_soft ++ (b':' ∷ show_ℕ s.host_hard)))
    ∷ volume p.host_project_root p.container_project_root
    ∷ (codes "--workdir=" ++ show_path s.cwd)
    ∷ env (codes "HOME") (show_path p.container_home)
    ∷ env (codes "DEVKIT_SOCKET_PORT") (show_ℕ s.event_handler_port)
    ∷ codes "--env=GOOGLE_CLOUD_PROJECT"
    ∷ codes "--env=GEMINI_API_KEY"
    ∷ codes "--env=AWS_SECRET_ACCESS_KEY"
    ∷ codes "--env=AWS_ACCESS_KEY_ID"
    ∷ codes "--env=AWS_SESSION_TOKEN"
    ∷ codes "--env=GH_TOKEN"
    ∷ env (codes "USER") s.user_name
    ∷ env (codes "USER_ID") (show_ℤ s.user_id)
    ∷ env (codes "GROUP") s.group_name
    ∷ env (codes "GROUP_ID") (show_ℤ s.group_id)
    ∷ env (codes "TMPDIR") (show_path p.container_tmp_dir)
    ∷ codes "--env=TERM=xterm-256color"
    ∷ codes "--env=COLORTERM"
    ∷ codes "--env=DOCKER_GROUP=docker"
    ∷ env (codes "DOCKER_GROUP_ID") (show_ℕ s.docker_group_id)
    ∷ codes "--env=NOBODY_GROUP=nobody"
    ∷ env (codes "DBUS_SYSTEM_BUS_ADDRESS") (codes "unix:path=" ++ show_path system_bus_socket)
    ∷ env (codes "DBUS_SESSION_BUS_ADDRESS")
        (codes "unix:path=" ++ show_path (session_bus_socket s.user_id))
    ∷ env (codes "DEVKIT_NOFILE_SOFT") (show_ℕ s.host_soft)
    ∷ env (codes "DEVKIT_NOFILE_HARD") (show_ℕ s.host_hard)
    ∷ codes "--env=ADDITIONAL_PATH="
    ∷ []

abbrev pub last_options : Paths → Setting → List Text
last_options p s =
    codes "--net=host"
    ∷ codes "--ipc=host"
    ∷ (codes "--hostname=" ++ s.hostname)
    ∷ volume p.host_tmp_dir p.container_tmp_dir
    ∷ (codes "--entrypoint=" ++ show_path (child s.scripts_dir (codes "entrypoint_docker")))
    ∷ []

unfoldable pub docker_cmd : Paths → Setting → List FilePath → List Text → List Text
unfolding docker_mount show_path
docker_cmd p s minimal_mounts evaluated_args =
    first_options p s
    ++ (additional_env s
        ++ (map (docker_mount p) minimal_mounts
            ++ (last_options p s ++ (evaluated_args ++ s.unknown_args))))

-- How `subprocess.run` of the container ends.
pub data RunEnd : Type 0 where
  returned : ℕ → RunEnd
  keyboard_interrupt other_exception : RunEnd

-- The exit status of the script, or an exception that is not caught.
pub data ScriptEnd : Type 0 where
  exited : ℕ → ScriptEnd
  uncaught : ScriptEnd

-- What the script does: it makes directories and files, runs commands, and stops its threads.
pub data Effect : Type 0 where
  made_dir touched : FilePath → Effect
  ran : List Text → Effect
  set_cleanup_cancel set_event_handler_cancel join_cleanup_thread join_event_handler_thread : Effect

-- `128 + signal.SIGINT`
abbrev pub script_end : RunEnd → ScriptEnd
script_end (returned n) = exited n
script_end keyboard_interrupt = exited 130
script_end other_exception = uncaught

-- The `finally` clause.
abbrev pub finally_effects : List Effect
finally_effects =
    set_cleanup_cancel ∷ set_event_handler_cancel ∷ join_cleanup_thread ∷ join_event_handler_thread
    ∷ []

-- The `try` block with its `finally` clause.
abbrev pub run_container : (List Text → RunEnd) → List Text → ScriptEnd × List Effect
run_container run cmd = (script_end (run cmd), ran cmd ∷ finally_effects)

-- `any("DISPLAY" in arg for arg in docker_cmd)`
abbrev pub needs_display : List Text → Bool
needs_display cmd = any (has_part (codes "DISPLAY")) cmd

abbrev pub xhost_command : Text → List Text
xhost_command user_name = codes "xhost" ∷ (codes "+local:" ++ user_name) ∷ []

-- The end of `main`; `xhost` tells whether the command succeeds, and `run` how docker ends.
unfoldable pub run_docker :
    (List Text → Bool) → (List Text → RunEnd) → Text → List Text → ScriptEnd × List Effect
unfolding has_part
run_docker xhost run user_name cmd = elim (needs_display cmd) [
  | false ↦ run_container run cmd
  | true ↦ elim (xhost (xhost_command user_name)) [
    | false ↦ (uncaught, ran (xhost_command user_name) ∷ [])
    | true ↦
        let (end, effects) = run_container run cmd in (end, ran (xhost_command user_name) ∷ effects)
  ]
]
