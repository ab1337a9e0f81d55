-- ===== src/RunPaths.antt =====
-- The paths and the mounts of .devkit/scripts/docker_run.py. `environ` is `os.environ.get`.
use encrypted_zone_sdk.Base.{
  ℕ, Bool, true, false, ◌&&◌, Option, none, some, List, [], ◌∷◌, ◌++◌, map, if◌then◌else◌, eqb,
  ◌==◌, text_eq,
}
use encrypted_zone_sdk.Base.Decimal.{show_ℤ}
use encrypted_zone_sdk.Base.Int.{ℤ}
use encrypted_zone_sdk.Base.Text.{Text, codes, strip}
use encrypted_zone_sdk.FilePath.{FilePath, path_of, read_path, is_relative_to, ◌/ₚ◌}

-- `Path(val) if val else default`
unfoldable pub path_from_env : (Text → Option Text) → Text → FilePath → FilePath
unfolding read_path
path_from_env environ env_var default = elim (environ env_var) [
  | none ↦ default
  | some [] ↦ default
  | some (c ∷ val) ↦ read_path (c ∷ val)
]

pub record Paths : Type 0 where
  pub host_project_root : FilePath
  pub container_project_root : FilePath
  pub command_project_root : FilePath
  pub host_home : FilePath
  pub command_home : FilePath
  pub container_home : FilePath
  pub host_tmp_dir : FilePath
  pub container_tmp_dir : FilePath

-- `Path(os.environ.get("TMPDIR", "/tmp"))`
abbrev pub tmpdir : (Text → Option Text) → FilePath
tmpdir environ = elim (environ (codes "TMPDIR")) [
  | none ↦ path_of true (codes "tmp" ∷ [])
  | some val ↦ read_path val
]

-- `project_root` is what `find_project_root` returns, and `home` is `Path.home()`.
unfoldable pub resolve_paths : (Text → Option Text) → FilePath → FilePath → Paths
unfolding path_from_env
resolve_paths environ project_root home =
    let host_project_root = path_from_env environ (codes "DEVKIT_HOST_PROJECT_ROOT") project_root in
    let host_home = path_from_env environ (codes "DEVKIT_HOST_HOME") home in
    let host_tmp_dir = path_from_env environ (codes "DEVKIT_HOST_TMP_DIR") (tmpdir environ) in
    record {
      host_project_root = host_project_root;
      container_project_root =
          path_from_env environ (codes "DEVKIT_CONTAINER_PROJECT_ROOT") host_project_root;
      command_project_root =
          path_from_env environ (codes "DEVKIT_COMMAND_PROJECT_ROOT") host_project_root;
      host_home = host_home;
      command_home = path_from_env environ (codes "DEVKIT_COMMAND_HOME") host_home;
      container_home = path_from_env environ (codes "DEVKIT_CONTAINER_HOME") host_home;
      host_tmp_dir = host_tmp_dir;
      container_tmp_dir = path_from_env environ (codes "DEVKIT_CONTAINER_TMP_DIR") host_tmp_dir;
    }

abbrev pub cache : Text → FilePath
cache name = path_of false (codes ".cache" ∷ name ∷ [])

abbrev pub config : Text → FilePath
config name = path_of false (codes ".config" ∷ name ∷ [])

abbrev pub local_share : Text → FilePath
local_share name = path_of false (codes ".local" ∷ codes "share" ∷ name ∷ [])

abbrev pub single : Text → FilePath
single name = path_of false (name ∷ [])

abbrev pub home_files : List FilePath
home_files = single (codes ".gitconfig") ∷ []

abbrev pub home_dirs : List FilePath
home_dirs =
    cache (codes "bazel")
    ∷ cache (codes "bazelisk")
    ∷ cache (codes "buf")
    ∷ cache (codes "go-build")
    ∷ cache (codes "nvim")
    ∷ cache (codes "pip")
    ∷ cache (codes "pip-tools")
    ∷ cache (codes "pre-commit")
    ∷ cache (codes "pylint")
    ∷ config (codes "gcloud")
    ∷ config (codes "google-chrome")
    ∷ config (codes "matplotlib")
    ∷ path_of false (codes ".devkit" ∷ codes "logs" ∷ [])
    ∷ single (codes ".docker")
    ∷ single (codes ".gemini")
    ∷ path_of false (codes ".local" ∷ codes "pre-commit" ∷ [])
    ∷ local_share (codes "nvim")
    ∷ path_of false (codes ".local" ∷ codes "state" ∷ [])
    ∷ single (codes ".npm")
    ∷ single (codes ".vim")
    ∷ []

abbrev pub docker_sock : FilePath
docker_sock = path_of true (codes "var" ∷ codes "run" ∷ codes "docker.sock" ∷ [])

abbrev pub system_bus_socket : FilePath
system_bus_socket = path_of true (codes "run" ∷ codes "dbus" ∷ codes "system_bus_socket" ∷ [])

abbrev pub etc_gitconfig : FilePath
etc_gitconfig = path_of true (codes "etc" ∷ codes "gitconfig" ∷ [])

abbrev pub session_bus_socket : ℤ → FilePath
session_bus_socket user_id =
    path_of true (codes "run" ∷ codes "user" ∷ show_ℤ user_id ∷ codes "bus" ∷ [])

-- What `git rev-parse --is-inside-work-tree` does.
pub data GitRun : Type 0 where
  git_ended : ℕ → Text → GitRun
  git_missing : GitRun

abbrev pub outside : FilePath → FilePath → Option FilePath
outside cwd git_dir = if is_relative_to git_dir cwd then none else some git_dir

-- The directory of git, if there is one outside of the working directory; `absolute_git_dir` is the
-- output of the second command, or `none` if it fails.
unfoldable pub find_git_dir : FilePath → GitRun → Option Text → Option FilePath
unfolding strip read_path is_relative_to text_eq
find_git_dir cwd git_missing absolute_git_dir = none
find_git_dir cwd (git_ended returncode stdout) absolute_git_dir =
    elim (eqb returncode 0 && strip stdout == codes "true") [
      | false ↦ none
      | true ↦ elim absolute_git_dir [
        | none ↦ none
        | some dir ↦ outside cwd (read_path (strip dir))
      ]
    ]

-- `grp.getgrnam(group).gr_gid`, and 0 for a `KeyError`.
abbrev pub group_id_or_zero : Option ℕ → ℕ
group_id_or_zero none = 0
group_id_or_zero (some id) = id

-- `mounts`
unfoldable pub requested_mounts : Bool → ℤ → FilePath → Option FilePath → List FilePath
unfolding ◌/ₚ◌
requested_mounts has_etc_gitconfig user_id command_home git_dir =
    (docker_sock ∷ system_bus_socket ∷ (if has_etc_gitconfig then etc_gitconfig ∷ [] else []))
    ++ (session_bus_socket user_id
        ∷ (map (λ rel_path. command_home /ₚ rel_path) home_dirs
            ++ (map (λ rel_path. command_home /ₚ rel_path) home_files
                ++ elim git_dir [ none ↦ [] | some dir ↦ dir ∷ [] ])))
