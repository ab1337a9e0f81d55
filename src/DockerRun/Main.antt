-- ===== src/DockerRun/Main.antt =====
-- `main` of .devkit/scripts/docker_run.py as a whole, behind the argument parser.
use encrypted_zone_sdk.Base.{
  true, false, if◌then◌else◌, ℕ, Bool, Option, none, some, List, [], ◌∷◌, ◌++◌, map,
}
use encrypted_zone_sdk.Base.Decimal.{parse_int}
use encrypted_zone_sdk.Base.Int.{ℤ, pos}
use encrypted_zone_sdk.Base.Result.{Result, ok, raise}
use encrypted_zone_sdk.Base.Text.{Text, codes}
use encrypted_zone_sdk.Build.Config.{ConfigFile}
use encrypted_zone_sdk.Build.Json.{Checked}
use encrypted_zone_sdk.FilePath.{FilePath, parent, child, ◌/ₚ◌}
use encrypted_zone_sdk.FindRoot.{RootError, find_project_root}
use encrypted_zone_sdk.Mounts.{FileSystem}
use encrypted_zone_sdk.Mounts.Scan.{get_minimal_mounts}
use encrypted_zone_sdk.RunPaths.{
  Paths, resolve_paths, home_dirs, home_files, GitRun, find_git_dir, requested_mounts,
  etc_gitconfig,
}
use encrypted_zone_sdk.DockerRun.{
  Setting, docker_cmd, RunEnd, ScriptEnd, exited, uncaught, Effect, made_dir, touched, run_docker,
}
use encrypted_zone_sdk.DockerRun.Args.{docker_run_args}

-- What the script asks of the system: the environment, the files, the user, git, how the commands
-- end, and what can be made or started. In `setting` the user is not read yet; `user_entry` and
-- `group_entry` are the names of the user and the group, if there are such entries, and `uid` and
-- `gid` their numbers. `fuel` and `rounds` bound the scan for the mounts.
pub record Host : Type 0 where
  pub environ : Text → Option Text
  pub exists : FilePath → Bool
  pub home : FilePath
  pub files : FileSystem
  pub fuel : ℕ
  pub rounds : ℕ
  pub setting : Setting
  pub git_check : GitRun
  pub absolute_git_dir : Option Text
  pub devkit_json : FilePath → ConfigFile
  pub split : Text → Checked (List Text)
  pub expandvars : Text → Text
  pub xhost : List Text → Bool
  pub run : List Text → RunEnd
  pub user_entry : Option Text
  pub group_entry : Option Text
  pub uid : ℕ
  pub gid : ℕ
  pub makes : Effect → Bool
  pub event_handler_starts : Bool
  pub cleanup_starts : Bool

-- The first exception is the end.
infixl 5 ◌>>=◌
abbrev ◌>>=◌ : {A B : Type 0} → Option A → (A → Option B) → Option B
none >>= f = none
some a >>= f = f a

-- The user and the group of the script.
pub record Identity : Type 0 where
  pub user_name : Text
  pub user_id : ℤ
  pub group_name : Text
  pub group_id : ℤ

-- `os.environ.get(…) or entry`; there may be no entry, which raises a `KeyError`.
abbrev pub name_of : Option Text → Option Text → Option Text
name_of none entry = entry
name_of (some []) entry = entry
name_of (some (c ∷ cs)) entry = some (c ∷ cs)

-- `int(os.environ.get(…) or n)`; what is no number raises a `ValueError`.
abbrev pub id_of : Option Text → ℕ → Option ℤ
id_of none n = some (pos n)
id_of (some []) n = some (pos n)
id_of (some (c ∷ cs)) n = parse_int (c ∷ cs)

-- Makes one thing after the other, up to the first that cannot be made, which raises an `OSError`.
unfoldable pub make_all : (Effect → Bool) → List Effect → Bool × List Effect
make_all makes [] = (true, [])
make_all makes (e ∷ effects) =
    let (all_made, made) = make_all makes effects in
    if makes e then (all_made, e ∷ made) else (false, [])

-- A file, with the directory that it is in.
abbrev pub made_file : FilePath → List Effect
made_file path = made_dir (parent path) ∷ touched path ∷ []

abbrev pub made_files : FilePath → List FilePath → List Effect
made_files command_home [] = []
made_files command_home (rel_path ∷ rel_paths) =
    made_file (command_home /ₚ rel_path) ++ made_files command_home rel_paths

-- The directories and the files of the home.
unfoldable pub home_effects : FilePath → List Effect
unfolding ◌/ₚ◌ parent
home_effects command_home =
    map (λ rel_path. made_dir (command_home /ₚ rel_path)) home_dirs
    ++ made_files command_home home_files

module _ (h : Host) where
  -- The user, or `none` where an exception is raised, which is not caught.
  unfoldable pub identify : Option Identity
  unfolding parse_int
  identify = do
    user_name ← name_of (h.environ (codes "USER")) h.user_entry
    user_id ← id_of (h.environ (codes "USER_ID")) h.uid
    group_name ← name_of (h.environ (codes "GROUP")) h.group_entry
    group_id ← id_of (h.environ (codes "GROUP_ID")) h.gid
    some (record {
      user_name = user_name;
      user_id = user_id;
      group_name = group_name;
      group_id = group_id;
    })

  -- The system, once the user is read.
  abbrev pub as_user : Identity → Host
  as_user i = record h {
    setting = record h.setting {
      user_name = i.user_name;
      user_id = i.user_id;
      group_name = i.group_name;
      group_id = i.group_id;
    };
  }

  -- The setting with the directory of git that is mounted.
  unfoldable pub with_git : Setting
  unfolding find_git_dir
  with_git = record h.setting {
    git_dir = find_git_dir h.setting.cwd h.git_check h.absolute_git_dir;
  }

  unfoldable pub mounts_of : Paths → List FilePath
  unfolding with_git requested_mounts
  mounts_of p =
      requested_mounts (h.exists etc_gitconfig) h.setting.user_id p.command_home with_git.git_dir

  -- Behind the evaluation of the arguments; what they raise is not caught, and neither is what the
  -- start of a thread raises.
  unfoldable pub with_args : Paths → List FilePath → Checked (List Text) → ScriptEnd × List Effect
  unfolding docker_cmd run_docker with_git
  with_args p minimal_mounts (raise e) = (uncaught, [])
  with_args p minimal_mounts (ok evaluated_args) =
      let rest =
        run_docker h.xhost h.run h.setting.user_name
          (docker_cmd p with_git minimal_mounts evaluated_args) in
      elim (h.event_handler_starts) [
        | false ↦ (uncaught, [])
        | true ↦ elim (h.cleanup_starts) [ false ↦ (uncaught, []) | true ↦ rest ]
      ]

  -- Behind the scan for the mounts; `none` where its bounds are too small. `made` is what is made in
  -- the home.
  unfoldable pub with_mounts :
      Paths → List Effect → Option (List FilePath) → Option (ScriptEnd × List Effect)
  unfolding with_args docker_run_args
  with_mounts p made none = none
  with_mounts p made (some minimal_mounts) =
      let devkit_json_path = child p.command_project_root (codes "devkit.json") in
      let (end, effects) = with_args p minimal_mounts (
        docker_run_args h.split h.expandvars h.setting.stdin_isatty h.setting.stdout_isatty
          (h.devkit_json devkit_json_path) (h.environ (codes "DEVKIT_DOCKER_RUN_ARGS"))) in
      some (end, made ++ effects)

  -- Behind the preparation of the home, of which `made` is made.
  unfoldable pub with_home : Paths → Bool × List Effect → Option (ScriptEnd × List Effect)
  unfolding mounts_of with_mounts
  with_home p (false, made) = some (uncaught, made)
  with_home p (true, made) =
      with_mounts p made
        (get_minimal_mounts h.files h.fuel h.rounds p.command_project_root (mounts_of p))

-- Behind the reading of the user.
unfoldable pub with_user :
    (h : Host) → FilePath → Option Identity → Option (ScriptEnd × List Effect)
unfolding resolve_paths with_home home_effects make_all
with_user h project_root none = some (uncaught, [])
with_user h project_root (some i) =
    let p = resolve_paths h.environ project_root h.home in
    with_home (as_user h i) p (make_all h.makes (home_effects p.command_home))

module _ (h : Host) where
  -- Behind the search for the project.
  unfoldable pub with_root : Result RootError FilePath → Option (ScriptEnd × List Effect)
  unfolding with_user identify
  with_root (raise e) = some (exited 1, [])
  with_root (ok project_root) = with_user h project_root (identify h)

  unfoldable pub main : Option (ScriptEnd × List Effect)
  unfolding with_root find_project_root
  main = with_root (find_project_root h.exists (h.environ (codes "PWD")) h.setting.cwd)
