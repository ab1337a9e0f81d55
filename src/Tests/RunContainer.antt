-- ===== src/Tests/RunContainer.antt =====
-- .devkit/scripts/docker_run.py at concrete inputs.
use encrypted_zone_sdk.Base.{
  ◌≡◌, refl, sym, ◌∙◌, subst, ◌<◌, arith, ◌↔◌, map, true, false, none, some, List, [], ◌∷◌, ◌++◌,
  text_eq,
}
use encrypted_zone_sdk.Base.Int.{pos}
use encrypted_zone_sdk.Base.Text.{Text, codes}
use encrypted_zone_sdk.FilePath.{FilePath, path_of, path_eq, is_relative_to}
use encrypted_zone_sdk.Mounts.{FileSystem, minimize_paths, path_lt}
use encrypted_zone_sdk.Mounts.Scan.{
  get_minimal_mounts, list_external_mounts, scan_worklist, scan_entries, existing_paths,
}
use encrypted_zone_sdk.RunPaths.{Paths}
use encrypted_zone_sdk.Base.Result.{ok, raise, ok-injective}
use encrypted_zone_sdk.Build.Config.{ConfigFile, decoded}
use encrypted_zone_sdk.Build.Json.{
  obj, field, no_fields, arr, item, no_items, str, number, type_error, Checked,
}
use encrypted_zone_sdk.RunPaths.{git_missing}
use encrypted_zone_sdk.DockerRun.{
  ScriptEnd, Effect, tty_args, Setting, keyboard_interrupt, uncaught,
}
use encrypted_zone_sdk.DockerRun.Args.{
  devkit_run_args, env_run_args, docker_run_args, docker_run_args_iff,
}
use encrypted_zone_sdk.DockerRun.Main.{Host, home_effects, main}
use encrypted_zone_sdk.DockerRun.Prepared.{Scannable}
use encrypted_zone_sdk.DockerRun.Whole.{Ends, main-Ends}
use encrypted_zone_sdk.Mounts.Scanned.{IsFinite}
use encrypted_zone_sdk.Mounts.{normpath}
use encrypted_zone_sdk.FindRoot.{find_project_root}
use encrypted_zone_sdk.RunPaths.{resolve_paths}

abbrev home : FilePath
home = path_of true (codes "h" ∷ [])

abbrev npm : FilePath
npm = path_of true (codes "h" ∷ codes ".npm" ∷ [])

-- No variable is set, but for the home in the container.
abbrev paths : Paths
paths = record {
  host_project_root = path_of true (codes "w" ∷ []);
  container_project_root = path_of true (codes "w" ∷ []);
  command_project_root = path_of true (codes "w" ∷ []);
  host_home = home;
  command_home = home;
  container_home = path_of true (codes "c" ∷ []);
  host_tmp_dir = path_of true (codes "tmp" ∷ []);
  container_tmp_dir = path_of true (codes "tmp" ∷ []);
}

abbrev setting : Setting
setting = record {
  host_soft = 1;
  host_hard = 2;
  user_id = pos 3;
  group_id = pos 4;
  docker_group_id = 5;
  nobody_group_id = 0;
  event_handler_port = 6;
  cwd = path_of true (codes "w" ∷ []);
  scripts_dir = path_of true (codes "s" ∷ []);
  user_name = codes "me";
  group_name = codes "us";
  hostname = codes "host";
  git_dir = none;
  stdin_isatty = true;
  stdout_isatty = false;
  unknown_args = [];
}

abbrev empty_disk : FileSystem
empty_disk = record {
  is_symlink = λ p. false;
  readlink = λ p. none;
  exists = λ p. false;
  is_dir = λ p. true;
  resolve = λ p. p;
  walk = λ skip p. [];
}

abbrev devkit_file : ConfigFile
devkit_file = decoded (
    obj (
      field (codes "docker")
        (obj (field (codes "run") (arr (item (str (codes "--privileged")) no_items)) no_fields))
        no_fields))

-- A number among the arguments.
abbrev bad_file : ConfigFile
bad_file = decoded (
    obj (
      field (codes "docker")
        (obj (field (codes "run") (arr (item (number (codes "80") true) no_items)) no_fields))
        no_fields))

abbrev split : Text → Checked (List Text)
split text = ok (text ∷ [])

abbrev dollar : Text → Text
dollar text = text

reads_devkit_json : devkit_run_args devkit_file ≡ map str (codes "--privileged" ∷ [])
unfolding devkit_run_args text_eq
reads_devkit_json = refl

splits_nothing : env_run_args split none ≡ ok []
unfolding env_run_args
splits_nothing = refl

docker_run_args_iff_example :
    (docker_run_args split dollar true true devkit_file none
      ≡ ok (codes "--interactive" ∷ codes "--tty" ∷ codes "--privileged" ∷ []))
    ↔ ((texts : List Text) × (devkit_run_args devkit_file ≡ map str texts)
        × (codes "--interactive" ∷ codes "--tty" ∷ codes "--privileged" ∷ []
            ≡ map dollar (tty_args true true ++ (texts ++ []))))
docker_run_args_iff_example =
    docker_run_args_iff split dollar true true devkit_file none []
      (codes "--interactive" ∷ codes "--tty" ∷ codes "--privileged" ∷ []) splits_nothing

-- A text in place of a list is taken for its characters.
takes_characters :
    devkit_run_args (
      decoded (
        obj (
          field
            (codes "docker")
            (obj (field (codes "run") (str (codes "-t")) no_fields))
            no_fields)))
    ≡ str (codes "-") ∷ str (codes "t") ∷ []
unfolding devkit_run_args text_eq
takes_characters = refl

refuses_number : docker_run_args split dollar false false bad_file none ≡ raise type_error
unfolding docker_run_args text_eq
refuses_number = refl

abbrev host : Host
host = record {
  environ = λ name. none;
  exists = λ p. true;
  home = home;
  files = empty_disk;
  fuel = 1;
  rounds = 2;
  setting = setting;
  git_check = git_missing;
  absolute_git_dir = none;
  devkit_json = λ p. bad_file;
  split = split;
  expandvars = dollar;
  xhost = λ c. true;
  run = λ c. keyboard_interrupt;
  user_entry = some (codes "me");
  group_entry = some (codes "us");
  uid = 3;
  gid = 4;
  makes = λ e. true;
  event_handler_starts = true;
  cleanup_starts = true;
}

empty_disk-IsFinite : (scan : FilePath) → IsFinite empty_disk 1 scan []
empty_disk-IsFinite scan = record {
  chain = λ p. 0;
  ends = λ p target a b c. absurd (cc);
  enough = λ p. omega arith;
  known = λ p h. absurd (cc);
}

root_is_work :
    find_project_root (λ p. true) none (path_of true (codes "w" ∷ []))
    ≡ ok (path_of true (codes "w" ∷ []))
unfolding find_project_root text_eq
root_is_work = refl

abbrev CanScan : FilePath → Type 0
CanScan root =
    let scan = (resolve_paths host.environ root home).command_project_root in
    (normpath scan ≡ scan) × IsFinite empty_disk 1 scan [] × (0 < 2)

work-CanScan : CanScan (path_of true (codes "w" ∷ []))
unfolding normpath text_eq resolve_paths
work-CanScan = (refl, empty_disk-IsFinite (path_of true (codes "w" ∷ [])), omega arith)

host-Scannable : Scannable host []
host-Scannable root found = subst CanScan (ok-injective (sym root_is_work ∙ found)) work-CanScan

-- The script stops at the number among its arguments, with the home prepared.
main_refuses : main host ≡ some (uncaught, home_effects home ++ [])
unfolding main path_eq text_eq get_minimal_mounts list_external_mounts scan_worklist scan_entries
    existing_paths minimize_paths path_lt is_relative_to
main_refuses = refl

main-Ends_example :
    (end : ScriptEnd) × (effects : List Effect) × (main host ≡ some (end, effects))
    × Ends host end effects
main-Ends_example = main-Ends host [] host-Scannable
