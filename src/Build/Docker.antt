-- ===== src/Build/Docker.antt =====
-- `manage_docker_image` and the calls of docker of .devkit/scripts/docker/build.py. Docker is a
-- parameter; each call adds its command line to the log.
pub mod Policy
pub mod Local
pub mod Returns
use encrypted_zone_sdk.Base.{
  ℕ, zero, suc, Bool, true, false, not, ◌&&◌, ◌||◌, Option, none, some, List, [], ◌∷◌, ◌++◌, eqb,
  if◌then◌else◌,
}
use encrypted_zone_sdk.Base.Text.{Text, codes}

abbrev pub Command : Type 0
Command = List Text

-- What `subprocess.run` does with a command: the exit status, or `FileNotFoundError`, and the state
-- of docker afterwards.
pub record Docker : Type 1 where
  pub State : Type 0
  pub run : State → Command → Option ℕ × State

-- The state of docker, and the commands that were run.
pub record World (d : Docker) : Type 0 where
  pub state : d.State
  pub log : List Command

-- How a function ends: by a return, by `CalledProcessError` with its exit status, by
-- `FileNotFoundError`, or by `sys.exit`.
pub data End (A : Type 0) : Type 0 where
  return : A → End A
  called_process_error : ℕ → End A
  file_not_found_error : End A
  exit_with : ℕ → End A

abbrev pub Action : Docker → Type 0 → Type 0
Action d A = World d → End A × World d

module _ {d : Docker} {A B : Type 0} where
  abbrev pub and_then : End A → (A → Action d B) → Action d B
  and_then (return a) f w = f a w
  and_then (called_process_error n) f w = (called_process_error n, w)
  and_then file_not_found_error f w = (file_not_found_error, w)
  and_then (exit_with n) f w = (exit_with n, w)

  infixl 5 ◌>>=◌ ◌>>◌
  abbrev pub ◌>>=◌ : Action d A → (A → Action d B) → Action d B
  m >>= f = λ w. let (r, w') = m w in and_then r f w'

  abbrev pub ◌>>◌ : Action d A → Action d B → Action d B
  m >> n = m >>= λ _. n

abbrev pub pure : {d : Docker} {A : Type 0} → A → Action d A
pure a w = (return a, w)

abbrev pub end_of : Option ℕ → End ℕ
end_of none = file_not_found_error
end_of (some n) = return n

-- The world after a command.
abbrev pub after : (d : Docker) → Command → World d → World d
after d command w = record { state = (d.run (w.state) command).1; log = w.log ++ (command ∷ []) }

-- `subprocess.run(command, check=False)`: the exit status.
unfoldable pub run_command : (d : Docker) → Command → Action d ℕ
run_command d command w = (end_of (d.run (w.state) command).0, after d command w)

-- What `check=True` makes of an exit status.
abbrev pub checked : {d : Docker} → ℕ → Action d (Unit {0})
checked n w = (if eqb n 0 then return tt else called_process_error n, w)

-- `subprocess.run(command, check=True)`
unfoldable pub run_checked : (d : Docker) → Command → Action d (Unit {0})
unfolding run_command
run_checked d command = run_command d command >>= checked

abbrev pub docker : List Text → Command
docker args = codes "docker" ∷ args

unfoldable pub check_if_image_exists_locally : (d : Docker) → Text → Action d Bool
unfolding run_command
check_if_image_exists_locally d tag = do
  n ← run_command d (docker (codes "image" ∷ codes "inspect" ∷ tag ∷ []))
  pure (eqb n 0)

unfoldable pub check_if_image_exists_in_remote_registry : (d : Docker) → Text → Action d Bool
unfolding run_command
check_if_image_exists_in_remote_registry d tag = do
  n ← run_command d (docker (codes "manifest" ∷ codes "inspect" ∷ tag ∷ []))
  pure (eqb n 0)

unfoldable pub pull_image_from_registry : (d : Docker) → Text → Action d (Unit {0})
unfolding run_checked
pull_image_from_registry d tag = run_checked d (docker (codes "pull" ∷ tag ∷ []))

-- A push that fails is logged, and no error.
unfoldable pub push_image_to_registry : (d : Docker) → Text → Action d (Unit {0})
unfolding run_command
push_image_to_registry d tag = do n ← run_command d (docker (codes "push" ∷ tag ∷ [])); pure tt

-- The loop of `build_image` over the pairs of names and values; `none` where the last name has no
-- value, which is an `IndexError`.
unfoldable pub build_arg_options : List Text → Option (List Text)
build_arg_options [] = some []
build_arg_options (name ∷ []) = none
build_arg_options (name ∷ value ∷ rest) = elim (build_arg_options rest) [
  | none ↦ none
  | some options ↦ some (codes "--build-arg" ∷ (name ++ (b'=' ∷ value)) ∷ options)
]

-- The command of `build_image`.
unfoldable pub docker_build_cmd : Text → Text → List Text → Text → Bool → Option Command
unfolding build_arg_options
docker_build_cmd tag dockerfile_path build_args_list context_path no_cache =
    elim (build_arg_options build_args_list) [
      | none ↦ none
      | some options ↦ some (
          docker (
            codes "buildx"
            ∷ codes "build"
            ∷ codes "--tag"
            ∷ tag
            ∷ codes "--file"
            ∷ dockerfile_path
            ∷ ((if no_cache then codes "--no-cache" ∷ [] else [])
                ++ (options ++ (context_path ∷ [])))))
    ]

-- An `IndexError` is not caught: Python ends with status 1.
unfoldable pub build_image :
    (d : Docker) → Text → Text → List Text → Text → Bool → Action d (Unit {0})
build_image d tag dockerfile_path build_args_list context_path no_cache =
    elim (docker_build_cmd tag dockerfile_path build_args_list context_path no_cache) [
      | none ↦ λ w. (exit_with 1, w)
      | some command ↦ run_checked d command
    ]

abbrev pub is_empty : Text → Bool
is_empty [] = true
is_empty (c ∷ s) = false

-- The call of `manage_docker_image`.
pub record Request : Type 0 where
  pub tag : Text
  pub dockerfile_path : Text
  pub build_args_list : List Text
  pub context_path : Text
  pub local_image_mode : Bool
  pub no_cache : Bool
  pub repo : Text

-- `not repo or local_image_mode`
abbrev pub stays_local : Request → Bool
stays_local r = is_empty r.repo || r.local_image_mode

module _ (d : Docker) (r : Request) where
  unfoldable pub build_requested : Action d (Unit {0})
  build_requested =
      build_image d r.tag r.dockerfile_path r.build_args_list r.context_path r.no_cache

  -- `not no_cache and check(tag)`
  unfoldable pub unless_no_cache : Bool → Action d Bool → Action d Bool
  unless_no_cache true check = pure false
  unless_no_cache false check = check

  unfoldable pub after_remote_check : Bool → Action d (Unit {0})
  after_remote_check true = pull_image_from_registry d r.tag
  after_remote_check false = build_requested >> push_image_to_registry d r.tag

  unfoldable pub when_shared : Bool → Action d (Unit {0})
  when_shared true = build_requested
  when_shared false =
      unless_no_cache r.no_cache (check_if_image_exists_in_remote_registry d r.tag)
      >>= after_remote_check

  unfoldable pub after_local_check : Bool → Action d (Unit {0})
  after_local_check true = pure tt
  after_local_check false = when_shared (stays_local r)

  -- The `try` block of `manage_docker_image`.
  unfoldable pub manage_docker_image_body : Action d (Unit {0})
  manage_docker_image_body =
      unless_no_cache r.no_cache (check_if_image_exists_locally d r.tag) >>= after_local_check

-- The `except` clauses.
unfoldable pub handle : {d : Docker} → End (Unit {0}) × World d → End (Unit {0}) × World d
handle (called_process_error n, w) = (exit_with (if eqb n 0 then 1 else n), w)
handle (file_not_found_error, w) = (exit_with 1, w)
handle (return a, w) = (return a, w)
handle (exit_with n, w) = (exit_with n, w)

unfoldable pub manage_docker_image : (d : Docker) → Request → Action d (Unit {0})
manage_docker_image d r w = handle (manage_docker_image_body d r w)
