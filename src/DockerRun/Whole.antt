-- ===== src/DockerRun/Whole.antt =====
-- How .devkit/scripts/docker_run.py ends as a whole.
use encrypted_zone_sdk.Base.{
  Bool, Bool-cases, Option, none, ap, ◌≡◌, refl, inl, inr, true, false, some, List, [], ◌∷◌, ◌++◌,
  text_eq,
}
use encrypted_zone_sdk.Base.Result.{ok, raise, Result-cases}
use encrypted_zone_sdk.FilePath.{FilePath, path_eq}
use encrypted_zone_sdk.FindRoot.{RootError}
use encrypted_zone_sdk.DockerRun.{ScriptEnd, exited, uncaught, Effect}
use encrypted_zone_sdk.DockerRun.Main.{
  Host, Identity, identify, as_user, home_effects, make_all, with_args, with_mounts, with_home,
  with_user, with_root, main,
}
use encrypted_zone_sdk.DockerRun.Prepared.{
  root_of, paths_of, args_of, EndsIn, Scannable, get_minimal_mounts-returns, with_args-EndsAs,
}

-- What is made is all, or what comes before something that cannot be made.
abbrev pub MadeAll : (Effect → Bool) → List Effect → Bool × List Effect → Type 0
MadeAll makes effects (true, made) = made ≡ effects
MadeAll makes effects (false, made) =
    (e : Effect) × (rest : List Effect) × (effects ≡ made ++ (e ∷ rest)) × (makes e ≡ false)

make_all-MadeAll :
    (makes : Effect → Bool) (effects : List Effect) → MadeAll makes effects (make_all makes effects)
unfolding make_all
make_all-MadeAll makes [] = refl
make_all-MadeAll makes (e ∷ effects) = elim (Bool-cases (makes e)) [
  | inr fails ↦ rw (fails, make_all) (e, effects, refl, fails)
  | inl fine ↦
      rw (fine, make_all) (MadeAll-cons (make_all makes effects) (make_all-MadeAll makes effects))
]
  where
    MadeAll-cons :
        (r : Bool × List Effect)
        → MadeAll makes effects r
        → MadeAll makes (e ∷ effects) (r.0, e ∷ r.1)
    MadeAll-cons (true, made) same = ap (λ es. e ∷ es) same
    MadeAll-cons (false, made) (x, rest, same, fails) = (x, rest, ap (λ es. e ∷ es) same, fails)

module _ (h : Host) where
  -- How the script ends, and what it has done.
  pub data Ends : ScriptEnd → List Effect → Type 0 where
    no_project : (e : RootError) → root_of h ≡ raise e → Ends (exited 1) []
    user_refused : (root : FilePath) → root_of h ≡ ok root → identify h ≡ none → Ends uncaught []
    home_refused :
        (root : FilePath) (made : List Effect) (e : Effect) (rest : List Effect)
        → root_of h ≡ ok root
        → home_effects (paths_of h root).command_home ≡ made ++ (e ∷ rest)
        → h.makes e ≡ false
        → Ends uncaught made
    prepared :
        (root : FilePath) (i : Identity) (end : ScriptEnd) (effects : List Effect)
        → root_of h ≡ ok root
        → identify h ≡ some i
        → EndsIn (as_user h i) root end effects
        → Ends end (home_effects (paths_of h root).command_home ++ effects)

  -- The script ends, and in one of these ways.
  abbrev EndsSo : Option (ScriptEnd × List Effect) → Type 0
  EndsSo result =
      (end : ScriptEnd) × (effects : List Effect) × (result ≡ some (end, effects))
      × Ends end effects

  module _ (universe : List FilePath) (scannable : Scannable h universe) (root : FilePath)
      (found : root_of h ≡ ok root) where
    with_home-EndsSo :
        (i : Identity) (result : Bool × List Effect)
        → identify h ≡ some i
        → MadeAll h.makes (home_effects (paths_of h root).command_home) result
        → EndsSo (with_home (as_user h i) (paths_of h root) result)
    unfolding with_home with_mounts
    with_home-EndsSo i (false, made) known (e, rest, same, fails) =
        (uncaught, made, refl, home_refused root made e rest found same fails)
    with_home-EndsSo i (true, made) known same =
        let (paths, minimal) =
          get_minimal_mounts-returns (as_user h i) root universe found scannable in
        let (end, effects) =
          with_args (as_user h i) (paths_of h root) paths
            (args_of (as_user h i) (paths_of h root)) in
        (
          end,
          home_effects (paths_of h root).command_home ++ effects,
          rw same (rw (minimal, with_mounts) refl),
          prepared root i end effects found known (
              with_args-EndsAs (as_user h i) root paths (args_of (as_user h i) (paths_of h root))
                minimal refl),
        )

    with_user-EndsSo : (i : Option Identity) → identify h ≡ i → EndsSo (with_user h root i)
    unfolding with_user
    with_user-EndsSo none unknown = (uncaught, [], refl, user_refused root found unknown)
    with_user-EndsSo (some i) known =
        with_home-EndsSo i (make_all h.makes (home_effects (paths_of h root).command_home)) known
          (make_all-MadeAll h.makes (home_effects (paths_of h root).command_home))

  -- With a project that can be scanned, and where the calls of the system that are not named here
  -- raise nothing, `main` ends, and in one of these ways: without a project, with status 1 and
  -- nothing done; with an exception and nothing done, if the user or the group has no name or no
  -- number; with an exception and a part of the home prepared, if something in it cannot be made;
  -- with the home prepared, and an exception, if the arguments cannot be evaluated, the event handler
  -- or the clean-up does not start, or `xhost` fails for a command that needs a display; or with
  -- docker run once, after the home is prepared, with a command that mounts all that is requested,
  -- and both events set after it, each before its thread is joined.
  pub main-Ends :
      (universe : List FilePath)
      → Scannable h universe
      → (end : ScriptEnd) × (effects : List Effect) × (main h ≡ some (end, effects))
        × Ends end effects
  unfolding main with_root
  main-Ends universe scannable = elim (Result-cases (root_of h)) [
    | inl (e, none_found) ↦ (exited 1, [], rw (none_found, with_root) refl, no_project e none_found)
    | inr (root, found) ↦
        let (end, effects, e, ends) =
          with_user-EndsSo universe scannable root found (identify h) refl in
        (end, effects, rw (found, with_root) e, ends)
  ]
