-- ===== src/DockerRun/Mounted.antt =====
-- The mounts of .devkit/scripts/docker_run.py.
use mathlib.Core.Option.{some-injective}
use encrypted_zone_sdk.Base.{
  ℕ, ◌≡◌, subst, true, Bool-cases, Option-cases, some, List, [], ◌∷◌, ◌++◌, map, inl, inr, arith,
  contains, contains-append, text_eq,
}
use encrypted_zone_sdk.Base.Members.{any_witness}
use encrypted_zone_sdk.Base.Text.{Text}
use encrypted_zone_sdk.FilePath.{FilePath, path_eq, is_relative_to}
use encrypted_zone_sdk.Mounts.{FileSystem, add, minimize_paths}
use encrypted_zone_sdk.Mounts.Minimal.{In, Covers, contains-add, minimize_paths_minimal}
use encrypted_zone_sdk.Mounts.Scan.{
  add_all, existing_paths, list_external_mounts, get_minimal_mounts,
}
use encrypted_zone_sdk.RunPaths.{Paths}
use encrypted_zone_sdk.DockerRun.{
  Setting, in_home, docker_mount, docker_cmd, first_options, additional_env,
}
use encrypted_zone_sdk.DockerRun.Homes.{in_home-is_relative_to}

In-add : (p : FilePath) (s : List FilePath) (a : FilePath) → In a s → In a (add p s)
In-add p s a h = ground (arith, contains-add p s a)

In-add_all : (s ps : List FilePath) (a : FilePath) → In a s → In a (add_all s ps)
In-add_all s [] a h = h
In-add_all s (p ∷ ps) a h = In-add_all (add p s) ps a (In-add p s a h)

In-add_all_new : (s ps : List FilePath) (a : FilePath) → In a ps → In a (add_all s ps)
In-add_all_new s [] a h = absurd (cc)
In-add_all_new s (p ∷ ps) a h = elim (Bool-cases (contains ps a)) [
  | inl later ↦ In-add_all_new (add p s) ps a later
  | inr first ↦ In-add_all (add p s) ps a (ground (arith, contains-add p s a))
]

In-existing_paths :
    (fs : FileSystem) (root : FilePath) (mounts : List FilePath) (a : FilePath)
    → In a mounts
    → In a (existing_paths fs root mounts)
unfolding existing_paths
In-existing_paths fs root mounts a h =
    let s = add_all (add_all [] mounts) (map fs.resolve mounts) in
    let in_s =
      In-add_all (add_all [] mounts) (map fs.resolve mounts) a (In-add_all_new [] mounts a h) in
    elim (Bool-cases (fs.is_symlink root)) [
      | inl link ↦ rw link (In-add (fs.resolve root) s a in_s)
      | inr plain ↦ rw plain in_s
    ]

get_minimal_mounts-Covers :
    (fs : FileSystem) (fuel rounds : ℕ) (root : FilePath) (mounts paths : List FilePath)
    (x : FilePath)
    → get_minimal_mounts fs fuel rounds root mounts ≡ some paths
    → In x mounts
    → Covers paths x
unfolding get_minimal_mounts
get_minimal_mounts-Covers fs fuel rounds root mounts paths x =
    elim (Option-cases (list_external_mounts fs fuel rounds root)) [
      | inl stuck ↦ rw (stuck, get_minimal_mounts) (λ h. absurd (cc))
      | inr (links, e) ↦
          rw (e, get_minimal_mounts)
            (λ h m.
              let all_paths = add_all links (existing_paths fs root mounts) in
              subst (λ s. Covers s x) (some-injective (minimize_paths all_paths) paths h)
                ((minimize_paths_minimal all_paths).2 x (
                  In-add_all_new links (existing_paths fs root mounts) x
                    (In-existing_paths fs root mounts x m))))
    ]

contains-map :
    (f : FilePath → Text) (ps : List FilePath) (p : FilePath)
    → In p ps
    → contains (map f ps) (f p) ≡ true
contains-map f [] p h = absurd (cc)
contains-map f (q ∷ ps) p h = elim (path_eq.dec p q) [
  | yes same ↦ rw same (ground arith)
  | no other ↦ let rest = contains-map f ps p (ground arith) in ground arith
]

contains_right :
    (xs ys : List Text) (a : Text) → contains ys a ≡ true → contains (xs ++ ys) a ≡ true
contains_right xs ys a h = ground (arith, contains-append xs ys a)

contains_left : (xs ys : List Text) (a : Text) → contains xs a ≡ true → contains (xs ++ ys) a ≡ true
contains_left xs ys a h = ground (arith, contains-append xs ys a)

-- Some text of the list is the option for the mount.
docker_cmd-mounts :
    (p : Paths) (s : Setting) (paths : List FilePath) (args : List Text) (q : FilePath)
    → In q paths
    → contains (docker_cmd p s paths args) (docker_mount p q) ≡ true
unfolding docker_cmd
docker_cmd-mounts p s paths args q h = contains_right (first_options p s) _ _ (
    contains_right (additional_env s) _ _
      (contains_left (map (docker_mount p) paths) _ _ (contains-map (docker_mount p) paths q h)))

-- Each requested mount lies at or below a path that the docker command mounts; if that path lies in
-- the home of the command, the mount lies at or below it in the home of the container, too.
pub requested-mounted :
    (fs : FileSystem) (fuel rounds : ℕ) (p : Paths) (s : Setting) (mounts paths : List FilePath)
    (args : List Text) (x : FilePath)
    → get_minimal_mounts fs fuel rounds p.command_project_root mounts ≡ some paths
    → In x mounts
    → (q : FilePath) × (is_relative_to x q ≡ true)
      × (contains (docker_cmd p s paths args) (docker_mount p q) ≡ true)
      × (is_relative_to q p.command_home ≡ true
          → is_relative_to
              (in_home p.command_home p.container_home x)
              (in_home p.command_home p.container_home q)
            ≡ true)
requested-mounted fs fuel rounds p s mounts paths args x e m =
    let covers =
      get_minimal_mounts-Covers fs fuel rounds p.command_project_root mounts paths x e m in
    let (q, q_in, below) = any_witness (λ q. is_relative_to x q) paths covers in
    (
      q,
      below,
      docker_cmd-mounts p s paths args q q_in,
      λ home. in_home-is_relative_to p.command_home p.container_home q x home below,
    )
