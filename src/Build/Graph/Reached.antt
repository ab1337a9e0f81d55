-- ===== src/Build/Graph/Reached.antt =====
-- What the loop of `get_dependency_subgraph` in .devkit/scripts/docker/build.py visits.
use encrypted_zone_sdk.Base.{
  ◌≡◌, refl, sym, ◌∙◌, subst, ◌⊎◌, ◌↔◌, inl, inr, ◌||◌, Bool, true, false, Bool-cases, Option, none,
  some, List, [], ◌∷◌, arith, contains, text_eq,
}
use encrypted_zone_sdk.Base.Dict.{lookup}
use encrypted_zone_sdk.Base.Text.{Text}
use encrypted_zone_sdk.Build.Graph.{
  Graph, without, with_deps, Search, visit, pop_and_visit, rounds, start,
}
use encrypted_zone_sdk.Build.Graph.Sets.{
  contains-set_update, contains-set_of, contains-without, without-contains, popped,
  pop_and_visit-some, rounds_nil, rounds_cons,
}

-- The targets, and what they need.
pub data Reachable (graph : Graph) (targets : List Text) : Text → Type 0 where
  target : (n : Text) → contains targets n ≡ true → Reachable graph targets n
  dependency :
      (n : Text) (deps : List Text) (d : Text)
      → Reachable graph targets n
      → lookup n graph ≡ some deps
      → contains deps d ≡ true
      → Reachable graph targets d

abbrev seen : Search → Text → Bool
seen s n = contains s.visited_nodes n || contains s.nodes_to_visit n

at_end :
    (s : Search)
    → s.nodes_to_visit ≡ []
    → (n : Text) → seen s n ≡ true
    → contains s.visited_nodes n ≡ true
at_end s over n h = let empty : contains s.nodes_to_visit n ≡ false = rw over refl in ground arith

module _ (graph : Graph) (targets : List Text) where
  -- Only reachable nodes are in the sets, and a target and a dependency of a visited node is in one
  -- of them.
  pub record IsPartial (s : Search) : Type 0 where
    pub next_reachable : (n : Text) → contains s.nodes_to_visit n ≡ true → Reachable graph targets n
    pub visited_reachable :
        (n : Text) → contains s.visited_nodes n ≡ true → Reachable graph targets n
    pub targets_seen : (n : Text) → contains targets n ≡ true → seen s n ≡ true
    pub deps_seen :
        (n : Text) (deps : List Text) (d : Text)
        → contains s.visited_nodes n ≡ true
        → lookup n graph ≡ some deps
        → contains deps d ≡ true
        → seen s d ≡ true

  pub start-IsPartial : IsPartial (start graph targets)
  start-IsPartial = record {
    next_reachable = λ n h. target n (sym (contains-set_of targets n) ∙ h);
    visited_reachable = λ n h. cc;
    targets_seen = λ n h. ground (arith, contains-set_of targets n);
    deps_seen = λ n deps d h e m. cc;
  }

  contains-with_deps :
      (o : Option (List Text)) (nodes : List Text) (n : Text)
      → contains (with_deps o nodes) n ≡ true
      → (contains nodes n ≡ true)
        ⊎ ((deps : List Text) × (o ≡ some deps) × (contains deps n ≡ true))
  unfolding with_deps
  contains-with_deps none nodes n h = inl h
  contains-with_deps (some deps) nodes n h = elim (Bool-cases (contains deps n)) [
    | inl m ↦ inr (deps, refl, m)
    | inr m ↦ inl (ground (arith, contains-set_update nodes deps n))
  ]

  with_deps-contains :
      (o : Option (List Text)) (nodes : List Text) (n : Text)
      → contains nodes n ≡ true
      → contains (with_deps o nodes) n ≡ true
  unfolding with_deps
  with_deps-contains none nodes n h = h
  with_deps-contains (some deps) nodes n h = ground (arith, contains-set_update nodes deps n)

  -- The node is popped, and was visited before.
  popped-IsPartial :
      (c : Text) (s : Search)
      → IsPartial s
      → contains s.visited_nodes c ≡ true
      → IsPartial (popped c s)
  popped-IsPartial c s inv known = record {
    next_reachable = λ n h. inv.next_reachable n (without-contains c s.nodes_to_visit n h);
    visited_reachable = inv.visited_reachable;
    targets_seen = λ n h. still_seen n (inv.targets_seen n h);
    deps_seen = λ n deps d h e m. still_seen d (inv.deps_seen n deps d h e m);
  }
    where
      still_seen : (n : Text) → seen s n ≡ true → seen (popped c s) n ≡ true
      still_seen n h = ground (arith, contains-without c s.nodes_to_visit n)

  -- The node is popped, and is new.
  abbrev expanded : Text → Search → Search
  expanded c s = record {
    nodes_to_visit = with_deps (lookup c graph) (without c s.nodes_to_visit);
    visited_nodes = c ∷ s.visited_nodes;
  }

  expanded-seen :
      (c : Text) (s : Search) (n : Text) → seen s n ≡ true → seen (expanded c s) n ≡ true
  expanded-seen c s n h = ground (
    arith,
    contains-without c s.nodes_to_visit n,
    with_deps-contains (lookup c graph) (without c s.nodes_to_visit) n,
  )

  new_deps-seen :
      (c : Text) (s : Search) (deps : List Text) (d : Text)
      → lookup c graph ≡ some deps
      → contains deps d ≡ true
      → seen (expanded c s) d ≡ true
  unfolding with_deps
  new_deps-seen c s deps d e m =
      rw e (ground (arith, contains-set_update (without c s.nodes_to_visit) deps d))

  expanded-Reachable :
      (c : Text) (s : Search)
      → IsPartial s
      → Reachable graph targets c
      → (n : Text) → contains (with_deps (lookup c graph) (without c s.nodes_to_visit)) n ≡ true
      → Reachable graph targets n
  expanded-Reachable c s inv reachable n h =
      elim (contains-with_deps (lookup c graph) (without c s.nodes_to_visit) n h) [
        | inl kept ↦ inv.next_reachable n (without-contains c s.nodes_to_visit n kept)
        | inr (deps, e, m) ↦ dependency c deps n reachable e m
      ]

  expanded-IsPartial :
      (c : Text) (s : Search)
      → IsPartial s
      → contains s.nodes_to_visit c ≡ true
      → IsPartial (expanded c s)
  expanded-IsPartial c s inv in_set = record {
    next_reachable = expanded-Reachable c s inv (inv.next_reachable c in_set);
    visited_reachable = λ n h. elim (text_eq.dec n c) [
      | yes same ↦ rw same (inv.next_reachable c in_set)
      | no other ↦ inv.visited_reachable n (ground arith)
    ];
    targets_seen = λ n h. expanded-seen c s n (inv.targets_seen n h);
    deps_seen = λ n deps d h e m. elim (text_eq.dec n c) [
      | yes same ↦ new_deps-seen c s deps d (rw (sym same) e) m
      | no other ↦ expanded-seen c s d (inv.deps_seen n deps d (ground arith) e m)
    ];
  }

  visit-IsPartial :
      (c : Text) (s : Search)
      → IsPartial s
      → contains s.nodes_to_visit c ≡ true
      → IsPartial (visit graph c (popped c s))
  unfolding visit
  visit-IsPartial c s inv in_set = elim (Bool-cases (contains s.visited_nodes c)) [
    | inl known ↦ rw (known, visit) (popped-IsPartial c s inv known)
    | inr new ↦ rw (new, visit) (expanded-IsPartial c s inv in_set)
  ]

  pop_and_visit-IsPartial :
      (current : Text) (s s' : Search)
      → IsPartial s
      → pop_and_visit graph current s ≡ some s'
      → IsPartial s'
  pop_and_visit-IsPartial current s s' inv h =
      let (m, e) = pop_and_visit-some graph current s s' h in
      subst IsPartial e (visit-IsPartial current s inv m)

  pub rounds-IsPartial :
      (pops : List Text) (s s' : Search)
      → IsPartial s
      → rounds graph pops s ≡ some s'
      → IsPartial s'
  rounds-IsPartial [] s s' inv h = subst IsPartial (rounds_nil graph s s' h) inv
  rounds-IsPartial (c ∷ pops) s s' inv h =
      let (s1, e, later) = rounds_cons graph c pops s s' h in
      rounds-IsPartial pops s1 s' (pop_and_visit-IsPartial c s s1 inv e) later

  -- Once a node is visited, or a target, what can be reached from it is visited at the end.
  Reachable-visited :
      (s : Search)
      → IsPartial s
      → s.nodes_to_visit ≡ []
      → (n : Text) → Reachable graph targets n
      → contains s.visited_nodes n ≡ true
  Reachable-visited s inv over _ (target n h) = at_end s over n (inv.targets_seen n h)
  Reachable-visited s inv over _ (dependency n deps d r e m) =
      at_end s over d (inv.deps_seen n deps d (Reachable-visited s inv over n r) e m)

  -- After any rounds of the loop, whatever `pop` returned, only reachable nodes are in the two sets,
  -- and each target, and each dependency of a visited node, is in one of them.
  pub rounds_from_start-IsPartial :
      (pops : List Text) (s : Search)
      → rounds graph pops (start graph targets) ≡ some s
      → IsPartial s
  rounds_from_start-IsPartial pops s = rounds-IsPartial pops (start graph targets) s start-IsPartial

  -- When the loop is over, whatever `pop` returned, it visited the targets and what they need,
  -- directly or not, and nothing else.
  pub visited-Reachable :
      (pops : List Text) (s : Search)
      → rounds graph pops (start graph targets) ≡ some s
      → s.nodes_to_visit ≡ []
      → (n : Text) → (contains s.visited_nodes n ≡ true) ↔ Reachable graph targets n
  visited-Reachable pops s run over n =
      let inv = rounds_from_start-IsPartial pops s run in
      (inv.visited_reachable n, Reachable-visited s inv over n)
