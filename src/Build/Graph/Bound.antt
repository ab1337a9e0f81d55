-- ===== src/Build/Graph/Bound.antt =====
-- How often the loop of `get_dependency_subgraph` in .devkit/scripts/docker/build.py runs.
use encrypted_zone_sdk.Base.{
  ℕ, zero, suc, ◌+◌, ◌≤◌, ◌≡◌, refl, ap, subst, inl, inr, true, false, Bool-cases, Option-cases,
  List-cases, some, List, [], ◌∷◌, length, arith, contains, if◌then◌else◌, text_eq,
}
use encrypted_zone_sdk.Base.Dict.{lookup}
use encrypted_zone_sdk.Base.Text.{Text}
use encrypted_zone_sdk.Build.Graph.{
  Graph, set_of, with_deps, Search, visit, pop_and_visit, rounds, start,
}
use encrypted_zone_sdk.Build.Graph.Sets.{
  length-set_update, length-without, popped, pop_and_visit-some, rounds_nil, rounds_cons,
}

-- The edges that leave the nodes that are not visited yet.
unfoldable pub edges_left : Graph → List Text → ℕ
edges_left [] visited = 0
edges_left ((n, deps) ∷ graph) visited =
    let rest = edges_left graph visited in if contains visited n then rest else length deps + rest

edges_left-visit :
    (graph : Graph) (visited : List Text) (c : Text)
    → edges_left graph (c ∷ visited) ≤ edges_left graph visited
unfolding edges_left
edges_left-visit [] visited c = omega arith
edges_left-visit ((n, deps) ∷ graph) visited c = ground (arith, edges_left-visit graph visited c)

edges_left-deps :
    (graph : Graph) (visited : List Text) (c : Text) (deps : List Text)
    → contains visited c ≡ false
    → lookup c graph ≡ some deps
    → edges_left graph (c ∷ visited) + length deps ≤ edges_left graph visited
unfolding edges_left
edges_left-deps [] visited c deps new h = cc
edges_left-deps ((n, ds) ∷ graph) visited c deps new h =
    ground (arith, edges_left-deps graph visited c deps, edges_left-visit graph visited c)

-- The rounds that may follow.
abbrev rounds_left : Graph → Search → ℕ
rounds_left graph s = length s.nodes_to_visit + edges_left graph s.visited_nodes

visit-rounds_left :
    (graph : Graph) (c : Text) (s : Search)
    → rounds_left graph (visit graph c s) ≤ rounds_left graph s
unfolding visit with_deps
visit-rounds_left graph c s = elim (Bool-cases (contains s.visited_nodes c)) [
  | inl known ↦ rw (known, visit) (omega arith)
  | inr new ↦ elim (Option-cases (lookup c graph)) [
    | inl gone ↦
        rw (new, visit)
          (rw (gone, with_deps) (omega (arith, edges_left-visit graph s.visited_nodes c)))
    | inr (deps, e) ↦
        rw (new, visit)
          (rw (e, with_deps)
            (omega (
              arith,
              edges_left-deps graph s.visited_nodes c deps new e,
              length-set_update s.nodes_to_visit deps,
            )))
  ]
]

pop_and_visit-rounds_left :
    (graph : Graph) (c : Text) (s s' : Search)
    → pop_and_visit graph c s ≡ some s'
    → suc (rounds_left graph s') ≤ rounds_left graph s
pop_and_visit-rounds_left graph c s s' h =
    let (in_set, e) = pop_and_visit-some graph c s s' h in
    let fewer =
      subst (λ t. rounds_left graph t ≤ rounds_left graph (popped c s)) e
        (visit-rounds_left graph c (popped c s)) in
    omega (arith, fewer, length-without c s.nodes_to_visit in_set)

rounds-bounded :
    (graph : Graph) (pops : List Text) (s s' : Search)
    → rounds graph pops s ≡ some s'
    → length pops + rounds_left graph s' ≤ rounds_left graph s
rounds-bounded graph [] s s' h = let e = rounds_nil graph s s' h in rw e (omega arith)
rounds-bounded graph (c ∷ pops) s s' h =
    let (s1, e, later) = rounds_cons graph c pops s s' h in
    omega (arith, rounds-bounded graph pops s1 s' later, pop_and_visit-rounds_left graph c s s1 e)

pop_and_visit-defined :
    (graph : Graph) (c : Text) (nodes : List Text) (s : Search)
    → s.nodes_to_visit ≡ c ∷ nodes
    → (s' : Search) × (pop_and_visit graph c s ≡ some s')
unfolding pop_and_visit
pop_and_visit-defined graph c nodes s e =
    let in_set : contains s.nodes_to_visit c ≡ true = rw e (ground arith) in
    (visit graph c (popped c s), rw (in_set, pop_and_visit) refl)

ends_within :
    (graph : Graph) (bound : ℕ) (s : Search)
    → rounds_left graph s ≤ bound
    → (pops : List Text) × (s' : Search) × (rounds graph pops s ≡ some s')
      × (s'.nodes_to_visit ≡ [])
unfolding rounds
ends_within graph zero s below = elim (List-cases s.nodes_to_visit) [
  | inl over ↦ ([], s, refl, over)
  | inr (c, nodes, e) ↦
      let some_left : length s.nodes_to_visit ≡ suc (length nodes) = ap length e in
      absurd (omega arith)
]
ends_within graph (suc bound) s below = elim (List-cases s.nodes_to_visit) [
  | inl over ↦ ([], s, refl, over)
  | inr (c, nodes, e) ↦
      let (s1, step) = pop_and_visit-defined graph c nodes s e in
      let fewer = pop_and_visit-rounds_left graph c s s1 step in
      let (pops, s', run, over) = ends_within graph bound s1 (omega arith) in
      (c ∷ pops, s', rw (step, rounds) run, over)
]

-- Whatever `pop` returns, the loop runs at most once for each target and for each dependency of an
-- image, and after any rounds it can be led to its end.
pub rounds-end :
    (graph : Graph) (targets pops : List Text) (s : Search)
    → rounds graph pops (start graph targets) ≡ some s
    → (length pops ≤ length targets + edges_left graph [])
      × ((more : List Text) × (s' : Search) × (rounds graph more s ≡ some s')
          × (s'.nodes_to_visit ≡ []))
unfolding set_of
rounds-end graph targets pops s run = (
  omega
      (arith, rounds-bounded graph pops (start graph targets) s run, length-set_update [] targets),
  ends_within graph (rounds_left graph s) s (omega arith),
)
