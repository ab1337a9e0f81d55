-- ===== src/Build/Graph/Order/Subgraph.antt =====
-- The order that `get_dependency_subgraph` of .devkit/scripts/docker/build.py returns.
use mathlib.Core.Option.{some-injective}
use encrypted_zone_sdk.Base.{
  ◌<◌, ◌≡◌, refl, inl, inr, true, Option-cases, Option, none, some, List, [], ◌∷◌, arith, contains,
  text_eq,
}
use encrypted_zone_sdk.Base.Dict.{Dict, lookup}
use encrypted_zone_sdk.Base.Result.{ok}
use encrypted_zone_sdk.Base.Text.{Text}
use encrypted_zone_sdk.Build.Tags.{ImageConfig}
use encrypted_zone_sdk.Build.Graph.{
  Graph, Search, start, rounds, subgraph, full_graph, Sorter, order_or_exit, if_over,
  visited_at_end, get_dependency_subgraph,
}
use encrypted_zone_sdk.Build.Graph.Sets.{lookup-subgraph}
use encrypted_zone_sdk.Build.Graph.Reached.{Reachable, dependency, visited-Reachable}
use encrypted_zone_sdk.Build.Graph.Order.{
  position, SortsTopologically, is_topological-before, is_topological-key, is_topological-node,
}

pub subgraph-lookup :
    (graph : Graph) (visited : List Text) (n : Text) (deps : List Text)
    → lookup n (subgraph graph visited) ≡ some deps
    → (contains visited n ≡ true) × (lookup n graph ≡ some deps)
subgraph-lookup graph visited n deps h = ground (arith, lookup-subgraph graph visited n)

if_over-some :
    (nodes visited visited' : List Text)
    → if_over nodes visited ≡ some visited'
    → (nodes ≡ []) × (visited ≡ visited')
if_over-some [] visited visited' h = (refl, some-injective visited visited' h)
if_over-some (n ∷ nodes) visited visited' h = absurd (cc)

visited_at_end-some :
    (o : Option Search) (visited : List Text)
    → visited_at_end o ≡ some visited
    → (s : Search) × (o ≡ some s) × (s.nodes_to_visit ≡ []) × (s.visited_nodes ≡ visited)
visited_at_end-some none visited h = absurd (cc)
visited_at_end-some (some s) visited h =
    let (over, same) = if_over-some s.nodes_to_visit s.visited_nodes visited h in
    (s, refl, over, same)

pub order_or_exit-ok :
    (o : Option (List Text)) (order : List Text) → order_or_exit o ≡ ok order → o ≡ some order
unfolding order_or_exit
order_or_exit-ok none order h = cc
order_or_exit-ok (some sorted) order h = cc

module _ (static_order : Sorter) (configs : Dict Text ImageConfig)
    (targets pops order : List Text) where
  abbrev graph : Graph
  graph = full_graph configs

  -- What the loop visited, and how the sorter ordered it.
  pub dependency_subgraph-run :
      get_dependency_subgraph static_order configs targets pops ≡ some (ok order)
      → (s : Search) × (rounds graph pops (start graph targets) ≡ some s)
        × (s.nodes_to_visit ≡ [])
        × (static_order (subgraph graph s.visited_nodes) ≡ some order)
  unfolding get_dependency_subgraph
  dependency_subgraph-run =
      elim (Option-cases (visited_at_end (rounds graph pops (start graph targets)))) [
        | inl stuck ↦ rw (stuck, get_dependency_subgraph) (λ h. absurd (cc))
        | inr (visited, e) ↦
            let (s, run, over, same) = visited_at_end-some _ visited e in
            rw (e, get_dependency_subgraph)
              (λ h. (
                s,
                run,
                over,
                rw same (
                    order_or_exit-ok (static_order (subgraph graph visited)) order
                      (some-injective _ _ h)),
              ))
      ]

  module _ (sorts : SortsTopologically static_order)
      (returned : get_dependency_subgraph static_order configs targets pops ≡ some (ok order)) where
    known :
        (s : Search) (n : Text) (deps : List Text)
        → rounds graph pops (start graph targets) ≡ some s
        → s.nodes_to_visit ≡ []
        → Reachable graph targets n
        → lookup n graph ≡ some deps
        → lookup n (subgraph graph s.visited_nodes) ≡ some deps
    known s n deps run over r e =
        let visited = (visited-Reachable graph targets pops s run over n).1 r in
        ground (arith, lookup-subgraph graph s.visited_nodes n)

    -- What is ordered is reachable.
    pub order-Reachable : (n : Text) → contains order n ≡ true → Reachable graph targets n
    order-Reachable n h =
        let (s, run, over, e) = dependency_subgraph-run returned in
        let sub = subgraph graph s.visited_nodes in
        elim (is_topological-node sub order (sorts sub order e) n h) [
          | inl (deps, own) ↦
              (visited-Reachable graph targets pops s run over n).0
                (subgraph-lookup graph s.visited_nodes n deps own).0
          | inr (m, deps, other, needed) ↦
              let (v, there) = subgraph-lookup graph s.visited_nodes m deps other in
              dependency m deps n ((visited-Reachable graph targets pops s run over m).0 v) there
                needed
        ]

    -- What is reachable and configured is ordered, and each of its dependencies before it.
    pub Reachable-order :
        (n : Text) (deps : List Text)
        → Reachable graph targets n
        → lookup n graph ≡ some deps
        → (contains order n ≡ true)
          × ((d : Text)
              → contains deps d ≡ true
              → (contains order d ≡ true) × (position d order < position n order))
    Reachable-order n deps r e =
        let (s, run, over, sorted) = dependency_subgraph-run returned in
        let sub = subgraph graph s.visited_nodes in
        let own = known s n deps run over r e in
        (
          is_topological-key sub order (sorts sub order sorted) n deps own,
          λ d m. is_topological-before sub order (sorts sub order sorted) n deps d own m,
        )

    -- Where `static_order` sorts topologically: what `get_dependency_subgraph` returns are the targets
    -- and what they need, but for those that are not configured and that no other image needs, and
    -- each dependency of an image is before it.
    pub get_dependency_subgraph-Reachable :
        (n : Text)
        → (contains order n ≡ true → Reachable graph targets n)
          × ((deps : List Text)
              → Reachable graph targets n
              → lookup n graph ≡ some deps
              → (contains order n ≡ true)
                × ((d : Text)
                    → contains deps d ≡ true
                    → (contains order d ≡ true) × (position d order < position n order)))
    get_dependency_subgraph-Reachable n = (order-Reachable n, Reachable-order n)
