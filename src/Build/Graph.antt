-- ===== src/Build/Graph.antt =====
-- `get_dependency_subgraph` and `get_build_order` of .devkit/scripts/docker/build.py. A set is a list
-- without repetition. Which element `set.pop` returns is open: `pops` lists what it returned.
pub mod Sets
pub mod Reached
pub mod Bound
pub mod Order
use encrypted_zone_sdk.Base.{
  Bool, true, false, Option, none, some, List, [], ◌∷◌, ◌==◌, contains, if◌then◌else◌, text_eq,
}
use encrypted_zone_sdk.Base.Dict.{Dict, lookup, values}
use encrypted_zone_sdk.Base.Result.{Result, ok, raise}
use encrypted_zone_sdk.Base.Text.{Text}
use encrypted_zone_sdk.Build.Tags.{ImageConfig, TagError, exit_status_1, Tagged}

abbrev pub Graph : Type 0
Graph = Dict Text (List Text)

-- `s.add(x)`
abbrev pub add : Text → List Text → List Text
add x s = if contains s x then s else x ∷ s

-- `s.update(xs)`
unfoldable pub set_update : List Text → List Text → List Text
set_update s [] = s
set_update s (x ∷ xs) = set_update (add x s) xs

unfoldable pub set_of : List Text → List Text
unfolding set_update
set_of xs = set_update [] xs

-- The set without an element.
unfoldable pub without : Text → List Text → List Text
without x [] = []
without x (y ∷ s) = let rest = without x s in if x == y then s else y ∷ rest

unfoldable pub full_graph : Dict Text ImageConfig → Graph
unfolding set_of
full_graph [] = []
full_graph ((name, conf) ∷ image_configs_map) =
    (name, set_of (values conf.deps)) ∷ full_graph image_configs_map

-- `nodes_to_visit` and `visited_nodes`
pub record Search : Type 0 where
  pub nodes_to_visit : List Text
  pub visited_nodes : List Text

unfoldable pub with_deps : Option (List Text) → List Text → List Text
unfolding set_update
with_deps none nodes_to_visit = nodes_to_visit
with_deps (some deps) nodes_to_visit = set_update nodes_to_visit deps

module _ (graph : Graph) where
  -- The body of the loop, once `current_node` is popped.
  unfoldable pub visit : Text → Search → Search
  unfolding with_deps
  visit current_node s = if contains s.visited_nodes current_node then s else record {
    nodes_to_visit = with_deps (lookup current_node graph) s.nodes_to_visit;
    visited_nodes = current_node ∷ s.visited_nodes;
  }

  -- One round of the loop; `none` if the node is not in the set, so that `pop` cannot return it.
  unfoldable pub pop_and_visit : Text → Search → Option Search
  unfolding visit without
  pop_and_visit current_node s =
      if contains s.nodes_to_visit current_node
      then some
          (visit current_node (record s { nodes_to_visit = without current_node s.nodes_to_visit }))
      else none

  unfoldable pub rounds : List Text → Search → Option Search
  unfolding pop_and_visit
  rounds [] s = some s
  rounds (current_node ∷ pops) s = elim (pop_and_visit current_node s) [
    | none ↦ none
    | some s' ↦ rounds pops s'
  ]

  abbrev pub start : List Text → Search
  start target_image_names = record {
    nodes_to_visit = set_of target_image_names;
    visited_nodes = [];
  }

  -- The dict comprehension.
  unfoldable pub subgraph : List Text → Graph
  subgraph [] = []
  subgraph (node ∷ visited_nodes) =
      let rest = subgraph visited_nodes in
      elim (lookup node graph) [ none ↦ rest | some deps ↦ (node, deps) ∷ rest ]

-- `list(graphlib.TopologicalSorter(graph).static_order())`, `none` where it raises.
abbrev pub Sorter : Type 0
Sorter = Graph → Option (List Text)

unfoldable pub order_or_exit : Option (List Text) → Tagged (List Text)
order_or_exit none = raise exit_status_1
order_or_exit (some order) = ok order

-- The loop ends when no node is left to visit; `none` if it is not over.
abbrev pub if_over : List Text → List Text → Option (List Text)
if_over [] visited_nodes = some visited_nodes
if_over (node ∷ nodes) visited_nodes = none

abbrev pub visited_at_end : Option Search → Option (List Text)
visited_at_end none = none
visited_at_end (some s) = if_over s.nodes_to_visit s.visited_nodes

module _ (static_order : Sorter) (image_configs_map : Dict Text ImageConfig) where
  unfoldable pub get_dependency_subgraph : List Text → List Text → Option (Tagged (List Text))
  unfolding rounds subgraph full_graph order_or_exit
  get_dependency_subgraph target_image_names pops =
      let graph = full_graph image_configs_map in
      elim (visited_at_end (rounds graph pops (start graph target_image_names))) [
        | none ↦ none
        | some visited_nodes ↦ some (order_or_exit (static_order (subgraph graph visited_nodes)))
      ]

  -- Without targets, all images are ordered.
  unfoldable pub get_build_order : List Text → List Text → Option (Tagged (List Text))
  unfolding get_dependency_subgraph
  get_build_order [] pops = some (order_or_exit (static_order (full_graph image_configs_map)))
  get_build_order (target ∷ targets) pops = get_dependency_subgraph (target ∷ targets) pops
