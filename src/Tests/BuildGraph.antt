-- ===== src/Tests/BuildGraph.antt =====
-- The build order of .devkit/scripts/docker/build.py at concrete inputs.
use mathlib.Core.Option.{some-injective}
use encrypted_zone_sdk.Base.{
  inl, inr, Bool-cases, subst, ◌+◌, ◌<◌, ◌≤◌, ◌≡◌, refl, ◌↔◌, true, none, some, List, [], ◌∷◌,
  contains, text_eq, if◌then◌else◌,
}
use encrypted_zone_sdk.Base.Dict.{Dict, lookup}
use encrypted_zone_sdk.Base.Result.{ok}
use encrypted_zone_sdk.Base.Text.{Text, codes}
use encrypted_zone_sdk.Build.Tags.{calculate_tags}
use encrypted_zone_sdk.Build.Graph.{
  Graph, Search, Sorter, start, rounds, full_graph, get_dependency_subgraph, get_build_order,
}
use encrypted_zone_sdk.Build.Graph.Reached.{
  Reachable, IsPartial, rounds_from_start-IsPartial, visited-Reachable,
}
use encrypted_zone_sdk.Build.Graph.Bound.{edges_left, rounds-end}
use encrypted_zone_sdk.Build.Graph.Order.{position, is_topological, SortsTopologically}
use encrypted_zone_sdk.Build.Graph.Order.Subgraph.{get_dependency_subgraph-Reachable}
use encrypted_zone_sdk.Build.Graph.Order.Tagging.{IsReady, get_build_order-calculate_tags}
use encrypted_zone_sdk.Tests.DockerBuild.{builder, conf_of, dockerfile_of, configured_of}

abbrev graph : Graph
graph = full_graph builder.image_configs_map

abbrev targets : List Text
targets = codes "dev" ∷ []

abbrev pops : List Text
pops = codes "dev" ∷ codes "base" ∷ []

abbrev order : List Text
order = codes "base" ∷ codes "dev" ∷ []

abbrev halfway : Search
halfway = record { nodes_to_visit = codes "base" ∷ []; visited_nodes = codes "dev" ∷ [] }

abbrev finished : Search
finished = record { nodes_to_visit = []; visited_nodes = order }

first_round : rounds graph (codes "dev" ∷ []) (start graph targets) ≡ some halfway
unfolding rounds full_graph text_eq
first_round = refl

all_rounds : rounds graph pops (start graph targets) ≡ some finished
unfolding rounds full_graph text_eq
all_rounds = refl

rounds_from_start-IsPartial_example : IsPartial graph targets halfway
rounds_from_start-IsPartial_example =
    rounds_from_start-IsPartial graph targets (codes "dev" ∷ []) halfway first_round

visited-Reachable_example :
    (contains order (codes "base") ≡ true) ↔ Reachable graph targets (codes "base")
visited-Reachable_example =
    visited-Reachable graph targets pops finished all_rounds refl (codes "base")

rounds-end_example :
    (1 ≤ 1 + edges_left graph [])
    × ((more : List Text) × (s : Search) × (rounds graph more halfway ≡ some s)
        × (s.nodes_to_visit ≡ []))
rounds-end_example = rounds-end graph targets (codes "dev" ∷ []) halfway first_round

-- It knows one order, and raises where that is none.
abbrev toy_order : Sorter
toy_order graph = if is_topological graph order then some order else none

toy_order-SortsTopologically : SortsTopologically toy_order
toy_order-SortsTopologically graph found = elim (Bool-cases (is_topological graph order)) [
  | inl sorted ↦
      rw sorted
        (λ h. subst (λ o. is_topological graph o ≡ true) (some-injective order found h) sorted)
  | inr unsorted ↦ rw unsorted (λ h. absurd (cc))
]

subgraph_ordered :
    get_dependency_subgraph toy_order builder.image_configs_map targets pops ≡ some (ok order)
unfolding get_dependency_subgraph text_eq
subgraph_ordered = refl

build_ordered : get_build_order toy_order builder.image_configs_map targets pops ≡ some (ok order)
unfolding get_build_order text_eq
build_ordered = refl

get_dependency_subgraph-Reachable_example :
    (contains order (codes "dev") ≡ true → Reachable graph targets (codes "dev"))
    × ((deps : List Text)
        → Reachable graph targets (codes "dev")
        → lookup (codes "dev") graph ≡ some deps
        → (contains order (codes "dev") ≡ true)
          × ((d : Text)
              → contains deps d ≡ true
              → (contains order d ≡ true) × (position d order < position (codes "dev") order)))
get_dependency_subgraph-Reachable_example =
    get_dependency_subgraph-Reachable toy_order builder.image_configs_map targets pops order
      toy_order-SortsTopologically subgraph_ordered (codes "dev")

ready : (n : Text) → contains order n ≡ true → IsReady builder n
ready n h = (conf_of n, _, configured_of n h, dockerfile_of n)

get_build_order-calculate_tags_example :
    (r : List Text × Dict Text Text) × (calculate_tags builder 3 order [] ≡ ok r)
get_build_order-calculate_tags_example =
    get_build_order-calculate_tags builder toy_order toy_order-SortsTopologically targets pops order
      build_ordered ready
