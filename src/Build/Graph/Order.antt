-- ===== src/Build/Graph/Order.antt =====
-- The build order of .devkit/scripts/docker/build.py. `graphlib.TopologicalSorter` is a parameter,
-- and what its documentation promises is a hypothesis.
pub mod Subgraph
pub mod Tagging
use mathlib.Core.Option.{some-injective}
use encrypted_zone_sdk.Base.{
  ℕ, zero, suc, ◌<◌, ◌≡◌, refl, sym, ◌∙◌, subst, ◌⊎◌, ◌↔◌, inl, inr, ◌||◌, ◌&&◌, Bool, true, false,
  Bool-cases, Option-cases, List-cases, Option, none, some, List, [], ◌∷◌, length, any, all, arith,
  contains, if◌then◌else◌, ltb, ltb→lt, ◌==◌, text_eq,
}
use encrypted_zone_sdk.Base.Dict.{Dict, lookup, keys}
use encrypted_zone_sdk.Base.Result.{ok, raise}
use encrypted_zone_sdk.Base.Members.{any_witness, all_member}
use encrypted_zone_sdk.Base.Text.{Text}
use encrypted_zone_sdk.Build.Tags.{ImageConfig, Tagged}
use encrypted_zone_sdk.Build.Graph.{
  Graph, Search, start, rounds, subgraph, full_graph, Sorter, order_or_exit, visited_at_end,
  get_dependency_subgraph,
}
use encrypted_zone_sdk.Build.Graph.Sets.{lookup-subgraph}
use encrypted_zone_sdk.Build.Graph.Reached.{Reachable, target, dependency, visited-Reachable}

abbrev pub position : Text → List Text → ℕ
position x [] = 0
position x (y ∷ ys) = let rest = position x ys in if x == y then 0 else suc rest

pub position-length : (x : Text) (xs : List Text) → contains xs x ≡ true → position x xs < length xs
position-length x [] h = cc
position-length x (y ∷ ys) h = ground (arith, position-length x ys)

abbrev needs : Graph → Text → Text → Bool
needs graph n m = elim (lookup m graph) [ none ↦ false | some deps ↦ contains deps n ]

abbrev is_key : Graph → Text → Bool
is_key graph n = elim (lookup n graph) [ none ↦ false | some deps ↦ true ]

-- A node has an entry of its own, or another node depends on it.
abbrev is_node : Graph → Text → Bool
is_node graph n = is_key graph n || any (needs graph n) (keys graph)

abbrev before : List Text → Text → Text → Bool
before order n d = contains order d && ltb (position d order) (position n order)

abbrev deps_before : List Text → Graph → Bool
deps_before order [] = true
deps_before order ((n, deps) ∷ graph) =
    (contains order n && all (before order n) deps) && deps_before order graph

-- The order lists the nodes and no other, and each after those that it depends on.
abbrev pub is_topological : Graph → List Text → Bool
is_topological graph order = all (is_node graph) order && deps_before order graph

-- `static_order` lists the nodes in a topological order, if it does not raise.
abbrev pub SortsTopologically : Sorter → Type 0
SortsTopologically static_order =
    (graph : Graph) (order : List Text)
    → static_order graph ≡ some order
    → is_topological graph order ≡ true

deps_before-lookup :
    (order : List Text) (graph : Graph) (n : Text) (deps : List Text)
    → deps_before order graph ≡ true
    → lookup n graph ≡ some deps
    → (contains order n && all (before order n) deps) ≡ true
deps_before-lookup order [] n deps h e = cc
deps_before-lookup order ((m, ds) ∷ graph) n deps h e = elim (text_eq.dec n m) [
  | yes same ↦
      let found : some ds ≡ some deps = ground arith in
      let first : (contains order m && all (before order m) ds) ≡ true = ground arith in
      rw same (
        subst (λ l. (contains order m && all (before order m) l) ≡ true)
          (some-injective ds deps found) first)
  | no other ↦ deps_before-lookup order graph n deps (ground arith) (ground arith)
]

needs-some :
    (graph : Graph) (n m : Text)
    → needs graph n m ≡ true
    → (deps : List Text) × (lookup m graph ≡ some deps) × (contains deps n ≡ true)
needs-some graph n m h = elim (Option-cases (lookup m graph)) [
  | inl gone ↦ absurd (ground arith)
  | inr (deps, e) ↦ (deps, e, ground arith)
]

is_node-cases :
    (graph : Graph) (n : Text)
    → is_node graph n ≡ true
    → ((deps : List Text) × (lookup n graph ≡ some deps))
      ⊎ ((m : Text) × (deps : List Text) × (lookup m graph ≡ some deps) × (contains deps n ≡ true))
is_node-cases graph n h = elim (Option-cases (lookup n graph)) [
  | inr (deps, e) ↦ inl (deps, e)
  | inl gone ↦
      let by_another : any (needs graph n) (keys graph) ≡ true =
        subst
          (λ o.
            ((elim o [ none ↦ false | some deps ↦ true ]) || any (needs graph n) (keys graph))
            ≡ true)
          gone h in
      let (m, _, needed) = any_witness (needs graph n) (keys graph) by_another in
      let (deps, e, m_needs) = needs-some graph n m needed in inr (m, deps, e, m_needs)
]

module _ (graph : Graph) (order : List Text) (sorted : is_topological graph order ≡ true) where
  pub is_topological-before :
      (n : Text) (deps : List Text) (d : Text)
      → lookup n graph ≡ some deps
      → contains deps d ≡ true
      → (contains order d ≡ true) × (position d order < position n order)
  is_topological-before n deps d e m =
      let entry = deps_before-lookup order graph n deps (ground arith) e in
      let here = all_member (before order n) deps d (ground arith) m in
      (ground arith, ltb→lt (position d order) (position n order) (ground arith))

  pub is_topological-key :
      (n : Text) (deps : List Text) → lookup n graph ≡ some deps → contains order n ≡ true
  is_topological-key n deps e =
      let entry = deps_before-lookup order graph n deps (ground arith) e in ground arith

  pub is_topological-node :
      (n : Text)
      → contains order n ≡ true
      → ((deps : List Text) × (lookup n graph ≡ some deps))
        ⊎ ((m : Text) × (deps : List Text) × (lookup m graph ≡ some deps)
            × (contains deps n ≡ true))
  is_topological-node n h =
      is_node-cases graph n (all_member (is_node graph) order n (ground arith) h)
