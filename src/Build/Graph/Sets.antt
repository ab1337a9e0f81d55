-- ===== src/Build/Graph/Sets.antt =====
-- What the sets of `get_dependency_subgraph` in .devkit/scripts/docker/build.py hold.
use mathlib.Core.Option.{some-injective}
use encrypted_zone_sdk.Base.{
  suc, ◌+◌, ◌≤◌, ◌≡◌, refl, ◌⊎◌, inl, inr, ◌||◌, true, Bool-cases, none, some, Option-cases, List,
  [], ◌∷◌, length, arith, ◌==◌, contains, if◌then◌else◌, text_eq,
}
use encrypted_zone_sdk.Base.Dict.{Dict, lookup, values}
use encrypted_zone_sdk.Base.Text.{Text}
use encrypted_zone_sdk.Build.Tags.{ImageConfig}
use encrypted_zone_sdk.Build.Graph.{
  Graph, add, set_update, set_of, without, full_graph, subgraph, Search, visit, pop_and_visit,
  rounds,
}

pub contains-set_update :
    (s xs : List Text) (a : Text) → contains (set_update s xs) a ≡ (contains s a || contains xs a)
unfolding set_update
contains-set_update s [] a = ground arith
contains-set_update s (x ∷ xs) a = ground (arith, contains-set_update (add x s) xs a)

pub contains-set_of : (xs : List Text) (a : Text) → contains (set_of xs) a ≡ contains xs a
unfolding set_of
contains-set_of xs a = contains-set_update [] xs a

pub length-set_update : (s xs : List Text) → length (set_update s xs) ≤ length s + length xs
unfolding set_update
length-set_update s [] = omega arith
length-set_update s (x ∷ xs) = ground (arith, length-set_update (add x s) xs)

pub contains-without :
    (x : Text) (s : List Text) (a : Text)
    → contains s a ≡ true
    → (a ≡ x) ⊎ (contains (without x s) a ≡ true)
unfolding without
contains-without x [] a h = cc
contains-without x (y ∷ s) a h = elim (Bool-cases (contains s a)) [
  | inl later ↦ elim (contains-without x s a later) [
    | inl same ↦ inl same
    | inr kept ↦ inr (ground arith)
  ]
  | inr not_later ↦ elim (Bool-cases (x == y)) [
    | inl same ↦ inl (ground arith)
    | inr other ↦ inr (ground arith)
  ]
]

pub without-contains :
    (x : Text) (s : List Text) (a : Text) → contains (without x s) a ≡ true → contains s a ≡ true
unfolding without
without-contains x [] a h = h
without-contains x (y ∷ s) a h = ground (arith, without-contains x s a)

pub length-without :
    (x : Text) (s : List Text) → contains s x ≡ true → suc (length (without x s)) ≡ length s
unfolding without
length-without x [] h = cc
length-without x (y ∷ s) h = ground (arith, length-without x s)

pub lookup-subgraph :
    (graph : Graph) (visited : List Text) (n : Text)
    → lookup n (subgraph graph visited) ≡ (if contains visited n then lookup n graph else none)
unfolding subgraph
lookup-subgraph graph [] n = refl
lookup-subgraph graph (m ∷ visited) n =
    let rest = lookup-subgraph graph visited n in
    elim (Option-cases (lookup m graph)) [
      | inl gone ↦ elim (text_eq.dec n m) [
        | yes same ↦
            let here : lookup n graph ≡ none = rw same gone in rw (gone, subgraph) (ground arith)
        | no other ↦ rw (gone, subgraph) (ground arith)
      ]
      | inr (deps, e) ↦ elim (text_eq.dec n m) [
        | yes same ↦
            let here : lookup n graph ≡ some deps = rw same e in rw (e, subgraph) (ground arith)
        | no other ↦ rw (e, subgraph) (ground arith)
      ]
    ]

pub lookup-full_graph :
    (configs : Dict Text ImageConfig) (n : Text) (conf : ImageConfig)
    → lookup n configs ≡ some conf
    → lookup n (full_graph configs) ≡ some (set_of (values conf.deps))
unfolding full_graph
lookup-full_graph [] n conf h = cc
lookup-full_graph ((m, c) ∷ configs) n conf h = ground (arith, lookup-full_graph configs n conf)

abbrev pub popped : Text → Search → Search
popped c s = record s { nodes_to_visit = without c s.nodes_to_visit }

pub pop_and_visit-some :
    (graph : Graph) (c : Text) (s s' : Search)
    → pop_and_visit graph c s ≡ some s'
    → (contains s.nodes_to_visit c ≡ true) × (visit graph c (popped c s) ≡ s')
unfolding pop_and_visit
pop_and_visit-some graph c s s' h = ground arith

pub rounds_nil : (graph : Graph) (s s' : Search) → rounds graph [] s ≡ some s' → s ≡ s'
unfolding rounds
rounds_nil graph s s' h = some-injective s s' h

pub rounds_cons :
    (graph : Graph) (c : Text) (pops : List Text) (s s' : Search)
    → rounds graph (c ∷ pops) s ≡ some s'
    → (s1 : Search) × (pop_and_visit graph c s ≡ some s1) × (rounds graph pops s1 ≡ some s')
unfolding rounds
rounds_cons graph c pops s s' = elim (Option-cases (pop_and_visit graph c s)) [
  | inl stuck ↦ rw (stuck, rounds) (λ h. absurd (cc))
  | inr (s1, e) ↦ rw (e, rounds) (λ h. (s1, refl, h))
]
