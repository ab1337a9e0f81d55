-- ===== src/Build/Graph/Order/Tagging.antt =====
-- `get_build_order` and the loop of `calculate_tags` of .devkit/scripts/docker/build.py together.
use mathlib.Core.Option.{some-injective}
use encrypted_zone_sdk.Base.{
  ℕ, suc, ◌<◌, ◌≡◌, ◌∙◌, true, some, List, [], ◌∷◌, length, arith, contains, text_eq, All,
}
use encrypted_zone_sdk.Base.Dict.{Dict, lookup, values}
use encrypted_zone_sdk.Base.Result.{ok}
use encrypted_zone_sdk.Base.Members.{All-intro}
use encrypted_zone_sdk.Base.Text.{Text}
use encrypted_zone_sdk.Build.Tags.{ImageConfig, Builder, find_dockerfile, calculate_tags}
use encrypted_zone_sdk.Build.Tags.Total.{IsBuildable, calculate_tags-returns}
use encrypted_zone_sdk.Build.Graph.{Graph, set_of, full_graph, Sorter, get_build_order}
use encrypted_zone_sdk.Build.Graph.Sets.{contains-set_of, lookup-full_graph}
use encrypted_zone_sdk.Build.Graph.Order.{
  position, position-length, SortsTopologically, is_topological-before,
}
use encrypted_zone_sdk.Build.Graph.Order.Subgraph.{
  order_or_exit-ok, get_dependency_subgraph-Reachable,
}

-- Each dependency of an ordered image is before it.
abbrev IsOrdered : Graph → List Text → Type 0
IsOrdered graph order =
    (n : Text) (deps : List Text) (d : Text)
    → contains order n ≡ true
    → lookup n graph ≡ some deps
    → contains deps d ≡ true
    → (contains order d ≡ true) × (position d order < position n order)

get_build_order-IsOrdered :
    (static_order : Sorter) (configs : Dict Text ImageConfig)
    → SortsTopologically static_order
    → (targets pops order : List Text)
    → get_build_order static_order configs targets pops ≡ some (ok order)
    → IsOrdered (full_graph configs) order
unfolding get_build_order
get_build_order-IsOrdered static_order configs sorts [] pops order returned n deps d h e m =
    let sorted =
      order_or_exit-ok (static_order (full_graph configs)) order (some-injective _ _ returned) in
    is_topological-before (full_graph configs) order (sorts (full_graph configs) order sorted) n
      deps d e m
get_build_order-IsOrdered static_order configs sorts (target ∷ targets) pops order returned n deps d
      h e m =
    let (reachable, ordered) =
      get_dependency_subgraph-Reachable static_order configs (target ∷ targets) pops order sorts
        returned n in
    (ordered deps (reachable h) e).1 d m

All-deps :
    (P : Text → Type 0) (deps : Dict Text Text)
    → ((d : Text) → contains (values deps) d ≡ true → P d)
    → All (λ (_, d). P d) deps
All-deps P [] h = tt
All-deps P ((a, d) ∷ deps) h = (h d (ground arith), All-deps P deps (λ d' m. h d' (ground arith)))

-- A configured image with a Dockerfile.
abbrev pub IsReady : Builder → Text → Type 0
IsReady b n =
    (conf : ImageConfig) × (path : Text) × (lookup n b.image_configs_map ≡ some conf)
    × (find_dockerfile b n ≡ some path)

module _ (b : Builder) (order : List Text)
    (ordered : IsOrdered (full_graph b.image_configs_map) order)
    (ready : (n : Text) → contains order n ≡ true → IsReady b n) where
  abbrev Known : Text → Type 0
  Known n = contains order n ≡ true

  abbrev rank_of : Text → ℕ
  rank_of n = position n order

  dep-Known :
      (n : Text) (k : Known n) (d : Text)
      → contains (values ((ready n k).0.deps)) d ≡ true
      → Known d × (rank_of d < rank_of n)
  dep-Known n k d m =
      let (conf, path, configured, has_dockerfile) = ready n k in
      ordered n (set_of (values conf.deps)) d k
        (lookup-full_graph b.image_configs_map n conf configured)
        (contains-set_of (values conf.deps) d ∙ m)

  buildable : (n : Text) → Known n → IsBuildable b rank_of n
  buildable n k =
      let (conf, path, configured, has_dockerfile) = ready n k in
      record {
        conf = conf;
        path = path;
        configured = configured;
        has_dockerfile = has_dockerfile;
        deps_below = All-deps (λ d. rank_of d < rank_of n) conf.deps (λ d m. (dep-Known n k d m).1);
      }

  tags-return :
      (r : List Text × Dict Text Text) × (calculate_tags b (suc (length order)) order [] ≡ ok r)
  unfolding buildable
  tags-return =
      calculate_tags-returns b rank_of Known buildable
        (λ n k. All-deps Known ((ready n k).0.deps) (λ d m. (dep-Known n k d m).0))
        (suc (length order)) order [] (All-intro Known order (λ n k. k))
        (All-intro (λ n. rank_of n < suc (length order)) order
          (λ n k. let below = position-length n order k in omega arith))

-- Where the sorter sorts topologically and each image of the build order is configured and has a
-- Dockerfile, `calculate_tags` returns the tags of the whole order: its recursion is never deeper
-- than the number of these images, and ends.
pub get_build_order-calculate_tags :
    (b : Builder) (static_order : Sorter)
    → SortsTopologically static_order
    → (targets pops order : List Text)
    → get_build_order static_order b.image_configs_map targets pops ≡ some (ok order)
    → ((n : Text) → contains order n ≡ true → IsReady b n)
    → (r : List Text × Dict Text Text) × (calculate_tags b (suc (length order)) order [] ≡ ok r)
get_build_order-calculate_tags b static_order sorts targets pops order returned ready =
    tags-return b order
      (get_build_order-IsOrdered static_order b.image_configs_map sorts targets pops order returned)
      ready
