-- ===== src/Tests/Resolving.antt =====
-- Directions, keys, resolution and permits at concrete inputs.
use mathlib.Core.Logic.{◌↔◌}
use Prim.Native.String.{◌++◌}
use kube_vnet.Prelude.{
  String, ◌==◌, string_eq, ◌≡◌, refl, true, false, ◌&&◌, some, List, [], ◌∷◌, string_eq, any,
  lookup, nat_beq,
}
use kube_vnet.Prelude.Texts.{has_dot}
use kube_vnet.Effects.{ok}
use kube_vnet.Direction.{Direction, direction_eq, text, is_default, parse_direction, intersect}
use kube_vnet.Direction.Algebra.{accepts, initiates, intersect_permissions, parse_direction-text}
use kube_vnet.Keys.{stamped_vnet_key, system_label_key, label_system_net_prefix}
use kube_vnet.Keys.Agreement.{IsName, stamped-eq-system_label_key}
use kube_vnet.Resolution.{
  ResolutionRule, ResolutionScope, cluster_baseline, pod, ResolutionLayer, tier, merge_first,
  merge_rules, merged_direction, resolve, by_tier,
}
use kube_vnet.Resolution.Groups.{of_vnet, group_direction, merged-eq-group_direction}
use kube_vnet.Resolution.Effective.{emitted_by, deciding, effective-eq-deciding}
use kube_vnet.Resolution.Conflicts.{concerns, disagrees, conflicts-resolve}
use kube_vnet.Prelude.Sorting.{sort}
use kube_vnet.Permits.{permits_for_vnet}
use kube_vnet.Permits.Admission.{Admitted, permits_for_vnet_iff}
use kube_vnet.Resolver.{desired_of, net_stamp}
use kube_vnet.Resolver.Stamped.{text_of, lookup-desired_of}
use kube_vnet.Permits.{
  namespaces_admitted_by, admitted_among, matches_allowed_namespaces, matches_selector,
  match_labels,
}
use kube_vnet.Permits.Listing.{admits_named, namespaces_admitted_by_lem}
use kube_vnet.Objects.{Namespace}
use kube_vnet.Tests.Fixtures.{plain_namespace, web, cluster, ui, ui_resolution, rule}

abbrev a_layer : ResolutionScope → List ResolutionRule → ResolutionLayer
a_layer scope rules = record { scope = scope; rules = rules }

-- A baseline that opts in, and a pod that says egress and none.
abbrev layers : List ResolutionLayer
layers =
    a_layer pod (rule Direction.egress "label" ∷ rule Direction.none "binding" ∷ [])
    ∷ a_layer cluster_baseline (rule Direction.default_both "baseline" ∷ [])
    ∷ []

effective-eq-deciding_example :
    lookup "shop.web" (resolve layers).effective
    ≡ emitted_by "shop.web" (deciding "shop.web" (sort by_tier layers))
effective-eq-deciding_example = effective-eq-deciding "shop.web" layers

conflicts-resolve_example :
    any (concerns pod "shop.web") (resolve layers).conflicts
    ≡ any (λ l. nat_beq (tier l.scope) (tier pod) && disagrees (of_vnet "shop.web" l.rules)) layers
conflicts-resolve_example = conflicts-resolve pod "shop.web" layers

merged-eq-group_direction_example :
    merged_direction (
      merge_rules (merge_first (rule Direction.both "a")) (rule Direction.default_ingress "b" ∷ []))
    ≡ group_direction (rule Direction.both "a" ∷ rule Direction.default_ingress "b" ∷ [])
merged-eq-group_direction_example =
    merged-eq-group_direction (rule Direction.both "a") (rule Direction.default_ingress "b" ∷ [])

intersect_permissions_example :
    (accepts (intersect Direction.both Direction.default_ingress)
      ≡ (accepts Direction.both && accepts Direction.default_ingress))
    × (initiates (intersect Direction.both Direction.default_ingress)
        ≡ (initiates Direction.both && initiates Direction.default_ingress))
    × (is_default (intersect Direction.both Direction.default_ingress) ≡ false)
intersect_permissions_example = intersect_permissions Direction.both Direction.default_ingress

parse_direction-text_example :
    (parse_direction "egress" ≡ some Direction.egress) ↔ ("egress" ≡ text Direction.egress)
parse_direction-text_example = parse_direction-text "egress" Direction.egress

pub shop-IsName : IsName "shop"
unfolding has_dot
shop-IsName = record { is_not_empty = λ e. cc e; has_no_dot = refl }

pub web-IsName : IsName "web"
unfolding has_dot
web-IsName = record { is_not_empty = λ e. cc e; has_no_dot = refl }

stamped-eq-system_label_key_example :
    label_system_net_prefix ++ stamped_vnet_key ("shop" ++ "." ++ "web")
    ≡ system_label_key "shop" "web"
stamped-eq-system_label_key_example =
    stamped-eq-system_label_key "shop" "web" shop-IsName web-IsName

permits_for_vnet_iff_example :
    (permits_for_vnet cluster (some web) "front" ≡ ok true) ↔ Admitted cluster web "front"
permits_for_vnet_iff_example = permits_for_vnet_iff cluster web "front"

lookup-desired_of_example :
    lookup (net_stamp "shop.web") (desired_of ui ui_resolution)
    ≡ text_of (lookup "shop.web" ui_resolution.effective)
lookup-desired_of_example = lookup-desired_of "shop.web" ui ui_resolution

abbrev listed_namespaces : List Namespace
listed_namespaces = plain_namespace "front" ∷ plain_namespace "back" ∷ []

lists_front : namespaces_admitted_by cluster (some web) ≡ ok ("front" ∷ [])
unfolding namespaces_admitted_by admitted_among permits_for_vnet matches_allowed_namespaces
    matches_selector match_labels lookup
lists_front = refl

namespaces_admitted_by_lem_example :
    any {A = String} (λ n. n == "front") ("front" ∷ [])
    ≡ any (admits_named cluster web "front") listed_namespaces
namespaces_admitted_by_lem_example =
    namespaces_admitted_by_lem cluster web "front" listed_namespaces ("front" ∷ []) refl lists_front
