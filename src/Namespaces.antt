-- ===== src/Namespaces.antt =====
-- internal/controller/namespace.go: which namespaces kube-vnet manages.
use kube_vnet.Prelude.{
  String, Bool, false, not, ◌&&◌, Option, none, some, List, ◌==◌, string_eq, any, select, lookup,
  or_else,
}
use kube_vnet.Effects.{Result, ok, err, Fetch, found, not_found, failed}
use kube_vnet.Objects.{Labels, Namespace}
use kube_vnet.Cluster.{Cluster}

abbrev pub annotation_disabled : String
annotation_disabled = "kube-vnet/disabled"

abbrev pub annotation_external_allow : String
annotation_external_allow = "kube-vnet/external-allow"

abbrev pub annotation_apiserver_reachable : String
annotation_apiserver_reachable = "kube-vnet/apiserver-reachable"

-- Go's `m[k]`: the empty string for a missing key.
abbrev pub value_at : String → Labels → String
value_at k m = or_else (lookup k m) ""

unfoldable pub external_allow_opted_out : Labels → Bool
external_allow_opted_out annotations = value_at annotation_external_allow annotations == "false"

unfoldable pub apiserver_reachable_opted_in : Labels → Bool
apiserver_reachable_opted_in annotations =
    value_at annotation_apiserver_reachable annotations == "true"

-- The set of excluded names.
pub record NamespaceFilter : Type 0 where
  pub excluded : List String

unfoldable pub new_namespace_filter : List String → NamespaceFilter
new_namespace_filter excluded = record { excluded = select (λ n. not (n == "")) excluded }

unfoldable pub is_managed : NamespaceFilter → Option Namespace → Bool
is_managed f none = false
is_managed f (some ns) =
    not (any (λ n. n == ns.name) f.excluded)
    && not (value_at annotation_disabled ns.annotations == "true")

unfoldable pub managed_fetch : NamespaceFilter → Fetch Namespace → Result Bool
managed_fetch f not_found = ok false
managed_fetch f (failed e) = err e
managed_fetch f (found ns) = ok (is_managed f (some ns))

unfoldable pub manages : NamespaceFilter → Cluster → String → Result Bool
unfolding managed_fetch
manages f c name = managed_fetch f (c.get_namespace name)
