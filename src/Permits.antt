-- ===== src/Permits.antt =====
-- internal/controller/permits.go: which namespaces may join a vnet.
pub mod Admission
pub mod Listing
use kube_vnet.Prelude.{
  String, ◌≡◌, Bool, true, false, ◌||◌, ◌&&◌, Option, none, some, List, [], ◌∷◌, if◌then◌else◌,
  ◌==◌, string_eq, any,
}
use kube_vnet.Effects.{Result, ok, err, ◌>>=◌, Fetch, found, not_found, failed}
use kube_vnet.Objects.{Labels, LabelSelector, NamespaceSelector, VirtualNetwork, Namespace}
use kube_vnet.Cluster.{Cluster}
use kube_vnet.Keys.{VnetKey, system_vnet_cluster, split_vnet_key}

-- The namespace's labels, once read; a namespace that is gone matches nothing.
unfoldable pub match_labels : (Labels → Bool) → Fetch Namespace → Result Bool
match_labels matches not_found = ok false
match_labels matches (failed e) = err e
match_labels matches (found ns) = ok (matches ns.labels)

module _ (c : Cluster) where
  -- A malformed selector matches nothing.
  unfoldable pub matches_selector : Option LabelSelector → String → Result Bool
  unfolding match_labels
  matches_selector none pod_ns = ok false
  matches_selector (some sel) pod_ns = elim (c.as_selector sel) [
    | none ↦ ok false
    | some matches ↦ match_labels matches (c.get_namespace pod_ns)
  ]

  unfoldable pub matches_allowed_namespaces : Option NamespaceSelector → String → Result Bool
  matches_allowed_namespaces none pod_ns = ok false
  matches_allowed_namespaces (some sel) pod_ns =
      if sel.all || any (λ n. n == pod_ns) sel.names
      then ok true
      else matches_selector sel.selector pod_ns

  unfoldable pub permits_for_vnet : Option VirtualNetwork → String → Result Bool
  permits_for_vnet none pod_ns = ok false
  permits_for_vnet (some v) pod_ns =
      if pod_ns == v.namespace
      then ok true
      else matches_allowed_namespaces v.allowed_namespaces pod_ns

  unfoldable pub permits_found : Fetch VirtualNetwork → String → Result Bool
  permits_found not_found pod_ns = ok false
  permits_found (failed e) pod_ns = err e
  permits_found (found v) pod_ns = permits_for_vnet (some v) pod_ns

  unfoldable pub permits_split : Option (String × String) → String → Result Bool
  permits_split none pod_ns = ok false
  permits_split (some (home_ns, name)) pod_ns =
      if name == system_vnet_cluster && home_ns == ""
      then ok true
      else permits_found (c.get_vnet home_ns name) pod_ns

  unfoldable pub permits : VnetKey → String → Result Bool
  unfolding permits_split permits_found
  permits key pod_ns = permits_split (split_vnet_key key) pod_ns

  -- The body of the loop of `NamespacesAdmittedBy`.
  unfoldable pub admitted_among : VirtualNetwork → List Namespace → Result (List String)
  admitted_among v [] = ok []
  admitted_among v (ns ∷ nss) =
      let rest = admitted_among v nss in
      do
        admitted ← permits_for_vnet (some v) ns.name
        names ← rest
        ok (if admitted then ns.name ∷ names else names)

  unfoldable pub namespaces_admitted_by : Option VirtualNetwork → Result (List String)
  unfolding admitted_among
  namespaces_admitted_by none = ok []
  namespaces_admitted_by (some v) = do namespaces ← c.list_namespaces; admitted_among v namespaces
