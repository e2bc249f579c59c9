-- ===== src/Cluster.antt =====
-- What the operator reads through its Kubernetes client, and the selectors of apimachinery. None of
-- it is code of this repository: a `Cluster` is an argument wherever it is used, one snapshot of
-- every read's outcome.
use kube_vnet.Prelude.{String, Bool, Option, List}
use kube_vnet.Effects.{Result, Fetch}
use kube_vnet.Objects.{
  Labels, LabelSelector, VirtualNetwork, VirtualNetworkBinding, Baseline, Namespace, Pod,
}

pub record Cluster : Type 0 where
  pub get_vnet : (namespace name : String) → Fetch VirtualNetwork
  pub get_namespace : (name : String) → Fetch Namespace
  pub get_cluster_baseline : (name : String) → Fetch Baseline
  pub get_baseline : (namespace name : String) → Fetch Baseline
  pub list_bindings : (namespace : String) → Result (List VirtualNetworkBinding)
  pub list_namespaces : Result (List Namespace)
  pub list_pods : (namespace : String) → Result (List Pod)
  -- `metav1.LabelSelectorAsSelector`: `none` for a malformed selector, and else `Matches`.
  pub as_selector : LabelSelector → Option (Labels → Bool)
