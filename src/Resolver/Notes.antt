-- ===== src/Resolver/Notes.antt =====
-- The texts of resolver.go: the notes and hints of its Events, the sources of rules, the keys of stamps.
use Prim.Native.String.{◌++◌}
use kube_vnet.Prelude.{String, ◌||◌, if◌then◌else◌, ◌==◌, string_eq}
use kube_vnet.Prelude.Texts.{has_dot}
use kube_vnet.Effects.{Fetch, found, not_found, failed}
use kube_vnet.Objects.{VirtualNetwork, VirtualNetworkRef}
use kube_vnet.Keys.{
  VnetKey, display, system_vnet_cluster, system_vnet_namespace, label_system_net_prefix,
}

-- Go's `%q` of a text in which nothing is escaped.
abbrev pub quoted : String → String
quoted s = "\"" ++ s ++ "\""

-- resolution_controller.go: `notJoinableHint`.
abbrev pub not_joinable_hint : VirtualNetworkRef → String
not_joinable_hint ref =
    if ref.name == system_vnet_cluster
    then " hint: `cluster` is a cluster-wide singleton living in the operator's namespace; omit `namespace` (recommended) or set it to the operator's namespace."
    else if ref.name == system_vnet_namespace
    then " hint: the `namespace` system vnet exists in every managed namespace — not in the operator's (unmanaged) namespace; omit `namespace` to mean the pod's own namespace."
    else ""

-- resolution_controller.go: `bareJoinLabelHint`.
abbrev pub bare_join_label_hint : String → String → String
bare_join_label_hint label_key suffix =
    if has_dot suffix || suffix == system_vnet_cluster || suffix == system_vnet_namespace
    then ""
    else " hint: the bare form "
      ++ quoted label_key
      ++ " is only honored in the vnet's home namespace; to join a vnet hosted in another namespace use the prefixed form "
      ++ quoted ("kube-vnet/net.<homeNS>." ++ suffix)
      ++ "."

abbrev pub not_joinable_cause : VnetKey → String → Fetch VirtualNetwork → String
not_joinable_cause key pod_ns not_found = "VirtualNetwork " ++ display key ++ " does not exist"
not_joinable_cause key pod_ns (failed e) =
    "VirtualNetwork " ++ display key ++ " could not be read to tell why (" ++ e ++ ")"
not_joinable_cause key pod_ns (found _) =
    "VirtualNetwork "
    ++ display key
    ++ " does not permit namespace "
    ++ quoted pod_ns
    ++ "; its owner can add it to spec.allowedNamespaces"

abbrev pub invalid_reference : VnetKey → String
invalid_reference key = quoted key ++ " is not a valid VirtualNetwork reference"

abbrev pub namespace_baseline_source : String → String
namespace_baseline_source pod_ns = "VirtualNetworkBaseline/" ++ pod_ns ++ "/default"

abbrev pub binding_source : String → String
binding_source name = "VirtualNetworkBinding/" ++ name

abbrev pub join_label_source : String → String
join_label_source k = "pod label " ++ k

-- The stamp's key of a vnet.
unfoldable pub net_stamp : VnetKey → String
net_stamp vnet = label_system_net_prefix ++ vnet

-- The username of a ServiceAccount, `""` where it is not known.
unfoldable pub service_account_username : (namespace name : String) → String
service_account_username namespace name =
    if namespace == "" || name == ""
    then ""
    else "system:serviceaccount:" ++ namespace ++ ":" ++ name
