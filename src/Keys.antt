-- ===== src/Keys.antt =====
-- The names of a vnet: the resolution key, the join label's suffix, and the stamp's key
-- (internal/controller: permits.go, resolver.go, resolution_controller.go, policy_generator.go).
pub mod Agreement
use Prim.Native.String.{◌++◌}
use kube_vnet.Prelude.{
  String, Bool, true, false, ◌||◌, ◌&&◌, Option, none, some, if◌then◌else◌, ◌==◌, string_eq,
}
use kube_vnet.Prelude.Texts.{cut_dot, has_dot, has_suffix}
use kube_vnet.Objects.{VirtualNetworkRef}

-- The canonical key of a vnet: `<homeNS>.<vnet>`, or `cluster`.
abbrev pub VnetKey : Type 0
VnetKey = String

abbrev pub system_vnet_namespace : String
system_vnet_namespace = "namespace"

abbrev pub system_vnet_cluster : String
system_vnet_cluster = "cluster"

abbrev pub label_system_net_prefix : String
label_system_net_prefix = "kube-vnet.system/net."

abbrev pub label_system_host_port_prefix : String
label_system_host_port_prefix = "kube-vnet.system/host-port."

abbrev pub user_join_prefix : String
user_join_prefix = "kube-vnet/net."

-- The two parts, or `none` where one of them is empty.
abbrev pub both_parts : Option (String × String) → Option (String × String)
both_parts none = none
both_parts (some (home_ns, name)) =
    if home_ns == "" || name == "" then none else some (home_ns, name)

unfoldable pub split_vnet_key : VnetKey → Option (String × String)
split_vnet_key k =
    if k == ""
    then none
    else if k == system_vnet_cluster
    then some ("", system_vnet_cluster)
    else both_parts (cut_dot k)

-- `VnetKey.Display`
abbrev pub display : VnetKey → String
display k = elim (split_vnet_key k) [
  | none ↦ k
  | some (home_ns, name) ↦ if home_ns == "" then k else home_ns ++ "/" ++ name
]

unfoldable pub canonical_vnet_key : VirtualNetworkRef → String → VnetKey
canonical_vnet_key ref pod_ns =
    if ref.namespace == ""
    then if ref.name == system_vnet_cluster then system_vnet_cluster else pod_ns ++ "." ++ ref.name
    else ref.namespace ++ "." ++ ref.name

abbrev names_cluster : VnetKey → Option (String × String) → VnetKey
names_cluster k none = k
names_cluster k (some (home_ns, name)) =
    if name == system_vnet_cluster then system_vnet_cluster else k

-- The identity that is stamped for a permitted key.
unfoldable pub stamped_vnet_key : VnetKey → VnetKey
stamped_vnet_key k = names_cluster k (split_vnet_key k)

unfoldable pub is_prefixed_cluster_suffix : String → Bool
is_prefixed_cluster_suffix suffix = has_suffix suffix ".cluster"

unfoldable pub canonical_suffix : String → String → VnetKey
canonical_suffix suffix scope_ns =
    if suffix == system_vnet_cluster
    then system_vnet_cluster
    else if has_dot suffix
    then suffix
    else scope_ns ++ "." ++ suffix

-- The label key that the generator's selectors name.
unfoldable pub system_label_key : (home_ns vnet : String) → String
system_label_key home_ns vnet =
    if vnet == system_vnet_cluster
    then label_system_net_prefix ++ system_vnet_cluster
    else label_system_net_prefix ++ home_ns ++ "." ++ vnet
