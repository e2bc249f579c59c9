-- ===== src/Generator.antt =====
-- internal/controller/policy_generator.go: the membership policies of a vnet.
pub mod Reach
use Prim.Native.String.{◌++◌ as ◌+++◌}
use kube_vnet.Prelude.{
  String, Bool, true, false, not, ◌||◌, Option, none, some, List, [], ◌∷◌, if◌then◌else◌, ◌==◌,
  string_eq, is_nil, any, or_else, Map, lookup,
}
use kube_vnet.Prelude.Sorting.{sort}
use kube_vnet.Objects.{
  LabelSelector, VirtualNetwork, OwnerReference, NetworkPolicyPeer, NetworkPolicyIngressRule,
  NetworkPolicy,
}
use kube_vnet.Direction.{Direction, direction_eq, text}
use kube_vnet.Keys.{system_label_key}
use kube_vnet.Policies.{
  label_network, label_role, namespace_metadata_name_label, policy_name, managed_labels,
}
use kube_vnet.Resolution.{by_text}

abbrev pub MembersByNs : Type 0
MembersByNs = Map String (Map Direction (List String))

pub record GenerateInput : Type 0 where
  pub vnet : VirtualNetwork
  pub members_by_ns : MembersByNs

abbrev pub self_values_receiver : List String
self_values_receiver = text Direction.both ∷ text Direction.ingress ∷ []

abbrev pub peer_initiator_values : List String
peer_initiator_values = text Direction.both ∷ text Direction.egress ∷ []

-- The pods of a direction, none for a missing key.
abbrev pub bucket : Direction → Map Direction (List String) → List String
bucket d by_dir = or_else (lookup d by_dir) []

unfoldable pub has_receiver : Map Direction (List String) → Bool
has_receiver by_dir =
    not (is_nil (bucket Direction.both by_dir)) || not (is_nil (bucket Direction.ingress by_dir))

unfoldable pub has_initiator : Map Direction (List String) → Bool
has_initiator by_dir =
    not (is_nil (bucket Direction.both by_dir)) || not (is_nil (bucket Direction.egress by_dir))

abbrev pub members_of : MembersByNs → String → Map Direction (List String)
members_of m ns = or_else (lookup ns m) []

unfoldable pub with_pods : MembersByNs → List String
with_pods [] = []
with_pods ((ns, by_dir) ∷ m) =
    let rest = with_pods m in
    if any (λ (_, pods). not (is_nil pods)) by_dir then ns ∷ rest else rest

unfoldable pub member_namespaces : MembersByNs → List String
member_namespaces m = sort by_text (with_pods m)

abbrev pub in_values : String → List String → LabelSelector
in_values key values = record {
  match_labels = [];
  match_expressions = record { key = key; operator = "In"; values = values } ∷ [];
}

abbrev pub named_namespace : String → LabelSelector
named_namespace ns = record {
  match_labels = (namespace_metadata_name_label, ns) ∷ [];
  match_expressions = [];
}

unfoldable pub peer_froms : MembersByNs → String → List String → List NetworkPolicyPeer
peer_froms m key [] = []
peer_froms m key (ns ∷ nss) =
    let rest = peer_froms m key nss in
    if has_initiator (members_of m ns)
    then record {
      namespace_selector = some (named_namespace ns);
      pod_selector = some (in_values key peer_initiator_values);
      ip_block = none;
    }
      ∷ rest
    else rest

unfoldable pub ingress_of : List NetworkPolicyPeer → List NetworkPolicyIngressRule
ingress_of froms = if is_nil froms then [] else record { from = froms; ports = [] } ∷ []

unfoldable pub owners_of : VirtualNetwork → String → List OwnerReference
owners_of vnet ns =
    if ns == vnet.namespace
    then record {
      kind = "VirtualNetwork";
      name = vnet.name;
      uid = vnet.uid;
      controller = some true;
    }
      ∷ []
    else []

module _ (hash8 : String → String) where
  unfoldable pub membership_policy :
      VirtualNetwork → String → List NetworkPolicyPeer → String → NetworkPolicy
  membership_policy vnet key froms ns = record {
    namespace = ns;
    name = policy_name hash8 vnet.name vnet.namespace;
    labels =
        managed_labels
          ((label_network, vnet.namespace +++ "." +++ vnet.name) ∷ (label_role, "membership") ∷ []);
    annotations = [];
    owner_references = owners_of vnet ns;
    deleting = false;
    spec = record {
      pod_selector = in_values key self_values_receiver;
      ingress = ingress_of froms;
      policy_types = "Ingress" ∷ [];
    };
  }

  unfoldable pub policies_in :
      VirtualNetwork
      → MembersByNs
      → String
      → List NetworkPolicyPeer
      → List String
      → List NetworkPolicy
  policies_in vnet m key froms [] = []
  policies_in vnet m key froms (ns ∷ nss) =
      let rest = policies_in vnet m key froms nss in
      if has_receiver (members_of m ns) then membership_policy vnet key froms ns ∷ rest else rest

  unfoldable pub generate : GenerateInput → List NetworkPolicy
  generate input =
      let nss = member_namespaces input.members_by_ns in
      let key = system_label_key input.vnet.namespace input.vnet.name in
      policies_in input.vnet input.members_by_ns key (peer_froms input.members_by_ns key nss) nss
