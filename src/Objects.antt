-- ===== src/Objects.antt =====
-- The API objects (api/v1alpha1/*_types.go, and the fields of the Kubernetes types that the
-- operator reads or writes). Pointers are `Option`, times of deletion are whether they are set.
use kube_vnet.Prelude.{
  ℕ, String, ◌≡◌, ◌↔◌, Bool, true, ◌&&◌, Option, List, Map, Eq, ◌==◌, string_eq, arith,
}

abbrev pub Labels : Type 0
Labels = Map String String

pub record ObjectKey : Type 0 where
  pub namespace : String
  pub name : String

pub object_key_beq_iff :
    (a b : ObjectKey) → ((a.namespace == b.namespace && a.name == b.name) ≡ true) ↔ (a ≡ b)
object_key_beq_iff a b =
    ground (arith, string_eq.beq_iff a.namespace b.namespace, string_eq.beq_iff a.name b.name)

instance abbrev pub object_key_eq : Eq ObjectKey
object_key_eq = record {
  beq = λ a b. a.namespace == b.namespace && a.name == b.name;
  beq_iff = object_key_beq_iff;
}

-- metav1.LabelSelector; its meaning is that of `LabelSelectorAsSelector` (Cluster).
pub record LabelSelectorRequirement : Type 0 where
  pub key : String
  pub operator : String
  pub values : List String

pub record LabelSelector : Type 0 where
  pub match_labels : Labels
  pub match_expressions : List LabelSelectorRequirement

-- virtualnetwork_types.go
pub record NamespaceSelector : Type 0 where
  pub all : Bool
  pub names : List String
  pub selector : Option LabelSelector

pub record VirtualNetwork : Type 0 where
  pub namespace : String
  pub name : String
  pub uid : String
  pub labels : Labels
  pub deleting : Bool
  pub allowed_namespaces : Option NamespaceSelector

-- virtualnetworkbinding_types.go
pub record VirtualNetworkRef : Type 0 where
  pub name : String
  pub namespace : String

pub record VirtualNetworkBinding : Type 0 where
  pub namespace : String
  pub name : String
  pub virtual_network_ref : VirtualNetworkRef
  pub direction : String
  pub pod_selector : LabelSelector

-- clustervirtualnetworkbaseline_types.go, virtualnetworkbaseline_types.go
pub record BaselineMembership : Type 0 where
  pub virtual_network_ref : VirtualNetworkRef
  pub direction : String

pub record Baseline : Type 0 where
  pub memberships : List BaselineMembership

-- corev1
pub record Namespace : Type 0 where
  pub name : String
  pub labels : Labels
  pub annotations : Labels
  pub deleting : Bool

pub data Protocol : Type 0 where
  tcp udp sctp : Protocol

-- `protocol` is `none` where the field is empty, `host_port` is 0 where it is not set.
pub record ContainerPort : Type 0 where
  pub name : String
  pub container_port : ℕ
  pub host_port : ℕ
  pub protocol : Option Protocol

pub record Container : Type 0 where
  pub name : String
  pub image : String
  pub args : List String
  pub ports : List ContainerPort
  pub restart_policy : Option String

pub record Pod : Type 0 where
  pub namespace : String
  pub name : String
  pub uid : String
  pub generation : ℕ
  pub deleting : Bool
  pub labels : Labels
  pub annotations : Labels
  pub host_network : Bool
  pub containers : List Container
  pub init_containers : List Container

-- networkingv1
pub record OwnerReference : Type 0 where
  pub kind : String
  pub name : String
  pub uid : String
  pub controller : Option Bool

pub record NetworkPolicyPeer : Type 0 where
  pub namespace_selector : Option LabelSelector
  pub pod_selector : Option LabelSelector
  pub ip_block : Option String

pub record NetworkPolicyPort : Type 0 where
  pub protocol : Protocol
  pub port : ℕ

pub record NetworkPolicyIngressRule : Type 0 where
  pub from : List NetworkPolicyPeer
  pub ports : List NetworkPolicyPort

pub record NetworkPolicySpec : Type 0 where
  pub pod_selector : LabelSelector
  pub ingress : List NetworkPolicyIngressRule
  pub policy_types : List String

pub record NetworkPolicy : Type 0 where
  pub namespace : String
  pub name : String
  pub labels : Labels
  pub annotations : Labels
  pub owner_references : List OwnerReference
  pub deleting : Bool
  pub spec : NetworkPolicySpec
