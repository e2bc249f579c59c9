-- ===== src/Exposure.antt =====
-- internal/controller/external_allow_controller.go and pod_ports.go: which Services are exposed, and
-- the policies that let clients reach the pods behind them.
pub mod Ports
pub mod Bounds
use Prim.Native.String.{◌++◌ as ◌+++◌}
use kube_vnet.Prelude.{
  ℕ, String, Bool, true, false, not, ◌&&◌, ◌||◌, Option, none, some, List, [], ◌∷◌, ◌++◌,
  if◌then◌else◌, leb, ltb, ◌-◌, ◌==◌, string_eq, nat_eq, nat_beq, is_nil, any, all, or_else,
  is_some, lookup,
}
use kube_vnet.Prelude.Sorting.{sort}
use kube_vnet.Objects.{
  Labels, LabelSelector, Protocol, tcp, ContainerPort, Container, Pod, NetworkPolicyPeer,
  NetworkPolicyPort, NetworkPolicyIngressRule, NetworkPolicy,
}
use kube_vnet.HostPort.{HostPortKey, protocol_number, key_text}
use kube_vnet.Keys.{label_system_host_port_prefix}
use kube_vnet.Namespaces.{value_at}
use kube_vnet.Policies.{
  label_role, label_source_kind, label_source, managed_labels, source_label_value, text_length,
  text_take,
}

-- corev1.ServiceSpec; a type that the API does not name is `other`.
pub data ServiceType : Type 0 where
  cluster_ip node_port load_balancer external_name : ServiceType
  unset_type : ServiceType

-- intstr.IntOrString
pub data TargetPort : Type 0 where
  int_port : ℕ → TargetPort
  named_port : String → TargetPort

pub record ServicePort : Type 0 where
  pub port : ℕ
  pub protocol : Option Protocol
  pub target_port : TargetPort

pub record Service : Type 0 where
  pub namespace : String
  pub name : String
  pub uid : String
  pub annotations : Labels
  pub service_type : ServiceType
  pub cluster_ip : String
  pub external_ips : List String
  pub selector : Labels
  pub ports : List ServicePort

unfoldable pub exposed_type : ServiceType → List String → Bool
exposed_type load_balancer ips = true
exposed_type node_port ips = true
exposed_type cluster_ip ips = not (is_nil ips)
exposed_type unset_type ips = not (is_nil ips)
exposed_type external_name ips = false

-- `isExternallyExposed`, of a Service that is there.
unfoldable pub is_externally_exposed : Service → Bool
is_externally_exposed svc =
    if svc.cluster_ip == "None" then false else exposed_type svc.service_type svc.external_ips

-- `labels[k] != v`: a missing key has the empty value.
unfoldable pub labels_match_selector : Labels → Labels → Bool
labels_match_selector labels selector =
    not (is_nil selector) && all (λ (k, v). value_at k labels == v) selector

-- pod_ports.go: the containers whose named ports count, native sidecars last.
abbrev is_sidecar : Container → Bool
is_sidecar c = elim c.restart_policy [ none ↦ false | some p ↦ p == "Always" ]

unfoldable pub sidecars : List Container → List Container
sidecars [] = []
sidecars (c ∷ cs) = let rest = sidecars cs in if is_sidecar c then c ∷ rest else rest

unfoldable pub named_port_containers : Pod → List Container
named_port_containers pod = pod.containers ++ sidecars pod.init_containers

unfoldable pub ports_named : String → List ContainerPort → List ℕ
ports_named name [] = []
ports_named name (cp ∷ cps) =
    let rest = ports_named name cps in if cp.name == name then cp.container_port ∷ rest else rest

unfoldable pub containers_named : String → List Container → List ℕ
containers_named name [] = []
containers_named name (c ∷ cs) = ports_named name c.ports ++ containers_named name cs

unfoldable pub pods_named : String → Labels → List Pod → List ℕ
pods_named name selector [] = []
pods_named name selector (p ∷ ps) =
    let rest = pods_named name selector ps in
    if labels_match_selector p.labels selector
    then containers_named name (named_port_containers p) ++ rest
    else rest

-- `slices.Compact`
unfoldable pub compact : List ℕ → List ℕ
compact [] = []
compact (x ∷ []) = x ∷ []
compact (x ∷ y ∷ ys) = let rest = compact (y ∷ ys) in if nat_beq x y then rest else x ∷ rest

-- `none` is errNamedPortUnresolvable.
abbrev pub resolved_named : List ℕ → Option (List ℕ)
resolved_named out = if is_nil out then none else some (compact (sort leb out))

abbrev target_ports : TargetPort → ℕ → Labels → List Pod → Option (List ℕ)
target_ports (int_port n) port selector pods = some ((if nat_beq n 0 then port else n) ∷ [])
target_ports (named_port s) port selector pods =
    if s == "" then some (port ∷ []) else resolved_named (pods_named s selector pods)

unfoldable pub resolve_target_ports : ServicePort → Labels → List Pod → Option (List ℕ)
resolve_target_ports sp selector pods = target_ports sp.target_port sp.port selector pods

abbrev pub same_port : Protocol → ℕ → NetworkPolicyPort → Bool
same_port proto port p =
    nat_beq (protocol_number p.protocol) (protocol_number proto) && nat_beq p.port port

unfoldable pub append_policy_port : List NetworkPolicyPort → Protocol → ℕ → List NetworkPolicyPort
append_policy_port ports proto port =
    if any (same_port proto port) ports
    then ports
    else ports ++ (record { protocol = proto; port = port } ∷ [])

unfoldable pub append_ports : List NetworkPolicyPort → Protocol → List ℕ → List NetworkPolicyPort
append_ports ports proto [] = ports
append_ports ports proto (tp ∷ tps) = append_ports (append_policy_port ports proto tp) proto tps

-- The loop over the Service's ports; one that cannot be resolved fails the whole Service.
unfoldable pub policy_ports :
    List NetworkPolicyPort → List ServicePort → Labels → List Pod → Option (List NetworkPolicyPort)
policy_ports ports [] selector pods = some ports
policy_ports ports (sp ∷ sps) selector pods =
    let found = resolve_target_ports sp selector pods in
    let rest =
      policy_ports (append_ports ports (or_else sp.protocol tcp) (or_else found [])) sps selector
        pods in
    if is_some found then rest else none

abbrev pub any_address : String
any_address = "0.0.0.0/0"

-- `externalAllowPolicy`
unfoldable pub external_allow_policy :
    (name ns source_kind source : String) → Labels → String → List NetworkPolicyPort → NetworkPolicy
external_allow_policy name ns source_kind source pod_selector cidr ports = record {
  namespace = ns;
  name = name;
  labels = managed_labels (
      (label_role, "external-allow")
      ∷ (label_source_kind, source_kind)
      ∷ (label_source, source)
      ∷ []);
  annotations = [];
  owner_references = [];
  deleting = false;
  spec = record {
    pod_selector = record { match_labels = pod_selector; match_expressions = [] };
    ingress =
        record {
          from =
              record { namespace_selector = none; pod_selector = none; ip_block = some cidr } ∷ [];
          ports = ports;
        }
        ∷ [];
    policy_types = "Ingress" ∷ [];
  };
}

-- `claimedByOtherSourceKind`
unfoldable pub claimed_by_other_source_kind : NetworkPolicy → Bool
claimed_by_other_source_kind p = elim (lookup label_source_kind p.labels) [
  | none ↦ false
  | some sk ↦ not (sk == "svc")
]

module _ (hash8 : String → String) where
  -- `servicePolicyName`: the name is cut so that 63 characters suffice.
  unfoldable pub service_policy_name : (source_kind ns name : String) → String
  service_policy_name source_kind ns name =
      let prefix = "kube-vnet.ext." +++ source_kind +++ "." in
      prefix
      +++ text_take (63 - text_length prefix - 1 - 8) name
      +++ "-"
      +++ hash8 (ns +++ "/" +++ name)

  -- The policy, `some none` for a Service that needs none, and `none` while a named port is not
  -- resolvable.
  unfoldable pub build_external_allow_policy : Service → List Pod → Option (Option NetworkPolicy)
  build_external_allow_policy svc pods =
      if not (is_externally_exposed svc) || is_nil svc.selector
      then some none
      else elim (policy_ports [] svc.ports svc.selector pods) [
        | none ↦ none
        | some ports ↦ some (
            some (
              external_allow_policy (service_policy_name "svc" svc.namespace svc.name) svc.namespace
                "svc" (source_label_value hash8 "svc-" svc.namespace svc.name) svc.selector
                any_address ports))
      ]
