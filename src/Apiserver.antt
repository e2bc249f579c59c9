-- ===== src/Apiserver.antt =====
-- internal/controller/apiserver_reachable_controller.go: the Services that the apiserver dials, and
-- the policies that let it reach the pods behind them.
use kube_vnet.Prelude.{
  ℕ, String, Bool, true, false, ◌&&◌, ◌||◌, Option, none, some, List, [], ◌∷◌, ◌++◌, if◌then◌else◌,
  ◌==◌, string_eq, nat_beq, leb, is_nil, any, first?, or_else, is_some,
}
use kube_vnet.Prelude.Sorting.{sort}
use kube_vnet.Effects.{Result, ok, err, ◌>>=◌, Event}
use kube_vnet.Objects.{ObjectKey, object_key_eq, tcp, Pod, NetworkPolicy, NetworkPolicyPort}
use kube_vnet.Namespaces.{apiserver_reachable_opted_in}
use kube_vnet.Exposure.{
  external_name, ServiceType, Service, ServicePort, resolve_target_ports, append_ports, any_address,
  service_policy_name,
}
use kube_vnet.ServiceSource.{
  apiserver_policies, source_policy, Desired, policy, unresolvable, broken,
}

-- A `clientConfig.service` or `spec.service`; an unset port is 0.
pub record ServiceReference : Type 0 where
  pub namespace : String
  pub name : String
  pub port : ℕ

-- `conversion` of a CustomResourceDefinition, whose strategy may be another than Webhook.
pub record Conversion : Type 0 where
  pub is_webhook : Bool
  pub service : Option ServiceReference

-- The discovery resources; a webhook configuration, of either kind, has a list of webhooks.
pub data Discovery : Type 0 where
  webhook_configuration : List (Option ServiceReference) → Discovery
  api_service : Option ServiceReference → Discovery
  custom_resource_definition : Option Conversion → Discovery
  other : Discovery

-- `add`, with the default port.
abbrev with_port : ServiceReference → ServiceReference
with_port s = record s { port = if nat_beq s.port 0 then 443 else s.port }

abbrev pub ref_of : Option ServiceReference → List ServiceReference
ref_of none = []
ref_of (some s) = with_port s ∷ []

abbrev pub refs_of : List (Option ServiceReference) → List ServiceReference
refs_of [] = []
refs_of (s ∷ ss) = ref_of s ++ refs_of ss

abbrev conversion_refs : Option Conversion → List ServiceReference
conversion_refs none = []
conversion_refs (some conversion) = if conversion.is_webhook then ref_of conversion.service else []

unfoldable pub service_refs : Discovery → List ServiceReference
service_refs (webhook_configuration hooks) = refs_of hooks
service_refs (api_service s) = ref_of s
service_refs (custom_resource_definition conversion) = conversion_refs conversion
service_refs other = []

abbrev pub names : ServiceReference → Service → Bool
names ref svc = ref.namespace == svc.namespace && ref.name == svc.name

-- A set of ports, without an order.
abbrev pub add_port : ℕ → List ℕ → List ℕ
add_port port ports = if any (λ p. nat_beq p port) ports then ports else port ∷ ports

abbrev pub add_refs : Service → List ServiceReference → List ℕ → List ℕ
add_refs svc [] ports = ports
add_refs svc (ref ∷ refs) ports =
    add_refs svc refs (if names ref svc then add_port ref.port ports else ports)

abbrev pub add_items : Service → List Discovery → List ℕ → List ℕ
add_items svc [] ports = ports
add_items svc (item ∷ items) ports = add_items svc items (add_refs svc (service_refs item) ports)

-- The loop over the four lists; the first that cannot be listed ends it.
abbrev pub add_lists : Service → List (Result (List Discovery)) → List ℕ → Result (List ℕ)
add_lists svc [] ports = ok ports
add_lists svc (err e ∷ lists) ports = err e
add_lists svc (ok items ∷ lists) ports = add_lists svc lists (add_items svc items ports)

abbrev pub add_own : List ServicePort → List ℕ → List ℕ
add_own [] ports = ports
add_own (sp ∷ sps) ports = add_own sps (add_port sp.port ports)

abbrev own_ports : Service → List ℕ → List ℕ
own_ports svc ports =
    if apiserver_reachable_opted_in svc.annotations then add_own svc.ports ports else ports

unfoldable pub collect_referenced_ports : List (Result (List Discovery)) → Service → Result (List ℕ)
collect_referenced_ports lists svc =
    add_lists svc lists [] >>= λ ports. ok (sort leb (own_ports svc ports))

unfoldable pub find_service_port : Service → ℕ → Option ServicePort
find_service_port svc port = first? (λ sp. nat_beq sp.port port) svc.ports

-- A port that the Service does not declare is taken as it is.
abbrev targets_of : Service → List Pod → ℕ → Option ServicePort → Option (List ℕ)
targets_of svc pods port none = some (port ∷ [])
targets_of svc pods port (some sp) = resolve_target_ports sp svc.selector pods

-- The loop over the ports; one that cannot be resolved fails the whole Service.
unfoldable pub reachable_ports :
    Service → List Pod → List ℕ → List NetworkPolicyPort → Option (List NetworkPolicyPort)
reachable_ports svc pods [] ports = some ports
reachable_ports svc pods (port ∷ rest) ports =
    let found = targets_of svc pods port (find_service_port svc port) in
    let next = reachable_ports svc pods rest (append_ports ports tcp (or_else found [])) in
    if is_some found then next else none

module _ (hash8 : String → String) (source_cidr : String) where
  -- `none` is errNamedPortUnresolvable.
  unfoldable pub build_apiserver_reachable_policy :
      Service → List Pod → List ℕ → Option NetworkPolicy
  build_apiserver_reachable_policy svc pods ports = elim (reachable_ports svc pods ports []) [
    | none ↦ none
    | some policy_ports ↦ some (
        source_policy hash8 apiserver_policies svc
          (service_policy_name hash8 "apiserver" svc.namespace svc.name)
          (if source_cidr == "" then any_address else source_cidr) policy_ports)
  ]

  abbrev is_external_name : ServiceType → Bool
  is_external_name external_name = true
  is_external_name _ = false

  abbrev desired_of : Option NetworkPolicy → Desired
  desired_of none = unresolvable
  desired_of (some p) = policy (some p)

  abbrev with_pods : Service → List ℕ → Result (List Pod) → Desired
  with_pods svc ports (err e) = broken e
  with_pods svc ports (ok pods) = desired_of (build_apiserver_reachable_policy svc pods ports)

  abbrev with_ports : Service → Result (List Pod) → Result (List ℕ) → Desired
  with_ports svc pods (err e) = broken e
  with_ports svc pods (ok ports) = if is_nil ports then policy none else with_pods svc ports pods

  -- `ApiserverReachableReconciler.desired`, on the outcomes of the lists.
  unfoldable pub desired_apiserver_reachable :
      List (Result (List Discovery)) → Result (List Pod) → Service → List Event × Desired
  desired_apiserver_reachable lists pods svc = (
    [],
    if svc.cluster_ip == "None" || (is_external_name svc.service_type || is_nil svc.selector)
        then policy none
        else with_ports svc pods (collect_referenced_ports lists svc),
  )

abbrev ref_key : ServiceReference → ObjectKey
ref_key ref = record { namespace = ref.namespace; name = ref.name }

abbrev add_requests : List ServiceReference → List ObjectKey → List ObjectKey
add_requests [] out = out
add_requests (ref ∷ refs) out =
    if any (λ k. k == ref_key ref) out
    then add_requests refs out
    else add_requests refs (out ++ ref_key ref ∷ [])

-- `discoveryToServices`
unfoldable pub discovery_to_services : Discovery → List ObjectKey
discovery_to_services item = add_requests (service_refs item) []
