-- ===== src/ServiceSource/Watching.antt =====
-- internal/controller/external_allow_controller.go: which events run the reconcile of a Service again.
use kube_vnet.Prelude.{
  String, Bool, true, false, not, ◌&&◌, List, [], if◌then◌else◌, ◌==◌, string_eq, bool_eq, any,
  select, map,
}
use kube_vnet.Effects.{Result, ok, err}
use kube_vnet.Objects.{Labels, ObjectKey}
use kube_vnet.Namespaces.{value_at}
use kube_vnet.Policies.{label_managed_by, label_managed_by_value, label_role, label_source_kind}
use kube_vnet.Sweep.{maps_equal}
use kube_vnet.Exposure.{Service, TargetPort, int_port, named_port, labels_match_selector}

-- `externalAllowPolicyPredicate`
unfoldable pub external_allow_policy_event : (source_kind : String) → Labels → Bool
external_allow_policy_event source_kind l =
    value_at label_managed_by l == label_managed_by_value
    && (value_at label_role l == "external-allow" && value_at label_source_kind l == source_kind)

abbrev is_named : TargetPort → Bool
is_named (int_port n) = false
is_named (named_port s) = not (s == "")

unfoldable pub has_named_target_port : Service → Bool
has_named_target_port svc = any (λ sp. is_named sp.target_port) svc.ports

abbrev key_of_service : Service → ObjectKey
key_of_service svc = record { namespace = svc.namespace; name = svc.name }

-- `servicesInNamespace`, on the outcome of listing the namespace's Services.
unfoldable pub services_in_namespace : Result (List Service) → (Service → Bool) → List ObjectKey
services_in_namespace (err e) keep = []
services_in_namespace (ok svcs) keep = map key_of_service (select keep svcs)

unfoldable pub namespace_to_services : Result (List Service) → List ObjectKey
namespace_to_services svcs = services_in_namespace svcs (λ svc. true)

abbrev selecting : Result (List Service) → (affected : Labels → Bool) → List ObjectKey
selecting svcs affected =
    services_in_namespace svcs (λ svc. has_named_target_port svc && affected svc.selector)

-- `podToSelectingServices`: a create or a delete of a pod, and an update.
unfoldable pub pod_to_selecting_services : Result (List Service) → Labels → List ObjectKey
pod_to_selecting_services svcs labels = selecting svcs (λ sel. labels_match_selector labels sel)

unfoldable pub update_to_selecting_services :
    Result (List Service) → (old new : Labels) → List ObjectKey
update_to_selecting_services svcs old new =
    if maps_equal old new
    then []
    else selecting svcs
        (λ sel. not (labels_match_selector old sel == labels_match_selector new sel))
