-- ===== src/ServiceSource/Sources.antt =====
-- internal/controller/external_allow_controller.go: the two kinds of source of Service-owned
-- policies, and what an exposed Service calls for.
use kube_vnet.Prelude.{
  String, Bool, ◌&&◌, Option, none, some, List, [], ◌∷◌, if◌then◌else◌, string_eq, is_nil,
}
use kube_vnet.Effects.{Error, Result, ok, err, ObjectRef, Event, warning}
use kube_vnet.Objects.{Labels, object_key_eq, Pod, NetworkPolicy}
use kube_vnet.Policies.{label_role, label_source_kind}
use kube_vnet.Signals.{eventf}
use kube_vnet.Baseline.{skips_none}
use kube_vnet.Exposure.{
  Service, is_externally_exposed, claimed_by_other_source_kind, build_external_allow_policy,
}

-- `serviceSource`; the kind of the metric is left out.
pub record ServiceSource : Type 0 where
  pub kind : String
  pub prefix : String
  pub what : String
  pub who : String
  pub sweep_labels : Labels
  pub skip : NetworkPolicy → Bool

unfoldable pub svc_source_policies : ServiceSource
svc_source_policies = record {
  kind = "svc";
  prefix = "svc-";
  what = "external-allow";
  who = "external clients";
  sweep_labels = (label_role, "external-allow") ∷ [];
  skip = claimed_by_other_source_kind;
}

unfoldable pub apiserver_policies : ServiceSource
apiserver_policies = record {
  kind = "apiserver";
  prefix = "apiserver-";
  what = "apiserver-reachable";
  who = "the kube-apiserver";
  sweep_labels = (label_role, "external-allow") ∷ (label_source_kind, "apiserver") ∷ [];
  skip = skips_none;
}

-- The outcome of `desired`: the policy or none, an unresolvable named port, or another error.
pub data Desired : Type 0 where
  policy : Option NetworkPolicy → Desired
  unresolvable : Desired
  broken : Error → Desired

abbrev pub service_ref : Service → ObjectRef
service_ref svc = record { kind = "Service"; namespace = svc.namespace; name = svc.name }

-- `ExternalAllowReconciler.desired`, on the outcome of listing the namespace's pods.
unfoldable pub desired_external_allow :
    (String → String) → (recorder : Bool) → Service → Result (List Pod) → List Event × Desired
desired_external_allow hash8 recorder svc (err e) = ([], broken e)
desired_external_allow hash8 recorder svc (ok pods) =
    elim (build_external_allow_policy hash8 svc pods) [
      | none ↦ ([], unresolvable)
      | some none ↦ (
        if is_externally_exposed svc && is_nil svc.selector
            then eventf recorder (service_ref svc) warning "ServiceHasNoSelector" []
            else [],
        policy none,
      )
      | some (some p) ↦ ([], policy (some p))
    ]
