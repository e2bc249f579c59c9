-- ===== src/ServiceSource.antt =====
-- internal/controller/external_allow_controller.go: the reconcile of the policies that a Service owns,
-- for either kind of source. `controllerutil.SetControllerReference` and the Service's policy of the
-- kind are parameters.
pub mod Owning
pub mod Sources
pub mod Watching
pub mod Withdrawing
use kube_vnet.Prelude.{
  String, Bool, true, false, not, ◌&&◌, ◌||◌, Option, none, some, List, [], ◌∷◌, ◌++◌,
  if◌then◌else◌, ◌==◌, string_eq, is_nil, any, ℕ,
}
use kube_vnet.Effects.{
  Error, Result, ok, err, Fetch, found, not_found, failed, ObjectRef, Event, normal, warning,
}
use kube_vnet.Objects.{
  Labels, ObjectKey, object_key_eq, Namespace, Pod, NetworkPolicy, NetworkPolicyPort,
}
use kube_vnet.Cluster.{Cluster}
use kube_vnet.Namespaces.{NamespaceFilter, is_managed, value_at, external_allow_opted_out}
use kube_vnet.Policies.{
  label_managed_by, label_managed_by_value, label_role, label_source_kind, label_source,
  source_label_value,
}
use kube_vnet.Sweep.{
  Policies, Api, ListOptions, key_of, maps_equal, in_namespace_policy_labels, has_controller_owner,
  apply_policy, sweep_stale_policies,
}
use kube_vnet.Signals.{
  PolicyTracker, OnceSet, eventf, apply_failed, policy_restored, tracker_applied, tracker_forget,
  once_first, once_clear, once_forget,
}
use kube_vnet.Baseline.{policy_ref, keeps_none, skips_none}
use kube_vnet.Exposure.{
  Service, ServicePort, TargetPort, int_port, named_port, is_externally_exposed,
  labels_match_selector, external_allow_policy, claimed_by_other_source_kind, service_policy_name,
  build_external_allow_policy,
}
unfoldable pub use kube_vnet.ServiceSource.Sources.{svc_source_policies}
pub use kube_vnet.ServiceSource.Sources.{
  ServiceSource, apiserver_policies, Desired, policy, unresolvable, broken, service_ref,
  desired_external_allow,
}

pub record ServiceWorld : Type 0 where
  pub policies : Policies
  pub restores : PolicyTracker
  pub pending : OnceSet

-- The time after which the reconcile runs again is in seconds, 0 for none.
pub record ServiceOutcome : Type 0 where
  pub world : ServiceWorld
  pub error : Option Error
  pub events : List Event
  pub requeue_after : ℕ

abbrev pub service_outcome : ServiceWorld → Option Error → List Event → ServiceOutcome
service_outcome w e events = record { world = w; error = e; events = events; requeue_after = 0 }

abbrev service_key : Service → ObjectKey
service_key svc = record { namespace = svc.namespace; name = svc.name }

abbrev pub unresolved_reason : String
unresolved_reason = "NamedPortUnresolved"

module _ (hash8 : String → String) (source : ServiceSource) where
  -- `serviceSource.policy`
  unfoldable pub source_policy :
      Service → (name cidr : String) → List NetworkPolicyPort → NetworkPolicy
  source_policy svc name cidr ports =
      external_allow_policy name svc.namespace source.kind
        (source_label_value hash8 source.prefix svc.namespace svc.name) svc.selector cidr ports

  abbrev pub forget_policy : (ns name : String) → ServiceWorld → ServiceWorld
  forget_policy ns name w = record w {
    restores =
        tracker_forget
          (record { namespace = ns; name = service_policy_name hash8 source.kind ns name })
          w.restores;
  }

  module _ (api : Api) (recorder : Bool)
      (set_controller_reference : Service → NetworkPolicy → Result NetworkPolicy) where
    abbrev pub owned_policies : Service → ListOptions
    owned_policies svc = in_namespace_policy_labels svc.namespace source.sweep_labels

    abbrev pub keeps_named : Service → String → ObjectKey → Bool
    keeps_named svc keep k = k == record { namespace = svc.namespace; name = keep }

    abbrev pub spares_others : Service → NetworkPolicy → Bool
    spares_others svc p =
        not (has_controller_owner p.owner_references "Service" svc.name svc.uid) || source.skip p

    -- `serviceSource.sweep`
    unfoldable pub sweep_service : Service → (keep : String) → Policies → Policies × Option Error
    sweep_service svc keep ps =
        sweep_stale_policies api (owned_policies svc) (keeps_named svc keep) (spares_others svc) ps

    unfoldable pub delete_by_service_key : (ns name : String) → Policies → Policies × Option Error
    delete_by_service_key ns name ps =
        sweep_stale_policies api
          (in_namespace_policy_labels ns (
            (label_role, "external-allow")
            ∷ (label_source_kind, source.kind)
            ∷ (label_source, source_label_value hash8 source.prefix ns name)
            ∷ []))
          keeps_none skips_none ps

    abbrev pub with_policies : ServiceWorld → List Event → Policies × Option Error → ServiceOutcome
    with_policies w events (ps, e) = service_outcome (record w { policies = ps }) e events

    -- Nothing is wanted: the Service's policies go.
    unfoldable pub withdraw : Service → List Event → ServiceWorld → ServiceOutcome
    withdraw svc events w =
        with_policies (forget_policy svc.namespace svc.name w) events
          (sweep_service svc "" w.policies)

    abbrev wait_events : Service → Bool → List Event
    wait_events svc is_first =
        if is_first
        then eventf recorder (service_ref svc) normal unresolved_reason
            (source.what ∷ source.who ∷ [])
        else []

    -- A named port without a pod: the wait is reported once.
    abbrev await_pods : Service → List Event → ServiceWorld → ServiceOutcome
    await_pods svc events w =
        let (pending, is_first) =
          once_first (service_key svc) svc.uid unresolved_reason w.pending in
        record {
          world = record w { pending = pending };
          error = none;
          events = events ++ wait_events svc is_first;
          requeue_after = 30;
        }

    abbrev restore_events : Service → NetworkPolicy → Bool → List Event
    restore_events svc p restored =
        if restored
        then policy_restored recorder (policy_ref p) (source.who ∷ svc.name ∷ [])
        else []

    -- After the apply: the tracker, and the sweep of the Service's other policies.
    abbrev pub after_apply :
        Service
        → NetworkPolicy
        → List Event
        → ServiceWorld
        → Policies × Result Bool
        → ServiceOutcome
    after_apply svc p events w (ps, err e) =
        service_outcome (record w { policies = ps }) (some e)
          (events
            ++ apply_failed recorder (service_ref svc) (source.what ∷ p.name ∷ e ∷ source.who ∷ []))
    after_apply svc p events w (ps, ok created) =
        let (restores, restored) = tracker_applied (key_of p) created w.restores in
        with_policies (record w { restores = restores }) (events ++ restore_events svc p restored)
          (sweep_service svc p.name ps)

    abbrev pub apply_owned :
        Service → List Event → ServiceWorld → Result NetworkPolicy → ServiceOutcome
    apply_owned svc events w (err e) = service_outcome w (some e) events
    apply_owned svc events w (ok p) = after_apply svc p events w (apply_policy api p w.policies)

    abbrev pub provide : Service → List Event × Desired → ServiceWorld → ServiceOutcome
    provide svc (events, unresolvable) w = await_pods svc events w
    provide svc (events, broken e) w = service_outcome w (some e) events
    provide svc (events, policy none) w = withdraw svc events w
    provide svc (events, policy (some p)) w =
        apply_owned svc events w (set_controller_reference svc p)

    abbrev pub is_waiting : Desired → Bool
    is_waiting unresolvable = true
    is_waiting _ = false

    -- The deferred step: any outcome but another wait ends the current one.
    abbrev pub cleared : Service → ServiceOutcome → ServiceOutcome
    cleared svc o = record o {
      world = record o.world {
        pending = once_clear (service_key svc) unresolved_reason o.world.pending;
      };
    }

    abbrev pub opted_out : NamespaceFilter → Service → Namespace → Bool
    opted_out filter svc ns =
        not (is_managed filter (some ns))
        || (external_allow_opted_out ns.annotations || external_allow_opted_out svc.annotations)

    abbrev pub serve : Service → List Event × Desired → ServiceWorld → ServiceOutcome
    serve svc desired w =
        if is_waiting desired.1 then provide svc desired w else cleared svc (provide svc desired w)

    abbrev pub in_service_namespace :
        NamespaceFilter
        → Service
        → List Event × Desired
        → Fetch Namespace
        → ServiceWorld
        → ServiceOutcome
    in_service_namespace filter svc desired not_found w =
        cleared svc (service_outcome (forget_policy svc.namespace svc.name w) none [])
    in_service_namespace filter svc desired (failed e) w =
        cleared svc (service_outcome w (some e) [])
    in_service_namespace filter svc desired (found ns) w =
        if ns.deleting
        then cleared svc (service_outcome w none [])
        else if opted_out filter svc ns
        then cleared svc (withdraw svc [] w)
        else serve svc desired w

    -- `serviceSource.reconcile`, on the outcomes of reading the Service and of `desired`.
    unfoldable pub reconcile_service :
        Cluster
        → NamespaceFilter
        → ObjectKey
        → Fetch Service
        → (Service → List Event × Desired)
        → ServiceWorld
        → ServiceOutcome
    reconcile_service c filter request not_found desired w =
        with_policies
          (record (forget_policy request.namespace request.name w) {
            pending = once_forget request w.pending;
          })
          [] (delete_by_service_key request.namespace request.name w.policies)
    reconcile_service c filter request (failed e) desired w = service_outcome w (some e) []
    reconcile_service c filter request (found svc) desired w =
        in_service_namespace filter svc (desired svc) (c.get_namespace request.namespace) w
