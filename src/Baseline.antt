-- ===== src/Baseline.antt =====
-- internal/controller/namespace_reconciler.go: the baseline policy of each managed namespace.
pub mod Isolation
use kube_vnet.Prelude.{
  String, Bool, true, false, not, Option, none, some, List, [], ◌∷◌, ◌++◌, if◌then◌else◌, ◌==◌,
  string_eq,
}
use kube_vnet.Effects.{Error, Result, ok, err, Fetch, found, not_found, failed, ObjectRef, Event}
use kube_vnet.Objects.{ObjectKey, object_key_eq, Namespace, NetworkPolicy}
use kube_vnet.Namespaces.{NamespaceFilter, is_managed}
use kube_vnet.Policies.{label_role, desired_baseline}
use kube_vnet.Sweep.{
  Policies, Api, ListOptions, key_of, in_namespace_policy_labels, apply_policy,
  sweep_stale_policies,
}
use kube_vnet.Signals.{
  PolicyTracker, tracker_applied, tracker_forget_namespace, apply_failed, policy_restored,
}

-- What a reconcile works on: the policies of the API server and the process's memory of them.
pub record World : Type 0 where
  pub policies : Policies
  pub restores : PolicyTracker

-- What a reconcile leaves, the error that makes it retry, and the Events that it wrote.
pub record Outcome : Type 0 where
  pub world : World
  pub error : Option Error
  pub events : List Event

abbrev pub policy_ref : NetworkPolicy → ObjectRef
policy_ref p = record { kind = "NetworkPolicy"; namespace = p.namespace; name = p.name }

abbrev pub done : World → Outcome
done w = record { world = w; error = none; events = [] }

abbrev pub failing : World → Error → Outcome
failing w e = record { world = w; error = some e; events = [] }

abbrev pub keeps_none : ObjectKey → Bool
keeps_none k = false

abbrev pub skips_none : NetworkPolicy → Bool
skips_none p = false

abbrev pub baselines : String → ListOptions
baselines ns = in_namespace_policy_labels ns ((label_role, "baseline") ∷ [])

abbrev pub forgotten : String → World → World
forgotten ns w = record w { restores = tracker_forget_namespace ns keeps_none w.restores }

module _ (api : Api) (filter : NamespaceFilter) (recorder : Bool) where
  abbrev swept_outcome : World → List Event → Policies × Option Error → Outcome
  swept_outcome w events (ps, e) = record {
    world = record w { policies = ps };
    error = e;
    events = events;
  }

  -- Leftovers in a namespace that is not managed.
  unfoldable pub sweep_unmanaged : String → World → Outcome
  sweep_unmanaged ns w =
      swept_outcome (forgotten ns w) []
        (sweep_stale_policies api (baselines ns) keeps_none skips_none w.policies)

  abbrev restored_events : NetworkPolicy → Bool → List Event
  restored_events desired restored =
      if restored then policy_restored recorder (policy_ref desired) [] else []

  abbrev pub keeps_only : NetworkPolicy → ObjectKey → Bool
  keeps_only p k = k == key_of p

  -- After the apply: the tracker, and the sweep of baselines under other names.
  unfoldable pub after_apply : String → NetworkPolicy → World → Policies × Result Bool → Outcome
  after_apply ns desired w (ps, err e) = record {
    world = record w { policies = ps };
    error = some e;
    events = apply_failed recorder (policy_ref desired) (desired.name ∷ e ∷ []);
  }
  after_apply ns desired w (ps, ok created) =
      let (restores, restored) = tracker_applied (key_of desired) created w.restores in
      swept_outcome (record w { restores = restores }) (restored_events desired restored)
        (sweep_stale_policies api (baselines ns) (keeps_only desired) skips_none ps)

  unfoldable pub reconcile_managed : String → World → Outcome
  reconcile_managed ns w =
      let desired = desired_baseline ns in
      after_apply ns desired w (apply_policy api desired w.policies)

  abbrev reconcile_found : Namespace → World → Outcome
  reconcile_found ns w =
      if ns.deleting
      then done w
      else if is_managed filter (some ns)
      then reconcile_managed ns.name w
      else sweep_unmanaged ns.name w

  -- `NamespaceReconciler.Reconcile`
  unfoldable pub reconcile_namespace : String → Fetch Namespace → World → Outcome
  reconcile_namespace name not_found w = done (forgotten name w)
  reconcile_namespace name (failed e) w = failing w e
  reconcile_namespace name (found ns) w = reconcile_found ns w
