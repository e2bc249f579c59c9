-- ===== src/ResolutionReconciler.antt =====
-- internal/controller/resolution_controller.go: the reconcile of a pod, which stamps what the
-- resolver resolves, and the pods that an event runs again.
pub mod Settling
pub mod Reconciling
use Prim.Native.String.{◌++◌ as ◌+++◌}
use kube_vnet.Prelude.{
  String, Bool, true, false, not, ◌&&◌, ◌||◌, Option, none, some, List, [], ◌∷◌, ◌++◌,
  if◌then◌else◌, ◌==◌, string_eq, any, map, lookup,
}
use kube_vnet.Prelude.Sorting.{sort}
use kube_vnet.Prelude.Texts.{has_prefix, strings_join}
use kube_vnet.Effects.{Error, Result, ok, err, Fetch, found, not_found, failed, Event, warning}
use kube_vnet.Effects.Eff.{Eff}
use kube_vnet.Objects.{Labels, ObjectKey, object_key_eq, VirtualNetwork, Namespace, Pod}
use kube_vnet.Cluster.{Cluster}
use kube_vnet.Direction.{Direction, direction_eq, text, bare}
use kube_vnet.Keys.{user_join_prefix, display}
use kube_vnet.Permits.{namespaces_admitted_by}
use kube_vnet.Resolution.{
  by_text, ResolutionRule, ResolutionScope, cluster_baseline, namespace_baseline,
  ResolutionConflict, OverrideRejected, ResolutionResult,
}
use kube_vnet.Resolver.{pod_ref, desired_labels}
use kube_vnet.Stamps.{annotation_resolved_generation, sync_stamps, mark_resolved, clear_resolved}
use kube_vnet.Namespaces.{NamespaceFilter, value_at, is_managed}
use kube_vnet.NetworkWait.{Durations, network_wait_warning, network_wait_missing}
use kube_vnet.Signals.{OnceSet, once_first, once_forget}

-- What a reconcile leaves: the pod that the API server has after a patch that succeeded, the memory of
-- warnings, the error that makes it retry, and the Events.
pub record PodOutcome : Type 0 where
  pub patched : Option Pod
  pub once : OnceSet
  pub error : Option Error
  pub events : List Event

abbrev pub quiet : OnceSet → Option Error → PodOutcome
quiet once e = record { patched = none; once = once; error = e; events = [] }

abbrev pod_key : Pod → ObjectKey
pod_key pod = record { namespace = pod.namespace; name = pod.name }

abbrev pub owns_all : String → Bool
owns_all k = true

abbrev resolved_by_controller : String
resolved_by_controller = "controller"

abbrev pub is_marked : Pod → Bool
is_marked pod = not (value_at annotation_resolved_generation pod.annotations == "")

-- The pod that `applyResolution` patches to, if it patches.
unfoldable pub apply_resolution : Pod → (desired : Labels) → Option Pod
apply_resolution pod desired =
    let (patched, labels_changed) = sync_stamps pod desired owns_all in
    if not labels_changed && is_marked pod
    then none
    else some (mark_resolved patched resolved_by_controller)

-- The pod that `stripStampedLabels` patches to, if it patches.
unfoldable pub strip_stamped_labels : Pod → Option Pod
strip_stamped_labels pod =
    let (patched, labels_changed) = sync_stamps pod [] owns_all in
    let (cleared, markers_changed) = clear_resolved patched in
    if not labels_changed && not markers_changed then none else some cleared

unfoldable pub not_a_member : Direction → String
not_a_member d = if bare d == Direction.none then ": the pod is not a member" else ""

unfoldable pub describe : ResolutionScope → String
describe cluster_baseline = "the ClusterVirtualNetworkBaseline"
describe namespace_baseline = "this namespace's VirtualNetworkBaseline"
describe ResolutionScope.pod = "a binding or pod label"

abbrev participant : ResolutionRule → String
participant r = r.source +++ "=" +++ text r.direction

abbrev pod_warning : Pod → (reason : String) → List String → Event
pod_warning pod reason args = record {
  regarding = pod_ref pod;
  event_type = warning;
  reason = reason;
  args = args;
}

abbrev conflict_event : Pod → ResolutionConflict → Event
conflict_event pod conflict = pod_warning pod "ResolutionConflict" (
    display conflict.vnet
    ∷ strings_join ", " (sort by_text (map participant conflict.participants))
    ∷ text conflict.effective
    ∷ not_a_member conflict.effective
    ∷ [])

abbrev override_event : Pod → OverrideRejected → Event
override_event pod o = pod_warning pod "OverrideRejected" (
    display o.vnet
    ∷ describe o.attempted_scope
    ∷ text o.attempted_dir
    ∷ describe o.blocking_scope
    ∷ text o.blocking_dir
    ∷ [])

abbrev join_keys : Labels → List String
join_keys [] = []
join_keys ((k, v) ∷ m) =
    let rest = join_keys m in if has_prefix k user_join_prefix then k ∷ rest else rest

abbrev excluded_note : (namespace label : String) → String
excluded_note namespace label =
    "namespace \"" +++ namespace +++ "\" is not managed by kube-vnet, so the join label " +++ label
    +++ " has no effect: the pod joins no VirtualNetwork and kube-vnet applies no NetworkPolicy here"

module _ (recorder : Bool) where
  abbrev when_first : Pod → (reason note : String) → OnceSet × Bool → OnceSet × List Event
  when_first pod reason note (once, is_first) =
      (once, if is_first then pod_warning pod reason (note ∷ []) ∷ [] else [])

  -- Without a recorder the memory stays as it is.
  unfoldable pub warn_once : Pod → (reason note : String) → OnceSet → OnceSet × List Event
  warn_once pod reason note once =
      if recorder
      then when_first pod reason note (once_first (pod_key pod) pod.uid reason once)
      else (once, [])

  unfoldable pub warn_narrowed_membership : Pod → ResolutionResult → List Event
  warn_narrowed_membership pod res =
      if recorder
      then map (conflict_event pod) res.conflicts ++ map (override_event pod) res.override_rejected
      else []

  abbrev warn_join : Pod → List String → OnceSet → OnceSet × List Event
  warn_join pod [] once = (once, [])
  warn_join pod (k ∷ ks) once =
      warn_once pod "NamespaceExcluded" (excluded_note pod.namespace k) once

  abbrev warn_wait : Pod → Option String → OnceSet → OnceSet × List Event
  warn_wait pod none once = (once, [])
  warn_wait pod (some w) once = warn_once pod "NetworkWaitSkipped" w once

  module _ (durations : Durations) (wait_enabled : Bool) where
    unfoldable pub warn_unmanaged : Pod → OnceSet → OnceSet × List Event
    warn_unmanaged pod once =
        let (joined, first) = warn_join pod (sort by_text (join_keys pod.labels)) once in
        let (waited, second) =
          warn_wait pod (network_wait_warning durations pod false wait_enabled) joined in
        (waited, first ++ second)

    abbrev wait_note : Pod → Option String → Option String
    wait_note pod (some w) = some w
    wait_note pod none = if wait_enabled then network_wait_missing pod else none

    module _ (c : Cluster) (filter : NamespaceFilter) (patch_error : Pod → Option Error) where
      abbrev pub sent : Option Pod → Option Error
      sent none = none
      sent (some p) = patch_error p

      -- A patch that fails leaves the pod as it was.
      abbrev pub accepted : Option Pod → Option Error → Option Pod
      accepted patch none = patch
      accepted patch (some e) = none

      abbrev pub strip : Pod → OnceSet × List Event → PodOutcome
      strip pod (once, events) =
          let patch = strip_stamped_labels pod in
          record {
            patched = accepted patch (sent patch);
            once = once;
            error = sent patch;
            events = events;
          }

      -- After the patch: its error, or the warnings.
      abbrev pub after_patch :
          Pod → Option Pod → ResolutionResult → List Event → OnceSet → Option Error → PodOutcome
      after_patch pod patch res events once (some e) = record {
        patched = accepted patch (some e);
        once = once;
        error = some e;
        events = events;
      }
      after_patch pod patch res events once none =
          let (waited, skipped) =
            warn_wait pod (wait_note pod (network_wait_warning durations pod true wait_enabled))
              once in
          record {
            patched = accepted patch none;
            once = waited;
            error = none;
            events = events ++ warn_narrowed_membership pod res ++ skipped;
          }

      abbrev pub resolved :
          Pod → List Event × Result (Labels × ResolutionResult) → OnceSet → PodOutcome
      resolved pod (events, err e) once = record {
        patched = none;
        once = once;
        error = some e;
        events = events;
      }
      resolved pod (events, ok (desired, res)) once =
          let patch = apply_resolution pod desired in
          after_patch pod patch res events once (sent patch)

      abbrev in_namespace : Pod → Fetch Namespace → OnceSet → PodOutcome
      in_namespace pod not_found once = quiet once none
      in_namespace pod (failed e) once = quiet once (some e)
      in_namespace pod (found ns) once =
          if is_managed filter (some ns)
          then resolved pod (desired_labels c recorder pod) once
          else strip pod (warn_unmanaged pod once)

      -- `ResolutionReconciler.Reconcile`, on the outcome of reading the pod.
      unfoldable pub reconcile_pod : ObjectKey → Fetch Pod → OnceSet → PodOutcome
      reconcile_pod request not_found once = quiet (once_forget request once) none
      reconcile_pod request (failed e) once = quiet once (some e)
      reconcile_pod request (found pod) once =
          if pod.deleting
          then quiet once none
          else in_namespace pod (c.get_namespace pod.namespace) once

abbrev add_new : List Pod → (seen : List ObjectKey) → List ObjectKey
add_new [] seen = seen
add_new (p ∷ ps) seen =
    if any (λ k. k == pod_key p) seen then add_new ps seen else add_new ps (seen ++ pod_key p ∷ [])

abbrev add_listed : Result (List Pod) → (seen : List ObjectKey) → List ObjectKey
add_listed (err e) seen = seen
add_listed (ok pods) seen = add_new pods seen

abbrev add_pods_in : Cluster → (namespaces : List String) → (seen : List ObjectKey) → List ObjectKey
add_pods_in c [] seen = seen
add_pods_in c (ns ∷ nss) seen = add_pods_in c nss (add_listed (c.list_pods ns) seen)

-- The empty name stands for every namespace.
unfoldable pub pods_in : Cluster → (namespaces : List String) → List ObjectKey
pods_in c namespaces = add_pods_in c namespaces []

abbrev pods_of_admitted : Cluster → Result (List String) → List ObjectKey
pods_of_admitted c (err e) = []
pods_of_admitted c (ok namespaces) = pods_in c namespaces

-- An object that is no vnet is `none`.
unfoldable pub vnet_to_affected_pods : Cluster → Option VirtualNetwork → List ObjectKey
vnet_to_affected_pods c none = []
vnet_to_affected_pods c (some vnet) = pods_of_admitted c (namespaces_admitted_by c (some vnet))
