-- ===== src/Tests/Stamping.antt =====
-- Reconciles of a pod, and the events of pods, at concrete inputs.
use kube_vnet.Prelude.{
  ◌≡◌, refl, true, false, none, some, [], ◌∷◌, ◌==◌, string_eq, any, lookup, HasUniqueKeys,
}
use kube_vnet.Prelude.Texts.{cut_prefix, has_prefix}
use kube_vnet.Objects.{object_key_eq, Pod}
use kube_vnet.Direction.{Direction, is_default, parse_direction, parse_bare_direction}
use kube_vnet.Keys.{system_label_key}
use kube_vnet.Stamps.{annotation_resolved_generation}
use kube_vnet.Stamps.Sync.{wanted}
use kube_vnet.Resolver.{is_resolution_managed_label}
use kube_vnet.Namespaces.{NamespaceFilter, is_managed}
use kube_vnet.NetworkWait.{Durations}
use kube_vnet.Members.{stamped_direction}
use kube_vnet.Sweep.{maps_equal}
use kube_vnet.Networks.Watching.{
  is_join_label, join_label_set, resolved_generation, update, join_label_changed, pod_to_vnets,
}
use kube_vnet.Networks.Covering.{pod_to_vnets-covers, join_label_changed-covers}
use kube_vnet.ResolutionReconciler.{
  reconcile_pod, warn_narrowed_membership, is_marked, apply_resolution, strip_stamped_labels,
}
use kube_vnet.ResolutionReconciler.Settling.{unstamped, unmarked}
use kube_vnet.ResolutionReconciler.Reconciling.{
  passed, pod_after, reconcile_pod_managed, reconcile_pod_unmanaged,
}
use kube_vnet.Tests.Fixtures.{
  cluster, plain_namespace, pod_with, ui, web_stamp, ui_stamps, ui_resolution,
}
use kube_vnet.Tests.Resolving.{shop-IsName, web-IsName}
use kube_vnet.Tests.Admitting.{running as webhook_running, resolved_ui, ui_stamps-HasUniqueKeys}

running : Unit {0}
unfolding is_managed cut_prefix has_prefix is_default parse_direction parse_bare_direction
    system_label_key stamped_direction maps_equal is_join_label join_label_set resolved_generation
    join_label_changed lookup
running = tt

abbrev durations : Durations
durations = record { parse = λ _. none; print = λ _. "" }

abbrev filter : NamespaceFilter
filter = record { excluded = "ops" ∷ [] }

abbrev excluding : NamespaceFilter
excluding = record { excluded = "front" ∷ [] }

manages_front : is_managed filter (some (plain_namespace "front")) ≡ true
unfolding running
manages_front = refl

leaves_front : is_managed excluding (some (plain_namespace "front")) ≡ false
unfolding running
leaves_front = refl

abbrev ui_after : Pod
ui_after = pod_after true durations false cluster filter (λ _. none) ui []

stamps_ui : (passed true durations false cluster filter (λ _. none) ui []).error ≡ none
unfolding running webhook_running reconcile_pod apply_resolution warn_narrowed_membership
stamps_ui = refl

reconcile_pod_managed_example :
    (lookup web_stamp ui_after.labels
      ≡ wanted is_resolution_managed_label ui_stamps ui.labels web_stamp)
    × (is_marked ui_after ≡ true)
    × (apply_resolution ui_after ui_stamps ≡ none)
reconcile_pod_managed_example =
    reconcile_pod_managed true durations false cluster filter (λ _. none) ui [] refl
      (plain_namespace "front") refl ui_stamps ui_resolution web_stamp manages_front resolved_ui
      ui_stamps-HasUniqueKeys stamps_ui

-- A pod with a stamp and its marker.
abbrev stamped : Pod
stamped = record (pod_with ((web_stamp, "both") ∷ ("app", "ui") ∷ [])) {
  annotations = (annotation_resolved_generation, "2") ∷ [];
}

abbrev stripped : Pod
stripped = pod_after true durations false cluster excluding (λ _. none) stamped []

strips : (passed true durations false cluster excluding (λ _. none) stamped []).error ≡ none
unfolding running webhook_running reconcile_pod strip_stamped_labels
strips = refl

reconcile_pod_unmanaged_example :
    (lookup web_stamp stripped.labels ≡ unstamped stamped.labels web_stamp)
    × (lookup web_stamp stripped.annotations ≡ unmarked stamped.annotations web_stamp)
    × (strip_stamped_labels stripped ≡ none)
reconcile_pod_unmanaged_example =
    reconcile_pod_unmanaged true durations false cluster excluding (λ _. none) stamped [] refl
      (plain_namespace "front") refl web_stamp leaves_front strips

is_stamped : stamped_direction stamped (system_label_key "shop" "web") ≡ some Direction.both
unfolding running
is_stamped = refl

pod_to_vnets-covers_example :
    any (λ r. r == record { namespace = "shop"; name = "web" }) (pod_to_vnets "ops" stamped) ≡ true
pod_to_vnets-covers_example =
    pod_to_vnets-covers "ops" stamped "shop" "web" Direction.both shop-IsName web-IsName
      (λ e. absurd (cc e)) (λ e. cc e) is_stamped

-- The same pod with another label.
abbrev relabelled : Pod
relabelled = record stamped { labels = (web_stamp, "both") ∷ ("app", "ui2") ∷ [] }

stamped-HasUniqueKeys : HasUniqueKeys stamped.labels
unfolding running
stamped-HasUniqueKeys = (refl, (refl, tt))

relabelled-HasUniqueKeys : HasUniqueKeys relabelled.labels
unfolding running
relabelled-HasUniqueKeys = (refl, (refl, tt))

is_let_out : join_label_changed (update (some stamped) (some relabelled)) ≡ false
unfolding running
is_let_out = refl

join_label_changed-covers_example :
    stamped_direction stamped (system_label_key "shop" "web")
    ≡ stamped_direction relabelled (system_label_key "shop" "web")
join_label_changed-covers_example =
    join_label_changed-covers stamped relabelled "shop" "web" stamped-HasUniqueKeys
      relabelled-HasUniqueKeys is_let_out
