-- ===== src/Stamps.antt =====
-- internal/controller/stamps.go, and `syncManagedLabels` of sweep.go: writing the labels that
-- resolution owns onto a pod.
pub mod Sync
use kube_vnet.Prelude.{
  String, Bool, true, false, not, ◌||◌, ◌&&◌, Option, none, some, List, [], ◌∷◌, if◌then◌else◌,
  ◌==◌, string_eq, nat_beq, length, is_some, or_else, Map, lookup, insert, delete_if,
}
use kube_vnet.Prelude.Decimal.{decimal}
use kube_vnet.Objects.{Labels, Pod}
use kube_vnet.Resolver.{is_resolution_managed_label}

abbrev pub annotation_resolved_generation : String
annotation_resolved_generation = "kube-vnet.system/resolved-generation"

abbrev pub annotation_resolved_by : String
annotation_resolved_by = "kube-vnet.system/resolved-by"

-- Whether `labels[k]` is `v`.
abbrev pub has_value : String → String → Labels → Bool
has_value k v m = elim (lookup k m) [ none ↦ false | some w ↦ w == v ]

-- The loop over `desired`: writes what differs, and reports whether anything did.
unfoldable pub write_desired : Labels → Labels → Bool → Labels × Bool
write_desired [] labels changed = (labels, changed)
write_desired ((k, v) ∷ desired) labels changed =
    let (written, changed') = write_desired desired labels changed in
    if has_value k v written then (written, changed') else (insert k v written, true)

abbrev pub stale : (String → Bool) → Labels → String → Bool
stale is_managed desired k = is_managed k && not (is_some (lookup k desired))

-- The labels after `syncManagedLabels`, and whether they changed.
unfoldable pub sync_managed_labels : (String → Bool) → Labels → Labels → Labels × Bool
sync_managed_labels is_managed desired labels =
    let kept = delete_if (stale is_managed desired) labels in
    write_desired desired kept (not (nat_beq (length kept) (length labels)))

unfoldable pub resolution_stamps : Labels → Labels
resolution_stamps labels = delete_if (λ k. not (is_resolution_managed_label k)) labels

unfoldable pub sync_stamps : Pod → Labels → (String → Bool) → Pod × Bool
sync_stamps pod desired owns =
    let owned = delete_if (λ k. not (owns k)) desired in
    let (labels, changed) =
      sync_managed_labels (λ k. is_resolution_managed_label k && owns k) owned pod.labels in
    (record pod { labels = labels }, changed)

unfoldable pub mark_resolved : Pod → String → Pod
mark_resolved pod by =
    let generation =
      insert annotation_resolved_generation (decimal pod.generation) pod.annotations in
    record pod { annotations = insert annotation_resolved_by by generation }

abbrev pub is_resolved_annotation : String → Bool
is_resolved_annotation k = k == annotation_resolved_generation || k == annotation_resolved_by

unfoldable pub clear_resolved : Pod → Pod × Bool
clear_resolved pod = (
  record pod { annotations = delete_if is_resolved_annotation pod.annotations },
  is_some (lookup annotation_resolved_generation pod.annotations)
      || is_some (lookup annotation_resolved_by pod.annotations),
)
