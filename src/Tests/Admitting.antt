-- ===== src/Tests/Admitting.antt =====
-- The stamps of pods, and the admission webhook, at concrete inputs.
use mathlib.Core.Logic.{◌↔◌}
use kube_vnet.Prelude.{
  ◌≡◌, refl, inl, true, false, not, none, some, [], ◌∷◌, if◌then◌else◌, string_eq, is_nil, lookup,
  insert, delete_if, HasUniqueKeys,
}
use kube_vnet.Prelude.Sorting.{place, sort}
use kube_vnet.Prelude.Texts.{cut_prefix, has_prefix, cut_dot, has_dot, has_suffix}
use kube_vnet.Prelude.Decimal.{decimal}
use kube_vnet.Direction.{
  direction_eq, text, is_default, bare, with_default, parse_direction, parse_bare_direction,
  intersect,
}
use kube_vnet.Keys.{
  split_vnet_key, stamped_vnet_key, canonical_suffix, canonical_vnet_key, system_label_key,
  is_prefixed_cluster_suffix,
}
use kube_vnet.Resolution.{
  merge_first, merge_rules, merged_direction, group_rules, merge_rule, report_conflict, apply_value,
  resolve_group, resolve_vnets, resolve_layer, resolve_layers, strip, resolve,
}
use kube_vnet.Permits.{
  match_labels, matches_selector, matches_allowed_namespaces, permits_for_vnet, permits_found,
  permits_split, permits,
}
use kube_vnet.HostPort.{
  key_text, add_ports, add_containers, add_pods, desired_host_port_keys, stamps_of_keys,
  desired_host_port_stamps,
}
use kube_vnet.Effects.Eff.{◌>>=◌}
use kube_vnet.Resolver.{
  read_join_label, baseline_rules, filter_permitted_rules, read_baseline, cluster_baseline_rules,
  namespace_baseline_rules, binding_selects, bindings_matching, binding_rules, join_label_rules,
  pod_label_rules, build_layers, net_stamps, add_host_port_stamps, desired_of, desired_labels,
  is_resolution_managed_label, net_stamp,
}
use kube_vnet.Effects.{ok, failed}
use kube_vnet.Objects.{Labels, Pod}
use kube_vnet.Resolver.Soundness.{IsGranted, desired_labels-Granted}
use kube_vnet.Stamps.{
  write_desired, sync_managed_labels, resolution_stamps, sync_stamps, mark_resolved,
}
use kube_vnet.Stamps.Sync.{wanted, lookup-sync_managed_labels}
use kube_vnet.Namespaces.{is_managed, managed_fetch, manages}
use kube_vnet.NetworkWait.{network_wait_warning, network_wait}
use kube_vnet.Admission.{
  Deps, create, Request, PodRequest, patched, is_operator, decode, untouched, namespace_managed,
  touched_new, touched_old, touched, judge_stamp, bad_stamps, judge, resolved_in, validate_pod,
  validate, with_wait, stamp_pod, patch_to, mutate_pod, mutate,
}
use kube_vnet.Admission.Failing.{is_server_error, validate_fails_closed}
use kube_vnet.Admission.Judging.{Matches, is_allowed, validate_iff}
use kube_vnet.Admission.Stamping.{lookup-stamp_pod, validate-mutate}
use kube_vnet.Tests.Fixtures.{cluster, pod_with, ui, web_stamp, ui_stamps, ui_resolution}

-- What a run of the webhook unfolds.
unfoldable pub running : Unit {0}
unfolding place sort cut_prefix has_prefix cut_dot has_dot has_suffix decimal text is_default bare
    with_default parse_direction parse_bare_direction intersect split_vnet_key stamped_vnet_key
    canonical_suffix canonical_vnet_key system_label_key is_prefixed_cluster_suffix merge_first
    merge_rules merged_direction group_rules merge_rule report_conflict apply_value resolve_group
    resolve_vnets resolve_layer resolve_layers strip resolve match_labels matches_selector
    matches_allowed_namespaces permits_for_vnet permits_found permits_split permits key_text
    add_ports add_containers add_pods desired_host_port_keys stamps_of_keys desired_host_port_stamps
    ◌>>=◌ read_join_label baseline_rules filter_permitted_rules read_baseline cluster_baseline_rules
    namespace_baseline_rules binding_selects bindings_matching binding_rules join_label_rules
    pod_label_rules build_layers net_stamps add_host_port_stamps desired_of desired_labels
    is_resolution_managed_label net_stamp lookup insert delete_if write_desired sync_managed_labels
    resolution_stamps sync_stamps mark_resolved is_managed managed_fetch manages
    network_wait_warning network_wait is_operator decode untouched namespace_managed touched_new
    touched_old touched judge_stamp bad_stamps judge resolved_in validate_pod validate with_wait
    stamp_pod patch_to mutate_pod mutate
running = tt

pub resolved_ui : (desired_labels cluster true ui).1 ≡ ok (ui_stamps, ui_resolution)
unfolding running
resolved_ui = refl

stamped_ui : lookup (net_stamp "shop.web") ui_stamps ≡ some "both"
unfolding running
stamped_ui = refl

desired_labels-Granted_example : IsGranted cluster "front" "shop.web"
desired_labels-Granted_example =
    desired_labels-Granted cluster true ui ui_stamps ui_resolution "shop.web" "both" resolved_ui
      stamped_ui

-- The webhook's dependencies, for a cluster in which it manages every namespace but `ops`.
abbrev deps : Deps
deps = record {
  cluster = cluster;
  recorder = false;
  filter = record { excluded = "ops" ∷ [] };
  operator_username = "operator";
  durations = record { parse = λ _. none; print = λ _. "" };
  wait_config = none;
  marshal_error = λ _. none;
}

abbrev request_for : Pod → Request
request_for pod = record {
  operation = create;
  namespace = "front";
  username = "ann";
  object = ok pod;
  old_object = none;
}

-- A pod that is submitted with a stamp of its own.
abbrev forged : Pod
forged = pod_with (("kube-vnet/net.shop.web", "both") ∷ (web_stamp, "both") ∷ [])

abbrev decoded : Pod → Labels → PodRequest
decoded pod stamps = record { pod = pod; stamps = stamps; old_stamps = [] }

plain_forged : is_operator deps (request_for forged) ≡ false
unfolding running
plain_forged = refl

decodes_forged : decode (request_for forged) ≡ ok (decoded forged ui_stamps)
unfolding running
decodes_forged = refl

resolves_forged : (resolved_in deps (namespace_managed deps "front") forged).1 ≡ ok ui_stamps
unfolding running
resolves_forged = refl

validate_iff_example :
    (is_allowed (validate deps (request_for forged)).1 ≡ true)
    ↔ Matches (decoded forged ui_stamps) ui_stamps
validate_iff_example =
    validate_iff deps (request_for forged) (decoded forged ui_stamps) ui_stamps plain_forged
      decodes_forged resolves_forged

-- A cluster in which namespaces cannot be read.
abbrev broken : Deps
broken = record deps { cluster = record cluster { get_namespace = λ _. failed "down" } }

plain_broken : is_operator broken (request_for forged) ≡ false
unfolding running
plain_broken = refl

validate_fails_closed_example :
    (is_server_error (mutate broken (request_for forged)).1 ≡ true)
    × (is_server_error (validate broken (request_for forged)).1
        ≡ not (is_nil (touched (decoded forged ui_stamps))))
validate_fails_closed_example =
    validate_fails_closed broken (request_for forged) (decoded forged ui_stamps) plain_broken
      decodes_forged refl (inl ("down", refl))

-- The pod `ui` as the mutator patches it.
abbrev stamped_pod : Pod
stamped_pod = stamp_pod (decoded ui []) ui_stamps

plain_ui : is_operator deps (request_for ui) ≡ false
unfolding running
plain_ui = refl

decodes_ui : decode (request_for ui) ≡ ok (decoded ui [])
unfolding running
decodes_ui = refl

manages_front : namespace_managed deps "front" ≡ ok true
unfolding running
manages_front = refl

resolves_ui : (resolved_in deps (ok true) ui).1 ≡ ok ui_stamps
unfolding running
resolves_ui = refl

mutates_ui : (mutate deps (request_for ui)).1 ≡ patched stamped_pod none
unfolding running
mutates_ui = refl

resolves_stamped : (resolved_in deps (ok true) stamped_pod).1 ≡ ok ui_stamps
unfolding running
resolves_stamped = refl

ui-Matches : Matches (decoded ui []) ui_stamps
unfolding running
ui-Matches k e = absurd (cc e)

validate-mutate_example :
    is_allowed (validate deps (record (request_for ui) { object = ok stamped_pod })).1 ≡ true
validate-mutate_example =
    validate-mutate deps (request_for ui) (decoded ui []) ui_stamps stamped_pod none plain_ui
      decodes_ui manages_front resolves_ui mutates_ui resolves_stamped ui-Matches

manages_stamp : is_resolution_managed_label web_stamp ≡ true
unfolding running
manages_stamp = refl

lookup-stamp_pod_example : lookup web_stamp (stamp_pod (decoded ui []) ui_stamps).labels ≡ (
    if untouched (decoded ui []) web_stamp
    then lookup web_stamp ui_stamps
    else lookup web_stamp ui.labels)
lookup-stamp_pod_example = lookup-stamp_pod (decoded ui []) ui_stamps web_stamp manages_stamp

-- Labels with a stale stamp beside one that stays.
abbrev old_labels : Labels
old_labels = ("app", "ui") ∷ ("kube-vnet.system/net.shop.old", "both") ∷ []

pub ui_stamps-HasUniqueKeys : HasUniqueKeys ui_stamps
unfolding running
ui_stamps-HasUniqueKeys = (refl, tt)

lookup-sync_managed_labels_example :
    lookup "app" (sync_managed_labels is_resolution_managed_label ui_stamps old_labels).0
    ≡ wanted is_resolution_managed_label ui_stamps old_labels "app"
lookup-sync_managed_labels_example =
    lookup-sync_managed_labels is_resolution_managed_label ui_stamps old_labels "app"
