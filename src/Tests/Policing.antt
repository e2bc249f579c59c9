-- ===== src/Tests/Policing.antt =====
-- Policies and sweeps at concrete inputs.
use mathlib.Core.Path.{subst}
use kube_vnet.Prelude.{
  some-inj, sym, ◌∙◌, ◌≡◌, refl, Bool, all, true, false, Option, none, some, [], ◌∷◌, if◌then◌else◌,
  string_eq, lookup, insert, delete_if, HasUniqueKeys,
}
use kube_vnet.Prelude.Sorting.{place, sort}
use kube_vnet.Prelude.Texts.{cut_prefix, cut_dot, has_dot}
use kube_vnet.Effects.{ok, found}
use kube_vnet.Direction.{
  direction_eq, text, is_default, bare, parse_direction, parse_bare_direction,
}
use kube_vnet.Keys.{system_label_key, split_vnet_key}
use kube_vnet.Objects.{ObjectKey, object_key_eq, NetworkPolicy}
use kube_vnet.Policies.{desired_baseline}
use kube_vnet.Permits.{matches_allowed_namespaces, permits_for_vnet}
use kube_vnet.Namespaces.{NamespaceFilter, is_managed, managed_fetch, manages}
use kube_vnet.Members.{
  stamped_direction, user_values, add_member, ineligible, judge_joiner, judge_member,
  discover_among, discover_members,
}
use kube_vnet.Stamps.{has_value}
use kube_vnet.Sweep.{
  Policies, Api, deleted, key_of, maps_equal, listed, in_namespace_policy_labels, policy_up_to_date,
  apply_policy, sweep_keys, stale_keys, sweep_stale_policies,
}
use kube_vnet.Sweep.Settling.{IsCurrent, Alone, ends, apply_policy_settles}
use kube_vnet.Sweep.Sweeping.{to_delete, lookup-sweep_stale_policies}
use kube_vnet.Signals.{tracker_applied, tracker_forget_namespace, policy_restored}
use kube_vnet.Baseline.{
  World, baselines, keeps_none, skips_none, sweep_unmanaged, after_apply, reconcile_managed,
  reconcile_namespace,
}
use kube_vnet.Baseline.Isolation.{
  OnlyBaseline, IsIsolated, sweep_unmanaged_lem, reconcile_managed_lem,
}
use kube_vnet.HostPort.{host_port_key_eq}
use kube_vnet.Tests.Fixtures.{plain_namespace}

running : Unit {0}
unfolding place sort cut_prefix cut_dot has_dot text is_default bare parse_direction
    parse_bare_direction system_label_key split_vnet_key desired_baseline matches_allowed_namespaces
    permits_for_vnet is_managed managed_fetch manages stamped_direction user_values add_member
    ineligible judge_joiner judge_member discover_among discover_members maps_equal listed
    in_namespace_policy_labels policy_up_to_date apply_policy sweep_keys stale_keys
    sweep_stale_policies tracker_applied tracker_forget_namespace policy_restored sweep_unmanaged
    after_apply reconcile_managed reconcile_namespace lookup insert delete_if
running = tt

abbrev filter : NamespaceFilter
filter = record { excluded = "ops" ∷ [] }

-- An API server on which every call succeeds, and which stores what is applied, but for the deletion
-- timestamp.
abbrev api : Api
api = record {
  get_error = λ _. none;
  patch_error = λ _. none;
  list_error = none;
  delete_outcome = λ _. deleted;
  applied = λ live desired. record desired { deleting = ends live };
  same_owners = λ _ _. true;
  same_spec = λ _ _. true;
}

-- A baseline under the name of an older version.
abbrev old_baseline : NetworkPolicy
old_baseline = record (desired_baseline "front") { name = "kube-vnet-baseline" }

abbrev old_key : ObjectKey
old_key = record { namespace = "front"; name = "kube-vnet-baseline" }

abbrev policies : Policies
policies = (old_key, old_baseline) ∷ []

policies-HasUniqueKeys : HasUniqueKeys policies
unfolding running
policies-HasUniqueKeys = (refl, tt)

abbrev shared_by_none : NetworkPolicy → Bool
shared_by_none p = false

baseline_unique : HasUniqueKeys (desired_baseline "front").labels
unfolding running
baseline_unique = (refl, (refl, (refl, tt)))

annotated :
    (live : Option NetworkPolicy)
    → all
        (λ (k, v). has_value k v (api.applied live (desired_baseline "front")).annotations)
        (desired_baseline "front").annotations
      ≡ true
unfolding running
annotated live = refl

-- The baseline without the labels that the operator put on it.
abbrev drifted : NetworkPolicy
drifted = record (desired_baseline "front") { labels = ("team", "shop") ∷ [] }

abbrev drifted_policies : Policies
drifted_policies = (key_of drifted, drifted) ∷ []

finds_drifted : lookup (key_of (desired_baseline "front")) drifted_policies ≡ some drifted
unfolding running
finds_drifted = refl

drifted_stays : drifted.deleting ≡ false
unfolding running
drifted_stays = refl

drifted-HasUniqueKeys : HasUniqueKeys drifted.labels
unfolding running
drifted-HasUniqueKeys = (refl, tt)

front-Alone : Alone shared_by_none (lookup (key_of (desired_baseline "front")) drifted_policies)
front-Alone p there =
    let same : drifted ≡ p = some-inj drifted p (sym finds_drifted ∙ there) in
    subst
      (λ (q : NetworkPolicy).
        (q.deleting ≡ false) × (shared_by_none q ≡ false) × HasUniqueKeys q.labels)
      same (drifted_stays, refl, drifted-HasUniqueKeys)

applies : (apply_policy api (desired_baseline "front") drifted_policies).1 ≡ ok false
unfolding running
applies = refl

apply_policy_settles_example :
    IsCurrent api (desired_baseline "front") (
      lookup
        (key_of (desired_baseline "front"))
        (apply_policy api (desired_baseline "front") drifted_policies).0)
    × (apply_policy api
          (desired_baseline "front")
          (apply_policy api (desired_baseline "front") drifted_policies).0
        ≡ ((apply_policy api (desired_baseline "front") drifted_policies).0, ok false))
apply_policy_settles_example =
    apply_policy_settles api (desired_baseline "front") shared_by_none baseline_unique
      (λ live. baseline_unique) (λ live. refl) (λ live k alone. refl) annotated (λ live alone. refl)
      (λ live alone. refl) drifted_policies false front-Alone applies

sweeps : (sweep_stale_policies api (baselines "front") keeps_none skips_none policies).1 ≡ none
unfolding running
sweeps = refl

lookup-sweep_stale_policies_example :
    lookup old_key (sweep_stale_policies api (baselines "front") keeps_none skips_none policies).0
    ≡ (if to_delete api old_key (baselines "front") keeps_none skips_none (lookup old_key policies)
        then none
        else lookup old_key policies)
lookup-sweep_stale_policies_example =
    lookup-sweep_stale_policies api old_key (baselines "front") keeps_none skips_none policies
      policies-HasUniqueKeys sweeps

abbrev world : World
world = record { policies = policies; restores = [] }

manages_front : is_managed filter (some (plain_namespace "front")) ≡ true
unfolding running
manages_front = refl

reconciles_front :
    (reconcile_namespace api filter true "front" (found (plain_namespace "front")) world).error
    ≡ none
unfolding running
reconciles_front = refl

reconcile_managed_lem_example :
    IsIsolated api "front"
      (reconcile_namespace api filter true "front"
        (found (plain_namespace "front"))
        world).world.policies
reconcile_managed_lem_example =
    reconcile_managed_lem api filter true (plain_namespace "front") world refl manages_front
      policies-HasUniqueKeys reconciles_front

-- The namespace once an administrator has excluded it.
abbrev excluding : NamespaceFilter
excluding = record { excluded = "front" ∷ [] }

leaves_front : is_managed excluding (some (plain_namespace "front")) ≡ false
unfolding running
leaves_front = refl

sweeps_front :
    (reconcile_namespace api excluding true "front" (found (plain_namespace "front")) world).error
    ≡ none
unfolding running
sweeps_front = refl

sweep_unmanaged_lem_example :
    OnlyBaseline keeps_none "front"
      (reconcile_namespace api excluding true "front"
        (found (plain_namespace "front"))
        world).world.policies
sweep_unmanaged_lem_example =
    sweep_unmanaged_lem api excluding true (plain_namespace "front") world refl leaves_front
      policies-HasUniqueKeys sweeps_front
