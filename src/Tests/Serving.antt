-- ===== src/Tests/Serving.antt =====
-- Reconciles of a vnet and of a Service at concrete inputs.
use kube_vnet.Prelude.{
  String, ◌≡◌, ◌⊎◌, refl, true, false, none, some, List, [], ◌∷◌, if◌then◌else◌, ◌==◌, ◌||◌,
  string_eq, first?, lookup, insert, delete_if, HasUniqueKeys, is_some,
}
use kube_vnet.Prelude.Sorting.{place, sort}
use kube_vnet.Prelude.Texts.{strings_join, cut_dot, has_dot}
use kube_vnet.Prelude.Decimal.{decimal}
use kube_vnet.Effects.{ok}
use kube_vnet.Direction.{Direction, text, is_default, parse_direction, parse_bare_direction}
use kube_vnet.Keys.{system_label_key}
use kube_vnet.Objects.{ObjectKey, object_key_eq, Pod, NetworkPolicy}
use kube_vnet.Policies.{policy_name, truncate_policy_name, text_length, text_take}
use kube_vnet.Permits.{matches_allowed_namespaces, permits_for_vnet}
use kube_vnet.Stamps.{annotation_resolved_generation}
use kube_vnet.Namespaces.{NamespaceFilter, is_managed, managed_fetch, manages}
use kube_vnet.Generator.{
  has_receiver, has_initiator, member_namespaces, with_pods, MembersByNs, peer_froms, ingress_of,
  owners_of, membership_policy, policies_in, generate,
}
use kube_vnet.Members.{
  stamped_direction, user_values, add_member, ineligible, judge_joiner, judge_member,
  discover_among, discover_members,
}
use kube_vnet.Sweep.{
  Policies, Api, deleted, key_of, maps_equal, operator_managed, listed, policy_up_to_date,
  apply_policy, sweep_keys, stale_keys, sweep_stale_policies,
}
use kube_vnet.Sweep.Applying.{IsApplied}
use kube_vnet.Signals.{eventf, policy_restored}
use kube_vnet.Networks.Conditions.{
  Condition, StatusApi, first_few, pluralize, condition_message, compact_texts, unique_pods,
  total_members, flatten, set_ready, set_degraded, condition_status, update_status,
  emit_transition_events,
}
use kube_vnet.Networks.{
  StoredNetwork, NetworkWorld, set_members, name_matches, dns_rest, namespace_terminating,
  network_policies, keeps, delete_membership_policies, apply_one, apply_all,
}
use kube_vnet.Networks.Reconciling.{
  degraded_of, ready_of, reconcile_policies, reconcile_live, reconcile_network,
}
use kube_vnet.Networks.Converging.{left_by}
use kube_vnet.Networks.Serving.{
  after, generated, generated-IsApplied, no_stale_policy, failures_isolated, stays_until_replaced,
}
use kube_vnet.Tests.Fixtures.{web, cluster, pod_with, web_stamp}

running : Unit {0}
unfolding place sort strings_join cut_dot has_dot text is_default parse_direction
    parse_bare_direction system_label_key policy_name truncate_policy_name text_length text_take
    matches_allowed_namespaces permits_for_vnet is_managed managed_fetch manages has_receiver
    has_initiator member_namespaces with_pods peer_froms ingress_of owners_of membership_policy
    policies_in generate stamped_direction user_values add_member ineligible judge_joiner
    judge_member discover_among discover_members maps_equal operator_managed listed
    policy_up_to_date apply_policy sweep_keys stale_keys sweep_stale_policies eventf policy_restored
    first_few pluralize condition_message compact_texts unique_pods total_members flatten set_ready
    set_degraded condition_status update_status emit_transition_events set_members name_matches
    dns_rest namespace_terminating delete_membership_policies apply_one apply_all degraded_of
    ready_of reconcile_policies reconcile_live reconcile_network lookup insert delete_if decimal
running = tt

-- An API server on which every call succeeds, and which stores what is applied.
abbrev api : Api
api = record {
  get_error = λ _. none;
  patch_error = λ _. none;
  list_error = none;
  delete_outcome = λ _. deleted;
  applied = λ _ desired. desired;
  same_owners = λ _ _. true;
  same_spec = λ _ _. true;
}

-- Conditions that the newest one hides.
abbrev status_api : StatusApi
status_api = record {
  set_condition = λ c cs. c ∷ cs;
  find_condition = λ kind cs. first? (λ (c : Condition). c.kind == kind) cs;
  same_status = λ _ _. false;
  update_error = λ _. none;
}

abbrev filter : NamespaceFilter
filter = record { excluded = "ops" ∷ [] }

abbrev no_hash : String → String
no_hash s = "00000000"

abbrev stored : StoredNetwork
stored = record {
  vnet = web;
  generation = 1;
  status = record {
    conditions = [];
    members = [];
    generated_policies = [];
    observed_generation = 0;
  };
}

-- A resolved and stamped initiator, and a receiver.
abbrev member : Pod
member = record (pod_with ((web_stamp, "egress") ∷ [])) {
  annotations = (annotation_resolved_generation, "2") ∷ [];
}

abbrev receiver : Pod
receiver = record (pod_with ((web_stamp, "both") ∷ [])) {
  namespace = "shop";
  name = "srv";
  annotations = (annotation_resolved_generation, "1") ∷ [];
}

abbrev pods : List Pod
pods = member ∷ receiver ∷ []

abbrev members : MembersByNs
members =
    ("front", (Direction.egress, "ui" ∷ []) ∷ []) ∷ ("shop", (Direction.both, "srv" ∷ []) ∷ []) ∷ []

-- The policy of the receivers' namespace.
abbrev shop_policy : NetworkPolicy
shop_policy =
    membership_policy no_hash web web_stamp (peer_froms members web_stamp ("front" ∷ "shop" ∷ []))
      "shop"

-- A policy under the name of an older version, and the world with it.
abbrev old_policy : NetworkPolicy
old_policy = record shop_policy { name = "kube-vnet-shop-web" }

abbrev old_key : ObjectKey
old_key = record { namespace = "shop"; name = "kube-vnet-shop-web" }

abbrev world : NetworkWorld
world = record { policies = (old_key, old_policy) ∷ []; members = []; status_writes = [] }

named : name_matches "web" ≡ true
unfolding running
named = refl

home : manages filter cluster "shop" ≡ ok true
unfolding running
home = refl

serves : (operator_managed web.labels || true) ≡ true
unfolding running
serves = refl

finds_members : discover_members cluster filter web (ok pods) ≡ ok (members, [])
unfolding running
finds_members = refl

unique : HasUniqueKeys world.policies
unfolding running
unique = (refl, tt)

abbrev left : Policies
left = left_by (after api status_api true cluster filter no_hash stored (ok pods) members [] world)

succeeds :
    (after api status_api true cluster filter no_hash stored (ok pods) members [] world).error
    ≡ none
unfolding running
succeeds = refl

wants_shop_policy :
    first?
      (λ d. key_of d == key_of shop_policy)
      (generated api status_api true cluster filter no_hash stored (ok pods) members [] world)
    ≡ some shop_policy
unfolding running
wants_shop_policy = refl

shop_stays : namespace_terminating cluster shop_policy.namespace ≡ ok false
unfolding running
shop_stays = refl

generated-IsApplied_example : IsApplied api shop_policy (lookup (key_of shop_policy) left)
generated-IsApplied_example =
    generated-IsApplied api status_api true cluster filter no_hash stored (ok pods) members [] world
      true refl named home serves finds_members unique shop_policy wants_shop_policy shop_stays
      succeeds

left-shop_policy : lookup (key_of shop_policy) left ≡ some shop_policy
unfolding running
left-shop_policy = refl

shop_policy-listed : listed (network_policies "shop" "web") shop_policy ≡ true
unfolding running
shop_policy-listed = refl

no_stale_policy_example :
    keeps
      (generated api status_api true cluster filter no_hash stored (ok pods) members [] world)
      (key_of shop_policy)
    ≡ true
no_stale_policy_example =
    no_stale_policy api status_api true cluster filter no_hash stored (ok pods) members [] world
      true refl named home serves finds_members unique (key_of shop_policy) shop_policy succeeds
      left-shop_policy shop_policy-listed

-- A server that rejects every other policy, so that only the one of `shop` can be applied.
abbrev picky : Api
picky = record api {
  patch_error = λ p. if p.namespace == "shop" then none else some "exceeded quota";
}

-- The initiator also receives, so that `front` wants a policy too.
abbrev both_receive : List Pod
both_receive = record member { labels = (web_stamp, "both") ∷ [] } ∷ receiver ∷ []

abbrev both_members : MembersByNs
both_members =
    ("front", (Direction.both, "ui" ∷ []) ∷ []) ∷ ("shop", (Direction.both, "srv" ∷ []) ∷ []) ∷ []

abbrev policy_in : String → NetworkPolicy
policy_in ns =
    membership_policy no_hash web web_stamp
      (peer_froms both_members web_stamp ("front" ∷ "shop" ∷ [])) ns

finds_both : discover_members cluster filter web (ok both_receive) ≡ ok (both_members, [])
unfolding running
finds_both = refl

abbrev Wants : NetworkPolicy → Type 0
Wants d =
    first? (λ p. key_of p == key_of d)
      (generated picky status_api true cluster filter no_hash stored (ok both_receive) both_members
        [] world)
    ≡ some d

shop-Wants : Wants (policy_in "shop")
unfolding running
shop-Wants = refl

front-Wants : Wants (policy_in "front")
unfolding running
front-Wants = refl

shop_accepts : namespace_terminating cluster (policy_in "shop").namespace ≡ ok false
unfolding running
shop_accepts = refl

abbrev left_picky : NetworkWorld → Policies
left_picky w =
    left_by (
      after picky status_api true cluster filter no_hash stored (ok both_receive) both_members [] w)

takes_shop : picky.patch_error (policy_in "shop") ≡ none
unfolding running
takes_shop = refl

failures_isolated_example :
    IsApplied picky (policy_in "shop") (lookup (key_of (policy_in "shop")) (left_picky world))
failures_isolated_example =
    failures_isolated picky status_api true cluster filter no_hash stored (ok both_receive)
      both_members [] world true refl named home serves finds_both unique (policy_in "shop")
      shop-Wants shop_accepts refl takes_shop

-- The policy of an older version in `front`, whose replacement is rejected.
abbrev front_key : ObjectKey
front_key = record { namespace = "front"; name = "kube-vnet-shop-web" }

abbrev front_old : NetworkPolicy
front_old = record (policy_in "front") { name = "kube-vnet-shop-web" }

abbrev front_world : NetworkWorld
front_world = record { policies = (front_key, front_old) ∷ []; members = []; status_writes = [] }

front_unique : HasUniqueKeys front_world.policies
unfolding running
front_unique = (refl, tt)

front_there : lookup front_key front_world.policies ≡ some front_old
unfolding running
front_there = refl

front_stays : namespace_terminating cluster (policy_in "front").namespace ≡ ok false
unfolding running
front_stays = refl

front_near : front_old.namespace ≡ (policy_in "front").namespace
unfolding running
front_near = refl

front_other :
    keeps
      (generated picky status_api true cluster filter no_hash stored
        (ok both_receive)
        both_members
        []
        front_world)
      front_key
    ≡ false
unfolding running
front_other = refl

stays_until_replaced_example :
    IsApplied picky
      (policy_in "front")
      (lookup (key_of (policy_in "front")) (left_picky front_world))
    ⊎ ((is_some
            (after picky status_api true cluster filter no_hash stored
              (ok both_receive)
              both_members
              []
              front_world).error
          ≡ true)
        × (lookup front_key (left_picky front_world) ≡ some front_old))
stays_until_replaced_example =
    stays_until_replaced picky status_api true cluster filter no_hash stored (ok both_receive)
      both_members [] front_world true refl named home serves finds_both front_unique
      (policy_in "front") front-Wants front_stays front_key front_old front_there front_near
      front_other
