-- ===== src/Tests/Owning.antt =====
-- The reconcile of a Service at a concrete input.
use kube_vnet.Prelude.{
  String, ◌≡◌, inr, refl, true, false, none, some, List, [], ◌∷◌, ◌++◌, lookup, insert, delete_if,
  HasUniqueKeys,
}
use kube_vnet.Effects.{Result, ok, Event}
use kube_vnet.Objects.{object_key_eq, OwnerReference, NetworkPolicy}
use kube_vnet.Policies.{source_label_value, text_length, text_take}
use kube_vnet.Namespaces.{NamespaceFilter, is_managed, external_allow_opted_out}
use kube_vnet.Sweep.{
  Policies, Api, deleted, key_of, maps_equal, listed, in_namespace_policy_labels,
  has_controller_owner, policy_up_to_date, apply_policy, sweep_keys, stale_keys,
  sweep_stale_policies,
}
use kube_vnet.Sweep.Applying.{IsApplied}
use kube_vnet.Signals.{policy_restored, tracker_applied, tracker_forget, once_clear}
use kube_vnet.Exposure.{
  Service, cluster_ip, external_allow_policy, claimed_by_other_source_kind, service_policy_name,
}
use kube_vnet.ServiceSource.{
  svc_source_policies, Desired, policy, ServiceWorld, opted_out, sweep_service, withdraw,
  reconcile_service,
}
use kube_vnet.ServiceSource.Owning.{left_by, OnlyOwned, service_passed, reconcile_service-OnlyOwned}
use kube_vnet.ServiceSource.Withdrawing.{reconcile_service_withdraws}
use kube_vnet.Tests.Fixtures.{cluster, plain_namespace}

running : Unit {0}
unfolding source_label_value text_length text_take is_managed external_allow_opted_out maps_equal
    listed in_namespace_policy_labels has_controller_owner policy_up_to_date apply_policy sweep_keys
    stale_keys sweep_stale_policies policy_restored tracker_applied tracker_forget once_clear
    external_allow_policy claimed_by_other_source_kind service_policy_name svc_source_policies
    sweep_service reconcile_service lookup insert delete_if
running = tt

-- An API server on which every call succeeds, and which stores what is applied.
abbrev api : Api
api = record {
  get_error = λ _. none;
  patch_error = λ _. none;
  list_error = none;
  delete_outcome = λ _. deleted;
  applied = λ _ desired. desired;
  same_owners = λ _ _. true;
  same_spec = λ _ _. true;
}

abbrev filter : NamespaceFilter
filter = record { excluded = "ops" ∷ [] }

abbrev hash : String → String
hash s = "01234567"

abbrev shop_service : Service
shop_service = record {
  namespace = "shop";
  name = "api";
  uid = "s1";
  annotations = [];
  service_type = cluster_ip;
  cluster_ip = "10.0.0.7";
  external_ips = "192.0.2.1" ∷ [];
  selector = ("app", "api") ∷ [];
  ports = [];
}

abbrev owner : OwnerReference
owner = record { kind = "Service"; name = "api"; uid = "s1"; controller = some true }

abbrev set_owner : Service → NetworkPolicy → Result NetworkPolicy
set_owner svc p = ok (record p {
  owner_references =
      p.owner_references
      ++ record { kind = "Service"; name = svc.name; uid = svc.uid; controller = some true } ∷ [];
})

abbrev wanted : NetworkPolicy
wanted =
    external_allow_policy "kube-vnet.ext.svc.api-01234567" "shop" "svc" "svc-api" [] "0.0.0.0/0" []

abbrev owned : NetworkPolicy
owned = record wanted { owner_references = owner ∷ [] }

-- The policy of an older version.
abbrev old_policy : NetworkPolicy
old_policy = record owned { name = "kube-vnet-api" }

abbrev world : ServiceWorld
world = record {
  policies = (record { namespace = "shop"; name = "kube-vnet-api" }, old_policy) ∷ [];
  restores = [];
  pending = [];
}

abbrev wants : Service → List Event × Desired
wants svc = ([], policy (some wanted))

unique : HasUniqueKeys world.policies
unfolding running
unique = (refl, tt)

stands : owned.namespace ≡ "shop"
unfolding running
stands = refl

is_owned : set_owner shop_service wanted ≡ ok owned
unfolding running
is_owned = refl

opts_in :
    opted_out hash svc_source_policies api true set_owner filter shop_service
      (plain_namespace "shop")
    ≡ false
unfolding running
opts_in = refl

abbrev left : Policies
left = left_by (
    service_passed hash svc_source_policies api true set_owner shop_service cluster filter wants
      world)

succeeds :
    (service_passed hash svc_source_policies api true set_owner shop_service cluster filter wants
      world).error
    ≡ none
unfolding running
succeeds = refl

reconcile_service-OnlyOwned_example :
    IsApplied api owned (lookup (key_of owned) left)
    × OnlyOwned hash svc_source_policies api true set_owner shop_service (key_of owned) left
reconcile_service-OnlyOwned_example =
    reconcile_service-OnlyOwned hash svc_source_policies api true set_owner shop_service owned
      stands cluster filter wants world (plain_namespace "shop") wanted [] refl refl opts_in refl
      is_owned unique succeeds

-- The Service once nothing is wanted of it.
abbrev wants_nothing : Service → List Event × Desired
wants_nothing svc = ([], policy none)

withdraws :
    (service_passed hash svc_source_policies api true set_owner shop_service cluster filter
      wants_nothing world).error
    ≡ none
unfolding running withdraw
withdraws = refl

reconcile_service_withdraws_example :
    OnlyOwned hash svc_source_policies api true set_owner shop_service
      (record { namespace = "shop"; name = "" })
      (left_by (
        service_passed hash svc_source_policies api true set_owner shop_service cluster filter
          wants_nothing world))
reconcile_service_withdraws_example =
    reconcile_service_withdraws hash svc_source_policies api true set_owner shop_service cluster
      filter wants_nothing world (plain_namespace "shop") [] refl refl (inr refl) unique withdraws
