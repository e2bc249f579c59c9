-- ===== src/Networks.antt =====
-- internal/controller/virtualnetwork_controller.go: the reconcile of a vnet, which applies a
-- membership policy in each namespace of its receivers, and sweeps every other one.
pub mod Conditions
pub mod Reconciling
pub mod Watching
pub mod Applying
pub mod Generated
pub mod Converging
pub mod Serving
pub mod Covering
pub mod Reaching
use Prim.Native.Char.{Char, code}
use Prim.Native.String
use Prim.Native.String.{◌++◌ as ◌+++◌}
use kube_vnet.Prelude.{
  ℕ, String, Bool, true, false, not, ◌&&◌, ◌||◌, Option, none, some, List, [], ◌∷◌, ◌++◌,
  if◌then◌else◌, ◌==◌, string_eq, nat_beq, ltb, leb, is_nil, length, any, map, Map, insert,
  delete_if,
}
use kube_vnet.Prelude.Decimal.{decimal}
use kube_vnet.Effects.{
  Error, Result, ok, err, Fetch, found, not_found, failed, ObjectRef, Event, warning,
}
use kube_vnet.Objects.{ObjectKey, object_key_eq, VirtualNetwork, Pod, Namespace, NetworkPolicy}
use kube_vnet.Cluster.{Cluster}
use kube_vnet.Policies.{label_managed_by, label_managed_by_value, label_network}
use kube_vnet.Namespaces.{NamespaceFilter, manages}
use kube_vnet.Generator.{MembersByNs, generate}
use kube_vnet.Members.{InvalidJoiner, discover_members}
use kube_vnet.Sweep.{
  Policies, Api, ListOptions, key_of, operator_managed, apply_policy, sweep_stale_policies,
}
use kube_vnet.Signals.{eventf, apply_failed, policy_restored}
use kube_vnet.Baseline.{policy_ref}
use kube_vnet.Networks.Conditions.{
  ConditionStatus, is_true, is_false, Status, StatusApi, first_few, join_error_messages, pluralize,
  total_members, set_ready, set_degraded, condition_status, update_status, emit_transition_events,
}

-- The object as it is fetched, with what only this reconcile reads of it.
pub record StoredNetwork : Type 0 where
  pub vnet : VirtualNetwork
  pub generation : ℕ
  pub status : Status

-- The policies of the API server, the gauge of members by "namespace/name", and the status writes.
pub record NetworkWorld : Type 0 where
  pub policies : Policies
  pub members : Map String ℕ
  pub status_writes : List Status

-- What a reconcile leaves; the time after which it runs again is in minutes, 0 for none.
pub record NetworkOutcome : Type 0 where
  pub world : NetworkWorld
  pub error : Option Error
  pub events : List Event
  pub requeue_after : ℕ

abbrev pub outcome : NetworkWorld → Option Error → List Event → NetworkOutcome
outcome w e events = record { world = w; error = e; events = events; requeue_after = 0 }

abbrev gauge_key : (home_ns name : String) → String
gauge_key home_ns name = home_ns +++ "/" +++ name

unfoldable pub set_members : (home_ns name : String) → ℕ → NetworkWorld → NetworkWorld
set_members home_ns name count w = record w {
  members = insert (gauge_key home_ns name) count w.members;
}

unfoldable pub clear_members : (home_ns name : String) → NetworkWorld → NetworkWorld
clear_members home_ns name w = record w {
  members = delete_if (λ k. k == gauge_key home_ns name) w.members;
}

abbrev is_alphanumeric : ℕ → Bool
is_alphanumeric c = (leb b'a' c && leb c b'z') || (leb b'0' c && leb c b'9')

-- After a first character: each is of the class, and the last one is no hyphen.
unfoldable pub dns_rest : Bool → String → Bool
dns_rest last_fits String.[] = last_fits
dns_rest last_fits (String.◌∷◌ c s) =
    let alphanumeric = is_alphanumeric (code c) in
    (alphanumeric || nat_beq (code c) b'-') && dns_rest alphanumeric s

-- `nameRegex.MatchString`: a DNS-1123 label, of any length.
unfoldable pub name_matches : String → Bool
unfolding dns_rest
name_matches String.[] = false
name_matches (String.◌∷◌ c s) = is_alphanumeric (code c) && dns_rest true s

abbrev vnet_ref : VirtualNetwork → ObjectRef
vnet_ref v = record { kind = "VirtualNetwork"; namespace = v.namespace; name = v.name }

abbrev pub terminating_fetch : Fetch Namespace → Result Bool
terminating_fetch not_found = ok false
terminating_fetch (failed e) = err e
terminating_fetch (found ns) = ok ns.deleting

unfoldable pub namespace_terminating : Cluster → String → Result Bool
namespace_terminating c name = terminating_fetch (c.get_namespace name)

-- The state of the loop over the policies.
pub record Applied : Type 0 where
  pub policies : Policies
  pub refs : List ObjectKey
  pub errors : List Error
  pub failed_namespaces : List String
  pub events : List Event

abbrev pub keeps : List NetworkPolicy → ObjectKey → Bool
keeps ds k = any (λ d. key_of d == k) ds

abbrev pub spares : List String → NetworkPolicy → Bool
spares nss p = any (λ ns. ns == p.namespace) nss

abbrev pub network_policies : (home_ns name : String) → ListOptions
network_policies home_ns name = record {
  namespace = none;
  matching_labels =
      (label_managed_by, label_managed_by_value) ∷ (label_network, home_ns +++ "." +++ name) ∷ [];
}

unfoldable pub delete_membership_policies :
    Api
    → (home_ns name : String) → (keep : ObjectKey → Bool) → (spare_ns : List String) → Policies
    → Policies × Option Error
delete_membership_policies api home_ns name keep spare_ns ps =
    sweep_stale_policies api (network_policies home_ns name) keep (spares spare_ns) ps

module _ (api : Api) (c : Cluster) (recorder : Bool) (vnet : VirtualNetwork)
    (listed_refs : List ObjectKey) where
  abbrev pub record_failure : NetworkPolicy → Error → Applied → Applied
  record_failure p e s = record s {
    errors = s.errors ++ ("namespace " +++ p.namespace +++ ": " +++ e) ∷ [];
    failed_namespaces = p.namespace ∷ s.failed_namespaces;
    events =
        s.events
        ++ apply_failed recorder (policy_ref p) (p.name ∷ vnet.namespace ∷ vnet.name ∷ e ∷ []);
  }

  abbrev restored_events : NetworkPolicy → Bool → List Event
  restored_events p created =
      if created && any (λ k. k == key_of p) listed_refs
      then policy_restored recorder (vnet_ref vnet) (p.namespace ∷ p.name ∷ [])
        ++ policy_restored recorder (policy_ref p) (vnet.namespace ∷ vnet.name ∷ [])
      else []

  abbrev pub record_apply : NetworkPolicy → Result Bool → Applied → Applied
  record_apply p (err e) s = record_failure p e s
  record_apply p (ok created) s = record s {
    refs = s.refs ++ key_of p ∷ [];
    events = s.events ++ restored_events p created;
  }

  abbrev pub apply_unless : NetworkPolicy → Result Bool → Applied → Applied
  apply_unless p (err e) s = record_failure p e s
  apply_unless p (ok true) s = s
  apply_unless p (ok false) s =
      let (ps, r) = apply_policy api p s.policies in record_apply p r (record s { policies = ps })

  -- One round: a namespace that ends is left alone, and a failure does not stop the loop.
  unfoldable pub apply_one : NetworkPolicy → Applied → Applied
  apply_one p s = apply_unless p (namespace_terminating c p.namespace) s

  unfoldable pub apply_all : List NetworkPolicy → Applied → Applied
  apply_all [] s = s
  apply_all (p ∷ ds) s = apply_all ds (apply_one p s)

abbrev pub before_apply : Policies → Applied
before_apply ps = record {
  policies = ps;
  refs = [];
  errors = [];
  failed_namespaces = [];
  events = [];
}
