-- ===== src/SystemVnets.antt =====
-- internal/controller/system_vnet_controller.go: the system vnets, `namespace` in each managed
-- namespace and `cluster` in the operator's.
pub mod Keeping
use kube_vnet.Prelude.{
  String, Bool, true, false, not, Option, none, some, List, [], ◌∷◌, ◌++◌, if◌then◌else◌, ◌==◌,
  string_eq, Map, lookup, insert, delete_if,
}
use kube_vnet.Effects.{Error, Fetch, found, not_found, failed, Event}
use kube_vnet.Objects.{ObjectKey, object_key_eq, NamespaceSelector, VirtualNetwork, Namespace}
use kube_vnet.Keys.{system_vnet_namespace, system_vnet_cluster}
use kube_vnet.Policies.{managed_labels}
use kube_vnet.Namespaces.{NamespaceFilter, is_managed}
use kube_vnet.Sweep.{operator_managed, DeleteOutcome, deleted, already_gone, delete_failed}
use kube_vnet.Signals.{apply_failed}

abbrev pub Vnets : Type 0
Vnets = Map ObjectKey VirtualNetwork

-- The API server's answers, and what it stores of an apply over what was there.
pub record VnetApi : Type 0 where
  pub get_error : ObjectKey → Option Error
  pub patch_error : VirtualNetwork → Option Error
  pub delete_outcome : ObjectKey → DeleteOutcome
  pub applied : (live : Option VirtualNetwork) (desired : VirtualNetwork) → VirtualNetwork

pub record VnetOutcome : Type 0 where
  pub vnets : Vnets
  pub error : Option Error
  pub events : List Event

abbrev pub vnet_key : VirtualNetwork → ObjectKey
vnet_key v = record { namespace = v.namespace; name = v.name }

abbrev pub vnets_left : Vnets → Option Error → VnetOutcome
vnets_left vs e = record { vnets = vs; error = e; events = [] }

-- The description is text that no operation reads, and is left out; the UID is the server's.
unfoldable pub desired_system_vnet :
    (name namespace : String) → (allowed : Option NamespaceSelector) → VirtualNetwork
desired_system_vnet name namespace allowed = record {
  namespace = namespace;
  name = name;
  uid = "";
  labels = managed_labels [];
  deleting = false;
  allowed_namespaces = allowed;
}

abbrev pub every_namespace : NamespaceSelector
every_namespace = record { all = true; names = []; selector = none }

module _ (api : VnetApi) (recorder : Bool) where
  abbrev pub patched : VirtualNetwork → (impact : String) → Option Error → Vnets → VnetOutcome
  patched desired impact (some e) vs = record {
    vnets = vs;
    error = some e;
    events =
        apply_failed recorder
          (record { kind = "VirtualNetwork"; namespace = desired.namespace; name = desired.name })
          (desired.namespace ∷ desired.name ∷ e ∷ impact ∷ []);
  }
  patched desired impact none vs =
      vnets_left (insert (vnet_key desired) (api.applied (lookup (vnet_key desired) vs) desired) vs)
        none

  unfoldable pub apply_system_vnet : VirtualNetwork → (impact : String) → Vnets → VnetOutcome
  apply_system_vnet desired impact vs = patched desired impact (api.patch_error desired) vs

  abbrev pub after_delete : ObjectKey → DeleteOutcome → Vnets → VnetOutcome
  after_delete k deleted vs = vnets_left (delete_if (λ j. j == k) vs) none
  after_delete k already_gone vs = vnets_left (delete_if (λ j. j == k) vs) none
  after_delete k (delete_failed e) vs = vnets_left vs (some e)

  -- Only what the operator created goes.
  abbrev pub delete_read : ObjectKey → Option Error → Option VirtualNetwork → Vnets → VnetOutcome
  delete_read k (some e) live vs = vnets_left vs (some e)
  delete_read k none none vs = vnets_left vs none
  delete_read k none (some v) vs =
      if operator_managed v.labels
      then after_delete k (api.delete_outcome k) vs
      else vnets_left vs none

  abbrev pub namespace_vnet_key : String → ObjectKey
  namespace_vnet_key ns = record { namespace = ns; name = system_vnet_namespace }

  unfoldable pub delete_namespace_system_vnet : (ns : String) → Vnets → VnetOutcome
  delete_namespace_system_vnet ns vs =
      let k = namespace_vnet_key ns in delete_read k (api.get_error k) (lookup k vs) vs

  module _ (filter : NamespaceFilter) (operator_ns : String) where
    -- The first step: the `namespace` vnet is kept or goes.
    abbrev pub namespace_step : Namespace → Vnets → VnetOutcome
    namespace_step ns vs =
        if is_managed filter (some ns)
        then apply_system_vnet (desired_system_vnet system_vnet_namespace ns.name none)
            "pods in this namespace that join `namespace` are not members of it until this is fixed"
            vs
        else if not (ns.name == operator_ns)
        then delete_namespace_system_vnet ns.name vs
        else vnets_left vs none

    abbrev pub cluster_step : Namespace → Vnets → VnetOutcome
    cluster_step ns vs =
        if ns.name == operator_ns
        then apply_system_vnet
            (desired_system_vnet system_vnet_cluster operator_ns (some every_namespace))
            "pods that join `cluster` are not members of it until this is fixed" vs
        else vnets_left vs none

    -- The second step, unless the first one failed.
    abbrev pub and_then : Namespace → Vnets → Option Error → List Event → VnetOutcome
    and_then ns vs (some e) events = record { vnets = vs; error = some e; events = events }
    and_then ns vs none events =
        let second = cluster_step ns vs in record second { events = events ++ second.events }

    abbrev pub both_steps : Namespace → VnetOutcome → VnetOutcome
    both_steps ns first = and_then ns first.vnets first.error first.events

    -- `SystemVnetReconciler.Reconcile`, on the outcome of reading the namespace.
    unfoldable pub reconcile_system_vnets : Fetch Namespace → Vnets → VnetOutcome
    reconcile_system_vnets not_found vs = vnets_left vs none
    reconcile_system_vnets (failed e) vs = vnets_left vs (some e)
    reconcile_system_vnets (found ns) vs =
        if ns.deleting then vnets_left vs none else both_steps ns (namespace_step ns vs)
