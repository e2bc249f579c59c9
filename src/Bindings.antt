-- ===== src/Bindings.antt =====
-- internal/controller/virtualnetworkbinding_controller.go: the status of a binding, and the bindings
-- that an event runs again. The functions of apimachinery on conditions, statuses and selectors are
-- parameters.
use Prim.Native.String.{◌++◌ as ◌+++◌}
use kube_vnet.Prelude.{
  ℕ, zero, suc, String, Bool, true, false, not, ◌&&◌, ◌||◌, Option, none, some, List, [],
  if◌then◌else◌, ◌==◌, string_eq, ltb, length, select, map, is_some,
}
use kube_vnet.Prelude.Decimal.{decimal}
use kube_vnet.Prelude.Sorting.{sort}
use kube_vnet.Effects.{Error, Result, ok, err, Fetch, found, not_found, failed}
use kube_vnet.Objects.{
  Labels, LabelSelector, ObjectKey, object_key_eq, VirtualNetwork, VirtualNetworkBinding, Pod,
}
use kube_vnet.Cluster.{Cluster}
use kube_vnet.Direction.{Direction, text, parse_bare_direction}
use kube_vnet.Keys.{system_vnet_cluster, system_label_key}
use kube_vnet.Permits.{permits_for_vnet}
use kube_vnet.Resolution.{by_text}
use kube_vnet.Namespaces.{NamespaceFilter, manages}
use kube_vnet.Members.{stamped_direction}
use kube_vnet.Sweep.{operator_managed}
use kube_vnet.Networks.Conditions.{ConditionStatus, is_true, is_false, Condition}

pub record BindingStatus : Type 0 where
  pub conditions : List Condition
  pub attached_pods : List String
  pub observed_generation : ℕ

-- The object as it is fetched.
pub record StoredBinding : Type 0 where
  pub binding : VirtualNetworkBinding
  pub deleting : Bool
  pub generation : ℕ
  pub status : BindingStatus

pub record BindingApi : Type 0 where
  pub set_condition : Condition → List Condition → List Condition
  pub same_status : BindingStatus → BindingStatus → Bool
  pub update_error : BindingStatus → Option Error
  -- The text of the error about a malformed selector.
  pub selector_error : LabelSelector → String

-- The status that is written, if one is, and the error that makes the reconcile retry.
pub record BindingOutcome : Type 0 where
  pub write : Option BindingStatus
  pub error : Option Error

abbrev unwritten : Option Error → BindingOutcome
unwritten e = record { write = none; error = e }

abbrev target_namespace : (operator_ns : String) → VirtualNetworkBinding → String
target_namespace operator_ns b =
    let ref = b.virtual_network_ref in
    if ref.namespace == ""
    then if ref.name == system_vnet_cluster then operator_ns else b.namespace
    else ref.namespace

unfoldable pub binding_target : (operator_ns : String) → VirtualNetworkBinding → ObjectKey
binding_target operator_ns b = record {
  namespace = target_namespace operator_ns b;
  name = b.virtual_network_ref.name;
}

abbrev quoted : String → String
quoted s = "\"" +++ s +++ "\""

abbrev shown : (namespace name : String) → String
shown namespace name = namespace +++ "/" +++ name

module _ (api : BindingApi) where
  unfoldable pub set_binding_ready :
      ConditionStatus → (reason message : String) → BindingStatus → BindingStatus
  set_binding_ready status reason message s = record s {
    conditions =
        api.set_condition
          (record { kind = "Ready"; status = status; reason = reason; message = message })
          s.conditions;
  }

  -- `writeStatus`
  unfoldable pub write_status :
      StoredBinding → (attached_pods : List String) → BindingStatus → BindingOutcome
  write_status stored attached_pods s =
      let next : BindingStatus = record s {
        attached_pods = attached_pods;
        observed_generation = stored.generation;
      } in
      if api.same_status stored.status next
      then unwritten none
      else record { write = some next; error = api.update_error next }

  unfoldable pub not_ready : StoredBinding → (reason message : String) → BindingOutcome
  not_ready stored reason message =
      write_status stored [] (set_binding_ready is_false reason message stored.status)

  abbrev counted_pods : ℕ → String
  counted_pods n = decimal n +++ " pod(s)"

  -- The condition for the counts of selected and attached pods.
  abbrev attachment : VirtualNetwork → (selected attached : ℕ) → BindingStatus → BindingStatus
  attachment vnet zero attached s =
      set_binding_ready is_true "NoPodsMatch"
        "binding accepted; no pods currently match the selector" s
  attachment vnet (suc n) zero s =
      set_binding_ready is_true "NoPodsAttached"
        (counted_pods (suc n)
          +++ " match the selector, but none is a member of "
          +++ shown vnet.namespace vnet.name
          +++ "; see the pods' events and "
          +++ system_label_key vnet.namespace vnet.name
          +++ " label")
        s
  attachment vnet (suc n) (suc m) s =
      set_binding_ready is_true "PodsAttached"
        (if ltb m n
          then decimal (suc m)
            +++ " of "
            +++ decimal (suc n)
            +++ " selected pod(s) are members of "
            +++ shown vnet.namespace vnet.name
            +++ "; see the other pods' events and "
            +++ system_label_key vnet.namespace vnet.name
            +++ " label"
          else counted_pods (suc m) +++ " attached to " +++ shown vnet.namespace vnet.name)
        s

  abbrev pub pod_name : Pod → String
  pod_name p = p.name

  -- The names of the pods that resolution has made members.
  unfoldable pub attached_names : VirtualNetwork → List Pod → List String
  attached_names vnet pods = sort by_text (
      map pod_name (
        select (λ p. is_some (stamped_direction p (system_label_key vnet.namespace vnet.name)))
          pods))

  abbrev attach : StoredBinding → VirtualNetwork → Result (List Pod) → BindingOutcome
  attach stored vnet (err e) = unwritten (some e)
  attach stored vnet (ok selected) =
      let names = attached_names vnet selected in
      write_status stored names (attachment vnet (length selected) (length names) stored.status)

  abbrev matching : (Labels → Bool) → Result (List Pod) → Result (List Pod)
  matching sel (err e) = err e
  matching sel (ok pods) = ok (select (λ p. sel p.labels) pods)

  module _ (c : Cluster) (filter : NamespaceFilter) (operator_ns : String) where
    abbrev select_pods : StoredBinding → VirtualNetwork → Option (Labels → Bool) → BindingOutcome
    select_pods stored vnet none =
        not_ready stored "InvalidSelector" (api.selector_error stored.binding.pod_selector)
    select_pods stored vnet (some sel) =
        attach stored vnet (matching sel (c.list_pods stored.binding.namespace))

    abbrev when_permitted : StoredBinding → VirtualNetwork → Result Bool → BindingOutcome
    when_permitted stored vnet (err e) = unwritten (some e)
    when_permitted stored vnet (ok false) = not_ready stored "VirtualNetworkNotJoinable" (
        "VirtualNetwork "
        +++ shown vnet.namespace vnet.name
        +++ " does not permit namespace "
        +++ quoted stored.binding.namespace
        +++ "; its owner can add it to spec.allowedNamespaces")
    when_permitted stored vnet (ok true) =
        select_pods stored vnet (c.as_selector stored.binding.pod_selector)

    abbrev when_served : StoredBinding → VirtualNetwork → Result Bool → BindingOutcome
    when_served stored vnet (err e) = unwritten (some e)
    when_served stored vnet (ok false) = not_ready stored "HomeNamespaceExcluded" (
        "VirtualNetwork "
        +++ shown vnet.namespace vnet.name
        +++ " is not served: its home namespace "
        +++ quoted vnet.namespace
        +++ " is excluded by the operator")
    when_served stored vnet (ok true) =
        when_permitted stored vnet (permits_for_vnet c (some vnet) stored.binding.namespace)

    -- A system vnet, and one in the binding's own namespace, is served.
    abbrev is_served : StoredBinding → VirtualNetwork → Result Bool
    is_served stored vnet =
        if not (operator_managed vnet.labels) && not (vnet.namespace == stored.binding.namespace)
        then manages filter c vnet.namespace
        else ok true

    abbrev with_target : StoredBinding → ObjectKey → Fetch VirtualNetwork → BindingOutcome
    with_target stored key not_found =
        not_ready stored "VirtualNetworkNotJoinable"
          ("VirtualNetwork " +++ shown key.namespace key.name +++ " does not exist")
    with_target stored key (failed e) = unwritten (some e)
    with_target stored key (found vnet) =
        if vnet.deleting
        then not_ready stored "VirtualNetworkTerminating"
            ("VirtualNetwork " +++ shown vnet.namespace vnet.name +++ " is being deleted")
        else when_served stored vnet (is_served stored vnet)

    -- The direction; the empty one is `both`.
    abbrev direction_value : VirtualNetworkBinding → String
    direction_value b = if b.direction == "" then text Direction.both else b.direction

    abbrev locate : StoredBinding → ObjectKey → BindingOutcome
    locate stored key = with_target stored key (c.get_vnet key.namespace key.name)

    abbrev when_managed : StoredBinding → Result Bool → BindingOutcome
    when_managed stored (err e) = unwritten (some e)
    when_managed stored (ok false) =
        not_ready stored "NamespaceExcluded"
          ("namespace " +++ quoted stored.binding.namespace +++ " is excluded by the operator")
    when_managed stored (ok true) =
        if is_some (parse_bare_direction (direction_value stored.binding))
        then locate stored (binding_target operator_ns stored.binding)
        else not_ready stored "InvalidDirection" (
            "spec.direction "
            +++ quoted (direction_value stored.binding)
            +++ " is not one of both, ingress, egress, none")

    -- `VirtualNetworkBindingReconciler.Reconcile`, on the outcome of reading the binding.
    unfoldable pub reconcile_binding : Fetch StoredBinding → BindingOutcome
    reconcile_binding not_found = unwritten none
    reconcile_binding (failed e) = unwritten (some e)
    reconcile_binding (found stored) =
        if stored.deleting
        then unwritten none
        else when_managed stored (manages filter c stored.binding.namespace)

abbrev binding_key : VirtualNetworkBinding → ObjectKey
binding_key b = record { namespace = b.namespace; name = b.name }

-- `bindingRequests`, on the outcome of listing the bindings.
unfoldable pub binding_requests :
    Result (List VirtualNetworkBinding) → (VirtualNetworkBinding → Bool) → List ObjectKey
binding_requests (err e) keep = []
binding_requests (ok bindings) keep = map binding_key (select keep bindings)

unfoldable pub bindings_in_namespace_of : Cluster → (ns : String) → List ObjectKey
bindings_in_namespace_of c ns = binding_requests (c.list_bindings ns) (λ b. true)

unfoldable pub ns_to_bindings :
    (operator_ns : String) → Result (List VirtualNetworkBinding) → (ns : String) → List ObjectKey
ns_to_bindings operator_ns bindings ns =
    binding_requests bindings
      (λ b. b.namespace == ns || (binding_target operator_ns b).namespace == ns)

unfoldable pub vnet_to_bindings :
    (operator_ns : String)
    → Result (List VirtualNetworkBinding)
    → (vnet : ObjectKey) → List ObjectKey
vnet_to_bindings operator_ns bindings vnet =
    binding_requests bindings (λ b. binding_target operator_ns b == vnet)
