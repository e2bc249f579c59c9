-- ===== src/SystemVnets/Keeping.antt =====
-- The system vnets that a reconcile of system_vnet_controller.go leaves.
use kube_vnet.Prelude.{
  String, ◌≡◌, refl, sym, ap, ◌∙◌, inl, inr, Bool, false, not, Option, none, some, List, arith,
  if◌then◌else◌, ◌==◌, string_eq, lookup, lookup-insert, lookup-delete_if, Bool-cases,
}
use kube_vnet.Effects.{Error, Event, found}
use kube_vnet.Objects.{ObjectKey, object_key_eq, VirtualNetwork, Namespace}
use kube_vnet.Keys.{system_vnet_namespace, system_vnet_cluster}
use kube_vnet.Namespaces.{NamespaceFilter, is_managed}
use kube_vnet.Sweep.{operator_managed, DeleteOutcome, deleted, already_gone, delete_failed}
use kube_vnet.SystemVnets.{
  Vnets, VnetApi, vnet_key, desired_system_vnet, every_namespace, patched, apply_system_vnet,
  after_delete, delete_read, namespace_vnet_key, delete_namespace_system_vnet, namespace_step,
  cluster_step, and_then, both_steps, reconcile_system_vnets, vnets_left,
}

-- What is left where only the operator's own vnet goes.
abbrev pub unless_managed : Option VirtualNetwork → Option VirtualNetwork
unless_managed none = none
unless_managed (some v) = if operator_managed v.labels then none else some v

abbrev pub cluster_vnet_key : String → ObjectKey
cluster_vnet_key ns = record { namespace = ns; name = system_vnet_cluster }

-- The vnets with one of them put in place.
abbrev IsPut : ObjectKey → Option VirtualNetwork → Vnets → Vnets → Type 0
IsPut at o before after =
    (k : ObjectKey) → lookup k after ≡ (if at == k then o else lookup k before)

untouched-IsPut :
    (at : ObjectKey) (o : Option VirtualNetwork) (vs : Vnets) → lookup at vs ≡ o → IsPut at o vs vs
untouched-IsPut at o vs there k = ground (arith, object_key_eq.beq_iff at k, there)

module _ (api : VnetApi) (recorder : Bool) where
  patched-IsPut :
      (desired : VirtualNetwork) (impact : String) (e : Option Error) (vs : Vnets)
      → (patched api recorder desired impact e vs).error ≡ none
      → IsPut
          (vnet_key desired)
          (some (api.applied (lookup (vnet_key desired) vs) desired))
          vs
          (patched api recorder desired impact e vs).vnets
  patched-IsPut desired impact (some e) vs h k = absurd (cc h)
  patched-IsPut desired impact none vs h k =
      lookup-insert (vnet_key desired) k (api.applied (lookup (vnet_key desired) vs) desired) vs

  apply_system_vnet-IsPut :
      (desired : VirtualNetwork) (impact : String) (vs : Vnets)
      → (apply_system_vnet api recorder desired impact vs).error ≡ none
      → IsPut
          (vnet_key desired)
          (some (api.applied (lookup (vnet_key desired) vs) desired))
          vs
          (apply_system_vnet api recorder desired impact vs).vnets
  unfolding apply_system_vnet
  apply_system_vnet-IsPut desired impact vs h =
      patched-IsPut desired impact (api.patch_error desired) vs h

  after_delete-IsPut :
      (at : ObjectKey) (o : DeleteOutcome) (vs : Vnets)
      → (after_delete api recorder at o vs).error ≡ none
      → IsPut at none vs (after_delete api recorder at o vs).vnets
  after_delete-IsPut at deleted vs h k =
      lookup-delete_if (λ j. j == at) k vs
      ∙ ground (arith, object_key_eq.beq_iff at k, object_key_eq.beq_iff k at)
  after_delete-IsPut at already_gone vs h k =
      lookup-delete_if (λ j. j == at) k vs
      ∙ ground (arith, object_key_eq.beq_iff at k, object_key_eq.beq_iff k at)
  after_delete-IsPut at (delete_failed e) vs h k = absurd (cc h)

  delete_read-IsPut :
      (at : ObjectKey) (e : Option Error) (live : Option VirtualNetwork) (vs : Vnets)
      → lookup at vs ≡ live
      → (delete_read api recorder at e live vs).error ≡ none
      → IsPut at (unless_managed live) vs (delete_read api recorder at e live vs).vnets
  delete_read-IsPut at (some e) live vs there h = absurd (cc h)
  delete_read-IsPut at none none vs there h = untouched-IsPut at none vs there
  delete_read-IsPut at none (some v) vs there h = elim (Bool-cases (operator_managed v.labels)) [
    | inl ours ↦ rw ours (after_delete-IsPut at (api.delete_outcome at) vs (rw ours at h))
    | inr theirs ↦ rw theirs (untouched-IsPut at (some v) vs there)
  ]

  delete_namespace_system_vnet-IsPut :
      (ns : String) (vs : Vnets)
      → (delete_namespace_system_vnet api recorder ns vs).error ≡ none
      → IsPut
          (namespace_vnet_key api recorder ns)
          (unless_managed (lookup (namespace_vnet_key api recorder ns) vs))
          vs
          (delete_namespace_system_vnet api recorder ns vs).vnets
  unfolding delete_namespace_system_vnet
  delete_namespace_system_vnet-IsPut ns vs h =
      let k = namespace_vnet_key api recorder ns in
      delete_read-IsPut k (api.get_error k) (lookup k vs) vs refl h

  module _ (filter : NamespaceFilter) (operator_ns : String) where
    -- What there is of the `namespace` vnet of a namespace, by what there was.
    abbrev pub kept_namespace_vnet : Namespace → Option VirtualNetwork → Option VirtualNetwork
    kept_namespace_vnet ns live =
        if is_managed filter (some ns)
        then some (api.applied live (desired_system_vnet system_vnet_namespace ns.name none))
        else if not (ns.name == operator_ns)
        then unless_managed live
        else live

    -- What there is of the `cluster` vnet of a namespace.
    abbrev pub kept_cluster_vnet : Namespace → Option VirtualNetwork → Option VirtualNetwork
    kept_cluster_vnet ns live =
        if ns.name == operator_ns
        then some (
            api.applied live
              (desired_system_vnet system_vnet_cluster operator_ns (some every_namespace)))
        else live

    namespace_step-IsPut :
        (ns : Namespace) (vs : Vnets)
        → (namespace_step api recorder filter operator_ns ns vs).error ≡ none
        → IsPut
            (namespace_vnet_key api recorder ns.name)
            (kept_namespace_vnet ns (lookup (namespace_vnet_key api recorder ns.name) vs))
            vs
            (namespace_step api recorder filter operator_ns ns vs).vnets
    unfolding desired_system_vnet
    namespace_step-IsPut ns vs h = elim (Bool-cases (is_managed filter (some ns))) [
      | inl managed ↦ rw managed (
          apply_system_vnet-IsPut (desired_system_vnet system_vnet_namespace ns.name none)
            "pods in this namespace that join `namespace` are not members of it until this is fixed"
            vs (rw managed at h))
      | inr unmanaged ↦ elim (Bool-cases (ns.name == operator_ns)) [
        | inl own ↦
            let k = namespace_vnet_key api recorder ns.name in
            rw (unmanaged, own) (untouched-IsPut k (lookup k vs) vs refl)
        | inr other ↦
            rw (unmanaged, other)
              (delete_namespace_system_vnet-IsPut ns.name vs (rw (unmanaged, other) at h))
      ]
    ]

    cluster_step-IsPut :
        (ns : Namespace) (vs : Vnets)
        → (cluster_step api recorder filter operator_ns ns vs).error ≡ none
        → IsPut
            (cluster_vnet_key operator_ns)
            (kept_cluster_vnet ns (lookup (cluster_vnet_key operator_ns) vs))
            vs
            (cluster_step api recorder filter operator_ns ns vs).vnets
    unfolding desired_system_vnet
    cluster_step-IsPut ns vs h = elim (Bool-cases (ns.name == operator_ns)) [
      | inl own ↦ rw own (
          apply_system_vnet-IsPut
            (desired_system_vnet system_vnet_cluster operator_ns (some every_namespace))
            "pods that join `cluster` are not members of it until this is fixed" vs (rw own at h))
      | inr other ↦
          let k = cluster_vnet_key operator_ns in rw other (untouched-IsPut k (lookup k vs) vs refl)
    ]

    and_then_both :
        (ns : Namespace) (vs : Vnets) (e : Option Error) (events : List Event)
        → (and_then api recorder filter operator_ns ns vs e events).error ≡ none
        → (e ≡ none)
          × ((cluster_step api recorder filter operator_ns ns vs).error ≡ none)
          × ((and_then api recorder filter operator_ns ns vs e events).vnets
              ≡ (cluster_step api recorder filter operator_ns ns vs).vnets)
    and_then_both ns vs (some e) events h = absurd (cc h)
    and_then_both ns vs none events h = (refl, h, refl)

    live_steps :
        (ns : Namespace) (vs : Vnets)
        → ns.deleting ≡ false
        → reconcile_system_vnets api recorder filter operator_ns (found ns) vs
          ≡ both_steps api recorder filter operator_ns ns
              (namespace_step api recorder filter operator_ns ns vs)
    unfolding reconcile_system_vnets
    live_steps ns vs live =
        let steps =
          both_steps api recorder filter operator_ns ns
            (namespace_step api recorder filter operator_ns ns vs) in
        ap (λ ending. if ending then vnets_left vs none else steps) live

    -- After a reconcile without an error of a namespace that does not end, its `namespace` vnet is
    -- there as applied where the namespace is managed, and gone, if its label says that the operator
    -- manages it, where the namespace is neither managed nor the operator's own; the `cluster` vnet of
    -- the operator's namespace is there as applied where it is that namespace; and every other vnet is
    -- as it was, as these two are where none of this holds.
    pub lookup-reconcile_system_vnets :
        (ns : Namespace) (k : ObjectKey) (vs : Vnets)
        → ns.deleting ≡ false
        → (reconcile_system_vnets api recorder filter operator_ns (found ns) vs).error ≡ none
        → lookup k (reconcile_system_vnets api recorder filter operator_ns (found ns) vs).vnets ≡ (
            if cluster_vnet_key operator_ns == k
            then kept_cluster_vnet ns (lookup k vs)
            else if namespace_vnet_key api recorder ns.name == k
            then kept_namespace_vnet ns (lookup k vs)
            else lookup k vs)
    lookup-reconcile_system_vnets ns k vs live h =
        let steps = live_steps ns vs live in
        let first = namespace_step api recorder filter operator_ns ns vs in
        let (first_ok, second_ok, same) =
          and_then_both ns first.vnets first.error first.events
            (sym (ap (λ o. o.error) steps) ∙ h) in
        let at_namespace = namespace_step-IsPut ns vs first_ok in
        let at_cluster = cluster_step-IsPut ns first.vnets second_ok k in
        (ap (λ o. lookup k o.vnets) steps
          ∙ ap (lookup k) same
          ∙ at_cluster
          ∙ ground (
            arith,
            at_namespace k,
            at_namespace (cluster_vnet_key operator_ns),
            object_key_eq.beq_iff (cluster_vnet_key operator_ns) k,
            object_key_eq.beq_iff (namespace_vnet_key api recorder ns.name) k,
          ))
