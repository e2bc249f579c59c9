-- ===== src/Networks/Covering.antt =====
-- The vnets that a pod is a member of are run again on the pod's events
-- (virtualnetwork_controller.go, `podToVnets` and `JoinLabelChangedPredicate`).
use Prim.Native.String.{◌++◌}
use kube_vnet.Prelude.{
  String, ◌≡◌, ◌≢◌, refl, sym, ap, ◌∙◌, inl, inr, Bool, true, false, Option, none, some, [], ◌∷◌,
  arith, if◌then◌else◌, ◌==◌, string_eq, beq_of_ne, beq→eq, any, or_else, lookup, HasUniqueKeys,
  Bool-cases,
}
use kube_vnet.Prelude.Texts.{
  cut_prefix, cut_dot, cut_prefix-append, cut_prefix-append_none, has_prefix-append, cut_dot-join,
}
use kube_vnet.Objects.{Labels, object_key_eq, Pod}
use kube_vnet.Direction.{Direction, direction_eq, parse_bare_direction}
use kube_vnet.Keys.{
  system_vnet_cluster, user_join_prefix, label_system_net_prefix, system_label_key,
}
use kube_vnet.Keys.Agreement.{IsName, ne_of_cut}
use kube_vnet.Stamps.{annotation_resolved_generation}
use kube_vnet.Namespaces.{value_at}
use kube_vnet.Members.{only_some_direction, stamped_direction}
use kube_vnet.Networks.Watching.{
  is_join_label, join_labels, join_suffix, request_of, requests_for, requests_of, pod_to_vnets,
  join_label_set, resolved_generation, update, join_label_changed,
}
use kube_vnet.Sweep.Comparing.{lookup_of_maps_equal}

stamp_of_some :
    (o : Option String) (is_marked : Bool) (d : Direction)
    → (if is_marked then none else only_some_direction (parse_bare_direction (or_else o "")))
      ≡ some d
    → (v : String) × (o ≡ some v)
unfolding parse_bare_direction
stamp_of_some none true d h = absurd (cc h)
stamp_of_some none false d h = absurd (cc h)
stamp_of_some (some v) is_marked d h = (v, refl)

-- A stamped pod has the stamp.
stamp_there :
    (p : Pod) (k : String) (d : Direction)
    → stamped_direction p k ≡ some d
    → (v : String) × (lookup k p.labels ≡ some v)
unfolding stamped_direction
stamp_there p k d h =
    stamp_of_some (lookup k p.labels) (value_at annotation_resolved_generation p.annotations == "")
      d h

-- The request for each label is among the pod's requests.
requests_of-lookup :
    (op ns : String) (labels : Labels) (k v suffix : String)
    → lookup k labels ≡ some v
    → join_suffix (cut_prefix k user_join_prefix) (cut_prefix k label_system_net_prefix)
      ≡ some suffix
    → any (λ r. r == request_of op ns suffix) (requests_of op ns labels) ≡ true
unfolding requests_of lookup
requests_of-lookup op ns [] k v suffix there is_join = absurd (cc there)
requests_of-lookup op ns ((j, w) ∷ m) k v suffix there is_join = elim (Bool-cases (j == k)) [
  | inl same ↦
      let first =
        ap (λ i. join_suffix (cut_prefix i user_join_prefix) (cut_prefix i label_system_net_prefix))
          (beq→eq j k same)
        ∙ is_join in
      rw first
        (ground (arith, object_key_eq.beq_iff (request_of op ns suffix) (request_of op ns suffix)))
  | inr other ↦
      kept (join_suffix (cut_prefix j user_join_prefix) (cut_prefix j label_system_net_prefix))
        (requests_of-lookup op ns m k v suffix (ground (arith, other, there)) is_join)
]
  where
    kept :
        (o : Option String)
        → any (λ r. r == request_of op ns suffix) (requests_of op ns m) ≡ true
        → any (λ r. r == request_of op ns suffix) (requests_for op ns o (requests_of op ns m))
          ≡ true
    kept none h = h
    kept (some x) h = ground (arith, h)

-- The stamp of a vnet is read back as the vnet.
request_of-system_label_key :
    (op ns home_ns name : String)
    → IsName home_ns
    → IsName name
    → (name ≡ system_vnet_cluster → (home_ns ≡ op))
    → op ≢ ""
    → (suffix : String) × (join_suffix
          (cut_prefix (system_label_key home_ns name) user_join_prefix)
          (cut_prefix (system_label_key home_ns name) label_system_net_prefix)
        ≡ some suffix)
      × (request_of op ns suffix ≡ record { namespace = home_ns; name = name })
unfolding system_label_key
request_of-system_label_key op ns home_ns name h n is_home is_set =
    elim (Bool-cases (name == system_vnet_cluster)) [
      | inl e ↦
          let same = beq→eq name system_vnet_cluster e in
          (
            system_vnet_cluster,
            rw e (unfold cut_prefix in refl),
            rw (beq_of_ne op "" is_set) (ground (arith, same, is_home same)),
          )
      | inr e ↦
          let suffix = home_ns ++ "." ++ name in
          let cut = cut_dot-join home_ns name h.has_no_dot in
          (
            suffix,
            rw (
              e,
              cut_prefix-append_none label_system_net_prefix user_join_prefix suffix
                  (unfold cut_prefix in refl) (unfold cut_prefix in refl),
              cut_prefix-append label_system_net_prefix suffix,
            ),
            rw (ne_of_cut suffix "cluster" cut (unfold cut_dot in refl), cut),
          )
    ]

-- Every vnet that a pod is a stamped member of is among those that an event of the pod runs again,
-- where the names are names of Kubernetes, the operator's namespace is set, and a vnet called
-- `cluster` lives there.
pub pod_to_vnets-covers :
    (op : String) (p : Pod) (home_ns name : String) (d : Direction)
    → IsName home_ns
    → IsName name
    → (name ≡ system_vnet_cluster → (home_ns ≡ op))
    → op ≢ ""
    → stamped_direction p (system_label_key home_ns name) ≡ some d
    → any (λ r. r == record { namespace = home_ns; name = name }) (pod_to_vnets op p) ≡ true
unfolding pod_to_vnets
pod_to_vnets-covers op p home_ns name d h n is_home is_set stamped =
    let key = system_label_key home_ns name in
    let (v, there) = stamp_there p key d stamped in
    let (suffix, is_join, same) =
      request_of-system_label_key op p.namespace home_ns name h n is_home is_set in
    ap (λ q. any (λ r. r == q) (requests_of op p.namespace p.labels)) (sym same)
    ∙ requests_of-lookup op p.namespace p.labels key v suffix there is_join

lookup-join_labels :
    (k : String) (m : Labels) → is_join_label k ≡ true → lookup k (join_labels m) ≡ lookup k m
unfolding lookup
lookup-join_labels k [] h = refl
lookup-join_labels k ((j, v) ∷ m) h = elim (Bool-cases (j == k)) [
  | inl same ↦
      let is_join = ap is_join_label (beq→eq j k same) ∙ h in rw (is_join, same, lookup) refl
  | inr other ↦ elim (Bool-cases (is_join_label j)) [
    | inl e ↦ rw (e, other, lookup) (lookup-join_labels k m h)
    | inr e ↦ rw (e, other) (lookup-join_labels k m h)
  ]
]

absent_join_labels : (k : String) (m : Labels) → lookup k m ≡ none → lookup k (join_labels m) ≡ none
unfolding lookup
absent_join_labels k [] h = refl
absent_join_labels k ((j, v) ∷ m) h = elim (Bool-cases (j == k)) [
  | inl same ↦ absurd (cc (rw same at h))
  | inr other ↦
      let rest = absent_join_labels k m (ground (arith, other, h)) in
      elim (Bool-cases (is_join_label j)) [ inl e ↦ rw (e, other, lookup) rest | inr e ↦ rw e rest ]
]

join_labels-HasUniqueKeys : (m : Labels) → HasUniqueKeys m → HasUniqueKeys (join_labels m)
join_labels-HasUniqueKeys [] u = tt
join_labels-HasUniqueKeys ((j, v) ∷ m) u = elim (Bool-cases (is_join_label j)) [
  | inl e ↦ rw e ((absent_join_labels j m u.0, join_labels-HasUniqueKeys m u.1))
  | inr e ↦ rw e (join_labels-HasUniqueKeys m u.1)
]

system_label_key-is_join_label :
    (home_ns name : String) → is_join_label (system_label_key home_ns name) ≡ true
unfolding is_join_label system_label_key
system_label_key-is_join_label home_ns name = elim (Bool-cases (name == system_vnet_cluster)) [
  | inl e ↦
      let starts = has_prefix-append label_system_net_prefix system_vnet_cluster in
      rw e (ground (arith, starts))
  | inr e ↦
      let starts = has_prefix-append label_system_net_prefix (home_ns ++ "." ++ name) in
      rw e (ground (arith, starts))
]

-- An update that the predicate does not let through leaves the pod's direction in every vnet as it
-- was, for labels with one entry a key.
pub join_label_changed-covers :
    (old new : Pod) (home_ns name : String)
    → HasUniqueKeys old.labels
    → HasUniqueKeys new.labels
    → join_label_changed (update (some old) (some new)) ≡ false
    → stamped_direction old (system_label_key home_ns name)
      ≡ stamped_direction new (system_label_key home_ns name)
unfolding join_label_changed stamped_direction join_label_set resolved_generation
join_label_changed-covers old new home_ns name uo un h =
    let key = system_label_key home_ns name in
    let is_join = system_label_key-is_join_label home_ns name in
    let same_labels : lookup key old.labels ≡ lookup key new.labels =
      sym (lookup-join_labels key old.labels is_join)
      ∙ lookup_of_maps_equal key (join_labels old.labels) (join_labels new.labels)
          (join_labels-HasUniqueKeys old.labels uo) (join_labels-HasUniqueKeys new.labels un)
          (ground (arith, h))
      ∙ lookup-join_labels key new.labels is_join in
    let same_mark : value_at annotation_resolved_generation old.annotations
        ≡ value_at annotation_resolved_generation new.annotations =
      beq→eq (value_at annotation_resolved_generation old.annotations)
        (value_at annotation_resolved_generation new.annotations) (ground (arith, h)) in
    rw (same_labels, same_mark) refl
