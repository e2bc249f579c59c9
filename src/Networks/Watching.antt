-- ===== src/Networks/Watching.antt =====
-- internal/controller/virtualnetwork_controller.go: which events run the reconcile of a vnet again.
use kube_vnet.Prelude.{
  String, Bool, false, not, ◌&&◌, ◌||◌, Option, none, some, List, [], ◌∷◌, if◌then◌else◌, ◌==◌,
  string_eq, is_nil,
}
use kube_vnet.Prelude.Texts.{cut_prefix, has_prefix, cut_dot}
use kube_vnet.Effects.{Result, ok, err}
use kube_vnet.Objects.{Labels, ObjectKey, VirtualNetwork, Pod, NetworkPolicy}
use kube_vnet.Cluster.{Cluster}
use kube_vnet.Keys.{system_vnet_cluster, user_join_prefix, label_system_net_prefix}
use kube_vnet.Policies.{label_network}
use kube_vnet.Permits.{permits_for_vnet}
use kube_vnet.Stamps.{annotation_resolved_generation}
use kube_vnet.Namespaces.{value_at}
use kube_vnet.Sweep.{maps_equal}

unfoldable pub is_join_label : String → Bool
is_join_label k = has_prefix k user_join_prefix || has_prefix k label_system_net_prefix

abbrev pub join_labels : Labels → Labels
join_labels [] = []
join_labels ((k, v) ∷ m) =
    let rest = join_labels m in if is_join_label k then (k, v) ∷ rest else rest

-- A pod of an event is `none` where it is nil.
unfoldable pub join_label_set : Option Pod → Labels
join_label_set none = []
join_label_set (some p) = join_labels p.labels

unfoldable pub has_join_label : Option Pod → Bool
unfolding join_label_set
has_join_label p = not (is_nil (join_label_set p))

unfoldable pub resolved_generation : Option Pod → String
resolved_generation none = ""
resolved_generation (some p) = value_at annotation_resolved_generation p.annotations

pub data PodEvent : Type 0 where
  create delete generic : Option Pod → PodEvent
  update : (old new : Option Pod) → PodEvent

-- `JoinLabelChangedPredicate`
unfoldable pub join_label_changed : PodEvent → Bool
unfolding has_join_label join_label_set resolved_generation
join_label_changed (create p) = has_join_label p
join_label_changed (delete p) = has_join_label p
join_label_changed (generic p) = has_join_label p
join_label_changed (update old new) =
    not (maps_equal (join_label_set old) (join_label_set new))
    || not (resolved_generation old == resolved_generation new)

abbrev ok_true : Result Bool → Bool
ok_true (ok admitted) = admitted
ok_true (err e) = false

abbrev pub admitting : Cluster → String → List VirtualNetwork → List ObjectKey
admitting c ns [] = []
admitting c ns (v ∷ vs) =
    let rest = admitting c ns vs in
    if ok_true (permits_for_vnet c (some v) ns)
    then record { namespace = v.namespace; name = v.name } ∷ rest
    else rest

-- On the outcome of listing the vnets.
unfoldable pub ns_to_vnets : Cluster → Result (List VirtualNetwork) → (ns : String) → List ObjectKey
ns_to_vnets c (err e) ns = []
ns_to_vnets c (ok vnets) ns = admitting c ns vnets

-- What follows one of the two prefixes.
abbrev pub join_suffix : Option String → Option String → Option String
join_suffix (some suffix) _ = some suffix
join_suffix none o = o

abbrev pub named_by : (pod_ns suffix : String) → Option (String × String) → ObjectKey
named_by pod_ns suffix none = record { namespace = pod_ns; name = suffix }
named_by pod_ns suffix (some (home_ns, name)) = record { namespace = home_ns; name = name }

module _ (operator_namespace : String) where
  abbrev pub request_of : (pod_ns suffix : String) → ObjectKey
  request_of pod_ns suffix =
      if suffix == system_vnet_cluster && not (operator_namespace == "")
      then record { namespace = operator_namespace; name = suffix }
      else named_by pod_ns suffix (cut_dot suffix)

  abbrev pub requests_for : String → Option String → List ObjectKey → List ObjectKey
  requests_for pod_ns none rest = rest
  requests_for pod_ns (some suffix) rest = request_of pod_ns suffix ∷ rest

  unfoldable pub requests_of : (pod_ns : String) → Labels → List ObjectKey
  requests_of pod_ns [] = []
  requests_of pod_ns ((k, v) ∷ m) =
      let rest = requests_of pod_ns m in
      requests_for pod_ns
        (join_suffix (cut_prefix k user_join_prefix) (cut_prefix k label_system_net_prefix)) rest

  unfoldable pub pod_to_vnets : Pod → List ObjectKey
  unfolding requests_of
  pod_to_vnets p = requests_of p.namespace p.labels

abbrev pub network_of : Option (String × String) → List ObjectKey
network_of none = []
network_of (some (home_ns, name)) = record { namespace = home_ns; name = name } ∷ []

unfoldable pub policy_to_vnet : NetworkPolicy → List ObjectKey
policy_to_vnet p = network_of (cut_dot (value_at label_network p.labels))
