-- ===== src/Resolver.antt =====
-- internal/controller/resolver.go: the labels that a pod should carry, from the cluster's state.
mod Notes
pub mod Soundness
pub mod Stamped
unfoldable pub use Notes.{net_stamp, service_account_username}
use Notes.{
  invalid_reference, not_joinable_cause, not_joinable_hint, bare_join_label_hint, binding_source,
  join_label_source, namespace_baseline_source,
}
use kube_vnet.Prelude.{
  String, Bool, true, false, ◌||◌, ◌&&◌, Option, none, some, List, [], ◌∷◌, ◌++◌, if◌then◌else◌,
  ◌==◌, string_eq, is_nil, Map, insert,
}
use kube_vnet.Prelude.Texts.{cut_prefix, has_prefix, has_dot}
use kube_vnet.Effects.{Result, ok, err, Fetch, found, not_found, failed, ObjectRef, Event, warning}
use kube_vnet.Effects.Eff.{Eff, pure, lift, write, ◌>>=◌, ◌>>◌}
use kube_vnet.Objects.{
  Labels, LabelSelector, VirtualNetwork, VirtualNetworkBinding, VirtualNetworkRef,
  BaselineMembership, Baseline, Pod,
}
use kube_vnet.Cluster.{Cluster}
use kube_vnet.Direction.{Direction, text, parse_direction, parse_bare_direction}
use kube_vnet.Keys.{
  VnetKey, display, system_vnet_cluster, system_vnet_namespace, label_system_net_prefix,
  label_system_host_port_prefix, user_join_prefix, split_vnet_key, canonical_vnet_key,
  stamped_vnet_key, is_prefixed_cluster_suffix, canonical_suffix,
}
use kube_vnet.Permits.{permits}
use kube_vnet.Resolution.{
  ResolutionRule, ResolutionScope, cluster_baseline, namespace_baseline, ResolutionLayer,
  ResolutionResult, resolve,
}
use kube_vnet.HostPort.{desired_host_port_stamps}

abbrev pub reason_not_joinable : String
reason_not_joinable = "VirtualNetworkNotJoinable"

abbrev pub reason_invalid_direction : String
reason_invalid_direction = "InvalidDirection"

abbrev pub pod_ref : Pod → ObjectRef
pod_ref pod = record { kind = "Pod"; namespace = pod.namespace; name = pod.name }

-- A join label of a pod: the suffix behind `kube-vnet/net.`, and what its value and suffix make of it.
pub data JoinLabel : Type 0 where
  not_a_join : JoinLabel
  bad_direction : JoinLabel
  prefixed_cluster : JoinLabel
  join : Direction → String → JoinLabel

abbrev judge_join : String → Option Direction → JoinLabel
judge_join suffix none = bad_direction
judge_join suffix (some d) =
    if is_prefixed_cluster_suffix suffix then prefixed_cluster else join d suffix

unfoldable pub read_join_label : String → String → JoinLabel
read_join_label k v = elim (cut_prefix k user_join_prefix) [
  | none ↦ not_a_join
  | some suffix ↦ judge_join suffix (parse_bare_direction v)
]

unfoldable pub baseline_rules :
    List BaselineMembership → String → String → ObjectRef → List ResolutionRule
baseline_rules [] pod_ns source owner = []
baseline_rules (m ∷ ms) pod_ns source owner =
    let rest = baseline_rules ms pod_ns source owner in
    elim (parse_direction m.direction) [
      | none ↦ rest
      | some dir ↦
          record {
            vnet = canonical_vnet_key m.virtual_network_ref pod_ns;
            direction = dir;
            source = source;
            ref = m.virtual_network_ref;
            hint = "";
            owner = some owner;
          }
          ∷ rest
    ]

-- A tier with no rules makes no layer.
abbrev pub layer_of : ResolutionScope → List ResolutionRule → List ResolutionLayer
layer_of scope rules = if is_nil rules then [] else record { scope = scope; rules = rules } ∷ []

module _ (c : Cluster) (recorder : Bool) where
  abbrev pub event : ObjectRef → String → List String → List Event
  event obj reason args =
      if recorder
      then record { regarding = obj; event_type = warning; reason = reason; args = args } ∷ []
      else []

  abbrev pub not_joinable_note : VnetKey → String → String
  not_joinable_note key pod_ns = elim (split_vnet_key key) [
    | none ↦ invalid_reference key
    | some (home_ns, name) ↦ not_joinable_cause key pod_ns (c.get_vnet home_ns name)
  ]

  abbrev pub not_joinable_events : ResolutionRule → String → List Event
  not_joinable_events rule pod_ns = elim rule.owner [
    | none ↦ []
    | some owner ↦ event owner reason_not_joinable (
        display rule.vnet
        ∷ rule.source
        ∷ not_joinable_note rule.vnet pod_ns
        ∷ not_joinable_hint rule.ref
        ∷ rule.hint
        ∷ [])
  ]

  unfoldable pub filter_permitted_rules : List ResolutionRule → String → Eff (List ResolutionRule)
  filter_permitted_rules [] pod_ns = pure []
  filter_permitted_rules (rule ∷ rules) pod_ns =
      let rest = filter_permitted_rules rules pod_ns in
      do
        joinable ← lift (permits c rule.vnet pod_ns)
        if joinable
            then (do kept ← rest; pure (record rule { vnet = stamped_vnet_key rule.vnet } ∷ kept))
            else (do write (not_joinable_events rule pod_ns); rest)

  -- A missing baseline has no rules; a transient error propagates.
  unfoldable pub read_baseline :
      Fetch Baseline → String → String → ObjectRef → Result (List ResolutionRule)
  read_baseline not_found pod_ns source owner = ok []
  read_baseline (failed e) pod_ns source owner = err e
  read_baseline (found b) pod_ns source owner =
      ok (baseline_rules b.memberships pod_ns source owner)

  unfoldable pub cluster_baseline_rules : Pod → Result (List ResolutionRule)
  unfolding read_baseline
  cluster_baseline_rules pod =
      read_baseline (c.get_cluster_baseline "default") pod.namespace
        "ClusterVirtualNetworkBaseline/default" (pod_ref pod)

  unfoldable pub namespace_baseline_rules : Pod → Result (List ResolutionRule)
  unfolding read_baseline
  namespace_baseline_rules pod =
      read_baseline (c.get_baseline pod.namespace "default") pod.namespace
        (namespace_baseline_source pod.namespace)
        (record { kind = "VirtualNetworkBaseline"; namespace = pod.namespace; name = "default" })

  -- Whether a binding selects the pod; a malformed selector selects nothing.
  unfoldable pub binding_selects : VirtualNetworkBinding → Pod → Bool
  binding_selects b pod = elim (c.as_selector b.pod_selector) [
    | none ↦ false
    | some matches ↦ matches pod.labels
  ]

  unfoldable pub bindings_matching : List VirtualNetworkBinding → Pod → List ResolutionRule
  bindings_matching [] pod = []
  bindings_matching (b ∷ bs) pod =
      let rest = bindings_matching bs pod in
      if binding_selects b pod
      then elim (parse_bare_direction (if b.direction == "" then "both" else b.direction)) [
        | none ↦ rest
        | some dir ↦
            record {
              vnet = canonical_vnet_key b.virtual_network_ref pod.namespace;
              direction = dir;
              source = binding_source b.name;
              ref = b.virtual_network_ref;
              hint = "";
              owner = some (record {
                kind = "VirtualNetworkBinding";
                namespace = b.namespace;
                name = b.name;
              });
            }
            ∷ rest
      ]
      else rest

  unfoldable pub binding_rules : Pod → Result (List ResolutionRule)
  unfolding bindings_matching
  binding_rules pod = elim (c.list_bindings pod.namespace) [
    | err e ↦ err e
    | ok bs ↦ ok (bindings_matching bs pod)
  ]

  unfoldable pub join_label_rules : Pod → Labels → List Event × List ResolutionRule
  join_label_rules pod [] = ([], [])
  join_label_rules pod ((k, v) ∷ ls) =
      let (es, rules) = join_label_rules pod ls in
      elim (read_join_label k v) [
        | not_a_join ↦ (es, rules)
        | bad_direction ↦ (event (pod_ref pod) reason_invalid_direction (k ∷ v ∷ []) ++ es, rules)
        | prefixed_cluster ↦ (
          event (pod_ref pod) reason_not_joinable (k ∷ user_join_prefix ∷ system_vnet_cluster ∷ [])
              ++ es,
          rules,
        )
        | join dir suffix ↦ (
          es,
          record {
            vnet = canonical_suffix suffix pod.namespace;
            direction = dir;
            source = join_label_source k;
            ref = record { name = ""; namespace = "" };
            hint = bare_join_label_hint k suffix;
            owner = some (pod_ref pod);
          }
              ∷ rules,
        )
      ]

  unfoldable pub pod_label_rules : Pod → Eff (List ResolutionRule)
  unfolding join_label_rules
  pod_label_rules pod = let (es, rules) = join_label_rules pod pod.labels in (es, ok rules)

  unfoldable pub build_layers : Pod → Eff (List ResolutionLayer)
  build_layers pod = do
    cluster_rules ← lift (cluster_baseline_rules pod)
    cluster_kept ← filter_permitted_rules cluster_rules pod.namespace
    namespace_rules ← lift (namespace_baseline_rules pod)
    namespace_kept ← filter_permitted_rules namespace_rules pod.namespace
    bound ← lift (binding_rules pod)
    labelled ← pod_label_rules pod
    pod_kept ← filter_permitted_rules (bound ++ labelled) pod.namespace
    pure (
        layer_of cluster_baseline cluster_kept
        ++ (layer_of namespace_baseline namespace_kept ++ layer_of ResolutionScope.pod pod_kept))

-- `desired[LabelSystemNetPrefix+vnet] = dir` for the effective directions.
unfoldable pub net_stamps : Map VnetKey Direction → Labels
net_stamps [] = []
net_stamps ((vnet, dir) ∷ m) = insert (net_stamp vnet) (text dir) (net_stamps m)

-- `desired[stamp] = "true"` for the host ports.
unfoldable pub add_host_port_stamps : Map String Bool → Labels → Labels
add_host_port_stamps [] m = m
add_host_port_stamps ((stamp, _) ∷ stamps) m = insert stamp "true" (add_host_port_stamps stamps m)

-- The stamps of a resolved pod.
unfoldable pub desired_of : Pod → ResolutionResult → Labels
desired_of pod res = add_host_port_stamps (desired_host_port_stamps pod) (net_stamps res.effective)

module _ (c : Cluster) (recorder : Bool) where
  unfoldable pub desired_labels : Pod → Eff (Labels × ResolutionResult)
  desired_labels pod = do
    layers ← build_layers c recorder pod
    let res = resolve layers
    pure (desired_of pod res, res)

-- A label that resolution owns on pods.
unfoldable pub is_resolution_managed_label : String → Bool
is_resolution_managed_label k =
    has_prefix k label_system_net_prefix || has_prefix k label_system_host_port_prefix
