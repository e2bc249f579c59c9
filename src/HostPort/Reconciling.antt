-- ===== src/HostPort/Reconciling.antt =====
-- internal/controller/hostport_controller.go: the policies of a namespace's host ports, one for each
-- port and protocol.
use Prim.Native.String.{◌++◌ as ◌+++◌}
use kube_vnet.Prelude.{
  String, Bool, not, ◌&&◌, ◌||◌, Option, none, some, List, [], ◌∷◌, ◌++◌, if◌then◌else◌, ◌==◌,
  string_eq, nat_beq, is_nil, length, any, all, Map, is_some, lookup,
}
use kube_vnet.Prelude.Decimal.{decimal}
use kube_vnet.Prelude.Texts.{strings_join}
use kube_vnet.Effects.{Error, Result, ok, err, Fetch, found, not_found, failed, Event}
use kube_vnet.Objects.{
  ObjectKey, object_key_eq, Protocol, tcp, udp, sctp, Namespace, Pod, NetworkPolicy,
}
use kube_vnet.Keys.{label_system_host_port_prefix}
use kube_vnet.Namespaces.{NamespaceFilter, is_managed, external_allow_opted_out}
use kube_vnet.Policies.{label_role, label_source_kind}
use kube_vnet.Sweep.{
  Policies, Api, ListOptions, key_of, in_namespace_policy_labels, apply_policy,
  sweep_stale_policies,
}
use kube_vnet.Signals.{tracker_applied, tracker_forget_namespace, apply_failed, policy_restored}
use kube_vnet.Baseline.{
  World, Outcome, policy_ref, done, failing, keeps_none, skips_none, forgotten,
}
use kube_vnet.HostPort.{HostPortKey, host_port_key_eq, key_text, lower, desired_host_port_keys}
use kube_vnet.Exposure.{any_address, append_policy_port, external_allow_policy}

abbrev source_kind_host : String
source_kind_host = "host"

-- `hostPortPolicyName`
unfoldable pub host_port_policy_name :
    (hash8 : String → String) → (ns : String) → HostPortKey → String
host_port_policy_name hash8 ns key =
    "kube-vnet.ext.host." +++ key_text key +++ "-" +++ hash8 (ns +++ "/" +++ key_text key)

unfoldable pub build_host_port_policy :
    (hash8 : String → String) → (ns : String) → HostPortKey → NetworkPolicy
build_host_port_policy hash8 ns key =
    external_allow_policy (host_port_policy_name hash8 ns key) ns source_kind_host
      ("host-" +++ decimal key.port +++ "-" +++ lower key.protocol)
      ((label_system_host_port_prefix +++ key_text key, "true") ∷ []) any_address
      (append_policy_port [] key.protocol key.port)

abbrev pub host_policies : String → ListOptions
host_policies ns =
    in_namespace_policy_labels ns
      ((label_role, "external-allow") ∷ (label_source_kind, source_kind_host) ∷ [])

abbrev protocol_text : Protocol → String
protocol_text tcp = "TCP"
protocol_text udp = "UDP"
protocol_text sctp = "SCTP"

-- The loop's state.
pub record Ports : Type 0 where
  pub world : World
  pub keep : List ObjectKey
  pub errors : List Error
  pub events : List Event

abbrev pub in_keys : List ObjectKey → ObjectKey → Bool
in_keys ks k = any (λ j. j == k) ks

module _ (api : Api) (hash8 : String → String) (recorder : Bool) where
  abbrev port_args : HostPortKey → List String
  port_args key = decimal key.port ∷ protocol_text key.protocol ∷ []

  abbrev restored_events : NetworkPolicy → HostPortKey → Bool → List Event
  restored_events pol key restored =
      if restored then policy_restored recorder (policy_ref pol) (port_args key) else []

  abbrev pub record_port : HostPortKey → NetworkPolicy → Ports → Policies × Result Bool → Ports
  record_port key pol s (ps, err e) = record s {
    world = record s.world { policies = ps };
    keep = key_of pol ∷ s.keep;
    errors = s.errors ++ ("apply host-port policy " +++ key_text key +++ ": " +++ e) ∷ [];
    events = s.events ++ apply_failed recorder (policy_ref pol) (pol.name ∷ e ∷ port_args key);
  }
  record_port key pol s (ps, ok created) =
      let (restores, restored) = tracker_applied (key_of pol) created s.world.restores in
      record s {
        world = record { policies = ps; restores = restores };
        keep = key_of pol ∷ s.keep;
        events = s.events ++ restored_events pol key restored;
      }

  unfoldable pub apply_port : (ns : String) → HostPortKey → Ports → Ports
  apply_port ns key s =
      let pol = build_host_port_policy hash8 ns key in
      record_port key pol s (apply_policy api pol s.world.policies)

  unfoldable pub apply_ports : (ns : String) → Map HostPortKey Bool → Ports → Ports
  apply_ports ns [] s = s
  apply_ports ns ((key, _) ∷ m) s = apply_ports ns m (apply_port ns key s)

  abbrev pub joined : List Error → Option Error → Option Error
  joined [] none = none
  joined [] (some e) = some e
  joined (e ∷ es) none = some (strings_join "\n" (e ∷ es))
  joined (e ∷ es) (some sweep_error) = some (strings_join "\n" (e ∷ es ++ sweep_error ∷ []))

  -- After the loop: the tracker forgets the other keys, and their policies go.
  unfoldable pub finish_ports : (ns : String) → Ports → Outcome
  finish_ports ns s =
      let (ps, e) =
        sweep_stale_policies api (host_policies ns) (in_keys s.keep) skips_none s.world.policies in
      record {
        world = record {
          policies = ps;
          restores = tracker_forget_namespace ns (in_keys s.keep) s.world.restores;
        };
        error = joined s.errors e;
        events = s.events;
      }

  abbrev pub before_ports : World → Ports
  before_ports w = record { world = w; keep = []; errors = []; events = [] }

  abbrev withdrawn : World → Policies × Option Error → Outcome
  withdrawn w (ps, e) = record { world = record w { policies = ps }; error = e; events = [] }

  -- An opted-out namespace keeps none.
  unfoldable pub withdraw_ports : (ns : String) → World → Outcome
  withdraw_ports ns w =
      withdrawn (forgotten ns w)
        (sweep_stale_policies api (host_policies ns) keeps_none skips_none w.policies)

  abbrev pub with_pods : (ns : String) → Result (List Pod) → World → Outcome
  with_pods ns (err e) w = failing w e
  with_pods ns (ok pods) w =
      finish_ports ns (apply_ports ns (desired_host_port_keys pods) (before_ports w))

  -- `HostPortReconciler.Reconcile`, on the outcomes of reading the namespace and listing its pods.
  unfoldable pub reconcile_host_ports :
      NamespaceFilter → (name : String) → Fetch Namespace → Result (List Pod) → World → Outcome
  reconcile_host_ports filter name not_found pods w = done (forgotten name w)
  reconcile_host_ports filter name (failed e) pods w = failing w e
  reconcile_host_ports filter name (found ns) pods w =
      if ns.deleting
      then done w
      else if not (is_managed filter (some ns)) || external_allow_opted_out ns.annotations
      then withdraw_ports ns.name w
      else with_pods ns.name pods w

-- The host ports of an event's pod; an object that is no pod is `none`.
unfoldable pub keys_of : Option Pod → Map HostPortKey Bool
keys_of none = []
keys_of (some p) = desired_host_port_keys (p ∷ [])

-- `maps.Equal` on sets of keys.
abbrev same_keys : (a b : Map HostPortKey Bool) → Bool
same_keys a b = nat_beq (length a) (length b) && all (λ (k, _). is_some (lookup k b)) a

-- `HostPortChangedPredicate`: creates, deletes and generic events, and updates.
unfoldable pub host_port_event : Option Pod → Bool
unfolding keys_of
host_port_event p = not (is_nil (keys_of p))

unfoldable pub host_port_update : (old new : Option Pod) → Bool
unfolding keys_of
host_port_update old new = not (same_keys (keys_of old) (keys_of new))
