-- ===== src/NetworkWait.antt =====
-- The network wait's opt-in: internal/controller/network_wait.go and
-- internal/webhook/podresolution/networkwait.go. `time.ParseDuration` and `Duration.String` are the
-- standard library's, hence parameters.
use Prim.Native.String.{◌++◌ as ◌+++◌}
use kube_vnet.Prelude.{
  ℕ, String, Bool, true, false, not, ◌&&◌, ◌||◌, Option, none, some, [], ◌∷◌, if◌then◌else◌, ltb,
  ◌==◌, string_eq, any, lookup, is_some, or_else,
}
use kube_vnet.Objects.{Container, Pod}

abbrev pub annotation_network_max_wait : String
annotation_network_max_wait = "kube-vnet/network-max-wait"

abbrev pub network_wait_container_name : String
network_wait_container_name = "kube-vnet-network-wait"

-- A duration in nanoseconds, with its sign.
pub record Duration : Type 0 where
  pub negative : Bool
  pub nanoseconds : ℕ

pub record Durations : Type 0 where
  pub parse : String → Option Duration
  pub print : Duration → String

abbrev pub is_positive : Duration → Bool
is_positive d = not d.negative && ltb 0 d.nanoseconds

abbrev pub max_wait_of : Pod → Option String
max_wait_of pod = lookup annotation_network_max_wait pod.annotations

-- The notes; `%q` is the text as it stands.
abbrev pub unmanaged_note : String
unmanaged_note =
    annotation_network_max_wait
    +++ " is set, but kube-vnet does not manage this namespace; the pod starts without waiting"

abbrev pub not_enabled_note : String
not_enabled_note =
    annotation_network_max_wait
    +++ " is set, but the network wait is not enabled on this cluster (chart value webhook.networkWait.enabled); the pod starts without waiting"

abbrev pub bad_duration_note : String → String
bad_duration_note value =
    annotation_network_max_wait +++ "=\"" +++ value
    +++ "\" is not a positive duration such as \"30s\"; the pod starts without waiting"

abbrev pub missing_note : String
missing_note =
    annotation_network_max_wait +++ " is set, but the pod has no " +++ network_wait_container_name
    +++ " init container: the admission webhook did not inject it at creation (it was unreachable, or the annotation was added later); the pod started without waiting"

abbrev pub has_wait_container : Pod → Bool
has_wait_container pod = any (λ c. c.name == network_wait_container_name) pod.init_containers

-- `networkWaitMissing`, `none` for the empty text.
unfoldable pub network_wait_missing : Pod → Option String
network_wait_missing pod =
    if not (is_some (max_wait_of pod)) || pod.host_network
    then none
    else if has_wait_container pod
    then none
    else some missing_note

pub record NetworkWaitConfig : Type 0 where
  pub image : String
  pub beacons : String

module _ (durations : Durations) where
  abbrev parsed_positive : String → Bool
  parsed_positive value = elim (durations.parse value) [ none ↦ false | some d ↦ is_positive d ]

  -- `NetworkWaitWarning`, `none` for the empty text.
  unfoldable pub network_wait_warning : Pod → (managed enabled : Bool) → Option String
  network_wait_warning pod managed enabled = elim (max_wait_of pod) [
    | none ↦ none
    | some value ↦
        if pod.host_network
        then none
        else if not managed
        then some unmanaged_note
        else if not enabled
        then some not_enabled_note
        else if parsed_positive value
        then none
        else some (bad_duration_note value)
  ]

  abbrev wait_container : NetworkWaitConfig → Duration → Container
  wait_container cfg max_wait = record {
    name = network_wait_container_name;
    image = cfg.image;
    args =
        "network-wait"
        ∷ ("--beacons=" +++ cfg.beacons)
        ∷ ("--max-wait=" +++ durations.print max_wait)
        ∷ [];
    ports = [];
    restart_policy = none;
  }

  -- A duration that does not parse is 0.
  abbrev parsed : String → Duration
  parsed value = or_else (durations.parse value) (record { negative = false; nanoseconds = 0 })

  abbrev wait_for : Pod → Option NetworkWaitConfig → String → Option Container
  wait_for pod none value = none
  wait_for pod (some cfg) value =
      if has_wait_container pod then none else some (wait_container cfg (parsed value))

  -- The container to inject and the warning.
  unfoldable pub network_wait : Pod → Option NetworkWaitConfig → Option Container × Option String
  network_wait pod cfg = elim (max_wait_of pod) [
    | none ↦ (none, none)
    | some value ↦
        if pod.host_network
        then (none, none)
        else elim (network_wait_warning pod true (is_some cfg)) [
          | some w ↦ (none, some w)
          | none ↦ (wait_for pod cfg value, none)
        ]
  ]
