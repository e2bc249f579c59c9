-- ===== src/HostPort.antt =====
-- internal/controller/hostport_controller.go: the ports that pods expose on their node.
pub mod Declared
pub mod Reconciling
use Prim.Native.String.{◌++◌}
use kube_vnet.Prelude.{
  ℕ, String, ◌≡◌, ◌↔◌, Bool, true, ◌&&◌, List, [], ◌∷◌, arith, if◌then◌else◌, Eq, ◌==◌, nat_eq,
  string_eq, Map, insert, nat_beq, nat_beq_iff, or_else,
}
use kube_vnet.Prelude.Decimal.{decimal}
use kube_vnet.Objects.{Protocol, tcp, udp, sctp, ContainerPort, Container, Pod}
use kube_vnet.Keys.{label_system_host_port_prefix}

pub record HostPortKey : Type 0 where
  pub port : ℕ
  pub protocol : Protocol

abbrev pub protocol_number : Protocol → ℕ
protocol_number tcp = 0
protocol_number udp = 1
protocol_number sctp = 2

protocol_number_inj : (a b : Protocol) → protocol_number a ≡ protocol_number b → a ≡ b
protocol_number_inj a b h = ground arith

pub host_port_key_beq_iff :
    (a b : HostPortKey)
    → ((a.port == b.port && nat_beq (protocol_number a.protocol) (protocol_number b.protocol))
        ≡ true)
      ↔ (a ≡ b)
host_port_key_beq_iff a b = ground (
  arith,
  protocol_number_inj a.protocol b.protocol,
  nat_beq_iff (protocol_number a.protocol) (protocol_number b.protocol),
)

instance abbrev pub host_port_key_eq : Eq HostPortKey
host_port_key_eq = record {
  beq =
      λ a b. a.port == b.port && nat_beq (protocol_number a.protocol) (protocol_number b.protocol);
  beq_iff = host_port_key_beq_iff;
}

-- `strings.ToLower` of the protocol's name.
abbrev pub lower : Protocol → String
lower tcp = "tcp"
lower udp = "udp"
lower sctp = "sctp"

-- `hostPortKey.String`
unfoldable pub key_text : HostPortKey → String
key_text k = decimal k.port ++ "." ++ lower k.protocol

unfoldable pub add_ports : List ContainerPort → Map HostPortKey Bool → Map HostPortKey Bool
add_ports [] out = out
add_ports (cp ∷ cps) out = add_ports cps (
    if cp.host_port == 0
    then out
    else insert (record { port = cp.host_port; protocol = or_else cp.protocol tcp }) true out)

unfoldable pub add_containers : List Container → Map HostPortKey Bool → Map HostPortKey Bool
unfolding add_ports
add_containers [] out = out
add_containers (c ∷ cs) out = add_containers cs (add_ports c.ports out)

unfoldable pub add_pods : List Pod → Map HostPortKey Bool → Map HostPortKey Bool
unfolding add_containers
add_pods [] out = out
add_pods (p ∷ ps) out =
    add_pods ps (if p.host_network then out else add_containers p.containers out)

unfoldable pub desired_host_port_keys : List Pod → Map HostPortKey Bool
unfolding add_pods
desired_host_port_keys pods = add_pods pods []

unfoldable pub stamps_of_keys : Map HostPortKey Bool → Map String Bool
stamps_of_keys [] = []
stamps_of_keys ((k, _) ∷ m) =
    insert (label_system_host_port_prefix ++ key_text k) true (stamps_of_keys m)

-- resolution_controller.go: the stamps for the host ports of one pod.
unfoldable pub desired_host_port_stamps : Pod → Map String Bool
unfolding desired_host_port_keys stamps_of_keys
desired_host_port_stamps pod = stamps_of_keys (desired_host_port_keys (pod ∷ []))
