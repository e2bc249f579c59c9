-- ===== src/HostPort/Declared.antt =====
-- Which host ports are found (hostport_controller.go, `desiredHostPortKeys`).
use kube_vnet.Prelude.{
  ◌≡◌, ◌∙◌, Bool, true, not, ◌&&◌, ◌||◌, List, [], ◌∷◌, arith, ◌==◌, nat_eq, any, is_some, or_else,
  Map, lookup, insert, lookup-insert,
}
use kube_vnet.Objects.{tcp, ContainerPort, Container, Pod}
use kube_vnet.HostPort.{
  HostPortKey, host_port_key_eq, add_ports, add_containers, add_pods, desired_host_port_keys,
}

module _ (k : HostPortKey) where
  -- The container's port is a host port with the key; no protocol means TCP.
  abbrev pub exposes : ContainerPort → Bool
  exposes cp =
      not (cp.host_port == 0)
      && (record { port = cp.host_port; protocol = or_else cp.protocol tcp }) == k

  abbrev pub exposed_by : Pod → Bool
  exposed_by p = not p.host_network && any (λ c. any exposes c.ports) p.containers

  has : Map HostPortKey Bool → Bool
  has m = is_some (lookup k m)

  has-insert :
      (j : HostPortKey) (m : Map HostPortKey Bool) → has (insert j true m) ≡ (has m || j == k)
  unfolding has
  has-insert j m = ground (arith, lookup-insert j k true m)

  has-add_ports :
      (cps : List ContainerPort) (m : Map HostPortKey Bool)
      → has (add_ports cps m) ≡ (has m || any exposes cps)
  unfolding add_ports
  has-add_ports [] m = ground arith
  has-add_ports (cp ∷ cps) m =
      let key : HostPortKey = record { port = cp.host_port; protocol = or_else cp.protocol tcp } in
      ground (arith, has-add_ports cps m, has-add_ports cps (insert key true m), has-insert key m)

  has-add_containers :
      (cs : List Container) (m : Map HostPortKey Bool)
      → has (add_containers cs m) ≡ (has m || any (λ c. any exposes c.ports) cs)
  unfolding add_containers
  has-add_containers [] m = ground arith
  has-add_containers (c ∷ cs) m =
      ground (arith, has-add_containers cs (add_ports c.ports m), has-add_ports c.ports m)

  has-add_pods :
      (ps : List Pod) (m : Map HostPortKey Bool)
      → has (add_pods ps m) ≡ (has m || any exposed_by ps)
  unfolding add_pods
  has-add_pods [] m = ground arith
  has-add_pods (p ∷ ps) m = ground (
    arith,
    has-add_pods ps m,
    has-add_pods ps (add_containers p.containers m),
    has-add_containers p.containers m,
  )

  -- A host port is found exactly where an app container of a pod outside the host's network declares
  -- it, with TCP for a missing protocol.
  pub lookup-desired_host_port_keys :
      (pods : List Pod) → is_some (lookup k (desired_host_port_keys pods)) ≡ any exposed_by pods
  unfolding desired_host_port_keys has lookup
  lookup-desired_host_port_keys pods = has-add_pods pods [] ∙ ground arith
