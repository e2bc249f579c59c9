-- ===== src/Exposure/Ports.antt =====
-- Which ports an external-allow policy opens (external_allow_controller.go).
use kube_vnet.Prelude.{
  some-inj, ℕ, String, ◌≡◌, refl, sym, ap, ◌∙◌, inl, inr, Bool, true, false, ◌&&◌, ◌||◌, Option,
  none, some, List, [], ◌∷◌, arith, leb, ◌==◌, string_eq, nat_beq, any, any-append, or_else,
  Bool-cases, Option-cases,
}
use kube_vnet.Prelude.Sorting.{sort, any-sort}
use kube_vnet.Objects.{Labels, Protocol, tcp, ContainerPort, Container, Pod, NetworkPolicyPort}
use kube_vnet.HostPort.{protocol_number}
use kube_vnet.Exposure.{
  ServicePort, named_port, labels_match_selector, named_port_containers, ports_named,
  containers_named, pods_named, compact, resolved_named, resolve_target_ports, same_port,
  append_policy_port, append_ports, policy_ports,
}

abbrev has : ℕ → List ℕ → Bool
has n xs = any (λ x. nat_beq x n) xs

has-compact : (n : ℕ) (xs : List ℕ) → has n (compact xs) ≡ has n xs
unfolding compact
has-compact n [] = refl
has-compact n (x ∷ []) = refl
has-compact n (x ∷ y ∷ ys) = ground (arith, has-compact n (y ∷ ys))

-- Some container declares the named port with the number.
abbrev pub declares : String → ℕ → List Container → Bool
declares s n cs = any (λ c. any (λ cp. cp.name == s && nat_beq cp.container_port n) c.ports) cs

has-ports_named :
    (s : String) (n : ℕ) (cps : List ContainerPort)
    → has n (ports_named s cps) ≡ any (λ cp. cp.name == s && nat_beq cp.container_port n) cps
unfolding ports_named
has-ports_named s n [] = refl
has-ports_named s n (cp ∷ cps) = ground (arith, has-ports_named s n cps)

has-containers_named :
    (s : String) (n : ℕ) (cs : List Container) → has n (containers_named s cs) ≡ declares s n cs
unfolding containers_named
has-containers_named s n [] = refl
has-containers_named s n (c ∷ cs) =
    any-append (λ x. nat_beq x n) (ports_named s c.ports) (containers_named s cs)
    ∙ ground (arith, has-ports_named s n c.ports, has-containers_named s n cs)

-- Some pod behind the selector declares the named port with the number.
abbrev pub backs : String → ℕ → Labels → List Pod → Bool
backs s n selector pods =
    any (λ p. labels_match_selector p.labels selector && declares s n (named_port_containers p))
      pods

has-pods_named :
    (s : String) (n : ℕ) (selector : Labels) (pods : List Pod)
    → has n (pods_named s selector pods) ≡ backs s n selector pods
unfolding pods_named
has-pods_named s n selector [] = refl
has-pods_named s n selector (p ∷ ps) = ground (
  arith,
  any-append (λ x. nat_beq x n) (containers_named s (named_port_containers p))
      (pods_named s selector ps),
  has-containers_named s n (named_port_containers p),
  has-pods_named s n selector ps,
)

has-resolved_named :
    (n : ℕ) (out tps : List ℕ) → resolved_named out ≡ some tps → has n tps ≡ has n out
has-resolved_named n [] tps h = absurd (cc h)
has-resolved_named n (x ∷ xs) tps h =
    ap (has n) (sym (some-inj _ tps h))
    ∙ has-compact n (sort leb (x ∷ xs))
    ∙ any-sort leb (λ y. nat_beq y n) (x ∷ xs)

-- A named target port resolves to exactly the numbers under which the Service's pods declare it, in
-- an app container or a native sidecar.
pub resolve_named_lem :
    (port : ℕ) (protocol : Option Protocol) (s : String) (selector : Labels) (pods : List Pod)
    (tps : List ℕ) (n : ℕ)
    → (s == "") ≡ false
    → resolve_target_ports
        (record { port = port; protocol = protocol; target_port = named_port s })
        selector
        pods
      ≡ some tps
    → any (λ x. nat_beq x n) tps ≡ backs s n selector pods
unfolding resolve_target_ports
resolve_named_lem port protocol s selector pods tps n named h =
    has-resolved_named n (pods_named s selector pods) tps (rw named at h)
    ∙ has-pods_named s n selector pods

module _ (proto : Protocol) (n : ℕ) where
  abbrev opens : List NetworkPolicyPort → Bool
  opens ports = any (same_port proto n) ports

  abbrev same_protocol : Protocol → Bool
  same_protocol q = nat_beq (protocol_number q) (protocol_number proto)

  opened_twice :
      (ports : List NetworkPolicyPort) (q : Protocol) (tp : ℕ)
      → any (same_port q tp) ports ≡ true
      → opens ports ≡ (opens ports || (same_protocol q && nat_beq tp n))
  opened_twice [] q tp h = absurd (cc h)
  opened_twice (p ∷ ps) q tp h = ground (arith, opened_twice ps q tp)

  opens-append_policy_port :
      (ports : List NetworkPolicyPort) (q : Protocol) (tp : ℕ)
      → opens (append_policy_port ports q tp) ≡ (opens ports || (same_protocol q && nat_beq tp n))
  unfolding append_policy_port
  opens-append_policy_port ports q tp = elim (Bool-cases (any (same_port q tp) ports)) [
    | inl e ↦ rw e (opened_twice ports q tp e)
    | inr e ↦ rw e (
        any-append (same_port proto n) ports (record { protocol = q; port = tp } ∷ [])
        ∙ ground arith)
  ]

  opens-append_ports :
      (ports : List NetworkPolicyPort) (q : Protocol) (tps : List ℕ)
      → opens (append_ports ports q tps) ≡ (opens ports || (same_protocol q && has n tps))
  unfolding append_ports
  opens-append_ports ports q [] = ground arith
  opens-append_ports ports q (tp ∷ tps) = ground (
    arith,
    opens-append_ports (append_policy_port ports q tp) q tps,
    opens-append_policy_port ports q tp,
  )

  abbrev reached : Option (List ℕ) → Protocol → Bool
  reached none q = false
  reached (some tps) q = same_protocol q && has n tps

  -- Some port of the Service reaches the pods' port.
  abbrev pub reaches : List ServicePort → Labels → List Pod → Bool
  reaches sps selector pods =
      any (λ sp. reached (resolve_target_ports sp selector pods) (or_else sp.protocol tcp)) sps

  opens-policy_ports :
      (ports : List NetworkPolicyPort) (sps : List ServicePort) (selector : Labels)
      (pods : List Pod) (out : List NetworkPolicyPort)
      → policy_ports ports sps selector pods ≡ some out
      → opens out ≡ (opens ports || reaches sps selector pods)
  unfolding policy_ports
  opens-policy_ports ports [] selector pods out h =
      ap opens (sym (some-inj ports out h)) ∙ ground arith
  opens-policy_ports ports (sp ∷ sps) selector pods out h =
      elim (Option-cases (resolve_target_ports sp selector pods)) [
        | inl e ↦ absurd (cc (rw e at h))
        | inr (tps, e) ↦
            let q = or_else sp.protocol tcp in
            let rest =
              opens-policy_ports (append_ports ports q tps) sps selector pods out (rw e at h) in
            rest ∙ ground (arith, e, opens-append_ports ports q tps)
      ]

  -- The ports of a Service's policy are exactly the pods' ports that some port of the Service
  -- reaches, where all of them can be resolved.
  pub policy_ports_lem :
      (sps : List ServicePort) (selector : Labels) (pods : List Pod) (out : List NetworkPolicyPort)
      → policy_ports [] sps selector pods ≡ some out
      → any (same_port proto n) out ≡ reaches sps selector pods
  policy_ports_lem sps selector pods out h =
      opens-policy_ports [] sps selector pods out h ∙ ground arith
