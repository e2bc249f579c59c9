-- ===== src/Tests/Exposing.antt =====
-- Exposed ports and reports at concrete inputs.
use kube_vnet.Prelude.{
  String, ◌≡◌, refl, false, none, some, List, [], ◌∷◌, ◌==◌, string_eq, any, lookup, insert,
  delete_if, is_some, nat_beq,
}
use kube_vnet.Prelude.Sorting.{place, sort}
use kube_vnet.Direction.{direction_eq}
use kube_vnet.Objects.{Labels, ObjectKey, object_key_eq, tcp, Pod}
use kube_vnet.Signals.{once_first, once_clear, once_forget}
use kube_vnet.Signals.Once.{Step, first, clear, forget, run_steps, reported_once}
use kube_vnet.Exposure.{
  ServicePort, named_port, labels_match_selector, sidecars, named_port_containers, ports_named,
  containers_named, pods_named, compact, resolve_target_ports, append_policy_port, append_ports,
  policy_ports, same_port,
}
use kube_vnet.Exposure.Ports.{backs, reaches, resolve_named_lem, policy_ports_lem}
use kube_vnet.HostPort.{host_port_key_eq, desired_host_port_keys}
use kube_vnet.HostPort.Declared.{exposed_by, lookup-desired_host_port_keys}
use kube_vnet.Tests.Fixtures.{pod_with}

running : Unit {0}
unfolding place sort once_first once_clear once_forget labels_match_selector sidecars
    named_port_containers ports_named containers_named pods_named compact resolve_target_ports
    append_policy_port append_ports policy_ports lookup insert delete_if
running = tt

-- A Service whose target port `http` a pod declares as 8080.
abbrev backend : Pod
backend = record (pod_with (("app", "ui") ∷ [])) {
  containers =
      record {
        name = "main";
        image = "ui";
        args = [];
        ports =
            record { name = "http"; container_port = 8080; host_port = 0; protocol = none } ∷ [];
        restart_policy = none;
      }
      ∷ [];
}

abbrev selector : Labels
selector = ("app", "ui") ∷ []

abbrev http_port : ServicePort
http_port = record { port = 80; protocol = none; target_port = named_port "http" }

named_http : ◌==◌ {K = String} "http" "" ≡ false
named_http = refl

resolves_http : resolve_target_ports http_port selector (backend ∷ []) ≡ some (8080 ∷ [])
unfolding running
resolves_http = refl

resolve_named_lem_example :
    any (λ x. nat_beq x 8080) (8080 ∷ []) ≡ backs "http" 8080 selector (backend ∷ [])
resolve_named_lem_example =
    resolve_named_lem 80 none "http" selector (backend ∷ []) (8080 ∷ []) 8080 named_http
      resolves_http

opens_http :
    policy_ports [] (http_port ∷ []) selector (backend ∷ [])
    ≡ some (record { protocol = tcp; port = 8080 } ∷ [])
unfolding running
opens_http = refl

policy_ports_lem_example :
    any (same_port tcp 8080) (record { protocol = tcp; port = 8080 } ∷ [])
    ≡ reaches tcp 8080 (http_port ∷ []) selector (backend ∷ [])
policy_ports_lem_example =
    policy_ports_lem tcp 8080 (http_port ∷ []) selector (backend ∷ [])
      (record { protocol = tcp; port = 8080 } ∷ []) opens_http

abbrev waiting : ObjectKey
waiting = record { namespace = "front"; name = "api" }

-- Steps about another reason and another object.
abbrev steps : List Step
steps =
    clear waiting "Other"
    ∷ first waiting "u1" "Other"
    ∷ forget (record { namespace = "shop"; name = "x" })
    ∷ []

reported_once_example :
    (once_first waiting "u1" "Waiting" (run_steps steps (once_first waiting "u1" "Waiting" []).0)).1
    ≡ false
unfolding running
reported_once_example = reported_once waiting "u1" "Waiting" steps [] refl

-- A pod with a host port, for which no protocol is given.
abbrev exposing : Pod
exposing = record (pod_with []) {
  containers =
      record {
        name = "main";
        image = "ui";
        args = [];
        ports = record { name = ""; container_port = 80; host_port = 8080; protocol = none } ∷ [];
        restart_policy = none;
      }
      ∷ [];
}

lookup-desired_host_port_keys_example :
    is_some
      (lookup (record { port = 8080; protocol = tcp }) (desired_host_port_keys (exposing ∷ [])))
    ≡ any (exposed_by (record { port = 8080; protocol = tcp })) (exposing ∷ [])
lookup-desired_host_port_keys_example =
    lookup-desired_host_port_keys (record { port = 8080; protocol = tcp }) (exposing ∷ [])
