-- ===== src/Lib.antt =====
-- kube_vnet: a model of the kube-vnet operator, which keeps Kubernetes pods apart and joins them by
-- virtual networks (vnets). Baselines, bindings and pod labels say in which direction a pod joins a
-- vnet; the operator resolves them to stamps on the pod (labels under `kube-vnet.system/`) and
-- generates NetworkPolicies whose selectors name those stamps.
--
-- The parts, and the files of internal/controller that they model where no path is given:
--   Direction     a membership's direction, its texts and intersections (policy_generator.go,
--                 resolution.go); `Direction.Algebra` reads a direction as two permissions
--   Keys          the names of a vnet in rules, labels and stamps (permits.go, resolver.go,
--                 resolution_controller.go)
--   Resolution    `Resolve`: the cascade of tiers (resolution.go). `Groups` is about one layer,
--                 `Cascade` and `Effective` about all of them, `Conflicts` about the reports
--   Permits       which namespaces may join a vnet (permits.go)
--   HostPort      the ports that pods expose on their node, and in `Reconciling` the reconciler of
--                 their policies (hostport_controller.go)
--   Resolver      the rules of each tier, filtered by Permits, and the labels that a pod should carry
--                 (resolver.go)
--   Stamps        writing those labels (stamps.go, `syncManagedLabels` of sweep.go)
--   Namespaces    which namespaces are managed (namespace.go)
--   NetworkWait   who gets the wait container (network_wait.go,
--                 internal/webhook/podresolution/networkwait.go)
--   Admission     the webhook that stamps pods and refuses forged stamps
--                 (internal/webhook/podresolution: handlers.go, mutator.go, validator.go)
--   Members       the pods that are members of a vnet (`discoverMembers` of
--                 virtualnetwork_controller.go)
--   Policies      names and labels of generated policies, the baseline policy (policy_generator.go,
--                 baseline.go)
--   Generator     the membership policies of a vnet (policy_generator.go, `Generate`)
--   Sweep         applying and sweeping policies on the API server (sweep.go)
--   Signals       what a process remembers in order to report once (signals.go)
--   Baseline      the reconciler of each namespace's deny-all baseline (namespace_reconciler.go)
--   Exposure      exposed Services and the ports that their policies open
--                 (external_allow_controller.go, pod_ports.go)
--   ServiceSource the reconciler of the policies that a Service owns, with `Sources` of what they
--                 are and `Watching` of its events; `Owning` and `Withdrawing` are about what
--                 it leaves (external_allow_controller.go)
--   Apiserver     the Services that the apiserver dials, whose policies ServiceSource keeps
--                 (apiserver_reachable_controller.go)
--   Networks      the reconciler of a vnet (virtualnetwork_controller.go): the loop that applies,
--                 `Conditions` with the status, `Reconciling` with the whole of it, `Watching` with
--                 its events; `Applying`, `Generated`, `Converging` and `Serving` are about what it
--                 leaves, `Covering` about its events, `Reaching` about the traffic
--                 between members
--   ResolutionReconciler  the reconciler of a pod's stamps (resolution_controller.go)
--   Bindings      the reconciler of a binding's status (virtualnetworkbinding_controller.go)
--   SystemVnets   the reconciler of the system vnets (system_vnet_controller.go); `Keeping` is about
--                 what it leaves
--   Waiting       the rounds of the network wait (internal/networkwait/networkwait.go); `Ending` and
--                 `Releasing` are about how it ends
-- Resolver calls Permits and Resolution; Admission and ResolutionReconciler call Resolver and Stamps;
-- Networks finds the members by Members, generates by Generator and writes through Sweep, as Baseline,
-- HostPort and ServiceSource do; these report through Signals. Prelude, Effects, Objects and Cluster
-- hold what they share, and Tests runs them on a small cluster.
--
-- How Go is read. A Go map is an association list in which an insert replaces; where the source ranges
-- over a map the model takes the list's order. An error is its text, and a function that may fail
-- returns a Result. What is read through the Kubernetes client is one snapshot, a `Cluster`, that is
-- an argument; a `Get` is found, not found or failed. Events are collected with their arguments in
-- place of the formatted note, and stay when a later step fails. Writes act on the collection of
-- policies that the API server keeps (`Sweep.Policies`), and every answer of the server is a field of
-- `Sweep.Api`. SHA-256, `time.ParseDuration`, the selectors of apimachinery and the decoding of
-- admission requests are parameters as well. Texts are ASCII, so that Go's bytes are characters, and
-- `%q` adds quotes only. Conditions are set, found and compared by functions of apimachinery, which
-- are parameters (`Networks.Conditions.StatusApi`), and so is `SetControllerReference`. Loops are
-- structural recursion over lists. Fuel stands in two places: the printing of numbers, whose fuel is
-- one more than the number, and the rounds of the network wait, where the Results say how much is
-- enough. There a round's addresses and dials, how long they take and when the caller's context ends
-- are fields of `Waiting.Network`, and the deadline and the interval are the code's. What the server
-- stores of an apply is `Sweep.Api.applied`; only `Sweep.Settling` supposes something of it, which the
-- documentation of server-side apply says. A patch of a pod that fails leaves the pod as it was.
--
-- Not modelled: the registration of watches (`SetupWithManager`; the predicates and the maps from
-- events to requests are modelled), metrics but for the gauge of a vnet's members, logging, flags and
-- wiring (cmd), generated code, the server of the network wait, which only accepts and closes
-- connections, and the constants of the wait container that nothing reads.
pub mod Prelude
pub mod Effects
pub mod Objects
pub mod Cluster
pub mod Direction
pub mod Keys
pub mod Resolution
pub mod Permits
pub mod HostPort
pub mod Resolver
pub mod ResolutionReconciler
pub mod Stamps
pub mod Policies
pub mod Generator
pub mod Namespaces
pub mod NetworkWait
pub mod Admission
pub mod Sweep
pub mod Signals
pub mod Baseline
pub mod Exposure
pub mod ServiceSource
pub mod Members
mod Tests
pub mod Networks
pub mod Waiting
pub mod Bindings
pub mod SystemVnets
pub mod Apiserver
