-- ===== src/ServiceSource/Withdrawing.antt =====
-- What the reconcile of a Service that wants no policy leaves (external_allow_controller.go,
-- `serviceSource.reconcile`).
use kube_vnet.Prelude.{
  String, ◌≡◌, ◌⊎◌, refl, sym, ap, ◌∙◌, inl, inr, Bool, true, false, Option, none, List, [],
  if◌then◌else◌, string_eq, HasUniqueKeys, Bool-cases,
}
use kube_vnet.Effects.{Result, found, Event}
use kube_vnet.Objects.{object_key_eq, Namespace, NetworkPolicy}
use kube_vnet.Cluster.{Cluster}
use kube_vnet.Namespaces.{NamespaceFilter}
use kube_vnet.Sweep.{Policies, Api}
use kube_vnet.Exposure.{Service}
use kube_vnet.ServiceSource.{
  ServiceSource, Desired, policy, ServiceWorld, ServiceOutcome, service_outcome, sweep_service,
  withdraw, cleared, serve, opted_out, in_service_namespace, reconcile_service,
}
use kube_vnet.ServiceSource.Owning.{left_by, OnlyOwned, sweep_service-OnlyOwned, service_passed}

module _ (hash8 : String → String) (source : ServiceSource) (api : Api) (recorder : Bool)
    (set_controller_reference : Service → NetworkPolicy → Result NetworkPolicy) (svc : Service)
    (c : Cluster) (filter : NamespaceFilter) (desired : Service → List Event × Desired)
    (w : ServiceWorld) where
  abbrev swept : Policies × Option String
  swept = sweep_service hash8 source api recorder set_controller_reference svc "" w.policies

  -- What is left, and the error, are those of a sweep that keeps nothing.
  abbrev IsSwept : ServiceOutcome → Type 0
  IsSwept o = (left_by o ≡ swept.0) × (o.error ≡ swept.1)

  withdraw-IsSwept :
      (events : List Event)
      → IsSwept (
          cleared hash8 source api recorder set_controller_reference svc
            (withdraw hash8 source api recorder set_controller_reference svc events w))
  unfolding withdraw
  withdraw-IsSwept events = (refl, refl)

  module _ (ns : Namespace) (events : List Event) (there : c.get_namespace svc.namespace ≡ found ns)
      (alive : ns.deleting ≡ false) where
    abbrev opted : Bool
    opted = opted_out hash8 source api recorder set_controller_reference filter svc ns

    abbrev by_opting : Bool → ServiceOutcome
    by_opting b =
        if b
        then cleared hash8 source api recorder set_controller_reference svc
            (withdraw hash8 source api recorder set_controller_reference svc [] w)
        else serve hash8 source api recorder set_controller_reference svc (desired svc) w

    service_passed-by_opting :
        (service_passed hash8 source api recorder set_controller_reference svc c filter desired w)
        ≡ by_opting opted
    unfolding reconcile_service
    service_passed-by_opting =
        ap
          (λ f.
            in_service_namespace hash8 source api recorder set_controller_reference filter svc
              (desired svc) f w)
          there
        ∙ ap
            (λ b.
              if b
              then cleared hash8 source api recorder set_controller_reference svc
                  (service_outcome w none [])
              else by_opting opted)
            alive

    serve-IsSwept :
        desired svc ≡ (events, policy none)
        → IsSwept (serve hash8 source api recorder set_controller_reference svc (desired svc) w)
    serve-IsSwept unwanted = rw unwanted (withdraw-IsSwept events)

    by_opting-IsSwept :
        (opted ≡ true) ⊎ (desired svc ≡ (events, policy none)) → IsSwept (by_opting opted)
    by_opting-IsSwept (inl out) = rw out (withdraw-IsSwept [])
    by_opting-IsSwept (inr unwanted) = elim (Bool-cases opted) [
      | inl out ↦ rw out (withdraw-IsSwept [])
      | inr stays ↦ rw stays (serve-IsSwept unwanted)
    ]

    -- After a reconcile without an error of a Service in a namespace that is there and does not end,
    -- where one of them has opted out, the namespace is not managed or nothing is wanted of the
    -- Service, no policy of the source that the Service owns is left under a name, for policies with
    -- one entry a key.
    pub reconcile_service_withdraws :
        (opted ≡ true) ⊎ (desired svc ≡ (events, policy none))
        → HasUniqueKeys w.policies
        → (service_passed hash8 source api recorder set_controller_reference svc c filter desired
            w).error
          ≡ none
        → OnlyOwned hash8 source api recorder set_controller_reference svc
            (record { namespace = svc.namespace; name = "" })
            (left_by (
              service_passed hash8 source api recorder set_controller_reference svc c filter desired
                w))
    reconcile_service_withdraws idle u h =
        let (left, failure) = by_opting-IsSwept idle in
        let passed = service_passed-by_opting in
        rw passed (
          rw left (
            sweep_service-OnlyOwned hash8 source api recorder set_controller_reference svc ""
              w.policies u (sym failure ∙ ap (λ (o : ServiceOutcome). o.error) (sym passed) ∙ h)))
