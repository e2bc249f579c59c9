-- ===== src/ServiceSource/Owning.antt =====
-- What the reconcile of a Service leaves of its policies (external_allow_controller.go,
-- `serviceSource.reconcile`).
use kube_vnet.Prelude.{
  String, ◌≡◌, refl, sym, ap, ◌∙◌, Bool, true, false, none, some, List, [], arith, if◌then◌else◌,
  ◌==◌, string_eq, beq_refl, lookup, HasUniqueKeys,
}
use kube_vnet.Effects.{Result, ok, err, found, Event}
use kube_vnet.Objects.{ObjectKey, object_key_eq, Namespace, NetworkPolicy}
use kube_vnet.Cluster.{Cluster}
use kube_vnet.Namespaces.{NamespaceFilter}
use kube_vnet.Sweep.{Policies, Api, key_of, listed, apply_policy}
use kube_vnet.Sweep.Applying.{IsApplied, apply_policy_ok, apply_policy-HasUniqueKeys}
use kube_vnet.Sweep.Sweeping.{left_of_sweep, kept_by_sweep}
use kube_vnet.Exposure.{Service}
use kube_vnet.ServiceSource.{
  ServiceSource, Desired, policy, ServiceWorld, ServiceOutcome, service_outcome, owned_policies,
  keeps_named, spares_others, sweep_service, withdraw, after_apply, apply_owned, cleared, serve,
  opted_out, in_service_namespace, reconcile_service,
}

-- The policies of the API server after a reconcile.
abbrev pub left_by : ServiceOutcome → Policies
left_by o = o.world.policies

module _ (hash8 : String → String) (source : ServiceSource) (api : Api) (recorder : Bool)
    (set_controller_reference : Service → NetworkPolicy → Result NetworkPolicy)
    (svc : Service) where
  -- What matches the source's policies of a namespace, belongs to the Service and is of no other
  -- source stands under the one key.
  abbrev pub OnlyOwned : ObjectKey → Policies → Type 0
  OnlyOwned key ps =
      (k : ObjectKey) (p : NetworkPolicy)
      → lookup k ps ≡ some p
      → listed (owned_policies hash8 source api recorder set_controller_reference svc) p ≡ true
      → spares_others hash8 source api recorder set_controller_reference svc p ≡ false
      → (k == key) ≡ true

  pub sweep_service-OnlyOwned :
      (keep : String) (ps : Policies)
      → HasUniqueKeys ps
      → (sweep_service hash8 source api recorder set_controller_reference svc keep ps).1 ≡ none
      → OnlyOwned
          (record { namespace = svc.namespace; name = keep })
          (sweep_service hash8 source api recorder set_controller_reference svc keep ps).0
  unfolding sweep_service
  sweep_service-OnlyOwned keep ps u h k p there is_listed ours =
      let here =
        left_of_sweep api k _
          (keeps_named hash8 source api recorder set_controller_reference svc keep)
          (spares_others hash8 source api recorder set_controller_reference svc) ps p u h there
          is_listed in
      ground (arith, here, ours)

  abbrev applied_as : NetworkPolicy → List Event → ServiceWorld → ServiceOutcome
  applied_as q events w =
      after_apply hash8 source api recorder set_controller_reference svc q events w
        (apply_policy api q w.policies)

  -- What the reconcile of the Service leaves.
  abbrev pub service_passed :
      Cluster → NamespaceFilter → (Service → List Event × Desired) → ServiceWorld → ServiceOutcome
  service_passed c filter desired w =
      reconcile_service hash8 source api recorder set_controller_reference c filter
        (record { namespace = svc.namespace; name = svc.name }) (found svc) desired w

  module _ (q : NetworkPolicy) (place : q.namespace ≡ svc.namespace) where
    after_apply_lem :
        (events : List Event) (w : ServiceWorld) (ps : Policies) (r : Result Bool)
        → HasUniqueKeys ps
        → ((created : Bool) → r ≡ ok created → IsApplied api q (lookup (key_of q) ps))
        → (after_apply hash8 source api recorder set_controller_reference svc q events w
            (ps, r)).error
          ≡ none
        → IsApplied api q (
            lookup (key_of q) (
              left_by (
                after_apply hash8 source api recorder set_controller_reference svc q events w
                  (ps, r))))
          × OnlyOwned (key_of q) (
              left_by (
                after_apply hash8 source api recorder set_controller_reference svc q events w
                  (ps, r)))
    unfolding sweep_service
    after_apply_lem events w ps (err e) u current h = absurd (cc h)
    after_apply_lem events w ps (ok created) u current h =
        let same : record { namespace = svc.namespace; name = q.name } ≡ key_of q =
          ap (λ n. record { namespace = n; name = q.name }) (sym place) in
        let kept =
          kept_by_sweep api (key_of q)
            (owned_policies hash8 source api recorder set_controller_reference svc)
            (keeps_named hash8 source api recorder set_controller_reference svc q.name)
            (spares_others hash8 source api recorder set_controller_reference svc) ps u
            (ap (λ k. key_of q == k) same ∙ beq_refl (key_of q)) in
        (
          rw kept (current created refl),
          λ k p there is_listed ours.
              ap (λ key. k == key) (sym same)
              ∙ sweep_service-OnlyOwned q.name ps u h k p there is_listed ours,
        )

    module _ (c : Cluster) (filter : NamespaceFilter) (desired : Service → List Event × Desired)
        (w : ServiceWorld) where
      module _ (ns : Namespace) (p : NetworkPolicy) (events : List Event)
          (there : c.get_namespace svc.namespace ≡ found ns) (alive : ns.deleting ≡ false)
          (opted_in : opted_out hash8 source api recorder set_controller_reference filter svc ns
            ≡ false)
          (wanted : desired svc ≡ (events, policy (some p)))
          (owned : set_controller_reference svc p ≡ ok q) where
        service_passed-eq :
            (service_passed c filter desired w)
            ≡ cleared hash8 source api recorder set_controller_reference svc (applied_as q events w)
        unfolding reconcile_service
        service_passed-eq =
            let clear = cleared hash8 source api recorder set_controller_reference svc in
            let serving = serve hash8 source api recorder set_controller_reference svc in
            let own = apply_owned hash8 source api recorder set_controller_reference svc events w in
            ap
              (λ f.
                in_service_namespace hash8 source api recorder set_controller_reference filter svc
                  (desired svc) f w)
              there
            ∙ ap
                (λ b.
                  if b
                  then clear (service_outcome w none [])
                  else if opted_out hash8 source api recorder set_controller_reference filter svc ns
                  then clear (withdraw hash8 source api recorder set_controller_reference svc [] w)
                  else serving (desired svc) w)
                alive
            ∙ ap
                (λ b.
                  if b
                  then clear (withdraw hash8 source api recorder set_controller_reference svc [] w)
                  else serving (desired svc) w)
                opted_in
            ∙ ap (λ d. serving d w) wanted
            ∙ ap (λ r. clear (own r)) owned

        -- After a reconcile without an error of a Service that wants a policy, in a namespace that
        -- is managed, not ending and not opted out, the policy is there, and compares as up to date
        -- or is what the server stored of an apply of it, and no other policy of the source that
        -- the Service owns is left, where the owner reference keeps the policy in the Service's
        -- namespace, for policies with one entry a key.
        pub reconcile_service-OnlyOwned :
            HasUniqueKeys w.policies
            → (service_passed c filter desired w).error ≡ none
            → IsApplied api q (lookup (key_of q) (left_by (service_passed c filter desired w)))
              × OnlyOwned (key_of q) (left_by (service_passed c filter desired w))
        reconcile_service-OnlyOwned u h = rw service_passed-eq (
            after_apply_lem events w (apply_policy api q w.policies).0
              (apply_policy api q w.policies).1 (apply_policy-HasUniqueKeys api q w.policies u)
              (λ created done. apply_policy_ok api q w.policies created done)
              (ap (λ (o : ServiceOutcome). o.error) (sym service_passed-eq) ∙ h))
