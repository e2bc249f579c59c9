-- ===== src/Networks/Serving.antt =====
-- The reconcile of a vnet that is served, from its reads to the policies that it leaves
-- (virtualnetwork_controller.go, `Reconcile`).
use kube_vnet.Prelude.{
  String, ◌≡◌, sym, ap, ◌∙◌, ◌⊎◌, Bool, true, false, not, ◌&&◌, ◌||◌, none, some, List, arith,
  if◌then◌else◌, All, lookup, HasUniqueKeys, is_some,
}
use kube_vnet.Effects.{Result, ok, found}
use kube_vnet.Objects.{ObjectKey, object_key_eq, Pod, NetworkPolicy}
use kube_vnet.Cluster.{Cluster}
use kube_vnet.Namespaces.{NamespaceFilter, manages}
use kube_vnet.Generator.{MembersByNs, generate}
use kube_vnet.Members.{InvalidJoiner, discover_members}
use kube_vnet.Sweep.{Api, key_of, operator_managed, listed}
use kube_vnet.Sweep.Applying.{IsApplied}
use kube_vnet.Networks.Conditions.{StatusApi}
use kube_vnet.Networks.{
  StoredNetwork, NetworkWorld, NetworkOutcome, name_matches, keeps, namespace_terminating,
  network_policies,
}
use kube_vnet.Networks.Reconciling.{
  at_home, served, reject_home, reject_name, reconcile_gone, reconcile_policies, reconcile_live,
  reconcile_network,
}
use kube_vnet.Networks.Applying.{Agrees, wanted}
use kube_vnet.Networks.Generated.{generate-Agrees}
use kube_vnet.Networks.Converging.{
  left_by, left_of_listed, accepted_left, applied_left, handed_over,
}

module _ (api : Api) (status_api : StatusApi) (recorder : Bool) (c : Cluster)
    (filter : NamespaceFilter) (hash8 : String → String) (stored : StoredNetwork)
    (pods : Result (List Pod)) (members : MembersByNs) (invalid : List InvalidJoiner)
    (w : NetworkWorld) where
  -- The policies that are generated for the members.
  abbrev pub generated : List NetworkPolicy
  generated = generate hash8 (record { vnet = stored.vnet; members_by_ns = members })

  -- What the reconcile of the vnet leaves.
  abbrev pub after : NetworkOutcome
  after =
      reconcile_network api status_api recorder c filter hash8 stored.vnet.namespace
        stored.vnet.name (found stored) pods w

  module _ (managed : Bool) (existing : stored.vnet.deleting ≡ false)
      (named : name_matches stored.vnet.name ≡ true)
      (home : manages filter c stored.vnet.namespace ≡ ok managed)
      (is_served : (operator_managed stored.vnet.labels || managed) ≡ true)
      (members_found : discover_members c filter stored.vnet pods ≡ ok (members, invalid)) where
    after-eq :
        after
        ≡ reconcile_policies api status_api recorder c filter stored members invalid generated w
    unfolding reconcile_network reconcile_live
    after-eq =
        let open_home : (not (operator_managed stored.vnet.labels) && not managed) ≡ false =
          ground (arith, is_served) in
        let live = at_home api status_api recorder c filter hash8 stored pods in
        let rejected = reject_home api status_api recorder stored w in
        let serve = served api status_api recorder c filter hash8 stored in
        let gone =
          reconcile_gone api status_api recorder stored.vnet.namespace stored.vnet.name w in
        ap
          (λ b.
            if b then gone else reconcile_live api status_api recorder c filter hash8 stored pods w)
          existing
        ∙ ap
            (λ b.
              if not b
              then reject_name api status_api recorder stored w
              else live (manages filter c stored.vnet.namespace) w)
            named
        ∙ ap (λ r. live r w) home
        ∙ ap (λ b. if b then rejected else serve (discover_members c filter stored.vnet pods) w)
            open_home
        ∙ ap (λ r. serve r w) members_found

    module _ (u : HasUniqueKeys w.policies) where
      -- After a reconcile of a served vnet without an error, each policy of the vnet that is left
      -- stands under the key of a generated one, for policies with one entry a key.
      pub no_stale_policy :
          (k : ObjectKey) (p : NetworkPolicy)
          → after.error ≡ none
          → lookup k (left_by after) ≡ some p
          → listed (network_policies stored.vnet.namespace stored.vnet.name) p ≡ true
          → keeps generated k ≡ true
      no_stale_policy k p h there is_listed =
          left_of_listed api status_api recorder c filter stored members invalid generated w u k p
            (ap (λ (o : NetworkOutcome). o.error) (sym after-eq) ∙ h)
            (ap (λ o. lookup k (left_by o)) (sym after-eq) ∙ there) is_listed

      module _ (d : NetworkPolicy) (there : wanted (key_of d) generated ≡ some d)
          (alive : namespace_terminating c d.namespace ≡ ok false) where
        agree : All (Agrees d) generated
        agree =
            (generate-Agrees hash8 (record { vnet = stored.vnet; members_by_ns = members })
              (key_of d) d there).1

        -- After a reconcile of a served vnet without an error, each generated policy of a namespace
        -- that does not end is applied: it is there, and compares as up to date or is what the
        -- server stored of an apply of it, for policies with one entry a key.
        pub generated-IsApplied :
            after.error ≡ none → IsApplied api d (lookup (key_of d) (left_by after))
        generated-IsApplied h = rw after-eq (
            applied_left api status_api recorder c filter stored members invalid generated w u d
              alive agree there (ap (λ (o : NetworkOutcome). o.error) (sym after-eq) ∙ h))

        -- A generated policy of a namespace that does not end is applied after the reconcile,
        -- whatever fails elsewhere, where the server answers the read and the write of it without
        -- an error: it is there, and compares as up to date or is what the server stored of an
        -- apply of it, for policies with one entry a key.
        pub failures_isolated :
            api.get_error (key_of d) ≡ none
            → api.patch_error d ≡ none
            → IsApplied api d (lookup (key_of d) (left_by after))
        failures_isolated reads writes = rw after-eq (
            accepted_left api status_api recorder c filter stored members invalid generated w u d
              alive agree there reads writes)

        -- A policy whose key is not generated stays until the generated one of its namespace is
        -- applied: after the reconcile this one is there, and compares as up to date or is what the
        -- server stored of an apply of it, or the reconcile has an error and the other one is as it
        -- was, where the namespace does not end, for policies with one entry a key.
        pub stays_until_replaced :
            (k : ObjectKey) (p : NetworkPolicy)
            → lookup k w.policies ≡ some p
            → p.namespace ≡ d.namespace
            → keeps generated k ≡ false
            → IsApplied api d (lookup (key_of d) (left_by after))
              ⊎ ((is_some after.error ≡ true) × (lookup k (left_by after) ≡ some p))
        stays_until_replaced k p old near other = rw after-eq (
            handed_over api status_api recorder c filter stored members invalid generated w u d
              alive agree there k p old near other)
