-- ===== src/Networks/Converging.antt =====
-- What a reconcile of a vnet that is served establishes (virtualnetwork_controller.go, `Reconcile`).
use kube_vnet.Prelude.{
  some-inj, ℕ, String, ◌≡◌, refl, sym, ap, ◌∙◌, ◌⊎◌, inl, inr, Bool, true, false, ◌||◌, Option,
  none, some, List, [], ◌∷◌, arith, ◌==◌, string_eq, is_nil, any, length, All, lookup,
  HasUniqueKeys, Bool-cases, is_some,
}
use kube_vnet.Effects.{Error, ok}
use kube_vnet.Objects.{ObjectKey, object_key_eq, NetworkPolicy}
use kube_vnet.Cluster.{Cluster}
use kube_vnet.Namespaces.{NamespaceFilter}
use kube_vnet.Generator.{MembersByNs}
use kube_vnet.Members.{InvalidJoiner}
use kube_vnet.Sweep.{Policies, Api, key_of, listed}
use kube_vnet.Sweep.Applying.{IsApplied}
use kube_vnet.Sweep.Sweeping.{to_delete, sweep-spares, left_of_sweep}
use kube_vnet.Networks.Conditions.{StatusApi}
use kube_vnet.Networks.{
  StoredNetwork, NetworkWorld, NetworkOutcome, set_members, Applied, keeps, spares,
  namespace_terminating, network_policies, delete_membership_policies, before_apply,
}
use kube_vnet.Networks.Reconciling.{
  Pass, after_status, after_sweep, loop, sweep_after, reconcile_policies,
}
use kube_vnet.Networks.Applying.{
  wanted, Agrees, apply_all-others, apply_all-HasUniqueKeys, apply_all-Tallies, accepted-Standing,
  applied_or_failed,
}

-- The policies of the API server after a reconcile.
abbrev pub left_by : NetworkOutcome → Policies
left_by o = o.world.policies

module _ (api : Api) (status_api : StatusApi) (recorder : Bool) where
  after_status_policies :
      (errs : List Error) (sweep_error status_error : Option Error) (pass : Pass)
      → left_by (after_status api status_api recorder errs sweep_error status_error pass)
        ≡ pass.world.policies
  unfolding set_members
  after_status_policies [] sweep_error (some e) pass = refl
  after_status_policies [] sweep_error none pass = refl
  after_status_policies (e ∷ es) sweep_error status_error pass = refl

  after_sweep_policies :
      (stored : StoredNetwork) (members : MembersByNs) (invalid : List InvalidJoiner) (n : ℕ)
      (s : Applied) (errs : List Error) (w : NetworkWorld) (sweep_error : Option Error)
      → left_by (after_sweep api status_api recorder stored members invalid n s errs w sweep_error)
        ≡ w.policies
  after_sweep_policies stored members invalid n s [] w (some e) = refl
  after_sweep_policies stored members invalid n s [] w none =
      after_status_policies s.errors none _ _
  after_sweep_policies stored members invalid n s (e ∷ es) w sweep_error =
      after_status_policies s.errors sweep_error _ _

  after_status_error :
      (errs : List Error) (sweep_error status_error : Option Error) (pass : Pass)
      → (after_status api status_api recorder errs sweep_error status_error pass).error ≡ none
      → is_nil errs ≡ true
  after_status_error [] sweep_error status_error pass h = refl
  after_status_error (e ∷ es) sweep_error status_error pass h = absurd (cc h)

  -- Without an error, neither the loop nor the sweep has failed.
  after_sweep_error :
      (stored : StoredNetwork) (members : MembersByNs) (invalid : List InvalidJoiner) (n : ℕ)
      (s : Applied) (errs : List Error) (w : NetworkWorld) (sweep_error : Option Error)
      → s.errors ≡ errs
      → (after_sweep api status_api recorder stored members invalid n s errs w sweep_error).error
        ≡ none
      → (is_nil s.errors ≡ true) × (sweep_error ≡ none)
  after_sweep_error stored members invalid n s [] w (some e) same h = absurd (cc h)
  after_sweep_error stored members invalid n s [] w none same h = (ap is_nil same, refl)
  after_sweep_error stored members invalid n s (e ∷ es) w sweep_error same h =
      let none_failed = after_status_error s.errors sweep_error _ _ h in
      absurd (cc (none_failed, same))

  module _ (c : Cluster) (filter : NamespaceFilter) (stored : StoredNetwork) (members : MembersByNs)
      (invalid : List InvalidJoiner) (ds : List NetworkPolicy) (w : NetworkWorld) where
    abbrev passed : NetworkOutcome
    passed = reconcile_policies api status_api recorder c filter stored members invalid ds w

    abbrev applied : Applied
    applied = loop api status_api recorder c filter stored ds w.policies

    abbrev swept : Policies × Option Error
    swept = sweep_after api status_api recorder c filter stored ds applied

    reconcile_policies_left : left_by passed ≡ swept.0
    unfolding reconcile_policies
    reconcile_policies_left =
        after_sweep_policies stored members invalid (length ds) applied applied.errors _ swept.1

    reconcile_policies_error :
        passed.error ≡ none → (is_nil applied.errors ≡ true) × (swept.1 ≡ none)
    unfolding reconcile_policies
    reconcile_policies_error h =
        after_sweep_error stored members invalid (length ds) applied applied.errors _ swept.1 refl h

    module _ (u : HasUniqueKeys w.policies) where
      applied-HasUniqueKeys : HasUniqueKeys applied.policies
      applied-HasUniqueKeys =
          apply_all-HasUniqueKeys api c recorder stored.vnet stored.status.generated_policies ds
            (before_apply w.policies) u

      -- The sweep leaves what is kept or spared.
      swept_kept :
          (k : ObjectKey)
          → ((p : NetworkPolicy)
              → lookup k applied.policies ≡ some p
              → (keeps ds k || spares applied.failed_namespaces p) ≡ true)
          → lookup k (left_by passed) ≡ lookup k applied.policies
      unfolding delete_membership_policies
      swept_kept k safe =
          ap (lookup k) reconcile_policies_left
          ∙ sweep-spares api k (network_policies stored.vnet.namespace stored.vnet.name) (keeps ds)
              (spares applied.failed_namespaces) applied.policies applied-HasUniqueKeys
              (not_stale (lookup k applied.policies) refl)
        where
          not_stale :
              (o : Option NetworkPolicy)
              → lookup k applied.policies ≡ o
              → to_delete api k
                  (network_policies stored.vnet.namespace stored.vnet.name)
                  (keeps ds)
                  (spares applied.failed_namespaces)
                  o
                ≡ false
          not_stale none h = refl
          not_stale (some p) h = ground (arith, safe p h)

      -- A policy under a key that is generated stays as the loop left it.
      generated_kept :
          (k : ObjectKey)
          → keeps ds k ≡ true
          → lookup k (left_by passed) ≡ lookup k applied.policies
      generated_kept k h = swept_kept k (λ p there. ground (arith, h))

      keeps_of_wanted :
          (k : ObjectKey) (d : NetworkPolicy) (ps : List NetworkPolicy)
          → wanted k ps ≡ some d
          → keeps ps k ≡ true
      keeps_of_wanted k d [] there = absurd (cc there)
      keeps_of_wanted k d (p ∷ ps) there = elim (Bool-cases (key_of p == k)) [
        | inl same ↦ ground (arith, same)
        | inr other ↦
            let rest = keeps_of_wanted k d ps (ground (arith, other, there)) in ground (arith, rest)
      ]

      -- No error means that no policy is spared.
      spares_none :
          (p : NetworkPolicy) (nss : List String) → is_nil nss ≡ true → spares nss p ≡ false
      spares_none p [] h = refl
      spares_none p (ns ∷ nss) h = absurd (cc h)

      nothing_failed :
          (p : NetworkPolicy) → passed.error ≡ none → spares applied.failed_namespaces p ≡ false
      nothing_failed p h =
          let tallied =
            apply_all-Tallies api c recorder stored.vnet stored.status.generated_policies ds
              (before_apply w.policies) refl in
          spares_none p applied.failed_namespaces (tallied ∙ (reconcile_policies_error h).0)

      -- What is left of the vnet's policies is what was generated.
      pub left_of_listed :
          (k : ObjectKey) (p : NetworkPolicy)
          → passed.error ≡ none
          → lookup k (left_by passed) ≡ some p
          → listed (network_policies stored.vnet.namespace stored.vnet.name) p ≡ true
          → keeps ds k ≡ true
      unfolding delete_membership_policies
      left_of_listed k p h there is_listed =
          let here =
            left_of_sweep api k (network_policies stored.vnet.namespace stored.vnet.name) (keeps ds)
              (spares applied.failed_namespaces) applied.policies p applied-HasUniqueKeys
              (reconcile_policies_error h).1 (ap (lookup k) (sym reconcile_policies_left) ∙ there)
              is_listed in
          ground (arith, here, nothing_failed p h)

      module _ (d : NetworkPolicy) (alive : namespace_terminating c d.namespace ≡ ok false)
          (agree : All (Agrees d) ds) (there : wanted (key_of d) ds ≡ some d) where
        abbrev StandsIn : Policies → Type 0
        StandsIn ps = IsApplied api d (lookup (key_of d) ps)

        still_applied : StandsIn applied.policies → StandsIn (left_by passed)
        still_applied current =
            rw (generated_kept (key_of d) (keeps_of_wanted (key_of d) d ds there)) current

        pub accepted_left :
            api.get_error (key_of d) ≡ none → api.patch_error d ≡ none → StandsIn (left_by passed)
        accepted_left reads writes = still_applied (
            accepted-Standing api c recorder stored.vnet stored.status.generated_policies d alive ds
              (before_apply w.policies) agree there reads writes)

        abbrev judged : StandsIn applied.policies ⊎ (spares applied.failed_namespaces d ≡ true)
        judged =
            applied_or_failed api c recorder stored.vnet stored.status.generated_policies d alive ds
              (before_apply w.policies) agree there

        pub applied_left : passed.error ≡ none → StandsIn (left_by passed)
        applied_left h = elim judged [
          | inl current ↦ still_applied current
          | inr failing ↦ absurd (cc (nothing_failed d h, failing))
        ]

        is_some_error :
            (o : Option Error)
            → (o ≡ none → spares applied.failed_namespaces d ≡ false)
            → spares applied.failed_namespaces d ≡ true
            → is_some o ≡ true
        is_some_error none h failing = absurd (cc (h refl, failing))
        is_some_error (some e) h failing = refl

        -- The policy is applied, or what stands in its namespace stays until it is.
        pub handed_over :
            (k : ObjectKey) (p : NetworkPolicy)
            → lookup k w.policies ≡ some p
            → p.namespace ≡ d.namespace
            → keeps ds k ≡ false
            → StandsIn (left_by passed)
              ⊎ ((is_some passed.error ≡ true) × (lookup k (left_by passed) ≡ some p))
        handed_over k p old near other = elim judged [
          | inl current ↦ inl (still_applied current)
          | inr failing ↦
              let looped : lookup k applied.policies ≡ some p =
                apply_all-others api c recorder stored.vnet stored.status.generated_policies k ds
                  (before_apply w.policies) other
                ∙ old in
              let spared = swept_kept k (λ q at.
                let same = some-inj q p (sym at ∙ looped) in
                let spot : q.namespace ≡ d.namespace =
                  ap (λ (r : NetworkPolicy). r.namespace) same ∙ near in
                ground (
                  arith,
                  other,
                  ap (λ n. any (λ ns. ns == n) applied.failed_namespaces) spot,
                  failing,
                )) in
              inr ((is_some_error passed.error (nothing_failed d) failing, spared ∙ looped))
        ]
