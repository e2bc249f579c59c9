-- ===== src/Baseline/Isolation.antt =====
-- What a reconcile of a namespace establishes (namespace_reconciler.go).
use mathlib.Core.Path.{subst}
use kube_vnet.Prelude.{
  String, ◌≡◌, refl, sym, ap, ◌∙◌, Bool, true, false, none, some, arith, ◌==◌, string_eq, beq_refl,
  lookup, HasUniqueKeys,
}
use kube_vnet.Effects.{Result, ok, err, found}
use kube_vnet.Objects.{ObjectKey, object_key_eq, Namespace, NetworkPolicy}
use kube_vnet.Namespaces.{NamespaceFilter, is_managed}
use kube_vnet.Policies.{desired_baseline}
use kube_vnet.Sweep.{Policies, Api, key_of, listed, apply_policy, sweep_stale_policies}
use kube_vnet.Sweep.Applying.{IsApplied, apply_policy-HasUniqueKeys, apply_policy_ok}
use kube_vnet.Sweep.Sweeping.{left_of_sweep, kept_by_sweep}
use kube_vnet.Baseline.{
  World, baselines, keeps_none, skips_none, sweep_unmanaged, after_apply, reconcile_managed,
  reconcile_namespace,
}

-- No policy with the baseline's labels stands in the namespace, but perhaps the one under a key.
abbrev pub OnlyBaseline : (ObjectKey → Bool) → String → Policies → Type 0
OnlyBaseline keep ns ps =
    (k : ObjectKey) (p : NetworkPolicy)
    → lookup k ps ≡ some p
    → listed (baselines ns) p ≡ true
    → keep k ≡ true

module _ (api : Api) where
  swept_only :
      (keep : ObjectKey → Bool) (ns : String) (ps : Policies)
      → HasUniqueKeys ps
      → (sweep_stale_policies api (baselines ns) keep skips_none ps).1 ≡ none
      → OnlyBaseline keep ns (sweep_stale_policies api (baselines ns) keep skips_none ps).0
  swept_only keep ns ps u h k p there is_listed =
      let here = left_of_sweep api k (baselines ns) keep skips_none ps p u h there is_listed in
      ground (arith, here)

  unmanaged-eq :
      (filter : NamespaceFilter) (recorder : Bool) (ns : Namespace) (w : World)
      → ns.deleting ≡ false
      → is_managed filter (some ns) ≡ false
      → reconcile_namespace api filter recorder ns.name (found ns) w
        ≡ sweep_unmanaged api filter recorder ns.name w
  unfolding reconcile_namespace
  unmanaged-eq filter recorder ns w alive unmanaged = rw unmanaged (rw alive)

  managed-eq :
      (filter : NamespaceFilter) (recorder : Bool) (ns : Namespace) (w : World)
      → ns.deleting ≡ false
      → is_managed filter (some ns) ≡ true
      → reconcile_namespace api filter recorder ns.name (found ns) w
        ≡ reconcile_managed api filter recorder ns.name w
  unfolding reconcile_namespace
  managed-eq filter recorder ns w alive managed = rw managed (rw alive)

  swept_unmanaged :
      (filter : NamespaceFilter) (recorder : Bool) (ns : String) (w : World)
      → HasUniqueKeys w.policies
      → (sweep_unmanaged api filter recorder ns w).error ≡ none
      → OnlyBaseline keeps_none ns (sweep_unmanaged api filter recorder ns w).world.policies
  unfolding sweep_unmanaged
  swept_unmanaged filter recorder ns w u h = swept_only keeps_none ns w.policies u h

  -- After a reconcile without an error no policy with the baseline's labels is left in a namespace
  -- that is not managed and not being deleted, for policies with one entry a key.
  pub sweep_unmanaged_lem :
      (filter : NamespaceFilter) (recorder : Bool) (ns : Namespace) (w : World)
      → ns.deleting ≡ false
      → is_managed filter (some ns) ≡ false
      → HasUniqueKeys w.policies
      → (reconcile_namespace api filter recorder ns.name (found ns) w).error ≡ none
      → OnlyBaseline keeps_none ns.name
          (reconcile_namespace api filter recorder ns.name (found ns) w).world.policies
  sweep_unmanaged_lem filter recorder ns w alive unmanaged u h =
      let same = unmanaged-eq filter recorder ns w alive unmanaged in
      subst (λ o. OnlyBaseline keeps_none ns.name o.world.policies) (sym same)
        (swept_unmanaged filter recorder ns.name w u (ap (λ o. o.error) (sym same) ∙ h))

  -- The namespace's baseline is applied, and it is the only one.
  abbrev pub IsIsolated : String → Policies → Type 0
  IsIsolated ns ps =
      IsApplied api (desired_baseline ns) (lookup (key_of (desired_baseline ns)) ps)
      × OnlyBaseline (λ k. k == key_of (desired_baseline ns)) ns ps

  after_apply-IsIsolated :
      (filter : NamespaceFilter) (recorder : Bool) (ns : String) (w : World)
      (x : Policies × Result Bool)
      → HasUniqueKeys x.0
      → ((created : Bool)
          → x.1 ≡ ok created
          → IsApplied api (desired_baseline ns) (lookup (key_of (desired_baseline ns)) x.0))
      → (after_apply api filter recorder ns (desired_baseline ns) w x).error ≡ none
      → IsIsolated ns (after_apply api filter recorder ns (desired_baseline ns) w x).world.policies
  unfolding after_apply
  after_apply-IsIsolated filter recorder ns w (ps, err e) u c h = absurd (cc h)
  after_apply-IsIsolated filter recorder ns w (ps, ok created) u c h =
      let key = key_of (desired_baseline ns) in
      let keep = λ (k : ObjectKey). k == key in
      let spared = kept_by_sweep api key (baselines ns) keep skips_none ps u (beq_refl key) in
      (
        subst (IsApplied api (desired_baseline ns)) (sym spared) (c created refl),
        swept_only keep ns ps u h,
      )

  applied_managed :
      (filter : NamespaceFilter) (recorder : Bool) (ns : String) (w : World)
      → HasUniqueKeys w.policies
      → (reconcile_managed api filter recorder ns w).error ≡ none
      → IsIsolated ns (reconcile_managed api filter recorder ns w).world.policies
  unfolding reconcile_managed
  applied_managed filter recorder ns w u h =
      let desired = desired_baseline ns in
      after_apply-IsIsolated filter recorder ns w (apply_policy api desired w.policies)
        (apply_policy-HasUniqueKeys api desired w.policies u)
        (λ created e. apply_policy_ok api desired w.policies created e) h

  -- After a reconcile without an error a managed namespace that is not being deleted has its baseline,
  -- which denies all and compares as up to date or is what the server stored of an apply of it, and no
  -- other policy with the baseline's labels; for policies with one entry a key.
  pub reconcile_managed_lem :
      (filter : NamespaceFilter) (recorder : Bool) (ns : Namespace) (w : World)
      → ns.deleting ≡ false
      → is_managed filter (some ns) ≡ true
      → HasUniqueKeys w.policies
      → (reconcile_namespace api filter recorder ns.name (found ns) w).error ≡ none
      → IsIsolated ns.name
          (reconcile_namespace api filter recorder ns.name (found ns) w).world.policies
  reconcile_managed_lem filter recorder ns w alive managed u h =
      let same = managed-eq filter recorder ns w alive managed in
      subst (λ o. IsIsolated ns.name o.world.policies) (sym same)
        (applied_managed filter recorder ns.name w u (ap (λ o. o.error) (sym same) ∙ h))
