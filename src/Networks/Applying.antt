-- ===== src/Networks/Applying.antt =====
-- What the loop over the generated policies leaves (virtualnetwork_controller.go, `Reconcile`).
use kube_vnet.Prelude.{
  ◌≡◌, refl, sym, ◌∙◌, ◌⊎◌, inl, inr, Bool, true, false, Option, none, some, List, [], ◌∷◌, ◌++◌,
  arith, ◌==◌, string_eq, is_nil, first?, All, lookup, HasUniqueKeys, Bool-cases,
}
use kube_vnet.Effects.{Result, ok, err}
use kube_vnet.Objects.{ObjectKey, object_key_eq, VirtualNetwork, NetworkPolicy}
use kube_vnet.Cluster.{Cluster}
use kube_vnet.Sweep.{Policies, Api, key_of, apply_policy}
use kube_vnet.Sweep.Applying.{
  IsApplied, apply_policy-others, apply_policy-HasUniqueKeys, apply_policy-IsApplied,
  apply_policy_accepted, apply_policy_ok,
}
use kube_vnet.Networks.{
  Applied, keeps, spares, namespace_terminating, record_apply, apply_unless, apply_one, apply_all,
}

-- Policies under one key are one policy.
abbrev pub Agrees : NetworkPolicy → NetworkPolicy → Type 0
Agrees d p = (key_of p == key_of d) ≡ true → p ≡ d

-- The policy that is wanted under a key.
abbrev pub wanted : ObjectKey → List NetworkPolicy → Option NetworkPolicy
wanted k ds = first? (λ d. key_of d == k) ds

module _ (api : Api) (c : Cluster) (recorder : Bool) (vnet : VirtualNetwork)
    (refs : List ObjectKey) where
  record_apply_policies :
      (p : NetworkPolicy) (r : Result Bool) (s : Applied)
      → (record_apply api c recorder vnet refs p r s).policies ≡ s.policies
  record_apply_policies p (ok created) s = refl
  record_apply_policies p (err e) s = refl

  -- What a round does to the policies, for any property of them.
  apply_unless_policies {κ} :
      (P : Policies → Type κ) (p : NetworkPolicy) (t : Result Bool) (s : Applied)
      → P s.policies
      → P (apply_policy api p s.policies).0
      → P (apply_unless api c recorder vnet refs p t s).policies
  apply_unless_policies P p (err e) s same applied = same
  apply_unless_policies P p (ok true) s same applied = same
  apply_unless_policies P p (ok false) s same applied =
      rw
        (record_apply_policies p (apply_policy api p s.policies).1
          (record s { policies = (apply_policy api p s.policies).0 }))
        applied

  -- A property of the policies that every apply keeps is kept by the loop.
  pub apply_all_policies {κ} :
      (P : Policies → Type κ) (ds : List NetworkPolicy) (s : Applied)
      → P s.policies
      → All (λ p. (ps : Policies) → P ps → P (apply_policy api p ps).0) ds
      → P (apply_all api c recorder vnet refs ds s).policies
  unfolding apply_all apply_one
  apply_all_policies P [] s h keep = h
  apply_all_policies P (p ∷ ds) s h keep =
      apply_all_policies P ds (apply_one api c recorder vnet refs p s)
        (apply_unless_policies P p (namespace_terminating c p.namespace) s h (keep.0 s.policies h))
        keep.1

  others_kept :
      (k : ObjectKey) (before : Policies) (ds : List NetworkPolicy)
      → keeps ds k ≡ false
      → All
          (λ p.
            (ps : Policies)
            → lookup k ps ≡ lookup k before
            → lookup k (apply_policy api p ps).0 ≡ lookup k before)
          ds
  others_kept k before [] h = tt
  others_kept k before (p ∷ ds) h = (
    λ ps same. apply_policy-others api p ps k (ground (arith, h)) ∙ same,
    others_kept k before ds (ground (arith, h)),
  )

  -- The loop leaves every policy that is not among the generated ones as it is.
  pub apply_all-others :
      (k : ObjectKey) (ds : List NetworkPolicy) (s : Applied)
      → keeps ds k ≡ false
      → lookup k (apply_all api c recorder vnet refs ds s).policies ≡ lookup k s.policies
  apply_all-others k ds s h =
      apply_all_policies (λ ps. lookup k ps ≡ lookup k s.policies) ds s refl
        (others_kept k s.policies ds h)

  unique_kept :
      (ds : List NetworkPolicy)
      → All (λ p. (ps : Policies) → HasUniqueKeys ps → HasUniqueKeys (apply_policy api p ps).0) ds
  unique_kept [] = tt
  unique_kept (p ∷ ds) = (λ ps u. apply_policy-HasUniqueKeys api p ps u, unique_kept ds)

  pub apply_all-HasUniqueKeys :
      (ds : List NetworkPolicy) (s : Applied)
      → HasUniqueKeys s.policies
      → HasUniqueKeys (apply_all api c recorder vnet refs ds s).policies
  apply_all-HasUniqueKeys ds s u = apply_all_policies HasUniqueKeys ds s u (unique_kept ds)

  record_apply_failed :
      (q p : NetworkPolicy) (r : Result Bool) (s : Applied)
      → spares s.failed_namespaces q ≡ true
      → spares (record_apply api c recorder vnet refs p r s).failed_namespaces q ≡ true
  record_apply_failed q p (ok created) s h = h
  record_apply_failed q p (err e) s h = ground (arith, h)

  apply_unless_failed :
      (q p : NetworkPolicy) (t : Result Bool) (s : Applied)
      → spares s.failed_namespaces q ≡ true
      → spares (apply_unless api c recorder vnet refs p t s).failed_namespaces q ≡ true
  apply_unless_failed q p (err e) s h = ground (arith, h)
  apply_unless_failed q p (ok true) s h = h
  apply_unless_failed q p (ok false) s h =
      record_apply_failed q p (apply_policy api p s.policies).1
        (record s { policies = (apply_policy api p s.policies).0 }) h

  -- A failed namespace is remembered just where an error is.
  abbrev pub Tallies : Applied → Type 0
  Tallies s = is_nil s.failed_namespaces ≡ is_nil s.errors

  is_nil-append {ℓ} : {A : Type ℓ} (xs : List A) (x : A) → is_nil (xs ++ x ∷ []) ≡ false
  is_nil-append [] x = refl
  is_nil-append (y ∷ ys) x = refl

  record_apply-Tallies :
      (p : NetworkPolicy) (r : Result Bool) (s : Applied)
      → Tallies s
      → Tallies (record_apply api c recorder vnet refs p r s)
  record_apply-Tallies p (ok created) s h = h
  record_apply-Tallies p (err e) s h = sym (is_nil-append s.errors _)

  apply_unless-Tallies :
      (p : NetworkPolicy) (t : Result Bool) (s : Applied)
      → Tallies s
      → Tallies (apply_unless api c recorder vnet refs p t s)
  apply_unless-Tallies p (err e) s h = sym (is_nil-append s.errors _)
  apply_unless-Tallies p (ok true) s h = h
  apply_unless-Tallies p (ok false) s h =
      record_apply-Tallies p (apply_policy api p s.policies).1
        (record s { policies = (apply_policy api p s.policies).0 }) h

  pub apply_all-Tallies :
      (ds : List NetworkPolicy) (s : Applied)
      → Tallies s
      → Tallies (apply_all api c recorder vnet refs ds s)
  unfolding apply_all apply_one
  apply_all-Tallies [] s h = h
  apply_all-Tallies (p ∷ ds) s h =
      apply_all-Tallies ds (apply_one api c recorder vnet refs p s)
        (apply_unless-Tallies p (namespace_terminating c p.namespace) s h)

  module _ (d : NetworkPolicy) where
    abbrev pub Standing : Policies → Type 0
    Standing ps = IsApplied api d (lookup (key_of d) ps)

    apply_policy_keeps :
        (p : NetworkPolicy) (ps : Policies)
        → Agrees d p
        → Standing ps
        → Standing (apply_policy api p ps).0
    apply_policy_keeps p ps agrees current = elim (Bool-cases (key_of p == key_of d)) [
      | inl same ↦ rw (agrees same) (apply_policy-IsApplied api d ps current)
      | inr other ↦ rw (apply_policy-others api p ps (key_of d) other) current
    ]

    reached {κ} :
        (T : Applied → Type κ) (ds : List NetworkPolicy) (s : Applied)
        → All (Agrees d) ds
        → ((p : NetworkPolicy) (s : Applied)
            → Agrees d p
            → T s
            → T (apply_one api c recorder vnet refs p s))
        → T s
        → T (apply_all api c recorder vnet refs ds s)
    unfolding apply_all
    reached T [] s agree kept h = h
    reached T (p ∷ ds) s agree kept h =
        reached T ds (apply_one api c recorder vnet refs p s) agree.1 kept (kept p s agree.0 h)

    -- Each round keeps the property, and the round of `d` establishes it.
    pub apply_all_reaches {κ} :
        (T : Applied → Type κ) (ds : List NetworkPolicy) (s : Applied)
        → All (Agrees d) ds
        → wanted (key_of d) ds ≡ some d
        → ((s : Applied) → T (apply_one api c recorder vnet refs d s))
        → ((p : NetworkPolicy) (s : Applied)
            → Agrees d p
            → T s
            → T (apply_one api c recorder vnet refs p s))
        → T (apply_all api c recorder vnet refs ds s)
    unfolding apply_all
    apply_all_reaches T [] s agree there once kept = absurd (cc there)
    apply_all_reaches T (p ∷ ds) s agree there once kept =
        elim (Bool-cases (key_of p == key_of d)) [
          | inl same ↦
              reached T ds (apply_one api c recorder vnet refs p s) agree.1 kept
                (rw (agree.0 same) (once s))
          | inr other ↦
              apply_all_reaches T ds (apply_one api c recorder vnet refs p s) agree.1
                (ground (arith, other, there)) once kept
        ]

    apply_unless-Standing :
        (p : NetworkPolicy) (t : Result Bool) (s : Applied)
        → Agrees d p
        → Standing s.policies
        → Standing (apply_unless api c recorder vnet refs p t s).policies
    apply_unless-Standing p t s agrees current =
        apply_unless_policies Standing p t s current
          (apply_policy_keeps p s.policies agrees current)

    module _ (alive : namespace_terminating c d.namespace ≡ ok false) where
      -- Where the server accepts it, a generated policy is applied after the loop, whatever the
      -- other rounds do.
      pub accepted-Standing :
          (ds : List NetworkPolicy) (s : Applied)
          → All (Agrees d) ds
          → wanted (key_of d) ds ≡ some d
          → api.get_error (key_of d) ≡ none
          → api.patch_error d ≡ none
          → Standing (apply_all api c recorder vnet refs ds s).policies
      unfolding apply_one
      accepted-Standing ds s agree there reads writes =
          apply_all_reaches (λ s. Standing s.policies) ds s agree there
            (λ s.
              let (created, accepted) = apply_policy_accepted api d s.policies reads writes in
              let current = apply_policy_ok api d s.policies created accepted in
              rw alive (
                rw
                  (record_apply_policies d (apply_policy api d s.policies).1
                    (record s { policies = (apply_policy api d s.policies).0 }))
                  current))
            (λ p s agrees current.
              apply_unless-Standing p (namespace_terminating c p.namespace) s agrees current)

      -- Applied, or remembered as failed.
      abbrev Judged : Applied → Type 0
      Judged s = Standing s.policies ⊎ (spares s.failed_namespaces d ≡ true)

      record_apply-Judged :
          (r : Result Bool) (s : Applied)
          → ((created : Bool) → r ≡ ok created → Standing s.policies)
          → Judged (record_apply api c recorder vnet refs d r s)
      record_apply-Judged (ok created) s h = inl (h created refl)
      record_apply-Judged (err e) s h =
          inr (ground (arith, string_eq.beq_iff d.namespace d.namespace))

      apply_one-Judged :
          (p : NetworkPolicy) (s : Applied)
          → Agrees d p
          → Judged s
          → Judged (apply_one api c recorder vnet refs p s)
      unfolding apply_one
      apply_one-Judged p s agrees (inl current) =
          inl (apply_unless-Standing p (namespace_terminating c p.namespace) s agrees current)
      apply_one-Judged p s agrees (inr failing) =
          inr (apply_unless_failed d p (namespace_terminating c p.namespace) s failing)

      -- After the loop a generated policy is applied, or its namespace is remembered as failed.
      pub applied_or_failed :
          (ds : List NetworkPolicy) (s : Applied)
          → All (Agrees d) ds
          → wanted (key_of d) ds ≡ some d
          → Judged (apply_all api c recorder vnet refs ds s)
      unfolding apply_one
      applied_or_failed ds s agree there =
          apply_all_reaches Judged ds s agree there
            (λ s. rw alive (
              record_apply-Judged (apply_policy api d s.policies).1
                (record s { policies = (apply_policy api d s.policies).0 })
                (λ created done. apply_policy_ok api d s.policies created done)))
            apply_one-Judged
