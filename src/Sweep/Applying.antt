-- ===== src/Sweep/Applying.antt =====
-- What applying a policy leaves (sweep.go, `applyPolicy`).
use kube_vnet.Prelude.{
  ◌≡◌, ◌⊎◌, refl, ap, ◌∙◌, inl, inr, Bool, true, false, Option, none, some, if◌then◌else◌, ◌==◌,
  lookup, lookup-insert, HasUniqueKeys, insert-HasUniqueKeys, Bool-cases, beq_refl,
}
use kube_vnet.Effects.{Error, ok}
use kube_vnet.Objects.{ObjectKey, object_key_eq, NetworkPolicy}
use kube_vnet.Sweep.{
  Policies, Api, key_of, policy_up_to_date, patch_with, apply_over, apply_read, apply_policy,
}

module _ (api : Api) (desired : NetworkPolicy) where
  -- What an apply leaves where it succeeds: a live policy that it would not change, or what the
  -- server stored of applying it over what was there.
  abbrev pub IsApplied : Option NetworkPolicy → Type 0
  IsApplied live =
      (p : NetworkPolicy) × (live ≡ some p)
      × ((policy_up_to_date api p desired ≡ true)
          ⊎ ((before : Option NetworkPolicy) × (p ≡ api.applied before desired)))

  patch_with-others :
      (o : Option Error) (live : Option NetworkPolicy) (ps : Policies) (k : ObjectKey)
      → (key_of desired == k) ≡ false
      → lookup k (patch_with api desired o live ps).0 ≡ lookup k ps
  patch_with-others none live ps k other =
      lookup-insert (key_of desired) k (api.applied live desired) ps
      ∙ ap (λ b. if b then some (api.applied live desired) else lookup k ps) other
  patch_with-others (some x) live ps k other = refl

  apply_over-others :
      (live : Option NetworkPolicy) (ps : Policies) (k : ObjectKey)
      → (key_of desired == k) ≡ false
      → lookup k (apply_over api desired live ps).0 ≡ lookup k ps
  apply_over-others none ps k other = patch_with-others (api.patch_error desired) none ps k other
  apply_over-others (some live) ps k other =
      elim (Bool-cases (policy_up_to_date api live desired)) [
        | inl e ↦ rw e
        | inr e ↦ rw e (patch_with-others (api.patch_error desired) (some live) ps k other)
      ]

  apply_read-others :
      (o : Option Error) (live : Option NetworkPolicy) (ps : Policies) (k : ObjectKey)
      → (key_of desired == k) ≡ false
      → lookup k (apply_read api desired o live ps).0 ≡ lookup k ps
  apply_read-others none live ps k other = apply_over-others live ps k other
  apply_read-others (some e) live ps k other = refl

  -- Applying a policy leaves every other policy as it is, whatever the API server answers.
  pub apply_policy-others :
      (ps : Policies) (k : ObjectKey)
      → (key_of desired == k) ≡ false
      → lookup k (apply_policy api desired ps).0 ≡ lookup k ps
  unfolding apply_policy
  apply_policy-others ps k other = apply_read-others _ _ ps k other

  patch_with-HasUniqueKeys :
      (o : Option Error) (live : Option NetworkPolicy) (ps : Policies)
      → HasUniqueKeys ps
      → HasUniqueKeys (patch_with api desired o live ps).0
  patch_with-HasUniqueKeys none live ps u =
      insert-HasUniqueKeys (key_of desired) (api.applied live desired) ps u
  patch_with-HasUniqueKeys (some e) live ps u = u

  apply_read-HasUniqueKeys :
      (o : Option Error) (live : Option NetworkPolicy) (ps : Policies)
      → HasUniqueKeys ps
      → HasUniqueKeys (apply_read api desired o live ps).0
  apply_read-HasUniqueKeys (some e) live ps u = u
  apply_read-HasUniqueKeys none none ps u =
      patch_with-HasUniqueKeys (api.patch_error desired) none ps u
  apply_read-HasUniqueKeys none (some live) ps u =
      elim (Bool-cases (policy_up_to_date api live desired)) [
        | inl e ↦ rw e u
        | inr e ↦ rw e (patch_with-HasUniqueKeys (api.patch_error desired) (some live) ps u)
      ]

  pub apply_policy-HasUniqueKeys :
      (ps : Policies) → HasUniqueKeys ps → HasUniqueKeys (apply_policy api desired ps).0
  unfolding apply_policy
  apply_policy-HasUniqueKeys ps u = apply_read-HasUniqueKeys _ _ ps u

  -- The apply leaves the policy as it was, or applied.
  abbrev Moved : Policies → Policies → Type 0
  Moved before after =
      (lookup (key_of desired) after ≡ lookup (key_of desired) before)
      ⊎ IsApplied (lookup (key_of desired) after)

  patch_with-IsApplied :
      (live : Option NetworkPolicy) (ps : Policies)
      → IsApplied (lookup (key_of desired) (patch_with api desired none live ps).0)
  patch_with-IsApplied live ps = (
    api.applied live desired,
    lookup-insert (key_of desired) (key_of desired) (api.applied live desired) ps
        ∙ ap (λ b. if b then some (api.applied live desired) else lookup (key_of desired) ps)
            (beq_refl (key_of desired)),
    inr (live, refl),
  )

  patch_with-Moved :
      (o : Option Error) (live : Option NetworkPolicy) (ps : Policies)
      → Moved ps (patch_with api desired o live ps).0
  patch_with-Moved (some e) live ps = inl refl
  patch_with-Moved none live ps = inr (patch_with-IsApplied live ps)

  apply_read-Moved :
      (o : Option Error) (live : Option NetworkPolicy) (ps : Policies)
      → Moved ps (apply_read api desired o live ps).0
  apply_read-Moved (some e) live ps = inl refl
  apply_read-Moved none none ps = patch_with-Moved (api.patch_error desired) none ps
  apply_read-Moved none (some live) ps = elim (Bool-cases (policy_up_to_date api live desired)) [
    | inl e ↦ rw e (inl refl)
    | inr e ↦ rw e (patch_with-Moved (api.patch_error desired) (some live) ps)
  ]

  -- Applying once more leaves a policy applied, whatever the API server answers.
  pub apply_policy-IsApplied :
      (ps : Policies)
      → IsApplied (lookup (key_of desired) ps)
      → IsApplied (lookup (key_of desired) (apply_policy api desired ps).0)
  unfolding apply_policy
  apply_policy-IsApplied ps standing =
      elim (apply_read-Moved (api.get_error (key_of desired)) (lookup (key_of desired) ps) ps) [
        | inl same ↦ rw same standing
        | inr applied ↦ applied
      ]

  apply_read_accepted :
      (o : Option Error) (live : Option NetworkPolicy) (ps : Policies)
      → o ≡ none
      → api.patch_error desired ≡ none
      → (created : Bool) × ((apply_read api desired o live ps).1 ≡ ok created)
  apply_read_accepted (some e) live ps reads writes = absurd (cc reads)
  apply_read_accepted none none ps reads writes = (true, rw writes)
  apply_read_accepted none (some q) ps reads writes =
      elim (Bool-cases (policy_up_to_date api q desired)) [
        | inl e ↦ (false, rw e)
        | inr e ↦ (false, rw (e, writes))
      ]

  -- An apply succeeds where the server answers the read and the write without an error.
  pub apply_policy_accepted :
      (ps : Policies)
      → api.get_error (key_of desired) ≡ none
      → api.patch_error desired ≡ none
      → (created : Bool) × ((apply_policy api desired ps).1 ≡ ok created)
  unfolding apply_policy
  apply_policy_accepted ps reads writes = apply_read_accepted _ _ ps reads writes

  patch_with_ok :
      (o : Option Error) (live : Option NetworkPolicy) (ps : Policies) (created : Bool)
      → (patch_with api desired o live ps).1 ≡ ok created
      → IsApplied (lookup (key_of desired) (patch_with api desired o live ps).0)
  patch_with_ok none live ps created h = patch_with-IsApplied live ps
  patch_with_ok (some x) live ps created h = absurd (cc h)

  apply_over_ok :
      (live : Option NetworkPolicy) (ps : Policies) (created : Bool)
      → lookup (key_of desired) ps ≡ live
      → (apply_over api desired live ps).1 ≡ ok created
      → IsApplied (lookup (key_of desired) (apply_over api desired live ps).0)
  apply_over_ok none ps created hl h = patch_with_ok (api.patch_error desired) none ps created h
  apply_over_ok (some live) ps created hl h =
      elim (Bool-cases (policy_up_to_date api live desired)) [
        | inl e ↦ rw e ((live, hl, inl e))
        | inr e ↦ rw e (patch_with_ok (api.patch_error desired) (some live) ps created (rw e at h))
      ]

  apply_read_ok :
      (o : Option Error) (live : Option NetworkPolicy) (ps : Policies) (created : Bool)
      → lookup (key_of desired) ps ≡ live
      → (apply_read api desired o live ps).1 ≡ ok created
      → IsApplied (lookup (key_of desired) (apply_read api desired o live ps).0)
  apply_read_ok (some e) live ps created hl h = absurd (cc h)
  apply_read_ok none live ps created hl h = apply_over_ok live ps created hl h

  -- An apply that succeeds leaves the policy applied.
  pub apply_policy_ok :
      (ps : Policies) (created : Bool)
      → (apply_policy api desired ps).1 ≡ ok created
      → IsApplied (lookup (key_of desired) (apply_policy api desired ps).0)
  unfolding apply_policy
  apply_policy_ok ps created h = apply_read_ok _ _ ps created refl h
