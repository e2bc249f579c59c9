-- ===== src/Sweep/Settling.antt =====
-- That an apply settles (sweep.go, `applyPolicy`), on a server that applies as the Kubernetes
-- documentation of server-side apply says.
use kube_vnet.Prelude.{
  String, ◌≡◌, refl, ap, ◌∙◌, inl, inr, Bool, true, false, Option, none, some, arith, if◌then◌else◌,
  string_eq, all, lookup, HasUniqueKeys, Bool-cases, lookup-insert, beq_refl,
}
use kube_vnet.Effects.{Error, ok}
use kube_vnet.Objects.{object_key_eq, NetworkPolicy}
use kube_vnet.Stamps.{has_value}
use kube_vnet.Sweep.{
  Policies, Api, key_of, policy_up_to_date, patch_with, apply_over, apply_read, apply_policy,
}
use kube_vnet.Sweep.Comparing.{lookup_of_maps_equal, maps_equal_of_lookup}

-- Nothing is there, or a live policy that does not end and of which no other manager owns a field,
-- with one entry for each of its labels.
abbrev pub Alone : (shared : NetworkPolicy → Bool) → Option NetworkPolicy → Type 0
Alone shared live =
    (p : NetworkPolicy)
    → live ≡ some p
    → (p.deleting ≡ false) × (shared p ≡ false) × HasUniqueKeys p.labels

abbrev pub ends : Option NetworkPolicy → Bool
ends none = false
ends (some p) = p.deleting

ends-Alone :
    (shared : NetworkPolicy → Bool) (live : Option NetworkPolicy)
    → Alone shared live
    → ends live ≡ false
ends-Alone shared none alone = refl
ends-Alone shared (some p) alone = (alone p refl).0

module _ (api : Api) (desired : NetworkPolicy) where
  -- A live policy as it is desired: it does not end, its labels are the desired ones, the desired
  -- annotations are there, and the owner references and the spec are equal.
  abbrev pub IsCurrent : Option NetworkPolicy → Type 0
  IsCurrent live =
      (p : NetworkPolicy) × (live ≡ some p)
      × (p.deleting ≡ false)
      × ((k : String) → lookup k p.labels ≡ lookup k desired.labels)
      × (all (λ (k, v). has_value k v p.annotations) desired.annotations ≡ true)
      × (api.same_owners p.owner_references desired.owner_references ≡ true)
      × (api.same_spec p.spec desired.spec ≡ true)

  -- A live policy that an apply would not change.
  abbrev Passes : Option NetworkPolicy → Type 0
  Passes live =
      (p : NetworkPolicy) × (live ≡ some p)
      × (policy_up_to_date api p desired ≡ true)
      × HasUniqueKeys p.labels

  Passes-IsCurrent :
      (live : Option NetworkPolicy) → HasUniqueKeys desired.labels → Passes live → IsCurrent live
  unfolding policy_up_to_date
  Passes-IsCurrent live unique (p, there, current, u) = (
    p,
    there,
    ground (arith, current),
    λ k. lookup_of_maps_equal k p.labels desired.labels u unique (ground (arith, current)),
    ground (arith, current),
    ground (arith, current),
    ground (arith, current),
  )

  apply_read_again :
      (o : Option Error) (live : Option NetworkPolicy) (ps : Policies)
      → o ≡ none
      → Passes live
      → apply_read api desired o live ps ≡ (ps, ok false)
  apply_read_again (some e) live ps reads current = absurd (cc reads)
  apply_read_again none none ps reads (p, there, current, u) = absurd (cc there)
  apply_read_again none (some q) ps reads (p, there, current, u) = ground arith

  -- A second apply of what is current writes nothing.
  apply_again :
      (ps : Policies)
      → api.get_error (key_of desired) ≡ none
      → Passes (lookup (key_of desired) ps)
      → apply_policy api desired ps ≡ (ps, ok false)
  unfolding apply_policy
  apply_again ps reads current = apply_read_again _ _ ps reads current

  module _ (shared : NetworkPolicy → Bool) (unique : HasUniqueKeys desired.labels)
      (stores_unique : (live : Option NetworkPolicy)
        → HasUniqueKeys (api.applied live desired).labels)
      (keeps_ending : (live : Option NetworkPolicy)
        → (api.applied live desired).deleting ≡ ends live)
      (stores_labels : (live : Option NetworkPolicy) (k : String)
        → Alone shared live
        → lookup k (api.applied live desired).labels ≡ lookup k desired.labels)
      (stores_annotations : (live : Option NetworkPolicy)
        → all (λ (k, v). has_value k v (api.applied live desired).annotations) desired.annotations
          ≡ true)
      (stores_owners : (live : Option NetworkPolicy)
        → Alone shared live
        → api.same_owners (api.applied live desired).owner_references desired.owner_references
          ≡ true)
      (stores_spec : (live : Option NetworkPolicy)
        → Alone shared live
        → api.same_spec (api.applied live desired).spec desired.spec ≡ true) where
    -- What is stored over nothing, or over a policy of the operator alone, compares as up to date.
    stored_current :
        (live : Option NetworkPolicy)
        → Alone shared live
        → policy_up_to_date api (api.applied live desired) desired ≡ true
    unfolding policy_up_to_date
    stored_current live alone =
        let equal =
          maps_equal_of_lookup (api.applied live desired).labels desired.labels (stores_unique live)
            unique (λ k. stores_labels live k alone) in
        ground (
          arith,
          keeps_ending live,
          ends-Alone shared live alone,
          equal,
          stores_annotations live,
          stores_owners live alone,
          stores_spec live alone,
        )

    patch_with-Passes :
        (o : Option Error) (live : Option NetworkPolicy) (ps : Policies) (created : Bool)
        → Alone shared live
        → (patch_with api desired o live ps).1 ≡ ok created
        → Passes (lookup (key_of desired) (patch_with api desired o live ps).0)
    patch_with-Passes none live ps created alone h = (
      api.applied live desired,
      lookup-insert (key_of desired) (key_of desired) (api.applied live desired) ps
          ∙ ap (λ b. if b then some (api.applied live desired) else lookup (key_of desired) ps)
              (beq_refl (key_of desired)),
      stored_current live alone,
      stores_unique live,
    )
    patch_with-Passes (some x) live ps created alone h = absurd (cc h)

    apply_over-Passes :
        (live : Option NetworkPolicy) (ps : Policies) (created : Bool)
        → Alone shared live
        → lookup (key_of desired) ps ≡ live
        → (apply_over api desired live ps).1 ≡ ok created
        → Passes (lookup (key_of desired) (apply_over api desired live ps).0)
    apply_over-Passes none ps created alone hl h =
        patch_with-Passes (api.patch_error desired) none ps created alone h
    apply_over-Passes (some live) ps created alone hl h =
        elim (Bool-cases (policy_up_to_date api live desired)) [
          | inl e ↦ rw e ((live, hl, e, (alone live refl).2))
          | inr e ↦
              rw e (
                patch_with-Passes (api.patch_error desired) (some live) ps created alone
                  (rw e at h))
        ]

    apply_read-Passes :
        (o : Option Error) (live : Option NetworkPolicy) (ps : Policies) (created : Bool)
        → Alone shared live
        → lookup (key_of desired) ps ≡ live
        → (apply_read api desired o live ps).1 ≡ ok created
        → (o ≡ none) × Passes (lookup (key_of desired) (apply_read api desired o live ps).0)
    apply_read-Passes (some e) live ps created alone hl h = absurd (cc h)
    apply_read-Passes none live ps created alone hl h =
        (refl, apply_over-Passes live ps created alone hl h)

    -- After an apply that succeeded, over nothing or over a live policy that does not end and of which
    -- no other manager owns a field, the live policy does not end, has exactly the desired labels, the
    -- desired annotations and an equal spec and equal owner references, and applying once more writes
    -- nothing; on a server that applies as documented (the deletion timestamp stays, the applied
    -- annotations are there, and where no other manager owns a field the labels are the applied ones
    -- and the owner references and the spec are equal to them), for labels with one entry a key.
    pub apply_policy_settles :
        (ps : Policies) (created : Bool)
        → Alone shared (lookup (key_of desired) ps)
        → (apply_policy api desired ps).1 ≡ ok created
        → IsCurrent (lookup (key_of desired) (apply_policy api desired ps).0)
          × (apply_policy api desired (apply_policy api desired ps).0
              ≡ ((apply_policy api desired ps).0, ok false))
    unfolding apply_policy
    apply_policy_settles ps created alone h =
        let live = lookup (key_of desired) ps in
        let (reads, current) =
          apply_read-Passes (api.get_error (key_of desired)) live ps created alone refl h in
        (
          Passes-IsCurrent _ unique current,
          apply_again (apply_policy api desired ps).0 reads current,
        )
