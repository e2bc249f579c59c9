-- ===== src/Sweep/Sweeping.antt =====
-- Which policies a sweep deletes (sweep.go, `sweepStalePolicies`).
use kube_vnet.Prelude.{
  some-inj, true, ◌||◌, ◌≡◌, refl, sym, ap, ◌∙◌, Bool, false, Option, none, some, List, [], ◌∷◌,
  arith, if◌then◌else◌, ◌==◌, any, lookup, lookup-delete_if, HasUniqueKeys, Bool-cases, inl, inr,
  beq→eq,
}
use kube_vnet.Effects.{Error}
use kube_vnet.Objects.{ObjectKey, object_key_eq, NetworkPolicy}
use kube_vnet.Sweep.{
  Policies, DeleteOutcome, deleted, already_gone, delete_failed, Api, ListOptions, listed, remove,
  after_delete, sweep_keys, is_stale, stale_keys, swept, sweep_stale_policies,
}

module _ (api : Api) (k : ObjectKey) where
  abbrev among : List ObjectKey → Bool
  among ks = any (λ j. j == k) ks

  lookup-remove :
      (j : ObjectKey) (ps : Policies)
      → lookup k (remove api j ps) ≡ (if k == j then none else lookup k ps)
  lookup-remove j ps = lookup-delete_if (λ i. i == j) k ps

  after_delete-spares :
      (o : DeleteOutcome) (ps : Policies) (rest : Policies × Option Error)
      → lookup k rest.0 ≡ lookup k ps
      → lookup k (after_delete api o ps rest).0 ≡ lookup k ps
  after_delete-spares deleted ps rest h = h
  after_delete-spares already_gone ps rest h = h
  after_delete-spares (delete_failed e) ps rest h = refl

  -- A policy that is not to go stays, even where a delete fails.
  sweep_keys-spares :
      (ks : List ObjectKey) (ps : Policies)
      → among ks ≡ false
      → lookup k (sweep_keys api ks ps).0 ≡ lookup k ps
  unfolding sweep_keys
  sweep_keys-spares [] ps h = refl
  sweep_keys-spares (j ∷ js) ps h =
      after_delete-spares (api.delete_outcome j) ps (sweep_keys api js (remove api j ps)) (
        sweep_keys-spares js (remove api j ps) (ground (arith, h))
        ∙ lookup-remove j ps
        ∙ ground (arith, object_key_eq.beq_iff k j, object_key_eq.beq_iff j k))

  after_delete-none :
      (o : DeleteOutcome) (ps : Policies) (rest : Policies × Option Error)
      → (after_delete api o ps rest).1 ≡ none
      → after_delete api o ps rest ≡ rest
  after_delete-none deleted ps rest h = refl
  after_delete-none already_gone ps rest h = refl
  after_delete-none (delete_failed e) ps rest h = absurd (cc h)

  -- Without an error every one of the policies is gone.
  lookup-sweep_keys :
      (ks : List ObjectKey) (ps : Policies)
      → (sweep_keys api ks ps).1 ≡ none
      → lookup k (sweep_keys api ks ps).0 ≡ (if among ks then none else lookup k ps)
  unfolding sweep_keys
  lookup-sweep_keys [] ps h = refl
  lookup-sweep_keys (j ∷ js) ps h =
      let rest = sweep_keys api js (remove api j ps) in
      let same = after_delete-none (api.delete_outcome j) ps rest h in
      ap (λ p. lookup k p.0) same
      ∙ lookup-sweep_keys js (remove api j ps) (ap (λ p. p.1) (sym same) ∙ h)
      ∙ ground (arith, lookup-remove j ps, object_key_eq.beq_iff k j, object_key_eq.beq_iff j k)

  swept-spares :
      (o : Option Error) (ks : List ObjectKey) (ps : Policies)
      → among ks ≡ false
      → lookup k (swept api o ks ps).0 ≡ lookup k ps
  swept-spares none ks ps h = sweep_keys-spares ks ps h
  swept-spares (some e) ks ps h = refl

  lookup-swept :
      (o : Option Error) (ks : List ObjectKey) (ps : Policies)
      → (swept api o ks ps).1 ≡ none
      → lookup k (swept api o ks ps).0 ≡ (if among ks then none else lookup k ps)
  lookup-swept none ks ps h = lookup-sweep_keys ks ps h
  lookup-swept (some e) ks ps h = absurd (cc h)

  module _ (opts : ListOptions) (keep : ObjectKey → Bool) (skip : NetworkPolicy → Bool) where
    -- Whether the policy under the key is one to delete.
    abbrev pub to_delete : Option NetworkPolicy → Bool
    to_delete none = false
    to_delete (some p) = is_stale api opts keep skip k p

    among-absent :
        (ps : Policies) → lookup k ps ≡ none → among (stale_keys api opts keep skip ps) ≡ false
    unfolding stale_keys lookup
    among-absent [] h = refl
    among-absent ((j, p) ∷ ps) h = ground (arith, among-absent ps)

    among-stale_keys :
        (ps : Policies)
        → HasUniqueKeys ps
        → among (stale_keys api opts keep skip ps) ≡ to_delete (lookup k ps)
    unfolding stale_keys lookup
    among-stale_keys [] u = refl
    among-stale_keys ((j, p) ∷ ps) u = elim (Bool-cases (j == k)) [
      | inl e ↦
          let same = beq→eq j k e in
          let absent = among-absent ps (ap (λ i. lookup i ps) (sym same) ∙ u.0) in
          ground (arith, e, absent, ap (λ i. is_stale api opts keep skip i p) same)
      | inr e ↦ ground (arith, e, among-stale_keys ps u.1)
    ]

    -- A sweep leaves a policy that it does not match, that is kept or that is spared, even where a
    -- delete fails, for policies with one entry a key.
    pub sweep-spares :
        (ps : Policies)
        → HasUniqueKeys ps
        → to_delete (lookup k ps) ≡ false
        → lookup k (sweep_stale_policies api opts keep skip ps).0 ≡ lookup k ps
    unfolding sweep_stale_policies
    sweep-spares ps u h =
        swept-spares api.list_error (stale_keys api opts keep skip ps) ps
          (among-stale_keys ps u ∙ h)

    -- A sweep that returns no error deletes exactly the policies that match and are neither kept nor
    -- spared, for policies with one entry a key.
    pub lookup-sweep_stale_policies :
        (ps : Policies)
        → HasUniqueKeys ps
        → (sweep_stale_policies api opts keep skip ps).1 ≡ none
        → lookup k (sweep_stale_policies api opts keep skip ps).0
          ≡ (if to_delete (lookup k ps) then none else lookup k ps)
    unfolding sweep_stale_policies
    lookup-sweep_stale_policies ps u h =
        lookup-swept api.list_error (stale_keys api opts keep skip ps) ps h
        ∙ ap (λ b. if b then none else lookup k ps) (among-stale_keys ps u)

    -- What a sweep is to delete, from a policy that is there.
    pub kept_or_spared :
        (o : Option NetworkPolicy) (p : NetworkPolicy)
        → (if to_delete o then none else o) ≡ some p
        → listed opts p ≡ true
        → (keep k || skip p) ≡ true
    kept_or_spared none p h is_listed = absurd (cc h)
    kept_or_spared (some q) p h is_listed = elim (Bool-cases (to_delete (some q))) [
      | inl stale ↦ absurd (cc (rw stale at h))
      | inr fresh ↦
          let same = some-inj q p (rw fresh at h) in
          let there = ap (listed opts) same ∙ is_listed in
          ap (λ r. keep k || skip r) (sym same) ∙ ground (arith, fresh, there)
    ]

    -- What is left after a sweep without an error, and matches, is kept or spared.
    pub left_of_sweep :
        (ps : Policies) (p : NetworkPolicy)
        → HasUniqueKeys ps
        → (sweep_stale_policies api opts keep skip ps).1 ≡ none
        → lookup k (sweep_stale_policies api opts keep skip ps).0 ≡ some p
        → listed opts p ≡ true
        → (keep k || skip p) ≡ true
    left_of_sweep ps p u h there is_listed =
        kept_or_spared (lookup k ps) p (sym (lookup-sweep_stale_policies ps u h) ∙ there) is_listed

    -- A policy under a key that is kept stays.
    pub kept_by_sweep :
        (ps : Policies)
        → HasUniqueKeys ps
        → keep k ≡ true
        → lookup k (sweep_stale_policies api opts keep skip ps).0 ≡ lookup k ps
    kept_by_sweep ps u h = sweep-spares ps u (not_stale (lookup k ps))
      where
        not_stale : (o : Option NetworkPolicy) → to_delete o ≡ false
        not_stale none = refl
        not_stale (some q) = ground (arith, h)
