-- ===== src/ResolutionReconciler/Settling.antt =====
-- What a reconcile of a pod leaves on it (resolution_controller.go).
use kube_vnet.Prelude.{
  String, ◌≡◌, refl, sym, ap, ◌∙◌, inl, inr, Bool, true, false, not, ◌&&◌, Option, none, some, [],
  arith, if◌then◌else◌, ◌==◌, string_eq, is_some, or_else, lookup, insert, lookup-insert, delete_if,
  lookup-delete_if, HasUniqueKeys, Bool-cases,
}
use kube_vnet.Prelude.Decimal.{decimal, decimal_not_empty}
use kube_vnet.Objects.{Labels, Pod}
use kube_vnet.Resolver.{is_resolution_managed_label}
use kube_vnet.Stamps.{
  annotation_resolved_generation, annotation_resolved_by, is_resolved_annotation,
  sync_managed_labels, sync_stamps, mark_resolved, clear_resolved,
}
use kube_vnet.Stamps.Sync.{
  wanted, lookup-sync_managed_labels, unchanged_lem, delete_if_none, sync_settled, wanted_again,
}
use kube_vnet.ResolutionReconciler.{
  owns_all, is_marked, resolved_by_controller, apply_resolution, strip_stamped_labels,
}

-- The pod as a reconcile leaves it.
abbrev pub left : Pod → Option Pod → Pod
left pod patch = or_else patch pod

abbrev managed : String → Bool
managed k = is_resolution_managed_label k && owns_all k

owned_all : (desired : Labels) → delete_if (λ k. not (owns_all k)) desired ≡ desired
owned_all desired = delete_if_none (λ k. not (owns_all k)) desired (λ k h. absurd (cc h))

wanted-managed :
    (desired labels : Labels) (k : String)
    → wanted managed desired labels k ≡ wanted is_resolution_managed_label desired labels k
wanted-managed desired labels k = ground arith

sync_all :
    (pod : Pod) (desired : Labels)
    → sync_stamps pod desired owns_all ≡ (
      record pod { labels = (sync_managed_labels managed desired pod.labels).0 },
      (sync_managed_labels managed desired pod.labels).1,
    )
unfolding sync_stamps
sync_all pod desired =
    ap
      (λ d. (
        record pod { labels = (sync_managed_labels managed d pod.labels).0 },
        (sync_managed_labels managed d pod.labels).1,
      ))
      (owned_all desired)

mark_resolved-is_marked : (pod : Pod) (by : String) → is_marked (mark_resolved pod by) ≡ true
unfolding mark_resolved
mark_resolved-is_marked pod by =
    let generation =
      insert annotation_resolved_generation (decimal pod.generation) pod.annotations in
    let at =
      lookup-insert annotation_resolved_by annotation_resolved_generation by generation
      ∙ ground arith
      ∙ lookup-insert annotation_resolved_generation annotation_resolved_generation
          (decimal pod.generation) pod.annotations in
    ap (λ (o : Option String). not (or_else o "" == "")) at
    ∙ ap not (decimal_not_empty pod.generation)

module _ (pod : Pod) (desired : Labels) where
  abbrev stamped : Pod
  stamped = left pod (apply_resolution pod desired)

  apply_resolution_eq : apply_resolution pod desired ≡ (
      if not (sync_managed_labels managed desired pod.labels).1 && is_marked pod
      then none
      else some (
          mark_resolved
            (record pod { labels = (sync_managed_labels managed desired pod.labels).0 })
            resolved_by_controller))
  unfolding apply_resolution
  apply_resolution_eq =
      ap
        (λ (r : Pod × Bool).
          if not r.1 && is_marked pod
          then none
          else some (mark_resolved r.0 resolved_by_controller))
        (sync_all pod desired)

  pub apply_resolution_left :
      (stamped.labels ≡ (sync_managed_labels managed desired pod.labels).0)
      × (is_marked stamped ≡ true)
  unfolding mark_resolved
  apply_resolution_left =
      elim (Bool-cases (not (sync_managed_labels managed desired pod.labels).1 && is_marked pod)) [
        | inl e ↦
            let same =
              apply_resolution_eq
              ∙ ap
                  (λ b.
                    if b
                    then none
                    else some (
                        mark_resolved
                          (record pod {
                            labels = (sync_managed_labels managed desired pod.labels).0;
                          })
                          resolved_by_controller))
                  e in
            rw same (
              sym (unchanged_lem managed desired pod.labels (ground (arith, e))),
              ground (arith, e),
            )
        | inr e ↦
            let same =
              apply_resolution_eq
              ∙ ap
                  (λ b.
                    if b
                    then none
                    else some (
                        mark_resolved
                          (record pod {
                            labels = (sync_managed_labels managed desired pod.labels).0;
                          })
                          resolved_by_controller))
                  e in
            rw same (
              refl,
              mark_resolved-is_marked
                  (record pod { labels = (sync_managed_labels managed desired pod.labels).0 })
                  resolved_by_controller,
            )
      ]

  pub lookup-stamped :
      (k : String)
      → lookup k stamped.labels ≡ wanted is_resolution_managed_label desired pod.labels k
  lookup-stamped k =
      ap (lookup k) apply_resolution_left.0
      ∙ lookup-sync_managed_labels managed desired pod.labels k
      ∙ wanted-managed desired pod.labels k

  pub apply_resolution_again : HasUniqueKeys desired → apply_resolution stamped desired ≡ none
  unfolding apply_resolution
  apply_resolution_again u =
      let settled = sync_settled managed desired stamped.labels u (λ k.
        wanted_again managed desired pod.labels stamped.labels k (
          ap (lookup k) apply_resolution_left.0
          ∙ lookup-sync_managed_labels managed desired pod.labels k)) in
      ap
        (λ (r : Pod × Bool).
          if not r.1 && is_marked stamped
          then none
          else some (mark_resolved r.0 resolved_by_controller))
        (sync_all stamped desired
          ∙ ap (λ (r : Labels × Bool). (record stamped { labels = r.0 }, r.1)) settled)
      ∙ ap (λ b. if b then none else some (mark_resolved stamped resolved_by_controller))
          apply_resolution_left.1

-- An annotation is found as before, but for the markers.
abbrev pub unmarked : Labels → String → Option String
unmarked annotations k = if is_resolved_annotation k then none else lookup k annotations

abbrev pub unstamped : Labels → String → Option String
unstamped labels k = if is_resolution_managed_label k then none else lookup k labels

is_none : (o : Option String) → is_some o ≡ false → o ≡ none
is_none none h = refl
is_none (some v) h = absurd (cc h)

unmarked_same :
    (annotations : Labels) (k : String)
    → lookup annotation_resolved_generation annotations ≡ none
    → lookup annotation_resolved_by annotations ≡ none
    → lookup k annotations ≡ unmarked annotations k
unmarked_same annotations k g b = elim (Bool-cases (is_resolved_annotation k)) [
  | inl e ↦ rw e (
      ground (
        arith,
        e,
        g,
        b,
        string_eq.beq_iff k annotation_resolved_generation,
        string_eq.beq_iff k annotation_resolved_by,
      ))
  | inr e ↦ rw e refl
]

module _ (pod : Pod) where
  abbrev synced : Labels × Bool
  synced = sync_managed_labels managed [] pod.labels

  abbrev bare_pod : Pod
  bare_pod = record pod { labels = synced.0 }

  abbrev is_bare : Bool
  is_bare = not synced.1 && not (clear_resolved bare_pod).1

  strip_stamped_labels_eq :
      strip_stamped_labels pod ≡ (if is_bare then none else some (clear_resolved bare_pod).0)
  unfolding strip_stamped_labels
  strip_stamped_labels_eq =
      ap
        (λ (r : Pod × Bool).
          if not r.1 && not (clear_resolved r.0).1 then none else some (clear_resolved r.0).0)
        (sync_all pod [])

  lookup-synced : (k : String) → lookup k synced.0 ≡ unstamped pod.labels k
  unfolding lookup
  lookup-synced k = lookup-sync_managed_labels managed [] pod.labels k ∙ ground arith

  pub stripped_lem :
      (k : String)
      → (lookup k (left pod (strip_stamped_labels pod)).labels ≡ unstamped pod.labels k)
        × (lookup k (left pod (strip_stamped_labels pod)).annotations ≡ unmarked pod.annotations k)
  unfolding clear_resolved
  stripped_lem k = elim (Bool-cases is_bare) [
    | inl e ↦
        let same =
          strip_stamped_labels_eq
          ∙ ap (λ b. if b then none else some (clear_resolved bare_pod).0) e in
        rw same (
          ap (lookup k) (sym (unchanged_lem managed [] pod.labels (ground (arith, e))))
              ∙ lookup-synced k,
          unmarked_same pod.annotations k (is_none _ (ground (arith, e)))
              (is_none _ (ground (arith, e))),
        )
    | inr e ↦
        let same =
          strip_stamped_labels_eq
          ∙ ap (λ b. if b then none else some (clear_resolved bare_pod).0) e in
        rw same (lookup-synced k, lookup-delete_if is_resolved_annotation k pod.annotations)
  ]

pub nothing_to_strip :
    (pod : Pod)
    → ((k : String) → lookup k pod.labels ≡ unstamped pod.labels k)
    → lookup annotation_resolved_generation pod.annotations ≡ none
    → lookup annotation_resolved_by pod.annotations ≡ none
    → strip_stamped_labels pod ≡ none
unfolding clear_resolved lookup
nothing_to_strip pod h g b =
    let settled = sync_settled managed [] pod.labels tt (λ k. h k ∙ ground arith) in
    strip_stamped_labels_eq pod
    ∙ ap
        (λ (r : Labels × Bool).
          if not r.1 && not (clear_resolved (record pod { labels = r.0 })).1
          then none
          else some (clear_resolved (record pod { labels = r.0 })).0)
        settled
    ∙ ground (arith, g, b)
