-- ===== src/ResolutionReconciler/Reconciling.antt =====
-- What a reconcile of a pod writes, in a managed namespace and in one that is not
-- (resolution_controller.go, `Reconcile`).
use kube_vnet.Prelude.{
  String, ◌≡◌, refl, sym, ap, ◌∙◌, Bool, true, false, Option, none, some, List, arith,
  if◌then◌else◌, string_eq, lookup, HasUniqueKeys,
}
use kube_vnet.Effects.{Error, Result, ok, err, found, Event}
use kube_vnet.Objects.{Labels, Pod, Namespace}
use kube_vnet.Cluster.{Cluster}
use kube_vnet.Resolution.{ResolutionResult}
use kube_vnet.Resolver.{desired_labels, is_resolution_managed_label}
use kube_vnet.Stamps.{
  annotation_resolved_generation, annotation_resolved_by, is_resolved_annotation,
}
use kube_vnet.Stamps.Sync.{wanted}
use kube_vnet.Namespaces.{NamespaceFilter, is_managed}
use kube_vnet.NetworkWait.{Durations}
use kube_vnet.Signals.{OnceSet}
use kube_vnet.ResolutionReconciler.{
  PodOutcome, quiet, is_marked, apply_resolution, strip_stamped_labels, warn_unmanaged, after_patch,
  resolved, accepted, strip, in_namespace, reconcile_pod,
}
use kube_vnet.ResolutionReconciler.Settling.{
  left, lookup-stamped, apply_resolution_left, apply_resolution_again, unstamped, unmarked,
  stripped_lem, nothing_to_strip,
}

-- The pod that the API server has after the reconcile's patch, if it patched.
abbrev patch_of : PodOutcome → Option Pod
patch_of o = o.patched

abbrev error_of : PodOutcome → Option Error
error_of o = o.error

module _ (recorder : Bool) (durations : Durations) (wait_enabled : Bool) (c : Cluster)
    (filter : NamespaceFilter) (patch_error : Pod → Option Error) (pod : Pod) (once : OnceSet) where
  abbrev pub passed : PodOutcome
  passed =
      reconcile_pod recorder durations wait_enabled c filter patch_error
        (record { namespace = pod.namespace; name = pod.name }) (found pod) once

  abbrev pub pod_after : Pod
  pod_after = left pod passed.patched

  after_patch_patch :
      (patch : Option Pod) (res : ResolutionResult) (events : List Event) (e : Option Error)
      → error_of (
          after_patch recorder durations wait_enabled c filter patch_error pod patch res events once
            e)
        ≡ none
      → patch_of (
          after_patch recorder durations wait_enabled c filter patch_error pod patch res events once
            e)
        ≡ patch
  after_patch_patch patch res events none h = refl
  after_patch_patch patch res events (some e) h = absurd (cc h)

  resolved_patch :
      (x : List Event × Result (Labels × ResolutionResult)) (desired : Labels)
      (res : ResolutionResult)
      → x.1 ≡ ok (desired, res)
      → error_of (resolved recorder durations wait_enabled c filter patch_error pod x once) ≡ none
      → patch_of (resolved recorder durations wait_enabled c filter patch_error pod x once)
        ≡ apply_resolution pod desired
  resolved_patch (events, err e) desired res h done = absurd (cc h)
  resolved_patch (events, ok (labels, found_res)) desired res h done =
      let same : labels ≡ desired = ground arith in
      after_patch_patch (apply_resolution pod labels) found_res events _ done
      ∙ ap (apply_resolution pod) same

  strip_patch :
      (x : OnceSet × List Event)
      → error_of (strip recorder durations wait_enabled c filter patch_error pod x) ≡ none
      → patch_of (strip recorder durations wait_enabled c filter patch_error pod x)
        ≡ strip_stamped_labels pod
  strip_patch (after, events) done =
      ap (accepted recorder durations wait_enabled c filter patch_error (strip_stamped_labels pod))
        done

  abbrev resolved_outcome : PodOutcome
  resolved_outcome =
      resolved recorder durations wait_enabled c filter patch_error pod
        (desired_labels c recorder pod) once

  abbrev stripped_outcome : PodOutcome
  stripped_outcome =
      strip recorder durations wait_enabled c filter patch_error pod
        (warn_unmanaged recorder durations wait_enabled pod once)

  module _ (existing : pod.deleting ≡ false) (ns : Namespace)
      (there : c.get_namespace pod.namespace ≡ found ns) where
    passed_in_namespace :
        (b : Bool)
        → is_managed filter (some ns) ≡ b
        → passed ≡ (if b then resolved_outcome else stripped_outcome)
    unfolding reconcile_pod
    passed_in_namespace b is_b =
        ap
          (λ d.
            if d
            then quiet once none
            else in_namespace recorder durations wait_enabled c filter patch_error pod
                (c.get_namespace pod.namespace) once)
          existing
        ∙ ap (λ f. in_namespace recorder durations wait_enabled c filter patch_error pod f once)
            there
        ∙ ap (λ d. if d then resolved_outcome else stripped_outcome) is_b

    -- After a reconcile without an error of a pod in a managed namespace, where it resolves, each
    -- label that resolution owns has the resolved value or is not there, each other label is as it
    -- was, the pod is marked as resolved, and applying the same labels again writes nothing, for
    -- resolved labels with one entry a key.
    pub reconcile_pod_managed :
        (desired : Labels) (res : ResolutionResult) (k : String)
        → is_managed filter (some ns) ≡ true
        → (desired_labels c recorder pod).1 ≡ ok (desired, res)
        → HasUniqueKeys desired
        → passed.error ≡ none
        → (lookup k pod_after.labels ≡ wanted is_resolution_managed_label desired pod.labels k)
          × (is_marked pod_after ≡ true)
          × (apply_resolution pod_after desired ≡ none)
    reconcile_pod_managed desired res k managed resolves u done =
        let same = passed_in_namespace true managed in
        let patch : passed.patched ≡ apply_resolution pod desired =
          ap patch_of same
          ∙ resolved_patch (desired_labels c recorder pod) desired res resolves
              (sym (ap error_of same) ∙ done) in
        rw patch (
          (
            lookup-stamped pod desired k,
            (apply_resolution_left pod desired).1,
            apply_resolution_again pod desired u,
          ))

    -- After a reconcile without an error of a pod in a namespace that is not managed no label that
    -- resolution owns and no marker is left on it, every other label and annotation is as it was,
    -- and stripping it again writes nothing.
    pub reconcile_pod_unmanaged :
        (k : String)
        → is_managed filter (some ns) ≡ false
        → passed.error ≡ none
        → (lookup k pod_after.labels ≡ unstamped pod.labels k)
          × (lookup k pod_after.annotations ≡ unmarked pod.annotations k)
          × (strip_stamped_labels pod_after ≡ none)
    reconcile_pod_unmanaged k unmanaged done =
        let same = passed_in_namespace false unmanaged in
        let patch : passed.patched ≡ strip_stamped_labels pod =
          ap patch_of same
          ∙ strip_patch (warn_unmanaged recorder durations wait_enabled pod once)
              (sym (ap error_of same) ∙ done) in
        rw patch (
          (
            (stripped_lem pod k).0,
            (stripped_lem pod k).1,
            nothing_to_strip (left pod (strip_stamped_labels pod))
                (λ j. (stripped_lem pod j).0 ∙ again j) (gone annotation_resolved_generation refl)
                (gone annotation_resolved_by refl),
          ))
      where
        again :
            (j : String)
            → unstamped pod.labels j ≡ unstamped (left pod (strip_stamped_labels pod)).labels j
        again j = ground (arith, (stripped_lem pod j).0)

        gone :
            (j : String)
            → is_resolved_annotation j ≡ true
            → lookup j (left pod (strip_stamped_labels pod)).annotations ≡ none
        gone j e = (stripped_lem pod j).1 ∙ ap (λ b. if b then none else lookup j pod.annotations) e
