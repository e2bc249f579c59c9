-- ===== src/Admission/Stamping.antt =====
-- What the mutator stamps, and that the validator then agrees (mutator.go, validator.go).
use mathlib.Core.Path.{subst}
use kube_vnet.Prelude.{
  String, ◌≡◌, refl, sym, ap, ◌∙◌, inl, inr, true, false, not, ◌&&◌, Option, none, some, arith,
  if◌then◌else◌, string_eq, lookup, lookup-delete_if, Bool-cases,
}
use kube_vnet.Effects.{Result, ok, err}
use kube_vnet.Effects.Eff.{Eff}
use kube_vnet.Objects.{Labels, Pod}
use kube_vnet.Resolver.{is_resolution_managed_label}
use kube_vnet.Stamps.{resolution_stamps, sync_stamps, mark_resolved}
use kube_vnet.Stamps.Sync.{lookup-sync_managed_labels}
use kube_vnet.Admission.{
  Deps, Operation, Request, PodRequest, patched, is_operator, decode, decode_old, untouched,
  namespace_managed, resolved_in, with_wait, stamp_pod, patch_to, stamped, mutate_pod, mutate,
  validate,
}
use kube_vnet.Admission.Judging.{Matches, is_allowed, validate_iff}

lookup-resolution_stamps :
    (k : String) (m : Labels)
    → lookup k (resolution_stamps m) ≡ (if is_resolution_managed_label k then lookup k m else none)
unfolding resolution_stamps
lookup-resolution_stamps k m =
    lookup-delete_if (λ j. not (is_resolution_managed_label j)) k m ∙ ground arith

-- On a stamped pod each stamp that the request left alone is the resolved one, and each other stamp
-- is as submitted.
pub lookup-stamp_pod :
    (r : PodRequest) (desired : Labels) (k : String)
    → is_resolution_managed_label k ≡ true
    → lookup k (stamp_pod r desired).labels
      ≡ (if untouched r k then lookup k desired else lookup k r.pod.labels)
unfolding stamp_pod sync_stamps mark_resolved
lookup-stamp_pod r desired k managed =
    lookup-sync_managed_labels (λ j. is_resolution_managed_label j && untouched r j) _ r.pod.labels
      k
    ∙ ground (arith, lookup-delete_if (λ j. not (untouched r j)) k desired)

-- A request decodes to a pod with its stamps, and to one with another pod's in its place.
record IsDecoded (req : Request) (r : PodRequest) : Type 0 where
  stamps_lem : r.stamps ≡ resolution_stamps r.pod.labels
  old_lem : (k : String) → is_resolution_managed_label k ≡ false → lookup k r.old_stamps ≡ none
  again_lem :
      (pod : Pod)
      → decode (record req { object = ok pod })
        ≡ ok (record r { pod = pod; stamps = resolution_stamps pod.labels })

ok-inj : (a b : PodRequest) → ok a ≡ ok b → a ≡ b
ok-inj a b h = cc

decode_old_lem :
    (req : Request) (r : PodRequest) (pod : Pod) (old : Option (Result Pod))
    → req.old_object ≡ old
    → decode_old pod old ≡ ok r
    → IsDecoded req r
unfolding decode lookup
decode_old_lem req r pod none ho h =
    subst (IsDecoded req) (ok-inj _ r h)
      (record { stamps_lem = refl; old_lem = λ k e. refl; again_lem = λ pod'. rw ho })
decode_old_lem req r pod (some (err e)) ho h = absurd (cc h)
decode_old_lem req r pod (some (ok o)) ho h = subst (IsDecoded req) (ok-inj _ r h) (record {
  stamps_lem = refl;
  old_lem = λ k e. lookup-resolution_stamps k o.labels ∙ ground (arith, e);
  again_lem = λ pod'. rw ho;
})

IsDecoded-by :
    (req : Request) (r : PodRequest) (o : Result Pod)
    → req.object ≡ o
    → decode req ≡ ok r
    → IsDecoded req r
unfolding decode
IsDecoded-by req r (err e) ho h = absurd (cc (rw ho at h))
IsDecoded-by req r (ok pod) ho h = decode_old_lem req r pod req.old_object refl (rw ho at h)

-- The init container does not change the labels.
labels-with_wait :
    (d : Deps) (op : Operation) (out : Pod) → (with_wait d op out).0.labels ≡ out.labels
unfolding with_wait
labels-with_wait d op out = ground arith

stamped-patched :
    (d : Deps) (op : Operation) (r : PodRequest) (desired : Labels) (x : Eff Labels) (out : Pod)
    (w : Option String)
    → x.1 ≡ ok desired
    → (stamped d op r x).1 ≡ patched out w
    → out ≡ (with_wait d op (stamp_pod r desired)).0
unfolding patch_to
stamped-patched d op r desired (es, err e) out w hx h = absurd (cc hx)
stamped-patched d op r desired (es, ok m) out w hx h = ground arith

module _ (r : PodRequest) (desired : Labels) (out : Pod) where
  -- The mutated pod as the next request's pod, over the same old pod.
  abbrev next : PodRequest
  next = record r { pod = out; stamps = resolution_stamps out.labels }

  submitted :
      (k : String)
      → r.stamps ≡ resolution_stamps r.pod.labels
      → is_resolution_managed_label k ≡ true
      → lookup k r.pod.labels ≡ lookup k r.stamps
  submitted k from_pod managed = sym (
      ap (λ s. lookup k s) from_pod
      ∙ lookup-resolution_stamps k r.pod.labels
      ∙ ground (arith, managed))

  unmanaged_gone :
      (k : String) → is_resolution_managed_label k ≡ false → lookup k next.stamps ≡ none
  unmanaged_gone k other = lookup-resolution_stamps k out.labels ∙ ground (arith, other)

  unmanaged_untouched :
      (k : String)
      → lookup k r.old_stamps ≡ none
      → lookup k next.stamps ≡ none
      → untouched next k ≡ true
  unfolding untouched
  unmanaged_untouched k h n = ground arith

  next-Matches :
      r.stamps ≡ resolution_stamps r.pod.labels
      → ((k : String) → is_resolution_managed_label k ≡ false → lookup k r.old_stamps ≡ none)
      → out.labels ≡ (stamp_pod r desired).labels
      → Matches r desired
      → Matches next desired
  next-Matches from_pod old labelled m k changed =
      elim (Bool-cases (is_resolution_managed_label k)) [
        | inl managed ↦
            lookup-resolution_stamps k out.labels
            ∙ ground (
              arith,
              managed,
              ap (λ ls. lookup k ls) labelled,
              lookup-stamp_pod r desired k managed,
              submitted k from_pod managed,
              m k,
            )
        | inr other ↦
            absurd (cc (sym changed ∙ unmanaged_untouched k (old k other) (unmanaged_gone k other)))
      ]

plain_again :
    (d : Deps) (req : Request) (out : Pod)
    → is_operator d req ≡ false
    → is_operator d (record req { object = ok out }) ≡ false
unfolding is_operator
plain_again d req out h = h

-- Where the mutator patches a pod, and the patched pod resolves to what the submitted one did, the
-- validator allows the patched pod if the stamps that the request itself touched match that
-- resolution.
pub validate-mutate :
    (d : Deps) (req : Request) (r : PodRequest) (desired : Labels) (out : Pod) (w : Option String)
    → is_operator d req ≡ false
    → decode req ≡ ok r
    → namespace_managed d req.namespace ≡ ok true
    → (resolved_in d (ok true) r.pod).1 ≡ ok desired
    → (mutate d req).1 ≡ patched out w
    → (resolved_in d (ok true) out).1 ≡ ok desired
    → Matches r desired
    → is_allowed (validate d (record req { object = ok out })).1 ≡ true
unfolding mutate mutate_pod
validate-mutate d req r desired out w plain decoded managed resolved mutated again m =
    let found = IsDecoded-by req r req.object refl decoded in
    let stamping = rw (plain, decoded, mutate_pod, managed) at mutated in
    let same =
      stamped-patched d req.operation r desired (resolved_in d (ok true) r.pod) out w resolved
        stamping in
    let labelled =
      ap (λ p. p.labels) same ∙ labels-with_wait d req.operation (stamp_pod r desired) in
    (validate_iff d (record req { object = ok out }) (next r desired out) desired
        (plain_again d req out plain) (found.again_lem out) (rw managed again)).1
      (next-Matches r desired out found.stamps_lem found.old_lem labelled m)
