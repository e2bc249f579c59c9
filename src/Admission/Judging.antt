-- ===== src/Admission/Judging.antt =====
-- Which requests the validator allows (validator.go).
use kube_vnet.Prelude.{
  String, ◌≡◌, refl, sym, ap, ◌∙◌, ◌↔◌, inl, inr, Bool, true, false, not, ◌&&◌, Option, none, some,
  List, [], ◌∷◌, arith, ◌==◌, string_eq, beq→eq, beq_refl, is_nil, any, all, any-append, lookup,
  is_some, Bool-cases,
}
use kube_vnet.Effects.{ok, err}
use kube_vnet.Effects.Eff.{Eff}
use kube_vnet.Objects.{Labels}
use kube_vnet.Admission.{
  Deps, Request, PodRequest, BadStamp, Response, allowed, is_operator, decode, same_value,
  untouched, namespace_managed, touched_new, touched_old, touched, judge_stamp, cons_some,
  bad_stamps, judge, judged, resolved_in, validate_pod, validate,
}

same_value_iff : (a b : Option String) → (same_value a b ≡ true) ↔ (a ≡ b)
same_value_iff none none = ground arith
same_value_iff none (some b) = ground arith
same_value_iff (some a) none = ground arith
same_value_iff (some a) (some b) = ground (arith, string_eq.beq_iff a b)

-- A test holds of all elements exactly when it holds of each text that stands among them.
all_iff :
    (f : String → Bool) (xs : List String)
    → (all f xs ≡ true) ↔ ((k : String) → any (λ j. j == k) xs ≡ true → f k ≡ true)
all_iff f [] = (λ h k e. absurd (cc e), λ h. refl)
all_iff f (x ∷ xs) =
    let ih = all_iff f xs in
    (
      λ h k e. elim (Bool-cases (x == k)) [
        | inl same ↦ ap f (sym (beq→eq x k same)) ∙ ground arith
        | inr other ↦ ih.0 (ground arith) k (ground arith)
      ],
      λ h. ground (arith, h x, beq_refl x, ih.1 (λ k e. h k (ground arith))),
    )

module _ (r : PodRequest) where
  touched_new-touched :
      (k : String) (m : Labels)
      → any (λ j. j == k) (touched_new r m) ≡ (is_some (lookup k m) && not (untouched r k))
  unfolding touched_new lookup
  touched_new-touched k [] = refl
  touched_new-touched k ((j, v) ∷ m) =
      ground
        (arith, touched_new-touched k m, string_eq.beq_iff j k, λ (e : j ≡ k). ap (untouched r) e)

  touched_old-touched :
      (k : String) (m : Labels)
      → any (λ j. j == k) (touched_old r m)
        ≡ (is_some (lookup k m) && not (is_some (lookup k r.stamps)))
  unfolding touched_old lookup
  touched_old-touched k [] = refl
  touched_old-touched k ((j, v) ∷ m) = ground (
    arith,
    touched_old-touched k m,
    string_eq.beq_iff j k,
    λ (e : j ≡ k). ap (λ i. lookup i r.stamps) e,
  )

  -- The validator polices exactly the stamps that the request did not leave as they were.
  touched_lem : (k : String) → any (λ j. j == k) (touched r) ≡ not (untouched r k)
  unfolding touched untouched
  touched_lem k =
      any-append (λ j. j == k) (touched_new r r.stamps) (touched_old r r.old_stamps)
      ∙ ground (arith, touched_new-touched k r.stamps, touched_old-touched k r.old_stamps)

  judge_stamp_lem :
      (k : String) (a b : Option String) → is_some (judge_stamp k a b) ≡ not (same_value a b)
  unfolding judge_stamp
  judge_stamp_lem k none none = refl
  judge_stamp_lem k none (some b) = refl
  judge_stamp_lem k (some a) none = refl
  judge_stamp_lem k (some a) (some b) = ground (arith, string_eq.beq_iff a b, string_eq.beq_iff b a)

  is_nil-cons_some :
      (o : Option BadStamp) (bs : List BadStamp)
      → is_nil (cons_some o bs) ≡ (not (is_some o) && is_nil bs)
  is_nil-cons_some none bs = refl
  is_nil-cons_some (some b) bs = refl

  is_nil-bad_stamps :
      (desired : Labels) (ks : List String)
      → is_nil (bad_stamps r desired ks)
        ≡ all (λ k. same_value (lookup k r.stamps) (lookup k desired)) ks
  unfolding bad_stamps
  is_nil-bad_stamps desired [] = refl
  is_nil-bad_stamps desired (k ∷ ks) =
      is_nil-cons_some (judge_stamp k (lookup k r.stamps) (lookup k desired))
        (bad_stamps r desired ks)
      ∙ rw (judge_stamp_lem k (lookup k r.stamps) (lookup k desired), is_nil-bad_stamps desired ks)
          (ground arith)

  -- Every stamp that the request touched is the one that the pod resolves to.
  abbrev pub Matches : Labels → Type 0
  Matches desired = (k : String) → untouched r k ≡ false → lookup k r.stamps ≡ lookup k desired

  all_settled_iff :
      (desired : Labels)
      → (all (λ k. same_value (lookup k r.stamps) (lookup k desired)) (touched r) ≡ true)
        ↔ Matches desired
  all_settled_iff desired =
      let (to, from) =
        all_iff (λ k. same_value (lookup k r.stamps) (lookup k desired)) (touched r) in
      (
        λ h k e.
            (same_value_iff (lookup k r.stamps) (lookup k desired)).0
              (to h k (touched_lem k ∙ ground (arith, e))),
        λ h. from (λ k e.
            (same_value_iff (lookup k r.stamps) (lookup k desired)).1
              (h k (ground (arith, touched_lem k, e)))),
      )

abbrev pub is_allowed : Response → Bool
is_allowed (allowed _ _) = true
is_allowed _ = false

is_allowed-judge :
    (r : PodRequest) (desired : Labels)
    → is_allowed (judge r (touched r) desired)
      ≡ all (λ k. same_value (lookup k r.stamps) (lookup k desired)) (touched r)
unfolding judge
is_allowed-judge r desired = ground (arith, is_nil-bad_stamps r desired (touched r))

judged_lem :
    (r : PodRequest) (desired : Labels) (e : Eff Labels)
    → e.1 ≡ ok desired
    → (judged r e).1 ≡ judge r (touched r) desired
judged_lem r desired (es, ok x) h = ground arith
judged_lem r desired (es, err x) h = absurd (cc h)

is_allowed-validate :
    (d : Deps) (req : Request) (r : PodRequest) (desired : Labels)
    → is_operator d req ≡ false
    → decode req ≡ ok r
    → (resolved_in d (namespace_managed d req.namespace) r.pod).1 ≡ ok desired
    → is_allowed (validate d req).1
      ≡ all (λ k. same_value (lookup k r.stamps) (lookup k desired)) (touched r)
unfolding validate validate_pod
is_allowed-validate d req r desired plain decoded resolved =
    let e = resolved_in d (namespace_managed d req.namespace) r.pod in
    rw (plain, decoded)
      (ground (arith, judged_lem r desired e resolved, is_allowed-judge r desired))

-- The validator allows a request, not the operator's own, exactly when every stamp that it touched
-- is the one that the pod resolves to (none in a namespace that is not managed), given that the pod
-- decodes and resolves.
pub validate_iff :
    (d : Deps) (req : Request) (r : PodRequest) (desired : Labels)
    → is_operator d req ≡ false
    → decode req ≡ ok r
    → (resolved_in d (namespace_managed d req.namespace) r.pod).1 ≡ ok desired
    → (is_allowed (validate d req).1 ≡ true) ↔ Matches r desired
validate_iff d req r desired plain decoded resolved =
    rw (is_allowed-validate d req r desired plain decoded resolved) (all_settled_iff r desired)
