-- ===== src/Admission/Failing.antt =====
-- What the webhooks answer where the cluster cannot be read (validator.go and mutator.go).
use kube_vnet.Prelude.{
  String, ◌≡◌, ◌⊎◌, refl, inl, inr, Bool, true, false, not, none, some, [], if◌then◌else◌, ◌==◌,
  string_eq, is_nil,
}
use kube_vnet.Effects.{Error, Result, ok, err, found, failed}
use kube_vnet.Effects.Eff.{Eff}
use kube_vnet.Objects.{Labels, Namespace, Pod}
use kube_vnet.Namespaces.{is_managed, managed_fetch, manages}
use kube_vnet.Resolution.{ResolutionResult}
use kube_vnet.Resolver.{desired_labels}
use kube_vnet.Admission.{
  Deps, Request, PodRequest, Response, allowed, server_error, is_operator, decode,
  namespace_managed, touched, judged, resolved_in, validate_pod, validate, stamped, mutate_pod,
  mutate,
}

abbrev pub is_server_error : Response → Bool
is_server_error (server_error _) = true
is_server_error _ = false

-- The namespace cannot be read, or it is there and managed and the pod cannot be resolved.
abbrev pub IsUnreadable : Deps → (namespace : String) → Pod → Type 0
IsUnreadable d namespace pod =
    ((e : Error) × (d.cluster.get_namespace namespace ≡ failed e))
    ⊎ ((ns : Namespace) × (e : Error) × (d.cluster.get_namespace namespace ≡ found ns)
        × (is_managed d.filter (some ns) ≡ true)
        × ((desired_labels d.cluster d.recorder pod).1 ≡ err e))

-- What is read of it first.
abbrev ReadFails : Deps → Pod → Result Bool → Type 0
ReadFails d pod m =
    ((e : Error) × (m ≡ err e))
    ⊎ ((e : Error) × (m ≡ ok true) × ((desired_labels d.cluster d.recorder pod).1 ≡ err e))

read_fails :
    (d : Deps) (namespace : String) (pod : Pod)
    → (namespace == "") ≡ false
    → IsUnreadable d namespace pod
    → ReadFails d pod (namespace_managed d namespace)
unfolding namespace_managed manages managed_fetch
read_fails d namespace pod some_name (inl (e, h)) = rw some_name (rw h (inl (_, refl)))
read_fails d namespace pod some_name (inr (ns, e, there, managed, unresolved)) =
    rw some_name (rw there (rw managed (inr (e, refl, unresolved))))

labels_err :
    (x : Eff (Labels × ResolutionResult)) (e : Error)
    → x.1 ≡ err e
    → (elim x.1 as (λ _. Eff Labels) [
      | err f ↦ (x.0, err f)
      | ok (desired, res) ↦ (x.0, ok desired)
    ]).1
      ≡ err e
labels_err (es, ok y) e h = absurd (cc h)
labels_err (es, err f) e h = cc h

resolved_in_err :
    (d : Deps) (pod : Pod) (m : Result Bool)
    → ReadFails d pod m
    → (e : Error) × ((resolved_in d m pod).1 ≡ err e)
unfolding resolved_in
resolved_in_err d pod (err x) fails = (x, refl)
resolved_in_err d pod (ok false) (inl (e, h)) = absurd (cc h)
resolved_in_err d pod (ok false) (inr (e, h, unresolved)) = absurd (cc h)
resolved_in_err d pod (ok true) (inl (e, h)) = absurd (cc h)
resolved_in_err d pod (ok true) (inr (e, h, unresolved)) =
    (e, labels_err (desired_labels d.cluster d.recorder pod) e unresolved)

judged_err :
    (r : PodRequest) (x : Eff Labels) (e : Error)
    → x.1 ≡ err e
    → is_server_error (judged r x).1 ≡ true
judged_err r (es, ok x) e h = absurd (cc h)
judged_err r (es, err x) e h = refl

stamped_err :
    (d : Deps) (req : Request) (r : PodRequest) (x : Eff Labels) (e : Error)
    → x.1 ≡ err e
    → is_server_error (stamped d req.operation r x).1 ≡ true
stamped_err d req r (es, ok x) e h = absurd (cc h)
stamped_err d req r (es, err x) e h = refl

mutate_pod_err :
    (d : Deps) (req : Request) (r : PodRequest) (m : Result Bool)
    → namespace_managed d req.namespace ≡ m
    → ReadFails d r.pod m
    → is_server_error (mutate_pod d req r).1 ≡ true
unfolding mutate_pod
mutate_pod_err d req r (err x) h fails = rw (is_server_error, mutate_pod, h) refl
mutate_pod_err d req r (ok false) h (inl (e, h2)) = absurd (cc h2)
mutate_pod_err d req r (ok false) h (inr (e, h2, unresolved)) = absurd (cc h2)
mutate_pod_err d req r (ok true) h fails =
    let (e, failing) = resolved_in_err d r.pod (ok true) fails in
    rw (is_server_error, mutate_pod, h)
      (stamped_err d req r (resolved_in d (ok true) r.pod) e failing)

validated_err :
    (r : PodRequest) (b : Bool) (x : Eff Labels) (e : Error)
    → x.1 ≡ err e
    → is_server_error
        (if b then ([], allowed "no change to kube-vnet.system labels" none) else judged r x).1
      ≡ not b
validated_err r true x e h = refl
validated_err r false x e h = judged_err r x e h

-- A request of a namespace, not the operator's own, that decodes is answered with an error where the
-- namespace cannot be read, or where it is there and managed and its pod cannot be resolved: by the
-- mutator always, and by the validator exactly where the request touches stamps.
pub validate_fails_closed :
    (d : Deps) (req : Request) (r : PodRequest)
    → is_operator d req ≡ false
    → decode req ≡ ok r
    → (req.namespace == "") ≡ false
    → IsUnreadable d req.namespace r.pod
    → (is_server_error (mutate d req).1 ≡ true)
      × (is_server_error (validate d req).1 ≡ not (is_nil (touched r)))
unfolding validate validate_pod mutate
validate_fails_closed d req r plain decoded some_name unreadable =
    let m = namespace_managed d req.namespace in
    let fails = read_fails d req.namespace r.pod some_name unreadable in
    let (e, failing) = resolved_in_err d r.pod m fails in
    (
      rw (plain, decoded) (mutate_pod_err d req r m refl fails),
      rw (plain, decoded) (validated_err r (is_nil (touched r)) (resolved_in d m r.pod) e failing),
    )
