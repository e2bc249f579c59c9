-- ===== src/Resolver/Soundness.antt =====
-- A stamp is a grant: resolver.go stamps only vnets that the pod's namespace may join.
use mathlib.Core.Path.{subst}
use kube_vnet.Prelude.{
  some-inj, String, ◌≡◌, refl, sym, ap, ◌∙◌, inl, inr, Bool, true, false, some, List, [], ◌∷◌, ◌++◌,
  arith, ◌==◌, beq→eq, string_eq, is_nil, All, first?, last?, lookup, Bool-cases, Option-cases,
}
use kube_vnet.Effects.{ok}
use kube_vnet.Effects.Eff.{lift, Ensures, >>=-Ensures, pure-Ensures, if-Ensures}
use kube_vnet.Objects.{Labels, Pod}
use kube_vnet.Cluster.{Cluster}
use kube_vnet.Keys.{VnetKey, stamped_vnet_key}
use kube_vnet.Direction.{Direction}
use kube_vnet.Permits.{permits}
use kube_vnet.Resolution.{
  ResolutionRule, ResolutionScope, cluster_baseline, namespace_baseline, ResolutionLayer,
  ResolutionResult, resolve, by_tier,
}
use kube_vnet.Resolution.Groups.{of_vnet}
use kube_vnet.Resolution.Effective.{deciding, names, pins, emitted_by, effective-eq-deciding}
use kube_vnet.Prelude.Sorting.{sort, All-sort}
use kube_vnet.Resolver.{
  filter_permitted_rules, build_layers, layer_of, desired_labels, desired_of, net_stamp,
}
use kube_vnet.Resolver.Stamped.{text_of, lookup-desired_of}

module _ (c : Cluster) (ns : String) where
  -- The vnet is the stamped form of a key that the namespace is permitted.
  abbrev pub IsGranted : VnetKey → Type 0
  IsGranted v = (k : VnetKey) × (v ≡ stamped_vnet_key k) × (permits c k ns ≡ ok true)

  abbrev pub AllGranted : List ResolutionRule → Type 0
  AllGranted = All (λ r. IsGranted r.vnet)

  module _ (recorder : Bool) where
    filter_permitted_rules-AllGranted :
        (rules : List ResolutionRule)
        → Ensures AllGranted (filter_permitted_rules c recorder rules ns)
    unfolding filter_permitted_rules
    filter_permitted_rules-AllGranted [] = pure-Ensures AllGranted [] tt
    filter_permitted_rules-AllGranted (r ∷ rs) =
        let ih = filter_permitted_rules-AllGranted rs in
        >>=-Ensures (lift (permits c r.vnet ns)) _ (λ b e.
          if-Ensures b _ _
            (λ t. >>=-Ensures _ _ (λ kept k.
              pure-Ensures AllGranted _ ((r.vnet, refl, e ∙ ap (λ x. ok x) t), ih.at kept k)))
            (λ _. >>=-Ensures _ _ (λ _ _. ih)))

    abbrev pub LayersGranted : List ResolutionLayer → Type 0
    LayersGranted = All (λ l. AllGranted l.rules)

    layer-Granted :
        (scope : ResolutionScope) (rules : List ResolutionRule) (ls : List ResolutionLayer)
        → AllGranted rules
        → LayersGranted ls
        → LayersGranted (layer_of scope rules ++ ls)
    layer-Granted scope [] ls h k = k
    layer-Granted scope (r ∷ rs) ls h k = (h, k)

    last-Granted :
        (scope : ResolutionScope) (rules : List ResolutionRule)
        → AllGranted rules
        → LayersGranted (layer_of scope rules)
    last-Granted scope [] h = tt
    last-Granted scope (r ∷ rs) h = (h, tt)

-- What the elements found in a list have in common with all of them.
first?-All {ℓ κ} :
    {A : Type ℓ} (P : A → Type κ) (p : A → Bool) (xs : List A) (x : A)
    → All P xs
    → first? p xs ≡ some x
    → P x × (p x ≡ true)
first?-All P p [] x h e = absurd (cc e)
first?-All P p (y ∷ ys) x h e = elim (Bool-cases (p y)) [
  | inl t ↦
      let same = some-inj y x (rw t at e) in (subst P same h.0, subst (λ z. p z ≡ true) same t)
  | inr f ↦ first?-All P p ys x h.1 (rw f at e)
]

last?-All {ℓ κ} :
    {A : Type ℓ} (P : A → Type κ) (p : A → Bool) (xs : List A) (x : A)
    → All P xs
    → last? p xs ≡ some x
    → P x × (p x ≡ true)
last?-All P p [] x h e = absurd (cc e)
last?-All P p (y ∷ ys) x h e = elim (Option-cases (last? p ys)) [
  | inr (z, found) ↦ last?-All P p ys x h.1 (found ∙ (rw found at e))
  | inl gone ↦ elim (Bool-cases (p y)) [
    | inl t ↦
        let same = some-inj y x (rw (gone, t) at e) in
        (subst P same h.0, subst (λ z. p z ≡ true) same t)
    | inr f ↦ absurd (cc (rw (gone, f) at e))
  ]
]

module _ (c : Cluster) (recorder : Bool) (pod : Pod) where
  build_layers-Granted :
      Ensures (LayersGranted c pod.namespace recorder) (build_layers c recorder pod)
  unfolding build_layers
  build_layers-Granted =
      let kept_ok = filter_permitted_rules-AllGranted c pod.namespace recorder in
      let P = LayersGranted c pod.namespace recorder in
      >>=-Ensures _ _ (λ cr _. >>=-Ensures _ _ (λ ck e1. >>=-Ensures _ _ (λ nr _.
        >>=-Ensures _ _ (λ nk e2. >>=-Ensures _ _ (λ br _. >>=-Ensures _ _ (λ lr _.
          >>=-Ensures _ _ (λ pk e3. pure-Ensures P _ (
            layer-Granted _ _ recorder cluster_baseline ck _ ((kept_ok cr).at ck e1) (
              layer-Granted _ _ recorder namespace_baseline nk _ ((kept_ok nr).at nk e2) (
                last-Granted _ _ recorder ResolutionScope.pod pk
                  ((kept_ok (br ++ lr)).at pk e3)))))))))))

module _ (c : Cluster) (recorder : Bool) (ns : String) (v : VnetKey) where
  IsGranted-of_vnet :
      (rules : List ResolutionRule)
      → AllGranted c ns rules
      → is_nil (of_vnet v rules) ≡ false
      → IsGranted c ns v
  IsGranted-of_vnet [] h e = absurd (cc e)
  IsGranted-of_vnet (r ∷ rs) h e = elim (Bool-cases (r.vnet == v)) [
    | inl t ↦ subst (IsGranted c ns) (beq→eq r.vnet v t) h.0
    | inr f ↦ IsGranted-of_vnet rs h.1 (rw f at e)
  ]

  pinned_named : (l : ResolutionLayer) → pins v l ≡ true → is_nil (of_vnet v l.rules) ≡ false
  pinned_named l h = ground arith

  named : (l : ResolutionLayer) → names v l ≡ true → is_nil (of_vnet v l.rules) ≡ false
  named l h = ground arith

  deciding-Granted :
      (ls : List ResolutionLayer) (l : ResolutionLayer)
      → LayersGranted c ns recorder ls
      → deciding v ls ≡ some l
      → IsGranted c ns v
  deciding-Granted ls l h e = elim (Option-cases (first? (pins v) ls)) [
    | inr (m, pinning) ↦
        let (g, p) = first?-All (λ l. AllGranted c ns l.rules) (pins v) ls m h pinning in
        IsGranted-of_vnet m.rules g (pinned_named m p)
    | inl none_pins ↦
        let last_names = rw (none_pins, deciding) at e in
        let (g, p) = last?-All (λ l. AllGranted c ns l.rules) (names v) ls l h last_names in
        IsGranted-of_vnet l.rules g (named l p)
  ]

  effective-Granted :
      (layers : List ResolutionLayer) (d : Direction)
      → LayersGranted c ns recorder layers
      → lookup v (resolve layers).effective ≡ some d
      → IsGranted c ns v
  effective-Granted layers d h e =
      let ls = sort by_tier layers in
      let sorted = All-sort by_tier (λ l. AllGranted c ns l.rules) layers h in
      elim (Option-cases (deciding v ls)) [
        | inr (l, e') ↦ deciding-Granted ls l sorted e'
        | inl e' ↦ absurd (cc (sym (effective-eq-deciding v layers) ∙ e, ap (emitted_by v) e'))
      ]

  stamped-Granted :
      (pod : Pod) (layers : List ResolutionLayer) (t : String)
      → LayersGranted c ns recorder layers
      → lookup (net_stamp v) (desired_of pod (resolve layers)) ≡ some t
      → IsGranted c ns v
  stamped-Granted pod layers t h e = elim (Option-cases (lookup v (resolve layers).effective)) [
    | inr (d, e') ↦ effective-Granted layers d h e'
    | inl e' ↦ absurd (cc (sym (lookup-desired_of v pod (resolve layers)) ∙ e, ap text_of e'))
  ]

desired_labels-Ensures :
    (c : Cluster) (recorder : Bool) (pod : Pod) (v : VnetKey) (t : String)
    → Ensures
        (λ (desired, res). lookup (net_stamp v) desired ≡ some t → IsGranted c pod.namespace v)
        (desired_labels c recorder pod)
unfolding desired_labels
desired_labels-Ensures c recorder pod v t = >>=-Ensures _ _ (λ layers e.
    pure-Ensures
      (λ (desired, res). lookup (net_stamp v) desired ≡ some t → IsGranted c pod.namespace v) _
      (stamped-Granted c recorder pod.namespace v pod layers t
        ((build_layers-Granted c recorder pod).at layers e)))

-- Every vnet that `DesiredLabels` stamps on a pod is the stamped form of a key that `Permits`
-- grants to the pod's namespace.
pub desired_labels-Granted :
    (c : Cluster) (recorder : Bool) (pod : Pod) (desired : Labels) (res : ResolutionResult)
    (v : VnetKey) (t : String)
    → (desired_labels c recorder pod).1 ≡ ok (desired, res)
    → lookup (net_stamp v) desired ≡ some t
    → IsGranted c pod.namespace v
desired_labels-Granted c recorder pod desired res v t h e =
    (desired_labels-Ensures c recorder pod v t).at (desired, res) h e
