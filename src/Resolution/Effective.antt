-- ===== src/Resolution/Effective.antt =====
-- What decides a vnet's effective direction (resolution.go, `Resolve`).
use kube_vnet.Prelude.{
  ◌≡◌, refl, sym, ap, ◌∙◌, Bool, true, false, not, Option, none, some, List, [], ◌∷◌, arith,
  if◌then◌else◌, ◌==◌, beq→eq, string_eq, all, is_nil, first?, last?, Map, lookup, lookup-insert,
  Bool-cases, inl, inr, HasUniqueKeys, insert-HasUniqueKeys,
}
use kube_vnet.Prelude.Sorting.{sort}
use kube_vnet.Direction.{Direction, direction_eq, is_default, bare}
use kube_vnet.Direction.Algebra.{accepts, initiates, is_default-of_permissions}
use kube_vnet.Resolution.{
  VnetKey, ResolutionRule, ResolutionScope, ResolutionLayer, Running, State, apply_value,
  resolve_group, resolve_vnets, resolve_layer, resolve_layers, strip, resolve, by_tier, start,
}
use kube_vnet.Resolution.Groups.{of_vnet, group_direction}
use kube_vnet.Resolution.Cascade.{cascade, advance_group, advance, lookup-resolve_layers}

abbrev HasUnique : State → Type 0
HasUnique s = HasUniqueKeys s.current

apply_value-HasUnique :
    (scope : ResolutionScope) (w : VnetKey) (d : Direction) (s : State)
    → HasUnique s
    → HasUnique (apply_value scope w d s)
unfolding apply_value
apply_value-HasUnique scope w d s h =
    ground
      (arith, insert-HasUniqueKeys w (record { direction = d; from_scope = scope }) s.current h)

resolve_group-HasUnique :
    (scope : ResolutionScope) (w : VnetKey) (rules : List ResolutionRule) (s : State)
    → HasUnique s
    → HasUnique (resolve_group scope w rules s)
unfolding resolve_group
resolve_group-HasUnique scope w [] s h = h
resolve_group-HasUnique scope w (r ∷ rs) s h = apply_value-HasUnique scope w _ _ h

resolve_vnets-HasUnique :
    (scope : ResolutionScope) (groups : Map VnetKey (List ResolutionRule)) (vs : List VnetKey)
    (s : State)
    → HasUnique s
    → HasUnique (resolve_vnets scope groups vs s)
unfolding resolve_vnets
resolve_vnets-HasUnique scope groups [] s h = h
resolve_vnets-HasUnique scope groups (v ∷ vs) s h =
    resolve_vnets-HasUnique scope groups vs _ (resolve_group-HasUnique scope v _ s h)

resolve_layers-HasUnique :
    (ls : List ResolutionLayer) (s : State) → HasUnique s → HasUnique (resolve_layers ls s)
unfolding resolve_layers resolve_layer
resolve_layers-HasUnique [] s h = h
resolve_layers-HasUnique (l ∷ ls) s h =
    resolve_layers-HasUnique ls _ (resolve_vnets-HasUnique l.scope _ _ s h)

-- The direction that is emitted: bare, and none is left out.
abbrev pub emit : Direction → Option Direction
emit d = if bare d == Direction.none then none else some (bare d)

abbrev emit_running : Option Running → Option Direction
emit_running none = none
emit_running (some r) = emit r.direction

lookup-strip :
    (v : VnetKey) (m : Map VnetKey Running)
    → HasUniqueKeys m
    → lookup v (strip m) ≡ emit_running (lookup v m)
unfolding strip lookup
lookup-strip v [] h = refl
lookup-strip v ((j, r) ∷ m) h = elim (Bool-cases (j == v)) [
  | inl e ↦
      let ih = lookup-strip v m h.1 in
      let gone = ap (λ k. lookup k m) (sym (beq→eq j v e)) ∙ h.0 in
      ground (arith, ih, gone, e, lookup-insert j v (bare r.direction) (strip m))
  | inr e ↦ ground (arith, lookup-strip v m h.1, e, lookup-insert j v (bare r.direction) (strip m))
]

-- A layer that says something of the vnet, and one that pins it: some rule there is bare.
abbrev pub names : VnetKey → ResolutionLayer → Bool
names v l = not (is_nil (of_vnet v l.rules))

abbrev pub pins : VnetKey → ResolutionLayer → Bool
pins v l = not (all (λ r. is_default r.direction) (of_vnet v l.rules))

-- The layer that decides a vnet: the first that pins it, and else the last that names it.
abbrev pub deciding : VnetKey → List ResolutionLayer → Option ResolutionLayer
deciding v ls = elim (first? (pins v) ls) [ some l ↦ some l | none ↦ last? (names v) ls ]

abbrev decided : VnetKey → ResolutionLayer → Running
decided v l = record { direction = group_direction (of_vnet v l.rules); from_scope = l.scope }

cascade_pinned :
    (v : VnetKey) (ls : List ResolutionLayer) (r : Running)
    → is_default r.direction ≡ false
    → cascade v ls (some r) ≡ some r
unfolding cascade advance_group advance
cascade_pinned v [] r h = refl
cascade_pinned v (l ∷ ls) r h = ground (arith, cascade_pinned v ls r h)

abbrev overridable : Option Running → Bool
overridable none = true
overridable (some r) = is_default r.direction

-- An overridable running value gives way to the deciding layer.
cascade-deciding :
    (v : VnetKey) (ls : List ResolutionLayer) (c : Option Running)
    → overridable c ≡ true
    → cascade v ls c ≡ elim (deciding v ls) [ some l ↦ some (decided v l) | none ↦ c ]
unfolding cascade advance_group advance
cascade-deciding v [] c h = refl
cascade-deciding v (l ∷ ls) c h =
    let g = of_vnet v l.rules in
    let open_to =
      is_default-of_permissions (all (λ r. accepts r.direction) g)
        (all (λ r. initiates r.direction) g) (all (λ r. is_default r.direction) g) in
    ground (
      arith,
      cascade-deciding v ls c h,
      cascade-deciding v ls (some (decided v l)),
      cascade_pinned v ls (decided v l),
      open_to,
    )

abbrev pub emitted_by : VnetKey → Option ResolutionLayer → Option Direction
emitted_by v none = none
emitted_by v (some l) = emit (group_direction (of_vnet v l.rules))

emit_decided :
    (v : VnetKey) (o : Option ResolutionLayer)
    → emit_running (elim o [ some l ↦ some (decided v l) | none ↦ none ]) ≡ emitted_by v o
emit_decided v none = refl
emit_decided v (some l) = refl

running-eq-deciding :
    (v : VnetKey) (ls : List ResolutionLayer)
    → lookup v (resolve_layers ls start).current
      ≡ elim (deciding v ls) [ some l ↦ some (decided v l) | none ↦ none ]
unfolding lookup
running-eq-deciding v ls = lookup-resolve_layers ls start v ∙ cascade-deciding v ls none refl

-- The effective direction of a vnet is the bare intersection of its rules in the deciding layer,
-- and absent where no layer names the vnet or the intersection is none.
pub effective-eq-deciding :
    (v : VnetKey) (layers : List ResolutionLayer)
    → lookup v (resolve layers).effective ≡ emitted_by v (deciding v (sort by_tier layers))
unfolding resolve
effective-eq-deciding v layers =
    let ls = sort by_tier layers in
    lookup-strip v (resolve_layers ls start).current (resolve_layers-HasUnique ls start tt)
    ∙ ap emit_running (running-eq-deciding v ls)
    ∙ emit_decided v (deciding v ls)
