-- ===== src/Resolution/Cascade.antt =====
-- The cascade of one vnet through the layers (resolution.go, `Resolve`), and what decides it.
use kube_vnet.Prelude.{
  ◌≡◌, refl, ap, ◌∙◌, Bool, Option, none, some, List, [], ◌∷◌, ◌++◌, arith, if◌then◌else◌, ◌==◌,
  beq→eq, string_eq, any, is_nil, Map, lookup, or_else, lookup-insert, is_some, Bool-cases, inl,
  inr,
}
use kube_vnet.Prelude.Sorting.{sort, any-sort, is_nil-sort}
use kube_vnet.Direction.{Direction, direction_eq, is_default}
use kube_vnet.Resolution.{
  VnetKey, ResolutionRule, ResolutionScope, ResolutionLayer, Running, State, group_rules,
  merge_first, merge_rules, merged_direction, apply_value, resolve_group, resolve_vnets,
  resolve_layer, resolve_layers, keys, by_text, report_conflict,
}
use kube_vnet.Resolution.Groups.{
  of_vnet, lookup-group_rules_nil, group_direction, merged-eq-group_direction, group_direction-sort,
}

-- What a layer's value does to the running value of its vnet.
unfoldable pub advance : ResolutionScope → Direction → Option Running → Option Running
advance scope d none = some (record { direction = d; from_scope = scope })
advance scope d (some r) =
    if is_default r.direction then some (record { direction = d; from_scope = scope }) else some r

unfoldable pub advance_group :
    ResolutionScope → List ResolutionRule → Option Running → Option Running
unfolding advance
advance_group scope rules c = if is_nil rules then c else advance scope (group_direction rules) c

advance_group_idem :
    (scope : ResolutionScope) (rules : List ResolutionRule) (c : Option Running)
    → advance_group scope rules (advance_group scope rules c) ≡ advance_group scope rules c
unfolding advance_group
advance_group_idem scope rules c = ground arith

lookup-apply_value :
    (scope : ResolutionScope) (w : VnetKey) (d : Direction) (s : State) (v : VnetKey)
    → lookup v (apply_value scope w d s).current
      ≡ (if w == v then advance scope d (lookup v s.current) else lookup v s.current)
unfolding apply_value advance
lookup-apply_value scope w d s v =
    let set = λ (r : Running). lookup-insert w v r s.current in
    ground (arith, set (record { direction = d; from_scope = scope }), beq→eq w v)

lookup-resolve_group :
    (scope : ResolutionScope) (w : VnetKey) (rules : List ResolutionRule) (s : State) (v : VnetKey)
    → lookup v (resolve_group scope w rules s).current
      ≡ (if w == v then advance_group scope rules (lookup v s.current) else lookup v s.current)
unfolding resolve_group advance_group
lookup-resolve_group scope w [] s v = ground arith
lookup-resolve_group scope w (r ∷ rs) s v =
    let m = merge_rules (merge_first r) rs in
    let reported = report_conflict scope w (r ∷ rs) m.disagree (merged_direction m) in
    rw (← merged-eq-group_direction r rs) (
      lookup-apply_value scope w (merged_direction m)
        (record s { conflicts = s.conflicts ++ reported }) v)

advance_group-sort :
    (le : ResolutionRule → ResolutionRule → Bool) (scope : ResolutionScope)
    (rules : List ResolutionRule) (c : Option Running)
    → advance_group scope (sort le rules) c ≡ advance_group scope rules c
unfolding advance_group
advance_group-sort le scope rules c = simp (is_nil-sort, group_direction-sort)

-- A turn of the loop over a layer's vnets, seen from one vnet.
after_group :
    (le : ResolutionRule → ResolutionRule → Bool) (scope : ResolutionScope)
    (groups : Map VnetKey (List ResolutionRule)) (w : VnetKey) (s : State) (v : VnetKey)
    → lookup v (resolve_group scope w (sort le (or_else (lookup w groups) [])) s).current ≡ (
        if w == v
        then advance_group scope (or_else (lookup v groups) []) (lookup v s.current)
        else lookup v s.current)
after_group le scope groups w s v =
    lookup-resolve_group scope w (sort le (or_else (lookup w groups) [])) s v
    ∙ elim (Bool-cases (w == v)) [
      | inl e ↦ rw e (
          advance_group-sort le scope (or_else (lookup w groups) []) (lookup v s.current)
          ∙ ap (λ u. advance_group scope (or_else (lookup u groups) []) (lookup v s.current))
              (beq→eq w v e))
      | inr e ↦ rw e
    ]

lookup-resolve_vnets :
    (scope : ResolutionScope) (groups : Map VnetKey (List ResolutionRule)) (vs : List VnetKey)
    (s : State) (v : VnetKey)
    → lookup v (resolve_vnets scope groups vs s).current ≡ (
        if any (λ w. w == v) vs
        then advance_group scope (or_else (lookup v groups) []) (lookup v s.current)
        else lookup v s.current)
unfolding resolve_vnets
lookup-resolve_vnets scope groups [] s v = refl
lookup-resolve_vnets scope groups (w ∷ vs) s v =
    let le = λ (a b : ResolutionRule). by_text a.source b.source in
    let s' = resolve_group scope w (sort le (or_else (lookup w groups) [])) s in
    let group = or_else (lookup v groups) [] in
    ground (
      arith,
      lookup-resolve_vnets scope groups vs s' v,
      after_group le scope groups w s v,
      advance_group_idem scope group (lookup v s.current),
    )

pub any-keys :
    {V : Type 0} (v : VnetKey) (m : Map VnetKey V)
    → any (λ w. w == v) (keys m) ≡ is_some (lookup v m)
unfolding lookup
any-keys v [] = refl
any-keys v ((j, x) ∷ m) = ground (arith, any-keys v m)

pick_group :
    (scope : ResolutionScope) (o : Option (List ResolutionRule)) (g : List ResolutionRule)
    (c : Option Running)
    → or_else o [] ≡ g
    → (if is_some o then advance_group scope (or_else o []) c else c) ≡ advance_group scope g c
unfolding advance_group
pick_group scope none g c h = rw (← h)
pick_group scope (some rules) g c h = rw h

lookup-resolve_layer :
    (l : ResolutionLayer) (s : State) (v : VnetKey)
    → lookup v (resolve_layer l s).current
      ≡ advance_group l.scope (of_vnet v l.rules) (lookup v s.current)
unfolding resolve_layer
lookup-resolve_layer l s v =
    let groups = group_rules [] l.rules in
    lookup-resolve_vnets l.scope groups (sort by_text (keys groups)) s v
    ∙ rw (any-sort, any-keys v groups)
        (pick_group l.scope (lookup v groups) (of_vnet v l.rules) (lookup v s.current)
          (lookup-group_rules_nil v l.rules))

-- The running value of one vnet after the layers, from its own rules only.
unfoldable pub cascade : VnetKey → List ResolutionLayer → Option Running → Option Running
unfolding advance_group
cascade v [] c = c
cascade v (l ∷ ls) c = cascade v ls (advance_group l.scope (of_vnet v l.rules) c)

pub lookup-resolve_layers :
    (ls : List ResolutionLayer) (s : State) (v : VnetKey)
    → lookup v (resolve_layers ls s).current ≡ cascade v ls (lookup v s.current)
unfolding resolve_layers cascade
lookup-resolve_layers [] s v = refl
lookup-resolve_layers (l ∷ ls) s v =
    rw (lookup-resolve_layers ls (resolve_layer l s) v, lookup-resolve_layer l s v)
