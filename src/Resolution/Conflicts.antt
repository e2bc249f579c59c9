-- ===== src/Resolution/Conflicts.antt =====
-- When `Resolve` reports a conflict (resolution.go).
use kube_vnet.Prelude.{
  ◌≡◌, refl, ap, ◌∙◌, Bool, true, false, not, ◌&&◌, ◌||◌, Option, none, some, List, [], ◌∷◌, ◌++◌,
  arith, ◌==◌, beq→eq, string_eq, any, All, Map, lookup, or_else, eq_of_false_iff, nat_beq,
  any-append, is_some,
}
use kube_vnet.Prelude.Sorting.{sort, any-sort}
use kube_vnet.Direction.{Direction, direction_eq, bare}
use kube_vnet.Resolution.{
  VnetKey, ResolutionRule, ResolutionScope, ResolutionLayer, ResolutionConflict, State, tier,
  merge_first, merge_rules, merged_direction, report_conflict, apply_value, resolve_group,
  resolve_vnets, resolve_layer, resolve_layers, resolve, by_tier, by_text, start, group_rules, keys,
}
use kube_vnet.Resolution.Cascade.{any-keys}
use kube_vnet.Resolution.Groups.{of_vnet, lookup-group_rules_nil, disagree_iff}

-- Two rules of the group give different bare directions.
abbrev pub disagrees : List ResolutionRule → Bool
disagrees rules = any (λ x. any (λ y. not (bare x.direction == bare y.direction)) rules) rules

All-same :
    (d : Direction) (rs : List ResolutionRule)
    → any (λ y. not (d == bare y.direction)) rs ≡ false
    → All (λ y. bare y.direction ≡ d) rs
All-same d [] h = tt
All-same d (r ∷ rs) h = ground (arith, direction_eq.beq_iff d (bare r.direction), All-same d rs)

none_differs :
    (d x : Direction) (rs : List ResolutionRule)
    → x ≡ d
    → All (λ y. bare y.direction ≡ d) rs
    → any (λ y. not (x == bare y.direction)) rs ≡ false
none_differs d x [] e h = refl
none_differs d x (r ∷ rs) e h =
    ground (arith, direction_eq.beq_iff x (bare r.direction), none_differs d x rs e h.1)

no_pair_differs :
    (d : Direction) (xs rs : List ResolutionRule)
    → All (λ y. bare y.direction ≡ d) xs
    → All (λ y. bare y.direction ≡ d) rs
    → any (λ x. any (λ y. not (bare x.direction == bare y.direction)) rs) xs ≡ false
no_pair_differs d [] rs hx h = refl
no_pair_differs d (x ∷ xs) rs hx h =
    ground (arith, none_differs d (bare x.direction) rs hx.0 h, no_pair_differs d xs rs hx.1 h)

disagree-merge :
    (r : ResolutionRule) (rs : List ResolutionRule)
    → (merge_rules (merge_first r) rs).disagree ≡ disagrees (r ∷ rs)
disagree-merge r rs =
    eq_of_false_iff (merge_rules (merge_first r) rs).disagree (disagrees (r ∷ rs))
      (λ e. let (d, h) = (disagree_iff r rs).0 e in no_pair_differs d (r ∷ rs) (r ∷ rs) h h)
      (λ e.
        (disagree_iff r rs).1
          (bare r.direction, All-same (bare r.direction) (r ∷ rs) (ground arith)))

disagrees-sort :
    (le : ResolutionRule → ResolutionRule → Bool) (rules : List ResolutionRule)
    → disagrees (sort le rules) ≡ disagrees rules
disagrees-sort le rules = simp any-sort

conflicts-apply_value :
    (scope : ResolutionScope) (w : VnetKey) (d : Direction) (st : State)
    → (apply_value scope w d st).conflicts ≡ st.conflicts
unfolding apply_value
conflicts-apply_value scope w d st = ground arith

pick_group :
    (a b : Bool) (o : Option (List ResolutionRule)) (g : List ResolutionRule)
    → or_else o [] ≡ g
    → (a || (is_some o && (b && disagrees (or_else o [])))) ≡ (a || (b && disagrees g))
pick_group a b none g h = rw (← h) (ground arith)
pick_group a b (some rules) g h = rw h (ground arith)

module _ (s : ResolutionScope) (v : VnetKey) where
  -- The report is about this scope and vnet.
  abbrev pub concerns : ResolutionConflict → Bool
  concerns c = c.vnet == v && nat_beq (tier c.scope) (tier s)

  conflicts-resolve_group :
      (scope : ResolutionScope) (w : VnetKey) (rules : List ResolutionRule) (st : State)
      → any concerns (resolve_group scope w rules st).conflicts ≡ (
          any concerns st.conflicts
          || (w == v && (nat_beq (tier scope) (tier s) && disagrees rules)))
  unfolding resolve_group report_conflict
  conflicts-resolve_group scope w [] st = ground arith
  conflicts-resolve_group scope w (r ∷ rs) st =
      let m = merge_rules (merge_first r) rs in
      let eff = merged_direction m in
      let reported = report_conflict scope w (r ∷ rs) m.disagree eff in
      rw (conflicts-apply_value scope w eff (record st { conflicts = st.conflicts ++ reported }))
        (any-append concerns st.conflicts reported ∙ (rw (← disagree-merge r rs) (ground arith)))

  conflicts-resolve_vnets :
      (scope : ResolutionScope) (groups : Map VnetKey (List ResolutionRule)) (vs : List VnetKey)
      (st : State)
      → any concerns (resolve_vnets scope groups vs st).conflicts ≡ (
          any concerns st.conflicts
          || (any (λ w. w == v) vs
              && (nat_beq (tier scope) (tier s) && disagrees (or_else (lookup v groups) []))))
  unfolding resolve_vnets
  conflicts-resolve_vnets scope groups [] st = ground arith
  conflicts-resolve_vnets scope groups (w ∷ vs) st =
      let le = λ (a b : ResolutionRule). by_text a.source b.source in
      let group = sort le (or_else (lookup w groups) []) in
      let same = λ (e : (w == v) ≡ true).
        ap (λ u. disagrees (or_else (lookup u groups) [])) (beq→eq w v e) in
      ground (
        arith,
        conflicts-resolve_vnets scope groups vs (resolve_group scope w group st),
        conflicts-resolve_group scope w group st,
        disagrees-sort le (or_else (lookup w groups) []),
        same,
      )

  abbrev conflicts_in : ResolutionLayer → Bool
  conflicts_in l = nat_beq (tier l.scope) (tier s) && disagrees (of_vnet v l.rules)

  conflicts-resolve_layer :
      (l : ResolutionLayer) (st : State)
      → any concerns (resolve_layer l st).conflicts ≡ (any concerns st.conflicts || conflicts_in l)
  unfolding resolve_layer
  conflicts-resolve_layer l st =
      let groups = group_rules [] l.rules in
      conflicts-resolve_vnets l.scope groups (sort by_text (keys groups)) st
      ∙ rw (any-sort, any-keys v groups)
          (pick_group (any concerns st.conflicts) (nat_beq (tier l.scope) (tier s))
            (lookup v groups) (of_vnet v l.rules) (lookup-group_rules_nil v l.rules))

  conflicts-resolve_layers :
      (ls : List ResolutionLayer) (st : State)
      → any concerns (resolve_layers ls st).conflicts
        ≡ (any concerns st.conflicts || any conflicts_in ls)
  unfolding resolve_layers
  conflicts-resolve_layers [] st = ground arith
  conflicts-resolve_layers (l ∷ ls) st =
      ground (arith, conflicts-resolve_layers ls (resolve_layer l st), conflicts-resolve_layer l st)

-- A conflict is reported for a tier and a vnet exactly when two rules for that vnet, in some layer
-- of that tier, give different bare directions.
pub conflicts-resolve :
    (s : ResolutionScope) (v : VnetKey) (layers : List ResolutionLayer)
    → any (concerns s v) (resolve layers).conflicts
      ≡ any (λ l. nat_beq (tier l.scope) (tier s) && disagrees (of_vnet v l.rules)) layers
unfolding resolve
conflicts-resolve s v layers = rw any-sort (
    conflicts-resolve_layers s v (sort by_tier layers) start
    ∙ any-sort by_tier (conflicts_in s v) layers)
