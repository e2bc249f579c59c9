-- ===== src/Resolution/Groups.antt =====
-- One vnet's rules within a layer (resolution.go, the body of the loop over `byVnet`): the grouping
-- by vnet, and the merge of a group.
use mathlib.Core.Path.{subst}
use mathlib.Core.List.{append_assoc, append-nil}
use kube_vnet.Prelude.{
  ◌≡◌, refl, sym, ap, ◌∙◌, ◌↔◌, Bool, true, false, not, ◌&&◌, ◌||◌, List, [], ◌∷◌, ◌++◌, arith,
  ◌==◌, beq→eq, string_eq, select, all, any, All, Map, lookup, insert, or_else, lookup-insert,
  Bool-cases, inl, inr,
}
use kube_vnet.Prelude.Sorting.{sort, all-sort}
use kube_vnet.Direction.{Direction, direction_eq, is_default, bare, with_default, intersect}
use kube_vnet.Direction.Algebra.{
  accepts, initiates, of_permissions, of_permissions_lem, intersect_permissions,
}
use kube_vnet.Resolution.{
  VnetKey, ResolutionRule, Merge, group_rules, merge_first, merge_rule, merge_rules,
  merged_direction,
}

-- The rules that name a vnet.
abbrev pub of_vnet : VnetKey → List ResolutionRule → List ResolutionRule
of_vnet v rules = select (λ r. r.vnet == v) rules

append_to_group :
    (r : ResolutionRule) (v : VnetKey) (m : Map VnetKey (List ResolutionRule))
    (xs : List ResolutionRule)
    → r.vnet ≡ v
    → (or_else (lookup r.vnet m) [] ++ r ∷ []) ++ xs ≡ or_else (lookup v m) [] ++ (r ∷ xs)
append_to_group r v m xs p =
    append_assoc _ (r ∷ []) xs ∙ ap (λ u. or_else (lookup u m) [] ++ (r ∷ xs)) p

-- A group holds the rules of its vnet, in their order.
lookup-group_rules :
    (v : VnetKey) (m : Map VnetKey (List ResolutionRule)) (rules : List ResolutionRule)
    → or_else (lookup v (group_rules m rules)) [] ≡ or_else (lookup v m) [] ++ of_vnet v rules
unfolding group_rules
lookup-group_rules v m [] = sym (append-nil _)
lookup-group_rules v m (r ∷ rs) =
    let group = or_else (lookup r.vnet m) [] ++ r ∷ [] in
    rw (lookup-group_rules v (insert r.vnet group m) rs, lookup-insert r.vnet v group m)
      (elim (Bool-cases (r.vnet == v)) [
        | inl e ↦ rw e (append_to_group r v m (of_vnet v rs) (beq→eq r.vnet v e))
        | inr e ↦ rw e
      ])

pub lookup-group_rules_nil :
    (v : VnetKey) (rules : List ResolutionRule)
    → or_else (lookup v (group_rules [] rules)) [] ≡ of_vnet v rules
unfolding lookup
lookup-group_rules_nil v rules = lookup-group_rules v [] rules

-- What a group of rules amounts to: it allows what every rule allows, and is overridable if every
-- rule is.
abbrev pub group_direction : List ResolutionRule → Direction
group_direction rules =
    of_permissions (all (λ r. accepts r.direction) rules) (all (λ r. initiates r.direction) rules)
      (all (λ r. is_default r.direction) rules)

accepts-merge_rules :
    (m : Merge) (rs : List ResolutionRule)
    → accepts (merge_rules m rs).eff ≡ (accepts m.eff && all (λ r. accepts r.direction) rs)
unfolding merge_rules merge_rule
accepts-merge_rules m [] = ground arith
accepts-merge_rules m (r ∷ rs) =
    ground (arith, accepts-merge_rules (merge_rule m r) rs, intersect_permissions m.eff r.direction)

initiates-merge_rules :
    (m : Merge) (rs : List ResolutionRule)
    → initiates (merge_rules m rs).eff ≡ (initiates m.eff && all (λ r. initiates r.direction) rs)
unfolding merge_rules merge_rule
initiates-merge_rules m [] = ground arith
initiates-merge_rules m (r ∷ rs) =
    ground
      (arith, initiates-merge_rules (merge_rule m r) rs, intersect_permissions m.eff r.direction)

any_default-merge_rules :
    (m : Merge) (rs : List ResolutionRule)
    → (merge_rules m rs).any_default ≡ (m.any_default || any (λ r. is_default r.direction) rs)
unfolding merge_rules merge_rule
any_default-merge_rules m [] = ground arith
any_default-merge_rules m (r ∷ rs) = ground (arith, any_default-merge_rules (merge_rule m r) rs)

-- The overridable value is that of rules that are all overridable.
any_bare-merge_rules :
    (m : Merge) (rs : List ResolutionRule)
    → (merge_rules m rs).any_bare ≡ (m.any_bare || not (all (λ r. is_default r.direction) rs))
unfolding merge_rules merge_rule
any_bare-merge_rules m [] = ground arith
any_bare-merge_rules m (r ∷ rs) = ground (arith, any_bare-merge_rules (merge_rule m r) rs)

abbrev IsConsistent : Merge → Type 0
IsConsistent m = (not (is_default m.eff) || (not m.any_bare && m.any_default)) ≡ true

IsConsistent-merge_rules :
    (m : Merge) (rs : List ResolutionRule) → IsConsistent m → IsConsistent (merge_rules m rs)
unfolding merge_rules merge_rule
IsConsistent-merge_rules m [] h = h
IsConsistent-merge_rules m (r ∷ rs) h =
    IsConsistent-merge_rules (merge_rule m r) rs
      (ground (arith, intersect_permissions m.eff r.direction))

merged_permissions :
    (m : Merge)
    → IsConsistent m
    → (accepts (merged_direction m) ≡ accepts m.eff)
      × (initiates (merged_direction m) ≡ initiates m.eff)
      × (is_default (merged_direction m) ≡ (m.any_default && not m.any_bare))
unfolding merged_direction with_default bare is_default accepts initiates
merged_permissions m h = ground arith

-- The merged direction of a group is the intersection of its rules, overridable if all of them are.
pub merged-eq-group_direction :
    (r : ResolutionRule) (rs : List ResolutionRule)
    → merged_direction (merge_rules (merge_first r) rs) ≡ group_direction (r ∷ rs)
unfolding merge_first
merged-eq-group_direction r rs =
    let m = merge_rules (merge_first r) rs in
    let (a, i, d) =
      merged_permissions m (IsConsistent-merge_rules (merge_first r) rs (ground arith)) in
    sym (of_permissions_lem (merged_direction m))
    ∙ ground (
      arith,
      a,
      i,
      d,
      accepts-merge_rules (merge_first r) rs,
      initiates-merge_rules (merge_first r) rs,
      any_default-merge_rules (merge_first r) rs,
      any_bare-merge_rules (merge_first r) rs,
    )

-- Sorting a group does not change what it amounts to.
pub group_direction-sort :
    (le : ResolutionRule → ResolutionRule → Bool) (rules : List ResolutionRule)
    → group_direction (sort le rules) ≡ group_direction rules
group_direction-sort le rules = simp all-sort

-- Whether all rules of a group give one bare direction.
abbrev pub Agree : List ResolutionRule → Type 0
Agree rules = (d : Direction) × All (λ r. bare r.direction ≡ d) rules

differs : Direction → List ResolutionRule → Bool
differs d rs = any (λ r. not (bare r.direction == d)) rs

bare-intersect_self : (a b : Direction) → bare a ≡ bare b → bare (intersect a b) ≡ bare a
unfolding intersect
bare-intersect_self a b h = ground arith

still_d :
    (d : Direction) (m : Merge) (r : ResolutionRule)
    → (m.disagree ≡ false → bare m.eff ≡ d)
    → (merge_rule m r).disagree ≡ false
    → bare (merge_rule m r).eff ≡ d
unfolding merge_rule
still_d d m r h e =
    let with_eff = direction_eq.beq_iff (bare r.direction) (bare m.eff) in
    ground (arith, bare-intersect_self m.eff r.direction, with_eff)

disagree-merge_rules :
    (d : Direction) (m : Merge) (rs : List ResolutionRule)
    → (m.disagree ≡ false → bare m.eff ≡ d)
    → (merge_rules m rs).disagree ≡ (m.disagree || differs d rs)
unfolding merge_rules merge_rule differs
disagree-merge_rules d m [] h = ground arith
disagree-merge_rules d m (r ∷ rs) h =
    let with_d = direction_eq.beq_iff (bare r.direction) d in
    let with_eff = direction_eq.beq_iff (bare r.direction) (bare m.eff) in
    let rest = disagree-merge_rules d (merge_rule m r) rs (still_d d m r h) in
    ground (arith, rest, with_d, with_eff)

All-of_differs :
    (d : Direction) (rs : List ResolutionRule)
    → differs d rs ≡ false
    → All (λ r. bare r.direction ≡ d) rs
unfolding differs
All-of_differs d [] h = tt
All-of_differs d (r ∷ rs) h =
    ground (arith, direction_eq.beq_iff (bare r.direction) d, All-of_differs d rs)

differs_of_All :
    (d : Direction) (rs : List ResolutionRule)
    → All (λ r. bare r.direction ≡ d) rs
    → differs d rs ≡ false
unfolding differs
differs_of_All d [] h = refl
differs_of_All d (r ∷ rs) h =
    ground (arith, direction_eq.beq_iff (bare r.direction) d, differs_of_All d rs h.1)

-- A group is found to disagree exactly when its rules do not all give one bare direction.
pub disagree_iff :
    (r : ResolutionRule) (rs : List ResolutionRule)
    → ((merge_rules (merge_first r) rs).disagree ≡ false) ↔ Agree (r ∷ rs)
unfolding merge_first
disagree_iff r rs =
    let found = disagree-merge_rules (bare r.direction) (merge_first r) rs (λ _. refl) in
    (
      λ h. (bare r.direction, (refl, All-of_differs (bare r.direction) rs (ground (arith, found)))),
      λ (d, h).
          let same = subst (λ x. All (λ s. bare s.direction ≡ x) rs) (sym h.0) h.1 in
          ground (arith, found, differs_of_All (bare r.direction) rs same),
    )
