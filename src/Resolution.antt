-- ===== src/Resolution.antt =====
-- internal/controller/resolution.go: the cascade of the membership tiers (`Resolve`).
pub mod Groups
pub mod Cascade
pub mod Effective
pub mod Conflicts
use Prim.Native.String.{compare}
use text.Mathlib.Text.{is_le}
use kube_vnet.Prelude.{
  ℕ, String, Bool, true, false, not, ◌||◌, ◌&&◌, Option, none, some, List, [], ◌∷◌, ◌++◌, leb,
  if◌then◌else◌, Eq, ◌==◌, Map, lookup, insert, or_else, string_eq, map,
}
use kube_vnet.Effects.{ObjectRef}
use kube_vnet.Objects.{VirtualNetworkRef}
pub use kube_vnet.Keys.{VnetKey}
use kube_vnet.Prelude.Sorting.{sort}
use kube_vnet.Direction.{Direction, direction_eq, is_default, bare, with_default, intersect}

pub record ResolutionRule : Type 0 where
  pub vnet : VnetKey
  pub direction : Direction
  pub source : String
  pub ref : VirtualNetworkRef
  pub hint : String
  pub owner : Option ObjectRef

pub data ResolutionScope : Type 0 where
  cluster_baseline namespace_baseline pod : ResolutionScope

-- The numbers of Go's `iota`.
abbrev pub tier : ResolutionScope → ℕ
tier cluster_baseline = 0
tier namespace_baseline = 1
tier pod = 2

pub record ResolutionLayer : Type 0 where
  pub scope : ResolutionScope
  pub rules : List ResolutionRule

pub record ResolutionConflict : Type 0 where
  pub vnet : VnetKey
  pub scope : ResolutionScope
  pub participants : List ResolutionRule
  pub effective : Direction

pub record OverrideRejected : Type 0 where
  pub vnet : VnetKey
  pub attempted_scope : ResolutionScope
  pub attempted_dir : Direction
  pub blocking_scope : ResolutionScope
  pub blocking_dir : Direction

pub record ResolutionResult : Type 0 where
  pub effective : Map VnetKey Direction
  pub conflicts : List ResolutionConflict
  pub override_rejected : List OverrideRejected

-- The cascade value of a vnet, with the tier that it came from.
pub record Running : Type 0 where
  pub direction : Direction
  pub from_scope : ResolutionScope

-- The variables of the loop over the layers.
pub record State : Type 0 where
  pub current : Map VnetKey Running
  pub conflicts : List ResolutionConflict
  pub rejected : List OverrideRejected

-- The variables of the loop over one vnet's rules.
pub record Merge : Type 0 where
  pub eff : Direction
  pub disagree : Bool
  pub any_default : Bool
  pub any_bare : Bool

abbrev pub by_text : String → String → Bool
by_text a b = is_le (compare a b)

-- Within a layer: the rules by vnet, each group in the order of the rules.
unfoldable pub group_rules :
    Map VnetKey (List ResolutionRule) → List ResolutionRule → Map VnetKey (List ResolutionRule)
group_rules m [] = m
group_rules m (r ∷ rs) = group_rules (insert r.vnet (or_else (lookup r.vnet m) [] ++ r ∷ []) m) rs

unfoldable pub merge_first : ResolutionRule → Merge
merge_first r = record {
  eff = r.direction;
  disagree = false;
  any_default = is_default r.direction;
  any_bare = not (is_default r.direction);
}

unfoldable pub merge_rule : Merge → ResolutionRule → Merge
merge_rule m r = record {
  eff = intersect m.eff r.direction;
  disagree = not (bare r.direction == bare m.eff) || m.disagree;
  any_default = is_default r.direction || m.any_default;
  any_bare = not (is_default r.direction) || m.any_bare;
}

unfoldable pub merge_rules : Merge → List ResolutionRule → Merge
merge_rules m [] = m
merge_rules m (r ∷ rs) = merge_rules (merge_rule m r) rs

-- The merged direction, overridable if every participant is.
unfoldable pub merged_direction : Merge → Direction
merged_direction m = if m.any_default && not m.any_bare then with_default (bare m.eff) else m.eff

-- `conflicts = append(…)` if the group disagrees.
unfoldable pub report_conflict :
    ResolutionScope → VnetKey → List ResolutionRule → Bool → Direction → List ResolutionConflict
report_conflict scope vnet rules disagree eff =
    if disagree
    then record { vnet = vnet; scope = scope; participants = rules; effective = bare eff } ∷ []
    else []

-- Applies a layer's value for one vnet, unless an upper tier pinned the vnet.
unfoldable pub apply_value : ResolutionScope → VnetKey → Direction → State → State
apply_value scope vnet eff s = elim (lookup vnet s.current) [
  | none ↦ record s {
    current = insert vnet (record { direction = eff; from_scope = scope }) s.current;
  }
  | some existing ↦
      if is_default existing.direction
      then record s {
        current = insert vnet (record { direction = eff; from_scope = scope }) s.current;
      }
      else if bare eff == existing.direction
      then s
      else record s {
        rejected =
            s.rejected
            ++ record {
              vnet = vnet;
              attempted_scope = scope;
              attempted_dir = eff;
              blocking_scope = existing.from_scope;
              blocking_dir = existing.direction;
            }
              ∷ [];
      }
]

-- The body of the loop over a layer's vnets, for a group sorted by source. A group holds at least
-- one rule; without one nothing happens here, where Go's `rules[0]` would panic.
unfoldable pub resolve_group : ResolutionScope → VnetKey → List ResolutionRule → State → State
resolve_group scope vnet [] s = s
resolve_group scope vnet (r ∷ rs) s =
    let m = merge_rules (merge_first r) rs in
    let eff = merged_direction m in
    apply_value scope vnet eff
      (record s { conflicts = s.conflicts ++ report_conflict scope vnet (r ∷ rs) m.disagree eff })

unfoldable pub resolve_vnets :
    ResolutionScope → Map VnetKey (List ResolutionRule) → List VnetKey → State → State
resolve_vnets scope groups [] s = s
resolve_vnets scope groups (v ∷ vs) s = resolve_vnets scope groups vs (
    resolve_group scope v (sort (λ a b. by_text a.source b.source) (or_else (lookup v groups) []))
      s)

-- `maps.Keys`
abbrev pub keys {ℓ} : {V : Type ℓ} → Map VnetKey V → List VnetKey
keys m = map (λ e. e.0) m

unfoldable pub resolve_layer : ResolutionLayer → State → State
resolve_layer layer s =
    let groups = group_rules [] layer.rules in
    resolve_vnets layer.scope groups (sort by_text (keys groups)) s

unfoldable pub resolve_layers : List ResolutionLayer → State → State
resolve_layers [] s = s
resolve_layers (l ∷ ls) s = resolve_layers ls (resolve_layer l s)

-- Strips the `default-*` prefix and drops the entries with direction none.
unfoldable pub strip : Map VnetKey Running → Map VnetKey Direction
strip [] = []
strip ((vnet, r) ∷ m) =
    let rest = strip m in
    if bare r.direction == Direction.none then rest else insert vnet (bare r.direction) rest

abbrev pub by_tier : ResolutionLayer → ResolutionLayer → Bool
by_tier a b = leb (tier a.scope) (tier b.scope)

-- `cmp.Or(cmp.Compare(tier), cmp.Compare(vnet))`
abbrev pub by_tier_and_vnet : ResolutionScope → VnetKey → ResolutionScope → VnetKey → Bool
by_tier_and_vnet s v s' v' =
    if leb (tier s) (tier s')
    then (if leb (tier s') (tier s) then by_text v v' else true)
    else false

abbrev pub start : State
start = record { current = []; conflicts = []; rejected = [] }

unfoldable pub resolve : List ResolutionLayer → ResolutionResult
resolve layers =
    let s = resolve_layers (sort by_tier layers) start in
    record {
      effective = strip s.current;
      conflicts = sort (λ a b. by_tier_and_vnet a.scope a.vnet b.scope b.vnet) s.conflicts;
      override_rejected =
          sort (λ a b. by_tier_and_vnet a.attempted_scope a.vnet b.attempted_scope b.vnet)
            s.rejected;
    }
