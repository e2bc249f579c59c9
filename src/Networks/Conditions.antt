-- ===== src/Networks/Conditions.antt =====
-- internal/controller/virtualnetwork_controller.go and api/v1alpha1/virtualnetwork_types.go: the
-- status of a vnet, its conditions and the Events about them. `meta.SetStatusCondition`,
-- `meta.FindStatusCondition` and `equality.Semantic.DeepEqual` are apimachinery's, hence parameters.
use Prim.Native.String.{◌++◌ as ◌+++◌}
use kube_vnet.Prelude.{
  ℕ, ◌+◌, String, Bool, true, false, Option, none, some, List, [], ◌∷◌, ◌++◌, if◌then◌else◌, ◌==◌,
  string_eq, nat_beq, length, map, Map,
}
use kube_vnet.Prelude.Decimal.{decimal}
use kube_vnet.Prelude.Sorting.{sort}
use kube_vnet.Prelude.Texts.{strings_join}
use kube_vnet.Effects.{Error, ObjectRef, Event, EventType, normal, warning}
use kube_vnet.Objects.{ObjectKey}
use kube_vnet.Direction.{Direction}
use kube_vnet.Resolution.{by_text}
use kube_vnet.Generator.{MembersByNs}
use kube_vnet.Signals.{eventf}

pub data ConditionStatus : Type 0 where
  unknown is_true is_false : ConditionStatus

pub record Condition : Type 0 where
  pub kind : String
  pub status : ConditionStatus
  pub reason : String
  pub message : String

pub record NamespaceMembers : Type 0 where
  pub namespace : String
  pub pods : List String

-- VirtualNetworkStatus; a PolicyRef is a namespace and a name.
pub record Status : Type 0 where
  pub conditions : List Condition
  pub members : List NamespaceMembers
  pub generated_policies : List ObjectKey
  pub observed_generation : ℕ

pub record StatusApi : Type 0 where
  pub set_condition : Condition → List Condition → List Condition
  pub find_condition : String → List Condition → Option Condition
  pub same_status : Status → Status → Bool
  -- The answer to `Status().Update`.
  pub update_error : Status → Option Error

-- A format with one number is a function of the number.
unfoldable pub first_few : List String → String → (ℕ → String) → String
unfolding strings_join
first_few (a ∷ b ∷ c ∷ d ∷ rest) sep more =
    strings_join sep (a ∷ b ∷ c ∷ more (length (d ∷ rest)) ∷ [])
first_few items sep more = strings_join sep items

unfoldable pub join_error_messages : List Error → String
unfolding first_few
join_error_messages errs = first_few errs "; " (λ n. "and " +++ decimal n +++ " more")

unfoldable pub pluralize : ℕ → String → (ℕ → String) → String
pluralize n singular plural = if nat_beq n 1 then singular else plural n

unfoldable pub condition_message : Condition → String
condition_message c = if c.message == "" then c.reason else c.message

-- `slices.Compact`
unfoldable pub compact_texts : List String → List String
compact_texts [] = []
compact_texts (x ∷ []) = x ∷ []
compact_texts (x ∷ y ∷ ys) = let rest = compact_texts (y ∷ ys) in if x == y then rest else x ∷ rest

abbrev all_pods : Map Direction (List String) → List String
all_pods [] = []
all_pods ((d, pods) ∷ m) = pods ++ all_pods m

unfoldable pub unique_pods : Map Direction (List String) → List String
unfolding compact_texts
unique_pods by_dir = compact_texts (sort by_text (all_pods by_dir))

unfoldable pub total_members : MembersByNs → ℕ
unfolding unique_pods
total_members [] = 0
total_members ((ns, by_dir) ∷ m) = length (unique_pods by_dir) + total_members m

-- The status' members, sorted by namespace.
unfoldable pub flatten : MembersByNs → List NamespaceMembers
unfolding unique_pods
flatten members =
    sort (λ a b. by_text a.namespace b.namespace)
      (map (λ (ns, by_dir). record { namespace = ns; pods = unique_pods by_dir }) members)

module _ (api : StatusApi) where
  unfoldable pub set_ready : ConditionStatus → (reason message : String) → Status → Status
  set_ready status reason message s = record s {
    conditions =
        api.set_condition
          (record { kind = "Ready"; status = status; reason = reason; message = message })
          s.conditions;
  }

  unfoldable pub set_degraded : ConditionStatus → (reason message : String) → Status → Status
  set_degraded status reason message s = record s {
    conditions =
        api.set_condition
          (record { kind = "Degraded"; status = status; reason = reason; message = message })
          s.conditions;
  }

  unfoldable pub condition_status : String → Status → ConditionStatus
  condition_status kind s = elim (api.find_condition kind s.conditions) [
    | none ↦ unknown
    | some c ↦ c.status
  ]

  -- The status that `updateStatus` writes, if it writes, and the error.
  unfoldable pub update_status :
      (generation : ℕ)
      → MembersByNs
      → List ObjectKey
      → (stored : Status) → Status
      → List Status × Option Error
  unfolding flatten
  update_status generation members policies stored s =
      let next : Status = record s {
        members = flatten members;
        generated_policies = policies;
        observed_generation = generation;
      } in
      if api.same_status stored next then ([], none) else (next ∷ [], api.update_error next)

  abbrev same_condition_status : (a b : ConditionStatus) → Bool
  same_condition_status unknown unknown = true
  same_condition_status is_true is_true = true
  same_condition_status is_false is_false = true
  same_condition_status _ _ = false

  abbrev transition :
      Bool
      → ObjectRef
      → (on_true on_false : EventType × String) → ConditionStatus
      → Condition
      → List Event
  transition recorder obj (t, reason) off is_true c =
      eventf recorder obj t reason (condition_message c ∷ [])
  transition recorder obj on (t, reason) is_false c =
      eventf recorder obj t reason (condition_message c ∷ [])
  transition recorder obj on off unknown c = []

  abbrev transition_of :
      Bool
      → ObjectRef
      → (on_true on_false : EventType × String) → (prior : ConditionStatus) → Option Condition
      → List Event
  transition_of recorder obj on off prior none = []
  transition_of recorder obj on off prior (some c) =
      if same_condition_status c.status prior then [] else transition recorder obj on off c.status c

  unfoldable pub emit_transition_events :
      Bool → ObjectRef → Status → (prior_ready prior_degraded : ConditionStatus) → List Event
  emit_transition_events recorder obj s prior_ready prior_degraded =
      transition_of recorder obj (normal, "Ready") (warning, "NotReady") prior_ready
        (api.find_condition "Ready" s.conditions)
      ++ transition_of recorder obj (warning, "Degraded") (normal, "Recovered") prior_degraded
          (api.find_condition "Degraded" s.conditions)
