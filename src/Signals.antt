-- ===== src/Signals.antt =====
-- internal/controller/signals.go: what a process remembers, so that it reports a restored policy and
-- a lasting state once. Each method runs under its lock, as one step on the state.
pub mod Once
use kube_vnet.Prelude.{
  String, Bool, true, false, not, ◌&&◌, Option, none, some, List, [], ◌∷◌, if◌then◌else◌, ◌==◌,
  string_eq, Map, lookup, insert, delete_if, is_some, or_else,
}
use kube_vnet.Effects.{ObjectRef, Event, EventType, warning}
use kube_vnet.Objects.{ObjectKey, object_key_eq}

-- `eventf`: without a recorder nothing is recorded.
unfoldable pub eventf : Bool → ObjectRef → EventType → String → List String → List Event
eventf recorder obj event_type reason args =
    if recorder
    then record { regarding = obj; event_type = event_type; reason = reason; args = args } ∷ []
    else []

-- `applyFailed` and `policyRestored`, without the metric.
unfoldable pub apply_failed : Bool → ObjectRef → List String → List Event
unfolding eventf
apply_failed recorder obj args = eventf recorder obj warning "ApplyFailed" args

unfoldable pub policy_restored : Bool → ObjectRef → List String → List Event
unfolding eventf
policy_restored recorder obj args = eventf recorder obj warning "PolicyRestored" args

-- `policyTracker`: the policies that this process has applied.
abbrev pub PolicyTracker : Type 0
PolicyTracker = Map ObjectKey Bool

unfoldable pub tracker_applied : ObjectKey → Bool → PolicyTracker → PolicyTracker × Bool
tracker_applied key created t = (insert key true t, created && or_else (lookup key t) false)

unfoldable pub tracker_forget : ObjectKey → PolicyTracker → PolicyTracker
tracker_forget key t = delete_if (λ k. k == key) t

unfoldable pub tracker_forget_namespace :
    String → (ObjectKey → Bool) → PolicyTracker → PolicyTracker
tracker_forget_namespace ns keep t = delete_if (λ k. k.namespace == ns && not (keep k)) t

-- `onceSet`: for each object, the reasons reported and the UID that they were reported for.
abbrev pub OnceSet : Type 0
OnceSet = Map ObjectKey (Map String String)

abbrev pub reasons_of : ObjectKey → OnceSet → Map String String
reasons_of nn o = or_else (lookup nn o) []

abbrev pub reported : ObjectKey → String → String → OnceSet → Bool
reported nn uid reason o = elim (lookup reason (reasons_of nn o)) [
  | none ↦ false
  | some u ↦ u == uid
]

unfoldable pub once_first : ObjectKey → (uid reason : String) → OnceSet → OnceSet × Bool
once_first nn uid reason o =
    if reported nn uid reason o
    then (insert nn (reasons_of nn o) o, false)
    else (insert nn (insert reason uid (reasons_of nn o)) o, true)

-- Deleting from a missing map does nothing.
unfoldable pub once_clear : ObjectKey → String → OnceSet → OnceSet
once_clear nn reason o = elim (lookup nn o) [
  | none ↦ o
  | some reasons ↦ insert nn (delete_if (λ r. r == reason) reasons) o
]

unfoldable pub once_forget : ObjectKey → OnceSet → OnceSet
once_forget nn o = delete_if (λ k. k == nn) o
