-- ===== src/Networks/Reconciling.antt =====
-- internal/controller/virtualnetwork_controller.go, `Reconcile`: its early returns, and the status,
-- the Events and the error after the loop and the sweep.
use Prim.Native.String.{◌++◌ as ◌+++◌}
use kube_vnet.Prelude.{
  ℕ, zero, String, Bool, false, not, ◌&&◌, Option, none, some, List, [], ◌∷◌, ◌++◌, if◌then◌else◌,
  is_nil, length, map,
}
use kube_vnet.Prelude.Decimal.{decimal}
use kube_vnet.Prelude.Texts.{strings_join}
use kube_vnet.Effects.{Error, Result, ok, err, Fetch, found, not_found, failed, Event, warning}
use kube_vnet.Objects.{ObjectKey, VirtualNetwork, Pod, NetworkPolicy}
use kube_vnet.Cluster.{Cluster}
use kube_vnet.Namespaces.{NamespaceFilter, manages}
use kube_vnet.Generator.{MembersByNs, generate}
use kube_vnet.Members.{InvalidJoiner, discover_members}
use kube_vnet.Sweep.{Policies, Api, operator_managed}
use kube_vnet.Signals.{eventf}
use kube_vnet.Networks.Conditions.{
  is_true, is_false, Status, StatusApi, first_few, join_error_messages, pluralize, total_members,
  set_ready, set_degraded, condition_status, update_status, emit_transition_events,
}
use kube_vnet.Networks.{
  StoredNetwork, NetworkWorld, NetworkOutcome, outcome, set_members, clear_members, name_matches,
  vnet_ref, Applied, keeps, delete_membership_policies, apply_all, before_apply,
}

abbrev joiner_text : InvalidJoiner → String
joiner_text j = j.pod_namespace +++ "/" +++ j.pod_name +++ ":" +++ j.reason

abbrev counted : ℕ → (one many : String) → String
counted n one many = pluralize n ("1 " +++ one) (λ m. decimal m +++ " " +++ many)

abbrev to_list : Option Error → List Error
to_list none = []
to_list (some e) = e ∷ []

abbrev keeps_none : ObjectKey → Bool
keeps_none k = false

-- What the end of a reconcile is about.
pub record Pass : Type 0 where
  pub stored : StoredNetwork
  pub members : MembersByNs
  pub next : Status
  pub world : NetworkWorld
  pub events : List Event

module _ (api : Api) (status_api : StatusApi) (recorder : Bool) where
  abbrev with_writes : NetworkWorld → List Status → NetworkWorld
  with_writes w writes = record w { status_writes = w.status_writes ++ writes }

  abbrev pub swept : NetworkWorld → List Event → Policies × Option Error → NetworkOutcome
  swept w events (ps, e) = outcome (record w { policies = ps }) e events

  -- Without a vnet, none of its policies is wanted.
  unfoldable pub reconcile_gone : (home_ns name : String) → NetworkWorld → NetworkOutcome
  reconcile_gone home_ns name w =
      swept (clear_members home_ns name w) []
        (delete_membership_policies api home_ns name keeps_none [] w.policies)

  abbrev transitions : StoredNetwork → Status → List Event
  transitions stored next =
      emit_transition_events status_api recorder (vnet_ref stored.vnet) next
        (condition_status status_api "Ready" stored.status)
        (condition_status status_api "Degraded" stored.status)

  abbrev rejected_status : StoredNetwork → (reason ready_message degraded_message : String) → Status
  rejected_status stored reason ready_message degraded_message =
      set_degraded status_api is_true reason degraded_message
        (set_ready status_api is_false reason ready_message stored.status)

  abbrev reject_writes : StoredNetwork → Status → List Status
  reject_writes stored next =
      (update_status status_api stored.generation [] [] stored.status next).0

  unfoldable pub reject_name : StoredNetwork → NetworkWorld → NetworkOutcome
  reject_name stored w =
      let name = stored.vnet.name in
      let next =
        rejected_status stored "InvalidName" ("name \"" +++ name +++ "\" is not a DNS-1123 label")
          ("VirtualNetwork name \"" +++ name +++ "\" must match ^[a-z0-9]([-a-z0-9]*[a-z0-9])?$") in
      outcome (with_writes w (reject_writes stored next)) none (transitions stored next)

  unfoldable pub reject_home : StoredNetwork → NetworkWorld → NetworkOutcome
  reject_home stored w =
      let vnet = stored.vnet in
      let next =
        rejected_status stored "HomeNamespaceExcluded"
          ("home namespace \"" +++ vnet.namespace +++ "\" is excluded by the operator")
          ("home namespace \"" +++ vnet.namespace
            +++ "\" is in the operator excluded list or has kube-vnet/disabled=true") in
      swept (set_members vnet.namespace vnet.name 0 (with_writes w (reject_writes stored next)))
        (transitions stored next)
        (delete_membership_policies api vnet.namespace vnet.name keeps_none [] w.policies)

  -- The conditions after the loop.
  unfoldable pub degraded_of : List InvalidJoiner → Status → Status
  degraded_of invalid s =
      if is_nil invalid
      then set_degraded status_api is_false "NoIssues" "" s
      else set_degraded status_api is_true "InvalidJoiners"
          (counted (length invalid) "invalid joiner" "invalid joiners"
            +++ ": "
            +++ first_few (map joiner_text invalid) ", " (λ n. "(+" +++ decimal n +++ " more)"))
          s

  abbrev failure_message : ℕ → List Error → String
  failure_message policies errs =
      decimal (length errs)
      +++ " of "
      +++ counted policies "NetworkPolicy" "NetworkPolicies"
      +++ " failed to apply: "
      +++ join_error_messages errs

  abbrev generated_message : ℕ → ℕ → String
  generated_message policies namespaces =
      counted policies "NetworkPolicy" "NetworkPolicies"
      +++ " in "
      +++ counted namespaces "namespace" "namespaces"

  unfoldable pub ready_of : List Error → (policies namespaces : ℕ) → Status → Status
  ready_of (e ∷ es) policies namespaces s =
      set_ready status_api is_false "ApplyFailed" (failure_message policies (e ∷ es)) s
  ready_of [] zero namespaces s =
      set_ready status_api is_true "NoMembers" "no pods are joining this VirtualNetwork" s
  ready_of [] policies namespaces s =
      set_ready status_api is_true "PoliciesGenerated" (generated_message policies namespaces) s

  abbrev summary_events : VirtualNetwork → ℕ → List Error → List Event
  summary_events vnet policies [] = []
  summary_events vnet policies (e ∷ es) =
      eventf recorder (vnet_ref vnet) warning "ApplyFailed" (failure_message policies (e ∷ es) ∷ [])

  abbrev counted_world : Pass → NetworkWorld
  counted_world pass =
      let vnet = pass.stored.vnet in
      set_members vnet.namespace vnet.name (total_members pass.members) pass.world

  abbrev all_events : Pass → List Event
  all_events pass = pass.events ++ transitions pass.stored pass.next

  -- After the status write, with the errors of the loop, the sweep and the write.
  abbrev pub after_status :
      List Error → (sweep_error status_error : Option Error) → Pass → NetworkOutcome
  after_status [] sweep_error (some e) pass = outcome pass.world (some e) pass.events
  after_status [] sweep_error none pass = record {
    world = counted_world pass;
    error = none;
    events = all_events pass;
    requeue_after = 10;
  }
  after_status (e ∷ es) sweep_error status_error pass =
      outcome (counted_world pass)
        (some (strings_join "\n" (e ∷ es ++ to_list sweep_error ++ to_list status_error)))
        (all_events pass)

  abbrev write_status :
      StoredNetwork
      → MembersByNs
      → Status
      → Applied
      → Option Error
      → NetworkWorld
      → List Event
      → NetworkOutcome
  write_status stored members next s sweep_error w events =
      let (writes, status_error) =
        update_status status_api stored.generation members s.refs stored.status next in
      after_status s.errors sweep_error status_error (record {
        stored = stored;
        members = members;
        next = next;
        world = with_writes w writes;
        events = events;
      })

  -- After the sweep: an error of its own ends the reconcile, but not beside a failed apply.
  abbrev pub after_sweep :
      StoredNetwork
      → MembersByNs
      → List InvalidJoiner
      → (policies : ℕ) → Applied
      → List Error
      → NetworkWorld
      → Option Error
      → NetworkOutcome
  after_sweep stored members invalid policies s [] w (some e) = outcome w (some e) s.events
  after_sweep stored members invalid policies s errs w sweep_error =
      write_status stored members
        (ready_of errs policies (length members) (degraded_of invalid stored.status)) s sweep_error
        w (s.events ++ summary_events stored.vnet policies errs)

  module _ (c : Cluster) (filter : NamespaceFilter) where
    abbrev pub loop : StoredNetwork → List NetworkPolicy → Policies → Applied
    loop stored ds ps =
        apply_all api c recorder stored.vnet stored.status.generated_policies ds (before_apply ps)

    abbrev pub sweep_after : StoredNetwork → List NetworkPolicy → Applied → Policies × Option Error
    sweep_after stored ds s =
        delete_membership_policies api stored.vnet.namespace stored.vnet.name (keeps ds)
          s.failed_namespaces s.policies

    -- The loop over the generated policies, the sweep, and the rest.
    unfoldable pub reconcile_policies :
        StoredNetwork
        → MembersByNs
        → List InvalidJoiner
        → List NetworkPolicy
        → NetworkWorld
        → NetworkOutcome
    reconcile_policies stored members invalid ds w =
        let s = loop stored ds w.policies in
        let (ps, sweep_error) = sweep_after stored ds s in
        after_sweep stored members invalid (length ds) s s.errors (record w { policies = ps })
          sweep_error

    module _ (hash8 : String → String) where
      abbrev pub served :
          StoredNetwork → Result (MembersByNs × List InvalidJoiner) → NetworkWorld → NetworkOutcome
      served stored (err e) w = outcome w (some e) []
      served stored (ok (members, invalid)) w =
          reconcile_policies stored members invalid
            (generate hash8 (record { vnet = stored.vnet; members_by_ns = members })) w

      abbrev pub at_home :
          StoredNetwork → Result (List Pod) → Result Bool → NetworkWorld → NetworkOutcome
      at_home stored pods (err e) w = outcome w (some e) []
      at_home stored pods (ok managed) w =
          if not (operator_managed stored.vnet.labels) && not managed
          then reject_home stored w
          else served stored (discover_members c filter stored.vnet pods) w

      unfoldable pub reconcile_live :
          StoredNetwork → Result (List Pod) → NetworkWorld → NetworkOutcome
      reconcile_live stored pods w =
          if not (name_matches stored.vnet.name)
          then reject_name stored w
          else at_home stored pods (manages filter c stored.vnet.namespace) w

      -- `VirtualNetworkReconciler.Reconcile`, on the outcomes of reading the vnet and of listing the
      -- pods.
      unfoldable pub reconcile_network :
          (home_ns name : String)
          → Fetch StoredNetwork
          → Result (List Pod)
          → NetworkWorld
          → NetworkOutcome
      reconcile_network home_ns name not_found pods w = reconcile_gone home_ns name w
      reconcile_network home_ns name (failed e) pods w = outcome w (some e) []
      reconcile_network home_ns name (found stored) pods w =
          if stored.vnet.deleting
          then reconcile_gone stored.vnet.namespace stored.vnet.name w
          else reconcile_live stored pods w
