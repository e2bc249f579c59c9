-- ===== src/Members.antt =====
-- internal/controller/virtualnetwork_controller.go: which pods are members of a vnet
-- (`discoverMembers`). The source memoises what it asks of each namespace; on one snapshot of the
-- cluster that is the same answer, so it is asked here each time.
pub mod Discovery
use Prim.Native.String.{◌++◌ as ◌+++◌}
use kube_vnet.Prelude.{
  String, Bool, true, false, not, ◌&&◌, ◌||◌, Option, none, some, List, [], ◌∷◌, ◌++◌,
  if◌then◌else◌, ◌==◌, string_eq, is_nil, any, is_some, or_else, Map, lookup, insert,
}
use kube_vnet.Effects.{Error, Result, ok, err, ◌>>=◌}
use kube_vnet.Objects.{VirtualNetwork, Pod}
use kube_vnet.Cluster.{Cluster}
use kube_vnet.Direction.{Direction, direction_eq, parse_bare_direction}
use kube_vnet.Keys.{system_vnet_cluster, user_join_prefix, system_label_key}
use kube_vnet.Permits.{permits_for_vnet}
use kube_vnet.Namespaces.{NamespaceFilter, manages, value_at}
use kube_vnet.Stamps.{annotation_resolved_generation}
use kube_vnet.Generator.{MembersByNs, bucket, members_of}

-- `isStampedMember`, with the direction of the stamp.
abbrev pub only_some_direction : Option Direction → Option Direction
only_some_direction none = none
only_some_direction (some d) = if d == Direction.none then none else some d

unfoldable pub stamped_direction : Pod → String → Option Direction
stamped_direction p stamp_key =
    if value_at annotation_resolved_generation p.annotations == ""
    then none
    else only_some_direction (parse_bare_direction (value_at stamp_key p.labels))

pub record InvalidJoiner : Type 0 where
  pub pod_namespace : String
  pub pod_name : String
  pub reason : String

abbrev pub reason_namespace_excluded : String
reason_namespace_excluded = "NamespaceExcluded"

abbrev pub reason_namespace_not_allowed : String
reason_namespace_not_allowed = "NamespaceNotAllowed"

abbrev pub reason_invalid_direction : String
reason_invalid_direction = "InvalidDirection"

abbrev when_there : Bool → Option String → List String
when_there b none = []
when_there b (some v) = if b then v ∷ [] else []

-- The values of the pod's join labels that may name the vnet.
unfoldable pub user_values : VirtualNetwork → Pod → List String
user_values vnet p =
    let cluster_vnet = vnet.name == system_vnet_cluster in
    when_there (p.namespace == vnet.namespace || cluster_vnet)
      (lookup (user_join_prefix +++ vnet.name) p.labels)
    ++ when_there (not cluster_vnet)
        (lookup (user_join_prefix +++ vnet.namespace +++ "." +++ vnet.name) p.labels)

-- `members[ns][dir] = append(…, name)`
unfoldable pub add_member : String → Direction → String → MembersByNs → MembersByNs
add_member ns d name m =
    let by_dir = members_of m ns in insert ns (insert d (bucket d by_dir ++ (name ∷ [])) by_dir) m

module _ (c : Cluster) (filter : NamespaceFilter) (vnet : VirtualNetwork) where
  abbrev admits : String → Result Bool
  admits ns = permits_for_vnet c (some vnet) ns

  -- Why pods of a namespace cannot be members, if they cannot.
  unfoldable pub ineligible : String → Result (Option String)
  ineligible ns = manages filter c ns >>= λ managed.
      if managed
      then (admits ns >>= λ admitted.
          ok (if admitted then none else some reason_namespace_not_allowed))
      else ok (some reason_namespace_excluded)

  abbrev invalid_for : Pod → Option String → List InvalidJoiner
  invalid_for p none = []
  invalid_for p (some reason) =
      record { pod_namespace = p.namespace; pod_name = p.name; reason = reason } ∷ []

  abbrev joiner_reason : Pod → List String → Result (Option String)
  joiner_reason p values =
      if any (λ v. not (is_some (parse_bare_direction v))) values
      then ok (some reason_invalid_direction)
      else ineligible p.namespace

  -- The diagnostic scan: only namespaces that the vnet admits count.
  unfoldable pub judge_joiner : Pod → Result (List InvalidJoiner)
  judge_joiner p =
      if is_nil (user_values vnet p)
      then ok []
      else admits p.namespace >>= λ admitted.
          if admitted
          then (joiner_reason p (user_values vnet p) >>= λ reason. ok (invalid_for p reason))
          else ok []

  abbrev stamp_key : String
  stamp_key = system_label_key vnet.namespace vnet.name

  abbrev pub eligible_only : Direction → Result (Option String) → Result (Option Direction)
  eligible_only d (err e) = err e
  eligible_only d (ok none) = ok (some d)
  eligible_only d (ok (some _)) = ok none

  -- The direction in which the pod is a member, if it is one.
  abbrev pub member_for : String → Option Direction → Result (Option Direction)
  member_for ns none = ok none
  member_for ns (some d) = eligible_only d (ineligible ns)

  unfoldable pub judge_member : Pod → Result (Option Direction)
  judge_member p = member_for p.namespace (stamped_direction p stamp_key)

  abbrev pub add_if : Pod → Option Direction → MembersByNs → MembersByNs
  add_if p none m = m
  add_if p (some d) m = add_member p.namespace d p.name m

  -- The loop over the pods.
  unfoldable pub discover_among :
      List Pod → MembersByNs → List InvalidJoiner → Result (MembersByNs × List InvalidJoiner)
  discover_among [] m invalid = ok (m, invalid)
  discover_among (p ∷ ps) m invalid = judge_joiner p >>= λ bad.
      judge_member p >>= λ d. discover_among ps (add_if p d m) (invalid ++ bad)

  -- `discoverMembers`, on the outcome of listing the pods of all namespaces.
  unfoldable pub discover_members : Result (List Pod) → Result (MembersByNs × List InvalidJoiner)
  discover_members (err e) = err e
  discover_members (ok pods) = discover_among pods [] []
