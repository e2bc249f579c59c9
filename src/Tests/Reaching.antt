-- ===== src/Tests/Reaching.antt =====
-- Members and the traffic that their policies admit, at concrete inputs.
use kube_vnet.Prelude.{
  String, Memᴰ, ◌≡◌, refl, true, ◌&&◌, some, List, [], ◌∷◌, arith, ◌==◌, string_eq, any, lookup,
  insert, delete_if,
}
use kube_vnet.Prelude.Sorting.{place, sort}
use kube_vnet.Prelude.Texts.{cut_prefix, cut_dot, has_dot}
use kube_vnet.Effects.{ok}
use kube_vnet.Direction.{
  Direction, direction_eq, text, is_default, bare, parse_direction, parse_bare_direction,
}
use kube_vnet.Direction.Algebra.{accepts, initiates}
use kube_vnet.Keys.{system_label_key, split_vnet_key}
use kube_vnet.Objects.{Labels, object_key_eq, Pod}
use kube_vnet.Permits.{matches_allowed_namespaces, permits_for_vnet}
use kube_vnet.Stamps.{annotation_resolved_generation}
use kube_vnet.Namespaces.{NamespaceFilter, is_managed, managed_fetch, manages}
use kube_vnet.Generator.{
  MembersByNs, GenerateInput, self_values_receiver, peer_initiator_values, in_values,
  named_namespace, has_receiver, has_initiator, members_of, generate,
}
use kube_vnet.Generator.Reach.{Endpoint, holds, admits, admits-generate}
use kube_vnet.Members.{
  stamped_direction, user_values, add_member, ineligible, judge_joiner, judge_member,
  discover_among, discover_members,
}
use kube_vnet.Members.Discovery.{is_member, is_eligible, belongs, is_member-discover_members}
use kube_vnet.Networks.Reaching.{endpoint, admits-discover_members}
use kube_vnet.Tests.Fixtures.{web, cluster, selects, pod_with, web_stamp}

running : Unit {0}
unfolding place sort cut_prefix cut_dot has_dot text is_default bare parse_direction
    parse_bare_direction system_label_key split_vnet_key matches_allowed_namespaces permits_for_vnet
    is_managed managed_fetch manages stamped_direction user_values add_member ineligible
    judge_joiner judge_member discover_among discover_members lookup insert delete_if
running = tt

-- The meaning of the selectors that the generator writes.
selects_in :
    (key : String) (values : List String) (labels : Labels)
    → selects (in_values key values) labels ≡ holds values key labels
selects_in key values labels = ground arith

abbrev front_labels : Labels
front_labels = ("kubernetes.io/metadata.name", "front") ∷ []

selects_front : (ns : String) → selects (named_namespace ns) front_labels ≡ (ns == "front")
unfolding lookup
selects_front ns = ground (arith, string_eq.beq_iff ns "front", string_eq.beq_iff "front" ns)

-- A client in `front` and a server in `shop`.
abbrev client : Endpoint
client = record {
  namespace = "front";
  namespace_labels = front_labels;
  labels = (web_stamp, "egress") ∷ [];
}

abbrev server_pod : Endpoint
server_pod = record { namespace = "shop"; namespace_labels = []; labels = (web_stamp, "both") ∷ [] }

abbrev input : GenerateInput
input = record {
  vnet = web;
  members_by_ns =
      ("front", (Direction.egress, "ui" ∷ []) ∷ [])
      ∷ ("shop", (Direction.both, "srv" ∷ []) ∷ [])
      ∷ [];
}

abbrev no_hash : String → String
no_hash s = "00000000"

admits-generate_example : admits selects (generate no_hash input) server_pod client ≡ (
    (has_receiver (members_of input.members_by_ns "shop")
      && holds self_values_receiver (system_label_key "shop" "web") server_pod.labels)
    && (has_initiator (members_of input.members_by_ns "front")
        && holds peer_initiator_values (system_label_key "shop" "web") client.labels))
admits-generate_example =
    admits-generate selects selects_in server_pod client selects_front no_hash input

abbrev filter : NamespaceFilter
filter = record { excluded = "ops" ∷ [] }

-- A resolved and stamped member.
abbrev member : Pod
member = record (pod_with ((web_stamp, "egress") ∷ [])) {
  annotations = (annotation_resolved_generation, "2") ∷ [];
}

discovers :
    discover_members cluster filter web (ok (member ∷ []))
    ≡ ok (("front", (Direction.egress, "ui" ∷ []) ∷ []) ∷ [], [])
unfolding running
discovers = refl

is_member-discover_members_example :
    is_member "front" Direction.egress "ui" (("front", (Direction.egress, "ui" ∷ []) ∷ []) ∷ [])
    ≡ any (belongs cluster filter web "front" Direction.egress "ui") (member ∷ [])
is_member-discover_members_example =
    is_member-discover_members cluster filter web (member ∷ []) "front" Direction.egress "ui"
      (("front", (Direction.egress, "ui" ∷ []) ∷ []) ∷ []) [] discovers

abbrev receiver : Pod
receiver = record (pod_with ((web_stamp, "both") ∷ [])) {
  namespace = "shop";
  name = "srv";
  annotations = (annotation_resolved_generation, "1") ∷ [];
}

abbrev members : MembersByNs
members =
    ("front", (Direction.egress, "ui" ∷ []) ∷ []) ∷ ("shop", (Direction.both, "srv" ∷ []) ∷ []) ∷ []

discovers_both :
    discover_members cluster filter web (ok (member ∷ receiver ∷ [])) ≡ ok (members, [])
unfolding running
discovers_both = refl

receives : stamped_direction receiver (system_label_key "shop" "web") ≡ some Direction.both
unfolding running
receives = refl

sends : stamped_direction member (system_label_key "shop" "web") ≡ some Direction.egress
unfolding running
sends = refl

shop_eligible : is_eligible cluster filter web "shop" ≡ true
unfolding running
shop_eligible = refl

front_eligible : is_eligible cluster filter web "front" ≡ true
unfolding running
front_eligible = refl

admits-discover_members_example :
    admits selects
      (generate no_hash (record { vnet = web; members_by_ns = members }))
      (endpoint receiver [])
      (endpoint member front_labels)
    ≡ (accepts Direction.both && initiates Direction.egress)
admits-discover_members_example =
    admits-discover_members cluster filter web no_hash selects selects_in (member ∷ receiver ∷ [])
      members [] discovers_both receiver member Direction.both Direction.egress [] front_labels
      (Memᴰ.tail (Memᴰ.head refl)) (Memᴰ.head refl) receives sends shop_eligible front_eligible
      selects_front
