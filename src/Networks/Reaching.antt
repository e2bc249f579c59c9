-- ===== src/Networks/Reaching.antt =====
-- The traffic between members: from the stamps on the listed pods to what the generated policies
-- admit (`discoverMembers` of virtualnetwork_controller.go, then `Generate`).
use kube_vnet.Prelude.{
  String, ◌≡◌, refl, sym, ap, ◌∙◌, inl, inr, Bool, true, false, ◌&&◌, Option, none, some, List, [],
  ◌∷◌, arith, if◌then◌else◌, ◌==◌, string_eq, beq_refl, is_nil, any, or_else, lookup, Bool-cases,
  Memᴰ,
}
use kube_vnet.Effects.{ok}
use kube_vnet.Objects.{Labels, LabelSelector, VirtualNetwork, Pod}
use kube_vnet.Cluster.{Cluster}
use kube_vnet.Direction.{Direction, direction_eq, text, is_default, bare, parse_bare_direction}
use kube_vnet.Direction.Algebra.{accepts, initiates, parse_bare_direction-text}
use kube_vnet.Keys.{system_label_key}
use kube_vnet.Stamps.{annotation_resolved_generation}
use kube_vnet.Namespaces.{NamespaceFilter, value_at}
use kube_vnet.Generator.{
  MembersByNs, self_values_receiver, peer_initiator_values, bucket, has_receiver, has_initiator,
  members_of, in_values, named_namespace, generate,
}
use kube_vnet.Generator.Reach.{Endpoint, holds, admits, admits-generate}
use kube_vnet.Members.{InvalidJoiner, only_some_direction, stamped_direction, discover_members}
use kube_vnet.Members.Discovery.{is_member, is_eligible, belongs, is_member-discover_members}

-- A stamp with a direction: bare, and not none.
abbrev IsStamp : Direction → Type 0
IsStamp d = (is_default d ≡ false) × ((d == Direction.none) ≡ false)

only_some_direction-some :
    (o : Option Direction) (d : Direction)
    → only_some_direction o ≡ some d
    → (o ≡ some d) × ((d == Direction.none) ≡ false)
only_some_direction-some none d h = absurd (cc h)
only_some_direction-some (some e) d h = elim (Bool-cases (e == Direction.none)) [
  | inl is_none ↦ absurd (cc (rw is_none at h))
  | inr other ↦
      let same : e ≡ d = ground (arith, other, h) in
      (ap some same, ap (λ x. x == Direction.none) (sym same) ∙ other)
]

no_stamp : (d : Direction) → ¬ (only_some_direction (parse_bare_direction "") ≡ some d)
unfolding parse_bare_direction
no_stamp d h = cc h

text-IsStamp :
    (o : Option String) (unmarked : Bool) (d : Direction)
    → (if unmarked then none else only_some_direction (parse_bare_direction (or_else o "")))
      ≡ some d
    → (o ≡ some (text d)) × IsStamp d
text-IsStamp o true d h = absurd (cc h)
text-IsStamp none false d h = absurd (no_stamp d h)
text-IsStamp (some v) false d h =
    let (parsed, other) = only_some_direction-some (parse_bare_direction v) d h in
    let (is_text, is_bare) = (parse_bare_direction-text v d).0 parsed in
    (ap some is_text, (is_bare, other))

stamped_direction-IsStamp :
    (p : Pod) (key : String) (d : Direction)
    → stamped_direction p key ≡ some d
    → (lookup key p.labels ≡ some (text d)) × IsStamp d
unfolding stamped_direction
stamped_direction-IsStamp p key d h =
    text-IsStamp (lookup key p.labels) (value_at annotation_resolved_generation p.annotations == "")
      d h

-- What a stamp's text says to the selectors.
holds_receiver :
    (d : Direction) (key : String) (labels : Labels)
    → lookup key labels ≡ some (text d)
    → is_default d ≡ false
    → holds self_values_receiver key labels ≡ accepts d
unfolding accepts text is_default bare
holds_receiver Direction.both key labels h plain = rw (holds, h) refl
holds_receiver Direction.ingress key labels h plain = rw (holds, h) refl
holds_receiver Direction.egress key labels h plain = rw (holds, h) refl
holds_receiver Direction.none key labels h plain = rw (holds, h) refl
holds_receiver Direction.default_both key labels h plain = absurd (cc plain)
holds_receiver Direction.default_ingress key labels h plain = absurd (cc plain)
holds_receiver Direction.default_egress key labels h plain = absurd (cc plain)
holds_receiver Direction.default_none key labels h plain = absurd (cc plain)

holds_initiator :
    (d : Direction) (key : String) (labels : Labels)
    → lookup key labels ≡ some (text d)
    → is_default d ≡ false
    → holds peer_initiator_values key labels ≡ initiates d
unfolding initiates text is_default bare
holds_initiator Direction.both key labels h plain = rw (holds, h) refl
holds_initiator Direction.ingress key labels h plain = rw (holds, h) refl
holds_initiator Direction.egress key labels h plain = rw (holds, h) refl
holds_initiator Direction.none key labels h plain = rw (holds, h) refl
holds_initiator Direction.default_both key labels h plain = absurd (cc plain)
holds_initiator Direction.default_ingress key labels h plain = absurd (cc plain)
holds_initiator Direction.default_egress key labels h plain = absurd (cc plain)
holds_initiator Direction.default_none key labels h plain = absurd (cc plain)

is_nil_of_any :
    (name : String) (names : List String) → any (λ n. n == name) names ≡ true → is_nil names ≡ false
is_nil_of_any name [] h = absurd (cc h)
is_nil_of_any name (n ∷ names) h = refl

-- A member that receives makes its namespace one with a receiver, and so for initiators.
has_receiver_of_member :
    (ns name : String) (d : Direction) (m : MembersByNs)
    → is_member ns d name m ≡ true
    → is_default d ≡ false
    → (has_receiver (members_of m ns) && accepts d) ≡ accepts d
unfolding has_receiver accepts bare is_default
has_receiver_of_member ns name Direction.both m h plain =
    let there = is_nil_of_any name (bucket Direction.both (members_of m ns)) h in
    ground (arith, there)
has_receiver_of_member ns name Direction.ingress m h plain =
    let there = is_nil_of_any name (bucket Direction.ingress (members_of m ns)) h in
    ground (arith, there)
has_receiver_of_member ns name d m h plain = ground (arith, plain)

has_initiator_of_member :
    (ns name : String) (d : Direction) (m : MembersByNs)
    → is_member ns d name m ≡ true
    → is_default d ≡ false
    → (has_initiator (members_of m ns) && initiates d) ≡ initiates d
unfolding has_initiator initiates bare is_default
has_initiator_of_member ns name Direction.both m h plain =
    let there = is_nil_of_any name (bucket Direction.both (members_of m ns)) h in
    ground (arith, there)
has_initiator_of_member ns name Direction.egress m h plain =
    let there = is_nil_of_any name (bucket Direction.egress (members_of m ns)) h in
    ground (arith, there)
has_initiator_of_member ns name d m h plain = ground (arith, plain)

-- The pod as a policy sees it.
abbrev pub endpoint : Pod → Labels → Endpoint
endpoint p namespace_labels = record {
  namespace = p.namespace;
  namespace_labels = namespace_labels;
  labels = p.labels;
}

module _ (c : Cluster) (filter : NamespaceFilter) (vnet : VirtualNetwork) (hash8 : String → String)
    (matches : LabelSelector → Labels → Bool)
    (matches_in : (key : String) (values : List String) (labels : Labels)
      → matches (in_values key values) labels ≡ holds values key labels) where
  abbrev key : String
  key = system_label_key vnet.namespace vnet.name

  belongs_itself :
      (p : Pod) (d : Direction)
      → stamped_direction p key ≡ some d
      → is_eligible c filter vnet p.namespace ≡ true
      → belongs c filter vnet p.namespace d p.name p ≡ true
  belongs_itself p d stamped eligible =
      rw stamped (ground (arith, eligible, beq_refl p.namespace, beq_refl p.name, beq_refl d))

  any-Memᴰ :
      (test : Pod → Bool) (p : Pod) (pods : List Pod)
      → Memᴰ p pods
      → test p ≡ true
      → any test pods ≡ true
  any-Memᴰ test p [] listed h = elim listed [ ]
  any-Memᴰ test p (q ∷ pods) (Memᴰ.head same) h = rw (← same) (rw h refl)
  any-Memᴰ test p (q ∷ pods) (Memᴰ.tail rest) h =
      let there = any-Memᴰ test p pods rest h in ground (arith, there)

  module _ (pods : List Pod) (members : MembersByNs) (invalid : List InvalidJoiner)
      (discovers : discover_members c filter vnet (ok pods) ≡ ok (members, invalid)) where
    is_member_itself :
        (p : Pod) (d : Direction)
        → Memᴰ p pods
        → stamped_direction p key ≡ some d
        → is_eligible c filter vnet p.namespace ≡ true
        → is_member p.namespace d p.name members ≡ true
    is_member_itself p d listed stamped eligible =
        is_member-discover_members c filter vnet pods p.namespace d p.name members invalid discovers
        ∙ any-Memᴰ (belongs c filter vnet p.namespace d p.name) p pods listed
            (belongs_itself p d stamped eligible)

    -- The policies generated for the discovered members admit traffic from one listed pod to another
    -- exactly where the direction that the destination is stamped with accepts and the direction that
    -- the source is stamped with initiates, where both are resolved, in namespaces that are managed
    -- and admitted, and selectors mean what the API documents.
    pub admits-discover_members :
        (p q : Pod) (d e : Direction) (p_labels q_labels : Labels)
        → Memᴰ p pods
        → Memᴰ q pods
        → stamped_direction p key ≡ some d
        → stamped_direction q key ≡ some e
        → is_eligible c filter vnet p.namespace ≡ true
        → is_eligible c filter vnet q.namespace ≡ true
        → ((ns : String) → matches (named_namespace ns) q_labels ≡ (ns == q.namespace))
        → admits matches
            (generate hash8 (record { vnet = vnet; members_by_ns = members }))
            (endpoint p p_labels)
            (endpoint q q_labels)
          ≡ (accepts d && initiates e)
    admits-discover_members p q d e p_labels q_labels lp lq sp sq ep eq named =
        let (tp, is_stamp_p) = stamped_direction-IsStamp p key d sp in
        let (tq, is_stamp_q) = stamped_direction-IsStamp q key e sq in
        admits-generate matches matches_in (endpoint p p_labels) (endpoint q q_labels) named hash8
          (record { vnet = vnet; members_by_ns = members })
        ∙ ground (
          arith,
          holds_receiver d key p.labels tp is_stamp_p.0,
          holds_initiator e key q.labels tq is_stamp_q.0,
          has_receiver_of_member p.namespace p.name d members (is_member_itself p d lp sp ep)
              is_stamp_p.0,
          has_initiator_of_member q.namespace q.name e members (is_member_itself q e lq sq eq)
              is_stamp_q.0,
        )
