-- ===== src/Generator/Reach.antt =====
-- Which traffic the generated membership policies admit.
use kube_vnet.Prelude.{
  String, ◌≡◌, refl, sym, ap, ◌∙◌, Bool, true, false, not, ◌&&◌, ◌||◌, Option, none, some, List, [],
  ◌∷◌, arith, ◌==◌, string_eq, is_nil, any, Map, lookup,
}
use kube_vnet.Prelude.Sorting.{sort, any-sort}
use kube_vnet.Objects.{
  Labels, LabelSelector, VirtualNetwork, NetworkPolicyPeer, NetworkPolicyIngressRule, NetworkPolicy,
}
use kube_vnet.Direction.{Direction, direction_eq}
use kube_vnet.Keys.{system_label_key}
use kube_vnet.Resolution.{by_text}
use kube_vnet.Generator.{
  MembersByNs, GenerateInput, self_values_receiver, peer_initiator_values, bucket, has_receiver,
  has_initiator, members_of, with_pods, member_namespaces, in_values, named_namespace, peer_froms,
  ingress_of, membership_policy, policies_in, generate,
}

-- A member namespace is one with a pod; the groups of a namespace are those of its first entry.
bucket-any :
    (d : Direction) (by_dir : Map Direction (List String))
    → is_nil (bucket d by_dir) ≡ false
    → any (λ (_, pods). not (is_nil pods)) by_dir ≡ true
unfolding lookup
bucket-any d [] h = absurd (cc h)
bucket-any d ((e, pods) ∷ m) h = ground (arith, bucket-any d m)

module _ (f : Map Direction (List String) → Bool)
    (f_any : (m : Map Direction (List String))
      → f m ≡ true
      → any (λ (_, pods). not (is_nil pods)) m ≡ true) where
  -- A test that only namespaces with pods pass finds them among the member namespaces.
  any_at :
      (m : MembersByNs) (ns : String) (nss : List String)
      → any (λ n. n == ns && f (members_of m n)) nss
        ≡ (any (λ n. n == ns) nss && f (members_of m ns))
  any_at m ns [] = refl
  any_at m ns (n ∷ nss) = ground (
    arith,
    any_at m ns nss,
    ap (λ x. f (members_of m x)) {x = n} {y = ns},
    string_eq.beq_iff n ns,
  )

  with_pods-any :
      (m : MembersByNs) (ns : String)
      → f (members_of m ns) ≡ true
      → any (λ n. n == ns) (with_pods m) ≡ true
  unfolding with_pods lookup
  with_pods-any [] ns h = absurd (cc (sym (f_any [] h)))
  with_pods-any ((n, by_dir) ∷ m) ns h = ground (arith, with_pods-any m ns, f_any by_dir)

  any_member :
      (m : MembersByNs) (ns : String)
      → any (λ n. n == ns && f (members_of m n)) (member_namespaces m) ≡ f (members_of m ns)
  unfolding member_namespaces
  any_member m ns =
      any_at m ns (sort by_text (with_pods m))
      ∙ ground (arith, any-sort by_text (λ n. n == ns) (with_pods m), with_pods-any m ns)

has_receiver-any :
    (m : Map Direction (List String))
    → has_receiver m ≡ true
    → any (λ (_, pods). not (is_nil pods)) m ≡ true
unfolding has_receiver
has_receiver-any m h = ground (arith, bucket-any Direction.both m, bucket-any Direction.ingress m)

has_initiator-any :
    (m : Map Direction (List String))
    → has_initiator m ≡ true
    → any (λ (_, pods). not (is_nil pods)) m ≡ true
unfolding has_initiator
has_initiator-any m h = ground (arith, bucket-any Direction.both m, bucket-any Direction.egress m)

-- A pod as a NetworkPolicy sees it.
pub record Endpoint : Type 0 where
  pub namespace : String
  pub namespace_labels : Labels
  pub labels : Labels

-- Whether a label has one of the values.
abbrev pub holds : List String → String → Labels → Bool
holds values key labels = elim (lookup key labels) [
  | none ↦ false
  | some v ↦ any (λ w. w == v) values
]

-- The semantics of ingress rules, over the meaning of selectors.
module _ (matches : LabelSelector → Labels → Bool) where
  abbrev selected : Option LabelSelector → Bool → Labels → Bool
  selected none b labels = b
  selected (some s) b labels = matches s labels

  abbrev peer_admits : String → Endpoint → NetworkPolicyPeer → Bool
  peer_admits ns src peer = elim peer.ip_block [
    | some _ ↦ false
    | none ↦
        selected peer.namespace_selector (ns == src.namespace) src.namespace_labels
        && selected peer.pod_selector true src.labels
  ]

  abbrev rule_admits : String → Endpoint → NetworkPolicyIngressRule → Bool
  rule_admits ns src rule = is_nil rule.from || any (peer_admits ns src) rule.from

  abbrev policy_admits : Endpoint → Endpoint → NetworkPolicy → Bool
  policy_admits dst src p =
      p.namespace == dst.namespace
      && (matches p.spec.pod_selector dst.labels
          && any (rule_admits p.namespace src) p.spec.ingress)

  -- Some policy selects the destination and has a rule for the source.
  abbrev pub admits : List NetworkPolicy → Endpoint → Endpoint → Bool
  admits policies dst src = any (policy_admits dst src) policies

  module _
      (matches_in : (key : String) (values : List String) (labels : Labels)
        → matches (in_values key values) labels ≡ holds values key labels)
      (dst src : Endpoint)
      (matches_name : (ns : String)
        → matches (named_namespace ns) src.namespace_labels ≡ (ns == src.namespace)) where
    any-peer_froms :
        (m : MembersByNs) (key p_ns : String) (nss : List String)
        → any (peer_admits p_ns src) (peer_froms m key nss) ≡ (
            any (λ n. n == src.namespace && has_initiator (members_of m n)) nss
            && holds peer_initiator_values key src.labels)
    unfolding peer_froms
    any-peer_froms m key p_ns [] = refl
    any-peer_froms m key p_ns (n ∷ nss) = ground (
      arith,
      any-peer_froms m key p_ns nss,
      matches_in key peer_initiator_values src.labels,
      matches_name n,
    )

    any-ingress_of :
        (p_ns : String) (froms : List NetworkPolicyPeer)
        → any (rule_admits p_ns src) (ingress_of froms) ≡ any (peer_admits p_ns src) froms
    unfolding ingress_of
    any-ingress_of p_ns [] = refl
    any-ingress_of p_ns (p ∷ ps) = ground arith

    any-policies_in :
        (hash8 : String → String) (vnet : VirtualNetwork) (m : MembersByNs) (key : String)
        (froms : List NetworkPolicyPeer) (found : Bool) (nss : List String)
        → ((p_ns : String) → any (peer_admits p_ns src) froms ≡ found)
        → any (policy_admits dst src) (policies_in hash8 vnet m key froms nss) ≡ (
            any (λ n. n == dst.namespace && has_receiver (members_of m n)) nss
            && (holds self_values_receiver key dst.labels && found))
    unfolding policies_in membership_policy
    any-policies_in hash8 vnet m key froms found [] h = refl
    any-policies_in hash8 vnet m key froms found (n ∷ nss) h = ground (
      arith,
      any-policies_in hash8 vnet m key froms found nss h,
      matches_in key self_values_receiver dst.labels,
      any-ingress_of n froms,
      h n,
    )

    -- The generated policies admit traffic between two pods exactly where the destination's
    -- namespace has a receiver and its stamp says both or ingress, and the source's namespace has an
    -- initiator and its stamp says both or egress; for selectors that mean what the API documents.
    pub admits-generate :
        (hash8 : String → String) (input : GenerateInput)
        → admits (generate hash8 input) dst src ≡ (
            (has_receiver (members_of input.members_by_ns dst.namespace)
              && holds self_values_receiver
                  (system_label_key input.vnet.namespace input.vnet.name)
                  dst.labels)
            && (has_initiator (members_of input.members_by_ns src.namespace)
                && holds peer_initiator_values
                    (system_label_key input.vnet.namespace input.vnet.name)
                    src.labels))
    unfolding generate
    admits-generate hash8 input =
        let m = input.members_by_ns in
        let key = system_label_key input.vnet.namespace input.vnet.name in
        let nss = member_namespaces m in
        let froms = λ (p_ns : String). any-peer_froms m key p_ns nss in
        any-policies_in hash8 input.vnet m key (peer_froms m key nss) _ nss froms
        ∙ ground (
          arith,
          any_member has_receiver has_receiver-any m dst.namespace,
          any_member has_initiator has_initiator-any m src.namespace,
        )
