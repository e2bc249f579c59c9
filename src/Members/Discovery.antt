-- ===== src/Members/Discovery.antt =====
-- The members that are found are the stamped pods of eligible namespaces.
use kube_vnet.Prelude.{
  String, ◌≡◌, refl, sym, ap, ◌∙◌, inl, inr, Bool, true, false, not, ◌&&◌, ◌||◌, Option, none, some,
  List, [], ◌∷◌, ◌++◌, arith, if◌then◌else◌, ◌==◌, string_eq, beq→eq, any, any-append, or_else, Map,
  lookup, insert, lookup-insert, Bool-cases,
}
use kube_vnet.Effects.{Result, ok, err, Fetch, found, not_found, failed, ◌>>=◌}
use kube_vnet.Objects.{VirtualNetwork, Namespace, Pod}
use kube_vnet.Cluster.{Cluster}
use kube_vnet.Direction.{Direction, direction_eq}
use kube_vnet.Keys.{system_label_key}
use kube_vnet.Namespaces.{
  NamespaceFilter, annotation_disabled, value_at, is_managed, managed_fetch, manages,
}
use kube_vnet.Permits.{permits_for_vnet}
use kube_vnet.Generator.{MembersByNs, bucket, members_of}
use kube_vnet.Members.{
  InvalidJoiner, reason_namespace_excluded, reason_namespace_not_allowed, stamped_direction,
  add_member, ineligible, judge_joiner, eligible_only, member_for, judge_member, add_if,
  discover_among, discover_members,
}

-- The pod is among the members of a namespace in a direction.
abbrev pub is_member : String → Direction → String → MembersByNs → Bool
is_member ns d name m = any (λ n. n == name) (bucket d (members_of m ns))

bind_ok :
    {A B : Type 0} (r : Result A) (f : A → Result B) (b : B)
    → (r >>= f) ≡ ok b
    → (a : A) × (r ≡ ok a) × (f a ≡ ok b)
bind_ok (ok a) f b h = (a, refl, h)
bind_ok (err e) f b h = absurd (cc h)

ok-pair :
    (m n : MembersByNs) (bad worse : List InvalidJoiner)
    → Path (Result (MembersByNs × List InvalidJoiner)) (ok (m, bad)) (ok (n, worse))
    → m ≡ n
ok-pair m n bad worse h = ground arith

bucket-insert :
    (d e : Direction) (names : List String) (by_dir : Map Direction (List String))
    → bucket e (insert d names by_dir) ≡ (if d == e then names else bucket e by_dir)
bucket-insert d e names by_dir =
    ap (λ (o : Option (List String)). or_else o []) (lookup-insert d e names by_dir) ∙ ground arith

members_of-insert :
    (ms ns : String) (by_dir : Map Direction (List String)) (m : MembersByNs)
    → members_of (insert ms by_dir m) ns ≡ (if ms == ns then by_dir else members_of m ns)
members_of-insert ms ns by_dir m =
    ap (λ (o : Option (Map Direction (List String))). or_else o []) (lookup-insert ms ns by_dir m)
    ∙ ground arith

has-bucket-append :
    (d e : Direction) (added name : String) (by_dir : Map Direction (List String))
    → any (λ n. n == name) (bucket e (insert d (bucket d by_dir ++ (added ∷ [])) by_dir))
      ≡ (any (λ n. n == name) (bucket e by_dir) || (d == e && added == name))
has-bucket-append d e added name by_dir = elim (Bool-cases (d == e)) [
  | inl same ↦
      ap (any (λ n. n == name)) (bucket-insert d e (bucket d by_dir ++ (added ∷ [])) by_dir)
      ∙ ground (
        arith,
        same,
        any-append (λ n. n == name) (bucket d by_dir) (added ∷ []),
        ap (λ x. any (λ n. n == name) (bucket x by_dir)) (beq→eq d e same),
      )
  | inr other ↦
      ap (any (λ n. n == name)) (bucket-insert d e (bucket d by_dir ++ (added ∷ [])) by_dir)
      ∙ ground (arith, other)
]

abbrev grown : String → Direction → String → MembersByNs → Map Direction (List String)
grown ms d added m = insert d (bucket d (members_of m ms) ++ (added ∷ [])) (members_of m ms)

is_member-add_member :
    (ms ns : String) (d e : Direction) (added name : String) (m : MembersByNs)
    → is_member ns e name (add_member ms d added m)
      ≡ (is_member ns e name m || (ms == ns && (d == e && added == name)))
unfolding add_member
is_member-add_member ms ns d e added name m = elim (Bool-cases (ms == ns)) [
  | inl same ↦
      ap (λ x. any (λ n. n == name) (bucket e x)) (members_of-insert ms ns (grown ms d added m) m)
      ∙ ground (
        arith,
        same,
        has-bucket-append d e added name (members_of m ms),
        ap (λ x. is_member x e name m) (beq→eq ms ns same),
      )
  | inr other ↦
      ap (λ x. any (λ n. n == name) (bucket e x)) (members_of-insert ms ns (grown ms d added m) m)
      ∙ ground (arith, other)
]

module _ (c : Cluster) (filter : NamespaceFilter) (vnet : VirtualNetwork) where
  abbrev is_true : Result Bool → Bool
  is_true (ok b) = b
  is_true (err e) = false

  -- The namespace is there, not excluded by name, and not disabled by its annotation.
  abbrev pub is_enabled : Fetch Namespace → Bool
  is_enabled not_found = false
  is_enabled (failed e) = false
  is_enabled (found ns) =
      not (any (λ n. n == ns.name) filter.excluded)
      && not (value_at annotation_disabled ns.annotations == "true")

  -- The namespace is managed and the vnet permits it.
  abbrev pub is_eligible : String → Bool
  is_eligible ns = is_enabled (c.get_namespace ns) && is_true (permits_for_vnet c (some vnet) ns)

  -- No reason speaks against the namespace's pods.
  abbrev is_clear : Result (Option String) → Bool
  is_clear (err e) = false
  is_clear (ok none) = true
  is_clear (ok (some reason)) = false

  is_true-manages : (ns : String) → is_true (manages filter c ns) ≡ is_enabled (c.get_namespace ns)
  unfolding manages
  is_true-manages ns = by_fetch (c.get_namespace ns)
    where
      by_fetch : (f : Fetch Namespace) → is_true (managed_fetch filter f) ≡ is_enabled f
      by_fetch not_found = unfold managed_fetch in refl
      by_fetch (failed e) = unfold managed_fetch in refl
      by_fetch (found obj) = unfold managed_fetch in unfold is_managed in refl

  is_clear-cases :
      (m p : Result Bool)
      → is_clear (
          m >>= λ managed.
          if managed
          then (p >>= λ admitted. ok (if admitted then none else some reason_namespace_not_allowed))
          else ok (some reason_namespace_excluded))
        ≡ (is_true m && is_true p)
  is_clear-cases (err e) p = refl
  is_clear-cases (ok false) p = refl
  is_clear-cases (ok true) (err e) = refl
  is_clear-cases (ok true) (ok true) = refl
  is_clear-cases (ok true) (ok false) = refl

  is_clear-ineligible : (ns : String) → is_clear (ineligible c filter vnet ns) ≡ is_eligible ns
  unfolding ineligible
  is_clear-ineligible ns =
      is_clear-cases (manages filter c ns) (permits_for_vnet c (some vnet) ns)
      ∙ ap (λ b. b && is_true (permits_for_vnet c (some vnet) ns)) (is_true-manages ns)

  abbrev same_direction : Option Direction → Direction → Bool
  same_direction none e = false
  same_direction (some d) e = d == e

  -- The pod is resolved and stamped with the direction, in an eligible namespace.
  abbrev pub belongs : String → Direction → String → Pod → Bool
  belongs ns e name p =
      p.namespace == ns
      && (p.name == name
          && (same_direction (stamped_direction p (system_label_key vnet.namespace vnet.name)) e
              && is_eligible p.namespace))

  module _ (ns : String) (e : Direction) (name : String) where
    eligible-direction :
        (p : Pod) (d : Direction) (r : Result (Option String)) (o : Option Direction)
        → eligible_only c filter vnet d r ≡ ok o
        → same_direction o e ≡ (d == e && is_clear r)
    eligible-direction p d (err x) o h = absurd (cc h)
    eligible-direction p d (ok none) o h = ground arith
    eligible-direction p d (ok (some reason)) o h = ground arith

    member-direction :
        (p : Pod) (stamp o : Option Direction)
        → member_for c filter vnet p.namespace stamp ≡ ok o
        → same_direction o e ≡ (same_direction stamp e && is_eligible p.namespace)
    member-direction p none o h = ground arith
    member-direction p (some d) o h =
        eligible-direction p d (ineligible c filter vnet p.namespace) o h
        ∙ ap (λ b. d == e && b) (is_clear-ineligible p.namespace)

    is_member-add_if :
        (p : Pod) (o : Option Direction) (m : MembersByNs)
        → is_member ns e name (add_if c filter vnet p o m)
          ≡ (is_member ns e name m || (p.namespace == ns && (same_direction o e && p.name == name)))
    is_member-add_if p none m = ground arith
    is_member-add_if p (some d) m = is_member-add_member p.namespace ns d e p.name name m

    judged-direction :
        (p : Pod) (o : Option Direction)
        → judge_member c filter vnet p ≡ ok o
        → same_direction o e ≡ (
            same_direction (stamped_direction p (system_label_key vnet.namespace vnet.name)) e
            && is_eligible p.namespace)
    unfolding judge_member
    judged-direction p o h =
        member-direction p (stamped_direction p (system_label_key vnet.namespace vnet.name)) o h

    discovered :
        (ps : List Pod) (m : MembersByNs) (bad : List InvalidJoiner) (members : MembersByNs)
        (invalid : List InvalidJoiner)
        → discover_among c filter vnet ps m bad ≡ ok (members, invalid)
        → is_member ns e name members ≡ (is_member ns e name m || any (belongs ns e name) ps)
    unfolding discover_among
    discovered [] m bad members invalid h =
        ap (λ (x : MembersByNs). is_member ns e name x) (sym (ok-pair m members bad invalid h))
        ∙ ground arith
    discovered (p ∷ ps) m bad members invalid h =
        let (worse, judged, h1) = bind_ok (judge_joiner c filter vnet p) _ (members, invalid) h in
        let (d, direction, h2) = bind_ok (judge_member c filter vnet p) _ (members, invalid) h1 in
        let rest = discovered ps (add_if c filter vnet p d m) (bad ++ worse) members invalid h2 in
        rest ∙ ground (arith, is_member-add_if p d m, judged-direction p d direction)

  -- A pod's name stands among the discovered members of a namespace, in a direction, exactly where
  -- some listed pod of that name there is resolved and stamped with that direction, its namespace is
  -- there, not excluded by name and not disabled by annotation, and the vnet permits it.
  pub is_member-discover_members :
      (pods : List Pod) (ns : String) (e : Direction) (name : String) (members : MembersByNs)
      (invalid : List InvalidJoiner)
      → discover_members c filter vnet (ok pods) ≡ ok (members, invalid)
      → is_member ns e name members ≡ any (belongs ns e name) pods
  unfolding discover_members lookup
  is_member-discover_members pods ns e name members invalid h =
      discovered ns e name pods [] [] members invalid h
