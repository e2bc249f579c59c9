-- ===== src/Permits/Admission.antt =====
-- Who is admitted: the meaning of `spec.allowedNamespaces` (virtualnetwork_types.go).
use kube_vnet.Prelude.{
  String, ◌≡◌, refl, ◌↔◌, inl, inr, Bool, true, false, Option, none, some, arith, ◌==◌, beq→eq,
  string_eq, any, Bool-cases,
}
use kube_vnet.Effects.{ok, Fetch, found, not_found, failed}
use kube_vnet.Objects.{Labels, LabelSelector, NamespaceSelector, VirtualNetwork, Namespace}
use kube_vnet.Cluster.{Cluster}
use kube_vnet.Permits.{match_labels, matches_selector, matches_allowed_namespaces, permits_for_vnet}

module _ (c : Cluster) where
  -- The documented union: the home namespace, `all`, `names`, or a selector that the namespace's
  -- labels match.
  pub data Admitted (v : VirtualNetwork) (ns : String) : Type 0 where
    home : ns ≡ v.namespace → Admitted v ns
    by_all : (s : NamespaceSelector) → v.allowed_namespaces ≡ some s → s.all ≡ true → Admitted v ns
    by_name :
        (s : NamespaceSelector)
        → v.allowed_namespaces ≡ some s
        → any (λ n. n == ns) s.names ≡ true
        → Admitted v ns
    by_labels :
        (s : NamespaceSelector) (sel : LabelSelector) (matches : Labels → Bool) (obj : Namespace)
        → v.allowed_namespaces ≡ some s
        → s.selector ≡ some sel
        → c.as_selector sel ≡ some matches
        → c.get_namespace ns ≡ found obj
        → matches obj.labels ≡ true
        → Admitted v ns

  module _ (v : VirtualNetwork) (ns : String) where
    Admitted-by_match :
        (s : NamespaceSelector) (sel : LabelSelector) (o : Option (Labels → Bool))
        (f : Fetch Namespace)
        → v.allowed_namespaces ≡ some s
        → s.selector ≡ some sel
        → c.as_selector sel ≡ o
        → c.get_namespace ns ≡ f
        → elim o [ none ↦ ok false | some m ↦ match_labels m f ] ≡ ok true
        → Admitted v ns
    unfolding match_labels
    Admitted-by_match s sel none f hs hsel ho hf h = absurd (cc h)
    Admitted-by_match s sel (some m) not_found hs hsel ho hf h = absurd (cc h)
    Admitted-by_match s sel (some m) (failed e) hs hsel ho hf h = absurd (cc h)
    Admitted-by_match s sel (some m) (found obj) hs hsel ho hf h =
        by_labels s sel m obj hs hsel ho hf (ground arith)

    Admitted-by_selector :
        (s : NamespaceSelector) (o : Option LabelSelector)
        → v.allowed_namespaces ≡ some s
        → s.selector ≡ o
        → matches_selector c o ns ≡ ok true
        → Admitted v ns
    unfolding matches_selector
    Admitted-by_selector s none hs ho h = absurd (cc h)
    Admitted-by_selector s (some sel) hs ho h =
        Admitted-by_match s sel (c.as_selector sel) (c.get_namespace ns) hs ho refl refl h

    Admitted-by_allowed :
        (o : Option NamespaceSelector)
        → v.allowed_namespaces ≡ o
        → matches_allowed_namespaces c o ns ≡ ok true
        → Admitted v ns
    unfolding matches_allowed_namespaces
    Admitted-by_allowed none ho h = absurd (cc h)
    Admitted-by_allowed (some s) ho h = elim (Bool-cases s.all) [
      | inl e ↦ by_all s ho e
      | inr e ↦ elim (Bool-cases (any (λ n. n == ns) s.names)) [
        | inl e' ↦ by_name s ho e'
        | inr e' ↦ Admitted-by_selector s s.selector ho refl (ground arith)
      ]
    ]

    Admitted-of_permits : permits_for_vnet c (some v) ns ≡ ok true → Admitted v ns
    unfolding permits_for_vnet
    Admitted-of_permits h = elim (Bool-cases (ns == v.namespace)) [
      | inl e ↦ home (beq→eq ns v.namespace e)
      | inr e ↦ Admitted-by_allowed v.allowed_namespaces refl (ground arith)
    ]

    permits_of_Admitted : Admitted v ns → permits_for_vnet c (some v) ns ≡ ok true
    unfolding permits_for_vnet matches_allowed_namespaces matches_selector
    permits_of_Admitted (home e) = ground (arith, string_eq.beq_iff ns v.namespace)
    permits_of_Admitted (by_all s hs e) = ground arith
    permits_of_Admitted (by_name s hs e) = ground arith
    permits_of_Admitted (by_labels s sel m obj hs hsel ho hf e) = ground arith

  -- A namespace is permitted exactly when the vnet admits it.
  pub permits_for_vnet_iff :
      (v : VirtualNetwork) (ns : String)
      → (permits_for_vnet c (some v) ns ≡ ok true) ↔ Admitted v ns
  permits_for_vnet_iff v ns = (Admitted-of_permits v ns, permits_of_Admitted v ns)
