-- ===== src/Networks/Generated.antt =====
-- The generated policies of a vnet stand under one key each (policy_generator.go, `Generate`).
use kube_vnet.Prelude.{
  String, ◌≡◌, refl, sym, ap, ◌∙◌, inl, inr, some, List, [], ◌∷◌, arith, ◌==◌, string_eq, beq→eq,
  All, Bool-cases,
}
use kube_vnet.Objects.{ObjectKey, object_key_eq, VirtualNetwork, NetworkPolicyPeer, NetworkPolicy}
use kube_vnet.Keys.{system_label_key}
use kube_vnet.Generator.{
  MembersByNs, GenerateInput, has_receiver, members_of, member_namespaces, peer_froms,
  membership_policy, policies_in, generate,
}
use kube_vnet.Sweep.{key_of}
use kube_vnet.Networks.Applying.{Agrees, wanted}

All-first? :
    (P : NetworkPolicy → Type 0) (k : ObjectKey) (ds : List NetworkPolicy) (d : NetworkPolicy)
    → All P ds
    → wanted k ds ≡ some d
    → P d × (key_of d ≡ k)
All-first? P k [] d h there = absurd (cc there)
All-first? P k (p ∷ ds) d h there = elim (Bool-cases (key_of p == k)) [
  | inl same ↦
      let first : p ≡ d = ground (arith, same, there) in
      (rw (← first) h.0, ap key_of (sym first) ∙ beq→eq (key_of p) k same)
  | inr other ↦ All-first? P k ds d h.1 (ground (arith, other, there))
]

module _ (hash8 : String → String) (vnet : VirtualNetwork) (key : String)
    (froms : List NetworkPolicyPeer) where
  abbrev IsPolicy : NetworkPolicy → Type 0
  IsPolicy p = p ≡ membership_policy hash8 vnet key froms p.namespace

  policies_in-IsPolicy :
      (m : MembersByNs) (nss : List String) → All IsPolicy (policies_in hash8 vnet m key froms nss)
  unfolding policies_in membership_policy
  policies_in-IsPolicy m [] = tt
  policies_in-IsPolicy m (ns ∷ nss) = elim (Bool-cases (has_receiver (members_of m ns))) [
    | inl e ↦ rw e ((refl, policies_in-IsPolicy m nss))
    | inr e ↦ rw e (policies_in-IsPolicy m nss)
  ]

  agree :
      (d : NetworkPolicy) (ds : List NetworkPolicy)
      → IsPolicy d
      → All IsPolicy ds
      → All (Agrees d) ds
  agree d [] h hs = tt
  agree d (p ∷ ds) h hs = (
    λ same.
        let spaces : p.namespace ≡ d.namespace =
          ap (λ (k : ObjectKey). k.namespace) (beq→eq (key_of p) (key_of d) same) in
        hs.0 ∙ ap (membership_policy hash8 vnet key froms) spaces ∙ sym h,
    agree d ds h hs.1,
  )

-- A generated policy under a key is the only one there.
pub generate-Agrees :
    (hash8 : String → String) (input : GenerateInput) (k : ObjectKey) (d : NetworkPolicy)
    → wanted k (generate hash8 input) ≡ some d
    → (key_of d ≡ k) × All (Agrees d) (generate hash8 input)
unfolding generate
generate-Agrees hash8 input k d there =
    let key = system_label_key input.vnet.namespace input.vnet.name in
    let nss = member_namespaces input.members_by_ns in
    let froms = peer_froms input.members_by_ns key nss in
    let all = policies_in-IsPolicy hash8 input.vnet key froms input.members_by_ns nss in
    let (is_policy, at) =
      All-first? (IsPolicy hash8 input.vnet key froms) k (generate hash8 input) d all there in
    (at, agree hash8 input.vnet key froms d (generate hash8 input) is_policy all)
