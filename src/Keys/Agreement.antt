-- ===== src/Keys/Agreement.antt =====
-- The names of one vnet agree: what resolution stamps is what the generator selects.
use Prim.Native.String.{◌++◌}
use kube_vnet.Prelude.{
  String, ◌≡◌, ◌≢◌, refl, ap, true, false, none, some, ◌==◌, string_eq, beq_of_ne, Bool-cases, inl,
  inr,
}
use kube_vnet.Prelude.Texts.{cut_dot, has_dot, cut_dot-join}
use kube_vnet.Keys.{
  system_vnet_cluster, label_system_net_prefix, split_vnet_key, canonical_vnet_key,
  stamped_vnet_key, canonical_suffix, system_label_key,
}

-- A name that a Kubernetes namespace or a vnet can have: not empty, and without a dot.
pub record IsName (s : String) : Type 0 where
  pub is_not_empty : s ≢ ""
  pub has_no_dot : has_dot s ≡ false

-- A text with a dot is not one without.
pub ne_of_cut :
    (k t : String) {p : String × String} → cut_dot k ≡ some p → cut_dot t ≡ none → (k == t) ≡ false
ne_of_cut k t found missed = beq_of_ne k t (λ e. cc (found, missed, ap cut_dot e))

has_dot_of_cut : (k : String) {p : String × String} → cut_dot k ≡ some p → has_dot k ≡ true
unfolding has_dot
has_dot_of_cut k found = rw found

-- A qualified key splits into the names that it was joined from.
pub split_vnet_key-join :
    (home_ns name : String)
    → IsName home_ns
    → IsName name
    → split_vnet_key (home_ns ++ "." ++ name) ≡ some (home_ns, name)
unfolding split_vnet_key
split_vnet_key-join home_ns name h n =
    let cut = cut_dot-join home_ns name h.has_no_dot in
    let key = home_ns ++ "." ++ name in
    rw (
      ne_of_cut key "" cut (unfold cut_dot in refl),
      ne_of_cut key "cluster" cut (unfold cut_dot in refl),
      cut,
      beq_of_ne home_ns "" h.is_not_empty,
      beq_of_ne name "" n.is_not_empty,
    )

-- The stamp of a vnet's qualified key is the key that the generator's selectors name.
pub stamped-eq-system_label_key :
    (home_ns name : String)
    → IsName home_ns
    → IsName name
    → label_system_net_prefix ++ stamped_vnet_key (home_ns ++ "." ++ name)
      ≡ system_label_key home_ns name
unfolding stamped_vnet_key system_label_key
stamped-eq-system_label_key home_ns name h n =
    rw (split_vnet_key-join home_ns name h n)
      (elim (Bool-cases (name == system_vnet_cluster)) [ inl e ↦ rw e | inr e ↦ rw e ])

-- A reference and a join label name a vnet alike: with its namespace, and without it in the pod's.
canonical_suffix-eq-canonical_vnet_key :
    (home_ns name pod_ns : String)
    → IsName home_ns
    → IsName name
    → (canonical_suffix (home_ns ++ "." ++ name) pod_ns
        ≡ canonical_vnet_key (record { name = name; namespace = home_ns }) pod_ns)
      × (canonical_suffix name pod_ns
          ≡ canonical_vnet_key (record { name = name; namespace = "" }) pod_ns)
unfolding canonical_suffix canonical_vnet_key
canonical_suffix-eq-canonical_vnet_key home_ns name pod_ns h n =
    let cut = cut_dot-join home_ns name h.has_no_dot in
    let key = home_ns ++ "." ++ name in
    (
      rw (
        ne_of_cut key "cluster" cut (unfold cut_dot in refl),
        has_dot_of_cut key cut,
        beq_of_ne home_ns "" h.is_not_empty,
      ),
      rw n.has_no_dot,
    )
