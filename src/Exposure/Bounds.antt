-- ===== src/Exposure/Bounds.antt =====
-- The lengths of the names and labels that the operator generates (policy_generator.go and
-- external_allow_controller.go).
use Prim.Native.String.{◌++◌}
use Prim.Native.String.append
use kube_vnet.Prelude.{
  ℕ, zero, suc, ◌+◌, ◌-◌, ◌≤◌, String, ◌≡◌, refl, inl, inr, arith, leb, ◌==◌, string_eq, Bool-cases,
}
use kube_vnet.Keys.{system_vnet_cluster}
use kube_vnet.Policies.{
  text_length, text_take, policy_hash, truncate_policy_name, policy_name, source_label_value,
}
use kube_vnet.Exposure.{service_policy_name}

text_length-append : (a b : String) → text_length (a ++ b) ≡ text_length a + text_length b
unfolding text_length
text_length-append String.[] b = rw (append.nil b) (omega arith)
text_length-append (String.◌∷◌ c a) b =
    let ih = text_length-append a b in rw (append.cons c a b) (omega arith)

text_length-text_take : (n : ℕ) (s : String) → text_length (text_take n s) ≤ n
unfolding text_length text_take
text_length-text_take zero s = omega arith
text_length-text_take (suc n) String.[] = omega arith
text_length-text_take (suc n) (String.◌∷◌ c s) = let ih = text_length-text_take n s in omega arith

module _ (hash8 : String → String) (digits : (s : String) → text_length (hash8 s) ≡ 8) where
  -- A dash and a hash.
  suffix_length : (s : String) → text_length ("-" ++ hash8 s) ≡ 9
  unfolding text_length
  suffix_length s =
      let joined = text_length-append "-" (hash8 s) in let hashed = digits s in omega arith

  truncate_policy_name-fits : (name : String) → text_length (truncate_policy_name hash8 name) ≤ 253
  unfolding truncate_policy_name
  truncate_policy_name-fits name = elim (Bool-cases (leb (text_length name) 253)) [
    | inl e ↦ rw e (ground (arith, e))
    | inr e ↦
        let suffix = "-" ++ hash8 name in
        let joined = text_length-append (text_take (253 - text_length suffix) name) suffix in
        let cut = text_length-text_take (253 - text_length suffix) name in
        let counted = suffix_length name in rw e (omega arith)
  ]

  -- The names of membership policies have at most 253 characters.
  policy_name-fits : (vnet home_ns : String) → text_length (policy_name hash8 vnet home_ns) ≤ 253
  unfolding policy_name
  policy_name-fits vnet home_ns = elim (Bool-cases (vnet == system_vnet_cluster)) [
    | inl e ↦ rw e (truncate_policy_name-fits _)
    | inr e ↦ rw e (truncate_policy_name-fits _)
  ]

  source_label_value-fits :
      (prefix ns name : String)
      → text_length prefix ≤ 54
      → text_length (source_label_value hash8 prefix ns name) ≤ 63
  unfolding source_label_value
  source_label_value-fits prefix ns name h =
      elim (Bool-cases (leb (text_length (prefix ++ name)) 63)) [
        | inl e ↦ rw e (ground (arith, e))
        | inr e ↦
            let suffix = "-" ++ policy_hash hash8 "source" ns name in
            let room = 63 - text_length prefix - text_length suffix in
            let cut = text_length-text_take room name in
            let outer = text_length-append prefix (text_take room name ++ suffix) in
            let inner = text_length-append (text_take room name) suffix in
            let counted = suffix_length ("source" ++ "\0" ++ ns ++ "\0" ++ name) in
            rw e (omega arith)
      ]

  service_policy_name-fits :
      (kind ns name : String)
      → text_length kind ≤ 39
      → text_length (service_policy_name hash8 kind ns name) ≤ 63
  unfolding service_policy_name
  service_policy_name-fits kind ns name h =
      let prefix = "kube-vnet.ext." ++ kind ++ "." in
      let room = 63 - text_length prefix - 1 - 8 in
      let base = text_take room name in
      let suffix = "-" ++ hash8 (ns ++ "/" ++ name) in
      let outer = text_length-append prefix (base ++ suffix) in
      let inner = text_length-append base suffix in
      let cut = text_length-text_take room name in
      let counted = suffix_length (ns ++ "/" ++ name) in
      let front = prefix_length kind in omega arith
    where
      prefix_length :
          (kind : String) → text_length ("kube-vnet.ext." ++ kind ++ ".") ≡ text_length kind + 15
      prefix_length kind =
          let start = text_length-append "kube-vnet.ext." (kind ++ ".") in
          let end = text_length-append kind "." in
          let first : text_length "kube-vnet.ext." ≡ 14 = unfold text_length in refl in
          let last : text_length "." ≡ 1 = unfold text_length in refl in omega arith

  -- Where a hash has 8 characters, the name of a membership policy has at most 253, the name of a
  -- Service's policy at most 63 for a kind of source of at most 39, and the source label at most 63
  -- for a prefix of at most 54.
  pub names_fit :
      (vnet home_ns kind prefix ns name : String)
      → text_length kind ≤ 39
      → text_length prefix ≤ 54
      → (text_length (policy_name hash8 vnet home_ns) ≤ 253)
        × (text_length (service_policy_name hash8 kind ns name) ≤ 63)
        × (text_length (source_label_value hash8 prefix ns name) ≤ 63)
  names_fit vnet home_ns kind prefix ns name short brief = (
    policy_name-fits vnet home_ns,
    service_policy_name-fits kind ns name short,
    source_label_value-fits prefix ns name brief,
  )
