-- ===== src/Resolver/Stamped.antt =====
-- Which labels the stamps of a pod have: those of the effective directions and of the host ports.
use Prim.Native.String.{◌++◌}
use kube_vnet.Prelude.{
  some-inj, String, ◌≡◌, ◌≢◌, refl, sym, ap, ◌∙◌, inl, inr, Bool, true, false, Option, none, some,
  [], ◌∷◌, arith, ◌==◌, beq_of_ne, string_eq, All, Map, lookup, insert, lookup-insert, Bool-cases,
}
use kube_vnet.Prelude.Texts.{cut_prefix, cut_prefix-append, cut_prefix-append_none}
use kube_vnet.Objects.{Labels, Pod}
use kube_vnet.Direction.{Direction, text}
use kube_vnet.Keys.{VnetKey, label_system_net_prefix, label_system_host_port_prefix}
use kube_vnet.HostPort.{
  HostPortKey, key_text, stamps_of_keys, desired_host_port_stamps, desired_host_port_keys,
}
use kube_vnet.Resolution.{ResolutionResult}
use kube_vnet.Resolver.Notes.{net_stamp}
use kube_vnet.Resolver.{net_stamps, add_host_port_stamps, desired_of}

net_stamp-inj : (v w : VnetKey) → net_stamp v ≡ net_stamp w → v ≡ w
unfolding net_stamp
net_stamp-inj v w h = some-inj v w (
    sym (cut_prefix-append label_system_net_prefix v)
    ∙ ap (λ s. cut_prefix s label_system_net_prefix) h
    ∙ cut_prefix-append label_system_net_prefix w)

net_stamp-beq : (v w : VnetKey) → (net_stamp v == net_stamp w) ≡ (v == w)
net_stamp-beq v w =
    let same = λ (e : v ≡ w). ap net_stamp e in
    ground (
      arith,
      string_eq.beq_iff (net_stamp v) (net_stamp w),
      string_eq.beq_iff v w,
      net_stamp-inj v w,
      same,
    )

abbrev pub text_of : Option Direction → Option String
text_of none = none
text_of (some d) = some (text d)

lookup-net_stamps :
    (v : VnetKey) (m : Map VnetKey Direction)
    → lookup (net_stamp v) (net_stamps m) ≡ text_of (lookup v m)
unfolding net_stamps lookup
lookup-net_stamps v [] = refl
lookup-net_stamps v ((w, d) ∷ m) =
    lookup-insert (net_stamp w) (net_stamp v) (text d) (net_stamps m)
    ∙ ground (arith, net_stamp-beq w v, lookup-net_stamps v m)

-- The two prefixes of stamps share `kube-vnet.system/` and differ in the letter behind it.
not_net_prefixed : cut_prefix label_system_host_port_prefix label_system_net_prefix ≡ none
unfolding cut_prefix
not_net_prefixed = refl

not_host_port_prefixed : cut_prefix label_system_net_prefix label_system_host_port_prefix ≡ none
unfolding cut_prefix
not_host_port_prefixed = refl

host_port_stamp-net_stamp :
    (s : String) (v : VnetKey) → label_system_host_port_prefix ++ s ≢ net_stamp v
unfolding net_stamp
host_port_stamp-net_stamp s v e =
    let is_net = cut_prefix-append label_system_net_prefix v in
    let not_net =
      cut_prefix-append_none label_system_host_port_prefix label_system_net_prefix s
        not_net_prefixed not_host_port_prefixed in
    absurd (cc (sym is_net ∙ ap (λ u. cut_prefix u label_system_net_prefix) (sym e) ∙ not_net))

module _ (v : VnetKey) where
  -- No key of the map is the vnet's stamp.
  abbrev Avoids : Map String Bool → Type 0
  Avoids = All (λ (k, _). (k == net_stamp v) ≡ false)

  insert-Avoids :
      (k : String) (m : Map String Bool)
      → (k == net_stamp v) ≡ false
      → Avoids m
      → Avoids (insert k true m)
  unfolding insert
  insert-Avoids k [] h a = (h, tt)
  insert-Avoids k ((j, b) ∷ m) h a = elim (Bool-cases (j == k)) [
    | inl e ↦ rw e (h, a.1)
    | inr e ↦ rw e (a.0, insert-Avoids k m h a.1)
  ]

  stamps_of_keys-Avoids : (m : Map HostPortKey Bool) → Avoids (stamps_of_keys m)
  unfolding stamps_of_keys
  stamps_of_keys-Avoids [] = tt
  stamps_of_keys-Avoids ((k, _) ∷ m) =
      insert-Avoids _ (stamps_of_keys m) (beq_of_ne _ _ (host_port_stamp-net_stamp (key_text k) v))
        (stamps_of_keys-Avoids m)

  lookup-add_host_port_stamps :
      (stamps : Map String Bool) (m : Labels)
      → Avoids stamps
      → lookup (net_stamp v) (add_host_port_stamps stamps m) ≡ lookup (net_stamp v) m
  unfolding add_host_port_stamps
  lookup-add_host_port_stamps [] m a = refl
  lookup-add_host_port_stamps ((k, b) ∷ stamps) m a =
      lookup-insert k (net_stamp v) "true" (add_host_port_stamps stamps m)
      ∙ ground (arith, a.0, lookup-add_host_port_stamps stamps m a.1)

  -- A pod's stamp for a vnet is the text of its effective direction, and absent where it has none.
  pub lookup-desired_of :
      (pod : Pod) (res : ResolutionResult)
      → lookup (net_stamp v) (desired_of pod res) ≡ text_of (lookup v res.effective)
  unfolding desired_of desired_host_port_stamps
  lookup-desired_of pod res =
      lookup-add_host_port_stamps (desired_host_port_stamps pod) (net_stamps res.effective)
        (stamps_of_keys-Avoids (desired_host_port_keys (pod ∷ [])))
      ∙ lookup-net_stamps v res.effective
