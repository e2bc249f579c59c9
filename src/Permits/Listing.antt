-- ===== src/Permits/Listing.antt =====
-- Which namespaces `NamespacesAdmittedBy` lists (permits.go).
use kube_vnet.Prelude.{
  String, ◌≡◌, refl, sym, ap, ◌∙◌, Bool, false, ◌&&◌, ◌||◌, some, List, [], ◌∷◌, arith,
  if◌then◌else◌, ◌==◌, string_eq, any,
}
use kube_vnet.Effects.{Result, ok, err, ◌>>=◌}
use kube_vnet.Objects.{VirtualNetwork, Namespace}
use kube_vnet.Cluster.{Cluster}
use kube_vnet.Permits.{permits_for_vnet, admitted_among, namespaces_admitted_by}

abbrev says_yes : Result Bool → Bool
says_yes (ok b) = b
says_yes (err e) = false

ok-inj {ℓ} : {A : Type ℓ} (x y : A) → ok x ≡ ok y → x ≡ y
ok-inj x y h = cc

module _ (c : Cluster) (v : VirtualNetwork) (ns : String) where
  -- The namespace is the one asked for, and the vnet admits it.
  abbrev pub admits_named : Namespace → Bool
  admits_named n = n.name == ns && says_yes (permits_for_vnet c (some v) n.name)

  has_name : List String → Bool
  has_name names = any (λ n. n == ns) names

  step_lem :
      (n : Namespace) (nss : List Namespace) (o : Result Bool) (rest : Result (List String))
      (names : List String)
      → permits_for_vnet c (some v) n.name ≡ o
      → ((found : List String) → rest ≡ ok found → has_name found ≡ any admits_named nss)
      → (o >>= λ admitted. rest >>= λ found. ok (if admitted then n.name ∷ found else found))
        ≡ ok names
      → has_name names ≡ (admits_named n || any admits_named nss)
  unfolding has_name
  step_lem n nss (err e) rest names ho ih h = absurd (cc h)
  step_lem n nss (ok b) (err e) names ho ih h = absurd (cc h)
  step_lem n nss (ok b) (ok found) names ho ih h =
      ap has_name (sym (ok-inj _ names h)) ∙ ground (arith, ho, ih found refl)

  has_name-admitted_among :
      (nss : List Namespace) (names : List String)
      → admitted_among c v nss ≡ ok names
      → has_name names ≡ any admits_named nss
  unfolding admitted_among
  has_name-admitted_among [] names h =
      ap has_name (sym (ok-inj [] names h)) ∙ unfold has_name in refl
  has_name-admitted_among (n ∷ nss) names h =
      step_lem n nss (permits_for_vnet c (some v) n.name) (admitted_among c v nss) names refl
        (has_name-admitted_among nss) h

  -- Where listing succeeds with the given namespaces, a name is in the result exactly where a listed
  -- namespace has it and the vnet admits that namespace.
  pub namespaces_admitted_by_lem :
      (nss : List Namespace) (names : List String)
      → c.list_namespaces ≡ ok nss
      → namespaces_admitted_by c (some v) ≡ ok names
      → any (λ n. n == ns) names ≡ any admits_named nss
  unfolding namespaces_admitted_by has_name
  namespaces_admitted_by_lem nss names listed h =
      has_name-admitted_among nss names (sym (ap (λ l. l >>= admitted_among c v) listed) ∙ h)
