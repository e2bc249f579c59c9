-- ===== src/Sweep/Comparing.antt =====
-- What `maps.Equal` decides (sweep.go).
use kube_vnet.Prelude.{
  suc, String, ◌≡◌, refl, sym, ap, ◌∙◌, inl, inr, Bool, true, false, Option, none, some, [], ◌∷◌,
  arith, if◌then◌else◌, ◌==◌, string_eq, beq→eq, nat_beq_iff, length, all, lookup, delete_if,
  lookup-delete_if, HasUniqueKeys, Bool-cases, beq_refl, is_some,
}
use kube_vnet.Objects.{Labels}
use kube_vnet.Stamps.{has_value}
use kube_vnet.Sweep.{maps_equal}

abbrev without : String → Labels → Labels
without j m = delete_if (λ i. i == j) m

lookup-without :
    (k j : String) (m : Labels) → lookup k (without j m) ≡ (if k == j then none else lookup k m)
lookup-without k j m = lookup-delete_if (λ i. i == j) k m

without-HasUniqueKeys : (j : String) (m : Labels) → HasUniqueKeys m → HasUniqueKeys (without j m)
unfolding delete_if
without-HasUniqueKeys j [] u = tt
without-HasUniqueKeys j ((i, v) ∷ m) u = elim (Bool-cases (i == j)) [
  | inl same ↦ rw same (without-HasUniqueKeys j m u.1)
  | inr other ↦
      rw other ((lookup-without i j m ∙ ground (arith, other, u.0), without-HasUniqueKeys j m u.1))
]

length-without_absent :
    (j : String) (m : Labels) → lookup j m ≡ none → length (without j m) ≡ length m
unfolding delete_if lookup
length-without_absent j [] h = refl
length-without_absent j ((i, v) ∷ m) h = ground (arith, length-without_absent j m)

length-without :
    (j v : String) (m : Labels)
    → HasUniqueKeys m
    → lookup j m ≡ some v
    → suc (length (without j m)) ≡ length m
unfolding delete_if lookup
length-without j v [] u h = absurd (cc h)
length-without j v ((i, w) ∷ m) u h = elim (Bool-cases (i == j)) [
  | inl same ↦
      let absent = length-without_absent j m (ap (λ x. lookup x m) (sym (beq→eq i j same)) ∙ u.0) in
      rw same (ap suc absent)
  | inr other ↦ rw other (ap suc (length-without j v m u.1 (ground (arith, other, h))))
]

abbrev matched : Option String → String → Bool
matched none v = false
matched (some w) v = w == v

found_of_matched : (o : Option String) (v : String) → matched o v ≡ true → o ≡ some v
found_of_matched none v h = absurd (cc h)
found_of_matched (some w) v h = ap some (beq→eq w v h)

-- The other labels do not need the one that is taken out.
all-without :
    (j : String) (a b : Labels)
    → lookup j a ≡ none
    → all (λ (k, v). has_value k v b) a ≡ true
    → all (λ (k, v). has_value k v (without j b)) a ≡ true
unfolding lookup
all-without j [] b absent h = refl
all-without j ((i, v) ∷ a) b absent h = elim (Bool-cases (i == j)) [
  | inl same ↦ absurd (cc (rw same at absent))
  | inr other ↦
      let rest = all-without j a b (ground (arith, other, absent)) (ground (arith, h)) in
      let at = lookup-without i j b ∙ ap (λ t. if t then none else lookup i b) other in
      ground (arith, rest, at, h)
]

lookup_of_all :
    (k : String) (a b : Labels)
    → HasUniqueKeys a
    → HasUniqueKeys b
    → length a ≡ length b
    → all (λ (k, v). has_value k v b) a ≡ true
    → lookup k a ≡ lookup k b
unfolding lookup
lookup_of_all k [] [] ua ub same_length h = refl
lookup_of_all k [] ((i, w) ∷ b) ua ub same_length h = absurd (omega arith)
lookup_of_all k ((j, v) ∷ a) b ua ub same_length h =
    let there : lookup j b ≡ some v = found_of_matched (lookup j b) v (ground (arith, h)) in
    let shorter : length a ≡ length (without j b) =
      ground (arith, length-without j v b ub there, same_length) in
    let rest =
      lookup_of_all k a (without j b) ua.1 (without-HasUniqueKeys j b ub) shorter
        (all-without j a b ua.0 (ground (arith, h))) in
    elim (Bool-cases (j == k)) [
      | inl same ↦ rw same (sym there ∙ ap (λ x. lookup x b) (beq→eq j k same))
      | inr other ↦ rw other (
          rest
          ∙ lookup-without k j b
          ∙ ground (arith, other, string_eq.beq_iff j k, string_eq.beq_iff k j))
    ]

-- Labels that compare as equal give every key one value, with one entry a key.
pub lookup_of_maps_equal :
    (k : String) (a b : Labels)
    → HasUniqueKeys a
    → HasUniqueKeys b
    → maps_equal a b ≡ true
    → lookup k a ≡ lookup k b
unfolding maps_equal
lookup_of_maps_equal k a b ua ub h =
    lookup_of_all k a b ua ub (ground (arith, nat_beq_iff (length a) (length b), h))
      (ground (arith, h))

is_some-without :
    (j k : String) (b : Labels)
    → is_some (lookup k (without j b)) ≡ true
    → ((k == j) ≡ false) × (is_some (lookup k b) ≡ true)
is_some-without j k b h = elim (Bool-cases (k == j)) [
  | inl same ↦ absurd (cc (lookup-without k j b ∙ ap (λ t. if t then none else lookup k b) same, h))
  | inr other ↦ (
    other,
    ap is_some (sym (lookup-without k j b ∙ ap (λ t. if t then none else lookup k b) other)) ∙ h,
  )
]

-- Labels that hold all of others, and no other key, are as many.
length_of_all :
    (a b : Labels)
    → HasUniqueKeys a
    → HasUniqueKeys b
    → all (λ (k, v). has_value k v b) a ≡ true
    → ((k : String) → is_some (lookup k b) ≡ true → is_some (lookup k a) ≡ true)
    → length a ≡ length b
unfolding lookup
length_of_all [] [] ua ub h within = refl
length_of_all [] ((i, w) ∷ b) ua ub h within =
    let there = within i (ground (arith, beq_refl i)) in absurd (cc there)
length_of_all ((j, v) ∷ a) b ua ub h within =
    let there : lookup j b ≡ some v = found_of_matched (lookup j b) v (ground (arith, h)) in
    let shorter =
      length_of_all a (without j b) ua.1 (without-HasUniqueKeys j b ub)
        (all-without j a b ua.0 (ground (arith, h)))
        (λ k at.
          let (other, inside) = is_some-without j k b at in
          let here = within k inside in
          ground (arith, string_eq.beq_iff j k, string_eq.beq_iff k j, other, here)) in
    ap suc shorter ∙ length-without j v b ub there

-- Entries of labels with one entry a key are found in labels that give every key the same value.
all_of_lookup :
    (a b : Labels)
    → HasUniqueKeys a
    → ((k v : String) → lookup k a ≡ some v → lookup k b ≡ some v)
    → all (λ (k, v). has_value k v b) a ≡ true
unfolding lookup
all_of_lookup [] b u same = refl
all_of_lookup ((j, v) ∷ a) b u same =
    let rest = all_of_lookup a b u.1 (λ k w at. elim (Bool-cases (j == k)) [
      | inl e ↦ absurd (cc (ap (λ x. lookup x a) (beq→eq j k e), u.0, at))
      | inr e ↦ same k w (ground (arith, e, at))
    ]) in
    let here = same j v (ground (arith, beq_refl j)) in
    ground (arith, rest, here, string_eq.beq_iff v v)

-- Labels that give every key one value compare as equal, with one entry a key.
pub maps_equal_of_lookup :
    (a b : Labels)
    → HasUniqueKeys a
    → HasUniqueKeys b
    → ((k : String) → lookup k a ≡ lookup k b)
    → maps_equal a b ≡ true
unfolding maps_equal
maps_equal_of_lookup a b ua ub same =
    let held = all_of_lookup a b ua (λ k v at. sym (same k) ∙ at) in
    let long = length_of_all a b ua ub held (λ k there. ap is_some (same k) ∙ there) in
    ground (arith, held, nat_beq_iff (length a) (length b), long)
