-- ===== src/Prelude/Maps.antt =====
-- Go's maps as association lists with one entry for each key.
use mathlib.Core.Path.{◌≡◌, refl}
use mathlib.Core.Logic.{inl, inr}
use mathlib.Core.Bool.{Bool}
use mathlib.Core.Option.{Option, none, some}
use mathlib.Core.List.{List, [], ◌∷◌}
use native.Mathlib.Omega.{arith}
use kube_vnet.Prelude.Tests.{if◌then◌else◌, Bool-cases}
use kube_vnet.Prelude.Equality.{Eq, ◌==◌}

abbrev pub Map {ℓ κ} : Type ℓ → Type κ → Type (ℓ ⊔ κ)
Map K V = List (K × V)

module _ {ℓ κ} {K : Type ℓ} {V : Type κ} ⦃e : Eq K⦄ where
  -- `m[k]`, `none` for a missing key.
  unfoldable pub lookup : K → Map K V → Option V
  lookup key [] = none
  lookup key ((at, val) ∷ rest) = if at == key then some val else lookup key rest

  -- `maps.DeleteFunc` by the key.
  unfoldable pub delete_if : (K → Bool) → Map K V → Map K V
  delete_if p [] = []
  delete_if p ((j, v) ∷ m) = let rest = delete_if p m in if p j then rest else (j, v) ∷ rest

  -- `m[key] = val`
  unfoldable pub insert : K → V → Map K V → Map K V
  insert key val [] = (key, val) ∷ []
  insert key val ((at, old) ∷ rest) =
      if at == key then (key, val) ∷ rest else (at, old) ∷ insert key val rest

  pub lookup-insert :
      (k j : K) (v : V) (m : Map K V)
      → lookup j (insert k v m) ≡ (if k == j then some v else lookup j m)
  unfolding lookup insert
  lookup-insert key other val [] = refl
  lookup-insert key other val ((at, old) ∷ rest) =
      let ih = lookup-insert key other val rest in
      ground (arith, e.beq_iff key other, e.beq_iff at key, e.beq_iff at other, ih)

  pub lookup-delete_if :
      (p : K → Bool) (j : K) (m : Map K V)
      → lookup j (delete_if p m) ≡ (if p j then none else lookup j m)
  unfolding lookup delete_if
  lookup-delete_if p j [] = ground arith
  lookup-delete_if p j ((i, w) ∷ m) = ground (arith, e.beq_iff i j, lookup-delete_if p j m)

  -- Each key stands once.
  abbrev pub HasUniqueKeys : Map K V → Type κ
  HasUniqueKeys [] = Unit
  HasUniqueKeys ((j, v) ∷ m) = (lookup j m ≡ none) × HasUniqueKeys m

  pub insert-HasUniqueKeys :
      (k : K) (v : V) (m : Map K V) → HasUniqueKeys m → HasUniqueKeys (insert k v m)
  unfolding insert lookup
  insert-HasUniqueKeys k v [] h = (refl, tt)
  insert-HasUniqueKeys k v ((j, w) ∷ m) h = elim (Bool-cases (j == k)) [
    | inl same ↦ rw (same, ← (e.beq_iff j k).0 same) h
    | inr other ↦
        rw (other, insert)
          ((
            rw (lookup-insert k j v m) (ground (arith, e.beq_iff j k, e.beq_iff k j)),
            insert-HasUniqueKeys k v m h.1,
          ))
  ]
