-- ===== src/Stamps/Sync.antt =====
-- What `syncManagedLabels` leaves on an object, and when it reports a change.
use kube_vnet.Prelude.{
  ◌≤◌, String, ◌≡◌, refl, sym, ap, ◌∙◌, ◌↔◌, Bool, true, false, Option, none, some, [], ◌∷◌, arith,
  if◌then◌else◌, string_eq, beq_refl, length, or_else, All, lookup, lookup-insert, delete_if,
  lookup-delete_if, HasUniqueKeys,
}
use kube_vnet.Objects.{Labels}
use kube_vnet.Stamps.{write_desired, stale, sync_managed_labels}

-- What the desired labels say of a key, and else what was there.
abbrev over : Option String → Option String → Option String
over (some v) o = some v
over none o = o

lookup-write_desired :
    (k : String) (desired labels : Labels) (b : Bool)
    → lookup k (write_desired desired labels b).0 ≡ over (lookup k desired) (lookup k labels)
unfolding write_desired lookup
lookup-write_desired k [] labels b = refl
lookup-write_desired k ((j, v) ∷ desired) labels b =
    let written = (write_desired desired labels b).0 in
    ground (
      arith,
      lookup-write_desired k desired labels b,
      lookup-insert j k v written,
      string_eq.beq_iff j k,
      string_eq.beq_iff (or_else (lookup j written) "") v,
    )

-- The label that a key should have.
abbrev pub wanted : (String → Bool) → Labels → Labels → String → Option String
wanted is_managed desired labels k =
    over (lookup k desired) (if is_managed k then none else lookup k labels)

-- After `syncManagedLabels` each desired label has its value, no other managed label is left, and
-- every label that is not managed is as it was.
pub lookup-sync_managed_labels :
    (is_managed : String → Bool) (desired labels : Labels) (k : String)
    → lookup k (sync_managed_labels is_managed desired labels).0
      ≡ wanted is_managed desired labels k
unfolding sync_managed_labels
lookup-sync_managed_labels is_managed desired labels k =
    lookup-write_desired k desired (delete_if (stale is_managed desired) labels) _
    ∙ ground (arith, lookup-delete_if (stale is_managed desired) k labels)

write_desired-true : (desired labels : Labels) → (write_desired desired labels true).1 ≡ true
unfolding write_desired
write_desired-true [] labels = refl
write_desired-true ((k, v) ∷ desired) labels = ground (arith, write_desired-true desired labels)

write_desired_unchanged :
    (desired labels : Labels) (b : Bool)
    → (write_desired desired labels b).1 ≡ false
    → ((write_desired desired labels b).0 ≡ labels) × (b ≡ false)
unfolding write_desired
write_desired_unchanged [] labels b h = (refl, h)
write_desired_unchanged ((k, v) ∷ desired) labels b h =
    ground (arith, write_desired_unchanged desired labels b)

length-delete_if : (p : String → Bool) (m : Labels) → length (delete_if p m) ≤ length m
unfolding delete_if
length-delete_if p [] = omega arith
length-delete_if p ((j, v) ∷ m) = ground (arith, length-delete_if p m)

delete_if_same :
    (p : String → Bool) (m : Labels) → length (delete_if p m) ≡ length m → delete_if p m ≡ m
unfolding delete_if
delete_if_same p [] h = refl
delete_if_same p ((j, v) ∷ m) h = ground (arith, delete_if_same p m, length-delete_if p m)

-- Where `syncManagedLabels` reports no change, the labels are the ones it was given.
pub unchanged_lem :
    (is_managed : String → Bool) (desired labels : Labels)
    → (sync_managed_labels is_managed desired labels).1 ≡ false
    → (sync_managed_labels is_managed desired labels).0 ≡ labels
unfolding sync_managed_labels
unchanged_lem is_managed desired labels h =
    let kept = delete_if (stale is_managed desired) labels in
    let (same, b) = write_desired_unchanged desired kept _ h in
    let counted = delete_if_same (stale is_managed desired) labels (ground (arith, b)) in
    same ∙ counted

abbrev HasValues : Labels → Labels → Type 0
HasValues desired labels = All (λ (k, v). lookup k labels ≡ some v) desired

write_desired_same :
    (desired labels : Labels) (b : Bool)
    → HasValues desired labels
    → write_desired desired labels b ≡ (labels, b)
unfolding write_desired
write_desired_same [] labels b h = refl
write_desired_same ((k, v) ∷ desired) labels b h =
    rw (write_desired_same desired labels b h.1) (ground (arith, h.0, beq_refl v))

-- The entries of a map with unique keys are what lookup finds.
HasValues-weaken :
    (j w : String) (ys m : Labels) → lookup j ys ≡ none → HasValues ys m → HasValues ys ((j, w) ∷ m)
unfolding lookup
HasValues-weaken j w [] m h a = tt
HasValues-weaken j w ((k, v) ∷ ys) m h a = (
  ground (arith, a.0, string_eq.beq_iff j k, string_eq.beq_iff k j),
  HasValues-weaken j w ys m (ground arith) a.1,
)

HasValues-self : (m : Labels) → HasUniqueKeys m → HasValues m m
unfolding lookup
HasValues-self [] h = tt
HasValues-self ((j, v) ∷ m) h =
    (ground (arith, beq_refl j), HasValues-weaken j v m m h.0 (HasValues-self m h.1))

HasValues-agree :
    (ys m n : Labels)
    → ((k v : String) → lookup k m ≡ some v → lookup k n ≡ some v)
    → HasValues ys m
    → HasValues ys n
HasValues-agree [] m n f h = tt
HasValues-agree ((k, v) ∷ ys) m n f h = (f k v h.0, HasValues-agree ys m n f h.1)

pub delete_if_none :
    (p : String → Bool) (m : Labels)
    → ((k : String) → p k ≡ true → lookup k m ≡ none)
    → delete_if p m ≡ m
unfolding delete_if lookup
delete_if_none p [] f = refl
delete_if_none p ((j, v) ∷ m) f =
    let rest = delete_if_none p m (λ k h. ground (arith, f k h)) in
    ground (arith, rest, f j, beq_refl j)

-- Where every key already has the label that it should have, nothing changes.
pub sync_settled :
    (is_managed : String → Bool) (desired labels : Labels)
    → HasUniqueKeys desired
    → ((k : String) → lookup k labels ≡ wanted is_managed desired labels k)
    → sync_managed_labels is_managed desired labels ≡ (labels, false)
unfolding sync_managed_labels
sync_settled is_managed desired labels u h =
    let none_stale =
      delete_if_none (stale is_managed desired) labels (λ k e. h k ∙ ground (arith, e)) in
    let there =
      HasValues-agree desired desired labels (λ k v e. h k ∙ ground (arith, e))
        (HasValues-self desired u) in
    rw none_stale (write_desired_same desired labels _ there ∙ ground arith)

-- `syncManagedLabels` reports a change exactly where some key's label is not the one that it should
-- have, for desired labels that name each key once.
changed_iff :
    (is_managed : String → Bool) (desired labels : Labels)
    → HasUniqueKeys desired
    → ((sync_managed_labels is_managed desired labels).1 ≡ false)
      ↔ ((k : String) → lookup k labels ≡ wanted is_managed desired labels k)
changed_iff is_managed desired labels u = (
  λ h k.
      ap (λ m. lookup k m) (sym (unchanged_lem is_managed desired labels h))
      ∙ lookup-sync_managed_labels is_managed desired labels k,
  λ h. ap (λ p. p.1) (sync_settled is_managed desired labels u h),
)

pub wanted_again :
    (is_managed : String → Bool) (desired labels after : Labels) (k : String)
    → lookup k after ≡ wanted is_managed desired labels k
    → lookup k after ≡ wanted is_managed desired after k
wanted_again is_managed desired labels after k h = ground arith

-- A second `syncManagedLabels` with the same desired labels, each key named once, finds nothing to
-- do.
pub sync_managed_labels_idempotent :
    (is_managed : String → Bool) (desired labels : Labels)
    → HasUniqueKeys desired
    → sync_managed_labels is_managed desired (sync_managed_labels is_managed desired labels).0
      ≡ ((sync_managed_labels is_managed desired labels).0, false)
sync_managed_labels_idempotent is_managed desired labels u =
    let after = (sync_managed_labels is_managed desired labels).0 in
    sync_settled is_managed desired after u (λ k.
      wanted_again is_managed desired labels after k
        (lookup-sync_managed_labels is_managed desired labels k))
