-- ===== src/Prelude/Texts.antt =====
-- The operations of Go's `strings` package that the program uses, over native texts.
use Prim.Native.Char.{Char, code}
use Prim.Native.String.{String, ◌++◌}
use Prim.Native.String.append
use mathlib.Core.Path.{◌≡◌, refl, ap}
use mathlib.Core.Logic.{inl, inr}
use mathlib.Core.Bool.{Bool, true, false, ◌||◌}
use mathlib.Core.Option.{Option, none, some}
use mathlib.Core.List.{List, [], ◌∷◌}
use native.Mathlib.Omega.{arith}
use text.Mathlib.TextEquality.{Char-path}
use text.Mathlib.Text.{◌==◌}
use kube_vnet.Prelude.Tests.{if◌then◌else◌, nat_beq, nat_beq_iff, is_some, Bool-cases, Option-cases}

-- `strings.CutPrefix`: what follows the prefix `p` in `s`.
unfoldable pub cut_prefix : String → String → Option String
cut_prefix s String.[] = some s
cut_prefix String.[] (String.◌∷◌ d p) = none
cut_prefix (String.◌∷◌ c s) (String.◌∷◌ d p) =
    if nat_beq (code c) (code d) then cut_prefix s p else none

-- `strings.HasPrefix`
unfoldable pub has_prefix : String → String → Bool
unfolding cut_prefix
has_prefix s p = is_some (cut_prefix s p)

pub cut_prefix-append : (p s : String) → cut_prefix (p ++ s) p ≡ some s
unfolding cut_prefix
cut_prefix-append String.[] s = rw append.nil
cut_prefix-append (String.◌∷◌ c p) s =
    rw (append.cons c p s) (ground (arith, cut_prefix-append p s))

pub append_of_cut_prefix : (s p : String) {r : String} → cut_prefix s p ≡ some r → s ≡ p ++ r
unfolding cut_prefix
append_of_cut_prefix s String.[] {r} h = ground (arith, append.nil r)
append_of_cut_prefix String.[] (String.◌∷◌ d p) h = cc
append_of_cut_prefix (String.◌∷◌ c s) (String.◌∷◌ d p) {r} h =
    elim (Bool-cases (nat_beq (code c) (code d))) [
      | inl e ↦
          let same = Char-path c d ((nat_beq_iff (code c) (code d)).0 e) in
          let rest = append_of_cut_prefix s p (rw (e, cut_prefix) at h) in
          rw (append.cons d p r, same, rest)
      | inr e ↦ cc (rw (e, cut_prefix) at h)
    ]

pub has_prefix-append : (p s : String) → has_prefix (p ++ s) p ≡ true
unfolding has_prefix
has_prefix-append p s = rw (cut_prefix-append p s)

-- A common beginning does not count.
pub cut_prefix-append-append : (q s p : String) → cut_prefix (q ++ s) (q ++ p) ≡ cut_prefix s p
unfolding cut_prefix
cut_prefix-append-append String.[] s p = rw (append.nil s, append.nil p)
cut_prefix-append-append (String.◌∷◌ c q) s p =
    rw (append.cons c q s, append.cons c q p) (ground (arith, cut_prefix-append-append q s p))

-- A text has one of two prefixes only, where neither is a prefix of the other.
pub cut_prefix-append_none :
    (p q s : String) → cut_prefix p q ≡ none → cut_prefix q p ≡ none → cut_prefix (p ++ s) q ≡ none
unfolding cut_prefix
cut_prefix-append_none p String.[] s h k = absurd (cc h)
cut_prefix-append_none String.[] (String.◌∷◌ d q) s h k = absurd (cc k)
cut_prefix-append_none (String.◌∷◌ c p) (String.◌∷◌ d q) s h k =
    rw (append.cons c p s) (ground (arith, h, k, cut_prefix-append_none p q s))

-- `strings.Cut` at the first dot.
unfoldable pub cut_dot : String → Option (String × String)
cut_dot String.[] = none
cut_dot (String.◌∷◌ c s) =
    if nat_beq (code c) b'.'
    then some ("", s)
    else elim (cut_dot s) [ none ↦ none | some (a, b) ↦ some (String.◌∷◌ c a, b) ]

-- `strings.Contains(s, ".")`
unfoldable pub has_dot : String → Bool
unfolding cut_dot
has_dot s = is_some (cut_dot s)

-- `strings.HasSuffix`
unfoldable pub has_suffix : String → String → Bool
has_suffix String.[] t = "" == t
has_suffix (String.◌∷◌ c s) t = String.◌∷◌ c s == t || has_suffix s t

-- A text whose first part has no dot is cut where the parts were joined.
pub cut_dot-join : (a b : String) → has_dot a ≡ false → cut_dot (a ++ "." ++ b) ≡ some (a, b)
unfolding has_dot
cut_dot-join String.[] b h = rw (append.nil ("." ++ b), append.cons, append.nil b)
cut_dot-join (String.◌∷◌ c a) b h = elim (Bool-cases (nat_beq (code c) b'.')) [
  | inl e ↦ cc (rw (e, cut_dot) at h)
  | inr e ↦ elim (Option-cases (cut_dot a)) [
    | inl missed ↦ rw (append.cons c a ("." ++ b)) (ground (arith, e, cut_dot-join a b (rw missed)))
    | inr (p, found) ↦ ground (arith, e, found)
  ]
]

-- The dot.
abbrev dot : Char
dot = "."

some_pair :
    {a a' b b' : String}
    → Path (Option (String × String)) (some (a, b)) (some (a', b'))
    → (a ≡ a') × (b ≡ b')
some_pair h = ground arith

-- What is cut joins to the whole, and the first part has no dot.
pub join_of_cut_dot :
    (s : String) {a b : String}
    → cut_dot s ≡ some (a, b)
    → (s ≡ a ++ "." ++ b) × (has_dot a ≡ false)
unfolding has_dot
join_of_cut_dot String.[] h = cc
join_of_cut_dot (String.◌∷◌ c s) {a} {b} h = elim (Bool-cases (nat_beq (code c) b'.')) [
  | inl e ↦
      let parts = some_pair (rw (e, cut_dot) at h) in
      let same = Char-path c dot ((nat_beq_iff (code c) b'.').0 e) in
      rw (← parts.0, ← parts.1, same, append.nil ("." ++ s), append.cons dot "" s, append.nil s)
        (refl, refl)
  | inr e ↦ elim (Option-cases (cut_dot s)) [
    | inl missed ↦ ground (arith, e, missed)
    | inr ((a', b'), found) ↦
        let parts = some_pair (rw (e, found, cut_dot) at h) in
        let (joined, plain) = join_of_cut_dot s found in
        rw (← parts.0, ← parts.1, append.cons c a' ("." ++ b'))
          (ap (λ u. String.◌∷◌ c u) joined, ground (arith, e))
  ]
]

-- `strings.Join(xs, sep)`
unfoldable pub strings_join : String → List String → String
strings_join sep [] = ""
strings_join sep (x ∷ []) = x
strings_join sep (x ∷ y ∷ ys) = x ++ sep ++ strings_join sep (y ∷ ys)
