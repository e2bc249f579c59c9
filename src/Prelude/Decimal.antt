-- ===== src/Prelude/Decimal.antt =====
-- Go's `%d` of a natural number.
use Prim.Native.Nat.{ℕ, zero, suc, ◌/◌, ◌%◌}
use Prim.Native.String.{String, ◌++◌}
use Prim.Native.String.append
use mathlib.Core.Path.{◌≡◌, refl}
use mathlib.Core.Logic.{inl, inr}
use mathlib.Core.Bool.{false}
use text.Mathlib.Text.{◌==◌}
use text.Mathlib.TextEquality.{eq_iff}
use Prim.Native.Char.{Char}
use kube_vnet.Prelude.Tests.{ltb, if◌then◌else◌, Bool-cases}

digit : ℕ → String
digit zero = "0"
digit (suc zero) = "1"
digit (suc (suc zero)) = "2"
digit (suc (suc (suc zero))) = "3"
digit (suc (suc (suc (suc zero)))) = "4"
digit (suc (suc (suc (suc (suc zero))))) = "5"
digit (suc (suc (suc (suc (suc (suc zero)))))) = "6"
digit (suc (suc (suc (suc (suc (suc (suc zero))))))) = "7"
digit (suc (suc (suc (suc (suc (suc (suc (suc zero)))))))) = "8"
digit _ = "9"

-- The fuel is one more than the number, which each round divides by ten.
digits : ℕ → ℕ → String
digits zero n = ""
digits (suc fuel) n =
    let rest = digits fuel (n / 10) ++ digit (n % 10) in if ltb n 10 then digit n else rest

unfoldable pub decimal : ℕ → String
unfolding digit digits
decimal n = digits (suc n) n

digit_not_empty : (n : ℕ) → (digit n == "") ≡ false
unfolding digit
digit_not_empty zero = refl
digit_not_empty (suc zero) = refl
digit_not_empty (suc (suc zero)) = refl
digit_not_empty (suc (suc (suc zero))) = refl
digit_not_empty (suc (suc (suc (suc zero)))) = refl
digit_not_empty (suc (suc (suc (suc (suc zero))))) = refl
digit_not_empty (suc (suc (suc (suc (suc (suc zero)))))) = refl
digit_not_empty (suc (suc (suc (suc (suc (suc (suc zero))))))) = refl
digit_not_empty (suc (suc (suc (suc (suc (suc (suc (suc zero)))))))) = refl
digit_not_empty (suc (suc (suc (suc (suc (suc (suc (suc (suc n))))))))) = refl

cons_not_empty : (c : Char) (s : String) → (String.◌∷◌ c s == "") ≡ false
cons_not_empty c s = elim (Bool-cases (String.◌∷◌ c s == "")) [
  | inl e ↦ absurd (cc ((eq_iff (String.◌∷◌ c s) "").0 e))
  | inr e ↦ e
]

append_not_empty : (a b : String) → (b == "") ≡ false → (a ++ b == "") ≡ false
append_not_empty String.[] b h = rw (append.nil b) h
append_not_empty (String.◌∷◌ c a) b h = rw (append.cons c a b) (cons_not_empty c (a ++ b))

-- A number has a digit.
pub decimal_not_empty : (n : ℕ) → (decimal n == "") ≡ false
unfolding decimal digits
decimal_not_empty n = elim (Bool-cases (ltb n 10)) [
  | inl e ↦ rw e (digit_not_empty n)
  | inr e ↦ rw e (append_not_empty (digits n (n / 10)) (digit (n % 10)) (digit_not_empty (n % 10)))
]
