-- ===== src/Effects/Eff.antt =====
-- Computations that write Events and may fail.
use mathlib.Core.Path.{subst}
use kube_vnet.Prelude.{Bool, true, false, if◌then◌else◌, ◌≡◌, refl, arith, List, [], ◌++◌}
use kube_vnet.Effects.{Result, ok, err, Event}

-- A computation that writes Events and may fail; what was written before a failure stays.
abbrev pub Eff {ℓ} : Type ℓ → Type ℓ
Eff A = List Event × Result A

abbrev pub pure {ℓ} : {A : Type ℓ} → A → Eff A
pure a = ([], ok a)

abbrev pub lift {ℓ} : {A : Type ℓ} → Result A → Eff A
lift r = ([], r)

abbrev pub write : List Event → Eff (Unit {0})
write es = (es, ok tt)

-- The rest of a computation, after the Events of the part before it.
abbrev pub continue {ℓ κ} : {A : Type ℓ} {B : Type κ} → List Event → Result A → (A → Eff B) → Eff B
continue es (ok a) f = let (es', r) = f a in (es ++ es', r)
continue es (err e) f = (es, err e)

infixl 5 ◌>>=◌ ◌>>◌
unfoldable pub ◌>>=◌ {ℓ κ} : {A : Type ℓ} {B : Type κ} → Eff A → (A → Eff B) → Eff B
m >>= f = continue m.0 m.1 f

abbrev pub ◌>>◌ {ℓ κ} : {A : Type ℓ} {B : Type κ} → Eff A → Eff B → Eff B
m >> n = m >>= λ _. n

-- What a computation ensures of the value that it returns.
pub record Ensures {ℓ κ} {A : Type ℓ} (P : A → Type κ) (m : Eff A) : Type (ℓ ⊔ κ) where
  pub at : (a : A) → m.1 ≡ ok a → P a

module _ {ℓ κ μ} {A : Type ℓ} {B : Type κ} {P : B → Type μ} where
  continue-Ensures :
      (es : List Event) (r : Result A) (f : A → Eff B)
      → ((a : A) → r ≡ ok a → Ensures P (f a))
      → Ensures P (continue es r f)
  continue-Ensures es (ok a) f h = record { at = λ b e. (h a refl).at b e }
  continue-Ensures es (err e) f h = record { at = λ b e'. absurd (cc e') }

  pub >>=-Ensures :
      (m : Eff A) (f : A → Eff B) → ((a : A) → m.1 ≡ ok a → Ensures P (f a)) → Ensures P (m >>= f)
  unfolding ◌>>=◌
  >>=-Ensures m f h = continue-Ensures m.0 m.1 f h

pub pure-Ensures {ℓ κ} : {A : Type ℓ} (P : A → Type κ) (a : A) → P a → Ensures P (pure a)
pure-Ensures P a p = record { at = λ b e. subst P (ground arith) p }

pub if-Ensures {ℓ κ} :
    {A : Type ℓ} {P : A → Type κ} (b : Bool) (m n : Eff A)
    → (b ≡ true → Ensures P m)
    → (b ≡ false → Ensures P n)
    → Ensures P (if b then m else n)
if-Ensures true m n hm hn = hm refl
if-Ensures false m n hm hn = hn refl
