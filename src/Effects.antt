-- ===== src/Effects.antt =====
-- What Go returns beside a value: errors, the outcome of an API read, and the Events written.
pub mod Eff
use kube_vnet.Prelude.{String, List}

-- The text of a Go `error`.
abbrev pub Error : Type 0
Error = String

pub data Result {ℓ} (A : Type ℓ) : Type ℓ where
  ok : A → Result A
  err : Error → Result A

infixl 5 ◌>>=◌
abbrev pub ◌>>=◌ {ℓ κ} : {A : Type ℓ} {B : Type κ} → Result A → (A → Result B) → Result B
ok a >>= f = f a
err e >>= f = err e

-- The outcome of a `Get`: NotFound is apart from the transient errors.
pub data Fetch {ℓ} (A : Type ℓ) : Type ℓ where
  found : A → Fetch A
  not_found : Fetch A
  failed : Error → Fetch A

-- The object that an Event is about, by its kind, namespace and name.
pub record ObjectRef : Type 0 where
  pub kind : String
  pub namespace : String
  pub name : String

pub data EventType : Type 0 where
  normal warning : EventType

-- An Event, with the arguments of its note in place of the formatted text.
pub record Event : Type 0 where
  pub regarding : ObjectRef
  pub event_type : EventType
  pub reason : String
  pub args : List String
