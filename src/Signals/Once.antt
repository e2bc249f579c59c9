-- ===== src/Signals/Once.antt =====
-- When a state is reported: once while it lasts, and again after it ended or for a new object.
use kube_vnet.Prelude.{
  String, ◌≡◌, refl, ◌∙◌, Bool, true, false, not, ◌&&◌, Option, none, some, List, [], ◌∷◌, arith,
  if◌then◌else◌, ◌==◌, string_eq, beq_refl, beq→eq, Bool-cases, inl, inr, ap, any, Map, lookup,
  insert, delete_if, lookup-insert, lookup-delete_if, or_else,
}
use kube_vnet.Objects.{ObjectKey, object_key_eq}
use kube_vnet.Signals.{OnceSet, reasons_of, reported, once_first, once_clear, once_forget}

-- The operations of an `onceSet`, as the reconcilers call them.
pub data Step : Type 0 where
  first : (nn : ObjectKey) (uid reason : String) → Step
  clear : (nn : ObjectKey) (reason : String) → Step
  forget : (nn : ObjectKey) → Step

abbrev pub run_step : Step → OnceSet → OnceSet
run_step (first nn uid reason) o = (once_first nn uid reason o).0
run_step (clear nn reason) o = once_clear nn reason o
run_step (forget nn) o = once_forget nn o

-- A step that ends the state that an object's reason stands for, or reports it for another UID.
abbrev pub ends : ObjectKey → (uid reason : String) → Step → Bool
ends nn uid reason (first mm uid' reason') = mm == nn && (reason' == reason && not (uid' == uid))
ends nn uid reason (clear mm reason') = mm == nn && reason' == reason
ends nn uid reason (forget mm) = mm == nn

abbrev pub run_steps : List Step → OnceSet → OnceSet
run_steps [] o = o
run_steps (s ∷ ss) o = run_steps ss (run_step s o)

-- Whether a reason is noted with the UID.
abbrev noted : (uid reason : String) → Map String String → Bool
noted uid reason rs = elim (lookup reason rs) [ none ↦ false | some u ↦ u == uid ]

noted-insert :
    (uid reason uid' reason' : String) (rs : Map String String)
    → noted uid reason (insert reason' uid' rs)
      ≡ (if reason' == reason then uid' == uid else noted uid reason rs)
noted-insert uid reason uid' reason' rs =
    ap (λ (o : Option String). elim o [ none ↦ false | some u ↦ u == uid ])
      (lookup-insert reason' reason uid' rs)
    ∙ ground arith

noted-delete_if :
    (uid reason reason' : String) (rs : Map String String)
    → noted uid reason (delete_if (λ r. r == reason') rs)
      ≡ (if reason == reason' then false else noted uid reason rs)
noted-delete_if uid reason reason' rs =
    ap (λ (o : Option String). elim o [ none ↦ false | some u ↦ u == uid ])
      (lookup-delete_if (λ r. r == reason') reason rs)
    ∙ ground arith

module _ (nn : ObjectKey) (uid reason : String) where
  reported-insert :
      (mm : ObjectKey) (rs : Map String String) (o : OnceSet)
      → reported nn uid reason (insert mm rs o)
        ≡ (if mm == nn then noted uid reason rs else reported nn uid reason o)
  reported-insert mm rs o =
      ap (λ (x : Option (Map String String)). noted uid reason (or_else x []))
        (lookup-insert mm nn rs o)
      ∙ ground arith

  same_key : (mm : ObjectKey) (o : OnceSet) → (mm == nn) ≡ true → reasons_of mm o ≡ reasons_of nn o
  same_key mm o e = ap (λ k. reasons_of k o) (beq→eq mm nn e)

  -- `first` reports exactly what is not yet reported, and it is reported from then on.
  pub once_first_lem :
      (o : OnceSet)
      → ((once_first nn uid reason o).1 ≡ not (reported nn uid reason o))
        × (reported nn uid reason (once_first nn uid reason o).0 ≡ true)
  unfolding once_first
  once_first_lem o = elim (Bool-cases (reported nn uid reason o)) [
    | inl e ↦ rw e ((refl, reported-insert nn (reasons_of nn o) o ∙ rw (beq_refl nn, e)))
    | inr e ↦ rw e (
        (
          refl,
          reported-insert nn (insert reason uid (reasons_of nn o)) o
              ∙ rw (beq_refl nn) (
                  noted-insert uid reason uid reason (reasons_of nn o)
                  ∙ rw (beq_refl reason) (beq_refl uid)),
        ))
  ]

  first-keeps :
      (mm : ObjectKey) (uid' reason' : String) (o : OnceSet)
      → ends nn uid reason (first mm uid' reason') ≡ false
      → reported nn uid reason o ≡ true
      → reported nn uid reason (once_first mm uid' reason' o).0 ≡ true
  unfolding once_first
  first-keeps mm uid' reason' o e h = elim (Bool-cases (reported mm uid' reason' o)) [
    | inl seen ↦ rw seen (
        reported-insert mm (reasons_of mm o) o
        ∙ ground (
          arith,
          h,
          ap (noted uid reason) {x = reasons_of mm o} {y = reasons_of nn o},
          same_key mm o,
        ))
    | inr new ↦ rw new (
        reported-insert mm (insert reason' uid' (reasons_of mm o)) o
        ∙ ground (
          arith,
          h,
          e,
          noted-insert uid reason uid' reason' (reasons_of mm o),
          ap (noted uid reason) {x = reasons_of mm o} {y = reasons_of nn o},
          same_key mm o,
        ))
  ]

  clear-keeps :
      (mm : ObjectKey) (reason' : String) (o : OnceSet) (rs : Option (Map String String))
      → lookup mm o ≡ rs
      → ends nn uid reason (clear mm reason') ≡ false
      → reported nn uid reason o ≡ true
      → reported nn uid reason (elim rs [
        | none ↦ o
        | some reasons ↦ insert mm (delete_if (λ r. r == reason') reasons) o
      ])
        ≡ true
  clear-keeps mm reason' o none l e h = h
  clear-keeps mm reason' o (some reasons) l e h =
      let own = ap (λ (x : Option (Map String String)). or_else x []) l in
      reported-insert mm (delete_if (λ r. r == reason') reasons) o
      ∙ ground (
        arith,
        h,
        e,
        own,
        noted-delete_if uid reason reason' reasons,
        ap (noted uid reason) {x = reasons} {y = reasons_of nn o},
        same_key mm o,
        string_eq.beq_iff reason reason',
        string_eq.beq_iff reason' reason,
      )

  forget-keeps :
      (mm : ObjectKey) (o : OnceSet)
      → ends nn uid reason (forget mm) ≡ false
      → reported nn uid reason o ≡ true
      → reported nn uid reason (once_forget mm o) ≡ true
  unfolding once_forget
  forget-keeps mm o e h =
      ap (λ (x : Option (Map String String)). noted uid reason (or_else x []))
        (lookup-delete_if (λ k. k == mm) nn o)
      ∙ ground (arith, h, e, object_key_eq.beq_iff mm nn, object_key_eq.beq_iff nn mm)

  step-keeps :
      (s : Step) (o : OnceSet)
      → ends nn uid reason s ≡ false
      → reported nn uid reason o ≡ true
      → reported nn uid reason (run_step s o) ≡ true
  unfolding once_clear
  step-keeps (first mm uid' reason') o e h = first-keeps mm uid' reason' o e h
  step-keeps (clear mm reason') o e h = clear-keeps mm reason' o (lookup mm o) refl e h
  step-keeps (forget mm) o e h = forget-keeps mm o e h

  steps-keep :
      (ss : List Step) (o : OnceSet)
      → any (ends nn uid reason) ss ≡ false
      → reported nn uid reason o ≡ true
      → reported nn uid reason (run_steps ss o) ≡ true
  steps-keep [] o e h = h
  steps-keep (s ∷ ss) o e h =
      steps-keep ss (run_step s o) (ground (arith, e)) (step-keeps s o (ground (arith, e)) h)

  -- After a reason was reported for an object, `first` does not report it again, through every
  -- sequence of steps none of which clears that reason, forgets the object or notes another UID.
  pub reported_once :
      (ss : List Step) (o : OnceSet)
      → any (ends nn uid reason) ss ≡ false
      → (once_first nn uid reason (run_steps ss (once_first nn uid reason o).0)).1 ≡ false
  reported_once ss o e =
      let still = steps-keep ss (once_first nn uid reason o).0 e (once_first_lem o).1 in
      (once_first_lem (run_steps ss (once_first nn uid reason o).0)).0 ∙ ap not still

  cleared :
      (o : OnceSet) (rs : Option (Map String String))
      → lookup nn o ≡ rs
      → reported nn uid reason
          (elim rs [ none ↦ o | some reasons ↦ insert nn (delete_if (λ r. r == reason) reasons) o ])
        ≡ false
  unfolding lookup
  cleared o none l = ap (λ (x : Option (Map String String)). noted uid reason (or_else x [])) l
  cleared o (some reasons) l =
      reported-insert nn (delete_if (λ r. r == reason) reasons) o
      ∙ ground (arith, beq_refl nn, beq_refl reason, noted-delete_if uid reason reason reasons)

  -- Clearing a reason makes `first` report it again.
  pub reported_again : (o : OnceSet) → (once_first nn uid reason (once_clear nn reason o)).1 ≡ true
  unfolding once_clear
  reported_again o =
      (once_first_lem (once_clear nn reason o)).0 ∙ ap not (cleared o (lookup nn o) refl)
