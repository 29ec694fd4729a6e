-- ===== src/Recurring/Generation/Turn.antt =====
-- One turn of the worker's loop over the dates.
use mathlib.Core.Path.{subst}
use my_finance.Common.{
  ℕ, ◌≡◌, ◌⊎◌, inl, inr, ap, ◌∙◌, Bool, true, false, none, ◌&&◌, ◌||◌, List, ◌∷◌, ◌==◌, any, arith,
}
use my_finance.Calendar.{Date, date_eq}
use my_finance.Errors.{ok}
use my_finance.Tx.{Tx}
use my_finance.Tx.Keeps.{>>=-eq-ok, zoom-eq-ok}
use my_finance.Ledger.State.{Ledger}
use my_finance.Ledger.Operation.{post_typed_operation}
use my_finance.Recurring.Templates.{
  Template, Occurrence, Plans, on_ledger, put_ledger, insert_occurrence, claims,
}
use my_finance.Recurring.Generation.{Supply, operation_on, occurrence_on, generate_on}

-- The claims of a template and a date among the occurrences.
abbrev pub claimed : ℕ → Date → List Occurrence → Bool
claimed id d os = any (claims id d) os

-- A claim is kept where there is one, and is made where there is none.
abbrev pub IsClaimed : Occurrence → List Occurrence → Bool → List Occurrence → Type 0
IsClaimed o os made os' =
    ((claimed o.template o.scheduled os ≡ true) × (made ≡ false) × (os' ≡ os))
    ⊎ ((claimed o.template o.scheduled os ≡ false) × (made ≡ true) × (os' ≡ o ∷ os))

insert_occurrence-IsClaimed :
    (o : Occurrence) (p p' : Plans) (made : Bool)
    → insert_occurrence o p ≡ ok (made, p')
    → IsClaimed o p.occurrences made p'.occurrences
unfolding insert_occurrence
insert_occurrence-IsClaimed o p p' made h = ground arith

on_ledger-occurrences :
    {A : Type 0} (m : Tx Ledger A) (p p' : Plans) (a : A)
    → on_ledger m p ≡ ok (a, p')
    → p'.occurrences ≡ p.occurrences
on_ledger-occurrences m p p' a h =
    let (s, ran, same) = zoom-eq-ok (λ (q : Plans). q.ledger) put_ledger m p h in
    ap (λ (q : Plans). q.occurrences) same

-- A turn claims its date for its template, and adds no other occurrence.
pub generate_on-IsClaimed :
    (w : Supply) (t : Template) (d : Date) (p p' : Plans) (made : Bool)
    → generate_on w t d p ≡ ok (made, p')
    → (transaction : ℕ) × IsClaimed
        (occurrence_on w t d transaction)
        p.occurrences
        made
        p'.occurrences
unfolding generate_on
generate_on-IsClaimed w t d p p' made h =
    let posting : Tx Ledger (ℕ × Bool) =
      post_typed_operation (w.transaction_id t.id d) t.user (operation_on w t d) none in
    let (r, q, posted, rest) =
      >>=-eq-ok (on_ledger posting) (λ r. insert_occurrence (occurrence_on w t d r.0)) p h in
    (
      r.0,
      subst (λ os. IsClaimed (occurrence_on w t d r.0) os made p'.occurrences)
          (on_ledger-occurrences posting p q r posted)
          (insert_occurrence-IsClaimed (occurrence_on w t d r.0) q p' made rest),
    )

claims-congruence :
    (id template : ℕ) (d e : Date) (os : List Occurrence)
    → (template == id && date_eq e d) ≡ true
    → claimed template e os ≡ claimed id d os
claims-congruence id template d e os h =
    let same_id : template ≡ id = ground arith in
    let same_month : e.index ≡ d.index = ground arith in
    let same_day : e.day ≡ d.day = ground arith in
    λ i. claimed (same_id i) (record { index = same_month i; day = same_day i }) os

-- After a turn a claim stands when it stood before or is that of the turn.
pub generate_on-claimed :
    (w : Supply) (t : Template) (d0 : Date) (p p' : Plans) (made : Bool) (id : ℕ) (d : Date)
    → generate_on w t d0 p ≡ ok (made, p')
    → claimed id d p'.occurrences ≡ (claimed id d p.occurrences || (t.id == id && date_eq d0 d))
unfolding any
generate_on-claimed w t d0 p p' made id d h = go (generate_on-IsClaimed w t d0 p p' made h)
  where
    go :
        (transaction : ℕ) × IsClaimed
            (occurrence_on w t d0 transaction)
            p.occurrences
            made
            p'.occurrences
        → claimed id d p'.occurrences ≡ (claimed id d p.occurrences || (t.id == id && date_eq d0 d))
    go (x, inl (there, stays, same)) =
        ap (claimed id d) same ∙ ground (arith, claims-congruence id t.id d d0 p.occurrences)
    go (x, inr (free, grows, same)) = ap (claimed id d) same ∙ ground arith
