-- ===== src/Recurring/Generation/Sound.antt =====
-- What `GenerateRecurring` keeps of the tables.
use mathlib.Core.Path.{subst}
use my_finance.Common.{ℕ, zero, suc, ◌≡◌, sym, Bool, true, false, List, [], ◌∷◌, arith}
use my_finance.Calendar.{Date}
use my_finance.Errors.{ok}
use my_finance.Tx.{Tx}
use my_finance.Tx.Keeps.{
  Keeps, Keeps-lift, Keeps-bind, Keeps-if, Keeps-pure, keeps_rules, zoom-Keeps,
}
use my_finance.Ledger.State.{Ledger}
use my_finance.Ledger.Balance.{IsSound}
use my_finance.Ledger.Posting.{post_typed_operation-Keeps}
use my_finance.Recurring.Templates.{
  Template, Occurrence, Plans, on_ledger, put_ledger, insert_occurrence,
}
use my_finance.Recurring.Generation.{
  Supply, Generation, generate_on, generate_dates, move_template, generate_template, generate_all,
  generate_batch, generate_recurring, batch_or_default,
}

abbrev pub IsSoundPlans : Plans → Type 0
IsSoundPlans p = IsSound p.ledger

-- A step on the ledger keeps what it keeps of the ledger.
pub on_ledger-Keeps :
    {A : Type 0} (P : Ledger → Type 0) (m : Tx Ledger A)
    → Keeps P m
    → Keeps (λ (p : Plans). P p.ledger) (on_ledger m)
on_ledger-Keeps P m k = zoom-Keeps P (λ (p : Plans). p.ledger) put_ledger m (λ p s h. h) k

insert_occurrence-Keeps : (o : Occurrence) → Keeps IsSoundPlans (insert_occurrence o)
unfolding insert_occurrence
insert_occurrence-Keeps o = record {
  at =
      λ p made p' h e. let same : p'.ledger ≡ p.ledger = ground arith in subst IsSound (sym same) h;
}

move_template-Keeps :
    (t : Template) (next : Date) (done : Bool) → Keeps IsSoundPlans (move_template t next done)
unfolding move_template
move_template-Keeps t next done = record {
  at = λ p u p' h e. let same : p'.ledger ≡ p.ledger = ground arith in subst IsSound (sym same) h;
}

generate_on-Keeps : (w : Supply) (t : Template) (d : Date) → Keeps IsSoundPlans (generate_on w t d)
unfolding generate_on
generate_on-Keeps w t d =
    Keeps-bind _ _ (on_ledger-Keeps IsSound _ (post_typed_operation-Keeps _ _ _ _))
      (λ r. insert_occurrence-Keeps _)

-- What each turn and each move of a template keeps, a run of the worker keeps.
module _ (P : Plans → Type 0) (w : Supply)
    (turn_keeps : (t : Template) (d : Date) → Keeps P (generate_on w t d))
    (move_keeps : (t : Template) (d : Date) (done : Bool) → Keeps P (move_template t d done)) where
  generate_dates-Keeps :
      (fuel : ℕ) (t : Template) (today : Date) (batch : ℕ) (next : Date) (generated : ℕ)
      → Keeps P (generate_dates fuel w t today batch next generated)
  unfolding generate_dates
  generate_dates-Keeps zero t today batch next generated = Keeps-pure _
  generate_dates-Keeps (suc fuel) t today batch next generated =
      Keeps-if _ _ _ (Keeps-pure _)
        (Keeps-bind _ _ (turn_keeps t next) (λ made. generate_dates-Keeps fuel t today batch _ _))

  generate_template-Keeps :
      (t : Template) (today : Date) (batch generated : ℕ)
      → Keeps P (generate_template w t today batch generated)
  unfolding generate_template
  generate_template-Keeps t today batch generated =
      search (keeps_rules, generate_dates-Keeps, move_keeps) depth 12

  generate_all-Keeps :
      (batch : ℕ) (ts : List Template) (generated : ℕ) → Keeps P (generate_all w batch ts generated)
  unfolding generate_all
  generate_all-Keeps batch [] generated = Keeps-pure _
  generate_all-Keeps batch (t ∷ ts) generated = Keeps-bind _ _ (Keeps-lift _) (λ today.
      Keeps-bind _ _ (generate_template-Keeps t today batch generated)
        (λ made. Keeps-if _ _ _ (Keeps-pure _) (generate_all-Keeps batch ts made)))

  generate_batch-Keeps : (batch : ℕ) → Keeps P (generate_batch w batch)
  unfolding generate_batch
  generate_batch-Keeps batch = search (keeps_rules, generate_all-Keeps) depth 12

  pub generate_recurring-Keeps : (free : Bool) (size : ℕ) → Keeps P (generate_recurring w free size)
  unfolding generate_recurring
  generate_recurring-Keeps true size = generate_batch-Keeps (batch_or_default size)
  generate_recurring-Keeps false size = Keeps-pure _

pub generate_recurring-IsSound :
    (w : Supply) (free : Bool) (size : ℕ) (p p' : Plans) (r : Generation)
    → IsSound p.ledger
    → generate_recurring w free size p ≡ ok (r, p')
    → IsSound p'.ledger
generate_recurring-IsSound w free size p p' r h e =
    (generate_recurring-Keeps IsSoundPlans w (generate_on-Keeps w) move_template-Keeps free size).at
      p r p' h e
