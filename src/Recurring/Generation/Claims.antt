-- ===== src/Recurring/Generation/Claims.antt =====
-- The occurrences that the worker's loop over the dates makes, against the dates that are due.
use my_finance.Common.{
  ℕ, zero, suc, ◌≤◌, ◌<◌, ◌≡◌, refl, ap, sym, ◌∙◌, Bool, true, false, ◌&&◌, ◌||◌, List, [], ◌∷◌,
  ◌==◌, leb, any, arith, if◌then◌else◌,
}
use my_finance.Calendar.{Date, IsDate, after, date_eq, ordinal}
use my_finance.Calendar.Order.{before-ordinal}
use my_finance.Errors.{ok}
use my_finance.Tx.{Tx, ◌>>=◌, pure}
use my_finance.Tx.Keeps.{>>=-eq-ok, state_path, value_path}
use my_finance.Recurring.Schedule.{is_unit}
use my_finance.Recurring.Schedule.Grid.{next_recurring_date-after}
use my_finance.Recurring.Templates.{Template, Plans}
use my_finance.Recurring.Generation.{
  Supply, generate_on, generate_dates, counted, next_date, past_end, days_left,
}
use my_finance.Recurring.Generation.Turn.{claimed, generate_on-claimed}

-- The dates of the schedule from `next` on that are not after today nor past the end date.
pub due_dates : ℕ → Template → Date → Date → List Date
due_dates zero t today next = []
due_dates (suc fuel) t today next =
    let later = due_dates fuel t today (next_date t next) in
    if after next today || past_end t next then [] else next ∷ later

abbrev pub listed : Date → List Date → Bool
listed d ds = any (λ e. date_eq e d) ds

-- The loop goes on where no test ends it.
abbrev pub stops : Template → Date → ℕ → Date → ℕ → Bool
stops t today batch next generated = after next today || leb batch generated || past_end t next

-- The loop ends, or it makes a turn and goes on from the next date.
pub data Unrolled (fuel : ℕ) (w : Supply) (t : Template) (today : Date) (batch : ℕ) (next : Date)
    (generated : ℕ) (p p' : Plans) (r : ℕ × Date) : Type 0 where
  ends :
      stops t today batch next generated ≡ true
      → r ≡ (generated, next)
      → p' ≡ p
      → Unrolled fuel w t today batch next generated p p' r
  turns :
      (made : Bool) (q : Plans)
      → stops t today batch next generated ≡ false
      → generate_on w t next p ≡ ok (made, q)
      → generate_dates fuel w t today batch (next_date t next) (counted generated made) q
        ≡ ok (r, p')
      → Unrolled fuel w t today batch next generated p p' r

pub generate_dates-Unrolled :
    (fuel : ℕ) (w : Supply) (t : Template) (today : Date) (batch : ℕ) (next : Date) (generated : ℕ)
    (p p' : Plans) (r : ℕ × Date)
    → generate_dates (suc fuel) w t today batch next generated p ≡ ok (r, p')
    → Unrolled fuel w t today batch next generated p p' r
unfolding generate_dates
generate_dates-Unrolled fuel w t today batch next generated p p' r h =
    go (stops t today batch next generated) refl h
  where
    onward : Bool → Tx Plans (ℕ × Date)
    onward made = generate_dates fuel w t today batch (next_date t next) (counted generated made)

    go :
        (b : Bool)
        → stops t today batch next generated ≡ b
        → (if b then pure (generated, next) else generate_on w t next >>= onward) p ≡ ok (r, p')
        → Unrolled fuel w t today batch next generated p p' r
    go true e k = ends e (sym (value_path k)) (sym (state_path k))
    go false e k =
        let (made, q, turn, rest) = >>=-eq-ok (generate_on w t next) onward p k in
        turns made q e turn rest

-- When the loop over a template's dates succeeds and the batch is not full, a date is claimed for a
-- template after it exactly when it was claimed before, or the template is the one of the loop and
-- the date is listed: one of its schedule, from the next date on, not after today and not past the
-- end date. The list is cut off at the loop's fuel.
pub generate_dates-claimed :
    (fuel : ℕ) (w : Supply) (t : Template) (today : Date) (batch : ℕ) (next : Date) (generated : ℕ)
    (p p' : Plans) (r : ℕ × Date) (id : ℕ) (d : Date)
    → generate_dates fuel w t today batch next generated p ≡ ok (r, p')
    → leb batch r.0 ≡ false
    → claimed id d p'.occurrences
      ≡ (claimed id d p.occurrences || (t.id == id && listed d (due_dates fuel t today next)))
unfolding generate_dates due_dates any
generate_dates-claimed zero w t today batch next generated p p' r id d h more =
    ap (λ (q : Plans). claimed id d q.occurrences) (sym (state_path h)) ∙ ground arith
generate_dates-claimed (suc fuel) w t today batch next generated p p' r id d h more =
    elim (generate_dates-Unrolled fuel w t today batch next generated p p' r h) [
      | ends over same back ↦
          let left : leb batch generated ≡ false =
            ap (λ (x : ℕ × Date). leb batch x.0) (sym same) ∙ more in
          ap (λ (q : Plans). claimed id d q.occurrences) back ∙ ground arith
      | turns made q on turn rest ↦
          let ih =
            generate_dates-claimed fuel w t today batch (next_date t next) (counted generated made)
              q p' r id d rest more in
          let step = generate_on-claimed w t next p q made id d turn in ground arith
    ]

-- The worker's loop over the dates of a template comes to its end: with a start, a next date and a
-- today that are real dates, a known unit and a count of at least one, fuel for the days left is
-- enough, and where the loop succeeds the date it stops at is after today or past the end date, or
-- the batch is full.
pub generate_dates-stops :
    (fuel : ℕ) (w : Supply) (t : Template) (today : Date) (batch : ℕ) (next : Date) (generated : ℕ)
    (p p' : Plans) (r : ℕ × Date)
    → IsDate t.start
    → IsDate today
    → IsDate next
    → is_unit t.unit ≡ true
    → 1 ≤ t.count
    → days_left today next ≤ fuel
    → generate_dates fuel w t today batch next generated p ≡ ok (r, p')
    → stops t today batch r.1 r.0 ≡ true
unfolding generate_dates
generate_dates-stops zero w t today batch next generated p p' r hs ht hn hu hc hf h =
    let (forth, back) = before-ordinal today next ht hn in
    let over : after next today ≡ true = back (omega arith) in
    ap (λ (x : ℕ × Date). stops t today batch x.1 x.0) (sym (value_path h)) ∙ ground arith
generate_dates-stops (suc fuel) w t today batch next generated p p' r hs ht hn hu hc hf h =
    elim (generate_dates-Unrolled fuel w t today batch next generated p p' r h) [
      | ends over same back ↦ ap (λ (x : ℕ × Date). stops t today batch x.1 x.0) same ∙ over
      | turns made q on turn rest ↦
          let (later, real) = next_recurring_date-after t.start next t.unit t.count hs hn hu hc in
          let days : ordinal next < ordinal (next_date t next) =
            (before-ordinal next (next_date t next) hn real).0 later in
          generate_dates-stops fuel w t today batch (next_date t next) (counted generated made) q p'
            r hs ht real hu hc (omega (arith, days)) rest
    ]
