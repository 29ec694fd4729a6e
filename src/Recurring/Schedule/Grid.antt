-- ===== src/Recurring/Schedule/Grid.antt =====
-- The dates of a schedule, monthly ones counted from their anchor.
use my_finance.Common.{
  ℕ, zero, suc, ◌+◌, ◌*◌, ◌/◌, ◌≤◌, ◌<◌, ◌≡◌, refl, ◌∙◌, ap, true, arith, lt→ltb, ltb,
  if◌then◌else◌,
}
use my_finance.Common.Int.{ℤ, pos, negsuc, pos_part, ◌+ℤ◌, neg_ℤ, int_laws, +ℤ-pos, ◌<ℤ◌}
use my_finance.Calendar.{Date, date, month_days, IsDate, after, month_end, add_days, ordinal}
use Prim.Native.Nat.{min}
use native.Mathlib.Nat.{mul-div_cancel}
use my_finance.Calendar.Months.{month_days_bounds, LandsAt, add_days-LandsAt}
use my_finance.Calendar.Order.{before-ordinal}
use my_finance.Recurring.Schedule.{
  IntervalUnit, days, weeks, months, years, other_unit, is_unit, quot, times, add_months_clamped,
  months_elapsed, advance, next_month_date, next_recurring_date,
}

-- The elapsed months are the difference of the month indices.
months_elapsed-eq : (a c : Date) → months_elapsed a c +ℤ pos a.index ≡ pos c.index
months_elapsed-eq a c = omega int_laws

-- The n-th date of a grid: in the month that is n steps after the anchor's, the day of the anchor, or
-- the last one of the month where that is sooner.
abbrev pub grid : Date → ℕ → ℕ → Date
grid anchor step n =
    date (anchor.index + n * step) (min anchor.day (month_days (anchor.index + n * step)))

add_months_clamped-grid :
    (anchor : Date) (step n : ℕ) → add_months_clamped anchor (pos (n * step)) ≡ grid anchor step n
unfolding add_months_clamped month_end
add_months_clamped-grid anchor step n =
    ap (λ i. date i (if ltb (month_days i) anchor.day then month_days i else anchor.day))
      (ap pos_part (+ℤ-pos anchor.index (n * step)))
    ∙ ap (date (anchor.index + n * step))
        (smaller anchor.day (month_days (anchor.index + n * step)))
  where
    smaller : (a b : ℕ) → (if ltb b a then b else a) ≡ min a b
    smaller a b = ground arith

pub clamped-IsDate : (anchor : Date) (z : ℤ) → IsDate anchor → IsDate (add_months_clamped anchor z)
unfolding add_months_clamped month_end
clamped-IsDate anchor z h = ground (arith, month_days_bounds (pos_part (pos anchor.index +ℤ z)))

-- A multiple of `n` above `a`, and one not above it, from the quotient.
mul_above : (a n : ℕ) → 1 ≤ n → a < (a / n + 1) * n
mul_above a n h = grind arith

mul_below : (a n : ℕ) → 1 ≤ n → a / n * n ≤ a
mul_below a n h = grind arith

times-neg : (q n : ℕ) → times (neg_ℤ (pos q)) n ≡ neg_ℤ (pos (q * n))
times-neg zero n = ap (λ z. times z n) {y = pos 0} (omega int_laws) ∙ omega int_laws
times-neg (suc q) n = ap (λ z. times z n) {y = negsuc q} (omega int_laws)

-- One more than minus a quotient, times the divisor.
below-times : (q k n : ℕ) → 1 ≤ n → q * n ≤ suc k → negsuc k <ℤ times (neg_ℤ (pos q) +ℤ pos 1) n
below-times zero k n h p =
    let e : neg_ℤ (pos 0) +ℤ pos 1 ≡ pos 1 = omega int_laws in rw e (omega arith)
below-times (suc q) k n h p =
    let e : neg_ℤ (pos (suc q)) +ℤ pos 1 ≡ neg_ℤ (pos q) = omega int_laws in
    rw (e, times-neg q n) (grind int_laws)

-- The index that `nextRecurringDate` starts from is past the current month.
index-past : (e : ℤ) (step : ℕ) → 1 ≤ step → e <ℤ times (quot e step +ℤ pos 1) step
index-past (pos a) step h = rw +ℤ-pos (omega (arith, mul_above a step h))
index-past (negsuc a) step h = below-times (suc a / step) a step h (mul_below (suc a) step h)

-- The candidate at an index past the current month is after the current date.
candidate-after :
    (anchor current : Date) (z : ℤ)
    → months_elapsed anchor current <ℤ z
    → after (add_months_clamped anchor z) current ≡ true
unfolding add_months_clamped
candidate-after anchor current z h =
    let later : current.index < pos_part (pos anchor.index +ℤ z) = omega (int_laws) in
    rw (lt→ltb _ _ later)

-- The loop ends at its first candidate.
next_month_date-eq :
    (anchor current : Date) (step : ℕ)
    → 1 ≤ step
    → next_month_date anchor current step
      ≡ add_months_clamped anchor (times (quot (months_elapsed anchor current) step +ℤ pos 1) step)
unfolding advance
next_month_date-eq anchor current step h =
    rw (candidate-after anchor current _ (index-past _ step h)) refl

later_day :
    (d : Date) (n : ℕ) → IsDate d → 1 ≤ n → (after (add_days d n) d ≡ true) × IsDate (add_days d n)
later_day d n h k =
    let r : LandsAt (ordinal d + n) (add_days d n) = add_days-LandsAt d n h in
    ((before-ordinal d (add_days d n) h r.is_date).1 (rw r.ordinal_is (omega arith)), r.is_date)

later_month :
    (anchor current : Date) (step : ℕ)
    → IsDate anchor
    → 1 ≤ step
    → (after (next_month_date anchor current step) current ≡ true)
      × IsDate (next_month_date anchor current step)
later_month anchor current step ha h =
    rw (next_month_date-eq anchor current step h)
      (candidate-after anchor current _ (index-past _ step h), clamped-IsDate anchor _ ha)

next_on_grid :
    (anchor : Date) (step n : ℕ)
    → 1 ≤ step
    → next_month_date anchor (grid anchor step n) step ≡ grid anchor step (n + 1)
next_on_grid anchor step n h =
    let e : months_elapsed anchor (grid anchor step n) ≡ pos (n * step) = omega int_laws in
    next_month_date-eq anchor (grid anchor step n) step h
    ∙ ap (λ z. add_months_clamped anchor (times (quot z step +ℤ pos 1) step)) e
    ∙ ap (λ k. add_months_clamped anchor (times (pos k +ℤ pos 1) step)) (mul-div_cancel n h)
    ∙ ap (λ z. add_months_clamped anchor (times z step)) (+ℤ-pos n 1)
    ∙ add_months_clamped-grid anchor step (n + 1)

-- For a date of the calendar, whatever the current one, a known unit and a count of at least one,
-- the next scheduled date is a real date after the current one: generation always moves forward.
pub next_recurring_date-after :
    (anchor current : Date) (unit : IntervalUnit) (count : ℕ)
    → IsDate anchor
    → IsDate current
    → is_unit unit ≡ true
    → 1 ≤ count
    → (after (next_recurring_date anchor current unit count) current ≡ true)
      × IsDate (next_recurring_date anchor current unit count)
unfolding next_recurring_date
next_recurring_date-after anchor current days count ha hc hu h = later_day current count hc h
next_recurring_date-after anchor current weeks count ha hc hu h =
    later_day current (7 * count) hc (omega arith)
next_recurring_date-after anchor current months count ha hc hu h =
    later_month anchor current count ha h
next_recurring_date-after anchor current years count ha hc hu h =
    later_month anchor current (count * 12) ha (omega arith)
next_recurring_date-after anchor current other_unit count ha hc hu h = cc

-- From the n-th date of the grid of a monthly or yearly schedule, the next date is the (n + 1)-th. The
-- grid has, in each month that is a multiple of the step after the anchor's, the day of the anchor, or
-- the last day of the month where that is sooner: a short month in between does not lose the day.
pub next_recurring_date-grid :
    (anchor : Date) (count n : ℕ)
    → 1 ≤ count
    → (next_recurring_date anchor (grid anchor count n) months count ≡ grid anchor count (n + 1))
      × (next_recurring_date anchor (grid anchor (count * 12) n) years count
          ≡ grid anchor (count * 12) (n + 1))
unfolding next_recurring_date
next_recurring_date-grid anchor count n h =
    (next_on_grid anchor count n h, next_on_grid anchor (count * 12) n (omega arith))
