-- ===== src/Reconciliation/Period/Prompt.antt =====
-- When the prompt of a reconciliation is open, and for which month.
use my_finance.Common.{
  ℕ, ◌+◌, ◌-◌, ◌≤◌, ◌≡◌, refl, ap, ◌∙◌, Bool, true, false, not, ◌&&◌, ◌||◌, ltb, leb, if◌then◌else◌,
  arith, Bool-cases, le_of_leb, lt_of_leb, inl, inr,
}
use my_finance.Calendar.{
  Date, date, IsDate, before, after, month_days, month_end, sub_months, sub_days, add_days, borrow,
  carry, of_civil,
}
use my_finance.Calendar.Months.{month_days_bounds, end_minus_five, end_plus_one, sub_months_within}
use my_finance.Errors.{ok}
use my_finance.Reconciliation.Period.{
  Window, window, window_for_period, proposed_period, validate_period,
}

-- The dates of `TestReconciliationWindowAcrossYearBoundary`.
window_test :
    ((window (of_civil 2026 12 25)).is_open ≡ false)
    × ((window (of_civil 2026 12 26)).is_open ≡ true)
unfolding window window_for_period proposed_period month_end sub_days sub_months add_days borrow
    carry month_days
window_test = (refl, refl)

-- The month before, for a day that it holds.
month_before :
    (d : Date)
    → d.day ≤ 28
    → month_end (sub_months d 1) ≡ date (d.index - 1) (month_days (d.index - 1))
unfolding month_end
month_before d h =
    let (low, high) = month_days_bounds (d.index - 1) in
    ap month_end (sub_months_within d 1 (omega (arith, h, low)))

-- The last six days of a month, from the sixth on.
abbrev closing : Date → Bool
closing d = not (leb d.day 5) && leb (month_days d.index) (d.day + 5)

closing_start : (d : Date) → sub_days (month_end d) 5 ≡ date d.index (month_days d.index - 5)
unfolding month_end
closing_start d = end_minus_five d.index

before-same : (d : Date) (n : ℕ) → before d (date d.index n) ≡ ltb d.day n
before-same d n = ground arith

proposed_period-eq :
    (today : Date)
    → IsDate today
    → proposed_period today ≡ (
        if closing today
        then month_end today
        else date (today.index - 1) (month_days (today.index - 1)))
unfolding proposed_period
proposed_period-eq today h =
    let (low, high) = month_days_bounds today.index in
    elim (Bool-cases (leb today.day 5)) [
      | inl first ↦ rw first (month_before today (omega (arith, le_of_leb today.day 5 first)))
      | inr later ↦ elim (Bool-cases (leb (month_days today.index) (today.day + 5))) [
        | inl last ↦
            let due : before today (sub_days (month_end today) 5) ≡ false =
              ap (before today) (closing_start today)
              ∙ before-same today (month_days today.index - 5)
              ∙ ground arith in
            rw (later, last, due) refl
        | inr middle ↦
            let early : before today (sub_days (month_end today) 5) ≡ true =
              ap (before today) (closing_start today)
              ∙ before-same today (month_days today.index - 5)
              ∙ ground arith in
            rw (later, middle, early)
              (month_before today
                (omega (arith, lt_of_leb (month_days today.index) (today.day + 5) middle, high)))
      ]
    ]

-- The window of the month with the index `j`.
window-month :
    (today : Date) (j : ℕ)
    → window_for_period today (date j (month_days j)) ≡ record {
      period_end = date j (month_days j);
      prompt_start = date j (month_days j - 5);
      prompt_end = date (j + 1) 5;
      is_open =
          not (before today (date j (month_days j - 5))) && not (after today (date (j + 1) 5));
    }
unfolding window_for_period month_end
window-month today j = rw (end_minus_five j, end_plus_one j) refl

validate-month :
    (today : Date) (j : ℕ) → j ≤ today.index → validate_period today (date j (month_days j)) ≡ ok tt
unfolding validate_period month_end
validate-month today j h = ground arith

proposed_month : Date → ℕ
proposed_month today = if closing today then today.index else today.index - 1

window-eq :
    (today : Date)
    → IsDate today
    → window today
      ≡ window_for_period today (date (proposed_month today) (month_days (proposed_month today)))
unfolding window month_end proposed_month
window-eq today h =
    rw (proposed_period-eq today h)
      (elim (Bool-cases (closing today)) [ inl c ↦ rw c refl | inr c ↦ rw c refl ])

-- On every real date, `PrepareReconciliation` accepts the period that the prompt proposes.
pub window-validate_period :
    (today : Date) → IsDate today → validate_period today (window today).period_end ≡ ok tt
unfolding proposed_month
window-validate_period today h =
    ap (λ (w : Window). validate_period today w.period_end)
      (window-eq today h ∙ window-month today (proposed_month today))
    ∙ validate-month today (proposed_month today) (ground arith)

-- On every real date after the first month of year 0, the prompt is open exactly on the first five
-- days of the month and on its last six.
pub window-is_open :
    (today : Date)
    → IsDate today
    → 1 ≤ today.index
    → (window today).is_open ≡ leb today.day 5 || leb (month_days today.index) (today.day + 5)
unfolding proposed_month
window-is_open today h later =
    let (low, high) = month_days_bounds today.index in
    let (before_low, before_high) = month_days_bounds (today.index - 1) in
    ap (λ (w : Window). w.is_open) (window-eq today h ∙ window-month today (proposed_month today))
    ∙ ground arith
