-- ===== src/Reconciliation/Period.antt =====
-- `reconciliationWindow`, `reconciliationWindowForPeriod`, `validateReconciliationPeriod` and
-- `reconciliationGapMonths` of internal/httpapi/reconciliation.go.
pub mod Prompt
use my_finance.Common.{
  ℕ, ◌+◌, ◌-◌, ◌*◌, Bool, true, false, not, ◌&&◌, Option, none, some, ltb, leb, ◌==◌, if◌then◌else◌,
}
use my_finance.Calendar.{
  Date, date, before, after, date_eq, sub_months, add_days, sub_days, month_end,
}
use my_finance.Errors.{Result, ok, err, validation, not_month_end, future_month}

-- The results of `reconciliationWindowForPeriod`.
pub record Window : Type 0 where
  pub period_end : Date
  pub prompt_start : Date
  pub prompt_end : Date
  pub is_open : Bool

-- `reconciliationWindowForPeriod`
unfoldable pub window_for_period : Date → Date → Window
window_for_period today given =
    let period_end = month_end given in
    let prompt_start = sub_days period_end 5 in
    let prompt_end = date (add_days period_end 1).index 5 in
    record {
      period_end = period_end;
      prompt_start = prompt_start;
      prompt_end = prompt_end;
      is_open = not (before today prompt_start) && not (after today prompt_end);
    }

abbrev previous_month_end : Date → Date
previous_month_end today = month_end (sub_months today 1)

-- The period that `reconciliationWindow` chooses.
unfoldable pub proposed_period : Date → Date
proposed_period today =
    if leb today.day 5
    then previous_month_end today
    else if not (before today (sub_days (month_end today) 5))
    then month_end today
    else previous_month_end today

-- `reconciliationWindow`
unfoldable pub window : Date → Window
window today = window_for_period today (proposed_period today)

-- `validateReconciliationPeriod`
unfoldable pub validate_period : Date → Date → Result (Unit {0})
validate_period today period_end =
    if not (date_eq period_end (month_end period_end))
    then err (validation not_month_end)
    else if after period_end (month_end today)
    then err (validation future_month)
    else ok tt

abbrev at_least_one : ℕ → ℕ
at_least_one n = if ltb n 1 then 1 else n

-- `reconciliationGapMonths`; the difference of the months is that of their indices, and one below
-- 1 counts as 1.
unfoldable pub gap_months : Option Date → Date → ℕ
gap_months none period_end = 1
gap_months (some previous) period_end = at_least_one (period_end.index - previous.index)

-- The gap of `reconciliationPreviewSelect`. `age d e` is what PostgreSQL's `age` of two dates gives
-- as years and months, in months.
unfoldable pub age_gap : (Date → Date → ℕ) → Option Date → Date → ℕ
age_gap age none period_end = 1
age_gap age (some previous) period_end = at_least_one (age period_end previous)
