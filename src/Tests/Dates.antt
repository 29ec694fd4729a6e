-- ===== src/Tests/Dates.antt =====
-- Calendar, schedules and the reconciliation prompt at concrete dates.
use my_finance.Common.{◌<◌, ◌≡◌, ◌↔◌, refl, true, arith, leb, ◌||◌, ◌+◌, some}
use my_finance.Calendar.{Date, IsDate, after, before, of_civil, ordinal, month_days, add_days}
use my_finance.Calendar.Months.{LandsAt, add_days-LandsAt}
use my_finance.Calendar.Order.{before-ordinal}
use my_finance.Errors.{ok}
use my_finance.Recurring.Schedule.{
  Schedule, months, years, weeks, custom, normalize, next_recurring_date,
}
use my_finance.Recurring.Schedule.Grid.{grid, next_recurring_date-after, next_recurring_date-grid}
use my_finance.Recurring.Schedule.Valid.{normalize-next_recurring_date}
use my_finance.Reconciliation.Period.{validate_period, window}
use my_finance.Reconciliation.Period.Prompt.{window-validate_period, window-is_open}

abbrev jan31 : Date
jan31 = of_civil 2027 1 31

abbrev feb28 : Date
feb28 = of_civil 2027 2 28

jan31-IsDate : IsDate jan31
unfolding month_days
jan31-IsDate = (omega arith, omega arith)

feb28-IsDate : IsDate feb28
unfolding month_days
feb28-IsDate = (omega arith, omega arith)

add_days-LandsAt_example : LandsAt (ordinal jan31 + 30) (add_days jan31 30)
add_days-LandsAt_example = add_days-LandsAt jan31 30 jan31-IsDate

before-ordinal_example : (before jan31 feb28 ≡ true) ↔ (ordinal jan31 < ordinal feb28)
before-ordinal_example = before-ordinal jan31 feb28 jan31-IsDate feb28-IsDate

next_recurring_date-after_example :
    (after (next_recurring_date jan31 feb28 months 1) feb28 ≡ true)
    × IsDate (next_recurring_date jan31 feb28 months 1)
next_recurring_date-after_example =
    next_recurring_date-after jan31 feb28 months 1 jan31-IsDate feb28-IsDate refl (omega arith)

next_recurring_date-grid_example :
    (next_recurring_date jan31 (grid jan31 3 4) months 3 ≡ grid jan31 3 5)
    × (next_recurring_date jan31 (grid jan31 36 4) years 3 ≡ grid jan31 36 5)
next_recurring_date-grid_example = next_recurring_date-grid jan31 3 4 (omega arith)

abbrev every_ten_weeks : Schedule
every_ten_weeks = record {
  frequency = custom;
  unit = weeks;
  count = 10;
  start = jan31;
  end_date = some feb28;
}

normalize-next_recurring_date_example :
    (after (next_recurring_date jan31 feb28 weeks 10) feb28 ≡ true)
    × IsDate (next_recurring_date jan31 feb28 weeks 10)
unfolding normalize
normalize-next_recurring_date_example =
    normalize-next_recurring_date custom (some weeks) (some 10) jan31 (some feb28) every_ten_weeks
      feb28 refl jan31-IsDate feb28-IsDate

window-validate_period_example : validate_period jan31 (window jan31).period_end ≡ ok tt
window-validate_period_example = window-validate_period jan31 jan31-IsDate

window-is_open_example :
    (window feb28).is_open ≡ leb feb28.day 5 || leb (month_days feb28.index) (feb28.day + 5)
window-is_open_example = window-is_open feb28 feb28-IsDate (omega arith)
