-- ===== src/Recurring/Schedule/Valid.antt =====
-- The schedules that `normalizeRecurringSchedule` accepts.
use my_finance.Common.{ℕ, ◌≤◌, ◌≡◌, sym, true, false, Option, arith}
use mathlib.Core.Path.{subst}
use my_finance.Calendar.{Date, IsDate, after}
use my_finance.Errors.{ok}
use my_finance.Recurring.Schedule.{
  Frequency, IntervalUnit, Schedule, is_unit, normalize, ends_before, next_recurring_date,
}
use my_finance.Recurring.Schedule.Grid.{next_recurring_date-after}

-- A schedule that `normalizeRecurringSchedule` may return.
pub record IsSchedule (q : Schedule) : Type 0 where
  pub known_unit : is_unit q.unit ≡ true
  pub some_interval : 1 ≤ q.count
  pub short_interval : q.count ≤ 365
  pub in_order : ends_before q.end_date q.start ≡ false

-- An accepted schedule is a valid one and starts where it was asked to.
pub normalize-IsSchedule :
    (f : Frequency) (unit : Option IntervalUnit) (count : Option ℕ) (start : Date)
    (end_date : Option Date) (q : Schedule)
    → normalize f unit count start end_date ≡ ok q
    → IsSchedule q × (q.start ≡ start)
unfolding normalize
normalize-IsSchedule f unit count start end_date q h = ground arith

-- An accepted schedule with a real start date goes forward from each real date, to a real date.
pub normalize-next_recurring_date :
    (f : Frequency) (unit : Option IntervalUnit) (count : Option ℕ) (start : Date)
    (end_date : Option Date) (q : Schedule) (current : Date)
    → normalize f unit count start end_date ≡ ok q
    → IsDate start
    → IsDate current
    → (after (next_recurring_date q.start current q.unit q.count) current ≡ true)
      × IsDate (next_recurring_date q.start current q.unit q.count)
normalize-next_recurring_date f unit count start end_date q current h real_start real =
    let (valid, same) = normalize-IsSchedule f unit count start end_date q h in
    next_recurring_date-after q.start current q.unit q.count (subst IsDate (sym same) real_start)
      real valid.known_unit valid.some_interval
