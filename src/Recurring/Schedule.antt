-- ===== src/Recurring/Schedule.antt =====
-- The schedule of a recurring template: `normalizeRecurringSchedule`, `nextRecurringDate` and
-- `addMonthsClamped` of internal/httpapi/recurring.go. Months before year 0 are not represented.
pub mod Grid
pub mod Valid
use my_finance.Common.{
  ℕ, zero, suc, ◌+◌, ◌*◌, ◌/◌, Bool, true, false, not, ◌&&◌, ◌||◌, Option, none, some, ltb, leb,
  ◌==◌, if◌then◌else◌, ◌≡◌, refl,
}
use my_finance.Common.Int.{ℤ, pos, negsuc, pos_part, ◌+ℤ◌, ◌-ℤ◌, neg_ℤ}
use my_finance.Calendar.{Date, date, of_civil, year, month, before, after, add_days, month_end}
use my_finance.Errors.{Result, ok, err, validation, bad_frequency, bad_interval, end_before_start}

-- `api.RecurringIntervalUnit`; `other_unit` is any other text.
pub data IntervalUnit : Type 0 where
  days weeks months years other_unit : IntervalUnit

-- `api.RecurringFrequency`; `other_frequency` is any other text.
pub data Frequency : Type 0 where
  weekly monthly quarterly yearly custom other_frequency : Frequency

pub record Schedule : Type 0 where
  pub frequency : Frequency
  pub unit : IntervalUnit
  pub count : ℕ
  pub start : Date
  pub end_date : Option Date

-- `Valid` of the generated enum.
abbrev pub is_unit : IntervalUnit → Bool
is_unit other_unit = false
is_unit u = true

-- The unit and count of a custom schedule. `count` is not negative here: a negative one fails the
-- same test as 0.
abbrev pub custom_interval : Option IntervalUnit → Option ℕ → Result (IntervalUnit × ℕ)
custom_interval none count = err (validation bad_interval)
custom_interval (some u) none = err (validation bad_interval)
custom_interval (some u) (some n) =
    if not (is_unit u) || ltb n 1 || ltb 365 n then err (validation bad_interval) else ok (u, n)

abbrev pub interval : Frequency → Option IntervalUnit → Option ℕ → Result (IntervalUnit × ℕ)
interval weekly unit count = ok (weeks, 1)
interval monthly unit count = ok (months, 1)
interval quarterly unit count = ok (months, 3)
interval yearly unit count = ok (years, 1)
interval custom unit count = custom_interval unit count
interval other_frequency unit count = err (validation bad_frequency)

abbrev pub ends_before : Option Date → Date → Bool
ends_before none start = false
ends_before (some d) start = before d start

abbrev with_interval : Frequency → Date → Option Date → Result (IntervalUnit × ℕ) → Result Schedule
with_interval f start end_date (err e) = err e
with_interval f start end_date (ok (u, n)) =
    if ends_before end_date start
    then err (validation end_before_start)
    else ok (record { frequency = f; unit = u; count = n; start = start; end_date = end_date })

-- `normalizeRecurringSchedule`
unfoldable pub normalize :
    Frequency → Option IntervalUnit → Option ℕ → Date → Option Date → Result Schedule
normalize f unit count start end_date = with_interval f start end_date (interval f unit count)

-- Go's division, which truncates towards zero.
abbrev pub quot : ℤ → ℕ → ℤ
quot (pos a) n = pos (a / n)
quot (negsuc a) n = neg_ℤ (pos (suc a / n))

abbrev pub times : ℤ → ℕ → ℤ
times (pos a) n = pos (a * n)
times (negsuc a) n = neg_ℤ (pos (suc a * n))

-- `addMonthsClamped`
unfoldable pub add_months_clamped : Date → ℤ → Date
add_months_clamped anchor n =
    let first = date (pos_part (pos anchor.index +ℤ n)) 1 in
    let last_day = (month_end first).day in
    date first.index (if ltb last_day anchor.day then last_day else anchor.day)

abbrev pub months_elapsed : Date → Date → ℤ
months_elapsed anchor current =
    pos (year current * 12 + month current) -ℤ pos (year anchor * 12 + month anchor)

-- The loop `for !candidate.After(current)`, on fuel; its candidate is that of `index`.
unfoldable pub advance : ℕ → Date → Date → ℕ → ℤ → Date
advance zero anchor current step index = add_months_clamped anchor (times index step)
advance (suc fuel) anchor current step index =
    let later = advance fuel anchor current step (index +ℤ pos 1) in
    let candidate = add_months_clamped anchor (times index step) in
    if after candidate current then candidate else later

abbrev pub next_month_date : Date → Date → ℕ → Date
next_month_date anchor current step =
    advance 1 anchor current step (quot (months_elapsed anchor current) step +ℤ pos 1)

-- `nextRecurringDate`
unfoldable pub next_recurring_date : Date → Date → IntervalUnit → ℕ → Date
next_recurring_date anchor current days count = add_days current count
next_recurring_date anchor current weeks count = add_days current (7 * count)
next_recurring_date anchor current months count = next_month_date anchor current count
next_recurring_date anchor current years count = next_month_date anchor current (count * 12)
next_recurring_date anchor current other_unit count = current

abbrev jan31 : Date
jan31 = of_civil 2027 1 31

-- The dates of `TestNextRecurringDatePreservesMonthEndAnchor`.
month_end_anchor :
    (next_recurring_date jan31 jan31 months 1 ≡ of_civil 2027 2 28)
    × (next_recurring_date jan31 (of_civil 2027 2 28) months 1 ≡ of_civil 2027 3 31)
unfolding next_recurring_date advance add_months_clamped month_end ◌+ℤ◌ ◌-ℤ◌
    my_finance.Calendar.month_days
month_end_anchor = (refl, refl)
