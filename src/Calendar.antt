-- ===== src/Calendar.antt =====
-- What the program uses of Go's `time` package, on dates at midnight UTC (`dateOnly`): `time.Date`
-- with a month or a day past its end, `AddDate`, `Before`, `After`, `Equal`. A date is the number
-- of months since January of year 0 and the day of that month.
pub mod Months
pub mod Order
use my_finance.Common.{
  ℕ, zero, suc, ◌+◌, ◌-◌, ◌*◌, ◌/◌, ◌%◌, ◌≤◌, Bool, true, false, not, ◌&&◌, ◌||◌, ltb, leb, ◌==◌,
  if◌then◌else◌,
}

pub record Date : Type 0 where
  pub index : ℕ
  pub day : ℕ

abbrev pub date : ℕ → ℕ → Date
date i d = record { index = i; day = d }

-- `time.Date(y, m, d)` for a month from 1 to 12.
abbrev pub of_civil : ℕ → ℕ → ℕ → Date
of_civil y m d = date (12 * y + (m - 1)) d

-- `Year()` and `Month()`
abbrev pub year : Date → ℕ
year d = d.index / 12

abbrev pub month : Date → ℕ
month d = d.index % 12 + 1

abbrev pub is_leap : ℕ → Bool
is_leap y = y % 4 == 0 && (not (y % 100 == 0) || y % 400 == 0)

-- The days of a month, by its index.
unfoldable pub month_days : ℕ → ℕ
month_days i =
    let m = i % 12 in
    if m == 1
    then (if is_leap (i / 12) then 29 else 28)
    else if m == 3 || m == 5 || m == 8 || m == 10
    then 30
    else 31

abbrev pub IsDate : Date → Type 0
IsDate d = (1 ≤ d.day) × (d.day ≤ month_days d.index)

-- `a.Before(b)`
abbrev pub before : Date → Date → Bool
before a b = ltb a.index b.index || (a.index == b.index && ltb a.day b.day)

-- `a.After(b)`
abbrev pub after : Date → Date → Bool
after a b = before b a

-- `a.Equal(b)`
abbrev pub date_eq : Date → Date → Bool
date_eq a b = a.index == b.index && a.day == b.day

-- `time.Date(y, m, d)` for a day past the end of its month: the days run on into the next months.
-- The first argument bounds the months; each holds 28 days at least.
unfoldable pub carry : ℕ → ℕ → ℕ → Date
carry zero i d = date i d
carry (suc fuel) i d =
    let later = carry fuel (i + 1) (d - month_days i) in
    if leb d (month_days i) then date i d else later

-- `AddDate(0, months, 0)`
unfoldable pub add_months : Date → ℕ → Date
unfolding carry
add_months d months = carry d.day (d.index + months) d.day

-- `AddDate(0, -months, 0)`
unfoldable pub sub_months : Date → ℕ → Date
unfolding carry
sub_months d months = carry d.day (d.index - months) d.day

-- `AddDate(0, 0, n)`
unfoldable pub add_days : Date → ℕ → Date
unfolding carry
add_days d n = carry (d.day + n) d.index (d.day + n)

-- `AddDate(0, 0, -n)`, by months from the end back.
unfoldable pub borrow : ℕ → ℕ → ℕ → Date
borrow zero d n = date 0 (d - n)
borrow (suc i) d n =
    let sooner = borrow i (d + month_days i) n in if ltb n d then date (suc i) (d - n) else sooner

unfoldable pub sub_days : Date → ℕ → Date
unfolding borrow
sub_days d n = borrow d.index d.day n

-- `monthEnd`: day 0 of the next month is the last day of this one.
unfoldable pub month_end : Date → Date
month_end d = date d.index (month_days d.index)

-- Days from the first of January of year 0.
unfoldable pub days_before : ℕ → ℕ
days_before zero = 0
days_before (suc i) = days_before i + month_days i

unfoldable pub ordinal : Date → ℕ
ordinal d = days_before d.index + d.day
