-- ===== src/Calendar/Months.antt =====
-- The lengths of months, and days carried over their ends.
use native.Mathlib.Numerals.{add-one}
use my_finance.Common.{
  ap, ℕ, zero, suc, ◌+◌, ◌-◌, ◌≤◌, ◌<◌, ◌≡◌, refl, ◌∙◌, arith, false, inl, inr, Bool-cases, leb,
  ltb, le_of_leb, lt_of_leb, le_of_ltb, lt_of_ltb,
}
use my_finance.Calendar.{
  Date, date, month_days, IsDate, carry, add_months, sub_months, add_days, borrow, sub_days,
  days_before, ordinal,
}

-- Every month has from 28 to 31 days.
pub month_days_bounds : (i : ℕ) → (28 ≤ month_days i) × (month_days i ≤ 31)
unfolding month_days
month_days_bounds i = ground arith

-- A date at the ordinal `n`.
pub record LandsAt (n : ℕ) (d : Date) : Type 0 where
  pub is_date : IsDate d
  pub ordinal_is : ordinal d ≡ n

pub days_before-suc : (i : ℕ) → days_before (i + 1) ≡ days_before i + month_days i
unfolding days_before
days_before-suc i = rw add-one refl

carry-LandsAt : (fuel i d : ℕ) → 1 ≤ d → d ≤ fuel → LandsAt (days_before i + d) (carry fuel i d)
unfolding carry
carry-LandsAt zero i d h k = absurd (omega arith)
carry-LandsAt (suc fuel) i d h k = elim (Bool-cases (leb d (month_days i))) [
  | inl fits ↦
      rw fits (record { is_date = (h, le_of_leb _ _ fits); ordinal_is = unfold ordinal in refl })
  | inr past ↦
      let more : month_days i < d = lt_of_leb _ _ past in
      let ih : LandsAt (days_before (i + 1) + (d - month_days i))
          (carry fuel (i + 1) (d - month_days i)) =
        carry-LandsAt fuel (i + 1) (d - month_days i) (omega arith)
          (omega (arith, month_days_bounds i)) in
      rw past (record {
        is_date = ih.is_date;
        ordinal_is = ih.ordinal_is ∙ omega (arith, days_before-suc i);
      })
]

borrow-LandsAt :
    (i d n : ℕ)
    → n < days_before i + d
    → d - n ≤ month_days i
    → LandsAt (days_before i + d - n) (borrow i d n)
unfolding borrow days_before
borrow-LandsAt zero d n h q = record {
  is_date = omega arith;
  ordinal_is = unfold ordinal in omega arith;
}
borrow-LandsAt (suc i) d n h q = elim (Bool-cases (ltb n d)) [
  | inl here ↦ rw here (record {
    is_date = omega (arith, lt_of_ltb _ _ here);
    ordinal_is = unfold ordinal in omega (arith, lt_of_ltb _ _ here);
  })
  | inr back ↦
      let short : d ≤ n = le_of_ltb _ _ back in
      let ih : LandsAt (days_before i + (d + month_days i) - n) (borrow i (d + month_days i) n) =
        borrow-LandsAt i (d + month_days i) n (omega arith) (omega arith) in
      rw back (record { is_date = ih.is_date; ordinal_is = ih.ordinal_is ∙ omega arith })
]

-- `AddDate(0, 0, n)` is a real date, `n` days later.
pub add_days-LandsAt : (d : Date) (n : ℕ) → IsDate d → LandsAt (ordinal d + n) (add_days d n)
unfolding add_days ordinal
add_days-LandsAt d n h =
    let r : LandsAt (days_before d.index + (d.day + n)) (carry (d.day + n) d.index (d.day + n)) =
      carry-LandsAt (d.day + n) d.index (d.day + n) (omega arith) (omega arith) in
    record { is_date = r.is_date; ordinal_is = r.ordinal_is ∙ omega arith }

-- `AddDate(0, 0, -n)` is a real date, `n` days earlier, while the calendar goes back so far.
pub sub_days-LandsAt :
    (d : Date) (n : ℕ) → IsDate d → n < ordinal d → LandsAt (ordinal d - n) (sub_days d n)
unfolding sub_days ordinal
sub_days-LandsAt d n h k = borrow-LandsAt d.index d.day n k (omega arith)

carry_within : (fuel i d : ℕ) → d ≤ month_days i → carry fuel i d ≡ date i d
unfolding carry
carry_within zero i d h = refl
carry_within (suc fuel) i d h = ground arith

-- A day that the month holds stays where it is.
pub sub_months_within :
    (d : Date) (m : ℕ)
    → d.day ≤ month_days (d.index - m)
    → sub_months d m ≡ date (d.index - m) d.day
unfolding sub_months
sub_months_within d m h = carry_within d.day (d.index - m) d.day h

pub add_months_within :
    (d : Date) (m : ℕ)
    → d.day ≤ month_days (d.index + m)
    → add_months d m ≡ date (d.index + m) d.day
unfolding add_months
add_months_within d m h = carry_within d.day (d.index + m) d.day h

pub sub_days_within : (i d n : ℕ) → n < d → sub_days (date i d) n ≡ date i (d - n)
unfolding sub_days borrow
sub_days_within zero d n h = refl
sub_days_within (suc i) d n h = ground arith

-- Five days before the end of a month.
pub end_minus_five : (i : ℕ) → sub_days (date i (month_days i)) 5 ≡ date i (month_days i - 5)
end_minus_five i =
    let (low, high) = month_days_bounds i in sub_days_within i (month_days i) 5 (omega arith)

carry_past :
    (n i : ℕ) → 1 ≤ month_days (i + 1) → (carry (suc n) i (suc (month_days i))).index ≡ i + 1
unfolding carry
carry_past n i h = rw past (
    ap (λ (d : Date). d.index)
      (carry_within n (i + 1) (suc (month_days i) - month_days i) (omega (arith, h))))
  where
    past : leb (suc (month_days i)) (month_days i) ≡ false
    past = ground arith

-- The day after the end of a month.
pub end_plus_one : (i : ℕ) → (add_days (date i (month_days i)) 1).index ≡ i + 1
unfolding add_days
end_plus_one i =
    let (low, high) = month_days_bounds (i + 1) in
    ap (λ n. (carry n i n).index) (add-one (month_days i))
    ∙ carry_past (month_days i) i (omega (arith, low))
