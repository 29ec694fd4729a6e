-- ===== src/Calendar/Order.antt =====
-- The order of dates and of their ordinals.
use native.Mathlib.Decide.{le_ind}
use native.Mathlib.Nat.{le_refl}
use my_finance.Common.{ℕ, suc, ◌+◌, ◌≤◌, ◌<◌, ◌≡◌, ◌↔◌, true, arith}
use my_finance.Calendar.{Date, IsDate, before, month_days, days_before, ordinal}

pub days_before_mono : (i j : ℕ) → i ≤ j → days_before i ≤ days_before j
unfolding days_before
days_before_mono i j h =
    le_ind (λ m. days_before i ≤ days_before m) (le_refl _) (λ m le ih. omega arith) j h

-- A month's days come before each day of a later month.
days_before-lt :
    (i j a b : ℕ) → i < j → a ≤ month_days i → 1 ≤ b → days_before i + a < days_before j + b
unfolding days_before
days_before-lt i j a b h p q = omega (arith, days_before_mono (suc i) j h)

-- `Before` is the order of the days.
pub before-ordinal :
    (a b : Date) → IsDate a → IsDate b → (before a b ≡ true) ↔ (ordinal a < ordinal b)
unfolding ordinal
before-ordinal a b ha hb =
    ground (
      arith,
      days_before-lt a.index b.index a.day b.day,
      days_before-lt b.index a.index b.day a.day,
    )
