-- ===== src/Tests/Confirming.antt =====
-- The confirmation of a preview at concrete tables.
use my_finance.Common.{◌-◌, ℕ, ◌≤◌, ◌≡◌, refl, false, none, some, [], ◌∷◌, arith, find, any}
use my_finance.Common.Int.{pos, neg_ℤ, ◌+ℤ◌}
use my_finance.Text.{contains, is_space, len, split, text_eq, trim_left, trim_right, trim_space}
use my_finance.Calendar.{Date, month_days, month_end, of_civil}
use my_finance.Money.{digits, emit, parse, parse_parts, print, to_string, value, with_point}
use my_finance.Errors.{ok}
use my_finance.Reconciliation.Period.{age_gap}
use my_finance.Reconciliation.State.{
  account_balance_at, active_reconciliation, balance_over, Books, lock_account, Preview,
  previous_period, reconciliation_by_key, Reconciliation, Snapshot,
}
use my_finance.Reconciliation.Apply.{
  apply_new, apply_reconciliation, insert_reconciliation, insert_snapshot, post_adjustment,
  replace_current,
}
use my_finance.Reconciliation.Handlers.{amount_strings_equal, confirm_open, mark_confirmed}
use my_finance.Reconciliation.Handlers.Confirm.{confirm_open-eq-ok}
use my_finance.Tests.Postings.{ids, opened}

abbrev agreed : Preview
agreed = record {
  id = 30;
  user = 1;
  account = 10;
  period_end = of_civil 2027 1 31;
  reported = pos 500;
  ledger = pos 500;
  difference = pos 0;
  key = 90;
  current = none;
  confirmed = none;
  expires_at = 1000;
}

abbrev books : Books
books = record { ledger = opened; reconciliations = []; snapshots = []; previews = agreed ∷ [] }

abbrev row : Reconciliation
row = record {
  id = 102;
  user = 1;
  account = 10;
  period_end = of_civil 2027 1 31;
  reported = pos 500;
  ledger_before = pos 500;
  difference = pos 0;
  adjustment = pos 0;
  adjustment_transaction = none;
  reversal_transaction = none;
  supersedes = none;
  gap_start = none;
  gap_months = 1;
  key = 90;
  superseded = false;
}

abbrev snapshot : Snapshot
snapshot = record {
  user = 1;
  account = 10;
  reconciliation = 102;
  period_end = of_civil 2027 1 31;
  reported = pos 500;
  currency = 978;
}

abbrev confirmed : Books
confirmed = record {
  ledger = opened;
  reconciliations = row ∷ [];
  snapshots = snapshot ∷ [];
  previews = record agreed { confirmed = some 102 } ∷ [];
}

abbrev sum_key : ℕ → ℕ → ℕ
sum_key a b = a

abbrev months_apart : Date → Date → ℕ
months_apart d e = d.index - e.index

confirmed_ok : confirm_open months_apart sum_key ids 900 agreed books ≡ ok (row, confirmed)
unfolding confirm_open mark_confirmed amount_strings_equal apply_reconciliation apply_new
    replace_current post_adjustment insert_reconciliation insert_snapshot lock_account balance_over
    active_reconciliation previous_period reconciliation_by_key age_gap find any parse parse_parts
    digits value split contains text_eq trim_space trim_left trim_right is_space len to_string emit
    print with_point neg_ℤ ◌+ℤ◌ month_end month_days
confirmed_ok = refl

confirm_open-eq-ok_example :
    (900 ≤ 1000)
    × (account_balance_at 1 10 (of_civil 2027 1 31) opened ≡ pos 500)
    × (active_reconciliation 1 10 (of_civil 2027 1 31) [] ≡ none)
unfolding balance_over any ◌+ℤ◌
confirm_open-eq-ok_example =
    confirm_open-eq-ok months_apart sum_key ids 900 agreed books confirmed row (omega arith)
      (omega arith) confirmed_ok
