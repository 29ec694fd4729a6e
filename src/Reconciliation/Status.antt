-- ===== src/Reconciliation/Status.antt =====
-- `GetReconciliationStatus` of internal/httpapi/reconciliation.go, from its reading of the time zone
-- on; before that it checks the session and calls `ensureLedger`.
pub mod Shown
use my_finance.Common.{
  ℕ, Bool, true, false, not, ◌&&◌, Option, none, some, List, [], ◌∷◌, map, ltb, if◌then◌else◌, find,
  is_some, is_empty, ◌≡◌, ◌↔◌, All, refl, arith,
}
use my_finance.Text.{Text}
use my_finance.Calendar.{Date}
use my_finance.Money.{Amount}
use my_finance.Errors.{
  Result, ok, err, Reply, success, failure, time_zone, write_ledger_error, code_unauthenticated,
}
use my_finance.Ledger.State.{Account}
use my_finance.Ledger.Accounts.{ensure_ledger_infrastructure}
use my_finance.Reconciliation.Period.{
  Window, window, window_for_period, proposed_period, validate_period, gap_months,
}
use my_finance.Reconciliation.State.{
  Reconciliation, Books, on_ledger, reconcilable, account_balance_at, active_on, previous_period,
}

-- `api.AccountReconciliationStatus`; its status is RECONCILED where it has a reconciliation, whose
-- reported balance and difference it shows.
pub record AccountStatus : Type 0 where
  pub account : ℕ
  pub name : Text
  pub currency : ℕ
  pub balance : Amount
  pub gap_months : ℕ
  pub multi_month_gap : Bool
  pub last_period_end : Option Date
  pub reconciliation : Option Reconciliation

-- `api.ReconciliationStatus`
pub record Status : Type 0 where
  pub today : Date
  pub suggested : Date
  pub window : Window
  pub complete : Bool
  pub accounts : List AccountStatus

-- A row of the query.
abbrev pub account_status : ℕ → Date → Books → Account → AccountStatus
account_status user period_end b a =
    let previous = previous_period user a.id period_end b.reconciliations in
    record {
      account = a.id;
      name = a.name;
      currency = a.currency;
      balance = account_balance_at user a.id period_end b.ledger;
      gap_months = gap_months previous period_end;
      multi_month_gap = ltb 1 (gap_months previous period_end);
      last_period_end = previous;
      reconciliation = find (active_on user a.id period_end) b.reconciliations;
    }

-- The rows of the query, from the accounts in its order.
unfoldable pub account_statuses : ℕ → Date → Books → List Account → List AccountStatus
account_statuses user period_end b [] = []
account_statuses user period_end b (a ∷ rest) =
    let others = account_statuses user period_end b rest in
    if reconcilable a.id user a then account_status user period_end b a ∷ others else others

abbrev is_reconciled : AccountStatus → Bool
is_reconciled a = is_some a.reconciliation

unfoldable pub all_reconciled : List AccountStatus → Bool
all_reconciled [] = true
all_reconciled (a ∷ rest) = is_reconciled a && all_reconciled rest

abbrev pub status_of : ℕ → Date → Date → List AccountStatus → Status
status_of user today period_end accounts = record {
  today = today;
  suggested = (window today).period_end;
  window = window_for_period today period_end;
  complete = all_reconciled accounts && not (is_empty accounts);
  accounts = accounts;
}

abbrev pub chosen_period : Date → Option Date → Date
chosen_period today none = (window today).period_end
chosen_period today (some d) = d

-- What follows `ensureLedger`. `today` is `none` where `time.LoadLocation` refuses the user's zone, and
-- `ordered` is the query's order, by the times of creation.
unfoldable pub read_status :
    (List Account → List Account) → ℕ → Option Date → Option Date → Books → Reply Status
read_status ordered user none asked b = write_ledger_error time_zone
read_status ordered user (some today) asked b =
    elim (validate_period today (chosen_period today asked)) [
      | err e ↦ write_ledger_error e
      | ok x ↦ success 200 (
          status_of user today (chosen_period today asked)
            (account_statuses user (chosen_period today asked) b (ordered b.ledger.accounts)))
    ]
