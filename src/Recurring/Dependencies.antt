-- ===== src/Recurring/Dependencies.antt =====
-- `validateRecurringDependencies` of internal/httpapi/recurring.go.
pub mod Loads
pub mod Postable
use my_finance.Common.{
  ℕ, Bool, true, false, not, ◌&&◌, ◌||◌, Option, none, some, List, ◌==◌, if◌then◌else◌, find,
}
use my_finance.Errors.{
  Error, Result, ok, err, validation, conflict, not_found, fx_unavailable, account_missing,
  category_missing, inactive_asset_account, inactive_category, same_account, unsupported_recurring,
}
use my_finance.Tx.{Tx, pure, fail, reads, ◌>>=◌, ◌>>◌, require}
use my_finance.Ledger.State.{
  Account, Category, Direction, income_direction, expense_direction, Ledger, is_asset,
  same_direction,
}
use my_finance.Ledger.Schema.{category_is}
use my_finance.Ledger.Operation.{
  OperationType, opening_balance, income, expense, transfer, asset_purchase, unknown_operation,
  functional_currency, user_account,
}

abbrev pub active_asset : Option Account → Result Account
active_asset none = err not_found
active_asset (some a) =
    if a.archived || not (is_asset a.class) then err (conflict inactive_asset_account) else ok a

-- The closure `loadAccount`
unfoldable pub load_asset : ℕ → Option ℕ → Ledger → Result Account
load_asset user none s = err (validation account_missing)
load_asset user (some id) s = active_asset (find (user_account id user) s.accounts)

abbrev pub matching : Direction → Option Category → Result Category
matching d none = err not_found
matching d (some c) =
    if c.archived || not (same_direction c.direction d)
    then err (conflict inactive_category)
    else ok c

-- The query of the category.
unfoldable pub matching_category : ℕ → Option ℕ → Direction → Ledger → Result Category
matching_category user none d s = err (validation category_missing)
matching_category user (some id) d s = matching d (find (category_is id user) s.categories)

-- The case of income and of expenses.
unfoldable pub cashflow_currency : ℕ → ℕ → Option ℕ → Option ℕ → Direction → Tx Ledger ℕ
cashflow_currency user functional account_id category_id d = do
  account ← reads (load_asset user account_id)
  category ← reads (matching_category user category_id d)
  require (account.currency == functional) fx_unavailable
  pure account.currency

-- The case of transfers and of asset purchases.
unfoldable pub transfer_currency : ℕ → ℕ → Option ℕ → Option ℕ → Tx Ledger ℕ
transfer_currency user functional source_id destination_id = do
  source ← reads (load_asset user source_id)
  destination ← reads (load_asset user destination_id)
  require (not (source.id == destination.id)) (validation same_account)
  require (source.currency == destination.currency && source.currency == functional) fx_unavailable
  pure source.currency

-- The `switch` over the operation's type.
unfoldable pub dependencies_currency :
    ℕ → ℕ → Option ℕ → Option ℕ → Option ℕ → Option ℕ → OperationType → Tx Ledger ℕ
dependencies_currency user functional account category source destination income =
    cashflow_currency user functional account category income_direction
dependencies_currency user functional account category source destination expense =
    cashflow_currency user functional account category expense_direction
dependencies_currency user functional account category source destination transfer =
    transfer_currency user functional source destination
dependencies_currency user functional account category source destination asset_purchase =
    transfer_currency user functional source destination
dependencies_currency user functional account category source destination kind =
    fail (validation unsupported_recurring)

-- `validateRecurringDependencies`
unfoldable pub validate_dependencies :
    ℕ → OperationType → Option ℕ → Option ℕ → Option ℕ → Option ℕ → Tx Ledger ℕ
validate_dependencies user kind account category source destination = do
  functional ← reads (functional_currency user)
  dependencies_currency user functional account category source destination kind
