-- ===== src/Reconciliation/State.antt =====
-- The tables of reconciliation, and the queries of internal/httpapi/reconciliation.go.
use my_finance.Common.{
  ℕ, Bool, true, false, not, ◌&&◌, Option, none, some, List, [], ◌∷◌, ◌==◌, if◌then◌else◌, any,
  find,
}
use my_finance.Common.Int.{pos, ◌+ℤ◌}
use my_finance.Calendar.{Date, before, after, date_eq}
use my_finance.Money.{Amount}
use my_finance.Errors.{Result, not_found}
use my_finance.Tx.{Tx, or_fail, zoom}
use my_finance.Ledger.State.{Account, Subtype, bank, cash, Entry, Ledger, Transaction, is_asset}
use my_finance.Ledger.Operation.{user_account}

-- A row of `reconciliations`; `superseded` is whether `superseded_at` is set.
pub record Reconciliation : Type 0 where
  pub id : ℕ
  pub user : ℕ
  pub account : ℕ
  pub period_end : Date
  pub reported : Amount
  pub ledger_before : Amount
  pub difference : Amount
  pub adjustment : Amount
  pub adjustment_transaction : Option ℕ
  pub reversal_transaction : Option ℕ
  pub supersedes : Option ℕ
  pub gap_start : Option Date
  pub gap_months : ℕ
  pub key : ℕ
  pub superseded : Bool

-- A row of `balance_snapshots`
pub record Snapshot : Type 0 where
  pub user : ℕ
  pub account : ℕ
  pub reconciliation : ℕ
  pub period_end : Date
  pub reported : Amount
  pub currency : ℕ

-- A row of `reconciliation_previews`; `expires_at` is in seconds.
pub record Preview : Type 0 where
  pub id : ℕ
  pub user : ℕ
  pub account : ℕ
  pub period_end : Date
  pub reported : Amount
  pub ledger : Amount
  pub difference : Amount
  pub key : ℕ
  pub current : Option ℕ
  pub confirmed : Option ℕ
  pub expires_at : ℕ

pub record Books : Type 0 where
  pub ledger : Ledger
  pub reconciliations : List Reconciliation
  pub snapshots : List Snapshot
  pub previews : List Preview

abbrev pub put_ledger : Books → Ledger → Books
put_ledger b s = record b { ledger = s }

-- A step on the tables of the ledger alone.
abbrev pub on_ledger : {A : Type 0} → Tx Ledger A → Tx Books A
on_ledger = zoom (λ (b : Books). b.ledger) put_ledger

abbrev is_bank_or_cash : Subtype → Bool
is_bank_or_cash bank = true
is_bank_or_cash cash = true
is_bank_or_cash t = false

abbrev pub reconcilable : ℕ → ℕ → Account → Bool
reconcilable id user a =
    user_account id user a && is_asset a.class && is_bank_or_cash a.subtype && not a.archived

-- `lockReconciliationAccount`
unfoldable pub lock_account : ℕ → ℕ → Books → Result Account
lock_account user id b = or_fail (find (reconcilable id user) b.ledger.accounts) not_found

abbrev pub counted : Date → ℕ → Transaction → Bool
counted period_end id t = t.id == id && t.posted && not (after t.event_date period_end)

abbrev pub in_balance : ℕ → ℕ → Date → List Transaction → Entry → Bool
in_balance user account period_end ts e =
    e.user == user && e.account == account && any (counted period_end e.transaction) ts

unfoldable pub balance_over : ℕ → ℕ → Date → List Transaction → List Entry → Amount
balance_over user account period_end ts [] = pos 0
balance_over user account period_end ts (e ∷ es) =
    let rest = balance_over user account period_end ts es in
    if in_balance user account period_end ts e then e.amount +ℤ rest else rest

-- `accountBalanceAt`; the sum stands for its text, and is not refused where it is too large for an
-- amount.
abbrev pub account_balance_at : ℕ → ℕ → Date → Ledger → Amount
account_balance_at user account period_end s =
    balance_over user account period_end s.transactions s.entries

abbrev pub active_for : ℕ → ℕ → Reconciliation → Bool
active_for user account r = r.user == user && r.account == account && not r.superseded

abbrev pub active_on : ℕ → ℕ → Date → Reconciliation → Bool
active_on user account period_end r = active_for user account r && date_eq r.period_end period_end

abbrev id_of : Option Reconciliation → Option ℕ
id_of none = none
id_of (some r) = some r.id

-- `activeReconciliationID`
unfoldable pub active_reconciliation : ℕ → ℕ → Date → List Reconciliation → Option ℕ
active_reconciliation user account period_end rs =
    id_of (find (active_on user account period_end) rs)

abbrev later_of : Date → Option Date → Date
later_of d none = d
later_of d (some e) = if after d e then d else e

-- `previousReconciliationPeriod`: the latest earlier period that is not superseded.
unfoldable pub previous_period : ℕ → ℕ → Date → List Reconciliation → Option Date
previous_period user account period_end [] = none
previous_period user account period_end (r ∷ rs) =
    let rest = previous_period user account period_end rs in
    if active_for user account r && before r.period_end period_end
    then some (later_of r.period_end rest)
    else rest

abbrev has_reconciliation_key : ℕ → ℕ → Reconciliation → Bool
has_reconciliation_key user key r = r.user == user && r.key == key

-- `reconciliationByIdempotency`; the JOIN with its account finds one, by a foreign key.
unfoldable pub reconciliation_by_key : ℕ → ℕ → Books → Option Reconciliation
reconciliation_by_key user key b = find (has_reconciliation_key user key) b.reconciliations

abbrev pub reconciliation_is : ℕ → ℕ → Reconciliation → Bool
reconciliation_is id user r = r.id == id && r.user == user

-- `reconciliationByID`
unfoldable pub reconciliation_by_id : ℕ → ℕ → Books → Result Reconciliation
reconciliation_by_id user id b =
    or_fail (find (reconciliation_is id user) b.reconciliations) not_found

abbrev has_preview_key : ℕ → ℕ → Preview → Bool
has_preview_key user key p = p.user == user && p.key == key

-- `previewByIdempotency`
unfoldable pub preview_by_key : ℕ → ℕ → Books → Option Preview
preview_by_key user key b = find (has_preview_key user key) b.previews

abbrev pub preview_is : ℕ → ℕ → Preview → Bool
preview_is id user p = p.id == id && p.user == user

-- `lockReconciliationPreview`, with the case of its caller where there is none.
unfoldable pub lock_preview : ℕ → ℕ → Books → Result Preview
lock_preview user id b = or_fail (find (preview_is id user) b.previews) not_found
