-- ===== src/Ledger/Operation.antt =====
-- `postTypedOperation`: the typed operations of the public API as journal lines.
use my_finance.Common.{
  ℕ, Bool, true, false, not, Option, none, some, List, [], ◌∷◌, ltb, ◌==◌, if◌then◌else◌, find,
  ◌&&◌, ◌||◌,
}
use my_finance.Text.{Text, trim_space, len}
use my_finance.Calendar.{Date}
use my_finance.Money.{Amount, parse, is_positive, negate}
use my_finance.Errors.{
  Error, Result, ok, err, not_found, fx_unavailable, validation, conflict, no_rows,
  unknown_operation_type, amount_not_positive, bad_description, account_missing, category_missing,
  income_requires_asset, expense_requires_asset, same_account, transfer_requires_assets,
  account_archived, category_archived,
}
use my_finance.Tx.{Tx, pure, lift, reads, ◌>>=◌, ◌>>◌, require}
use my_finance.Ledger.State.{
  User, Account, Category, Ledger, Direction, income_direction, expense_direction, SystemCode,
  opening_equity, TransactionType, opening_balance_type, income_type, expense_type, transfer_type,
  asset_purchase_type, is_asset, is_user_role, same_direction, has_code,
}
use my_finance.Ledger.Schema.{account_is, category_is}
use my_finance.Ledger.Journal.{JournalEntry, JournalSpec, line, opening_lines, post_journal}

-- `api.CreateTransactionRequestType`; `unknown_operation` is any other text.
pub data OperationType : Type 0 where
  opening_balance income expense transfer asset_purchase unknown_operation : OperationType

-- `api.CreateTransactionRequest`
pub record Operation : Type 0 where
  pub kind : OperationType
  pub event_date : Date
  pub amount : Text
  pub key : ℕ
  pub description : Option Text
  pub account : Option ℕ
  pub category : Option ℕ
  pub source : Option ℕ
  pub destination : Option ℕ

abbrev pub is_known : OperationType → Bool
is_known unknown_operation = false
is_known k = true

-- `string(payload.Type)`, for a type that `Valid` accepts.
abbrev pub type_of : OperationType → TransactionType
type_of opening_balance = opening_balance_type
type_of income = income_type
type_of expense = expense_type
type_of transfer = transfer_type
type_of asset_purchase = asset_purchase_type
type_of unknown_operation = opening_balance_type

abbrev pub positive_or : Error → Option Amount → Result Amount
positive_or e none = err e
positive_or e (some a) = if is_positive a then ok a else err e

-- The test on a text that must be an amount greater than zero.
unfoldable pub positive_amount : Text → Result Amount
positive_amount s = positive_or (validation amount_not_positive) (parse s)

-- The trimmed description; `optionalDescription` of recurring.go makes the same test.
unfoldable pub optional_description : Option Text → Result (Option Text)
optional_description none = ok none
optional_description (some d) =
    let trimmed = trim_space d in
    if len trimmed == 0 || ltb 500 (len trimmed)
    then err (validation bad_description)
    else ok (some trimmed)

abbrev pub user_is : ℕ → User → Bool
user_is user u = u.id == user

abbrev equity_of : ℕ → SystemCode → Account → Bool
equity_of user c a = a.user == user && has_code c a.system_code

-- The id of the user's system account.
unfoldable pub system_account : ℕ → SystemCode → Ledger → Result ℕ
system_account user c s = elim (find (equity_of user c) s.accounts) [
  | none ↦ err no_rows
  | some a ↦ ok a.id
]

unfoldable pub functional_currency : ℕ → Ledger → Result ℕ
functional_currency user s = elim (find (user_is user) s.users) [
  | none ↦ err no_rows
  | some u ↦ ok u.functional_currency
]

abbrev pub user_account : ℕ → ℕ → Account → Bool
user_account id user a = account_is id user a && is_user_role a.role

abbrev pub check_account : ℕ → Option Account → Result Account
check_account currency none = err not_found
check_account currency (some a) =
    if a.archived
    then err (conflict account_archived)
    else if not (a.currency == currency)
    then err fx_unavailable
    else ok a

-- The closure `loadAccount`
unfoldable pub load_account : ℕ → ℕ → Option ℕ → Ledger → Result Account
load_account user currency none s = err (validation account_missing)
load_account user currency (some id) s =
    check_account currency (find (user_account id user) s.accounts)

abbrev pub category_in : ℕ → ℕ → Direction → Category → Bool
category_in id user d c = category_is id user c && same_direction c.direction d

abbrev pub check_category : Option Category → Result Category
check_category none = err not_found
check_category (some c) = if c.archived then err (conflict category_archived) else ok c

-- The closure `loadCategory`; the JOIN with the category's account adds only what is not read.
unfoldable pub load_category : ℕ → Option ℕ → Direction → Ledger → Result Category
load_category user none d s = err (validation category_missing)
load_category user (some id) d s = check_category (find (category_in id user d) s.categories)

abbrev pub category_line : Category → Amount → ℕ → JournalEntry
category_line c amount currency = record {
  account = c.ledger_account;
  category = some c.id;
  amount = amount;
  currency = currency;
}

-- The case of transfers and of asset purchases.
unfoldable pub transfer_lines : ℕ → ℕ → Option ℕ → Option ℕ → Amount → Tx Ledger (List JournalEntry)
transfer_lines user currency source_id destination_id amount = do
  source ← reads (load_account user currency source_id)
  destination ← reads (load_account user currency destination_id)
  require (not (source.id == destination.id)) (validation same_account)
  require (is_asset source.class && is_asset destination.class)
      (validation transfer_requires_assets)
  require (source.currency == destination.currency) fx_unavailable
  pure (
      line source.id (negate amount) source.currency
      ∷ line destination.id amount destination.currency
      ∷ [])

-- The `switch` over the operation's type.
unfoldable pub operation_lines :
    ℕ → ℕ → ℕ → Amount → Operation → OperationType → Tx Ledger (List JournalEntry)
operation_lines user currency equity amount op opening_balance = do
  account ← reads (load_account user currency op.account)
  pure (opening_lines account.class account.id account.currency equity currency amount)
operation_lines user currency equity amount op income = do
  account ← reads (load_account user currency op.account)
  require (is_asset account.class) (validation income_requires_asset)
  category ← reads (load_category user op.category income_direction)
  pure (
      line account.id amount account.currency
      ∷ category_line category (negate amount) currency
      ∷ [])
operation_lines user currency equity amount op expense = do
  account ← reads (load_account user currency op.account)
  require (is_asset account.class) (validation expense_requires_asset)
  category ← reads (load_category user op.category expense_direction)
  pure (
      line account.id (negate amount) account.currency
      ∷ category_line category amount currency
      ∷ [])
operation_lines user currency equity amount op transfer =
    transfer_lines user currency op.source op.destination amount
operation_lines user currency equity amount op asset_purchase =
    transfer_lines user currency op.source op.destination amount
operation_lines user currency equity amount op unknown_operation = pure []

abbrev pub operation_spec : Operation → Option Text → Option ℕ → List JournalEntry → JournalSpec
operation_spec op description replaces lines = record {
  kind = type_of op.kind;
  event_date = op.event_date;
  description = description;
  key = op.key;
  reverses = none;
  replaces = replaces;
  entries = lines;
}

-- `postTypedOperation`; `id` is the fresh id of `postJournal`.
unfoldable pub post_typed_operation : ℕ → ℕ → Operation → Option ℕ → Tx Ledger (ℕ × Bool)
post_typed_operation id user op replaces = do
  require (is_known op.kind) (validation unknown_operation_type)
  amount ← lift (positive_amount op.amount)
  description ← lift (optional_description op.description)
  currency ← reads (functional_currency user)
  equity ← reads (system_account user opening_equity)
  lines ← operation_lines user currency equity amount op op.kind
  post_journal id user (operation_spec op description replaces lines)
