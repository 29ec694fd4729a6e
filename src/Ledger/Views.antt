-- ===== src/Ledger/Views.antt =====
-- What internal/httpapi/ledger.go reads back: `getOwnedAccount` and `getTransaction`.
use my_finance.Common.{
  ℕ, Bool, true, false, ◌&&◌, Option, none, some, List, [], ◌∷◌, ltb, ◌==◌, if◌then◌else◌, any,
  find, option_eq, bool_eq,
}
use my_finance.Common.Int.{ℤ, pos, ◌+ℤ◌, neg_ℤ, neg_part}
use my_finance.Text.{Text}
use my_finance.Calendar.{Date}
use my_finance.Money.{Amount, is_positive, negate}
use my_finance.Errors.{Result, ok, err, not_found, no_user_account}
use my_finance.Ledger.State.{
  Account, Entry, Ledger, Transaction, TransactionType, expense_type, transfer_type,
  asset_purchase_type, is_liability, is_reversal, is_user_role,
}
use my_finance.Ledger.Operation.{user_account}
use my_finance.Ledger.Journal.{posted_is, reversed_by}

abbrev pub of_account : ℕ → ℕ → Entry → Bool
of_account account user e = e.account == account && e.user == user

-- `COALESCE(sum(entry.original_amount), 0)` over the account's entries.
unfoldable pub account_sum : ℕ → ℕ → List Entry → ℤ
account_sum account user [] = pos 0
account_sum account user (e ∷ es) =
    let rest = account_sum account user es in
    if of_account account user e then e.amount +ℤ rest else rest

-- `CASE WHEN account.account_class = 'LIABILITY' …`
abbrev pub displayed : Account → ℤ → ℤ
displayed a sum = if is_liability a.class then neg_ℤ sum else sum

abbrev pub posts_to : ℕ → Entry → Bool
posts_to account e = e.account == account

-- `api.Account`
pub record AccountView : Type 0 where
  pub account : Account
  pub has_postings : Bool
  pub balance : Amount

abbrev pub view_of : ℕ → Ledger → Option Account → Result AccountView
view_of user s none = err not_found
view_of user s (some a) = ok (record {
  account = a;
  has_postings = any (posts_to a.id) s.entries;
  balance = displayed a (account_sum a.id user s.entries);
})

-- `getOwnedAccount`
unfoldable pub get_owned_account : ℕ → ℕ → Ledger → Result AccountView
get_owned_account user id s = view_of user s (find (user_account id user) s.accounts)

pub data Status : Type 0 where
  status_posted status_reversed status_replaced status_reversal : Status

abbrev replaced_by : ℕ → ℕ → Transaction → Bool
replaced_by user id t = t.user == user && option_eq t.replaces (some id)

unfoldable pub status_of : Transaction → List Transaction → Status
status_of t ts =
    if is_reversal t.kind
    then status_reversal
    else if any (replaced_by t.user t.id) ts
    then status_replaced
    else if any (reversed_by t.user t.id) ts
    then status_reversed
    else status_posted

-- `displayEntry`
pub record DisplayEntry : Type 0 where
  pub account : ℕ
  pub name : Text
  pub amount : Amount
  pub currency : ℕ

abbrev account_id_is : ℕ → Account → Bool
account_id_is id a = a.id == id

abbrev keep_user_entry : Entry → Option Account → List DisplayEntry → List DisplayEntry
keep_user_entry e none rest = rest
keep_user_entry e (some a) rest =
    if is_user_role a.role
    then record { account = a.id; name = a.name; amount = e.amount; currency = e.currency } ∷ rest
    else rest

-- The loop that fills `userEntries`, over the transaction's entries in the order of the query.
unfoldable pub user_entries : ℕ → ℕ → List Account → List Entry → List DisplayEntry
user_entries id user accounts [] = []
user_entries id user accounts (e ∷ es) =
    let rest = user_entries id user accounts es in
    if e.transaction == id && e.user == user
    then keep_user_entry e (find (account_id_is e.account) accounts) rest
    else rest

abbrev pub want_negative : TransactionType → Bool
want_negative expense_type = true
want_negative transfer_type = true
want_negative asset_purchase_type = true
want_negative t = false

abbrev is_negative : Amount → Bool
is_negative a = ltb 0 (neg_part a)

abbrev fits : Bool → DisplayEntry → Bool
fits wanted e = bool_eq (is_negative e.amount) wanted

abbrev or_first : DisplayEntry → Option DisplayEntry → DisplayEntry
or_first e none = e
or_first e (some d) = d

-- `userEntries[primaryIndex]`: the first entry of the wanted sign, else the first.
unfoldable pub primary_entry : Bool → DisplayEntry → List DisplayEntry → DisplayEntry
primary_entry wanted e es = or_first e (find (fits wanted) (e ∷ es))

-- The amount that is shown has no sign.
abbrev pub shown : Amount → Amount
shown a = if is_positive a then a else negate a

-- `api.Transaction`, without the names of its category and of its second account.
pub record TransactionView : Type 0 where
  pub id : ℕ
  pub kind : TransactionType
  pub event_date : Date
  pub description : Option Text
  pub status : Status
  pub reverses : Option ℕ
  pub replaces : Option ℕ
  pub primary_account : ℕ
  pub primary_name : Text
  pub currency : ℕ
  pub amount : Amount

abbrev view_with : Transaction → Status → List DisplayEntry → Result TransactionView
view_with t status [] = err no_user_account
view_with t status (e ∷ es) =
    let primary = primary_entry (want_negative t.kind) e es in
    ok (record {
      id = t.id;
      kind = t.kind;
      event_date = t.event_date;
      description = t.description;
      status = status;
      reverses = t.reverses;
      replaces = t.replaces;
      primary_account = primary.account;
      primary_name = primary.name;
      currency = primary.currency;
      amount = shown primary.amount;
    })

abbrev view_transaction :
    Ledger → (List Entry → List Entry) → Option Transaction → Result TransactionView
view_transaction s order none = err not_found
view_transaction s order (some t) =
    view_with t (status_of t s.transactions) (user_entries t.id t.user s.accounts (order s.entries))

-- `getTransaction`; `order` is the order that the query's `entry.id`, drawn by the database, gives.
unfoldable pub get_transaction : (List Entry → List Entry) → ℕ → ℕ → Ledger → Result TransactionView
get_transaction order user id s = view_transaction s order (find (posted_is id user) s.transactions)
