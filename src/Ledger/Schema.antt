-- ===== src/Ledger/Schema.antt =====
-- The statements that write journal rows, with the constraints and the row triggers of
-- db/migrations/000004_ledger_cashflow.up.sql that can refuse them.
use my_finance.Common.{
  ℕ, ◌+◌, ◌^◌, Bool, true, false, not, ◌&&◌, ◌||◌, Option, none, some, List, ◌∷◌, map, ltb, leb,
  ◌==◌, if◌then◌else◌, is_some, option_eq, any, length,
}
use my_finance.Common.Int.{pos_part, neg_part}
use my_finance.Text.{Text, trim_left, trim_right}
use my_finance.Errors.{
  ok, err, unique_violation, immutable, check_violation, foreign_key_violation, numeric_overflow,
}
use my_finance.Tx.{Tx}
use my_finance.Ledger.State.{Account, Category, Transaction, Entry, Ledger, is_reversal}

abbrev pub account_is : ℕ → ℕ → Account → Bool
account_is id user a = a.id == id && a.user == user

abbrev pub category_is : ℕ → ℕ → Category → Bool
category_is id user c = c.id == id && c.user == user

abbrev pub transaction_is : ℕ → ℕ → Transaction → Bool
transaction_is id user t = t.id == id && t.user == user

-- `UNIQUE (user_id, idempotency_key)`
abbrev pub has_key : ℕ → ℕ → Transaction → Bool
has_key user key t = t.user == user && t.key == key

abbrev pub is_blank : ℕ → Bool
is_blank c = c == 32

-- `length(btrim(description)) BETWEEN 1 AND 500`; PostgreSQL counts characters.
abbrev pub description_ok : Option Text → Bool
description_ok none = true
description_ok (some d) =
    let n = length (trim_right is_blank (trim_left is_blank d)) in leb 1 n && leb n 500

-- The row's own CHECK constraints: the description, the shape of a reversal, no reference to itself.
abbrev pub row_ok : Transaction → Bool
row_ok t =
    description_ok t.description
    && (if is_reversal t.kind then is_some t.reverses else not (is_some t.reverses))
    && not (option_eq t.reverses (some t.id))
    && not (option_eq t.replaces (some t.id))

abbrev both_set : Option ℕ → Option ℕ → Bool
both_set a b = is_some a && option_eq a b

-- The primary key, and `UNIQUE (user_id, reverses_…)`, `UNIQUE (user_id, replaces_…)`.
abbrev pub clashes : Transaction → Transaction → Bool
clashes t u =
    u.id == t.id
    || (u.user == t.user && (both_set t.reverses u.reverses || both_set t.replaces u.replaces))

abbrev pub referenced : Option ℕ → ℕ → List Transaction → Bool
referenced none user ts = true
referenced (some id) user ts = any (transaction_is id user) ts

-- `INSERT INTO ledger_transactions … ON CONFLICT (user_id, idempotency_key) DO NOTHING`; the answer
-- is whether a row was inserted.
unfoldable pub insert_transaction : Transaction → Tx Ledger Bool
insert_transaction t s =
    if not (row_ok t)
    then err check_violation
    else if any (has_key t.user t.key) s.transactions
    then ok (false, s)
    else if any (clashes t) s.transactions
    then err unique_violation
    else if not
        (referenced t.reverses t.user s.transactions && referenced t.replaces t.user s.transactions)
    then err foreign_key_violation
    else ok (true, record s { transactions = t ∷ s.transactions })

-- `UNIQUE (id, user_id, currency)` of the entry's account.
abbrev pub account_fits : Entry → Account → Bool
account_fits e a = account_is e.account e.user a && a.currency == e.currency

abbrev pub category_fits : Entry → ℕ → Category → Bool
category_fits e id c = category_is id e.user c && c.ledger_account == e.account

abbrev pub category_found : Entry → Option ℕ → List Category → Bool
category_found e none cs = true
category_found e (some id) cs = any (category_fits e id) cs

abbrev archived_account : Entry → Account → Bool
archived_account e a = account_is e.account e.user a && a.archived

abbrev archived_category : Entry → ℕ → Category → Bool
archived_category e id c = category_is id e.user c && c.archived

abbrev category_archived : Entry → Option ℕ → List Category → Bool
category_archived e none cs = false
category_archived e (some id) cs = any (archived_category e id) cs

abbrev reversal_of : Entry → Transaction → Bool
reversal_of e t = transaction_is e.transaction e.user t && is_reversal t.kind

abbrev draft_of : Entry → Transaction → Bool
draft_of e t = transaction_is e.transaction e.user t && not t.posted

-- `prevent_archived_ledger_dependencies`
abbrev pub dependencies_active : Entry → Ledger → Bool
dependencies_active e s =
    any (reversal_of e) s.transactions
    || (not (any (archived_account e) s.accounts)
        && not (category_archived e e.category s.categories))

-- `INSERT INTO ledger_entries`: the cast to `numeric(24, 8)`, the two triggers (by name), the CHECK
-- on zero and the foreign keys.
unfoldable pub insert_entry : Entry → Tx Ledger (Unit {0})
insert_entry e s =
    if not (ltb (pos_part e.amount + neg_part e.amount) (10 ^ 24))
    then err numeric_overflow
    else if not (dependencies_active e s)
    then err immutable
    else if not (any (draft_of e) s.transactions)
    then err immutable
    else if pos_part e.amount + neg_part e.amount == 0
    then err check_violation
    else if not (any (account_fits e) s.accounts && category_found e e.category s.categories)
    then err foreign_key_violation
    else ok (tt, record s { entries = e ∷ s.entries })

abbrev pub set_posted : ℕ → ℕ → Transaction → Transaction
set_posted id user t = if transaction_is id user t then record t { posted = true } else t

-- `UPDATE ledger_transactions SET posted_at = now() WHERE … posted_at IS NULL`
unfoldable pub mark_posted : ℕ → ℕ → Tx Ledger (Unit {0})
mark_posted id user s = ok (tt, record s { transactions = map (set_posted id user) s.transactions })
