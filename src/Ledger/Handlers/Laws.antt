-- ===== src/Ledger/Handlers/Laws.antt =====
-- Double entry across the statements on accounts and categories, and across the handlers'
-- transactions.
use mathlib.Core.Path.{subst}
use my_finance.Common.{ℕ, ◌≡◌, sym, Option, none, some, List, ◌∷◌, arith}
use my_finance.Text.{Text}
use my_finance.Calendar.{Date}
use my_finance.Money.{Amount}
use my_finance.Tx.Keeps.{Keeps, Keeps-pure, state_path, keeps_rules}
use my_finance.Ledger.State.{Account, AccountClass, Category, Direction, Ledger, Subtype}
use my_finance.Ledger.Operation.{Operation}
use my_finance.Ledger.Accounts.{
  insert_account, insert_category, create_category_in_tx, ensure_ledger_infrastructure,
  keep_or_insert, rename_system, seed_category, System, upsert_system,
}
use my_finance.Ledger.Balance.{IsSound}
use my_finance.Ledger.Posting.{
  post_opening_balance-Keeps, post_reversal-Keeps, post_typed_operation-Keeps,
}
use my_finance.Ledger.Handlers.{CreateAccount, create_account_tx, open_account}
use my_finance.Ledger.Handlers.Changes.{
  UpdateAccount, UpdateCategory, create_category_tx, update_account_row, update_account_tx,
  update_category_row, update_category_tx,
}
use my_finance.Ledger.Handlers.Transactions.{
  Replacement, create_transaction_tx, replace_transaction_tx,
}

pub other_tables-IsSound :
    (s : Ledger) (accounts : List Account) (categories : List Category)
    → IsSound s
    → IsSound (record s { accounts = accounts; categories = categories })
other_tables-IsSound s accounts categories h = record { balanced = h.balanced; owned = h.owned }

same_journal-IsSound :
    (s s' : Ledger)
    → s'.transactions ≡ s.transactions
    → s'.entries ≡ s.entries
    → IsSound s
    → IsSound s'
same_journal-IsSound s s' ts es h =
    subst IsSound (λ i. record s' { transactions = sym ts i; entries = sym es i })
      (record { balanced = h.balanced; owned = h.owned })

pub insert_account-Keeps : (a : Account) → Keeps IsSound (insert_account a)
unfolding insert_account
insert_account-Keeps a = record {
  at = λ s u s' h e.
      let same : s' ≡ record s { accounts = a ∷ s.accounts } = ground arith in
      subst IsSound (sym same) (other_tables-IsSound s (a ∷ s.accounts) s.categories h);
}

insert_category-Keeps :
    (lower : Text → Text) (c : Category) → Keeps IsSound (insert_category lower c)
unfolding insert_category
insert_category-Keeps lower c = record {
  at = λ s u s' h e.
      let same : s' ≡ record s { categories = c ∷ s.categories } = ground arith in
      subst IsSound (sym same) (other_tables-IsSound s s.accounts (c ∷ s.categories) h);
}

create_category_in_tx-Keeps :
    (lower : Text → Text) (account_id category_id user : ℕ) (name : Text) (direction : Direction)
    (currency : ℕ)
    → Keeps IsSound
        (create_category_in_tx lower account_id category_id user name direction currency)
unfolding create_category_in_tx
create_category_in_tx-Keeps lower account_id category_id user name direction currency =
    search (keeps_rules, insert_account-Keeps, insert_category-Keeps) depth 12

rename_system-Keeps : (user : ℕ) (system : System) → Keeps IsSound (rename_system user system)
rename_system-Keeps user system = record {
  at = λ s u s' h e. subst IsSound (state_path e) (other_tables-IsSound s _ s.categories h);
}

keep_or_insert-Keeps :
    (id user currency : ℕ) (system : System) (found : Option Account)
    → Keeps IsSound (keep_or_insert id user currency system found)
keep_or_insert-Keeps id user currency system none =
    search (keeps_rules, insert_account-Keeps) depth 12
keep_or_insert-Keeps id user currency system (some a) =
    search (keeps_rules, rename_system-Keeps) depth 12

upsert_system-Keeps :
    (id user currency : ℕ) (system : System) → Keeps IsSound (upsert_system id user currency system)
unfolding upsert_system
upsert_system-Keeps id user currency system = search (keeps_rules, keep_or_insert-Keeps) depth 12

seed_category-Keeps :
    (lower : Text → Text) (account_id category_id user currency : ℕ) (name : Text)
    (direction : Direction)
    → Keeps IsSound (seed_category lower account_id category_id user currency name direction)
unfolding seed_category
seed_category-Keeps lower account_id category_id user currency name direction =
    search (keeps_rules, create_category_in_tx-Keeps) depth 12

pub ensure-Keeps :
    (lower : Text → Text) (new : ℕ → ℕ) (user : ℕ)
    → Keeps IsSound (ensure_ledger_infrastructure lower new user)
unfolding ensure_ledger_infrastructure
ensure-Keeps lower new user =
    search (keeps_rules, upsert_system-Keeps, seed_category-Keeps) depth 30

open_account-Keeps :
    (new : ℕ → ℕ) (user account : ℕ) (class : AccountClass) (currency functional equity : ℕ)
    (opening : Option Amount) (event_date : Option Date) (key : Option ℕ)
    → Keeps IsSound
        (open_account new user account class currency functional equity opening event_date key)
open_account-Keeps new user account class currency functional equity (some opening)
      (some event_date) key =
    search (keeps_rules, post_opening_balance-Keeps) depth 12
open_account-Keeps new user account class currency functional equity none event_date key =
    Keeps-pure tt
open_account-Keeps new user account class currency functional equity (some opening) none key =
    Keeps-pure tt

pub create_account_tx-Keeps :
    (lower : Text → Text) (new : ℕ → ℕ) (user : ℕ) (p : CreateAccount) (subtype : Subtype)
    (currency : ℕ)
    → Keeps IsSound (create_account_tx lower new user p subtype currency)
unfolding create_account_tx
create_account_tx-Keeps lower new user p subtype currency =
    search (keeps_rules, ensure-Keeps, insert_account-Keeps, open_account-Keeps) depth 16

update_account_row-Keeps :
    (id user : ℕ) (p : UpdateAccount) (a : Account) → Keeps IsSound (update_account_row id user p a)
unfolding update_account_row
update_account_row-Keeps id user p a = record {
  at = λ s u s' h e.
      let same : (s'.transactions ≡ s.transactions) × (s'.entries ≡ s.entries) = ground arith in
      same_journal-IsSound s s' same.0 same.1 h;
}

pub update_account_tx-Keeps :
    (user id : ℕ) (p : UpdateAccount) → Keeps IsSound (update_account_tx user id p)
unfolding update_account_tx
update_account_tx-Keeps user id p = search (keeps_rules, update_account_row-Keeps) depth 16

pub create_category_tx-Keeps :
    (lower : Text → Text) (new : ℕ → ℕ) (user : ℕ) (name : Text) (direction : Direction)
    → Keeps IsSound (create_category_tx lower new user name direction)
unfolding create_category_tx
create_category_tx-Keeps lower new user name direction =
    search (keeps_rules, ensure-Keeps, create_category_in_tx-Keeps) depth 16

update_category_row-Keeps :
    (lower : Text → Text) (p : UpdateCategory) (found : Option Category)
    → Keeps IsSound (update_category_row lower p found)
update_category_row-Keeps lower p none = record { at = λ s c s' h e. cc }
update_category_row-Keeps lower p (some c) = record {
  at = λ s u s' h e.
      let same : (s'.transactions ≡ s.transactions) × (s'.entries ≡ s.entries) = ground arith in
      same_journal-IsSound s s' same.0 same.1 h;
}

pub update_category_tx-Keeps :
    (lower : Text → Text) (user id : ℕ) (p : UpdateCategory)
    → Keeps IsSound (update_category_tx lower user id p)
unfolding update_category_tx
update_category_tx-Keeps lower user id p = search (keeps_rules, update_category_row-Keeps) depth 12

pub create_transaction_tx-Keeps :
    (lower : Text → Text) (new : ℕ → ℕ) (user : ℕ) (op : Operation)
    → Keeps IsSound (create_transaction_tx lower new user op)
unfolding create_transaction_tx
create_transaction_tx-Keeps lower new user op =
    search (keeps_rules, ensure-Keeps, post_typed_operation-Keeps) depth 16

pub replace_transaction_tx-Keeps :
    (new : ℕ → ℕ) (user original : ℕ) (p : Replacement)
    → Keeps IsSound (replace_transaction_tx new user original p)
unfolding replace_transaction_tx
replace_transaction_tx-Keeps new user original p =
    search (keeps_rules, post_reversal-Keeps, post_typed_operation-Keeps) depth 16
