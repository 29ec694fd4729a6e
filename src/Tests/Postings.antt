-- ===== src/Tests/Postings.antt =====
-- A small ledger: an opening balance, its reversal, and requests.
use my_finance.Common.{ℕ, ◌+◌, ◌≡◌, refl, true, false, none, some, [], ◌∷◌, any, find}
use my_finance.Common.Int.{pos, negsuc, ◌+ℤ◌, neg_ℤ}
use my_finance.Text.{Text, codes, trim_left, trim_right}
use my_finance.Calendar.{of_civil}
use my_finance.Errors.{ok}
use my_finance.Ledger.State.{
  Account, asset, bank, equity, equity_subtype, Ledger, opening_balance_type, opening_equity,
  system_role, user_role,
}
use my_finance.Ledger.Schema.{has_key, insert_entry, insert_transaction, mark_posted}
use my_finance.Ledger.Journal.{
  insert_entries, JournalSpec, line, negated_lines, post_journal, post_reversal, reversal_spec,
  to_transaction,
}
use my_finance.Ledger.Balance.{IsSound}
use my_finance.Ledger.Balance.Post.{posted_ledger}
use my_finance.Ledger.Posting.Again.{post_journal-again}
use my_finance.Ledger.Posting.Effect.{lines_on, post_reversal-account_sum, share}
use my_finance.Reconciliation.State.{account_balance_at}
use my_finance.Reconciliation.Balance.{post_journal-account_balance_at}
use my_finance.Ledger.Views.{account_sum}
use my_finance.Ledger.Handlers.{CreateAccount, asset_class, create_account}
use my_finance.Recurring.Dependencies.{
  dependencies_currency, load_asset, transfer_currency, validate_dependencies,
}
use my_finance.Recurring.Dependencies.Postable.{IsPostable, validate_dependencies-IsPostable}
use my_finance.Ledger.Operation.{functional_currency, transfer, Operation, income}
use my_finance.Ledger.Handlers.Transactions.{create_transaction}
use my_finance.Ledger.Requests.{creates_account, creates_transaction}
use my_finance.Program.{here, next, serves, Runs-IsSound}

abbrev pub cash_account : Account
cash_account = record {
  id = 10;
  user = 1;
  name = codes "Bank";
  class = asset;
  subtype = bank;
  role = user_role;
  currency = 978;
  system_code = none;
  archived = false;
}

abbrev pub equity_account : Account
equity_account = record {
  id = 11;
  user = 1;
  name = codes "Opening balance equity";
  class = equity;
  subtype = equity_subtype;
  role = system_role;
  currency = 978;
  system_code = some opening_equity;
  archived = false;
}

abbrev pub empty_ledger : Ledger
empty_ledger = record {
  users = record { id = 1; functional_currency = 978; auto_mode = true } ∷ [];
  accounts = cash_account ∷ equity_account ∷ [];
  categories = [];
  transactions = [];
  entries = [];
}

abbrev opening : JournalSpec
opening = record {
  kind = opening_balance_type;
  event_date = of_civil 2027 1 31;
  description = none;
  key = 77;
  reverses = none;
  replaces = none;
  entries = line 10 (pos 500) 978 ∷ line 11 (negsuc 499) 978 ∷ [];
}

abbrev pub opened : Ledger
opened = posted_ledger 20 1 opening empty_ledger

opening_posted : post_journal 20 1 opening empty_ledger ≡ ok ((20, false), opened)
unfolding post_journal insert_transaction insert_entries insert_entry mark_posted any
opening_posted = refl

post_journal-again_example : post_journal 21 1 opening opened ≡ ok ((20, true), opened)
post_journal-again_example =
    post_journal-again 20 21 1 opening opening empty_ledger opened 20 opening_posted refl refl

abbrev reversed : Ledger
reversed =
    posted_ledger 22 1
      (reversal_spec (record (to_transaction 20 1 opening) { posted = true }) 78 none
        opened.entries)
      opened

reversal_posted : post_reversal 22 1 20 78 none opened ≡ ok (22, reversed)
unfolding post_reversal post_journal insert_transaction insert_entries insert_entry mark_posted any
    find negated_lines neg_ℤ trim_left trim_right
reversal_posted = refl

no_such_key : any (has_key 1 78) opened.transactions ≡ false
unfolding any
no_such_key = refl

post_reversal-account_sum_example :
    account_sum 10 1 reversed.entries
    ≡ neg_ℤ (share 20 1 10 opened.entries) +ℤ account_sum 10 1 opened.entries
post_reversal-account_sum_example =
    post_reversal-account_sum 22 1 20 78 10 none opened reversed 22 no_such_key reversal_posted

pub empty-IsSound : IsSound empty_ledger
empty-IsSound = record { balanced = tt; owned = tt }

abbrev new_account : CreateAccount
new_account = record {
  name = codes "Cash";
  class = asset_class;
  subtype = some bank;
  currency = some 978;
  opening_balance = some (codes "12.5");
  opening_date = some (of_civil 2027 1 31);
  key = some 79;
}

abbrev pub same_text : Text → Text
same_text t = t

abbrev pub ids : ℕ → ℕ
ids n = 100 + n

abbrev later_ids : ℕ → ℕ
later_ids n = 200 + n

abbrev salary : Operation
salary = record {
  kind = income;
  event_date = of_civil 2027 2 1;
  amount = codes "100";
  key = 80;
  description = none;
  account = some 108;
  category = some 105;
  source = none;
  destination = none;
}

Runs-IsSound_example :
    IsSound
      (create_transaction
        (λ es. es)
        same_text
        later_ids
        (some 1)
        (some salary)
        (create_account same_text ids (some 1) (some new_account) empty_ledger).1).1
Runs-IsSound_example =
    Runs-IsSound empty_ledger
      (create_transaction (λ es. es) same_text later_ids (some 1) (some salary)
        (create_account same_text ids (some 1) (some new_account) empty_ledger).1).1
      (next
        (next here
          (serves (creates_account same_text ids (some 1) (some new_account) empty_ledger)))
        (serves (
          creates_transaction (λ es. es) same_text later_ids (some 1) (some salary)
            (create_account same_text ids (some 1) (some new_account) empty_ledger).1)))
      empty-IsSound

abbrev two_accounts : Ledger
two_accounts = record opened { accounts = record cash_account { id = 12 } ∷ opened.accounts }

abbrev saving : Operation
saving = record {
  kind = transfer;
  event_date = of_civil 2027 2 1;
  amount = codes "100";
  key = 81;
  description = none;
  account = none;
  category = none;
  source = some 10;
  destination = some 12;
}

saving_valid :
    validate_dependencies 1 transfer none none (some 10) (some 12) two_accounts
    ≡ ok (978, two_accounts)
unfolding validate_dependencies dependencies_currency transfer_currency load_asset
    functional_currency find
saving_valid = refl

validate_dependencies-IsPostable_example : IsPostable 1 11 (pos 100) saving transfer two_accounts
validate_dependencies-IsPostable_example =
    validate_dependencies-IsPostable 1 11 (pos 100) saving two_accounts two_accounts 978
      saving_valid

unused_key : any (has_key 1 77) empty_ledger.transactions ≡ false
unfolding any
unused_key = refl

post_journal-account_balance_at_example :
    account_balance_at 1 10 (of_civil 2027 3 1) opened
    ≡ lines_on 10 opening.entries +ℤ account_balance_at 1 10 (of_civil 2027 3 1) empty_ledger
post_journal-account_balance_at_example =
    post_journal-account_balance_at 20 1 10 opening (of_civil 2027 3 1) empty_ledger opened
      (20, false) empty-IsSound unused_key refl opening_posted
