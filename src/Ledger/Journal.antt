-- ===== src/Ledger/Journal.antt =====
-- `postJournal`, `postOpeningBalance` and `postReversal`. The ids that `uuid.New` draws are
-- arguments; the tables refuse one that is taken.
use my_finance.Common.{
  ℕ, Bool, true, false, not, Option, none, some, List, [], ◌∷◌, ltb, ◌==◌, if◌then◌else◌, find, any,
  length, option_eq, ◌&&◌,
}
use my_finance.Common.Int.{neg_ℤ}
use my_finance.Text.{Text, codes}
use my_finance.Calendar.{Date}
use my_finance.Money.{Amount, negate}
use my_finance.Errors.{
  Result, ok, err, not_found, conflict, validation, two_entries_required, reversal_of_reversal,
  already_reversed, key_not_posted,
}
use my_finance.Tx.{Tx, pure, reads, or_fail, ◌>>=◌, ◌>>◌, require}
use my_finance.Ledger.State.{
  AccountClass, TransactionType, opening_balance_type, reversal_type, Transaction, Entry, Ledger,
  is_liability, is_reversal,
}
use my_finance.Ledger.Schema.{
  insert_transaction, insert_entry, mark_posted, has_key, transaction_is,
}

-- `journalEntry`; its amount stands for the amount's text.
pub record JournalEntry : Type 0 where
  pub account : ℕ
  pub category : Option ℕ
  pub amount : Amount
  pub currency : ℕ

-- `journalSpec`
pub record JournalSpec : Type 0 where
  pub kind : TransactionType
  pub event_date : Date
  pub description : Option Text
  pub key : ℕ
  pub reverses : Option ℕ
  pub replaces : Option ℕ
  pub entries : List JournalEntry

abbrev pub to_entry : ℕ → ℕ → JournalEntry → Entry
to_entry id user e = record {
  transaction = id;
  user = user;
  account = e.account;
  category = e.category;
  amount = e.amount;
  currency = e.currency;
}

abbrev pub to_transaction : ℕ → ℕ → JournalSpec → Transaction
to_transaction id user spec = record {
  id = id;
  user = user;
  kind = spec.kind;
  event_date = spec.event_date;
  description = spec.description;
  key = spec.key;
  reverses = spec.reverses;
  replaces = spec.replaces;
  posted = false;
}

-- The loop over `spec.Entries`.
unfoldable pub insert_entries : ℕ → ℕ → List JournalEntry → Tx Ledger (Unit {0})
insert_entries id user [] = pure tt
insert_entries id user (e ∷ es) = insert_entry (to_entry id user e) >> insert_entries id user es

abbrev pub posted_with : ℕ → ℕ → Transaction → Bool
posted_with user key t = has_key user key t && t.posted

-- The row of an earlier call with this key.
abbrev pub replayed : ℕ → ℕ → Ledger → Result (ℕ × Bool)
replayed user key s = elim (find (posted_with user key) s.transactions) [
  | none ↦ err (conflict key_not_posted)
  | some t ↦ ok (t.id, true)
]

-- The rest of `postJournal` after its INSERT.
abbrev pub fill_journal : ℕ → ℕ → JournalSpec → Bool → Tx Ledger (ℕ × Bool)
fill_journal id user spec false = reads (replayed user spec.key)
fill_journal id user spec true = do
  require (not (ltb (length spec.entries) 2)) (validation two_entries_required)
  insert_entries id user spec.entries
  mark_posted id user
  pure (id, false)

-- `postJournal`: the id of the transaction, and whether it is that of an earlier call.
unfoldable pub post_journal : ℕ → ℕ → JournalSpec → Tx Ledger (ℕ × Bool)
post_journal id user spec = do
  inserted ← insert_transaction (to_transaction id user spec)
  fill_journal id user spec inserted

abbrev pub line : ℕ → Amount → ℕ → JournalEntry
line account amount currency = record {
  account = account;
  category = none;
  amount = amount;
  currency = currency;
}

-- The amounts on the account and on opening equity.
abbrev pub opening_lines : AccountClass → ℕ → ℕ → ℕ → ℕ → Amount → List JournalEntry
opening_lines class account currency equity equity_currency amount =
    if is_liability class
    then line account (negate amount) currency ∷ line equity amount equity_currency ∷ []
    else line account amount currency ∷ line equity (negate amount) equity_currency ∷ []

-- `postOpeningBalance`
unfoldable pub post_opening_balance :
    ℕ → ℕ → ℕ → AccountClass → ℕ → ℕ → Amount → Date → ℕ → Tx Ledger (ℕ × Bool)
post_opening_balance id user account class currency equity amount event_date key =
    post_journal id user (record {
      kind = opening_balance_type;
      event_date = event_date;
      description = none;
      key = key;
      reverses = none;
      replaces = none;
      entries = opening_lines class account currency equity currency amount;
    })

abbrev pub posted_is : ℕ → ℕ → Transaction → Bool
posted_is id user t = transaction_is id user t && t.posted

abbrev pub reversed_by : ℕ → ℕ → Transaction → Bool
reversed_by user id t = t.user == user && option_eq t.reverses (some id)

-- The entries of a transaction with the signs turned, in the order of the table.
unfoldable pub negated_lines : ℕ → ℕ → List Entry → List JournalEntry
negated_lines id user [] = []
negated_lines id user (e ∷ es) =
    let rest = negated_lines id user es in
    if e.transaction == id && e.user == user
    then record {
      account = e.account;
      category = e.category;
      amount = neg_ℤ e.amount;
      currency = e.currency;
    }
      ∷ rest
    else rest

abbrev pub reversal_description : Option Text → Text
reversal_description none = codes "Reversal"
reversal_description (some d) = d

abbrev pub reversal_spec : Transaction → ℕ → Option Text → List Entry → JournalSpec
reversal_spec t key description entries = record {
  kind = reversal_type;
  event_date = t.event_date;
  description = some (reversal_description description);
  key = key;
  reverses = some t.id;
  replaces = none;
  entries = negated_lines t.id t.user entries;
}

-- `postReversal`
unfoldable pub post_reversal : ℕ → ℕ → ℕ → ℕ → Option Text → Tx Ledger ℕ
post_reversal id user original key description = do
  t ← reads (λ s. or_fail (find (posted_is original user) s.transactions) not_found)
  require (not (is_reversal t.kind)) (conflict reversal_of_reversal)
  already ← reads (λ s. ok (any (reversed_by user original) s.transactions))
  require (not already) (conflict already_reversed)
  entries ← reads (λ s. ok s.entries)
  result ← post_journal id user (reversal_spec t key description entries)
  pure result.0
