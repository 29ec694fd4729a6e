-- ===== src/Ledger/Balance.antt =====
-- Double entry: what the deferred triggers `verify_ledger_transaction_row` and
-- `verify_ledger_transaction_balance` demand at commit, as an invariant of the tables.
pub mod Insert
pub mod Post
pub mod Sound
use my_finance.Common.{
  ℕ, zero, suc, ◌+◌, ◌≤◌, ◌≡◌, refl, ap, ◌∙◌, sym, Bool, true, false, ◌&&◌, ◌||◌, List, [], ◌∷◌,
  map, arith, ltb, ◌==◌, if◌then◌else◌, any, length, All, All-map, Bool-cases, inl, inr,
}
use my_finance.Common.Int.{ℤ, pos, ◌+ℤ◌, int_laws}
use my_finance.Ledger.State.{Transaction, Entry, Ledger}
use my_finance.Ledger.Schema.{transaction_is, clashes, set_posted}
use my_finance.Ledger.Journal.{JournalEntry, to_entry}

abbrev pub belongs : ℕ → ℕ → Entry → Bool
belongs id user e = e.transaction == id && e.user == user

-- `sum(functional_amount)` and `count(*)` of a transaction's entries.
unfoldable pub total : ℕ → ℕ → List Entry → ℤ
total id user [] = pos 0
total id user (e ∷ es) =
    let rest = total id user es in if belongs id user e then e.amount +ℤ rest else rest

unfoldable pub count : ℕ → ℕ → List Entry → ℕ
count id user [] = 0
count id user (e ∷ es) = let rest = count id user es in if belongs id user e then suc rest else rest

-- A transaction is posted, with two entries or more that sum to zero.
pub record IsBalanced (es : List Entry) (t : Transaction) : Type 0 where
  pub is_posted : t.posted ≡ true
  pub zero_total : total t.id t.user es ≡ pos 0
  pub two_entries : 2 ≤ count t.id t.user es

abbrev pub IsOwned : List Transaction → Entry → Type 0
IsOwned ts e = any (transaction_is e.transaction e.user) ts ≡ true

pub record IsSound (s : Ledger) : Type 0 where
  pub balanced : All (IsBalanced s.entries) s.transactions
  pub owned : All (IsOwned s.transactions) s.entries

abbrev pub line_sum : List JournalEntry → ℤ
line_sum [] = pos 0
line_sum (e ∷ es) = e.amount +ℤ line_sum es
