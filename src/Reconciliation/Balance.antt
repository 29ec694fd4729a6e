-- ===== src/Reconciliation/Balance.antt =====
-- The balance of an account on a date, across a posting.
pub mod Adjusted
use my_finance.Common.{
  ℕ, ◌≡◌, refl, ap, sym, ◌∙◌, ◌≢◌, Bool, true, false, not, ◌&&◌, List, [], ◌∷◌, map, ◌==◌, any, All,
  arith, if◌then◌else◌, ==_refl, Bool-cases, inl, inr,
}
use my_finance.Common.Int.{pos, ◌+ℤ◌, neg_ℤ, int_laws}
use my_finance.Calendar.{Date, after}
use my_finance.Money.{Amount}
use my_finance.Errors.{ok}
use my_finance.Ledger.State.{Entry, Ledger, Transaction}
use my_finance.Ledger.Schema.{has_key, set_posted, transaction_is}
use my_finance.Ledger.Journal.{JournalEntry, JournalSpec, post_journal, to_transaction, line}
use my_finance.Ledger.Balance.{IsOwned, IsSound}
use my_finance.Ledger.Balance.Insert.{prepend}
use my_finance.Ledger.Balance.Post.{Posted, fresh, replay, post_journal-Posted, posted_ledger}
use my_finance.Ledger.Balance.Sound.{HasOtherId, no_clash-HasOtherId, HasOtherId-unknown}
use my_finance.Ledger.Posting.Effect.{lines_on, replayed-unknown}
use my_finance.Reconciliation.State.{counted, in_balance, balance_over, account_balance_at}

counted-set_posted :
    (id user i : ℕ) (d : Date) (ts : List Transaction)
    → All (HasOtherId id) ts
    → any (counted d i) (map (set_posted id user) ts) ≡ any (counted d i) ts
unfolding any
counted-set_posted id user i d [] h = refl
counted-set_posted id user i d (t ∷ ts) (ht, h) =
    let rest = counted-set_posted id user i d ts h in ground (arith, rest)

counted-unknown :
    (id : ℕ) (d : Date) (ts : List Transaction)
    → All (HasOtherId id) ts
    → any (counted d id) ts ≡ false
unfolding any
counted-unknown id d [] h = refl
counted-unknown id d (t ∷ ts) (ht, h) = ground (arith, counted-unknown id d ts h)

owned_other :
    (id : ℕ) (e : Entry) (ts : List Transaction)
    → All (HasOtherId id) ts
    → IsOwned ts e
    → (id == e.transaction) ≡ false
unfolding any
owned_other id e [] h o = cc
owned_other id e (t ∷ ts) (ht, h) o = ground (arith, owned_other id e ts h)

-- The tables of transactions after a posting.
abbrev with_posted : ℕ → ℕ → JournalSpec → List Transaction → List Transaction
with_posted id user spec ts = map (set_posted id user) (to_transaction id user spec ∷ ts)

old_counted :
    (id user i : ℕ) (spec : JournalSpec) (d : Date) (ts : List Transaction)
    → All (HasOtherId id) ts
    → (id == i) ≡ false
    → any (counted d i) (with_posted id user spec ts) ≡ any (counted d i) ts
unfolding any
old_counted id user i spec d ts h other =
    let rest = counted-set_posted id user i d ts h in rw (==_refl id, ==_refl user, other) rest

old_entries :
    (id user account : ℕ) (spec : JournalSpec) (d : Date) (ts : List Transaction) (es : List Entry)
    → All (HasOtherId id) ts
    → All (IsOwned ts) es
    → balance_over user account d (with_posted id user spec ts) es
      ≡ balance_over user account d ts es
unfolding balance_over
old_entries id user account spec d ts [] h o = refl
old_entries id user account spec d ts (e ∷ es) h (oe, o) = rw (
  old_counted id user e.transaction spec d ts h (owned_other id e ts h oe),
  old_entries id user account spec d ts es h o,
)

new_counted :
    (id user : ℕ) (spec : JournalSpec) (d : Date) (ts : List Transaction)
    → after spec.event_date d ≡ false
    → any (counted d id) (with_posted id user spec ts) ≡ true
unfolding any
new_counted id user spec d ts h = rw (==_refl id, ==_refl user, h) (ground (arith, ==_refl id))

new_entries :
    (id user account : ℕ) (d : Date) (ts : List Transaction) (lines : List JournalEntry)
    (es : List Entry)
    → any (counted d id) ts ≡ true
    → balance_over user account d ts (prepend id user lines es)
      ≡ lines_on account lines +ℤ balance_over user account d ts es
unfolding balance_over lines_on
new_entries id user account d ts [] es h = omega int_laws
new_entries id user account d ts (e ∷ rest) es h =
    new_entries id user account d ts rest _ h ∙ go (e.account == account)
  where
    go :
        (b : Bool)
        → lines_on account rest
            +ℤ (if user == user && b && any (counted d id) ts
                then e.amount +ℤ balance_over user account d ts es
                else balance_over user account d ts es)
          ≡ (if b then e.amount +ℤ lines_on account rest else lines_on account rest)
            +ℤ balance_over user account d ts es
    go true = rw (==_refl user, h) (omega int_laws)
    go false = rw (==_refl user) refl

-- In a sound ledger, a journal that succeeds with a key that none of the user's transactions has
-- adds its lines on an account to the account's balance on every date that is not before its own.
pub post_journal-account_balance_at :
    (id user account : ℕ) (spec : JournalSpec) (d : Date) (s s' : Ledger) (r : ℕ × Bool)
    → IsSound s
    → any (has_key user spec.key) s.transactions ≡ false
    → after spec.event_date d ≡ false
    → post_journal id user spec s ≡ ok (r, s')
    → account_balance_at user account d s'
      ≡ lines_on account spec.entries +ℤ account_balance_at user account d s
post_journal-account_balance_at id user account spec d s s' r sound new_key on_time e =
    outcome (post_journal-Posted id user spec s s' r e)
  where
    outcome :
        Posted id user spec s r s'
        → account_balance_at user account d s'
          ≡ lines_on account spec.entries +ℤ account_balance_at user account d s
    outcome (fresh unique many new same) =
        ap (account_balance_at user account d) same
        ∙ new_entries id user account d (with_posted id user spec s.transactions) spec.entries
            s.entries (new_counted id user spec d s.transactions on_time)
        ∙ ap (λ z. lines_on account spec.entries +ℤ z)
            (old_entries id user account spec d s.transactions s.entries
              (no_clash-HasOtherId (to_transaction id user spec) s.transactions unique) sound.owned)
    outcome (replay found same) = absurd (replayed-unknown user spec.key s r new_key found)

-- Two lines of which the first alone is on the account.
pub two_lines-lines_on :
    (account other currency : ℕ) (a b : Amount)
    → (other == account) ≡ false
    → lines_on account (line account a currency ∷ line other b currency ∷ []) ≡ a
unfolding lines_on
two_lines-lines_on account other currency a b h = rw (==_refl account, h) (omega int_laws)

pub after_irrefl : (d : Date) → after d d ≡ false
after_irrefl d = ground arith

-- A balance and what it lacks to a value.
pub balance_made_up : (a b : Amount) → (a +ℤ neg_ℤ b) +ℤ b ≡ a
balance_made_up a b = omega int_laws
