-- ===== src/Ledger/Posting/Effect.antt =====
-- The sums of the accounts across postings and reversals.
use my_finance.Common.{
  ℕ, ◌≡◌, refl, ap, ◌∙◌, Bool, true, false, Option, none, List, [], ◌∷◌, arith, ◌==◌, ◌&&◌,
  if◌then◌else◌, find, any, Bool-cases, inl, inr, find-eq-some, ==_refl, ◌≢◌,
}
use my_finance.Common.Int.{ℤ, pos, ◌+ℤ◌, neg_ℤ, int_laws}
use my_finance.Text.{Text}
use my_finance.Errors.{ok}
use my_finance.Ledger.State.{Entry, Ledger, Transaction}
use my_finance.Ledger.Schema.{has_key}
use my_finance.Ledger.Journal.{
  JournalEntry, JournalSpec, negated_lines, post_journal, post_reversal, posted_is, posted_with,
  replayed, reversal_spec,
}
use my_finance.Ledger.Views.{account_sum}
use my_finance.Ledger.Balance.Insert.{prepend}
use my_finance.Ledger.Balance.Post.{Posted, fresh, replay, post_journal-Posted}
use my_finance.Ledger.Posting.{post_reversal-eq-ok}

-- The part of some lines, and of a transaction's entries, on one account.
unfoldable pub lines_on : ℕ → List JournalEntry → ℤ
lines_on account [] = pos 0
lines_on account (e ∷ es) =
    let rest = lines_on account es in if e.account == account then e.amount +ℤ rest else rest

abbrev belongs_on : ℕ → ℕ → ℕ → Entry → Bool
belongs_on id user account e = e.transaction == id && e.user == user && e.account == account

pub share : ℕ → ℕ → ℕ → List Entry → ℤ
share id user account [] = pos 0
share id user account (e ∷ es) =
    let rest = share id user account es in
    if belongs_on id user account e then e.amount +ℤ rest else rest

account_sum-prepend :
    (id user account : ℕ) (lines : List JournalEntry) (xs : List Entry)
    → account_sum account user (prepend id user lines xs)
      ≡ lines_on account lines +ℤ account_sum account user xs
unfolding account_sum lines_on
account_sum-prepend id user account [] xs = omega int_laws
account_sum-prepend id user account (e ∷ es) xs =
    account_sum-prepend id user account es _ ∙ go (e.account == account)
  where
    go :
        (b : Bool)
        → lines_on account es
            +ℤ (if b && user == user
                then e.amount +ℤ account_sum account user xs
                else account_sum account user xs)
          ≡ (if b then e.amount +ℤ lines_on account es else lines_on account es)
            +ℤ account_sum account user xs
    go true = rw (==_refl user) (omega int_laws)
    go false = refl

lines_on-negated :
    (id user account : ℕ) (es : List Entry)
    → lines_on account (negated_lines id user es) ≡ neg_ℤ (share id user account es)
unfolding lines_on negated_lines share
lines_on-negated id user account [] = omega int_laws
lines_on-negated id user account (e ∷ es) =
    elim (Bool-cases (e.transaction == id && e.user == user)) [
      | inl its ↦ rw its (on_account (e.account == account) (lines_on-negated id user account es))
      | inr other ↦ rw other (lines_on-negated id user account es)
    ]
  where
    on_account :
        (b : Bool)
        → lines_on account (negated_lines id user es) ≡ neg_ℤ (share id user account es)
        → (if b
            then neg_ℤ e.amount +ℤ lines_on account (negated_lines id user es)
            else lines_on account (negated_lines id user es))
          ≡ neg_ℤ
              (if true && b then e.amount +ℤ share id user account es else share id user account es)
    on_account true ih = ap (λ (z : ℤ). neg_ℤ e.amount +ℤ z) ih ∙ neg_sum (share id user account es)
      where
        neg_sum : (z : ℤ) → neg_ℤ e.amount +ℤ neg_ℤ z ≡ neg_ℤ (e.amount +ℤ z)
        neg_sum z = omega int_laws
    on_account false ih = ih

-- A key that no transaction has is not one of a posted transaction.
find-unknown_key :
    (user key : ℕ) (ts : List Transaction)
    → any (has_key user key) ts ≡ false
    → find (posted_with user key) ts ≡ none
unfolding any find
find-unknown_key user key [] h = refl
find-unknown_key user key (t ∷ ts) h = ground (arith, find-unknown_key user key ts)

pub replayed-unknown :
    (user key : ℕ) (s : Ledger) (r : ℕ × Bool)
    → any (has_key user key) s.transactions ≡ false
    → replayed user key s ≢ ok r
replayed-unknown user key s r h e =
    let gone : find (posted_with user key) s.transactions ≡ none =
      find-unknown_key user key s.transactions h in
    ground arith

-- With a new key a posting adds its lines to the sums of the accounts.
post_journal-account_sum :
    (id user account : ℕ) (spec : JournalSpec) (s s' : Ledger) (r : ℕ × Bool)
    → any (has_key user spec.key) s.transactions ≡ false
    → post_journal id user spec s ≡ ok (r, s')
    → account_sum account user s'.entries
      ≡ lines_on account spec.entries +ℤ account_sum account user s.entries
post_journal-account_sum id user account spec s s' r h e =
    outcome (post_journal-Posted id user spec s s' r e)
  where
    outcome :
        Posted id user spec s r s'
        → account_sum account user s'.entries
          ≡ lines_on account spec.entries +ℤ account_sum account user s.entries
    outcome (fresh unique many new same) =
        ap (λ (x : Ledger). account_sum account user x.entries) same
        ∙ account_sum-prepend id user account spec.entries s.entries
    outcome (replay found same) = absurd (replayed-unknown user spec.key s r h found)

transaction_is-eq :
    (id user : ℕ) (t : Transaction) → posted_is id user t ≡ true → (t.id ≡ id) × (t.user ≡ user)
transaction_is-eq id user t h = ground arith

-- A reversal that succeeds, with a key that none of the user's transactions has, takes the share of
-- the original out of the sum of each account, and changes nothing else in these sums.
pub post_reversal-account_sum :
    (id user original key account : ℕ) (description : Option Text) (s s' : Ledger) (r : ℕ)
    → any (has_key user key) s.transactions ≡ false
    → post_reversal id user original key description s ≡ ok (r, s')
    → account_sum account user s'.entries
      ≡ neg_ℤ (share original user account s.entries) +ℤ account_sum account user s.entries
post_reversal-account_sum id user original key account description s s' r h e =
    let (t, b, found, plain, unreversed, posted) =
      post_reversal-eq-ok id user original key description s s' r e in
    let (its_id, its_user) =
      transaction_is-eq original user t
        (find-eq-some (posted_is original user) t s.transactions found) in
    post_journal-account_sum id user account (reversal_spec t key description s.entries) s s' (r, b)
      h posted
    ∙ ap (λ z. z +ℤ account_sum account user s.entries)
        (lines_on-negated t.id t.user account s.entries ∙ λ i.
          neg_ℤ (share (its_id i) (its_user i) account s.entries))
