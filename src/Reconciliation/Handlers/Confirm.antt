-- ===== src/Reconciliation/Handlers/Confirm.antt =====
-- When a preview can be confirmed.
use my_finance.Common.{
  ℕ, ◌≤◌, ◌≡◌, refl, sym, ap, ◌∙◌, Bool, true, not, ◌&&◌, Option, none, some, arith, ltb, option_eq,
  option_eq_iff, find, find-eq-some,
}
use my_finance.Text.{text_eq-eq}
use my_finance.Money.{Amount, to_string}
use my_finance.Money.RoundTrip.{InRange, parse-to_string, to_string_inj}
use my_finance.Errors.{ok, preview_expired, preview_stale, not_found}
use my_finance.Calendar.{Date}
use my_finance.Tx.{Tx, or_fail, pure, reads, ◌>>=◌, ◌>>◌, require}
use my_finance.Tx.Keeps.{reads>>=-eq-ok, require>>-eq-ok, ok_path}
use my_finance.Ledger.State.{Account}
use my_finance.Reconciliation.State.{
  Books, Preview, Reconciliation, lock_account, account_balance_at, active_reconciliation,
  reconcilable,
}
use my_finance.Reconciliation.Apply.{Request, apply_reconciliation}
use my_finance.Reconciliation.Handlers.{
  amount_strings_equal, confirm_request, confirm_open, mark_confirmed, both_equal,
}

-- `amountStringsEqual` on two printed amounts is equality.
pub amount_strings_equal-to_string :
    (a b : Amount)
    → InRange a
    → InRange b
    → amount_strings_equal (to_string a) (to_string b) ≡ true
    → a ≡ b
unfolding amount_strings_equal
amount_strings_equal-to_string a b ha hb h = to_string_inj a b ha hb (
    text_eq-eq (to_string a) (to_string b)
      (sym (λ i. both_equal (parse-to_string a ha i) (parse-to_string b hb i)) ∙ h))

locked-id : (user id : ℕ) (b : Books) (a : Account) → lock_account user id b ≡ ok a → a.id ≡ id
unfolding lock_account
locked-id user id b a h = go (find (reconcilable id user) b.ledger.accounts) refl h
  where
    go :
        (o : Option Account)
        → find (reconcilable id user) b.ledger.accounts ≡ o
        → or_fail o not_found ≡ ok a
        → a.id ≡ id
    go none e k = cc
    go (some x) e k =
        let test : reconcilable id user x ≡ true =
          find-eq-some (reconcilable id user) x b.ledger.accounts e in
        ap (λ (y : Account). y.id) (sym (ok_path k)) ∙ ground arith

and-eq-true : (x y : Bool) → x && y ≡ true → (x ≡ true) × (y ≡ true)
and-eq-true x y h = ground arith

-- A preview that is confirmed has not expired, the balance of its account is still the one it
-- showed, and so is the reconciliation that it replaces. Both balances are in the range of amounts.
pub confirm_open-eq-ok :
    (age : Date → Date → ℕ) (sha1 : ℕ → ℕ → ℕ) (new : ℕ → ℕ) (now : ℕ) (p : Preview) (b b' : Books)
    (r : Reconciliation)
    → InRange p.ledger
    → InRange (account_balance_at p.user p.account p.period_end b.ledger)
    → confirm_open age sha1 new now p b ≡ ok (r, b')
    → (now ≤ p.expires_at)
      × (account_balance_at p.user p.account p.period_end b.ledger ≡ p.ledger)
      × (active_reconciliation p.user p.account p.period_end b.reconciliations ≡ p.current)
unfolding confirm_open
confirm_open-eq-ok age sha1 new now p b b' r shown_fits fits h =
    let (in_time, h0) = require>>-eq-ok (not (ltb p.expires_at now)) preview_expired _ b h in
    let (account, locked, h1) = reads>>=-eq-ok (lock_account p.user p.account) (checked p) b h0 in
    let (q, asked, h2) =
      reads>>=-eq-ok (λ (x : Books). ok (confirm_request age p account x)) (unchanged p) b h1 in
    let (same, h3) =
      require>>-eq-ok
        (amount_strings_equal (to_string q.balance) (to_string p.ledger)
          && option_eq q.current p.current)
        preview_stale
        (apply_reconciliation sha1 new q >>= λ x. mark_confirmed p.id p.user x.id >> pure x) b h2 in
    let its_id : account.id ≡ p.account = locked-id p.user p.account b account locked in
    let its_balance : q.balance ≡ account_balance_at p.user p.account p.period_end b.ledger =
      ap (λ (x : Request). x.balance) (sym (ok_path asked))
      ∙ ap (λ i. account_balance_at p.user i p.period_end b.ledger) its_id in
    let its_current : q.current
        ≡ active_reconciliation p.user p.account p.period_end b.reconciliations =
      ap (λ (x : Request). x.current) (sym (ok_path asked))
      ∙ ap (λ i. active_reconciliation p.user i p.period_end b.reconciliations) its_id in
    let (equal, current) =
      and-eq-true (amount_strings_equal (to_string q.balance) (to_string p.ledger))
        (option_eq q.current p.current) same in
    (
      ground arith,
      amount_strings_equal-to_string _ p.ledger fits shown_fits (
          ap (λ x. amount_strings_equal (to_string x) (to_string p.ledger)) (sym its_balance)
          ∙ equal),
      sym its_current ∙ (option_eq_iff q.current p.current).0 current,
    )
  where
    unchanged : Preview → Request → Tx Books Reconciliation
    unchanged p q =
        require
          (amount_strings_equal (to_string q.balance) (to_string p.ledger)
            && option_eq q.current p.current)
          preview_stale
        >> (apply_reconciliation sha1 new q >>= λ x. mark_confirmed p.id p.user x.id >> pure x)

    checked : Preview → Account → Tx Books Reconciliation
    checked p account = reads (λ (x : Books). ok (confirm_request age p account x)) >>= unchanged p
