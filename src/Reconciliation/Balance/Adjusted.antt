-- ===== src/Reconciliation/Balance/Adjusted.antt =====
-- The balance after the adjustment of a reconciliation.
use my_finance.Common.{
  ℕ, ◌≡◌, ◌≢◌, refl, sym, ap, ◌∙◌, Bool, true, false, Option, some, none, ◌==◌, any, arith,
  if◌then◌else◌,
}
use my_finance.Common.Int.{pos_part, neg_part, ◌+ℤ◌, neg_ℤ, int_laws}
use my_finance.Calendar.{Date}
use my_finance.Money.{Amount, add, negate, is_zero}
use my_finance.Errors.{Result, ok}
use my_finance.Tx.{Tx, pure, reads, ◌>>=◌}
use my_finance.Tx.Keeps.{>>=-eq-ok, reads>>=-eq-ok, state_path, zoom-eq-ok}
use my_finance.Ledger.State.{Account, Ledger}
use my_finance.Ledger.Schema.{has_key}
use my_finance.Ledger.Journal.{JournalSpec, post_journal}
use my_finance.Ledger.Operation.{system_account}
use my_finance.Ledger.Balance.{IsSound}
use my_finance.Reconciliation.State.{Books, on_ledger, put_ledger, account_balance_at}
use my_finance.Reconciliation.Apply.{adjustment_spec, post_adjustment, system_code_of}
use my_finance.Reconciliation.Balance.{
  post_journal-account_balance_at, two_lines-lines_on, after_irrefl, balance_made_up,
}

on_ledger-eq-ok :
    {A : Type 0} (m : Tx Ledger A) (b b' : Books) (a : A)
    → on_ledger m b ≡ ok (a, b')
    → m b.ledger ≡ ok (a, b'.ledger)
on_ledger-eq-ok m b b' a h =
    let (s, ran, same) = zoom-eq-ok (λ (q : Books). q.ledger) put_ledger m b h in
    ran ∙ ap (λ (q : Books). ok (a, q.ledger)) (sym same)

pub other_account : (i j : ℕ) → ◌≢◌ {A = Result ℕ} (ok i) (ok j) → (i == j) ≡ false
other_account i j h = ground arith

pub nothing_missing : (a b : Amount) → is_zero (add a (negate b)) ≡ true → b ≡ a
nothing_missing a b h =
    let up : pos_part (a +ℤ neg_ℤ b) ≡ 0 = ground arith in
    let down : neg_part (a +ℤ neg_ℤ b) ≡ 0 = ground arith in omega (int_laws, up, down)

-- When the adjustment of a reconciliation is worked out from the account's balance at the end of the
-- period, in a sound ledger, and is posted under a key that none of the user's transactions has, the
-- balance at the end of the period is the reported one afterwards. The account is not the system
-- account that the adjustment is posted against.
pub post_adjustment-account_balance_at :
    (id user : ℕ) (account : Account) (period_end : Date) (key gap : ℕ) (reported base : Amount)
    (b b' : Books) (r : Option ℕ)
    → IsSound b.ledger
    → any (has_key user key) b.ledger.transactions ≡ false
    → base ≡ account_balance_at user account.id period_end b.ledger
    → system_account user (system_code_of (add reported (negate base))) b.ledger ≢ ok account.id
    → post_adjustment id user account period_end key gap (add reported (negate base)) b ≡ ok (r, b')
    → account_balance_at user account.id period_end b'.ledger ≡ reported
unfolding post_adjustment
post_adjustment-account_balance_at id user account period_end key gap reported base b b' r sound
      new_key based apart h =
    go (is_zero (add reported (negate base))) refl h
  where
    spec : ℕ → JournalSpec
    spec system = adjustment_spec account period_end key gap system (add reported (negate base))

    answer : ℕ × Bool → Tx Books (Option ℕ)
    answer posted = pure (some posted.0)

    posting : ℕ → Tx Books (Option ℕ)
    posting system = on_ledger (post_journal id user (spec system)) >>= answer

    find_system : Books → Result ℕ
    find_system q = system_account user (system_code_of (add reported (negate base))) q.ledger

    go :
        (c : Bool)
        → is_zero (add reported (negate base)) ≡ c
        → (if c then pure none else reads find_system >>= posting) b ≡ ok (r, b')
        → account_balance_at user account.id period_end b'.ledger ≡ reported
    go true e k =
        ap (λ (q : Books). account_balance_at user account.id period_end q.ledger)
          (sym (state_path k))
        ∙ sym based
        ∙ nothing_missing reported base e
    go false e k =
        let (system, found, rest) = reads>>=-eq-ok find_system posting b k in
        let (posted, q, on_books, last) =
          >>=-eq-ok (on_ledger (post_journal id user (spec system))) answer b rest in
        let apart_ids : (system == account.id) ≡ false =
          other_account system account.id (λ same. apart (found ∙ same)) in
        ap (λ (x : Books). account_balance_at user account.id period_end x.ledger)
          (sym (state_path last))
        ∙ post_journal-account_balance_at id user account.id (spec system) period_end b.ledger
            q.ledger posted sound new_key (after_irrefl period_end)
            (on_ledger-eq-ok (post_journal id user (spec system)) b q posted on_books)
        ∙ ap (λ z. z +ℤ account_balance_at user account.id period_end b.ledger)
            (two_lines-lines_on account.id system account.currency _ _ apart_ids)
        ∙ ap (λ z. (reported +ℤ neg_ℤ base) +ℤ z) (sym based)
        ∙ balance_made_up reported base
