-- ===== src/Assets/Revalued.antt =====
-- The balance of an asset's account after a valuation.
use my_finance.Common.{
  ℕ, ◌≡◌, ◌≢◌, refl, sym, ap, ◌∙◌, Bool, true, false, Option, some, none, ◌==◌, any, arith,
  if◌then◌else◌,
}
use my_finance.Common.Int.{◌+ℤ◌, neg_ℤ}
use my_finance.Money.{Amount, add, negate, is_zero}
use my_finance.Errors.{Result, ok, conflict, older_valuation}
use my_finance.Tx.{Tx, pure, reads, ◌>>=◌, ◌>>◌, require}
use my_finance.Tx.Keeps.{
  >>=-eq-ok, reads>>=-eq-ok, require>>-eq-ok, state_path, zoom-eq-ok, ok_path,
}
use my_finance.Ledger.State.{unrealized_gain_loss}
use my_finance.Ledger.Schema.{has_key}
use my_finance.Ledger.Journal.{JournalSpec, post_journal}
use my_finance.Ledger.Operation.{system_account}
use my_finance.Ledger.Balance.{IsSound}
use my_finance.Reconciliation.State.{account_balance_at}
use my_finance.Reconciliation.Balance.{
  post_journal-account_balance_at, two_lines-lines_on, after_irrefl, balance_made_up,
}
use my_finance.Reconciliation.Balance.Adjusted.{other_account, nothing_missing}
use my_finance.Assets.{Asset, Valuation, Holdings, on_ledger, put_ledger, insert_valuation}
use my_finance.Assets.Views.{latest_valuation}
use my_finance.Assets.Valuing.{
  Outside, CreateValuation, not_older, revaluation_spec, revalue, valuation_row, value_asset,
}

-- The balance on the date of a valuation.
abbrev balance_on : ℕ → Asset → CreateValuation → Holdings → Amount
balance_on user a p h = account_balance_at user a.account p.valued_on h.ledger

revalue-balance_on :
    (o : Outside) (user : ℕ) (a : Asset) (p : CreateValuation) (currency : ℕ)
    (owned balance : Amount) (h h' : Holdings) (r : Option ℕ)
    → IsSound h.ledger
    → any (has_key user (o.revaluation_key a.id p.key)) h.ledger.transactions ≡ false
    → balance ≡ balance_on user a p h
    → system_account user unrealized_gain_loss h.ledger ≢ ok a.account
    → revalue o user a p currency (add owned (negate balance)) h ≡ ok (r, h')
    → balance_on user a p h' ≡ owned
unfolding revalue
revalue-balance_on o user a p currency owned balance h h' r sound new_key based apart e =
    go (is_zero (add owned (negate balance))) refl e
  where
    spec : ℕ → JournalSpec
    spec system = revaluation_spec o a p system currency (add owned (negate balance))

    answer : ℕ × Bool → Tx Holdings (Option ℕ)
    answer posted = pure (some posted.0)

    posting : ℕ → Tx Holdings (Option ℕ)
    posting system = on_ledger (post_journal (o.new 8) user (spec system)) >>= answer

    find_system : Holdings → Result ℕ
    find_system q = system_account user unrealized_gain_loss q.ledger

    go :
        (c : Bool)
        → is_zero (add owned (negate balance)) ≡ c
        → (if c then pure none else reads find_system >>= posting) h ≡ ok (r, h')
        → balance_on user a p h' ≡ owned
    go true zero_gap k =
        ap (balance_on user a p) (sym (state_path k))
        ∙ sym based
        ∙ nothing_missing owned balance zero_gap
    go false gap k =
        let (system, found, rest) = reads>>=-eq-ok find_system posting h k in
        let (posted, q, ran, last) =
          >>=-eq-ok (on_ledger (post_journal (o.new 8) user (spec system))) answer h rest in
        let (s, journal, same) =
          zoom-eq-ok (λ (x : Holdings). x.ledger) put_ledger
            (post_journal (o.new 8) user (spec system)) h ran in
        let apart_ids : (system == a.account) ≡ false =
          other_account system a.account (λ eq. apart (found ∙ eq)) in
        ap (balance_on user a p) (sym (state_path last) ∙ same)
        ∙ post_journal-account_balance_at (o.new 8) user a.account (spec system) p.valued_on
            h.ledger s posted sound new_key (after_irrefl p.valued_on) journal
        ∙ ap (λ z. z +ℤ balance_on user a p h)
            (two_lines-lines_on a.account system currency _ _ apart_ids)
        ∙ ap (λ z. (owned +ℤ neg_ℤ balance) +ℤ z) (sym based)
        ∙ balance_made_up owned balance

insert_valuation-ledger :
    (v : Valuation) (h h' : Holdings) (u : Unit {0})
    → insert_valuation v h ≡ ok (u, h')
    → h'.ledger ≡ h.ledger
unfolding insert_valuation
insert_valuation-ledger v h h' u e = ground arith

-- A valuation that succeeds in a sound ledger, whose revaluation key none of the user's transactions
-- has, leaves the asset's account with a balance on its date of exactly the owned value: the user's
-- portion of the market value. The asset's account is not the account of unrealized gains.
pub value_asset-account_balance_at :
    (o : Outside) (user currency : ℕ) (a : Asset) (p : CreateValuation) (market : Amount)
    (h h' : Holdings) (r : ℕ)
    → IsSound h.ledger
    → any (has_key user (o.revaluation_key a.id p.key)) h.ledger.transactions ≡ false
    → system_account user unrealized_gain_loss h.ledger ≢ ok a.account
    → value_asset o user currency a p market h ≡ ok (r, h')
    → account_balance_at user a.account p.valued_on h'.ledger ≡ o.portion market a.share
unfolding value_asset
value_asset-account_balance_at o user currency a p market h h' r sound new_key apart e =
    let (latest, known, e1) = reads>>=-eq-ok find_latest dated h e in
    let (on_time, e2) =
      require>>-eq-ok (not_older p.valued_on latest) (conflict older_valuation)
        (reads find_balance >>= balanced) h e1 in
    let (balance, computed, e3) = reads>>=-eq-ok find_balance balanced h e2 in
    let (revaluation, q, moved, e4) =
      >>=-eq-ok (revalue o user a p currency (add (o.portion market a.share) (negate balance)))
        (recorded balance) h e3 in
    let (u, i, row, last) =
      >>=-eq-ok (insert_valuation (valuation_row o user a p market balance revaluation))
        (λ u. pure (o.new 9)) q e4 in
    let same : h'.ledger ≡ q.ledger =
      ap (λ (x : Holdings). x.ledger) (sym (state_path last))
      ∙ insert_valuation-ledger (valuation_row o user a p market balance revaluation) q i u row in
    ap (account_balance_at user a.account p.valued_on) same
    ∙ revalue-balance_on o user a p currency (o.portion market a.share) balance h q revaluation
        sound new_key (sym (ok_path computed)) apart moved
  where
    find_latest : Holdings → Result (Option Valuation)
    find_latest q = ok (latest_valuation a.id q.valuations)

    find_balance : Holdings → Result Amount
    find_balance q = ok (account_balance_at user a.account p.valued_on q.ledger)

    recorded : Amount → Option ℕ → Tx Holdings ℕ
    recorded balance revaluation =
        insert_valuation (valuation_row o user a p market balance revaluation) >> pure (o.new 9)

    balanced : Amount → Tx Holdings ℕ
    balanced balance =
        revalue o user a p currency (add (o.portion market a.share) (negate balance))
        >>= recorded balance

    dated : Option Valuation → Tx Holdings ℕ
    dated latest =
        require (not_older p.valued_on latest) (conflict older_valuation)
        >> (reads find_balance >>= balanced)
