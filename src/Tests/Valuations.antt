-- ===== src/Tests/Valuations.antt =====
-- Assets, and the adjustment of a reconciliation, at concrete tables.
use my_finance.Common.{
  ℕ, ◌+◌, ◌*◌, ◌/◌, ◌≡◌, ◌≢◌, refl, true, false, none, some, [], ◌∷◌, any, find, arith,
}
use my_finance.Common.Int.{pos, pos_part, ◌+ℤ◌, neg_ℤ}
use my_finance.Text.{codes, trim_left, trim_right}
use my_finance.Money.{Amount, add, negate}
use my_finance.Errors.{Result, ok}
use my_finance.Ledger.State.{Account, Ledger, other_income, unrealized_gain_loss}
use my_finance.Ledger.Schema.{insert_entry, insert_transaction, mark_posted, has_key}
use my_finance.Ledger.Journal.{insert_entries, post_journal}
use my_finance.Ledger.Operation.{system_account}
use my_finance.Ledger.Balance.{IsSound}
use my_finance.Reconciliation.State.{Books, account_balance_at, balance_over}
use my_finance.Reconciliation.Apply.{adjustment_spec, post_adjustment}
use my_finance.Reconciliation.Balance.Adjusted.{post_adjustment-account_balance_at}
use my_finance.Assets.{Asset, Holdings, insert_valuation, real_estate_asset}
use my_finance.Assets.Share.{hundredths, share_ok}
use my_finance.Assets.Views.{
  latest_valuation, Valued, allocated, allocations, asset_types, total_value,
}
use my_finance.Assets.Valuing.{CreateValuation, Outside, create_valuation, revalue, value_asset}
use my_finance.Assets.Revalued.{value_asset-account_balance_at}
use my_finance.Assets.Order.{IsDated, create_valuation-IsDated}
use my_finance.Assets.Totals.{allocated-total_value}
use my_finance.Tests.Postings.{cash_account, equity_account, ids, same_text}
use my_finance.Tests.Runs.{mar1, savings_ledger, state_or}

abbrev gains_account : Account
gains_account = record equity_account { id = 13; system_code = some unrealized_gain_loss }

abbrev income_account : Account
income_account = record equity_account { id = 14; system_code = some other_income }

abbrev valued_ledger : Ledger
valued_ledger = record savings_ledger {
  accounts = gains_account ∷ income_account ∷ savings_ledger.accounts;
}

valued-IsSound : IsSound valued_ledger
valued-IsSound = record { balanced = tt; owned = tt }

abbrev flat : Asset
flat = record {
  id = 50;
  user = 1;
  account = 12;
  name = codes "Flat";
  kind = real_estate_asset;
  currency = 978;
  share = 5000;
  country = none;
  region = none;
  institution = none;
  notes = none;
  key = 51;
  purchase = none;
  archived = false;
}

abbrev holdings : Holdings
holdings = record { ledger = valued_ledger; assets = flat ∷ []; valuations = [] }

abbrev outside : Outside
outside = record {
  lower = same_text;
  portion = λ a share. pos (pos_part a * share / 10000);
  revaluation_key = λ asset key. asset * 1000 + key;
  date_text = λ d. codes "2027-03-01";
  new = ids;
}

abbrev estimate : CreateValuation
estimate = record { valued_on = mar1; market = codes "200"; notes = none; key = 60 }

abbrev valuing : Result (ℕ × Holdings)
valuing = value_asset outside 1 978 flat estimate (pos 20000000000) holdings

abbrev holdings_after : Holdings
holdings_after = state_or holdings valuing

valuing_ok : valuing ≡ ok (109, holdings_after)
unfolding value_asset revalue insert_valuation latest_valuation system_account post_journal
    insert_transaction insert_entry insert_entries mark_posted any find trim_left trim_right ◌+ℤ◌
    neg_ℤ balance_over
valuing_ok = refl

no_such_key : any (has_key 1 50060) valued_ledger.transactions ≡ false
unfolding any
no_such_key = refl

apart_from_gains : system_account 1 unrealized_gain_loss valued_ledger ≢ ok 12
unfolding system_account find
apart_from_gains = λ e. ground arith

value_asset-account_balance_at_example :
    account_balance_at 1 12 mar1 holdings_after.ledger ≡ pos 10000000000
value_asset-account_balance_at_example =
    value_asset-account_balance_at outside 1 978 flat estimate (pos 20000000000) holdings
      holdings_after 109 valued-IsSound no_such_key apart_from_gains valuing_ok

none-IsDated : IsDated []
unfolding IsDated
none-IsDated = tt

create_valuation-IsDated_example :
    IsDated (create_valuation outside (some 1) (some estimate) 50 holdings).1.valuations
create_valuation-IsDated_example =
    create_valuation-IsDated outside (some 1) (some estimate) 50 holdings none-IsDated

abbrev two_assets : my_finance.Common.List Valued
two_assets =
    record { kind = real_estate_asset; value = pos 5 }
    ∷ record { kind = real_estate_asset; value = pos 7 }
    ∷ []

allocated-total_value_example :
    allocated (allocations asset_types two_assets) ≡ total_value two_assets
allocated-total_value_example = allocated-total_value two_assets

-- A share of nothing passes the pattern, and the constraint of the table refuses it.
nothing_passes : (share_ok (codes "0.00") ≡ true) × (hundredths (codes "0.00") ≡ 0)
unfolding share_ok hundredths
nothing_passes = (refl, refl)

abbrev books : Books
books = record { ledger = valued_ledger; reconciliations = []; snapshots = []; previews = [] }

abbrev adjusting : Result (my_finance.Common.Option ℕ × Books)
adjusting = post_adjustment 70 1 cash_account mar1 71 1 (add (pos 500) (negate (pos 0))) books

abbrev books_after : Books
books_after = state_or books adjusting

adjusting_ok : adjusting ≡ ok (some 70, books_after)
unfolding post_adjustment system_account post_journal insert_transaction insert_entry insert_entries
    mark_posted any find trim_left trim_right ◌+ℤ◌ neg_ℤ my_finance.Money.emit
    my_finance.Money.print
adjusting_ok = refl

nothing_before : pos 0 ≡ account_balance_at 1 10 mar1 valued_ledger
unfolding balance_over
nothing_before = refl

no_key_71 : any (has_key 1 71) valued_ledger.transactions ≡ false
unfolding any
no_key_71 = refl

apart_from_income :
    system_account 1
      (my_finance.Reconciliation.Apply.system_code_of (add (pos 500) (negate (pos 0))))
      valued_ledger
    ≢ ok 10
unfolding system_account find ◌+ℤ◌ neg_ℤ
apart_from_income = λ e. ground arith

post_adjustment-account_balance_at_example :
    account_balance_at 1 10 mar1 books_after.ledger ≡ pos 500
post_adjustment-account_balance_at_example =
    post_adjustment-account_balance_at 70 1 cash_account mar1 71 1 (pos 500) (pos 0) books
      books_after (some 70) valued-IsSound no_key_71 nothing_before apart_from_income adjusting_ok
