-- ===== src/Assets/Sound.antt =====
-- Double entry across the requests for assets.
use mathlib.Core.Path.{subst}
use my_finance.Common.{ℕ, ◌≡◌, sym, Bool, Option, none, some, arith}
use my_finance.Common.Int.{pos, ◌+ℤ◌, neg_ℤ, int_laws}
use my_finance.Text.{Text}
use my_finance.Money.{Amount}
use my_finance.Errors.{ok}
use my_finance.Tx.{Tx}
use my_finance.Tx.Keeps.{Keeps, Keeps-pure, state_path, keeps_rules, zoom-Keeps}
use my_finance.Ledger.State.{Ledger, Account}
use my_finance.Ledger.Journal.{post_journal}
use my_finance.Ledger.Balance.{IsSound}
use my_finance.Ledger.Balance.Sound.{post_journal-Keeps}
use my_finance.Ledger.Handlers.Laws.{ensure-Keeps, insert_account-Keeps, other_tables-IsSound}
use my_finance.Assets.{
  Asset, AssetType, Valuation, Holdings, on_ledger, put_ledger, insert_asset, insert_valuation,
}
use my_finance.Assets.Requests.{
  CreateAsset, Purchase, purchase_spec, mark_purchase, buy_asset, asset_account, create_new_asset,
  create_asset_tx, known_or_asset,
}
use my_finance.Assets.Requests.Update.{
  UpdateAsset, update_asset_row, archive_account, update_asset_tx,
}
use my_finance.Assets.Valuing.{
  CreateValuation, revaluation_spec, revalue, value_asset, known_or_value, create_valuation_tx,
}
use my_finance.Assets.Requests
use my_finance.Assets.Valuing

abbrev pub IsSoundHoldings : Holdings → Type 0
IsSoundHoldings h = IsSound h.ledger

pub on_ledger-Keeps :
    {A : Type 0} (m : Tx Ledger A) → Keeps IsSound m → Keeps IsSoundHoldings (on_ledger m)
on_ledger-Keeps m k = zoom-Keeps IsSound (λ (h : Holdings). h.ledger) put_ledger m (λ h s x. x) k

-- A step that leaves the ledger.
ledger_same-Keeps :
    {A : Type 0} (m : Tx Holdings A)
    → ((h h' : Holdings) (a : A) → m h ≡ ok (a, h') → h'.ledger ≡ h.ledger)
    → Keeps IsSoundHoldings m
ledger_same-Keeps m same = record {
  at = λ h a h' sound e. subst IsSound (sym (same h h' a e)) sound;
}

insert_asset-Keeps : (a : Asset) → Keeps IsSoundHoldings (insert_asset a)
unfolding insert_asset
insert_asset-Keeps a = ledger_same-Keeps (insert_asset a) (λ h h' u e. ground arith)

insert_valuation-Keeps : (v : Valuation) → Keeps IsSoundHoldings (insert_valuation v)
unfolding insert_valuation
insert_valuation-Keeps v = ledger_same-Keeps (insert_valuation v) (λ h h' u e. ground arith)

mark_purchase-Keeps : (id transaction : ℕ) → Keeps IsSoundHoldings (mark_purchase id transaction)
unfolding mark_purchase
mark_purchase-Keeps id transaction =
    ledger_same-Keeps (mark_purchase id transaction) (λ h h' u e. ground arith)

update_asset_row-Keeps :
    (id user : ℕ) (p : UpdateAsset) (a : Asset)
    → Keeps IsSoundHoldings (update_asset_row id user p a)
unfolding update_asset_row
update_asset_row-Keeps id user p a =
    ledger_same-Keeps (update_asset_row id user p a) (λ h h' u e. ground arith)

opposite_sum : (a : Amount) → a +ℤ (neg_ℤ a +ℤ pos 0) ≡ pos 0
opposite_sum a = omega int_laws

opposite_sum_first : (a : Amount) → neg_ℤ a +ℤ (a +ℤ pos 0) ≡ pos 0
opposite_sum_first a = omega int_laws

purchase-Keeps :
    (id user : ℕ) (q : Purchase) (description : Option Text) (key : ℕ) (source : Account)
    (account functional : ℕ) (amount : Amount)
    → Keeps IsSound
        (post_journal id user (purchase_spec q description key source account functional amount))
purchase-Keeps id user q description key source account functional amount =
    post_journal-Keeps id user (purchase_spec q description key source account functional amount)
      (opposite_sum_first amount)

revaluation-Keeps :
    (o : Valuing.Outside) (id user : ℕ) (a : Asset) (p : CreateValuation) (system currency : ℕ)
    (adjustment : Amount)
    → Keeps IsSound (post_journal id user (revaluation_spec o a p system currency adjustment))
revaluation-Keeps o id user a p system currency adjustment =
    post_journal-Keeps id user (revaluation_spec o a p system currency adjustment)
      (opposite_sum adjustment)

buy_asset-Keeps :
    (o : Requests.Outside) (user functional id account : ℕ) (name : Text) (q : Option Purchase)
    → Keeps IsSoundHoldings (buy_asset o user functional id account name q)
unfolding buy_asset
buy_asset-Keeps o user functional id account name none = Keeps-pure tt
buy_asset-Keeps o user functional id account name (some q) =
    search (keeps_rules, on_ledger-Keeps, purchase-Keeps, mark_purchase-Keeps) depth 16

asset_account-Keeps :
    (id user functional : ℕ) (p : CreateAsset) (kind : AssetType) (chosen : Option ℕ)
    → Keeps IsSoundHoldings (asset_account id user functional p kind chosen)
unfolding asset_account
asset_account-Keeps id user functional p kind none =
    search (keeps_rules, on_ledger-Keeps, insert_account-Keeps) depth 12
asset_account-Keeps id user functional p kind (some chosen) = search keeps_rules depth 12

create_new_asset-Keeps :
    (o : Requests.Outside) (user functional : ℕ) (p : CreateAsset) (kind : AssetType)
    → Keeps IsSoundHoldings (create_new_asset o user functional p kind)
unfolding create_new_asset
create_new_asset-Keeps o user functional p kind =
    search (keeps_rules, asset_account-Keeps, insert_asset-Keeps, buy_asset-Keeps) depth 12

known_or_asset-Keeps :
    (found : Option Asset) (m : Tx Holdings ℕ)
    → Keeps IsSoundHoldings m
    → Keeps IsSoundHoldings (known_or_asset found m)
known_or_asset-Keeps none m k = k
known_or_asset-Keeps (some a) m k = Keeps-pure a.id

pub create_asset_tx-Keeps :
    (o : Requests.Outside) (user : ℕ) (p : CreateAsset) (kind : AssetType) (currency : ℕ)
    → Keeps IsSoundHoldings (create_asset_tx o user p kind currency)
unfolding create_asset_tx
create_asset_tx-Keeps o user p kind currency =
    search
      (keeps_rules, on_ledger-Keeps, ensure-Keeps, known_or_asset-Keeps, create_new_asset-Keeps)
      depth 14

archive_account-Keeps :
    (id user : ℕ) (archived : Option Bool) → Keeps IsSound (archive_account id user archived)
unfolding archive_account
archive_account-Keeps id user none = Keeps-pure tt
archive_account-Keeps id user (some archived) = record {
  at = λ s u s' h e. subst IsSound (state_path e) (other_tables-IsSound s _ s.categories h);
}

pub update_asset_tx-Keeps :
    (user id : ℕ) (p : UpdateAsset) → Keeps IsSoundHoldings (update_asset_tx user id p)
unfolding update_asset_tx
update_asset_tx-Keeps user id p =
    search (keeps_rules, on_ledger-Keeps, update_asset_row-Keeps, archive_account-Keeps) depth 12

revalue-Keeps :
    (o : Valuing.Outside) (user : ℕ) (a : Asset) (p : CreateValuation) (currency : ℕ)
    (adjustment : Amount)
    → Keeps IsSoundHoldings (revalue o user a p currency adjustment)
unfolding revalue
revalue-Keeps o user a p currency adjustment =
    search (keeps_rules, on_ledger-Keeps, revaluation-Keeps) depth 12

value_asset-Keeps :
    (o : Valuing.Outside) (user currency : ℕ) (a : Asset) (p : CreateValuation) (market : Amount)
    → Keeps IsSoundHoldings (value_asset o user currency a p market)
unfolding value_asset
value_asset-Keeps o user currency a p market =
    search (keeps_rules, revalue-Keeps, insert_valuation-Keeps) depth 12

known_or_value-Keeps :
    (found : Option Valuation) (m : Tx Holdings ℕ)
    → Keeps IsSoundHoldings m
    → Keeps IsSoundHoldings (known_or_value found m)
known_or_value-Keeps none m k = k
known_or_value-Keeps (some v) m k = Keeps-pure v.id

pub create_valuation_tx-Keeps :
    (o : Valuing.Outside) (user id : ℕ) (p : CreateValuation) (market : Amount)
    → Keeps IsSoundHoldings (create_valuation_tx o user id p market)
unfolding create_valuation_tx
create_valuation_tx-Keeps o user id p market =
    search (keeps_rules, on_ledger-Keeps, ensure-Keeps, known_or_value-Keeps, value_asset-Keeps)
      depth 14
