-- ===== src/Assets/Dealings.antt =====
-- Every request for assets as a step, and what a run of them keeps.
use my_finance.Common.{ℕ, ◌≡◌, refl, Option, none, some, Bool, true, false, not, if◌then◌else◌}
use my_finance.Text.{Text}
use my_finance.Money.{Amount}
use my_finance.Errors.{Result, Reply, success, failure, code_validation_failed, code_empty_update}
use my_finance.Tx.{commit_or_rollback}
use my_finance.Tx.Keeps.{commit_or_rollback-keeps}
use my_finance.Ledger.Balance.{IsSound}
use my_finance.Ledger.Handlers.{then_read}
use my_finance.Assets.{AssetType, Holdings}
use my_finance.Assets.Views.{get_asset, get_valuation}
use my_finance.Assets.Requests.{CreateAsset, create_asset, create_refused, create_valid}
use my_finance.Assets.Requests.Update.{
  UpdateAsset, update_asset, update_asset_tx, update_refused, is_update,
}
use my_finance.Assets.Valuing.{CreateValuation, create_valuation, with_market, accepted_market}
use my_finance.Assets.Sound.{
  IsSoundHoldings, create_asset_tx-Keeps, update_asset_tx-Keeps, create_valuation_tx-Keeps,
}
use my_finance.Assets.Requests
use my_finance.Assets.Valuing

-- One request, of any user.
pub data Deals : Holdings → Holdings → Type 0 where
  creates :
      (o : Requests.Outside) (session : Option ℕ) (body : Option CreateAsset) (h : Holdings)
      → Deals h (create_asset o session body h).1
  updates :
      (shown : Amount → Text) (session : Option ℕ) (body : Option UpdateAsset) (id : ℕ)
      (h : Holdings)
      → Deals h (update_asset shown session body id h).1
  values :
      (o : Valuing.Outside) (session : Option ℕ) (body : Option CreateValuation) (id : ℕ)
      (h : Holdings)
      → Deals h (create_valuation o session body id h).1

-- Requests one after the other.
pub data Trades : Holdings → Holdings → Type 0 where
  here : {h : Holdings} → Trades h h
  next : {g h i : Holdings} → Trades g h → Deals h i → Trades g i

module _ {A B : Type 0} (f : A → Holdings → Result B) where
  then_read-tables : (r : Reply A × Holdings) → (then_read f r).1 ≡ r.1
  then_read-tables (success status a, h) = refl
  then_read-tables (failure status c, h) = refl

  read_after-IsSound :
      (r : Reply A × Holdings) → IsSound r.1.ledger → IsSound (then_read f r).1.ledger
  read_after-IsSound r k = rw (then_read-tables r) k

create_valid-IsSound :
    (o : Requests.Outside) (user : ℕ) (p : CreateAsset) (kind : Option AssetType)
    (currency : Option ℕ) (h : Holdings)
    → IsSound h.ledger
    → IsSound (create_valid o user p kind currency h).1.ledger
create_valid-IsSound o user p none currency h k = k
create_valid-IsSound o user p (some kind) none h k = k
create_valid-IsSound o user p (some kind) (some currency) h k =
    commit_or_rollback-keeps {P = IsSoundHoldings} 201 _ h
      (create_asset_tx-Keeps o user p kind currency) k

with_market-IsSound :
    (o : Valuing.Outside) (user id : ℕ) (p : CreateValuation) (market : Option Amount)
    (h : Holdings)
    → IsSound h.ledger
    → IsSound (with_market o user id p market h).1.ledger
with_market-IsSound o user id p none h k = k
with_market-IsSound o user id p (some market) h k = read_after-IsSound (get_valuation user) _ (
    commit_or_rollback-keeps {P = IsSoundHoldings} 201 _ h
      (create_valuation_tx-Keeps o user id p market) k)

pub Deals-IsSound : {h i : Holdings} → Deals h i → IsSound h.ledger → IsSound i.ledger
unfolding create_asset update_asset create_valuation
Deals-IsSound (creates o none body h) k = k
Deals-IsSound (creates o (some user) none h) k = k
Deals-IsSound (creates o (some user) (some p) h) k = go (create_refused p)
  where
    go :
        (b : Bool)
        → IsSound
            (if b
              then (failure 400 code_validation_failed, h)
              else then_read
                  (get_asset o.shown user)
                  (create_valid o user p p.kind p.currency h)).1.ledger
    go true = k
    go false =
        read_after-IsSound (get_asset o.shown user) _
          (create_valid-IsSound o user p p.kind p.currency h k)
Deals-IsSound (updates shown none body id h) k = k
Deals-IsSound (updates shown (some user) none id h) k = k
Deals-IsSound (updates shown (some user) (some p) id h) k = go (is_update p) (update_refused p)
  where
    go :
        (b c : Bool)
        → IsSound
            (if not b
              then (failure 400 code_empty_update, h)
              else if c
              then (failure 400 code_validation_failed, h)
              else then_read
                  (get_asset shown user)
                  (commit_or_rollback 200 (update_asset_tx user id p) h)).1.ledger
    go false c = k
    go true true = k
    go true false =
        read_after-IsSound (get_asset shown user) _ (
          commit_or_rollback-keeps {P = IsSoundHoldings} 200 _ h (update_asset_tx-Keeps user id p)
            k)
Deals-IsSound (values o none body id h) k = k
Deals-IsSound (values o (some user) none id h) k = k
Deals-IsSound (values o (some user) (some p) id h) k =
    with_market-IsSound o user id p (accepted_market p) h k
