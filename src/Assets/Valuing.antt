-- ===== src/Assets/Valuing.antt =====
-- `CreateAssetValuation` of internal/httpapi/assets.go.
use my_finance.Common.{
  ℕ, Bool, true, not, ◌&&◌, ◌||◌, Option, none, some, [], ◌∷◌, ◌++◌, ◌==◌, if◌then◌else◌, find,
}
use my_finance.Text.{Text, codes}
use my_finance.Calendar.{Date, before}
use my_finance.Money.{Amount, parse, is_positive, is_zero, add, negate}
use my_finance.Errors.{
  ok, Reply, failure, not_found, fx_unavailable, conflict, asset_archived, older_valuation,
  code_validation_failed,
}
use my_finance.Tx.{Tx, pure, reads, or_fail, ◌>>=◌, ◌>>◌, require, commit_or_rollback}
use my_finance.Ledger.State.{unrealized_gain_loss, revaluation_type}
use my_finance.Ledger.Journal.{JournalSpec, line, post_journal}
use my_finance.Ledger.Operation.{system_account}
use my_finance.Ledger.Accounts.{ensure_ledger_infrastructure}
use my_finance.Ledger.Handlers.{on_request, then_read}
use my_finance.Reconciliation.State.{account_balance_at}
use my_finance.Assets.{
  Asset, Valuation, Holdings, on_ledger, asset_is, insert_valuation, nullable_trimmed, text_refused,
}
use my_finance.Assets.Views.{latest_valuation, get_valuation}

-- What the handler takes from outside: PostgreSQL's `lower`, its
-- `round($1::numeric * $2::numeric / 100, 8)` of an amount and a share, `uuid.NewSHA1` of an asset and
-- a key, the text of a date, and `uuid.New`.
pub record Outside : Type 0 where
  pub lower : Text → Text
  pub portion : Amount → ℕ → Amount
  pub revaluation_key : ℕ → ℕ → ℕ
  pub date_text : Date → Text
  pub new : ℕ → ℕ

-- `api.CreateAssetValuationRequest`
pub record CreateValuation : Type 0 where
  pub valued_on : Date
  pub market : Text
  pub notes : Option Text
  pub key : ℕ

abbrev market_of : Option Amount → Option Amount
market_of none = none
market_of (some a) = if is_positive a || is_zero a then some a else none

-- The market value, where the tests before the transaction accept the request.
unfoldable pub accepted_market : CreateValuation → Option Amount
accepted_market p = if text_refused 1000 p.notes then none else market_of (parse p.market)

abbrev pub revaluation_spec : Outside → Asset → CreateValuation → ℕ → ℕ → Amount → JournalSpec
revaluation_spec o a p system currency adjustment = record {
  kind = revaluation_type;
  event_date = p.valued_on;
  description =
      some (codes "Manual revaluation · " ++ a.name ++ codes " · " ++ o.date_text p.valued_on);
  key = o.revaluation_key a.id p.key;
  reverses = none;
  replaces = none;
  entries = line a.account adjustment currency ∷ line system (negate adjustment) currency ∷ [];
}

-- The transaction that makes up the difference, when there is one.
unfoldable pub revalue : Outside → ℕ → Asset → CreateValuation → ℕ → Amount → Tx Holdings (Option ℕ)
revalue o user a p currency adjustment =
    if is_zero adjustment
    then pure none
    else reads (λ (h : Holdings). system_account user unrealized_gain_loss h.ledger) >>= λ system.
        on_ledger (post_journal (o.new 8) user (revaluation_spec o a p system currency adjustment))
        >>= λ posted. pure (some posted.0)

abbrev pub valuation_row :
    Outside → ℕ → Asset → CreateValuation → Amount → Amount → Option ℕ → Valuation
valuation_row o user a p market balance revaluation = record {
  id = o.new 9;
  user = user;
  asset = a.id;
  valued_on = p.valued_on;
  market = market;
  owned = o.portion market a.share;
  before = balance;
  adjustment = add (o.portion market a.share) (negate balance);
  notes = nullable_trimmed p.notes;
  key = p.key;
  revaluation = revaluation;
}

abbrev pub not_older : Date → Option Valuation → Bool
not_older d none = true
not_older d (some v) = not (before d v.valued_on)

-- The rest of the transaction where the key is new.
unfoldable pub value_asset : Outside → ℕ → ℕ → Asset → CreateValuation → Amount → Tx Holdings ℕ
value_asset o user currency a p market = do
  latest ← reads (λ (h : Holdings). ok (latest_valuation a.id h.valuations))
  require (not_older p.valued_on latest) (conflict older_valuation)
  balance ← reads (λ (h : Holdings). ok (account_balance_at user a.account p.valued_on h.ledger))
  revaluation ← revalue o user a p currency (add (o.portion market a.share) (negate balance))
  insert_valuation (valuation_row o user a p market balance revaluation)
  pure (o.new 9)

abbrev has_valuation_key : ℕ → ℕ → Valuation → Bool
has_valuation_key user key v = v.user == user && v.key == key

abbrev pub known_or_value : Option Valuation → Tx Holdings ℕ → Tx Holdings ℕ
known_or_value none m = m
known_or_value (some v) m = pure v.id

-- The transaction of `CreateAssetValuation`.
unfoldable pub create_valuation_tx : Outside → ℕ → ℕ → CreateValuation → Amount → Tx Holdings ℕ
create_valuation_tx o user id p market = do
  (currency, equity) ← on_ledger (ensure_ledger_infrastructure o.lower o.new user)
  a ← reads (λ (h : Holdings). or_fail (find (asset_is id user) h.assets) not_found)
  require (not a.archived) (conflict asset_archived)
  require (a.currency == currency) fx_unavailable
  existing ← reads (λ (h : Holdings). ok (find (has_valuation_key user p.key) h.valuations))
  known_or_value existing (value_asset o user currency a p market)

abbrev pub with_market :
    Outside → ℕ → ℕ → CreateValuation → Option Amount → Holdings → Reply Valuation × Holdings
with_market o user id p none h = (failure 400 code_validation_failed, h)
with_market o user id p (some market) h =
    then_read (get_valuation user)
      (commit_or_rollback 201 (create_valuation_tx o user id p market) h)

-- `CreateAssetValuation`
unfoldable pub create_valuation :
    Outside → Option ℕ → Option CreateValuation → ℕ → Holdings → Reply Valuation × Holdings
create_valuation o session body id =
    on_request session body λ user p h. with_market o user id p (accepted_market p) h
