-- ===== src/Assets/Requests.antt =====
-- `CreateAsset` of internal/httpapi/assets.go.
pub mod Update
use my_finance.Common.{
  ℕ, Bool, false, not, ◌&&◌, ◌||◌, Option, none, some, [], ◌∷◌, ◌++◌, map, ◌==◌, if◌then◌else◌,
  find, is_some, is_empty,
}
use my_finance.Text.{Text, codes, trim_space}
use my_finance.Calendar.{Date}
use my_finance.Money.{Amount, negate}
use my_finance.Errors.{
  Result, ok, err, Reply, failure, not_found, fx_unavailable, validation, check_violation,
  inactive_asset_choice, bad_funding_account, code_empty_update, code_validation_failed,
}
use my_finance.Tx.{Tx, pure, lift, reads, or_fail, ◌>>=◌, ◌>>◌, require, commit_or_rollback}
use my_finance.Ledger.State.{
  asset, Account, Subtype, real_estate, vehicle, security, other, Ledger, asset_purchase_type,
  is_asset,
}
use my_finance.Ledger.Schema.{account_is}
use my_finance.Ledger.Journal.{JournalSpec, line, post_journal}
use my_finance.Ledger.Operation.{user_account, positive_amount, optional_description}
use my_finance.Ledger.Accounts.{ensure_ledger_infrastructure, insert_account}
use my_finance.Ledger.Handlers.{on_request, then_read, name_refused, user_row}
use my_finance.Ledger.Handlers.Changes.{or_old}
use my_finance.Assets.{
  AssetType, real_estate_asset, vehicle_asset, securities, Asset, Holdings, on_ledger, asset_is,
  asset_ok, insert_asset, nullable_trimmed, text_refused,
}
use my_finance.Assets.Share.{share_ok, hundredths}
use my_finance.Assets.Views.{AssetView, get_asset}

-- What the handlers take from outside: PostgreSQL's `lower` and its text of a numeric, `uuid.NewSHA1`
-- of an asset, and `uuid.New`.
pub record Outside : Type 0 where
  pub lower : Text → Text
  pub shown : Amount → Text
  pub purchase_key : ℕ → ℕ
  pub new : ℕ → ℕ

-- `api.CreateAssetPurchase`
pub record Purchase : Type 0 where
  pub amount : Text
  pub description : Option Text
  pub event_date : Date
  pub source : ℕ

-- `api.CreateAssetRequest`; a type or a currency that `Valid` refuses is `none`.
pub record CreateAsset : Type 0 where
  pub name : Text
  pub kind : Option AssetType
  pub currency : Option ℕ
  pub share : Text
  pub account : Option ℕ
  pub country : Option Text
  pub region : Option Text
  pub institution : Option Text
  pub notes : Option Text
  pub purchase : Option Purchase
  pub key : ℕ

-- `validateAssetCreate`: whether a field is refused.
unfoldable pub create_refused : CreateAsset → Bool
create_refused p =
    name_refused p.name
    || not (is_some p.kind)
    || not (is_some p.currency)
    || not (share_ok (trim_space p.share))
    || text_refused 80 p.country
    || text_refused 100 p.region
    || text_refused 150 p.institution
    || text_refused 1000 p.notes

-- `assetAccountSubtype`
abbrev pub account_subtype : AssetType → Subtype
account_subtype real_estate_asset = real_estate
account_subtype vehicle_asset = vehicle
account_subtype securities = security
account_subtype kind = other

-- The chosen account, or a new one.
unfoldable pub asset_account : ℕ → ℕ → ℕ → CreateAsset → AssetType → Option ℕ → Tx Holdings ℕ
asset_account id user functional p kind none = do
  on_ledger (
      insert_account (user_row id user (trim_space p.name) asset (account_subtype kind) functional))
  pure id
asset_account id user functional p kind (some chosen) = do
  a ←
      reads
        (λ (h : Holdings). or_fail (find (user_account chosen user) h.ledger.accounts) not_found)
  require (is_asset a.class && not a.archived) (validation inactive_asset_choice)
  require (a.currency == functional) fx_unavailable
  pure chosen

abbrev purchase_description : Text → Option Text → Result (Option Text)
purchase_description name none = ok (some (codes "Asset purchase · " ++ trim_space name))
purchase_description name (some d) = optional_description (some d)

abbrev pub purchase_spec : Purchase → Option Text → ℕ → Account → ℕ → ℕ → Amount → JournalSpec
purchase_spec q description key source account functional amount = record {
  kind = asset_purchase_type;
  event_date = q.event_date;
  description = description;
  key = key;
  reverses = none;
  replaces = none;
  entries = line source.id (negate amount) source.currency ∷ line account amount functional ∷ [];
}

abbrev set_purchase : ℕ → ℕ → Asset → Asset
set_purchase id transaction a = if a.id == id then record a { purchase = some transaction } else a

-- `UPDATE assets SET purchase_transaction_id = $2`
unfoldable pub mark_purchase : ℕ → ℕ → Tx Holdings (Unit {0})
mark_purchase id transaction h =
    ok (tt, record h { assets = map (set_purchase id transaction) h.assets })

-- The block for `payload.Purchase`.
unfoldable pub buy_asset : Outside → ℕ → ℕ → ℕ → ℕ → Text → Option Purchase → Tx Holdings (Unit {0})
buy_asset o user functional id account name none = pure tt
buy_asset o user functional id account name (some q) = do
  amount ← lift (positive_amount q.amount)
  source ←
      reads
        (λ (h : Holdings). or_fail (find (user_account q.source user) h.ledger.accounts) not_found)
  require (not (source.id == account) && is_asset source.class && not source.archived)
      (validation bad_funding_account)
  require (source.currency == functional) fx_unavailable
  description ← lift (purchase_description name q.description)
  posted ← on_ledger (
      post_journal (o.new 10) user
        (purchase_spec q description (o.purchase_key id) source account functional amount))
  mark_purchase id posted.0

abbrev pub asset_row : ℕ → ℕ → ℕ → CreateAsset → AssetType → ℕ → Asset
asset_row id user account p kind currency = record {
  id = id;
  user = user;
  account = account;
  name = trim_space p.name;
  kind = kind;
  currency = currency;
  share = hundredths (trim_space p.share);
  country = nullable_trimmed p.country;
  region = nullable_trimmed p.region;
  institution = nullable_trimmed p.institution;
  notes = nullable_trimmed p.notes;
  key = p.key;
  purchase = none;
  archived = false;
}

-- The rest of the transaction where the key is new.
unfoldable pub create_new_asset : Outside → ℕ → ℕ → CreateAsset → AssetType → Tx Holdings ℕ
create_new_asset o user functional p kind = do
  account ← asset_account (o.new 9) user functional p kind p.account
  insert_asset (asset_row (o.new 8) user account p kind functional)
  buy_asset o user functional (o.new 8) account p.name p.purchase
  pure (o.new 8)

abbrev has_asset_key : ℕ → ℕ → Asset → Bool
has_asset_key user key a = a.user == user && a.key == key

abbrev pub known_or_asset : Option Asset → Tx Holdings ℕ → Tx Holdings ℕ
known_or_asset none m = m
known_or_asset (some a) m = pure a.id

-- The transaction of `CreateAsset`.
unfoldable pub create_asset_tx : Outside → ℕ → CreateAsset → AssetType → ℕ → Tx Holdings ℕ
create_asset_tx o user p kind currency = do
  (functional, equity) ← on_ledger (ensure_ledger_infrastructure o.lower o.new user)
  require (currency == functional) fx_unavailable
  existing ← reads (λ (h : Holdings). ok (find (has_asset_key user p.key) h.assets))
  known_or_asset existing (create_new_asset o user functional p kind)

abbrev pub create_valid :
    Outside → ℕ → CreateAsset → Option AssetType → Option ℕ → Holdings → Reply ℕ × Holdings
create_valid o user p (some kind) (some currency) h =
    commit_or_rollback 201 (create_asset_tx o user p kind currency) h
create_valid o user p kind currency h = (failure 400 code_validation_failed, h)

-- `CreateAsset`
unfoldable pub create_asset :
    Outside → Option ℕ → Option CreateAsset → Holdings → Reply AssetView × Holdings
create_asset o session body = on_request session body λ user p h.
    if create_refused p
    then (failure 400 code_validation_failed, h)
    else then_read (get_asset o.shown user) (create_valid o user p p.kind p.currency h)
