-- ===== src/Assets.antt =====
-- Assets and their valuations: the tables `assets` and `asset_valuations` of
-- db/migrations/000006_assets_valuations.up.sql, and the statements of internal/httpapi/assets.go on
-- them. Newest rows first.
pub mod Share
pub mod Views
pub mod Requests
pub mod Valuing
pub mod Sound
pub mod Totals
pub mod Dealings
pub mod Revalued
pub mod Order
use my_finance.Common.{
  ℕ, ◌+◌, ◌^◌, Bool, true, false, not, ◌&&◌, ◌||◌, Option, none, some, List, ◌∷◌, ltb, leb, ◌==◌,
  if◌then◌else◌, any, length,
}
use my_finance.Common.Int.{pos_part, neg_part}
use my_finance.Text.{Text, trim_space, len, trim_left, trim_right}
use my_finance.Calendar.{Date}
use my_finance.Money.{Amount}
use my_finance.Errors.{
  Result, ok, err, unique_violation, check_violation, foreign_key_violation, numeric_overflow,
}
use my_finance.Tx.{Tx, zoom}
use my_finance.Ledger.State.{Ledger}
use my_finance.Ledger.Schema.{account_is, transaction_is, is_blank}

-- `api.AssetType`
pub data AssetType : Type 0 where
  real_estate_asset securities business vehicle_asset collectibles other_asset : AssetType

-- A row of `assets`; `share` is in hundredths of a per cent.
pub record Asset : Type 0 where
  pub id : ℕ
  pub user : ℕ
  pub account : ℕ
  pub name : Text
  pub kind : AssetType
  pub currency : ℕ
  pub share : ℕ
  pub country : Option Text
  pub region : Option Text
  pub institution : Option Text
  pub notes : Option Text
  pub key : ℕ
  pub purchase : Option ℕ
  pub archived : Bool

-- A row of `asset_valuations`
pub record Valuation : Type 0 where
  pub id : ℕ
  pub user : ℕ
  pub asset : ℕ
  pub valued_on : Date
  pub market : Amount
  pub owned : Amount
  pub before : Amount
  pub adjustment : Amount
  pub notes : Option Text
  pub key : ℕ
  pub revaluation : Option ℕ

pub record Holdings : Type 0 where
  pub ledger : Ledger
  pub assets : List Asset
  pub valuations : List Valuation

abbrev pub put_ledger : Holdings → Ledger → Holdings
put_ledger h s = record h { ledger = s }

-- A step on the tables of the ledger alone.
abbrev pub on_ledger : {A : Type 0} → Tx Ledger A → Tx Holdings A
on_ledger = zoom (λ (h : Holdings). h.ledger) put_ledger

abbrev pub asset_is : ℕ → ℕ → Asset → Bool
asset_is id user a = a.id == id && a.user == user

-- `length(btrim(…)) BETWEEN 1 AND n`
abbrev pub text_within : ℕ → Text → Bool
text_within n t = let m = length (trim_right is_blank (trim_left is_blank t)) in leb 1 m && leb m n

abbrev pub optional_within : ℕ → Option Text → Bool
optional_within n none = true
optional_within n (some t) = text_within n t

-- The CHECK constraints of `assets`.
abbrev pub asset_ok : Asset → Bool
asset_ok a =
    text_within 100 a.name
    && ltb 0 a.share
    && leb a.share 10000
    && optional_within 100 a.country
    && optional_within 100 a.region
    && optional_within 150 a.institution
    && optional_within 2000 a.notes

-- The primary key, the key of creation and the account.
abbrev pub asset_clashes : Asset → Asset → Bool
asset_clashes a b = b.id == a.id || (b.user == a.user && b.key == a.key) || b.account == a.account

-- `INSERT INTO assets`
unfoldable pub insert_asset : Asset → Tx Holdings (Unit {0})
insert_asset a h =
    if not (asset_ok a)
    then err check_violation
    else if any (asset_clashes a) h.assets
    then err unique_violation
    else if not (any (account_is a.account a.user) h.ledger.accounts)
    then err foreign_key_violation
    else ok (tt, record h { assets = a ∷ h.assets })

abbrev pub fits : Amount → Bool
fits a = ltb (pos_part a + neg_part a) (10 ^ 24)

-- The CHECK constraints of `asset_valuations`.
abbrev pub valuation_ok : Valuation → Bool
valuation_ok v = neg_part v.market == 0 && neg_part v.owned == 0 && optional_within 1000 v.notes

abbrev pub valuation_clashes : Valuation → Valuation → Bool
valuation_clashes v w = w.id == v.id || (w.user == v.user && w.key == v.key)

abbrev posted_by : ℕ → Option ℕ → Ledger → Bool
posted_by user none s = true
posted_by user (some id) s = any (transaction_is id user) s.transactions

-- `INSERT INTO asset_valuations`
unfoldable pub insert_valuation : Valuation → Tx Holdings (Unit {0})
insert_valuation v h =
    if not (fits v.market && fits v.owned && fits v.before && fits v.adjustment)
    then err numeric_overflow
    else if not (valuation_ok v)
    then err check_violation
    else if any (valuation_clashes v) h.valuations
    then err unique_violation
    else if not (any (asset_is v.asset v.user) h.assets && posted_by v.user v.revaluation h.ledger)
    then err foreign_key_violation
    else ok (tt, record h { valuations = v ∷ h.valuations })

-- `nullableTrimmed`
abbrev pub nullable_trimmed : Option Text → Option Text
nullable_trimmed none = none
nullable_trimmed (some t) = some (trim_space t)

-- `validateAssetText`: whether the field is refused.
abbrev pub text_refused : ℕ → Option Text → Bool
text_refused maximum none = false
text_refused maximum (some t) = ltb maximum (len (trim_space t))
