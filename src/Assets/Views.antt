-- ===== src/Assets/Views.antt =====
-- What internal/httpapi/assets.go reads back: `getAsset`, `apiAsset`, `getAssetValuation` and the
-- totals of `ListAssets`. `shown` is PostgreSQL's text of a numeric.
use my_finance.Common.{
  ℕ, Bool, true, false, ◌&&◌, ◌||◌, Option, none, some, List, [], ◌∷◌, ◌==◌, if◌then◌else◌, find,
  any,
}
use my_finance.Common.Int.{pos}
use my_finance.Text.{Text}
use my_finance.Calendar.{Date, after}
use my_finance.Money.{Amount, parse, to_string, add}
use my_finance.Errors.{Result, ok, err, not_found, invalid_amount}
use my_finance.Tx.{or_fail}
use my_finance.Ledger.State.{Account}
use my_finance.Ledger.Views.{account_sum}
use my_finance.Assets.{
  AssetType, real_estate_asset, securities, business, vehicle_asset, collectibles, other_asset,
  Asset, Valuation, Holdings, asset_is,
}

abbrev pub text_or : Text → Option Amount → Text
text_or value none = value
text_or value (some a) = to_string a

-- `canonicalAmount`
unfoldable pub canonical_amount : Text → Text
canonical_amount value = text_or value (parse value)

-- `api.Asset`
pub record AssetView : Type 0 where
  pub asset : Asset
  pub account_name : Text
  pub balance : Text
  pub current : Text
  pub latest_market : Option Text
  pub latest_date : Option Date
  pub archived : Bool

abbrev pub later : Valuation → Option Valuation → Valuation
later v none = v
later v (some w) = if after w.valued_on v.valued_on then w else v

-- `ORDER BY valuation_date DESC, created_at DESC LIMIT 1`
unfoldable pub latest_valuation : ℕ → List Valuation → Option Valuation
latest_valuation asset [] = none
latest_valuation asset (v ∷ vs) =
    let rest = latest_valuation asset vs in if v.asset == asset then some (later v rest) else rest

abbrev market_text : (Amount → Text) → Option Valuation → Option Text
market_text shown none = none
market_text shown (some v) = some (canonical_amount (shown v.market))

abbrev date_of : Option Valuation → Option Date
date_of none = none
date_of (some v) = some v.valued_on

-- The current value: that of the latest valuation, or the balance where there is none.
abbrev pub current_value : Amount → Option Valuation → Amount
current_value balance none = balance
current_value balance (some v) = v.owned

-- `apiAsset`
abbrev pub api_asset : (Amount → Text) → Asset → Account → Amount → Option Valuation → AssetView
api_asset shown a account balance latest = record {
  asset = a;
  account_name = account.name;
  balance = canonical_amount (shown balance);
  current = canonical_amount (shown (current_value balance latest));
  latest_market = market_text shown latest;
  latest_date = date_of latest;
  archived = a.archived || account.archived;
}

abbrev account_with : ℕ → Account → Bool
account_with id a = a.id == id

abbrev with_account : (Amount → Text) → Holdings → Asset → Option Account → Result AssetView
with_account shown h a none = err not_found
with_account shown h a (some account) = ok (
    api_asset shown a account (account_sum a.account a.user h.ledger.entries)
      (latest_valuation a.id h.valuations))

abbrev asset_view : (Amount → Text) → Holdings → Asset → Result AssetView
asset_view shown h a = with_account shown h a (find (account_with a.account) h.ledger.accounts)

abbrev viewed : (Amount → Text) → Holdings → Option Asset → Result AssetView
viewed shown h none = err not_found
viewed shown h (some a) = asset_view shown h a

-- `getAsset`
unfoldable pub get_asset : (Amount → Text) → ℕ → ℕ → Holdings → Result AssetView
get_asset shown user id h = viewed shown h (find (asset_is id user) h.assets)

abbrev valuation_is : ℕ → ℕ → Valuation → Bool
valuation_is id user v = v.id == id && v.user == user

-- `getAssetValuation`; the amounts stand for their canonical texts.
unfoldable pub get_valuation : ℕ → ℕ → Holdings → Result Valuation
get_valuation user id h = or_fail (find (valuation_is id user) h.valuations) not_found

abbrev pub same_type : AssetType → AssetType → Bool
same_type real_estate_asset real_estate_asset = true
same_type securities securities = true
same_type business business = true
same_type vehicle_asset vehicle_asset = true
same_type collectibles collectibles = true
same_type other_asset other_asset = true
same_type a b = false

-- An asset's type and its current value, parsed.
pub record Valued : Type 0 where
  pub kind : AssetType
  pub value : Amount

abbrev parsed_value : AssetView → Result Amount
parsed_value v = or_fail (parse v.current) invalid_amount

abbrev and_then : AssetView → Result Amount → Result (List Valued) → Result (List Valued)
and_then v (err e) rest = err e
and_then v (ok a) (err e) = err e
and_then v (ok a) (ok rest) = ok (record { kind = v.asset.kind; value = a } ∷ rest)

-- The loop of `ListAssets` over the assets: their values, or the first that does not parse.
unfoldable pub asset_values : List AssetView → Result (List Valued)
asset_values [] = ok []
asset_values (v ∷ vs) = let rest = asset_values vs in and_then v (parsed_value v) rest

-- `total`
unfoldable pub total_value : List Valued → Amount
total_value [] = pos 0
total_value (v ∷ vs) = add v.value (total_value vs)

-- `byType[kind]`
unfoldable pub type_value : AssetType → List Valued → Amount
type_value kind [] = pos 0
type_value kind (v ∷ vs) =
    let rest = type_value kind vs in if same_type v.kind kind then add v.value rest else rest

abbrev pub of_type : AssetType → Valued → Bool
of_type kind v = same_type v.kind kind

-- `api.AssetAllocation`, its amount for the text.
pub record Allocation : Type 0 where
  pub kind : AssetType
  pub value : Amount

abbrev pub asset_types : List AssetType
asset_types =
    real_estate_asset ∷ securities ∷ business ∷ vehicle_asset ∷ collectibles ∷ other_asset ∷ []

-- The loop over the types: those that an asset has.
unfoldable pub allocations : List AssetType → List Valued → List Allocation
allocations [] vs = []
allocations (kind ∷ kinds) vs =
    let rest = allocations kinds vs in
    if any (of_type kind) vs
    then record { kind = kind; value = type_value kind vs } ∷ rest
    else rest

unfoldable pub allocated : List Allocation → Amount
allocated [] = pos 0
allocated (a ∷ rest) = add a.value (allocated rest)
