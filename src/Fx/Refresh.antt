-- ===== src/Fx/Refresh.antt =====
-- `Refresh` and `BackfillHistory` of internal/fx/fx.go, on the table `fx_rates` of
-- db/migrations/000007_fx_dashboard.up.sql. What a fetch with its retries answers is an argument, and
-- so is the database: the cast of a text to the column's type, and the statements that fail for a
-- reason of their own, such as a lost connection. Each statement commits by itself, so that a loop that
-- stops at an error leaves what it has done. Of `stale_at` the code asks only whether it is set;
-- `fetched_at` is not modelled.
use my_finance.Common.{
  ℕ, ◌+◌, ◌/◌, Bool, true, false, not, ◌&&◌, ◌||◌, Option, none, some, List, [], ◌∷◌, map, ltb,
  length, ◌==◌, if◌then◌else◌,
}
use my_finance.Text.{Text, codes, text_eq}
use my_finance.Money.{Amount, is_positive}
use my_finance.Fx.{Answer, given, refused}
use my_finance.Fx.Quotes.{Snapshot}

-- PostgreSQL's cast to `numeric(24, 8)`, `none` where it refuses the text or its size, and whether the
-- UPDATE for a currency or the INSERT of a snapshot fails for a reason outside the row.
pub record Database : Type 0 where
  pub cast : Text → Option Amount
  pub update_fails : Text → Bool
  pub insert_fails : Snapshot → Bool

-- A row of `fx_rates`; `day` is its date, in days since 1970.
pub record Rate : Type 0 where
  pub base : Text
  pub quote : Text
  pub rate : Amount
  pub day : ℕ
  pub stale : Bool

-- `RefreshResult` with the table.
pub record Refreshed : Type 0 where
  pub rates : List Rate
  pub fresh : ℕ
  pub stale : ℕ

-- What a loop returns: its result without an error, or with one.
pub data Progress : Type 0 where
  going stopped : Refreshed → Progress

abbrev pub result_of : Progress → Refreshed
result_of (going x) = x
result_of (stopped x) = x

-- The next part of a loop, unless it has stopped.
abbrev pub and_then : Progress → (Refreshed → Progress) → Progress
and_then (going x) k = k x
and_then (stopped x) k = stopped x

abbrev pub usd : Text
usd = codes "USD"

-- `SupportedCurrencies`
abbrev pub supported_currencies : List Text
supported_currencies =
    codes "USD"
    ∷ codes "EUR"
    ∷ codes "JPY"
    ∷ codes "GBP"
    ∷ codes "CNY"
    ∷ codes "AUD"
    ∷ codes "CAD"
    ∷ codes "CHF"
    ∷ codes "HKD"
    ∷ codes "SGD"
    ∷ codes "SEK"
    ∷ codes "KRW"
    ∷ codes "NOK"
    ∷ codes "NZD"
    ∷ codes "INR"
    ∷ codes "MXN"
    ∷ codes "TWD"
    ∷ codes "ZAR"
    ∷ codes "BRL"
    ∷ codes "DKK"
    ∷ codes "UAH"
    ∷ codes "KZT"
    ∷ codes "RUB"
    ∷ codes "AED"
    ∷ []

abbrev pub is_pair : Text → Rate → Bool
is_pair quote r = text_eq r.base usd && text_eq r.quote quote

abbrev pub set_stale : Text → Rate → Rate
set_stale quote r = if is_pair quote r then record r { stale = true } else r

-- `RowsAffected` of the UPDATE.
unfoldable pub pairs : Text → List Rate → ℕ
pairs quote [] = 0
pairs quote (r ∷ rs) = let rest = pairs quote rs in if is_pair quote r then 1 + rest else rest

-- `UPDATE fx_rates SET stale_at = COALESCE(stale_at, $3)`
unfoldable pub mark_stale : Database → Text → Refreshed → Progress
mark_stale db quote x =
    if db.update_fails quote
    then stopped x
    else going
        (record x { rates = map (set_stale quote) x.rates; stale = x.stale + pairs quote x.rates })

abbrev pub rate_row : Snapshot → Amount → Rate
rate_row s rate = record {
  base = s.base;
  quote = s.quote;
  rate = rate;
  day = s.time / 86400;
  stale = false;
}

-- What the table refuses: `char(3)`, `fx_rates_pair_valid` and `fx_rates_positive`.
abbrev pub row_refused : Rate → Bool
row_refused a =
    ltb 3 (length a.base)
    || ltb 3 (length a.quote)
    || text_eq a.base a.quote
    || not (is_positive a.rate)

-- `UNIQUE (provider, base_currency, quote_currency, rate_date)`
abbrev pub same_day : Rate → Rate → Bool
same_day a b = text_eq b.base a.base && text_eq b.quote a.quote && b.day == a.day

-- `INSERT INTO fx_rates … ON CONFLICT … DO UPDATE`: the row of the pair and the day, or a new one.
unfoldable pub upsert : Rate → List Rate → List Rate
upsert a [] = a ∷ []
upsert a (b ∷ bs) = let rest = upsert a bs in if same_day a b then a ∷ bs else b ∷ rest

abbrev pub store_cast : Database → Snapshot → Option Amount → Refreshed → Progress
store_cast db s none x = stopped x
store_cast db s (some rate) x =
    if db.insert_fails s || row_refused (rate_row s rate)
    then stopped x
    else going (record x { rates = upsert (rate_row s rate) x.rates; fresh = x.fresh + 1 })

-- The statement for a snapshot, and `result.Fresh++` where it succeeds.
unfoldable pub store_rate : Database → Snapshot → Refreshed → Progress
store_rate db s x = store_cast db s (db.cast s.rate) x

abbrev pub refresh_with : Database → Text → Answer Snapshot → Refreshed → Progress
refresh_with db quote (refused e) x = mark_stale db quote x
refresh_with db quote (given s) x = store_rate db s x

-- The loop of `Refresh` over the currencies.
unfoldable pub refresh_all : Database → (Text → Answer Snapshot) → List Text → Refreshed → Progress
refresh_all db fetch [] x = going x
refresh_all db fetch (quote ∷ quotes) x =
    if text_eq quote usd
    then refresh_all db fetch quotes x
    else and_then (refresh_with db quote (fetch quote) x) (refresh_all db fetch quotes)

abbrev pub start_with : List Rate → Refreshed
start_with rates = record { rates = rates; fresh = 0; stale = 0 }

-- `Refresh`; `free` is the answer of `pg_try_advisory_lock`.
unfoldable pub refresh : Database → Bool → (Text → Answer Snapshot) → List Rate → Progress
refresh db free fetch rates =
    if free
    then refresh_all db fetch supported_currencies (start_with rates)
    else going (start_with rates)

unfoldable pub store_all : Database → List Snapshot → Refreshed → Progress
store_all db [] x = going x
store_all db (s ∷ ss) x = and_then (store_rate db s x) (store_all db ss)

abbrev pub backfill_with : Database → Text → Answer (List Snapshot) → Refreshed → Progress
backfill_with db quote (refused e) x = mark_stale db quote x
backfill_with db quote (given ss) x = store_all db ss x

-- The loop of `BackfillHistory` over the currencies in use.
unfoldable pub backfill_all :
    Database → (Text → Answer (List Snapshot)) → List Text → Refreshed → Progress
backfill_all db fetch [] x = going x
backfill_all db fetch (quote ∷ quotes) x =
    and_then (backfill_with db quote (fetch quote) x) (backfill_all db fetch quotes)

-- `BackfillHistory` for a provider with a history; `currencies` is the answer of its query.
unfoldable pub backfill :
    Database → Bool → (Text → Answer (List Snapshot)) → List Text → List Rate → Progress
backfill db free fetch currencies rates =
    if free then backfill_all db fetch currencies (start_with rates) else going (start_with rates)
