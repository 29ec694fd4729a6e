-- ===== src/Tests/Rates.antt =====
-- Exchange rates at concrete quotes.
use my_finance.Common.{
  ℕ, zero, suc, ◌*◌, ◌^◌, ◌≡◌, refl, true, false, Option, some, [], ◌∷◌, any, arith, find, ap, sym,
}
use my_finance.Common.Int.{pos, negsuc, neg_ℤ}
use my_finance.Text.{Text, codes, text_eq}
use my_finance.Money.RoundTrip.{InRange}
use my_finance.Fx.{
  Rat, Answer, given, refused, unavailable, convert, round, round_scaled, round_size, to_usd,
}
use my_finance.Fx.Rounding.{IsNearest, round-to_string, round_scaled-nearest}
use my_finance.Fx.Conversion.{convert-nearest, exchanged}
use my_finance.Fx.Retry.{
  Fetched, got, lost, other_failure, fetch_with_retry, fetch_with_retry-IsOutcome, IsOutcome,
}
use my_finance.Fx.Quotes.{Snapshot, latest, usable, last_of, latest-last_of}
use my_finance.Fx.Refresh.{
  Database, Rate, Refreshed, going, result_of, rate_row, refresh, supported_currencies,
}
use my_finance.Fx.Kept.{rate_on, KeptIn, refresh-kept}
use my_finance.Fx.Kept.Stored.{all_accepted, refresh-stores}
use my_finance.Money.{Amount, to_string, parse}

-- Two thirds.
abbrev two_thirds : Rat
two_thirds = record { num = pos 2; den = 3 }

-- Minus two thirds.
abbrev lost_thirds : Rat
lost_thirds = record { num = negsuc 1; den = 3 }

round_scaled-nearest_example : IsNearest (round_scaled lost_thirds) 0 (2 * 10 ^ 8) 3
round_scaled-nearest_example = round_scaled-nearest lost_thirds (omega arith)

lost_thirds_ok : round_scaled lost_thirds ≡ negsuc 66666666
unfolding round_scaled round_size neg_ℤ
lost_thirds_ok = refl

two_thirds_ok : round_scaled two_thirds ≡ pos 66666667
unfolding round_scaled round_size
two_thirds_ok = refl

round-to_string_example : round two_thirds ≡ to_string (round_scaled two_thirds)
round-to_string_example = round-to_string two_thirds

abbrev same_text : Text → Text
same_text t = t

abbrev read_rate : Text → Option Rat
read_rate t = some two_thirds

abbrev look_up : Text → Answer Text
look_up t = given (codes "0.66666667")

eur_rate : to_usd read_rate look_up (codes "USD") (codes "EUR") ≡ given two_thirds
unfolding text_eq
eur_rate = refl

usd_rate :
    to_usd read_rate look_up (codes "USD") (codes "USD") ≡ given (record { num = pos 1; den = 1 })
unfolding text_eq
usd_rate = refl

differ : text_eq (codes "USD") (codes "EUR") ≡ false
unfolding text_eq
differ = refl

-- A debt of a hundred dollars.
abbrev debt : Amount
debt = negsuc 9999999999

debt-InRange : InRange (round_scaled (exchanged debt (record { num = pos 1; den = 1 }) two_thirds))
unfolding round_scaled round_size neg_ℤ
debt-InRange = omega arith

convert-nearest_example :
    (a : Amount) × (convert same_text read_rate look_up debt (codes "USD") (codes "EUR") ≡ given a)
    × IsNearest a (0 * 1 * 2) (10000000000 * 1 * 2) (1 * 3)
convert-nearest_example =
    convert-nearest same_text read_rate look_up debt (codes "USD") (codes "EUR") 1 1 2 3 differ
      usd_rate eur_rate (omega arith) (omega arith) debt-InRange

-- The first call fails, the second answers.
abbrev second_call : ℕ → Fetched ℕ
second_call zero = lost other_failure
second_call (suc n) = got 7

fetch_with_retry-IsOutcome_example :
    IsOutcome second_call (λ n. true) 0 (fetch_with_retry second_call (λ n. true))
fetch_with_retry-IsOutcome_example = fetch_with_retry-IsOutcome second_call (λ n. true)

latest-last_of_example :
    latest same_text read_rate (codes "USD") (codes "EUR") (1 ∷ 2 ∷ []) (codes "0.9" ∷ [] ∷ [])
    ≡ last_of (
        usable same_text read_rate (codes "USD") (codes "EUR") (1 ∷ 2 ∷ []) (codes "0.9" ∷ [] ∷ []))
latest-last_of_example =
    latest-last_of same_text read_rate (codes "USD") (codes "EUR") (1 ∷ 2 ∷ [])
      (codes "0.9" ∷ [] ∷ [])

abbrev euro_rate : Rate
euro_rate = record {
  base = codes "USD";
  quote = codes "EUR";
  rate = pos 90000000;
  day = 20000;
  stale = false;
}

-- A database that takes each statement, and a column that holds each rate.
abbrev database : Database
database = record { cast = λ t. parse t; update_fails = λ t. false; insert_fails = λ s. false }

abbrev no_answer : Text → Answer Snapshot
no_answer t = refused unavailable

there : rate_on (codes "USD") (codes "EUR") 20000 (euro_rate ∷ []) ≡ some euro_rate
unfolding find text_eq
there = refl

refresh-kept_example :
    KeptIn database no_answer
      (codes "USD")
      (codes "EUR")
      20000
      euro_rate
      (result_of (refresh database true no_answer (euro_rate ∷ []))).rates
refresh-kept_example =
    refresh-kept database (codes "USD") (codes "EUR") 20000 true no_answer (euro_rate ∷ [])
      euro_rate there

abbrev snapshot_of : Text → Snapshot
snapshot_of t = record { base = codes "USD"; quote = t; rate = codes "150"; time = 1728000000 }

abbrev answers : Text → Answer Snapshot
answers t = given (snapshot_of t)

supported : any (text_eq (codes "JPY")) supported_currencies ≡ true
unfolding any text_eq
supported = refl

not_dollar : text_eq (codes "JPY") (codes "USD") ≡ false
unfolding text_eq
not_dollar = refl

taken : all_accepted database answers supported_currencies ≡ true
unfolding all_accepted parse text_eq my_finance.Text.trim_space my_finance.Text.trim_right
    my_finance.Text.trim_left my_finance.Text.is_space my_finance.Text.contains
    my_finance.Text.split my_finance.Text.len my_finance.Money.digits my_finance.Money.value
taken = refl

column : parse (codes "150") ≡ some (pos 15000000000)
unfolding parse text_eq my_finance.Text.trim_space my_finance.Text.trim_right
    my_finance.Text.trim_left my_finance.Text.is_space my_finance.Text.contains
    my_finance.Text.split my_finance.Text.len my_finance.Money.digits my_finance.Money.value
column = refl

refresh-stores_example :
    (x : Refreshed) × (refresh database true answers [] ≡ going x)
    × (rate_on (codes "USD") (codes "JPY") 20000 x.rates
        ≡ some (rate_row (snapshot_of (codes "JPY")) (pos 15000000000)))
refresh-stores_example =
    refresh-stores database answers (codes "JPY") (snapshot_of (codes "JPY")) (pos 15000000000) []
      taken supported not_dollar
      (λ q a e. ap (λ (x : Answer Snapshot). elim x [ given b ↦ b.quote | refused f ↦ q ]) (sym e))
      refl column
