-- ===== src/Fx.antt =====
-- internal/fx/fx.go: exact rates, rounding and conversion. A `big.Rat` is a fraction of an integer by a
-- positive number; `SetString` of math/big is an argument, since it reads more than decimals. HTTP and
-- JSON are outside.
pub mod Retry
pub mod Quotes
pub mod Refresh
pub mod Kept
pub mod Conversion
pub mod Rounding
use my_finance.Common.{
  ℕ, suc, ◌+◌, ◌*◌, ◌/◌, ◌%◌, ◌^◌, Bool, true, false, not, ◌&&◌, ◌||◌, Option, none, some, List, [],
  ◌∷◌, ltb, leb, ◌==◌, if◌then◌else◌,
}
use my_finance.Common.Int.{ℤ, pos, negsuc, pos_part, neg_part, neg_ℤ}
use my_finance.Text.{Text, codes, text_eq}
use my_finance.Money.{Amount, parse, is_zero, print, pad, with_point}
use my_finance.Errors.{Result}

-- `big.Rat`
pub record Rat : Type 0 where
  pub num : ℤ
  pub den : ℕ

-- The absolute value of an integer, and an integer of a sign and a size.
abbrev pub size : ℤ → ℕ
size a = pos_part a + neg_part a

abbrev pub is_negative : ℤ → Bool
is_negative a = ltb 0 (neg_part a)

abbrev pub with_sign : Bool → ℕ → ℤ
with_sign true n = neg_ℤ (pos n)
with_sign false n = pos n

abbrev xor : Bool → Bool → Bool
xor true b = not b
xor false b = b

abbrev pub times_ℤ : ℤ → ℤ → ℤ
times_ℤ a b = with_sign (xor (is_negative a) (is_negative b)) (size a * size b)

-- `Mul`, `Quo` and `Sign`, without the reduction to lowest terms: no result depends on it.
abbrev pub mul : Rat → Rat → Rat
mul x y = record { num = times_ℤ x.num y.num; den = x.den * y.den }

abbrev pub quo : Rat → Rat → Rat
quo x y = record {
  num = with_sign (xor (is_negative x.num) (is_negative y.num)) (size x.num * y.den);
  den = x.den * size y.num;
}

-- The quotient that `round` rounds away from zero from a half on, of two sizes.
unfoldable pub round_size : ℕ → ℕ → ℕ
round_size n d = if leb d (2 * (n % d)) then n / d + 1 else n / d

-- The integer that `round` prints: its value scaled by 10 ^ 8.
unfoldable pub round_scaled : Rat → ℤ
round_scaled x = with_sign (is_negative x.num) (round_size (size x.num * 10 ^ 8) x.den)

-- The text of it, in `round`.
unfoldable pub scaled_text : ℤ → Text
scaled_text q =
    let result = with_point (pad (print (size q))) in
    if is_negative q then b'-' ∷ result else result

-- `round`
unfoldable pub round : Rat → Text
round x = scaled_text (round_scaled x)

-- The rational that `SetString` reads from the text of an amount.
abbrev pub of_amount : Amount → Rat
of_amount a = record { num = a; den = 10 ^ 8 }

-- An error of this package: `ErrUnavailable`, `money.ErrInvalidAmount`, a division by zero that is
-- refused, one on which `big.Rat` panics, and any other of the caller's.
pub data FxError : Type 0 where
  unavailable invalid zero_division panics other_error : FxError

pub data Answer (A : Type 0) : Type 0 where
  given : A → Answer A
  refused : FxError → Answer A

-- `normalize`
unfoldable pub normalize : (Text → Option Rat) → Text → Answer Text
normalize set_string value = elim (set_string value) [
  | none ↦ refused unavailable
  | some x ↦ if ltb 0 (pos_part x.num) then given (round x) else refused unavailable
]

abbrev rate_of : (Text → Option Rat) → Answer Text → Answer Rat
rate_of set_string (refused e) = refused e
rate_of set_string (given t) = elim (set_string t) [ none ↦ refused unavailable | some x ↦ given x ]

-- The closure `toUSD`; `usd` is the code of the dollar.
abbrev pub to_usd : (Text → Option Rat) → (Text → Answer Text) → Text → Text → Answer Rat
to_usd set_string lookup usd currency =
    if text_eq currency usd
    then given (record { num = pos 1; den = 1 })
    else rate_of set_string (lookup currency)

abbrev pub parsed : Option Amount → Answer Amount
parsed none = refused invalid
parsed (some a) = given a

abbrev pub at_rates : Amount → Answer Rat → Answer Rat → Answer Amount
at_rates amount (refused e) to_rate = refused e
at_rates amount (given x) (refused e) = refused e
at_rates amount (given x) (given y) =
    if size x.num == 0
    then refused panics
    else parsed (parse (round (mul (quo (of_amount amount) x) y)))

-- `Convert`; `upper` is `strings.ToUpper`, and `lookup` is asked for the rate of a currency to the
-- dollar.
unfoldable pub convert :
    (Text → Text)
    → (Text → Option Rat)
    → (Text → Answer Text)
    → Amount
    → Text
    → Text
    → Answer Amount
convert upper set_string lookup amount from to =
    if text_eq (upper from) (upper to)
    then given amount
    else at_rates amount (to_usd set_string lookup (codes "USD") (upper from))
        (to_usd set_string lookup (codes "USD") (upper to))

-- `Percent`
unfoldable pub percent : Amount → Amount → Answer Text
percent numerator denominator =
    if is_zero denominator
    then refused zero_division
    else given (
        round (
          mul (quo (of_amount numerator) (of_amount denominator))
            (record { num = pos 100; den = 1 })))
