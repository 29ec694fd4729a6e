-- ===== src/Fx/Conversion.antt =====
-- What `Convert` of internal/fx/fx.go answers.
use mathlib.Core.Path.{subst}
use my_finance.Common.{ℕ, ◌+◌, ◌*◌, ◌^◌, ◌≤◌, ◌<◌, ◌≡◌, ap, ◌∙◌, true, false, Option, ◌==◌, arith}
use my_finance.Text.{Text, codes, text_eq}
use my_finance.Common.Int.{ℤ, pos, negsuc, pos_part, neg_part, neg_ℤ}
use my_finance.Money.{Amount}
use my_finance.Money.RoundTrip.{InRange}
use my_finance.Fx.{
  Rat, Answer, given, parsed, size, mul, quo, times_ℤ, with_sign, is_negative, of_amount,
  round_scaled, to_usd, at_rates, convert,
}
use my_finance.Fx.Rounding.{IsNearest, round_scaled-nearest, parse-round}

-- The amount, over the first rate, times the second.
abbrev pub exchanged : Amount → Rat → Rat → Rat
exchanged amount x y = mul (quo (of_amount amount) x) y

at_rates-given :
    (amount : Amount) (x y : Rat)
    → 1 ≤ size x.num
    → InRange (round_scaled (exchanged amount x y))
    → at_rates amount (given x) (given y) ≡ given (round_scaled (exchanged amount x y))
at_rates-given amount x y h r =
    let nonzero : (size x.num == 0) ≡ false = ground arith in
    rw nonzero (ap parsed (parse-round (exchanged amount x y) r))

product_positive : (a b : ℕ) → 1 ≤ a → 1 ≤ b → 1 ≤ 10 ^ 8 * a * b
product_positive a b h k = grind arith

times_minus :
    (k n : ℕ)
    → (pos_part (times_ℤ (with_sign true k) (pos n)) ≡ 0)
      × (neg_part (times_ℤ (with_sign true k) (pos n)) ≡ k * n)
unfolding neg_ℤ
times_minus k n = (ground arith, grind arith)

-- The numerator of an exchange at positive rates, with the sign of the amount.
exchanged_num :
    (a : ℤ) (nx ny dx dy : ℕ)
    → let n =
        (exchanged a (record { num = pos nx; den = dx }) (record { num = pos ny; den = dy })).num in
      (pos_part n ≡ pos_part a * dx * ny) × (neg_part n ≡ neg_part a * dx * ny)
exchanged_num (pos n) nx ny dx dy = (omega arith, omega arith)
exchanged_num (negsuc n) nx ny dx dy =
    let sign : is_negative (negsuc n) ≡ true = ground arith in
    let (no_plus, minus) = times_minus (size (negsuc n) * dx) ny in
    rw sign (omega (arith, no_plus), minus ∙ omega arith)

-- The factor 10 ^ 8 of the amount's denominator cancels against that of the scale.
cancelled :
    (q : ℤ) (p m D d : ℕ)
    → D ≡ 10 ^ 8 * d
    → IsNearest q (p * 10 ^ 8) (m * 10 ^ 8) D
    → IsNearest q p m d
cancelled q p m D d e h = record {
  above =
      let k =
        subst (λ D. 2 * (pos_part q * D + m * 10 ^ 8) ≤ 2 * (neg_part q * D + p * 10 ^ 8) + D) e
          h.above in
      omega (arith, k);
  below =
      let k =
        subst (λ D. 2 * (neg_part q * D + p * 10 ^ 8) ≤ 2 * (pos_part q * D + m * 10 ^ 8) + D) e
          h.below in
      omega (arith, k);
  half =
      let k = subst (λ D. 2 * (p * 10 ^ 8 + m * 10 ^ 8) < 2 * (size q * D) + D) e h.half in
      omega (arith, k);
}

-- Between two currencies whose rates to the dollar are known and positive, `Convert` answers with the
-- amount times the rate of the target over the rate of the source, with its sign, rounded to a nearest
-- multiple of 10 ^ -8, where the result is below 10 ^ 16.
pub convert-nearest :
    (upper : Text → Text) (set_string : Text → Option Rat) (lookup : Text → Answer Text)
    (amount : Amount) (from to : Text) (nx dx ny dy : ℕ)
    → text_eq (upper from) (upper to) ≡ false
    → to_usd set_string lookup (codes "USD") (upper from)
      ≡ given (record { num = pos nx; den = dx })
    → to_usd set_string lookup (codes "USD") (upper to) ≡ given (record { num = pos ny; den = dy })
    → 1 ≤ nx
    → 1 ≤ dy
    → InRange (
        round_scaled (
          exchanged amount (record { num = pos nx; den = dx }) (record { num = pos ny; den = dy })))
    → (a : Amount) × (convert upper set_string lookup amount from to ≡ given a)
      × IsNearest a (pos_part amount * dx * ny) (neg_part amount * dx * ny) (nx * dy)
unfolding convert
convert-nearest upper set_string lookup amount from to nx dx ny dy differ rate_x rate_y hx hy r =
    let x : Rat = record { num = pos nx; den = dx } in
    let y : Rat = record { num = pos ny; den = dy } in
    (
      round_scaled (exchanged amount x y),
      rw (differ, rate_x, rate_y) (at_rates-given amount x y (omega (arith, hx)) r),
      cancelled (round_scaled (exchanged amount x y)) (pos_part amount * dx * ny)
          (neg_part amount * dx * ny) (exchanged amount x y).den (nx * dy) (omega arith)
          (let (plus, minus) = exchanged_num amount nx ny dx dy in
            let h =
              round_scaled-nearest (exchanged amount x y)
                (omega (arith, product_positive nx dy hx hy)) in
            subst
              (λ k.
                IsNearest (round_scaled (exchanged amount x y)) (k * 10 ^ 8)
                  (neg_part amount * dx * ny * 10 ^ 8) (exchanged amount x y).den)
              plus
              (subst
                (λ k.
                  IsNearest (round_scaled (exchanged amount x y))
                    (pos_part (exchanged amount x y).num * 10 ^ 8) (k * 10 ^ 8)
                    (exchanged amount x y).den)
                minus h)),
    )
