-- ===== src/Fx/Rounding.antt =====
-- What `round` of internal/fx/fx.go does.
use my_finance.Common.{
  ℕ, zero, suc, ◌+◌, ◌*◌, ◌/◌, ◌%◌, ◌^◌, ◌≤◌, ◌<◌, ◌≡◌, refl, ap, sym, ◌∙◌, Bool, true, false, some,
  [], ◌∷◌, leb, arith, if◌then◌else◌, Bool-cases, inl, inr,
}
use my_finance.Common.Int.{ℤ, pos, negsuc, pos_part, neg_part, neg_ℤ}
use my_finance.Text.{Text}
use my_finance.Money.{to_string, parse, is_zero, print, with_point}
use my_finance.Money.RoundTrip.{InRange, parse-to_string}
use my_finance.Fx.{Rat, size, with_sign, is_negative, round_size, round_scaled, scaled_text, round}

nonzero_text : (q : ℤ) → is_zero q ≡ false → scaled_text q ≡ to_string q
unfolding scaled_text to_string
nonzero_text q h = ap (λ (b : Bool). if b then b'0' ∷ [] else scaled_text q) (sym h)

scaled_text-to_string : (q : ℤ) → scaled_text q ≡ to_string q
unfolding scaled_text to_string with_point print my_finance.Text.trim_right
scaled_text-to_string (pos zero) = refl
scaled_text-to_string (pos (suc n)) = nonzero_text (pos (suc n)) (ground arith)
scaled_text-to_string (negsuc n) = nonzero_text (negsuc n) (ground arith)

-- `round` prints as `Amount.String` prints the amount that it rounds to.
pub round-to_string : (x : Rat) → round x ≡ to_string (round_scaled x)
unfolding round
round-to_string x = scaled_text-to_string (round_scaled x)

div_mod : (n d : ℕ) → 1 ≤ d → (n ≡ n / d * d + n % d) × (n % d < d)
div_mod n d h = grind arith

-- The quotient is off by at most a half, which it rounds up.
round_size-nearest :
    (n d : ℕ)
    → 1 ≤ d
    → (2 * (round_size n d * d) ≤ 2 * n + d) × (2 * n < 2 * (round_size n d * d) + d)
unfolding round_size
round_size-nearest n d h =
    let (parts, small) = div_mod n d h in
    elim (Bool-cases (leb d (2 * (n % d)))) [
      | inl up ↦ rw up (
          let half : d ≤ 2 * (n % d) = ground arith in
          (omega (arith, parts, small), omega (arith, parts, small, half)))
      | inr down ↦ rw down (
          let less : 2 * (n % d) < d = ground arith in
          (omega (arith, parts, small, less), omega (arith, parts, small, less)))
    ]

-- The integer `q` is a nearest one to the fraction (p - m) / d: the signed difference is at most a half
-- either way, and at exactly a half `q` is the one of the greater size.
pub record IsNearest (q : ℤ) (p m d : ℕ) : Type 0 where
  pub above : 2 * (pos_part q * d + m) ≤ 2 * (neg_part q * d + p) + d
  pub below : 2 * (neg_part q * d + p) ≤ 2 * (pos_part q * d + m) + d
  pub half : 2 * (p + m) < 2 * (size q * d) + d

pub minus_parts : (q : ℕ) → (pos_part (with_sign true q) ≡ 0) × (neg_part (with_sign true q) ≡ q)
unfolding neg_ℤ
minus_parts q = (ground arith, ground arith)

signed-IsNearest :
    (a : ℤ) (k d q : ℕ)
    → (2 * (q * d) ≤ 2 * (size a * k) + d) × (2 * (size a * k) < 2 * (q * d) + d)
    → IsNearest (with_sign (is_negative a) q) (pos_part a * k) (neg_part a * k) d
unfolding neg_ℤ
signed-IsNearest (pos n) k d q (most, least) = record {
  above = omega (arith, most);
  below = omega (arith, least);
  half = omega (arith, least);
}
signed-IsNearest (negsuc n) k d q (most, least) =
    let sign : is_negative (negsuc n) ≡ true = ground arith in
    let (no_plus, minus) = minus_parts q in
    rw sign (record {
      above = rw (no_plus, minus) (omega (arith, least));
      below = rw (no_plus, minus) (omega (arith, most));
      half = rw (no_plus, minus) (omega (arith, least));
    })

-- A rational with a positive denominator is rounded, with its sign, to a nearest multiple of 10 ^ -8:
-- the result is off by at most half a unit either way, and at exactly half a unit it is the one
-- further from zero.
pub round_scaled-nearest :
    (x : Rat)
    → 1 ≤ x.den
    → IsNearest (round_scaled x) (pos_part x.num * 10 ^ 8) (neg_part x.num * 10 ^ 8) x.den
unfolding round_scaled
round_scaled-nearest x h =
    signed-IsNearest x.num (10 ^ 8) x.den (round_size (size x.num * 10 ^ 8) x.den)
      (round_size-nearest (size x.num * 10 ^ 8) x.den h)

-- The text of the rounded value, read back, is the rounded value, where that is below 10 ^ 16.
pub parse-round : (x : Rat) → InRange (round_scaled x) → parse (round x) ≡ some (round_scaled x)
parse-round x h = ap parse (round-to_string x) ∙ parse-to_string (round_scaled x) h
