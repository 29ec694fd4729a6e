-- ===== src/Money/Decimal.antt =====
-- The decimal digits of a number: what `emit` prints, and what `value` reads.
use native.Mathlib.Decide.{ℕ_discrete}
use native.Mathlib.Nat.{pow-suc, add-zero, add-suc, suc-add}
use my_finance.Common.{
  ℕ, zero, suc, ◌+◌, ◌-◌, ◌*◌, ◌/◌, ◌%◌, ◌^◌, ◌≤◌, ◌<◌, ◌≡◌, refl, ap, ◌≢◌, true, [], ◌∷◌, ◌++◌,
  arith, length, All,
}
use my_finance.Text.{Text, len}
use my_finance.Money.{digits, value, emit, print}

abbrev pub IsDigit : ℕ → Type 0
IsDigit c = (b'0' ≤ c) × (c ≤ b'9')

pub digits-eq_true : (s : Text) → All IsDigit s → digits s ≡ true
unfolding digits
digits-eq_true [] h = refl
digits-eq_true (c ∷ s) (hc, h) = ground (arith, digits-eq_true s h)

pub digits-All : (s : Text) → digits s ≡ true → All IsDigit s
unfolding digits
digits-All [] h = tt
digits-All (c ∷ s) h = ground (arith, digits-All s)

-- A digit is one byte.
pub len-eq-length : (s : Text) → All IsDigit s → len s ≡ length s
unfolding len
len-eq-length [] h = refl
len-eq-length (c ∷ s) (hc, h) = ground (arith, len-eq-length s h)

pub value-append : (s t : Text) (n : ℕ) → value n (s ++ t) ≡ value (value n s) t
unfolding value
value-append [] t n = refl
value-append (c ∷ s) t n = value-append s t _

pub value-lt : (s : Text) (n j : ℕ) → All IsDigit s → n < 10 ^ j → value n s < 10 ^ (j + length s)
unfolding value
value-lt [] n j h p = rw add-zero p
value-lt (c ∷ s) n j (hc, h) p =
    rw (add-suc, ← suc-add)
      (value-lt s (n * 10 + (c - b'0')) (suc j) h (omega (arith, pow-suc 10 j)))

pub value-emit : (fuel n : ℕ) (out : Text) → n ≤ fuel → value 0 (emit fuel n out) ≡ value n out
unfolding emit value
value-emit zero n out h = ap (λ m. value m out) (omega arith)
value-emit (suc fuel) n out h = ground (arith, value-emit fuel (n / 10) ((b'0' + n % 10) ∷ out))

emit-digits : (fuel n : ℕ) (out : Text) → All IsDigit out → All IsDigit (emit fuel n out)
unfolding emit
emit-digits zero n out h = h
emit-digits (suc fuel) n out h = ground (arith, emit-digits fuel (n / 10) ((b'0' + n % 10) ∷ out))

length-emit : (fuel j n : ℕ) (out : Text) → n < 10 ^ j → length (emit fuel n out) ≤ j + length out
unfolding emit
length-emit zero j n out h = omega arith
length-emit (suc fuel) zero n out h = ground arith
length-emit (suc fuel) (suc j) n out h =
    ground (arith, pow-suc 10 j, length-emit fuel j (n / 10) ((b'0' + n % 10) ∷ out))

-- A text that begins with a digit other than zero.
abbrev pub HeadNonzero : Text → Type 0
HeadNonzero [] = ⊥
HeadNonzero (c ∷ s) = c ≢ b'0'

emit-zero : (fuel n : ℕ) (out : Text) → n ≡ 0 → emit fuel n out ≡ out
unfolding emit
emit-zero zero n out h = refl
emit-zero (suc fuel) n out h = ground arith

emit-suc :
    (fuel n : ℕ) (out : Text)
    → n ≢ 0
    → emit (suc fuel) n out ≡ emit fuel (n / 10) ((b'0' + n % 10) ∷ out)
unfolding emit
emit-suc fuel n out h = ground arith

emit-HeadNonzero : (fuel n : ℕ) (out : Text) → n ≢ 0 → n ≤ fuel → HeadNonzero (emit fuel n out)
emit-HeadNonzero zero n out h k = absurd (omega arith)
emit-HeadNonzero (suc fuel) n out h k = rw (emit-suc fuel n out h) (elim (ℕ_discrete (n / 10) 0) [
  | yes last ↦ rw (emit-zero fuel (n / 10) _ last) (omega arith)
  | no more ↦ emit-HeadNonzero fuel (n / 10) _ more (omega arith)
])

pub value-print : (n : ℕ) → value 0 (print n) ≡ n
unfolding print value
value-print n = value-emit n n [] (omega arith)

pub print-digits : (n : ℕ) → All IsDigit (print n)
unfolding print
print-digits n = emit-digits n n [] tt

pub length-print : (j n : ℕ) → n < 10 ^ j → length (print n) ≤ j
unfolding print
length-print j n h = omega (arith, length-emit n j n [] h)

pub print-HeadNonzero : (n : ℕ) → n ≢ 0 → HeadNonzero (print n)
unfolding print
print-HeadNonzero n h = emit-HeadNonzero n n [] h (omega arith)
