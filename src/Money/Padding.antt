-- ===== src/Money/Padding.antt =====
-- The padding and the point of `String`: what the two parts of a printed number are.
use native.Mathlib.Decide.{ℕ_discrete}
use mathlib.Core.List.{append_assoc}
use my_finance.Common.{
  ℕ, zero, suc, ◌+◌, ◌-◌, ◌^◌, ◌≤◌, ◌<◌, ◌≡◌, refl, sym, ap, ◌∙◌, ◌≢◌, ◌⊎◌, inl, inr, true, false,
  ◌&&◌, [], ◌∷◌, ◌++◌, arith, Bool-cases, le_of_leb, lt_of_leb, leb, ◌==◌, if◌then◌else◌, is_empty,
  length, take, drop, replicate, take-append-drop, length-take, length-drop, length-replicate,
  length-append, All, All-append, All-take, All-drop, All-replicate,
}
use my_finance.Text.{Text, trim_right, len}
use my_finance.Money.{scale, value, whole_ok, print, pad, is_zero_digit}
use my_finance.Money.Decimal.{
  IsDigit, HeadNonzero, digits-eq_true, len-eq-length, value-print, print-digits, length-print,
  print-HeadNonzero,
}

-- The zeros that `trim_right` drops are put back by the padding of `parse`.
fill : ℕ → Text → Text
fill n t = t ++ replicate (n - length t) b'0'

fill-cons : (c n : ℕ) (t : Text) → fill (suc n) (c ∷ t) ≡ c ∷ fill n t
unfolding fill
fill-cons c n t = ap (λ k. c ∷ (t ++ replicate k b'0')) (omega arith)

fill-nil : (n : ℕ) → fill (suc n) [] ≡ b'0' ∷ fill n []
unfolding fill
fill-nil n = ap (λ k. replicate k b'0') {x = suc n - 0} {y = suc (n - 0)} (omega arith)

trim_right-fill : (s : Text) → fill (length s) (trim_right is_zero_digit s) ≡ s
unfolding trim_right
trim_right-fill [] = unfold fill in refl
trim_right-fill (c ∷ s) = go (trim_right is_zero_digit s) (trim_right-fill s)
  where
    go :
        (t : Text)
        → fill (length s) t ≡ s
        → fill (suc (length s)) (if c == b'0' && is_empty t then [] else c ∷ t) ≡ c ∷ s
    go [] h = elim (ℕ_discrete c b'0') [
      | yes e ↦ rw e (fill-nil (length s) ∙ ap (λ u. b'0' ∷ u) h)
      | no e ↦ rw (zero_test e) (fill-cons c (length s) [] ∙ ap (λ u. c ∷ u) h)
    ]
      where
        zero_test : c ≢ b'0' → (c == b'0') ≡ false
        zero_test e = ground arith
    go (d ∷ t) h = elim (Bool-cases (c == b'0')) [
      | inl e ↦ rw e (fill-cons c (length s) (d ∷ t) ∙ ap (λ u. c ∷ u) h)
      | inr e ↦ rw e (fill-cons c (length s) (d ∷ t) ∙ ap (λ u. c ∷ u) h)
    ]

trim_right-digits : (s : Text) → All IsDigit s → All IsDigit (trim_right is_zero_digit s)
unfolding trim_right
trim_right-digits [] h = tt
trim_right-digits (c ∷ s) (hc, h) = ground (arith, trim_right-digits s h)

length-trim_right : (s : Text) → length (trim_right is_zero_digit s) ≤ length s
unfolding trim_right
length-trim_right [] = omega arith
length-trim_right (c ∷ s) = ground (arith, length-trim_right s)

-- The digits that `String` splits at the point.
pub record IsPadded (n : ℕ) (d : Text) : Type 0 where
  pub all_digits : All IsDigit d
  pub reads : value 0 d ≡ n
  pub long : scale + 1 ≤ length d
  pub short : length d ≤ 24
  pub head : (length d ≡ scale + 1) ⊎ HeadNonzero d

value-replicate : (k : ℕ) (s : Text) → value 0 (replicate k b'0' ++ s) ≡ value 0 s
unfolding value
value-replicate zero s = refl
value-replicate (suc k) s = value-replicate k s

length-padding :
    (d : Text) → length d ≤ scale → length (replicate (scale + 1 - length d) b'0' ++ d) ≡ scale + 1
length-padding d h = omega (
  arith,
  length-append {0} {A = ℕ} (replicate (scale + 1 - length d) b'0') d,
  length-replicate {0} {A = ℕ} (scale + 1 - length d) b'0',
)

pub pad-IsPadded : (n : ℕ) → n ≢ 0 → n < 10 ^ 24 → IsPadded n (pad (print n))
pad-IsPadded n h b = elim (Bool-cases (leb (length (print n)) scale)) [
  | inl small ↦
      (let all = length-padding (print n) (le_of_leb _ _ small) in
        rw small (record {
          all_digits =
              All-append IsDigit (replicate _ b'0') _ (All-replicate IsDigit _ b'0' (omega arith))
                (print-digits n);
          reads = value-replicate _ _ ∙ value-print n;
          long = omega arith;
          short = omega arith;
          head = inl all;
        }))
  | inr big ↦ rw big (record {
    all_digits = print-digits n;
    reads = value-print n;
    long = omega (arith, lt_of_leb _ _ big);
    short = length-print 24 n b;
    head = inr (print-HeadNonzero n h);
  })
]

-- What the parts of a printed number are, and that `parse` accepts them.
pub record IsParted (n : ℕ) (w f : Text) : Type 0 where
  pub whole_digits : All IsDigit w
  pub fraction_digits : All IsDigit f
  pub whole_accepted : whole_ok w ≡ true
  pub fraction_short : length f ≤ scale
  pub total : value 0 (w ++ f ++ replicate (scale - len f) b'0') ≡ n

take-HeadNonzero : (k : ℕ) (d : Text) → HeadNonzero d → HeadNonzero (take (suc k) d)
take-HeadNonzero k [] h = h
take-HeadNonzero k (c ∷ d) h = h

whole_ok-eq_true :
    (w : Text)
    → All IsDigit w
    → 1 ≤ length w
    → length w ≤ 16
    → (length w ≡ 1) ⊎ HeadNonzero w
    → whole_ok w ≡ true
whole_ok-eq_true [] h a b c = absurd (omega arith)
whole_ok-eq_true (x ∷ w) h a b c = ground (arith, digits-eq_true (x ∷ w) h, len-eq-length (x ∷ w) h)

-- The texts before and after the point.
abbrev pub whole : Text → Text
whole d = take (length d - scale) d

abbrev pub rest : Text → Text
rest d = drop (length d - scale) d

abbrev pub fraction : Text → Text
fraction d = trim_right is_zero_digit (rest d)

module _ {n : ℕ} {d : Text} (p : IsPadded n d) where
  length-rest : length (rest d) ≡ scale
  length-rest = omega (arith, length-drop {0} (length d - scale) d, p.long)

  length-whole : length (whole d) ≡ length d - scale
  length-whole = omega (arith, length-take {0} (length d - scale) d)

  fraction-digits : All IsDigit (fraction d)
  fraction-digits = trim_right-digits (rest d) (All-drop IsDigit (length d - scale) d p.all_digits)

  whole-digits : All IsDigit (whole d)
  whole-digits = All-take IsDigit (length d - scale) d p.all_digits

  head_choice :
      (length d ≡ scale + 1) ⊎ HeadNonzero d → (length (whole d) ≡ 1) ⊎ HeadNonzero (whole d)
  head_choice (inl e) = inl (omega (arith, length-whole))
  head_choice (inr h) =
      let k : length d - scale ≡ suc (length d - scale - 1) = omega (arith, p.long) in
      inr (rw k (take-HeadNonzero _ d h))

  total : value 0 (whole d ++ fraction d ++ replicate (scale - len (fraction d)) b'0') ≡ n
  unfolding fill
  total =
      rw (len-eq-length (fraction d) fraction-digits, append_assoc)
        (ap (λ s. value 0 (whole d ++ s)) filled ∙ ap (value 0) (take-append-drop _ d) ∙ p.reads)
    where
      filled : fraction d ++ replicate (scale - length (fraction d)) b'0' ≡ rest d
      filled =
          ap (λ k. fraction d ++ replicate (k - length (fraction d)) b'0') (sym length-rest)
          ∙ trim_right-fill (rest d)

  pub with_point-IsParted : IsParted n (whole d) (fraction d)
  with_point-IsParted = record {
    whole_digits = whole-digits;
    fraction_digits = fraction-digits;
    whole_accepted =
        whole_ok-eq_true (whole d) whole-digits (omega (arith, length-whole, p.long))
          (omega (arith, length-whole, p.short)) (head_choice p.head);
    fraction_short = omega (arith, length-trim_right (rest d), length-rest);
    total = total;
  }
