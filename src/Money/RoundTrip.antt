-- ===== src/Money/RoundTrip.antt =====
-- `Parse` after `String`, and the range of what `Parse` accepts.
use my_finance.Common.{
  ℕ, zero, suc, ◌+◌, ◌-◌, ◌^◌, ◌≤◌, ◌<◌, ◌≡◌, refl, sym, ap, ◌∙◌, ◌≢◌, ◌⊎◌, inl, inr, Bool, true,
  false, some, List, [], ◌∷◌, ◌++◌, arith, if◌then◌else◌, is_empty, length, replicate,
  length-replicate, length-append, All, All-append, All-replicate, All-map,
}
use native.Mathlib.Nat.{pow-le-pow_right}
use mathlib.Core.Option.{some-injective}
use my_finance.Common.Int.{pos, negsuc, pos_part, neg_part, neg_ℤ, int_laws}
use my_finance.Text.{
  Text, is_space, IsPlain, trim_left, trim_right, trim_space, trim_space-eq, len, text_eq,
  text_eq_refl, contains, contains-eq_false, split, split-eq, split-append, Lacks,
}
use my_finance.Money.{
  Amount, scale, digits, value, signed, whole_ok, fraction_ok, assemble, starts_with, trim_minus,
  parse_parts, parse, print, pad, with_point, to_string,
}
use my_finance.Money.Padding.{pad-IsPadded, IsParted, whole, fraction, with_point-IsParted}
use my_finance.Money.Decimal.{IsDigit, digits-eq_true, digits-All, len-eq-length, value-lt}

abbrev joined : Text → Text → Text
joined w f = if is_empty f then w else w ++ b'.' ∷ f

digit-ne : (sep : ℕ) → (sep < b'0') ⊎ (b'9' < sep) → (c : ℕ) → IsDigit c → c ≢ sep
digit-ne sep h c d = omega arith

digits-Lacks : (sep : ℕ) (s : Text) → (sep < b'0') ⊎ (b'9' < sep) → All IsDigit s → Lacks sep s
digits-Lacks sep s h = All-map IsDigit (λ c. c ≢ sep) s (digit-ne sep h)

parse_parts-joined :
    (negative : Bool) {n : ℕ} (w f : Text)
    → IsParted n w f
    → parse_parts negative (split b'.' (joined w f)) ≡ some (signed negative n)
unfolding parse_parts
parse_parts-joined negative w [] p =
    rw (split-eq b'.' w (digits-Lacks b'.' w (inl (omega arith)) p.whole_digits), p.whole_accepted)
      (ap (λ k. some (signed negative k)) p.total)
parse_parts-joined negative w (c ∷ f) p =
    rw
      (
        split-append b'.' w (c ∷ f) (digits-Lacks b'.' w (inl (omega arith)) p.whole_digits)
            (digits-Lacks b'.' (c ∷ f) (inl (omega arith)) p.fraction_digits),
        p.whole_accepted,
        accepted,
      )
      (ap (λ k. some (signed negative k)) p.total)
  where
    accepted : fraction_ok (c ∷ f) ≡ true
    accepted =
        ground
          (arith, digits-eq_true (c ∷ f) p.fraction_digits, len-eq-length (c ∷ f) p.fraction_digits)

-- The characters of a printed amount lie from '-' to '9'.
abbrev IsAmountChar : ℕ → Type 0
IsAmountChar c = (b'-' ≤ c) × (c ≤ b'9')

amount_char-IsPlain : (c : ℕ) → IsAmountChar c → IsPlain c
unfolding is_space
amount_char-IsPlain c h = ground arith

amount_char_ne : (sep : ℕ) → (sep < b'-') ⊎ (b'9' < sep) → (c : ℕ) → IsAmountChar c → c ≢ sep
amount_char_ne sep h c d = omega arith

-- The first test of `parse` passes.
parse_amount_chars :
    (s : Text)
    → All IsAmountChar s
    → is_empty s ≡ false
    → parse s ≡ parse_parts (starts_with b'-' s) (split b'.' (trim_minus s))
unfolding parse
parse_amount_chars s h ne = rw (
  ne,
  trim_space-eq s (All-map IsAmountChar IsPlain s amount_char-IsPlain h),
  text_eq_refl s,
  lacks b'e' (inr (omega arith)),
  lacks b'E' (inr (omega arith)),
  lacks b'+' (inl (omega arith)),
)
  where
    lacks : (sep : ℕ) → (sep < b'-') ⊎ (b'9' < sep) → contains sep s ≡ false
    lacks sep k =
        contains-eq_false sep s (All-map IsAmountChar (λ c. c ≢ sep) s (amount_char_ne sep k) h)

joined-amount_chars : (w f : Text) → All IsDigit w → All IsDigit f → All IsAmountChar (joined w f)
joined-amount_chars w [] hw hf = All-map IsDigit IsAmountChar w (λ c d. omega arith) hw
joined-amount_chars w (c ∷ f) hw hf =
    All-append IsAmountChar w (b'.' ∷ c ∷ f)
      (All-map IsDigit IsAmountChar w (λ c d. omega arith) hw)
      (omega arith, All-map IsDigit IsAmountChar (c ∷ f) (λ c d. omega arith) hf)

-- A printed number, as `parse` sees it: it is not empty and does not begin with a minus.
joined_start :
    (w f : Text)
    → whole_ok w ≡ true
    → All IsDigit w
    → (is_empty (joined w f) ≡ false)
      × (starts_with b'-' (joined w f) ≡ false)
      × (trim_minus (joined w f) ≡ joined w f)
joined_start [] f h d = cc
joined_start (x ∷ w) [] h d = ground arith
joined_start (x ∷ w) (c ∷ f) h d = ground arith

module _ (n : ℕ) (w f : Text) (p : IsParted n w f) where
  abbrev chars : All IsAmountChar (joined w f)
  chars = joined-amount_chars w f p.whole_digits p.fraction_digits

  parse-joined : parse (joined w f) ≡ some (pos n)
  parse-joined =
      let (ne, plain, same) = joined_start w f p.whole_accepted p.whole_digits in
      rw (parse_amount_chars (joined w f) chars ne, plain, same) (parse_parts-joined false w f p)

  parse-minus_joined : parse (b'-' ∷ joined w f) ≡ some (neg_ℤ (pos n))
  parse-minus_joined =
      rw (parse_amount_chars (b'-' ∷ joined w f) (omega arith, chars) refl)
        (parse_parts-joined true w f p)

-- The amounts that a `numeric(24, 8)` column and the digits of `parse` hold: below 10 ^ 16.
abbrev pub InRange : Amount → Type 0
InRange a = pos_part a + neg_part a < 10 ^ 24

printed :
    (n : ℕ)
    → n ≢ 0
    → n < 10 ^ 24
    → (w : Text) × (f : Text) × IsParted n w f × (with_point (pad (print n)) ≡ joined w f)
unfolding with_point
printed n h b =
    let d = pad (print n) in (whole d, fraction d, with_point-IsParted (pad-IsPadded n h b), refl)

to_string-pos : (n : ℕ) → to_string (pos (suc n)) ≡ with_point (pad (print (suc n)))
unfolding to_string
to_string-pos n = ground arith

to_string-negsuc : (n : ℕ) → to_string (negsuc n) ≡ b'-' ∷ with_point (pad (print (suc n)))
unfolding to_string
to_string-negsuc n = ground arith

parse-zero : parse (to_string (pos 0)) ≡ some (pos 0)
unfolding to_string parse digits value split contains text_eq trim_space trim_right trim_left len
    is_space
parse-zero = refl

-- `Parse` reads back what `String` prints: the same amount, for every amount below 10 ^ 16.
pub parse-to_string : (a : Amount) → InRange a → parse (to_string a) ≡ some a
parse-to_string (pos zero) h = parse-zero
parse-to_string (pos (suc n)) h =
    let (w, f, p, e) = printed (suc n) (omega arith) (omega arith) in
    rw (to_string-pos, e) (parse-joined (suc n) w f p)
parse-to_string (negsuc n) h =
    let (w, f, p, e) = printed (suc n) (omega arith) (omega arith) in
    rw (to_string-negsuc, e) (parse-minus_joined (suc n) w f p ∙ ap some minus)
  where
    minus : neg_ℤ (pos (suc n)) ≡ negsuc n
    minus = omega int_laws

signed-InRange : (negative : Bool) (n : ℕ) → n < 10 ^ 24 → InRange (signed negative n)
signed-InRange true n h = unfold neg_ℤ in ground arith
signed-InRange false n h = omega arith

-- The accepted parts hold at most 16 and 8 digits.
assemble-InRange :
    (negative : Bool) (w f : Text)
    → All IsDigit w
    → All IsDigit f
    → length w ≤ 16
    → length f ≤ scale
    → InRange (assemble negative w f)
assemble-InRange negative w f hw hf lw lf =
    signed-InRange negative _ (omega (arith, value-lt all 0 0 digits_all (omega arith), size, mono))
  where
    all : Text
    all = w ++ f ++ replicate (scale - len f) b'0'

    digits_all : All IsDigit all
    digits_all =
        All-append IsDigit (w ++ f) _ (All-append IsDigit w f hw hf)
          (All-replicate IsDigit (scale - len f) b'0' (omega arith))

    size : length all ≤ 24
    size = omega (
      arith,
      length-append {0} {A = ℕ} (w ++ f) (replicate (scale - len f) b'0'),
      length-append {0} {A = ℕ} w f,
      length-replicate {0} {A = ℕ} (scale - len f) b'0',
      len-eq-length f hf,
    )

    mono : 10 ^ (0 + length all) ≤ 10 ^ 24
    mono = pow-le-pow_right (omega arith) {j = 24} (omega (arith, size))

parse_parts-InRange :
    (negative : Bool) (ps : List Text) (a : Amount) → parse_parts negative ps ≡ some a → InRange a
unfolding parse_parts
parse_parts-InRange negative [] a h = cc
parse_parts-InRange negative (w ∷ []) a h =
    ground (arith, digits-All w, len-eq-length w, assemble-InRange negative w [])
parse_parts-InRange negative (w ∷ f ∷ []) a h = ground (
  arith,
  digits-All w,
  len-eq-length w,
  digits-All f,
  len-eq-length f,
  assemble-InRange negative w f,
)
parse_parts-InRange negative (w ∷ f ∷ x ∷ ps) a h = cc

-- Every accepted text is an amount below 10 ^ 16, so that its `numeric(24, 8)` column holds it.
pub parse-InRange : (s : Text) (a : Amount) → parse s ≡ some a → InRange a
unfolding parse
parse-InRange s a h =
    ground (arith, parse_parts-InRange (starts_with b'-' s) (split b'.' (trim_minus s)) a)

-- Reading an accepted text, printing it and reading it again gives the same amount.
pub parse-to_string-parse :
    (s : Text) (a : Amount) → parse s ≡ some a → parse (to_string a) ≡ some a
parse-to_string-parse s a h = parse-to_string a (parse-InRange s a h)

-- Two amounts in range that print alike are equal.
pub to_string_inj : (a b : Amount) → InRange a → InRange b → to_string a ≡ to_string b → a ≡ b
to_string_inj a b ha hb e =
    some-injective a b (sym (parse-to_string a ha) ∙ ap parse e ∙ parse-to_string b hb)
