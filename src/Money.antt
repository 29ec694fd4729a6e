-- ===== src/Money.antt =====
-- internal/money/amount.go: exact decimal amounts. The `big.Int` of an `Amount`, the value scaled
-- by 10 ^ 8, is an integer here; `parse` returns `none` where the code returns `ErrInvalidAmount`.
pub mod Decimal
pub mod Padding
pub mod RoundTrip
use my_finance.Common.{
  ℕ, zero, suc, ◌+◌, ◌-◌, ◌*◌, ◌/◌, ◌%◌, ◌≡◌, refl, Bool, true, false, not, ◌&&◌, ◌||◌, Option,
  none, some, List, [], ◌∷◌, ◌++◌, ltb, leb, ◌==◌, if◌then◌else◌, is_empty, length, take, drop,
  replicate,
}
use my_finance.Common.Int.{ℤ, pos, negsuc, pos_part, neg_part, ◌+ℤ◌, neg_ℤ}
use my_finance.Text.{
  Text, codes, is_space, trim_left, trim_right, trim_space, len, text_eq, contains, split,
}

abbrev pub scale : ℕ
scale = 8

abbrev pub Amount : Type 0
Amount = ℤ

-- `digits`
unfoldable pub digits : Text → Bool
digits [] = true
digits (c ∷ s) = if ltb c b'0' || ltb b'9' c then false else digits s

-- `SetString(value, 10)` on a text of digits.
unfoldable pub value : ℕ → Text → ℕ
value n [] = n
value n (c ∷ s) = value (n * 10 + (c - b'0')) s

abbrev pub starts_with : ℕ → Text → Bool
starts_with d [] = false
starts_with d (c ∷ s) = c == d

-- `strings.TrimPrefix(value, "-")`
abbrev pub trim_minus : Text → Text
trim_minus [] = []
trim_minus (c ∷ s) = if c == b'-' then s else c ∷ s

abbrev pub signed : Bool → ℕ → ℤ
signed true n = neg_ℤ (pos n)
signed false n = pos n

-- The tests on `parts[0]`.
abbrev pub whole_ok : Text → Bool
whole_ok w =
    not (is_empty w) && leb (len w) 16 && digits w && not (ltb 1 (len w) && starts_with b'0' w)

-- The tests on `parts[1]`.
abbrev pub fraction_ok : Text → Bool
fraction_ok f = not (is_empty f) && leb (len f) scale && digits f

abbrev pub assemble : Bool → Text → Text → Amount
assemble negative w f = signed negative (value 0 (w ++ f ++ replicate (scale - len f) b'0'))

-- `Parse` from the split on; `strings.Split` never returns an empty slice.
unfoldable pub parse_parts : Bool → List Text → Option Amount
parse_parts negative [] = none
parse_parts negative (w ∷ []) = if whole_ok w then some (assemble negative w []) else none
parse_parts negative (w ∷ f ∷ []) =
    if whole_ok w then (if fraction_ok f then some (assemble negative w f) else none) else none
parse_parts negative (w ∷ f ∷ x ∷ ps) = none

unfoldable pub parse : Text → Option Amount
unfolding parse_parts
parse s =
    if is_empty s
      || not (text_eq (trim_space s) s)
      || contains b'e' s
      || contains b'E' s
      || contains b'+' s
    then none
    else parse_parts (starts_with b'-' s) (split b'.' (trim_minus s))

abbrev pub is_zero : Amount → Bool
is_zero a = pos_part a == 0 && neg_part a == 0

abbrev pub is_positive : Amount → Bool
is_positive a = ltb 0 (pos_part a)

abbrev pub negate : Amount → Amount
negate a = neg_ℤ a

abbrev pub add : Amount → Amount → Amount
add a b = a +ℤ b

-- The digits of `n` before those of `out`; each round divides by ten.
unfoldable pub emit : ℕ → ℕ → Text → Text
emit zero n out = out
emit (suc fuel) n out =
    let more = emit fuel (n / 10) ((b'0' + n % 10) ∷ out) in if n == 0 then out else more

-- `big.Int.String` of a positive number.
unfoldable pub print : ℕ → Text
unfolding emit
print n = emit n n []

-- The padding in `String` to at least one digit before the point.
abbrev pub pad : Text → Text
pad d = if leb (length d) scale then replicate (scale + 1 - length d) b'0' ++ d else d

abbrev pub is_zero_digit : ℕ → Bool
is_zero_digit c = c == b'0'

-- `String` after the padding: the point, and no zeros at the end.
unfoldable pub with_point : Text → Text
with_point d =
    let whole = take (length d - scale) d in
    let fraction = trim_right is_zero_digit (drop (length d - scale) d) in
    if is_empty fraction then whole else whole ++ b'.' ∷ fraction

unfoldable pub to_string : Amount → Text
to_string a =
    if is_zero a
    then b'0' ∷ []
    else (let result = with_point (pad (print (pos_part a + neg_part a))) in
        if ltb 0 (neg_part a) then b'-' ∷ result else result)

pub parse_ok : parse (codes "-12.50") ≡ some (negsuc 1249999999)
unfolding parse digits value split contains text_eq trim_space trim_left trim_right is_space len
    neg_ℤ
parse_ok = refl

to_string_ok : to_string (negsuc 1249999999) ≡ codes "-12.5"
unfolding to_string print with_point trim_right
to_string_ok = refl
