-- ===== src/Assets/Share.antt =====
-- `ownershipSharePattern` of internal/httpapi/assets.go, and the share that a text it accepts stands
-- for, in hundredths of a per cent: the cast to `numeric(5, 2)`.
use my_finance.Common.{
  ℕ, ◌+◌, ◌-◌, ◌*◌, Bool, true, false, ◌&&◌, ◌||◌, [], ◌∷◌, leb, ◌==◌, if◌then◌else◌,
}
use my_finance.Text.{Text}

abbrev is_digit : ℕ → Bool
is_digit c = leb 48 c && leb c 57

abbrev is_nonzero : ℕ → Bool
is_nonzero c = leb 49 c && leb c 57

abbrev is_nought : ℕ → Bool
is_nought c = c == 48

-- `\.\d{1,2}` for digits that `p` allows.
abbrev point_digits : (ℕ → Bool) → Text → Bool
point_digits p (c ∷ a ∷ []) = c == 46 && p a
point_digits p (c ∷ a ∷ b ∷ []) = c == 46 && p a && p b
point_digits p t = false

-- `(?:\.\d{1,2})?`
abbrev optional_digits : (ℕ → Bool) → Text → Bool
optional_digits p [] = true
optional_digits p t = point_digits p t

-- `100(?:\.0{1,2})?`
abbrev pub is_hundred : Text → Bool
is_hundred (a ∷ b ∷ c ∷ t) = a == 49 && b == 48 && c == 48 && optional_digits is_nought t
is_hundred t = false

-- `(?:[1-9])(?:\.\d{1,2})?`
abbrev pub is_single : Text → Bool
is_single [] = false
is_single (a ∷ t) = is_nonzero a && optional_digits is_digit t

-- `(?:[1-9][0-9])(?:\.\d{1,2})?`
abbrev pub is_double : Text → Bool
is_double (a ∷ b ∷ t) = is_nonzero a && is_digit b && optional_digits is_digit t
is_double t = false

-- `0\.\d{1,2}`
abbrev pub is_below_one : Text → Bool
is_below_one [] = false
is_below_one (a ∷ t) = a == 48 && point_digits is_digit t

-- `ownershipSharePattern.MatchString`
unfoldable pub share_ok : Text → Bool
share_ok t = is_hundred t || is_single t || is_double t || is_below_one t

abbrev fraction : Text → ℕ
fraction (c ∷ a ∷ []) = (a - 48) * 10
fraction (c ∷ a ∷ b ∷ []) = (a - 48) * 10 + (b - 48)
fraction t = 0

abbrev double_value : Text → ℕ
double_value (a ∷ b ∷ t) = ((a - 48) * 10 + (b - 48)) * 100 + fraction t
double_value t = 0

abbrev single_value : Text → ℕ
single_value [] = 0
single_value (a ∷ t) = (a - 48) * 100 + fraction t

-- `$7::numeric`, on a text that the pattern accepts.
unfoldable pub hundredths : Text → ℕ
hundredths t =
    if is_hundred t then 10000 else if is_double t then double_value t else single_value t
