-- ===== src/SecondFactor/Totp.antt =====
-- internal/auth/totp.go: the codes of an authenticator. Times are seconds since 1970.
use my_finance.Common.{
  ℕ, zero, suc, ◌+◌, ◌-◌, ◌*◌, ◌/◌, ◌%◌, ◌^◌, ◌≡◌, ◌⊎◌, true, not, Option, none, some, List, [],
  ◌∷◌, ltb, ◌==◌, if◌then◌else◌, length,
}
use my_finance.Common.Int.{ℤ, pos, negsuc, ◌+ℤ◌, ltb_ℤ, ◌≤ℤ◌}
use my_finance.Text.{Text, trim_space, len, text_eq}

-- The libraries behind the codes: `strings.ToUpper`, base32 without padding, and byte `i` of the 20
-- bytes of the HMAC-SHA-1 of a key and a message.
pub record Hashing : Type 0 where
  pub to_upper : Text → Text
  pub base32 : Text → Option (List ℕ)
  pub hmac : List ℕ → List ℕ → ℕ → ℕ

-- `uint64(step)`
abbrev pub uint64 : ℤ → ℕ
uint64 (pos n) = n % 2 ^ 64
uint64 (negsuc n) = 2 ^ 64 - 1 - n % 2 ^ 64

-- `binary.BigEndian.PutUint64`: the bytes of a number, of which `k` are left.
unfoldable pub big_endian : ℕ → ℕ → List ℕ
big_endian zero n = []
big_endian (suc k) n = (n / 256 ^ k) % 256 ∷ big_endian k n

-- The 31 bits at the digest's offset.
abbrev pub truncated : (ℕ → ℕ) → ℕ
truncated digest =
    let offset = digest 19 % 16 in
    (digest offset * 2 ^ 24
      + digest (offset + 1) * 2 ^ 16
      + digest (offset + 2) * 2 ^ 8
      + digest (offset + 3))
    % 2 ^ 31

-- `%0*d`, of a number with at most so many digits.
unfoldable pub padded : ℕ → ℕ → Text
padded zero n = []
padded (suc digits) n = (48 + (n / 10 ^ digits) % 10) ∷ padded digits n

-- The number that is shown in so many digits.
abbrev pub shown_number : Hashing → ℕ → ℤ → List ℕ → ℕ
shown_number c digits step key =
    truncated (c.hmac key (big_endian 8 (uint64 step))) % (10 ^ digits % 2 ^ 32)

-- The code, where the key is long enough.
abbrev pub code_at : Hashing → ℕ → ℤ → Option (List ℕ) → Option Text
code_at c digits step none = none
code_at c digits step (some key) =
    if ltb (length key) 16 then none else some (padded digits (shown_number c digits step key))

-- `totpAt`; `none` is `ErrInvalidTOTPSecret`.
unfoldable pub totp_at : Hashing → Text → ℤ → ℕ → Option Text
totp_at c secret step digits = code_at c digits step (c.base32 (c.to_upper (trim_space secret)))

-- The body of the loop: what the code of a step decides, `rest` being the later turns.
abbrev pub compare : Text → ℤ → Option ℤ → Option Text → Option ℤ
compare code step rest none = none
compare code step rest (some expected) = if text_eq expected code then some step else rest

-- The loop over the candidate steps.
unfoldable pub try_steps : Hashing → Text → Text → ℤ → List ℤ → Option ℤ
try_steps c secret code last [] = none
try_steps c secret code last (step ∷ steps) =
    let rest = try_steps c secret code last steps in
    if not (ltb_ℤ last step) then rest else compare code step rest (totp_at c secret step 6)

-- The steps before, at and after a time.
abbrev pub candidates : ℕ → List ℤ
candidates now =
    (pos (now / 30) +ℤ negsuc 0) ∷ (pos (now / 30) +ℤ pos 0) ∷ (pos (now / 30) +ℤ pos 1) ∷ []

-- `ValidateTOTP`
unfoldable pub validate_totp : Hashing → Text → Text → ℕ → ℤ → Option ℤ
validate_totp c secret code now last =
    if not (len (trim_space code) == 6)
    then none
    else try_steps c secret (trim_space code) last (candidates now)

-- A step of the list, later than the last one, whose code is the one given.
abbrev pub Matches : Hashing → Text → Text → ℤ → ℤ → Type 0
Matches c secret code last step = (ltb_ℤ last step ≡ true) × (totp_at c secret step 6 ≡ some code)

unfoldable pub IsAmong : ℤ → List ℤ → Type 0
IsAmong step [] = ⊥
IsAmong step (s ∷ ss) = (step ≡ s) ⊎ IsAmong step ss

-- A step at most one away from that of a time, of 30 seconds each.
pub record IsNear (now : ℕ) (step : ℤ) : Type 0 where
  pub not_early : pos (now / 30) ≤ℤ step +ℤ pos 1
  pub not_late : step ≤ℤ pos (now / 30 + 1)

-- What makes a code acceptable: it is the code of a step at most one away from the time's own,
-- later than the last one used.
abbrev pub Accepts : Hashing → Text → Text → ℕ → ℤ → ℤ → Type 0
Accepts c secret code now last step = IsNear now step × Matches c secret (trim_space code) last step
