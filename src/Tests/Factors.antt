-- ===== src/Tests/Factors.antt =====
-- The second factor at concrete requests: an authenticator whose codes are the last byte of the step.
use my_finance.Common.{
  List, Option, [], any, false, find, if◌then◌else◌, is_some, refl, some, true, ℕ, ◌++◌, ◌+◌, ◌==◌,
  ◌∷◌, ◌≡◌, ◌≢◌,
}
use my_finance.Common.Int.{ℤ, pos, negsuc, ltb_ℤ, ◌+ℤ◌}
use my_finance.Text.{codes, trim_space, trim_left, trim_right, is_space, len, text_eq}
use my_finance.Errors.{success}
use my_finance.RateLimit.{new_limiter, allowed, failed, succeeded, keep}
use my_finance.SecondFactor.{Challenge, World, Outside, LoginRequest, get_challenge, create_session}
use my_finance.SecondFactor.Spent.{AreUnique, verify_login_recovery-spent}
use my_finance.SecondFactor.Login.{verify_login_recovery, verify_login_totp, finish}
use my_finance.SecondFactor.Totp.{
  Hashing, validate_totp, try_steps, totp_at, padded, big_endian, Accepts,
}
use my_finance.SecondFactor.Accepted.{validate_totp-Accepts}
use my_finance.SecondFactor.Once.{here, totp, verify_login_totp-once}
use my_finance.SecondFactor.Served.{LoggedIn}

abbrev key : List ℕ
key = 1 ∷ 2 ∷ 3 ∷ 4 ∷ 5 ∷ 6 ∷ 7 ∷ 8 ∷ 9 ∷ 10 ∷ 11 ∷ 12 ∷ 13 ∷ 14 ∷ 15 ∷ 16 ∷ []

abbrev last_byte : List ℕ → ℕ
last_byte [] = 0
last_byte (b ∷ []) = b
last_byte (b ∷ c ∷ bs) = last_byte (c ∷ bs)

abbrev digest_byte : ℕ → ℕ → ℕ
digest_byte b i = if i == 3 then b else 0

abbrev hashing : Hashing
hashing = record {
  to_upper = λ t. t;
  base32 = λ t. some key;
  hmac = λ k m i. digest_byte (last_byte m) i;
}

-- At 95 seconds the step is 3.
validated : validate_totp hashing (codes "secret") (codes " 000002") 95 (negsuc 0) ≡ some (pos 2)
unfolding validate_totp try_steps totp_at padded big_endian trim_space trim_left trim_right is_space
    len text_eq ◌+ℤ◌
validated = refl

abbrev outside : ℕ → ℕ → Outside
outside now session = record {
  hashing = hashing;
  token_hash = last_byte;
  sha256 = last_byte;
  decrypt = λ c. some (codes "secret");
  session_token = session;
  at_entry = now;
  at_check = now;
  at_failure = now;
  at_database = now;
  session_end = now + 1000;
}

abbrev challenge : ℕ → ℕ → Challenge
challenge id token = record {
  id = id;
  user = 1;
  token = token;
  expires_at = 400;
  attempts = 0;
  consumed = false;
}

abbrev world : World
world = record {
  limiter = new_limiter 5 900;
  vault = record {
    credentials = record { user = 1; cipher = 7; enabled = true; last = negsuc 0 } ∷ [];
    codes = [];
    challenges = challenge 10 49 ∷ challenge 11 50 ∷ [];
    sessions = [];
    audits = [];
  };
}

abbrev early_request : Option LoginRequest
early_request =
    some
      (record { token = codes "0000000000000000000000000000000000000001"; code = codes "000002" })

abbrev late_request : Option LoginRequest
late_request =
    some
      (record { token = codes "0000000000000000000000000000000000000002"; code = codes "000004" })

abbrev after_early : World
after_early = (verify_login_totp (outside 95 20) 3 early_request world).1

-- The same code once more, under the other challenge, is refused.
abbrev refused : World
refused =
    (verify_login_totp (outside 99 21) 3
      (some (record {
        token = codes "0000000000000000000000000000000000000002";
        code = codes "000002";
      }))
      after_early).1

early : verify_login_totp (outside 95 20) 3 early_request world ≡ (success 200 1, after_early)
unfolding verify_login_totp allowed find keep get_challenge validate_totp try_steps totp_at padded
    big_endian trim_space trim_left trim_right is_space len text_eq ◌+ℤ◌ finish create_session any
    succeeded failed
early = refl

late :
    verify_login_totp (outside 130 22) 4 late_request refused
    ≡ (success 200 1, (verify_login_totp (outside 130 22) 4 late_request refused).1)
unfolding verify_login_totp allowed find keep get_challenge validate_totp try_steps totp_at padded
    big_endian trim_space trim_left trim_right is_space len text_eq ◌+ℤ◌ finish create_session any
    succeeded failed
late = refl

validate_totp-Accepts_example :
    ((step : ℤ)
      → validate_totp hashing (codes "secret") (codes "000002") 95 (negsuc 0) ≡ some step
      → Accepts hashing (codes "secret") (codes "000002") 95 (negsuc 0) step)
    × ((step : ℤ)
        → Accepts hashing (codes "secret") (codes "000002") 95 (negsuc 0) step
        → is_some (validate_totp hashing (codes "secret") (codes "000002") 95 (negsuc 0)) ≡ true)
validate_totp-Accepts_example =
    validate_totp-Accepts hashing (codes "secret") (codes "000002") 95 (negsuc 0)

verify_login_totp-once_example :
    (first : LoggedIn (outside 95 20) early_request world 1 after_early) × (second : LoggedIn
      (outside 130 22)
      late_request
      refused
      1
      (verify_login_totp (outside 130 22) 4 late_request refused).1)
    × (second.credential.cipher ≡ first.credential.cipher)
    × (ltb_ℤ first.step second.step ≡ true)
verify_login_totp-once_example =
    verify_login_totp-once (outside 95 20) (outside 130 22) 3 4 early_request late_request world
      after_early refused (verify_login_totp (outside 130 22) 4 late_request refused).1 200 200 1
      early (totp here (outside 99 21) 3 _) late

abbrev recovery_request : ℕ → LoginRequest
recovery_request n = record {
  token = codes "000000000000000000000000000000000000000" ++ (48 + n) ∷ [];
  code = codes "ABCD-EFGH-IJKL-MNOP";
}

abbrev with_codes : World
with_codes = record world {
  vault = record world.vault {
    codes =
        record { id = 5; user = 1; hash = 79; used = false }
        ∷ record { id = 6; user = 1; hash = 80; used = false }
        ∷ [];
  };
}

abbrev recovered : World
recovered = (verify_login_recovery (outside 95 20) 3 (some (recovery_request 1)) with_codes).1

recovering :
    verify_login_recovery (outside 95 20) 3 (some (recovery_request 1)) with_codes
    ≡ (success 200 1, recovered)
unfolding verify_login_recovery allowed find keep get_challenge trim_space trim_left trim_right
    is_space len finish create_session any succeeded failed
recovering = refl

abbrev refused_code : World
refused_code = (verify_login_recovery (outside 130 22) 4 (some (recovery_request 2)) recovered).1

verify_login_recovery-spent_example :
    verify_login_recovery (outside 130 22) 4 (some (recovery_request 2)) recovered
    ≢ (success 200 1, refused_code)
unfolding AreUnique any
verify_login_recovery-spent_example =
    verify_login_recovery-spent (outside 95 20) (outside 130 22) 3 4 (recovery_request 1)
      (recovery_request 2) with_codes recovered recovered refused_code 200 200 1 (refl, (refl, tt))
      recovering here refl
