-- ===== src/SecondFactor/Login.antt =====
-- `VerifyLoginTOTP` and `VerifyLoginRecoveryCode` of internal/httpapi/second_factor_login.go.
use my_finance.Common.{
  ℕ, Bool, true, false, not, ◌||◌, Option, none, some, find, ltb, ◌==◌, if◌then◌else◌,
}
use my_finance.Common.Int.{ℤ}
use my_finance.Text.{Text, trim_space, len}
use my_finance.Errors.{
  ok, err, Reply, success, failure, code_invalid_request, code_internal_error,
  code_login_rate_limited, code_invalid_login_challenge, code_invalid_totp_code,
  code_invalid_recovery_code,
}
use my_finance.RateLimit.{Limiter, allowed, failed, succeeded}
use my_finance.SecondFactor.{
  RecoveryCode, Credential, Challenge, Event, login_totp, login_recovery, login_with_totp,
  login_with_recovery, Vault, World, Outside, LoginRequest, get_challenge, audit,
  increment_attempts, consume_challenge, update_last_step, usable_code, use_recovery_code,
  create_session, recovery_code_hash,
}
use my_finance.SecondFactor.Totp.{validate_totp}

-- The end of both handlers: the session, the audit event, the commit and the limiter's reset.
unfoldable pub finish : Outside → ℕ → ℕ → Event → World → Vault → Reply ℕ × World
finish o client user event w v = elim (create_session o user v) [
  | err e ↦ (failure 500 code_internal_error, w)
  | ok v' ↦ (
    success 200 user,
    record { limiter = succeeded client w.limiter; vault = audit user event true v' },
  )
]

-- The case without a challenge.
abbrev pub no_challenge : Outside → ℕ → World → Reply ℕ × World
no_challenge o client w = (
  failure 401 code_invalid_login_challenge,
  record w { limiter = failed client o.at_failure w.limiter },
)

-- A wrong code: the attempt is counted and committed.
abbrev pub wrong_totp : Outside → ℕ → Challenge → World → Reply ℕ × World
wrong_totp o client h w = (
  failure 401 code_invalid_totp_code,
  record {
    limiter = failed client o.at_failure w.limiter;
    vault = audit h.user login_totp false (increment_attempts h.id w.vault);
  },
)

abbrev pub totp_decided : Outside → ℕ → Challenge → World → Option ℤ → Reply ℕ × World
totp_decided o client h w none = wrong_totp o client h w
totp_decided o client h w (some step) =
    finish o client h.user login_with_totp w
      (consume_challenge h.id (update_last_step h.user step w.vault))

abbrev pub totp_decrypted :
    Outside → ℕ → LoginRequest → Challenge → Credential → World → Option Text → Reply ℕ × World
totp_decrypted o client p h c w none = (failure 500 code_internal_error, w)
totp_decrypted o client p h c w (some secret) =
    totp_decided o client h w (validate_totp o.hashing secret p.code o.at_check c.last)

abbrev pub totp_challenged :
    Outside → ℕ → LoginRequest → World → Option (Challenge × Credential) → Reply ℕ × World
totp_challenged o client p w none = no_challenge o client w
totp_challenged o client p w (some (h, c)) = totp_decrypted o client p h c w (o.decrypt c.cipher)

abbrev pub totp_requested : Outside → ℕ → World → Option LoginRequest → Reply ℕ × World
totp_requested o client w none = (failure 400 code_invalid_request, w)
totp_requested o client w (some p) =
    if ltb (len p.token) 40 || not (len p.code == 6)
    then (failure 400 code_invalid_request, w)
    else totp_challenged o client p w (get_challenge o.at_database (o.token_hash p.token) w.vault)

-- The test of the limiter, which may drop a row that has run out.
abbrev pub limited : ℕ → World → (World → Reply ℕ × World) → Bool × Limiter → Reply ℕ × World
limited client w k r =
    if not r.0
    then (failure 429 code_login_rate_limited, record w { limiter = r.1 })
    else k (record w { limiter = r.1 })

-- `VerifyLoginTOTP`
unfoldable pub verify_login_totp : Outside → ℕ → Option LoginRequest → World → Reply ℕ × World
verify_login_totp o client body w =
    limited client w (λ w'. totp_requested o client w' body) (allowed client o.at_entry w.limiter)

abbrev pub wrong_recovery : Outside → ℕ → Challenge → World → Reply ℕ × World
wrong_recovery o client h w = (
  failure 401 code_invalid_recovery_code,
  record {
    limiter = failed client o.at_failure w.limiter;
    vault = audit h.user login_recovery false (increment_attempts h.id w.vault);
  },
)

abbrev pub recovery_decided :
    Outside → ℕ → Challenge → World → Option RecoveryCode → Reply ℕ × World
recovery_decided o client h w none = wrong_recovery o client h w
recovery_decided o client h w (some r) =
    finish o client h.user login_with_recovery w
      (consume_challenge h.id (use_recovery_code r.id w.vault))

abbrev pub recovery_challenged :
    Outside → ℕ → LoginRequest → World → Option (Challenge × Credential) → Reply ℕ × World
recovery_challenged o client p w none = no_challenge o client w
recovery_challenged o client p w (some (h, c)) =
    recovery_decided o client h w
      (find (usable_code h.user (recovery_code_hash o p.code)) w.vault.codes)

abbrev pub recovery_requested : Outside → ℕ → World → Option LoginRequest → Reply ℕ × World
recovery_requested o client w none = (failure 400 code_invalid_request, w)
recovery_requested o client w (some p) =
    if ltb (len p.token) 40 || ltb (len (trim_space p.code)) 16
    then (failure 400 code_invalid_request, w)
    else recovery_challenged o client p w
        (get_challenge o.at_database (o.token_hash p.token) w.vault)

-- `VerifyLoginRecoveryCode`
unfoldable pub verify_login_recovery : Outside → ℕ → Option LoginRequest → World → Reply ℕ × World
verify_login_recovery o client body w =
    limited client w (λ w'. recovery_requested o client w' body)
      (allowed client o.at_entry w.limiter)
