-- ===== src/SecondFactor/Moves.antt =====
-- What a request of internal/httpapi/second_factor_login.go may do to the credentials and the recovery
-- codes.
use my_finance.Common.{
  ℕ, ◌≡◌, refl, ◌⊎◌, inl, inr, Bool, true, false, Option, none, some, map, any, if◌then◌else◌,
  Bool-cases, arith,
}
use my_finance.Common.Int.{ℤ}
use my_finance.Errors.{failure, code_invalid_request}
use my_finance.RateLimit.{Limiter, allowed}
use my_finance.Text.{Text}
use my_finance.SecondFactor.{
  Credential, RecoveryCode, Challenge, Event, Vault, World, Outside, LoginRequest, use_step,
  use_code, create_session, has_token,
}
use my_finance.SecondFactor.Login.{
  finish, totp_decided, totp_decrypted, totp_challenged, totp_requested, verify_login_totp, limited,
  recovery_decided, recovery_challenged, recovery_requested, verify_login_recovery,
}
use my_finance.SecondFactor.Served.{Same}

-- What a request may do to the credentials and the recovery codes.
pub data Moves (v v' : Vault) : Type 0 where
  stays : Same v v' → Moves v v'
  uses :
      (user : ℕ) (step : ℤ)
      → v'.credentials ≡ map (use_step user step) v.credentials
      → v'.codes ≡ v.codes
      → Moves v v'
  spends :
      (id : ℕ) → v'.credentials ≡ v.credentials → v'.codes ≡ map (use_code id) v.codes → Moves v v'

as_it_was : {v : Vault} → Same v v
as_it_was = record { credentials = refl; codes = refl }

finish-Same :
    (o : Outside) (client user : ℕ) (event : Event) (w : World) (v : Vault)
    → Same w.vault (finish o client user event w v).1.vault
      ⊎ Same v (finish o client user event w v).1.vault
unfolding finish create_session
finish-Same o client user event w v =
    elim (Bool-cases (any (has_token o.session_token) v.sessions)) [
      | inl taken ↦ inl (record { credentials = ground arith; codes = ground arith })
      | inr free ↦ inr (record { credentials = ground arith; codes = ground arith })
    ]

pub totp-Moves :
    (o : Outside) (client : ℕ) (body : Option LoginRequest) (w : World)
    → Moves w.vault (verify_login_totp o client body w).1.vault
unfolding verify_login_totp
totp-Moves o client body w = outer (allowed client o.at_entry w.limiter)
  where
    decided :
        (h : Challenge) (x : World) (step : Option ℤ)
        → Moves x.vault (totp_decided o client h x step).1.vault
    decided h x none = stays (record { credentials = refl; codes = refl })
    decided h x (some step) = elim (finish-Same o client h.user _ x _) [
      | inl same ↦ stays same
      | inr moved ↦ uses h.user step moved.credentials moved.codes
    ]

    decrypted :
        (p : LoginRequest) (h : Challenge) (c : Credential) (x : World) (d : Option Text)
        → Moves x.vault (totp_decrypted o client p h c x d).1.vault
    decrypted p h c x none = stays as_it_was
    decrypted p h c x (some secret) = decided h x _

    challenged :
        (p : LoginRequest) (x : World) (y : Option (Challenge × Credential))
        → Moves x.vault (totp_challenged o client p x y).1.vault
    challenged p x none = stays as_it_was
    challenged p x (some (h, c)) = decrypted p h c x _

    chosen :
        (p : LoginRequest) (x : World) (y : Option (Challenge × Credential)) (b : Bool)
        → Moves x.vault
            (if b
              then (failure 400 code_invalid_request, x)
              else totp_challenged o client p x y).1.vault
    chosen p x y true = stays as_it_was
    chosen p x y false = challenged p x y

    requested :
        (x : World) (q : Option LoginRequest) → Moves x.vault (totp_requested o client x q).1.vault
    requested x none = stays as_it_was
    requested x (some p) = chosen p x _ _

    outer :
        (r : Bool × Limiter)
        → Moves w.vault (limited client w (λ x. totp_requested o client x body) r).1.vault
    outer (true, l) = requested (record w { limiter = l }) body
    outer (false, l) = stays as_it_was

pub recovery-Moves :
    (o : Outside) (client : ℕ) (body : Option LoginRequest) (w : World)
    → Moves w.vault (verify_login_recovery o client body w).1.vault
unfolding verify_login_recovery
recovery-Moves o client body w = outer (allowed client o.at_entry w.limiter)
  where
    decided :
        (h : Challenge) (x : World) (y : Option RecoveryCode)
        → Moves x.vault (recovery_decided o client h x y).1.vault
    decided h x none = stays (record { credentials = refl; codes = refl })
    decided h x (some y) = elim (finish-Same o client h.user _ x _) [
      | inl same ↦ stays same
      | inr moved ↦ spends y.id moved.credentials moved.codes
    ]

    challenged :
        (p : LoginRequest) (x : World) (y : Option (Challenge × Credential))
        → Moves x.vault (recovery_challenged o client p x y).1.vault
    challenged p x none = stays as_it_was
    challenged p x (some (h, c)) = decided h x _

    chosen :
        (p : LoginRequest) (x : World) (y : Option (Challenge × Credential)) (b : Bool)
        → Moves x.vault
            (if b
              then (failure 400 code_invalid_request, x)
              else recovery_challenged o client p x y).1.vault
    chosen p x y true = stays as_it_was
    chosen p x y false = challenged p x y

    requested :
        (x : World) (q : Option LoginRequest)
        → Moves x.vault (recovery_requested o client x q).1.vault
    requested x none = stays as_it_was
    requested x (some p) = chosen p x _ _

    outer :
        (r : Bool × Limiter)
        → Moves w.vault (limited client w (λ x. recovery_requested o client x body) r).1.vault
    outer (true, l) = requested (record w { limiter = l }) body
    outer (false, l) = stays as_it_was
