-- ===== src/SecondFactor/Served.antt =====
-- What a request of internal/httpapi/second_factor_login.go has done where it succeeds.
use my_finance.Common.{
  ℕ, ◌≡◌, refl, sym, ap, ◌∙◌, inl, inr, Bool, true, false, not, ◌||◌, Option, none, some, List, map,
  find, ltb, ◌==◌, if◌then◌else◌, Bool-cases, some_path, arith,
}
use my_finance.Common.Int.{ℤ}
use my_finance.Errors.{Reply, success, failure, code_invalid_request}
use my_finance.RateLimit.{Limiter, allowed}
use my_finance.Text.{Text, len}
use my_finance.SecondFactor.{
  Credential, Challenge, Event, Vault, World, Outside, LoginRequest, get_challenge, enabled_for,
  use_step, create_session, with_credential, paired,
}
use my_finance.SecondFactor.Login.{
  finish, totp_decided, totp_decrypted, totp_challenged, totp_requested, verify_login_totp, limited,
}
use my_finance.SecondFactor.Totp.{validate_totp, Accepts}
use my_finance.SecondFactor.Accepted.{validate_totp-Accepts}

-- The part of the tables that replays are about.
pub record Same (v v' : Vault) : Type 0 where
  pub credentials : v'.credentials ≡ v.credentials
  pub codes : v'.codes ≡ v.codes

-- A login with a code: the challenge, the credential and the step it uses.
pub record LoggedIn (o : Outside) (body : Option LoginRequest) (w : World) (user : ℕ) (w' : World)
    : Type 0 where
  pub request : LoginRequest
  pub credential : Credential
  pub secret : Text
  pub step : ℤ
  pub asked : body ≡ some request
  pub found : find (enabled_for user) w.vault.credentials ≡ some credential
  pub opened : o.decrypt credential.cipher ≡ some secret
  pub accepted : Accepts o.hashing secret request.code o.at_check credential.last step
  pub moved : w'.vault.credentials ≡ map (use_step user step) w.vault.credentials
  pub codes_kept : w'.vault.codes ≡ w.vault.codes

pub finish-success :
    (o : Outside) (client user : ℕ) (event : Event) (w w' : World) (v : Vault) (st u : ℕ)
    → finish o client user event w v ≡ (success st u, w')
    → (u ≡ user) × Same v w'.vault
unfolding finish create_session
finish-success o client user event w w' v st u h =
    (ground arith, record { credentials = ground arith; codes = ground arith })

-- What each part of the handler passes on where it succeeds.
module _ (o : Outside) (client : ℕ) (p : LoginRequest) (w w' : World) (st u : ℕ) where
  decided-LoggedIn :
      (h : Challenge) (c : Credential) (secret : Text) (step : Option ℤ)
      → validate_totp o.hashing secret p.code o.at_check c.last ≡ step
      → find (enabled_for h.user) w.vault.credentials ≡ some c
      → o.decrypt c.cipher ≡ some secret
      → totp_decided o client h w step ≡ (success st u, w')
      → LoggedIn o (some p) w u w'
  decided-LoggedIn h c secret none valid found opened e = ground arith
  decided-LoggedIn h c secret (some step) valid found opened e =
      let (same, kept) = finish-success o client h.user _ w w' _ st u e in
      record {
        request = p;
        credential = c;
        secret = secret;
        step = step;
        asked = refl;
        found = rw same found;
        opened = opened;
        accepted = (validate_totp-Accepts o.hashing secret p.code o.at_check c.last).0 step valid;
        moved = rw same kept.credentials;
        codes_kept = kept.codes;
      }

  challenged-LoggedIn :
      (x : Option (Challenge × Credential))
      → ((h : Challenge) (c : Credential)
          → x ≡ some (h, c)
          → find (enabled_for h.user) w.vault.credentials ≡ some c)
      → totp_challenged o client p w x ≡ (success st u, w')
      → LoggedIn o (some p) w u w'
  challenged-LoggedIn none found e = ground arith
  challenged-LoggedIn (some (h, c)) found e = go (o.decrypt c.cipher) refl e
    where
      go :
          (d : Option Text)
          → o.decrypt c.cipher ≡ d
          → totp_decrypted o client p h c w d ≡ (success st u, w')
          → LoggedIn o (some p) w u w'
      go none hd k = ground arith
      go (some secret) hd k = decided-LoggedIn h c secret _ refl (found h c refl) hd k

with_credential-found :
    (cs : List Credential) (x : Option Challenge) (h : Challenge) (c : Credential)
    → with_credential cs x ≡ some (h, c)
    → find (enabled_for h.user) cs ≡ some c
with_credential-found cs none h c e = cc
with_credential-found cs (some k) h c e = go (find (enabled_for k.user) cs) refl e
  where
    go :
        (x : Option Credential)
        → find (enabled_for k.user) cs ≡ x
        → paired k x ≡ some (h, c)
        → find (enabled_for h.user) cs ≡ some c
    go none hx q = ground arith
    go (some d) hx q =
        let same = some_path q in
        ap (λ (y : Challenge × Credential). find (enabled_for y.0.user) cs) (sym same)
        ∙ hx
        ∙ ap (λ (y : Challenge × Credential). some y.1) same

pub limited-success :
    (client : ℕ) (w w' : World) (k : World → Reply ℕ × World) (r : Bool × Limiter) (st u : ℕ)
    → limited client w k r ≡ (success st u, w')
    → k (record w { limiter = r.1 }) ≡ (success st u, w')
limited-success client w w' k (true, l) st u h = h
limited-success client w w' k (false, l) st u h = ground arith

requested-LoggedIn :
    (o : Outside) (client : ℕ) (w w' : World) (body : Option LoginRequest) (st u : ℕ)
    → totp_requested o client w body ≡ (success st u, w')
    → LoggedIn o body w u w'
unfolding get_challenge
requested-LoggedIn o client w w' none st u h = ground arith
requested-LoggedIn o client w w' (some p) st u h =
    elim (Bool-cases (ltb (len p.token) 40 || not (len p.code == 6))) [
      | inl bad ↦ ground arith
      | inr good ↦
          challenged-LoggedIn o client p w w' st u
            (get_challenge o.at_database (o.token_hash p.token) w.vault)
            (λ g c e. with_credential-found w.vault.credentials _ g c e)
            (ap
                (λ b.
                  if b
                  then (failure 400 code_invalid_request, w)
                  else totp_challenged o client p w
                      (get_challenge o.at_database (o.token_hash p.token) w.vault))
                (sym good)
              ∙ h)
    ]

pub verify_login_totp-LoggedIn :
    (o : Outside) (client : ℕ) (body : Option LoginRequest) (w w' : World) (st u : ℕ)
    → verify_login_totp o client body w ≡ (success st u, w')
    → LoggedIn o body w u w'
unfolding verify_login_totp allowed
verify_login_totp-LoggedIn o client body w w' st u h =
    let r = allowed client o.at_entry w.limiter in
    let l =
      requested-LoggedIn o client (record w { limiter = r.1 }) w' body st u
        (limited-success client w w' (λ v. totp_requested o client v body) r st u h) in
    record {
      request = l.request;
      credential = l.credential;
      secret = l.secret;
      step = l.step;
      asked = l.asked;
      found = l.found;
      opened = l.opened;
      accepted = l.accepted;
      moved = l.moved;
      codes_kept = l.codes_kept;
    }
