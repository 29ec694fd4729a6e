-- ===== src/SecondFactor.antt =====
-- The second factor of a login: what internal/httpapi/second_factor_login.go reads and writes, with
-- the statements of internal/database/identity.sql.go. Keys of clients, hashes, ciphertexts and
-- session tokens are only compared, so they are numbers; a reply of success is the user's id. A user's
-- names and the metadata of an audit event are not kept.
pub mod Totp
pub mod Accepted
pub mod Login
pub mod Served
pub mod Moves
pub mod Once
pub mod Spent
use my_finance.Common.{
  ℕ, ◌+◌, Bool, true, false, not, ◌&&◌, ◌||◌, Option, none, some, List, [], ◌∷◌, map, any, find,
  ltb, ◌==◌, if◌then◌else◌,
}
use my_finance.Common.Int.{ℤ, ltb_ℤ}
use my_finance.Text.{Text, trim_space, len}
use my_finance.Errors.{Result, ok, err, unique_violation}
use my_finance.RateLimit.{Limiter}
use my_finance.SecondFactor.Totp.{Hashing}

-- A row of `totp_credentials`
pub record Credential : Type 0 where
  pub user : ℕ
  pub cipher : ℕ
  pub enabled : Bool
  pub last : ℤ

-- A row of `recovery_codes`
pub record RecoveryCode : Type 0 where
  pub id : ℕ
  pub user : ℕ
  pub hash : ℕ
  pub used : Bool

-- A row of `login_challenges`
pub record Challenge : Type 0 where
  pub id : ℕ
  pub user : ℕ
  pub token : ℕ
  pub expires_at : ℕ
  pub attempts : ℕ
  pub consumed : Bool

-- A row of `sessions`
pub record Session : Type 0 where
  pub user : ℕ
  pub token : ℕ
  pub expires_at : ℕ

pub data Event : Type 0 where
  login_totp login_recovery login_with_totp login_with_recovery : Event

-- A row of `auth_audit_events`
pub record Audit : Type 0 where
  pub user : ℕ
  pub event : Event
  pub passed : Bool

pub record Vault : Type 0 where
  pub credentials : List Credential
  pub codes : List RecoveryCode
  pub challenges : List Challenge
  pub sessions : List Session
  pub audits : List Audit

pub record World : Type 0 where
  pub limiter : Limiter
  pub vault : Vault

-- What the handlers take from outside: the hash of tokens, SHA-256 of a text, the decryption of
-- a secret, the hash of the token that `NewSessionToken` makes, and the readings of the clock by the
-- limiter, by `ValidateTOTP`, after a failure, by PostgreSQL and for the new session's end.
pub record Outside : Type 0 where
  pub hashing : Hashing
  pub token_hash : Text → ℕ
  pub sha256 : Text → ℕ
  pub decrypt : ℕ → Option Text
  pub session_token : ℕ
  pub at_entry : ℕ
  pub at_check : ℕ
  pub at_failure : ℕ
  pub at_database : ℕ
  pub session_end : ℕ

-- `api.TOTPLoginRequest`, and `api.RecoveryLoginRequest` with its code.
pub record LoginRequest : Type 0 where
  pub token : Text
  pub code : Text

abbrev pub is_open : ℕ → ℕ → Challenge → Bool
is_open now token h = h.token == token && not h.consumed && ltb now h.expires_at && ltb h.attempts 5

abbrev pub enabled_for : ℕ → Credential → Bool
enabled_for user c = c.user == user && c.enabled

abbrev pub paired : Challenge → Option Credential → Option (Challenge × Credential)
paired h none = none
paired h (some c) = some (h, c)

abbrev pub with_credential : List Credential → Option Challenge → Option (Challenge × Credential)
with_credential cs none = none
with_credential cs (some h) = paired h (find (enabled_for h.user) cs)

-- `GetLoginChallengeForUpdate`; a token's hash and a credential's user are unique.
unfoldable pub get_challenge : ℕ → ℕ → Vault → Option (Challenge × Credential)
get_challenge now token v = with_credential v.credentials (find (is_open now token) v.challenges)

abbrev count_attempt : ℕ → Challenge → Challenge
count_attempt id h = if h.id == id then record h { attempts = h.attempts + 1 } else h

abbrev consume : ℕ → Challenge → Challenge
consume id h = if h.id == id then record h { consumed = true } else h

abbrev pub use_step : ℕ → ℤ → Credential → Credential
use_step user step c = if c.user == user && ltb_ℤ c.last step then record c { last = step } else c

abbrev pub use_code : ℕ → RecoveryCode → RecoveryCode
use_code id r = if r.id == id then record r { used = true } else r

-- `writeAuthAudit`
abbrev pub audit : ℕ → Event → Bool → Vault → Vault
audit user event passed v = record v {
  audits = record { user = user; event = event; passed = passed } ∷ v.audits;
}

-- `IncrementLoginChallengeAttempts`
abbrev pub increment_attempts : ℕ → Vault → Vault
increment_attempts id v = record v { challenges = map (count_attempt id) v.challenges }

-- `ConsumeLoginChallenge`
abbrev pub consume_challenge : ℕ → Vault → Vault
consume_challenge id v = record v { challenges = map (consume id) v.challenges }

-- `UpdateTOTPLastUsedStep`
abbrev pub update_last_step : ℕ → ℤ → Vault → Vault
update_last_step user step v = record v { credentials = map (use_step user step) v.credentials }

abbrev pub usable_code : ℕ → ℕ → RecoveryCode → Bool
usable_code user hash r = r.user == user && r.hash == hash && not r.used

-- `UseRecoveryCode`
abbrev pub use_recovery_code : ℕ → Vault → Vault
use_recovery_code id v = record v { codes = map (use_code id) v.codes }

abbrev pub has_token : ℕ → Session → Bool
has_token token s = s.token == token

-- `createSession`, with the key of the tokens.
unfoldable pub create_session : Outside → ℕ → Vault → Result Vault
create_session o user v =
    if any (has_token o.session_token) v.sessions
    then err unique_violation
    else ok (record v {
      sessions =
          record { user = user; token = o.session_token; expires_at = o.session_end } ∷ v.sessions;
    })

abbrev pub without : ℕ → Text → Text
without c [] = []
without c (d ∷ s) = if d == c then without c s else d ∷ without c s

-- `RecoveryCodeHash` of internal/auth/recovery.go; 45 is the dash.
abbrev pub recovery_code_hash : Outside → Text → ℕ
recovery_code_hash o code = o.sha256 (o.hashing.to_upper (without 45 (trim_space code)))
