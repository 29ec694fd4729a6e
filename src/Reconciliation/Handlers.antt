-- ===== src/Reconciliation/Handlers.antt =====
-- `PrepareReconciliation` and `ConfirmReconciliation` of internal/httpapi/reconciliation.go. `now` is
-- the clock in seconds, and `today` the date that it is in the user's time zone, `none` where
-- `time.LoadLocation` refuses the zone.
pub mod Confirm
use my_finance.Common.{
  ℕ, ◌+◌, Bool, true, false, not, ◌&&◌, ◌||◌, Option, none, some, List, [], ◌∷◌, map, ltb, ◌==◌,
  if◌then◌else◌, option_eq, any, find,
}
use my_finance.Text.{Text, text_eq}
use my_finance.Calendar.{Date}
use my_finance.Money.{Amount, parse, to_string, negate, add}
use my_finance.Errors.{
  Error, Result, ok, err, Reply, success, failure, no_rows, fx_unavailable, not_found,
  preview_stale, preview_expired, unique_violation, numeric_overflow, time_zone,
  code_unauthenticated, code_invalid_request, code_validation_failed,
}
use my_finance.Tx.{Tx, pure, lift, reads, or_fail, ◌>>=◌, ◌>>◌, require, commit_or_rollback}
use my_finance.Ledger.State.{User, Account, Ledger}
use my_finance.Ledger.Operation.{user_is}
use my_finance.Reconciliation.Period.{validate_period, gap_months, age_gap}
use my_finance.Reconciliation.State.{
  Books, Preview, Reconciliation, lock_account, account_balance_at, active_reconciliation,
  previous_period, reconciliation_by_key, reconciliation_by_id, preview_by_key, lock_preview,
  preview_is,
}
use my_finance.Reconciliation.Apply.{Request, apply_reconciliation, known_or, fits}

-- `amountStringsEqual`
abbrev both_equal : Option Amount → Option Amount → Bool
both_equal none b = false
both_equal (some a) none = false
both_equal (some a) (some b) = text_eq (to_string a) (to_string b)

unfoldable pub amount_strings_equal : Text → Text → Bool
amount_strings_equal left right = both_equal (parse left) (parse right)

-- `api.PrepareReconciliationRequest`
pub record Prepare : Type 0 where
  pub account : ℕ
  pub period_end : Date
  pub reported : Text
  pub key : ℕ

pub data Outcome : Type 0 where
  applied : Reconciliation → Outcome
  preview : Preview → Outcome

abbrev same_preview : Preview → Preview → Bool
same_preview p q = q.id == p.id || (q.user == p.user && q.key == p.key)

-- `INSERT INTO reconciliation_previews`; its foreign keys hold, the ids are those just read.
unfoldable pub insert_preview : Preview → Tx Books (Unit {0})
insert_preview p b =
    if not (fits p.reported && fits p.ledger && fits p.difference)
    then err numeric_overflow
    else if any (same_preview p) b.previews
    then err unique_violation
    else ok (tt, record b { previews = p ∷ b.previews })

abbrev pub preview_of : ℕ → ℕ → Request → Preview
preview_of id now q = record {
  id = id;
  user = q.user;
  account = q.account.id;
  period_end = q.period_end;
  reported = q.reported;
  ledger = q.balance;
  difference = add q.reported (negate q.balance);
  key = q.key;
  current = q.current;
  confirmed = none;
  expires_at = now + 900;
}

-- The two modes of reconciliation.
abbrev pub submit : (ℕ → ℕ → ℕ) → (ℕ → ℕ) → ℕ → Bool → Request → Tx Books Outcome
submit sha1 new now true q = apply_reconciliation sha1 new q >>= λ r. pure (applied r)
submit sha1 new now false q =
    insert_preview (preview_of (new 3) now q) >> pure (preview (preview_of (new 3) now q))

abbrev pub request_for : ℕ → Account → Date → Amount → ℕ → Books → Request
request_for user account period_end reported key b = record {
  user = user;
  account = account;
  period_end = period_end;
  reported = reported;
  balance = account_balance_at user account.id period_end b.ledger;
  current = active_reconciliation user account.id period_end b.reconciliations;
  key = key;
  gap = gap_months (previous_period user account.id period_end b.reconciliations) period_end;
}

-- The rest of `PrepareReconciliation`, where the key is new.
abbrev pub prepare_new : (ℕ → ℕ → ℕ) → (ℕ → ℕ) → ℕ → User → Prepare → Amount → Tx Books Outcome
prepare_new sha1 new now u p reported = do
  account ← reads (lock_account u.id p.account)
  require (account.currency == u.functional_currency) fx_unavailable
  q ← reads (λ (b : Books). ok (request_for u.id account p.period_end reported p.key b))
  submit sha1 new now u.auto_mode q

abbrev seen_applied : Option Reconciliation → Option Outcome
seen_applied none = none
seen_applied (some r) = some (applied r)

abbrev seen_preview : Option Preview → Option Outcome
seen_preview none = none
seen_preview (some p) = some (preview p)

-- The transaction of `PrepareReconciliation`.
unfoldable pub prepare_tx :
    (ℕ → ℕ → ℕ) → (ℕ → ℕ) → ℕ → Option Date → ℕ → Prepare → Amount → Tx Books Outcome
prepare_tx sha1 new now today user p reported = do
  u ← reads (λ (b : Books). or_fail (find (user_is user) b.ledger.users) no_rows)
  local ← lift (or_fail today time_zone)
  lift (validate_period local p.period_end)
  existing ← reads (λ (b : Books). ok (reconciliation_by_key user p.key b))
  previewed ← reads (λ (b : Books). ok (preview_by_key user p.key b))
  known_or (seen_applied existing)
      (known_or (seen_preview previewed) (prepare_new sha1 new now u p reported))

abbrev pub prepare_parsed :
    (ℕ → ℕ → ℕ)
    → (ℕ → ℕ)
    → ℕ
    → Option Date
    → ℕ
    → Prepare
    → Option Amount
    → Books
    → Reply Outcome × Books
prepare_parsed sha1 new now today user p none b = (failure 400 code_validation_failed, b)
prepare_parsed sha1 new now today user p (some reported) b =
    commit_or_rollback 200 (prepare_tx sha1 new now today user p reported) b

-- `PrepareReconciliation`
unfoldable pub prepare_reconciliation :
    (ℕ → ℕ → ℕ)
    → (ℕ → ℕ)
    → ℕ
    → Option Date
    → Option ℕ
    → Option Prepare
    → Books
    → Reply Outcome × Books
prepare_reconciliation sha1 new now today none body b = (failure 401 code_unauthenticated, b)
prepare_reconciliation sha1 new now today (some user) none b = (failure 400 code_invalid_request, b)
prepare_reconciliation sha1 new now today (some user) (some p) b =
    prepare_parsed sha1 new now today user p (parse p.reported) b

abbrev confirm_if : ℕ → ℕ → ℕ → Preview → Preview
confirm_if id user r p = if preview_is id user p then record p { confirmed = some r } else p

-- The UPDATE of the preview.
unfoldable pub mark_confirmed : ℕ → ℕ → ℕ → Tx Books (Unit {0})
mark_confirmed id user r b = ok (tt, record b { previews = map (confirm_if id user r) b.previews })

abbrev pub confirm_request : (Date → Date → ℕ) → Preview → Account → Books → Request
confirm_request age p account b = record {
  user = p.user;
  account = account;
  period_end = p.period_end;
  reported = p.reported;
  balance = account_balance_at p.user account.id p.period_end b.ledger;
  current = active_reconciliation p.user account.id p.period_end b.reconciliations;
  key = p.key;
  gap = age_gap age (previous_period p.user p.account p.period_end b.reconciliations) p.period_end;
}

-- The rest of `ConfirmReconciliation`, for a preview that is not confirmed.
unfoldable pub confirm_open :
    (Date → Date → ℕ) → (ℕ → ℕ → ℕ) → (ℕ → ℕ) → ℕ → Preview → Tx Books Reconciliation
confirm_open age sha1 new now p = do
  require (not (ltb p.expires_at now)) preview_expired
  account ← reads (lock_account p.user p.account)
  q ← reads (λ (b : Books). ok (confirm_request age p account b))
  require
      (amount_strings_equal (to_string q.balance) (to_string p.ledger)
        && option_eq q.current p.current)
      preview_stale
  r ← apply_reconciliation sha1 new q
  mark_confirmed p.id p.user r.id
  pure r

abbrev pub confirm_preview :
    (Date → Date → ℕ) → (ℕ → ℕ → ℕ) → (ℕ → ℕ) → ℕ → Preview → Option ℕ → Tx Books Reconciliation
confirm_preview age sha1 new now p none = confirm_open age sha1 new now p
confirm_preview age sha1 new now p (some id) = reads (reconciliation_by_id p.user id)

-- The transaction of `ConfirmReconciliation`.
unfoldable pub confirm_tx :
    (Date → Date → ℕ) → (ℕ → ℕ → ℕ) → (ℕ → ℕ) → ℕ → ℕ → ℕ → Tx Books Reconciliation
confirm_tx age sha1 new now user id = do
  p ← reads (lock_preview user id)
  confirm_preview age sha1 new now p p.confirmed

-- `ConfirmReconciliation`
unfoldable pub confirm_reconciliation :
    (Date → Date → ℕ)
    → (ℕ → ℕ → ℕ)
    → (ℕ → ℕ)
    → ℕ
    → Option ℕ
    → ℕ
    → Books
    → Reply Reconciliation × Books
confirm_reconciliation age sha1 new now none id b = (failure 401 code_unauthenticated, b)
confirm_reconciliation age sha1 new now (some user) id b =
    commit_or_rollback 201 (confirm_tx age sha1 new now user id) b
