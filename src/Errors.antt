-- ===== src/Errors.antt =====
-- Errors of internal/httpapi as values, and the reply that `writeLedgerError` makes of each.
use my_finance.Common.{ℕ}

-- The messages behind `errLedgerValidation` and `errLedgerConflict`.
pub data Reason : Type 0 where
  unknown_operation_type amount_not_positive bad_description account_missing category_missing :
      Reason
  income_requires_asset expense_requires_asset same_account transfer_requires_assets : Reason
  two_entries_required account_archived category_archived : Reason
  reversal_of_reversal already_reversed key_not_posted : Reason
  bad_frequency bad_interval end_before_start unsupported_recurring : Reason
  inactive_asset_account inactive_category not_month_end future_month : Reason
  bad_template_name bad_template_status : Reason
  inactive_asset_choice bad_funding_account asset_archived older_valuation : Reason

pub data Error : Type 0 where
  -- `errLedgerNotFound`, `errFXUnavailable`, `errReconciliationStale`, `errPreviewExpired`
  not_found fx_unavailable preview_stale preview_expired : Error
  validation conflict : Reason → Error
  -- `money.ErrInvalidAmount`, and `pgx.ErrNoRows` where no case of the code handles it
  -- The last two are the errors of `getTransaction` and of `time.LoadLocation` that have no name.
  invalid_amount no_rows no_user_account time_zone : Error
  -- `currency_locked` stands for the reply that `UpdateAccount` writes itself,
  currency_locked : Error
  -- and these for those that `UpdateRecurringTemplate` writes itself.
  template_archived template_completed : Error
  -- PostgreSQL's 23505, 55000, 23514, 23503 and 22003
  unique_violation immutable check_violation foreign_key_violation numeric_overflow : Error

pub data Result {ℓ} (A : Type ℓ) : Type ℓ where
  ok : A → Result A
  err : Error → Result A

pub data Code : Type 0 where
  code_preview_stale code_preview_expired code_not_found code_fx_rate_unavailable : Code
  code_duplicate_resource code_immutable_ledger code_internal_error : Code
  code_validation_failed code_ledger_conflict : Code
  code_invalid_request code_empty_update code_account_currency_locked code_unauthenticated : Code
  code_template_archived code_template_completed : Code
  code_login_rate_limited code_invalid_login_challenge code_invalid_totp_code : Code
  code_invalid_recovery_code : Code

-- What a handler writes: a payload with a status of success, or a status with an error code.
pub data Reply (A : Type 0) : Type 0 where
  success : ℕ → A → Reply A
  failure : ℕ → Code → Reply A

-- `writeLedgerError`, after `writeReconciliationError`
pub write_ledger_error : {A : Type 0} → Error → Reply A
write_ledger_error preview_stale = failure 409 code_preview_stale
write_ledger_error preview_expired = failure 409 code_preview_expired
write_ledger_error not_found = failure 404 code_not_found
write_ledger_error fx_unavailable = failure 409 code_fx_rate_unavailable
write_ledger_error (validation r) = failure 400 code_validation_failed
write_ledger_error (conflict r) = failure 409 code_ledger_conflict
write_ledger_error unique_violation = failure 409 code_duplicate_resource
write_ledger_error immutable = failure 409 code_immutable_ledger
write_ledger_error currency_locked = failure 409 code_account_currency_locked
write_ledger_error template_archived = failure 409 code_template_archived
write_ledger_error template_completed = failure 409 code_template_completed
write_ledger_error invalid_amount = failure 500 code_internal_error
write_ledger_error no_rows = failure 500 code_internal_error
write_ledger_error no_user_account = failure 500 code_internal_error
write_ledger_error time_zone = failure 500 code_internal_error
write_ledger_error check_violation = failure 500 code_internal_error
write_ledger_error foreign_key_violation = failure 500 code_internal_error
write_ledger_error numeric_overflow = failure 500 code_internal_error
