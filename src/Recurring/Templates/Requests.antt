-- ===== src/Recurring/Templates/Requests.antt =====
-- `CreateRecurringTemplate` of internal/httpapi/recurring.go. A request without a session is `none`, and
-- so is a body that `readJSON` refuses.
pub mod Update
use my_finance.Common.{
  ℕ, Bool, true, false, not, ◌&&◌, ◌||◌, Option, none, some, map, ltb, ◌==◌, if◌then◌else◌, is_some,
  find,
}
use my_finance.Text.{Text, trim_space, len}
use my_finance.Calendar.{Date, after}
use my_finance.Money.{Amount}
use my_finance.Errors.{
  Result, ok, err, Reply, failure, not_found, check_violation, numeric_overflow, end_before_start,
  validation, bad_template_name, bad_template_status, template_archived, template_completed,
  code_empty_update,
}
use my_finance.Tx.{Tx, pure, lift, reads, or_fail, ◌>>=◌, ◌>>◌, require, commit_or_rollback}
use my_finance.Ledger.Operation.{
  OperationType, opening_balance, unknown_operation, positive_amount, optional_description,
}
use my_finance.Ledger.Accounts.{ensure_ledger_infrastructure}
use my_finance.Ledger.Handlers.{on_request, then_read}
use my_finance.Ledger.Handlers.Changes.{or_old, bad_name}
use my_finance.Recurring.Schedule.{Frequency, IntervalUnit, Schedule, normalize, ends_before}
use my_finance.Recurring.Dependencies.{validate_dependencies}
use my_finance.Recurring.Templates.{
  Status, active, paused, PauseReason, by_user, by_archiving, Template, TemplateView, Plans,
  on_ledger, template_is, template_ok, fits, insert_template, get_template,
}

-- `api.CreateRecurringTemplateRequest`
pub record CreateTemplate : Type 0 where
  pub name : Text
  pub kind : OperationType
  pub amount : Text
  pub description : Option Text
  pub account : Option ℕ
  pub category : Option ℕ
  pub source : Option ℕ
  pub destination : Option ℕ
  pub frequency : Frequency
  pub unit : Option IntervalUnit
  pub count : Option ℕ
  pub start : Date
  pub end_date : Option Date

abbrev pub template_row : ℕ → ℕ → CreateTemplate → Schedule → Amount → Option Text → ℕ → Template
template_row id user p schedule amount description currency = record {
  id = id;
  user = user;
  name = trim_space p.name;
  kind = p.kind;
  amount = amount;
  currency = currency;
  description = description;
  account = p.account;
  category = p.category;
  source = p.source;
  destination = p.destination;
  frequency = schedule.frequency;
  unit = schedule.unit;
  count = schedule.count;
  start = schedule.start;
  next = schedule.start;
  end_date = schedule.end_date;
  status = active;
  pause_reason = none;
  archived = false;
}

-- `payload.Type.Valid()`: the types of `api.RecurringOperationType`.
abbrev pub is_recurring : OperationType → Bool
is_recurring opening_balance = false
is_recurring unknown_operation = false
is_recurring k = true

abbrev pub trimmed_refused : Text → Bool
trimmed_refused name = len (trim_space name) == 0 || ltb 100 (len (trim_space name))

-- The tests of `CreateRecurringTemplate` and its transaction.
unfoldable pub create_template_tx : (Text → Text) → (ℕ → ℕ) → ℕ → CreateTemplate → Tx Plans ℕ
create_template_tx lower new user p = do
  schedule ← lift (normalize p.frequency p.unit p.count p.start p.end_date)
  amount ← lift (positive_amount p.amount)
  require (not (trimmed_refused p.name) && is_recurring p.kind) (validation bad_template_name)
  description ← lift (optional_description p.description)
  infrastructure ← on_ledger (ensure_ledger_infrastructure lower new user)
  currency ←
      on_ledger (validate_dependencies user p.kind p.account p.category p.source p.destination)
  insert_template (template_row (new 8) user p schedule amount description currency)
  pure (new 8)

-- `CreateRecurringTemplate`
unfoldable pub create_template :
    (Text → Text) → (ℕ → ℕ) → Option ℕ → Option CreateTemplate → Plans → Reply TemplateView × Plans
create_template lower new session body = on_request session body λ user p s.
    then_read (get_template user) (commit_or_rollback 201 (create_template_tx lower new user p) s)
