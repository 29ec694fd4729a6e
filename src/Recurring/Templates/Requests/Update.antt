-- ===== src/Recurring/Templates/Requests/Update.antt =====
-- `UpdateRecurringTemplate` of internal/httpapi/recurring.go.
use my_finance.Common.{
  ℕ, Bool, true, false, not, ◌&&◌, ◌||◌, Option, none, some, map, if◌then◌else◌, is_some, find,
}
use my_finance.Text.{Text, trim_space}
use my_finance.Calendar.{Date, after}
use my_finance.Money.{Amount}
use my_finance.Errors.{
  Result, ok, err, Reply, failure, not_found, check_violation, numeric_overflow, end_before_start,
  validation, bad_template_name, bad_template_status, template_archived, template_completed,
  code_empty_update,
}
use my_finance.Tx.{Tx, pure, lift, reads, or_fail, ◌>>=◌, ◌>>◌, require, commit_or_rollback}
use my_finance.Ledger.Operation.{positive_amount, optional_description}
use my_finance.Ledger.Handlers.{on_request, then_read}
use my_finance.Ledger.Handlers.Changes.{or_old, bad_name}
use my_finance.Recurring.Schedule.{ends_before}
use my_finance.Recurring.Dependencies.{validate_dependencies}
use my_finance.Recurring.Templates.{
  Status, active, paused, PauseReason, by_user, by_archiving, Template, TemplateView, Plans,
  on_ledger, template_is, template_ok, fits, get_template,
}

-- `api.UpdateRecurringTemplateRequest`; `some none` is a status that `Valid` refuses.
pub record UpdateTemplate : Type 0 where
  pub name : Option Text
  pub amount : Option Text
  pub description : Option Text
  pub end_date : Option Date
  pub status : Option (Option Status)
  pub archived : Option Bool

abbrev pub is_update : UpdateTemplate → Bool
is_update p =
    is_some p.name
    || is_some p.amount
    || is_some p.description
    || is_some p.end_date
    || is_some p.status
    || is_some p.archived

abbrev positive_if_set : Option Text → Result (Option Amount)
positive_if_set none = ok none
positive_if_set (some t) = elim (positive_amount t) [ ok a ↦ ok (some a) | err e ↦ err e ]

abbrev bad_status : Option (Option Status) → Bool
bad_status (some none) = true
bad_status s = false

abbrev pub is_true : Option Bool → Bool
is_true (some true) = true
is_true b = false

abbrev pub is_false : Option Bool → Bool
is_false (some false) = true
is_false b = false

abbrev pub resumes : Option (Option Status) → Bool
resumes (some (some active)) = true
resumes s = false

abbrev after_end : Date → Option Date → Bool
after_end d none = false
after_end d (some e) = after d e

-- The block for `payload.Status` equal to `ACTIVE`.
unfoldable pub check_resume : ℕ → UpdateTemplate → Template → Tx Plans (Unit {0})
check_resume user p t =
    if resumes p.status
    then require (not (is_true p.archived || (t.archived && not (is_false p.archived))))
        template_archived
      >> require (not (after_end t.next p.end_date)) template_completed
      >> on_ledger (validate_dependencies user t.kind t.account t.category t.source t.destination)
      >> pure tt
    else pure tt

abbrev status_after : Option (Option Status) → Status → Status
status_after (some (some s)) old = s
status_after s old = old

abbrev reason_after : Option (Option Status) → Option PauseReason → Option PauseReason
reason_after (some (some active)) old = none
reason_after (some (some paused)) old = some by_user
reason_after s old = old

abbrev trimmed : Option Text → Option Text
trimmed none = none
trimmed (some t) = some (trim_space t)

abbrev set_if_some : Option Text → Option Text → Option Text
set_if_some none old = old
set_if_some (some t) old = some t

abbrev end_after : Option Date → Option Date → Option Date
end_after none old = old
end_after (some d) old = some d

-- The row after the UPDATE; its amount and description are the checked ones.
abbrev pub changed_template : UpdateTemplate → Option Amount → Option Text → Template → Template
changed_template p amount description t = record t {
  name = or_old t.name (trimmed p.name);
  amount = or_old t.amount amount;
  description = set_if_some description t.description;
  end_date = end_after p.end_date t.end_date;
  status = if is_true p.archived then paused else status_after p.status t.status;
  pause_reason =
      if is_true p.archived then some by_archiving else reason_after p.status t.pause_reason;
  archived = or_old t.archived p.archived;
}

abbrev pub change_template_if :
    ℕ → ℕ → UpdateTemplate → Option Amount → Option Text → Template → Template
change_template_if id user p amount description t =
    if template_is id user t then changed_template p amount description t else t

-- `UPDATE recurring_templates`, with its cast and its CHECK constraints.
unfoldable pub update_template_row :
    ℕ → ℕ → UpdateTemplate → Option Amount → Option Text → Template → Tx Plans (Unit {0})
update_template_row id user p amount description t s =
    if not (fits (changed_template p amount description t).amount)
    then err numeric_overflow
    else if not (template_ok (changed_template p amount description t))
    then err check_violation
    else ok (
      tt,
      record s { templates = map (change_template_if id user p amount description) s.templates },
    )

-- What follows once the template's row is read.
unfoldable pub update_found :
    ℕ → ℕ → UpdateTemplate → Option Amount → Option Text → Template → Tx Plans ℕ
update_found user id p amount description t = do
  require (not (ends_before p.end_date t.start)) (validation end_before_start)
  check_resume user p t
  update_template_row id user p amount description t
  pure id

abbrev pub find_template : ℕ → ℕ → Plans → Result Template
find_template user id s = or_fail (find (template_is id user) s.templates) not_found

-- The tests of `UpdateRecurringTemplate` and its transaction.
unfoldable pub update_template_tx : ℕ → ℕ → UpdateTemplate → Tx Plans ℕ
update_template_tx user id p = do
  amount ← lift (positive_if_set p.amount)
  require (not (bad_name p.name)) (validation bad_template_name)
  description ← lift (optional_description p.description)
  require (not (bad_status p.status)) (validation bad_template_status)
  t ← reads (find_template user id)
  update_found user id p amount description t

-- `UpdateRecurringTemplate`
unfoldable pub update_template :
    Option ℕ → Option UpdateTemplate → ℕ → Plans → Reply TemplateView × Plans
update_template session body id = on_request session body λ user p s.
    if not (is_update p)
    then (failure 400 code_empty_update, s)
    else then_read (get_template user) (commit_or_rollback 200 (update_template_tx user id p) s)
