-- ===== src/Recurring/Templates.antt =====
-- The recurring templates and their occurrences of internal/httpapi/recurring.go: their rows, the
-- statements that write them, with the constraints of
-- db/migrations/000005_recurring_reconciliation.up.sql, and `getRecurringTemplate`. An amount is
-- scaled by 10 ^ 8, as in the ledger.
pub mod Requests
pub mod Consistent
use my_finance.Common.{
  ℕ, ◌+◌, ◌^◌, Bool, true, false, not, ◌&&◌, ◌||◌, Option, none, some, List, [], ◌∷◌, map, ltb, leb,
  ◌==◌, if◌then◌else◌, is_some, option_eq, any, find, length,
}
use my_finance.Common.Int.{pos_part, neg_part}
use my_finance.Text.{Text, trim_left, trim_right}
use my_finance.Calendar.{Date, before, after, date_eq}
use my_finance.Money.{Amount, is_positive}
use my_finance.Errors.{
  Result, ok, err, not_found, unique_violation, check_violation, foreign_key_violation,
  numeric_overflow,
}
use my_finance.Tx.{Tx, or_fail, zoom}
use my_finance.Ledger.State.{Account, Category, Ledger}
use my_finance.Ledger.Schema.{account_is, category_is, transaction_is, description_ok, is_blank}
use my_finance.Ledger.Operation.{
  OperationType, opening_balance, income, expense, transfer, asset_purchase, unknown_operation,
}
use my_finance.Recurring.Schedule.{Frequency, IntervalUnit, ends_before}

pub data Status : Type 0 where
  active paused : Status

pub data PauseReason : Type 0 where
  by_user by_archiving completed dependency_archived : PauseReason

-- A row of `recurring_templates`
pub record Template : Type 0 where
  pub id : ℕ
  pub user : ℕ
  pub name : Text
  pub kind : OperationType
  pub amount : Amount
  pub currency : ℕ
  pub description : Option Text
  pub account : Option ℕ
  pub category : Option ℕ
  pub source : Option ℕ
  pub destination : Option ℕ
  pub frequency : Frequency
  pub unit : IntervalUnit
  pub count : ℕ
  pub start : Date
  pub next : Date
  pub end_date : Option Date
  pub status : Status
  pub pause_reason : Option PauseReason
  pub archived : Bool

-- A row of `recurring_occurrences`
pub record Occurrence : Type 0 where
  pub id : ℕ
  pub user : ℕ
  pub template : ℕ
  pub scheduled : Date
  pub transaction : ℕ

pub record Plans : Type 0 where
  pub ledger : Ledger
  pub templates : List Template
  pub occurrences : List Occurrence

abbrev pub put_ledger : Plans → Ledger → Plans
put_ledger p s = record p { ledger = s }

-- A step on the tables of the ledger alone.
abbrev pub on_ledger : {A : Type 0} → Tx Ledger A → Tx Plans A
on_ledger = zoom (λ (p : Plans). p.ledger) put_ledger

abbrev pub template_is : ℕ → ℕ → Template → Bool
template_is id user t = t.id == id && t.user == user

-- `length(btrim(name)) BETWEEN 1 AND 100`
abbrev template_name_ok : Text → Bool
template_name_ok name =
    let n = length (trim_right is_blank (trim_left is_blank name)) in leb 1 n && leb n 100

abbrev cashflow_shape : Template → Bool
cashflow_shape t =
    is_some t.account && is_some t.category && not (is_some t.source) && not (is_some t.destination)

abbrev transfer_shape : Template → Bool
transfer_shape t =
    not (is_some t.account)
    && not (is_some t.category)
    && is_some t.source
    && is_some t.destination
    && not (option_eq t.source t.destination)

-- `recurring_templates_operation_valid` and `recurring_templates_operation_shape`
abbrev pub shape_ok : OperationType → Template → Bool
shape_ok income t = cashflow_shape t
shape_ok expense t = cashflow_shape t
shape_ok transfer t = transfer_shape t
shape_ok asset_purchase t = transfer_shape t
shape_ok opening_balance t = false
shape_ok unknown_operation t = false

-- `recurring_templates_dates_valid`
abbrev pub dates_ok : Template → Bool
dates_ok t = not (before t.next t.start) && not (ends_before t.end_date t.start)

-- The CHECK constraints; those on the schedule's unit, count and frequency hold of every schedule
-- that `normalizeRecurringSchedule` returns.
abbrev pub template_ok : Template → Bool
template_ok t =
    template_name_ok t.name
    && description_ok t.description
    && is_positive t.amount
    && shape_ok t.kind t
    && dates_ok t

abbrev account_known : Ledger → ℕ → Option ℕ → Bool
account_known s user none = true
account_known s user (some id) = any (account_is id user) s.accounts

abbrev category_known : Ledger → ℕ → Option ℕ → Bool
category_known s user none = true
category_known s user (some id) = any (category_is id user) s.categories

abbrev references_ok : Ledger → Template → Bool
references_ok s t =
    account_known s t.user t.account
    && category_known s t.user t.category
    && account_known s t.user t.source
    && account_known s t.user t.destination

abbrev pub fits : Amount → Bool
fits a = ltb (pos_part a + neg_part a) (10 ^ 24)

abbrev pub same_id : ℕ → Template → Bool
same_id id t = t.id == id

-- `INSERT INTO recurring_templates`
unfoldable pub insert_template : Template → Tx Plans (Unit {0})
insert_template t p =
    if not (fits t.amount)
    then err numeric_overflow
    else if not (template_ok t)
    then err check_violation
    else if any (same_id t.id) p.templates
    then err unique_violation
    else if not (references_ok p.ledger t)
    then err foreign_key_violation
    else ok (tt, record p { templates = t ∷ p.templates })

-- `UNIQUE (template_id, scheduled_date)`
abbrev pub claims : ℕ → Date → Occurrence → Bool
claims template d o = o.template == template && date_eq o.scheduled d

-- The primary key, and `UNIQUE (transaction_id)`.
abbrev pub occurrence_clashes : Occurrence → Occurrence → Bool
occurrence_clashes o q = q.id == o.id || q.transaction == o.transaction

-- `INSERT INTO recurring_occurrences … ON CONFLICT (template_id, scheduled_date) DO NOTHING`; the
-- answer is whether a row was inserted.
unfoldable pub insert_occurrence : Occurrence → Tx Plans Bool
insert_occurrence o p =
    if any (claims o.template o.scheduled) p.occurrences
    then ok (false, p)
    else if any (occurrence_clashes o) p.occurrences
    then err unique_violation
    else if not (
        any (template_is o.template o.user) p.templates
        && any (transaction_is o.transaction o.user) p.ledger.transactions)
    then err foreign_key_violation
    else ok (true, record p { occurrences = o ∷ p.occurrences })

abbrev later_of : Date → Option Date → Date
later_of d none = d
later_of d (some e) = if after d e then d else e

-- `max(scheduled_date)` of a template's occurrences.
unfoldable pub last_generated : ℕ → List Occurrence → Option Date
last_generated id [] = none
last_generated id (o ∷ os) =
    let rest = last_generated id os in
    if o.template == id then some (later_of o.scheduled rest) else rest

-- `api.RecurringTemplate`, with the names of the rows that the template refers to.
pub record TemplateView : Type 0 where
  pub template : Template
  pub account_name : Option Text
  pub category_name : Option Text
  pub source_name : Option Text
  pub destination_name : Option Text
  pub last_date : Option Date

abbrev account_with : ℕ → Account → Bool
account_with id a = a.id == id

abbrev category_with : ℕ → Category → Bool
category_with id c = c.id == id

abbrev name_in : Option Account → Option Text
name_in none = none
name_in (some a) = some a.name

abbrev account_name_of : Ledger → Option ℕ → Option Text
account_name_of s none = none
account_name_of s (some id) = name_in (find (account_with id) s.accounts)

abbrev category_name_in : Option Category → Option Text
category_name_in none = none
category_name_in (some c) = some c.name

abbrev category_name_of : Ledger → Option ℕ → Option Text
category_name_of s none = none
category_name_of s (some id) = category_name_in (find (category_with id) s.categories)

abbrev pub api_template : Plans → Template → TemplateView
api_template p t = record {
  template = t;
  account_name = account_name_of p.ledger t.account;
  category_name = category_name_of p.ledger t.category;
  source_name = account_name_of p.ledger t.source;
  destination_name = account_name_of p.ledger t.destination;
  last_date = last_generated t.id p.occurrences;
}

abbrev viewed : Plans → Option Template → Result TemplateView
viewed p none = err not_found
viewed p (some t) = ok (api_template p t)

-- `getRecurringTemplate`
unfoldable pub get_template : ℕ → ℕ → Plans → Result TemplateView
get_template user id p = viewed p (find (template_is id user) p.templates)
