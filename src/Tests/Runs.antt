-- ===== src/Tests/Runs.antt =====
-- A run of the worker on a small ledger.
use my_finance.Common.{
  ℕ, ◌+◌, ◌*◌, ◌≤◌, ◌≡◌, ◌&&◌, ◌||◌, refl, true, false, none, some, [], ◌∷◌, any, find, arith, leb,
  ◌==◌, length,
}
use my_finance.Common.Int.{pos, ◌+ℤ◌, ◌-ℤ◌, neg_ℤ}
use my_finance.Text.{
  codes, contains, is_space, len, split, text_eq, trim_left, trim_right, trim_space,
}
use my_finance.Calendar.{Date, IsDate, of_civil, month_days, month_end, ordinal, days_before}
use my_finance.Money.{digits, parse, parse_parts, value}
use my_finance.Errors.{Result, ok, err}
use my_finance.Ledger.State.{Ledger}
use my_finance.Ledger.Schema.{insert_entry, insert_transaction, mark_posted}
use my_finance.Ledger.Journal.{insert_entries, post_journal}
use my_finance.Ledger.Operation.{
  transfer, functional_currency, load_account, operation_lines, optional_description,
  positive_amount, post_typed_operation, system_account, transfer_lines,
}
use my_finance.Recurring.Schedule.{
  monthly, months, next_recurring_date, advance, add_months_clamped,
}
use my_finance.Recurring.Templates.{active, Template, Plans, insert_occurrence}
use my_finance.Recurring.Generation.{
  Supply, Generation, days_left, due_templates, generate_all, generate_batch, generate_dates,
  generate_on, generate_recurring, generate_template, insert_due, move_template,
}
use my_finance.Recurring.Generation.Turn.{claimed}
use my_finance.Recurring.Generation.Claims.{
  due_dates, listed, stops, generate_dates-claimed, generate_dates-stops,
}
use my_finance.Recurring.Generation.Count.{generate_recurring-generated}
use my_finance.Recurring.Templates.Consistent.{AreConsistent, IsKeyed}
use my_finance.Recurring.Evolution.{Evolves-AreConsistent, here, next, generates}
use my_finance.Tests.Postings.{cash_account, empty_ledger}

abbrev pub savings_ledger : Ledger
savings_ledger = record empty_ledger {
  accounts = record cash_account { id = 12 } ∷ empty_ledger.accounts;
}

abbrev jan31 : Date
jan31 = of_civil 2027 1 31

abbrev pub mar1 : Date
mar1 = of_civil 2027 3 1

abbrev saving : Template
saving = record {
  id = 40;
  user = 1;
  name = codes "Saving";
  kind = transfer;
  amount = pos 10000000000;
  currency = 978;
  description = none;
  account = none;
  category = none;
  source = some 10;
  destination = some 12;
  frequency = monthly;
  unit = months;
  count = 1;
  start = jan31;
  next = jan31;
  end_date = none;
  status = active;
  pause_reason = none;
  archived = false;
}

abbrev number : ℕ → Date → ℕ
number t d = t * 100000 + d.index * 40 + d.day

abbrev supply : Supply
supply = record {
  occurrence_id = number;
  transaction_id = number;
  amount_text = λ a. codes "100.00000000";
  sql_today = λ user. mar1;
  today = λ user. some mar1;
  locked = λ t. false;
}

abbrev plans : Plans
plans = record { ledger = savings_ledger; templates = saving ∷ []; occurrences = [] }

abbrev pub state_or : {S A : Type 0} → S → Result (A × S) → S
state_or s (ok (a, s')) = s'
state_or s (err e) = s

abbrev pub value_or : {S A : Type 0} → A → Result (A × S) → A
value_or a (ok (b, s)) = b
value_or a (err e) = a

abbrev run : Result (Generation × Plans)
run = generate_recurring supply true 0 plans

abbrev outcome : Generation
outcome = value_or (record { generated = 0; locked = false }) run

abbrev plans_after : Plans
plans_after = state_or plans run

run_ok : run ≡ ok (outcome, plans_after)
unfolding generate_recurring generate_batch generate_all generate_template generate_dates
    generate_on due_templates insert_due move_template insert_occurrence post_typed_operation
    positive_amount optional_description functional_currency system_account operation_lines
    transfer_lines load_account post_journal insert_transaction insert_entry insert_entries
    mark_posted any find parse parse_parts digits value split contains text_eq trim_space trim_left
    trim_right is_space len ◌+ℤ◌ ◌-ℤ◌ neg_ℤ ordinal days_before month_days month_end
    next_recurring_date advance add_months_clamped
run_ok = refl

outcome_ok : outcome ≡ record { generated = 2; locked = true }
unfolding generate_recurring generate_batch generate_all generate_template generate_dates
    generate_on due_templates insert_due move_template insert_occurrence post_typed_operation
    positive_amount optional_description functional_currency system_account operation_lines
    transfer_lines load_account post_journal insert_transaction insert_entry insert_entries
    mark_posted any find parse parse_parts digits value split contains text_eq trim_space trim_left
    trim_right is_space len ◌+ℤ◌ ◌-ℤ◌ neg_ℤ ordinal days_before month_days month_end
    next_recurring_date advance add_months_clamped
outcome_ok = refl

abbrev loop : Result ((ℕ × Date) × Plans)
loop = generate_dates 32 supply saving mar1 100 jan31 0 plans

abbrev loop_value : ℕ × Date
loop_value = value_or (0, jan31) loop

abbrev loop_plans : Plans
loop_plans = state_or plans loop

loop_ok : loop ≡ ok (loop_value, loop_plans)
unfolding generate_dates generate_on insert_occurrence post_typed_operation positive_amount
    optional_description functional_currency system_account operation_lines transfer_lines
    load_account post_journal insert_transaction insert_entry insert_entries mark_posted any find
    parse parse_parts digits value split contains text_eq trim_space trim_left trim_right is_space
    len ◌+ℤ◌ ◌-ℤ◌ neg_ℤ ordinal days_before month_days month_end next_recurring_date advance
    add_months_clamped
loop_ok = refl

loop_short : leb 100 loop_value.0 ≡ false
unfolding generate_dates generate_on insert_occurrence post_typed_operation positive_amount
    optional_description functional_currency system_account operation_lines transfer_lines
    load_account post_journal insert_transaction insert_entry insert_entries mark_posted any find
    parse parse_parts digits value split contains text_eq trim_space trim_left trim_right is_space
    len ◌+ℤ◌ ◌-ℤ◌ neg_ℤ ordinal days_before month_days month_end next_recurring_date advance
    add_months_clamped
loop_short = refl

jan31-IsDate : IsDate jan31
unfolding month_days
jan31-IsDate = (omega arith, omega arith)

mar1-IsDate : IsDate mar1
unfolding month_days
mar1-IsDate = (omega arith, omega arith)

enough_days : days_left mar1 jan31 ≤ 32
unfolding ordinal days_before month_days
enough_days = omega arith

generate_dates-stops_example : stops saving mar1 100 loop_value.1 loop_value.0 ≡ true
generate_dates-stops_example =
    generate_dates-stops 32 supply saving mar1 100 jan31 0 plans loop_plans loop_value jan31-IsDate
      mar1-IsDate jan31-IsDate refl (omega arith) enough_days loop_ok

generate_dates-claimed_example :
    claimed 40 jan31 loop_plans.occurrences
    ≡ (claimed 40 jan31 [] || (40 == 40 && listed jan31 (due_dates 32 saving mar1 jan31)))
generate_dates-claimed_example =
    generate_dates-claimed 32 supply saving mar1 100 jan31 0 plans loop_plans loop_value 40 jan31
      loop_ok loop_short

generate_recurring-generated_example :
    (outcome.generated ≤ 100) × (outcome.generated + 0 ≡ length plans_after.occurrences)
generate_recurring-generated_example =
    generate_recurring-generated supply true 0 plans plans_after outcome run_ok

plans-AreConsistent : AreConsistent plans.templates
unfolding IsKeyed any
plans-AreConsistent = record {
  each = (record { reason = refl; at_rest = refl }, tt);
  keyed = (refl, tt);
}

Evolves-AreConsistent_example : AreConsistent plans_after.templates
Evolves-AreConsistent_example =
    Evolves-AreConsistent plans plans_after
      (next here (generates supply true 0 plans plans_after outcome run_ok)) plans-AreConsistent
