-- ===== src/Recurring/Sound.antt =====
-- Double entry across the requests for recurring templates and the runs of the worker.
use mathlib.Core.Path.{subst}
use my_finance.Common.{
  ℕ, ◌≡◌, sym, Bool, true, false, not, Option, none, some, if◌then◌else◌, arith,
}
use my_finance.Text.{Text}
use my_finance.Money.{Amount}
use my_finance.Errors.{Result, Reply, success, failure, code_empty_update}
use my_finance.Tx.{Tx, commit_or_rollback}
use my_finance.Tx.Keeps.{Keeps, Keeps-fail, keeps_rules, commit_or_rollback-keeps}
use my_finance.Ledger.State.{Ledger, Direction}
use my_finance.Ledger.Operation.{
  OperationType, income, expense, transfer, asset_purchase, opening_balance, unknown_operation,
}
use my_finance.Ledger.Balance.{IsSound}
use my_finance.Ledger.Handlers.{then_read}
use my_finance.Ledger.Handlers.Laws.{ensure-Keeps}
use my_finance.Recurring.Dependencies.{
  cashflow_currency, transfer_currency, dependencies_currency, validate_dependencies,
}
use my_finance.Recurring.Templates.{Template, Plans, on_ledger, insert_template, get_template}
use my_finance.Recurring.Templates.Requests.{CreateTemplate, create_template_tx, create_template}
use my_finance.Recurring.Templates.Requests.Update.{
  UpdateTemplate, is_update, check_resume, update_template_row, update_found, update_template_tx,
  update_template,
}
use my_finance.Recurring.Generation.Sound.{
  IsSoundPlans, on_ledger-Keeps, generate_recurring-IsSound,
}
use my_finance.Recurring.Evolution.{Changes, creates, updates, generates}

cashflow-Keeps :
    (user functional : ℕ) (account category : Option ℕ) (d : Direction)
    → Keeps IsSound (cashflow_currency user functional account category d)
unfolding cashflow_currency
cashflow-Keeps user functional account category d = search keeps_rules depth 14

transfer-Keeps :
    (user functional : ℕ) (source destination : Option ℕ)
    → Keeps IsSound (transfer_currency user functional source destination)
unfolding transfer_currency
transfer-Keeps user functional source destination = search keeps_rules depth 14

dependencies-Keeps :
    (user functional : ℕ) (account category source destination : Option ℕ) (kind : OperationType)
    → Keeps IsSound (dependencies_currency user functional account category source destination kind)
unfolding dependencies_currency
dependencies-Keeps user functional account category source destination income =
    cashflow-Keeps user functional account category _
dependencies-Keeps user functional account category source destination expense =
    cashflow-Keeps user functional account category _
dependencies-Keeps user functional account category source destination transfer =
    transfer-Keeps user functional source destination
dependencies-Keeps user functional account category source destination asset_purchase =
    transfer-Keeps user functional source destination
dependencies-Keeps user functional account category source destination opening_balance =
    Keeps-fail _
dependencies-Keeps user functional account category source destination unknown_operation =
    Keeps-fail _

validate-Keeps :
    (user : ℕ) (kind : OperationType) (account category source destination : Option ℕ)
    → Keeps IsSound (validate_dependencies user kind account category source destination)
unfolding validate_dependencies
validate-Keeps user kind account category source destination =
    search (keeps_rules, dependencies-Keeps) depth 8

on_ledger-IsSound :
    {A : Type 0} (m : Tx Ledger A) → Keeps IsSound m → Keeps IsSoundPlans (on_ledger m)
on_ledger-IsSound m k = on_ledger-Keeps IsSound m k

insert_template-Keeps : (t : Template) → Keeps IsSoundPlans (insert_template t)
unfolding insert_template
insert_template-Keeps t = record {
  at = λ p u p' h e. let same : p'.ledger ≡ p.ledger = ground arith in subst IsSound (sym same) h;
}

update_template_row-Keeps :
    (id user : ℕ) (p : UpdateTemplate) (amount : Option Amount) (description : Option Text)
    (t : Template)
    → Keeps IsSoundPlans (update_template_row id user p amount description t)
unfolding update_template_row
update_template_row-Keeps id user p amount description t = record {
  at = λ p u p' h e. let same : p'.ledger ≡ p.ledger = ground arith in subst IsSound (sym same) h;
}

create_template_tx-Keeps :
    (lower : Text → Text) (new : ℕ → ℕ) (user : ℕ) (p : CreateTemplate)
    → Keeps IsSoundPlans (create_template_tx lower new user p)
unfolding create_template_tx
create_template_tx-Keeps lower new user p =
    search (keeps_rules, on_ledger-IsSound, ensure-Keeps, validate-Keeps, insert_template-Keeps)
      depth 18

check_resume-Keeps :
    (user : ℕ) (p : UpdateTemplate) (t : Template) → Keeps IsSoundPlans (check_resume user p t)
unfolding check_resume
check_resume-Keeps user p t = search (keeps_rules, on_ledger-IsSound, validate-Keeps) depth 14

update_found-Keeps :
    (user id : ℕ) (p : UpdateTemplate) (amount : Option Amount) (description : Option Text)
    (t : Template)
    → Keeps IsSoundPlans (update_found user id p amount description t)
unfolding update_found
update_found-Keeps user id p amount description t =
    search (keeps_rules, check_resume-Keeps, update_template_row-Keeps) depth 14

update_template_tx-Keeps :
    (user id : ℕ) (p : UpdateTemplate) → Keeps IsSoundPlans (update_template_tx user id p)
unfolding update_template_tx
update_template_tx-Keeps user id p = search (keeps_rules, update_found-Keeps) depth 16

module _ {A B : Type 0} (f : A → Plans → Result B) where
  read_after-IsSound : (r : Reply A × Plans) → IsSound r.1.ledger → IsSound (then_read f r).1.ledger
  read_after-IsSound (success status a, p) k = k
  read_after-IsSound (failure status c, p) k = k

-- Each change of the templates keeps the ledger sound.
pub Changes-IsSound : {p q : Plans} → Changes p q → IsSound p.ledger → IsSound q.ledger
unfolding create_template update_template
Changes-IsSound (creates lower new none body s) h = h
Changes-IsSound (creates lower new (some user) none s) h = h
Changes-IsSound (creates lower new (some user) (some p) s) h =
    read_after-IsSound (get_template user) _ (
      commit_or_rollback-keeps {P = IsSoundPlans} 201 _ s
        (create_template_tx-Keeps lower new user p) h)
Changes-IsSound (updates none body id s) h = h
Changes-IsSound (updates (some user) none id s) h = h
Changes-IsSound (updates (some user) (some p) id s) h = go (is_update p)
  where
    go :
        (b : Bool)
        → IsSound
            (if not b
              then (failure 400 code_empty_update, s)
              else then_read
                  (get_template user)
                  (commit_or_rollback 200 (update_template_tx user id p) s)).1.ledger
    go true =
        read_after-IsSound (get_template user) _ (
          commit_or_rollback-keeps {P = IsSoundPlans} 200 _ s (update_template_tx-Keeps user id p)
            h)
    go false = h
Changes-IsSound (generates w free size s s' r e) h =
    generate_recurring-IsSound w free size s s' r h e
