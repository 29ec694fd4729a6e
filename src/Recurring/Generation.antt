-- ===== src/Recurring/Generation.antt =====
-- `GenerateRecurring` of internal/httpapi/recurring.go. The loop over the dates is on fuel: the days
-- up to today bound its turns.
pub mod Sound
pub mod Turn
pub mod Claims
pub mod Count
use my_finance.Common.{
  ℕ, zero, suc, ◌+◌, ◌-◌, Bool, true, false, not, ◌&&◌, ◌||◌, Option, none, some, List, [], ◌∷◌,
  map, ltb, leb, ◌==◌, if◌then◌else◌, take,
}
use my_finance.Text.{Text}
use my_finance.Calendar.{Date, before, after, date_eq, ordinal}
use my_finance.Money.{Amount}
use my_finance.Errors.{ok, err, check_violation, time_zone}
use my_finance.Tx.{Tx, pure, lift, reads, or_fail, ◌>>=◌, ◌>>◌}
use my_finance.Ledger.Operation.{Operation, post_typed_operation}
use my_finance.Recurring.Schedule.{next_recurring_date}
use my_finance.Recurring.Templates.{
  Status, active, paused, PauseReason, completed, Template, Occurrence, Plans, on_ledger, same_id,
  dates_ok, insert_occurrence,
}

-- What the worker takes from outside: `uuid.NewSHA1` of a template and a date, `uuid.New` for the
-- posting of it, PostgreSQL's text of a numeric, the current date of a user in PostgreSQL and in Go
-- (`none` where `time.LoadLocation` refuses the zone), and the rows that others have locked.
pub record Supply : Type 0 where
  pub occurrence_id : ℕ → Date → ℕ
  pub transaction_id : ℕ → Date → ℕ
  pub amount_text : Amount → Text
  pub sql_today : ℕ → Date
  pub today : ℕ → Option Date
  pub locked : ℕ → Bool

-- `RecurringGenerationResult`
pub record Generation : Type 0 where
  pub generated : ℕ
  pub locked : Bool

abbrev pub operation_on : Supply → Template → Date → Operation
operation_on w t d = record {
  kind = t.kind;
  event_date = d;
  amount = w.amount_text t.amount;
  key = w.occurrence_id t.id d;
  description = t.description;
  account = t.account;
  category = t.category;
  source = t.source;
  destination = t.destination;
}

abbrev pub occurrence_on : Supply → Template → Date → ℕ → Occurrence
occurrence_on w t d transaction = record {
  id = w.occurrence_id t.id d;
  user = t.user;
  template = t.id;
  scheduled = d;
  transaction = transaction;
}

-- One turn of the loop over the dates: whether it made an occurrence.
unfoldable pub generate_on : Supply → Template → Date → Tx Plans Bool
generate_on w t d = do
  (transaction, replayed) ←
      on_ledger (post_typed_operation (w.transaction_id t.id d) t.user (operation_on w t d) none)
  insert_occurrence (occurrence_on w t d transaction)

abbrev pub past_end : Template → Date → Bool
past_end t d = elim t.end_date [ none ↦ false | some e ↦ after d e ]

abbrev pub next_date : Template → Date → Date
next_date t d = next_recurring_date t.start d t.unit t.count

abbrev pub counted : ℕ → Bool → ℕ
counted generated made = if made then generated + 1 else generated

-- The loop over the dates of a template: the count and the date at which it stops.
unfoldable pub generate_dates : ℕ → Supply → Template → Date → ℕ → Date → ℕ → Tx Plans (ℕ × Date)
generate_dates zero w t today batch next generated = pure (generated, next)
generate_dates (suc fuel) w t today batch next generated =
    if after next today || leb batch generated || past_end t next
    then pure (generated, next)
    else generate_on w t next >>= λ made.
        generate_dates fuel w t today batch (next_date t next) (counted generated made)

-- The days from a date up to and including today.
abbrev pub days_left : Date → Date → ℕ
days_left today next = suc (ordinal today) - ordinal next

abbrev pub moved : Date → Bool → Template → Template
moved next done t = record t {
  next = next;
  status = if done then paused else t.status;
  pause_reason = if done then some completed else t.pause_reason;
}

abbrev pub move_if : ℕ → Date → Bool → Template → Template
move_if id next done t = if same_id id t then moved next done t else t

-- The UPDATE after the loop, with `recurring_templates_dates_valid`.
unfoldable pub move_template : Template → Date → Bool → Tx Plans (Unit {0})
move_template t next done p =
    if not (dates_ok (moved next done t))
    then err check_violation
    else ok (tt, record p { templates = map (move_if t.id next done) p.templates })

-- The body of the loop over the templates.
unfoldable pub generate_template : Supply → Template → Date → ℕ → ℕ → Tx Plans ℕ
generate_template w t today batch generated = do
  (made, next) ← generate_dates (days_left today t.next) w t today batch t.next generated
  move_template t next (past_end t next)
  pure made

-- The loop over the templates.
unfoldable pub generate_all : Supply → ℕ → List Template → ℕ → Tx Plans ℕ
generate_all w batch [] generated = pure generated
generate_all w batch (t ∷ ts) generated = do
  today ← lift (or_fail (w.today t.user) time_zone)
  made ← generate_template w t today batch generated
  if leb batch made then pure made else generate_all w batch ts made

abbrev is_active : Status → Bool
is_active active = true
is_active paused = false

-- The condition of the query, and `SKIP LOCKED`.
abbrev pub is_due : Supply → Template → Bool
is_due w t =
    is_active t.status
    && not t.archived
    && not (after t.next (w.sql_today t.user))
    && not (w.locked t.id)

-- `ORDER BY template.next_scheduled_date, template.id`
abbrev pub comes_first : Template → Template → Bool
comes_first t u = before t.next u.next || (date_eq t.next u.next && leb t.id u.id)

unfoldable pub insert_due : Template → List Template → List Template
insert_due t [] = t ∷ []
insert_due t (u ∷ us) = if comes_first t u then t ∷ u ∷ us else u ∷ insert_due t us

unfoldable pub due_templates : Supply → List Template → List Template
due_templates w [] = []
due_templates w (t ∷ ts) =
    let rest = due_templates w ts in if is_due w t then insert_due t rest else rest

abbrev pub batch_or_default : ℕ → ℕ
batch_or_default n = if ltb n 1 then 100 else n

-- The transaction of a worker that has the lock.
unfoldable pub generate_batch : Supply → ℕ → Tx Plans Generation
generate_batch w batch = do
  templates ← reads (λ (p : Plans). ok (take batch (due_templates w p.templates)))
  made ← generate_all w batch templates 0
  pure (record { generated = made; locked = true })

-- `GenerateRecurring`; `free` is the answer of `pg_try_advisory_xact_lock`. A batch size below 0 is
-- treated as 0 is.
unfoldable pub generate_recurring : Supply → Bool → ℕ → Tx Plans Generation
generate_recurring w false size = pure (record { generated = 0; locked = false })
generate_recurring w true size = generate_batch w (batch_or_default size)
