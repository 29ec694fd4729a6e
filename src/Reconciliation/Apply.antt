-- ===== src/Reconciliation/Apply.antt =====
-- `applyReconciliation` of internal/httpapi/reconciliation.go. `sha1` stands for the keys that
-- `uuid.NewSHA1` makes of two ids.
use my_finance.Common.{
  ℕ, ◌+◌, ◌-◌, ◌/◌, ◌%◌, ◌^◌, Bool, true, false, not, ◌&&◌, ◌||◌, Option, none, some, [], ◌∷◌, ◌++◌,
  map, ltb, leb, ◌==◌, if◌then◌else◌, is_some, any, find,
}
use my_finance.Common.Int.{pos_part, neg_part, neg_ℤ, pos}
use my_finance.Text.{Text, codes}
use my_finance.Calendar.{Date, year, month, date_eq, month_end}
use my_finance.Money.{Amount, negate, add, is_zero, is_positive, print}
use my_finance.Errors.{ok, err, preview_stale, numeric_overflow, check_violation, unique_violation}
use my_finance.Tx.{Tx, pure, reads, or_fail, ◌>>=◌, ◌>>◌}
use my_finance.Recurring.Schedule.{add_months_clamped}
use my_finance.Ledger.State.{Account, SystemCode, other_income, other_expense, reconciliation_type}
use my_finance.Ledger.Journal.{JournalSpec, line, post_journal, post_reversal}
use my_finance.Ledger.Operation.{system_account}
use my_finance.Reconciliation.State.{
  Reconciliation, Snapshot, Books, on_ledger, account_balance_at, reconciliation_by_key,
  reconciliation_is, active_on,
}

-- The columns `numeric(24, 8)`.
abbrev pub fits : Amount → Bool
fits a = ltb (pos_part a + neg_part a) (10 ^ 24)

abbrev gap_ok : Reconciliation → Bool
gap_ok r =
    leb 1 r.gap_months
    && (if r.gap_months == 1 then not (is_some r.gap_start) else is_some r.gap_start)

-- The keys of the table, and the index on the periods that are not superseded.
abbrev pub collides : Reconciliation → Reconciliation → Bool
collides r q =
    q.id == r.id
    || (q.user == r.user && q.key == r.key)
    || (active_on r.user r.account r.period_end q && not r.superseded)

-- `INSERT INTO reconciliations`; its foreign keys hold, the ids are those just read or made.
unfoldable pub insert_reconciliation : Reconciliation → Tx Books (Unit {0})
insert_reconciliation r b =
    if not (fits r.reported && fits r.ledger_before && fits r.difference && fits r.adjustment)
    then err numeric_overflow
    else if not (date_eq r.period_end (month_end r.period_end) && gap_ok r)
    then err check_violation
    else if any (collides r) b.reconciliations
    then err unique_violation
    else ok (tt, record b { reconciliations = r ∷ b.reconciliations })

abbrev same_reconciliation : Snapshot → Snapshot → Bool
same_reconciliation x y = y.reconciliation == x.reconciliation

-- `INSERT INTO balance_snapshots`
unfoldable pub insert_snapshot : Snapshot → Tx Books (Unit {0})
insert_snapshot x b =
    if any (same_reconciliation x) b.snapshots
    then err unique_violation
    else ok (tt, record b { snapshots = x ∷ b.snapshots })

abbrev pub set_superseded : ℕ → ℕ → Reconciliation → Reconciliation
set_superseded id user r = if reconciliation_is id user r then record r { superseded = true } else r

-- `UPDATE reconciliations SET superseded_at = now()`
unfoldable pub mark_superseded : ℕ → ℕ → Tx Books (Unit {0})
mark_superseded id user b =
    ok (tt, record b { reconciliations = map (set_superseded id user) b.reconciliations })

-- The reversal of an earlier adjustment, and the balance after it.
unfoldable pub reverse_adjustment :
    ℕ → ℕ → ℕ → Date → ℕ → Amount → Option ℕ → Tx Books (Option ℕ × Amount)
reverse_adjustment id user account period_end key balance none = pure (none, balance)
reverse_adjustment id user account period_end key balance (some adjustment) = do
  reversal ←
      on_ledger (post_reversal id user adjustment key (some (codes "Replace reconciliation")))
  base ← reads (λ (b : Books). ok (account_balance_at user account period_end b.ledger))
  pure (some reversal, base)

abbrev active_is : ℕ → ℕ → Reconciliation → Bool
active_is id user r = reconciliation_is id user r && not r.superseded

-- The case of a reconciliation that the new one replaces.
unfoldable pub replace_current :
    (ℕ → ℕ → ℕ) → ℕ → ℕ → ℕ → Date → ℕ → Amount → Option ℕ → Tx Books (Option ℕ × Amount)
replace_current sha1 id user account period_end key balance none = pure (none, balance)
replace_current sha1 id user account period_end key balance (some current) = do
  old ←
      reads (λ (b : Books). or_fail (find (active_is current user) b.reconciliations) preview_stale)
  reversed ←
      reverse_adjustment id user account period_end (sha1 current key) balance
        old.adjustment_transaction
  mark_superseded current user
  pure reversed

abbrev digit : ℕ → ℕ
digit n = 48 + n % 10

-- `Format("2006-01")`
abbrev pub year_month : Date → Text
year_month d =
    digit (year d / 1000)
    ∷ digit (year d / 100)
    ∷ digit (year d / 10)
    ∷ digit (year d)
    ∷ 45
    ∷ digit (month d / 10)
    ∷ digit (month d)
    ∷ []

abbrev pub description_of : Text → Date → ℕ → Text
description_of name period_end gap =
    codes "Reconcile "
    ++ name
    ++ codes " · "
    ++ year_month period_end
    ++ (if ltb 1 gap then codes " · " ++ print gap ++ codes "-month gap" else [])

abbrev pub system_code_of : Amount → SystemCode
system_code_of adjustment = if is_positive adjustment then other_income else other_expense

abbrev pub adjustment_spec : Account → Date → ℕ → ℕ → ℕ → Amount → JournalSpec
adjustment_spec account period_end key gap system adjustment = record {
  kind = reconciliation_type;
  event_date = period_end;
  description = some (description_of account.name period_end gap);
  key = key;
  reverses = none;
  replaces = none;
  entries =
      line account.id adjustment account.currency
      ∷ line system (negate adjustment) account.currency
      ∷ [];
}

-- The transaction that makes up the difference, when there is one.
unfoldable pub post_adjustment : ℕ → ℕ → Account → Date → ℕ → ℕ → Amount → Tx Books (Option ℕ)
post_adjustment id user account period_end key gap adjustment =
    if is_zero adjustment
    then pure none
    else reads (λ (b : Books). system_account user (system_code_of adjustment) b.ledger)
      >>= λ system.
          on_ledger
            (post_journal id user (adjustment_spec account period_end key gap system adjustment))
          >>= λ posted. pure (some posted.0)

-- What `applyReconciliation` is called with.
pub record Request : Type 0 where
  pub user : ℕ
  pub account : Account
  pub period_end : Date
  pub reported : Amount
  pub balance : Amount
  pub current : Option ℕ
  pub key : ℕ
  pub gap : ℕ

abbrev pub row_of : ℕ → Request → Amount → Option ℕ → Option ℕ → Reconciliation
row_of id q base reversal posted = record {
  id = id;
  user = q.user;
  account = q.account.id;
  period_end = q.period_end;
  reported = q.reported;
  ledger_before = q.balance;
  difference = add q.reported (negate q.balance);
  adjustment = add q.reported (negate base);
  adjustment_transaction = posted;
  reversal_transaction = reversal;
  supersedes = q.current;
  gap_start =
      if ltb 1 q.gap
      then some (add_months_clamped q.period_end (neg_ℤ (pos (q.gap - 1))))
      else none;
  gap_months = q.gap;
  key = q.key;
  superseded = false;
}

abbrev pub snapshot_of : ℕ → Request → Snapshot
snapshot_of id q = record {
  user = q.user;
  account = q.account.id;
  reconciliation = id;
  period_end = q.period_end;
  reported = q.reported;
  currency = q.account.currency;
}

-- `applyReconciliation` where its key is new; the three ids are those it draws.
unfoldable pub apply_new : (ℕ → ℕ → ℕ) → (ℕ → ℕ) → Request → Tx Books Reconciliation
apply_new sha1 new q = do
  (reversal, base) ←
      replace_current sha1 (new 0) q.user q.account.id q.period_end q.key q.balance q.current
  posted ←
      post_adjustment (new 1) q.user q.account q.period_end q.key q.gap
        (add q.reported (negate base))
  insert_reconciliation (row_of (new 2) q base reversal posted)
  insert_snapshot (snapshot_of (new 2) q)
  pure (row_of (new 2) q base reversal posted)

abbrev pub known_or : {A : Type 0} → Option A → Tx Books A → Tx Books A
known_or none m = m
known_or (some a) m = pure a

-- `applyReconciliation`
unfoldable pub apply_reconciliation : (ℕ → ℕ → ℕ) → (ℕ → ℕ) → Request → Tx Books Reconciliation
apply_reconciliation sha1 new q = do
  existing ← reads (λ (b : Books). ok (reconciliation_by_key q.user q.key b))
  known_or existing (apply_new sha1 new q)
