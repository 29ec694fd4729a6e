-- ===== src/Reconciliation/Sound.antt =====
-- Double entry across the requests for reconciliation.
use mathlib.Core.Path.{subst}
use my_finance.Common.{ℕ, ◌≡◌, sym, Bool, true, false, Option, none, some, arith}
use my_finance.Common.Int.{pos, ◌+ℤ◌, neg_ℤ, int_laws}
use my_finance.Calendar.{Date}
use my_finance.Money.{Amount}
use my_finance.Errors.{ok}
use my_finance.Tx.{Tx}
use my_finance.Tx.Keeps.{
  Keeps, Keeps-pure, Keeps-reads, keeps_rules, zoom-Keeps, commit_or_rollback-keeps,
}
use my_finance.Ledger.State.{Ledger, Account}
use my_finance.Ledger.Journal.{post_journal}
use my_finance.Ledger.Balance.{IsSound}
use my_finance.Ledger.Balance.Sound.{post_journal-Keeps}
use my_finance.Ledger.Posting.{post_reversal-Keeps}
use my_finance.Reconciliation.State.{
  Reconciliation, Snapshot, Preview, Books, on_ledger, put_ledger, reconciliation_by_id,
}
use my_finance.Reconciliation.Apply.{
  Request, insert_reconciliation, insert_snapshot, mark_superseded, reverse_adjustment,
  replace_current, adjustment_spec, post_adjustment, apply_new, known_or, apply_reconciliation,
}
use my_finance.Reconciliation.Handlers.{
  Prepare, insert_preview, mark_confirmed, submit, prepare_tx, prepare_parsed,
  prepare_reconciliation, confirm_open, confirm_preview, confirm_tx, confirm_reconciliation,
}

abbrev IsSoundBooks : Books → Type 0
IsSoundBooks b = IsSound b.ledger

on_ledger-Keeps :
    {A : Type 0} (m : Tx Ledger A) → Keeps IsSound m → Keeps IsSoundBooks (on_ledger m)
on_ledger-Keeps m k = zoom-Keeps IsSound (λ (b : Books). b.ledger) put_ledger m (λ b s x. x) k

-- A step that leaves the ledger.
ledger_same-Keeps :
    {A : Type 0} (m : Tx Books A)
    → ((b b' : Books) (a : A) → m b ≡ ok (a, b') → b'.ledger ≡ b.ledger)
    → Keeps IsSoundBooks m
ledger_same-Keeps m same = record {
  at = λ b a b' sound e. subst IsSound (sym (same b b' a e)) sound;
}

insert_reconciliation-Keeps : (r : Reconciliation) → Keeps IsSoundBooks (insert_reconciliation r)
unfolding insert_reconciliation
insert_reconciliation-Keeps r =
    ledger_same-Keeps (insert_reconciliation r) (λ b b' u e. ground arith)

insert_snapshot-Keeps : (x : Snapshot) → Keeps IsSoundBooks (insert_snapshot x)
unfolding insert_snapshot
insert_snapshot-Keeps x = ledger_same-Keeps (insert_snapshot x) (λ b b' u e. ground arith)

insert_preview-Keeps : (p : Preview) → Keeps IsSoundBooks (insert_preview p)
unfolding insert_preview
insert_preview-Keeps p = ledger_same-Keeps (insert_preview p) (λ b b' u e. ground arith)

mark_superseded-Keeps : (id user : ℕ) → Keeps IsSoundBooks (mark_superseded id user)
unfolding mark_superseded
mark_superseded-Keeps id user =
    ledger_same-Keeps (mark_superseded id user) (λ b b' u e. ground arith)

mark_confirmed-Keeps : (id user r : ℕ) → Keeps IsSoundBooks (mark_confirmed id user r)
unfolding mark_confirmed
mark_confirmed-Keeps id user r =
    ledger_same-Keeps (mark_confirmed id user r) (λ b b' u e. ground arith)

opposite_sum : (a : Amount) → a +ℤ (neg_ℤ a +ℤ pos 0) ≡ pos 0
opposite_sum a = omega int_laws

adjustment-Keeps :
    (id user : ℕ) (account : Account) (period_end : Date) (key gap system : ℕ) (adjustment : Amount)
    → Keeps IsSound
        (post_journal id user (adjustment_spec account period_end key gap system adjustment))
adjustment-Keeps id user account period_end key gap system adjustment =
    post_journal-Keeps id user (adjustment_spec account period_end key gap system adjustment)
      (opposite_sum adjustment)

post_adjustment-Keeps :
    (id user : ℕ) (account : Account) (period_end : Date) (key gap : ℕ) (adjustment : Amount)
    → Keeps IsSoundBooks (post_adjustment id user account period_end key gap adjustment)
unfolding post_adjustment
post_adjustment-Keeps id user account period_end key gap adjustment =
    search (keeps_rules, on_ledger-Keeps, adjustment-Keeps) depth 12

reverse_adjustment-Keeps :
    (id user account : ℕ) (period_end : Date) (key : ℕ) (balance : Amount) (old : Option ℕ)
    → Keeps IsSoundBooks (reverse_adjustment id user account period_end key balance old)
unfolding reverse_adjustment
reverse_adjustment-Keeps id user account period_end key balance none = Keeps-pure _
reverse_adjustment-Keeps id user account period_end key balance (some old) =
    search (keeps_rules, on_ledger-Keeps, post_reversal-Keeps) depth 12

replace_current-Keeps :
    (sha1 : ℕ → ℕ → ℕ) (id user account : ℕ) (period_end : Date) (key : ℕ) (balance : Amount)
    (current : Option ℕ)
    → Keeps IsSoundBooks (replace_current sha1 id user account period_end key balance current)
unfolding replace_current
replace_current-Keeps sha1 id user account period_end key balance none = Keeps-pure _
replace_current-Keeps sha1 id user account period_end key balance (some current) =
    search (keeps_rules, reverse_adjustment-Keeps, mark_superseded-Keeps) depth 12

apply_new-Keeps :
    (sha1 : ℕ → ℕ → ℕ) (new : ℕ → ℕ) (q : Request) → Keeps IsSoundBooks (apply_new sha1 new q)
unfolding apply_new
apply_new-Keeps sha1 new q =
    search
      (
        keeps_rules, replace_current-Keeps, post_adjustment-Keeps, insert_reconciliation-Keeps,
        insert_snapshot-Keeps,
      )
      depth 14

known_or-Keeps :
    {A : Type 0} (known : Option A) (m : Tx Books A)
    → Keeps IsSoundBooks m
    → Keeps IsSoundBooks (known_or known m)
known_or-Keeps none m k = k
known_or-Keeps (some a) m k = Keeps-pure a

apply-Keeps :
    (sha1 : ℕ → ℕ → ℕ) (new : ℕ → ℕ) (q : Request)
    → Keeps IsSoundBooks (apply_reconciliation sha1 new q)
unfolding apply_reconciliation
apply-Keeps sha1 new q = search (keeps_rules, known_or-Keeps, apply_new-Keeps) depth 12

submit-Keeps :
    (sha1 : ℕ → ℕ → ℕ) (new : ℕ → ℕ) (now : ℕ) (auto : Bool) (q : Request)
    → Keeps IsSoundBooks (submit sha1 new now auto q)
submit-Keeps sha1 new now true q = search (keeps_rules, apply-Keeps) depth 8
submit-Keeps sha1 new now false q = search (keeps_rules, insert_preview-Keeps) depth 8

prepare_tx-Keeps :
    (sha1 : ℕ → ℕ → ℕ) (new : ℕ → ℕ) (now : ℕ) (today : Option Date) (user : ℕ) (p : Prepare)
    (reported : Amount)
    → Keeps IsSoundBooks (prepare_tx sha1 new now today user p reported)
unfolding prepare_tx
prepare_tx-Keeps sha1 new now today user p reported =
    search (keeps_rules, known_or-Keeps, submit-Keeps) depth 20

confirm_open-Keeps :
    (age : Date → Date → ℕ) (sha1 : ℕ → ℕ → ℕ) (new : ℕ → ℕ) (now : ℕ) (p : Preview)
    → Keeps IsSoundBooks (confirm_open age sha1 new now p)
unfolding confirm_open
confirm_open-Keeps age sha1 new now p =
    search (keeps_rules, apply-Keeps, mark_confirmed-Keeps) depth 16

confirm_preview-Keeps :
    (age : Date → Date → ℕ) (sha1 : ℕ → ℕ → ℕ) (new : ℕ → ℕ) (now : ℕ) (p : Preview)
    (confirmed : Option ℕ)
    → Keeps IsSoundBooks (confirm_preview age sha1 new now p confirmed)
confirm_preview-Keeps age sha1 new now p none = confirm_open-Keeps age sha1 new now p
confirm_preview-Keeps age sha1 new now p (some id) = Keeps-reads (reconciliation_by_id p.user id)

confirm_tx-Keeps :
    (age : Date → Date → ℕ) (sha1 : ℕ → ℕ → ℕ) (new : ℕ → ℕ) (now user id : ℕ)
    → Keeps IsSoundBooks (confirm_tx age sha1 new now user id)
unfolding confirm_tx
confirm_tx-Keeps age sha1 new now user id = search (keeps_rules, confirm_preview-Keeps) depth 10

prepare_parsed-IsSound :
    (sha1 : ℕ → ℕ → ℕ) (new : ℕ → ℕ) (now : ℕ) (today : Option Date) (user : ℕ) (p : Prepare)
    (reported : Option Amount) (b : Books)
    → IsSound b.ledger
    → IsSound (prepare_parsed sha1 new now today user p reported b).1.ledger
prepare_parsed-IsSound sha1 new now today user p none b h = h
prepare_parsed-IsSound sha1 new now today user p (some reported) b h =
    commit_or_rollback-keeps {P = IsSoundBooks} 200 _ b
      (prepare_tx-Keeps sha1 new now today user p reported) h

-- A request to prepare a reconciliation keeps the ledger sound, committed or not.
pub prepare-IsSound :
    (sha1 : ℕ → ℕ → ℕ) (new : ℕ → ℕ) (now : ℕ) (today : Option Date) (session : Option ℕ)
    (body : Option Prepare) (b : Books)
    → IsSound b.ledger
    → IsSound (prepare_reconciliation sha1 new now today session body b).1.ledger
unfolding prepare_reconciliation
prepare-IsSound sha1 new now today none body b h = h
prepare-IsSound sha1 new now today (some user) none b h = h
prepare-IsSound sha1 new now today (some user) (some p) b h =
    prepare_parsed-IsSound sha1 new now today user p _ b h

-- A request to confirm one does too.
pub confirm-IsSound :
    (age : Date → Date → ℕ) (sha1 : ℕ → ℕ → ℕ) (new : ℕ → ℕ) (now : ℕ) (session : Option ℕ) (id : ℕ)
    (b : Books)
    → IsSound b.ledger
    → IsSound (confirm_reconciliation age sha1 new now session id b).1.ledger
unfolding confirm_reconciliation
confirm-IsSound age sha1 new now none id b h = h
confirm-IsSound age sha1 new now (some user) id b h =
    commit_or_rollback-keeps {P = IsSoundBooks} 201 _ b (confirm_tx-Keeps age sha1 new now user id)
      h
