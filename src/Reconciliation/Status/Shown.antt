-- ===== src/Reconciliation/Status/Shown.antt =====
-- What the status of internal/httpapi/reconciliation.go shows of a reconciliation.
use my_finance.Common.{◌≡◌, ◌∙◌, ap, false, some, ◌∷◌, find, arith}
use my_finance.Errors.{ok}
use my_finance.Ledger.State.{Account}
use my_finance.Reconciliation.State.{Reconciliation, Books, active_on}
use my_finance.Reconciliation.Apply.{insert_reconciliation}
use my_finance.Reconciliation.Status.{account_status}

-- A reconciliation that is stored is the one that the status of its account shows for its period.
pub insert_reconciliation-account_status :
    (r : Reconciliation) (a : Account) (b b' : Books) (u : Unit {0})
    → r.superseded ≡ false
    → a.id ≡ r.account
    → insert_reconciliation r b ≡ ok (u, b')
    → (account_status r.user r.period_end b' a).reconciliation ≡ some r
unfolding insert_reconciliation find
insert_reconciliation-account_status r a b b' u h same e =
    let rows : b'.reconciliations ≡ r ∷ b.reconciliations = ground arith in
    ap (find (active_on r.user a.id r.period_end)) rows ∙ ground arith
