-- ===== src/Ledger/Handlers/Transactions.antt =====
-- `CreateTransaction`, `ReverseTransaction` and `ReplaceTransaction` of internal/httpapi/ledger.go.
-- `order` is the order of the entries' ids, which the database draws.
use my_finance.Common.{ℕ, Option, none, some, List}
use my_finance.Text.{Text}
use my_finance.Errors.{Result, ok, err, Reply}
use my_finance.Tx.{Tx, pure, ◌>>=◌, ◌>>◌, commit_or_rollback}
use my_finance.Ledger.State.{Entry, Ledger}
use my_finance.Ledger.Journal.{post_reversal}
use my_finance.Ledger.Operation.{Operation, post_typed_operation}
use my_finance.Ledger.Accounts.{ensure_ledger_infrastructure}
use my_finance.Ledger.Views.{TransactionView, get_transaction}
use my_finance.Ledger.Handlers.{on_request, then_read}

-- The transaction of `CreateTransaction`.
unfoldable pub create_transaction_tx : (Text → Text) → (ℕ → ℕ) → ℕ → Operation → Tx Ledger ℕ
create_transaction_tx lower new user op = do
  ensure_ledger_infrastructure lower new user
  (id, replay) ← post_typed_operation (new 8) user op none
  pure id

-- `CreateTransaction`
unfoldable pub create_transaction :
    (List Entry → List Entry)
    → (Text → Text)
    → (ℕ → ℕ)
    → Option ℕ
    → Option Operation
    → Ledger
    → Reply TransactionView × Ledger
create_transaction order lower new session body = on_request session body λ user op s.
    then_read (get_transaction order user)
      (commit_or_rollback 201 (create_transaction_tx lower new user op) s)

-- `api.ReversalRequest`
pub record Reversal : Type 0 where
  pub key : ℕ
  pub description : Option Text

-- `ReverseTransaction`; `original` is the transaction of the path.
unfoldable pub reverse_transaction :
    (List Entry → List Entry)
    → (ℕ → ℕ)
    → Option ℕ
    → Option Reversal
    → ℕ
    → Ledger
    → Reply TransactionView × Ledger
reverse_transaction order new session body original = on_request session body λ user p s.
    then_read (get_transaction order user)
      (commit_or_rollback 201 (post_reversal (new 0) user original p.key p.description) s)

-- `api.ReplacementRequest`
pub record Replacement : Type 0 where
  pub reversal_key : ℕ
  pub operation : Operation

-- The transaction of `ReplaceTransaction`: the ids of the reversal and of the replacement.
unfoldable pub replace_transaction_tx : (ℕ → ℕ) → ℕ → ℕ → Replacement → Tx Ledger (ℕ × ℕ)
replace_transaction_tx new user original p = do
  reversal ← post_reversal (new 0) user original p.reversal_key none
  (replacement, replay) ← post_typed_operation (new 1) user p.operation (some original)
  pure (reversal, replacement)

abbrev both : {A B : Type 0} → Result A → Result B → Result (A × B)
both (err e) b = err e
both (ok a) (err e) = err e
both (ok a) (ok b) = ok (a, b)

abbrev pub read_both :
    (List Entry → List Entry) → ℕ → ℕ × ℕ → Ledger → Result (TransactionView × TransactionView)
read_both order user ids s =
    both (get_transaction order user ids.0 s) (get_transaction order user ids.1 s)

-- `ReplaceTransaction`
unfoldable pub replace_transaction :
    (List Entry → List Entry)
    → (ℕ → ℕ)
    → Option ℕ
    → Option Replacement
    → ℕ
    → Ledger
    → Reply (TransactionView × TransactionView) × Ledger
replace_transaction order new session body original = on_request session body λ user p s.
    then_read (read_both order user)
      (commit_or_rollback 201 (replace_transaction_tx new user original p) s)
