-- ===== src/Ledger/Requests.antt =====
-- Each request of internal/httpapi/ledger.go that writes accounts, categories or transactions as a step,
-- and what it keeps.
use my_finance.Common.{ℕ, ◌≡◌, refl, Option, none, some, List, Bool, true, false, if◌then◌else◌}
use my_finance.Text.{Text}
use my_finance.Errors.{Code, Reply, Result, success, failure}
use my_finance.Tx.{Tx, commit_or_rollback}
use my_finance.Tx.Keeps.{Keeps, commit_or_rollback-keeps}
use my_finance.Ledger.State.{Direction, Entry, Subtype, Ledger}
use my_finance.Ledger.Operation.{Operation}
use my_finance.Ledger.Balance.{IsSound}
use my_finance.Ledger.Posting.{post_reversal-Keeps}
use my_finance.Ledger.Views.{get_owned_account, get_transaction}
use my_finance.Ledger.Handlers.{CreateAccount, create_account, on_request, then_read, create_valid}
use my_finance.Ledger.Handlers.Changes.{
  CreateCategory, UpdateAccount, UpdateCategory, create_category, update_account, update_category,
  create_directed,
}
use my_finance.Ledger.Handlers.Transactions.{
  Replacement, Reversal, create_transaction, replace_transaction, reverse_transaction, read_both,
}
use my_finance.Ledger.Handlers.Laws.{
  create_account_tx-Keeps, create_category_tx-Keeps, create_transaction_tx-Keeps,
  replace_transaction_tx-Keeps, update_account_tx-Keeps, update_category_tx-Keeps,
}

-- One request, of any user, with any ids drawn and any order of the entries' ids.
pub data Serves : Ledger → Ledger → Type 0 where
  creates_account :
      (lower : Text → Text) (new : ℕ → ℕ) (session : Option ℕ) (body : Option CreateAccount)
      (s : Ledger)
      → Serves s (create_account lower new session body s).1
  updates_account :
      (session : Option ℕ) (body : Option UpdateAccount) (id : ℕ) (s : Ledger)
      → Serves s (update_account session body id s).1
  creates_category :
      (lower : Text → Text) (new : ℕ → ℕ) (session : Option ℕ) (body : Option CreateCategory)
      (s : Ledger)
      → Serves s (create_category lower new session body s).1
  updates_category :
      (lower : Text → Text) (session : Option ℕ) (body : Option UpdateCategory) (id : ℕ)
      (s : Ledger)
      → Serves s (update_category lower session body id s).1
  creates_transaction :
      (order : List Entry → List Entry) (lower : Text → Text) (new : ℕ → ℕ) (session : Option ℕ)
      (body : Option Operation) (s : Ledger)
      → Serves s (create_transaction order lower new session body s).1
  reverses_transaction :
      (order : List Entry → List Entry) (new : ℕ → ℕ) (session : Option ℕ) (body : Option Reversal)
      (id : ℕ) (s : Ledger)
      → Serves s (reverse_transaction order new session body id s).1
  replaces_transaction :
      (order : List Entry → List Entry) (new : ℕ → ℕ) (session : Option ℕ)
      (body : Option Replacement) (id : ℕ) (s : Ledger)
      → Serves s (replace_transaction order new session body id s).1

module _ {A B : Type 0} (f : A → Ledger → Result B) where
  then_read-tables : (r : Reply A × Ledger) → (then_read f r).1 ≡ r.1
  then_read-tables (success status a, s) = refl
  then_read-tables (failure status c, s) = refl

  -- The tables that a handler's transaction leaves, whatever is read afterwards.
  read_after-IsSound :
      (status : ℕ) (m : Tx Ledger A) (s : Ledger)
      → Keeps IsSound m
      → IsSound s
      → IsSound (then_read f (commit_or_rollback status m s)).1
  read_after-IsSound status m s k h =
      rw (then_read-tables (commit_or_rollback status m s))
        (commit_or_rollback-keeps status m s k h)

commit-IsSound :
    {A : Type 0} (status : ℕ) (m : Tx Ledger A) (s : Ledger)
    → Keeps IsSound m
    → IsSound s
    → IsSound (commit_or_rollback status m s).1
commit-IsSound status m s k h = commit_or_rollback-keeps status m s k h

-- A request that reaches no handler changes nothing.
on_request-IsSound :
    {P A : Type 0} (session : Option ℕ) (body : Option P) (k : ℕ → P → Ledger → Reply A × Ledger)
    (s : Ledger)
    → ((user : ℕ) (p : P) → IsSound (k user p s).1)
    → IsSound s
    → IsSound (on_request session body k s).1
on_request-IsSound none body k s hk h = h
on_request-IsSound (some user) none k s hk h = h
on_request-IsSound (some user) (some p) k s hk h = hk user p

-- A request whose tests fail changes nothing.
refused_or-IsSound :
    {A : Type 0} (refused : Bool) (code : Code) (s : Ledger) (r : Reply A × Ledger)
    → IsSound s
    → IsSound r.1
    → IsSound (if refused then (failure 400 code, s) else r).1
refused_or-IsSound true code s r h hr = h
refused_or-IsSound false code s r h hr = hr

create_valid-IsSound :
    (lower : Text → Text) (new : ℕ → ℕ) (user : ℕ) (p : CreateAccount) (subtype : Option Subtype)
    (currency : Option ℕ) (s : Ledger)
    → IsSound s
    → IsSound (create_valid lower new user p subtype currency s).1
create_valid-IsSound lower new user p (some subtype) (some currency) s h =
    commit_or_rollback-keeps 201 _ s (create_account_tx-Keeps lower new user p subtype currency) h
create_valid-IsSound lower new user p none currency s h = h
create_valid-IsSound lower new user p (some subtype) none s h = h

create_valid-then_read-IsSound :
    (lower : Text → Text) (new : ℕ → ℕ) (user : ℕ) (p : CreateAccount) (s : Ledger)
    → IsSound s
    → IsSound
        (then_read
          (get_owned_account user)
          (create_valid lower new user p p.subtype p.currency s)).1
create_valid-then_read-IsSound lower new user p s h =
    rw
      (then_read-tables (get_owned_account user)
        (create_valid lower new user p p.subtype p.currency s))
      (create_valid-IsSound lower new user p p.subtype p.currency s h)

create_directed-IsSound :
    (lower : Text → Text) (new : ℕ → ℕ) (user : ℕ) (name : Text) (direction : Option Direction)
    (s : Ledger)
    → IsSound s
    → IsSound (create_directed lower new user name direction s).1
create_directed-IsSound lower new user name (some direction) s h =
    commit_or_rollback-keeps 201 _ s (create_category_tx-Keeps lower new user name direction) h
create_directed-IsSound lower new user name none s h = h

-- Each of the requests keeps a sound ledger sound.
pub Serves-IsSound : {s s' : Ledger} → Serves s s' → IsSound s → IsSound s'
unfolding create_account create_category create_transaction replace_transaction reverse_transaction
    update_account update_category
Serves-IsSound (creates_transaction order lower new session body s) h =
    on_request-IsSound session body _ s
      (λ user op.
        read_after-IsSound (get_transaction order user) 201 _ s
          (create_transaction_tx-Keeps lower new user op) h)
      h
Serves-IsSound (reverses_transaction order new session body id s) h =
    on_request-IsSound session body _ s
      (λ user p.
        read_after-IsSound (get_transaction order user) 201 _ s
          (post_reversal-Keeps (new 0) user id p.key p.description) h)
      h
Serves-IsSound (replaces_transaction order new session body id s) h =
    on_request-IsSound session body _ s
      (λ user p.
        read_after-IsSound (read_both order user) 201 _ s
          (replace_transaction_tx-Keeps new user id p) h)
      h
Serves-IsSound (creates_account lower new session body s) h =
    on_request-IsSound session body _ s
      (λ user p. search (refused_or-IsSound, create_valid-then_read-IsSound)) h
Serves-IsSound (updates_account session body id s) h =
    on_request-IsSound session body _ s
      (λ user p. search (refused_or-IsSound, read_after-IsSound, update_account_tx-Keeps)) h
Serves-IsSound (creates_category lower new session body s) h =
    on_request-IsSound session body _ s
      (λ user p. search (refused_or-IsSound, create_directed-IsSound)) h
Serves-IsSound (updates_category lower session body id s) h =
    on_request-IsSound session body _ s
      (λ user p. search (refused_or-IsSound, commit-IsSound, update_category_tx-Keeps)) h
