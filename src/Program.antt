-- ===== src/Program.antt =====
-- The operations of internal/httpapi that write, as steps on the ledger that they share. Each also has
-- tables of its own, which are whatever they are.
use my_finance.Common.{ℕ, Option}
use my_finance.Calendar.{Date}
use my_finance.Ledger.State.{Ledger}
use my_finance.Ledger.Balance.{IsSound}
use my_finance.Ledger.Requests.{Serves, Serves-IsSound}
use my_finance.Recurring.Templates.{Plans}
use my_finance.Recurring.Evolution.{Changes}
use my_finance.Recurring.Sound.{Changes-IsSound}
use my_finance.Assets.{Holdings}
use my_finance.Assets.Dealings.{Deals, Deals-IsSound}
use my_finance.Reconciliation.State.{Books}
use my_finance.Reconciliation.Handlers.{Prepare, prepare_reconciliation, confirm_reconciliation}
use my_finance.Reconciliation.Sound.{prepare-IsSound, confirm-IsSound}

-- One request, answered or refused, or one run of the worker that succeeds.
pub data Moves : Ledger → Ledger → Type 0 where
  -- Accounts, categories and transactions are created, changed, reversed and replaced.
  serves : {s t : Ledger} → Serves s t → Moves s t
  -- Templates are created and changed, and yield their journals.
  changes : {p q : Plans} → Changes p q → Moves p.ledger q.ledger
  -- Assets are created, bought, changed and valued.
  deals : {h i : Holdings} → Deals h i → Moves h.ledger i.ledger
  prepares :
      (sha1 : ℕ → ℕ → ℕ) (new : ℕ → ℕ) (now : ℕ) (today : Option Date) (session : Option ℕ)
      (body : Option Prepare) (b : Books)
      → Moves b.ledger (prepare_reconciliation sha1 new now today session body b).1.ledger
  confirms :
      (age : Date → Date → ℕ) (sha1 : ℕ → ℕ → ℕ) (new : ℕ → ℕ) (now : ℕ) (session : Option ℕ)
      (id : ℕ) (b : Books)
      → Moves b.ledger (confirm_reconciliation age sha1 new now session id b).1.ledger

-- One after the other.
pub data Runs : Ledger → Ledger → Type 0 where
  here : {s : Ledger} → Runs s s
  next : {s t u : Ledger} → Runs s t → Moves t u → Runs s u

Moves-IsSound : {s t : Ledger} → Moves s t → IsSound s → IsSound t
Moves-IsSound (serves step) h = Serves-IsSound step h
Moves-IsSound (changes step) h = Changes-IsSound step h
Moves-IsSound (deals step) h = Deals-IsSound step h
Moves-IsSound (prepares sha1 new now today session body b) h =
    prepare-IsSound sha1 new now today session body b h
Moves-IsSound (confirms age sha1 new now session id b) h =
    confirm-IsSound age sha1 new now session id b h

-- Whatever is asked of accounts, categories and transactions (to create, change, reverse and replace
-- them), of recurring templates (to create and change them), of assets (to create, buy, change and
-- value them) and of reconciliations (to prepare and confirm them), of whichever users and in whatever
-- order, and whatever runs of the worker succeed in between, a sound ledger stays sound: each
-- transaction is posted with two entries or more that sum to zero, and each entry belongs to a
-- transaction. Requests that list or read are not among these steps, and neither is onboarding.
pub Runs-IsSound : (s t : Ledger) → Runs s t → IsSound s → IsSound t
Runs-IsSound s t here h = h
Runs-IsSound s t (next {t = r} before step) h = Moves-IsSound step (Runs-IsSound s r before h)
