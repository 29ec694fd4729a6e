-- ===== src/Tx.antt =====
-- A database transaction: code that reads and changes the tables, and may fail. A failure carries
-- no tables: every error path of the code returns without `tx.Commit`, and the deferred
-- `tx.Rollback` restores the tables as they were (`commit_or_rollback`).
pub mod Keeps
use my_finance.Common.{ℕ, ◌≡◌, refl, ap, Bool, true, false, Option, none, some, if◌then◌else◌}
use my_finance.Errors.{Error, Result, ok, err, Reply, success, write_ledger_error}

abbrev pub Tx : Type 0 → Type 0 → Type 0
Tx S A = S → Result (A × S)

module _ {S A : Type 0} where
  abbrev pub pure : A → Tx S A
  pure a s = ok (a, s)

  abbrev pub fail : Error → Tx S A
  fail e s = err e

  -- A value of the code that is an error or not, such as a parsed number.
  abbrev pub lift : Result A → Tx S A
  lift (ok a) s = ok (a, s)
  lift (err e) s = err e

  -- A query: the tables stay as they are.
  abbrev pub reads : (S → Result A) → Tx S A
  reads f s = lift (f s) s

abbrev pub or_fail : {A : Type 0} → Option A → Error → Result A
or_fail none e = err e
or_fail (some a) e = ok a

infixl 5 ◌>>=◌ ◌>>◌
abbrev pub ◌>>=◌ : {S A B : Type 0} → Tx S A → (A → Tx S B) → Tx S B
◌>>=◌ m f s = elim (m s) [ ok (a, s') ↦ f a s' | err e ↦ err e ]

abbrev pub ◌>>◌ : {S A B : Type 0} → Tx S A → Tx S B → Tx S B
m >> k = m >>= λ _. k

-- Fails with `e` unless `b` holds.
abbrev pub require : {S : Type 0} → Bool → Error → Tx S (Unit {0})
require b e s = if b then ok (tt, s) else err e

-- A step on a part of the tables.
abbrev put_back : {S T A : Type 0} → (T → S) → Result (A × T) → Result (A × S)
put_back put (ok (a, t)) = ok (a, put t)
put_back put (err e) = err e

abbrev pub zoom : {S T A : Type 0} → (S → T) → (S → T → S) → Tx T A → Tx S A
zoom get put m s = put_back (put s) (m (get s))

abbrev pub settle : {S A : Type 0} → ℕ → S → Result (A × S) → Reply A × S
settle status s (ok (a, s')) = (success status a, s')
settle status s (err e) = (write_ledger_error e, s)

-- A handler's transaction: committed with the reply `status`, or rolled back.
unfoldable pub commit_or_rollback : {S A : Type 0} → ℕ → Tx S A → S → Reply A × S
commit_or_rollback status m s = settle status s (m s)
