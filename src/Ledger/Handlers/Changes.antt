-- ===== src/Ledger/Handlers/Changes.antt =====
-- `UpdateAccount`, `CreateCategory` and `UpdateCategory` of internal/httpapi/ledger.go.
use my_finance.Common.{
  ℕ, Bool, true, false, not, ◌&&◌, ◌||◌, Option, none, some, map, ◌==◌, if◌then◌else◌, is_some, any,
  find,
}
use my_finance.Text.{Text, trim_space}
use my_finance.Errors.{
  ok, err, Reply, failure, not_found, currency_locked, immutable, unique_violation, check_violation,
  code_empty_update, code_validation_failed,
}
use my_finance.Tx.{Tx, pure, reads, or_fail, ◌>>=◌, ◌>>◌, require, commit_or_rollback}
use my_finance.Ledger.State.{Direction, Account, Category, Ledger}
use my_finance.Ledger.Schema.{category_is}
use my_finance.Ledger.Operation.{user_account}
use my_finance.Ledger.Accounts.{
  create_category_in_tx, ensure_ledger_infrastructure, name_ok, category_clashes,
}
use my_finance.Ledger.Views.{AccountView, get_owned_account, posts_to, of_account}
use my_finance.Ledger.Handlers.{on_request, then_read, name_refused}

-- `api.CurrencyCode` of a payload that may be absent; `some none` is a text that `Valid` refuses.
pub record UpdateAccount : Type 0 where
  pub name : Option Text
  pub currency : Option (Option ℕ)
  pub archived : Option Bool

abbrev pub or_old : {A : Type 0} → A → Option A → A
or_old old none = old
or_old old (some new) = new

abbrev trimmed : Option Text → Option Text
trimmed none = none
trimmed (some t) = some (trim_space t)

abbrev pub bad_name : Option Text → Bool
bad_name none = false
bad_name (some name) = name_refused name

abbrev pub bad_currency : Option (Option ℕ) → Bool
bad_currency (some none) = true
bad_currency c = false

abbrev wanted_currency : ℕ → Option (Option ℕ) → ℕ
wanted_currency old (some (some c)) = c
wanted_currency old c = old

-- The row after the UPDATE.
abbrev pub changed_account : UpdateAccount → Account → Account
changed_account p a = record a {
  name = or_old a.name (trimmed p.name);
  currency = wanted_currency a.currency p.currency;
  archived = or_old a.archived p.archived;
}

abbrev change_if : ℕ → ℕ → UpdateAccount → Account → Account
change_if id user p a = if user_account id user a then changed_account p a else a

-- `UPDATE ledger_accounts`, with its CHECK and `enforce_ledger_account_update_rules`.
unfoldable pub update_account_row : ℕ → ℕ → UpdateAccount → Account → Tx Ledger (Unit {0})
update_account_row id user p a s =
    if not ((changed_account p a).currency == a.currency) && any (of_account id user) s.entries
    then err immutable
    else if not (name_ok (changed_account p a).name)
    then err check_violation
    else ok (tt, record s { accounts = map (change_if id user p) s.accounts })

-- The transaction of `UpdateAccount`; its own reply on a locked currency is `currency_locked`.
unfoldable pub update_account_tx : ℕ → ℕ → UpdateAccount → Tx Ledger ℕ
update_account_tx user id p = do
  a ← reads (λ (s : Ledger). or_fail (find (user_account id user) s.accounts) not_found)
  has_postings ← reads (λ (s : Ledger). ok (any (posts_to id) s.entries))
  require (wanted_currency a.currency p.currency == a.currency || not has_postings) currency_locked
  update_account_row id user p a
  pure id

-- `UpdateAccount`
unfoldable pub update_account :
    Option ℕ → Option UpdateAccount → ℕ → Ledger → Reply AccountView × Ledger
update_account session body id = on_request session body λ user p s.
    if not (is_some p.name) && not (is_some p.currency) && not (is_some p.archived)
    then (failure 400 code_empty_update, s)
    else if bad_name p.name || bad_currency p.currency
    then (failure 400 code_validation_failed, s)
    else then_read (get_owned_account user) (commit_or_rollback 200 (update_account_tx user id p) s)

-- `api.CreateCategoryRequest`; a direction that `Valid` refuses is `none`.
pub record CreateCategory : Type 0 where
  pub name : Text
  pub direction : Option Direction

-- The transaction of `CreateCategory`.
unfoldable pub create_category_tx :
    (Text → Text) → (ℕ → ℕ) → ℕ → Text → Direction → Tx Ledger Category
create_category_tx lower new user name direction = do
  (functional, equity) ← ensure_ledger_infrastructure lower new user
  create_category_in_tx lower (new 8) (new 9) user name direction functional

abbrev pub create_directed :
    (Text → Text) → (ℕ → ℕ) → ℕ → Text → Option Direction → Ledger → Reply Category × Ledger
create_directed lower new user name none s = (failure 400 code_validation_failed, s)
create_directed lower new user name (some direction) s =
    commit_or_rollback 201 (create_category_tx lower new user name direction) s

-- `CreateCategory`
unfoldable pub create_category :
    (Text → Text) → (ℕ → ℕ) → Option ℕ → Option CreateCategory → Ledger → Reply Category × Ledger
create_category lower new session body = on_request session body λ user p s.
    if name_refused p.name
    then (failure 400 code_validation_failed, s)
    else create_directed lower new user (trim_space p.name) p.direction s

pub record UpdateCategory : Type 0 where
  pub name : Option Text
  pub archived : Option Bool

abbrev pub changed_category : UpdateCategory → Category → Category
changed_category p c = record c {
  name = or_old c.name (trimmed p.name);
  archived = or_old c.archived p.archived;
}

abbrev change_category_if : ℕ → ℕ → UpdateCategory → Category → Category
change_category_if id user p c = if category_is id user c then changed_category p c else c

abbrev clashes_with_other : (Text → Text) → Category → Category → Bool
clashes_with_other lower c d = not (d.id == c.id) && category_clashes lower c d

-- The UPDATE of `UpdateCategory`, with the CHECK and the index on the active names.
abbrev pub update_category_row :
    (Text → Text) → UpdateCategory → Option Category → Tx Ledger Category
update_category_row lower p none s = err not_found
update_category_row lower p (some c) s =
    if not (name_ok (changed_category p c).name)
    then err check_violation
    else if any (clashes_with_other lower (changed_category p c)) s.categories
    then err unique_violation
    else ok (
      changed_category p c,
      record s { categories = map (change_category_if c.id c.user p) s.categories },
    )

unfoldable pub update_category_tx : (Text → Text) → ℕ → ℕ → UpdateCategory → Tx Ledger Category
update_category_tx lower user id p = do
  found ← reads (λ (s : Ledger). ok (find (category_is id user) s.categories))
  update_category_row lower p found

-- `UpdateCategory`
unfoldable pub update_category :
    (Text → Text) → Option ℕ → Option UpdateCategory → ℕ → Ledger → Reply Category × Ledger
update_category lower session body id = on_request session body λ user p s.
    if not (is_some p.name) && not (is_some p.archived)
    then (failure 400 code_empty_update, s)
    else if bad_name p.name
    then (failure 400 code_validation_failed, s)
    else commit_or_rollback 200 (update_category_tx lower user id p) s
