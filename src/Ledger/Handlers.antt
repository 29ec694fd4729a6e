-- ===== src/Ledger/Handlers.antt =====
-- The handlers of internal/httpapi/ledger.go that write. A request without a session is `none`, and
-- so is a body that `readJSON` refuses. Each transaction is serializable, so a handler is one step.
pub mod Changes
pub mod Transactions
pub mod Laws
use my_finance.Common.{
  ℕ, Bool, true, false, not, ◌&&◌, ◌||◌, Option, none, some, List, [], ◌∷◌, ◌++◌, map, ltb, ◌==◌,
  if◌then◌else◌, is_some, any, find, is_empty, bool_eq,
}
use my_finance.Text.{Text, trim_space, len, text_eq}
use my_finance.Calendar.{Date}
use my_finance.Money.{Amount, parse, is_zero}
use my_finance.Errors.{
  Error, Result, ok, err, Reply, success, failure, write_ledger_error, not_found, fx_unavailable,
  currency_locked, unique_violation, check_violation, code_unauthenticated, code_invalid_request,
  code_empty_update, code_validation_failed,
}
use my_finance.Tx.{Tx, pure, fail, lift, reads, or_fail, ◌>>=◌, ◌>>◌, require, commit_or_rollback}
use my_finance.Ledger.State.{
  AccountClass, asset, liability, Subtype, mortgage, loan, other, equity_subtype, category_subtype,
  user_role, Direction, Account, Category, Entry, Ledger, same_direction,
}
use my_finance.Ledger.Schema.{category_is}
use my_finance.Ledger.Journal.{post_opening_balance, post_reversal}
use my_finance.Ledger.Operation.{Operation, user_account, post_typed_operation}
use my_finance.Ledger.Accounts.{
  insert_account, create_category_in_tx, ensure_ledger_infrastructure, name_ok, category_clashes,
}
use my_finance.Ledger.Views.{
  AccountView, get_owned_account, TransactionView, get_transaction, posts_to,
}

abbrev with_body : {S P A : Type 0} → Option P → (P → S → Reply A × S) → S → Reply A × S
with_body none k s = (failure 400 code_invalid_request, s)
with_body (some p) k s = k p s

-- `requireAuthenticatedSession` and `readJSON`, before the rest of a handler.
abbrev pub on_request :
    {S P A : Type 0} → Option ℕ → Option P → (ℕ → P → S → Reply A × S) → S → Reply A × S
on_request none body k s = (failure 401 code_unauthenticated, s)
on_request (some user) body k s = with_body body (k user) s

abbrev reread : {B : Type 0} → ℕ → Result B → Reply B
reread status (ok b) = success status b
reread status (err e) = write_ledger_error e

-- The payload of a reply is read again, after the commit.
abbrev pub then_read : {S A B : Type 0} → (A → S → Result B) → Reply A × S → Reply B × S
then_read f (success status a, s) = (reread status (f a s), s)
then_read f (failure status c, s) = (failure status c, s)

-- `api.UserAccountClass`; `unknown_class` is any other text.
pub data UserAccountClass : Type 0 where
  asset_class liability_class unknown_class : UserAccountClass

-- `api.CreateAccountRequest`; a subtype or a currency that `Valid` refuses is `none`.
pub record CreateAccount : Type 0 where
  pub name : Text
  pub class : UserAccountClass
  pub subtype : Option Subtype
  pub currency : Option ℕ
  pub opening_balance : Option Text
  pub opening_date : Option Date
  pub key : Option ℕ

pub data Field : Type 0 where
  name_field class_field subtype_field currency_field opening_field : Field

abbrev pub name_refused : Text → Bool
name_refused name = len (trim_space name) == 0 || ltb 100 (len name)

abbrev is_known_class : UserAccountClass → Bool
is_known_class unknown_class = false
is_known_class c = true

abbrev is_asset_class : UserAccountClass → Bool
is_asset_class asset_class = true
is_asset_class c = false

abbrev is_liability_class : UserAccountClass → Bool
is_liability_class liability_class = true
is_liability_class c = false

-- `subtype.Valid()`: the subtypes of user accounts.
abbrev subtype_known : Option Subtype → Bool
subtype_known none = false
subtype_known (some equity_subtype) = false
subtype_known (some category_subtype) = false
subtype_known (some t) = true

abbrev liability_type : Option Subtype → Bool
liability_type (some loan) = true
liability_type (some mortgage) = true
liability_type t = false

abbrev is_other : Option Subtype → Bool
is_other (some other) = true
is_other t = false

abbrev flag : Bool → Field → List Field
flag b f = if b then f ∷ [] else []

-- `validateAccount`: the keys of its map.
unfoldable pub validate_account : Text → UserAccountClass → Option Subtype → Option ℕ → List Field
validate_account name class subtype currency =
    flag (name_refused name) name_field
    ++ flag (not (is_known_class class)) class_field
    ++ flag
        (not (subtype_known subtype)
          || (is_asset_class class && liability_type subtype)
          || (is_liability_class class && not (liability_type subtype) && not (is_other subtype)))
        subtype_field
    ++ flag (not (is_some currency)) currency_field

abbrev unparsed : Option Text → Bool
unparsed none = false
unparsed (some t) = not (is_some (parse t))

-- The tests of `CreateAccount` before its transaction.
unfoldable pub account_fields : CreateAccount → List Field
account_fields p =
    validate_account p.name p.class p.subtype p.currency
    ++ flag
        (not (bool_eq (is_some p.opening_balance) (is_some p.opening_date))
          || unparsed p.opening_balance)
        opening_field

abbrev ledger_class : UserAccountClass → AccountClass
ledger_class asset_class = asset
ledger_class c = liability

abbrev or_key : ℕ → Option ℕ → ℕ
or_key fresh none = fresh
or_key fresh (some key) = key

-- The opening balance, when there is one that is not zero.
abbrev pub open_account :
    (ℕ → ℕ)
    → ℕ
    → ℕ
    → AccountClass
    → ℕ
    → ℕ
    → ℕ
    → Option Amount
    → Option Date
    → Option ℕ
    → Tx Ledger (Unit {0})
open_account new user account class currency functional equity (some opening) (some event_date)
      key =
    if is_zero opening
    then pure tt
    else require (currency == functional) fx_unavailable
      >> post_opening_balance (new 9) user account class currency equity opening event_date
          (or_key (new 10) key)
      >> pure tt
open_account new user account class currency functional equity opening event_date key = pure tt

abbrev parsed : Option Text → Option Amount
parsed none = none
parsed (some t) = parse t

abbrev pub user_row : ℕ → ℕ → Text → AccountClass → Subtype → ℕ → Account
user_row id user name class subtype currency = record {
  id = id;
  user = user;
  name = name;
  class = class;
  subtype = subtype;
  role = user_role;
  currency = currency;
  system_code = none;
  archived = false;
}

-- The transaction of `CreateAccount`.
unfoldable pub create_account_tx :
    (Text → Text) → (ℕ → ℕ) → ℕ → CreateAccount → Subtype → ℕ → Tx Ledger ℕ
create_account_tx lower new user p subtype currency = do
  (functional, equity) ← ensure_ledger_infrastructure lower new user
  insert_account (user_row (new 8) user (trim_space p.name) (ledger_class p.class) subtype currency)
  open_account new user (new 8) (ledger_class p.class) currency functional equity
      (parsed p.opening_balance) p.opening_date p.key
  pure (new 8)

abbrev pub create_valid :
    (Text → Text)
    → (ℕ → ℕ)
    → ℕ
    → CreateAccount
    → Option Subtype
    → Option ℕ
    → Ledger
    → Reply ℕ × Ledger
create_valid lower new user p (some subtype) (some currency) s =
    commit_or_rollback 201 (create_account_tx lower new user p subtype currency) s
create_valid lower new user p subtype currency s = (failure 400 code_validation_failed, s)

-- `CreateAccount`
unfoldable pub create_account :
    (Text → Text) → (ℕ → ℕ) → Option ℕ → Option CreateAccount → Ledger → Reply AccountView × Ledger
create_account lower new session body = on_request session body λ user p s.
    if not (is_empty (account_fields p))
    then (failure 400 code_validation_failed, s)
    else then_read (get_owned_account user) (create_valid lower new user p p.subtype p.currency s)
