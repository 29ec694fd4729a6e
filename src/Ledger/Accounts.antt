-- ===== src/Ledger/Accounts.antt =====
-- `ensureLedgerInfrastructure` and `createCategoryInTx` of internal/httpapi/ledger.go, with the constraints of the tables they write. `new` supplies the ids
-- that `uuid.New` and the database draw; PostgreSQL's `lower` is an argument.
use my_finance.Common.{
  ℕ, Bool, true, false, not, ◌&&◌, ◌||◌, Option, none, some, ◌∷◌, map, ◌==◌, if◌then◌else◌, is_some,
  any, find, is_empty,
}
use my_finance.Text.{Text, codes, text_eq, trim_left, trim_right}
use my_finance.Errors.{ok, err, unique_violation, check_violation, foreign_key_violation}
use my_finance.Tx.{Tx, pure, reads, ◌>>=◌, ◌>>◌}
use my_finance.Ledger.State.{
  AccountClass, equity, income, expense, Role, user_role, system_role, category_role, SystemCode,
  opening_equity, unrealized_gain_loss, other_income, other_expense, Subtype, equity_subtype,
  category_subtype, Direction, income_direction, expense_direction, Account, Category, Ledger,
  has_code, same_direction,
}
use my_finance.Ledger.Schema.{is_blank}
use my_finance.Ledger.Operation.{functional_currency, user_is}

-- `length(btrim(name)) > 0`
abbrev pub name_ok : Text → Bool
name_ok name = not (is_empty (trim_right is_blank (trim_left is_blank name)))

-- `ledger_accounts_role_class_valid`
abbrev pub role_fits : Role → AccountClass → Bool
role_fits user_role AccountClass.asset = true
role_fits user_role AccountClass.liability = true
role_fits user_role c = false
role_fits r AccountClass.asset = false
role_fits r AccountClass.liability = false
role_fits category_role equity = false
role_fits r c = true

abbrev is_system : Role → Bool
is_system system_role = true
is_system r = false

-- `ledger_accounts_system_code_valid`
abbrev pub code_fits : Role → Option SystemCode → Bool
code_fits r c = if is_system r then is_some c else not (is_some c)

abbrev shared_code : Option SystemCode → Option SystemCode → Bool
shared_code none d = false
shared_code (some c) d = has_code c d

-- The primary key, and the index on the system codes.
abbrev pub account_clashes : Account → Account → Bool
account_clashes a b = b.id == a.id || (b.user == a.user && shared_code a.system_code b.system_code)

-- `INSERT INTO ledger_accounts`
unfoldable pub insert_account : Account → Tx Ledger (Unit {0})
insert_account a s =
    if not (name_ok a.name && role_fits a.role a.class && code_fits a.role a.system_code)
    then err check_violation
    else if any (account_clashes a) s.accounts
    then err unique_violation
    else if not (any (user_is a.user) s.users)
    then err foreign_key_violation
    else ok (tt, record s { accounts = a ∷ s.accounts })

abbrev pub coded : ℕ → SystemCode → Account → Bool
coded user c a = a.user == user && has_code c a.system_code

abbrev pub set_name : ℕ → SystemCode → Text → Account → Account
set_name user c name a = if coded user c a then record a { name = name } else a

-- `systems`
pub record System : Type 0 where
  pub code : SystemCode
  pub name : Text
  pub class : AccountClass

abbrev pub system_subtype : AccountClass → Subtype
system_subtype equity = equity_subtype
system_subtype c = category_subtype

abbrev pub system_row : ℕ → ℕ → ℕ → System → Account
system_row id user currency system = record {
  id = id;
  user = user;
  name = system.name;
  class = system.class;
  subtype = system_subtype system.class;
  role = system_role;
  currency = currency;
  system_code = some system.code;
  archived = false;
}

abbrev pub rename_system : ℕ → System → Tx Ledger (Unit {0})
rename_system user system s =
    ok (tt, record s { accounts = map (set_name user system.code system.name) s.accounts })

-- The row of the user's system account, or a new one.
abbrev pub keep_or_insert : ℕ → ℕ → ℕ → System → Option Account → Tx Ledger ℕ
keep_or_insert id user currency system none =
    insert_account (system_row id user currency system) >> pure id
keep_or_insert id user currency system (some a) = rename_system user system >> pure a.id

-- `INSERT … ON CONFLICT (user_id, system_code) … DO UPDATE SET name = EXCLUDED.name RETURNING id`
unfoldable pub upsert_system : ℕ → ℕ → ℕ → System → Tx Ledger ℕ
upsert_system id user currency system = do
  found ← reads (λ (s : Ledger). ok (find (coded user system.code) s.accounts))
  keep_or_insert id user currency system found

-- `UNIQUE` of the categories, and the index on the active names.
abbrev pub category_clashes : (Text → Text) → Category → Category → Bool
category_clashes lower c d =
    d.id == c.id
    || d.ledger_account == c.ledger_account
    || (d.user == c.user
        && same_direction c.direction d.direction
        && not d.archived
        && not c.archived
        && text_eq (lower d.name) (lower c.name))

abbrev category_account : Category → Account → Bool
category_account c a = a.id == c.ledger_account && a.user == c.user

-- `INSERT INTO categories`
unfoldable pub insert_category : (Text → Text) → Category → Tx Ledger (Unit {0})
insert_category lower c s =
    if not (name_ok c.name)
    then err check_violation
    else if any (category_clashes lower c) s.categories
    then err unique_violation
    else if not (any (category_account c) s.accounts)
    then err foreign_key_violation
    else ok (tt, record s { categories = c ∷ s.categories })

abbrev pub class_of : Direction → AccountClass
class_of income_direction = income
class_of expense_direction = expense

abbrev pub category_ledger_account : ℕ → ℕ → Text → Direction → ℕ → Account
category_ledger_account id user name direction currency = record {
  id = id;
  user = user;
  name = name;
  class = class_of direction;
  subtype = category_subtype;
  role = category_role;
  currency = currency;
  system_code = none;
  archived = false;
}

-- `createCategoryInTx`
unfoldable pub create_category_in_tx :
    (Text → Text) → ℕ → ℕ → ℕ → Text → Direction → ℕ → Tx Ledger Category
create_category_in_tx lower account_id category_id user name direction currency = do
  let category : Category = record {
    id = category_id;
    user = user;
    name = name;
    direction = direction;
    ledger_account = account_id;
    archived = false;
  }
  insert_account (category_ledger_account account_id user name direction currency)
  insert_category lower category
  pure category

abbrev pub active_in : ℕ → Direction → Category → Bool
active_in user d c = c.user == user && same_direction c.direction d && not c.archived

-- The loop over the seeds: a category is made when the user has no active one of the direction.
unfoldable pub seed_category :
    (Text → Text) → ℕ → ℕ → ℕ → ℕ → Text → Direction → Tx Ledger (Unit {0})
seed_category lower account_id category_id user currency name direction = do
  exists ← reads (λ (s : Ledger). ok (any (active_in user direction) s.categories))
  if exists
      then pure tt
      else create_category_in_tx lower account_id category_id user name direction currency
        >> pure tt

-- `ensureLedgerInfrastructure`: the functional currency and the account of opening equity.
unfoldable pub ensure_ledger_infrastructure : (Text → Text) → (ℕ → ℕ) → ℕ → Tx Ledger (ℕ × ℕ)
ensure_ledger_infrastructure lower new user = do
  currency ← reads (functional_currency user)
  opening ←
      upsert_system (new 0) user currency
        (record { code = opening_equity; name = codes "Opening balance equity"; class = equity })
  upsert_system (new 1) user currency (record {
    code = unrealized_gain_loss;
    name = codes "Unrealized gain / loss";
    class = equity;
  })
  upsert_system (new 2) user currency
      (record { code = other_income; name = codes "Other income"; class = income })
  upsert_system (new 3) user currency
      (record { code = other_expense; name = codes "Other expense"; class = expense })
  seed_category lower (new 4) (new 5) user currency (codes "General income") income_direction
  seed_category lower (new 6) (new 7) user currency (codes "General expense") expense_direction
  pure (currency, opening)
