-- ===== src/Ledger/State.antt =====
-- The rows of the ledger's tables. Ids, keys and currencies are only compared, so they are numbers.
-- Times of creation and update are not modelled: no decision reads them. Of `posted_at` and
-- `archived_at` the code asks only whether they are set.
use my_finance.Common.{ℕ, Bool, true, false, Option, List}
use my_finance.Common.Int.{ℤ}
use my_finance.Text.{Text}
use my_finance.Calendar.{Date}

pub data AccountClass : Type 0 where
  asset liability equity income expense : AccountClass

pub data Role : Type 0 where
  user_role system_role category_role : Role

pub data SystemCode : Type 0 where
  opening_equity unrealized_gain_loss other_income other_expense : SystemCode

pub data Subtype : Type 0 where
  bank cash brokerage real_estate vehicle security mortgage loan other equity_subtype : Subtype
  category_subtype : Subtype

pub data Direction : Type 0 where
  income_direction expense_direction : Direction

pub data TransactionType : Type 0 where
  opening_balance_type income_type expense_type transfer_type asset_purchase_type : TransactionType
  reconciliation_type revaluation_type reversal_type : TransactionType

pub record User : Type 0 where
  pub id : ℕ
  pub functional_currency : ℕ
  -- `reconciliation_mode = 'AUTO'`
  pub auto_mode : Bool

pub record Account : Type 0 where
  pub id : ℕ
  pub user : ℕ
  pub name : Text
  pub class : AccountClass
  pub subtype : Subtype
  pub role : Role
  pub currency : ℕ
  pub system_code : Option SystemCode
  pub archived : Bool

pub record Category : Type 0 where
  pub id : ℕ
  pub user : ℕ
  pub name : Text
  pub direction : Direction
  pub ledger_account : ℕ
  pub archived : Bool

pub record Transaction : Type 0 where
  pub id : ℕ
  pub user : ℕ
  pub kind : TransactionType
  pub event_date : Date
  pub description : Option Text
  pub key : ℕ
  pub reverses : Option ℕ
  pub replaces : Option ℕ
  pub posted : Bool

-- `amount` is both `original_amount` and `functional_amount`, scaled by 10 ^ 8: the code inserts
-- one parameter for the two, with the rate 1.
pub record Entry : Type 0 where
  pub transaction : ℕ
  pub user : ℕ
  pub account : ℕ
  pub category : Option ℕ
  pub amount : ℤ
  pub currency : ℕ

-- Newest rows first.
pub record Ledger : Type 0 where
  pub users : List User
  pub accounts : List Account
  pub categories : List Category
  pub transactions : List Transaction
  pub entries : List Entry

abbrev pub is_asset : AccountClass → Bool
is_asset asset = true
is_asset c = false

abbrev pub is_liability : AccountClass → Bool
is_liability liability = true
is_liability c = false

abbrev pub is_user_role : Role → Bool
is_user_role user_role = true
is_user_role r = false

abbrev pub is_reversal : TransactionType → Bool
is_reversal reversal_type = true
is_reversal t = false

abbrev pub same_direction : Direction → Direction → Bool
same_direction income_direction income_direction = true
same_direction expense_direction expense_direction = true
same_direction d e = false

abbrev pub same_code : SystemCode → SystemCode → Bool
same_code opening_equity opening_equity = true
same_code unrealized_gain_loss unrealized_gain_loss = true
same_code other_income other_income = true
same_code other_expense other_expense = true
same_code c d = false

abbrev pub has_code : SystemCode → Option SystemCode → Bool
has_code c Option.none = false
has_code c (Option.some d) = same_code c d
