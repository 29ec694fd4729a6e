-- ===== src/Recurring/Dependencies/Postable.antt =====
-- Validated dependencies, and those that a posting asks for.
use my_finance.Common.{ℕ, ◌≡◌, ◌∙◌, true, not, ◌&&◌, List, ◌==◌, arith}
use my_finance.Money.{Amount}
use my_finance.Errors.{ok, fx_unavailable, validation, same_account}
use my_finance.Tx.{Tx, pure, reads, ◌>>=◌, ◌>>◌, require}
use my_finance.Tx.Keeps.{reads>>=-eq-ok, require>>-eq-ok}
use my_finance.Ledger.State.{
  Account, Category, Direction, income_direction, expense_direction, Ledger, is_asset,
}
use my_finance.Ledger.Journal.{JournalEntry}
use my_finance.Ledger.Operation.{
  Operation, OperationType, opening_balance, income, expense, transfer, asset_purchase,
  unknown_operation, functional_currency, load_account, load_category, operation_lines,
  transfer_lines,
}
use my_finance.Recurring.Dependencies.{
  load_asset, matching_category, cashflow_currency, transfer_currency, dependencies_currency,
  validate_dependencies,
}
use my_finance.Recurring.Dependencies.Loads.{
  load_asset-load_account, matching-load_category, reads_step, require_step,
}

-- The rest of a validation after its account, and after its category.
abbrev check_currency : ℕ → Account → Category → Tx Ledger ℕ
check_currency functional a c = require (a.currency == functional) fx_unavailable >> pure a.currency

abbrev check_category_of : ℕ → ℕ → Operation → Direction → Account → Tx Ledger ℕ
check_category_of user functional op d a =
    reads (matching_category user op.category d) >>= check_currency functional a

-- The lines of an operation can be made from the tables, which stay as they are.
abbrev pub IsPostable : ℕ → ℕ → Amount → Operation → OperationType → Ledger → Type 0
IsPostable user equity amount op kind s =
    (currency : ℕ) × (lines : List JournalEntry) × (functional_currency user s ≡ ok currency)
    × (operation_lines user currency equity amount op kind s ≡ ok (lines, s))

income-IsPostable :
    (user functional equity : ℕ) (amount : Amount) (op : Operation) (s s' : Ledger) (r : ℕ)
    → cashflow_currency user functional op.account op.category income_direction s ≡ ok (r, s')
    → (lines : List JournalEntry) × (operation_lines user functional equity amount op income s
        ≡ ok (lines, s))
unfolding cashflow_currency operation_lines
income-IsPostable user functional equity amount op s s' r h =
    let (a, asked, h0) =
      reads>>=-eq-ok (load_asset user op.account)
        (check_category_of user functional op income_direction) s h in
    let (c, found, h1) =
      reads>>=-eq-ok (matching_category user op.category income_direction)
        (check_currency functional a) s h0 in
    let (same, h2) =
      require>>-eq-ok (a.currency == functional) fx_unavailable (pure a.currency) s h1 in
    let (loaded, is_its) = load_asset-load_account user functional op.account s a asked same in
    (
      _,
      reads_step (load_account user functional op.account) _ s a loaded
          ∙ require_step (is_asset a.class) _ _ s is_its
          ∙ reads_step (load_category user op.category income_direction) _ s c
              (matching-load_category user op.category income_direction s c found),
    )

expense-IsPostable :
    (user functional equity : ℕ) (amount : Amount) (op : Operation) (s s' : Ledger) (r : ℕ)
    → cashflow_currency user functional op.account op.category expense_direction s ≡ ok (r, s')
    → (lines : List JournalEntry) × (operation_lines user functional equity amount op expense s
        ≡ ok (lines, s))
unfolding cashflow_currency operation_lines
expense-IsPostable user functional equity amount op s s' r h =
    let (a, asked, h0) =
      reads>>=-eq-ok (load_asset user op.account)
        (check_category_of user functional op expense_direction) s h in
    let (c, found, h1) =
      reads>>=-eq-ok (matching_category user op.category expense_direction)
        (check_currency functional a) s h0 in
    let (same, h2) =
      require>>-eq-ok (a.currency == functional) fx_unavailable (pure a.currency) s h1 in
    let (loaded, is_its) = load_asset-load_account user functional op.account s a asked same in
    (
      _,
      reads_step (load_account user functional op.account) _ s a loaded
          ∙ require_step (is_asset a.class) _ _ s is_its
          ∙ reads_step (load_category user op.category expense_direction) _ s c
              (matching-load_category user op.category expense_direction s c found),
    )

-- The rest of a validation of a transfer.
abbrev check_transfer : ℕ → Account → Account → Tx Ledger ℕ
check_transfer functional a b =
    require (not (a.id == b.id)) (validation same_account)
    >> (require (a.currency == b.currency && a.currency == functional) fx_unavailable
        >> pure a.currency)

abbrev check_destination : ℕ → ℕ → Operation → Account → Tx Ledger ℕ
check_destination user functional op a =
    reads (load_asset user op.destination) >>= check_transfer functional a

both_functional :
    (a b f : ℕ)
    → (a == b && a == f) ≡ true
    → ((a == b) ≡ true) × ((a == f) ≡ true) × ((b == f) ≡ true)
both_functional a b f h = ground arith

transfer-IsPostable :
    (user functional : ℕ) (amount : Amount) (op : Operation) (s s' : Ledger) (r : ℕ)
    → transfer_currency user functional op.source op.destination s ≡ ok (r, s')
    → (lines : List JournalEntry) × (transfer_lines user functional op.source op.destination amount
          s
        ≡ ok (lines, s))
unfolding transfer_currency transfer_lines
transfer-IsPostable user functional amount op s s' r h =
    let (a, asked, h0) =
      reads>>=-eq-ok (load_asset user op.source) (check_destination user functional op) s h in
    let (b, found, h1) =
      reads>>=-eq-ok (load_asset user op.destination) (check_transfer functional a) s h0 in
    let (differ, h2) =
      require>>-eq-ok (not (a.id == b.id)) (validation same_account)
        (require (a.currency == b.currency && a.currency == functional) fx_unavailable
          >> pure a.currency)
        s h1 in
    let (same, h3) =
      require>>-eq-ok (a.currency == b.currency && a.currency == functional) fx_unavailable
        (pure a.currency) s h2 in
    let (alike, a_in, b_in) = both_functional a.currency b.currency functional same in
    let (a_loaded, a_asset) = load_asset-load_account user functional op.source s a asked a_in in
    let (b_loaded, b_asset) =
      load_asset-load_account user functional op.destination s b found b_in in
    (
      _,
      reads_step (load_account user functional op.source) _ s a a_loaded
          ∙ reads_step (load_account user functional op.destination) _ s b b_loaded
          ∙ require_step (not (a.id == b.id)) _ _ s differ
          ∙ require_step (is_asset a.class && is_asset b.class) _ _ s (ground arith)
          ∙ require_step (a.currency == b.currency) _ _ s alike,
    )

dependencies-IsPostable :
    (user functional equity : ℕ) (amount : Amount) (op : Operation) (kind : OperationType)
    (s s' : Ledger) (r : ℕ)
    → dependencies_currency user functional op.account op.category op.source op.destination kind s
      ≡ ok (r, s')
    → (lines : List JournalEntry) × (operation_lines user functional equity amount op kind s
        ≡ ok (lines, s))
unfolding dependencies_currency operation_lines
dependencies-IsPostable user functional equity amount op income s s' r h =
    income-IsPostable user functional equity amount op s s' r h
dependencies-IsPostable user functional equity amount op expense s s' r h =
    expense-IsPostable user functional equity amount op s s' r h
dependencies-IsPostable user functional equity amount op transfer s s' r h =
    transfer-IsPostable user functional amount op s s' r h
dependencies-IsPostable user functional equity amount op asset_purchase s s' r h =
    transfer-IsPostable user functional amount op s s' r h
dependencies-IsPostable user functional equity amount op opening_balance s s' r h = cc
dependencies-IsPostable user functional equity amount op unknown_operation s s' r h = cc

-- When `validateRecurringDependencies` accepts the type and the references of an operation, then on
-- the same tables the `switch` of `postTypedOperation`, called with the user's functional currency,
-- makes the operation's lines for any amount, and does not refuse it.
pub validate_dependencies-IsPostable :
    (user equity : ℕ) (amount : Amount) (op : Operation) (s s' : Ledger) (r : ℕ)
    → validate_dependencies user op.kind op.account op.category op.source op.destination s
      ≡ ok (r, s')
    → IsPostable user equity amount op op.kind s
unfolding validate_dependencies
validate_dependencies-IsPostable user equity amount op s s' r h =
    let (functional, known, rest) =
      reads>>=-eq-ok (functional_currency user)
        (λ f. dependencies_currency user f op.account op.category op.source op.destination op.kind)
        s h in
    let (lines, made) =
      dependencies-IsPostable user functional equity amount op op.kind s s' r rest in
    (functional, lines, known, made)
