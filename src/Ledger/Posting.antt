-- ===== src/Ledger/Posting.antt =====
-- Double entry across typed operations, opening balances and reversals.
pub mod Effect
pub mod Again
use my_finance.Common.{
  ℕ, ◌≡◌, refl, sym, ◌∙◌, ap, Bool, true, false, not, Option, none, some, List, [], ◌∷◌, arith,
  ◌==◌, ◌&&◌, if◌then◌else◌, find, any, Bool-cases, inl, inr, All, find-All, find-eq-some,
}
use my_finance.Common.Int.{ℤ, pos, ◌+ℤ◌, neg_ℤ, int_laws}
use my_finance.Text.{Text}
use my_finance.Calendar.{Date}
use my_finance.Money.{Amount, negate}
use my_finance.Errors.{
  Error, Result, ok, err, validation, not_found, conflict, reversal_of_reversal, already_reversed,
}
use my_finance.Tx.{Tx, pure, fail, lift, reads, ◌>>=◌, ◌>>◌, require, or_fail}
use my_finance.Tx.Keeps.{
  Keeps, Returns, reads>>=-eq-ok, require>>-eq-ok, >>=-eq-ok, state_path, value_path, ok_path,
  Keeps-bind, Keeps-bind-Returns, Keeps-reads, Keeps-lift, Keeps-require, Keeps-pure, Returns-bind,
  Returns-pure, keeps_rules,
}
use my_finance.Ledger.State.{AccountClass, Entry, Ledger, Transaction, opening_equity, is_reversal}
use my_finance.Ledger.Journal.{
  JournalEntry, posted_is, reversed_by, reversal_spec, opening_lines, post_journal,
  post_opening_balance, post_reversal, negated_lines,
}
use my_finance.Ledger.Operation.{
  OperationType, opening_balance, income, expense, transfer, asset_purchase, unknown_operation,
  Operation, transfer_lines, operation_lines, operation_spec, post_typed_operation, positive_amount,
  optional_description, functional_currency, system_account, is_known,
}
use my_finance.Ledger.Balance.{IsSound, IsBalanced, total, line_sum}
use my_finance.Ledger.Balance.Sound.{post_journal-Keeps}

abbrev SumsToZero : List JournalEntry → Type 0
SumsToZero lines = line_sum lines ≡ pos 0

pub opening_lines-sum :
    (class : AccountClass) (account currency equity equity_currency : ℕ) (amount : Amount)
    → line_sum (opening_lines class account currency equity equity_currency amount) ≡ pos 0
opening_lines-sum AccountClass.liability a c e ec amount = omega int_laws
opening_lines-sum _ a c e ec amount = omega int_laws

-- Two lines of opposite amounts sum to zero, in either order.
pair_sum : (a : Amount) → a +ℤ (negate a +ℤ pos 0) ≡ pos 0
pair_sum a = omega int_laws

pair_sum_negated : (a : Amount) → negate a +ℤ (a +ℤ pos 0) ≡ pos 0
pair_sum_negated a = omega int_laws

transfer_lines-Returns :
    (user currency : ℕ) (source destination : Option ℕ) (amount : Amount)
    → Returns SumsToZero (transfer_lines user currency source destination amount)
unfolding transfer_lines
transfer_lines-Returns user currency source destination amount =
    search (Returns-bind, Returns-pure, pair_sum_negated) depth 14

operation_lines-Returns :
    (user currency equity : ℕ) (amount : Amount) (op : Operation) (kind : OperationType)
    → Returns SumsToZero (operation_lines user currency equity amount op kind)
unfolding operation_lines
operation_lines-Returns user currency equity amount op opening_balance =
    Returns-bind _ _ λ a. Returns-pure _ (opening_lines-sum a.class _ _ _ _ amount)
operation_lines-Returns user currency equity amount op income =
    search (Returns-bind, Returns-pure, pair_sum) depth 14
operation_lines-Returns user currency equity amount op expense =
    search (Returns-bind, Returns-pure, pair_sum_negated) depth 14
operation_lines-Returns user currency equity amount op transfer =
    transfer_lines-Returns user currency op.source op.destination amount
operation_lines-Returns user currency equity amount op asset_purchase =
    transfer_lines-Returns user currency op.source op.destination amount
operation_lines-Returns user currency equity amount op unknown_operation = Returns-pure _ (refl)

transfer_lines-Keeps :
    (user currency : ℕ) (source destination : Option ℕ) (amount : Amount)
    → Keeps IsSound (transfer_lines user currency source destination amount)
unfolding transfer_lines
transfer_lines-Keeps user currency source destination amount = search keeps_rules depth 14

operation_lines-Keeps :
    (user currency equity : ℕ) (amount : Amount) (op : Operation) (kind : OperationType)
    → Keeps IsSound (operation_lines user currency equity amount op kind)
unfolding operation_lines
operation_lines-Keeps user currency equity amount op opening_balance = search keeps_rules depth 14
operation_lines-Keeps user currency equity amount op income = search keeps_rules depth 14
operation_lines-Keeps user currency equity amount op expense = search keeps_rules depth 14
operation_lines-Keeps user currency equity amount op transfer =
    transfer_lines-Keeps user currency op.source op.destination amount
operation_lines-Keeps user currency equity amount op asset_purchase =
    transfer_lines-Keeps user currency op.source op.destination amount
operation_lines-Keeps user currency equity amount op unknown_operation = Keeps-pure []

post_operation-Keeps :
    (id user currency equity : ℕ) (amount : Amount) (op : Operation) (description : Option Text)
    (replaces : Option ℕ)
    → Keeps IsSound (
        operation_lines user currency equity amount op op.kind >>= λ lines.
        post_journal id user (operation_spec op description replaces lines))
post_operation-Keeps id user currency equity amount op description replaces =
    Keeps-bind-Returns SumsToZero _ _ (operation_lines-Keeps user currency equity amount op op.kind)
      (operation_lines-Returns user currency equity amount op op.kind)
      (λ lines zero_sum.
        post_journal-Keeps id user (operation_spec op description replaces lines) zero_sum)

-- A typed operation of any kind keeps the ledger sound.
pub post_typed_operation-Keeps :
    (id user : ℕ) (op : Operation) (replaces : Option ℕ)
    → Keeps IsSound (post_typed_operation id user op replaces)
unfolding post_typed_operation
post_typed_operation-Keeps id user op replaces = search (keeps_rules, post_operation-Keeps) depth 14

pub post_opening_balance-Keeps :
    (id user account : ℕ) (class : AccountClass) (currency equity : ℕ) (amount : Amount)
    (event_date : Date) (key : ℕ)
    → Keeps IsSound
        (post_opening_balance id user account class currency equity amount event_date key)
unfolding post_opening_balance
post_opening_balance-Keeps id user account class currency equity amount event_date key =
    post_journal-Keeps id user _ (opening_lines-sum class account currency equity currency amount)

pub negated_lines-sum :
    (id user : ℕ) (es : List Entry) → line_sum (negated_lines id user es) ≡ neg_ℤ (total id user es)
unfolding negated_lines total
negated_lines-sum id user [] = omega int_laws
negated_lines-sum id user (e ∷ es) = elim (Bool-cases (e.transaction == id && e.user == user)) [
  | inl its ↦ rw its (
      ap (λ (z : ℤ). neg_ℤ e.amount +ℤ z) (negated_lines-sum id user es)
      ∙ neg_sum e.amount (total id user es))
  | inr other ↦ rw other (negated_lines-sum id user es)
]
  where
    neg_sum : (a b : ℤ) → neg_ℤ a +ℤ neg_ℤ b ≡ neg_ℤ (a +ℤ b)
    neg_sum a b = omega int_laws

-- The rest of `postReversal`, after its tests on the original and after those on the reversals.
abbrev post_negated : ℕ → ℕ → ℕ → Option Text → Transaction → List Entry → Tx Ledger ℕ
post_negated id user key description t entries =
    post_journal id user (reversal_spec t key description entries) >>= λ result. pure result.0

abbrev post_unreversed : ℕ → ℕ → ℕ → Option Text → Transaction → Bool → Tx Ledger ℕ
post_unreversed id user key description t already =
    require (not already) (conflict already_reversed)
    >> (reads (λ (x : Ledger). ok x.entries) >>= post_negated id user key description t)

-- What a reversal that went through has checked.
pub post_reversal-eq-ok :
    (id user original key : ℕ) (description : Option Text) (s s' : Ledger) (r : ℕ)
    → post_reversal id user original key description s ≡ ok (r, s')
    → (t : Transaction) × (b : Bool) × (find (posted_is original user) s.transactions ≡ some t)
      × (is_reversal t.kind ≡ false)
      × (any (reversed_by user original) s.transactions ≡ false)
      × (post_journal id user (reversal_spec t key description s.entries) s ≡ ok ((r, b), s'))
unfolding post_reversal
post_reversal-eq-ok id user original key description s s' r h =
    let (t, found, h0) =
      reads>>=-eq-ok
        (λ (x : Ledger). or_fail (find (posted_is original user) x.transactions) not_found) _ s h in
    let (plain, h1) =
      require>>-eq-ok (not (is_reversal t.kind)) (conflict reversal_of_reversal) _ s h0 in
    let (already, asked, h2) =
      reads>>=-eq-ok (λ (x : Ledger). ok (any (reversed_by user original) x.transactions))
        (post_unreversed id user key description t) s h1 in
    let (unreversed, h3) =
      require>>-eq-ok (not already) (conflict already_reversed)
        (reads (λ (x : Ledger). ok x.entries) >>= post_negated id user key description t) s h2 in
    let (entries, same, h4) =
      reads>>=-eq-ok (λ (x : Ledger). ok x.entries) (post_negated id user key description t) s h3 in
    let ((r', b), s1, posted, h5) =
      >>=-eq-ok (post_journal id user (reversal_spec t key description entries))
        (λ result. pure result.0) s h4 in
    (
      t,
      b,
      or_fail-eq-ok _ found,
      not-eq-true _ plain,
      ok_path asked ∙ not-eq-true _ unreversed,
      ap (λ es. post_journal id user (reversal_spec t key description es) s) (ok_path same)
          ∙ posted
          ∙ λ i. ok ((value_path h5 i, b), state_path h5 i),
    )
  where
    or_fail-eq-ok :
        {t : Transaction} (o : Option Transaction) → or_fail o not_found ≡ ok t → o ≡ some t
    or_fail-eq-ok none e = cc
    or_fail-eq-ok (some u) e = ap some (ok_path e)

    not-eq-true : (b : Bool) → not b ≡ true → b ≡ false
    not-eq-true true e = sym e
    not-eq-true false e = refl

-- A reversal keeps the ledger sound.
pub post_reversal-Keeps :
    (id user original key : ℕ) (description : Option Text)
    → Keeps IsSound (post_reversal id user original key description)
post_reversal-Keeps id user original key description = record {
  at = λ s r s' sound h.
      let (t, b, found, plain, unreversed, posted) =
        post_reversal-eq-ok id user original key description s s' r h in
      (post_journal-Keeps id user (reversal_spec t key description s.entries) (
          negated_lines-sum t.id t.user s.entries
          ∙ ap neg_ℤ
              (find-All (posted_is original user) (IsBalanced s.entries) t s.transactions
                sound.balanced found).zero_total
          ∙ neg_zero)).at
        s (r, b) s' sound posted;
}
  where
    neg_zero : neg_ℤ (pos 0) ≡ pos 0
    neg_zero = omega int_laws
