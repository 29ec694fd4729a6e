-- ===== src/Ledger/Balance/Post.antt =====
-- How a call of `postJournal` succeeds, and the tables that it leaves.
use my_finance.Common.{
  ℕ, ◌≤◌, ◌≡◌, ap, ◌∙◌, sym, Bool, true, false, not, ◌∷◌, map, arith, ltb, any, length,
}
use my_finance.Errors.{ok, validation, two_entries_required}
use my_finance.Tx.{◌>>◌, require, pure}
use my_finance.Tx.Keeps.{>>=-eq-ok, require-eq-ok, lift-eq-ok, state_path, value_path}
use my_finance.Ledger.State.{Transaction, Ledger}
use my_finance.Ledger.Schema.{clashes, set_posted, insert_transaction, mark_posted}
use my_finance.Ledger.Journal.{
  JournalSpec, to_transaction, insert_entries, replayed, fill_journal, post_journal,
}
use my_finance.Ledger.Balance.Insert.{prepend, insert_entries-eq}

-- What an INSERT that went through has checked.
pub insert_transaction-true :
    (t : Transaction) (s s' : Ledger)
    → insert_transaction t s ≡ ok (true, s')
    → (s' ≡ record s { transactions = t ∷ s.transactions })
      × (any (clashes t) s.transactions ≡ false)
unfolding insert_transaction
insert_transaction-true t s s' h = ground arith

pub insert_transaction-false :
    (t : Transaction) (s s' : Ledger) → insert_transaction t s ≡ ok (false, s') → s' ≡ s
unfolding insert_transaction
insert_transaction-false t s s' h = ground arith

-- The tables after a fresh posting.
abbrev pub posted_ledger : ℕ → ℕ → JournalSpec → Ledger → Ledger
posted_ledger id user spec s = record s {
  transactions = map (set_posted id user) (to_transaction id user spec ∷ s.transactions);
  entries = prepend id user spec.entries s.entries;
}

pub fill_journal-true :
    (id user : ℕ) (spec : JournalSpec) (s s' : Ledger) (r : ℕ × Bool)
    → fill_journal id user spec true s ≡ ok (r, s')
    → (s' ≡ record s {
      transactions = map (set_posted id user) s.transactions;
      entries = prepend id user spec.entries s.entries;
    })
      × (2 ≤ length spec.entries)
      × (r ≡ (id, false))
unfolding mark_posted
fill_journal-true id user spec s s' r h =
    let (u, s0, checked, h0) =
      >>=-eq-ok (require (not (ltb (length spec.entries) 2)) (validation two_entries_required))
        (λ _. insert_entries id user spec.entries >> (mark_posted id user >> pure (id, false))) s
        h in
    let (many, same) =
      require-eq-ok (not (ltb (length spec.entries) 2)) (validation two_entries_required) s s0 u
        checked in
    let (v, s1, inserted, h1) =
      >>=-eq-ok (insert_entries id user spec.entries) (λ _. mark_posted id user >> pure (id, false))
        s0 h0 in
    (
      sym (state_path h1)
          ∙ ap (λ (x : Ledger). record x { transactions = map (set_posted id user) x.transactions })
              (insert_entries-eq id user spec.entries s0 s1 v inserted)
          ∙ ap
              (λ (x : Ledger). record x {
                transactions = map (set_posted id user) x.transactions;
                entries = prepend id user spec.entries x.entries;
              })
              same,
      ground arith,
      sym (value_path h1),
    )

-- A call with a key that is taken changes nothing.
fill_journal-false :
    (id user : ℕ) (spec : JournalSpec) (s s' : Ledger) (r : ℕ × Bool)
    → fill_journal id user spec false s ≡ ok (r, s')
    → (s' ≡ s) × (replayed user spec.key s ≡ ok r)
fill_journal-false id user spec s s' r h = lift-eq-ok (replayed user spec.key s) s s' h

-- How a call of `postJournal` succeeds: it posts a new transaction, under an id that no other has,
-- or it finds one that is posted under the same key and changes nothing.
pub data Posted (id user : ℕ) (spec : JournalSpec) (s : Ledger) (r : ℕ × Bool) (s' : Ledger)
    : Type 0 where
  fresh :
      any (clashes (to_transaction id user spec)) s.transactions ≡ false
      → 2 ≤ length spec.entries
      → r ≡ (id, false)
      → s' ≡ posted_ledger id user spec s
      → Posted id user spec s r s'
  replay : replayed user spec.key s ≡ ok r → s' ≡ s → Posted id user spec s r s'

fill_journal-Posted :
    (id user : ℕ) (spec : JournalSpec) (s t s' : Ledger) (inserted : Bool) (r : ℕ × Bool)
    → insert_transaction (to_transaction id user spec) s ≡ ok (inserted, t)
    → fill_journal id user spec inserted t ≡ ok (r, s')
    → Posted id user spec s r s'
fill_journal-Posted id user spec s t s' true r ins fill =
    let (same, unique) = insert_transaction-true (to_transaction id user spec) s t ins in
    let (final, many, is_new) = fill_journal-true id user spec t s' r fill in
    fresh unique many is_new (
      final
      ∙ ap
          (λ (x : Ledger). record x {
            transactions = map (set_posted id user) x.transactions;
            entries = prepend id user spec.entries x.entries;
          })
          same)
fill_journal-Posted id user spec s t s' false r ins fill =
    let same = insert_transaction-false (to_transaction id user spec) s t ins in
    let (final, found) = fill_journal-false id user spec t s' r fill in
    replay (ap (replayed user spec.key) (sym same) ∙ found) (final ∙ same)

pub post_journal-Posted :
    (id user : ℕ) (spec : JournalSpec) (s s' : Ledger) (r : ℕ × Bool)
    → post_journal id user spec s ≡ ok (r, s')
    → Posted id user spec s r s'
unfolding post_journal
post_journal-Posted id user spec s s' r h =
    let (inserted, t, ins, fill) =
      >>=-eq-ok (insert_transaction (to_transaction id user spec)) (fill_journal id user spec) s
        h in
    fill_journal-Posted id user spec s t s' inserted r ins fill
