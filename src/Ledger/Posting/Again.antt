-- ===== src/Ledger/Posting/Again.antt =====
-- A posting that is tried again with its key.
use mathlib.Core.Path.{subst}
use my_finance.Common.{
  ℕ, ◌≡◌, refl, sym, ap, ◌∙◌, Bool, true, false, Option, none, some, arith, find, any, ==_refl, ◌≢◌,
}
use my_finance.Errors.{Result, ok, err, conflict, key_not_posted}
use my_finance.Tx.{lift}
use my_finance.Ledger.State.{Ledger, Transaction}
use my_finance.Ledger.Schema.{has_key, row_ok, insert_transaction}
use my_finance.Ledger.Journal.{
  JournalSpec, post_journal, posted_with, replayed, to_transaction, fill_journal,
}
use my_finance.Ledger.Balance.Post.{Posted, fresh, replay, post_journal-Posted, posted_ledger}

-- A new posting is found under its key.
posted_ledger-find :
    (id user : ℕ) (spec : JournalSpec) (s : Ledger)
    → (t : Transaction) × (find
          (posted_with user spec.key)
          (posted_ledger id user spec s).transactions
        ≡ some t)
      × (any (has_key user spec.key) (posted_ledger id user spec s).transactions ≡ true)
      × (t.id ≡ id)
unfolding find any
posted_ledger-find id user spec s = (
  record (to_transaction id user spec) { posted = true },
  rw (==_refl id, ==_refl user, ==_refl spec.key) (rw (==_refl user) refl),
  rw (==_refl id, ==_refl user, ==_refl spec.key) (rw (==_refl user) refl),
  refl,
)

insert_known :
    (t : Transaction) (s : Ledger)
    → row_ok t ≡ true
    → any (has_key t.user t.key) s.transactions ≡ true
    → insert_transaction t s ≡ ok (false, s)
unfolding insert_transaction
insert_known t s fits taken = ground arith

replay_step :
    (next user : ℕ) (later : JournalSpec) (s : Ledger) (r : ℕ × Bool)
    → insert_transaction (to_transaction next user later) s ≡ ok (false, s)
    → replayed user later.key s ≡ ok r
    → post_journal next user later s ≡ ok (r, s)
unfolding post_journal
replay_step next user later s r known found =
    ap
      (λ (x : Result (Bool × Ledger)). elim x [
        | ok (inserted, t) ↦ fill_journal next user later inserted t
        | err e ↦ err e
      ])
      known
    ∙ ap (λ x. lift x s) found

replayed-some :
    (user key : ℕ) (s : Ledger) (t : Transaction)
    → find (posted_with user key) s.transactions ≡ some t
    → replayed user key s ≡ ok (t.id, true)
replayed-some user key s t found =
    ap
      (λ (o : Option Transaction). elim o [
        | none ↦ err (conflict key_not_posted)
        | some u ↦ ok (u.id, true)
      ])
      found

again :
    (id next user : ℕ) (spec later : JournalSpec) (s : Ledger)
    → later.key ≡ spec.key
    → row_ok (to_transaction next user later) ≡ true
    → post_journal next user later (posted_ledger id user spec s)
      ≡ ok ((id, true), posted_ledger id user spec s)
again id next user spec later s same fits =
    let (t, found, taken, its_id) = posted_ledger-find id user spec s in
    replay_step next user later (posted_ledger id user spec s) (id, true)
      (insert_known (to_transaction next user later) (posted_ledger id user spec s) fits
        (ap (λ k. any (has_key user k) (posted_ledger id user spec s).transactions) same ∙ taken))
      (ap (λ k. replayed user k (posted_ledger id user spec s)) same
        ∙ replayed-some user spec.key (posted_ledger id user spec s) t found
        ∙ ap (λ i. ok (i, true)) its_id)

replayed-false : (user key r : ℕ) (s : Ledger) → replayed user key s ≢ ok (r, false)
replayed-false user key r s e = ground arith

-- A journal that is posted under a new id and then posted again under the same key, with whatever
-- content the table's row constraints allow, gives the id of the first and changes nothing.
pub post_journal-again :
    (id next user : ℕ) (spec later : JournalSpec) (s s' : Ledger) (r : ℕ)
    → post_journal id user spec s ≡ ok ((r, false), s')
    → later.key ≡ spec.key
    → row_ok (to_transaction next user later) ≡ true
    → post_journal next user later s' ≡ ok ((r, true), s')
post_journal-again id next user spec later s s' r e same fits =
    outcome (post_journal-Posted id user spec s s' (r, false) e)
  where
    outcome :
        Posted id user spec s (r, false) s' → post_journal next user later s' ≡ ok ((r, true), s')
    outcome (fresh unique many new final) =
        subst (λ x. post_journal next user later x ≡ ok ((r, true), x)) (sym final)
          (again id next user spec later s same fits
            ∙ ap (λ (x : ℕ × Bool). ok ((x.0, true), posted_ledger id user spec s)) (sym new))
    outcome (replay found final) = absurd (replayed-false user spec.key r s found)
