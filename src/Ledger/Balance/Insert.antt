-- ===== src/Ledger/Balance/Insert.antt =====
-- The totals of the transactions as entries are inserted.
use my_finance.Common.{
  ℕ, ◌+◌, ◌≡◌, refl, ap, ◌∙◌, sym, true, false, List, [], ◌∷◌, arith, ◌==◌, any, length, All,
  Bool-cases, inl, inr, ==_refl, ◌≢◌,
}
use my_finance.Common.Int.{pos, ◌+ℤ◌, int_laws}
use my_finance.Errors.{ok}
use my_finance.Tx.Keeps.{>>=-eq-ok, state_path}
use my_finance.Ledger.State.{Transaction, Entry, Ledger}
use my_finance.Ledger.Schema.{transaction_is, insert_entry}
use my_finance.Ledger.Journal.{JournalEntry, to_entry, insert_entries}
use my_finance.Ledger.Balance.{belongs, total, count, IsOwned, line_sum}

-- The table after the loop over the lines.
abbrev pub prepend : ℕ → ℕ → List JournalEntry → List Entry → List Entry
prepend id user [] xs = xs
prepend id user (e ∷ es) xs = prepend id user es (to_entry id user e ∷ xs)

insert_entry-eq :
    (e : Entry) (s s' : Ledger) (u : Unit {0})
    → insert_entry e s ≡ ok (u, s')
    → s' ≡ record s { entries = e ∷ s.entries }
unfolding insert_entry
insert_entry-eq e s s' u h = ground arith

pub insert_entries-eq :
    (id user : ℕ) (es : List JournalEntry) (s s' : Ledger) (u : Unit {0})
    → insert_entries id user es s ≡ ok (u, s')
    → s' ≡ record s { entries = prepend id user es s.entries }
unfolding insert_entries
insert_entries-eq id user [] s s' u h = sym (state_path h)
insert_entries-eq id user (e ∷ es) s s' u h =
    let (a, t, ins, rest) =
      >>=-eq-ok (insert_entry (to_entry id user e)) (λ _. insert_entries id user es) s h in
    insert_entries-eq id user es t s' u rest
    ∙ ap (λ (x : Ledger). record x { entries = prepend id user es x.entries })
        (insert_entry-eq (to_entry id user e) s t a ins)

pub total-prepend_self :
    (id user : ℕ) (es : List JournalEntry) (xs : List Entry)
    → total id user (prepend id user es xs) ≡ line_sum es +ℤ total id user xs
unfolding total
total-prepend_self id user [] xs = omega int_laws
total-prepend_self id user (e ∷ es) xs =
    total-prepend_self id user es (to_entry id user e ∷ xs)
    ∙ rw (==_refl id, ==_refl user) (omega int_laws)

pub count-prepend_self :
    (id user : ℕ) (es : List JournalEntry) (xs : List Entry)
    → count id user (prepend id user es xs) ≡ length es + count id user xs
unfolding count
count-prepend_self id user [] xs = omega arith
count-prepend_self id user (e ∷ es) xs =
    count-prepend_self id user es (to_entry id user e ∷ xs) ∙ ground arith

pub total-prepend_ne :
    (id user i u : ℕ) (es : List JournalEntry) (xs : List Entry)
    → (id == i) ≡ false
    → total i u (prepend id user es xs) ≡ total i u xs
unfolding total
total-prepend_ne id user i u [] xs h = refl
total-prepend_ne id user i u (e ∷ es) xs h =
    total-prepend_ne id user i u es (to_entry id user e ∷ xs) h ∙ rw h

pub count-prepend_ne :
    (id user i u : ℕ) (es : List JournalEntry) (xs : List Entry)
    → (id == i) ≡ false
    → count i u (prepend id user es xs) ≡ count i u xs
unfolding count
count-prepend_ne id user i u [] xs h = refl
count-prepend_ne id user i u (e ∷ es) xs h =
    count-prepend_ne id user i u es (to_entry id user e ∷ xs) h ∙ rw h

belongs-eq :
    (id user : ℕ) (e : Entry) → belongs id user e ≡ true → (e.transaction ≡ id) × (e.user ≡ user)
belongs-eq id user e h = ground arith

true≢false : true ≢ false
true≢false e = cc

-- An id that no transaction has, has no entries.
pub total-unknown :
    (id user : ℕ) (ts : List Transaction) (xs : List Entry)
    → any (transaction_is id user) ts ≡ false
    → All (IsOwned ts) xs
    → (total id user xs ≡ pos 0) × (count id user xs ≡ 0)
unfolding total count
total-unknown id user ts [] h o = (refl, refl)
total-unknown id user ts (e ∷ xs) h (oe, o) = elim (Bool-cases (belongs id user e)) [
  | inl its ↦
      let (p, q) = belongs-eq id user e its in
      let same : any (transaction_is e.transaction e.user) ts ≡ any (transaction_is id user) ts =
        λ i. any (transaction_is (p i) (q i)) ts in
      absurd (true≢false (sym oe ∙ same ∙ h))
  | inr other ↦ rw other (total-unknown id user ts xs h o)
]
