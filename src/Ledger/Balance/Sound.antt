-- ===== src/Ledger/Balance/Sound.antt =====
-- Double entry across a call of `postJournal`.
use mathlib.Core.Path.{subst}
use my_finance.Common.{
  ℕ, ◌≤◌, ◌≡◌, refl, ◌∙◌, sym, Bool, true, false, List, [], ◌∷◌, map, arith, ◌==◌, any, length, All,
  All-map, Bool-cases, inl, inr, ==_refl,
}
use my_finance.Common.Int.{pos, int_laws}
use my_finance.Tx.Keeps.{Keeps}
use my_finance.Ledger.State.{Transaction, Entry, Ledger}
use my_finance.Ledger.Schema.{transaction_is, clashes, set_posted}
use my_finance.Ledger.Journal.{JournalEntry, JournalSpec, to_transaction, post_journal}
use my_finance.Ledger.Balance.{total, count, IsBalanced, IsOwned, IsSound, line_sum}
use my_finance.Ledger.Balance.Insert.{
  prepend, total-prepend_self, count-prepend_self, total-prepend_ne, count-prepend_ne,
  total-unknown,
}
use my_finance.Ledger.Balance.Post.{posted_ledger, Posted, fresh, replay, post_journal-Posted}

-- No row that does not clash has the new id.
abbrev pub HasOtherId : ℕ → Transaction → Type 0
HasOtherId id t = (id == t.id) ≡ false

pub no_clash-HasOtherId :
    (t : Transaction) (ts : List Transaction)
    → any (clashes t) ts ≡ false
    → All (HasOtherId t.id) ts
unfolding any
no_clash-HasOtherId t [] h = tt
no_clash-HasOtherId t (u ∷ ts) h = ground (arith, no_clash-HasOtherId t ts)

pub HasOtherId-unknown :
    (id user : ℕ) (ts : List Transaction)
    → All (HasOtherId id) ts
    → any (transaction_is id user) ts ≡ false
unfolding any
HasOtherId-unknown id user [] h = refl
HasOtherId-unknown id user (t ∷ ts) (ht, h) = ground (arith, HasOtherId-unknown id user ts h)

any-set_posted :
    (id user i u : ℕ) (ts : List Transaction)
    → any (transaction_is i u) (map (set_posted id user) ts) ≡ any (transaction_is i u) ts
unfolding any
any-set_posted id user i u [] = refl
any-set_posted id user i u (t ∷ ts) = ground (arith, any-set_posted id user i u ts)

set_posted-IsBalanced :
    (id user : ℕ) (es : List Entry) (t : Transaction)
    → IsBalanced es t
    → IsBalanced es (set_posted id user t)
set_posted-IsBalanced id user es t b = elim (Bool-cases (transaction_is id user t)) [
  | inl its ↦
      rw its (record { is_posted = refl; zero_total = b.zero_total; two_entries = b.two_entries })
  | inr other ↦ rw other b
]

module _ (id user : ℕ) (es : List JournalEntry) (xs : List Entry) where
  -- The new entries leave an older transaction balanced.
  old-IsBalanced :
      (t : Transaction) → HasOtherId id t → IsBalanced xs t → IsBalanced (prepend id user es xs) t
  old-IsBalanced t h b = record {
    is_posted = b.is_posted;
    zero_total = total-prepend_ne id user t.id t.user es xs h ∙ b.zero_total;
    two_entries = rw (count-prepend_ne id user t.id t.user es xs h) b.two_entries;
  }

  old_rows :
      (ts : List Transaction)
      → All (HasOtherId id) ts
      → All (IsBalanced xs) ts
      → All (IsBalanced (prepend id user es xs)) (map (set_posted id user) ts)
  old_rows [] h b = tt
  old_rows (t ∷ ts) (ht, h) (bt, b) =
      (set_posted-IsBalanced id user _ t (old-IsBalanced t ht bt), old_rows ts h b)

prepend-IsOwned :
    (id user : ℕ) (es : List JournalEntry) (xs : List Entry) (ts : List Transaction)
    → any (transaction_is id user) ts ≡ true
    → All (IsOwned ts) xs
    → All (IsOwned ts) (prepend id user es xs)
prepend-IsOwned id user [] xs ts h o = o
prepend-IsOwned id user (e ∷ es) xs ts h o = prepend-IsOwned id user es _ ts h (h, o)

-- The entries stay owned as rows are added and marked.
grown-IsOwned :
    (id user : ℕ) (t : Transaction) (ts : List Transaction) (e : Entry)
    → IsOwned ts e
    → IsOwned (map (set_posted id user) (t ∷ ts)) e
grown-IsOwned id user t ts e h =
    any-set_posted id user e.transaction e.user (t ∷ ts) ∙ unfold any in ground arith

pub posted_ledger-IsSound :
    (id user : ℕ) (spec : JournalSpec) (s : Ledger)
    → IsSound s
    → any (clashes (to_transaction id user spec)) s.transactions ≡ false
    → 2 ≤ length spec.entries
    → line_sum spec.entries ≡ pos 0
    → IsSound (posted_ledger id user spec s)
posted_ledger-IsSound id user spec s sound unique many zero_sum = record {
  balanced =
      (set_new, old_rows id user spec.entries s.entries s.transactions others sound.balanced);
  owned = prepend-IsOwned id user spec.entries s.entries _ is_there (
      All-map _ _ s.entries (grown-IsOwned id user (to_transaction id user spec) s.transactions)
        sound.owned);
}
  where
    others : All (HasOtherId id) s.transactions
    others = no_clash-HasOtherId (to_transaction id user spec) s.transactions unique

    before : (total id user s.entries ≡ pos 0) × (count id user s.entries ≡ 0)
    before =
        total-unknown id user s.transactions s.entries
          (HasOtherId-unknown id user s.transactions others) sound.owned

    set_new :
        IsBalanced
          (prepend id user spec.entries s.entries)
          (set_posted id user (to_transaction id user spec))
    set_new =
        rw (==_refl id, ==_refl user)
          (record {
            is_posted = refl;
            zero_total =
                total-prepend_self id user spec.entries s.entries
                ∙ rw (zero_sum, before.0) (omega int_laws);
            two_entries =
                rw (count-prepend_self id user spec.entries s.entries) (omega (arith, many));
          })

    is_there :
        any
          (transaction_is id user)
          (map (set_posted id user) (to_transaction id user spec ∷ s.transactions))
        ≡ true
    is_there =
        any-set_posted id user id user (to_transaction id user spec ∷ s.transactions)
        ∙ unfold any in rw (==_refl id, ==_refl user)

-- `postJournal` with lines that sum to zero keeps the ledger sound.
pub post_journal-Keeps :
    (id user : ℕ) (spec : JournalSpec)
    → line_sum spec.entries ≡ pos 0
    → Keeps IsSound (post_journal id user spec)
post_journal-Keeps id user spec zero_sum = record {
  at = λ s r s' sound h. outcome s r s' sound (post_journal-Posted id user spec s s' r h);
}
  where
    outcome :
        (s : Ledger) (r : ℕ × Bool) (s' : Ledger)
        → IsSound s
        → Posted id user spec s r s'
        → IsSound s'
    outcome s r s' sound (fresh unique many is_new e) =
        subst IsSound (sym e) (posted_ledger-IsSound id user spec s sound unique many zero_sum)
    outcome s r s' sound (replay found e) = subst IsSound (sym e) sound
