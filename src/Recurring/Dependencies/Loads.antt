-- ===== src/Recurring/Dependencies/Loads.antt =====
-- The rows that a validation loads, and those that a posting loads.
use my_finance.Common.{
  ℕ, ◌≡◌, refl, sym, ap, ◌∙◌, Bool, true, false, Option, none, some, List, [], ◌∷◌, ◌==◌, find,
  arith,
}
use my_finance.Errors.{Error, Result, ok, err}
use my_finance.Tx.{Tx, lift, reads, ◌>>=◌, ◌>>◌, require}
use my_finance.Ledger.State.{Account, Category, Direction, Ledger, is_asset}
use my_finance.Ledger.Schema.{category_is}
use my_finance.Ledger.Operation.{
  user_account, load_account, check_account, load_category, check_category, category_in,
}
use my_finance.Recurring.Dependencies.{active_asset, load_asset, matching, matching_category}

-- An account that is validated, in the functional currency, is one that a posting may use.
pub load_asset-load_account :
    (user currency : ℕ) (id : Option ℕ) (s : Ledger) (a : Account)
    → load_asset user id s ≡ ok a
    → (a.currency == currency) ≡ true
    → (load_account user currency id s ≡ ok a) × (is_asset a.class ≡ true)
unfolding load_asset load_account
load_asset-load_account user currency none s a h same = cc
load_asset-load_account user currency (some id) s a h same =
    go (find (user_account id user) s.accounts) h
  where
    go :
        (o : Option Account)
        → active_asset o ≡ ok a
        → (check_account currency o ≡ ok a) × (is_asset a.class ≡ true)
    go none k = cc
    go (some x) k =
        let (active, its) = active-eq x k in
        let fits : (x.currency == currency) ≡ true =
          ap (λ (y : Account). y.currency == currency) its ∙ same in
        (
          simp (active.0, fits) (ap ok its),
          ap (λ (y : Account). is_asset y.class) (sym its) ∙ active.1,
        )
      where
        active-eq :
            (y : Account)
            → active_asset (some y) ≡ ok a
            → ((y.archived ≡ false) × (is_asset y.class ≡ true)) × (y ≡ a)
        active-eq y e = ground arith

same_row :
    (user id : ℕ) (d : Direction) (c : Category) (cs : List Category)
    → matching d (find (category_is id user) cs) ≡ ok c
    → check_category (find (category_in id user d) cs) ≡ ok c
unfolding find
same_row user id d c [] k = cc
same_row user id d c (x ∷ cs) k = ground (arith, same_row user id d c cs)

-- A category that is validated is one that a posting may use.
pub matching-load_category :
    (user : ℕ) (id : Option ℕ) (d : Direction) (s : Ledger) (c : Category)
    → matching_category user id d s ≡ ok c
    → load_category user id d s ≡ ok c
unfolding matching_category load_category
matching-load_category user none d s c h = cc
matching-load_category user (some id) d s c h = same_row user id d c s.categories h

-- Steps that are known to succeed.
pub reads_step :
    {A B : Type 0} (f : Ledger → Result A) (k : A → Tx Ledger B) (s : Ledger) (a : A)
    → f s ≡ ok a
    → (reads f >>= k) s ≡ k a s
reads_step {A} {B} f k s a h =
    ap (λ (r : Result A). elim (lift r s) [ ok (x, t) ↦ k x t | err e ↦ err e ]) h

pub require_step :
    {B : Type 0} (b : Bool) (e : Error) (m : Tx Ledger B) (s : Ledger)
    → b ≡ true
    → (require b e >> m) s ≡ m s
require_step true e m s h = refl
require_step false e m s h = cc
