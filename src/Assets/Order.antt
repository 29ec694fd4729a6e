-- ===== src/Assets/Order.antt =====
-- The order of an asset's valuations.
use mathlib.Core.Path.{subst}
use my_finance.Common.{
  ℕ, ◌≡◌, refl, sym, ap, ◌∙◌, Bool, true, false, ◌&&◌, Option, none, some, List, [], ◌∷◌, ◌==◌, All,
  arith, if◌then◌else◌, Bool-cases, inl, inr,
}
use my_finance.Calendar.{Date, before}
use my_finance.Money.{Amount, add, negate}
use my_finance.Errors.{Result, ok, Reply, success, failure, conflict, older_valuation}
use my_finance.Tx.{Tx, pure, reads, ◌>>=◌, ◌>>◌, require, commit_or_rollback}
use my_finance.Tx.Keeps.{
  Keeps, Keeps-pure, keeps_rules, commit_or_rollback-keeps, zoom-eq-ok, >>=-eq-ok, reads>>=-eq-ok,
  require>>-eq-ok, state_path, ok_path,
}
use my_finance.Ledger.State.{Ledger}
use my_finance.Ledger.Handlers.{then_read}
use my_finance.Reconciliation.State.{account_balance_at}
use my_finance.Assets.{Asset, Valuation, Holdings, insert_valuation, on_ledger, put_ledger}
use my_finance.Assets.Views.{latest_valuation, later, get_valuation}
use my_finance.Assets.Valuing.{
  Outside, CreateValuation, not_older, revalue, valuation_row, value_asset, known_or_value,
  create_valuation_tx, with_market, accepted_market, create_valuation,
}

-- A valuation is not dated before another of the same asset.
abbrev IsAfter : Valuation → Valuation → Type 0
IsAfter v w = (w.asset == v.asset && before v.valued_on w.valued_on) ≡ false

-- Newest first, the valuations of each asset are in the order of their dates.
unfoldable pub IsDated : List Valuation → Type 0
IsDated [] = Unit
IsDated (v ∷ vs) = All (IsAfter v) vs × IsDated vs

later-not_older :
    (d : Date) (v : Valuation) (o : Option Valuation)
    → not_older d (some (later v o)) ≡ true
    → (before d v.valued_on ≡ false) × (not_older d o ≡ true)
later-not_older d v none h = ground arith
later-not_older d v (some w) h = ground arith

-- A date that is not before the latest valuation is not before any.
not_older-All :
    (asset : ℕ) (d : Date) (vs : List Valuation)
    → not_older d (latest_valuation asset vs) ≡ true
    → All (λ w. (w.asset == asset && before d w.valued_on) ≡ false) vs
unfolding latest_valuation
not_older-All asset d [] h = tt
not_older-All asset d (v ∷ vs) h = elim (Bool-cases (v.asset == asset)) [
  | inl its ↦
      let (head, tail) = later-not_older d v (latest_valuation asset vs) (
        ap
          (λ (b : Bool).
            not_older d
              (if b then some (later v (latest_valuation asset vs)) else latest_valuation asset vs))
          (sym its)
        ∙ h) in
      (rw its head, not_older-All asset d vs tail)
  | inr not_its ↦ (
    rw not_its refl,
    not_older-All asset d vs (
        ap
          (λ (b : Bool).
            not_older d
              (if b then some (later v (latest_valuation asset vs)) else latest_valuation asset vs))
          (sym not_its)
        ∙ h),
  )
]

on_ledger-valuations :
    {A : Type 0} (m : Tx Ledger A) (vs : List Valuation)
    → Keeps (λ (h : Holdings). h.valuations ≡ vs) (on_ledger m)
on_ledger-valuations m vs = record {
  at = λ h a h' same e.
      let (l, ran, put) = zoom-eq-ok (λ (q : Holdings). q.ledger) put_ledger m h e in
      ap (λ (q : Holdings). q.valuations) put ∙ same;
}

insert_valuation-valuations :
    (v : Valuation) (h h' : Holdings) (u : Unit {0})
    → insert_valuation v h ≡ ok (u, h')
    → h'.valuations ≡ v ∷ h.valuations
unfolding insert_valuation
insert_valuation-valuations v h h' u e = ground arith

revalue-valuations :
    (o : Outside) (user : ℕ) (a : Asset) (p : CreateValuation) (currency : ℕ) (adjustment : Amount)
    (vs : List Valuation)
    → Keeps (λ (h : Holdings). h.valuations ≡ vs) (revalue o user a p currency adjustment)
unfolding revalue
revalue-valuations o user a p currency adjustment vs =
    search (keeps_rules, on_ledger-valuations) depth 12

value_asset-IsDated :
    (o : Outside) (user currency : ℕ) (a : Asset) (p : CreateValuation) (market : Amount)
    → Keeps (λ (h : Holdings). IsDated h.valuations) (value_asset o user currency a p market)
unfolding value_asset IsDated
value_asset-IsDated o user currency a p market = record {
  at = λ h r h' dated e.
      let (latest, known, e1) =
        reads>>=-eq-ok (λ (q : Holdings). ok (latest_valuation a.id q.valuations)) rest h e in
      let (on_time, e2) =
        require>>-eq-ok (not_older p.valued_on latest) (conflict older_valuation)
          (reads balance_of >>= balanced) h e1 in
      let (balance, computed, e3) = reads>>=-eq-ok balance_of balanced h e2 in
      let (revaluation, q, moved, e4) =
        >>=-eq-ok (revalue o user a p currency (add (o.portion market a.share) (negate balance)))
          (recorded balance) h e3 in
      let (u, i, row, last) =
        >>=-eq-ok (insert_valuation (valuation_row o user a p market balance revaluation))
          (λ u. pure (o.new 9)) q e4 in
      let kept : q.valuations ≡ h.valuations =
        (revalue-valuations o user a p currency _ h.valuations).at h revaluation q refl moved in
      let same : h'.valuations
          ≡ valuation_row o user a p market balance revaluation ∷ h.valuations =
        ap (λ (x : Holdings). x.valuations) (sym (state_path last))
        ∙ insert_valuation-valuations (valuation_row o user a p market balance revaluation) q i u
            row
        ∙ ap (λ vs. valuation_row o user a p market balance revaluation ∷ vs) kept in
      subst IsDated (sym same) (
        not_older-All a.id p.valued_on h.valuations
            (ap (not_older p.valued_on) (ok_path known) ∙ on_time),
        dated,
      );
}
  where
    balance_of : Holdings → Result Amount
    balance_of q = ok (account_balance_at user a.account p.valued_on q.ledger)

    recorded : Amount → Option ℕ → Tx Holdings ℕ
    recorded balance revaluation =
        insert_valuation (valuation_row o user a p market balance revaluation) >> pure (o.new 9)

    balanced : Amount → Tx Holdings ℕ
    balanced balance =
        revalue o user a p currency (add (o.portion market a.share) (negate balance))
        >>= recorded balance

    rest : Option Valuation → Tx Holdings ℕ
    rest latest =
        require (not_older p.valued_on latest) (conflict older_valuation)
        >> (reads balance_of >>= balanced)

abbrev IsDatedHoldings : Holdings → Type 0
IsDatedHoldings h = IsDated h.valuations

on_ledger-IsDated : {A : Type 0} (m : Tx Ledger A) → Keeps IsDatedHoldings (on_ledger m)
on_ledger-IsDated m = record {
  at = λ h a h' dated e.
      subst IsDated (sym ((on_ledger-valuations m h.valuations).at h a h' refl e)) dated;
}

known_or_value-IsDated :
    (found : Option Valuation) (m : Tx Holdings ℕ)
    → Keeps IsDatedHoldings m
    → Keeps IsDatedHoldings (known_or_value found m)
known_or_value-IsDated none m k = k
known_or_value-IsDated (some v) m k = Keeps-pure v.id

create_valuation_tx-IsDated :
    (o : Outside) (user id : ℕ) (p : CreateValuation) (market : Amount)
    → Keeps IsDatedHoldings (create_valuation_tx o user id p market)
unfolding create_valuation_tx
create_valuation_tx-IsDated o user id p market =
    search (keeps_rules, on_ledger-IsDated, known_or_value-IsDated, value_asset-IsDated) depth 14

-- A request for a valuation, accepted or refused, keeps the valuations of each asset in the order of
-- their dates: a newer one is not dated before an older one.
pub create_valuation-IsDated :
    (o : Outside) (session : Option ℕ) (body : Option CreateValuation) (id : ℕ) (h : Holdings)
    → IsDated h.valuations
    → IsDated (create_valuation o session body id h).1.valuations
unfolding create_valuation
create_valuation-IsDated o none body id h dated = dated
create_valuation-IsDated o (some user) none id h dated = dated
create_valuation-IsDated o (some user) (some p) id h dated = go (accepted_market p)
  where
    reread :
        (r : Reply ℕ × Holdings)
        → IsDated r.1.valuations
        → IsDated (then_read (get_valuation user) r).1.valuations
    reread (success st a, q) k = k
    reread (failure st c, q) k = k

    go : (market : Option Amount) → IsDated (with_market o user id p market h).1.valuations
    go none = dated
    go (some market) = reread (commit_or_rollback 201 (create_valuation_tx o user id p market) h) (
        commit_or_rollback-keeps {P = IsDatedHoldings} 201 (create_valuation_tx o user id p market)
          h (create_valuation_tx-IsDated o user id p market) dated)
