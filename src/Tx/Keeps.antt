-- ===== src/Tx/Keeps.antt =====
-- What a successful transaction keeps and returns, with a rule for each way to build one.
use mathlib.Core.Path.{subst}
use my_finance.Common.{ℕ, ◌≡◌, refl, sym, ap, ◌∙◌, Bool, true, false, if◌then◌else◌}
use my_finance.Errors.{Error, Result, ok, err}
use my_finance.Tx.{
  Tx, pure, fail, lift, reads, ◌>>=◌, ◌>>◌, require, settle, zoom, commit_or_rollback,
}

-- A successful step keeps `P`.
pub record Keeps {S A : Type 0} (P : S → Type 0) (m : Tx S A) : Type 0 where
  pub at : (s : S) (a : A) (s' : S) → P s → m s ≡ ok (a, s') → P s'

-- A successful step returns what satisfies `Q`.
pub record Returns {S A : Type 0} (Q : A → Type 0) (m : Tx S A) : Type 0 where
  pub at : (s : S) (a : A) (s' : S) → m s ≡ ok (a, s') → Q a

module _ {S A : Type 0} where
  abbrev state_of : S → Result (A × S) → S
  state_of s (ok (a, s')) = s'
  state_of s (err e) = s

  -- Two equal successes leave equal tables.
  pub state_path : {a b : A} {s s' : S} → ◌≡◌ {A = Result (A × S)} (ok (a, s)) (ok (b, s')) → s ≡ s'
  state_path {s = s} e = ap (state_of s) e

  abbrev value_of : A → Result (A × S) → A
  value_of a (ok (b, s)) = b
  value_of a (err e) = a

  pub value_path : {a b : A} {s s' : S} → ◌≡◌ {A = Result (A × S)} (ok (a, s)) (ok (b, s')) → a ≡ b
  value_path {a = a} e = ap (value_of a) e

pub ok_path : {A : Type 0} {a b : A} → ok a ≡ ok b → a ≡ b
ok_path {A} {a} e = ap (or_else a) e
  where
    or_else : A → Result A → A
    or_else d (ok x) = x
    or_else d (err e) = d

-- A successful block is two successful steps.
pub >>=-eq-ok :
    {S A B : Type 0} (m : Tx S A) (f : A → Tx S B) (s : S) {b : B} {s' : S}
    → (m >>= f) s ≡ ok (b, s')
    → (a : A) × (t : S) × (m s ≡ ok (a, t)) × (f a t ≡ ok (b, s'))
>>=-eq-ok {S} {A} {B} m f s {b} {s'} h = go (m s) refl h
  where
    go :
        (r : Result (A × S))
        → m s ≡ r
        → (elim r [ ok (a, t) ↦ f a t | err e ↦ err e ]) ≡ ok (b, s')
        → (a : A) × (t : S) × (m s ≡ ok (a, t)) × (f a t ≡ ok (b, s'))
    go (ok (a, t)) e k = (a, t, e, k)
    go (err x) e k = cc

-- A step on a part of the tables that succeeds.
pub zoom-eq-ok :
    {S T A : Type 0} (get : S → T) (put : S → T → S) (m : Tx T A) (s : S) {a : A} {s' : S}
    → zoom get put m s ≡ ok (a, s')
    → (t : T) × (m (get s) ≡ ok (a, t)) × (s' ≡ put s t)
zoom-eq-ok {S} {T} {A} get put m s {a} {s'} h = go (m (get s)) refl h
  where
    go :
        (r : Result (A × T))
        → m (get s) ≡ r
        → zoom {S = S} get put (λ t. r) s ≡ ok (a, s')
        → (t : T) × (m (get s) ≡ ok (a, t)) × (s' ≡ put s t)
    go (ok (b, t)) e k = (t, e ∙ ap (λ (c : A). ok (c, t)) (value_path k), sym (state_path k))
    go (err x) e k = cc

pub require-eq-ok :
    {S : Type 0} (c : Bool) (x : Error) (s s' : S) (u : Unit {0})
    → require c x s ≡ ok (u, s')
    → (c ≡ true) × (s' ≡ s)
require-eq-ok true x s s' u h = (refl, sym (state_path h))
require-eq-ok false x s s' u h = cc

pub lift-eq-ok :
    {S A : Type 0} (r : Result A) (s s' : S) {a : A} → lift r s ≡ ok (a, s') → (s' ≡ s) × (r ≡ ok a)
lift-eq-ok (ok a) s s' h = (sym (state_path h), ap ok (value_path h))
lift-eq-ok (err x) s s' h = cc

-- A block that starts with a query, or with a test, is the rest of it on the same tables.
pub reads>>=-eq-ok :
    {S A B : Type 0} (f : S → Result A) (k : A → Tx S B) (s : S) {b : B} {s' : S}
    → (reads f >>= k) s ≡ ok (b, s')
    → (a : A) × (f s ≡ ok a) × (k a s ≡ ok (b, s'))
reads>>=-eq-ok f k s h =
    let (a, t, e, rest) = >>=-eq-ok (reads f) k s h in
    let (same, found) = lift-eq-ok (f s) s t e in (a, found, ap (k a) (sym same) ∙ rest)

pub require>>-eq-ok :
    {S B : Type 0} (c : Bool) (x : Error) (m : Tx S B) (s : S) {b : B} {s' : S}
    → (require c x >> m) s ≡ ok (b, s')
    → (c ≡ true) × (m s ≡ ok (b, s'))
require>>-eq-ok c x m s h =
    let (u, t, e, rest) = >>=-eq-ok (require c x) (λ _. m) s h in
    let (holds, same) = require-eq-ok c x s t u e in (holds, ap m (sym same) ∙ rest)

module _ {S A : Type 0} {P : S → Type 0} where
  pub Keeps-pure : (a : A) → Keeps P (pure a)
  Keeps-pure a = record { at = λ s b s' h e. subst P (state_path e) h }

  pub Keeps-fail : (x : Error) → Keeps P (fail {A = A} x)
  Keeps-fail x = record { at = λ s b s' h e. cc }

  pub Keeps-lift : (r : Result A) → Keeps P (lift r)
  Keeps-lift (ok a) = Keeps-pure a
  Keeps-lift (err x) = Keeps-fail x

  pub Keeps-reads : (f : S → Result A) → Keeps P (reads f)
  Keeps-reads f = record { at = λ s b s' h e. (Keeps-lift (f s)).at s b s' h e }

  pub Keeps-if : (c : Bool) (m n : Tx S A) → Keeps P m → Keeps P n → Keeps P (if c then m else n)
  Keeps-if true m n hm hn = hm
  Keeps-if false m n hm hn = hn

-- A step on a part of the tables keeps of them what it keeps of the part.
pub zoom-Keeps :
    {S T A : Type 0} (P : T → Type 0) (get : S → T) (put : S → T → S) (m : Tx T A)
    → ((s : S) (t : T) → P t → P (get (put s t)))
    → Keeps P m
    → Keeps (λ s. P (get s)) (zoom get put m)
zoom-Keeps P get put m got k = record {
  at = λ s a s' h e.
      let (t, ran, same) = zoom-eq-ok get put m s e in
      subst (λ x. P (get x)) (sym same) (got s t (k.at (get s) a t h ran));
}

pub Keeps-require : {S : Type 0} {P : S → Type 0} (c : Bool) (x : Error) → Keeps P (require c x)
Keeps-require true x = Keeps-pure tt
Keeps-require false x = Keeps-fail x

pub Keeps-bind :
    {S A B : Type 0} {P : S → Type 0} (m : Tx S A) (f : A → Tx S B)
    → Keeps P m
    → ((a : A) → Keeps P (f a))
    → Keeps P (m >>= f)
Keeps-bind m f hm hf = record {
  at = λ s b s' h e.
      let (a, t, em, ef) = >>=-eq-ok m f s e in (hf a).at t b s' (hm.at s a t h em) ef;
}

-- The rest of a block may use what its first step returns.
pub Keeps-bind-Returns :
    {S A B : Type 0} {P : S → Type 0} (Q : A → Type 0) (m : Tx S A) (f : A → Tx S B)
    → Keeps P m
    → Returns Q m
    → ((a : A) → Q a → Keeps P (f a))
    → Keeps P (m >>= f)
Keeps-bind-Returns Q m f hm hr hf = record {
  at = λ s b s' h e.
      let (a, t, em, ef) = >>=-eq-ok m f s e in
      (hf a (hr.at s a t em)).at t b s' (hm.at s a t h em) ef;
}

pub Returns-bind :
    {S A B : Type 0} {Q : B → Type 0} (m : Tx S A) (f : A → Tx S B)
    → ((a : A) → Returns Q (f a))
    → Returns Q (m >>= f)
Returns-bind m f hf = record {
  at = λ s b s' e. let (a, t, em, ef) = >>=-eq-ok m f s e in (hf a).at t b s' ef;
}

pub Returns-pure : {S A : Type 0} {Q : A → Type 0} (a : A) → Q a → Returns {S = S} Q (pure a)
Returns-pure {Q = Q} a h = record { at = λ s b s' e. subst Q (value_path e) h }

pub Returns-fail : {S A : Type 0} {Q : A → Type 0} (x : Error) → Returns {S = S} Q (fail {A = A} x)
Returns-fail x = record { at = λ s b s' e. cc }

-- A handler's tables satisfy `P` after it if they did before, whatever the outcome.
pub commit_or_rollback-keeps :
    {S A : Type 0} {P : S → Type 0} (status : ℕ) (m : Tx S A) (s : S)
    → Keeps P m
    → P s
    → P (commit_or_rollback status m s).1
unfolding commit_or_rollback
commit_or_rollback-keeps {S} {A} {P = P} status m s k h = go (m s) refl
  where
    go : (r : Result (A × S)) → m s ≡ r → P (settle status s r).1
    go (ok (a, s')) e = k.at s a s' h e
    go (err x) e = h

pub ruleset keeps_rules =
    (Keeps-pure, Keeps-fail, Keeps-lift, Keeps-reads, Keeps-if, Keeps-require, Keeps-bind)
