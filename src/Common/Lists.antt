-- ===== src/Common/Lists.antt =====
-- Lists measured by native numbers, and a predicate on all members.
use Prim.Native.Nat.{ℕ, zero, suc, ◌+◌, ◌-◌, min}
use mathlib.Core.Path.{◌≡◌, refl, ap, subst}
use mathlib.Core.Bool.{Bool, true, false}
use mathlib.Core.Option.{Option, none, some}
use mathlib.Core.List.{map, List, [], ◌∷◌, ◌++◌}
use native.Mathlib.Omega.{arith}
use my_finance.Common.Tests.{if◌then◌else◌}

module _ {ℓ} {A : Type ℓ} where
  abbrev pub length : List A → ℕ
  length [] = 0
  length (x ∷ xs) = suc (length xs)

  abbrev pub is_empty : List A → Bool
  is_empty [] = true
  is_empty (x ∷ xs) = false

  abbrev pub take : ℕ → List A → List A
  take zero xs = []
  take (suc n) [] = []
  take (suc n) (x ∷ xs) = x ∷ take n xs

  abbrev pub drop : ℕ → List A → List A
  drop zero xs = xs
  drop (suc n) [] = []
  drop (suc n) (x ∷ xs) = drop n xs

  abbrev pub replicate : ℕ → A → List A
  replicate zero a = []
  replicate (suc n) a = a ∷ replicate n a

  abbrev pub get_elem? : List A → ℕ → Option A
  get_elem? [] n = none
  get_elem? (x ∷ xs) zero = some x
  get_elem? (x ∷ xs) (suc n) = get_elem? xs n

  -- The first row that a query's condition selects.
  unfoldable pub find : (A → Bool) → List A → Option A
  find p [] = none
  find p (x ∷ xs) = if p x then some x else find p xs

  unfoldable pub any : (A → Bool) → List A → Bool
  any p [] = false
  any p (x ∷ xs) = if p x then true else any p xs

  pub length-append : (xs ys : List A) → length (xs ++ ys) ≡ length xs + length ys
  length-append [] ys = omega arith
  length-append (x ∷ xs) ys = omega (arith, length-append xs ys)

  pub take-append-drop : (n : ℕ) (xs : List A) → take n xs ++ drop n xs ≡ xs
  take-append-drop zero xs = refl
  take-append-drop (suc n) [] = refl
  take-append-drop (suc n) (x ∷ xs) = rw (take-append-drop n xs)

module _ {ℓ} {A : Type ℓ} where
  pub length-take : (n : ℕ) (xs : List A) → length (take n xs) ≡ min n (length xs)
  length-take zero xs = omega arith
  length-take (suc n) [] = omega arith
  length-take (suc n) (x ∷ xs) = omega (arith, length-take n xs)

  pub length-drop : (n : ℕ) (xs : List A) → length (drop n xs) ≡ length xs - n
  length-drop zero xs = omega arith
  length-drop (suc n) [] = omega arith
  length-drop (suc n) (x ∷ xs) = omega (arith, length-drop n xs)

  pub length-replicate : (n : ℕ) (a : A) → length (replicate n a) ≡ n
  length-replicate zero a = refl
  length-replicate (suc n) a = ap suc (length-replicate n a)

module _ {ℓ κ} {A : Type ℓ} (P : A → Type κ) where
  abbrev pub All : List A → Type κ
  All [] = Unit
  All (x ∷ xs) = P x × All xs

  pub All-append : (xs ys : List A) → All xs → All ys → All (xs ++ ys)
  All-append [] ys hx hy = hy
  All-append (x ∷ xs) ys (px, hx) hy = (px, All-append xs ys hx hy)

  pub All-take : (n : ℕ) (xs : List A) → All xs → All (take n xs)
  All-take zero xs h = tt
  All-take (suc n) [] h = tt
  All-take (suc n) (x ∷ xs) (px, h) = (px, All-take n xs h)

  pub All-drop : (n : ℕ) (xs : List A) → All xs → All (drop n xs)
  All-drop zero xs h = h
  All-drop (suc n) [] h = tt
  All-drop (suc n) (x ∷ xs) (px, h) = All-drop n xs h

  pub All-replicate : (n : ℕ) (a : A) → P a → All (replicate n a)
  All-replicate zero a h = tt
  All-replicate (suc n) a h = (h, All-replicate n a h)

pub All-map {ℓ κ μ} :
    {A : Type ℓ} (P : A → Type κ) (Q : A → Type μ) (xs : List A)
    → ((a : A) → P a → Q a)
    → All P xs
    → All Q xs
All-map P Q [] f h = tt
All-map P Q (x ∷ xs) f (px, h) = (f x px, All-map P Q xs f h)

pub some_path : {A : Type 0} {a b : A} → some a ≡ some b → a ≡ b
some_path {A} {a} e = ap or_else e
  where
    or_else : Option A → A
    or_else none = a
    or_else (some x) = x

module _ {A : Type 0} (p : A → Bool) where
  -- What `find` returns passes its test, and has what all the list has.
  pub find-eq-some : (x : A) (xs : List A) → find p xs ≡ some x → p x ≡ true
  unfolding find
  find-eq-some x [] e = cc
  find-eq-some x (y ∷ xs) e = go (p y) refl e (λ h. find-eq-some x xs h)
    where
      go :
          (b : Bool)
          → p y ≡ b
          → (if b then some y else find p xs) ≡ some x
          → (find p xs ≡ some x → p x ≡ true)
          → p x ≡ true
      go true h e k = subst (λ z. p z ≡ true) (some_path e) h
      go false h e k = k e

  -- A change that no test sees is made to what is found.
  pub find-map :
      (f : A → A) (x : A) (xs : List A)
      → ((y : A) → p (f y) ≡ p y)
      → find p xs ≡ some x
      → find p (map f xs) ≡ some (f x)
  unfolding find
  find-map f x [] same e = cc
  find-map f x (y ∷ xs) same e = go (find-map f x xs same) (p y) refl e
    where
      go :
          (find p xs ≡ some x → find p (map f xs) ≡ some (f x))
          → (b : Bool) → p y ≡ b
          → (if b then some y else find p xs) ≡ some x
          → find p (map f (y ∷ xs)) ≡ some (f x)
      go rest true h e = rw (same y, h) (ap some (ap f (some_path e)))
      go rest false h e = rw (same y, h) (rest e)

  pub find-All : (P : A → Type 0) (x : A) (xs : List A) → All P xs → find p xs ≡ some x → P x
  unfolding find
  find-All P x [] h e = cc
  find-All P x (y ∷ xs) (hy, h) e = go (p y) e (λ k. find-All P x xs h k)
    where
      go :
          (b : Bool) → (if b then some y else find p xs) ≡ some x → (find p xs ≡ some x → P x) → P x
      go true e k = subst P (some_path e) hy
      go false e k = k e
