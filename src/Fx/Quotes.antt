-- ===== src/Fx/Quotes.antt =====
-- `Fetch` and `FetchHistory` of internal/fx/fx.go: what they make of the provider's response. `upper`
-- is `strings.ToUpper` and `set_string` is `SetString` of a `big.Rat`; times are seconds since 1970.
use Prim.Native.Nat.{suc, zero, min}
use my_finance.Common.{
  ℕ, ◌+◌, ◌≡◌, refl, sym, ap, ◌∙◌, Bool, not, ◌&&◌, ◌||◌, Option, none, some, List, [], ◌∷◌, ltb,
  ◌==◌, if◌then◌else◌, is_empty, length, get_elem?, arith,
}
use my_finance.Text.{Text, codes, text_eq}
use my_finance.Fx.{Rat, Answer, given, refused, unavailable, other_error, normalize}

pub record Snapshot : Type 0 where
  pub base : Text
  pub quote : Text
  pub rate : Text
  pub time : ℕ

-- An entry of `chart.result`: its times, and the closes of each of its quotes.
pub record Chart : Type 0 where
  pub times : List ℕ
  pub quotes : List (List Text)

-- What the HTTP client returns: no response, a status and a body that `Decode` reads or refuses.
pub data Response : Type 0 where
  no_response : Response
  with_status : ℕ → Option (List Chart) → Response

abbrev not_ok : ℕ → Bool
not_ok status = not (status == 200)

-- The times and closes of the first quote of the first result.
abbrev charted : List Chart → Answer (List ℕ × List Text)
charted [] = refused unavailable
charted (c ∷ cs) = elim c.quotes [
  | [] ↦ refused unavailable
  | closes ∷ qs ↦ given (c.times, closes)
]

abbrev decoded : Option (List Chart) → Answer (List ℕ × List Text)
decoded none = refused other_error
decoded (some charts) = charted charts

unfoldable pub read_response : Response → Answer (List ℕ × List Text)
read_response no_response = refused other_error
read_response (with_status status body) =
    if not_ok status then refused unavailable else decoded body

-- A close that the loops do not skip, as a rate.
abbrev rate_of : Answer Text → Option Text
rate_of (refused e) = none
rate_of (given r) = if text_eq r (codes "0") then none else some r

unfoldable pub usable_rate : (Text → Option Rat) → Text → Option Text
usable_rate set_string close =
    if is_empty close || text_eq close (codes "null")
    then none
    else rate_of (normalize set_string close)

module _ (upper : Text → Text) (set_string : Text → Option Rat) (base quote : Text) where
  abbrev pub snapshot_at : ℕ → Text → Snapshot
  snapshot_at time rate = record {
    base = upper base;
    quote = upper quote;
    rate = rate;
    time = time;
  }

  -- The snapshots of the usable closes, up to the shorter of the two lists.
  unfoldable pub usable : List ℕ → List Text → List Snapshot
  usable [] closes = []
  usable (t ∷ ts) [] = []
  usable (t ∷ ts) (c ∷ cs) =
      let rest = usable ts cs in
      elim (usable_rate set_string c) [ none ↦ rest | some r ↦ snapshot_at t r ∷ rest ]

  -- The snapshot of an index, where its close is usable.
  abbrev pub snapshot_of : Option ℕ → Option Text → Option Snapshot
  snapshot_of none close = none
  snapshot_of (some t) none = none
  snapshot_of (some t) (some c) = elim (usable_rate set_string c) [
    | none ↦ none
    | some r ↦ some (snapshot_at t r)
  ]

  -- The loop of `Fetch` from an index down to 0; the argument is the index plus one.
  unfoldable pub latest_below : ℕ → List ℕ → List Text → Option Snapshot
  latest_below zero ts cs = none
  latest_below (suc index) ts cs =
      let rest = latest_below index ts cs in
      elim (snapshot_of (get_elem? ts index) (get_elem? cs index)) [ some s ↦ some s | none ↦ rest ]

  -- The loop of `Fetch`, over the indices of both lists.
  abbrev pub latest : List ℕ → List Text → Option Snapshot
  latest ts cs = latest_below (min (length ts) (length cs)) ts cs

  abbrev latest_or : Option Snapshot → Answer Snapshot
  latest_or none = refused unavailable
  latest_or (some s) = given s

  abbrev latest_in : Answer (List ℕ × List Text) → Answer Snapshot
  latest_in (refused e) = refused e
  latest_in (given (times, closes)) = latest_or (latest times closes)

  -- `Fetch`
  unfoldable pub fetch : ℕ → Response → Answer Snapshot
  fetch now response =
      if text_eq base quote
      then given (record { base = base; quote = quote; rate = codes "1"; time = now })
      else latest_in (read_response response)

  abbrev pub in_range : ℕ → ℕ → Snapshot → Bool
  in_range start end s = not (ltb s.time start) && ltb s.time (end + 86400)

  unfoldable pub within : ℕ → ℕ → List Snapshot → List Snapshot
  within start end [] = []
  within start end (s ∷ ss) =
      let rest = within start end ss in if in_range start end s then s ∷ rest else rest

  abbrev some_or : List Snapshot → Answer (List Snapshot)
  some_or ss = if is_empty ss then refused unavailable else given ss

  abbrev history_in : ℕ → ℕ → Answer (List ℕ × List Text) → Answer (List Snapshot)
  history_in start end (refused e) = refused e
  history_in start end (given (times, closes)) = some_or (within start end (usable times closes))

  -- `FetchHistory`
  unfoldable pub fetch_history : ℕ → ℕ → Response → Answer (List Snapshot)
  fetch_history start end response =
      if text_eq base quote
      then given []
      else if ltb end start
      then refused other_error
      else history_in start end (read_response response)

-- The last of a list.
pub last_of : {A : Type 0} → List A → Option A
last_of [] = none
last_of (x ∷ xs) = elim (last_of xs) [ none ↦ some x | some y ↦ some y ]

or_else : {A : Type 0} → Option A → Option A → Option A
or_else o rest = elim o [ some a ↦ some a | none ↦ rest ]

or_else-none : {A : Type 0} (o : Option A) → or_else o none ≡ o
unfolding or_else
or_else-none none = refl
or_else-none (some a) = refl

or_else_assoc : {A : Type 0} (o p q : Option A) → or_else o (or_else p q) ≡ or_else (or_else o p) q
unfolding or_else
or_else_assoc none p q = refl
or_else_assoc (some a) p q = refl

module _ (upper : Text → Text) (set_string : Text → Option Rat) (base quote : Text) where
  below : ℕ → List ℕ → List Text → Option Snapshot
  below = latest_below upper set_string base quote

  first : ℕ → Text → Option Snapshot
  first t c = snapshot_of upper set_string base quote (some t) (some c)

  -- The loop comes to the first index last.
  below-suc :
      (n t : ℕ) (c : Text) (ts : List ℕ) (cs : List Text)
      → below (suc n) (t ∷ ts) (c ∷ cs) ≡ or_else (below n ts cs) (first t c)
  unfolding below first latest_below or_else
  below-suc zero t c ts cs = or_else-none (first t c)
  below-suc (suc n) t c ts cs =
      let at = snapshot_of upper set_string base quote (get_elem? ts n) (get_elem? cs n) in
      ap (or_else at) (below-suc n t c ts cs) ∙ or_else_assoc at (below n ts cs) (first t c)

  -- The last of the usable ones is the first where no later one is usable.
  last_of-usable :
      (t : ℕ) (c : Text) (ts : List ℕ) (cs : List Text)
      → last_of (usable upper set_string base quote (t ∷ ts) (c ∷ cs))
        ≡ or_else (last_of (usable upper set_string base quote ts cs)) (first t c)
  unfolding first usable last_of or_else
  last_of-usable t c ts cs = go (usable_rate set_string c)
    where
      later : List Snapshot
      later = usable upper set_string base quote ts cs

      go :
          (o : Option Text)
          → last_of (elim o [
            | none ↦ later
            | some r ↦ snapshot_at upper set_string base quote t r ∷ later
          ])
            ≡ or_else (last_of later) (elim o [
              | none ↦ none
              | some r ↦ some (snapshot_at upper set_string base quote t r)
            ])
      go none = sym (or_else-none (last_of later))
      go (some r) = refl

  below-last_of :
      (ts : List ℕ) (cs : List Text)
      → below (min (length ts) (length cs)) ts cs
        ≡ last_of (usable upper set_string base quote ts cs)
  unfolding below latest_below usable last_of
  below-last_of [] cs =
      let none_left : min 0 (length cs) ≡ 0 = omega arith in ap (λ n. below n [] cs) none_left
  below-last_of (t ∷ ts) [] =
      let none_left : min (suc (length ts)) 0 ≡ 0 = omega arith in
      ap (λ n. below n (t ∷ ts) []) none_left
  below-last_of (t ∷ ts) (c ∷ cs) =
      let one_more : min (suc (length ts)) (suc (length cs)) ≡ suc (min (length ts) (length cs)) =
        omega arith in
      ap (λ n. below n (t ∷ ts) (c ∷ cs)) one_more
      ∙ below-suc (min (length ts) (length cs)) t c ts cs
      ∙ ap (λ o. or_else o (first t c)) (below-last_of ts cs)
      ∙ sym (last_of-usable t c ts cs)

-- On the same times and closes, the snapshot that `Fetch` takes is the last of those that
-- `FetchHistory` chooses from.
pub latest-last_of :
    (upper : Text → Text) (set_string : Text → Option Rat) (base quote : Text) (ts : List ℕ)
    (cs : List Text)
    → latest upper set_string base quote ts cs ≡ last_of (usable upper set_string base quote ts cs)
unfolding below
latest-last_of upper set_string base quote ts cs = below-last_of upper set_string base quote ts cs
