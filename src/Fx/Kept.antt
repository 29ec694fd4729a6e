-- ===== src/Fx/Kept.antt =====
-- What a refresh of the rates keeps and stores.
pub mod Stored
use my_finance.Common.{
  ℕ, ◌+◌, ◌/◌, ◌≡◌, refl, sym, ap, ◌∙◌, Bool, true, false, ◌&&◌, ◌||◌, not, Option, none, some,
  List, [], ◌∷◌, map, ◌==◌, if◌then◌else◌, find, find-map, find-eq-some, some_path, arith,
  Bool-cases, inl, inr, ==_refl,
}
use my_finance.Text.{Text, text_eq, text_eq-eq, text_eq_refl}
use my_finance.Money.{Amount}
use my_finance.Fx.{Answer, given, refused}
use my_finance.Fx.Quotes.{Snapshot}
use my_finance.Fx.Refresh.{
  Database, Rate, Refreshed, Progress, going, stopped, result_of, and_then, set_stale, mark_stale,
  rate_row, row_refused, same_day, upsert, pairs, store_cast, store_rate, refresh_with, refresh_all,
  refresh, supported_currencies, start_with, usd,
}

-- A row of a pair and a day.
abbrev pub is_on : Text → Text → ℕ → Rate → Bool
is_on base quote day r = text_eq r.base base && text_eq r.quote quote && r.day == day

-- The row of a pair and a day.
abbrev pub rate_on : Text → Text → ℕ → List Rate → Option Rate
rate_on base quote day rs = find (is_on base quote day) rs

first_wins :
    {A : Type 0} (b : Bool) (x y z : A)
    → (if b then x else z) ≡ (if b then x else if b then y else z)
first_wins true x y z = refl
first_wins false x y z = refl

-- Of two tests that do not both hold, either may be the first.
either_first :
    {A : Type 0} (b c : Bool) (x y z new : A)
    → new ≡ (if b then x else z)
    → (b && c) ≡ false
    → (if c then y else new) ≡ (if b then x else if c then y else z)
either_first true true x y z new h k = cc
either_first true false x y z new h k = h
either_first false true x y z new h k = refl
either_first false false x y z new h k = h

module _ (base quote : Text) (day : ℕ) where
  same_row : (a b : Rate) → same_day a b ≡ true → is_on base quote day b ≡ is_on base quote day a
  same_row a b h =
      let bases : b.base ≡ a.base = text_eq-eq b.base a.base (ground arith) in
      let quotes : b.quote ≡ a.quote = text_eq-eq b.quote a.quote (ground arith) in
      let days : b.day ≡ a.day = ground arith in rw (bases, quotes, days) refl

  both_on :
      (a b : Rate)
      → is_on base quote day a ≡ true
      → is_on base quote day b ≡ true
      → same_day a b ≡ true
  both_on a b h k =
      let bases : a.base ≡ base = text_eq-eq a.base base (ground arith) in
      let quotes : a.quote ≡ quote = text_eq-eq a.quote quote (ground arith) in
      let days : a.day ≡ day = ground arith in rw (bases, quotes, days) k

  not_both :
      (a b : Rate)
      → same_day a b ≡ false
      → (is_on base quote day a && is_on base quote day b) ≡ false
  not_both a b h = let k = both_on a b in ground (arith, k)

  pub upsert-rate_on :
      (a : Rate) (rs : List Rate)
      → rate_on base quote day (upsert a rs)
        ≡ (if is_on base quote day a then some a else rate_on base quote day rs)
  unfolding find upsert
  upsert-rate_on a [] = refl
  upsert-rate_on a (b ∷ bs) = elim (Bool-cases (same_day a b)) [
    | inl same ↦
        let alike = same_row a b same in
        rw (same, alike)
          (first_wins (is_on base quote day a) (some a) (some b) (rate_on base quote day bs))
    | inr other ↦ rw other (
        either_first (is_on base quote day a) (is_on base quote day b) (some a) (some b)
          (rate_on base quote day bs) (rate_on base quote day (upsert a bs)) (upsert-rate_on a bs)
          (not_both a b other))
  ]

  pub set_stale-rate_on :
      (q : Text) (r : Rate) (rs : List Rate)
      → rate_on base quote day rs ≡ some r
      → rate_on base quote day (map (set_stale q) rs) ≡ some (set_stale q r)
  set_stale-rate_on q r rs h =
      find-map (is_on base quote day) (set_stale q) r rs (λ x. ground arith) h

pub own_key :
    (a : Snapshot) (v : Amount) → is_on a.base a.quote (a.time / 86400) (rate_row a v) ≡ true
own_key a v = rw (text_eq_refl a.base, text_eq_refl a.quote, ==_refl (a.time / 86400)) refl

-- What becomes of the row `r` of a pair and a day: the row `s` has its rate, or that of a snapshot of the
-- pair and the day with which a fetch has answered.
pub data Kept (db : Database) (fetch : Text → Answer Snapshot) (r s : Rate) : Type 0 where
  unchanged : s.rate ≡ r.rate → Kept db fetch r s
  replaced :
      (q : Text) (a : Snapshot)
      → fetch q ≡ given a
      → is_on a.base a.quote (a.time / 86400) s ≡ true
      → db.cast a.rate ≡ some s.rate
      → Kept db fetch r s

module _ (db : Database) (fetch : Text → Answer Snapshot) (base quote : Text) (day : ℕ)
    (r : Rate) where
  pub record KeptIn (rs : List Rate) : Type 0 where
    pub now_is : Rate
    pub found : rate_on base quote day rs ≡ some now_is
    pub how : Kept db fetch r now_is

  stale-Kept : (q : Text) (s : Rate) → Kept db fetch r s → Kept db fetch r (set_stale q s)
  stale-Kept q s (unchanged e) = unchanged (ground arith)
  stale-Kept q s (replaced p a answer key cast) =
      replaced p a answer (ground arith)
        (cast ∙ ap some (let same : s.rate ≡ (set_stale q s).rate = ground arith in same))

  marked-KeptIn :
      (q : Text) (x : Refreshed) → KeptIn x.rates → KeptIn (result_of (mark_stale db q x)).rates
  unfolding mark_stale
  marked-KeptIn q x k = go (db.update_fails q)
    where
      go :
          (b : Bool)
          → KeptIn
              (result_of (
                if b
                then stopped x
                else going (record x {
                  rates = map (set_stale q) x.rates;
                  stale = x.stale + pairs q x.rates;
                }))).rates
      go true = k
      go false = record {
        now_is = set_stale q k.now_is;
        found = set_stale-rate_on base quote day q k.now_is x.rates k.found;
        how = stale-Kept q k.now_is k.how;
      }

  upsert-KeptIn :
      (q : Text) (a : Snapshot) (v : Amount) (rs : List Rate)
      → fetch q ≡ given a
      → db.cast a.rate ≡ some v
      → KeptIn rs
      → KeptIn (upsert (rate_row a v) rs)
  upsert-KeptIn q a v rs answer cast k =
      go (is_on base quote day (rate_row a v)) (upsert-rate_on base quote day (rate_row a v) rs)
    where
      go :
          (b : Bool)
          → rate_on base quote day (upsert (rate_row a v) rs)
            ≡ (if b then some (rate_row a v) else rate_on base quote day rs)
          → KeptIn (upsert (rate_row a v) rs)
      go true e = record {
        now_is = rate_row a v;
        found = e;
        how = replaced q a answer (own_key a v) cast;
      }
      go false e = record { now_is = k.now_is; found = e ∙ k.found; how = k.how }

  stored-KeptIn :
      (q : Text) (a : Snapshot) (o : Option Amount) (x : Refreshed)
      → fetch q ≡ given a
      → db.cast a.rate ≡ o
      → KeptIn x.rates
      → KeptIn (result_of (store_cast db a o x)).rates
  stored-KeptIn q a none x answer cast k = k
  stored-KeptIn q a (some v) x answer cast k = go (db.insert_fails a || row_refused (rate_row a v))
    where
      go :
          (b : Bool)
          → KeptIn
              (result_of (
                if b
                then stopped x
                else going (record x {
                  rates = upsert (rate_row a v) x.rates;
                  fresh = x.fresh + 1;
                }))).rates
      go true = k
      go false = upsert-KeptIn q a v x.rates answer cast k

  refresh_with-KeptIn :
      (q : Text) (answer : Answer Snapshot) (x : Refreshed)
      → fetch q ≡ answer
      → KeptIn x.rates
      → KeptIn (result_of (refresh_with db q answer x)).rates
  unfolding store_rate
  refresh_with-KeptIn q (refused e) x h k = marked-KeptIn q x k
  refresh_with-KeptIn q (given a) x h k = stored-KeptIn q a (db.cast a.rate) x h refl k

  refresh_all-KeptIn :
      (qs : List Text) (x : Refreshed)
      → KeptIn x.rates
      → KeptIn (result_of (refresh_all db fetch qs x)).rates
  unfolding refresh_all
  refresh_all-KeptIn [] x k = k
  refresh_all-KeptIn (q ∷ qs) x k =
      go (text_eq q usd) (refresh_with db q (fetch q) x) (refresh_all-KeptIn qs)
        (refresh_with-KeptIn q (fetch q) x refl k)
    where
      go :
          (b : Bool) (p : Progress)
          → ((y : Refreshed)
              → KeptIn y.rates
              → KeptIn (result_of (refresh_all db fetch qs y)).rates)
          → KeptIn (result_of p).rates
          → KeptIn
              (result_of (
                if b
                then refresh_all db fetch qs x
                else and_then p (refresh_all db fetch qs))).rates
      go true p rest l = rest x k
      go false (going y) rest l = rest y l
      go false (stopped y) rest l = l

-- A refresh loses no rate, whatever the fetches answer and whichever statements the database refuses, so
-- that it may stop on the way: a pair that has a row on a day still has one on that day, and its rate is
-- the one that it had, or that of a snapshot of the pair and the day with which a fetch has answered.
pub refresh-kept :
    (db : Database) (base quote : Text) (day : ℕ) (free : Bool) (fetch : Text → Answer Snapshot)
    (rates : List Rate) (r : Rate)
    → rate_on base quote day rates ≡ some r
    → KeptIn db fetch base quote day r (result_of (refresh db free fetch rates)).rates
unfolding refresh
refresh-kept db base quote day true fetch rates r h =
    refresh_all-KeptIn db fetch base quote day r supported_currencies (start_with rates)
      (record { now_is = r; found = h; how = unchanged refl })
refresh-kept db base quote day false fetch rates r h = record {
  now_is = r;
  found = h;
  how = unchanged refl;
}
