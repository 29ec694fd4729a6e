-- ===== src/Fx/Kept/Stored.antt =====
-- What a refresh of the rates stores.
use mathlib.Core.Path.{subst}
use my_finance.Common.{
  ◌+◌, ◌/◌, ◌≡◌, refl, sym, ap, ◌∙◌, Bool, true, false, ◌&&◌, ◌||◌, not, Option, none, some, List,
  [], ◌∷◌, map, if◌then◌else◌, any, arith, Bool-cases, inl, inr, some_path,
}
use my_finance.Text.{Text, text_eq, text_eq-eq, text_eq_refl}
use my_finance.Money.{Amount}
use my_finance.Fx.{Answer, given, refused}
use my_finance.Fx.Quotes.{Snapshot}
use my_finance.Fx.Refresh.{
  Database, Rate, Refreshed, Progress, going, and_then, set_stale, mark_stale, rate_row,
  row_refused, upsert, pairs, store_cast, store_rate, refresh_with, refresh_all, refresh,
  supported_currencies, start_with, usd,
}
use my_finance.Fx.Kept.{rate_on, is_on, own_key, upsert-rate_on, set_stale-rate_on}

-- Whether the database accepts the statement that follows the fetch for a currency.
abbrev cast_ok : Database → Snapshot → Option Amount → Bool
cast_ok db s none = false
cast_ok db s (some v) = not (db.insert_fails s || row_refused (rate_row s v))

abbrev answer_ok : Database → Text → Answer Snapshot → Bool
answer_ok db quote (refused e) = not (db.update_fails quote)
answer_ok db quote (given s) = cast_ok db s (db.cast s.rate)

unfoldable pub all_accepted : Database → (Text → Answer Snapshot) → List Text → Bool
all_accepted db fetch [] = true
all_accepted db fetch (q ∷ qs) =
    (text_eq q usd || answer_ok db q (fetch q)) && all_accepted db fetch qs

store_cast-going :
    (db : Database) (s : Snapshot) (o : Option Amount) (x : Refreshed)
    → cast_ok db s o ≡ true
    → (v : Amount) × (o ≡ some v)
      × (store_cast db s o x
          ≡ going (record x { rates = upsert (rate_row s v) x.rates; fresh = x.fresh + 1 }))
store_cast-going db s none x h = cc
store_cast-going db s (some v) x h =
    let accepted : (db.insert_fails s || row_refused (rate_row s v)) ≡ false = ground arith in
    (v, refl, rw accepted refl)

mark_stale-going :
    (db : Database) (q : Text) (x : Refreshed)
    → not (db.update_fails q) ≡ true
    → mark_stale db q x
      ≡ going (record x { rates = map (set_stale q) x.rates; stale = x.stale + pairs q x.rates })
unfolding mark_stale
mark_stale-going db q x h = let k : db.update_fails q ≡ false = ground arith in rw k refl

answer_ok-going :
    (db : Database) (q : Text) (a : Answer Snapshot) (x : Refreshed)
    → answer_ok db q a ≡ true
    → (y : Refreshed) × (refresh_with db q a x ≡ going y)
unfolding store_rate
answer_ok-going db q (refused e) x h = (
  record x { rates = map (set_stale q) x.rates; stale = x.stale + pairs q x.rates },
  mark_stale-going db q x h,
)
answer_ok-going db q (given s) x h =
    let (w, known, goes) = store_cast-going db s (db.cast s.rate) x h in
    (record x { rates = upsert (rate_row s w) x.rates; fresh = x.fresh + 1 }, goes)

flipped : (a b : Text) → text_eq a b ≡ false → text_eq b a ≡ false
flipped a b h = elim (Bool-cases (text_eq b a)) [
  | inl same ↦
      let path : a ≡ b = sym (text_eq-eq b a same) in
      let yes : text_eq a b ≡ true = ap (text_eq a) (sym path) ∙ text_eq_refl a in cc
  | inr apart ↦ apart
]

module _ (db : Database) (fetch : Text → Answer Snapshot) (quote : Text) (s : Snapshot) (v : Amount)
    (other : text_eq quote usd ≡ false)
    (named : (q : Text) (a : Snapshot) → fetch q ≡ given a → a.quote ≡ q)
    (answer : fetch quote ≡ given s) (cast : db.cast s.rate ≡ some v) where
  -- A run that goes on to a table with the row of the snapshot.
  record Ends (p : Progress) : Type 0 where
    after : Refreshed
    goes_on : p ≡ going after
    found : rate_on s.base s.quote (s.time / 86400) after.rates ≡ some (rate_row s v)

  stored_answer :
      (x : Refreshed)
      → answer_ok db quote (given s) ≡ true
      → Ends (refresh_with db quote (given s) x)
  unfolding store_rate
  stored_answer x h =
      let (w, known, goes) = store_cast-going db s (db.cast s.rate) x h in
      let same : w ≡ v = some_path (sym known ∙ cast) in
      record {
        after = record x { rates = upsert (rate_row s w) x.rates; fresh = x.fresh + 1 };
        goes_on = goes;
        found =
            upsert-rate_on s.base s.quote (s.time / 86400) (rate_row s w) x.rates
            ∙ ap
                (λ b.
                  if b
                  then some (rate_row s w)
                  else rate_on s.base s.quote (s.time / 86400) x.rates)
                (own_key s w)
            ∙ ap (λ u. some (rate_row s u)) same;
      }

  -- The statement for the currency itself stores the row.
  stored :
      (q : Text) (x : Refreshed)
      → q ≡ quote
      → answer_ok db q (fetch q) ≡ true
      → Ends (refresh_with db q (fetch q) x)
  stored q x same h =
      subst (λ a. answer_ok db q a ≡ true → Ends (refresh_with db q a x))
        (sym answer ∙ ap fetch (sym same))
        (subst (λ t. answer_ok db t (given s) ≡ true → Ends (refresh_with db t (given s) x))
          (sym same) (stored_answer x))
        h

  -- That for another currency keeps the row, as its rows have another quote.
  kept_by :
      (q : Text) (x : Refreshed) (a : Answer Snapshot)
      → text_eq q quote ≡ false
      → fetch q ≡ a
      → answer_ok db q a ≡ true
      → rate_on s.base s.quote (s.time / 86400) x.rates ≡ some (rate_row s v)
      → Ends (refresh_with db q a x)
  unfolding store_rate
  kept_by q x (refused e) apart is_a h k =
      let quotes : s.quote ≡ quote = named quote s answer in
      let others : text_eq s.quote q ≡ false =
        ap (λ t. text_eq t q) quotes ∙ flipped q quote apart in
      record {
        after = record x { rates = map (set_stale q) x.rates; stale = x.stale + pairs q x.rates };
        goes_on = mark_stale-going db q x h;
        found =
            set_stale-rate_on s.base s.quote (s.time / 86400) q (rate_row s v) x.rates k
            ∙ ap some (let left : set_stale q (rate_row s v) ≡ rate_row s v = ground arith in left);
      }
  kept_by q x (given a) apart is_a h k =
      let (w, known, goes) = store_cast-going db a (db.cast a.rate) x h in
      let others : text_eq a.quote s.quote ≡ false =
        ap (λ t. text_eq t s.quote) (named q a is_a)
        ∙ ap (text_eq q) (named quote s answer)
        ∙ apart in
      let off : is_on s.base s.quote (s.time / 86400) (rate_row a w) ≡ false = ground arith in
      record {
        after = record x { rates = upsert (rate_row a w) x.rates; fresh = x.fresh + 1 };
        goes_on = goes;
        found =
            upsert-rate_on s.base s.quote (s.time / 86400) (rate_row a w) x.rates
            ∙ ap
                (λ b.
                  if b
                  then some (rate_row a w)
                  else rate_on s.base s.quote (s.time / 86400) x.rates)
                off
            ∙ k;
      }

  passed :
      (q : Text) (x : Refreshed)
      → answer_ok db q (fetch q) ≡ true
      → rate_on s.base s.quote (s.time / 86400) x.rates ≡ some (rate_row s v)
      → Ends (refresh_with db q (fetch q) x)
  passed q x h k = elim (Bool-cases (text_eq q quote)) [
    | inl same ↦ stored q x (text_eq-eq q quote same) h
    | inr apart ↦ kept_by q x (fetch q) apart refl h k
  ]

  Ends-and_then :
      (p : Progress) (rest : Refreshed → Progress)
      → Ends p
      → ((x : Refreshed)
          → rate_on s.base s.quote (s.time / 86400) x.rates ≡ some (rate_row s v)
          → Ends (rest x))
      → Ends (and_then p rest)
  Ends-and_then p rest e next =
      subst (λ t. Ends (and_then t rest)) (sym e.goes_on) (next e.after e.found)

  Ends-if :
      (b : Bool) (p q : Progress)
      → (b ≡ true → Ends p)
      → (b ≡ false → Ends q)
      → Ends (if b then p else q)
  Ends-if true p q h k = h refl
  Ends-if false p q h k = k refl

  rest_keeps :
      (qs : List Text) (x : Refreshed)
      → all_accepted db fetch qs ≡ true
      → rate_on s.base s.quote (s.time / 86400) x.rates ≡ some (rate_row s v)
      → Ends (refresh_all db fetch qs x)
  unfolding all_accepted refresh_all
  rest_keeps [] x h k = record { after = x; goes_on = refl; found = k }
  rest_keeps (q ∷ qs) x h k =
      let others : all_accepted db fetch qs ≡ true = ground arith in
      Ends-if (text_eq q usd) (refresh_all db fetch qs x) _ (λ skip. rest_keeps qs x others k)
        (λ asked.
          Ends-and_then (refresh_with db q (fetch q) x) (refresh_all db fetch qs)
            (passed q x (ground arith) k) (λ y l. rest_keeps qs y others l))

  all_stores :
      (qs : List Text) (x : Refreshed)
      → all_accepted db fetch qs ≡ true
      → any (text_eq quote) qs ≡ true
      → Ends (refresh_all db fetch qs x)
  unfolding all_accepted refresh_all any
  all_stores [] x h listed = cc
  all_stores (q ∷ qs) x h listed =
      let others : all_accepted db fetch qs ≡ true = ground arith in
      elim (Bool-cases (text_eq quote q)) [
        | inl same ↦
            let path : q ≡ quote = sym (text_eq-eq quote q same) in
            let asked : text_eq q usd ≡ false = ap (λ t. text_eq t usd) path ∙ other in
            Ends-if (text_eq q usd) (refresh_all db fetch qs x) _ (λ skip. cc)
              (λ e.
                Ends-and_then (refresh_with db q (fetch q) x) (refresh_all db fetch qs)
                  (stored q x path (ground arith)) (λ y l. rest_keeps qs y others l))
        | inr apart ↦
            let later : any (text_eq quote) qs ≡ true = ground arith in
            Ends-if (text_eq q usd) (refresh_all db fetch qs x) _
              (λ skip. all_stores qs x others later)
              (λ e.
                let (y, goes) = answer_ok-going db q (fetch q) x (ground arith) in
                subst (λ p. Ends (and_then p (refresh_all db fetch qs))) (sym goes)
                  (all_stores qs y others later))
      ]

-- A refresh that gets the lock, and whose statements the database accepts, comes to its end, and has
-- asked for each supported currency but the dollar: where the fetch for one has answered with a
-- snapshot, the row of its pair and day has its rate, as the column holds it, and is not stale. Each
-- snapshot has the quote that it was asked for, as those of `Fetch` have.
pub refresh-stores :
    (db : Database) (fetch : Text → Answer Snapshot) (quote : Text) (s : Snapshot) (v : Amount)
    (rates : List Rate)
    → all_accepted db fetch supported_currencies ≡ true
    → any (text_eq quote) supported_currencies ≡ true
    → text_eq quote usd ≡ false
    → ((q : Text) (a : Snapshot) → fetch q ≡ given a → a.quote ≡ q)
    → fetch quote ≡ given s
    → db.cast s.rate ≡ some v
    → (x : Refreshed) × (refresh db true fetch rates ≡ going x)
      × (rate_on s.base s.quote (s.time / 86400) x.rates
          ≡ some (record {
            base = s.base;
            quote = s.quote;
            rate = v;
            day = s.time / 86400;
            stale = false;
          }))
unfolding refresh
refresh-stores db fetch quote s v rates accepted listed other named answer cast =
    let e =
      all_stores db fetch quote s v other named answer cast supported_currencies (start_with rates)
        accepted listed in
    (e.after, e.goes_on, e.found)
