-- ===== src/RateLimit/Lockout.antt =====
-- How long a key is locked out.
use my_finance.Common.{
  ℕ, suc, ◌+◌, ◌<◌, ◌≤◌, ◌≡◌, refl, ap, ◌∙◌, true, false, Option, none, some, List, [], ◌∷◌, ltb,
  ◌==◌, find, length, arith, Bool-cases, inl, inr, All, lt→ltb, find-eq-some,
}
use my_finance.RateLimit.{
  Row, Limiter, lookup, has_key, keep, other_key, allowed, failed, fail_at, sweep, store, current,
}

row : ℕ → ℕ → ℕ → Row
row key failures reset_at = record { key = key; failures = failures; reset_at = reset_at }

-- The sweep keeps a row in front that has not run out.
sweep-lookup :
    (key now : ℕ) (r : Row) (rs : List Row) (l : Limiter)
    → r.key ≡ key
    → now < r.reset_at
    → lookup key (sweep now (record l { entries = r ∷ rs })) ≡ some r
unfolding find keep
sweep-lookup key now r rs l same later = ground arith

-- The first failure starts a window, a later one counts in it.
failed-lookup-none :
    (key now : ℕ) (l : Limiter)
    → lookup key l ≡ none
    → 1 ≤ l.window
    → lookup key (failed key now l)
      ≡ some (record { key = key; failures = 1; reset_at = now + l.window })
unfolding failed
failed-lookup-none key now l h w = rw h (sweep-lookup key now _ _ l refl (omega (arith, w)))

failed-lookup-some :
    (key now failures reset_at : ℕ) (l : Limiter)
    → lookup key l ≡ some (record { key = key; failures = failures; reset_at = reset_at })
    → now < reset_at
    → lookup key (failed key now l)
      ≡ some (record { key = key; failures = suc failures; reset_at = reset_at })
unfolding failed
failed-lookup-some key now failures reset_at l h w =
    rw (h, lt→ltb now reset_at w) (sweep-lookup key now _ _ l refl w)

failed-maximum : (key now : ℕ) (l : Limiter) → (failed key now l).maximum ≡ l.maximum
unfolding failed
failed-maximum key now l = ground arith

-- Within a window that runs, failures are counted.
fail_at-allowed :
    (key now failures reset_at : ℕ) (ts : List ℕ) (l : Limiter)
    → lookup key l ≡ some (record { key = key; failures = failures; reset_at = reset_at })
    → All (λ t. t < reset_at) ts
    → now < reset_at
    → (allowed key now (fail_at key ts l)).0 ≡ ltb (length ts + failures) l.maximum
unfolding allowed
fail_at-allowed key now failures reset_at [] l h ts_in w =
    rw (h, lt→ltb now reset_at w) (ap (λ n. ltb n l.maximum) (omega arith))
fail_at-allowed key now failures reset_at (t ∷ ts) l h (t_in, ts_in) w =
    fail_at-allowed key now (suc failures) reset_at ts (failed key t l)
      (failed-lookup-some key t failures reset_at l h t_in) ts_in w
    ∙ rw (failed-maximum key t l) (ap (λ n. ltb n l.maximum) (omega arith))

-- A key with no failures on record fails at `first` and then at the times `ts`, each before the end
-- of the window that the first failure starts. At a time `now` before that end it is allowed exactly
-- when these failures, one more than `ts` has, are fewer than the maximum. The window is not empty.
pub fail_at-allowed_iff :
    (key first now : ℕ) (ts : List ℕ) (l : Limiter)
    → lookup key l ≡ none
    → 1 ≤ l.window
    → All (λ t. t < first + l.window) ts
    → now < first + l.window
    → (allowed key now (fail_at key (first ∷ ts) l)).0 ≡ ltb (suc (length ts)) l.maximum
fail_at-allowed_iff key first now ts l h w ts_in now_in =
    fail_at-allowed key now 1 (first + l.window) ts (failed key first l)
      (failed-lookup-none key first l h w) ts_in now_in
    ∙ rw (failed-maximum key first l) (ap (λ n. ltb n l.maximum) (omega arith))

find-keep_other :
    (key other : ℕ) (rs : List Row)
    → (key == other) ≡ false
    → find (has_key other) (keep (other_key key) rs) ≡ find (has_key other) rs
unfolding find keep
find-keep_other key other [] h = refl
find-keep_other key other (r ∷ rs) h = ground (arith, find-keep_other key other rs h)

find-keep_live :
    (now other : ℕ) (r : Row) (rs : List Row)
    → find (has_key other) rs ≡ some r
    → now < r.reset_at
    → find (has_key other) (keep (λ x. ltb now x.reset_at) rs) ≡ some r
unfolding find keep
find-keep_live now other r [] h w = cc
find-keep_live now other r (x ∷ rs) h w = ground (arith, find-keep_live now other r rs)

sweep-lookup_other :
    (other now : ℕ) (r : Row) (l : Limiter)
    → lookup other l ≡ some r
    → now < r.reset_at
    → lookup other (sweep now l) ≡ some r
sweep-lookup_other other now r l found w = elim (Bool-cases (ltb 1024 (length l.entries))) [
  | inl many ↦ rw many (find-keep_live now other r l.entries found w)
  | inr few ↦ rw few found
]

store-lookup_other :
    (other : ℕ) (x : Row) (l : Limiter)
    → (x.key == other) ≡ false
    → lookup other (store x l) ≡ lookup other l
unfolding find
store-lookup_other other x l h = rw h (find-keep_other x.key other l.entries h)

-- The row that a failure counts on has the key of the failure.
current-key :
    (key now : ℕ) (l : Limiter) (o : Option Row)
    → lookup key l ≡ o
    → (current key now l o).key ≡ key
current-key key now l none e = refl
current-key key now l (some r) e =
    let same : (r.key == key) ≡ true = find-eq-some (has_key key) r l.entries e in ground arith

-- A failure of one key leaves the record of another that has not run out, also when the rows are
-- swept: nobody's lock is lifted by the failures of others.
pub failed-lookup_other :
    (key other now : ℕ) (r : Row) (l : Limiter)
    → (key == other) ≡ false
    → lookup other l ≡ some r
    → now < r.reset_at
    → lookup other (failed key now l) ≡ some r
unfolding failed
failed-lookup_other key other now r l h found w =
    sweep-lookup_other other now r _
      (store-lookup_other other _ l (rw (current-key key now l (lookup key l) refl) h) ∙ found) w
