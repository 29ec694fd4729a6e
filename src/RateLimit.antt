-- ===== src/RateLimit.antt =====
-- The login limiter of internal/httpapi/rate_limit.go. Keys are only compared, and times are in any
-- unit, so both are numbers; the mutex makes each method one step. The map is an association list
-- with one row for a key, its order that of the latest stores.
pub mod Lockout
use my_finance.Common.{
  ℕ, suc, ◌+◌, ◌≡◌, refl, Bool, true, false, not, Option, none, some, List, [], ◌∷◌, ltb, ◌==◌,
  if◌then◌else◌, find, length,
}

-- `loginLimitEntry`, with its key.
pub record Row : Type 0 where
  pub key : ℕ
  pub failures : ℕ
  pub reset_at : ℕ

-- `loginLimiter`
pub record Limiter : Type 0 where
  pub entries : List Row
  pub maximum : ℕ
  pub window : ℕ

-- `newLoginLimiter`
abbrev pub new_limiter : ℕ → ℕ → Limiter
new_limiter maximum window = record { entries = []; maximum = maximum; window = window }

abbrev pub has_key : ℕ → Row → Bool
has_key key r = r.key == key

-- `limiter.entries[key]`
abbrev pub lookup : ℕ → Limiter → Option Row
lookup key l = find (has_key key) l.entries

unfoldable pub keep : (Row → Bool) → List Row → List Row
keep p [] = []
keep p (r ∷ rs) = let rest = keep p rs in if p r then r ∷ rest else rest

abbrev pub other_key : ℕ → Row → Bool
other_key key r = not (r.key == key)

-- `delete(limiter.entries, key)`
abbrev pub delete : ℕ → Limiter → Limiter
delete key l = record l { entries = keep (other_key key) l.entries }

-- `!now.Before(entry.resetAt)`
abbrev pub expired : ℕ → Row → Bool
expired now r = not (ltb now r.reset_at)

abbrev decide : ℕ → ℕ → Limiter → Option Row → Bool × Limiter
decide key now l none = (true, delete key l)
decide key now l (some r) =
    if expired now r then (true, delete key l) else (ltb r.failures l.maximum, l)

-- `allowed`
unfoldable pub allowed : ℕ → ℕ → Limiter → Bool × Limiter
allowed key now l = decide key now l (lookup key l)

abbrev start : ℕ → ℕ → Limiter → Row
start key now l = record { key = key; failures = 0; reset_at = now + l.window }

abbrev pub current : ℕ → ℕ → Limiter → Option Row → Row
current key now l none = start key now l
current key now l (some r) = if expired now r then start key now l else r

abbrev more : Row → Row
more r = record r { failures = suc r.failures }

-- `limiter.entries[key] = entry`
abbrev pub store : Row → Limiter → Limiter
store r l = record l { entries = r ∷ keep (other_key r.key) l.entries }

abbrev live : ℕ → Row → Bool
live now r = ltb now r.reset_at

-- The sweep of the rows that have run out, when there are more than 1024.
abbrev pub sweep : ℕ → Limiter → Limiter
sweep now l =
    if ltb 1024 (length l.entries) then record l { entries = keep (live now) l.entries } else l

-- `failed`
unfoldable pub failed : ℕ → ℕ → Limiter → Limiter
failed key now l = sweep now (store (more (current key now l (lookup key l))) l)

-- `succeeded`
unfoldable pub succeeded : ℕ → Limiter → Limiter
succeeded key l = delete key l

-- Failures of a key one after the other.
abbrev pub fail_at : ℕ → List ℕ → Limiter → Limiter
fail_at key [] l = l
fail_at key (t ∷ ts) l = fail_at key ts (failed key t l)

-- `TestLoginLimiter` of rate_limit_test.go, in seconds.
limiter_test : (allowed 7 0 (fail_at 7 (0 ∷ 0 ∷ []) (new_limiter 2 60))).0 ≡ false
unfolding allowed failed find keep
limiter_test = refl
