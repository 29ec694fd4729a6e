-- ===== src/Tests/Logins.antt =====
-- The login limiter at concrete times.
use my_finance.Common.{◌≡◌, refl, some, [], ◌∷◌, ltb, arith, find}
use my_finance.RateLimit.{Limiter, Row, new_limiter, lookup, allowed, failed, fail_at}
use my_finance.RateLimit.Lockout.{fail_at-allowed_iff, failed-lookup_other}

abbrev limiter : Limiter
limiter = new_limiter 3 60

fail_at-allowed_iff_example : (allowed 7 50 (fail_at 7 (10 ∷ 20 ∷ 30 ∷ []) limiter)).0 ≡ ltb 3 3
unfolding find
fail_at-allowed_iff_example =
    fail_at-allowed_iff 7 10 50 (20 ∷ 30 ∷ []) limiter refl (omega arith)
      (omega arith, (omega arith, tt)) (omega arith)

abbrev locked : Row
locked = record { key = 8; failures = 5; reset_at = 100 }

failed-lookup_other_example :
    lookup 8 (failed 7 40 (record limiter { entries = locked ∷ [] })) ≡ some locked
unfolding find
failed-lookup_other_example =
    failed-lookup_other 7 8 40 locked (record limiter { entries = locked ∷ [] }) refl refl
      (omega arith)
