-- ===== src/Fx/Retry.antt =====
-- `fetchWithRetry` and `fetchHistoryWithRetry` of internal/fx/fx.go. The provider and the timer are
-- outside: what the n-th call returns, and whether the wait after it ends before the context does.
use mathlib.Core.Path.{subst}
use my_finance.Common.{
  ℕ, zero, suc, ◌+◌, ◌≤◌, ◌<◌, ◌≡◌, refl, Bool-cases, inl, inr, Bool, true, false, ◌||◌, ◌==◌,
  arith, if◌then◌else◌,
}

pub data FetchError : Type 0 where
  is_unavailable other_failure cancelled : FetchError

pub data Fetched (A : Type 0) : Type 0 where
  got : A → Fetched A
  lost : FetchError → Fetched A

-- `errors.Is(err, ErrUnavailable)`
abbrev pub gives_up : FetchError → Bool
gives_up is_unavailable = true
gives_up e = false

module _ {A : Type 0} (fetch : ℕ → Fetched A) (waits : ℕ → Bool) where
  -- What follows a call: its answer, or the loop's next turn.
  abbrev after_call : ℕ → Fetched A × ℕ → Fetched A → Fetched A × ℕ
  after_call attempt rest (got a) = (got a, attempt + 1)
  after_call attempt rest (lost e) =
      if attempt == 2 || gives_up e
      then (lost e, attempt + 1)
      else if waits attempt
      then rest
      else (lost cancelled, attempt + 1)

  -- The loop from an attempt on, with the number of calls made in the end. Its fuel is the attempts
  -- that are left; the answer without fuel is not reached.
  unfoldable pub retry_from : ℕ → ℕ → Fetched A × ℕ
  retry_from zero attempt = (lost other_failure, attempt)
  retry_from (suc fuel) attempt =
      let rest = retry_from fuel (attempt + 1) in after_call attempt rest (fetch attempt)

  -- `fetchWithRetry` and `fetchHistoryWithRetry`
  unfoldable pub fetch_with_retry : Fetched A × ℕ
  unfolding retry_from
  fetch_with_retry = retry_from 3 0

  -- A call that fails and is followed by another.
  abbrev pub IsRetried : ℕ → Type 0
  IsRetried n = (e : FetchError) × (fetch n ≡ lost e) × (gives_up e ≡ false) × (waits n ≡ true)

  -- How the loop ends, after the call of number `n`: with what that call returned, which is a success
  -- or an error that is not retried, or because the wait after its error was cut short.
  pub data Ended (n : ℕ) : Fetched A → Type 0 where
    succeeded : (a : A) → fetch n ≡ got a → Ended n (got a)
    last_error :
        (e : FetchError) → fetch n ≡ lost e → (n == 2 || gives_up e) ≡ true → Ended n (lost e)
    interrupted : (e : FetchError) → fetch n ≡ lost e → waits n ≡ false → Ended n (lost cancelled)

  abbrev pub IsOutcome : ℕ → Fetched A × ℕ → Type 0
  IsOutcome attempt r =
      (n : ℕ) × (attempt ≤ n)
      × (n ≤ 2)
      × (r.1 ≡ n + 1)
      × ((i : ℕ) → attempt ≤ i → i < n → IsRetried i)
      × Ended n r.0

  -- A call that is retried comes before those of the rest.
  IsRetried-first :
      (attempt n : ℕ)
      → IsRetried attempt
      → ((i : ℕ) → attempt + 1 ≤ i → i < n → IsRetried i)
      → (i : ℕ) → attempt ≤ i
      → i < n
      → IsRetried i
  IsRetried-first attempt n h before i low high = elim (Bool-cases (attempt == i)) [
    | inl same ↦ let eq : attempt ≡ i = ground arith in subst IsRetried eq h
    | inr other ↦ let past : attempt + 1 ≤ i = ground arith in before i past high
  ]

  after_call-IsOutcome :
      (attempt : ℕ) (rest : Fetched A × ℕ)
      → attempt ≤ 2
      → ((attempt == 2) ≡ false → IsOutcome (attempt + 1) rest)
      → IsOutcome attempt (after_call attempt rest (fetch attempt))
  after_call-IsOutcome attempt rest h more = called (fetch attempt) refl
    where
      none_before : (i : ℕ) → attempt ≤ i → i < attempt → IsRetried i
      none_before i p q = absurd (omega (arith, p, q))

      waited :
          (e : FetchError)
          → fetch attempt ≡ lost e
          → (attempt == 2 || gives_up e) ≡ false
          → (b : Bool) → waits attempt ≡ b
          → IsOutcome attempt (if b then rest else (lost cancelled, attempt + 1))
      waited e failed retries true w =
          let (n, low, high, calls, before, end) = more (ground arith) in
          let again : gives_up e ≡ false = ground arith in
          (
            n,
            omega (arith, low),
            high,
            calls,
            IsRetried-first attempt n (e, failed, again, w) before,
            end,
          )
      waited e failed retries false w =
          (attempt, omega arith, h, refl, none_before, interrupted e failed w)

      tested :
          (e : FetchError)
          → fetch attempt ≡ lost e
          → (b : Bool) → (attempt == 2 || gives_up e) ≡ b
          → IsOutcome attempt (
              if b
              then (lost e, attempt + 1)
              else if waits attempt
              then rest
              else (lost cancelled, attempt + 1))
      tested e failed true last =
          (attempt, omega arith, h, refl, none_before, last_error e failed last)
      tested e failed false retries = waited e failed retries (waits attempt) refl

      called : (f : Fetched A) → fetch attempt ≡ f → IsOutcome attempt (after_call attempt rest f)
      called (got a) ran = (attempt, omega arith, h, refl, none_before, succeeded a ran)
      called (lost e) failed = tested e failed (attempt == 2 || gives_up e) refl

  retry_from-IsOutcome :
      (fuel attempt : ℕ)
      → suc fuel + attempt ≡ 3
      → IsOutcome attempt (retry_from (suc fuel) attempt)
  unfolding retry_from
  retry_from-IsOutcome zero attempt h =
      after_call-IsOutcome attempt (retry_from zero (attempt + 1)) (omega (arith, h))
        (λ other. absurd (ground arith))
  retry_from-IsOutcome (suc fuel) attempt h =
      let rest = retry_from-IsOutcome fuel (attempt + 1) (omega (arith, h)) in
      after_call-IsOutcome attempt (retry_from (suc fuel) (attempt + 1)) (omega (arith, h))
        (λ other. rest)

-- A fetch makes one, two or three calls, whatever the provider and the timer do. Each call before the
-- last has failed with an error other than `ErrUnavailable` and was waited out. The answer is that of
-- the last call, a success or its error, where the error is `ErrUnavailable` or the call is the third
-- one; or it is the context's error, where the wait was cut short.
pub fetch_with_retry-IsOutcome :
    {A : Type 0} (fetch : ℕ → Fetched A) (waits : ℕ → Bool)
    → IsOutcome fetch waits 0 (fetch_with_retry fetch waits)
unfolding fetch_with_retry
fetch_with_retry-IsOutcome fetch waits = retry_from-IsOutcome fetch waits 2 0 refl
