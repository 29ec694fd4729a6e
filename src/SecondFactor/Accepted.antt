-- ===== src/SecondFactor/Accepted.antt =====
-- Which codes `ValidateTOTP` accepts.
use my_finance.Common.{
  ℕ, ◌+◌, ◌/◌, ◌^◌, ◌%◌, suc, zero, ◌≡◌, refl, sym, ap, ◌∙◌, ◌⊎◌, inl, inr, Bool, true, false, not,
  Option, none, some, List, [], ◌∷◌, arith, ltb, ◌==◌, if◌then◌else◌, Bool-cases, is_some, length,
  lt_of_ltb, le_of_ltb, some_path, ◌≢◌,
}
use my_finance.Common.Int.{ℤ, pos, ltb_ℤ, int_laws, eq_of_parts}
use my_finance.Text.{Text, trim_space, len, text_eq, text_eq_refl, text_eq-eq}
use my_finance.SecondFactor.Totp.{
  Hashing, totp_at, code_at, padded, shown_number, compare, try_steps, candidates, validate_totp,
  Matches, IsAmong, IsNear, Accepts,
}

-- A digit is one byte.
len-padded : (digits n : ℕ) → len (padded digits n) ≡ digits
unfolding len padded
len-padded zero n = refl
len-padded (suc digits) n =
    let ih = len-padded digits n in
    let small : ltb (48 + (n / 10 ^ digits) % 10) 0x80 ≡ true = ground arith in
    rw small (omega (arith, ih))

-- A code that is shown has six bytes.
code_at-len :
    (c : Hashing) (code : Text) (step : ℤ) (key : Option (List ℕ))
    → code_at c 6 step key ≡ some code
    → len code ≡ 6
code_at-len c code step none h = cc
code_at-len c code step (some key) h = elim (Bool-cases (ltb (length key) 16)) [
  | inl short ↦ ground arith
  | inr long ↦
      let n = shown_number c 6 step key in
      ap len (sym (some_path (ap (λ b. if b then none else some (padded 6 n)) (sym long) ∙ h)))
      ∙ len-padded 6 n
]

-- Whether a secret gives codes does not depend on the step.
code_at-none :
    (c : Hashing) (code : Text) (s t : ℤ) (key : Option (List ℕ))
    → code_at c 6 s key ≡ none
    → code_at c 6 t key ≢ some code
code_at-none c code s t none h k = cc
code_at-none c code s t (some key) h k = ground arith

-- One turn of the loop: a later acceptance is not lost, and an acceptance is the step's or later.
turn-is_some :
    (code : Text) (s : ℤ) (b : Bool) (o : Option Text) (rest : Option ℤ)
    → is_some rest ≡ true
    → o ≢ none
    → is_some (if not b then rest else compare code s rest o) ≡ true
turn-is_some code s false o rest h k = h
turn-is_some code s true none rest h k = absurd (k refl)
turn-is_some code s true (some x) rest h k = ground arith

turn-some :
    (code : Text) (s : ℤ) (b : Bool) (o : Option Text) (rest : Option ℤ) (step : ℤ)
    → (if not b then rest else compare code s rest o) ≡ some step
    → (rest ≡ some step) ⊎ ((step ≡ s) × (b ≡ true) × (o ≡ some code))
turn-some code s false o rest step h = inl h
turn-some code s true none rest step h = cc
turn-some code s true (some x) rest step h = elim (Bool-cases (text_eq x code)) [
  | inl same ↦ inr (
    some_path (sym h ∙ ap (λ b. if b then some s else rest) same),
    refl,
    ap some (text_eq-eq x code same),
  )
  | inr apart ↦ inl (ap (λ b. if b then some s else rest) (sym apart) ∙ h)
]

totp_at-len :
    (c : Hashing) (secret code : Text) (step : ℤ)
    → totp_at c secret step 6 ≡ some code
    → len code ≡ 6
unfolding totp_at
totp_at-len c secret code step h =
    code_at-len c code step (c.base32 (c.to_upper (trim_space secret))) h

totp_at-none :
    (c : Hashing) (secret code : Text) (s t : ℤ)
    → totp_at c secret s 6 ≡ none
    → totp_at c secret t 6 ≢ some code
unfolding totp_at
totp_at-none c secret code s t h k =
    code_at-none c code s t (c.base32 (c.to_upper (trim_space secret))) h k

module _ (c : Hashing) (secret code : Text) (last : ℤ) where
  try_steps-some :
      (steps : List ℤ) (step : ℤ)
      → try_steps c secret code last steps ≡ some step
      → IsAmong step steps × Matches c secret code last step
  unfolding try_steps IsAmong
  try_steps-some [] step h = cc
  try_steps-some (s ∷ ss) step h =
      elim (turn-some code s (ltb_ℤ last s) (totp_at c secret s 6) (try_steps c secret code last ss)
        step h) [
          | inl later ↦ let (among, m) = try_steps-some ss step later in (inr among, m)
          | inr (same, new, shown) ↦ (inl same, rw same (new, shown))
        ]

  try_steps-is_some :
      (steps : List ℤ) (step : ℤ)
      → IsAmong step steps
      → Matches c secret code last step
      → is_some (try_steps c secret code last steps) ≡ true
  unfolding try_steps IsAmong
  try_steps-is_some [] step h m = absurd h
  try_steps-is_some (s ∷ ss) step (inl same) (new, shown) =
      rw (sym same, new, shown, text_eq_refl code) refl
  try_steps-is_some (s ∷ ss) step (inr among) m =
      turn-is_some code s (ltb_ℤ last s) (totp_at c secret s 6) (try_steps c secret code last ss)
        (try_steps-is_some ss step among m)
        (λ none_here. totp_at-none c secret code s step none_here m.1)

among-IsNear : (now : ℕ) (step : ℤ) → IsAmong step (candidates now) → IsNear now step
unfolding IsAmong
among-IsNear now step (inl e) =
    rw e (record { not_early = omega int_laws; not_late = omega int_laws })
among-IsNear now step (inr (inl e)) =
    rw e (record { not_early = omega int_laws; not_late = omega int_laws })
among-IsNear now step (inr (inr (inl e))) =
    rw e (record { not_early = omega int_laws; not_late = omega int_laws })
among-IsNear now step (inr (inr (inr e))) = absurd e

near-IsAmong : (now : ℕ) (step : ℤ) → IsNear now step → IsAmong step (candidates now)
unfolding IsAmong
near-IsAmong now step h = elim (Bool-cases (ltb_ℤ step (pos (now / 30)))) [
  | inl early ↦
      inl (eq_of_parts _ _ (omega (int_laws, h.not_early, h.not_late, lt_of_ltb _ _ early)))
  | inr k ↦ elim (Bool-cases (ltb_ℤ (pos (now / 30)) step)) [
    | inl late ↦ inr (
        inr (inl (eq_of_parts _ _ (omega (int_laws, h.not_early, h.not_late, lt_of_ltb _ _ late)))))
    | inr l ↦ inr (inl (eq_of_parts _ _ (omega (int_laws, le_of_ltb _ _ k, le_of_ltb _ _ l))))
  ]
]

-- `ValidateTOTP` accepts a code exactly when it is, up to spaces around it, the code of a step that
-- is later than the last one used and at most one away from the time's own; the step that it answers
-- with is such a step.
pub validate_totp-Accepts :
    (c : Hashing) (secret code : Text) (now : ℕ) (last : ℤ)
    → ((step : ℤ)
        → validate_totp c secret code now last ≡ some step
        → Accepts c secret code now last step)
      × ((step : ℤ)
          → Accepts c secret code now last step
          → is_some (validate_totp c secret code now last) ≡ true)
unfolding validate_totp
validate_totp-Accepts c secret code now last = (
  λ step h. elim (Bool-cases (len (trim_space code) == 6)) [
    | inl six ↦
        let (among, m) = try_steps-some c secret (trim_space code) last (candidates now) step (
          ap
            (λ b.
              if not b then none else try_steps c secret (trim_space code) last (candidates now))
            (sym six)
          ∙ h) in
        (among-IsNear now step among, m)
    | inr other ↦ ground arith
  ],
  λ step (near, m).
      ap
        (λ n. is_some (
          if not (n == 6)
          then none
          else try_steps c secret (trim_space code) last (candidates now)))
        (totp_at-len c secret (trim_space code) step m.1)
      ∙ try_steps-is_some c secret (trim_space code) last (candidates now) step
          (near-IsAmong now step near) m,
)
