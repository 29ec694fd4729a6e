-- ===== src/Recurring/Generation/Count.antt =====
-- The occurrences that a run of the worker counts.
use my_finance.Common.{
  ℕ, zero, suc, ◌+◌, ◌≤◌, ◌≡◌, refl, inl, inr, sym, ap, ◌∙◌, Bool, true, false, List, [], ◌∷◌, leb,
  length, take, arith, Bool-cases, ◌||◌, if◌then◌else◌,
}
use my_finance.Calendar.{Date}
use my_finance.Errors.{ok, time_zone}
use my_finance.Tx.{Tx, pure, ◌>>=◌, ◌>>◌, or_fail}
use my_finance.Tx.Keeps.{>>=-eq-ok, reads>>=-eq-ok, state_path, value_path}
use my_finance.Recurring.Templates.{Template, Plans}
use my_finance.Recurring.Generation.{
  Supply, Generation, occurrence_on, generate_on, generate_dates, counted, days_left, move_template,
  due_templates, generate_template, generate_all, generate_batch, generate_recurring,
  batch_or_default, past_end,
}
use my_finance.Recurring.Generation.Turn.{IsClaimed, generate_on-IsClaimed}
use my_finance.Recurring.Generation.Claims.{ends, turns, generate_dates-Unrolled}

move_template-occurrences :
    (t : Template) (d : Date) (done : Bool) (p p' : Plans) (u : Unit {0})
    → move_template t d done p ≡ ok (u, p')
    → p'.occurrences ≡ p.occurrences
unfolding move_template
move_template-occurrences t d done p p' u h = ground arith

-- The count is that of the new rows, and does not pass the batch.
abbrev IsCounted : ℕ → ℕ → Plans → ℕ → Plans → Type 0
IsCounted batch generated p made p' =
    (made ≤ batch) × (made + length p.occurrences ≡ generated + length p'.occurrences)

-- A turn counts the row that it makes.
turn_count :
    (w : Supply) (t : Template) (d : Date) (p p' : Plans) (made : Bool) (generated : ℕ)
    → generate_on w t d p ≡ ok (made, p')
    → counted generated made + length p.occurrences ≡ generated + length p'.occurrences
turn_count w t d p p' made generated h = go (generate_on-IsClaimed w t d p p' made h)
  where
    go :
        (transaction : ℕ) × IsClaimed
            (occurrence_on w t d transaction)
            p.occurrences
            made
            p'.occurrences
        → counted generated made + length p.occurrences ≡ generated + length p'.occurrences
    go (x, inl (there, stays, same)) = rw (stays, same)
    go (x, inr (free, grows, same)) = rw (grows, same) (omega arith)

counted-bound :
    (batch generated : ℕ) (made b c : Bool)
    → (b || leb batch generated || c) ≡ false
    → counted generated made ≤ batch
counted-bound batch generated made b c h = ground arith

generate_dates-IsCounted :
    (fuel : ℕ) (w : Supply) (t : Template) (today : Date) (batch : ℕ) (next : Date) (generated : ℕ)
    (p p' : Plans) (r : ℕ × Date)
    → generated ≤ batch
    → generate_dates fuel w t today batch next generated p ≡ ok (r, p')
    → IsCounted batch generated p r.0 p'
unfolding generate_dates
generate_dates-IsCounted zero w t today batch next generated p p' r below h =
    let made : r.0 ≡ generated = ap (λ (x : ℕ × Date). x.0) (sym (value_path h)) in
    rw (made, sym (state_path h)) (below, refl)
generate_dates-IsCounted (suc fuel) w t today batch next generated p p' r below h =
    elim (generate_dates-Unrolled fuel w t today batch next generated p p' r h) [
      | ends over same back ↦ rw (same, back) (below, refl)
      | turns made q on turn rest ↦
          let (under, rows) =
            generate_dates-IsCounted fuel w t today batch _ (counted generated made) q p' r
              (counted-bound batch generated made _ _ on) rest in
          (under, omega (arith, rows, turn_count w t next p q made generated turn))
    ]

generate_template-IsCounted :
    (w : Supply) (t : Template) (today : Date) (batch generated : ℕ) (p p' : Plans) (made : ℕ)
    → generated ≤ batch
    → generate_template w t today batch generated p ≡ ok (made, p')
    → IsCounted batch generated p made p'
unfolding generate_template
generate_template-IsCounted w t today batch generated p p' made below h =
    let (r, q, loop, rest) =
      >>=-eq-ok (generate_dates (days_left today t.next) w t today batch t.next generated)
        (λ r. move_template t r.1 (past_end t r.1) >> pure r.0) p h in
    let (u, o, move, last) =
      >>=-eq-ok (move_template t r.1 (past_end t r.1)) (λ u. pure r.0) q rest in
    let kept : p'.occurrences ≡ q.occurrences =
      ap (λ (x : Plans). x.occurrences) (sym (state_path last))
      ∙ move_template-occurrences t r.1 (past_end t r.1) q o u move in
    let (under, rows) =
      generate_dates-IsCounted (days_left today t.next) w t today batch t.next generated p q r below
        loop in
    rw (sym (value_path last), kept) (under, rows)

generate_all-IsCounted :
    (w : Supply) (batch : ℕ) (ts : List Template) (generated : ℕ) (p p' : Plans) (made : ℕ)
    → generated ≤ batch
    → generate_all w batch ts generated p ≡ ok (made, p')
    → IsCounted batch generated p made p'
unfolding generate_all
generate_all-IsCounted w batch [] generated p p' made below h =
    rw (sym (value_path h), sym (state_path h)) (below, refl)
generate_all-IsCounted w batch (t ∷ ts) generated p p' made below h =
    let (today, zone, rest) =
      reads>>=-eq-ok (λ (q : Plans). or_fail (w.today t.user) time_zone)
        (λ today. generate_template w t today batch generated >>= λ n. go_on n (leb batch n)) p h in
    let (n, q, first, others) =
      >>=-eq-ok (generate_template w t today batch generated) (λ n. go_on n (leb batch n)) p rest in
    let (under, rows) = generate_template-IsCounted w t today batch generated p q n below first in
    elim (Bool-cases (leb batch n)) [
      | inl full ↦
          let same = ap (λ (b : Bool). go_on n b q) (sym full) ∙ others in
          rw (sym (value_path same), sym (state_path same)) (under, rows)
      | inr more ↦
          let (under2, rows2) =
            generate_all-IsCounted w batch ts n q p' made under
              (ap (λ (b : Bool). go_on n b q) (sym more) ∙ others) in
          (under2, omega (arith, rows, rows2))
    ]
  where
    go_on : ℕ → Bool → Tx Plans ℕ
    go_on n b = if b then pure n else generate_all w batch ts n

-- A run of the worker that succeeds counts exactly the occurrences that it adds, and these are at
-- most as many as the batch size, which is 100 where a size below 1 is asked for.
pub generate_recurring-generated :
    (w : Supply) (free : Bool) (size : ℕ) (p p' : Plans) (r : Generation)
    → generate_recurring w free size p ≡ ok (r, p')
    → (r.generated ≤ batch_or_default size)
      × (r.generated + length p.occurrences ≡ length p'.occurrences)
unfolding generate_recurring generate_batch
generate_recurring-generated w false size p p' r h =
    rw (sym (value_path h), sym (state_path h)) (omega arith, omega arith)
generate_recurring-generated w true size p p' r h =
    let (ts, due, rest) =
      reads>>=-eq-ok
        (λ (q : Plans). ok (take (batch_or_default size) (due_templates w q.templates)))
        (λ ts. generate_all w (batch_or_default size) ts 0 >>= λ made.
          pure (record { generated = made; locked = true }))
        p h in
    let (made, q, all, last) =
      >>=-eq-ok (generate_all w (batch_or_default size) ts 0)
        (λ made. pure (record { generated = made; locked = true })) p rest in
    let (under, rows) =
      generate_all-IsCounted w (batch_or_default size) ts 0 p q made (omega arith) all in
    rw (sym (value_path last), sym (state_path last)) (under, omega (arith, rows))
