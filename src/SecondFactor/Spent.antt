-- ===== src/SecondFactor/Spent.antt =====
-- A recovery code logs in once.
use my_finance.Common.{
  ℕ, ◌≡◌, refl, sym, ap, ◌∙◌, ◌≢◌, Bool, true, false, ◌&&◌, ◌||◌, Option, none, some, some_path,
  List, [], ◌∷◌, map, any, find, arith, ◌==◌, if◌then◌else◌, ltb,
}
use my_finance.Text.{trim_space, len}
use my_finance.Errors.{success, failure, code_invalid_request}
use my_finance.RateLimit.{allowed}
use my_finance.SecondFactor.{
  RecoveryCode, Credential, Challenge, Vault, World, Outside, LoginRequest, use_code, usable_code,
  recovery_code_hash, get_challenge,
}
use my_finance.SecondFactor.Login.{
  verify_login_recovery, recovery_requested, recovery_challenged, recovery_decided,
}
use my_finance.SecondFactor.Served.{finish-success, limited-success}
use my_finance.SecondFactor.Moves.{Moves, stays, uses, spends, totp-Moves, recovery-Moves}
use my_finance.SecondFactor.Once.{Serves, here, totp, recovery}

-- The key (user_id, code_hash) of the table.
abbrev pub same_code : ℕ → ℕ → RecoveryCode → Bool
same_code user hash r = r.user == user && r.hash == hash

unfoldable pub AreUnique : List RecoveryCode → Type 0
AreUnique [] = Unit
AreUnique (r ∷ rs) = (any (same_code r.user r.hash) rs ≡ false) × AreUnique rs

abbrev pub IsSpent : ℕ → ℕ → List RecoveryCode → Type 0
IsSpent user hash rs = any (usable_code user hash) rs ≡ false

-- No statement makes a code usable.
use_code-IsSpent :
    (user hash id : ℕ) (rs : List RecoveryCode)
    → IsSpent user hash rs
    → IsSpent user hash (map (use_code id) rs)
unfolding any
use_code-IsSpent user hash id [] h = refl
use_code-IsSpent user hash id (r ∷ rs) h =
    let ih = use_code-IsSpent user hash id rs (ground arith) in ground arith

absent-IsSpent :
    (user hash : ℕ) (rs : List RecoveryCode)
    → any (same_code user hash) rs ≡ false
    → IsSpent user hash rs
unfolding any
absent-IsSpent user hash [] h = refl
absent-IsSpent user hash (r ∷ rs) h =
    let ih = absent-IsSpent user hash rs (ground arith) in ground arith

same_code-eq :
    (user hash : ℕ) (r : RecoveryCode)
    → usable_code user hash r ≡ true
    → (r.user ≡ user) × (r.hash ≡ hash)
same_code-eq user hash r h = (ground arith, ground arith)

used-usable_code :
    (user hash id : ℕ) (x : RecoveryCode)
    → x.id ≡ id
    → usable_code user hash (use_code id x) ≡ false
used-usable_code user hash id x h = ground arith

-- The code that is found is used up, as no other row has its key.
used-IsSpent :
    (user hash : ℕ) (r : RecoveryCode) (rs : List RecoveryCode)
    → AreUnique rs
    → find (usable_code user hash) rs ≡ some r
    → IsSpent user hash (map (use_code r.id) rs)
unfolding AreUnique any find
used-IsSpent user hash r [] unique h = cc
used-IsSpent user hash r (x ∷ xs) (apart, unique) h =
    go (used-IsSpent user hash r xs unique) (usable_code user hash x) refl h
  where
    go :
        (find (usable_code user hash) xs ≡ some r → IsSpent user hash (map (use_code r.id) xs))
        → (b : Bool) → usable_code user hash x ≡ b
        → (if b then some x else find (usable_code user hash) xs) ≡ some r
        → IsSpent user hash (map (use_code r.id) (x ∷ xs))
    go later false hb k = let ih = later k in ground arith
    go later true hb k =
        let (owner, hashed) = same_code-eq user hash x hb in
        let rest = use_code-IsSpent user hash r.id xs (
          absent-IsSpent user hash xs (
            ap (λ u. any (same_code u hash) xs) (sym owner)
            ∙ ap (λ n. any (same_code x.user n) xs) (sym hashed)
            ∙ apart)) in
        let first : x.id ≡ r.id = ap (λ (y : RecoveryCode). y.id) (some_path k) in
        rw (used-usable_code user hash r.id x first) rest

Moves-IsSpent :
    (user hash : ℕ) (v v' : Vault)
    → IsSpent user hash v.codes
    → Moves v v'
    → IsSpent user hash v'.codes
Moves-IsSpent user hash v v' h (stays same) = ap (any (usable_code user hash)) same.codes ∙ h
Moves-IsSpent user hash v v' h (uses u step moved same) = ap (any (usable_code user hash)) same ∙ h
Moves-IsSpent user hash v v' h (spends id same moved) =
    ap (any (usable_code user hash)) moved ∙ use_code-IsSpent user hash id v.codes h

Serves-IsSpent :
    (user hash : ℕ) (w w' : World)
    → IsSpent user hash w.vault.codes
    → Serves w w'
    → IsSpent user hash w'.vault.codes
Serves-IsSpent user hash w w' h here = h
Serves-IsSpent user hash w w' h (totp {v = v} s o client body) =
    Moves-IsSpent user hash v.vault _ (Serves-IsSpent user hash w v h s)
      (totp-Moves o client body v)
Serves-IsSpent user hash w w' h (recovery {v = v} s o client body) =
    Moves-IsSpent user hash v.vault _ (Serves-IsSpent user hash w v h s)
      (recovery-Moves o client body v)

-- A login with a recovery code: the row that it finds and uses up.
record Recovered (o : Outside) (p : LoginRequest) (w : World) (user : ℕ) (w' : World) : Type 0 where
  row : RecoveryCode
  found : find (usable_code user (recovery_code_hash o p.code)) w.vault.codes ≡ some row
  moved : w'.vault.codes ≡ map (use_code row.id) w.vault.codes

module _ (o : Outside) (client : ℕ) (p : LoginRequest) (w w' : World) (st u : ℕ) where
  decided-Recovered :
      (h : Challenge) (x : Option RecoveryCode)
      → find (usable_code h.user (recovery_code_hash o p.code)) w.vault.codes ≡ x
      → recovery_decided o client h w x ≡ (success st u, w')
      → Recovered o p w u w'
  decided-Recovered h none hx e = ground arith
  decided-Recovered h (some r) hx e =
      let (same, kept) = finish-success o client h.user _ w w' _ st u e in
      record { row = r; found = rw same hx; moved = kept.codes }

  challenged-Recovered :
      (x : Option (Challenge × Credential))
      → recovery_challenged o client p w x ≡ (success st u, w')
      → Recovered o p w u w'
  challenged-Recovered none e = ground arith
  challenged-Recovered (some (h, c)) e = decided-Recovered h _ refl e

  requested-Recovered :
      recovery_requested o client w (some p) ≡ (success st u, w') → Recovered o p w u w'
  requested-Recovered e = go (ltb (len p.token) 40 || ltb (len (trim_space p.code)) 16) e
    where
      go :
          (b : Bool)
          → (if b
              then (failure 400 code_invalid_request, w)
              else recovery_challenged o client p w
                  (get_challenge o.at_database (o.token_hash p.token) w.vault))
            ≡ (success st u, w')
          → Recovered o p w u w'
      go true k = ground arith
      go false k = challenged-Recovered _ k

verify_login_recovery-Recovered :
    (o : Outside) (client : ℕ) (p : LoginRequest) (w w' : World) (st u : ℕ)
    → verify_login_recovery o client (some p) w ≡ (success st u, w')
    → Recovered o p w u w'
unfolding verify_login_recovery
verify_login_recovery-Recovered o client p w w' st u h =
    let r = allowed client o.at_entry w.limiter in
    let l =
      requested-Recovered o client p (record w { limiter = r.1 }) w' st u
        (limited-success client w w' (λ v. recovery_requested o client v (some p)) r st u h) in
    record { row = l.row; found = l.found; moved = l.moved }

IsSpent-find :
    (user hash : ℕ) (r : RecoveryCode) (rs : List RecoveryCode)
    → IsSpent user hash rs
    → find (usable_code user hash) rs ≢ some r
unfolding any find
IsSpent-find user hash r [] h k = cc
IsSpent-find user hash r (x ∷ xs) h k =
    let ih = IsSpent-find user hash r xs (ground arith) in ground arith

-- A recovery code that has logged its user in does so never again: where no two rows of recovery
-- codes have the same user and hash, and a login with a code succeeds, a later login of the same user
-- with a code of the same hash does not, whatever requests for the second factor come in between.
pub verify_login_recovery-spent :
    (o o' : Outside) (client client' : ℕ) (p p' : LoginRequest) (w w1 w2 w3 : World)
    (st st' user : ℕ)
    → AreUnique w.vault.codes
    → verify_login_recovery o client (some p) w ≡ (success st user, w1)
    → Serves w1 w2
    → recovery_code_hash o' p'.code ≡ recovery_code_hash o p.code
    → verify_login_recovery o' client' (some p') w2 ≢ (success st' user, w3)
verify_login_recovery-spent o o' client client' p p' w w1 w2 w3 st st' user unique h s same h' =
    let first = verify_login_recovery-Recovered o client p w w1 st user h in
    let second = verify_login_recovery-Recovered o' client' p' w2 w3 st' user h' in
    let hash = recovery_code_hash o p.code in
    let spent : IsSpent user hash w1.vault.codes =
      ap (any (usable_code user hash)) first.moved
      ∙ used-IsSpent user hash first.row w.vault.codes unique first.found in
    IsSpent-find user hash second.row w2.vault.codes (Serves-IsSpent user hash w1 w2 spent s)
      (ap (λ n. find (usable_code user n) w2.vault.codes) (sym same) ∙ second.found)
