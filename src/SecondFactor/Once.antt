-- ===== src/SecondFactor/Once.antt =====
-- No step of an authenticator logs its user in twice, whatever requests come in between.
use my_finance.Common.{
  ℕ, ◌≡◌, refl, sym, ap, ◌∙◌, true, false, Option, some, some_path, List, map, find, arith,
  find-eq-some, find-map, ◌==◌,
}
use my_finance.Common.Int.{ℤ, ltb_ℤ}
use my_finance.Errors.{success}
use my_finance.SecondFactor.{Credential, Vault, World, Outside, LoginRequest, enabled_for, use_step}
use my_finance.SecondFactor.Login.{verify_login_totp, verify_login_recovery}
use my_finance.SecondFactor.Served.{LoggedIn, verify_login_totp-LoggedIn}
use my_finance.SecondFactor.Moves.{Moves, stays, uses, spends, totp-Moves, recovery-Moves}

-- Requests for the second factor one after the other, of whichever clients, answered or refused.
pub data Serves : World → World → Type 0 where
  here : {w : World} → Serves w w
  totp :
      {w v : World}
      → Serves w v
      → (o : Outside) (client : ℕ) (body : Option LoginRequest)
      → Serves w (verify_login_totp o client body v).1
  recovery :
      {w v : World}
      → Serves w v
      → (o : Outside) (client : ℕ) (body : Option LoginRequest)
      → Serves w (verify_login_recovery o client body v).1

-- The credential of a user is there with the same secret and a step that is no earlier.
record KeepsUp (user : ℕ) (c : Credential) (v : Vault) : Type 0 where
  now_is : Credential
  found : find (enabled_for user) v.credentials ≡ some now_is
  no_earlier : ltb_ℤ now_is.last c.last ≡ false
  same_secret : now_is.cipher ≡ c.cipher

find-use_step :
    (user u : ℕ) (step : ℤ) (c : Credential) (cs : List Credential)
    → find (enabled_for user) cs ≡ some c
    → find (enabled_for user) (map (use_step u step) cs) ≡ some (use_step u step c)
find-use_step user u step c cs h =
    find-map (enabled_for user) (use_step u step) c cs (λ d. ground arith) h

kept :
    (user : ℕ) (c : Credential) (v v' : Vault)
    → KeepsUp user c v
    → v'.credentials ≡ v.credentials
    → KeepsUp user c v'
kept user c v v' k same = record {
  now_is = k.now_is;
  found = ap (find (enabled_for user)) same ∙ k.found;
  no_earlier = k.no_earlier;
  same_secret = k.same_secret;
}

Moves-KeepsUp :
    (user : ℕ) (c : Credential) (v v' : Vault) → KeepsUp user c v → Moves v v' → KeepsUp user c v'
Moves-KeepsUp user c v v' k (stays same) = kept user c v v' k same.credentials
Moves-KeepsUp user c v v' k (spends id same moved) = kept user c v v' k same
Moves-KeepsUp user c v v' k (uses u step moved same) = record {
  now_is = use_step u step k.now_is;
  found =
      ap (find (enabled_for user)) moved ∙ find-use_step user u step k.now_is v.credentials k.found;
  no_earlier = let b = k.no_earlier in ground arith;
  same_secret = let b = k.same_secret in ground arith;
}

Serves-KeepsUp :
    (user : ℕ) (c : Credential) (w w' : World)
    → KeepsUp user c w.vault
    → Serves w w'
    → KeepsUp user c w'.vault
Serves-KeepsUp user c w w' k here = k
Serves-KeepsUp user c w w' k (totp {v = v} s o client body) =
    Moves-KeepsUp user c v.vault _ (Serves-KeepsUp user c w v k s) (totp-Moves o client body v)
Serves-KeepsUp user c w w' k (recovery {v = v} s o client body) =
    Moves-KeepsUp user c v.vault _ (Serves-KeepsUp user c w v k s) (recovery-Moves o client body v)

not_before : (a : ℤ) → ltb_ℤ a a ≡ false
not_before a = ground arith

enabled-user : (user : ℕ) (c : Credential) → enabled_for user c ≡ true → (c.user == user) ≡ true
enabled-user user c h = ground arith

use_step-last :
    (user : ℕ) (step : ℤ) (c : Credential)
    → (c.user == user) ≡ true
    → ltb_ℤ c.last step ≡ true
    → (use_step user step c).last ≡ step
use_step-last user step c h k = rw (h, k) refl

after :
    (first last now_is second : ℤ)
    → last ≡ first
    → ltb_ℤ now_is last ≡ false
    → ltb_ℤ now_is second ≡ true
    → ltb_ℤ first second ≡ true
after first last now_is second same h k = rw (sym same) (ground arith)

-- Two logins of a user with codes of the authenticator, with whatever requests for the second factor
-- between them, answered or refused: each code is the code of an acceptable step of the secret, both
-- decrypt the same stored secret, and the step of the second is later than that of the first.
pub verify_login_totp-once :
    (o o' : Outside) (client client' : ℕ) (body body' : Option LoginRequest) (w w1 w2 w3 : World)
    (st st' user : ℕ)
    → verify_login_totp o client body w ≡ (success st user, w1)
    → Serves w1 w2
    → verify_login_totp o' client' body' w2 ≡ (success st' user, w3)
    → (first : LoggedIn o body w user w1) × (second : LoggedIn o' body' w2 user w3)
      × (second.credential.cipher ≡ first.credential.cipher)
      × (ltb_ℤ first.step second.step ≡ true)
verify_login_totp-once o o' client client' body body' w w1 w2 w3 st st' user h s h' =
    let first = verify_login_totp-LoggedIn o client body w w1 st user h in
    let second = verify_login_totp-LoggedIn o' client' body' w2 w3 st' user h' in
    let used = use_step user first.step first.credential in
    let later : ltb_ℤ first.credential.last first.step ≡ true = first.accepted.1.0 in
    let k =
      Serves-KeepsUp user used w1 w2
        (record {
          now_is = used;
          found =
              ap (find (enabled_for user)) first.moved
              ∙ find-use_step user user first.step first.credential w.vault.credentials first.found;
          no_earlier = ground arith;
          same_secret = refl;
        })
        s in
    let same : k.now_is ≡ second.credential = some_path (sym k.found ∙ second.found) in
    let owner : (first.credential.user == user) ≡ true =
      enabled-user user first.credential
        (find-eq-some (enabled_for user) first.credential w.vault.credentials first.found) in
    let moved : used.last ≡ first.step =
      use_step-last user first.step first.credential owner later in
    let secret : used.cipher ≡ first.credential.cipher = ground arith in
    (
      first,
      second,
      ap (λ (x : Credential). x.cipher) (sym same) ∙ k.same_secret ∙ secret,
      after first.step used.last k.now_is.last second.step moved k.no_earlier
          (ap (λ (x : Credential). ltb_ℤ x.last second.step) same ∙ second.accepted.1.0),
    )
