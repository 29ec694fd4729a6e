-- ===== src/Recurring/Templates/Consistent.antt =====
-- The state of a template: `status`, `pause_reason` and `archived_at` agree with each other.
use mathlib.Core.Path.{subst}
use my_finance.Common.{
  ℕ, ◌≡◌, refl, sym, ap, ◌∙◌, Bool, true, false, not, ◌&&◌, ◌||◌, Option, none, some, List, [], ◌∷◌,
  map, any, find, is_some, arith, All, some_path, if◌then◌else◌, Bool-cases, inl, inr,
}
use my_finance.Text.{Text}
use my_finance.Money.{Amount}
use my_finance.Errors.{ok, validation, end_before_start, not_found}
use my_finance.Tx.{Tx, pure, reads, or_fail, ◌>>=◌, ◌>>◌}
use my_finance.Tx.Keeps.{
  Keeps, ok_path, zoom-eq-ok, keeps_rules, state_path, >>=-eq-ok, require>>-eq-ok, reads>>=-eq-ok,
}
use my_finance.Ledger.State.{Ledger}
use my_finance.Recurring.Schedule.{ends_before}
use my_finance.Recurring.Templates.{
  Status, active, paused, Template, Plans, same_id, template_is, on_ledger, put_ledger,
}
use my_finance.Recurring.Templates.Requests.Update.{
  UpdateTemplate, is_true, is_false, resumes, changed_template, change_template_if, check_resume,
  update_template_row, update_found, update_template_tx, find_template,
}

abbrev pub is_active : Status → Bool
is_active active = true
is_active paused = false

-- A template has a reason to pause exactly when it is paused, and is paused when it is archived.
pub record IsConsistent (t : Template) : Type 0 where
  pub reason : is_some t.pause_reason ≡ not (is_active t.status)
  pub at_rest : (t.archived && is_active t.status) ≡ false

-- No two templates have the same id.
unfoldable pub IsKeyed : List Template → Type 0
IsKeyed [] = Unit
IsKeyed (t ∷ ts) = (any (same_id t.id) ts ≡ false) × IsKeyed ts

pub record AreConsistent (ts : List Template) : Type 0 where
  pub each : All IsConsistent ts
  pub keyed : IsKeyed ts

-- A row that changes, without its id, keeps the ids apart.
any-same_id-map :
    (f : Template → Template) (id : ℕ) (ts : List Template)
    → ((t : Template) → (f t).id ≡ t.id)
    → any (same_id id) (map f ts) ≡ any (same_id id) ts
unfolding any
any-same_id-map f id [] h = refl
any-same_id-map f id (t ∷ ts) h = rw (h t, any-same_id-map f id ts h)

pub map-IsKeyed :
    (f : Template → Template) (ts : List Template)
    → ((t : Template) → (f t).id ≡ t.id)
    → IsKeyed ts
    → IsKeyed (map f ts)
unfolding IsKeyed
map-IsKeyed f [] h k = tt
map-IsKeyed f (t ∷ ts) h (apart, k) = (
  ap (λ id. any (same_id id) (map f ts)) (h t) ∙ any-same_id-map f t.id ts h ∙ apart,
  map-IsKeyed f ts h k,
)

-- Each template with the id is the one that is found.
abbrev IsIt : ℕ → ℕ → Template → Template → Type 0
IsIt id user t u = template_is id user u ≡ true → u ≡ t

none_left :
    (id user : ℕ) (t : Template) (ts : List Template)
    → any (same_id id) ts ≡ false
    → All (IsIt id user t) ts
unfolding any
none_left id user t [] h = tt
none_left id user t (u ∷ ts) h = (λ e. ground arith, none_left id user t ts (ground arith))

find-IsIt :
    (id user : ℕ) (t : Template) (ts : List Template)
    → IsKeyed ts
    → find (template_is id user) ts ≡ some t
    → All (IsIt id user t) ts
unfolding IsKeyed find
find-IsIt id user t [] k h = tt
find-IsIt id user t (u ∷ ts) (apart, k) h = elim (Bool-cases (template_is id user u)) [
  | inl its ↦
      let same : u ≡ t =
        some_path
          (sym (ap (λ (b : Bool). if b then some u else find (template_is id user) ts) its) ∙ h) in
      let other : u.id ≡ id = ground arith in
      (λ e. same, none_left id user t ts (ap (λ x. any (same_id x) ts) (sym other) ∙ apart))
  | inr not_its ↦ (λ e. cc, find-IsIt id user t ts k (ground arith))
]

-- A resumed template is not archived by then.
check_resume-eq-ok :
    (p : UpdateTemplate) (t : Template) (user : ℕ) (s s' : Plans) (u : Unit {0})
    → check_resume user p t s ≡ ok (u, s')
    → (resumes p.status && (is_true p.archived || (t.archived && not (is_false p.archived))))
      ≡ false
unfolding check_resume
check_resume-eq-ok p t user s s' u h = ground arith

changed-IsConsistent :
    (p : UpdateTemplate) (amount : Option Amount) (description : Option Text) (t : Template)
    → IsConsistent t
    → (resumes p.status && (is_true p.archived || (t.archived && not (is_false p.archived))))
      ≡ false
    → IsConsistent (changed_template p amount description t)
changed-IsConsistent p amount description t h k = record {
  reason = ground (arith, h.reason);
  at_rest = ground (arith, h.at_rest);
}

abbrev pub AreConsistentPlans : Plans → Type 0
AreConsistentPlans s = AreConsistent s.templates

-- A step on the ledger leaves the templates.
pub on_ledger-templates :
    {A : Type 0} (m : Tx Ledger A) (ts : List Template)
    → Keeps (λ (s : Plans). s.templates ≡ ts) (on_ledger m)
on_ledger-templates m ts = record {
  at = λ s a s' h e.
      let (l, ran, same) = zoom-eq-ok (λ (q : Plans). q.ledger) put_ledger m s e in
      ap (λ (q : Plans). q.templates) same ∙ h;
}

check_resume-templates :
    (user : ℕ) (p : UpdateTemplate) (t : Template) (ts : List Template)
    → Keeps (λ (s : Plans). s.templates ≡ ts) (check_resume user p t)
unfolding check_resume
check_resume-templates user p t ts = search (keeps_rules, on_ledger-templates) depth 12

update_template_row-eq-ok :
    (id user : ℕ) (p : UpdateTemplate) (amount : Option Amount) (description : Option Text)
    (t : Template) (s s' : Plans) (u : Unit {0})
    → update_template_row id user p amount description t s ≡ ok (u, s')
    → s'.templates ≡ map (change_template_if id user p amount description) s.templates
unfolding update_template_row
update_template_row-eq-ok id user p amount description t s s' u h = ground arith

change_template_if-IsConsistent :
    (id user : ℕ) (p : UpdateTemplate) (amount : Option Amount) (description : Option Text)
    (t : Template) (ts : List Template)
    → (resumes p.status && (is_true p.archived || (t.archived && not (is_false p.archived))))
      ≡ false
    → All IsConsistent ts
    → All (IsIt id user t) ts
    → All IsConsistent (map (change_template_if id user p amount description) ts)
change_template_if-IsConsistent id user p amount description t [] k h its = tt
change_template_if-IsConsistent id user p amount description t (u ∷ ts) k (hu, h) (it, its) = (
  go (template_is id user u) it,
  change_template_if-IsConsistent id user p amount description t ts k h its,
)
  where
    go :
        (b : Bool)
        → (b ≡ true → u ≡ t)
        → IsConsistent (if b then changed_template p amount description u else u)
    go true same = changed-IsConsistent p amount description u hu (
        subst
          (λ (v : Template).
            (resumes p.status && (is_true p.archived || (v.archived && not (is_false p.archived))))
            ≡ false)
          (sym (same refl)) k)
    go false same = hu

update_found-AreConsistent :
    (user id : ℕ) (p : UpdateTemplate) (amount : Option Amount) (description : Option Text)
    (t : Template) (s s' : Plans) (r : ℕ)
    → AreConsistent s.templates
    → find (template_is id user) s.templates ≡ some t
    → update_found user id p amount description t s ≡ ok (r, s')
    → AreConsistent s'.templates
unfolding update_found
update_found-AreConsistent user id p amount description t s s' r h found e =
    let change : Tx Plans ℕ = update_template_row id user p amount description t >> pure id in
    let (dates, e1) =
      require>>-eq-ok (not (ends_before p.end_date t.start)) (validation end_before_start)
        (check_resume user p t >> change) s e in
    let (u, q, resumed, e2) = >>=-eq-ok (check_resume user p t) (λ x. change) s e1 in
    let (v, o, row, last) =
      >>=-eq-ok (update_template_row id user p amount description t) (λ x. pure id) q e2 in
    let kept : q.templates ≡ s.templates =
      (check_resume-templates user p t s.templates).at s u q refl resumed in
    let same : s'.templates ≡ map (change_template_if id user p amount description) s.templates =
      ap (λ (x : Plans). x.templates) (sym (state_path last))
      ∙ update_template_row-eq-ok id user p amount description t q o v row
      ∙ ap (map (change_template_if id user p amount description)) kept in
    subst AreConsistent (sym same) (record {
      each =
          change_template_if-IsConsistent id user p amount description t s.templates
            (check_resume-eq-ok p t user s q u resumed) h.each
            (find-IsIt id user t s.templates h.keyed found);
      keyed =
          map-IsKeyed (change_template_if id user p amount description) s.templates
            (λ x. ground arith) h.keyed;
    })

find_template-eq-ok :
    (user id : ℕ) (s : Plans) (t : Template)
    → find_template user id s ≡ ok t
    → find (template_is id user) s.templates ≡ some t
find_template-eq-ok user id s t h = go (find (template_is id user) s.templates) h
  where
    go : (o : Option Template) → or_fail o not_found ≡ ok t → o ≡ some t
    go none e = cc
    go (some x) e = ap some (ok_path e)

update_after_find-Keeps :
    (user id : ℕ) (p : UpdateTemplate) (amount : Option Amount) (description : Option Text)
    → Keeps AreConsistentPlans
        (reads (find_template user id) >>= update_found user id p amount description)
update_after_find-Keeps user id p amount description = record {
  at = λ s r s' h e.
      let (t, found, rest) =
        reads>>=-eq-ok (find_template user id) (update_found user id p amount description) s e in
      update_found-AreConsistent user id p amount description t s s' r h
        (find_template-eq-ok user id s t found) rest;
}

pub update_template_tx-Keeps :
    (user id : ℕ) (p : UpdateTemplate) → Keeps AreConsistentPlans (update_template_tx user id p)
unfolding update_template_tx
update_template_tx-Keeps user id p = search (keeps_rules, update_after_find-Keeps) depth 14
