-- ===== src/Recurring/Evolution.antt =====
-- What keeps the states of the templates: requests, and runs of the worker, in any order.
use mathlib.Core.Path.{subst}
use my_finance.Common.{
  ℕ, ◌≡◌, refl, sym, Bool, true, false, not, Option, none, some, List, [], ◌∷◌, map, any, arith,
  All, if◌then◌else◌,
}
use my_finance.Text.{Text}
use my_finance.Calendar.{Date}
use my_finance.Money.{Amount}
use my_finance.Errors.{Result, ok, Reply, success, failure, code_empty_update}
use my_finance.Tx.{Tx, commit_or_rollback}
use my_finance.Tx.Keeps.{Keeps, Keeps-bind, keeps_rules, commit_or_rollback-keeps}
use my_finance.Ledger.State.{Ledger}
use my_finance.Ledger.Handlers.{then_read}
use my_finance.Recurring.Schedule.{Schedule}
use my_finance.Recurring.Templates.{
  Template, Occurrence, Plans, same_id, insert_template, insert_occurrence, on_ledger, get_template,
}
use my_finance.Recurring.Templates.Requests.{
  CreateTemplate, template_row, create_template_tx, create_template,
}
use my_finance.Recurring.Templates.Requests.Update.{
  UpdateTemplate, update_template_tx, update_template, is_update,
}
use my_finance.Recurring.Templates.Consistent.{
  IsConsistent, IsKeyed, AreConsistent, AreConsistentPlans, map-IsKeyed, on_ledger-templates,
  update_template_tx-Keeps,
}
use my_finance.Recurring.Generation.{
  Supply, Generation, generate_on, generate_recurring, move_template, move_if, moved,
}
use my_finance.Recurring.Generation.Sound.{generate_recurring-Keeps}

-- A new row, active and with no reason to pause.
insert_template-Keeps :
    (t : Template) → IsConsistent t → Keeps AreConsistentPlans (insert_template t)
unfolding insert_template IsKeyed
insert_template-Keeps t ht = record {
  at = λ s u s' h e.
      let same : s'.templates ≡ t ∷ s.templates = ground arith in
      let apart : any (same_id t.id) s.templates ≡ false = ground arith in
      subst AreConsistent (sym same) (record { each = (ht, h.each); keyed = (apart, h.keyed) });
}

on_ledger-Keeps-templates : {A : Type 0} (m : Tx Ledger A) → Keeps AreConsistentPlans (on_ledger m)
on_ledger-Keeps-templates m = record {
  at = λ s a s' h e.
      subst AreConsistent (sym ((on_ledger-templates m s.templates).at s a s' refl e)) h;
}

new_template-Keeps :
    (id user : ℕ) (p : CreateTemplate) (schedule : Schedule) (amount : Amount)
    (description : Option Text) (currency : ℕ)
    → Keeps AreConsistentPlans
        (insert_template (template_row id user p schedule amount description currency))
new_template-Keeps id user p schedule amount description currency =
    insert_template-Keeps (template_row id user p schedule amount description currency)
      (record { reason = refl; at_rest = refl })

pub create_template_tx-Keeps :
    (lower : Text → Text) (new : ℕ → ℕ) (user : ℕ) (p : CreateTemplate)
    → Keeps AreConsistentPlans (create_template_tx lower new user p)
unfolding create_template_tx
create_template_tx-Keeps lower new user p =
    search (keeps_rules, on_ledger-Keeps-templates, new_template-Keeps) depth 14

moved-IsConsistent :
    (next : Date) (done : Bool) (t : Template) → IsConsistent t → IsConsistent (moved next done t)
moved-IsConsistent next true t h = record { reason = refl; at_rest = ground arith }
moved-IsConsistent next false t h = record { reason = h.reason; at_rest = h.at_rest }

move_template-Keeps :
    (t : Template) (next : Date) (done : Bool)
    → Keeps AreConsistentPlans (move_template t next done)
unfolding move_template
move_template-Keeps t next done = record {
  at = λ s u s' h e.
      let same : s'.templates ≡ map (move_if t.id next done) s.templates = ground arith in
      subst AreConsistent (sym same) (record {
        each = All-map-if s.templates h.each;
        keyed = map-IsKeyed (move_if t.id next done) s.templates (λ x. ground arith) h.keyed;
      });
}
  where
    each_one : (x : Template) → IsConsistent x → IsConsistent (move_if t.id next done x)
    each_one x hx = go (same_id t.id x)
      where
        go : (b : Bool) → IsConsistent (if b then moved next done x else x)
        go true = moved-IsConsistent next done x hx
        go false = hx

    All-map-if :
        (ts : List Template)
        → All IsConsistent ts
        → All IsConsistent (map (move_if t.id next done) ts)
    All-map-if [] h = tt
    All-map-if (x ∷ xs) (hx, h) = (each_one x hx, All-map-if xs h)

insert_occurrence-Keeps-templates :
    (o : Occurrence) → Keeps AreConsistentPlans (insert_occurrence o)
unfolding insert_occurrence
insert_occurrence-Keeps-templates o = record {
  at = λ s made s' h e.
      let same : s'.templates ≡ s.templates = ground arith in subst AreConsistent (sym same) h;
}

generate_on-Keeps-templates :
    (w : Supply) (t : Template) (d : Date) → Keeps AreConsistentPlans (generate_on w t d)
unfolding generate_on
generate_on-Keeps-templates w t d =
    Keeps-bind _ _ (on_ledger-Keeps-templates _) (λ r. insert_occurrence-Keeps-templates _)

-- One change of the templates: a request, committed or not, or a run of the worker that succeeds.
pub data Changes : Plans → Plans → Type 0 where
  creates :
      (lower : Text → Text) (new : ℕ → ℕ) (session : Option ℕ) (body : Option CreateTemplate)
      (s : Plans)
      → Changes s (create_template lower new session body s).1
  updates :
      (session : Option ℕ) (body : Option UpdateTemplate) (id : ℕ) (s : Plans)
      → Changes s (update_template session body id s).1
  generates :
      (w : Supply) (free : Bool) (size : ℕ) (s s' : Plans) (r : Generation)
      → generate_recurring w free size s ≡ ok (r, s')
      → Changes s s'

-- Changes one after the other.
pub data Evolves : Plans → Plans → Type 0 where
  here : {s : Plans} → Evolves s s
  next : {s t u : Plans} → Evolves s t → Changes t u → Evolves s u

module _ {A B : Type 0} (f : A → Plans → Result B) where
  read_after-AreConsistent :
      (status : ℕ) (m : Tx Plans A) (s : Plans)
      → Keeps AreConsistentPlans m
      → AreConsistent s.templates
      → AreConsistent (then_read f (commit_or_rollback status m s)).1.templates
  read_after-AreConsistent status m s k h =
      go (commit_or_rollback status m s)
        (commit_or_rollback-keeps {P = AreConsistentPlans} status m s k h)
    where
      go :
          (r : Reply A × Plans)
          → AreConsistent r.1.templates
          → AreConsistent (then_read f r).1.templates
      go (success st a, q) k = k
      go (failure st c, q) k = k

Changes-AreConsistent :
    {s s' : Plans} → Changes s s' → AreConsistent s.templates → AreConsistent s'.templates
unfolding create_template update_template
Changes-AreConsistent (creates lower new none body s) h = h
Changes-AreConsistent (creates lower new (some user) none s) h = h
Changes-AreConsistent (creates lower new (some user) (some p) s) h =
    read_after-AreConsistent (get_template user) 201 _ s (create_template_tx-Keeps lower new user p)
      h
Changes-AreConsistent (updates none body id s) h = h
Changes-AreConsistent (updates (some user) none id s) h = h
Changes-AreConsistent (updates (some user) (some p) id s) h = go (is_update p)
  where
    go :
        (b : Bool)
        → AreConsistent
            (if not b
              then (failure 400 code_empty_update, s)
              else then_read
                  (get_template user)
                  (commit_or_rollback 200 (update_template_tx user id p) s)).1.templates
    go true =
        read_after-AreConsistent (get_template user) 200 _ s (update_template_tx-Keeps user id p) h
    go false = h
Changes-AreConsistent (generates w free size s s' r e) h =
    (generate_recurring-Keeps AreConsistentPlans w (generate_on-Keeps-templates w)
        move_template-Keeps free size).at
      s r s' h e

-- Whatever requests are made for recurring templates, of whichever users, and whatever runs of the
-- worker succeed between them: where it holds of all templates that one has a reason to pause
-- exactly when it is paused, and is paused when it is archived, it holds of all afterwards. The ids
-- of the templates are distinct, and stay so.
pub Evolves-AreConsistent :
    (s s' : Plans) → Evolves s s' → AreConsistent s.templates → AreConsistent s'.templates
Evolves-AreConsistent s s' here h = h
Evolves-AreConsistent s s' (next {t = t} before change) h =
    Changes-AreConsistent change (Evolves-AreConsistent s t before h)
