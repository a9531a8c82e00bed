-- ===== src/Update/Applied.antt =====
-- app/source_update/service.py: a plan from `build_manual_update_plan`, then `apply_manual_update` of it.
use nsfwtrack.Base.{
  ℕ, String, Option, none, some, List, [], ◌∷◌, ◌==◌, ==_iff, All, count_where, ◌≡◌, refl, sym, ap,
  ◌∙◌,
}
use mathlib.Core.Path.{subst}
use nsfwtrack.Tasks.Store.{find_row}
use nsfwtrack.Tasks.Service.{Service}
use nsfwtrack.Update.Contracts.{
  ok, Okay, Item, ItemSource, SourceCheckFact, Store, item_row, source_row, fact_row, Std, Field,
  item_summary, item_release_date, source_title_field, source_last_checked_at, source_metadata_hash,
  ManualFieldChange, ManualUpdatePlan,
}
use nsfwtrack.Update.Plan.{proposed_value, item_of, source_of, build_manual_update_plan}
use nsfwtrack.Update.Planned.{Allowed}
use nsfwtrack.Update.Grounds.{PlanPromise, build_manual_update_plan-Promise}
use nsfwtrack.Update.Verify.{set_source, changed_source}
use nsfwtrack.Update.Closing.{World}
use nsfwtrack.Update.Apply.{apply_manual_update}
use nsfwtrack.Update.Rows.{find-passes, item_row-find, source_row-find}
use nsfwtrack.Update.Tables.{MayRun}
use nsfwtrack.Update.Succeeds.{quiet, IsCurrent, WasApplied, IsCurrent-applies}

-- `datetime.fromisoformat` reads what `isoformat` writes.
abbrev pub ReadsTimes : Std → Type 0
ReadsTimes std = (t : ℕ) → std.fromisoformat (std.isoformat t) ≡ some t

-- The ids are the primary keys of the two tables.
pub record HasKeys (s : Store) : Type 0 where
  pub item_keys :
      (i : ℕ) (x : Item)
      → item_row i s.items ≡ some x
      → count_where (λ (y : Item). y.item_id == i) s.items ≡ 1
  pub source_keys :
      (i : ℕ) (x : ItemSource)
      → source_row i s.sources ≡ some x
      → count_where (λ (y : ItemSource). y.source_id == i) s.sources ≡ 1

module _ (std : Std) (reads : ReadsTimes std) (chosen : List String) (item : Item)
    (source : ItemSource) (fact : SourceCheckFact) where
  set_source-reads :
      (f : Field) (new : Option String) (o : ItemSource)
      → new ≡ proposed_value std fact f
      → (after : ItemSource) × (set_source std f new o ≡ some after)
  unfolding proposed_value
  set_source-reads item_summary new o h = (_, refl)
  set_source-reads item_release_date new o h = (_, refl)
  set_source-reads source_title_field new o h = (_, refl)
  set_source-reads source_last_checked_at new o h = (
    record o { last_checked_at = some fact.proposed_checked_at },
    rw (h, reads fact.proposed_checked_at) refl,
  )
  set_source-reads source_metadata_hash new o h = (_, refl)

  -- What a plan proposes for the source can be read back.
  changed_source-reads :
      (cs : List ManualFieldChange) (o : ItemSource)
      → All (Allowed std chosen item source fact) cs
      → (after : ItemSource) × (changed_source std cs o ≡ some after)
  unfolding changed_source
  changed_source-reads [] o h = (o, refl)
  changed_source-reads (c ∷ cs) o h =
      let first = set_source-reads c.field c.new o h.0.to_proposed in
      let rest = changed_source-reads cs first.0 h.1 in (rest.0, rw first.1 rest.1)

item_row-id :
    (i : ℕ) (xs : List Item) (x : Item) → item_row i xs ≡ some x → item_row x.item_id xs ≡ some x
item_row-id i xs x h =
    let same : x.item_id ≡ i =
      (==_iff x.item_id i).0
        (find-passes (λ (y : Item). y.item_id == i) xs x (sym (item_row-find i xs) ∙ h)) in
    ap (λ k. item_row k xs) same ∙ h

source_row-id :
    (i : ℕ) (xs : List ItemSource) (x : ItemSource)
    → source_row i xs ≡ some x
    → source_row x.source_id xs ≡ some x
source_row-id i xs x h =
    let same : x.source_id ≡ i =
      (==_iff x.source_id i).0 (
        find-passes (λ (y : ItemSource). y.source_id == i) xs x (sym (source_row-find i xs) ∙ h)) in
    ap (λ k. source_row k xs) same ∙ h

item_of-row :
    (i : Option ℕ) (s : Store) (x : Item)
    → item_of i s ≡ some x
    → item_row x.item_id s.items ≡ some x
item_of-row none s x h = absurd (cc)
item_of-row (some i) s x h = item_row-id i s.items x h

source_of-row :
    (i : Option ℕ) (s : Store) (x : ItemSource)
    → source_of i s ≡ some x
    → source_row x.source_id s.sources ≡ some x
source_of-row none s x h = absurd (cc)
source_of-row (some i) s x h = source_row-id i s.sources x h

module _ (w : World) (std : Std) (service : Service) (check_task_id : ℕ) (chosen : List String)
    (now : ℕ) (s : Store) (plan : ManualUpdatePlan)
    (p : PlanPromise std check_task_id chosen now s plan) (reads : ReadsTimes std)
    (keys : HasKeys s) (run : MayRun w.new_task_id w.intent_key service s.db) where
  abbrev the_source_after :
      (after : ItemSource) × (changed_source std plan.selected p.3 ≡ some after)
  the_source_after = changed_source-reads std reads chosen p.2 p.3 p.1 plan.selected p.3 p.12.0

  built-IsCurrent : IsCurrent w std service plan s p.2 p.3 the_source_after.0 p.1 p.0
  built-IsCurrent =
      let task = p.0 in
      let fact = p.1 in
      let item = p.2 in
      let source = p.3 in
      let g = p.4 in
      let check = p.6 in
      let item_id = p.7 in
      let source_id = p.8 in
      let item_hash = p.9 in
      let source_hash = p.10 in
      let detail_hash = p.11 in
      let at_item =
        ap (λ i. item_row i s.items) item_id ∙ item_of-row task.item_id s item g.the_item in
      let at_source =
        ap (λ i. source_row i s.sources) source_id
        ∙ source_of-row task.source_id s source g.the_source in
      record {
        run = run;
        the_item = at_item;
        item_once = keys.item_keys plan.plan_item_id item at_item;
        item_same = sym item_hash;
        the_source = at_source;
        source_once = keys.source_keys plan.plan_source_id source at_source;
        source_same = sym source_hash;
        the_fact = ap (λ i. fact_row i s.facts) check ∙ g.the_fact;
        detail_same = sym detail_hash;
        fact_item = sym g.item_same ∙ sym item_hash;
        fact_source = sym g.source_same ∙ sym source_hash;
        the_check = ap (λ i. find_row i s.db.tasks) check ∙ g.the_task;
        check_done = g.done;
        readable = the_source_after.1;
      }

-- The plan's rows are there, and an undisturbed call changes them as planned.
abbrev pub Applies : World → Std → Service → ManualUpdatePlan → Store → Type 0
Applies w std service plan s =
    (item : Item) × (source : ItemSource) × (after : ItemSource) × (item_row plan.plan_item_id
        s.items
      ≡ some item)
    × (source_row plan.plan_source_id s.sources ≡ some source)
    × (changed_source std plan.selected source ≡ some after)
    × WasApplied (quiet w) service plan item after
        (apply_manual_update (quiet w) std service plan s)

-- What `build_manual_update_plan` makes can be applied: where the ids are keys of their tables, the
-- new task may run and a written time reads back, an undisturbed `apply_manual_update` of the plan on
-- the same tables reports `committed_verified`. The row of the plan's item is then the changed one in
-- every column that the program compares, the row of its source is the changed one, and the new task,
-- succeeded, is the only one with the plan's key and has three events: created, started and succeeded.
pub apply_manual_update-build_manual_update_plan :
    (w : World) (std : Std) (service : Service) (check_task_id : ℕ) (chosen : List String) (now : ℕ)
    (s : Store) (plan : ManualUpdatePlan)
    → build_manual_update_plan std check_task_id chosen now s ≡ ok plan
    → ReadsTimes std
    → HasKeys s
    → MayRun w.new_task_id w.intent_key service s.db
    → Applies w std service plan s
apply_manual_update-build_manual_update_plan w std service check_task_id chosen now s plan built
      reads keys run =
    let p : PlanPromise std check_task_id chosen now s plan =
      subst (Okay (PlanPromise std check_task_id chosen now s)) built
        (build_manual_update_plan-Promise std check_task_id chosen now s) in
    let after = the_source_after w std service check_task_id chosen now s plan p reads keys run in
    let q = built-IsCurrent w std service check_task_id chosen now s plan p reads keys run in
    (
      p.2,
      p.3,
      after.0,
      q.the_item,
      q.the_source,
      after.1,
      IsCurrent-applies w std service plan s p.2 p.3 after.0 p.1 p.0 q,
    )
