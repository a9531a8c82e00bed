-- ===== src/Update/Again.antt =====
-- app/source_update/service.py, `apply_manual_update`: the same plan applied a second time.
use nsfwtrack.Base.{
  ℕ, String, Bool, true, Option, none, some, List, [], ◌∷◌, ◌≡◌, refl, sym, ◌∙◌, All, All-map,
  filter, find, ◌==◌, ==_iff, str_eq_iff, Bool-cases, inl, inr,
}
use nsfwtrack.Update.Contracts.{
  ok, Okay, Store, item_row, source_row, ManualUpdatePlan, json_opt, Item, ItemSource,
  SourceCheckFact, Std, Field, item_summary, item_release_date, source_title_field,
  source_last_checked_at, source_metadata_hash, ManualFieldChange,
}
use nsfwtrack.Update.Plan.{current_value, proposed_value, build_manual_update_plan}
use nsfwtrack.Update.Verify.{
  tasks_of, verify_replay, item_proof, all_current, set_item, set_source, bind_source, changed_item,
  changed_source,
}
use nsfwtrack.Update.Rows.{same_option_refl}
use nsfwtrack.Tasks.Store.{TaskEvent}
use nsfwtrack.Tasks.Service.{Service, has_key, transition_values}
use nsfwtrack.Tasks.Contracts.{state_eq}
use mathlib.Core.Path.{subst}
use nsfwtrack.Update.Planned.{Allowed}
use nsfwtrack.Update.Grounds.{PlanPromise, build_manual_update_plan-Promise}
use nsfwtrack.Update.Closing.{World, outcome}
use nsfwtrack.Update.Apply.{replay, apply_task, apply_manual_update}
use nsfwtrack.Update.Tables.{verified_row, made_event, started_event, closed_event, MayRun}
use nsfwtrack.Update.Succeeds.{quiet}
use nsfwtrack.Update.Applied.{ReadsTimes, HasKeys, apply_manual_update-build_manual_update_plan}

-- What holds of a source if there is one.
abbrev Every : (ItemSource → Type 0) → Option ItemSource → Type 0
Every P none = Unit
Every P (some o) = P o

Every-bind :
    (P Q : ItemSource → Type 0) (r : Option ItemSource) (k : ItemSource → Option ItemSource)
    → Every P r
    → ((o : ItemSource) → P o → Every Q (k o))
    → Every Q (bind_source r k)
Every-bind P Q none k h f = tt
Every-bind P Q (some o) k h f = f o h

Every-pair :
    (P Q : ItemSource → Type 0) (r : Option ItemSource)
    → Every P r
    → Every Q r
    → Every (λ o. P o × Q o) r
Every-pair P Q none a b = tt
Every-pair P Q (some o) a b = (a, b)

json_opt-inj : (a b : Option String) → json_opt a ≡ json_opt b → a ≡ b
json_opt-inj none none h = refl
json_opt-inj none (some b) h = cc
json_opt-inj (some a) none h = cc
json_opt-inj (some a) (some b) h = cc

-- The columns that are compared determine the current values.
current_value-proof :
    (std : Std) (i row : Item) (o : ItemSource) (f : Field)
    → item_proof row ≡ item_proof i
    → current_value std row o f ≡ current_value std i o f
unfolding current_value item_proof
current_value-proof std i row o item_summary e = json_opt-inj row.summary i.summary (cc e)
current_value-proof std i row o item_release_date e =
    json_opt-inj row.release_date i.release_date (cc e)
current_value-proof std i row o _ e = refl

module _ (std : Std) (reads : ReadsTimes std) (fact : SourceCheckFact) where
  -- The field has the value that was proposed.
  abbrev Settled : Field → Item → ItemSource → Type 0
  Settled f i o = current_value std i o f ≡ proposed_value std fact f

  set_source-settles :
      (f : Field) (new : Option String) (i : Item) (o : ItemSource)
      → new ≡ proposed_value std fact f
      → Every (Settled f (set_item f new i)) (set_source std f new o)
  unfolding proposed_value current_value
  set_source-settles item_summary new i o e = e
  set_source-settles item_release_date new i o e = e
  set_source-settles source_title_field new i o e = e
  set_source-settles source_last_checked_at new i o e = rw (e, reads fact.proposed_checked_at) refl
  set_source-settles source_metadata_hash new i o e = e

  set_source-keeps :
      (f g : Field) (new : Option String) (i : Item) (o : ItemSource)
      → new ≡ proposed_value std fact f
      → Settled g i o
      → Every (Settled g (set_item f new i)) (set_source std f new o)
  unfolding proposed_value current_value
  set_source-keeps item_summary item_summary new i o e h = e
  set_source-keeps item_summary g new i o e h = h
  set_source-keeps item_release_date item_release_date new i o e h = e
  set_source-keeps item_release_date g new i o e h = h
  set_source-keeps source_title_field source_title_field new i o e h = e
  set_source-keeps source_title_field g new i o e h = h
  set_source-keeps source_last_checked_at source_last_checked_at new i o e h =
      rw (e, reads fact.proposed_checked_at) refl
  set_source-keeps source_last_checked_at g new i o e h = rw (e, reads fact.proposed_checked_at) h
  set_source-keeps source_metadata_hash source_metadata_hash new i o e h = e
  set_source-keeps source_metadata_hash g new i o e h = h

  abbrev Proposed : ManualFieldChange → Type 0
  Proposed c = c.new ≡ proposed_value std fact c.field

  changes-keep :
      (f : Field) (cs : List ManualFieldChange) (i : Item) (o : ItemSource)
      → All Proposed cs
      → Settled f i o
      → Every (Settled f (changed_item cs i)) (changed_source std cs o)
  unfolding changed_item changed_source
  changes-keep f [] i o h k = k
  changes-keep f (c ∷ cs) i o h k =
      Every-bind (Settled f (set_item c.field c.new i)) (Settled f (changed_item (c ∷ cs) i))
        (set_source std c.field c.new o) (changed_source std cs)
        (set_source-keeps c.field f c.new i o h.0 k)
        λ o' k'. changes-keep f cs (set_item c.field c.new i) o' h.1 k'

  -- After all changes each changed field has the proposed value.
  changes-settle :
      (cs : List ManualFieldChange) (i : Item) (o : ItemSource)
      → All Proposed cs
      → Every (λ o'. All (λ c. Settled c.field (changed_item cs i) o') cs) (changed_source std cs o)
  unfolding changed_item changed_source
  changes-settle [] i o h = tt
  changes-settle (c ∷ cs) i o h =
      Every-bind (Settled c.field (set_item c.field c.new i))
        (λ o'. All (λ d. Settled d.field (changed_item (c ∷ cs) i) o') (c ∷ cs))
        (set_source std c.field c.new o) (changed_source std cs)
        (set_source-settles c.field c.new i o h.0)
        λ o' k.
          Every-pair (Settled c.field (changed_item (c ∷ cs) i))
            (λ q. All (λ d. Settled d.field (changed_item (c ∷ cs) i) q) cs)
            (changed_source std cs o') (changes-keep c.field cs (set_item c.field c.new i) o' h.1 k)
            (changes-settle cs (set_item c.field c.new i) o' h.1)

  Settled-all_current :
      (cs : List ManualFieldChange) (i row : Item) (o : ItemSource)
      → All Proposed cs
      → All (λ c. Settled c.field i o) cs
      → item_proof row ≡ item_proof i
      → all_current std row o cs ≡ true
  Settled-all_current [] i row o h k e = refl
  Settled-all_current (c ∷ cs) i row o h k e =
      let same : current_value std row o c.field ≡ c.new =
        current_value-proof std i row o c.field e ∙ k.0 ∙ sym h.0 in
      rw (same, same_option_refl c.new) (Settled-all_current cs i row o h.1 k.1 e)

verify_replay-true :
    (std : Std) (v : World) (service : Service) (plan : ManualUpdatePlan) (s : Store) (row : Item)
    (o : ItemSource)
    → item_row plan.plan_item_id s.items ≡ some row
    → source_row plan.plan_source_id s.sources ≡ some o
    → all_current std row o plan.selected ≡ true
    → tasks_of v.intent_key s ≡ verified_row v service plan ∷ []
    → filter (λ (e : TaskEvent). e.task_id == v.new_task_id) s.db.events
      ≡ made_event v service plan ∷ started_event v service plan ∷ closed_event v service plan ∷ []
    → verify_replay std v.intent_key plan v.new_task_id s ≡ true
unfolding verify_replay transition_values state_eq
verify_replay-true std v service plan s row o a b c d e =
    let i = (==_iff v.new_task_id v.new_task_id).1 refl in
    let item_id = (==_iff plan.plan_item_id plan.plan_item_id).1 refl in
    let source_id = (==_iff plan.plan_source_id plan.plan_source_id).1 refl in
    let provider = (str_eq_iff plan.plan_provider_key plan.plan_provider_key).1 refl in
    let detail = (str_eq_iff plan.plan_detail_hash plan.plan_detail_hash).1 refl in
    rw (a, b, c, d, e, i, item_id, source_id, provider, detail) refl

filter-find {ℓ} :
    {A : Type ℓ} (p : A → Bool) (xs : List A) (x : A) → filter p xs ≡ x ∷ [] → find p xs ≡ some x
filter-find p [] x h = absurd (cc)
filter-find p (y ∷ xs) x h = elim (Bool-cases (p y)) [
  | inl e ↦ let g = rw e at h in rw e (cc g)
  | inr e ↦ rw e (filter-find p xs x (rw e at h))
]

-- A later call, for which another id is next.
abbrev pub later : World → ℕ → ℕ → World
later v now next = quiet (record v { now = now; new_task_id = next })

replays :
    (std : Std) (v : World) (now next : ℕ) (service : Service) (plan : ManualUpdatePlan) (s : Store)
    (row : Item) (o : ItemSource)
    → item_row plan.plan_item_id s.items ≡ some row
    → source_row plan.plan_source_id s.sources ≡ some o
    → all_current std row o plan.selected ≡ true
    → tasks_of v.intent_key s ≡ verified_row v service plan ∷ []
    → filter (λ (e : TaskEvent). e.task_id == v.new_task_id) s.db.events
      ≡ made_event v service plan ∷ started_event v service plan ∷ closed_event v service plan ∷ []
    → apply_manual_update (later v now next) std service plan s
      ≡ (outcome v.new_task_id plan "already_applied_verified", s)
unfolding apply_manual_update apply_task replay transition_values state_eq
replays std v now next service plan s row o a b c d e =
    rw
      (
        filter-find (has_key v.intent_key) s.db.tasks (verified_row v service plan) d,
        verify_replay-true std v service plan s row o a b c d e,
      )
      refl

-- Applying a plan is idempotent: on the conditions on which a built plan is applied, a second call with
-- the plan, at any time and whatever id is next, finds the first one's task, reports it as
-- `already_applied_verified` and changes no table.
pub apply_manual_update_again :
    (w : World) (std : Std) (service : Service) (check_task_id : ℕ) (chosen : List String)
    (now then next : ℕ) (s : Store) (plan : ManualUpdatePlan)
    → build_manual_update_plan std check_task_id chosen now s ≡ ok plan
    → ReadsTimes std
    → HasKeys s
    → MayRun w.new_task_id w.intent_key service s.db
    → apply_manual_update
        (later w then next)
        std
        service
        plan
        (apply_manual_update (quiet w) std service plan s).1
      ≡ (
        outcome w.new_task_id plan "already_applied_verified",
        (apply_manual_update (quiet w) std service plan s).1,
      )
apply_manual_update_again w std service check_task_id chosen now then next s plan built reads keys
      run =
    let p : PlanPromise std check_task_id chosen now s plan =
      subst (Okay (PlanPromise std check_task_id chosen now s)) built
        (build_manual_update_plan-Promise std check_task_id chosen now s) in
    let proposed : All (Proposed std reads p.1) plan.selected =
      All-map (Allowed std chosen p.2 p.3 p.1) (Proposed std reads p.1) plan.selected
        (λ c a. a.to_proposed) p.12.0 in
    let r =
      apply_manual_update-build_manual_update_plan w std service check_task_id chosen now s plan
        built reads keys run in
    let settled : All (λ c. Settled std reads p.1 c.field (changed_item plan.selected r.0) r.2)
        plan.selected =
      subst
        (Every (λ o.
          All (λ c. Settled std reads p.1 c.field (changed_item plan.selected r.0) o)
            plan.selected))
        r.5 (changes-settle std reads p.1 plan.selected r.0 r.1 proposed) in
    let done = r.6 in
    replays std (quiet w) then next service plan
      (apply_manual_update (quiet w) std service plan s).1 done.1.0 r.2 done.1.1 done.2
      (Settled-all_current std reads p.1 plan.selected (changed_item plan.selected r.0) done.1.0 r.2
        proposed settled done.1.2)
      done.3 done.4
