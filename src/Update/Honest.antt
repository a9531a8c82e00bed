-- ===== src/Update/Honest.antt =====
-- app/source_update/service.py, `apply_manual_update`: what it reports is what the tables hold.
use nsfwtrack.Base.{
  ℕ, ◌+◌, Bool, true, false, not, ◌||◌, Option, none, some, find, str_eq, str_eq_iff, if◌then◌else◌,
  ◌≡◌, refl, arith, inl, inr, ◌⊎◌,
}
use nsfwtrack.Tasks.Contracts.{running, succeeded, state_eq}
use nsfwtrack.Tasks.Store as Rows
use nsfwtrack.Tasks.Store.{OperationTask, Db}
use nsfwtrack.Tasks.Service.{Service, has_key, get, transition, create}
use nsfwtrack.Update.Contracts.{
  invalid_request, source_not_available, provider_failed, check_expired, nothing_to_apply,
  stale_plan, write_failed, outcome_unknown, Result, ok, err, value_error, Item, ItemSource,
  SourceCheckFact, Store, item_row, source_row, fact_row, Std, item_snapshot, source_snapshot,
  ManualUpdatePlan, ManualUpdateResult,
}
use nsfwtrack.Update.Verify.{
  changed_item, changed_source, Expected, verify_state, verify_pre, verify_replay,
}
use nsfwtrack.Update.Closing.{
  Commit, stored, lost, stored_and_raised, World, names_of, closing, outcome, Outcome,
  pre_or_unknown, mark_unknown, report, close_task, confirm, confirm_raised, commit_write,
  running_written,
}
use nsfwtrack.Update.Apply.{
  starting, update_task, written, write, start, apply_rows, replay, apply_task, apply_manual_update,
}

-- What the readings of one update allow it to report.
abbrev Says : World → Expected → Result ManualUpdateResult → Store → Type 0
Says w x (ok r) s =
    (r.written_fields ≡ names_of x.plan.selected)
    × (r.commit_status ≡ "committed_verified")
    × ((v : ℕ) × (verify_state w.intent_key x succeeded "committed_verified" v s ≡ true))
Says w x (err write_failed) s =
    (verify_pre w.intent_key x s ≡ true)
    ⊎ (verify_state w.intent_key x running "written" x.version s ≡ true)
Says w x (err outcome_unknown) s = Unit
Says w x (err stale_plan) s = ⊥
Says w x (err e) s = ⊥
Says w x value_error s = Unit

module _ (w : World) (x : Expected) where
  abbrev Reported : Outcome → Type 0
  Reported o = Says w x o.0 o.1

  if-Reported :
      (b : Bool) (o o' : Outcome)
      → (b ≡ true → Reported o)
      → (b ≡ false → Reported o')
      → Reported (if b then o else o')
  if-Reported true o o' h k = h refl
  if-Reported false o o' h k = k refl

  pre_or_unknown-Reported : (s : Store) → Reported (pre_or_unknown w x s)
  unfolding pre_or_unknown
  pre_or_unknown-Reported s =
      if-Reported (verify_pre w.intent_key x s) (err write_failed, s) (err outcome_unknown, s)
        (λ e. inl e) (λ e. tt)

  report-Reported : (success : ℕ) (s : Store) → Reported (report w x success s)
  unfolding report
  report-Reported success s =
      let s1 = w.others 4 s in
      let s2 = w.others 5 s1 in
      let last : Outcome = (err outcome_unknown, mark_unknown w x success (w.others 6 s2)) in
      let half : Outcome = if running_written w x s2 then (err write_failed, s2) else last in
      if-Reported (verify_state w.intent_key x succeeded "committed_verified" success s1)
        (outcome x.task_id x.plan "committed_verified", s1) half (λ e. (refl, refl, (success, e)))
        (λ e.
          if-Reported (running_written w x s2) (err write_failed, s2) last (λ f. inr f) (λ f. tt))

  close_task-Reported : (service : Service) (s : Store) → Reported (close_task w x service s)
  unfolding close_task
  close_task-Reported service s = by_task (get x.task_id s.db) refl
    where
      by_move :
          (t : OperationTask) (r : Rows.Result OperationTask)
          → get x.task_id s.db ≡ Rows.ok t
          → (transition service w.now (λ db. db) (closing x.task_id t) s.db).0 ≡ r
          → Reported (close_task w x service s)
      by_move t (Rows.err e) g h = rw (close_task, g, h) (report-Reported (x.version + 1) s)
      by_move t Rows.fault g h = rw (close_task, g, h) (report-Reported (x.version + 1) s)
      by_move t (Rows.ok t') g h = rw (close_task, g, h) (report-Reported _ _)

      by_task :
          (r : Rows.Result OperationTask)
          → get x.task_id s.db ≡ r
          → Reported (close_task w x service s)
      by_task (Rows.err e) g = rw (close_task, g) tt
      by_task Rows.fault g = rw (close_task, g) tt
      by_task (Rows.ok t) g =
          by_move t (transition service w.now (λ db. db) (closing x.task_id t) s.db).0 g refl

  confirm-Reported : (service : Service) (s : Store) → Reported (confirm w x service s)
  unfolding confirm
  confirm-Reported service s =
      let s1 = w.others 1 s in
      if-Reported (running_written w x s1) (close_task w x service s1)
        (pre_or_unknown w x (w.others 2 s1)) (λ e. close_task-Reported service s1)
        (λ e. pre_or_unknown-Reported (w.others 2 s1))

  confirm_raised-Reported :
      (service : Service) (s : Store) → Reported (confirm_raised w x service s)
  unfolding confirm_raised
  confirm_raised-Reported service s =
      let s1 = w.others 0 s in
      if-Reported (running_written w x s1) (confirm w x service s1)
        (pre_or_unknown w x (w.others 3 s1)) (λ e. confirm-Reported service s1)
        (λ e. pre_or_unknown-Reported (w.others 3 s1))

  commit_write-Reported :
      (service : Service) (c : Commit) (before after : Store)
      → Reported (commit_write w x service c before after)
  unfolding commit_write
  commit_write-Reported service stored before after = confirm-Reported service after
  commit_write-Reported service lost before after = confirm_raised-Reported service before
  commit_write-Reported service stored_and_raised before after =
      confirm_raised-Reported service after

-- The item and the source as the plan found them, and what it is to make of them.
pub record Found (std : Std) (plan : ManualUpdatePlan) (s : Store) (item : Item)
    (source after : ItemSource) : Type 0 where
  pub the_item : item_row plan.plan_item_id s.items ≡ some item
  pub the_source : source_row plan.plan_source_id s.sources ≡ some source
  pub item_same : item_snapshot std item ≡ plan.plan_item_hash
  pub source_same : source_snapshot std source ≡ plan.plan_source_hash
  pub source_after : changed_source std plan.selected source ≡ some after

abbrev pub expected_of :
    ManualUpdatePlan → OperationTask → Item → ItemSource → ItemSource → Expected
expected_of plan started item source after = record {
  plan = plan;
  task_id = started.id;
  version = started.version;
  item_after = changed_item plan.selected item;
  source_after = after;
  item_before = item;
  source_before = source;
}

-- What `apply_manual_update` may report for the tables `s` before it and `s'` after it.
abbrev pub Honest :
    World → Std → ManualUpdatePlan → Store → Result ManualUpdateResult → Store → Type 0
Honest w std plan s (ok r) s' =
    (r.written_fields ≡ names_of plan.selected)
    × (((r.commit_status ≡ "already_applied_verified")
          × ((i : ℕ) × (verify_replay std w.intent_key plan i s' ≡ true)))
        ⊎ ((r.commit_status ≡ "committed_verified")
            × ((t : OperationTask) × (item : Item) × (source : ItemSource) × (after : ItemSource)
                × Found std plan s item source after
                × ((v : ℕ) × (verify_state w.intent_key (expected_of plan t item source after)
                        succeeded "committed_verified" v s'
                      ≡ true)))))
Honest w std plan s (err write_failed) s' =
    (s' ≡ s)
    ⊎ ((t : OperationTask) × (item : Item) × (source : ItemSource) × (after : ItemSource) × Found
          std plan s item source after
        × ((verify_pre w.intent_key (expected_of plan t item source after) s' ≡ true)
            ⊎ (verify_state w.intent_key (expected_of plan t item source after) running "written"
                  t.version s'
                ≡ true)))
Honest w std plan s (err outcome_unknown) s' = Unit
Honest w std plan s (err stale_plan) s' = s' ≡ s
Honest w std plan s (err invalid_request) s' = s' ≡ s
Honest w std plan s (err e) s' = ⊥
Honest w std plan s value_error s' = Unit

module _ (w : World) (std : Std) (plan : ManualUpdatePlan) (s : Store) where
  abbrev IsHonest : Outcome → Type 0
  IsHonest o = Honest w std plan s o.0 o.1

  said :
      (t : OperationTask) (item : Item) (source after : ItemSource) (o : Outcome)
      → Found std plan s item source after
      → Says w (expected_of plan t item source after) o.0 o.1
      → IsHonest o
  said t item source after (ok r, s') f h = (h.0, inr (h.1, (t, item, source, after, f, h.2)))
  said t item source after (err write_failed, s') f h = inr (t, item, source, after, f, h)
  said t item source after (err outcome_unknown, s') f h = tt
  said t item source after (err stale_plan, s') f h = absurd h
  said t item source after (err invalid_request, s') f h = absurd h
  said t item source after (err source_not_available, s') f h = absurd h
  said t item source after (err provider_failed, s') f h = absurd h
  said t item source after (err check_expired, s') f h = absurd h
  said t item source after (err nothing_to_apply, s') f h = absurd h
  said t item source after (value_error, s') f h = tt

  if-Honest :
      (b : Bool) (o o' : Outcome)
      → (b ≡ true → IsHonest o)
      → (b ≡ false → IsHonest o')
      → IsHonest (if b then o else o')
  if-Honest true o o' h k = h refl
  if-Honest false o o' h k = k refl

  module _ (service : Service) (item : Item) (source : ItemSource)
      (the_item : item_row plan.plan_item_id s.items ≡ some item)
      (the_source : source_row plan.plan_source_id s.sources ≡ some source)
      (item_same : item_snapshot std item ≡ plan.plan_item_hash)
      (source_same : source_snapshot std source ≡ plan.plan_source_hash) where
    write-Honest :
        (t : OperationTask) (tx : Store) → IsHonest (write w std service plan item source s t tx)
    unfolding write
    write-Honest t tx = by_source (changed_source std plan.selected source) refl
      where
        by_written :
            (after : ItemSource) (o : Option Store)
            → changed_source std plan.selected source ≡ some after
            → written w std plan t.id item source tx ≡ o
            → IsHonest (write w std service plan item source s t tx)
        by_written after none e g = rw (write, e, g) refl
        by_written after (some done) e g =
            rw (write, e, g)
              (said t item source after
                (commit_write w (expected_of plan t item source after) service w.write_commit s
                  done)
                (record {
                  the_item = the_item;
                  the_source = the_source;
                  item_same = item_same;
                  source_same = source_same;
                  source_after = e;
                })
                (commit_write-Reported w (expected_of plan t item source after) service
                  w.write_commit s done))

        by_source :
            (o : Option ItemSource)
            → changed_source std plan.selected source ≡ o
            → IsHonest (write w std service plan item source s t tx)
        by_source none e = rw (write, e) tt
        by_source (some after) e = by_written after (written w std plan t.id item source tx) e refl

    start-Honest : IsHonest (start w std service plan item source s)
    unfolding start
    start-Honest =
        by_made (create service w.now (λ d. d) w.new_task_id (update_task w.intent_key plan) s.db).0
          refl
      where
        made : Rows.Result (OperationTask × Bool) × Db
        made = create service w.now (λ d. d) w.new_task_id (update_task w.intent_key plan) s.db

        by_moved :
            (t : OperationTask) (b : Bool) (r : Rows.Result OperationTask)
            → (create service w.now (λ d. d) w.new_task_id (update_task w.intent_key plan) s.db).0
              ≡ Rows.ok (t, b)
            → (transition service w.now
                (λ db. db)
                (starting t)
                (create service w.now
                  (λ d. d)
                  w.new_task_id
                  (update_task w.intent_key plan)
                  s.db).1).0
              ≡ r
            → IsHonest (start w std service plan item source s)
        by_moved t false r e g = rw (start, e) refl
        by_moved t true (Rows.err x) e g = rw (start, e, g) tt
        by_moved t true Rows.fault e g = rw (start, e, g) tt
        by_moved t true (Rows.ok t') e g = rw (start, e, g) (write-Honest t' _)

        by_made :
            (r : Rows.Result (OperationTask × Bool))
            → (create service w.now (λ d. d) w.new_task_id (update_task w.intent_key plan) s.db).0
              ≡ r
            → IsHonest (start w std service plan item source s)
        by_made (Rows.err x) e = rw (start, e) tt
        by_made Rows.fault e = rw (start, e) tt
        by_made (Rows.ok (t, b)) e = by_moved t b _ e refl

  apply_rows-Honest :
      (service : Service) (i : Option Item) (o : Option ItemSource) (f : Option SourceCheckFact)
      → item_row plan.plan_item_id s.items ≡ i
      → source_row plan.plan_source_id s.sources ≡ o
      → IsHonest (apply_rows w std service plan s i o f)
  unfolding apply_rows
  apply_rows-Honest service none o f a b = refl
  apply_rows-Honest service (some item) none f a b = refl
  apply_rows-Honest service (some item) (some source) none a b = refl
  apply_rows-Honest service (some item) (some source) (some fact) a b =
      if-Honest
        (not (str_eq (item_snapshot std item) plan.plan_item_hash)
          || not (str_eq (source_snapshot std source) plan.plan_source_hash)
          || not (str_eq fact.detail_hash plan.plan_detail_hash))
        (err stale_plan, s) (start w std service plan item source s) (λ stale. refl)
        (λ same.
          start-Honest service item source a b
            (ground (arith, same, str_eq_iff (item_snapshot std item) plan.plan_item_hash))
            (ground (arith, same, str_eq_iff (source_snapshot std source) plan.plan_source_hash)))

  replay-Honest : (existing : OperationTask) → IsHonest (replay w std plan existing s)
  unfolding replay
  replay-Honest existing =
      let s1 = w.others 0 s in
      let answered : Outcome =
        if verify_replay std w.intent_key plan existing.id s1
        then (outcome existing.id plan "already_applied_verified", s1)
        else (err outcome_unknown, s1) in
      if-Honest (not (state_eq existing.state succeeded)) (err stale_plan, s) answered (λ e. refl)
        (λ e.
          if-Honest (verify_replay std w.intent_key plan existing.id s1)
            (outcome existing.id plan "already_applied_verified", s1) (err outcome_unknown, s1)
            (λ f. (refl, inl (refl, (existing.id, f)))) (λ f. tt))

  apply_task-Honest :
      (service : Service) (o : Option OperationTask) → IsHonest (apply_task w std service plan s o)
  unfolding apply_task
  apply_task-Honest service (some existing) = replay-Honest existing
  apply_task-Honest service none =
      apply_rows-Honest service (item_row plan.plan_item_id s.items)
        (source_row plan.plan_source_id s.sources) (fact_row plan.check_task_id s.facts) refl refl

  -- Whatever the commits and other sessions do, `apply_manual_update` reports success only if its last
  -- reading found the tables as they should be: the item and the source with just the planned values
  -- changed, or every planned value in place for a plan applied before. A stale plan or a session in use
  -- is refused with nothing written. After a failed write the tables are as they were, or the item and
  -- the source as before and no task of the plan there, or the change is there with its task running.
  pub apply_manual_update-Honest :
      (service : Service)
      → let o = apply_manual_update w std service plan s in Honest w std plan s o.0 o.1
  unfolding apply_manual_update
  apply_manual_update-Honest service =
      let o = apply_task w std service plan s (find (has_key w.intent_key) s.db.tasks) in
      let begun : Outcome = if not w.begins then (err write_failed, s) else o in
      if-Honest (not w.clean) (err invalid_request, s) begun (λ e. refl)
        λ clean.
          if-Honest (not w.begins) (err write_failed, s) o (λ e. inl refl)
            λ begins. apply_task-Honest service (find (has_key w.intent_key) s.db.tasks)
