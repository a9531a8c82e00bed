-- ===== src/Tasks/Preserve/Delete.antt =====
-- `delete_history` and `cleanup_history` keep the invariant: rows go with all their events.
use nsfwtrack.Base.{
  true, none, ℕ, ◌≤◌, ◌≡◌, refl, ap, ◌∙◌, ==_iff, false, Bool, not, List, [], ◌∷◌, arith,
  All-filter, filter, ◌==◌, Bool-cases, inl, inr,
}
use nsfwtrack.Tasks.Store.{
  OperationTask, TaskEvent, Db, Result, ok, err, fault, is_running, count_rows, find_row,
}
use nsfwtrack.Tasks.Service.{Service, get}
use nsfwtrack.Tasks.Control.{delete_rows, delete_history, candidates, among, cleanup_history}
use nsfwtrack.Tasks.Rows.{Distinct-filter}
use nsfwtrack.Tasks.History.{Audited, last_event}
use nsfwtrack.Tasks.Invariant.{Inv, LeaseOk, Owned}

count-filter-le :
    (p q : OperationTask → Bool) (ts : List OperationTask)
    → count_rows p (filter q ts) ≤ count_rows p ts
unfolding count_rows
count-filter-le p q [] = omega arith
count-filter-le p q (t ∷ ts) = ground (arith, count-filter-le p q ts)

module _ (g : ℕ → Bool) where
  abbrev pub keeps_task : OperationTask → Bool
  keeps_task t = not (g t.id)

  abbrev keeps_event : TaskEvent → Bool
  keeps_event e = not (g e.task_id)

  last_event-filter :
      (i : ℕ) (es : List TaskEvent)
      → g i ≡ false
      → last_event i (filter keeps_event es) ≡ last_event i es
  unfolding last_event
  last_event-filter i [] h = refl
  last_event-filter i (e ∷ es) h = elim (Bool-cases (e.task_id == i)) [
    | inl same ↦
        let kept : g e.task_id ≡ false = ap g ((==_iff _ _).0 same) ∙ h in
        rw kept (ground (arith, last_event-filter i es h))
    | inr other ↦ ground (arith, last_event-filter i es h)
  ]

  pub find_row-filter :
      (i : ℕ) (ts : List OperationTask)
      → g i ≡ false
      → find_row i (filter keeps_task ts) ≡ find_row i ts
  unfolding find_row
  find_row-filter i [] h = refl
  find_row-filter i (t ∷ ts) h = elim (Bool-cases (t.id == i)) [
    | inl same ↦
        let kept : g t.id ≡ false = ap g ((==_iff _ _).0 same) ∙ h in
        rw kept (ground (arith, find_row-filter i ts h))
    | inr other ↦ ground (arith, find_row-filter i ts h)
  ]

  pub find_row-deleted :
      (i : ℕ) (ts : List OperationTask) → g i ≡ true → find_row i (filter keeps_task ts) ≡ none
  unfolding find_row
  find_row-deleted i [] h = refl
  find_row-deleted i (t ∷ ts) h = elim (Bool-cases (t.id == i)) [
    | inl same ↦
        let gone : g t.id ≡ true = ap g ((==_iff _ _).0 same) ∙ h in
        rw gone (find_row-deleted i ts h)
    | inr other ↦ ground (arith, find_row-deleted i ts h)
  ]

  pub delete_rows-Inv :
      (s : Service) (db : Db) → Inv s db → Inv s (delete_rows (λ t. g t.id) (λ e. g e.task_id) db)
  delete_rows-Inv s db inv = record {
    distinct = Distinct-filter keeps_task db.tasks inv.distinct;
    within = omega (arith, count-filter-le is_running keeps_task db.tasks, inv.within);
    leases = All-filter LeaseOk LeaseOk keeps_task db.tasks (λ t _ l. l) inv.leases;
    audit =
        All-filter (Audited db.events) (Audited (filter keeps_event db.events)) keeps_task db.tasks
          (λ t keep a. record {
            last = a.last;
            is_last = rw (last_event-filter t.id db.events (ground arith)) a.is_last;
            at_version = a.at_version;
            at_state = a.at_state;
            bounded =
                All-filter (λ x. x.task_id ≡ t.id → x.version ≤ t.version) _ keeps_event db.events
                  (λ x _ k. k) a.bounded;
          })
          inv.audit;
    owned =
        All-filter (Owned db.tasks) (Owned (filter keeps_task db.tasks)) keeps_event db.events
          (λ e keep o. rw (find_row-filter e.task_id db.tasks (ground arith)) o) inv.owned;
  }

module _ (s : Service) where
  pub delete_history-Inv :
      (other : Db → Db) (i : ℕ) (db : Db)
      → Inv s db
      → Inv s (other db)
      → Inv s (delete_history other i db).1
  unfolding delete_history
  delete_history-Inv other i db inv meanwhile = read (get i db) refl
    where
      read : (r : Result OperationTask) → get i db ≡ r → Inv s (delete_history other i db).1
      read (ok t) e =
          rw (e, delete_history)
            (ground (arith, delete_rows-Inv (λ j. j == t.id) s (other db) meanwhile))
      read (err x) e = rw (e, delete_history) inv
      read fault e = rw (e, delete_history) inv

  pub cleanup_history-Inv :
      (now : ℕ) (other : Db → Db) (days limit : ℕ) (db : Db)
      → Inv s db
      → Inv s (other db)
      → Inv s (cleanup_history now other days limit db).1
  unfolding cleanup_history
  cleanup_history-Inv now other days limit db inv meanwhile =
      ground (arith, delete_rows-Inv (among (candidates now days limit db)) s (other db) meanwhile)
