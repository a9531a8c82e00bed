-- ===== src/Tasks/Preserve/Create.antt =====
-- `create` keeps the invariant: a new row is not running, holds no lease, and is logged.
use nsfwtrack.Base.{
  ℕ, ◌≤◌, ◌≡◌, refl, sym, ◌≢◌, true, false, Bool, Option, List, [], ◌∷◌, ◌++◌, arith, All, All-map,
  All-append, All-zip, any, is_some, String,
}
use nsfwtrack.Tasks.Store.{
  OperationTask, TaskEvent, Db, Result, ok, err, fault, has_id, is_running, count_rows, find_row,
  add_event,
}
use nsfwtrack.Tasks.Service.{
  Service, NewTask, identity, fresh_row, refused_initially, created_event, mark_created, insert_row,
  insert_task, create,
}
use nsfwtrack.Tasks.Contracts.{TaskState, running, state_eq}
use nsfwtrack.Tasks.Rows.{Distinct}
use nsfwtrack.Tasks.History.{Audited, Audited-other, last_event-append}
use nsfwtrack.Tasks.Invariant.{Inv, LeaseOk, Owned}

new_id : (i : ℕ) (ts : List OperationTask) → any (has_id i) ts ≡ false → All (λ u. u.id ≢ i) ts
new_id i [] h = tt
new_id i (t ∷ ts) h = (ground arith, new_id i ts (ground arith))

Distinct-append :
    (ts : List OperationTask) (t : OperationTask)
    → All (λ u. u.id ≢ t.id) ts
    → Distinct ts
    → Distinct (ts ++ t ∷ [])
Distinct-append [] t h d = (tt, tt)
Distinct-append (u ∷ ts) t h d = (
  All-append (λ v. v.id ≢ u.id) ts (t ∷ []) d.0 ((λ e. h.0 (sym e)), tt),
  Distinct-append ts t h.1 d.1,
)

count-append :
    (p : OperationTask → Bool) (ts : List OperationTask) (t : OperationTask)
    → p t ≡ false
    → count_rows p (ts ++ t ∷ []) ≡ count_rows p ts
unfolding count_rows
count-append p [] t h = ground arith
count-append p (u ∷ ts) t h = ground (arith, count-append p ts t h)

find_row-append :
    (i : ℕ) (ts : List OperationTask) (t : OperationTask)
    → is_some (find_row i ts) ≡ true
    → is_some (find_row i (ts ++ t ∷ [])) ≡ true
unfolding find_row
find_row-append i [] t h = absurd (cc)
find_row-append i (u ∷ ts) t h = ground (arith, find_row-append i ts t)

find_row-last :
    (ts : List OperationTask) (t : OperationTask) → is_some (find_row t.id (ts ++ t ∷ [])) ≡ true
unfolding find_row
find_row-last [] t = ground arith
find_row-last (u ∷ ts) t = ground (arith, find_row-last ts t)

absent :
    (i : ℕ) (ts : List OperationTask) → All (λ u. u.id ≢ i) ts → is_some (find_row i ts) ≡ false
unfolding find_row
absent i [] h = refl
absent i (u ∷ ts) h = ground (arith, absent i ts h.1, h.0)

-- No event stands under an id that the table does not have.
unlogged :
    (i : ℕ) (ts : List OperationTask) (es : List TaskEvent)
    → All (λ u. u.id ≢ i) ts
    → All (Owned ts) es
    → All (λ e. e.task_id ≢ i) es
unlogged i ts es h o =
    All-map (Owned ts) (λ e. e.task_id ≢ i) es
      (λ e k same. absurd (cc (absent i ts h, rw same at k))) o

idle_state : (st : TaskState) → refused_initially st ≡ false → state_eq st running ≡ false
unfolding state_eq
idle_state st h = ground arith

module _ (s : Service) where
  appended-Inv :
      (now : ℕ) (row : OperationTask) (db : Db)
      → any (has_id row.id) db.tasks ≡ false
      → row.version ≡ 1
      → is_running row ≡ false
      → LeaseOk row
      → Inv s db
      → Inv s (record db {
        tasks = db.tasks ++ row ∷ [];
        events = db.events ++ created_event now row.id row.state ∷ [];
      })
  appended-Inv now row db fresh one idle lease inv =
      let e = created_event now row.id row.state in
      let others = new_id row.id db.tasks fresh in
      let apart = unlogged row.id db.tasks db.events others inv.owned in
      record {
        distinct = Distinct-append db.tasks row others inv.distinct;
        within = rw (count-append is_running db.tasks row idle) inv.within;
        leases = All-append LeaseOk db.tasks (row ∷ []) inv.leases (lease, tt);
        audit =
            All-append (Audited (db.events ++ e ∷ [])) db.tasks (row ∷ [])
              (All-map2 others inv.audit)
              (
                record {
                  last = e;
                  is_last = rw (last_event-append row.id db.events e) (ground arith);
                  at_version = sym one;
                  at_state = refl;
                  bounded =
                      All-append (λ x. x.task_id ≡ row.id → x.version ≤ row.version) db.events
                        (e ∷ [])
                        (All-map (λ x. x.task_id ≢ row.id)
                          (λ x. x.task_id ≡ row.id → x.version ≤ row.version) db.events
                          (λ x ne same. absurd (ne same)) apart)
                        ((λ _. omega arith), tt);
                },
                tt,
              );
        owned =
            All-append (Owned (db.tasks ++ row ∷ [])) db.events (e ∷ [])
              (All-map (Owned db.tasks) (Owned (db.tasks ++ row ∷ [])) db.events
                (λ x. find_row-append x.task_id db.tasks row) inv.owned)
              (find_row-last db.tasks row, tt);
      }
    where
      All-map2 :
          All (λ u. u.id ≢ row.id) db.tasks
          → All (Audited db.events) db.tasks
          → All (Audited (db.events ++ created_event now row.id row.state ∷ [])) db.tasks
      All-map2 others audit =
          All-map (λ u. (u.id ≢ row.id) × Audited db.events u)
            (Audited (db.events ++ created_event now row.id row.state ∷ [])) db.tasks
            (λ u k.
              Audited-other db.events (created_event now row.id row.state) u
                (λ same. k.0 (sym same)) k.1)
            (All-zip (λ u. u.id ≢ row.id) (Audited db.events) db.tasks others audit)

  insert_row-Inv :
      (now : ℕ) (row : OperationTask) (db : Db)
      → row.version ≡ 1
      → is_running row ≡ false
      → LeaseOk row
      → Inv s db
      → Inv s (insert_row now row db).1
  unfolding insert_row add_event mark_created
  insert_row-Inv now row db one idle lease inv = ground (arith, appended-Inv now row db)

  insert_task-Inv :
      (now i : ℕ) (n : NewTask) (db : Db)
      → state_eq n.initial_state running ≡ false
      → Inv s db
      → Inv s (insert_task s now i n db).1
  unfolding insert_task
  insert_task-Inv now i n db idle inv = external (identity s n.external_identity) refl
    where
      asset :
          (x : Option String)
          → identity s n.external_identity ≡ ok x
          → (g : Result (Option String)) → identity s n.asset_identity ≡ g
          → Inv s (insert_task s now i n db).1
      asset x e (ok y) q =
          rw (e, insert_task)
            (rw (q, insert_task)
              (insert_row-Inv now (fresh_row now i n x y) db refl idle
                (record { expires = refl; active = λ h. absurd (cc) }) inv))
      asset x e (err z) q = rw (e, insert_task) (rw (q, insert_task) inv)
      asset x e fault q = rw (e, insert_task) (rw (q, insert_task) inv)

      external :
          (g : Result (Option String))
          → identity s n.external_identity ≡ g
          → Inv s (insert_task s now i n db).1
      external (ok x) e = asset x e (identity s n.asset_identity) refl
      external (err z) e = rw (e, insert_task) inv
      external fault e = rw (e, insert_task) inv

  -- whatever `create` is given, and under every id that the database picks
  pub create-Inv :
      (now : ℕ) (other : Db → Db) (i : ℕ) (n : NewTask) (db : Db)
      → Inv s db
      → Inv s (other db)
      → Inv s (create s now other i n db).1
  unfolding create
  create-Inv now other i n db inv meanwhile =
      ground (arith, insert_task-Inv now i n (other db), idle_state n.initial_state)
