-- ===== src/Tasks/Fresh.antt =====
-- app/tasks/service.py: `create` and `transition` on a task that is the newest row of its table.
use nsfwtrack.Base.{
  ℕ, ◌≤◌, String, Bool, true, false, none, some, List, [], ◌∷◌, ◌++◌, ◌==◌, ==_iff, any, find,
  filter, All, All-map, ◌≡◌, refl, ap, ◌∙◌, arith,
}
use nsfwtrack.Tasks.Contracts.{queued}
use nsfwtrack.Tasks.Text.{safe_key}
use nsfwtrack.Tasks.Store.{
  OperationTask, TaskEvent, Db, Result, ok, update_rows, count_rows, has_id, find_row, same_entry,
  add_event,
}
use nsfwtrack.Tasks.Optimistic.{transition_set, logged_event, safe_of, transition_values-KeepsId}
use nsfwtrack.Tasks.Outcomes.{unrefused-hit}
use nsfwtrack.Tasks.Service.{
  Service, NewTask, fresh_row, has_key, created_event, mark_created, insert_row, insert_task,
  identity, create, get, Move, refusal, transition_where, commit_transition, transition,
}

-- A table whose last row is the only one that may pass a test.
module _ (p : OperationTask → Bool) (r : OperationTask) where
  pub update_rows-last :
      (f : OperationTask → OperationTask) (ts : List OperationTask)
      → All (λ t. p t ≡ false) ts
      → p r ≡ true
      → update_rows p f (ts ++ r ∷ []) ≡ ts ++ f r ∷ []
  unfolding update_rows
  update_rows-last f [] h e = rw e
  update_rows-last f (t ∷ ts) h e = rw h.0 (ap (◌∷◌ t) (update_rows-last f ts h.1 e))

  pub count_rows-last :
      (ts : List OperationTask)
      → All (λ t. p t ≡ false) ts
      → p r ≡ true
      → count_rows p (ts ++ r ∷ []) ≡ 1
  unfolding count_rows
  count_rows-last [] h e = rw e
  count_rows-last (t ∷ ts) h e = rw h.0 (omega (arith, count_rows-last ts h.1 e))

  pub find-last :
      (ts : List OperationTask)
      → All (λ t. p t ≡ false) ts
      → p r ≡ true
      → find p (ts ++ r ∷ []) ≡ some r
  find-last [] h e = rw e
  find-last (t ∷ ts) h e = rw h.0 (find-last ts h.1 e)

  pub filter-last :
      (ts : List OperationTask)
      → All (λ t. p t ≡ false) ts
      → p r ≡ true
      → filter p (ts ++ r ∷ []) ≡ r ∷ []
  filter-last [] h e = rw e
  filter-last (t ∷ ts) h e = rw h.0 (filter-last ts h.1 e)

  pub count_rows-past :
      (ts : List OperationTask) → p r ≡ false → count_rows p (ts ++ r ∷ []) ≡ count_rows p ts
  unfolding count_rows
  count_rows-past [] e = rw e
  count_rows-past (t ∷ ts) e = omega (arith, count_rows-past ts e)

pub any-none {ℓ} :
    {A : Type ℓ} (p : A → Bool) (xs : List A) → All (λ x. p x ≡ false) xs → any p xs ≡ false
any-none p [] h = refl
any-none p (x ∷ xs) h = rw (h.0, any-none p xs h.1)

pub find-none {ℓ} :
    {A : Type ℓ} (p : A → Bool) (xs : List A) → All (λ x. p x ≡ false) xs → find p xs ≡ none
find-none p [] h = refl
find-none p (x ∷ xs) h = rw h.0 (find-none p xs h.1)

-- A task in the queue that names no identities.
abbrev pub plain : NewTask → NewTask
plain n = record n { initial_state = queued; external_identity = none; asset_identity = none }

-- No row of the tables is of this task.
pub record IsUnused (i : ℕ) (key : String) (db : Db) : Type 0 where
  pub keys : All (λ t. has_key key t ≡ false) db.tasks
  pub ids : All (λ (t : OperationTask). has_id i t ≡ false) db.tasks
  pub entries : All (λ (e : TaskEvent). (e.task_id == i) ≡ false) db.events

pub other_task :
    (e : TaskEvent) (es : List TaskEvent)
    → All (λ (f : TaskEvent). (f.task_id == e.task_id) ≡ false) es
    → any (same_entry e) es ≡ false
other_task e es h = any-none (same_entry e) es (
    All-map (λ (f : TaskEvent). (f.task_id == e.task_id) ≡ false) (λ f. same_entry e f ≡ false) es
      (λ f k. ground (arith, k)) h)

-- `create` with a new key and a new id.
pub create-new :
    (s : Service) (now i : ℕ) (n : NewTask) (db : Db)
    → safe_key n.intent_key ≡ true
    → IsUnused i n.intent_key db
    → create s now (λ d. d) i (plain n) db ≡ (
      ok (fresh_row now i (plain n) none none, true),
      record db {
        tasks = db.tasks ++ fresh_row now i (plain n) none none ∷ [];
        events = db.events ++ created_event now i queued ∷ [];
      },
    )
unfolding create insert_task identity insert_row mark_created add_event find_row
create-new s now i n db safe new =
    let row = fresh_row now i (plain n) none none in
    let self : has_id i row ≡ true = (==_iff i i).1 refl in
    rw
      (
        safe,
        find-none (has_key n.intent_key) db.tasks new.keys,
        any-none (has_key n.intent_key) db.tasks new.keys,
        any-none (has_id i) db.tasks new.ids,
        other_task (created_event now i queued) db.events new.entries,
        find-last (has_id i) row db.tasks new.ids self,
      )
      refl

add_event-new :
    (e : TaskEvent) (before db : Db) (r : OperationTask)
    → any (same_entry e) db.events ≡ false
    → find_row e.task_id db.tasks ≡ some r
    → add_event e before db ≡ (ok r, record db { events = db.events ++ e ∷ [] })
unfolding add_event
add_event-new e before db r new found = rw (new, found) refl

module _ (s : Service) (now : ℕ) (m : Move) (r : OperationTask) (ts : List OperationTask) (db : Db)
    (ids : All (λ (t : OperationTask). has_id r.id t ≡ false) ts) where
  abbrev pub with_last : OperationTask → Db
  with_last t = record db { tasks = ts ++ t ∷ [] }

  find_row-last : (t : OperationTask) → t.id ≡ r.id → find_row r.id (ts ++ t ∷ []) ≡ some t
  unfolding find_row
  find_row-last t same = find-last (has_id r.id) t ts ids ((==_iff t.id r.id).1 same)

  pub get-last : 1 ≤ r.id → get r.id (with_last r) ≡ ok r
  unfolding get
  get-last positive = let found = find_row-last r refl in ground (arith, positive, found)

  misses : All (λ t. transition_where s m r (with_last r) t ≡ false) ts
  unfolding transition_where
  misses =
      All-map (λ (t : OperationTask). has_id r.id t ≡ false)
        (λ t. transition_where s m r (with_last r) t ≡ false) ts (λ t h. rw h refl) ids

  commit-last :
      refusal s m r (with_last r) ≡ none
      → any (same_entry (logged_event s now m r)) db.events ≡ false
      → commit_transition s now m r (with_last r) ≡ (
        ok (transition_set s now m r r),
        record db {
          tasks = ts ++ transition_set s now m r r ∷ [];
          events = db.events ++ logged_event s now m r ∷ [];
        },
      )
  unfolding commit_transition
  commit-last free new =
      let p = transition_where s m r (with_last r) in
      let hit = unrefused-hit s m r (with_last r) free in
      let once = (==_iff (count_rows p (ts ++ r ∷ [])) 1).1 (count_rows-last p r ts misses hit) in
      let moved = update_rows-last p r (transition_set s now m r) ts misses hit in
      let back =
        find_row-last (transition_set s now m r r)
          (transition_values-KeepsId now r m.target (safe_of s m) r) in
      let at : find_row r.id (update_rows p (transition_set s now m r) (ts ++ r ∷ []))
          ≡ some (transition_set s now m r r) =
        rw moved back in
      rw once (
        add_event-new (logged_event s now m r) (with_last r)
          (record db { tasks = update_rows p (transition_set s now m r) (ts ++ r ∷ []) })
          (transition_set s now m r r) new at
        ∙ ap
            (λ (x : List OperationTask).
              let o : Result OperationTask × Db = (
                ok (transition_set s now m r r),
                record db { tasks = x; events = db.events ++ logged_event s now m r ∷ [] },
              ) in
              o)
            moved)

  -- `transition` on the newest row, where no check refuses it and its next version is new.
  pub transition-last :
      1 ≤ r.id
      → m.task_id ≡ r.id
      → refusal s m r (with_last r) ≡ none
      → any (same_entry (logged_event s now m r)) db.events ≡ false
      → transition s now (λ d. d) m (with_last r) ≡ (
        ok (transition_set s now m r r),
        record db {
          tasks = ts ++ transition_set s now m r r ∷ [];
          events = db.events ++ logged_event s now m r ∷ [];
        },
      )
  unfolding transition
  transition-last positive same free new =
      let read : get m.task_id (with_last r) ≡ ok r =
        ap (λ i. get i (with_last r)) same ∙ get-last positive in
      rw (read, transition) (rw (free, transition) (commit-last free new))
