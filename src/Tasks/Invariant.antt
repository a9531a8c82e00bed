-- ===== src/Tasks/Invariant.antt =====
-- What holds of the task tables between two calls of the service, and the two kinds of write: one
-- that keeps versions and states, and one that moves a task on and logs it.
use mathlib.Core.Option
use nsfwtrack.Base.{
  ℕ, ◌+◌, ◌≡◌, refl, sym, ◌∙◌, ◌⊎◌, Bool, true, Option, none, some, List, [], ◌∷◌, ◌++◌, arith, All,
  All-append, All-zip, is_some,
}
use nsfwtrack.Tasks.Contracts.{running, cancelling}
use nsfwtrack.Tasks.Store.{OperationTask, TaskEvent, Db, update_rows, count_rows, find_row}
use nsfwtrack.Tasks.Service.{Service}
use nsfwtrack.Tasks.Rows.{
  Distinct, KeepsId, Distinct-update, All-update, unique_hit, find_row-update, written-cases,
  count-running-stopped, written,
}
use nsfwtrack.Tasks.Concurrency.{WithinLimit}
use nsfwtrack.Tasks.History.{Audited, Audited-kept, Audited-other, Audited-next}

-- A lease is held by a running or a cancelling task alone, and it expires.
pub record LeaseOk (t : OperationTask) : Type 0 where
  pub expires : is_some t.lease_owner ≡ is_some t.lease_expires_at
  pub active : is_some t.lease_owner ≡ true → (t.state ≡ running) ⊎ (t.state ≡ cancelling)

-- An event belongs to a task of the table: the foreign key.
abbrev pub Owned : List OperationTask → TaskEvent → Type 0
Owned ts e = is_some (find_row e.task_id ts) ≡ true

pub record Inv (s : Service) (db : Db) : Type 0 where
  pub distinct : Distinct db.tasks
  pub within : WithinLimit s db
  pub leases : All LeaseOk db.tasks
  pub audit : All (Audited db.events) db.tasks
  pub owned : All (Owned db.tasks) db.events

module _ (p : OperationTask → Bool) (f : OperationTask → OperationTask) where
  pub Owned-update :
      (ts : List OperationTask) (es : List TaskEvent)
      → KeepsId f
      → All (Owned ts) es
      → All (Owned (update_rows p f ts)) es
  Owned-update ts [] k h = tt
  Owned-update ts (e ∷ es) k h = (
    rw (find_row-update p f e.task_id ts k) (mapped (find_row e.task_id ts) h.0),
    Owned-update ts es k h.1,
  )
    where
      mapped :
          (o : Option OperationTask)
          → is_some o ≡ true
          → is_some (Option.map (written p f) o) ≡ true
      mapped none h = h
      mapped (some t) h = refl

  -- A write that keeps ids, versions and states.
  pub Inv-kept :
      (s : Service) (db : Db)
      → ((t : OperationTask)
          → ((f t).id ≡ t.id) × ((f t).version ≡ t.version) × ((f t).state ≡ t.state))
      → ((t : OperationTask) → p t ≡ true → LeaseOk t → LeaseOk (f t))
      → Inv s db
      → Inv s (record db { tasks = update_rows p f db.tasks })
  Inv-kept s db k l inv = record {
    distinct = Distinct-update p f db.tasks (λ t. (k t).0) inv.distinct;
    within =
        omega (arith, count-running-stopped p f db.tasks (λ t. ground (arith, k t)), inv.within);
    leases =
        All-update p f LeaseOk LeaseOk db.tasks
          (λ t h. written-cases p f LeaseOk t (λ e. l t e h) (λ _. h)) inv.leases;
    audit =
        All-update p f (Audited db.events) (Audited db.events) db.tasks
          (λ t a.
            written-cases p f (Audited db.events) t
              (λ _. Audited-kept db.events t (f t) (k t).0 (k t).1 (k t).2 a) (λ _. a))
          inv.audit;
    owned = Owned-update db.tasks db.events (λ t. (k t).0) inv.owned;
  }

  -- A write that moves the one row with an id on by a version, and logs it.
  pub Inv-next :
      (s : Service) (db : Db) (e : TaskEvent) (links : List ℕ)
      → ((t : OperationTask) → (f t).id ≡ t.id)
      → ((t : OperationTask)
          → p t ≡ true
          → (t.id ≡ e.task_id)
            × (e.version ≡ t.version + 1)
            × ((f t).version ≡ e.version)
            × ((f t).state ≡ e.to_state))
      → ((t : OperationTask) → p t ≡ true → LeaseOk t → LeaseOk (f t))
      → count_rows p db.tasks ≡ 1
      → WithinLimit s (record db { tasks = update_rows p f db.tasks })
      → is_some (find_row e.task_id db.tasks) ≡ true
      → Inv s db
      → Inv s (record {
        tasks = update_rows p f db.tasks;
        events = db.events ++ e ∷ [];
        asset_tasks = links;
      })
  Inv-next s db e links k hit l once within known inv = record {
    distinct = Distinct-update p f db.tasks k inv.distinct;
    within = within;
    leases =
        All-update p f LeaseOk LeaseOk db.tasks
          (λ t h. written-cases p f LeaseOk t (λ e. l t e h) (λ _. h)) inv.leases;
    audit =
        All-update p f (λ t. Audited db.events t × (t.id ≡ e.task_id → p t ≡ true))
          (Audited (db.events ++ e ∷ [])) db.tasks
          (λ t a.
            written-cases p f (Audited (db.events ++ e ∷ [])) t
              (λ y.
                let (at_id, next, version, state) = hit t y in
                Audited-next db.events e t (f t) (sym at_id) (k t) (version ∙ next) (sym version)
                  (sym state) a.0)
              (λ n. Audited-other db.events e t (λ same. absurd (cc (a.1 (sym same)))) a.0))
          (All-zip (Audited db.events) (λ t. t.id ≡ e.task_id → p t ≡ true) db.tasks inv.audit
            (unique_hit p e.task_id db.tasks (λ t h. (hit t h).0) inv.distinct once));
    owned =
        All-append (Owned (update_rows p f db.tasks)) db.events (e ∷ [])
          (Owned-update db.tasks db.events k inv.owned)
          (Owned-update db.tasks (e ∷ []) k (known, tt));
  }
