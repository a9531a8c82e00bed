-- ===== src/Tasks/Preserve/Leases.antt =====
-- `acquire_lease`, `heartbeat` and `mark_verification_unknown` keep the invariant.
use nsfwtrack.Base.{
  ℕ, ◌+◌, ◌≡◌, refl, sym, ap, [], ◌∷◌, ◌++◌, inl, inr, true, false, String, Bool, arith, Bool-cases,
  ◌==◌,
}
use nsfwtrack.Tasks.Contracts.{outcome_unknown, running, state_eq, state_eq→eq}
use nsfwtrack.Tasks.Store.{OperationTask, Db, update_rows, count_rows, is_running, add_event}
use nsfwtrack.Tasks.Service.{Service}
use nsfwtrack.Tasks.Leases.{
  Beat, lease_where, leased, write_lease, acquire_lease, beat_where, beaten, heartbeat,
  unknown_where, unknown_event, reread, made_unknown, mark_verification_unknown,
}
use nsfwtrack.Tasks.Rows.{find_row-hit, count-running-stopped}
use nsfwtrack.Tasks.Invariant.{Inv, LeaseOk, Inv-kept, Inv-next}

leased-LeaseOk :
    (now i : ℕ) (owner : String) (v ttl : ℕ) (t : OperationTask)
    → lease_where now i owner v t ≡ true
    → LeaseOk t
    → LeaseOk (leased now owner ttl t)
unfolding lease_where leased
leased-LeaseOk now i owner v ttl t h l = record {
  expires = refl;
  active = ground (arith, state_eq→eq t.state running);
}

beaten-LeaseOk :
    (now : ℕ) (b : Beat) (t : OperationTask)
    → beat_where now b t ≡ true
    → LeaseOk t
    → LeaseOk (beaten now b t)
unfolding beat_where beaten
beaten-LeaseOk now b t h l = record { expires = ground arith; active = l.active }

unknown_where-id :
    (i v : ℕ) (stage : String) (t : OperationTask)
    → unknown_where i v stage t ≡ true
    → (t.id ≡ i) × (t.version ≡ v)
unfolding unknown_where
unknown_where-id i v stage t h = ground arith

module _ (now v : ℕ) (t : OperationTask) where
  made_unknown-id : (made_unknown now v t).id ≡ t.id
  unfolding made_unknown
  made_unknown-id = refl

  made_unknown-moved :
      ((made_unknown now v t).state ≡ outcome_unknown) × ((made_unknown now v t).version ≡ v + 1)
  unfolding made_unknown
  made_unknown-moved = (refl, refl)

  made_unknown-stopped : is_running (made_unknown now v t) ≡ false
  unfolding made_unknown state_eq
  made_unknown-stopped = refl

  made_unknown-LeaseOk : LeaseOk (made_unknown now v t)
  unfolding made_unknown
  made_unknown-LeaseOk = record { expires = refl; active = λ h. absurd (cc) }

module _ (s : Service) where
  write_lease-Inv :
      (i : ℕ) (p : OperationTask → Bool) (f : OperationTask → OperationTask) (db : Db)
      → ((t : OperationTask)
          → ((f t).id ≡ t.id) × ((f t).version ≡ t.version) × ((f t).state ≡ t.state))
      → ((t : OperationTask) → p t ≡ true → LeaseOk t → LeaseOk (f t))
      → Inv s db
      → Inv s (write_lease i p f db).1
  unfolding write_lease
  write_lease-Inv i p f db k l inv = elim (Bool-cases (count_rows p db.tasks == 1)) [
    | inl once ↦ rw once (Inv-kept p f s db k l inv)
    | inr more ↦ rw more inv
  ]

  pub acquire_lease-Inv :
      (now : ℕ) (other : Db → Db) (i : ℕ) (owner : String) (v ttl : ℕ) (db : Db)
      → Inv s db
      → Inv s (other db)
      → Inv s (acquire_lease now other i owner v ttl db).1
  unfolding acquire_lease leased
  acquire_lease-Inv now other i owner v ttl db inv meanwhile = ground (
    arith,
    write_lease-Inv i (lease_where now i owner v) (leased now owner ttl) (other db)
        (λ t. (refl, refl, refl)) (λ t. leased-LeaseOk now i owner v ttl t) meanwhile,
  )

  pub heartbeat-Inv : (now : ℕ) (b : Beat) (db : Db) → Inv s db → Inv s (heartbeat now b db).1
  unfolding heartbeat beaten
  heartbeat-Inv now b db inv = ground (
    arith,
    write_lease-Inv b.task_id (beat_where now b) (beaten now b) db (λ t. (refl, refl, refl))
        (beaten-LeaseOk now b) inv,
  )

  made_unknown-Inv :
      (now i v : ℕ) (stage event_type : String) (db : Db)
      → count_rows (unknown_where i v stage) db.tasks ≡ 1
      → Inv s db
      → Inv s (record db {
        tasks = update_rows (unknown_where i v stage) (made_unknown now v) db.tasks;
        events = db.events ++ unknown_event now i v event_type ∷ [];
      })
  made_unknown-Inv now i v stage event_type db once inv =
      let hit = λ (t : OperationTask) (h : unknown_where i v stage t ≡ true).
        unknown_where-id i v stage t h in
      let (t, found, _) =
        find_row-hit (unknown_where i v stage) i db.tasks (λ t h. (hit t h).0) inv.distinct once in
      Inv-next (unknown_where i v stage) (made_unknown now v) s db
        (unknown_event now i v event_type) db.asset_tasks (made_unknown-id now v)
        (λ t h. (
          (hit t h).0,
          ap (λ n. n + 1) (sym (hit t h).1),
          (made_unknown-moved now v t).1,
          (made_unknown-moved now v t).0,
        ))
        (λ t _ _. made_unknown-LeaseOk now v t) once
        (omega (
          arith,
          count-running-stopped (unknown_where i v stage) (made_unknown now v) db.tasks
              (λ t e. absurd (cc (made_unknown-stopped now v t))),
          inv.within,
        ))
        (rw found) inv

  pub mark_verification_unknown-Inv :
      (now i v : ℕ) (stage event_type : String) (db : Db)
      → Inv s db
      → Inv s (mark_verification_unknown now i v stage event_type db).1
  unfolding mark_verification_unknown add_event reread
  mark_verification_unknown-Inv now i v stage event_type db inv =
      ground (arith, made_unknown-Inv now i v stage event_type db)
