-- ===== src/Tasks/Fencing.antt =====
-- app/tasks/service.py, `acquire_lease`, `heartbeat`, `request_cancel`: who may hold a lease, whom a
-- newer lease shuts out, and that an open task can be cancelled.
use mathlib.Core.Option.{some-injective}
use mathlib.Core.Path.{subst}
use nsfwtrack.Tasks.Text.{safe_code}
use nsfwtrack.Base.{
  ℕ, ◌+◌, ◌≤◌, ◌<◌, ◌≡◌, refl, sym, ap, ◌∙◌, ◌≢◌, true, false, Bool, none, some, arith, String,
  str_eq_iff,
}
use nsfwtrack.Tasks.Contracts.{TaskState, outcome_unknown, state_eq, is_closed}
use nsfwtrack.Tasks.Store.{
  OperationTask, Db, Result, ok, err, fault, is_ok, find_row, count_rows, update_rows,
}
use nsfwtrack.Tasks.Service.{Service, get, refusal, transition}
use nsfwtrack.Tasks.Leases.{
  Beat, lease_where, leased, write_lease, acquire_lease, beat_where, beaten, heartbeat,
}
use nsfwtrack.Tasks.Control.{request_cancel, flag_cancel, flagged, cancel_move}
use nsfwtrack.Tasks.Rows.{Distinct, find_row-hit, find_row-written}
use nsfwtrack.Tasks.Outcomes.{cancel_target_allowed, transition_result, expected_result}
use nsfwtrack.Tasks.Optimistic.{transition_set, get-ok, find_row-id}
use nsfwtrack.Tasks.Invariant.{Inv}

-- A lease write that returns hit one row, and returns what it made of it.
write_lease-ok :
    (i : ℕ) (p : OperationTask → Bool) (f : OperationTask → OperationTask) (db : Db)
    {r : OperationTask} {db' : Db}
    → write_lease i p f db ≡ (ok r, db')
    → (count_rows p db.tasks ≡ 1) × (db'.tasks ≡ update_rows p f db.tasks) × (get i db' ≡ ok r)
unfolding write_lease
write_lease-ok i p f db h = ground arith

acquire_lease-ok :
    (now : ℕ) (other : Db → Db) (i : ℕ) (owner : String) (v ttl : ℕ) (db : Db) {r : OperationTask}
    {db' : Db}
    → acquire_lease now other i owner v ttl db ≡ (ok r, db')
    → write_lease i (lease_where now i owner v) (leased now owner ttl) (other db) ≡ (ok r, db')
unfolding acquire_lease
acquire_lease-ok now other i owner v ttl db h = ground arith

heartbeat-ok :
    (now : ℕ) (b : Beat) (db : Db) {r : OperationTask} {db' : Db}
    → heartbeat now b db ≡ (ok r, db')
    → write_lease b.task_id (beat_where now b) (beaten now b) db ≡ (ok r, db')
unfolding heartbeat
heartbeat-ok now b db h = ground arith

lease_where-id :
    (now i : ℕ) (owner : String) (v : ℕ) (t : OperationTask)
    → lease_where now i owner v t ≡ true
    → t.id ≡ i
unfolding lease_where
lease_where-id now i owner v t h = ground arith

lease_where-held :
    (now i : ℕ) (owner holder : String) (v e : ℕ) (t : OperationTask)
    → t.lease_owner ≡ some holder
    → holder ≢ owner
    → t.lease_expires_at ≡ some e
    → now < e
    → lease_where now i owner v t ≡ false
unfolding lease_where
lease_where-held now i owner holder v e t held ne expires live =
    ground (arith, str_eq_iff holder owner)

beat_where-id :
    (now : ℕ) (b : Beat) (t : OperationTask)
    → beat_where now b t ≡ true
    → (t.id ≡ b.task_id) × (t.lease_generation ≡ b.generation)
unfolding beat_where
beat_where-id now b t h = ground arith

leased-KeepsId :
    (now : ℕ) (owner : String) (ttl : ℕ) (t : OperationTask) → (leased now owner ttl t).id ≡ t.id
unfolding leased
leased-KeepsId now owner ttl t = refl

leased-generation :
    (now : ℕ) (owner : String) (ttl : ℕ) (t : OperationTask)
    → (leased now owner ttl t).lease_generation ≡ t.lease_generation + 1
unfolding leased
leased-generation now owner ttl t = refl

-- A call fails if no outcome of it can be a return.
never_ok :
    {A : Type 0} (o : Result A × Db)
    → ((a : A) (db' : Db) → o ≡ (ok a, db') → ⊥)
    → is_ok o.0 ≡ false
never_ok (ok a, db') k = absurd (k a db' refl)
never_ok (err e, db') k = refl
never_ok (fault, db') k = refl

-- A lease that is held by another owner and has not expired cannot be acquired.
pub acquire_lease_exclusive :
    (now : ℕ) (other : Db → Db) (i : ℕ) (owner holder : String) (v ttl e : ℕ) (db : Db)
    {t : OperationTask}
    → Distinct (other db).tasks
    → find_row i (other db).tasks ≡ some t
    → t.lease_owner ≡ some holder
    → holder ≢ owner
    → t.lease_expires_at ≡ some e
    → now < e
    → is_ok (acquire_lease now other i owner v ttl db).0 ≡ false
acquire_lease_exclusive now other i owner holder v ttl e db {t = t} d found held ne expires live =
    never_ok (acquire_lease now other i owner v ttl db) (λ r db' q.
      let p = lease_where now i owner v in
      let (once, _, _) =
        write_lease-ok i p (leased now owner ttl) (other db)
          (acquire_lease-ok now other i owner v ttl db q) in
      let (u, found', hit) =
        find_row-hit p i (other db).tasks (lease_where-id now i owner v) d once in
      let same : u ≡ t = some-injective u t (sym found' ∙ found) in
      let no_hit = lease_where-held now i owner holder v e t held ne expires live in
      absurd (cc (rw same at hit)))

-- A heartbeat under another generation than the row's is refused.
other_generation-refused :
    (now : ℕ) (b : Beat) (db : Db) {t : OperationTask}
    → Distinct db.tasks
    → find_row b.task_id db.tasks ≡ some t
    → b.generation ≢ t.lease_generation
    → is_ok (heartbeat now b db).0 ≡ false
other_generation-refused now b db {t = t} d found ne = never_ok (heartbeat now b db) (λ r db' q.
    let (once, _, _) =
      write_lease-ok b.task_id (beat_where now b) (beaten now b) db (heartbeat-ok now b db q) in
    let (u, found', hit) =
      find_row-hit (beat_where now b) b.task_id db.tasks (λ x k. (beat_where-id now b x k).0) d
        once in
    let same : u ≡ t = some-injective u t (sym found' ∙ found) in
    absurd (ne (sym (beat_where-id now b u hit).1 ∙ ap (λ x. x.lease_generation) same)))

-- To acquire a lease raises the generation by one, whatever other sessions commit before its
-- statement. From then on, in any tables where the generation has not been lowered again, each
-- heartbeat under an earlier one is refused, its owner and its time whatever they are.
pub stale-heartbeat :
    (now now' : ℕ) (other : Db → Db) (i : ℕ) (owner : String) (v ttl : ℕ) (b : Beat) (db later : Db)
    {t r u : OperationTask} {db' : Db}
    → Distinct (other db).tasks
    → find_row i (other db).tasks ≡ some t
    → acquire_lease now other i owner v ttl db ≡ (ok r, db')
    → Distinct later.tasks
    → find_row i later.tasks ≡ some u
    → r.lease_generation ≤ u.lease_generation
    → b.task_id ≡ i
    → b.generation ≤ t.lease_generation
    → (r.lease_generation ≡ t.lease_generation + 1) × (is_ok (heartbeat now' b later).0 ≡ false)
stale-heartbeat now now' other i owner v ttl b db later {t = t} {r = r} {u = u} {db' = db'} d found
      h d' found' kept same old =
    let p = lease_where now i owner v in
    let f = leased now owner ttl in
    let (once, rows, back) =
      write_lease-ok i p f (other db) (acquire_lease-ok now other i owner v ttl db h) in
    let (x, at, _, made) =
      find_row-written p f i (other db).tasks (leased-KeepsId now owner ttl)
        (lease_where-id now i owner v) d once in
    let is_t : x ≡ t = some-injective x t (sym at ∙ found) in
    let is_r : r ≡ f x =
      some-injective r (f x) (sym (get-ok i db' back) ∙ ap (find_row i) rows ∙ made) in
    let raised : r.lease_generation ≡ t.lease_generation + 1 =
      ap (λ y. y.lease_generation) is_r
      ∙ leased-generation now owner ttl x
      ∙ ap (λ y. y.lease_generation + 1) is_t in
    (
      raised,
      other_generation-refused now' b later d' (ap (λ j. find_row j later.tasks) same ∙ found')
          (λ e. omega (arith, e, raised, kept, old)),
    )

cancel-unrefused :
    (s : Service) (t : OperationTask) (v : ℕ) (db : Db)
    → is_closed t.state ≡ false
    → 0 < v
    → t.version ≡ v
    → refusal s (cancel_move t.id t.state v) t db ≡ none
unfolding refusal safe_code state_eq
cancel-unrefused s t v db open_state pos at = ground (arith, cancel_target_allowed t.state)

flag_cancel-ok :
    (i : ℕ) (o : Result OperationTask × Db) {t : OperationTask}
    → o.0 ≡ ok t
    → (flag_cancel i o).0 ≡ ok (flagged t)
unfolding flag_cancel
flag_cancel-ok i (ok u, db) h = cc
flag_cancel-ok i (err e, db) h = absurd (cc)
flag_cancel-ok i (fault, db) h = absurd (cc)

open_known : (st : TaskState) → is_closed st ≡ false → state_eq st outcome_unknown ≡ false
unfolding state_eq
open_known st h = ground arith

-- With no other session in between, an open task at the expected version can always be cancelled: it
-- becomes cancelling if it runs and cancelled otherwise, flagged and one version on.
pub request_cancel-returns :
    (s : Service) (now i v : ℕ) (db : Db) {t : OperationTask}
    → Inv s db
    → get i db ≡ ok t
    → is_closed t.state ≡ false
    → 0 < v
    → t.version ≡ v
    → (request_cancel s now (λ d. d) i v db).0
      ≡ ok (flagged (transition_set s now (cancel_move i t.state v) t t))
unfolding request_cancel
request_cancel-returns s now i v db {t = t} inv read open_state pos at =
    let m = cancel_move i t.state v in
    let same = find_row-id i db.tasks (get-ok i db read) in
    let free : refusal s m t db ≡ none =
      subst (λ j. refusal s (cancel_move j t.state v) t db ≡ none) same
        (cancel-unrefused s t v db open_state pos at) in
    let moved : (transition s now (λ d. d) m db).0 ≡ ok (transition_set s now m t t) =
      transition_result s now m db inv
      ∙ rw (read, expected_result) (rw (free, expected_result) refl) in
    let flagged_too = flag_cancel-ok i (transition s now (λ d. d) m db) moved in
    rw (read, request_cancel) (rw (open_state, open_known t.state open_state) flagged_too)
