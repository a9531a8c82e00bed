-- ===== src/Tasks/Reach.antt =====
-- The tables that any number of sessions can reach by calls of the service. A call that reads before
-- it writes reads some reachable tables and writes on any others: what other sessions have made of
-- them. `recover_interrupted` runs at start-up, before there are other sessions.
use nsfwtrack.Base.{ℕ, String, List, [], arith}
use nsfwtrack.Tasks.Store.{Db, count_rows}
use nsfwtrack.Tasks.Service.{Service, NewTask, Move, create, transition}
use nsfwtrack.Tasks.Leases.{Beat, acquire_lease, heartbeat, mark_verification_unknown}
use nsfwtrack.Tasks.Control.{
  request_cancel, retry, recover_interrupted, delete_history, cleanup_history,
}
use nsfwtrack.Tasks.Invariant.{Inv}
use nsfwtrack.Tasks.Preserve.{transition-Inv}
use nsfwtrack.Tasks.Preserve.Leases.{
  acquire_lease-Inv, heartbeat-Inv, mark_verification_unknown-Inv,
}
use nsfwtrack.Tasks.Preserve.Control.{request_cancel-Inv, retry-Inv, recover_interrupted-Inv}
use nsfwtrack.Tasks.Preserve.Create.{create-Inv}
use nsfwtrack.Tasks.Preserve.Delete.{delete_history-Inv, cleanup_history-Inv}

pub data Reach (s : Service) : Db → Type 0 where
  start : (links : List ℕ) → Reach s (record { tasks = []; events = []; asset_tasks = links })
  links : {db : Db} (ids : List ℕ) → Reach s db → Reach s (record db { asset_tasks = ids })
  creates :
      {db found : Db} (now i : ℕ) (n : NewTask)
      → Reach s db
      → Reach s found
      → Reach s (create s now (λ _. found) i n db).1
  moves :
      {db found : Db} (now : ℕ) (m : Move)
      → Reach s db
      → Reach s found
      → Reach s (transition s now (λ _. found) m db).1
  leases :
      {db found : Db} (now i : ℕ) (owner : String) (v ttl : ℕ)
      → Reach s db
      → Reach s found
      → Reach s (acquire_lease now (λ _. found) i owner v ttl db).1
  beats : {db : Db} (now : ℕ) (b : Beat) → Reach s db → Reach s (heartbeat now b db).1
  doubts :
      {db : Db} (now i v : ℕ) (stage event : String)
      → Reach s db
      → Reach s (mark_verification_unknown now i v stage event db).1
  cancels :
      {db found : Db} (now i v : ℕ)
      → Reach s db
      → Reach s found
      → Reach s (request_cancel s now (λ _. found) i v db).1
  retries :
      {db found : Db} (now i v : ℕ)
      → Reach s db
      → Reach s found
      → Reach s (retry s now (λ _. found) i v db).1
  recovers : {db : Db} (now : ℕ) → Reach s db → Reach s (recover_interrupted s now db).1
  deletes :
      {db found : Db} (i : ℕ)
      → Reach s db
      → Reach s found
      → Reach s (delete_history (λ _. found) i db).1
  cleans :
      {db found : Db} (now days limit : ℕ)
      → Reach s db
      → Reach s found
      → Reach s (cleanup_history now (λ _. found) days limit db).1

-- All reachable tables satisfy the invariant: ids are distinct, at most `max_concurrency` tasks run,
-- a lease is held by running and cancelling tasks alone, each task's last event has the task's version
-- and state, and each event has its task.
pub Reach-Inv : (s : Service) {db : Db} → Reach s db → Inv s db
unfolding count_rows
Reach-Inv s (start ids) = record {
  distinct = tt;
  within = omega arith;
  leases = tt;
  audit = tt;
  owned = tt;
}
Reach-Inv s (links {db = db} ids r) =
    let h = Reach-Inv s r in
    record {
      distinct = h.distinct;
      within = h.within;
      leases = h.leases;
      audit = h.audit;
      owned = h.owned;
    }
Reach-Inv s (creates {db = db} {found = found} now i n r q) =
    create-Inv s now (λ _. found) i n db (Reach-Inv s r) (Reach-Inv s q)
Reach-Inv s (moves {db = db} {found = found} now m r q) =
    transition-Inv s now (λ _. found) m db (Reach-Inv s r) (Reach-Inv s q)
Reach-Inv s (leases {db = db} {found = found} now i owner v ttl r q) =
    acquire_lease-Inv s now (λ _. found) i owner v ttl db (Reach-Inv s r) (Reach-Inv s q)
Reach-Inv s (beats {db = db} now b r) = heartbeat-Inv s now b db (Reach-Inv s r)
Reach-Inv s (doubts {db = db} now i v stage event r) =
    mark_verification_unknown-Inv s now i v stage event db (Reach-Inv s r)
Reach-Inv s (cancels {db = db} {found = found} now i v r q) =
    request_cancel-Inv s now (λ _. found) i v db (Reach-Inv s r) (Reach-Inv s q)
Reach-Inv s (retries {db = db} {found = found} now i v r q) =
    retry-Inv s now (λ _. found) i v db (Reach-Inv s r) (Reach-Inv s q)
Reach-Inv s (recovers {db = db} now r) = recover_interrupted-Inv s now db (Reach-Inv s r)
Reach-Inv s (deletes {db = db} {found = found} i r q) =
    delete_history-Inv s (λ _. found) i db (Reach-Inv s r) (Reach-Inv s q)
Reach-Inv s (cleans {db = db} {found = found} now days limit r q) =
    cleanup_history-Inv s now (λ _. found) days limit db (Reach-Inv s r) (Reach-Inv s q)
