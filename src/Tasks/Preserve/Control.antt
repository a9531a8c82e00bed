-- ===== src/Tasks/Preserve/Control.antt =====
-- `request_cancel`, `retry` and `recover_interrupted` keep the invariant.
use nsfwtrack.Base.{ℕ, ◌+◌, ◌≡◌, refl, List, [], ◌∷◌, arith}
use nsfwtrack.Tasks.Store.{OperationTask, Db, Result, ok, err, fault, has_id}
use nsfwtrack.Tasks.Service.{Service, get, transition}
use nsfwtrack.Tasks.Control.{
  flagged, flag_cancel, cancel_move, request_cancel, plain_move, retry, recovery_move, recover_next,
  recover_from, recover_interrupted,
}
use nsfwtrack.Tasks.Contracts.{queued}
use nsfwtrack.Tasks.Invariant.{Inv, Inv-kept}
use nsfwtrack.Tasks.Preserve.{transition-Inv}

module _ (s : Service) where
  flag_cancel-Inv : (i : ℕ) (o : Result OperationTask × Db) → Inv s o.1 → Inv s (flag_cancel i o).1
  unfolding flag_cancel
  flag_cancel-Inv i (ok t, db) inv =
      Inv-kept (has_id i) flagged s db (λ u. (refl, refl, refl))
        (λ u _ l. record { expires = l.expires; active = l.active }) inv
  flag_cancel-Inv i (err e, db) inv =
      Inv-kept (has_id i) flagged s db (λ u. (refl, refl, refl))
        (λ u _ l. record { expires = l.expires; active = l.active }) inv
  flag_cancel-Inv i (fault, db) inv =
      Inv-kept (has_id i) flagged s db (λ u. (refl, refl, refl))
        (λ u _ l. record { expires = l.expires; active = l.active }) inv

  pub request_cancel-Inv :
      (now : ℕ) (other : Db → Db) (i v : ℕ) (db : Db)
      → Inv s db
      → Inv s (other db)
      → Inv s (request_cancel s now other i v db).1
  unfolding request_cancel
  request_cancel-Inv now other i v db inv meanwhile = read (get i db) refl
    where
      read : (g : Result OperationTask) → get i db ≡ g → Inv s (request_cancel s now other i v db).1
      read (err e) q = rw (q, request_cancel) inv
      read fault q = rw (q, request_cancel) inv
      read (ok t) q =
          rw (q, request_cancel)
            (ground (
              arith,
              flag_cancel-Inv i (transition s now other (cancel_move i t.state v) db)
                  (transition-Inv s now other (cancel_move i t.state v) db inv meanwhile),
            ))

  pub retry-Inv :
      (now : ℕ) (other : Db → Db) (i v : ℕ) (db : Db)
      → Inv s db
      → Inv s (other db)
      → Inv s (retry s now other i v db).1
  unfolding retry
  retry-Inv now other i v db inv meanwhile =
      ground (
        arith,
        transition-Inv s now other (plain_move i queued v "retry_requested") db inv meanwhile,
      )

  recover_from-Inv :
      (now n : ℕ) (rows : List OperationTask) (db : Db)
      → Inv s db
      → Inv s (recover_from s now n rows db).1
  unfolding recover_from recover_next
  recover_from-Inv now n [] db inv = inv
  recover_from-Inv now n (t ∷ rows) db inv =
      next (transition s now (λ d. d) (recovery_move t) db)
        (transition-Inv s now (λ d. d) (recovery_move t) db inv inv)
        (λ db'. recover_from-Inv now (n + 1) rows db')
    where
      next :
          (o : Result OperationTask × Db)
          → Inv s o.1
          → ((db' : Db) → Inv s db' → Inv s (recover_from s now (n + 1) rows db').1)
          → Inv s (recover_next (λ db'. recover_from s now (n + 1) rows db') o).1
      next (ok u, db') h rest = rest db' h
      next (err e, db') h rest = h
      next (fault, db') h rest = h

  pub recover_interrupted-Inv :
      (now : ℕ) (db : Db) → Inv s db → Inv s (recover_interrupted s now db).1
  unfolding recover_interrupted
  recover_interrupted-Inv now db inv = recover_from-Inv now 0 _ db inv
