-- ===== src/Tasks/Cleanup.antt =====
-- app/tasks/service.py, `delete_history` and `cleanup_history`: what they may delete.
use nsfwtrack.Base.{
  ℕ, zero, suc, ◌||◌, ◌≤◌, ◌≡◌, refl, sym, ap, ◌∙◌, true, false, Bool, some, List, [], ◌∷◌, arith,
  All, All-map, filter, take, map, length, ◌==◌,
}
use nsfwtrack.Tasks.Store.{OperationTask, Db, ok, find_row}
use nsfwtrack.Tasks.Control.{
  cleanable, order_rows, insert_ordered, candidates, among, cleanup_history,
}
use nsfwtrack.Tasks.Preserve.Delete.{keeps_task, find_row-filter}
use nsfwtrack.Tasks.Rows.{Distinct, found_self}

-- Membership by id of the selected rows goes back to a cleanable row of the table.
among-take : (n i : ℕ) (ids : List ℕ) → among (take n ids) i ≡ true → among ids i ≡ true
among-take zero i ids h = absurd (cc)
among-take (suc n) i [] h = absurd (cc)
among-take (suc n) i (j ∷ ids) h = ground (arith, among-take n i ids)

among-insert :
    (i : ℕ) (t : OperationTask) (us : List OperationTask)
    → among (map (λ u. u.id) (insert_ordered t us)) i ≡ (t.id == i || among (map (λ u. u.id) us) i)
unfolding insert_ordered
among-insert i t [] = ground arith
among-insert i t (u ∷ us) = ground (arith, among-insert i t us)

among-order :
    (i : ℕ) (ts : List OperationTask)
    → among (map (λ u. u.id) (order_rows ts)) i ≡ among (map (λ u. u.id) ts) i
unfolding order_rows
among-order i [] = refl
among-order i (t ∷ ts) =
    among-insert i t (order_rows ts) ∙ ap (λ b. t.id == i || b) (among-order i ts)

length-take-le : (n : ℕ) (ids : List ℕ) → length (take n ids) ≤ n
length-take-le zero ids = omega arith
length-take-le (suc n) [] = omega arith
length-take-le (suc n) (i ∷ ids) = omega (arith, length-take-le n ids)

-- The ids of the rows that may go, before the limit cuts them.
abbrev all_candidates : ℕ → ℕ → Db → List ℕ
all_candidates now age db = map (λ t. t.id) (order_rows (filter (cleanable now age db) db.tasks))

among-candidates :
    (now age limit i : ℕ) (db : Db)
    → among (candidates now age limit db) i ≡ true
    → among (map (λ t. t.id) (filter (cleanable now age db) db.tasks)) i ≡ true
unfolding candidates
among-candidates now age limit i db h =
    sym (among-order i (filter (cleanable now age db) db.tasks))
    ∙ among-take limit i (all_candidates now age db) h

candidates-le : (now age limit : ℕ) (db : Db) → length (candidates now age limit db) ≤ limit
unfolding candidates
candidates-le now age limit db = length-take-le limit (all_candidates now age db)

not_true : (b : Bool) → (b ≡ true → ⊥) → b ≡ false
not_true true h = absurd (h refl)
not_true false h = refl

-- What is left of a row after a clean-up.
abbrev pub Kept : Db → OperationTask → Type 0
Kept db t = find_row t.id db.tasks ≡ some t

cleanup_history-ok :
    (now : ℕ) (other : Db → Db) (age limit : ℕ) (db : Db) {n : ℕ} {db' : Db}
    → cleanup_history now other age limit db ≡ (ok n, db')
    → (n ≡ length (candidates now age limit db))
      × (db'.tasks ≡ filter (keeps_task (among (candidates now age limit db))) (other db).tasks)
unfolding cleanup_history
cleanup_history-ok now other age limit db h = ground arith

-- A row that fitted the condition has this row's id.
abbrev pub selected : ℕ → ℕ → Db → OperationTask → Bool
selected now age db t = among (map (λ u. u.id) (filter (cleanable now age db) db.tasks)) t.id

-- A clean-up reports at most `limit` deletions, and, whatever other sessions commit between its two
-- statements, deletes no row but one whose id was selected: the id of a row that, when it was read, had
-- finished long enough ago as cancelled, succeeded or failed and was linked to no asset.
pub cleanup_history-safe :
    (now : ℕ) (other : Db → Db) (age limit : ℕ) (db : Db) {n : ℕ} {db' : Db}
    → Distinct (other db).tasks
    → cleanup_history now other age limit db ≡ (ok n, db')
    → (n ≤ limit) × All (λ t. selected now age db t ≡ false → Kept db' t) (other db).tasks
cleanup_history-safe now other age limit db {db' = db'} d h =
    let (counted, left) = cleanup_history-ok now other age limit db h in
    let ids = candidates now age limit db in
    (
      rw counted (candidates-le now age limit db),
      All-map (Kept (other db)) (λ t. selected now age db t ≡ false → Kept db' t) (other db).tasks
          (λ t k no. rw left (
            find_row-filter (among ids) t.id (other db).tasks
              (not_true (among ids t.id) (λ y. cc (no, among-candidates now age limit t.id db y)))
            ∙ k))
          (found_self (other db).tasks d),
    )
