-- ===== src/Update/Answered.antt =====
-- app/source_update/service.py, `execute_source_check`: how a check went that returned its task.
use nsfwtrack.Base.{
  ℕ, Bool, true, false, not, ◌&&◌, ◌||◌, Option, none, some, [], ◌∷◌, ◌++◌, any, leb, is_some,
  if◌then◌else◌, ◌==◌, ◌≡◌, refl, sym, ap, ◌∙◌, arith, Bool-cases, inl, inr,
}
use nsfwtrack.Tasks.Contracts.{running, succeeded}
use nsfwtrack.Tasks.Store as Rows
use nsfwtrack.Tasks.Store.{OperationTask, Db, find_row}
use nsfwtrack.Tasks.Service.{Service, create, transition}
use nsfwtrack.Tasks.Invariant.{Inv}
use nsfwtrack.Tasks.Preserve.{transition-Inv}
use nsfwtrack.Tasks.Preserve.Create.{create-Inv}
use nsfwtrack.Update.Contracts.{
  source_not_available, Result, ok, err, value_error, Item, ItemSource, SourceCheckFact, Store,
  item_row, source_row, Std,
}
use nsfwtrack.Update.Check.{
  requested, Detail, CheckWorld, check_task, check_move, fact_of, CheckOutcome, with_db,
  check_failed, record_fact, reread, answered, begin_check, linked, check_rows,
  execute_source_check,
}

-- The check's result, if it is a task.
abbrev is_task : Result OperationTask → Bool
is_task (ok t) = true
is_task _ = false

check_failed-no_task :
    (service : Service) (w : CheckWorld) (i : ℕ) (s : Store)
    → is_task (check_failed service w i s).0 ≡ false
unfolding check_failed
check_failed-no_task service w i s = ground arith

module _ (std : Std) (service : Service) (w : CheckWorld) (ttl item_id source_id : ℕ) where
  -- How a check ended that returned a task: its transition, and the fact that it added.
  pub record Recorded (mid : Store) (t : OperationTask) (d : Detail) (item : Item)
      (source : ItemSource) (r : OperationTask) (s' : Store) : Type 0 where
    pub ended :
        transition service w.later
          (λ db. db)
          (check_move t.id t.version succeeded "source_check_succeeded" none)
          mid.db
        ≡ (Rows.ok r, s'.db)
    pub first : any (λ (f : SourceCheckFact). f.fact_task_id == t.id) mid.facts ≡ false
    pub items : s'.items ≡ mid.items
    pub sources : s'.sources ≡ mid.sources
    pub facts : s'.facts ≡ mid.facts ++ (fact_of std t.id w.later ttl item source d ∷ [])

  failed_absurd :
      {A : Type 0} (i : ℕ) (s : Store) {r : OperationTask} {s' : Store}
      → check_failed service w i s ≡ (ok r, s')
      → A
  failed_absurd i s h =
      absurd (cc (check_failed-no_task service w i s, ap (λ (o : CheckOutcome). is_task o.0) h))

  module _ (mid : Store) (t : OperationTask) (d : Detail) (item : Item) (source : ItemSource) where
    -- The tables with the task moved and the fact added.
    abbrev pub recorded : Db → Store
    recorded db = record mid {
      db = db;
      facts = mid.facts ++ (fact_of std t.id w.later ttl item source d ∷ []);
    }

    abbrev pub stores_first : Bool
    stores_first = w.stores && not (any (λ (f : SourceCheckFact). f.fact_task_id == t.id) mid.facts)

    abbrev pub after_move : Rows.Result OperationTask × Db → CheckOutcome
    after_move o = elim o.0 [
      | Rows.err e ↦ check_failed service w t.id mid
      | Rows.fault ↦ check_failed service w t.id mid
      | Rows.ok u ↦ if stores_first then (ok u, recorded o.1) else check_failed service w t.id mid
    ]

    moved-Recorded :
        (o : Rows.Result OperationTask × Db) {r : OperationTask} {s' : Store}
        → transition service w.later
            (λ db. db)
            (check_move t.id t.version succeeded "source_check_succeeded" none)
            mid.db
          ≡ o
        → after_move o ≡ (ok r, s')
        → Recorded mid t d item source r s'
    moved-Recorded (Rows.err e, db) q h = failed_absurd t.id mid h
    moved-Recorded (Rows.fault, db) q h = failed_absurd t.id mid h
    moved-Recorded (Rows.ok u, db) {r = r} {s' = s'} q h = elim (Bool-cases stores_first) [
      | inr f ↦ failed_absurd t.id mid (rw f at h)
      | inl f ↦
          let first : any (λ (f : SourceCheckFact). f.fact_task_id == t.id) mid.facts ≡ false =
            ground (arith, f) in
          let g : (ok u, recorded db) ≡ (ok r, s') = rw f at h in
          let same : u ≡ r = cc (ap (λ (o : CheckOutcome). o.0) g) in
          let left : recorded db ≡ s' = ap (λ (o : CheckOutcome). o.1) g in
          record {
            ended = q ∙ (λ i. (Rows.ok (same i), (left i).db));
            first = first;
            items = sym (ap (λ (x : Store). x.items) left);
            sources = sym (ap (λ (x : Store). x.sources) left);
            facts = sym (ap (λ (x : Store). x.facts) left);
          }
    ]

    record_fact-ok :
        {r : OperationTask} {s' : Store}
        → record_fact std service w ttl item source t d mid ≡ (ok r, s')
        → Recorded mid t d item source r s'
    unfolding record_fact
    record_fact-ok h = moved-Recorded _ refl h

  -- What the reading of the rows after the answer found.
  pub record Found (mid : Store) (i : ℕ) (r : OperationTask) (s' : Store) (t : OperationTask)
      (d : Detail) (item : Item) (source : ItemSource) : Type 0 where
    pub given : w.answer ≡ some d
    pub the_task : find_row i mid.db.tasks ≡ some t
    pub the_item : item_row item_id mid.items ≡ some item
    pub recorded_as : Recorded mid t d item source r s'

  abbrev pub Finds : ItemSource → Store → ℕ → OperationTask → Store → Type 0
  Finds source mid i r s' =
      (t : OperationTask) × (d : Detail) × (item : Item) × Found mid i r s' t d item source

  reread-ok :
      (source : ItemSource) (mid : Store) (i : ℕ) (d : Detail) (o : Option OperationTask)
      (p : Option Item) {r : OperationTask} {s' : Store}
      → w.answer ≡ some d
      → find_row i mid.db.tasks ≡ o
      → item_row item_id mid.items ≡ p
      → reread std service w ttl source i d mid o p ≡ (ok r, s')
      → Finds source mid i r s'
  unfolding reread
  reread-ok source mid i d none p a b c h = failed_absurd i mid h
  reread-ok source mid i d (some t) none a b c h = failed_absurd i mid h
  reread-ok source mid i d (some t) (some item) a b c h = (
    t,
    d,
    item,
    record {
      given = a;
      the_task = b;
      the_item = c;
      recorded_as = record_fact-ok mid t d item source h;
    },
  )

  pub answered-ok :
      (source : ItemSource) (mid : Store) (i : ℕ) (o : Option Detail) {r : OperationTask}
      {s' : Store}
      → w.answer ≡ o
      → answered std service w ttl item_id source i o mid ≡ (ok r, s')
      → Finds source mid i r s'
  unfolding answered
  answered-ok source mid i none a h = failed_absurd i mid h
  answered-ok source mid i (some d) a h =
      reread-ok source mid i d (find_row i mid.db.tasks) (item_row item_id mid.items) a refl refl h

  stopped_absurd :
      {A : Type 0} (e : Result OperationTask) (s : Store) {r : OperationTask} {s' : Store}
      → is_task e ≡ false
      → ◌≡◌ {A = CheckOutcome} (e, s) (ok r, s')
      → A
  stopped_absurd e s f h = absurd (cc (f, ap (λ (o : CheckOutcome). is_task o.0) h))

  -- The provider was asked for this source, from these tables, with the task started.
  pub record AskedFor (s : Store) (r : OperationTask) (s' : Store) (started : Db) (i : ℕ)
      (source : ItemSource) : Type 0 where
    pub started_inv : Inv service started
    pub the_source : source_row source_id (w.between (with_db s started)).sources ≡ some source
    pub returned :
        answered std service w ttl item_id source i w.answer
          (w.meanwhile (w.between (with_db s started)))
        ≡ (ok r, s')

  abbrev pub Asked : Store → OperationTask → Store → Type 0
  Asked s r s' = (started : Db) × (i : ℕ) × (source : ItemSource) × AskedFor s r s' started i source

  requested-Asked :
      (s : Store) (started : Db) (i : ℕ) (o : Option ItemSource) {r : OperationTask} {s' : Store}
      → Inv service started
      → source_row source_id (w.between (with_db s started)).sources ≡ o
      → requested std service w ttl item_id i o (w.between (with_db s started)) ≡ (ok r, s')
      → Asked s r s'
  unfolding requested
  requested-Asked s started i none k e h = failed_absurd i (w.between (with_db s started)) h
  requested-Asked s started i (some source) k e h =
      (started, i, source, record { started_inv = k; the_source = e; returned = h })

  module _ (s : Store) (source : ItemSource) (inv : Inv service s.db) where
    abbrev pub after_start : Rows.Result OperationTask × Db → CheckOutcome
    after_start o = elim o.0 [
      | Rows.err e ↦ (value_error, s)
      | Rows.fault ↦ (value_error, s)
      | Rows.ok t ↦
          requested std service w ttl item_id t.id
            (source_row source_id (w.between (with_db s o.1)).sources) (w.between (with_db s o.1))
    ]

    abbrev pub after_create : Rows.Result (OperationTask × Bool) × Db → CheckOutcome
    after_create o = elim o.0 [
      | Rows.err e ↦ (value_error, s)
      | Rows.fault ↦ (value_error, s)
      | Rows.ok t ↦ after_start (
          transition service w.now (λ db. db)
            (check_move t.0.id t.0.version running "source_check_started" none) o.1)
    ]

    started-Asked :
        (o : Rows.Result OperationTask × Db) {r : OperationTask} {s' : Store}
        → Inv service o.1
        → after_start o ≡ (ok r, s')
        → Asked s r s'
    started-Asked (Rows.err e, db) k h = stopped_absurd value_error s refl h
    started-Asked (Rows.fault, db) k h = stopped_absurd value_error s refl h
    started-Asked (Rows.ok t, db) k h =
        requested-Asked s db t.id (source_row source_id (w.between (with_db s db)).sources) k refl h

    created-Asked :
        (o : Rows.Result (OperationTask × Bool) × Db) {r : OperationTask} {s' : Store}
        → Inv service o.1
        → after_create o ≡ (ok r, s')
        → Asked s r s'
    created-Asked (Rows.err e, db) k h = stopped_absurd value_error s refl h
    created-Asked (Rows.fault, db) k h = stopped_absurd value_error s refl h
    created-Asked (Rows.ok t, db) k h =
        started-Asked _
          (transition-Inv service w.now (λ d. d)
            (check_move t.0.id t.0.version running "source_check_started" none) db k k)
          h

    begin_check-Asked :
        {r : OperationTask} {s' : Store}
        → begin_check std service w ttl item_id source_id source s ≡ (ok r, s')
        → Asked s r s'
    unfolding begin_check
    begin_check-Asked h =
        created-Asked
          (create service w.now (λ d. d) w.new_task_id
            (check_task std w.check_key item_id source_id source) s.db)
          (create-Inv service w.now (λ d. d) w.new_task_id
            (check_task std w.check_key item_id source_id source) s.db inv inv)
          h

  pub execute_source_check-Asked :
      (s : Store) {r : OperationTask} {s' : Store}
      → Inv service s.db
      → execute_source_check std service w item_id source_id ttl s ≡ (ok r, s')
      → Asked s r s'
  unfolding execute_source_check check_rows
  execute_source_check-Asked s {r = r} {s' = s'} inv h =
      by_rows (item_row item_id s.items) (linked (source_row source_id s.sources) item_id) h
    where
      by_rows :
          (o : Option Item) (p : Option ItemSource)
          → check_rows std service w ttl item_id source_id o p s ≡ (ok r, s')
          → Asked s r s'
      by_rows none p g = stopped_absurd (err source_not_available) s refl g
      by_rows (some item) none g = stopped_absurd (err source_not_available) s refl g
      by_rows (some item) (some source) g =
          elim (Bool-cases (
            not (is_some source.provider_key)
            || not (is_some source.external_id)
            || not (leb 30 ttl && leb ttl 1800))) [
              | inl e ↦ stopped_absurd (err source_not_available) s refl (rw (check_rows, e) at g)
              | inr e ↦ begin_check-Asked s source inv (rw (check_rows, e) at g)
            ]
