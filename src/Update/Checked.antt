-- ===== src/Update/Checked.antt =====
-- app/source_update/service.py, `execute_source_check`: what a check leaves behind.
use nsfwtrack.Base.{
  ℕ, true, false, not, ◌&&◌, Option, none, some, [], ◌∷◌, ◌++◌, any, ◌==◌, ◌≡◌, refl, arith,
  Bool-cases, inl, inr, ◌⊎◌,
}
use nsfwtrack.Tasks.Contracts.{running, succeeded, failed, state_eq}
use nsfwtrack.Tasks.Store as Rows
use nsfwtrack.Tasks.Store.{OperationTask, Db, find_row}
use nsfwtrack.Tasks.Service.{Service, transition, get}
use nsfwtrack.Update.Contracts.{
  source_not_available, provider_failed, Result, ok, err, value_error, Item, ItemSource,
  SourceCheckFact, Store, item_row, source_row, Std,
}
use nsfwtrack.Update.Check.{
  Detail, CheckWorld, check_move, fact_of, CheckOutcome, with_db, check_failed, record_fact, reread,
  answered,
}

-- The tables differ in the tasks at most.
pub record Same (mid s' : Store) : Type 0 where
  pub items_same : s'.items ≡ mid.items
  pub sources_same : s'.sources ≡ mid.sources
  pub facts_same : s'.facts ≡ mid.facts

-- One more fact, of the detail that the provider gave, of the item as it is and of this source.
pub record Learned (std : Std) (w : CheckWorld) (ttl item_id : ℕ) (mid s' : Store) (d : Detail)
    (item : Item) (source : ItemSource) (i : ℕ) : Type 0 where
  pub given : w.answer ≡ some d
  pub the_item : item_row item_id mid.items ≡ some item
  pub first_fact : any (λ (f : SourceCheckFact). f.fact_task_id == i) mid.facts ≡ false
  pub items_kept : s'.items ≡ mid.items
  pub sources_kept : s'.sources ≡ mid.sources
  pub facts_more : s'.facts ≡ mid.facts ++ (fact_of std i w.later ttl item source d ∷ [])

-- What a check that failed leaves of the tables `mid`.
abbrev pub Failed : Store → Result OperationTask → Store → Type 0
Failed mid (ok t) s' = ⊥
Failed mid (err provider_failed) s' = Same mid s'
Failed mid (err e) s' = ⊥
Failed mid value_error s' = Same mid s'

-- What a check leaves of the tables `mid` that it finds when the provider, asked for `source`, has
-- answered.
abbrev pub LeftOf :
    Std → CheckWorld → ℕ → ℕ → ItemSource → Store → Result OperationTask → Store → Type 0
LeftOf std w ttl item_id source mid (ok t) s' =
    (d : Detail) × (item : Item) × (i : ℕ) × Learned std w ttl item_id mid s' d item source i
LeftOf std w ttl item_id source mid r s' = Failed mid r s'

-- What a check leaves of the tables `x` with its task started.
abbrev pub LeftOfStart :
    Std → CheckWorld → ℕ → ℕ → ℕ → Store → Result OperationTask → Store → Type 0
LeftOfStart std w ttl item_id source_id x r s' =
    ((source_row source_id x.sources ≡ none) × Failed x r s')
    ⊎ ((source : ItemSource) × (source_row source_id x.sources ≡ some source)
        × LeftOf std w ttl item_id source (w.meanwhile x) r s')

-- What a check leaves of the tables `s` before it.
abbrev pub Left : Std → CheckWorld → ℕ → ℕ → ℕ → Store → Result OperationTask → Store → Type 0
Left std w ttl item_id source_id s r s' =
    ((s' ≡ s) × (r ≡ err source_not_available ⊎ r ≡ value_error))
    ⊎ ((started : Db) × LeftOfStart std w ttl item_id source_id (w.between (with_db s started)) r
          s')

module _ (service : Service) (w : CheckWorld) (mid : Store) where
  abbrev HasFailed : CheckOutcome → Type 0
  HasFailed o = Failed mid o.0 o.1

  same : (db : Db) → Same mid (with_db mid db)
  same db = record { items_same = refl; sources_same = refl; facts_same = refl }

  check_failed-Failed : (i : ℕ) → HasFailed (check_failed service w i mid)
  unfolding check_failed
  check_failed-Failed i = by_task (get i mid.db) refl
    where
      by_move :
          (t : OperationTask) (r : Rows.Result OperationTask)
          → get i mid.db ≡ Rows.ok t
          → (transition service w.later
              (λ db. db)
              (check_move i t.version failed "source_check_failed" (some "provider_failed"))
              mid.db).0
            ≡ r
          → HasFailed (check_failed service w i mid)
      by_move t r e g = elim (Bool-cases (state_eq t.state running)) [
        | inr f ↦ rw (check_failed, e, f) (same mid.db)
        | inl f ↦ by_running t r e g f
      ]
        where
          by_running :
              (t : OperationTask) (r : Rows.Result OperationTask)
              → get i mid.db ≡ Rows.ok t
              → (transition service w.later
                  (λ db. db)
                  (check_move i t.version failed "source_check_failed" (some "provider_failed"))
                  mid.db).0
                ≡ r
              → state_eq t.state running ≡ true
              → HasFailed (check_failed service w i mid)
          by_running t (Rows.err x) e g f = rw (check_failed, e, f, g) (same mid.db)
          by_running t Rows.fault e g f = rw (check_failed, e, f, g) (same mid.db)
          by_running t (Rows.ok t') e g f = rw (check_failed, e, f, g) (same _)

      by_task :
          (r : Rows.Result OperationTask)
          → get i mid.db ≡ r
          → HasFailed (check_failed service w i mid)
      by_task (Rows.err x) e = rw (check_failed, e) (same mid.db)
      by_task Rows.fault e = rw (check_failed, e) (same mid.db)
      by_task (Rows.ok t) e = by_move t _ e refl

module _ (std : Std) (service : Service) (w : CheckWorld) (ttl item_id : ℕ) (source : ItemSource)
    (mid : Store) where
  abbrev IsLeft : CheckOutcome → Type 0
  IsLeft o = LeftOf std w ttl item_id source mid o.0 o.1

  Failed-Left :
      (r : Result OperationTask) (s' : Store)
      → Failed mid r s'
      → LeftOf std w ttl item_id source mid r s'
  Failed-Left (ok t) s' h = absurd h
  Failed-Left (err e) s' h = h
  Failed-Left value_error s' h = h

  check_failed-Left : (i : ℕ) → IsLeft (check_failed service w i mid)
  check_failed-Left i =
      Failed-Left (check_failed service w i mid).0 (check_failed service w i mid).1
        (check_failed-Failed service w mid i)

  record_fact-Left :
      (t : OperationTask) (item : Item) (d : Detail)
      → w.answer ≡ some d
      → item_row item_id mid.items ≡ some item
      → IsLeft (record_fact std service w ttl item source t d mid)
  unfolding record_fact
  record_fact-Left t item d a b = by_move _ refl
    where
      by_move :
          (r : Rows.Result OperationTask)
          → (transition service w.later
              (λ db. db)
              (check_move t.id t.version succeeded "source_check_succeeded" none)
              mid.db).0
            ≡ r
          → IsLeft (record_fact std service w ttl item source t d mid)
      by_move (Rows.err x) e = rw (record_fact, e) (check_failed-Left t.id)
      by_move Rows.fault e = rw (record_fact, e) (check_failed-Left t.id)
      by_move (Rows.ok t') e =
          elim (Bool-cases
            (w.stores && not (any (λ (f : SourceCheckFact). f.fact_task_id == t.id) mid.facts))) [
              | inr f ↦ rw (record_fact, e, f) (check_failed-Left t.id)
              | inl f ↦
                  rw (record_fact, e, f)
                    (
                      d,
                      item,
                      t.id,
                      record {
                        given = a;
                        the_item = b;
                        first_fact = ground (arith, f);
                        items_kept = refl;
                        sources_kept = refl;
                        facts_more = refl;
                      },
                    )
            ]

  reread-Left :
      (i : ℕ) (d : Detail) (t : Option OperationTask) (o : Option Item)
      → w.answer ≡ some d
      → item_row item_id mid.items ≡ o
      → IsLeft (reread std service w ttl source i d mid t o)
  unfolding reread
  reread-Left i d none o a b = check_failed-Left i
  reread-Left i d (some t) none a b = check_failed-Left i
  reread-Left i d (some t) (some item) a b = record_fact-Left t item d a b

  pub answered-Left :
      (i : ℕ) (o : Option Detail)
      → w.answer ≡ o
      → IsLeft (answered std service w ttl item_id source i o mid)
  unfolding answered
  answered-Left i none a = check_failed-Left i
  answered-Left i (some d) a =
      reread-Left i d (find_row i mid.db.tasks) (item_row item_id mid.items) a refl

module _ (std : Std) (service : Service) (w : CheckWorld) (ttl item_id source_id : ℕ)
    (s : Store) where
  abbrev Leaves : CheckOutcome → Type 0
  Leaves o = Left std w ttl item_id source_id s o.0 o.1
