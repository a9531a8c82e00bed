-- ===== src/Update/Readings.antt =====
-- app/source_update/service.py, `_verify_manual_update_state`: the readings that find what is there.
use nsfwtrack.Base.{
  ℕ, String, Bool, true, some, List, [], ◌∷◌, ◌++◌, find, ==_iff, str_eq_iff, ◌≡◌, refl, arith,
  Bool-cases, inl, inr,
}
use nsfwtrack.Tasks.Contracts.{TaskState}
use nsfwtrack.Tasks.Store.{OperationTask}
use nsfwtrack.Update.Contracts.{
  Item, ItemSource, Store, item_row, source_row, Json, ManualUpdatePlan,
}
use nsfwtrack.Update.Verify.{
  same_json, same_proof, item_proof, source_proof, tasks_of, event_types, same_texts,
  expected_events, Expected, task_matches, check_matches, rows_match, verify_state,
}

same_json_refl : (a : Json) → same_json a a ≡ true
same_json_refl (Json.number n) = (==_iff n n).1 refl
same_json_refl (Json.string s) = (str_eq_iff s s).1 refl
same_json_refl Json.null = refl

same_proof_refl : (xs : List Json) → same_proof xs xs ≡ true
same_proof_refl [] = refl
same_proof_refl (x ∷ xs) = ground (arith, same_json_refl x, same_proof_refl xs)

pub find-append_left {ℓ} :
    {A : Type ℓ} (p : A → Bool) (xs ys : List A) (x : A)
    → find p xs ≡ some x
    → find p (xs ++ ys) ≡ some x
find-append_left p [] ys x h = absurd (cc)
find-append_left p (y ∷ xs) ys x h = elim (Bool-cases (p y)) [
  | inl e ↦ rw e (rw e at h)
  | inr e ↦ rw e (find-append_left p xs ys x (rw e at h))
]

pub rows_match-true :
    (plan : ManualUpdatePlan) (row item : Item) (source : ItemSource) (s : Store)
    → item_row plan.plan_item_id s.items ≡ some row
    → item_proof row ≡ item_proof item
    → source_row plan.plan_source_id s.sources ≡ some source
    → rows_match plan item source s ≡ true
unfolding rows_match
rows_match-true plan row item source s a e b =
    rw (a, b, e)
      (ground (arith, same_proof_refl (item_proof item), same_proof_refl (source_proof source)))

pub verify_state-true :
    (key : String) (x : Expected) (state : TaskState) (stage : String) (version : ℕ) (s : Store)
    (t : OperationTask)
    → rows_match x.plan x.item_after x.source_after s ≡ true
    → tasks_of key s ≡ t ∷ []
    → task_matches x state stage version t ≡ true
    → same_texts (event_types x.task_id s) (expected_events state) ≡ true
    → check_matches x s ≡ true
    → verify_state key x state stage version s ≡ true
unfolding verify_state
verify_state-true key x state stage version s t a b c d e = rw (a, b, c, d, e) refl
