-- ===== src/Update/Tests/Applied.antt =====
-- A plan that is built at a concrete input, then applied.
use nsfwtrack.Base.{
  ℕ, String, none, some, List, [], ◌∷◌, ◌≡◌, refl, ap, zero, suc, arith, count_where, codes, length,
  ◌==◌,
}
use nsfwtrack.Update.Contracts.{
  item_summary, source_last_checked_at, ManualUpdatePlan, Item, ItemSource, Std, item_row,
  source_row,
}
use nsfwtrack.Update.Closing.{outcome, stored}
use nsfwtrack.Update.Apply.{apply_manual_update}
use nsfwtrack.Update.Tables.{MayRun}
use nsfwtrack.Update.Applied.{ReadsTimes, Applies, apply_manual_update-build_manual_update_plan}
use nsfwtrack.Update.Again.{later, apply_manual_update_again}
use nsfwtrack.Update.Tests.{opened, std, svc, plan, checked, world}

-- Times written as so many strokes.
abbrev strokes : ℕ → String
strokes zero = ""
strokes (suc t) = String.◌∷◌ "|" (strokes t)

abbrev clock : Std
clock = record std { isoformat = strokes; fromisoformat = λ s. some (length (codes s)) }

length-strokes : (t : ℕ) → length (codes (strokes t)) ≡ t
length-strokes zero = refl
length-strokes (suc t) = ground (arith, length-strokes t)

clock-ReadsTimes : ReadsTimes clock
clock-ReadsTimes t = ap some (length-strokes t)

-- A change of the item and one of the source.
abbrev both : List String
both = "item.summary" ∷ "item_source.last_checked_at" ∷ []

abbrev both_plan : ManualUpdatePlan
both_plan = record plan {
  selected =
      record { field = item_summary; old = some "old"; new = some "new" }
      ∷ record { field = source_last_checked_at; old = none; new = some "|||||" }
      ∷ [];
}

checked-item_keys :
    (i : ℕ) (x : Item)
    → item_row i checked.items ≡ some x
    → count_where (λ (y : Item). y.item_id == i) checked.items ≡ 1
unfolding opened
checked-item_keys i x h = ground arith

checked-source_keys :
    (i : ℕ) (x : ItemSource)
    → source_row i checked.sources ≡ some x
    → count_where (λ (y : ItemSource). y.source_id == i) checked.sources ≡ 1
unfolding opened
checked-source_keys i x h = ground arith

checked-MayRun : MayRun 2 "metadata-update:x" svc checked.db
unfolding opened
checked-MayRun = record {
  positive = omega arith;
  safe = refl;
  unused = record { keys = (refl, tt); ids = (refl, tt); entries = (refl, (refl, (refl, tt))) };
  room = omega arith;
}

apply_manual_update-build_manual_update_plan_example :
    Applies (world stored) clock svc both_plan checked
unfolding opened
apply_manual_update-build_manual_update_plan_example =
    apply_manual_update-build_manual_update_plan (world stored) clock svc 1 both 3 checked both_plan
      refl clock-ReadsTimes
      (record { item_keys = checked-item_keys; source_keys = checked-source_keys }) checked-MayRun

apply_manual_update_again_example :
    apply_manual_update
      (later (world stored) 9 3)
      clock
      svc
      both_plan
      (apply_manual_update (world stored) clock svc both_plan checked).1
    ≡ (
      outcome 2 both_plan "already_applied_verified",
      (apply_manual_update (world stored) clock svc both_plan checked).1,
    )
unfolding opened
apply_manual_update_again_example =
    apply_manual_update_again (world stored) clock svc 1 both 3 9 3 checked both_plan refl
      clock-ReadsTimes (record { item_keys = checked-item_keys; source_keys = checked-source_keys })
      checked-MayRun
