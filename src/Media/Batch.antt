-- ===== src/Media/Batch.antt =====
-- app/services/media_write_coordination.py: what the classifiers' answers mean.
use nsfwtrack.Base.{
  Bool, true, false, not, List, [], ◌∷◌, any, All, if◌then◌else◌, ◌≡◌, refl, ◌↔◌, arith,
}
use nsfwtrack.Media.Classify.{
  no_filesystem_change, filesystem_changed_known, filesystem_outcome_unknown, BatchItem,
  item_unknown, item_changed, item_failed, item_retained, classify_batch_result,
  filesystem_changed_partial_known,
}

any-false :
    {A : Type 0} (p : A → Bool) (xs : List A) → (any p xs ≡ false) ↔ All (λ x. p x ≡ false) xs
any-false p [] = (λ h. tt, λ h. refl)
any-false p (x ∷ xs) = ground (arith, any-false p xs)

-- An item that is sure to have left the tree as it was.
abbrev pub Untouched : BatchItem → Type 0
Untouched item = (item_unknown item ≡ false) × (item_changed item ≡ false)

-- An item that neither is in doubt nor kept anything from being done.
abbrev pub Complete : BatchItem → Type 0
Complete item =
    (item_unknown item ≡ false) × ((item_failed item ≡ false) × (item_retained item ≡ false))

module _ {A : Type 0} (P Q : A → Type 0) where
  All-both : (xs : List A) → All (λ x. P x × Q x) xs ↔ (All P xs × All Q xs)
  All-both [] = (λ h. (tt, tt), λ h. tt)
  All-both (x ∷ xs) = (
    λ h. let t = (All-both xs).0 h.1 in ((h.0.0, t.0), (h.0.1, t.1)),
    λ h. ((h.0.0, h.1.0), (All-both xs).1 (h.0.1, h.1.1)),
  )

tests :
    (u c f r : Bool)
    → let outcome =
        if u
        then filesystem_outcome_unknown
        else if not c
        then no_filesystem_change
        else if f
        then filesystem_changed_partial_known
        else if r
        then filesystem_changed_partial_known
        else filesystem_changed_known in
      ((outcome ≡ no_filesystem_change) ↔ ((u ≡ false) × (c ≡ false)))
      × ((outcome ≡ filesystem_changed_known)
          ↔ ((c ≡ true) × (u ≡ false) × (f ≡ false) × (r ≡ false)))
tests u c f r = ground arith

-- A batch counts as having changed nothing exactly if none of its items is in doubt, succeeded or
-- kept its source, and as a complete change exactly if some item succeeded and none is in doubt,
-- failed or kept its source.
pub classify_batch_result_iff :
    (items : List BatchItem)
    → ((classify_batch_result items ≡ no_filesystem_change) ↔ All Untouched items)
      × ((classify_batch_result items ≡ filesystem_changed_known)
          ↔ ((any item_changed items ≡ true) × All Complete items))
unfolding classify_batch_result
classify_batch_result_iff items =
    let t =
      tests (any item_unknown items) (any item_changed items) (any item_failed items)
        (any item_retained items) in
    let u = any-false item_unknown items in
    let c = any-false item_changed items in
    let f = any-false item_failed items in
    let r = any-false item_retained items in
    let two = All-both (λ i. item_unknown i ≡ false) (λ i. item_changed i ≡ false) items in
    let late = All-both (λ i. item_failed i ≡ false) (λ i. item_retained i ≡ false) items in
    let three =
      All-both (λ i. item_unknown i ≡ false)
        (λ i. (item_failed i ≡ false) × (item_retained i ≡ false)) items in
    (
      (
        λ h. let a = t.0.0 h in two.1 (u.0 a.0, c.0 a.1),
        λ h. let a = two.0 h in t.0.1 (u.1 a.0, c.1 a.1),
      ),
      (
        λ h. let a = t.1.0 h in (a.0, three.1 (u.0 a.1, late.1 (f.0 a.2, r.0 a.3))),
        λ h. let a = three.0 h.1 in let b = late.0 a.1 in t.1.1 (h.0, u.1 a.0, f.1 b.0, r.1 b.1),
      ),
    )
