-- ===== src/Update/Rows.antt =====
-- app/source_update/service.py: one row of a table found, counted and updated.
use nsfwtrack.Base.{
  ℕ, String, Bool, true, false, not, ◌&&◌, Option, none, some, List, [], ◌∷◌, find, ◌==◌, ==_iff,
  str_eq, str_eq_iff, update_where, count_where, ◌≡◌, refl, sym, ap, ◌∙◌, arith, Bool-cases, inl,
  inr,
}
use nsfwtrack.Update.Contracts.{
  Item, ItemSource, item_row, source_row, Std, Field, item_summary, item_release_date,
  source_title_field, source_last_checked_at, source_metadata_hash, ManualFieldChange,
  text_or_empty,
}
use nsfwtrack.Update.Plan.{same_option}
use nsfwtrack.Update.Verify.{
  item_proof, set_item, set_time, set_source, changed_item, changed_source, bind_source,
}
use nsfwtrack.Update.Apply.{
  is_item_field, any_change, update_items, update_sources, source_or, same_number,
}

module _ {A : Type 0} (p hit : A → Bool) (narrow : (x : A) → hit x ≡ true → p x ≡ true) where
  count_where-none : (xs : List A) → count_where p xs ≡ 0 → count_where hit xs ≡ 0
  count_where-none [] h = refl
  count_where-none (x ∷ xs) h = ground (arith, narrow x, count_where-none xs)

  -- A narrower test that the found row passes is passed by it alone.
  pub count_where-one :
      (xs : List A) (x : A)
      → count_where p xs ≡ 1
      → find p xs ≡ some x
      → hit x ≡ true
      → count_where hit xs ≡ 1
  count_where-one [] x h f k = absurd (cc)
  count_where-one (y ∷ ys) x h f k = elim (Bool-cases (p y)) [
    | inl e ↦
        let g = rw e at f in
        let same : y ≡ x = cc g in
        let here : hit y ≡ true = rw same k in
        let none : count_where p ys ≡ 0 = let n = rw e at h in omega (arith, n) in
        rw (here, count_where-none ys none)
    | inr e ↦
        let misses : hit y ≡ false = ground (arith, e, narrow y) in
        let one : count_where p ys ≡ 1 = let n = rw e at h in omega (arith, n) in
        rw (misses, count_where-one ys x one (rw e at f) k)
  ]

  -- The found row after an update that keeps the test.
  pub find-update_where :
      (f : A → A) (xs : List A) (x : A)
      → ((y : A) → p (f y) ≡ p y)
      → find p xs ≡ some x
      → hit x ≡ true
      → find p (update_where hit f xs) ≡ some (f x)
  find-update_where f [] x keeps h k = absurd (cc)
  find-update_where f (y ∷ ys) x keeps h k = elim (Bool-cases (p y)) [
    | inl e ↦
        let g = rw e at h in
        let same : y ≡ x = cc g in
        let here : hit y ≡ true = rw same k in
        let kept : p (f y) ≡ true = keeps y ∙ e in rw (here, kept) (ap (λ (z : A). some (f z)) same)
    | inr e ↦
        let misses : hit y ≡ false = ground (arith, e, narrow y) in
        rw (misses, e) (find-update_where f ys x keeps (rw e at h) k)
  ]

-- The lookups by id are `find`.
pub item_row-find :
    (i : ℕ) (xs : List Item) → item_row i xs ≡ find (λ (x : Item). x.item_id == i) xs
item_row-find i [] = refl
item_row-find i (x ∷ xs) = rw (item_row-find i xs)

pub source_row-find :
    (i : ℕ) (xs : List ItemSource)
    → source_row i xs ≡ find (λ (x : ItemSource). x.source_id == i) xs
source_row-find i [] = refl
source_row-find i (x ∷ xs) = rw (source_row-find i xs)

pub find-passes {ℓ} :
    {A : Type ℓ} (p : A → Bool) (xs : List A) (x : A) → find p xs ≡ some x → p x ≡ true
find-passes p [] x h = absurd (cc)
find-passes p (y ∷ ys) x h = elim (Bool-cases (p y)) [
  | inl e ↦ let g = rw e at h in let same : x ≡ y = cc g in rw same e
  | inr e ↦ find-passes p ys x (rw e at h)
]

-- What a change does not touch.
changed_item-id : (cs : List ManualFieldChange) (i : Item) → (changed_item cs i).item_id ≡ i.item_id
unfolding changed_item
changed_item-id [] i = refl
changed_item-id (c ∷ cs) i = changed_item-id cs (set_item c.field c.new i) ∙ kept c.field
  where
    kept : (f : Field) → (set_item f c.new i).item_id ≡ i.item_id
    kept item_summary = refl
    kept item_release_date = refl
    kept source_title_field = refl
    kept source_last_checked_at = refl
    kept source_metadata_hash = refl

set_item-same :
    (f : Field) (new : Option String) (i : Item) → is_item_field f ≡ false → set_item f new i ≡ i
set_item-same item_summary new i h = cc
set_item-same item_release_date new i h = cc
set_item-same source_title_field new i h = refl
set_item-same source_last_checked_at new i h = refl
set_item-same source_metadata_hash new i h = refl

changed_item-same :
    (cs : List ManualFieldChange) (i : Item)
    → any_change is_item_field cs ≡ false
    → changed_item cs i ≡ i
unfolding changed_item
changed_item-same [] i h = refl
changed_item-same (c ∷ cs) i h =
    let first : is_item_field c.field ≡ false = ground (arith, h) in
    let others : any_change is_item_field cs ≡ false = ground (arith, h) in
    ap (changed_item cs) (set_item-same c.field c.new i first) ∙ changed_item-same cs i others

set_source-same :
    (std : Std) (f : Field) (new : Option String) (o : ItemSource)
    → not (is_item_field f) ≡ false
    → set_source std f new o ≡ some o
set_source-same std item_summary new o h = refl
set_source-same std item_release_date new o h = refl
set_source-same std source_title_field new o h = cc
set_source-same std source_last_checked_at new o h = cc
set_source-same std source_metadata_hash new o h = cc

changed_source-same :
    (std : Std) (cs : List ManualFieldChange) (o : ItemSource)
    → any_change (λ f. not (is_item_field f)) cs ≡ false
    → changed_source std cs o ≡ some o
unfolding changed_source
changed_source-same std [] o h = refl
changed_source-same std (c ∷ cs) o h =
    let first : not (is_item_field c.field) ≡ false = ground (arith, h) in
    let others : any_change (λ f. not (is_item_field f)) cs ≡ false = ground (arith, h) in
    ap (λ s. bind_source s (changed_source std cs)) (set_source-same std c.field c.new o first)
    ∙ changed_source-same std cs o others

-- A source is changed into one of its id, or into none.
abbrev IdOf : ItemSource → Option ItemSource → Type 0
IdOf o none = Unit
IdOf o (some t) = t.source_id ≡ o.source_id

set_time-IdOf : (t : Option ℕ) (o : ItemSource) → IdOf o (set_time t o)
set_time-IdOf none o = tt
set_time-IdOf (some t) o = refl

set_source-IdOf :
    (std : Std) (f : Field) (new : Option String) (o : ItemSource) → IdOf o (set_source std f new o)
set_source-IdOf std item_summary new o = refl
set_source-IdOf std item_release_date new o = refl
set_source-IdOf std source_title_field new o = refl
set_source-IdOf std source_last_checked_at new o =
    set_time-IdOf (std.fromisoformat (text_or_empty new)) o
set_source-IdOf std source_metadata_hash new o = refl

IdOf-bind :
    (o : ItemSource) (s : Option ItemSource) (f : ItemSource → Option ItemSource)
    → IdOf o s
    → ((t : ItemSource) → IdOf t (f t))
    → IdOf o (bind_source s f)
IdOf-bind o none f h k = tt
IdOf-bind o (some t) f h k = over (f t) (k t)
  where
    over : (r : Option ItemSource) → IdOf t r → IdOf o r
    over none g = tt
    over (some u) g = g ∙ h

changed_source-IdOf :
    (std : Std) (cs : List ManualFieldChange) (o : ItemSource) → IdOf o (changed_source std cs o)
unfolding changed_source
changed_source-IdOf std [] o = refl
changed_source-IdOf std (c ∷ cs) o =
    IdOf-bind o (set_source std c.field c.new o) (changed_source std cs)
      (set_source-IdOf std c.field c.new o) (changed_source-IdOf std cs)

source_or-id :
    (o : ItemSource) (r : Option ItemSource) → IdOf o r → (source_or o r).source_id ≡ o.source_id
source_or-id o none h = refl
source_or-id o (some t) h = h

pub same_option_refl : (o : Option String) → same_option o o ≡ true
same_option_refl none = refl
same_option_refl (some s) = (str_eq_iff s s).1 refl

same_number_refl : (o : Option ℕ) → same_number o o ≡ true
same_number_refl none = refl
same_number_refl (some n) = (==_iff n n).1 refl

-- With one row of the id, the update of the items hits it: the row has the values of the changed item.
pub update_items-row :
    (now i : ℕ) (cs : List ManualFieldChange) (item : Item) (rows : List Item)
    → item_row i rows ≡ some item
    → count_where (λ (x : Item). x.item_id == i) rows ≡ 1
    → (rows' : List Item) × (update_items now cs item rows ≡ some rows')
      × ((row : Item) × (item_row i rows' ≡ some row)
          × (item_proof row ≡ item_proof (changed_item cs item)))
unfolding update_items item_proof
update_items-row now i cs item rows found once =
    let p : Item → Bool = λ x. x.item_id == i in
    let hit : Item → Bool = λ x. x.item_id == item.item_id && str_eq x.item_title item.item_title in
    let f : Item → Item = λ x. record (changed_item cs x) { updated_at = now } in
    let at : find p rows ≡ some item = sym (item_row-find i rows) ∙ found in
    let id : (item.item_id == i) ≡ true = find-passes p rows item at in
    let narrow : (x : Item) → hit x ≡ true → p x ≡ true = λ x h. ground (arith, h, id) in
    let own : hit item ≡ true =
      let same = (str_eq_iff item.item_title item.item_title).1 refl in ground (arith, same) in
    let one =
      (==_iff (count_where hit rows) 1).1 (count_where-one p hit narrow rows item once at own) in
    let keeps : (x : Item) → p (f x) ≡ p x = λ x. ap (λ n. n == i) (changed_item-id cs x) in
    elim (Bool-cases (any_change is_item_field cs)) [
      | inl e ↦ (
        update_where hit f rows,
        rw (e, one) refl,
        (
          f item,
          item_row-find i (update_where hit f rows)
              ∙ find-update_where p hit narrow f rows item keeps at own,
          refl,
        ),
      )
      | inr e ↦ (rows, rw e refl, (item, found, ap item_proof (sym (changed_item-same cs item e))))
    ]

-- The same for the sources, where the changes can be made of the source.
pub update_sources-row :
    (std : Std) (i : ℕ) (cs : List ManualFieldChange) (source after : ItemSource)
    (rows : List ItemSource)
    → source_row i rows ≡ some source
    → count_where (λ (x : ItemSource). x.source_id == i) rows ≡ 1
    → changed_source std cs source ≡ some after
    → (rows' : List ItemSource) × (update_sources std cs source rows ≡ some rows')
      × (source_row i rows' ≡ some after)
unfolding update_sources
update_sources-row std i cs source after rows found once made =
    let p : ItemSource → Bool = λ x. x.source_id == i in
    let hit : ItemSource → Bool = λ o.
      o.source_id == source.source_id
      && same_option o.provider_key source.provider_key
      && same_option o.external_id source.external_id
      && same_option o.source_title source.source_title
      && same_number o.last_checked_at source.last_checked_at
      && same_option o.metadata_hash source.metadata_hash in
    let f : ItemSource → ItemSource = λ o. source_or o (changed_source std cs o) in
    let at : find p rows ≡ some source = sym (source_row-find i rows) ∙ found in
    let id : (source.source_id == i) ≡ true = find-passes p rows source at in
    let narrow : (x : ItemSource) → hit x ≡ true → p x ≡ true = λ x h. ground (arith, h, id) in
    let own : hit source ≡ true = ground (
      arith,
      same_option_refl source.provider_key,
      same_option_refl source.external_id,
      same_option_refl source.source_title,
      same_number_refl source.last_checked_at,
      same_option_refl source.metadata_hash,
    ) in
    let one =
      (==_iff (count_where hit rows) 1).1 (count_where-one p hit narrow rows source once at own) in
    let keeps : (x : ItemSource) → p (f x) ≡ p x = λ x.
      ap (λ n. n == i) (source_or-id x (changed_source std cs x) (changed_source-IdOf std cs x)) in
    let left : f source ≡ after = ap (source_or source) made in
    elim (Bool-cases (any_change (λ f. not (is_item_field f)) cs)) [
      | inl e ↦ (
        update_where hit f rows,
        rw (e, one) refl,
        source_row-find i (update_where hit f rows)
            ∙ find-update_where p hit narrow f rows source keeps at own
            ∙ ap some left,
      )
      | inr e ↦ (
        rows,
        rw e refl,
        found
            ∙ (let same = changed_source-same std cs source e in
                let both : some source ≡ some after = cc in both),
      )
    ]
