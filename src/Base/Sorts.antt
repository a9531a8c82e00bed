-- ===== src/Base/Sorts.antt =====
-- Sorting against maps, filters and counts, and the order of texts.
use Prim.Native.Nat.{ℕ, ◌+◌}
use Prim.Native.String.{String}
use text.Mathlib.TextEquality.{Char-path}
use mathlib.Core.Path.{◌≡◌, refl, ap, ap₂, ◌∙◌}
use mathlib.Core.Logic.{inl, inr}
use mathlib.Core.Bool.{Bool, true}
use mathlib.Core.List.{List, [], ◌∷◌, map}
use native.Mathlib.Omega.{arith}
use nsfwtrack.Base.Tests.{if◌then◌else◌, Bool-cases}
use nsfwtrack.Base.Lists.{All, filter, count_where, codes}
use nsfwtrack.Base.Ints.{ℤ, pos, lex_leb, lex_leb_total, lex_leb_trans}
use nsfwtrack.Base.Sorted.{
  IsOrder, insert_sorted, sorted_by, IsSorted, sorted_by-All, sorted_by-IsSorted,
}

-- Where a test holds both ways only of one value, the order of insertions does not show.
module _ {ℓ} {A : Type ℓ} (before : A → A → Bool) (order : IsOrder before)
    (antisym : (a b : A) → before a b ≡ true → before b a ≡ true → a ≡ b) where
  insert_sorted_comm :
      (x y : A) (xs : List A)
      → insert_sorted before x (insert_sorted before y xs)
        ≡ insert_sorted before y (insert_sorted before x xs)
  unfolding insert_sorted
  insert_sorted_comm x y [] = ground (arith, antisym x y, order.total x y)
  insert_sorted_comm x y (z ∷ zs) = ground (
    arith,
    antisym x y,
    order.total x y,
    order.trans x y z,
    order.trans y x z,
    insert_sorted_comm x y zs,
  )

  -- What is sorted twice, first by another key, is sorted once.
  module _ {κ} {B : Type κ} (f : B → A) (first : B → B → Bool) where
    map-insert_sorted :
        (x : B) (xs : List B)
        → sorted_by before (map f (insert_sorted first x xs)) ≡ sorted_by before (map f (x ∷ xs))
    unfolding insert_sorted sorted_by
    map-insert_sorted x [] = refl
    map-insert_sorted x (y ∷ ys) = elim (Bool-cases (first x y)) [
      | inl e ↦ rw e
      | inr e ↦ rw e (
          ap (insert_sorted before (f y)) (map-insert_sorted x ys)
          ∙ insert_sorted_comm (f y) (f x) (sorted_by before (map f ys)))
    ]

    pub sorted_by-map-sorted_by :
        (xs : List B) → sorted_by before (map f (sorted_by first xs)) ≡ sorted_by before (map f xs)
    unfolding sorted_by
    sorted_by-map-sorted_by [] = refl
    sorted_by-map-sorted_by (x ∷ xs) =
        map-insert_sorted x (sorted_by first xs)
        ∙ ap (insert_sorted before (f x)) (sorted_by-map-sorted_by xs)

module _ {ℓ} {A : Type ℓ} (before : A → A → Bool) (p : A → Bool) where
  count_where-insert_sorted :
      (x : A) (xs : List A) → count_where p (insert_sorted before x xs) ≡ count_where p (x ∷ xs)
  unfolding insert_sorted
  count_where-insert_sorted x [] = refl
  count_where-insert_sorted x (y ∷ ys) = elim (Bool-cases (before x y)) [
    | inl e ↦ rw e
    | inr e ↦ rw e (omega (arith, count_where-insert_sorted x ys))
  ]

  -- Sorting keeps the counts.
  pub count_where-sorted_by : (xs : List A) → count_where p (sorted_by before xs) ≡ count_where p xs
  unfolding sorted_by
  count_where-sorted_by [] = refl
  count_where-sorted_by (x ∷ xs) =
      count_where-insert_sorted x (sorted_by before xs)
      ∙ ap (λ (n : ℕ). (if p x then 1 else 0) + n) (count_where-sorted_by xs)

  module _ (order : IsOrder before) where
    before-All :
        (x y : A) (ys : List A)
        → before x y ≡ true
        → All (λ z. before y z ≡ true) ys
        → insert_sorted before x (filter p ys) ≡ x ∷ filter p ys
    unfolding insert_sorted
    before-All x y [] e h = refl
    before-All x y (z ∷ zs) e h = elim (Bool-cases (p z)) [
      | inl k ↦ rw (k, order.trans x y z e h.0)
      | inr k ↦ rw k (before-All x y zs e h.1)
    ]

    filter-insert_sorted :
        (x : A) (xs : List A)
        → IsSorted before xs
        → filter p (insert_sorted before x xs)
          ≡ (if p x then insert_sorted before x (filter p xs) else filter p xs)
    unfolding insert_sorted
    filter-insert_sorted x [] s = ground arith
    filter-insert_sorted x (y ∷ ys) s =
        ground (arith, before-All x y ys, filter-insert_sorted x ys s.1)

    -- A filter of a sorted list is the filter sorted.
    pub filter-sorted_by :
        (xs : List A) → filter p (sorted_by before xs) ≡ sorted_by before (filter p xs)
    unfolding sorted_by
    filter-sorted_by [] = refl
    filter-sorted_by (x ∷ xs) = ground (
      arith,
      filter-insert_sorted x (sorted_by before xs) (sorted_by-IsSorted before order xs),
      filter-sorted_by xs,
    )

insert_sorted-head {ℓ} :
    {A : Type ℓ} (before : A → A → Bool) (x : A) (xs : List A)
    → All (λ y. before x y ≡ true) xs
    → insert_sorted before x xs ≡ x ∷ xs
unfolding insert_sorted
insert_sorted-head before x [] h = refl
insert_sorted-head before x (y ∷ ys) h = rw h.0

-- The first of a sorted list is one that comes before all the others.
pub sorted_by-head {ℓ} :
    {A : Type ℓ} (before : A → A → Bool) (x : A) (xs : List A)
    → All (λ y. before x y ≡ true) xs
    → sorted_by before (x ∷ xs) ≡ x ∷ sorted_by before xs
unfolding sorted_by
sorted_by-head before x xs h =
    insert_sorted-head before x (sorted_by before xs)
      (sorted_by-All before (λ y. before x y ≡ true) xs h)

pub lex_leb_antisym : (xs ys : List ℤ) → lex_leb xs ys ≡ true → lex_leb ys xs ≡ true → xs ≡ ys
unfolding lex_leb
lex_leb_antisym [] [] h k = refl
lex_leb_antisym [] (y ∷ ys) h k = cc
lex_leb_antisym (x ∷ xs) [] h k = cc
lex_leb_antisym (x ∷ xs) (y ∷ ys) h k = ground (arith, lex_leb_antisym xs ys)

-- The order of texts: by their code points.
abbrev pub text_before : String → String → Bool
text_before s t = lex_leb (map pos (codes s)) (map pos (codes t))

codes-inj : (s t : String) → map pos (codes s) ≡ map pos (codes t) → s ≡ t
codes-inj String.[] String.[] h = refl
codes-inj String.[] (String.◌∷◌ d t) h = cc
codes-inj (String.◌∷◌ c s) String.[] h = cc
codes-inj (String.◌∷◌ c s) (String.◌∷◌ d t) h =
    ap₂ String.◌∷◌ (Char-path c d (cc)) (codes-inj s t (cc))

pub text_before-IsOrder : IsOrder text_before
text_before-IsOrder = record {
  trans = λ a b c. lex_leb_trans (map pos (codes a)) (map pos (codes b)) (map pos (codes c));
  total = λ a b. lex_leb_total (map pos (codes a)) (map pos (codes b));
}

pub text_before_antisym : (s t : String) → text_before s t ≡ true → text_before t s ≡ true → s ≡ t
text_before_antisym s t h k =
    codes-inj s t (lex_leb_antisym (map pos (codes s)) (map pos (codes t)) h k)
