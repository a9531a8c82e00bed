-- ===== src/Base/Sorted.antt =====
-- `sorted(xs, key=…)`: a stable sort by insertion, for a test `before` of the keys.
use Prim.Native.Nat.{suc}
use mathlib.Core.Path.{◌≡◌, refl, ap, ◌∙◌}
use mathlib.Core.Logic.{inl, inr}
use mathlib.Core.Bool.{Bool, true, false}
use mathlib.Core.List.{List, [], ◌∷◌}
use native.Mathlib.Omega.{arith}
use nsfwtrack.Base.Tests.{if◌then◌else◌, Bool-cases}
use nsfwtrack.Base.Lists.{All, All-map, length}

-- A total preorder, as a Boolean test.
pub record IsOrder {ℓ} {A : Type ℓ} (before : A → A → Bool) : Type ℓ where
  pub trans : (a b c : A) → before a b ≡ true → before b c ≡ true → before a c ≡ true
  pub total : (a b : A) → before a b ≡ false → before b a ≡ true

module _ {ℓ} {A : Type ℓ} (before : A → A → Bool) where
  -- `x` before everything that does not come strictly before it
  unfoldable pub insert_sorted : A → List A → List A
  insert_sorted x [] = x ∷ []
  insert_sorted x (y ∷ ys) =
      let rest = insert_sorted x ys in if before x y then x ∷ y ∷ ys else y ∷ rest

  unfoldable pub sorted_by : List A → List A
  sorted_by [] = []
  sorted_by (x ∷ xs) = insert_sorted x (sorted_by xs)

  abbrev pub IsSorted : List A → Type 0
  IsSorted [] = Unit
  IsSorted (x ∷ xs) = All (λ y. before x y ≡ true) xs × IsSorted xs

  pub insert_sorted-All {κ} :
      (P : A → Type κ) (x : A) (xs : List A) → P x → All P xs → All P (insert_sorted x xs)
  unfolding insert_sorted
  insert_sorted-All P x [] p h = (p, tt)
  insert_sorted-All P x (y ∷ ys) p h = elim (Bool-cases (before x y)) [
    | inl e ↦ rw e (p, h)
    | inr e ↦ rw e (h.0, insert_sorted-All P x ys p h.1)
  ]

  length-insert_sorted : (x : A) (xs : List A) → length (insert_sorted x xs) ≡ suc (length xs)
  unfolding insert_sorted
  length-insert_sorted x [] = refl
  length-insert_sorted x (y ∷ ys) = ground (arith, length-insert_sorted x ys)

  pub length-sorted_by : (xs : List A) → length (sorted_by xs) ≡ length xs
  unfolding sorted_by
  length-sorted_by [] = refl
  length-sorted_by (x ∷ xs) = length-insert_sorted x (sorted_by xs) ∙ ap suc (length-sorted_by xs)

  -- What holds of all of a list holds of all of it sorted.
  pub sorted_by-All {κ} : (P : A → Type κ) (xs : List A) → All P xs → All P (sorted_by xs)
  unfolding sorted_by
  sorted_by-All P [] h = tt
  sorted_by-All P (x ∷ xs) h = insert_sorted-All P x (sorted_by xs) h.0 (sorted_by-All P xs h.1)

  insert_sorted-All_back {κ} :
      (P : A → Type κ) (x : A) (xs : List A) → All P (insert_sorted x xs) → P x × All P xs
  unfolding insert_sorted
  insert_sorted-All_back P x [] h = h
  insert_sorted-All_back P x (y ∷ ys) h = elim (Bool-cases (before x y)) [
    | inl e ↦ rw e at h
    | inr e ↦
        let g = rw e at h in let back = insert_sorted-All_back P x ys g.1 in (back.0, (g.0, back.1))
  ]

  -- Sorting loses nothing.
  pub sorted_by-All_back {κ} : (P : A → Type κ) (xs : List A) → All P (sorted_by xs) → All P xs
  unfolding sorted_by
  sorted_by-All_back P [] h = tt
  sorted_by-All_back P (x ∷ xs) h =
      let back = insert_sorted-All_back P x (sorted_by xs) h in
      (back.0, sorted_by-All_back P xs back.1)

  module _ (order : IsOrder before) where
    insert_sorted-IsSorted : (x : A) (xs : List A) → IsSorted xs → IsSorted (insert_sorted x xs)
    unfolding insert_sorted
    insert_sorted-IsSorted x [] s = (tt, tt)
    insert_sorted-IsSorted x (y ∷ ys) s = elim (Bool-cases (before x y)) [
      | inl e ↦ rw e (
        (
          e,
          All-map (λ z. before y z ≡ true) (λ z. before x z ≡ true) ys
              (λ z h. order.trans x y z e h) s.0,
        ),
        s,
      )
      | inr e ↦ rw e (
        insert_sorted-All (λ z. before y z ≡ true) x ys (order.total x y e) s.0,
        insert_sorted-IsSorted x ys s.1,
      )
    ]

    pub sorted_by-IsSorted : (xs : List A) → IsSorted (sorted_by xs)
    unfolding sorted_by
    sorted_by-IsSorted [] = tt
    sorted_by-IsSorted (x ∷ xs) = insert_sorted-IsSorted x (sorted_by xs) (sorted_by-IsSorted xs)
