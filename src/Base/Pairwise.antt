-- ===== src/Base/Pairwise.antt =====
-- Two lists that are related place by place.
use mathlib.Core.Path.{◌≡◌, refl, sym, ap, ◌∙◌}
use mathlib.Core.Logic.{inl, inr}
use mathlib.Core.Bool.{Bool, true, false}
use mathlib.Core.List.{List, [], ◌∷◌, ◌++◌}
use nsfwtrack.Base.Tests.{Bool-cases}
use nsfwtrack.Base.Lists.{filter}
use nsfwtrack.Base.Sorted.{insert_sorted, sorted_by}

-- Of one length, with elements in the relation.
abbrev pub Both : {A B : Type 0} → (A → B → Type 0) → List A → List B → Type 0
Both R [] [] = Unit
Both R [] (y ∷ ys) = ⊥
Both R (x ∷ xs) [] = ⊥
Both R (x ∷ xs) (y ∷ ys) = R x y × Both R xs ys

module _ {A B : Type 0} (R : A → B → Type 0) (before : A → A → Bool) (after : B → B → Bool)
    (same : (x x' : A) (y y' : B) → R x y → R x' y' → before x x' ≡ after y y') where
  insert_sorted-Both :
      (x : A) (y : B) (xs : List A) (ys : List B)
      → R x y
      → Both R xs ys
      → Both R (insert_sorted before x xs) (insert_sorted after y ys)
  unfolding insert_sorted
  insert_sorted-Both x y [] [] r h = (r, tt)
  insert_sorted-Both x y [] (y' ∷ ys) r h = absurd h
  insert_sorted-Both x y (x' ∷ xs) [] r h = absurd h
  insert_sorted-Both x y (x' ∷ xs) (y' ∷ ys) r h =
      let e = same x x' y y' r h.0 in
      elim (Bool-cases (before x x')) [
        | inl k ↦ rw (k, sym e ∙ k) (r, h)
        | inr k ↦ rw (k, sym e ∙ k) (h.0, insert_sorted-Both x y xs ys r h.1)
      ]

  -- Sorted by tests that agree, they are still related.
  pub sorted_by-Both :
      (xs : List A) (ys : List B) → Both R xs ys → Both R (sorted_by before xs) (sorted_by after ys)
  unfolding sorted_by
  sorted_by-Both [] [] h = tt
  sorted_by-Both [] (y ∷ ys) h = absurd h
  sorted_by-Both (x ∷ xs) [] h = absurd h
  sorted_by-Both (x ∷ xs) (y ∷ ys) h =
      insert_sorted-Both x y (sorted_by before xs) (sorted_by after ys) h.0
        (sorted_by-Both xs ys h.1)

module _ {A B C : Type 0} (R : A → B → Type 0) (S : A → C → Type 0) (p : A → Bool) where
  -- A filter that keeps all of one list and none of another.
  pub filter-append_left :
      (xs : List A) (bs : List B) (ys : List A) (cs : List C)
      → Both R xs bs
      → Both S ys cs
      → ((x : A) (b : B) → R x b → p x ≡ true)
      → ((y : A) (c : C) → S y c → p y ≡ false)
      → filter p (xs ++ ys) ≡ xs
  filter-append_left [] [] [] [] h k keep drop = refl
  filter-append_left [] [] [] (c ∷ cs) h k keep drop = absurd k
  filter-append_left [] [] (y ∷ ys) [] h k keep drop = absurd k
  filter-append_left [] [] (y ∷ ys) (c ∷ cs) h k keep drop =
      rw (drop y c k.0) (filter-append_left [] [] ys cs h k.1 keep drop)
  filter-append_left [] (b ∷ bs) ys cs h k keep drop = absurd h
  filter-append_left (x ∷ xs) [] ys cs h k keep drop = absurd h
  filter-append_left (x ∷ xs) (b ∷ bs) ys cs h k keep drop =
      rw (keep x b h.0) (ap (◌∷◌ x) (filter-append_left xs bs ys cs h.1 k keep drop))

  pub filter-append_right :
      (xs : List A) (bs : List B) (ys : List A) (cs : List C)
      → Both R xs bs
      → Both S ys cs
      → ((x : A) (b : B) → R x b → p x ≡ false)
      → ((y : A) (c : C) → S y c → p y ≡ true)
      → filter p (xs ++ ys) ≡ ys
  filter-append_right [] [] [] [] h k drop keep = refl
  filter-append_right [] [] [] (c ∷ cs) h k drop keep = absurd k
  filter-append_right [] [] (y ∷ ys) [] h k drop keep = absurd k
  filter-append_right [] [] (y ∷ ys) (c ∷ cs) h k drop keep =
      rw (keep y c k.0) (ap (◌∷◌ y) (filter-append_right [] [] ys cs h k.1 drop keep))
  filter-append_right [] (b ∷ bs) ys cs h k drop keep = absurd h
  filter-append_right (x ∷ xs) [] ys cs h k drop keep = absurd h
  filter-append_right (x ∷ xs) (b ∷ bs) ys cs h k drop keep =
      rw (drop x b h.0) (filter-append_right xs bs ys cs h.1 k drop keep)
