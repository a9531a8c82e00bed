-- ===== src/Tasks/Rows.antt =====
-- Laws of `UPDATE … WHERE`, of counts and of the search by id, over the rows of a table.
use mathlib.Core.Option
use mathlib.Core.Path.{subst}
use nsfwtrack.Base.{
  ℕ, ◌+◌, ◌≤◌, ◌≡◌, refl, false, sym, ◌∙◌, ◌≢◌, inl, inr, Bool, true, some, List, [], ◌∷◌, arith,
  ◌==◌, ==_iff, if◌then◌else◌, All, All-map, All-zip, All-filter, filter, Bool-cases,
}
use nsfwtrack.Tasks.Store.{
  OperationTask, update_rows, count_rows, is_running, running_others, find_row,
}

abbrev pub KeepsId : (OperationTask → OperationTask) → Type 0
KeepsId f = (t : OperationTask) → (f t).id ≡ t.id

-- No two rows have one id: the primary key.
abbrev pub Distinct : List OperationTask → Type 0
Distinct [] = Unit
Distinct (t ∷ ts) = All (λ u. u.id ≢ t.id) ts × Distinct ts

module _ (p : OperationTask → Bool) (f : OperationTask → OperationTask) where
  abbrev pub written : OperationTask → OperationTask
  written t = if p t then f t else t

  pub written-cases {κ} :
      (Q : OperationTask → Type κ) (t : OperationTask)
      → (p t ≡ true → Q (f t))
      → (p t ≡ false → Q t)
      → Q (written t)
  written-cases Q t y n = elim (Bool-cases (p t)) [ inl e ↦ rw e (y e) | inr e ↦ rw e (n e) ]

  pub All-update {κ ℓ} :
      (P : OperationTask → Type κ) (Q : OperationTask → Type ℓ) (ts : List OperationTask)
      → ((t : OperationTask) → P t → Q (written t))
      → All P ts
      → All Q (update_rows p f ts)
  unfolding update_rows
  All-update P Q [] k h = tt
  All-update P Q (t ∷ ts) k h = (k t h.0, All-update P Q ts k h.1)

  pub Distinct-update :
      (ts : List OperationTask) → KeepsId f → Distinct ts → Distinct (update_rows p f ts)
  unfolding update_rows
  Distinct-update [] k d = tt
  Distinct-update (t ∷ ts) k d = (
    All-update (λ u. u.id ≢ t.id) (λ u. u.id ≢ (written t).id) ts
        (λ u ne. ground (arith, k u, k t, ne)) d.0,
    Distinct-update ts k d.1,
  )

  pub find_row-update :
      (i : ℕ) (ts : List OperationTask)
      → KeepsId f
      → find_row i (update_rows p f ts) ≡ Option.map written (find_row i ts)
  unfolding update_rows find_row
  find_row-update i [] k = refl
  find_row-update i (t ∷ ts) k = ground (arith, k t, find_row-update i ts k)

pub All-find_row {κ} :
    (P : OperationTask → Type κ) (i : ℕ) (ts : List OperationTask) {t : OperationTask}
    → All P ts
    → find_row i ts ≡ some t
    → P t
unfolding find_row
All-find_row P i [] h e = absurd (cc)
All-find_row P i (u ∷ us) h e = elim (Bool-cases (u.id == i)) [
  | inl here ↦ subst P (cc (rw here at e)) h.0
  | inr later ↦ All-find_row P i us h.1 (rw later at e)
]

pub count_rows-zero :
    (p : OperationTask → Bool) (i : ℕ) (ts : List OperationTask)
    → ((t : OperationTask) → p t ≡ true → t.id ≡ i)
    → All (λ u. u.id ≢ i) ts
    → count_rows p ts ≡ 0
unfolding count_rows
count_rows-zero p i [] k h = refl
count_rows-zero p i (t ∷ ts) k h = ground (arith, k t, count_rows-zero p i ts k h.1, h.0)

-- A statement that pins the id and hits one row hits the row that the search by id finds.
pub find_row-hit :
    (p : OperationTask → Bool) (i : ℕ) (ts : List OperationTask)
    → ((t : OperationTask) → p t ≡ true → t.id ≡ i)
    → Distinct ts
    → count_rows p ts ≡ 1
    → (t : OperationTask) × (find_row i ts ≡ some t) × (p t ≡ true)
unfolding count_rows find_row
find_row-hit p i [] k d c = absurd (omega arith)
find_row-hit p i (t ∷ ts) k d c = elim (Bool-cases (p t)) [
  | inl hit ↦ (t, ground (arith, k t hit), hit)
  | inr miss ↦
      let (u, found, hit) = find_row-hit p i ts k d.1 (ground arith) in
      (u, ground (arith, k u hit, All-find_row (λ v. v.id ≢ t.id) i ts d.0 found, found), hit)
]

-- Then every row with that id is hit.
pub unique_hit :
    (p : OperationTask → Bool) (i : ℕ) (ts : List OperationTask)
    → ((t : OperationTask) → p t ≡ true → t.id ≡ i)
    → Distinct ts
    → count_rows p ts ≡ 1
    → All (λ t. t.id ≡ i → p t ≡ true) ts
unfolding count_rows
unique_hit p i [] k d c = tt
unique_hit p i (t ∷ ts) k d c = elim (Bool-cases (p t)) [
  | inl hit ↦ (λ _. hit, other_ids ts (subst (λ j. All (λ u. u.id ≢ j) ts) (k t hit) d.0))
  | inr miss ↦ (
    (λ e.
        let (u, found, hit) = find_row-hit p i ts k d.1 (ground arith) in
        absurd (All-find_row (λ v. v.id ≢ t.id) i ts d.0 found (k u hit ∙ sym e))),
    unique_hit p i ts k d.1 (ground arith),
  )
]
  where
    other_ids :
        (us : List OperationTask) → All (λ u. u.id ≢ i) us → All (λ u. u.id ≡ i → p u ≡ true) us
    other_ids us h =
        All-map (λ u. u.id ≢ i) (λ u. u.id ≡ i → p u ≡ true) us (λ u ne e. absurd (ne e)) h

-- What an update leaves of the rows with an id: all of them are written.
pub find_row-written :
    (p : OperationTask → Bool) (f : OperationTask → OperationTask) (i : ℕ) (ts : List OperationTask)
    → KeepsId f
    → ((t : OperationTask) → p t ≡ true → t.id ≡ i)
    → Distinct ts
    → count_rows p ts ≡ 1
    → (t : OperationTask) × (find_row i ts ≡ some t)
      × (p t ≡ true)
      × (find_row i (update_rows p f ts) ≡ some (f t))
find_row-written p f i ts keep k d c =
    let (t, found, hit) = find_row-hit p i ts k d c in
    (t, found, hit, find_row-update p f i ts keep ∙ rw (found, hit) refl)

count-running-away :
    (p : OperationTask → Bool) (f : OperationTask → OperationTask) (i : ℕ) (ts : List OperationTask)
    → ((t : OperationTask) → p t ≡ true → t.id ≡ i)
    → All (λ u. u.id ≢ i) ts
    → count_rows is_running (update_rows p f ts) ≡ running_others i ts
unfolding count_rows update_rows
count-running-away p f i [] k h = refl
count-running-away p f i (t ∷ ts) k h = ground (arith, k t, h.0, count-running-away p f i ts k h.1)

-- Running tasks after an update: at most those that stand elsewhere and the rows of the id.
pub count-running-update :
    (p : OperationTask → Bool) (f : OperationTask → OperationTask) (i : ℕ) (ts : List OperationTask)
    → ((t : OperationTask) → p t ≡ true → t.id ≡ i)
    → Distinct ts
    → count_rows is_running (update_rows p f ts) ≤ running_others i ts + 1
unfolding count_rows update_rows
count-running-update p f i [] k d = omega arith
count-running-update p f i (t ∷ ts) k d = elim (Bool-cases (t.id == i)) [
  | inl here ↦
      let same : t.id ≡ i = (==_iff _ _).0 here in
      let rest : All (λ u. u.id ≢ i) ts = subst (λ j. All (λ u. u.id ≢ j) ts) same d.0 in
      ground (arith, count-running-away p f i ts k rest)
  | inr away ↦ ground (arith, k t, count-running-update p f i ts k d.1)
]

-- An update that makes no task run adds none.
pub count-running-stopped :
    (p : OperationTask → Bool) (f : OperationTask → OperationTask) (ts : List OperationTask)
    → ((t : OperationTask) → is_running (f t) ≡ true → is_running t ≡ true)
    → count_rows is_running (update_rows p f ts) ≤ count_rows is_running ts
unfolding count_rows update_rows
count-running-stopped p f [] k = omega arith
count-running-stopped p f (t ∷ ts) k = ground (arith, k t, count-running-stopped p f ts k)

-- A statement that pins the id and fits the row that the search finds hits one row.
pub count_rows-one :
    (p : OperationTask → Bool) (i : ℕ) (ts : List OperationTask) {t : OperationTask}
    → ((u : OperationTask) → p u ≡ true → u.id ≡ i)
    → Distinct ts
    → find_row i ts ≡ some t
    → p t ≡ true
    → count_rows p ts ≡ 1
unfolding count_rows find_row
count_rows-one p i [] k d e h = absurd (cc)
count_rows-one p i (u ∷ us) {t = t} k d e h = elim (Bool-cases (u.id == i)) [
  | inl here ↦
      let same : u.id ≡ i = (==_iff _ _).0 here in
      let rest : All (λ v. v.id ≢ i) us = subst (λ j. All (λ v. v.id ≢ j) us) same d.0 in
      ground (arith, count_rows-zero p i us k rest)
  | inr later ↦ ground (arith, count_rows-one p i us {t = t} k d.1, k u)
]

-- An update whose rows had a property and lose it lowers the count by the rows that it hits.
pub count-update-drop :
    (p q : OperationTask → Bool) (f : OperationTask → OperationTask) (ts : List OperationTask)
    → ((t : OperationTask) → p t ≡ true → (q t ≡ true) × (q (f t) ≡ false))
    → count_rows q (update_rows p f ts) + count_rows p ts ≡ count_rows q ts
unfolding count_rows update_rows
count-update-drop p q f [] k = omega arith
count-update-drop p q f (t ∷ ts) k = ground (arith, k t, count-update-drop p q f ts k)

pub Distinct-filter :
    (q : OperationTask → Bool) (ts : List OperationTask) → Distinct ts → Distinct (filter q ts)
Distinct-filter q [] d = tt
Distinct-filter q (t ∷ ts) d = elim (Bool-cases (q t)) [
  | inl y ↦ rw y (
    All-filter (λ u. u.id ≢ t.id) (λ u. u.id ≢ t.id) q ts (λ u _ k. k) d.0,
    Distinct-filter q ts d.1,
  )
  | inr n ↦ rw n (Distinct-filter q ts d.1)
]

-- With distinct ids the search by a row's id finds that row.
pub found_self : (ts : List OperationTask) → Distinct ts → All (λ u. find_row u.id ts ≡ some u) ts
unfolding find_row
found_self [] d = tt
found_self (t ∷ ts) d = (
  rw (self t) refl,
  All-map (λ u. (u.id ≢ t.id) × (find_row u.id ts ≡ some u)) (λ u. find_row u.id (t ∷ ts) ≡ some u)
      ts (λ u k. ground (arith, k))
      (All-zip (λ u. u.id ≢ t.id) (λ u. find_row u.id ts ≡ some u) ts d.0 (found_self ts d.1)),
)
  where
    self : (t : OperationTask) → (t.id == t.id) ≡ true
    self t = (==_iff _ _).1 refl
