-- ===== src/Media/Descriptors.antt =====
-- The descriptors and locks of a process while the media lock is taken and released.
use nsfwtrack.Base.{
  ℕ, Bool, true, false, List, [], ◌∷◌, ◌==◌, if◌then◌else◌, ◌≡◌, refl, ap, ◌∙◌, arith, Bool-cases,
  inl, inr,
}
use nsfwtrack.Media.Lock.{System, Descriptors, drop_fd, close, unlock_quietly, Objects, release}

drop_fd-twice : (a : ℕ) (xs : List ℕ) → drop_fd a (drop_fd a xs) ≡ drop_fd a xs
drop_fd-twice a [] = refl
drop_fd-twice a (x ∷ xs) = elim (Bool-cases (x == a)) [
  | inl e ↦ rw e (drop_fd-twice a xs)
  | inr e ↦ rw (e, e) (ap (λ t. x ∷ t) (drop_fd-twice a xs))
]

drop_fd_comm : (a b : ℕ) (xs : List ℕ) → drop_fd a (drop_fd b xs) ≡ drop_fd b (drop_fd a xs)
drop_fd_comm a b [] = refl
drop_fd_comm a b (x ∷ xs) = ground (arith, drop_fd_comm a b xs)

-- The descriptors or locks `h` are `xs` once those of the two objects are gone.
abbrev pub Clean : ℕ → ℕ → List ℕ → List ℕ → Type 0
Clean d l h xs = drop_fd d (drop_fd l h) ≡ xs

pub Clean-cons_d : (d l : ℕ) (h xs : List ℕ) → Clean d l h xs → Clean d l (d ∷ h) xs
Clean-cons_d d l h xs c = ground arith

pub Clean-cons_l : (d l : ℕ) (h xs : List ℕ) → Clean d l h xs → Clean d l (l ∷ h) xs
Clean-cons_l d l h xs c = ground arith

Clean-drop_l : (d l : ℕ) (h xs : List ℕ) → Clean d l h xs → Clean d l (drop_fd l h) xs
Clean-drop_l d l h xs c = ap (drop_fd d) (drop_fd-twice l h) ∙ c

Clean-drop_d : (d l : ℕ) (h xs : List ℕ) → Clean d l h xs → Clean d l (drop_fd d h) xs
Clean-drop_d d l h xs c = ap (drop_fd d) (drop_fd_comm l d h) ∙ drop_fd-twice d (drop_fd l h) ∙ c

-- Descriptors that are the given ones but for the two objects'.
abbrev pub Owed : ℕ → ℕ → Descriptors → Descriptors → Type 0
Owed d l now ds = Clean d l now.opened ds.opened × Clean d l now.held ds.held

-- The same descriptors and locks.
abbrev pub Same : Descriptors → Descriptors → Type 0
Same now ds = (now.opened ≡ ds.opened) × (now.held ≡ ds.held)

unlock-Owed_l :
    (sys : System) (d l : ℕ) (b : Bool) (now ds : Descriptors)
    → Owed d l now ds
    → Owed d l (if b then unlock_quietly sys l now else now) ds
unfolding unlock_quietly
unlock-Owed_l sys d l false now ds o = o
unlock-Owed_l sys d l true now ds o = elim (Bool-cases (sys.unlocks l)) [
  | inl e ↦ rw e (o.0, Clean-drop_l d l now.held ds.held o.1)
  | inr e ↦ rw e o
]

unlock-Owed_d :
    (sys : System) (d l : ℕ) (b : Bool) (now ds : Descriptors)
    → Owed d l now ds
    → Owed d l (if b then unlock_quietly sys d now else now) ds
unfolding unlock_quietly
unlock-Owed_d sys d l false now ds o = o
unlock-Owed_d sys d l true now ds o = elim (Bool-cases (sys.unlocks d)) [
  | inl e ↦ rw e (o.0, Clean-drop_d d l now.held ds.held o.1)
  | inr e ↦ rw e o
]

pub release-Same :
    (sys : System) (o : Objects) (b c : Bool) (now ds : Descriptors)
    → Owed o.directory_fd o.lock_fd now ds
    → Same (release sys o b c now) ds
unfolding release close
release-Same sys o b c now ds owed =
    unlock-Owed_d sys o.directory_fd o.lock_fd b _ ds
      (unlock-Owed_l sys o.directory_fd o.lock_fd c now ds owed)
