-- ===== src/Playback/Okay.antt =====
-- Predicates on the results of the parsers: what holds of a value if there is one.
use nsfwtrack.Base.{Bool, true, false, if◌then◌else◌, ◌≡◌, refl}
use nsfwtrack.Playback.Urls.{Result, ok, err, bind}

abbrev pub Okay {κ} : {A : Type 0} → (A → Type κ) → Result A → Type κ
Okay P (ok a) = P a
Okay P (err e) = Unit

pub bind-Okay {κ μ} :
    {A B : Type 0} (P : A → Type κ) (Q : B → Type μ) (r : Result A) (f : A → Result B)
    → Okay P r
    → ((a : A) → P a → Okay Q (f a))
    → Okay Q (bind r f)
bind-Okay P Q (ok a) f h k = k a h
bind-Okay P Q (err e) f h k = tt

pub if-Okay {κ} :
    {A : Type 0} (P : A → Type κ) (b : Bool) (r r' : Result A)
    → (b ≡ true → Okay P r)
    → (b ≡ false → Okay P r')
    → Okay P (if b then r else r')
if-Okay P true r r' h k = h refl
if-Okay P false r r' h k = k refl

pub any-Okay : {A : Type 0} (r : Result A) → Okay (λ a. Unit {0}) r
any-Okay (ok a) = tt
any-Okay (err e) = tt

pub map-Okay {κ μ} :
    {A : Type 0} (P : A → Type κ) (Q : A → Type μ) (r : Result A)
    → Okay P r
    → ((a : A) → P a → Q a)
    → Okay Q r
map-Okay P Q (ok a) h k = k a h
map-Okay P Q (err e) h k = tt
