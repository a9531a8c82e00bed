-- ===== src/Update/Planned.antt =====
-- app/source_update/service.py, `build_manual_update_plan`: which changes the loop over the fields collects.
use mathlib.Core.Path.{subst}
use nsfwtrack.Base.{
  String, true, false, ◌||◌, Option, none, some, List, [], ◌∷◌, member, str_eq, str_eq_iff, All,
  All-map, ◌≡◌, ◌≢◌, refl, ap, arith, Bool-cases, inl, inr,
}
use nsfwtrack.Update.Contracts.{
  Item, ItemSource, SourceCheckFact, Std, Field, field_name, ManualFieldChange, make_change,
  too_long, repeats, Okay, bind-Okay, map-Okay,
}
use nsfwtrack.Update.Plan.{
  same_option, current_value, proposed_value, clears, changes_field, collect,
}

same_option_eq : (a b : Option String) → same_option a b ≡ false → a ≢ b
same_option_eq none none h e = cc
same_option_eq none (some b) h e = cc
same_option_eq (some a) none h e = cc
same_option_eq (some a) (some b) h e = ground (arith, h, e, str_eq_iff a b)

same_option_differs : (a b : Option String) → a ≢ b → same_option a b ≡ false
same_option_differs none none h = absurd (h refl)
same_option_differs none (some b) h = refl
same_option_differs (some a) none h = refl
same_option_differs (some a) (some b) h = elim (Bool-cases (str_eq a b)) [
  | inl e ↦ absurd (h (ap some ((str_eq_iff a b).0 e)))
  | inr e ↦ e
]

-- No text, or an empty one.
abbrev pub Blank : Option String → Type 0
Blank none = Unit
Blank (some s) = s ≡ ""

clears-Blank : (old : Option String) → clears old none ≡ false → Blank old
clears-Blank none h = tt
clears-Blank (some s) h = ground (arith, h, str_eq_iff s "")

Blank-clears : (old new : Option String) → (new ≡ none → Blank old) → clears old new ≡ false
Blank-clears none (some n) h = refl
Blank-clears (some s) (some n) h = refl
Blank-clears none none h = refl
Blank-clears (some s) none h = ground (arith, h refl, str_eq_iff s "")

module _ (std : Std) (selected : List String) (item : Item) (source : ItemSource)
    (fact : SourceCheckFact) where
  -- A change may be made: its field was selected, it goes from the current to the proposed value, these
  -- differ, and it does not clear a text.
  pub record Allowed (c : ManualFieldChange) : Type 0 where
    pub chosen : member (field_name c.field) selected ≡ true
    pub from_current : c.old ≡ current_value std item source c.field
    pub to_proposed : c.new ≡ proposed_value std fact c.field
    pub differs : c.old ≢ c.new
    pub keeps : c.new ≡ none → Blank c.old

  -- A selected field whose proposed value differs and does not clear a text.
  pub record Due (f : Field) : Type 0 where
    pub due_chosen : member (field_name f) selected ≡ true
    pub due_differs : current_value std item source f ≢ proposed_value std fact f
    pub due_keeps : proposed_value std fact f ≡ none → Blank (current_value std item source f)

  change-Allowed :
      (f : Field)
      → changes_field selected (current_value std item source f) (proposed_value std fact f) f
        ≡ true
      → Allowed (record {
        field = f;
        old = current_value std item source f;
        new = proposed_value std fact f;
      })
  unfolding changes_field
  change-Allowed f h = record {
    chosen = ground (arith, h);
    from_current = refl;
    to_proposed = refl;
    differs = same_option_eq _ _ (ground (arith, h));
    keeps = λ e.
        clears-Blank (current_value std item source f)
          (subst (λ n. clears (current_value std item source f) n ≡ false) e (ground (arith, h)));
  }

  make_change-Allowed :
      (f : Field)
      → changes_field selected (current_value std item source f) (proposed_value std fact f) f
        ≡ true
      → Okay
          (λ c. Allowed c × (c.field ≡ f))
          (make_change f (current_value std item source f) (proposed_value std fact f))
  unfolding make_change
  make_change-Allowed f h =
      elim (Bool-cases
        (too_long (current_value std item source f) || too_long (proposed_value std fact f))) [
          | inl e ↦ rw (make_change, e) tt
          | inr e ↦ rw (make_change, e) (change-Allowed f h, refl)
        ]

  Due-changes :
      (f : Field)
      → Due f
      → changes_field selected (current_value std item source f) (proposed_value std fact f) f
        ≡ true
  unfolding changes_field
  Due-changes f d =
      rw
        (
          d.due_chosen,
          Blank-clears (current_value std item source f) (proposed_value std fact f) d.due_keeps,
          same_option_differs (current_value std item source f) (proposed_value std fact f)
              d.due_differs,
        )
        refl

  abbrev pub Collects : List Field → List ManualFieldChange → Type 0
  Collects fs cs = All Allowed cs × All (λ f. Due f → repeats f cs ≡ true) fs

  repeats-first :
      (f : Field) (c : ManualFieldChange) (cs : List ManualFieldChange)
      → c.field ≡ f
      → repeats f (c ∷ cs) ≡ true
  repeats-first f c cs e =
      ground (arith, str_eq_iff (field_name f) (field_name c.field), ap field_name e)

  pub collect-Collects :
      (fs : List Field) → Okay (Collects fs) (collect std item source fact selected fs)
  unfolding collect
  collect-Collects [] = (tt, tt)
  collect-Collects (f ∷ fs) =
      elim (Bool-cases
        (changes_field selected (current_value std item source f) (proposed_value std fact f) f)) [
          | inl e ↦
              rw (collect, e)
                (bind-Okay (λ c. Allowed c × (c.field ≡ f)) (Collects (f ∷ fs))
                  (make_change f (current_value std item source f) (proposed_value std fact f)) _
                  (make_change-Allowed f e)
                  λ c h.
                    bind-Okay (Collects fs) (Collects (f ∷ fs))
                      (collect std item source fact selected fs) _ (collect-Collects fs)
                      λ cs k. (
                        (h.0, k.0),
                        (
                          λ d. repeats-first f c cs h.1,
                          All-map (λ g. Due g → repeats g cs ≡ true)
                              (λ g. Due g → repeats g (c ∷ cs) ≡ true) fs
                              (λ g due d. ground (arith, due d)) k.1,
                        ),
                      ))
          | inr e ↦
              rw (collect, e)
                (map-Okay (Collects fs) (Collects (f ∷ fs))
                  (collect std item source fact selected fs) (collect-Collects fs)
                  λ cs k. (k.0, (λ d. absurd (cc (Due-changes f d, e)), k.1)))
        ]
