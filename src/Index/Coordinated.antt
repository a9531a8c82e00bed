-- ===== src/Index/Coordinated.antt =====
-- app/services/media_index.py as the index of app/services/media_write_coordination.py.
use mathlib.Core.Path.{subst}
use nsfwtrack.Base.{
  ℕ, String, Bool, true, false, some, ◌≡◌, ◌⊎◌, inl, inr, refl, sym, ◌∙◌, if◌then◌else◌,
}
use nsfwtrack.Media.Identity.{Observed}
use nsfwtrack.Media.Lock.{System, Descriptors, returned}
use nsfwtrack.Media.Classify.{MediaFilesystemOutcome}
use nsfwtrack.Media.Coordination.{
  MediaIndex, IndexStatus, not_needed, synchronized, invalidation_failed, invalidated,
  post_mutation_refresh_failed, Refresh, refreshed, index_error, Mutation, Coordinated,
  coordinate_media_mutation,
}
use nsfwtrack.Media.Trust.{IndexLaws, Says, CannotMark, coordinate_media_mutation-Honest}
use nsfwtrack.Index.Contracts.{IndexStore, Sealer}
use nsfwtrack.Index.Load.{LocalMedia, MediaIndexSnapshot}
use nsfwtrack.Index.Refresh.{Surroundings, Coded, good, failed}
use nsfwtrack.Index.Run.{refresh_media_index}
use nsfwtrack.Index.Refreshed.{Leaves, refresh_media_index_result}
use nsfwtrack.Index.Invalidate.{
  invalidate_media_index, trusts, trusted, invalidate_media_index-unread,
}

-- How the session answers: whether a rollback returns, whether the transaction around an invalidation
-- commits, and what a refresh from the source meets.
pub record Session : Type 0 where
  pub rolls_back : IndexStore → Bool
  pub commits : String → IndexStore → Bool
  pub surrounds : String → IndexStore → Surroundings

-- How a call of `refresh_media_index` ends for its caller.
abbrev pub ended_as : Coded MediaIndexSnapshot → Refresh
ended_as (good snap) = refreshed
ended_as (failed code) = index_error code

unfoldable pub refresh_from :
    Sealer → LocalMedia → Session → String → IndexStore → Refresh × IndexStore
refresh_from z l session source s =
    let r = refresh_media_index z l (session.surrounds source s) false (some source) s in
    (ended_as r.0, r.1)

-- The index of the coordination: `with db.begin(): invalidate_media_index(…)`, and
-- `refresh_media_index(db, full=False, refresh_source=source)`.
unfoldable pub stored_index : Sealer → LocalMedia → Session → MediaIndex IndexStore
stored_index z l session = record {
  rollback = λ s. (session.rolls_back s, s);
  invalidate = λ reason s.
      if session.commits reason s then (true, invalidate_media_index z reason s) else (false, s);
  refresh = refresh_from z l session;
}

-- What the coordinated index's status says of the tables, after an operation that left `before`.
abbrev pub Stands : Sealer → LocalMedia → Session → IndexStore → IndexStatus → IndexStore → Type 0
Stands z l session before not_needed s = s ≡ before
Stands z l session before synchronized s = trusted z l s ≡ true
Stands z l session before invalidated s = trusted z l s ≡ false
Stands z l session before post_mutation_refresh_failed s = trusted z l s ≡ false
Stands z l session before invalidation_failed s =
    (at : IndexStore) × ((session.rolls_back at ≡ false)
      ⊎ ((reason : String) × (session.commits reason at ≡ false)))

module _ (z : Sealer) (l : LocalMedia) (session : Session) where
  marked :
      (reason : String) (s : IndexStore) (b : Bool)
      → let r : Bool × IndexStore =
          if b then (true, invalidate_media_index z reason s) else (false, s) in
        (r.0 ≡ true → trusted z l r.1 ≡ false) × (r.0 ≡ b)
  marked reason s true = (
    λ h. subst (λ r. trusts r ≡ false) (sym (invalidate_media_index-unread z l reason s).0) refl,
    refl,
  )
  marked reason s false = (λ h. absurd (cc), refl)

  left-trusted :
      (w : Surroundings) (before after : IndexStore) (r : Coded MediaIndexSnapshot)
      → Leaves z l w false before r after
      → ended_as r ≡ refreshed
      → trusted z l after ≡ true
  left-trusted w before after (good snap) h e = subst (λ r. trusts r ≡ true) (sym h.0) refl
  left-trusted w before after (failed code) h e = absurd (cc)

  refresh_from-trusted :
      (source : String) (s : IndexStore)
      → (refresh_from z l session source s).0 ≡ refreshed
      → trusted z l (refresh_from z l session source s).1 ≡ true
  unfolding refresh_from
  refresh_from-trusted source s e =
      let w = session.surrounds source s in
      let r = refresh_media_index z l w false (some source) s in
      left-trusted w s r.1 r.0 (refresh_media_index_result z l w false (some source) s) e

  -- The index fills what the coordination relies on.
  unfoldable stored_laws : IndexLaws (stored_index z l session)
  unfolding stored_index
  stored_laws = record {
    trusted = trusted z l;
    fresh = λ s. trusted z l s ≡ true;
    invalidate_law = λ reason s. (marked reason s (session.commits reason s)).0;
    refresh_law = refresh_from-trusted;
  }

  CannotMark-Stands :
      (before s : IndexStore)
      → CannotMark (stored_index z l session)
      → Stands z l session before invalidation_failed s
  unfolding stored_index
  CannotMark-Stands before s (at, inl h) = (at, inl h)
  CannotMark-Stands before s (at, inr (reason, h)) =
      (at, inr (reason, sym (marked reason at (session.commits reason at)).1 ∙ h))

  Says-Stands :
      (outcome : MediaFilesystemOutcome) (before s : IndexStore) (status : IndexStatus)
      → Says stored_laws outcome before status s
      → Stands z l session before status s
  unfolding stored_laws
  Says-Stands outcome before s not_needed h = h.1
  Says-Stands outcome before s synchronized h = h
  Says-Stands outcome before s invalidated h = h.1
  Says-Stands outcome before s post_mutation_refresh_failed h = h
  Says-Stands outcome before s invalidation_failed h = CannotMark-Stands before s h

  -- A coordinated operation over the stored index leaves tables that its status describes: where the
  -- index is reported as synchronized, a load returns a snapshot; where it is invalidated or its
  -- refresh has failed, no load does, whatever the tables held before; where nothing was needed, they
  -- are as the operation left them; and an invalidation is reported as failed only if some rollback
  -- or transaction of the session fails.
  pub coordinate_media_mutation-Stands :
      {T E : Type 0} (m : Mutation IndexStore T E) (sys : System) (timeout fuel : ℕ)
      (seen : Observed) (s : IndexStore) (ds : Descriptors) (c : Coordinated T E) (s' : IndexStore)
      (ds' : Descriptors)
      → coordinate_media_mutation (stored_index z l session) m sys timeout fuel seen s ds
        ≡ some (returned (c, s'), ds')
      → Stands z l session (m.operation s).1 c.index.status s'
  coordinate_media_mutation-Stands m sys timeout fuel seen s ds c s' ds' ran =
      let honest =
        coordinate_media_mutation-Honest stored_laws m sys timeout fuel seen s ds c s' ds' ran in
      Says-Stands c.outcome (m.operation s).1 s' c.index.status honest.2.index_says
