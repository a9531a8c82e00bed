-- ===== src/Index/Invalidate.antt =====
-- app/services/media_index.py, `invalidate_media_index`, and what the media write coordination relies
-- on of it.
use nsfwtrack.Base.{
  String, Bool, false, not, Option, none, some, ◌≡◌, refl, is_some, if◌then◌else◌, or_else,
  Bool-cases, inl, inr,
}
use nsfwtrack.Index.Contracts.{MediaIndexState, new_state, IndexStore, Sealer, sign_state}
use nsfwtrack.Index.Load.{
  Result, ok, index_corrupt, LocalMedia, MediaIndexSnapshot, load_state, load_index_snapshot,
}

unfoldable pub mark_stale : Sealer → String → MediaIndexState → MediaIndexState
mark_stale z reason s = record s { state_valid = false; stale_reason = z.first 64 reason }

-- `invalidate_media_index`
unfoldable pub invalidate_media_index : Sealer → String → IndexStore → IndexStore
invalidate_media_index z reason store = if not store.schema_available then store else record store {
  state = some (sign_state z store.rows (mark_stale z reason (or_else store.state new_state)));
}

abbrev pub trusts : Result (Option MediaIndexSnapshot) → Bool
trusts (ok o) = is_some o
trusts index_corrupt = false

-- A store whose index a read uses in place of a scan.
abbrev pub trusted : Sealer → LocalMedia → IndexStore → Bool
trusted z l store = trusts (load_index_snapshot z l store)

-- After an invalidation no snapshot is loaded, and the load does not raise, whatever the tables held
-- before, with or without a state; the rows are as they were.
pub invalidate_media_index-unread :
    (z : Sealer) (l : LocalMedia) (reason : String) (store : IndexStore)
    → let after = invalidate_media_index z reason store in
      (load_index_snapshot z l after ≡ ok none) × (after.rows ≡ store.rows)
unfolding invalidate_media_index load_index_snapshot load_state mark_stale
invalidate_media_index-unread z l reason store = elim (Bool-cases store.schema_available) [
  | inl e ↦ rw e (refl, refl)
  | inr e ↦ rw e (refl, refl)
]
