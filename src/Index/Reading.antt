-- ===== src/Index/Reading.antt =====
-- app/services/media_index.py, `_media_entry_from_row` and `_directory_from_row`: what is known of a
-- row that is read.
use mathlib.Core.Path.{subst}
use nsfwtrack.Base.{
  String, Bool, true, false, not, ◌||◌, Option, none, some, str_eq, str_eq_iff, if◌then◌else◌, pos,
  ◌≤ℤ◌, ◌≡◌, refl, arith,
}
use nsfwtrack.Index.Contracts.{MediaIndexEntry, Sealer, valid_token, row_payload, row_is_signed}
use nsfwtrack.Index.Load.{
  Result, ok, index_corrupt, bind, LocalMediaEntry, MediaDirectory, LocalMedia, or_corrupt,
  entry_of, media_misfit, content_misfit, media_entry_from_row, directory_misfit,
  directory_from_row,
}

abbrev pub Okay {κ} : {A : Type 0} → (A → Type κ) → Result A → Type κ
Okay P (ok a) = P a
Okay P index_corrupt = Unit

pub bind-Okay {κ} :
    {A B : Type 0} (Q : B → Type κ) (r : Result A) (f : A → Result B)
    → ((a : A) → r ≡ ok a → Okay Q (f a))
    → Okay Q (bind r f)
bind-Okay Q (ok a) f k = k a refl
bind-Okay Q index_corrupt f k = tt

pub if_corrupt-Okay {κ} :
    {A : Type 0} (Q : A → Type κ) (b : Bool) (r : Result A)
    → (b ≡ false → Okay Q r)
    → Okay Q (if b then index_corrupt else r)
if_corrupt-Okay Q true r h = tt
if_corrupt-Okay Q false r h = h refl

pub or_corrupt-some : {A : Type 0} (o : Option A) (a : A) → or_corrupt o ≡ ok a → o ≡ some a
or_corrupt-some none a h = absurd (cc)
or_corrupt-some (some b) a h = cc

-- What is known of a row that was read as a media file.
pub record IsMedia (z : Sealer) (l : LocalMedia) (r : MediaIndexEntry) (e : LocalMediaEntry)
    : Type 0 where
  pub as_media : r.record_type ≡ "media"
  pub media_signed : z.casefold r.cache_signature ≡ z.hmac (row_payload r)
  pub normal : l.normalize r.media_path ≡ some r.media_path
  pub shown : e ≡ entry_of l r
  pub held :
      (d : MediaDirectory) × (l.directory_from_index
          (l.parent r.media_path)
          r.directory_identity_json
        ≡ some d)
      × (l.token_of d ≡ r.directory_mapping_token)
  pub sized : pos 0 ≤ℤ r.size
  pub digested : r.valid ≡ true → valid_token z (z.casefold r.sha256) ≡ true

-- What is known of a row that was read as a directory.
pub record IsDirectory (z : Sealer) (l : LocalMedia) (r : MediaIndexEntry) (d : MediaDirectory)
    : Type 0 where
  pub as_directory : r.record_type ≡ "directory"
  pub directory_signed : z.casefold r.cache_signature ≡ z.hmac (row_payload r)
  pub made : l.directory_from_index r.media_path r.directory_identity_json ≡ some d
  pub mapped : l.token_of d ≡ r.directory_mapping_token

row_is_signed-hmac :
    (z : Sealer) (r : MediaIndexEntry)
    → row_is_signed z r ≡ true
    → z.casefold r.cache_signature ≡ z.hmac (row_payload r)
unfolding row_is_signed
row_is_signed-hmac z r h =
    ground (arith, h, str_eq_iff (z.casefold r.cache_signature) (z.hmac (row_payload r)))

pub media_entry_from_row-IsMedia :
    (z : Sealer) (l : LocalMedia) (r : MediaIndexEntry)
    → Okay (λ e. IsMedia z l r e) (media_entry_from_row z l r)
unfolding media_entry_from_row media_misfit content_misfit
media_entry_from_row-IsMedia z l r =
    let Q : LocalMediaEntry → Type 0 = λ e. IsMedia z l r e in
    let body : MediaDirectory → Result LocalMediaEntry = λ d.
      if media_misfit z l r d || content_misfit z r then index_corrupt else ok (entry_of l r) in
    let from : String → Result LocalMediaEntry = λ n.
      if not (str_eq n r.media_path)
      then index_corrupt
      else bind
          (or_corrupt (l.directory_from_index (l.parent r.media_path) r.directory_identity_json))
          body in
    if_corrupt-Okay Q (not (str_eq r.record_type "media") || not (row_is_signed z r))
      (bind (or_corrupt (l.normalize r.media_path)) from)
      λ sealed. bind-Okay Q (or_corrupt (l.normalize r.media_path)) from λ n normal.
        if_corrupt-Okay Q (not (str_eq n r.media_path))
          (bind
            (or_corrupt (l.directory_from_index (l.parent r.media_path) r.directory_identity_json))
            body)
          λ same.
            bind-Okay Q
              (or_corrupt
                (l.directory_from_index (l.parent r.media_path) r.directory_identity_json))
              body
              λ d read.
                if_corrupt-Okay Q (media_misfit z l r d || content_misfit z r) (ok (entry_of l r))
                  λ fits.
                    let at : n ≡ r.media_path = ground (arith, same, str_eq_iff n r.media_path) in
                    record {
                      as_media = ground (arith, sealed, str_eq_iff r.record_type "media");
                      media_signed = row_is_signed-hmac z r (ground (arith, sealed));
                      normal =
                          subst (λ p. l.normalize r.media_path ≡ some p) at
                            (or_corrupt-some (l.normalize r.media_path) n normal);
                      shown = refl;
                      held = (
                        d,
                        or_corrupt-some
                            (l.directory_from_index (l.parent r.media_path)
                              r.directory_identity_json)
                            d read,
                        ground (arith, fits, str_eq_iff (l.token_of d) r.directory_mapping_token),
                      );
                      sized = ground (arith, fits);
                      digested = λ v. ground (arith, fits, v);
                    }

pub directory_from_row-IsDirectory :
    (z : Sealer) (l : LocalMedia) (r : MediaIndexEntry)
    → Okay (λ d. IsDirectory z l r d) (directory_from_row z l r)
unfolding directory_from_row directory_misfit
directory_from_row-IsDirectory z l r =
    let Q : MediaDirectory → Type 0 = λ d. IsDirectory z l r d in
    let body : MediaDirectory → Result MediaDirectory =
      λ d. if directory_misfit l r d then index_corrupt else ok d in
    let found : Result MediaDirectory =
      or_corrupt (l.directory_from_index r.media_path r.directory_identity_json) in
    if_corrupt-Okay Q (not (str_eq r.record_type "directory") || not (row_is_signed z r))
      (bind found body)
      λ sealed. bind-Okay Q found body λ d read.
        if_corrupt-Okay Q (directory_misfit l r d) (ok d) λ fits. record {
          as_directory = ground (arith, sealed, str_eq_iff r.record_type "directory");
          directory_signed = row_is_signed-hmac z r (ground (arith, sealed));
          made =
              or_corrupt-some (l.directory_from_index r.media_path r.directory_identity_json) d
                read;
          mapped = ground (arith, fits, str_eq_iff (l.token_of d) r.directory_mapping_token);
        }
