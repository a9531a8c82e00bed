-- ===== src/Playback/Clean.antt =====
-- app/playback/hls.py, `parse_hls_manifest`: the invariant of its loop, kept by what a line of each
-- kind does.
use nsfwtrack.Base.{
  ℕ, ◌≤◌, true, false, not, Option, some, List, [], ◌∷◌, leb, codes, length, is_some, ◌≡◌, refl,
  arith, All, All-append, length-append, Bool-cases, Option-cases, inl, inr, ◌||◌,
}
use nsfwtrack.Playback.Text.{Text, Url, Library, one_of, same_text, strip, before}
use nsfwtrack.Playback.Urls.{
  truthy, text_of, safe_url, host_of, approved_url, attribute, int_attribute, bool_attribute,
}
use nsfwtrack.Playback.Manifest.{
  HlsSegment, HlsVariant, HlsRendition, Scan, approved_if, read_key, read_sequence, read_version,
  read_target_duration, read_duration, read_stream, read_rendition, read_url, rendition_of,
  rendition_url, add_rendition, add_variant, add_segment, at_least, argument,
}
use nsfwtrack.Playback.Okay.{Okay, bind-Okay, if-Okay, any-Okay}

module _ {F : Type 0} (lib : Library F) (allowed : List Text) where
  -- An absolute HTTP URL without credentials whose host is allowed.
  pub record Approved (url : Text) : Type 0 where
    pub parsed : Url
    pub parses : lib.urlparse url ≡ some parsed
    pub safe : safe_url parsed ≡ true
    pub host_allowed : one_of (host_of lib parsed) allowed ≡ true

  -- An optional URL that is approved unless it is missing or empty.
  abbrev pub ApprovedIf : Option Text → Type 0
  ApprovedIf uri = truthy uri ≡ true → Approved (text_of uri)

  pub approved_url-Approved :
      (value base_url : Text) → Okay Approved (approved_url lib value base_url allowed)
  unfolding approved_url
  approved_url-Approved value base_url = elim (Option-cases (lib.urljoin base_url (strip value))) [
    | inl e ↦ rw (approved_url, e) tt
    | inr (url, e) ↦ elim (Option-cases (lib.urlparse url)) [
      | inl f ↦ rw (approved_url, e, f) tt
      | inr (u, f) ↦
          rw (approved_url, e, f)
            (if-Okay Approved (not (safe_url u)) _ _ (λ g. tt)
              (λ g.
                if-Okay Approved (not (one_of (host_of lib u) allowed)) _ _ (λ h. tt)
                  (λ h. record {
                    parsed = u;
                    parses = f;
                    safe = ground arith;
                    host_allowed = ground arith;
                  })))
    ]
  ]

  -- What holds of the loop's variables.
  pub record Clean (max_segments : ℕ) (s : Scan F) : Type 0 where
    pub segments : All (λ (x : HlsSegment F). Approved x.url) s.segments
    pub variants : All (λ (x : HlsVariant). Approved x.url) s.variants
    pub audio : All (λ (x : HlsRendition). ApprovedIf x.url) s.audio_renditions
    pub subtitles : All (λ (x : HlsRendition). ApprovedIf x.url) s.subtitle_renditions
    pub key : ApprovedIf s.key_uri
    pub limit : length s.segments ≤ max_segments

  module _ (base_url : Text) (max_segments : ℕ) where
    approved_if-Approved :
        (uri : Option Text) → Okay ApprovedIf (approved_if lib base_url allowed uri)
    approved_if-Approved uri =
        if-Okay ApprovedIf (truthy uri) _ _
          (λ e.
            bind-Okay Approved ApprovedIf _ _ (approved_url-Approved (text_of uri) base_url)
              (λ url a t. a))
          (λ e t. absurd (ground (arith, e, t)))

    pub read_key-Clean :
        (line : Text) (s : Scan F)
        → Clean max_segments s
        → Okay (Clean max_segments) (read_key lib base_url allowed line s)
    unfolding read_key
    read_key-Clean line s c =
        bind-Okay ApprovedIf (Clean max_segments) _ _
          (approved_if-Approved (attribute lib line (codes "URI")))
          (λ uri a. record {
            segments = c.segments;
            variants = c.variants;
            audio = c.audio;
            subtitles = c.subtitles;
            key = a;
            limit = c.limit;
          })

    -- A step that changes no URL and adds none.
    pub Clean-kept :
        (s s' : Scan F)
        → Clean max_segments s
        → s'.segments ≡ s.segments
        → s'.variants ≡ s.variants
        → s'.audio_renditions ≡ s.audio_renditions
        → s'.subtitle_renditions ≡ s.subtitle_renditions
        → s'.key_uri ≡ s.key_uri
        → Clean max_segments s'
    Clean-kept s s' c a b d e f = record {
      segments = rw a c.segments;
      variants = rw b c.variants;
      audio = rw d c.audio;
      subtitles = rw e c.subtitles;
      key = rw f c.key;
      limit = rw a c.limit;
    }

    pub read_sequence-Clean :
        (n : ℕ) (line : Text) (s : Scan F)
        → Clean max_segments s
        → Okay (Clean max_segments) (read_sequence lib base_url allowed n line s)
    unfolding read_sequence
    read_sequence-Clean n line s c = elim (Option-cases (at_least 0 (lib.int (argument line)))) [
      | inl e ↦ rw (read_sequence, e) tt
      | inr (k, e) ↦ rw (read_sequence, e) (Clean-kept s _ c refl refl refl refl refl)
    ]

    pub read_version-Clean :
        (n : ℕ) (line : Text) (s : Scan F)
        → Clean max_segments s
        → Okay (Clean max_segments) (read_version lib base_url allowed n line s)
    unfolding read_version
    read_version-Clean n line s c = elim (Option-cases (at_least 1 (lib.int (argument line)))) [
      | inl e ↦ rw (read_version, e) tt
      | inr (k, e) ↦ rw (read_version, e) (Clean-kept s _ c refl refl refl refl refl)
    ]

    pub read_target_duration-Clean :
        (n : ℕ) (line : Text) (s : Scan F)
        → Clean max_segments s
        → Okay (Clean max_segments) (read_target_duration lib base_url allowed n line s)
    unfolding read_target_duration
    read_target_duration-Clean n line s c = elim (Option-cases (lib.float (argument line))) [
      | inl e ↦ rw (read_target_duration, e) tt
      | inr (d, e) ↦
          rw (read_target_duration, e)
            (if-Okay (Clean max_segments)
              (not (lib.is_finite d) || (lib.is_negative d || lib.is_zero d)) _ _ (λ f. tt)
              (λ f. Clean-kept s _ c refl refl refl refl refl))
    ]

    pub read_duration-Clean :
        (n : ℕ) (line : Text) (s : Scan F)
        → Clean max_segments s
        → Okay (Clean max_segments) (read_duration lib base_url allowed n line s)
    unfolding read_duration
    read_duration-Clean n line s c = elim (Option-cases (lib.float (before b',' (argument line)))) [
      | inl e ↦ rw (read_duration, e) tt
      | inr (d, e) ↦
          rw (read_duration, e)
            (if-Okay (Clean max_segments) (not (lib.is_finite d) || lib.is_negative d) _ _ (λ f. tt)
              (λ f. Clean-kept s _ c refl refl refl refl refl))
    ]

    pub read_stream-Clean :
        (n : ℕ) (line : Text) (s : Scan F)
        → Clean max_segments s
        → Okay (Clean max_segments) (read_stream lib base_url allowed n line s)
    unfolding read_stream
    read_stream-Clean n line s c =
        if-Okay (Clean max_segments) s.expect_variant _ _ (λ e. tt)
          (λ e.
            bind-Okay (λ b. Unit {0}) (Clean max_segments)
              (int_attribute lib line (codes "BANDWIDTH")) _
              (any-Okay (int_attribute lib line (codes "BANDWIDTH")))
              (λ b t. Clean-kept s _ c refl refl refl refl refl))

    rendition_url-Approved :
        (uri : Option Text) → Okay ApprovedIf (rendition_url lib base_url allowed uri)
    rendition_url-Approved uri =
        if-Okay ApprovedIf (truthy uri) _ _ (λ e. approved_if-Approved uri) (λ e t. absurd (cc))

    add_rendition-Clean :
        (kind : Text) (r : HlsRendition) (s : Scan F)
        → Clean max_segments s
        → ApprovedIf r.url
        → Clean max_segments (add_rendition lib base_url allowed kind r s)
    add_rendition-Clean kind r s c a = elim (Bool-cases (same_text kind (codes "AUDIO"))) [
      | inl e ↦ rw e (record {
        segments = c.segments;
        variants = c.variants;
        audio =
            All-append (λ (x : HlsRendition). ApprovedIf x.url) s.audio_renditions (r ∷ []) c.audio
              (a, tt);
        subtitles = c.subtitles;
        key = c.key;
        limit = c.limit;
      })
      | inr e ↦ rw e (record {
        segments = c.segments;
        variants = c.variants;
        audio = c.audio;
        subtitles =
            All-append (λ (x : HlsRendition). ApprovedIf x.url) s.subtitle_renditions (r ∷ [])
              c.subtitles (a, tt);
        key = c.key;
        limit = c.limit;
      })
    ]

    pub read_rendition-Clean :
        (line : Text) (s : Scan F)
        → Clean max_segments s
        → Okay (Clean max_segments) (read_rendition lib base_url allowed line s)
    unfolding read_rendition
    read_rendition-Clean line s c =
        let kind = lib.upper (text_of (attribute lib line (codes "TYPE"))) in
        let known = one_of kind (codes "AUDIO" ∷ codes "SUBTITLES" ∷ []) in
        let default = bool_attribute lib line (codes "DEFAULT") in
        let autoselect = bool_attribute lib line (codes "AUTOSELECT") in
        let uri = attribute lib line (codes "URI") in
        if-Okay (Clean max_segments) (not known) _ _ (λ e. c)
          (λ e.
            bind-Okay (λ b. Unit {0}) (Clean max_segments) default _ (any-Okay default)
              (λ d t.
                bind-Okay (λ b. Unit {0}) (Clean max_segments) autoselect _ (any-Okay autoselect)
                  (λ a u.
                    bind-Okay ApprovedIf (Clean max_segments)
                      (rendition_url lib base_url allowed uri) _ (rendition_url-Approved uri)
                      (λ url k.
                        add_rendition-Clean kind
                          (rendition_of lib base_url allowed line kind d a url) s c k))))

    add_variant-Clean :
        (url : Text) (s : Scan F)
        → Clean max_segments s
        → Approved url
        → Clean max_segments (add_variant lib base_url allowed url s)
    add_variant-Clean url s c a = record {
      segments = c.segments;
      variants = All-append (λ (x : HlsVariant). Approved x.url) s.variants _ c.variants (a, tt);
      audio = c.audio;
      subtitles = c.subtitles;
      key = c.key;
      limit = c.limit;
    }

    add_segment-Clean :
        (url : Text) (s : Scan F)
        → Clean max_segments s
        → Approved url
        → leb max_segments (length s.segments) ≡ false
        → Clean max_segments (add_segment lib base_url allowed url s)
    add_segment-Clean url s c a room =
        let more =
          length-append s.segments
            (record { sequence = s.sequence; url = url; duration_seconds = s.duration } ∷ []) in
        record {
          segments =
              All-append (λ (x : HlsSegment F). Approved x.url) s.segments _ c.segments (a, tt);
          variants = c.variants;
          audio = c.audio;
          subtitles = c.subtitles;
          key = c.key;
          limit = ground (arith, more, room);
        }

    pub read_url-Clean :
        (n : ℕ) (line : Text) (s : Scan F)
        → Clean max_segments s
        → Okay (Clean max_segments) (read_url lib base_url allowed max_segments n line s)
    unfolding read_url
    read_url-Clean n line s c =
        bind-Okay Approved (Clean max_segments) _ _ (approved_url-Approved line base_url) (λ url a.
          if-Okay (Clean max_segments) s.expect_variant _ _
            (λ e.
              if-Okay (Clean max_segments) (is_some s.duration) _ _ (λ f. tt)
                (λ f. add_variant-Clean url s c a))
            (λ e.
              if-Okay (Clean max_segments) (leb max_segments (length s.segments)) _ _ (λ f. tt)
                (λ f. add_segment-Clean url s c a f)))
