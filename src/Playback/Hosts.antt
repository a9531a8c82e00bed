-- ===== src/Playback/Hosts.antt =====
-- app/playback/hls.py, `parse_hls_manifest`: no URL of a manifest escapes the host policy, and the
-- limit on segments.
use nsfwtrack.Base.{
  ℕ, suc, ◌≤◌, false, ◌&&◌, not, List, [], ◌∷◌, map, codes, length, is_some, ◌≡◌, refl, arith, All,
  Option-cases, inl, inr, ◌||◌,
}
use nsfwtrack.Playback.Text.{
  Text, Library, one_of, same_text, starts_with, is_empty, strip, splitlines, lstrip,
}
use nsfwtrack.Playback.Urls.{ok, truthy, host_of, web_scheme}
use nsfwtrack.Playback.Manifest.{
  HlsSegment, HlsVariant, HlsRendition, Scan, HlsManifest, read_line, read_lines, empty_scan,
  finish, has_any, parse_hls_manifest,
}
use nsfwtrack.Playback.Okay.{Okay, bind-Okay, if-Okay}
use nsfwtrack.Playback.Clean.{
  Approved, ApprovedIf, Clean, Clean-kept, read_key-Clean, read_sequence-Clean, read_version-Clean,
  read_target_duration-Clean, read_duration-Clean, read_stream-Clean, read_rendition-Clean,
  read_url-Clean,
}

module _ {F : Type 0} (lib : Library F) (allowed : List Text) where
  module _ (base_url : Text) (max_segments : ℕ) where
    read_line-Clean :
        (n : ℕ) (line : Text) (s : Scan F)
        → Clean lib allowed max_segments s
        → Okay
            (Clean lib allowed max_segments)
            (read_line lib base_url allowed max_segments n line s)
    unfolding read_line
    read_line-Clean n line s c =
        if-Okay (Clean lib allowed max_segments) (is_empty line) _ _ (λ e. c)
          (λ e.
            if-Okay (Clean lib allowed max_segments) (starts_with line (codes "#EXT-X-KEY")) _ _
              (λ e. read_key-Clean lib allowed base_url max_segments line s c)
              (λ e.
                if-Okay (Clean lib allowed max_segments)
                  (starts_with line (codes "#EXT-X-MEDIA-SEQUENCE:")) _ _
                  (λ e. read_sequence-Clean lib allowed base_url max_segments n line s c)
                  (λ e.
                    if-Okay (Clean lib allowed max_segments)
                      (starts_with line (codes "#EXT-X-VERSION:")) _ _
                      (λ e. read_version-Clean lib allowed base_url max_segments n line s c)
                      (λ e.
                        if-Okay (Clean lib allowed max_segments)
                          (starts_with line (codes "#EXT-X-TARGETDURATION:")) _ _
                          (λ e.
                            read_target_duration-Clean lib allowed base_url max_segments n line s c)
                          (λ e.
                            if-Okay (Clean lib allowed max_segments)
                              (same_text line (codes "#EXT-X-ENDLIST")) _ _
                              (λ e.
                                Clean-kept lib allowed base_url max_segments s _ c refl refl refl
                                  refl refl)
                              (λ e.
                                if-Okay (Clean lib allowed max_segments)
                                  (starts_with line (codes "#EXTINF:")) _ _
                                  (λ e.
                                    read_duration-Clean lib allowed base_url max_segments n line s
                                      c)
                                  (λ e.
                                    if-Okay (Clean lib allowed max_segments)
                                      (starts_with line (codes "#EXT-X-STREAM-INF:")) _ _
                                      (λ e.
                                        read_stream-Clean lib allowed base_url max_segments n line s
                                          c)
                                      (λ e.
                                        if-Okay (Clean lib allowed max_segments)
                                          (starts_with line (codes "#EXT-X-MEDIA:")) _ _
                                          (λ e.
                                            read_rendition-Clean lib allowed base_url max_segments
                                              line s c)
                                          (λ e.
                                            if-Okay (Clean lib allowed max_segments)
                                              (starts_with line (codes "#")) _ _ (λ e. c)
                                              (λ e.
                                                read_url-Clean lib allowed base_url max_segments n
                                                  line s c))))))))))

    pub read_lines-Clean :
        (n : ℕ) (lines : List Text) (s : Scan F)
        → Clean lib allowed max_segments s
        → Okay
            (Clean lib allowed max_segments)
            (read_lines lib base_url allowed max_segments n lines s)
    unfolding read_lines
    read_lines-Clean n [] s c = c
    read_lines-Clean n (line ∷ lines) s c =
        bind-Okay (Clean lib allowed max_segments) (Clean lib allowed max_segments)
          (read_line lib base_url allowed max_segments n line s) _ (read_line-Clean n line s c)
          (λ s' c'. read_lines-Clean (suc n) lines s' c')

  -- What holds of a manifest.
  pub record Policed (max_segments : ℕ) (m : HlsManifest F) : Type 0 where
    pub segments : All (λ (x : HlsSegment F). Approved lib allowed x.url) m.segments
    pub variants : All (λ (x : HlsVariant). Approved lib allowed x.url) m.variants
    pub audio : All (λ (x : HlsRendition). ApprovedIf lib allowed x.url) m.audio_renditions
    pub subtitles : All (λ (x : HlsRendition). ApprovedIf lib allowed x.url) m.subtitle_renditions
    pub key : ApprovedIf lib allowed m.key_uri
    pub limit : length m.segments ≤ max_segments
    pub one_kind : (has_any m.variants && has_any m.segments) ≡ false
    pub master : m.is_master ≡ has_any m.variants

  finish-Policed :
      (max_segments : ℕ) (s : Scan F)
      → Clean lib allowed max_segments s
      → Okay (Policed max_segments) (finish lib s)
  unfolding finish
  finish-Policed max_segments s c =
      if-Okay (Policed max_segments) s.expect_variant _ _ (λ e. tt)
        (λ e.
          if-Okay (Policed max_segments) (is_some s.duration) _ _ (λ e. tt)
            (λ e.
              if-Okay (Policed max_segments) (has_any s.variants && has_any s.segments) _ _
                (λ e. tt)
                (λ e. record {
                  segments = c.segments;
                  variants = c.variants;
                  audio = c.audio;
                  subtitles = c.subtitles;
                  key = c.key;
                  limit = c.limit;
                  one_kind = e;
                  master = refl;
                })))

module _ {F : Type 0} (lib : Library F) where
  empty-Clean : (allowed : List Text) (max_segments : ℕ) → Clean lib allowed max_segments empty_scan
  empty-Clean allowed max_segments = record {
    segments = tt;
    variants = tt;
    audio = tt;
    subtitles = tt;
    key = λ h. absurd (cc);
    limit = omega arith;
  }

  parse-Okay :
      (text base_url : Text) (approved_hosts : List Text) (max_segments : ℕ)
      → Okay
          (Policed lib (map lib.lower approved_hosts) max_segments)
          (parse_hls_manifest lib text base_url approved_hosts max_segments)
  unfolding parse_hls_manifest
  parse-Okay text base_url approved_hosts max_segments =
      let allowed = map lib.lower approved_hosts in
      let good = Policed lib allowed max_segments in
      let lines = map strip (splitlines text) in
      let scan =
        read_lines-Clean lib allowed base_url max_segments 1 lines empty_scan
          (empty-Clean allowed max_segments) in
      if-Okay good (not (starts_with (lstrip text) (codes "#EXTM3U"))) _ _ (λ e. tt)
        (λ e. elim (Option-cases (lib.urlparse base_url)) [
          | inl f ↦ rw f tt
          | inr (base, f) ↦ rw f (
              if-Okay good (not (web_scheme base) || not (truthy base.hostname)) _ _ (λ g. tt)
                (λ g.
                  if-Okay good (not (one_of (host_of lib base) allowed)) _ _ (λ g. tt)
                    (λ g.
                      bind-Okay (Clean lib allowed max_segments) good
                        (read_lines lib base_url allowed max_segments 1 lines empty_scan) _ scan
                        (finish-Policed lib allowed max_segments))))
        ])

  -- Whatever a manifest says and however the library resolves its URLs: if it parses, each segment and
  -- each variant has an absolute HTTP URL without credentials whose host, in lower case, is one of the
  -- approved hosts in lower case, and so have each rendition and the key where they have a URL at all;
  -- there are no more segments than the limit, and not both segments and variants, and the manifest
  -- is a master exactly if it has variants.
  pub parse_hls_manifest-Policed :
      (text base_url : Text) (approved_hosts : List Text) (max_segments : ℕ) (m : HlsManifest F)
      → parse_hls_manifest lib text base_url approved_hosts max_segments ≡ ok m
      → Policed lib (map lib.lower approved_hosts) max_segments m
  parse_hls_manifest-Policed text base_url approved_hosts max_segments m h =
      let okay = parse-Okay text base_url approved_hosts max_segments in rw h at okay
