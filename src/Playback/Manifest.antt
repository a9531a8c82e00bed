-- ===== src/Playback/Manifest.antt =====
-- app/playback/hls.py, `parse_hls_manifest`: the loop over the lines as a fold of one step per line.
use nsfwtrack.Base.{
  ℕ, suc, ◌+◌, Bool, true, false, ◌&&◌, ◌||◌, not, Option, none, some, List, [], ◌∷◌, ◌++◌, map,
  leb, if◌then◌else◌, codes, length, is_some,
}
use nsfwtrack.Playback.Text.{
  Text, ℤ, pos, negsuc, Library, same_text, one_of, strip, lstrip, starts_with, splitlines, before,
  after, is_empty,
}
use nsfwtrack.Playback.Urls.{
  no_header, unsafe_base, base_not_approved, invalid_sequence, invalid_version,
  invalid_target_duration, invalid_duration, variant_missing_before, mixed_tags, too_many_segments,
  variant_missing, segment_missing, mixed_entries, value_error, Result, ok, err, bind, truthy,
  text_of, web_scheme, host_of, approved_url, attribute, int_attribute, bool_attribute,
}

pub record HlsSegment (F : Type 0) : Type 0 where
  pub sequence : ℕ
  pub url : Text
  pub duration_seconds : Option F

pub record HlsVariant : Type 0 where
  pub url : Text
  pub bandwidth : Option ℤ
  pub resolution : Option Text

pub record HlsRendition : Type 0 where
  pub kind : Text
  pub group_id : Option Text
  pub name : Option Text
  pub language : Option Text
  pub default : Bool
  pub autoselect : Bool
  pub url : Option Text

-- The local variables of the loop.
pub record Scan (F : Type 0) : Type 0 where
  pub segments : List (HlsSegment F)
  pub variants : List HlsVariant
  pub audio_renditions : List HlsRendition
  pub subtitle_renditions : List HlsRendition
  pub encrypted : Bool
  pub key_uri : Option Text
  pub duration : Option F
  pub sequence : ℕ
  pub expect_variant : Bool
  pub variant_bandwidth : Option ℤ
  pub variant_resolution : Option Text
  pub version : Option ℕ
  pub target_duration : Option F
  pub end_list : Bool

pub record HlsManifest (F : Type 0) : Type 0 where
  pub is_master : Bool
  pub encrypted : Bool
  pub key_uri : Option Text
  pub segments : List (HlsSegment F)
  pub variants : List HlsVariant
  pub audio_renditions : List HlsRendition
  pub subtitle_renditions : List HlsRendition
  pub version : Option ℕ
  pub target_duration_seconds : Option F
  pub total_duration_seconds : F
  pub end_list : Bool

-- `line.split(":", 1)[1]` of a line that has a colon
abbrev pub argument : Text → Text
argument line = text_of (after b':' line)

abbrev pub at_least : ℕ → Option ℤ → Option ℕ
at_least low none = none
at_least low (some (negsuc n)) = none
at_least low (some (pos n)) = if leb low n then some n else none

module _ {F : Type 0} (lib : Library F) (base_url : Text) (allowed : List Text) where
  -- An optional URL, if it is truthy.
  abbrev pub approved_if : Option Text → Result (Option Text)
  approved_if uri =
      if truthy uri
      then bind (approved_url lib (text_of uri) base_url allowed) (λ url. ok (some url))
      else ok uri

  -- The key's URL: kept as it is where it is empty.
  unfoldable pub read_key : Text → Scan F → Result (Scan F)
  read_key line s =
      bind (approved_if (attribute lib line (codes "URI")))
        (λ uri. ok (record s { encrypted = true; key_uri = uri }))

  unfoldable pub read_sequence : ℕ → Text → Scan F → Result (Scan F)
  read_sequence n line s = elim (at_least 0 (lib.int (argument line))) [
    | none ↦ err (invalid_sequence n)
    | some k ↦ ok (record s { sequence = k })
  ]

  unfoldable pub read_version : ℕ → Text → Scan F → Result (Scan F)
  read_version n line s = elim (at_least 1 (lib.int (argument line))) [
    | none ↦ err (invalid_version n)
    | some k ↦ ok (record s { version = some k })
  ]

  unfoldable pub read_target_duration : ℕ → Text → Scan F → Result (Scan F)
  read_target_duration n line s = elim (lib.float (argument line)) [
    | none ↦ err (invalid_target_duration n)
    | some d ↦
        if not (lib.is_finite d) || (lib.is_negative d || lib.is_zero d)
        then err (invalid_target_duration n)
        else ok (record s { target_duration = some d })
  ]

  unfoldable pub read_duration : ℕ → Text → Scan F → Result (Scan F)
  read_duration n line s = elim (lib.float (before b',' (argument line))) [
    | none ↦ err (invalid_duration n)
    | some d ↦
        if not (lib.is_finite d) || lib.is_negative d
        then err (invalid_duration n)
        else ok (record s { duration = some d })
  ]

  unfoldable pub read_stream : ℕ → Text → Scan F → Result (Scan F)
  read_stream n line s =
      if s.expect_variant
      then err (variant_missing_before n)
      else bind (int_attribute lib line (codes "BANDWIDTH")) (λ bandwidth. ok (record s {
        expect_variant = true;
        variant_bandwidth = bandwidth;
        variant_resolution = attribute lib line (codes "RESOLUTION");
      }))

  abbrev pub rendition_of : Text → Text → Bool → Bool → Option Text → HlsRendition
  rendition_of line kind default autoselect url = record {
    kind = lib.lower kind;
    group_id = attribute lib line (codes "GROUP-ID");
    name = attribute lib line (codes "NAME");
    language = attribute lib line (codes "LANGUAGE");
    default = default;
    autoselect = autoselect;
    url = url;
  }

  -- `uri` becomes none where it is missing or empty.
  abbrev pub rendition_url : Option Text → Result (Option Text)
  rendition_url uri = if truthy uri then approved_if uri else ok none

  abbrev pub add_rendition : Text → HlsRendition → Scan F → Scan F
  add_rendition kind r s =
      if same_text kind (codes "AUDIO")
      then record s { audio_renditions = s.audio_renditions ++ r ∷ [] }
      else record s { subtitle_renditions = s.subtitle_renditions ++ r ∷ [] }

  unfoldable pub read_rendition : Text → Scan F → Result (Scan F)
  read_rendition line s =
      let kind = lib.upper (text_of (attribute lib line (codes "TYPE"))) in
      if not (one_of kind (codes "AUDIO" ∷ codes "SUBTITLES" ∷ []))
      then ok s
      else bind (bool_attribute lib line (codes "DEFAULT")) (λ default.
        bind (bool_attribute lib line (codes "AUTOSELECT")) (λ autoselect.
          bind (rendition_url (attribute lib line (codes "URI")))
            (λ url. ok (add_rendition kind (rendition_of line kind default autoselect url) s))))

  abbrev pub add_variant : Text → Scan F → Scan F
  add_variant url s = record s {
    variants =
        s.variants
        ++ record { url = url; bandwidth = s.variant_bandwidth; resolution = s.variant_resolution }
          ∷ [];
    expect_variant = false;
    variant_bandwidth = none;
    variant_resolution = none;
  }

  abbrev pub add_segment : Text → Scan F → Scan F
  add_segment url s = record s {
    segments =
        s.segments
        ++ record { sequence = s.sequence; url = url; duration_seconds = s.duration } ∷ [];
    sequence = s.sequence + 1;
    duration = none;
  }

  -- A line that is a URL.
  unfoldable pub read_url : ℕ → ℕ → Text → Scan F → Result (Scan F)
  read_url max_segments n line s = bind (approved_url lib line base_url allowed) (λ url.
      if s.expect_variant
      then if is_some s.duration then err (mixed_tags n) else ok (add_variant url s)
      else if leb max_segments (length s.segments)
      then err too_many_segments
      else ok (add_segment url s))

  -- One line of the loop, its number given.
  unfoldable pub read_line : ℕ → ℕ → Text → Scan F → Result (Scan F)
  unfolding read_key read_sequence read_version read_target_duration read_duration read_stream
      read_rendition read_url
  read_line max_segments n line s =
      if is_empty line
      then ok s
      else if starts_with line (codes "#EXT-X-KEY")
      then read_key line s
      else if starts_with line (codes "#EXT-X-MEDIA-SEQUENCE:")
      then read_sequence n line s
      else if starts_with line (codes "#EXT-X-VERSION:")
      then read_version n line s
      else if starts_with line (codes "#EXT-X-TARGETDURATION:")
      then read_target_duration n line s
      else if same_text line (codes "#EXT-X-ENDLIST")
      then ok (record s { end_list = true })
      else if starts_with line (codes "#EXTINF:")
      then read_duration n line s
      else if starts_with line (codes "#EXT-X-STREAM-INF:")
      then read_stream n line s
      else if starts_with line (codes "#EXT-X-MEDIA:")
      then read_rendition line s
      else if starts_with line (codes "#")
      then ok s
      else read_url max_segments n line s

  unfoldable pub read_lines : ℕ → ℕ → List Text → Scan F → Result (Scan F)
  read_lines max_segments n [] s = ok s
  read_lines max_segments n (line ∷ lines) s =
      bind (read_line max_segments n line s) (λ s'. read_lines max_segments (suc n) lines s')

abbrev pub has_any : {A : Type 0} → List A → Bool
has_any [] = false
has_any (x ∷ xs) = true

abbrev pub empty_scan : {F : Type 0} → Scan F
empty_scan = record {
  segments = [];
  variants = [];
  audio_renditions = [];
  subtitle_renditions = [];
  encrypted = false;
  key_uri = none;
  duration = none;
  sequence = 0;
  expect_variant = false;
  variant_bandwidth = none;
  variant_resolution = none;
  version = none;
  target_duration = none;
  end_list = false;
}

module _ {F : Type 0} (lib : Library F) where
  -- `segment.duration_seconds or 0.0`
  abbrev pub seconds_of : Option F → F
  seconds_of none = lib.zero_seconds
  seconds_of (some d) = d

  -- The `sum` of them, from a sum so far.
  abbrev pub total_from : F → List (HlsSegment F) → F
  total_from sum [] = sum
  total_from sum (x ∷ xs) = total_from (lib.plus sum (seconds_of x.duration_seconds)) xs

  -- The checks after the loop, and the result.
  unfoldable pub finish : Scan F → Result (HlsManifest F)
  finish s =
      if s.expect_variant
      then err variant_missing
      else if is_some s.duration
      then err segment_missing
      else if has_any s.variants && has_any s.segments
      then err mixed_entries
      else ok (record {
        is_master = has_any s.variants;
        encrypted = s.encrypted;
        key_uri = s.key_uri;
        segments = s.segments;
        variants = s.variants;
        audio_renditions = s.audio_renditions;
        subtitle_renditions = s.subtitle_renditions;
        version = s.version;
        target_duration_seconds = s.target_duration;
        total_duration_seconds = total_from lib.zero_seconds s.segments;
        end_list = s.end_list;
      })

  unfoldable pub parse_hls_manifest : Text → Text → List Text → ℕ → Result (HlsManifest F)
  unfolding finish
  parse_hls_manifest text base_url approved_hosts max_segments =
      let allowed = map lib.lower approved_hosts in
      if not (starts_with (lstrip text) (codes "#EXTM3U"))
      then err no_header
      else elim (lib.urlparse base_url) [
        | none ↦ err value_error
        | some base ↦
            if not (web_scheme base) || not (truthy base.hostname)
            then err unsafe_base
            else if not (one_of (host_of lib base) allowed)
            then err base_not_approved
            else bind
                (read_lines lib base_url allowed max_segments 1 (map strip (splitlines text))
                  empty_scan)
                (λ s. finish s)
      ]
