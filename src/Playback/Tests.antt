-- ===== src/Playback/Tests.antt =====
-- app/playback/hls.py on a small manifest and a small playback field, with a library that knows one
-- host.
use nsfwtrack.Base.{
  ℕ, true, false, Option, none, some, [], ◌∷◌, ◌++◌, ◌==◌, if◌then◌else◌, codes, length, ◌≡◌, refl,
  map, ◌+◌,
}
use nsfwtrack.Playback.Text.{
  Text, pos, Url, Library, starts_with, lstrip, rstrip, strip, lines_from, splitlines, before,
  after, after_marker,
}
use nsfwtrack.Playback.Urls.{
  ok, err, host_not_approved, safe_url, approved_url, attribute, int_attribute, bool_attribute,
}
use nsfwtrack.Playback.Manifest.{
  HlsSegment, HlsManifest, read_key, read_sequence, read_version, read_target_duration,
  read_duration, read_stream, read_rendition, read_url, read_line, read_lines, finish,
  parse_hls_manifest,
}
use nsfwtrack.Playback.Lines.{
  PlaybackLine, split_from, pieces_of, read_piece, read_pieces, lower_hosts, parse_playback_lines,
}
use nsfwtrack.Playback.Hosts.{Policed, parse_hls_manifest-Policed}
use nsfwtrack.Playback.LineHosts.{LinesPoliced, parse_playback_lines-Policed}

abbrev url : Text → Text → Url
url host rest = record {
  scheme = codes "https";
  hostname = some host;
  username = none;
  password = none;
}

abbrev on : Text → Text
on host = codes "https://" ++ host ++ codes "/"

-- URLs on `a.tv` and on `b.tv` parse; other texts are paths on `a.tv`. Floats are whole numbers.
abbrev small : Library ℕ
small = record {
  lower = λ s. s;
  upper = λ s. s;
  int = λ s. some (pos (length s));
  float = λ s. some (length s);
  is_finite = λ d. true;
  is_negative = λ d. false;
  is_zero = λ d. d == 0;
  zero_seconds = 0;
  plus = λ a b. a + b;
  urlparse = λ s.
      if starts_with s (on (codes "b.tv"))
      then some (url (codes "b.tv") s)
      else some (url (codes "a.tv") s);
  urljoin = λ base s. some (if starts_with s (codes "https://") then s else base ++ s);
}

opened : Unit {0}
unfolding lstrip rstrip strip starts_with lines_from splitlines before after after_marker safe_url
    approved_url attribute int_attribute bool_attribute read_key read_sequence read_version
    read_target_duration read_duration read_stream read_rendition read_url read_line read_lines
    finish parse_hls_manifest split_from pieces_of read_piece read_pieces parse_playback_lines
opened = tt

abbrev two_segments : Text
two_segments =
    codes "#EXTM3U"
    ++ 10 ∷ codes "#EXTINF:9,"
    ++ 10 ∷ codes "one.ts"
    ++ 13 ∷ 10 ∷ codes "two.ts"
    ++ 10 ∷ codes "#EXT-X-ENDLIST"

abbrev segment : ℕ → Text → Option ℕ → HlsSegment ℕ
segment n name duration = record {
  sequence = n;
  url = on (codes "a.tv") ++ name;
  duration_seconds = duration;
}

abbrev manifest : HlsManifest ℕ
manifest = record {
  is_master = false;
  encrypted = false;
  key_uri = none;
  segments = segment 0 (codes "one.ts") (some 1) ∷ segment 1 (codes "two.ts") none ∷ [];
  variants = [];
  audio_renditions = [];
  subtitle_renditions = [];
  version = none;
  target_duration_seconds = none;
  total_duration_seconds = 1;
  end_list = true;
}

parses :
    parse_hls_manifest small two_segments (on (codes "a.tv")) (codes "a.tv" ∷ []) 2 ≡ ok manifest
unfolding opened
parses = refl

-- A segment on another host is refused.
foreign :
    parse_hls_manifest small
      (codes "#EXTM3U" ++ 10 ∷ codes "https://b.tv/x.ts")
      (on (codes "a.tv"))
      (codes "a.tv" ∷ [])
      2
    ≡ err (host_not_approved (codes "b.tv"))
unfolding opened
foreign = refl

parse_hls_manifest-Policed_example : Policed small (map (λ s. s) (codes "a.tv" ∷ [])) 2 manifest
parse_hls_manifest-Policed_example =
    parse_hls_manifest-Policed small two_segments (on (codes "a.tv")) (codes "a.tv" ∷ []) 2 manifest
      parses

abbrev hd : PlaybackLine
hd = record {
  source = codes "m3u8";
  label = codes "HD";
  url = codes "https://a.tv/1";
  host = codes "a.tv";
}

line_parses :
    parse_playback_lines small
      (codes "HD$https://a.tv/1#")
      (codes "m3u8")
      (some (codes "a.tv" ∷ []))
      20
    ≡ ok (hd ∷ [])
unfolding opened
line_parses = refl

parse_playback_lines-Policed_example :
    LinesPoliced small (lower_hosts small (some (codes "a.tv" ∷ []))) 20 (hd ∷ [])
parse_playback_lines-Policed_example =
    parse_playback_lines-Policed small (codes "HD$https://a.tv/1#") (codes "m3u8")
      (some (codes "a.tv" ∷ [])) 20 (hd ∷ []) line_parses
