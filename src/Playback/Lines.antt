-- ===== src/Playback/Lines.antt =====
-- app/playback/hls.py, `parse_playback_lines`.
use nsfwtrack.Base.{
  ℕ, Bool, true, not, Option, none, some, List, [], ◌∷◌, ◌++◌, map, filter, ltb, ◌==◌,
  if◌then◌else◌, codes, length,
}
use nsfwtrack.Playback.Text.{Text, Library, one_of, strip, is_empty, has, before, after}
use nsfwtrack.Playback.Urls.{
  Result, ok, err, bind, too_many_lines, value_error, unsafe_url, host_not_approved, text_of,
  safe_url, host_of,
}

pub record PlaybackLine : Type 0 where
  pub source : Text
  pub label : Text
  pub url : Text
  pub host : Text

-- `raw.split(c)`, from a piece on whose text so far is `piece`.
unfoldable pub split_from : ℕ → Text → Text → List Text
split_from c piece [] = piece ∷ []
split_from c piece (x ∷ s) =
    let ended = split_from c [] s in
    let longer = split_from c (piece ++ x ∷ []) s in if x == c then piece ∷ ended else longer

-- `[piece.strip() for piece in raw.split("#") if piece.strip()]`
unfoldable pub pieces_of : Text → List Text
unfolding split_from
pieces_of raw = filter (λ p. not (is_empty p)) (map strip (split_from b'#' [] raw))

-- `label.strip() or "default"`
abbrev pub label_or : Text → Text
label_or label = let l = strip label in if is_empty l then codes "default" else l

-- The label and the URL of a piece.
abbrev pub label_of : Text → Text
label_of piece = if has b'$' piece then label_or (before b'$' piece) else codes "default"

abbrev pub url_of : Text → Text
url_of piece = strip (if has b'$' piece then text_of (after b'$' piece) else piece)

-- Whether a host passes, if hosts are limited.
abbrev pub passes : Option (List Text) → Text → Bool
passes none host = true
passes (some allowed) host = one_of host allowed

module _ {F : Type 0} (lib : Library F) where
  unfoldable pub read_piece : Text → Option (List Text) → Text → Result PlaybackLine
  read_piece source allowed piece = elim (lib.urlparse (url_of piece)) [
    | none ↦ err value_error
    | some u ↦
        if not (safe_url u)
        then err unsafe_url
        else if not (passes allowed (host_of lib u))
        then err (host_not_approved (host_of lib u))
        else ok (record {
          source = source;
          label = label_of piece;
          url = url_of piece;
          host = host_of lib u;
        })
  ]

  unfoldable pub read_pieces : Text → Option (List Text) → List Text → Result (List PlaybackLine)
  unfolding read_piece
  read_pieces source allowed [] = ok []
  read_pieces source allowed (piece ∷ pieces) =
      bind (read_piece source allowed piece)
        (λ line. bind (read_pieces source allowed pieces) (λ lines. ok (line ∷ lines)))

  abbrev pub lower_hosts : Option (List Text) → Option (List Text)
  lower_hosts none = none
  lower_hosts (some hosts) = some (map lib.lower hosts)

  unfoldable pub parse_playback_lines :
      Text → Text → Option (List Text) → ℕ → Result (List PlaybackLine)
  unfolding read_pieces pieces_of
  parse_playback_lines raw source approved_hosts max_lines =
      if is_empty (strip raw)
      then ok []
      else if ltb max_lines (length (pieces_of raw))
      then err too_many_lines
      else read_pieces source (lower_hosts approved_hosts) (pieces_of raw)
