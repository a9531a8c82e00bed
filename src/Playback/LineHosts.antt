-- ===== src/Playback/LineHosts.antt =====
-- app/playback/hls.py, `parse_playback_lines`: the host policy and the limit on lines.
use nsfwtrack.Base.{
  ℕ, suc, ◌≤◌, true, not, Option, some, List, [], ◌∷◌, ltb, length, ◌≡◌, refl, arith, All,
  Option-cases, inl, inr,
}
use nsfwtrack.Playback.Text.{Text, Url, Library, is_empty, strip}
use nsfwtrack.Playback.Urls.{ok, safe_url, host_of}
use nsfwtrack.Playback.Lines.{
  PlaybackLine, pieces_of, url_of, passes, read_piece, read_pieces, lower_hosts,
  parse_playback_lines,
}
use nsfwtrack.Playback.Okay.{Okay, bind-Okay, if-Okay, map-Okay}

module _ {F : Type 0} (lib : Library F) where
  -- A line with an absolute HTTP URL without credentials, its host, and a host that passes.
  pub record LineApproved (allowed : Option (List Text)) (line : PlaybackLine) : Type 0 where
    pub parsed : Url
    pub parses : lib.urlparse line.url ≡ some parsed
    pub safe : safe_url parsed ≡ true
    pub host_is : line.host ≡ host_of lib parsed
    pub host_passes : passes allowed line.host ≡ true

  read_piece-Approved :
      (source : Text) (allowed : Option (List Text)) (piece : Text)
      → Okay (LineApproved allowed) (read_piece lib source allowed piece)
  unfolding read_piece
  read_piece-Approved source allowed piece = elim (Option-cases (lib.urlparse (url_of piece))) [
    | inl e ↦ rw (read_piece, e) tt
    | inr (u, e) ↦
        rw (read_piece, e)
          (if-Okay (LineApproved allowed) (not (safe_url u)) _ _ (λ f. tt)
            (λ f.
              if-Okay (LineApproved allowed) (not (passes allowed (host_of lib u))) _ _ (λ g. tt)
                (λ g. record {
                  parsed = u;
                  parses = e;
                  safe = ground arith;
                  host_is = refl;
                  host_passes = ground arith;
                })))
  ]

  -- Lines that are approved, as many as there were pieces.
  abbrev pub LinesApproved : Option (List Text) → ℕ → List PlaybackLine → Type 0
  LinesApproved allowed n lines = All (LineApproved allowed) lines × (length lines ≡ n)

  read_pieces-Approved :
      (source : Text) (allowed : Option (List Text)) (pieces : List Text)
      → Okay (LinesApproved allowed (length pieces)) (read_pieces lib source allowed pieces)
  unfolding read_pieces
  read_pieces-Approved source allowed [] = (tt, refl)
  read_pieces-Approved source allowed (piece ∷ pieces) =
      bind-Okay (LineApproved allowed) (LinesApproved allowed (suc (length pieces)))
        (read_piece lib source allowed piece) _ (read_piece-Approved source allowed piece)
        (λ line a.
          bind-Okay (LinesApproved allowed (length pieces))
            (LinesApproved allowed (suc (length pieces))) (read_pieces lib source allowed pieces) _
            (read_pieces-Approved source allowed pieces)
            (λ lines b. ((a, b.0), omega (arith, b.1))))

  -- The lines of a result: approved, and no more than the limit.
  abbrev pub LinesPoliced : Option (List Text) → ℕ → List PlaybackLine → Type 0
  LinesPoliced allowed max_lines lines =
      All (LineApproved allowed) lines × (length lines ≤ max_lines)

  lines-Okay :
      (raw source : Text) (approved_hosts : Option (List Text)) (max_lines : ℕ)
      → Okay
          (LinesPoliced (lower_hosts lib approved_hosts) max_lines)
          (parse_playback_lines lib raw source approved_hosts max_lines)
  unfolding parse_playback_lines
  lines-Okay raw source approved_hosts max_lines =
      let allowed = lower_hosts lib approved_hosts in
      let good = LinesPoliced allowed max_lines in
      if-Okay good (is_empty (strip raw)) _ _ (λ e. (tt, omega arith))
        (λ e.
          if-Okay good (ltb max_lines (length (pieces_of raw))) _ _ (λ f. tt)
            (λ f.
              map-Okay (LinesApproved allowed (length (pieces_of raw))) good
                (read_pieces lib source allowed (pieces_of raw))
                (read_pieces-Approved source allowed (pieces_of raw))
                (λ lines a. (a.0, ground (arith, a.1, f)))))

  -- Whatever the text of a playback field, if it parses, each of its lines has an absolute HTTP URL
  -- without credentials and that URL's host in lower case, which is one of the approved hosts in lower
  -- case where hosts are limited; and there are no more lines than the limit.
  pub parse_playback_lines-Policed :
      (raw source : Text) (approved_hosts : Option (List Text)) (max_lines : ℕ)
      (lines : List PlaybackLine)
      → parse_playback_lines lib raw source approved_hosts max_lines ≡ ok lines
      → LinesPoliced (lower_hosts lib approved_hosts) max_lines lines
  parse_playback_lines-Policed raw source approved_hosts max_lines lines h =
      let okay = lines-Okay raw source approved_hosts max_lines in rw h at okay
