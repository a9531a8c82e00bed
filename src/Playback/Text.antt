-- ===== src/Playback/Text.antt =====
-- The text operations that app/playback/hls.py uses, on lists of code points: `strip`, `startswith`,
-- `splitlines`, `split`, `find`. Case mapping, numbers and URLs of the standard library are fields.
pub use nsfwtrack.Base.{ℤ, pos, negsuc}
use nsfwtrack.Base.{
  ℕ, Bool, true, false, ◌&&◌, ◌||◌, Option, none, some, List, [], ◌∷◌, ◌++◌, leb, ◌==◌,
  if◌then◌else◌,
}

abbrev pub Text : Type 0
Text = List ℕ

-- `urlparse(url)`: an absent part is none.
pub record Url : Type 0 where
  pub scheme : Text
  pub hostname : Option Text
  pub username : Option Text
  pub password : Option Text

-- What the parsers call of the standard library, over the type `F` of floats. `int`, `float`,
-- `urlparse` and `urljoin` give none where they raise `ValueError`.
pub record Library (F : Type 0) : Type 0 where
  pub lower : Text → Text
  pub upper : Text → Text
  pub int : Text → Option ℤ
  pub float : Text → Option F
  pub is_finite : F → Bool
  pub is_negative : F → Bool
  pub is_zero : F → Bool
  pub zero_seconds : F
  pub plus : F → F → F
  pub urlparse : Text → Option Url
  pub urljoin : Text → Text → Option Text

abbrev pub same_text : Text → Text → Bool
same_text [] [] = true
same_text [] (b ∷ bs) = false
same_text (a ∷ s) [] = false
same_text (a ∷ s) (b ∷ t) = a == b && same_text s t

abbrev pub one_of : Text → List Text → Bool
one_of s [] = false
one_of s (t ∷ ts) = same_text s t || one_of s ts

-- `str.isspace` of one character
pub is_space : ℕ → Bool
is_space c =
    leb 9 c && leb c 13
    || leb 28 c && leb c 32
    || c == 133
    || c == 160
    || c == 5760
    || leb 8192 c && leb c 8202
    || c == 8232
    || c == 8233
    || c == 8239
    || c == 8287
    || c == 12288

unfoldable pub lstrip : Text → Text
unfolding is_space
lstrip [] = []
lstrip (c ∷ s) = let rest = lstrip s in if is_space c then rest else c ∷ s

abbrev pub is_empty : Text → Bool
is_empty [] = true
is_empty (c ∷ s) = false

-- `rstrip`
unfoldable pub rstrip : Text → Text
unfolding is_space
rstrip [] = []
rstrip (c ∷ s) = let rest = rstrip s in if is_space c && is_empty rest then [] else c ∷ rest

unfoldable pub strip : Text → Text
unfolding lstrip rstrip
strip s = rstrip (lstrip s)

unfoldable pub starts_with : Text → Text → Bool
starts_with s [] = true
starts_with [] (m ∷ ms) = false
starts_with (c ∷ s) (m ∷ ms) = c == m && starts_with s ms

-- The line boundaries of `str.splitlines`.
pub is_break : ℕ → Bool
is_break c = leb 10 c && leb c 13 || leb 28 c && leb c 30 || c == 133 || c == 8232 || c == 8233

-- `splitlines` from a line on whose text so far is `line`; a line feed after a carriage return ends
-- no line of its own.
unfoldable pub lines_from : Text → Bool → Text → List Text
unfolding is_break
lines_from line after_cr [] = if is_empty line then [] else line ∷ []
lines_from line after_cr (c ∷ s) =
    let skipped = lines_from line false s in
    let ended = lines_from [] (c == 13) s in
    let longer = lines_from (line ++ c ∷ []) false s in
    if after_cr && c == 10 then skipped else if is_break c then line ∷ ended else longer

unfoldable pub splitlines : Text → List Text
unfolding lines_from
splitlines s = lines_from [] false s

-- `s.split(c, 1)[0]`
unfoldable pub before : ℕ → Text → Text
before c [] = []
before c (x ∷ s) = let rest = before c s in if x == c then [] else x ∷ rest

-- `s.split(c, 1)[1]`, none without a `c`
unfoldable pub after : ℕ → Text → Option Text
after c [] = none
after c (x ∷ s) = let rest = after c s in if x == c then some s else rest

abbrev pub has : ℕ → Text → Bool
has c [] = false
has c (x ∷ s) = x == c || has c s

abbrev pub drop : Text → Text → Text
drop [] s = s
drop (m ∷ ms) [] = []
drop (m ∷ ms) (c ∷ s) = drop ms s

-- What stands behind the first occurrence of a marker.
unfoldable pub after_marker : Text → Text → Option Text
unfolding starts_with
after_marker marker [] = if is_empty marker then some [] else none
after_marker marker (c ∷ s) =
    let rest = after_marker marker s in
    if starts_with (c ∷ s) marker then some (drop marker (c ∷ s)) else rest
