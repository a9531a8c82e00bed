-- ===== src/Playback/Urls.antt =====
-- app/playback/hls.py: `PlaybackError`, `_approved_url` and the attribute readers.
use nsfwtrack.Base.{
  ℕ, Bool, true, false, ◌||◌, not, Option, none, some, List, [], ◌∷◌, ◌++◌, ◌==◌, if◌then◌else◌,
  codes,
}
use nsfwtrack.Playback.Text.{
  Text, ℤ, Url, Library, same_text, one_of, strip, starts_with, before, after, has, after_marker,
  is_empty,
}

-- The `PlaybackError`s by their messages, with the host, name or line that a message holds;
-- `value_error` is a `ValueError` of `urlparse` or `urljoin` that passes through.
pub data PlaybackError : Type 0 where
  no_header unsafe_base base_not_approved unsafe_url : PlaybackError
  host_not_approved : Text → PlaybackError
  invalid_attribute : Text → PlaybackError
  invalid_sequence invalid_version invalid_target_duration invalid_duration : ℕ → PlaybackError
  variant_missing_before mixed_tags : ℕ → PlaybackError
  too_many_segments variant_missing segment_missing mixed_entries too_many_lines : PlaybackError
  value_error : PlaybackError

pub data Result (A : Type 0) : Type 0 where
  ok : A → Result A
  err : PlaybackError → Result A

abbrev pub bind : {A B : Type 0} → Result A → (A → Result B) → Result B
bind (ok a) f = f a
bind (err e) f = err e

-- Whether an optional text is truthy.
abbrev pub truthy : Option Text → Bool
truthy none = false
truthy (some s) = not (is_empty s)

abbrev pub text_of : Option Text → Text
text_of none = []
text_of (some s) = s

-- `parsed.scheme not in {"http", "https"}`
abbrev pub web_scheme : Url → Bool
web_scheme u = one_of u.scheme (codes "http" ∷ codes "https" ∷ [])

-- The tests on an absolute URL that both parsers share.
unfoldable pub safe_url : Url → Bool
safe_url u =
    not (not (web_scheme u) || not (truthy u.hostname) || truthy u.username || truthy u.password)

module _ {F : Type 0} (lib : Library F) where
  -- `parsed.hostname.lower()` of a URL that has one
  abbrev pub host_of : Url → Text
  host_of u = lib.lower (text_of u.hostname)

  -- `_approved_url`
  unfoldable pub approved_url : Text → Text → List Text → Result Text
  unfolding safe_url strip
  approved_url value base_url approved_hosts = elim (lib.urljoin base_url (strip value)) [
    | none ↦ err value_error
    | some url ↦ elim (lib.urlparse url) [
      | none ↦ err value_error
      | some u ↦
          if not (safe_url u)
          then err unsafe_url
          else if not (one_of (host_of u) approved_hosts)
          then err (host_not_approved (host_of u))
          else ok url
    ]
  ]

  -- What is quoted at the start of a text that follows a quotation mark.
  abbrev pub quoted : Text → Option Text
  quoted rest = if has b'"' rest then some (before b'"' rest) else none

  abbrev pub unquoted : Text → Option Text
  unquoted rest =
      let value = strip (before b',' rest) in if is_empty value then none else some value

  -- `_attribute`
  unfoldable pub attribute : Text → Text → Option Text
  unfolding after_marker before strip after starts_with
  attribute line name = elim (after_marker (name ++ codes "=\"") line) [
    | some rest ↦ quoted rest
    | none ↦ elim (after_marker (name ++ codes "=") line) [
      | none ↦ none
      | some [] ↦ none
      | some (c ∷ rest) ↦ if c == b'"' then quoted rest else unquoted (c ∷ rest)
    ]
  ]

  -- `int(value)` or the error
  abbrev pub int_of : Text → Text → Result (Option ℤ)
  int_of name value = elim (lib.int value) [
    | none ↦ err (invalid_attribute name)
    | some n ↦ ok (some n)
  ]

  -- `_int_attribute`
  unfoldable pub int_attribute : Text → Text → Result (Option ℤ)
  unfolding attribute after_marker before
  int_attribute line name = elim (attribute line name) [
    | some value ↦ int_of name value
    | none ↦ elim (after_marker (name ++ codes "=") line) [
      | none ↦ ok none
      | some rest ↦ int_of name (before b',' rest)
    ]
  ]

  -- `_bool_attribute`
  unfoldable pub bool_attribute : Text → Text → Result Bool
  unfolding attribute
  bool_attribute line name = elim (attribute line name) [
    | none ↦ ok false
    | some value ↦
        if same_text (lib.upper value) (codes "YES")
        then ok true
        else if same_text (lib.upper value) (codes "NO")
        then ok false
        else err (invalid_attribute name)
  ]
