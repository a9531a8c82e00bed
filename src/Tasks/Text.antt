-- ===== src/Tasks/Text.antt =====
-- app/tasks/service.py, the text checks: `_SAFE_KEY`, `_SAFE_CODE`, `_safe_error`. An identifier is
-- a `String`; a free text is the list of its code points.
use nsfwtrack.Base.{
  ℕ, String, Bool, true, false, ◌&&◌, ◌||◌, Option, none, some, List, [], ◌∷◌, leb, ◌==◌,
  if◌then◌else◌, length, take, any, all, codes,
}

abbrev pub Text : Type 0
Text = List ℕ

is_lower : ℕ → Bool
is_lower c = leb b'a' c && leb c b'z'

is_digit : ℕ → Bool
is_digit c = leb b'0' c && leb c b'9'

-- `[a-z0-9]`
key_start : ℕ → Bool
unfolding is_lower is_digit
key_start c = is_lower c || is_digit c

-- `[a-z0-9._:-]`
key_char : ℕ → Bool
unfolding key_start
key_char c = key_start c || c == b'.' || c == b'_' || c == b':' || c == b'-'

-- `[a-z0-9_]`
code_char : ℕ → Bool
unfolding key_start
code_char c = key_start c || c == b'_'

-- `first rest{0,limit}\Z` under `fullmatch`
matches : (ℕ → Bool) → (ℕ → Bool) → ℕ → Text → Bool
matches first rest limit [] = false
matches first rest limit (c ∷ cs) = first c && all rest cs && leb (length cs) limit

-- `_SAFE_KEY.fullmatch(value) is not None`
unfoldable pub safe_key : String → Bool
unfolding matches key_start key_char
safe_key value = matches key_start key_char 95 (codes value)

-- `_SAFE_CODE.fullmatch(value) is not None`
unfoldable pub safe_code : String → Bool
unfolding matches is_lower code_char
safe_code value = matches is_lower code_char 63 (codes value)

pub starts_with : Text → Text → Bool
starts_with s [] = true
starts_with [] (m ∷ ms) = false
starts_with (c ∷ s) (m ∷ ms) = c == m && starts_with s ms

-- `marker in text`
pub contains : Text → Text → Bool
unfolding starts_with
contains [] m = starts_with [] m
contains (c ∷ s) m = starts_with (c ∷ s) m || contains s m

abbrev pub markers : List Text
markers =
    codes "http://"
    ∷ codes "https://"
    ∷ codes "token"
    ∷ codes "cookie"
    ∷ codes "password"
    ∷ codes "secret"
    ∷ codes "/home/"
    ∷ codes "/root/"
    ∷ codes "\\"
    ∷ []

-- The characters at which `str.split()` splits.
pub is_space : ℕ → Bool
is_space c =
    c == 32
    || (leb 9 c && leb c 13)
    || (leb 28 c && leb c 31)
    || c == 0x85
    || c == 0xa0
    || c == 0x1680
    || (leb 0x2000 c && leb c 0x200a)
    || c == 0x2028
    || c == 0x2029
    || c == 0x202f
    || c == 0x205f
    || c == 0x3000

-- `" ".join(detail.split())`. The flag says that a word stands before and a space is owed.
squeeze_from : Bool → Bool → Text → Text
squeeze_from started owed [] = []
squeeze_from started owed (c ∷ cs) =
    let skipped = squeeze_from started started cs in
    let kept = squeeze_from true false cs in
    if is_space c then skipped else if owed then 32 ∷ c ∷ kept else c ∷ kept

unfoldable pub squeeze : Text → Text
unfolding squeeze_from is_space
squeeze detail = squeeze_from false false detail

-- `cleaned or None`
abbrev non_empty : Text → Option Text
non_empty [] = none
non_empty (c ∷ cs) = some (c ∷ cs)

abbrev pub redacted : Text
redacted = codes "redacted"

-- `_safe_error`. `str.casefold` is a parameter.
unfoldable pub safe_error :
    (Text → Text) → Option String → Option Text → Option String × Option Text
unfolding contains safe_code squeeze
safe_error casefold none detail = (none, none)
safe_error casefold (some code) none =
    (some (if safe_code code then code else "operation_failed"), none)
safe_error casefold (some code) (some detail) = (
  some (if safe_code code then code else "operation_failed"),
  if any (contains (casefold detail)) markers
      then some redacted
      else non_empty (take 500 (squeeze detail)),
)
