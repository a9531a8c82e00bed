-- ===== src/Update/Token.antt =====
-- app/source_update/service.py, `sign_manual_update_plan` and `verify_manual_update_token`. Texts and
-- bytes are lists of numbers.
use nsfwtrack.Base.{
  ℕ, ◌+◌, ◌-◌, ◌*◌, Bool, true, false, not, ◌&&◌, ◌||◌, Option, none, some, List, [], ◌∷◌, ◌++◌,
  leb, ltb, ◌==◌, length, if◌then◌else◌,
}
use nsfwtrack.Egress.Probe.{cut}
use nsfwtrack.Update.Contracts.{
  invalid_request, Result, ok, err, bind, ManualUpdatePlan, valid_plan,
}

abbrev pub Bytes : Type 0
Bytes = List ℕ

-- The JSON document of a token; times in microseconds.
pub record Document : Type 0 where
  pub issued_at : ℕ
  pub token_expires_at : ℕ
  pub context_hash : Bytes
  pub plan : ManualUpdatePlan

-- What is called of hmac, hashlib, base64 and json. `unb64` gives none where the decoding raises, and
-- `loads` where the text is no document of the format, or its times or its changes are refused.
pub record Crypto : Type 0 where
  pub hmac : Bytes → Bytes → Bytes
  pub sha256 : Bytes → Bytes
  pub b64 : Bytes → Bytes
  pub unb64 : Bytes → Option Bytes
  pub dumps : Document → Bytes
  pub loads : Bytes → Option Document

abbrev pub same_bytes : Bytes → Bytes → Bool
same_bytes [] [] = true
same_bytes [] (b ∷ bs) = false
same_bytes (a ∷ s) [] = false
same_bytes (a ∷ s) (b ∷ t) = a == b && same_bytes s t

-- Microseconds.
abbrev pub seconds : ℕ → ℕ
seconds n = n * 1_000_000

-- `_TOKEN_PREFIX`
abbrev pub token_prefix : Bytes
token_prefix = 117 ∷ 49 ∷ []

abbrev pub document_of : Crypto → ManualUpdatePlan → Bytes → ℕ → ℕ → Document
document_of c plan context now ttl = record {
  issued_at = now;
  token_expires_at = now + seconds ttl;
  context_hash = c.sha256 context;
  plan = plan;
}

-- The signature of a segment, in base64; the key of the code puts a constant text before the segment.
abbrev pub signature_of : Crypto → Bytes → Bytes → Bytes
signature_of c secret segment = c.hmac secret segment

abbrev pub token_of : Bytes → Bytes → Bytes
token_of segment signature = token_prefix ++ (46 ∷ (segment ++ (46 ∷ signature)))

abbrev pub is_blank : Bytes → Bool
is_blank [] = true
is_blank (b ∷ bs) = false

unfoldable pub sign_manual_update_plan :
    Crypto → ManualUpdatePlan → Bytes → Bytes → ℕ → ℕ → Result Bytes
sign_manual_update_plan c plan secret context now ttl =
    let segment = c.b64 (c.dumps (document_of c plan context now ttl)) in
    if ltb (length secret) 32 || is_blank context || not (leb 1 ttl && leb ttl 1800)
    then err invalid_request
    else ok (token_of segment (c.b64 (signature_of c secret segment)))

-- The checks of the document: the time, the length of its life, the context, and the plan's own.
unfoldable pub accept : Crypto → Bytes → ℕ → Document → Result ManualUpdatePlan
accept c context now d =
    if ltb now d.issued_at
      || leb d.token_expires_at now
      || ltb (seconds 1800) (d.token_expires_at - d.issued_at)
    then err invalid_request
    else if not (same_bytes d.context_hash (c.sha256 context))
    then err invalid_request
    else if valid_plan d.plan
    then ok d.plan
    else err invalid_request

abbrev pub or_invalid : {A : Type 0} → Option A → Result A
or_invalid none = err invalid_request
or_invalid (some a) = ok a

-- The document of a segment: its base64, then its JSON.
unfoldable pub open_segment : Crypto → Bytes → Result Document
open_segment c segment = bind (or_invalid (c.unb64 segment)) λ text. or_invalid (c.loads text)

unfoldable pub verify_parts : Crypto → Bytes → Bytes → ℕ → ℕ → List Bytes → Result ManualUpdatePlan
verify_parts c secret context now size (prefix ∷ segment ∷ signature ∷ []) =
    if not (same_bytes prefix token_prefix) || ltb 64000 size
    then err invalid_request
    else bind (or_invalid (c.unb64 signature)) λ given.
      if not (same_bytes (signature_of c secret segment) given)
      then err invalid_request
      else bind (open_segment c segment) (accept c context now)
verify_parts c secret context now size _ = err invalid_request

unfoldable pub verify_manual_update_token :
    Crypto → Bytes → Bytes → Bytes → ℕ → Result ManualUpdatePlan
verify_manual_update_token c token secret context now =
    verify_parts c secret context now (length token) (cut token)
