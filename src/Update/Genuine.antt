-- ===== src/Update/Genuine.antt =====
-- app/source_update/service.py: what an accepted token is.
use nsfwtrack.Base.{
  ℕ, ◌≤◌, ◌<◌, ◌-◌, true, not, ◌||◌, Option, none, some, List, [], ◌∷◌, leb, ltb, length,
  if◌then◌else◌, ◌≡◌, refl, sym, ap, ◌∙◌, arith, Bool-cases, inl, inr, ==_iff,
}
use nsfwtrack.Egress.Probe.{cut}
use nsfwtrack.Update.Contracts.{
  invalid_request, Result, ok, err, value_error, bind, ManualUpdatePlan, valid_plan, Okay,
  if_err-Okay,
}
use nsfwtrack.Update.Token.{
  Bytes, Document, Crypto, same_bytes, seconds, token_prefix, signature_of, accept, or_invalid,
  open_segment, verify_parts, verify_manual_update_token,
}

same_bytes_eq : (a b : Bytes) → same_bytes a b ≡ true → a ≡ b
same_bytes_eq [] [] h = refl
same_bytes_eq [] (y ∷ b) h = cc
same_bytes_eq (x ∷ a) [] h = cc
same_bytes_eq (x ∷ a) (y ∷ b) h = ground (arith, same_bytes_eq a b, ==_iff x y)

-- What an accepted token is: three parts, the last the signature of the second under the secret, the
-- second a document of this context whose life is at most half an hour and holds the present time.
abbrev pub Genuine : Crypto → Bytes → Bytes → Bytes → ℕ → ManualUpdatePlan → Type 0
Genuine c token secret context now plan =
    (segment : Bytes) × (signature : Bytes) × (d : Document) × (cut token
      ≡ token_prefix ∷ segment ∷ signature ∷ [])
    × (length token ≤ 64000)
    × (c.unb64 signature ≡ some (signature_of c secret segment))
    × (open_segment c segment ≡ ok d)
    × (d.plan ≡ plan)
    × (valid_plan plan ≡ true)
    × (d.context_hash ≡ c.sha256 context)
    × (d.issued_at ≤ now)
    × (now < d.token_expires_at)
    × (d.token_expires_at - d.issued_at ≤ seconds 1800)

module _ (c : Crypto) (secret context : Bytes) (now : ℕ) (token : Bytes) where
  accepted-Genuine :
      (segment signature : Bytes) (d : Document)
      → cut token ≡ token_prefix ∷ segment ∷ signature ∷ []
      → length token ≤ 64000
      → c.unb64 signature ≡ some (signature_of c secret segment)
      → open_segment c segment ≡ ok d
      → Okay (Genuine c token secret context now) (accept c context now d)
  unfolding accept
  accepted-Genuine segment signature d parts size mac opened =
      let by_plan : Result ManualUpdatePlan =
        if valid_plan d.plan then ok d.plan else err invalid_request in
      let by_context : Result ManualUpdatePlan =
        if not (same_bytes d.context_hash (c.sha256 context))
        then err invalid_request
        else by_plan in
      if_err-Okay (Genuine c token secret context now)
        (ltb now d.issued_at
          || leb d.token_expires_at now
          || ltb (seconds 1800) (d.token_expires_at - d.issued_at))
        invalid_request by_context
        λ time.
          if_err-Okay (Genuine c token secret context now)
            (not (same_bytes d.context_hash (c.sha256 context))) invalid_request by_plan
            λ same. elim (Bool-cases (valid_plan d.plan)) [
              | inr bad ↦ rw bad tt
              | inl good ↦ rw good (
                segment,
                signature,
                d,
                parts,
                size,
                mac,
                opened,
                refl,
                good,
                same_bytes_eq d.context_hash (c.sha256 context) (ground (arith, same)),
                ground (arith, time),
                ground (arith, time),
                ground (arith, time),
              )
            ]

  opened-Genuine :
      (segment signature : Bytes) (r : Result Document)
      → cut token ≡ token_prefix ∷ segment ∷ signature ∷ []
      → length token ≤ 64000
      → c.unb64 signature ≡ some (signature_of c secret segment)
      → open_segment c segment ≡ r
      → Okay (Genuine c token secret context now) (bind r (accept c context now))
  opened-Genuine segment signature (err x) parts size mac h = tt
  opened-Genuine segment signature value_error parts size mac h = tt
  opened-Genuine segment signature (ok d) parts size mac h =
      accepted-Genuine segment signature d parts size mac h

  -- What is done with the signature, if it can be decoded.
  abbrev by_mac : Bytes → Bytes → Result ManualUpdatePlan
  by_mac segment given =
      if not (same_bytes (signature_of c secret segment) given)
      then err invalid_request
      else bind (open_segment c segment) (accept c context now)

  signed-Genuine :
      (segment signature : Bytes) (o : Option Bytes)
      → cut token ≡ token_prefix ∷ segment ∷ signature ∷ []
      → length token ≤ 64000
      → c.unb64 signature ≡ o
      → Okay (Genuine c token secret context now) (bind (or_invalid o) (by_mac segment))
  signed-Genuine segment signature none parts size h = tt
  signed-Genuine segment signature (some given) parts size h =
      if_err-Okay (Genuine c token secret context now)
        (not (same_bytes (signature_of c secret segment) given)) invalid_request
        (bind (open_segment c segment) (accept c context now))
        λ same.
          let mac = same_bytes_eq (signature_of c secret segment) given (ground (arith, same)) in
          opened-Genuine segment signature (open_segment c segment) parts size
            (h ∙ ap some (sym mac)) refl

  parts-Genuine :
      (parts : List Bytes)
      → cut token ≡ parts
      → Okay
          (Genuine c token secret context now)
          (verify_parts c secret context now (length token) parts)
  unfolding verify_parts
  parts-Genuine [] e = tt
  parts-Genuine (a ∷ []) e = tt
  parts-Genuine (a ∷ b ∷ []) e = tt
  parts-Genuine (a ∷ b ∷ d ∷ x ∷ xs) e = tt
  parts-Genuine (prefix ∷ segment ∷ signature ∷ []) e =
      if_err-Okay (Genuine c token secret context now)
        (not (same_bytes prefix token_prefix) || ltb 64000 (length token)) invalid_request
        (bind (or_invalid (c.unb64 signature)) (by_mac segment))
        λ shape.
          let same = same_bytes_eq prefix token_prefix (ground (arith, shape)) in
          signed-Genuine segment signature (c.unb64 signature)
            (e ∙ ap (λ q. q ∷ segment ∷ signature ∷ []) same) (ground (arith, shape)) refl

  -- A token is accepted only if its signature is the one of its segment under the secret, and the
  -- document in it is of this context, alive at the present time, of a life of at most half an hour,
  -- and holds a valid plan, the one returned.
  pub verify_manual_update_token-Genuine :
      Okay
        (Genuine c token secret context now)
        (verify_manual_update_token c token secret context now)
  unfolding verify_manual_update_token
  verify_manual_update_token-Genuine = parts-Genuine (cut token) refl
