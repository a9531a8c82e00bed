-- ===== src/Update/Tokens.antt =====
-- app/source_update/service.py: what verifying a token says about the token.
use mathlib.Core.Path.{subst}
use nsfwtrack.Base.{
  ℕ, ◌+◌, ◌≤◌, ◌-◌, Bool, true, false, not, ◌&&◌, ◌||◌, some, [], ◌∷◌, ◌++◌, leb, ltb, length,
  if◌then◌else◌, ◌≡◌, ◌≢◌, refl, ap, ◌∙◌, arith, All,
}
use nsfwtrack.Egress.Probe.{cut}
use nsfwtrack.Update.Contracts.{
  invalid_request, Result, ok, err, ManualUpdatePlan, valid_plan, Okay, if_err-Okay,
}
use nsfwtrack.Update.Token.{
  Bytes, Crypto, same_bytes, seconds, token_prefix, document_of, signature_of, token_of, is_blank,
  sign_manual_update_plan, accept, open_segment, verify_parts, verify_manual_update_token,
}

-- What base64 promises: decoding undoes it, and it has no dots.
pub record IsCodec (c : Crypto) : Type 0 where
  pub unb64-b64 : (b : Bytes) → c.unb64 (c.b64 b) ≡ some b
  pub undotted : (b : Bytes) → All (λ x. x ≢ 46) (c.b64 b)

same_bytes_refl : (b : Bytes) → same_bytes b b ≡ true
same_bytes_refl [] = refl
same_bytes_refl (x ∷ b) = ground (arith, same_bytes_refl b)

cut-undotted : (b : Bytes) → All (λ x. x ≢ 46) b → cut b ≡ b ∷ []
unfolding cut
cut-undotted [] h = refl
cut-undotted (x ∷ b) h = ground (arith, h.0, cut-undotted b h.1)

cut-dot : (a b : Bytes) → All (λ x. x ≢ 46) a → cut (a ++ (46 ∷ b)) ≡ a ∷ cut b
unfolding cut
cut-dot [] b h = ground arith
cut-dot (x ∷ a) b h = ground (arith, h.0, cut-dot a b h.1)

module _ (c : Crypto) (codec : IsCodec c) where
  cut-token_of :
      (a b : Bytes) → cut (token_of (c.b64 a) (c.b64 b)) ≡ token_prefix ∷ c.b64 a ∷ c.b64 b ∷ []
  cut-token_of a b =
      cut-dot token_prefix (c.b64 a ++ (46 ∷ c.b64 b)) (omega arith, (omega arith, tt))
      ∙ ap (◌∷◌ token_prefix) (
          cut-dot (c.b64 a) (c.b64 b) (codec.undotted a)
          ∙ ap (◌∷◌ (c.b64 a)) (cut-undotted (c.b64 b) (codec.undotted b)))

  -- What verifying makes of the token of a plan: whether it is refused.
  abbrev pub refused : Bytes → Bytes → ℕ → ℕ → ℕ → ℕ → Bool
  refused context context' issued ttl now size =
      ltb 64000 size
      || ltb now issued
      || leb (issued + seconds ttl) now
      || not (same_bytes (c.sha256 context) (c.sha256 context'))

  accept-document :
      (plan : ManualUpdatePlan) (context context' : Bytes) (issued ttl now : ℕ)
      → valid_plan plan ≡ true
      → ttl ≤ 1800
      → accept c context' now (document_of c plan context issued ttl) ≡ (
          if ltb now issued
            || leb (issued + seconds ttl) now
            || not (same_bytes (c.sha256 context) (c.sha256 context'))
          then err invalid_request
          else ok plan)
  unfolding accept
  accept-document plan context context' issued ttl now v t = rw v (
      limits (ltb now issued) (leb (issued + seconds ttl) now)
        (ltb (seconds 1800) (issued + seconds ttl - issued))
        (same_bytes (c.sha256 context) (c.sha256 context')) (ok plan) (ground (arith, t)))
    where
      limits :
          (a b l s : Bool) (r : Result ManualUpdatePlan)
          → l ≡ false
          → (if a || b || l then err invalid_request else if not s then err invalid_request else r)
            ≡ (if a || b || not s then err invalid_request else r)
      limits a b l s r e = ground (arith, e)

  verify_parts-signed :
      (plan : ManualUpdatePlan) (secret context context' : Bytes) (issued ttl now size : ℕ)
      → valid_plan plan ≡ true
      → c.loads (c.dumps (document_of c plan context issued ttl))
        ≡ some (document_of c plan context issued ttl)
      → ttl ≤ 1800
      → let segment = c.b64 (c.dumps (document_of c plan context issued ttl)) in
        verify_parts c secret context' now size
          (token_prefix ∷ segment ∷ c.b64 (signature_of c secret segment) ∷ [])
        ≡ (if refused context context' issued ttl now size then err invalid_request else ok plan)
  unfolding verify_parts open_segment
  verify_parts-signed plan secret context context' issued ttl now size v w t =
      let d = document_of c plan context issued ttl in
      let segment = c.b64 (c.dumps d) in
      rw
        (
          verify_parts,
          open_segment,
          codec.unb64-b64 (c.hmac secret segment),
          same_bytes_refl (c.hmac secret segment),
          codec.unb64-b64 (c.dumps d),
          w,
          accept-document plan context context' issued ttl now v t,
        )
        (ground arith)

  sign-Okay :
      (plan : ManualUpdatePlan) (secret context : Bytes) (issued ttl : ℕ)
      → let segment = c.b64 (c.dumps (document_of c plan context issued ttl)) in
        Okay
          (λ t. (ttl ≤ 1800) × (token_of segment (c.b64 (signature_of c secret segment)) ≡ t))
          (sign_manual_update_plan c plan secret context issued ttl)
  unfolding sign_manual_update_plan
  sign-Okay plan secret context issued ttl =
      let segment = c.b64 (c.dumps (document_of c plan context issued ttl)) in
      let signed = token_of segment (c.b64 (signature_of c secret segment)) in
      if_err-Okay (λ t. (ttl ≤ 1800) × (signed ≡ t))
        (ltb (length secret) 32 || is_blank context || not (leb 1 ttl && leb ttl 1800))
        invalid_request (ok signed) λ good. (ground (arith, good), refl)

  verify-token_of :
      (plan : ManualUpdatePlan) (secret context context' : Bytes) (issued ttl now : ℕ)
      → valid_plan plan ≡ true
      → c.loads (c.dumps (document_of c plan context issued ttl))
        ≡ some (document_of c plan context issued ttl)
      → ttl ≤ 1800
      → let segment = c.b64 (c.dumps (document_of c plan context issued ttl)) in
        let signed = token_of segment (c.b64 (signature_of c secret segment)) in
        verify_manual_update_token c signed secret context' now ≡ (
          if refused context context' issued ttl now (length signed)
          then err invalid_request
          else ok plan)
  unfolding verify_manual_update_token
  verify-token_of plan secret context context' issued ttl now v w t =
      let text = c.dumps (document_of c plan context issued ttl) in
      let mac = signature_of c secret (c.b64 text) in
      ap (verify_parts c secret context' now (length (token_of (c.b64 text) (c.b64 mac))))
        (cut-token_of text mac)
      ∙ verify_parts-signed plan secret context context' issued ttl now
          (length (token_of (c.b64 text) (c.b64 mac))) v w t

  -- The token of a valid plan, whose document JSON reads back, verifies, with the secret it was signed with, as just that plan: from the
  -- time of issue until its life is over, for a context of the same digest, and if it has at most 64000
  -- characters. Otherwise it is refused.
  pub verify-sign :
      (plan : ManualUpdatePlan) (secret context context' : Bytes) (issued ttl now : ℕ)
      (token : Bytes)
      → valid_plan plan ≡ true
      → c.loads (c.dumps (document_of c plan context issued ttl))
        ≡ some (document_of c plan context issued ttl)
      → sign_manual_update_plan c plan secret context issued ttl ≡ ok token
      → verify_manual_update_token c token secret context' now ≡ (
          if refused context context' issued ttl now (length token)
          then err invalid_request
          else ok plan)
  verify-sign plan secret context context' issued ttl now token v w e =
      let signed = rw e at (sign-Okay plan secret context issued ttl) in
      subst
        (λ t. verify_manual_update_token c t secret context' now ≡ (
          if refused context context' issued ttl now (length t)
          then err invalid_request
          else ok plan))
        signed.1 (verify-token_of plan secret context context' issued ttl now v w signed.0)
