-- ===== src/Agoranet/Auth/Rotation.antt =====
-- Which requests the extractor of icn-agoranet/src/auth.rs refuses after the handlers of
-- icn-agoranet/src/auth_handlers.rs have revoked or rotated a token.
use icn_v.Base.{
  ℕ, String, ◌≡◌, ◌⊎◌, sym, ap, ◌∙◌, [], some, arith, inl, inr, ok, err, map_err-ok, map_err-err,
  Result-cases, Option-cases, Bool-cases, strip_prefix,
}
use icn_v.Agoranet.Auth.Types.{JwtConfig, Claims, AuthError, AuthenticatedRequest, TokenResponse}
use icn_v.Agoranet.Auth.Access.{ensure_federation_admin}
use icn_v.Agoranet.Auth.Revocation.{RevokedToken, SubjectIssuer, key_of, TokenRevocationStore}
use icn_v.Agoranet.Auth.Requests.{Jwt, Parts, validate_token, from_request_parts}
use icn_v.Agoranet.Auth.Issuance.{Issuing, unwrap_or}
use icn_v.Agoranet.Auth.Handlers.{
  RevokeTokenRequest, RevokeTokenResponse, RotateTokenRequest, federation_issuer, foreign, or_else,
  request_token, dummy_jti, revoke_token_handler, rotated, rotation_request, rotate_token_handler,
}
use icn_v.Agoranet.Auth.Laws.{RevocationLaws}
use icn_v.Agoranet.Auth.Refusals.{Carries, from_request_parts-revoke_token}
use icn_v.Agoranet.Auth.Grants.{Issued, issue_token_iff}

module _ {V : Type 0} (jwt : Jwt V) (config : JwtConfig V) where
  validate_token_ok :
      (token : String) (claims : Claims)
      → validate_token jwt token config ≡ ok claims
      → (v : V) × (jwt.decode config.secret_key v token ≡ ok claims)
  unfolding validate_token
  validate_token_ok token claims h = (_, map_err-ok AuthError.validation_failed _ h)

  validate_token_err :
      (token : String) (x : AuthError)
      → validate_token jwt token config ≡ err x
      → (e : String) × (x ≡ AuthError.validation_failed e)
  unfolding validate_token
  validate_token_err token x h = map_err-err AuthError.validation_failed _ h

module _ {S : Type 0} (store : TokenRevocationStore S) where
  -- The token that the handler hands to the store.
  record Revokes (federation_id : String) (payload : RevokeTokenRequest) (s after : S)
      : Type 0 where
    token : RevokedToken
    revoked : after ≡ (store.revoke_token token s).1
    of_jti : (jti : String) → payload.jti ≡ some jti → some jti ≡ some token.jti
    of_subject :
        (subject : String)
        → payload.subject ≡ some subject
        → ◌≡◌ {A = SubjectIssuer}
            (subject, or_else payload.issuer (federation_issuer federation_id))
            (key_of token)

  handler-Revokes :
      (auth : AuthenticatedRequest) (federation_id : String) (payload : RevokeTokenRequest)
      (now : ℕ) (uuid : String) (s : S) (response : RevokeTokenResponse)
      → (revoke_token_handler store auth federation_id payload now uuid s).0 ≡ ok response
      → Revokes federation_id payload s
          (revoke_token_handler store auth federation_id payload now uuid s).1
  unfolding revoke_token_handler
  handler-Revokes auth federation_id payload now uuid s response h =
      elim (Result-cases (ensure_federation_admin auth federation_id)) [
        | inr (x, denied) ↦ ground (arith, denied, h)
        | inl (r, allowed) ↦ elim (Option-cases payload.jti) [
          | inr (jti, named) ↦ record {
            token =
                request_token auth.claims.sub federation_id payload now jti
                  (unwrap_or "unknown" payload.subject);
            revoked = ground (arith, allowed, named);
            of_jti = λ j e. sym e ∙ named;
            of_subject = λ subject e. ground (arith, e);
          }
          | inl unnamed ↦ elim (Option-cases payload.subject) [
            | inl nobody ↦ ground (arith, allowed, unnamed, nobody, h)
            | inr (subject, given) ↦ record {
              token =
                  request_token auth.claims.sub federation_id payload now (dummy_jti subject uuid)
                    subject;
              revoked = ground (arith, allowed, unnamed, given);
              of_jti = λ j e. ground (arith, unnamed, e);
              of_subject = λ sub e. ground (arith, e);
            }
          ]
        ]
      ]

module _ {V S : Type 0} {store : TokenRevocationStore S} {Valid : S → Type 0}
    (laws : RevocationLaws store Valid) where
  -- The revocation of a handler that succeeds takes effect: against the store that the handler
  -- leaves, a request with the identifier that was asked for is refused as revoked. When a subject
  -- was asked for, so is every request of that subject under the issuer, also when an identifier was
  -- given to single out one token. This is for a store that is valid before the handler, and that has
  -- the laws of valid stores; the one in memory is valid when its indices are those of its list.
  pub revoke_token_handler_lem :
      (jwt : Jwt V) (auth : AuthenticatedRequest) (federation_id : String)
      (payload : RevokeTokenRequest) (now : ℕ) (uuid : String) (s : S)
      → Valid s
      → (response : RevokeTokenResponse)
      → (revoke_token_handler store auth federation_id payload now uuid s).0 ≡ ok response
      → (parts : Parts V S) (claims : Claims) → Carries jwt store parts claims
      → parts.revocation_store
        ≡ some (revoke_token_handler store auth federation_id payload now uuid s).1
      → ((jti : String)
          → payload.jti ≡ some jti
          → claims.jti ≡ some jti
          → from_request_parts jwt store parts ≡ err AuthError.token_revoked)
        × ((subject : String)
            → payload.subject ≡ some subject
            → claims.sub ≡ subject
            → claims.iss ≡ or_else payload.issuer (federation_issuer federation_id)
            → from_request_parts jwt store parts ≡ err AuthError.token_revoked)
  revoke_token_handler_lem jwt auth federation_id payload now uuid s v response h parts claims c e =
      let r = handler-Revokes store auth federation_id payload now uuid s response h in
      let refused =
        (from_request_parts-revoke_token jwt store laws r.token s v parts claims c
          (e ∙ ap some r.revoked)).0 in
      (
        λ jti named same. refused (inl (same ∙ r.of_jti jti named)),
        λ subject named sub iss.
            refused (inr (ground (arith, sub, iss, r.of_subject subject named))),
      )

  rotation_effect :
      (env : Issuing V) (config : JwtConfig V) (auth : AuthenticatedRequest)
      (federation_id : String) (payload : RotateTokenRequest) (now later : ℕ) (uuid : String)
      (s : S) (resp : TokenResponse)
      → (rotate_token_handler env config store auth federation_id payload now later uuid s).0
        ≡ some (ok resp)
      → Issued env config
          (rotation_request env config store payload)
          (federation_issuer federation_id)
          later
          uuid
          resp
        × ((rotate_token_handler env config store auth federation_id payload now later uuid s).1
            ≡ (store.revoke_token (rotated env config store auth federation_id payload now) s).1)
  unfolding rotate_token_handler
  rotation_effect env config auth federation_id payload now later uuid s resp h =
      let token =
        issue_token_iff env config (rotation_request env config store payload)
          (federation_issuer federation_id) later uuid resp in
      elim (Result-cases (ensure_federation_admin auth federation_id)) [
        | inr (x, denied) ↦ ground (arith, denied, h)
        | inl (r, allowed) ↦
            elim (Bool-cases (foreign federation_id (unwrap_or [] payload.federation_ids))) [
              | inl other ↦ ground (arith, allowed, other, h)
              | inr same ↦
                  (token.0 (ground (arith, allowed, same, h)), ground (arith, allowed, same))
            ]
      ]

  -- A rotation defeats itself. The token that it issues has the subject and the issuer that it has
  -- just revoked, so that a request which carries the new token is refused: as revoked, or because
  -- the token is not valid at all. This is under the hypothesis that what a token decodes to is what
  -- was encoded.
  pub rotate_token_handler_refused :
      (env : Issuing V) (config : JwtConfig V)
      → ((c d : Claims) (token : String) (validation : V)
          → env.jwt.encode config.secret_key c ≡ ok token
          → env.jwt.decode config.secret_key validation token ≡ ok d
          → d ≡ c)
      → (auth : AuthenticatedRequest) (federation_id : String) (payload : RotateTokenRequest)
        (now later : ℕ) (uuid : String) (s : S)
      → Valid s
      → (resp : TokenResponse)
      → (rotate_token_handler env config store auth federation_id payload now later uuid s).0
        ≡ some (ok resp)
      → (parts : Parts V S) (text : String) → parts.jwt_config ≡ some config
      → parts.revocation_store
        ≡ some (rotate_token_handler env config store auth federation_id payload now later uuid s).1
      → parts.authorization ≡ some (some text)
      → strip_prefix "Bearer " text ≡ some resp.token
      → let result = from_request_parts env.jwt store parts in
        (result ≡ err AuthError.token_revoked)
        ⊎ ((e : String) × (result ≡ err (AuthError.validation_failed e)))
  unfolding from_request_parts
  rotate_token_handler_refused env config faithful auth federation_id payload now later uuid s v
        resp h parts text configured e authorized bearer =
      let (issued, after) =
        rotation_effect env config auth federation_id payload now later uuid s resp h in
      elim (Result-cases (validate_token env.jwt resp.token config)) [
        | inl (claims, valid) ↦
            let (w, decoded) = validate_token_ok env.jwt config resp.token claims valid in
            let q = faithful issued.claims claims resp.token w issued.encoded decoded in
            inl (
              (from_request_parts-revoke_token env.jwt store laws _ s v parts claims
                  (record {
                    config = config;
                    text = text;
                    token = resp.token;
                    configured = configured;
                    authorized = authorized;
                    bearer = bearer;
                    valid = valid;
                  })
                  (e ∙ ap some after)).0
                (inr (
                  ap (λ (d : Claims). (d.sub, d.iss)) q
                  ∙ ground (arith, issued.asked.subject, issued.asked.issued_by))))
        | inr (x, invalid) ↦
            let (text, q) = validate_token_err env.jwt config resp.token x invalid in
            inr (text, rw configured (rw authorized (rw bearer (rw invalid (ap err q)))))
      ]
