-- ===== src/Agoranet/Auth/Grants.antt =====
-- What the handlers of icn-agoranet/src/auth_handlers.rs grant, and to whom.
use icn_v.Base.{refl, none}
use icn_v.Agoranet.Auth.Types.{Claims}
use icn_v.Base.{
  ℕ, String, ◌≡◌, ◌↔◌, ◌⊎◌, sym, ap, ◌∙◌, [], Option, some, arith, inl, inr, ok, err, Result-cases,
  Option-cases, prefixed,
}
use icn_v.Agoranet.Auth.Types.{
  JwtConfig, AuthError, AuthenticatedRequest, TokenIssueRequest, TokenResponse,
}
use icn_v.Agoranet.Auth.Access.{ensure_federation_admin, role_federation_admin}
use icn_v.Agoranet.Auth.Permission.{Has, HasRole, ensure_lem}
use icn_v.Agoranet.Auth.Revocation.{TokenRevocationStore}
use icn_v.Agoranet.Auth.Issuance.{Issuing, issue_token, issued_claims, unwrap_or}
use icn_v.Agoranet.Auth.Handlers.{
  RevokeTokenRequest, RotateTokenRequest, issue_jwt_token_handler, revoke_token_handler,
  rotate_token_handler,
}

-- The claims list the federation, and the role of its administrator.
abbrev pub IsAdmin : AuthenticatedRequest → String → Type 0
IsAdmin auth id = Has id auth.claims.federation_ids × HasRole auth.claims id role_federation_admin

IsAdmin-ok :
    (auth : AuthenticatedRequest) (id : String) {r : AuthenticatedRequest}
    → ensure_federation_admin auth id ≡ ok r
    → IsAdmin auth id
IsAdmin-ok auth id h = ground (arith, (ensure_lem auth id).0)

module _ {V : Type 0} (env : Issuing V) (config : JwtConfig V) where
  -- The claims are those that the request asks for.
  pub record Asked (req : TokenIssueRequest) (issuer : Option String) (now expiration : ℕ)
      (uuid : String) (c : Claims) : Type 0 where
    pub subject : c.sub ≡ req.subject
    pub issued_by : c.iss ≡ issuer
    pub audience : c.aud ≡ config.audience
    pub expiry : c.exp ≡ env.timestamp expiration
    pub issued_at : c.iat ≡ some (env.timestamp now)
    pub from_now : c.nbf ≡ none
    pub identifier : c.jti ≡ some (prefixed "jti-" uuid)
    pub federations : c.federation_ids ≡ unwrap_or [] req.federation_ids
    pub coops : c.coop_ids ≡ unwrap_or [] req.coop_ids
    pub communities : c.community_ids ≡ unwrap_or [] req.community_ids
    pub role_map : c.roles ≡ unwrap_or [] req.roles

  -- A token was issued for the request: its subject is a DID, and the text of the answer encodes
  -- the claims of the request.
  pub record Issued (req : TokenIssueRequest) (issuer : Option String) (now : ℕ) (uuid : String)
      (resp : TokenResponse) : Type 0 where
    pub expiration : ℕ
    pub claims : Claims
    pub asked : Asked req issuer now expiration uuid claims
    pub subject_is_did : env.did_from_str req.subject ≡ ok tt
    pub expires : env.plus_seconds now (unwrap_or 86400 req.expires_in) ≡ some expiration
    pub encoded : env.jwt.encode config.secret_key claims ≡ ok resp.token
    pub expires_at : resp.expires_at ≡ env.timestamp expiration
    pub token_id : resp.token_id ≡ some (prefixed "jti-" uuid)

  issued_claims-Asked :
      (req : TokenIssueRequest) (issuer : Option String) (now expiration : ℕ) (uuid : String)
      (c : Claims)
      → Asked req issuer now expiration uuid c
      → c ≡ issued_claims env config req issuer now expiration uuid
  issued_claims-Asked req issuer now expiration uuid c a = ground (
    arith, a.subject, a.issued_by, a.audience, a.expiry, a.issued_at, a.from_now, a.identifier,
    a.federations, a.coops, a.communities, a.role_map,
  )

  pub issue_token_iff :
      (req : TokenIssueRequest) (issuer : Option String) (now : ℕ) (uuid : String)
      (resp : TokenResponse)
      → (issue_token env config req issuer now uuid ≡ some (ok resp))
        ↔ Issued req issuer now uuid resp
  unfolding issue_token
  issue_token_iff req issuer now uuid resp = (
    λ h. elim (Result-cases (env.did_from_str req.subject)) [
      | inr (e, bad) ↦ ground (arith, bad, h)
      | inl (u, good) ↦
          elim (Option-cases (env.plus_seconds now (unwrap_or 86400 req.expires_in))) [
            | inl panic ↦ ground (arith, good, panic, h)
            | inr (expiration, sum) ↦ encoded expiration good sum h
          ]
    ],
    λ i.
        let encoded =
          ap (λ c. env.jwt.encode config.secret_key c)
            (sym (issued_claims-Asked req issuer now i.expiration uuid i.claims i.asked))
          ∙ i.encoded in
        ground (arith, i.subject_is_did, i.expires, encoded, i.expires_at, i.token_id),
  )
    where
      encoded :
          (expiration : ℕ)
          → env.did_from_str req.subject ≡ ok tt
          → env.plus_seconds now (unwrap_or 86400 req.expires_in) ≡ some expiration
          → issue_token env config req issuer now uuid ≡ some (ok resp)
          → Issued req issuer now uuid resp
      encoded expiration good sum h =
          elim (Result-cases (
            env.jwt.encode config.secret_key
              (issued_claims env config req issuer now expiration uuid))) [
                | inr (e, bad) ↦ ground (arith, good, sum, bad, h)
                | inl (token, text) ↦
                    let q : resp ≡ record {
                      token = token;
                      expires_at = env.timestamp expiration;
                      token_id = some (prefixed "jti-" uuid);
                    } =
                      ground (arith, good, sum, text, h) in
                    record {
                      expiration = expiration;
                      claims = issued_claims env config req issuer now expiration uuid;
                      asked = record {
                        subject = refl;
                        issued_by = refl;
                        audience = refl;
                        expiry = refl;
                        issued_at = refl;
                        from_now = refl;
                        identifier = refl;
                        federations = refl;
                        coops = refl;
                        communities = refl;
                        role_map = refl;
                      };
                      subject_is_did = good;
                      expires = sum;
                      encoded = text ∙ ap (λ (r : TokenResponse). ok r.token) (sym q);
                      expires_at = ap (λ (r : TokenResponse). r.expires_at) q;
                      token_id = ap (λ (r : TokenResponse). r.token_id) q;
                    }
              ]

  -- Whoever is no administrator of the federation can neither issue, revoke nor rotate a token of
  -- it: each handler refuses with one error, and the store stays as it was.
  pub handlers_refuse :
      {S : Type 0} (store : TokenRevocationStore S) (auth : AuthenticatedRequest)
      (federation_id : String) (issue : TokenIssueRequest) (revoke : RevokeTokenRequest)
      (rotate : RotateTokenRequest) (now later : ℕ) (uuid : String) (s : S)
      → ¬ (IsAdmin auth federation_id)
      → (e : AuthError) × ((e ≡ AuthError.unauthorized_org_access)
          ⊎ (e ≡ AuthError.not_federation_coordinator))
        × (issue_jwt_token_handler env config auth federation_id issue now uuid ≡ some (err e))
        × (revoke_token_handler store auth federation_id revoke now uuid s ≡ (err e, s))
        × (rotate_token_handler env config store auth federation_id rotate now later uuid s
            ≡ (some (err e), s))
  unfolding issue_jwt_token_handler revoke_token_handler rotate_token_handler
  handlers_refuse store auth federation_id issue revoke rotate now later uuid s outsider =
      elim (Result-cases (ensure_federation_admin auth federation_id)) [
        | inl (r, allowed) ↦ absurd (outsider (IsAdmin-ok auth federation_id allowed))
        | inr (e, denied) ↦ (
          e,
          ground (arith, denied, (ensure_lem auth federation_id).0),
          ground (arith, denied),
          ground (arith, denied),
          ground (arith, denied),
        )
      ]
