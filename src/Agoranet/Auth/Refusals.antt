-- ===== src/Agoranet/Auth/Refusals.antt =====
-- Which requests the extractor of icn-agoranet/src/auth.rs lets through, and what a revocation
-- changes.
use icn_v.Base.{
  String, ◌≡◌, ◌≢◌, ◌↔◌, ◌⊎◌, refl, sym, ap, ◌∙◌, true, false, Option, none, some, arith, inl, inr,
  Result, ok, err, ◌>>=◌, bind-ok, ok_or, ok_or-ok, strip_prefix, Bool-cases, Option-cases,
}
use icn_v.Agoranet.Auth.Types.{JwtConfig, Claims, AuthError, AuthenticatedRequest, to_scope}
use icn_v.Agoranet.Auth.Revocation.{
  RevokedToken, SubjectIssuer, key_of, TokenRevocationStore, check_token_not_revoked,
  check_subject_not_revoked,
}
use icn_v.Agoranet.Auth.Requests.{Jwt, Parts, validate_token, check_revocation, from_request_parts}
use icn_v.Agoranet.Auth.Laws.{RevocationLaws}

module _ {V S : Type 0} (jwt : Jwt V) (store : TokenRevocationStore S) where
  -- The request carries a bearer token whose claims are valid.
  pub record Carries (parts : Parts V S) (claims : Claims) : Type 0 where
    pub config : JwtConfig V
    pub text : String
    pub token : String
    pub configured : parts.jwt_config ≡ some config
    pub authorized : parts.authorization ≡ some (some text)
    pub bearer : strip_prefix "Bearer " text ≡ some token
    pub valid : validate_token jwt token config ≡ ok claims

  -- Neither the token's identifier nor its subject and issuer are revoked.
  abbrev pub NotRevoked : Claims → S → Type 0
  NotRevoked claims s =
      ((id : String) → claims.jti ≡ some id → store.is_revoked id s ≡ false)
      × (store.is_revoked_by_subject_issuer claims.sub claims.iss s ≡ false)

  abbrev pub Unrevoked : Claims → Option S → Type 0
  Unrevoked claims none = Unit
  Unrevoked claims (some s) = NotRevoked claims s

  check_token_iff :
      (jti : Option String) (s : S)
      → (check_token_not_revoked store jti s ≡ ok tt)
        ↔ ((id : String) → jti ≡ some id → store.is_revoked id s ≡ false)
  unfolding check_token_not_revoked
  check_token_iff none s = (λ h id e. cc, λ h. refl)
  check_token_iff (some id) s = (
    λ h j e. elim (Bool-cases (store.is_revoked id s)) [
      | inl revoked ↦ ground (arith, revoked, h)
      | inr free ↦ ground (arith, free, e)
    ],
    λ h. rw (h id refl) refl,
  )

  check_subject_iff :
      (subject : String) (issuer : Option String) (s : S)
      → (check_subject_not_revoked store subject issuer s ≡ ok tt)
        ↔ (store.is_revoked_by_subject_issuer subject issuer s ≡ false)
  unfolding check_subject_not_revoked
  check_subject_iff subject issuer s = ground arith

  check_revocation_iff :
      (o : Option S) (claims : Claims)
      → (check_revocation jwt store o claims ≡ ok tt) ↔ Unrevoked claims o
  check_revocation_iff none claims = (λ h. tt, λ h. refl)
  check_revocation_iff (some s) claims = (
    λ h.
        let (u, p, q) =
          bind-ok (check_token_not_revoked store claims.jti s)
            (λ _. check_subject_not_revoked store claims.sub claims.iss s) h in
        ((check_token_iff claims.jti s).0 p, (check_subject_iff claims.sub claims.iss s).0 q),
    λ (free, sub).
        rw ((check_token_iff claims.jti s).1 free)
          ((check_subject_iff claims.sub claims.iss s).1 sub),
  )

  abbrev pub let_through : Claims → AuthenticatedRequest
  let_through claims = record { claims = to_scope claims; token_id = claims.jti }

  Carries-request :
      (parts : Parts V S) (claims : Claims) (c : Carries parts claims)
      → from_request_parts jwt store parts ≡ (
          check_revocation jwt store parts.revocation_store claims >>= λ _. ok (let_through claims))
  unfolding from_request_parts
  Carries-request parts claims c = rw c.configured (rw c.authorized (rw c.bearer (rw c.valid refl)))

  -- A request is let through exactly when the service is configured, the request carries a bearer
  -- token with valid claims and, if there is a store of revocations, neither the token's identifier
  -- nor its subject with its issuer is revoked there. What is let through are the scope and the
  -- identifier of those claims.
  pub from_request_parts_iff :
      (parts : Parts V S) (r : AuthenticatedRequest)
      → (from_request_parts jwt store parts ≡ ok r) ↔ (
          (claims : Claims) × Carries parts claims
          × Unrevoked claims parts.revocation_store
          × (r ≡ let_through claims))
  unfolding from_request_parts
  from_request_parts_iff parts r = (
    λ h.
        let (config, configured, h1) = bind-ok (ok_or _ parts.jwt_config) _ h in
        let (header, present, h2) = bind-ok (ok_or _ parts.authorization) _ h1 in
        let (text, readable, h3) = bind-ok (ok_or _ header) _ h2 in
        let (token, bearer, h4) = bind-ok (ok_or _ (strip_prefix "Bearer " text)) _ h3 in
        let (claims, valid, h5) = bind-ok (validate_token jwt token config) _ h4 in
        let (u, free, h6) =
          bind-ok (check_revocation jwt store parts.revocation_store claims) _ h5 in
        (
          claims,
          record {
            config = config;
            text = text;
            token = token;
            configured = ok_or-ok _ parts.jwt_config configured;
            authorized =
                ok_or-ok _ parts.authorization present ∙ ap some (ok_or-ok _ header readable);
            bearer = ok_or-ok _ (strip_prefix "Bearer " text) bearer;
            valid = valid;
          },
          (check_revocation_iff parts.revocation_store claims).0 free,
          ground (arith, h6),
        ),
    λ (claims, c, free, e).
        Carries-request parts claims c
        ∙ rw ((check_revocation_iff parts.revocation_store claims).1 free) (ap ok (sym e)),
  )

  revoked_token_refused :
      (claims : Claims) (s : S) {id : String}
      → claims.jti ≡ some id
      → store.is_revoked id s ≡ true
      → check_revocation jwt store (some s) claims ≡ err AuthError.token_revoked
  unfolding check_token_not_revoked
  revoked_token_refused claims s e h = rw e (rw h refl)

  pub revoked_subject_refused :
      (claims : Claims) (s : S)
      → store.is_revoked_by_subject_issuer claims.sub claims.iss s ≡ true
      → check_revocation jwt store (some s) claims ≡ err AuthError.token_revoked
  unfolding check_token_not_revoked check_subject_not_revoked
  revoked_subject_refused claims s h = elim (Option-cases claims.jti) [
    | inl absent ↦ rw absent (rw h refl)
    | inr (id, present) ↦ elim (Bool-cases (store.is_revoked id s)) [
      | inl revoked ↦ revoked_token_refused claims s present revoked
      | inr free ↦ rw present (rw free (rw h refl))
    ]
  ]

  module _ {Valid : S → Type 0} (laws : RevocationLaws store Valid) where
    unchanged :
        (t : RevokedToken) (s : S)
        → Valid s
        → (claims : Claims) → claims.jti ≢ some t.jti
        → ◌≢◌ {A = SubjectIssuer} (claims.sub, claims.iss) (key_of t)
        → check_revocation jwt store (some (store.revoke_token t s).1) claims
          ≡ check_revocation jwt store (some s) claims
    unfolding check_token_not_revoked check_subject_not_revoked
    unchanged t s v claims nj nk =
        let q = laws.other_subject t s v claims.sub claims.iss nk in
        elim (Option-cases claims.jti) [
          | inl absent ↦ rw absent (rw q refl)
          | inr (id, present) ↦
              let p = laws.other_jti t s v id (λ e. nj (present ∙ ap some e)) in
              rw present (rw (p, q) refl)
        ]

    -- Right after a token is revoked in a valid store, a request with its identifier, and any request
    -- with its subject and issuer, is refused as revoked, although it carries a bearer token with
    -- valid claims. A request with neither has the result that it had before the revocation. The
    -- store has the laws of valid stores; the one in memory is valid when its indices are those of
    -- its list, which is not so of every store that revocations and clearings lead to.
    pub from_request_parts-revoke_token :
        (t : RevokedToken) (s : S)
        → Valid s
        → (parts : Parts V S) (claims : Claims) → Carries parts claims
        → parts.revocation_store ≡ some (store.revoke_token t s).1
        → ((claims.jti ≡ some t.jti) ⊎ ((claims.sub, claims.iss) ≡ key_of t)
            → from_request_parts jwt store parts ≡ err AuthError.token_revoked)
          × (claims.jti ≢ some t.jti
              → ◌≢◌ {A = SubjectIssuer} (claims.sub, claims.iss) (key_of t)
              → from_request_parts jwt store parts
                ≡ from_request_parts jwt store (record parts { revocation_store = some s }))
    from_request_parts-revoke_token t s v parts claims c e = (
      λ why.
          Carries-request parts claims c
          ∙ rw e (
              ap (λ (r : Result (Unit {0}) AuthError). r >>= λ _. ok (let_through claims))
                (refused why)),
      λ nj nk.
          Carries-request parts claims c
          ∙ rw e (
              ap (λ (r : Result (Unit {0}) AuthError). r >>= λ _. ok (let_through claims))
                (unchanged t s v claims nj nk))
          ∙ sym (Carries-request (record parts { revocation_store = some s }) claims (without c)),
    )
      where
        refused :
            (claims.jti ≡ some t.jti) ⊎ ((claims.sub, claims.iss) ≡ key_of t)
            → check_revocation jwt store (some (store.revoke_token t s).1) claims
              ≡ err AuthError.token_revoked
        refused (inl same) =
            revoked_token_refused claims (store.revoke_token t s).1 same (laws.jti_revoked t s v)
        refused (inr same) = revoked_subject_refused claims (store.revoke_token t s).1 (
            rw (ap (λ (k : SubjectIssuer). k.0) same, ap (λ (k : SubjectIssuer). k.1) same)
              (laws.subject_revoked t s v))

        without : Carries parts claims → Carries (record parts { revocation_store = some s }) claims
        without d = record {
          config = d.config;
          text = d.text;
          token = d.token;
          configured = d.configured;
          authorized = d.authorized;
          bearer = d.bearer;
          valid = d.valid;
        }
