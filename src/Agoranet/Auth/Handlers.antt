-- ===== src/Agoranet/Auth/Handlers.antt =====
-- The handlers of icn-agoranet/src/auth_handlers.rs that issue, revoke and rotate tokens, and its
-- clearing of old revocations. The times and the `Uuid` that a handler takes are arguments.
use icn_v.Base.{
  ℕ, ◌-◌, String, Bool, true, false, not, List, [], ◌∷◌, Option, none, some, if◌then◌else◌, Result,
  ok, err, prefixed, string_eq,
}
use icn_v.HashMap.{HashMap}
use icn_v.Agoranet.Auth.Types.{
  JwtConfig, AuthError, AuthenticatedRequest, TokenIssueRequest, TokenResponse,
}
use icn_v.Agoranet.Auth.Access.{ensure_federation_admin}
use icn_v.Agoranet.Auth.Revocation.{RevokedToken, TokenRevocationStore}
use icn_v.Agoranet.Auth.Issuance.{Issuing, issue_token, unwrap_or}

pub record RevokeTokenRequest : Type 0 where
  pub jti : Option String
  pub subject : Option String
  pub issuer : Option String
  pub reason : Option String

pub record RevokeTokenResponse : Type 0 where
  pub revoked : Bool
  pub revoked_at : ℕ
  pub jti : Option String
  pub subject : Option String
  pub issuer : Option String

pub record RotateTokenRequest : Type 0 where
  pub current_jti : String
  pub subject : String
  pub expires_in : Option ℕ
  pub federation_ids : Option (List String)
  pub coop_ids : Option (List String)
  pub community_ids : Option (List String)
  pub roles : Option (HashMap String (List String))
  pub reason : Option String

-- `Some(format!("did:icn:federation:{}", federation_id))`
abbrev pub federation_issuer : String → Option String
federation_issuer federation_id = some (prefixed "did:icn:federation:" federation_id)

-- `a.or(b)`
abbrev pub or_else {ℓ} : {A : Type ℓ} → Option A → Option A → Option A
or_else none b = b
or_else (some a) b = some a

-- The loop over the federations that a request asks for: is there one that is another?
unfoldable pub foreign : String → List String → Bool
foreign federation_id [] = false
foreign federation_id (id ∷ ids) =
    if not (string_eq.eqb id federation_id) then true else foreign federation_id ids

module _ {V : Type 0} (env : Issuing V) (config : JwtConfig V) where
  unfoldable pub issue_jwt_token_handler :
      AuthenticatedRequest
      → String
      → TokenIssueRequest
      → (now : ℕ) → (uuid : String) → Option (Result TokenResponse AuthError)
  issue_jwt_token_handler auth federation_id payload now uuid =
      elim (ensure_federation_admin auth federation_id) [
        | err e ↦ some (err e)
        | ok _ ↦
            if foreign federation_id (unwrap_or [] payload.federation_ids)
            then some (err AuthError.unauthorized_org_access)
            else issue_token env config payload (federation_issuer federation_id) now uuid
      ]

-- The token that a request revokes, under an identifier and a subject.
abbrev pub request_token :
    String → String → RevokeTokenRequest → ℕ → (jti : String) → (subject : String) → RevokedToken
request_token admin federation_id payload now jti subject = record {
  jti = jti;
  subject = subject;
  issuer = or_else payload.issuer (federation_issuer federation_id);
  revoked_at = now;
  reason = payload.reason;
  revoked_by = admin;
}

-- `format!("revoked-{}-{}", subject, Uuid::new_v4())`
abbrev pub dummy_jti : String → String → String
dummy_jti subject uuid = prefixed "revoked-" (prefixed subject (prefixed "-" uuid))

module _ {S : Type 0} (store : TokenRevocationStore S) where
  -- The branches on the identifier and on the subject.
  abbrev revoke_requested :
      String → String → RevokeTokenRequest → ℕ → String → S → RevokeTokenResponse × S
  revoke_requested admin federation_id payload now uuid s = elim payload.jti [
    | some jti ↦
        let (revoked, s') =
          store.revoke_token
            (request_token admin federation_id payload now jti
              (unwrap_or "unknown" payload.subject))
            s in
        (
          record {
            revoked = revoked;
            revoked_at = now;
            jti = some jti;
            subject = none;
            issuer = none;
          },
          s',
        )
    | none ↦ elim payload.subject [
      | some subject ↦
          let (revoked, s') =
            store.revoke_token
              (request_token admin federation_id payload now (dummy_jti subject uuid) subject) s in
          (
            record {
              revoked = revoked;
              revoked_at = now;
              jti = none;
              subject = some subject;
              issuer = or_else payload.issuer (federation_issuer federation_id);
            },
            s',
          )
      | none ↦ (
        record { revoked = false; revoked_at = now; jti = none; subject = none; issuer = none },
        s,
      )
    ]
  ]

  abbrev is_none : Option String → Bool
  is_none none = true
  is_none (some x) = false

  unfoldable pub revoke_token_handler :
      AuthenticatedRequest
      → String
      → RevokeTokenRequest
      → (now : ℕ) → (uuid : String) → S
      → Result RevokeTokenResponse AuthError × S
  revoke_token_handler auth federation_id payload now uuid s =
      elim (ensure_federation_admin auth federation_id) [
        | err e ↦ (err e, s)
        | ok _ ↦
            if (if is_none payload.jti then is_none payload.subject else false)
            then (err AuthError.invalid_token_format, s)
            else let (response, s') =
                revoke_requested auth.claims.sub federation_id payload now uuid s in
              (ok response, s')
      ]

  -- The clearing that is run once an hour: what is older than 30 days goes.
  unfoldable pub cleanup : (now : ℕ) → S → ℕ × S
  cleanup now s = store.clear_expired_revocations (now - 2592000000000000) s

module _ {V S : Type 0} (env : Issuing V) (config : JwtConfig V)
    (store : TokenRevocationStore S) where
  -- The token that a rotation revokes.
  abbrev pub rotated : AuthenticatedRequest → String → RotateTokenRequest → ℕ → RevokedToken
  rotated auth federation_id payload now = record {
    jti = payload.current_jti;
    subject = payload.subject;
    issuer = federation_issuer federation_id;
    revoked_at = now;
    reason = or_else payload.reason (some "Token rotation");
    revoked_by = auth.claims.sub;
  }

  abbrev pub rotation_request : RotateTokenRequest → TokenIssueRequest
  rotation_request payload = record {
    subject = payload.subject;
    expires_in = payload.expires_in;
    federation_ids = payload.federation_ids;
    coop_ids = payload.coop_ids;
    community_ids = payload.community_ids;
    roles = payload.roles;
  }

  -- The clock is read for the revocation, and again for the new token.
  unfoldable pub rotate_token_handler :
      AuthenticatedRequest
      → String
      → RotateTokenRequest
      → (now : ℕ) → (later : ℕ) → (uuid : String) → S
      → Option (Result TokenResponse AuthError) × S
  rotate_token_handler auth federation_id payload now later uuid s =
      elim (ensure_federation_admin auth federation_id) [
        | err e ↦ (some (err e), s)
        | ok _ ↦
            if foreign federation_id (unwrap_or [] payload.federation_ids)
            then (some (err AuthError.unauthorized_org_access), s)
            else let (revoked, s') =
                store.revoke_token (rotated auth federation_id payload now) s in
              (
                issue_token env config (rotation_request payload) (federation_issuer federation_id)
                    later uuid,
                s',
              )
      ]
