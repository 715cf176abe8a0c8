-- ===== src/Agoranet/Auth/Types.antt =====
-- `Claims`, `ScopeClaims`, `AuthError` and the requests and answers of icn-agoranet/src/auth.rs.
-- The settings of `jsonwebtoken` that a configuration holds are a parameter.
use icn_v.Base.{ℕ, String, List, Option}
use icn_v.HashMap.{HashMap}

pub record JwtConfig (Validation : Type 0) : Type 0 where
  pub secret_key : String
  pub issuer : Option String
  pub audience : Option String
  pub validation : Validation

pub record Claims : Type 0 where
  pub sub : String
  pub iss : Option String
  pub aud : Option String
  pub exp : ℕ
  pub iat : Option ℕ
  pub nbf : Option ℕ
  pub jti : Option String
  pub federation_ids : List String
  pub coop_ids : List String
  pub community_ids : List String
  pub roles : HashMap String (List String)

pub record ScopeClaims : Type 0 where
  pub sub : String
  pub federation_ids : List String
  pub coop_ids : List String
  pub community_ids : List String
  pub roles : HashMap String (List String)

-- `impl From<Claims> for ScopeClaims`
abbrev pub to_scope : Claims → ScopeClaims
to_scope c = record {
  sub = c.sub;
  federation_ids = c.federation_ids;
  coop_ids = c.coop_ids;
  community_ids = c.community_ids;
  roles = c.roles;
}

pub data AuthError : Type 0 where
  missing_auth_header invalid_token_format : AuthError
  validation_failed : String → AuthError
  missing_scope token_expired token_revoked unauthorized_org_access missing_role : AuthError
  not_coop_operator not_community_official not_federation_admin : AuthError
  not_federation_coordinator : AuthError
  invalid_subject_did_format internal : String → AuthError

pub record OrgScopeParams : Type 0 where
  pub federation_id : Option String
  pub coop_id : Option String
  pub community_id : Option String

pub record AuthenticatedRequest : Type 0 where
  pub claims : ScopeClaims
  pub token_id : Option String

pub record TokenIssueRequest : Type 0 where
  pub subject : String
  pub expires_in : Option ℕ
  pub federation_ids : Option (List String)
  pub coop_ids : Option (List String)
  pub community_ids : Option (List String)
  pub roles : Option (HashMap String (List String))

pub record TokenResponse : Type 0 where
  pub token : String
  pub expires_at : ℕ
  pub token_id : Option String
