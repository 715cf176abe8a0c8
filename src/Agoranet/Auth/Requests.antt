-- ===== src/Agoranet/Auth/Requests.antt =====
-- `validate_token` and the extractor `AuthenticatedRequest::from_request_parts` of
-- icn-agoranet/src/auth.rs. `jsonwebtoken` is a parameter.
use icn_v.Base.{String, Option, none, some, Result, ok, ◌>>=◌, ok_or, map_err, strip_prefix}
use icn_v.Agoranet.Auth.Types.{JwtConfig, Claims, AuthError, AuthenticatedRequest, to_scope}
use icn_v.Agoranet.Auth.Revocation.{
  TokenRevocationStore, check_token_not_revoked, check_subject_not_revoked,
}

-- What the code uses of `jsonwebtoken`; an error is its text.
pub record Jwt (Validation : Type 0) : Type 0 where
  pub set_issuer : String → Validation → Validation
  pub set_audience : String → Validation → Validation
  pub decode : String → Validation → String → Result Claims String
  pub encode : String → Claims → Result String String

-- The parts of a request that the extractor reads. A header that is not visible ASCII has no text.
pub record Parts (Validation S : Type 0) : Type 0 where
  pub jwt_config : Option (JwtConfig Validation)
  pub revocation_store : Option S
  pub authorization : Option (Option String)

abbrev given : {V : Type 0} → (String → V → V) → Option String → V → V
given set none v = v
given set (some x) v = set x v

module _ {V : Type 0} (jwt : Jwt V) where
  unfoldable pub validate_token : String → JwtConfig V → Result Claims AuthError
  validate_token token config =
      let validation = given jwt.set_issuer config.issuer config.validation in
      let validation = given jwt.set_audience config.audience validation in
      map_err AuthError.validation_failed (jwt.decode config.secret_key validation token)

module _ {V S : Type 0} (jwt : Jwt V) (store : TokenRevocationStore S) where
  abbrev pub check_revocation : Option S → Claims → Result (Unit {0}) AuthError
  check_revocation none claims = ok tt
  check_revocation (some s) claims = check_token_not_revoked store claims.jti s >>= λ _.
      check_subject_not_revoked store claims.sub claims.iss s

  unfoldable pub from_request_parts : Parts V S → Result AuthenticatedRequest AuthError
  from_request_parts parts =
      ok_or (AuthError.internal "JWT config not found") parts.jwt_config >>= λ config.
      ok_or AuthError.missing_auth_header parts.authorization >>= λ header.
      ok_or AuthError.invalid_token_format header >>= λ text.
      ok_or AuthError.invalid_token_format (strip_prefix "Bearer " text) >>= λ token.
      validate_token jwt token config >>= λ claims.
      check_revocation parts.revocation_store claims >>= λ _.
      ok (record { claims = to_scope claims; token_id = claims.jti })
