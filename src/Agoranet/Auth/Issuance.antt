-- ===== src/Agoranet/Auth/Issuance.antt =====
-- `issue_token` of icn-agoranet/src/auth.rs. The parsing of a DID, the arithmetic of `chrono`, which
-- panics on a time out of its range, and `jsonwebtoken` are parameters.
use icn_v.Base.{ℕ, String, [], Option, none, some, Result, ok, err, ◌>>=◌, map_err, prefixed}
use icn_v.Agoranet.Auth.Types.{JwtConfig, Claims, AuthError, TokenIssueRequest, TokenResponse}
use icn_v.Agoranet.Auth.Requests.{Jwt}

-- `plus_seconds t s` is `t + Duration::seconds(s as i64)`, or nothing where that panics;
-- `timestamp` is the time in seconds, as a `u64`.
pub record Issuing (V : Type 0) : Type 0 where
  pub did_from_str : String → Result (Unit {0}) String
  pub plus_seconds : ℕ → ℕ → Option ℕ
  pub timestamp : ℕ → ℕ
  pub jwt : Jwt V

-- `unwrap_or` and `unwrap_or_default`
abbrev pub unwrap_or {ℓ} : {A : Type ℓ} → A → Option A → A
unwrap_or a none = a
unwrap_or a (some b) = b

module _ {V : Type 0} (env : Issuing V) (config : JwtConfig V) where
  -- The claims of a token, from the time, the expiry and a fresh `Uuid`.
  abbrev pub issued_claims : TokenIssueRequest → Option String → ℕ → ℕ → String → Claims
  issued_claims req issuer now expiration uuid = record {
    sub = req.subject;
    iss = issuer;
    aud = config.audience;
    exp = env.timestamp expiration;
    iat = some (env.timestamp now);
    nbf = none;
    jti = some (prefixed "jti-" uuid);
    federation_ids = unwrap_or [] req.federation_ids;
    coop_ids = unwrap_or [] req.coop_ids;
    community_ids = unwrap_or [] req.community_ids;
    roles = unwrap_or [] req.roles;
  }

  abbrev pub encode_token : Claims → ℕ → Result TokenResponse AuthError
  encode_token claims expiration =
      map_err (λ e. AuthError.internal (prefixed "Failed to encode JWT: " e))
        (env.jwt.encode config.secret_key claims)
      >>= λ token.
          ok
            (record { token = token; expires_at = env.timestamp expiration; token_id = claims.jti })

  -- Nothing is a panic.
  unfoldable pub issue_token :
      TokenIssueRequest
      → Option String
      → (now : ℕ) → (uuid : String) → Option (Result TokenResponse AuthError)
  issue_token req issuer now uuid = elim (env.did_from_str req.subject) [
    | err e ↦ some (err (AuthError.invalid_subject_did_format e))
    | ok _ ↦ elim (env.plus_seconds now (unwrap_or 86400 req.expires_in)) [
      | none ↦ none
      | some expiration ↦
          some (encode_token (issued_claims req issuer now expiration uuid) expiration)
    ]
  ]
