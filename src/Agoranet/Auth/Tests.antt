-- ===== src/Agoranet/Auth/Tests.antt =====
-- Tests of the tokens of icn-agoranet, and the theorems about them at concrete inputs.
use icn_v.Base.{
  ℕ, ◌+◌, ◌*◌, ◌/◌, String, ◌≡◌, ◌≢◌, ◌↔◌, ◌⊎◌, refl, Bool, true, false, List, [], ◌∷◌, Option,
  none, some, arith, string_eq, nat_beq, nat_beq_iff, Result, ok, err, contains, strip_prefix,
  if◌then◌else◌,
}
use icn_v.HashMap.{get, insert}
use icn_v.Agoranet.Auth.Types.{
  JwtConfig, Claims, AuthError, AuthenticatedRequest, TokenIssueRequest, TokenResponse,
}
use icn_v.Agoranet.Auth.Access.{
  ensure_federation_admin, has_federation_access, has_role, grants_role,
}
use icn_v.Agoranet.Auth.Revocation.{
  RevokedToken, SubjectIssuer, key_of, RevocationStore, in_memory_store, new_store, revoke_token,
  is_revoked, is_revoked_by_subject_issuer, revoked_token_eq, clear_expired_revocations,
  add_to_indices, check_token_not_revoked, check_subject_not_revoked,
}
use icn_v.Agoranet.Auth.Histories.{
  Operation, revoke, clear, run, revoked_after, Answers, new_store-IsIndexed, run-Answers,
}
use icn_v.Agoranet.Auth.Forgetting.{clear_expired_revocations_forgets}
use icn_v.Agoranet.Auth.Requests.{Jwt, Parts, validate_token, from_request_parts}
use icn_v.Agoranet.Auth.Issuance.{Issuing, issue_token}
use icn_v.Agoranet.Auth.Handlers.{
  RevokeTokenRequest, RevokeTokenResponse, RotateTokenRequest, federation_issuer, foreign,
  issue_jwt_token_handler, revoke_token_handler, rotate_token_handler,
}
use icn_v.Agoranet.Auth.Laws.{in_memory_laws}
use icn_v.Agoranet.Auth.Refusals.{
  Carries, Unrevoked, let_through, from_request_parts_iff, from_request_parts-revoke_token,
}
use icn_v.Agoranet.Auth.Grants.{handlers_refuse}
use icn_v.Agoranet.Auth.Rotation.{revoke_token_handler_lem, rotate_token_handler_refused}

abbrev member_claims : Claims
member_claims = record {
  sub = "did:key:z1";
  iss = some "did:icn:federation:fed";
  aud = none;
  exp = 86401;
  iat = some 1;
  nbf = none;
  jti = some "jti-u";
  federation_ids = "fed" ∷ [];
  coop_ids = [];
  community_ids = [];
  roles = [];
}

decide : {P : Type 0} (b : Bool) → (b ≡ true) ↔ P → Dec P
decide true h = yes (h.0 refl)
decide false h = no (λ p. ground (arith, h.1 p))

String-discrete : Discrete String
unfolding decide
String-discrete s t = decide (string_eq.eqb s t) (string_eq.eqb_iff s t)

ℕ-discrete : Discrete ℕ
unfolding decide
ℕ-discrete m n = decide (nat_beq m n) (nat_beq_iff m n)

Claims-discrete : Discrete Claims
Claims-discrete = hlevel (String-discrete, ℕ-discrete)

-- A coder that knows one token.
encode_one : Claims → Result String String
encode_one c = elim (Claims-discrete c member_claims) [
  | yes same ↦ ok "token"
  | no other ↦ err "unknown claims"
]

decode_one : String → Result Claims String
decode_one token = if string_eq.eqb token "token" then ok member_claims else err "unknown token"

abbrev jwt : Jwt (Unit {0})
jwt = record {
  set_issuer = λ issuer v. v;
  set_audience = λ audience v. v;
  decode = λ secret v token. decode_one token;
  encode = λ secret c. encode_one c;
}

abbrev env : Issuing (Unit {0})
env = record {
  did_from_str = λ text. if string_eq.eqb text "" then err "empty" else ok tt;
  plus_seconds = λ t s. some (t + s * 1000000000);
  timestamp = λ t. t / 1000000000;
  jwt = jwt;
}

abbrev config : JwtConfig (Unit {0})
config = record { secret_key = "secret"; issuer = none; audience = none; validation = tt }

faithful :
    (c d : Claims) (token : String) (validation : Unit {0})
    → env.jwt.encode config.secret_key c ≡ ok token
    → env.jwt.decode config.secret_key validation token ≡ ok d
    → d ≡ c
unfolding encode_one decode_one
faithful c d token v p q = elim (Claims-discrete c member_claims) [
  | yes same ↦ ground (arith, same, q)
  | no other ↦ ground (arith, other, p)
]

abbrev admin : AuthenticatedRequest
admin = record {
  claims = record {
    sub = "did:key:zadmin";
    federation_ids = "fed" ∷ [];
    coop_ids = [];
    community_ids = [];
    roles = ("fed", "federation_admin" ∷ []) ∷ [];
  };
  token_id = none;
}

abbrev outsider : AuthenticatedRequest
outsider = let_through jwt in_memory_store (record member_claims { federation_ids = [] })

abbrev second : ℕ
second = 1000000000

abbrev issue_request : TokenIssueRequest
issue_request = record {
  subject = "did:key:z1";
  expires_in = none;
  federation_ids = some ("fed" ∷ []);
  coop_ids = none;
  community_ids = none;
  roles = none;
}

abbrev revoke_request : RevokeTokenRequest
revoke_request = record {
  jti = some "jti-old";
  subject = some "did:key:z1";
  issuer = none;
  reason = none;
}

abbrev rotate_request : RotateTokenRequest
rotate_request = record {
  current_jti = "jti-old";
  subject = "did:key:z1";
  expires_in = none;
  federation_ids = some ("fed" ∷ []);
  coop_ids = none;
  community_ids = none;
  roles = none;
  reason = none;
}

abbrev issued_token : TokenResponse
issued_token = record { token = "token"; expires_at = 86401; token_id = some "jti-u" }

abbrev parts_with : RevocationStore → Parts (Unit {0}) RevocationStore
parts_with s = record {
  jwt_config = some config;
  revocation_store = some s;
  authorization = some (some "Bearer token");
}

carried : (s : RevocationStore) → Carries jwt in_memory_store (parts_with s) member_claims
unfolding validate_token decode_one strip_prefix
carried s = record {
  config = config;
  text = "Bearer token";
  token = "token";
  configured = refl;
  authorized = refl;
  bearer = refl;
  valid = refl;
}

abbrev after_rotation : Option (Result TokenResponse AuthError) × RevocationStore
after_rotation =
    rotate_token_handler env config in_memory_store admin "fed" rotate_request 0 second "u"
      new_store

rotation_succeeds : after_rotation.0 ≡ some (ok issued_token)
unfolding rotate_token_handler ensure_federation_admin has_federation_access has_role grants_role
    contains get foreign issue_token encode_one Claims-discrete String-discrete ℕ-discrete decide
rotation_succeeds = refl

rotate_token_handler_refused_example :
    let result = from_request_parts jwt in_memory_store (parts_with after_rotation.1) in
    (result ≡ err AuthError.token_revoked)
    ⊎ ((e : String) × (result ≡ err (AuthError.validation_failed e)))
unfolding strip_prefix
rotate_token_handler_refused_example =
    rotate_token_handler_refused in_memory_laws env config faithful admin "fed" rotate_request 0
      second "u" new_store new_store-IsIndexed issued_token rotation_succeeds
      (parts_with after_rotation.1) "Bearer token" refl refl refl refl

-- The first alternative.
rotated_is_revoked :
    from_request_parts jwt in_memory_store (parts_with after_rotation.1)
    ≡ err AuthError.token_revoked
unfolding rotate_token_handler ensure_federation_admin has_federation_access has_role grants_role
    contains get insert foreign issue_token encode_one Claims-discrete String-discrete ℕ-discrete
    decide in_memory_store revoke_token add_to_indices from_request_parts validate_token decode_one
    strip_prefix check_token_not_revoked check_subject_not_revoked is_revoked
    is_revoked_by_subject_issuer
rotated_is_revoked = refl

abbrev after_revocation : Result RevokeTokenResponse AuthError × RevocationStore
after_revocation = revoke_token_handler in_memory_store admin "fed" revoke_request 7 "u" new_store

revocation_succeeds :
    after_revocation.0
    ≡ ok (record {
      revoked = true;
      revoked_at = 7;
      jti = some "jti-old";
      subject = none;
      issuer = none;
    })
unfolding revoke_token_handler ensure_federation_admin has_federation_access has_role grants_role
    contains get in_memory_store revoke_token
revocation_succeeds = refl

revoke_token_handler_lem_example :
    let result = from_request_parts jwt in_memory_store (parts_with after_revocation.1) in
    ((jti : String)
      → some "jti-old" ≡ some jti
      → some "jti-u" ≡ some jti
      → result ≡ err AuthError.token_revoked)
    × ((subject : String)
        → some "did:key:z1" ≡ some subject
        → "did:key:z1" ≡ subject
        → some "did:icn:federation:fed" ≡ federation_issuer "fed"
        → result ≡ err AuthError.token_revoked)
revoke_token_handler_lem_example =
    revoke_token_handler_lem in_memory_laws jwt admin "fed" revoke_request 7 "u" new_store
      new_store-IsIndexed _ revocation_succeeds (parts_with after_revocation.1) member_claims
      (carried after_revocation.1) refl

abbrev old_token : RevokedToken
old_token = record {
  jti = "jti-old";
  subject = "did:key:z1";
  issuer = none;
  revoked_at = 3;
  reason = none;
  revoked_by = "did:key:zadmin";
}

from_request_parts-revoke_token_example :
    let s = (in_memory_store.revoke_token old_token new_store).1 in
    let result = from_request_parts jwt in_memory_store (parts_with s) in
    (◌≡◌ {A = Option String} (some "jti-u") (some "jti-old")
        ⊎ ◌≡◌ {A = SubjectIssuer} ("did:key:z1", some "did:icn:federation:fed") (key_of old_token)
      → result ≡ err AuthError.token_revoked)
    × (◌≢◌ {A = Option String} (some "jti-u") (some "jti-old")
        → ◌≢◌ {A = SubjectIssuer} ("did:key:z1", some "did:icn:federation:fed") (key_of old_token)
        → result ≡ from_request_parts jwt in_memory_store (parts_with new_store))
from_request_parts-revoke_token_example =
    from_request_parts-revoke_token jwt in_memory_store in_memory_laws old_token new_store
      new_store-IsIndexed (parts_with (in_memory_store.revoke_token old_token new_store).1)
      member_claims (carried (in_memory_store.revoke_token old_token new_store).1) refl

from_request_parts_iff_example :
    (from_request_parts jwt in_memory_store (parts_with new_store)
      ≡ ok (let_through jwt in_memory_store member_claims))
    ↔ ((claims : Claims) × Carries jwt in_memory_store (parts_with new_store) claims
        × Unrevoked jwt in_memory_store claims (some new_store)
        × (let_through jwt in_memory_store member_claims ≡ let_through jwt in_memory_store claims))
from_request_parts_iff_example =
    from_request_parts_iff jwt in_memory_store (parts_with new_store)
      (let_through jwt in_memory_store member_claims)

handlers_refuse_example :
    (e : AuthError) × ((e ≡ AuthError.unauthorized_org_access)
      ⊎ (e ≡ AuthError.not_federation_coordinator))
    × (issue_jwt_token_handler env config outsider "fed" issue_request second "u" ≡ some (err e))
    × (revoke_token_handler in_memory_store outsider "fed" revoke_request second "u" new_store
        ≡ (err e, new_store))
    × (rotate_token_handler env config in_memory_store outsider "fed" rotate_request second second
          "u" new_store
        ≡ (some (err e), new_store))
handlers_refuse_example =
    handlers_refuse env config in_memory_store outsider "fed" issue_request revoke_request
      rotate_request second second "u" new_store (λ admin. admin.0)

abbrev new_token : RevokedToken
new_token = record old_token { revoked_at = 9 }

abbrev other_token : RevokedToken
other_token = record old_token { jti = "jti-2"; revoked_at = 9 }

abbrev history : List Operation
history = revoke old_token ∷ revoke other_token ∷ clear 5 ∷ []

abbrev name : String → RevokedToken
name jti = if string_eq.eqb jti "jti-old" then old_token else other_token

run-Answers_example : Answers (run history new_store) (revoked_after history [])
run-Answers_example = run-Answers name history (refl, (refl, (tt, tt)))

history_tokens : revoked_after history [] ≡ other_token ∷ []
unfolding revoked_after contains revoked_token_eq
history_tokens = refl

abbrev revoked_twice : RevocationStore
revoked_twice = run (revoke old_token ∷ revoke new_token ∷ []) new_store

clear_expired_revocations_forgets_example :
    let s = (clear_expired_revocations 5 revoked_twice).1 in
    (contains new_token s.revoked_tokens ≡ true) × (is_revoked "jti-old" s ≡ false)
unfolding run revoke_token add_to_indices contains revoked_token_eq
clear_expired_revocations_forgets_example =
    clear_expired_revocations_forgets 5 revoked_twice old_token new_token refl refl refl
      (omega arith) (omega arith)
