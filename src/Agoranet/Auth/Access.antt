-- ===== src/Agoranet/Auth/Access.antt =====
-- What the claims of a token grant: the tests of `ScopeClaims` and of `Claims`, and the handlers
-- that ensure a role, in icn-agoranet/src/auth.rs.
use icn_v.Base.{
  String, Bool, true, false, not, List, Option, none, some, if◌then◌else◌, Result, ok, err,
  string_eq, contains,
}
use icn_v.HashMap.{HashMap, get}
use icn_v.Agoranet.Auth.Types.{Claims, ScopeClaims, AuthError, OrgScopeParams, AuthenticatedRequest}

abbrev pub role_federation_admin : String
role_federation_admin = "federation_admin"

abbrev pub role_coop_operator : String
role_coop_operator = "coop_operator"

abbrev pub role_community_official : String
role_community_official = "community_official"

-- `roles.get(org).map(|roles| roles.contains(role)).unwrap_or(false)`
unfoldable pub grants_role : HashMap String (List String) → String → String → Bool
grants_role roles org role = elim (get org roles) [ none ↦ false | some rs ↦ contains role rs ]

unfoldable pub has_federation_access : ScopeClaims → String → Bool
has_federation_access c id = contains id c.federation_ids

unfoldable pub has_coop_access : ScopeClaims → String → Bool
has_coop_access c id = contains id c.coop_ids

unfoldable pub has_community_access : ScopeClaims → String → Bool
has_community_access c id = contains id c.community_ids

unfoldable pub has_role : ScopeClaims → String → String → Bool
has_role c org role = grants_role c.roles org role

-- `if let Some(id) = id { if !test(id) { return false; } }`
abbrev pub refuses : (String → Bool) → Option String → Bool
refuses test none = false
refuses test (some id) = not (test id)

unfoldable pub has_org_scope_access :
    ScopeClaims → Option String → Option String → Option String → Bool
unfolding has_federation_access has_coop_access has_community_access
has_org_scope_access c federation_id coop_id community_id =
    if refuses (has_federation_access c) federation_id
    then false
    else if refuses (has_coop_access c) coop_id
    then false
    else if refuses (has_community_access c) community_id
    then false
    else true

unfoldable pub has_coop_operator_role : ScopeClaims → String → Bool
has_coop_operator_role c id = has_role c id role_coop_operator

unfoldable pub has_community_official_role : ScopeClaims → String → Bool
has_community_official_role c id = has_role c id role_community_official

unfoldable pub has_federation_admin_role : ScopeClaims → String → Bool
has_federation_admin_role c id = has_role c id role_federation_admin

-- `impl Claims`
unfoldable pub claims_federation_access : Claims → String → Bool
claims_federation_access c id = contains id c.federation_ids

unfoldable pub claims_federation_admin_role : Claims → String → Bool
claims_federation_admin_role c id =
    if not (claims_federation_access c id) then false else grants_role c.roles id "federation_admin"

unfoldable pub claims_coop_operator_role : Claims → String → Bool
claims_coop_operator_role c id = grants_role c.roles id "coop_operator"

unfoldable pub claims_community_official_role : Claims → String → Bool
claims_community_official_role c id = grants_role c.roles id "community_official"

unfoldable pub claims_org_scope_access :
    Claims → Option String → Option String → Option String → Bool
unfolding claims_federation_access
claims_org_scope_access c federation_id coop_id community_id =
    if refuses (claims_federation_access c) federation_id
    then false
    else if refuses (λ id. contains id c.coop_ids) coop_id
    then false
    else if refuses (λ id. contains id c.community_ids) community_id
    then false
    else true

unfoldable pub enforce_org_scope_access :
    AuthenticatedRequest → OrgScopeParams → Result AuthenticatedRequest AuthError
enforce_org_scope_access auth params =
    if not
      (has_org_scope_access auth.claims params.federation_id params.coop_id params.community_id)
    then err AuthError.unauthorized_org_access
    else ok auth

unfoldable pub ensure_federation_admin :
    AuthenticatedRequest → String → Result AuthenticatedRequest AuthError
ensure_federation_admin auth federation_id =
    if not (has_federation_access auth.claims federation_id)
    then err AuthError.unauthorized_org_access
    else if not (has_role auth.claims federation_id role_federation_admin)
    then err AuthError.not_federation_coordinator
    else ok auth

unfoldable pub ensure_coop_operator :
    AuthenticatedRequest → String → Result AuthenticatedRequest AuthError
ensure_coop_operator auth coop_id =
    if not (has_coop_access auth.claims coop_id)
    then err AuthError.unauthorized_org_access
    else if not (has_role auth.claims coop_id role_coop_operator)
    then err AuthError.not_coop_operator
    else ok auth

unfoldable pub ensure_community_official :
    AuthenticatedRequest → String → Result AuthenticatedRequest AuthError
ensure_community_official auth community_id =
    if not (has_community_access auth.claims community_id)
    then err AuthError.unauthorized_org_access
    else if not (has_role auth.claims community_id role_community_official)
    then err AuthError.not_community_official
    else ok auth
