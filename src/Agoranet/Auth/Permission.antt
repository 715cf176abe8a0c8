-- ===== src/Agoranet/Auth/Permission.antt =====
-- What the tests of icn-agoranet/src/auth.rs decide.
use icn_v.Base.{
  contains, String, ◌≡◌, ◌↔◌, ◌⊎◌, true, false, ◌&&◌, List, [], ◌∷◌, Option, none, some, arith, inl,
  inr, refl, Result, ok, err, PartialEq, string_eq, Option-cases,
}
use icn_v.HashMap.{get}
use icn_v.Agoranet.Auth.Types.{
  Claims, ScopeClaims, AuthError, OrgScopeParams, AuthenticatedRequest, to_scope,
}
use icn_v.Agoranet.Auth.Access.{
  refuses, grants_role, has_federation_access, has_coop_access, has_community_access, has_role,
  has_org_scope_access, has_coop_operator_role, has_community_official_role,
  has_federation_admin_role, claims_federation_access, claims_federation_admin_role,
  claims_coop_operator_role, claims_community_official_role, claims_org_scope_access,
  enforce_org_scope_access, ensure_federation_admin, ensure_coop_operator,
  ensure_community_official, role_federation_admin, role_coop_operator, role_community_official,
}

-- An element stands in a list.
abbrev pub Has : {A : Type 0} → A → List A → Type 0
Has a [] = ⊥
Has a (x ∷ xs) = (x ≡ a) ⊎ Has a xs

pub contains_iff :
    {A : Type 0} ⦃e : PartialEq A⦄ (a : A) (xs : List A) → (contains a xs ≡ true) ↔ Has a xs
unfolding contains
contains_iff a [] = ground arith
contains_iff ⦃e⦄ a (x ∷ xs) = ground (arith, e.eqb_iff x a, contains_iff a xs)

-- `roles` lists the role under the organization.
abbrev pub HasRole : ScopeClaims → String → String → Type 0
HasRole c org role = (rs : List String) × (get org c.roles ≡ some rs) × Has role rs

pub has_role_iff :
    (c : ScopeClaims) (org role : String) → (has_role c org role ≡ true) ↔ HasRole c org role
unfolding has_role grants_role
has_role_iff c org role = elim (Option-cases (get org c.roles)) [
  | inl absent ↦ (λ h. ground (arith, absent), λ h. ground (arith, absent, h.1))
  | inr present ↦ (
    λ h. (present.0, present.1, (contains_iff role present.0).0 (ground (arith, present.1))),
    λ h. ground (arith, present.1, h.1, (contains_iff role h.0).1 h.2),
  )
]

-- An identifier that is specified is one of the list.
abbrev pub Within : List String → Option String → Type 0
Within ids none = Unit
Within ids (some id) = Has id ids

pub refuses_iff :
    (ids : List String) (o : Option String)
    → (refuses (λ id. contains id ids) o ≡ false) ↔ Within ids o
refuses_iff ids none = ground arith
refuses_iff ids (some id) = ground (arith, contains_iff id ids)

-- The result of a handler that ensures access to an organization first, and a role in it then.
abbrev pub Ensures :
    Result AuthenticatedRequest AuthError
    → AuthenticatedRequest
    → List String
    → String
    → String
    → AuthError
    → Type 0
Ensures result auth ids id role denied =
    ((result ≡ ok auth) × Has id ids × HasRole auth.claims id role)
    ⊎ ((result ≡ err AuthError.unauthorized_org_access) × ¬ (Has id ids))
    ⊎ ((result ≡ err denied) × Has id ids × ¬ (HasRole auth.claims id role))

-- A request is let through to an organization's scope exactly when each of the federation, the
-- cooperative and the community that the parameters specify is listed in the claims, whatever the
-- roles are; any other request is refused as unauthorized.
pub enforce_org_scope_access_lem :
    (auth : AuthenticatedRequest) (params : OrgScopeParams)
    → let allowed =
        Within auth.claims.federation_ids params.federation_id
        × Within auth.claims.coop_ids params.coop_id
        × Within auth.claims.community_ids params.community_id in
      ((enforce_org_scope_access auth params ≡ ok auth) × allowed)
      ⊎ ((enforce_org_scope_access auth params ≡ err AuthError.unauthorized_org_access) × ¬ allowed)
unfolding enforce_org_scope_access has_org_scope_access has_federation_access has_coop_access
    has_community_access
enforce_org_scope_access_lem auth params = ground (
  arith,
  refuses_iff auth.claims.federation_ids params.federation_id,
  refuses_iff auth.claims.coop_ids params.coop_id,
  refuses_iff auth.claims.community_ids params.community_id,
)

-- The handlers for federation administrators, cooperative operators and community officials let a
-- request through exactly when the claims list the organization and give the role in it. A request
-- without access is refused as unauthorized, whatever its roles; one with access and without the
-- role is refused with an error that names the role.
pub ensure_lem :
    (auth : AuthenticatedRequest) (id : String)
    → let c = auth.claims in
      Ensures
        (ensure_federation_admin auth id)
        auth
        c.federation_ids
        id
        role_federation_admin
        AuthError.not_federation_coordinator
      × Ensures
          (ensure_coop_operator auth id)
          auth
          c.coop_ids
          id
          role_coop_operator
          AuthError.not_coop_operator
      × Ensures
          (ensure_community_official auth id)
          auth
          c.community_ids
          id
          role_community_official
          AuthError.not_community_official
unfolding ensure_federation_admin ensure_coop_operator ensure_community_official
    has_federation_access has_coop_access has_community_access
ensure_lem auth id = (
  ground (
    arith,
    contains_iff id auth.claims.federation_ids,
    has_role_iff auth.claims id role_federation_admin,
  ),
  ground
      (arith, contains_iff id auth.claims.coop_ids, has_role_iff auth.claims id role_coop_operator),
  ground (
    arith,
    contains_iff id auth.claims.community_ids,
    has_role_iff auth.claims id role_community_official,
  ),
)

-- The tests on a token's claims and on the scope claims made of them agree, for an organization's
-- scope and for the operator's and the official's role. For the administrator's role they do not:
-- the test on the claims also requires access to the federation, the other one the role alone.
pub claims-to_scope :
    (c : Claims) (id : String) (federation coop community : Option String)
    → (claims_org_scope_access c federation coop community
        ≡ has_org_scope_access (to_scope c) federation coop community)
      × (claims_coop_operator_role c id ≡ has_coop_operator_role (to_scope c) id)
      × (claims_community_official_role c id ≡ has_community_official_role (to_scope c) id)
      × (claims_federation_admin_role c id
          ≡ (has_federation_access (to_scope c) id && has_federation_admin_role (to_scope c) id))
unfolding claims_org_scope_access has_org_scope_access claims_coop_operator_role
    has_coop_operator_role claims_community_official_role has_community_official_role
    claims_federation_admin_role has_federation_access has_federation_admin_role has_role
    claims_federation_access
claims-to_scope c id federation coop community = (refl, refl, refl, ground arith)
