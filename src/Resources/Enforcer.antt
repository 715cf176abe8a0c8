-- ===== src/Resources/Enforcer.antt =====
-- `ResourcePolicyEnforcer` of icn-economics/src/lib.rs.
use icn_v.Base.{
  ℕ, ◌+◌, String, Bool, true, false, ◌||◌, List, [], ◌∷◌, Option, none, some, string_eq, pair_eq,
  ◌==◌, if◌then◌else◌, leb, ltb, wrap64, saturating_sub, sum64_by, Result, ok, err, ◌>>=◌, ok_or,
  map_err, prefixed,
}
use icn_v.HashMap.{HashMap, get, insert}
use icn_v.Resources.Types.{
  ScopedResourceToken, ResourceAuthorization, EconomicsError, allow_all, quota, rate_limit,
  permit_list, quota_exceeded, rate_limit_exceeded, access_denied, token_expired, no_policy_found,
  system_time_error, Clock,
}
use icn_v.Resources.Repository.{ResourceRepository}

abbrev pub Policies : Type 0
Policies = HashMap (String × String) ResourceAuthorization

-- The repository is the implementation and its state.
pub record ResourcePolicyEnforcer (S : Type 0) : Type 0 where
  pub repository : ResourceRepository S
  pub usage : S
  pub policies : Policies

-- `Vec::contains`
unfoldable pub contains : List String → String → Bool
contains [] did = false
contains (p ∷ ps) did = p == did || contains ps did

-- "Check if the token is expired"
unfoldable pub check_expiry :
    Clock → ScopedResourceToken → Option ℕ → Result (Unit {0}) EconomicsError
check_expiry clock t none = ok tt
check_expiry clock t (some expires_at) = do
  now ← map_err system_time_error clock
  if ltb expires_at now then err (token_expired expires_at now t.resource_type t.scope) else ok tt

module _ {S : Type 0} where
  unfoldable pub set_policy :
      String → String → ResourceAuthorization → ResourcePolicyEnforcer S → ResourcePolicyEnforcer S
  set_policy rt scope p e = record e { policies = insert (rt, scope) p e.policies }

  unfoldable pub get_policy :
      String → String → ResourcePolicyEnforcer S → Option ResourceAuthorization
  get_policy rt scope e = get (rt, scope) e.policies

  -- "Apply the policy": the `match` on the four policies.
  unfoldable pub apply_policy :
      Clock
      → ResourcePolicyEnforcer S
      → String
      → ScopedResourceToken
      → ResourceAuthorization
      → Result Bool EconomicsError
  apply_policy clock e did t allow_all = ok true
  apply_policy clock e did t (quota limit) = do
    usage ←
        map_err (λ x. system_time_error (prefixed "Failed to get usage: " x))
          (e.repository.get_usage did t.resource_type t.scope e.usage)
    if leb (wrap64 (usage + t.amount)) limit
        then ok true
        else err (quota_exceeded limit usage t.amount t.resource_type t.scope)
  apply_policy clock e did t (rate_limit amount period_secs) = do
    now ← map_err system_time_error clock
    history ←
        map_err (λ x. system_time_error (prefixed "Failed to get usage history: " x))
          (e.repository.get_usage_history did t.resource_type t.scope
            (saturating_sub now period_secs) e.usage)
    let total = sum64_by (λ r. r.1) history
    if leb (wrap64 (total + t.amount)) amount
        then ok true
        else err (rate_limit_exceeded amount period_secs total t.amount t.resource_type t.scope)
  apply_policy clock e did t (permit_list permits) =
      if contains permits did then ok true else err (access_denied did t.resource_type t.scope)

  -- The clock is read up to twice, for the expiry and for the rate limit.
  unfoldable pub check_authorization :
      Clock
      → Clock
      → ResourcePolicyEnforcer S
      → String
      → ScopedResourceToken
      → Result Bool EconomicsError
  unfolding get_policy
  check_authorization first second e did t = do
    policy ← ok_or (no_policy_found t.resource_type t.scope) (get_policy t.resource_type t.scope e)
    check_expiry first t t.expires_at >>= λ _. apply_policy second e did t policy
