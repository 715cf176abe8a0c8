-- ===== src/Resources/Tests.antt =====
-- Runs of the enforcer, and its theorems at concrete tokens and policies.
use icn_v.Base.{◌≡◌, refl, [], ◌∷◌, none, some, arith, ok, err, pair_eq, string_eq}
use icn_v.HashMap.{get, insert}
use icn_v.Resources.Types.{ScopedResourceToken, EconomicsError, quota, rate_limit}
use icn_v.Resources.InMemory.{UsageMap, key_of, usage_key_eq, in_memory, get_usage}
use icn_v.Resources.Enforcer.{
  Policies, check_authorization, apply_policy, check_expiry, set_policy, get_policy,
}
use icn_v.Resources.Quota.{enforcer}
use icn_v.Resources.Serving.{QuotasRespected, serve, serve-QuotasRespected}

abbrev policies : Policies
policies = (("storage", "project_x"), quota 1000) ∷ []

abbrev spent : UsageMap
spent = (key_of "did" "storage" "project_x", (5, 600) ∷ (6, 300) ∷ []) ∷ []

abbrev token : ScopedResourceToken
token = record {
  resource_type = "storage";
  amount = 200;
  scope = "project_x";
  expires_at = some 50;
  issuer = none;
}

-- 600 + 300 + 200 is over the quota of 1000.
over_quota :
    check_authorization (ok 7) (ok 7) (enforcer policies spent) "did" token
    ≡ err (EconomicsError.quota_exceeded 1000 900 200 "storage" "project_x")
unfolding check_authorization check_expiry apply_policy in_memory get_usage get usage_key_eq
over_quota = refl

set_then_get :
    get_policy "cpu" "all" (set_policy "cpu" "all" (rate_limit 3 60) (enforcer policies spent))
    ≡ some (rate_limit 3 60)
unfolding get_policy set_policy get insert
set_then_get = refl

policies_found : get (token.resource_type, token.scope) policies ≡ some (quota 1000)
unfolding get
policies_found = refl

spent-QuotasRespected : QuotasRespected policies spent
unfolding get usage_key_eq
spent-QuotasRespected k limit set = ground arith

serve-QuotasRespected_example : QuotasRespected policies (serve 7 policies "did" token spent)
unfolding get
serve-QuotasRespected_example =
    serve-QuotasRespected 7 "did" token policies spent (λ limit set. ground arith)
      spent-QuotasRespected
