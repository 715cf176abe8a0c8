-- ===== src/Resources/Serving.antt =====
-- A caller of the enforcer of icn-economics/src/lib.rs that records exactly what it was granted.
use icn_v.Resources.Quota.{enforcer, token_key, check_authorization-Permits}
use icn_v.Base.{
  key_cases, ℕ, ◌+◌, ◌≤◌, ◌<◌, String, ◌≡◌, subst, Bool, true, false, some, inl, inr, arith,
  string_eq, pair_eq, if◌then◌else◌, u64_size, Result, ok, err, Bool-cases,
}
use icn_v.HashMap.{get}
use icn_v.Resources.Types.{ScopedResourceToken, EconomicsError, quota}
use icn_v.Resources.InMemory.{
  UsageKey, UsageMap, usage_key_eq, record_usage, used, used-record_usage,
}
use icn_v.Resources.Enforcer.{Policies, check_authorization}

-- No key has used more than a quota that is set for its resource and scope.
abbrev pub QuotasRespected : Policies → UsageMap → Type 0
QuotasRespected ps u =
    (k : UsageKey) (limit : ℕ)
    → get (k.resource_type, k.scope) ps ≡ some (quota limit)
    → used k u ≤ limit

-- The amount of a request, on top of a quota, still fits a `u64`.
abbrev pub FitsQuota : Policies → ScopedResourceToken → Type 0
FitsQuota ps t =
    (limit : ℕ)
    → get (t.resource_type, t.scope) ps ≡ some (quota limit)
    → limit + t.amount < u64_size

abbrev granted : Result Bool EconomicsError → Bool
granted (ok b) = b
granted (err e) = false

-- A caller that asks first and records what it was granted.
pub serve : ℕ → Policies → String → ScopedResourceToken → UsageMap → UsageMap
serve now ps did t u =
    if granted (check_authorization (ok now) (ok now) (enforcer ps u) did t)
    then (record_usage (ok now) did t u).1
    else u

granted-eq-ok : (r : Result Bool EconomicsError) → granted r ≡ true → r ≡ ok true
granted-eq-ok (ok b) h = rw h
granted-eq-ok (err e) h = absurd (cc h)

granted-le-limit :
    (now : ℕ) (did : String) (t : ScopedResourceToken) (ps : Policies) (u : UsageMap) (limit : ℕ)
    → FitsQuota ps t
    → QuotasRespected ps u
    → get (t.resource_type, t.scope) ps ≡ some (quota limit)
    → granted (check_authorization (ok now) (ok now) (enforcer ps u) did t) ≡ true
    → used (token_key did t) u + t.amount ≤ limit
granted-le-limit now did t ps u limit fits h set g =
    ((check_authorization-Permits now now did t ps u (quota limit) set
        (omega (arith, fits limit set, h (token_key did t) limit set))).0
      (granted-eq-ok _ g)).1

-- A caller that asks before each use and records what it was granted never exceeds a quota that is
-- set, for any DID, resource and scope, as long as quota and amount together fit a `u64`.
pub serve-QuotasRespected :
    (now : ℕ) (did : String) (t : ScopedResourceToken) (ps : Policies) (u : UsageMap)
    → FitsQuota ps t
    → QuotasRespected ps u
    → QuotasRespected ps (serve now ps did t u)
unfolding serve
serve-QuotasRespected now did t ps u fits h k limit set =
    elim (Bool-cases (granted (check_authorization (ok now) (ok now) (enforcer ps u) did t))) [
      | inr refused ↦ rw refused (h k limit set)
      | inl yes' ↦ rw yes' (elim (key_cases k (token_key did t)) [
        | inr other ↦ ground (arith, (used-record_usage now did t u).3 k other, h k limit set)
        | inl e ↦
            let set' =
              subst (λ (k : UsageKey). get (k.resource_type, k.scope) ps ≡ some (quota limit)) e
                set in
            rw e (
              omega (
                arith,
                (used-record_usage now did t u).1,
                granted-le-limit now did t ps u limit fits h set' yes',
              ))
      ])
    ]
