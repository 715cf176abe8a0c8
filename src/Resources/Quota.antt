-- ===== src/Resources/Quota.antt =====
-- What the enforcer of icn-economics/src/lib.rs grants over the in-memory repository.
use icn_v.Base.{
  ℕ, ◌+◌, ◌-◌, ◌≤◌, ◌<◌, String, ◌≡◌, refl, ◌↔◌, ◌⊎◌, ◌≢◌, true, false, List, [], ◌∷◌, Option, none,
  some, inl, inr, arith, string_eq, pair_eq, leb, u64_size, filterb, sum_by, sum64_by_lem, ok, err,
  Bool-cases, Option-cases,
}
use icn_v.HashMap.{get, get_or}
use icn_v.Resources.Types.{
  ScopedResourceToken, ResourceAuthorization, EconomicsError, allow_all, quota, rate_limit,
  permit_list, Clock,
}
use icn_v.Resources.InMemory.{
  UsageKey, UsageMap, UsageData, key_of, usage_key_eq, in_memory, used, used_since, get_usage_lem,
  get_usage_history_lem,
}
use icn_v.Resources.Enforcer.{
  Policies, ResourcePolicyEnforcer, contains, check_expiry, apply_policy, check_authorization,
}

-- An enforcer over the in-memory repository.
abbrev pub enforcer : Policies → UsageMap → ResourcePolicyEnforcer UsageMap
enforcer ps u = record { repository = in_memory; usage = u; policies = ps }

abbrev pub token_key : String → ScopedResourceToken → UsageKey
token_key did t = key_of did t.resource_type t.scope

abbrev pub Unexpired : ℕ → Option ℕ → Type 0
Unexpired now none = Unit
Unexpired now (some expires_at) = now ≤ expires_at

abbrev pub Listed : String → List String → Type 0
Listed did [] = ⊥
Listed did (p ∷ ps) = (p ≡ did) ⊎ Listed did ps

-- What each policy demands at a time.
abbrev pub Permits : ℕ → String → ScopedResourceToken → UsageMap → ResourceAuthorization → Type 0
Permits now did t u allow_all = Unit
Permits now did t u (quota limit) = used (token_key did t) u + t.amount ≤ limit
Permits now did t u (rate_limit limit period) =
    used_since (token_key did t) (now - period) u + t.amount ≤ limit
Permits now did t u (permit_list permits) = Listed did permits

contains-Listed : (ps : List String) (did : String) → (contains ps did ≡ true) ↔ Listed did ps
unfolding contains
contains-Listed [] did = (λ h. absurd (cc h), λ h. absurd h)
contains-Listed (p ∷ ps) did =
    let ih = contains-Listed ps did in
    let here = string_eq.eqb_iff p did in
    elim (Bool-cases (string_eq.eqb p did)) [
      | inl e ↦ (λ h. inl (here.0 e), λ h. rw e)
      | inr n ↦
          rw n (λ h. inr (ih.0 h), λ h. elim h [ inl e ↦ absurd (cc (here.1 e)) | inr k ↦ ih.1 k ])
    ]

used_since-le-used : (k : UsageKey) (since : ℕ) (u : UsageMap) → used_since k since u ≤ used k u
used_since-le-used k since u = below (get_or k [] u)
  where
    below :
        (rs : UsageData)
        → sum_by (λ r. r.1) (filterb (λ r. leb since r.0) rs) ≤ sum_by (λ r. r.1) rs
    below [] = omega arith
    below (r ∷ rs) = ground (arith, below rs)

apply_policy-Permits :
    (now : ℕ) (did : String) (t : ScopedResourceToken) (ps : Policies) (u : UsageMap)
    (p : ResourceAuthorization)
    → used (token_key did t) u + t.amount < u64_size
    → (apply_policy (ok now) (enforcer ps u) did t p ≡ ok true) ↔ Permits now did t u p
unfolding apply_policy in_memory
apply_policy-Permits now did t ps u allow_all fits = ground arith
apply_policy-Permits now did t ps u (quota limit) fits =
    rw (get_usage_lem did t.resource_type t.scope u) (ground arith)
apply_policy-Permits now did t ps u (rate_limit limit period) fits =
    rw (get_usage_history_lem did t.resource_type t.scope (now - period) u) (
      ground (
        arith,
        sum64_by_lem (λ (r : ℕ × ℕ). r.1)
            (filterb (λ r. leb (now - period) r.0) (get_or (token_key did t) [] u)),
        used_since-le-used (token_key did t) (now - period) u,
      ))
apply_policy-Permits now did t ps u (permit_list permits) fits =
    elim (Bool-cases (contains permits did)) [
      | inl e ↦ rw e (λ h. (contains-Listed permits did).0 e, λ h. refl)
      | inr n ↦ rw n (λ h. absurd (cc h), λ h. absurd (cc ((contains-Listed permits did).1 h)))
    ]

check_expiry-Unexpired :
    (now : ℕ) (t : ScopedResourceToken) (e : Option ℕ)
    → (check_expiry (ok now) t e ≡ ok tt) ↔ Unexpired now e
unfolding check_expiry
check_expiry-Unexpired now t none = ground arith
check_expiry-Unexpired now t (some x) = ground arith

-- Under a policy that is set for the token's resource and scope, a request is granted exactly when
-- the token has not expired and the policy permits it: always, while the usage with the new amount
-- stays within the quota, while the usage since the start of the period with the new amount stays
-- within the limit, or for a listed DID. The sum of usage and amount is taken to fit a `u64`.
pub check_authorization-Permits :
    (expiry now : ℕ) (did : String) (t : ScopedResourceToken) (ps : Policies) (u : UsageMap)
    (p : ResourceAuthorization)
    → get (t.resource_type, t.scope) ps ≡ some p
    → used (token_key did t) u + t.amount < u64_size
    → (check_authorization (ok expiry) (ok now) (enforcer ps u) did t ≡ ok true)
      ↔ Unexpired expiry t.expires_at × Permits now did t u p
unfolding check_authorization
check_authorization-Permits expiry now did t ps u p found fits = rw found (
    ground (
      arith,
      check_expiry-Unexpired expiry t t.expires_at,
      apply_policy-Permits now did t ps u p fits,
    ))

apply_policy-ne-false :
    (clock : Clock) (did : String) (t : ScopedResourceToken) (ps : Policies) (u : UsageMap)
    (p : ResourceAuthorization)
    → apply_policy clock (enforcer ps u) did t p ≢ ok false
unfolding apply_policy
apply_policy-ne-false clock did t ps u allow_all = ground arith
apply_policy-ne-false clock did t ps u (quota limit) = ground arith
apply_policy-ne-false clock did t ps u (rate_limit limit period) = ground arith
apply_policy-ne-false clock did t ps u (permit_list permits) = ground arith

-- A request never gets the answer `Ok(false)`: it is granted or refused with an error. Without a
-- policy for the token's resource and scope the error says so, whatever the token and the clock;
-- under any policy, a token past its expiry is refused with its expiry and the time that was read,
-- and a clock that cannot be read refuses a token that has an expiry.
pub check_authorization_refuses :
    (expiry now : Clock) (did : String) (t : ScopedResourceToken) (ps : Policies) (u : UsageMap)
    → let answer = check_authorization expiry now (enforcer ps u) did t in
      (answer ≢ ok false)
      × (get (t.resource_type, t.scope) ps ≡ none
          → answer ≡ err (EconomicsError.no_policy_found t.resource_type t.scope))
      × ((p : ResourceAuthorization) (x n : ℕ)
          → get (t.resource_type, t.scope) ps ≡ some p
          → t.expires_at ≡ some x
          → expiry ≡ ok n
          → x < n
          → answer ≡ err (EconomicsError.token_expired x n t.resource_type t.scope))
      × ((p : ResourceAuthorization) (x : ℕ) (e : String)
          → get (t.resource_type, t.scope) ps ≡ some p
          → t.expires_at ≡ some x
          → expiry ≡ err e
          → answer ≡ err (EconomicsError.system_time_error e))
unfolding check_authorization check_expiry
check_authorization_refuses expiry now did t ps u = (
  elim (Option-cases (get (t.resource_type, t.scope) ps)) [
    | inl e ↦ rw e (ground arith)
    | inr (p, e) ↦ rw e (ground (arith, apply_policy-ne-false now did t ps u p))
  ],
  λ e. rw e,
  λ p x n found has read late. rw (found, has, read) (ground arith),
  λ p x e found has read. rw (found, has, read) (ground arith),
)

-- The wrapping sum lets a large request through: when usage and amount together pass the end of a
-- `u64` and what is left after wrapping is within the quota, an unexpired request is granted,
-- although usage and amount exceed the quota.
pub check_authorization_wraps :
    (expiry now : ℕ) (did : String) (t : ScopedResourceToken) (ps : Policies) (u : UsageMap)
    (limit : ℕ)
    → get (t.resource_type, t.scope) ps ≡ some (quota limit)
    → Unexpired expiry t.expires_at
    → used (token_key did t) u < u64_size
    → limit < u64_size
    → u64_size ≤ used (token_key did t) u + t.amount
    → used (token_key did t) u + t.amount ≤ u64_size + limit
    → (check_authorization (ok expiry) (ok now) (enforcer ps u) did t ≡ ok true)
      × (limit < used (token_key did t) u + t.amount)
unfolding check_authorization apply_policy in_memory
check_authorization_wraps expiry now did t ps u limit found fresh small fit over under =
    rw (found, get_usage_lem did t.resource_type t.scope u)
      (ground (arith, check_expiry-Unexpired expiry t t.expires_at), omega arith)
