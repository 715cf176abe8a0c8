-- ===== src/Resources/Types.antt =====
-- `ScopedResourceToken`, `ResourceAuthorization` (icn-economics/src/lib.rs) and `EconomicsError`
-- (icn-types/src/error.rs).
use icn_v.Base.{ℕ, String, List, Option, Result}

pub record ScopedResourceToken : Type 0 where
  pub resource_type : String
  pub amount : ℕ
  pub scope : String
  pub expires_at : Option ℕ
  pub issuer : Option String

pub data ResourceAuthorization : Type 0 where
  allow_all : ResourceAuthorization
  quota : ℕ → ResourceAuthorization
  -- the amount for each period, and the period in seconds
  rate_limit : ℕ → ℕ → ResourceAuthorization
  permit_list : List String → ResourceAuthorization

-- The last two texts are the resource type and the scope.
pub data EconomicsError : Type 0 where
  quota_exceeded : (quota current_usage requested_amount : ℕ) → String → String → EconomicsError
  rate_limit_exceeded :
      (limit_amount period_seconds current_usage_in_period requested_amount : ℕ)
      → String
      → String
      → EconomicsError
  access_denied : (did : String) → String → String → EconomicsError
  token_expired : (expires_at current_time : ℕ) → String → String → EconomicsError
  no_policy_found : String → String → EconomicsError
  system_time_error : String → EconomicsError

-- What `SystemTime::now().duration_since(UNIX_EPOCH)` gives, in seconds.
abbrev pub Clock : Type 0
Clock = Result ℕ String
