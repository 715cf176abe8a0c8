-- ===== src/Economics/Policy.antt =====
-- `ResourceAuthorizationPolicy` (icn-economics/src/policy.rs) and `Economics::authorize`.
use icn_v.Base.{ℕ, ◌≤◌, ◌≡◌, ◌↔◌, Bool, true, arith, leb, if◌then◌else◌, ℤ, pos, negsuc}
use icn_v.Economics.Key.{ResourceType}

pub record ResourceAuthorizationPolicy : Type 0 where
  pub max_cpu : ℕ
  pub max_memory : ℕ
  pub token_allowance : ℕ

-- `Default::default()`
abbrev pub default_policy : ResourceAuthorizationPolicy
default_policy = record { max_cpu = 1000000; max_memory = 536870912; token_allowance = 1000 }

unfoldable pub authorized : ResourceAuthorizationPolicy → ResourceType → ℕ → Bool
authorized p ResourceType.cpu amt = leb amt p.max_cpu
authorized p ResourceType.memory amt = leb amt p.max_memory
authorized p ResourceType.token amt = leb amt p.token_allowance
authorized p ResourceType.io amt = true

-- `struct Economics`
pub record Economics : Type 0 where
  pub policy : ResourceAuthorizationPolicy

unfoldable pub authorize : Economics → ResourceType → ℕ → ℤ
unfolding authorized
authorize e rt amt = if authorized e.policy rt amt then pos 0 else negsuc 0

-- The largest amount of a resource that a policy grants; `none` where there is no limit.
abbrev pub WithinLimit : ResourceAuthorizationPolicy → ResourceType → ℕ → Type 0
WithinLimit p ResourceType.cpu amt = amt ≤ p.max_cpu
WithinLimit p ResourceType.memory amt = amt ≤ p.max_memory
WithinLimit p ResourceType.token amt = amt ≤ p.token_allowance
WithinLimit p ResourceType.io amt = Unit

-- A call is authorized exactly when its amount is within the limit of its resource, and its code is
-- 0 or -1; an amount below an authorized one is authorized too.
pub authorize-WithinLimit :
    (e : Economics) (rt : ResourceType) (amt : ℕ)
    → ((authorize e rt amt ≡ pos 0) ↔ WithinLimit e.policy rt amt)
      × ((less : ℕ) → less ≤ amt → authorize e rt amt ≡ pos 0 → authorize e rt less ≡ pos 0)
unfolding authorize
authorize-WithinLimit e ResourceType.cpu amt = (ground arith, λ less le h. ground arith)
authorize-WithinLimit e ResourceType.memory amt = (ground arith, λ less le h. ground arith)
authorize-WithinLimit e ResourceType.token amt = (ground arith, λ less le h. ground arith)
authorize-WithinLimit e ResourceType.io amt = (ground arith, λ less le h. ground arith)
