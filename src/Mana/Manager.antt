-- ===== src/Mana/Manager.antt =====
-- `ManaManager` of icn-economics/src/mana.rs.
use icn_v.Base.{ℕ, Bool, [], Option, none, some, Result, ok, err}
use icn_v.HashMap.{HashMap, get, insert}
use icn_v.Identity.Scope.{ScopeKey, scope_eq}
use icn_v.Mana.Pool.{
  ManaError, insufficient_mana, ManaPool, Reports, update_balance, new_pool, available, consume,
  credit,
}

-- `hook` tells whether there is a `metrics_hook`, and `reports` is what it has been told so far.
pub record ManaManager : Type 0 where
  pub pools : HashMap ScopeKey ManaPool
  pub hook : Bool
  pub reports : Reports

-- `ManaManager::new` and `with_metrics_hook`
abbrev pub new_manager : Bool → ManaManager
new_manager hook = record { pools = []; hook = hook; reports = [] }

-- `entry(key).or_insert_with(…)`: the pool, new or not, and the reports of its creation.
abbrev pub entry_pool : ℕ → ScopeKey → ℕ → ℕ → ManaManager → Option ManaPool → ManaPool × Reports
entry_pool created key max regen m (some p) = (p, m.reports)
entry_pool created key max regen m none =
    let p = new_pool created max regen in (p, update_balance m.hook key p.current m.reports)

-- The clock is read when a pool is created, and when it is looked at.
unfoldable pub ensure_pool : ℕ → ℕ → ScopeKey → ℕ → ℕ → ManaManager → ManaManager
ensure_pool created now key max regen m =
    let (p, r) = entry_pool created key max regen m (get key m.pools) in
    let (q, r1) = available now key m.hook p r in
    record m { pools = insert key q m.pools; reports = update_balance m.hook key q.current r1 }

unfoldable pub balance : ℕ → ScopeKey → ManaManager → Option ℕ × ManaManager
balance now key m = elim (get key m.pools) [
  | none ↦ (none, m)
  | some p ↦
      let (q, r) = available now key m.hook p m.reports in
      (some q.current, record m { pools = insert key q m.pools; reports = r })
]

unfoldable pub spend : ℕ → ScopeKey → ℕ → ManaManager → Result (Unit {0}) ManaError × ManaManager
spend now key amount m = elim (get key m.pools) [
  | none ↦ (err (insufficient_mana amount 0), m)
  | some p ↦
      let (result, q, r) = consume now amount key m.hook p m.reports in
      (result, record m { pools = insert key q m.pools; reports = r })
]

-- `if let Some(pool) = self.pools.get_mut(to)`: the credit of the destination.
unfoldable pub credit_pool : ℕ → ScopeKey → ℕ → ManaManager → ManaManager
credit_pool now key amount m = elim (get key m.pools) [
  | none ↦ m
  | some p ↦
      let (q, r) = credit now amount key m.hook p m.reports in
      record m { pools = insert key q m.pools; reports = r }
]

-- The readings of the clock: by `spend`, by the creation of the destination, by its `available`, and
-- by `credit`.
pub record Readings : Type 0 where
  pub spent : ℕ
  pub created : ℕ
  pub ensured : ℕ
  pub credited : ℕ

abbrev pub after_spend :
    Readings
    → ScopeKey
    → ℕ
    → Result (Unit {0}) ManaError × ManaManager
    → Result (Unit {0}) ManaError × ManaManager
after_spend t to amount (err e, m) = (err e, m)
after_spend t to amount (ok u, m) =
    (ok tt, credit_pool t.credited to amount (ensure_pool t.created t.ensured to amount 1 m))

unfoldable pub transfer :
    Readings → ScopeKey → ScopeKey → ℕ → ManaManager → Result (Unit {0}) ManaError × ManaManager
transfer t from to amount m = after_spend t to amount (spend t.spent from amount m)
