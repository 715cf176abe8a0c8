-- ===== src/Mana/Pool.antt =====
-- `ManaPool` of icn-economics/src/mana.rs.
use icn_v.Base.{
  ℕ, ◌+◌, ◌-◌, ◌*◌, Bool, not, List, ◌∷◌, if◌then◌else◌, leb, ltb, nat_beq, wrap64, min, Result, ok,
  err,
}
use icn_v.Identity.Scope.{ScopeKey}

pub data ManaError : Type 0 where
  insufficient_mana : (requested available : ℕ) → ManaError

pub record ManaPool : Type 0 where
  pub current : ℕ
  pub max : ℕ
  pub regen_per_sec : ℕ
  pub last_updated : ℕ

-- What was passed to `ManaMetricsHook::update_balance`, newest first; `hook` tells whether there is
-- a hook.
abbrev pub Reports : Type 0
Reports = List (ScopeKey × ℕ)

abbrev pub update_balance : Bool → ScopeKey → ℕ → Reports → Reports
update_balance hook scope balance r = if hook then (scope, balance) ∷ r else r

-- `ManaPool::new`
unfoldable pub new_pool : ℕ → ℕ → ℕ → ManaPool
new_pool now max regen = record {
  current = max;
  max = max;
  regen_per_sec = regen;
  last_updated = now;
}

unfoldable pub apply_regeneration : ℕ → ManaPool → ManaPool
apply_regeneration now p =
    if ltb p.last_updated now
    then record p {
      current = min (wrap64 (p.current + wrap64 ((now - p.last_updated) * p.regen_per_sec))) p.max;
      last_updated = now;
    }
    else p

-- The pool after the call; its balance is the result.
unfoldable pub available : ℕ → ScopeKey → Bool → ManaPool → Reports → ManaPool × Reports
available now scope hook p r =
    let q = apply_regeneration now p in
    (q, if not (nat_beq q.current p.current) then update_balance hook scope q.current r else r)

unfoldable pub consume :
    ℕ → ℕ → ScopeKey → Bool → ManaPool → Reports → Result (Unit {0}) ManaError × ManaPool × Reports
consume now amount scope hook p r =
    let (q, r1) = available now scope hook p r in
    if leb amount q.current
    then (
      ok tt,
      record q { current = q.current - amount },
      update_balance hook scope (q.current - amount) r1,
    )
    else (err (insufficient_mana amount q.current), q, r1)

unfoldable pub credit : ℕ → ℕ → ScopeKey → Bool → ManaPool → Reports → ManaPool × Reports
credit now amount scope hook p r =
    let (q, r1) = available now scope hook p r in
    let balance = min (wrap64 (q.current + amount)) q.max in
    (
      record q { current = balance },
      if not (nat_beq balance q.current) then update_balance hook scope balance r1 else r1,
    )
