-- ===== src/Mana/Tests.antt =====
-- Runs of the pools, the manager, the regenerator and the adapter, and their theorems at concrete
-- states. Rates are `0` here, of the type of the natural numbers.
use icn_v.Base.{
  ℕ, ◌+◌, ◌≤◌, ◌<◌, ◌≡◌, refl, ◌↔◌, ◌≢◌, true, [], ◌∷◌, some, none, arith, u64_size, ok, err,
  string_eq,
}
use icn_v.HashMap.{get}
use icn_v.Identity.Scope.{ScopeKey, scope_eq, scope_eqb}
use icn_v.Mana.Pool.{insufficient_mana, ManaPool, apply_regeneration, available, consume}
use icn_v.Mana.Manager.{ManaManager, Readings, transfer, ensure_pool, balance, spend}
use icn_v.Mana.Safety.{IsValid, transfer-IsValid}
use icn_v.Mana.Transfer.{transfer_adds}
use icn_v.Mana.State.{ManaState, States, in_memory_ledger}
use icn_v.Mana.Regenerator.{fixed_rate_per_tick, tick}
use icn_v.Mana.Tick.{tick_bounds}
use icn_v.Resources.Types.{ScopedResourceToken}
use icn_v.Mana.Adapter.{mana_of}

abbrev alice : ScopeKey
alice = ScopeKey.individual "alice"

abbrev bakery : ScopeKey
bakery = ScopeKey.cooperative "bakery"

abbrev pool : ManaPool
pool = record { current = 10; max = 100; regen_per_sec = 2; last_updated = 5 }

abbrev small_pool : ManaPool
small_pool = record { current = 1; max = 8; regen_per_sec = 0; last_updated = 5 }

-- 10 + 3 * 2 = 16 mana at time 8.
consume_too_much : consume 8 17 alice true pool [] ≡ (
  err (insufficient_mana 17 16),
  record pool { current = 16; last_updated = 8 },
  (alice, 16) ∷ [],
)
unfolding consume available apply_regeneration
consume_too_much = refl

abbrev two_pools : ManaManager
two_pools = record {
  pools = (alice, pool) ∷ (bakery, small_pool) ∷ [];
  hook = true;
  reports = (alice, 10) ∷ (bakery, 1) ∷ [];
}

abbrev readings : Readings
readings = record { spent = 8; created = 8; ensured = 8; credited = 8 }

two_pools-IsValid : IsValid two_pools
unfolding get scope_eq scope_eqb
two_pools-IsValid = record {
  hooked = refl;
  capped = λ k p e. ground (arith, scope_eq.eqb_iff alice k, scope_eq.eqb_iff bakery k);
  reported = λ k p e. ground (arith, scope_eq.eqb_iff alice k, scope_eq.eqb_iff bakery k);
}

found : (get alice two_pools.pools ≡ some pool) × (get bakery two_pools.pools ≡ some small_pool)
unfolding get scope_eq scope_eqb
found = (refl, refl)

alice≢bakery : alice ≢ bakery
alice≢bakery = λ e. ground arith

transfer-IsValid_example :
    ((now : ℕ) (key : ScopeKey) → IsValid (balance now key two_pools).1)
    × ((now : ℕ) (key : ScopeKey) (amount : ℕ) → IsValid (spend now key amount two_pools).1)
    × ((created now : ℕ) (key : ScopeKey) (max regen : ℕ)
        → IsValid (ensure_pool created now key max regen two_pools))
    × ((t : Readings) (from to : ScopeKey) (amount : ℕ)
        → IsValid (transfer t from to amount two_pools).1)
transfer-IsValid_example = transfer-IsValid two_pools two_pools-IsValid

-- Of the 10 mana that Alice gives, 7 find room in the pool of the bakery.
transfer_adds_example :
    let (result, m) = transfer readings alice bakery 10 two_pools in
    (result ≡ ok tt)
    × (get alice m.pools ≡ some (record pool { current = 6; last_updated = 8 }))
    × (get bakery m.pools ≡ some (record small_pool { current = 8; last_updated = 8 }))
    × ((k : ScopeKey) → k ≢ alice → k ≢ bakery → get k m.pools ≡ get k two_pools.pools)
    × (14 ≤ 17)
    × ((◌≡◌ {A = ℕ} 14 17) ↔ (11 ≤ 8))
transfer_adds_example =
    transfer_adds readings alice bakery 10 two_pools pool small_pool alice≢bakery found.0 found.1
      (omega arith, omega arith, omega arith) (omega arith, omega arith, omega arith) (omega arith)
      (omega arith) (omega arith) (omega arith)

abbrev one_pool : ManaManager
one_pool = record two_pools { pools = (alice, pool) ∷ [] }

alone : (get alice one_pool.pools ≡ some pool) × (get bakery one_pool.pools ≡ none)
unfolding get scope_eq scope_eqb
alone = (refl, refl)

abbrev state : ManaState ℕ
state = record { current_mana = 5; max_mana = 12; regen_rate_per_epoch = 0; last_updated_epoch = 3 }

abbrev states : States ℕ
states = ("a", state) ∷ ("b", record state { current_mana = 12 }) ∷ []

a_state : get "a" states ≡ some state
unfolding get
a_state = refl

tick_bounds_example :
    (s : ManaState ℕ) × (get "a" (tick in_memory_ledger (fixed_rate_per_tick 10) states).1 ≡ some s)
    × (s.current_mana ≤ s.max_mana)
    × (s.max_mana ≡ 12)
    × (5 ≤ 12 → 5 + 10 < u64_size → 5 ≤ s.current_mana)
unfolding get
tick_bounds_example =
    tick_bounds (fixed_rate_per_tick 10) states "a" state (refl, (refl, tt)) a_state

abbrev token : ScopedResourceToken
token = record {
  resource_type = "mana";
  amount = 4;
  scope = "all";
  expires_at = none;
  issuer = none;
}

has_five : mana_of "a" states ≡ 5
unfolding get
has_five = refl
