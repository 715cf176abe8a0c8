-- ===== src/Mana/State.antt =====
-- `ManaState` (icn-types/src/mana.rs), the trait `ManaLedger` and its in-memory implementation
-- (icn-economics/src/mana.rs). The rate is an `f64` that this code only stores, so its type is a
-- parameter. `anyhow` errors are their texts.
use icn_v.Base.{ℕ, String, List, Option, Result, ok, string_eq}
use icn_v.HashMap.{HashMap, get, insert, keys}

pub record ManaState (F : Type 0) : Type 0 where
  pub current_mana : ℕ
  pub max_mana : ℕ
  pub regen_rate_per_epoch : F
  pub last_updated_epoch : ℕ

-- The trait, over the state of an implementation.
pub record ManaLedger (F S : Type 0) : Type 0 where
  pub get_mana_state : String → S → Result (Option (ManaState F)) String
  pub update_mana_state : String → ManaState F → S → Result (Unit {0}) String × S
  pub all_dids : S → Result (List String) String

abbrev pub States : Type 0 → Type 0
States F = HashMap String (ManaState F)

module _ {F : Type 0} where
  -- `impl ManaLedger for InMemoryManaLedger`
  abbrev pub in_memory_ledger : ManaLedger F (States F)
  in_memory_ledger = record {
    get_mana_state = λ did s. ok (get did s);
    update_mana_state = λ did state s. (ok tt, insert did state s);
    all_dids = λ s. ok (keys s);
  }
