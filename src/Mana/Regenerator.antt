-- ===== src/Mana/Regenerator.antt =====
-- `ManaRegenerator` of icn-economics/src/mana.rs, over any ledger. The counters that it increments
-- for the metrics system are left out.
use icn_v.Base.{
  ℕ, ◌+◌, String, not, List, [], ◌∷◌, ◌++◌, Option, none, some, if◌then◌else◌, nat_beq, wrap64, min,
  Result, ok, err, length, prefixed,
}
use icn_v.Mana.State.{ManaState, ManaLedger}

-- `RegenerationPolicy`: the mana regenerated at each tick.
pub data RegenerationPolicy : Type 0 where
  fixed_rate_per_tick : ℕ → RegenerationPolicy

pub record RegenerationTickDetails : Type 0 where
  pub processed_dids_count : ℕ
  pub regenerated_dids_count : ℕ
  pub errors : List (String × String)

-- The counter and the errors that the loop collects.
pub record Progress : Type 0 where
  pub regenerated : ℕ
  pub failures : List (String × String)

-- `state.current_mana = (state.current_mana + regen_amount).min(state.max_mana)`
unfoldable pub regenerated_state : {F : Type 0} → RegenerationPolicy → ManaState F → ManaState F
regenerated_state (fixed_rate_per_tick amount) s = record s {
  current_mana = min (wrap64 (s.current_mana + amount)) s.max_mana;
}

module _ {F S : Type 0} (ledger : ManaLedger F S) (policy : RegenerationPolicy) where
  -- `update_mana_state`, and what its failure adds to the errors.
  abbrev write_back : String → Progress → Result (Unit {0}) String × S → Progress × S
  write_back did p (ok u, s) = (record p { regenerated = p.regenerated + 1 }, s)
  write_back did p (err e, s) = (
    record {
      regenerated = p.regenerated + 1;
      failures = p.failures ++ (did, prefixed "update_failed: " e) ∷ [];
    },
    s,
  )

  -- The body of the loop, on what `get_mana_state` gave.
  abbrev tick_state : String → Progress → S → Result (Option (ManaState F)) String → Progress × S
  tick_state did p s (ok none) = (p, s)
  tick_state did p s (err e) =
      (record p { failures = p.failures ++ (did, prefixed "read_failed: " e) ∷ [] }, s)
  tick_state did p s (ok (some state)) =
      let state' = regenerated_state policy state in
      if not (nat_beq state'.current_mana state.current_mana)
      then write_back did p (ledger.update_mana_state did state' s)
      else (p, s)

  unfoldable pub tick_loop : List String → Progress → S → Progress × S
  tick_loop [] p s = (p, s)
  tick_loop (did ∷ dids) p s =
      let (p', s') = tick_state did p s (ledger.get_mana_state did s) in tick_loop dids p' s'

  unfoldable pub tick : S → Result RegenerationTickDetails String × S
  tick s = elim (ledger.all_dids s) [
    | err e ↦ (err (prefixed "Failed to retrieve all DIDs from ledger for tick: " e), s)
    | ok dids ↦
        let (p, s') = tick_loop dids (record { regenerated = 0; failures = [] }) s in
        (
          ok (record {
            processed_dids_count = length dids;
            regenerated_dids_count = p.regenerated;
            errors = p.failures;
          }),
          s',
        )
  ]
