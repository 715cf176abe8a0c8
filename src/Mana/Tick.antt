-- ===== src/Mana/Tick.antt =====
-- One tick of `ManaRegenerator` (icn-economics/src/mana.rs) over the in-memory ledger.
use icn_v.Base.{min, wrap64, suc}
use icn_v.Base.{
  ℕ, ◌+◌, ◌≤◌, ◌<◌, String, ◌≡◌, refl, ◌∙◌, ◌↔◌, inl, inr, Bool, false, ◌||◌, List, [], ◌∷◌, Option,
  none, some, arith, if◌then◌else◌, nat_beq, u64_size, ok, string_eq, eq_iff, Bool-cases,
  Option-cases,
}
use native.Mathlib.Nat.{add-zero, zero-add, add_assoc}
use icn_v.HashMap.{get, insert, keys, size}
use icn_v.HashMap.Laws.{get-insert}
use icn_v.HashMap.Keys.{KeysDistinct, length-keys}
use icn_v.Mana.State.{ManaState, States, in_memory_ledger}
use icn_v.Mana.Regenerator.{
  RegenerationPolicy, fixed_rate_per_tick, Progress, regenerated_state, tick_loop, tick,
}

abbrev occurs : String → List String → Bool
occurs k [] = false
occurs k (d ∷ ds) = string_eq.eqb d k || occurs k ds

abbrev Distinct : List String → Type 0
Distinct [] = Unit
Distinct (d ∷ ds) = (occurs d ds ≡ false) × Distinct ds

abbrev regenerated_at :
    {F : Type 0} → RegenerationPolicy → Option (ManaState F) → Option (ManaState F)
regenerated_at policy none = none
regenerated_at policy (some s) = some (regenerated_state policy s)

-- 1 where a tick changes the mana of a state, and 0 elsewhere.
abbrev gains : {F : Type 0} → RegenerationPolicy → Option (ManaState F) → ℕ
gains policy none = 0
gains policy (some s) =
    if nat_beq (regenerated_state policy s).current_mana s.current_mana then 0 else 1

-- A state with an amount added to its mana, as a `u64`, up to its maximum.
abbrev pub raised : {F : Type 0} → ℕ → ManaState F → ManaState F
raised amount s = record s { current_mana = min (wrap64 (s.current_mana + amount)) s.max_mana }

abbrev pub raised_at : {F : Type 0} → ℕ → Option (ManaState F) → Option (ManaState F)
raised_at amount none = none
raised_at amount (some s) = some (raised amount s)

-- How many of the DIDs have a state whose mana the amount changes.
abbrev pub risers : {F : Type 0} → ℕ → List String → States F → ℕ
risers amount [] m = 0
risers amount (d ∷ ds) m = elim (get d m) [
  | none ↦ risers amount ds m
  | some s ↦
      if nat_beq (raised amount s).current_mana s.current_mana
      then risers amount ds m
      else suc (risers amount ds m)
]

abbrev pub amount_of : RegenerationPolicy → ℕ
amount_of (fixed_rate_per_tick amount) = amount

module _ {F : Type 0} (policy : RegenerationPolicy) where
  gains_of : List String → States F → ℕ
  gains_of [] m = 0
  gains_of (d ∷ ds) m = gains policy (get d m) + gains_of ds m

  abbrev step : String → States F → States F
  step d m = elim (get d m) [
    | none ↦ m
    | some s ↦
        if nat_beq (regenerated_state policy s).current_mana s.current_mana
        then m
        else insert d (regenerated_state policy s) m
  ]

  tick_loop-step :
      (d : String) (ds : List String) (p : Progress) (m : States F)
      → tick_loop in_memory_ledger policy (d ∷ ds) p m
        ≡ tick_loop in_memory_ledger policy ds
            (record p { regenerated = p.regenerated + gains policy (get d m) })
            (step d m)
  unfolding tick_loop
  tick_loop-step d ds p m = elim (Option-cases (get d m)) [
    | inl e ↦ let stays : step d m ≡ m = rw (e, step) in rw (stays, e, add-zero p.regenerated) refl
    | inr (s, e) ↦
        elim (Bool-cases (nat_beq (regenerated_state policy s).current_mana s.current_mana)) [
          | inl same ↦
              let stays : step d m ≡ m = rw (e, step) (rw same) in
              rw (stays, e) (rw (same, add-zero p.regenerated) refl)
          | inr new ↦
              let moves : step d m ≡ insert d (regenerated_state policy s) m =
                rw (e, step) (rw new) in
              rw (moves, e) (rw new refl)
        ]
  ]

  -- What one step does to each state. A state that the step leaves alone is its own regeneration.
  get-step :
      (d k : String) (m : States F)
      → get k (step d m) ≡ (if string_eq.eqb d k then regenerated_at policy (get k m) else get k m)
  unfolding regenerated_state
  get-step d k m = elim (Option-cases (get d m)) [
    | inl e ↦ rw (e, step) (ground (arith, eq_iff d k))
    | inr (s, e) ↦
        rw (e, step) (ground (arith, eq_iff d k, get-insert d k (regenerated_state policy s) m))
  ]

  get-tick_loop :
      (ds : List String) (p : Progress) (m : States F) (k : String)
      → Distinct ds
      → get k (tick_loop in_memory_ledger policy ds p m).1
        ≡ (if occurs k ds then regenerated_at policy (get k m) else get k m)
  get-tick_loop [] p m k h = unfold tick_loop in refl
  get-tick_loop (d ∷ ds) p m k h = rw (tick_loop-step d ds p m) (
      ground (
        arith,
        get-tick_loop ds (record p { regenerated = p.regenerated + gains policy (get d m) })
            (step d m) k h.1,
        get-step d k m,
        eq_iff d k,
      ))

  gains_of-step :
      (d : String) (ds : List String) (m : States F)
      → occurs d ds ≡ false
      → gains_of ds (step d m) ≡ gains_of ds m
  unfolding gains_of
  gains_of-step d [] m h = refl
  gains_of-step d (e ∷ ds) m h =
      ground (arith, gains_of-step d ds m, get-step d e m, eq_iff d e, eq_iff e d)

  progress-tick_loop :
      (ds : List String) (p : Progress) (m : States F)
      → Distinct ds
      → (tick_loop in_memory_ledger policy ds p m).0
        ≡ record p { regenerated = p.regenerated + gains_of ds m }
  unfolding gains_of
  progress-tick_loop [] p m h = unfold tick_loop in rw (add-zero p.regenerated) refl
  progress-tick_loop (d ∷ ds) p m h = rw (tick_loop-step d ds p m) (
      rw
        (
          progress-tick_loop ds (record p { regenerated = p.regenerated + gains policy (get d m) })
              (step d m) h.1,
          gains_of-step d ds m h.0,
          add_assoc,
        )
        refl)

  occurs-keys : (k : String) (m : States F) → (occurs k (keys m) ≡ false) ↔ (get k m ≡ none)
  unfolding get
  occurs-keys k [] = ground arith
  occurs-keys k ((j, s) ∷ m) = ground (arith, occurs-keys k m)

  keys-Distinct : (m : States F) → KeysDistinct m → Distinct (keys m)
  keys-Distinct [] h = tt
  keys-Distinct ((j, s) ∷ m) h = ((occurs-keys j m).1 h.0, keys-Distinct m h.1)

  regenerated_at-raised :
      (o : Option (ManaState F)) → regenerated_at policy o ≡ raised_at (amount_of policy) o
  unfolding regenerated_state
  regenerated_at-raised none = refl
  regenerated_at-raised (some s) = ground arith

  gains_of-risers :
      (ds : List String) (m : States F) → gains_of ds m ≡ risers (amount_of policy) ds m
  unfolding gains_of regenerated_state
  gains_of-risers [] m = refl
  gains_of-risers (d ∷ ds) m = ground (arith, gains_of-risers ds m)

  pub tick-in_memory_ledger :
      (m : States F)
      → KeysDistinct m
      → let (r, m') = tick in_memory_ledger policy m in
        (r
          ≡ ok (record {
            processed_dids_count = size m;
            regenerated_dids_count = risers (amount_of policy) (keys m) m;
            errors = [];
          }))
        × ((k : String) → get k m' ≡ raised_at (amount_of policy) (get k m))
  unfolding tick
  tick-in_memory_ledger m h =
      let start : Progress = record { regenerated = 0; failures = [] } in
      (
        rw (progress-tick_loop (keys m) start m (keys-Distinct m h), length-keys m)
            (rw (zero-add, gains_of-risers (keys m) m) refl),
        λ k.
            get-tick_loop (keys m) start m k (keys-Distinct m h)
            ∙ ground (arith, occurs-keys k m)
            ∙ regenerated_at-raised (get k m),
      )

  -- A tick leaves no DID with more than its maximum, never changes a maximum, and lowers no mana that
  -- was within its maximum, as long as mana and amount together fit a `u64`.
  pub tick_bounds :
      (m : States F) (k : String) (s : ManaState F)
      → KeysDistinct m
      → get k m ≡ some s
      → (s' : ManaState F) × (get k (tick in_memory_ledger policy m).1 ≡ some s')
        × (s'.current_mana ≤ s'.max_mana)
        × (s'.max_mana ≡ s.max_mana)
        × (s.current_mana ≤ s.max_mana
            → s.current_mana + amount_of policy < u64_size
            → s.current_mana ≤ s'.current_mana)
  unfolding regenerated_state
  tick_bounds m k s h e = (
    raised (amount_of policy) s,
    (tick-in_memory_ledger m h).1 k ∙ (rw e refl),
    ground arith,
    ground arith,
    ground arith,
  )
