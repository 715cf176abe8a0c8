-- ===== src/Mana/Adapter.antt =====
-- `ManaRepositoryAdapter` of icn-economics/src/lib.rs: a ledger of mana as a resource repository.
-- The error texts are those of `anyhow!` up to the DID and the numbers that they print.
use icn_v.Base.{
  ℕ, ◌+◌, ◌-◌, ◌≤◌, ◌<◌, String, ◌≡◌, refl, sym, ◌↔◌, ◌≢◌, ◌⊎◌, inl, inr, true, not, List, [],
  Option, none, some, arith, if◌then◌else◌, ltb, u64_size, Result, ok, err, ◌>>=◌, map_err,
  prefixed, string_eq, pair_eq, Bool-cases,
}
use icn_v.HashMap.{get}
use icn_v.HashMap.Laws.{get-insert_self, get-insert_ne}
use icn_v.Resources.Types.{ScopedResourceToken, quota, Clock}
use icn_v.Resources.Repository.{ResourceRepository}
use icn_v.Resources.Enforcer.{apply_policy}
use icn_v.Mana.State.{ManaState, ManaLedger, States, in_memory_ledger}

-- The zero rate, `0.0`, comes with the type of the rates.
module _ {F S : Type 0} (zero_rate : F) (ledger : ManaLedger F S) where
  -- "Default state if DID has no mana record yet."
  abbrev pub or_default : Option (ManaState F) → ManaState F
  or_default (some s) = s
  or_default none = record {
    current_mana = 0;
    max_mana = 0;
    regen_rate_per_epoch = zero_rate;
    last_updated_epoch = 0;
  }

  abbrev unsupported : String
  unsupported = "ManaRepositoryAdapter: unsupported resource type"

  -- The spending of `record_usage`, on the state that was read.
  abbrev spend_state : String → ScopedResourceToken → ManaState F → S → Result (Unit {0}) String × S
  spend_state did t state s =
      if ltb state.current_mana t.amount
      then (err (prefixed "Insufficient mana for DID " did), s)
      else let (r, s') =
          ledger.update_mana_state did
            (record state { current_mana = state.current_mana - t.amount }) s in
        (map_err (prefixed "Failed to update mana state: ") r, s')

  unfoldable pub adapter_record_usage :
      Clock → String → ScopedResourceToken → S → Result (Unit {0}) String × S
  adapter_record_usage clock did t s =
      let spent : Result (Unit {0}) String × S = elim (ledger.get_mana_state did s) [
        | err e ↦ (err (prefixed "Failed to get mana state: " e), s)
        | ok maybe ↦ spend_state did t (or_default maybe) s
      ] in
      if not (string_eq.eqb t.resource_type "mana") then (err unsupported, s) else spent

  abbrev balance_of : Option (ManaState F) → ℕ
  balance_of none = 0
  balance_of (some s) = s.current_mana

  unfoldable pub adapter_get_usage : String → String → String → S → Result ℕ String
  adapter_get_usage did rt scope s =
      if not (string_eq.eqb rt "mana")
      then err unsupported
      else (map_err (prefixed "Failed to get mana state: ") (ledger.get_mana_state did s)
          >>= λ maybe. ok (balance_of maybe))

  unfoldable pub adapter_get_usage_history :
      String → String → String → ℕ → S → Result (List (ℕ × ℕ)) String
  adapter_get_usage_history did rt scope since s =
      if not (string_eq.eqb rt "mana") then err unsupported else ok []

  unfoldable pub adapter : ResourceRepository S
  adapter = record {
    record_usage = adapter_record_usage;
    get_usage = adapter_get_usage;
    get_usage_history = adapter_get_usage_history;
  }

-- The mana that a DID has.
abbrev pub mana_of : {F : Type 0} → String → States F → ℕ
mana_of did s = elim (get did s) [ none ↦ 0 | some st ↦ st.current_mana ]

-- What recording an amount may end in: the amount is taken from this DID only, or nothing changes.
abbrev Recorded :
    {F : Type 0} → String → ℕ → States F → Result (Unit {0}) String × States F → Type 0
Recorded did amount s o =
    ((amount ≤ mana_of did s)
      × (o.0 ≡ ok tt)
      × (mana_of did o.1 ≡ mana_of did s - amount)
      × ((other : String) → other ≢ did → get other o.1 ≡ get other s))
    ⊎ ((mana_of did s < amount)
        × (o.0 ≡ err (prefixed "Insufficient mana for DID " did))
        × (o.1 ≡ s))

spend_state-Recorded :
    {F : Type 0} (zero_rate : F) (did : String) (t : ScopedResourceToken) (st : ManaState F)
    (s : States F)
    → mana_of did s ≡ st.current_mana
    → Recorded did t.amount s (spend_state zero_rate in_memory_ledger did t st s)
spend_state-Recorded zero_rate did t st s h = elim (Bool-cases (ltb st.current_mana t.amount)) [
  | inl e ↦ rw e (inr (ground arith, refl, refl))
  | inr e ↦
      let taken : ManaState _ = record st { current_mana = st.current_mana - t.amount } in
      rw e (
        inl (
          ground arith,
          refl,
          rw (mana_of, get-insert_self did taken s) (ground arith),
          λ other ne. get-insert_ne did other taken s (λ p. ne (sym p)),
        ))
]

-- Over the in-memory ledger, recording an amount of mana succeeds exactly when the DID has it and
-- then takes it away, from this DID only; otherwise it fails and changes nothing.
pub adapter_record_usage-Recorded :
    {F : Type 0} (zero_rate : F) (clock : Clock) (did : String) (t : ScopedResourceToken)
    (s : States F)
    → t.resource_type ≡ "mana"
    → Recorded did t.amount s (adapter_record_usage zero_rate in_memory_ledger clock did t s)
unfolding adapter_record_usage
adapter_record_usage-Recorded {F = F} zero_rate clock did t s mana = rw (mana) (
    spend_state-Recorded zero_rate did t (or_default zero_rate in_memory_ledger (get did s)) s
      (balance_of_lem (get did s)))
  where
    balance_of_lem :
        (o : Option (ManaState F))
        → (elim o [ none ↦ 0 | some st ↦ st.current_mana ])
          ≡ (or_default zero_rate in_memory_ledger o).current_mana
    balance_of_lem none = refl
    balance_of_lem (some st) = refl

adapter_get_usage_lem :
    {F : Type 0} (zero_rate : F) (did rt scope : String) (s : States F)
    → rt ≡ "mana"
    → adapter_get_usage zero_rate in_memory_ledger did rt scope s ≡ ok (mana_of did s)
unfolding adapter_get_usage
adapter_get_usage_lem zero_rate did rt scope s mana = rw (mana) refl

-- The usage that the adapter answers with is the mana that is left, so an enforcer over it admits an
-- unexpired token exactly when the mana of the DID and the amount together are at most the quota,
-- as long as they fit a `u64`.
pub adapter-quota :
    {F : Type 0} (zero_rate : F) (clock : Clock) (did : String) (t : ScopedResourceToken)
    (s : States F) (limit : ℕ)
    → t.resource_type ≡ "mana"
    → mana_of did s + t.amount < u64_size
    → (apply_policy clock
          (record { repository = adapter zero_rate in_memory_ledger; usage = s; policies = [] })
          did
          t
          (quota limit)
        ≡ ok true)
      ↔ (mana_of did s + t.amount ≤ limit)
unfolding apply_policy adapter adapter_get_usage
adapter-quota zero_rate clock did t s limit mana small =
    rw (adapter_get_usage_lem zero_rate did t.resource_type t.scope s mana) (ground arith)
