-- ===== src/Agoranet/Stats.antt =====
-- `get_stats` and `get_federation_stats` of icn-agoranet/src/transfers.rs. The instant one day ago is
-- an argument.
use mathlib.Core.List.{Memᴰ}
use icn_v.Base.{
  subst, sym, ℕ, ◌≤◌, String, ◌≡◌, refl, ◌⊎◌, inl, inr, Bool, true, false, not, List, [], ◌∷◌,
  Option, none, some, arith, if◌then◌else◌, ltb, leb, wrap64, All, ◌==◌, string_eq, length, filterb,
  sum_by, sum64_by, sum64_by_lem, Bool-cases,
}
use icn_v.HashMap.{HashMap, size, contains_key}
use icn_v.Agoranet.Types.{EntityRef, BalanceKey, balance_key_eq, Transfer, LedgerStats}
use icn_v.Agoranet.Ledger.{Ledger}

-- `max_by_key(|(_, balance)| *balance)`, which gives the last of several maxima.
unfoldable pub max_by_balance : BalanceKey × ℕ → List (BalanceKey × ℕ) → BalanceKey × ℕ
max_by_balance best [] = best
max_by_balance best (e ∷ es) = max_by_balance (if leb best.1 e.1 then e else best) es

unfoldable pub highest : List (BalanceKey × ℕ) → Option EntityRef × ℕ
highest [] = (none, 0)
highest (e ∷ es) =
    let ((id, entity_type), balance) = max_by_balance e es in
    (some (record { entity_type = entity_type; id = id }), balance)

abbrev pub is_active : BalanceKey × ℕ → Bool
is_active e = ltb 0 e.1

module _ {Value : Type 0} where
  -- What both functions compute of some transfers and the entries of some entities.
  unfoldable pub stats_of :
      ℕ → List (Transfer Value) → List (BalanceKey × ℕ) → HashMap BalanceKey ℕ → LedgerStats
  stats_of day_ago transfers entities balances =
      let recent = filterb (λ t. ltb day_ago t.timestamp) transfers in
      let (entity, balance) = highest entities in
      record {
        total_transfers = length transfers;
        total_volume = sum64_by (λ t. t.amount) transfers;
        total_fees = sum64_by (λ t. t.fee) transfers;
        total_entities = size balances;
        active_entities = length (filterb is_active balances);
        highest_balance_entity = entity;
        highest_balance = balance;
        transfers_last_24h = length recent;
        volume_last_24h = sum64_by (λ t. t.amount) recent;
      }

  unfoldable pub get_stats : ℕ → Ledger Value → LedgerStats
  get_stats day_ago l = stats_of day_ago l.transfers l.balances l.balances

  unfoldable pub get_federation_stats : ℕ → String → Ledger Value → Option LedgerStats
  get_federation_stats day_ago federation_id l =
      if not (contains_key federation_id l.federation_stats)
      then none
      else some (
          stats_of day_ago (filterb (λ t. t.federation_id == federation_id) l.transfers)
            (filterb is_active l.balances) l.balances)

abbrev pub Bounded : ℕ → List (BalanceKey × ℕ) → Type 0
Bounded n es = All (λ e. e.1 ≤ n) es

max_by_balance-Bounded :
    (best : BalanceKey × ℕ) (es : List (BalanceKey × ℕ))
    → (best.1 ≤ (max_by_balance best es).1) × Bounded (max_by_balance best es).1 es
unfolding max_by_balance
max_by_balance-Bounded best [] = (omega arith, tt)
max_by_balance-Bounded best (e ∷ es) = elim (Bool-cases (leb best.1 e.1)) [
  | inl up ↦
      let (le, all) = max_by_balance-Bounded e es in
      let same : max_by_balance best (e ∷ es) ≡ max_by_balance e es =
        rw (up, max_by_balance) refl in
      subst (λ (m : BalanceKey × ℕ). (best.1 ≤ m.1) × Bounded m.1 (e ∷ es)) (sym same)
        (ground (arith, le), (le, all))
  | inr down ↦
      let (le, all) = max_by_balance-Bounded best es in
      let same : max_by_balance best (e ∷ es) ≡ max_by_balance best es =
        rw (down, max_by_balance) refl in
      subst (λ (m : BalanceKey × ℕ). (best.1 ≤ m.1) × Bounded m.1 (e ∷ es)) (sym same)
        (le, (ground (arith, le), all))
]

max_by_balance-Occurs :
    (best : BalanceKey × ℕ) (es : List (BalanceKey × ℕ))
    → (max_by_balance best es ≡ best) ⊎ Memᴰ (max_by_balance best es) es
unfolding max_by_balance
max_by_balance-Occurs best [] = inl refl
max_by_balance-Occurs best (e ∷ es) = elim (Bool-cases (leb best.1 e.1)) [
  | inl up ↦ rw up (elim (max_by_balance-Occurs e es) [
    | inl same ↦ inr (rw same (Memᴰ.head refl))
    | inr found ↦ inr (Memᴰ.tail found)
  ])
  | inr down ↦ rw down (elim (max_by_balance-Occurs best es) [
    | inl same ↦ inl same
    | inr found ↦ inr (Memᴰ.tail found)
  ])
]

-- The entry of the highest balance is one of the entries, and no balance is above it.
abbrev pub IsHighest : List (BalanceKey × ℕ) → Option EntityRef → ℕ → Type 0
IsHighest es none balance = (es ≡ []) × (balance ≡ 0)
IsHighest es (some entity) balance =
    Memᴰ ((entity.id, entity.entity_type), balance) es × Bounded balance es

highest-IsHighest : (es : List (BalanceKey × ℕ)) → IsHighest es (highest es).0 (highest es).1
unfolding highest
highest-IsHighest [] = (refl, refl)
highest-IsHighest (e ∷ es) = (
  elim (max_by_balance-Occurs e es) [
    | inl same ↦ rw same (Memᴰ.head refl)
    | inr found ↦ Memᴰ.tail found
  ],
  max_by_balance-Bounded e es,
)

-- The statistics of the ledger name an entity of highest balance, unless there is none, and their
-- volume and fees are the sums over all transfers, modulo the size of a `u64`; the volume of the last day is
-- that of the transfers after the instant. Those of a federation exist exactly for a registered one; they
-- count its own transfers, but name the highest among the positive balances of the whole ledger.
pub get_stats-IsHighest :
    {Value : Type 0} (day_ago : ℕ) (federation_id : String) (l : Ledger Value)
    → let s = get_stats day_ago l in
      let own = filterb (λ t. t.federation_id == federation_id) l.transfers in
      IsHighest l.balances s.highest_balance_entity s.highest_balance
      × (s.total_volume ≡ wrap64 (sum_by (λ t. t.amount) l.transfers))
      × (s.total_fees ≡ wrap64 (sum_by (λ t. t.fee) l.transfers))
      × (s.volume_last_24h
          ≡ wrap64 (sum_by (λ t. t.amount) (filterb (λ t. ltb day_ago t.timestamp) l.transfers)))
      × (contains_key federation_id l.federation_stats ≡ false
          → get_federation_stats day_ago federation_id l ≡ none)
      × (contains_key federation_id l.federation_stats ≡ true
          → (f : LedgerStats) × (get_federation_stats day_ago federation_id l ≡ some f)
            × (f.total_transfers ≡ length own)
            × (f.total_volume ≡ wrap64 (sum_by (λ t. t.amount) own))
            × (f.active_entities ≡ s.active_entities)
            × IsHighest (filterb is_active l.balances) f.highest_balance_entity f.highest_balance)
unfolding get_stats get_federation_stats stats_of
get_stats-IsHighest day_ago federation_id l =
    let own = filterb (λ t. t.federation_id == federation_id) l.transfers in
    (
      highest-IsHighest l.balances,
      sum64_by_lem (λ t. t.amount) l.transfers,
      sum64_by_lem (λ t. t.fee) l.transfers,
      sum64_by_lem (λ t. t.amount) (filterb (λ t. ltb day_ago t.timestamp) l.transfers),
      λ absent. rw absent refl,
      λ there. (
        stats_of day_ago own (filterb is_active l.balances) l.balances,
        rw there refl,
        refl,
        sum64_by_lem (λ t. t.amount) own,
        refl,
        highest-IsHighest (filterb is_active l.balances),
      ),
    )
