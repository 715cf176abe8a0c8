-- ===== src/Mana/Transfer.antt =====
-- What `ManaManager::transfer` (icn-economics/src/mana.rs) does to the two pools.
use icn_v.Base.{
  ℕ, ◌+◌, ◌-◌, ◌*◌, ◌≤◌, ◌<◌, ◌≡◌, refl, sym, ap, ◌↔◌, ◌∙◌, ◌≢◌, inl, inr, none, some, arith,
  Result, ok, err, u64_size, min,
}
use icn_v.HashMap.{get, insert}
use icn_v.HashMap.Laws.{get-insert_self, get-insert_ne}
use icn_v.Identity.Scope.{ScopeKey, scope_eq}
use icn_v.Mana.Pool.{
  ManaError, insufficient_mana, ManaPool, Reports, new_pool, apply_regeneration, available, consume,
  credit,
}
use icn_v.Mana.Level.{
  IsCapped, Fits, level, apply_regeneration_lem, apply_regeneration_twice, consume_lem,
}
use icn_v.Mana.Manager.{
  ManaManager, Readings, entry_pool, ensure_pool, spend, credit_pool, transfer,
}

-- A pool that can be read at a time: capped, not ahead of the clock, and within `u64`.
abbrev pub Readable : ManaPool → ℕ → Type 0
Readable p now = IsCapped p × (p.last_updated ≤ now) × Fits p now

-- Spending from a scope that has a pool, or has none.
spend_refused :
    (t : Readings) (from to : ScopeKey) (amount : ℕ) (m : ManaManager)
    → get from m.pools ≡ none
    → transfer t from to amount m ≡ (err (insufficient_mana amount 0), m)
unfolding transfer spend
spend_refused t from to amount m e = rw (e, spend)

-- The outcome of spending, with the pool written back and some reports.
abbrev Spent : ℕ → ScopeKey → ManaManager → Result (Unit {0}) ManaError → ManaPool → ℕ → Type 0
Spent now key m result q amount =
    (r : Reports) × (spend now key amount m
      ≡ (result, record m { pools = insert key q m.pools; reports = r }))

spend_short :
    (now : ℕ) (key : ScopeKey) (amount : ℕ) (m : ManaManager) (p : ManaPool)
    → get key m.pools ≡ some p
    → Readable p now
    → level p now < amount
    → Spent now key m
        (err (insufficient_mana amount (level p now)))
        (record p { current = level p now; last_updated = now })
        amount
unfolding spend
spend_short now key amount m p e (cap', le, fits) short =
    elim (consume_lem now amount key m.hook p m.reports cap' fits le) [
      | inl (covered, _, _) ↦ absurd (omega arith)
      | inr (_, same, pool) ↦
          ((consume now amount key m.hook p m.reports).2, rw (e, spend) (rw (same, pool) refl))
    ]

spend_covered :
    (now : ℕ) (key : ScopeKey) (amount : ℕ) (m : ManaManager) (p : ManaPool)
    → get key m.pools ≡ some p
    → Readable p now
    → amount ≤ level p now
    → Spent now key m
        (ok tt)
        (record p { current = level p now - amount; last_updated = now })
        amount
unfolding spend
spend_covered now key amount m p e (cap', le, fits) cover =
    elim (consume_lem now amount key m.hook p m.reports cap' fits le) [
      | inl (_, same, pool) ↦
          ((consume now amount key m.hook p m.reports).2, rw (e, spend) (rw (same, pool) refl))
      | inr (short, _, _) ↦ absurd (omega arith)
    ]

-- A transfer that the source cannot cover fails with the amount and the mana that the source has at
-- the time, and every other pool stays as it was; without a source pool nothing changes at all.
pub transfer_refused :
    (t : Readings) (from to : ScopeKey) (amount : ℕ) (m : ManaManager)
    → (get from m.pools ≡ none
        → transfer t from to amount m ≡ (err (insufficient_mana amount 0), m))
      × ((p : ManaPool)
          → get from m.pools ≡ some p
          → Readable p t.spent
          → level p t.spent < amount
          → let (result, m') = transfer t from to amount m in
            (result ≡ err (insufficient_mana amount (level p t.spent)))
            × (get from m'.pools
                ≡ some (record p { current = level p t.spent; last_updated = t.spent }))
            × ((k : ScopeKey) → k ≢ from → get k m'.pools ≡ get k m.pools))
unfolding transfer
transfer_refused t from to amount m = (
  spend_refused t from to amount m,
  λ p e readable short.
      let (r, eq) = spend_short t.spent from amount m p e readable short in
      rw eq (
        refl,
        get-insert_self from _ m.pools,
        λ k ne. get-insert_ne from k _ m.pools (λ x. ne (sym x)),
      ),
)

-- The pool that is there after the destination is made sure of, and after it is credited.
abbrev ready : Readings → ScopeKey → ℕ → ManaManager → ManaPool
ready t to amount m =
    apply_regeneration t.ensured (entry_pool t.created to amount 1 m (get to m.pools)).0

deliver :
    (t : Readings) (to : ScopeKey) (amount : ℕ) (m : ManaManager)
    → let m' = credit_pool t.credited to amount (ensure_pool t.created t.ensured to amount 1 m) in
      ((r : Reports) × (get to m'.pools
          ≡ some (credit t.credited amount to m.hook (ready t to amount m) r).0))
      × ((k : ScopeKey) → k ≢ to → get k m'.pools ≡ get k m.pools)
unfolding credit_pool ensure_pool available
deliver t to amount m =
    let m1 = ensure_pool t.created t.ensured to amount 1 m in
    rw (get-insert_self to (ready t to amount m) m.pools, credit_pool)
      (
        (m1.reports, get-insert_self to _ (insert to (ready t to amount m) m.pools)),
        λ k ne.
            get-insert_ne to k _ (insert to (ready t to amount m) m.pools) (λ x. ne (sym x))
            ∙ get-insert_ne to k _ m.pools (λ x. ne (sym x)),
      )

filled :
    (t : Readings) (to : ScopeKey) (amount : ℕ) (m : ManaManager) (r : Reports)
    → get to m.pools ≡ none
    → t.created ≤ t.ensured
    → t.ensured ≤ t.credited
    → 2 * amount + (t.credited - t.created) < u64_size
    → let q = (credit t.credited amount to m.hook (ready t to amount m) r).0 in
      (q.current ≡ amount) × (q.max ≡ amount)
unfolding credit available apply_regeneration new_pool
filled t to amount m r new le1 le2 small = rw new (ground arith, ground arith)

-- A transfer that the source covers, to a scope that has no pool yet, succeeds: the destination gets
-- a pool that holds exactly the amount and no room for more, the source loses exactly the amount, and
-- every other pool stays as it was. The clock does not run back, and the sums fit a `u64`.
pub transfer_creates :
    (t : Readings) (from to : ScopeKey) (amount : ℕ) (m : ManaManager) (p : ManaPool)
    → from ≢ to
    → get from m.pools ≡ some p
    → get to m.pools ≡ none
    → Readable p t.spent
    → amount ≤ level p t.spent
    → t.created ≤ t.ensured
    → t.ensured ≤ t.credited
    → 2 * amount + (t.credited - t.created) < u64_size
    → let (result, m') = transfer t from to amount m in
      (result ≡ ok tt)
      × (get from m'.pools
          ≡ some (record p { current = level p t.spent - amount; last_updated = t.spent }))
      × ((q : ManaPool) × (get to m'.pools ≡ some q) × (q.current ≡ amount) × (q.max ≡ amount))
      × ((k : ScopeKey) → k ≢ from → k ≢ to → get k m'.pools ≡ get k m.pools)
unfolding transfer
transfer_creates t from to amount m p ne e new readable cover le1 le2 small =
    let (r, eq) = spend_covered t.spent from amount m p e readable cover in
    let p' = record p { current = level p t.spent - amount; last_updated = t.spent } in
    let m1 = record m { pools = insert from p' m.pools; reports = r } in
    let ((r1, there), others) = deliver t to amount m1 in
    let new1 : get to m1.pools ≡ none = get-insert_ne from to p' m.pools ne ∙ new in
    rw eq (
      refl,
      others from ne ∙ get-insert_self from p' m.pools,
      (
        (credit t.credited amount to m.hook (ready t to amount m1) r1).0,
        there,
        (filled t to amount m1 r1 new1 le1 le2 small).0,
        (filled t to amount m1 r1 new1 le1 le2 small).1,
      ),
      λ k nf nt. others k nt ∙ get-insert_ne from k p' m.pools (λ x. nf (sym x)),
    )

added :
    (t : Readings) (to : ScopeKey) (amount : ℕ) (m : ManaManager) (r : Reports) (q : ManaPool)
    → get to m.pools ≡ some q
    → q.last_updated ≤ t.ensured
    → t.ensured ≤ t.credited
    → IsCapped q
    → Fits q t.credited
    → level q t.credited + amount < u64_size
    → (credit t.credited amount to m.hook (ready t to amount m) r).0
      ≡ record q { current = min (level q t.credited + amount) q.max; last_updated = t.credited }
unfolding credit available
added t to amount m r q e le1 le2 cap' fits small = rw e (
    rw (apply_regeneration_twice t.ensured t.credited q cap' le1 le2 fits)
      (rw (apply_regeneration_lem t.credited q cap' fits (omega arith)) (ground arith)))

-- A transfer that the source covers, between two scopes that have pools, succeeds: the source loses
-- exactly the amount, the destination gains it up to its maximum, and every other pool stays as it
-- was. What does not fit the destination is lost: the two gain nothing, and they keep their sum
-- exactly when the destination has room for the amount.
pub transfer_adds :
    (t : Readings) (from to : ScopeKey) (amount : ℕ) (m : ManaManager) (p q : ManaPool)
    → from ≢ to
    → get from m.pools ≡ some p
    → get to m.pools ≡ some q
    → Readable p t.spent
    → Readable q t.credited
    → amount ≤ level p t.spent
    → q.last_updated ≤ t.ensured
    → t.ensured ≤ t.credited
    → level q t.credited + amount < u64_size
    → let (result, m') = transfer t from to amount m in
      let p' = record p { current = level p t.spent - amount; last_updated = t.spent } in
      let q' = record q {
        current = min (level q t.credited + amount) q.max;
        last_updated = t.credited;
      } in
      (result ≡ ok tt)
      × (get from m'.pools ≡ some p')
      × (get to m'.pools ≡ some q')
      × ((k : ScopeKey) → k ≢ from → k ≢ to → get k m'.pools ≡ get k m.pools)
      × (p'.current + q'.current ≤ level p t.spent + level q t.credited)
      × ((p'.current + q'.current ≡ level p t.spent + level q t.credited)
          ↔ (level q t.credited + amount ≤ q.max))
unfolding transfer
transfer_adds t from to amount m p q ne e f readable (cap', _, fits) cover le1 le2 small =
    let (r, eq) = spend_covered t.spent from amount m p e readable cover in
    let p' = record p { current = level p t.spent - amount; last_updated = t.spent } in
    let m1 = record m { pools = insert from p' m.pools; reports = r } in
    let ((r1, there), others) = deliver t to amount m1 in
    let f1 : get to m1.pools ≡ some q = get-insert_ne from to p' m.pools ne ∙ f in
    rw eq (
      refl,
      others from ne ∙ get-insert_self from p' m.pools,
      there ∙ ap some (added t to amount m1 r1 q f1 le1 le2 cap' fits small),
      λ k nf nt. others k nt ∙ get-insert_ne from k p' m.pools (λ x. nf (sym x)),
      omega arith,
      omega arith,
    )
