-- ===== src/Mana/Safety.antt =====
-- The invariants of `ManaManager` (icn-economics/src/mana.rs): no pool holds more than its maximum,
-- and the metrics hook knows the balance of every pool.
use icn_v.Base.{
  key_cases, ℕ, ◌≡◌, refl, sym, ◌∙◌, ◌≢◌, inl, inr, true, some, arith, Result, ok, err,
  Option-cases,
}
use icn_v.HashMap.{get, insert}
use icn_v.HashMap.Laws.{get-insert_self, get-insert_ne}
use icn_v.Identity.Scope.{ScopeKey, scope_eq}
use icn_v.Mana.Pool.{
  ManaError, ManaPool, Reports, update_balance, new_pool, available, consume, credit,
}
use icn_v.Mana.Level.{
  IsCapped, IsReported, available-IsCapped, consume-IsCapped, credit-IsCapped, available-Reporting,
  consume-Reporting, credit-Reporting,
}
use icn_v.Mana.Manager.{
  ManaManager, Readings, ensure_pool, balance, spend, credit_pool, transfer, after_spend,
}

-- Every pool is within its maximum, and the newest report of its scope is its balance.
pub record IsValid (m : ManaManager) : Type 0 where
  pub hooked : m.hook ≡ true
  pub capped : (k : ScopeKey) (p : ManaPool) → get k m.pools ≡ some p → IsCapped p
  pub reported : (k : ScopeKey) (p : ManaPool) → get k m.pools ≡ some p → IsReported k p m.reports

-- Writing one pool back, with the reports that go with it.
put_back :
    (m : ManaManager) (key : ScopeKey) (q : ManaPool) (r : Reports)
    → IsValid m
    → IsCapped q
    → IsReported key q r
    → ((other : ScopeKey) → other ≢ key → get other r ≡ get other m.reports)
    → IsValid (record m { pools = insert key q m.pools; reports = r })
put_back m key q r v cap' rep others = record {
  hooked = v.hooked;
  capped = λ k p e. elim (key_cases k key) [
    | inl same ↦ ground (arith, get-insert_self key q m.pools)
    | inr ne ↦ v.capped k p (sym (get-insert_ne key k q m.pools (λ x. ne (sym x))) ∙ e)
  ];
  reported = λ k p e. elim (key_cases k key) [
    | inl same ↦ ground (arith, get-insert_self key q m.pools)
    | inr ne ↦
        others k ne ∙ v.reported k p (sym (get-insert_ne key k q m.pools (λ x. ne (sym x))) ∙ e)
  ];
}

spend-IsValid :
    (now : ℕ) (key : ScopeKey) (amount : ℕ) (m : ManaManager)
    → IsValid m
    → IsValid (spend now key amount m).1
unfolding spend
spend-IsValid now key amount m v = elim (Option-cases (get key m.pools)) [
  | inl e ↦ rw (e, spend) v
  | inr (p, e) ↦
      let c = consume now amount key m.hook p m.reports in
      let (keeps, others) = consume-Reporting now amount key m.hook p m.reports v.hooked in
      rw (e, spend)
        (put_back m key c.1 c.2 v
          (consume-IsCapped now amount key m.hook p m.reports (v.capped key p e))
          (keeps (v.reported key p e)) others)
]

balance-IsValid :
    (now : ℕ) (key : ScopeKey) (m : ManaManager) → IsValid m → IsValid (balance now key m).1
unfolding balance
balance-IsValid now key m v = elim (Option-cases (get key m.pools)) [
  | inl e ↦ rw (e, balance) v
  | inr (p, e) ↦
      let c = available now key m.hook p m.reports in
      let (keeps, others) = available-Reporting now key m.hook p m.reports v.hooked in
      rw (e, balance)
        (put_back m key c.0 c.1 v (available-IsCapped now key m.hook p m.reports (v.capped key p e))
          (keeps (v.reported key p e)) others)
]

credit_pool-IsValid :
    (now : ℕ) (key : ScopeKey) (amount : ℕ) (m : ManaManager)
    → IsValid m
    → IsValid (credit_pool now key amount m)
unfolding credit_pool
credit_pool-IsValid now key amount m v = elim (Option-cases (get key m.pools)) [
  | inl e ↦ rw (e, credit_pool) v
  | inr (p, e) ↦
      let c = credit now amount key m.hook p m.reports in
      let (keeps, others) = credit-Reporting now amount key m.hook p m.reports v.hooked in
      rw (e, credit_pool)
        (put_back m key c.0 c.1 v (credit-IsCapped now amount key m.hook p m.reports)
          (keeps (v.reported key p e)) others)
]

-- A pool that is looked at and then reported once more.
ensured :
    (now : ℕ) (key : ScopeKey) (m : ManaManager) (p : ManaPool) (r : Reports)
    → IsValid m
    → IsCapped p
    → IsReported key p r
    → ((other : ScopeKey) → other ≢ key → get other r ≡ get other m.reports)
    → let (q, r1) = available now key m.hook p r in
      IsValid (record m {
        pools = insert key q m.pools;
        reports = update_balance m.hook key q.current r1;
      })
unfolding get
ensured now key m p r v cap' rep others =
    let c = available now key m.hook p r in
    let (keeps, same) = available-Reporting now key m.hook p r v.hooked in
    put_back m key c.0 (update_balance m.hook key c.0.current c.1) v
      (available-IsCapped now key m.hook p r cap')
      (ground (arith, keeps rep, v.hooked, scope_eq.eqb_iff key key))
      (λ other ne.
        ground (arith, same other ne, others other ne, v.hooked, scope_eq.eqb_iff key other))

ensure_pool-IsValid :
    (created now : ℕ) (key : ScopeKey) (max regen : ℕ) (m : ManaManager)
    → IsValid m
    → IsValid (ensure_pool created now key max regen m)
unfolding ensure_pool new_pool get
ensure_pool-IsValid created now key max regen m v = elim (Option-cases (get key m.pools)) [
  | inl e ↦
      rw (e, ensure_pool)
        (ensured now key m fresh r v (ground arith)
          (ground (arith, v.hooked, scope_eq.eqb_iff key key))
          (λ other ne. ground (arith, v.hooked, scope_eq.eqb_iff key other)))
  | inr (p, e) ↦
      rw (e, ensure_pool)
        (ensured now key m p m.reports v (v.capped key p e) (v.reported key p e) (λ other ne. refl))
]
  where
    fresh : ManaPool
    fresh = new_pool created max regen

    r : Reports
    r = update_balance m.hook key fresh.current m.reports

-- With a metrics hook, every operation of the manager keeps each pool within its maximum and the hook
-- informed of the balance of each pool: looking at a balance, spending, creating a pool, and a
-- transfer, whether it succeeds or fails.
pub transfer-IsValid :
    (m : ManaManager)
    → IsValid m
    → ((now : ℕ) (key : ScopeKey) → IsValid (balance now key m).1)
      × ((now : ℕ) (key : ScopeKey) (amount : ℕ) → IsValid (spend now key amount m).1)
      × ((created now : ℕ) (key : ScopeKey) (max regen : ℕ)
          → IsValid (ensure_pool created now key max regen m))
      × ((t : Readings) (from to : ScopeKey) (amount : ℕ) → IsValid (transfer t from to amount m).1)
unfolding transfer
transfer-IsValid m v = (
  λ now key. balance-IsValid now key m v,
  λ now key amount. spend-IsValid now key amount m v,
  λ created now key max regen. ensure_pool-IsValid created now key max regen m v,
  λ t from to amount.
      moved t to amount (spend t.spent from amount m) (spend-IsValid t.spent from amount m v),
)
  where
    moved :
        (t : Readings) (to : ScopeKey) (amount : ℕ) (o : Result (Unit {0}) ManaError × ManaManager)
        → IsValid o.1
        → IsValid (after_spend t to amount o).1
    moved t to amount (err e, m1) v1 = v1
    moved t to amount (ok u, m1) v1 =
        credit_pool-IsValid t.credited to amount _
          (ensure_pool-IsValid t.created t.ensured to amount 1 m1 v1)
