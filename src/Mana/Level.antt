-- ===== src/Mana/Level.antt =====
-- The level of a pool of icn-economics/src/mana.rs at a time, and what each operation does to it.
use icn_v.Base.{
  ℕ, ◌+◌, ◌-◌, ◌*◌, ◌≤◌, ◌<◌, ◌≡◌, ap, ◌≢◌, Bool, true, some, arith, u64_size, min, ok, err,
  Bool-cases, leb, inl, inr, ◌⊎◌,
}
use icn_v.HashMap.{get}
use icn_v.Identity.Scope.{ScopeKey, scope_eq}
use icn_v.Mana.Pool.{
  insufficient_mana, ManaPool, Reports, apply_regeneration, available, consume, credit,
}

-- A pool never holds more than its maximum.
abbrev pub IsCapped : ManaPool → Type 0
IsCapped p = p.current ≤ p.max

-- The mana of a pool at a time that its clock has reached, in unbounded numbers.
abbrev pub level : ManaPool → ℕ → ℕ
level p now = min (p.current + (now - p.last_updated) * p.regen_per_sec) p.max

-- Regenerating up to a time does not leave `u64`.
abbrev pub Fits : ManaPool → ℕ → Type 0
Fits p now = p.current + (now - p.last_updated) * p.regen_per_sec < u64_size

pub apply_regeneration-IsCapped :
    (now : ℕ) (p : ManaPool) → IsCapped p → IsCapped (apply_regeneration now p)
unfolding apply_regeneration
apply_regeneration-IsCapped now p h = ground arith

pub apply_regeneration_lem :
    (now : ℕ) (p : ManaPool)
    → IsCapped p
    → Fits p now
    → p.last_updated ≤ now
    → apply_regeneration now p ≡ record p { current = level p now; last_updated = now }
unfolding apply_regeneration
apply_regeneration_lem now p h fits le = ground arith

elapsed_split : (t0 t1 t2 r : ℕ) → t0 ≤ t1 → t1 ≤ t2 → (t1 - t0) * r + (t2 - t1) * r ≡ (t2 - t0) * r
elapsed_split t0 t1 t2 r le1 le2 =
    let e : (t1 - t0) + (t2 - t1) ≡ t2 - t0 = omega arith in omega (arith, ap (λ (t : ℕ). t * r) e)

-- Regeneration does not depend on how often a capped pool is looked at: regenerating at one time and
-- then at a later one gives the pool that regenerating once, at the later time, gives.
pub apply_regeneration_twice :
    (t1 t2 : ℕ) (p : ManaPool)
    → IsCapped p
    → p.last_updated ≤ t1
    → t1 ≤ t2
    → Fits p t2
    → apply_regeneration t2 (apply_regeneration t1 p) ≡ apply_regeneration t2 p
apply_regeneration_twice t1 t2 p h le1 le2 fits =
    rw (apply_regeneration_lem t1 p h (omega (arith, split)) le1) (
      rw
        (apply_regeneration_lem t2 (record p { current = level p t1; last_updated = t1 })
          (omega arith) (omega (arith, split)) le2)
        (rw (apply_regeneration_lem t2 p h fits (omega arith)) (ground (arith, split))))
  where
    split :
        (t1 - p.last_updated) * p.regen_per_sec + (t2 - t1) * p.regen_per_sec
        ≡ (t2 - p.last_updated) * p.regen_per_sec
    split = elapsed_split p.last_updated t1 t2 p.regen_per_sec le1 le2

-- Consuming succeeds exactly when the level of a capped pool covers the amount, and then takes the
-- amount off the level; otherwise it fails with the amount and the level, and the pool is only
-- regenerated.
pub consume_lem :
    (now amount : ℕ) (scope : ScopeKey) (hook : Bool) (p : ManaPool) (r : Reports)
    → IsCapped p
    → Fits p now
    → p.last_updated ≤ now
    → let (result, q, _) = consume now amount scope hook p r in
      ((amount ≤ level p now)
        × (result ≡ ok tt)
        × (q ≡ record p { current = level p now - amount; last_updated = now }))
      ⊎ ((level p now < amount)
          × (result ≡ err (insufficient_mana amount (level p now)))
          × (q ≡ record p { current = level p now; last_updated = now }))
unfolding consume available
consume_lem now amount scope hook p r h fits le =
    rw (apply_regeneration_lem now p h fits le) (elim (Bool-cases (leb amount (level p now))) [
      | inl e ↦ inl (ground arith, ground arith, ground arith)
      | inr e ↦ inr (ground arith, ground arith, ground arith)
    ])

-- Crediting adds the amount to the level of a capped pool, up to its maximum, as long as the sum fits
-- a `u64`.
pub credit_lem :
    (now amount : ℕ) (scope : ScopeKey) (hook : Bool) (p : ManaPool) (r : Reports)
    → IsCapped p
    → Fits p now
    → p.last_updated ≤ now
    → level p now + amount < u64_size
    → (credit now amount scope hook p r).0
      ≡ record p { current = min (level p now + amount) p.max; last_updated = now }
unfolding credit available
credit_lem now amount scope hook p r h fits le small =
    rw (apply_regeneration_lem now p h fits le) (ground arith)

pub available-IsCapped :
    (now : ℕ) (scope : ScopeKey) (hook : Bool) (p : ManaPool) (r : Reports)
    → IsCapped p
    → IsCapped (available now scope hook p r).0
unfolding available
available-IsCapped now scope hook p r h = apply_regeneration-IsCapped now p h

pub consume-IsCapped :
    (now amount : ℕ) (scope : ScopeKey) (hook : Bool) (p : ManaPool) (r : Reports)
    → IsCapped p
    → IsCapped (consume now amount scope hook p r).1
unfolding consume available
consume-IsCapped now amount scope hook p r h = ground (arith, apply_regeneration-IsCapped now p h)

pub credit-IsCapped :
    (now amount : ℕ) (scope : ScopeKey) (hook : Bool) (p : ManaPool) (r : Reports)
    → IsCapped (credit now amount scope hook p r).0
unfolding credit
credit-IsCapped now amount scope hook p r = ground arith

-- With a hook, the newest report of a scope is the balance of its pool.
abbrev pub IsReported : ScopeKey → ManaPool → Reports → Type 0
IsReported scope p r = get scope r ≡ some p.current

-- Each operation keeps the newest report of its scope right, and reports nothing of another scope.
abbrev pub Reporting : ScopeKey → ManaPool → Reports → ManaPool → Reports → Type 0
Reporting scope p r q r' =
    (IsReported scope p r → IsReported scope q r')
    × ((other : ScopeKey) → other ≢ scope → get other r' ≡ get other r)

pub available-Reporting :
    (now : ℕ) (scope : ScopeKey) (hook : Bool) (p : ManaPool) (r : Reports)
    → hook ≡ true
    → let (q, r') = available now scope hook p r in Reporting scope p r q r'
unfolding available get
available-Reporting now scope hook p r on = (
  ground (arith, scope_eq.eqb_iff scope scope),
  λ other ne. ground (arith, scope_eq.eqb_iff scope other),
)

pub consume-Reporting :
    (now amount : ℕ) (scope : ScopeKey) (hook : Bool) (p : ManaPool) (r : Reports)
    → hook ≡ true
    → let (_, q, r') = consume now amount scope hook p r in Reporting scope p r q r'
unfolding consume get
consume-Reporting now amount scope hook p r on =
    let (keeps, others) = available-Reporting now scope hook p r on in
    (
      λ h. ground (arith, keeps h, scope_eq.eqb_iff scope scope),
      λ other ne. ground (arith, others other ne, scope_eq.eqb_iff scope other),
    )

pub credit-Reporting :
    (now amount : ℕ) (scope : ScopeKey) (hook : Bool) (p : ManaPool) (r : Reports)
    → hook ≡ true
    → let (q, r') = credit now amount scope hook p r in Reporting scope p r q r'
unfolding credit get
credit-Reporting now amount scope hook p r on =
    let (keeps, others) = available-Reporting now scope hook p r on in
    (
      λ h. ground (arith, keeps h, scope_eq.eqb_iff scope scope),
      λ other ne. ground (arith, others other ne, scope_eq.eqb_iff scope other),
    )
