-- ===== src/Resources/InMemory.antt =====
-- `InMemoryResourceRepository` of icn-economics/src/lib.rs, and what a record adds to it.
use icn_v.Base.{
  ℕ, ◌+◌, ◌≤◌, String, ◌≡◌, refl, sym, ◌↔◌, ◌≢◌, Bool, true, ◌&&◌, List, [], ◌∷◌, ◌++◌, none, some,
  arith, PartialEq, string_eq, leb, wrap64, filterb, sum_by, sum_by-append, sum64_by, sum64_by_lem,
  Result, ok, err, prefixed,
}
use icn_v.HashMap.{HashMap, get, get_or, insert}
use icn_v.HashMap.Laws.{get-insert_self, get-insert_ne}
use icn_v.Resources.Types.{ScopedResourceToken, Clock}
use icn_v.Resources.Repository.{ResourceRepository}

-- (did, resource_type, scope)
pub record UsageKey : Type 0 where
  pub did : String
  pub resource_type : String
  pub scope : String

unfoldable pub usage_key_eqb : UsageKey → UsageKey → Bool
usage_key_eqb a b =
    string_eq.eqb a.did b.did
    && (string_eq.eqb a.resource_type b.resource_type && string_eq.eqb a.scope b.scope)

pub usage_key_eqb_iff : (a b : UsageKey) → (usage_key_eqb a b ≡ true) ↔ (a ≡ b)
unfolding usage_key_eqb
usage_key_eqb_iff a b = ground (
  arith,
  string_eq.eqb_iff a.did b.did,
  string_eq.eqb_iff a.resource_type b.resource_type,
  string_eq.eqb_iff a.scope b.scope,
)

instance unfoldable pub usage_key_eq : PartialEq UsageKey
unfolding usage_key_eqb
usage_key_eq = record { eqb = usage_key_eqb; eqb_iff = usage_key_eqb_iff }

-- (timestamp, amount), oldest first
abbrev pub UsageData : Type 0
UsageData = List (ℕ × ℕ)

abbrev pub UsageMap : Type 0
UsageMap = HashMap UsageKey UsageData

abbrev pub key_of : String → String → String → UsageKey
key_of did rt scope = record { did = did; resource_type = rt; scope = scope }

unfoldable pub record_usage :
    Clock → String → ScopedResourceToken → UsageMap → Result (Unit {0}) String × UsageMap
record_usage (err e) did t u = (err (prefixed "Error getting current time: " e), u)
record_usage (ok now) did t u =
    let key = key_of did t.resource_type t.scope in
    (ok tt, insert key (get_or key [] u ++ (now, t.amount) ∷ []) u)

unfoldable pub get_usage : String → String → String → UsageMap → Result ℕ String
get_usage did rt scope u =
    let total : ℕ = elim (get (key_of did rt scope) u) [
      | none ↦ 0
      | some rs ↦ sum64_by (λ r. r.1) rs
    ] in
    ok total

unfoldable pub get_usage_history : String → String → String → ℕ → UsageMap → Result UsageData String
get_usage_history did rt scope since u =
    let rs : UsageData = elim (get (key_of did rt scope) u) [
      | none ↦ []
      | some rs ↦ filterb (λ r. leb since r.0) rs
    ] in
    ok rs

-- `impl ResourceRepository for InMemoryResourceRepository`
unfoldable pub in_memory : ResourceRepository UsageMap
in_memory = record {
  record_usage = record_usage;
  get_usage = get_usage;
  get_usage_history = get_usage_history;
}

-- The recorded usage of a key, as an unbounded sum, and the part of it recorded since a time.
abbrev pub used : UsageKey → UsageMap → ℕ
used k u = sum_by (λ r. r.1) (get_or k [] u)

abbrev pub used_since : UsageKey → ℕ → UsageMap → ℕ
used_since k since u = sum_by (λ r. r.1) (filterb (λ r. leb since r.0) (get_or k [] u))

pub get_usage_lem :
    (did rt scope : String) (u : UsageMap)
    → get_usage did rt scope u ≡ ok (wrap64 (used (key_of did rt scope) u))
unfolding get_usage
get_usage_lem did rt scope u =
    ground (arith, sum64_by_lem (λ (r : ℕ × ℕ). r.1) (get_or (key_of did rt scope) [] u))

pub get_usage_history_lem :
    (did rt scope : String) (since : ℕ) (u : UsageMap)
    → get_usage_history did rt scope since u
      ≡ ok (filterb (λ r. leb since r.0) (get_or (key_of did rt scope) [] u))
unfolding get_usage_history
get_usage_history_lem did rt scope since u = ground arith

filterb-append :
    (since : ℕ) (xs ys : UsageData)
    → filterb (λ r. leb since r.0) (xs ++ ys)
      ≡ filterb (λ r. leb since r.0) xs ++ filterb (λ r. leb since r.0) ys
filterb-append since [] ys = refl
filterb-append since (x ∷ xs) ys = ground (arith, filterb-append since xs ys)

-- Recording a token when the clock can be read succeeds and adds its amount to the usage of its own
-- key, to the usage since any time that the clock has reached, and to nothing else; when the clock
-- cannot be read it fails and changes nothing.
pub used-record_usage :
    (now : ℕ) (did : String) (t : ScopedResourceToken) (u : UsageMap)
    → let (r, u') = record_usage (ok now) did t u in
      let key = key_of did t.resource_type t.scope in
      (r ≡ ok tt)
      × (used key u' ≡ used key u + t.amount)
      × ((since : ℕ) → since ≤ now → used_since key since u' ≡ used_since key since u + t.amount)
      × ((other : UsageKey) → other ≢ key → get other u' ≡ get other u)
      × ((e : String)
          → record_usage (err e) did t u ≡ (err (prefixed "Error getting current time: " e), u))
unfolding record_usage
used-record_usage now did t u =
    let key = key_of did t.resource_type t.scope in
    let rs = get_or key [] u in
    (
      refl,
      ground (
        arith,
        get-insert_self key (rs ++ (now, t.amount) ∷ []) u,
        sum_by-append (λ (r : ℕ × ℕ). r.1) rs ((now, t.amount) ∷ []),
      ),
      λ since le. ground (
        arith,
        get-insert_self key (rs ++ (now, t.amount) ∷ []) u,
        filterb-append since rs ((now, t.amount) ∷ []),
        sum_by-append (λ (r : ℕ × ℕ). r.1) (filterb (λ r. leb since r.0) rs) ((now, t.amount) ∷ []),
      ),
      λ other ne. get-insert_ne key other (rs ++ (now, t.amount) ∷ []) u (λ e. ne (sym e)),
      λ e. refl,
    )
