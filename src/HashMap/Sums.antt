-- ===== src/HashMap/Sums.antt =====
-- A sum over the entries of a map, under each update.
use icn_v.Base.{ℕ, ◌+◌, ◌≡◌, [], ◌∷◌, Option, none, some, arith, PartialEq, sum_by}
use icn_v.HashMap.{HashMap, get, insert}

-- The weight of the entry at `k`, if there is one.
abbrev pub weight_at {ℓ κ} : {K : Type ℓ} {V : Type κ} → (K × V → ℕ) → K → Option V → ℕ
weight_at f k none = 0
weight_at f k (some v) = f (k, v)

module _ {ℓ κ} {K : Type ℓ} {V : Type κ} ⦃e : PartialEq K⦄ where
  -- An insertion exchanges the weight of the old entry for that of the new one.
  pub sum_by-insert :
      (f : K × V → ℕ) (k : K) (v : V) (m : HashMap K V)
      → sum_by f (insert k v m) + weight_at f k (get k m) ≡ sum_by f m + f (k, v)
  unfolding insert get
  sum_by-insert f k v [] = omega arith
  sum_by-insert f k v ((i, w) ∷ m) = ground (arith, e.eqb_iff i k, sum_by-insert f k v m)
