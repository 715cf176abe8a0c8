-- ===== src/HashMap.antt =====
-- `std::collections::HashMap` as an association list: a key is written in place where it stands,
-- and is added at the end where it is new. The order of iteration, which the standard library
-- leaves open, is the order of the list.
pub mod Laws
pub mod Keys
pub mod Sums
use icn_v.Base.{
  ℕ, Bool, true, false, List, [], ◌∷◌, map, Option, none, some, PartialEq, ◌==◌, if◌then◌else◌,
  length,
}

abbrev pub HashMap {ℓ κ} : Type ℓ → Type κ → Type (ℓ ⊔ κ)
HashMap K V = List (K × V)

module _ {ℓ κ} {K : Type ℓ} {V : Type κ} where
  -- `keys()`, `values()` and `len()`
  abbrev pub keys : HashMap K V → List K
  keys = map λ e. e.0

  abbrev pub values : HashMap K V → List V
  values = map λ e. e.1

  abbrev pub size : HashMap K V → ℕ
  size = length

module _ {ℓ κ} {K : Type ℓ} {V : Type κ} ⦃e : PartialEq K⦄ where
  unfoldable pub get : K → HashMap K V → Option V
  get k [] = none
  get k ((j, v) ∷ m) = if j == k then some v else get k m

  -- `get(k).unwrap_or(d)`
  abbrev pub get_or : K → V → HashMap K V → V
  get_or k d m = elim (get k m) [ none ↦ d | some v ↦ v ]

  abbrev pub contains_key : K → HashMap K V → Bool
  contains_key k m = elim (get k m) [ none ↦ false | some _ ↦ true ]

  unfoldable pub insert : K → V → HashMap K V → HashMap K V
  insert k v [] = (k, v) ∷ []
  insert k v ((j, w) ∷ m) = if j == k then (j, v) ∷ m else (j, w) ∷ insert k v m

  unfoldable pub remove : K → HashMap K V → HashMap K V
  remove k [] = []
  remove k ((j, w) ∷ m) = if j == k then remove k m else (j, w) ∷ remove k m
