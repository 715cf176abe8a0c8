-- ===== src/HashMap/Keys.antt =====
-- The keys of a map are distinct, and stay so.
use icn_v.Base.{◌≡◌, refl, [], ◌∷◌, none, some, arith, PartialEq, All, length}
use icn_v.HashMap.{HashMap, get, insert, remove, keys, size}
use icn_v.HashMap.Laws.{get-insert, get-remove}

pub length-keys {ℓ κ} : {K : Type ℓ} {V : Type κ} (m : HashMap K V) → length (keys m) ≡ size m
length-keys [] = refl
length-keys ((k, v) ∷ m) = omega (arith, length-keys m)

module _ {ℓ κ} {K : Type ℓ} {V : Type κ} ⦃e : PartialEq K⦄ where
  abbrev pub KeysDistinct : HashMap K V → Type κ
  KeysDistinct [] = Unit
  KeysDistinct ((k, v) ∷ m) = (get k m ≡ none) × KeysDistinct m

  pub insert-KeysDistinct :
      (k : K) (v : V) (m : HashMap K V) → KeysDistinct m → KeysDistinct (insert k v m)
  unfolding insert get
  insert-KeysDistinct k v [] h = (refl, tt)
  insert-KeysDistinct k v ((i, w) ∷ m) h =
      ground
        (arith, insert-KeysDistinct k v m h.1, get-insert k i v m, e.eqb_iff i k, e.eqb_iff k i)

  pub remove-KeysDistinct : (k : K) (m : HashMap K V) → KeysDistinct m → KeysDistinct (remove k m)
  unfolding remove get
  remove-KeysDistinct k [] h = tt
  remove-KeysDistinct k ((i, w) ∷ m) h =
      ground (arith, remove-KeysDistinct k m h.1, get-remove k i m)

  -- A property of all entries is one of all values that a lookup finds.
  pub get-All {μ} :
      (P : K × V → Type μ) (k : K) {v : V} (m : HashMap K V) → All P m → get k m ≡ some v → P (k, v)
  unfolding get
  get-All P k [] h p = cc
  get-All P k {v} ((i, w) ∷ m) h p = ground (arith, e.eqb_iff i k, get-All P k {v = v} m h.1)
