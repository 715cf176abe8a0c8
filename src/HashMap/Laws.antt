-- ===== src/HashMap/Laws.antt =====
-- Lookup after each update of a map.
use icn_v.Base.{
  ◌≡◌, refl, sym, ◌∙◌, ◌≢◌, [], ◌∷◌, none, some, arith, PartialEq, ◌==◌, if◌then◌else◌, eqb_refl,
}
use icn_v.HashMap.{HashMap, get, get_or, insert, remove}

module _ {ℓ κ} {K : Type ℓ} {V : Type κ} ⦃e : PartialEq K⦄ where
  pub get-insert :
      (k j : K) (v : V) (m : HashMap K V)
      → get j (insert k v m) ≡ (if k == j then some v else get j m)
  unfolding get insert
  get-insert k j v [] = refl
  get-insert k j v ((i, w) ∷ m) =
      ground (arith, e.eqb_iff k j, e.eqb_iff i k, e.eqb_iff i j, get-insert k j v m)

  pub get-remove :
      (k j : K) (m : HashMap K V) → get j (remove k m) ≡ (if k == j then none else get j m)
  unfolding get remove
  get-remove k j [] = ground arith
  get-remove k j ((i, w) ∷ m) =
      ground (arith, e.eqb_iff k j, e.eqb_iff i k, e.eqb_iff i j, get-remove k j m)

  pub get-insert_self : (k : K) (v : V) (m : HashMap K V) → get k (insert k v m) ≡ some v
  get-insert_self k v m = ground (arith, get-insert k k v m, eqb_refl k)

  pub get-insert_ne : (k j : K) (v : V) (m : HashMap K V) → k ≢ j → get j (insert k v m) ≡ get j m
  get-insert_ne k j v m h = ground (arith, get-insert k j v m, e.eqb_iff k j)

  pub get_or-insert :
      (k j : K) (v d : V) (m : HashMap K V)
      → get_or j d (insert k v m) ≡ (if k == j then v else get_or j d m)
  get_or-insert k j v d m = ground (arith, get-insert k j v m)

  pub get_or-insert_self : (k : K) (v d : V) (m : HashMap K V) → get_or k d (insert k v m) ≡ v
  get_or-insert_self k v d m = ground (arith, get-insert_self k v m)

  pub get_or-insert_ne :
      (k j : K) (v d : V) (m : HashMap K V) → k ≢ j → get_or j d (insert k v m) ≡ get_or j d m
  get_or-insert_ne k j v d m h = ground (arith, get-insert_ne k j v m h)

  -- Two insertions, seen at a third key.
  pub get-insert-insert_ne :
      (j k i : K) (v w : V) (m : HashMap K V)
      → i ≢ j
      → i ≢ k
      → get i (insert j v (insert k w m)) ≡ get i m
  get-insert-insert_ne j k i v w m nj nk =
      get-insert_ne j i v (insert k w m) (λ e. nj (sym e)) ∙ get-insert_ne k i w m (λ e. nk (sym e))
