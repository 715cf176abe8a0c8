-- ===== src/Identity/Weights.antt =====
-- The weights that `QuorumProof::verify` (icn-identity/src/quorum.rs) adds up.
use icn_v.Base.{
  ℕ, ◌+◌, ◌≤◌, String, ◌≡◌, refl, Bool, false, List, [], ◌∷◌, Option, none, some, arith, wrap16,
  Result, ok, err, string_eq, eq_iff, sum_by,
}
use icn_v.HashMap.{HashMap, get, get_or, remove, values}
use icn_v.HashMap.Laws.{get-remove}
use icn_v.HashMap.Keys.{KeysDistinct, remove-KeysDistinct}
use icn_v.Identity.Quorum.{
  QuorumError, signer_not_in_weight_map, member, has_signer, sum16_from, total_of, valid_signatures,
  valid_weight,
}
use icn_v.Identity.Signers.{Distinct}

abbrev pub weight_of : HashMap String ℕ → String → ℕ
weight_of weights d = get_or d 0 weights

-- The sum of all weights, in unbounded numbers.
abbrev pub sum_of : HashMap String ℕ → ℕ
sum_of weights = sum_by (λ e. e.1) weights

sum16_from_lem :
    (acc : ℕ) (weights : HashMap String ℕ)
    → wrap16 acc ≡ acc
    → sum16_from acc (values weights) ≡ wrap16 (acc + sum_of weights)
sum16_from_lem acc [] h = omega arith
sum16_from_lem acc ((d, w) ∷ m) h = omega (arith, sum16_from_lem (wrap16 (acc + w)) m (omega arith))

pub total_of_lem : (weights : HashMap String ℕ) → total_of weights ≡ wrap16 (sum_of weights)
total_of_lem weights = omega (arith, sum16_from_lem 0 weights refl)

-- The first signer that the weights do not name.
abbrev pub first_missing : HashMap String ℕ → List String → Option String
first_missing weights [] = none
first_missing weights (d ∷ ds) = elim (get d weights) [
  | none ↦ some d
  | some w ↦ first_missing weights ds
]

abbrev pub weighed : HashMap String ℕ → ℕ → List String → Option String → Result ℕ QuorumError
weighed weights acc ds none = ok (wrap16 (acc + sum_by (weight_of weights) ds))
weighed weights acc ds (some d) = err (signer_not_in_weight_map d)

pub valid_weight_lem :
    (weights : HashMap String ℕ) (acc : ℕ) (ds : List String)
    → wrap16 acc ≡ acc
    → valid_weight weights acc ds ≡ weighed weights acc ds (first_missing weights ds)
unfolding valid_weight
valid_weight_lem weights acc [] h = ground arith
valid_weight_lem weights acc (d ∷ ds) h =
    ground (arith, valid_weight_lem weights (wrap16 (acc + weight_of weights d)) ds (omega arith))

-- No signer stands twice in a list of names.
abbrev pub Apart : List String → Type 0
Apart [] = Unit
Apart (d ∷ ds) = (member d ds ≡ false) × Apart ds

sum_of-remove :
    (d : String) (weights : HashMap String ℕ)
    → KeysDistinct weights
    → sum_of weights ≡ weight_of weights d + sum_of (remove d weights)
unfolding get remove
sum_of-remove d [] h = refl
sum_of-remove d ((k, w) ∷ m) h = ground (arith, sum_of-remove d m h.1, eq_iff k d)

weight_of-remove :
    (d : String) (weights : HashMap String ℕ) (ds : List String)
    → member d ds ≡ false
    → sum_by (weight_of weights) ds ≡ sum_by (weight_of (remove d weights)) ds
weight_of-remove d weights [] h = refl
weight_of-remove d weights (x ∷ xs) h =
    ground (arith, weight_of-remove d weights xs, get-remove d x weights, eq_iff d x, eq_iff x d)

-- Signers that are apart weigh together no more than all the weights.
sum_by-le :
    (ds : List String) (weights : HashMap String ℕ)
    → Apart ds
    → KeysDistinct weights
    → sum_by (weight_of weights) ds ≤ sum_of weights
sum_by-le [] weights h keys = omega arith
sum_by-le (d ∷ ds) weights h keys = omega (
  arith,
  sum_by-le ds (remove d weights) h.1 (remove-KeysDistinct d weights keys),
  sum_of-remove d weights keys,
  weight_of-remove d weights ds h.0,
)

module _ {Key Sig : Type 0} (check : Key → List ℕ → Sig → Bool) (message : List ℕ) where
  member-valid :
      (d : String) (sigs : List (String × Sig)) (allowed : HashMap String Key)
      → has_signer d sigs ≡ false
      → member d (valid_signatures check message allowed sigs) ≡ false
  unfolding valid_signatures
  member-valid d [] allowed h = refl
  member-valid d ((x, sig) ∷ sigs) allowed h = ground (arith, member-valid d sigs allowed)

  pub valid-Apart :
      (sigs : List (String × Sig)) (allowed : HashMap String Key)
      → Distinct sigs
      → Apart (valid_signatures check message allowed sigs)
  unfolding valid_signatures
  valid-Apart [] allowed h = tt
  valid-Apart ((d, sig) ∷ sigs) allowed h =
      ground (arith, valid-Apart sigs allowed h.1, member-valid d sigs allowed h.0)

  pub valid-le :
      (sigs : List (String × Sig)) (allowed : HashMap String Key) (weights : HashMap String ℕ)
      → Distinct sigs
      → KeysDistinct weights
      → sum_by (weight_of weights) (valid_signatures check message allowed sigs) ≤ sum_of weights
  valid-le sigs allowed weights h keys =
      sum_by-le (valid_signatures check message allowed sigs) weights (valid-Apart sigs allowed h)
        keys
