-- ===== src/Identity/Verify.antt =====
-- What `QuorumProof::verify` (icn-identity/src/quorum.rs) accepts.
use icn_v.Base.{
  ℕ, ◌*◌, ◌≤◌, ◌<◌, String, ◌≡◌, refl, ◌↔◌, ◌⊎◌, inl, inr, Bool, List, [], ◌∷◌, none, some, arith,
  ok, err, length, sum_by, u16_size, wrap16, string_eq, Bool-cases, Option-cases, ltb,
}
use icn_v.HashMap.{HashMap, size}
use icn_v.HashMap.Keys.{KeysDistinct}
use icn_v.Identity.Quorum.{
  QuorumType, majority, threshold, weighted, QuorumError, insufficient_signers, duplicate_signer,
  threshold_too_high, signer_not_in_weight_map, QuorumProof, new_proof, all_new, valid_signatures,
  quorum_met, verify,
}
use icn_v.Identity.Signers.{count, Distinct, all_new-Distinct, signed, length-valid_signatures}
use icn_v.Identity.Weights.{
  weight_of, sum_of, total_of_lem, first_missing, valid_weight_lem, valid-le,
}

count-le {ℓ} : {A : Type ℓ} (p : A → Bool) (xs : List A) → count p xs ≤ length xs
count-le p [] = omega arith
count-le p (x ∷ xs) = ground (arith, count-le p xs)

-- Why a quorum is not met by some counted signers, of so many that are allowed.
abbrev pub Unmet : QuorumType → List String → ℕ → QuorumError → Type 0
Unmet qt valid allowed e =
    (e ≡ insufficient_signers)
    ⊎ ((n : ℕ) × (qt ≡ threshold n) × (allowed < n) × (e ≡ threshold_too_high n allowed))
    ⊎ ((weights : HashMap String ℕ) × (d : String) × (qt ≡ weighted weights)
        × (first_missing weights valid ≡ some d)
        × (e ≡ signer_not_in_weight_map d))

quorum_met-Unmet :
    (qt : QuorumType) (valid : List String) (allowed : ℕ) (e : QuorumError)
    → quorum_met qt valid allowed ≡ err e
    → Unmet qt valid allowed e
unfolding quorum_met
quorum_met-Unmet majority valid allowed e h = inl (ground arith)
quorum_met-Unmet (threshold n) valid allowed e h = elim (Bool-cases (ltb allowed n)) [
  | inl high ↦ inr (inl (n, refl, ground arith, ground arith))
  | inr low ↦ inl (ground arith)
]
quorum_met-Unmet (weighted weights) valid allowed e h =
    let lem = valid_weight_lem weights 0 valid refl in
    elim (Option-cases (first_missing weights valid)) [
      | inl f ↦ inl (ground (arith, lem))
      | inr (d, f) ↦ inr (inr (weights, d, refl, f, ground (arith, lem)))
    ]

module _ {Key Sig : Type 0} (check : Key → List ℕ → Sig → Bool) (message : List ℕ) where
  -- How many allowed signers have signed.
  abbrev pub signers : HashMap String Key → List (String × Sig) → ℕ
  signers allowed sigs = count (signed check message sigs) allowed

  -- Over allowed signers with distinct names, a majority quorum is accepted exactly when no signer
  -- stands twice and more than half of the allowed signers have a signature that checks, and a
  -- threshold quorum exactly when no signer stands twice and at least the threshold of them have.
  -- Signatures of others, and signatures that do not check, make no difference.
  pub verify-signers :
      (allowed : HashMap String Key) (sigs : List (String × Sig))
      → KeysDistinct allowed
      → ((verify check message allowed (new_proof majority sigs) ≡ ok tt)
          ↔ Distinct sigs × (size allowed < signers allowed sigs * 2))
        × ((n : ℕ)
            → (verify check message allowed (new_proof (threshold n) sigs) ≡ ok tt)
              ↔ Distinct sigs × (n ≤ signers allowed sigs))
  unfolding verify quorum_met
  verify-signers allowed sigs keys =
      let distinct = all_new-Distinct sigs in
      let number = length-valid_signatures check message sigs allowed in
      let most = count-le (signed check message sigs) allowed in
      (ground (arith, distinct, number, keys), λ n. ground (arith, distinct, number, keys, most))

  abbrev pub valid_of : HashMap String Key → List (String × Sig) → List String
  valid_of allowed sigs = valid_signatures check message allowed sigs

  -- A weighted quorum whose weights have distinct names and add up to less than half of a `u16` is
  -- accepted exactly when no signer stands twice, every counted signer has a weight, and the counted
  -- signers hold more than half of all the weight.
  pub verify-weighted :
      (allowed : HashMap String Key) (sigs : List (String × Sig)) (weights : HashMap String ℕ)
      → KeysDistinct weights
      → sum_of weights * 2 < u16_size
      → (verify check message allowed (new_proof (weighted weights) sigs) ≡ ok tt)
        ↔ Distinct sigs
          × (first_missing weights (valid_of allowed sigs) ≡ none)
          × (sum_of weights < sum_by (weight_of weights) (valid_of allowed sigs) * 2)
  unfolding verify quorum_met
  verify-weighted allowed sigs weights keys small =
      let le = λ (d : Distinct sigs). valid-le check message sigs allowed weights d keys in
      ground (
        arith,
        all_new-Distinct sigs,
        valid_weight_lem weights 0 (valid_of allowed sigs) refl,
        total_of_lem weights,
        le,
      )

  -- Weights that add up to a multiple of the size of a `u16` have the total weight 0, so that a
  -- weighted quorum is accepted from counted signers of any weight above 0 and below half of a `u16`.
  pub verify_wraps :
      (allowed : HashMap String Key) (sigs : List (String × Sig)) (weights : HashMap String ℕ)
      → Distinct sigs
      → wrap16 (sum_of weights) ≡ 0
      → first_missing weights (valid_of allowed sigs) ≡ none
      → 0 < sum_by (weight_of weights) (valid_of allowed sigs)
      → sum_by (weight_of weights) (valid_of allowed sigs) * 2 < u16_size
      → verify check message allowed (new_proof (weighted weights) sigs) ≡ ok tt
  unfolding verify quorum_met
  verify_wraps allowed sigs weights distinct zero_total named some_weight small = ground (
    arith,
    (all_new-Distinct sigs).1 distinct,
    valid_weight_lem weights 0 (valid_of allowed sigs) refl,
    total_of_lem weights,
  )

  -- Every refusal of `verify`: a signer that stands twice, before anything else; then, of the kinds
  -- of quorum, a threshold above the number of allowed signers, a counted signer without a weight
  -- (the first one is named), and otherwise too few signers. No other error is ever returned.
  pub verify_refuses :
      (allowed : HashMap String Key) (p : QuorumProof Sig) (e : QuorumError)
      → verify check message allowed p ≡ err e
      → ((e ≡ duplicate_signer) × (Distinct p.signatures → ⊥))
        ⊎ (Distinct p.signatures
            × Unmet p.quorum_type (valid_of allowed p.signatures) (size allowed) e)
  unfolding verify
  verify_refuses allowed p e refused = elim (Bool-cases (all_new [] p.signatures)) [
    | inl new ↦ inr (
      (all_new-Distinct p.signatures).0 new,
      quorum_met-Unmet p.quorum_type (valid_of allowed p.signatures) (size allowed) e
          (ground arith),
    )
    | inr twice ↦ inl (ground arith, ground (arith, all_new-Distinct p.signatures))
  ]
