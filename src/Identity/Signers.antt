-- ===== src/Identity/Signers.antt =====
-- The signatures that `QuorumProof::verify` (icn-identity/src/quorum.rs) counts are the allowed
-- signers that have signed.
use icn_v.Base.{
  ℕ, ◌+◌, String, ◌≡◌, refl, ◌↔◌, Bool, true, false, ◌&&◌, ◌||◌, List, [], ◌∷◌, none, arith,
  if◌then◌else◌, ◌==◌, string_eq, eq_iff, length,
}
use icn_v.HashMap.{HashMap, get}
use icn_v.HashMap.Keys.{KeysDistinct}
use icn_v.Identity.Quorum.{member, has_signer, all_new, counts, valid_signatures}

abbrev pub count {ℓ} : {A : Type ℓ} → (A → Bool) → List A → ℕ
count p [] = 0
count p (x ∷ xs) = (if p x then 1 else 0) + count p xs

module _ {Sig : Type 0} where
  -- No signer stands twice.
  abbrev pub Distinct : List (String × Sig) → Type 0
  Distinct [] = Unit
  Distinct ((d, _) ∷ sigs) = (has_signer d sigs ≡ false) × Distinct sigs

  -- No signer is among those seen.
  abbrev Fresh : List String → List (String × Sig) → Type 0
  Fresh seen [] = Unit
  Fresh seen ((d, _) ∷ sigs) = (member d seen ≡ false) × Fresh seen sigs

  Fresh-cons :
      (x : String) (seen : List String) (sigs : List (String × Sig))
      → Fresh (x ∷ seen) sigs ↔ (has_signer x sigs ≡ false) × Fresh seen sigs
  Fresh-cons x seen [] = ground arith
  Fresh-cons x seen ((d, _) ∷ sigs) = ground (arith, Fresh-cons x seen sigs, eq_iff d x, eq_iff x d)

  all_new-Fresh :
      (seen : List String) (sigs : List (String × Sig))
      → (all_new seen sigs ≡ true) ↔ Fresh seen sigs × Distinct sigs
  unfolding all_new
  all_new-Fresh seen [] = ground arith
  all_new-Fresh seen ((d, _) ∷ sigs) =
      ground (arith, all_new-Fresh (d ∷ seen) sigs, Fresh-cons d seen sigs)

  Fresh-nil : (sigs : List (String × Sig)) → Fresh [] sigs
  Fresh-nil [] = tt
  Fresh-nil ((d, _) ∷ sigs) = (refl, Fresh-nil sigs)

  pub all_new-Distinct : (sigs : List (String × Sig)) → (all_new [] sigs ≡ true) ↔ Distinct sigs
  all_new-Distinct sigs = ground (arith, all_new-Fresh [] sigs, Fresh-nil sigs)

module _ {Key Sig : Type 0} (check : Key → List ℕ → Sig → Bool) (message : List ℕ) where
  -- Whether an allowed signer has a signature that checks under its key.
  abbrev pub signed : List (String × Sig) → String × Key → Bool
  signed [] (k, pk) = false
  signed ((d, sig) ∷ sigs) (k, pk) = (d == k && check pk message sig) || signed sigs (k, pk)

  unsigned :
      (k : String) (pk : Key) (sigs : List (String × Sig))
      → has_signer k sigs ≡ false
      → signed sigs (k, pk) ≡ false
  unsigned k pk [] h = refl
  unsigned k pk ((d, sig) ∷ sigs) h = ground (arith, unsigned k pk sigs)

  count-absent :
      (d : String) (sig : Sig) (sigs : List (String × Sig)) (allowed : HashMap String Key)
      → get d allowed ≡ none
      → count (signed ((d, sig) ∷ sigs)) allowed ≡ count (signed sigs) allowed
  unfolding get
  count-absent d sig sigs [] h = refl
  count-absent d sig sigs ((k, pk) ∷ m) h =
      ground (arith, count-absent d sig sigs m, eq_iff d k, eq_iff k d)

  count-signed :
      (d : String) (sig : Sig) (sigs : List (String × Sig)) (allowed : HashMap String Key)
      → has_signer d sigs ≡ false
      → KeysDistinct allowed
      → count (signed ((d, sig) ∷ sigs)) allowed
        ≡ (if counts check message allowed (d, sig) then 1 else 0) + count (signed sigs) allowed
  unfolding get
  count-signed d sig sigs [] new h = refl
  count-signed d sig sigs ((k, pk) ∷ m) new h = ground (
    arith,
    count-absent d sig sigs m,
    count-signed d sig sigs m new h.1,
    unsigned k pk sigs,
    eq_iff d k,
    eq_iff k d,
  )

  nobody : (allowed : HashMap String Key) → count (signed []) allowed ≡ 0
  nobody [] = refl
  nobody ((k, pk) ∷ m) = omega (arith, nobody m)

  pub length-valid_signatures :
      (sigs : List (String × Sig)) (allowed : HashMap String Key)
      → Distinct sigs
      → KeysDistinct allowed
      → length (valid_signatures check message allowed sigs) ≡ count (signed sigs) allowed
  unfolding valid_signatures
  length-valid_signatures [] allowed h keys = omega (arith, nobody allowed)
  length-valid_signatures ((d, sig) ∷ sigs) allowed h keys = ground (
    arith,
    length-valid_signatures sigs allowed h.1 keys,
    count-signed d sig sigs allowed h.0 keys,
  )
