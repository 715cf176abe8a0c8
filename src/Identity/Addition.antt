-- ===== src/Identity/Addition.antt =====
-- `QuorumProof::add_signature` and `verify` together (icn-identity/src/quorum.rs).
use icn_v.Base.{
  ℕ, ◌≤◌, String, ◌≡◌, refl, ◌⊎◌, inl, inr, Bool, true, false, List, [], ◌∷◌, ◌++◌, arith, ok, err,
  string_eq, eq_iff, Bool-cases,
}
use icn_v.HashMap.{HashMap}
use icn_v.HashMap.Keys.{KeysDistinct}
use icn_v.Identity.Quorum.{
  QuorumType, majority, threshold, weighted, duplicate_signer, QuorumProof, new_proof, has_signer,
  add_signature, verify,
}
use icn_v.Identity.Signers.{count, Distinct, signed}
use icn_v.Identity.Verify.{signers, verify-signers}

signed-append :
    {Key Sig : Type 0} (check : Key → List ℕ → Sig → Bool) (message : List ℕ)
    (sigs : List (String × Sig)) (d : String) (sig : Sig) (a : String × Key)
    → signed check message sigs a ≡ true
    → signed check message (sigs ++ (d, sig) ∷ []) a ≡ true
signed-append check message ((x, s) ∷ sigs) d sig a h =
    ground (arith, signed-append check message sigs d sig a)
signed-append check message [] d sig a h = ground arith

count_mono {ℓ} :
    {A : Type ℓ} (p q : A → Bool) (xs : List A)
    → ((x : A) → p x ≡ true → q x ≡ true)
    → count p xs ≤ count q xs
count_mono p q [] h = omega arith
count_mono p q (x ∷ xs) h = ground (arith, count_mono p q xs h, h x)

has_signer-append :
    {Sig : Type 0} (x d : String) (sig : Sig) (sigs : List (String × Sig))
    → has_signer x (sigs ++ (d, sig) ∷ []) ≡ true
    → (has_signer x sigs ≡ true) ⊎ (d ≡ x)
has_signer-append x d sig [] h = ground (arith, eq_iff d x)
has_signer-append x d sig ((y, s) ∷ sigs) h = ground (arith, has_signer-append x d sig sigs)

Distinct-append :
    {Sig : Type 0} (d : String) (sig : Sig) (sigs : List (String × Sig))
    → has_signer d sigs ≡ false
    → Distinct sigs
    → Distinct (sigs ++ (d, sig) ∷ [])
Distinct-append d sig [] new h = (refl, tt)
Distinct-append d sig ((y, s) ∷ sigs) new h =
    ground
      (arith, Distinct-append d sig sigs, has_signer-append y d sig sigs, eq_iff d y, eq_iff y d)

abbrev pub IsUnweighted : QuorumType → Type 0
IsUnweighted majority = Unit
IsUnweighted (threshold n) = Unit
IsUnweighted (weighted weights) = ⊥

more :
    {Key Sig : Type 0} (check : Key → List ℕ → Sig → Bool) (message : List ℕ)
    (allowed : HashMap String Key) (sigs : List (String × Sig)) (d : String) (sig : Sig)
    → signers check message allowed sigs ≤ signers check message allowed (sigs ++ (d, sig) ∷ [])
more check message allowed sigs d sig =
    count_mono (signed check message sigs) (signed check message (sigs ++ (d, sig) ∷ [])) allowed
      (signed-append check message sigs d sig)

still_verified :
    {Key Sig : Type 0} (check : Key → List ℕ → Sig → Bool) (message : List ℕ)
    (allowed : HashMap String Key) (qt : QuorumType) (sigs : List (String × Sig)) (d : String)
    (sig : Sig)
    → KeysDistinct allowed
    → IsUnweighted qt
    → has_signer d sigs ≡ false
    → verify check message allowed (new_proof qt sigs) ≡ ok tt
    → verify check message allowed (new_proof qt (sigs ++ (d, sig) ∷ [])) ≡ ok tt
still_verified check message allowed majority sigs d sig keys plain new h = ground (
  arith,
  verify-signers check message allowed sigs keys,
  verify-signers check message allowed (sigs ++ (d, sig) ∷ []) keys,
  more check message allowed sigs d sig,
  Distinct-append d sig sigs new,
)
still_verified check message allowed (threshold n) sigs d sig keys plain new h = ground (
  arith,
  (verify-signers check message allowed sigs keys).1 n,
  (verify-signers check message allowed (sigs ++ (d, sig) ∷ []) keys).1 n,
  more check message allowed sigs d sig,
  Distinct-append d sig sigs new,
)
still_verified check message allowed (weighted _) sigs d sig keys plain new h = elim plain [ ]

-- Adding a signature fails exactly for a signer that has signed, and then changes nothing. Otherwise
-- the proof keeps its signers apart, and one that a majority or a threshold quorum accepted, over
-- allowed signers with distinct names, is still accepted.
pub add_signature-verify :
    {Key Sig : Type 0} (check : Key → List ℕ → Sig → Bool) (message : List ℕ)
    (allowed : HashMap String Key) (p : QuorumProof Sig) (d : String) (sig : Sig)
    → KeysDistinct allowed
    → IsUnweighted p.quorum_type
    → let (r, p') = add_signature d sig p in
      ((has_signer d p.signatures ≡ true) × (r ≡ err duplicate_signer) × (p' ≡ p))
      ⊎ ((has_signer d p.signatures ≡ false)
          × (r ≡ ok tt)
          × (Distinct p.signatures → Distinct p'.signatures)
          × (verify check message allowed p ≡ ok tt → verify check message allowed p' ≡ ok tt))
unfolding add_signature
add_signature-verify check message allowed p d sig keys plain =
    elim (Bool-cases (has_signer d p.signatures)) [
      | inl there ↦ rw there (inl (refl, refl, refl))
      | inr new ↦ rw new (
          inr (
            refl,
            refl,
            Distinct-append d sig p.signatures new,
            still_verified check message allowed p.quorum_type p.signatures d sig keys plain new,
          ))
    ]
