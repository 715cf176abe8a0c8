-- ===== src/Identity/Quorum.antt =====
-- `QuorumProof` of crates/common/icn-identity/src/quorum.rs. A DID is its text. Keys, signatures and
-- the check of a signature are those of the library `ed25519_dalek`: they are parameters.
use icn_v.Base.{
  ℕ, ◌+◌, ◌*◌, String, Bool, true, false, not, ◌||◌, List, [], ◌∷◌, ◌++◌, none, some, if◌then◌else◌,
  ltb, leb, wrap16, Result, ok, err, ◌==◌, string_eq, length, ◌>>=◌,
}
use icn_v.HashMap.{HashMap, get, values, size}

pub data QuorumType : Type 0 where
  majority : QuorumType
  -- a `u8`
  threshold : ℕ → QuorumType
  -- the weights are `u16`
  weighted : HashMap String ℕ → QuorumType

pub data QuorumError : Type 0 where
  insufficient_signers : QuorumError
  duplicate_signer : QuorumError
  unauthorized_signer : String → QuorumError
  threshold_too_high : (threshold available_signers : ℕ) → QuorumError
  signer_not_in_weight_map : String → QuorumError

pub record QuorumProof (Sig : Type 0) : Type 0 where
  pub quorum_type : QuorumType
  pub signatures : List (String × Sig)

-- `HashSet::contains`
abbrev pub member : String → List String → Bool
member d [] = false
member d (x ∷ xs) = x == d || member d xs

-- `weights.values().sum::<u16>()`, which wraps.
abbrev pub sum16_from : ℕ → List ℕ → ℕ
sum16_from acc [] = acc
sum16_from acc (w ∷ ws) = sum16_from (wrap16 (acc + w)) ws

abbrev pub total_of : HashMap String ℕ → ℕ
total_of weights = sum16_from 0 (values weights)

module _ {Sig : Type 0} where
  -- `QuorumProof::new`
  abbrev pub new_proof : QuorumType → List (String × Sig) → QuorumProof Sig
  new_proof qt sigs = record { quorum_type = qt; signatures = sigs }

  -- `any(|(existing_did, _)| existing_did == &did)`
  abbrev pub has_signer : String → List (String × Sig) → Bool
  has_signer d [] = false
  has_signer d ((x, _) ∷ xs) = x == d || has_signer d xs

  unfoldable pub add_signature :
      String → Sig → QuorumProof Sig → Result (Unit {0}) QuorumError × QuorumProof Sig
  add_signature did sig p =
      if has_signer did p.signatures
      then (err duplicate_signer, p)
      else (ok tt, record p { signatures = p.signatures ++ (did, sig) ∷ [] })

  -- The loop with `seen_signers`: no signer stands twice.
  unfoldable pub all_new : List String → List (String × Sig) → Bool
  all_new seen [] = true
  all_new seen ((d, _) ∷ sigs) =
      let rest = all_new (d ∷ seen) sigs in if member d seen then false else rest

-- `pk.verify(message, sig).is_ok()`
module _ {Key Sig : Type 0} (check : Key → List ℕ → Sig → Bool) where
  -- Whether a signature counts: its signer is allowed, and it checks.
  abbrev pub counts : List ℕ → HashMap String Key → String × Sig → Bool
  counts message allowed (d, sig) = elim (get d allowed) [
    | none ↦ false
    | some pk ↦ check pk message sig
  ]

  unfoldable pub valid_signatures : List ℕ → HashMap String Key → List (String × Sig) → List String
  valid_signatures message allowed [] = []
  valid_signatures message allowed ((d, sig) ∷ sigs) =
      let rest = valid_signatures message allowed sigs in
      if counts message allowed (d, sig) then d ∷ rest else rest

-- The loop that adds up `valid_weight`, with its early return.
unfoldable pub valid_weight : HashMap String ℕ → ℕ → List String → Result ℕ QuorumError
valid_weight weights acc [] = ok acc
valid_weight weights acc (d ∷ ds) = elim (get d weights) [
  | none ↦ err (signer_not_in_weight_map d)
  | some w ↦ valid_weight weights (wrap16 (acc + w)) ds
]

-- `match &self.quorum_type`, over the valid signatures and the number of allowed signers.
unfoldable pub quorum_met : QuorumType → List String → ℕ → Result (Unit {0}) QuorumError
quorum_met majority valid allowed =
    if ltb allowed (length valid * 2) then ok tt else err insufficient_signers
quorum_met (threshold n) valid allowed =
    if ltb allowed n
    then err (threshold_too_high n allowed)
    else if leb n (length valid)
    then ok tt
    else err insufficient_signers
quorum_met (weighted weights) valid allowed = valid_weight weights 0 valid >>= λ total.
    if ltb (total_of weights) (wrap16 (total * 2)) then ok tt else err insufficient_signers

module _ {Key Sig : Type 0} (check : Key → List ℕ → Sig → Bool) where
  unfoldable pub verify :
      List ℕ → HashMap String Key → QuorumProof Sig → Result (Unit {0}) QuorumError
  verify message allowed p =
      if not (all_new [] p.signatures)
      then err duplicate_signer
      else quorum_met p.quorum_type (valid_signatures check message allowed p.signatures)
          (size allowed)
