-- ===== src/Types/QuorumConfig.antt =====
-- `QuorumConfig` of crates/common/icn-types/src/trust.rs. The parsing of a DID from its text
-- (icn-identity/src/did.rs, over a multibase library) is a parameter. A panic is `none`.
use icn_v.Base.{
  ℕ, ◌+◌, ◌*◌, ◌/◌, ◌%◌, String, Bool, not, List, [], ◌∷◌, Option, none, some, if◌then◌else◌, ltb,
  leb, nat_beq, Result, ok, err, length, suc, zero, string_eq,
}
use icn_v.HashMap.{HashMap, get_or, keys, values}
use icn_v.Identity.Quorum.{
  QuorumError, threshold_too_high, unauthorized_signer, duplicate_signer, member,
}
use icn_v.Identity.Trust.{TrustBundleError}

pub data QuorumRule : Type 0 where
  majority : QuorumRule
  -- a percentage, a `u8`
  threshold : ℕ → QuorumRule
  -- the weights and the threshold are `u32`
  weighted : (weights : HashMap String ℕ) → (threshold : ℕ) → QuorumRule

-- The errors of credentials, signatures, DIDs and cryptography are their texts.
pub data TrustError : Type 0 where
  bundle_processing : TrustBundleError → TrustError
  local_credential_in_bundle external_credential_in_bundle : String → TrustError
  quorum_processing : QuorumError → TrustError
  jws_verification identity crypto : String → TrustError
  weighted_threshold_unachievable : (requested maximum : ℕ) → TrustError

pub record QuorumConfig : Type 0 where
  pub rule : QuorumRule
  pub authorized_dids : List String

abbrev pub wrap32 : ℕ → ℕ
wrap32 n = n % 4294967296

-- `sum::<u32>()`
abbrev pub sum32_from : ℕ → List ℕ → ℕ
sum32_from acc [] = acc
sum32_from acc (w ∷ ws) = sum32_from (wrap32 (acc + w)) ws

abbrev pub new_majority : List String → QuorumConfig
new_majority dids = record { rule = majority; authorized_dids = dids }

unfoldable pub new_threshold : List String → ℕ → Result QuorumConfig TrustError
new_threshold dids percent =
    if ltb 100 percent
    then err (quorum_processing (threshold_too_high percent (length dids)))
    else ok (record { rule = threshold percent; authorized_dids = dids })

unfoldable pub new_weighted : HashMap String ℕ → ℕ → Result QuorumConfig TrustError
new_weighted weights required =
    let total_weight = sum32_from 0 (values weights) in
    if ltb total_weight required
    then err (weighted_threshold_unachievable required total_weight)
    else ok (record { rule = weighted weights required; authorized_dids = keys weights })

-- The loop that verifies that all signers are authorized: the first one that is not.
abbrev pub first_unauthorized : List String → List String → Option String
first_unauthorized authorized [] = none
first_unauthorized authorized (s ∷ ss) =
    if not (member s authorized) then some s else first_unauthorized authorized ss

-- The size of the `HashSet` of the signers.
abbrev pub unique_count : List String → ℕ
unique_count [] = 0
unique_count (s ∷ ss) = if member s ss then unique_count ss else suc (unique_count ss)

-- The loop that adds up `total`.
abbrev pub total_weight : HashMap String ℕ → ℕ → List String → ℕ
total_weight weights acc [] = acc
total_weight weights acc (s ∷ ss) = total_weight weights (wrap32 (acc + get_or s 0 weights)) ss

-- `(signers.len() * 100) / self.authorized_dids.len()`, which panics without authorized DIDs.
abbrev percentage : (signed authorized : ℕ) → Option ℕ
percentage signed zero = none
percentage signed (suc n) = some (signed * 100 / suc n)

-- `match &self.rule`
unfoldable pub apply_rule : QuorumRule → List String → List String → Option (Result Bool TrustError)
apply_rule majority authorized signers =
    let required = length authorized / 2 + 1 in some (ok (leb required (length signers)))
apply_rule (threshold percent) authorized signers =
    elim (percentage (length signers) (length authorized)) [
      | none ↦ none
      | some p ↦ some (ok (leb percent p))
    ]
apply_rule (weighted weights required) authorized signers =
    some (ok (leb required (total_weight weights 0 signers)))

module _ (parse : String → Result String String) where
  -- `signer.parse::<Did>()` and the error for a signer that is not authorized.
  abbrev pub unauthorized : String → TrustError
  unauthorized signer = elim (parse signer) [
    | ok did ↦ quorum_processing (unauthorized_signer did)
    | err e ↦ identity e
  ]

  unfoldable pub validate_quorum : QuorumConfig → List String → Option (Result Bool TrustError)
  validate_quorum c signers = elim (first_unauthorized c.authorized_dids signers) [
    | some signer ↦ some (err (unauthorized signer))
    | none ↦
        if not (nat_beq (unique_count signers) (length signers))
        then some (err (quorum_processing duplicate_signer))
        else apply_rule c.rule c.authorized_dids signers
  ]
