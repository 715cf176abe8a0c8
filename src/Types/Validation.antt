-- ===== src/Types/Validation.antt =====
-- What `QuorumConfig::validate_quorum` (icn-types/src/trust.rs) decides.
use native.Mathlib.Nat.{le-div_iff_mul-le}
use icn_v.Base.{All}
use icn_v.Base.{
  ℕ, ◌+◌, ◌*◌, ◌/◌, ◌≤◌, ◌<◌, String, ◌≡◌, refl, ◌↔◌, inl, inr, Bool, true, List, [], ◌∷◌, none,
  some, arith, Result, ok, length, u32_size, suc, sum_by, Option-cases, string_eq,
}
use icn_v.HashMap.{HashMap, get, get_or, keys}
use icn_v.HashMap.Keys.{length-keys}
use icn_v.Identity.Quorum.{
  duplicate_signer, member, has_signer, counts, valid_signatures, verify, new_proof, quorum_met,
}
use icn_v.Identity.Quorum as Quorum
use icn_v.Identity.Signers.{Distinct, all_new-Distinct}
use icn_v.Identity.Weights.{Apart, valid-Apart}
use icn_v.Types.QuorumConfig.{
  QuorumRule, majority, threshold, weighted, QuorumConfig, wrap32, new_majority, first_unauthorized,
  unique_count, total_weight, apply_rule, validate_quorum,
}

unique_count-le : (ss : List String) → unique_count ss ≤ length ss
unique_count-le [] = omega arith
unique_count-le (s ∷ ss) = ground (arith, unique_count-le ss)

unique_count-Apart : (ss : List String) → (unique_count ss ≡ length ss) ↔ Apart ss
unique_count-Apart [] = ground arith
unique_count-Apart (s ∷ ss) = ground (arith, unique_count-Apart ss, unique_count-le ss)

total_weight_lem :
    (weights : HashMap String ℕ) (acc : ℕ) (ss : List String)
    → acc + sum_by (λ s. get_or s 0 weights) ss < u32_size
    → total_weight weights acc ss ≡ acc + sum_by (λ s. get_or s 0 weights) ss
total_weight_lem weights acc [] h = omega arith
total_weight_lem weights acc (s ∷ ss) h =
    omega (arith, total_weight_lem weights (wrap32 (acc + get_or s 0 weights)) ss (omega arith))

-- When the signers reach a rule: more than half of the authorized DIDs; the percentage of them; the
-- weight.
abbrev pub Reached : QuorumRule → List String → List String → Type 0
Reached majority authorized signers = length authorized < length signers * 2
Reached (threshold percent) authorized signers = percent * length authorized ≤ length signers * 100
Reached (weighted weights required) authorized signers =
    required ≤ sum_by (λ s. get_or s 0 weights) signers

-- The weights that signers add up to fit a `u32`.
abbrev pub Fits : QuorumRule → List String → Type 0
Fits majority signers = Unit
Fits (threshold percent) signers = Unit
Fits (weighted weights required) signers = sum_by (λ s. get_or s 0 weights) signers < u32_size

div_iff : (a b n : ℕ) → (a ≤ b / suc n) ↔ (a * suc n ≤ b)
div_iff a b n = le-div_iff_mul-le {k = suc n} (omega arith)

apply_rule-Reached :
    (rule : QuorumRule) (authorized signers : List String)
    → 0 < length authorized
    → Fits rule signers
    → (apply_rule rule authorized signers ≡ some (ok true)) ↔ Reached rule authorized signers
unfolding apply_rule
apply_rule-Reached majority authorized signers some_did fits = ground arith
apply_rule-Reached (threshold percent) (d ∷ ds) signers some_did fits =
    ground (arith, div_iff percent (length signers * 100) (length ds))
apply_rule-Reached (threshold percent) [] signers some_did fits = ground arith
apply_rule-Reached (weighted weights required) authorized signers some_did fits =
    ground (arith, total_weight_lem weights 0 signers (omega (arith, fits)))

first_unauthorized_iff :
    (authorized signers : List String)
    → (first_unauthorized authorized signers ≡ none) ↔ All (λ s. member s authorized ≡ true) signers
first_unauthorized_iff authorized [] = ground arith
first_unauthorized_iff authorized (s ∷ ss) = ground (arith, first_unauthorized_iff authorized ss)

-- A configuration with an authorized DID accepts signers exactly when all of them are authorized, none stands
-- twice, and they reach the rule: more than half of the authorized DIDs for a majority, the percentage of them
-- for a threshold, and the required weight for weights, which is for signers whose weights add up to a `u32`.
pub validate_quorum-Reached :
    (parse : String → Result String String) (c : QuorumConfig) (signers : List String)
    → 0 < length c.authorized_dids
    → Fits c.rule signers
    → (validate_quorum parse c signers ≡ some (ok true))
      ↔ All (λ s. member s c.authorized_dids ≡ true) signers
        × Apart signers
        × Reached c.rule c.authorized_dids signers
unfolding validate_quorum
validate_quorum-Reached parse c signers some_did fits =
    elim (Option-cases (first_unauthorized c.authorized_dids signers)) [
      | inr (s, stranger) ↦
          ground (arith, stranger, first_unauthorized_iff c.authorized_dids signers)
      | inl none_missing ↦ ground (
        arith,
        none_missing,
        first_unauthorized_iff c.authorized_dids signers,
        unique_count-Apart signers,
        apply_rule-Reached c.rule c.authorized_dids signers some_did fits,
      )
    ]

get-member :
    {Key : Type 0} (d : String) (m : HashMap String Key) {k : Key}
    → get d m ≡ some k
    → member d (keys m) ≡ true
unfolding get
get-member d [] e = ground arith
get-member d ((j, v) ∷ m) {k} e = ground (arith, get-member d m {k = k})

valid_authorized :
    {Key Sig : Type 0} (check : Key → List ℕ → Sig → Bool) (message : List ℕ)
    (allowed : HashMap String Key) (sigs : List (String × Sig))
    → first_unauthorized (keys allowed) (valid_signatures check message allowed sigs) ≡ none
unfolding valid_signatures
valid_authorized check message allowed [] = refl
valid_authorized check message allowed ((d, sig) ∷ sigs) = elim (Option-cases (get d allowed)) [
  | inl e ↦ ground (arith, valid_authorized check message allowed sigs)
  | inr (k, e) ↦ ground (arith, valid_authorized check message allowed sigs, get-member d allowed e)
]

-- Over distinct allowed signers, the rule that a majority of DIDs must sign decides as the majority of a
-- quorum proof does: the configuration accepts the signers that the proof counts exactly when the proof, whose
-- signers stand once each, verifies.
pub validate_quorum-verify :
    {Key Sig : Type 0} (parse : String → Result String String) (check : Key → List ℕ → Sig → Bool)
    (message : List ℕ) (allowed : HashMap String Key) (sigs : List (String × Sig))
    → Distinct sigs
    → (validate_quorum parse
          (new_majority (keys allowed))
          (valid_signatures check message allowed sigs)
        ≡ some (ok true))
      ↔ (verify check message allowed (new_proof Quorum.majority sigs) ≡ ok tt)
unfolding validate_quorum verify quorum_met apply_rule
validate_quorum-verify parse check message allowed sigs distinct =
    let valid = valid_signatures check message allowed sigs in
    ground (
      arith,
      valid_authorized check message allowed sigs,
      unique_count-Apart valid,
      valid-Apart check message sigs allowed distinct,
      (all_new-Distinct sigs).1 distinct,
      length-keys allowed,
    )
