-- ===== src/Identity/Tests.antt =====
-- The identity index and the quorum proofs at concrete inputs.
use icn_v.Base.{
  ℕ, ◌*◌, ◌≤◌, ◌<◌, String, ◌≡◌, refl, ◌↔◌, ◌⊎◌, Bool, true, false, nat_beq, List, [], ◌∷◌, ok, err,
  string_eq,
}
use icn_v.HashMap.{HashMap, get, insert, size}
use icn_v.Identity.Scope.{
  ScopeKey, IdentityIndex, empty_index, insert_did_coop, insert_coop_community, resolve_scope_key,
}
use icn_v.Identity.Quorum.{
  majority, threshold, duplicate_signer, insufficient_signers, new_proof, has_signer, add_signature,
  all_new, valid_signatures, quorum_met, verify,
}
use icn_v.Identity.Signers.{Distinct}
use icn_v.Identity.Verify.{signers, verify-signers}
use icn_v.Identity.Addition.{add_signature-verify}

abbrev member : IdentityIndex
member = insert_did_coop "did" "coop" (insert_coop_community "coop" "town" empty_index)

resolves_to_town : resolve_scope_key "did" member ≡ ScopeKey.community "town"
unfolding resolve_scope_key insert_did_coop insert_coop_community get insert
resolves_to_town = refl

-- A check that takes the key itself for the signature.
abbrev check : ℕ → List ℕ → ℕ → Bool
check key message sig = nat_beq key sig

abbrev allowed : HashMap String ℕ
allowed = ("a", 1) ∷ ("b", 2) ∷ ("c", 3) ∷ []

-- "a" and "b" sign; "c" has a wrong signature, and "d" is not allowed.
abbrev signatures : List (String × ℕ)
signatures = ("a", 1) ∷ ("b", 2) ∷ ("c", 9) ∷ ("d", 4) ∷ []

abbrev light : HashMap String ℕ
light = ("a", 4) ∷ ("b", 3) ∷ ("c", 2) ∷ []

abbrev heavy : HashMap String ℕ
heavy = ("a", 1) ∷ ("b", 5) ∷ ("c", 65530) ∷ []

two_of_three : verify check [] allowed (new_proof majority signatures) ≡ ok tt
unfolding verify quorum_met all_new valid_signatures get
two_of_three = refl

verify-signers_example :
    ((verify check [] allowed (new_proof majority signatures) ≡ ok tt)
      ↔ Distinct signatures × (size allowed < signers check [] allowed signatures * 2))
    × ((n : ℕ)
        → (verify check [] allowed (new_proof (threshold n) signatures) ≡ ok tt)
          ↔ Distinct signatures × (n ≤ signers check [] allowed signatures))
unfolding get
verify-signers_example = verify-signers check [] allowed signatures (refl, (refl, (refl, tt)))

refused : verify check [] allowed (new_proof (threshold 3) signatures) ≡ err insufficient_signers
unfolding verify quorum_met all_new valid_signatures get
refused = refl

add_signature-verify_example :
    let p = new_proof majority signatures in
    let (r, q) = add_signature "e" 5 p in
    ((has_signer "e" signatures ≡ true) × (r ≡ err duplicate_signer) × (q ≡ p))
    ⊎ ((has_signer "e" signatures ≡ false)
        × (r ≡ ok tt)
        × (Distinct signatures → Distinct q.signatures)
        × (verify check [] allowed p ≡ ok tt → verify check [] allowed q ≡ ok tt))
unfolding get
add_signature-verify_example =
    add_signature-verify check [] allowed (new_proof majority signatures) "e" 5
      (refl, (refl, (refl, tt))) tt
