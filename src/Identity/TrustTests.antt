-- ===== src/Identity/TrustTests.antt =====
-- The trust validator at a concrete bundle.
use icn_v.Base.{
  ℕ, String, ◌≡◌, refl, Bool, nat_beq, List, [], ◌∷◌, none, some, Result, ok, string_eq,
}
use icn_v.HashMap.{get, insert}
use icn_v.Identity.Quorum.{
  majority, QuorumProof, new_proof, all_new, valid_signatures, quorum_met, verify,
}
use icn_v.Identity.Trust.{
  TrustBundle, TrustValidator, new_bundle, add_quorum_proof, calculate_hash, verify_bundle,
  new_validator, register_signer, set_trust_bundle, Reachable, started, registered, bundle_set,
  Reachable-verified, From,
}

abbrev check : ℕ → List ℕ → ℕ → Bool
check key message sig = nat_beq key sig

abbrev to_vec : TrustBundle ℕ ℕ → Result (List ℕ) String
to_vec b = ok (1 ∷ 2 ∷ [])

abbrev proof : QuorumProof ℕ
proof = new_proof majority (("a", 7) ∷ [])

abbrev bundle : TrustBundle ℕ ℕ
bundle =
    add_quorum_proof proof (
      new_bundle "cid"
        (record { name = "fed"; description = none; version = "1"; additional = [] }))

abbrev started_validator : TrustValidator ℕ ℕ ℕ
started_validator = register_signer to_vec check "a" 7 (new_validator to_vec check)

abbrev validator : TrustValidator ℕ ℕ ℕ
validator = (set_trust_bundle to_vec check bundle started_validator).1

configured : validator.trust_bundle ≡ some bundle
unfolding set_trust_bundle verify_bundle calculate_hash verify all_new quorum_met valid_signatures
    get register_signer insert
configured = refl

validator-Reachable : Reachable to_vec check validator
validator-Reachable =
    bundle_set bundle started_validator (registered "a" 7 (new_validator to_vec check) started)

Reachable-verified_example :
    (w : TrustValidator ℕ ℕ ℕ) × Reachable to_vec check w
    × (verify_bundle to_vec check w.trusted_keys bundle ≡ ok tt)
    × From to_vec check (set_trust_bundle to_vec check bundle w).1 validator
Reachable-verified_example =
    Reachable-verified to_vec check validator bundle validator-Reachable configured
