-- ===== src/Identity/Trust.antt =====
-- `TrustBundle` (crates/common/icn-identity/src/trust_bundle.rs) and `TrustValidator`
-- (trust_validator.rs). JSON values and the writing of JSON are those of `serde_json`, the parsing of a
-- CID is that of the library `cid`, and their errors are texts. The two locks of the validator are
-- never poisoned, since nothing panics while one is held.
use icn_v.Base.{
  subst, sym, ℕ, String, ◌≡◌, ◌⊎◌, inl, inr, Bool, true, List, [], Option, none, some, arith,
  Result, ok, err, ◌>>=◌, ok_or, map_err, string_eq, Option-cases, Result-cases,
}
use icn_v.HashMap.{HashMap, insert, contains_key}
use icn_v.HashMap.Laws.{get-insert_self}
use icn_v.Identity.Quorum.{QuorumError, QuorumProof, verify}

pub data TrustBundleError : Type 0 where
  quorum_error : QuorumError → TrustBundleError
  serialization_error cid_processing missing_field : String → TrustBundleError

pub record FederationMetadata (Value : Type 0) : Type 0 where
  pub name : String
  pub description : Option String
  pub version : String
  pub additional : HashMap String Value

pub record TrustBundle (Value Sig : Type 0) : Type 0 where
  pub root_dag_cid : String
  pub federation_metadata : FederationMetadata Value
  pub quorum_proof : Option (QuorumProof Sig)

pub data TrustValidationError : Type 0 where
  bundle_error : TrustBundleError → TrustValidationError
  no_bundle_configured bundle_access_error : TrustValidationError

pub record TrustValidator (Value Key Sig : Type 0) : Type 0 where
  pub trust_bundle : Option (TrustBundle Value Sig)
  pub trusted_keys : HashMap String Key

module _ {Value Sig : Type 0} where
  -- `TrustBundle::new`
  abbrev pub new_bundle : String → FederationMetadata Value → TrustBundle Value Sig
  new_bundle cid metadata = record {
    root_dag_cid = cid;
    federation_metadata = metadata;
    quorum_proof = none;
  }

  abbrev pub parse_cid :
      {Cid : Type 0}
      → (String → Result Cid String)
      → TrustBundle Value Sig
      → Result Cid TrustBundleError
  parse_cid try_from b = map_err cid_processing (try_from b.root_dag_cid)

  -- `serde_json::to_vec` is the argument.
  unfoldable pub calculate_hash :
      (TrustBundle Value Sig → Result (List ℕ) String)
      → TrustBundle Value Sig
      → Result (List ℕ) TrustBundleError
  calculate_hash to_vec b = map_err serialization_error (to_vec (record b { quorum_proof = none }))

  abbrev pub add_quorum_proof : QuorumProof Sig → TrustBundle Value Sig → TrustBundle Value Sig
  add_quorum_proof proof b = record b { quorum_proof = some proof }

module _ {Value Key Sig : Type 0} (to_vec : TrustBundle Value Sig → Result (List ℕ) String)
    (check : Key → List ℕ → Sig → Bool) where
  unfoldable pub verify_bundle :
      HashMap String Key → TrustBundle Value Sig → Result (Unit {0}) TrustBundleError
  verify_bundle allowed_signers b = do
    proof ← ok_or (missing_field "quorum_proof") b.quorum_proof
    hash ← calculate_hash to_vec b
    map_err quorum_error (verify check hash allowed_signers proof)

  -- `TrustValidator::new`
  abbrev pub new_validator : TrustValidator Value Key Sig
  new_validator = record { trust_bundle = none; trusted_keys = [] }

  unfoldable pub register_signer :
      String → Key → TrustValidator Value Key Sig → TrustValidator Value Key Sig
  register_signer did key v = record v { trusted_keys = insert did key v.trusted_keys }

  unfoldable pub set_trust_bundle :
      TrustBundle Value Sig
      → TrustValidator Value Key Sig
      → Result (Unit {0}) TrustValidationError × TrustValidator Value Key Sig
  set_trust_bundle bundle v = elim (verify_bundle v.trusted_keys bundle) [
    | err e ↦ (err (bundle_error e), v)
    | ok _ ↦ (ok tt, record v { trust_bundle = some bundle })
  ]

  abbrev pub get_trust_bundle :
      TrustValidator Value Key Sig → Result (Option (TrustBundle Value Sig)) TrustValidationError
  get_trust_bundle v = ok v.trust_bundle

  unfoldable pub is_authorized_signer :
      String → TrustValidator Value Key Sig → Result Bool TrustValidationError
  is_authorized_signer did v = do
    current ← get_trust_bundle v
    bundle ← ok_or no_bundle_configured current
    ok (contains_key did v.trusted_keys)

  -- The validators that calls lead to from the first one.
  pub data Reachable : TrustValidator Value Key Sig → Type 0 where
    started : Reachable new_validator
    registered :
        (did : String) (key : Key) (v : TrustValidator Value Key Sig)
        → Reachable v
        → Reachable (register_signer did key v)
    bundle_set :
        (b : TrustBundle Value Sig) (v : TrustValidator Value Key Sig)
        → Reachable v
        → Reachable (set_trust_bundle b v).1

  -- A bundle is set exactly when it has a quorum proof, its content without the proof can be written,
  -- and the proof is accepted for what is written, over the registered keys; otherwise the validator
  -- stays as it was.
  pub set_trust_bundle_lem :
      (b : TrustBundle Value Sig) (v : TrustValidator Value Key Sig)
      → let (r, v') = set_trust_bundle b v in
        ((r ≡ ok tt)
          × (v' ≡ record v { trust_bundle = some b })
          × ((proof : QuorumProof Sig) × (hash : List ℕ) × (b.quorum_proof ≡ some proof)
              × (to_vec (record b { quorum_proof = none }) ≡ ok hash)
              × (verify check hash v.trusted_keys proof ≡ ok tt)))
        ⊎ ((e : TrustBundleError) × (r ≡ err (bundle_error e))
            × (v' ≡ v)
            × (verify_bundle v.trusted_keys b ≡ err e))
  unfolding set_trust_bundle verify_bundle calculate_hash
  set_trust_bundle_lem b v = elim (Result-cases (verify_bundle v.trusted_keys b)) [
    | inr (e, h) ↦ inr (e, ground arith, ground arith, h)
    | inl (u, h) ↦ elim (Option-cases b.quorum_proof) [
      | inl f ↦ ground arith
      | inr (proof, f) ↦ elim (Result-cases (to_vec (record b { quorum_proof = none }))) [
        | inr (e, g) ↦ ground arith
        | inl (hash, g) ↦ inl (ground arith, ground arith, (proof, hash, f, g, ground arith))
      ]
    ]
  ]

  accepted :
      (b c : TrustBundle Value Sig) (v : TrustValidator Value Key Sig)
      → (set_trust_bundle b v).1.trust_bundle ≡ some c
      → ((b ≡ c) × (verify_bundle v.trusted_keys c ≡ ok tt)) ⊎ (v.trust_bundle ≡ some c)
  unfolding set_trust_bundle
  accepted b c v e = elim (Result-cases (verify_bundle v.trusted_keys b)) [
    | inl (u, h) ↦ inl (ground arith)
    | inr (f, h) ↦ inr (ground arith)
  ]

  -- The validators that registrations and settings of bundles lead to from one.
  pub data From (w : TrustValidator Value Key Sig) : TrustValidator Value Key Sig → Type 1 where
    itself : From w w
    then_registered :
        (did : String) (key : Key) (v : TrustValidator Value Key Sig)
        → From w v
        → From w (register_signer did key v)
    then_set :
        (b : TrustBundle Value Sig) (v : TrustValidator Value Key Sig)
        → From w v
        → From w (set_trust_bundle b v).1

  -- The bundle of a reachable validator was set in an earlier state of it, in which the bundle was
  -- accepted over the keys that were registered then.
  pub Reachable-verified :
      (v : TrustValidator Value Key Sig) (b : TrustBundle Value Sig)
      → Reachable v
      → v.trust_bundle ≡ some b
      → (w : TrustValidator Value Key Sig) × Reachable w
        × (verify_bundle w.trusted_keys b ≡ ok tt)
        × From (set_trust_bundle b w).1 v
  unfolding register_signer
  Reachable-verified v b started e = ground arith
  Reachable-verified _ b (registered did key w r) e =
      let (u, reached, verified, path) = Reachable-verified w b r e in
      (u, reached, verified, then_registered did key w path)
  Reachable-verified _ b (bundle_set c w r) e = elim (accepted c b w e) [
    | inl (same, f) ↦ (
      w,
      r,
      f,
      subst (λ d. From (set_trust_bundle b w).1 (set_trust_bundle d w).1) (sym same) itself,
    )
    | inr f ↦
        let (u, reached, verified, path) = Reachable-verified w b r f in
        (u, reached, verified, then_set c w path)
  ]

  -- Without a bundle nobody is authorized. With one, exactly the registered signers are, and
  -- registering a signer makes it one at once, under every bundle.
  pub is_authorized_signer_lem :
      (did : String) (key : Key) (v : TrustValidator Value Key Sig)
      → (v.trust_bundle ≡ none → is_authorized_signer did v ≡ err no_bundle_configured)
        × ((b : TrustBundle Value Sig)
            → v.trust_bundle ≡ some b
            → (is_authorized_signer did v ≡ ok (contains_key did v.trusted_keys))
              × (is_authorized_signer did (register_signer did key v) ≡ ok true))
  unfolding is_authorized_signer register_signer
  is_authorized_signer_lem did key v = ground (arith, get-insert_self did key v.trusted_keys)
