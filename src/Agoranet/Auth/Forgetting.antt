-- ===== src/Agoranet/Auth/Forgetting.antt =====
-- A clearing of the store of icn-agoranet/src/auth/revocation.rs when an identifier was revoked more
-- than once.
use icn_v.Base.{
  ℕ, ◌≤◌, ◌<◌, String, ◌≡◌, ap, Bool, true, false, List, [], ◌∷◌, none, arith, ltb, contains,
  contains-filterb, filterb, string_eq, eqb_refl, Bool-cases, inl, inr, ◌==◌,
}
use icn_v.HashMap.{get}
use icn_v.HashMap.Laws.{get-remove}
use icn_v.Agoranet.Auth.Revocation.{
  RevokedToken, revoked_token_eq, RevocationStore, is_revoked, remove_from_indices, remove_tokens,
  clear_expired_revocations,
}
use icn_v.Agoranet.Auth.Clearing.{unexpired, clear_expired_revocations_lem}

stays_absent :
    (jti : String) (rs : List RevokedToken) (s : RevocationStore)
    → get jti s.jti_index ≡ none
    → get jti (remove_tokens rs s).jti_index ≡ none
unfolding remove_tokens remove_from_indices
stays_absent jti [] s h = h
stays_absent jti (t ∷ rs) s h =
    stays_absent jti rs _ (ground (arith, h, get-remove t.jti jti s.jti_index))

removed_absent :
    (t : RevokedToken) (rs : List RevokedToken) (s : RevocationStore)
    → contains t rs ≡ true
    → get t.jti (remove_tokens rs s).jti_index ≡ none
unfolding remove_tokens remove_from_indices contains
removed_absent t [] s h = cc
removed_absent t (u ∷ rs) s h = elim (Bool-cases (u == t)) [
  | inl same ↦
      let e : u.jti ≡ t.jti =
        ap (λ (v : RevokedToken). v.jti) ((revoked_token_eq.eqb_iff u t).0 same) in
      stays_absent t.jti rs _
        (ground (arith, e, eqb_refl t.jti, get-remove u.jti t.jti s.jti_index))
  | inr other ↦ removed_absent t rs _ (ground (arith, other, h))
]

-- When a token was revoked twice under one identifier and only the first revocation has expired, a
-- clearing forgets both: the second stays in the set, but the identifier no longer counts as
-- revoked.
pub clear_expired_revocations_forgets :
    (older_than : ℕ) (s : RevocationStore) (first second : RevokedToken)
    → contains first s.revoked_tokens ≡ true
    → contains second s.revoked_tokens ≡ true
    → first.jti ≡ second.jti
    → first.revoked_at < older_than
    → older_than ≤ second.revoked_at
    → let s' = (clear_expired_revocations older_than s).1 in
      (contains second s'.revoked_tokens ≡ true) × (is_revoked second.jti s' ≡ false)
unfolding clear_expired_revocations is_revoked
clear_expired_revocations_forgets older_than s first second hf hs same old new =
    let p : RevokedToken → Bool = λ t. ltb t.revoked_at older_than in
    let gone =
      removed_absent first (filterb p s.revoked_tokens) s
        (ground (arith, hf, contains-filterb p first s.revoked_tokens)) in
    (
      ground (
        arith,
        (clear_expired_revocations_lem older_than s).0,
        contains-filterb (unexpired older_than) second s.revoked_tokens,
      ),
      ground (arith, gone, same),
    )
