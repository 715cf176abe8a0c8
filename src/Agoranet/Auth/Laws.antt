-- ===== src/Agoranet/Auth/Laws.antt =====
-- What the callers of a `TokenRevocationStore` of icn-agoranet/src/auth/revocation.rs rely on, and
-- that the store in memory has it.
use icn_v.Base.{
  String, ◌≡◌, ◌≢◌, refl, sym, ◌∙◌, Bool, true, false, List, [], ◌∷◌, Option, arith, inl, inr,
  contains, contains-anyb, contains-append_last, anyb, anyb-append, string_eq, Bool-cases, eqb_refl,
}
use icn_v.Agoranet.Auth.Revocation.{
  RevokedToken, revoked_token_eq, SubjectIssuer, key_eq, key_of, RevocationStore,
  TokenRevocationStore, revoke_token, in_memory_store,
}
use icn_v.Agoranet.Auth.Indices.{
  has_jti, has_key, IsIndexed, added, revoked_tokens-revoke_token, revoke_token-IsIndexed,
}
use icn_v.Agoranet.Auth.Histories.{by_key-anyb}

pub record RevocationLaws {S : Type 0} (store : TokenRevocationStore S) (Valid : S → Type 0)
    : Type 0 where
  pub keeps : (t : RevokedToken) (s : S) → Valid s → Valid (store.revoke_token t s).1
  pub jti_revoked :
      (t : RevokedToken) (s : S)
      → Valid s
      → store.is_revoked t.jti (store.revoke_token t s).1 ≡ true
  pub subject_revoked :
      (t : RevokedToken) (s : S)
      → Valid s
      → store.is_revoked_by_subject_issuer t.subject t.issuer (store.revoke_token t s).1 ≡ true
  pub other_jti :
      (t : RevokedToken) (s : S)
      → Valid s
      → (jti : String) → jti ≢ t.jti
      → store.is_revoked jti (store.revoke_token t s).1 ≡ store.is_revoked jti s
  pub other_subject :
      (t : RevokedToken) (s : S)
      → Valid s
      → (subject : String) (issuer : Option String)
      → ◌≢◌ {A = SubjectIssuer} (subject, issuer) (key_of t)
      → store.is_revoked_by_subject_issuer subject issuer (store.revoke_token t s).1
        ≡ store.is_revoked_by_subject_issuer subject issuer s

contains-added : (t : RevokedToken) (ts : List RevokedToken) → contains t (added t ts) ≡ true
contains-added t ts = elim (Bool-cases (contains t ts)) [
  | inl old ↦ rw (old, old) refl
  | inr fresh ↦ rw fresh (contains-append_last t ts)
]

anyb-added :
    (p : RevokedToken → Bool) (t : RevokedToken) (ts : List RevokedToken)
    → p t ≡ false
    → anyb p (added t ts) ≡ anyb p ts
anyb-added p t ts h = elim (Bool-cases (contains t ts)) [
  | inl old ↦ rw old refl
  | inr fresh ↦ rw fresh (ground (arith, h, anyb-append p ts (t ∷ [])))
]

-- The tokens after a revocation, under a test.
anyb-revoke_token :
    (p : RevokedToken → Bool) (t : RevokedToken) (s : RevocationStore)
    → (p t ≡ true → anyb p (revoke_token t s).1.revoked_tokens ≡ true)
      × (p t ≡ false → anyb p (revoke_token t s).1.revoked_tokens ≡ anyb p s.revoked_tokens)
anyb-revoke_token p t s =
    let q = (revoked_tokens-revoke_token t s).0 in
    rw q (
      contains-anyb p t (added t s.revoked_tokens) (contains-added t s.revoked_tokens),
      anyb-added p t s.revoked_tokens,
    )

key_eqb_refl : (t : RevokedToken) → has_key (key_of t) t ≡ true
key_eqb_refl t = (key_eq.eqb_iff (key_of t) (key_of t)).1 refl

other_key : (t : RevokedToken) (key : SubjectIssuer) → key ≢ key_of t → has_key key t ≡ false
other_key t key ne = elim (Bool-cases (has_key key t)) [
  | inl same ↦ absurd (ne (sym ((key_eq.eqb_iff (key_of t) key).0 same)))
  | inr other ↦ other
]

-- The store in memory, as long as its indices are those of its tokens.
pub in_memory_laws : RevocationLaws in_memory_store IsIndexed
unfolding in_memory_store
in_memory_laws = record {
  keeps = revoke_token-IsIndexed;
  jti_revoked = λ t s i.
      (revoke_token-IsIndexed t s i).by_jti t.jti
      ∙ (anyb-revoke_token (has_jti t.jti) t s).0 (eqb_refl t.jti);
  subject_revoked = λ t s i.
      by_key-anyb (revoke_token t s).1 (revoke_token-IsIndexed t s i) t.subject t.issuer
      ∙ (anyb-revoke_token (has_key (key_of t)) t s).0 (key_eqb_refl t);
  other_jti = λ t s i jti ne.
      (revoke_token-IsIndexed t s i).by_jti jti
      ∙ (anyb-revoke_token (has_jti jti) t s).1 (ground (arith, string_eq.eqb_iff t.jti jti))
      ∙ sym (i.by_jti jti);
  other_subject = λ t s i subject issuer ne.
      by_key-anyb (revoke_token t s).1 (revoke_token-IsIndexed t s i) subject issuer
      ∙ (anyb-revoke_token (has_key (subject, issuer)) t s).1 (other_key t (subject, issuer) ne)
      ∙ sym (by_key-anyb s i subject issuer);
}
