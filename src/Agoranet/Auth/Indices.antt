-- ===== src/Agoranet/Auth/Indices.antt =====
-- The indices of the store of icn-agoranet/src/auth/revocation.rs against the set that they index.
use icn_v.Base.{
  contains, String, ◌≡◌, refl, Bool, not, List, [], ◌∷◌, ◌++◌, Option, none, some, inl, inr, arith,
  if◌then◌else◌, filterb, anyb, anyb-append, filterb-append, Bool-cases, string_eq, pair_eq,
  option_eq,
}
use mathlib.Core.List.{append-nil}
use icn_v.HashMap.{get, get_or, insert, contains_key}
use icn_v.HashMap.Laws.{get-insert}
use icn_v.Agoranet.Auth.Revocation.{
  RevokedToken, revoked_token_eq, SubjectIssuer, key_eq, key_of, RevocationStore, revoke_token,
  is_revoked, add_to_indices,
}

abbrev pub has_jti : String → RevokedToken → Bool
has_jti jti t = string_eq.eqb t.jti jti

abbrev pub has_key : SubjectIssuer → RevokedToken → Bool
has_key key t = key_eq.eqb (key_of t) key

-- What the second index keeps of the tokens of one key: nothing, or a list that is not empty.
abbrev pub listed : List RevokedToken → Option (List RevokedToken)
listed [] = none
listed (t ∷ ts) = some (t ∷ ts)

-- The indices are those of the tokens that the store holds.
pub record IsIndexed (s : RevocationStore) : Type 0 where
  pub by_jti : (jti : String) → is_revoked jti s ≡ anyb (has_jti jti) s.revoked_tokens
  pub by_key :
      (key : SubjectIssuer)
      → get key s.subject_issuer_index ≡ listed (filterb (has_key key) s.revoked_tokens)

-- The set after a revocation.
abbrev pub added : RevokedToken → List RevokedToken → List RevokedToken
added t ts = if contains t ts then ts else ts ++ t ∷ []

listed-append :
    (t : RevokedToken) (ts : List RevokedToken) → listed (ts ++ t ∷ []) ≡ some (ts ++ t ∷ [])
listed-append t [] = refl
listed-append t (u ∷ ts) = refl

or_listed : (ts : List RevokedToken) → elim (listed ts) [ none ↦ [] | some us ↦ us ] ≡ ts
or_listed [] = refl
or_listed (t ∷ ts) = refl

added_by_jti :
    (t : RevokedToken) (s : RevocationStore)
    → IsIndexed s
    → (jti : String)
    → contains_key jti (insert t.jti t s.jti_index)
      ≡ anyb (has_jti jti) (s.revoked_tokens ++ t ∷ [])
unfolding is_revoked
added_by_jti t s h jti = ground (
  arith,
  get-insert t.jti jti t s.jti_index,
  h.by_jti jti,
  anyb-append (has_jti jti) s.revoked_tokens (t ∷ []),
)

added_by_key :
    (t : RevokedToken) (s : RevocationStore)
    → IsIndexed s
    → (key : SubjectIssuer)
    → get key (
        insert
          (key_of t)
          (get_or (key_of t) [] s.subject_issuer_index ++ t ∷ [])
          s.subject_issuer_index)
      ≡ listed (filterb (has_key key) (s.revoked_tokens ++ t ∷ []))
added_by_key t s h key = elim (Bool-cases (has_key key t)) [
  | inl same ↦
      let e : key_of t ≡ key = (key_eq.eqb_iff (key_of t) key).0 same in
      ground (
        arith,
        get-insert (key_of t) key (get_or (key_of t) [] s.subject_issuer_index ++ t ∷ [])
            s.subject_issuer_index,
        h.by_key (key_of t),
        filterb-append (has_key key) s.revoked_tokens (t ∷ []),
        listed-append t (filterb (has_key key) s.revoked_tokens),
        or_listed (filterb (has_key key) s.revoked_tokens),
      )
  | inr other ↦ ground (
    arith,
    get-insert (key_of t) key (get_or (key_of t) [] s.subject_issuer_index ++ t ∷ [])
        s.subject_issuer_index,
    h.by_key key,
    filterb-append (has_key key) s.revoked_tokens (t ∷ []),
    append-nil (filterb (has_key key) s.revoked_tokens),
  )
]

pub revoked_tokens-revoke_token :
    (t : RevokedToken) (s : RevocationStore)
    → ((revoke_token t s).1.revoked_tokens ≡ added t s.revoked_tokens)
      × ((revoke_token t s).0 ≡ not (contains t s.revoked_tokens))
unfolding revoke_token add_to_indices
revoked_tokens-revoke_token t s = ground arith

pub revoke_token-IsIndexed :
    (t : RevokedToken) (s : RevocationStore) → IsIndexed s → IsIndexed (revoke_token t s).1
unfolding revoke_token add_to_indices is_revoked
revoke_token-IsIndexed t s h = elim (Bool-cases (contains t s.revoked_tokens)) [
  | inl old ↦ rw old h
  | inr fresh ↦ rw fresh (record { by_jti = added_by_jti t s h; by_key = added_by_key t s h })
]
