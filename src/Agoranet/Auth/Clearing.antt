-- ===== src/Agoranet/Auth/Clearing.antt =====
-- The removal of tokens from the store of icn-agoranet/src/auth/revocation.rs.
use icn_v.Base.{
  contains, not-contains, filterb-ext, filterb-without, sym, ℕ, ◌+◌, String, ◌≡◌, refl, ap, ◌∙◌,
  Bool, true, false, not, ◌&&◌, List, [], ◌∷◌, none, some, inl, inr, arith, if◌then◌else◌, ltb,
  length, length-filterb-le, ◌==◌, filterb, anyb, filterb-cong, filterb-filterb, filterb-All, All,
  All-map, Bool-cases, Option-cases, string_eq, pair_eq, option_eq,
}
use icn_v.HashMap.{HashMap, get}
use icn_v.HashMap.Laws.{get-insert, get-remove}
use icn_v.Agoranet.Auth.Revocation.{
  RevokedToken, revoked_token_eqb, revoked_token_eqb_iff, revoked_token_eq, SubjectIssuer, key_eq,
  key_of, RevocationStore, is_revoked, remove_from_indices, store_retained, remove_token,
  remove_tokens, clear_expired_revocations,
}
use icn_v.Agoranet.Auth.Indices.{has_jti, has_key, listed, IsIndexed}

-- A token's identifier is that of no other token of the list.
abbrev pub Only : RevokedToken → List RevokedToken → Type 0
Only t ts = All (λ u. u.jti ≡ t.jti → u ≡ t) ts

abbrev other_jti : RevokedToken → RevokedToken → Bool
other_jti t u = not (string_eq.eqb u.jti t.jti)

eqb-jti :
    (t u : RevokedToken) → (u.jti ≡ t.jti → u ≡ t) → not (revoked_token_eqb u t) ≡ other_jti t u
eqb-jti t u h = elim (Bool-cases (string_eq.eqb u.jti t.jti)) [
  | inl same ↦
      let e = h ((string_eq.eqb_iff u.jti t.jti).0 same) in
      rw same (ap not ((revoked_token_eqb_iff u t).1 e))
  | inr other ↦ rw other (
      ground (
        arith,
        revoked_token_eqb_iff u t,
        string_eq.eqb_iff u.jti t.jti,
        λ (e : u ≡ t). ap (λ (v : RevokedToken). v.jti) e,
      ))
]

remove_token-jti :
    (t : RevokedToken) (ts : List RevokedToken)
    → Only t ts
    → remove_token t ts ≡ filterb (other_jti t) ts
unfolding revoked_token_eq
remove_token-jti t ts h =
    filterb-cong (λ u. not (revoked_token_eqb u t)) (other_jti t) ts
      (All-map (λ u. u.jti ≡ t.jti → u ≡ t) _ (eqb-jti t) ts h)

anyb-other_jti :
    (t : RevokedToken) (ts : List RevokedToken) (jti : String)
    → anyb (has_jti jti) (filterb (other_jti t) ts)
      ≡ (if has_jti jti t then false else anyb (has_jti jti) ts)
anyb-other_jti t [] jti = ground arith
anyb-other_jti t (u ∷ ts) jti = ground (
  arith,
  string_eq.eqb_iff t.jti jti,
  string_eq.eqb_iff u.jti jti,
  string_eq.eqb_iff u.jti t.jti,
  anyb-other_jti t ts jti,
)

-- The tokens of another key keep their places.
filterb-other_key :
    (t : RevokedToken) (ts : List RevokedToken)
    → Only t ts
    → (key : SubjectIssuer) → has_key key t ≡ false
    → filterb (has_key key) (filterb (other_jti t) ts) ≡ filterb (has_key key) ts
filterb-other_key t [] h key ne = refl
filterb-other_key t (u ∷ ts) h key ne = elim (Bool-cases (string_eq.eqb u.jti t.jti)) [
  | inl same ↦
      let e : u ≡ t = h.0 ((string_eq.eqb_iff u.jti t.jti).0 same) in
      let no : has_key key u ≡ false = ap (has_key key) e ∙ ne in
      ground (arith, same, no, filterb-other_key t ts h.1 key ne)
  | inr other ↦ ground (arith, other, filterb-other_key t ts h.1 key ne)
]

filterb_comm :
    (p q : RevokedToken → Bool) (ts : List RevokedToken)
    → filterb p (filterb q ts) ≡ filterb q (filterb p ts)
filterb_comm p q [] = refl
filterb_comm p q (t ∷ ts) = ground (arith, filterb_comm p q ts)

filterb-remove_token :
    (t : RevokedToken) (ts : List RevokedToken)
    → Only t ts
    → (key : SubjectIssuer)
    → filterb (has_key key) (remove_token t ts) ≡ (
        if has_key key t
        then filterb (other_jti t) (filterb (has_key key) ts)
        else filterb (has_key key) ts)
filterb-remove_token t ts h key = rw (remove_token-jti t ts h) (elim (Bool-cases (has_key key t)) [
  | inl same ↦ rw same (filterb_comm (has_key key) (other_jti t) ts)
  | inr other ↦ rw other (filterb-other_key t ts h key other)
])

get-store_retained :
    (key k : SubjectIssuer) (ts : List RevokedToken) (m : HashMap SubjectIssuer (List RevokedToken))
    → get k (store_retained key ts m) ≡ (if key_eq.eqb key k then listed ts else get k m)
get-store_retained key k [] m = get-remove key k m
get-store_retained key k (t ∷ ts) m = get-insert key k (t ∷ ts) m

listed_none : (ts : List RevokedToken) → listed ts ≡ none → ts ≡ []
listed_none [] h = refl
listed_none (t ∷ ts) h = ground arith

listed_some : (ts us : List RevokedToken) → listed ts ≡ some us → ts ≡ us
listed_some [] us h = ground arith
listed_some (t ∷ ts) us h = ground arith

abbrev removed : RevokedToken → RevocationStore → RevocationStore
removed t s = remove_from_indices t (record s { revoked_tokens = remove_token t s.revoked_tokens })

removed_by_key :
    (t : RevokedToken) (s : RevocationStore)
    → IsIndexed s
    → Only t s.revoked_tokens
    → (key : SubjectIssuer)
    → get key (removed t s).subject_issuer_index
      ≡ listed (filterb (has_key key) (remove_token t s.revoked_tokens))
unfolding remove_from_indices
removed_by_key t s h o key = elim (Option-cases (get (key_of t) s.subject_issuer_index)) [
  | inl absent ↦ ground (
    arith,
    absent,
    h.by_key key,
    h.by_key (key_of t),
    listed_none (filterb (has_key (key_of t)) s.revoked_tokens),
    filterb-remove_token t s.revoked_tokens o key,
    key_eq.eqb_iff (key_of t) key,
  )
  | inr (us, present) ↦ ground (
    arith,
    present,
    h.by_key key,
    h.by_key (key_of t),
    listed_some (filterb (has_key (key_of t)) s.revoked_tokens) us,
    get-store_retained (key_of t) key (filterb (other_jti t) us) s.subject_issuer_index,
    filterb-remove_token t s.revoked_tokens o key,
    key_eq.eqb_iff (key_of t) key,
  )
]

removed-IsIndexed :
    (t : RevokedToken) (s : RevocationStore)
    → IsIndexed s
    → Only t s.revoked_tokens
    → IsIndexed (removed t s)
unfolding remove_from_indices is_revoked
removed-IsIndexed t s h o = record {
  by_jti = λ jti. ground (
    arith,
    h.by_jti jti,
    get-remove t.jti jti s.jti_index,
    remove_token-jti t s.revoked_tokens o,
    anyb-other_jti t s.revoked_tokens jti,
  );
  by_key = removed_by_key t s h o;
}

filterb-true : (ts : List RevokedToken) → filterb (λ u. true) ts ≡ ts
filterb-true [] = refl
filterb-true (t ∷ ts) = ap (λ us. t ∷ us) (filterb-true ts)

-- The tokens that the loop of the removal leaves.
revoked_tokens-remove_tokens :
    (rs : List RevokedToken) (s : RevocationStore)
    → (remove_tokens rs s).revoked_tokens ≡ filterb (λ u. not (contains u rs)) s.revoked_tokens
unfolding remove_tokens remove_from_indices contains
revoked_tokens-remove_tokens [] s = sym (filterb-true s.revoked_tokens)
revoked_tokens-remove_tokens (t ∷ rs) s =
    revoked_tokens-remove_tokens rs (removed t s)
    ∙ filterb-filterb (λ u. not (contains u rs)) (λ u. not (u == t)) s.revoked_tokens
    ∙ filterb-ext (λ u. not (u == t) && not (contains u rs)) (λ u. not (contains u (t ∷ rs)))
        s.revoked_tokens (λ u. sym (not-contains u t rs))

abbrev pub unexpired : ℕ → RevokedToken → Bool
unexpired older_than t = not (ltb t.revoked_at older_than)

-- The clearing removes the expired tokens from the set, all of them and no other one, and counts
-- them.
pub clear_expired_revocations_lem :
    (older_than : ℕ) (s : RevocationStore)
    → let (count, s') = clear_expired_revocations older_than s in
      (s'.revoked_tokens ≡ filterb (unexpired older_than) s.revoked_tokens)
      × (count + length s'.revoked_tokens ≡ length s.revoked_tokens)
unfolding clear_expired_revocations
clear_expired_revocations_lem older_than s =
    let expired = filterb (λ t. ltb t.revoked_at older_than) s.revoked_tokens in
    let e =
      revoked_tokens-remove_tokens expired s
      ∙ filterb-without (λ t. ltb t.revoked_at older_than) s.revoked_tokens in
    (e, omega (arith, ap length e, length-filterb-le (unexpired older_than) s.revoked_tokens))

remove_tokens-IsIndexed :
    (rs : List RevokedToken) (s : RevocationStore)
    → IsIndexed s
    → All (λ t. Only t s.revoked_tokens) rs
    → IsIndexed (remove_tokens rs s)
unfolding remove_tokens remove_from_indices
remove_tokens-IsIndexed [] s h o = h
remove_tokens-IsIndexed (t ∷ rs) s h o =
    remove_tokens-IsIndexed rs (removed t s) (removed-IsIndexed t s h o.0) (
      All-map (λ u. Only u s.revoked_tokens) _
        (λ u. filterb-All (λ v. v.jti ≡ u.jti → v ≡ u) (λ v. not (v == t)) s.revoked_tokens) rs o.1)

pub clear_expired_revocations-IsIndexed :
    (older_than : ℕ) (s : RevocationStore)
    → IsIndexed s
    → All (λ t. Only t s.revoked_tokens) s.revoked_tokens
    → IsIndexed (clear_expired_revocations older_than s).1
unfolding clear_expired_revocations
clear_expired_revocations-IsIndexed older_than s h o =
    let p : RevokedToken → Bool = λ t. ltb t.revoked_at older_than in
    remove_tokens-IsIndexed (filterb p s.revoked_tokens) s h
      (filterb-All (λ t. Only t s.revoked_tokens) p s.revoked_tokens o)
