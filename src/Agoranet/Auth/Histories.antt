-- ===== src/Agoranet/Auth/Histories.antt =====
-- Histories of calls of the store of icn-agoranet/src/auth/revocation.rs, against the set of the
-- revoked tokens alone.
use icn_v.Base.{
  ℕ, String, ◌≡◌, refl, ap, sym, ◌∙◌, Bool, true, false, List, [], ◌∷◌, Option, none, some, arith,
  contains, filterb, anyb, All, All-append, All-map, filterb-All, string_eq, Bool-cases, inl, inr,
}
use icn_v.HashMap.{get}
use icn_v.Agoranet.Auth.Revocation.{
  RevokedToken, revoked_token_eq, RevocationStore, new_store, revoke_token, is_revoked,
  is_revoked_by_subject_issuer, get_revoked_tokens_for_subject_issuer, clear_expired_revocations,
}
use icn_v.Agoranet.Auth.Indices.{
  has_jti, has_key, listed, IsIndexed, added, revoked_tokens-revoke_token, revoke_token-IsIndexed,
}
use icn_v.Agoranet.Auth.Clearing.{
  Only, unexpired, clear_expired_revocations_lem, clear_expired_revocations-IsIndexed,
}

-- The calls that change the store.
pub data Operation : Type 0 where
  revoke : RevokedToken → Operation
  clear : ℕ → Operation

abbrev pub apply : Operation → RevocationStore → RevocationStore
apply (revoke t) s = (revoke_token t s).1
apply (clear older_than) s = (clear_expired_revocations older_than s).1

unfoldable pub run : List Operation → RevocationStore → RevocationStore
run [] s = s
run (op ∷ ops) s = run ops (apply op s)

-- The same calls on a plain list of tokens.
abbrev pub apply_spec : Operation → List RevokedToken → List RevokedToken
apply_spec (revoke t) ts = added t ts
apply_spec (clear older_than) ts = filterb (unexpired older_than) ts

unfoldable pub revoked_after : List Operation → List RevokedToken → List RevokedToken
revoked_after [] ts = ts
revoked_after (op ∷ ops) ts = revoked_after ops (apply_spec op ts)

-- An identifier names one token.
abbrev pub Names : (String → RevokedToken) → Operation → Type 0
Names name (revoke t) = name t.jti ≡ t
Names name (clear older_than) = Unit

abbrev AllNamed : (String → RevokedToken) → RevocationStore → Type 0
AllNamed name s = All (λ t. name t.jti ≡ t) s.revoked_tokens

module _ (name : String → RevokedToken) where
  named-Only : (ts : List RevokedToken) → All (λ t. name t.jti ≡ t) ts → All (λ t. Only t ts) ts
  named-Only ts h =
      All-map (λ t. name t.jti ≡ t) (λ t. Only t ts)
        (λ t e.
          All-map (λ u. name u.jti ≡ u) (λ u. u.jti ≡ t.jti → u ≡ t)
            (λ u f same. sym f ∙ ap name same ∙ e) ts h)
        ts h

  added-named :
      (t : RevokedToken) (ts : List RevokedToken)
      → name t.jti ≡ t
      → All (λ u. name u.jti ≡ u) ts
      → All (λ u. name u.jti ≡ u) (added t ts)
  added-named t ts e h = elim (Bool-cases (contains t ts)) [
    | inl old ↦ rw old h
    | inr fresh ↦ rw fresh (All-append (λ u. name u.jti ≡ u) ts (t ∷ []) h (e, tt))
  ]

  apply-IsIndexed :
      (op : Operation) (s : RevocationStore)
      → Names name op
      → IsIndexed s × AllNamed name s
      → (IsIndexed (apply op s) × AllNamed name (apply op s))
        × ((apply op s).revoked_tokens ≡ apply_spec op s.revoked_tokens)
  apply-IsIndexed (revoke t) s e (i, n) =
      let q = (revoked_tokens-revoke_token t s).0 in
      ((revoke_token-IsIndexed t s i, rw q (added-named t s.revoked_tokens e n)), q)
  apply-IsIndexed (clear older_than) s e (i, n) =
      let q = (clear_expired_revocations_lem older_than s).0 in
      (
        (
          clear_expired_revocations-IsIndexed older_than s i (named-Only s.revoked_tokens n),
          rw q (filterb-All (λ t. name t.jti ≡ t) (unexpired older_than) s.revoked_tokens n),
        ),
        q,
      )

  run-IsIndexed :
      (ops : List Operation) (s : RevocationStore)
      → All (Names name) ops
      → IsIndexed s × AllNamed name s
      → IsIndexed (run ops s) × ((run ops s).revoked_tokens ≡ revoked_after ops s.revoked_tokens)
  unfolding run revoked_after
  run-IsIndexed [] s h i = (i.0, refl)
  run-IsIndexed (op ∷ ops) s h i =
      let a = apply-IsIndexed op s h.0 i in
      let r = run-IsIndexed ops (apply op s) h.1 a.0 in (r.0, r.1 ∙ ap (revoked_after ops) a.1)

-- What the reads of the store give, from the set alone.
pub record Answers (s : RevocationStore) (ts : List RevokedToken) : Type 0 where
  pub tokens : s.revoked_tokens ≡ ts
  pub by_jti : (jti : String) → is_revoked jti s ≡ anyb (has_jti jti) ts
  pub by_key :
      (subject : String) (issuer : Option String)
      → is_revoked_by_subject_issuer subject issuer s ≡ anyb (has_key (subject, issuer)) ts
  pub of_key :
      (subject : String) (issuer : Option String)
      → get_revoked_tokens_for_subject_issuer subject issuer s
        ≡ filterb (has_key (subject, issuer)) ts

pub new_store-IsIndexed : IsIndexed new_store
unfolding is_revoked get
new_store-IsIndexed = record { by_jti = λ jti. refl; by_key = λ key. refl }

is_listed :
    (p : RevokedToken → Bool) (ts : List RevokedToken)
    → elim (listed (filterb p ts)) [ none ↦ false | some _ ↦ true ] ≡ anyb p ts
is_listed p [] = refl
is_listed p (t ∷ ts) = ground (arith, is_listed p ts)

pub by_key-anyb :
    (s : RevocationStore)
    → IsIndexed s
    → (subject : String) (issuer : Option String)
    → is_revoked_by_subject_issuer subject issuer s
      ≡ anyb (has_key (subject, issuer)) s.revoked_tokens
unfolding is_revoked_by_subject_issuer
by_key-anyb s i subject issuer =
    ap (λ (o : Option (List RevokedToken)). elim o [ none ↦ false | some _ ↦ true ])
      (i.by_key (subject, issuer))
    ∙ is_listed (has_key (subject, issuer)) s.revoked_tokens

all_listed : (ts : List RevokedToken) → elim (listed ts) [ none ↦ [] | some us ↦ us ] ≡ ts
all_listed [] = refl
all_listed (t ∷ ts) = refl

-- After any history of revocations and clearings of a new store in which an identifier names one
-- token, the store answers from its indices what a search of the tokens revoked and not expired
-- since gives: whether an identifier is revoked, whether a subject and issuer are, and their
-- tokens in the order of revocation.
pub run-Answers :
    (name : String → RevokedToken) (ops : List Operation)
    → All (Names name) ops
    → Answers (run ops new_store) (revoked_after ops [])
unfolding is_revoked_by_subject_issuer get_revoked_tokens_for_subject_issuer
run-Answers name ops h =
    let (i, q) = run-IsIndexed name ops new_store h (new_store-IsIndexed, tt) in
    let s = run ops new_store in
    rw (← q) (record {
      tokens = refl;
      by_jti = i.by_jti;
      by_key = by_key-anyb s i;
      of_key = λ subject issuer.
          ap (λ (o : Option (List RevokedToken)). elim o [ none ↦ [] | some us ↦ us ])
            (i.by_key (subject, issuer))
          ∙ all_listed (filterb (has_key (subject, issuer)) s.revoked_tokens);
    })
