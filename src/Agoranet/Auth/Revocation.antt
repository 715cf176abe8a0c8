-- ===== src/Agoranet/Auth/Revocation.antt =====
-- `RevokedToken`, the trait `TokenRevocationStore` and `InMemoryRevocationStore` of
-- icn-agoranet/src/auth/revocation.rs. The `HashSet` of the store is a list without duplicates, new
-- elements last; a `DateTime<Utc>` is the nanoseconds since the earliest one.
use icn_v.Base.{
  contains, ℕ, ◌-◌, String, ◌≡◌, ◌↔◌, Bool, true, false, not, ◌&&◌, List, [], ◌∷◌, ◌++◌, Option,
  none, some, if◌then◌else◌, nat_beq, nat_beq_iff, ltb, arith, length, filterb, PartialEq,
  string_eq, pair_eq, option_eq, ◌==◌, Result, ok, err,
}
use icn_v.HashMap.{HashMap, get, get_or, insert, remove, contains_key}
use icn_v.Agoranet.Auth.Types.{AuthError}

pub record RevokedToken : Type 0 where
  pub jti : String
  pub subject : String
  pub issuer : Option String
  pub revoked_at : ℕ
  pub reason : Option String
  pub revoked_by : String

abbrev text_option : PartialEq (Option String)
text_option = option_eq

unfoldable pub revoked_token_eqb : RevokedToken → RevokedToken → Bool
revoked_token_eqb a b =
    string_eq.eqb a.jti b.jti
    && (string_eq.eqb a.subject b.subject
        && (text_option.eqb a.issuer b.issuer
            && (nat_beq a.revoked_at b.revoked_at
                && (text_option.eqb a.reason b.reason && string_eq.eqb a.revoked_by b.revoked_by))))

pub revoked_token_eqb_iff : (a b : RevokedToken) → (revoked_token_eqb a b ≡ true) ↔ (a ≡ b)
unfolding revoked_token_eqb
revoked_token_eqb_iff a b = ground (
  arith,
  string_eq.eqb_iff a.jti b.jti,
  string_eq.eqb_iff a.subject b.subject,
  text_option.eqb_iff a.issuer b.issuer,
  nat_beq_iff a.revoked_at b.revoked_at,
  text_option.eqb_iff a.reason b.reason,
  string_eq.eqb_iff a.revoked_by b.revoked_by,
)

instance unfoldable pub revoked_token_eq : PartialEq RevokedToken
unfolding revoked_token_eqb
revoked_token_eq = record { eqb = revoked_token_eqb; eqb_iff = revoked_token_eqb_iff }

-- The key (subject, issuer) of the second index.
abbrev pub SubjectIssuer : Type 0
SubjectIssuer = String × Option String

abbrev pub key_eq : PartialEq SubjectIssuer
key_eq = pair_eq

abbrev pub key_of : RevokedToken → SubjectIssuer
key_of t = (t.subject, t.issuer)

pub record RevocationStore : Type 0 where
  pub revoked_tokens : List RevokedToken
  pub jti_index : HashMap String RevokedToken
  pub subject_issuer_index : HashMap SubjectIssuer (List RevokedToken)

-- The trait, over the state of an implementation.
pub record TokenRevocationStore (S : Type 0) : Type 0 where
  pub revoke_token : RevokedToken → S → Bool × S
  pub is_revoked : String → S → Bool
  pub is_revoked_by_subject_issuer : String → Option String → S → Bool
  pub get_revoked_tokens_for_subject : String → S → List RevokedToken
  pub get_revoked_tokens_for_subject_issuer : String → Option String → S → List RevokedToken
  pub clear_expired_revocations : ℕ → S → ℕ × S

abbrev pub new_store : RevocationStore
new_store = record { revoked_tokens = []; jti_index = []; subject_issuer_index = [] }

unfoldable pub add_to_indices : RevokedToken → RevocationStore → RevocationStore
add_to_indices t s = record s {
  jti_index = insert t.jti t s.jti_index;
  subject_issuer_index =
      insert (key_of t) (get_or (key_of t) [] s.subject_issuer_index ++ t ∷ [])
        s.subject_issuer_index;
}

-- `tokens.retain(…)`, and the removal of an entry that it leaves empty.
abbrev pub store_retained :
    SubjectIssuer
    → List RevokedToken
    → HashMap SubjectIssuer (List RevokedToken)
    → HashMap SubjectIssuer (List RevokedToken)
store_retained key [] m = remove key m
store_retained key (t ∷ ts) m = insert key (t ∷ ts) m

unfoldable pub remove_from_indices : RevokedToken → RevocationStore → RevocationStore
remove_from_indices t s = record s {
  jti_index = remove t.jti s.jti_index;
  subject_issuer_index = elim (get (key_of t) s.subject_issuer_index) [
    | none ↦ s.subject_issuer_index
    | some ts ↦
        store_retained (key_of t) (filterb (λ u. not (string_eq.eqb u.jti t.jti)) ts)
          s.subject_issuer_index
  ];
}

unfoldable pub revoke_token : RevokedToken → RevocationStore → Bool × RevocationStore
revoke_token t s =
    let inserted = not (contains t s.revoked_tokens) in
    if inserted
    then (true, add_to_indices t (record s { revoked_tokens = s.revoked_tokens ++ t ∷ [] }))
    else (false, s)

unfoldable pub is_revoked : String → RevocationStore → Bool
is_revoked jti s = contains_key jti s.jti_index

unfoldable pub is_revoked_by_subject_issuer : String → Option String → RevocationStore → Bool
is_revoked_by_subject_issuer subject issuer s =
    contains_key (subject, issuer) s.subject_issuer_index

-- `iter().filter(|((s, _), _)| s == subject).flat_map(|(_, tokens)| tokens.clone())`
unfoldable pub tokens_of_subject :
    String → HashMap SubjectIssuer (List RevokedToken) → List RevokedToken
tokens_of_subject subject [] = []
tokens_of_subject subject ((key, ts) ∷ m) =
    if string_eq.eqb key.0 subject
    then ts ++ tokens_of_subject subject m
    else tokens_of_subject subject m

unfoldable pub get_revoked_tokens_for_subject : String → RevocationStore → List RevokedToken
get_revoked_tokens_for_subject subject s = tokens_of_subject subject s.subject_issuer_index

unfoldable pub get_revoked_tokens_for_subject_issuer :
    String → Option String → RevocationStore → List RevokedToken
get_revoked_tokens_for_subject_issuer subject issuer s =
    get_or (subject, issuer) [] s.subject_issuer_index

-- `store.remove(token)`, and the loop over the tokens to remove.
abbrev pub remove_token : RevokedToken → List RevokedToken → List RevokedToken
remove_token t ts = filterb (λ u. not (u == t)) ts

unfoldable pub remove_tokens : List RevokedToken → RevocationStore → RevocationStore
remove_tokens [] s = s
remove_tokens (t ∷ ts) s =
    remove_tokens ts
      (remove_from_indices t (record s { revoked_tokens = remove_token t s.revoked_tokens }))

unfoldable pub clear_expired_revocations : ℕ → RevocationStore → ℕ × RevocationStore
clear_expired_revocations older_than s =
    let to_remove = filterb (λ t. ltb t.revoked_at older_than) s.revoked_tokens in
    let s' = remove_tokens to_remove s in (length s.revoked_tokens - length s'.revoked_tokens, s')

-- `impl TokenRevocationStore for InMemoryRevocationStore`
unfoldable pub in_memory_store : TokenRevocationStore RevocationStore
in_memory_store = record {
  revoke_token = revoke_token;
  is_revoked = is_revoked;
  is_revoked_by_subject_issuer = is_revoked_by_subject_issuer;
  get_revoked_tokens_for_subject = get_revoked_tokens_for_subject;
  get_revoked_tokens_for_subject_issuer = get_revoked_tokens_for_subject_issuer;
  clear_expired_revocations = clear_expired_revocations;
}

module _ {S : Type 0} (store : TokenRevocationStore S) where
  unfoldable pub check_token_not_revoked : Option String → S → Result (Unit {0}) AuthError
  check_token_not_revoked none s = ok tt
  check_token_not_revoked (some token_id) s =
      if store.is_revoked token_id s then err AuthError.token_revoked else ok tt

  unfoldable pub check_subject_not_revoked :
      String → Option String → S → Result (Unit {0}) AuthError
  check_subject_not_revoked subject issuer s =
      if store.is_revoked_by_subject_issuer subject issuer s
      then err AuthError.token_revoked
      else ok tt
