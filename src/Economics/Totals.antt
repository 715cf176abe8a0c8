-- ===== src/Economics/Totals.antt =====
-- The totals of icn-economics/src/economics.rs (`get_total_usage`, `get_cooperative_usage`,
-- `get_community_usage`) against the operations that change the ledger.
use icn_v.Base.{
  ℕ, ◌+◌, ◌-◌, ◌≤◌, ◌<◌, String, ◌≡◌, refl, ◌≢◌, ◌↔◌, Bool, true, [], ◌∷◌, Option, arith,
  if◌then◌else◌, u64_size, wrap64, pos, min, filterb, sum_by, sum64_by_lem, sum64_by,
}
use icn_v.HashMap.{get_or, insert}
use icn_v.HashMap.Laws.{get-insert_ne}
use icn_v.HashMap.Sums.{sum_by-insert}
use icn_v.Economics.Key.{ResourceType, resource_beq_iff, LedgerKey, key_eq}
use icn_v.Economics.Ledger.{
  Ledger, account, record_usage, TransferArgs, sender_key, recipient_key, move_tokens, transfer,
  is_of_type, is_of_coop, is_of_community, get_total_usage, get_cooperative_usage,
  get_community_usage,
}
use icn_v.Economics.Transfer.{available}

-- The usage of an entry, if it is counted.
abbrev counted : (LedgerKey × ℕ → Bool) → LedgerKey × ℕ → ℕ
counted p e = if p e then e.1 else 0

sum_by-filterb :
    (p : LedgerKey × ℕ → Bool) (l : Ledger) → sum_by (λ e. e.1) (filterb p l) ≡ sum_by (counted p) l
sum_by-filterb p [] = refl
sum_by-filterb p (e ∷ l) = ground (arith, sum_by-filterb p l)

-- The unbounded sum of the usage of one resource.
abbrev pub total : ResourceType → Ledger → ℕ
total rt = sum_by (counted (is_of_type rt))

get_total_usage_lem : (rt : ResourceType) (l : Ledger) → get_total_usage rt l ≡ wrap64 (total rt l)
unfolding get_total_usage
get_total_usage_lem rt l =
    rw (sum64_by_lem (λ e. e.1) (filterb (is_of_type rt) l), sum_by-filterb (is_of_type rt) l)

-- Recording usage answers 0 and raises the total of its own resource by the amount, modulo 2^64;
-- the total of every other resource stays.
pub get_total_usage-record_usage :
    (who : String) (coop comm : Option String) (rt : ResourceType) (amt : ℕ) (l : Ledger)
    → let (code, l') = record_usage who coop comm rt amt l in
      (code ≡ pos 0)
      × (get_total_usage rt l' ≡ wrap64 (get_total_usage rt l + amt))
      × ((other : ResourceType) → other ≢ rt → get_total_usage other l' ≡ get_total_usage other l)
unfolding record_usage
get_total_usage-record_usage who coop comm rt amt l =
    let key = account who coop comm rt in
    let v = wrap64 (get_or key 0 l + amt) in
    (
      refl,
      ground (
        arith,
        get_total_usage_lem rt l,
        get_total_usage_lem rt (insert key v l),
        sum_by-insert (counted (is_of_type rt)) key v l,
        resource_beq_iff rt rt,
      ),
      λ other ne. ground (
        arith,
        get_total_usage_lem other l,
        get_total_usage_lem other (insert key v l),
        sum_by-insert (counted (is_of_type other)) key v l,
        resource_beq_iff rt other,
      ),
    )

move_tokens-total :
    (from to : LedgerKey) (amt : ℕ) (l : Ledger)
    → from.resource_type ≡ ResourceType.token
    → to.resource_type ≡ ResourceType.token
    → from ≢ to
    → get_or from 0 l < u64_size
    → amt ≤ available from l
    → total ResourceType.token (move_tokens from to amt l).1 + min amt (get_or to 0 l)
      ≡ total ResourceType.token l + amt
unfolding move_tokens
move_tokens-total from to amt l ft tt' ne small cover =
    let f = counted (is_of_type ResourceType.token) in
    let v = wrap64 (get_or from 0 l + amt) in
    let w = get_or to 0 (insert from v l) - amt in
    ground (
      arith,
      sum_by-insert f from v l,
      sum_by-insert f to w (insert from v l),
      get-insert_ne from to v l ne,
      resource_beq_iff from.resource_type ResourceType.token,
      resource_beq_iff to.resource_type ResourceType.token,
    )

-- A covered transfer of tokens between two accounts raises the sum of all token usage by the part
-- of the amount that the recipient's usage does not absorb: the sum stays exactly when the
-- recipient has used at least the amount, and otherwise tokens are lost.
pub transfer-total :
    (a : TransferArgs) (l : Ledger)
    → a.rt ≡ ResourceType.token
    → sender_key a ≢ recipient_key a
    → get_or (sender_key a) 0 l < u64_size
    → a.amt ≤ available (sender_key a) l
    → (total ResourceType.token (transfer a l).1
        ≡ total ResourceType.token l + (a.amt - get_or (recipient_key a) 0 l))
      × ((total ResourceType.token (transfer a l).1 ≡ total ResourceType.token l)
          ↔ (a.amt ≤ get_or (recipient_key a) 0 l))
unfolding transfer
transfer-total a l t ne small cover =
    rw ((resource_beq_iff a.rt ResourceType.token).1 t) (omega (arith, fact), omega (arith, fact))
  where
    fact :
        total ResourceType.token (move_tokens (sender_key a) (recipient_key a) a.amt l).1
          + min a.amt (get_or (recipient_key a) 0 l)
        ≡ total ResourceType.token l + a.amt
    fact = move_tokens-total (sender_key a) (recipient_key a) a.amt l t t ne small cover

-- What one cooperative or one community has used of a resource is part of what all have used, as
-- long as the sum of the latter is a `u64`.
pub get_cooperative_usage-le-total :
    (org : String) (rt : ResourceType) (l : Ledger)
    → total rt l < u64_size
    → (get_cooperative_usage org rt l ≤ get_total_usage rt l)
      × (get_community_usage org rt l ≤ get_total_usage rt l)
unfolding get_cooperative_usage get_community_usage
get_cooperative_usage-le-total org rt l fits = (
  part (is_of_coop org rt) (λ e. ground arith),
  part (is_of_community org rt) (λ e. ground arith),
)
  where
    below :
        (p : LedgerKey × ℕ → Bool)
        → ((e : LedgerKey × ℕ) → p e ≡ true → is_of_type rt e ≡ true)
        → (m : Ledger) → sum_by (counted p) m ≤ total rt m
    below p imp [] = omega arith
    below p imp (e ∷ m) = ground (arith, below p imp m, imp e)

    part :
        (p : LedgerKey × ℕ → Bool)
        → ((e : LedgerKey × ℕ) → p e ≡ true → is_of_type rt e ≡ true)
        → sum64_by (λ e. e.1) (filterb p l) ≤ get_total_usage rt l
    part p imp = omega (
      arith,
      sum64_by_lem (λ (e : LedgerKey × ℕ). e.1) (filterb p l),
      sum_by-filterb p l,
      get_total_usage_lem rt l,
      below p imp l,
    )
