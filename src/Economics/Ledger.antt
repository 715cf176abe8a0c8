-- ===== src/Economics/Ledger.antt =====
-- The methods of `Economics` (icn-economics/src/economics.rs) that work on the ledger, a
-- `RwLock<HashMap<LedgerKey, u64>>`.
use icn_v.Base.{
  ℕ, ◌+◌, ◌-◌, String, Bool, false, ◌&&◌, not, Option, none, some, if◌then◌else◌, ltb, wrap64,
  saturating_sub, ℤ, pos, negsuc, filterb, sum64_by, string_eq, ◌==◌,
}
use icn_v.HashMap.{HashMap, get_or, insert}
use icn_v.Economics.Key.{ResourceType, resource_beq, LedgerKey, key_eq}

abbrev pub Ledger : Type 0
Ledger = HashMap LedgerKey ℕ

-- The key that each method builds from its arguments.
abbrev pub account : String → Option String → Option String → ResourceType → LedgerKey
account did coop comm rt = record {
  did = did;
  coop_id = coop;
  community_id = comm;
  resource_type = rt;
}

-- `record`: `*l.entry(key).or_insert(0) += amt`
unfoldable pub record_usage :
    String → Option String → Option String → ResourceType → ℕ → Ledger → ℤ × Ledger
record_usage caller coop comm rt amt l =
    let key = account caller coop comm rt in (pos 0, insert key (wrap64 (get_or key 0 l + amt)) l)

unfoldable pub mint :
    String → Option String → Option String → ResourceType → ℕ → Ledger → ℤ × Ledger
mint recipient coop comm rt amt l =
    if not (resource_beq rt ResourceType.token)
    then (negsuc 2, l)
    else let key = account recipient coop comm rt in
      let current = get_or key 0 l in
      (pos 0, insert key (if ltb current amt then 0 else current - amt) l)

-- `struct TransferArgs`
pub record TransferArgs : Type 0 where
  pub sender : String
  pub sender_coop_id : Option String
  pub sender_community_id : Option String
  pub recipient : String
  pub recipient_coop_id : Option String
  pub recipient_community_id : Option String
  pub rt : ResourceType
  pub amt : ℕ

abbrev pub sender_key : TransferArgs → LedgerKey
sender_key a = account a.sender a.sender_coop_id a.sender_community_id a.rt

abbrev pub recipient_key : TransferArgs → LedgerKey
recipient_key a = account a.recipient a.recipient_coop_id a.recipient_community_id a.rt

-- "Maximum token allowance"
abbrev pub token_max : ℕ
token_max = 100

-- The body after the check of the resource type, over the two keys.
unfoldable pub move_tokens : LedgerKey → LedgerKey → ℕ → Ledger → ℤ × Ledger
move_tokens from to amt l =
    let sender_usage = get_or from 0 l in
    if ltb (saturating_sub token_max sender_usage) amt
    then (negsuc 0, l)
    else let l1 = insert from (wrap64 (sender_usage + amt)) l in
      let recipient_usage = get_or to 0 l1 in
      (pos 0, insert to (saturating_sub recipient_usage amt) l1)

unfoldable pub transfer : TransferArgs → Ledger → ℤ × Ledger
transfer a l =
    if not (resource_beq a.rt ResourceType.token)
    then (negsuc 2, l)
    else move_tokens (sender_key a) (recipient_key a) a.amt l

unfoldable pub get_usage : String → Option String → Option String → ResourceType → Ledger → ℕ
get_usage caller coop comm rt l = get_or (account caller coop comm rt) 0 l

-- `is_some_and(|cid| cid == id)`
abbrev is_some_eq : Option String → String → Bool
is_some_eq none id = false
is_some_eq (some c) id = c == id

-- The entries that each of the three totals adds up.
abbrev pub is_of_type : ResourceType → LedgerKey × ℕ → Bool
is_of_type rt e = resource_beq e.0.resource_type rt

abbrev pub is_of_coop : String → ResourceType → LedgerKey × ℕ → Bool
is_of_coop coop rt e = resource_beq e.0.resource_type rt && is_some_eq e.0.coop_id coop

abbrev pub is_of_community : String → ResourceType → LedgerKey × ℕ → Bool
is_of_community comm rt e = resource_beq e.0.resource_type rt && is_some_eq e.0.community_id comm

unfoldable pub get_total_usage : ResourceType → Ledger → ℕ
get_total_usage rt l = sum64_by (λ e. e.1) (filterb (is_of_type rt) l)

unfoldable pub get_cooperative_usage : String → ResourceType → Ledger → ℕ
get_cooperative_usage coop rt l = sum64_by (λ e. e.1) (filterb (is_of_coop coop rt) l)

unfoldable pub get_community_usage : String → ResourceType → Ledger → ℕ
get_community_usage comm rt l = sum64_by (λ e. e.1) (filterb (is_of_community comm rt) l)
