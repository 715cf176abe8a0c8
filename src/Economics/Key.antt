-- ===== src/Economics/Key.antt =====
-- `ResourceType` (icn-types/src/resource.rs) and `LedgerKey` (icn-economics/src/economics.rs).
use icn_v.Base.{
  ℕ, ◌≤◌, String, ◌≡◌, ◌↔◌, ◌⊎◌, Bool, true, false, ◌&&◌, Option, arith, PartialEq, nat_beq,
  if◌then◌else◌, string_eq, option_beq, option_beq_iff,
}

pub data ResourceType : Type 0 where
  cpu memory io token : ResourceType

abbrev pub resource_beq : ResourceType → ResourceType → Bool
resource_beq ResourceType.cpu ResourceType.cpu = true
resource_beq ResourceType.memory ResourceType.memory = true
resource_beq ResourceType.io ResourceType.io = true
resource_beq ResourceType.token ResourceType.token = true
resource_beq _ _ = false

pub resource_beq_iff : (a b : ResourceType) → (resource_beq a b ≡ true) ↔ (a ≡ b)
resource_beq_iff a b = ground arith

instance abbrev pub resource_eq : PartialEq ResourceType
resource_eq = record { eqb = resource_beq; eqb_iff = resource_beq_iff }

-- The discriminants of `#[repr(u32)]`.
unfoldable pub to_u32 : ResourceType → ℕ
to_u32 ResourceType.cpu = 1
to_u32 ResourceType.memory = 2
to_u32 ResourceType.io = 3
to_u32 ResourceType.token = 4

-- `impl From<u32> for ResourceType`
unfoldable pub from_u32 : ℕ → ResourceType
from_u32 v =
    if nat_beq v 1
    then ResourceType.cpu
    else if nat_beq v 2
    then ResourceType.memory
    else if nat_beq v 3
    then ResourceType.io
    else ResourceType.token

pub record LedgerKey : Type 0 where
  pub did : String
  pub coop_id : Option String
  pub community_id : Option String
  pub resource_type : ResourceType

unfoldable pub key_beq : LedgerKey → LedgerKey → Bool
key_beq a b =
    string_eq.eqb a.did b.did
    && (option_beq a.coop_id b.coop_id
        && (option_beq a.community_id b.community_id
            && resource_beq a.resource_type b.resource_type))

pub key_beq_iff : (a b : LedgerKey) → (key_beq a b ≡ true) ↔ (a ≡ b)
unfolding key_beq
key_beq_iff a b = ground (
  arith,
  string_eq.eqb_iff a.did b.did,
  option_beq_iff a.coop_id b.coop_id,
  option_beq_iff a.community_id b.community_id,
  resource_beq_iff a.resource_type b.resource_type,
)

instance unfoldable pub key_eq : PartialEq LedgerKey
unfolding key_beq
key_eq = record { eqb = key_beq; eqb_iff = key_beq_iff }

-- Every resource type survives the trip through its number, and every number from 1 to 4 the trip
-- back; any other number is read as `Token`.
pub from_u32-to_u32 :
    ((r : ResourceType) → from_u32 (to_u32 r) ≡ r)
    × ((v : ℕ) → 1 ≤ v → v ≤ 4 → to_u32 (from_u32 v) ≡ v)
    × ((v : ℕ) → (v ≡ 0) ⊎ (4 ≤ v) → from_u32 v ≡ ResourceType.token)
unfolding from_u32 to_u32
from_u32-to_u32 = (λ r. ground arith, λ v lo hi. ground arith, λ v h. ground arith)
