-- ===== src/Agoranet/Types.antt =====
-- `EntityType`, `EntityRef` and `Transfer` (icn-agoranet/src/models.rs), and the query, the answers
-- and the errors of icn-agoranet/src/transfers.rs. A `Uuid` is a number below 2 ^ 128, a
-- `DateTime<Utc>` the nanoseconds since the earliest one, and the type of JSON values a parameter.
use icn_v.Base.{
  ℕ, String, ◌≡◌, ◌↔◌, Bool, List, Option, arith, PartialEq, nat_beq, true, pair_eq, string_eq,
}

pub data EntityType : Type 0 where
  user organization asset contract resource_provider : EntityType

-- The position of the variant, by which `#[derive(PartialEq)]` compares.
abbrev discriminant : EntityType → ℕ
discriminant EntityType.user = 0
discriminant EntityType.organization = 1
discriminant EntityType.asset = 2
discriminant EntityType.contract = 3
discriminant EntityType.resource_provider = 4

unfoldable pub entity_type_beq : EntityType → EntityType → Bool
entity_type_beq a b = nat_beq (discriminant a) (discriminant b)

pub entity_type_beq_iff : (a b : EntityType) → (entity_type_beq a b ≡ true) ↔ (a ≡ b)
unfolding entity_type_beq
entity_type_beq_iff a b = ground arith

instance unfoldable pub entity_type_eq : PartialEq EntityType
unfolding entity_type_beq
entity_type_eq = record { eqb = entity_type_beq; eqb_iff = entity_type_beq_iff }

-- The key of a balance: the identifier and the type.
abbrev pub BalanceKey : Type 0
BalanceKey = String × EntityType

instance unfoldable pub balance_key_eq : PartialEq BalanceKey
balance_key_eq = pair_eq

pub record EntityRef : Type 0 where
  pub entity_type : EntityType
  pub id : String

pub record Transfer (Value : Type 0) : Type 0 where
  pub tx_id : ℕ
  pub federation_id : String
  pub from : EntityRef
  pub to : EntityRef
  pub amount : ℕ
  pub fee : ℕ
  pub initiator : String
  pub timestamp : ℕ
  pub memo : Option String
  pub metadata : Option Value

pub data TransferError : Type 0 where
  insufficient_balance invalid_amount federation_mismatch : TransferError
  entity_not_found internal : String → TransferError
  transfer_not_found : ℕ → TransferError

pub record TransferQuery : Type 0 where
  pub federation_id : Option String
  pub entity_id : Option String
  pub entity_type : Option EntityType
  pub from_only : Option Bool
  pub to_only : Option Bool
  pub start_date : Option ℕ
  pub end_date : Option ℕ
  pub min_amount : Option ℕ
  pub max_amount : Option ℕ
  pub limit : Option ℕ
  pub offset : Option ℕ

pub record LedgerStats : Type 0 where
  pub total_transfers : ℕ
  pub total_volume : ℕ
  pub total_fees : ℕ
  pub total_entities : ℕ
  pub active_entities : ℕ
  pub highest_balance_entity : Option EntityRef
  pub highest_balance : ℕ
  pub transfers_last_24h : ℕ
  pub volume_last_24h : ℕ

pub record BatchTransferResponse : Type 0 where
  pub successful : ℕ
  pub failed : ℕ
  pub successful_ids : List ℕ
  pub failed_transfers : List (ℕ × String)
  pub total_transferred : ℕ
  pub total_fees : ℕ
