-- ===== src/Agoranet/Tests.antt =====
-- Runs of the ledger of balances, and its theorems at concrete transfers.
use icn_v.Agoranet.Answers.{Wanted, Page}
use icn_v.Base.{◌↔◌, List, true}
use icn_v.Base.{
  ℕ, ◌+◌, ◌≤◌, ◌<◌, ◌≡◌, refl, ◌≢◌, ◌⊎◌, true, Bool, List, [], ◌∷◌, ◌++◌, map, none, some, arith,
  wrap64, ok, length, sum_by, filterb, string_eq,
}
use icn_v.HashMap.{get, insert}
use icn_v.Agoranet.Types.{
  EntityType, EntityRef, balance_key_eq, entity_type_eq, entity_type_beq, Transfer, TransferQuery,
}
use icn_v.Agoranet.Ledger.{
  Ledger, key_of, get_balance, process_transfer, process_batch_transfer, move_balances, set_balance,
  add_fee,
}
use icn_v.Agoranet.Balances.{supply, Moved, Refused, process_transfer-Moved}
use icn_v.Agoranet.Batch.{process_batch_transfer_lem}
use icn_v.Agoranet.Query.{
  matches, query_transfers, entity_matches, sort_newest, insert_newest, skip, truncate,
}
use icn_v.Agoranet.Sorting.{Newest, number}
use icn_v.Agoranet.Answers.{query_transfers-Answer}

abbrev alice : EntityRef
alice = record { entity_type = EntityType.user; id = "alice" }

abbrev works : EntityRef
works = record { entity_type = EntityType.organization; id = "works" }

abbrev payment : Transfer ℕ
payment = record {
  tx_id = 1;
  federation_id = "fed";
  from = alice;
  to = works;
  amount = 30;
  fee = 2;
  initiator = "alice";
  timestamp = 100;
  memo = none;
  metadata = none;
}

abbrev ledger : Ledger ℕ
ledger = record {
  balances = (("alice", EntityType.user), 50) ∷ (("works", EntityType.organization), 7) ∷ [];
  transfers = record payment { tx_id = 9; timestamp = 80 } ∷ [];
  federation_stats = ("fed", 0) ∷ [];
}

paid : process_transfer payment ledger ≡ (
  ok payment,
  record {
    balances = (("alice", EntityType.user), 18) ∷ (("works", EntityType.organization), 37) ∷ [];
    transfers = record payment { tx_id = 9; timestamp = 80 } ∷ payment ∷ [];
    federation_stats = ("fed", 2) ∷ [];
  },
)
unfolding process_transfer move_balances set_balance get_balance add_fee get insert balance_key_eq
    entity_type_eq entity_type_beq
paid = refl

process_transfer-Moved_example :
    ((0 < 30)
      × (32 ≤ get_balance alice ledger)
      × Moved payment ledger (process_transfer payment ledger))
    ⊎ Refused payment ledger (process_transfer payment ledger)
process_transfer-Moved_example = process_transfer-Moved payment ledger (omega arith) (omega arith)

-- The second payment is no longer covered.
abbrev batch : List (Transfer ℕ)
batch = payment ∷ record payment { tx_id = 2 } ∷ record payment { tx_id = 3; amount = 5 } ∷ []

process_batch_transfer_lem_example :
    let (r, l) = process_batch_transfer (λ n. "id") batch ledger in
    (done : List (Transfer ℕ)) × (l.transfers ≡ ledger.transfers ++ done)
    × (r.successful_ids ≡ map (λ t. t.tx_id) done)
    × (r.successful ≡ length done)
    × (r.successful + r.failed ≡ 3)
    × (length r.failed_transfers ≡ r.failed)
    × (supply l + r.total_fees ≡ 57)
    × (r.total_transferred ≡ wrap64 (sum_by (λ t. t.amount) done))
process_batch_transfer_lem_example =
    process_batch_transfer_lem (λ n. "id") batch ledger (omega arith)
      (omega arith, (omega arith, (omega arith, tt)))

-- The amount and the fee add up to 2 ^ 64 + 1.
abbrev huge : Transfer ℕ
huge = record payment { amount = 18446744073709551600; fee = 17 }

abbrev poor : Ledger ℕ
poor = record ledger {
  balances = (("alice", EntityType.user), 1) ∷ (("works", EntityType.organization), 7) ∷ [];
}

balances_of_poor : (get_balance alice poor ≡ 1) × (get_balance works poor ≡ 7)
unfolding get_balance get balance_key_eq entity_type_eq entity_type_beq
balances_of_poor = (refl, refl)

alice≢works : key_of alice ≢ key_of works
alice≢works = λ e. ground arith

abbrev query : TransferQuery
query = record {
  federation_id = some "fed";
  entity_id = some "alice";
  entity_type = none;
  from_only = some true;
  to_only = none;
  start_date = some 90;
  end_date = none;
  min_amount = some 10;
  max_amount = none;
  limit = some 2;
  offset = some 0;
}

abbrev history : List (Transfer ℕ)
history =
    payment
    ∷ record payment { tx_id = 2; timestamp = 120 }
    ∷ record payment { tx_id = 3; timestamp = 80 }
    ∷ record payment { tx_id = 4; timestamp = 110 }
    ∷ []

latest_two : map (λ t. t.tx_id) (query_transfers query history) ≡ 2 ∷ 4 ∷ []
unfolding query_transfers matches entity_matches sort_newest insert_newest skip truncate
latest_two = refl

query_transfers-Answer_example :
    (wanted : Transfer ℕ → Bool) × ((t : Transfer ℕ) → (wanted t ≡ true) ↔ Wanted query t)
    × (sorted : List (Transfer ℕ)) × Newest sorted
    × ((p : Transfer ℕ → Bool) → number p sorted ≡ number p (filterb wanted history))
    × Page query.offset query.limit (query_transfers query history) sorted
query_transfers-Answer_example = query_transfers-Answer query history
