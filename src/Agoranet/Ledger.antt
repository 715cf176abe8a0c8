-- ===== src/Agoranet/Ledger.antt =====
-- `Ledger` of icn-agoranet/src/transfers.rs: balances, single and batch transfers.
use icn_v.Base.{
  ℕ, ◌+◌, String, List, [], ◌∷◌, ◌++◌, Option, none, some, if◌then◌else◌, nat_beq, ltb, wrap64,
  sub64, Result, ok, err, string_eq, prefixed,
}
use icn_v.HashMap.{HashMap, get, get_or, insert}
use icn_v.Agoranet.Types.{
  EntityRef, BalanceKey, balance_key_eq, Transfer, TransferError, BatchTransferResponse,
}

pub record Ledger (Value : Type 0) : Type 0 where
  pub balances : HashMap BalanceKey ℕ
  pub transfers : List (Transfer Value)
  pub federation_stats : HashMap String ℕ

abbrev pub key_of : EntityRef → BalanceKey
key_of e = (e.id, e.entity_type)

-- `Ledger::new`
abbrev pub new_ledger : {Value : Type 0} → Ledger Value
new_ledger = record { balances = []; transfers = []; federation_stats = [] }

-- The texts of the errors.
abbrev pub to_text : (ℕ → String) → TransferError → String
to_text show TransferError.insufficient_balance = "insufficient balance"
to_text show TransferError.invalid_amount = "invalid amount"
to_text show TransferError.federation_mismatch = "federation mismatch"
to_text show (TransferError.entity_not_found e) = prefixed "entity not found: " (e)
to_text show (TransferError.internal e) = prefixed "internal error: " (e)
to_text show (TransferError.transfer_not_found id) = prefixed "transfer not found: " (show id)

-- `if let Some(stats) = self.federation_stats.get_mut(…) { *stats += transfer.fee }`
unfoldable pub add_fee : String → ℕ → HashMap String ℕ → HashMap String ℕ
add_fee federation fee stats = elim (get federation stats) [
  | none ↦ stats
  | some total ↦ insert federation (wrap64 (total + fee)) stats
]

abbrev pub empty_response : BatchTransferResponse
empty_response = record {
  successful = 0;
  failed = 0;
  successful_ids = [];
  failed_transfers = [];
  total_transferred = 0;
  total_fees = 0;
}

module _ {Value : Type 0} where
  unfoldable pub get_balance : EntityRef → Ledger Value → ℕ
  get_balance entity l = get_or (key_of entity) 0 l.balances

  unfoldable pub set_balance : EntityRef → ℕ → Ledger Value → Ledger Value
  set_balance entity balance l = record l { balances = insert (key_of entity) balance l.balances }

  -- The changes of balances of a transfer that passed the checks.
  unfoldable pub move_balances : Transfer Value → Ledger Value → Ledger Value
  move_balances t l =
      let new_from_balance = sub64 (sub64 (get_balance t.from l) t.amount) t.fee in
      let l1 = set_balance t.from new_from_balance l in
      let new_to_balance = wrap64 (get_balance t.to l1 + t.amount) in
      set_balance t.to new_to_balance l1

  unfoldable pub process_transfer :
      Transfer Value → Ledger Value → Result (Transfer Value) TransferError × Ledger Value
  process_transfer t l =
      if nat_beq t.amount 0
      then (err TransferError.invalid_amount, l)
      else if ltb (get_balance t.from l) (wrap64 (t.amount + t.fee))
      then (err TransferError.insufficient_balance, l)
      else let l2 = move_balances t l in
        (
          ok t,
          record l2 {
            transfers = l2.transfers ++ t ∷ [];
            federation_stats = add_fee t.federation_id t.fee l2.federation_stats;
          },
        )

  -- What the loop of `process_batch_transfer` adds to the response for one outcome.
  abbrev pub respond :
      (ℕ → String)
      → ℕ
      → Result (Transfer Value) TransferError
      → BatchTransferResponse
      → BatchTransferResponse
  respond show index (ok t) r = record r {
    successful = r.successful + 1;
    successful_ids = r.successful_ids ++ t.tx_id ∷ [];
    total_transferred = wrap64 (r.total_transferred + t.amount);
    total_fees = wrap64 (r.total_fees + t.fee);
  }
  respond show index (err e) r = record r {
    failed = r.failed + 1;
    failed_transfers = r.failed_transfers ++ (index, to_text show e) ∷ [];
  }

  unfoldable pub batch_loop :
      (ℕ → String)
      → ℕ
      → List (Transfer Value)
      → BatchTransferResponse
      → Ledger Value
      → BatchTransferResponse × Ledger Value
  batch_loop show index [] r l = (r, l)
  batch_loop show index (t ∷ ts) r l =
      let (outcome, l') = process_transfer t l in
      batch_loop show (index + 1) ts (respond show index outcome r) l'

  -- `show` writes a `Uuid`.
  unfoldable pub process_batch_transfer :
      (ℕ → String) → List (Transfer Value) → Ledger Value → BatchTransferResponse × Ledger Value
  process_batch_transfer show ts l = batch_loop show 0 ts empty_response l

  unfoldable pub find_transfer : ℕ → List (Transfer Value) → Option (Transfer Value)
  find_transfer tx_id [] = none
  find_transfer tx_id (t ∷ ts) = if nat_beq t.tx_id tx_id then some t else find_transfer tx_id ts
