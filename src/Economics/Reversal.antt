-- ===== src/Economics/Reversal.antt =====
-- Two transfers of icn-economics/src/economics.rs, there and back.
use icn_v.Economics.Transfer.{available, Moves, transfer-Moves}
use icn_v.Base.{key_cases, ◌≤◌, ◌≡◌, sym, ◌≢◌, inl, inr, arith, pos}
use icn_v.HashMap.{get_or}
use icn_v.Economics.Key.{ResourceType, LedgerKey, key_eq}
use icn_v.Economics.Ledger.{Ledger, TransferArgs, sender_key, recipient_key, token_max, transfer}

-- The transfer that sends the same amount back.
abbrev pub reversed : TransferArgs → TransferArgs
reversed a = record {
  sender = a.recipient;
  sender_coop_id = a.recipient_coop_id;
  sender_community_id = a.recipient_community_id;
  recipient = a.sender;
  recipient_coop_id = a.sender_coop_id;
  recipient_community_id = a.sender_community_id;
  rt = a.rt;
  amt = a.amt;
}

-- Between two accounts within the allowance, a covered transfer whose recipient has used at least
-- the amount can be sent back: the second transfer answers 0 and restores the usage of every
-- account.
pub transfer_back :
    (a : TransferArgs) (l : Ledger)
    → a.rt ≡ ResourceType.token
    → sender_key a ≢ recipient_key a
    → a.amt ≤ available (sender_key a) l
    → a.amt ≤ get_or (recipient_key a) 0 l
    → get_or (sender_key a) 0 l ≤ token_max
    → get_or (recipient_key a) 0 l ≤ token_max
    → let (code, l') = transfer (reversed a) (transfer a l).1 in
      (code ≡ pos 0) × ((k : LedgerKey) → get_or k 0 l' ≡ get_or k 0 l)
transfer_back a l t ne cover used sb rb = (back.0, same)
  where
    there : Moves (sender_key a) (recipient_key a) a.amt l (transfer a l)
    there = transfer-Moves a l t (omega arith) ne cover

    back :
        Moves
          (recipient_key a)
          (sender_key a)
          a.amt
          (transfer a l).1
          (transfer (reversed a) (transfer a l).1)
    back =
        transfer-Moves (reversed a) (transfer a l).1 t (omega (arith, there.2)) (λ e. ne (sym e))
          (omega (arith, there.2))

    same : (k : LedgerKey) → get_or k 0 (transfer (reversed a) (transfer a l).1).1 ≡ get_or k 0 l
    same k = elim (key_cases k (sender_key a)) [
      | inl e ↦ rw e (omega (arith, there.1, back.2))
      | inr ns ↦ elim (key_cases k (recipient_key a)) [
        | inl e ↦ rw e (omega (arith, there.2, back.1))
        | inr nr ↦ ground (arith, there.3 k ns nr, back.3 k nr ns)
      ]
    ]
