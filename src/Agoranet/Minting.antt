-- ===== src/Agoranet/Minting.antt =====
-- The overflow in the balance check of `process_transfer` (icn-agoranet/src/transfers.rs).
use icn_v.Base.{
  ◌+◌, ◌-◌, ◌≤◌, ◌<◌, ◌≡◌, ◌≢◌, refl, false, arith, u64_size, wrap64, sub64, ok, nat_beq, ltb,
}
use icn_v.HashMap.{get_or, insert}
use icn_v.HashMap.Laws.{get_or-insert}
use icn_v.Agoranet.Types.{balance_key_eq, Transfer}
use icn_v.Agoranet.Ledger.{
  Ledger, key_of, get_balance, set_balance, move_balances, process_transfer,
}

module _ {Value : Type 0} where
  -- A transfer whose amount and fee together leave `u64` is checked against what is left of their sum
  -- after the overflow. If the source has that much, the transfer goes through: the source loses only
  -- what is left of the sum, and another destination, if it has room, gains the whole amount.
  pub process_transfer_mints :
      (t : Transfer Value) (l : Ledger Value)
      → key_of t.from ≢ key_of t.to
      → t.amount < u64_size
      → t.fee < u64_size
      → u64_size ≤ t.amount + t.fee
      → t.amount + t.fee - u64_size ≤ get_balance t.from l
      → get_balance t.from l < u64_size
      → get_balance t.to l + t.amount < u64_size
      → let (r, l') = process_transfer t l in
        (r ≡ ok t)
        × (get_balance t.from l' ≡ get_balance t.from l - (t.amount + t.fee - u64_size))
        × (get_balance t.to l' ≡ get_balance t.to l + t.amount)
  unfolding process_transfer move_balances get_balance set_balance
  process_transfer_mints t l ne ha hf over cover small room =
      let nz : nat_beq t.amount 0 ≡ false = ground arith in
      let high : ltb (get_balance t.from l) (wrap64 (t.amount + t.fee)) ≡ false = ground arith in
      let left = sub64 (sub64 (get_balance t.from l) t.amount) t.fee in
      let m1 = insert (key_of t.from) left l.balances in
      let there = wrap64 (get_or (key_of t.to) 0 m1 + t.amount) in
      let keys = balance_key_eq.eqb_iff in
      rw (nz, high)
        (
          refl,
          ground (
            arith,
            get_or-insert (key_of t.to) (key_of t.from) there 0 m1,
            get_or-insert (key_of t.from) (key_of t.from) left 0 l.balances,
            keys (key_of t.to) (key_of t.from),
            keys (key_of t.from) (key_of t.from),
          ),
          ground (
            arith,
            get_or-insert (key_of t.to) (key_of t.to) there 0 m1,
            get_or-insert (key_of t.from) (key_of t.to) left 0 l.balances,
            keys (key_of t.from) (key_of t.to),
            keys (key_of t.to) (key_of t.to),
          ),
        )
