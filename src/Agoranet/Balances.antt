-- ===== src/Agoranet/Balances.antt =====
-- What `process_transfer` of icn-agoranet/src/transfers.rs does to the balances.
use icn_v.Base.{
  ℕ, ◌+◌, ◌-◌, ◌≤◌, ◌<◌, ◌≡◌, refl, ◌≢◌, ◌⊎◌, inl, inr, [], ◌∷◌, ◌++◌, arith, u64_size, wrap64,
  sub64, Result, ok, err, sum_by, nat_beq, ltb, Bool-cases,
}
use icn_v.HashMap.{HashMap, get, get_or, insert}
use icn_v.HashMap.Laws.{get_or-insert, get-insert-insert_ne}
use icn_v.HashMap.Sums.{sum_by-insert}
use icn_v.Agoranet.Types.{BalanceKey, balance_key_eq, Transfer, TransferError}
use icn_v.Agoranet.Ledger.{
  Ledger, key_of, get_balance, set_balance, move_balances, process_transfer,
}

abbrev sum_of : HashMap BalanceKey ℕ → ℕ
sum_of m = sum_by (λ e. e.1) m

-- An insertion exchanges the old balance for the new one.
sum_of-insert :
    (k : BalanceKey) (v : ℕ) (m : HashMap BalanceKey ℕ)
    → sum_of (insert k v m) + get_or k 0 m ≡ sum_of m + v
sum_of-insert k v m = ground (arith, sum_by-insert (λ e. e.1) k v m)

get_or-le : (k : BalanceKey) (m : HashMap BalanceKey ℕ) → get_or k 0 m ≤ sum_of m
get_or-le k m = omega (arith, sum_of-insert k 0 m)

module _ {Value : Type 0} where
  -- The sum of all balances.
  abbrev pub supply : Ledger Value → ℕ
  supply l = sum_of l.balances

  -- A transfer goes through: the amount and the fee leave the source, the amount reaches the
  -- destination, no other balance changes, and the transfer is recorded.
  abbrev pub Moved :
      Transfer Value → Ledger Value → Result (Transfer Value) TransferError × Ledger Value → Type 0
  Moved t l (r, l') =
      (r ≡ ok t)
      × (supply l' + t.fee ≡ supply l)
      × (key_of t.from ≢ key_of t.to
          → (get_balance t.from l' ≡ get_balance t.from l - (t.amount + t.fee))
            × (get_balance t.to l' ≡ get_balance t.to l + t.amount))
      × (key_of t.from ≡ key_of t.to → get_balance t.from l' ≡ get_balance t.from l - t.fee)
      × ((k : BalanceKey)
          → k ≢ key_of t.from
          → k ≢ key_of t.to
          → get k l'.balances ≡ get k l.balances)
      × (l'.transfers ≡ l.transfers ++ t ∷ [])

  move_balances-supply :
      (t : Transfer Value) (l : Ledger Value)
      → supply l < u64_size
      → t.amount + t.fee ≤ get_balance t.from l
      → supply (move_balances t l) + t.fee ≡ supply l
  unfolding move_balances get_balance set_balance
  move_balances-supply t l small cover =
      let left = sub64 (sub64 (get_balance t.from l) t.amount) t.fee in
      let m1 = insert (key_of t.from) left l.balances in
      let first = sum_of-insert (key_of t.from) left l.balances in
      let second = sum_of-insert (key_of t.to) (wrap64 (get_or (key_of t.to) 0 m1 + t.amount)) m1 in
      omega (arith, first, second, get_or-le (key_of t.to) m1, get_or-le (key_of t.from) l.balances)

  move_balances-balances :
      (t : Transfer Value) (l : Ledger Value)
      → supply l < u64_size
      → t.amount + t.fee ≤ get_balance t.from l
      → (key_of t.from ≢ key_of t.to
          → (get_balance t.from (move_balances t l) ≡ get_balance t.from l - (t.amount + t.fee))
            × (get_balance t.to (move_balances t l) ≡ get_balance t.to l + t.amount))
        × (key_of t.from ≡ key_of t.to
            → get_balance t.from (move_balances t l) ≡ get_balance t.from l - t.fee)
        × ((k : BalanceKey)
            → k ≢ key_of t.from
            → k ≢ key_of t.to
            → get k (move_balances t l).balances ≡ get k l.balances)
  unfolding move_balances get_balance set_balance
  move_balances-balances t l small cover =
      let left = sub64 (sub64 (get_balance t.from l) t.amount) t.fee in
      let m1 = insert (key_of t.from) left l.balances in
      let there = wrap64 (get_or (key_of t.to) 0 m1 + t.amount) in
      let sent = get_or-insert (key_of t.from) (key_of t.to) left 0 l.balances in
      let got = get_or-insert (key_of t.to) (key_of t.to) there 0 m1 in
      let kept = get_or-insert (key_of t.to) (key_of t.from) there 0 m1 in
      let source = get_or-insert (key_of t.from) (key_of t.from) left 0 l.balances in
      let sums = sum_of-insert (key_of t.from) left l.balances in
      let bound = get_or-le (key_of t.to) m1 in
      let keys = balance_key_eq.eqb_iff in
      (
        λ ne. (
          ground (
            arith,
            kept,
            source,
            get_or-le (key_of t.from) l.balances,
            keys (key_of t.to) (key_of t.from),
            keys (key_of t.from) (key_of t.from),
          ),
          ground (
            arith,
            got,
            sent,
            sums,
            bound,
            get_or-le (key_of t.from) l.balances,
            keys (key_of t.from) (key_of t.to),
            keys (key_of t.to) (key_of t.to),
          ),
        ),
        λ same. ground (
          arith,
          kept,
          sent,
          get_or-le (key_of t.from) l.balances,
          keys (key_of t.to) (key_of t.from),
          keys (key_of t.from) (key_of t.to),
        ),
        λ k nf nt. get-insert-insert_ne (key_of t.to) (key_of t.from) k there left l.balances nt nf,
      )

  -- What `process_transfer` refuses, and with which error; the ledger stays as it was.
  abbrev pub Refused :
      Transfer Value → Ledger Value → Result (Transfer Value) TransferError × Ledger Value → Type 0
  Refused t l (r, l') =
      (l' ≡ l)
      × (((t.amount ≡ 0) × (r ≡ err TransferError.invalid_amount))
          ⊎ ((0 < t.amount)
              × (get_balance t.from l < t.amount + t.fee)
              × (r ≡ err TransferError.insufficient_balance)))

  -- When the balances and the amount with its fee fit a `u64`, a transfer of a positive amount that
  -- the source covers with its fee goes through: the source loses both, the destination gains the
  -- amount, the sum of all balances falls by exactly the fee, no other balance changes, and the
  -- transfer is recorded; to itself, a source loses only the fee. Every other transfer is refused,
  -- with the error for its reason, and changes nothing.
  pub process_transfer-Moved :
      (t : Transfer Value) (l : Ledger Value)
      → supply l < u64_size
      → t.amount + t.fee < u64_size
      → ((0 < t.amount)
          × (t.amount + t.fee ≤ get_balance t.from l)
          × Moved t l (process_transfer t l))
        ⊎ Refused t l (process_transfer t l)
  unfolding process_transfer get_balance move_balances set_balance
  process_transfer-Moved t l small fits = elim (Bool-cases (nat_beq t.amount 0)) [
    | inl z ↦ inr (rw z (refl, inl (ground arith, refl)))
    | inr nz ↦ elim (Bool-cases (ltb (get_balance t.from l) (wrap64 (t.amount + t.fee)))) [
      | inl low ↦ inr (rw (nz, low) (refl, inr (ground arith, ground arith, refl)))
      | inr high ↦
          let cover : t.amount + t.fee ≤ get_balance t.from l = ground arith in
          let moved = move_balances-balances t l small cover in
          inl (
            ground arith,
            cover,
            rw (nz, high)
                (refl, move_balances-supply t l small cover, moved.0, moved.1, moved.2, refl),
          )
    ]
  ]
