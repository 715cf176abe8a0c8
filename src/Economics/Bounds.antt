-- ===== src/Economics/Bounds.antt =====
-- The allowance of the accounts under `transfer` and `mint` (icn-economics/src/economics.rs).
use icn_v.Base.{
  ℕ, ◌+◌, ◌-◌, ◌≤◌, String, ◌≡◌, ◌≢◌, ◌⊎◌, inl, inr, Option, arith, if◌then◌else◌, wrap64, pos,
  negsuc, Bool-cases, ltb,
}
use icn_v.HashMap.{get_or, insert}
use icn_v.HashMap.Laws.{get_or-insert}
use icn_v.Economics.Key.{ResourceType, resource_beq, resource_beq_iff, LedgerKey, key_eq}
use icn_v.Economics.Ledger.{
  Ledger, account, mint, TransferArgs, sender_key, recipient_key, token_max, move_tokens, transfer,
}

-- No token account has used more than the allowance.
abbrev pub TokensBounded : Ledger → Type 0
TokensBounded l = (k : LedgerKey) → k.resource_type ≡ ResourceType.token → get_or k 0 l ≤ token_max

move_tokens-Bounded :
    (from to k : LedgerKey) (amt : ℕ) (l : Ledger)
    → get_or from 0 l ≤ token_max
    → get_or to 0 l ≤ token_max
    → get_or k 0 l ≤ token_max
    → get_or k 0 (move_tokens from to amt l).1 ≤ token_max
unfolding move_tokens
move_tokens-Bounded from to k amt l hf ht hk = ground (
  arith,
  get_or-insert to k (get_or to 0 (insert from (wrap64 (get_or from 0 l + amt)) l) - amt) 0
      (insert from (wrap64 (get_or from 0 l + amt)) l),
  get_or-insert from k (wrap64 (get_or from 0 l + amt)) 0 l,
  get_or-insert from to (wrap64 (get_or from 0 l + amt)) 0 l,
)

transfer-Bounded :
    (a : TransferArgs) (l : Ledger) → TokensBounded l → TokensBounded (transfer a l).1
unfolding transfer
transfer-Bounded a l h k kt = elim (Bool-cases (resource_beq a.rt ResourceType.token)) [
  | inl t ↦
      let token = (resource_beq_iff a.rt ResourceType.token).0 t in
      rw t (
        move_tokens-Bounded (sender_key a) (recipient_key a) k a.amt l (h (sender_key a) token)
          (h (recipient_key a) token) (h k kt))
  | inr f ↦ rw f (h k kt)
]

-- Minting tokens lowers the recipient's usage by the amount, to 0 at least, and changes no other
-- account; minting another resource answers -3 and changes nothing.
pub mint_lem :
    (who : String) (coop comm : Option String) (rt : ResourceType) (amt : ℕ) (l : Ledger)
    → let (code, l') = mint who coop comm rt amt l in
      ((rt ≡ ResourceType.token)
        × (code ≡ pos 0)
        × ((k : LedgerKey)
            → get_or k 0 l' ≡ (
                if key_eq.eqb (account who coop comm rt) k
                then get_or k 0 l - amt
                else get_or k 0 l)))
      ⊎ ((rt ≢ ResourceType.token) × (code ≡ negsuc 2) × (l' ≡ l))
unfolding mint
mint_lem who coop comm rt amt l =
    let key = account who coop comm rt in
    let v = if ltb (get_or key 0 l) amt then 0 else get_or key 0 l - amt in
    elim (Bool-cases (resource_beq rt ResourceType.token)) [
      | inl t ↦ inl (
        (resource_beq_iff rt ResourceType.token).0 t,
        ground arith,
        λ k. ground (arith, get_or-insert key k v 0 l, key_eq.eqb_iff key k),
      )
      | inr f ↦
          inr (ground (arith, resource_beq_iff rt ResourceType.token), ground arith, ground arith)
    ]

mint-Bounded :
    (who : String) (coop comm : Option String) (rt : ResourceType) (amt : ℕ) (l : Ledger)
    → TokensBounded l
    → TokensBounded (mint who coop comm rt amt l).1
mint-Bounded who coop comm rt amt l h k kt = elim (mint_lem who coop comm rt amt l) [
  | inl (_, _, f) ↦ ground (arith, f k, h k kt)
  | inr (_, _, e) ↦ rw e (h k kt)
]

-- Transfers and mints keep every token account within the allowance of 100, whatever they are given and
-- whether they succeed.
pub transfer-TokensBounded :
    (l : Ledger)
    → TokensBounded l
    → ((a : TransferArgs) → TokensBounded (transfer a l).1)
      × ((who : String) (coop comm : Option String) (rt : ResourceType) (amt : ℕ)
          → TokensBounded (mint who coop comm rt amt l).1)
transfer-TokensBounded l h =
    (λ a. transfer-Bounded a l h, λ who coop comm rt amt. mint-Bounded who coop comm rt amt l h)
