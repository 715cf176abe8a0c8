-- ===== src/Economics/Transfer.antt =====
-- What `transfer` of icn-economics/src/economics.rs do to the accounts.
use icn_v.Base.{
  ℕ, ◌+◌, ◌-◌, ◌≤◌, ◌<◌, ◌≡◌, ◌≢◌, ◌↔◌, inl, inr, arith, u64_size, wrap64, saturating_sub, ℤ, pos,
  negsuc, Bool-cases,
}
use icn_v.HashMap.{get, get_or, insert}
use icn_v.HashMap.Laws.{get-insert_self, get-insert_ne, get_or-insert, get-insert-insert_ne}
use icn_v.Economics.Key.{ResourceType, resource_beq, resource_beq_iff, LedgerKey, key_eq}
use icn_v.Economics.Ledger.{
  Ledger, TransferArgs, sender_key, recipient_key, token_max, move_tokens, transfer,
}

-- The tokens that an account can still spend.
abbrev pub available : LedgerKey → Ledger → ℕ
available k l = saturating_sub token_max (get_or k 0 l)

-- A transfer answers 0 exactly when it is one of tokens and the sender's available tokens cover
-- it; it answers -3 exactly for another resource, and -1 exactly for tokens that are not covered.
-- Whatever it refuses leaves the ledger as it was.
pub transfer_code :
    (a : TransferArgs) (l : Ledger)
    → (((transfer a l).0 ≡ pos 0)
        ↔ (a.rt ≡ ResourceType.token) × (a.amt ≤ available (sender_key a) l))
      × (((transfer a l).0 ≡ negsuc 2) ↔ (a.rt ≢ ResourceType.token))
      × (((transfer a l).0 ≡ negsuc 0)
          ↔ (a.rt ≡ ResourceType.token) × (available (sender_key a) l < a.amt))
      × ((transfer a l).0 ≢ pos 0 → (transfer a l).1 ≡ l)
unfolding transfer move_tokens
transfer_code a l =
    let token = resource_beq_iff a.rt ResourceType.token in
    elim (Bool-cases (resource_beq a.rt ResourceType.token)) [
      | inl t ↦ (
        ground (arith, token),
        ground (arith, token),
        ground (arith, token),
        ground (arith, token),
      )
      | inr f ↦ (
        ground (arith, token),
        ground (arith, token),
        ground (arith, token),
        ground (arith, token),
      )
    ]

-- The outcome of moving an amount from one account to another: code 0, the sender's usage up by the
-- amount, the recipient's down by it (to 0 at least), and every other account as it was.
abbrev pub Moves : LedgerKey → LedgerKey → ℕ → Ledger → ℤ × Ledger → Type 0
Moves from to amt l (code, l') =
    (code ≡ pos 0)
    × (get_or from 0 l' ≡ get_or from 0 l + amt)
    × (get_or to 0 l' ≡ get_or to 0 l - amt)
    × ((k : LedgerKey) → k ≢ from → k ≢ to → get k l' ≡ get k l)

move_tokens-Moves :
    (from to : LedgerKey) (amt : ℕ) (l : Ledger)
    → get_or from 0 l < u64_size
    → from ≢ to
    → amt ≤ available from l
    → Moves from to amt l (move_tokens from to amt l)
unfolding move_tokens
move_tokens-Moves from to amt l small ne cover = (
  ground arith,
  ground (
    arith,
    get_or-insert to from (get_or to 0 (insert from (wrap64 (get_or from 0 l + amt)) l) - amt) 0
        (insert from (wrap64 (get_or from 0 l + amt)) l),
    get-insert_self from (wrap64 (get_or from 0 l + amt)) l,
    key_eq.eqb_iff to from,
  ),
  ground (
    arith,
    get-insert_self to (get_or to 0 (insert from (wrap64 (get_or from 0 l + amt)) l) - amt)
        (insert from (wrap64 (get_or from 0 l + amt)) l),
    get-insert_ne from to (wrap64 (get_or from 0 l + amt)) l ne,
  ),
  λ k nf nt. ground (
    arith,
    get-insert-insert_ne to from k
        (get_or to 0 (insert from (wrap64 (get_or from 0 l + amt)) l) - amt)
        (wrap64 (get_or from 0 l + amt)) l nt nf,
  ),
)

pub transfer-Moves :
    (a : TransferArgs) (l : Ledger)
    → a.rt ≡ ResourceType.token
    → get_or (sender_key a) 0 l < u64_size
    → sender_key a ≢ recipient_key a
    → a.amt ≤ available (sender_key a) l
    → Moves (sender_key a) (recipient_key a) a.amt l (transfer a l)
unfolding transfer
transfer-Moves a l t small ne cover =
    rw ((resource_beq_iff a.rt ResourceType.token).1 t)
      (move_tokens-Moves (sender_key a) (recipient_key a) a.amt l small ne cover)
