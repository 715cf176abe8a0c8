-- ===== src/Economics/Tests.antt =====
-- Runs of the economics methods, and the theorems at concrete ledgers.
use icn_v.Base.{String, Option, ℕ, ◌≡◌, refl, [], ◌∷◌, none, some, arith, pos, negsuc}
use icn_v.HashMap.{get, insert}
use icn_v.Economics.Key.{ResourceType, LedgerKey, key_eq}
use icn_v.Economics.Ledger.{Ledger, account, TransferArgs, mint, move_tokens, transfer}
use icn_v.Economics.Bounds.{TokensBounded, transfer-TokensBounded}

abbrev alice : LedgerKey
alice = account "alice" (some "coop") none ResourceType.token

abbrev bob : LedgerKey
bob = account "bob" none (some "comm") ResourceType.token

-- alice has 70 tokens to spend, bob 40.
abbrev ledger : Ledger
ledger = (alice, 30) ∷ (bob, 60) ∷ (account "alice" none none ResourceType.cpu, 9) ∷ []

abbrev pay : TransferArgs
pay = record {
  sender = "alice";
  sender_coop_id = some "coop";
  sender_community_id = none;
  recipient = "bob";
  recipient_coop_id = none;
  recipient_community_id = some "comm";
  rt = ResourceType.token;
  amt = 25;
}

abbrev to_self : TransferArgs
to_self = record pay {
  recipient = "alice";
  recipient_coop_id = some "coop";
  recipient_community_id = none;
}

pay_run :
    transfer pay ledger
    ≡ (pos 0, (alice, 55) ∷ (bob, 35) ∷ (account "alice" none none ResourceType.cpu, 9) ∷ [])
unfolding transfer move_tokens get insert key_eq
pay_run = refl

overdraft_run : (transfer (record pay { amt = 71 }) ledger).0 ≡ negsuc 0
unfolding transfer move_tokens get insert key_eq
overdraft_run = refl

ledger-TokensBounded : TokensBounded ledger
unfolding get
ledger-TokensBounded k t =
    ground (arith, key_eq.eqb_iff (account "alice" none none ResourceType.cpu) k)

transfer-TokensBounded_example :
    ((a : TransferArgs) → TokensBounded (transfer a ledger).1)
    × ((who : String) (coop comm : Option String) (rt : ResourceType) (amt : ℕ)
        → TokensBounded (mint who coop comm rt amt ledger).1)
transfer-TokensBounded_example = transfer-TokensBounded ledger ledger-TokensBounded
