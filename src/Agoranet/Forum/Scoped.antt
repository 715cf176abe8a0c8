-- ===== src/Agoranet/Forum/Scoped.antt =====
-- What the queries of icn-agoranet/src/handlers.rs show to the holder of a token.
use icn_v.Agoranet.Forum.Types.{ExecutionReceiptDetail, TokenBalance}
use icn_v.Base.{Bool}
use icn_v.Base.{starts_with, filterb}
use icn_v.Base.{ℕ, String, ◌≡◌, ◌↔◌, ◌⊎◌, true, List, Option, none, some, Result, ok, err}
use icn_v.Agoranet.Auth.Types.{ScopeClaims, AuthError}
use icn_v.Agoranet.Auth.Access.{role_coop_operator}
use icn_v.Agoranet.Auth.Permission.{Within, HasRole}
use icn_v.Agoranet.Forum.Types.{TokenTransaction}
use icn_v.Agoranet.Forum.Listing.{
  GetReceiptsQuery, GetTokenBalancesQuery, GetTokenTransactionsQuery,
}

-- What a query asks, if it asks it.
abbrev pub Asks : (String → Type 0) → Option String → Type 0
Asks P none = Unit
Asks P (some x) = P x

-- The list is that of the stored elements that are wanted, in the order of the store.
abbrev pub Selected : {A : Type 0} → (A → Type 0) → List A → List A → Type 0
Selected {A} Wanted stored xs =
    (test : A → Bool) × ((a : A) → (test a ≡ true) ↔ Wanted a) × (xs ≡ filterb test stored)

-- The claims list the organizations of a query.
abbrev pub Listed : ScopeClaims → Option String → Option String → Type 0
Listed c coop_id community_id = Within c.coop_ids coop_id × Within c.community_ids community_id

-- The operator's role in the cooperative of a query that names no community.
abbrev pub Operates : ScopeClaims → Option String → Option String → Type 0
Operates c none community = Unit
Operates c (some id) none = HasRole c id role_coop_operator
Operates c (some id) (some community) = Unit

-- A query is answered to a token that lists the organizations of the query, with all that is wanted;
-- any other token is refused.
abbrev pub Shown :
    {A X : Type 0}
    → ScopeClaims
    → Option String
    → Option String
    → (A → Type 0)
    → List A
    → (List A → X)
    → Result X AuthError
    → Type 0
Shown {A} c coop community Wanted stored view answer =
    ((xs : List A) × Selected Wanted stored xs × (answer ≡ ok (view xs)) × Listed c coop community)
    ⊎ ((answer ≡ err AuthError.unauthorized_org_access) × ¬ (Listed c coop community))

-- The answer to a query of transactions, to an operator when only a cooperative is named.
abbrev pub TransactionsShown :
    ScopeClaims
    → GetTokenTransactionsQuery
    → (TokenTransaction → Type 0)
    → List TokenTransaction
    → Result (List TokenTransaction) AuthError
    → Type 0
TransactionsShown c q Wanted stored answer =
    ((ts : List TokenTransaction) × Selected Wanted stored ts
      × (answer ≡ ok ts)
      × Listed c q.coop_id q.community_id
      × Operates c q.coop_id q.community_id)
    ⊎ ((answer ≡ err AuthError.unauthorized_org_access) × ¬ (Listed c q.coop_id q.community_id))
    ⊎ ((answer ≡ err AuthError.not_coop_operator)
        × Listed c q.coop_id q.community_id
        × ¬ (Operates c q.coop_id q.community_id))

-- The receipts, the balances and the transactions that a query asks for.
abbrev pub ReceiptWanted : (ℕ → String) → GetReceiptsQuery → ExecutionReceiptDetail → Type 0
ReceiptWanted show_date q r =
    Asks (λ x. r.summary.executor ≡ x) q.executor
    × Asks (λ d. starts_with (show_date r.summary.timestamp) d ≡ true) q.date
    × Asks (λ x. r.summary.coop_id ≡ some x) q.coop_id
    × Asks (λ x. r.summary.community_id ≡ some x) q.community_id

abbrev pub BalanceWanted : GetTokenBalancesQuery → TokenBalance → Type 0
BalanceWanted q b =
    Asks (λ x. b.did ≡ x) q.account
    × Asks (λ x. b.coop_id ≡ some x) q.coop_id
    × Asks (λ x. b.community_id ≡ some x) q.community_id

abbrev pub TransactionWanted : (ℕ → String) → GetTokenTransactionsQuery → TokenTransaction → Type 0
TransactionWanted show_date q t =
    Asks (λ x. (t.from_did ≡ x) ⊎ (t.to_did ≡ x)) q.account
    × Asks (λ d. starts_with (show_date t.timestamp) d ≡ true) q.date
    × Asks (λ x. (t.from_coop_id ≡ some x) ⊎ (t.to_coop_id ≡ some x)) q.coop_id
    × Asks (λ x. (t.from_community_id ≡ some x) ⊎ (t.to_community_id ≡ some x)) q.community_id
