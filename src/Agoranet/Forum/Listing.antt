-- ===== src/Agoranet/Forum/Listing.antt =====
-- The queries of icn-agoranet/src/handlers.rs over the store, with and without authorization. The
-- writing of a date, `timestamp.date().to_string()`, and the parsing of a DID are parameters; a `Cid`
-- is its text.
use icn_v.Base.{
  ℕ, String, Bool, true, false, not, ◌&&◌, ◌||◌, List, [], ◌∷◌, map, Option, none, some,
  if◌then◌else◌, string_eq, filterb, anyb, skip, take, starts_with, Result, ok, err, prefixed,
}
use icn_v.Agoranet.Forum.Types.{
  ThreadSummary, ThreadDetail, status_eqb, ProposalSummary, ProposalDetail, Vote, GetThreadsQuery,
  GetProposalsQuery, ProposalVotesResponse, ExecutionReceiptSummary, ExecutionReceiptDetail,
  TokenBalance, TokenTransaction, ApiError, InMemoryStore,
}
use icn_v.Agoranet.Forum.Voting.{has_id, find_proposal, no_proposal}

pub record GetReceiptsQuery : Type 0 where
  pub date : Option String
  pub executor : Option String
  pub coop_id : Option String
  pub community_id : Option String
  pub limit : Option ℕ
  pub offset : Option ℕ

pub record GetTokenBalancesQuery : Type 0 where
  pub account : Option String
  pub coop_id : Option String
  pub community_id : Option String
  pub limit : Option ℕ
  pub offset : Option ℕ

pub record GetTokenTransactionsQuery : Type 0 where
  pub date : Option String
  pub account : Option String
  pub coop_id : Option String
  pub community_id : Option String
  pub limit : Option ℕ
  pub offset : Option ℕ

-- `if let Some(x) = wanted { if !test(x) { return false; } }`
abbrev pub passes : {A : Type 0} → (A → Bool) → Option A → Bool
passes test none = true
passes test (some x) = test x

-- `match id { Some(x) if x == wanted => {} _ => return false }`
abbrev pub is_id : Option String → String → Bool
is_id none wanted = false
is_id (some x) wanted = string_eq.eqb x wanted

-- The `match` on the offset and the limit.
abbrev pub paginate : {A : Type 0} → Option ℕ → Option ℕ → List A → List A
paginate (some offset) (some limit) xs = take limit (skip offset xs)
paginate (some offset) none xs = skip offset xs
paginate none (some limit) xs = take limit xs
paginate none none xs = xs

-- `starts_with` of the text of a date
abbrev pub on_date : (ℕ → String) → ℕ → String → Bool
on_date show_date t wanted = starts_with (show_date t) wanted

module _ (show_date : ℕ → String) where
  unfoldable pub receipt_passes : GetReceiptsQuery → ExecutionReceiptDetail → Bool
  receipt_passes params r =
      passes (string_eq.eqb r.summary.executor) params.executor
      && (passes (on_date show_date r.summary.timestamp) params.date
          && (passes (is_id r.summary.coop_id) params.coop_id
              && passes (is_id r.summary.community_id) params.community_id))

  unfoldable pub transaction_passes : GetTokenTransactionsQuery → TokenTransaction → Bool
  transaction_passes params tx =
      passes (λ a. string_eq.eqb tx.from_did a || string_eq.eqb tx.to_did a) params.account
      && (passes (on_date show_date tx.timestamp) params.date
          && (passes (λ c. is_id tx.from_coop_id c || is_id tx.to_coop_id c) params.coop_id
              && passes (λ c. is_id tx.from_community_id c || is_id tx.to_community_id c)
                  params.community_id))

unfoldable pub balance_passes : GetTokenBalancesQuery → TokenBalance → Bool
balance_passes params b =
    passes (string_eq.eqb b.did) params.account
    && (passes (is_id b.coop_id) params.coop_id
        && passes (is_id b.community_id) params.community_id)

unfoldable pub find_thread : String → List ThreadDetail → Option ThreadDetail
find_thread id [] = none
find_thread id (td ∷ tds) = if string_eq.eqb td.summary.id id then some td else find_thread id tds

unfoldable pub find_receipt : String → List ExecutionReceiptDetail → Option ExecutionReceiptDetail
find_receipt cid [] = none
find_receipt cid (r ∷ rs) = if string_eq.eqb r.summary.cid cid then some r else find_receipt cid rs

-- The check of the DID of an account, and what follows.
abbrev pub checked_account :
    {A : Type 0} → (String → Result (Unit {0}) String) → Option String → A → Result A ApiError
checked_account did_from_str none a = ok a
checked_account did_from_str (some account) a = elim (did_from_str account) [
  | err e ↦ err (ApiError.bad_request (prefixed "Invalid DID format: " e))
  | ok _ ↦ ok a
]

module _ {L : Type 0} where
  unfoldable pub filter_receipts :
      (ℕ → String) → GetReceiptsQuery → InMemoryStore L → List ExecutionReceiptSummary
  filter_receipts show_date params s =
      map (λ r. r.summary) (filterb (receipt_passes show_date params) s.receipts)

  unfoldable pub filter_token_balances : GetTokenBalancesQuery → InMemoryStore L → List TokenBalance
  filter_token_balances params s = filterb (balance_passes params) s.token_balances

  unfoldable pub filter_token_transactions :
      (ℕ → String) → GetTokenTransactionsQuery → InMemoryStore L → List TokenTransaction
  filter_token_transactions show_date params s =
      filterb (transaction_passes show_date params) s.token_transactions

  unfoldable pub get_threads_handler : GetThreadsQuery → InMemoryStore L → List ThreadSummary
  get_threads_handler params s =
      let found =
        map (λ (td : ThreadDetail). td.summary)
          (filterb (λ td. passes (string_eq.eqb td.summary.scope) params.scope) s.threads) in
      elim params.limit [ none ↦ take 4294967295 found | some n ↦ take n found ]

  unfoldable pub get_thread_detail_handler : String → InMemoryStore L → Result ThreadDetail ApiError
  get_thread_detail_handler id s = elim (find_thread id s.threads) [
    | none ↦ err (ApiError.not_found (prefixed "Thread with id " (prefixed id " not found")))
    | some td ↦ ok td
  ]

  unfoldable pub get_proposals_handler : GetProposalsQuery → InMemoryStore L → List ProposalSummary
  get_proposals_handler params s =
      map (λ (pd : ProposalDetail). pd.summary)
        (filterb
          (λ pd.
            passes (string_eq.eqb pd.summary.scope) params.scope
            && passes (status_eqb pd.summary.status) params.status)
          s.proposals)

  unfoldable pub get_proposal_detail_handler :
      String → InMemoryStore L → Result ProposalDetail ApiError
  get_proposal_detail_handler id s = elim (find_proposal id s.proposals) [
    | none ↦ err (no_proposal id)
    | some pd ↦ ok pd
  ]

  unfoldable pub get_proposal_votes_handler :
      String → InMemoryStore L → Result ProposalVotesResponse ApiError
  get_proposal_votes_handler id s =
      if not (anyb (has_id id) s.proposals)
      then err (no_proposal id)
      else ok (record {
        proposal_id = id;
        votes = filterb (λ (v : Vote). string_eq.eqb v.proposal_id id) s.votes;
      })

  unfoldable pub get_receipts_handler :
      (ℕ → String) → GetReceiptsQuery → InMemoryStore L → List ExecutionReceiptSummary
  get_receipts_handler show_date params s =
      paginate params.offset params.limit (filter_receipts show_date params s)

  -- `cid_try_from` gives the text of the parsed CID.
  unfoldable pub get_receipt_detail_handler :
      (String → Result String String)
      → String
      → InMemoryStore L
      → Result ExecutionReceiptDetail ApiError
  get_receipt_detail_handler cid_try_from cid_str s = elim (cid_try_from cid_str) [
    | err e ↦ err (ApiError.bad_request (prefixed "Invalid CID format provided: " e))
    | ok cid ↦ elim (find_receipt cid s.receipts) [
      | none ↦ err (ApiError.not_found (prefixed "Receipt with CID " (prefixed cid " not found")))
      | some r ↦ ok r
    ]
  ]

  unfoldable pub get_token_balances_handler :
      (String → Result (Unit {0}) String)
      → GetTokenBalancesQuery
      → InMemoryStore L
      → Result (List TokenBalance) ApiError
  get_token_balances_handler did_from_str params s =
      checked_account did_from_str params.account
        (paginate params.offset params.limit (filter_token_balances params s))

  unfoldable pub get_token_transactions_handler :
      (String → Result (Unit {0}) String)
      → (ℕ → String)
      → GetTokenTransactionsQuery
      → InMemoryStore L
      → Result (List TokenTransaction) ApiError
  get_token_transactions_handler did_from_str show_date params s =
      checked_account did_from_str params.account
        (paginate params.offset params.limit (filter_token_transactions show_date params s))
