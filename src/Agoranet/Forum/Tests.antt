-- ===== src/Agoranet/Forum/Tests.antt =====
-- Tests of the forum of icn-agoranet, and the theorems about it at concrete inputs.
use icn_v.Agoranet.Forum.Types.{Vote}
use icn_v.Base.{
  ℕ, String, ◌≡◌, ◌⊎◌, refl, [], ◌∷◌, ◌++◌, Option, none, some, Result, ok, err, string_eq,
  if◌then◌else◌, contains,
}
use icn_v.Agoranet.Auth.Types.{AuthError, AuthenticatedRequest}
use icn_v.Agoranet.Auth.Access.{has_org_scope_access, has_coop_access, has_community_access}
use icn_v.Agoranet.Forum.Types.{
  NewProposalRequest, NewVoteRequest, InMemoryStore, default_store, vote_approve, status_eqb,
  ProposalDetail, ApiError, ExecutionReceiptDetail,
}
use icn_v.Agoranet.Forum.Voting.{
  create_proposal_handler, cast_vote_handler, vote_on, count_vote, update_proposal, find_proposal,
  already_voted,
}
use icn_v.Agoranet.Forum.Counting.{StoreTallied}
use icn_v.Agoranet.Forum.Elections.{
  started, proposed, voted, MayVote, Records, Reachable-StoreTallied, cast_vote_handler_lem,
}
use icn_v.Agoranet.Forum.Listing.{GetReceiptsQuery, receipt_passes, filter_receipts}
use icn_v.Agoranet.Forum.Types.{VoteCounts}
use icn_v.Agoranet.Forum.Listing.{GetTokenBalancesQuery, GetTokenTransactionsQuery}
use icn_v.Base.{length, wrap64}
use icn_v.HashMap.{get_or}
use icn_v.Agoranet.Forum.Listing.{filter_token_transactions}
use icn_v.Agoranet.Forum.Stats.{
  get_receipt_stats, get_token_stats, add_transactions, add_transaction, transaction_in,
}
use icn_v.Agoranet.Forum.Statistics.{receipts_query, get_receipt_stats-filter_receipts}
use icn_v.Agoranet.Forum.TokenSums.{Summarises, tokens_query, get_token_stats-Summarises}
use icn_v.Agoranet.Forum.Authorized.{get_receipts_authorized}
use icn_v.Agoranet.Forum.Types.{TokenTransaction}

-- Every text but the empty one is a DID.
parse : String → Result (Unit {0}) String
parse t = if string_eq.eqb t "" then err "empty" else ok tt

abbrev levy : NewProposalRequest
levy = record {
  title = "Levy";
  full_text = "A levy on uplinks";
  scope = "coop";
  linked_thread_id = none;
  voting_deadline = some 100;
}

abbrev ballot : String → NewVoteRequest
ballot voter = record {
  proposal_id = "proposal_u";
  voter_did = voter;
  vote_type = vote_approve;
  justification = none;
}

abbrev empty : InMemoryStore (Unit {0})
empty = default_store

abbrev proposed_store : InMemoryStore (Unit {0})
proposed_store = (create_proposal_handler levy "u" 700 empty).1

abbrev voted_store : InMemoryStore (Unit {0})
voted_store = (cast_vote_handler parse (ballot "did:a") 100 101 proposed_store).1

abbrev counts_in : Option ProposalDetail → Option VoteCounts
counts_in none = none
counts_in (some p) = some p.summary.vote_counts

-- The vote in time is counted, and a second one of the same voter is refused.
voted_count :
    (counts_in (find_proposal "proposal_u" voted_store.proposals)
      ≡ some (record { approve = 1; reject = 0; abstain = 0 }))
    × ((cast_vote_handler parse (ballot "did:a") 100 102 voted_store).0
        ≡ err (already_voted (ballot "did:a")))
unfolding create_proposal_handler cast_vote_handler vote_on update_proposal count_vote find_proposal
    parse status_eqb
voted_count = (refl, refl)

Reachable-StoreTallied_example : StoreTallied voted_store
Reachable-StoreTallied_example =
    Reachable-StoreTallied parse voted_store
      (voted (ballot "did:a") 100 101 (proposed levy "u" 700 started))

cast_vote_handler_lem_example :
    let (r, s') = cast_vote_handler parse (ballot "did:a") 100 101 proposed_store in
    ((v : Vote) × (r ≡ ok v)
      × Records (ballot "did:a") 101 v
      × MayVote parse (ballot "did:a") 100 proposed_store
      × (s'.votes ≡ proposed_store.votes ++ v ∷ []))
    ⊎ ((e : ApiError) × (r ≡ err e)
        × ¬ (MayVote parse (ballot "did:a") 100 proposed_store)
        × (s'.votes ≡ proposed_store.votes))
cast_vote_handler_lem_example = cast_vote_handler_lem parse (ballot "did:a") 100 101 proposed_store

-- The receipts of two cooperatives, and a token of a member of one.
abbrev receipt_of : String → String → ExecutionReceiptDetail
receipt_of cid coop = record {
  summary = record {
    cid = cid;
    executor = "did:a";
    resource_usage = [];
    timestamp = 0;
    coop_id = some coop;
    community_id = none;
  };
  task_cid = "task";
  anchored_cids = [];
  signature = "";
}

abbrev shown_store : InMemoryStore (Unit {0})
shown_store = record empty { receipts = receipt_of "r1" "left" ∷ receipt_of "r2" "right" ∷ [] }

abbrev left_member : AuthenticatedRequest
left_member = record {
  claims = record {
    sub = "did:a";
    federation_ids = [];
    coop_ids = "left" ∷ [];
    community_ids = [];
    roles = [];
  };
  token_id = none;
}

abbrev receipts_of : String → GetReceiptsQuery
receipts_of coop = record {
  date = none;
  executor = none;
  coop_id = some coop;
  community_id = none;
  limit = none;
  offset = none;
}

abbrev all_balances : GetTokenBalancesQuery
all_balances = record {
  account = none;
  coop_id = none;
  community_id = none;
  limit = none;
  offset = none;
}

abbrev left_transactions : GetTokenTransactionsQuery
left_transactions = record {
  date = none;
  account = none;
  coop_id = some "left";
  community_id = none;
  limit = none;
  offset = none;
}

abbrev no_date : ℕ → String
no_date t = "1970-01-01"

left_receipts :
    (get_receipts_authorized no_date left_member (receipts_of "left") shown_store
      ≡ ok ((receipt_of "r1" "left").summary ∷ []))
    × (get_receipts_authorized no_date left_member (receipts_of "right") shown_store
        ≡ err AuthError.unauthorized_org_access)
unfolding get_receipts_authorized filter_receipts receipt_passes has_org_scope_access
    has_coop_access has_community_access contains
left_receipts = (refl, refl)

get_receipt_stats-filter_receipts_example :
    let stats = get_receipt_stats (some "left") none shown_store in
    (stats.total_receipts
      ≡ length (filter_receipts no_date (receipts_query none (some "left") none) shown_store))
    × (get_or "did:a" 0 stats.receipts_by_executor
        ≡ wrap64 (
            length (
              filter_receipts no_date
                (receipts_query (some "did:a") (some "left") none)
                shown_store)))
get_receipt_stats-filter_receipts_example =
    get_receipt_stats-filter_receipts no_date "did:a" (some "left") none shown_store

-- A payment within a cooperative, and a mint to one of its members.
abbrev payment : String → String → ℕ → TokenTransaction
payment operation receiver amount = record {
  id = "tx";
  from_did = "did:a";
  to_did = receiver;
  amount = amount;
  operation = operation;
  timestamp = 0;
  from_coop_id = some "left";
  from_community_id = none;
  to_coop_id = none;
  to_community_id = none;
}

abbrev paid_store : InMemoryStore (Unit {0})
paid_store = record empty {
  token_transactions = payment "mint" "did:b" 5 ∷ payment "transfer" "did:a" 3 ∷ [];
}

paid_stats :
    get_token_stats (some "left") none paid_store
    ≡ record { total_minted = 5; total_burnt = 0; active_accounts = 2; daily_volume = some 8 }
unfolding get_token_stats add_transactions add_transaction transaction_in contains
paid_stats = refl

get_token_stats-Summarises_example :
    Summarises
      (get_token_stats (some "left") none paid_store)
      (filter_token_transactions no_date (tokens_query (some "left") none) paid_store)
get_token_stats-Summarises_example =
    get_token_stats-Summarises no_date (some "left") none paid_store
