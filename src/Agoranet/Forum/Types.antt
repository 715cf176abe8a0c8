-- ===== src/Agoranet/Forum/Types.antt =====
-- The types of icn-agoranet/src/models.rs that the store of handlers.rs keeps, and that store. A
-- `DateTime<Utc>` is the nanoseconds since the earliest one.
use icn_v.Base.{ℕ, String, ◌≡◌, ◌↔◌, Bool, true, List, [], Option, none, arith, nat_beq}
use icn_v.HashMap.{HashMap}

pub record ThreadSummary : Type 0 where
  pub id : String
  pub title : String
  pub created_at : ℕ
  pub author_did : String
  pub scope : String

pub record Message : Type 0 where
  pub id : String
  pub author_did : String
  pub timestamp : ℕ
  pub content : String

pub record ThreadDetail : Type 0 where
  pub summary : ThreadSummary
  pub messages : List Message

pub data ProposalStatus : Type 0 where
  draft opened closed accepted rejected : ProposalStatus

abbrev status_number : ProposalStatus → ℕ
status_number draft = 0
status_number opened = 1
status_number closed = 2
status_number accepted = 3
status_number rejected = 4

unfoldable pub status_eqb : ProposalStatus → ProposalStatus → Bool
status_eqb a b = nat_beq (status_number a) (status_number b)

pub status_eqb_iff : (a b : ProposalStatus) → (status_eqb a b ≡ true) ↔ (a ≡ b)
unfolding status_eqb
status_eqb_iff a b = ground arith

pub record VoteCounts : Type 0 where
  pub approve : ℕ
  pub reject : ℕ
  pub abstain : ℕ

pub record ProposalSummary : Type 0 where
  pub id : String
  pub title : String
  pub scope : String
  pub status : ProposalStatus
  pub vote_counts : VoteCounts
  pub voting_deadline : ℕ

pub record ProposalDetail : Type 0 where
  pub summary : ProposalSummary
  pub full_text : String
  pub linked_thread_id : Option String

pub data VoteType : Type 0 where
  vote_approve vote_reject vote_abstain : VoteType

pub record Vote : Type 0 where
  pub proposal_id : String
  pub voter_did : String
  pub vote_type : VoteType
  pub timestamp : ℕ
  pub justification : Option String

pub record NewThreadRequest (Value : Type 0) : Type 0 where
  pub title : String
  pub author_did : String
  pub scope : String
  pub metadata : Option Value

pub record NewProposalRequest : Type 0 where
  pub title : String
  pub full_text : String
  pub scope : String
  pub linked_thread_id : Option String
  pub voting_deadline : Option ℕ

pub record NewVoteRequest : Type 0 where
  pub proposal_id : String
  pub voter_did : String
  pub vote_type : VoteType
  pub justification : Option String

pub record GetThreadsQuery : Type 0 where
  pub scope : Option String
  pub limit : Option ℕ

pub record GetProposalsQuery : Type 0 where
  pub scope : Option String
  pub status : Option ProposalStatus
  pub proposal_type : Option String

pub record ProposalVotesResponse : Type 0 where
  pub proposal_id : String
  pub votes : List Vote

pub record ExecutionReceiptSummary : Type 0 where
  pub cid : String
  pub executor : String
  pub resource_usage : HashMap String ℕ
  pub timestamp : ℕ
  pub coop_id : Option String
  pub community_id : Option String

pub record ExecutionReceiptDetail : Type 0 where
  pub summary : ExecutionReceiptSummary
  pub task_cid : String
  pub anchored_cids : List String
  pub signature : String

pub record TokenBalance : Type 0 where
  pub did : String
  pub balance : ℕ
  pub coop_id : Option String
  pub community_id : Option String

pub record TokenTransaction : Type 0 where
  pub id : String
  pub from_did : String
  pub to_did : String
  pub amount : ℕ
  pub operation : String
  pub timestamp : ℕ
  pub from_coop_id : Option String
  pub from_community_id : Option String
  pub to_coop_id : Option String
  pub to_community_id : Option String

pub data ApiError : Type 0 where
  not_found internal_server_error bad_request unauthorized forbidden : String → ApiError

-- `LedgerStore` is a handle, whose type is a parameter.
pub record InMemoryStore (LedgerStore : Type 0) : Type 0 where
  pub threads : List ThreadDetail
  pub proposals : List ProposalDetail
  pub votes : List Vote
  pub receipts : List ExecutionReceiptDetail
  pub token_balances : List TokenBalance
  pub token_transactions : List TokenTransaction
  pub ledger : Option LedgerStore

-- `#[derive(Default)]`
abbrev pub default_store : {LedgerStore : Type 0} → InMemoryStore LedgerStore
default_store = record {
  threads = [];
  proposals = [];
  votes = [];
  receipts = [];
  token_balances = [];
  token_transactions = [];
  ledger = none;
}
