-- ===== src/Agoranet/Forum/Voting.antt =====
-- The handlers of icn-agoranet/src/handlers.rs that create threads and proposals and cast votes.
-- The parsing of a DID, which keeps its text, is a parameter; the readings of the clock and the
-- `Uuid` that a handler takes are arguments. A lock is never poisoned here.
use icn_v.Base.{
  ℕ, ◌+◌, String, Bool, not, ◌&&◌, List, [], ◌∷◌, ◌++◌, Option, none, some, if◌then◌else◌,
  string_eq, ltb, wrap32, anyb, Result, ok, err, prefixed,
}
use icn_v.Agoranet.Forum.Types.{
  ThreadSummary, ProposalStatus, opened, closed, status_eqb, VoteCounts, ProposalSummary,
  ProposalDetail, VoteType, vote_approve, vote_reject, vote_abstain, Vote, NewThreadRequest,
  NewProposalRequest, NewVoteRequest, ApiError, InMemoryStore,
}

abbrev pub has_id : String → ProposalDetail → Bool
has_id id p = string_eq.eqb p.summary.id id

-- `iter().find(|p| p.summary.id == id)`
unfoldable pub find_proposal : String → List ProposalDetail → Option ProposalDetail
find_proposal id [] = none
find_proposal id (p ∷ ps) = if has_id id p then some p else find_proposal id ps

-- What is done to the reference that `iter_mut().find` gives.
unfoldable pub update_proposal :
    String → (ProposalDetail → ProposalDetail) → List ProposalDetail → List ProposalDetail
update_proposal id f [] = []
update_proposal id f (p ∷ ps) = if has_id id p then f p ∷ ps else p ∷ update_proposal id f ps

-- `+= 1` on the counter of the vote's type
unfoldable pub count_vote : VoteType → VoteCounts → VoteCounts
count_vote vote_approve c = record c { approve = wrap32 (c.approve + 1) }
count_vote vote_reject c = record c { reject = wrap32 (c.reject + 1) }
count_vote vote_abstain c = record c { abstain = wrap32 (c.abstain + 1) }

abbrev pub with_counts : (VoteCounts → VoteCounts) → ProposalDetail → ProposalDetail
with_counts f p = record p {
  summary = record (p.summary) { vote_counts = f p.summary.vote_counts };
}

abbrev pub with_status : ProposalStatus → ProposalDetail → ProposalDetail
with_status status p = record p { summary = record (p.summary) { status = status } }

abbrev pub voted_by : String → String → Vote → Bool
voted_by proposal_id voter v =
    string_eq.eqb v.proposal_id proposal_id && string_eq.eqb v.voter_did voter

abbrev pub or_later : ℕ → Option ℕ → ℕ
or_later later none = later
or_later later (some t) = t

-- `in_a_week` is `Utc::now() + chrono::Duration::days(7)`.
abbrev pub new_proposal : NewProposalRequest → String → ℕ → ProposalDetail
new_proposal payload uuid in_a_week = record {
  summary = record {
    id = prefixed "proposal_" uuid;
    title = payload.title;
    scope = payload.scope;
    status = opened;
    vote_counts = record { approve = 0; reject = 0; abstain = 0 };
    voting_deadline = or_later in_a_week payload.voting_deadline;
  };
  full_text = payload.full_text;
  linked_thread_id = payload.linked_thread_id;
}

abbrev pub new_vote : NewVoteRequest → ℕ → Vote
new_vote payload stamp = record {
  proposal_id = payload.proposal_id;
  voter_did = payload.voter_did;
  vote_type = payload.vote_type;
  timestamp = stamp;
  justification = payload.justification;
}

-- `format!("Voter {} has already voted on proposal {}", …)`
abbrev pub already_voted : NewVoteRequest → ApiError
already_voted payload = ApiError.bad_request (
    prefixed "Voter "
      (prefixed payload.voter_did (prefixed " has already voted on proposal " payload.proposal_id)))

abbrev pub no_proposal : String → ApiError
no_proposal id = ApiError.not_found (prefixed "Proposal with id " (prefixed id " not found"))

module _ {L : Type 0} where
  unfoldable pub add_proposal_for_test : ProposalDetail → InMemoryStore L → InMemoryStore L
  add_proposal_for_test p s = record s { proposals = s.proposals ++ p ∷ [] }

  unfoldable pub add_vote_for_test : Vote → InMemoryStore L → InMemoryStore L
  add_vote_for_test v s = record s {
    votes = s.votes ++ v ∷ [];
    proposals = update_proposal v.proposal_id (with_counts (count_vote v.vote_type)) s.proposals;
  }

  unfoldable pub set_ledger : Option L → InMemoryStore L → InMemoryStore L
  set_ledger ledger s = record s { ledger = ledger }

  unfoldable pub get_ledger : InMemoryStore L → Option L
  get_ledger s = s.ledger

  unfoldable pub create_thread_handler :
      {Value : Type 0}
      → (String → Result (Unit {0}) String)
      → NewThreadRequest Value
      → (uuid : String) → (now : ℕ) → InMemoryStore L
      → Result ThreadSummary ApiError × InMemoryStore L
  create_thread_handler did_from_str payload uuid now s = elim (did_from_str payload.author_did) [
    | err e ↦ (err (ApiError.bad_request (prefixed "Invalid DID format: " e)), s)
    | ok _ ↦
        let summary : ThreadSummary = record {
          id = prefixed "thread_" uuid;
          title = payload.title;
          created_at = now;
          author_did = payload.author_did;
          scope = payload.scope;
        } in
        (
          ok summary,
          record s { threads = s.threads ++ (record { summary = summary; messages = [] }) ∷ [] },
        )
  ]

  unfoldable pub create_proposal_handler :
      NewProposalRequest
      → (uuid : String) → (in_a_week : ℕ) → InMemoryStore L
      → Result ProposalSummary ApiError × InMemoryStore L
  create_proposal_handler payload uuid in_a_week s =
      let p = new_proposal payload uuid in_a_week in
      (ok p.summary, record s { proposals = s.proposals ++ p ∷ [] })

  -- The clock is read for the deadline, and again for the vote.
  unfoldable pub vote_on :
      ProposalDetail
      → NewVoteRequest
      → (now : ℕ) → (stamp : ℕ) → InMemoryStore L
      → Result Vote ApiError × InMemoryStore L
  vote_on p payload now stamp s =
      if not (status_eqb p.summary.status opened)
      then (err (ApiError.bad_request "Proposal is not open for voting"), s)
      else if ltb p.summary.voting_deadline now
      then (
        err (ApiError.bad_request "Voting deadline has passed for this proposal"),
        record s {
          proposals = update_proposal payload.proposal_id (with_status closed) s.proposals;
        },
      )
      else (
        ok (new_vote payload stamp),
        record s {
          proposals =
              update_proposal payload.proposal_id (with_counts (count_vote payload.vote_type))
                s.proposals;
          votes = s.votes ++ new_vote payload stamp ∷ [];
        },
      )

  unfoldable pub cast_vote_handler :
      (String → Result (Unit {0}) String)
      → NewVoteRequest
      → (now : ℕ) → (stamp : ℕ) → InMemoryStore L
      → Result Vote ApiError × InMemoryStore L
  cast_vote_handler did_from_str payload now stamp s = elim (did_from_str payload.voter_did) [
    | err e ↦ (err (ApiError.bad_request (prefixed "Invalid DID format: " e)), s)
    | ok _ ↦
        if anyb (voted_by payload.proposal_id payload.voter_did) s.votes
        then (err (already_voted payload), s)
        else elim (find_proposal payload.proposal_id s.proposals) [
          | none ↦ (err (no_proposal payload.proposal_id), s)
          | some p ↦ vote_on p payload now stamp s
        ]
  ]
