-- ===== src/Agoranet/Forum/Elections.antt =====
-- The votes that icn-agoranet/src/handlers.rs accepts, and what holds of every store it reaches.
use icn_v.Base.{
  subst, sym, ℕ, ◌≤◌, String, ◌≡◌, ◌⊎◌, refl, false, [], ◌∷◌, ◌++◌, some, anyb, Result, ok, err,
  arith, inl, inr, Option-cases, Result-cases,
}
use icn_v.Agoranet.Forum.Types.{
  opened, status_eqb_iff, ProposalDetail, Vote, NewThreadRequest, NewProposalRequest,
  NewVoteRequest, ApiError, InMemoryStore, default_store,
}
use icn_v.Agoranet.Forum.Voting.{
  find_proposal, voted_by, create_thread_handler, new_proposal, create_proposal_handler, new_vote,
  vote_on, cast_vote_handler,
}
use icn_v.Agoranet.Forum.Tally.{votes_for}
use icn_v.Agoranet.Forum.Counting.{StoreTallied, proposed-IsTallied, cast_vote_handler-StoreTallied}

-- A vote has what a request says, and the time.
abbrev pub Records : NewVoteRequest → ℕ → Vote → Type 0
Records payload stamp v =
    (v.proposal_id ≡ payload.proposal_id)
    × (v.voter_did ≡ payload.voter_did)
    × (v.vote_type ≡ payload.vote_type)
    × (v.timestamp ≡ stamp)
    × (v.justification ≡ payload.justification)

module _ {L : Type 0} (parse : String → Result (Unit {0}) String) where
  -- The stores that the handlers reach from the empty one.
  pub data Reachable : InMemoryStore L → Type 1 where
    started : Reachable default_store
    threaded :
        {Value : Type 0} {s : InMemoryStore L} (payload : NewThreadRequest Value) (uuid : String)
        (now : ℕ)
        → Reachable s
        → Reachable (create_thread_handler parse payload uuid now s).1
    proposed :
        {s : InMemoryStore L} (payload : NewProposalRequest) (uuid : String) (in_a_week : ℕ)
        → Reachable s
        → Reachable (create_proposal_handler payload uuid in_a_week s).1
    voted :
        {s : InMemoryStore L} (payload : NewVoteRequest) (now stamp : ℕ)
        → Reachable s
        → Reachable (cast_vote_handler parse payload now stamp s).1

  create_thread_handler-StoreTallied :
      {Value : Type 0} (payload : NewThreadRequest Value) (uuid : String) (now : ℕ)
      (s : InMemoryStore L)
      → StoreTallied s
      → StoreTallied (create_thread_handler parse payload uuid now s).1
  unfolding create_thread_handler
  create_thread_handler-StoreTallied payload uuid now s h =
      elim (Result-cases (parse payload.author_did)) [
        | inr (e, bad) ↦ rw (bad, create_thread_handler) h
        | inl (u, good) ↦ rw (good, create_thread_handler) h
      ]

  -- In every store that is reached from the empty one by creating threads and proposals and casting
  -- votes, accepted or refused, no voter has voted twice on a proposal, the counts of each proposal
  -- are the numbers of its votes of each type, modulo 2 ^ 32, and an identifier without a proposal
  -- has no votes.
  pub Reachable-StoreTallied : (s : InMemoryStore L) → Reachable s → StoreTallied s
  unfolding create_proposal_handler find_proposal votes_for
  Reachable-StoreTallied _ started = record {
    counted = λ id p found. cc;
    unknown = λ id t missing. refl;
    once = tt;
  }
  Reachable-StoreTallied _ (threaded {s = s} payload uuid now r) =
      create_thread_handler-StoreTallied payload uuid now s (Reachable-StoreTallied s r)
  Reachable-StoreTallied _ (proposed {s} payload uuid in_a_week r) =
      proposed-IsTallied (new_proposal payload uuid in_a_week) s.proposals s.votes refl
        (Reachable-StoreTallied s r)
  Reachable-StoreTallied _ (voted {s} payload now stamp r) =
      cast_vote_handler-StoreTallied parse payload now stamp s (Reachable-StoreTallied s r)

  -- The conditions under which a vote counts.
  pub record MayVote (payload : NewVoteRequest) (now : ℕ) (s : InMemoryStore L) : Type 0 where
    pub target : ProposalDetail
    pub voter_is_did : parse payload.voter_did ≡ ok tt
    pub first_vote : anyb (voted_by payload.proposal_id payload.voter_did) s.votes ≡ false
    pub exists : find_proposal payload.proposal_id s.proposals ≡ some target
    pub is_open : target.summary.status ≡ opened
    pub in_time : now ≤ target.summary.voting_deadline

  may_vote :
      (payload : NewVoteRequest) (now stamp : ℕ) (s : InMemoryStore L) {v : Vote}
      → (cast_vote_handler parse payload now stamp s).0 ≡ ok v
      → MayVote payload now s
  unfolding cast_vote_handler vote_on
  may_vote payload now stamp s h = elim (Result-cases (parse payload.voter_did)) [
    | inr (e, bad) ↦ ground (arith, bad, h)
    | inl (u, good) ↦ elim (Option-cases (find_proposal payload.proposal_id s.proposals)) [
      | inl absent ↦ ground (arith, good, absent, h)
      | inr (p, present) ↦ record {
        target = p;
        voter_is_did = good;
        first_vote = ground (arith, good, h);
        exists = present;
        is_open = ground (arith, good, present, h, status_eqb_iff p.summary.status opened);
        in_time = ground (arith, good, present, h);
      }
    ]
  ]

  accepts :
      (payload : NewVoteRequest) (now stamp : ℕ) (s : InMemoryStore L)
      → MayVote payload now s
      → (cast_vote_handler parse payload now stamp s).0 ≡ ok (new_vote payload stamp)
  unfolding cast_vote_handler vote_on
  accepts payload now stamp s m = ground (
    arith,
    m.voter_is_did,
    m.first_vote,
    m.exists,
    m.is_open,
    m.in_time,
    status_eqb_iff m.target.summary.status opened,
  )

  stores :
      (payload : NewVoteRequest) (now stamp : ℕ) (s : InMemoryStore L) (v : Vote)
      → let (r, s') = cast_vote_handler parse payload now stamp s in
        r ≡ ok v → (v ≡ new_vote payload stamp) × (s'.votes ≡ s.votes ++ v ∷ [])
  unfolding cast_vote_handler vote_on
  stores payload now stamp s v h = ground arith

  keeps :
      (payload : NewVoteRequest) (now stamp : ℕ) (s : InMemoryStore L) (e : ApiError)
      → let (r, s') = cast_vote_handler parse payload now stamp s in r ≡ err e → s'.votes ≡ s.votes
  unfolding cast_vote_handler vote_on
  keeps payload now stamp s e h = ground arith

  -- A vote is accepted exactly when the voter is a DID that has not voted on the proposal, and the
  -- proposal exists, is open and has not passed its deadline; it is then stored last, with the
  -- proposal, the voter, the type and the justification of the request and the time of the second
  -- reading of the clock. Any other vote is refused with an error and leaves
  -- the votes as they were.
  pub cast_vote_handler_lem :
      (payload : NewVoteRequest) (now stamp : ℕ) (s : InMemoryStore L)
      → let (r, s') = cast_vote_handler parse payload now stamp s in
        ((v : Vote) × (r ≡ ok v)
          × Records payload stamp v
          × MayVote payload now s
          × (s'.votes ≡ s.votes ++ v ∷ []))
        ⊎ ((e : ApiError) × (r ≡ err e) × ¬ (MayVote payload now s) × (s'.votes ≡ s.votes))
  cast_vote_handler_lem payload now stamp s =
      elim (Result-cases (cast_vote_handler parse payload now stamp s).0) [
        | inl (v, accepted) ↦
            let (same, stored) = stores payload now stamp s v accepted in
            inl (
              v,
              accepted,
              subst (Records payload stamp) (sym same) (refl, refl, refl, refl, refl),
              may_vote payload now stamp s accepted,
              stored,
            )
        | inr (e, refused) ↦ inr (
          e,
          refused,
          λ m. ground (arith, refused, accepts payload now stamp s m),
          keeps payload now stamp s e refused,
        )
      ]
