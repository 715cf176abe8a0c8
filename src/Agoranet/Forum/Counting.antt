-- ===== src/Agoranet/Forum/Counting.antt =====
-- Every handler of icn-agoranet/src/handlers.rs for proposals and votes keeps the counts.
use icn_v.Base.{
  ℕ, String, ◌≡◌, refl, ap, false, List, [], ◌∷◌, ◌++◌, none, some, string_eq, ltb, anyb, Result,
  arith, inl, inr, Bool-cases, Option-cases, Result-cases,
}
use icn_v.Agoranet.Forum.Types.{
  closed, opened, status_eqb, ProposalDetail, VoteType, vote_approve, vote_reject, vote_abstain,
  Vote, NewVoteRequest, InMemoryStore,
}
use icn_v.Agoranet.Forum.Voting.{
  find_proposal, update_proposal, count_vote, with_counts, with_status, voted_by, new_vote, vote_on,
  cast_vote_handler,
}
use icn_v.Agoranet.Forum.Tally.{
  votes_for, tally, IsTallied, find_proposal-append, find_proposal-update_proposal,
  votes_for-append, tally-append, VoteOnce-append,
}

pub proposed-IsTallied :
    (p : ProposalDetail) (ps : List ProposalDetail) (vs : List Vote)
    → p.summary.vote_counts ≡ record { approve = 0; reject = 0; abstain = 0 }
    → IsTallied ps vs
    → IsTallied (ps ++ p ∷ []) vs
proposed-IsTallied p ps vs zeros h = record {
  counted = λ id q found. elim (Option-cases (find_proposal id ps)) [
    | inr (old, present) ↦
        ground (arith, present, find_proposal-append id ps p, found, h.counted id old)
    | inl absent ↦ ground (
      arith,
      absent,
      find_proposal-append id ps p,
      found,
      zeros,
      h.unknown id vote_approve absent,
      h.unknown id vote_reject absent,
      h.unknown id vote_abstain absent,
    )
  ];
  unknown = λ id t missing. elim (Option-cases (find_proposal id ps)) [
    | inr (old, present) ↦ ground (arith, present, find_proposal-append id ps p, missing)
    | inl absent ↦ h.unknown id t absent
  ];
  once = h.once;
}

closed-IsTallied :
    (key : String) (ps : List ProposalDetail) (vs : List Vote)
    → IsTallied ps vs
    → IsTallied (update_proposal key (with_status closed) ps) vs
closed-IsTallied key ps vs h = record {
  counted = λ id q found. elim (Option-cases (find_proposal id ps)) [
    | inr (old, present) ↦ ground (
      arith,
      present,
      find_proposal-update_proposal id key (with_status closed) (λ p. refl) ps,
      found,
      h.counted id old,
    )
    | inl absent ↦ ground (
      arith,
      absent,
      find_proposal-update_proposal id key (with_status closed) (λ p. refl) ps,
      found,
    )
  ];
  unknown = λ id t missing. elim (Option-cases (find_proposal id ps)) [
    | inr (old, present) ↦ ground (
      arith,
      present,
      find_proposal-update_proposal id key (with_status closed) (λ p. refl) ps,
      missing,
    )
    | inl absent ↦ h.unknown id t absent
  ];
  once = h.once;
}

module _ (v : Vote) (p : ProposalDetail) (ps : List ProposalDetail) (vs : List Vote)
    (h : IsTallied ps vs) (exists : find_proposal v.proposal_id ps ≡ some p) where
  abbrev voted_counts : ProposalDetail → ProposalDetail
  voted_counts = with_counts (count_vote v.vote_type)

  voted_counted :
      (id : String) (q : ProposalDetail)
      → find_proposal id (update_proposal v.proposal_id voted_counts ps) ≡ some q
      → q.summary.vote_counts ≡ tally id (vs ++ v ∷ [])
  voted_counted id q found = elim (Option-cases (find_proposal id ps)) [
    | inr (old, present) ↦ ground (
      arith,
      present,
      find_proposal-update_proposal id v.proposal_id voted_counts (λ p. refl) ps,
      found,
      h.counted id old present,
      tally-append id vs v,
    )
    | inl absent ↦ ground (
      arith,
      absent,
      find_proposal-update_proposal id v.proposal_id voted_counts (λ p. refl) ps,
      found,
    )
  ]

  voted_unknown :
      (id : String) (t : VoteType)
      → find_proposal id (update_proposal v.proposal_id voted_counts ps) ≡ none
      → votes_for id t (vs ++ v ∷ []) ≡ 0
  voted_unknown id t missing = elim (Option-cases (find_proposal id ps)) [
    | inr (old, present) ↦ ground (
      arith,
      present,
      find_proposal-update_proposal id v.proposal_id voted_counts (λ p. refl) ps,
      missing,
    )
    | inl absent ↦ elim (Bool-cases (string_eq.eqb v.proposal_id id)) [
      | inl same ↦
          let e : find_proposal v.proposal_id ps ≡ find_proposal id ps =
            ap (λ (i : String). find_proposal i ps) ((string_eq.eqb_iff v.proposal_id id).0 same) in
          ground (arith, exists, absent, e)
      | inr other ↦ ground (arith, other, votes_for-append id t vs v, h.unknown id t absent)
    ]
  ]

  voted-IsTallied :
      anyb (voted_by v.proposal_id v.voter_did) vs ≡ false
      → IsTallied (update_proposal v.proposal_id voted_counts ps) (vs ++ v ∷ [])
  voted-IsTallied new = record {
    counted = voted_counted;
    unknown = voted_unknown;
    once = VoteOnce-append vs v new h.once;
  }

module _ {L : Type 0} where
  abbrev pub StoreTallied : InMemoryStore L → Type 0
  StoreTallied s = IsTallied s.proposals s.votes

  vote_on-StoreTallied :
      (p : ProposalDetail) (payload : NewVoteRequest) (now stamp : ℕ) (s : InMemoryStore L)
      → StoreTallied s
      → anyb (voted_by payload.proposal_id payload.voter_did) s.votes ≡ false
      → find_proposal payload.proposal_id s.proposals ≡ some p
      → StoreTallied (vote_on p payload now stamp s).1
  unfolding vote_on
  vote_on-StoreTallied p payload now stamp s h new exists =
      elim (Bool-cases (status_eqb p.summary.status opened)) [
        | inr other ↦ rw other h
        | inl open_now ↦ elim (Bool-cases (ltb p.summary.voting_deadline now)) [
          | inl late ↦
              rw (open_now, late) (closed-IsTallied payload.proposal_id s.proposals s.votes h)
          | inr in_time ↦
              rw (open_now, in_time)
                (voted-IsTallied (new_vote payload stamp) p s.proposals s.votes h exists new)
        ]
      ]

  pub cast_vote_handler-StoreTallied :
      (parse : String → Result (Unit {0}) String) (payload : NewVoteRequest) (now stamp : ℕ)
      (s : InMemoryStore L)
      → StoreTallied s
      → StoreTallied (cast_vote_handler parse payload now stamp s).1
  unfolding cast_vote_handler
  cast_vote_handler-StoreTallied parse payload now stamp s h =
      elim (Result-cases (parse payload.voter_did)) [
        | inr (e, bad) ↦ rw (bad, cast_vote_handler) h
        | inl (u, good) ↦
            elim (Bool-cases (anyb (voted_by payload.proposal_id payload.voter_did) s.votes)) [
              | inl again ↦ rw (good, again, cast_vote_handler) h
              | inr new ↦ elim (Option-cases (find_proposal payload.proposal_id s.proposals)) [
                | inl absent ↦ rw (good, new, absent, cast_vote_handler) h
                | inr (p, present) ↦
                    rw (good, new, present, cast_vote_handler)
                      (vote_on-StoreTallied p payload now stamp s h new present)
              ]
            ]
      ]
