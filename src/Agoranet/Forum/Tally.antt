-- ===== src/Agoranet/Forum/Tally.antt =====
-- The counts of the proposals of icn-agoranet/src/handlers.rs are those of the votes.
use icn_v.Base.{
  ℕ, suc, String, ◌≡◌, refl, Bool, true, false, ◌&&◌, List, [], ◌∷◌, ◌++◌, Option, none, some,
  if◌then◌else◌, string_eq, wrap32, anyb, anyb-append, arith,
}
use icn_v.Agoranet.Forum.Types.{
  VoteCounts, ProposalDetail, VoteType, vote_approve, vote_reject, vote_abstain, Vote,
}
use icn_v.Agoranet.Forum.Voting.{has_id, find_proposal, update_proposal, count_vote, voted_by}

abbrev pub vote_eqb : VoteType → VoteType → Bool
vote_eqb vote_approve vote_approve = true
vote_eqb vote_reject vote_reject = true
vote_eqb vote_abstain vote_abstain = true
vote_eqb _ _ = false

-- The votes of a type on a proposal.
unfoldable pub votes_for : String → VoteType → List Vote → ℕ
votes_for id t [] = 0
votes_for id t (v ∷ vs) =
    if string_eq.eqb v.proposal_id id && vote_eqb v.vote_type t
    then suc (votes_for id t vs)
    else votes_for id t vs

-- The counts of a proposal as `u32`s.
abbrev pub tally : String → List Vote → VoteCounts
tally id vs = record {
  approve = wrap32 (votes_for id vote_approve vs);
  reject = wrap32 (votes_for id vote_reject vs);
  abstain = wrap32 (votes_for id vote_abstain vs);
}

-- No voter votes twice on a proposal.
abbrev pub VoteOnce : List Vote → Type 0
VoteOnce [] = Unit
VoteOnce (v ∷ vs) = (anyb (voted_by v.proposal_id v.voter_did) vs ≡ false) × VoteOnce vs

-- A proposal that can be found has the counts of its votes; what is no proposal has no votes.
pub record IsTallied (ps : List ProposalDetail) (vs : List Vote) : Type 0 where
  pub counted :
      (id : String) (p : ProposalDetail)
      → find_proposal id ps ≡ some p
      → p.summary.vote_counts ≡ tally id vs
  pub unknown : (id : String) (t : VoteType) → find_proposal id ps ≡ none → votes_for id t vs ≡ 0
  pub once : VoteOnce vs

pub find_proposal-append :
    (id : String) (ps : List ProposalDetail) (p : ProposalDetail)
    → find_proposal id (ps ++ p ∷ [])
      ≡ elim (find_proposal id ps) [ none ↦ if has_id id p then some p else none | some q ↦ some q ]
unfolding find_proposal
find_proposal-append id [] p = refl
find_proposal-append id (q ∷ ps) p = ground (arith, find_proposal-append id ps p)

abbrev pub map_option : {A : Type 0} → (A → A) → Option A → Option A
map_option f none = none
map_option f (some a) = some (f a)

-- An update that keeps the identifier.
pub find_proposal-update_proposal :
    (id key : String) (f : ProposalDetail → ProposalDetail)
    → ((p : ProposalDetail) → (f p).summary.id ≡ p.summary.id)
    → (ps : List ProposalDetail)
    → find_proposal id (update_proposal key f ps)
      ≡ (if string_eq.eqb key id then map_option f (find_proposal id ps) else find_proposal id ps)
unfolding find_proposal update_proposal
find_proposal-update_proposal id key f keep [] = ground arith
find_proposal-update_proposal id key f keep (p ∷ ps) = ground (
  arith,
  keep p,
  string_eq.eqb_iff key id,
  string_eq.eqb_iff p.summary.id key,
  string_eq.eqb_iff p.summary.id id,
  find_proposal-update_proposal id key f keep ps,
)

pub votes_for-append :
    (id : String) (t : VoteType) (vs : List Vote) (v : Vote)
    → votes_for id t (vs ++ v ∷ []) ≡ (
        if string_eq.eqb v.proposal_id id && vote_eqb v.vote_type t
        then suc (votes_for id t vs)
        else votes_for id t vs)
unfolding votes_for
votes_for-append id t [] v = refl
votes_for-append id t (u ∷ vs) v = ground (arith, votes_for-append id t vs v)

pub tally-append :
    (id : String) (vs : List Vote) (v : Vote)
    → tally id (vs ++ v ∷ []) ≡ (
        if string_eq.eqb v.proposal_id id
        then count_vote v.vote_type (tally id vs)
        else tally id vs)
unfolding count_vote
tally-append id vs v = ground (
  arith,
  votes_for-append id vote_approve vs v,
  votes_for-append id vote_reject vs v,
  votes_for-append id vote_abstain vs v,
)

pub VoteOnce-append :
    (vs : List Vote) (v : Vote)
    → anyb (voted_by v.proposal_id v.voter_did) vs ≡ false
    → VoteOnce vs
    → VoteOnce (vs ++ v ∷ [])
VoteOnce-append [] v h o = (refl, tt)
VoteOnce-append (u ∷ vs) v h o = ground (
  arith,
  VoteOnce-append vs v,
  anyb-append (voted_by u.proposal_id u.voter_did) vs (v ∷ []),
  string_eq.eqb_iff u.proposal_id v.proposal_id,
  string_eq.eqb_iff v.proposal_id u.proposal_id,
  string_eq.eqb_iff u.voter_did v.voter_did,
  string_eq.eqb_iff v.voter_did u.voter_did,
)
